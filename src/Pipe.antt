-- ===== src/Pipe.antt =====
-- The pipe of mit-6.828/lab/lib/pipe.c: devpipe_read and devpipe_write of one reader and one writer that
-- run at the same time, one access to the shared page per step.
pub mod Accesses
pub mod Fifo
mod Tests
use papers_annotation.Prelude.{
  ℕ, ◌+◌, ◌-◌, ◌%◌, ◌^◌, Bool, true, false, Option, none, some, List, [], ◌∷◌, ◌++◌, ltb, leb, ◌==◌,
  ◌||◌, if◌then◌else◌, ◌≡◌,
}
use papers_annotation.Mmu.{u32}
use papers_annotation.Kern.State.{update}

-- Positions are 32-bit patterns of an off_t.
pub record Pipe : Type 0 where
  pub p_rpos : ℕ
  pub p_wpos : ℕ
  pub p_buf : ℕ → ℕ

-- `p % PIPEBUFSIZ` as an index. The remainder of a negative position is negative but for multiples of
-- the size, and such an index is outside the buffer.
abbrev pub slot : ℕ → Option ℕ
slot p = if ltb p (2 ^ 31) || p % 32 == 0 then some (p % 32) else none

-- Where devpipe_read stands, with n and i, and what it returned last.
pub data Reader : Type 0 where
  done : ℕ → Reader
  looking : ℕ → ℕ → Reader
  taking : ℕ → ℕ → Reader
  taken : ℕ → ℕ → Reader
  fault : Reader

-- Where devpipe_write stands, with the bytes that it has still to write, the first of them apart.
pub data Writer : Type 0 where
  done : ℕ → Writer
  looking : List ℕ → ℕ → Writer
  storing : ℕ → List ℕ → ℕ → Writer
  stored : ℕ → List ℕ → ℕ → Writer
  fault : Writer

-- `got` are the bytes that the reader has put into its buffers, `sent` those that the writer has
-- finished writing.
pub record System : Type 0 where
  pub pipe : Pipe
  pub reader : Reader
  pub writer : Writer
  pub got : List ℕ
  pub sent : List ℕ

abbrev pub take_byte : Option ℕ → ℕ → ℕ → System → System
take_byte none n i s = record s { reader = Reader.fault }
take_byte (some k) n i s = record s {
  reader = Reader.taken n i;
  got = s.got ++ (s.pipe.p_buf k ∷ []);
}

-- The next access of the reader; `closed` is what _pipeisclosed would return.
unfoldable pub read_access : Bool → Reader → System → System
read_access closed (Reader.done r) s = s
read_access closed (Reader.looking n i) s =
    if leb n i
    then record s { reader = Reader.done i }
    else if s.pipe.p_rpos == s.pipe.p_wpos
    then (if ltb 0 i
        then record s { reader = Reader.done i }
        else if closed
        then record s { reader = Reader.done 0 }
        else s)
    else record s { reader = Reader.taking n i }
read_access closed (Reader.taking n i) s = take_byte (slot s.pipe.p_rpos) n i s
read_access closed (Reader.taken n i) s = record s {
  pipe = record s.pipe { p_rpos = u32 (s.pipe.p_rpos + 1) };
  reader = Reader.looking n (i + 1);
}
read_access closed Reader.fault s = s

abbrev pub store_byte : Option ℕ → ℕ → List ℕ → ℕ → System → System
store_byte none b bs i s = record s { writer = Writer.fault }
store_byte (some k) b bs i s = record s {
  pipe = record s.pipe { p_buf = update s.pipe.p_buf k b };
  writer = Writer.stored b bs i;
}

unfoldable pub write_access : Bool → Writer → System → System
write_access closed (Writer.done r) s = s
write_access closed (Writer.looking [] i) s = record s { writer = Writer.done i }
write_access closed (Writer.looking (b ∷ bs) i) s =
    if leb (u32 (s.pipe.p_rpos + 32)) s.pipe.p_wpos
    then (if closed then record s { writer = Writer.done 0 } else s)
    else record s { writer = Writer.storing b bs i }
write_access closed (Writer.storing b bs i) s = store_byte (slot s.pipe.p_wpos) b bs i s
write_access closed (Writer.stored b bs i) s = record s {
  pipe = record s.pipe { p_wpos = u32 (s.pipe.p_wpos + 1) };
  writer = Writer.looking bs (i + 1);
  sent = s.sent ++ (b ∷ []);
}
write_access closed Writer.fault s = s

pub data Step (s : System) : System → Type 0 where
  call_read :
      (n r : ℕ) → s.reader ≡ Reader.done r → Step s (record s { reader = Reader.looking n 0 })
  call_write :
      (bytes : List ℕ) (r : ℕ)
      → s.writer ≡ Writer.done r
      → Step s (record s { writer = Writer.looking bytes 0 })
  read : (closed : Bool) → Step s (read_access closed s.reader s)
  write : (closed : Bool) → Step s (write_access closed s.writer s)

-- The page is cleared when `pipe` allocates it.
abbrev pub new_pipe : System
new_pipe = record {
  pipe = record { p_rpos = 0; p_wpos = 0; p_buf = λ k. 0 };
  reader = Reader.done 0;
  writer = Writer.done 0;
  got = [];
  sent = [];
}

pub data Reach : System → Type 0 where
  start : Reach new_pipe
  later : {s t : System} → Reach s → Step s t → Reach t
