-- ===== src/Pipe/Accesses.antt =====
-- What each access to the pipe of mit-6.828/lab/lib/pipe.c keeps.
use mathlib.Core.Path.{subst}
use papers_annotation.Prelude.{
  ℕ, ◌+◌, ◌%◌, ◌^◌, ◌≤◌, ◌<◌, ◌≡◌, ◌≢◌, refl, sym, ◌∙◌, arith, Bool, false, some, List, [], ◌∷◌,
  ◌++◌, ltb, leb, ◌==◌, length, length-append, get_or, take, Bool-cases, inl, inr, dec_lt, lt→ltb,
  take-suc, take-before, get_or-before, get_or-last,
}
use papers_annotation.Mmu.{u32}
use papers_annotation.Pipe.{
  Pipe, Reader, Writer, System, slot, take_byte, store_byte, read_access, write_access,
}

-- What the place of the reader says.
abbrev pub ReaderAt : Reader → Pipe → List ℕ → List ℕ → Type 0
ReaderAt (Reader.done r) p got sent = got ≡ take p.p_rpos sent
ReaderAt (Reader.looking n i) p got sent = got ≡ take p.p_rpos sent
ReaderAt (Reader.taking n i) p got sent = (got ≡ take p.p_rpos sent) × (p.p_rpos < p.p_wpos)
ReaderAt (Reader.taken n i) p got sent = (got ≡ take (p.p_rpos + 1) sent) × (p.p_rpos < p.p_wpos)
ReaderAt Reader.fault p got sent = ⊥

abbrev pub WriterAt : Writer → Pipe → Type 0
WriterAt (Writer.done r) p = Unit {0}
WriterAt (Writer.looking bs i) p = Unit {0}
WriterAt (Writer.storing b bs i) p = p.p_wpos < p.p_rpos + 32
WriterAt (Writer.stored b bs i) p = (p.p_wpos < p.p_rpos + 32) × (p.p_buf (p.p_wpos % 32) ≡ b)
WriterAt Writer.fault p = ⊥

pub record Inv (s : System) : Type 0 where
  pub order : s.pipe.p_rpos ≤ s.pipe.p_wpos
  pub room : s.pipe.p_wpos ≤ s.pipe.p_rpos + 32
  pub wrote : length s.sent ≡ s.pipe.p_wpos
  pub kept :
      (k : ℕ) → s.pipe.p_rpos ≤ k → k < s.pipe.p_wpos → s.pipe.p_buf (k % 32) ≡ get_or s.sent k 0
  pub reader_at : ReaderAt s.reader s.pipe s.got s.sent
  pub writer_at : WriterAt s.writer s.pipe

module _ (closed : Bool) (s : System) (inv : Inv s) (few : length s.sent < 2 ^ 31) where
  small : s.pipe.p_wpos < 2 ^ 31
  small = omega (arith, inv.wrote, few)

  pub at_reader : (r : Reader) → ReaderAt r s.pipe s.got s.sent → Inv (record s { reader = r })
  at_reader r h = record {
    order = inv.order;
    room = inv.room;
    wrote = inv.wrote;
    kept = inv.kept;
    reader_at = h;
    writer_at = inv.writer_at;
  }

  pub reader_here : (r : Reader) → s.reader ≡ r → ReaderAt r s.pipe s.got s.sent
  reader_here r e = subst (λ r. ReaderAt r s.pipe s.got s.sent) e inv.reader_at

  pub writer_here : (w : Writer) → s.writer ≡ w → WriterAt w s.pipe
  writer_here w e = subst (λ w. WriterAt w s.pipe) e inv.writer_at

  low_slot : (p : ℕ) → p < 2 ^ 31 → slot p ≡ some (p % 32)
  low_slot p h = rw (lt→ltb p (2 ^ 31) h) refl

  -- The reader takes the byte at its position.
  take_byte-Inv :
      (n i : ℕ) → s.reader ≡ Reader.taking n i → Inv (take_byte (slot s.pipe.p_rpos) n i s)
  take_byte-Inv n i e =
      let (prefix, ahead) = reader_here (Reader.taking n i) e in
      let byte = inv.kept s.pipe.p_rpos (omega arith) ahead in
      let more = take-suc s.sent s.pipe.p_rpos 0 (omega (arith, inv.wrote, ahead)) in
      rw (low_slot s.pipe.p_rpos (omega (arith, inv.order, small))) (record {
        order = inv.order;
        room = inv.room;
        wrote = inv.wrote;
        kept = inv.kept;
        reader_at = (rw (prefix, byte) (sym more), ahead);
        writer_at = inv.writer_at;
      })

  advance_writer :
      (w : Writer) → WriterAt w s.pipe → WriterAt w (record s.pipe { p_rpos = s.pipe.p_rpos + 1 })
  advance_writer (Writer.done r) h = tt
  advance_writer (Writer.looking bs i) h = tt
  advance_writer (Writer.storing b bs i) h = omega arith
  advance_writer (Writer.stored b bs i) h = (omega arith, h.1)
  advance_writer Writer.fault h = h

  pub read-Inv : (r : Reader) → s.reader ≡ r → Inv (read_access closed r s)
  unfolding read_access
  read-Inv (Reader.done r) e = inv
  read-Inv (Reader.looking n i) e =
      let prefix = reader_here (Reader.looking n i) e in
      elim (Bool-cases (leb n i)) [
        | inl t ↦ rw t (at_reader (Reader.done i) prefix)
        | inr t ↦ rw t (elim (Bool-cases (s.pipe.p_rpos == s.pipe.p_wpos)) [
          | inl empty ↦ rw empty (elim (Bool-cases (ltb 0 i)) [
            | inl some_data ↦ rw some_data (at_reader (Reader.done i) prefix)
            | inr nothing ↦ rw nothing (elim (Bool-cases closed) [
              | inl c ↦ rw c (at_reader (Reader.done 0) prefix)
              | inr c ↦ rw c inv
            ])
          ])
          | inr full ↦
              rw full (at_reader (Reader.taking n i) (prefix, ground (arith, full, inv.order)))
        ])
      ]
  read-Inv (Reader.taking n i) e = take_byte-Inv n i e
  read-Inv (Reader.taken n i) e =
      let (prefix, ahead) = reader_here (Reader.taken n i) e in
      let next : u32 (s.pipe.p_rpos + 1) ≡ s.pipe.p_rpos + 1 = omega (arith, inv.order, small) in
      rw next (record {
        order = omega arith;
        room = omega (arith, inv.room);
        wrote = inv.wrote;
        kept = λ k low high. inv.kept k (omega arith) high;
        reader_at = prefix;
        writer_at = advance_writer s.writer inv.writer_at;
      })
  read-Inv Reader.fault e = inv

  pub at_writer : (w : Writer) → WriterAt w s.pipe → Inv (record s { writer = w })
  at_writer w h = record {
    order = inv.order;
    room = inv.room;
    wrote = inv.wrote;
    kept = inv.kept;
    reader_at = inv.reader_at;
    writer_at = h;
  }

  keep_reader :
      (r : Reader) (buf : ℕ → ℕ)
      → ReaderAt r s.pipe s.got s.sent
      → ReaderAt r (record s.pipe { p_buf = buf }) s.got s.sent
  keep_reader (Reader.done r) buf h = h
  keep_reader (Reader.looking n i) buf h = h
  keep_reader (Reader.taking n i) buf h = h
  keep_reader (Reader.taken n i) buf h = h
  keep_reader Reader.fault buf h = h

  -- The byte goes into a place that holds none which is still to be read.
  store_byte-Inv :
      (b : ℕ) (bs : List ℕ) (i : ℕ)
      → s.writer ≡ Writer.storing b bs i
      → Inv (store_byte (slot s.pipe.p_wpos) b bs i s)
  store_byte-Inv b bs i e =
      let room = writer_here (Writer.storing b bs i) e in
      rw (low_slot s.pipe.p_wpos small) (record {
        order = inv.order;
        room = inv.room;
        wrote = inv.wrote;
        kept = λ k low high.
            let ne : s.pipe.p_wpos % 32 ≢ k % 32 = λ same. omega arith in
            let apart : (s.pipe.p_wpos % 32 == k % 32) ≡ false = ground (arith, ne) in
            rw apart (inv.kept k low high);
        reader_at = keep_reader s.reader _ inv.reader_at;
        writer_at = (room, ground arith);
      })

  advance_reader :
      (r : Reader) (b : ℕ)
      → ReaderAt r s.pipe s.got s.sent
      → ReaderAt r (record s.pipe { p_wpos = s.pipe.p_wpos + 1 }) s.got (s.sent ++ (b ∷ []))
  advance_reader (Reader.done r) b h =
      h ∙ sym (take-before s.sent b s.pipe.p_rpos (omega (arith, inv.order, inv.wrote)))
  advance_reader (Reader.looking n i) b h =
      h ∙ sym (take-before s.sent b s.pipe.p_rpos (omega (arith, inv.order, inv.wrote)))
  advance_reader (Reader.taking n i) b h = (
    h.0 ∙ sym (take-before s.sent b s.pipe.p_rpos (omega (arith, inv.order, inv.wrote))),
    omega arith,
  )
  advance_reader (Reader.taken n i) b h = (
    h.0 ∙ sym (take-before s.sent b (s.pipe.p_rpos + 1) (omega (arith, inv.order, inv.wrote))),
    omega arith,
  )
  advance_reader Reader.fault b h = h

  pub write-Inv : (w : Writer) → s.writer ≡ w → Inv (write_access closed w s)
  unfolding write_access
  write-Inv (Writer.done r) e = inv
  write-Inv (Writer.looking [] i) e = at_writer (Writer.done i) tt
  write-Inv (Writer.looking (b ∷ bs) i) e =
      elim (Bool-cases (leb (u32 (s.pipe.p_rpos + 32)) s.pipe.p_wpos)) [
        | inl full ↦ rw full (elim (Bool-cases closed) [
          | inl c ↦ rw c (at_writer (Writer.done 0) tt)
          | inr c ↦ rw c inv
        ])
        | inr free ↦
            rw free (at_writer (Writer.storing b bs i) (ground (arith, free, inv.order, small)))
      ]
  write-Inv (Writer.storing b bs i) e = store_byte-Inv b bs i e
  write-Inv (Writer.stored b bs i) e =
      let (room, held) = writer_here (Writer.stored b bs i) e in
      let next : u32 (s.pipe.p_wpos + 1) ≡ s.pipe.p_wpos + 1 = omega (arith, small) in
      rw next (record {
        order = omega (arith, inv.order);
        room = omega arith;
        wrote = omega (arith, length-append s.sent (b ∷ []), inv.wrote);
        kept = λ k low high. elim (dec_lt k s.pipe.p_wpos) [
          | yes old ↦
              inv.kept k low old ∙ sym (get_or-before s.sent b k 0 (omega (arith, inv.wrote)))
          | no new ↦
              let last : k ≡ s.pipe.p_wpos = omega arith in
              rw last (held ∙ sym (get_or-last s.sent b s.pipe.p_wpos 0 (sym inv.wrote)))
        ];
        reader_at = advance_reader s.reader b inv.reader_at;
        writer_at = tt;
      })
  write-Inv Writer.fault e = inv
