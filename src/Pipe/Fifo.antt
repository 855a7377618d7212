-- ===== src/Pipe/Fifo.antt =====
-- What goes through the pipe of mit-6.828/lab/lib/pipe.c comes out in order.
use papers_annotation.Prelude.{
  ℕ, ◌+◌, ◌^◌, ◌≤◌, ◌<◌, ◌≡◌, ◌≢◌, refl, sym, ap, ◌∙◌, arith, Bool, false, [], ◌∷◌, length,
  length-append, length-take, take,
}
use papers_annotation.Pipe.{
  Reader, Writer, System, read_access, write_access, Step, call_read, call_write, read, write,
  Reach, start, later,
}
use papers_annotation.Pipe.Accesses.{
  ReaderAt, Inv, at_reader, at_writer, reader_here, writer_here, read-Inv, write-Inv,
}

-- The writer's log only grows.
read_access-sent :
    (closed : Bool) (r : Reader) (s : System) → (read_access closed r s).sent ≡ s.sent
unfolding read_access
read_access-sent closed (Reader.done r) s = refl
read_access-sent closed (Reader.looking n i) s = ground arith
read_access-sent closed (Reader.taking n i) s = ground arith
read_access-sent closed (Reader.taken n i) s = refl
read_access-sent closed Reader.fault s = refl

write_access-sent :
    (closed : Bool) (w : Writer) (s : System)
    → length s.sent ≤ length (write_access closed w s).sent
unfolding write_access
write_access-sent closed (Writer.done r) s = omega arith
write_access-sent closed (Writer.looking [] i) s = omega arith
write_access-sent closed (Writer.looking (b ∷ bs) i) s = ground arith
write_access-sent closed (Writer.storing b bs i) s = ground arith
write_access-sent closed (Writer.stored b bs i) s = omega (arith, length-append s.sent (b ∷ []))
write_access-sent closed Writer.fault s = omega arith

Step-sent : {s t : System} → Step s t → length s.sent ≤ length t.sent
Step-sent (call_read n r e) = omega arith
Step-sent (call_write bytes r e) = omega arith
Step-sent {s} (read closed) = omega (arith, ap length (read_access-sent closed s.reader s))
Step-sent {s} (write closed) = write_access-sent closed s.writer s

Step-Inv : {s t : System} → Step s t → length s.sent < 2 ^ 31 → Inv s → Inv t
Step-Inv {s} (call_read n r e) few inv =
    at_reader false s inv few (Reader.looking n 0) (reader_here false s inv few (Reader.done r) e)
Step-Inv {s} (call_write bytes r e) few inv = at_writer false s inv few (Writer.looking bytes 0) tt
Step-Inv {s} (read closed) few inv = read-Inv closed s inv few s.reader refl
Step-Inv {s} (write closed) few inv = write-Inv closed s inv few s.writer refl

Reach-Inv : {s : System} → Reach s → length s.sent < 2 ^ 31 → Inv s
Reach-Inv start few = record {
  order = omega arith;
  room = omega arith;
  wrote = refl;
  kept = λ k low high. absurd (omega arith);
  reader_at = refl;
  writer_at = tt;
}
Reach-Inv (later {s} r st) few =
    let before : length s.sent < 2 ^ 31 = omega (arith, Step-sent st, few) in
    Step-Inv st before (Reach-Inv r before)

-- The reader has a prefix of what was written.
reader_prefix :
    (s : System) (r : Reader)
    → s.pipe.p_rpos ≤ s.pipe.p_wpos
    → ReaderAt r s.pipe s.got s.sent
    → (p : ℕ) × (s.got ≡ take p s.sent) × (s.pipe.p_rpos ≤ p) × (p ≤ s.pipe.p_wpos)
reader_prefix s (Reader.done r) order h = (s.pipe.p_rpos, h, omega arith, order)
reader_prefix s (Reader.looking n i) order h = (s.pipe.p_rpos, h, omega arith, order)
reader_prefix s (Reader.taking n i) order h = (s.pipe.p_rpos, h.0, omega arith, order)
reader_prefix s (Reader.taken n i) order h = (s.pipe.p_rpos + 1, h.0, omega arith, omega arith)
reader_prefix s Reader.fault order h = absurd h

-- A pipe with one reader and one writer, whatever the order of their accesses, the sizes of their calls and
-- what they learn of the other end, as long as fewer than 2 ^ 31 bytes were written: the bytes that the
-- reader got are the first that the writer wrote, in order, with none lost, twice or torn; at most 32
-- written bytes wait; and neither reads or writes outside the buffer.
pub pipe_fifo :
    {s : System}
    → Reach s
    → length s.sent < 2 ^ 31
    → (s.got ≡ take (length s.got) s.sent)
      × (length s.got ≤ length s.sent)
      × (length s.sent ≤ length s.got + 32)
      × (s.reader ≢ Reader.fault)
      × (s.writer ≢ Writer.fault)
pipe_fifo {s} r few =
    let inv = Reach-Inv r few in
    let (p, prefix, low, high) = reader_prefix s s.reader inv.order inv.reader_at in
    let size : length s.got ≡ p =
      ap length prefix ∙ length-take p s.sent ∙ omega (arith, inv.wrote, high) in
    (
      prefix ∙ ap (λ (n : ℕ). take n s.sent) (sym size),
      omega (arith, size, inv.wrote),
      omega (arith, size, inv.wrote, inv.room),
      λ e. reader_here false s inv few Reader.fault e,
      λ e. writer_here false s inv few Writer.fault e,
    )
