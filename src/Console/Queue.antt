-- ===== src/Console/Queue.antt =====
-- The console input buffer of mit-6.828/lab/kern/console.c is a queue of at most 511 characters.
use mathlib.Core.List.{append-nil, append_assoc}
use mathlib.Core.Path.{subst}
use papers_annotation.Prelude.{
  ℕ, suc, ◌+◌, ◌%◌, ◌<◌, ◌≡◌, ◌≢◌, refl, sym, ap, ◌∙◌, arith, List, [], ◌∷◌, ◌++◌, true, false,
  ◌==◌, if◌then◌else◌, length, length-append, get_or, get_or-before, get_or-last, Bool-cases, inl,
  inr, dec_lt,
}
use papers_annotation.Console.{Cons, advance, store_char, cons_intr, take_char, cons_getc}

-- The buffer holds the characters q, first to last.
pub record Holds (s : Cons) (q : List ℕ) : Type 0 where
  pub in_range : s.rpos < 512
  pub fits : length q < 512
  pub end : s.wpos ≡ (s.rpos + length q) % 512
  pub kept : (i : ℕ) → i < length q → s.buf ((s.rpos + i) % 512) ≡ get_or q i 0

-- The characters that are stored: bytes, and not 0.
abbrev pub stored : List ℕ → List ℕ
stored [] = []
stored (c ∷ cs) = if c == 0 then stored cs else c % 256 ∷ stored cs

store_char-Holds :
    (c : ℕ) (s : Cons) (q : List ℕ)
    → Holds s q
    → length q + 1 < 512
    → Holds (store_char c s) (q ++ (c % 256 ∷ []))
store_char-Holds c s q h room =
    let size : length (q ++ (c % 256 ∷ [])) ≡ length q + 1 = length-append q (c % 256 ∷ []) in
    record {
      in_range = h.in_range;
      fits = omega (arith, size);
      end = ground (arith, h.end, h.in_range, size);
      kept = λ i lt. elim (dec_lt i (length q)) [
        | yes old ↦
            let apart : (s.rpos + i) % 512 ≢ s.wpos = λ e. omega (arith, h.end, h.in_range) in
            ground (arith, h.kept i old) ∙ sym (get_or-before q (c % 256) i 0 old)
        | no new ↦
            let last : i ≡ length q = omega (arith, size) in
            let here : (s.rpos + i) % 512 ≡ s.wpos = omega (arith, h.end) in
            ground arith ∙ sym (get_or-last q (c % 256) i 0 last)
      ];
    }

cons_intr-Holds :
    (cs : List ℕ) (s : Cons) (q : List ℕ)
    → Holds s q
    → length q + length (stored cs) < 512
    → Holds (cons_intr cs s) (q ++ stored cs)
unfolding cons_intr
cons_intr-Holds [] s q h room = subst (Holds s) (sym (append-nil q)) h
cons_intr-Holds (c ∷ cs) s q h room = elim (Bool-cases (c == 0)) [
  | inl e ↦ rw e (cons_intr-Holds cs s q h (rw e at room))
  | inr e ↦
      let more : length q + suc (length (stored cs)) < 512 = rw e at room in
      let size = length-append q (c % 256 ∷ []) in
      rw e (
        subst (Holds (cons_intr cs (store_char c s))) (append_assoc q (c % 256 ∷ []) (stored cs)) (
          cons_intr-Holds cs (store_char c s) (q ++ (c % 256 ∷ []))
            (store_char-Holds c s q h (omega arith)) (omega (arith, size))))
]

-- What is left of a queue when its first element is taken, and that element; 0 if there is none.
abbrev pub front : List ℕ → ℕ
front [] = 0
front (c ∷ q) = c

abbrev pub behind : List ℕ → List ℕ
behind [] = []
behind (c ∷ q) = q

take_char-Holds :
    (s : Cons) (q : List ℕ)
    → Holds s q
    → ((take_char s).0 ≡ front q) × Holds (take_char s).1 (behind q)
take_char-Holds s [] h =
    let e : (s.rpos == s.wpos) ≡ true = ground (arith, h.end, h.in_range) in rw e (refl, h)
take_char-Holds s (c ∷ q) h =
    let e : (s.rpos == s.wpos) ≡ false = ground (arith, h.end, h.in_range, h.fits) in
    let first : (s.rpos + 0) % 512 ≡ s.rpos = omega (arith, h.in_range) in
    rw e (
      ap s.buf (sym first) ∙ h.kept 0 (omega arith),
      record {
        in_range = ground (arith, h.in_range);
        fits = omega (arith, h.fits);
        end = ground (arith, h.end, h.in_range);
        kept = λ i lt.
            let place : (advance s.rpos + i) % 512 ≡ (s.rpos + suc i) % 512 =
              ground (arith, h.in_range) in
            ap s.buf place ∙ h.kept (suc i) (omega arith);
      },
    )

-- cons_getc as the operation of a queue: as long as at most 511 characters wait, those that the serial
-- line and the keyboard deliver join the queue in this order, zeros left out, and the first character
-- of the queue is taken and returned, or 0 if there is none.
pub cons_getc_lem :
    (serial kbd : List ℕ) (s : Cons) (q : List ℕ)
    → Holds s q
    → length q + length (stored serial) + length (stored kbd) < 512
    → let waiting = q ++ stored serial ++ stored kbd in
      ((cons_getc serial kbd s).0 ≡ front waiting)
      × Holds (cons_getc serial kbd s).1 (behind waiting)
unfolding cons_getc
cons_getc_lem serial kbd s q h room =
    let one = cons_intr-Holds serial s q h (omega arith) in
    let size = length-append q (stored serial) in
    take_char-Holds (cons_intr kbd (cons_intr serial s)) (q ++ stored serial ++ stored kbd)
      (cons_intr-Holds kbd (cons_intr serial s) (q ++ stored serial) one (omega (arith, size)))

-- With 511 characters waiting, one character more that is not 0 makes the buffer the empty queue: reading
-- returns 0 and changes nothing, and all 512 characters are lost.
pub cons_intr_overflow :
    (c : ℕ) (s : Cons) (q : List ℕ)
    → Holds s q
    → length q ≡ 511
    → c ≢ 0
    → let full = cons_intr (c ∷ []) s in Holds full [] × (take_char full ≡ (0, full))
unfolding cons_intr
cons_intr_overflow c s q h size nz =
    let stored_char : (c == 0) ≡ false = ground (arith, nz) in
    let met : advance s.wpos ≡ s.rpos = ground (arith, h.end, h.in_range) in
    let empty : (s.rpos == advance s.wpos) ≡ true = ground (arith, met) in
    rw stored_char (
      record {
        in_range = h.in_range;
        fits = omega arith;
        end = omega (arith, met, h.in_range);
        kept = λ i lt. absurd (omega arith);
      },
      rw empty refl,
    )
