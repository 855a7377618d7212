-- ===== src/Console/Tests.antt =====
-- A console buffer whose positions are about to wrap.
use papers_annotation.Prelude.{
  ℕ, zero, suc, ◌<◌, ◌≡◌, refl, sym, ap, arith, [], ◌∷◌, length, replicate, get_or,
}
use papers_annotation.Console.{Cons, cons_intr, take_char, cons_getc}
use papers_annotation.Console.Queue.{Holds, cons_getc_lem, cons_intr_overflow}

abbrev at_end : Cons
at_end = record { buf = λ p. 0x61; rpos = 511; wpos = 0 }

at_end-Holds : Holds at_end (0x61 ∷ [])
at_end-Holds = record {
  in_range = omega arith;
  fits = omega arith;
  end = refl;
  kept = λ i h. ground arith;
}

cons_getc_example :
    ((cons_getc (0x62 ∷ 0 ∷ []) [] at_end).0 ≡ 0x61)
    × Holds (cons_getc (0x62 ∷ 0 ∷ []) [] at_end).1 (0x62 ∷ [])
cons_getc_example = cons_getc_lem (0x62 ∷ 0 ∷ []) [] at_end (0x61 ∷ []) at_end-Holds (omega arith)

get_or-replicate : (n x i : ℕ) → i < n → get_or (replicate n x) i 0 ≡ x
get_or-replicate zero x i h = absurd (omega arith)
get_or-replicate (suc n) x zero h = refl
get_or-replicate (suc n) x (suc i) h = get_or-replicate n x i (omega arith)

length-replicate : (n x : ℕ) → length (replicate n x) ≡ n
length-replicate zero x = refl
length-replicate (suc n) x = ap suc (length-replicate n x)

-- 511 characters wait.
abbrev at_limit : Cons
at_limit = record { buf = λ p. 0x61; rpos = 0; wpos = 511 }

at_limit-Holds : Holds at_limit (replicate 511 0x61)
at_limit-Holds =
    let size = length-replicate 511 0x61 in
    record {
      in_range = omega arith;
      fits = omega (arith, size);
      end = omega (arith, size);
      kept = λ i h. sym (get_or-replicate 511 0x61 i (omega (arith, size)));
    }

cons_intr_overflow_example :
    Holds (cons_intr (0x62 ∷ []) at_limit) []
    × (take_char (cons_intr (0x62 ∷ []) at_limit) ≡ (0, cons_intr (0x62 ∷ []) at_limit))
cons_intr_overflow_example =
    cons_intr_overflow 0x62 at_limit (replicate 511 0x61) at_limit-Holds (length-replicate 511 0x61)
      (ground arith)
