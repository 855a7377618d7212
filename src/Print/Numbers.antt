-- ===== src/Print/Numbers.antt =====
-- What printnum of mit-6.828/lab/lib/printfmt.c prints, strtol of lib/string.c reads back.
use mathlib.Core.List.{append_assoc, append-nil}
use native.Mathlib.Nat.{
  pow-suc, mod-lt, div-add-mod', div-lt_iff_lt-mul, mul-le-mul_left, mod-eq_of_lt,
}
use papers_annotation.Prelude.{
  ℕ, zero, suc, ◌+◌, ◌*◌, ◌/◌, ◌%◌, ◌^◌, ◌≤◌, ◌<◌, ◌≡◌, ◌≢◌, ◌⊎◌, refl, sym, ap, ◌∙◌, some, List,
  [], ◌∷◌, ◌++◌, arith, false, leb, ◌==◌, ◌||◌, Bool-cases, inl, inr,
}
use papers_annotation.Mmu.{u32}
use papers_annotation.Kern.Pages.Lists.{All}
use papers_annotation.Strings.{
  skip_blanks, take_sign, take_base, starts_0x, digit_of, read_digits, negate, read_based,
  read_signed, strtol,
}
use papers_annotation.Print.{digit_char, print_digits, printnum}

digit_of-digit_char : (dig : ℕ) → dig < 16 → digit_of (digit_char dig) ≡ some dig
unfolding digit_of
digit_of-digit_char dig h = ground arith

read_digit :
    (base dig val : ℕ) (s : List ℕ)
    → dig < base
    → base ≤ 16
    → read_digits base (digit_char dig ∷ s) val ≡ read_digits base s (u32 (val * base + dig))
unfolding read_digits
read_digit base dig val s h b =
    let low : leb base dig ≡ false = ground arith in
    rw (digit_of-digit_char dig (omega arith), low, read_digits) refl

-- One digit fewer.
quotient_lt : (num base bound : ℕ) → 2 ≤ base → num < bound * 2 → num / base < bound
quotient_lt num base bound h b =
    (div-lt_iff_lt-mul (omega arith)).1 (omega (arith, mul-le-mul_left bound h))

-- Reading what was printed takes the value from 0 to the number.
read_printed :
    (fuel num base : ℕ) (s : List ℕ)
    → 2 ≤ base
    → base ≤ 16
    → num < 2 ^ 32
    → num < 2 ^ fuel
    → read_digits base (print_digits fuel num base 0 0x20 ++ s) 0 ≡ read_digits base s num
unfolding print_digits
read_printed zero num base s lo hi b fits =
    let none_left : num ≡ 0 = omega arith in rw none_left refl
read_printed (suc fuel) num base s lo hi b fits = elim (Bool-cases (leb base num)) [
  | inl more ↦
      (rw more (
        ap (λ (t : List ℕ). read_digits base t 0)
          (append_assoc (print_digits fuel (num / base) base 0 0x20) (digit_char (num % base) ∷ [])
            s)
        ∙ read_printed fuel (num / base) base (digit_char (num % base) ∷ s) lo hi
            (omega (arith, quotient_lt num base (2 ^ 32) lo (omega arith)))
            (quotient_lt num base (2 ^ fuel) lo (omega (arith, pow-suc 2 fuel)))
        ∙ read_digit base (num % base) (num / base) s (mod-lt num (omega arith)) hi
        ∙ ap (read_digits base s) (omega (arith, div-add-mod' num base))))
  | inr last ↦
      (rw last (
        read_digit base (num % base) 0 s (mod-lt num (omega arith)) hi
        ∙ ap (read_digits base s)
            (omega (arith, mod-eq_of_lt {n = num} {m = base} (ground arith)))))
]

-- The characters of digits below 16.
abbrev IsDigitChar : ℕ → Type 0
IsDigitChar c = ((0x30 ≤ c) × (c ≤ 0x39)) ⊎ ((0x61 ≤ c) × (c ≤ 0x66))

digit_char-IsDigitChar : (dig : ℕ) → dig < 16 → IsDigitChar (digit_char dig)
digit_char-IsDigitChar dig h = ground arith

All-append : (P : ℕ → Type 0) (l : List ℕ) (c : ℕ) → All P l → P c → All P (l ++ (c ∷ []))
All-append P [] c h p = (p, tt)
All-append P (x ∷ l) c h p = (h.0, All-append P l c h.1 p)

print_digits-IsDigitChar :
    (fuel num base : ℕ) → 2 ≤ base → base ≤ 16 → All IsDigitChar (print_digits fuel num base 0 0x20)
unfolding print_digits
print_digits-IsDigitChar zero num base lo hi = tt
print_digits-IsDigitChar (suc fuel) num base lo hi =
    let last =
      digit_char-IsDigitChar (num % base) (omega (arith, mod-lt num {m = base} (omega arith))) in
    elim (Bool-cases (leb base num)) [
      | inl more ↦ rw more (
          All-append IsDigitChar (print_digits fuel (num / base) base 0 0x20)
            (digit_char (num % base)) (print_digits-IsDigitChar fuel (num / base) base lo hi) last)
      | inr only ↦ rw only (last, tt)
    ]

-- On digits alone, strtol has nothing to skip.
skip_blanks-digits : (l : List ℕ) → All IsDigitChar l → skip_blanks l ≡ l
unfolding skip_blanks
skip_blanks-digits [] h = refl
skip_blanks-digits (c ∷ l) h =
    let digit : (c == 0x20 || c == 0x09) ≡ false = ground (arith, h.0) in rw digit refl

take_sign-digits : (l : List ℕ) → All IsDigitChar l → take_sign l ≡ (false, l)
take_sign-digits [] h = refl
take_sign-digits (c ∷ l) h =
    let not_plus : (c == 0x2B) ≡ false = ground (arith, h.0) in
    let not_minus : (c == 0x2D) ≡ false = ground (arith, h.0) in rw (not_plus, not_minus) refl

starts_0x-digits : (l : List ℕ) → All IsDigitChar l → starts_0x l ≡ false
starts_0x-digits [] h = refl
starts_0x-digits (c ∷ []) h = refl
starts_0x-digits (c ∷ x ∷ l) h = ground (arith, h.1.0)

take_base-digits :
    (l : List ℕ) (base : ℕ) → base ≢ 0 → All IsDigitChar l → take_base base l ≡ (base, l)
unfolding take_base
take_base-digits l base nz h =
    let plain = starts_0x-digits l h in
    let given : (base == 0) ≡ false = ground arith in ground (arith, plain)

strtol-digits :
    (l : List ℕ) (base : ℕ)
    → base ≢ 0
    → All IsDigitChar l
    → strtol l base ≡ negate false (read_digits base l 0)
unfolding strtol read_signed read_based
strtol-digits l base nz h =
    ap (λ (t : List ℕ). read_signed base (take_sign t)) (skip_blanks-digits l h)
    ∙ ap (read_signed base) (take_sign-digits l h)
    ∙ ap (read_based false) (take_base-digits l base nz h)

-- strtol reads back what printnum prints: a number of 32 bits in a base from 2 to 16, without padding,
-- and it stops at the end of the string.
pub strtol-printnum :
    (num base : ℕ)
    → 2 ≤ base
    → base ≤ 16
    → num < 2 ^ 32
    → strtol (printnum num base 0 0x20) base ≡ (num, [])
unfolding printnum
strtol-printnum num base lo hi b =
    strtol-digits (print_digits 64 num base 0 0x20) base (λ z. omega arith)
      (print_digits-IsDigitChar 64 num base lo hi)
    ∙ ap (λ (t : List ℕ). negate false (read_digits base t 0))
        (sym (append-nil (print_digits 64 num base 0 0x20)))
    ∙ ap (negate false)
        (read_printed 64 num base [] lo hi b (omega arith) ∙ (unfold read_digits in refl))
