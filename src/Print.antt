-- ===== src/Print.antt =====
-- printnum of mit-6.828/lab/lib/printfmt.c; what a function puts is the list of the characters.
pub mod Numbers
pub mod Format
mod Tests
use papers_annotation.Prelude.{
  ℕ, zero, suc, ◌+◌, ◌-◌, ◌/◌, ◌%◌, List, [], ◌∷◌, ◌++◌, Bool, true, false, ltb, leb, if◌then◌else◌,
  replicate,
}

-- "0123456789abcdef"[dig]
abbrev pub digit_char : ℕ → ℕ
digit_char dig = if ltb dig 10 then 0x30 + dig else 0x61 + (dig - 10)

-- The characters for a number of at most `fuel` digits. A width below 0 acts as 0 does.
unfoldable pub print_digits : ℕ → ℕ → ℕ → ℕ → ℕ → List ℕ
print_digits zero num base width padc = []
print_digits (suc fuel) num base width padc =
    let before = print_digits fuel (num / base) base (width - 1) padc in
    (if leb base num then before else replicate (width - 1) padc) ++ (digit_char (num % base) ∷ [])

-- A number of 64 bits has at most 64 digits in a base of 2 or more.
unfoldable pub printnum : ℕ → ℕ → ℕ → ℕ → List ℕ
unfolding print_digits
printnum num base width padc = print_digits 64 num base width padc
