-- ===== src/Print/Tests.antt =====
-- Numbers printed by printnum of mit-6.828/lab/lib/printfmt.c.
use papers_annotation.Prelude.{◌≡◌, refl, arith, [], ◌∷◌}
use papers_annotation.Strings.{strtol}
use papers_annotation.Print.{print_digits, printnum}
use papers_annotation.Print.Numbers.{strtol-printnum}

padded : printnum 0x2A 16 4 0x30 ≡ 0x30 ∷ 0x30 ∷ 0x32 ∷ 0x61 ∷ []
unfolding printnum print_digits
padded = refl

-- The flag of `%-5d` pads with dashes, on the left.
dashes : printnum 42 10 5 0x2D ≡ 0x2D ∷ 0x2D ∷ 0x2D ∷ 0x34 ∷ 0x32 ∷ []
unfolding printnum print_digits
dashes = refl

strtol-printnum_example : strtol (printnum 48879 16 0 0x20) 16 ≡ (48879, [])
strtol-printnum_example = strtol-printnum 48879 16 (omega arith) (omega arith) (omega arith)
