-- ===== src/Strings/Tests.antt =====
-- Strings on which the routines of mit-6.828/lab/lib/string.c are run.
use papers_annotation.Prelude.{
  ℕ, ◌%◌, ◌+◌, ◌-◌, ◌^◌, ◌≡◌, refl, arith, List, [], ◌∷◌, ◌&&◌, ltb, leb, if◌then◌else◌, some,
}
use papers_annotation.Strings.{
  memmove, strtol, read_signed, read_based, skip_blanks, take_base, read_digits, digit_of,
}
use papers_annotation.Prelude.Int.{pos}
use papers_annotation.Strings.Move.{memmove_lem}
use papers_annotation.Strings.Text.{strlen, strcpy, strcat, strncmp, strchr}

-- Each byte is its own address.
abbrev numbered : ℕ → ℕ
numbered a = a % 256

abbrev abc : List ℕ
abc = 0x61 ∷ 0x62 ∷ 0x63 ∷ []

hex : strtol (0x20 ∷ 0x2D ∷ 0x30 ∷ 0x78 ∷ 0x66 ∷ 0x7A ∷ []) 0 ≡ (2 ^ 32 - 15, 0x7A ∷ [])
unfolding strtol read_signed read_based skip_blanks take_base read_digits digit_of
hex = refl

-- Five bytes moved up by two over themselves.
memmove_example :
    memmove 12 10 5 numbered 14
    ≡ (if leb 12 14 && ltb 14 (12 + 5) then numbered (10 + (14 - 12)) else numbered 14)
memmove_example = memmove_lem 12 10 5 numbered 14 (omega arith) (omega arith)

-- "abc" and "ab" make "abcab".
joined : strcat 100 abc (0x61 ∷ 0x62 ∷ []) (strcpy 100 abc numbered) 104 ≡ 0x62
unfolding strcat strcpy strlen
joined = refl

prefix_same : strncmp 2 numbered (0 ∷ []) ≡ pos 0
unfolding strncmp
prefix_same = refl

second_b : strchr abc 0x62 ≡ some 1
unfolding strchr
second_b = refl
