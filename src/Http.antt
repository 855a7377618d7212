-- ===== src/Http.antt =====
-- url_decode of 6.858-2012FA/lab/http.c. strtol of the C library is an argument: of two characters, in
-- base 16.
mod Tests
use papers_annotation.Prelude.{
  ℕ, zero, suc, ◌+◌, ◌*◌, ◌/◌, ◌%◌, ◌≤◌, ◌<◌, ◌≡◌, ◌≢◌, refl, ap, ◌∙◌, arith, Bool, true, false,
  not, ◌&&◌, ltb, ◌==◌, if◌then◌else◌, List, [], ◌∷◌, length, Bool-cases, inl, inr,
}
use papers_annotation.Kern.Pages.Lists.{All}

abbrev pub plain : ℕ → ℕ
plain c = if c == 0x2B then 0x20 else c

-- The bytes stored before the last NUL. The source is the bytes in front of a NUL of its end; one among
-- them ends the loop too.
unfoldable pub url_decode : (ℕ → ℕ → ℕ) → List ℕ → List ℕ
url_decode strtol [] = []
url_decode strtol (c ∷ []) = if c == 0 then [] else plain c ∷ []
url_decode strtol (c ∷ a ∷ []) =
    let rest = url_decode strtol (a ∷ []) in if c == 0 then [] else plain c ∷ rest
url_decode strtol (c ∷ a ∷ b ∷ src) =
    let after_hex = url_decode strtol src in
    let rest = url_decode strtol (a ∷ b ∷ src) in
    if c == 0x25 && not (a == 0) && not (b == 0)
    then strtol a b % 256 ∷ after_hex
    else if c == 0
    then []
    else plain c ∷ rest

-- An encoder that writes the bytes of `safe` as they are.
abbrev pub hex_digit : ℕ → ℕ
hex_digit n = if ltb n 10 then 0x30 + n else 0x37 + n

abbrev pub encode : (ℕ → Bool) → List ℕ → List ℕ
encode safe [] = []
encode safe (n ∷ bs) =
    let rest = encode safe bs in
    if safe n then n ∷ rest else 0x25 ∷ hex_digit (n / 16) ∷ hex_digit (n % 16) ∷ rest

hex_digit_ne : (n : ℕ) → (hex_digit n == 0) ≡ false
hex_digit_ne n = ground arith

decode-plain :
    (strtol : ℕ → ℕ → ℕ) (c : ℕ) (src : List ℕ)
    → (c == 0x25) ≡ false
    → (c == 0) ≡ false
    → url_decode strtol (c ∷ src) ≡ plain c ∷ url_decode strtol src
unfolding url_decode
decode-plain strtol c [] e z = rw z refl
decode-plain strtol c (a ∷ []) e z = rw z refl
decode-plain strtol c (a ∷ b ∷ src) e z = rw (e, z) refl

-- An encoder may write some bytes as they are, of which `%`, `+` and NUL are none, and for each other a
-- percent sign and two hexadecimal digits. What it writes url_decode turns into the bytes again, NULs
-- included, if strtol reads two such digits.
pub url_decode-encode :
    (strtol : ℕ → ℕ → ℕ) (safe : ℕ → Bool) (bs : List ℕ)
    → ((i j : ℕ) → i < 16 → j < 16 → strtol (hex_digit i) (hex_digit j) ≡ i * 16 + j)
    → (safe 0x25 ≡ false)
    → (safe 0x2B ≡ false)
    → (safe 0 ≡ false)
    → All (λ n. n < 256) bs
    → url_decode strtol (encode safe bs) ≡ bs
unfolding url_decode
url_decode-encode strtol safe [] reads percent plus nul small = refl
url_decode-encode strtol safe (n ∷ bs) reads percent plus nul small = elim (Bool-cases (safe n)) [
  | inl e ↦
      let not_percent : (n == 0x25) ≡ false = ground (arith, e, percent) in
      let not_plus : (n == 0x2B) ≡ false = ground (arith, e, plus) in
      let not_nul : (n == 0) ≡ false = ground (arith, e, nul) in
      rw e (
        decode-plain strtol n (encode safe bs) not_percent not_nul
        ∙ rw not_plus
            (ap (λ t. n ∷ t) (url_decode-encode strtol safe bs reads percent plus nul small.1)))
  | inr e ↦
      let value : strtol (hex_digit (n / 16)) (hex_digit (n % 16)) % 256 ≡ n =
        omega (arith, reads (n / 16) (n % 16), small.0) in
      let first : (hex_digit (n / 16) == 0) ≡ false = hex_digit_ne (n / 16) in
      let second : (hex_digit (n % 16) == 0) ≡ false = hex_digit_ne (n % 16) in
      rw e (
        rw (first, second, url_decode)
          (rw value
            (ap (λ t. n ∷ t) (url_decode-encode strtol safe bs reads percent plus nul small.1))))
]

-- The result is never longer than the source.
pub length-url_decode :
    (strtol : ℕ → ℕ → ℕ) (src : List ℕ) → length (url_decode strtol src) ≤ length src
unfolding url_decode
length-url_decode strtol [] = omega arith
length-url_decode strtol (c ∷ []) = ground arith
length-url_decode strtol (c ∷ a ∷ []) = ground (arith, length-url_decode strtol (a ∷ []))
length-url_decode strtol (c ∷ a ∷ b ∷ src) =
    let after_hex = length-url_decode strtol src in
    let rest = length-url_decode strtol (a ∷ b ∷ src) in
    elim (Bool-cases (c == 0x25 && not (a == 0) && not (b == 0))) [
      | inl e ↦ rw e (omega arith)
      | inr e ↦ elim (Bool-cases (c == 0)) [
        | inl z ↦ rw (e, z) (omega arith)
        | inr z ↦ rw (e, z) (omega arith)
      ]
    ]
