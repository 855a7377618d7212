-- ===== src/Http/Tests.antt =====
-- url_decode of 6.858-2012FA/lab/http.c on one text.
use papers_annotation.Prelude.{
  ℕ, ◌+◌, ◌-◌, ◌*◌, ◌<◌, ◌≡◌, refl, arith, Bool, ltb, leb, ◌&&◌, if◌then◌else◌, [], ◌∷◌,
}
use papers_annotation.Http.{url_decode, hex_digit, encode, url_decode-encode}

abbrev digit : ℕ → ℕ
digit c = if ltb c 0x41 then c - 0x30 else c - 0x37

abbrev hex_value : ℕ → ℕ → ℕ
hex_value a b = digit a * 16 + digit b

abbrev is_letter : ℕ → Bool
is_letter c = leb 0x61 c && leb c 0x7A

hex_value-reads : (i j : ℕ) → i < 16 → j < 16 → hex_value (hex_digit i) (hex_digit j) ≡ i * 16 + j
hex_value-reads i j a b = ground arith

url_decode-encode_example :
    url_decode hex_value (encode is_letter (0x61 ∷ 0x2B ∷ 0x2F ∷ 0xFF ∷ []))
    ≡ 0x61 ∷ 0x2B ∷ 0x2F ∷ 0xFF ∷ []
url_decode-encode_example =
    url_decode-encode hex_value is_letter (0x61 ∷ 0x2B ∷ 0x2F ∷ 0xFF ∷ []) hex_value-reads refl refl
      refl (omega arith, (omega arith, (omega arith, (omega arith, tt))))

-- The loop ends at a NUL, and a percent sign before the end of the source stands for itself.
at_nul : url_decode hex_value (0x61 ∷ 0 ∷ 0x62 ∷ []) ≡ 0x61 ∷ []
unfolding url_decode
at_nul = refl

cut_percent : url_decode hex_value (0x25 ∷ 0x34 ∷ []) ≡ 0x25 ∷ 0x34 ∷ []
unfolding url_decode
cut_percent = refl
