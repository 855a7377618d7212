-- ===== src/Strings.antt =====
-- Routines of mit-6.828/lab/lib/string.c: strcmp, strlcpy, memmove and strtol. A string that drives a
-- loop is the list of its bytes before the NUL; other memory is a function from addresses to bytes.
pub mod Compare
pub mod Move
pub mod Memory
pub mod Text
mod Tests
use papers_annotation.Prelude.{
  ℕ, zero, suc, ◌+◌, ◌-◌, ◌*◌, ◌/◌, ◌%◌, ◌^◌, Option, none, some, List, [], ◌∷◌, Bool, true, false,
  not, ◌&&◌, ◌||◌, ltb, leb, ◌==◌, if◌then◌else◌,
}
use papers_annotation.Prelude.Int.{ℤ, int_sub}
use papers_annotation.Mmu.{u32}
use papers_annotation.Kern.State.{update}

-- `p` is read from its address on.
unfoldable pub strcmp : (ℕ → ℕ) → List ℕ → ℤ
strcmp p [] = int_sub (p 0) 0
strcmp p (c ∷ q) =
    let rest = strcmp (λ i. p (suc i)) q in
    if not (p 0 == 0) && p 0 == c then rest else int_sub (p 0) c

-- The loop of strlcpy, with the size already lowered by one, and where it ends.
unfoldable pub copy_chars : ℕ → ℕ → List ℕ → (ℕ → ℕ) → (ℕ → ℕ) × ℕ
copy_chars zero dst src m = (m, dst)
copy_chars (suc size) dst [] m = (m, dst)
copy_chars (suc size) dst (c ∷ src) m = copy_chars size (dst + 1) src (update m dst c)

-- The memory afterwards, and the number of bytes copied.
unfoldable pub strlcpy : ℕ → List ℕ → ℕ → (ℕ → ℕ) → (ℕ → ℕ) × ℕ
unfolding copy_chars
strlcpy dst src zero m = (m, 0)
strlcpy dst src (suc size) m =
    let (m', end) = copy_chars size dst src m in (update m' end 0, end - dst)

-- One step of `rep movsb` (w is 1) or `rep movsl` (w is 4).
abbrev pub move : ℕ → ℕ → ℕ → (ℕ → ℕ) → ℕ → ℕ
move w d s m a = if leb d a && ltb a (d + w) then m (s + (a - d)) else m a

-- The direction flag clear: upwards from d and s.
unfoldable pub copy_up : ℕ → ℕ → ℕ → ℕ → (ℕ → ℕ) → ℕ → ℕ
copy_up w zero d s m = m
copy_up w (suc n) d s m = copy_up w n (d + w) (s + w) (move w d s m)

-- Set: downwards, the last step first.
unfoldable pub copy_down : ℕ → ℕ → ℕ → ℕ → (ℕ → ℕ) → ℕ → ℕ
copy_down w zero d s m = m
copy_down w (suc n) d s m = copy_down w n d s (move w (d + w * n) (s + w * n) m)

abbrev pub aligned : ℕ → ℕ → ℕ → Bool
aligned s d n = s % 4 == 0 && d % 4 == 0 && n % 4 == 0

unfoldable pub memmove : ℕ → ℕ → ℕ → (ℕ → ℕ) → ℕ → ℕ
unfolding copy_up copy_down
memmove dst src n m =
    if ltb src dst && ltb dst (u32 (src + n))
    then (if aligned (u32 (src + n)) (u32 (dst + n)) n
        then copy_down 4 (n / 4) dst src m
        else copy_down 1 n dst src m)
    else (if aligned src dst n then copy_up 4 (n / 4) dst src m else copy_up 1 n dst src m)

-- The initial blanks, and the sign.
unfoldable pub skip_blanks : List ℕ → List ℕ
skip_blanks [] = []
skip_blanks (c ∷ s) = let rest = skip_blanks s in if c == 0x20 || c == 0x09 then rest else c ∷ s

abbrev pub take_sign : List ℕ → Bool × List ℕ
take_sign [] = (false, [])
take_sign (c ∷ s) =
    if c == 0x2B then (false, s) else if c == 0x2D then (true, s) else (false, c ∷ s)

abbrev pub starts_0x : List ℕ → Bool
starts_0x (c ∷ x ∷ s) = c == 0x30 && x == 0x78
starts_0x _ = false

abbrev pub starts_0 : List ℕ → Bool
starts_0 (c ∷ s) = c == 0x30
starts_0 [] = false

abbrev pub tail : List ℕ → List ℕ
tail [] = []
tail (c ∷ s) = s

-- The base, and what is left after its prefix.
unfoldable pub take_base : ℕ → List ℕ → ℕ × List ℕ
take_base base s =
    if (base == 0 || base == 16) && starts_0x s
    then (16, tail (tail s))
    else if base == 0 && starts_0 s
    then (8, tail s)
    else if base == 0
    then (10, s)
    else (base, s)

unfoldable pub digit_of : ℕ → Option ℕ
digit_of c =
    if leb 0x30 c && leb c 0x39
    then some (c - 0x30)
    else if leb 0x61 c && leb c 0x7A
    then some (c - 0x61 + 10)
    else if leb 0x41 c && leb c 0x5A
    then some (c - 0x41 + 10)
    else none

-- The loop over the digits; a `long` has 32 bits.
unfoldable pub read_digits : ℕ → List ℕ → ℕ → ℕ × List ℕ
unfolding digit_of
read_digits base [] val = (val, [])
read_digits base (c ∷ s) val = elim (digit_of c) [
  | none ↦ (val, c ∷ s)
  | some dig ↦
      let more = read_digits base s (u32 (val * base + dig)) in
      if leb base dig then (val, c ∷ s) else more
]

-- The 32-bit pattern of the value, and where `*endptr` points.
abbrev pub negate : Bool → ℕ × List ℕ → ℕ × List ℕ
negate neg (val, rest) = (if neg then u32 (2 ^ 32 - val) else val, rest)

unfoldable pub read_based : Bool → ℕ × List ℕ → ℕ × List ℕ
read_based neg (base, s) = negate neg (read_digits base s 0)

unfoldable pub read_signed : ℕ → Bool × List ℕ → ℕ × List ℕ
unfolding read_based take_base
read_signed base (neg, s) = read_based neg (take_base base s)

unfoldable pub strtol : List ℕ → ℕ → ℕ × List ℕ
unfolding read_signed skip_blanks
strtol s base = read_signed base (take_sign (skip_blanks s))
