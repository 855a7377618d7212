-- ===== src/Strings/Memory.antt =====
-- memset, memcmp and memfind of mit-6.828/lab/lib/string.c.
use papers_annotation.Prelude.{
  ℕ, zero, suc, ◌+◌, ◌-◌, ◌*◌, ◌/◌, ◌%◌, ◌^◌, ◌≤◌, ◌<◌, ◌≡◌, ◌≢◌, ◌↔◌, refl, ap, ◌∙◌, arith, false,
  not, ltb, leb, ◌==◌, ◌&&◌, if◌then◌else◌, Bool-cases, inl, inr, bit_or, ℕ_discrete,
}
use papers_annotation.Prelude.Bits.{bit_or-disjoint}
use papers_annotation.Prelude.Int.{ℤ, pos, int_sub}
use papers_annotation.Mmu.{u32}

-- One step of `rep stosb` (w is 1) or `rep stosl` (w is 4): the low w bytes of v, lowest first.
abbrev pub store_bytes : ℕ → ℕ → ℕ → (ℕ → ℕ) → ℕ → ℕ
store_bytes w v d m a = if leb d a && ltb a (d + w) then v / 256 ^ (a - d) % 256 else m a

unfoldable pub fill_up : ℕ → ℕ → ℕ → ℕ → (ℕ → ℕ) → ℕ → ℕ
fill_up w zero v d m = m
fill_up w (suc n) v d m = fill_up w n v (d + w) (store_bytes w v d m)

-- `(c<<24)|(c<<16)|(c<<8)|c`, after `c &= 0xFF`
abbrev pub repeated : ℕ → ℕ
repeated c =
    let b = c % 256 in bit_or (bit_or (bit_or (u32 (b * 2 ^ 24)) (b * 2 ^ 16)) (b * 2 ^ 8)) b

unfoldable pub memset : ℕ → ℕ → ℕ → (ℕ → ℕ) → ℕ → ℕ
unfolding fill_up
memset v c n m =
    if n == 0
    then m
    else if v % 4 == 0 && n % 4 == 0
    then fill_up 4 (n / 4) (repeated c) v m
    else fill_up 1 n c v m

unfoldable pub memcmp : (ℕ → ℕ) → (ℕ → ℕ) → ℕ → ℤ
memcmp s1 s2 zero = pos 0
memcmp s1 s2 (suc n) =
    let rest = memcmp (λ i. s1 (suc i)) (λ i. s2 (suc i)) n in
    if not (s1 0 == s2 0) then int_sub (s1 0) (s2 0) else rest

-- How far behind s the result points.
unfoldable pub memfind : (ℕ → ℕ) → ℕ → ℕ → ℕ
memfind s c zero = 0
memfind s c (suc n) =
    let rest = memfind (λ i. s (suc i)) c n in if s 0 == c % 256 then 0 else suc rest

repeated-eq : (c : ℕ) → repeated c ≡ c % 256 * 16843009
repeated-eq c =
    let b = c % 256 in
    let two = bit_or-disjoint 24 b (b * 2 ^ 16) (u32 (b * 2 ^ 24)) (omega arith) (omega arith) in
    let three =
      bit_or-disjoint 16 (b * 256 + b) (b * 2 ^ 8) (bit_or (u32 (b * 2 ^ 24)) (b * 2 ^ 16))
        (omega (arith, two)) (omega arith) in
    let four =
      bit_or-disjoint 8 (b * 65536 + b * 256 + b) b
        (bit_or (bit_or (u32 (b * 2 ^ 24)) (b * 2 ^ 16)) (b * 2 ^ 8)) (omega (arith, two, three))
        (omega arith) in
    omega (arith, two, three, four)

repeated_byte : (c j : ℕ) → j < 4 → repeated c / 256 ^ j % 256 ≡ c % 256
repeated_byte c zero h = omega (arith, repeated-eq c)
repeated_byte c (suc zero) h = omega (arith, repeated-eq c)
repeated_byte c (suc (suc zero)) h = omega (arith, repeated-eq c)
repeated_byte c (suc (suc (suc zero))) h = omega (arith, repeated-eq c)
repeated_byte c (suc (suc (suc (suc j)))) h = absurd (omega arith)

low_byte : (c j : ℕ) → j < 1 → c / 256 ^ j % 256 ≡ c % 256
low_byte c zero h = omega arith
low_byte c (suc j) h = absurd (omega arith)

-- A range that is filled with one byte.
abbrev filled : ℕ → ℕ → ℕ → (ℕ → ℕ) → ℕ → ℕ
filled n b d m a = if leb d a && ltb a (d + n) then b else m a

fill_up_lem :
    (w n v d b : ℕ) (m : ℕ → ℕ) (a : ℕ)
    → ((j : ℕ) → j < w → v / 256 ^ j % 256 ≡ b)
    → fill_up w n v d m a ≡ filled (w * n) b d m a
unfolding fill_up
fill_up_lem w zero v d b m a h = ground arith
fill_up_lem w (suc n) v d b m a h =
    let grow : w * suc n ≡ w * n + w = omega arith in
    fill_up_lem w n v (d + w) b (store_bytes w v d m) a h ∙ (rw grow (ground (arith, h (a - d))))

-- memset sets n bytes from v on to the low byte of c, and changes no other byte.
pub memset_lem :
    (v c n : ℕ) (m : ℕ → ℕ) (a : ℕ)
    → memset v c n m a ≡ (if leb v a && ltb a (v + n) then c % 256 else m a)
unfolding memset
memset_lem v c n m a = elim (ℕ_discrete n 0) [
  | yes none_left ↦ ground arith
  | no some_left ↦
      let busy : (n == 0) ≡ false = ground arith in
      elim (Bool-cases (v % 4 == 0 && n % 4 == 0)) [
        | inl four ↦
            rw (busy, four)
              (fill_up_lem 4 (n / 4) (repeated c) v (c % 256) m a (repeated_byte c)
                ∙ ap (λ (t : ℕ). filled t (c % 256) v m a) (ground arith))
        | inr one ↦
            rw (busy, one)
              (fill_up_lem 1 n c v (c % 256) m a (λ j h. low_byte c j h)
                ∙ ap (λ (t : ℕ). filled t (c % 256) v m a) (omega arith))
      ]
]

memcmp-first :
    (s1 s2 : ℕ → ℕ) (n : ℕ)
    → s1 0 ≡ s2 0
    → ((i : ℕ) → i < n → s1 (suc i) ≡ s2 (suc i))
    → (i : ℕ) → i < suc n
    → s1 i ≡ s2 i
memcmp-first s1 s2 n e rest zero h = e
memcmp-first s1 s2 n e rest (suc i) h = rest i (omega arith)

int_sub-same : (a b : ℕ) → int_sub a b ≡ pos 0 → a ≡ b
int_sub-same a b h = ground arith

-- memcmp returns 0 exactly if the first n bytes agree.
pub memcmp_lem :
    (s1 s2 : ℕ → ℕ) (n : ℕ) → (memcmp s1 s2 n ≡ pos 0) ↔ ((i : ℕ) → i < n → s1 i ≡ s2 i)
unfolding memcmp
memcmp_lem s1 s2 zero = ((λ h i lt. absurd (omega arith)), (λ h. refl))
memcmp_lem s1 s2 (suc n) =
    let ih = memcmp_lem (λ i. s1 (suc i)) (λ i. s2 (suc i)) n in
    elim (Bool-cases (s1 0 == s2 0)) [
      | inl e ↦ (
        (λ h. memcmp-first s1 s2 n (ground arith) (ih.0 (rw e at h))),
        (λ h. rw e (ih.1 (λ i lt. h (suc i) (omega arith)))),
      )
      | inr e ↦ (
        (λ h. absurd (ground (arith, int_sub-same (s1 0) (s2 0) (rw e at h)))),
        (λ h. absurd (ground (arith, h 0))),
      )
    ]

none_before :
    (s : ℕ → ℕ) (b n : ℕ)
    → s 0 ≢ b
    → ((i : ℕ) → i < n → s (suc i) ≢ b)
    → (i : ℕ) → i < suc n
    → s i ≢ b
none_before s b n e rest zero h = e
none_before s b n e rest (suc i) h = rest i (omega arith)

-- memfind among n bytes: it points to the first that is the low byte of c, or behind the last if none
-- is.
pub memfind_lem :
    (s : ℕ → ℕ) (c n : ℕ)
    → (memfind s c n ≤ n)
      × (memfind s c n < n → s (memfind s c n) ≡ c % 256)
      × ((i : ℕ) → i < memfind s c n → s i ≢ c % 256)
unfolding memfind
memfind_lem s c zero = (omega arith, (λ h. absurd (omega arith)), (λ i h. absurd (omega arith)))
memfind_lem s c (suc n) =
    let (within, found, before) = memfind_lem (λ i. s (suc i)) c n in
    elim (Bool-cases (s 0 == c % 256)) [
      | inl e ↦ rw e (omega arith, (λ h. ground arith), (λ i h. absurd (omega arith)))
      | inr e ↦ rw e (
        omega (arith, within),
        (λ h. found (omega arith)),
        none_before s (c % 256) (memfind (λ i. s (suc i)) c n) (ground arith) before,
      )
    ]
