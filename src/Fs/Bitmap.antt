-- ===== src/Fs/Bitmap.antt =====
-- The bitmap of mit-6.828/lab/fs/fs.c: setting and clearing the bit of a block, and alloc_block's
-- search.
use papers_annotation.Prelude.{
  ℕ, zero, suc, ◌+◌, ◌-◌, ◌/◌, ◌%◌, ◌^◌, ◌≤◌, ◌<◌, ◌≡◌, ◌≢◌, ◌⊎◌, refl, ap, ◌∙◌, arith, true, false,
  not, Bool, leb, ◌==◌, if◌then◌else◌, Bool-cases, inl, inr, bit_and, bit_or, ℕ_discrete,
}
use papers_annotation.Prelude.Int.{pos}
use papers_annotation.Prelude.Bits.{
  bit_and-bit, bit_or-bit, power-bit_here, power-bit_other, complement-bit, power-lt,
}
use papers_annotation.Mmu.{test_bit, e_no_disk}
use papers_annotation.Fs.State.{Disk, done, died, s_nblocks}
use papers_annotation.Fs.{bitmap_word, block_is_free, set_bit, clear_bit, alloc_from, alloc_block}

-- The bit of a block in the bitmap.
abbrev pub bit_of : (ℕ → ℕ) → ℕ → Bool
bit_of words b = test_bit (words (bitmap_word b)) (b % 32)

-- What the server takes for free.
abbrev pub is_free : Disk → ℕ → Bool
is_free d b = not (bit_of d.words b)

-- Bit j of a word with bit k set, and with bit k cleared.
set-bit : (w k j : ℕ) → test_bit (bit_or w (2 ^ k)) j ≡ (if k == j then true else test_bit w j)
set-bit w k j = elim (ℕ_discrete j k) [
  | yes e ↦
      let here : 2 ^ k / 2 ^ j % 2 ≡ 1 = rw e (power-bit_here k) in
      ground (arith, bit_or-bit j w (2 ^ k))
  | no ne ↦ ground (arith, bit_or-bit j w (2 ^ k), power-bit_other k j ne)
]

clear-bit :
    (w k j : ℕ)
    → k < 32
    → j < 32
    → test_bit (bit_and w (2 ^ 32 - 1 - 2 ^ k)) j ≡ (if k == j then false else test_bit w j)
clear-bit w k j h b =
    let mask = complement-bit 32 j (2 ^ k) (power-lt k 32 h) b in
    elim (ℕ_discrete j k) [
      | yes e ↦
          let here : 2 ^ k / 2 ^ j % 2 ≡ 1 = rw e (power-bit_here k) in
          ground (arith, bit_and-bit j w (2 ^ 32 - 1 - 2 ^ k))
      | no ne ↦ ground (arith, bit_and-bit j w (2 ^ 32 - 1 - 2 ^ k), power-bit_other k j ne)
    ]

pub bit_of-set_bit :
    (b i : ℕ) (d : Disk)
    → bit_of (set_bit b d).words i ≡ (if b == i then true else bit_of d.words i)
bit_of-set_bit b i d = ground (arith, set-bit (d.words (bitmap_word b)) (b % 32) (i % 32))

pub bit_of-clear_bit :
    (b i : ℕ) (words : ℕ → ℕ)
    → bit_of (clear_bit b words) i ≡ (if b == i then false else bit_of words i)
bit_of-clear_bit b i words =
    ground (arith, clear-bit (words (bitmap_word b)) (b % 32) (i % 32) (omega arith) (omega arith))

pub block_is_free-eq :
    (b : ℕ) (d : Disk)
    → d.super_set ≡ true
    → b < s_nblocks d
    → block_is_free b d ≡ done (is_free d b) d
unfolding block_is_free
block_is_free-eq b d s h = let low : leb (s_nblocks d) b ≡ false = ground arith in rw (s, low) refl

-- How a search of the n blocks from b on ends.
abbrev pub Searched : Disk → ℕ → ℕ → Type 0
Searched d n b =
    ((i : ℕ) × (b ≤ i)
      × (i < b + n)
      × (alloc_from n b d ≡ done (pos i) (set_bit i d))
      × (is_free d i ≡ true)
      × ((j : ℕ) → b ≤ j → j < i → is_free d j ≡ false))
    ⊎ ((alloc_from n b d ≡ done e_no_disk d) × ((j : ℕ) → b ≤ j → j < b + n → is_free d j ≡ false))

-- One block that is not free.
in_use-next :
    (d : Disk) (b m : ℕ)
    → is_free d b ≡ false
    → ((j : ℕ) → b + 1 ≤ j → j < m → is_free d j ≡ false)
    → (j : ℕ) → b ≤ j
    → j < m
    → is_free d j ≡ false
in_use-next d b m f rest j lo hi = elim (ℕ_discrete j b) [
  | yes e ↦ ap (is_free d) e ∙ f
  | no ne ↦ rest j (omega arith) hi
]

pub alloc_from_lem :
    (n b : ℕ) (d : Disk) → d.super_set ≡ true → b + n ≤ s_nblocks d → Searched d n b
unfolding alloc_from
alloc_from_lem zero b d s h = inr (refl, (λ j lo hi. absurd (omega arith)))
alloc_from_lem (suc n) b d s h =
    let looked = block_is_free-eq b d s (omega arith) in
    elim (Bool-cases (is_free d b)) [
      | inl e ↦
          inl
            (b, omega arith, omega arith, rw (looked, e) refl, e, (λ j lo hi. absurd (omega arith)))
      | inr f ↦ elim (alloc_from_lem n (b + 1) d s (omega arith)) [
        | inl (i, lo, hi, ran, e, before) ↦
            inl (i, omega arith, omega arith, rw (looked, f) ran, e, in_use-next d b i f before)
        | inr (ran, all) ↦
            inr (
              rw (looked, f) ran,
              in_use-next d b (b + suc n) f (λ j lo hi. all j lo (omega arith)),
            )
      ]
    ]

pub alloc_block-eq :
    (d : Disk) → d.super_set ≡ true → alloc_block d ≡ alloc_from (s_nblocks d - 2) 2 d
unfolding alloc_block
alloc_block-eq d s = ap (λ (b : Bool). if b then alloc_from (s_nblocks d - 2) 2 d else died) s

-- alloc_block with the super block in place: it returns the first free block from 2 on, which is then
-- not free, and changes nothing for the other blocks; or, if no block from 2 on is free, it returns
-- -E_NO_DISK and changes nothing.
pub alloc_block_lem :
    (d : Disk)
    → d.super_set ≡ true
    → 2 ≤ s_nblocks d
    → ((b : ℕ) × (d' : Disk) × (2 ≤ b)
        × (b < s_nblocks d)
        × (alloc_block d ≡ done (pos b) d')
        × (is_free d b ≡ true)
        × ((j : ℕ) → 2 ≤ j → j < b → is_free d j ≡ false)
        × (is_free d' b ≡ false)
        × ((j : ℕ) → j ≢ b → is_free d' j ≡ is_free d j)
        × (s_nblocks d' ≡ s_nblocks d))
      ⊎ ((alloc_block d ≡ done e_no_disk d)
          × ((j : ℕ) → 2 ≤ j → j < s_nblocks d → is_free d j ≡ false))
alloc_block_lem d s h = elim (alloc_from_lem (s_nblocks d - 2) 2 d s (omega arith)) [
  | inl (b, lo, hi, ran, e, before) ↦ inl (
    b,
    set_bit b d,
    lo,
    omega arith,
    alloc_block-eq d s ∙ ran,
    e,
    before,
    ground (arith, bit_of-set_bit b b d),
    (λ j ne. ground (arith, bit_of-set_bit b j d)),
    ground arith,
  )
  | inr (ran, all) ↦ inr (alloc_block-eq d s ∙ ran, (λ j lo hi. all j lo (omega arith)))
]
