-- ===== src/Fs/Format.antt =====
-- The bitmap that mit-6.828/lab/fs/fsformat.c writes, as mit-6.828/lab/fs/fs.c reads it.
use papers_annotation.Prelude.{
  ℕ, zero, suc, ◌+◌, ◌-◌, ◌*◌, ◌/◌, ◌%◌, ◌^◌, ◌≤◌, ◌<◌, ◌≡◌, refl, ap, ◌∙◌, arith, true, false, not,
  Bool, ltb, leb, ◌&&◌, if◌then◌else◌, inl, inr, ℕ_discrete,
}
use papers_annotation.Prelude.Int.{pos}
use papers_annotation.Prelude.Bits.{zero-bits, complement-bit}
use papers_annotation.Mmu.{test_bit}
use papers_annotation.Fs.State.{Disk, done, s_nblocks, bitmap}
use papers_annotation.Fs.{bitmap_word, clear_bit, finish_from, finishdisk, init_bitmap, alloc_block}
use papers_annotation.Fs.Bitmap.{bit_of, is_free, bit_of-clear_bit, alloc_block_lem}

bit_of-finish_from :
    (n i b : ℕ) (words : ℕ → ℕ)
    → bit_of (finish_from n i words) b
      ≡ (if leb i b && ltb b (i + n) then false else bit_of words b)
unfolding finish_from
bit_of-finish_from zero i b words =
    let out : (leb i b && ltb b (i + 0)) ≡ false = ground arith in rw out refl
bit_of-finish_from (suc n) i b words =
    bit_of-finish_from n (i + 1) b (clear_bit i words) ∙ ground (arith, bit_of-clear_bit i b words)

all_ones : (j : ℕ) → j < 32 → test_bit (2 ^ 32 - 1) j ≡ true
all_ones j h = ground (arith, complement-bit 32 j 0 (omega arith) h, zero-bits j)

bit_of-init_bitmap : (n b : ℕ) (words : ℕ → ℕ) → b < n → bit_of (init_bitmap n words) b ≡ true
unfolding init_bitmap
bit_of-init_bitmap n b words h =
    let inside : (leb bitmap (bitmap_word b)
          && ltb (bitmap_word b) (bitmap + (n + 32768 - 1) / 32768 * 1024))
        ≡ true =
      ground arith in
    rw inside (all_ones (b % 32) (omega arith))

true_not_false : {b : Bool} → b ≡ true → ¬ b ≡ false
true_not_false h g = cc

first_is_two :
    (b : ℕ) (d : Disk)
    → 2 ≤ b
    → ((j : ℕ) → 2 ≤ j → j < b → is_free d j ≡ false)
    → is_free d 2 ≡ true
    → b ≡ 2
first_is_two b d h earlier two = elim (ℕ_discrete b 2) [
  | yes e ↦ e
  | no ne ↦ absurd (true_not_false two (earlier 2 (omega arith) (omega arith)))
]

-- The file system server and fsformat take the bitmap's bits in opposite senses. On a disk of n
-- blocks whose bitmap opendisk and finishdisk of fsformat have written, with the first `used` blocks
-- in use, the server takes exactly the blocks in use for free. So if three blocks or more are in use,
-- alloc_block returns block 2, which holds the bitmap itself.
pub fsformat_inverts :
    (n used : ℕ) (before : ℕ → ℕ) (d : Disk)
    → d.super_set ≡ true
    → s_nblocks d ≡ n
    → ((b : ℕ)
        → b < n
        → d.words (bitmap_word b) ≡ finishdisk used (init_bitmap n before) (bitmap_word b))
    → 3 ≤ used
    → used ≤ n
    → ((b : ℕ) → b < n → is_free d b ≡ ltb b used)
      × ((d' : Disk) × (alloc_block d ≡ done (pos 2) d'))
unfolding finishdisk
fsformat_inverts n used before d s h same lo hi =
    let senses : (b : ℕ) → b < n → is_free d b ≡ ltb b used = λ b low.
      ap (λ (w : ℕ). not (test_bit w (b % 32))) (same b low)
      ∙ ap not (bit_of-finish_from used 0 b (init_bitmap n before))
      ∙ ground (arith, bit_of-init_bitmap n b before low) in
    let two : is_free d 2 ≡ true = senses 2 (omega arith) ∙ ground arith in
    (
      senses,
      elim (alloc_block_lem d s (omega arith)) [
        | inl (b, d', low, _, ran, _, earlier, _, _, _) ↦
            (d', ran ∙ ap (λ (i : ℕ). done (pos i) d') (first_is_two b d low earlier two))
        | inr (ran, all) ↦ (d, absurd (true_not_false two (all 2 (omega arith) (omega arith))))
      ],
    )
