-- ===== src/Fs/Blocks/Indirect.antt =====
-- file_get_block of mit-6.828/lab/fs/fs.c where the file has no block of slots yet, and as a whole.
use papers_annotation.Prelude.{
  ℕ, ◌+◌, ◌-◌, ◌*◌, ◌/◌, ◌%◌, ◌≤◌, ◌<◌, ◌≡◌, ◌≢◌, ◌⊎◌, refl, sym, ap, ◌∙◌, none, some, arith, true,
  false, ltb, ◌==◌, if◌then◌else◌, inl, inr, not, dec_lt,
}
use papers_annotation.Prelude.Int.{pos}
use papers_annotation.Mmu.{test_bit, e_no_disk, e_inval}
use papers_annotation.Fs.State.{
  Disk, done, s_nblocks, bitmap, set_word, pure, bind, f_indirect, bind-done,
}
use papers_annotation.Fs.{
  diskaddr, bitmap_word, set_bit, alloc_block, indirect_slot, new_indirect, file_block_walk,
  use_slot, file_get_block,
}
use papers_annotation.Fs.Bitmap.{is_free, bit_of-set_bit, alloc_from_lem, alloc_block-eq}
use papers_annotation.Fs.Blocks.{
  IsSafe, IsSafe-apart, with_block, diskaddr-eq, with_block-slot, with_block-nblocks,
  with_block-zero, with_block-elsewhere, use_slot-eq, file_block_walk_lem,
}
use papers_annotation.Fs.Blocks.Holes.{
  HasSlot, file_get_block-slot, FillsHole, IsApart, file_get_block-FillsHole,
}

indirect_slot-eq :
    (f n r : ℕ) (d : Disk)
    → d.words (f_indirect f) ≡ r
    → r ≢ 0
    → r < s_nblocks d
    → indirect_slot f n d ≡ done (pos 0, some (r * 1024 + n - 10)) d
unfolding indirect_slot
indirect_slot-eq f n r d e nz low =
    ap (λ (w : ℕ). bind (diskaddr w d) (λ blk. pure (pos 0, some (blk + n - 10)))) e
    ∙ bind-done (diskaddr r) _ (r * 1024) d d (diskaddr-eq r d nz low)

-- The blocks of the bitmap are in use, and so is the block with the file, which is on the disk.
pub record IsInPlace (d : Disk) (f : ℕ) : Type 0 where
  pub bitmap_in_use :
      (j : ℕ) → 2 ≤ j → j * 1024 < bitmap + (s_nblocks d + 31) / 32 → is_free d j ≡ false
  pub on_disk : f_indirect f / 1024 < s_nblocks d
  pub slots : IsSafe d (f_indirect f)

-- The disk after the free block i became the file's block of slots.
module _ (f n i : ℕ) (d : Disk) (place : IsInPlace d f) (lo : 10 ≤ n) (hi : n < 1034) (two : 2 ≤ i)
    (low : i < s_nblocks d) (free : is_free d i ≡ true) where
  count : s_nblocks (with_block (f_indirect f) i d) ≡ s_nblocks d
  count = with_block-nblocks d (f_indirect f) i place.slots two low free

  named : (with_block (f_indirect f) i d).words (f_indirect f) ≡ i
  named = with_block-slot d (f_indirect f) i place.slots two low free

  behind_bitmap : bitmap + (s_nblocks d + 31) / 32 ≤ i * 1024
  behind_bitmap = elim (dec_lt (i * 1024) (bitmap + (s_nblocks d + 31) / 32)) [
    | yes inside ↦ let busy : is_free d i ≡ false = place.bitmap_in_use i two inside in cc
    | no out ↦ omega arith
  ]

  is_free-with_block :
      (j : ℕ)
      → j < s_nblocks d
      → is_free (with_block (f_indirect f) i d) j ≡ (if i == j then false else is_free d j)
  is_free-with_block j b =
      let d1 = with_block (f_indirect f) i d in
      let kept : d1.words (bitmap_word j) ≡ (set_bit i d).words (bitmap_word j) =
        ground (arith, behind_bitmap, place.slots.not_bitmap) in
      ap (λ (w : ℕ). not (test_bit w (j % 32))) kept ∙ ground (arith, bit_of-set_bit i j d)

  new_indirect-eq :
      new_indirect f n (pos i) (set_bit i d)
      ≡ done (pos 0, some (i * 1024 + n - 10)) (with_block (f_indirect f) i d)
  unfolding new_indirect
  new_indirect-eq =
      let d0 = set_word (f_indirect f) i (set_bit i d) in
      let same : s_nblocks d0 ≡ s_nblocks d = ground (arith, place.slots.not_nblocks) in
      bind-done (diskaddr i) _ (i * 1024) d0 d0
        (diskaddr-eq i d0 (omega arith) (omega (arith, same)))
      ∙ indirect_slot-eq f n i (with_block (f_indirect f) i d) named (omega arith)
          (omega (arith, count))

  HasSlot-with_block : HasSlot (with_block (f_indirect f) i d) f n (i * 1024 + n - 10)
  HasSlot-with_block =
      inr (lo, hi, omega (arith, named), omega (arith, named, count), omega (arith, named))

  IsSafe-with_block : IsSafe (with_block (f_indirect f) i d) (i * 1024 + n - 10)
  IsSafe-with_block =
      let here : (i * 1024 + n - 10) / 1024 ≡ i = omega arith in
      let taken : is_free (with_block (f_indirect f) i d) i ≡ false =
        ground (arith, is_free-with_block i low) in
      record {
        not_nblocks = omega arith;
        not_bitmap = inr (omega (arith, count, behind_bitmap));
        in_use = inr (ap (is_free (with_block (f_indirect f) i d)) here ∙ taken);
      }

  IsApart-with_block : IsApart (with_block (f_indirect f) i d) f n (i * 1024 + n - 10)
  IsApart-with_block far =
      let d1 = with_block (f_indirect f) i d in
      (
        record {
          not_nblocks = place.slots.not_nblocks;
          not_bitmap = elim place.slots.not_bitmap [
            | inl a ↦ inl a
            | inr a ↦ inr (omega (arith, count, a))
          ];
          in_use = elim place.slots.in_use [
            | inl a ↦ inl a
            | inr a ↦
                inr (ground (arith, a, is_free-with_block (f_indirect f / 1024) place.on_disk))
          ];
        },
        (λ e.
            IsSafe-apart d (f_indirect f) i place.slots free two (omega (arith, e))
              (omega (arith, e))),
      )

-- What file_get_block does for a file without a block of slots: with no free block nothing; otherwise
-- a free block becomes one, all zero, and the call goes on as for a hole.
abbrev pub FillsSlots : Disk → ℕ → ℕ → Type 0
FillsSlots d f n =
    ((file_get_block f n d ≡ done (e_no_disk, none) d)
      × ((j : ℕ) → 2 ≤ j → j < s_nblocks d → is_free d j ≡ false))
    ⊎ ((i : ℕ) × (d1 : Disk) × (2 ≤ i)
        × (i < s_nblocks d)
        × (is_free d i ≡ true)
        × (d1.words (f_indirect f) ≡ i)
        × ((a : ℕ) → i * 1024 ≤ a → a < i * 1024 + 1024 → d1.words a ≡ 0)
        × ((a : ℕ) → IsSafe d a → a ≢ f_indirect f → d1.words a ≡ d.words a)
        × ((j : ℕ) → j < s_nblocks d → is_free d1 j ≡ (if i == j then false else is_free d j))
        × (file_get_block f n d ≡ file_get_block f n d1)
        × FillsHole d1 f n (i * 1024 + n - 10))

-- The walk allocates, if there is no block of slots.
file_block_walk-missing :
    (f n : ℕ) (d : Disk)
    → 10 ≤ n
    → n < 1034
    → d.words (f_indirect f) ≡ 0
    → file_block_walk f n true d ≡ bind (alloc_block d) (new_indirect f n)
unfolding file_block_walk
file_block_walk-missing f n d lo hi z =
    let high : ltb n 10 ≡ false = ground arith in
    let in_range : ltb n 1034 ≡ true = ground arith in
    let empty : (d.words (f_indirect f) == 0) ≡ true = ground arith in
    rw (high, in_range, empty) refl

file_get_block-FillsSlots :
    (f n : ℕ) (d : Disk)
    → d.super_set ≡ true
    → 2 ≤ s_nblocks d
    → IsInPlace d f
    → 10 ≤ n
    → n < 1034
    → d.words (f_indirect f) ≡ 0
    → FillsSlots d f n
unfolding file_get_block
file_get_block-FillsSlots f n d s h place lo hi z =
    let walk = file_block_walk-missing f n d lo hi z in
    elim (alloc_from_lem (s_nblocks d - 2) 2 d s (omega arith)) [
      | inr (full, all) ↦ inl (
        ap (λ r. bind r use_slot)
              (walk
                ∙ ap (λ r. bind r (new_indirect f n)) (alloc_block-eq d s ∙ full)
                ∙ (unfold new_indirect in refl))
            ∙ (unfold use_slot in refl),
        (λ j two low. all j two (omega arith)),
      )
      | inl (i, two, up, ran, free, _) ↦
          let low : i < s_nblocks d = omega arith in
          let d1 = with_block (f_indirect f) i d in
          let ptr = i * 1024 + n - 10 in
          let at = HasSlot-with_block f n i d place lo hi two low free in
          inr (
            i,
            d1,
            two,
            low,
            free,
            named f n i d place lo hi two low free,
            with_block-zero d (f_indirect f) i place.slots two low free,
            with_block-elsewhere d (f_indirect f) i place.slots two low free,
            is_free-with_block f n i d place lo hi two low free,
            ap (λ r. bind r use_slot)
                  (walk
                    ∙ ap (λ r. bind r (new_indirect f n)) (alloc_block-eq d s ∙ ran)
                    ∙ new_indirect-eq f n i d place lo hi two low free)
                ∙ sym (file_get_block-slot f n ptr d1 at),
            file_get_block-FillsHole f n ptr d1 s
                (omega (arith, count f n i d place lo hi two low free)) at
                (IsSafe-with_block f n i d place lo hi two low free)
                (IsApart-with_block f n i d place lo hi two low free)
                (with_block-zero d (f_indirect f) i place.slots two low free ptr (omega arith)
                  (omega arith)),
          )
    ]

-- file_get_block for block n of the file f. From block 1034 on it returns -E_INVAL and changes nothing.
-- Below, the slot of the block is in the file, or for n from 10 on in the block of slots that the file
-- names, which is on the disk. If the slot holds a block of the disk, that is what it yields, and nothing
-- changes. If the slot is zero and in a safe place, then either no block is free, and it returns
-- -E_NO_DISK and changes nothing; or it yields a block that was free, now all zero, a second call
-- yields the same block and changes nothing, and no other word in a safe place has changed. If for n
-- from 10 on the file names no block of slots, and the file and the bitmap are in their place, then
-- either no block is free, with -E_NO_DISK and no change; or a free block, all zero, becomes the block
-- of slots, and the rest goes as for a hole on the disk so changed: also its -E_NO_DISK leaves it so.
pub file_get_block_lem :
    (f n : ℕ) (d : Disk)
    → d.super_set ≡ true
    → 2 ≤ s_nblocks d
    → (1034 ≤ n → file_get_block f n d ≡ done (e_inval, none) d)
      × ((ptr b : ℕ)
          → HasSlot d f n ptr
          → d.words ptr ≡ b
          → b ≢ 0
          → b < s_nblocks d
          → file_get_block f n d ≡ done (pos 0, some (b * 1024)) d)
      × ((ptr : ℕ)
          → HasSlot d f n ptr
          → IsSafe d ptr
          → IsApart d f n ptr
          → d.words ptr ≡ 0
          → FillsHole d f n ptr)
      × (10 ≤ n → n < 1034 → d.words (f_indirect f) ≡ 0 → IsInPlace d f → FillsSlots d f n)
unfolding file_get_block
file_get_block_lem f n d s h = (
  (λ far.
      bind-done (file_block_walk f n true) use_slot (e_inval, none) d d
        ((file_block_walk_lem f n true d).3 far)
      ∙ (unfold use_slot in refl)),
  (λ ptr b at e nz low. file_get_block-slot f n ptr d at ∙ use_slot-eq ptr b d e nz low),
  (λ ptr at safe apart e. file_get_block-FillsHole f n ptr d s h at safe apart e),
  (λ lo hi z place. file_get_block-FillsSlots f n d s h place lo hi z),
)
