-- ===== src/Fs/Blocks/Holes.antt =====
-- file_get_block of mit-6.828/lab/fs/fs.c where the slot of the block exists: it may be a hole.
use papers_annotation.Prelude.{
  ℕ, ◌+◌, ◌-◌, ◌*◌, ◌≤◌, ◌<◌, ◌≡◌, ◌≢◌, ◌⊎◌, sym, ap, ◌∙◌, none, some, arith, true, false, inl, inr,
}
use papers_annotation.Prelude.Int.{pos}
use papers_annotation.Mmu.{e_no_disk}
use papers_annotation.Fs.State.{Disk, done, s_nblocks, f_direct, f_indirect, bind-done}
use papers_annotation.Fs.{file_block_walk, use_slot, file_get_block}
use papers_annotation.Fs.Bitmap.{is_free}
use papers_annotation.Fs.Blocks.{
  IsSafe, use_slot-Fills, use_slot-eq, file_get_block-direct, file_block_walk_lem,
}

-- The place of the slot for block n of the file f: in the file, or in the block that it names.
abbrev pub HasSlot : Disk → ℕ → ℕ → ℕ → Type 0
HasSlot d f n ptr =
    ((n < 10) × (ptr ≡ f_direct f n))
    ⊎ ((10 ≤ n)
        × (n < 1034)
        × (d.words (f_indirect f) ≢ 0)
        × (d.words (f_indirect f) < s_nblocks d)
        × (ptr ≡ d.words (f_indirect f) * 1024 + n - 10))

pub file_get_block-slot :
    (f n ptr : ℕ) (d : Disk)
    → HasSlot d f n ptr
    → file_get_block f n d ≡ use_slot (pos 0, some ptr) d
unfolding file_get_block
file_get_block-slot f n ptr d (inl (h, e)) =
    file_get_block-direct f n d h ∙ ap (λ (p : ℕ). use_slot (pos 0, some p) d) (sym e)
file_get_block-slot f n ptr d (inr (lo, hi, nz, low, e)) =
    bind-done (file_block_walk f n true) use_slot (pos 0, some _) d d
      ((file_block_walk_lem f n true d).1 lo hi nz low)
    ∙ ap (λ (p : ℕ). use_slot (pos 0, some p) d) (sym e)

-- A disk with the same number of blocks, on which the file names the same block of slots.
HasSlot-same :
    (f n ptr : ℕ) (d d' : Disk)
    → (10 ≤ n → d'.words (f_indirect f) ≡ d.words (f_indirect f))
    → s_nblocks d' ≡ s_nblocks d
    → HasSlot d f n ptr
    → HasSlot d' f n ptr
HasSlot-same f n ptr d d' same count (inl h) = inl h
HasSlot-same f n ptr d d' same count (inr (lo, hi, nz, low, e)) =
    let w = same lo in
    inr (lo, hi, (λ z. nz (sym w ∙ z)), omega (arith, w, count), omega (arith, w, e))

-- What file_get_block does for a hole in a file.
abbrev pub FillsHole : Disk → ℕ → ℕ → ℕ → Type 0
FillsHole d f n ptr =
    ((file_get_block f n d ≡ done (e_no_disk, none) d)
      × ((j : ℕ) → 2 ≤ j → j < s_nblocks d → is_free d j ≡ false))
    ⊎ ((b : ℕ) × (d' : Disk) × (file_get_block f n d ≡ done (pos 0, some (b * 1024)) d')
        × (2 ≤ b)
        × (b < s_nblocks d)
        × (is_free d b ≡ true)
        × ((a : ℕ) → b * 1024 ≤ a → a < b * 1024 + 1024 → d'.words a ≡ 0)
        × (file_get_block f n d' ≡ done (pos 0, some (b * 1024)) d')
        × ((a : ℕ) → IsSafe d a → a ≢ ptr → d'.words a ≡ d.words a))

-- The word that names a file's block of slots is safe, and apart from the slot itself.
abbrev pub IsApart : Disk → ℕ → ℕ → ℕ → Type 0
IsApart d f n ptr = 10 ≤ n → IsSafe d (f_indirect f) × (f_indirect f ≢ ptr)

pub file_get_block-FillsHole :
    (f n ptr : ℕ) (d : Disk)
    → d.super_set ≡ true
    → 2 ≤ s_nblocks d
    → HasSlot d f n ptr
    → IsSafe d ptr
    → IsApart d f n ptr
    → d.words ptr ≡ 0
    → FillsHole d f n ptr
file_get_block-FillsHole f n ptr d s h at safe apart e =
    let ran = file_get_block-slot f n ptr d at in
    elim (use_slot-Fills ptr d s h safe e) [
      | inl (full, all) ↦ inl (ran ∙ full, all)
      | inr (b, d', used, lo, hi, free, slot, zero_block, same, elsewhere) ↦
          let kept = λ (far : 10 ≤ n). elsewhere (f_indirect f) (apart far).0 (apart far).1 in
          inr (
            b,
            d',
            ran ∙ used,
            lo,
            hi,
            free,
            zero_block,
            file_get_block-slot f n ptr d' (HasSlot-same f n ptr d d' kept same at)
                ∙ use_slot-eq ptr b d' slot (omega arith) (omega (arith, same)),
            elsewhere,
          )
    ]
