-- ===== src/Fs/Tests.antt =====
-- A small disk for the theorems on mit-6.828/lab/fs.
use papers_annotation.Prelude.{
  ℕ, ◌<◌, ◌≤◌, ◌≡◌, ◌≢◌, ◌⊎◌, refl, arith, none, [], ◌∷◌, true, false, ltb, ◌==◌, ◌||◌,
  if◌then◌else◌, inl, inr,
}
use papers_annotation.Prelude.Int.{pos}
use papers_annotation.Mmu.{e_no_disk}
use papers_annotation.Fs.State.{Disk, done, s_nblocks, f_indirect}
use papers_annotation.Fs.{finishdisk, init_bitmap, alloc_block}
use papers_annotation.Fs.Bitmap.{is_free, alloc_block_lem}
use papers_annotation.Fs.Names.{dir_lookup, walk_path}
use papers_annotation.Fs.Names.Lookup.{HasBlocks, LooksUp, dir_lookup_lem}
use papers_annotation.Fs.Names.Walk.{walk_names, walk_path-names}
use papers_annotation.Fs.Read.{file_read}
use papers_annotation.Fs.Read.Content.{content, file_read_lem}
use papers_annotation.Fs.Format.{fsformat_inverts}
use papers_annotation.Fs.Blocks.Holes.{FillsHole}
use papers_annotation.Fs.Blocks.Indirect.{file_get_block_lem}

-- Sixteen blocks, 0 to 4 in use; the root's first block is block 3.
abbrev small : Disk
small = record {
  super_set = true;
  words = λ a. if a == 1025 then 16 else if a == 2048 then 31 else if a == 1060 then 3 else 0;
}

alloc_block_example :
    ((b : ℕ) × (d' : Disk) × (2 ≤ b)
      × (b < 16)
      × (alloc_block small ≡ done (pos b) d')
      × (is_free small b ≡ true)
      × ((j : ℕ) → 2 ≤ j → j < b → is_free small j ≡ false)
      × (is_free d' b ≡ false)
      × ((j : ℕ) → j ≢ b → is_free d' j ≡ is_free small j)
      × (s_nblocks d' ≡ 16))
    ⊎ ((alloc_block small ≡ done e_no_disk small)
        × ((j : ℕ) → 2 ≤ j → j < 16 → is_free small j ≡ false))
alloc_block_example = alloc_block_lem small refl (omega arith)

-- Block 4 is the root's block of slots.
abbrev with_slots : Disk
with_slots = record {
  super_set = true;
  words = λ a.
      if a == 1025
      then 16
      else if a == 2048
      then 31
      else if a == 1060
      then 3
      else if a == f_indirect 1026
      then 4
      else 0;
}

-- Block 12 of the root is a hole.
file_get_block_example : FillsHole with_slots 1026 12 4098
file_get_block_example =
    (file_get_block_lem 1026 12 with_slots refl (omega arith)).2 4098
      (inr (omega arith, omega arith, (λ e. omega arith), omega arith, refl))
      (record { not_nblocks = λ e. omega arith; not_bitmap = inr (omega arith); in_use = inr refl })
      (λ _. (
        record {
          not_nblocks = λ e. omega arith;
          not_bitmap = inl (omega arith);
          in_use = inl (omega arith);
        },
        (λ e. omega arith),
      ))
      refl

-- A disk of sixteen blocks as fsformat leaves it, with five in use.
abbrev formatted : Disk
formatted = record {
  super_set = true;
  words = λ a. if a == 1025 then 16 else finishdisk 5 (init_bitmap 16 (λ _. 0)) a;
}

fsformat_inverts_example :
    ((b : ℕ) → b < 16 → is_free formatted b ≡ ltb b 5)
    × ((d' : Disk) × (alloc_block formatted ≡ done (pos 2) d'))
fsformat_inverts_example =
    fsformat_inverts 16 5 (λ _. 0) formatted refl refl (λ b h. ground arith) (omega arith)
      (omega arith)

-- The root directory in block 3 with one entry, the directory "a", whose first block is block 4.
abbrev tree : Disk
tree = record {
  super_set = true;
  words = λ a.
      if a == 1025
      then 16
      else if a == 2048
      then 31
      else if a == 1058 || a == 3104
      then 4096
      else if a == 1059 || a == 3105
      then 1
      else if a == 1060
      then 3
      else if a == 3106
      then 4
      else if a == 3072
      then 0x61
      else 0;
}

root-HasBlocks : HasBlocks tree 1026 1
root-HasBlocks = record {
  bounded = omega arith;
  slots = λ h. absurd (omega arith);
  taken = λ i h. ground arith;
  on_disk = λ i h. ground arith;
}

dir_lookup_example : LooksUp tree 1026 (0x61 ∷ []) 0 16 (dir_lookup 1026 (0x61 ∷ []) tree)
dir_lookup_example =
    (dir_lookup_lem 1026 (0x61 ∷ []) tree root-HasBlocks ((λ e. omega arith), tt)).1 refl

walk_path-names_example :
    walk_path (0x2F ∷ 0x61 ∷ 0x2F ∷ 0x62 ∷ []) tree
    ≡ walk_names none 1026 ((0x61 ∷ []) ∷ (0x62 ∷ []) ∷ []) tree
walk_path-names_example =
    walk_path-names ((0x61 ∷ []) ∷ (0x62 ∷ []) ∷ []) tree
      (((λ e. omega arith), tt, omega arith), (((λ e. omega arith), tt, omega arith), tt))

-- 10 bytes from offset 4090 on, of which the file has 6.
file_read_example : file_read 1026 10 4090 tree ≡ done (pos 6, content tree 1026 4090 6) tree
file_read_example = (file_read_lem 1026 10 4090 1 tree root-HasBlocks (omega arith)).1 (omega arith)
