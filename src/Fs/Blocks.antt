-- ===== src/Fs/Blocks.antt =====
-- file_block_walk and file_get_block of mit-6.828/lab/fs/fs.c: the slot of a file's block, and the
-- block in it, made on first use.
pub mod Holes
pub mod Indirect
use papers_annotation.Prelude.{
  ℕ, ◌+◌, ◌-◌, ◌*◌, ◌/◌, ◌≤◌, ◌<◌, ◌≡◌, ◌≢◌, ◌⊎◌, refl, sym, ap, ◌∙◌, Option, none, some, arith,
  true, false, Bool, ltb, leb, ◌==◌, ◌&&◌, if◌then◌else◌, inl, inr,
}
use papers_annotation.Prelude.Int.{ℤ, pos}
use papers_annotation.Mmu.{e_no_disk, e_not_found, e_inval}
use papers_annotation.Fs.State.{
  Disk, Result, done, s_nblocks, bitmap, set_word, pure, bind, ◌>>=◌, f_direct, f_indirect,
  bind-done,
}
use papers_annotation.Fs.{
  diskaddr, bitmap_word, set_bit, alloc_block, indirect_slot, file_block_walk, block_of_slot,
  fill_slot, use_slot, file_get_block,
}
use papers_annotation.Fs.Bitmap.{is_free, alloc_from_lem, alloc_block-eq}

-- A word that allocating a block leaves alone: it is not the number of blocks, not in the bitmap, and
-- not in a free block.
pub record IsSafe (d : Disk) (a : ℕ) : Type 0 where
  pub not_nblocks : a ≢ 1025
  pub not_bitmap : (a < bitmap) ⊎ (bitmap + (s_nblocks d + 31) / 32 ≤ a)
  pub in_use : (a < 2048) ⊎ (is_free d (a / 1024) ≡ false)

-- The state after block b was allocated, put into the slot, and cleared.
abbrev pub with_block : ℕ → ℕ → Disk → Disk
with_block ptr b d =
    let d1 = set_word ptr b (set_bit b d) in
    record d1 { words = λ a. if leb (b * 1024) a && ltb a (b * 1024 + 1024) then 0 else d1.words a }

pub diskaddr-eq : (b : ℕ) (d : Disk) → b ≢ 0 → b < s_nblocks d → diskaddr b d ≡ done (b * 1024) d
unfolding diskaddr
diskaddr-eq b d nz h = ground arith

block_of_slot-eq :
    (ptr b : ℕ) (d : Disk)
    → d.words ptr ≡ b
    → b ≢ 0
    → b < s_nblocks d
    → block_of_slot ptr d ≡ done (pos 0, some (b * 1024)) d
unfolding block_of_slot
block_of_slot-eq ptr b d e nz h =
    ap (λ (r : ℕ). bind (diskaddr r d) (λ blk. pure (pos 0, some blk))) e
    ∙ bind-done (diskaddr b) _ (b * 1024) d d (diskaddr-eq b d nz h)

-- A safe word does not lie in a free block.
pub IsSafe-apart :
    (d : Disk) (a b : ℕ)
    → IsSafe d a
    → is_free d b ≡ true
    → 2 ≤ b
    → b * 1024 ≤ a
    → ¬ a < b * 1024 + 1024
IsSafe-apart d a b s free two lo hi =
    let here : a / 1024 ≡ b = omega arith in
    elim s.in_use [
      | inl low ↦ omega (arith, low)
      | inr busy ↦ let e : is_free d b ≡ false = ap (is_free d) (sym here) ∙ busy in cc
    ]

module _ (d : Disk) (ptr b : ℕ) (s : IsSafe d ptr) (two : 2 ≤ b) (h : b < s_nblocks d)
    (free : is_free d b ≡ true) where
  slot_apart : (b * 1024 ≤ ptr) → ¬ ptr < b * 1024 + 1024
  slot_apart = IsSafe-apart d ptr b s free two

  pub with_block-slot : (with_block ptr b d).words ptr ≡ b
  with_block-slot =
      let out : (leb (b * 1024) ptr && ltb ptr (b * 1024 + 1024)) ≡ false =
        ground (arith, slot_apart) in
      ground arith

  pub with_block-nblocks : s_nblocks (with_block ptr b d) ≡ s_nblocks d
  with_block-nblocks = ground (arith, s.not_nblocks)

  pub with_block-zero :
      (a : ℕ) → b * 1024 ≤ a → a < b * 1024 + 1024 → (with_block ptr b d).words a ≡ 0
  with_block-zero a lo hi = ground arith

  pub with_block-elsewhere :
      (a : ℕ) → IsSafe d a → a ≢ ptr → (with_block ptr b d).words a ≡ d.words a
  with_block-elsewhere a safe ne =
      let out : (leb (b * 1024) a && ltb a (b * 1024 + 1024)) ≡ false =
        ground (arith, IsSafe-apart d a b safe free two) in
      let word : (a == bitmap_word b) ≡ false = ground (arith, safe.not_bitmap) in ground arith

  block_of_slot-with_block :
      block_of_slot ptr (with_block ptr b d) ≡ done (pos 0, some (b * 1024)) (with_block ptr b d)
  block_of_slot-with_block =
      block_of_slot-eq ptr b (with_block ptr b d) with_block-slot (omega arith)
        (omega (arith, with_block-nblocks))

  pub fill_slot-eq :
      fill_slot ptr (pos b) (set_bit b d) ≡ done (pos 0, some (b * 1024)) (with_block ptr b d)
  unfolding fill_slot
  fill_slot-eq =
      let d1 = set_word ptr b (set_bit b d) in
      let count : s_nblocks d1 ≡ s_nblocks d = ground (arith, s.not_nblocks) in
      bind-done (diskaddr b) _ (b * 1024) d1 d1
        (diskaddr-eq b d1 (omega arith) (omega (arith, count)))
      ∙ block_of_slot-with_block

-- What file_get_block has to do with a slot: nothing if it holds a block, and a fresh block if not.
abbrev pub Fills : Disk → ℕ → Result (ℤ × Option ℕ) → Type 0
Fills d ptr r =
    ((r ≡ done (e_no_disk, none) d) × ((j : ℕ) → 2 ≤ j → j < s_nblocks d → is_free d j ≡ false))
    ⊎ ((b : ℕ) × (d' : Disk) × (r ≡ done (pos 0, some (b * 1024)) d')
        × (2 ≤ b)
        × (b < s_nblocks d)
        × (is_free d b ≡ true)
        × (d'.words ptr ≡ b)
        × ((a : ℕ) → b * 1024 ≤ a → a < b * 1024 + 1024 → d'.words a ≡ 0)
        × (s_nblocks d' ≡ s_nblocks d)
        × ((a : ℕ) → IsSafe d a → a ≢ ptr → d'.words a ≡ d.words a))

pub use_slot-Fills :
    (ptr : ℕ) (d : Disk)
    → d.super_set ≡ true
    → 2 ≤ s_nblocks d
    → IsSafe d ptr
    → d.words ptr ≡ 0
    → Fills d ptr (use_slot (pos 0, some ptr) d)
unfolding use_slot
use_slot-Fills ptr d s h safe e =
    let empty : (d.words ptr == 0) ≡ true = ground arith in
    let alloc : use_slot (pos 0, some ptr) d ≡ bind (alloc_block d) (fill_slot ptr) =
      ap (λ (t : Bool). (if t then (alloc_block >>= fill_slot ptr) else block_of_slot ptr) d)
        empty in
    elim (alloc_from_lem (s_nblocks d - 2) 2 d s (omega arith)) [
      | inr (full, all) ↦ inl (
        alloc
            ∙ ap (λ r. bind r (fill_slot ptr)) (alloc_block-eq d s ∙ full)
            ∙ (unfold fill_slot in refl),
        (λ j lo hi. all j lo (omega arith)),
      )
      | inl (b, lo, up, ran, free, _) ↦
          let hi : b < s_nblocks d = omega arith in
          inr (
            b,
            with_block ptr b d,
            alloc
                ∙ ap (λ r. bind r (fill_slot ptr)) (alloc_block-eq d s ∙ ran)
                ∙ fill_slot-eq d ptr b safe lo hi free,
            lo,
            hi,
            free,
            with_block-slot d ptr b safe lo hi free,
            with_block-zero d ptr b safe lo hi free,
            with_block-nblocks d ptr b safe lo hi free,
            with_block-elsewhere d ptr b safe lo hi free,
          )
    ]

pub use_slot-eq :
    (ptr b : ℕ) (d : Disk)
    → d.words ptr ≡ b
    → b ≢ 0
    → b < s_nblocks d
    → use_slot (pos 0, some ptr) d ≡ done (pos 0, some (b * 1024)) d
unfolding use_slot
use_slot-eq ptr b d e nz h =
    let taken : (d.words ptr == 0) ≡ false = ground arith in
    ap (λ (t : Bool). (if t then (alloc_block >>= fill_slot ptr) else block_of_slot ptr) d) taken
    ∙ block_of_slot-eq ptr b d e nz h

pub file_get_block-direct :
    (f n : ℕ) (d : Disk) → n < 10 → file_get_block f n d ≡ use_slot (pos 0, some (f_direct f n)) d
unfolding file_get_block file_block_walk
file_get_block-direct f n d h = let low : ltb n 10 ≡ true = ground arith in rw low refl

-- file_block_walk that need not allocate: a direct block's slot is in the file itself, an indirect
-- block's in the block that the file names. Without such a block it returns -E_NOT_FOUND, and from
-- block 1034 on -E_INVAL. Nothing changes.
pub file_block_walk_lem :
    (f n : ℕ) (alloc : Bool) (d : Disk)
    → (n < 10 → file_block_walk f n alloc d ≡ done (pos 0, some (f_direct f n)) d)
      × (10 ≤ n
          → n < 1034
          → d.words (f_indirect f) ≢ 0
          → d.words (f_indirect f) < s_nblocks d
          → file_block_walk f n alloc d
            ≡ done (pos 0, some (d.words (f_indirect f) * 1024 + n - 10)) d)
      × (10 ≤ n
          → n < 1034
          → d.words (f_indirect f) ≡ 0
          → file_block_walk f n false d ≡ done (e_not_found, none) d)
      × (1034 ≤ n → file_block_walk f n alloc d ≡ done (e_inval, none) d)
unfolding file_block_walk indirect_slot diskaddr
file_block_walk_lem f n alloc d = (
  (λ a. ground arith),
  (λ a b nz low. ground arith),
  (λ a b z. ground arith),
  (λ a. ground arith),
)
