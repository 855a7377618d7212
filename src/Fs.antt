-- ===== src/Fs.antt =====
-- The block layer of the file system server: check_super, file_block_walk, file_get_block,
-- block_is_free and alloc_block of mit-6.828/lab/fs/fs.c, diskaddr of fs/bc.c, and the bitmap that
-- fs/fsformat.c makes.
pub mod State
pub mod Bitmap
pub mod Format
pub mod Blocks
pub mod Names
pub mod Read
mod Tests
use papers_annotation.Prelude.{
  ℕ, zero, suc, ◌+◌, ◌-◌, ◌*◌, ◌/◌, ◌%◌, ◌^◌, Option, none, some, Bool, true, false, not, ◌&&◌,
  ◌||◌, ltb, leb, ◌==◌, if◌then◌else◌, bit_and, bit_or,
}
use papers_annotation.Prelude.Int.{ℤ, pos, negsuc}
use papers_annotation.Mmu.{test_bit, e_inval, e_no_disk, e_not_found}
use papers_annotation.Fs.State.{
  Disk, Result, done, died, M, pure, panic, bind, ◌>>=◌, ◌>>◌, word, set_word, write, s_magic,
  s_nblocks, bitmap, f_direct, f_indirect,
}

-- DISKSIZE / BLKSIZE is 0xC0000.
unfoldable pub check_super : M (Unit {0})
check_super d =
    if not (s_magic d == 0x4A0530AE)
    then died
    else if ltb 0xC0000 (s_nblocks d)
    then died
    else done tt d

unfoldable pub diskaddr : ℕ → M ℕ
diskaddr blockno d =
    if blockno == 0 || (d.super_set && leb (s_nblocks d) blockno)
    then died
    else done (blockno * 1024) d

-- memset(blk, 0, BLKSIZE)
abbrev pub clear_block : ℕ → M (Unit {0})
clear_block blk d =
    done tt (record d { words = λ a. if leb blk a && ltb a (blk + 1024) then 0 else d.words a })

-- The word of the bitmap for a block.
abbrev pub bitmap_word : ℕ → ℕ
bitmap_word blockno = bitmap + blockno / 32

unfoldable pub block_is_free : ℕ → M Bool
block_is_free blockno d =
    if not d.super_set
    then died
    else if leb (s_nblocks d) blockno
    then died
    else done (not (test_bit (d.words (bitmap_word blockno)) (blockno % 32))) d

-- `bitmap[blockno / 32] |= 1 << (blockno % 32)`
abbrev pub set_bit : ℕ → Disk → Disk
set_bit blockno d =
    set_word (bitmap_word blockno) (bit_or (d.words (bitmap_word blockno)) (2 ^ (blockno % 32))) d

-- `rounds` blocks are left from `blockno` on.
unfoldable pub alloc_from : ℕ → ℕ → M ℤ
unfolding block_is_free
alloc_from zero blockno = pure e_no_disk
alloc_from (suc rounds) blockno = block_is_free blockno >>= elim [
  | true ↦ (λ d. done (pos blockno) (set_bit blockno d))
  | false ↦ alloc_from rounds (blockno + 1)
]

-- Without a super block its NULL pointer is read.
unfoldable pub alloc_block : M ℤ
unfolding alloc_from
alloc_block d = if d.super_set then alloc_from (s_nblocks d - 2) 2 d else died

-- The slot in the indirect block; NDIRECT is 10 and NINDIRECT 1024.
unfoldable pub indirect_slot : ℕ → ℕ → M (ℤ × Option ℕ)
unfolding diskaddr
indirect_slot f filebno = do
  r ← word (f_indirect f)
  blk ← diskaddr r
  pure (pos 0, some (blk + filebno - 10))

-- What file_block_walk does with alloc_block's result.
unfoldable pub new_indirect : ℕ → ℕ → ℤ → M (ℤ × Option ℕ)
unfolding diskaddr indirect_slot
new_indirect f filebno (negsuc e) = pure (e_no_disk, none)
new_indirect f filebno (pos r) = do
  write (f_indirect f) r
  blk ← diskaddr r
  clear_block blk
  indirect_slot f filebno

unfoldable pub file_block_walk : ℕ → ℕ → Bool → M (ℤ × Option ℕ)
unfolding alloc_block new_indirect indirect_slot
file_block_walk f filebno alloc =
    if ltb filebno 10
    then pure (pos 0, some (f_direct f filebno))
    else if ltb filebno 1034
    then (do
      r ← word (f_indirect f)
      if r == 0
          then (if alloc
              then (alloc_block >>= new_indirect f filebno)
              else pure (e_not_found, none))
          else indirect_slot f filebno)
    else pure (e_inval, none)

-- `*blk = diskaddr(*ptr)`
unfoldable pub block_of_slot : ℕ → M (ℤ × Option ℕ)
unfolding diskaddr
block_of_slot ptr = do r ← word ptr; blk ← diskaddr r; pure (pos 0, some blk)

-- What file_get_block does with alloc_block's result, and with file_block_walk's.
unfoldable pub fill_slot : ℕ → ℤ → M (ℤ × Option ℕ)
unfolding diskaddr block_of_slot
fill_slot ptr (negsuc e) = pure (negsuc e, none)
fill_slot ptr (pos r) = do write ptr r; blk ← diskaddr r; clear_block blk; block_of_slot ptr

unfoldable pub use_slot : ℤ × Option ℕ → M (ℤ × Option ℕ)
unfolding alloc_block fill_slot block_of_slot
use_slot (negsuc e, _) = pure (negsuc e, none)
use_slot (pos r, none) = panic
use_slot (pos r, some ptr) = do
  b ← word ptr
  if b == 0 then (alloc_block >>= fill_slot ptr) else block_of_slot ptr

unfoldable pub file_get_block : ℕ → ℕ → M (ℤ × Option ℕ)
unfolding file_block_walk use_slot
file_get_block f filebno = file_block_walk f filebno true >>= use_slot

-- fsformat's finishdisk: `bitmap[i/32] &= ~(1<<(i%32))` for the blocks from i on.
abbrev pub clear_bit : ℕ → (ℕ → ℕ) → ℕ → ℕ
clear_bit i words a =
    if a == bitmap_word i then bit_and (words a) (2 ^ 32 - 1 - 2 ^ (i % 32)) else words a

unfoldable pub finish_from : ℕ → ℕ → (ℕ → ℕ) → ℕ → ℕ
finish_from zero i words = words
finish_from (suc rounds) i words = finish_from rounds (i + 1) (clear_bit i words)

unfoldable pub finishdisk : ℕ → (ℕ → ℕ) → ℕ → ℕ
unfolding finish_from
finishdisk used words = finish_from used 0 words

-- The last lines of opendisk: nblocks bits, in whole blocks, are set.
unfoldable pub init_bitmap : ℕ → (ℕ → ℕ) → ℕ → ℕ
init_bitmap nblocks words a =
    if leb bitmap a && ltb a (bitmap + (nblocks + 32768 - 1) / 32768 * 1024)
    then 2 ^ 32 - 1
    else words a
