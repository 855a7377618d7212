-- ===== src/Fs/Read.antt =====
-- file_read of mit-6.828/lab/fs/fs.c. The bytes that it puts into the buffer are a list; the offset and the
-- size of the file, each an off_t, are not negative.
pub mod Content
use papers_annotation.Prelude.{
  ℕ, zero, suc, ◌+◌, ◌-◌, ◌*◌, ◌/◌, ◌%◌, Option, none, some, List, [], ◌∷◌, ◌++◌, Bool, true, false,
  ltb, leb, if◌then◌else◌, min,
}
use papers_annotation.Prelude.Int.{ℤ, pos, negsuc, is_neg}
use papers_annotation.Fs.State.{Disk, Result, done, died, M, bind, byte_at, f_size}
use papers_annotation.Fs.{file_get_block}

-- n bytes of a block from `offset` on.
unfoldable pub bytes_from : Disk → ℕ → ℕ → ℕ → List ℕ
bytes_from d blk offset zero = []
bytes_from d blk offset (suc n) = byte_at d blk offset ∷ bytes_from d blk (offset + 1) n

-- The bytes put in front of those that the rest of the loop reads.
abbrev pub add_bytes : List ℕ → ℤ × List ℕ → M (ℤ × List ℕ)
add_bytes bytes (r, more) d = done (r, bytes ++ more) d

-- What a round of the loop does with file_get_block's result; `next` is the rest of the loop.
unfoldable pub read_block : (ℕ → M (ℤ × List ℕ)) → ℕ → ℕ → ℤ × Option ℕ → M (ℤ × List ℕ)
unfolding bytes_from
read_block next p end (negsuc e, _) d = done (negsuc e, []) d
read_block next p end (pos r, none) d = died
read_block next p end (pos r, some blk) d =
    let bn = min (4096 - p % 4096) (end - p) in
    bind (next (p + bn) d) (add_bytes (bytes_from d blk (p % 4096) bn))

-- The loop from position p to `end`; each round reads at least one byte.
unfoldable pub read_from : ℕ → ℕ → ℕ → ℕ → M (ℤ × List ℕ)
unfolding read_block
read_from zero f p end d = done (pos 0, []) d
read_from (suc fuel) f p end d =
    let rest = λ (q : ℕ). read_from fuel f q end in
    if ltb p end
    then bind (file_get_block f (p / 4096) d) (read_block rest p end)
    else done (pos 0, []) d

abbrev pub counted : ℕ → ℤ × List ℕ → M (ℤ × List ℕ)
counted n (r, bytes) d = done (if is_neg r then r else pos n, bytes) d

unfoldable pub file_read : ℕ → ℕ → ℕ → M (ℤ × List ℕ)
unfolding read_from
file_read f count offset d =
    let n = min count (d.words (f_size f) - offset) in
    if leb (d.words (f_size f)) offset
    then done (pos 0, []) d
    else bind (read_from n f offset (offset + n) d) (counted n)
