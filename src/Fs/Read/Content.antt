-- ===== src/Fs/Read/Content.antt =====
-- file_read of mit-6.828/lab/fs/fs.c reads the content of the file.
use papers_annotation.Prelude.{
  ℕ, zero, suc, ◌+◌, ◌-◌, ◌*◌, ◌/◌, ◌%◌, ◌≤◌, ◌<◌, ◌≡◌, refl, sym, ap, ◌∙◌, List, [], ◌∷◌, ◌++◌,
  arith, true, false, ltb, leb, min, dec_lt,
}
use mathlib.Core.Path.{ap₂}
use papers_annotation.Prelude.Int.{pos}
use papers_annotation.Fs.State.{Disk, done, bind, byte_at, f_size}
use papers_annotation.Fs.Names.Lookup.{HasBlocks, block_at, block-done}
use papers_annotation.Fs.Read.{bytes_from, add_bytes, read_block, read_from, counted, file_read}

-- Byte p of the file f, and the n bytes from p on.
abbrev pub file_byte : Disk → ℕ → ℕ → ℕ
file_byte d f p = byte_at d (block_at d f (p / 4096) * 1024) (p % 4096)

abbrev pub content : Disk → ℕ → ℕ → ℕ → List ℕ
content d f p zero = []
content d f p (suc n) = file_byte d f p ∷ content d f (p + 1) n

sum : (a b : ℕ) → suc (a + b) ≡ suc a + b
sum a b = omega arith

content-append :
    (d : Disk) (f p a b : ℕ) → content d f p a ++ content d f (p + a) b ≡ content d f p (a + b)
content-append d f p zero b = ap₂ (content d f) (omega arith) (omega arith)
content-append d f p (suc a) b =
    let next : p + suc a ≡ p + 1 + a = omega arith in
    ap (λ (t : List ℕ). file_byte d f p ∷ t)
      (ap (λ (q : ℕ). content d f (p + 1) a ++ content d f q b) next
        ∙ content-append d f (p + 1) a b)
    ∙ ap (content d f p) (sum a b)

-- What lies in one block.
bytes_from-content :
    (d : Disk) (f i offset n p : ℕ)
    → p ≡ i * 4096 + offset
    → offset + n ≤ 4096
    → bytes_from d (block_at d f i * 1024) offset n ≡ content d f p n
unfolding bytes_from
bytes_from-content d f i offset zero p e b = refl
bytes_from-content d f i offset (suc n) p e b =
    let block : p / 4096 ≡ i = omega arith in
    let place : p % 4096 ≡ offset = omega arith in
    ap₂ (λ (x : ℕ) (t : List ℕ). x ∷ t)
      (ap₂ (λ (j o : ℕ). byte_at d (block_at d f j * 1024) o) (sym block) (sym place))
      (bytes_from-content d f i (offset + 1) n (p + 1) (omega arith) (omega arith))

read_from_lem :
    (fuel f p end blocks : ℕ) (d : Disk)
    → HasBlocks d f blocks
    → end ≤ blocks * 4096
    → p ≤ end
    → end - p ≤ fuel
    → read_from fuel f p end d ≡ done (pos 0, content d f p (end - p)) d
unfolding read_from read_block
read_from_lem zero f p end blocks d h fits le b =
    let nothing : 0 ≡ end - p = omega arith in
    ap (λ (n : ℕ). done (pos 0, content d f p n) d) nothing
read_from_lem (suc fuel) f p end blocks d h fits le b = elim (dec_lt p end) [
  | no all ↦
      let over : ltb p end ≡ false = ground arith in
      let nothing : 0 ≡ end - p = omega arith in
      rw over (ap (λ (n : ℕ). done (pos 0, content d f p n) d) nothing)
  | yes more ↦
      let bn = min (4096 - p % 4096) (end - p) in
      let under : ltb p end ≡ true = ground arith in
      let ih = read_from_lem fuel f (p + bn) end blocks d h fits (omega arith) (omega arith) in
      let total : bn + (end - (p + bn)) ≡ end - p = omega arith in
      let here = bytes_from-content d f (p / 4096) (p % 4096) bn p (omega arith) (omega arith) in
      rw under (
        ap (λ r. bind r (read_block (λ (q : ℕ). read_from fuel f q end) p end))
          (block-done d f blocks (p / 4096) h (omega arith))
        ∙ ap (λ r. bind r (add_bytes (bytes_from d (block_at d f (p / 4096) * 1024) (p % 4096) bn)))
            ih
        ∙ ap (λ (t : List ℕ). done (pos 0, t ++ content d f (p + bn) (end - (p + bn))) d) here
        ∙ ap (λ (t : List ℕ). done (pos 0, t) d) (content-append d f p bn (end - (p + bn)))
        ∙ ap (λ (n : ℕ). done (pos 0, content d f p n) d) total)
]

-- file_read of a file without holes, whose blocks, at most 1034, are on the disk, and so is its block of
-- slots, if it has more than ten: behind the end of the file it reads
-- nothing and returns 0; otherwise it reads the content from the offset on, `count` bytes or up to
-- the end of the file, and returns their number. The disk does not change.
pub file_read_lem :
    (f count offset blocks : ℕ) (d : Disk)
    → HasBlocks d f blocks
    → d.words (f_size f) ≤ blocks * 4096
    → (d.words (f_size f) ≤ offset → file_read f count offset d ≡ done (pos 0, []) d)
      × (offset < d.words (f_size f)
          → file_read f count offset d
            ≡ done
                (
                  pos (min count (d.words (f_size f) - offset)),
                  content d f offset (min count (d.words (f_size f) - offset)),
                )
                d)
unfolding file_read
file_read_lem f count offset blocks d h fits = (
  (λ end. let over : leb (d.words (f_size f)) offset ≡ true = ground arith in rw over refl),
  (λ inside.
      let n = min count (d.words (f_size f) - offset) in
      let under : leb (d.words (f_size f)) offset ≡ false = ground arith in
      rw under (
        ap (λ r. bind r (counted n))
          (read_from_lem n f offset (offset + n) blocks d h (omega arith) (omega arith)
            (omega arith))
        ∙ ap (λ (m : ℕ). done (pos n, content d f offset m) d) (omega arith))),
)
