-- ===== src/Fs/Names.antt =====
-- Names and paths in mit-6.828/lab/fs/fs.c: dir_lookup, skip_slash, walk_path and file_open. A name or a
-- path is the list of its bytes before the NUL; the size of a file, an off_t, is not negative.
pub mod Lookup
pub mod Walk
use papers_annotation.Prelude.{
  ℕ, zero, suc, ◌+◌, ◌-◌, ◌*◌, ◌/◌, ◌%◌, Option, none, some, List, [], ◌∷◌, Bool, true, false, not,
  ◌&&◌, ◌||◌, ltb, leb, ◌==◌, if◌then◌else◌, length,
}
use papers_annotation.Prelude.Int.{ℤ, pos, negsuc}
use papers_annotation.Mmu.{e_not_found, e_bad_path}
use papers_annotation.Strings.{strcmp}
use papers_annotation.Fs.State.{
  Disk, Result, done, died, M, pure, panic, bind, ◌>>=◌, ◌>>◌, word, byte_at, f_size, f_type,
  s_root,
}
use papers_annotation.Fs.{file_get_block}

abbrev pub is_zero : ℤ → Bool
is_zero (pos n) = n == 0
is_zero (negsuc n) = false

-- The first of `rounds` entries from f on that has the name; an entry is 64 words long.
unfoldable pub entry_from : ℕ → ℕ → List ℕ → Disk → Option ℕ
unfolding strcmp
entry_from zero f name d = none
entry_from (suc rounds) f name d =
    let rest = entry_from rounds (f + 64) name d in
    if is_zero (strcmp (byte_at d f) name) then some f else rest

-- What dir_lookup does with a block of the directory, `rest` being the search of the next ones.
unfoldable pub lookup_block : List ℕ → M (ℤ × Option ℕ) → ℤ × Option ℕ → M (ℤ × Option ℕ)
unfolding entry_from
lookup_block name rest (negsuc e, _) d = done (negsuc e, none) d
lookup_block name rest (pos r, none) d = died
lookup_block name rest (pos r, some blk) d = elim (entry_from 16 blk name d) [
  | none ↦ rest d
  | some f ↦ done (pos 0, some f) d
]

-- `rounds` blocks are left from block i on.
unfoldable pub lookup_from : ℕ → ℕ → ℕ → List ℕ → M (ℤ × Option ℕ)
unfolding lookup_block
lookup_from zero dir i name = pure (e_not_found, none)
lookup_from (suc rounds) dir i name =
    file_get_block dir i >>= lookup_block name (lookup_from rounds dir (i + 1) name)

unfoldable pub dir_lookup : ℕ → List ℕ → M (ℤ × Option ℕ)
unfolding lookup_from
dir_lookup dir name d =
    if d.words (f_size dir) % 4096 == 0
    then lookup_from (d.words (f_size dir) / 4096) dir 0 name d
    else died

unfoldable pub skip_slash : List ℕ → List ℕ
skip_slash [] = []
skip_slash (c ∷ p) = let rest = skip_slash p in if c == 0x2F then rest else c ∷ p

-- The bytes up to the next slash, and the others.
unfoldable pub component : List ℕ → List ℕ × List ℕ
component [] = ([], [])
component (c ∷ p) =
    let (name, rest) = component p in if c == 0x2F then ([], c ∷ p) else (c ∷ name, rest)

-- What walk_path returns, and stores through its pointers.
pub record Walked : Type 0 where
  pub result : ℤ
  pub pdir : Option ℕ
  pub pf : Option ℕ
  pub lastelem : List ℕ

abbrev pub failed : ℤ → Walked
failed r = record { result = r; pdir = none; pf = none; lastelem = [] }

abbrev pub is_empty : List ℕ → Bool
is_empty [] = true
is_empty (c ∷ p) = false

abbrev pub is_not_found : ℕ → Bool
is_not_found e = e == 10

-- What walk_path does with dir_lookup's result for the name, `rest` being the path behind it.
unfoldable pub walked_to : ℕ → List ℕ → List ℕ → (ℕ → M Walked) → ℤ × Option ℕ → M Walked
walked_to dir name rest next (negsuc e, _) = pure (
    if is_not_found e && is_empty rest
    then record { result = negsuc e; pdir = some dir; pf = none; lastelem = name }
    else failed (negsuc e))
walked_to dir name rest next (pos r, none) = panic
walked_to dir name rest next (pos r, some f) = next f

-- One round of walk_path's loop, with the name and what is behind it; `next` is the rest of the loop.
unfoldable pub walk_step : (Option ℕ → ℕ → List ℕ → M Walked) → ℕ → List ℕ × List ℕ → M Walked
unfolding walked_to dir_lookup skip_slash
walk_step next f (name, behind) =
    let rest = skip_slash behind in
    if leb 128 (length name) then pure (failed e_bad_path) else (do
      type ← word (f_type f)
      if type == 1
          then (dir_lookup f name >>= walked_to f name rest (λ g. next (some f) g rest))
          else pure (failed e_not_found))

-- The loop; each round takes at least one byte off the path.
unfoldable pub walk_from : ℕ → Option ℕ → ℕ → List ℕ → M Walked
unfolding walk_step component
walk_from zero dir f path = panic
walk_from (suc fuel) dir f [] =
    pure (record { result = pos 0; pdir = dir; pf = some f; lastelem = [] })
walk_from (suc fuel) dir f (c ∷ p) = walk_step (walk_from fuel) f (component (c ∷ p))

unfoldable pub walk_path : List ℕ → M Walked
unfolding walk_from skip_slash
walk_path path = walk_from (length path + 1) none s_root (skip_slash path)

unfoldable pub file_open : List ℕ → M (ℤ × Option ℕ)
unfolding walk_path
file_open path = walk_path path >>= λ w. pure (w.result, w.pf)
