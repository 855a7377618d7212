-- ===== src/Debug/Tests.antt =====
-- The table of the comment at stab_binsearch in mit-6.828/lab/kern/kdebug.c, in short, and entries whose
-- addresses follow one another.
use papers_annotation.Prelude.{
  ℕ, zero, suc, ◌+◌, ◌<◌, ◌≤◌, ◌≡◌, ◌≢◌, refl, arith, List, [], ◌∷◌, some, get_or,
}
use papers_annotation.Prelude.Int.{ℤ, pos}
use papers_annotation.Debug.{Stab, last_of_type, search_round, search_loop, regions, stab_binsearch}
use papers_annotation.Debug.Regions.{IsOrdered, Answer, stab_binsearch_lem}

abbrev source : ℕ → Stab
source v = record { n_strx = 0; n_type = 0x64; n_other = 0; n_desc = 0; n_value = v }

abbrev table : List ℕ → ℕ → Stab
table values i = source (get_or values i 0)

-- The addresses of main source files, as they are in the comment but for a common part.
abbrev files : ℕ → Stab
files = table (0x000 ∷ 0x040 ∷ 0x176 ∷ 0x178 ∷ 0x652 ∷ 0x654 ∷ 0x849 ∷ [])

comment_example : stab_binsearch files 0x64 0 7 0x184 ≡ some (pos 3, pos 3)
unfolding stab_binsearch search_loop search_round last_of_type regions
comment_example = refl

-- The entry with the address is 2, but the search goes on to those after it.
adjacent_entries :
    stab_binsearch (table (8 ∷ 9 ∷ 10 ∷ 11 ∷ 12 ∷ [])) 0x64 0 5 10 ≡ some (pos 4, pos 4)
unfolding stab_binsearch search_loop search_round last_of_type regions
adjacent_entries = refl

files-IsOrdered : IsOrdered files 0x64 0 3
files-IsOrdered zero j a b c _ _ = omega arith
files-IsOrdered (suc zero) zero a b c _ _ = absurd (omega arith)
files-IsOrdered (suc zero) (suc zero) a b c _ _ = absurd (omega arith)
files-IsOrdered (suc zero) (suc (suc j)) a b c _ _ =
    let e : j ≡ 0 = omega arith in rw e (omega arith)
files-IsOrdered (suc (suc i)) j a b c _ _ = absurd (omega arith)

files_apart : (i : ℕ) → 0 ≤ i → i < 3 → (files i).n_type ≡ 0x64 → (files i).n_value ≢ 0x100 + 1
files_apart zero a b _ e = absurd (omega arith)
files_apart (suc zero) a b _ e = absurd (omega arith)
files_apart (suc (suc zero)) a b _ e = absurd (omega arith)
files_apart (suc (suc (suc i))) a b _ e = absurd (omega arith)

stab_binsearch_example :
    (result : ℤ × ℤ) × (stab_binsearch files 0x64 0 3 0x100 ≡ some result)
    × Answer files 0x64 0 3 0x100 result
stab_binsearch_example =
    stab_binsearch_lem files 0x64 0 3 0x100 (omega arith) (omega arith) files-IsOrdered files_apart
