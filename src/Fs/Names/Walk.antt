-- ===== src/Fs/Names/Walk.antt =====
-- walk_path of mit-6.828/lab/fs/fs.c looks up the names of a path one after the other.
use papers_annotation.Prelude.{
  ℕ, zero, suc, ◌+◌, ◌<◌, ◌≡◌, ◌≢◌, refl, ap, ◌∙◌, Option, none, some, List, [], ◌∷◌, ◌++◌, arith,
  true, false, Bool, leb, ◌==◌, ◌&&◌, if◌then◌else◌, length, length-append, Bool-cases, inl, inr,
}
use papers_annotation.Prelude.Int.{ℤ, pos, negsuc}
use papers_annotation.Mmu.{e_not_found}
use papers_annotation.Kern.Pages.Lists.{All}
use papers_annotation.Fs.State.{Disk, Result, done, died, M, bind, f_type, s_root}
use papers_annotation.Fs.Names.{
  dir_lookup, skip_slash, component, Walked, failed, is_empty, is_not_found, walked_to, walk_step,
  walk_from, walk_path,
}

-- The names that a path is made of, and the path.
abbrev pub IsName : List ℕ → Type 0
IsName [] = ⊥
IsName (c ∷ n) = (c ≢ 0x2F) × All (λ x. x ≢ 0x2F) n × (length n < 127)

abbrev pub join : List (List ℕ) → List ℕ
join [] = []
join (n ∷ names) = 0x2F ∷ n ++ join names

abbrev pub is_last : List (List ℕ) → Bool
is_last [] = true
is_last (n ∷ names) = false

-- Following the names from directory to directory, where `dir` holds f: a name is looked up in a
-- directory only, and if the last name is missing its directory and the name are reported.
abbrev after_lookup : ℕ → List ℕ → Bool → (ℕ → M Walked) → ℤ × Option ℕ → M Walked
after_lookup f name last next (negsuc e, _) d =
    done
      (if is_not_found e && last
        then record { result = negsuc e; pdir = some f; pf = none; lastelem = name }
        else failed (negsuc e))
      d
after_lookup f name last next (pos r, none) d = died
after_lookup f name last next (pos r, some g) d = next g d

abbrev pub walk_names : Option ℕ → ℕ → List (List ℕ) → M Walked
walk_names dir f [] d = done (record { result = pos 0; pdir = dir; pf = some f; lastelem = [] }) d
walk_names dir f (n ∷ names) d =
    let next = λ (g : ℕ). walk_names (some f) g names in
    if d.words (f_type f) == 1
    then bind (dir_lookup f n d) (after_lookup f n (is_last names) next)
    else done (failed e_not_found) d

skip_slash-name : (n : List ℕ) (p : List ℕ) → IsName n → skip_slash (n ++ p) ≡ n ++ p
unfolding skip_slash
skip_slash-name [] p h = absurd h
skip_slash-name (c ∷ n) p h = let e : (c == 0x2F) ≡ false = ground (arith, h.0) in rw e refl

skip_slash-join :
    (n : List ℕ) (names : List (List ℕ))
    → IsName n
    → skip_slash (join (n ∷ names)) ≡ n ++ join names
unfolding skip_slash
skip_slash-join n names h = skip_slash-name n (join names) h

component-join : (names : List (List ℕ)) → component (join names) ≡ ([], join names)
unfolding component
component-join [] = refl
component-join (n ∷ names) = refl

component-append :
    (n : List ℕ) (names : List (List ℕ))
    → All (λ x. x ≢ 0x2F) n
    → component (n ++ join names) ≡ (n, join names)
unfolding component
component-append [] names h = component-join names
component-append (c ∷ n) names h =
    let e : (c == 0x2F) ≡ false = ground (arith, h.0) in
    rw e (ap (λ (t : List ℕ × List ℕ). (c ∷ t.0, t.1)) (component-append n names h.1))

not_empty : (n : List ℕ) (names : List (List ℕ)) → IsName n → is_empty (n ++ join names) ≡ false
not_empty [] names h = absurd h
not_empty (c ∷ n) names h = refl

is_empty-skip_slash :
    (names : List (List ℕ)) → All IsName names → is_empty (skip_slash (join names)) ≡ is_last names
unfolding skip_slash
is_empty-skip_slash [] h = refl
is_empty-skip_slash (n ∷ names) h =
    ap is_empty (skip_slash-join n names h.0) ∙ (not_empty n names h.0)

bind-cong :
    {A B : Type 0} (r : Result A) (f g : A → M B)
    → ((a : A) (d : Disk) → f a d ≡ g a d)
    → bind r f ≡ bind r g
bind-cong (done a d) f g h = h a d
bind-cong died f g h = refl

after_lookup-eq :
    (f : ℕ) (n rest : List ℕ) (last : Bool) (next next' : ℕ → M Walked)
    → is_empty rest ≡ last
    → ((g : ℕ) (d : Disk) → next g d ≡ next' g d)
    → (r : ℤ × Option ℕ) (d : Disk) → walked_to f n rest next r d ≡ after_lookup f n last next' r d
unfolding walked_to
after_lookup-eq f n rest last next next' e same (negsuc x, o) d = rw e refl
after_lookup-eq f n rest last next next' e same (pos r, none) d = refl
after_lookup-eq f n rest last next next' e same (pos r, some g) d = same g d

walk_step-name :
    (fuel f : ℕ) (dir : Option ℕ) (n : List ℕ) (names : List (List ℕ)) (d : Disk)
    → leb 128 (length n) ≡ false
    → All IsName names
    → ((g : ℕ) (d : Disk)
        → walk_from fuel (some f) g (skip_slash (join names)) d ≡ walk_names (some f) g names d)
    → walk_step (walk_from fuel) f (n, join names) d ≡ walk_names dir f (n ∷ names) d
unfolding walk_step
walk_step-name fuel f dir n names d short all ih =
    let lookups =
      bind-cong (dir_lookup f n d)
        (walked_to f n (skip_slash (join names))
          (λ g. walk_from fuel (some f) g (skip_slash (join names))))
        (after_lookup f n (is_last names) (λ g. walk_names (some f) g names))
        (after_lookup-eq f n (skip_slash (join names)) (is_last names)
          (λ g. walk_from fuel (some f) g (skip_slash (join names)))
          (λ g. walk_names (some f) g names) (is_empty-skip_slash names all) ih) in
    elim (Bool-cases (d.words (f_type f) == 1)) [
      | inl e ↦ rw (short, e) lookups
      | inr e ↦ rw (short, e) refl
    ]

-- One round of the loop, at a path that begins with a name.
walk_from-name :
    (fuel f : ℕ) (dir : Option ℕ) (n : List ℕ) (names : List (List ℕ)) (d : Disk)
    → IsName n
    → All IsName names
    → ((g : ℕ) (d : Disk)
        → walk_from fuel (some f) g (skip_slash (join names)) d ≡ walk_names (some f) g names d)
    → walk_from (suc fuel) dir f (n ++ join names) d ≡ walk_names dir f (n ∷ names) d
unfolding walk_from
walk_from-name fuel f dir [] names d h all ih = absurd h
walk_from-name fuel f dir (c ∷ n) names d h all ih =
    ap (λ (t : List ℕ × List ℕ). walk_step (walk_from fuel) f t d)
      (component-append (c ∷ n) names (h.0, h.1))
    ∙ walk_step-name fuel f dir (c ∷ n) names d (ground (arith, h.2)) all ih

walk_from-names :
    (fuel f : ℕ) (dir : Option ℕ) (names : List (List ℕ)) (d : Disk)
    → length (join names) < fuel
    → All IsName names
    → walk_from fuel dir f (skip_slash (join names)) d ≡ walk_names dir f names d
unfolding walk_from
walk_from-names zero f dir names d b h = absurd (omega arith)
walk_from-names (suc fuel) f dir [] d b h = unfold skip_slash in refl
walk_from-names (suc fuel) f dir (n ∷ names) d b h =
    ap (λ (t : List ℕ). walk_from (suc fuel) dir f t d) (skip_slash-join n names h.0)
    ∙ walk_from-name fuel f dir n names d h.0 h.1 (λ g d'.
      walk_from-names fuel g (some f) names d' (omega (arith, length-append n (join names))) h.1)

-- walk_path of a path that is made of names, each behind a slash, not empty, without a slash and
-- shorter than MAXNAMELEN: it looks the names up one after the other, from the root on. The loop
-- ends: its bound is never reached.
pub walk_path-names :
    (names : List (List ℕ)) (d : Disk)
    → All IsName names
    → walk_path (join names) d ≡ walk_names none s_root names d
unfolding walk_path
walk_path-names names d h =
    walk_from-names (length (join names) + 1) s_root none names d (omega arith) h
