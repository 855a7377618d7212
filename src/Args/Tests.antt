-- ===== src/Args/Tests.antt =====
-- The flags of a command line, for the theorem on mit-6.828/lab/lib/args.c.
use papers_annotation.Prelude.{ℕ, ◌≡◌, refl, arith, Option, none, some, List, [], ◌∷◌, get_elem?}
use papers_annotation.Prelude.Int.{negsuc}
use papers_annotation.Args.{Argstate, argstart, argnext, argnextvalue}
use papers_annotation.Args.Flags.{collect, Holds, collect-argstart}

-- prog -lf -- x
abbrev words : List (List ℕ)
words = (45 ∷ 108 ∷ 102 ∷ []) ∷ (45 ∷ 45 ∷ []) ∷ (120 ∷ []) ∷ []

abbrev array : ℕ → Option (List ℕ)
array i = get_elem? ((112 ∷ []) ∷ words) i

array-Holds : Holds 4 array words
array-Holds = record { count = refl; words = λ i low. refl }

collect-argstart_example :
    (s : Argstate) × (collect 3 (argstart 4 array) ≡ some (108 ∷ 102 ∷ [], s))
    × Holds s.argc s.argv ((120 ∷ []) ∷ [])
    × (argnext s ≡ some (negsuc 0, record s { argvalue = none }))
collect-argstart_example =
    collect-argstart words 4 array 3
      (
        (omega arith, (omega arith, (omega arith, tt))),
        ((omega arith, (omega arith, tt)), ((omega arith, tt), tt)),
      )
      array-Holds (omega arith)

-- The value of a flag is the rest of its word, and then the next argument.
abbrev after_l : Argstate
after_l = record { argc = 4; argv = array; curarg = some (102 ∷ []); argvalue = none }

value_f : (argnextvalue after_l).0 ≡ some (102 ∷ [])
unfolding argnextvalue
value_f = refl

next_value : (argnextvalue (argnextvalue after_l).1).0 ≡ some (45 ∷ 108 ∷ 102 ∷ [])
unfolding argnextvalue
next_value = refl
