-- ===== src/Args.antt =====
-- The parser of command-line flags of mit-6.828/lab/lib/args.c.
pub mod Flags
mod Tests
use papers_annotation.Prelude.{
  ℕ, zero, suc, ◌+◌, ◌-◌, Option, none, some, Bool, true, false, not, ◌&&◌, ◌||◌, ltb, leb, ◌==◌,
  if◌then◌else◌, List, [], ◌∷◌,
}
use papers_annotation.Prelude.Int.{ℤ, pos, negsuc}

-- A string is what is left of it from a pointer on, without the NUL. `argv` is none where the array holds
-- NULL.
pub record Argstate : Type 0 where
  pub argc : ℕ
  pub argv : ℕ → Option (List ℕ)
  pub curarg : Option (List ℕ)
  pub argvalue : Option (List ℕ)

-- The character that a pointer points to, and the pointer to the next.
abbrev pub char : List ℕ → ℕ
char [] = 0
char (c ∷ cs) = c

abbrev pub next : List ℕ → List ℕ
next [] = []
next (c ∷ cs) = cs

abbrev pub dash : ℕ
dash = 45

unfoldable pub argstart : ℕ → (ℕ → Option (List ℕ)) → Argstate
argstart argc argv = record {
  argc = argc;
  argv = argv;
  curarg = if ltb 1 argc then some [] else none;
  argvalue = none;
}

-- The memmove of argc - 1 pointers down by one, and the decrement.
abbrev pub shift : Argstate → Argstate
shift s = record s {
  argv = λ i. if leb 1 i && ltb i s.argc then s.argv (i + 1) else s.argv i;
  argc = s.argc - 1;
}

abbrev pub end_of_args : Argstate → ℤ × Argstate
end_of_args s = (negsuc 0, record s { curarg = none })

abbrev pub take_char : List ℕ → Argstate → ℤ × Argstate
take_char cur s = (pos (char cur), record s { curarg = some (next cur) })

-- The next argument has a flag: `word` is argv[1].
abbrev pub next_word : List ℕ → Argstate → ℤ × Argstate
next_word word s =
    if not (char word == dash) || char (next word) == 0
    then end_of_args s
    else let cur = next word in
      let s1 = shift (record s { curarg = some cur }) in
      if char cur == dash && char (next cur) == 0 then end_of_args s1 else take_char cur s1

-- The rest of argnext for a curarg that is not NULL; none where it follows a NULL pointer.
abbrev pub next_flag : List ℕ → Argstate → Option (ℤ × Argstate)
next_flag cur s =
    if not (char cur == 0)
    then some (take_char cur s)
    else if s.argc == 1
    then some (end_of_args s)
    else elim (s.argv 1) [ none ↦ none | some word ↦ some (next_word word s) ]

unfoldable pub argnext : Argstate → Option (ℤ × Argstate)
argnext s =
    let s1 = record s { argvalue = none } in
    elim s.curarg [ none ↦ some (negsuc 0, s1) | some cur ↦ next_flag cur s1 ]

unfoldable pub argnextvalue : Argstate → Option (List ℕ) × Argstate
argnextvalue s = elim s.curarg [
  | none ↦ (none, s)
  | some cur ↦
      if not (char cur == 0)
      then (some cur, record s { argvalue = some cur; curarg = some [] })
      else if ltb 1 s.argc
      then (s.argv 1, shift (record s { argvalue = s.argv 1 }))
      else (none, record s { argvalue = none; curarg = none })
]

unfoldable pub argvalue : Argstate → Option (List ℕ) × Argstate
unfolding argnextvalue
argvalue s = elim s.argvalue [ none ↦ argnextvalue s | some v ↦ (some v, s) ]
