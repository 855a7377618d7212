-- ===== src/Args/Flags.antt =====
-- Which flags argnext of mit-6.828/lab/lib/args.c finds.
use mathlib.Core.Path.{subst}
use papers_annotation.Prelude.{
  ℕ, zero, suc, ◌+◌, ◌-◌, ◌≤◌, ◌<◌, ◌≡◌, ◌≢◌, refl, arith, Option, none, some, true, false, not,
  ◌&&◌, ltb, leb, ◌==◌, if◌then◌else◌, List, [], ◌∷◌, ◌++◌, length, length-append, get_elem?,
  Bool-cases, inl, inr, ap, ◌∙◌, sym,
}
use papers_annotation.Prelude.Int.{ℤ, pos, negsuc}
use papers_annotation.Args.{
  Argstate, char, next, dash, end_of_args, next_word, next_flag, argstart, argnext,
}

abbrev pub prepend : ℕ → Option (List ℕ × Argstate) → Option (List ℕ × Argstate)
prepend c none = none
prepend c (some (found, s)) = some (c ∷ found, s)

abbrev pub collected :
    (Argstate → Option (List ℕ × Argstate)) → Option (ℤ × Argstate) → Option (List ℕ × Argstate)
collected go none = none
collected go (some (negsuc n, s)) = some ([], s)
collected go (some (pos c, s)) = prepend c (go s)

-- The calls of argnext until it returns -1: the flags, and the state then. None after a NULL pointer,
-- or when the rounds are too few.
unfoldable pub collect : ℕ → Argstate → Option (List ℕ × Argstate)
unfolding argnext
collect zero s = none
collect (suc rounds) s = collected (collect rounds) (argnext s)

-- The flags of a list of arguments, and the arguments after them: a dash and at least one character more
-- is a word of flags; "--" ends them and is not one of the arguments left.
abbrev pub flags : List (List ℕ) → List ℕ × List (List ℕ)
flags [] = ([], [])
flags ([] ∷ ws) = ([], [] ∷ ws)
flags ((a ∷ []) ∷ ws) = ([], (a ∷ []) ∷ ws)
flags ((a ∷ b ∷ cs) ∷ ws) =
    let rest = flags ws in
    if not (a == dash)
    then ([], (a ∷ b ∷ cs) ∷ ws)
    else if b == dash && length cs == 0
    then ([], ws)
    else (b ∷ (cs ++ rest.0), rest.1)

abbrev pub NoNul : List ℕ → Type 0
NoNul [] = Unit {0}
NoNul (c ∷ cs) = (c ≢ 0) × NoNul cs

abbrev pub AreStrings : List (List ℕ) → Type 0
AreStrings [] = Unit {0}
AreStrings (w ∷ ws) = NoNul w × AreStrings ws

-- After the program's name the array holds the words and then NULL.
pub record Holds (argc : ℕ) (argv : ℕ → Option (List ℕ)) (ws : List (List ℕ)) : Type 0 where
  pub count : argc ≡ length ws + 1
  pub words : (i : ℕ) → i ≤ length ws → argv (suc i) ≡ get_elem? ws i

abbrev pub reading : ℕ → (ℕ → Option (List ℕ)) → List ℕ → Argstate
reading argc argv cur = record { argc = argc; argv = argv; curarg = some cur; argvalue = none }

abbrev shifted : ℕ → (ℕ → Option (List ℕ)) → ℕ → Option (List ℕ)
shifted argc argv i = if leb 1 i && ltb i argc then argv (i + 1) else argv i

shifted-Holds :
    (argc : ℕ) (argv : ℕ → Option (List ℕ)) (w : List ℕ) (ws : List (List ℕ))
    → Holds argc argv (w ∷ ws)
    → Holds (argc - 1) (shifted argc argv) ws
shifted-Holds argc argv w ws h = record {
  count = omega (arith, h.count);
  words = λ i low.
      let inside : (leb 1 (suc i) && ltb (suc i) argc) ≡ true = ground (arith, h.count) in
      let two : suc i + 1 ≡ suc (suc i) = omega arith in
      rw inside (ap argv two ∙ h.words (suc i) (omega arith));
}

-- Within a word.
abbrev prepends : List ℕ → Option (List ℕ × Argstate) → Option (List ℕ × Argstate)
prepends [] o = o
prepends (c ∷ cs) o = prepend c (prepends cs o)

collect-word :
    (argc : ℕ) (argv : ℕ → Option (List ℕ)) (cs : List ℕ) (rounds : ℕ)
    → NoNul cs
    → collect (length cs + rounds) (reading argc argv cs)
      ≡ prepends cs (collect rounds (reading argc argv []))
unfolding collect argnext
collect-word argc argv [] rounds h = ap (λ (n : ℕ). collect n (reading argc argv [])) (omega arith)
collect-word argc argv (c ∷ cs) rounds h =
    let char_here : (c == 0) ≡ false = ground (arith, h.0) in
    let one_more : suc (length cs) + rounds ≡ suc (length cs + rounds) = omega arith in
    ap (λ (n : ℕ). collect n (reading argc argv (c ∷ cs))) one_more
    ∙ rw char_here (ap (prepend c) (collect-word argc argv cs rounds h.1))

prepends-some :
    (cs found : List ℕ) (s : Argstate) → prepends cs (some (found, s)) ≡ some (cs ++ found, s)
prepends-some [] found s = refl
prepends-some (c ∷ cs) found s = ap (prepend c) (prepends-some cs found s)

abbrev Collects : ℕ → (ℕ → Option (List ℕ)) → ℕ → List ℕ × List (List ℕ) → Type 0
Collects argc argv rounds (found, rest) =
    (s : Argstate) × (collect rounds (reading argc argv []) ≡ some (found, s))
    × Holds s.argc s.argv rest
    × (s.curarg ≡ none)

module _ (argc : ℕ) (argv : ℕ → Option (List ℕ)) (w : List ℕ) (ws : List (List ℕ))
    (h : Holds argc argv (w ∷ ws)) where
  argnext-word : argnext (reading argc argv []) ≡ some (next_word w (reading argc argv []))
  unfolding argnext
  argnext-word =
      let others : (argc == 1) ≡ false = ground (arith, h.count) in
      let first : argv 1 ≡ some w = h.words 0 (omega arith) in
      rw others (rw (first, next_flag) refl)

  stops :
      (rounds : ℕ)
      → next_word w (reading argc argv []) ≡ end_of_args (reading argc argv [])
      → Collects argc argv (suc rounds) ([], w ∷ ws)
  unfolding collect
  stops rounds e = (
    record (reading argc argv []) { curarg = none },
    ap (collected (collect rounds)) (argnext-word ∙ ap some e),
    record { count = h.count; words = h.words },
    refl,
  )

-- The word is read, and then the ones after it.
goes_on :
    (argc : ℕ) (argv : ℕ → Option (List ℕ)) (b : ℕ) (cs : List ℕ) (w : List ℕ) (ws : List (List ℕ))
    (rounds : ℕ)
    → Holds argc argv (w ∷ ws)
    → NoNul cs
    → next_word w (reading argc argv []) ≡ (pos b, reading (argc - 1) (shifted argc argv) cs)
    → Collects (argc - 1) (shifted argc argv) rounds (flags ws)
    → Collects argc argv (suc (length cs + rounds)) (b ∷ (cs ++ (flags ws).0), (flags ws).1)
unfolding collect
goes_on argc argv b cs w ws rounds h strings e (s, r, held, done) = (
  s,
  ap (collected (collect (length cs + rounds))) (argnext-word argc argv w ws h ∙ ap some e)
      ∙ ap (prepend b) (
          collect-word (argc - 1) (shifted argc argv) cs rounds strings
          ∙ ap (prepends cs) r
          ∙ prepends-some cs (flags ws).0 s),
  held,
  done,
)

-- A word "--".
ends :
    (argc : ℕ) (argv : ℕ → Option (List ℕ)) (w : List ℕ) (ws : List (List ℕ)) (rounds : ℕ)
    → Holds argc argv (w ∷ ws)
    → next_word w (reading argc argv [])
      ≡ end_of_args (reading (argc - 1) (shifted argc argv) (next w))
    → Collects argc argv (suc rounds) ([], ws)
unfolding collect
ends argc argv w ws rounds h e = (
  record (reading (argc - 1) (shifted argc argv) []) { curarg = none },
  ap (collected (collect rounds)) (argnext-word argc argv w ws h ∙ ap some e),
  shifted-Holds argc argv w ws h,
  refl,
)

-- The tests of a word of at least two characters.
data Word (argc : ℕ) (argv : ℕ → Option (List ℕ)) (a b : ℕ) (cs : List ℕ) (ws : List (List ℕ))
    : Type 0 where
  no_flag :
      next_word (a ∷ b ∷ cs) (reading argc argv []) ≡ end_of_args (reading argc argv [])
      → flags ((a ∷ b ∷ cs) ∷ ws) ≡ ([], (a ∷ b ∷ cs) ∷ ws)
      → Word argc argv a b cs ws
  dashes :
      next_word (a ∷ b ∷ cs) (reading argc argv [])
        ≡ end_of_args (reading (argc - 1) (shifted argc argv) (b ∷ cs))
      → flags ((a ∷ b ∷ cs) ∷ ws) ≡ ([], ws)
      → Word argc argv a b cs ws
  flag :
      next_word (a ∷ b ∷ cs) (reading argc argv [])
        ≡ (pos b, reading (argc - 1) (shifted argc argv) cs)
      → flags ((a ∷ b ∷ cs) ∷ ws) ≡ (b ∷ (cs ++ (flags ws).0), (flags ws).1)
      → Word argc argv a b cs ws

at_end : (cs : List ℕ) → NoNul cs → (char cs == 0) ≡ (length cs == 0)
at_end [] h = refl
at_end (c ∷ cs) h = let f : (c == 0) ≡ false = ground (arith, h.0) in rw f (ground arith)

Word-total :
    (argc : ℕ) (argv : ℕ → Option (List ℕ)) (a b : ℕ) (cs : List ℕ) (ws : List (List ℕ))
    → b ≢ 0
    → NoNul cs
    → Word argc argv a b cs ws
Word-total argc argv a b cs ws nz strings =
    let some_char : (b == 0) ≡ false = ground (arith, nz) in
    let last = at_end cs strings in
    elim (Bool-cases (a == dash)) [
      | inr t ↦ no_flag (rw t refl) (rw t refl)
      | inl t ↦ elim (Bool-cases (b == dash && length cs == 0)) [
        | inl u ↦ dashes (rw (t, some_char, last, u) refl) (rw (t, u) refl)
        | inr u ↦ flag (rw (t, some_char, last, u) refl) (rw (t, u) refl)
      ]
    ]

none_left :
    (argc : ℕ) (argv : ℕ → Option (List ℕ)) (rounds : ℕ)
    → Holds argc argv []
    → Collects argc argv (suc rounds) ([], [])
unfolding collect argnext
none_left argc argv rounds h =
    let alone : (argc == 1) ≡ true = ground (arith, h.count) in
    (
      record (reading argc argv []) { curarg = none },
      rw alone refl,
      record { count = h.count; words = h.words },
      refl,
    )

collect-flags :
    (ws : List (List ℕ)) (argc : ℕ) (argv : ℕ → Option (List ℕ)) (rounds : ℕ)
    → AreStrings ws
    → Holds argc argv ws
    → length (flags ws).0 < rounds
    → Collects argc argv rounds (flags ws)
collect-flags ws argc argv zero strings h enough = absurd (omega arith)
collect-flags [] argc argv (suc rounds) strings h enough = none_left argc argv rounds h
collect-flags ([] ∷ ws) argc argv (suc rounds) strings h enough =
    stops argc argv [] ws h rounds refl
collect-flags ((a ∷ []) ∷ ws) argc argv (suc rounds) strings h enough =
    elim (Bool-cases (a == dash)) [
      | inl t ↦ stops argc argv (a ∷ []) ws h rounds (rw t refl)
      | inr t ↦ stops argc argv (a ∷ []) ws h rounds (rw t refl)
    ]
collect-flags ((a ∷ b ∷ cs) ∷ ws) argc argv (suc rounds) strings h enough =
    elim (Word-total argc argv a b cs ws strings.0.1.0 strings.0.1.1) [
      | no_flag e f ↦
          subst (Collects argc argv (suc rounds)) (sym f)
            (stops argc argv (a ∷ b ∷ cs) ws h rounds e)
      | dashes e f ↦
          subst (Collects argc argv (suc rounds)) (sym f)
            (ends argc argv (a ∷ b ∷ cs) ws rounds h e)
      | flag e f ↦
          let size : length (flags ((a ∷ b ∷ cs) ∷ ws)).0 ≡ suc (length cs + length (flags ws).0) =
            ap (λ r. length r.0) f ∙ ap suc (length-append cs (flags ws).0) in
          let left : suc (length cs + (rounds - length cs)) ≡ suc rounds =
            omega (arith, size, enough) in
          let rest =
            collect-flags ws (argc - 1) (shifted argc argv) (rounds - length cs) strings.1
              (shifted-Holds argc argv (a ∷ b ∷ cs) ws h) (omega (arith, size, enough)) in
          subst (Collects argc argv (suc rounds)) (sym f) (
            subst (λ n. Collects argc argv n (b ∷ (cs ++ (flags ws).0), (flags ws).1)) left
              (goes_on argc argv b cs (a ∷ b ∷ cs) ws (rounds - length cs) h strings.0.1.1 e rest))
    ]

ended : (s : Argstate) → s.curarg ≡ none → argnext s ≡ some (negsuc 0, record s { argvalue = none })
unfolding argnext
ended s e =
    let s1 = record s { argvalue = none } in
    ap
      (λ (o : Option (List ℕ)). elim o [ none ↦ some (negsuc 0, s1) | some cur ↦ next_flag cur s1 ])
      e

-- After argstart, on an array with the program's name, the arguments ws, none of them with a NUL inside,
-- and NULL: calls of argnext, as many as there are flags and one more, return the flags of the words that
-- begin with a dash and go on after it, up to the first word that does not or to "--", and then -1; the
-- array holds the arguments that are left, and each further call returns -1.
pub collect-argstart :
    (ws : List (List ℕ)) (argc : ℕ) (argv : ℕ → Option (List ℕ)) (rounds : ℕ)
    → AreStrings ws
    → Holds argc argv ws
    → length (flags ws).0 < rounds
    → (s : Argstate) × (collect rounds (argstart argc argv) ≡ some ((flags ws).0, s))
      × Holds s.argc s.argv (flags ws).1
      × (argnext s ≡ some (negsuc 0, record s { argvalue = none }))
unfolding argstart collect argnext
collect-argstart ws argc argv zero strings h enough = absurd (omega arith)
collect-argstart [] argc argv (suc rounds) strings h enough =
    let alone : ltb 1 argc ≡ false = ground (arith, h.count) in
    (
      argstart argc argv,
      rw alone refl,
      record { count = h.count; words = h.words },
      ended (argstart argc argv) (rw alone refl),
    )
collect-argstart (w ∷ ws) argc argv (suc rounds) strings h enough =
    let more : ltb 1 argc ≡ true = ground (arith, h.count) in
    let (s, r, held, done) = collect-flags (w ∷ ws) argc argv (suc rounds) strings h enough in
    (s, rw more r, held, ended s done)
