-- ===== src/Print/Format/Ends.antt =====
-- vprintfmt of mit-6.828/lab/lib/printfmt.c goes through its format and ends.
use papers_annotation.Prelude.{
  ℕ, zero, suc, ◌+◌, ◌≤◌, ◌<◌, ◌≡◌, ◌≢◌, refl, arith, Bool, true, false, Option, none, some, List,
  [], ◌∷◌, ◌==◌, if◌then◌else◌, length, Bool-cases, inl, inr,
}
use papers_annotation.Prelude.Int.{ℤ}
use papers_annotation.Print.Format.{
  Arg, Flags, no_flags, Escape, shown, unknown, getuint, getint, number, decimal, pointer,
  character, error, string, convert, Switch, reswitch, break, star, settle, is_digit, switch,
  on_char, escape, Printed, printed, out_of_fuel, prepend, format,
}
use papers_annotation.Print.Format.Messages.{print_error, vprintfmt}

if_both {ℓ} :
    {A : Type ℓ} (P : A → Type 0) (b : Bool) {x y : A} → P x → P y → P (if b then x else y)
if_both P true p q = p
if_both P false p q = q

-- A conversion leaves the rest of the format as it is.
abbrev Rests : List ℕ → Escape → Type 0
Rests rest (shown out r args) = r ≡ rest
Rests rest (unknown args) = Unit {0}
Rests rest Escape.bad_args = Unit {0}

module _ (pe : ℤ → List ℕ) (rest : List ℕ) where
  number-Rests :
      (base : ℕ) (f : Flags) (o : Option (ℕ × List Arg)) → Rests rest (number base f rest o)
  number-Rests base f none = tt
  number-Rests base f (some (n, args)) = refl

  decimal-Rests : (f : Flags) (o : Option (ℕ × List Arg)) → Rests rest (decimal f rest o)
  decimal-Rests f none = tt
  decimal-Rests f (some (n, args)) = refl

  pointer-Rests : (f : Flags) (o : Option (ℕ × List Arg)) → Rests rest (pointer f rest o)
  pointer-Rests f none = tt
  pointer-Rests f (some (n, args)) = refl

  character-Rests : (o : Option (ℕ × List Arg)) → Rests rest (character rest o)
  character-Rests none = tt
  character-Rests (some (n, args)) = refl

  error-Rests : (o : Option (ℕ × List Arg)) → Rests rest (error pe rest o)
  error-Rests none = tt
  error-Rests (some (n, args)) = refl

  string-Rests : (f : Flags) (args : List Arg) → Rests rest (string f rest args)
  string-Rests f (Arg.chars s ∷ args) = refl
  string-Rests f (Arg.word n ∷ args) = tt
  string-Rests f (Arg.long n ∷ args) = tt
  string-Rests f [] = tt

  convert-Rests : (f : Flags) (ch : ℕ) (args : List Arg) → Rests rest (convert pe f ch rest args)
  unfolding convert
  convert-Rests f ch args =
      let P : Escape → Type 0 = Rests rest in
      if_both P (ch == b'c') (character-Rests (getuint 0 args)) (
        if_both P (ch == b'e') (error-Rests (getuint 0 args)) (
          if_both P (ch == b's') (string-Rests f args) (
            if_both P (ch == b'd') (decimal-Rests f (getint f.lflag args)) (
              if_both P (ch == b'u') (number-Rests 10 f (getuint f.lflag args)) (
                if_both P (ch == b'o') (number-Rests 8 f (getuint f.lflag args)) (
                  if_both P (ch == b'p') (pointer-Rests f (getuint 0 args)) (
                    if_both P (ch == b'x') (number-Rests 16 f (getuint f.lflag args))
                      (if_both P (ch == b'%') refl tt))))))))

  abbrev Stops : Switch → Type 0
  Stops (reswitch r f args) = Unit {0}
  Stops (break e) = Rests rest e

  star-Stops : (f : Flags) (o : Option (ℕ × List Arg)) → Stops (star f o)
  star-Stops f none = tt
  star-Stops f (some (n, args)) = tt

  switch-Stops : (f : Flags) (ch : ℕ) (args : List Arg) → Stops (switch pe f ch rest args)
  unfolding switch
  switch-Stops f ch args = if_both Stops (ch == b'-') tt (
      if_both Stops (ch == b'0') tt (
        if_both Stops (is_digit ch) tt (
          if_both Stops (ch == b'*') (star-Stops f (getuint 0 args)) (
            if_both Stops (ch == b'.') tt (
              if_both Stops (ch == b'#') tt
                (if_both Stops (ch == b'l') tt (convert-Rests f ch args)))))))

  on_char-Stops :
      (r : Option ℕ) (f : Flags) (ch : ℕ) (args : List Arg) → Stops (on_char r pe f ch rest args)
  on_char-Stops none f ch args = switch-Stops f ch args
  on_char-Stops (some n) f ch args =
      if_both Stops (is_digit ch) tt (switch-Stops (settle (some n) f) ch args)

abbrev Within : ℕ → Escape → Type 0
Within n (shown out r args) = length r < n
Within n (unknown args) = Unit {0}
Within n Escape.bad_args = Unit {0}

Rests-Within : (rest : List ℕ) (n : ℕ) (e : Escape) → length rest < n → Rests rest e → Within n e
Rests-Within rest n (shown out r args) h e = rw e h
Rests-Within rest n (unknown args) h e = tt
Rests-Within rest n Escape.bad_args h e = tt

after-Within :
    (pe : ℤ → List ℕ) (rest : List ℕ) (n : ℕ) (sw : Switch)
    → length rest < n
    → Stops pe rest sw
    → ((r : Option ℕ) (f : Flags) (args : List Arg) → Within n (escape r pe f rest args))
    → Within n (elim sw [ reswitch r f args ↦ escape r pe f rest args | break e ↦ e ])
after-Within pe rest n (reswitch r f args) h s more = more r f args
after-Within pe rest n (break e) h s more = Rests-Within rest n e h s

escape-Within :
    (r : Option ℕ) (pe : ℤ → List ℕ) (f : Flags) (fmt : List ℕ) (args : List Arg) (n : ℕ)
    → length fmt ≤ n
    → Within n (escape r pe f fmt args)
unfolding escape
escape-Within r pe f [] args n h = tt
escape-Within r pe f (ch ∷ rest) args n h =
    after-Within pe rest n (on_char r pe f ch rest args) (omega arith)
      (on_char-Stops pe rest r f ch args)
      (λ r' f' args'. escape-Within r' pe f' rest args' n (omega arith))

prepend-ne : (out : List ℕ) (p : Printed) → p ≢ out_of_fuel → prepend out p ≢ out_of_fuel
prepend-ne out (printed more) h e = cc
prepend-ne out Printed.bad_args h e = cc
prepend-ne out out_of_fuel h e = h refl

-- What follows an escape sequence ends, whichever way that ends.
escaped-ne :
    (pe : ℤ → List ℕ) (fuel n : ℕ) (fmt : List ℕ) (e : Escape)
    → length fmt < fuel
    → n ≤ fuel
    → Within n e
    → ((fmt : List ℕ) (args : List Arg) → length fmt < fuel → format fuel pe fmt args ≢ out_of_fuel)
    → elim e [
      | shown out rest args' ↦ prepend out (format fuel pe rest args')
      | unknown args' ↦ prepend (b'%' ∷ []) (format fuel pe fmt args')
      | Escape.bad_args ↦ Printed.bad_args
    ]
      ≢ out_of_fuel
escaped-ne pe fuel n fmt (shown out rest args') h g w ih =
    prepend-ne out (format fuel pe rest args') (ih rest args' (omega arith))
escaped-ne pe fuel n fmt (unknown args) h g w ih =
    prepend-ne (b'%' ∷ []) (format fuel pe fmt args) (ih fmt args h)
escaped-ne pe fuel n fmt Escape.bad_args h g w ih = λ e. cc

format-ne :
    (pe : ℤ → List ℕ) (fuel : ℕ) (fmt : List ℕ) (args : List Arg)
    → length fmt < fuel
    → format fuel pe fmt args ≢ out_of_fuel
unfolding format
format-ne pe zero fmt args h = absurd (omega arith)
format-ne pe (suc fuel) [] args h = λ e. cc
format-ne pe (suc fuel) (ch ∷ fmt) args h = elim (Bool-cases (ch == b'%')) [
  | inl e ↦
      rw (e, format)
        (escaped-ne pe fuel (length fmt) fmt (escape none pe no_flags fmt args) (omega arith)
          (omega arith) (escape-Within none pe no_flags fmt args (length fmt) (omega arith))
          (format-ne pe fuel))
  | inr e ↦
      rw (e, format)
        (prepend-ne (ch ∷ []) (format fuel pe fmt args) (format-ne pe fuel fmt args (omega arith)))
]

-- For every format and all arguments vprintfmt ends: its outer loop makes at most one round for each
-- character of the format and one for the NUL.
pub vprintfmt-ne-out_of_fuel : (fmt : List ℕ) (args : List Arg) → vprintfmt fmt args ≢ out_of_fuel
unfolding vprintfmt
vprintfmt-ne-out_of_fuel fmt args = format-ne print_error (length fmt + 1) fmt args (omega arith)
