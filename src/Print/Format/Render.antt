-- ===== src/Print/Format/Render.antt =====
-- vprintfmt of mit-6.828/lab/lib/printfmt.c prints what its format and arguments mean.
use papers_annotation.Prelude.{
  ℕ, zero, suc, ◌+◌, ◌-◌, ◌*◌, ◌^◌, ◌≤◌, ◌<◌, ◌≡◌, refl, ap, ◌∙◌, arith, true, false, none, some,
  List, [], ◌∷◌, ◌++◌, ltb, leb, ◌==◌, length, length-append, map, dec_lt,
}
use papers_annotation.Prelude.Int.{ℤ, pos, negsuc}
use papers_annotation.Print.Format.{
  Arg, Flags, no_flags, shown, int_of, extend, signed, strnlen, print_string, printable, pos_part,
  convert, is_digit, switch, escape, printed, prepend, format,
}
use papers_annotation.Print.Format.Messages.{print_error, vprintfmt}
use papers_annotation.Print.Format.Pieces.{
  Pad, spaces, dash, zeros, Conversion, dec, uns, oct, hex, chr, str, percent, Piece, plain, conv,
  pad_flag, letter, arguments, render, args_of, value, pad_char, in_decimal, in_field, meaning,
  shows, NoPercent, AreDigits, IsWidth, IsArgument, AreValid,
}

abbrev flags : Pad → Flags
flags p = record no_flags { padc = pad_char p }

abbrev base : Pad → ℤ → Flags
base p w = record (flags p) { width = w }

signed-eq :
    (n : ℕ) (p : Pad) (w : ℤ)
    → n < 2 ^ 32
    → signed (extend n) (base p w) ≡ in_decimal (pos_part w) (pad_char p) (int_of n)
signed-eq n p w h = elim (dec_lt n (2 ^ 31)) [
  | yes low ↦
      let t : ltb n (2 ^ 31) ≡ true = ground arith in
      let g : leb (2 ^ 63) n ≡ false = ground arith in rw (t, g) refl
  | no high ↦
      let t : ltb n (2 ^ 31) ≡ false = ground arith in
      let g : leb (2 ^ 63) (n + (2 ^ 64 - 2 ^ 32)) ≡ true = ground arith in
      let m : 2 ^ 64 - (n + (2 ^ 64 - 2 ^ 32)) ≡ 2 ^ 32 - 1 - n + 1 = omega arith in
      rw (t, g, m) refl
]

strnlen-eq : (s : List ℕ) (size : ℕ) → length s ≤ size → strnlen s size ≡ length s
unfolding strnlen
strnlen-eq [] zero h = refl
strnlen-eq [] (suc size) h = refl
strnlen-eq (c ∷ s) zero h = absurd (omega arith)
strnlen-eq (c ∷ s) (suc size) h = ap suc (strnlen-eq s size (omega arith))

shown-as : (s : List ℕ) → map (printable false) s ≡ s
shown-as [] = refl
shown-as (c ∷ s) = ap (λ t. c ∷ t) (shown-as s)

print_string-eq :
    (s : List ℕ) (p : Pad) (w : ℤ)
    → length s < 2 ^ 32 - 1
    → print_string (base p w) s ≡ in_field (pos_part w) p s
unfolding print_string
print_string-eq s spaces w h = rw (strnlen-eq s (2 ^ 32 - 1) (omega arith), shown-as s) refl
print_string-eq s dash w h = rw (shown-as s) refl
print_string-eq s zeros w h = rw (strnlen-eq s (2 ^ 32 - 1) (omega arith), shown-as s) refl

module _ (pe : ℤ → List ℕ) where
  convert-eq :
      (p : Pad) (w : ℤ) (c : Conversion) (rest : List ℕ) (args : List Arg)
      → IsArgument c
      → convert pe (base p w) (letter c) rest (arguments c ++ args)
        ≡ shown (meaning (pos_part w) p c) rest args
  unfolding convert
  convert-eq p w (dec n) rest args h = ap (λ out. shown out rest args) (signed-eq n p w h)
  convert-eq p w (uns n) rest args h = refl
  convert-eq p w (oct n) rest args h = refl
  convert-eq p w (hex n) rest args h = refl
  convert-eq p w (chr n) rest args h = refl
  convert-eq p w (str s) rest args h = ap (λ out. shown out rest args) (print_string-eq s p w h)
  convert-eq p w percent rest args h = refl

  -- A letter ends the sequence, also behind a number.
  escape-letter :
      (p : Pad) (c : Conversion) (rest : List ℕ) (args : List Arg)
      → IsArgument c
      → escape none pe (flags p) (letter c ∷ rest) (arguments c ++ args)
        ≡ shown (meaning 0 p c) rest args
  unfolding escape
  escape-letter p (dec k) rest args h = convert-eq p (negsuc 0) (dec k) rest args h
  escape-letter p (uns k) rest args h = convert-eq p (negsuc 0) (uns k) rest args h
  escape-letter p (oct k) rest args h = convert-eq p (negsuc 0) (oct k) rest args h
  escape-letter p (hex k) rest args h = convert-eq p (negsuc 0) (hex k) rest args h
  escape-letter p (chr k) rest args h = convert-eq p (negsuc 0) (chr k) rest args h
  escape-letter p (str s) rest args h = convert-eq p (negsuc 0) (str s) rest args h
  escape-letter p percent rest args h = convert-eq p (negsuc 0) percent rest args h

  escape-number :
      (p : Pad) (n : ℕ) (c : Conversion) (rest : List ℕ) (args : List Arg)
      → IsArgument c
      → escape (some n) pe (flags p) (letter c ∷ rest) (arguments c ++ args)
        ≡ shown (meaning n p c) rest args
  unfolding escape
  escape-number p n (dec k) rest args h = convert-eq p (pos n) (dec k) rest args h
  escape-number p n (uns k) rest args h = convert-eq p (pos n) (uns k) rest args h
  escape-number p n (oct k) rest args h = convert-eq p (pos n) (oct k) rest args h
  escape-number p n (hex k) rest args h = convert-eq p (pos n) (hex k) rest args h
  escape-number p n (chr k) rest args h = convert-eq p (pos n) (chr k) rest args h
  escape-number p n (str s) rest args h = convert-eq p (pos n) (str s) rest args h
  escape-number p n percent rest args h = convert-eq p (pos n) percent rest args h

  -- The digits of a width, then the letter.
  escape-digits :
      (p : Pad) (n : ℕ) (ds : List ℕ) (c : Conversion) (rest : List ℕ) (args : List Arg)
      → AreDigits ds
      → IsArgument c
      → escape
          (some n)
          pe
          (flags p)
          (map (λ d. d + b'0') ds ++ (letter c ∷ rest))
          (arguments c ++ args)
        ≡ shown (meaning (value n ds) p c) rest args
  unfolding escape
  escape-digits p n [] c rest args _ h = escape-number p n c rest args h
  escape-digits p n (d ∷ ds) c rest args (small, more) h =
      let digit : is_digit (d + b'0') ≡ true = ground arith in
      let step : n * 10 + (d + b'0') - b'0' ≡ n * 10 + d = omega arith in
      rw (digit, step, escape) (escape-digits p (n * 10 + d) ds c rest args more h)

  escape-width :
      (p : Pad) (ds : List ℕ) (c : Conversion) (rest : List ℕ) (args : List Arg)
      → IsWidth ds
      → IsArgument c
      → escape none pe (flags p) (map (λ d. d + b'0') ds ++ (letter c ∷ rest)) (arguments c ++ args)
        ≡ shown (meaning (value 0 ds) p c) rest args
  unfolding escape switch
  escape-width p [] c rest args w h = escape-letter p c rest args h
  escape-width p (d ∷ ds) c rest args (first, small, more) h =
      let a : (d + b'0' == b'-') ≡ false = ground arith in
      let b : (d + b'0' == b'0') ≡ false = ground arith in
      let digit : is_digit (d + b'0') ≡ true = ground arith in
      let step : d + b'0' - b'0' ≡ d = omega arith in
      rw (a, b, digit, step, escape)
        (escape-digits p d ds c rest args more h
          ∙ ap (λ (k : ℕ). shown (meaning (value k ds) p c) rest args) (omega arith))

  escape-eq :
      (p : Pad) (ds : List ℕ) (c : Conversion) (rest : List ℕ) (args : List Arg)
      → IsWidth ds
      → IsArgument c
      → escape none pe no_flags
          (pad_flag p ++ (map (λ d. d + b'0') ds ++ (letter c ∷ rest)))
          (arguments c ++ args)
        ≡ shown (meaning (value 0 ds) p c) rest args
  unfolding escape switch
  escape-eq spaces ds c rest args w h = escape-width spaces ds c rest args w h
  escape-eq dash ds c rest args w h = escape-width dash ds c rest args w h
  escape-eq zeros ds c rest args w h = escape-width zeros ds c rest args w h

  format-plain :
      (t : List ℕ) (fuel : ℕ) (fmt : List ℕ) (args : List Arg) (out : List ℕ)
      → NoPercent t
      → ((fuel : ℕ) → length fmt < fuel → format fuel pe fmt args ≡ printed out)
      → length (t ++ fmt) < fuel
      → format fuel pe (t ++ fmt) args ≡ printed (t ++ out)
  unfolding format
  format-plain [] fuel fmt args out _ after h = after fuel h
  format-plain (c ∷ t) zero fmt args out _ after h = absurd (omega arith)
  format-plain (c ∷ t) (suc fuel) fmt args out (ne, more) after h =
      let other : (c == b'%') ≡ false = ground (arith, ne) in
      rw (other, format)
        (ap (prepend (c ∷ [])) (format-plain t fuel fmt args out more after (omega arith)))

  format-pieces :
      (ps : List Piece) (fuel : ℕ)
      → AreValid ps
      → length (render ps) < fuel
      → format fuel pe (render ps) (args_of ps) ≡ printed (shows ps)
  unfolding format
  format-pieces [] zero v h = absurd (omega arith)
  format-pieces [] (suc fuel) v h = refl
  format-pieces (plain t ∷ ps) fuel (v, more) h =
      format-plain t fuel (render ps) (args_of ps) (shows ps) v
        (λ fuel' g. format-pieces ps fuel' more g) h
  format-pieces (conv p ds c ∷ ps) zero v h = absurd (omega arith)
  format-pieces (conv p ds c ∷ ps) (suc fuel) (w, a, more) h =
      rw (escape-eq p ds c (render ps) (args_of ps) w a, format)
        (ap (prepend (meaning (value 0 ds) p c)) (
          format-pieces ps fuel more (
            omega (
              arith,
              length-append (pad_flag p) (map (λ d. d + b'0') ds ++ (letter c ∷ render ps)),
              length-append (map (λ d. d + b'0') ds) (letter c ∷ render ps),
            ))))

-- A format of texts without % and of the conversions d, u, o, x, c, s and %, each with an optional flag - or
-- 0 and an optional width, and with an argument of 32 bits or a string, prints the texts and what each
-- conversion stands for, one after the other: numbers as printnum prints them, a signed one with its
-- sign before the padding, a string in a field of the width, on the left of it for the flag -.
pub vprintfmt-render :
    (ps : List Piece) → AreValid ps → vprintfmt (render ps) (args_of ps) ≡ printed (shows ps)
unfolding vprintfmt
vprintfmt-render ps v = format-pieces print_error ps (length (render ps) + 1) v (omega arith)
