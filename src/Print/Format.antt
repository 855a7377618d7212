-- ===== src/Print/Format.antt =====
-- vprintfmt and vsnprintf of mit-6.828/lab/lib/printfmt.c. A string is the list of the characters before its
-- NUL, and what is put is a list of characters.
pub mod Messages
pub mod Ends
pub mod Pieces
pub mod Render
pub mod Buffer
mod Tests
use papers_annotation.Prelude.{
  ℕ, zero, suc, ◌+◌, ◌-◌, ◌*◌, ◌%◌, ◌^◌, Bool, true, false, not, ◌&&◌, ◌||◌, Option, none, some,
  List, [], ◌∷◌, ◌++◌, ltb, leb, ◌==◌, if◌then◌else◌, length, take, map, replicate, min,
}
use papers_annotation.Prelude.Int.{ℤ, pos, negsuc, is_neg}
use papers_annotation.Kern.State.{update}
use papers_annotation.Print.{printnum}

-- The arguments: 32 or 64 bits of a number or a pointer that is not read through, or a string, which
-- is `none` for NULL.
pub data Arg : Type 0 where
  word : ℕ → Arg
  long : ℕ → Arg
  chars : Option (List ℕ) → Arg

-- `none` where an argument has another type than va_arg is told, or is missing.
abbrev pub getuint : ℕ → List Arg → Option (ℕ × List Arg)
getuint lflag (word n ∷ args) = if leb 2 lflag then none else some (n, args)
getuint lflag (long n ∷ args) = if leb 2 lflag then some (n, args) else none
getuint lflag _ = none

-- An int of 32 bits, and the 64 bits of its sign extension.
abbrev pub int_of : ℕ → ℤ
int_of n = if ltb n (2 ^ 31) then pos n else negsuc (2 ^ 32 - 1 - n)

abbrev pub extend : ℕ → ℕ
extend n = if ltb n (2 ^ 31) then n else n + (2 ^ 64 - 2 ^ 32)

abbrev pub getint : ℕ → List Arg → Option (ℕ × List Arg)
getint lflag (word n ∷ args) = if leb 2 lflag then none else some (extend n, args)
getint lflag (long n ∷ args) = if leb 2 lflag then some (n, args) else none
getint lflag _ = none

pub record Flags : Type 0 where
  pub padc : ℕ
  pub width : ℤ
  pub precision : ℤ
  pub lflag : ℕ
  pub altflag : Bool

abbrev pub no_flags : Flags
no_flags = record {
  padc = 0x20;
  width = negsuc 0;
  precision = negsuc 0;
  lflag = 0;
  altflag = false;
}

-- How an escape sequence ends: with what it puts, the rest of the format and of the arguments; at a
-- character that is none of the known ones, with the arguments that are left then; or with an argument
-- of another type.
pub data Escape : Type 0 where
  shown : List ℕ → List ℕ → List Arg → Escape
  unknown : List Arg → Escape
  bad_args : Escape

abbrev pub pos_part : ℤ → ℕ
pos_part (pos n) = n
pos_part (negsuc n) = 0

-- process_precision
abbrev pub process_precision : ℤ → Flags → Flags
process_precision p f =
    if is_neg f.width
    then record f { width = p; precision = negsuc 0 }
    else record f { precision = p }

-- %d, after the number was fetched.
abbrev pub signed : ℕ → Flags → List ℕ
signed num f =
    if leb (2 ^ 63) num
    then 0x2D ∷ printnum (2 ^ 64 - num) 10 (pos_part f.width) f.padc
    else printnum num 10 (pos_part f.width) f.padc

-- The size_t of a precision, for strnlen.
abbrev pub size_of : ℤ → ℕ
size_of (pos n) = n
size_of (negsuc n) = 2 ^ 32 - 1 - n

unfoldable pub strnlen : List ℕ → ℕ → ℕ
strnlen s zero = 0
strnlen [] (suc size) = 0
strnlen (c ∷ s) (suc size) = suc (strnlen s size)

abbrev pub printable : Bool → ℕ → ℕ
printable alt ch = if alt && (ltb ch 0x20 || ltb 0x7E ch) then 0x3F else ch

-- The characters that the precision leaves.
abbrev pub cut : ℤ → List ℕ → List ℕ
cut (pos n) p = take n p
cut (negsuc n) p = p

-- %s
unfoldable pub print_string : Flags → List ℕ → List ℕ
unfolding strnlen
print_string f p =
    let put = map (printable f.altflag) (cut f.precision p) in
    let left = replicate (pos_part f.width - strnlen p (size_of f.precision)) f.padc in
    let right = replicate (pos_part f.width - length put) 0x20 in
    if f.padc == 0x2D then put ++ right else left ++ put

abbrev pub null_text : Option (List ℕ) → List ℕ
null_text none = 0x28 ∷ 0x6E ∷ 0x75 ∷ 0x6C ∷ 0x6C ∷ 0x29 ∷ []
null_text (some s) = s

abbrev pub number : ℕ → Flags → List ℕ → Option (ℕ × List Arg) → Escape
number base f rest none = bad_args
number base f rest (some (num, args)) =
    shown (printnum num base (pos_part f.width) f.padc) rest args

abbrev pub decimal : Flags → List ℕ → Option (ℕ × List Arg) → Escape
decimal f rest none = bad_args
decimal f rest (some (num, args)) = shown (signed num f) rest args

abbrev pub pointer : Flags → List ℕ → Option (ℕ × List Arg) → Escape
pointer f rest none = bad_args
pointer f rest (some (num, args)) =
    shown (0x30 ∷ 0x78 ∷ printnum num 16 (pos_part f.width) f.padc) rest args

abbrev pub character : List ℕ → Option (ℕ × List Arg) → Escape
character rest none = bad_args
character rest (some (ch, args)) = shown (ch ∷ []) rest args

abbrev pub error : (ℤ → List ℕ) → List ℕ → Option (ℕ × List Arg) → Escape
error print_error rest none = bad_args
error print_error rest (some (err, args)) = shown (print_error (int_of err)) rest args

abbrev pub string : Flags → List ℕ → List Arg → Escape
string f rest (chars s ∷ args) = shown (print_string f (null_text s)) rest args
string f rest _ = bad_args

-- The conversions of the switch.
unfoldable pub convert : (ℤ → List ℕ) → Flags → ℕ → List ℕ → List Arg → Escape
unfolding print_string
convert print_error f ch rest args =
    if ch == b'c'
    then character rest (getuint 0 args)
    else if ch == b'e'
    then error print_error rest (getuint 0 args)
    else if ch == b's'
    then string f rest args
    else if ch == b'd'
    then decimal f rest (getint f.lflag args)
    else if ch == b'u'
    then number 10 f rest (getuint f.lflag args)
    else if ch == b'o'
    then number 8 f rest (getuint f.lflag args)
    else if ch == b'p'
    then pointer f rest (getuint 0 args)
    else if ch == b'x'
    then number 16 f rest (getuint f.lflag args)
    else if ch == b'%'
    then shown (b'%' ∷ []) rest args
    else unknown args

-- A character of an escape sequence leads to the next, or ends it. `reading` is the number of a width
-- whose digits are being read.
pub data Switch : Type 0 where
  reswitch : Option ℕ → Flags → List Arg → Switch
  break : Escape → Switch

abbrev pub star : Flags → Option (ℕ × List Arg) → Switch
star f none = break bad_args
star f (some (n, args)) = reswitch none (process_precision (int_of n) f) args

abbrev pub settle : Option ℕ → Flags → Flags
settle none f = f
settle (some n) f = process_precision (pos n) f

abbrev pub is_digit : ℕ → Bool
is_digit ch = leb b'0' ch && leb ch b'9'

unfoldable pub switch : (ℤ → List ℕ) → Flags → ℕ → List ℕ → List Arg → Switch
unfolding convert
switch print_error f ch rest args =
    if ch == b'-'
    then reswitch none (record f { padc = b'-' }) args
    else if ch == b'0'
    then reswitch none (record f { padc = b'0' }) args
    else if is_digit ch
    then reswitch (some (ch - b'0')) f args
    else if ch == b'*'
    then star f (getuint 0 args)
    else if ch == b'.'
    then reswitch none (if is_neg f.width then record f { width = pos 0 } else f) args
    else if ch == b'#'
    then reswitch none (record f { altflag = true }) args
    else if ch == b'l'
    then reswitch none (record f { lflag = f.lflag + 1 }) args
    else break (convert print_error f ch rest args)

abbrev pub continue_number : ℕ → (ℤ → List ℕ) → Flags → ℕ → List ℕ → List Arg → Switch
continue_number n print_error f ch rest args =
    if is_digit ch
    then reswitch (some (n * 10 + ch - b'0')) f args
    else switch print_error (settle (some n) f) ch rest args

abbrev pub on_char : Option ℕ → (ℤ → List ℕ) → Flags → ℕ → List ℕ → List Arg → Switch
on_char none print_error f ch rest args = switch print_error f ch rest args
on_char (some n) print_error f ch rest args = continue_number n print_error f ch rest args

-- From a character after the % on. At the NUL no escape sequence is complete.
unfoldable pub escape : Option ℕ → (ℤ → List ℕ) → Flags → List ℕ → List Arg → Escape
unfolding switch
escape reading print_error f [] args = unknown args
escape reading print_error f (ch ∷ rest) args = elim (on_char reading print_error f ch rest args) [
  | reswitch reading' f' args' ↦ escape reading' print_error f' rest args'
  | break e ↦ e
]

pub data Printed : Type 0 where
  printed : List ℕ → Printed
  bad_args : Printed
  out_of_fuel : Printed

abbrev pub prepend : List ℕ → Printed → Printed
prepend out (printed more) = printed (out ++ more)
prepend out bad_args = bad_args
prepend out out_of_fuel = out_of_fuel

-- After an unknown character the format goes on behind the %, and the arguments behind those that a *
-- has taken.
unfoldable pub format : ℕ → (ℤ → List ℕ) → List ℕ → List Arg → Printed
unfolding escape
format zero print_error fmt args = out_of_fuel
format (suc fuel) print_error [] args = printed []
format (suc fuel) print_error (ch ∷ fmt) args = elim (ch == b'%') [
  | false ↦ prepend (ch ∷ []) (format fuel print_error fmt args)
  | true ↦ elim (escape none print_error no_flags fmt args) [
    | shown out rest args' ↦ prepend out (format fuel print_error rest args')
    | unknown args' ↦ prepend (b'%' ∷ []) (format fuel print_error fmt args')
    | bad_args ↦ bad_args
  ]
]
