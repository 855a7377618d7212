-- ===== src/Print/Format/Pieces.antt =====
-- Formats for vprintfmt of mit-6.828/lab/lib/printfmt.c that are made of texts and conversions, and what they
-- mean.
use papers_annotation.Prelude.{
  ℕ, ◌+◌, ◌-◌, ◌*◌, ◌^◌, ◌<◌, ◌≢◌, some, List, [], ◌∷◌, ◌++◌, length, map, replicate,
}
use papers_annotation.Prelude.Int.{ℤ, pos, negsuc}
use papers_annotation.Print.{printnum}
use papers_annotation.Print.Format.{Arg, int_of}

pub data Pad : Type 0 where
  spaces dash zeros : Pad

pub data Conversion : Type 0 where
  dec uns oct hex chr : ℕ → Conversion
  str : List ℕ → Conversion
  percent : Conversion

-- A text without %, or a conversion with its flag and the digits of its width.
pub data Piece : Type 0 where
  plain : List ℕ → Piece
  conv : Pad → List ℕ → Conversion → Piece

abbrev pub pad_flag : Pad → List ℕ
pad_flag spaces = []
pad_flag dash = b'-' ∷ []
pad_flag zeros = b'0' ∷ []

abbrev pub letter : Conversion → ℕ
letter (dec n) = b'd'
letter (uns n) = b'u'
letter (oct n) = b'o'
letter (hex n) = b'x'
letter (chr n) = b'c'
letter (str s) = b's'
letter percent = b'%'

abbrev pub arguments : Conversion → List Arg
arguments (dec n) = Arg.word n ∷ []
arguments (uns n) = Arg.word n ∷ []
arguments (oct n) = Arg.word n ∷ []
arguments (hex n) = Arg.word n ∷ []
arguments (chr n) = Arg.word n ∷ []
arguments (str s) = Arg.chars (some s) ∷ []
arguments percent = []

-- The format and the arguments for some pieces.
abbrev pub render : List Piece → List ℕ
render [] = []
render (plain t ∷ ps) = t ++ render ps
render (conv p ds c ∷ ps) =
    b'%' ∷ (pad_flag p ++ (map (λ d. d + b'0') ds ++ (letter c ∷ render ps)))

abbrev pub args_of : List Piece → List Arg
args_of [] = []
args_of (plain t ∷ ps) = args_of ps
args_of (conv p ds c ∷ ps) = arguments c ++ args_of ps

abbrev pub value : ℕ → List ℕ → ℕ
value n [] = n
value n (d ∷ ds) = value (n * 10 + d) ds

abbrev pub pad_char : Pad → ℕ
pad_char spaces = 0x20
pad_char dash = 0x2D
pad_char zeros = 0x30

abbrev pub in_decimal : ℕ → ℕ → ℤ → List ℕ
in_decimal w padc (pos n) = printnum n 10 w padc
in_decimal w padc (negsuc n) = 0x2D ∷ printnum (n + 1) 10 w padc

-- A string stands on the right of its field, or on the left with the flag -.
abbrev pub in_field : ℕ → Pad → List ℕ → List ℕ
in_field w spaces s = replicate (w - length s) 0x20 ++ s
in_field w dash s = s ++ replicate (w - length s) 0x20
in_field w zeros s = replicate (w - length s) 0x30 ++ s

abbrev pub meaning : ℕ → Pad → Conversion → List ℕ
meaning w p (dec n) = in_decimal w (pad_char p) (int_of n)
meaning w p (uns n) = printnum n 10 w (pad_char p)
meaning w p (oct n) = printnum n 8 w (pad_char p)
meaning w p (hex n) = printnum n 16 w (pad_char p)
meaning w p (chr n) = n ∷ []
meaning w p (str s) = in_field w p s
meaning w p percent = b'%' ∷ []

abbrev pub shows : List Piece → List ℕ
shows [] = []
shows (plain t ∷ ps) = t ++ shows ps
shows (conv p ds c ∷ ps) = meaning (value 0 ds) p c ++ shows ps

-- What a piece may hold: no % in a text, a width whose first digit is not 0, and arguments of 32 bits.
abbrev pub NoPercent : List ℕ → Type 0
NoPercent [] = Unit {0}
NoPercent (c ∷ t) = (c ≢ b'%') × NoPercent t

abbrev pub AreDigits : List ℕ → Type 0
AreDigits [] = Unit {0}
AreDigits (d ∷ ds) = (d < 10) × AreDigits ds

abbrev pub IsWidth : List ℕ → Type 0
IsWidth [] = Unit {0}
IsWidth (d ∷ ds) = (0 < d) × (d < 10) × AreDigits ds

abbrev pub IsArgument : Conversion → Type 0
IsArgument (dec n) = n < 2 ^ 32
IsArgument (str s) = length s < 2 ^ 32 - 1
IsArgument _ = Unit {0}

abbrev pub AreValid : List Piece → Type 0
AreValid [] = Unit {0}
AreValid (plain t ∷ ps) = NoPercent t × AreValid ps
AreValid (conv p ds c ∷ ps) = IsWidth ds × IsArgument c × AreValid ps
