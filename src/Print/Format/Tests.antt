-- ===== src/Print/Format/Tests.antt =====
-- Some calls of vprintfmt and vsnprintf of mit-6.828/lab/lib/printfmt.c.
use papers_annotation.Prelude.{
  ℕ, ◌+◌, ◌-◌, ◌^◌, ◌<◌, ◌≡◌, ◌≢◌, ◌⊎◌, refl, arith, none, some, List, [], ◌∷◌, get_or, ◌%◌,
}
use papers_annotation.Prelude.Int.{pos}
use papers_annotation.Print.{printnum, print_digits}
use papers_annotation.Print.Format.{Arg, Printed, printed, out_of_fuel}
use papers_annotation.Print.Format.Messages.{codes, vprintfmt}
use papers_annotation.Print.Format.Ends.{vprintfmt-ne-out_of_fuel}
use papers_annotation.Print.Format.Pieces.{Pad, Conversion, Piece, render, args_of, shows}
use papers_annotation.Print.Format.Render.{vprintfmt-render}
use papers_annotation.Print.Format.Buffer.{vsnprintf, vsnprintf_lem}

negative : vprintfmt (codes "at %d") (Arg.word (2 ^ 32 - 7) ∷ []) ≡ printed (codes "at -7")
unfolding vprintfmt printnum print_digits
negative = refl

-- For a number the flag - pads with dashes, on the left; for a string it does what it says.
dashes :
    vprintfmt (codes "%-5d%-5s|") (Arg.word 42 ∷ Arg.chars (some (codes "abc")) ∷ [])
    ≡ printed (codes "---42abc  |")
unfolding vprintfmt printnum print_digits
dashes = refl

message :
    vprintfmt (codes "%e, %e") (Arg.word (2 ^ 32 - 3) ∷ Arg.word 77 ∷ [])
    ≡ printed (codes "invalid parameter, error 77")
unfolding vprintfmt printnum print_digits
message = refl

unknown_escape : vprintfmt (codes "10%q") [] ≡ printed (codes "10%q")
unfolding vprintfmt
unknown_escape = refl

-- The width that the unknown sequence took is not given to %d again.
star_taken : vprintfmt (codes "%*q%d") (Arg.word 5 ∷ Arg.word 7 ∷ []) ≡ printed (codes "%*q7")
unfolding vprintfmt printnum print_digits
star_taken = refl

missing : vprintfmt (codes "%d") [] ≡ Printed.bad_args
unfolding vprintfmt
missing = refl

precision : vprintfmt (codes "[%5.2s]") (Arg.chars none ∷ []) ≡ printed (codes "[   (n]")
unfolding vprintfmt
precision = refl

vprintfmt-ne-out_of_fuel_example : vprintfmt (codes "100%") [] ≢ out_of_fuel
vprintfmt-ne-out_of_fuel_example = vprintfmt-ne-out_of_fuel (codes "100%") []

-- `%08x is %-6s|`
abbrev line : List Piece
line =
    Piece.conv Pad.zeros (8 ∷ []) (Conversion.hex 0xBEEF)
    ∷ Piece.plain (codes " is ")
    ∷ Piece.conv Pad.dash (6 ∷ []) (Conversion.str (codes "beef"))
    ∷ Piece.plain (codes "|")
    ∷ []

rendered_line : render line ≡ codes "%08x is %-6s|"
rendered_line = refl

line_result : shows line ≡ codes "0000beef is beef  |"
unfolding printnum print_digits
line_result = refl

vprintfmt-render_example : vprintfmt (render line) (args_of line) ≡ printed (shows line)
vprintfmt-render_example = vprintfmt-render line (ground arith)

hello : vprintfmt (codes "hello") [] ≡ printed (codes "hello")
unfolding vprintfmt
hello = refl

-- Five characters into four bytes.
vsnprintf_example :
    (m' : ℕ → ℕ) × (vsnprintf (some 100) (pos 4) (codes "hello") [] (λ a. 9) ≡ some (pos 5, m'))
    × ((i : ℕ) → i < 3 → m' (100 + i) ≡ get_or (codes "hello") i 0 % 256)
    × (m' 103 ≡ 0)
    × ((a : ℕ) → (a < 100) ⊎ (103 < a) → m' a ≡ 9)
vsnprintf_example = vsnprintf_lem 100 3 (codes "hello") [] (λ a. 9) (codes "hello") hello
