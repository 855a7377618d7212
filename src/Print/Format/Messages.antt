-- ===== src/Print/Format/Messages.antt =====
-- vprintfmt of mit-6.828/lab/lib/printfmt.c with the messages of error_string.
use Prim.Native.Char.{code}
use Prim.Native.String.{String}
use papers_annotation.Prelude.{
  ℕ, ◌+◌, Option, none, some, List, [], ◌∷◌, ◌==◌, if◌then◌else◌, length,
}
use papers_annotation.Prelude.Int.{ℤ, pos, negsuc}
use papers_annotation.Print.Format.{Arg, Printed, printed, format}

-- The bytes of an ASCII text.
abbrev pub codes : String → List ℕ
codes String.[] = []
codes (String.◌∷◌ c s) = code c ∷ codes s

unfoldable pub error_string : ℕ → Option (List ℕ)
error_string err =
    if err == 1
    then some (codes "unspecified error")
    else if err == 2
    then some (codes "bad environment")
    else if err == 3
    then some (codes "invalid parameter")
    else if err == 4
    then some (codes "out of memory")
    else if err == 5
    then some (codes "out of environments")
    else if err == 6
    then some (codes "segmentation fault")
    else if err == 7
    then some (codes "env is not recving")
    else if err == 8
    then some (codes "unexpected end of file")
    else if err == 9
    then some (codes "no free space on disk")
    else if err == 10
    then some (codes "too many files are open")
    else if err == 11
    then some (codes "file or block not found")
    else if err == 12
    then some (codes "invalid path")
    else if err == 13
    then some (codes "file already exists")
    else if err == 14
    then some (codes "file is not a valid executable")
    else if err == 15
    then some (codes "operation not supported")
    else if err == 16
    then some (codes "transmit queue full")
    else if err == 17
    then some (codes "packet too large")
    else if err == 18
    then some (codes "no packet to receive")
    else none

abbrev pub output : Printed → List ℕ
output (printed out) = out
output _ = []

-- The inner calls of printfmt: their formats have no %e.
abbrev pub message : ℕ → Option (List ℕ) → List ℕ
message err none =
    output (format (length (codes "error %d") + 1) (λ e. []) (codes "error %d") (Arg.word err ∷ []))
message err (some p) =
    output (format (length (codes "%s") + 1) (λ e. []) (codes "%s") (Arg.chars (some p) ∷ []))

unfoldable pub print_error : ℤ → List ℕ
unfolding error_string format
print_error (pos err) = message err (error_string err)
print_error (negsuc n) = message (n + 1) (error_string (n + 1))

-- One round of the outer loop per character is enough.
unfoldable pub vprintfmt : List ℕ → List Arg → Printed
unfolding format print_error
vprintfmt fmt args = format (length fmt + 1) print_error fmt args
