-- ===== src/Console.antt =====
-- The console input buffer of mit-6.828/lab/kern/console.c: cons_intr and cons_getc. What a device has to
-- deliver is the list of the characters before its -1.
pub mod Queue
mod Tests
use papers_annotation.Prelude.{ℕ, ◌+◌, ◌%◌, List, [], ◌∷◌, Bool, ◌==◌, if◌then◌else◌, update}

pub record Cons : Type 0 where
  pub buf : ℕ → ℕ
  pub rpos : ℕ
  pub wpos : ℕ

-- A position moved by one, round the CONSBUFSIZE bytes.
abbrev pub advance : ℕ → ℕ
advance p = if p + 1 == 512 then 0 else p + 1

abbrev pub store_char : ℕ → Cons → Cons
store_char c s = record s { buf = update s.buf s.wpos (c % 256); wpos = advance s.wpos }

unfoldable pub cons_intr : List ℕ → Cons → Cons
cons_intr [] s = s
cons_intr (c ∷ cs) s =
    let skipped = cons_intr cs s in
    let stored = cons_intr cs (store_char c s) in if c == 0 then skipped else stored

-- The next character from the buffer, or 0.
abbrev pub take_char : Cons → ℕ × Cons
take_char s =
    if s.rpos == s.wpos then (0, s) else (s.buf s.rpos, record s { rpos = advance s.rpos })

-- Both devices are polled first.
unfoldable pub cons_getc : List ℕ → List ℕ → Cons → ℕ × Cons
unfolding cons_intr
cons_getc serial kbd s = take_char (cons_intr kbd (cons_intr serial s))
