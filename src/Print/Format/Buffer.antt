-- ===== src/Print/Format/Buffer.antt =====
-- vsnprintf of mit-6.828/lab/lib/printfmt.c: the characters go into a buffer of fixed size.
use papers_annotation.Prelude.{
  ℕ, zero, suc, ◌+◌, ◌-◌, ◌%◌, ◌≤◌, ◌<◌, ◌≡◌, refl, ap, ◌∙◌, arith, true, false, Option, none, some,
  List, [], ◌∷◌, ltb, ltb→lt, lt→ltb, ◌⊎◌, ◌==◌, if◌then◌else◌, length, get_or, min, Bool-cases,
  inl, inr,
}
use papers_annotation.Prelude.Int.{ℤ, pos, negsuc}
use papers_annotation.Mmu.{e_inval}
use papers_annotation.Kern.State.{update}
use papers_annotation.Print.Format.{Arg, Printed, printed, out_of_fuel, bad_args}
use papers_annotation.Print.Format.Messages.{vprintfmt}

pub record Sprintbuf : Type 0 where
  pub buf : ℕ
  pub ebuf : ℕ
  pub cnt : ℕ
  pub memory : ℕ → ℕ

abbrev pub sprintputch : ℕ → Sprintbuf → Sprintbuf
sprintputch ch b =
    if ltb b.buf b.ebuf
    then record b { buf = b.buf + 1; cnt = b.cnt + 1; memory = update b.memory b.buf (ch % 256) }
    else record b { cnt = b.cnt + 1 }

unfoldable pub put_chars : List ℕ → Sprintbuf → Sprintbuf
put_chars [] b = b
put_chars (ch ∷ out) b = put_chars out (sprintputch ch b)

abbrev pub terminate : Sprintbuf → ℤ × (ℕ → ℕ)
terminate b = (pos b.cnt, update b.memory b.buf 0)

-- `none` where vprintfmt has no defined result.
unfoldable pub print_into : ℕ → ℕ → (ℕ → ℕ) → Printed → Option (ℤ × (ℕ → ℕ))
unfolding put_chars
print_into buf n m (printed out) =
    some (terminate (put_chars out (record { buf = buf; ebuf = buf + n - 1; cnt = 0; memory = m })))
print_into buf n m bad_args = none
print_into buf n m out_of_fuel = none

-- The value returned, and the memory afterwards; the buffer is `none` for NULL.
unfoldable pub vsnprintf : Option ℕ → ℤ → List ℕ → List Arg → (ℕ → ℕ) → Option (ℤ × (ℕ → ℕ))
unfolding print_into
vsnprintf none n fmt args m = some (e_inval, m)
vsnprintf (some buf) (negsuc n) fmt args m = some (e_inval, m)
vsnprintf (some buf) (pos zero) fmt args m = some (e_inval, m)
vsnprintf (some buf) (pos (suc n)) fmt args m = print_into buf (suc n) m (vprintfmt fmt args)

put_chars-cnt : (out : List ℕ) (b : Sprintbuf) → (put_chars out b).cnt ≡ b.cnt + length out
unfolding put_chars
put_chars-cnt [] b = omega arith
put_chars-cnt (ch ∷ out) b = put_chars-cnt out (sprintputch ch b) ∙ ground arith

-- How many characters there is room for.
abbrev pub fitting : List ℕ → Sprintbuf → ℕ
fitting out b = min (length out) (b.ebuf - b.buf)

put_chars-buf :
    (out : List ℕ) (b : Sprintbuf) → b.buf ≤ b.ebuf → (put_chars out b).buf ≡ b.buf + fitting out b
unfolding put_chars
put_chars-buf [] b h = omega arith
put_chars-buf (ch ∷ out) b h = elim (Bool-cases (ltb b.buf b.ebuf)) [
  | inl more ↦
      let lt = ltb→lt b.buf b.ebuf more in
      rw (more, put_chars)
        (put_chars-buf out
            (record b {
              buf = b.buf + 1;
              cnt = b.cnt + 1;
              memory = update b.memory b.buf (ch % 256);
            })
            (omega arith)
          ∙ omega arith)
  | inr full ↦
      let ge : b.ebuf ≤ b.buf = ground (arith, full) in
      rw (full, put_chars) (put_chars-buf out (record b { cnt = b.cnt + 1 }) h ∙ omega arith)
]

-- Nothing is written below the buffer, nor from where the text or the room ends on.
put_chars-frame :
    (out : List ℕ) (b : Sprintbuf) (a : ℕ)
    → b.buf ≤ b.ebuf
    → (a < b.buf) ⊎ (b.buf + fitting out b ≤ a)
    → (put_chars out b).memory a ≡ b.memory a
unfolding put_chars
put_chars-frame [] b a o h = refl
put_chars-frame (ch ∷ out) b a o h = elim (Bool-cases (ltb b.buf b.ebuf)) [
  | inl more ↦
      let lt = ltb→lt b.buf b.ebuf more in
      let outside : (a < b.buf) ⊎ (b.buf + 1 + min (length out) (b.ebuf - (b.buf + 1)) ≤ a) =
        ground arith in
      let ne : (b.buf == a) ≡ false = ground arith in
      rw (more, put_chars)
        (put_chars-frame out
            (record b {
              buf = b.buf + 1;
              cnt = b.cnt + 1;
              memory = update b.memory b.buf (ch % 256);
            })
            a (omega arith) (weaken outside)
          ∙ rw ne refl)
  | inr full ↦
      let ge : b.ebuf ≤ b.buf = ground (arith, full) in
      rw (full, put_chars) (put_chars-frame out (record b { cnt = b.cnt + 1 }) a o (ground arith))
]
  where
    weaken : {x y : ℕ} → (a < x) ⊎ (y ≤ a) → (a < x + 1) ⊎ (y ≤ a)
    weaken (inl p) = inl (omega arith)
    weaken (inr p) = inr p

put_chars-at :
    (out : List ℕ) (b : Sprintbuf) (i : ℕ)
    → i < length out
    → b.buf + i < b.ebuf
    → (put_chars out b).memory (b.buf + i) ≡ get_or out i 0 % 256
unfolding put_chars
put_chars-at [] b i h g = absurd (omega arith)
put_chars-at (ch ∷ out) b zero h g =
    let more = lt→ltb b.buf b.ebuf (omega arith) in
    let place : b.buf + 0 ≡ b.buf = omega arith in
    let here : (b.buf == b.buf) ≡ true = ground arith in
    rw (more, place, put_chars)
      (put_chars-frame out
          (record b { buf = b.buf + 1; cnt = b.cnt + 1; memory = update b.memory b.buf (ch % 256) })
          b.buf (omega arith) (inl (omega arith))
        ∙ rw here refl)
put_chars-at (ch ∷ out) b (suc i) h g =
    let more = lt→ltb b.buf b.ebuf (omega arith) in
    let place : b.buf + suc i ≡ b.buf + 1 + i = omega arith in
    rw (more, place, put_chars)
      (put_chars-at out
        (record b { buf = b.buf + 1; cnt = b.cnt + 1; memory = update b.memory b.buf (ch % 256) }) i
        (omega arith) (omega arith))

-- A call with a buffer of n bytes, n not 0, returns the length of the whole text that vprintfmt prints. The
-- buffer gets the characters that fit, at most n - 1 of them, and a NUL behind them; no other byte of
-- memory changes.
pub vsnprintf_lem :
    (buf n : ℕ) (fmt : List ℕ) (args : List Arg) (m : ℕ → ℕ) (out : List ℕ)
    → vprintfmt fmt args ≡ printed out
    → (m' : ℕ → ℕ) × (vsnprintf (some buf) (pos (suc n)) fmt args m ≡ some (pos (length out), m'))
      × ((i : ℕ) → i < min (length out) n → m' (buf + i) ≡ get_or out i 0 % 256)
      × (m' (buf + min (length out) n) ≡ 0)
      × ((a : ℕ) → (a < buf) ⊎ (buf + min (length out) n < a) → m' a ≡ m a)
unfolding vsnprintf
vsnprintf_lem buf n fmt args m out e =
    let b : Sprintbuf = record { buf = buf; ebuf = buf + suc n - 1; cnt = 0; memory = m } in
    let end : (put_chars out b).buf ≡ buf + min (length out) n =
      put_chars-buf out b (omega arith) ∙ omega arith in
    let cnt : (put_chars out b).cnt ≡ length out = put_chars-cnt out b ∙ omega arith in
    let at_end : ((put_chars out b).buf == buf + min (length out) n) ≡ true = ground (arith, end) in
    (
      update (put_chars out b).memory (put_chars out b).buf 0,
      rw e (
          ap (λ (c : ℕ). some (pos c, update (put_chars out b).memory (put_chars out b).buf 0))
            cnt),
      λ i h.
          let apart : ((put_chars out b).buf == buf + i) ≡ false = ground (arith, end) in
          rw apart (put_chars-at out b i (omega arith) (omega arith)),
      rw at_end refl,
      λ a h.
          let apart : ((put_chars out b).buf == a) ≡ false = ground (arith, end) in
          rw apart (put_chars-frame out b a (omega arith) (outside a h)),
    )
  where
    outside :
        (a : ℕ)
        → (a < buf) ⊎ (buf + min (length out) n < a)
        → (a < buf) ⊎ (buf + min (length out) (buf + suc n - 1 - buf) ≤ a)
    outside a (inl h) = inl h
    outside a (inr h) = inr (omega arith)
