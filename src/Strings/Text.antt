-- ===== src/Strings/Text.antt =====
-- The routines of mit-6.828/lab/lib/string.c on whole strings: strlen, strcpy, strcat, strncpy, strncmp,
-- strchr and strfind, and memcpy.
use papers_annotation.Prelude.{
  ℕ, zero, suc, ◌+◌, ◌≤◌, ◌<◌, ◌≡◌, ◌⊎◌, refl, arith, Option, none, some, List, [], ◌∷◌, not, ◌&&◌,
  ◌==◌, length, get_or, Bool-cases, inl, inr, ap, sym, ◌∙◌, if◌then◌else◌, update,
}
use papers_annotation.Prelude.Int.{ℤ, pos, int_sub}
use papers_annotation.Strings.{strcmp, memmove}

unfoldable pub strlen : List ℕ → ℕ
strlen [] = 0
strlen (c ∷ s) = suc (strlen s)

unfoldable pub strcpy : ℕ → List ℕ → (ℕ → ℕ) → ℕ → ℕ
strcpy dst [] m = update m dst 0
strcpy dst (c ∷ src) m = strcpy (dst + 1) src (update m dst c)

-- `s` is the string at dst.
unfoldable pub strcat : ℕ → List ℕ → List ℕ → (ℕ → ℕ) → ℕ → ℕ
unfolding strlen strcpy
strcat dst s src m = strcpy (dst + strlen s) src m

unfoldable pub strncpy : ℕ → ℕ → List ℕ → (ℕ → ℕ) → ℕ → ℕ
strncpy zero dst src m = m
strncpy (suc size) dst [] m = strncpy size (dst + 1) [] (update m dst 0)
strncpy (suc size) dst (c ∷ src) m = strncpy size (dst + 1) src (update m dst c)

unfoldable pub strncmp : ℕ → (ℕ → ℕ) → List ℕ → ℤ
strncmp zero p q = pos 0
strncmp (suc n) p [] = int_sub (p 0) 0
strncmp (suc n) p (c ∷ q) =
    let rest = strncmp n (λ i. p (suc i)) q in
    if not (p 0 == 0) && p 0 == c then rest else int_sub (p 0) c

abbrev pub one_on : Option ℕ → Option ℕ
one_on none = none
one_on (some i) = some (suc i)

-- Offsets from the start of the string.
unfoldable pub strchr : List ℕ → ℕ → Option ℕ
strchr [] c = none
strchr (x ∷ s) c = let rest = strchr s c in if x == c then some 0 else one_on rest

unfoldable pub strfind : List ℕ → ℕ → ℕ
strfind [] c = 0
strfind (x ∷ s) c = let rest = strfind s c in if x == c then 0 else suc rest

unfoldable pub memcpy : ℕ → ℕ → ℕ → (ℕ → ℕ) → ℕ → ℕ
unfolding memmove
memcpy dst src n m = memmove dst src n m

pub strlen-length : (s : List ℕ) → strlen s ≡ length s
unfolding strlen
strlen-length [] = refl
strlen-length (c ∷ s) = ap suc (strlen-length s)

padded : {x : ℕ} (i : ℕ) → x ≡ get_or (0 ∷ []) i 0 → x ≡ 0
padded zero e = e
padded (suc i) e = e

stepped :
    (size dst c : ℕ) (src : List ℕ) (m after : ℕ → ℕ) (i : ℕ)
    → i < suc size
    → ((i : ℕ) → i < size → after (dst + 1 + i) ≡ get_or src i 0)
    → ((a : ℕ) → (a < dst + 1) ⊎ (dst + 1 + size ≤ a) → after a ≡ update m dst c a)
    → after (dst + i) ≡ get_or (c ∷ src) i 0
stepped size dst c src m after zero h kept outside =
    outside (dst + 0) (inl (omega arith)) ∙ ground arith
stepped size dst c src m after (suc i) h kept outside =
    ap after (omega arith) ∙ kept i (omega arith)

-- strncpy writes the string and then NULs, exactly `size` bytes.
pub strncpy_lem :
    (size dst : ℕ) (src : List ℕ) (m : ℕ → ℕ)
    → ((i : ℕ) → i < size → strncpy size dst src m (dst + i) ≡ get_or src i 0)
      × ((a : ℕ) → (a < dst) ⊎ (dst + size ≤ a) → strncpy size dst src m a ≡ m a)
unfolding strncpy
strncpy_lem zero dst src m = ((λ i h. absurd (omega arith)), (λ a h. refl))
strncpy_lem (suc size) dst [] m =
    let (kept, outside) = strncpy_lem size (dst + 1) [] (update m dst 0) in
    (
      (λ i h.
          padded i (
            stepped size dst 0 [] m (strncpy size (dst + 1) [] (update m dst 0)) i h kept outside)),
      (λ a h. outside a (ground arith) ∙ ground arith),
    )
strncpy_lem (suc size) dst (c ∷ src) m =
    let (kept, outside) = strncpy_lem size (dst + 1) src (update m dst c) in
    (
      (λ i h.
          stepped size dst c src m (strncpy size (dst + 1) src (update m dst c)) i h kept outside),
      (λ a h. outside a (ground arith) ∙ ground arith),
    )

-- A limit beyond the end of the string makes no difference.
pub strncmp-strcmp : (n : ℕ) (p : ℕ → ℕ) (q : List ℕ) → length q < n → strncmp n p q ≡ strcmp p q
unfolding strncmp strcmp
strncmp-strcmp zero p q h = absurd (omega arith)
strncmp-strcmp (suc n) p [] h = refl
strncmp-strcmp (suc n) p (c ∷ q) h =
    ap (λ (r : ℤ). if not (p 0 == 0) && p 0 == c then r else int_sub (p 0) c)
      (strncmp-strcmp n (λ i. p (suc i)) q (omega arith))

-- strfind stops where strchr finds the character, or at the NUL.
abbrev pub or_end : Option ℕ → ℕ → ℕ
or_end none n = n
or_end (some i) n = i

or_end-one_on : (o : Option ℕ) (n : ℕ) → or_end (one_on o) (suc n) ≡ suc (or_end o n)
or_end-one_on none n = refl
or_end-one_on (some i) n = refl

pub strfind-strchr : (s : List ℕ) (c : ℕ) → strfind s c ≡ or_end (strchr s c) (strlen s)
unfolding strfind strchr strlen
strfind-strchr [] c = refl
strfind-strchr (x ∷ s) c = elim (Bool-cases (x == c)) [
  | inl e ↦ rw e refl
  | inr e ↦ rw e (ap suc (strfind-strchr s c) ∙ sym (or_end-one_on (strchr s c) (strlen s)))
]

-- strcpy is strncpy with room for the string and its NUL.
pub strcpy-strncpy :
    (src : List ℕ) (dst : ℕ) (m : ℕ → ℕ) → strcpy dst src m ≡ strncpy (suc (length src)) dst src m
unfolding strcpy strncpy
strcpy-strncpy [] dst m = refl
strcpy-strncpy (c ∷ src) dst m = strcpy-strncpy src (dst + 1) (update m dst c)

-- strcat puts the second string, with its NUL, where the first had its NUL, and changes nothing else.
pub strcat_lem :
    (dst : ℕ) (s src : List ℕ) (m : ℕ → ℕ)
    → ((i : ℕ) → i ≤ length src → strcat dst s src m (dst + length s + i) ≡ get_or src i 0)
      × ((a : ℕ)
          → (a < dst + length s) ⊎ (dst + length s + length src < a)
          → strcat dst s src m a ≡ m a)
unfolding strcat
strcat_lem dst s src m =
    let at = dst + length s in
    let same : strcat dst s src m ≡ strncpy (suc (length src)) at src m =
      ap (λ (n : ℕ). strcpy (dst + n) src m) (strlen-length s) ∙ strcpy-strncpy src at m in
    let (kept, outside) = strncpy_lem (suc (length src)) at src m in
    (
      (λ i h. ap (λ f. f (at + i)) same ∙ kept i (omega arith)),
      (λ a h. ap (λ f. f a) same ∙ outside a (ground arith)),
    )
