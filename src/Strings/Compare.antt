-- ===== src/Strings/Compare.antt =====
-- strcmp and strlcpy of mit-6.828/lab/lib/string.c.
use papers_annotation.Prelude.{
  ℕ, zero, suc, ◌+◌, ◌≤◌, ◌<◌, ◌≡◌, ◌≢◌, ◌↔◌, refl, arith, List, [], ◌∷◌, not, ◌&&◌, ◌==◌, length,
  get_or, min, Bool-cases, inl, inr, ap, ◌∙◌, ◌⊎◌,
}
use papers_annotation.Prelude.Int.{pos, int_sub}
use papers_annotation.Kern.State.{update}
use papers_annotation.Kern.Pages.Lists.{All}
use papers_annotation.Strings.{strcmp, copy_chars, strlcpy}

-- The memory from p on holds the string q and a NUL.
abbrev pub Holds : (ℕ → ℕ) → List ℕ → Type 0
Holds p [] = p 0 ≡ 0
Holds p (c ∷ q) = (p 0 ≡ c) × Holds (λ i. p (suc i)) q

int_sub-zero : (m n : ℕ) → int_sub m n ≡ pos 0 → m ≡ n
int_sub-zero m n h = ground arith

-- strcmp returns 0 exactly if both strings are the same; a string has no NUL before its end.
pub strcmp-Holds : (p : ℕ → ℕ) (q : List ℕ) → All (λ c. c ≢ 0) q → (strcmp p q ≡ pos 0) ↔ Holds p q
unfolding strcmp
strcmp-Holds p [] h = (int_sub-zero (p 0) 0, (λ e. rw e refl))
strcmp-Holds p (c ∷ q) h =
    let ih = strcmp-Holds (λ i. p (suc i)) q h.1 in
    elim (Bool-cases (not (p 0 == 0) && p 0 == c)) [
      | inl e ↦ ((λ z. (ground arith, ih.0 (rw e at z))), (λ z. rw e (ih.1 z.1)))
      | inr f ↦ (
        (λ z. absurd (ground (arith, int_sub-zero (p 0) c (rw f at z), h.0))),
        (λ z. absurd (ground (arith, h.0, z.0))),
      )
    ]

copied_char :
    (size dst c : ℕ) (src : List ℕ) (m : ℕ → ℕ) (i : ℕ)
    → i < min (suc size) (suc (length src))
    → ((i : ℕ)
        → i < min size (length src)
        → (copy_chars size (dst + 1) src (update m dst c)).0 (dst + 1 + i) ≡ get_or src i 0)
    → ((a : ℕ)
        → (a < dst + 1) ⊎ (dst + 1 + min size (length src) ≤ a)
        → (copy_chars size (dst + 1) src (update m dst c)).0 a ≡ update m dst c a)
    → (copy_chars size (dst + 1) src (update m dst c)).0 (dst + i) ≡ get_or (c ∷ src) i 0
copied_char size dst c src m zero h kept outside =
    outside (dst + 0) (inl (omega arith)) ∙ ground arith
copied_char size dst c src m (suc i) h kept outside =
    ap (copy_chars size (dst + 1) src (update m dst c)).0 (omega arith) ∙ kept i (omega arith)

copy_chars_lem :
    (size dst : ℕ) (src : List ℕ) (m : ℕ → ℕ)
    → ((copy_chars size dst src m).1 ≡ dst + min size (length src))
      × ((i : ℕ)
          → i < min size (length src)
          → (copy_chars size dst src m).0 (dst + i) ≡ get_or src i 0)
      × ((a : ℕ)
          → (a < dst) ⊎ (dst + min size (length src) ≤ a)
          → (copy_chars size dst src m).0 a ≡ m a)
unfolding copy_chars
copy_chars_lem zero dst src m = (omega arith, (λ i h. absurd (omega arith)), (λ a h. refl))
copy_chars_lem (suc size) dst [] m = (omega arith, (λ i h. absurd (omega arith)), (λ a h. refl))
copy_chars_lem (suc size) dst (c ∷ src) m =
    let (end, kept, outside) = copy_chars_lem size (dst + 1) src (update m dst c) in
    (
      omega (arith, end),
      (λ i h. copied_char size dst c src m i h kept outside),
      (λ a h. outside a (ground arith) ∙ ground arith),
    )

-- strlcpy with room for size bytes, at least one: it copies as much of the string as leaves room for
-- a NUL, puts the NUL behind it, returns the number of bytes copied, and changes no byte outside
-- the first size ones of the destination. With no room it changes nothing and returns 0.
pub strlcpy_lem :
    (dst size : ℕ) (src : List ℕ) (m : ℕ → ℕ)
    → (strlcpy dst src 0 m ≡ (m, 0))
      × ((strlcpy dst src (suc size) m).1 ≡ min size (length src))
      × ((i : ℕ)
          → i < min size (length src)
          → (strlcpy dst src (suc size) m).0 (dst + i) ≡ get_or src i 0)
      × ((strlcpy dst src (suc size) m).0 (dst + min size (length src)) ≡ 0)
      × ((a : ℕ) → (a < dst) ⊎ (dst + suc size ≤ a) → (strlcpy dst src (suc size) m).0 a ≡ m a)
unfolding strlcpy
strlcpy_lem dst size src m =
    let (end, kept, outside) = copy_chars_lem size dst src m in
    (
      refl,
      omega (arith, end),
      (λ i h. ground (arith, end) ∙ kept i h),
      ground (arith, end),
      (λ a h. ground (arith, end) ∙ outside a (ground arith)),
    )
