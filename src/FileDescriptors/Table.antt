-- ===== src/FileDescriptors/Table.antt =====
-- The table of descriptors in mit-6.828/lab/lib/fd.c: fd_alloc, fd_lookup and the addresses.
use mathlib.Core.Path.{subst}
use papers_annotation.Prelude.{
  ℕ, zero, suc, ◌+◌, ◌≤◌, ◌<◌, ◌≡◌, ◌≢◌, ◌⊎◌, refl, arith, none, some, false, leb, ◌==◌, inl, inr,
  ℕ_discrete, Option-cases,
}
use papers_annotation.Prelude.Int.{pos}
use papers_annotation.FileDescriptors.{
  maxfd, e_max_open, index2fd, index2data, fd2num, Process, found, first_free, fd_alloc, fd_lookup,
}

abbrev pub IsOpen : Process → ℕ → Type 0
IsOpen p i = (page : ℕ) × (p.space (index2fd i) ≡ some page)

used_from :
    (p : Process) (i b : ℕ)
    → IsOpen p i
    → ((m : ℕ) → i + 1 ≤ m → m < b → IsOpen p m)
    → (m : ℕ) → i ≤ m
    → m < b
    → IsOpen p m
used_from p i b here rest m low high = elim (ℕ_discrete i m) [
  | yes e ↦ subst (IsOpen p) e here
  | no ne ↦ rest m (omega arith) high
]

abbrev FirstFree : ℕ → ℕ → Process → Type 0
FirstFree rounds i p =
    ((j : ℕ) × (i ≤ j)
      × (j < i + rounds)
      × (p.space (index2fd j) ≡ none)
      × ((m : ℕ) → i ≤ m → m < j → IsOpen p m)
      × (first_free rounds i p ≡ (pos 0, index2fd j)))
    ⊎ (((m : ℕ) → i ≤ m → m < i + rounds → IsOpen p m) × (first_free rounds i p ≡ (e_max_open, 0)))

FirstFree-total : (rounds i : ℕ) (p : Process) → FirstFree rounds i p
FirstFree-total zero i p = inr (λ m a b. absurd (omega arith), refl)
FirstFree-total (suc rounds) i p = elim (Option-cases (p.space (index2fd i))) [
  | inl e ↦
      inl (i, omega arith, omega arith, e, λ m a b. absurd (omega arith), rw (e, first_free) refl)
  | inr (page, e) ↦ elim (FirstFree-total rounds (i + 1) p) [
    | inl (j, a, b, free, used, r) ↦
        inl
          (j, omega arith, omega arith, free, used_from p i j (page, e) used, rw (e, first_free) r)
    | inr (used, r) ↦ inr (
      used_from p i (i + suc rounds) (page, e) (λ m a b. used m a (omega arith)),
      rw (e, first_free) r,
    )
  ]
]

-- fd_alloc yields the address of the lowest descriptor of the 32 that is not open, with result 0; if
-- all are open, the result is -E_MAX_OPEN and the address NULL.
pub fd_alloc_lem :
    (p : Process)
    → ((j : ℕ) × (j < maxfd)
        × (p.space (index2fd j) ≡ none)
        × ((m : ℕ) → m < j → IsOpen p m)
        × (fd_alloc p ≡ (pos 0, index2fd j)))
      ⊎ (((m : ℕ) → m < maxfd → IsOpen p m) × (fd_alloc p ≡ (e_max_open, 0)))
unfolding fd_alloc
fd_alloc_lem p = elim (FirstFree-total maxfd 0 p) [
  | inl (j, a, b, free, used, r) ↦ inl (j, b, free, λ m h. used m (omega arith) h, r)
  | inr (used, r) ↦ inr (λ m h. used m (omega arith) h, r)
]

-- No two of the 32 descriptors and their data pages have the same address.
pub fd2num-index2fd : (i : ℕ) → i < maxfd → fd2num (index2fd i) ≡ i
fd2num-index2fd i h = omega arith

pub index2fd-apart : (i j : ℕ) → i < maxfd → j < maxfd → i ≢ j → (index2fd i == index2fd j) ≡ false
index2fd-apart i j a b ne = ground (arith, ne)

pub index2data-apart : (i j : ℕ) → i < maxfd → j < maxfd → (index2data i == index2fd j) ≡ false
index2data-apart i j a b = ground arith

pub fd_lookup-found :
    (i page : ℕ) (p : Process)
    → i < maxfd
    → p.space (index2fd i) ≡ some page
    → fd_lookup i p ≡ found (index2fd i) page
unfolding fd_lookup
fd_lookup-found i page p h e = let low : leb maxfd i ≡ false = ground arith in rw (low, e) refl
