-- ===== src/Spinlock/Owner.antt =====
-- Who owns the lock of mit-6.828/lab/kern/spinlock.c.
use mathlib.Core.Path.{subst}
use papers_annotation.Prelude.{
  ℕ, ◌≡◌, ◌≢◌, refl, arith, Bool, true, false, Option, none, some, ◌==◌, Bool-cases, inl, inr, sym,
  ◌∙◌, ℕ_discrete, Option-cases,
}
use papers_annotation.Kern.State.{update}
use papers_annotation.Spinlock.{
  Lock, Pc, idle, lock_test, lock_test_cpu, lock_panic, spin, mark_cpu, mark_pcs, unlock_test,
  unlock_test_cpu, unlock_panic, clear_pcs, clear_cpu, clear_locked, is_cpu,
}

-- From the exchange that takes the lock to the one that releases it.
abbrev pub holds : Pc → Bool
holds (idle h) = h
holds (lock_test h) = h
holds (lock_test_cpu h) = h
holds (lock_panic h) = h
holds (spin h) = h
holds mark_cpu = true
holds mark_pcs = true
holds (unlock_test h) = h
holds (unlock_test_cpu h) = h
holds (unlock_panic h) = h
holds (clear_pcs h) = h
holds (clear_cpu h) = h
holds (clear_locked h) = h

-- Between the two stores to `cpu`.
abbrev pub marked : Pc → Bool
marked mark_cpu = false
marked (clear_locked h) = false
marked mark_pcs = true
marked (idle h) = h
marked (lock_test h) = h
marked (lock_test_cpu h) = h
marked (lock_panic h) = h
marked (spin h) = h
marked (unlock_test h) = h
marked (unlock_test_cpu h) = h
marked (unlock_panic h) = h
marked (clear_pcs h) = h
marked (clear_cpu h) = h

-- Only a CPU without the lock spins or is stopped in spin_unlock; only one with the lock releases it or is
-- stopped in spin_lock.
abbrev pub IsSound : Pc → Type 0
IsSound (spin h) = h ≡ false
IsSound (lock_panic h) = h ≡ true
IsSound (unlock_panic h) = h ≡ false
IsSound (clear_pcs h) = h ≡ true
IsSound (clear_cpu h) = h ≡ true
IsSound (clear_locked h) = h ≡ true
IsSound _ = Unit {0}

abbrev pub word_of : Option ℕ → ℕ
word_of none = 0
word_of (some c) = 1

pub record Inv (lk : Lock) (pc : ℕ → Pc) : Type 0 where
  pub owner : Option ℕ
  pub owned : (i : ℕ) → holds (pc i) ≡ is_cpu owner i
  pub word : lk.locked ≡ word_of owner
  pub marks : (i : ℕ) → marked (pc i) ≡ is_cpu lk.cpu i
  pub sound : (i : ℕ) → IsSound (pc i)

-- What holds of the new place of one CPU, and of the others, holds of all.
update_all :
    (Q : ℕ → Pc → Type 0) (pc : ℕ → Pc) (me : ℕ) (p' : Pc)
    → Q me p'
    → ((i : ℕ) → me ≢ i → Q i (pc i))
    → (i : ℕ) → Q i (update pc me p' i)
update_all Q pc me p' here others i = elim (ℕ_discrete me i) [
  | yes e ↦ let same : (me == i) ≡ true = ground (arith, e) in rw same (subst (λ j. Q j p') e here)
  | no ne ↦ let other : (me == i) ≡ false = ground (arith, ne) in rw other (others i ne)
]

marked-holds : (p : Pc) → marked p ≡ true → holds p ≡ true
marked-holds (clear_locked h) e = cc
marked-holds mark_cpu e = cc
marked-holds mark_pcs e = refl
marked-holds (idle h) e = e
marked-holds (lock_test h) e = e
marked-holds (lock_test_cpu h) e = e
marked-holds (lock_panic h) e = e
marked-holds (spin h) e = e
marked-holds (unlock_test h) e = e
marked-holds (unlock_test_cpu h) e = e
marked-holds (unlock_panic h) e = e
marked-holds (clear_pcs h) e = e
marked-holds (clear_cpu h) e = e

module _ (lk : Lock) (pc : ℕ → Pc) (me : ℕ) (inv : Inv lk pc) where
  -- A step that changes neither the owner nor the mark.
  pub quiet :
      (p' : Pc) (pcs' : ℕ → ℕ)
      → holds p' ≡ holds (pc me)
      → marked p' ≡ marked (pc me)
      → IsSound p'
      → Inv (record lk { pcs = pcs' }) (update pc me p')
  quiet p' pcs' h m s = record {
    owner = inv.owner;
    owned =
        update_all (λ i p. holds p ≡ is_cpu inv.owner i) pc me p' (h ∙ inv.owned me)
          (λ i _. inv.owned i);
    word = inv.word;
    marks =
        update_all (λ i p. marked p ≡ is_cpu lk.cpu i) pc me p' (m ∙ inv.marks me)
          (λ i _. inv.marks i);
    sound = update_all (λ i p. IsSound p) pc me p' s (λ i _. inv.sound i);
  }

  pub no_owner : lk.locked ≡ 0 → inv.owner ≡ none
  no_owner free = elim (Option-cases inv.owner) [
    | inl e ↦ e
    | inr (c, e) ↦ absurd (ground (arith, inv.word, e))
  ]

  -- While one CPU holds the lock, no other does, and no other has the mark.
  others_free : holds (pc me) ≡ true → (i : ℕ) → me ≢ i → holds (pc i) ≡ false
  others_free mine i ne = elim (Option-cases inv.owner) [
    | inl e ↦ absurd (ground (arith, inv.owned me, e))
    | inr (c, e) ↦ ground (arith, inv.owned me, inv.owned i, e)
  ]

  others_unmarked : holds (pc me) ≡ true → (i : ℕ) → me ≢ i → marked (pc i) ≡ false
  others_unmarked mine i ne = elim (Bool-cases (marked (pc i))) [
    | inl e ↦ absurd (ground (arith, marked-holds (pc i) e, others_free mine i ne))
    | inr e ↦ e
  ]

  -- The exchange finds 0.
  pub taken :
      lk.locked ≡ 0 → pc me ≡ spin false → Inv (record lk { locked = 1 }) (update pc me mark_cpu)
  taken free at = record {
    owner = some me;
    owned =
        update_all (λ i p. holds p ≡ is_cpu (some me) i) pc me mark_cpu (ground arith)
          (λ i ne. ground (arith, inv.owned i, no_owner free));
    word = refl;
    marks =
        update_all (λ i p. marked p ≡ is_cpu lk.cpu i) pc me mark_cpu
          (ground (arith, inv.marks me, at)) (λ i _. inv.marks i);
    sound = update_all (λ i p. IsSound p) pc me mark_cpu tt (λ i _. inv.sound i);
  }

  -- A store to `cpu`, which moves the mark.
  pub marks_moved :
      (cpu' : Option ℕ) (p' : Pc)
      → holds (pc me) ≡ true
      → holds p' ≡ true
      → marked p' ≡ is_cpu cpu' me
      → ((i : ℕ) → me ≢ i → is_cpu cpu' i ≡ false)
      → IsSound p'
      → Inv (record lk { cpu = cpu' }) (update pc me p')
  marks_moved cpu' p' mine h m rest s = record {
    owner = inv.owner;
    owned =
        update_all (λ i p. holds p ≡ is_cpu inv.owner i) pc me p' (ground (arith, inv.owned me))
          (λ i _. inv.owned i);
    word = inv.word;
    marks =
        update_all (λ i p. marked p ≡ is_cpu cpu' i) pc me p' m
          (λ i ne. others_unmarked mine i ne ∙ sym (rest i ne));
    sound = update_all (λ i p. IsSound p) pc me p' s (λ i _. inv.sound i);
  }

  pub released :
      pc me ≡ clear_locked true → Inv (record lk { locked = 0 }) (update pc me (idle false))
  released at = record {
    owner = none;
    owned =
        update_all (λ i p. holds p ≡ false) pc me (idle false) refl
          (λ i ne. others_free (ground (arith, at)) i ne);
    word = refl;
    marks =
        update_all (λ i p. marked p ≡ is_cpu lk.cpu i) pc me (idle false)
          (ground (arith, inv.marks me, at)) (λ i _. inv.marks i);
    sound = update_all (λ i p. IsSound p) pc me (idle false) tt (λ i _. inv.sound i);
  }
