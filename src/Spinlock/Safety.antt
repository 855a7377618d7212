-- ===== src/Spinlock/Safety.antt =====
-- Mutual exclusion by the lock of mit-6.828/lab/kern/spinlock.c, and what its checks find.
use mathlib.Core.Path.{subst}
use papers_annotation.Prelude.{
  ℕ, ◌≡◌, refl, arith, true, false, none, some, ◌==◌, Bool-cases, inl, inr, ap, ◌∙◌, Option-cases,
}
use papers_annotation.Kern.State.{update}
use papers_annotation.Spinlock.{
  Lock, Caller, Pc, idle, lock_test, lock_test_cpu, lock_panic, spin, mark_cpu, mark_pcs,
  unlock_test, unlock_test_cpu, unlock_panic, clear_pcs, clear_cpu, clear_locked, is_cpu, access,
  get_caller_pcs, System, Step, call_lock, call_unlock, run, Reach, start, later,
}
use papers_annotation.Spinlock.Owner.{
  holds, marked, IsSound, Inv, quiet, no_owner, taken, marks_moved, released,
}

module _ (lk : Lock) (pc : ℕ → Pc) (me : ℕ) (c : Caller) (inv : Inv lk pc) where
  -- What the CPU's place says of the lock.
  here : (p : Pc) → pc me ≡ p → IsSound p
  here p e = rw (← e) (inv.sound me)

  mark_here : (p : Pc) → pc me ≡ p → marked p ≡ is_cpu lk.cpu me
  mark_here p e = rw (← e) (inv.marks me)

  free_here : (p : Pc) → pc me ≡ p → lk.locked ≡ 0 → holds p ≡ false
  free_here p e free = ground (arith, inv.owned me, no_owner lk pc me inv free, e)

  stay :
      (p p' : Pc)
      → pc me ≡ p
      → holds p' ≡ holds p
      → marked p' ≡ marked p
      → IsSound p'
      → Inv lk (update pc me p')
  stay p p' e h m s = quiet lk pc me inv p' lk.pcs (rw e h) (rw e m) s

  -- The exchange finds 1, and writes it back.
  lost : (lk.locked == 0) ≡ false → lk.locked ≡ 1
  lost z = elim (Option-cases inv.owner) [
    | inl e ↦ absurd (ground (arith, inv.word, e))
    | inr (c', e) ↦ ground (arith, inv.word, e)
  ]

  access-Inv : (p : Pc) → pc me ≡ p → Inv (access me c lk p).0 (update pc me (access me c lk p).1)
  unfolding access
  access-Inv (idle h) e = stay (idle h) (idle h) e refl refl tt
  access-Inv (lock_test h) e = elim (Bool-cases (lk.locked == 0)) [
    | inl z ↦
        rw z
          (stay (lock_test h) (spin h) e refl refl (free_here (lock_test h) e (ground (arith, z))))
    | inr z ↦ rw z (stay (lock_test h) (lock_test_cpu h) e refl refl tt)
  ]
  access-Inv (lock_test_cpu h) e = elim (Bool-cases (is_cpu lk.cpu me)) [
    | inl z ↦
        rw z (stay (lock_test_cpu h) (lock_panic h) e refl refl (mark_here (lock_test_cpu h) e ∙ z))
    | inr z ↦ rw z (stay (lock_test_cpu h) (spin h) e refl refl (mark_here (lock_test_cpu h) e ∙ z))
  ]
  access-Inv (lock_panic h) e =
      stay (lock_panic h) (lock_panic h) e refl refl (here (lock_panic h) e)
  access-Inv (spin h) e = elim (Bool-cases (lk.locked == 0)) [
    | inl z ↦ rw z (taken lk pc me inv (ground (arith, z)) (ground (arith, e, here (spin h) e)))
    | inr z ↦ rw z (
        (subst (λ (w : ℕ). Inv (record lk { locked = w }) (update pc me (spin h))) (lost z)
          (stay (spin h) (spin h) e refl refl (here (spin h) e))))
  ]
  access-Inv mark_cpu e =
      marks_moved lk pc me inv (some me) mark_pcs (ground (arith, e)) refl (ground arith)
        (λ i ne. ground arith) tt
  access-Inv mark_pcs e =
      quiet lk pc me inv (idle true) (get_caller_pcs c lk.pcs) (rw e refl) (rw e refl) tt
  access-Inv (unlock_test h) e = elim (Bool-cases (lk.locked == 0)) [
    | inl z ↦ rw z (
        stay (unlock_test h) (unlock_panic h) e refl refl
          (free_here (unlock_test h) e (ground (arith, z))))
    | inr z ↦ rw z (stay (unlock_test h) (unlock_test_cpu h) e refl refl tt)
  ]
  access-Inv (unlock_test_cpu h) e = elim (Bool-cases (is_cpu lk.cpu me)) [
    | inl z ↦
        rw z
          (stay (unlock_test_cpu h) (clear_pcs h) e refl refl (mark_here (unlock_test_cpu h) e ∙ z))
    | inr z ↦ rw z (
        stay (unlock_test_cpu h) (unlock_panic h) e refl refl (mark_here (unlock_test_cpu h) e ∙ z))
  ]
  access-Inv (unlock_panic h) e =
      stay (unlock_panic h) (unlock_panic h) e refl refl (here (unlock_panic h) e)
  access-Inv (clear_pcs h) e =
      quiet lk pc me inv (clear_cpu h) (update lk.pcs 0 0) (rw e refl) (rw e refl)
        (here (clear_pcs h) e)
  access-Inv (clear_cpu h) e =
      let mine = here (clear_cpu h) e in
      marks_moved lk pc me inv none (clear_locked h) (rw e mine) mine refl (λ i ne. refl) mine
  access-Inv (clear_locked h) e =
      released lk pc me inv (e ∙ ap clear_locked (here (clear_locked h) e))

Step-Inv : {s t : System} → Step s t → Inv s.lock s.pc → Inv t.lock t.pc
Step-Inv {s} (call_lock me h e) inv =
    stay s.lock s.pc me (record { ebp = 0; word = λ a. a }) inv (idle h) (lock_test h) e refl refl
      tt
Step-Inv {s} (call_unlock me h e) inv =
    stay s.lock s.pc me (record { ebp = 0; word = λ a. a }) inv (idle h) (unlock_test h) e refl refl
      tt
Step-Inv {s} (run me c) inv = access-Inv s.lock s.pc me c inv (s.pc me) refl

pub Reach-Inv : {lk : Lock} {s : System} → Reach lk s → Inv s.lock s.pc
Reach-Inv start = record {
  owner = none;
  owned = λ i. refl;
  word = refl;
  marks = λ i. refl;
  sound = λ i. tt;
}
Reach-Inv (later r st) = Step-Inv st (Reach-Inv r)

-- In every state that the CPUs reach, in any order of their steps and also if a CPU calls spin_lock
-- while it holds the lock or spin_unlock while it does not, at most one CPU holds the lock, from the
-- exchange of spin_lock to that of spin_unlock.
pub mutual_exclusion :
    {lk : Lock} {s : System}
    → Reach lk s
    → (i j : ℕ) → holds (s.pc i) ≡ true
    → holds (s.pc j) ≡ true
    → i ≡ j
mutual_exclusion {s} r i j mine yours =
    let inv = Reach-Inv r in
    elim (Option-cases inv.owner) [
      | inl e ↦ absurd (ground (arith, inv.owned i, e))
      | inr (c, e) ↦ ground (arith, inv.owned i, inv.owned j, e)
    ]

-- The checks are exact in every reachable state: a CPU that spins does not hold the lock, and one that
-- is stopped in spin_lock does; a CPU that has passed the test of spin_unlock and has not released the
-- lock yet holds it, and one that is stopped in spin_unlock does not.
pub checks_exact : {lk : Lock} {s : System} → Reach lk s → (me : ℕ) → IsSound (s.pc me)
checks_exact r me = (Reach-Inv r).sound me
