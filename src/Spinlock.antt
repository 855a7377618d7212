-- ===== src/Spinlock.antt =====
-- The lock of mit-6.828/lab/kern/spinlock.c with its debugging checks, as the CPUs run it: one access to
-- the lock per step.
pub mod Owner
pub mod Safety
pub mod Progress
mod Tests
use papers_annotation.Prelude.{
  ℕ, zero, suc, ◌+◌, ◌-◌, Bool, true, false, Option, none, some, ltb, ◌==◌, ◌||◌, if◌then◌else◌,
  ◌≡◌,
}
use papers_annotation.Mmu.{ulim}
use papers_annotation.Kern.State.{update}

-- `cpu` is NULL or the number of a CPU; the name of the lock is never read but for messages.
pub record Lock : Type 0 where
  pub locked : ℕ
  pub cpu : Option ℕ
  pub pcs : ℕ → ℕ

-- The caller's frame pointer, and memory by the word's address.
pub record Caller : Type 0 where
  pub ebp : ℕ
  pub word : ℕ → ℕ

-- The loop over the frames from pcs[i] on, then the rest of the ten is cleared.
unfoldable pub frames_from : ℕ → ℕ → ℕ → Caller → (ℕ → ℕ) → ℕ → ℕ
frames_from zero i ebp c pcs = pcs
frames_from (suc left) i ebp c pcs =
    let stop = ebp == 0 || ltb ebp ulim in
    frames_from left (i + 1) (if stop then 0 else c.word ebp) c
      (update pcs i (if stop then 0 else c.word (ebp + 4)))

unfoldable pub get_caller_pcs : Caller → (ℕ → ℕ) → ℕ → ℕ
unfolding frames_from
get_caller_pcs c pcs = frames_from 10 0 c.ebp c pcs

-- Where a CPU stands: outside both functions, or before the next access to the lock. The flag says
-- whether it has taken the lock and not released it; the code does not see it.
pub data Pc : Type 0 where
  idle : Bool → Pc
  lock_test : Bool → Pc
  lock_test_cpu : Bool → Pc
  lock_panic : Bool → Pc
  spin : Bool → Pc
  mark_cpu : Pc
  mark_pcs : Pc
  unlock_test : Bool → Pc
  unlock_test_cpu : Bool → Pc
  unlock_panic : Bool → Pc
  clear_pcs : Bool → Pc
  clear_cpu : Bool → Pc
  clear_locked : Bool → Pc

abbrev pub is_cpu : Option ℕ → ℕ → Bool
is_cpu none me = false
is_cpu (some c) me = c == me

-- The next access of a CPU: `holding`, the exchange of spin_lock, or a store.
unfoldable pub access : ℕ → Caller → Lock → Pc → Lock × Pc
unfolding get_caller_pcs
access me c lk (idle h) = (lk, idle h)
access me c lk (lock_test h) = (lk, if lk.locked == 0 then spin h else lock_test_cpu h)
access me c lk (lock_test_cpu h) = (lk, if is_cpu lk.cpu me then lock_panic h else spin h)
access me c lk (lock_panic h) = (lk, lock_panic h)
access me c lk (spin h) = (record lk { locked = 1 }, if lk.locked == 0 then mark_cpu else spin h)
access me c lk mark_cpu = (record lk { cpu = some me }, mark_pcs)
access me c lk mark_pcs = (record lk { pcs = get_caller_pcs c lk.pcs }, idle true)
access me c lk (unlock_test h) = (lk, if lk.locked == 0 then unlock_panic h else unlock_test_cpu h)
access me c lk (unlock_test_cpu h) = (lk, if is_cpu lk.cpu me then clear_pcs h else unlock_panic h)
access me c lk (unlock_panic h) = (lk, unlock_panic h)
access me c lk (clear_pcs h) = (record lk { pcs = update lk.pcs 0 0 }, clear_cpu h)
access me c lk (clear_cpu h) = (record lk { cpu = none }, clear_locked h)
access me c lk (clear_locked h) = (record lk { locked = 0 }, idle false)

pub record System : Type 0 where
  pub lock : Lock
  pub pc : ℕ → Pc

abbrev pub run_cpu : ℕ → Caller → System → System
run_cpu me c s =
    let (lk, p) = access me c s.lock (s.pc me) in record { lock = lk; pc = update s.pc me p }

-- Any CPU may call either function at any time, also wrongly, and the CPUs take their steps in any
-- order.
pub data Step (s : System) : System → Type 0 where
  call_lock :
      (me : ℕ) (h : Bool)
      → s.pc me ≡ idle h
      → Step s (record s { pc = update s.pc me (lock_test h) })
  call_unlock :
      (me : ℕ) (h : Bool)
      → s.pc me ≡ idle h
      → Step s (record s { pc = update s.pc me (unlock_test h) })
  run : (me : ℕ) (c : Caller) → Step s (run_cpu me c s)

-- __spin_initlock
abbrev pub init_lock : Lock → Lock
init_lock lk = record lk { locked = 0; cpu = none }

pub data Reach (lk : Lock) : System → Type 0 where
  start : Reach lk (record { lock = init_lock lk; pc = λ me. idle false })
  later : {s t : System} → Reach lk s → Step s t → Reach lk t
