-- ===== src/Spinlock/Tests.antt =====
-- Two CPUs that meet at the lock of mit-6.828/lab/kern/spinlock.c.
use papers_annotation.Prelude.{ℕ, ◌≡◌, refl, true, false, some, ◌==◌, if◌then◌else◌}
use papers_annotation.Kern.State.{update}
use papers_annotation.Spinlock.{
  Lock, Caller, idle, lock_test, lock_panic, unlock_panic, spin, mark_cpu, unlock_test, frames_from,
  get_caller_pcs, access, System, run_cpu, call_lock, init_lock, Reach, start, later,
}
use papers_annotation.Spinlock.Safety.{mutual_exclusion}
use papers_annotation.Spinlock.Progress.{run_times, run_times-Reach, handover}

abbrev unused : Lock
unused = record { locked = 7; cpu = some 3; pcs = λ i. 0 }

-- A stack of one frame in the kernel.
abbrev caller : Caller
caller = record { ebp = 0xF0000000; word = λ a. if a == 0xF0000004 then 0xF0100000 else 0 }

first_frame : get_caller_pcs caller unused.pcs 0 ≡ 0xF0100000
unfolding get_caller_pcs frames_from
first_frame = refl

abbrev booted : System
booted = record { lock = init_lock unused; pc = λ me. idle false }

-- CPU 0 calls spin_lock, and goes on until it returns.
abbrev owned_by_0 : System
owned_by_0 = run_times 4 0 caller (record booted { pc = update booted.pc 0 (lock_test false) })

owned_by_0-Reach : Reach unused owned_by_0
owned_by_0-Reach = run_times-Reach 4 0 caller (later start (call_lock 0 false refl))

-- CPU 1 spins.
abbrev contended : System
contended =
    run_times 2 1 caller (record owned_by_0 { pc = update owned_by_0.pc 1 (lock_test false) })

contended-Reach : Reach unused contended
unfolding run_times access
contended-Reach = run_times-Reach 2 1 caller (later owned_by_0-Reach (call_lock 1 false refl))

contended_places : (contended.pc 0 ≡ idle true) × (contended.pc 1 ≡ spin false)
unfolding run_times access
contended_places = (refl, refl)

-- A second spin_lock by the owner is stopped, and so is a spin_unlock by another CPU.
second_lock :
    (run_times 2 0 caller (record contended { pc = update contended.pc 0 (lock_test true) })).pc 0
    ≡ lock_panic true
unfolding run_times access
second_lock = refl

foreign_unlock :
    (run_times 2 2 caller (record contended { pc = update contended.pc 2 (unlock_test false) })).pc
      2
    ≡ unlock_panic false
unfolding run_times access
foreign_unlock = refl

mutual_exclusion_example : ◌≡◌ {A = ℕ} 0 0
unfolding run_times access
mutual_exclusion_example = mutual_exclusion contended-Reach 0 0 refl refl

handover_example :
    let u =
      run_times 5 0 caller (record contended { pc = update contended.pc 0 (unlock_test true) }) in
    let t = run_cpu 1 caller u in
    Reach unused t × (u.lock.locked ≡ 0) × (u.pc 0 ≡ idle false) × (t.pc 1 ≡ mark_cpu)
handover_example = handover contended-Reach 0 1 contended_places.0 contended_places.1 caller caller
