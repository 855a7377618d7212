-- ===== src/Spinlock/Progress.antt =====
-- The lock of mit-6.828/lab/kern/spinlock.c passes from the CPU that releases it to one that spins.
use papers_annotation.Prelude.{
  ℕ, zero, suc, ◌≡◌, ◌≢◌, refl, arith, Bool, true, false, some, ◌==◌, Option-cases, inl, inr, ap,
  ◌∙◌,
}
use papers_annotation.Kern.State.{update}
use papers_annotation.Spinlock.{
  Lock, Caller, Pc, idle, spin, mark_cpu, unlock_test, is_cpu, access, System, run_cpu, call_unlock,
  run, Reach, later,
}
use papers_annotation.Spinlock.Safety.{Reach-Inv}

-- Steps of one CPU only.
unfoldable pub run_times : ℕ → ℕ → Caller → System → System
run_times zero me c s = s
run_times (suc n) me c s = run_times n me c (run_cpu me c s)

-- The same, without the other CPUs.
alone : ℕ → ℕ → Caller → Lock × Pc → Lock × Pc
alone zero me c x = x
alone (suc n) me c x = alone n me c (access me c x.0 x.1)

run_times-alone :
    (n me : ℕ) (c : Caller) (s : System)
    → let t = run_times n me c s in
      ◌≡◌ {A = Lock × Pc} (t.lock, t.pc me) (alone n me c (s.lock, s.pc me))
unfolding run_times alone
run_times-alone zero me c s = refl
run_times-alone (suc n) me c s =
    let same : (me == me) ≡ true = ground arith in
    run_times-alone n me c (run_cpu me c s) ∙ rw same refl

run_times-others :
    (n me i : ℕ) (c : Caller) (s : System) → me ≢ i → (run_times n me c s).pc i ≡ s.pc i
unfolding run_times
run_times-others zero me i c s ne = refl
run_times-others (suc n) me i c s ne =
    let other : (me == i) ≡ false = ground (arith, ne) in
    run_times-others n me i c (run_cpu me c s) ne ∙ rw other refl

pub run_times-Reach :
    {lk : Lock} (n me : ℕ) (c : Caller) {s : System} → Reach lk s → Reach lk (run_times n me c s)
unfolding run_times
run_times-Reach zero me c r = r
run_times-Reach (suc n) me c r = run_times-Reach n me c (later r (run me c))

-- spin_unlock by the CPU that is recorded.
unlock-alone :
    (me : ℕ) (c : Caller) (lk : Lock)
    → lk.locked ≡ 1
    → lk.cpu ≡ some me
    → ((alone 5 me c (lk, unlock_test true)).0.locked ≡ 0)
      × ((alone 5 me c (lk, unlock_test true)).1 ≡ idle false)
unfolding alone access
unlock-alone me c lk l m =
    let same : is_cpu lk.cpu me ≡ true = ground (arith, m) in rw (l, same) (refl, refl)

owner_recorded :
    {lk : Lock} {s : System}
    → Reach lk s
    → (i : ℕ) → s.pc i ≡ idle true
    → (s.lock.locked ≡ 1) × (s.lock.cpu ≡ some i)
owner_recorded {s} r i e =
    let inv = Reach-Inv r in
    (
      elim (Option-cases inv.owner) [
        | inl z ↦ absurd (ground (arith, inv.owned i, z, e))
        | inr (c, z) ↦ ground (arith, inv.word, z)
      ],
      elim (Option-cases s.lock.cpu) [
        | inl z ↦ absurd (ground (arith, inv.marks i, z, e))
        | inr (c, z) ↦ ground (arith, inv.marks i, z, e)
      ],
    )

exchange-takes :
    (u : System) (j : ℕ) (d : Caller) {h : Bool}
    → u.lock.locked ≡ 0
    → u.pc j ≡ spin h
    → (run_cpu j d u).pc j ≡ mark_cpu
unfolding access
exchange-takes u j d {h} free spins =
    let same : (j == j) ≡ true = ground arith in
    let takes : (access j d u.lock (spin h)).1 ≡ mark_cpu = rw free refl in
    rw same (ap (λ (p : Pc). (access j d u.lock p).1) spins ∙ takes)

-- From every reachable state in which a CPU i is outside the functions with the lock and a CPU j spins,
-- whatever the others do: if i calls spin_unlock, five steps of it return with the lock free and without
-- a panic, and the next step of j takes the lock.
pub handover :
    {lk : Lock} {s : System} {h : Bool}
    → Reach lk s
    → (i j : ℕ) → s.pc i ≡ idle true
    → s.pc j ≡ spin h
    → (c d : Caller)
    → let u = run_times 5 i c (record s { pc = update s.pc i (unlock_test true) }) in
      let t = run_cpu j d u in
      Reach lk t × (u.lock.locked ≡ 0) × (u.pc i ≡ idle false) × (t.pc j ≡ mark_cpu)
handover {s} {h} r i j owns spins c d =
    let v : System = record s { pc = update s.pc i (unlock_test true) } in
    let u : System = run_times 5 i c v in
    let ne : i ≢ j = λ e. ground (arith, owns, spins, e) in
    let at_i : v.pc i ≡ unlock_test true = ground arith in
    let at_j : v.pc j ≡ spin h = ground (arith, ne, spins) in
    let rec = owner_recorded r i owns in
    let end : ◌≡◌ {A = Lock × Pc} (u.lock, u.pc i) (alone 5 i c (s.lock, unlock_test true)) =
      run_times-alone 5 i c v ∙ ap (λ (p : Pc). alone 5 i c (s.lock, p)) at_i in
    let own = unlock-alone i c s.lock rec.0 rec.1 in
    let free : u.lock.locked ≡ 0 = ap (λ (x : Lock × Pc). x.0.locked) end ∙ own.0 in
    (
      later (run_times-Reach 5 i c (later r (call_unlock i true owns))) (run j d),
      free,
      ap (λ (x : Lock × Pc). x.1) end ∙ own.1,
      exchange-takes u j d free (run_times-others 5 i j c v ne ∙ at_j),
    )
