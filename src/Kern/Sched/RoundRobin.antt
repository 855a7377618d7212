-- ===== src/Kern/Sched/RoundRobin.antt =====
-- sched_yield of mit-6.828/lab/kern/sched.c and env_run of kern/env.c: which environment runs next.
use mathlib.Core.Path.{subst}
use papers_annotation.Prelude.{
  ℕ, zero, suc, ◌+◌, ◌%◌, ◌≤◌, ◌<◌, ◌≡◌, ◌≢◌, ◌⊎◌, refl, sym, ap, ◌∙◌, Option, none, some, arith,
  true, false, Bool, ◌||◌, Bool-cases, inl, inr, ℕ_discrete,
}
use papers_annotation.Mmu.{nenv}
use papers_annotation.Kern.State.{
  EnvStatus, runnable, running, dying, Env, Kernel, returned, resumed, halted, monitored, update,
  bind,
}
use papers_annotation.Kern.Pgdir.{pgdir_of}
use papers_annotation.Kern.Envs.{status_eq, preempt, entered, resume, env_run}
use papers_annotation.Kern.Sched.{
  wrap_env, find_runnable, run_chosen, run_idle, any_alive, first_candidate, still_running,
  sched_halt, sched_yield,
}

-- The environment i places after e, in circular order.
abbrev pub after : ℕ → ℕ → ℕ
after e i = (e + i) % nenv

abbrev pub IsRunnable : (ℕ → Env) → ℕ → Type 0
IsRunnable envs e = (envs e).env_status ≡ runnable

-- The search finds the first runnable environment at or after e, if the next n hold one.
abbrev pub FoundFirst : (ℕ → Env) → ℕ → ℕ → Option ℕ → Type 0
FoundFirst envs e n o =
    ((j : ℕ) × (j < n)
      × (o ≡ some (after e j))
      × IsRunnable envs (after e j)
      × ((i : ℕ) → i < j → ¬ IsRunnable envs (after e i)))
    ⊎ ((o ≡ none) × ((i : ℕ) → i < n → ¬ IsRunnable envs (after e i)))

IsRunnable-iff :
    (s : EnvStatus)
    → (status_eq s runnable ≡ true → s ≡ runnable) × (status_eq s runnable ≡ false → s ≢ runnable)
IsRunnable-iff EnvStatus.free = ((λ h. cc), (λ h e. cc))
IsRunnable-iff dying = ((λ h. cc), (λ h e. cc))
IsRunnable-iff runnable = ((λ h. refl), (λ h e. cc))
IsRunnable-iff running = ((λ h. cc), (λ h e. cc))
IsRunnable-iff EnvStatus.not_runnable = ((λ h. cc), (λ h e. cc))

wrap_env-after : (e : ℕ) → e ≤ nenv → wrap_env e ≡ after e 0
wrap_env-after e h = ground arith

after_next : (e i : ℕ) → e ≤ nenv → after (wrap_env e + 1) i ≡ after e (suc i)
after_next e i h = ground arith

abbrev NoneBefore : (ℕ → Env) → ℕ → ℕ → Type 0
NoneBefore envs e j = (i : ℕ) → i < j → ¬ IsRunnable envs (after e i)

NoneBefore-suc :
    (envs : ℕ → Env) (e j : ℕ)
    → e ≤ nenv
    → ¬ IsRunnable envs (after e 0)
    → NoneBefore envs (wrap_env e + 1) j
    → NoneBefore envs e (suc j)
NoneBefore-suc envs e j h first rest zero b r = first r
NoneBefore-suc envs e j h first rest (suc i) b r =
    rest i (omega arith) (subst (IsRunnable envs) (sym (after_next e i h)) r)

FoundFirst-next :
    (envs : ℕ → Env) (e n : ℕ) (o : Option ℕ)
    → e ≤ nenv
    → ¬ IsRunnable envs (after e 0)
    → FoundFirst envs (wrap_env e + 1) n o
    → FoundFirst envs e (suc n) o
FoundFirst-next envs e n o h first (inl (j, b, found, runs, before)) = inl (
  suc j,
  omega arith,
  found ∙ ap (λ (t : ℕ). some t) (after_next e j h),
  subst (IsRunnable envs) (after_next e j h) runs,
  NoneBefore-suc envs e j h first before,
)
FoundFirst-next envs e n o h first (inr (found, before)) =
    inr (found, NoneBefore-suc envs e n h first before)

pub find_runnable_lem :
    (n e : ℕ) (envs : ℕ → Env) → e ≤ nenv → FoundFirst envs e n (find_runnable n envs e)
unfolding find_runnable
find_runnable_lem zero e envs h = inr (refl, (λ i b. elim b [ ]))
find_runnable_lem (suc n) e envs h =
    elim (Bool-cases (status_eq (envs (wrap_env e)).env_status runnable)) [
      | inl t ↦ rw t (
          inl (
            0,
            omega arith,
            ap (λ (i : ℕ). some i) (wrap_env-after e h),
            subst (IsRunnable envs) (wrap_env-after e h)
                ((IsRunnable-iff (envs (wrap_env e)).env_status).0 t),
            (λ i b. elim b [ ]),
          ))
      | inr f ↦ rw f (
          FoundFirst-next envs e n (find_runnable n envs (wrap_env e + 1)) h
            (λ r.
              (IsRunnable-iff (envs (wrap_env e)).env_status).1 f
                (subst (IsRunnable envs) (sym (wrap_env-after e h)) r))
            (find_runnable_lem n (wrap_env e + 1) envs (ground arith)))
    ]

-- After preempt no environment of this CPU is running, so a second one changes nothing.
preempt_twice : (k : Kernel) → preempt (preempt k) ≡ preempt k
preempt_twice k = ground arith

-- The state in which environment e goes on, entered from a state after preempt.
abbrev pub switched : ℕ → ℕ → Kernel → Kernel
switched e d k =
    let k1 = entered e k in
    record k1 {
      cr3 = d;
      kernel_locked = false;
      envs = update k1.envs e (record (k1.envs e) { env_cpunum = k1.cpunum });
    }

-- env_run of an environment with directory d goes on in that environment, in its address space, with
-- the kernel lock released.
pub env_run-eq :
    {A : Type 0} (e d : ℕ) (k : Kernel)
    → ((preempt k).envs e).env_pgdir ≡ some d
    → env_run e {A = A} k ≡ resumed e (switched e d (preempt k))
unfolding env_run
env_run-eq {A} e d k h =
    let k1 = entered e (preempt k) in
    let dir : pgdir_of (k1.envs e) k1 ≡ returned d k1 = ground arith in
    ap (λ o. bind o (resume {A = A} e)) dir

-- An environment that keeps the system going.
abbrev pub alive : EnvStatus → Bool
alive s = status_eq s runnable || status_eq s running || status_eq s dying

abbrev pub SomeAlive : (ℕ → Env) → ℕ → ℕ → Bool → Type 0
SomeAlive envs i n b =
    ((b ≡ true) × ((j : ℕ) × (i ≤ j) × (j < i + n) × (alive (envs j).env_status ≡ true)))
    ⊎ ((b ≡ false) × ((j : ℕ) → i ≤ j → j < i + n → alive (envs j).env_status ≡ false))

any_alive_lem : (n i : ℕ) (envs : ℕ → Env) → SomeAlive envs i n (any_alive n envs i)
unfolding any_alive
any_alive_lem zero i envs = inr (refl, (λ j a b. absurd (omega arith)))
any_alive_lem (suc n) i envs = elim (Bool-cases (alive (envs i).env_status)) [
  | inl t ↦ rw t (inl (refl, (i, omega arith, omega arith, t)))
  | inr f ↦ rw f (elim (any_alive_lem n (i + 1) envs) [
    | inl (e, (j, a, b, t)) ↦ inl (e, (j, omega arith, omega arith, t))
    | inr (e, all) ↦ inr (
      e,
      (λ j a b. elim (ℕ_discrete i j) [
        | yes same ↦ subst (λ m. alive (envs m).env_status ≡ false) same f
        | no other ↦ all j (omega arith) (omega arith)
      ]),
    )
  ])
]

not_still_running : (k : Kernel) → still_running (preempt k) ≡ none
not_still_running k = ground arith

module _ {A : Type 0} (k : Kernel) where
  sched_yield-found :
      (e d : ℕ)
      → find_runnable nenv (preempt k).envs (first_candidate k) ≡ some e
      → ((preempt k).envs e).env_pgdir ≡ some d
      → sched_yield {A = A} k ≡ resumed e (switched e d (preempt k))
  unfolding sched_yield run_chosen
  sched_yield-found e d f h =
      ap (λ (o : Option ℕ). run_chosen {A = A} o (preempt k)) f
      ∙ env_run-eq e d (preempt k)
          (ap (λ (k' : Kernel). (k'.envs e).env_pgdir) (preempt_twice k) ∙ h)
      ∙ ap (λ (k' : Kernel). resumed e (switched e d k')) (preempt_twice k)

  sched_yield-idle :
      find_runnable nenv (preempt k).envs (first_candidate k) ≡ none
      → sched_yield {A = A} k ≡ sched_halt (preempt k)
  unfolding sched_yield run_chosen run_idle
  sched_yield-idle f =
      ap (λ (o : Option ℕ). run_chosen {A = A} o (preempt k)) f
      ∙ ap (λ (o : Option ℕ). run_idle {A = A} o (preempt k)) (not_still_running k)

-- How sched_yield ends, with `first` the environment after the caller.
abbrev pub Schedules : (A : Type 0) → Kernel → Type 0
Schedules A k =
    ((j : ℕ) × (k' : Kernel) × (j < nenv)
      × IsRunnable (preempt k).envs (after (first_candidate k) j)
      × NoneBefore (preempt k).envs (first_candidate k) j
      × (sched_yield {A = A} k ≡ resumed (after (first_candidate k) j) k')
      × (k'.curenv ≡ some (after (first_candidate k) j))
      × ((k'.envs (after (first_candidate k) j)).env_status ≡ running)
      × (((preempt k).envs (after (first_candidate k) j)).env_pgdir ≡ some k'.cr3)
      × ((y : ℕ) → y ≢ after (first_candidate k) j → k'.envs y ≡ (preempt k).envs y))
    ⊎ (NoneBefore (preempt k).envs (first_candidate k) nenv
        × (((sched_yield {A = A} k ≡ monitored (preempt k))
              × ((y : ℕ) → y < nenv → alive ((preempt k).envs y).env_status ≡ false))
            ⊎ ((k' : Kernel) × (sched_yield {A = A} k ≡ halted k')
                × (k'.curenv ≡ none)
                × (k'.cr3 ≡ k.kern_pgdir)
                × ((y : ℕ) × (y < nenv) × (alive ((preempt k).envs y).env_status ≡ true)))))

sched_halt-idle :
    {A : Type 0} (k : Kernel)
    → ((sched_halt {A = A} k ≡ monitored k)
        × ((y : ℕ) → y < nenv → alive (k.envs y).env_status ≡ false))
      ⊎ ((k' : Kernel) × (sched_halt {A = A} k ≡ halted k')
          × (k'.curenv ≡ none)
          × (k'.cr3 ≡ k.kern_pgdir)
          × ((y : ℕ) × (y < nenv) × (alive (k.envs y).env_status ≡ true)))
unfolding sched_halt
sched_halt-idle {A} k = elim (any_alive_lem nenv 0 k.envs) [
  | inr (e, all) ↦ inl (rw e refl, (λ y b. all y (omega arith) (omega arith)))
  | inl (e, (j, a, b, t)) ↦ inr (
    record k { curenv = none; cr3 = k.kern_pgdir; cpu_halted = true; kernel_locked = false },
    rw e refl,
    refl,
    refl,
    (j, omega arith, t),
  )
]

kern_pgdir-preempt : (k : Kernel) → (preempt k).kern_pgdir ≡ k.kern_pgdir
kern_pgdir-preempt k = ground arith

-- sched_yield never returns. The caller's environment counts as runnable again if it was running. The
-- first runnable environment in circular order after the caller goes on, in its own address space,
-- marked as running, and no other environment changes; if none is runnable, the CPU halts with no
-- current environment if one is running on another CPU or dying, and enters the monitor if not. Every
-- runnable environment has a page directory.
pub sched_yield_lem :
    {A : Type 0} (k : Kernel)
    → first_candidate k ≤ nenv
    → ((e : ℕ)
        → IsRunnable (preempt k).envs e
        → (d : ℕ) × (((preempt k).envs e).env_pgdir ≡ some d))
    → Schedules A k
sched_yield_lem {A} k h dirs =
    elim (find_runnable_lem nenv (first_candidate k) (preempt k).envs h) [
      | inl (j, b, found, runs, before) ↦
          let e = after (first_candidate k) j in
          let (d, dir) = dirs e runs in
          inl (
            j,
            switched e d (preempt k),
            b,
            runs,
            before,
            sched_yield-found k e d found dir,
            refl,
            ground arith,
            dir,
            (λ y ne. ground arith),
          )
      | inr (found, before) ↦ inr (
        before,
        elim (sched_halt-idle {A = A} (preempt k)) [
          | inl (r, all) ↦ inl (sched_yield-idle k found ∙ r, all)
          | inr (k', r, c, p, some_alive) ↦
              inr (k', sched_yield-idle k found ∙ r, c, p ∙ kern_pgdir-preempt k, some_alive)
        ],
      )
    ]
