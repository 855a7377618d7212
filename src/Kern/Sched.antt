-- ===== src/Kern/Sched.antt =====
-- The scheduler of mit-6.828/lab/kern/sched.c, and env_destroy of kern/env.c, which ends in it.
pub mod RoundRobin
use papers_annotation.Prelude.{
  ℕ, zero, suc, ◌+◌, Option, none, some, Bool, true, false, not, ◌&&◌, ◌||◌, leb, if◌then◌else◌,
}
use papers_annotation.Mmu.{nenv}
use papers_annotation.Kern.State.{
  dying, running, runnable, Env, Kernel, M, Outcome, returned, panicked, halted, monitored, update,
  pure, bind, ◌>>=◌, ◌>>◌, gets, modify, set_env,
}
use papers_annotation.Kern.Envs.{status_eq, is_curenv, env_free, preempt, env_run}

-- `if (e >= envs + NENV) e = envs;`
abbrev pub wrap_env : ℕ → ℕ
wrap_env e = if leb nenv e then 0 else e

-- The first runnable environment among `rounds` ones from `e` on, in circular order.
unfoldable pub find_runnable : ℕ → (ℕ → Env) → ℕ → Option ℕ
find_runnable zero envs e = none
find_runnable (suc rounds) envs e =
    let rest = find_runnable rounds envs (wrap_env e + 1) in
    if status_eq (envs (wrap_env e)).env_status runnable then some (wrap_env e) else rest

-- Is some environment among the `rounds` ones from i on runnable, running or dying?
unfoldable pub any_alive : ℕ → (ℕ → Env) → ℕ → Bool
any_alive zero envs i = false
any_alive (suc rounds) envs i =
    let status = (envs i).env_status in
    let rest = any_alive rounds envs (i + 1) in
    if status_eq status runnable || status_eq status running || status_eq status dying
    then true
    else rest

unfoldable pub sched_halt : {A : Type 0} → M A
unfolding any_alive
sched_halt k =
    if any_alive nenv k.envs 0
    then halted
        (record k { curenv = none; cr3 = k.kern_pgdir; cpu_halted = true; kernel_locked = false })
    else monitored k

-- Where the search starts: just after curenv.
abbrev pub first_candidate : Kernel → ℕ
first_candidate k = elim k.curenv [ none ↦ 0 | some c ↦ c + 1 ]

-- The environment that was running on this CPU, if it still is.
abbrev pub still_running : Kernel → Option ℕ
still_running k = elim k.curenv [
  | none ↦ none
  | some c ↦ if status_eq (k.envs c).env_status running then some c else none
]

-- With nothing runnable: the environment that is still running here, or halt.
unfoldable pub run_idle : {A : Type 0} → Option ℕ → M A
unfolding env_run sched_halt
run_idle (some c) = env_run c
run_idle none = sched_halt

-- What sched_yield does with the outcome of its search.
unfoldable pub run_chosen : {A : Type 0} → Option ℕ → M A
unfolding env_run run_idle
run_chosen (some e) k = env_run e k
run_chosen none k = run_idle (still_running k) k

unfoldable pub sched_yield : {A : Type 0} → M A
unfolding find_runnable run_chosen
sched_yield k = run_chosen (find_runnable nenv (preempt k).envs (first_candidate k)) (preempt k)

unfoldable pub env_destroy : ℕ → M (Unit {0})
unfolding env_free sched_yield
env_destroy e k =
    if status_eq (k.envs e).env_status running && not (is_curenv k e)
    then returned tt (set_env e (record (k.envs e) { env_status = dying }) k)
    else (env_free e >>= λ _ k'.
          if is_curenv k' e then sched_yield (record k' { curenv = none }) else returned tt k')
        k
