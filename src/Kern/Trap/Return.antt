-- ===== src/Kern/Trap/Return.antt =====
-- How trap of mit-6.828/lab/kern/trap.c comes in from an environment and goes back to it.
use papers_annotation.Prelude.{ℕ, ◌+◌, ◌%◌, ◌≡◌, refl, ap, ◌∙◌, arith, some, true, false, ◌==◌}
use papers_annotation.Kern.State.{
  Trapframe, PushRegs, running, runnable, dying, Env, Kernel, returned, resumed, bind, ◌>>◌,
  set_env,
}
use papers_annotation.Kern.Envs.{status_eq, preempt}
use papers_annotation.Mmu.{u32}
use papers_annotation.Kern.Sched.RoundRobin.{switched, env_run-eq}
use papers_annotation.Kern.Dispatch.{Machine, OtherCalls, syscall}
use papers_annotation.Kern.Trap.{
  Frame, of_env, frame, set_tf, with_eax, set_eax, handle_syscall, trap_dispatch, enter,
  enter_from_user, come_in, leave, leave_to, trap,
}

-- A trap from the environment c in user mode, on a CPU that is not halted.
pub record FromUser (hw : Machine) (t : Trapframe) (k : Kernel) (c : ℕ) : Type 0 where
  pub no_panic : hw.panicstr ≡ false
  pub masked : hw.interrupts_on ≡ false
  pub awake : k.cpu_halted ≡ false
  pub unlocked : k.kernel_locked ≡ false
  pub user_mode : t.tf_cs % 4 ≡ 3
  pub current : k.curenv ≡ some c
  pub alive : status_eq (k.envs c).env_status dying ≡ false

-- The state in which the trap is dispatched.
abbrev pub came_in : ℕ → Trapframe → Kernel → Kernel
came_in c t k = set_tf c t (record k { kernel_locked = true })

module _ (hw : Machine) (others : OtherCalls) (t : Trapframe) (k : Kernel) (c : ℕ)
    (u : FromUser hw t k c) where
  come_in-FromUser : come_in hw t k ≡ returned (of_env c) (came_in c t k)
  unfolding come_in enter enter_from_user
  come_in-FromUser =
      let user : (t.tf_cs % 4 == 3) ≡ true = ground (arith, u.user_mode) in
      simp (u.awake, u.masked, user, u.unlocked, u.current, u.alive)

  pub trap-FromUser :
      trap hw others t k ≡ (trap_dispatch hw others (of_env c) >> leave) (came_in c t k)
  unfolding trap
  trap-FromUser =
      simp u.no_panic
        (ap (λ o. bind o (λ tf. trap_dispatch hw others tf >> leave)) come_in-FromUser)

-- The environment as env_run leaves it for user mode.
abbrev pub going_on : Kernel → Env → Env
going_on k e = record e {
  env_status = running;
  env_runs = u32 (e.env_runs + 1);
  env_cpunum = k.cpunum;
}

abbrev paused : ℕ → Kernel → Kernel
paused c k = set_env c (record (k.envs c) { env_status = runnable }) k

preempt-running :
    (k : Kernel) (c : ℕ)
    → k.curenv ≡ some c
    → (k.envs c).env_status ≡ running
    → preempt k ≡ paused c k
preempt-running k c cur run = rw (cur, run) refl

-- The CPU goes on in the environment c, in its address space, with the lock released.
pub record GoesOn (k : Kernel) (c d : ℕ) (k' : Kernel) : Type 0 where
  pub env : k'.envs c ≡ going_on k (k.envs c)
  pub address_space : k'.cr3 ≡ d
  pub lock_free : k'.kernel_locked ≡ false
  pub still_current : k'.curenv ≡ some c
  pub memory : k'.mem ≡ k.mem

pub leave-resumes :
    (k : Kernel) (c d : ℕ)
    → k.curenv ≡ some c
    → (k.envs c).env_status ≡ running
    → (k.envs c).env_pgdir ≡ some d
    → (k' : Kernel) × (leave k ≡ resumed c k') × GoesOn k c d k'
leave-resumes k c d cur run dir =
    let same : (c == c) ≡ true = ground arith in
    let pre = preempt-running k c cur run in
    let run' : status_eq (k.envs c).env_status running ≡ true = rw run refl in
    let has : ((preempt k).envs c).env_pgdir ≡ some d = rw (pre, same) dir in
    (
      switched c d (paused c k),
      ap (λ o. leave_to o k) cur
          ∙ simp run' (env_run-eq c d k has ∙ ap (λ k'. resumed c (switched c d k')) pre),
      record {
        env = rw same refl;
        address_space = refl;
        lock_free = refl;
        still_current = refl;
        memory = refl;
      },
    )

trap_dispatch-48 :
    (hw : Machine) (others : OtherCalls) (tf : Frame) (t : Trapframe) (k : Kernel)
    → frame tf k ≡ t
    → t.tf_trapno ≡ 48
    → trap_dispatch hw others tf k ≡ handle_syscall hw others tf t.tf_regs k
unfolding trap_dispatch
trap_dispatch-48 hw others tf t k f is_48 =
    let n : (frame tf k).tf_trapno ≡ 48 = ap (λ t. t.tf_trapno) f ∙ is_48 in
    simp n (ap (λ t. handle_syscall hw others tf t.tf_regs k) f)

handle_syscall-returned :
    (hw : Machine) (others : OtherCalls) (tf : Frame) (regs : PushRegs) (k k2 : Kernel) (r : ℕ)
    → syscall hw others regs.reg_eax regs.reg_edx regs.reg_ecx regs.reg_ebx regs.reg_edi
        regs.reg_esi k
      ≡ returned r k2
    → handle_syscall hw others tf regs k ≡ set_eax tf r k2
unfolding handle_syscall
handle_syscall-returned hw others tf regs k k2 r h = ap (λ o. bind o (set_eax tf)) h

-- A system call by an environment that is still running when the call returns: the CPU goes on in the
-- environment, in its address space and with the kernel lock released, and its registers are those
-- that the call left in its trap frame, with the result in eax. Before the call they were those of
-- the trap, and the call got its number from eax and its arguments from edx, ecx, ebx, edi and esi.
pub trap-syscall :
    (hw : Machine) (others : OtherCalls) (t : Trapframe) (k : Kernel) (c : ℕ)
    → FromUser hw t k c
    → t.tf_trapno ≡ 48
    → (r : ℕ) (k2 : Kernel) (d : ℕ)
    → let regs = t.tf_regs in
      syscall hw others regs.reg_eax regs.reg_edx regs.reg_ecx regs.reg_ebx regs.reg_edi
          regs.reg_esi
          (came_in c t k)
        ≡ returned r k2
      → k2.curenv ≡ some c
      → (k2.envs c).env_status ≡ running
      → (k2.envs c).env_pgdir ≡ some d
      → (k' : Kernel) × (trap hw others t k ≡ resumed c k')
        × ((k'.envs c).env_tf ≡ with_eax r (k2.envs c).env_tf)
        × (k'.cr3 ≡ d)
        × (k'.kernel_locked ≡ false)
        × (k'.curenv ≡ some c)
        × (k'.mem ≡ k2.mem)
trap-syscall hw others t k c u is_48 r k2 d call cur run dir =
    let same : (c == c) ≡ true = ground arith in
    let e2 = with_eax r (k2.envs c).env_tf in
    let k3 = set_tf c e2 k2 in
    let env3 : k3.envs c ≡ record (k2.envs c) { env_tf = e2 } = rw same refl in
    let framed : frame (of_env c) (came_in c t k) ≡ t = rw (same, frame) refl in
    let dispatched : trap_dispatch hw others (of_env c) (came_in c t k) ≡ returned tt k3 =
      trap_dispatch-48 hw others (of_env c) t (came_in c t k) framed is_48
      ∙ handle_syscall-returned hw others (of_env c) t.tf_regs (came_in c t k) k2 r call in
    let (k', e, on) =
      leave-resumes k3 c d cur (ap (λ e. e.env_status) env3 ∙ run)
        (ap (λ e. e.env_pgdir) env3 ∙ dir) in
    (
      k',
      trap-FromUser hw others t k c u ∙ ap (λ o. bind o (λ _. leave)) dispatched ∙ e,
      ap (λ e. e.env_tf) on.env ∙ ap (λ e. e.env_tf) env3,
      on.address_space,
      on.lock_free,
      on.still_current,
      on.memory,
    )
