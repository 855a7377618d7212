-- ===== src/Kern/Trap.antt =====
-- Traps: trap_dispatch, page_fault_handler and trap of mit-6.828/lab/kern/trap.c.
pub mod Return
pub mod Fault
pub mod Tests
use papers_annotation.Prelude.{
  ℕ, ◌+◌, ◌-◌, ◌*◌, ◌%◌, ◌^◌, Option, none, some, Bool, true, false, not, ◌&&◌, ◌||◌, ltb, leb,
  ◌==◌, if◌then◌else◌, List, update,
}
use papers_annotation.Prelude.Int.{ℤ, pos, negsuc}
use papers_annotation.Mmu.{u32, pgsize, pte_u, pte_w, utop, ulim, e_inval}
use papers_annotation.Console.{cons_intr, cons_getc}
use papers_annotation.Kern.State.{
  PushRegs, Trapframe, Env, dying, running, Kernel, M, Outcome, returned, panicked, halted,
  monitored, pure, panic, bind, ◌>>=◌, ◌>>◌, gets, modify, require, set_env,
}
use papers_annotation.Kern.Envs.{status_eq, env_free, env_run}
use papers_annotation.Kern.Sched.{sched_yield, env_destroy}
use papers_annotation.Kern.Syscall.{
  the_curenv, user_mem_assert, sys_getenvid, sys_env_destroy, sys_yield, sys_exofork,
  sys_env_set_status, sys_env_set_trapframe, sys_env_set_pgfault_upcall, sys_page_alloc,
  sys_page_map, sys_page_unmap, sys_ipc_try_send, sys_ipc_recv,
}
use papers_annotation.Kern.Dispatch.{
  UTrapframe, Machine, OtherCalls, time_tick, time_msec, as_word, in_eax, sys_cputs, sys_cgetc,
  sys_net_send, sys_net_recv, syscall,
}

-- `tf`: a frame on the kernel's stack, or that of an environment.
pub data Frame : Type 0 where
  on_stack : Trapframe → Frame
  of_env : ℕ → Frame

abbrev pub frame : Frame → Kernel → Trapframe
frame (on_stack t) k = t
frame (of_env e) k = (k.envs e).env_tf

abbrev pub set_tf : ℕ → Trapframe → Kernel → Kernel
set_tf e t k = set_env e (record (k.envs e) { env_tf = t }) k

abbrev pub with_eax : ℕ → Trapframe → Trapframe
with_eax r t = record t { tf_regs = record (t.tf_regs) { reg_eax = r } }

-- A frame on the stack is not used after the call.
abbrev pub set_eax : Frame → ℕ → M (Unit {0})
set_eax (on_stack t) r = pure tt
set_eax (of_env e) r = modify (λ k. set_tf e (with_eax r (k.envs e).env_tf) k)

abbrev pub uxstacktop : ℕ
uxstacktop = utop

-- Where the frame for the handler goes: below the one of a handler that faulted, with a word between
-- the two, or at the top of the exception stack. The size of a UTrapframe is 52.
abbrev pub fault_stack : ℕ → ℕ
fault_stack esp =
    if leb (uxstacktop - pgsize) esp && ltb esp uxstacktop
    then u32 (esp + 2 ^ 32 - 56)
    else uxstacktop - 52

abbrev pub utrapframe : ℕ → Trapframe → UTrapframe
utrapframe va t = record {
  utf_fault_va = va;
  utf_err = t.tf_err;
  utf_regs = t.tf_regs;
  utf_eip = t.tf_eip;
  utf_eflags = t.tf_eflags;
  utf_esp = t.tf_esp;
}

-- From the test for an upcall on, for a fault in user mode of the environment c.
unfoldable pub call_handler : Machine → Frame → ℕ → M (Unit {0})
unfolding user_mem_assert
call_handler hw tf c k =
    if (k.envs c).env_pgfault_upcall == 0
    then env_destroy c k
    else (do
      user_mem_assert c (uxstacktop - pgsize) pgsize pte_w
      stack ← gets (λ k. fault_stack (frame tf k).tf_esp)
      user_mem_assert c stack 52 pte_w
      modify (λ k. record k { mem = hw.store_frame k stack (utrapframe hw.cr2 (frame tf k)) })
      modify (λ k. set_tf c (record ((k.envs c).env_tf) { tf_esp = stack }) k)
      modify
          (λ k. set_tf c (record ((k.envs c).env_tf) { tf_eip = (k.envs c).env_pgfault_upcall }) k))
        k

unfoldable pub page_fault_handler : Machine → Frame → M (Unit {0})
unfolding call_handler
page_fault_handler hw tf k =
    if (frame tf k).tf_cs % 4 == 0
    then (if leb ulim hw.cr2 then panic else (the_curenv >>= λ c. env_destroy c)) k
    else (the_curenv >>= λ c. call_handler hw tf c) k

unfoldable pub handle_syscall : Machine → OtherCalls → Frame → PushRegs → M (Unit {0})
handle_syscall hw others tf regs =
    syscall hw others regs.reg_eax regs.reg_edx regs.reg_ecx regs.reg_ebx regs.reg_edi regs.reg_esi
    >>= set_eax tf

-- The acknowledgements to the interrupt controllers are not part of the state. No command leaves the
-- monitor.
unfoldable pub trap_dispatch : Machine → OtherCalls → Frame → M (Unit {0})
unfolding page_fault_handler handle_syscall time_tick cons_intr
trap_dispatch hw others tf k =
    let t = frame tf k in
    if t.tf_trapno == 14
    then page_fault_handler hw tf k
    else if t.tf_trapno == 3
    then monitored k
    else if t.tf_trapno == 48
    then handle_syscall hw others tf t.tf_regs k
    else if t.tf_trapno == 39
    then returned tt k
    else if t.tf_trapno == 32
    then ((if k.cpunum == 0 then time_tick else pure tt) >> sched_yield) k
    else if t.tf_trapno == 33
    then returned tt (record k { cons = cons_intr hw.kbd k.cons })
    else if t.tf_trapno == 36
    then returned tt (record k { cons = cons_intr hw.serial k.cons })
    else if t.tf_cs == 0x08
    then panicked
    else (the_curenv >>= λ c. env_destroy c) k

-- spin_lock stops a CPU that holds the lock.
abbrev pub lock_kernel : M (Unit {0})
lock_kernel k =
    if k.kernel_locked then panicked else returned tt (record k { kernel_locked = true })

-- The CPU was halted in sched_halt.
abbrev pub wake : M (Unit {0})
wake k = if k.cpu_halted then lock_kernel (record k { cpu_halted = false }) else returned tt k

-- A dying environment is freed here; another gets the frame.
unfoldable pub enter_from_user : Trapframe → ℕ → M Frame
enter_from_user t c k =
    if status_eq (k.envs c).env_status dying
    then (env_free c >>= λ _ k'. sched_yield (record k' { curenv = none })) k
    else returned (of_env c) (set_tf c t k)

unfoldable pub enter : Trapframe → M Frame
unfolding enter_from_user
enter t =
    if t.tf_cs % 4 == 3
    then (lock_kernel >> the_curenv >>= λ c. enter_from_user t c)
    else pure (on_stack t)

-- Back to the environment if it is still running, or on to another.
abbrev pub leave_to : Option ℕ → M (Unit {0})
leave_to none k = sched_yield k
leave_to (some c) k = if status_eq (k.envs c).env_status running then env_run c k else sched_yield k

abbrev pub leave : M (Unit {0})
leave k = leave_to k.curenv k

unfoldable pub come_in : Machine → Trapframe → M Frame
unfolding enter
come_in hw t = wake >> require (not hw.interrupts_on) >> enter t

unfoldable pub trap : Machine → OtherCalls → Trapframe → M (Unit {0})
trap hw others t k =
    if hw.panicstr then halted k else (come_in hw t >>= λ tf. trap_dispatch hw others tf >> leave) k
