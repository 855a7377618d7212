-- ===== src/Kern/Dispatch.antt =====
-- The dispatch of system calls in mit-6.828/lab/kern/syscall.c, and the clock of kern/time.c.
use papers_annotation.Prelude.{ℕ, ◌+◌, ◌-◌, ◌*◌, ◌^◌, Bool, ltb, ◌==◌, if◌then◌else◌, List}
use papers_annotation.Prelude.Int.{ℤ, pos, negsuc}
use papers_annotation.Mmu.{u32, pte_u, e_inval}
use papers_annotation.Console.{cons_getc}
use papers_annotation.Kern.State.{
  PushRegs, Trapframe, Kernel, M, returned, panicked, pure, ◌>>=◌, ◌>>◌, gets,
}
use papers_annotation.Kern.Syscall.{
  the_curenv, user_mem_assert, sys_getenvid, sys_env_destroy, sys_yield, sys_exofork,
  sys_env_set_status, sys_env_set_trapframe, sys_env_set_pgfault_upcall, sys_page_alloc,
  sys_page_map, sys_page_unmap, sys_ipc_try_send, sys_ipc_recv,
}

pub record UTrapframe : Type 0 where
  pub utf_fault_va : ℕ
  pub utf_err : ℕ
  pub utf_regs : PushRegs
  pub utf_eip : ℕ
  pub utf_eflags : ℕ
  pub utf_esp : ℕ

-- What the hardware gives: the faulting address in %cr2, whether interrupts are on, the characters that
-- the devices have to deliver, and the CPU's accesses through the page tables in force, which read a
-- trap frame and store one. `panicstr` is set by a panic of another CPU.
pub record Machine : Type 0 where
  pub cr2 : ℕ
  pub interrupts_on : Bool
  pub panicstr : Bool
  pub serial : List ℕ
  pub kbd : List ℕ
  pub trapframe_at : Kernel → ℕ → Trapframe
  pub store_frame : Kernel → ℕ → UTrapframe → ℕ → ℕ → ℕ

-- What the calls that are not modelled do: the driver of the network card, and exec.
pub record OtherCalls : Type 0 where
  pub e1000_transmit : ℕ → ℕ → M ℤ
  pub e1000_receive : ℕ → ℕ → M ℤ
  pub sys_exec : ℕ → ℕ → M ℤ

unfoldable pub time_tick : M (Unit {0})
time_tick k =
    let ticks = u32 (k.ticks + 1) in
    if ltb (u32 (ticks * 10)) ticks then panicked else returned tt (record k { ticks = ticks })

abbrev pub time_msec : Kernel → ℕ
time_msec k = u32 (k.ticks * 10)

-- A result in the register eax.
abbrev pub as_word : ℤ → ℕ
as_word (pos n) = u32 n
as_word (negsuc n) = u32 (2 ^ 32 - 1 - n)

abbrev pub in_eax : M ℤ → M ℕ
in_eax m = m >>= λ r. pure (as_word r)

-- The text goes to the screen, which is not part of the state.
unfoldable pub sys_cputs : ℕ → ℕ → M (Unit {0})
unfolding user_mem_assert
sys_cputs s len = do c ← the_curenv; user_mem_assert c s len pte_u

unfoldable pub sys_cgetc : Machine → M ℕ
unfolding cons_getc
sys_cgetc hw k =
    let (c, cons) = cons_getc hw.serial hw.kbd k.cons in returned c (record k { cons = cons })

unfoldable pub sys_net_send : OtherCalls → ℕ → ℕ → M ℤ
unfolding user_mem_assert
sys_net_send others buf size = do
  c ← the_curenv
  user_mem_assert c buf size pte_u
  others.e1000_transmit buf size

unfoldable pub sys_net_recv : OtherCalls → ℕ → ℕ → M ℤ
unfolding user_mem_assert
sys_net_recv others buf size = do
  c ← the_curenv
  user_mem_assert c buf size pte_u
  others.e1000_receive buf size

module _ (hw : Machine) (others : OtherCalls) where
  unfoldable pub syscall : ℕ → ℕ → ℕ → ℕ → ℕ → ℕ → M ℕ
  syscall syscallno a1 a2 a3 a4 a5 =
      if syscallno == 0
      then sys_cputs a1 a2 >> pure 0
      else if syscallno == 1
      then sys_cgetc hw
      else if syscallno == 2
      then sys_getenvid
      else if syscallno == 3
      then in_eax (sys_env_destroy a1)
      else if syscallno == 11
      then sys_yield >> pure 0
      else if syscallno == 7
      then in_eax sys_exofork
      else if syscallno == 8
      then in_eax (sys_env_set_status a1 a2)
      else if syscallno == 9
      then in_eax (sys_env_set_trapframe hw.trapframe_at a1 a2)
      else if syscallno == 10
      then in_eax (sys_env_set_pgfault_upcall a1 a2)
      else if syscallno == 4
      then in_eax (sys_page_alloc a1 a2 a3)
      else if syscallno == 5
      then in_eax (sys_page_map a1 a2 a3 a4 a5)
      else if syscallno == 6
      then in_eax (sys_page_unmap a1 a2)
      else if syscallno == 12
      then in_eax (sys_ipc_try_send a1 a2 a3 a4)
      else if syscallno == 13
      then in_eax (sys_ipc_recv a1)
      else if syscallno == 14
      then gets time_msec
      else if syscallno == 15
      then in_eax (sys_net_send others a1 a2)
      else if syscallno == 16
      then in_eax (sys_net_recv others a1 a2)
      else if syscallno == 17
      then in_eax (others.sys_exec a1 a2)
      else pure (as_word e_inval)
