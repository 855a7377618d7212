-- ===== src/Kern/Trap/Tests.antt =====
-- Traps of an environment on the small machine, for the theorems on mit-6.828/lab/kern/trap.c.
use papers_annotation.Prelude.{
  ℕ, ◌+◌, ◌/◌, ◌%◌, ◌≡◌, refl, arith, some, false, ◌==◌, ◌&&◌, if◌then◌else◌, [],
}
use papers_annotation.Mmu.{e_inval}
use papers_annotation.Kern.State.{Trapframe, Kernel, returned, resumed, set_env}
use papers_annotation.Kern.Envs.{fresh_tf}
use papers_annotation.Kern.Pgdir.UserMem.{HasTables}
use papers_annotation.Kern.Tests.{small}
use papers_annotation.Kern.Syscall.{sys_getenvid}
use papers_annotation.Kern.Dispatch.{UTrapframe, Machine, OtherCalls, syscall}
use papers_annotation.Kern.Trap.{with_eax, utrapframe, trap}
use papers_annotation.Kern.Trap.Return.{FromUser, came_in, trap-syscall}
use papers_annotation.Kern.Trap.Fault.{Fits, trap-page_fault}

-- The exception stack is page 3, by word 1023 of the table in page 2; the frame's first two words are
-- stored.
abbrev put_frame : Kernel → ℕ → UTrapframe → ℕ → ℕ → ℕ
put_frame k s f p j =
    if p == 3 && j == s % 4096 / 4
    then f.utf_fault_va
    else if p == 3 && j == s % 4096 / 4 + 1
    then f.utf_err
    else k.mem p j

abbrev hardware : Machine
hardware = record {
  cr2 = 0x1234;
  interrupts_on = false;
  panicstr = false;
  serial = [];
  kbd = [];
  trapframe_at = λ k a. fresh_tf;
  store_frame = put_frame;
}

abbrev no_calls : OtherCalls
no_calls = record {
  e1000_transmit = λ a n k. returned e_inval k;
  e1000_receive = λ a n k. returned e_inval k;
  sys_exec = λ a n k. returned e_inval k;
}

-- The small machine with an exception stack and an upcall for environment 0, in user mode.
abbrev ready : Kernel
ready =
    set_env 0 (record (small.envs 0) { env_pgfault_upcall = 0x800100 })
      (record small {
        kernel_locked = false;
        mem = λ p j.
            if p == 1 && j == 954
            then 0x2007
            else if p == 2 && j == 1023
            then 0x3007
            else small.mem p j;
      })

abbrev from : ℕ → ℕ → Trapframe
from trapno esp = with_eax 2 (record fresh_tf { tf_cs = 0x1B; tf_trapno = trapno; tf_esp = esp })

ready-FromUser : (trapno esp : ℕ) → FromUser hardware (from trapno esp) ready 0
ready-FromUser trapno esp = record {
  no_panic = refl;
  masked = refl;
  awake = refl;
  unlocked = refl;
  user_mode = refl;
  current = refl;
  alive = refl;
}

getenvid_call :
    syscall hardware no_calls 2 0 0 0 0 0 (came_in 0 (from 48 0xeebfe000) ready)
    ≡ returned 0x1000 (came_in 0 (from 48 0xeebfe000) ready)
unfolding syscall sys_getenvid
getenvid_call = refl

-- sys_getenvid.
trap-syscall_example :
    (k' : Kernel) × (trap hardware no_calls (from 48 0xeebfe000) ready ≡ resumed 0 k')
    × ((k'.envs 0).env_tf ≡ with_eax 0x1000 (from 48 0xeebfe000))
    × (k'.cr3 ≡ 1)
    × (k'.kernel_locked ≡ false)
    × (k'.curenv ≡ some 0)
    × (k'.mem ≡ ready.mem)
trap-syscall_example =
    trap-syscall hardware no_calls (from 48 0xeebfe000) ready 0 (ready-FromUser 48 0xeebfe000) refl
      0x1000 (came_in 0 (from 48 0xeebfe000) ready) 1 getenvid_call refl refl refl

ready-HasTables : HasTables ready 1
ready-HasTables va h = ground arith

-- A fault of the handler itself.
trap-page_fault_example :
    (k' : Kernel) × (s : ℕ) × (trap hardware no_calls (from 14 0xeebfff00) ready ≡ resumed 0 k')
    × Fits 0xeebfff00 s
    × ((k'.envs 0).env_tf ≡ record (from 14 0xeebfff00) { tf_esp = s; tf_eip = 0x800100 })
    × (k'.mem
        ≡ put_frame
            (came_in 0 (from 14 0xeebfff00) ready)
            s
            (utrapframe 0x1234 (from 14 0xeebfff00)))
    × (k'.cr3 ≡ 1)
    × (k'.kernel_locked ≡ false)
    × (k'.curenv ≡ some 0)
trap-page_fault_example =
    trap-page_fault hardware no_calls (from 14 0xeebfff00) ready 0 1 (ready-FromUser 14 0xeebfff00)
      refl refl refl (omega arith) ready-HasTables refl (ground arith)
