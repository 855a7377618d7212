-- ===== src/Kern.antt =====
-- The kernel of mit-6.828/lab/kern: physical pages, page tables, environments, the scheduler, the
-- system calls and traps, over one state.
pub mod State
pub mod Pages
pub mod Pgdir
pub mod Envs
pub mod Sched
pub mod Syscall
pub mod Dispatch
pub mod Trap
mod Tests
