-- ===== src/Lib.antt =====
-- The teaching operating system JOS of mit-6.828/lab: its kernel as a machine over one state, parts
-- of the library that kernel and user programs share, the driver of its network card and the
-- reading of its file system, and a routine of the web server of 6.858-2012FA/lab, with theorems
-- about them.
--
-- The kernel (mit-6.828/lab/kern) keeps the physical memory as pages with a free list, builds two-
-- level page tables in those pages, runs environments in the address spaces that the tables
-- describe, and offers system calls on both. A trap enters it, a system call works on the state,
-- and the scheduler leaves it for the next environment. The file system server (mit-6.828/lab/fs)
-- is one such environment; it keeps the disk mapped into its memory, and gets its requests by IPC.
--
-- Files, and what each is about:
-- - Prelude: names of the libraries, Boolean tests, lists, and bit operations on words.
-- - Mmu: the constants and macros of mit-6.828/lab/inc/mmu.h, inc/memlayout.h, inc/types.h and
--     inc/error.h.
-- - Kern.State: PageInfo, Env and Trapframe, the kernel's variables as one record, and the monad
--     of kernel functions.
-- - Kern.Pages: boot_alloc, page_init, page_alloc, page_free and page_decref of kern/pmap.c, with
--     the free list as the abstract view (Kern.Pages.Allocator).
-- - Kern.Pgdir: pgdir_walk, page_lookup, page_insert, page_remove, boot_map_region,
--     mmio_map_region and user_mem_check of kern/pmap.c.
-- - Kern.Envs: envid2env, env_init, env_setup_vm, env_alloc, region_alloc, env_free and env_run of
--     kern/env.c.
-- - Kern.Sched: sched_yield and sched_halt of kern/sched.c, and env_destroy of kern/env.c.
-- - Kern.Syscall: the calls on environments, on memory and for IPC of kern/syscall.c.
-- - Kern.Dispatch: the dispatcher of kern/syscall.c with its console, time and network calls, and
--     kern/time.c.
-- - Kern.Trap: trap, trap_dispatch and page_fault_handler of kern/trap.c; Kern.Trap.Return and
--     Kern.Trap.Fault are the way back to the environment after a call and after a fault.
-- - E1000: the network card's driver, kern/e1000.c, and the card.
-- - Strings: strcmp, strlcpy, memset, memmove, memcmp, memfind and strtol of
--     mit-6.828/lab/lib/string.c; Strings.Text is its other routines.
-- - Print: printnum of lib/printfmt.c; Print.Format is vprintfmt and vsnprintf, with the formats
--     of Print.Format.Pieces as their specification.
-- - Debug: stab_binsearch of kern/kdebug.c.
-- - Spinlock: the lock of kern/spinlock.c, as any number of CPUs run it.
-- - Pipe: devpipe_read and devpipe_write of lib/pipe.c, as two processes run them.
-- - FileDescriptors: the descriptors of lib/fd.c, as mappings of pages that two numbers can share.
-- - Args: the parser of command-line flags of lib/args.c.
-- - Console: the input buffer of kern/console.c.
-- - Http: url_decode of 6.858-2012FA/lab/http.c, the web server of the security labs.
-- - Fs: the block layer of fs/fs.c, diskaddr of fs/bc.c, and the bitmap that fs/fsformat.c writes;
--     Fs.Names is dir_lookup and walk_path, Fs.Read is file_read.
-- - Kern.Tests, Kern.Trap.Tests, E1000.Tests, Console.Tests, Strings.Tests, Print.Tests,
--     Print.Format.Tests, Debug.Tests, Spinlock.Tests, Pipe.Tests, FileDescriptors.Tests,
--     Args.Tests, Http.Tests and Fs.Tests: small states on which the theorems are applied.
--
-- A function of the kernel maps a state to an outcome: it returns a value and a new state, panics,
-- or never returns, because the CPU goes on in an environment, halts, or stays in the monitor. A
-- pointer into `pages` or `envs` is an index, and a page of memory is a function from word numbers
-- to words. Memory is reached through KERNBASE, so that the kernel's own accesses do not depend on
-- the tables that it edits; what the user's tables decide is user_mem_check, and what the CPU reads
-- or writes through them is an argument (sys_env_set_trapframe, and the frame that
-- page_fault_handler stores).
--
-- The kernel's functions are modelled as one CPU runs them that holds the big lock. The lock itself
-- and the pipe are shared, and the rings of the network card are shared with the card: each is a
-- system of places, one for each CPU, process or device, whose next access to the shared state is a
-- function, and a step relation lets them take their steps in any order. The lock's guarantee that
-- one CPU at a time is in the kernel is what the state of one CPU rests on.
--
-- A function of the file server returns or panics. Its state is the words of the disk map, so that
-- a pointer to a file's slot, the bitmap and a data block can meet, as they can in the source.
--
-- Numbers: words are natural numbers with the wrap-around of the source written out. An environment
-- id is its 32-bit pattern. Memory has at most 2 ^ 20 pages where page numbers are shifted to
-- addresses, which is all that 32 bits reach. Loops are structural recursion on the number of
-- rounds that the source makes, or on the string that they read; walk_path runs for at most as many
-- rounds as the path has bytes, and file_read for as many as it reads bytes; printnum recurses for
-- at most 64 digits, which a number of 64 bits does not exceed. stab_binsearch runs for at most two
-- rounds more than twice the number of entries, and vprintfmt for one round per character of the
-- format and one for its NUL; both are shown to be enough. readn makes at most as many reads as the
-- bytes that it is asked for. A width or precision that an int cannot hold is taken as it is
-- written, and arguments that do not fit the format have no result.
--
-- Not modelled: the start code and mem_init, load_icode, sys_exec, the devices but for the network
-- card, the drivers of the console, the monitor and debuginfo_eip; the requests of the file server;
-- the rest of the user library, and the network server; lwIP, which is another project's code; the
-- rest of the security labs of 6.858.
pub mod Prelude
pub mod Mmu
pub mod Kern
pub mod E1000
pub mod Debug
pub mod Spinlock
pub mod Console
pub mod Strings
pub mod Print
pub mod Pipe
pub mod FileDescriptors
pub mod Args
pub mod Http
pub mod Fs
