-- ===== src/Kern/State.antt =====
-- The kernel's state, and the monad in which its functions are written: `struct PageInfo` of
-- mit-6.828/lab/inc/memlayout.h, `struct Env` of inc/env.h, `struct Trapframe` of inc/trap.h and the
-- global variables of kern/pmap.c and kern/env.c, as one CPU sees them.
use papers_annotation.Prelude.{ℕ, Bool, Option, List, if◌then◌else◌, ◌≡◌, ap}
use papers_annotation.Console.{Cons}
pub use papers_annotation.Prelude.{update}

-- A pointer into `pages` or `envs` is an index, and NULL is `none`.
pub record PageInfo : Type 0 where
  pub pp_link : Option ℕ
  pub pp_ref : ℕ

pub record PushRegs : Type 0 where
  pub reg_edi : ℕ
  pub reg_esi : ℕ
  pub reg_ebp : ℕ
  pub reg_oesp : ℕ
  pub reg_ebx : ℕ
  pub reg_edx : ℕ
  pub reg_ecx : ℕ
  pub reg_eax : ℕ

pub record Trapframe : Type 0 where
  pub tf_regs : PushRegs
  pub tf_es : ℕ
  pub tf_ds : ℕ
  pub tf_trapno : ℕ
  pub tf_err : ℕ
  pub tf_eip : ℕ
  pub tf_cs : ℕ
  pub tf_eflags : ℕ
  pub tf_esp : ℕ
  pub tf_ss : ℕ

pub data EnvStatus : Type 0 where
  free dying runnable running not_runnable : EnvStatus

pub data EnvType : Type 0 where
  user fs ns : EnvType

-- An `envid_t` is its 32-bit pattern; `env_pgdir` is the number of the directory's page.
pub record Env : Type 0 where
  pub env_tf : Trapframe
  pub env_link : Option ℕ
  pub env_id : ℕ
  pub env_parent_id : ℕ
  pub env_type : EnvType
  pub env_status : EnvStatus
  pub env_runs : ℕ
  pub env_cpunum : ℕ
  pub env_pgdir : Option ℕ
  pub env_pgfault_upcall : ℕ
  pub env_ipc_recving : Bool
  pub env_ipc_dstva : ℕ
  pub env_ipc_value : ℕ
  pub env_ipc_from : ℕ
  pub env_ipc_perm : ℕ

-- `mem p j` is the 32-bit word j of the physical page p. `cr3` is the page of the directory in
-- force, `invlpgs` the addresses flushed from the TLB, newest first.
pub record Kernel : Type 0 where
  pub npages : ℕ
  pub pages : ℕ → PageInfo
  pub page_free_list : Option ℕ
  pub mem : ℕ → ℕ → ℕ
  pub kern_pgdir : ℕ
  pub envs : ℕ → Env
  pub env_free_list : Option ℕ
  pub curenv : Option ℕ
  pub cpunum : ℕ
  pub cr3 : ℕ
  pub invlpgs : List ℕ
  pub kernel_locked : Bool
  pub cpu_halted : Bool
  pub npages_basemem : ℕ
  pub nextfree : ℕ
  pub mmio_base : ℕ
  pub user_mem_check_addr : ℕ
  pub ticks : ℕ
  pub cons : Cons

-- How a call ends: it returns; it panics; or it never returns, since the CPU goes on in user mode
-- in an environment, halts, or stays in the monitor.
pub data Outcome (A : Type 0) : Type 0 where
  returned : A → Kernel → Outcome A
  panicked : Outcome A
  resumed : ℕ → Kernel → Outcome A
  halted : Kernel → Outcome A
  monitored : Kernel → Outcome A

abbrev pub M : Type 0 → Type 0
M A = Kernel → Outcome A

abbrev pub pure : {A : Type 0} → A → M A
pure a k = returned a k

abbrev pub panic : {A : Type 0} → M A
panic k = panicked

abbrev pub bind : {A B : Type 0} → Outcome A → (A → M B) → Outcome B
bind (returned a k) f = f a k
bind panicked f = panicked
bind (resumed e k) f = resumed e k
bind (halted k) f = halted k
bind (monitored k) f = monitored k

infixl 5 ◌>>=◌ ◌>>◌
abbrev pub ◌>>=◌ : {A B : Type 0} → M A → (A → M B) → M B
◌>>=◌ m f k = bind (m k) f

abbrev pub ◌>>◌ : {B : Type 0} → M (Unit {0}) → M B → M B
m >> n = m >>= λ _. n

abbrev pub gets : {A : Type 0} → (Kernel → A) → M A
gets f k = returned (f k) k

abbrev pub modify : (Kernel → Kernel) → M (Unit {0})
modify f k = returned tt (f k)

-- One step of a do block that returns.
pub bind-returned :
    {A B : Type 0} (m : M A) (f : A → M B) (a : A) (k k' : Kernel)
    → m k ≡ returned a k'
    → (m >>= f) k ≡ f a k'
bind-returned m f a k k' h = ap (λ o. bind o f) h

-- `assert`, and the tests after which the kernel panics.
abbrev pub require : Bool → M (Unit {0})
require b = if b then pure tt else panic

abbrev pub set_page : ℕ → PageInfo → Kernel → Kernel
set_page p v k = record k { pages = update k.pages p v }

abbrev pub set_env : ℕ → Env → Kernel → Kernel
set_env e v k = record k { envs = update k.envs e v }
