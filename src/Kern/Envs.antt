-- ===== src/Kern/Envs.antt =====
-- The environments of mit-6.828/lab/kern/env.c: envid2env, env_init, env_setup_vm, env_alloc,
-- env_free and env_run, and region_alloc.
pub mod Ids
pub mod Alloc
pub mod Init
use papers_annotation.Prelude.{
  ℕ, zero, suc, ◌+◌, ◌-◌, ◌*◌, ◌/◌, ◌%◌, ◌^◌, Option, none, some, Bool, true, false, not, ◌&&◌,
  ◌||◌, ltb, leb, ◌==◌, if◌then◌else◌, bit_or,
}
use papers_annotation.Prelude.Int.{ℤ, pos, negsuc, is_neg}
use papers_annotation.Mmu.{
  u32, pgsize, pdx, pte_addr, pte_p, pte_w, pte_u, uvpt, utop, ustacktop, pgaddr, test_bit,
  rounddown, roundup, e_bad_env, e_no_mem, e_no_free_env, user_data_selector, user_text_selector,
  fl_if, nenv, envx,
}
use papers_annotation.Kern.State.{
  PushRegs, Trapframe, EnvStatus, free, running, runnable, EnvType, user, Env, Kernel, M, Outcome,
  returned, panicked, resumed, update, pure, panic, bind, ◌>>=◌, ◌>>◌, gets, modify, require,
  set_env,
}
use papers_annotation.Kern.Pages.{page2pa, kaddr, pa2page, page_alloc, page_decref, pp_incref}
use papers_annotation.Kern.Pgdir.{Slot, load, store, page_insert, page_remove, pgdir_of}

abbrev pub status_eq : EnvStatus → EnvStatus → Bool
status_eq free free = true
status_eq EnvStatus.dying EnvStatus.dying = true
status_eq runnable runnable = true
status_eq running running = true
status_eq EnvStatus.not_runnable EnvStatus.not_runnable = true
status_eq _ _ = false

-- `e == curenv`
abbrev pub is_curenv : Kernel → ℕ → Bool
is_curenv k e = elim k.curenv [ none ↦ false | some c ↦ e == c ]

-- The test behind `checkperm`; without a current environment its id is read through NULL.
unfoldable pub may_manage : Kernel → ℕ → M Bool
may_manage k e = if is_curenv k e then pure true else elim k.curenv [
  | none ↦ panic
  | some c ↦ pure ((k.envs e).env_parent_id == (k.envs c).env_id)
]

-- The result, and what is stored through `env_store`.
unfoldable pub envid2env : ℕ → Bool → M (ℤ × Option ℕ)
unfolding may_manage
envid2env envid checkperm k =
    let e = envx envid in
    if envid == 0
    then returned (pos 0, k.curenv) k
    else if status_eq (k.envs e).env_status free || not ((k.envs e).env_id == envid)
    then returned (e_bad_env, none) k
    else if checkperm
    then (may_manage k e >>= elim [ true ↦ pure (pos 0, some e) | false ↦ pure (e_bad_env, none) ])
        k
    else returned (pos 0, some e) k

abbrev pub unlinked : Option ℕ → Env → Env
unlinked link e = record e { env_id = 0; env_status = free; env_link = link }

-- The loop of env_init, from the last environment down to the first.
unfoldable pub env_init_from : ℕ → M (Unit {0})
env_init_from zero = pure tt
env_init_from (suc i) =
    (do
      modify (λ k. set_env i (unlinked k.env_free_list (k.envs i)) k)
      modify (λ k. record k { env_free_list = some i }))
    >> env_init_from i

-- The segment registers that env_init_percpu then loads are not part of the state.
unfoldable pub env_init : M (Unit {0})
env_init = env_init_from nenv

-- The page directory of a new environment: the kernel's, but for the slot of UVPT.
abbrev pub new_pgdir : (ℕ → ℕ) → ℕ → ℕ → ℕ
new_pgdir kern p = update kern (pdx uvpt) (bit_or (bit_or (page2pa p) pte_p) pte_u)

unfoldable pub env_setup_vm : ℕ → M ℤ
unfolding page_alloc kaddr pp_incref
env_setup_vm e = page_alloc 1 >>= elim [
  | none ↦ pure e_no_mem
  | some p ↦ (do
    pgdir ← kaddr (page2pa p)
    modify (λ k. set_env e (record (k.envs e) { env_pgdir = some pgdir }) k)
    pp_incref p
    modify (λ k. record k { mem = update k.mem pgdir (new_pgdir (k.mem k.kern_pgdir) pgdir) })
    pure (pos 0))
]

-- The id of the next environment in slot `i`: an int32_t, its generation raised by one.
abbrev pub next_generation : ℕ → ℕ
next_generation id =
    let generation = u32 (id + 2 ^ 12) / 1024 * 1024 in
    if generation == 0 || leb (2 ^ 31) generation then 2 ^ 12 else generation

unfoldable pub next_env_id : ℕ → ℕ → ℕ
next_env_id id i = bit_or (next_generation id) i

abbrev pub zero_regs : PushRegs
zero_regs = record {
  reg_edi = 0;
  reg_esi = 0;
  reg_ebp = 0;
  reg_oesp = 0;
  reg_ebx = 0;
  reg_edx = 0;
  reg_ecx = 0;
  reg_eax = 0;
}

abbrev pub fresh_tf : Trapframe
fresh_tf = record {
  tf_regs = zero_regs;
  tf_es = user_data_selector;
  tf_ds = user_data_selector;
  tf_trapno = 0;
  tf_err = 0;
  tf_eip = 0;
  tf_cs = user_text_selector;
  tf_eflags = fl_if;
  tf_esp = ustacktop;
  tf_ss = user_data_selector;
}

-- What env_alloc writes into the environment after its page directory is set.
abbrev pub fresh_env : ℕ → ℕ → Env → Env
fresh_env i parent_id e = record e {
  env_id = next_env_id e.env_id i;
  env_parent_id = parent_id;
  env_type = user;
  env_status = runnable;
  env_runs = 0;
  env_tf = fresh_tf;
  env_pgfault_upcall = 0;
  env_ipc_recving = false;
}

-- What env_alloc does with the head of the free list, and with env_setup_vm's result.
unfoldable pub commit_env : ℕ → ℕ → ℤ → M (ℤ × Option ℕ)
commit_env e parent_id r = if is_neg r then pure (r, none) else (do
  modify (λ k. set_env e (fresh_env e parent_id (k.envs e)) k)
  modify (λ k. record k { env_free_list = (k.envs e).env_link })
  pure (pos 0, some e))

unfoldable pub take_env : ℕ → Option ℕ → M (ℤ × Option ℕ)
unfolding env_setup_vm commit_env
take_env parent_id none = pure (e_no_free_env, none)
take_env parent_id (some e) = env_setup_vm e >>= commit_env e parent_id

unfoldable pub env_alloc : ℕ → M (ℤ × Option ℕ)
unfolding take_env
env_alloc parent_id k = take_env parent_id k.env_free_list k

-- One page of region_alloc.
unfoldable pub region_page : ℕ → ℕ → M (Unit {0})
unfolding page_alloc page_insert
region_page pgdir va = page_alloc 1 >>= elim [
  | none ↦ panic
  | some pp ↦ (do r ← page_insert pgdir pp va (bit_or pte_u pte_w); require (not (is_neg r)))
]

unfoldable pub region_from : ℕ → ℕ → ℕ → M (Unit {0})
region_from zero pgdir va = pure tt
region_from (suc rounds) pgdir va = region_page pgdir va >> region_from rounds pgdir (va + pgsize)

-- From the page of `va` up to the page end of `va + len`.
unfoldable pub region_alloc : ℕ → ℕ → ℕ → M (Unit {0})
unfolding pgdir_of
region_alloc e va len = do
  pgdir ← (λ k. pgdir_of (k.envs e) k)
  region_from ((roundup (u32 (va + len)) pgsize - rounddown va pgsize) / pgsize) pgdir
      (rounddown va pgsize)

-- The inner loop of env_free: `rounds` entries are left from `pteno` on.
unfoldable pub unmap_table_from : ℕ → ℕ → ℕ → ℕ → ℕ → M (Unit {0})
unmap_table_from zero pgdir pt pdeno pteno = pure tt
unmap_table_from (suc rounds) pgdir pt pdeno pteno =
    (do
      pte ← load (record { frame = pt; index = pteno })
      if test_bit pte 0 then page_remove pgdir (pgaddr pdeno pteno 0) else pure tt)
    >> unmap_table_from rounds pgdir pt pdeno (pteno + 1)

-- The body of the outer loop: unmap a table's pages, clear its directory entry, and free it.
unfoldable pub free_table : ℕ → ℕ → M (Unit {0})
unfolding kaddr pa2page page_decref unmap_table_from
free_table pgdir pdeno = do
  pde ← load (record { frame = pgdir; index = pdeno })
  if test_bit pde 0
      then (do
        pt ← kaddr (pte_addr pde)
        unmap_table_from 1024 pgdir pt pdeno 0
        store (record { frame = pgdir; index = pdeno }) 0
        pp ← pa2page (pte_addr pde)
        page_decref pp)
      else pure tt

unfoldable pub free_tables_from : ℕ → ℕ → ℕ → M (Unit {0})
free_tables_from zero pgdir pdeno = pure tt
free_tables_from (suc rounds) pgdir pdeno =
    free_table pgdir pdeno >> free_tables_from rounds pgdir (pdeno + 1)

unfoldable pub env_free : ℕ → M (Unit {0})
unfolding free_tables_from pgdir_of page_decref pa2page
env_free e = do
  modify (λ k. if is_curenv k e then record k { cr3 = k.kern_pgdir } else k)
  pgdir ← (λ k. pgdir_of (k.envs e) k)
  free_tables_from (pdx utop) pgdir 0
  modify (λ k. set_env e (record (k.envs e) { env_pgdir = none }) k)
  pp ← pa2page (page2pa pgdir)
  page_decref pp
  modify (λ k. set_env e (record (k.envs e) { env_status = free; env_link = k.env_free_list }) k)
  modify (λ k. record k { env_free_list = some e })

-- curenv's status goes back to ENV_RUNNABLE if it is ENV_RUNNING.
abbrev pub preempt : Kernel → Kernel
preempt k = elim k.curenv [
  | none ↦ k
  | some c ↦
      if status_eq (k.envs c).env_status running
      then set_env c (record (k.envs c) { env_status = runnable }) k
      else k
]

-- The rest of env_run, in the address space of the directory: unlock_kernel and env_pop_tf, which
-- does not return.
abbrev pub resume : {A : Type 0} → ℕ → ℕ → M A
resume e pgdir k = resumed e (record k {
  cr3 = pgdir;
  kernel_locked = false;
  envs = update k.envs e (record (k.envs e) { env_cpunum = k.cpunum });
})

-- The environment that the CPU goes on with, marked as running.
abbrev pub entered : ℕ → Kernel → Kernel
entered e k = record k {
  curenv = some e;
  envs =
      update k.envs e
        (record (k.envs e) { env_status = running; env_runs = u32 ((k.envs e).env_runs + 1) });
}

unfoldable pub env_run : ℕ → {A : Type 0} → M A
unfolding pgdir_of
env_run e k = let k1 = entered e (preempt k) in bind (pgdir_of (k1.envs e) k1) (resume e)
