-- ===== src/Kern/Syscall.antt =====
-- The system calls on environments and memory, and IPC, of mit-6.828/lab/kern/syscall.c. Arguments
-- are 32-bit words.
pub mod Errors
pub mod Delivery
pub mod Ipc
pub mod NewPage
pub mod Memory
pub mod Fork
use papers_annotation.Prelude.{
  ℕ, ◌+◌, ◌/◌, ◌%◌, ◌^◌, Option, none, some, Bool, true, false, not, ◌&&◌, ◌||◌, ltb, leb, ◌==◌,
  if◌then◌else◌, bit_and, bit_or,
}
use papers_annotation.Prelude.Int.{ℤ, pos, is_neg}
use papers_annotation.Mmu.{
  pgsize, pte_addr, pte_u, pte_not_syscall, utop, test_bit, e_inval, e_no_mem, e_ipc_not_recv,
  fl_if,
}
use papers_annotation.Kern.State.{
  PushRegs, Trapframe, EnvStatus, runnable, not_runnable, Env, Kernel, M, Outcome, returned,
  panicked, update, pure, panic, bind, ◌>>=◌, ◌>>◌, gets, modify, set_env,
}
use papers_annotation.Kern.Pages.{pa2page, page_alloc, page_free}
use papers_annotation.Kern.Pgdir.{
  Slot, load, pgdir_walk, page_insert, page_remove, pgdir_of, user_mem_check,
}
use papers_annotation.Kern.Envs.{envid2env, env_alloc}
use papers_annotation.Kern.Sched.{sched_yield, env_destroy}

-- curenv, read through NULL if there is none.
abbrev pub the_curenv : M ℕ
the_curenv k = elim k.curenv [ none ↦ panicked | some c ↦ returned c k ]

-- What follows envid2env: its error is returned, or the call goes on with the environment.
abbrev pub resolved : (ℕ → M ℤ) → ℤ × Option ℕ → M ℤ
resolved body (r, e) = if is_neg r then pure r else elim e [ none ↦ panic | some e' ↦ body e' ]

-- `if ((r = envid2env(envid, &e, checkperm)) < 0) return r;`, then the rest with `e`.
abbrev pub with_env : ℕ → Bool → (ℕ → M ℤ) → M ℤ
with_env envid checkperm body = envid2env envid checkperm >>= resolved body

abbrev pub directory : ℕ → M ℕ
directory e k = pgdir_of (k.envs e) k

-- user_mem_assert of pmap.c: on a failed check the environment is destroyed.
unfoldable pub user_mem_assert : ℕ → ℕ → ℕ → ℕ → M (Unit {0})
unfolding env_destroy
user_mem_assert e va len perm =
    (λ k. user_mem_check (k.envs e) va len (bit_or perm pte_u) k) >>= λ r.
    if is_neg r then env_destroy e else pure tt

unfoldable pub sys_getenvid : M ℕ
sys_getenvid = the_curenv >>= λ c. gets (λ k. (k.envs c).env_id)

unfoldable pub sys_env_destroy : ℕ → M ℤ
sys_env_destroy envid = with_env envid true λ e. env_destroy e >> pure (pos 0)

unfoldable pub sys_yield : M (Unit {0})
sys_yield = sched_yield

abbrev pub child_tf : Trapframe → Trapframe
child_tf tf = record tf { tf_regs = record (tf.tf_regs) { reg_eax = 0 } }

-- The id of the child, or an error.
unfoldable pub sys_exofork : M ℤ
sys_exofork = the_curenv >>= λ c k.
    (env_alloc (k.envs c).env_id >>= λ (r, e). if is_neg r then pure r else elim e [
      | none ↦ panic
      | some e' ↦ (do
        modify (λ k. set_env e' (record (k.envs e') { env_status = not_runnable }) k)
        modify (λ k. set_env e' (record (k.envs e') { env_tf = child_tf (k.envs c).env_tf }) k)
        gets (λ k. pos (k.envs e').env_id))
    ])
      k

-- ENV_RUNNABLE is 2 and ENV_NOT_RUNNABLE is 4.
unfoldable pub sys_env_set_status : ℕ → ℕ → M ℤ
sys_env_set_status envid status =
    if not (status == 2) && not (status == 4)
    then pure e_inval
    else with_env envid true λ e. do
      modify (λ k.
          set_env e
            (record (k.envs e) { env_status = if status == 2 then runnable else not_runnable }) k)
      pure (pos 0)

-- `*tf` is read by the CPU through the page tables in force: `trapframe_at` stands for that.
unfoldable pub sys_env_set_trapframe : (Kernel → ℕ → Trapframe) → ℕ → ℕ → M ℤ
sys_env_set_trapframe trapframe_at envid tf = with_env envid true λ e. do
  c ← the_curenv
  user_mem_assert c tf 68 pte_u
  modify (λ k.
      let t = trapframe_at k tf in
      set_env e
        (record (k.envs e) {
          env_tf = record t { tf_cs = bit_or (t.tf_cs) 3; tf_eflags = bit_or (t.tf_eflags) fl_if };
        })
        k)
  pure (pos 0)

unfoldable pub sys_env_set_pgfault_upcall : ℕ → ℕ → M ℤ
sys_env_set_pgfault_upcall envid func = with_env envid true λ e. do
  modify (λ k. set_env e (record (k.envs e) { env_pgfault_upcall = func }) k)
  pure (pos 0)

-- `va >= UTOP || va % PGSIZE`
abbrev pub bad_va : ℕ → Bool
bad_va va = leb utop va || not (va % pgsize == 0)

-- `(perm & ~(PTE_SYSCALL | PTE_SHARE)) || !(perm & PTE_U)`
abbrev pub bad_perm : ℕ → Bool
bad_perm perm = not (bit_and perm pte_not_syscall == 0) || not (test_bit perm 2)

-- Map the page that page_alloc returned; it is freed if that fails.
unfoldable pub insert_new : ℕ → ℕ → ℕ → Option ℕ → M ℤ
insert_new e va perm none = pure e_no_mem
insert_new e va perm (some pp) = do
  pgdir ← directory e
  r ← page_insert pgdir pp va perm
  if is_neg r then (page_free pp >> pure r) else pure (pos 0)

unfoldable pub sys_page_alloc : ℕ → ℕ → ℕ → M ℤ
unfolding insert_new
sys_page_alloc envid va perm =
    if bad_va va
    then pure e_inval
    else if bad_perm perm
    then pure e_inval
    else with_env envid true λ e. page_alloc 1 >>= insert_new e va perm

-- The page table entry for `va` in the directory, if it is present and, for a mapping that is to be
-- writable, writable.
unfoldable pub source_pte : ℕ → ℕ → ℕ → M (Option ℕ)
source_pte pgdir va perm = pgdir_walk pgdir va false >>= elim [
  | none ↦ pure none
  | some slot ↦ (do
    pte ← load slot
    if not (test_bit pte 0)
        then pure none
        else if test_bit perm 1 && not (test_bit pte 1)
        then pure none
        else pure (some pte))
]

unfoldable pub sys_page_map : ℕ → ℕ → ℕ → ℕ → ℕ → M ℤ
unfolding source_pte
sys_page_map srcenvid srcva dstenvid dstva perm =
    if bad_va srcva
    then pure e_inval
    else if bad_va dstva
    then pure e_inval
    else if bad_perm perm
    then pure e_inval
    else with_env srcenvid true λ srcenv. with_env dstenvid true λ dstenv.
      directory srcenv >>= λ srcdir. source_pte srcdir srcva perm >>= elim [
        | none ↦ pure e_inval
        | some pte ↦ (do
          pp ← pa2page (pte_addr pte)
          dstdir ← directory dstenv
          r ← page_insert dstdir pp dstva perm
          if is_neg r then pure r else pure (pos 0))
      ]

unfoldable pub sys_page_unmap : ℕ → ℕ → M ℤ
sys_page_unmap envid va =
    if bad_va va
    then pure e_inval
    else with_env envid true λ e. do pgdir ← directory e; page_remove pgdir va; pure (pos 0)

-- What a send changes in the receiver before the page is mapped.
abbrev pub received : ℕ → ℕ → Env → Env
received sender value e = record e {
  env_ipc_from = sender;
  env_ipc_value = value;
  env_ipc_recving = false;
  env_status = runnable;
}

abbrev pub set_ipc_perm : ℕ → ℕ → M ℤ
set_ipc_perm e perm = do
  modify (λ k. set_env e (record (k.envs e) { env_ipc_perm = perm }) k)
  pure (pos 0)

-- The second half of sys_ipc_try_send: the receiver's fields, and the page if both sides want one.
-- `pte` is the sender's page table entry, if `srcva` is below UTOP.
unfoldable pub deliver : ℕ → ℕ → ℕ → Option ℕ → M ℤ
deliver e value perm pte = do
  c ← the_curenv
  modify (λ k. set_env e (received (k.envs c).env_id value (k.envs e)) k)
  dstva ← gets (λ k. (k.envs e).env_ipc_dstva)
  elim pte [
    | none ↦ set_ipc_perm e 0
    | some entry ↦
        if ltb dstva utop
        then (do
          pgdir ← directory e
          pp ← pa2page (pte_addr entry)
          r ← page_insert pgdir pp dstva perm
          if is_neg r then pure r else set_ipc_perm e perm)
        else set_ipc_perm e 0
  ]

unfoldable pub sys_ipc_try_send : ℕ → ℕ → ℕ → ℕ → M ℤ
unfolding deliver source_pte
sys_ipc_try_send envid value srcva perm = with_env envid false λ e k.
    if not ((k.envs e).env_ipc_recving)
    then returned e_ipc_not_recv k
    else (if ltb srcva utop
          then (if not (srcva % pgsize == 0)
              then pure e_inval
              else if bad_perm perm
              then pure e_inval
              else (do
                c ← the_curenv
                srcdir ← directory c
                pte ← source_pte srcdir srcva perm
                elim pte [ none ↦ pure e_inval | some found ↦ deliver e value perm (some found) ]))
          else deliver e value perm none)
        k

-- On success the call does not return here: it ends in the scheduler.
unfoldable pub sys_ipc_recv : ℕ → M ℤ
sys_ipc_recv dstva = if ltb dstva utop && not (dstva % pgsize == 0) then pure e_inval else (do
  c ← the_curenv
  modify (λ k. set_env c (record (k.envs c) { env_ipc_recving = true }) k)
  modify (λ k. set_env c (record (k.envs c) { env_ipc_dstva = dstva }) k)
  modify (λ k. set_env c (record (k.envs c) { env_status = not_runnable }) k)
  sched_yield)
