-- ===== src/Kern/Syscall/Ipc.antt =====
-- sys_ipc_try_send of mit-6.828/lab/kern/syscall.c: what a send does to the receiver.
use papers_annotation.Prelude.{
  ℕ, ◌%◌, ◌≤◌, ◌<◌, ◌≡◌, ◌≢◌, ◌⊎◌, refl, ◌∙◌, none, some, [], arith, true, false, not, ltb, ◌==◌,
  ◌&&◌, Bool-cases, inl, inr,
}
use papers_annotation.Prelude.Int.{ℤ, pos}
use papers_annotation.Mmu.{
  envx, utop, pgsize, pgnum, pte_addr, pdx, test_bit, e_inval, e_no_mem, e_ipc_not_recv,
}
use papers_annotation.Kern.State.{Kernel, returned, set_env, bind-returned}
use papers_annotation.Kern.Pages.{pa2page}
use papers_annotation.Kern.Pages.Allocator.{IsFreeList}
use papers_annotation.Kern.Pgdir.{page_insert}
use papers_annotation.Kern.Pgdir.Walk.{HasTable}
use papers_annotation.Kern.Pgdir.Insert.{pte_of, page_of}
use papers_annotation.Kern.Pgdir.Create.{page_insert_full}
use papers_annotation.Kern.Envs.Ids.{MayName, envid2env_lem}
use papers_annotation.Kern.Syscall.{
  the_curenv, directory, bad_perm, source_pte, received, deliver, sys_ipc_try_send,
}
use papers_annotation.Kern.Syscall.Errors.{
  curenv-returned, directory-returned, pa2page-returned, with_env-eq, IsUserPage, IsAllowedPerm,
  good_perm,
}
use papers_annotation.Kern.Syscall.Delivery.{
  messaged, deliver_message, source_pte-eq, HasPage, HasNoPage, source_pte-none, deliver_no_page,
  after_insert, deliver_page, send_page,
}

-- The message as the receiver gets it without a page, in no other environment's stead.
abbrev pub Delivers : ℕ → ℕ → ℕ → ℕ → ℕ → Kernel → Type 0
Delivers envid c value srcva perm k =
    (k' : Kernel) × (sys_ipc_try_send envid value srcva perm k ≡ returned (pos 0) k')
    × (k'.envs (envx envid) ≡ messaged (k.envs c).env_id value (k.envs (envx envid)))
    × ((y : ℕ) → y ≢ envx envid → k'.envs y ≡ k.envs y)

-- sys_ipc_try_send to an environment that the sender may name. One that does not receive is left as
-- it is, with -E_IPC_NOT_RECV. An address below UTOP that is not aligned, permissions that are not
-- allowed, a page that the sender has not mapped there, or has only to read and would give to write, are
-- refused with -E_INVAL and no change. With an address at UTOP or above, or a receiver that waits for no
-- page, the message is delivered: the receiver gets the sender's id and the value, no page permissions,
-- no longer receives and is runnable, and no other environment changes. Otherwise the same is done, and
-- then page_insert maps the page at the receiver: if that fails, its error is returned and what was
-- done stays; if not, the receiver has the permissions, and the result is 0.
pub sys_ipc_try_send_lem :
    (envid c value srcva perm : ℕ) (k : Kernel)
    → k.curenv ≡ some c
    → envid ≢ 0
    → MayName k c envid false
    → ((k.envs (envx envid)).env_ipc_recving ≡ false
        → sys_ipc_try_send envid value srcva perm k ≡ returned e_ipc_not_recv k)
      × ((k.envs (envx envid)).env_ipc_recving ≡ true
          → srcva < utop
          → (srcva % pgsize ≢ 0) ⊎ (bad_perm perm ≡ true)
          → sys_ipc_try_send envid value srcva perm k ≡ returned e_inval k)
      × ((k.envs (envx envid)).env_ipc_recving ≡ true
          → utop ≤ srcva
          → Delivers envid c value srcva perm k)
      × ((d : ℕ)
          → (k.envs (envx envid)).env_ipc_recving ≡ true
          → IsUserPage srcva
          → IsAllowedPerm perm
          → (k.envs c).env_pgdir ≡ some d
          → (HasNoPage k d srcva perm
              → sys_ipc_try_send envid value srcva perm k ≡ returned e_inval k)
            × (HasPage k d srcva perm
                → utop ≤ (k.envs (envx envid)).env_ipc_dstva
                → Delivers envid c value srcva perm k)
            × ((dd : ℕ) (r : ℤ) (k2 : Kernel)
                → HasPage k d srcva perm
                → page_of k d srcva < k.npages
                → (k.envs (envx envid)).env_ipc_dstva < utop
                → (k.envs (envx envid)).env_pgdir ≡ some dd
                → page_insert dd (page_of k d srcva) (k.envs (envx envid)).env_ipc_dstva perm (
                    set_env (envx envid) (received (k.envs c).env_id value (k.envs (envx envid))) k)
                  ≡ returned r k2
                → sys_ipc_try_send envid value srcva perm k ≡ after_insert (envx envid) perm r k2))
unfolding sys_ipc_try_send
sys_ipc_try_send_lem envid c value srcva perm k h nz m =
    let named =
      with_env-eq envid (envx envid) false _ k ((envid2env_lem envid c false k h).1 nz m) in
    (
      (λ idle. named ∙ (rw idle refl)),
      (λ ready low bad.
          let below : ltb srcva utop ≡ true = ground arith in
          named
          ∙ (rw (ready, below)
              (elim bad [
                | inl odd ↦ let e : (srcva % pgsize == 0) ≡ false = ground arith in rw e refl
                | inr e ↦ elim (Bool-cases (srcva % pgsize == 0)) [
                  | inl aligned ↦ rw (aligned, e) refl
                  | inr odd ↦ rw odd refl
                ]
              ]))),
      (λ ready high.
          let above : ltb srcva utop ≡ false = ground arith in
          let (k', ran, got, others) = deliver_message (envx envid) c value perm k h in
          (k', named ∙ (rw (ready, above) ran), got, others)),
      (λ d ready va ok sdir.
          let sent = send_page envid c value srcva perm d k h nz m ready va ok sdir in
          let full = λ (p : HasPage k d srcva perm).
            sent (some (pte_of k d srcva))
              (source_pte-eq d srcva perm k p.table p.present p.writable) in
          (
            (λ n. sent none (source_pte-none d srcva perm k n)),
            (λ p high.
                let (k', ran, got, others) = deliver_message (envx envid) c value perm k h in
                (
                  k',
                  full p
                      ∙ deliver_no_page (envx envid) c value perm (pte_of k d srcva) k h high
                      ∙ ran,
                  got,
                  others,
                )),
            (λ dd r k2 p b low dir ran.
                full p
                ∙ deliver_page (envx envid) c value perm dd (pte_of k d srcva) k k2 r h low dir b
                    ran),
          )),
    )

-- With a page, no table for it in the receiver's directory, and no free page.
deliver_full :
    (e c value perm dd pte : ℕ) (k : Kernel)
    → k.curenv ≡ some c
    → (k.envs e).env_ipc_dstva < utop
    → (k.envs e).env_pgdir ≡ some dd
    → test_bit (k.mem dd (pdx (k.envs e).env_ipc_dstva)) 0 ≡ false
    → IsFreeList k []
    → pgnum (pte_addr pte) < k.npages
    → deliver e value perm (some pte) k
      ≡ returned e_no_mem (set_env e (received (k.envs c).env_id value (k.envs e)) k)
unfolding deliver
deliver_full e c value perm dd pte k h low dir missing v b =
    let k1 = set_env e (received (k.envs c).env_id value (k.envs e)) k in
    let dstva = (k.envs e).env_ipc_dstva in
    let same : (k1.envs e).env_ipc_dstva ≡ dstva = ground arith in
    let samedir : (k1.envs e).env_pgdir ≡ some dd = ground arith in
    let below : ltb dstva utop ≡ true = ground arith in
    let none_free : IsFreeList k1 [] = record {
      linked = v.linked;
      distinct = v.distinct;
      unused = v.unused;
      in_memory = v.in_memory;
    } in
    let full = page_insert_full dd dstva (pgnum (pte_addr pte)) perm k1 missing none_free in
    bind-returned the_curenv _ c k k (curenv-returned c k h)
    ∙ (rw (same, below)
        (bind-returned (directory e) _ dd k1 k1 (directory-returned e dd k1 samedir)
          ∙ bind-returned (pa2page (pte_addr pte)) _ (pgnum (pte_addr pte)) k1 k1
              (pa2page-returned (pte_addr pte) k1 b)
          ∙ bind-returned (page_insert dd (pgnum (pte_addr pte)) dstva perm) _ e_no_mem k1 k1 full))

-- A send of a mapped page to a receiver whose directory has no table for the address that it waits
-- at, with no page free for one. The call fails with -E_NO_MEM; all the same the receiver has been
-- given the sender's id and the value, no longer receives, and is runnable.
pub sys_ipc_try_send_no_mem :
    (envid c value srcva perm d dd : ℕ) (k : Kernel)
    → k.curenv ≡ some c
    → envid ≢ 0
    → MayName k c envid false
    → (k.envs (envx envid)).env_ipc_recving ≡ true
    → (k.envs (envx envid)).env_ipc_dstva < utop
    → (k.envs (envx envid)).env_pgdir ≡ some dd
    → test_bit (k.mem dd (pdx (k.envs (envx envid)).env_ipc_dstva)) 0 ≡ false
    → IsFreeList k []
    → IsUserPage srcva
    → IsAllowedPerm perm
    → (k.envs c).env_pgdir ≡ some d
    → HasTable k d srcva
    → test_bit (pte_of k d srcva) 0 ≡ true
    → (test_bit perm 1 && not (test_bit (pte_of k d srcva) 1)) ≡ false
    → page_of k d srcva < k.npages
    → sys_ipc_try_send envid value srcva perm k
      ≡ returned e_no_mem
          (set_env (envx envid) (received (k.envs c).env_id value (k.envs (envx envid))) k)
unfolding sys_ipc_try_send
sys_ipc_try_send_no_mem envid c value srcva perm d dd k h nz m ready low dir missing v va ok sdir t
      e w b =
    let named =
      with_env-eq envid (envx envid) false _ k ((envid2env_lem envid c false k h).1 nz m) in
    let below : ltb srcva utop ≡ true = ground (arith, va.below_utop) in
    let aligned : (srcva % pgsize == 0) ≡ true = ground (arith, va.aligned) in
    named
    ∙ (rw (ready, below, aligned, good_perm perm ok)
        (bind-returned the_curenv _ c k k (curenv-returned c k h)
          ∙ bind-returned (directory c) _ d k k (directory-returned c d k sdir)
          ∙ bind-returned (source_pte d srcva perm) _ (some (pte_of k d srcva)) k k
              (source_pte-eq d srcva perm k t e w)
          ∙ deliver_full (envx envid) c value perm dd (pte_of k d srcva) k h low dir missing v b))
