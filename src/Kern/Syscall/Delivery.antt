-- ===== src/Kern/Syscall/Delivery.antt =====
-- The steps of sys_ipc_try_send of mit-6.828/lab/kern/syscall.c: the look-up of the sender's page, and
-- what is done to the receiver.
use papers_annotation.Prelude.{
  ℕ, ◌%◌, ◌≤◌, ◌<◌, ◌≡◌, ◌≢◌, refl, ◌∙◌, Option, none, some, if◌then◌else◌, arith, true, false, not,
  ltb, ◌==◌, ◌&&◌, Bool-cases, inl, inr,
}
use papers_annotation.Prelude.Int.{ℤ, pos, negsuc, is_neg}
use papers_annotation.Mmu.{envx, utop, pgsize, pgnum, pte_addr, pdx, test_bit, e_inval}
use papers_annotation.Kern.State.{Env, Kernel, M, Outcome, returned, pure, set_env, bind-returned}
use papers_annotation.Kern.Pages.{pa2page}
use papers_annotation.Kern.Pgdir.{page_insert}
use papers_annotation.Kern.Pgdir.Walk.{HasTable, pgdir_walk_present, pgdir_walk_absent}
use papers_annotation.Kern.Pgdir.Insert.{pte_of}
use papers_annotation.Kern.Envs.Ids.{MayName, envid2env_lem}
use papers_annotation.Kern.Syscall.{
  the_curenv, directory, source_pte, received, set_ipc_perm, deliver, sys_ipc_try_send,
}
use papers_annotation.Kern.Syscall.Errors.{
  curenv-returned, directory-returned, pa2page-returned, with_env-eq, IsUserPage, IsAllowedPerm,
  good_perm,
}

-- A message without a page: the receiver's fields, and no permissions.
abbrev pub messaged : ℕ → ℕ → Env → Env
messaged sender value e = record (received sender value e) { env_ipc_perm = 0 }

pub deliver_message :
    (e c value perm : ℕ) (k : Kernel)
    → k.curenv ≡ some c
    → (k' : Kernel) × (deliver e value perm none k ≡ returned (pos 0) k')
      × (k'.envs e ≡ messaged (k.envs c).env_id value (k.envs e))
      × ((y : ℕ) → y ≢ e → k'.envs y ≡ k.envs y)
unfolding deliver
deliver_message e c value perm k h =
    let k1 = set_env e (received (k.envs c).env_id value (k.envs e)) k in
    (
      set_env e (record (k1.envs e) { env_ipc_perm = 0 }) k1,
      rw h refl,
      ground arith,
      (λ y ne. ground arith),
    )

-- The entry that a walk of the sender's directory finds.
pub source_pte-eq :
    (d va perm : ℕ) (k : Kernel)
    → HasTable k d va
    → test_bit (pte_of k d va) 0 ≡ true
    → (test_bit perm 1 && not (test_bit (pte_of k d va) 1)) ≡ false
    → source_pte d va perm k ≡ returned (some (pte_of k d va)) k
unfolding source_pte
source_pte-eq d va perm k t e w = rw (pgdir_walk_present d va k t false) (rw (e, w) refl)

-- The sender has a page at the address, and may write it if the receiver is to.
pub record HasPage (k : Kernel) (d va perm : ℕ) : Type 0 where
  pub table : HasTable k d va
  pub present : test_bit (pte_of k d va) 0 ≡ true
  pub writable : (test_bit perm 1 && not (test_bit (pte_of k d va) 1)) ≡ false

-- It has none there, or one that it may only read and would give to write.
pub data HasNoPage (k : Kernel) (d va perm : ℕ) : Type 0 where
  no_table : test_bit (k.mem d (pdx va)) 0 ≡ false → HasNoPage k d va perm
  not_present : HasTable k d va → test_bit (pte_of k d va) 0 ≡ false → HasNoPage k d va perm
  read_only :
      HasTable k d va
      → test_bit perm 1 ≡ true
      → test_bit (pte_of k d va) 1 ≡ false
      → HasNoPage k d va perm

pub source_pte-none :
    (d va perm : ℕ) (k : Kernel) → HasNoPage k d va perm → source_pte d va perm k ≡ returned none k
unfolding source_pte
source_pte-none d va perm k (no_table e) = rw (pgdir_walk_absent d va k e) refl
source_pte-none d va perm k (not_present t e) = rw (pgdir_walk_present d va k t false) (rw e refl)
source_pte-none d va perm k (read_only t w e) =
    rw (pgdir_walk_present d va k t false) (elim (Bool-cases (test_bit (pte_of k d va) 0)) [
      | inl p ↦ rw (p, w, e) refl
      | inr p ↦ rw p refl
    ])

-- The receiver waits for a value only.
pub deliver_no_page :
    (e c value perm pte : ℕ) (k : Kernel)
    → k.curenv ≡ some c
    → utop ≤ (k.envs e).env_ipc_dstva
    → deliver e value perm (some pte) k ≡ deliver e value perm none k
unfolding deliver
deliver_no_page e c value perm pte k h high =
    let k1 = set_env e (received (k.envs c).env_id value (k.envs e)) k in
    let above : ltb (k1.envs e).env_ipc_dstva utop ≡ false = ground arith in rw h (rw above refl)

-- What a send does with the outcome of page_insert.
abbrev pub after_insert : ℕ → ℕ → ℤ → Kernel → Outcome ℤ
after_insert e perm (pos n) k =
    returned (pos 0) (set_env e (record (k.envs e) { env_ipc_perm = perm }) k)
after_insert e perm (negsuc n) k = returned (negsuc n) k

pub deliver_page :
    (e c value perm dd pte : ℕ) (k k2 : Kernel) (r : ℤ)
    → k.curenv ≡ some c
    → (k.envs e).env_ipc_dstva < utop
    → (k.envs e).env_pgdir ≡ some dd
    → pgnum (pte_addr pte) < k.npages
    → page_insert dd
        (pgnum (pte_addr pte))
        (k.envs e).env_ipc_dstva
        perm
        (set_env e (received (k.envs c).env_id value (k.envs e)) k)
      ≡ returned r k2
    → deliver e value perm (some pte) k ≡ after_insert e perm r k2
unfolding deliver
deliver_page e c value perm dd pte k k2 r h low dir b ran =
    let k1 = set_env e (received (k.envs c).env_id value (k.envs e)) k in
    let dstva = (k.envs e).env_ipc_dstva in
    let same : (k1.envs e).env_ipc_dstva ≡ dstva = ground arith in
    let samedir : (k1.envs e).env_pgdir ≡ some dd = ground arith in
    let below : ltb dstva utop ≡ true = ground arith in
    bind-returned the_curenv _ c k k (curenv-returned c k h)
    ∙ (rw (same, below)
        (bind-returned (directory e) _ dd k1 k1 (directory-returned e dd k1 samedir)
          ∙ bind-returned (pa2page (pte_addr pte)) _ (pgnum (pte_addr pte)) k1 k1
              (pa2page-returned (pte_addr pte) k1 b)
          ∙ bind-returned (page_insert dd (pgnum (pte_addr pte)) dstva perm) _ r k1 k2 ran
          ∙ inserted r))
  where
    inserted :
        (r : ℤ) → (if is_neg r then pure r else set_ipc_perm e perm) k2 ≡ after_insert e perm r k2
    inserted (pos n) = refl
    inserted (negsuc n) = refl

-- Up to the delivery, for an aligned address below UTOP with allowed permissions.
pub send_page :
    (envid c value srcva perm d : ℕ) (k : Kernel)
    → k.curenv ≡ some c
    → envid ≢ 0
    → MayName k c envid false
    → (k.envs (envx envid)).env_ipc_recving ≡ true
    → IsUserPage srcva
    → IsAllowedPerm perm
    → (k.envs c).env_pgdir ≡ some d
    → (pte : Option ℕ) → source_pte d srcva perm k ≡ returned pte k
    → sys_ipc_try_send envid value srcva perm k ≡ elim pte [
      | none ↦ returned e_inval k
      | some found ↦ deliver (envx envid) value perm (some found) k
    ]
unfolding sys_ipc_try_send
send_page envid c value srcva perm d k h nz m ready va ok sdir pte found =
    let named =
      with_env-eq envid (envx envid) false _ k ((envid2env_lem envid c false k h).1 nz m) in
    let below : ltb srcva utop ≡ true = ground (arith, va.below_utop) in
    let aligned : (srcva % pgsize == 0) ≡ true = ground (arith, va.aligned) in
    named
    ∙ (rw (ready, below, aligned, good_perm perm ok)
        (bind-returned the_curenv _ c k k (curenv-returned c k h)
          ∙ bind-returned (directory c) _ d k k (directory-returned c d k sdir)
          ∙ bind-returned (source_pte d srcva perm) _ pte k k found
          ∙ chosen pte))
  where
    chosen :
        (pte : Option ℕ)
        → (elim pte as (λ _. M ℤ) [
          | none ↦ pure e_inval
          | some found ↦ deliver (envx envid) value perm (some found)
        ])
            k
          ≡ elim pte [
            | none ↦ returned e_inval k
            | some found ↦ deliver (envx envid) value perm (some found) k
          ]
    chosen none = refl
    chosen (some f) = refl
