-- ===== src/Kern/Syscall/Errors.antt =====
-- The argument checks of mit-6.828/lab/kern/syscall.c: a refused call changes nothing.
use papers_annotation.Prelude.{
  ℕ, ◌%◌, ◌<◌, ◌≡◌, ◌≢◌, ◌⊎◌, refl, ap, none, some, arith, true, false, not, Bool, ltb, ◌==◌, ◌&&◌,
  if◌then◌else◌, Bool-cases, inl, inr, bit_and,
}
use papers_annotation.Prelude.Int.{ℤ, pos}
use papers_annotation.Mmu.{pgnum, envx, utop, pgsize, test_bit, pte_not_syscall, e_inval, e_bad_env}
use papers_annotation.Kern.State.{runnable, not_runnable, Kernel, M, returned, bind, set_env}
use papers_annotation.Kern.Pgdir.{pgdir_of}
use papers_annotation.Kern.Pages.{pa2page}
use papers_annotation.Kern.Envs.{envid2env}
use papers_annotation.Kern.Envs.Ids.{MayName, envid2env_lem}
use papers_annotation.Kern.Syscall.{
  the_curenv, directory, with_env, resolved, bad_va, bad_perm, sys_env_set_status, sys_page_alloc,
  sys_page_map, sys_page_unmap, sys_ipc_recv,
}

pub curenv-returned : (c : ℕ) (k : Kernel) → k.curenv ≡ some c → the_curenv k ≡ returned c k
curenv-returned c k h = ground arith

pub directory-returned :
    (e d : ℕ) (k : Kernel) → (k.envs e).env_pgdir ≡ some d → directory e k ≡ returned d k
unfolding pgdir_of
directory-returned e d k h = ground arith

pub pa2page-returned :
    (pa : ℕ) (k : Kernel) → pgnum pa < k.npages → pa2page pa k ≡ returned (pgnum pa) k
unfolding pa2page
pa2page-returned pa k h = ground arith

-- The environment that an id names, as with_env finds it.
pub with_env-eq :
    (envid e : ℕ) (checkperm : Bool) (body : ℕ → M ℤ) (k : Kernel)
    → envid2env envid checkperm k ≡ returned (pos 0, some e) k
    → with_env envid checkperm body k ≡ body e k
with_env-eq envid e checkperm body k h = ap (λ o. bind o (resolved body)) h

pub with_env-bad :
    (envid : ℕ) (checkperm : Bool) (body : ℕ → M ℤ) (k : Kernel)
    → envid2env envid checkperm k ≡ returned (e_bad_env, none) k
    → with_env envid checkperm body k ≡ returned e_bad_env k
with_env-bad envid checkperm body k h = ap (λ o. bind o (resolved body)) h

-- Addresses and permissions that the calls on memory accept.
pub record IsUserPage (va : ℕ) : Type 0 where
  pub below_utop : va < utop
  pub aligned : va % pgsize ≡ 0

pub record IsAllowedPerm (perm : ℕ) : Type 0 where
  pub user_bit : test_bit perm 2 ≡ true
  pub no_other : bit_and perm pte_not_syscall ≡ 0

pub good_va : (va : ℕ) → IsUserPage va → bad_va va ≡ false
good_va va h = ground arith

pub good_perm : (perm : ℕ) → IsAllowedPerm perm → bad_perm perm ≡ false
good_perm perm h = ground arith

refused_va : (va : ℕ) → ¬ IsUserPage va → bad_va va ≡ true
refused_va va h = elim (Bool-cases (bad_va va)) [
  | inl e ↦ e
  | inr e ↦ absurd (h (record { below_utop = ground arith; aligned = ground arith }))
]

refused_perm : (perm : ℕ) → ¬ IsAllowedPerm perm → bad_perm perm ≡ true
refused_perm perm h = elim (Bool-cases (bad_perm perm)) [
  | inl e ↦ e
  | inr e ↦ absurd (h (record { user_bit = ground arith; no_other = ground arith }))
]

-- A later check of a chain that all return the same error.
second_check :
    (a b : Bool) (x y : M ℤ) (k : Kernel) → b ≡ true → (if a then x else if b then x else y) k ≡ x k
second_check true b x y k h = refl
second_check false true x y k h = refl
second_check false false x y k h = cc

third_check :
    (a b c : Bool) (x y : M ℤ) (k : Kernel)
    → c ≡ true
    → (if a then x else if b then x else if c then x else y) k ≡ x k
third_check true b c x y k h = refl
third_check false b c x y k h = second_check b c x y k h

-- The calls on memory refuse, with -E_INVAL and no change to any state: an address at UTOP or above
-- or inside a page, in each of their address arguments, and permissions without PTE_U or with a bit
-- other than the user's. sys_ipc_recv refuses an address below UTOP inside a page.
pub memory_calls_refuse :
    (envid envid' va va' perm : ℕ) (k : Kernel)
    → (¬ IsUserPage va
        → (sys_page_alloc envid va perm k ≡ returned e_inval k)
          × (sys_page_unmap envid va k ≡ returned e_inval k)
          × (sys_page_map envid va envid' va' perm k ≡ returned e_inval k)
          × (sys_page_map envid va' envid' va perm k ≡ returned e_inval k))
      × (¬ IsAllowedPerm perm
          → (sys_page_alloc envid va perm k ≡ returned e_inval k)
            × (sys_page_map envid va envid' va' perm k ≡ returned e_inval k))
      × (va < utop → va % pgsize ≢ 0 → sys_ipc_recv va k ≡ returned e_inval k)
unfolding sys_page_alloc sys_page_unmap sys_page_map sys_ipc_recv
memory_calls_refuse envid envid' va va' perm k = (
  (λ h.
      let e = refused_va va h in
      (rw e refl, rw e refl, rw e refl, second_check (bad_va va') (bad_va va) _ _ k e)),
  (λ h.
      let e = refused_perm perm h in
      (
        second_check (bad_va va) (bad_perm perm) _ _ k e,
        third_check (bad_va va) (bad_va va') (bad_perm perm) _ _ k e,
      )),
  (λ low odd. let e : (ltb va utop && not (va % pgsize == 0)) ≡ true = ground arith in rw e refl),
)

-- sys_env_set_status: a status other than ENV_RUNNABLE (2) and ENV_NOT_RUNNABLE (4) is refused, so is
-- an environment that the caller may not name; otherwise exactly the status of that environment is
-- set.
pub sys_env_set_status_lem :
    (envid c status : ℕ) (k : Kernel)
    → k.curenv ≡ some c
    → envid ≢ 0
    → (status ≢ 2 → status ≢ 4 → sys_env_set_status envid status k ≡ returned e_inval k)
      × ((status ≡ 2) ⊎ (status ≡ 4)
          → ¬ MayName k c envid true
          → sys_env_set_status envid status k ≡ returned e_bad_env k)
      × ((status ≡ 2) ⊎ (status ≡ 4)
          → MayName k c envid true
          → (k' : Kernel) × (sys_env_set_status envid status k ≡ returned (pos 0) k')
            × ((k'.envs (envx envid)).env_status ≡ (if status == 2 then runnable else not_runnable))
            × ((e : ℕ) → e ≢ envx envid → k'.envs e ≡ k.envs e))
unfolding sys_env_set_status
sys_env_set_status_lem envid c status k h nz = (
  (λ a b. let e : (not (status == 2) && not (status == 4)) ≡ true = ground arith in rw e refl),
  (λ ok bad.
      let e : (not (status == 2) && not (status == 4)) ≡ false = ground arith in
      rw e (with_env-bad envid true _ k ((envid2env_lem envid c true k h).2 nz bad))),
  (λ ok m.
      let e : (not (status == 2) && not (status == 4)) ≡ false = ground arith in
      (
        set_env (envx envid)
            (record (k.envs (envx envid)) {
              env_status = if status == 2 then runnable else not_runnable;
            })
            k,
        rw e (with_env-eq envid (envx envid) true _ k ((envid2env_lem envid c true k h).1 nz m)),
        ground arith,
        (λ y ne. ground arith),
      )),
)
