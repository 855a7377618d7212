-- ===== src/Kern/Envs/Alloc.antt =====
-- env_alloc, env_setup_vm and env_init of mit-6.828/lab/kern/env.c.
use papers_annotation.Prelude.{
  ℕ, ◌^◌, ◌≤◌, ◌<◌, ◌≡◌, ◌≢◌, refl, sym, ap, ◌∙◌, Option, none, some, List, [], ◌∷◌, arith, Bool,
}
use papers_annotation.Prelude.Int.{pos}
use papers_annotation.Mmu.{envx, pdx, uvpt, nenv, e_bad_env, e_no_mem, e_no_free_env, pgnum}
use papers_annotation.Kern.State.{free, Env, Kernel, returned, update, bind}
use papers_annotation.Kern.Pages.{page2pa}
use papers_annotation.Kern.Pages.Lists.{Linked, Distinct, All, Linked-elsewhere, All-elsewhere}
use papers_annotation.Kern.Pages.Allocator.{
  IsFreeList, allocated, with_ref, page_alloc-eq-allocated, IsFreeList-allocated,
  IsFreeList-with_ref, page_alloc_empty,
}
use papers_annotation.Kern.Pgdir.Entries.{page2pa-eq}
use papers_annotation.Kern.Envs.{
  env_setup_vm, take_env, commit_env, env_alloc, fresh_env, new_pgdir, envid2env,
}
use papers_annotation.Kern.Envs.Ids.{next_env_id_lem, envid2env_stale}

-- The free list of environments holds exactly `es`, first to last.
pub record IsEnvList (k : Kernel) (es : List ℕ) : Type 0 where
  pub linked : Linked (λ e. (k.envs e).env_link) k.env_free_list es
  pub distinct : Distinct es
  pub unused : All (λ e. (k.envs e).env_status ≡ free) es
  pub in_range : All (λ e. e < nenv) es

-- The state after env_setup_vm gave environment e the page p for its directory.
abbrev pub set_up : ℕ → ℕ → Kernel → Kernel
set_up e p k = record (with_ref p 1 (allocated 1 p k)) {
  envs = update k.envs e (record (k.envs e) { env_pgdir = some p });
  mem = update (allocated 1 p k).mem p (new_pgdir ((allocated 1 p k).mem k.kern_pgdir) p);
}

env_setup_vm-eq :
    (e p : ℕ) (k : Kernel)
    → k.page_free_list ≡ some p
    → p < k.npages
    → k.npages ≤ 2 ^ 20
    → env_setup_vm e k ≡ returned (pos 0) (set_up e p k)
unfolding env_setup_vm
env_setup_vm-eq e p k h b n =
    let frame : pgnum (page2pa p) ≡ p = omega (arith, page2pa-eq p (omega arith)) in
    rw (page_alloc-eq-allocated 1 p k h b n) (ground arith)

abbrev pub env_created : ℕ → ℕ → ℕ → Kernel → Kernel
env_created e p parent_id k =
    let k1 = set_up e p k in
    record k1 {
      envs = update k1.envs e (fresh_env e parent_id (k1.envs e));
      env_free_list = (update k1.envs e (fresh_env e parent_id (k1.envs e)) e).env_link;
    }

env_alloc-eq :
    (e p parent_id : ℕ) (k : Kernel)
    → k.env_free_list ≡ some e
    → k.page_free_list ≡ some p
    → p < k.npages
    → k.npages ≤ 2 ^ 20
    → env_alloc parent_id k ≡ returned (pos 0, some e) (env_created e p parent_id k)
unfolding env_alloc take_env commit_env
env_alloc-eq e p parent_id k h hp b n =
    ap (λ (o : Option ℕ). take_env parent_id o k) h
    ∙ ap (λ m. bind m (commit_env e parent_id)) (env_setup_vm-eq e p k hp b n)
    ∙ refl

-- env_alloc when nothing is free: without an environment it returns -E_NO_FREE_ENV, without a page for
-- the directory -E_NO_MEM, and in both cases nothing changes.
pub env_alloc_errors :
    (parent_id e : ℕ) (es : List ℕ) (k : Kernel)
    → (IsEnvList k [] → env_alloc parent_id k ≡ returned (e_no_free_env, none) k)
      × (IsEnvList k (e ∷ es)
          → IsFreeList k []
          → env_alloc parent_id k ≡ returned (e_no_mem, none) k)
unfolding env_alloc take_env commit_env env_setup_vm
env_alloc_errors parent_id e es k = (
  (λ v. ap (λ (o : Option ℕ). take_env parent_id o k) v.linked),
  (λ v f.
      ap (λ (o : Option ℕ). take_env parent_id o k) v.linked.0
      ∙ (rw (page_alloc_empty 1 k f) refl)),
)

env_created-IsEnvList :
    (e p parent_id : ℕ) (es : List ℕ) (k : Kernel)
    → IsEnvList k (e ∷ es)
    → IsEnvList (env_created e p parent_id k) es
env_created-IsEnvList e p parent_id es k v =
    let k' = env_created e p parent_id k in
    let same : (y : ℕ) → y ≢ e → k'.envs y ≡ k.envs y = λ y ne. ground arith in
    let head : k'.env_free_list ≡ (k.envs e).env_link = ground arith in
    record {
      linked = rw head (
          Linked-elsewhere (λ q. (k.envs q).env_link) (λ q. (k'.envs q).env_link) e
            (k.envs e).env_link es (λ y ne. ap Env.env_link (same y ne)) v.distinct.0 v.linked.1);
      distinct = v.distinct.1;
      unused =
          All-elsewhere (λ i. i.env_status ≡ free) k.envs k'.envs e es same v.distinct.0 v.unused.1;
      in_range = v.in_range.1;
    }

env_created-IsFreeList :
    (e p parent_id : ℕ) (l : List ℕ) (k : Kernel)
    → IsFreeList k (p ∷ l)
    → IsFreeList (env_created e p parent_id k) l
env_created-IsFreeList e p parent_id l k v =
    let w =
      IsFreeList-with_ref p 1 l (allocated 1 p k) (IsFreeList-allocated 1 p l k v) v.distinct.0 in
    record { linked = w.linked; distinct = w.distinct; unused = w.unused; in_memory = w.in_memory }

-- env_alloc with a free environment e and a free page p. It yields e, set up anew with p for its
-- directory, takes both off their free lists, refers to p once and copies the kernel's directory
-- into it but for the slot of UVPT; no other environment changes. The id that the slot had before no
-- longer names an environment.
pub env_alloc_lem :
    (e p parent_id : ℕ) (es l : List ℕ) (k : Kernel)
    → IsEnvList k (e ∷ es)
    → IsFreeList k (p ∷ l)
    → k.npages ≤ 2 ^ 20
    → k.kern_pgdir ≢ p
    → (k.envs e).env_id < 2 ^ 32
    → (k' : Kernel) × (env_alloc parent_id k ≡ returned (pos 0, some e) k')
      × (k'.envs e ≡ fresh_env e parent_id (record (k.envs e) { env_pgdir = some p }))
      × IsEnvList k' es
      × IsFreeList k' l
      × ((k'.pages p).pp_ref ≡ 1)
      × ((j : ℕ) → j ≢ pdx uvpt → k'.mem p j ≡ k.mem k.kern_pgdir j)
      × ((y : ℕ) → y ≢ e → k'.envs y ≡ k.envs y)
      × ((k.envs e).env_id ≢ 0
          → envx (k.envs e).env_id ≡ e
          → (checkperm : Bool)
          → envid2env (k.envs e).env_id checkperm k' ≡ returned (e_bad_env, none) k')
env_alloc_lem e p parent_id es l k v w n apart b =
    let k' = env_created e p parent_id k in
    let made : k'.envs e ≡ fresh_env e parent_id (record (k.envs e) { env_pgdir = some p }) =
      ground arith in
    (
      k',
      env_alloc-eq e p parent_id k v.linked.0 w.linked.0 w.in_memory.0 n,
      made,
      env_created-IsEnvList e p parent_id es k v,
      env_created-IsFreeList e p parent_id l k w,
      ground arith,
      (λ j ne. ground arith),
      (λ y ne. ground arith),
      (λ nz slot checkperm. envid2env_stale (k.envs e).env_id checkperm k' nz (λ x.
          (next_env_id_lem (k.envs e).env_id e b v.in_range.0).3
            (ap Env.env_id (sym made) ∙ ap (λ (i : ℕ). (k'.envs i).env_id) (sym slot) ∙ x))),
    )
