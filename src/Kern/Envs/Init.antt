-- ===== src/Kern/Envs/Init.antt =====
-- env_init of mit-6.828/lab/kern/env.c.
use mathlib.Core.Path.{subst}
use papers_annotation.Prelude.{
  ℕ, zero, suc, ◌+◌, ◌≤◌, ◌<◌, ◌≡◌, ◌≢◌, refl, ap, ◌∙◌, none, some, List, [], ◌∷◌, arith,
  ℕ_discrete,
}
use papers_annotation.Mmu.{nenv}
use papers_annotation.Kern.State.{free, Env, Kernel, returned, update}
use papers_annotation.Kern.Pages.Lists.{NotIn, Linked-elsewhere, All-elsewhere}
use papers_annotation.Kern.Envs.{env_init, env_init_from, unlinked}
use papers_annotation.Kern.Envs.Alloc.{IsEnvList}

-- The n environments from i on, in order.
pub below : ℕ → ℕ → List ℕ
below i zero = []
below i (suc n) = i ∷ below (suc i) n

NotIn-below : (n i j : ℕ) → j < i → NotIn j (below i n)
unfolding below
NotIn-below zero i j h = tt
NotIn-below (suc n) i j h = ((λ x. omega arith), NotIn-below n (suc i) j (omega arith))

-- One round of the loop.
abbrev initialised : ℕ → Kernel → Kernel
initialised i k = record k {
  envs = update k.envs i (unlinked k.env_free_list (k.envs i));
  env_free_list = some i;
}

initialised-IsEnvList :
    (i n : ℕ) (k : Kernel)
    → i < nenv
    → IsEnvList k (below (suc i) n)
    → IsEnvList (initialised i k) (below i (suc n))
unfolding below
initialised-IsEnvList i n k h v =
    let k' = initialised i k in
    let es = below (suc i) n in
    let out = NotIn-below n (suc i) i (omega arith) in
    let same : (y : ℕ) → y ≢ i → k'.envs y ≡ k.envs y = λ y ne. ground arith in
    let link : (k'.envs i).env_link ≡ k.env_free_list = ground arith in
    record {
      linked = (
        refl,
        Linked-elsewhere (λ q. (k.envs q).env_link) (λ q. (k'.envs q).env_link) i
            (k'.envs i).env_link es (λ y ne. ap Env.env_link (same y ne)) out (rw link v.linked),
      );
      distinct = (out, v.distinct);
      unused = (
        ground arith,
        All-elsewhere (λ e. e.env_status ≡ free) k.envs k'.envs i es same out v.unused,
      );
      in_range = (h, v.in_range);
    }

-- The loop with i environments left: those from i on are on the list, and stay as they are.
env_init_from_lem :
    (i n m : ℕ) (k : Kernel)
    → i + n ≡ m
    → m ≤ nenv
    → IsEnvList k (below i n)
    → (k' : Kernel) × (env_init_from i k ≡ returned tt k')
      × IsEnvList k' (below 0 m)
      × ((e : ℕ) → e < i → (k'.envs e).env_id ≡ 0)
      × ((e : ℕ) → i ≤ e → k'.envs e ≡ k.envs e)
unfolding env_init_from
env_init_from_lem zero n m k h b v =
    let all : n ≡ m = omega arith in
    (k, refl, subst (λ t. IsEnvList k (below 0 t)) all v, (λ e lt. elim lt [ ]), (λ e _. refl))
env_init_from_lem (suc i) n m k h b v =
    let k1 = initialised i k in
    let (k', ran, list, zeros, kept) =
      env_init_from_lem i (suc n) m k1 (omega arith) b
        (initialised-IsEnvList i n k (omega arith) v) in
    let here : (k1.envs i).env_id ≡ 0 = ground arith in
    (
      k',
      ran,
      list,
      (λ e lt. elim (ℕ_discrete e i) [
        | yes same ↦
            ap (λ (j : ℕ). (k'.envs j).env_id) same ∙ ap Env.env_id (kept i (omega arith)) ∙ here
        | no other ↦ zeros e (omega arith)
      ]),
      (λ e le. kept e (omega arith) ∙ ground arith),
    )

-- env_init makes every environment free, with id 0, and puts them on the list in the order of `envs`,
-- so that the first env_alloc takes envs[0]. The list is empty before.
pub env_init_lem :
    (k : Kernel)
    → k.env_free_list ≡ none
    → (k' : Kernel) × (env_init k ≡ returned tt k')
      × (k'.env_free_list ≡ some 0)
      × IsEnvList k' (below 0 nenv)
      × ((e : ℕ) → e < nenv → (k'.envs e).env_id ≡ 0)
unfolding env_init below
env_init_lem k h =
    let (k', ran, list, zeros, _) =
      env_init_from_lem nenv 0 nenv k refl (omega arith)
        (record { linked = h; distinct = tt; unused = tt; in_range = tt }) in
    (k', ran, list.linked.0, list, zeros)
