-- ===== src/Kern/Syscall/Fork.antt =====
-- sys_exofork of mit-6.828/lab/kern/syscall.c: the child that it makes.
use mathlib.Core.Path.{ap₂}
use papers_annotation.Prelude.{
  ℕ, ◌^◌, ◌≤◌, ◌<◌, ◌≡◌, ◌≢◌, ap, ◌∙◌, none, some, List, [], ◌∷◌, arith,
}
use papers_annotation.Prelude.Int.{pos}
use papers_annotation.Mmu.{e_no_free_env, e_no_mem}
use papers_annotation.Kern.State.{
  not_runnable, Trapframe, Env, Kernel, returned, set_env, bind-returned,
}
use papers_annotation.Kern.Pages.Allocator.{IsFreeList}
use papers_annotation.Kern.Envs.{fresh_env, next_env_id, env_alloc}
use papers_annotation.Kern.Envs.Alloc.{IsEnvList, env_alloc_lem, env_alloc_errors}
use papers_annotation.Kern.Syscall.{the_curenv, child_tf, sys_exofork}
use papers_annotation.Kern.Syscall.Errors.{curenv-returned}

-- The child of c in slot e, with the page p for its directory.
abbrev pub child_of : Kernel → ℕ → ℕ → ℕ → Env
child_of k c e p =
    record (fresh_env e (k.envs c).env_id (record (k.envs e) { env_pgdir = some p })) {
      env_status = not_runnable;
      env_tf = child_tf (k.envs c).env_tf;
    }

-- sys_exofork with a free environment e and a free page p: it returns the id of e, which is set up as
-- env_alloc does, but not runnable, and with the caller's registers, of which eax, the call's result
-- in the child, is 0. No other environment changes. If no environment or no page is free, it returns
-- -E_NO_FREE_ENV or -E_NO_MEM and changes nothing.
pub sys_exofork_lem :
    (c e p : ℕ) (es l : List ℕ) (k : Kernel)
    → k.curenv ≡ some c
    → (IsEnvList k [] → sys_exofork k ≡ returned e_no_free_env k)
      × (IsEnvList k (e ∷ es) → IsFreeList k [] → sys_exofork k ≡ returned e_no_mem k)
      × (IsEnvList k (e ∷ es)
          → IsFreeList k (p ∷ l)
          → k.npages ≤ 2 ^ 20
          → k.kern_pgdir ≢ p
          → (k.envs e).env_id < 2 ^ 32
          → c ≢ e
          → (k' : Kernel) × (sys_exofork k ≡ returned (pos (next_env_id (k.envs e).env_id e)) k')
            × (k'.envs e ≡ child_of k c e p)
            × ((y : ℕ) → y ≢ e → k'.envs y ≡ k.envs y))
unfolding sys_exofork
sys_exofork_lem c e p es l k h =
    let start = bind-returned the_curenv _ c k k (curenv-returned c k h) in
    (
      (λ v.
          start
          ∙ bind-returned (env_alloc (k.envs c).env_id) _ (e_no_free_env, none) k k
              ((env_alloc_errors (k.envs c).env_id e es k).0 v)),
      (λ v f.
          start
          ∙ bind-returned (env_alloc (k.envs c).env_id) _ (e_no_mem, none) k k
              ((env_alloc_errors (k.envs c).env_id e es k).1 v f)),
      (λ v f n apart small other.
          let (k1, ran, made, _, _, _, _, kept, _) =
            env_alloc_lem e p (k.envs c).env_id es l k v f n apart small in
          let k2 = set_env e (record (k1.envs e) { env_status = not_runnable }) k1 in
          let k3 = set_env e (record (k2.envs e) { env_tf = child_tf (k2.envs c).env_tf }) k2 in
          let caller : (k2.envs c).env_tf ≡ (k.envs c).env_tf =
            ground arith ∙ ap Env.env_tf (kept c other) in
          let here2 : k2.envs e ≡ record (k1.envs e) { env_status = not_runnable } = ground arith in
          let here3 : k3.envs e ≡ record (k2.envs e) { env_tf = child_tf (k2.envs c).env_tf } =
            ground arith in
          let child : k3.envs e ≡ child_of k c e p =
            here3
            ∙ ap₂ (λ (x : Env) (t : Trapframe). record x { env_tf = child_tf t })
                (here2 ∙ ap (λ (x : Env). record x { env_status = not_runnable }) made) caller in
          (
            k3,
            start
                ∙ bind-returned (env_alloc (k.envs c).env_id) _ (pos 0, some e) k k1 ran
                ∙ ap (λ (i : ℕ). returned (pos i) k3) (ap Env.env_id child),
            child,
            (λ y ne. ground arith ∙ kept y ne),
          )),
    )
