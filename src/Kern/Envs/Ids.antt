-- ===== src/Kern/Envs/Ids.antt =====
-- Environment ids of mit-6.828/lab/kern/env.c: the id that env_alloc makes, and envid2env.
use papers_annotation.Prelude.{
  ℕ, ◌+◌, ◌/◌, ◌^◌, ◌<◌, ◌≡◌, ◌≢◌, ◌⊎◌, ◌∙◌, none, some, arith, true, not, Bool, ◌==◌, ◌&&◌, ◌||◌,
  if◌then◌else◌, Bool-cases, inl, inr,
}
use papers_annotation.Prelude.Int.{pos}
use papers_annotation.Prelude.Bits.{bit_or-disjoint}
use papers_annotation.Mmu.{envx, e_bad_env}
use papers_annotation.Kern.State.{free, Kernel, returned}
use papers_annotation.Kern.Envs.{status_eq, envid2env, next_env_id, next_generation}

next_env_id-eq : (id i : ℕ) → i < 1024 → next_env_id id i ≡ next_generation id + i
unfolding next_env_id
next_env_id-eq id i h =
    bit_or-disjoint 10 (next_generation id / 1024) i (next_generation id) (ground arith) h

-- The id that env_alloc gives the environment in slot i, from the slot's last id: ENVX leads back to
-- the slot, the id is a positive int32_t, and it differs from the last one.
pub next_env_id_lem :
    (id i : ℕ)
    → id < 2 ^ 32
    → i < 1024
    → (envx (next_env_id id i) ≡ i)
      × (0 < next_env_id id i)
      × (next_env_id id i < 2 ^ 31)
      × (next_env_id id i ≢ id)
next_env_id_lem id i b h = (
  ground (arith, next_env_id-eq id i h),
  ground (arith, next_env_id-eq id i h),
  ground (arith, next_env_id-eq id i h),
  ground (arith, next_env_id-eq id i h),
)

-- The caller c may name the environment: its slot holds this id and is in use and, where the
-- permission is checked, it is the caller or a child of the caller.
pub record MayName (k : Kernel) (c envid : ℕ) (checkperm : Bool) : Type 0 where
  pub in_use : (k.envs (envx envid)).env_status ≢ free
  pub same_id : (k.envs (envx envid)).env_id ≡ envid
  pub related :
      checkperm ≡ true
      → (envx envid ≡ c) ⊎ ((k.envs (envx envid)).env_parent_id ≡ (k.envs c).env_id)

abbrev named : Kernel → ℕ → ℕ → Bool → Bool
named k c envid checkperm =
    let e = k.envs (envx envid) in
    not (status_eq e.env_status free)
    && (e.env_id == envid
        && (not checkperm || (envx envid == c || e.env_parent_id == (k.envs c).env_id)))

named-MayName :
    (k : Kernel) (c envid : ℕ) (checkperm : Bool)
    → named k c envid checkperm ≡ true
    → MayName k c envid checkperm
named-MayName k c envid checkperm h = record {
  in_use = ground arith;
  same_id = ground arith;
  related = λ p. ground arith;
}

envid2env-eq-named :
    (envid c : ℕ) (checkperm : Bool) (k : Kernel)
    → k.curenv ≡ some c
    → envid ≢ 0
    → envid2env envid checkperm k ≡ (
        if named k c envid checkperm
        then returned (pos 0, some (envx envid)) k
        else returned (e_bad_env, none) k)
unfolding envid2env
envid2env-eq-named envid c checkperm k h nz = ground arith

-- envid2env accepts a non-zero id if the caller may name it, and then yields the environment in the
-- id's slot; if the caller may not, it returns -E_BAD_ENV and yields NULL. The id 0 yields the caller.
-- Nothing changes in any case.
pub envid2env_lem :
    (envid c : ℕ) (checkperm : Bool) (k : Kernel)
    → k.curenv ≡ some c
    → (envid2env 0 checkperm k ≡ returned (pos 0, some c) k)
      × (envid ≢ 0
          → MayName k c envid checkperm
          → envid2env envid checkperm k ≡ returned (pos 0, some (envx envid)) k)
      × (envid ≢ 0
          → ¬ MayName k c envid checkperm
          → envid2env envid checkperm k ≡ returned (e_bad_env, none) k)
unfolding envid2env
envid2env_lem envid c checkperm k h = (
  ground arith,
  (λ nz m. ground arith),
  (λ nz m. elim (Bool-cases (named k c envid checkperm)) [
    | inl e ↦ absurd (m (named-MayName k c envid checkperm e))
    | inr e ↦ envid2env-eq-named envid c checkperm k h nz ∙ (rw e)
  ]),
)

pub envid2env_stale :
    (envid : ℕ) (checkperm : Bool) (k : Kernel)
    → envid ≢ 0
    → (k.envs (envx envid)).env_id ≢ envid
    → envid2env envid checkperm k ≡ returned (e_bad_env, none) k
unfolding envid2env
envid2env_stale envid checkperm k nz h = ground arith
