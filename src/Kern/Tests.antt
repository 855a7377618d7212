-- ===== src/Kern/Tests.antt =====
-- A small machine for the theorems on mit-6.828/lab/kern, and runs of its operations.
use papers_annotation.Prelude.{
  ℕ, ◌≤◌, ◌<◌, ◌≡◌, ◌≢◌, ◌⊎◌, ◌↔◌, refl, none, some, List, [], ◌∷◌, arith, true, false, Bool, ◌==◌,
  ◌&&◌, if◌then◌else◌, inl, inr, ℕ_discrete,
}
use papers_annotation.Prelude.Int.{pos}
use papers_annotation.Mmu.{ulim, rounddown, e_fault, pgsize, test_bit, e_inval, e_no_mem}
use papers_annotation.Kern.State.{
  PageInfo, EnvStatus, free, running, user, Env, Kernel, returned, set_env,
}
use papers_annotation.Kern.Pages.{page_alloc, page_init}
use papers_annotation.Kern.Pages.Lists.{NotIn}
use papers_annotation.Kern.Pages.Allocator.{IsFreeList, page_alloc_pops, page_alloc_empty}
use papers_annotation.Kern.Pages.Init.{reserved, page_init_lem}
use papers_annotation.Kern.Pgdir.{page_insert, page_remove, page_lookup, user_mem_check}
use papers_annotation.Kern.Pgdir.Walk.{HasTable}
use papers_annotation.Kern.Pgdir.Insert.{IsMapped}
use papers_annotation.Kern.Pgdir.Remap.{Inserts, page_insert_maps}
use papers_annotation.Kern.Pgdir.Remove.{page_remove_unmaps}
use papers_annotation.Kern.Pgdir.Create.{page_insert_creates}
use papers_annotation.Kern.Pgdir.UserMem.{HasTables, permits, range_end, user_mem_check_decides}
use papers_annotation.Kern.Envs.{fresh_tf, fresh_env, preempt, envid2env, env_alloc, next_env_id}
use papers_annotation.Kern.Envs.Ids.{MayName, envid2env_lem}
use papers_annotation.Kern.Envs.Alloc.{IsEnvList, env_alloc_lem}
use papers_annotation.Kern.Sched.RoundRobin.{IsRunnable, Schedules, sched_yield_lem}
use papers_annotation.Kern.Syscall.{
  sys_exofork, received, sys_page_map, sys_page_alloc, sys_page_unmap, sys_ipc_try_send,
}
use papers_annotation.Kern.Syscall.Errors.{IsUserPage, IsAllowedPerm, memory_calls_refuse}
use papers_annotation.Kern.Syscall.Delivery.{messaged}
use papers_annotation.Kern.Syscall.Ipc.{sys_ipc_try_send_lem, sys_ipc_try_send_no_mem}
use papers_annotation.Kern.Syscall.Fork.{child_of, sys_exofork_lem}
use papers_annotation.Kern.Syscall.Memory.{Allocates, sys_page_alloc_lem}

-- Sixteen pages: 5 and 6 are free, 1 and 4 are directories, 2 is a table of 1, 3 is mapped in it.
abbrev small_pages : ℕ → PageInfo
small_pages p = record {
  pp_link = if p == 5 then some 6 else none;
  pp_ref = if p == 3 then 1 else 0;
}

abbrev small_mem : ℕ → ℕ → ℕ
small_mem p j = if p == 1 && j == 0 then 0x2007 else if p == 2 && j == 1 then 0x3007 else 0

-- Environment 0 runs, its child 1 waits for a message at 0x2000, and 2 is free.
abbrev small_envs : ℕ → Env
small_envs e = record {
  env_tf = fresh_tf;
  env_link = none;
  env_id = if e == 0 then 0x1000 else if e == 1 then 0x1001 else if e == 2 then 0x1002 else 0;
  env_parent_id = if e == 1 then 0x1000 else 0;
  env_type = user;
  env_status = if e == 0 then running else if e == 1 then EnvStatus.not_runnable else free;
  env_runs = 0;
  env_cpunum = 0;
  env_pgdir = if e == 0 then some 1 else if e == 1 then some 4 else none;
  env_pgfault_upcall = 0;
  env_ipc_recving = e == 1;
  env_ipc_dstva = 0x2000;
  env_ipc_value = 0;
  env_ipc_from = 0;
  env_ipc_perm = 0;
}

abbrev pub small : Kernel
small = record {
  npages = 16;
  pages = small_pages;
  page_free_list = some 5;
  mem = small_mem;
  kern_pgdir = 9;
  envs = small_envs;
  env_free_list = some 2;
  curenv = some 0;
  cpunum = 0;
  cr3 = 1;
  invlpgs = [];
  kernel_locked = true;
  cpu_halted = false;
  npages_basemem = 160;
  nextfree = 0xF0110000;
  mmio_base = 0;
  user_mem_check_addr = 0;
  ticks = 0;
  cons = record { buf = λ p. 0; rpos = 0; wpos = 0 };
}

-- The same without a free page.
abbrev full : Kernel
full = record small { page_free_list = none }

small-IsFreeList : IsFreeList small (5 ∷ 6 ∷ [])
small-IsFreeList = record {
  linked = (refl, (ground arith, ground arith));
  distinct = ((ground arith, tt), (tt, tt));
  unused = (ground arith, (ground arith, tt));
  in_memory = (omega arith, (omega arith, tt));
}

full-IsFreeList : IsFreeList full []
full-IsFreeList = record { linked = refl; distinct = tt; unused = tt; in_memory = tt }

page_alloc_pops_example :
    (k' : Kernel) × (page_alloc 1 small ≡ returned (some 5) k')
    × IsFreeList k' (6 ∷ [])
    × NotIn 5 (6 ∷ [])
    × (k'.pages 5 ≡ record { pp_link = none; pp_ref = 0 })
    × (test_bit 1 0 ≡ true → (j : ℕ) → k'.mem 5 j ≡ 0)
    × ((q : ℕ) → q ≢ 5 → (k'.pages q ≡ small.pages q) × (k'.mem q ≡ small.mem q))
page_alloc_pops_example = page_alloc_pops 1 5 (6 ∷ []) small small-IsFreeList (omega arith)

page_alloc_empty_example : page_alloc 1 full ≡ returned none full
page_alloc_empty_example = page_alloc_empty 1 full full-IsFreeList

page_init_example :
    (k' : Kernel) × (l : List ℕ) × (page_init 0 small ≡ returned tt k')
    × IsFreeList k' l
    × (k'.mem ≡ small.mem)
    × ((i : ℕ) → i < 16 → NotIn i l ↔ (reserved small i ≡ true))
page_init_example = page_init_lem 0 small (ground arith)

small-HasTable : HasTable small 1 0x1000
small-HasTable = record { present = refl; in_memory = omega arith; apart = λ h. omega arith }

page_insert_maps_example : Inserts small 1 0x1000 5 7 0
page_insert_maps_example =
    page_insert_maps 1 0x1000 5 7 0 small small-HasTable (omega arith) (omega arith) (omega arith)
      (λ e. (omega arith, ground arith, omega arith))

page_insert_creates_example :
    (k' : Kernel) × (page_insert 4 3 0x2000 7 small ≡ returned (pos 0) k')
    × IsMapped k' 4 0x2000 3 7
    × IsFreeList k' (6 ∷ [])
    × ((k'.pages 5).pp_ref ≡ 1)
    × ((k'.pages 3).pp_ref ≡ 2)
page_insert_creates_example =
    (page_insert_creates 4 0x2000 3 7 (5 ∷ 6 ∷ []) small refl small-IsFreeList (omega arith)
        (ground arith, (ground arith, tt)) (ground arith, (ground arith, tt)) (omega arith)
        (omega arith)).1
      5 (6 ∷ []) refl

page_remove_unmaps_example :
    (k' : Kernel) × (page_remove 1 0x1000 small ≡ returned tt k')
    × (page_lookup 1 0x1000 k' ≡ returned none k')
    × ((k'.pages 3).pp_ref ≡ 0)
    × IsFreeList k' (3 ∷ 5 ∷ 6 ∷ [])
    × ((f j : ℕ) → (2 ≢ f) ⊎ (1 ≢ j) → k'.mem f j ≡ small.mem f j)
page_remove_unmaps_example =
    (page_remove_unmaps 1 0x1000 0 (5 ∷ 6 ∷ []) small small-HasTable small-IsFreeList).1 refl
      (omega arith) (ground arith) (omega arith)

small-HasTables : HasTables small 1
small-HasTables va h = ground arith

user_mem_check_decides_example :
    ((user_mem_check (small.envs 0) 0x1004 100 5 small ≡ returned (pos 0) small)
      × (0x1004 < ulim)
      × (0x1004 < range_end 0x1004 100)
      × ((x : ℕ) → 0x1004 ≤ x → x < range_end 0x1004 100 → permits small 1 5 x ≡ true))
    ⊎ ((user_mem_check (small.envs 0) 0x1004 100 5 small
          ≡ returned e_fault (record small { user_mem_check_addr = 0x1004 }))
        × ((ulim ≤ 0x1004)
            ⊎ ((range_end 0x1004 100 ≤ 0x1004)
                ⊎ ((x : ℕ) × (rounddown 0x1004 pgsize ≤ x)
                    × (x < range_end 0x1004 100)
                    × (permits small 1 5 x ≡ false)))))
user_mem_check_decides_example =
    user_mem_check_decides (small.envs 0) 1 0x1004 100 5 small refl small-HasTables (omega arith)

child-MayName : (checkperm : Bool) → MayName small 0 0x1001 checkperm
child-MayName checkperm = record {
  in_use = λ h. ground arith;
  same_id = ground arith;
  related = λ _. inr (ground arith);
}

envid2env_example : envid2env 0x1001 true small ≡ returned (pos 0, some 1) small
envid2env_example = (envid2env_lem 0x1001 0 true small refl).1 (ground arith) (child-MayName true)

small-IsEnvList : IsEnvList small (2 ∷ [])
small-IsEnvList = record {
  linked = (refl, refl);
  distinct = (tt, tt);
  unused = (refl, tt);
  in_range = (omega arith, tt);
}

env_alloc_example :
    (k' : Kernel) × (env_alloc 0x1000 small ≡ returned (pos 0, some 2) k')
    × (k'.envs 2 ≡ fresh_env 2 0x1000 (record (small.envs 2) { env_pgdir = some 5 }))
    × IsEnvList k' []
    × IsFreeList k' (6 ∷ [])
env_alloc_example =
    let w =
      env_alloc_lem 2 5 0x1000 [] (6 ∷ []) small small-IsEnvList small-IsFreeList (omega arith)
        (ground arith) (ground arith) in
    (w.0, w.1, w.2, w.3, w.4)

small-dirs :
    (e : ℕ)
    → IsRunnable (preempt small).envs e
    → (d : ℕ) × (((preempt small).envs e).env_pgdir ≡ some d)
small-dirs e h = elim (ℕ_discrete e 0) [
  | yes z ↦ (1, ground arith)
  | no nz ↦ elim (ℕ_discrete e 1) [ yes o ↦ (4, ground arith) | no no_one ↦ absurd (ground arith) ]
]

sched_yield_example : Schedules (Unit {0}) small
sched_yield_example = sched_yield_lem {A = Unit {0}} small (omega arith) (λ e h. small-dirs e h)

memory_calls_refuse_example :
    (sys_page_alloc 0 0x1001 7 small ≡ returned e_inval small)
    × (sys_page_unmap 0 0x1001 small ≡ returned e_inval small)
    × (sys_page_map 0 0x1001 0 0x2000 7 small ≡ returned e_inval small)
    × (sys_page_map 0 0x2000 0 0x1001 7 small ≡ returned e_inval small)
memory_calls_refuse_example =
    (memory_calls_refuse 0 0 0x1001 0x2000 7 small).0 (λ h. omega (arith, h.aligned))

sys_ipc_try_send_example :
    (k' : Kernel) × (sys_ipc_try_send 0x1001 42 0xF0000000 0 small ≡ returned (pos 0) k')
    × (k'.envs 1 ≡ messaged 0x1000 42 (small.envs 1))
    × ((y : ℕ) → y ≢ 1 → k'.envs y ≡ small.envs y)
sys_ipc_try_send_example =
    (sys_ipc_try_send_lem 0x1001 0 42 0xF0000000 0 small refl (ground arith)
        (child-MayName false)).2
      refl (omega arith)

user_page : IsUserPage 0x1000
user_page = record { below_utop = omega arith; aligned = refl }

allowed_perm : IsAllowedPerm 5
allowed_perm = record { user_bit = refl; no_other = refl }

sys_ipc_try_send_no_mem_example :
    sys_ipc_try_send 0x1001 42 0x1000 5 full
    ≡ returned e_no_mem (set_env 1 (received 0x1000 42 (full.envs 1)) full)
sys_ipc_try_send_no_mem_example =
    sys_ipc_try_send_no_mem 0x1001 0 42 0x1000 5 1 4 full refl (ground arith)
      (record {
        in_use = λ h. ground arith;
        same_id = ground arith;
        related = λ _. inr (ground arith);
      })
      refl (omega arith) refl refl full-IsFreeList user_page allowed_perm refl
      (record { present = refl; in_memory = omega arith; apart = λ h. omega arith }) refl refl
      (omega arith)

-- Page 3 is not mapped at 0x3000, and the table for it is page 2.
sys_page_alloc_example : Allocates 1 0x3000 5 5 5 (6 ∷ []) (sys_page_alloc 0x1000 0x3000 5 small)
sys_page_alloc_example =
    (sys_page_alloc_lem 0x1000 0 0x3000 5 1 small refl (ground arith)
        (record {
          in_use = λ h. ground arith;
          same_id = ground arith;
          related = λ _. inl (ground arith);
        })
        (record { below_utop = omega arith; aligned = refl }) allowed_perm (omega arith) refl
        (omega arith)).1
      5 (6 ∷ []) small-IsFreeList
      (record { present = refl; in_memory = omega arith; apart = λ h. omega arith }) refl
      (record { from_directory = λ h. omega arith; from_table = λ h. omega arith })

sys_exofork_example :
    (k' : Kernel) × (sys_exofork small ≡ returned (pos (next_env_id 0x1002 2)) k')
    × (k'.envs 2 ≡ child_of small 0 2 5)
    × ((y : ℕ) → y ≢ 2 → k'.envs y ≡ small.envs y)
sys_exofork_example =
    (sys_exofork_lem 0 2 5 [] (6 ∷ []) small refl).2 small-IsEnvList small-IsFreeList (omega arith)
      (ground arith) (ground arith) (ground arith)
