-- ===== src/Kern/Syscall/Memory.antt =====
-- sys_page_alloc of mit-6.828/lab/kern/syscall.c behind its argument checks.
use papers_annotation.Prelude.{
  suc, ◌-◌, ℕ, ◌^◌, ◌≤◌, ◌<◌, ◌≡◌, ◌≢◌, refl, sym, ◌∙◌, Option, none, some, List, [], ◌∷◌, arith,
  true, false,
}
use papers_annotation.Prelude.Int.{ℤ, pos}
use papers_annotation.Mmu.{envx, test_bit, e_no_mem}
use papers_annotation.Kern.State.{Kernel, Outcome, returned, bind-returned}
use papers_annotation.Kern.Pages.{page_alloc}
use papers_annotation.Kern.Pages.Allocator.{
  IsFreeList, allocated, page_alloc-eq-allocated, IsFreeList-allocated, page_alloc_empty, freed,
  IsFreeList-freed,
}
use papers_annotation.Kern.Pgdir.Create.{created, created-IsMapped, IsFreeList-created}
use papers_annotation.Kern.Pgdir.Entries.{allowed_perm-lt}
use papers_annotation.Kern.Pgdir.Walk.{HasTable}
use papers_annotation.Kern.Pgdir.Insert.{page_of, pte_of, IsMapped}
use papers_annotation.Kern.Envs.Ids.{MayName, envid2env_lem}
use papers_annotation.Kern.Syscall.{insert_new, sys_page_alloc}
use papers_annotation.Kern.Syscall.Errors.{
  with_env-eq, IsUserPage, IsAllowedPerm, good_va, good_perm,
}
use papers_annotation.Kern.Syscall.NewPage.{
  filled, Replaces, IsApart, LacksTable, insert_new-filled, insert_new-remapped, IsMapped-filled,
  zeroed-filled, IsFreeList-filled, insert_new-freed, insert_new-created, zeroed-created,
  mem-allocated,
}

-- The checks pass, and what page_alloc returns goes to insert_new.
sys_page_alloc-start :
    (envid c va perm : ℕ) (k : Kernel)
    → k.curenv ≡ some c
    → envid ≢ 0
    → MayName k c envid true
    → IsUserPage va
    → IsAllowedPerm perm
    → (page : Option ℕ) (k1 : Kernel) → page_alloc 1 k ≡ returned page k1
    → sys_page_alloc envid va perm k ≡ insert_new (envx envid) va perm page k1
unfolding sys_page_alloc
sys_page_alloc-start envid c va perm k h nz m user ok page k1 ran =
    rw (good_va va user, good_perm perm ok)
      (with_env-eq envid (envx envid) true _ k ((envid2env_lem envid c true k h).1 nz m)
        ∙ bind-returned (page_alloc 1) _ page k k1 ran)

-- What a call that maps the page p at the address has done: p is all zero and has one reference, as
-- has the page r that it took for the table, and the pages `free` are left.
abbrev pub Allocates : ℕ → ℕ → ℕ → ℕ → ℕ → List ℕ → Outcome ℤ → Type 0
Allocates d va perm p r free ran =
    (k' : Kernel) × (ran ≡ returned (pos 0) k')
    × IsMapped k' d va p perm
    × IsFreeList k' free
    × ((k'.pages p).pp_ref ≡ 1)
    × ((k'.pages r).pp_ref ≡ 1)
    × ((j : ℕ) → k'.mem p j ≡ 0)

-- sys_page_alloc of a user page with allowed permissions, in an environment that the caller may name.
-- With no free page it returns -E_NO_MEM and changes nothing. If the directory has a table for the
-- address, with nothing mapped there, it returns 0: the first free page is mapped at the address with
-- these permissions, all zero, with one reference, and has left the free list. If there is no table,
-- the next free page becomes the table, with one reference, and leaves the list too; and if there is no
-- next one, the result is -E_NO_MEM: the page is free again, and of the memory only its own words have
-- changed, which are zero. If another page is mapped at the address, it returns 0 too: the first free
-- page, all zero and with one reference, takes its place, and the other page's count falls by one.
-- The free pages are none of the environment's page tables and not its
-- directory.
pub sys_page_alloc_lem :
    (envid c va perm d : ℕ) (k : Kernel)
    → k.curenv ≡ some c
    → envid ≢ 0
    → MayName k c envid true
    → IsUserPage va
    → IsAllowedPerm perm
    → perm < 2 ^ 32
    → (k.envs (envx envid)).env_pgdir ≡ some d
    → k.npages ≤ 2 ^ 20
    → (IsFreeList k [] → sys_page_alloc envid va perm k ≡ returned e_no_mem k)
      × ((p : ℕ) (l : List ℕ)
          → IsFreeList k (p ∷ l)
          → HasTable k d va
          → test_bit (pte_of k d va) 0 ≡ false
          → IsApart k d va p
          → Allocates d va perm p p l (sys_page_alloc envid va perm k))
      × ((p : ℕ)
          → IsFreeList k (p ∷ [])
          → LacksTable k d va (p ∷ [])
          → (k' : Kernel) × (sys_page_alloc envid va perm k ≡ returned e_no_mem k')
            × IsFreeList k' (p ∷ [])
            × ((j : ℕ) → k'.mem p j ≡ 0)
            × ((q j : ℕ) → q ≢ p → k'.mem q j ≡ k.mem q j))
      × ((p q : ℕ) (l : List ℕ)
          → IsFreeList k (p ∷ q ∷ l)
          → LacksTable k d va (p ∷ q ∷ l)
          → Allocates d va perm p q l (sys_page_alloc envid va perm k))
      × ((p o r : ℕ) (l : List ℕ)
          → IsFreeList k (p ∷ l)
          → HasTable k d va
          → IsApart k d va p
          → test_bit (pte_of k d va) 0 ≡ true
          → page_of k d va ≡ o
          → o < k.npages
          → (k.pages o).pp_ref ≡ suc r
          → r < 2 ^ 16 - 1
          → Replaces d va perm p o r (sys_page_alloc envid va perm k))
sys_page_alloc_lem envid c va perm d k h nz m user ok small dir n =
    let start = sys_page_alloc-start envid c va perm k h nz m user ok in
    let small_perm = allowed_perm-lt perm small ok.no_other in
    (
      (λ v. (start none k (page_alloc_empty 1 k v)) ∙ (unfold insert_new in refl)),
      (λ p l v t empty apart. (
        filled d va perm p k,
        start (some p) (allocated 1 p k) (page_alloc-eq-allocated 1 p k v.linked.0 v.in_memory.0 n)
            ∙ insert_new-filled d va perm p k t apart (envx envid) dir empty,
        IsMapped-filled d va perm p k t apart v.in_memory.0 n small_perm,
        IsFreeList-filled d va perm p l k v,
        ground arith,
        ground arith,
        zeroed-filled d va perm p k t apart,
      )),
      (λ p v lacks. (
        freed p (allocated 1 p k),
        start (some p) (allocated 1 p k) (page_alloc-eq-allocated 1 p k v.linked.0 v.in_memory.0 n)
            ∙ insert_new-freed (envx envid) d va perm p [] k dir lacks v refl,
        IsFreeList-freed p [] (allocated 1 p k) (IsFreeList-allocated 1 p [] k v) (ground arith) tt
            v.in_memory.0,
        (λ j. ground arith),
        (λ q j ne. mem-allocated p q j k (λ x. ne (sym x))),
      )),
      (λ p q l v lacks.
          let k1 = allocated 1 p k in
          let left = IsFreeList-allocated 1 p (q ∷ l) k v in
          let apart : q ≢ d = λ x. lacks.in_use.1.0 (sym x) in
          (
            created d va p perm q k1,
            start (some p) k1 (page_alloc-eq-allocated 1 p k v.linked.0 v.in_memory.0 n)
                ∙ insert_new-created (envx envid) d va perm p (q ∷ l) k dir lacks q l v refl n,
            created-IsMapped d va p perm q k1 left.in_memory.0 n apart v.in_memory.0 small_perm,
            IsFreeList-created d va p perm q l k1 left v.distinct.0.1,
            (let ne : p ≢ q = v.distinct.0.0 in ground arith),
            (let ne : p ≢ q = v.distinct.0.0 in ground arith),
            (λ j. zeroed-created d va perm p q j k (λ x. lacks.in_use.0 (sym x)) v.distinct.0.0),
          )),
      (λ p o r l v t apart taken old on many low.
          let (k', ran, maps, one, left, zeroed) =
            insert_new-remapped d va perm p k t apart (envx envid) o r dir taken old on many low
              v.unused.0 v.in_memory.0 n small_perm in
          (
            k',
            start (some p) (allocated 1 p k)
                  (page_alloc-eq-allocated 1 p k v.linked.0 v.in_memory.0 n)
                ∙ ran,
            maps,
            one,
            left,
            zeroed,
          )),
    )
