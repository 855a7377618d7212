-- ===== src/Kern/Syscall/NewPage.antt =====
-- The second half of sys_page_alloc of mit-6.828/lab/kern/syscall.c: page_insert of the page that
-- page_alloc returned, into an empty slot, in place of another page, or with no table for it yet.
use papers_annotation.Prelude.{
  suc, ◌-◌, ℕ, ◌^◌, ◌≤◌, ◌<◌, ◌≡◌, ◌≢◌, refl, sym, ap, ◌∙◌, some, List, [], ◌∷◌, arith, true, false,
  inl,
}
use papers_annotation.Prelude.Int.{ℤ, pos}
use papers_annotation.Mmu.{pgnum, pte_addr, pdx, ptx, test_bit, e_no_mem}
use papers_annotation.Kern.State.{PageInfo, Kernel, Outcome, returned, bind-returned}
use papers_annotation.Kern.Pages.{page_free}
use papers_annotation.Kern.Pages.Allocator.{
  update_ne, IsFreeList, allocated, IsFreeList-allocated, IsFreeList-with_ref, freed,
  page_free-eq-freed,
}
use papers_annotation.Kern.Pages.Lists.{NotIn}
use papers_annotation.Kern.Pgdir.Create.{page_insert_full, created, page_insert-created}
use mathlib.Core.Path.{subst}
use papers_annotation.Kern.Pgdir.{entry, page_insert}
use papers_annotation.Kern.Pgdir.Walk.{HasTable, table_of, slot_of}
use papers_annotation.Kern.Pgdir.Insert.{
  page_of, pte_of, next_ref, mapped, IsMapped, page_insert_empty, written-IsMapped,
  write_word_elsewhere, HasTable-elsewhere,
}
use papers_annotation.Kern.Pgdir.Remap.{page_insert_maps}
use papers_annotation.Kern.Syscall.{directory, insert_new}
use papers_annotation.Kern.Syscall.Errors.{directory-returned}

-- The state after sys_page_alloc put page p into an empty slot.
abbrev pub filled : ℕ → ℕ → ℕ → ℕ → Kernel → Kernel
filled d va perm p k = let k1 = allocated 1 p k in mapped d p va perm (slot_of k1 d va) k1

-- The new page lies apart from the page tables.
pub record IsApart (k : Kernel) (d va p : ℕ) : Type 0 where
  pub from_directory : p ≢ d
  pub from_table : p ≢ table_of k d va

pub mem-allocated : (p q j : ℕ) (k : Kernel) → p ≢ q → (allocated 1 p k).mem q j ≡ k.mem q j
mem-allocated p q j k ne = ground arith

-- What a call that maps the page p in place of the page o has done: p is all zero and has one
-- reference, and o has r.
abbrev pub Replaces : ℕ → ℕ → ℕ → ℕ → ℕ → ℕ → Outcome ℤ → Type 0
Replaces d va perm p o r ran =
    (k' : Kernel) × (ran ≡ returned (pos 0) k')
    × IsMapped k' d va p perm
    × ((k'.pages p).pp_ref ≡ 1)
    × ((k'.pages o).pp_ref ≡ r)
    × ((j : ℕ) → k'.mem p j ≡ 0)

module _ (d va perm p : ℕ) (k : Kernel) (t : HasTable k d va) (apart : IsApart k d va p) where
  table_of-allocated : table_of (allocated 1 p k) d va ≡ table_of k d va
  table_of-allocated =
      ap (λ (w : ℕ). pgnum (pte_addr w)) (mem-allocated p d (pdx va) k apart.from_directory)

  pte_of-allocated : pte_of (allocated 1 p k) d va ≡ pte_of k d va
  pte_of-allocated =
      ap (λ (q : ℕ). (allocated 1 p k).mem q (ptx va)) table_of-allocated
      ∙ mem-allocated p (table_of k d va) (ptx va) k apart.from_table

  HasTable-allocated : HasTable (allocated 1 p k) d va
  HasTable-allocated =
      HasTable-elsewhere d va k (allocated 1 p k) t
        (λ j. mem-allocated p d j k apart.from_directory) refl

  pub insert_new-filled :
      (e : ℕ)
      → (k.envs e).env_pgdir ≡ some d
      → test_bit (pte_of k d va) 0 ≡ false
      → insert_new e va perm (some p) (allocated 1 p k) ≡ returned (pos 0) (filled d va perm p k)
  unfolding insert_new
  insert_new-filled e dir empty =
      let k1 = allocated 1 p k in
      bind-returned (directory e) _ d k1 k1 (directory-returned e d k1 dir)
      ∙ bind-returned (page_insert d p va perm) _ (pos 0) k1 (filled d va perm p k) (
          page_insert_empty d va p perm k1 HasTable-allocated
            (ap (λ (w : ℕ). test_bit w 0) pte_of-allocated ∙ empty))

  -- The page o is mapped there, with r + 1 references: it makes way.
  pub insert_new-remapped :
      (e o r : ℕ)
      → (k.envs e).env_pgdir ≡ some d
      → test_bit (pte_of k d va) 0 ≡ true
      → page_of k d va ≡ o
      → o < k.npages
      → (k.pages o).pp_ref ≡ suc r
      → r < 2 ^ 16 - 1
      → (k.pages p).pp_ref ≡ 0
      → p < k.npages
      → k.npages ≤ 2 ^ 20
      → perm < 2 ^ 12
      → Replaces d va perm p o r (insert_new e va perm (some p) (allocated 1 p k))
  unfolding insert_new
  insert_new-remapped e o r dir taken old on many low unused h n b =
      let k1 = allocated 1 p k in
      let other : o ≢ p = λ x. omega (arith, many, unused, ap (λ (y : ℕ). (k.pages y).pp_ref) x) in
      let old1 : page_of k1 d va ≡ o = ap (λ (w : ℕ). pgnum (pte_addr w)) pte_of-allocated ∙ old in
      let many1 : (k1.pages (page_of k1 d va)).pp_ref ≡ suc r =
        ap (λ (y : ℕ). (k1.pages y).pp_ref) old1
        ∙ ap PageInfo.pp_ref (update_ne k.pages p _ o other)
        ∙ many in
      let (k', ran, maps, counts, frame) =
        page_insert_maps d va p perm r k1 HasTable-allocated n h b
          (λ _. (omega (arith, old1, on), many1, low)) in
      let (one, left) =
        counts.other_page (ap (λ (w : ℕ). test_bit w 0) pte_of-allocated ∙ taken)
          (λ x. other (sym old1 ∙ x)) in
      (
        k',
        bind-returned (directory e) _ d k1 k1 (directory-returned e d k1 dir)
            ∙ bind-returned (page_insert d p va perm) _ (pos 0) k1 k' ran,
        maps,
        one ∙ ground arith,
        ap (λ (y : ℕ). (k'.pages y).pp_ref) (sym old1) ∙ left,
        (λ j. frame p j (inl (λ x. apart.from_table (sym x ∙ table_of-allocated))) ∙ ground arith),
      )

  pub IsMapped-filled :
      p < k.npages → k.npages ≤ 2 ^ 20 → perm < 2 ^ 12 → IsMapped (filled d va perm p k) d va p perm
  IsMapped-filled h n b =
      written-IsMapped d va p perm (allocated 1 p k) (filled d va perm p k) HasTable-allocated n h b
        refl refl

  pub zeroed-filled : (j : ℕ) → (filled d va perm p k).mem p j ≡ 0
  zeroed-filled j =
      write_word_elsewhere (table_of (allocated 1 p k) d va) (ptx va) (entry p perm)
        (allocated 1 p k) p j (inl (λ x. apart.from_table (sym x ∙ table_of-allocated)))
      ∙ ground arith

pub IsFreeList-filled :
    (d va perm p : ℕ) (l : List ℕ) (k : Kernel)
    → IsFreeList k (p ∷ l)
    → IsFreeList (filled d va perm p k) l
IsFreeList-filled d va perm p l k v =
    let k1 = allocated 1 p k in
    let w =
      IsFreeList-with_ref p (next_ref k1 p) l k1 (IsFreeList-allocated 1 p l k v) v.distinct.0 in
    record { linked = w.linked; distinct = w.distinct; unused = w.unused; in_memory = w.in_memory }

-- A directory that has no table for the address yet, in no free page's place.
pub record LacksTable (k : Kernel) (d va : ℕ) (free : List ℕ) : Type 0 where
  pub absent : test_bit (k.mem d (pdx va)) 0 ≡ false
  pub in_use : NotIn d free

module _ (e d va perm p : ℕ) (l : List ℕ) (k : Kernel) (dir : (k.envs e).env_pgdir ≡ some d)
    (lacks : LacksTable k d va (p ∷ l)) where
  absent-allocated : test_bit ((allocated 1 p k).mem d (pdx va)) 0 ≡ false
  absent-allocated =
      ap (λ (w : ℕ). test_bit w 0) (mem-allocated p d (pdx va) k (λ x. lacks.in_use.0 (sym x)))
      ∙ lacks.absent

  pub insert_new-freed :
      IsFreeList k (p ∷ l)
      → l ≡ []
      → insert_new e va perm (some p) (allocated 1 p k)
        ≡ returned e_no_mem (freed p (allocated 1 p k))
  unfolding insert_new
  insert_new-freed v last =
      let k1 = allocated 1 p k in
      let none_left : IsFreeList k1 [] =
        subst (IsFreeList k1) last (IsFreeList-allocated 1 p l k v) in
      bind-returned (directory e) _ d k1 k1 (directory-returned e d k1 dir)
      ∙ bind-returned (page_insert d p va perm) _ e_no_mem k1 k1
          (page_insert_full d va p perm k1 absent-allocated none_left)
      ∙ bind-returned (page_free p) _ tt k1 (freed p k1) (page_free-eq-freed p k1 (ground arith))

  pub insert_new-created :
      (q : ℕ) (m : List ℕ)
      → IsFreeList k (p ∷ l)
      → l ≡ q ∷ m
      → k.npages ≤ 2 ^ 20
      → insert_new e va perm (some p) (allocated 1 p k)
        ≡ returned (pos 0) (created d va p perm q (allocated 1 p k))
  unfolding insert_new
  insert_new-created q m v more n =
      let k1 = allocated 1 p k in
      let left : IsFreeList k1 (q ∷ m) =
        subst (IsFreeList k1) more (IsFreeList-allocated 1 p l k v) in
      let apart : q ≢ d = λ x. (subst (NotIn d) more lacks.in_use.1).0 (sym x) in
      bind-returned (directory e) _ d k1 k1 (directory-returned e d k1 dir)
      ∙ bind-returned (page_insert d p va perm) _ (pos 0) k1 (created d va p perm q k1)
          (page_insert-created d va p perm q m k1 absent-allocated left n apart)

pub zeroed-created :
    (d va perm p q j : ℕ) (k : Kernel)
    → p ≢ d
    → p ≢ q
    → (created d va p perm q (allocated 1 p k)).mem p j ≡ 0
zeroed-created d va perm p q j k nd nq = ground arith
