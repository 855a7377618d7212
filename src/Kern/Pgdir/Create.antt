-- ===== src/Kern/Pgdir/Create.antt =====
-- page_insert of mit-6.828/lab/kern/pmap.c where the directory has no table for the address yet.
use mathlib.Core.Path.{subst}
use papers_annotation.Prelude.{
  ℕ, ◌^◌, ◌≤◌, ◌<◌, ◌≡◌, ◌≢◌, refl, sym, ap, ◌∙◌, List, [], ◌∷◌, arith, false,
}
use papers_annotation.Prelude.Int.{pos}
use papers_annotation.Mmu.{pgnum, pte_addr, pdx, ptx, test_bit, e_no_mem}
use papers_annotation.Kern.State.{Kernel, returned}
use papers_annotation.Kern.Pages.Lists.{NotIn}
use papers_annotation.Kern.Pages.Allocator.{
  IsFreeList, allocated, with_ref, IsFreeList-allocated, IsFreeList-with_ref,
}
use papers_annotation.Kern.Pgdir.{entry, page_insert}
use papers_annotation.Kern.Pgdir.Entries.{table_entry, table_entry_fields}
use papers_annotation.Kern.Pgdir.Walk.{
  table_of, write_word, HasTable, with_table, pgdir_walk_creates, pgdir_walk_full,
}
use papers_annotation.Kern.Pgdir.Insert.{
  next_ref, mapped, IsMapped, write_word_here, written-IsMapped,
}

-- The new table is in place: its entry leads to it, and all its words are zero.
HasTable-with_table :
    (d va p : ℕ) (k : Kernel)
    → p < k.npages
    → k.npages ≤ 2 ^ 20
    → p ≢ d
    → HasTable (with_table d va p k) d va
      × (table_of (with_table d va p k) d va ≡ p)
      × ((j : ℕ) → (with_table d va p k).mem p j ≡ 0)
HasTable-with_table d va p k h n ne =
    let k1 = with_table d va p k in
    let fields = table_entry_fields p (omega arith) in
    let pde : k1.mem d (pdx va) ≡ table_entry p =
      write_word_here d (pdx va) (table_entry p) (with_ref p 1 (allocated 1 p k)) in
    let table : table_of k1 d va ≡ p = ap (λ (w : ℕ). pgnum (pte_addr w)) pde ∙ fields.1 in
    (
      record {
        present = ap (λ (w : ℕ). test_bit w 0) pde ∙ fields.0;
        in_memory = rw table h;
        apart = rw table ne;
      },
      table,
      (λ j. ground arith),
    )

IsFreeList-with_table :
    (d va p : ℕ) (l : List ℕ) (k : Kernel)
    → IsFreeList k (p ∷ l)
    → IsFreeList (with_table d va p k) l
IsFreeList-with_table d va p l k v =
    let w =
      IsFreeList-with_ref p 1 l (allocated 1 p k) (IsFreeList-allocated 1 p l k v) v.distinct.0 in
    record { linked = w.linked; distinct = w.distinct; unused = w.unused; in_memory = w.in_memory }

-- The state after page_insert made the table in page p and put the entry into it.
abbrev pub created : ℕ → ℕ → ℕ → ℕ → ℕ → Kernel → Kernel
created d va pp perm p k =
    mapped d pp va perm (record { frame = p; index = ptx va }) (with_table d va p k)

pub page_insert-created :
    (d va pp perm p : ℕ) (l : List ℕ) (k : Kernel)
    → test_bit (k.mem d (pdx va)) 0 ≡ false
    → IsFreeList k (p ∷ l)
    → k.npages ≤ 2 ^ 20
    → p ≢ d
    → page_insert d pp va perm k ≡ returned (pos 0) (created d va pp perm p k)
unfolding page_insert
page_insert-created d va pp perm p l k e v n ne =
    let zeroed : test_bit ((with_table d va p k).mem p (ptx va)) 0 ≡ false =
      ap (λ (w : ℕ). test_bit w 0) ((HasTable-with_table d va p k v.in_memory.0 n ne).2 (ptx va)) in
    rw (pgdir_walk_creates d va p l k e v n) (rw zeroed)

pub page_insert_full :
    (d va pp perm : ℕ) (k : Kernel)
    → test_bit (k.mem d (pdx va)) 0 ≡ false
    → IsFreeList k []
    → page_insert d pp va perm k ≡ returned e_no_mem k
unfolding page_insert
page_insert_full d va pp perm k e v = rw (pgdir_walk_full d va k e v) refl

pub created-IsMapped :
    (d va pp perm p : ℕ) (k : Kernel)
    → p < k.npages
    → k.npages ≤ 2 ^ 20
    → p ≢ d
    → pp < k.npages
    → perm < 2 ^ 12
    → IsMapped (created d va pp perm p k) d va pp perm
created-IsMapped d va pp perm p k hp n ne h b =
    let (t, table, _) = HasTable-with_table d va p k hp n ne in
    written-IsMapped d va pp perm (with_table d va p k) (created d va pp perm p k) t n h b
      (ap (λ (q : ℕ). (write_word q (ptx va) (entry pp perm) (with_table d va p k)).mem)
        (sym table))
      refl

pub IsFreeList-created :
    (d va pp perm p : ℕ) (l : List ℕ) (k : Kernel)
    → IsFreeList k (p ∷ l)
    → NotIn pp l
    → IsFreeList (created d va pp perm p k) l
IsFreeList-created d va pp perm p l k v out =
    let k1 = with_table d va p k in
    let w = IsFreeList-with_ref pp (next_ref k1 pp) l k1 (IsFreeList-with_table d va p l k v) out in
    record { linked = w.linked; distinct = w.distinct; unused = w.unused; in_memory = w.in_memory }

-- page_insert where the directory has no table for `va`. With a free page p it succeeds: p becomes
-- the table, with one reference, and leaves the free list; the slot for `va` holds the new entry,
-- page_lookup finds the page there, and the page gains a reference. With no free page it returns
-- -E_NO_MEM and changes nothing. Neither the directory nor the page to be mapped is a free page.
pub page_insert_creates :
    (d va pp perm : ℕ) (free : List ℕ) (k : Kernel)
    → test_bit (k.mem d (pdx va)) 0 ≡ false
    → IsFreeList k free
    → k.npages ≤ 2 ^ 20
    → NotIn d free
    → NotIn pp free
    → pp < k.npages
    → perm < 2 ^ 12
    → (free ≡ [] → page_insert d pp va perm k ≡ returned e_no_mem k)
      × ((p : ℕ) (l : List ℕ)
          → free ≡ p ∷ l
          → (k' : Kernel) × (page_insert d pp va perm k ≡ returned (pos 0) k')
            × IsMapped k' d va pp perm
            × IsFreeList k' l
            × ((k'.pages p).pp_ref ≡ 1)
            × ((k'.pages pp).pp_ref ≡ next_ref k pp))
page_insert_creates d va pp perm [] k e v n nd npp h b =
    ((λ _. page_insert_full d va pp perm k e v), (λ p l eq. cc))
page_insert_creates d va pp perm (q ∷ free) k e v n nd npp h b = (
  (λ eq. cc),
  (λ p l eq.
      let same : q ≡ p = cc in
      let rest : free ≡ l = cc in
      let v' : IsFreeList k (p ∷ l) = rw (← eq) v in
      let apart : p ≢ d = λ x. nd.0 (sym (same ∙ x)) in
      let other : pp ≢ p = λ x. npp.0 (x ∙ sym same) in
      (
        created d va pp perm p k,
        page_insert-created d va pp perm p l k e v' n apart,
        created-IsMapped d va pp perm p k v'.in_memory.0 n apart h b,
        IsFreeList-created d va pp perm p l k v' (subst (NotIn pp) rest npp.1),
        ground arith,
        ground arith,
      )),
)
