-- ===== src/Kern/Pgdir/Remove.antt =====
-- page_remove of mit-6.828/lab/kern/pmap.c, and page_insert where the directory has no table yet.
use papers_annotation.Prelude.{
  ℕ, suc, ◌-◌, ◌^◌, ◌<◌, ◌≡◌, ◌≢◌, ◌⊎◌, refl, ap, ◌∙◌, none, List, ◌∷◌, true, false, ◌==◌,
  if◌then◌else◌, inl,
}
use papers_annotation.Mmu.{pgnum, pte_addr, pdx, ptx, test_bit}
use papers_annotation.Kern.State.{Kernel, returned}
use papers_annotation.Kern.Pages.Allocator.{
  IsFreeList, dropped, page_decref-dropped, dropped_lem, IsFreeList-dropped,
}
use papers_annotation.Kern.Pgdir.{page_lookup, page_remove}
use papers_annotation.Kern.Pgdir.Walk.{table_of, write_word, HasTable, page_lookup_empty}
use papers_annotation.Kern.Pgdir.Insert.{
  pte_of, page_of, unmapped, write_word_elsewhere, write_word_here, page_remove-eq,
  HasTable-elsewhere,
}

-- A word written into the slot is what the slot then holds.
written_pte :
    (d va w : ℕ) (k k' : Kernel)
    → HasTable k d va
    → k'.mem ≡ (write_word (table_of k d va) (ptx va) w k).mem
    → k'.npages ≡ k.npages
    → HasTable k' d va × (pte_of k' d va ≡ w)
written_pte d va w k k' t e n =
    let same : (j : ℕ) → k'.mem d j ≡ k.mem d j =
      λ j. rw e (write_word_elsewhere (table_of k d va) (ptx va) w k d j (inl t.apart)) in
    let here : k'.mem (table_of k d va) (ptx va) ≡ w =
      rw e (write_word_here (table_of k d va) (ptx va) w k) in
    (
      HasTable-elsewhere d va k k' t same n,
      ap (λ (w : ℕ). k'.mem (pgnum (pte_addr w)) (ptx va)) (same (pdx va)) ∙ here,
    )

-- A free list depends on the page array and its head alone.
IsFreeList-unmapped :
    (d va : ℕ) (l : List ℕ) (k : Kernel) → IsFreeList k l → IsFreeList (unmapped d va k) l
IsFreeList-unmapped d va l k v = record {
  linked = v.linked;
  distinct = v.distinct;
  unused = v.unused;
  in_memory = v.in_memory;
}

page_remove_empty :
    (d va : ℕ) (k : Kernel)
    → HasTable k d va
    → test_bit (pte_of k d va) 0 ≡ false
    → page_remove d va k ≡ returned tt k
unfolding page_remove
page_remove_empty d va k t e = rw (page_lookup_empty d va k t e) refl

-- page_remove of a mapped page: the slot for `va` is cleared so that page_lookup finds nothing there,
-- the page loses one reference and joins the free list if that was the last, and no other word of
-- memory changes. Where nothing is mapped, nothing changes at all.
pub page_remove_unmaps :
    (d va r : ℕ) (l : List ℕ) (k : Kernel)
    → HasTable k d va
    → IsFreeList k l
    → (test_bit (pte_of k d va) 0 ≡ false → page_remove d va k ≡ returned tt k)
      × (test_bit (pte_of k d va) 0 ≡ true
          → page_of k d va < k.npages
          → (k.pages (page_of k d va)).pp_ref ≡ suc r
          → r < 2 ^ 16 - 1
          → (k' : Kernel) × (page_remove d va k ≡ returned tt k')
            × (page_lookup d va k' ≡ returned none k')
            × ((k'.pages (page_of k d va)).pp_ref ≡ r)
            × IsFreeList k' (if r == 0 then page_of k d va ∷ l else l)
            × ((f j : ℕ) → (table_of k d va ≢ f) ⊎ (ptx va ≢ j) → k'.mem f j ≡ k.mem f j))
page_remove_unmaps d va r l k t v = (
  page_remove_empty d va k t,
  (λ e h ref b.
      let o = page_of k d va in
      let laws = dropped_lem o r (unmapped d va k) in
      let k' = dropped o r (unmapped d va k) in
      let cleared = written_pte d va 0 k k' t laws.0 laws.1 in
      (
        k',
        page_remove-eq d va k t e h ∙ page_decref-dropped o r (unmapped d va k) ref b,
        page_lookup_empty d va k' cleared.0 (rw cleared.1 refl),
        laws.2,
        IsFreeList-dropped o r l (unmapped d va k) (IsFreeList-unmapped d va l k v) h ref,
        (λ f j ne.
            ap (λ m. m f j) laws.0 ∙ write_word_elsewhere (table_of k d va) (ptx va) 0 k f j ne),
      )),
)
