-- ===== src/Kern/Pgdir/Remap.antt =====
-- page_insert of mit-6.828/lab/kern/pmap.c as a whole: the mapping and the reference counts that it
-- leaves, in each of its three branches and with or without a table to start from.
use papers_annotation.Prelude.{
  ℕ, suc, ◌-◌, ◌^◌, ◌≤◌, ◌<◌, ◌≡◌, ◌≢◌, ◌⊎◌, refl, ap, ◌∙◌, fun_ext, arith, true, false, Bool-cases,
  inl, inr, ℕ_discrete,
}
use papers_annotation.Prelude.Int.{pos}
use papers_annotation.Mmu.{ptx, test_bit}
use papers_annotation.Kern.State.{Kernel, returned, update, bind}
use papers_annotation.Kern.Pages.Allocator.{dropped, page_decref-dropped, dropped_lem}
use papers_annotation.Kern.Pgdir.{entry, map_page, page_insert}
use papers_annotation.Kern.Pgdir.Walk.{table_of, slot_of, write_word, HasTable}
use papers_annotation.Kern.Pgdir.Insert.{
  flushed, next_ref, pte_of, page_of, mapped, unmapped, map_page-eq, IsMapped, write_word_elsewhere,
  written-IsMapped, page_insert_empty, page_insert_same, page_insert_other,
}

-- What page_insert leaves in the reference counts: that of a page that was mapped there already stays,
-- otherwise the new page's rises by one, and that of another page mapped there falls by one.
pub record Counted (k k' : Kernel) (d va pp r : ℕ) : Type 0 where
  pub same_page :
      test_bit (pte_of k d va) 0 ≡ true
      → page_of k d va ≡ pp
      → (k'.pages pp).pp_ref ≡ (k.pages pp).pp_ref
  pub empty_slot : test_bit (pte_of k d va) 0 ≡ false → (k'.pages pp).pp_ref ≡ next_ref k pp
  pub other_page :
      test_bit (pte_of k d va) 0 ≡ true
      → page_of k d va ≢ pp
      → ((k'.pages pp).pp_ref ≡ next_ref k pp) × ((k'.pages (page_of k d va)).pp_ref ≡ r)

-- The outcome of page_insert: it succeeds, the slot then holds the new entry and page_lookup finds the
-- page, the counts are as `Counted` says, and no word but the slot changes.
abbrev pub Inserts : Kernel → ℕ → ℕ → ℕ → ℕ → ℕ → Type 0
Inserts k d va pp perm r =
    (k' : Kernel) × (page_insert d pp va perm k ≡ returned (pos 0) k')
    × IsMapped k' d va pp perm
    × Counted k k' d va pp r
    × ((f j : ℕ) → (table_of k d va ≢ f) ⊎ (ptx va ≢ j) → k'.mem f j ≡ k.mem f j)

module _ (d va pp perm r : ℕ) (k : Kernel) (t : HasTable k d va) (n : k.npages ≤ 2 ^ 20)
    (h : pp < k.npages) (b : perm < 2 ^ 12) where
  insert_empty : test_bit (pte_of k d va) 0 ≡ false → Inserts k d va pp perm r
  insert_empty e = (
    mapped d pp va perm (slot_of k d va) k,
    page_insert_empty d va pp perm k t e,
    written-IsMapped d va pp perm k (mapped d pp va perm (slot_of k d va) k) t n h b refl refl,
    record { same_page = λ e' _. cc; empty_slot = λ _. ground arith; other_page = λ e' _. cc },
    write_word_elsewhere (table_of k d va) (ptx va) (entry pp perm) k,
  )

  insert_same : test_bit (pte_of k d va) 0 ≡ true → page_of k d va ≡ pp → Inserts k d va pp perm r
  insert_same e same = (
    flushed d va (write_word (table_of k d va) (ptx va) (entry pp perm) k),
    page_insert_same d va pp perm k t e same (omega arith),
    written-IsMapped d va pp perm k
        (flushed d va (write_word (table_of k d va) (ptx va) (entry pp perm) k)) t n h b refl refl,
    record {
      same_page = λ _ _. refl;
      empty_slot = λ e'. cc;
      other_page = λ _ ne. absurd (ne same);
    },
    write_word_elsewhere (table_of k d va) (ptx va) (entry pp perm) k,
  )

  write_word_twice :
      (p j v w : ℕ) → (write_word p j v (write_word p j w k)).mem ≡ (write_word p j v k).mem
  write_word_twice p j v w = fun_ext λ q. fun_ext λ i. ground arith

  insert_other :
      test_bit (pte_of k d va) 0 ≡ true
      → page_of k d va ≢ pp
      → (page_of k d va < k.npages) × ((k.pages (page_of k d va)).pp_ref ≡ suc r) × (r < 2 ^ 16 - 1)
      → Inserts k d va pp perm r
  insert_other e other old =
      let o = page_of k d va in
      let k1 = dropped o r (unmapped d va k) in
      let k2 = mapped d pp va perm (slot_of k d va) k1 in
      let laws = dropped_lem o r (unmapped d va k) in
      let mem : k2.mem ≡ (write_word (table_of k d va) (ptx va) (entry pp perm) k).mem =
        ap (λ m. update m (table_of k d va) (update (m (table_of k d va)) (ptx va) (entry pp perm)))
          laws.0
        ∙ write_word_twice (table_of k d va) (ptx va) (entry pp perm) 0 in
      (
        k2,
        page_insert_other d va pp perm k t e other (omega arith) old.0
            ∙ ap (λ m. bind m (λ _. map_page d pp va perm (slot_of k d va)))
                (page_decref-dropped o r (unmapped d va k) old.1 old.2)
            ∙ map_page-eq d pp va perm (slot_of k d va) k1,
        written-IsMapped d va pp perm k k2 t n h b mem laws.1,
        record {
          same_page = λ _ eq. absurd (other eq);
          empty_slot = λ e'. cc;
          other_page = λ _ ne. (ground (arith, laws.3 pp), ground (arith, laws.2));
        },
        (λ f j ne.
            ap (λ m. m f j) mem
            ∙ write_word_elsewhere (table_of k d va) (ptx va) (entry pp perm) k f j ne),
      )

  -- page_insert where the directory has a table for `va`: it succeeds, the slot then holds the new
  -- entry and page_lookup finds the page there; the count of a page that was mapped there already
  -- stays, otherwise the new page's rises by one and another page's that was mapped there falls by
  -- one; no other word of memory changes. The page mapped there before, if any, lies in memory and
  -- is referenced.
  pub page_insert_maps :
      (test_bit (pte_of k d va) 0 ≡ true
        → (page_of k d va < k.npages)
          × ((k.pages (page_of k d va)).pp_ref ≡ suc r)
          × (r < 2 ^ 16 - 1))
      → Inserts k d va pp perm r
  page_insert_maps old = elim (Bool-cases (test_bit (pte_of k d va) 0)) [
    | inr e ↦ insert_empty e
    | inl e ↦ elim (ℕ_discrete (page_of k d va) pp) [
      | yes same ↦ insert_same e same
      | no other ↦ insert_other e other (old e)
    ]
  ]
