-- ===== src/Kern/Pgdir/Insert.antt =====
-- page_insert and page_remove of mit-6.828/lab/kern/pmap.c: what page_lookup finds afterwards, and
-- the reference counts.
use papers_annotation.Prelude.{
  ℕ, ◌+◌, ◌%◌, ◌^◌, ◌≤◌, ◌<◌, ◌≡◌, ◌≢◌, ◌⊎◌, refl, ap, ◌∙◌, some, ◌∷◌, arith, true, false, ◌==◌,
  if◌then◌else◌, inl,
}
use papers_annotation.Prelude.Int.{pos}
use papers_annotation.Mmu.{pgnum, pte_addr, pdx, ptx, test_bit}
use papers_annotation.Kern.State.{Kernel, returned, bind}
use papers_annotation.Kern.Pages.{page2pa, page_decref}
use papers_annotation.Kern.Pages.Allocator.{with_ref}
use papers_annotation.Kern.Pgdir.{
  Slot, entry, in_force, map_page, page_lookup, page_remove, page_insert,
}
use papers_annotation.Kern.Pgdir.Entries.{entry_fields, page2pa-eq}
use papers_annotation.Kern.Pgdir.Walk.{
  table_of, slot_of, write_word, HasTable, page_lookup-eq, pgdir_walk_present,
}

abbrev pub flushed : ℕ → ℕ → Kernel → Kernel
flushed d va k = record k { invlpgs = if in_force k d then va ∷ k.invlpgs else k.invlpgs }

abbrev pub next_ref : Kernel → ℕ → ℕ
next_ref k p = ((k.pages p).pp_ref + 1) % 2 ^ 16

-- The word that the slot for `va` holds, and the page that it maps.
abbrev pub pte_of : Kernel → ℕ → ℕ → ℕ
pte_of k d va = k.mem (table_of k d va) (ptx va)

abbrev pub page_of : Kernel → ℕ → ℕ → ℕ
page_of k d va = pgnum (pte_addr (pte_of k d va))

abbrev pub mapped : ℕ → ℕ → ℕ → ℕ → Slot → Kernel → Kernel
mapped d pp va perm s k =
    flushed d va (write_word s.frame s.index (entry pp perm) (with_ref pp (next_ref k pp) k))

pub map_page-eq :
    (d pp va perm : ℕ) (s : Slot) (k : Kernel)
    → map_page d pp va perm s k ≡ returned (pos 0) (mapped d pp va perm s k)
unfolding map_page
map_page-eq d pp va perm s k = refl

-- The slot for `va` emptied, and the TLB told.
abbrev pub unmapped : ℕ → ℕ → Kernel → Kernel
unmapped d va k = flushed d va (write_word (table_of k d va) (ptx va) 0 k)

pub page_remove-eq :
    (d va : ℕ) (k : Kernel)
    → HasTable k d va
    → test_bit (pte_of k d va) 0 ≡ true
    → page_of k d va < k.npages
    → page_remove d va k ≡ page_decref (page_of k d va) (unmapped d va k)
unfolding page_remove
page_remove-eq d va k t e h = rw (page_lookup-eq d va k t e h) refl

-- A state that differs in words outside the directory, and in reference counts.
pub HasTable-elsewhere :
    (d va : ℕ) (k k' : Kernel)
    → HasTable k d va
    → ((j : ℕ) → k'.mem d j ≡ k.mem d j)
    → k'.npages ≡ k.npages
    → HasTable k' d va
HasTable-elsewhere d va k k' t same n = record {
  present = rw (same (pdx va)) t.present;
  in_memory = rw (same (pdx va), n) t.in_memory;
  apart = rw (same (pdx va)) t.apart;
}

-- What page_insert is to bring about: the slot for `va` holds the entry, and page_lookup finds the
-- page there.
pub record IsMapped (k : Kernel) (d va pp perm : ℕ) : Type 0 where
  pub table : HasTable k d va
  pub written : pte_of k d va ≡ entry pp perm
  pub found : page_lookup d va k ≡ returned (some (pp, slot_of k d va)) k

IsMapped-of_written :
    (d va pp perm : ℕ) (k : Kernel)
    → HasTable k d va
    → pte_of k d va ≡ entry pp perm
    → k.npages ≤ 2 ^ 20
    → pp < k.npages
    → perm < 2 ^ 12
    → IsMapped k d va pp perm
IsMapped-of_written d va pp perm k t e n h b =
    let fields = entry_fields pp perm (omega arith) b in
    let page : page_of k d va ≡ pp = rw e fields.1 in
    record {
      table = t;
      written = e;
      found = page_lookup-eq d va k t (rw e fields.0) (omega (arith, page)) ∙ (rw page);
    }

pub write_word_elsewhere :
    (p j v : ℕ) (k : Kernel) (q i : ℕ)
    → (p ≢ q) ⊎ (j ≢ i)
    → (write_word p j v k).mem q i ≡ k.mem q i
write_word_elsewhere p j v k q i h = ground arith

pub write_word_here : (p j v : ℕ) (k : Kernel) → (write_word p j v k).mem p j ≡ v
write_word_here p j v k = ground arith

-- Writing the entry maps the page, whatever else changes outside memory.
pub written-IsMapped :
    (d va pp perm : ℕ) (k k' : Kernel)
    → HasTable k d va
    → k.npages ≤ 2 ^ 20
    → pp < k.npages
    → perm < 2 ^ 12
    → k'.mem ≡ (write_word (table_of k d va) (ptx va) (entry pp perm) k).mem
    → k'.npages ≡ k.npages
    → IsMapped k' d va pp perm
written-IsMapped d va pp perm k k' t n h b e np =
    let same : (j : ℕ) → k'.mem d j ≡ k.mem d j = λ j.
      rw e (write_word_elsewhere (table_of k d va) (ptx va) (entry pp perm) k d j (inl t.apart)) in
    let here : k'.mem (table_of k d va) (ptx va) ≡ entry pp perm =
      rw e (write_word_here (table_of k d va) (ptx va) (entry pp perm) k) in
    IsMapped-of_written d va pp perm k' (HasTable-elsewhere d va k k' t same np)
      (ap (λ (w : ℕ). k'.mem (pgnum (pte_addr w)) (ptx va)) (same (pdx va)) ∙ here) (omega arith)
      (omega arith) b

-- The slot is empty.
pub page_insert_empty :
    (d va pp perm : ℕ) (k : Kernel)
    → HasTable k d va
    → test_bit (pte_of k d va) 0 ≡ false
    → page_insert d pp va perm k ≡ returned (pos 0) (mapped d pp va perm (slot_of k d va) k)
unfolding page_insert
page_insert_empty d va pp perm k t e = rw (pgdir_walk_present d va k t true, e) refl

-- The page is mapped there already.
pub page_insert_same :
    (d va pp perm : ℕ) (k : Kernel)
    → HasTable k d va
    → test_bit (pte_of k d va) 0 ≡ true
    → page_of k d va ≡ pp
    → pp < 2 ^ 20
    → page_insert d pp va perm k
      ≡ returned (pos 0) (flushed d va (write_word (table_of k d va) (ptx va) (entry pp perm) k))
unfolding page_insert
page_insert_same d va pp perm k t e o h =
    let test : (pte_addr (pte_of k d va) == page2pa pp) ≡ true = ground (arith, page2pa-eq pp h) in
    rw (pgdir_walk_present d va k t true, e, test) refl

-- Another page is mapped there: it is removed first.
pub page_insert_other :
    (d va pp perm : ℕ) (k : Kernel)
    → HasTable k d va
    → test_bit (pte_of k d va) 0 ≡ true
    → page_of k d va ≢ pp
    → pp < 2 ^ 20
    → page_of k d va < k.npages
    → page_insert d pp va perm k
      ≡ bind
          (page_decref (page_of k d va) (unmapped d va k))
          (λ _. map_page d pp va perm (slot_of k d va))
unfolding page_insert
page_insert_other d va pp perm k t e o h old =
    let test : (pte_addr (pte_of k d va) == page2pa pp) ≡ false = ground (arith, page2pa-eq pp h) in
    rw (pgdir_walk_present d va k t true, e, test, page_remove-eq d va k t e old) refl
