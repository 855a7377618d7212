-- ===== src/Kern/Pgdir/Walk.antt =====
-- pgdir_walk and page_lookup of mit-6.828/lab/kern/pmap.c: which slot a walk finds, and what it
-- changes where it has to make a table.
use papers_annotation.Prelude.{
  ℕ, ◌^◌, ◌≤◌, ◌<◌, ◌≡◌, ◌≢◌, none, some, List, [], ◌∷◌, arith, true, false, Bool,
}
use papers_annotation.Mmu.{pgnum, pte_addr, pdx, ptx, test_bit}
use papers_annotation.Kern.State.{Kernel, returned, update}
use papers_annotation.Kern.Pages.Allocator.{
  IsFreeList, allocated, with_ref, page_alloc-eq-allocated, page_alloc_empty,
}
use papers_annotation.Kern.Pgdir.{Slot, table_slot, install_table, pgdir_walk, page_lookup}
use papers_annotation.Kern.Pgdir.Entries.{table_entry, table_entry_fields}

-- The page of the table that the directory `d` names for `va`, where its entry is present.
abbrev pub table_of : Kernel → ℕ → ℕ → ℕ
table_of k d va = pgnum (pte_addr (k.mem d (pdx va)))

abbrev pub slot_of : Kernel → ℕ → ℕ → Slot
slot_of k d va = record { frame = table_of k d va; index = ptx va }

abbrev pub write_word : ℕ → ℕ → ℕ → Kernel → Kernel
write_word p j v k = record k { mem = update k.mem p (update (k.mem p) j v) }

-- A present directory entry names a table in the physical memory, and not the directory itself.
pub record HasTable (k : Kernel) (d va : ℕ) : Type 0 where
  pub present : test_bit (k.mem d (pdx va)) 0 ≡ true
  pub in_memory : table_of k d va < k.npages
  pub apart : table_of k d va ≢ d

pub table_slot-eq :
    (d va : ℕ) (k : Kernel)
    → table_of k d va < k.npages
    → table_slot d va k ≡ returned (some (slot_of k d va)) k
unfolding table_slot
table_slot-eq d va k h = ground arith

-- With the table in place a walk finds its slot, and changes nothing.
pub pgdir_walk_present :
    (d va : ℕ) (k : Kernel)
    → HasTable k d va
    → (create : Bool) → pgdir_walk d va create k ≡ returned (some (slot_of k d va)) k
unfolding pgdir_walk
pgdir_walk_present d va k t create = rw (t.present) (table_slot-eq d va k t.in_memory)

-- Without it, a walk that may not create finds nothing.
pub pgdir_walk_absent :
    (d va : ℕ) (k : Kernel)
    → test_bit (k.mem d (pdx va)) 0 ≡ false
    → pgdir_walk d va false k ≡ returned none k
unfolding pgdir_walk
pgdir_walk_absent d va k e = rw e

-- The state after a walk that made a table of the free page p.
abbrev pub with_table : ℕ → ℕ → ℕ → Kernel → Kernel
with_table d va p k = write_word d (pdx va) (table_entry p) (with_ref p 1 (allocated 1 p k))

-- If the allocator has no page, nothing is made.
pub pgdir_walk_full :
    (d va : ℕ) (k : Kernel)
    → test_bit (k.mem d (pdx va)) 0 ≡ false
    → IsFreeList k []
    → pgdir_walk d va true k ≡ returned none k
unfolding pgdir_walk install_table
pgdir_walk_full d va k e v = rw (e, page_alloc_empty 1 k v)

pub pgdir_walk_creates :
    (d va p : ℕ) (l : List ℕ) (k : Kernel)
    → test_bit (k.mem d (pdx va)) 0 ≡ false
    → IsFreeList k (p ∷ l)
    → k.npages ≤ 2 ^ 20
    → pgdir_walk d va true k
      ≡ returned (some (record { frame = p; index = ptx va })) (with_table d va p k)
unfolding pgdir_walk install_table
pgdir_walk_creates d va p l k e v n =
    rw (e, page_alloc-eq-allocated 1 p k v.linked.0 v.in_memory.0 n)
      (ground (arith, table_entry_fields p (omega (arith, v.in_memory.0))))

-- The slot holds a present entry of a page of the physical memory: page_lookup finds that page.
pub page_lookup-eq :
    (d va : ℕ) (k : Kernel)
    → HasTable k d va
    → test_bit (k.mem (table_of k d va) (ptx va)) 0 ≡ true
    → pgnum (pte_addr (k.mem (table_of k d va) (ptx va))) < k.npages
    → page_lookup d va k
      ≡ returned (some (pgnum (pte_addr (k.mem (table_of k d va) (ptx va))), slot_of k d va)) k
unfolding page_lookup
page_lookup-eq d va k t e h = rw (pgdir_walk_present d va k t false) (ground arith)

-- The slot is empty: it finds none.
pub page_lookup_empty :
    (d va : ℕ) (k : Kernel)
    → HasTable k d va
    → test_bit (k.mem (table_of k d va) (ptx va)) 0 ≡ false
    → page_lookup d va k ≡ returned none k
unfolding page_lookup
page_lookup_empty d va k t e = rw (pgdir_walk_present d va k t false) (ground arith)
