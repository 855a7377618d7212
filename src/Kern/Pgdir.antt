-- ===== src/Kern/Pgdir.antt =====
-- The two-level page tables of mit-6.828/lab/kern/pmap.c: pgdir_walk, boot_map_region, page_insert,
-- page_lookup, page_remove, tlb_invalidate, mmio_map_region and user_mem_check.
pub mod Entries
pub mod Walk
pub mod Insert
pub mod Remap
pub mod Remove
pub mod Create
pub mod UserMem
use papers_annotation.Prelude.{
  ℕ, zero, suc, ◌+◌, ◌-◌, ◌*◌, ◌/◌, ◌%◌, ◌^◌, Option, none, some, Bool, true, false, not, ◌&&◌,
  ◌||◌, ltb, leb, ◌==◌, if◌then◌else◌, bit_and, bit_or, ◌∷◌,
}
use papers_annotation.Prelude.Int.{ℤ, pos}
use papers_annotation.Mmu.{
  u32, pgsize, pdx, ptx, pte_addr, pte_p, pte_w, pte_u, pte_pwt, pte_pcd, mmiolim, ulim, rounddown,
  roundup, test_bit, e_no_mem, e_fault,
}
use papers_annotation.Kern.State.{
  Env, Kernel, M, Outcome, returned, update, pure, panic, bind, ◌>>=◌, ◌>>◌, gets, modify, require,
}
use papers_annotation.Kern.Pages.{page2pa, kaddr, pa2page, page_alloc, page_decref, pp_incref}

-- A `pte_t *`: a word of a physical page. A `pde_t *` that names a directory is its page.
pub record Slot : Type 0 where
  pub frame : ℕ
  pub index : ℕ

abbrev pub load : Slot → M ℕ
load s = gets (λ k. k.mem s.frame s.index)

abbrev pub store : Slot → ℕ → M (Unit {0})
store s v = modify (λ k. record k { mem = update k.mem s.frame (update (k.mem s.frame) s.index v) })

-- The last two lines of pgdir_walk: the slot for `va` in the table that the directory names.
unfoldable pub table_slot : ℕ → ℕ → M (Option Slot)
unfolding kaddr
table_slot pgdir va = do
  pde ← load (record { frame = pgdir; index = pdx va })
  pt ← kaddr (pte_addr pde)
  pure (some (record { frame = pt; index = ptx va }))

-- What pgdir_walk does with the page that page_alloc returned.
unfoldable pub install_table : ℕ → ℕ → Option ℕ → M (Option Slot)
unfolding pp_incref table_slot page2pa
install_table pgdir va none = pure none
install_table pgdir va (some pp) = do
  pp_incref pp
  store (record { frame = pgdir; index = pdx va })
      (bit_or (bit_or (bit_or (page2pa pp) pte_p) pte_w) pte_u)
  table_slot pgdir va

unfoldable pub pgdir_walk : ℕ → ℕ → Bool → M (Option Slot)
unfolding install_table page_alloc
pgdir_walk pgdir va create = do
  pde ← load (record { frame = pgdir; index = pdx va })
  if test_bit pde 0
      then table_slot pgdir va
      else if create
      then (page_alloc 1 >>= install_table pgdir va)
      else pure none

-- One round of boot_map_region's loop.
unfoldable pub boot_map_page : ℕ → ℕ → ℕ → ℕ → ℕ → M (Unit {0})
unfolding pgdir_walk
boot_map_page pgdir va pa perm i =
    pgdir_walk pgdir (u32 (va + i)) true
    >>= elim [ none ↦ panic | some pte ↦ store pte (bit_or (bit_or (u32 (pa + i)) perm) pte_p) ]

unfoldable pub boot_map_from : ℕ → ℕ → ℕ → ℕ → ℕ → ℕ → M (Unit {0})
boot_map_from zero pgdir va pa perm i = pure tt
boot_map_from (suc rounds) pgdir va pa perm i =
    boot_map_page pgdir va pa perm i >>= λ _. boot_map_from rounds pgdir va pa perm (i + pgsize)

-- The loop runs once for each page that `size` bytes begin (for a size above 0xfffff000 the index
-- of the source wraps, and it does not end).
unfoldable pub boot_map_region : ℕ → ℕ → ℕ → ℕ → ℕ → M (Unit {0})
boot_map_region pgdir va size pa perm =
    boot_map_from ((size + pgsize - 1) / pgsize) pgdir va pa perm 0

-- `!curenv || curenv->env_pgdir == pgdir`
abbrev pub in_force : Kernel → ℕ → Bool
in_force k pgdir = elim k.curenv [
  | none ↦ true
  | some e ↦ elim (k.envs e).env_pgdir [ none ↦ false | some d ↦ d == pgdir ]
]

unfoldable pub tlb_invalidate : ℕ → ℕ → M (Unit {0})
tlb_invalidate pgdir va =
    modify (λ k. record k { invlpgs = if in_force k pgdir then va ∷ k.invlpgs else k.invlpgs })

-- The page mapped at `va`, and its slot.
unfoldable pub page_lookup : ℕ → ℕ → M (Option (ℕ × Slot))
unfolding pgdir_walk pa2page
page_lookup pgdir va = pgdir_walk pgdir va false >>= elim [
  | none ↦ pure none
  | some slot ↦ (do
    pte ← load slot
    if test_bit pte 0 then (do pp ← pa2page (pte_addr pte); pure (some (pp, slot))) else pure none)
]

unfoldable pub page_remove : ℕ → ℕ → M (Unit {0})
unfolding page_lookup tlb_invalidate page_decref
page_remove pgdir va = page_lookup pgdir va >>= elim [
  | none ↦ pure tt
  | some (pp, slot) ↦ (do store slot 0; tlb_invalidate pgdir va; page_decref pp)
]

-- What page_insert writes: page2pa(pp) | perm | PTE_P.
abbrev pub entry : ℕ → ℕ → ℕ
entry pp perm = bit_or (bit_or (page2pa pp) perm) pte_p

-- The last four lines of page_insert.
unfoldable pub map_page : ℕ → ℕ → ℕ → ℕ → Slot → M ℤ
unfolding pp_incref tlb_invalidate
map_page pgdir pp va perm slot = do
  pp_incref pp
  store slot (entry pp perm)
  tlb_invalidate pgdir va
  pure (pos 0)

unfoldable pub page_insert : ℕ → ℕ → ℕ → ℕ → M ℤ
unfolding pgdir_walk page_remove map_page page2pa tlb_invalidate
page_insert pgdir pp va perm = pgdir_walk pgdir va true >>= elim [
  | none ↦ pure e_no_mem
  | some slot ↦ (do
    pte ← load slot
    if test_bit pte 0
        then (if pte_addr pte == page2pa pp
            then (do store slot (entry pp perm); tlb_invalidate pgdir va; pure (pos 0))
            else (do page_remove pgdir va; map_page pgdir pp va perm slot))
        else map_page pgdir pp va perm slot)
]

-- `base` is the static variable `mmio_base`.
unfoldable pub mmio_map_region : ℕ → ℕ → M ℕ
unfolding boot_map_region
mmio_map_region pa size = do
  let len = roundup size pgsize
  base ← gets (λ k. k.mmio_base)
  require (not (leb mmiolim (u32 (base + len)) || ltb (u32 (base + len)) base))
  dir ← gets (λ k. k.kern_pgdir)
  boot_map_region dir base len pa (bit_or (bit_or pte_w pte_pcd) pte_pwt)
  modify (λ k. record k { mmio_base = u32 (base + len) })
  pure base

-- One page of user_mem_check's loop: is it mapped with all the bits of `perm`?
unfoldable pub page_permits : ℕ → ℕ → ℕ → M Bool
unfolding pgdir_walk
page_permits pgdir perm addr = pgdir_walk pgdir addr false >>= elim [
  | none ↦ pure false
  | some slot ↦ (do pte ← load slot; pure (test_bit pte 0 && bit_and pte perm == perm))
]

-- `rounds` pages are left from `addr` on; the address recorded on a failure is `start`. (For a range
-- that ends in the last page of the address space the source's pointer wraps to 0.)
unfoldable pub check_from : ℕ → ℕ → ℕ → ℕ → ℕ → M ℤ
unfolding page_permits
check_from zero pgdir perm start addr = pure (pos 0)
check_from (suc rounds) pgdir perm start addr = page_permits pgdir perm addr >>= elim [
  | true ↦ check_from rounds pgdir perm start (addr + pgsize)
  | false ↦ (do modify (λ k. record k { user_mem_check_addr = start }); pure e_fault)
]

-- The directory of an environment; a NULL directory faults in the kernel, which panics.
unfoldable pub pgdir_of : Env → M ℕ
pgdir_of e = elim e.env_pgdir [ none ↦ panic | some d ↦ pure d ]

unfoldable pub user_mem_check : Env → ℕ → ℕ → ℕ → M ℤ
unfolding check_from pgdir_of
user_mem_check env va len perm =
    let end = u32 (va + len) in
    let first = rounddown va pgsize in
    if leb ulim va || leb end va
    then (do modify (λ k. record k { user_mem_check_addr = va }); pure e_fault)
    else (do
      pgdir ← pgdir_of env
      check_from ((end - first + pgsize - 1) / pgsize) pgdir perm va first)
