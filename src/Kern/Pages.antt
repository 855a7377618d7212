-- ===== src/Kern/Pages.antt =====
-- The physical page allocator of mit-6.828/lab/kern/pmap.c (page_alloc, page_free, page_decref) and
-- the address conversions of kern/pmap.h.
pub mod Lists
pub mod Allocator
pub mod Init
use papers_annotation.Prelude.{
  ℕ, zero, suc, ◌+◌, ◌-◌, ◌*◌, ◌/◌, ◌%◌, ◌^◌, Option, none, some, Bool, true, false, ◌&&◌, ◌||◌,
  ltb, leb, ◌==◌, if◌then◌else◌,
}
use papers_annotation.Mmu.{
  u32, pgsize, pgnum, test_bit, kernbase, roundup, iophysmem, extphysmem, mpentry_paddr,
}
use papers_annotation.Kern.State.{
  PageInfo, Kernel, M, Outcome, returned, update, pure, panic, bind, ◌>>=◌, ◌>>◌, gets, modify,
  require, set_page,
}

-- page2pa shifts within 32 bits.
unfoldable pub page2pa : ℕ → ℕ
page2pa pp = u32 (pp * 2 ^ 12)

-- The page that KADDR's argument lies in; it panics beyond the physical memory.
unfoldable pub kaddr : ℕ → M ℕ
kaddr pa k = (do require (ltb (pgnum pa) k.npages); pure (pgnum pa)) k

unfoldable pub pa2page : ℕ → M ℕ
pa2page pa k = (do require (ltb (pgnum pa) k.npages); pure (pgnum pa)) k

-- memset(page2kva(pp), 0, PGSIZE)
unfoldable pub clear_page : ℕ → M (Unit {0})
unfolding kaddr page2pa
clear_page pp = do
  kva ← kaddr (page2pa pp)
  modify (λ k. record k { mem = update k.mem kva (λ _. 0) })

-- ALLOC_ZERO is bit 0 of the flags.
unfoldable pub page_alloc : ℕ → M (Option ℕ)
unfolding clear_page
page_alloc alloc_flags k = elim k.page_free_list [
  | none ↦ returned none k
  | some pp ↦
      (do
        modify (λ k. record k { page_free_list = (k.pages pp).pp_link })
        modify (λ k. set_page pp (record { pp_link = none; pp_ref = 0 }) k)
        if test_bit alloc_flags 0 then clear_page pp else pure tt
        pure (some pp))
        k
]

unfoldable pub page_free : ℕ → M (Unit {0})
page_free pp k =
    (do
      require ((k.pages pp).pp_ref == 0)
      modify (λ k. set_page pp (record (k.pages pp) { pp_link = k.page_free_list }) k)
      modify (λ k. record k { page_free_list = some pp }))
      k

-- `pp_ref` is a uint16_t.
unfoldable pub pp_incref : ℕ → M (Unit {0})
pp_incref pp =
    modify
      (λ k. set_page pp (record (k.pages pp) { pp_ref = ((k.pages pp).pp_ref + 1) % 2 ^ 16 }) k)

unfoldable pub page_decref : ℕ → M (Unit {0})
unfolding page_free
page_decref pp k =
    let left = ((k.pages pp).pp_ref + 2 ^ 16 - 1) % 2 ^ 16 in
    (do
      modify (set_page pp (record (k.pages pp) { pp_ref = left }))
      if left == 0 then page_free pp else pure tt)
      k

-- `end`, the linker's symbol, is an argument. With n = 0 nothing is allocated.
unfoldable pub boot_alloc : ℕ → ℕ → M ℕ
boot_alloc end n = do
  modify (λ k. record k { nextfree = if k.nextfree == 0 then roundup end pgsize else k.nextfree })
  result ← gets (λ k. k.nextfree)
  if n == 0 then pure result else (do
    modify (λ k. record k { nextfree = roundup (u32 (result + n)) pgsize })
    limit ← gets (λ k. u32 (kernbase + u32 (k.npages * pgsize)))
    next ← gets (λ k. k.nextfree)
    require (leb next limit)
    pure result)

-- The body of page_init's loop: five tests that skip a page, the last one by boot_alloc(0).
unfoldable pub page_init_round : ℕ → ℕ → M (Unit {0})
unfolding boot_alloc
page_init_round end i = do
  base ← gets (λ k. k.npages_basemem)
  if i == 0
        || (leb base i && ltb i (iophysmem / pgsize))
        || (leb (iophysmem / pgsize) i && ltb i (extphysmem / pgsize))
        || i == mpentry_paddr / pgsize
      then pure tt
      else (do
        kernel ←
            if leb (extphysmem / pgsize) i
            then (do top ← boot_alloc end 0; pure (ltb i (u32 (top + 2 ^ 32 - kernbase) / pgsize)))
            else pure false
        if kernel then pure tt else (do
          modify (λ k. set_page i (record { pp_link = k.page_free_list; pp_ref = 0 }) k)
          modify (λ k. record k { page_free_list = some i })))

-- `rounds` pages are left from page i on.
unfoldable pub page_init_from : ℕ → ℕ → ℕ → M (Unit {0})
page_init_from end zero i = pure tt
page_init_from end (suc rounds) i = page_init_round end i >>= λ _. page_init_from end rounds (i + 1)

unfoldable pub page_init : ℕ → M (Unit {0})
page_init end = do
  modify (λ k. record k { page_free_list = none })
  n ← gets (λ k. k.npages)
  page_init_from end n 0
