-- ===== src/Kern/Pages/Allocator.antt =====
-- page_alloc, page_free and page_decref of mit-6.828/lab/kern/pmap.c keep the free list, and act on
-- it as a stack.
use papers_annotation.Prelude.{
  ℕ, zero, suc, ◌+◌, ◌-◌, ◌%◌, ◌^◌, ◌≤◌, ◌<◌, ◌≡◌, ◌≢◌, refl, ap, ◌∙◌, none, some, List, [], ◌∷◌,
  arith, true, false, ◌==◌, if◌then◌else◌,
}
use papers_annotation.Mmu.{test_bit}
use papers_annotation.Kern.State.{PageInfo, Kernel, returned, panicked, update}
use papers_annotation.Kern.Pages.{page2pa, page_alloc, page_free, page_decref}
use papers_annotation.Kern.Pages.Lists.{
  Linked, NotIn, Distinct, All, Linked-elsewhere, All-elsewhere, NotIn-of_All,
}

-- The free list holds exactly the pages `l`, first to last: distinct pages of the physical memory,
-- none of them referenced.
pub record IsFreeList (k : Kernel) (l : List ℕ) : Type 0 where
  pub linked : Linked (λ p. (k.pages p).pp_link) k.page_free_list l
  pub distinct : Distinct l
  pub unused : All (λ p. (k.pages p).pp_ref ≡ 0) l
  pub in_memory : All (λ p. p < k.npages) l

pub update_ne {ℓ} : {A : Type ℓ} (f : ℕ → A) (x : ℕ) (v : A) (y : ℕ) → y ≢ x → update f x v y ≡ f y
update_ne f x v y h = ground arith

-- The state in which page_alloc leaves the kernel: the first free page taken off the list, its
-- entry reset, and its memory cleared if the flags say so.
abbrev pub allocated : ℕ → ℕ → Kernel → Kernel
allocated flags p k = record k {
  pages = update k.pages p (record { pp_link = none; pp_ref = 0 });
  page_free_list = (k.pages p).pp_link;
  mem = if test_bit flags 0 then update k.mem p (λ _. 0) else k.mem;
}

pub page_alloc-eq-allocated :
    (flags p : ℕ) (k : Kernel)
    → k.page_free_list ≡ some p
    → p < k.npages
    → k.npages ≤ 2 ^ 20
    → page_alloc flags k ≡ returned (some p) (allocated flags p k)
unfolding page_alloc page2pa
page_alloc-eq-allocated flags p k e h n = ground arith

pub IsFreeList-allocated :
    (flags p : ℕ) (l : List ℕ) (k : Kernel)
    → IsFreeList k (p ∷ l)
    → IsFreeList (allocated flags p k) l
IsFreeList-allocated flags p l k v = record {
  linked =
      Linked-elsewhere (λ q. (k.pages q).pp_link) (λ q. ((allocated flags p k).pages q).pp_link) p
        (k.pages p).pp_link l (λ y ne. ap PageInfo.pp_link (update_ne k.pages p _ y ne))
        v.distinct.0 v.linked.1;
  distinct = v.distinct.1;
  unused =
      All-elsewhere (λ i. i.pp_ref ≡ 0) k.pages (allocated flags p k).pages p l
        (update_ne k.pages p _) v.distinct.0 v.unused.1;
  in_memory = v.in_memory.1;
}

-- page_alloc takes the first free page: it returns that page, its link NULL and its reference count 0,
-- all zero if ALLOC_ZERO is given; the rest of the list stays free, and no other page's entry or
-- memory changes.
pub page_alloc_pops :
    (flags p : ℕ) (l : List ℕ) (k : Kernel)
    → IsFreeList k (p ∷ l)
    → k.npages ≤ 2 ^ 20
    → (k' : Kernel) × (page_alloc flags k ≡ returned (some p) k')
      × IsFreeList k' l
      × NotIn p l
      × (k'.pages p ≡ record { pp_link = none; pp_ref = 0 })
      × (test_bit flags 0 ≡ true → (j : ℕ) → k'.mem p j ≡ 0)
      × ((q : ℕ) → q ≢ p → (k'.pages q ≡ k.pages q) × (k'.mem q ≡ k.mem q))
page_alloc_pops flags p l k v n = (
  allocated flags p k,
  page_alloc-eq-allocated flags p k v.linked.0 v.in_memory.0 n,
  IsFreeList-allocated flags p l k v,
  v.distinct.0,
  (let here : (p == p) ≡ true = ground arith in rw here refl),
  (λ z j. ground arith),
  (λ q ne. (update_ne k.pages p _ q ne, ground arith)),
)

-- With no page free, page_alloc returns NULL and changes nothing.
pub page_alloc_empty :
    (flags : ℕ) (k : Kernel) → IsFreeList k [] → page_alloc flags k ≡ returned none k
unfolding page_alloc
page_alloc_empty flags k v = ground arith

-- The state in which page_free leaves the kernel.
abbrev pub freed : ℕ → Kernel → Kernel
freed p k = record k {
  pages = update k.pages p (record (k.pages p) { pp_link = k.page_free_list });
  page_free_list = some p;
}

pub page_free-eq-freed :
    (p : ℕ) (k : Kernel) → (k.pages p).pp_ref ≡ 0 → page_free p k ≡ returned tt (freed p k)
unfolding page_free
page_free-eq-freed p k e = ground arith

pub IsFreeList-freed :
    (p : ℕ) (l : List ℕ) (k : Kernel)
    → IsFreeList k l
    → (k.pages p).pp_ref ≡ 0
    → NotIn p l
    → p < k.npages
    → IsFreeList (freed p k) (p ∷ l)
IsFreeList-freed p l k v e out h = record {
  linked = (
    refl,
    Linked-elsewhere (λ q. (k.pages q).pp_link) (λ q. ((freed p k).pages q).pp_link) p
        ((freed p k).pages p).pp_link l (λ y ne. ap PageInfo.pp_link (update_ne k.pages p _ y ne))
        out
        (let here : ((freed p k).pages p).pp_link ≡ k.page_free_list = ground arith in
          rw here v.linked),
  );
  distinct = (out, v.distinct);
  unused = (
    ground arith,
    All-elsewhere (λ i. i.pp_ref ≡ 0) k.pages (freed p k).pages p l (update_ne k.pages p _) out
        v.unused,
  );
  in_memory = (h, v.in_memory);
}

-- page_free puts an unreferenced page that is not free yet in front of the list, and page_alloc then
-- returns that same page and leaves the list as it was; of a referenced page the kernel panics.
pub page_alloc-page_free :
    (flags p : ℕ) (l : List ℕ) (k : Kernel)
    → IsFreeList k l
    → NotIn p l
    → p < k.npages
    → k.npages ≤ 2 ^ 20
    → ((k.pages p).pp_ref ≢ 0 → page_free p k ≡ panicked)
      × ((k.pages p).pp_ref ≡ 0
          → (k' : Kernel) × (k'' : Kernel) × (page_free p k ≡ returned tt k')
            × IsFreeList k' (p ∷ l)
            × (page_alloc flags k' ≡ returned (some p) k'')
            × IsFreeList k'' l)
page_alloc-page_free flags p l k v out h n = (
  (λ ne. unfold page_free in ground arith),
  (λ e.
      let freed_list = IsFreeList-freed p l k v e out h in
      (
        freed p k,
        allocated flags p (freed p k),
        page_free-eq-freed p k e,
        freed_list,
        page_alloc-eq-allocated flags p (freed p k) refl h n,
        IsFreeList-allocated flags p l (freed p k) freed_list,
      )),
)

abbrev pub with_ref : ℕ → ℕ → Kernel → Kernel
with_ref p r k = record k { pages = update k.pages p (record (k.pages p) { pp_ref = r }) }

pub IsFreeList-with_ref :
    (p r : ℕ) (l : List ℕ) (k : Kernel) → IsFreeList k l → NotIn p l → IsFreeList (with_ref p r k) l
IsFreeList-with_ref p r l k v out = record {
  linked =
      Linked-elsewhere (λ q. (k.pages q).pp_link) (λ q. ((with_ref p r k).pages q).pp_link) p
        k.page_free_list l (λ y ne. ap PageInfo.pp_link (update_ne k.pages p _ y ne)) out v.linked;
  distinct = v.distinct;
  unused =
      All-elsewhere (λ i. i.pp_ref ≡ 0) k.pages (with_ref p r k).pages p l (update_ne k.pages p _)
        out v.unused;
  in_memory = v.in_memory;
}

pub referenced-NotIn :
    (p r : ℕ) (l : List ℕ) (k : Kernel) → IsFreeList k l → (k.pages p).pp_ref ≡ suc r → NotIn p l
referenced-NotIn p r l k v e =
    NotIn-of_All (λ q. (k.pages q).pp_ref ≡ 0) p l (λ z. omega arith) v.unused

pub page_decref-eq :
    (p r : ℕ) (k : Kernel)
    → (k.pages p).pp_ref ≡ suc r
    → r < 2 ^ 16 - 1
    → page_decref p k
      ≡ (if r == 0 then page_free p (with_ref p r k) else returned tt (with_ref p r k))
unfolding page_decref
page_decref-eq p r k e b =
    let left : ((k.pages p).pp_ref + 2 ^ 16 - 1) % 2 ^ 16 ≡ r = omega arith in
    rw left (ground arith)

-- The state after page_decref of a page with r + 1 references.
abbrev pub dropped : ℕ → ℕ → Kernel → Kernel
dropped p zero k = freed p (with_ref p 0 k)
dropped p (suc r) k = with_ref p (suc r) k

pub page_decref-dropped :
    (p r : ℕ) (k : Kernel)
    → (k.pages p).pp_ref ≡ suc r
    → r < 2 ^ 16 - 1
    → page_decref p k ≡ returned tt (dropped p r k)
page_decref-dropped p zero k e b =
    page_decref-eq p zero k e b ∙ page_free-eq-freed p (with_ref p 0 k) (ground arith)
page_decref-dropped p (suc r) k e b =
    let more : (suc r == 0) ≡ false = ground arith in page_decref-eq p (suc r) k e b ∙ (rw more)

pub dropped_lem :
    (p r : ℕ) (k : Kernel)
    → ((dropped p r k).mem ≡ k.mem)
      × ((dropped p r k).npages ≡ k.npages)
      × (((dropped p r k).pages p).pp_ref ≡ r)
      × ((q : ℕ) → q ≢ p → ((dropped p r k).pages q).pp_ref ≡ (k.pages q).pp_ref)
dropped_lem p zero k = (refl, refl, ground arith, (λ q ne. ground arith))
dropped_lem p (suc r) k = (refl, refl, ground arith, (λ q ne. ground arith))

pub IsFreeList-dropped :
    (p r : ℕ) (l : List ℕ) (k : Kernel)
    → IsFreeList k l
    → p < k.npages
    → (k.pages p).pp_ref ≡ suc r
    → IsFreeList (dropped p r k) (if r == 0 then p ∷ l else l)
IsFreeList-dropped p zero l k v h e =
    let out = referenced-NotIn p 0 l k v e in
    IsFreeList-freed p l (with_ref p 0 k) (IsFreeList-with_ref p 0 l k v out) (ground arith) out h
IsFreeList-dropped p (suc r) l k v h e =
    let more : (suc r == 0) ≡ false = ground arith in
    rw more (IsFreeList-with_ref p (suc r) l k v (referenced-NotIn p (suc r) l k v e))

-- Dropping a reference: of a page with one reference page_decref makes a free page, and of a page
-- with more it lowers the count by one and leaves the free list alone.
pub page_decref_lem :
    (p r : ℕ) (l : List ℕ) (k : Kernel)
    → IsFreeList k l
    → p < k.npages
    → (k.pages p).pp_ref ≡ suc r
    → r < 2 ^ 16 - 1
    → (k' : Kernel) × (page_decref p k ≡ returned tt k')
      × ((k'.pages p).pp_ref ≡ r)
      × IsFreeList k' (if r == 0 then p ∷ l else l)
page_decref_lem p r l k v h e b = (
  dropped p r k,
  page_decref-dropped p r k e b,
  (dropped_lem p r k).2,
  IsFreeList-dropped p r l k v h e,
)
