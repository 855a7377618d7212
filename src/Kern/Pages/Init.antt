-- ===== src/Kern/Pages/Init.antt =====
-- page_init and boot_alloc of mit-6.828/lab/kern/pmap.c.
use mathlib.Core.Path.{subst, ap₂}
use papers_annotation.Prelude.{
  ℕ, zero, suc, ◌+◌, ◌-◌, ◌*◌, ◌/◌, ◌%◌, ◌^◌, ◌≤◌, ◌<◌, ◌≡◌, ◌≢◌, ◌↔◌, refl, sym, ap, ◌∙◌, none,
  some, List, [], ◌∷◌, arith, true, false, Bool, ltb, leb, ◌==◌, ◌&&◌, ◌||◌, if◌then◌else◌,
  Bool-cases, inl, inr,
}
use papers_annotation.Mmu.{u32, pgsize, kernbase, roundup}
use papers_annotation.Kern.State.{PageInfo, Kernel, returned, panicked, update}
use papers_annotation.Kern.Pages.{boot_alloc, page_init_round, page_init_from, page_init}
use papers_annotation.Kern.Pages.Lists.{NotIn, Linked-elsewhere, All-elsewhere}
use papers_annotation.Kern.Pages.Allocator.{IsFreeList, update_ne}

-- The pages that are in use when the kernel starts: page 0, what lies between the base memory and
-- the extended memory, the page of the other CPUs' entry code, and the kernel with what boot_alloc
-- has given out.
abbrev pub reserved : Kernel → ℕ → Bool
reserved k i =
    i == 0
    || (leb k.npages_basemem i && ltb i 0xA0)
    || (leb 0xA0 i && ltb i 0x100)
    || i == 0x7
    || (leb 0x100 i && ltb i (u32 (k.nextfree + 2 ^ 32 - kernbase) / pgsize))

-- The other pages below n, highest first.
abbrev pub usable : Kernel → ℕ → List ℕ
usable k zero = []
usable k (suc i) = if reserved k i then usable k i else i ∷ usable k i

abbrev pushed : ℕ → Kernel → Kernel
pushed i k = record k {
  pages = update k.pages i (record { pp_link = k.page_free_list; pp_ref = 0 });
  page_free_list = some i;
}

page_init_round-eq :
    (end i : ℕ) (k : Kernel)
    → k.nextfree ≢ 0
    → page_init_round end i k ≡ returned tt (if reserved k i then k else pushed i k)
unfolding page_init_round
page_init_round-eq end i k h = let set : (k.nextfree == 0) ≡ false = ground arith in ground arith

NotIn-usable : (k : Kernel) (n i : ℕ) → n ≤ i → NotIn i (usable k n)
NotIn-usable k zero i h = tt
NotIn-usable k (suc n) i h = elim (Bool-cases (reserved k n)) [
  | inl e ↦ rw e (NotIn-usable k n i (omega arith))
  | inr e ↦ rw e ((λ x. omega arith), NotIn-usable k n i (omega arith))
]

IsFreeList-pushed :
    (i : ℕ) (l : List ℕ) (k : Kernel)
    → IsFreeList k l
    → NotIn i l
    → i < k.npages
    → IsFreeList (pushed i k) (i ∷ l)
IsFreeList-pushed i l k v out h = record {
  linked = (
    refl,
    Linked-elsewhere (λ q. (k.pages q).pp_link) (λ q. ((pushed i k).pages q).pp_link) i
        ((pushed i k).pages i).pp_link l (λ y ne. ap PageInfo.pp_link (update_ne k.pages i _ y ne))
        out
        (let here : ((pushed i k).pages i).pp_link ≡ k.page_free_list = ground arith in
          rw here v.linked),
  );
  distinct = (out, v.distinct);
  unused = (
    ground arith,
    All-elsewhere (λ i. i.pp_ref ≡ 0) k.pages (pushed i k).pages i l (update_ne k.pages i _) out
        v.unused,
  );
  in_memory = (h, v.in_memory);
}

-- What the loop leaves alone, and where its tests look.
record SameBoot (k k' : Kernel) : Type 0 where
  base : k'.npages_basemem ≡ k.npages_basemem
  next : k'.nextfree ≡ k.nextfree
  count : k'.npages ≡ k.npages
  memory : k'.mem ≡ k.mem

round_state : Kernel → ℕ → Kernel → Kernel
round_state k0 i k = if reserved k0 i then k else pushed i k

round_state-SameBoot : (k0 k : Kernel) (i : ℕ) → SameBoot k0 k → SameBoot k0 (round_state k0 i k)
unfolding round_state
round_state-SameBoot k0 k i s = elim (Bool-cases (reserved k0 i)) [
  | inl e ↦ rw e s
  | inr e ↦ rw e (record { base = s.base; next = s.next; count = s.count; memory = s.memory })
]

round_state-IsFreeList :
    (k0 k : Kernel) (i : ℕ)
    → IsFreeList k (usable k0 i)
    → i < k.npages
    → IsFreeList (round_state k0 i k) (usable k0 (suc i))
unfolding round_state
round_state-IsFreeList k0 k i v h = elim (Bool-cases (reserved k0 i)) [
  | inl e ↦ rw e v
  | inr e ↦ rw e (IsFreeList-pushed i (usable k0 i) k v (NotIn-usable k0 i i (omega arith)) h)
]

page_init_round-state :
    (end i : ℕ) (k0 k : Kernel)
    → k0.nextfree ≢ 0
    → SameBoot k0 k
    → page_init_round end i k ≡ returned tt (round_state k0 i k)
unfolding round_state
page_init_round-state end i k0 k h s =
    page_init_round-eq end i k (λ z. h (sym s.next ∙ z))
    ∙ ap (λ (b : Bool). returned tt (if b then k else pushed i k))
        (ap₂ (λ (x y : ℕ). reserved (record k0 { npages_basemem = x; nextfree = y }) i) s.base
          s.next)

page_init_from_lem :
    (end rounds i n : ℕ) (k0 k : Kernel)
    → k0.nextfree ≢ 0
    → SameBoot k0 k
    → i + rounds ≡ n
    → n ≤ k0.npages
    → IsFreeList k (usable k0 i)
    → (k' : Kernel) × (page_init_from end rounds i k ≡ returned tt k')
      × IsFreeList k' (usable k0 n)
      × SameBoot k0 k'
unfolding page_init_from
page_init_from_lem end zero i n k0 k h s e b v =
    let here : i ≡ n = omega arith in (k, refl, subst (λ m. IsFreeList k (usable k0 m)) here v, s)
page_init_from_lem end (suc rounds) i n k0 k h s e b v =
    let k1 = round_state k0 i k in
    let up : suc i ≡ i + 1 = omega arith in
    let ih =
      page_init_from_lem end rounds (i + 1) n k0 k1 h (round_state-SameBoot k0 k i s) (omega arith)
        b
        (subst (λ m. IsFreeList k1 (usable k0 m)) up
          (round_state-IsFreeList k0 k i v (omega (arith, s.count)))) in
    (ih.0, rw (page_init_round-state end i k0 k h s) ih.1, ih.2, ih.3)

usable-reserved : (k : Kernel) (n i : ℕ) → reserved k i ≡ true → NotIn i (usable k n)
usable-reserved k zero i h = tt
usable-reserved k (suc n) i h = elim (Bool-cases (reserved k n)) [
  | inl e ↦ rw e (usable-reserved k n i h)
  | inr e ↦ rw e (
    (λ x. let f : reserved k n ≡ true = subst (λ m. reserved k m ≡ true) x h in cc),
    usable-reserved k n i h,
  )
]

usable_complete : (k : Kernel) (n i : ℕ) → i < n → reserved k i ≡ false → ¬ NotIn i (usable k n)
usable_complete k zero i h f out = elim h [ ]
usable_complete k (suc n) i h f out = elim (Bool-cases (reserved k n)) [
  | inl e ↦
      let other : i ≢ n =
        λ x. let g : reserved k n ≡ false = subst (λ m. reserved k m ≡ false) x f in cc in
      usable_complete k n i (omega arith) f (rw e at out)
  | inr e ↦
      let parts : (i ≢ n) × NotIn i (usable k n) = rw e at out in
      usable_complete k n i (omega (arith, parts.0)) f parts.1
]

-- page_init builds the free list of exactly the pages of memory that are not in use: each page below
-- npages is on the list if and only if it is not reserved, the list is well formed, and memory stays
-- as it was. boot_alloc has been called before.
pub page_init_lem :
    (end : ℕ) (k : Kernel)
    → k.nextfree ≢ 0
    → (k' : Kernel) × (l : List ℕ) × (page_init end k ≡ returned tt k')
      × IsFreeList k' l
      × (k'.mem ≡ k.mem)
      × ((i : ℕ) → i < k.npages → NotIn i l ↔ (reserved k i ≡ true))
unfolding page_init
page_init_lem end k h =
    let start = record k { page_free_list = none } in
    let empty : IsFreeList start [] = record {
      linked = refl;
      distinct = tt;
      unused = tt;
      in_memory = tt;
    } in
    let (k', ran, list, same) =
      page_init_from_lem end k.npages 0 k.npages k start h
        (record { base = refl; next = refl; count = refl; memory = refl }) (omega arith)
        (omega arith) empty in
    (
      k',
      usable k k.npages,
      ran,
      list,
      same.memory,
      (λ i low. (
        (λ out. elim (Bool-cases (reserved k i)) [
          | inl e ↦ e
          | inr e ↦ absurd (usable_complete k k.npages i low e out)
        ]),
        usable-reserved k k.npages i,
      )),
    )

-- The next free byte after an allocation of n bytes.
abbrev pub next_after : Kernel → ℕ → ℕ
next_after k n = roundup (u32 (k.nextfree + n)) pgsize

-- boot_alloc, once its first free byte is set. With n = 0 it returns that byte's address and changes
-- nothing. Otherwise it returns the same address and moves the next free byte to a page boundary, n
-- bytes and less than a page further on, if that lies within the memory mapped at KERNBASE, and
-- panics if not.
pub boot_alloc_lem :
    (end n : ℕ) (k : Kernel)
    → k.nextfree ≢ 0
    → k.npages < 2 ^ 16
    → k.nextfree + n + pgsize ≤ 2 ^ 32
    → (boot_alloc end 0 k ≡ returned k.nextfree k)
      × (n ≢ 0
          → next_after k n ≤ kernbase + k.npages * pgsize
          → boot_alloc end n k ≡ returned k.nextfree (record k { nextfree = next_after k n }))
      × (n ≢ 0 → kernbase + k.npages * pgsize < next_after k n → boot_alloc end n k ≡ panicked)
      × (next_after k n % pgsize ≡ 0)
      × (k.nextfree + n ≤ next_after k n)
      × (next_after k n < k.nextfree + n + pgsize)
unfolding boot_alloc
boot_alloc_lem end n k h a c =
    let set : (k.nextfree == 0) ≡ false = ground arith in
    (
      rw set refl,
      (λ ne fits. ground arith),
      (λ ne over. ground arith),
      omega arith,
      omega arith,
      omega arith,
    )
