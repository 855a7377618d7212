-- ===== src/Kern/Pgdir/UserMem.antt =====
-- user_mem_check of mit-6.828/lab/kern/pmap.c decides whether every byte of a range may be accessed.
use mathlib.Core.Path.{ap₂}
use papers_annotation.Prelude.{
  ℕ, zero, suc, ◌+◌, ◌-◌, ◌*◌, ◌/◌, ◌^◌, ◌≤◌, ◌<◌, ◌≡◌, ◌⊎◌, refl, ap, ◌∙◌, some, arith, true,
  false, leb, ◌==◌, Bool, Bool-cases, ◌&&◌, ◌||◌, inl, inr, bit_and, dec_lt,
}
use papers_annotation.Prelude.Int.{pos}
use papers_annotation.Mmu.{
  u32, pgsize, ulim, pgnum, pte_addr, rounddown, pdx, ptx, test_bit, e_fault,
}
use papers_annotation.Kern.State.{Env, Kernel, returned}
use papers_annotation.Kern.Pgdir.{page_permits, check_from, user_mem_check}
use papers_annotation.Kern.Pgdir.Walk.{table_of, table_slot-eq}
use papers_annotation.Kern.Pgdir.{pgdir_walk}

-- Every table that the directory names lies in the physical memory.
abbrev pub HasTables : Kernel → ℕ → Type 0
HasTables k d = (va : ℕ) → test_bit (k.mem d (pdx va)) 0 ≡ true → table_of k d va < k.npages

-- Directory slot i has a table whose slot j is present and has all the bits of `perm`.
abbrev pub permits_at : Kernel → ℕ → ℕ → ℕ → ℕ → Bool
permits_at k d perm i j =
    let pte = k.mem (pgnum (pte_addr (k.mem d i))) j in
    test_bit (k.mem d i) 0 && (test_bit pte 0 && bit_and pte perm == perm)

-- The address is mapped, with all the bits of `perm`.
abbrev pub permits : Kernel → ℕ → ℕ → ℕ → Bool
permits k d perm x = permits_at k d perm (pdx x) (ptx x)

page_permits-eq :
    (d perm x : ℕ) (k : Kernel)
    → HasTables k d
    → page_permits d perm x k ≡ returned (permits k d perm x) k
unfolding page_permits pgdir_walk
page_permits-eq d perm x k t = elim (Bool-cases (test_bit (k.mem d (pdx x)) 0)) [
  | inr e ↦ rw e refl
  | inl e ↦ rw (e, table_slot-eq d x k (t x e)) refl
]

pub permits_page :
    (k : Kernel) (d perm x y : ℕ) → x / 4096 ≡ y / 4096 → permits k d perm x ≡ permits k d perm y
permits_page k d perm x y e =
    let same_pdx : pdx x ≡ pdx y = omega arith in
    let same_ptx : ptx x ≡ ptx y = omega arith in ap₂ (permits_at k d perm) same_pdx same_ptx

abbrev Passes : Kernel → ℕ → ℕ → ℕ → ℕ → Type 0
Passes k d perm n addr = (i : ℕ) → i < n → permits k d perm (addr + i * 4096) ≡ true

Passes-suc :
    (k : Kernel) (d perm n addr : ℕ)
    → permits k d perm addr ≡ true
    → Passes k d perm n (addr + 4096)
    → Passes k d perm (suc n) addr
Passes-suc k d perm n addr e all zero h = ap (permits k d perm) (omega arith) ∙ e
Passes-suc k d perm n addr e all (suc i) h =
    ap (permits k d perm) (omega arith) ∙ all i (omega arith)

-- The loop: it either passes all its pages and changes nothing, or stops at one that fails.
abbrev Checked : Kernel → ℕ → ℕ → ℕ → ℕ → ℕ → Type 0
Checked k d perm start n addr =
    ((check_from n d perm start addr k ≡ returned (pos 0) k) × Passes k d perm n addr)
    ⊎ ((check_from n d perm start addr k
          ≡ returned e_fault (record k { user_mem_check_addr = start }))
        × ((i : ℕ) × (i < n) × (permits k d perm (addr + i * 4096) ≡ false)))

Checked-suc :
    (n d perm start addr : ℕ) (k : Kernel)
    → HasTables k d
    → permits k d perm addr ≡ true
    → Checked k d perm start n (addr + 4096)
    → Checked k d perm start (suc n) addr
unfolding check_from
Checked-suc n d perm start addr k t e (inl (r, all)) =
    inl (rw (page_permits-eq d perm addr k t, e) r, Passes-suc k d perm n addr e all)
Checked-suc n d perm start addr k t e (inr (r, (i, h, f))) = inr (
  rw (page_permits-eq d perm addr k t, e) r,
  (suc i, omega arith, ap (permits k d perm) (omega arith) ∙ f),
)

check_from-Checked :
    (n d perm start addr : ℕ) (k : Kernel) → HasTables k d → Checked k d perm start n addr
unfolding check_from
check_from-Checked zero d perm start addr k t = inl (refl, (λ i h. elim h [ ]))
check_from-Checked (suc n) d perm start addr k t = elim (Bool-cases (permits k d perm addr)) [
  | inl e ↦
      Checked-suc n d perm start addr k t e (check_from-Checked n d perm start (addr + 4096) k t)
  | inr e ↦ inr (
    rw (page_permits-eq d perm addr k t, e) refl,
    (0, omega arith, ap (permits k d perm) (omega arith) ∙ e),
  )
]

-- The last byte address of the range plus one, as the code computes it.
abbrev pub range_end : ℕ → ℕ → ℕ
range_end va len = u32 (va + len)

abbrev range_pages : ℕ → ℕ → ℕ
range_pages va len = (range_end va len - rounddown va pgsize + pgsize - 1) / pgsize

user_mem_check_loop :
    (e : Env) (d va len perm : ℕ) (k : Kernel)
    → e.env_pgdir ≡ some d
    → va < ulim
    → va < range_end va len
    → user_mem_check e va len perm k
      ≡ check_from (range_pages va len) d perm va (rounddown va pgsize) k
unfolding user_mem_check
user_mem_check_loop e d va len perm k p h g =
    let low : leb ulim va ≡ false = ground arith in
    let busy : leb (range_end va len) va ≡ false = ground arith in rw (low, busy, p) refl

user_mem_check_refuses :
    (e : Env) (va len perm : ℕ) (k : Kernel)
    → (leb ulim va || leb (range_end va len) va) ≡ true
    → user_mem_check e va len perm k ≡ returned e_fault (record k { user_mem_check_addr = va })
unfolding user_mem_check
user_mem_check_refuses e va len perm k h = rw h refl

-- user_mem_check of an environment whose directory is d either returns 0 and changes nothing, and
-- then the range begins below ULIM, is not empty and every byte of it is mapped with all bits of
-- `perm`; or it returns -E_FAULT and records the start of the range, and then the range begins at
-- ULIM or above, is empty or wraps, or touches a page that is not mapped so. Only the start of the
-- range is compared with ULIM: it may end above. The range does not reach the last page of the
-- address space, where the loop's pointer would wrap.
pub user_mem_check_decides :
    (e : Env) (d va len perm : ℕ) (k : Kernel)
    → e.env_pgdir ≡ some d
    → HasTables k d
    → range_end va len ≤ 2 ^ 32 - pgsize
    → ((user_mem_check e va len perm k ≡ returned (pos 0) k)
        × (va < ulim)
        × (va < range_end va len)
        × ((x : ℕ) → va ≤ x → x < range_end va len → permits k d perm x ≡ true))
      ⊎ ((user_mem_check e va len perm k ≡ returned e_fault (record k { user_mem_check_addr = va }))
          × ((ulim ≤ va)
              ⊎ ((range_end va len ≤ va)
                  ⊎ ((x : ℕ) × (rounddown va pgsize ≤ x)
                      × (x < range_end va len)
                      × (permits k d perm x ≡ false)))))
unfolding user_mem_check
user_mem_check_decides e d va len perm k p t fits = elim (dec_lt va ulim) [
  | no high ↦ inr (user_mem_check_refuses e va len perm k (ground arith), inl (omega arith))
  | yes low ↦ elim (dec_lt va (range_end va len)) [
    | no bad ↦ inr (user_mem_check_refuses e va len perm k (ground arith), inr (inl (omega arith)))
    | yes good ↦
        let first = rounddown va pgsize in
        let loop = user_mem_check_loop e d va len perm k p low good in
        elim (check_from-Checked (range_pages va len) d perm va first k t) [
          | inl (r, all) ↦ inl (
            loop ∙ r,
            low,
            good,
            (λ x a b.
                permits_page k d perm x (first + (x / 4096 - va / 4096) * 4096) (omega arith)
                ∙ all (x / 4096 - va / 4096) (omega arith)),
          )
          | inr (r, (i, h, f)) ↦
              inr (loop ∙ r, inr (inr (first + i * 4096, omega arith, omega arith, f)))
        ]
  ]
]
