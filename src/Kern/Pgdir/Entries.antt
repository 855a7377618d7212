-- ===== src/Kern/Pgdir/Entries.antt =====
-- The words of the page tables: what the macros of mit-6.828/lab/inc/mmu.h read back from an entry
-- that the code of kern/pmap.c composes with `|`.
use papers_annotation.Prelude.{
  ℕ, ◌+◌, ◌*◌, ◌/◌, ◌%◌, ◌^◌, ◌<◌, ◌≡◌, refl, true, bit_or, bit_and, arith,
}
use papers_annotation.Prelude.Bits.{
  bit_or-disjoint, bit_or_step, bit_or-zero, bit_and_step, bit_and-mask,
}
use papers_annotation.Mmu.{pgnum, pte_addr, test_bit, pte_p, pte_w, pte_u, pte_not_syscall}
use papers_annotation.Kern.Pages.{page2pa}
use papers_annotation.Kern.Pgdir.{entry}

-- `x | 1`
pub bit_or-one : (a : ℕ) → bit_or a 1 ≡ a / 2 * 2 + 1
bit_or-one a = omega (arith, bit_or_step a 1, bit_or-zero (a / 2))

pub page2pa-eq : (p : ℕ) → p < 2 ^ 20 → page2pa p ≡ p * 2 ^ 12
unfolding page2pa
page2pa-eq p h = omega arith

pub entry-eq :
    (p perm : ℕ) → p < 2 ^ 20 → perm < 2 ^ 12 → entry p perm ≡ (p * 2 ^ 12 + perm) / 2 * 2 + 1
entry-eq p perm h b = omega (
  arith,
  page2pa-eq p h,
  bit_or-disjoint 12 p perm (page2pa p) (page2pa-eq p h) b,
  bit_or-one (bit_or (page2pa p) perm),
)

-- The entry that page_insert writes is present and leads back to its page.
pub entry_fields :
    (p perm : ℕ)
    → p < 2 ^ 20
    → perm < 2 ^ 12
    → (test_bit (entry p perm) 0 ≡ true) × (pgnum (pte_addr (entry p perm)) ≡ p)
entry_fields p perm h b = (ground (arith, entry-eq p perm h b), omega (arith, entry-eq p perm h b))

bit_or_two : (a : ℕ) → bit_or a 2 ≡ (a / 4 * 2 + 1) * 2 + a % 2
bit_or_two a = omega (arith, bit_or_step a 2, bit_or-one (a / 2))

bit_or_four : (a : ℕ) → bit_or a 4 ≡ ((a / 8 * 2 + 1) * 2 + a / 2 % 2) * 2 + a % 2
bit_or_four a = omega (arith, bit_or_step a 4, bit_or_two (a / 2))

-- The directory entry that pgdir_walk writes for a table in page p.
abbrev pub table_entry : ℕ → ℕ
table_entry p = bit_or (bit_or (bit_or (page2pa p) pte_p) pte_w) pte_u

pub table_entry-eq : (p : ℕ) → p < 2 ^ 20 → table_entry p ≡ p * 2 ^ 12 + 7
table_entry-eq p h = omega (
  arith,
  page2pa-eq p h,
  bit_or-one (page2pa p),
  bit_or_two (bit_or (page2pa p) 1),
  bit_or_four (bit_or (bit_or (page2pa p) 1) 2),
)

-- It is present, and leads to the table.
pub table_entry_fields :
    (p : ℕ)
    → p < 2 ^ 20
    → (test_bit (table_entry p) 0 ≡ true) × (pgnum (pte_addr (table_entry p)) ≡ p)
table_entry_fields p h = (ground (arith, table_entry-eq p h), omega (arith, table_entry-eq p h))

bit_and-half : (a m : ℕ) → bit_and a m ≡ 0 → bit_and (a / 2) (m / 2) ≡ 0
bit_and-half a m h = omega (arith, bit_and_step a m)

bit_and_eighth : (a m : ℕ) → bit_and a m ≡ 0 → bit_and (a / 2 / 2 / 2) (m / 2 / 2 / 2) ≡ 0
bit_and_eighth a m h = bit_and-half _ _ (bit_and-half _ _ (bit_and-half a m h))

-- Permission bits that the system calls accept lie within the twelve flag bits.
pub allowed_perm-lt : (perm : ℕ) → perm < 2 ^ 32 → bit_and perm pte_not_syscall ≡ 0 → perm < 2 ^ 12
allowed_perm-lt perm b h =
    let high = perm / 2 / 2 / 2 / 2 / 2 / 2 / 2 / 2 / 2 / 2 / 2 / 2 in
    let none_high : bit_and high 0xFFFFF ≡ 0 =
      bit_and_eighth _ _ (bit_and_eighth _ _ (bit_and_eighth _ _ (bit_and_eighth perm _ h))) in
    let kept : bit_and high 0xFFFFF ≡ high =
      bit_and-mask 20 0 high high 0xFFFFF refl (omega arith) (omega arith) in
    omega (arith, none_high, kept)
