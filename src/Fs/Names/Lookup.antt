-- ===== src/Fs/Names/Lookup.antt =====
-- dir_lookup of mit-6.828/lab/fs/fs.c finds the first entry of a directory that has the name.
use mathlib.Core.Path.{subst}
use papers_annotation.Prelude.{
  ℕ, zero, suc, ◌+◌, ◌-◌, ◌*◌, ◌/◌, ◌%◌, ◌≤◌, ◌<◌, ◌≡◌, ◌≢◌, ◌⊎◌, refl, sym, ap, ◌∙◌, Option, none,
  some, List, arith, true, false, ◌==◌, Bool-cases, inl, inr, dec_lt, ltb, if◌then◌else◌,
}
use papers_annotation.Prelude.Int.{ℤ, pos}
use papers_annotation.Mmu.{e_not_found}
use papers_annotation.Kern.Pages.Lists.{All}
use papers_annotation.Strings.{strcmp}
use papers_annotation.Strings.Compare.{Holds, strcmp-Holds}
use papers_annotation.Fs.State.{
  Disk, Result, done, died, s_nblocks, byte_at, f_size, f_direct, f_indirect, bind,
}
use papers_annotation.Fs.{file_get_block}
use papers_annotation.Fs.Blocks.{use_slot-eq}
use papers_annotation.Fs.Blocks.Holes.{HasSlot, file_get_block-slot}
use papers_annotation.Fs.Names.{is_zero, entry_from, lookup_block, lookup_from, dir_lookup}

-- The entry at f has the name.
abbrev pub HasName : Disk → List ℕ → ℕ → Type 0
HasName d name f = Holds (byte_at d f) name

-- The slot for block i of a file, and the block in it.
abbrev slot_at : Disk → ℕ → ℕ → ℕ
slot_at d f i = if ltb i 10 then f_direct f i else d.words (f_indirect f) * 1024 + i - 10

abbrev pub block_at : Disk → ℕ → ℕ → ℕ
block_at d f i = d.words (slot_at d f i)

-- Entry j of a directory, counted through its blocks.
abbrev pub entry_at : Disk → ℕ → ℕ → ℕ
entry_at d dir j = block_at d dir (j / 16) * 1024 + j % 16 * 64

is_zero-eq : (r : ℤ) → (is_zero r ≡ true → r ≡ pos 0) × (is_zero r ≡ false → r ≢ pos 0)
is_zero-eq (pos n) = ((λ h. ap pos (ground arith)), (λ h e. cc))
is_zero-eq (ℤ.negsuc n) = ((λ h. cc), (λ h e. cc))

-- How a search of the n entries from f on ends.
abbrev Entries : Disk → List ℕ → ℕ → ℕ → Option ℕ → Type 0
Entries d name n f o =
    ((j : ℕ) × (j < n)
      × (o ≡ some (f + j * 64))
      × HasName d name (f + j * 64)
      × ((i : ℕ) → i < j → ¬ HasName d name (f + i * 64)))
    ⊎ ((o ≡ none) × ((i : ℕ) → i < n → ¬ HasName d name (f + i * 64)))

none_before :
    (d : Disk) (name : List ℕ) (f j : ℕ)
    → ¬ HasName d name f
    → ((i : ℕ) → i < j → ¬ HasName d name (f + 64 + i * 64))
    → (i : ℕ) → i < suc j
    → ¬ HasName d name (f + i * 64)
none_before d name f j first rest zero h has = first (subst (HasName d name) (omega arith) has)
none_before d name f j first rest (suc i) h has =
    rest i (omega arith) (subst (HasName d name) (omega arith) has)

entry_from_lem :
    (n f : ℕ) (name : List ℕ) (d : Disk)
    → All (λ c. c ≢ 0) name
    → Entries d name n f (entry_from n f name d)
unfolding entry_from
entry_from_lem zero f name d h = inr (refl, (λ i lt. absurd (omega arith)))
entry_from_lem (suc n) f name d h =
    let same = strcmp-Holds (byte_at d f) name h in
    elim (Bool-cases (is_zero (strcmp (byte_at d f) name))) [
      | inl e ↦ rw e (
          inl (
            0,
            omega arith,
            ap (λ (t : ℕ). some t) (omega arith),
            subst (HasName d name) (omega arith)
                (same.0 ((is_zero-eq (strcmp (byte_at d f) name)).0 e)),
            (λ i lt. absurd (omega arith)),
          ))
      | inr ne ↦
          let first : ¬ HasName d name f =
            λ has. (is_zero-eq (strcmp (byte_at d f) name)).1 ne (same.1 has) in
          rw ne (elim (entry_from_lem n (f + 64) name d h) [
            | inl (j, lt, found, has, before) ↦ inl (
              suc j,
              omega arith,
              found ∙ ap (λ (t : ℕ). some t) (omega arith),
              subst (HasName d name) (omega arith) has,
              none_before d name f j first before,
            )
            | inr (missing, all) ↦ inr (missing, none_before d name f n first all)
          ])
    ]

-- The first n blocks of the file are all there, on the disk.
pub record HasBlocks (d : Disk) (f n : ℕ) : Type 0 where
  pub bounded : n ≤ 1034
  pub slots : 10 < n → (d.words (f_indirect f) ≢ 0) × (d.words (f_indirect f) < s_nblocks d)
  pub taken : (i : ℕ) → i < n → block_at d f i ≢ 0
  pub on_disk : (i : ℕ) → i < n → block_at d f i < s_nblocks d

HasBlocks-slot : (d : Disk) (f n i : ℕ) → HasBlocks d f n → i < n → HasSlot d f i (slot_at d f i)
HasBlocks-slot d f n i h lt = elim (dec_lt i 10) [
  | yes direct ↦ let low : ltb i 10 ≡ true = ground arith in inl (direct, (rw low refl))
  | no far ↦
      let high : ltb i 10 ≡ false = ground arith in
      let (nz, low) = h.slots (omega arith) in
      inr (omega arith, omega (arith, h.bounded), nz, low, (rw high refl))
]

pub block-done :
    (d : Disk) (f n i : ℕ)
    → HasBlocks d f n
    → i < n
    → file_get_block f i d ≡ done (pos 0, some (block_at d f i * 1024)) d
block-done d f n i h lt =
    file_get_block-slot f i (slot_at d f i) d (HasBlocks-slot d f n i h lt)
    ∙ use_slot-eq (slot_at d f i) (block_at d f i) d refl (h.taken i lt) (h.on_disk i lt)

-- How the search of the entries from m up to n ends.
abbrev pub LooksUp : Disk → ℕ → List ℕ → ℕ → ℕ → Result (ℤ × Option ℕ) → Type 0
LooksUp d dir name m n r =
    ((j : ℕ) × (m ≤ j)
      × (j < n)
      × (r ≡ done (pos 0, some (entry_at d dir j)) d)
      × HasName d name (entry_at d dir j)
      × ((i : ℕ) → m ≤ i → i < j → ¬ HasName d name (entry_at d dir i)))
    ⊎ ((r ≡ done (e_not_found, none) d)
        × ((i : ℕ) → m ≤ i → i < n → ¬ HasName d name (entry_at d dir i)))

entry_of_block :
    (d : Disk) (dir i e : ℕ)
    → i * 16 ≤ e
    → e < i * 16 + 16
    → block_at d dir i * 1024 + (e - i * 16) * 64 ≡ entry_at d dir e
entry_of_block d dir i e lo hi =
    let block : e / 16 ≡ i = omega arith in omega (arith, ap (block_at d dir) block)

-- The entries of block i, and those behind it.
not_in_block :
    (d : Disk) (dir i n : ℕ) (name : List ℕ)
    → ((e : ℕ) → e < 16 → ¬ HasName d name (block_at d dir i * 1024 + e * 64))
    → ((e : ℕ) → (i + 1) * 16 ≤ e → e < n → ¬ HasName d name (entry_at d dir e))
    → (e : ℕ) → i * 16 ≤ e
    → e < n
    → ¬ HasName d name (entry_at d dir e)
not_in_block d dir i n name block rest e lo hi has = elim (dec_lt e (i * 16 + 16)) [
  | yes here ↦
      block (e - i * 16) (omega arith)
        (subst (HasName d name) (sym (entry_of_block d dir i e lo here)) has)
  | no behind ↦ rest e (omega arith) hi has
]

found_in_block :
    (d : Disk) (dir i n j : ℕ) (name : List ℕ) (r : Result (ℤ × Option ℕ))
    → j < 16
    → i * 16 + 16 ≤ n
    → r ≡ done (pos 0, some (block_at d dir i * 1024 + j * 64)) d
    → HasName d name (block_at d dir i * 1024 + j * 64)
    → ((e : ℕ) → e < j → ¬ HasName d name (block_at d dir i * 1024 + e * 64))
    → LooksUp d dir name (i * 16) n r
found_in_block d dir i n j name r lt fits ran has before =
    let back : i * 16 + j - i * 16 ≡ j = omega arith in
    let entry : block_at d dir i * 1024 + j * 64 ≡ entry_at d dir (i * 16 + j) =
      ap (λ (t : ℕ). block_at d dir i * 1024 + t * 64) (sym back)
      ∙ entry_of_block d dir i (i * 16 + j) (omega arith) (omega arith) in
    inl (
      i * 16 + j,
      omega arith,
      omega arith,
      ran ∙ ap (λ (t : ℕ). done (pos 0, some t) d) entry,
      subst (HasName d name) entry has,
      (λ e lo hi h.
          before (e - i * 16) (omega arith)
            (subst (HasName d name) (sym (entry_of_block d dir i e lo (omega arith))) h)),
    )

lookup_from_lem :
    (rounds i n dir : ℕ) (name : List ℕ) (d : Disk)
    → i + rounds ≡ n
    → HasBlocks d dir n
    → All (λ c. c ≢ 0) name
    → LooksUp d dir name (i * 16) (n * 16) (lookup_from rounds dir i name d)
unfolding lookup_from lookup_block
lookup_from_lem zero i n dir name d e h ok = inr (refl, (λ j lo hi. absurd (omega arith)))
lookup_from_lem (suc rounds) i n dir name d e h ok =
    let b = block_at d dir i * 1024 in
    let rest = lookup_from rounds dir (i + 1) name in
    let got = ap (λ r. bind r (lookup_block name rest)) (block-done d dir n i h (omega arith)) in
    elim (entry_from_lem 16 b name d ok) [
      | inl (j, lt, found, has, before) ↦
          found_in_block d dir i (n * 16) j name (lookup_from (suc rounds) dir i name d) lt
            (omega arith) (got ∙ (rw (found, lookup_block) refl)) has before
      | inr (missing, none_here) ↦
          elim (lookup_from_lem rounds (i + 1) n dir name d (omega arith) h ok) [
            | inl (j, lo, hi, ran, has, before) ↦ inl (
              j,
              omega arith,
              hi,
              got ∙ (rw (missing, lookup_block) refl) ∙ ran,
              has,
              not_in_block d dir i j name none_here before,
            )
            | inr (ran, none_behind) ↦ inr (
              got ∙ (rw (missing, lookup_block) refl) ∙ ran,
              not_in_block d dir i (n * 16) name none_here none_behind,
            )
          ]
    ]

-- dir_lookup in a directory without holes, whose blocks, at most 1034, are on the disk, and so is its
-- block of slots, if it has more than ten: it yields the first entry with the name, which holds no NUL, or -E_NOT_FOUND if no entry has it, and changes nothing. A directory whose size is no multiple
-- of the block size makes the server panic.
pub dir_lookup_lem :
    (dir : ℕ) (name : List ℕ) (d : Disk)
    → HasBlocks d dir (d.words (f_size dir) / 4096)
    → All (λ c. c ≢ 0) name
    → (d.words (f_size dir) % 4096 ≢ 0 → dir_lookup dir name d ≡ died)
      × (d.words (f_size dir) % 4096 ≡ 0
          → LooksUp d dir name 0 (d.words (f_size dir) / 4096 * 16) (dir_lookup dir name d))
unfolding dir_lookup
dir_lookup_lem dir name d h ok = (
  (λ odd. let e : (d.words (f_size dir) % 4096 == 0) ≡ false = ground arith in rw e refl),
  (λ even.
      let e : (d.words (f_size dir) % 4096 == 0) ≡ true = ground arith in
      rw e (
        lookup_from_lem (d.words (f_size dir) / 4096) 0 (d.words (f_size dir) / 4096) dir name d
          (omega arith) h ok)),
)
