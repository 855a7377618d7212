-- ===== src/FileDescriptors/Dup.antt =====
-- close and dup of mit-6.828/lab/lib/fd.c.
use mathlib.Core.Path.{ap₂}
use papers_annotation.Prelude.{
  ℕ, ◌<◌, ◌≡◌, ◌≢◌, refl, ap, ◌∙◌, arith, none, some, Bool, true, false, ltb, leb, ◌==◌, List, inl,
  inr, update, Option-cases, Bool-cases,
}
use papers_annotation.Prelude.Int.{ℤ, pos, negsuc, is_neg}
use papers_annotation.Mmu.{utop, e_inval}
use papers_annotation.FileDescriptors.{
  maxfd, index2fd, index2data, fd2num, fd2data, Process, Dev, found, fd_lookup, close_dev,
  then_unmap, fd_close, close, unmap, map_own, map_data, give_up, or_give_up, map_fd, dup, seek,
  set_offset,
}
use papers_annotation.FileDescriptors.Table.{
  fd2num-index2fd, index2fd-apart, index2data-apart, fd_lookup-found,
}

fd_close-found :
    (devtab : List Dev) (fd page : ℕ) (must_exist : Bool) (p : Process)
    → fd_lookup (fd2num fd) p ≡ found fd page
    → fd_close devtab fd must_exist p ≡ then_unmap devtab fd (close_dev devtab fd page p)
unfolding fd_close
fd_close-found devtab fd page must_exist p e =
    let same : (fd == fd) ≡ true = ground arith in rw (e, same, fd_close) refl

close-found :
    (devtab : List Dev) (i fd page : ℕ) (p : Process)
    → fd_lookup i p ≡ found fd page
    → close devtab i p ≡ fd_close devtab fd true p
unfolding close
close-found devtab i fd page p e = rw (e, close) refl

then_unmap-none :
    (devtab : List Dev) (fd : ℕ) (r : ℤ × Process)
    → fd < utop
    → (then_unmap devtab fd r).1.space fd ≡ none
then_unmap-none devtab fd (r, p) low =
    let same : (fd == fd) ≡ true = ground arith in
    let user : ltb fd utop ≡ true = ground arith in rw (user, unmap) (rw same refl)

-- A descriptor that was open is not open after close, whatever its device does and returns.
close-unmaps :
    (devtab : List Dev) (i page : ℕ) (p : Process)
    → i < maxfd
    → p.space (index2fd i) ≡ some page
    → (close devtab i p).1.space (index2fd i) ≡ none
close-unmaps devtab i page p low e =
    let fd = index2fd i in
    let here = fd_lookup-found i page p low e in
    let again : fd_lookup (fd2num fd) p ≡ found fd page =
      ap (λ i. fd_lookup i p) (fd2num-index2fd i low) ∙ here in
    ap (λ r. r.1.space fd)
      (close-found devtab i fd page p here ∙ fd_close-found devtab fd page true p again)
    ∙ then_unmap-none devtab fd (close_dev devtab fd page p) (omega arith)

module _ (devtab : List Dev) (no_table : ℕ → Bool) (old new page : ℕ) (p : Process) where
  dup-found :
      (r : ℤ) (p1 : Process) (fd : ℕ)
      → fd_lookup old p ≡ found fd page
      → close devtab new p ≡ (r, p1)
      → dup devtab no_table old new p
        ≡ map_fd no_table fd
            (index2fd new)
            (fd2data (index2fd new))
            new
            (map_data no_table (fd2data fd) (fd2data (index2fd new)) p1)
  unfolding dup
  dup-found r p1 fd here closed = rw (here, closed, dup) refl

dup-at :
    (devtab : List Dev) (no_table : ℕ → Bool) (old new page : ℕ) (p : Process) (r : ℤ)
    (p1 : Process)
    → old < maxfd
    → new < maxfd
    → p.space (index2fd old) ≡ some page
    → close devtab new p ≡ (r, p1)
    → dup devtab no_table old new p
      ≡ map_fd no_table
          (index2fd old)
          (index2fd new)
          (index2data new)
          new
          (map_data no_table (index2data old) (index2data new) p1)
dup-at devtab no_table old new page p r p1 a b here closed =
    dup-found devtab no_table old new page p r p1 (index2fd old) (fd_lookup-found old page p a here)
      closed
    ∙ ap₂
        (λ i j.
          map_fd no_table (index2fd old) (index2fd new) (index2data j) new
            (map_data no_table (index2data i) (index2data j) p1))
        (fd2num-index2fd old a) (fd2num-index2fd new b)

abbrev mapped : ℕ → ℕ → Process → Process
mapped va page p = record p { space = update p.space va (some page) }

map_own-done :
    (no_table : ℕ → Bool) (src dst page : ℕ) (p : Process)
    → p.space src ≡ some page
    → dst < utop
    → no_table dst ≡ false
    → map_own no_table src dst p ≡ (pos 0, mapped dst page p)
map_own-done no_table src dst page p e low t =
    let user : leb utop dst ≡ false = ground arith in rw (e, user, t, map_own) refl

-- The data page goes along.
data DataPage (no_table : ℕ → Bool) (ova nva : ℕ) (p : Process) : Type 0 where
  no_page :
      p.space ova ≡ none → map_data no_table ova nva p ≡ (pos 0, p) → DataPage no_table ova nva p
  shared :
      (q : ℕ)
      → p.space ova ≡ some q
      → map_data no_table ova nva p ≡ (pos 0, mapped nva q p)
      → DataPage no_table ova nva p

map_data_cases :
    (no_table : ℕ → Bool) (ova nva : ℕ) (p : Process)
    → nva < utop
    → no_table nva ≡ false
    → DataPage no_table ova nva p
map_data_cases no_table ova nva p low t = elim (Option-cases (p.space ova)) [
  | inl e ↦ no_page e (rw (e, map_data) refl)
  | inr (q, e) ↦ shared q e (rw (e, map_data) (map_own-done no_table ova nva q p e low t))
]

-- From the mapping of the data page on.
map_fd-done :
    (no_table : ℕ → Bool) (oldfd newfd nva new page : ℕ) (p : Process)
    → p.space oldfd ≡ some page
    → newfd < utop
    → no_table newfd ≡ false
    → map_fd no_table oldfd newfd nva new (pos 0, p) ≡ (pos new, mapped newfd page p)
map_fd-done no_table oldfd newfd nva new page p e low t =
    ap (λ r. or_give_up no_table newfd nva (pos new) r)
      (map_own-done no_table oldfd newfd page p e low t)

-- p1 is the process once the descriptor's number was closed, p2 that when dup is done.
pub record IsDup (old new page : ℕ) (p1 p2 : Process) : Type 0 where
  pub new_shares : p2.space (index2fd new) ≡ some page
  pub old_stays : p2.space (index2fd old) ≡ some page
  pub data_shared :
      (q : ℕ) → p1.space (index2data old) ≡ some q → p2.space (index2data new) ≡ some q
  pub others : (va : ℕ) → va ≢ index2fd new → va ≢ index2data new → p2.space va ≡ p1.space va
  pub contents : p2.fds ≡ p1.fds

IsDup-bare :
    (old new page : ℕ) (p1 : Process)
    → old < maxfd
    → new < maxfd
    → new ≢ old
    → p1.space (index2fd old) ≡ some page
    → p1.space (index2data old) ≡ none
    → IsDup old new page p1 (mapped (index2fd new) page p1)
IsDup-bare old new page p1 a b ne e no_data =
    let same : (index2fd new == index2fd new) ≡ true = ground arith in
    record {
      new_shares = rw same refl;
      old_stays = rw (index2fd-apart new old b a ne) e;
      data_shared = λ q h. cc (no_data, h);
      others =
          λ va f d. let apart : (index2fd new == va) ≡ false = ground (arith, f) in rw apart refl;
      contents = refl;
    }

IsDup-whole :
    (old new page q : ℕ) (p1 : Process)
    → old < maxfd
    → new < maxfd
    → new ≢ old
    → p1.space (index2fd old) ≡ some page
    → p1.space (index2data old) ≡ some q
    → IsDup old new page p1 (mapped (index2fd new) page (mapped (index2data new) q p1))
IsDup-whole old new page q p1 a b ne e data_page =
    let same : (index2fd new == index2fd new) ≡ true = ground arith in
    let same_data : (index2data new == index2data new) ≡ true = ground arith in
    let not_data : (index2fd new == index2data new) ≡ false = ground arith in
    record {
      new_shares = rw same refl;
      old_stays = rw (index2fd-apart new old b a ne, index2data-apart new old b a) e;
      data_shared = λ q' h. rw (not_data, same_data) (cc (data_page, h));
      others = λ va f d.
          let apart : (index2fd new == va) ≡ false = ground (arith, f) in
          let apart_data : (index2data new == va) ≡ false = ground (arith, d) in
          rw (apart, apart_data) refl;
      contents = refl;
    }

-- The descriptors share their offset.
seek-shared :
    (old new page : ℕ) (p1 p2 : Process)
    → old < maxfd
    → new < maxfd
    → IsDup old new page p1 p2
    → (offset : ℕ)
    → (p3 : Process) × (seek new offset p2 ≡ (pos 0, p3))
      × (fd_lookup old p3 ≡ found (index2fd old) page)
      × ((p3.fds page).fd_offset ≡ offset)
unfolding seek
seek-shared old new page p1 p2 a b is offset =
    let same : (page == page) ≡ true = ground arith in
    let p3 = set_offset page offset p2 in
    (
      p3,
      rw (fd_lookup-found new page p2 b is.new_shares, seek) refl,
      fd_lookup-found old page p3 a is.old_stays,
      rw same refl,
    )

-- dup of an open descriptor to another number of the table, where closing that number leaves the
-- first one open, and page tables are there: the result is the new number; both numbers have the same
-- page, and the same data page if the old one has any; no other address changes, and no contents do but
-- by the close. So seek on the new number sets the offset that the old one has.
pub dup_shares :
    (devtab : List Dev) (no_table : ℕ → Bool) (old new page : ℕ) (p p1 : Process) (r : ℤ)
    → old < maxfd
    → new < maxfd
    → new ≢ old
    → p.space (index2fd old) ≡ some page
    → close devtab new p ≡ (r, p1)
    → p1.space (index2fd old) ≡ some page
    → no_table (index2fd new) ≡ false
    → no_table (index2data new) ≡ false
    → (p2 : Process) × (dup devtab no_table old new p ≡ (pos new, p2))
      × IsDup old new page p1 p2
      × ((offset : ℕ)
          → (p3 : Process) × (seek new offset p2 ≡ (pos 0, p3))
            × (fd_lookup old p3 ≡ found (index2fd old) page)
            × ((p3.fds page).fd_offset ≡ offset))
dup_shares devtab no_table old new page p p1 r a b ne here closed stays table data_table =
    let nva = index2data new in
    let at = dup-at devtab no_table old new page p r p1 a b here closed in
    elim (map_data_cases no_table (index2data old) nva p1 (omega arith) data_table) [
      | no_page none_there e ↦
          let is = IsDup-bare old new page p1 a b ne stays none_there in
          (
            mapped (index2fd new) page p1,
            at
                ∙ ap (map_fd no_table (index2fd old) (index2fd new) nva new) e
                ∙ map_fd-done no_table (index2fd old) (index2fd new) nva new page p1 stays
                    (omega arith) table,
            is,
            seek-shared old new page p1 (mapped (index2fd new) page p1) a b is,
          )
      | shared q some_there e ↦
          let is = IsDup-whole old new page q p1 a b ne stays some_there in
          let still : (mapped nva q p1).space (index2fd old) ≡ some page =
            rw (index2data-apart new old b a) stays in
          (
            mapped (index2fd new) page (mapped nva q p1),
            at
                ∙ ap (map_fd no_table (index2fd old) (index2fd new) nva new) e
                ∙ map_fd-done no_table (index2fd old) (index2fd new) nva new page (mapped nva q p1)
                    still (omega arith) table,
            is,
            seek-shared old new page p1 (mapped (index2fd new) page (mapped nva q p1)) a b is,
          )
    ]

-- The label err of dup.
give_up-fails :
    (no_table : ℕ → Bool) (i : ℕ) (r : ℤ) (p : Process)
    → i < maxfd
    → is_neg r ≡ true
    → let out = give_up no_table (index2fd i) (index2data i) (r, p) in
      (is_neg out.0 ≡ true) × (out.1.space (index2fd i) ≡ none)
give_up-fails no_table i r p low neg =
    let user : ltb (index2fd i) utop ≡ true = ground arith in
    let user_data : ltb (index2data i) utop ≡ true = ground arith in
    let same : (index2fd i == index2fd i) ≡ true = ground arith in
    (neg, rw (user, user_data, unmap) (rw (index2data-apart i i low low, same) refl))

map_fd-fails :
    (no_table : ℕ → Bool) (i : ℕ) (r : ℤ) (p : Process)
    → i < maxfd
    → p.space (index2fd i) ≡ none
    → let out = map_fd no_table (index2fd i) (index2fd i) (index2data i) i (r, p) in
      (is_neg out.0 ≡ true) × (out.1.space (index2fd i) ≡ none)
map_fd-fails no_table i (negsuc n) p low e = give_up-fails no_table i (negsuc n) p low refl
map_fd-fails no_table i (pos n) p low e =
    rw (e, map_own) (give_up-fails no_table i e_inval p low refl)

map_data-keeps :
    (no_table : ℕ → Bool) (i : ℕ) (p : Process)
    → i < maxfd
    → p.space (index2fd i) ≡ none
    → (map_data no_table (index2data i) (index2data i) p).1.space (index2fd i) ≡ none
map_data-keeps no_table i p low e = elim (Option-cases (p.space (index2data i))) [
  | inl none_there ↦ rw (none_there, map_data) e
  | inr (q, some_there) ↦
      let user : leb utop (index2data i) ≡ false = ground arith in
      elim (Bool-cases (no_table (index2data i))) [
        | inl t ↦ rw (some_there, map_data) (rw (some_there, user, t, map_own) e)
        | inr t ↦
            rw (some_there, map_data)
              (rw (some_there, user, t, map_own) (rw (index2data-apart i i low low) e))
      ]
]

-- dup of an open descriptor to its own number fails and leaves it closed, whatever its device is.
pub dup_self :
    (devtab : List Dev) (no_table : ℕ → Bool) (i page : ℕ) (p : Process)
    → i < maxfd
    → p.space (index2fd i) ≡ some page
    → (is_neg (dup devtab no_table i i p).0 ≡ true)
      × ((dup devtab no_table i i p).1.space (index2fd i) ≡ none)
dup_self devtab no_table i page p low here =
    let p1 = (close devtab i p).1 in
    let gone = close-unmaps devtab i page p low here in
    let (r, p2) = map_data no_table (index2data i) (index2data i) p1 in
    let at = dup-at devtab no_table i i page p (close devtab i p).0 p1 low low here refl in
    let out = map_fd-fails no_table i r p2 low (map_data-keeps no_table i p1 low gone) in
    (ap (λ o. is_neg o.0) at ∙ out.0, ap (λ o. o.1.space (index2fd i)) at ∙ out.1)
