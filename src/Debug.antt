-- ===== src/Debug.antt =====
-- The search in the debugging table of mit-6.828/lab/kern/kdebug.c (stab_binsearch), over the entries
-- of inc/stab.h. A right end may be -1 in the source: here it is the index after it.
pub mod Rounds
pub mod Regions
mod Tests
use papers_annotation.Prelude.{
  ℕ, zero, suc, ◌+◌, ◌-◌, ◌*◌, ◌/◌, Bool, true, false, Option, none, some, ltb, ◌==◌, if◌then◌else◌,
  min,
}
use papers_annotation.Prelude.Int.{ℤ, pos, int_sub}
use papers_annotation.Mmu.{u32}

pub record Stab : Type 0 where
  pub n_strx : ℕ
  pub n_type : ℕ
  pub n_other : ℕ
  pub n_desc : ℕ
  pub n_value : ℕ

-- The local variables of the search, with those that the pointers name: `r_end` is r + 1, and
-- `right_end` is *region_right + 1.
pub record Search : Type 0 where
  pub l : ℕ
  pub r_end : ℕ
  pub addr : ℕ
  pub left : ℕ
  pub right_end : ℕ
  pub any_matches : Bool

module _ (stabs : ℕ → Stab) (type : ℕ) where
  -- The last entry of the type among the `count` entries from l on, as m goes down to l.
  unfoldable pub last_of_type : ℕ → ℕ → Option ℕ
  last_of_type l zero = none
  last_of_type l (suc count) =
      if (stabs (l + count)).n_type == type then some (l + count) else last_of_type l count

  abbrev pub middle : Search → ℕ
  middle s = (s.l + s.r_end - 1) / 2

  -- The three cases of the comparison at m.
  abbrev pub narrow : Search → ℕ → Search
  narrow s m =
      if ltb (stabs m).n_value s.addr
      then record s { left = m; l = middle s + 1; any_matches = true }
      else if ltb s.addr (stabs m).n_value
      then record s { right_end = m; r_end = m; any_matches = true }
      else record s { left = m; l = m; addr = u32 (s.addr + 1); any_matches = true }

  abbrev pub after_scan : Search → Option ℕ → Search
  after_scan s none = record s { l = middle s + 1 }
  after_scan s (some m) = narrow s m

  unfoldable pub search_round : Search → Search
  unfolding last_of_type
  search_round s = after_scan s (last_of_type s.l (middle s + 1 - s.l))

  unfoldable pub search_loop : ℕ → Search → Option Search
  unfolding search_round
  search_loop zero s = none
  search_loop (suc fuel) s =
      let rest = search_loop fuel (search_round s) in if ltb s.l s.r_end then rest else some s

  -- The loop from *region_right down, which stops at *region_left.
  abbrev pub leftmost : Search → Option ℕ → ℤ
  leftmost s (some i) = pos i
  leftmost s none = int_sub (min (s.left + 1) s.right_end) 1

  -- The values of *region_left and *region_right.
  unfoldable pub regions : Search → ℤ × ℤ
  unfolding last_of_type
  regions s =
      if s.any_matches
      then (
        leftmost s (last_of_type (s.left + 1) (s.right_end - (s.left + 1))),
        int_sub s.right_end 1,
      )
      else (pos s.left, int_sub s.left 1)

  abbrev pub start : ℕ → ℕ → ℕ → Search
  start left right_end addr = record {
    l = left;
    r_end = right_end;
    addr = addr;
    left = left;
    right_end = right_end;
    any_matches = false;
  }

  abbrev pub finish : Option Search → Option (ℤ × ℤ)
  finish none = none
  finish (some s) = some (regions s)

  -- `none` would mean that the fuel ran out.
  unfoldable pub stab_binsearch : ℕ → ℕ → ℕ → Option (ℤ × ℤ)
  unfolding search_loop regions
  stab_binsearch left right_end addr =
      finish (search_loop (2 * (right_end - left) + 2) (start left right_end addr))
