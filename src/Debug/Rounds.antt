-- ===== src/Debug/Rounds.antt =====
-- The search loop of stab_binsearch in mit-6.828/lab/kern/kdebug.c ends.
use papers_annotation.Prelude.{
  ℕ, zero, suc, ◌+◌, ◌-◌, ◌*◌, ◌^◌, ◌≤◌, ◌<◌, ◌≡◌, ◌≢◌, refl, arith, Bool, none, some, ltb, ◌==◌,
  ◌&&◌, if◌then◌else◌, Bool-cases, inl, inr, ◌⊎◌, Option-cases,
}
use papers_annotation.Debug.{Stab, Search, last_of_type, middle, narrow, search_round, search_loop}

module _ (stabs : ℕ → Stab) (type : ℕ) where
  -- What a scan finds: the last entry of the type.
  pub record IsLast (l count m : ℕ) : Type 0 where
    pub above : l ≤ m
    pub below : m < l + count
    pub typed : (stabs m).n_type ≡ type
    pub last : (i : ℕ) → m < i → i < l + count → (stabs i).n_type ≢ type

  pub last_of_type-some :
      (l count m : ℕ) → last_of_type stabs type l count ≡ some m → IsLast l count m
  unfolding last_of_type
  last_of_type-some l zero m e = cc
  last_of_type-some l (suc count) m e = elim (Bool-cases ((stabs (l + count)).n_type == type)) [
    | inl same ↦
        let found : l + count ≡ m = ground (arith, e, same) in
        record {
          above = omega arith;
          below = omega arith;
          typed = rw (← found) (ground (arith, same));
          last = λ i g h. absurd (omega arith);
        }
    | inr other ↦
        let inner = last_of_type-some l count m (ground (arith, e, other)) in
        record {
          above = inner.above;
          below = omega (arith, inner.below);
          typed = inner.typed;
          last = λ i g h. ground (arith, other, inner.last i g);
        }
  ]

  pub last_of_type-none :
      (l count : ℕ)
      → last_of_type stabs type l count ≡ none
      → (i : ℕ) → l ≤ i
      → i < l + count
      → (stabs i).n_type ≢ type
  unfolding last_of_type
  last_of_type-none l zero e i g h = absurd (omega arith)
  last_of_type-none l (suc count) e i g h = elim (Bool-cases ((stabs (l + count)).n_type == type)) [
    | inl same ↦ absurd (ground (arith, e, same))
    | inr other ↦ ground (arith, other, last_of_type-none l count (ground (arith, e, other)) i g)
  ]

  -- Whether the entry at l is below the address, as it is after an exact match.
  abbrev pub passed : Search → Bool
  passed s = (stabs s.l).n_type == type && ltb (stabs s.l).n_value s.addr

  abbrev pub measure : Search → ℕ
  measure s = 2 * (s.r_end - s.l) + (if passed s then 0 else 1)

  -- What a round makes of the state.
  pub search_round-cases :
      (s : Search)
      → s.l < s.r_end
      → (((i : ℕ) → s.l ≤ i → i ≤ middle stabs type s → (stabs i).n_type ≢ type)
          × (search_round stabs type s ≡ record s { l = middle stabs type s + 1 }))
        ⊎ ((m : ℕ) × IsLast s.l (middle stabs type s + 1 - s.l) m
            × (search_round stabs type s ≡ narrow stabs type s m))
  unfolding search_round
  search_round-cases s h =
      elim (Option-cases (last_of_type stabs type s.l (middle stabs type s + 1 - s.l))) [
        | inl e ↦ inl (
          λ i g k. last_of_type-none s.l (middle stabs type s + 1 - s.l) e i g (omega arith),
          rw e refl,
        )
        | inr (m, e) ↦ inr (m, last_of_type-some s.l (middle stabs type s + 1 - s.l) m e, rw e refl)
      ]

  narrow-measure :
      (s : Search) (m : ℕ)
      → s.l ≤ m
      → m < s.r_end
      → m ≤ middle stabs type s
      → (stabs m).n_type ≡ type
      → s.addr + measure s < 2 ^ 32
      → (measure (narrow stabs type s m) < measure s)
        × ((narrow stabs type s m).addr + measure (narrow stabs type s m) ≤ s.addr + measure s)
  narrow-measure s m above below mid typed small =
      elim (Bool-cases (ltb (stabs m).n_value s.addr)) [
        | inl less ↦ rw less (ground arith)
        | inr rest ↦ rw rest (elim (Bool-cases (ltb s.addr (stabs m).n_value)) [
          | inl greater ↦ rw greater (ground arith)
          | inr same ↦ rw same (ground (arith, typed, rest, same))
        ])
      ]

  pub search_round-measure :
      (s : Search)
      → s.l < s.r_end
      → s.addr + measure s < 2 ^ 32
      → (measure (search_round stabs type s) < measure s)
        × ((search_round stabs type s).addr + measure (search_round stabs type s)
            ≤ s.addr + measure s)
  search_round-measure s h small = elim (search_round-cases s h) [
    | inl (_, e) ↦ rw e (ground arith)
    | inr (m, found, e) ↦ rw e (
        narrow-measure s m found.above (omega (arith, found.below)) (omega (arith, found.below))
          found.typed small)
  ]

  -- The loop ends, also if several entries match exactly.
  pub search_loop-total :
      (fuel : ℕ) (s : Search)
      → measure s < fuel
      → s.addr + measure s < 2 ^ 32
      → (s' : Search) × (search_loop stabs type fuel s ≡ some s')
  unfolding search_loop
  search_loop-total zero s h small = absurd (omega arith)
  search_loop-total (suc fuel) s h small = elim (Bool-cases (ltb s.l s.r_end)) [
    | inl more ↦
        let step = search_round-measure s (ground (arith, more)) small in
        rw more (
          search_loop-total fuel (search_round stabs type s) (omega (arith, step))
            (omega (arith, step)))
    | inr done ↦ (s, rw done refl)
  ]
