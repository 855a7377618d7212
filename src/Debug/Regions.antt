-- ===== src/Debug/Regions.antt =====
-- The region that stab_binsearch of mit-6.828/lab/kern/kdebug.c finds: between the last entry of the type
-- that is not above the address and the next one.
use papers_annotation.Prelude.{
  ℕ, zero, suc, ◌+◌, ◌-◌, ◌*◌, ◌^◌, ◌≤◌, ◌<◌, ◌≡◌, ◌≢◌, refl, arith, true, false, none, some, ltb,
  Bool-cases, inl, inr, ◌⊎◌, ◌↔◌, ◌∙◌, Option-cases, min, dec_lt,
}
use papers_annotation.Prelude.Int.{ℤ, pos, int_sub}
use papers_annotation.Debug.{
  Stab, Search, last_of_type, middle, narrow, search_round, search_loop, regions, start,
  stab_binsearch,
}
use papers_annotation.Debug.Rounds.{
  IsLast, last_of_type-some, measure, search_round-cases, search_round-measure, search_loop-total,
}

module _ (stabs : ℕ → Stab) (type : ℕ) where
  abbrev pub OfType : ℕ → Type 0
  OfType i = (stabs i).n_type ≡ type

  -- No entry of the type from l on before the end.
  abbrev pub NoneIn : ℕ → ℕ → Type 0
  NoneIn l end = (i : ℕ) → l ≤ i → i < end → (stabs i).n_type ≢ type

  abbrev pub IsAbove : ℕ → ℕ → Type 0
  IsAbove key i = OfType i × (key < (stabs i).n_value)

  abbrev pub IsOrdered : ℕ → ℕ → Type 0
  IsOrdered first end =
      (i j : ℕ)
      → first ≤ i
      → i < j
      → j < end
      → OfType i
      → OfType j
      → (stabs i).n_value ≤ (stabs j).n_value

  -- The end of the region: the next entry of the type, or the end of the table.
  abbrev pub IsEnd : ℕ → ℕ → ℕ → Type 0
  IsEnd key end q = (q ≡ end) ⊎ ((q < end) × IsAbove key q)

  -- What is known after some rounds: no entry of the type was seen; only such that are above the
  -- address; or one that is not.
  data Progress (first end key : ℕ) (s : Search) : Type 0 where
    untouched :
        s.any_matches ≡ false
        → s.left ≡ first
        → s.r_end ≡ end
        → NoneIn first s.l
        → Progress first end key s
    above_only :
        s.any_matches ≡ true
        → s.left ≡ first
        → s.r_end < end
        → IsAbove key s.r_end
        → NoneIn first s.l
        → Progress first end key s
    reached :
        s.any_matches ≡ true
        → first ≤ s.left
        → s.left ≤ s.l
        → s.left < s.r_end
        → OfType s.left
        → (stabs s.left).n_value ≤ key
        → NoneIn (s.left + 1) s.l
        → IsEnd key end s.r_end
        → Progress first end key s

  record Inv (first end key : ℕ) (s : Search) : Type 0 where
    ordered : s.l ≤ s.r_end
    low : first ≤ s.l
    high : s.r_end ≤ end
    key_or_next : (s.addr ≡ key) ⊎ (s.addr ≡ key + 1)
    same_end : s.right_end ≡ s.r_end
    progress : Progress first end key s

  -- The three results. `next` is the index after *region_right.
  pub data Answer (first end key : ℕ) (result : ℤ × ℤ) : Type 0 where
    no_match :
        NoneIn first end → result ≡ (pos first, int_sub first 1) → Answer first end key result
    all_above :
        (next : ℕ)
        → first ≤ next
        → next < end
        → OfType next
        → NoneIn first next
        → ((i : ℕ) → first ≤ i → i < end → OfType i → key < (stabs i).n_value)
        → result ≡ (int_sub (min (first + 1) next) 1, int_sub next 1)
        → Answer first end key result
    region :
        (at next : ℕ)
        → first ≤ at
        → at < next
        → OfType at
        → NoneIn (at + 1) next
        → (next ≡ end) ⊎ ((next < end) × OfType next)
        → ((i : ℕ) → first ≤ i → i < end → OfType i → ((stabs i).n_value ≤ key) ↔ (i ≤ at))
        → result ≡ (pos at, int_sub next 1)
        → Answer first end key result

  NoneIn-join : (a l l' : ℕ) → NoneIn a l → NoneIn l l' → NoneIn a l'
  NoneIn-join a l l' old new i g h = elim (dec_lt i l) [
    | yes below ↦ old i g below
    | no above ↦ new i (omega arith) h
  ]

  module _ (first end key : ℕ) (small : key + 1 < 2 ^ 32) where
    skip-Progress :
        (s : Search) (l' : ℕ)
        → NoneIn s.l l'
        → s.l ≤ l'
        → Progress first end key s
        → Progress first end key (record s { l = l' })
    skip-Progress s l' new grows (untouched a b c d) =
        untouched a b c (NoneIn-join first s.l l' d new)
    skip-Progress s l' new grows (above_only a b c d e) =
        above_only a b c d (NoneIn-join first s.l l' e new)
    skip-Progress s l' new grows (reached a b c d e f g h) =
        reached a b (omega arith) d e f (NoneIn-join (s.left + 1) s.l l' g new) h

    lower-Progress :
        (s : Search) (m : ℕ)
        → s.l ≤ m
        → m < s.r_end
        → s.r_end ≤ end
        → IsAbove key m
        → Progress first end key s
        → Progress first end key (record s { right_end = m; r_end = m; any_matches = true })
    lower-Progress s m above below high seen (untouched a b c d) =
        above_only refl b (omega arith) seen d
    lower-Progress s m above below high seen (above_only a b c d e) =
        above_only refl b (omega arith) seen e
    lower-Progress s m above below high seen (reached a b c d e f g h) =
        reached refl b c (ground arith) e f g (inr (omega arith, seen))

    upper-Progress :
        (s : Search) (m addr' l' : ℕ)
        → first ≤ m
        → m ≤ l'
        → m < s.r_end
        → OfType m
        → (stabs m).n_value ≤ key
        → NoneIn (m + 1) l'
        → Progress first end key s
        → Progress first end key (record s { left = m; l = l'; addr = addr'; any_matches = true })
    upper-Progress s m addr' l' a b c d e f (untouched _ _ z _) = reached refl a b c d e f (inl z)
    upper-Progress s m addr' l' a b c d e f (above_only _ _ x y _) =
        reached refl a b c d e f (inr (x, y))
    upper-Progress s m addr' l' a b c d e f (reached _ _ _ _ _ _ _ z) = reached refl a b c d e f z

    narrow-Inv :
        (s : Search) (m : ℕ)
        → ((i : ℕ) → first ≤ i → i < end → OfType i → (stabs i).n_value ≢ key + 1)
        → s.l < s.r_end
        → IsLast stabs type s.l (middle stabs type s + 1 - s.l) m
        → Inv first end key s
        → Inv first end key (narrow stabs type s m)
    narrow-Inv s m apart more seen inv = elim (Bool-cases (ltb (stabs m).n_value s.addr)) [
      | inl less ↦ rw less (record {
        ordered = omega (arith, more);
        low = omega (arith, inv.low);
        high = inv.high;
        key_or_next = inv.key_or_next;
        same_end = inv.same_end;
        progress =
            upper-Progress s m s.addr (middle stabs type s + 1) (omega (arith, inv.low, seen.above))
              (omega (arith, seen.below)) (omega (arith, seen.below)) seen.typed
              (ground (arith, less, inv.key_or_next))
              (λ i g h. seen.last i (omega arith) (omega (arith, inv.low))) inv.progress;
      })
      | inr rest ↦ rw rest (elim (Bool-cases (ltb s.addr (stabs m).n_value)) [
        | inl greater ↦ rw greater (record {
          ordered = seen.above;
          low = inv.low;
          high = omega (arith, inv.high, seen.below);
          key_or_next = inv.key_or_next;
          same_end = refl;
          progress =
              lower-Progress s m seen.above (omega (arith, seen.below)) inv.high
                (seen.typed, ground (arith, greater, inv.key_or_next)) inv.progress;
        })
        | inr same ↦
            let exact : (stabs m).n_value ≡ s.addr = ground (arith, rest, same) in
            let at_key : s.addr ≡ key = ground (
              arith,
              inv.key_or_next,
              exact,
              apart m (omega (arith, inv.low, seen.above)) (omega (arith, seen.below, inv.high))
                  seen.typed,
            ) in
            rw same (record {
              ordered = omega (arith, seen.below);
              low = omega (arith, inv.low, seen.above);
              high = inv.high;
              key_or_next = inr (omega arith);
              same_end = inv.same_end;
              progress =
                  upper-Progress s m _ m (omega (arith, inv.low, seen.above)) (omega arith)
                    (omega (arith, seen.below)) seen.typed (omega arith)
                    (λ i g h. absurd (omega arith)) inv.progress;
            })
      ])
    ]

    search_round-Inv :
        (s : Search)
        → ((i : ℕ) → first ≤ i → i < end → OfType i → (stabs i).n_value ≢ key + 1)
        → s.l < s.r_end
        → Inv first end key s
        → Inv first end key (search_round stabs type s)
    search_round-Inv s apart more inv = elim (search_round-cases stabs type s more) [
      | inl (unseen, e) ↦ rw e (record {
        ordered = omega (arith, more);
        low = omega (arith, inv.low);
        high = inv.high;
        key_or_next = inv.key_or_next;
        same_end = inv.same_end;
        progress =
            skip-Progress s (middle stabs type s + 1) (λ i g h. unseen i g (omega arith))
              (omega arith) inv.progress;
      })
      | inr (m, seen, e) ↦ rw e (narrow-Inv s m apart more seen inv)
    ]

    last_of_type-eq-none :
        (l count : ℕ) → NoneIn l (l + count) → last_of_type stabs type l count ≡ none
    last_of_type-eq-none l count unseen = elim (Option-cases (last_of_type stabs type l count)) [
      | inl e ↦ e
      | inr (m, e) ↦
          let seen = last_of_type-some stabs type l count m e in
          absurd (unseen m seen.above seen.below seen.typed)
    ]

    -- The last loop finds nothing between the two ends.
    regions-eq :
        (s : Search)
        → s.any_matches ≡ true
        → NoneIn (s.left + 1) s.r_end
        → s.right_end ≡ s.r_end
        → regions stabs type s ≡ (int_sub (min (s.left + 1) s.r_end) 1, int_sub s.r_end 1)
    unfolding regions
    regions-eq s any unseen same =
        let nothing =
          last_of_type-eq-none (s.left + 1) (s.r_end - (s.left + 1))
            (λ i g h. unseen i g (omega arith)) in
        rw (any, same, nothing) refl

    all_after :
        (q : ℕ)
        → IsOrdered first end
        → first ≤ q
        → q < end
        → IsAbove key q
        → NoneIn first q
        → (i : ℕ) → first ≤ i
        → i < end
        → OfType i
        → key < (stabs i).n_value
    all_after q sorted a b above unseen i g h t = elim (dec_lt q i) [
      | yes after ↦ omega (arith, sorted q i a after h above.0 t, above.1)
      | no before ↦ elim (dec_lt i q) [
        | yes under ↦ absurd (unseen i g under t)
        | no same ↦ let e : i ≡ q = omega arith in rw e above.1
      ]
    ]

    weak_end : {q : ℕ} → IsEnd key end q → (q ≡ end) ⊎ ((q < end) × OfType q)
    weak_end (inl e) = inl e
    weak_end (inr (a, b)) = inr (a, b.0)

    after_end :
        (q i : ℕ)
        → IsOrdered first end
        → first ≤ q
        → IsEnd key end q
        → q ≤ i
        → i < end
        → OfType i
        → key < (stabs i).n_value
    after_end q i sorted a (inl e) g h t = absurd (omega arith)
    after_end q i sorted a (inr (b, above)) g h t = elim (dec_lt q i) [
      | yes after ↦ omega (arith, sorted q i a after h above.0 t, above.1)
      | no same ↦ let e : i ≡ q = omega arith in rw e above.1
    ]

    -- The entries of the type up to `at` are those that are not above the address.
    split :
        (s : Search)
        → IsOrdered first end
        → s.r_end ≤ end
        → first ≤ s.left
        → s.left < s.r_end
        → OfType s.left
        → (stabs s.left).n_value ≤ key
        → NoneIn (s.left + 1) s.r_end
        → IsEnd key end s.r_end
        → (i : ℕ) → first ≤ i
        → i < end
        → OfType i
        → ((stabs i).n_value ≤ key) ↔ (i ≤ s.left)
    split s sorted high a b t below unseen stop i g h typed = (
      λ under. elim (dec_lt s.left i) [
        | yes after ↦ elim (dec_lt i s.r_end) [
          | yes inside ↦ absurd (unseen i (omega arith) inside typed)
          | no outside ↦ absurd (
              omega
                (arith, under, after_end s.r_end i sorted (omega arith) stop (omega arith) h typed))
        ]
        | no upto ↦ omega arith
      ],
      λ upto. elim (dec_lt i s.left) [
        | yes before ↦ omega (arith, below, sorted i s.left g before (omega arith) typed t)
        | no same ↦ let e : i ≡ s.left = omega arith in rw e below
      ],
    )

    ends_at :
        (s : Search)
        → s.left < s.r_end
        → ◌≡◌ {A = ℤ × ℤ}
            (int_sub (min (s.left + 1) s.r_end) 1, int_sub s.r_end 1)
            (pos s.left, int_sub s.r_end 1)
    ends_at s h =
        let m : min (s.left + 1) s.r_end ≡ s.left + 1 = omega arith in
        let p : int_sub (s.left + 1) 1 ≡ pos s.left = ground arith in rw (m, p) refl

    Inv-Answer :
        (s : Search)
        → IsOrdered first end
        → s.l ≡ s.r_end
        → Inv first end key s
        → Progress first end key s
        → Answer first end key (regions stabs type s)
    unfolding regions
    Inv-Answer s sorted done inv (untouched a b c d) =
        no_match (λ i g h. d i g (omega (arith, done, c))) (rw (a, b) refl)
    Inv-Answer s sorted done inv (above_only a b c d e) =
        all_above s.r_end (omega (arith, inv.low, inv.ordered)) c d.0
          (λ i g h. e i g (omega (arith, done)))
          (all_after s.r_end sorted (omega (arith, inv.low, inv.ordered)) c d
            (λ i g h. e i g (omega (arith, done))))
          (regions-eq s a (λ i g h. e i (omega (arith, b)) (omega (arith, done))) inv.same_end
            ∙ rw b refl)
    Inv-Answer s sorted done inv (reached a b c d e f g h) =
        region s.left s.r_end b d e (λ i g' h'. g i g' (omega (arith, done))) (weak_end h)
          (split s sorted (omega (arith, inv.ordered, inv.high)) b d e f
            (λ i g' h'. g i g' (omega (arith, done))) h)
          (regions-eq s a (λ i g' h'. g i g' (omega (arith, done))) inv.same_end ∙ ends_at s d)

    search_loop-Inv :
        (fuel : ℕ) (s : Search)
        → ((i : ℕ) → first ≤ i → i < end → OfType i → (stabs i).n_value ≢ key + 1)
        → measure stabs type s < fuel
        → s.addr + measure stabs type s < 2 ^ 32
        → Inv first end key s
        → (s' : Search) × (search_loop stabs type fuel s ≡ some s')
          × Inv first end key s'
          × (s'.l ≡ s'.r_end)
    unfolding search_loop
    search_loop-Inv zero s apart h fits inv = absurd (omega arith)
    search_loop-Inv (suc fuel) s apart h fits inv = elim (Bool-cases (ltb s.l s.r_end)) [
      | inl more ↦
          let lt : s.l < s.r_end = ground (arith, more) in
          let step = search_round-measure stabs type s lt fits in
          rw more (
            search_loop-Inv fuel (search_round stabs type s) apart (omega (arith, step))
              (omega (arith, step)) (search_round-Inv s apart lt inv))
      | inr done ↦ (s, rw done refl, inv, ground (arith, done, inv.ordered))
    ]

  -- The search over the entries first <= i < end returns, whatever they are, as long as the address is
  -- not so high that it wraps around.
  pub stab_binsearch-total :
      (first end key : ℕ)
      → key + 2 * (end - first) + 1 < 2 ^ 32
      → (result : ℤ × ℤ) × (stab_binsearch stabs type first end key ≡ some result)
  unfolding stab_binsearch
  stab_binsearch-total first end key fits =
      let (s, e) =
        search_loop-total stabs type (2 * (end - first) + 2) (start stabs type first end key)
          (ground arith) (ground arith) in
      (regions stabs type s, rw e refl)

  -- The search over the entries first <= i < end, in which those of the type stand in the order of their
  -- values, returns. It finds the last entry of the type that is not above the address, and the next
  -- of the type, or the end. If all of the type are above the address, *region_right is just before the
  -- first of them, and *region_left is `first`, or *region_right if that is lower; if there is none,
  -- *region_right is just below *region_left. No entry of the type may have the value after the
  -- address, for which the loop looks once it has met the address.
  pub stab_binsearch_lem :
      (first end key : ℕ)
      → first ≤ end
      → key + 2 * (end - first) + 1 < 2 ^ 32
      → IsOrdered first end
      → ((i : ℕ) → first ≤ i → i < end → OfType i → (stabs i).n_value ≢ key + 1)
      → (result : ℤ × ℤ) × (stab_binsearch stabs type first end key ≡ some result)
        × Answer first end key result
  unfolding stab_binsearch
  stab_binsearch_lem first end key h fits sorted apart =
      let (s, e, inv, done) =
        search_loop-Inv first end key (omega arith) (2 * (end - first) + 2)
          (start stabs type first end key) apart (ground arith) (ground arith)
          (record {
            ordered = h;
            low = omega arith;
            high = omega arith;
            key_or_next = inl refl;
            same_end = refl;
            progress = untouched refl refl refl (λ i g b. absurd (omega arith));
          }) in
      (
        regions stabs type s,
        rw e refl,
        Inv-Answer first end key (omega arith) s sorted done inv inv.progress,
      )
