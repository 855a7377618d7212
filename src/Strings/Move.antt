-- ===== src/Strings/Move.antt =====
-- memmove of mit-6.828/lab/lib/string.c copies also where source and destination overlap.
use papers_annotation.Prelude.{
  ℕ, zero, suc, ◌+◌, ◌-◌, ◌*◌, ◌/◌, ◌^◌, ◌≤◌, ◌<◌, ◌≡◌, ◌⊎◌, refl, sym, ap, ◌∙◌, arith, true, false,
  ltb, leb, ◌&&◌, if◌then◌else◌, Bool-cases, inl, inr, dec_lt,
}
use papers_annotation.Mmu.{u32}
use papers_annotation.Strings.{move, copy_up, copy_down, aligned, memmove}

-- A byte inside a moved range, and one outside.
move_inside :
    (w d s : ℕ) (m : ℕ → ℕ) (a b : ℕ) → d ≤ a → a < d + w → b ≡ s + (a - d) → move w d s m a ≡ m b
move_inside w d s m a b lo hi e =
    let here : (leb d a && ltb a (d + w)) ≡ true = ground arith in rw here (ap m (sym e))

move_outside : (w d s : ℕ) (m : ℕ → ℕ) (a : ℕ) → (a < d) ⊎ (d + w ≤ a) → move w d s m a ≡ m a
move_outside w d s m a h =
    let out : (leb d a && ltb a (d + w)) ≡ false = ground arith in rw out refl

-- A step at the bottom, then t bytes above it.
move_then_up :
    (w t d s : ℕ) (m : ℕ → ℕ) (a : ℕ)
    → (d ≤ s) ⊎ (s + (t + w) ≤ d)
    → move t (d + w) (s + w) (move w d s m) a ≡ move (t + w) d s m a
move_then_up w t d s m a h = elim (dec_lt a (d + w)) [
  | yes low ↦ move_outside t (d + w) (s + w) (move w d s m) a (inl low) ∙ elim (dec_lt a d) [
    | yes below ↦
        move_outside w d s m a (inl below) ∙ sym (move_outside (t + w) d s m a (inl below))
    | no from ↦
        move_inside w d s m a (s + (a - d)) (omega arith) low refl
        ∙ sym (move_inside (t + w) d s m a (s + (a - d)) (omega arith) (omega arith) refl)
  ]
  | no high ↦ elim (dec_lt a (d + w + t)) [
    | yes inside ↦
        move_inside t (d + w) (s + w) (move w d s m) a (s + (a - d)) (omega arith) inside
          (omega arith)
        ∙ move_outside w d s m (s + (a - d)) (ground arith)
        ∙ sym (move_inside (t + w) d s m a (s + (a - d)) (omega arith) (omega arith) refl)
    | no above ↦
        move_outside t (d + w) (s + w) (move w d s m) a (inr (omega arith))
        ∙ move_outside w d s m a (inr (omega arith))
        ∙ sym (move_outside (t + w) d s m a (inr (omega arith)))
  ]
]

-- A step at the top, then t bytes below it.
move_then_down :
    (w t d s : ℕ) (m : ℕ → ℕ) (a : ℕ)
    → s ≤ d
    → move t d s (move w (d + t) (s + t) m) a ≡ move (t + w) d s m a
move_then_down w t d s m a h = elim (dec_lt a (d + t)) [
  | yes low ↦ elim (dec_lt a d) [
    | yes below ↦
        move_outside t d s (move w (d + t) (s + t) m) a (inl below)
        ∙ move_outside w (d + t) (s + t) m a (inl (omega arith))
        ∙ sym (move_outside (t + w) d s m a (inl below))
    | no from ↦
        move_inside t d s (move w (d + t) (s + t) m) a (s + (a - d)) (omega arith) low refl
        ∙ move_outside w (d + t) (s + t) m (s + (a - d)) (inl (omega arith))
        ∙ sym (move_inside (t + w) d s m a (s + (a - d)) (omega arith) (omega arith) refl)
  ]
  | no high ↦
      move_outside t d s (move w (d + t) (s + t) m) a (inr (omega arith))
      ∙ elim (dec_lt a (d + t + w)) [
        | yes inside ↦
            move_inside w (d + t) (s + t) m a (s + (a - d)) (omega arith) inside (omega arith)
            ∙ sym (move_inside (t + w) d s m a (s + (a - d)) (omega arith) (omega arith) refl)
        | no above ↦
            move_outside w (d + t) (s + t) m a (inr (omega arith))
            ∙ sym (move_outside (t + w) d s m a (inr (omega arith)))
      ]
]

-- Upwards is right if the destination begins at or before the source, or the two do not overlap;
-- w is the size of a step.
copy_up_lem :
    (w n d s : ℕ) (m : ℕ → ℕ) (a : ℕ)
    → (d ≤ s) ⊎ (s + w * n ≤ d)
    → copy_up w n d s m a ≡ move (w * n) d s m a
unfolding copy_up
copy_up_lem w zero d s m a h = ground arith
copy_up_lem w (suc n) d s m a h =
    let grow : w * suc n ≡ w * n + w = omega arith in
    copy_up_lem w n (d + w) (s + w) (move w d s m) a
      (elim h [ inl le ↦ inl (omega arith) | inr apart ↦ inr (omega (arith, grow)) ])
    ∙ move_then_up w (w * n) d s m a
        (elim h [ inl le ↦ inl le | inr apart ↦ inr (omega (arith, grow)) ])
    ∙ ap (λ (t : ℕ). move t d s m a) (sym grow)

copy_down_lem :
    (w n d s : ℕ) (m : ℕ → ℕ) (a : ℕ) → s ≤ d → copy_down w n d s m a ≡ move (w * n) d s m a
unfolding copy_down
copy_down_lem w zero d s m a h = ground arith
copy_down_lem w (suc n) d s m a h =
    let grow : w * suc n ≡ w * n + w = omega arith in
    copy_down_lem w n d s (move w (d + w * n) (s + w * n) m) a h
    ∙ move_then_down w (w * n) d s m a h
    ∙ ap (λ (t : ℕ). move t d s m a) (sym grow)

-- memmove of n bytes, where both ranges lie in the address space: afterwards the destination holds
-- the bytes that the source held before, also where the two overlap, and no other byte has changed.
pub memmove_lem :
    (dst src n : ℕ) (m : ℕ → ℕ) (a : ℕ)
    → src + n < 2 ^ 32
    → dst + n < 2 ^ 32
    → memmove dst src n m a ≡ (if leb dst a && ltb a (dst + n) then m (src + (a - dst)) else m a)
unfolding memmove
memmove_lem dst src n m a hs hd = elim (Bool-cases (ltb src dst && ltb dst (u32 (src + n)))) [
  | inl over ↦ elim (Bool-cases (aligned (u32 (src + n)) (u32 (dst + n)) n)) [
    | inl four ↦
        rw (over, four)
          (copy_down_lem 4 (n / 4) dst src m a (ground arith)
            ∙ ap (λ (t : ℕ). move t dst src m a) (ground arith))
    | inr one ↦
        rw (over, one)
          (copy_down_lem 1 n dst src m a (ground arith)
            ∙ ap (λ (t : ℕ). move t dst src m a) (omega arith))
  ]
  | inr apart ↦ elim (Bool-cases (aligned src dst n)) [
    | inl four ↦
        rw (apart, four)
          (copy_up_lem 4 (n / 4) dst src m a (ground arith)
            ∙ ap (λ (t : ℕ). move t dst src m a) (ground arith))
    | inr one ↦
        rw (apart, one)
          (copy_up_lem 1 n dst src m a (ground arith)
            ∙ ap (λ (t : ℕ). move t dst src m a) (omega arith))
  ]
]
