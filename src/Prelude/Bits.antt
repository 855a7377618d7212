-- ===== src/Prelude/Bits.antt =====
-- The laws of `&` and `|` that the flag words of the kernel need: masks of ones, and fields that do
-- not overlap.
use Prim.Native.Nat.{
  ℕ, zero, suc, ◌+◌, ◌-◌, ◌*◌, ◌/◌, ◌%◌, ◌^◌, ◌≤◌, ◌<◌, min, max, bit_and, bit_or, digits, bitwise,
  bit_and-bitwise, bit_or-bitwise,
}
use mathlib.Core.Path.{◌≡◌, refl, sym, ap, ◌∙◌}
use mathlib.Core.Logic.{◌≢◌}
use native.Mathlib.Nat.{pow-suc, pow-succ', div-div-eq-div-mul}
use native.Mathlib.Omega.{arith}

-- Both operations are `digits`, which runs on a count that is at least the first number; what the
-- count exceeds it by is of no account.
module _ (rest : ℕ → ℕ) (op : ℕ → ℕ → ℕ) where
  empty_digits : (c b : ℕ) → digits rest op c 0 b ≡ rest b
  empty_digits zero b = refl
  empty_digits (suc c) b = refl

  digits-same : (c d a b : ℕ) → a ≤ c → a ≤ d → digits rest op c a b ≡ digits rest op d a b
  digits-same c d zero b _ _ = empty_digits c b ∙ sym (empty_digits d b)
  digits-same zero d (suc a) b below _ = absurd (omega arith)
  digits-same (suc c) zero (suc a) b _ below = absurd (omega arith)
  digits-same (suc c) (suc d) (suc a) b h g =
      ap (λ (t : ℕ). t * 2 + op (suc a % 2) (b % 2))
        (digits-same c d (suc a / 2) (b / 2) (omega arith) (omega arith))

  digits-excess : (count a b : ℕ) → a ≤ count → digits rest op count a b ≡ digits rest op a a b
  digits-excess count a b h = digits-same count a a b h (omega arith)

  -- The lowest digit, and the others.
  bitwise-suc :
      (a b : ℕ)
      → bitwise rest op (suc a) b ≡ bitwise rest op (suc a / 2) (b / 2) * 2 + op (suc a % 2) (b % 2)
  bitwise-suc a b =
      ap (λ (t : ℕ). t * 2 + op (suc a % 2) (b % 2))
        (digits-excess a (suc a / 2) (b / 2) (omega arith))

pub bit_and_step : (x y : ℕ) → bit_and x y ≡ bit_and (x / 2) (y / 2) * 2 + min (x % 2) (y % 2)
bit_and_step zero y = omega (arith, bit_and-bitwise 0 y, bit_and-bitwise 0 (y / 2))
bit_and_step (suc x) y =
    bit_and-bitwise (suc x) y
    ∙ bitwise-suc (λ _. 0) min x y
    ∙ ap (λ (t : ℕ). t * 2 + min (suc x % 2) (y % 2)) (sym (bit_and-bitwise (suc x / 2) (y / 2)))

pub bit_or_step : (x y : ℕ) → bit_or x y ≡ bit_or (x / 2) (y / 2) * 2 + max (x % 2) (y % 2)
bit_or_step zero y = omega (arith, bit_or-bitwise 0 y, bit_or-bitwise 0 (y / 2))
bit_or_step (suc x) y =
    bit_or-bitwise (suc x) y
    ∙ bitwise-suc (λ x. x) max x y
    ∙ ap (λ (t : ℕ). t * 2 + max (suc x % 2) (y % 2)) (sym (bit_or-bitwise (suc x / 2) (y / 2)))

-- `x | 0` and `x & 0`, each by halving as long as there are digits.
zero_laws : (bound a : ℕ) → a < bound → (bit_or a 0 ≡ a) × (bit_and a 0 ≡ 0)
zero_laws zero a h = absurd (omega arith)
zero_laws (suc bound) zero h = (refl, refl)
zero_laws (suc bound) (suc a) h =
    let (half_or, half_and) = zero_laws bound (suc a / 2) (omega arith) in
    (omega (arith, bit_or_step (suc a) 0), omega (arith, bit_and_step (suc a) 0))

pub bit_or-zero : (a : ℕ) → bit_or a 0 ≡ a
bit_or-zero a = (zero_laws (suc a) a (omega arith)).0

pub bit_and-zero : (a : ℕ) → bit_and a 0 ≡ 0
bit_and-zero a = (zero_laws (suc a) a (omega arith)).1

-- A high field and a low one do not overlap, so `|` joins them.
pub bit_or-disjoint : (k a b x : ℕ) → x ≡ a * 2 ^ k → b < 2 ^ k → bit_or x b ≡ x + b
bit_or-disjoint zero a zero x e h = omega (arith, bit_or-zero x)
bit_or-disjoint zero a (suc b) x e h = absurd (omega arith)
bit_or-disjoint (suc k) a b x e h = omega (
  arith,
  pow-suc 2 k,
  ap (λ (t : ℕ). a * t) (pow-suc 2 k),
  bit_or_step x b,
  bit_or-disjoint k a (b / 2) (x / 2) (omega (arith, ap (λ (t : ℕ). a * t) (pow-suc 2 k)))
      (omega (arith, pow-suc 2 k)),
)

-- `x & (2 ^ k - 1)` keeps the low k bits.
pub bit_and-mask : (k q r a m : ℕ) → m + 1 ≡ 2 ^ k → a ≡ q * 2 ^ k + r → r < 2 ^ k → bit_and a m ≡ r
bit_and-mask zero q r a m e d h =
    let z : m ≡ 0 = omega arith in rw z (omega (arith, bit_and-zero a))
bit_and-mask (suc k) q r a m e d h = omega (
  arith,
  pow-suc 2 k,
  ap (λ (t : ℕ). q * t) (pow-suc 2 k),
  bit_and_step a m,
  bit_and-mask k q (r / 2) (a / 2) (m / 2) (omega (arith, pow-suc 2 k))
      (omega (arith, ap (λ (t : ℕ). q * t) (pow-suc 2 k))) (omega (arith, pow-suc 2 k)),
)

-- `x & 1`, the present bit.
pub bit_and-one : (a : ℕ) → bit_and a 1 ≡ a % 2
bit_and-one a = omega (arith, bit_and_step a 1, bit_and-zero (a / 2))

pub div-pow-suc : (a j : ℕ) → a / 2 ^ suc j ≡ a / 2 / 2 ^ j
div-pow-suc a j = ap (λ (t : ℕ). a / t) (pow-succ' 2 j) ∙ sym (div-div-eq-div-mul a 2 (2 ^ j))

-- Each bit of `x & y` and of `x | y` comes from that bit of both.
pub bit_and-bit : (j x y : ℕ) → bit_and x y / 2 ^ j % 2 ≡ min (x / 2 ^ j % 2) (y / 2 ^ j % 2)
bit_and-bit zero x y = omega (arith, bit_and_step x y)
bit_and-bit (suc j) x y =
    let half : bit_and x y / 2 ≡ bit_and (x / 2) (y / 2) = omega (arith, bit_and_step x y) in
    let ih = bit_and-bit j (x / 2) (y / 2) in
    rw (div-pow-suc (bit_and x y) j, div-pow-suc x j, div-pow-suc y j, half) ih

pub bit_or-bit : (j x y : ℕ) → bit_or x y / 2 ^ j % 2 ≡ max (x / 2 ^ j % 2) (y / 2 ^ j % 2)
bit_or-bit zero x y = omega (arith, bit_or_step x y)
bit_or-bit (suc j) x y =
    let half : bit_or x y / 2 ≡ bit_or (x / 2) (y / 2) = omega (arith, bit_or_step x y) in
    let ih = bit_or-bit j (x / 2) (y / 2) in
    rw (div-pow-suc (bit_or x y) j, div-pow-suc x j, div-pow-suc y j, half) ih

pub zero-bits : (j : ℕ) → 0 / 2 ^ j % 2 ≡ 0
zero-bits zero = refl
zero-bits (suc j) = rw (div-pow-suc 0 j) (zero-bits j)

-- The bits of `1 << k`, and of the complement of a word of n bits.
pub power-bit_here : (k : ℕ) → 2 ^ k / 2 ^ k % 2 ≡ 1
power-bit_here zero = refl
power-bit_here (suc k) =
    let half : 2 ^ suc k / 2 ≡ 2 ^ k = omega (arith, pow-suc 2 k) in
    rw (div-pow-suc (2 ^ suc k) k, half) (power-bit_here k)

pub power-bit_other : (k j : ℕ) → j ≢ k → 2 ^ k / 2 ^ j % 2 ≡ 0
power-bit_other zero zero h = absurd (h refl)
power-bit_other zero (suc j) h = rw (div-pow-suc 1 j) (zero-bits j)
power-bit_other (suc k) zero h = omega (arith, pow-suc 2 k)
power-bit_other (suc k) (suc j) h =
    let half : 2 ^ suc k / 2 ≡ 2 ^ k = omega (arith, pow-suc 2 k) in
    rw (div-pow-suc (2 ^ suc k) j, half) (power-bit_other k j (λ e. h (ap suc e)))

pub complement-bit :
    (n j x : ℕ) → x < 2 ^ n → j < n → (2 ^ n - 1 - x) / 2 ^ j % 2 ≡ 1 - x / 2 ^ j % 2
complement-bit (suc n) zero x h b = omega (arith, pow-suc 2 n)
complement-bit (suc n) (suc j) x h b =
    let half : (2 ^ suc n - 1 - x) / 2 ≡ 2 ^ n - 1 - x / 2 = omega (arith, pow-suc 2 n) in
    rw (div-pow-suc (2 ^ suc n - 1 - x) j, div-pow-suc x j, half)
      (complement-bit n j (x / 2) (omega (arith, pow-suc 2 n)) (omega arith))
complement-bit zero j x h b = absurd (omega arith)

power_positive : (n : ℕ) → 0 < 2 ^ n
power_positive zero = omega arith
power_positive (suc n) = omega (arith, pow-suc 2 n, power_positive n)

pub power-lt : (k n : ℕ) → k < n → 2 ^ k < 2 ^ n
power-lt zero (suc n) h = omega (arith, pow-suc 2 n, power_positive n)
power-lt (suc k) (suc n) h = omega (arith, pow-suc 2 n, pow-suc 2 k, power-lt k n (omega arith))
power-lt k zero h = absurd (omega arith)
