-- ===== src/Prelude/BitAnd.antt =====
-- Masking off the low bits of a machine word: `x & ~(2^k - 1)` on w-bit words.
use Prim.Native.Nat.{
  ℕ, zero, suc, ◌+◌, ◌-◌, ◌*◌, ◌/◌, ◌%◌, ◌^◌, ◌≤◌, ◌<◌, min, bit_and, digits, bit_and-bitwise,
}
use mathlib.Core.Path.{◌≡◌, refl, ◌∙◌, ap, sym}
use native.Mathlib.Omega.{arith}
use native.Mathlib.Nat.{pow-succ', pow-le-pow_right, div-div-eq-div-mul}

-- `~x` on a w-bit word.
abbrev pub complement : ℕ → ℕ → ℕ
complement w x = 2 ^ w - 1 - x

-- The loop over the binary digits that the native operation stands for, on fuel.
abbrev conjoin : ℕ → ℕ → ℕ → ℕ
conjoin fuel x y = digits (λ _. 0) min fuel x y

conjoin-suc : (fuel x y : ℕ) → x ≤ fuel → conjoin (suc fuel) x y ≡ conjoin fuel x y
conjoin-suc zero zero y h = refl
conjoin-suc (suc fuel) zero y h = refl
conjoin-suc zero (suc x) y h = absurd (omega arith)
conjoin-suc (suc fuel) (suc x) y h =
    omega (arith, conjoin-suc fuel (suc x / 2) (y / 2) (omega arith))

conjoin-add : (more fuel x y : ℕ) → x ≤ fuel → conjoin (more + fuel) x y ≡ conjoin fuel x y
conjoin-add zero fuel x y h = ap (λ n. conjoin n x y) (omega arith)
conjoin-add (suc more) fuel x y h =
    let shift : suc more + fuel ≡ suc (more + fuel) = omega arith in
    rw (shift, conjoin-suc (more + fuel) x y (omega arith)) (conjoin-add more fuel x y h)

-- Enough fuel is as good as more of it.
conjoin-half : (x y : ℕ) → conjoin x (suc x / 2) y ≡ bit_and (suc x / 2) y
conjoin-half x y =
    let split : x ≡ (x - suc x / 2) + suc x / 2 = omega arith in
    ap (λ n. conjoin n (suc x / 2) y) split
    ∙ conjoin-add (x - suc x / 2) (suc x / 2) (suc x / 2) y (omega arith)
    ∙ sym (bit_and-bitwise (suc x / 2) y)

bit_and-left_zero : (y : ℕ) → bit_and 0 y ≡ 0
bit_and-left_zero y = bit_and-bitwise 0 y

-- The lowest digit apart from the others.
pub bit_and_step : (x y : ℕ) → bit_and x y ≡ 2 * bit_and (x / 2) (y / 2) + min (x % 2) (y % 2)
bit_and_step zero y = omega (arith, bit_and-left_zero y, bit_and-left_zero (y / 2))
bit_and_step (suc x) y = omega (arith, bit_and-bitwise (suc x) y, conjoin-half x (y / 2))

pub double-pow : (k : ℕ) → 2 ^ suc k ≡ 2 * 2 ^ k
double-pow k = pow-succ' 2 k

pub pow-pos : (k : ℕ) → 1 ≤ 2 ^ k
pow-pos zero = omega arith
pow-pos (suc k) = omega (arith, double-pow k, pow-pos k)

pub pow_mono : (k w : ℕ) → k ≤ w → 2 ^ k ≤ 2 ^ w
pow_mono k w h = pow-le-pow_right {n = 2} (omega arith) h

bit_and-zero : (x : ℕ) → x < 1 → bit_and x 0 ≡ x
bit_and-zero zero h = bit_and-left_zero 0
bit_and-zero (suc x) h = absurd (omega arith)

bit_and-ones : (w x : ℕ) → x < 2 ^ w → bit_and x (2 ^ w - 1) ≡ x
bit_and-ones zero x h = bit_and-zero x h
bit_and-ones (suc w) x h =
    let half : (2 ^ suc w - 1) / 2 ≡ 2 ^ w - 1 = omega (arith, double-pow w, pow-pos w) in
    let odd : (2 ^ suc w - 1) % 2 ≡ 1 = omega (arith, double-pow w, pow-pos w) in
    bit_and_step x (2 ^ suc w - 1)
    ∙ rw (half, odd, bit_and-ones w (x / 2) (omega (arith, double-pow w))) (omega arith)

-- Clearing the low k bits rounds down to a multiple of 2^k.
pub bit_and-mask : (w k x : ℕ) → k ≤ w → x < 2 ^ w → bit_and x (2 ^ w - 2 ^ k) ≡ x / 2 ^ k * 2 ^ k
bit_and-mask w zero x h lt = rw (bit_and-ones w x lt) (omega arith)
bit_and-mask zero (suc k) x h lt = absurd (omega arith)
bit_and-mask (suc w) (suc k) x h lt =
    let half : (2 ^ suc w - 2 ^ suc k) / 2 ≡ 2 ^ w - 2 ^ k =
      omega (arith, double-pow w, double-pow k) in
    let even : (2 ^ suc w - 2 ^ suc k) % 2 ≡ 0 = omega (arith, double-pow w, double-pow k) in
    bit_and_step x (2 ^ suc w - 2 ^ suc k)
    ∙ rw (half, even, bit_and-mask w k (x / 2) (omega arith) (omega (arith, double-pow w)))
        (rw (double-pow k, ← div-div-eq-div-mul x 2 (2 ^ k)) (omega arith))

-- `(x + 2^k - 1) & ~(2^k - 1)` rounds up to a multiple of 2^k.
pub bit_and-round_up :
    (w k x : ℕ)
    → k ≤ w
    → x + 2 ^ k ≤ 2 ^ w
    → bit_and ((x + 2 ^ k + 2 ^ w - 1) % 2 ^ w) (complement w (2 ^ k - 1))
      ≡ (x + 2 ^ k - 1) / 2 ^ k * 2 ^ k
bit_and-round_up w k x h fits =
    let wrap : (x + 2 ^ k + 2 ^ w - 1) % 2 ^ w ≡ x + 2 ^ k - 1 =
      grind (arith, pow-pos k, pow-pos w) in
    let mask : complement w (2 ^ k - 1) ≡ 2 ^ w - 2 ^ k =
      omega (arith, pow-pos k, pow-pos w, pow_mono k w h) in
    rw (wrap, mask) (bit_and-mask w k (x + 2 ^ k - 1) h (omega (arith, pow-pos k)))

pub round_up_bounds :
    (p x : ℕ) → 1 ≤ p → (x ≤ (x + p - 1) / p * p) × ((x + p - 1) / p * p ≤ x + p - 1)
round_up_bounds p x h = omega arith

-- Rounding up does not pass a multiple.
pub round_up_le : (p m x : ℕ) → 1 ≤ p → x ≤ m * p → (x + p - 1) / p * p ≤ m * p
round_up_le p m x h le = grind (arith, round_up_bounds p x h)
