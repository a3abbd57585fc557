-- ===== src/Extras/LinearAllocator/Rounding.antt =====
-- `align_up` on words of `suc v` bits: no wrap below half of the address space.
use native.Mathlib.Nat.{mul-mod_left, div-eq_of_lt, add-mul-mod_self_right, mod-eq_of_lt}
use native.Mathlib.Decide.{dec_lt}
use voxen.Prelude.{ℕ, zero, suc, ◌+◌, ◌-◌, ◌*◌, ◌/◌, ◌%◌, ◌^◌, ◌<◌, ◌≤◌, ◌≡◌, arith, ◌∙◌, ap}
use voxen.Prelude.BitAnd.{
  double-pow, complement, bit_and-mask, pow-pos, pow_mono, bit_and-round_up, round_up_bounds,
  round_up_le,
}
use voxen.Extras.LinearAllocator.{align_up}

pow-zero : (k : ℕ) → k ≤ 0 → 1 ≡ 1 * 2 ^ k
pow-zero zero h = omega arith
pow-zero (suc k) h = absurd (omega arith)

pow-multiple : (k v : ℕ) → k ≤ v → (m : ℕ) × (2 ^ v ≡ m * 2 ^ k)
pow-multiple k zero h = (1, pow-zero k h)
pow-multiple k (suc v) h = elim (dec_lt v k) [
  | yes p ↦ (1, let e : k ≡ suc v = omega arith in rw e (omega arith))
  | no p ↦ let (m, e) = pow-multiple k v (omega arith) in (2 * m, omega (arith, double-pow v, e))
]

-- `y` is the least multiple of `p` from `x` on.
pub record IsRounded (x p y : ℕ) : Type 0 where
  pub not_less : x ≤ y
  pub close : y < x + p
  pub aligned : y % p ≡ 0

pub align_up-IsRounded :
    (w k x : ℕ) → k ≤ w → x + 2 ^ k ≤ 2 ^ w → IsRounded x (2 ^ k) (align_up w x (2 ^ k))
unfolding align_up
align_up-IsRounded w k x h fits = rw (bit_and-round_up w k x h fits) (record {
  not_less = (round_up_bounds (2 ^ k) x (pow-pos k)).0;
  close = omega (arith, round_up_bounds (2 ^ k) x (pow-pos k), pow-pos k);
  aligned = mul-mod_left ((x + 2 ^ k - 1) / 2 ^ k) (2 ^ k);
})

-- Up to half of the address space, rounding stays there.
pub align_up-le-half : (v k x : ℕ) → k ≤ v → x ≤ 2 ^ v → align_up (suc v) x (2 ^ k) ≤ 2 ^ v
unfolding align_up
align_up-le-half v k x h fits =
    let (m, e) = pow-multiple k v h in
    let below : x ≤ m * 2 ^ k = omega (arith, e) in
    rw (bit_and-round_up (suc v) k x (omega arith) (omega (arith, double-pow v, pow_mono k v h)))
      (omega (arith, e, round_up_le (2 ^ k) m x (pow-pos k) below))

-- A value within one multiple of the end of the address space wraps round to 0.
pub align_up_wraps : (w k x : ℕ) → k ≤ w → x < 2 ^ w → 2 ^ w < x + 2 ^ k → align_up w x (2 ^ k) ≡ 0
unfolding align_up
align_up_wraps w k x h lt over =
    let sum : x + 2 ^ k + 2 ^ w - 1 ≡ (x + 2 ^ k - 1 - 2 ^ w) + 2 * 2 ^ w = omega arith in
    let wrap : (x + 2 ^ k + 2 ^ w - 1) % 2 ^ w ≡ x + 2 ^ k - 1 - 2 ^ w =
      ap (λ m. m % 2 ^ w) sum
      ∙ add-mul-mod_self_right (x + 2 ^ k - 1 - 2 ^ w) 2 (2 ^ w)
      ∙ mod-eq_of_lt (omega (arith, pow_mono k w h)) in
    let mask : complement w (2 ^ k - 1) ≡ 2 ^ w - 2 ^ k =
      omega (arith, pow-pos k, pow-pos w, pow_mono k w h) in
    rw
      (
        wrap,
        mask,
        bit_and-mask w k (x + 2 ^ k - 1 - 2 ^ w) h (omega (arith, pow_mono k w h)),
        div-eq_of_lt {n = x + 2 ^ k - 1 - 2 ^ w} {m = 2 ^ k} (omega arith),
      )
      (omega arith)

pub align_up-zero : (w k : ℕ) → k ≤ w → align_up w 0 (2 ^ k) ≡ 0
align_up-zero w k h =
    let up = align_up-IsRounded w k 0 h (omega (arith, pow_mono k w h)) in
    omega (
      arith,
      up.aligned,
      mod-eq_of_lt {n = align_up w 0 (2 ^ k)} {m = 2 ^ k} (omega (arith, up.close)),
    )
