-- ===== src/Prelude/Bits.antt =====
-- Exclusive or and low masks at variables, from the digit recursion that the native operations mean.
use Prim.Native.Nat.{digits, bitwise, differ, bit_xor-bitwise, bit_and-bitwise}
use Prim.Native.Nat.{ℕ, zero, suc, ◌+◌, ◌-◌, ◌*◌, ◌/◌, ◌%◌, ◌^◌, ◌≤◌, ◌<◌, min, bit_xor, bit_and}
use mathlib.Core.Path.{◌≡◌, refl, ap}
use mathlib.Core.Logic.{◌≢◌}
use native.Mathlib.Omega.{arith}
use native.Mathlib.Nat.{pow-suc, one-le-pow}

-- Any two fuels that cover the first number give the same digits.
module _ (tail : ℕ → ℕ) (digit : ℕ → ℕ → ℕ) where
  fuel_irrelevant :
      (n m a b : ℕ) → a ≤ n → a ≤ m → digits tail digit n a b ≡ digits tail digit m a b
  fuel_irrelevant zero zero zero b h k = refl
  fuel_irrelevant zero (suc m) zero b h k = refl
  fuel_irrelevant (suc n) zero zero b h k = refl
  fuel_irrelevant (suc n) (suc m) zero b h k = refl
  fuel_irrelevant zero m (suc a) b h k = absurd (omega arith)
  fuel_irrelevant (suc n) zero (suc a) b h k = absurd (omega arith)
  fuel_irrelevant (suc n) (suc m) (suc a) b h k =
      rw (fuel_irrelevant n m (suc a / 2) (b / 2) (omega arith) (omega arith))

  lowest_digit :
      (a b : ℕ)
      → bitwise tail digit (suc a) b
        ≡ bitwise tail digit (suc a / 2) (b / 2) * 2 + digit (suc a % 2) (b % 2)
  lowest_digit a b =
      rw (fuel_irrelevant a (suc a / 2) (suc a / 2) (b / 2) (omega arith) (omega arith))

xor_step : (a b : ℕ) → bit_xor a b ≡ bit_xor (a / 2) (b / 2) * 2 + differ (a % 2) (b % 2)
xor_step zero b = simp bit_xor-bitwise (omega arith)
xor_step (suc a) b = simp bit_xor-bitwise (lowest_digit (λ y. y) differ a b)

and_step : (a b : ℕ) → bit_and a b ≡ bit_and (a / 2) (b / 2) * 2 + min (a % 2) (b % 2)
and_step zero b = simp bit_and-bitwise (omega arith)
and_step (suc a) b = simp bit_and-bitwise (lowest_digit (λ y. 0) min a b)

differ_bits :
    (x y : ℕ)
    → x < 2
    → y < 2
    → (differ x y < 2) × (differ (differ x y) y ≡ x) × (differ (differ x y) x ≡ y)
differ_bits zero zero h k = omega arith
differ_bits zero (suc zero) h k = omega arith
differ_bits (suc zero) zero h k = omega arith
differ_bits (suc zero) (suc zero) h k = omega arith
differ_bits x (suc (suc y)) h k = absurd (omega arith)
differ_bits (suc (suc x)) y h k = absurd (omega arith)

-- The halves and the parity of an exclusive or.
xor_half : (a b : ℕ) → bit_xor a b / 2 ≡ bit_xor (a / 2) (b / 2)
xor_half a b =
    omega (arith, xor_step a b, (differ_bits (a % 2) (b % 2) (omega arith) (omega arith)).0)

xor_parity : (a b : ℕ) → bit_xor a b % 2 ≡ differ (a % 2) (b % 2)
xor_parity a b =
    omega (arith, xor_step a b, (differ_bits (a % 2) (b % 2) (omega arith) (omega arith)).0)

differ_one : (y : ℕ) → y < 2 → differ y 1 + y ≡ 1
differ_one zero h = omega arith
differ_one (suc zero) h = omega arith
differ_one (suc (suc y)) h = absurd (omega arith)

-- `x ^ 1` is another number.
pub xor_one-ne : (x : ℕ) → bit_xor x 1 ≢ x
xor_one-ne x e =
    omega (arith, xor_parity x 1, ap (λ (t : ℕ). t % 2) e, differ_one (x % 2) (omega arith))

pub xor-lt : (k a b : ℕ) → a < 2 ^ k → b < 2 ^ k → bit_xor a b < 2 ^ k
xor-lt zero zero zero h l = omega arith
xor-lt zero zero (suc b) h l = absurd (omega arith)
xor-lt zero (suc a) b h l = absurd (omega arith)
xor-lt (suc k) a b h l = omega (
  arith,
  xor_half a b,
  pow-suc 2 k,
  xor-lt k (a / 2) (b / 2) (omega (arith, pow-suc 2 k)) (omega (arith, pow-suc 2 k)),
)

xor_undo :
    (k a b : ℕ)
    → a < 2 ^ k
    → b < 2 ^ k
    → (bit_xor (bit_xor a b) b ≡ a) × (bit_xor (bit_xor a b) a ≡ b)
xor_undo zero zero zero h l = omega arith
xor_undo zero zero (suc b) h l = absurd (omega arith)
xor_undo zero (suc a) b h l = absurd (omega arith)
xor_undo (suc k) a b h l =
    let ih = xor_undo k (a / 2) (b / 2) (omega (arith, pow-suc 2 k)) (omega (arith, pow-suc 2 k)) in
    let low = differ_bits (a % 2) (b % 2) (omega arith) (omega arith) in
    (
      rw (xor_step (bit_xor a b) b, xor_half a b, xor_parity a b, ih.0, low.1) (omega arith),
      rw (xor_step (bit_xor a b) a, xor_half a b, xor_parity a b, ih.1, low.2) (omega arith),
    )

module _ (k a b : ℕ) (ha : a < 2 ^ k) (hb : b < 2 ^ k) where
  -- Either operand is recovered with the help of the other.
  pub xor_cancel : bit_xor (bit_xor a b) b ≡ a
  xor_cancel = (xor_undo k a b ha hb).0

  pub xor_cancel_left : bit_xor (bit_xor a b) a ≡ b
  xor_cancel_left = (xor_undo k a b ha hb).1

and-zero_below : (n a : ℕ) → a ≤ n → bit_and a 0 ≡ 0
and-zero_below n zero h = refl
and-zero_below zero (suc a) h = absurd (omega arith)
and-zero_below (suc n) (suc a) h =
    omega (arith, and_step (suc a) 0, and-zero_below n (suc a / 2) (omega arith))

-- A mask of `k` ones keeps a number of `k` bits.
pub and_mask_id : (k a : ℕ) → a < 2 ^ k → bit_and a (2 ^ k - 1) ≡ a
and_mask_id zero a h = omega (arith, and-zero_below a a (omega arith))
and_mask_id (suc k) a h = omega (
  arith,
  pow-suc 2 k,
  one-le-pow k 2 (omega arith),
  and_step a (2 ^ suc k - 1),
  ap (bit_and (a / 2)) half,
  and_mask_id k (a / 2) (omega (arith, pow-suc 2 k)),
)
  where
    half : (2 ^ suc k - 1) / 2 ≡ 2 ^ k - 1
    half = omega (arith, pow-suc 2 k, one-le-pow k 2 (omega arith))

-- A mask bounds what passes it.
pub and-le : (k a b : ℕ) → b < 2 ^ k → bit_and a b ≤ b
and-le zero a zero h = omega (arith, and-zero_below a a (omega arith))
and-le zero a (suc b) h = absurd (omega arith)
and-le (suc k) a b h =
    omega (arith, and_step a b, and-le k (a / 2) (b / 2) (omega (arith, pow-suc 2 k)))
