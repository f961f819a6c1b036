-- ===== src/Prelude/Decimal.antt =====
-- Decimal numbers read back what was printed.
use hybrid_ftp_system.Prelude.Text.{
  is_digit, digits_within, decimal, read_digits, to_nat, run_of, is_empty, is_space, lstrip, rstrip,
  strip, map_int, signed, to_int,
}
use hybrid_ftp_system.Prelude.Int.{pos}
use Prim.Native.Nat.{ℕ, zero, suc, ◌+◌, ◌-◌, ◌*◌, ◌/◌, ◌%◌, ◌<◌}
use mathlib.Core.Path.{◌≡◌, refl, sym, ap, ◌∙◌}
use mathlib.Core.Logic.{inl, inr}
use mathlib.Core.Bool.{Bool, true, false}
use mathlib.Core.List.{[], ◌∷◌, ◌++◌}
use mathlib.Core.Option.{Option, some}
use native.Mathlib.Omega.{arith}
use hybrid_ftp_system.Prelude.Tests.{◌==◌, Bool-cases}
use hybrid_ftp_system.Prelude.Lists.{Bytes, All}

abbrev pub IsDigits : Bytes → Type 0
IsDigits = All (λ c. is_digit c ≡ true)

-- What is read when `n` was read before.
abbrev read_on : ℕ → Bytes → Option ℕ
read_on n [] = some n
read_on n (c ∷ cs) = read_digits n (c ∷ cs)

digit_of : (d : ℕ) → d < 10 → is_digit (b'0' + d) ≡ true
unfolding is_digit
digit_of d h = ground arith

read_digit :
    (n d : ℕ) (out : Bytes)
    → d < 10
    → IsDigits out
    → read_digits n ((b'0' + d) ∷ out) ≡ read_on (n * 10 + d) out
unfolding read_digits
read_digit n d [] h k = ground (arith, digit_of d h)
read_digit n d (c ∷ cs) h (e, k) =
    let plain : (c == b'_') ≡ false = unfold is_digit in ground (arith, e) in
    let back : b'0' + d - b'0' ≡ d = omega arith in
    rw (digit_of d h, plain, read_digits) (ap (λ m. read_digits (n * 10 + m) (c ∷ cs)) back)

IsDigits-step :
    (fuel n : ℕ) (out : Bytes)
    → n < fuel
    → IsDigits out
    → (read_digits 0 (digits_within fuel n out) ≡ read_on n out)
      × IsDigits (digits_within fuel n out)
unfolding digits_within
IsDigits-step zero n out h k = absurd (omega (arith, h))
IsDigits-step (suc fuel) n out h k = elim (Bool-cases (n / 10 == 0)) [
  | inl small ↦
      let whole : 0 * 10 + n % 10 ≡ n = ground (arith, small) in
      rw (small, digits_within)
        (
          read_digit 0 (n % 10) out (omega arith) k ∙ ap (λ m. read_on m out) whole,
          (digit_of (n % 10) (omega arith), k),
        )
  | inr large ↦
      let below : n / 10 < fuel = ground (arith, large, h) in
      let (read, digits) =
        IsDigits-step fuel (n / 10) ((b'0' + n % 10) ∷ out) below
          (digit_of (n % 10) (omega arith), k) in
      let whole : n / 10 * 10 + n % 10 ≡ n = omega arith in
      rw (large, digits_within)
        (
          read ∙ read_digit (n / 10) (n % 10) out (omega arith) k ∙ ap (λ m. read_on m out) whole,
          digits,
        )
]

pub decimal-IsDigits : (n : ℕ) → IsDigits (decimal n)
unfolding decimal
decimal-IsDigits n = (IsDigits-step (suc n) n [] (omega arith) tt).1

-- What `int` reads of the digits of a number.
pub to_nat-decimal : (n : ℕ) → to_nat (decimal n) ≡ some n
unfolding to_nat decimal
to_nat-decimal n = (IsDigits-step (suc n) n [] (omega arith) tt).0

-- The run that ends at the first other character.
pub run_of-append :
    (test : ℕ → Bool) (ds : Bytes) (c : ℕ) (rest : Bytes)
    → All (λ d. test d ≡ true) ds
    → test c ≡ false
    → run_of test (ds ++ c ∷ rest) ≡ (ds, c ∷ rest)
unfolding run_of
run_of-append test [] c rest k h = rw h refl
run_of-append test (d ∷ ds) c rest (e, k) h = rw (e, run_of-append test ds c rest k h) refl

-- Characters of which none is white space.
abbrev pub IsWord : Bytes → Type 0
IsWord = All (λ c. is_space c ≡ false)

digits-IsWord : (ds : Bytes) → IsDigits ds → IsWord ds
unfolding is_space is_digit
digits-IsWord [] k = tt
digits-IsWord (d ∷ ds) (h, k) = (ground (arith, h), digits-IsWord ds k)

pub decimal-IsWord : (n : ℕ) → IsWord (decimal n)
decimal-IsWord n = digits-IsWord (decimal n) (decimal-IsDigits n)

pub rstrip-IsWord : (w : Bytes) → IsWord w → rstrip w ≡ w
unfolding rstrip
rstrip-IsWord [] k = refl
rstrip-IsWord (c ∷ cs) (h, k) = rw (h, rstrip-IsWord cs k) refl

lstrip-IsWord : (w : Bytes) → IsWord w → lstrip w ≡ w
unfolding lstrip
lstrip-IsWord [] k = refl
lstrip-IsWord (c ∷ cs) (h, k) = rw h refl

pub strip-IsWord : (w : Bytes) → IsWord w → strip w ≡ w
unfolding strip
strip-IsWord w k = rw (lstrip-IsWord w k) (rstrip-IsWord w k)

signed-digits : (ds : Bytes) → IsDigits ds → signed ds ≡ map_int pos (to_nat ds)
unfolding is_digit to_nat read_digits
signed-digits [] k = refl
signed-digits (d ∷ ds) (h, k) =
    let no_minus : (d == b'-') ≡ false = ground (arith, h) in
    let no_plus : (d == b'+') ≡ false = ground (arith, h) in rw (no_minus, no_plus) refl

-- `int(str(n))`
pub to_int-decimal : (n : ℕ) → to_int (decimal n) ≡ some (pos n)
unfolding to_int
to_int-decimal n =
    ap signed (strip-IsWord (decimal n) (decimal-IsWord n))
    ∙ signed-digits (decimal n) (decimal-IsDigits n)
    ∙ ap (map_int pos) (to_nat-decimal n)

pub is_empty-decimal : (n : ℕ) → is_empty (decimal n) ≡ false
unfolding to_nat read_digits
is_empty-decimal n = from (decimal n) refl
  where
    from : (ds : Bytes) → decimal n ≡ ds → is_empty ds ≡ false
    from [] e = cc (sym (ap to_nat e) ∙ to_nat-decimal n)
    from (d ∷ ds) e = refl
