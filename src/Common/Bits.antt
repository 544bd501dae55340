-- ===== src/Common/Bits.antt =====
-- The bit operations of C on bytes and on words, as facts at every value.
use Prim.Native.Nat.{ℕ, zero, suc, ◌+◌, ◌*◌, ◌/◌, ◌%◌, ◌^◌, ◌≤◌, ◌<◌, max, bit_and, bit_or, digits}
use Prim.Native.Nat.{bit_or-bitwise}
use mathlib.Core.Path.{◌≡◌, refl}
use mathlib.Core.Bool.{Bool, true, false, not, ◌&&◌, ◌||◌}
use native.Mathlib.Omega.{arith}
use frag_find.Common.Tests.{◌==◌, ltb}

unfoldable pub all_below : ℕ → (ℕ → Bool) → Bool
all_below zero p = true
all_below (suc n) p = p n && all_below n p

-- What a table of the values below `n` says of one of them.
pub all_below_elim : (p : ℕ → Bool) (n : ℕ) → all_below n p ≡ true → (x : ℕ) → x < n → p x ≡ true
unfolding all_below
all_below_elim p zero table x below = absurd (omega arith)
all_below_elim p (suc n) table x below =
    let earlier : x < n → p x ≡ true = all_below_elim p n (ground arith) x in ground arith

-- `byte & (1 << j)`, as a test.
unfoldable pub test_bit : ℕ → ℕ → Bool
test_bit x j = not (bit_and x (2 ^ j) == 0)

abbrev same : Bool → Bool → Bool
same true b = b
same false b = not b

same_eq : (a b : Bool) → same a b ≡ true → a ≡ b
same_eq true b h = ground arith
same_eq false b h = ground arith

abbrev or_bit_holds : ℕ → ℕ → ℕ → Bool
or_bit_holds x i j = same (test_bit (bit_or x (2 ^ i)) j) (test_bit x j || i == j)

or_bit_table : all_below 256 (λ x. all_below 8 (λ i. all_below 8 (λ j. or_bit_holds x i j))) ≡ true
unfolding all_below test_bit
or_bit_table = refl

-- `x |= 1 << i` turns on the one bit.
pub test_bit-bit_or :
    (x i j : ℕ) → x < 256 → i < 8 → j < 8 → test_bit (bit_or x (2 ^ i)) j ≡ (test_bit x j || i == j)
test_bit-bit_or x i j hx hi hj =
    let bytes =
      all_below_elim (λ x. all_below 8 (λ i. all_below 8 (or_bit_holds x i))) 256 or_bit_table x
        hx in
    let ones = all_below_elim (λ i. all_below 8 (or_bit_holds x i)) 8 bytes i hi in
    same_eq (test_bit (bit_or x (2 ^ i)) j) (test_bit x j || i == j)
      (all_below_elim (or_bit_holds x i) 8 ones j hj)

or_byte_table : all_below 256 (λ x. all_below 8 (λ i. ltb (bit_or x (2 ^ i)) 256)) ≡ true
unfolding all_below
or_byte_table = refl

pub bit_or-lt_byte : (x i : ℕ) → x < 256 → i < 8 → bit_or x (2 ^ i) < 256
bit_or-lt_byte x i hx hi =
    let bytes =
      all_below_elim (λ x. all_below 8 (λ i. ltb (bit_or x (2 ^ i)) 256)) 256 or_byte_table x hx in
    ground (arith, all_below_elim (λ i. ltb (bit_or x (2 ^ i)) 256) 8 bytes i hi)

pow_byte_table : all_below 8 (λ i. ltb (2 ^ i) 256) ≡ true
unfolding all_below
pow_byte_table = refl

pub pow-lt_byte : (i : ℕ) → i < 8 → 2 ^ i < 256
pow-lt_byte i h = ground (arith, all_below_elim (λ i. ltb (2 ^ i) 256) 8 pow_byte_table i h)

test_bit-zero_table : all_below 8 (λ j. not (test_bit 0 j)) ≡ true
unfolding all_below test_bit
test_bit-zero_table = refl

pub test_bit-zero : (j : ℕ) → j < 8 → test_bit 0 j ≡ false
test_bit-zero j h =
    ground (arith, all_below_elim (λ j. not (test_bit 0 j)) 8 test_bit-zero_table j h)

-- One digit of the native `bit_or`, without the fuel of its definition.
or_digits_fuel :
    (n m a b : ℕ) → a ≤ n → a ≤ m → digits (λ y. y) max n a b ≡ digits (λ y. y) max m a b
or_digits_fuel zero zero a b p q = refl
or_digits_fuel zero (suc m) zero b p q = refl
or_digits_fuel zero (suc m) (suc a) b p q = absurd (omega arith)
or_digits_fuel (suc n) zero zero b p q = refl
or_digits_fuel (suc n) zero (suc a) b p q = absurd (omega arith)
or_digits_fuel (suc n) (suc m) zero b p q = refl
or_digits_fuel (suc n) (suc m) (suc a) b p q =
    omega (arith, or_digits_fuel n m (suc a / 2) (b / 2) (omega arith) (omega arith))

zero-bit_or : (b : ℕ) → bit_or 0 b ≡ b
zero-bit_or b = bit_or-bitwise 0 b

bit_or_digit : (a b : ℕ) → bit_or a b ≡ max (a % 2) (b % 2) + 2 * bit_or (a / 2) (b / 2)
bit_or_digit zero b = omega (arith, zero-bit_or b, zero-bit_or (b / 2))
bit_or_digit (suc a) b = omega (
  arith,
  bit_or-bitwise (suc a) b,
  bit_or-bitwise (suc a / 2) (b / 2),
  or_digits_fuel a (suc a / 2) (suc a / 2) (b / 2) (omega arith) (omega arith),
)

bit_or-zero_below : (n a : ℕ) → a ≤ n → bit_or a 0 ≡ a
bit_or-zero_below n zero h = refl
bit_or-zero_below zero (suc a) h = absurd (omega arith)
bit_or-zero_below (suc n) (suc a) h =
    omega (arith, bit_or_digit (suc a) 0, bit_or-zero_below n (suc a / 2) (omega arith))

pub bit_or-zero : (a : ℕ) → bit_or a 0 ≡ a
bit_or-zero a = bit_or-zero_below a a (omega arith)

-- `(v << 1) | b` is a sum when `b` is one bit.
pub bit_or_low : (w b : ℕ) → b < 2 → bit_or (w * 2) b ≡ w * 2 + b
bit_or_low w b h = omega (arith, bit_or_digit (w * 2) b, bit_or-zero w, ap2 h)
  where
    ap2 : b < 2 → bit_or (w * 2 / 2) (b / 2) ≡ bit_or w 0
    ap2 p = let e : w * 2 / 2 ≡ w = omega arith in let f : b / 2 ≡ 0 = omega arith in rw (e, f)
