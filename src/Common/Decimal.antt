-- ===== src/Common/Decimal.antt =====
-- `atoi`, and that it reads what `%u` prints.
use native.Mathlib.Nat.{pow-suc}
use Prim.Native.Nat.{ℕ, zero, suc, ◌+◌, ◌-◌, ◌*◌, ◌/◌, ◌%◌, ◌^◌, ◌≤◌, ◌<◌, min}
use mathlib.Core.Path.{◌≡◌, ◌∙◌}
use mathlib.Core.Bool.{Bool, ◌&&◌, ◌||◌}
use mathlib.Core.List.{List, [], ◌∷◌, ◌++◌}
use mathlib.Core.Logic.{inl, inr}
use native.Mathlib.Omega.{arith}
use frag_find.Common.Tests.{ltb, leb, ◌==◌, if◌then◌else◌, Bool-cases}
use frag_find.Common.Lists.{All, All-append, length}
use frag_find.Common.Text.{decimal, print_u64}

unfoldable pub is_digit : ℕ → Bool
is_digit c = leb b'0' c && leb c b'9'

-- The number that the digits at the start of a text spell, after `n`.
unfoldable pub scan_digits : ℕ → List ℕ → ℕ
unfolding is_digit
scan_digits n [] = n
scan_digits n (c ∷ s) = if is_digit c then scan_digits (n * 10 + (c - b'0')) s else n

unfoldable pub skip_blanks : List ℕ → List ℕ
skip_blanks [] = []
skip_blanks (c ∷ s) = if c == 32 || (leb 9 c && leb c 13) then skip_blanks s else c ∷ s

-- The value of `strtol`, cut to 64 bits as it does and then to an `int`, as the pattern of its bits.
unfoldable pub atoi_signed : List ℕ → ℕ
unfolding scan_digits
atoi_signed [] = 0
atoi_signed (c ∷ s) =
    if c == b'-'
    then (2 ^ 32 - min (scan_digits 0 s) (2 ^ 63) % 2 ^ 32) % 2 ^ 32
    else min (if c == b'+' then scan_digits 0 s else scan_digits 0 (c ∷ s)) (2 ^ 63 - 1) % 2 ^ 32

unfoldable pub atoi : List ℕ → ℕ
unfolding skip_blanks atoi_signed
atoi s = atoi_signed (skip_blanks s)

abbrev pub IsDigit : ℕ → Type 0
IsDigit c = (b'0' ≤ c) × (c ≤ b'9')

scan_digits-snoc :
    (s : List ℕ) (n d : ℕ)
    → All IsDigit s
    → IsDigit d
    → scan_digits n (s ++ d ∷ []) ≡ scan_digits n s * 10 + (d - b'0')
unfolding scan_digits
scan_digits-snoc [] n d h p = ground arith
scan_digits-snoc (c ∷ s) n d h p = ground (arith, scan_digits-snoc s (n * 10 + (c - b'0')) d)

pub decimal-IsDigit : (fuel n : ℕ) → All IsDigit (decimal fuel n)
unfolding decimal
decimal-IsDigit zero n = tt
decimal-IsDigit (suc fuel) n = elim (Bool-cases (ltb n 10)) [
  | inl e ↦ rw e (ground arith)
  | inr e ↦ rw e (
      All-append IsDigit (decimal fuel (n / 10)) ((b'0' + n % 10) ∷ [])
        (decimal-IsDigit fuel (n / 10)) (omega arith))
]

scan_digits-decimal : (fuel n : ℕ) → n < 10 ^ fuel → scan_digits 0 (decimal fuel n) ≡ n
unfolding decimal
scan_digits-decimal zero n h = unfold scan_digits in omega arith
scan_digits-decimal (suc fuel) n h = elim (Bool-cases (ltb n 10)) [
  | inl e ↦ rw e (unfold scan_digits in ground arith)
  | inr e ↦ rw e (
      scan_digits-snoc (decimal fuel (n / 10)) 0 (b'0' + n % 10) (decimal-IsDigit fuel (n / 10))
        (omega arith)
      ∙ omega (arith, scan_digits-decimal fuel (n / 10) (omega (arith, pow-suc 10 fuel))))
]

decimal-pos : (fuel n : ℕ) → 0 < length (decimal (suc fuel) n)
unfolding decimal
decimal-pos fuel n = elim (Bool-cases (ltb n 10)) [
  | inl e ↦ rw e (omega arith)
  | inr e ↦ rw e (length-pos (decimal fuel (n / 10)))
]
  where
    length-pos : (xs : List ℕ) → 0 < length (xs ++ (b'0' + n % 10) ∷ [])
    length-pos [] = omega arith
    length-pos (x ∷ xs) = omega arith

atoi-digits :
    (s : List ℕ)
    → 0 < length s
    → All IsDigit s
    → atoi s ≡ min (scan_digits 0 s) (2 ^ 63 - 1) % 2 ^ 32
unfolding atoi scan_digits
atoi-digits [] pos h = absurd (omega arith)
atoi-digits (c ∷ s) pos h = ground arith

-- A number below 2^32 is read back from its print.
pub atoi-print_u64 : (n : ℕ) → n < 2 ^ 32 → atoi (print_u64 n) ≡ n
unfolding print_u64
atoi-print_u64 n h =
    atoi-digits (decimal 20 n) (decimal-pos 19 n) (decimal-IsDigit 20 n)
    ∙ omega (arith, scan_digits-decimal 20 n (omega arith))

-- The digits of a 64-bit number spell it.
pub scan_digits-print_u64 : (n : ℕ) → n < 2 ^ 64 → scan_digits 0 (print_u64 n) ≡ n
unfolding print_u64
scan_digits-print_u64 n h = scan_digits-decimal 20 n (omega arith)
