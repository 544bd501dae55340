-- ===== src/Common/Text.antt =====
-- Text as the list of its bytes, and the printing of unsigned numbers by `%u`.
use Prim.Native.Nat.{ℕ, zero, suc, ◌+◌, ◌/◌, ◌%◌}
use Prim.Native.Char.{code}
use Prim.Native.String.{String}
use mathlib.Core.List.{List, [], ◌∷◌, ◌++◌}
use frag_find.Common.Tests.{ltb, if◌then◌else◌}

-- The bytes of an ASCII text.
abbrev pub codes : String → List ℕ
codes String.[] = []
codes (String.◌∷◌ c s) = code c ∷ codes s

-- Decimal digits, most significant first, with fuel for the number of digits.
unfoldable pub decimal : ℕ → ℕ → List ℕ
decimal zero n = []
decimal (suc fuel) n =
    let rest = decimal fuel (n / 10) in
    if ltb n 10 then (b'0' + n) ∷ [] else rest ++ (b'0' + n % 10) ∷ []

-- A 64-bit number has at most 20 digits.
unfoldable pub print_u64 : ℕ → List ℕ
unfolding decimal
print_u64 n = decimal 20 n
