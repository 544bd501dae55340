-- ===== src/Bloom/Usage.antt =====
-- How full a filter is: `nsrl_calc_histogram`, `nsrl_print_histogram` and `nsrl_bloom_utilization` of
-- bloom.c, up to the division of the two numbers.
pub mod Counts
use frag_find.Common.{
  ℕ, zero, suc, ◌+◌, ◌-◌, ◌*◌, ◌/◌, ◌%◌, ◌^◌, Bool, List, [], ◌∷◌, Option, none, some, Run, done,
  fault, overflow, null_pointer, ◌>>=◌, length, get_or, set, replicate, ltb, ◌==◌, if◌then◌else◌,
}
use frag_find.Bloom.Types.{Bloom, deref}

-- The bits of a byte from the bit `8 - left` on that are set: `i & mask`.
unfoldable pub bits_of : ℕ → ℕ → ℕ
bits_of zero i = 0
bits_of (suc left) i = let rest = bits_of left (i / 2) in if i % 2 == 0 then rest else rest + 1

-- `bits_per[i]`
unfoldable pub bits_per : ℕ → ℕ
unfolding bits_of
bits_per i = bits_of 8 i

unfoldable pub count_bytes : List ℕ → List ℕ → List ℕ
count_bytes [] counts = counts
count_bytes (v ∷ vector) counts =
    count_bytes vector (if v == 0 then counts else set counts v ((get_or counts v 0 + 1) % 2 ^ 64))

unfoldable pub nsrl_calc_histogram : Bloom → Run (List ℕ)
unfolding count_bytes
nsrl_calc_histogram b = deref b.vector >>= λ vector. done (count_bytes vector (replicate 256 0))

-- `c` for each bit of a byte that is set.
unfoldable pub add_counts : ℕ → ℕ → ℕ → ℕ
add_counts zero i c = 0
add_counts (suc left) i c =
    let rest = add_counts left (i / 2) c in if i % 2 == 0 then rest else c + rest

-- The loop over the counts from the byte `i` on.
unfoldable pub bits_from : ℕ → List ℕ → ℕ
unfolding add_counts
bits_from i [] = 0
bits_from i (c ∷ counts) =
    let rest = bits_from (i + 1) counts in if ltb 0 c then add_counts 8 i c + rest else rest

-- `bitcount` of `nsrl_print_histogram`; the count of zero bytes is passed over.
unfoldable pub bitcount : List ℕ → ℕ
unfolding bits_from
bitcount [] = 0
bitcount (_ ∷ counts) = bits_from 1 counts % 2 ^ 64

unfoldable pub count_bits : List ℕ → ℕ
count_bits [] = 0
count_bits (v ∷ vector) = let rest = count_bits vector in if v == 0 then rest else bits_per v + rest

-- The bits set and the bits there are, of which the C function gives the fraction. Its `int i` runs to
-- the number of bytes.
unfoldable pub nsrl_bloom_utilization : Bloom → Run (ℕ × ℕ)
unfolding count_bits
nsrl_bloom_utilization b =
    if ltb b.vector_bytes (2 ^ 31)
    then (deref b.vector >>= λ vector. done (count_bits vector, b.vector_bytes * 8))
    else fault overflow
