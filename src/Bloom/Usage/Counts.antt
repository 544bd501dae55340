-- ===== src/Bloom/Usage/Counts.antt =====
-- The histogram and the utilization count the same bits.
use frag_find.Common.{
  ℕ, zero, suc, ◌+◌, ◌*◌, ◌/◌, ◌%◌, ◌^◌, ◌≤◌, ◌<◌, ◌≡◌, refl, ◌∙◌, ap, true, List, [], ◌∷◌, done,
  ◌>>=◌, length, length-set, length-replicate, get_or, get_or-set_self, get_or-set_ne,
  get_or-replicate, set, replicate, ltb, ◌==◌, Bool-cases, inl, inr, All, arith,
}
use frag_find.Bloom.Types.{Bloom}
use frag_find.Bloom.Filter.Laws.{IsValid}
use frag_find.Bloom.Usage.{
  bits_of, bits_per, add_counts, count_bytes, nsrl_calc_histogram, bits_from, bitcount, count_bits,
  nsrl_bloom_utilization,
}

bits_of-bound : (left i : ℕ) → bits_of left i ≤ left
unfolding bits_of
bits_of-bound zero i = omega arith
bits_of-bound (suc left) i = ground (arith, bits_of-bound left (i / 2))

add_counts-suc : (left i c : ℕ) → add_counts left i (c + 1) ≡ bits_of left i + add_counts left i c
unfolding add_counts bits_of
add_counts-suc zero i c = refl
add_counts-suc (suc left) i c = ground (arith, add_counts-suc left (i / 2) c)

add_counts-zero : (left i : ℕ) → add_counts left i 0 ≡ 0
unfolding add_counts
add_counts-zero zero i = refl
add_counts-zero (suc left) i = ground (arith, add_counts-zero left (i / 2))

-- The test of a count before it is added makes no difference.
bits_from-cons :
    (i c : ℕ) (counts : List ℕ)
    → bits_from i (c ∷ counts) ≡ add_counts 8 i c + bits_from (i + 1) counts
unfolding bits_from
bits_from-cons i zero counts = omega (arith, add_counts-zero 8 i)
bits_from-cons i (suc c) counts = ground arith

bits_from-set :
    (i j : ℕ) (counts : List ℕ)
    → j < length counts
    → bits_from i (set counts j (get_or counts j 0 + 1)) ≡ bits_per (i + j) + bits_from i counts
unfolding bits_per
bits_from-set i j [] h = absurd (omega arith)
bits_from-set i zero (c ∷ counts) h =
    let z : i + 0 ≡ i = omega arith in
    rw (bits_from-cons i (c + 1) counts, bits_from-cons i c counts, z, add_counts-suc 8 i c)
      (omega arith)
bits_from-set i (suc j) (c ∷ counts) h =
    let z : i + 1 + j ≡ i + suc j = omega arith in
    omega (
      arith,
      bits_from-cons i c (set counts j (get_or counts j 0 + 1)),
      bits_from-cons i c counts,
      rw z at (bits_from-set (i + 1) j counts (omega arith)),
    )

bits_from-replicate : (i n : ℕ) → bits_from i (replicate n 0) ≡ 0
bits_from-replicate i zero = unfold bits_from in refl
bits_from-replicate i (suc n) =
    omega (
      arith,
      bits_from-cons i 0 (replicate n 0),
      add_counts-zero 8 i,
      bits_from-replicate (i + 1) n,
    )

-- Every count is at most `n`.
abbrev AtMost : ℕ → List ℕ → Type 0
AtMost n counts = (j : ℕ) → get_or counts j 0 ≤ n

AtMost-set :
    (n v : ℕ) (counts : List ℕ)
    → v < length counts
    → AtMost n counts
    → AtMost (n + 1) (set counts v (get_or counts v 0 + 1))
AtMost-set n v counts h most j = elim (Bool-cases (v == j)) [
  | inl e ↦
      let same : v ≡ j = ground arith in
      rw (← same, get_or-set_self counts v (get_or counts v 0 + 1) 0 h) (omega (arith, most v))
  | inr e ↦
      rw (get_or-set_ne counts v j (get_or counts v 0 + 1) 0 (λ q. ground arith))
        (omega (arith, most j))
]

count_bytes-bits :
    (vector counts : List ℕ) (n : ℕ)
    → length counts ≡ 256
    → All (λ v. v < 256) vector
    → AtMost n counts
    → n + length vector < 2 ^ 64
    → (bits_from 0 (count_bytes vector counts) ≡ count_bits vector + bits_from 0 counts)
      × (length (count_bytes vector counts) ≡ 256)
unfolding count_bytes count_bits
count_bytes-bits [] counts n size bytes most room = (omega arith, size)
count_bytes-bits (v ∷ vector) counts n size bytes most room = elim (Bool-cases (v == 0)) [
  | inl e ↦ rw e (count_bytes-bits vector counts n size bytes.1 most (omega arith))
  | inr e ↦
      let small : (get_or counts v 0 + 1) % 2 ^ 64 ≡ get_or counts v 0 + 1 =
        omega (arith, most v) in
      let inside : v < length counts = omega (arith, bytes.0) in
      let next : List ℕ = set counts v (get_or counts v 0 + 1) in
      let (same, full) =
        count_bytes-bits vector next (n + 1) (length-set counts v _ ∙ size) bytes.1
          (AtMost-set n v counts inside most) (omega arith) in
      let z : 0 + v ≡ v = omega arith in
      let step : bits_from 0 next ≡ bits_per v + bits_from 0 counts =
        rw z at (bits_from-set 0 v counts inside) in
      rw (e, small) (omega (arith, same, step), full)
]

count_bits-bound : (vector : List ℕ) → count_bits vector ≤ 8 * length vector
unfolding count_bits bits_per
count_bits-bound [] = omega arith
count_bits-bound (v ∷ vector) = ground (arith, count_bits-bound vector, bits_of-bound 8 v)

add_counts-byte : (left c : ℕ) → add_counts left 0 c ≡ 0
unfolding add_counts
add_counts-byte zero c = refl
add_counts-byte (suc left) c =
    let z : 0 / 2 ≡ 0 = omega arith in ground (arith, add_counts-byte left c)

bitcount-bits_from : (counts : List ℕ) → bitcount counts ≡ bits_from 0 counts % 2 ^ 64
unfolding bitcount
bitcount-bits_from [] = unfold bits_from in omega arith
bitcount-bits_from (z ∷ counts) =
    ap (λ (n : ℕ). n % 2 ^ 64) (omega (arith, bits_from-cons 0 z counts, add_counts-byte 8 z))

-- For a valid filter whose vector is shorter than 2^31 bytes, the number of set bits that the
-- histogram of its bytes gives is the number that the utilization counts.
pub nsrl_calc_histogram-nsrl_bloom_utilization :
    (b : Bloom)
    → IsValid b
    → b.vector_bytes < 2 ^ 31
    → (nsrl_calc_histogram b >>= λ counts. done (bitcount counts))
      ≡ (nsrl_bloom_utilization b >>= λ used. done used.0)
unfolding nsrl_calc_histogram nsrl_bloom_utilization
nsrl_calc_histogram-nsrl_bloom_utilization b valid small =
    let (same, full) =
      count_bytes-bits valid.bits (replicate 256 0) 0 (length-replicate {A = ℕ} 256 0) valid.bytes
        (λ j. rw (get_or-replicate {A = ℕ} 256 j 0) (omega arith)) (omega (arith, valid.sized)) in
    let few : ltb b.vector_bytes (2 ^ 31) ≡ true = ground arith in
    rw (few, valid.held)
      (ap (λ (n : ℕ). done n)
        (bitcount-bits_from (count_bytes valid.bits (replicate 256 0))
          ∙ omega
              (arith, same, bits_from-replicate 0 256, count_bits-bound valid.bits, valid.sized)))
