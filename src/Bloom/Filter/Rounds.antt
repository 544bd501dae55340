-- ===== src/Bloom/Filter/Rounds.antt =====
-- The rounds of `nsrl_bloom_add` and `nsrl_bloom_query` run without a fault and act on the vector
-- as a set of bits.
use frag_find.Common.{
  ℕ, zero, suc, ◌+◌, ◌*◌, ◌/◌, ◌%◌, ◌^◌, ◌≤◌, ◌<◌, ◌≡◌, refl, ◌∙◌, Bool, true, false, ◌&&◌, ◌||◌,
  List, some, done, length, length-set, ◌==◌, if◌then◌else◌, arith, All, All-set, All-get_or,
  Bool-cases, inl, inr, bit_or, ◌↔◌, get_or,
}
use frag_find.Common.Bits.{bit_or-lt_byte}
use frag_find.Bloom.Types.{Bloom}
use frag_find.Bloom.Filter.{collect, add_round, add_rounds, query_rounds}
use frag_find.Bloom.Filter.Bits.{
  blob_bit, index, collect-index_from, index-lt, get_bloom_bit-blob_bit, turn_on,
  set_bloom_bit-turn_on, blob_bit-turn_on, IsByte,
}

-- Is `v` one of the indices of the hash, from the ith on?
unfoldable pub any_index : List ℕ → ℕ → ℕ → ℕ → ℕ → Bool
any_index hash m zero i v = false
any_index hash m (suc left) i v = index hash m i == v || any_index hash m left (i + 1) v

-- Are all of the hash's bits set, from the ith index on?
unfoldable pub all_set : List ℕ → List ℕ → ℕ → ℕ → ℕ → Bool
all_set vector hash m zero i = true
all_set vector hash m (suc left) i =
    blob_bit vector (index hash m i) && all_set vector hash m left (i + 1)

step : List ℕ → ℕ → List ℕ
step vector v = if blob_bit vector v then vector else turn_on vector v

-- The vector with the hash's bits set, from the ith index on.
pub fill : List ℕ → List ℕ → ℕ → ℕ → ℕ → List ℕ
unfolding step
fill vector hash m zero i = vector
fill vector hash m (suc left) i = fill (step vector (index hash m i)) hash m left (i + 1)

-- How many of those bits were not set before their round.
pub fresh : List ℕ → List ℕ → ℕ → ℕ → ℕ → ℕ
unfolding step
fresh vector hash m zero i = 0
fresh vector hash m (suc left) i =
    (if blob_bit vector (index hash m i) then 0 else 1)
    + fresh (step vector (index hash m i)) hash m left (i + 1)

length-step : (vector : List ℕ) (v : ℕ) → length (step vector v) ≡ length vector
unfolding step turn_on
length-step vector v =
    ground (arith, length-set vector (v / 8) (bit_or (get_or vector (v / 8) 0) (2 ^ (v % 8))))

IsByte-step : (vector : List ℕ) (v : ℕ) → All IsByte vector → All IsByte (step vector v)
unfolding step turn_on
IsByte-step vector v h = elim (Bool-cases (blob_bit vector v)) [
  | inl e ↦ rw e h
  | inr e ↦ rw e (
      All-set IsByte vector (v / 8) _ h (
        bit_or-lt_byte (get_or vector (v / 8) 0) (v % 8)
          (All-get_or IsByte vector (v / 8) 0 h (omega arith)) (omega arith)))
]

blob_bit-step :
    (vector : List ℕ) (v w : ℕ)
    → All IsByte vector
    → v < 8 * length vector
    → blob_bit (step vector v) w ≡ (blob_bit vector w || v == w)
unfolding step
blob_bit-step vector v w bytes h = elim (Bool-cases (blob_bit vector v)) [
  | inl e ↦ rw e (elim (Bool-cases (v == w)) [
    | inl s ↦ let same : v ≡ w = ground arith in rw (← same) (ground arith)
    | inr s ↦ rw s (ground arith)
  ])
  | inr e ↦ rw e (blob_bit-turn_on vector v w bytes h)
]

pub length-fill :
    (vector hash : List ℕ) (m left i : ℕ) → length (fill vector hash m left i) ≡ length vector
unfolding fill
length-fill vector hash m zero i = refl
length-fill vector hash m (suc left) i =
    length-fill (step vector (index hash m i)) hash m left (i + 1)
    ∙ length-step vector (index hash m i)

pub IsByte-fill :
    (vector hash : List ℕ) (m left i : ℕ)
    → All IsByte vector
    → All IsByte (fill vector hash m left i)
unfolding fill
IsByte-fill vector hash m zero i h = h
IsByte-fill vector hash m (suc left) i h =
    IsByte-fill (step vector (index hash m i)) hash m left (i + 1)
      (IsByte-step vector (index hash m i) h)

-- Exactly the hash's bits are added to the set.
pub blob_bit-fill :
    (vector hash : List ℕ) (m left i w : ℕ)
    → All IsByte vector
    → 2 ^ m ≤ 8 * length vector
    → blob_bit (fill vector hash m left i) w ≡ (blob_bit vector w || any_index hash m left i w)
unfolding fill any_index
blob_bit-fill vector hash m zero i w bytes room = ground arith
blob_bit-fill vector hash m (suc left) i w bytes room =
    let v = index hash m i in
    ground (
      arith,
      blob_bit-fill (step vector v) hash m left (i + 1) w (IsByte-step vector v bytes)
          (rw length-step room),
      blob_bit-step vector v w bytes (omega (arith, index-lt hash m i)),
    )

pub fresh-le : (vector hash : List ℕ) (m left i : ℕ) → fresh vector hash m left i ≤ left
unfolding fresh
fresh-le vector hash m zero i = omega arith
fresh-le vector hash m (suc left) i =
    ground (arith, fresh-le (step vector (index hash m i)) hash m left (i + 1))

-- Nothing is new exactly when all of the bits were set.
pub fresh-eq-zero_iff :
    (vector hash : List ℕ) (m left i : ℕ)
    → (fresh vector hash m left i ≡ 0) ↔ (all_set vector hash m left i ≡ true)
unfolding fresh all_set step
fresh-eq-zero_iff vector hash m zero i = ground arith
fresh-eq-zero_iff vector hash m (suc left) i =
    ground (arith, fresh-eq-zero_iff vector hash m left (i + 1))

module _ (b : Bloom) (hash : List ℕ) where
  collect-index :
      (i left : ℕ)
      → (i + suc left) * b.m ≤ 8 * length hash
      → (i + suc left) * b.m < 2 ^ 32
      → collect hash (i * b.m % 2 ^ 32) b.m 0 0 ≡ done (index hash b.m i)
  unfolding index
  collect-index i left h w =
      let room : i * b.m + b.m ≤ (i + suc left) * b.m = grind arith in
      let e : i * b.m % 2 ^ 32 ≡ i * b.m = omega arith in
      rw e (collect-index_from hash (i * b.m) b.m 0 0 (omega arith) (omega arith))

  add_round-step :
      (vector : List ℕ) (i left added : ℕ)
      → 2 ^ b.m ≤ 8 * length vector
      → (i + suc left) * b.m ≤ 8 * length hash
      → (i + suc left) * b.m < 2 ^ 32
      → added + 1 < 2 ^ 32
      → add_round hash i (record b { vector = some vector }) added
        ≡ done (
          record b { vector = some (step vector (index hash b.m i)) },
          added + (if blob_bit vector (index hash b.m i) then 0 else 1),
        )
  unfolding add_round step
  add_round-step vector i left added room h w small =
      let v = index hash b.m i in
      let in_range : v < 8 * length vector = omega (arith, index-lt hash b.m i) in
      let c = record b { vector = some vector } in
      rw (collect-index i left h w, get_bloom_bit-blob_bit c vector v refl in_range)
        (elim (Bool-cases (blob_bit vector v)) [
          | inl e ↦ rw e (ground arith)
          | inr e ↦
              let e' : (added + 1) % 2 ^ 32 ≡ added + 1 = omega arith in
              rw (e, set_bloom_bit-turn_on c vector v refl in_range, e')
        ])

  pub add_rounds-fill :
      (left i : ℕ) (vector : List ℕ) (added : ℕ)
      → 2 ^ b.m ≤ 8 * length vector
      → (i + left) * b.m ≤ 8 * length hash
      → (i + left) * b.m < 2 ^ 32
      → added + left < 2 ^ 32
      → add_rounds hash left i (record b { vector = some vector }) added
        ≡ done (
          record b { vector = some (fill vector hash b.m left i) },
          added + fresh vector hash b.m left i,
        )
  unfolding add_rounds fill fresh
  add_rounds-fill zero i vector added room h w small = ground arith
  add_rounds-fill (suc left) i vector added room h w small =
      let v = index hash b.m i in
      let e : i + suc left ≡ i + 1 + left = omega arith in
      let rest =
        add_rounds-fill left (i + 1) (step vector v) (added + (if blob_bit vector v then 0 else 1))
          (rw length-step room) (rw e at h) (rw e at w) (ground arith) in
      rw (add_round-step vector i left added room h w (omega arith), rest) (ground arith)

  pub query_rounds-all_set :
      (left i : ℕ) (vector : List ℕ)
      → b.vector ≡ some vector
      → 2 ^ b.m ≤ 8 * length vector
      → (i + left) * b.m ≤ 8 * length hash
      → (i + left) * b.m < 2 ^ 32
      → query_rounds hash left i b ≡ done (all_set vector hash b.m left i)
  unfolding query_rounds all_set
  query_rounds-all_set zero i vector has room h w = refl
  query_rounds-all_set (suc left) i vector has room h w =
      let v = index hash b.m i in
      let e : i + suc left ≡ i + 1 + left = omega arith in
      let rest = query_rounds-all_set left (i + 1) vector has room (rw e at h) (rw e at w) in
      let in_range : v < 8 * length vector = omega (arith, index-lt hash b.m i) in
      rw (collect-index i left h w, get_bloom_bit-blob_bit b vector v has in_range)
        (elim (Bool-cases (blob_bit vector v)) [ inl q ↦ rw (q, rest) | inr q ↦ rw q ])
