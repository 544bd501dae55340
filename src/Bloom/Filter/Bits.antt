-- ===== src/Bloom/Filter/Bits.antt =====
-- What the bits of a hash and of the vector mean, and the loops over them without faults.
use native.Mathlib.Nat.{pow-suc}
use frag_find.Common.{
  ℕ, zero, suc, ◌+◌, ◌*◌, ◌/◌, ◌%◌, ◌^◌, ◌≤◌, ◌<◌, ◌≡◌, refl, ap, Bool, true, false, ◌||◌, List,
  some, done, read, length, get_or, set, ◌==◌, bit_or, arith, All, get_elem?-eq-get_or,
  get_or-set_self, get_or-set_ne, All-get_or, Bool-cases, ==_iff, inl, inr, sym,
}
use frag_find.Common.Bits.{test_bit, bit_or_low, test_bit-bit_or, pow-lt_byte}
use frag_find.Bloom.Types.{Bloom}
use frag_find.Bloom.Filter.{probe, get_bit, get_bloom_bit, set_bloom_bit, collect}

abbrev pub bit_value : Bool → ℕ
bit_value true = 1
bit_value false = 0

-- The bits of a blob are counted from the low end of each byte.
unfoldable pub blob_bit : List ℕ → ℕ → Bool
blob_bit buf i = test_bit (get_or buf (i / 8) 0) (i % 8)

-- The number that `left` bits of the hash give, the first one on top, in 64 bits.
unfoldable pub index_from : List ℕ → ℕ → ℕ → ℕ → ℕ → ℕ
index_from hash offset zero j v = v
index_from hash offset (suc left) j v =
    index_from hash offset left (j + 1) (v * 2 % 2 ^ 64 + bit_value (blob_bit hash (offset + j)))

-- The bit of the vector that the ith function of the hash stands for.
unfoldable pub index : List ℕ → ℕ → ℕ → ℕ
unfolding index_from
index hash m i = index_from hash (i * m) m 0 0

probe-eq : (x j : ℕ) → probe x j ≡ bit_value (test_bit x j)
unfolding test_bit
probe-eq x j = ground arith

pub read-get_or : (buf : List ℕ) (i : ℕ) → i < length buf → read buf i ≡ done (get_or buf i 0)
read-get_or buf i h = rw (get_elem?-eq-get_or buf i 0 h, read)

pub get_bit-blob_bit :
    (buf : List ℕ) (i : ℕ) → i < 8 * length buf → get_bit buf i ≡ done (bit_value (blob_bit buf i))
unfolding get_bit blob_bit
get_bit-blob_bit buf i h = rw (read-get_or buf (i / 8) (omega arith), probe-eq)

bit_value-lt : (b : Bool) → bit_value b < 2
bit_value-lt true = omega arith
bit_value-lt false = omega arith

shift_word : (v : ℕ) → v * 2 % 2 ^ 64 ≡ v % 2 ^ 63 * 2
shift_word v = omega arith

shift_in : (v : ℕ) (b : Bool) → bit_or (v * 2 % 2 ^ 64) (bit_value b) ≡ v * 2 % 2 ^ 64 + bit_value b
shift_in v b = rw (shift_word v) (bit_or_low (v % 2 ^ 63) (bit_value b) (bit_value-lt b))

pub collect-index_from :
    (hash : List ℕ) (offset left j v : ℕ)
    → offset + j + left ≤ 8 * length hash
    → offset + j + left ≤ 2 ^ 32
    → collect hash offset left j v ≡ done (index_from hash offset left j v)
unfolding collect index_from
collect-index_from hash offset zero j v h w = refl
collect-index_from hash offset (suc left) j v h w =
    let e : (offset + j) % 2 ^ 32 ≡ offset + j = omega arith in
    rw
      (e, get_bit-blob_bit hash (offset + j) (omega arith), shift_in v (blob_bit hash (offset + j)))
      (collect-index_from hash offset left (j + 1) _ (omega arith) (omega arith))

mul_mono : (a b c : ℕ) → a ≤ b → a * c ≤ b * c
mul_mono a b c h = grind arith

index_from-lt :
    (hash : List ℕ) (offset left j v : ℕ) → index_from hash offset left j v < (v + 1) * 2 ^ left
unfolding index_from
index_from-lt hash offset zero j v = omega arith
index_from-lt hash offset (suc left) j v =
    let b = bit_value (blob_bit hash (offset + j)) in
    let v' = v * 2 % 2 ^ 64 + b in
    let small : v' + 1 ≤ 2 * (v + 1) = omega (arith, bit_value-lt (blob_bit hash (offset + j))) in
    let below = index_from-lt hash offset left (j + 1) v' in
    let scaled = mul_mono (v' + 1) (2 * (v + 1)) (2 ^ left) small in
    omega (arith, below, scaled, ap (λ (t : ℕ). (v + 1) * t) (pow-suc 2 left))

-- Every index is below 2 ^ M.
pub index-lt : (hash : List ℕ) (m i : ℕ) → index hash m i < 2 ^ m
unfolding index
index-lt hash m i = omega (arith, index_from-lt hash (i * m) m 0 0)

pub get_bloom_bit-blob_bit :
    (b : Bloom) (vector : List ℕ) (i : ℕ)
    → b.vector ≡ some vector
    → i < 8 * length vector
    → get_bloom_bit b i ≡ done (bit_value (blob_bit vector i))
unfolding get_bloom_bit blob_bit
get_bloom_bit-blob_bit b vector i e h = rw (e, read-get_or vector (i / 8) (omega arith), probe-eq)

-- The vector with one more bit set.
unfoldable pub turn_on : List ℕ → ℕ → List ℕ
turn_on vector i = set vector (i / 8) (bit_or (get_or vector (i / 8) 0) (2 ^ (i % 8)))

pub set_bloom_bit-turn_on :
    (b : Bloom) (vector : List ℕ) (i : ℕ)
    → b.vector ≡ some vector
    → i < 8 * length vector
    → set_bloom_bit b i ≡ done (record b { vector = some (turn_on vector i) })
unfolding set_bloom_bit turn_on
set_bloom_bit-turn_on b vector i e h =
    let q : 2 ^ (i % 8) % 2 ^ 8 ≡ 2 ^ (i % 8) = omega (arith, pow-lt_byte (i % 8) (omega arith)) in
    rw (e, read-get_or vector (i / 8) (omega arith), q)

abbrev pub IsByte : ℕ → Type 0
IsByte x = x < 256

-- Turning a bit on changes that bit alone.
pub blob_bit-turn_on :
    (vector : List ℕ) (i j : ℕ)
    → All IsByte vector
    → i < 8 * length vector
    → blob_bit (turn_on vector i) j ≡ (blob_bit vector j || i == j)
unfolding blob_bit turn_on
blob_bit-turn_on vector i j bytes h = elim (Bool-cases (i / 8 == j / 8)) [
  | inl e ↦
      let same : j / 8 ≡ i / 8 = sym ((==_iff (i / 8) (j / 8)).0 e) in
      rw (same, get_or-set_self vector (i / 8) _ 0 (omega arith))
        (ground (
          arith,
          test_bit-bit_or (get_or vector (i / 8) 0) (i % 8) (j % 8)
              (All-get_or IsByte vector (i / 8) 0 bytes (omega arith)) (omega arith) (omega arith),
        ))
  | inr e ↦ rw (get_or-set_ne vector (i / 8) (j / 8) _ 0 (λ same. ground arith)) (ground arith)
]
