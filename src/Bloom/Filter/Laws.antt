-- ===== src/Bloom/Filter/Laws.antt =====
-- The contract of `nsrl_bloom_add` and `nsrl_bloom_query`: a filter is a set of bits.
use native.Mathlib.Nat.{zero-add}
use frag_find.Common.{
  ℕ, zero, suc, ◌+◌, ◌*◌, ◌%◌, ◌^◌, ◌≤◌, ◌<◌, ◌≡◌, refl, ◌∙◌, ap, Bool, true, false, ◌||◌, List,
  none, some, done, Returns, length, ◌==◌, if◌then◌else◌, arith, All, Bool-cases, inl, inr, ◌↔◌,
}
use frag_find.Bloom.Types.{Bloom, Env}
use frag_find.Bloom.Header.{info_update-page}
use frag_find.Bloom.Filter.{add, add_rounds, keyed, query, count_add}
use frag_find.Bloom.Filter.Bits.{blob_bit, index, IsByte}
use frag_find.Bloom.Filter.Rounds.{
  any_index, all_set, fill, fresh, length-fill, IsByte-fill, blob_bit-fill, fresh-eq-zero_iff,
  add_rounds-fill, query_rounds-all_set,
}

-- What `nsrl_bloom_create` sets up and every operation keeps.
pub record IsValid (b : Bloom) : Type 0 where
  pub bits : List ℕ
  pub note : List ℕ
  pub held : b.vector ≡ some bits
  pub commented : b.comment ≡ some note
  pub room : 2 ^ b.m ≡ 8 * length bits
  pub sized : b.vector_bytes ≡ length bits
  pub bytes : All IsByte bits
  pub wide : 3 ≤ b.m
  pub reads : b.k * b.m ≤ 8 * b.hash_bytes
  pub word : 8 * b.hash_bytes < 2 ^ 32

-- The set of bits that are on.
unfoldable pub view : Bloom → ℕ → Bool
view b v = elim b.vector [ none ↦ false | some vector ↦ blob_bit vector v ]

-- Are all the bits of a hash on?
unfoldable pub present : Bloom → List ℕ → Bool
present b hash = elim b.vector [ none ↦ false | some vector ↦ all_set vector hash b.m b.k 0 ]

-- One of the bits of a hash.
abbrev pub bit_of : Bloom → List ℕ → ℕ → Bool
bit_of b hash v = any_index hash b.m b.k 0 v

all_set-intro :
    (vector hash : List ℕ) (m left i : ℕ)
    → ((v : ℕ) → any_index hash m left i v ≡ true → blob_bit vector v ≡ true)
    → all_set vector hash m left i ≡ true
unfolding all_set any_index
all_set-intro vector hash m zero i h = refl
all_set-intro vector hash m (suc left) i h = ground (
  arith,
  h (index hash m i),
  all_set-intro vector hash m left (i + 1) (λ v p. ground (arith, h v)),
)

all_set-elim :
    (vector hash : List ℕ) (m left i v : ℕ)
    → all_set vector hash m left i ≡ true
    → any_index hash m left i v ≡ true
    → blob_bit vector v ≡ true
unfolding all_set any_index
all_set-elim vector hash m zero i v h p = cc
all_set-elim vector hash m (suc left) i v h p = elim (Bool-cases (index hash m i == v)) [
  | inl e ↦ let same : index hash m i ≡ v = ground arith in rw (← same) (ground arith)
  | inr e ↦ all_set-elim vector hash m left (i + 1) v (ground arith) (ground arith)
]

-- A hash is present exactly when each of its bits is in the set.
pub present_iff :
    (b : Bloom) (hash : List ℕ)
    → IsValid b
    → (present b hash ≡ true) ↔ ((v : ℕ) → bit_of b hash v ≡ true → view b v ≡ true)
unfolding present view
present_iff b hash valid = rw valid.held (
  (λ h v. all_set-elim valid.bits hash b.m b.k 0 v h),
  (λ h. all_set-intro valid.bits hash b.m b.k 0 h),
)

-- A call of `nsrl_bloom_add` of the hash `h` took `b` to `b'`.
pub record Adds (b : Bloom) (h : List ℕ) (b' : Bloom) : Type 0 where
  pub valid : IsValid b'
  pub same_m : b'.m ≡ b.m
  pub same_k : b'.k ≡ b.k
  pub same_hash_bytes : b'.hash_bytes ≡ b.hash_bytes
  pub same_key : b'.key ≡ b.key
  pub same_md : b'.md ≡ b.md
  pub bits : (v : ℕ) → view b' v ≡ (view b v || bit_of b h v)
  pub counted : b'.added_items ≡ (b.added_items + 1) % 2 ^ 64
  pub aliased :
      b'.aliased_adds ≡ (if present b h then (b.aliased_adds + 1) % 2 ^ 64 else b.aliased_adds)

module _ (env : Env) where
  module _ (b : Bloom) (hash : List ℕ) (valid : IsValid b) (keyless : b.key ≡ none)
      (long : b.hash_bytes ≤ length hash) where
    -- With no key the hash itself is split.
    same_hash : keyed env b hash ≡ done hash
    unfolding keyed
    same_hash = rw keyless refl

    few : b.k < 2 ^ 32
    few =
        let big : b.k * 3 ≤ b.k * b.m = grind (arith, valid.wide) in
        omega (arith, valid.reads, valid.word)

    filled : Bloom
    filled = record b { vector = some (fill valid.bits hash b.m b.k 0) }

    added_bits : ℕ
    added_bits = fresh valid.bits hash b.m b.k 0

    self : b ≡ record b { vector = some valid.bits }
    self = λ i. record b { vector = valid.held i }

    runs : add_rounds hash b.k 0 b 0 ≡ done (filled, added_bits)
    unfolding filled added_bits
    runs =
        ap (λ (c : Bloom). add_rounds hash b.k 0 c 0) self
        ∙ add_rounds-fill b hash b.k 0 valid.bits 0 (omega (arith, valid.room))
            (omega (arith, valid.reads, long)) (omega (arith, valid.reads, valid.word))
            (omega (arith, few))
        ∙ ap (λ (n : ℕ). done (filled, n)) (zero-add added_bits)

    IsValid-filled : IsValid (count_add filled added_bits)
    unfolding filled count_add
    IsValid-filled = record {
      bits = fill valid.bits hash b.m b.k 0;
      note = valid.note;
      held = refl;
      commented = valid.commented;
      room = rw length-fill valid.room;
      sized = rw length-fill valid.sized;
      bytes = IsByte-fill valid.bits hash b.m b.k 0 valid.bytes;
      wide = valid.wide;
      reads = valid.reads;
      word = valid.word;
    }

    bits-filled : (v : ℕ) → view (count_add filled added_bits) v ≡ (view b v || bit_of b hash v)
    unfolding view filled count_add
    bits-filled v =
        rw valid.held
          (blob_bit-fill valid.bits hash b.m b.k 0 v valid.bytes (omega (arith, valid.room)))

    aliased-filled :
        (count_add filled added_bits).aliased_adds
        ≡ (if present b hash then (b.aliased_adds + 1) % 2 ^ 64 else b.aliased_adds)
    unfolding present filled added_bits count_add
    aliased-filled = rw valid.held (ground (arith, fresh-eq-zero_iff valid.bits hash b.m b.k 0))

    Adds-filled : Adds b hash (count_add filled added_bits)
    unfolding filled count_add
    Adds-filled = record {
      valid = IsValid-filled;
      same_m = refl;
      same_k = refl;
      same_hash_bytes = refl;
      same_key = refl;
      same_md = refl;
      bits = bits-filled;
      counted = refl;
      aliased = aliased-filled;
    }

    -- Writing the header page does not touch the filter.
    Adds-page : (c : Bloom) (p : List ℕ) → Adds b hash c → Adds b hash (record c { page = p })
    unfolding view
    Adds-page c p a = record {
      valid = record {
        bits = a.valid.bits;
        note = a.valid.note;
        held = a.valid.held;
        commented = a.valid.commented;
        room = a.valid.room;
        sized = a.valid.sized;
        bytes = a.valid.bytes;
        wide = a.valid.wide;
        reads = a.valid.reads;
        word = a.valid.word;
      };
      same_m = a.same_m;
      same_k = a.same_k;
      same_hash_bytes = a.same_hash_bytes;
      same_key = a.same_key;
      same_md = a.same_md;
      bits = a.bits;
      counted = a.counted;
      aliased = a.aliased;
    }

    -- On a valid filter with no key, with a hash at least as long as those of the filter, an add
    -- returns a valid filter with the same parameters in which exactly the bits of the hash are
    -- turned on; it counts the call, and counts it as aliased exactly when all of those bits were
    -- on.
    pub add-Adds : Returns (add env b hash) (Adds b hash)
    unfolding add IsValid-filled
    add-Adds =
        let c = count_add filled added_bits in
        let (r, e, (p, q)) = info_update-page env c valid.note IsValid-filled.commented in
        rw (same_hash, runs)
          (elim (Bool-cases (c.added_items % 1000 == 0)) [
            | inr other ↦ (c, rw other, Adds-filled)
            | inl due ↦ (r.0, rw (due, e), rw q (Adds-page c p Adds-filled))
          ])

    -- On a valid filter with no key, with a hash at least as long as those of the filter, a query
    -- returns whether all bits of the hash are on and changes only the counters of queries.
    pub query_lem :
        query env b hash
        ≡ done (record b { hits = (b.hits + 1) % 2 ^ 64; lookups = b.lookups + 1 }, present b hash)
    unfolding query present
    query_lem =
        rw
          (
            same_hash,
            query_rounds-all_set b hash b.k 0 valid.bits valid.held (omega (arith, valid.room))
                (omega (arith, valid.reads, long)) (omega (arith, valid.reads, valid.word)),
            valid.held,
          )
          refl
