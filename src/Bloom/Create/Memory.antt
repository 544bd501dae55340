-- ===== src/Bloom/Create/Memory.antt =====
-- `nsrl_bloom_create` of a filter in memory, and the adds and queries that follow.
use native.Mathlib.Nat.{pow-suc}
use frag_find.Common.{
  ℕ, suc, ◌+◌, ◌-◌, ◌*◌, ◌/◌, ◌%◌, ◌^◌, ◌≤◌, ◌≡◌, refl, sym, ◌∙◌, ap, true, false, ◌⊎◌, inl, inr,
  List, none, some, done, Returns, length-replicate, replicate, All-replicate, get_or-replicate,
  ltb, leb, arith,
}
use frag_find.Common.Bits.{test_bit-zero}
use frag_find.Bloom.Types.{Bloom, Env, Md, md5, sha1, sha256, blank}
use frag_find.Bloom.Create.{create, create_params, create_file, set_params, digest_of}
use frag_find.Bloom.Filter.Bits.{IsByte, blob_bit}
use frag_find.Bloom.Filter.Laws.{IsValid, view}

-- A hash of one of the three sizes that bloom.c supports.
abbrev pub IsHashSize : ℕ → Type 0
IsHashSize bits = (bits ≡ 128) ⊎ ((bits ≡ 160) ⊎ (bits ≡ 256))

pub pow-room : (m : ℕ) → 3 ≤ m → 2 ^ m ≡ 8 * 2 ^ (m - 3)
pow-room m h =
    let e : m ≡ suc (suc (suc (m - 3))) = omega arith in
    ap (λ (n : ℕ). 2 ^ n) e
    ∙ omega (arith, pow-suc 2 (suc (suc (m - 3))), pow-suc 2 (suc (m - 3)), pow-suc 2 (m - 3))

blob_bit-replicate : (n i : ℕ) → blob_bit (replicate n 0) i ≡ false
unfolding blob_bit
blob_bit-replicate n i =
    rw (get_or-replicate {A = ℕ} n (i / 8) 0) (test_bit-zero (i % 8) (omega arith))

-- What a new filter is: valid, with no bit on and nothing counted.
pub record IsNew (m k hash_bits : ℕ) (b : Bloom) : Type 0 where
  pub valid : IsValid b
  pub same_m : b.m ≡ m
  pub same_k : b.k ≡ k
  pub hash_size : 8 * b.hash_bytes ≡ hash_bits
  pub keyless : b.key ≡ none
  pub empty : (v : ℕ) → view b v ≡ false
  pub counts :
      (b.added_items ≡ 0) × (b.unique_added_items ≡ 0) × (b.aliased_adds ≡ 0) × (b.hits ≡ 0)

pub digest_of-size : (bits : ℕ) → IsHashSize bits → (md : Md) × (digest_of (bits / 8) ≡ some md)
unfolding digest_of
digest_of-size bits (inl e) = (md5, rw e)
digest_of-size bits (inr (inl e)) = (sha1, rw e)
digest_of-size bits (inr (inr e)) = (sha256, rw e)

pub set_params-digest :
    (b : Bloom) (md : Md)
    → digest_of b.hash_bytes ≡ some md
    → set_params b ≡ done (record b { md = some md })
unfolding set_params
set_params-digest b md e = rw (e, set_params) refl

-- The filter that `nsrl_bloom_create` leaves when it needs no file.
made : ℕ → ℕ → ℕ → List ℕ → Md → Bloom
made hash_bits m k comment md = record blank {
  vector_bytes = 2 ^ (m - 3);
  vector = some (replicate (2 ^ (m - 3)) 0);
  hash_bytes = hash_bits / 8;
  m = m;
  k = k;
  comment = some comment;
  md = some md;
}

module _ (hash_bits m k : ℕ) (comment : List ℕ) (size : IsHashSize hash_bits) (lo : 3 ≤ m)
    (fits : m * k ≤ hash_bits) where
  made-IsNew : (md : Md) → IsNew m k hash_bits (made hash_bits m k comment md)
  unfolding made view
  made-IsNew md = record {
    valid = record {
      bits = replicate (2 ^ (m - 3)) 0;
      note = comment;
      held = refl;
      commented = refl;
      room = rw (length-replicate {A = ℕ} (2 ^ (m - 3)) 0) (pow-room m lo);
      sized = sym (length-replicate {A = ℕ} (2 ^ (m - 3)) 0);
      bytes = All-replicate IsByte (2 ^ (m - 3)) 0 (omega arith);
      wide = lo;
      reads = ground arith;
      word = ground arith;
    };
    same_m = refl;
    same_k = refl;
    hash_size = ground arith;
    keyless = refl;
    empty = λ v. blob_bit-replicate (2 ^ (m - 3)) v;
    counts = (refl, refl, refl, refl);
  }

  params-made :
      (env : Env)
      → (md : Md) × (create_params env
            (record blank { vector_bytes = 2 ^ (m - 3); vector = some (replicate (2 ^ (m - 3)) 0) })
            none
            hash_bits
            m
            k
            comment
          ≡ done (made hash_bits m k comment md, true))
  unfolding create_params create_file made
  params-made env =
      let (md, q) = digest_of-size hash_bits size in
      let p : m * k % 2 ^ 32 ≡ m * k = ground arith in
      let l : ltb hash_bits (m * k) ≡ false = ground arith in
      let z : hash_bits % 8 ≡ 0 = ground arith in
      (
        md,
        rw (p, l, z, set_params-digest (record (made hash_bits m k comment md) { md = none }) md q)
            refl,
      )

  -- For a hash of 128, 160 or 256 bits, 3 <= m <= 66, m * k no more than the bits of the hash,
  -- and memory for the vector, creating a filter with no file succeeds and gives a valid filter
  -- of those parameters with no bit on and all counters zero.
  pub create-IsNew :
      (env : Env)
      → m ≤ 66
      → env.calloc_ok (2 ^ (m - 3)) ≡ true
      → Returns
          (create env blank none hash_bits m k comment)
          λ r. (r.1 ≡ true) × IsNew m k hash_bits r.0
  unfolding create
  create-IsNew env hi memory =
      let e : (m + 2 ^ 32 - 3) % 2 ^ 32 ≡ m - 3 = omega arith in
      let l : leb 64 (m - 3) ≡ false = ground arith in
      let (md, run) = params-made env in
      ((made hash_bits m k comment md, true), rw (e, l, memory) run, (refl, made-IsNew md))
