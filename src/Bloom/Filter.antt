-- ===== src/Bloom/Filter.antt =====
-- Bits, `nsrl_bloom_add` and `nsrl_bloom_query` of bloom.c.
-- The printing under `debug` is left out, and so are the mutex calls: one thread runs at a time.
pub mod Bits
pub mod Rounds
pub mod Laws
pub mod Sequence
use frag_find.Common.{
  ℕ, zero, suc, ◌+◌, ◌*◌, ◌/◌, ◌%◌, ◌^◌, Bool, true, false, List, Option, none, some, Run, done,
  fault, out_of_bounds, dangling_pointer, ◌||◌, take, null_pointer, ◌>>=◌, read, length, set, ltb,
  ◌==◌, if◌then◌else◌, bit_and, bit_or,
}
use frag_find.Bloom.Types.{Bloom, Env, Md, deref}
use frag_find.Bloom.Header.{info_update}

-- `(byte & (1 << j)) ? 1 : 0`
abbrev pub probe : ℕ → ℕ → ℕ
probe byte j = if bit_and byte (2 ^ j) == 0 then 0 else 1

-- `get_bit`: the ith bit of a blob.
pub get_bit : List ℕ → ℕ → Run ℕ
get_bit buf bit = read buf (bit / 8) >>= λ byte. done (probe byte (bit % 8))

pub get_bloom_bit : Bloom → ℕ → Run ℕ
get_bloom_bit b bit = do
  vector ← deref b.vector
  byte ← read vector (bit / 8)
  done (probe byte (bit % 8))

pub set_bloom_bit : Bloom → ℕ → Run Bloom
set_bloom_bit b bit = do
  vector ← deref b.vector
  byte ← read vector (bit / 8)
  done (record b { vector = some (set vector (bit / 8) (bit_or byte (2 ^ (bit % 8) % 2 ^ 8))) })

-- The loop over `j` that collects the bits of the hash from `offset` on, with `left` rounds to go.
pub collect : List ℕ → ℕ → ℕ → ℕ → ℕ → Run ℕ
collect hash offset zero j v = done v
collect hash offset (suc left) j v = do
  x ← get_bit hash ((offset + j) % 2 ^ 32)
  collect hash offset left (j + 1) (bit_or (v * 2 % 2 ^ 64) x)

-- One round of `nsrl_bloom_add`: the filter, and how many bits have been turned on so far.
pub add_round : List ℕ → ℕ → Bloom → ℕ → Run (Bloom × ℕ)
add_round hash i b added_bits = do
  v ← collect hash (i * b.m % 2 ^ 32) b.m 0 0
  x ← get_bloom_bit b v
  if x == 0
      then (set_bloom_bit b v >>= λ b'. done (b', (added_bits + 1) % 2 ^ 32))
      else done (b, added_bits)

pub add_rounds : List ℕ → ℕ → ℕ → Bloom → ℕ → Run (Bloom × ℕ)
add_rounds hash zero i b added_bits = done (b, added_bits)
add_rounds hash (suc left) i b added_bits = do
  (b', added') ← add_round hash i b added_bits
  add_rounds hash left (i + 1) b' added'

-- The counters at the end of `nsrl_bloom_add`.
pub count_add : Bloom → ℕ → Bloom
count_add b added_bits = record b {
  unique_added_items =
      if added_bits == b.k then (b.unique_added_items + 1) % 2 ^ 64 else b.unique_added_items;
  aliased_adds = if added_bits == 0 then (b.aliased_adds + 1) % 2 ^ 64 else b.aliased_adds;
  added_items = (b.added_items + 1) % 2 ^ 64;
}

-- The rounds of `nsrl_bloom_query`, which end at the first bit that is not set.
pub query_rounds : List ℕ → ℕ → ℕ → Bloom → Run Bool
query_rounds hash zero i b = done true
query_rounds hash (suc left) i b = do
  v ← collect hash (i * b.m % 2 ^ 32) b.m 0 0
  x ← get_bloom_bit b v
  elim (x == 0) [ true ↦ done false | false ↦ query_rounds hash left (i + 1) b ]

module _ (env : Env) where
  -- `hash_encrypt` into `ebuf`, which has 20 bytes; `HMAC` reads `hash_bytes` bytes of the key and of
  -- the hash.
  pub hash_encrypt : Bloom → List ℕ → List ℕ → Run (List ℕ)
  hash_encrypt b key hash = do
    md ← deref b.md
    let ebuf = env.hmac md (take b.hash_bytes key) (take b.hash_bytes hash)
    if ltb (length key) b.hash_bytes || (ltb (length hash) b.hash_bytes || ltb 20 (length ebuf))
        then fault out_of_bounds
        else done ebuf

  -- `if (b->key) hash = hash_encrypt(b,hash,ebuf)`: `ebuf` is declared in the block of the test, so that
  -- the hash points to nothing when the block ends.
  pub keyed : Bloom → List ℕ → Run (List ℕ)
  keyed b hash = elim b.key [
    | none ↦ done hash
    | some key ↦ hash_encrypt b key hash >>= λ ebuf. fault dangling_pointer
  ]

  pub add : Bloom → List ℕ → Run Bloom
  add b hash = do
    hash' ← keyed b hash
    (b', added_bits) ← add_rounds hash' b.k 0 b 0
    let b'' = count_add b' added_bits
    if b''.added_items % 1000 == 0 then (info_update env b'' >>= λ (c, ok). done c) else done b''

  -- The result of the C function, 0 or 1, as a Boolean.
  pub query : Bloom → List ℕ → Run (Bloom × Bool)
  query b hash = do
    hash' ← keyed b hash
    found ← query_rounds hash' b.k 0 b
    done (record b { hits = (b.hits + 1) % 2 ^ 64; lookups = b.lookups + 1 }, found)

  -- `nsrl_bloom_addString`: whether the string was present before.
  pub add_string : Bloom → List ℕ → Run (Bloom × Bool)
  add_string b str = do
    md ← deref b.md
    let buf = env.evp_digest md str
    (b', previously_present) ← query b buf
    if previously_present then done (b', true) else (add b' buf >>= λ b''. done (b'', false))

  pub query_string : Bloom → List ℕ → Run (Bloom × Bool)
  query_string b str = do md ← deref b.md; query b (env.evp_digest md str)
