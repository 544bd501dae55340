-- ===== src/Bloom/Create.antt =====
-- Making, filing and clearing filters: `nsrl_bloom_alloc`, `nsrl_bloom_set_params`,
-- `nsrl_bloom_write`, `nsrl_bloom_create`, `nsrl_bloom_init_mutex`, `nsrl_set_passphrase` and
-- `nsrl_bloom_clear` of bloom.c. `strdup` and `pthread_mutex_init` are taken to succeed.
pub mod Memory
pub mod Files
use frag_find.Common.{
  ℕ, zero, suc, ◌+◌, ◌-◌, ◌*◌, ◌/◌, ◌%◌, ◌^◌, Bool, true, false, not, List, [], ◌++◌, Option, none,
  some, Run, done, exited, fault, out_of_bounds, bad_shift, null_pointer, ◌>>=◌, length, take, drop,
  replicate, ltb, leb, ◌==◌, if◌then◌else◌,
}
use frag_find.Bloom.Types.{Bloom, Env, Md, md5, sha1, sha256, blank, deref}
use frag_find.Bloom.Header.{info_update, vector_start}

pub alloc : Bloom
alloc = record blank { free_this = true }

-- The digest of `EVP_get_digestbyname` for a size in bytes.
unfoldable pub digest_of : ℕ → Option Md
digest_of hash_bytes =
    if hash_bytes == 16
    then some md5
    else (if hash_bytes == 20 then some sha1 else (if hash_bytes == 32 then some sha256 else none))

unfoldable pub set_params : Bloom → Run Bloom
set_params b = elim (digest_of b.hash_bytes) [
  | none ↦ exited 1
  | some md ↦ done (record b { md = some md })
]

-- What becomes of the file that `nsrl_bloom_write` makes.
pub data Written : Type 0 where
  unopened unlinked : Written
  written : List ℕ → Written

-- One `write` of the loop has at most 1 MB.
abbrev pub chunk : ℕ → ℕ
chunk left = if ltb 1048576 left then 1048576 else left

module _ (env : Env) where
  -- The loop that writes the vector; `none` is a write that fails.
  pub write_vector : ℕ → ℕ → List ℕ → ℕ → ℕ → List ℕ → Run (Option (List ℕ))
  write_vector zero fd vector vector_bytes at out = done (some out)
  write_vector (suc fuel) fd vector vector_bytes at out =
      let n = chunk (vector_bytes - at) in
      let rest =
        write_vector fuel fd vector vector_bytes (at + n) (out ++ take n (drop at vector)) in
      if ltb at vector_bytes
      then (if ltb (length vector) (at + n)
          then fault out_of_bounds
          else (if env.write_ok fd n then rest else done none))
      else done (some out)

  -- After the header: `lseek` to the vector, whose result is ignored, and the loop.
  pub write_body : Bloom → Run (Bloom × Written)
  write_body b = do
    vector ← deref b.vector
    out ← write_vector (b.vector_bytes / 1048576 + 1) b.fd vector b.vector_bytes 0 []
    elim out [
      | none ↦ done (b, unlinked)
      | some v ↦ done (b, written (b.page ++ replicate (vector_start - length b.page) 0 ++ v))
    ]

  -- The C function returns 0 for `written`, and -1 otherwise.
  pub write : Bloom → List ℕ → Run (Bloom × Written)
  write b fname = elim (env.open_new fname) [
    | none ↦ done (record b { fd = 2 ^ 32 - 1 }, unopened)
    | some fd ↦ do
      (b', ok) ← info_update env (record b { fd = fd; page = [] })
      if ok then write_body b' else done (b', unlinked)
  ]

  -- `free(b->vector)` and `mmap`, whose failure the code does not look for.
  pub map_vector : Bloom → Bloom
  map_vector b = record b {
    vector = if env.mmap_ok b.vector_bytes then b.vector else none;
    memmapped = true;
  }

  -- `if(fname==0) return 0`, or else the file. The Boolean is whether the C function returns 0.
  pub create_file : Bloom → Option (List ℕ) → Run (Bloom × Bool)
  create_file b none = done (b, true)
  create_file b (some fname) = do
    (b', result) ← write b fname
    elim result [ written contents ↦ done (map_vector b', true) | _ ↦ done (b', false) ]

  -- The checks of the parameters, and the fields.
  pub create_params : Bloom → Option (List ℕ) → ℕ → ℕ → ℕ → List ℕ → Run (Bloom × Bool)
  create_params b fname hash_bits bloom_bits k comment =
      if ltb hash_bits (bloom_bits * k % 2 ^ 32)
      then exited 1
      else (if not (hash_bits % 8 == 0)
          then exited 1
          else (set_params (record b {
            hash_bytes = hash_bits / 8;
            m = bloom_bits;
            k = k;
            comment = some comment;
          })
              >>= λ b'. create_file b' fname))

  -- `1 << n` on a `size_t` is undefined from 64 on; `bloom_bits-3` wraps below 3.
  pub create : Bloom → Option (List ℕ) → ℕ → ℕ → ℕ → List ℕ → Run (Bloom × Bool)
  create b fname hash_bits bloom_bits k comment =
      let n = (bloom_bits + 2 ^ 32 - 3) % 2 ^ 32 in
      if leb 64 n
      then fault bad_shift
      else (if env.calloc_ok (2 ^ n)
          then create_params
              (record b { vector_bytes = 2 ^ n; vector = some (replicate (2 ^ n) 0) }) fname
              hash_bits bloom_bits k comment
          else done (record b { vector_bytes = 2 ^ n; vector = none }, false))

  -- `EVP_Digest` stores into `b->key`.
  pub set_passphrase : Bloom → List ℕ → Run Bloom
  set_passphrase b passphrase = do
    md ← deref b.md
    key ← deref b.key
    let digest = env.evp_digest md passphrase
    done (record b { key = some digest; hash_bytes = length digest })

pub init_mutex : Bloom → Bloom
init_mutex b = record b { multithreaded = true }

-- Every field is zero afterwards; the memory, the file and the mutex are given back.
pub clear : Bloom → Bloom
clear b = record blank { lookups = b.lookups }
