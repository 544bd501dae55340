-- ===== src/Bloom/Types.antt =====
-- `struct nsrl_bloom_` of src/bloom.h, and what bloom.c calls and does not implement.
use frag_find.Common.{ℕ, Bool, List, Option, Run, done, fault, null_pointer, none, some, false, []}

-- `const EVP_MD *md`, the digests that bloom.c asks OpenSSL for.
pub data Md : Type 0 where
  md5 sha1 sha256 : Md

-- OpenSSL, the allocator and the kernel.
pub record Env : Type 0 where
  -- HMAC(md, key, message)
  pub hmac : Md → List ℕ → List ℕ → List ℕ
  -- EVP_Digest(text, md)
  pub evp_digest : Md → List ℕ → List ℕ
  -- does `calloc` of that many bytes give memory?
  pub calloc_ok : ℕ → Bool
  -- does `lseek(fd, offset, SEEK_SET)` return 0?
  pub lseek_ok : ℕ → ℕ → Bool
  -- does `write` to `fd` take all of that many bytes?
  pub write_ok : ℕ → ℕ → Bool
  -- the descriptor of a file that `open` creates, or `none` when it returns a negative number
  pub open_new : List ℕ → Option ℕ
  -- does `mmap` of that many bytes of the file give memory?
  pub mmap_ok : ℕ → Bool

-- Pointers are `none` when they are NULL.
pub record Bloom : Type 0 where
  pub hash_bytes : ℕ
  pub m : ℕ
  pub k : ℕ
  pub vector_bytes : ℕ
  pub vector_offset : ℕ
  pub vector : Option (List ℕ)
  pub comment : Option (List ℕ)
  pub added_items : ℕ
  pub unique_added_items : ℕ
  pub aliased_adds : ℕ
  pub fd : ℕ
  pub debug : ℕ
  pub memmapped : Bool
  pub free_this : Bool
  pub hits : ℕ
  pub key : Option (List ℕ)
  pub multithreaded : Bool
  pub md : Option Md
  -- the first page of the file that is open on `fd`
  pub page : List ℕ
  -- the counter `bloom_lookups` of bloom.c, which is one for the whole process
  pub lookups : ℕ

-- The object after `calloc`, or after the constructor of NSRLBloom.
abbrev pub blank : Bloom
blank = record {
  hash_bytes = 0;
  m = 0;
  k = 0;
  vector_bytes = 0;
  vector_offset = 0;
  vector = none;
  comment = none;
  added_items = 0;
  unique_added_items = 0;
  aliased_adds = 0;
  fd = 0;
  debug = 0;
  memmapped = false;
  free_this = false;
  hits = 0;
  key = none;
  multithreaded = false;
  md = none;
  page = [];
  lookups = 0;
}

-- `*p`
abbrev pub deref {ℓ} : {A : Type ℓ} → Option A → Run A
deref none = fault null_pointer
deref (some a) = done a
