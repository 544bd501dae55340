-- ===== src/Tests/Data.antt =====
-- Inputs for the examples: a calm environment, a small filter, and an image with one master file.
use frag_find.Common.{
  ℕ, refl, true, false, List, [], ◌∷◌, none, some, length, get_or, replicate, arith,
  length-replicate,
}
use frag_find.Bloom.Types.{Bloom, Env, md5, blank}
use frag_find.Bloom.Filter.Laws.{IsValid}
use frag_find.Search.Filter.{IsReady}
use frag_find.Search.BlockFile.{File, BlockFile}
use frag_find.Search.BlockFile.Blocks.{IsRegular, IsWhole}
use frag_find.Search.Master.{Program}
use frag_find.Search.Master.Load.{GivesDigests}

abbrev pub env : Env
env = record {
  hmac = λ md key message. message;
  evp_digest = λ md text. text;
  calloc_ok = λ n. true;
  lseek_ok = λ fd offset. true;
  write_ok = λ fd n. true;
  open_new = λ name. some 3;
  mmap_ok = λ n. true;
}

-- In place of MD5: the first two bytes of a block.
abbrev pub program : Program
program = record {
  env = env;
  hash_buf = λ buf. get_or buf 0 0 ∷ get_or buf 1 0 ∷ replicate 14 0;
  reopen = λ f. some f;
  mmap = λ f n. some f.contents;
  malloc = λ n. replicate n 0;
  opt_raw = false;
  use_prefilter = false;
}

pub program-GivesDigests : GivesDigests program
program-GivesDigests buf = omega (arith, length-replicate {A = ℕ} 14 0)

abbrev pub regular_file : List ℕ → File
regular_file contents = record {
  fstat_ok = true;
  st_size = length contents;
  is_device = false;
  device_size = none;
  contents = contents;
  read_fails = λ pos. false;
}

-- Four blocks of four bytes, of which the second and the fourth are the master file.
abbrev pub image_file : File
image_file = regular_file (1 ∷ 2 ∷ 3 ∷ 4 ∷ 5 ∷ 6 ∷ 7 ∷ 8 ∷ 9 ∷ 1 ∷ 2 ∷ 3 ∷ 5 ∷ 6 ∷ 7 ∷ 8 ∷ [])

abbrev pub master_file : File
master_file = regular_file (5 ∷ 6 ∷ 7 ∷ 8 ∷ [])

pub image_file-IsRegular : IsRegular image_file
image_file-IsRegular = record {
  stat = refl;
  regular = refl;
  size = refl;
  small = omega arith;
  reads = λ pos. refl;
}

pub master_file-IsRegular : IsRegular master_file
master_file-IsRegular = record {
  stat = refl;
  regular = refl;
  size = refl;
  small = omega arith;
  reads = λ pos. refl;
}

abbrev pub image : BlockFile
image = record { file = image_file; blocksize = 4; filesize = 16; blocks = 4 }

pub image-IsWhole : IsWhole image
image-IsWhole = record {
  size = refl;
  count = refl;
  step = omega arith;
  small = omega arith;
  reads = λ pos. refl;
}

-- A filter of eight bits with two functions.
abbrev pub filter : Bloom
filter = record blank {
  hash_bytes = 16;
  m = 3;
  k = 2;
  vector_bytes = 1;
  vector = some (0 ∷ []);
  comment = some [];
  md = some md5;
}

pub filter-IsValid : IsValid filter
filter-IsValid = record {
  bits = 0 ∷ [];
  note = [];
  held = refl;
  commented = refl;
  room = refl;
  sized = refl;
  bytes = (omega arith, tt);
  wide = omega arith;
  reads = omega arith;
  word = omega arith;
}

pub filter-IsReady : IsReady filter
filter-IsReady = record { valid = filter-IsValid; keyless = refl; short = omega arith }

-- Two digests of 16 bytes.
abbrev pub first_hash : List ℕ
first_hash = 5 ∷ 6 ∷ replicate 14 0

abbrev pub second_hash : List ℕ
second_hash = 9 ∷ 1 ∷ replicate 14 0
