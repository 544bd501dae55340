-- ===== src/Search/BlockFile.antt =====
-- `class blockfile` of src/blockfile.h, in its build for Linux with BLKGETSIZE64.
pub mod Blocks
use frag_find.Common.{
  ℕ, ◌+◌, ◌*◌, ◌/◌, ◌%◌, ◌^◌, Bool, true, false, ◌&&◌, List, [], ◌++◌, Option, none, some, Run,
  done, fault, division_by_zero, length, take, drop, ◌==◌, if◌then◌else◌, min,
}

-- What the kernel knows of an open file.
pub record File : Type 0 where
  -- does `fstat` succeed?
  pub fstat_ok : Bool
  pub st_size : ℕ
  -- is it a block or character device?
  pub is_device : Bool
  -- the answer of `ioctl(BLKGETSIZE64)`, if it succeeds
  pub device_size : Option ℕ
  -- the bytes that `read` and `mmap` see
  pub contents : List ℕ
  -- does a `read` at this offset fail?
  pub read_fails : ℕ → Bool

pub record BlockFile : Type 0 where
  pub file : File
  pub blocksize : ℕ
  pub filesize : ℕ
  pub blocks : ℕ

-- `total_bytes` after the `ioctl`
total_bytes : Option ℕ → ℕ
total_bytes none = 0
total_bytes (some n) = n

-- The sizes that `open` sets, with those of a device whose `st_size` is 0.
unfoldable pub set_sizes : File → ℕ → BlockFile
unfolding total_bytes
set_sizes f blocksize =
    if f.st_size == 0 && f.is_device
    then record {
      file = f;
      blocksize = blocksize;
      filesize = total_bytes f.device_size;
      blocks = total_bytes f.device_size / 512;
    }
    else record {
      file = f;
      blocksize = blocksize;
      filesize = f.st_size;
      blocks = f.st_size / blocksize;
    }

-- `open`; the first argument is what `::open` gives, and `none` stands for a negative result.
unfoldable pub open_blocks : Option File → ℕ → Run (Option BlockFile)
unfolding set_sizes
open_blocks none blocksize = done none
open_blocks (some f) blocksize =
    if f.fstat_ok
    then (if blocksize % 2 ^ 32 == 0
        then fault division_by_zero
        else done (some (set_sizes f (blocksize % 2 ^ 32))))
    else done none

-- `read` of up to `n` bytes at `pos` into `buf`: the bytes of `buf` past those read stay.
unfoldable pub read_at : File → ℕ → ℕ → List ℕ → Option (List ℕ)
read_at f pos n buf =
    if f.read_fails pos
    then none
    else let got = take n (drop pos f.contents) in some (got ++ drop (length got) buf)

-- `getblock`: the buffer after it, or `none` when the result is negative.
unfoldable pub getblock : BlockFile → ℕ → List ℕ → Option (List ℕ)
unfolding read_at
getblock b blocknumber buf = read_at b.file (blocknumber * b.blocksize % 2 ^ 64) b.blocksize buf
