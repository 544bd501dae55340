-- ===== src/Search/BlockFile/Blocks.antt =====
-- Whole blocks: what `getblock` reads of a file whose size the kernel gives truly.
use frag_find.Common.{
  ℕ, ◌+◌, ◌*◌, ◌/◌, ◌%◌, ◌^◌, ◌≤◌, ◌<◌, ◌≡◌, refl, ap, true, false, List, [], ◌∷◌, ◌++◌, some,
  length, take, drop, length-take, length-drop, arith, done, ◌==◌,
}
use frag_find.Search.BlockFile.{File, BlockFile, read_at, getblock, open_blocks, set_sizes}

-- An open regular file: its sizes are those of its contents, and no read fails.
pub record IsWhole (b : BlockFile) : Type 0 where
  pub size : b.filesize ≡ length b.file.contents
  pub count : b.blocks ≡ b.filesize / b.blocksize
  pub step : 0 < b.blocksize
  pub small : b.filesize < 2 ^ 63
  pub reads : (pos : ℕ) → b.file.read_fails pos ≡ false

-- The nth block of the contents.
unfoldable pub block : BlockFile → ℕ → List ℕ
block b n = take b.blocksize (drop (n * b.blocksize) b.file.contents)

append-nil_of : (xs ys : List ℕ) → length ys ≡ 0 → xs ++ ys ≡ xs
append-nil_of [] [] e = refl
append-nil_of [] (y ∷ ys) e = absurd (omega arith)
append-nil_of (x ∷ xs) ys e = ap (λ (t : List ℕ). x ∷ t) (append-nil_of xs ys e)

pub div_bound : (n k q : ℕ) → 0 < k → n < q / k → n * k + k ≤ q
div_bound n k q pos h = grind arith

pub length-block :
    (b : BlockFile) (n : ℕ) → IsWhole b → n < b.blocks → length (block b n) ≡ b.blocksize
unfolding block
length-block b n w h =
    let room = div_bound n b.blocksize b.filesize w.step (omega (arith, w.count)) in
    rw
      (
        length-take b.blocksize (drop (n * b.blocksize) b.file.contents),
        length-drop (n * b.blocksize) b.file.contents,
      )
      (omega (arith, w.size))

-- On an open file of which every read succeeds and whose sizes are those of its contents, reading
-- a block below the number of blocks into a buffer of the block size succeeds and leaves exactly
-- that block of the contents in the buffer.
pub getblock-block :
    (b : BlockFile) (n : ℕ) (buf : List ℕ)
    → IsWhole b
    → n < b.blocks
    → length buf ≡ b.blocksize
    → getblock b n buf ≡ some (block b n)
unfolding getblock read_at block
getblock-block b n buf w h full =
    let room = div_bound n b.blocksize b.filesize w.step (omega (arith, w.count)) in
    let e : n * b.blocksize % 2 ^ 64 ≡ n * b.blocksize = omega (arith, w.small) in
    let l = length-block b n w h in
    rw (e, w.reads (n * b.blocksize))
      (ap some (
        append-nil_of _
          (drop (length (take b.blocksize (drop (n * b.blocksize) b.file.contents))) buf)
          (rw (length-drop (length (take b.blocksize (drop (n * b.blocksize) b.file.contents))) buf)
            (omega (arith, l)))))

-- A regular file that can be read.
pub record IsRegular (f : File) : Type 0 where
  pub stat : f.fstat_ok ≡ true
  pub regular : f.is_device ≡ false
  pub size : f.st_size ≡ length f.contents
  pub small : f.st_size < 2 ^ 63
  pub reads : (pos : ℕ) → f.read_fails pos ≡ false

-- Opening a readable regular file with a block size above 0 and below 2^32 succeeds, keeps the
-- block size, and sets the size and the number of whole blocks from the contents.
pub open_blocks-IsWhole :
    (f : File) (blocksize : ℕ)
    → IsRegular f
    → 0 < blocksize
    → blocksize < 2 ^ 32
    → (b : BlockFile) × (open_blocks (some f) blocksize ≡ done (some b))
      × (IsWhole b × (b.blocksize ≡ blocksize) × (b.file ≡ f) × (b.filesize ≡ f.st_size))
unfolding open_blocks set_sizes
open_blocks-IsWhole f blocksize r pos word =
    let e : blocksize % 2 ^ 32 ≡ blocksize = omega arith in
    let n : (blocksize == 0) ≡ false = ground arith in
    (
      record {
        file = f;
        blocksize = blocksize;
        filesize = f.st_size;
        blocks = f.st_size / blocksize;
      },
      rw (r.stat, e, n) (ground (arith, r.regular)),
      (
        record { size = r.size; count = refl; step = pos; small = r.small; reads = r.reads },
        refl,
        refl,
        refl,
      ),
    )
