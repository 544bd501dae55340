-- ===== src/Hash/Md5.antt =====
-- `md5_generator` of src/md5.h. The parameter `md5` is the digest that MD5Init, MD5Update and MD5Final give
-- for all the bytes that were passed.
use frag_find.Common.{
  ℕ, ◌==◌, ◌≡◌, refl, Bool, true, false, List, [], ◌++◌, Option, none, some, Run, done, fault,
  assertion, out_of_bounds, ◌>>=◌, if◌then◌else◌,
}
use frag_find.Search.BlockFile.{File}

pub record Md5Generator : Type 0 where
  pub fed : List ℕ
  pub finalized : Bool

abbrev pub new_md5 : Md5Generator
new_md5 = record { fed = []; finalized = false }

unfoldable pub update : Md5Generator → List ℕ → Run Md5Generator
update g buf = if g.finalized then fault assertion else done (record g { fed = g.fed ++ buf })

module _ (md5 : List ℕ → List ℕ) where
  unfoldable pub final : Md5Generator → Run (Md5Generator × List ℕ)
  final g = if g.finalized then fault assertion else done (record g { finalized = true }, md5 g.fed)

  unfoldable pub hash_buf : List ℕ → Run (List ℕ)
  unfolding update final
  hash_buf buf = do g ← update new_md5 buf; (g, digest) ← final g; done digest

  -- With what `open` gives, and the bytes at the address that `mmap` gives for the file and a length; `none` stands for
  -- MAP_FAILED, which the code takes for an address. The result `none` is a throw.
  unfoldable pub hash_file : Option File → (File → ℕ → Option (List ℕ)) → Run (Option (List ℕ))
  unfolding hash_buf
  hash_file none mmap = done none
  hash_file (some f) mmap =
      if f.fstat_ok
      then elim (mmap f f.st_size) [
        | some buf ↦ hash_buf buf >>= λ digest. done (some digest)
        | none ↦
            if f.st_size == 0
            then (hash_buf [] >>= λ digest. done (some digest))
            else fault out_of_bounds
      ]
      else done none

  -- A readable file whose contents `mmap` gives is hashed.
  pub hash_file-done :
      (f : File) (mmap : File → ℕ → Option (List ℕ))
      → f.fstat_ok ≡ true
      → mmap f f.st_size ≡ some f.contents
      → hash_file (some f) mmap ≡ done (some (md5 f.contents))
  unfolding hash_file hash_buf update final
  hash_file-done f mmap stat maps = rw (maps, stat) refl
