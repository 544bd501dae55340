-- ===== src/Tests/Maps.antt =====
-- Examples for file maps, digests and block files.
use frag_find.Common.{ℕ, ◌+◌, ◌≡◌, refl, [], ◌∷◌, arith, drop, length-replicate}
use frag_find.Search.FileMap.{FileMap, clean, found_count, runlen, contains}
use frag_find.Search.FileMap.Clean.{
  NarrowsAll, Continues, singles, clean-NarrowsAll, clean-run, found_count-clean,
}
use frag_find.Search.FileMap.Runs.{IsRun, runlen-IsRun}
use frag_find.Search.BlockFile.Blocks.{block}
use frag_find.Search.Master.{Md5Map}
use frag_find.Search.Master.Positions.{IsDigest, HasDigests}
use frag_find.Tests.Data.{image, first_hash}

-- Found at 5, then at 6 or 40, then at 7 or 2 or 9.
abbrev ambiguous : FileMap
ambiguous = (5 ∷ []) ∷ (40 ∷ 6 ∷ []) ∷ (2 ∷ 7 ∷ 9 ∷ []) ∷ []

clean-ambiguous : clean ambiguous ≡ (5 ∷ []) ∷ (6 ∷ []) ∷ (7 ∷ []) ∷ []
unfolding clean contains
clean-ambiguous = refl

clean_backwards : clean ((4 ∷ 10 ∷ []) ∷ (5 ∷ []) ∷ []) ≡ (4 ∷ []) ∷ (5 ∷ []) ∷ []
unfolding clean contains
clean_backwards = refl

clean-NarrowsAll_example : NarrowsAll ambiguous (clean ambiguous)
clean-NarrowsAll_example = clean-NarrowsAll ambiguous

found_count-clean_example : found_count (clean ambiguous) ≡ found_count ambiguous
found_count-clean_example = found_count-clean ambiguous

ambiguous-Continues : Continues 5 ((40 ∷ 6 ∷ []) ∷ (2 ∷ 7 ∷ 9 ∷ []) ∷ [])
unfolding contains
ambiguous-Continues = (refl, (refl, tt))

clean-run_example : clean ((5 ∷ []) ∷ (40 ∷ 6 ∷ []) ∷ (2 ∷ 7 ∷ 9 ∷ []) ∷ []) ≡ singles 5 3
clean-run_example =
    clean-run 5 ((40 ∷ 6 ∷ []) ∷ (2 ∷ 7 ∷ 9 ∷ []) ∷ []) (omega arith) ambiguous-Continues

runlen-ambiguous : runlen ambiguous 0 5 ≡ 3
unfolding runlen contains
runlen-ambiguous = refl

runlen-IsRun_example : (n : ℕ) × (runlen ambiguous 0 5 ≡ 1 + n) × IsRun (drop 1 ambiguous) 6 n
runlen-IsRun_example = runlen-IsRun ambiguous 0 5

block_second : block image 1 ≡ 5 ∷ 6 ∷ 7 ∷ 8 ∷ []
unfolding block
block_second = refl

abbrev one_key : Md5Map
one_key = (first_hash, 3 ∷ []) ∷ []

one_key-HasDigests : HasDigests one_key
one_key-HasDigests = (first_hash-IsDigest, tt)
  where
    first_hash-IsDigest : IsDigest first_hash
    first_hash-IsDigest = omega (arith, length-replicate {A = ℕ} 14 0)
