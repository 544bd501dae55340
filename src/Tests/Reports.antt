-- ===== src/Tests/Reports.antt =====
-- Examples for the report, for filters that are opened again, and for the hashes of hash_t.h.
use frag_find.Common.{
  ℕ, ◌%◌, ◌^◌, ◌≡◌, refl, true, inl, List, [], ◌∷◌, ◌++◌, done, exited, fault, assertion, ◌>>=◌,
  Returns, length, replicate, All-replicate, length-replicate, ◌<◌, arith,
}
use frag_find.Common.Text.{print_u64}
use frag_find.Bloom.Types.{blank}
use frag_find.Bloom.Header.{info_text}
use frag_find.Bloom.Create.{write}
use frag_find.Bloom.Open.{reopen}
use frag_find.Bloom.Open.Trip.{IsFilable, Restores, reopen-Restores}
use frag_find.Search.FileMap.{FileMap, contains, runlen}
use frag_find.Search.Report.{report_from, run, single, report, all_runs}
use frag_find.Search.Report.Runs.{Reported, report-Reported}
use frag_find.Search.Report.Bytes.{exact_runs, report-exact_runs}
use frag_find.Hash.{Generator, new_generator, update, final, fromhex, hexdigest}
use frag_find.Hash.Digests.{
  update_all, concat, final-update_all, final_once, fromhex-hexdigest_sized,
}
use frag_find.Tests.Data.{env, filter}

-- Two blocks in a row, a block that is not found, and one that is found twice.
abbrev filemap : FileMap
filemap = (7 ∷ []) ∷ (8 ∷ []) ∷ [] ∷ (3 ∷ 9 ∷ []) ∷ []

report-filemap : report filemap ≡ run 0 7 2 ∷ single 3 (3 ∷ 9 ∷ []) ∷ []
unfolding report runlen report_from contains
report-filemap = refl

report-Reported_example : Reported filemap 0 (report filemap)
report-Reported_example = report-Reported filemap

-- The master file ends inside its last block.
report-exact_runs_example :
    all_runs 512 2000 (report filemap) ≡ exact_runs 512 2000 (report filemap)
report-exact_runs_example =
    report-exact_runs filemap 512 2000 (omega arith) (omega arith) (omega arith)

filter-short : length (info_text filter []) ≡ 108
unfolding info_text print_u64
filter-short = refl

filter-IsFilable : IsFilable filter
filter-IsFilable = record {
  valid = record {
    bits = 0 ∷ [];
    note = [];
    held = refl;
    commented = refl;
    room = refl;
    sized = refl;
    bytes = (omega arith, tt);
    wide = omega arith;
    reads = omega arith;
    word = omega arith;
  };
  fits = record {
    hash = omega arith;
    m = omega arith;
    k = omega arith;
    added = omega arith;
    unique = omega arith;
    aliased = omega arith;
  };
  plain = tt;
  short = omega (arith, filter-short);
  size = inl refl;
  few = omega arith;
  some_k = omega arith;
}

reopen-Restores_example :
    Returns
      (write env filter (98 ∷ []) >>= λ w. reopen env 4 blank w.1)
      λ r. (r.1 ≡ true) × Restores filter r.0
reopen-Restores_example =
    reopen-Restores env filter filter-IsFilable 4 blank refl 3 (98 ∷ []) (λ n. refl) (omega arith)
      refl refl

-- In place of a digest: the bytes themselves.
abbrev same : List ℕ → List ℕ
same bytes = bytes

final-update_all_example :
    (update_all new_generator ((1 ∷ 2 ∷ []) ∷ (3 ∷ []) ∷ []) >>= λ g. final same g)
    ≡ done (
      record {
        fed = (1 ∷ 2 ∷ []) ++ concat ((3 ∷ []) ∷ []);
        initialized = true;
        finalized = true;
        hashed_bytes = length ((1 ∷ 2 ∷ []) ++ concat ((3 ∷ []) ∷ [])) % 2 ^ 64;
      },
      same ((1 ∷ 2 ∷ []) ++ concat ((3 ∷ []) ∷ [])),
    )
final-update_all_example = final-update_all same (1 ∷ 2 ∷ []) ((3 ∷ []) ∷ [])

abbrev ended : Generator
ended = record new_generator { initialized = true; finalized = true }

final-new_generator : final same new_generator ≡ done (ended, [])
unfolding final
final-new_generator = refl

final_once_example : (update ended (1 ∷ []) ≡ exited 1) × (final same ended ≡ fault assertion)
final_once_example = final_once same new_generator ended [] (1 ∷ []) final-new_generator

fromhex-hexdigest_sized_example :
    fromhex 20 (hexdigest 20 (replicate 20 171)) ≡ done (replicate 20 171)
fromhex-hexdigest_sized_example =
    fromhex-hexdigest_sized 20 (replicate 20 171)
      (All-replicate (λ b. b < 256) 20 171 (omega arith)) (length-replicate {A = ℕ} 20 171)
