-- ===== src/Search/Report/Bytes.antt =====
-- The byte runs of the lines of the table, and the cut at the end of the master file.
use frag_find.Common.{
  ℕ, ◌+◌, ◌-◌, ◌*◌, ◌%◌, ◌^◌, ◌≤◌, ◌<◌, ◌≡◌, refl, List, [], ◌∷◌, ◌++◌, map, length, ltb,
  Bool-cases, inl, inr, arith, min,
}
use frag_find.Search.FileMap.{BlockList, FileMap}
use frag_find.Search.Report.{
  Entry, run, single, ByteRun, report, run_bytes, byte_run, byte_runs_of, entry_runs, all_runs,
}
use frag_find.Search.Report.Runs.{Reported, over, missing, found_run, found_one, report-Reported}

-- `n` blocks of the master from `tb` on, found in the image from `ib` on: whole blocks as far as the
-- file of `filesize` bytes goes.
abbrev pub exact_run : ℕ → ℕ → ℕ → ℕ → ℕ → ByteRun
exact_run blocksize filesize tb n ib = record {
  file_offset = tb * blocksize;
  img_offset = ib * blocksize % 2 ^ 64;
  len = min (n * blocksize) (filesize - tb * blocksize);
}

-- The byte runs of the lines of a table: one for a run, and one for each place of a single block.
pub exact_runs : ℕ → ℕ → List Entry → List ByteRun
exact_runs blocksize filesize [] = []
exact_runs blocksize filesize (run tb ib n ∷ es) =
    exact_run blocksize filesize tb n ib ∷ exact_runs blocksize filesize es
exact_runs blocksize filesize (single tb blocks ∷ es) =
    map (exact_run blocksize filesize tb 1) blocks ++ exact_runs blocksize filesize es

-- The end of a block of the map, in bytes.
end_bound : (k n bs : ℕ) → k ≤ n → k * bs ≤ n * bs
end_bound k n bs h = grind arith

run_bytes-min :
    (bs fs tb n : ℕ)
    → fs < 2 ^ 63
    → tb * bs ≤ fs
    → (tb + n) * bs < 2 ^ 63
    → run_bytes bs fs tb n ≡ min (n * bs) (fs - tb * bs)
unfolding run_bytes
run_bytes-min bs fs tb n small starts ends =
    let split : (tb + n) * bs ≡ tb * bs + n * bs = grind arith in
    let whole : n * bs % 2 ^ 64 ≡ n * bs = omega arith in
    let sum : (tb * bs + n * bs) % 2 ^ 64 ≡ tb * bs + n * bs = omega arith in
    elim (Bool-cases (ltb fs (tb * bs + n * bs))) [
      | inl e ↦ rw (whole, sum, e) (ground arith)
      | inr e ↦ rw (whole, sum, e) (ground arith)
    ]

byte_run-exact :
    (bs fs tb n ib : ℕ)
    → tb * bs < 2 ^ 63
    → run_bytes bs fs tb n ≡ min (n * bs) (fs - tb * bs)
    → byte_run bs tb ib (run_bytes bs fs tb n) ≡ exact_run bs fs tb n ib
unfolding byte_run
byte_run-exact bs fs tb n ib word e =
    let z : tb * bs % 2 ^ 64 ≡ tb * bs = omega arith in rw (z, e) refl

byte_runs_of-exact :
    (bs fs tb : ℕ) (blocks : BlockList)
    → tb * bs < 2 ^ 63
    → run_bytes bs fs tb 1 ≡ min (1 * bs) (fs - tb * bs)
    → byte_runs_of bs tb blocks (run_bytes bs fs tb 1) ≡ map (exact_run bs fs tb 1) blocks
unfolding byte_runs_of
byte_runs_of-exact bs fs tb [] word e = refl
byte_runs_of-exact bs fs tb (i ∷ is) word e =
    λ k. byte_run-exact bs fs tb 1 i word e k ∷ byte_runs_of-exact bs fs tb is word e k

module _ (filemap : FileMap) (bs fs : ℕ) (small : fs < 2 ^ 63)
    (starts : length filemap * bs ≤ fs + bs) (word : length filemap * bs < 2 ^ 63) where
  starts_inside : (tb : ℕ) → tb + 1 ≤ length filemap → tb * bs ≤ fs
  starts_inside tb h =
      let next : (tb + 1) * bs ≡ tb * bs + bs = grind arith in
      omega (arith, end_bound (tb + 1) (length filemap) bs h)

  run_bytes-line :
      (tb n : ℕ)
      → 1 ≤ n
      → tb + n ≤ length filemap
      → (run_bytes bs fs tb n ≡ min (n * bs) (fs - tb * bs)) × (tb * bs < 2 ^ 63)
  run_bytes-line tb n one h =
      let inside = starts_inside tb (omega arith) in
      (
        run_bytes-min bs fs tb n small inside
            (omega (arith, end_bound (tb + n) (length filemap) bs h)),
        omega arith,
      )

  all_runs-exact_runs :
      {tb : ℕ} {es : List Entry} → Reported filemap tb es → all_runs bs fs es ≡ exact_runs bs fs es
  unfolding all_runs entry_runs exact_runs
  all_runs-exact_runs (over h) = refl
  all_runs-exact_runs (missing h r) = all_runs-exact_runs r
  all_runs-exact_runs {tb} (found_run ib n more h two found r) =
      let (e, w) = run_bytes-line tb n (omega arith) found.within in
      λ k. byte_run-exact bs fs tb n ib w e k ∷ all_runs-exact_runs r k
  all_runs-exact_runs {tb} (found_one ib more h found r) =
      let (e, w) = run_bytes-line tb 1 (omega arith) found.within in
      λ k. byte_runs_of-exact bs fs tb (ib ∷ more) w e k ++ all_runs-exact_runs r k

-- For a master of less than 2^63 bytes and a file map whose blocks together are less than 2^63
-- bytes and each start at or before the end of the master, the byte runs that the report gives
-- for the lines of its table are exactly these: one for a line of several blocks, and one for
-- each place of a line with one block, at the offset of the first block in the master and, modulo
-- 2^64, in the image, and as long as the blocks of the line, cut where the master ends.
pub report-exact_runs :
    (filemap : FileMap) (blocksize filesize : ℕ)
    → filesize < 2 ^ 63
    → length filemap * blocksize ≤ filesize + blocksize
    → length filemap * blocksize < 2 ^ 63
    → all_runs blocksize filesize (report filemap) ≡ exact_runs blocksize filesize (report filemap)
report-exact_runs filemap blocksize filesize small starts word =
    all_runs-exact_runs filemap blocksize filesize small starts word (report-Reported filemap)
