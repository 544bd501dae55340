-- ===== src/Search/Report.antt =====
-- `masterfile::print_report` of frag_find.cpp: what it prints, as data, and the runs that it gives to
-- the XML file. `calloc` is taken to succeed; a remainder above the largest `int` is a fault.
pub mod Runs
pub mod Bytes
use frag_find.Common.{
  ℕ, zero, suc, ◌+◌, ◌-◌, ◌*◌, ◌/◌, ◌%◌, ◌^◌, Bool, true, false, ◌&&◌, List, [], ◌∷◌, ◌++◌, Option,
  none, some, Run, done, fault, out_of_bounds, overflow, division_by_zero, ◌>>=◌, length, take,
  drop, get_elem?, ltb, ◌==◌, if◌then◌else◌,
}
use frag_find.Search.FileMap.{BlockList, FileMap, runlen}
use frag_find.Search.Digest.{memcmp_eq}
use frag_find.Search.BlockFile.{File, BlockFile}

-- A line of the table: a run of blocks, or one block with all of its places.
pub data Entry : Type 0 where
  run : ℕ → ℕ → ℕ → Entry
  single : ℕ → BlockList → Entry

-- An element `run` of the XML file.
pub record ByteRun : Type 0 where
  pub file_offset : ℕ
  pub img_offset : ℕ
  pub len : ℕ

-- The loop from block `tb` on, with `fuel` rounds.
unfoldable pub report_from : ℕ → FileMap → ℕ → List Entry
report_from zero filemap tb = []
report_from (suc fuel) filemap tb = elim (get_elem? filemap tb) [
  | none ↦ []
  | some blocks ↦ elim blocks [
    | [] ↦ report_from fuel filemap (tb + 1)
    | first_ib ∷ more ↦
        let run_blocks = runlen filemap tb first_ib in
        let after_run = run tb first_ib run_blocks ∷ report_from fuel filemap (tb + run_blocks) in
        let after_one = single tb (first_ib ∷ more) ∷ report_from fuel filemap (tb + 1) in
        if ltb 1 run_blocks then after_run else after_one
  ]
]

unfoldable pub report : FileMap → List Entry
report filemap = report_from (length filemap) filemap 0

-- `run_bytes`, cut to the length of the file.
unfoldable pub run_bytes : ℕ → ℕ → ℕ → ℕ → ℕ
run_bytes blocksize filesize tb run_blocks =
    let bytes = run_blocks * blocksize % 2 ^ 64 in
    if ltb filesize ((tb * blocksize + bytes) % 2 ^ 64)
    then (filesize + 2 ^ 64 - tb * blocksize % 2 ^ 64) % 2 ^ 64
    else bytes

unfoldable pub byte_run : ℕ → ℕ → ℕ → ℕ → ByteRun
byte_run blocksize tb ib bytes = record {
  file_offset = tb * blocksize % 2 ^ 64;
  img_offset = ib * blocksize % 2 ^ 64;
  len = bytes;
}

unfoldable pub byte_runs_of : ℕ → ℕ → BlockList → ℕ → List ByteRun
byte_runs_of blocksize tb [] bytes = []
byte_runs_of blocksize tb (i ∷ is) bytes =
    byte_run blocksize tb i bytes ∷ byte_runs_of blocksize tb is bytes

unfoldable pub entry_runs : ℕ → ℕ → Entry → List ByteRun
unfolding byte_run byte_runs_of run_bytes
entry_runs blocksize filesize (run tb ib n) =
    byte_run blocksize tb ib (run_bytes blocksize filesize tb n) ∷ []
entry_runs blocksize filesize (single tb blocks) =
    byte_runs_of blocksize tb blocks (run_bytes blocksize filesize tb 1)

unfoldable pub all_runs : ℕ → ℕ → List Entry → List ByteRun
all_runs blocksize filesize [] = []
all_runs blocksize filesize (e ∷ es) =
    entry_runs blocksize filesize e ++ all_runs blocksize filesize es

-- `pread`: the bytes that it reads, or `none` when it fails.
unfoldable pub pread : File → ℕ → ℕ → Option (List ℕ)
pread f n pos = if f.read_fails pos then none else some (take n (drop pos f.contents))

-- Do the partial blocks after a block of the image and after the last block of the master match?
unfoldable pub extra_match : File → File → ℕ → ℕ → ℕ → Bool
extra_match image master extra ipos tpos = elim (pread image extra ipos) [
  | none ↦ false
  | some ibytes ↦ elim (pread master extra tpos) [
    | none ↦ false
    | some tbytes ↦ length tbytes == extra && (length ibytes == extra && memcmp_eq tbytes ibytes)
  ]
]

-- The loop over the places of the last block, which ends at the first match.
unfoldable pub extra_loop : File → File → ℕ → ℕ → ℕ → BlockList → List ByteRun
extra_loop image master blocksize extra last [] = []
extra_loop image master blocksize extra last (i ∷ is) =
    let rest = extra_loop image master blocksize extra last is in
    let ipos = (i + 1) * blocksize % 2 ^ 64 in
    let tpos = (last + 1) * blocksize % 2 ^ 64 in
    if extra_match image master extra ipos tpos
    then record { file_offset = tpos; img_offset = ipos; len = extra } ∷ []
    else rest

-- `filemap.back()`, with its number.
unfoldable pub last_block : FileMap → Option (ℕ × BlockList)
last_block [] = none
last_block (b ∷ []) = some (0, b)
last_block (b ∷ c ∷ bs) = elim (last_block (c ∷ bs)) [ none ↦ none | some (n, l) ↦ some (n + 1, l) ]

-- The file sizes are unsigned, and `extra_bytes` is an `int`: a remainder of 2 ^ 31 or more does not fit.
unfoldable pub extra_runs : File → BlockFile → FileMap → ℕ → Run (List ByteRun)
extra_runs image master filemap blocksize =
    let extra = master.filesize % blocksize in
    if blocksize == 0
    then fault division_by_zero
    else (if extra == 0
        then done []
        else (if ltb extra (2 ^ 31)
            then elim (last_block filemap) [
              | none ↦ fault out_of_bounds
              | some (last, blocks) ↦
                  done (extra_loop image master.file blocksize extra last blocks)
            ]
            else fault overflow))

-- The table, and the runs of the XML file.
unfoldable pub print_report : File → BlockFile → FileMap → ℕ → Run (List Entry × List ByteRun)
print_report image master filemap blocksize = extra_runs image master filemap blocksize >>= λ extra.
    done (report filemap, all_runs blocksize master.filesize (report filemap) ++ extra)
