-- ===== src/Search/Output.antt =====
-- The element `fileobject` of the XML report: the end of `main` of frag_find.cpp for one master file, with
-- the elements `run` of `masterfile::print_report`. Lengths are taken to be below 2 ^ 63.
pub mod Nested
use frag_find.Common.{
  ℕ, ◌-◌, ◌^◌, true, false, List, [], ◌∷◌, ◌++◌, some, Run, done, ◌>>=◌, ltb, if◌then◌else◌,
}
use frag_find.Common.Text.{codes, print_u64}
use frag_find.Xml.Writer.{Xml, push, pop, xmlout, xmlprintf}
use frag_find.Search.Report.{ByteRun}

-- `%PRId64` of the pattern of an `int64_t`.
unfoldable pub print_i64 : ℕ → List ℕ
print_i64 n = if ltb n (2 ^ 63) then print_u64 n else b'-' ∷ print_u64 (2 ^ 64 - n)

unfoldable pub run_attribute : ByteRun → List ℕ
unfolding print_i64
run_attribute r =
    codes "file_offset='"
    ++ (print_i64 r.file_offset
        ++ (codes "' img_offset='"
            ++ (print_i64 r.img_offset ++ (codes "' len='" ++ (print_i64 r.len ++ codes "'")))))

unfoldable pub write_runs : Xml → List ByteRun → Run Xml
unfolding run_attribute
write_runs x [] = done x
write_runs x (r ∷ rs) = xmlout x (codes "run") [] (run_attribute r) false >>= λ x'. write_runs x' rs

-- With the name, the blocks, the size and the digest of the master file, and its runs.
unfoldable pub write_fileobject : Xml → List ℕ → ℕ → ℕ → List ℕ → List ByteRun → Run Xml
unfolding write_runs
write_fileobject x filename blocks filesize md5hex runs = do
  x₁ ← push x (codes "fileobject") []
  x₂ ← xmlout x₁ (codes "filename") filename [] true
  x₃ ← xmlprintf x₂ (codes "blocks") [] (some (print_u64 blocks))
  x₄ ← xmlprintf x₃ (codes "filesize") [] (some (print_u64 filesize))
  x₅ ← xmlout x₄ (codes "hashdigest") md5hex (codes "type='md5'") false
  x₆ ← write_runs x₅ runs
  pop x₆
