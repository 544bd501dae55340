-- ===== src/Search/Program/Reports.antt =====
-- The end of a run: every report is made, and the XML file is a document with every tag closed.
use frag_find.Common.{
  ℕ, ◌+◌, ◌-◌, ◌/◌, ◌%◌, ◌≡◌, ◌≢◌, ◌<◌, ◌≤◌, ◌^◌, ltb, refl, ◌∙◌, Bool, true, false, ◌⊎◌, inl, inr,
  List, [], ◌∷◌, ◌++◌, Option, none, some, done, bind-done, Returns, Bool-cases, leb, ◌==◌, length,
  map, arith,
}
use frag_find.Common.Text.{codes}
use frag_find.Hex.{hex_char, hex_byte, hexdigest_to, hexdigest}
use frag_find.Xml.Writer.{Xml, has_blank}
use frag_find.Xml.Writer.Sequence.{IsTagless}
use frag_find.Xml.Writer.Effects.{
  IsAt, IsDocument-IsAt, Leaves, Leaves-bind, push-Leaves, pop-Leaves, xmlout-Leaves,
  xmlprintf-Leaves, print_u64-IsTagless, is_name-IsName,
}
use frag_find.Xml.Environment.Nested.{
  xmlout_text-Leaves, add_dfxml_build_environment-Leaves, add_dfxml_execution_environment-Leaves,
  IsKnown, IsPlainBuild,
}
use frag_find.Search.FileMap.{FileMap, BlockList, clean}
use frag_find.Search.FileMap.Clean.{length-clean}
use frag_find.Search.BlockFile.{File, BlockFile}
use frag_find.Search.Master.{Master}
use frag_find.Search.Report.{
  Entry, ByteRun, report, all_runs, last_block, extra_loop, extra_runs, print_report,
}
use frag_find.Search.Output.Nested.{write_fileobject-IsDocument}
use frag_find.Search.Program.Finish.{
  About, write_head, report_raw, write_master, report_masters, start_xml,
}

-- No file map is empty where the master file has a part of a block at its end.
abbrev pub IsReportable : ℕ → Master → Type 0
IsReportable blocksize t = (t.file.filesize % blocksize ≡ 0) ⊎ (0 < length t.filemap)

last_block-some :
    (filemap : FileMap) → 0 < length filemap → (r : ℕ × BlockList) × (last_block filemap ≡ some r)
unfolding last_block
last_block-some [] h = absurd (omega arith)
last_block-some (b ∷ []) h = ((0, b), refl)
last_block-some (b ∷ c ∷ bs) h =
    let (r, e) = last_block-some (c ∷ bs) (omega arith) in ((r.0 + 1, r.1), rw e refl)

extra_runs-done :
    (image : File) (master : BlockFile) (filemap : FileMap) (blocksize : ℕ)
    → 0 < blocksize
    → blocksize ≤ 2 ^ 31
    → (master.filesize % blocksize ≡ 0) ⊎ (0 < length filemap)
    → (extra : List ByteRun) × (extra_runs image master filemap blocksize ≡ done extra)
unfolding extra_runs
extra_runs-done image master filemap bs pos narrow h =
    let z : (bs == 0) ≡ false = ground arith in
    elim (Bool-cases (master.filesize % bs == 0)) [
      | inl e ↦ ([], rw (z, e) refl)
      | inr e ↦
          let full : 0 < length filemap = ground arith in
          let (r, q) = last_block-some filemap full in
          let n : ltb (master.filesize % bs) (2 ^ 31) ≡ true = grind arith in
          (extra_loop image master.file bs (master.filesize % bs) r.0 r.1, rw (z, e, n, q) refl)
    ]

-- The report of a master returns, and shows the table of its file map.
pub print_report-done :
    (image : File) (master : BlockFile) (filemap : FileMap) (blocksize : ℕ)
    → 0 < blocksize
    → blocksize ≤ 2 ^ 31
    → (master.filesize % blocksize ≡ 0) ⊎ (0 < length filemap)
    → Returns (print_report image master filemap blocksize) λ r. r.0 ≡ report filemap
unfolding print_report
print_report-done image master filemap bs pos narrow h =
    let (extra, e) = extra_runs-done image master filemap bs pos narrow h in
    ((report filemap, all_runs bs master.filesize (report filemap) ++ extra), rw e refl, refl)

hex_char_quiet : (n : ℕ) → hex_char false n ≢ b'<'
unfolding hex_char
hex_char_quiet n = ground arith

hexdigest_to-IsTagless : (ds : List ℕ) (bufsize : ℕ) → IsTagless (hexdigest_to ds bufsize)
unfolding hexdigest_to hex_byte
hexdigest_to-IsTagless [] bufsize = tt
hexdigest_to-IsTagless (d ∷ ds) bufsize = elim (Bool-cases (leb 3 bufsize)) [
  | inl e ↦
      rw e (
        hex_char_quiet (d / 16),
        (hex_char_quiet (d % 16), hexdigest_to-IsTagless ds (bufsize - 2)),
      )
  | inr e ↦ rw e tt
]

hexdigest-IsTagless : (digest : List ℕ) → IsTagless (hexdigest digest)
unfolding hexdigest
hexdigest-IsTagless digest = hexdigest_to-IsTagless digest 33

write_head-Leaves :
    (x : Xml) (a : About) (image_name : List ℕ) (image : BlockFile) (blocksize : ℕ)
    → IsAt [] x
    → IsPlainBuild a.build
    → IsKnown a.host
    → Leaves (codes "source" ∷ codes "frag_find" ∷ []) (write_head x a image_name image blocksize)
unfolding write_head has_blank
write_head-Leaves x a image_name image blocksize at plain known =
    Leaves-bind _ _ _ _ (push-Leaves [] x _ _ at (is_name-IsName _ refl) refl) λ x at.
      Leaves-bind _ _ _ _ (push-Leaves _ x _ _ at (is_name-IsName _ refl) refl) λ x at.
        Leaves-bind _ _ _ _
          (xmlout-Leaves _ x _ _ [] false at (is_name-IsName _ refl) refl (inr (omega arith)))
          λ x at. Leaves-bind _ _ _ _ (pop-Leaves _ x _ at) λ x at.
            Leaves-bind _ _ _ _ (push-Leaves _ x _ _ at (is_name-IsName _ refl) refl) λ x at.
              Leaves-bind _ _ _ _ (xmlout_text-Leaves _ x at _ _ (is_name-IsName _ refl)) λ x at.
                Leaves-bind _ _ _ _ (xmlout_text-Leaves _ x at _ _ (is_name-IsName _ refl)) λ x at.
                  Leaves-bind _ _ _ _ (add_dfxml_build_environment-Leaves _ x a.build at plain)
                    λ x at.
                      Leaves-bind _ _ _ _
                        (add_dfxml_execution_environment-Leaves _ x a.host a.command_line at known)
                        λ x at. Leaves-bind _ _ _ _ (pop-Leaves _ x _ at) λ x at.
                          Leaves-bind _ _ _ _ (push-Leaves _ x _ _ at (is_name-IsName _ refl) refl)
                            λ x at.
                              Leaves-bind _ _ _ _
                                (xmlout_text-Leaves _ x at _ _ (is_name-IsName _ refl))
                                λ x at.
                                  Leaves-bind _ _ _ _
                                    (xmlprintf-Leaves _ x _ [] _ at (is_name-IsName _ refl) refl
                                      (print_u64-IsTagless image.blocks))
                                    λ x at.
                                      xmlprintf-Leaves _ x _ [] _ at (is_name-IsName _ refl) refl
                                        (print_u64-IsTagless blocksize)

-- The XML file, if there is one, is a document with these tags open.
abbrev pub IsOpen : List (List ℕ) → Option Xml → Type 0
IsOpen open_tags none = Unit
IsOpen open_tags (some x) = IsAt open_tags x

-- Is there an XML file?
abbrev pub present : Option Xml → Bool
present none = false
present (some x) = true

-- There is one as before, and it is a document with these tags open.
abbrev pub StaysOpen : List (List ℕ) → Option Xml → Option Xml → Type 0
StaysOpen open_tags x x' = IsOpen open_tags x' × (present x' ≡ present x)

write_master-IsOpen :
    (open_tags : List (List ℕ)) (x : Option Xml) (filename : List ℕ) (t : Master)
    (runs : List ByteRun)
    → IsOpen open_tags x
    → Returns (write_master x filename t runs) (StaysOpen open_tags x)
unfolding write_master
write_master-IsOpen open_tags none filename t runs at = (none, refl, (tt, refl))
write_master-IsOpen open_tags (some x) filename t runs at =
    let (x', run, (d, e)) =
      write_fileobject-IsDocument x filename t.file.blocks t.file.filesize (hexdigest t.md5) runs
        at.document (hexdigest-IsTagless t.md5) in
    (some x', bind-done _ run refl, (IsDocument-IsAt open_tags x' d (e ∙ at.stack), refl))

report_raw-done :
    (opt_raw : Bool) (image : File) (t : Master) (blocksize : ℕ)
    → 0 < blocksize
    → blocksize ≤ 2 ^ 31
    → IsReportable blocksize t
    → (table : List Entry) × (report_raw opt_raw image t blocksize ≡ done table)
unfolding report_raw
report_raw-done false image t bs pos narrow h = ([], refl)
report_raw-done true image t bs pos narrow h =
    let (r, run, e) = print_report-done image t.file t.filemap bs pos narrow h in
    (r.0, bind-done _ run refl)

clean-IsReportable :
    (bs : ℕ) (t : Master)
    → IsReportable bs t
    → (t.file.filesize % bs ≡ 0) ⊎ (0 < length (clean t.filemap))
clean-IsReportable bs t (inl e) = inl e
clean-IsReportable bs t (inr h) = inr (omega (arith, length-clean t.filemap))

-- The table of a master is that of its cleaned file map.
abbrev pub table_of : Master → List Entry
table_of t = report (clean t.filemap)

abbrev pub ReportableAll : ℕ → List (List ℕ × Master) → Type 0
ReportableAll blocksize [] = Unit
ReportableAll blocksize ((filename, t) ∷ masters) =
    IsReportable blocksize t × ReportableAll blocksize masters

pub report_masters-IsOpen :
    (opt_raw : Bool) (image : File) (blocksize : ℕ) (open_tags : List (List ℕ)) (x : Option Xml)
    (masters : List (List ℕ × Master))
    → 0 < blocksize
    → blocksize ≤ 2 ^ 31
    → IsOpen open_tags x
    → ReportableAll blocksize masters
    → Returns
        (report_masters opt_raw image blocksize x masters)
        λ r. StaysOpen open_tags x r.0 × (r.1 ≡ map (λ (m : List ℕ × Master). table_of m.1) masters)
unfolding report_masters
report_masters-IsOpen opt_raw image bs open_tags x [] pos narrow at all =
    ((x, []), refl, ((at, refl), refl))
report_masters-IsOpen opt_raw image bs open_tags x ((filename, t) ∷ masters) pos narrow at
      (h, all) =
    let (raw, run₀) = report_raw-done opt_raw image t bs pos narrow h in
    let (r, run₁, e) =
      print_report-done image t.file (clean t.filemap) bs pos narrow (clean-IsReportable bs t h) in
    let (x', run₂, (at', same)) = write_master-IsOpen open_tags x filename t r.1 at in
    let (rest, run₃, ((at'', same'), q)) =
      report_masters-IsOpen opt_raw image bs open_tags x' masters pos narrow at' all in
    (
      (rest.0, r.0 ∷ rest.1),
      bind-done _ run₀ (bind-done _ run₁ (bind-done _ run₂ (bind-done _ run₃ refl))),
      ((at'', same' ∙ same), rw (e, q) refl),
    )

pub start_xml-IsOpen :
    (x : Option Xml) (a : About) (image_name : List ℕ) (image : BlockFile) (blocksize : ℕ)
    → IsOpen [] x
    → IsPlainBuild a.build
    → IsKnown a.host
    → Returns
        (start_xml x a image_name image blocksize)
        (StaysOpen (codes "source" ∷ codes "frag_find" ∷ []) x)
unfolding start_xml
start_xml-IsOpen none a image_name image bs at plain known = (none, refl, (tt, refl))
start_xml-IsOpen (some x) a image_name image bs at plain known =
    let (x', run, at') = write_head-Leaves x a image_name image bs at plain known in
    (some x', bind-done _ run refl, (at', refl))
