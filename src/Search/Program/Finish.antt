-- ===== src/Search/Program/Finish.antt =====
-- `main` of frag_find.cpp after the scan: the report of each master file, and the XML file.
use frag_find.Common.{
  ℕ, Bool, true, false, List, [], ◌∷◌, Option, none, some, Run, done, fault, out_of_bounds, ◌>>=◌,
  if◌then◌else◌,
}
use frag_find.Common.Text.{codes, print_u64}
use frag_find.Hex.{hexdigest}
use frag_find.Xml.Writer.{Xml, push, pop, xmlout, xmlprintf}
use frag_find.Xml.Close.{close}
use frag_find.Xml.Environment.{xmlout_text}
use frag_find.Xml.Environment.Built.{Build, add_dfxml_build_environment}
use frag_find.Xml.Environment.Hosted.{Host, add_dfxml_execution_environment}
use frag_find.Search.FileMap.{clean}
use frag_find.Search.BlockFile.{File, BlockFile}
use frag_find.Search.Master.{Master}
use frag_find.Search.Report.{Entry, ByteRun, print_report}
use frag_find.Search.Output.{write_fileobject}

-- What the program is told about itself: PACKAGE_VERSION, the build, the host, the command line.
pub record About : Type 0 where
  pub version : List ℕ
  pub build : Build
  pub host : Host
  pub command_line : List ℕ

-- From `x->push("frag_find",...)` to the properties of the image.
unfoldable pub write_head : Xml → About → List ℕ → BlockFile → ℕ → Run Xml
write_head x a image_name image blocksize = do
  x ← push x (codes "frag_find") (codes "xmloutputversion='0.3'")
  x ← push x (codes "metadata") (
      codes
        "\n  xmlns='http://afflib.org/frag_find/' \n  xmlns:xsi='http://www.w3.org/2001/XMLSchema-instance' \n  xmlns:dc='http://purl.org/dc/elements/1.1/'")
  x ← xmlout x (codes "dc:type") (codes "Hash-Based Carving Report") [] false
  x ← pop x
  x ← push x (codes "creator") []
  x ← xmlout_text x (codes "program") (codes "frag_find")
  x ← xmlout_text x (codes "version") a.version
  x ← add_dfxml_build_environment x a.build
  x ← add_dfxml_execution_environment x a.host a.command_line
  x ← pop x
  x ← push x (codes "source") []
  x ← xmlout_text x (codes "image_filename") image_name
  x ← xmlprintf x (codes "blocks") [] (some (print_u64 image.blocks))
  xmlprintf x (codes "blocksize") [] (some (print_u64 blocksize))

-- With `-r` the report of the file map before it is cleaned.
unfoldable pub report_raw : Bool → File → Master → ℕ → Run (List Entry)
report_raw opt_raw image t blocksize =
    if opt_raw then (print_report image t.file t.filemap blocksize >>= λ r. done r.0) else done []

-- The element of a master file, if there is an XML file.
unfoldable pub write_master : Option Xml → List ℕ → Master → List ByteRun → Run (Option Xml)
write_master none filename t runs = done none
write_master (some x) filename t runs = do
  x ← write_fileobject x filename t.file.blocks t.file.filesize (hexdigest t.md5) runs
  done (some x)

-- The masters in turn, with their names; the lines of each table.
unfoldable pub report_masters :
    Bool → File → ℕ → Option Xml → List (List ℕ × Master) → Run (Option Xml × List (List Entry))
report_masters opt_raw image blocksize x [] = done (x, [])
report_masters opt_raw image blocksize x ((filename, t) ∷ masters) = do
  raw ← report_raw opt_raw image t blocksize
  (table, runs) ← print_report image t.file (clean t.filemap) blocksize
  x ← write_master x filename t runs
  (x, tables) ← report_masters opt_raw image blocksize x masters
  done (x, table ∷ tables)

unfoldable pub start_xml : Option Xml → About → List ℕ → BlockFile → ℕ → Run (Option Xml)
start_xml none a image_name image blocksize = done none
start_xml (some x) a image_name image blocksize =
    write_head x a image_name image blocksize >>= λ x. done (some x)

unfoldable pub end_xml : Option Xml → Run (Option Xml)
end_xml none = done none
end_xml (some x) = do x ← pop x; x ← pop x; x ← close x none true; done (some x)

-- `masters[0]->blocksize` is the block size that is shown.
unfoldable pub finish :
    Bool
    → About
    → List ℕ
    → BlockFile
    → ℕ
    → Option Xml
    → List (List ℕ × Master)
    → Run (Option Xml × List (List Entry))
finish opt_raw a image_name image blocksize x [] = fault out_of_bounds
finish opt_raw a image_name image blocksize x ((filename, t) ∷ masters) = do
  x ← start_xml x a image_name image t.file.blocksize
  (x, tables) ← report_masters opt_raw image.file blocksize x ((filename, t) ∷ masters)
  x ← end_xml x
  done (x, tables)
