-- ===== src/Search/Program.antt =====
-- `main` of frag_find.cpp: the options, the scan, and the reports. The library of regular expressions is
-- `engine`, `read_u64` is `atoi64`, and the file system is `opens` for the file of `-x`, `read_text` for
-- that of `-m` and `open_file` for the image and the masters.
pub mod Options
pub mod Finish
pub mod Reports
pub mod Closing
pub mod Whole
use frag_find.Common.{
  ℕ, Bool, ◌||◌, List, [], ◌∷◌, Option, none, some, Run, done, exited, ◌>>=◌, map, ltb,
  if◌then◌else◌,
}
use frag_find.Regex.{Engine, Regex}
use frag_find.Xml.Writer.{Xml}
use frag_find.Search.BlockFile.{File}
use frag_find.Search.Master.{Master, Program}
use frag_find.Search.Scan.{State}
use frag_find.Search.Report.{Entry}
use frag_find.Search.Main
use frag_find.Search.Main.{open_image, carve}
use frag_find.Search.Md5deep.{Piece, new_reg, read_md5deep}
use frag_find.Search.Program.Options.{Settings, defaults, set_options}
use frag_find.Search.Program.Finish.{About, finish}

-- What `main` leaves: the XML object, the lines of each table, and the state of the scan.
pub record Finished : Type 0 where
  pub xml : Option Xml
  pub tables : List (List Entry)
  pub state : State

pub record World : Type 0 where
  pub engine : Engine
  pub read_u64 : List ℕ → ℕ
  pub opens : List ℕ → Bool
  pub read_text : List ℕ → Option (List ℕ)
  pub open_file : List ℕ → Option File
  pub about : About

-- The masters with the names of the command line.
unfoldable pub with_names : List (List ℕ) → List Master → List (List ℕ × Master)
with_names (name ∷ names) (t ∷ ts) = (name, t) ∷ with_names names ts
with_names _ _ = []

module _ (p : Program) (w : World) where
  -- `if (!opt_md5.empty()) masters.read_md5deep(opt_md5.c_str(),blocksize)`
  unfoldable pub read_pieces_if : Regex → List ℕ → Run (List Piece)
  read_pieces_if reg [] = done []
  read_pieces_if reg (c ∷ name) = read_md5deep w.engine w.read_u64 reg (w.read_text (c ∷ name))

  -- The globals that the options set.
  abbrev pub with_settings : Settings → Program
  with_settings s = record p { opt_raw = s.opt_raw; use_prefilter = s.use_prefilter }

  abbrev pub scan_options : Settings → Main.Options
  scan_options s = record {
    opt_start = s.opt_start;
    opt_end = s.opt_end;
    opt_m = s.opt_m;
    blocksize = s.blocksize;
  }

  -- From the check of the number of arguments on. The image is opened before the masters are loaded;
  -- what that gives is taken a second time for the report.
  unfoldable pub run_on : Settings → List (List ℕ) → Run Finished
  run_on s [] = exited 1
  run_on s (image_name ∷ names) = do
    let q = with_settings s
    let image = w.open_file image_name
    state ← carve q (scan_options s) image (map w.open_file names)
    img ← open_image q image s.blocksize
    (xml, tables) ←
        finish s.opt_raw w.about image_name img s.blocksize s.xml (with_names names state.masters)
    done (record { xml = xml; tables = tables; state = state })

  -- The options of the command line with their arguments, and the names that follow them.
  unfoldable pub main : List (ℕ × List ℕ) → List (List ℕ) → Run Finished
  main options names = do
    reg ← new_reg w.engine w.read_u64
    s ← set_options w.read_u64 w.opens defaults options
    if ltb s.opt_m 5 || ltb 32 s.opt_m
        then exited 1
        else (do pieces ← read_pieces_if reg s.opt_md5; run_on s names)
