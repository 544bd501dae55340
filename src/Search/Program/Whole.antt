-- ===== src/Search/Program/Whole.antt =====
-- A whole run of the program on readable files.
use frag_find.Common.{
  ℕ, ◌%◌, ◌^◌, ◌/◌, ◌≡◌, ◌≤◌, ◌<◌, refl, sym, ◌∙◌, ap, false, ◌||◌, ◌⊎◌, inl, inr, List, [], ◌∷◌,
  some, done, bind-done, Returns, All, map, ltb, length, arith, le→ltb,
}
use frag_find.Regex.{Regex}
use frag_find.Xml.Environment.Nested.{IsKnown, IsPlainBuild}
use frag_find.Search.FileMap.{BlockList}
use frag_find.Search.Report.{Entry}
use frag_find.Search.BlockFile.{File, BlockFile}
use frag_find.Search.BlockFile.Blocks.{IsRegular}
use frag_find.Search.Master.{Digest, Master, Program}
use frag_find.Search.Master.Load.{GivesDigests}
use frag_find.Search.Main.Found.{IsMaster, IsFound, FoundAll}
use frag_find.Search.Main.Carve.{Carved, IsAllowed, carve-Carved, open_image-IsWhole}
use frag_find.Search.Program.Options.{Settings, defaults, set_options}
use frag_find.Search.Program.Options.Kept.{set_options-IsOpen}
use frag_find.Search.Program.Reports.{
  IsOpen, StaysOpen, present, IsReportable, ReportableAll, table_of,
}
use frag_find.Search.Program.Closing.{finish-IsOpen}
use frag_find.Search.Program.Finish.{finish}
use frag_find.Search.Md5deep.{Piece, new_reg}
use frag_find.Search.Program.{
  read_pieces_if, main, World, Finished, with_names, with_settings, scan_options, run_on,
}

IsFound-IsReportable :
    (p : Program) (f : Digest → BlockList) (blocksize : ℕ) (g : File) (t : Master)
    → 0 < blocksize
    → IsFound p f g blocksize t
    → (g.st_size % blocksize ≡ 0) ⊎ (blocksize ≤ g.st_size)
    → IsRegular g
    → IsReportable blocksize t
IsFound-IsReportable p f bs g t pos found h r =
    let size : t.file.filesize ≡ g.st_size =
      found.whole.size ∙ ap (λ (k : File). length k.contents) found.same_file ∙ sym r.size in
    let count : t.file.blocks ≡ g.st_size / bs =
      found.whole.count ∙ (λ i. size i / found.same_size i) in
    elim h [
      | inl e ↦ inl (rw size e)
      | inr large ↦
          let one : 0 < g.st_size / bs = grind arith in inr (omega (arith, found.same_length))
    ]

FoundAll-ReportableAll :
    (p : Program) (f : Digest → BlockList) (blocksize : ℕ) (names : List (List ℕ)) (fs : List File)
    (ts : List Master)
    → 0 < blocksize
    → FoundAll p f blocksize fs ts
    → All (λ (g : File). (g.st_size % blocksize ≡ 0) ⊎ (blocksize ≤ g.st_size)) fs
    → All IsRegular fs
    → ReportableAll blocksize (with_names names ts)
unfolding with_names
FoundAll-ReportableAll p f bs [] fs ts pos found whole regular = tt
FoundAll-ReportableAll p f bs (n ∷ names) fs [] pos found whole regular = tt
FoundAll-ReportableAll p f bs (n ∷ names) [] (t ∷ ts) pos found whole regular = absurd found
FoundAll-ReportableAll p f bs (n ∷ names) (g ∷ fs) (t ∷ ts) pos found whole regular = (
  IsFound-IsReportable p f bs g t pos found.0 whole.0 regular.0,
  FoundAll-ReportableAll p f bs names fs ts pos found.1 whole.1 regular.1,
)

masters-IsRegular :
    (p : Program) (size blocksize : ℕ) (fs : List File)
    → All (IsMaster p size blocksize) fs
    → All IsRegular fs
masters-IsRegular p size bs [] h = tt
masters-IsRegular p size bs (g ∷ fs) h = (h.0.regular, masters-IsRegular p size bs fs h.1)

with_names-tables :
    (p : Program) (w : World) (f : Digest → BlockList) (blocksize : ℕ) (names : List (List ℕ))
    (fs : List File) (ts : List Master)
    → map w.open_file names ≡ map some fs
    → FoundAll p f blocksize fs ts
    → map (λ (n : List ℕ × Master). table_of n.1) (with_names names ts) ≡ map table_of ts
unfolding with_names
with_names-tables p w f bs [] [] [] e found = refl
with_names-tables p w f bs [] [] (t ∷ ts) e found = absurd found
with_names-tables p w f bs [] (g ∷ fs) ts e found = cc
with_names-tables p w f bs (n ∷ names) [] ts e found = cc
with_names-tables p w f bs (n ∷ names) (g ∷ fs) [] e found = absurd found
with_names-tables p w f bs (n ∷ names) (g ∷ fs) (t ∷ ts) e found =
    ap (λ (l : List (List Entry)). table_of t ∷ l)
      (with_names-tables p w f bs names fs ts (tail_of e) found.1)
  where
    tail_of :
        w.open_file n ∷ map w.open_file names ≡ some g ∷ map some fs
        → map w.open_file names ≡ map some fs
    tail_of q = cc

-- Files on which the program makes a report: those of `carve`, and each master has no part of a block
-- at its end, or has a block.
pub record IsReadable (p : Program) (w : World) (s : Settings) (f : File) (fs : List File)
    : Type 0 where
  pub allowed : IsAllowed (with_settings p w s) (scan_options p w s)
  pub regular : IsRegular f
  pub large : s.blocksize ≤ f.st_size
  pub narrow : s.blocksize ≤ 2 ^ 31
  pub masters : All (IsMaster (with_settings p w s) f.st_size s.blocksize) fs
  pub covered : All (λ (g : File). (g.st_size % s.blocksize ≡ 0) ⊎ (s.blocksize ≤ g.st_size)) fs
  pub plain : IsPlainBuild w.about.build
  pub known : IsKnown w.about.host

-- What a run leaves: the file maps, each table, and an XML document without an open tag.
pub record IsReported (p : Program) (w : World) (s : Settings) (f : File) (fs : List File)
    (r : Finished) : Type 0 where
  pub carved : Carved (with_settings p w s) (scan_options p w s) f fs r.state
  pub tables : r.tables ≡ map table_of r.state.masters
  pub closed : IsOpen [] r.xml
  pub given : present r.xml ≡ present s.xml

-- The reports of the masters that were loaded.
finish-IsReported :
    (p : Program) (w : World) (s : Settings) (k : Digest → BlockList) (image_name m : List ℕ)
    (names : List (List ℕ)) (img : BlockFile) (f g : File) (fs : List File) (ts : List Master)
    → IsReadable p w s f (g ∷ fs)
    → map w.open_file (m ∷ names) ≡ map some (g ∷ fs)
    → FoundAll (with_settings p w s) k s.blocksize (g ∷ fs) ts
    → IsOpen [] s.xml
    → Returns
        (finish s.opt_raw w.about image_name img s.blocksize s.xml (with_names (m ∷ names) ts))
        λ r. StaysOpen [] s.xml r.0 × (r.1 ≡ map table_of ts)
unfolding with_names
finish-IsReported p w s k image_name m names img f g fs [] h e found at = absurd found
finish-IsReported p w s k image_name m names img f g fs (t ∷ ts) h e found at =
    let pos : 0 < s.blocksize = omega (arith, h.allowed.wide) in
    let reportable =
      FoundAll-ReportableAll (with_settings p w s) k s.blocksize (m ∷ names) (g ∷ fs) (t ∷ ts) pos
        found h.covered (masters-IsRegular _ _ _ (g ∷ fs) h.masters) in
    let (r, run, (at', q)) =
      finish-IsOpen s.opt_raw w.about image_name img s.blocksize s.xml (m, t) (with_names names ts)
        pos h.narrow at h.plain h.known reportable in
    (
      r,
      run,
      (
        at',
        q
            ∙ with_names-tables (with_settings p w s) w k s.blocksize (m ∷ names) (g ∷ fs) (t ∷ ts)
                e found,
      ),
    )

-- If the pattern of md5deep compiles, the options give settings, what -m names is read, and the
-- image and the masters open, then for 16-byte digests, settings within the checks with a block
-- size of at most 2^31 and no prefilter, memory for the filter and the buffer, a readable image
-- of at least one block, one or more readable masters that open a second time and can be mapped,
-- no larger than the image, of fewer than 2^32 blocks and of a multiple of the block size or at
-- least one block, library versions without brackets and double quotation marks, and a host whose
-- names start no tag and whose user, if it is looked up, is found, the whole program returns: it
-- leaves for each block of each master exactly the scanned blocks of the image with the same
-- digest, a table for each master that is the report of its cleaned file map, and, just when the
-- settings have an XML file, an XML document in which a reader that follows only the characters
-- finds every tag closed.
pub main-IsReported :
    (p : Program) (w : World) (md5 : GivesDigests p) (options : List (ℕ × List ℕ)) (s : Settings)
    (image_name m : List ℕ) (names : List (List ℕ)) (f g : File) (fs : List File) (reg : Regex)
    (pieces : List Piece)
    → new_reg w.engine w.read_u64 ≡ done reg
    → set_options w.read_u64 w.opens defaults options ≡ done s
    → read_pieces_if p w reg s.opt_md5 ≡ done pieces
    → w.open_file image_name ≡ some f
    → map w.open_file (m ∷ names) ≡ map some (g ∷ fs)
    → IsReadable p w s f (g ∷ fs)
    → Returns (main p w options (image_name ∷ m ∷ names)) (IsReported p w s f (g ∷ fs))
main-IsReported p w md5 options s image_name m names f g fs reg pieces regs sets read e es h =
    let q = with_settings p w s in
    let o = scan_options p w s in
    let pos : 0 < s.blocksize = omega (arith, h.allowed.wide) in
    let (state, run₁, c) = carve-Carved q md5 o f g fs h.allowed h.regular h.large h.masters in
    let (img, run₂, i) = open_image-IsWhole q f s.blocksize h.regular pos h.allowed.word h.large in
    let (r, run₃, ((at, same), tables)) =
      finish-IsReported p w s _ image_name m names img f g fs state.masters h es c.found
        (set_options-IsOpen w.read_u64 w.opens options s sets) in
    let range : (ltb s.opt_m 5 || ltb 32 s.opt_m) ≡ false =
      rw (le→ltb s.opt_m 5 h.allowed.lo, le→ltb 32 s.opt_m h.allowed.hi) refl in
    let rest : run_on p w s (image_name ∷ m ∷ names)
        ≡ done (record { xml = r.0; tables = r.1; state = state }) =
      unfold run_on in rw (e, es) (bind-done _ run₁ (bind-done _ run₂ (bind-done _ run₃ refl))) in
    (
      record { xml = r.0; tables = r.1; state = state },
      unfold main in bind-done _ regs (bind-done _ sets (rw range (bind-done _ read rest))),
      record { carved = c; tables = tables; closed = at; given = same },
    )
