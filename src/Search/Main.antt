-- ===== src/Search/Main.antt =====
-- `main` of frag_find.cpp from the checked options to the filled file maps; Search.Program is `main` as a
-- whole.
pub mod Found
pub mod Carve
use frag_find.Common.{
  ℕ, ◌+◌, Bool, true, false, ◌||◌, List, [], ◌∷◌, Option, none, some, Run, done, exited, ◌>>=◌, ltb,
  ◌==◌, if◌then◌else◌,
}
use frag_find.Common.Text.{codes}
use frag_find.Bloom.Types.{Bloom, blank}
use frag_find.Bloom.Create.{create}
use frag_find.Search.BlockFile.{File, BlockFile, open_blocks}
use frag_find.Search.Master.{Master, Program, load_all}
use frag_find.Search.Scan.{State, scan}

pub record Options : Type 0 where
  pub opt_start : ℕ
  pub opt_end : ℕ
  pub opt_m : ℕ
  pub blocksize : ℕ

module _ (p : Program) where
  -- `bloom_create`: four functions of `opt_M` bits of a 128-bit digest, in memory.
  unfoldable pub bloom_create : ℕ → Run Bloom
  bloom_create opt_m = do
    (b, ok) ← create p.env blank none 128 opt_m 4 (codes "In-memory bloom filter for frag find")
    if ok then done b else exited 1

  -- Opening the image, with the checks of its size.
  unfoldable pub open_image : Option File → ℕ → Run BlockFile
  open_image opened blocksize = do
    file ← open_blocks opened blocksize
    elim file [
      | none ↦ exited 1
      | some image ↦
          if image.filesize == 0 || ltb image.filesize blocksize then exited 1 else done image
    ]

  -- The files are what `::open` gives for the names of the image and of the masters.
  unfoldable pub carve : Options → Option File → List (Option File) → Run State
  carve o image [] = exited 1
  carve o image (m ∷ ms) =
      if ltb o.opt_m 5 || ltb 32 o.opt_m || ltb o.blocksize 4 then exited 1 else (do
        b ← bloom_create o.opt_m
        img ← open_image image o.blocksize
        (b', masters) ← load_all p img (m ∷ ms) o.blocksize b
        scan p o.opt_start o.opt_end img (p.malloc o.blocksize)
            (record { filter = b'; masters = masters; hits = 0; bloom_false_positives = 0 }))
