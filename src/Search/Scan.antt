-- ===== src/Search/Scan.antt =====
-- The loop of `main` in frag_find.cpp that reads the image and fills the file maps.
-- The progress report and the other printing are left out.

pub mod Push
pub mod Gains
pub mod Exact
use frag_find.Common.{
  ℕ, zero, suc, ◌+◌, ◌-◌, ◌%◌, ◌^◌, Bool, true, false, not, List, [], ◌∷◌, ◌++◌, Option, none, some,
  Run, done, fault, min, out_of_bounds, ◌>>=◌, read, set, ltb, ◌==◌, if◌then◌else◌, length,
}
use frag_find.Bloom.Types.{Bloom, Env}
use frag_find.Bloom.Filter.{query}
use frag_find.Search.FileMap.{BlockList, FileMap}
use frag_find.Search.BlockFile.{BlockFile, getblock}
use frag_find.Search.Master.{Master, Digest, Program, touch, at_key}

-- `filemap[i].push_back(blocknumber)` for each `i` of a block list.
unfoldable pub push_all : BlockList → ℕ → FileMap → Run FileMap
push_all [] blocknumber filemap = done filemap
push_all (i ∷ is) blocknumber filemap = do
  blocks ← read filemap i
  push_all is blocknumber (set filemap i (blocks ++ blocknumber ∷ []))

-- The loop over the masters for one block of the image, and how many places were added.
unfoldable pub record_block : Digest → ℕ → List Master → Run (List Master × ℕ)
record_block md5 blocknumber [] = done ([], 0)
record_block md5 blocknumber (t ∷ ts) = do
  filemap ← push_all (at_key md5 t.md5map) blocknumber t.filemap
  (ts', added) ← record_block md5 blocknumber ts
  done (
    record t { md5map = touch md5 t.md5map; filemap = filemap } ∷ ts',
    length (at_key md5 t.md5map) + added,
  )

pub record State : Type 0 where
  pub filter : Bloom
  pub masters : List Master
  pub hits : ℕ
  pub bloom_false_positives : ℕ

-- `prefilter_t::query_from_buf`, whose table is never filled: it reads three bytes and says no.
unfoldable pub prefilter_query : List ℕ → Run Bool
prefilter_query buf = do a ← read buf 100; b ← read buf 101; c ← read buf 102; done false

module _ (p : Program) where
  -- What follows a successful `getblock`.
  unfoldable pub scan_block : ℕ → List ℕ → State → Run State
  scan_block blocknumber buf s = do
    let md5 = p.hash_buf buf
    (filter, found) ← query p.env s.filter md5
    if not found then done (record s { filter = filter }) else (do
      (masters, added) ← record_block md5 blocknumber s.masters
      done (record {
        filter = filter;
        masters = masters;
        hits = (s.hits + 1) % 2 ^ 64;
        bloom_false_positives =
            if added == 0 then (s.bloom_false_positives + 1) % 2 ^ 64 else s.bloom_false_positives;
      }))

  unfoldable pub scan_filtered : ℕ → List ℕ → State → Run State
  scan_filtered blocknumber buf s =
      if p.use_prefilter
      then (prefilter_query buf >>= λ pass.
          if not pass then done s else scan_block blocknumber buf s)
      else scan_block blocknumber buf s

  -- The loop, with `left` blocks to go.
  unfoldable pub scan_from : ℕ → ℕ → BlockFile → List ℕ → State → Run State
  scan_from zero blocknumber image buf s = done s
  scan_from (suc left) blocknumber image buf s = elim (getblock image blocknumber buf) [
    | none ↦ done s
    | some buf' ↦ do
      s' ← scan_filtered blocknumber buf' s
      scan_from left (blocknumber + 1) image buf' s'
  ]

  -- `blocknumber=opt_start; blocknumber < opt_end && blocknumber < imagefile.blocks`, where an
  -- `opt_end` of 0 means the whole image.
  unfoldable pub scan : ℕ → ℕ → BlockFile → List ℕ → State → Run State
  scan opt_start opt_end image buf s =
      let last = if opt_end == 0 then image.blocks else opt_end in
      scan_from (min last image.blocks - opt_start) opt_start image buf s
