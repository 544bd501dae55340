-- ===== src/Search/Scan/Exact.antt =====
-- The scan of the image finds every place of every master block, and no other.
use frag_find.Common.{
  ℕ, zero, suc, ◌+◌, ◌-◌, ◌≤◌, ◌<◌, ◌≡◌, refl, sym, ◌∙◌, false, List, [], ◌++◌, some, done, Returns,
  bind-done, length, arith, min, if◌then◌else◌, ◌==◌, Bool-cases, inl, inr, ◌%◌, ◌^◌,
}
use frag_find.Search.FileMap.{BlockList}
use frag_find.Search.Filter.{IsReady, Extends, Extends-refl, Extends-trans, query-Extends}
use frag_find.Search.BlockFile.{BlockFile, getblock}
use frag_find.Search.BlockFile.Blocks.{IsWhole, block, getblock-block, length-block}
use frag_find.Search.Master.{Digest, Program}
use frag_find.Search.Master.Load.{GivesDigests}
use frag_find.Search.Scan.{State, scan_block, scan_filtered, scan_from, scan}
use frag_find.Search.Scan.Gains.{
  TracksAll, GainsAll, place, TracksAll-Extends, record_block-Gains, absent-Gains, GainsAll-trans,
  nothing-GainsAll,
}

-- The state `s'` follows `s`: the filter lost nothing, and the file maps gained the places `f`.
pub record Scanned (f : Digest → BlockList) (dss : List (List Digest)) (s s' : State) : Type 0 where
  pub grows : Extends s.filter s'.filter
  pub tracks : TracksAll s'.filter s'.masters dss
  pub gains : GainsAll f dss s.masters s'.masters

-- The places of a digest among `left` blocks of the image from the nth on, in order.
pub places : Program → BlockFile → ℕ → ℕ → Digest → BlockList
places p image zero n d = []
places p image (suc left) n d =
    place (p.hash_buf (block image n)) n d ++ places p image left (n + 1) d

-- How many blocks of the image `main` scans.
pub scanned : BlockFile → ℕ → ℕ → ℕ
scanned image opt_start opt_end =
    min (if opt_end == 0 then image.blocks else opt_end) image.blocks - opt_start

module _ (p : Program) (md5 : GivesDigests p) (image : BlockFile) (whole : IsWhole image) where
  scan_block-Scanned :
      (n : ℕ) (buf : List ℕ) (s : State) (dss : List (List Digest))
      → IsReady s.filter
      → TracksAll s.filter s.masters dss
      → Returns (scan_block p n buf s) (Scanned (place (p.hash_buf buf) n) dss s)
  unfolding scan_block
  scan_block-Scanned n buf s dss r h =
      let key = p.hash_buf buf in
      let ((b', found), run, (e, answer)) = query-Extends p.env s.filter key r (md5 buf) in
      elim (Bool-cases found) [
        | inr miss ↦ (
          record s { filter = b' },
          bind-done _ run (rw miss refl),
          record {
            grows = e;
            tracks = TracksAll-Extends h e;
            gains = absent-Gains s.filter key n (md5 buf) (sym answer ∙ miss) h;
          },
        )
        | inl hit ↦
            let (m, run', (tracks, gains)) =
              record_block-Gains b' key n (md5 buf) (TracksAll-Extends h e) in
            (
              record {
                filter = b';
                masters = m.0;
                hits = (s.hits + 1) % 2 ^ 64;
                bloom_false_positives =
                    if m.1 == 0
                    then (s.bloom_false_positives + 1) % 2 ^ 64
                    else s.bloom_false_positives;
              },
              bind-done _ run (rw hit (bind-done _ run' refl)),
              record { grows = e; tracks = tracks; gains = gains },
            )
      ]

  scan_filtered-off :
      (n : ℕ) (buf : List ℕ) (s : State)
      → p.use_prefilter ≡ false
      → scan_filtered p n buf s ≡ scan_block p n buf s
  unfolding scan_filtered
  scan_filtered-off n buf s off = rw off refl

  scan_from-suc :
      (left n : ℕ) (buf buf' : List ℕ) (s s' : State)
      → p.use_prefilter ≡ false
      → getblock image n buf ≡ some buf'
      → scan_block p n buf' s ≡ done s'
      → scan_from p (suc left) n image buf s ≡ scan_from p left (n + 1) image buf' s'
  unfolding scan_from
  scan_from-suc left n buf buf' s s' off e run =
      rw (e, scan_from) (bind-done _ (scan_filtered-off n buf' s off ∙ run) refl)

  scan_from-Scanned :
      (left n : ℕ) (buf : List ℕ) (s : State) (dss : List (List Digest))
      → p.use_prefilter ≡ false
      → n + left ≤ image.blocks + (n - image.blocks)
      → length buf ≡ image.blocksize
      → IsReady s.filter
      → TracksAll s.filter s.masters dss
      → Returns (scan_from p left n image buf s) (Scanned (places p image left n) dss s)
  unfolding places
  scan_from-Scanned zero n buf s dss off within full r h = (
    s,
    unfold scan_from in refl,
    record { grows = Extends-refl r; tracks = h; gains = nothing-GainsAll h },
  )
  scan_from-Scanned (suc left) n buf s dss off within full r h =
      let below : n < image.blocks = omega arith in
      let buf' = block image n in
      let (s', run, a) = scan_block-Scanned n buf' s dss r h in
      let (s'', run', c) =
        scan_from-Scanned left (n + 1) buf' s' dss off (omega arith)
          (length-block image n whole below) a.grows.ready a.tracks in
      (
        s'',
        scan_from-suc left n buf buf' s s' off (getblock-block image n buf whole below full) run
            ∙ run',
        record {
          grows = Extends-trans a.grows c.grows;
          tracks = c.tracks;
          gains = GainsAll-trans a.gains c.gains;
        },
      )

  -- With 16-byte digests, no prefilter, a readable image, a buffer of the block size, and a ready
  -- filter and md5maps that know the digests of the masters, the scan returns and adds to the
  -- file-map entry of each master block exactly the scanned blocks with its digest, in order;
  -- neither false positives of the filter nor keys that lookups insert change this.
  pub scan-Scanned :
      (opt_start opt_end : ℕ) (buf : List ℕ) (s : State) (dss : List (List Digest))
      → p.use_prefilter ≡ false
      → length buf ≡ image.blocksize
      → IsReady s.filter
      → TracksAll s.filter s.masters dss
      → Returns
          (scan p opt_start opt_end image buf s)
          (Scanned (places p image (scanned image opt_start opt_end) opt_start) dss s)
  unfolding scan scanned
  scan-Scanned opt_start opt_end buf s dss off full r h =
      scan_from-Scanned
        (min (if opt_end == 0 then image.blocks else opt_end) image.blocks - opt_start) opt_start
        buf s dss off (omega arith) full r h
