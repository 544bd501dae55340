-- ===== src/Tests/Runs.antt =====
-- Examples for the loading of a master file, the scan, and a whole run.
use frag_find.Common.{refl, [], ◌∷◌, some, Returns, arith, map}
use frag_find.Search.Filter.{Extends}
use frag_find.Search.Master.{load}
use frag_find.Search.Master.Load.{IsLoaded, load-IsLoaded}
use frag_find.Search.Scan.{State, scan}
use frag_find.Search.Scan.Gains.{TracksAll}
use frag_find.Search.Scan.Exact.{Scanned, places, scanned, scan-Scanned}
use frag_find.Search.Main.{Options, carve}
use frag_find.Search.Main.Found.{IsMaster, LoadedAll-Tracks, all_digests}
use frag_find.Search.Main.Carve.{IsAllowed, Carved, carve-Carved}
use frag_find.Tests.Data.{
  program, program-GivesDigests, image, image-IsWhole, image_file, image_file-IsRegular,
  master_file, master_file-IsRegular, filter, filter-IsReady,
}

abbrev options : Options
options = record { opt_start = 0; opt_end = 0; opt_m = 5; blocksize = 4 }

options-IsAllowed : IsAllowed program options
options-IsAllowed = record {
  lo = omega arith;
  hi = omega arith;
  wide = omega arith;
  word = omega arith;
  memory = refl;
  room = refl;
  off = refl;
}

master_file-IsMaster : IsMaster program 16 4 master_file
master_file-IsMaster = record {
  regular = master_file-IsRegular;
  fits = omega arith;
  few = omega arith;
  again = refl;
  maps = refl;
}

carve-Carved_example :
    Returns
      (carve program options (some image_file) (map some (master_file ∷ [])))
      (Carved program options image_file (master_file ∷ []))
carve-Carved_example =
    carve-Carved program program-GivesDigests options image_file master_file [] options-IsAllowed
      image_file-IsRegular (omega arith) (master_file-IsMaster, tt)

load-IsLoaded_example :
    Returns
      (load program image (some master_file) 4 filter)
      λ r. Extends filter r.0 × IsLoaded program master_file 4 r.0 r.1
load-IsLoaded_example =
    load-IsLoaded program program-GivesDigests image master_file 4 filter master_file-IsRegular
      (omega arith) (omega arith) (omega arith) (omega arith) refl refl refl filter-IsReady

-- The master file, loaded.
loaded :
    Returns
      (load program image (some master_file) 4 filter)
      λ r. Extends filter r.0 × IsLoaded program master_file 4 r.0 r.1
loaded =
    load-IsLoaded program program-GivesDigests image master_file 4 filter master_file-IsRegular
      (omega arith) (omega arith) (omega arith) (omega arith) refl refl refl filter-IsReady

abbrev ready : State
ready = record {
  filter = loaded.0.0;
  masters = loaded.0.1 ∷ [];
  hits = 0;
  bloom_false_positives = 0;
}

ready-TracksAll : TracksAll ready.filter ready.masters (all_digests program ready.masters)
ready-TracksAll =
    LoadedAll-Tracks program 4 loaded.0.0 (master_file ∷ []) (loaded.0.1 ∷ []) (loaded.2.1, tt)

scan-Scanned_example :
    Returns (scan program 1 0 image (0 ∷ 0 ∷ 0 ∷ 0 ∷ []) ready) (
      Scanned
        (places program image (scanned image 1 0) 1)
        (all_digests program ready.masters)
        ready)
scan-Scanned_example =
    scan-Scanned program program-GivesDigests image image-IsWhole 1 0 (0 ∷ 0 ∷ 0 ∷ 0 ∷ []) ready
      (all_digests program ready.masters) refl refl loaded.2.0.ready ready-TracksAll
