-- ===== src/Tests/Files.antt =====
-- Examples for histograms, RDS files, hexadecimal adds and disk_bloom.
use mathlib.Core.Path.{subst}
use frag_find.Common.{
  ℕ, ◌≡◌, ◌+◌, ◌-◌, ◌%◌, ◌^◌, ◌==◌, All, ◌<◌, refl, true, false, List, [], ◌∷◌, ◌++◌, none, some,
  done, ◌>>=◌, Returns, length, replicate, drop, get_or, arith,
}
use frag_find.Common.Text.{codes}
use frag_find.Xml.Close.{join_lines}
use frag_find.Histogram.{Histogram, new_histogram, update, unique_unigrams, ngram_count}
use frag_find.Histogram.Counts.{occurrences, distinct_from, update-occurrences}
use frag_find.Histogram.Ngrams.{ngram_count-zero}
use frag_find.Rds.File.{open_rds, nextlines, is_end}
use frag_find.Rds.File.Sequence.{IsShort, nextlines-join_lines}
use frag_find.Hex.{nsrl_hexbuf, has_flag}
use frag_find.Bloom.Filter.{add}
use frag_find.Bloom.Class.{add_hex, add_hex-nsrl_hexbuf}
use frag_find.Bloom.Disk.{Image, disk_bloom}
use frag_find.Bloom.Disk.Sectors.{IsPage, disk_digests}
use frag_find.Bloom.Disk.Stored.{IsStored, disk_bloom-IsStored}
use frag_find.Xml.Environment.{Timeval}
use frag_find.Xml.Environment.Values.{micros}
use frag_find.Timer.{new_aftimer, start, elapsed}
use frag_find.Timer.Laps.{run_laps, lap_micros, IsLap, total_micros, elapsed-run_laps}
use frag_find.Tests.Data.{env, filter, first_hash}

update-occurrences_example :
    let h = update new_histogram (1 ∷ 2 ∷ 1 ∷ []) in
    ((ch : ℕ) → ch < 256 → get_or h.counts ch 0 ≡ occurrences ch (1 ∷ 2 ∷ 1 ∷ []))
    × (unique_unigrams h ≡ distinct_from 0 256 (1 ∷ 2 ∷ 1 ∷ []))
update-occurrences_example =
    update-occurrences (1 ∷ 2 ∷ 1 ∷ []) (omega arith, (omega arith, (omega arith, tt)))
      (omega arith)

-- A retained buffer with two equal characters.
abbrev retained : Histogram
retained = record {
  counts = replicate 256 0;
  retained = some (b'a' ∷ b'a' ∷ 0 ∷ []);
  retained_bufsize = 2;
}

ngram_count-zero_example : ngram_count retained (b'a' ∷ []) ≡ done (some 0)
ngram_count-zero_example =
    ngram_count-zero retained (b'a' ∷ b'a' ∷ []) [] (b'a' ∷ []) refl refl (omega arith)
      (omega arith) (omega arith)

abbrev lines : List (List ℕ)
lines = codes "ab" ∷ codes "c" ∷ []

lines-IsShort : All IsShort lines
unfolding is_end
lines-IsShort = (
  record { plain = (refl, (refl, tt)); some_text = omega arith; short = omega arith },
  (record { plain = (refl, tt); some_text = omega arith; short = omega arith }, tt),
)

nextlines-join_lines_example :
    Returns (nextlines 2 (open_rds (join_lines lines) (replicate 1024 0))) λ s. s.1 ≡ lines
nextlines-join_lines_example = nextlines-join_lines lines (replicate 1024 0) lines-IsShort

add_hex-nsrl_hexbuf_example :
    (nsrl_hexbuf 64 first_hash 0 >>= λ hex. add_hex env (replicate 256 0) filter hex)
    ≡ add env filter (first_hash ++ drop (length first_hash) (replicate 256 0))
add_hex-nsrl_hexbuf_example =
    add_hex-nsrl_hexbuf env filter (replicate 256 0) first_hash 64 0 (unfold has_flag in refl)
      (unfold has_flag in refl) (omega arith) (omega arith) (omega arith) refl

abbrev hash_buf : List ℕ → List ℕ
hash_buf buf = get_or buf 0 0 ∷ replicate 15 0

abbrev sectors : List ℕ
sectors = 1 ∷ 2 ∷ 0 ∷ 0 ∷ []

-- Two sectors, of which one is bad, and a page that cannot be read.
abbrev disk : Image
disk = record {
  segs =
      record { is_data = true; page = some sectors } ∷ record { is_data = true; page = none } ∷ [];
  sector_size = 2;
  image_pagesize = 4;
  is_badsector = λ sector. get_or sector 0 0 == 0;
}

sectors-IsPage : IsPage disk sectors
sectors-IsPage = record { whole = omega arith; fits = omega arith }

disk_bloom-IsStored_example :
    Returns
      (disk_bloom env hash_buf (codes "d") (codes "b") false (some disk))
      λ r. IsStored (disk_digests hash_buf disk disk.segs) r.1
disk_bloom-IsStored_example =
    disk_bloom-IsStored env hash_buf (λ buf. refl) disk (codes "d") (codes "b") 3 refl (omega arith)
      refl refl (λ n. refl) (omega arith)
      (
        λ page e.
            let q : sectors ≡ page = cc in subst (λ (t : List ℕ). IsPage disk t) q sectors-IsPage,
        (λ page e. cc, tt),
      )

abbrev laps : List (Timeval × Timeval)
laps =
    (record { tv_sec = 1; tv_usec = 900000 }, record { tv_sec = 3; tv_usec = 100000 })
    ∷ (record { tv_sec = 5; tv_usec = 0 }, record { tv_sec = 5; tv_usec = 7 })
    ∷ []

long-IsLap :
    IsLap (record { tv_sec = 1; tv_usec = 900000 }, record { tv_sec = 3; tv_usec = 100000 })
long-IsLap = record {
  from_sec = omega arith;
  from_usec = omega arith;
  to_sec = omega arith;
  to_usec = omega arith;
  later = omega arith;
}

short-IsLap : IsLap (record { tv_sec = 5; tv_usec = 0 }, record { tv_sec = 5; tv_usec = 7 })
short-IsLap = record {
  from_sec = omega arith;
  from_usec = omega arith;
  to_sec = omega arith;
  to_usec = omega arith;
  later = omega arith;
}

elapsed-run_laps_example :
    let from : Timeval = record { tv_sec = 5; tv_usec = 0 } in
    let now : Timeval = record { tv_sec = 5; tv_usec = 7 } in
    let a = run_laps new_aftimer laps in
    (total_micros (elapsed a now) ≡ lap_micros laps % 2 ^ 64)
    × (total_micros (elapsed (start a from) now)
        ≡ (lap_micros laps + (micros now - micros from)) % 2 ^ 64)
elapsed-run_laps_example =
    elapsed-run_laps laps (record { tv_sec = 5; tv_usec = 0 }) (record { tv_sec = 5; tv_usec = 7 })
      (long-IsLap, (short-IsLap, tt)) short-IsLap
