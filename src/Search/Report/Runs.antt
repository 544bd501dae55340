-- ===== src/Search/Report/Runs.antt =====
-- The table covers each found block once, by runs that are in the file map.
use frag_find.Common.{
  ℕ, zero, suc, ◌+◌, ◌%◌, ◌^◌, ◌≤◌, ◌<◌, ◌≡◌, refl, true, false, ◌⊎◌, List, [], ◌∷◌, none, some,
  length, length-drop, drop, get_elem?, get_or, ltb, Bool-cases, Option-cases, inl, inr, arith,
}
use frag_find.Search.FileMap.{BlockList, FileMap, runlen, contains}
use frag_find.Search.FileMap.Runs.{runlen-IsRun}
use frag_find.Search.Report.{Entry, run, single, report_from, report}

-- `n` blocks from `tb` on are found at consecutive blocks of the image from `ib` on, and the next is not.
pub record IsFoundRun (filemap : FileMap) (tb ib n : ℕ) : Type 0 where
  pub within : tb + n ≤ length filemap
  pub matches :
      (j : ℕ) → j + 1 < n → contains (get_or filemap (tb + 1 + j) []) ((ib + 1 + j) % 2 ^ 64) ≡ true
  pub stops :
      (tb + n ≡ length filemap)
      ⊎ (contains (get_or filemap (tb + n) []) ((ib + n) % 2 ^ 64) ≡ false)

-- The entries for the blocks from `tb` on: each found block is in one entry, and the entries are in order.
pub data Reported (filemap : FileMap) : ℕ → List Entry → Type 0 where
  over : {tb : ℕ} → length filemap ≤ tb → Reported filemap tb []
  missing :
      {tb : ℕ} {es : List Entry}
      → get_elem? filemap tb ≡ some []
      → Reported filemap (tb + 1) es
      → Reported filemap tb es
  found_run :
      {tb : ℕ} {es : List Entry} (ib n : ℕ) (more : BlockList)
      → get_elem? filemap tb ≡ some (ib ∷ more)
      → 1 < n
      → IsFoundRun filemap tb ib n
      → Reported filemap (tb + n) es
      → Reported filemap tb (run tb ib n ∷ es)
  found_one :
      {tb : ℕ} {es : List Entry} (ib : ℕ) (more : BlockList)
      → get_elem? filemap tb ≡ some (ib ∷ more)
      → IsFoundRun filemap tb ib 1
      → Reported filemap (tb + 1) es
      → Reported filemap tb (single tb (ib ∷ more) ∷ es)

get_elem?-none : (filemap : FileMap) (i : ℕ) → get_elem? filemap i ≡ none → length filemap ≤ i
get_elem?-none [] i h = omega arith
get_elem?-none (x ∷ xs) zero h = cc
get_elem?-none (x ∷ xs) (suc i) h = omega (arith, get_elem?-none xs i h)

get_elem?-some :
    (filemap : FileMap) (i : ℕ) {b : BlockList} → get_elem? filemap i ≡ some b → i < length filemap
get_elem?-some [] i h = cc
get_elem?-some (x ∷ xs) zero h = omega arith
get_elem?-some (x ∷ xs) (suc i) h = omega (arith, get_elem?-some xs i h)

get_or-drop :
    (filemap : FileMap) (n i : ℕ) → get_or (drop n filemap) i [] ≡ get_or filemap (n + i) []
get_or-drop filemap zero i = let e : 0 + i ≡ i = omega arith in rw e refl
get_or-drop [] (suc n) i = refl
get_or-drop (x ∷ xs) (suc n) i =
    let e : suc n + i ≡ suc (n + i) = omega arith in rw e (get_or-drop xs n i)

runlen-IsFoundRun :
    (filemap : FileMap) (tb ib : ℕ)
    → tb < length filemap
    → (1 ≤ runlen filemap tb ib) × IsFoundRun filemap tb ib (runlen filemap tb ib)
runlen-IsFoundRun filemap tb ib below =
    let (n, e, r) = runlen-IsRun filemap tb ib in
    let z : suc tb ≡ tb + 1 = omega arith in
    (
      omega arith,
      record {
        within = omega (arith, r.within, length-drop (suc tb) filemap);
        matches = λ j h. rw (← z, ← (get_or-drop filemap (suc tb) j)) (r.matches j (omega arith));
        stops = elim r.stops [
          | inl q ↦ inl (omega (arith, length-drop (suc tb) filemap))
          | inr q ↦
              let t : tb + runlen filemap tb ib ≡ suc tb + n = omega arith in
              let i : ib + runlen filemap tb ib ≡ ib + 1 + n = omega arith in
              inr (rw (t, i, ← (get_or-drop filemap (suc tb) n)) q)
        ];
      },
    )

report_from-Reported :
    (fuel : ℕ) (filemap : FileMap) (tb : ℕ)
    → length filemap ≤ tb + fuel
    → Reported filemap tb (report_from fuel filemap tb)
unfolding report_from
report_from-Reported zero filemap tb enough = over (omega arith)
report_from-Reported (suc fuel) filemap tb enough = elim (Option-cases (get_elem? filemap tb)) [
  | inl e ↦ rw (e, report_from) (over (get_elem?-none filemap tb e))
  | inr ([], e) ↦
      rw (e, report_from) (missing e (report_from-Reported fuel filemap (tb + 1) (omega arith)))
  | inr (ib ∷ more, e) ↦
      let (pos, found) = runlen-IsFoundRun filemap tb ib (get_elem?-some filemap tb e) in
      elim (Bool-cases (ltb 1 (runlen filemap tb ib))) [
        | inl long ↦
            rw (e, report_from, long)
              (found_run ib (runlen filemap tb ib) more e (ground arith) found
                (report_from-Reported fuel filemap (tb + runlen filemap tb ib) (omega arith)))
        | inr short ↦
            let one : runlen filemap tb ib ≡ 1 = ground arith in
            rw (e, report_from, short)
              (found_one ib more e (rw one at found)
                (report_from-Reported fuel filemap (tb + 1) (omega arith)))
      ]
]

-- The loop of the report ends within as many rounds as the file map has entries, and its table
-- covers the map in order: each found block of the master is in exactly one line, a run of
-- several blocks that are found at consecutive blocks of the image, up to the end of the map or a
-- block that does not follow, or a single block with all of its places; blocks that are not found
-- are in no line.
pub report-Reported : (filemap : FileMap) → Reported filemap 0 (report filemap)
unfolding report
report-Reported filemap = report_from-Reported (length filemap) filemap 0 (omega arith)
