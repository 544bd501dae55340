-- ===== src/Search/FileMap/Runs.antt =====
-- `runlen`: the longest run from a master block and an image block.
use frag_find.Common.{
  ℕ, zero, suc, ◌+◌, ◌%◌, ◌^◌, ◌≤◌, ◌<◌, ◌≡◌, refl, true, false, [], ◌∷◌, length, get_or, drop,
  arith, Bool-cases, inl, inr, ◌⊎◌,
}
use frag_find.Search.FileMap.{FileMap, contains, runlen_from, runlen}

-- `n` entries of `rest` contain the image's blocks from `b` on, and the next one does not.
pub record IsRun (rest : FileMap) (b n : ℕ) : Type 0 where
  pub within : n ≤ length rest
  pub matches : (j : ℕ) → j < n → contains (get_or rest j []) ((b + j) % 2 ^ 64) ≡ true
  pub stops : (n ≡ length rest) ⊎ (contains (get_or rest n []) ((b + n) % 2 ^ 64) ≡ false)

runlen_from-IsRun :
    (rest : FileMap) (b len : ℕ)
    → (n : ℕ) × (runlen_from rest b len ≡ len + n) × IsRun rest (b + len) n
unfolding runlen_from
runlen_from-IsRun [] b len = (
  0,
  omega arith,
  record { within = omega arith; matches = λ j h. absurd (omega arith); stops = inl refl },
)
runlen_from-IsRun (cur ∷ rest) b len = elim (Bool-cases (contains cur ((b + len) % 2 ^ 64))) [
  | inr e ↦ (
    0,
    rw e (omega arith),
    record {
      within = omega arith;
      matches = λ j h. absurd (omega arith);
      stops = inr (let z : b + len + 0 ≡ b + len = omega arith in rw z e);
    },
  )
  | inl e ↦
      let (n, eq, run) = runlen_from-IsRun rest b (len + 1) in
      (
        suc n,
        rw e (omega (arith, eq)),
        record {
          within = omega (arith, run.within);
          matches = matches_suc n e run.matches;
          stops = stops_suc n run.stops;
        },
      )
]
  where
    matches_suc :
        (n : ℕ)
        → contains cur ((b + len) % 2 ^ 64) ≡ true
        → ((j : ℕ) → j < n → contains (get_or rest j []) ((b + (len + 1) + j) % 2 ^ 64) ≡ true)
        → (j : ℕ) → j < suc n
        → contains (get_or (cur ∷ rest) j []) ((b + len + j) % 2 ^ 64) ≡ true
    matches_suc n e h zero lt = let z : b + len + 0 ≡ b + len = omega arith in rw z e
    matches_suc n e h (suc j) lt =
        let z : b + len + suc j ≡ b + (len + 1) + j = omega arith in rw z (h j (omega arith))

    stops_suc :
        (n : ℕ)
        → (n ≡ length rest) ⊎ (contains (get_or rest n []) ((b + (len + 1) + n) % 2 ^ 64) ≡ false)
        → (suc n ≡ suc (length rest))
          ⊎ (contains (get_or rest n []) ((b + len + suc n) % 2 ^ 64) ≡ false)
    stops_suc n (inl q) = inl (omega arith)
    stops_suc n (inr q) = inr (let z : b + len + suc n ≡ b + (len + 1) + n = omega arith in rw z q)

-- The run length from a master block and an image block is one more than the number of entries
-- after it that contain the following blocks of the image without a gap, up to the end of the map
-- or an entry that does not.
pub runlen-IsRun :
    (map : FileMap) (master_block image_block : ℕ)
    → (n : ℕ) × (runlen map master_block image_block ≡ 1 + n)
      × IsRun (drop (suc master_block) map) (image_block + 1) n
unfolding runlen
runlen-IsRun map master_block image_block =
    runlen_from-IsRun (drop (suc master_block) map) image_block 1
