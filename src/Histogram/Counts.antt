-- ===== src/Histogram/Counts.antt =====
-- The counts are those of the characters.
use frag_find.Common.{
  ℕ, zero, suc, ◌+◌, ◌%◌, ◌^◌, ◌<◌, ◌≡◌, refl, ap, ◌∙◌, List, [], ◌∷◌, All, length, length-set,
  length-replicate, get_or, get_or-set_self, get_or-set_ne, get_or-replicate, set, replicate, ◌==◌,
  if◌then◌else◌, Bool-cases, inl, inr, arith,
}
use frag_find.Histogram.{
  new_histogram, count_char, count_all, update, count_nonzero, unique_unigrams,
}

-- How often a character stands in a text.
unfoldable pub occurrences : ℕ → List ℕ → ℕ
occurrences ch [] = 0
occurrences ch (c ∷ s) = let rest = occurrences ch s in if c == ch then rest + 1 else rest

count_all-occurrences :
    (counts buf : List ℕ) (ch : ℕ)
    → length counts ≡ 256
    → All (λ c. c < 256) buf
    → get_or counts ch 0 + length buf < 2 ^ 64
    → get_or (count_all counts buf) ch 0 ≡ get_or counts ch 0 + occurrences ch buf
unfolding count_all count_char occurrences
count_all-occurrences counts [] ch len bytes few = omega arith
count_all-occurrences counts (c ∷ buf) ch len bytes few = elim (Bool-cases (c == ch)) [
  | inl e ↦
      let q : c ≡ ch = ground arith in
      let next = (get_or counts ch 0 + 1) % 2 ^ 64 in
      let self : get_or (set counts ch next) ch 0 ≡ next =
        get_or-set_self counts ch next 0 (omega (arith, bytes.0)) in
      let rest =
        count_all-occurrences (set counts ch next) buf ch (length-set counts ch next ∙ len) bytes.1
          (omega (arith, self)) in
      rw (e, q) (omega (arith, rest, self))
  | inr e ↦
      let other =
        get_or-set_ne counts c ch ((get_or counts c 0 + 1) % 2 ^ 64) 0 (λ q. ground arith) in
      rw e (
        count_all-occurrences (set counts c ((get_or counts c 0 + 1) % 2 ^ 64)) buf ch
          (length-set counts c _ ∙ len) bytes.1 (omega (arith, other))
        ∙ ap (λ n. n + occurrences ch buf) other)
]

length-count_all : (counts buf : List ℕ) → length (count_all counts buf) ≡ length counts
unfolding count_all count_char
length-count_all counts [] = refl
length-count_all counts (c ∷ buf) =
    length-count_all (set counts c ((get_or counts c 0 + 1) % 2 ^ 64)) buf ∙ length-set counts c _

-- How many of the `left` characters from `ch` on stand in a text.
unfoldable pub distinct_from : ℕ → ℕ → List ℕ → ℕ
distinct_from ch zero s = 0
distinct_from ch (suc left) s =
    let total = distinct_from (ch + 1) left s in if occurrences ch s == 0 then total else total + 1

count_nonzero-distinct_from :
    (counts s : List ℕ) (ch : ℕ)
    → ((j : ℕ) → j < length counts → get_or counts j 0 ≡ occurrences (ch + j) s)
    → count_nonzero counts ≡ distinct_from ch (length counts) s
unfolding count_nonzero distinct_from
count_nonzero-distinct_from [] s ch h = refl
count_nonzero-distinct_from (c ∷ counts) s ch h =
    let z : ch + 0 ≡ ch = omega arith in
    let first : c ≡ occurrences ch s = rw z at (h 0 (omega arith)) in
    let rest =
      count_nonzero-distinct_from counts s (ch + 1)
        (λ j less. h (suc j) (omega arith) ∙ ap (λ n. occurrences n s) (omega arith)) in
    rw (first, rest) refl

-- After an update of a new histogram with fewer than 2^64 bytes, the count of each byte is how
-- often it stands in them, and unique_unigrams is the number of different bytes.
pub update-occurrences :
    (buf : List ℕ)
    → All (λ c. c < 256) buf
    → length buf < 2 ^ 64
    → let h = update new_histogram buf in
      ((ch : ℕ) → ch < 256 → get_or h.counts ch 0 ≡ occurrences ch buf)
      × (unique_unigrams h ≡ distinct_from 0 256 buf)
unfolding update unique_unigrams
update-occurrences buf bytes few =
    let size : length {A = ℕ} (replicate 256 0) ≡ 256 = length-replicate {A = ℕ} 256 0 in
    let total : length (count_all (replicate 256 0) buf) ≡ 256 =
      length-count_all (replicate 256 0) buf ∙ size in
    let each : (ch : ℕ) → get_or (count_all (replicate 256 0) buf) ch 0 ≡ occurrences ch buf = λ ch.
      omega (
        arith,
        get_or-replicate {A = ℕ} 256 ch 0,
        count_all-occurrences (replicate 256 0) buf ch size bytes
            (omega (arith, get_or-replicate {A = ℕ} 256 ch 0)),
      ) in
    (
      λ ch less. each ch,
      count_nonzero-distinct_from (count_all (replicate 256 0) buf) buf 0
            (λ j less. each j ∙ ap (λ n. occurrences n buf) (omega arith))
          ∙ ap (λ n. distinct_from 0 n buf) total,
    )
