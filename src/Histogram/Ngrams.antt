-- ===== src/Histogram/Ngrams.antt =====
-- What `ngram_count` counts.
use frag_find.Common.{
  ℕ, zero, suc, ◌+◌, ◌-◌, ◌%◌, ◌^◌, ◌<◌, ◌≤◌, ◌≡◌, ◌≢◌, refl, ap, false, List, [], ◌∷◌, ◌++◌, some,
  done, All, length, ◌==◌, Bool-cases, inl, inr, arith,
}
use frag_find.Common.Strings.{text_eq, text_eq_iff}
use frag_find.Bloom.Open.Header.{c_string-NoNul}
use frag_find.Histogram.{Histogram, ngrams_from, ngram_count}

differs : (s t : List ℕ) → length s < length t → text_eq s t ≡ false
differs s t less = elim (Bool-cases (text_eq s t)) [
  | inl e ↦ absurd (omega (arith, ap length ((text_eq_iff s t).0 e)))
  | inr e ↦ e
]

ngrams_from-zero :
    (s text rest : List ℕ) (left : ℕ)
    → All (λ c. c ≢ 0) text
    → left + length s ≤ length text
    → ngrams_from s left (text ++ 0 ∷ rest) ≡ done 0
unfolding ngrams_from
ngrams_from-zero s [] rest left h less = let z : left ≡ 0 = omega arith in rw z refl
ngrams_from-zero s (c ∷ text) rest zero h less = refl
ngrams_from-zero s (c ∷ text) rest (suc left) h less =
    let m : suc left - 1 ≡ left = omega arith in
    let z : (suc left == 0) ≡ false = ground arith in
    rw
      (
        z,
        m,
        c_string-NoNul (c ∷ text) rest h,
        ngrams_from-zero s text rest left h.1 (omega arith),
        differs s (c ∷ text) (omega arith),
      )
      refl

-- On a retained buffer of fewer than 2^63 bytes without NUL that a NUL follows, ngram_count gives
-- 0 for every text that is no longer than the buffer, also for one that stands in it.
pub ngram_count-zero :
    (h : Histogram) (buf rest s : List ℕ)
    → h.retained ≡ some (buf ++ 0 ∷ rest)
    → h.retained_bufsize ≡ length buf
    → All (λ c. c ≢ 0) buf
    → length buf < 2 ^ 63
    → length s ≤ length buf
    → ngram_count h s ≡ done (some 0)
unfolding ngram_count
ngram_count-zero h buf rest s held size plain word short =
    let left : (h.retained_bufsize + 2 ^ 64 - length s) % 2 ^ 64 ≡ length buf - length s =
      omega arith in
    rw (held, left, ngrams_from-zero s buf rest (length buf - length s) plain (omega arith)) refl
