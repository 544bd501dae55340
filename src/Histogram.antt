-- ===== src/Histogram.antt =====
-- `class histogram` of src/histogram.h.
pub mod Counts
pub mod Ngrams
use frag_find.Common.{
  ℕ, zero, suc, ◌+◌, ◌-◌, ◌%◌, ◌^◌, Bool, true, false, List, [], ◌∷◌, Option, none, some, Run, done,
  fault, out_of_bounds, ◌>>=◌, length, get_or, set, replicate, take, ltb, ◌==◌, if◌then◌else◌,
}
use frag_find.Common.Strings.{text_eq}
use frag_find.Bloom.Open.{c_string}

-- The numbers are patterns of an `int64_t`. `retained` is the memory from `retained_buf` on, which goes on
-- after the buffer, or `none` for a null pointer.
pub record Histogram : Type 0 where
  pub counts : List ℕ
  pub retained : Option (List ℕ)
  pub retained_bufsize : ℕ

abbrev pub new_histogram : Histogram
new_histogram = record { counts = replicate 256 0; retained = none; retained_bufsize = 0 }

-- `counts[ch]++`
unfoldable pub count_char : List ℕ → ℕ → List ℕ
count_char counts ch = set counts ch ((get_or counts ch 0 + 1) % 2 ^ 64)

unfoldable pub count_all : List ℕ → List ℕ → List ℕ
unfolding count_char
count_all counts [] = counts
count_all counts (ch ∷ buf) = count_all (count_char counts ch) buf

unfoldable pub update : Histogram → List ℕ → Histogram
unfolding count_all
update h buf = record { counts = count_all h.counts buf; retained = none; retained_bufsize = 0 }

-- With the memory at `buf`, of which the first `bufsize` bytes are the buffer.
unfoldable pub set_buffer : Histogram → List ℕ → ℕ → Histogram
unfolding update
set_buffer h memory bufsize = record (update h (take bufsize memory)) {
  retained = some memory;
  retained_bufsize = bufsize;
}

unfoldable pub histogram : List ℕ → ℕ → Bool → Histogram
unfolding set_buffer
histogram memory bufsize retain =
    if retain
    then set_buffer new_histogram memory bufsize
    else update new_histogram (take bufsize memory)

-- The conversion of a negative `char` to `unsigned` makes an index past the array.
unfoldable pub count_string : List ℕ → List ℕ → Run (List ℕ)
unfolding count_char
count_string counts [] = done counts
count_string counts (ch ∷ str) =
    if ltb ch 128 then count_string (count_char counts ch) str else fault out_of_bounds

unfoldable pub update_string : Histogram → List ℕ → Run Histogram
unfolding count_string
update_string h str = do counts ← count_string h.counts str; done (record h { counts = counts })

unfoldable pub count_nonzero : List ℕ → ℕ
count_nonzero [] = 0
count_nonzero (c ∷ counts) = let total = count_nonzero counts in if c == 0 then total else total + 1

unfoldable pub unique_unigrams : Histogram → ℕ
unfolding count_nonzero
unique_unigrams h = count_nonzero h.counts

unfoldable pub char_counts_from : ℕ → List ℕ → List (ℕ × ℕ)
char_counts_from i [] = []
char_counts_from i (c ∷ counts) = (i, c) ∷ char_counts_from (i + 1) counts

-- The pairs of `char_count`.
unfoldable pub get_char_counts : Histogram → List (ℕ × ℕ)
unfolding char_counts_from
get_char_counts h = char_counts_from 0 h.counts

-- The loop of `ngram_count` with `left` rounds to go, on the memory from its place on; each round compares
-- the C string that starts there.
unfoldable pub ngrams_from : List ℕ → ℕ → List ℕ → Run ℕ
ngrams_from s left [] = if left == 0 then done 0 else fault out_of_bounds
ngrams_from s left (c ∷ memory) =
    let rest = ngrams_from s (left - 1) memory in
    if left == 0 then done 0 else (do
      text ← c_string (c ∷ memory)
      count ← rest
      done (if text_eq s text then count + 1 else count))

-- `none` stands for -1. The difference of the sizes is one of 64 bits.
unfoldable pub ngram_count : Histogram → List ℕ → Run (Option ℕ)
unfolding ngrams_from
ngram_count h s = elim h.retained [
  | none ↦ done none
  | some memory ↦
      ngrams_from s ((h.retained_bufsize + 2 ^ 64 - length s) % 2 ^ 64) memory >>= λ count.
      done (some count)
]
