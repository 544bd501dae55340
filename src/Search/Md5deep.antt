-- ===== src/Search/Md5deep.antt =====
-- `masters_t::md5deep_parse` and `read_md5deep` of frag_find.cpp. The compiled pattern of `masters_t` is
-- `reg`, and `read_u64` is `ss >> val` for a `uint64_t`. What is printed is left out.
pub mod Lines
use frag_find.Common.{
  ℕ, ◌+◌, ◌-◌, ◌%◌, ◌^◌, Bool, true, false, not, ◌||◌, List, [], ◌∷◌, Option, none, some, Run, done,
  exited, fault, overflow, ◌>>=◌, length, ltb, ◌==◌, if◌then◌else◌,
}
use frag_find.Common.Text.{codes}
use frag_find.Xml.Close.{split_lines}
use frag_find.Regex.{Engine, Regex, search_groups, myregex}

-- The variables that `md5deep_parse` sets; the numbers are patterns of 64 bits.
pub record Piece : Type 0 where
  pub md5hex : List ℕ
  pub fname : List ℕ
  pub start : ℕ
  pub len : ℕ

-- `end - start` of two `int64_t`.
unfoldable pub sub_i64 : ℕ → ℕ → Run ℕ
sub_i64 a b =
    let d = (a + 2 ^ 64 - b) % 2 ^ 64 in
    let negative = λ (n : ℕ). not (ltb n (2 ^ 63)) in
    elim (negative a) [
      | true ↦ if negative b || negative d then done d else fault overflow
      | false ↦ if negative b then (if negative d then fault overflow else done d) else done d
    ]

module _ (engine : Engine) (read_u64 : List ℕ → ℕ) where
  -- `masters_t::masters_t`
  unfoldable pub new_reg : Run Regex
  new_reg = myregex engine (codes "([0-9a-f]{32})  (.*) offset ([0-9]+)-([0-9]+)") 0

  -- `none` is the result -1.
  unfoldable pub piece_of : List (List ℕ) → Run (Option Piece)
  unfolding sub_i64
  piece_of (m₀ ∷ m₁ ∷ m₂ ∷ m₃ ∷ []) =
      if not (length m₀ == 32) || length m₁ == 0 || length m₂ == 0 || length m₃ == 0
      then done none
      else (do
        len ← sub_i64 (read_u64 m₃) (read_u64 m₂)
        done (some (record { md5hex = m₀; fname = m₁; start = read_u64 m₂; len = len })))
  piece_of _ = done none

  unfoldable pub md5deep_parse : Regex → List ℕ → Run (Option Piece)
  unfolding piece_of
  md5deep_parse reg line = do
    (code, matches) ← search_groups engine reg line ([] ∷ [] ∷ [] ∷ [] ∷ [])
    piece_of matches

  unfoldable pub read_pieces : Regex → List (List ℕ) → Run (List Piece)
  unfolding md5deep_parse
  read_pieces reg [] = done []
  read_pieces reg (line ∷ lines) = md5deep_parse reg line >>= λ parsed. elim parsed [
    | none ↦ exited 1
    | some piece ↦ read_pieces reg lines >>= λ pieces. done (piece ∷ pieces)
  ]

  -- The text of the file, or `none` if it does not open. The C function keeps nothing; the result here is
  -- what it has read.
  unfoldable pub read_md5deep : Regex → Option (List ℕ) → Run (List Piece)
  read_md5deep reg file = elim file [
    | none ↦ exited 1
    | some text ↦ let (line, rest) = split_lines text in read_pieces reg (line ∷ rest)
  ]
