-- ===== src/Search/Md5deep/Lines.antt =====
-- Which files `read_md5deep` takes.
use mathlib.Core.List.{append_assoc}
use frag_find.Common.{
  ℕ, ◌≡◌, ◌≢◌, All, All-append, refl, ◌∙◌, ap, false, List, [], ◌∷◌, ◌++◌, none, some, Run, done,
  exited, ◌>>=◌, bind-done, ◌==◌, arith, Bool-cases, inl, inr,
}
use frag_find.Xml.Close.{split_lines}
use frag_find.Regex.{Engine, Regex, failed, search_groups}
use frag_find.Search.Md5deep.{Piece, piece_of, md5deep_parse, read_pieces, read_md5deep}

-- A line with the pattern of md5deep, in which the reader finds this piece.
abbrev pub Reads : Engine → (List ℕ → ℕ) → Regex → List ℕ → Piece → Type 0
Reads engine read_u64 reg line piece = md5deep_parse engine read_u64 reg line ≡ done (some piece)

-- Lines and their pieces.
abbrev pub ReadsAll : Engine → (List ℕ → ℕ) → Regex → List (List ℕ) → List Piece → Type 0
ReadsAll engine read_u64 reg [] [] = Unit
ReadsAll engine read_u64 reg (line ∷ lines) (piece ∷ pieces) =
    Reads engine read_u64 reg line piece × ReadsAll engine read_u64 reg lines pieces
ReadsAll engine read_u64 reg _ _ = ⊥

-- A text of lines with a line end between two of them.
unfoldable pub join_between : List ℕ → List (List ℕ) → List ℕ
join_between line [] = line
join_between line (next ∷ lines) = line ++ 10 ∷ join_between next lines

-- A line without a line end.
abbrev pub IsLine : List ℕ → Type 0
IsLine line = All (λ c. c ≢ 10) line

split_lines-line : (line : List ℕ) → IsLine line → split_lines line ≡ (line, [])
unfolding split_lines
split_lines-line [] h = refl
split_lines-line (c ∷ line) (n, h) =
    let z : (c == 10) ≡ false = ground arith in rw (split_lines-line line h, z) refl

split_lines-next :
    (line text : List ℕ)
    → IsLine line
    → split_lines (line ++ 10 ∷ text) ≡ (line, (split_lines text).0 ∷ (split_lines text).1)
unfolding split_lines
split_lines-next [] text h = refl
split_lines-next (c ∷ line) text (n, h) =
    let z : (c == 10) ≡ false = ground arith in rw (split_lines-next line text h, z) refl

split_lines-join_between :
    (line : List ℕ) (lines : List (List ℕ))
    → All IsLine (line ∷ lines)
    → split_lines (join_between line lines) ≡ (line, lines)
unfolding join_between
split_lines-join_between line [] (h, all) = split_lines-line line h
split_lines-join_between line (next ∷ lines) (h, all) =
    rw (split_lines-next line (join_between next lines) h, split_lines-join_between next lines all)
      refl

-- A line end after the last line makes an empty line.
join_between-append :
    (line : List ℕ) (lines : List (List ℕ))
    → join_between line lines ++ 10 ∷ [] ≡ join_between line (lines ++ [] ∷ [])
unfolding join_between
join_between-append line [] = refl
join_between-append line (next ∷ lines) =
    append_assoc line (10 ∷ join_between next lines) (10 ∷ [])
    ∙ ap (λ (t : List ℕ). line ++ 10 ∷ t) (join_between-append next lines)

module _ (engine : Engine) (read_u64 : List ℕ → ℕ) (reg : Regex) where
  read_pieces-ReadsAll :
      (lines : List (List ℕ)) (pieces : List Piece)
      → ReadsAll engine read_u64 reg lines pieces
      → read_pieces engine read_u64 reg lines ≡ done pieces
  unfolding read_pieces
  read_pieces-ReadsAll [] [] h = refl
  read_pieces-ReadsAll [] (p ∷ ps) h = absurd h
  read_pieces-ReadsAll (l ∷ ls) [] h = absurd h
  read_pieces-ReadsAll (l ∷ ls) (p ∷ ps) (h, hs) =
      bind-done _ h (bind-done _ (read_pieces-ReadsAll ls ps hs) refl)

  read_md5deep-ReadsAll :
      (line : List ℕ) (lines : List (List ℕ)) (pieces : List Piece)
      → All IsLine (line ∷ lines)
      → ReadsAll engine read_u64 reg (line ∷ lines) pieces
      → read_md5deep engine read_u64 reg (some (join_between line lines)) ≡ done pieces
  unfolding read_md5deep
  read_md5deep-ReadsAll line lines pieces ends h =
      rw (split_lines-join_between line lines ends) (read_pieces-ReadsAll (line ∷ lines) pieces h)

  empty-refused :
      (code : ℕ)
      → engine.regexec reg.pat reg.flags [] ≡ failed code
      → md5deep_parse engine read_u64 reg [] ≡ done none
  unfolding md5deep_parse search_groups piece_of
  empty-refused code e = elim (Bool-cases reg.compiled) [
    | inl c ↦ rw (c, e) refl
    | inr c ↦ rw c refl
  ]

  read_pieces-refuses :
      (code : ℕ) (lines : List (List ℕ)) (pieces : List Piece)
      → engine.regexec reg.pat reg.flags [] ≡ failed code
      → ReadsAll engine read_u64 reg lines pieces
      → read_pieces engine read_u64 reg (lines ++ [] ∷ []) ≡ exited 1
  unfolding read_pieces
  read_pieces-refuses code [] [] e h = bind-done _ (empty-refused code e) refl
  read_pieces-refuses code [] (p ∷ ps) e h = absurd h
  read_pieces-refuses code (l ∷ ls) [] e h = absurd h
  read_pieces-refuses code (l ∷ ls) (p ∷ ps) e (h, hs) = bind-done _ h (
      ap (λ (r : Run (List Piece)). r >>= λ pieces. done (p ∷ pieces))
        (read_pieces-refuses code ls ps e hs))

  -- If the library finds no match in an empty text, a file of one or more lines without line ends
  -- in them, in each of which md5deep_parse finds a piece, is read as those pieces in order when
  -- no line end follows the last line, and ends the program with status 1 when one does.
  pub read_md5deep-join_between :
      (code : ℕ) (line : List ℕ) (lines : List (List ℕ)) (pieces : List Piece)
      → engine.regexec reg.pat reg.flags [] ≡ failed code
      → All IsLine (line ∷ lines)
      → ReadsAll engine read_u64 reg (line ∷ lines) pieces
      → let text = join_between line lines in
        (read_md5deep engine read_u64 reg (some text) ≡ done pieces)
        × (read_md5deep engine read_u64 reg (some (text ++ 10 ∷ [])) ≡ exited 1)
  unfolding read_md5deep
  read_md5deep-join_between code line lines pieces e ends h = (
    read_md5deep-ReadsAll line lines pieces ends h,
    rw
        (
          join_between-append line lines,
          split_lines-join_between line (lines ++ [] ∷ [])
              (All-append IsLine (line ∷ lines) ([] ∷ []) ends (tt, tt)),
        )
        (read_pieces-refuses code (line ∷ lines) pieces e h),
  )
