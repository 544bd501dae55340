-- ===== src/Rds/File/Sequence.antt =====
-- The lines of a file come from `nextline` one after the other.
use mathlib.Core.Path.{subst}
use frag_find.Common.{
  take-append, drop-append, ℕ, ◌+◌, ◌-◌, ◌<◌, ◌≤◌, ◌≡◌, refl, sym, ◌∙◌, ap, inl, inr, List, [], ◌∷◌,
  ◌++◌, bind-done, Returns, All, length, get_or, take, drop, arith,
}
use frag_find.Bloom.Create.Files.{drop-drop}
use frag_find.Xml.Close.{join_lines}
use frag_find.Rds.File.{
  RdsFile, is_end, start_of_line, line_of, ends_of_line, getline, nextline, nextlines, open_rds,
}
use frag_find.Rds.File.Slices.{
  take-take_within, drop-take, get_or-drop, IsLine, IsFresh, line_of-take, ends_of_line-take,
}
use frag_find.Rds.File.Lines.{
  IsLoaded, Covers, IsLineAt, IsStart, line-window, load_buffer-Covers, start-in_buffer,
}

-- What the buffer has of the line at `o`, from the place `k` of the buffer on.
record IsSeen (r : RdsFile) (o : ℕ) (line : List ℕ) : Type 0 where
  start : start_of_line r.buf (o - r.buf0) ≡ o - r.buf0
  after : line_of (drop (o - r.buf0) (take r.buflen r.buf)) ≡ line
  ends : ends_of_line (drop (o - r.buf0 + length line) (take r.buflen r.buf)) ≡ 1
  whole : take (length line) (drop (o - r.buf0) r.buf) ≡ line

Covers-IsSeen :
    (r r' : RdsFile) (o : ℕ) (line post : List ℕ)
    → Covers o (length line) r r'
    → IsLineAt r.contents o line post
    → IsStart r.contents o
    → IsLine line
    → IsFresh post
    → IsSeen r' o line
Covers-IsSeen r r' o line post c at starts plain fresh =
    let k = o - r'.buf0 in
    let m = r'.buf0 + r'.buflen - o in
    let text = line ++ 10 ∷ post in
    let low = c.low in
    let high : o + length line < r'.buf0 + r'.buflen = c.high in
    let long : length line < m = omega arith in
    let piece : drop k (take r'.buflen r'.buf) ≡ take m text =
      line-window r' o line post c.loaded (ap (λ (s : List ℕ). drop o s) c.same ∙ at) low
        (omega arith) in
    record {
      start =
          start-in_buffer r' o c.loaded low (omega arith)
            (subst (λ (s : List ℕ). IsStart s o) (sym c.same) starts);
      after = ap (λ (s : List ℕ). line_of s) piece ∙ line_of-take m line post plain long;
      ends =
          ap (λ (s : List ℕ). ends_of_line s)
            (sym (drop-drop k (length line) (take r'.buflen r'.buf))
              ∙ ap (λ (s : List ℕ). drop (length line) s) piece
              ∙ drop-take (length line) m text (omega arith)
              ∙ ap (λ (s : List ℕ). take (m - length line) s) (drop-append line (10 ∷ post)))
          ∙ ends_of_line-take (m - length line) post (omega arith) fresh;
      whole =
          sym (take-take_within (length line) (r'.buflen - k) (drop k r'.buf) (omega arith))
          ∙ ap (λ (s : List ℕ). take (length line) s)
              (sym (drop-take k r'.buflen r'.buf (omega arith)) ∙ piece)
          ∙ take-take_within (length line) m text (omega arith)
          ∙ take-append line (10 ∷ post);
    }

-- The state after a line.
record IsNext (r : RdsFile) (line : List ℕ) (r' : RdsFile) : Type 0 where
  loaded : IsLoaded r'
  same : r'.contents ≡ r.contents
  place : r'.next_line ≡ r.next_line + length line + 1

nextline-IsNext :
    (r : RdsFile) (line post : List ℕ)
    → IsLoaded r
    → IsLineAt r.contents r.next_line line post
    → IsStart r.contents r.next_line
    → IsLine line
    → length line ≤ 510
    → IsFresh post
    → Returns (nextline r) λ s. IsNext r line s.0 × (s.1 ≡ line)
unfolding nextline getline
nextline-IsNext r line post h at starts plain short fresh =
    let o = r.next_line in
    let (r', run, c) = load_buffer-Covers r o line post h at plain short in
    let seen = Covers-IsSeen r r' o line post c at starts plain fresh in
    let low = c.low in
    let n : o - r'.buf0 + length line - (o - r'.buf0) ≡ length line = omega arith in
    (
      (record r' { next_line = o - r'.buf0 + length line + r'.buf0 + 1 }, line),
      bind-done _ run (rw (seen.start, seen.after, seen.ends, n, seen.whole) refl),
      (
        record {
          loaded = record {
            sized = c.loaded.sized;
            inside = c.loaded.inside;
            held = c.loaded.held;
          };
          same = c.same;
          place = omega arith;
        },
        refl,
      ),
    )

get_or-append : (xs ys : List ℕ) (c : ℕ) → get_or (xs ++ c ∷ ys) (length xs) 0 ≡ c
get_or-append [] ys c = refl
get_or-append (x ∷ xs) ys c = get_or-append xs ys c

-- The place after a line starts the next one.
next-IsStart :
    (contents : List ℕ) (o : ℕ) (line post : List ℕ)
    → IsLineAt contents o line post
    → (drop (o + length line + 1) contents ≡ post) × IsStart contents (o + length line + 1)
unfolding is_end
next-IsStart contents o line post at =
    let z : o + length line + 1 - 1 ≡ o + length line = omega arith in
    let there : get_or contents (o + length line) 0 ≡ 10 =
      sym (get_or-drop o (length line) contents)
      ∙ ap (λ (s : List ℕ). get_or s (length line) 0) at
      ∙ get_or-append line post 10 in
    (
      sym (drop-drop (o + length line) 1 contents)
          ∙ ap (λ (s : List ℕ). drop 1 s)
              (sym (drop-drop o (length line) contents)
                ∙ ap (λ (s : List ℕ). drop (length line) s) at
                ∙ drop-append line (10 ∷ post)),
      inr (rw (z, there) refl),
    )

-- A line that is not empty, with room for the page that holds it.
pub record IsShort (line : List ℕ) : Type 0 where
  pub plain : IsLine line
  pub some_text : 0 < length line
  pub short : length line ≤ 510

join_lines-IsFresh : (lines : List (List ℕ)) → All IsShort lines → IsFresh (join_lines lines)
unfolding join_lines
join_lines-IsFresh [] h = tt
join_lines-IsFresh ([] ∷ lines) h = absurd (omega (arith, h.0.some_text))
join_lines-IsFresh ((c ∷ line) ∷ lines) h = h.0.plain.0

nextlines-all :
    (lines : List (List ℕ)) (r : RdsFile)
    → IsLoaded r
    → drop r.next_line r.contents ≡ join_lines lines
    → IsStart r.contents r.next_line
    → All IsShort lines
    → Returns (nextlines (length lines) r) λ s. s.1 ≡ lines
unfolding nextlines join_lines
nextlines-all [] r h at starts short = ((r, []), refl, refl)
nextlines-all (line ∷ lines) r h at starts (l, short) =
    let ((r', seen), run, (n, e)) =
      nextline-IsNext r line (join_lines lines) h at starts l.plain l.short
        (join_lines-IsFresh lines short) in
    let (after, start) = next-IsStart r.contents r.next_line line (join_lines lines) at in
    let (s, run', q) =
      nextlines-all lines r' n.loaded ((λ i. drop (n.place i) (n.same i)) ∙ after)
        (subst (λ (o : ℕ). IsStart r'.contents o) (sym n.place)
          (subst (λ (c : List ℕ). IsStart c (r.next_line + length line + 1)) (sym n.same) start))
        short in
    ((s.0, seen ∷ s.1), bind-done _ run (bind-done _ run' refl), (λ i. e i ∷ q i))

-- From the start of a file of lines of 1 to 510 characters that each end in a line feed and have
-- no other line end, calling nextline as often as there are lines returns those lines in order,
-- whatever was in the memory of the buffer.
pub nextlines-join_lines :
    (lines : List (List ℕ)) (memory : List ℕ)
    → All IsShort lines
    → Returns (nextlines (length lines) (open_rds (join_lines lines) memory)) λ s. s.1 ≡ lines
unfolding open_rds
nextlines-join_lines lines memory short =
    nextlines-all lines (open_rds (join_lines lines) memory)
      (record { sized = refl; inside = omega arith; held = refl }) refl (inl refl) short
