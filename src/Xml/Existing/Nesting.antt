-- ===== src/Xml/Existing/Nesting.antt =====
-- Reading an existing file follows the nesting of its tags.
use frag_find.Common.{
  ℕ, ◌≡◌, ◌≢◌, refl, ◌∙◌, List, [], ◌∷◌, ◌++◌, Option, none, some, Run, done, ◌>>=◌, bind-done,
  Returns, Bool-cases, inl, inr, ◌⊎◌, arith,
}
use frag_find.Common.Strings.{text_eq}
use frag_find.Xml.Writer.Tokens.{Token, start, finish}
use frag_find.Xml.Writer.Balance.{nest_token, nest, nest-append, nest-append_none}
use frag_find.Xml.Existing.{
  Existing, Searches, ends_of, track, capture_tag, capture_id, read_line, read_lines,
}

-- The tag that a line opens or closes; a line that does both leaves the nesting as it is.
unfoldable pub tag_of : List ℕ → List ℕ → List Token
tag_of [] [] = []
tag_of (b ∷ begs) [] = start (b ∷ begs) [] ∷ []
tag_of [] (e ∷ ends) = finish (e ∷ ends) ∷ []
tag_of (b ∷ begs) (e ∷ ends) = []

unfoldable pub tags_of : Searches → List (List ℕ) → List Token
tags_of r [] = []
tags_of r (line ∷ lines) =
    tag_of (r.tag_beg line) (ends_of line (r.tag_beg line) (r.tag_end line)) ++ tags_of r lines

-- A run that ends with these open tags, or with an error where the nesting fails.
abbrev pub Agrees : Option (List (List ℕ)) → Run Existing → Type 0
Agrees (some open_tags) run = Returns run λ e. e.tag_stack ≡ open_tags
Agrees none run = (e : Existing) → run ≢ done e

capture_tag-stack :
    (r : Searches) (line begs ends : List ℕ) (e : Existing)
    → (capture_tag r line begs ends e).tag_stack ≡ e.tag_stack
unfolding capture_tag
capture_tag-stack r line begs ends e = ground arith

capture_id-stack :
    (r : Searches) (line begs : List ℕ) (e : Existing)
    → (capture_id r line begs e).tag_stack ≡ e.tag_stack
unfolding capture_id
capture_id-stack r line begs e = ground arith

-- One line: the tag is taken with the nesting it makes, or it fails with it.
TagTaken : Existing → List Token → Run Existing → Type 0
TagTaken e tags run =
    ((e' : Existing) × (run ≡ done e') × (nest tags e.tag_stack ≡ some e'.tag_stack))
    ⊎ (((x : Existing) → run ≢ done x) × (nest tags e.tag_stack ≡ none))

track_end :
    (e : Existing) (c : ℕ) (ends : List ℕ) (open_tags : List (List ℕ))
    → e.tag_stack ≡ open_tags
    → TagTaken e (finish (c ∷ ends) ∷ []) (track e [] (c ∷ ends))
unfolding TagTaken track nest nest_token
track_end e c ends [] q = inr ((λ x h. ground arith), rw (q, nest, nest_token) refl)
track_end e c ends (t ∷ rest) q = elim (Bool-cases (text_eq (c ∷ ends) t)) [
  | inl same ↦
      inl (record e { tag_stack = rest }, ground arith, rw (q, nest, nest_token, same) refl)
  | inr other ↦ inr ((λ x h. ground arith), rw (q, nest, nest_token, other) refl)
]

track-TagTaken :
    (e : Existing) (begs ends : List ℕ) → TagTaken e (tag_of begs ends) (track e begs ends)
unfolding TagTaken track nest nest_token tag_of
track-TagTaken e [] [] = inl (e, refl, refl)
track-TagTaken e (b ∷ begs) [] = inl (record e { tag_stack = (b ∷ begs) ∷ e.tag_stack }, refl, refl)
track-TagTaken e [] (c ∷ ends) = track_end e c ends e.tag_stack refl
track-TagTaken e (b ∷ begs) (c ∷ ends) = inl (e, refl, refl)

read_line-stack :
    (r : Searches) (e e' : Existing) (line : List ℕ)
    → track e (r.tag_beg line) (ends_of line (r.tag_beg line) (r.tag_end line)) ≡ done e'
    → Returns (read_line r e line) λ x. x.tag_stack ≡ e'.tag_stack
unfolding read_line
read_line-stack r e e' line h =
    let begs = r.tag_beg line in
    let ends = ends_of line begs (r.tag_end line) in
    (
      capture_id r line begs (capture_tag r line begs ends e'),
      bind-done _ h refl,
      capture_id-stack r line begs (capture_tag r line begs ends e')
          ∙ capture_tag-stack r line begs ends e',
    )

-- A run that does not return does not return with more behind it.
stays-failed :
    {A : Type 0} (m : Run A) (f : A → Run Existing)
    → ((x : A) → m ≢ done x)
    → (e : Existing) → (m >>= f) ≢ done e
stays-failed (Run.done a) f h e q = h a refl
stays-failed (Run.fault c) f h e q = cc
stays-failed (Run.exited n) f h e q = cc

-- Opening an existing file follows the nesting of the tags that its lines open or close: where
-- the nesting is proper the reading returns with the tags that are open as its stack, and where
-- it fails the reading does not return normally.
pub read_lines-Agrees :
    (r : Searches) (e : Existing) (lines : List (List ℕ))
    → Agrees (nest (tags_of r lines) e.tag_stack) (read_lines r e lines)
unfolding tags_of read_lines read_line TagTaken
read_lines-Agrees r e [] = unfold nest in (e, refl, refl)
read_lines-Agrees r e (line ∷ lines) =
    elim (track-TagTaken e (r.tag_beg line) (ends_of line (r.tag_beg line) (r.tag_end line))) [
      | inl (e', run, q) ↦
          let (x, run', s) = read_line-stack r e e' line run in
          rw (nest-append _ (tags_of r lines) e.tag_stack q, ← s)
            (rw run' (read_lines-Agrees r x lines))
      | inr (fails, q) ↦ rw (nest-append_none _ (tags_of r lines) e.tag_stack q) (
          stays-failed (read_line r e line) (λ x. read_lines r x lines)
            (stays-failed
              (track e (r.tag_beg line) (ends_of line (r.tag_beg line) (r.tag_end line))) _ fails))
    ]
