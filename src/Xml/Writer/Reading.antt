-- ===== src/Xml/Writer/Reading.antt =====
-- A reader of the stream that follows the characters only, and that it finds the open tags.
pub mod Document
use frag_find.Common.{
  ℕ, ◌==◌, ◌≡◌, ◌≢◌, ◌+◌, refl, sym, ◌∙◌, ap, Bool, true, false, not, ◌&&◌, ◌||◌, List, [], ◌∷◌,
  ◌++◌, Option, Bool-cases, inl, inr, none, some, All, arith, leb, if◌then◌else◌, Returns,
}
use mathlib.Core.List.{append_assoc, append-nil}
use frag_find.Common.Text.{codes}
use frag_find.Common.Strings.{text_eq}
use frag_find.Xml.Writer.{Xml, xml_header, new_xml, attribute_text}
use frag_find.Xml.Writer.Attributes.{
  is_inner, is_name_char, name_chars, is_tag, quote_after, is_attribute_from, is_attribute,
}
use frag_find.Xml.Writer.Tokens.{
  Token, start, finish, alone, text, note, render, render_all, IsName, Call, call_all,
}
use frag_find.Xml.Writer.Balance.{nest_token}

-- Between tags; in a tag, with its characters, the open quotation mark, and whether a slash was the last;
-- or in a comment, after so many dashes.
pub data Place : Type 0 where
  outside : Place
  inside : List ℕ → ℕ → Bool → Place
  remark : ℕ → Place

abbrev pub name_of : List ℕ → List ℕ
name_of [] = []
name_of (c ∷ s) = if is_name_char c then c ∷ name_of s else []

-- The open tags after a tag with these characters between its brackets.
abbrev pub end_of_tag : List ℕ → Bool → List (List ℕ) → Option (List (List ℕ))
end_of_tag [] slash open_tags = none
end_of_tag (c ∷ s) slash open_tags =
    if c == b'/'
    then nest_token (finish s) open_tags
    else (if c == b'?' || slash then some open_tags else some (name_of (c ∷ s) ∷ open_tags))

abbrev pub place_in : List ℕ → ℕ → Bool → Place
place_in seen quote slash = if text_eq seen (codes "!--") then remark 0 else inside seen quote slash

-- One character.
unfoldable pub read_char : Place → List (List ℕ) → ℕ → Option (Place × List (List ℕ))
read_char outside open_tags c =
    if c == b'<' then some (inside [] 0 false, open_tags) else some (outside, open_tags)
read_char (inside seen quote slash) open_tags c =
    if quote == 0 && c == b'>'
    then elim (end_of_tag seen slash open_tags) [ none ↦ none | some rest ↦ some (outside, rest) ]
    else some (place_in (seen ++ c ∷ []) (quote_after quote c) (c == b'/'), open_tags)
read_char (remark dashes) open_tags c =
    if c == b'-'
    then some (remark (dashes + 1), open_tags)
    else (if c == b'>' && leb 2 dashes
        then some (outside, open_tags)
        else some (remark 0, open_tags))

unfoldable pub read_chars : Place → List (List ℕ) → List ℕ → Option (Place × List (List ℕ))
read_chars place open_tags [] = some (place, open_tags)
read_chars place open_tags (c ∷ s) = elim (read_char place open_tags c) [
  | none ↦ none
  | some (place', rest) ↦ read_chars place' rest s
]

step :
    (p p' : Place) (o o' : List (List ℕ)) (c : ℕ) (s : List ℕ)
    → read_char p o c ≡ some (p', o')
    → read_chars p o (c ∷ s) ≡ read_chars p' o' s
unfolding read_chars
step p p' o o' c s e = rw (e, read_chars) refl

pub text-read :
    (t rest : List ℕ) (o : List (List ℕ))
    → All (λ c. c ≢ b'<') t
    → read_chars outside o (t ++ rest) ≡ read_chars outside o rest
unfolding read_char
text-read [] rest o h = refl
text-read (c ∷ t) rest o (h, hs) =
    let e : (c == b'<') ≡ false = ground arith in
    step outside outside o o c (t ++ rest) (rw (e, read_char) refl) ∙ text-read t rest o hs

pub remark-read :
    (k : ℕ) (t rest : List ℕ) (o : List (List ℕ))
    → All (λ c. c ≢ b'>') t
    → read_chars (remark k) o (t ++ b' ' ∷ rest) ≡ read_chars (remark 0) o rest
unfolding read_char
remark-read k [] rest o h = step (remark k) (remark 0) o o b' ' rest refl
remark-read k (c ∷ t) rest o (h, hs) =
    let e : (c == b'>') ≡ false = ground arith in
    elim (Bool-cases (c == b'-')) [
      | inl d ↦
          step (remark k) (remark (k + 1)) o o c (t ++ b' ' ∷ rest) (rw (d, read_char) refl)
          ∙ remark-read (k + 1) t rest o hs
      | inr d ↦
          step (remark k) (remark 0) o o c (t ++ b' ' ∷ rest) (rw (d, e, read_char) refl)
          ∙ remark-read 0 t rest o hs
    ]

-- The characters of a tag that does not start with an exclamation mark.
inside-read :
    (a : ℕ) (seen u rest : List ℕ) (q : ℕ) (slash : Bool) (o : List (List ℕ))
    → (a == b'!') ≡ false
    → is_attribute_from q slash u ≡ true
    → read_chars (inside (a ∷ seen) q slash) o (u ++ rest)
      ≡ read_chars (inside (a ∷ (seen ++ u)) 0 false) o rest
unfolding read_char text_eq
inside-read a seen [] rest q slash o first h =
    let zero_quote : q ≡ 0 = ground arith in
    let no_slash : slash ≡ false = ground arith in
    rw (append-nil seen) λ i. read_chars (inside (a ∷ seen) (zero_quote i) (no_slash i)) o rest
inside-read a seen (c ∷ u) rest q slash o first h =
    let bracket : (q == 0 && c == b'>') ≡ false = ground arith in
    let more : is_attribute_from (quote_after q c) (c == b'/') u ≡ true = ground arith in
    step (inside (a ∷ seen) q slash) (inside (a ∷ (seen ++ c ∷ [])) (quote_after q c) (c == b'/')) o
      o c (u ++ rest) (rw (bracket, first, read_char) refl)
    ∙ inside-read a (seen ++ c ∷ []) u rest (quote_after q c) (c == b'/') o first more
    ∙ ap (λ (s : List ℕ). read_chars (inside (a ∷ s) 0 false) o rest) (append_assoc seen (c ∷ []) u)

module _ (a : ℕ) (u : List ℕ) (o : List (List ℕ)) (first : (a == b'!') ≡ false)
    (bracket : (a == b'>') ≡ false) (quote : quote_after 0 a ≡ 0)
    (whole : is_attribute_from 0 (a == b'/') u ≡ true) where
  -- From the opening bracket on.
  opening-read :
      (rest : List ℕ)
      → read_chars outside o (b'<' ∷ a ∷ (u ++ rest)) ≡ read_chars (inside (a ∷ u) 0 false) o rest
  unfolding read_char text_eq
  opening-read rest =
      step outside (inside [] 0 false) o o b'<' (a ∷ (u ++ rest)) refl
      ∙ step (inside [] 0 false) (inside (a ∷ []) 0 (a == b'/')) o o a (u ++ rest)
          (rw (bracket, first, read_char) (λ i. some (inside (a ∷ []) (quote i) (a == b'/'), o)))
      ∙ inside-read a [] u rest 0 (a == b'/') o first whole

  pub tag-read :
      (o' : List (List ℕ)) (rest : List ℕ)
      → end_of_tag (a ∷ u) false o ≡ some o'
      → read_chars outside o (b'<' ∷ a ∷ (u ++ b'>' ∷ rest)) ≡ read_chars outside o' rest
  unfolding read_char
  tag-read o' rest e =
      opening-read (b'>' ∷ rest)
      ∙ step (inside (a ∷ u) 0 false) outside o o' b'>' rest (rw (e, read_char) refl)

  pub alone-read :
      (rest : List ℕ)
      → (a == b'/') ≡ false
      → read_chars outside o (b'<' ∷ a ∷ (u ++ b'/' ∷ b'>' ∷ rest)) ≡ read_chars outside o rest
  unfolding read_char text_eq
  alone-read rest e =
      opening-read (b'/' ∷ b'>' ∷ rest)
      ∙ step (inside (a ∷ u) 0 false) (inside (a ∷ (u ++ b'/' ∷ [])) 0 true) o o b'/' (b'>' ∷ rest)
          (rw (first, read_char) refl)
      ∙ step (inside (a ∷ (u ++ b'/' ∷ [])) 0 true) outside o o b'>' rest
          (rw (e, read_char) (ground arith))

pub name-then :
    (s u : List ℕ)
    → name_chars s ≡ true
    → is_attribute_from 0 false u ≡ true
    → is_attribute_from 0 false (s ++ u) ≡ true
name-then [] u h a = a
name-then (c ∷ s) u h a =
    let inner : is_inner c ≡ true = ground arith in
    let quote : quote_after 0 c ≡ 0 = ground arith in
    let slash : (c == b'/') ≡ false = ground arith in
    (λ i. inner i && is_attribute_from (quote i) (slash i) (s ++ u))
    ∙ name-then s u (ground arith) a

pub name_of-name : (s u : List ℕ) → name_chars s ≡ true → name_of (s ++ attribute_text u) ≡ s
unfolding attribute_text
name_of-name [] [] h = refl
name_of-name [] (c ∷ u) h = refl
name_of-name (c ∷ s) u h =
    let e : is_name_char c ≡ true = ground arith in
    (λ i. if e i then c ∷ name_of (s ++ attribute_text u) else [])
    ∙ ap (λ (t : List ℕ). c ∷ t) (name_of-name s u (ground arith))

pub attribute_text-attribute :
    (u : List ℕ) → is_attribute u ≡ true → is_attribute_from 0 false (attribute_text u) ≡ true
unfolding attribute_text
attribute_text-attribute [] h = refl
attribute_text-attribute (c ∷ u) h = h

-- What the first character of a name is not.
pub record IsFirst (a : ℕ) : Type 0 where
  pub mark : (a == b'!') ≡ false
  pub question : (a == b'?') ≡ false
  pub bracket : (a == b'>') ≡ false
  pub slash : (a == b'/') ≡ false
  pub quote : quote_after 0 a ≡ 0

pub IsFirst-tag : (a : ℕ) (s : List ℕ) → is_tag (a ∷ s) ≡ true → IsFirst a × (name_chars s ≡ true)
IsFirst-tag a s h = (
  record {
    mark = ground arith;
    question = ground arith;
    bracket = ground arith;
    slash = ground arith;
    quote = ground arith;
  },
  ground arith,
)
