-- ===== src/Xml/Writer/Reading/Document.antt =====
-- A reader that follows the characters of the stream finds the tags that are open.
use mathlib.Core.List.{append_assoc, append-nil}
use frag_find.Common.{
  ℕ, ◌==◌, ◌≡◌, ◌≢◌, refl, sym, ◌∙◌, ap, true, false, List, [], ◌∷◌, ◌++◌, Option, none, some, All,
  arith, Option-cases, inl, inr, Returns, ◌||◌, if◌then◌else◌,
}
use frag_find.Common.Text.{codes}
use frag_find.Common.Strings.{text_eq}
use frag_find.Xml.Writer.{Xml, xml_header, attribute_text}
use frag_find.Xml.Writer.Attributes.{is_attribute, is_attribute_from}
use frag_find.Xml.Writer.Tokens.{
  Token, start, finish, alone, text, note, render, render_all, IsName, Call, call_all,
}
use frag_find.Xml.Writer.Balance.{nest_token, nest, IsClean, IsDocument}
use frag_find.Xml.Writer.Sequence.{AllowedAll, open_after_all, call_all-IsDocument}
use frag_find.Xml.Writer.Reading.{
  Place, outside, remark, name_of, end_of_tag, read_char, read_chars, text-read, remark-read,
  tag-read, alone-read, name-then, name_of-name, attribute_text-attribute, IsFirst-tag,
}

start-read :
    (name attribute : List ℕ) (o : List (List ℕ)) (rest : List ℕ)
    → IsName name
    → is_attribute attribute ≡ true
    → read_chars outside o (render (start name attribute) ++ rest)
      ≡ read_chars outside (name ∷ o) rest
unfolding render
start-read [] attribute o rest n h = cc n.nonempty
start-read (a ∷ s) attribute o rest n h =
    let (f, chars) = IsFirst-tag a s n.simple in
    let whole : is_attribute_from 0 (a == b'/') (s ++ attribute_text attribute) ≡ true =
      (λ i. is_attribute_from 0 (f.slash i) (s ++ attribute_text attribute))
      ∙ name-then s (attribute_text attribute) chars (attribute_text-attribute attribute h) in
    let named : end_of_tag (a ∷ (s ++ attribute_text attribute)) false o ≡ some ((a ∷ s) ∷ o) =
      (λ i.
        if f.slash i
        then nest_token (finish (s ++ attribute_text attribute)) o
        else (if f.question i || false
            then some o
            else some (name_of (a ∷ (s ++ attribute_text attribute)) ∷ o)))
      ∙ ap (λ (n : List ℕ). some (n ∷ o))
          (name_of-name (a ∷ s) attribute (ground (arith, n.simple))) in
    ap (λ (w : List ℕ). read_chars outside o (b'<' ∷ a ∷ w)) (simp append_assoc)
    ∙ tag-read a (s ++ attribute_text attribute) o f.mark f.bracket f.quote whole ((a ∷ s) ∷ o) rest
        named

finish-read :
    (name : List ℕ) (o o' : List (List ℕ)) (rest : List ℕ)
    → IsName name
    → nest_token (finish name) o ≡ some o'
    → read_chars outside o (render (finish name) ++ rest) ≡ read_chars outside o' rest
unfolding render
finish-read [] o o' rest n e = cc n.nonempty
finish-read (a ∷ s) o o' rest n e =
    let whole : is_attribute_from 0 false (a ∷ s) ≡ true =
      ap (λ (w : List ℕ). is_attribute_from 0 false w) (sym (append-nil (a ∷ s)))
      ∙ name-then (a ∷ s) [] (ground (arith, n.simple)) refl in
    ap (λ (w : List ℕ). read_chars outside o (b'<' ∷ b'/' ∷ a ∷ w)) (simp append_assoc)
    ∙ tag-read b'/' (a ∷ s) o refl refl refl whole o' rest e

slash_text : (u : List ℕ) → attribute_text (u ++ b'/' ∷ []) ≡ b' ' ∷ (u ++ b'/' ∷ [])
unfolding attribute_text
slash_text [] = refl
slash_text (c ∷ u) = refl

alone_token-read :
    (name attribute : List ℕ) (o : List (List ℕ)) (rest : List ℕ)
    → IsName name
    → is_attribute attribute ≡ true
    → read_chars outside o (render (alone name attribute) ++ rest) ≡ read_chars outside o rest
unfolding render
alone_token-read [] attribute o rest n h = cc n.nonempty
alone_token-read (a ∷ s) attribute o rest n h =
    let (f, chars) = IsFirst-tag a s n.simple in
    let whole : is_attribute_from 0 (a == b'/') (s ++ b' ' ∷ attribute) ≡ true =
      (λ i. is_attribute_from 0 (f.slash i) (s ++ b' ' ∷ attribute))
      ∙ name-then s (b' ' ∷ attribute) chars h in
    ap (λ (t : List ℕ). read_chars outside o (b'<' ∷ a ∷ ((s ++ (t ++ b'>' ∷ [])) ++ rest)))
      (slash_text attribute)
    ∙ ap (λ (w : List ℕ). read_chars outside o (b'<' ∷ a ∷ w)) (simp append_assoc)
    ∙ alone-read a (s ++ b' ' ∷ attribute) o f.mark f.bracket f.quote whole rest f.slash

note-read :
    (t : List ℕ) (o : List (List ℕ)) (rest : List ℕ)
    → All (λ c. c ≢ b'>') t
    → read_chars outside o (render (note t) ++ rest) ≡ read_chars outside o rest
unfolding render read_chars read_char text_eq
note-read t o rest h =
    ap (λ (w : List ℕ). read_chars (remark 0) o w) (append_assoc t (codes " -->\n") rest)
    ∙ remark-read 0 t (codes "-->\n" ++ rest) o h

token-read :
    (t : Token) (o o' : List (List ℕ)) (rest : List ℕ)
    → IsClean t
    → nest_token t o ≡ some o'
    → read_chars outside o (render t ++ rest) ≡ read_chars outside o' rest
unfolding nest_token render
token-read (start name attribute) o o' rest (n, h) e =
    let q : name ∷ o ≡ o' = cc in
    start-read name attribute o rest n h ∙ ap (λ (p : List (List ℕ)). read_chars outside p rest) q
token-read (finish name) o o' rest n e = finish-read name o o' rest n e
token-read (alone name attribute) o o' rest (n, h) e =
    let q : o ≡ o' = cc in
    alone_token-read name attribute o rest n h
    ∙ ap (λ (p : List (List ℕ)). read_chars outside p rest) q
token-read (text t) o o' rest h e =
    let q : o ≡ o' = cc in
    text-read t rest o h ∙ ap (λ (p : List (List ℕ)). read_chars outside p rest) q
token-read (note t) o o' rest h e =
    let q : o ≡ o' = cc in
    note-read t o rest h ∙ ap (λ (p : List (List ℕ)). read_chars outside p rest) q

tokens-read :
    (ts : List Token) (o o' : List (List ℕ))
    → All IsClean ts
    → nest ts o ≡ some o'
    → read_chars outside o (render_all ts) ≡ some (outside, o')
unfolding nest render_all
tokens-read [] o o' h e =
    let q : o ≡ o' = cc in (unfold read_chars in ap (λ (p : List (List ℕ)). some (outside, p)) q)
tokens-read (t ∷ ts) o o' (h, hs) e = elim (Option-cases (nest_token t o)) [
  | inl missing ↦ cc (rw (missing, nest) at e)
  | inr (m, step) ↦
      token-read t o m (render_all ts) h step ∙ tokens-read ts m o' hs (rw (step, nest) at e)
]

abbrev at_end : Option (Place × List (List ℕ)) → Option (List (List ℕ))
at_end (some (outside, open_tags)) = some open_tags
at_end _ = none

-- The tags that are open at the end of a stream, the last first, or `none` where an end tag does not match
-- or the stream ends in a tag or a comment.
pub read_document : List ℕ → Option (List (List ℕ))
read_document s = at_end (read_chars outside [] s)

header-read : (s : List ℕ) → read_chars outside [] (xml_header ++ s) ≡ read_chars outside [] s
unfolding read_chars read_char text_eq
header-read s = refl

pub IsDocument-read : (x : Xml) → IsDocument x → read_document x.out ≡ some x.tag_stack
unfolding read_document
IsDocument-read x d =
    ap (λ (s : List ℕ). read_document s) d.written
    ∙ ap at_end
        (header-read (render_all d.tokens) ∙ tokens-read d.tokens [] x.tag_stack d.clean d.nested)

-- From a state whose output is a document with properly nested tags, any sequence of calls of the
-- writer returns and keeps it so, with the stack being the tags that are open and the set of tags
-- holding every tag written, if the name of each tag is not empty, has no blank, bracket, slash,
-- quotation mark, tabulator or line end and does not start with an exclamation or question mark,
-- attributes have no bracket, close every quotation mark and do not end in a slash, no pop meets
-- an empty stack, text that is not escaped has no opening bracket, and comments have no closing
-- bracket; the open tags afterwards are those that the calls leave, and a reader that follows
-- only the characters of the stream finds exactly these open.
pub call_all-read_document :
    (x : Xml) (calls : List Call)
    → IsDocument x
    → AllowedAll x.tag_stack calls
    → Returns (call_all x calls) λ x'.
      IsDocument x'
      × (x'.tag_stack ≡ open_after_all calls x.tag_stack)
      × (read_document x'.out ≡ some (open_after_all calls x.tag_stack))
call_all-read_document x calls d allowed =
    let (x', run, (d', e)) = call_all-IsDocument x calls d allowed in
    (x', run, (d', e, IsDocument-read x' d' ∙ ap (λ (o : List (List ℕ)). some o) e))
