-- ===== src/Xml/Writer.antt =====
-- The writer itself: the state of an `xml` object and its operations. The stream, a file or standard
-- output, is the list of characters written; no write fails, and one thread runs at a time.
pub mod Attributes
pub mod Tokens
pub mod Balance
pub mod Calls
pub mod Sequence
pub mod Reading
pub mod Effects
use frag_find.Common.{
  ℕ, Bool, true, false, not, ◌&&◌, ◌||◌, List, [], ◌∷◌, ◌++◌, Option, none, some, Run, done, exited,
  fault, assertion, ◌>>=◌, ◌==◌, if◌then◌else◌,
}
use frag_find.Common.Text.{codes}
use frag_find.Common.Strings.{insert_text}
use frag_find.Xml.Text.{xmlescape}

-- The top of the stack stands first.
pub record Xml : Type 0 where
  pub out : List ℕ
  pub tags : List (List ℕ)
  pub tag_stack : List (List ℕ)
  pub oneline : Bool
  pub make_dtd : Bool

abbrev pub xml_header : List ℕ
xml_header = codes "<?xml version='1.0' encoding='UTF-8'?>\n"

-- `xml::xml()`, and `xml::xml(outfilename,makeDTD)` for a file that opens; the argument is ignored.
abbrev pub new_xml : Xml
new_xml = record { out = xml_header; tags = []; tag_stack = []; oneline = false; make_dtd = false }

unfoldable pub open_xml : Bool → Bool → Run Xml
open_xml opens make_dtd = if opens then done new_xml else exited 1

unfoldable pub puts : Xml → List ℕ → Xml
puts x v = record x { out = x.out ++ v }

unfoldable pub has_blank : List ℕ → Bool
has_blank [] = false
has_blank (c ∷ s) = c == b' ' || has_blank s

-- The name that a tag stands for: a closing tag starts with `/`.
unfoldable pub tag_name : List ℕ → List ℕ
tag_name [] = []
tag_name (c ∷ s) = if c == b'/' then s else c ∷ s

unfoldable pub verify_tag : Xml → List ℕ → Run Xml
verify_tag x tag =
    if has_blank (tag_name tag)
    then exited 1
    else done (record x { tags = insert_text (tag_name tag) x.tags })

-- Two blanks for each open tag.
unfoldable pub indent : List (List ℕ) → List ℕ
indent [] = []
indent (t ∷ ts) = b' ' ∷ b' ' ∷ indent ts

unfoldable pub spaces : Xml → Xml
unfolding indent puts
spaces x = if x.oneline then x else puts x (indent x.tag_stack)

-- `" " attribute`, if there is one
unfoldable pub attribute_text : List ℕ → List ℕ
attribute_text [] = []
attribute_text (a ∷ s) = b' ' ∷ a ∷ s

unfoldable pub tagout : Xml → List ℕ → List ℕ → Run Xml
unfolding puts attribute_text
tagout x tag attribute = do
  x' ← verify_tag x tag
  done (puts x' (b'<' ∷ (tag ++ (attribute_text attribute ++ (b'>' ∷ [])))))

unfoldable pub push : Xml → List ℕ → List ℕ → Run Xml
unfolding spaces tagout puts
push x tag attribute = do
  let x₁ = spaces x
  x₂ ← tagout (record x₁ { tag_stack = tag ∷ x₁.tag_stack }) tag attribute
  done (if x₂.oneline then x₂ else puts x₂ (10 ∷ []))

unfoldable pub pop : Xml → Run Xml
unfolding spaces tagout puts
pop x = elim x.tag_stack [
  | [] ↦ fault assertion
  | tag ∷ rest ↦ do
    x' ← tagout (spaces (record x { tag_stack = rest })) (b'/' ∷ tag) []
    done (puts x' (10 ∷ []))
]

unfoldable pub set_oneline : Xml → Bool → Xml
unfolding spaces puts
set_oneline x v = record (if v then spaces x else puts x (10 ∷ [])) { oneline = v }

unfoldable pub comment : Xml → List ℕ → Xml
unfolding puts
comment x text = puts x (codes "<!-- " ++ (text ++ codes " -->\n"))

-- `xmlprintf`, with the text that `vasprintf` makes, or `none` when it fails.
unfoldable pub xmlprintf : Xml → List ℕ → List ℕ → Option (List ℕ) → Run Xml
unfolding spaces tagout puts
xmlprintf x tag attribute formatted = do
  x₁ ← tagout (spaces x) tag attribute
  elim formatted [
    | none ↦ exited 1
    | some text ↦ do x₂ ← tagout (puts x₁ text) (b'/' ∷ tag) []; done (puts x₂ (10 ∷ []))
  ]

-- `if(tag.size()) tagout(tag,attribute)`
unfoldable pub tagout_if : Xml → List ℕ → List ℕ → Run Xml
tagout_if x [] attribute = done x
tagout_if x (c ∷ tag) attribute = tagout x (c ∷ tag) attribute

unfoldable pub end_tag_if : Xml → List ℕ → Run Xml
end_tag_if x [] = done x
end_tag_if x (c ∷ tag) = tagout x (b'/' ∷ c ∷ tag) []

unfoldable pub xmlout : Xml → List ℕ → List ℕ → List ℕ → Bool → Run Xml
unfolding spaces tagout_if end_tag_if puts
xmlout x tag value attribute escape_value = do
  x' ← elim value [
    | [] ↦ tagout_if (spaces x) tag (attribute ++ b'/' ∷ [])
    | v ∷ vs ↦ do
      x₁ ← tagout_if (spaces x) tag attribute
      end_tag_if (puts x₁ (if escape_value then xmlescape (v ∷ vs) else v ∷ vs)) tag
  ]
  done (puts x' (10 ∷ []))
