-- ===== src/Xml/Writer/Tokens.antt =====
-- What a writer has written, as a list of tags and texts, and what each operation adds to it.
use mathlib.Core.List.{append-nil}
use frag_find.Common.{
  ℕ, ◌≡◌, refl, Bool, true, false, List, [], ◌∷◌, ◌++◌, some, Run, done, ◌>>=◌, if◌then◌else◌,
  Bool-cases, inl, inr,
}
use frag_find.Common.Text.{codes}
use frag_find.Common.Strings.{insert_text}
use frag_find.Xml.Text.{xmlescape}
use frag_find.Xml.Writer.Attributes.{is_tag}
use frag_find.Xml.Writer.{
  Xml, puts, has_blank, tag_name, verify_tag, indent, spaces, attribute_text, tagout, push, pop,
  set_oneline, comment, xmlprintf, xmlout,
}

pub data Token : Type 0 where
  start : List ℕ → List ℕ → Token
  finish : List ℕ → Token
  alone : List ℕ → List ℕ → Token
  text : List ℕ → Token
  note : List ℕ → Token

unfoldable pub render : Token → List ℕ
render (start name attribute) = b'<' ∷ (name ++ (attribute_text attribute ++ (b'>' ∷ [])))
render (finish name) = b'<' ∷ b'/' ∷ (name ++ (b'>' ∷ []))
render (alone name attribute) =
    b'<' ∷ (name ++ (attribute_text (attribute ++ b'/' ∷ []) ++ (b'>' ∷ [])))
render (text t) = t
render (note t) = codes "<!-- " ++ (t ++ codes " -->\n")

unfoldable pub render_all : List Token → List ℕ
render_all [] = []
render_all (t ∷ ts) = render t ++ render_all ts

-- The operations of a client.
pub data Call : Type 0 where
  push_tag : List ℕ → List ℕ → Call
  pop_tag : Call
  out_value : List ℕ → List ℕ → List ℕ → Bool → Call
  out_printf : List ℕ → List ℕ → List ℕ → Call
  one_line : Bool → Call
  write_comment : List ℕ → Call
  put_text : List ℕ → Call

unfoldable pub call : Xml → Call → Run Xml
call x (push_tag tag attribute) = push x tag attribute
call x pop_tag = pop x
call x (out_value tag value attribute escape_value) = xmlout x tag value attribute escape_value
call x (out_printf tag attribute formatted) = xmlprintf x tag attribute (some formatted)
call x (one_line v) = done (set_oneline x v)
call x (write_comment t) = done (comment x t)
call x (put_text t) = done (puts x t)

unfoldable pub call_all : Xml → List Call → Run Xml
call_all x [] = done x
call_all x (c ∷ cs) = call x c >>= λ x'. call_all x' cs

-- The blanks before a tag.
unfoldable pub pad : Xml → List ℕ
pad x = if x.oneline then [] else indent x.tag_stack

unfoldable pub value_tokens : List ℕ → List ℕ → List ℕ → Bool → List Token
value_tokens tag [] attribute escape_value = alone tag attribute ∷ []
value_tokens tag (v ∷ vs) attribute escape_value =
    start tag attribute
    ∷ text (if escape_value then xmlescape (v ∷ vs) else v ∷ vs)
    ∷ finish tag
    ∷ []

-- What one call writes.
unfoldable pub tokens_of : Xml → Call → List Token
unfolding pad value_tokens
tokens_of x (push_tag tag attribute) =
    text (pad x) ∷ start tag attribute ∷ text (if x.oneline then [] else 10 ∷ []) ∷ []
tokens_of x pop_tag = elim x.tag_stack [
  | [] ↦ []
  | tag ∷ rest ↦ text (pad (record x { tag_stack = rest })) ∷ finish tag ∷ text (10 ∷ []) ∷ []
]
tokens_of x (out_value tag value attribute escape_value) =
    text (pad x) ∷ (value_tokens tag value attribute escape_value ++ (text (10 ∷ []) ∷ []))
tokens_of x (out_printf tag attribute formatted) =
    text (pad x) ∷ start tag attribute ∷ text formatted ∷ finish tag ∷ text (10 ∷ []) ∷ []
tokens_of x (one_line v) = text (if v then pad x else 10 ∷ []) ∷ []
tokens_of x (write_comment t) = note t ∷ []
tokens_of x (put_text t) = text t ∷ []

-- A tag that can be opened and closed, and that is read as one name.
pub record IsName (tag : List ℕ) : Type 0 where
  pub no_blank : has_blank tag ≡ false
  pub plain : tag_name tag ≡ tag
  pub initial : ℕ
  pub others : List ℕ
  pub nonempty : tag ≡ initial ∷ others
  pub simple : is_tag tag ≡ true

abbrev pub add : Xml → List ℕ → Xml
add x t = record x { out = x.out ++ t }

pub spaces-pad : (x : Xml) → spaces x ≡ add x (pad x)
unfolding spaces pad
spaces-pad x = elim (Bool-cases x.oneline) [
  | inl e ↦ one_line_pad x.oneline e
  | inr e ↦ many_pad x.oneline e
]
  where
    one_line_pad :
        (b : Bool)
        → b ≡ true
        → (if b then x else puts x (indent x.tag_stack))
          ≡ add x (if b then [] else indent x.tag_stack)
    one_line_pad b e = rw (e, append-nil x.out) refl

    many_pad :
        (b : Bool)
        → b ≡ false
        → (if b then x else puts x (indent x.tag_stack))
          ≡ add x (if b then [] else indent x.tag_stack)
    many_pad b e = rw e refl

pub tagout-open :
    (x : Xml) (tag attribute : List ℕ)
    → IsName tag
    → tagout x tag attribute
      ≡ done
          (record x { out = x.out ++ render (start tag attribute); tags = insert_text tag x.tags })
unfolding tagout verify_tag render
tagout-open x tag attribute n = rw (n.plain, n.no_blank) refl

pub tagout-close :
    (x : Xml) (tag : List ℕ)
    → IsName tag
    → tagout x (b'/' ∷ tag) []
      ≡ done (record x { out = x.out ++ render (finish tag); tags = insert_text tag x.tags })
unfolding tagout verify_tag render tag_name
tagout-close x tag n = rw n.no_blank refl
