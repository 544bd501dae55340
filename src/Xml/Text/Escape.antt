-- ===== src/Xml/Text/Escape.antt =====
-- What `xmlescape` guarantees to a reader of the document.
use frag_find.Common.{
  ℕ, ◌≡◌, ◌≢◌, refl, ◌∙◌, List, [], ◌∷◌, ◌++◌, Option, none, some, All, All-append, ◌==◌,
  if◌then◌else◌, arith,
}
use frag_find.Common.Text.{codes}
use frag_find.Common.Strings.{text_eq}
use frag_find.Xml.Text.{escape_char, xmlescape}

-- A character that starts no tag and ends no quoted attribute.
abbrev pub IsQuiet : ℕ → Type 0
IsQuiet c =
    (c ≢ b'<') × (c ≢ b'>') × (c ≢ b'"') × (c ≢ b'\'') × (c ≢ 0) × (c ≢ 9) × (c ≢ 10) × (c ≢ 13)

escape_char-IsQuiet : (c : ℕ) → All IsQuiet (escape_char c)
unfolding escape_char
escape_char-IsQuiet c = ground arith

pub xmlescape-IsQuiet : (s : List ℕ) → All IsQuiet (xmlescape s)
unfolding xmlescape
xmlescape-IsQuiet [] = tt
xmlescape-IsQuiet (c ∷ s) =
    All-append IsQuiet (escape_char c) (xmlescape s) (escape_char-IsQuiet c) (xmlescape-IsQuiet s)

-- The five references that XML defines.
unfoldable pub entity : List ℕ → Option ℕ
entity name =
    if text_eq name (codes "lt")
    then some b'<'
    else (if text_eq name (codes "gt")
        then some b'>'
        else (if text_eq name (codes "amp")
            then some b'&'
            else (if text_eq name (codes "apos")
                then some b'\''
                else (if text_eq name (codes "quot") then some b'"' else none))))

unfoldable pub referred : Option ℕ → Option (List ℕ) → Option (List ℕ)
referred none rest = none
referred (some d) none = none
referred (some d) (some t) = some (d ∷ t)

-- What an XML reader makes of character data: the second argument is the name of the reference that it
-- is in.
unfoldable pub decode : List ℕ → Option (List ℕ) → Option (List ℕ)
decode [] none = some []
decode [] (some name) = none
decode (c ∷ s) none =
    let inside = decode s (some []) in
    let outside = referred (some c) (decode s none) in if c == b'&' then inside else outside
decode (c ∷ s) (some name) =
    let ended = referred (entity name) (decode s none) in
    let inside = decode s (some (name ++ c ∷ [])) in if c == b';' then ended else inside

-- Characters that `xmlescape` does not write as `%` codes.
abbrev pub IsCoded : ℕ → Type 0
IsCoded c = (c ≢ 0) × (c ≢ 9) × (c ≢ 10) × (c ≢ 13)

decode-escape_char :
    (c : ℕ) (rest : List ℕ)
    → IsCoded c
    → decode (escape_char c ++ rest) none ≡ referred (some c) (decode rest none)
unfolding decode escape_char entity text_eq referred
decode-escape_char c rest h = ground arith

-- Text without NUL, tab, line feed and carriage return that is escaped is what an XML reader,
-- replacing the five references of XML, reads back.
pub decode-xmlescape : (s : List ℕ) → All IsCoded s → decode (xmlescape s) none ≡ some s
unfolding xmlescape referred
decode-xmlescape [] h = unfold decode in refl
decode-xmlescape (c ∷ s) h =
    decode-escape_char c (xmlescape s) h.0 ∙ rw (decode-xmlescape s h.1) refl
