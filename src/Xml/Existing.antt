-- ===== src/Xml/Existing.antt =====
-- The constructor of `xml` that reads an existing file. The searches by regular expressions are
-- parameters.
pub mod Nesting
use frag_find.Common.{
  ℕ, ◌-◌, Bool, true, false, not, ◌&&◌, ◌||◌, List, [], ◌∷◌, Option, none, some, Run, done, exited,
  fault, out_of_bounds, ◌>>=◌, length, take, drop, ◌==◌, if◌then◌else◌,
}
use frag_find.Common.Strings.{text_eq, insert_text, put, find}

-- `class existing`, with the tags that are open; the top of the stack stands first.
pub record Existing : Type 0 where
  pub tag_stack : List (List ℕ)
  pub tagmap : Option (List (List ℕ × List ℕ))
  pub tagid : Option (List ℕ)
  pub tagid_set : Option (List (List ℕ))

pub record Searches : Type 0 where
  pub tag_beg : List ℕ → List ℕ
  pub tag_end : List ℕ → List ℕ
  pub tag_val : List ℕ → List ℕ
  pub tag_attrib : List ℕ → List ℕ

abbrev pub is_empty : List ℕ → Bool
is_empty [] = true
is_empty (c ∷ s) = false

-- `line.find("/>")!=string::npos`
unfoldable pub ends_alone : List ℕ → Bool
ends_alone [] = false
ends_alone (c ∷ []) = false
ends_alone (c ∷ d ∷ s) = (c == b'/' && d == b'>') || ends_alone (d ∷ s)

-- The end tag of a line, where `<value foo='bar'/>` ends itself.
unfoldable pub ends_of : List ℕ → List ℕ → List ℕ → List ℕ
unfolding ends_alone
ends_of line begs ends = if is_empty ends && ends_alone line then begs else ends

-- Opening and closing of tags.
unfoldable pub track : Existing → List ℕ → List ℕ → Run Existing
track e begs ends =
    if not (is_empty begs) && is_empty ends
    then done (record e { tag_stack = begs ∷ e.tag_stack })
    else (if is_empty begs && not (is_empty ends)
        then elim e.tag_stack [
          | [] ↦ fault out_of_bounds
          | popped ∷ rest ↦
              if not (text_eq ends popped) then exited 1 else done (record e { tag_stack = rest })
        ]
        else done e)

-- The value of a tag that the caller asked for.
unfoldable pub capture_tag : Searches → List ℕ → List ℕ → List ℕ → Existing → Existing
capture_tag r line begs ends e = elim e.tagmap [
  | none ↦ e
  | some m ↦
      if not (is_empty begs) && text_eq begs ends
      then elim (find begs m) [
        | none ↦ e
        | some old ↦ record e { tagmap = some (put begs (r.tag_val line) m) }
      ]
      else e
]

-- The attribute without its quotes.
unfoldable pub unquote : List ℕ → List ℕ
unquote a = if is_empty a then a else take (length a - 2) (drop 1 a)

unfoldable pub capture_id : Searches → List ℕ → List ℕ → Existing → Existing
unfolding unquote
capture_id r line begs e = elim e.tagid [
  | none ↦ e
  | some id ↦ elim e.tagid_set [
    | none ↦ e
    | some ids ↦
        if text_eq id begs
        then record e { tagid_set = some (insert_text (unquote (r.tag_attrib line)) ids) }
        else e
  ]
]

unfoldable pub read_line : Searches → Existing → List ℕ → Run Existing
unfolding ends_of track capture_tag capture_id
read_line r e line = do
  let begs = r.tag_beg line
  let ends = ends_of line begs (r.tag_end line)
  e' ← track e begs ends
  done (capture_id r line begs (capture_tag r line begs ends e'))

unfoldable pub read_lines : Searches → Existing → List (List ℕ) → Run Existing
read_lines r e [] = done e
read_lines r e (line ∷ lines) = read_line r e line >>= λ e'. read_lines r e' lines

-- The lines of the file, or `none` if it does not open.
unfoldable pub open_existing : Searches → Existing → Option (List (List ℕ)) → Run Existing
open_existing r e file = elim file [ none ↦ exited 1 | some lines ↦ read_lines r e lines ]
