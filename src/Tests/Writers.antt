-- ===== src/Tests/Writers.antt =====
-- Examples for the XML writer and the DFXML reader.
use frag_find.Common.{
  done, ℕ, ◌≡◌, ◌≢◌, All, refl, true, inl, List, [], ◌∷◌, none, some, Returns, arith,
}
use frag_find.Common.Text.{codes}
use frag_find.Common.Strings.{text_eq}
use frag_find.Common.Decimal.{scan_digits}
use frag_find.Dfxml.{
  Event, opened, closed, characters, new_reader, handle, handle_all, start_element, start_run,
  end_element, end_matched, end_tag, character_data,
}
use frag_find.Dfxml.Tags
use frag_find.Dfxml.Tags.{handle_all-nest}
use frag_find.Dfxml.Elements.{RunText, object_events, Delivers}
use frag_find.Dfxml.Trip.{object_events-Delivers}
use frag_find.Xml.Text.{xmlescape}
use frag_find.Xml.Text.Escape.{decode, decode-xmlescape}
use frag_find.Xml.Writer.{new_xml, has_blank}
use frag_find.Xml.Writer.Tokens.{
  Call, push_tag, pop_tag, out_value, write_comment, call_all, IsName,
}
use frag_find.Xml.Writer.Reading.Document.{read_document, call_all-read_document}
use frag_find.Xml.Writer.Effects.{is_name-IsName}
use frag_find.Xml.Writer.Balance.{IsDocument, nest, nest_token}
use frag_find.Xml.Writer.Sequence.{AllowedAll, open_after, open_after_all, new_xml-IsDocument}
use frag_find.Xml.Existing.{Existing, Searches, ends_of, read_lines}
use frag_find.Xml.Existing.Nesting.{tag_of, tags_of, Agrees, read_lines-Agrees}

abbrev outer : List ℕ
outer = codes "dfxml"

abbrev inner : List ℕ
inner = codes "run"

outer-IsName : IsName outer
unfolding has_blank
outer-IsName = is_name-IsName outer refl

inner-IsName : IsName inner
unfolding has_blank
inner-IsName = is_name-IsName inner refl

-- An outer tag with a comment, and in it a value that is escaped.
abbrev calls : List Call
calls =
    push_tag outer (codes "version='1.0'")
    ∷ write_comment (codes "a report")
    ∷ out_value inner (codes "a<b") [] true
    ∷ pop_tag
    ∷ []

a_report : All (λ c. c ≢ b'>') (codes "a report")
a_report = (
  omega arith,
  (
    omega arith,
    (omega arith, (omega arith, (omega arith, (omega arith, (omega arith, (omega arith, tt)))))),
  ),
)

calls-AllowedAll : AllowedAll [] calls
unfolding open_after
calls-AllowedAll = ((outer-IsName, refl), (a_report, ((inner-IsName, refl, inl refl), (tt, tt))))

call_all-read_document_example : Returns (call_all new_xml calls) λ x.
    IsDocument x
    × (x.tag_stack ≡ open_after_all calls [])
    × (read_document x.out ≡ some (open_after_all calls []))
call_all-read_document_example =
    call_all-read_document new_xml calls new_xml-IsDocument calls-AllowedAll

decode-xmlescape_example : decode (xmlescape (codes "a<b & 'c'")) none ≡ some (codes "a<b & 'c'")
decode-xmlescape_example = decode-xmlescape (codes "a<b & 'c'") (
  (omega arith, omega arith, omega arith, omega arith),
  (
    (omega arith, omega arith, omega arith, omega arith),
    (
      (omega arith, omega arith, omega arith, omega arith),
      (
        (omega arith, omega arith, omega arith, omega arith),
        (
          (omega arith, omega arith, omega arith, omega arith),
          (
            (omega arith, omega arith, omega arith, omega arith),
            (
              (omega arith, omega arith, omega arith, omega arith),
              (
                (omega arith, omega arith, omega arith, omega arith),
                ((omega arith, omega arith, omega arith, omega arith), tt),
              ),
            ),
          ),
        ),
      ),
    ),
  ),
)

-- In place of regular expressions: a line is an opening or a closing tag of one character.
abbrev searches : Searches
searches = record {
  tag_beg = λ line. elim line [ [] ↦ [] | c ∷ rest ↦ elim rest [ [] ↦ c ∷ [] | d ∷ s ↦ [] ] ];
  tag_end = λ line. elim line [ [] ↦ [] | c ∷ rest ↦ elim rest [ [] ↦ [] | d ∷ s ↦ d ∷ [] ] ];
  tag_val = λ line. [];
  tag_attrib = λ line. [];
}

abbrev nothing_open : Existing
nothing_open = record { tag_stack = []; tagmap = none; tagid = none; tagid_set = none }

abbrev lines : List (List ℕ)
lines = codes "a" ∷ codes "b" ∷ codes "/b" ∷ []

lines-tags : nest (tags_of searches lines) [] ≡ some (codes "a" ∷ [])
unfolding nest nest_token tags_of tag_of ends_of text_eq
lines-tags = refl

read_lines-Agrees_example :
    Agrees (nest (tags_of searches lines) []) (read_lines searches nothing_open lines)
read_lines-Agrees_example = read_lines-Agrees searches nothing_open lines

-- Two elements, one in the other.
abbrev events : List Event
events =
    opened (codes "a") [] ∷ opened (codes "b") [] ∷ closed (codes "b") ∷ closed (codes "a") ∷ []

handle_all-events : handle_all (scan_digits 0) new_reader events ≡ done new_reader
unfolding handle_all handle start_element start_run end_element end_matched end_tag text_eq
handle_all-events = refl

handle_all-nest_example : nest (frag_find.Dfxml.Tags.tags_of events) [] ≡ some []
handle_all-nest_example =
    handle_all-nest (scan_digits 0) new_reader new_reader events handle_all-events

abbrev run_text : RunText
run_text = record { file_offset = codes "0"; img_offset = codes "512"; len = codes "1024" }

object_events-Delivers_example :
    Returns
      (handle_all
        (scan_digits 0)
        new_reader
        (object_events (codes "a.jpg") (codes "2") (codes "1024") (codes "00ff") (run_text ∷ [])))
      (Delivers (scan_digits 0) (codes "a.jpg") (codes "00ff") (run_text ∷ []) new_reader)
object_events-Delivers_example =
    object_events-Delivers (scan_digits 0) new_reader (codes "a.jpg") (codes "2") (codes "1024")
      (codes "00ff") (run_text ∷ [])
