-- ===== src/Xml/Writer/Sequence.antt =====
-- Any sequence of calls of the writer.
use mathlib.Core.Path.{subst}
use mathlib.Core.List.{append-nil}
use frag_find.Common.{
  ℕ, ◌≡◌, ◌≢◌, refl, sym, ◌∙◌, ap, Bool, true, false, ◌⊎◌, List, [], ◌∷◌, ◌++◌, some, bind-done,
  Returns, if◌then◌else◌, Bool-cases, inl, inr, arith, All,
}
use frag_find.Xml.Text.{xmlescape}
use frag_find.Xml.Text.Escape.{IsQuiet, xmlescape-IsQuiet}
use frag_find.Xml.Writer.{Xml, xml_header, new_xml, puts, indent, set_oneline, comment}
use frag_find.Xml.Writer.Attributes.{is_attribute}
use frag_find.Xml.Writer.Tokens.{
  Token, text, note, render, render_all, Call, push_tag, pop_tag, out_value, out_printf, one_line,
  write_comment, put_text, call, call_all, pad, value_tokens, tokens_of, IsName, spaces-pad,
}
use frag_find.Xml.Writer.Balance.{
  nest_token, nest, IsClean, IsListed, IsDocument, Writes, IsDocument-Writes,
}
use frag_find.Xml.Writer.Calls.{push-Writes, pop-Writes, xmlprintf-Writes, xmlout-Writes}

-- A text that starts no tag.
abbrev pub IsTagless : List ℕ → Type 0
IsTagless t = All (λ c. c ≢ b'<') t

-- A call that a client may make while these tags are open.
abbrev pub IsAllowed : List (List ℕ) → Call → Type 0
IsAllowed open_tags (push_tag tag attribute) = IsName tag × (is_attribute attribute ≡ true)
IsAllowed [] pop_tag = ⊥
IsAllowed (t ∷ open_tags) pop_tag = Unit
IsAllowed open_tags (out_value tag value attribute escape_value) =
    IsName tag × (is_attribute attribute ≡ true) × ((escape_value ≡ true) ⊎ IsTagless value)
IsAllowed open_tags (out_printf tag attribute formatted) =
    IsName tag × (is_attribute attribute ≡ true) × IsTagless formatted
IsAllowed open_tags (write_comment t) = All (λ c. c ≢ b'>') t
IsAllowed open_tags (put_text t) = IsTagless t
IsAllowed open_tags _ = Unit

-- The tags that are open after a call.
unfoldable pub open_after : Call → List (List ℕ) → List (List ℕ)
open_after (push_tag tag attribute) open_tags = tag ∷ open_tags
open_after pop_tag [] = []
open_after pop_tag (t ∷ open_tags) = open_tags
open_after _ open_tags = open_tags

abbrev pub AllowedAll : List (List ℕ) → List Call → Type 0
AllowedAll open_tags [] = Unit
AllowedAll open_tags (c ∷ cs) = IsAllowed open_tags c × AllowedAll (open_after c open_tags) cs

unfoldable pub open_after_all : List Call → List (List ℕ) → List (List ℕ)
open_after_all [] open_tags = open_tags
open_after_all (c ∷ cs) open_tags = open_after_all cs (open_after c open_tags)

indent-IsTagless : (ts : List (List ℕ)) → IsTagless (indent ts)
unfolding indent
indent-IsTagless [] = tt
indent-IsTagless (t ∷ ts) = (omega arith, (omega arith, indent-IsTagless ts))

pad-IsTagless : (x : Xml) → IsTagless (pad x)
unfolding pad
pad-IsTagless x = elim (Bool-cases x.oneline) [
  | inl e ↦ rw e tt
  | inr e ↦ rw e (indent-IsTagless x.tag_stack)
]

quiet-IsTagless : (s : List ℕ) → All IsQuiet s → IsTagless s
quiet-IsTagless [] h = tt
quiet-IsTagless (c ∷ s) h = (h.0.0, quiet-IsTagless s h.1)

value-IsTagless :
    (value : List ℕ) (escape_value : Bool)
    → (escape_value ≡ true) ⊎ IsTagless value
    → IsTagless (if escape_value then xmlescape value else value)
value-IsTagless value true h = quiet-IsTagless (xmlescape value) (xmlescape-IsQuiet value)
value-IsTagless value false (inl e) = cc
value-IsTagless value false (inr h) = h

line_end-IsTagless : (b : Bool) → IsTagless (if b then [] else 10 ∷ [])
line_end-IsTagless true = tt
line_end-IsTagless false = (omega arith, tt)

-- A step of a document: it returns, what it wrote is clean, and the tags that are open follow the call.
record Steps (x : Xml) (c : Call) (x' : Xml) : Type 0 where
  writes : Writes x (tokens_of x c) x'
  clean : All IsClean (tokens_of x c)
  opens : x'.tag_stack ≡ open_after c x.tag_stack
  names : All IsName x'.tag_stack

-- One text is written, and nothing else changes.
text-Writes :
    (x x' : Xml) (t : Token)
    → x'.out ≡ x.out ++ render t
    → x'.tags ≡ x.tags
    → nest_token t x.tag_stack ≡ some x'.tag_stack
    → IsListed x'.tags t
    → x'.make_dtd ≡ x.make_dtd
    → Writes x (t ∷ []) x'
unfolding render_all nest
text-Writes x x' t out tags open_tags listed same_dtd = record {
  adds = out ∙ ap (λ (s : List ℕ). x.out ++ s) (sym (append-nil (render t)));
  nests = rw (open_tags, nest) refl;
  lists = (listed, tt);
  keeps = λ u h. rw tags h;
  same_dtd = same_dtd;
}

pop-Steps :
    (x : Xml) (open_tags : List (List ℕ))
    → x.tag_stack ≡ open_tags
    → IsAllowed open_tags pop_tag
    → All IsName open_tags
    → Returns (call x pop_tag) (Steps x pop_tag)
unfolding call open_after tokens_of
pop-Steps x [] e a names = absurd a
pop-Steps x (t ∷ rest) e a names =
    let (x', run, (w, same)) = pop-Writes x t rest names.0 e in
    (
      x',
      run,
      record {
        writes = w;
        clean =
            rw (e, tokens_of)
              (pad-IsTagless (record x { tag_stack = rest }), (names.0, ((omega arith, tt), tt)));
        opens = same ∙ rw (e, open_after) refl;
        names = rw same names.1;
      },
    )

out_value-IsClean :
    (x : Xml) (tag value attribute : List ℕ) (escape_value : Bool)
    → IsName tag
    → is_attribute attribute ≡ true
    → (escape_value ≡ true) ⊎ IsTagless value
    → All IsClean (tokens_of x (out_value tag value attribute escape_value))
unfolding tokens_of value_tokens
out_value-IsClean x tag [] attribute escape_value n a quiet =
    (pad-IsTagless x, ((n, a), ((omega arith, tt), tt)))
out_value-IsClean x tag (v ∷ vs) attribute escape_value n a quiet = (
  pad-IsTagless x,
  ((n, a), (value-IsTagless (v ∷ vs) escape_value quiet, (n, ((omega arith, tt), tt)))),
)

plain-Steps :
    (x x' : Xml) (c : Call)
    → Writes x (tokens_of x c) x'
    → All IsClean (tokens_of x c)
    → x'.tag_stack ≡ x.tag_stack
    → open_after c x.tag_stack ≡ x.tag_stack
    → All IsName x.tag_stack
    → Steps x c x'
plain-Steps x x' c w clean same stays names = record {
  writes = w;
  clean = clean;
  opens = same ∙ sym stays;
  names = rw same names;
}

call-Steps :
    (x : Xml) (c : Call)
    → IsAllowed x.tag_stack c
    → All IsName x.tag_stack
    → Returns (call x c) (Steps x c)
unfolding call open_after tokens_of puts render set_oneline comment nest_token
call-Steps x (push_tag tag attribute) a names =
    let (x', run, (w, e)) = push-Writes x tag attribute a.0 in
    (
      x',
      run,
      record {
        writes = w;
        clean = (pad-IsTagless x, (a, (line_end-IsTagless x.oneline, tt)));
        opens = e;
        names = rw e (a.0, names);
      },
    )
call-Steps x pop_tag a names = pop-Steps x x.tag_stack refl a names
call-Steps x (out_value tag value attribute escape_value) (n, a, quiet) names =
    let (x', run, (w, e)) = xmlout-Writes x tag value attribute escape_value n in
    (
      x',
      run,
      plain-Steps x x' (out_value tag value attribute escape_value) w
          (out_value-IsClean x tag value attribute escape_value n a quiet) e refl names,
    )
call-Steps x (out_printf tag attribute formatted) (n, a, quiet) names =
    let (x', run, (w, e)) = xmlprintf-Writes x tag attribute formatted n in
    (
      x',
      run,
      plain-Steps x x' (out_printf tag attribute formatted) w
          (pad-IsTagless x, ((n, a), (quiet, (n, ((omega arith, tt), tt))))) e refl names,
    )
call-Steps x (one_line true) a names = (
  set_oneline x true,
  refl,
  plain-Steps x (set_oneline x true) (one_line true)
      (text-Writes x (set_oneline x true) (text (pad x)) (ap (λ (y : Xml). y.out) (spaces-pad x))
        (ap (λ (y : Xml). y.tags) (spaces-pad x))
        (ap (λ (y : Xml). some y.tag_stack) (sym (spaces-pad x))) tt
        (ap (λ (y : Xml). y.make_dtd) (spaces-pad x)))
      (pad-IsTagless x, tt) (ap (λ (y : Xml). y.tag_stack) (spaces-pad x)) refl names,
)
call-Steps x (one_line false) a names = (
  set_oneline x false,
  refl,
  plain-Steps x (set_oneline x false) (one_line false)
      (text-Writes x (set_oneline x false) (text (10 ∷ [])) refl refl refl tt refl)
      ((omega arith, tt), tt) refl refl names,
)
call-Steps x (write_comment t) a names = (
  comment x t,
  refl,
  plain-Steps x (comment x t) (write_comment t)
      (text-Writes x (comment x t) (note t) refl refl refl tt refl) (a, tt) refl refl names,
)
call-Steps x (put_text t) a names = (
  puts x t,
  refl,
  plain-Steps x (puts x t) (put_text t) (text-Writes x (puts x t) (text t) refl refl refl tt refl)
      (a, tt) refl refl names,
)

-- From a state whose output is a document with properly nested tags, any sequence of calls of the
-- writer returns and keeps it so, with the stack being the tags that are open and the set of tags
-- holding every tag written, if the name of each tag is not empty, has no blank, bracket, slash,
-- quotation mark, tabulator or line end and does not start with an exclamation or question mark,
-- attributes have no bracket, close every quotation mark and do not end in a slash, no pop meets
-- an empty stack, text that is not escaped has no opening bracket, and comments have no closing
-- bracket; the open tags afterwards are those that the calls leave.
pub call_all-IsDocument :
    (x : Xml) (calls : List Call)
    → IsDocument x
    → AllowedAll x.tag_stack calls
    → Returns
        (call_all x calls)
        λ x'. IsDocument x' × (x'.tag_stack ≡ open_after_all calls x.tag_stack)
unfolding call_all open_after_all
call_all-IsDocument x [] d allowed = (x, refl, (d, refl))
call_all-IsDocument x (c ∷ calls) d allowed =
    let (x', run, s) = call-Steps x c allowed.0 d.names in
    let (x'', run', (d', e)) =
      call_all-IsDocument x' calls
        (IsDocument-Writes x x' (tokens_of x c) d s.writes s.clean s.names)
        (subst (λ (o : List (List ℕ)). AllowedAll o calls) (sym s.opens) allowed.1) in
    (
      x'',
      bind-done _ run run',
      (d', e ∙ ap (λ (o : List (List ℕ)). open_after_all calls o) s.opens),
    )

pub new_xml-IsDocument : IsDocument new_xml
unfolding nest render_all
new_xml-IsDocument = record {
  tokens = [];
  written = sym (append-nil xml_header);
  nested = refl;
  clean = tt;
  listed = tt;
  names = tt;
  no_dtd = refl;
}
