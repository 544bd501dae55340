-- ===== src/Xml/Writer/Calls.antt =====
-- What each operation of the writer does to a document, and that every sequence of them keeps it one.
use mathlib.Core.Path.{subst}
use mathlib.Core.List.{append_assoc, append-nil}
use frag_find.Common.{
  ℕ, ◌≡◌, refl, sym, ◌∙◌, ap, Bool, true, false, List, [], ◌∷◌, ◌++◌, some, Run, done, ◌>>=◌,
  bind-done, Returns, if◌then◌else◌, arith,
}
use frag_find.Common.Strings.{insert_text, has_text, has_text-insert_text, text_eq_refl}
use frag_find.Xml.Text.{xmlescape}
use frag_find.Xml.Writer.{
  Xml, puts, spaces, tagout, push, pop, xmlprintf, tagout_if, end_tag_if, xmlout,
}
use frag_find.Xml.Writer.Tokens.{
  start, finish, alone, render, render_all, push_tag, pop_tag, out_value, out_printf, pad,
  value_tokens, tokens_of, IsName, spaces-pad, tagout-open, tagout-close, add,
}
use frag_find.Xml.Writer.Balance.{nest_token, nest, Writes}

-- A line is ended unless the writer stays on one line.
end_line :
    (b : Bool) (x : Xml) → (if b then x else puts x (10 ∷ [])) ≡ add x (if b then [] else 10 ∷ [])
unfolding puts
end_line true x = ap (λ (s : List ℕ). record x { out = s }) (sym (append-nil x.out))
end_line false x = refl

insert-keeps :
    (tag : List ℕ) (tags : List (List ℕ)) (u : List ℕ)
    → has_text u tags ≡ true
    → has_text u (insert_text tag tags) ≡ true
insert-keeps tag tags u h = ground (arith, has_text-insert_text u tag tags)

insert-has : (tag : List ℕ) (tags : List (List ℕ)) → has_text tag (insert_text tag tags) ≡ true
insert-has tag tags = ground (arith, has_text-insert_text tag tag tags, text_eq_refl tag)

pub push-Writes :
    (x : Xml) (tag attribute : List ℕ)
    → IsName tag
    → Returns (push x tag attribute) λ x'.
      Writes x (tokens_of x (push_tag tag attribute)) x' × (x'.tag_stack ≡ tag ∷ x.tag_stack)
unfolding push tokens_of render_all render nest nest_token
push-Writes x tag attribute n =
    let opened : Xml = record x { out = x.out ++ pad x; tag_stack = tag ∷ x.tag_stack } in
    let shown : Xml = record opened {
      out = opened.out ++ render (start tag attribute);
      tags = insert_text tag x.tags;
    } in
    (
      add shown (if x.oneline then [] else 10 ∷ []),
      ap
            (λ (y : Xml).
              tagout (record y { tag_stack = tag ∷ y.tag_stack }) tag attribute >>= λ x₂.
              done (if x₂.oneline then x₂ else puts x₂ (10 ∷ [])))
            (spaces-pad x)
          ∙ bind-done _ (tagout-open opened tag attribute n)
              (ap (λ (y : Xml). done y) (end_line x.oneline shown)),
      (
        record {
          adds = simp (append_assoc, append-nil);
          nests = refl;
          lists = (tt, (insert-has tag x.tags, (tt, tt)));
          keeps = insert-keeps tag x.tags;
          same_dtd = refl;
        },
        refl,
      ),
    )

pop-Writes_open :
    (x : Xml) (tag : List ℕ) (rest : List (List ℕ))
    → IsName tag
    → let o = record x { tag_stack = tag ∷ rest } in
      Returns (pop o) λ x'. Writes o (tokens_of o pop_tag) x' × (x'.tag_stack ≡ rest)
unfolding pop tokens_of render_all render nest nest_token puts
pop-Writes_open x tag rest n =
    let closed : Xml = record x { tag_stack = rest } in
    let indented : Xml = add closed (pad closed) in
    let shown : Xml = record indented {
      out = indented.out ++ render (finish tag);
      tags = insert_text tag x.tags;
    } in
    (
      add shown (10 ∷ []),
      ap (λ (y : Xml). tagout y (b'/' ∷ tag) [] >>= λ x'. done (puts x' (10 ∷ [])))
            (spaces-pad closed)
          ∙ bind-done _ (tagout-close indented tag n) refl,
      (
        record {
          adds = simp (append_assoc, append-nil);
          nests = rw (text_eq_refl tag, nest) refl;
          lists = (tt, (tt, (tt, tt)));
          keeps = insert-keeps tag x.tags;
          same_dtd = refl;
        },
        refl,
      ),
    )

pub pop-Writes :
    (x : Xml) (tag : List ℕ) (rest : List (List ℕ))
    → IsName tag
    → x.tag_stack ≡ tag ∷ rest
    → Returns (pop x) λ x'. Writes x (tokens_of x pop_tag) x' × (x'.tag_stack ≡ rest)
pop-Writes x tag rest n e =
    subst
      (λ (o : Xml). Returns (pop o) λ x'. Writes o (tokens_of o pop_tag) x' × (x'.tag_stack ≡ rest))
      (sym (λ i. record x { tag_stack = e i })) (pop-Writes_open x tag rest n)

pub xmlprintf-Writes :
    (x : Xml) (tag attribute formatted : List ℕ)
    → IsName tag
    → Returns (xmlprintf x tag attribute (some formatted)) λ x'.
      Writes x (tokens_of x (out_printf tag attribute formatted)) x' × (x'.tag_stack ≡ x.tag_stack)
unfolding xmlprintf tokens_of render_all render nest nest_token puts
xmlprintf-Writes x tag attribute formatted n =
    let indented : Xml = add x (pad x) in
    let opened : Xml = record indented {
      out = indented.out ++ render (start tag attribute);
      tags = insert_text tag x.tags;
    } in
    let filled : Xml = add opened formatted in
    let closed : Xml = record filled {
      out = filled.out ++ render (finish tag);
      tags = insert_text tag filled.tags;
    } in
    (
      add closed (10 ∷ []),
      ap
            (λ (y : Xml). tagout y tag attribute >>= λ x₁.
              tagout (puts x₁ formatted) (b'/' ∷ tag) [] >>= λ x₂. done (puts x₂ (10 ∷ [])))
            (spaces-pad x)
          ∙ bind-done _ (tagout-open indented tag attribute n)
              (bind-done _ (tagout-close filled tag n) refl),
      (
        record {
          adds = simp (append_assoc, append-nil);
          nests = rw (text_eq_refl tag, nest) refl;
          lists = (
            tt,
            (
              insert-keeps tag (insert_text tag x.tags) tag (insert-has tag x.tags),
              (tt, (tt, (tt, tt))),
            ),
          );
          keeps = λ u h. insert-keeps tag (insert_text tag x.tags) u (insert-keeps tag x.tags u h);
          same_dtd = refl;
        },
        refl,
      ),
    )

tagout_if-open :
    (x : Xml) (tag attribute : List ℕ)
    → IsName tag
    → tagout_if x tag attribute ≡ tagout x tag attribute
unfolding tagout_if
tagout_if-open x [] attribute n = cc n.nonempty
tagout_if-open x (c ∷ tag) attribute n = refl

end_tag_if-close :
    (x : Xml) (tag : List ℕ) → IsName tag → end_tag_if x tag ≡ tagout x (b'/' ∷ tag) []
unfolding end_tag_if
end_tag_if-close x [] n = cc n.nonempty
end_tag_if-close x (c ∷ tag) n = refl

-- A value is written as `xmlprintf` writes its escaped text.
xmlout-xmlprintf :
    (x : Xml) (tag attribute : List ℕ) (v : ℕ) (vs : List ℕ) (escape_value : Bool)
    → IsName tag
    → xmlout x tag (v ∷ vs) attribute escape_value
      ≡ xmlprintf x tag attribute (some (if escape_value then xmlescape (v ∷ vs) else v ∷ vs))
unfolding xmlout xmlprintf
xmlout-xmlprintf x tag attribute v vs escape_value n =
    let t : List ℕ = if escape_value then xmlescape (v ∷ vs) else v ∷ vs in
    ap
      (λ (r : Run Xml). r >>= (λ x₁. end_tag_if (puts x₁ t) tag) >>= λ x'. done (puts x' (10 ∷ [])))
      (tagout_if-open (spaces x) tag attribute n)
    ∙ after (tagout (spaces x) tag attribute)
  where
    after :
        (r : Run Xml)
        → (r
            >>= (λ x₁.
                end_tag_if (puts x₁ (if escape_value then xmlescape (v ∷ vs) else v ∷ vs)) tag)
            >>= λ x'. done (puts x' (10 ∷ [])))
          ≡ (r >>= λ x₁.
              tagout (puts x₁ (if escape_value then xmlescape (v ∷ vs) else v ∷ vs)) (b'/' ∷ tag) []
              >>= λ x₂. done (puts x₂ (10 ∷ [])))
    after (Run.done y) =
        ap (λ (r : Run Xml). r >>= λ x'. done (puts x' (10 ∷ [])))
          (end_tag_if-close (puts y (if escape_value then xmlescape (v ∷ vs) else v ∷ vs)) tag n)
    after (Run.fault e) = refl
    after (Run.exited c) = refl

xmlout-Writes_empty :
    (x : Xml) (tag attribute : List ℕ) (escape_value : Bool)
    → IsName tag
    → Returns (xmlout x tag [] attribute escape_value) λ x'.
      Writes x (tokens_of x (out_value tag [] attribute escape_value)) x'
      × (x'.tag_stack ≡ x.tag_stack)
unfolding xmlout tokens_of render_all render nest nest_token puts value_tokens
xmlout-Writes_empty x tag attribute escape_value n =
    let indented : Xml = add x (pad x) in
    let shown : Xml = record indented {
      out = indented.out ++ render (alone tag attribute);
      tags = insert_text tag x.tags;
    } in
    (
      add shown (10 ∷ []),
      ap (λ (y : Xml). tagout_if y tag (attribute ++ b'/' ∷ []) >>= λ x'. done (puts x' (10 ∷ [])))
            (spaces-pad x)
          ∙ bind-done _
              (tagout_if-open indented tag (attribute ++ b'/' ∷ []) n
                ∙ tagout-open indented tag (attribute ++ b'/' ∷ []) n)
              refl,
      (
        record {
          adds = simp (append_assoc, append-nil);
          nests = refl;
          lists = (tt, (insert-has tag x.tags, (tt, tt)));
          keeps = insert-keeps tag x.tags;
          same_dtd = refl;
        },
        refl,
      ),
    )

pub xmlout-Writes :
    (x : Xml) (tag value attribute : List ℕ) (escape_value : Bool)
    → IsName tag
    → Returns (xmlout x tag value attribute escape_value) λ x'.
      Writes x (tokens_of x (out_value tag value attribute escape_value)) x'
      × (x'.tag_stack ≡ x.tag_stack)
unfolding tokens_of value_tokens
xmlout-Writes x tag [] attribute escape_value n = xmlout-Writes_empty x tag attribute escape_value n
xmlout-Writes x tag (v ∷ vs) attribute escape_value n =
    let (x', run, w) =
      xmlprintf-Writes x tag attribute (if escape_value then xmlescape (v ∷ vs) else v ∷ vs) n in
    (x', xmlout-xmlprintf x tag attribute v vs escape_value n ∙ run, w)
