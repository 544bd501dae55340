-- ===== src/Dfxml/Tags.antt =====
-- The reader's stack follows the nesting of the tags.
use frag_find.Common.{
  ℕ, ◌≡◌, ◌≢◌, ◌⊎◌, refl, sym, ◌∙◌, ap, true, List, [], ◌∷◌, ◌++◌, some, Run, done, ◌>>=◌,
  Bool-cases, inl, inr, arith,
}
use frag_find.Common.Strings.{text_eq, text_eq_iff}
use frag_find.Xml.Writer.Tokens.{Token, start, finish}
use frag_find.Xml.Writer.Balance.{nest_token, nest, nest-append}
use frag_find.Dfxml.{
  Event, opened, closed, characters, Reader, start_run, start_element, set_block_size,
  end_hashdigest, end_tag, end_matched, end_element, character_data, handle, handle_all,
}

unfoldable pub tags_of : List Event → List Token
tags_of [] = []
tags_of (opened name attrs ∷ es) = start name [] ∷ tags_of es
tags_of (closed name ∷ es) = finish name ∷ tags_of es
tags_of (characters s ∷ es) = tags_of es

start_element-stack :
    (read_u64 : List ℕ → ℕ) (r : Reader) (name : List ℕ) (attrs : List (List ℕ × List ℕ))
    → (start_element read_u64 r name attrs).tagstack ≡ name ∷ r.tagstack
unfolding start_element start_run
start_element-stack read_u64 r name attrs = ground arith

set_block_size-stack :
    (r r' : Reader) (cdata : List ℕ) → set_block_size r cdata ≡ done r' → r'.tagstack ≡ r.tagstack
unfolding set_block_size
set_block_size-stack r r' cdata h = ground arith

end_hashdigest-stack :
    (r r' : Reader) (top cdata : List ℕ)
    → end_hashdigest r top cdata ≡ done r'
    → r'.tagstack ≡ r.tagstack
unfolding end_hashdigest
end_hashdigest-stack r r' top cdata h = ground arith

end_tag-stack : (r : Reader) (name cdata : List ℕ) → (end_tag r name cdata).tagstack ≡ r.tagstack
unfolding end_tag
end_tag-stack r name cdata = ground arith

end_matched-stack :
    (r r' : Reader) (name cdata : List ℕ)
    → end_matched r name cdata ≡ done r'
    → r'.tagstack ≡ r.tagstack
unfolding end_matched
end_matched-stack r r' name cdata h = ground (
  arith,
  λ (top : List ℕ). end_hashdigest-stack r r' top cdata,
  set_block_size-stack r r' cdata,
  end_tag-stack r name cdata,
)

end_element-nest :
    (r r' : Reader) (name : List ℕ) (open_tags : List (List ℕ))
    → r.tagstack ≡ open_tags
    → end_element r name ≡ done r'
    → nest_token (finish name) open_tags ≡ some r'.tagstack
unfolding end_element nest_token
end_element-nest r r' name [] q h = ground arith
end_element-nest r r' name (top ∷ rest) q h = elim (Bool-cases (text_eq top name)) [
  | inl e ↦
      let same : text_eq name top ≡ true =
        (text_eq_iff name top).1 (sym ((text_eq_iff top name).0 e)) in
      let run : end_matched (record r { tagstack = rest; cdata = [] }) name r.cdata ≡ done r' =
        rw (q, end_element, e) at h in
      rw same (
        ap (λ (s : List (List ℕ)). some s)
          (sym (end_matched-stack (record r { tagstack = rest; cdata = [] }) r' name r.cdata run)))
  | inr e ↦ ground arith
]

handle-nest :
    (read_u64 : List ℕ → ℕ) (r r' : Reader) (e : Event)
    → handle read_u64 r e ≡ done r'
    → nest (tags_of (e ∷ [])) r.tagstack ≡ some r'.tagstack
unfolding handle tags_of nest character_data
handle-nest read_u64 r r' (opened name attrs) h =
    unfold nest_token in
    ap (λ (s : List (List ℕ)). some s)
      (sym (start_element-stack read_u64 r name attrs) ∙ ap (λ (x : Run Reader). stack_of x) h)
  where
    stack_of : Run Reader → List (List ℕ)
    stack_of (Run.done x) = x.tagstack
    stack_of _ = []
handle-nest read_u64 r r' (closed name) h =
    rw (nest, end_element-nest r r' name r.tagstack refl h) refl
handle-nest read_u64 r r' (characters s) h = ground arith

Run-cases : (m : Run Reader) → ((x : Reader) × (m ≡ done x)) ⊎ ((x : Reader) → m ≢ done x)
Run-cases (Run.done x) = inl (x, refl)
Run-cases (Run.fault c) = inr λ x e. cc
Run-cases (Run.exited n) = inr λ x e. cc

tags_of-cons : (e : Event) (es : List Event) → tags_of (e ∷ es) ≡ tags_of (e ∷ []) ++ tags_of es
unfolding tags_of
tags_of-cons (opened name attrs) es = refl
tags_of-cons (closed name) es = refl
tags_of-cons (characters s) es = refl

stays_failed :
    (m : Run Reader) (f : Reader → Run Reader) (r : Reader)
    → ((x : Reader) → m ≢ done x)
    → (m >>= f) ≢ done r
stays_failed (Run.done x) f r h e = h x refl
stays_failed (Run.fault c) f r h e = cc
stays_failed (Run.exited n) f r h e = cc

-- The reader takes no sequence of events whose tags do not nest: when handling a sequence returns
-- normally, its tags nest from the stack before, and the stack afterwards is the tags that they
-- leave open.
pub handle_all-nest :
    (read_u64 : List ℕ → ℕ) (r r' : Reader) (events : List Event)
    → handle_all read_u64 r events ≡ done r'
    → nest (tags_of events) r.tagstack ≡ some r'.tagstack
unfolding handle_all tags_of
handle_all-nest read_u64 r r' [] h = unfold nest in ground arith
handle_all-nest read_u64 r r' (e ∷ es) h = elim (Run-cases (handle read_u64 r e)) [
  | inl (x, q) ↦
      let later : handle_all read_u64 x es ≡ done r' = rw q at h in
      rw (tags_of-cons e es) (
        nest-append (tags_of (e ∷ [])) (tags_of es) r.tagstack (handle-nest read_u64 r x e q)
        ∙ handle_all-nest read_u64 x r' es later)
  | inr fails ↦
      absurd (stays_failed (handle read_u64 r e) (λ x. handle_all read_u64 x es) r' fails h)
]
