-- ===== src/Xml/Writer/Effects.antt =====
-- What a call leaves, in the form that programs made of calls need.
use mathlib.Core.Path.{subst}
use frag_find.Common.{
  ℕ, ◌≡◌, ◌==◌, ◌&&◌, not, refl, sym, ap, ◌∙◌, Bool, true, false, ◌⊎◌, List, [], ◌∷◌, some, Run,
  done, ◌>>=◌, bind-done, Returns, All, arith,
}
use frag_find.Common.Text.{print_u64}
use frag_find.Common.Decimal.{IsDigit, decimal-IsDigit}
use frag_find.Xml.Writer.{has_blank, tag_name, Xml, push, pop, xmlout, xmlprintf}
use frag_find.Xml.Writer.Attributes.{is_tag, is_attribute}
use frag_find.Xml.Writer.Tokens.{
  Call, push_tag, pop_tag, out_value, out_printf, call, call_all, IsName,
}
use frag_find.Xml.Writer.Balance.{IsDocument}
use frag_find.Xml.Writer.Reading.Document.{read_document, IsDocument-read}
use frag_find.Xml.Writer.Sequence.{
  IsTagless, IsAllowed, AllowedAll, open_after, open_after_all, call_all-IsDocument,
}

-- A document with these tags open, which a reader of the stream finds open.
pub record IsAt (open_tags : List (List ℕ)) (x : Xml) : Type 0 where
  pub document : IsDocument x
  pub stack : x.tag_stack ≡ open_tags
  pub reads : read_document x.out ≡ some open_tags

pub IsDocument-IsAt :
    (open_tags : List (List ℕ)) (x : Xml)
    → IsDocument x
    → x.tag_stack ≡ open_tags
    → IsAt open_tags x
IsDocument-IsAt open_tags x d e = record {
  document = d;
  stack = e;
  reads = IsDocument-read x d ∙ ap (λ (o : List (List ℕ)). some o) e;
}

-- The run returns, and its document has these tags open.
abbrev pub Leaves : List (List ℕ) → Run Xml → Type 0
Leaves open_tags run = Returns run (IsAt open_tags)

pub Leaves-done :
    (open_tags : List (List ℕ)) (x : Xml) → IsAt open_tags x → Leaves open_tags (done x)
Leaves-done open_tags x h = (x, refl, h)

pub Leaves-bind :
    (before after : List (List ℕ)) (m : Run Xml) (f : Xml → Run Xml)
    → Leaves before m
    → ((x : Xml) → IsAt before x → Leaves after (f x))
    → Leaves after (m >>= f)
Leaves-bind before after m f (x, run, h) next =
    let (x', run', h') = next x h in (x', bind-done f run run', h')

bind_done : (m : Run Xml) → (m >>= λ x. done x) ≡ m
bind_done (Run.done x) = refl
bind_done (Run.fault c) = refl
bind_done (Run.exited n) = refl

-- One call of a client.
pub call-Leaves :
    (open_tags : List (List ℕ)) (x : Xml) (c : Call)
    → IsAt open_tags x
    → IsAllowed open_tags c
    → Leaves (open_after c open_tags) (call x c)
unfolding call_all open_after_all
call-Leaves open_tags x c h allowed =
    let (x', run, (d, e)) =
      call_all-IsDocument x (c ∷ []) h.document
        (subst (λ (o : List (List ℕ)). AllowedAll o (c ∷ [])) (sym h.stack) (allowed, tt)) in
    (x', sym (bind_done (call x c)) ∙ run, IsDocument-IsAt _ x' d (e ∙ rw h.stack refl))

pub push-Leaves :
    (open_tags : List (List ℕ)) (x : Xml) (tag attribute : List ℕ)
    → IsAt open_tags x
    → IsName tag
    → is_attribute attribute ≡ true
    → Leaves (tag ∷ open_tags) (push x tag attribute)
unfolding call open_after
push-Leaves open_tags x tag attribute h n a =
    call-Leaves open_tags x (push_tag tag attribute) h (n, a)

pub pop-Leaves :
    (open_tags : List (List ℕ)) (x : Xml) (tag : List ℕ)
    → IsAt (tag ∷ open_tags) x
    → Leaves open_tags (pop x)
unfolding call open_after
pop-Leaves open_tags x tag h = call-Leaves (tag ∷ open_tags) x pop_tag h tt

pub xmlout-Leaves :
    (open_tags : List (List ℕ)) (x : Xml) (tag value attribute : List ℕ) (escape_value : Bool)
    → IsAt open_tags x
    → IsName tag
    → is_attribute attribute ≡ true
    → (escape_value ≡ true) ⊎ IsTagless value
    → Leaves open_tags (xmlout x tag value attribute escape_value)
unfolding call open_after
xmlout-Leaves open_tags x tag value attribute escape_value h n a quiet =
    call-Leaves open_tags x (out_value tag value attribute escape_value) h (n, a, quiet)

pub xmlprintf-Leaves :
    (open_tags : List (List ℕ)) (x : Xml) (tag attribute formatted : List ℕ)
    → IsAt open_tags x
    → IsName tag
    → is_attribute attribute ≡ true
    → IsTagless formatted
    → Leaves open_tags (xmlprintf x tag attribute (some formatted))
unfolding call open_after
xmlprintf-Leaves open_tags x tag attribute formatted h n a quiet =
    call-Leaves open_tags x (out_printf tag attribute formatted) h (n, a, quiet)

digits-IsTagless : (s : List ℕ) → All IsDigit s → IsTagless s
digits-IsTagless [] h = tt
digits-IsTagless (c ∷ s) (d, h) = (omega arith, digits-IsTagless s h)

pub print_u64-IsTagless : (n : ℕ) → IsTagless (print_u64 n)
unfolding print_u64
print_u64-IsTagless n = digits-IsTagless (print_u64 n) (decimal-IsDigit 20 n)

-- A test for names that are written out.
abbrev pub is_name : List ℕ → Bool
is_name [] = false
is_name (c ∷ s) = not (c == b'/') && (not (has_blank (c ∷ s)) && is_tag (c ∷ s))

pub is_name-IsName : (tag : List ℕ) → is_name tag ≡ true → IsName tag
unfolding tag_name
is_name-IsName [] h = cc
is_name-IsName (c ∷ s) h = record {
  no_blank = ground arith;
  plain = ground arith;
  initial = c;
  others = s;
  nonempty = refl;
  simple = ground arith;
}
