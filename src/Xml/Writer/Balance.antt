-- ===== src/Xml/Writer/Balance.antt =====
-- A document that is written by the operations is well nested.
use mathlib.Core.List.{append_assoc}
use frag_find.Common.{
  ℕ, ◌≡◌, ◌≢◌, refl, sym, ◌∙◌, ap, true, false, List, [], ◌∷◌, ◌++◌, Option, none, some,
  if◌then◌else◌, inl, inr, Option-cases, arith, All, All-append,
}
use frag_find.Common.Strings.{has_text, text_eq}
use frag_find.Xml.Writer.{Xml, xml_header}
use frag_find.Xml.Writer.Attributes.{is_attribute}
use frag_find.Xml.Writer.Tokens.{
  Token, start, finish, alone, text, note, render, render_all, IsName,
}

-- The open tags after a token, or `none` where an end tag does not match.
unfoldable pub nest_token : Token → List (List ℕ) → Option (List (List ℕ))
nest_token (start name attribute) open_tags = some (name ∷ open_tags)
nest_token (finish name) [] = none
nest_token (finish name) (t ∷ open_tags) = if text_eq name t then some open_tags else none
nest_token _ open_tags = some open_tags

unfoldable pub nest : List Token → List (List ℕ) → Option (List (List ℕ))
nest [] open_tags = some open_tags
nest (t ∷ ts) open_tags = elim (nest_token t open_tags) [ none ↦ none | some rest ↦ nest ts rest ]

-- A token that a reader takes as it is meant: a tag is one name, with attributes that keep to the tag, a
-- text starts no tag, and a comment does not end before its end.
abbrev pub IsClean : Token → Type 0
IsClean (start name attribute) = IsName name × (is_attribute attribute ≡ true)
IsClean (finish name) = IsName name
IsClean (alone name attribute) = IsName name × (is_attribute attribute ≡ true)
IsClean (text t) = All (λ c. c ≢ b'<') t
IsClean (note t) = All (λ c. c ≢ b'>') t

-- The name of a tag is in the set that the DTD is made of.
abbrev pub IsListed : List (List ℕ) → Token → Type 0
IsListed tags (start name attribute) = has_text name tags ≡ true
IsListed tags (alone name attribute) = has_text name tags ≡ true
IsListed tags _ = Unit

-- The stream holds the header and then tokens that are well nested up to the tags that are open, and no
-- DTD is asked for.
pub record IsDocument (x : Xml) : Type 0 where
  pub tokens : List Token
  pub written : x.out ≡ xml_header ++ render_all tokens
  pub nested : nest tokens [] ≡ some x.tag_stack
  pub clean : All IsClean tokens
  pub listed : All (IsListed x.tags) tokens
  pub names : All IsName x.tag_stack
  pub no_dtd : x.make_dtd ≡ false

-- `x'` follows `x` by the tokens `new`.
pub record Writes (x : Xml) (new : List Token) (x' : Xml) : Type 0 where
  pub adds : x'.out ≡ x.out ++ render_all new
  pub nests : nest new x.tag_stack ≡ some x'.tag_stack
  pub lists : All (IsListed x'.tags) new
  pub keeps : (u : List ℕ) → has_text u x.tags ≡ true → has_text u x'.tags ≡ true
  pub same_dtd : x'.make_dtd ≡ x.make_dtd

render_all-append : (ts us : List Token) → render_all (ts ++ us) ≡ render_all ts ++ render_all us
unfolding render_all
render_all-append [] us = refl
render_all-append (t ∷ ts) us =
    ap (λ (s : List ℕ). render t ++ s) (render_all-append ts us)
    ∙ sym (append_assoc (render t) (render_all ts) (render_all us))

pub nest-append :
    (ts us : List Token) (open_tags : List (List ℕ)) {middle : List (List ℕ)}
    → nest ts open_tags ≡ some middle
    → nest (ts ++ us) open_tags ≡ nest us middle
unfolding nest
nest-append [] us open_tags h = ground arith
nest-append (t ∷ ts) us open_tags h = elim (Option-cases (nest_token t open_tags)) [
  | inl e ↦ cc (rw (e, nest) at h)
  | inr (rest, e) ↦ rw (e, nest) (nest-append ts us rest (rw (e, nest) at h))
]

pub nest-append_none :
    (ts us : List Token) (open_tags : List (List ℕ))
    → nest ts open_tags ≡ none
    → nest (ts ++ us) open_tags ≡ none
unfolding nest
nest-append_none [] us open_tags h = cc
nest-append_none (t ∷ ts) us open_tags h = elim (Option-cases (nest_token t open_tags)) [
  | inl e ↦ rw (e, nest) refl
  | inr (rest, e) ↦ rw (e, nest) (nest-append_none ts us rest (rw (e, nest) at h))
]

IsListed-keeps :
    (tags tags' : List (List ℕ)) (ts : List Token)
    → ((u : List ℕ) → has_text u tags ≡ true → has_text u tags' ≡ true)
    → All (IsListed tags) ts
    → All (IsListed tags') ts
IsListed-keeps tags tags' [] k h = tt
IsListed-keeps tags tags' (start n a ∷ ts) k h = (k n h.0, IsListed-keeps tags tags' ts k h.1)
IsListed-keeps tags tags' (alone n a ∷ ts) k h = (k n h.0, IsListed-keeps tags tags' ts k h.1)
IsListed-keeps tags tags' (finish n ∷ ts) k h = (tt, IsListed-keeps tags tags' ts k h.1)
IsListed-keeps tags tags' (text t ∷ ts) k h = (tt, IsListed-keeps tags tags' ts k h.1)
IsListed-keeps tags tags' (note t ∷ ts) k h = (tt, IsListed-keeps tags tags' ts k h.1)

pub IsDocument-Writes :
    (x x' : Xml) (new : List Token)
    → IsDocument x
    → Writes x new x'
    → All IsClean new
    → All IsName x'.tag_stack
    → IsDocument x'
IsDocument-Writes x x' new d w clean names = record {
  tokens = d.tokens ++ new;
  written =
      w.adds
      ∙ ap (λ (s : List ℕ). s ++ render_all new) d.written
      ∙ append_assoc xml_header (render_all d.tokens) (render_all new)
      ∙ ap (λ (s : List ℕ). xml_header ++ s) (sym (render_all-append d.tokens new));
  nested = nest-append d.tokens new [] d.nested ∙ w.nests;
  clean = All-append IsClean d.tokens new d.clean clean;
  listed =
      All-append (IsListed x'.tags) d.tokens new
        (IsListed-keeps x.tags x'.tags d.tokens w.keeps d.listed) w.lists;
  names = names;
  no_dtd = w.same_dtd ∙ d.no_dtd;
}
