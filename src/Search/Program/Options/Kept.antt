-- ===== src/Search/Program/Options/Kept.antt =====
-- The XML object that the options leave is a document without an open tag.
use mathlib.Core.Path.{subst}
use frag_find.Common.{
  ℕ, ◌≡◌, refl, Bool, true, false, List, [], ◌∷◌, some, Run, done, exited, ◌>>=◌, ◌==◌,
  if◌then◌else◌,
}
use frag_find.Common.Decimal.{atoi}
use frag_find.Xml.Writer.{new_xml, open_xml}
use frag_find.Xml.Writer.Sequence.{new_xml-IsDocument}
use frag_find.Xml.Writer.Effects.{IsAt, IsDocument-IsAt}
use frag_find.Search.Program.Options.{Settings, defaults, exclude, set_option, set_options}
use frag_find.Search.Program.Reports.{IsOpen}

-- Settings that a run leaves have no tag open.
record KeepsXml (r : Run Settings) : Type 0 where
  closed : (s : Settings) → r ≡ done s → IsOpen [] s.xml

done-KeepsXml : (s : Settings) → IsOpen [] s.xml → KeepsXml (done s)
done-KeepsXml s h = record {
  closed = λ s' e. let q : s ≡ s' = cc in subst (λ (t : Settings). IsOpen [] t.xml) q h;
}

exited-KeepsXml : (n : ℕ) → KeepsXml (exited n)
exited-KeepsXml n = record { closed = λ s' e. cc }

if-KeepsXml :
    (c : Bool) (a b : Run Settings) → KeepsXml a → KeepsXml b → KeepsXml (if c then a else b)
if-KeepsXml true a b h k = h
if-KeepsXml false a b h k = k

bind-KeepsXml :
    (r : Run Settings) (next : Settings → Run Settings)
    → KeepsXml r
    → ((s : Settings) → IsOpen [] s.xml → KeepsXml (next s))
    → KeepsXml (r >>= next)
bind-KeepsXml (Run.done s) next h k = k s (h.closed s refl)
bind-KeepsXml (Run.fault e) next h k = record { closed = λ s' e. cc }
bind-KeepsXml (Run.exited n) next h k = exited-KeepsXml n

new_xml-IsAt : IsAt [] new_xml
new_xml-IsAt = IsDocument-IsAt [] new_xml new_xml-IsDocument refl

module _ (read_u64 : List ℕ → ℕ) (opens : List ℕ → Bool) where
  exclude-KeepsXml :
      (s : Settings) (n : ℕ) → IsOpen [] s.xml → KeepsXml (exclude read_u64 opens s n)
  unfolding exclude
  exclude-KeepsXml s n h =
      if-KeepsXml (n == 1) _ _ (done-KeepsXml _ h)
        (if-KeepsXml (n == 2) _ _ (done-KeepsXml _ h) (exited-KeepsXml 1))

  open-KeepsXml :
      (s : Settings) (ok : Bool)
      → KeepsXml (open_xml ok true >>= λ x. done (record s { xml = some x }))
  unfolding open_xml
  open-KeepsXml s true = done-KeepsXml _ new_xml-IsAt
  open-KeepsXml s false = exited-KeepsXml 1

  set_option-KeepsXml :
      (s : Settings) (ch : ℕ) (optarg : List ℕ)
      → IsOpen [] s.xml
      → KeepsXml (set_option read_u64 opens s ch optarg)
  unfolding set_option
  set_option-KeepsXml s ch optarg h = if-KeepsXml (ch == b's') _ _ (done-KeepsXml _ h) (
      if-KeepsXml (ch == b'e') _ _ (done-KeepsXml _ h) (
        if-KeepsXml (ch == b'r') _ _ (done-KeepsXml _ h) (
          if-KeepsXml (ch == b'b') _ _ (done-KeepsXml _ h) (
            if-KeepsXml (ch == b'S') _ _ (done-KeepsXml _ h) (
              if-KeepsXml (ch == b'M') _ _ (done-KeepsXml _ h) (
                if-KeepsXml (ch == b'm') _ _ (done-KeepsXml _ h) (
                  if-KeepsXml (ch == b'X') _ _ (exclude-KeepsXml s (atoi optarg) h) (
                    if-KeepsXml (ch == b'x') _ _ (open-KeepsXml s (opens optarg))
                      (exited-KeepsXml 1)))))))))

  set_options-KeepsXml :
      (s : Settings) (options : List (ℕ × List ℕ))
      → IsOpen [] s.xml
      → KeepsXml (set_options read_u64 opens s options)
  unfolding set_options
  set_options-KeepsXml s [] h = done-KeepsXml s h
  set_options-KeepsXml s ((ch, optarg) ∷ options) h =
      bind-KeepsXml (set_option read_u64 opens s ch optarg) _ (set_option-KeepsXml s ch optarg h)
        λ s' k. set_options-KeepsXml s' options k

  pub set_options-IsOpen :
      (options : List (ℕ × List ℕ)) (s : Settings)
      → set_options read_u64 opens defaults options ≡ done s
      → IsOpen [] s.xml
  set_options-IsOpen options s e = (set_options-KeepsXml defaults options tt).closed s e
