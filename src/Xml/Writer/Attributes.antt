-- ===== src/Xml/Writer/Attributes.antt =====
-- Which names and attributes make a tag that is read back as one tag.
use frag_find.Common.{
  ℕ, ◌==◌, ◌≡◌, refl, ◌∙◌, Bool, true, false, not, ◌&&◌, ◌||◌, List, [], ◌∷◌, ◌++◌, All, arith,
  if◌then◌else◌,
}

abbrev pub is_inner : ℕ → Bool
is_inner c = not (c == b'<') && not (c == b'>')

-- No bracket, slash, quotation mark, blank, tabulator or line end.
abbrev pub is_name_char : ℕ → Bool
is_name_char c =
    is_inner c
    && (not (c == b'/' || (c == 39 || c == 34))
        && not (c == b' ' || (c == 9 || (c == 10 || c == 13))))

abbrev pub name_chars : List ℕ → Bool
name_chars [] = true
name_chars (c ∷ s) = is_name_char c && name_chars s

-- Text that a reader takes for the name of an element.
abbrev pub is_tag : List ℕ → Bool
is_tag [] = false
is_tag (c ∷ s) = not (c == b'!' || c == b'?') && name_chars (c ∷ s)

-- The quotation mark that is open after a character, or 0.
abbrev pub quote_after : ℕ → ℕ → ℕ
quote_after q c =
    if q == 0 then (if c == 39 || c == 34 then c else 0) else (if c == q then 0 else q)

-- With an open quotation mark, and whether the last character was a slash.
abbrev pub is_attribute_from : ℕ → Bool → List ℕ → Bool
is_attribute_from q slash [] = q == 0 && not slash
is_attribute_from q slash (c ∷ s) = is_inner c && is_attribute_from (quote_after q c) (c == b'/') s

-- Attributes without a bracket, with every quotation closed, and without a slash at the end.
abbrev pub is_attribute : List ℕ → Bool
is_attribute attribute = is_attribute_from 0 false attribute

-- A character of a value between quotation marks `q`.
abbrev pub is_value_char : ℕ → ℕ → Bool
is_value_char q c = is_inner c && not (c == q)

abbrev pub IsValue : ℕ → List ℕ → Type 0
IsValue q v = All (λ c. is_value_char q c ≡ true) v

-- A value in quotation marks is passed over.
pub is_attribute_from-value :
    (q : ℕ) (slash : Bool) (v : List ℕ) (c : ℕ) (rest : List ℕ)
    → (q == 0) ≡ false
    → IsValue q v
    → is_attribute_from q slash (v ++ c ∷ rest) ≡ is_attribute_from q false (c ∷ rest)
is_attribute_from-value q slash [] c rest h a = refl
is_attribute_from-value q slash (x ∷ v) c rest h (a, more) =
    let inner : is_inner x ≡ true = ground arith in
    let stays : quote_after q x ≡ q = ground arith in
    (λ i. inner i && is_attribute_from (stays i) (x == b'/') (v ++ c ∷ rest))
    ∙ is_attribute_from-value q (x == b'/') v c rest h more
