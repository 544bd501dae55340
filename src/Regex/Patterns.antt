-- ===== src/Regex/Patterns.antt =====
-- `regex_list` of src/beregex.cpp. Reading a line leaves a carriage return at its end, as the test for one
-- looks at the NUL after the text.
use frag_find.Common.{
  ℕ, Bool, true, false, ◌||◌, ◌&&◌, not, List, [], ◌∷◌, ◌++◌, Option, none, some, Run, done, ◌>>=◌,
  ltb, if◌then◌else◌,
}
use frag_find.Xml.Close.{split_lines}
use frag_find.Regex.{Engine, Regex, Hit, compile, search_first}

abbrev pub no_hit : Hit
no_hit = record { found = []; offset = 0; len = 0 }

module _ (engine : Engine) where
  unfoldable pub add_regex : List Regex → List ℕ → Run (List Regex)
  add_regex patterns pat = do r ← compile engine pat 0; done (patterns ++ r ∷ [])

  unfoldable pub add_lines : List Regex → List (List ℕ) → Run (List Regex)
  add_lines patterns [] = done patterns
  add_lines patterns (line ∷ lines) =
      compile engine line 0 >>= λ r. add_lines (patterns ++ r ∷ []) lines

  -- The Boolean is whether the file opens; its lines are up to the end of the file.
  unfoldable pub readfile : List Regex → Option (List ℕ) → Run (List Regex × Bool)
  readfile patterns file = elim file [
    | none ↦ done (patterns, false)
    | some text ↦ do
      let (line, rest) = split_lines text
      patterns' ← add_lines patterns (line ∷ rest)
      done (patterns', true)
  ]

  -- The loop of `check`: `first` and the variables of the caller.
  unfoldable pub check_from : List Regex → List ℕ → Bool → Hit → Bool × Hit
  check_from [] buf first hit = (not first, hit)
  check_from (r ∷ rs) buf first hit =
      let (is_match, new) = search_first engine r buf no_hit in
      let taken = is_match && (first || ltb new.offset hit.offset) in
      check_from rs buf (first && not taken) (if taken then new else hit)

  unfoldable pub check : List Regex → List ℕ → Hit → Bool × Hit
  unfolding check_from
  check patterns buf hit = check_from patterns buf true hit
