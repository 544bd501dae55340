-- ===== src/Regex.antt =====
-- The covers of regular expressions: `myregex` of src/myregex.h and `beregex` of src/beregex.cpp, whose
-- searches are the same. The library of regular expressions is the parameter `engine`.
pub mod Patterns
pub mod Earliest
use frag_find.Common.{
  ℕ, zero, suc, ◌+◌, ◌-◌, ◌/◌, ◌%◌, ◌^◌, bit_or, Bool, true, false, not, List, [], ◌∷◌, ◌++◌,
  Option, none, some, Run, done, exited, fault, null_pointer, out_of_bounds, ◌>>=◌, length, take,
  drop, get_elem?, ◌==◌, if◌then◌else◌,
}

-- A `regmatch_t`: the span of a group, or two times -1.
pub data Group : Type 0 where
  unset : Group
  span : ℕ → ℕ → Group

-- What `regexec` gives: the groups, of which the first is the whole match, or an error code.
pub data Outcome : Type 0 where
  matched : List Group → Outcome
  failed : ℕ → Outcome

pub record Engine : Type 0 where
  -- does `regcomp` take the pattern with these flags?
  pub compiles : List ℕ → ℕ → Bool
  pub regexec : List ℕ → ℕ → List ℕ → Outcome

-- `compiled` is whether there is a `regex_t`.
pub record Regex : Type 0 where
  pub pat : List ℕ
  pub flags : ℕ
  pub compiled : Bool

-- A shell glob as a pattern.
unfoldable pub from_glob : List ℕ → List ℕ
from_glob [] = []
from_glob (c ∷ s) =
    if c == b'?'
    then b'.' ∷ from_glob s
    else (if c == b'*' then b'.' ∷ b'*' ∷ from_glob s else c ∷ from_glob s)

unfoldable pub is_glob : ℕ → Bool
is_glob flags = flags / 2 ^ 24 % 2 == 1

-- `pmatch[i]`
unfoldable pub group_at : List Group → ℕ → Group
group_at groups i = elim (get_elem? groups i) [ none ↦ unset | some g ↦ g ]

-- The variables that the caller passes by address.
pub record Hit : Type 0 where
  pub found : List ℕ
  pub offset : ℕ
  pub len : ℕ

-- `line.substr(start,len)` of a group; that of an unset group throws.
unfoldable pub substr_of : List ℕ → Group → Run (List ℕ)
substr_of line unset = fault out_of_bounds
substr_of line (span so eo) = done (take (eo - so) (drop so line))

-- The groups from `i` on, `left` of them.
unfoldable pub substrs : ℕ → ℕ → List ℕ → List Group → Run (List (List ℕ))
unfolding group_at substr_of
substrs zero i line groups = done []
substrs (suc left) i line groups = do
  m ← substr_of line (group_at groups i)
  ms ← substrs left (i + 1) line groups
  done (m ∷ ms)

module _ (engine : Engine) where
  -- `beregex::compile`; REG_EXTENDED is 1.
  unfoldable pub compile : List ℕ → ℕ → Run Regex
  compile [] flags = done (record { pat = []; flags = flags; compiled = false })
  compile (c ∷ pat) flags =
      if engine.compiles (c ∷ pat) (bit_or flags 1)
      then done (record { pat = c ∷ pat; flags = bit_or flags 1; compiled = true })
      else exited 1

  -- `myregex::myregex`
  unfoldable pub myregex : List ℕ → ℕ → Run Regex
  unfolding is_glob
  myregex pat flags =
      if is_glob flags then compile (from_glob pat) (flags - 2 ^ 24) else compile pat flags

  unfoldable pub search_first : Regex → List ℕ → Hit → Bool × Hit
  unfolding group_at
  search_first r line hit =
      if not r.compiled then (false, hit) else elim (engine.regexec r.pat r.flags line) [
        | failed code ↦ (false, hit)
        | matched groups ↦ elim (group_at groups 1) [
          | unset ↦ (true, hit)
          | span so eo ↦ if so == eo then (true, hit) else (
            true,
            record { found = take (eo - so) (drop so line); offset = so; len = eo - so },
          )
        ]
      ]

  -- The result code, and the matches, which stay as they were unless there is a match.
  unfoldable pub search_groups : Regex → List ℕ → List (List ℕ) → Run (ℕ × List (List ℕ))
  search_groups r line matches =
      if not r.compiled then done (0, matches) else elim (engine.regexec r.pat r.flags line) [
        | failed code ↦ done (code, matches)
        | matched groups ↦ do ms ← substrs (length matches) 1 line groups; done (0, ms)
      ]

  unfoldable pub search_text : Regex → List ℕ → Run (List ℕ)
  search_text r line =
      if not r.compiled then fault null_pointer else elim (engine.regexec r.pat r.flags line) [
        | failed code ↦ done []
        | matched groups ↦ substr_of line (group_at groups 1)
      ]
