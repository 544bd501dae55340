-- ===== src/Bloom/Filter/Sequence.antt =====
-- Many calls of `nsrl_bloom_add`: the filter has no false negatives.
use frag_find.Common.{
  ℕ, ◌+◌, ◌%◌, ◌^◌, ◌≤◌, ◌≡◌, refl, sym, ◌∙◌, Bool, true, false, ◌||◌, List, [], ◌∷◌, none, Run,
  done, ◌>>=◌, Returns, ◌++◌, length, arith, All,
}
use frag_find.Bloom.Types.{Bloom, Env}
use frag_find.Bloom.Filter.{add, query}
use frag_find.Bloom.Filter.Laws.{IsValid, view, present, bit_of, add-Adds, query_lem, present_iff}

-- `add` for each hash in turn.
unfoldable pub add_all : Env → Bloom → List (List ℕ) → Run Bloom
add_all env b [] = done b
add_all env b (h ∷ hs) = add env b h >>= λ b'. add_all env b' hs

-- One of the hashes has this bit.
unfoldable pub some_bit : Bloom → List (List ℕ) → ℕ → Bool
some_bit b [] v = false
some_bit b (h ∷ hs) v = bit_of b h v || some_bit b hs v

-- The filter `b'` has the parameters of `b`, no key, and is valid.
pub record Follows (b b' : Bloom) : Type 0 where
  pub valid : IsValid b'
  pub same_m : b'.m ≡ b.m
  pub same_k : b'.k ≡ b.k
  pub same_hash_bytes : b'.hash_bytes ≡ b.hash_bytes
  pub keyless : b'.key ≡ none

pub bit_of-Follows :
    (b b' : Bloom) (h : List ℕ) (v : ℕ) → b'.m ≡ b.m → b'.k ≡ b.k → bit_of b' h v ≡ bit_of b h v
bit_of-Follows b b' h v em ek = rw (em, ek) refl

pub some_bit-Follows :
    (b b' : Bloom) (hs : List (List ℕ)) (v : ℕ)
    → b'.m ≡ b.m
    → b'.k ≡ b.k
    → some_bit b' hs v ≡ some_bit b hs v
unfolding some_bit
some_bit-Follows b b' [] v em ek = refl
some_bit-Follows b b' (h ∷ hs) v em ek =
    rw (bit_of-Follows b b' h v em ek, some_bit-Follows b b' hs v em ek) refl

or_assoc : (a b c : Bool) → ((a || b) || c) ≡ (a || (b || c))
or_assoc true b c = refl
or_assoc false b c = refl

abbrev pub AreLong : ℕ → List (List ℕ) → Type 0
AreLong n hs = All (λ h. n ≤ length h) hs

module _ (env : Env) where
  -- On a valid filter with no key, any list of adds of hashes at least as long as those of the
  -- filter returns a valid filter with the same parameters, whose set of bits is the old one and
  -- the bits of those hashes.
  pub add_all-bits :
      (hs : List (List ℕ)) (b : Bloom)
      → IsValid b
      → b.key ≡ none
      → AreLong b.hash_bytes hs
      → Returns
          (add_all env b hs)
          λ b'. Follows b b' × ((v : ℕ) → view b' v ≡ (view b v || some_bit b hs v))
  unfolding add_all some_bit
  add_all-bits [] b valid keyless long = (
    b,
    refl,
    (
      record {
        valid = valid;
        same_m = refl;
        same_k = refl;
        same_hash_bytes = refl;
        keyless = keyless;
      },
      λ v. ground arith,
    ),
  )
  add_all-bits (h ∷ hs) b valid keyless long =
      let (c, run, a) = add-Adds env b h valid keyless long.0 in
      let (b', run', (f, bits)) =
        add_all-bits hs c a.valid (a.same_key ∙ keyless) (rw a.same_hash_bytes long.1) in
      (
        b',
        rw run run',
        (
          record {
            valid = f.valid;
            same_m = f.same_m ∙ a.same_m;
            same_k = f.same_k ∙ a.same_k;
            same_hash_bytes = f.same_hash_bytes ∙ a.same_hash_bytes;
            keyless = f.keyless;
          },
          λ v.
              bits v
              ∙ (rw (a.bits v, some_bit-Follows b c hs v a.same_m a.same_k)
                  (or_assoc (view b v) (bit_of b h v) (some_bit b hs v))),
        ),
      )

  some_bit-append :
      (b : Bloom) (xs : List (List ℕ)) (h : List ℕ) (ys : List (List ℕ)) (v : ℕ)
      → bit_of b h v ≡ true
      → some_bit b (xs ++ h ∷ ys) v ≡ true
  unfolding some_bit
  some_bit-append b [] h ys v e = rw e refl
  some_bit-append b (x ∷ xs) h ys v e = rw (some_bit-append b xs h ys v e) (ground arith)

  -- The filter has no false negatives: on a valid filter with no key, after any list of adds of
  -- hashes at least as long as those of the filter, a query of one of them returns and answers
  -- that it is present.
  pub add_all-query :
      (xs : List (List ℕ)) (h : List ℕ) (ys : List (List ℕ)) (b : Bloom)
      → IsValid b
      → b.key ≡ none
      → AreLong b.hash_bytes (xs ++ h ∷ ys)
      → b.hash_bytes ≤ length h
      → Returns (add_all env b (xs ++ h ∷ ys) >>= λ b'. query env b' h) λ r. r.1 ≡ true
  add_all-query xs h ys b valid keyless long fits =
      let (b', run, (f, bits)) = add_all-bits (xs ++ h ∷ ys) b valid keyless long in
      let asked = query_lem env b' h f.valid f.keyless (rw f.same_hash_bytes fits) in
      let here : present b' h ≡ true = (present_iff b' h f.valid).1 λ v p.
        bits v
        ∙ (rw (some_bit-append b xs h ys v (sym (bit_of-Follows b b' h v f.same_m f.same_k) ∙ p))
            (ground arith)) in
      (
        (record b' { hits = (b'.hits + 1) % 2 ^ 64; lookups = b'.lookups + 1 }, present b' h),
        rw run asked,
        here,
      )
