-- ===== src/Search/FileMap/Clean.antt =====
-- `clean` narrows a file map: it drops no found block and invents no place.
use frag_find.Common.{
  ℕ, zero, suc, ◌+◌, ◌-◌, ◌%◌, ◌^◌, ◌≤◌, ◌<◌, ◌≡◌, refl, true, [], ◌∷◌, length, arith, Bool-cases,
  inl, inr, ap,
}
use frag_find.Search.FileMap.{
  BlockList, FileMap, contains, align_next, clean_forward_from, clean_forward, align_previous,
  align_before, clean_backward, clean, found_count,
}

-- `new` is what narrowing leaves of `old`: itself, or one block of it where it had several.
pub data Narrows (old : BlockList) : BlockList → Type 0 where
  kept : Narrows old old
  picked : (p : ℕ) → contains old p ≡ true → 2 ≤ length old → Narrows old (p ∷ [])

-- Entry by entry.
pub data NarrowsAll : FileMap → FileMap → Type 0 where
  end : NarrowsAll [] []
  entry :
      {old new : BlockList} {olds news : FileMap}
      → Narrows old new
      → NarrowsAll olds news
      → NarrowsAll (old ∷ olds) (new ∷ news)

align_next-Narrows : (prev cur : BlockList) → Narrows cur (align_next prev cur)
unfolding align_next
align_next-Narrows (p ∷ []) (c₀ ∷ c₁ ∷ cs) =
    elim (Bool-cases (contains (c₀ ∷ c₁ ∷ cs) ((p + 1) % 2 ^ 64))) [
      | inl e ↦ rw e (picked _ e (omega arith))
      | inr e ↦ rw e kept
    ]
align_next-Narrows _ _ = kept

align_previous-Narrows : (next cur : BlockList) → Narrows cur (align_previous next cur)
unfolding align_previous
align_previous-Narrows (p ∷ []) (c₀ ∷ c₁ ∷ cs) =
    elim (Bool-cases (contains (c₀ ∷ c₁ ∷ cs) ((p + 2 ^ 64 - 1) % 2 ^ 64))) [
      | inl e ↦ rw e (picked _ e (omega arith))
      | inr e ↦ rw e kept
    ]
align_previous-Narrows _ _ = kept

forward_from-NarrowsAll :
    (prev : BlockList) (rest : FileMap) → NarrowsAll rest (clean_forward_from prev rest)
unfolding clean_forward_from
forward_from-NarrowsAll prev [] = end
forward_from-NarrowsAll prev (cur ∷ rest) =
    entry (align_next-Narrows prev cur) (forward_from-NarrowsAll (align_next prev cur) rest)

forward-NarrowsAll : (map : FileMap) → NarrowsAll map (clean_forward map)
unfolding clean_forward
forward-NarrowsAll [] = end
forward-NarrowsAll (first ∷ rest) = entry kept (forward_from-NarrowsAll first rest)

align_before-Narrows : (done : FileMap) (cur : BlockList) → Narrows cur (align_before done cur)
unfolding align_before
align_before-Narrows [] cur = kept
align_before-Narrows (next ∷ rest) cur = align_previous-Narrows next cur

backward-NarrowsAll : (map : FileMap) → NarrowsAll map (clean_backward map)
unfolding clean_backward
backward-NarrowsAll [] = end
backward-NarrowsAll (cur ∷ rest) =
    entry (align_before-Narrows (clean_backward rest) cur) (backward-NarrowsAll rest)

Narrows-trans : {a b c : BlockList} → Narrows a b → Narrows b c → Narrows a c
Narrows-trans n kept = n
Narrows-trans kept (picked q e h) = picked q e h
Narrows-trans (picked p e h) (picked q f k) = absurd (omega arith)

NarrowsAll-trans : {a b c : FileMap} → NarrowsAll a b → NarrowsAll b c → NarrowsAll a c
NarrowsAll-trans end end = end
NarrowsAll-trans (entry m ms) (entry n ns) = entry (Narrows-trans m n) (NarrowsAll-trans ms ns)

-- Cleaning keeps the number of entries, and leaves each entry as it was or as a single one of
-- several blocks that it had.
pub clean-NarrowsAll : (map : FileMap) → NarrowsAll map (clean map)
unfolding clean
clean-NarrowsAll map =
    NarrowsAll-trans (forward-NarrowsAll map) (backward-NarrowsAll (clean_forward map))

found_count-entry :
    {old new : BlockList} (olds news : FileMap)
    → Narrows old new
    → found_count news ≡ found_count olds
    → found_count (new ∷ news) ≡ found_count (old ∷ olds)
unfolding found_count
found_count-entry {old = []} olds news kept e = e
found_count-entry {old = x ∷ xs} olds news kept e = omega arith
found_count-entry {old = []} olds news (picked p q h) e = absurd (omega arith)
found_count-entry {old = x ∷ xs} olds news (picked p q h) e = omega arith

found_count-NarrowsAll : {a b : FileMap} → NarrowsAll a b → found_count b ≡ found_count a
found_count-NarrowsAll end = refl
found_count-NarrowsAll (entry {olds = os} {news = ns} n r) =
    found_count-entry os ns n (found_count-NarrowsAll r)

-- Cleaning does not change how many blocks of the master file count as found.
pub found_count-clean : (map : FileMap) → found_count (clean map) ≡ found_count map
found_count-clean map = found_count-NarrowsAll (clean-NarrowsAll map)

-- The blocks of a run whose first block is `p`.
abbrev pub singles : ℕ → ℕ → FileMap
singles p zero = []
singles p (suc n) = (p ∷ []) ∷ singles (p + 1) n

-- Each entry contains the block that follows the one before it, from `p` on.
abbrev pub Continues : ℕ → FileMap → Type 0
Continues p [] = Unit
Continues p (cur ∷ rest) = (contains cur (p + 1) ≡ true) × Continues (p + 1) rest

align_next-run :
    (p : ℕ) (cur : BlockList)
    → p + 1 < 2 ^ 64
    → contains cur (p + 1) ≡ true
    → align_next (p ∷ []) cur ≡ (p + 1) ∷ []
unfolding align_next contains
align_next-run p [] small h = cc
align_next-run p (c ∷ []) small h = ground arith
align_next-run p (c₀ ∷ c₁ ∷ cs) small h =
    let e : (p + 1) % 2 ^ 64 ≡ p + 1 = omega arith in rw (e, h)

forward_from-run :
    (p : ℕ) (rest : FileMap)
    → p + length rest < 2 ^ 64
    → Continues p rest
    → clean_forward_from (p ∷ []) rest ≡ singles (p + 1) (length rest)
unfolding clean_forward_from
forward_from-run p [] small h = refl
forward_from-run p (cur ∷ rest) small h =
    rw (align_next-run p cur (omega arith) h.0)
      (ap (λ (t : FileMap). ((p + 1) ∷ []) ∷ t) (forward_from-run (p + 1) rest (omega arith) h.1))

-- An entry with one place is not looked at.
align_before-single : (done : FileMap) (p : ℕ) → align_before done (p ∷ []) ≡ p ∷ []
unfolding align_before align_previous
align_before-single [] p = refl
align_before-single ([] ∷ done) p = refl
align_before-single ((a ∷ []) ∷ done) p = refl
align_before-single ((a ∷ b ∷ cs) ∷ done) p = refl

backward-singles : (p n : ℕ) → clean_backward (singles p n) ≡ singles p n
unfolding clean_backward
backward-singles p zero = refl
backward-singles p (suc n) =
    cc (align_before-single (clean_backward (singles (p + 1) n)) p, backward-singles (p + 1) n)

-- If the first entry of a file map has the one block p, each later entry contains the block that
-- follows the one before it, and the blocks stay below 2^64, cleaning leaves in each entry only
-- the block that continues the run.
pub clean-run :
    (p : ℕ) (rest : FileMap)
    → p + length rest < 2 ^ 64
    → Continues p rest
    → clean ((p ∷ []) ∷ rest) ≡ singles p (suc (length rest))
unfolding clean clean_forward
clean-run p rest small h =
    rw (forward_from-run p rest small h) (backward-singles p (suc (length rest)))

length-NarrowsAll : {a b : FileMap} → NarrowsAll a b → length b ≡ length a
length-NarrowsAll end = refl
length-NarrowsAll (entry n r) = ap suc (length-NarrowsAll r)

pub length-clean : (map : FileMap) → length (clean map) ≡ length map
length-clean map = length-NarrowsAll (clean-NarrowsAll map)
