-- ===== src/Search/Master/Positions.antt =====
-- The md5map of a master file is the list of positions of each digest.
use frag_find.Common.{
  ℕ, suc, ◌+◌, ◌≡◌, refl, sym, ◌∙◌, true, List, [], ◌∷◌, ◌++◌, length, All, arith, if◌then◌else◌,
  Bool-cases, inl, inr,
}
use frag_find.Search.FileMap.{BlockList}
use frag_find.Search.Digest.{equivalent, equal, equivalent_iff, equal_iff}
use frag_find.Search.Master.{Digest, Md5Map, touch, at_key, push_at}

abbrev pub IsDigest : Digest → Type 0
IsDigest d = length d ≡ 16

abbrev pub HasDigests : Md5Map → Type 0
HasDigests m = All (λ e. IsDigest e.0) m

-- Where `key` stands in a list of digests, counted from `off`.
unfoldable pub positions : ℕ → List Digest → Digest → BlockList
positions off [] key = []
positions off (d ∷ ds) key =
    if equal key d then off ∷ positions (off + 1) ds key else positions (off + 1) ds key

equivalent-equal : (a b : Digest) → IsDigest a → IsDigest b → equivalent a b ≡ equal a b
equivalent-equal a b p q = ground (arith, equivalent_iff a b (p ∙ sym q), equal_iff a b)

equal_congr : (key k j : Digest) → equal key k ≡ true → equal k j ≡ equal key j
equal_congr key k j h = rw ((equal_iff key k).0 h) refl

equal_symm : (a b : Digest) → equal a b ≡ equal b a
equal_symm a b = ground (arith, equal_iff a b, equal_iff b a)

pub HasDigests-push_at :
    (k : Digest) (block : ℕ) (m : Md5Map)
    → IsDigest k
    → HasDigests m
    → HasDigests (push_at k block m)
unfolding push_at
HasDigests-push_at k block [] q h = (q, tt)
HasDigests-push_at k block ((j, bs) ∷ m) q h = elim (Bool-cases (equivalent k j)) [
  | inl e ↦ rw e h
  | inr e ↦ rw e (h.0, HasDigests-push_at k block m q h.1)
]

pub HasDigests-touch :
    (k : Digest) (m : Md5Map) → IsDigest k → HasDigests m → HasDigests (touch k m)
unfolding touch
HasDigests-touch k [] q h = (q, tt)
HasDigests-touch k ((j, bs) ∷ m) q h = elim (Bool-cases (equivalent k j)) [
  | inl e ↦ rw e h
  | inr e ↦ rw e (h.0, HasDigests-touch k m q h.1)
]

-- Looking a key up changes no list.
pub at_key-touch : (key k : Digest) (m : Md5Map) → at_key key (touch k m) ≡ at_key key m
unfolding touch at_key
at_key-touch key k [] = ground arith
at_key-touch key k ((j, bs) ∷ m) = ground (arith, at_key-touch key k m)

-- In an md5map of 16-byte keys, a push at a 16-byte digest appends to the list of an equal digest
-- and leaves the list of every other 16-byte digest unchanged.
pub at_key-push_at :
    (key k : Digest) (block : ℕ) (m : Md5Map)
    → IsDigest key
    → IsDigest k
    → HasDigests m
    → at_key key (push_at k block m)
      ≡ (if equal key k then at_key key m ++ block ∷ [] else at_key key m)
unfolding push_at at_key
at_key-push_at key k block [] p q h = rw (equivalent-equal key k p q) (ground arith)
at_key-push_at key k block ((j, bs) ∷ m) p q h = ground (
  arith,
  equivalent-equal key j p h.0,
  equivalent-equal key k p q,
  equivalent-equal k j q h.0,
  equal_congr key k j,
  equal_congr j k key,
  equal_symm j k,
  equal_symm j key,
  equal_symm k key,
  at_key-push_at key k block m p q h.1,
)

pub positions-snoc :
    (off : ℕ) (ds : List Digest) (d key : Digest)
    → positions off (ds ++ d ∷ []) key ≡ (
        if equal key d
        then positions off ds key ++ (off + length ds) ∷ []
        else positions off ds key)
unfolding positions
positions-snoc off [] d key = let e : off + 0 ≡ off = omega arith in rw e (ground arith)
positions-snoc off (c ∷ ds) d key =
    let e : off + suc (length ds) ≡ off + 1 + length ds = omega arith in
    rw e (ground (arith, positions-snoc (off + 1) ds d key))
