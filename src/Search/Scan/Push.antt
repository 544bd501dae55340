-- ===== src/Search/Scan/Push.antt =====
-- One block of the image: it is pushed to exactly the entries whose block has its digest.
use mathlib.Core.List.{append-nil}
use frag_find.Common.{
  ℕ, zero, suc, ◌+◌, ◌≤◌, ◌<◌, ◌≡◌, refl, sym, ◌∙◌, Bool, true, false, ◌&&◌, ◌||◌, List, [], ◌∷◌,
  ◌++◌, Returns, length, set, length-set, get_or, get_or-set_self, get_or-set_ne, arith, ◌==◌,
  if◌then◌else◌, Bool-cases, inl, inr, ==_iff, bind-done, read-done,
}
use frag_find.Search.FileMap.{BlockList, FileMap}
use frag_find.Search.Digest.{equal}
use frag_find.Search.Master.{Digest}
use frag_find.Search.Master.Positions.{positions}
use frag_find.Search.Scan.{push_all}

-- Is `key` the digest at position `j`, counted from `off`?
here : ℕ → List Digest → Digest → ℕ → Bool
here off [] key j = false
here off (d ∷ ds) key j = (off == j && equal key d) || here (off + 1) ds key j

here_below :
    (off : ℕ) (ds : List Digest) (key : Digest) (j : ℕ) → j < off → here off ds key j ≡ false
unfolding here
here_below off [] key j h = refl
here_below off (d ∷ ds) key j h = ground (arith, here_below (off + 1) ds key j)

here-get_or :
    (off : ℕ) (ds : List Digest) (key : Digest) (i : ℕ)
    → i < length ds
    → here off ds key (off + i) ≡ equal key (get_or ds i [])
unfolding here
here-get_or off [] key i h = absurd (omega arith)
here-get_or off (d ∷ ds) key zero h =
    let e : off + 0 ≡ off = omega arith in rw e (ground (arith, here_below (off + 1) ds key off))
here-get_or off (d ∷ ds) key (suc i) h =
    let e : off + suc i ≡ off + 1 + i = omega arith in
    rw e (ground (arith, here-get_or (off + 1) ds key i (omega arith)))

mark : Bool → ℕ → BlockList
mark b n = if b then n ∷ [] else []

append-mark : (xs : BlockList) (n : ℕ) → xs ++ mark false n ≡ xs
unfolding mark
append-mark xs n = append-nil xs

-- The state of the entries after pushes at the positions of a digest.
record IsPushed (off : ℕ) (ds : List Digest) (key : Digest) (n : ℕ) (fm fm' : FileMap)
    : Type 0 where
  same_length : length fm' ≡ length fm
  entries : (j : ℕ) → get_or fm' j [] ≡ get_or fm j [] ++ mark (here off ds key j) n

push_all-suc :
    (i : ℕ) (is : BlockList) (n : ℕ) (fm : FileMap)
    → i < length fm
    → push_all (i ∷ is) n fm ≡ push_all is n (set fm i (get_or fm i [] ++ n ∷ []))
unfolding push_all
push_all-suc i is n fm h = bind-done _ (read-done fm i [] h) refl

pushed_entry :
    (off : ℕ) (ds : List Digest) (d key : Digest) (n : ℕ) (fm : FileMap) (j : ℕ)
    → off < length fm
    → equal key d ≡ true
    → get_or (set fm off (get_or fm off [] ++ n ∷ [])) j [] ++ mark (here (off + 1) ds key j) n
      ≡ get_or fm j [] ++ mark (here off (d ∷ ds) key j) n
unfolding here
pushed_entry off ds d key n fm j room e = elim (Bool-cases (off == j)) [
  | inl s ↦
      let same : j ≡ off = sym ((==_iff off j).0 s) in
      let none_after = here_below (off + 1) ds key off (omega arith) in
      let self : (off == off) ≡ true = (==_iff off off).1 refl in
      rw
        (
          same,
          get_or-set_self fm off (get_or fm off [] ++ n ∷ []) [] room,
          none_after,
          append-mark (get_or fm off [] ++ n ∷ []) n,
          self,
          e,
        )
        (unfold mark in refl)
  | inr s ↦ rw (get_or-set_ne fm off j (get_or fm off [] ++ n ∷ []) [] (λ q. ground arith), s) refl
]

push_all-IsPushed :
    (off : ℕ) (ds : List Digest) (key : Digest) (n : ℕ) (fm : FileMap)
    → off + length ds ≤ length fm
    → Returns (push_all (positions off ds key) n fm) (IsPushed off ds key n fm)
unfolding positions
push_all-IsPushed off [] key n fm room = (
  fm,
  unfold push_all in refl,
  record {
    same_length = refl;
    entries = λ j. unfold here mark in sym (append-nil (get_or fm j []));
  },
)
push_all-IsPushed off (d ∷ ds) key n fm room = elim (Bool-cases (equal key d)) [
  | inr e ↦
      let (fm', run, q) = push_all-IsPushed (off + 1) ds key n fm (omega arith) in
      (
        fm',
        rw e run,
        record {
          same_length = q.same_length;
          entries = λ j. q.entries j ∙ unfold here in rw e (ground arith);
        },
      )
  | inl e ↦
      let fm₁ = set fm off (get_or fm off [] ++ n ∷ []) in
      let (fm', run, q) =
        push_all-IsPushed (off + 1) ds key n fm₁
          (omega (arith, length-set fm off (get_or fm off [] ++ n ∷ []))) in
      (
        fm',
        rw e (push_all-suc off (positions (off + 1) ds key) n fm (omega arith) ∙ run),
        record {
          same_length = q.same_length ∙ length-set fm off (get_or fm off [] ++ n ∷ []);
          entries = λ j. q.entries j ∙ pushed_entry off ds d key n fm j (omega arith) e;
        },
      )
]

-- The entry of every master block gets the block of the image exactly when the digests are equal.
pub push_all-positions :
    (ds : List Digest) (key : Digest) (n : ℕ) (fm : FileMap)
    → length ds ≤ length fm
    → Returns (push_all (positions 0 ds key) n fm) λ fm'.
      (length fm' ≡ length fm)
      × ((j : ℕ)
          → j < length ds
          → get_or fm' j [] ≡ get_or fm j [] ++ (if equal key (get_or ds j []) then n ∷ [] else []))
unfolding mark
push_all-positions ds key n fm room =
    let (fm', run, q) = push_all-IsPushed 0 ds key n fm (omega arith) in
    (
      fm',
      run,
      (
        q.same_length,
        λ j h.
            let z : 0 + j ≡ j = omega arith in
            q.entries j ∙ rw (rw z at (here-get_or 0 ds key j h)) refl,
      ),
    )
