-- ===== src/Regex/Earliest.antt =====
-- The list of patterns finds the earliest of the hits of its patterns, the first of them in the list.
use mathlib.Core.List.{append_assoc, append-nil}
use frag_find.Common.{
  ℕ, ◌≤◌, ◌<◌, ◌≡◌, refl, ◌∙◌, ap, Bool, true, false, List, [], ◌∷◌, ◌++◌, ltb, if◌then◌else◌,
  Bool-cases, inl, inr, All, All-append, arith,
}
use frag_find.Regex.{Engine, Regex, Hit, search_first}
use frag_find.Regex.Patterns.{no_hit, check_from, check}

-- What the patterns that match find, each by itself.
unfoldable pub hits_of : Engine → List Regex → List ℕ → List Hit
hits_of engine [] buf = []
hits_of engine (r ∷ rs) buf =
    let (is_match, new) = search_first engine r buf no_hit in
    let rest = hits_of engine rs buf in if is_match then new ∷ rest else rest

-- No hit is before `h`, and the hits that stand before it in the list are after it in the text.
pub record IsEarliest (hits : List Hit) (h : Hit) : Type 0 where
  pub before : List Hit
  pub after : List Hit
  pub among : hits ≡ before ++ h ∷ after
  pub later : All (λ g. h.offset < g.offset) before
  pub not_earlier : All (λ g. h.offset ≤ g.offset) after

-- With no hit the variables of the caller are left alone.
abbrev pub Finds : List Hit → Hit → Bool × Hit → Type 0
Finds [] hit r = r ≡ (false, hit)
Finds (h ∷ hs) hit r = (r.0 ≡ true) × IsEarliest (h ∷ hs) r.1

best : Hit → List Hit → Hit
best h [] = h
best h (g ∷ gs) = best (if ltb g.offset h.offset then g else h) gs

check_from-best :
    (engine : Engine) (rs : List Regex) (buf : List ℕ) (hit : Hit)
    → check_from engine rs buf false hit ≡ (true, best hit (hits_of engine rs buf))
unfolding check_from hits_of best
check_from-best engine [] buf hit = refl
check_from-best engine (r ∷ rs) buf hit = elim (Bool-cases (search_first engine r buf no_hit).0) [
  | inl e ↦ rw e (check_from-best engine rs buf _)
  | inr e ↦ rw e (check_from-best engine rs buf hit)
]

weaken :
    (h g : Hit) (hs : List Hit)
    → g.offset < h.offset
    → All (λ (x : Hit). h.offset ≤ x.offset) hs
    → All (λ (x : Hit). g.offset < x.offset) hs
weaken h g [] less all = tt
weaken h g (x ∷ hs) less all = (omega arith, weaken h g hs less all.1)

strictly :
    (h g : Hit) (hs : List Hit)
    → g.offset < h.offset
    → All (λ (x : Hit). h.offset < x.offset) hs
    → All (λ (x : Hit). g.offset < x.offset) hs
strictly h g [] less all = tt
strictly h g (x ∷ hs) less all = (omega arith, strictly h g hs less all.1)

-- One more hit.
extend :
    (seen : List Hit) (h g : Hit)
    → IsEarliest seen h
    → IsEarliest (seen ++ g ∷ []) (if ltb g.offset h.offset then g else h)
extend seen h g e = elim (Bool-cases (ltb g.offset h.offset)) [
  | inl less ↦
      let lt : g.offset < h.offset = ground arith in
      rw less (record {
        before = seen;
        after = [];
        among = refl;
        later = rw e.among (
            All-append (λ (x : Hit). g.offset < x.offset) e.before (h ∷ e.after)
              (strictly h g e.before lt e.later) (lt, weaken h g e.after lt e.not_earlier));
        not_earlier = tt;
      })
  | inr not_less ↦
      let le : h.offset ≤ g.offset = ground arith in
      rw not_less (record {
        before = e.before;
        after = e.after ++ g ∷ [];
        among =
            ap (λ (s : List Hit). s ++ g ∷ []) e.among
            ∙ append_assoc e.before (h ∷ e.after) (g ∷ []);
        later = e.later;
        not_earlier =
            All-append (λ (x : Hit). h.offset ≤ x.offset) e.after (g ∷ []) e.not_earlier (le, tt);
      })
]

best-IsEarliest :
    (hs seen : List Hit) (h : Hit) → IsEarliest seen h → IsEarliest (seen ++ hs) (best h hs)
unfolding best
best-IsEarliest [] seen h e = rw (append-nil seen) e
best-IsEarliest (g ∷ gs) seen h e = rw (← append_assoc seen (g ∷ []) gs) (
    best-IsEarliest gs (seen ++ g ∷ []) (if ltb g.offset h.offset then g else h)
      (extend seen h g e))

-- The list of patterns says yes exactly when one of its patterns matches; its hit is then the
-- first in the list of those hits of single patterns whose place no other hit comes before, and
-- without a match the variables of the caller stay as they were.
pub check-Finds :
    (engine : Engine) (patterns : List Regex) (buf : List ℕ) (hit : Hit)
    → Finds (hits_of engine patterns buf) hit (check engine patterns buf hit)
unfolding check check_from hits_of
check-Finds engine [] buf hit = refl
check-Finds engine (r ∷ rs) buf hit = elim (Bool-cases (search_first engine r buf no_hit).0) [
  | inl e ↦
      let new = (search_first engine r buf no_hit).1 in
      rw (e, check_from-best engine rs buf new)
        (
          refl,
          best-IsEarliest (hits_of engine rs buf) (new ∷ []) new
              (record { before = []; after = []; among = refl; later = tt; not_earlier = tt }),
        )
  | inr e ↦ rw e (check-Finds engine rs buf hit)
]
