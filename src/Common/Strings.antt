-- ===== src/Common/Strings.antt =====
-- Comparison of texts, as `std::string` and `strcmp` compare them, and ordered sets and maps of texts.
use Prim.Native.Nat.{ℕ}
use mathlib.Core.Path.{◌≡◌, refl}
use mathlib.Core.Logic.{◌↔◌}
use mathlib.Core.Bool.{Bool, true, false, ◌&&◌, ◌||◌}
use mathlib.Core.List.{List, [], ◌∷◌}
use mathlib.Core.Option.{Option, none, some}
use native.Mathlib.Omega.{arith}
use frag_find.Common.Tests.{ltb, ◌==◌, if◌then◌else◌}

unfoldable pub text_eq : List ℕ → List ℕ → Bool
text_eq [] [] = true
text_eq (x ∷ xs) (y ∷ ys) = x == y && text_eq xs ys
text_eq _ _ = false

unfoldable pub text_less : List ℕ → List ℕ → Bool
text_less [] [] = false
text_less [] (y ∷ ys) = true
text_less (x ∷ xs) [] = false
text_less (x ∷ xs) (y ∷ ys) = ltb x y || (x == y && text_less xs ys)

pub text_eq_iff : (a b : List ℕ) → (text_eq a b ≡ true) ↔ (a ≡ b)
unfolding text_eq
text_eq_iff [] [] = ground arith
text_eq_iff [] (y ∷ ys) = ground arith
text_eq_iff (x ∷ xs) [] = ground arith
text_eq_iff (x ∷ xs) (y ∷ ys) = ground (arith, text_eq_iff xs ys)

pub text_eq_refl : (a : List ℕ) → text_eq a a ≡ true
text_eq_refl a = (text_eq_iff a a).1 refl

pub text_less_total :
    (a b : List ℕ) → text_less a b ≡ false → text_less b a ≡ false → text_eq a b ≡ true
unfolding text_less text_eq
text_less_total [] [] p q = refl
text_less_total [] (y ∷ ys) p q = cc
text_less_total (x ∷ xs) [] p q = cc
text_less_total (x ∷ xs) (y ∷ ys) p q = ground (arith, text_less_total xs ys)

pub text_less_irrefl : (a : List ℕ) → text_less a a ≡ false
unfolding text_less
text_less_irrefl [] = refl
text_less_irrefl (x ∷ xs) = ground (arith, text_less_irrefl xs)

-- `std::set<std::string>`, in order.
unfoldable pub insert_text : List ℕ → List (List ℕ) → List (List ℕ)
insert_text t [] = t ∷ []
insert_text t (u ∷ us) =
    if text_less t u then t ∷ u ∷ us else (if text_less u t then u ∷ insert_text t us else u ∷ us)

unfoldable pub has_text : List ℕ → List (List ℕ) → Bool
has_text t [] = false
has_text t (u ∷ us) = text_eq t u || has_text t us

pub has_text-insert_text :
    (u t : List ℕ) (us : List (List ℕ))
    → has_text u (insert_text t us) ≡ (text_eq u t || has_text u us)
unfolding has_text insert_text
has_text-insert_text u t [] = refl
has_text-insert_text u t (v ∷ vs) = ground (
  arith,
  has_text-insert_text u t vs,
  text_less_total t v,
  text_eq_iff t v,
  text_eq_iff u v,
  text_eq_iff u t,
)

-- `std::map<std::string,V>`: a key that is there keeps its place.
module _ {ℓ} {V : Type ℓ} where
  unfoldable pub put : List ℕ → V → List (List ℕ × V) → List (List ℕ × V)
  put k v [] = (k, v) ∷ []
  put k v ((j, w) ∷ m) =
      if text_less k j
      then (k, v) ∷ (j, w) ∷ m
      else (if text_less j k then (j, w) ∷ put k v m else (j, v) ∷ m)

  unfoldable pub find : List ℕ → List (List ℕ × V) → Option V
  find k [] = none
  find k ((j, w) ∷ m) = if text_eq k j then some w else find k m

  pub find-put_self : (k : List ℕ) (v : V) (m : List (List ℕ × V)) → find k (put k v m) ≡ some v
  unfolding find put
  find-put_self k v [] = ground (arith, text_eq_refl k)
  find-put_self k v ((j, w) ∷ m) = ground (
    arith,
    find-put_self k v m,
    text_eq_refl k,
    text_less_total k j,
    text_eq_iff k j,
    text_less_irrefl k,
  )

  pub find-put_ne :
      (k j : List ℕ) (v : V) (m : List (List ℕ × V))
      → text_eq k j ≡ false
      → find k (put j v m) ≡ find k m
  unfolding find put
  find-put_ne k j v [] other = rw other refl
  find-put_ne k j v ((i, w) ∷ m) other = ground (
    arith,
    find-put_ne k j v m other,
    text_less_total j i,
    text_eq_iff j i,
    text_eq_iff k j,
    text_eq_iff k i,
  )
