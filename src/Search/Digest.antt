-- ===== src/Search/Digest.antt =====
-- `md5_t` of src/md5.h as a key: `operator<` and `operator==` on digests.
use frag_find.Common.{
  ℕ, ◌≡◌, refl, Bool, true, false, not, ◌&&◌, ◌||◌, List, [], ◌∷◌, ltb, ◌==◌, if◌then◌else◌, length,
  arith, ◌↔◌,
}

-- `memcmp(a, b, n) < 0` and `memcmp(a, b, n) == 0`, on byte lists of one length.
unfoldable pub memcmp_lt : List ℕ → List ℕ → Bool
memcmp_lt (x ∷ xs) (y ∷ ys) = ltb x y || (x == y && memcmp_lt xs ys)
memcmp_lt _ _ = false

unfoldable pub memcmp_eq : List ℕ → List ℕ → Bool
memcmp_eq [] [] = true
memcmp_eq (x ∷ xs) (y ∷ ys) = x == y && memcmp_eq xs ys
memcmp_eq _ _ = false

-- `operator<`: the first byte is looked at before `memcmp`.
unfoldable pub less : List ℕ → List ℕ → Bool
unfolding memcmp_lt
less (x ∷ xs) (y ∷ ys) =
    if ltb x y then true else (if ltb y x then false else memcmp_lt (x ∷ xs) (y ∷ ys))
less _ _ = false

unfoldable pub equal : List ℕ → List ℕ → Bool
unfolding memcmp_eq
equal (x ∷ xs) (y ∷ ys) = if not (x == y) then false else memcmp_eq (x ∷ xs) (y ∷ ys)
equal [] [] = true
equal _ _ = false

-- Two keys are one for `std::map` when neither is less than the other.
unfoldable pub equivalent : List ℕ → List ℕ → Bool
unfolding less
equivalent a b = not (less a b) && not (less b a)

memcmp_lt_irrefl : (a : List ℕ) → memcmp_lt a a ≡ false
unfolding memcmp_lt
memcmp_lt_irrefl [] = refl
memcmp_lt_irrefl (x ∷ xs) = ground (arith, memcmp_lt_irrefl xs)

memcmp_lt-total :
    (a b : List ℕ) → length a ≡ length b → memcmp_lt a b ≡ false → memcmp_lt b a ≡ false → a ≡ b
unfolding memcmp_lt
memcmp_lt-total [] [] l p q = refl
memcmp_lt-total [] (y ∷ ys) l p q = absurd (omega arith)
memcmp_lt-total (x ∷ xs) [] l p q = absurd (omega arith)
memcmp_lt-total (x ∷ xs) (y ∷ ys) l p q = ground (arith, memcmp_lt-total xs ys)

-- The order of digests, with its shortcut on the first byte, is the order of memcmp.
pub less-memcmp_lt : (a b : List ℕ) → less a b ≡ memcmp_lt a b
unfolding less memcmp_lt
less-memcmp_lt [] b = refl
less-memcmp_lt (x ∷ xs) [] = refl
less-memcmp_lt (x ∷ xs) (y ∷ ys) = ground arith

-- Two digests of one length are the same key of a map, neither being less than the other, exactly
-- when they are equal.
pub equivalent_iff : (a b : List ℕ) → length a ≡ length b → (equivalent a b ≡ true) ↔ (a ≡ b)
unfolding equivalent
equivalent_iff a b l = (
  (λ h.
      memcmp_lt-total a b l (ground (arith, less-memcmp_lt a b))
        (ground (arith, less-memcmp_lt b a))),
  (λ e. rw (e, less-memcmp_lt b b, memcmp_lt_irrefl b) refl),
)

memcmp_eq_iff : (a b : List ℕ) → (memcmp_eq a b ≡ true) ↔ (a ≡ b)
unfolding memcmp_eq
memcmp_eq_iff [] [] = ground arith
memcmp_eq_iff [] (y ∷ ys) = ground arith
memcmp_eq_iff (x ∷ xs) [] = ground arith
memcmp_eq_iff (x ∷ xs) (y ∷ ys) = ground (arith, memcmp_eq_iff xs ys)

-- The comparison of digests, with its shortcut on the first byte, is equality of their bytes.
pub equal_iff : (a b : List ℕ) → (equal a b ≡ true) ↔ (a ≡ b)
unfolding equal
equal_iff [] [] = ground arith
equal_iff [] (y ∷ ys) = ground arith
equal_iff (x ∷ xs) [] = ground arith
equal_iff (x ∷ xs) (y ∷ ys) = ground (arith, memcmp_eq_iff (x ∷ xs) (y ∷ ys))
