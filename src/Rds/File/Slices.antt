-- ===== src/Rds/File/Slices.antt =====
-- Slices of lists, and what the scanning of a slice finds.
use frag_find.Common.{
  ℕ, zero, suc, ◌+◌, ◌-◌, ◌<◌, ◌≤◌, ◌≡◌, refl, ap, true, false, List, [], ◌∷◌, ◌++◌, All, length,
  get_or, take, drop, arith,
}
use frag_find.Rds.File.{is_end, has_end, line_of, ends_of_line}

pub take-take_within : (m n : ℕ) (xs : List ℕ) → m ≤ n → take m (take n xs) ≡ take m xs
take-take_within zero n xs h = refl
take-take_within (suc m) zero xs h = absurd (omega arith)
take-take_within (suc m) (suc n) [] h = refl
take-take_within (suc m) (suc n) (x ∷ xs) h =
    ap (λ (l : List ℕ). x ∷ l) (take-take_within m n xs (omega arith))

pub drop-take : (k n : ℕ) (xs : List ℕ) → k ≤ n → drop k (take n xs) ≡ take (n - k) (drop k xs)
drop-take zero n xs h = let z : n - 0 ≡ n = omega arith in rw z refl
drop-take (suc k) zero xs h = absurd (omega arith)
drop-take (suc k) (suc n) [] h = nothing (suc n - suc k)
  where
    nothing : (j : ℕ) → [] ≡ take {A = ℕ} j []
    nothing zero = refl
    nothing (suc j) = refl
drop-take (suc k) (suc n) (x ∷ xs) h =
    let z : suc n - suc k ≡ n - k = omega arith in rw z (drop-take k n xs (omega arith))

pub get_or-take : (i n : ℕ) (xs : List ℕ) → i < n → get_or (take n xs) i 0 ≡ get_or xs i 0
get_or-take i zero xs h = absurd (omega arith)
get_or-take i (suc n) [] h = refl
get_or-take zero (suc n) (x ∷ xs) h = refl
get_or-take (suc i) (suc n) (x ∷ xs) h = get_or-take i n xs (omega arith)

pub get_or-drop : (n i : ℕ) (xs : List ℕ) → get_or (drop n xs) i 0 ≡ get_or xs (n + i) 0
get_or-drop zero i xs = let z : 0 + i ≡ i = omega arith in rw z refl
get_or-drop (suc n) i [] = refl
get_or-drop (suc n) i (x ∷ xs) =
    let z : suc n + i ≡ suc (n + i) = omega arith in rw z (get_or-drop n i xs)

-- A line without a line end.
abbrev pub IsLine : List ℕ → Type 0
IsLine line = All (λ c. is_end c ≡ false) line

-- A text that does not start with a line end.
abbrev pub IsFresh : List ℕ → Type 0
IsFresh [] = Unit
IsFresh (c ∷ s) = is_end c ≡ false

pub has_end-take :
    (m : ℕ) (line post : List ℕ)
    → IsLine line
    → has_end (take m (line ++ 10 ∷ post)) ≡ true
    → length line < m
unfolding has_end
has_end-take zero line post h e = cc
has_end-take (suc m) [] post h e = omega arith
has_end-take (suc m) (c ∷ line) post (n, h) e =
    omega (arith, has_end-take m line post h (rw (n, has_end) at e))

pub line_of-take :
    (m : ℕ) (line post : List ℕ)
    → IsLine line
    → length line < m
    → line_of (take m (line ++ 10 ∷ post)) ≡ line
unfolding line_of is_end
line_of-take zero line post h less = absurd (omega arith)
line_of-take (suc m) [] post h less = refl
line_of-take (suc m) (c ∷ line) post (n, h) less =
    rw (n, line_of-take m line post h (omega arith)) refl

pub ends_of_line-take :
    (j : ℕ) (post : List ℕ) → 0 < j → IsFresh post → ends_of_line (take j (10 ∷ post)) ≡ 1
unfolding ends_of_line is_end
ends_of_line-take zero post pos h = absurd (omega arith)
ends_of_line-take (suc zero) post pos h = refl
ends_of_line-take (suc (suc j)) [] pos h = refl
ends_of_line-take (suc (suc j)) (c ∷ post) pos h = rw h refl
