-- ===== src/Common/Outcome.antt =====
-- The outcome of C code: a normal return, an `exit`, or undefined behaviour.
use Prim.Native.Nat.{ℕ, ◌<◌}
use mathlib.Core.Path.{◌≡◌, refl, ap, ◌∙◌}
use mathlib.Core.List.{List}
use mathlib.Core.Option.{none, some}
use frag_find.Common.Lists.{length, get_elem?, get_or, get_elem?-eq-get_or}

-- What makes a run undefined, or ends it by a trap.
pub data Fault : Type 0 where
  out_of_bounds bad_shift null_pointer overflow assertion division_by_zero : Fault
  dangling_pointer uncaught_exception : Fault

pub data Run {ℓ} (A : Type ℓ) : Type ℓ where
  done : A → Run A
  fault : Fault → Run A
  exited : ℕ → Run A

infixl 5 ◌>>=◌
-- The rest of a function runs only after a normal return.
abbrev pub ◌>>=◌ {κ ℓ} : {B : Type κ} {A : Type ℓ} → Run B → (B → Run A) → Run A
done a >>= rest = rest a
fault e >>= rest = fault e
exited n >>= rest = exited n

-- A read of an array at an index.
abbrev pub read {ℓ} : {A : Type ℓ} → List A → ℕ → Run A
read xs i = elim (get_elem? xs i) [ none ↦ fault out_of_bounds | some x ↦ done x ]

-- A run returns, and its value has a property.
abbrev pub Returns {κ ℓ} : {B : Type κ} → Run B → (B → Type ℓ) → Type (κ ⊔ ℓ)
Returns {B} run Good = (b : B) × (run ≡ done b) × Good b

pub read-done {ℓ} :
    {A : Type ℓ} (xs : List A) (i : ℕ) (d : A) → i < length xs → read xs i ≡ done (get_or xs i d)
read-done xs i d h = rw (get_elem?-eq-get_or xs i d h, read)

-- A run whose first part returns goes on with its value.
pub bind-done {ℓ κ} :
    {A : Type ℓ} {B : Type κ} {m : Run A} {a : A} {r : Run B} (f : A → Run B)
    → m ≡ done a
    → f a ≡ r
    → (m >>= f) ≡ r
bind-done f e h = ap (λ t. t >>= f) e ∙ h

-- Two steps after a run are one.
pub bind_assoc {ℓ κ ν} :
    {A : Type ℓ} {B : Type κ} {C : Type ν} (m : Run A) (f : A → Run B) (g : B → Run C)
    → (m >>= f >>= g) ≡ (m >>= λ a. f a >>= g)
bind_assoc (done a) f g = refl
bind_assoc (fault e) f g = refl
bind_assoc (exited n) f g = refl
