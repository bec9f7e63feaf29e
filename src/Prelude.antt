-- ===== src/Prelude.antt =====
-- The names that the modules share: the libraries', passed on, and Boolean tests on numbers.
use Prim.Native.Nat.{compare, Ordering}
pub use Prim.Native.Nat.{ℕ, zero, suc, ◌+◌, ◌-◌, ◌≤◌, ◌<◌, min, max}
pub use Prim.Native.String.{String}
pub use mathlib.Core.Path.{◌≡◌, refl, sym, ap, ap₂, subst, ◌∙◌}
pub use mathlib.Core.Logic.{◌≢◌, ◌↔◌, ◌⊎◌, inl, inr}
pub use mathlib.Core.Bool.{Bool, true, false, not, ◌&&◌, ◌||◌}
pub use mathlib.Core.Option.{Option, none, some}
pub use mathlib.Core.List.{List, [], ◌∷◌, ◌++◌, map}
pub use native.Mathlib.Omega.{arith}
pub use text.Mathlib.Text.{◌==◌ as str_eq}
pub use text.Mathlib.TextEquality.{eq_iff}

-- These compute to `compare`, which the arithmetic tactics read.
abbrev pub ltb : ℕ → ℕ → Bool
ltb a b = elim (compare a b) [ Ordering.lt ↦ true | _ ↦ false ]

abbrev pub leb : ℕ → ℕ → Bool
leb a b = elim (compare a b) [ Ordering.gt ↦ false | _ ↦ true ]

infix 50 ◌==◌
abbrev pub ◌==◌ : ℕ → ℕ → Bool
a == b = elim (compare a b) [ Ordering.eq ↦ true | _ ↦ false ]

infix 1 if◌then◌else◌
abbrev pub if◌then◌else◌ {ℓ} : {A : Type ℓ} → Bool → A → A → A
if true then x else y = x
if false then x else y = y

-- To split on a computed value and keep the equation.
pub Bool-cases : (b : Bool) → (b ≡ true) ⊎ (b ≡ false)
Bool-cases true = inl refl
Bool-cases false = inr refl

abbrev pub length {ℓ} : {A : Type ℓ} → List A → ℕ
length [] = 0
length (x ∷ xs) = suc (length xs)

module _ {ℓ} {A : Type ℓ} where
  abbrev pub get_elem? : List A → ℕ → Option A
  get_elem? [] i = none
  get_elem? (x ∷ xs) zero = some x
  get_elem? (x ∷ xs) (suc i) = get_elem? xs i

  -- A write out of bounds changes nothing.
  abbrev pub set : List A → ℕ → A → List A
  set [] i v = []
  set (x ∷ xs) zero v = v ∷ xs
  set (x ∷ xs) (suc i) v = x ∷ set xs i v

  -- xs[index: index+1] = new
  abbrev pub splice : List A → ℕ → List A → List A
  splice [] i new = []
  splice (x ∷ xs) zero new = new ++ xs
  splice (x ∷ xs) (suc i) new = x ∷ splice xs i new

  -- xs.pop(index)
  abbrev pub pop : List A → ℕ → List A
  pop xs i = splice xs i []

  -- xs.insert(index, new)
  abbrev pub insert_at : List A → ℕ → A → List A
  insert_at xs zero new = new ∷ xs
  insert_at [] (suc i) new = new ∷ []
  insert_at (x ∷ xs) (suc i) new = x ∷ insert_at xs i new

  pub List-cases : (xs : List A) → (xs ≡ []) ⊎ ((y : A) × (ys : List A) × (xs ≡ y ∷ ys))
  List-cases [] = inl refl
  List-cases (x ∷ xs) = inr (x, xs, refl)

pub Option-cases {ℓ} : {A : Type ℓ} (o : Option A) → (o ≡ none) ⊎ ((a : A) × (o ≡ some a))
Option-cases none = inl refl
Option-cases (some a) = inr (a, refl)

-- Which branch an equation is about, when its test is known.
module _ {ℓ} {A : Type ℓ} where
  pub taken_if :
      (p : Bool) (a b : A) (other : Option A)
      → p ≡ true
      → (if p then some a else other) ≡ some b
      → a ≡ b
  taken_if true a b other e h = cc
  taken_if false a b other e h = cc

  pub other_if : (p : Bool) (a b c : A) → p ≡ false → (if p then a else b) ≡ c → b ≡ c
  other_if true a b c e h = cc
  other_if false a b c e h = h

pub not_and : (p q : Bool) → (not p && q) ≡ true → (p ≡ false) × (q ≡ true)
not_and p q h = ground arith
