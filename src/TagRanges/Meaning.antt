-- ===== src/TagRanges/Meaning.antt =====
-- What a list of ranges stands for: the set of the tags in it.
use kytos.Prelude.{
  ℕ, ◌+◌, ◌≤◌, ◌<◌, ◌≡◌, refl, Bool, false, ◌&&◌, ◌||◌, List, [], ◌∷◌, arith, leb, max, min, true,
}

-- `[lo, hi]`, both ends included.
pub record Range : Type 0 where
  pub lo : ℕ
  pub hi : ℕ

abbrev pub within : Range → ℕ → Bool
within r t = leb r.lo t && leb t r.hi

abbrev pub covers : List Range → ℕ → Bool
covers [] t = false
covers (r ∷ rs) t = within r t || covers rs t

-- Ordered, not before `n`, and no two of the ranges could be one.
abbrev pub From : ℕ → List Range → Type 0
From n [] = Unit
From n (r ∷ rs) = (n ≤ r.lo) × (r.lo ≤ r.hi) × From (r.hi + 2) rs

pub covers-below : (n t : ℕ) (rs : List Range) → From n rs → t < n → covers rs t ≡ false
covers-below n t [] v h = refl
covers-below n t (r ∷ rs) v h = ground (arith, covers-below (r.hi + 2) t rs)

pub From-le : (m n : ℕ) (rs : List Range) → m ≤ n → From n rs → From m rs
From-le m n [] h v = tt
From-le m n (r ∷ rs) h v = (omega arith, v.1, v.2)

-- A tag of a range that ends before the others begin is in none of them.
pub apart :
    (r : Range) (n t : ℕ) (rs : List Range)
    → From n rs
    → r.hi < n
    → within r t ≡ true
    → covers rs t ≡ false
apart r n t rs v h w = covers-below n t rs v (ground arith)

pub within_meet :
    (a b : Range) (t : ℕ)
    → within (record { lo = max a.lo b.lo; hi = min a.hi b.hi }) t ≡ (within a t && within b t)
within_meet a b t = ground arith
