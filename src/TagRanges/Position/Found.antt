-- ===== src/TagRanges/Position/Found.antt =====
-- What the two searches find in an ordered list.
use kytos.Prelude.{
  ℕ, zero, suc, ◌+◌, ◌-◌, ◌≤◌, ◌<◌, ◌≡◌, refl, ◌∙◌, Bool, true, false, ◌&&◌, Option, none, some,
  List, [], ◌∷◌, ltb, leb, if◌then◌else◌, length, arith, Bool-cases, inl, inr,
}
use kytos.TagRanges.Meaning.{Range, From, covers}
use kytos.TagRanges.Position.{lt_range, bisect_left, fits_at, find_index_remove}

-- The index of the range that holds `x`, by a walk along the list.
abbrev pub step_back : Option ℕ → Option ℕ
step_back none = none
step_back (some i) = some (suc i)

unfoldable pub locate : List Range → Range → Option ℕ
locate [] x = none
locate (r ∷ rs) x =
    let rest = step_back (locate rs x) in if leb r.lo x.lo && leb x.hi r.hi then some 0 else rest

locate-below : (n : ℕ) (rs : List Range) (x : Range) → From n rs → x.lo < n → locate rs x ≡ none
unfolding locate
locate-below n [] x v h = refl
locate-below n (r ∷ rs) x v h = ground (arith, locate-below (r.hi + 2) rs x v.2 (omega arith))

locate-le :
    (n : ℕ) (rs : List Range) (x : Range) (i : ℕ) → From n rs → locate rs x ≡ some i → n ≤ x.lo
locate-le n rs x i v e = ground (arith, locate-below n rs x v)

pub bisect_left-le :
    (n : ℕ) (rs : List Range) (x : Range) (i : ℕ) → From n rs → bisect_left rs x ≡ suc i → n ≤ x.lo
unfolding bisect_left
bisect_left-le n [] x i v e = absurd (omega (arith, e))
bisect_left-le n (r ∷ rs) x i v e = ground arith

fits_at-lt : (rs : List Range) (x : Range) (i : ℕ) → fits_at rs x i ≡ true → i < length rs
fits_at-lt [] x i e = cc
fits_at-lt (r ∷ rs) x zero e = omega arith
fits_at-lt (r ∷ rs) x (suc i) e = omega (arith, fits_at-lt rs x i e)

-- The range at the index, or else the one in front of it.
look_back : List Range → Range → ℕ → Option ℕ
look_back rs x zero = none
look_back rs x (suc i) = if fits_at rs x i then some i else none

look : List Range → Range → ℕ → Option ℕ
unfolding look_back
look rs x i = if fits_at rs x i then some i else look_back rs x i

find_index_remove-look :
    (rs : List Range) (x : Range) → find_index_remove rs x ≡ look rs x (bisect_left rs x)
unfolding find_index_remove look
find_index_remove-look rs x = go (bisect_left rs x)
  where
    go :
        (i : ℕ)
        → (if ltb i (length rs) && fits_at rs x i
            then some i
            else if ltb 0 i && fits_at rs x (i - 1)
            then some (i - 1)
            else none)
          ≡ look rs x i
    go zero = ground (arith, fits_at-lt rs x zero)
    go (suc i) = ground (arith, fits_at-lt rs x (suc i))

module _ (n : ℕ) (r : Range) (rs : List Range) (x : Range) (v : From n (r ∷ rs))
    (h : x.lo ≤ x.hi) where
  look-suc :
      (i : ℕ)
      → bisect_left rs x ≡ i
      → look rs x i ≡ locate rs x
      → look (r ∷ rs) x (suc i) ≡ locate (r ∷ rs) x
  unfolding look locate
  look-suc zero e ih = ground (arith, ih, locate-le (r.hi + 2) rs x 0 v.2)
  look-suc (suc i) e ih = ground (arith, ih, bisect_left-le (r.hi + 2) rs x i v.2 e)

  look-zero : lt_range r x ≡ false → look (r ∷ rs) x 0 ≡ locate (r ∷ rs) x
  unfolding look locate
  look-zero e = ground (arith, locate-below (r.hi + 2) rs x v.2)

look-locate :
    (n : ℕ) (rs : List Range) (x : Range)
    → From n rs
    → x.lo ≤ x.hi
    → look rs x (bisect_left rs x) ≡ locate rs x
unfolding bisect_left
look-locate n [] x v h = unfold look locate in refl
look-locate n (r ∷ rs) x v h = elim (Bool-cases (lt_range r x)) [
  | inl e ↦
      rw (e, bisect_left)
        (look-suc n r rs x v h (bisect_left rs x) refl (look-locate (r.hi + 2) rs x v.2 h))
  | inr e ↦ rw (e, bisect_left) (look-zero n r rs x v h e)
]

-- In an ordered list the search for a range that can be taken finds the range that holds it.
pub find_index_remove-locate :
    (n : ℕ) (rs : List Range) (x : Range)
    → From n rs
    → x.lo ≤ x.hi
    → find_index_remove rs x ≡ locate rs x
find_index_remove-locate n rs x v h = find_index_remove-look rs x ∙ look-locate n rs x v h

-- A tag alone is found exactly if it is in the list.
abbrev pub is_some {ℓ} : {A : Type ℓ} → Option A → Bool
is_some none = false
is_some (some a) = true

pub locate-covers :
    (n t : ℕ) (rs : List Range)
    → From n rs
    → is_some (locate rs (record { lo = t; hi = t })) ≡ covers rs t
unfolding locate
locate-covers n t [] v = refl
locate-covers n t (r ∷ rs) v = ground (arith, locate-covers (r.hi + 2) t rs v.2)
