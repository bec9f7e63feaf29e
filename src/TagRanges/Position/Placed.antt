-- ===== src/TagRanges/Position/Placed.antt =====
-- What the search for a place finds in an ordered list.
use kytos.Prelude.{
  ℕ, zero, suc, ◌+◌, ◌-◌, ◌≤◌, ◌≡◌, refl, ◌∙◌, true, false, ◌&&◌, ◌||◌, Option, none, some, List,
  [], ◌∷◌, ltb, ◌==◌, if◌then◌else◌, length, arith, Bool-cases, inl, inr, max,
}
use kytos.TagRanges.Meaning.{Range, From, within, covers}
use kytos.TagRanges.Position.{lt_range, bisect_left, starts_after, ends_before, find_index_add}
use kytos.TagRanges.Position.Found.{step_back, bisect_left-le}

-- The index in front of which `x` goes, by a walk along the list.
unfoldable pub place : List Range → Range → Option ℕ
place [] x = some 0
place (r ∷ rs) x =
    let rest = step_back (place rs x) in
    if ltb x.hi r.lo then some 0 else if ltb r.hi x.lo then rest else none

look_add : List Range → Range → ℕ → Option ℕ
look_add rs x zero = if (0 == length rs) || ends_before rs x 0 then some 0 else none
look_add rs x (suc i) =
    if starts_after rs x i && ((suc i == length rs) || ends_before rs x (suc i))
    then some (suc i)
    else none

find_index_add-look :
    (rs : List Range) (x : Range) → find_index_add rs x ≡ look_add rs x (bisect_left rs x)
unfolding find_index_add look_add
find_index_add-look rs x = go (bisect_left rs x)
  where
    go :
        (i : ℕ)
        → (if ((i == 0) || starts_after rs x (i - 1)) && ((i == length rs) || ends_before rs x i)
            then some i
            else none)
          ≡ look_add rs x i
    go zero = refl
    go (suc i) = ground arith

module _ (n : ℕ) (r : Range) (rs : List Range) (x : Range) (v : From n (r ∷ rs))
    (h : x.lo ≤ x.hi) where
  look_add-suc :
      (i : ℕ)
      → lt_range r x ≡ true
      → bisect_left rs x ≡ i
      → look_add rs x i ≡ place rs x
      → look_add (r ∷ rs) x (suc i) ≡ place (r ∷ rs) x
  unfolding look_add place
  look_add-suc zero lt e ih = ground (arith, ih)
  look_add-suc (suc i) lt e ih = ground (arith, ih, bisect_left-le (r.hi + 2) rs x i v.2 e)

  look_add-zero : lt_range r x ≡ false → look_add (r ∷ rs) x 0 ≡ place (r ∷ rs) x
  unfolding look_add place
  look_add-zero e = ground arith

look_add-place :
    (n : ℕ) (rs : List Range) (x : Range)
    → From n rs
    → x.lo ≤ x.hi
    → look_add rs x (bisect_left rs x) ≡ place rs x
unfolding bisect_left
look_add-place n [] x v h = unfold look_add place in refl
look_add-place n (r ∷ rs) x v h = elim (Bool-cases (lt_range r x)) [
  | inl e ↦
      rw (e, bisect_left)
        (look_add-suc n r rs x v h (bisect_left rs x) e refl (look_add-place (r.hi + 2) rs x v.2 h))
  | inr e ↦ rw (e, bisect_left) (look_add-zero n r rs x v h e)
]

-- In an ordered list the search for a place finds the one that a walk along the list finds.
pub find_index_add-place :
    (n : ℕ) (rs : List Range) (x : Range)
    → From n rs
    → x.lo ≤ x.hi
    → find_index_add rs x ≡ place rs x
find_index_add-place n rs x v h = find_index_add-look rs x ∙ look_add-place n rs x v h

-- There is no place for `x` only if one of its tags is there.
pub place-none :
    (rs : List Range) (x : Range) (n : ℕ)
    → From n rs
    → x.lo ≤ x.hi
    → place rs x ≡ none
    → (u : ℕ) × (within x u ≡ true) × (covers rs u ≡ true)
unfolding place
place-none [] x n v h e = cc
place-none (r ∷ rs) x n v h e = elim (Bool-cases (ltb r.hi x.lo)) [
  | inl p ↦
      let (u, inside, there) = place-none rs x (r.hi + 2) v.2 h (ground arith) in
      (u, inside, ground arith)
  | inr p ↦ (max x.lo r.lo, ground arith, ground arith)
]
