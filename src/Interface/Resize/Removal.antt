-- ===== src/Interface/Resize/Removal.antt =====
-- What `_remove_tags` takes out of an ordered list.
use kytos.Prelude.{
  ℕ, ◌+◌, ◌-◌, ◌≤◌, ◌≡◌, refl, subst, ap, ◌∙◌, Bool, true, false, not, ◌&&◌, Option, none, some,
  List, [], ◌∷◌, ltb, leb, ◌==◌, if◌then◌else◌, arith, Bool-cases, inl, inr,
}
use kytos.TagRanges.Meaning.{Range, From, within, covers, covers-below, From-le}
use kytos.TagRanges.Position.{find_index_remove}
use kytos.TagRanges.Position.Found.{locate, step_back, find_index_remove-locate}
use kytos.Interface.Resize.{resize, remove_tags}

-- The range that holds `x` loses it.
pieces : Range → Range → List Range → List Range
pieces r x rs =
    if x.lo == r.lo
    then (if x.hi == r.hi then rs else record { lo = x.hi + 1; hi = r.hi } ∷ rs)
    else if x.hi == r.hi
    then record { lo = r.lo; hi = x.lo - 1 } ∷ rs
    else record { lo = r.lo; hi = x.lo - 1 } ∷ record { lo = x.hi + 1; hi = r.hi } ∷ rs

abbrev keep_first : Range → Option (List Range) → Option (List Range)
keep_first r none = none
keep_first r (some left) = some (r ∷ left)

abbrev holds : Range → Range → Bool
holds r x = leb r.lo x.lo && leb x.hi r.hi

-- The removal by a walk along the list.
cut : List Range → Range → Option (List Range)
unfolding pieces
cut [] x = none
cut (r ∷ rs) x =
    let rest = keep_first r (cut rs x) in if holds r x then some (pieces r x rs) else rest

abbrev resize_at : Range → List Range → Option ℕ → Option (List Range)
resize_at x rs none = none
resize_at x rs (some i) = some (resize rs x i)

resize_at-step_back :
    (x r : Range) (rs : List Range) (o : Option ℕ)
    → resize_at x (r ∷ rs) (step_back o) ≡ keep_first r (resize_at x rs o)
unfolding resize
resize_at-step_back x r rs none = refl
resize_at-step_back x r rs (some i) = ground arith

resize_at-zero :
    (x r : Range) (rs : List Range) → resize_at x (r ∷ rs) (some 0) ≡ some (pieces r x rs)
unfolding resize pieces
resize_at-zero x r rs = ground arith

resize_at-locate : (rs : List Range) (x : Range) → resize_at x rs (locate rs x) ≡ cut rs x
unfolding locate cut
resize_at-locate [] x = refl
resize_at-locate (r ∷ rs) x = elim (Bool-cases (holds r x)) [
  | inl e ↦ rw e (resize_at-zero x r rs)
  | inr e ↦
      rw e (resize_at-step_back x r rs (locate rs x) ∙ ap (keep_first r) (resize_at-locate rs x))
]

remove_tags-cut :
    (n : ℕ) (rs : List Range) (x : Range) → From n rs → x.lo ≤ x.hi → remove_tags rs x ≡ cut rs x
unfolding remove_tags cut
remove_tags-cut n [] x v h = refl
remove_tags-cut n (r ∷ rs) x v h =
    go (find_index_remove (r ∷ rs) x)
    ∙ ap (resize_at x (r ∷ rs)) (find_index_remove-locate n (r ∷ rs) x v h)
    ∙ resize_at-locate (r ∷ rs) x
  where
    go :
        (o : Option ℕ)
        → elim o as (λ _. Option (List Range)) [
          | none ↦ none
          | some index ↦ some (resize (r ∷ rs) x index)
        ]
          ≡ resize_at x (r ∷ rs) o
    go none = refl
    go (some i) = refl

-- What a removal that is refused, and one that is done, say of a tag.
abbrev IsCut : ℕ → ℕ → List Range → Range → Option (List Range) → Type 0
IsCut n t rs x none = (u : ℕ) × (within x u ≡ true) × (covers rs u ≡ false)
IsCut n t rs x (some left) =
    From n left
    × (covers left t ≡ (covers rs t && not (within x t)))
    × (within x t ≡ true → covers rs t ≡ true)

pieces-IsCut :
    (n t : ℕ) (r x : Range) (rs : List Range)
    → From n (r ∷ rs)
    → x.lo ≤ x.hi
    → holds r x ≡ true
    → IsCut n t (r ∷ rs) x (some (pieces r x rs))
unfolding pieces
pieces-IsCut n t r x rs v h e =
    let apart = covers-below (r.hi + 2) t rs v.2 in
    elim (Bool-cases (x.lo == r.lo)) [
      | inl p ↦ elim (Bool-cases (x.hi == r.hi)) [
        | inl q ↦
            rw (p, q)
              (From-le n (r.hi + 2) rs (omega arith) v.2, ground (arith, apart), λ w. ground arith)
        | inr q ↦
            rw (p, q) ((ground arith, ground arith, v.2), ground (arith, apart), λ w. ground arith)
      ]
      | inr p ↦ elim (Bool-cases (x.hi == r.hi)) [
        | inl q ↦
            rw (p, q)
              (
                (v.0, ground arith, From-le _ (r.hi + 2) rs (ground arith) v.2),
                ground (arith, apart),
                λ w. ground arith,
              )
        | inr q ↦
            rw (p, q)
              (
                (v.0, ground arith, (ground arith, ground arith, v.2)),
                ground (arith, apart),
                λ w. ground arith,
              )
      ]
    ]

keep_first-IsCut :
    (n t : ℕ) (r x : Range) (rs : List Range) (o : Option (List Range))
    → From n (r ∷ rs)
    → x.lo ≤ x.hi
    → holds r x ≡ false
    → IsCut (r.hi + 2) t rs x o
    → IsCut n t (r ∷ rs) x (keep_first r o)
keep_first-IsCut n t r x rs (some left) v h e c = (
  (v.0, v.1, c.0),
  ground (arith, c.1, c.2, covers-below (r.hi + 2) t rs v.2),
  λ w. ground (arith, c.2 w),
)
keep_first-IsCut n t r x rs none v h e (u, inside, missing) = elim (Bool-cases (ltb x.lo r.lo)) [
  | inl p ↦ (x.lo, ground arith, ground (arith, covers-below (r.hi + 2) x.lo rs v.2))
  | inr p ↦ elim (Bool-cases (leb x.lo r.hi)) [
    | inl q ↦ (r.hi + 1, ground arith, ground (arith, covers-below (r.hi + 2) (r.hi + 1) rs v.2))
    | inr q ↦ (u, inside, ground arith)
  ]
]

cut-IsCut :
    (n t : ℕ) (rs : List Range) (x : Range) → From n rs → x.lo ≤ x.hi → IsCut n t rs x (cut rs x)
unfolding cut
cut-IsCut n t [] x v h = (x.lo, ground arith, refl)
cut-IsCut n t (r ∷ rs) x v h = elim (Bool-cases (holds r x)) [
  | inl e ↦ rw e (pieces-IsCut n t r x rs v h e)
  | inr e ↦ rw e (keep_first-IsCut n t r x rs (cut rs x) v h e (cut-IsCut (r.hi + 2) t rs x v.2 h))
]

pub remove_tags-IsCut :
    (n t : ℕ) (rs : List Range) (x : Range)
    → From n rs
    → x.lo ≤ x.hi
    → IsCut n t rs x (remove_tags rs x)
remove_tags-IsCut n t rs x v h = rw (remove_tags-cut n rs x v h) (cut-IsCut n t rs x v h)

-- From an ordered list, of a range that is not empty: a removal that is done leaves an ordered list with exactly the other tags, and every tag that
-- it took was there.
pub remove_tags-some :
    (n t : ℕ) (rs : List Range) (x : Range) {left : List Range}
    → From n rs
    → x.lo ≤ x.hi
    → remove_tags rs x ≡ some left
    → From n left
      × (covers left t ≡ (covers rs t && not (within x t)))
      × (within x t ≡ true → covers rs t ≡ true)
remove_tags-some n t rs x v h e = subst (IsCut n t rs x) e (remove_tags-IsCut n t rs x v h)

-- From an ordered list, a removal of a range that is not empty is refused only if one of the tags
-- is not there.
pub remove_tags-none :
    (n : ℕ) (rs : List Range) (x : Range)
    → From n rs
    → x.lo ≤ x.hi
    → remove_tags rs x ≡ none
    → (u : ℕ) × (within x u ≡ true) × (covers rs u ≡ false)
remove_tags-none n rs x v h e = subst (IsCut n 0 rs x) e (remove_tags-IsCut n 0 rs x v h)
