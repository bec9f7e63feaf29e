-- ===== src/TagRanges/Intersection.antt =====
-- `range_intersection` against the sets that the ranges stand for.
use kytos.Prelude.{
  ℕ, ◌+◌, ◌≡◌, refl, Bool, true, false, ◌&&◌, ◌||◌, List, [], ◌∷◌, arith, ltb, Bool-cases, inl, inr,
  ◌∙◌, ap₂, sym, max,
}
use kytos.TagRanges.{range_intersection}
use kytos.TagRanges.Meaning.{Range, within, covers, From, within_meet, apart, From-le}

and_false : (b : Bool) → (b && false) ≡ false
and_false true = refl
and_false false = refl

skip_left : (p q r : Bool) → (p ≡ true → r ≡ false) → (q && r) ≡ ((p || q) && r)
skip_left p q r h = ground arith

skip_right : (p q r : Bool) → (q ≡ true → p ≡ false) → (p && r) ≡ (p && (q || r))
skip_right p q r h = ground arith

meet_left :
    (p q r s : Bool)
    → (p ≡ true → s ≡ false)
    → ((p && r) || (q && (r || s))) ≡ ((p || q) && (r || s))
meet_left p q r s h = ground arith

meet_right :
    (p q r s : Bool)
    → (r ≡ true → q ≡ false)
    → ((p && r) || ((p || q) && s)) ≡ ((p || q) && (r || s))
meet_right p q r s h = ground arith

covers-range_intersection :
    (m n t : ℕ) (as' bs : List Range)
    → From m as'
    → From n bs
    → covers (range_intersection as' bs) t ≡ (covers as' t && covers bs t)
unfolding range_intersection
covers-range_intersection m n t [] bs va vb = refl
covers-range_intersection m n t (a ∷ as') [] va vb = sym (and_false (covers (a ∷ as') t))
covers-range_intersection m n t (a ∷ as') (b ∷ bs) va vb = elim (Bool-cases (ltb a.hi b.lo)) [
  | inl e ↦
      rw (e, range_intersection)
        (covers-range_intersection (a.hi + 2) n t as' (b ∷ bs) va.2 vb
          ∙ skip_left (within a t) _ _
              (apart a b.lo t (b ∷ bs) (omega arith, vb.1, vb.2) (ground arith)))
  | inr e ↦ elim (Bool-cases (ltb b.hi a.lo)) [
    | inl f ↦
        rw (e, f, range_intersection)
          (covers-range_intersection m (b.hi + 2) t (a ∷ as') bs va vb.2
            ∙ skip_right _ (within b t) _
                (apart b a.lo t (a ∷ as') (omega arith, va.1, va.2) (ground arith)))
    | inr f ↦ elim (Bool-cases (ltb a.hi b.hi)) [
      | inl g ↦
          rw (e, f, g, range_intersection)
            (ap₂ ◌||◌ (within_meet a b t)
                (covers-range_intersection (a.hi + 2) n t as' (b ∷ bs) va.2 vb)
              ∙ meet_left (within a t) _ _ _ (apart a (b.hi + 2) t bs vb.2 (ground arith)))
      | inr g ↦
          rw (e, f, g, range_intersection)
            (ap₂ ◌||◌ (within_meet a b t)
                (covers-range_intersection m (b.hi + 2) t (a ∷ as') bs va vb.2)
              ∙ meet_right _ _ (within b t) _ (apart b (a.hi + 2) t as' va.2 (ground arith)))
    ]
  ]
]

From-range_intersection :
    (m n : ℕ) (as' bs : List Range)
    → From m as'
    → From n bs
    → From (max m n) (range_intersection as' bs)
unfolding range_intersection
From-range_intersection m n [] bs va vb = tt
From-range_intersection m n (a ∷ as') [] va vb = tt
From-range_intersection m n (a ∷ as') (b ∷ bs) va vb = elim (Bool-cases (ltb a.hi b.lo)) [
  | inl e ↦
      rw (e, range_intersection)
        (From-le (max m n) _ _ (omega arith)
          (From-range_intersection (a.hi + 2) n as' (b ∷ bs) va.2 vb))
  | inr e ↦ elim (Bool-cases (ltb b.hi a.lo)) [
    | inl f ↦
        rw (e, f, range_intersection)
          (From-le (max m n) _ _ (omega arith)
            (From-range_intersection m (b.hi + 2) (a ∷ as') bs va vb.2))
    | inr f ↦ elim (Bool-cases (ltb a.hi b.hi)) [
      | inl g ↦
          rw (e, f, g, range_intersection)
            (
              ground arith,
              ground arith,
              From-le _ _ _ (ground arith)
                  (From-range_intersection (a.hi + 2) n as' (b ∷ bs) va.2 vb),
            )
      | inr g ↦
          rw (e, f, g, range_intersection)
            (
              ground arith,
              ground arith,
              From-le _ _ _ (ground arith)
                  (From-range_intersection m (b.hi + 2) (a ∷ as') bs va vb.2),
            )
    ]
  ]
]

-- For two ordered lists: a tag is in the intersection exactly when it is in both, and the
-- intersection is ordered with no two ranges that could be one.
pub range_intersection_lem :
    (m n t : ℕ) (as' bs : List Range)
    → From m as'
    → From n bs
    → (covers (range_intersection as' bs) t ≡ (covers as' t && covers bs t))
      × From (max m n) (range_intersection as' bs)
range_intersection_lem m n t as' bs va vb =
    (covers-range_intersection m n t as' bs va vb, From-range_intersection m n as' bs va vb)
