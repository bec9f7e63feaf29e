-- ===== src/TagRanges/Walk.antt =====
-- `range_difference` of kytos/core/tag_ranges.py for an ordered second list: a walk along both.
use kytos.Prelude.{
  ℕ, ◌+◌, ◌≤◌, ◌<◌, ◌≡◌, ◌⊎◌, refl, sym, true, false, List, [], ◌∷◌, arith, ltb, Bool-cases, inl,
  inr, ◌∙◌, ap,
}
use kytos.TagRanges.{range_difference, difference_loop, next_range, keep_left}
use kytos.TagRanges.Meaning.{Range, From}

-- The difference of ordered lists, without a look back: what is left of a range is the head of the
-- list from then on.
unfoldable pub difference_walk : List Range → List Range → List Range
difference_walk [] bs = []
difference_walk (a ∷ as') [] = a ∷ as'
difference_walk (a ∷ as') (b ∷ bs) = elim (ltb a.hi b.lo) [
  | true ↦ a ∷ difference_walk as' (b ∷ bs)
  | false ↦ elim (ltb b.hi a.lo) [
    | true ↦ difference_walk (a ∷ as') bs
    | false ↦ elim (ltb b.hi a.hi) [
      | true ↦ keep_left a b (difference_walk (record { lo = b.hi + 1; hi = a.hi } ∷ as') bs)
      | false ↦ keep_left a b (difference_walk as' (b ∷ bs))
    ]
  ]
]

reread :
    (n : ℕ) (head a b : Range) (as' bs : List Range)
    → From n (b ∷ bs)
    → (head.lo ≤ n) ⊎ (head ≡ a)
    → b.hi < head.lo
    → difference_loop a (a ∷ as') bs ≡ difference_walk (a ∷ as') bs
    → difference_loop a (a ∷ as') bs ≡ difference_walk (head ∷ as') bs
reread n head a b as' bs v (inl k) l again = absurd (omega (arith, k, l, v.0, v.1))
reread n head a b as' bs v (inr same) l again =
    again ∙ ap (λ r. difference_walk (r ∷ as') bs) (sym same)

-- A round, given what the two recursive calls compute.
round :
    (n : ℕ) (head a b : Range) (as' bs : List Range)
    → From n (b ∷ bs)
    → (head.lo ≤ n) ⊎ (head ≡ a)
    → difference_loop (next_range a as') as' (b ∷ bs) ≡ difference_walk as' (b ∷ bs)
    → ((other : Range)
        → (other.lo ≤ b.hi + 2) ⊎ (other ≡ a)
        → difference_loop other (a ∷ as') bs ≡ difference_walk (other ∷ as') bs)
    → difference_loop head (a ∷ as') (b ∷ bs) ≡ difference_walk (head ∷ as') (b ∷ bs)
unfolding difference_loop difference_walk
round n head a b as' bs v h later again = elim (Bool-cases (ltb head.hi b.lo)) [
  | inl e ↦ rw (e, difference_loop, difference_walk) (ap (λ l. head ∷ l) later)
  | inr e ↦ elim (Bool-cases (ltb b.hi head.lo)) [
    | inl f ↦
        rw (e, f, difference_loop, difference_walk)
          (reread n head a b as' bs v h (ground (arith, f)) (again a (inr refl)))
    | inr f ↦ elim (Bool-cases (ltb b.hi head.hi)) [
      | inl g ↦
          rw (e, f, g, difference_loop, difference_walk)
            (ap (keep_left head b)
              (again (record { lo = b.hi + 1; hi = head.hi }) (inl (omega arith))))
      | inr g ↦ rw (e, f, g, difference_loop, difference_walk) (ap (keep_left head b) later)
    ]
  ]
]

-- When the second list is ordered, no later range of it lies in front of what is left of a range.
loop-walk :
    (n : ℕ) (head a : Range) (as' bs : List Range)
    → From n bs
    → (head.lo ≤ n) ⊎ (head ≡ a)
    → difference_loop head (a ∷ as') bs ≡ difference_walk (head ∷ as') bs
unfolding difference_loop difference_walk
loop-walk n head a as' [] v h = refl
loop-walk n head a [] (b ∷ bs) v h =
    round n head a b [] bs v h refl (λ other k. loop-walk (b.hi + 2) other a [] bs v.2 k)
loop-walk n head a (c ∷ cs) (b ∷ bs) v h =
    round n head a b (c ∷ cs) bs v h (loop-walk n c c cs (b ∷ bs) v (inr refl))
      (λ other k. loop-walk (b.hi + 2) other a (c ∷ cs) bs v.2 k)

pub range_difference-walk :
    (n : ℕ) (as' bs : List Range) → From n bs → range_difference as' bs ≡ difference_walk as' bs
unfolding range_difference difference_walk
range_difference-walk n [] bs v = refl
range_difference-walk n (a ∷ as') [] v = refl
range_difference-walk n (a ∷ as') (b ∷ bs) v = loop-walk n a a as' (b ∷ bs) v (inr refl)
