-- ===== src/TagRanges/Difference.antt =====
-- `range_difference` against the sets that the ranges stand for.
use kytos.Prelude.{
  ℕ, ◌+◌, ◌-◌, ◌≤◌, ◌<◌, ◌≡◌, refl, subst, sym, Bool, true, false, not, ◌&&◌, ◌||◌, List, [], ◌∷◌,
  arith, ltb, Bool-cases, inl, inr, ◌∙◌, ap,
}
use kytos.TagRanges.{range_difference, keep_left}
use kytos.TagRanges.Walk.{difference_walk, range_difference-walk}
use kytos.TagRanges.Meaning.{Range, within, covers, From, covers-below, apart, From-le}

without_none : (p : Bool) → p ≡ (p && not false)
without_none true = refl
without_none false = refl

keep_whole : (p q r : Bool) → (p ≡ true → r ≡ false) → (p || (q && not r)) ≡ ((p || q) && not r)
keep_whole p q r h = ground arith

pass_over : (p r s : Bool) → (r ≡ true → p ≡ false) → (p && not s) ≡ (p && not (r || s))
pass_over p r s h = ground arith

cut_inside :
    (p q r s u w : Bool)
    → (u || w) ≡ (p && not r)
    → (u ≡ true → s ≡ false)
    → (r ≡ true → q ≡ false)
    → (u || ((w || q) && not s)) ≡ ((p || q) && not (r || s))
cut_inside p q r s u w e h k = ground arith

cut_end :
    (p q r s u : Bool)
    → u ≡ (p && not r)
    → (u ≡ true → s ≡ false)
    → (u || (q && not (r || s))) ≡ ((p || q) && not (r || s))
cut_end p q r s u e h = ground arith

-- The tags that `keep_left` keeps.
in_left : Range → Range → ℕ → Bool
in_left a b t = ltb a.lo b.lo && within (record { lo = a.lo; hi = b.lo - 1 }) t

covers-keep_left :
    (a b : Range) (rest : List Range) (t : ℕ)
    → covers (keep_left a b rest) t ≡ (in_left a b t || covers rest t)
unfolding in_left
covers-keep_left a b rest t = ground arith

left_and_right :
    (a b : Range) (t : ℕ)
    → ltb a.hi b.lo ≡ false
    → ltb b.hi a.hi ≡ true
    → a.lo ≤ b.hi
    → b.lo ≤ b.hi
    → (in_left a b t || within (record { lo = b.hi + 1; hi = a.hi }) t)
      ≡ (within a t && not (within b t))
unfolding in_left
left_and_right a b t e f h k = ground arith

left_only :
    (a b : Range) (t : ℕ)
    → ltb a.hi b.lo ≡ false
    → ltb b.hi a.hi ≡ false
    → in_left a b t ≡ (within a t && not (within b t))
unfolding in_left
left_only a b t e f = ground arith

left_apart :
    (a b : Range) (t : ℕ) (bs : List Range)
    → From (b.hi + 2) bs
    → b.lo ≤ b.hi
    → in_left a b t ≡ true
    → covers bs t ≡ false
unfolding in_left
left_apart a b t bs v k h = covers-below (b.hi + 2) t bs v (ground arith)

covers-difference_walk :
    (m n t : ℕ) (as' bs : List Range)
    → From m as'
    → From n bs
    → covers (difference_walk as' bs) t ≡ (covers as' t && not (covers bs t))
unfolding difference_walk
covers-difference_walk m n t [] bs va vb = refl
covers-difference_walk m n t (a ∷ as') [] va vb = without_none _
covers-difference_walk m n t (a ∷ as') (b ∷ bs) va vb = elim (Bool-cases (ltb a.hi b.lo)) [
  | inl e ↦
      rw (e, difference_walk)
        (ap (λ c. within a t || c) (covers-difference_walk (a.hi + 2) n t as' (b ∷ bs) va.2 vb)
          ∙ keep_whole (within a t) _ _
              (apart a b.lo t (b ∷ bs) (omega arith, vb.1, vb.2) (ground arith)))
  | inr e ↦ elim (Bool-cases (ltb b.hi a.lo)) [
    | inl f ↦
        rw (e, f, difference_walk)
          (covers-difference_walk m (b.hi + 2) t (a ∷ as') bs va vb.2
            ∙ pass_over _ (within b t) _
                (apart b a.lo t (a ∷ as') (omega arith, va.1, va.2) (ground arith)))
    | inr f ↦ elim (Bool-cases (ltb b.hi a.hi)) [
      | inl g ↦
          let c : Range = record { lo = b.hi + 1; hi = a.hi } in
          rw (e, f, g, difference_walk)
            (covers-keep_left a b (difference_walk (c ∷ as') bs) t
              ∙ ap (λ x. in_left a b t || x)
                  (covers-difference_walk (b.hi + 1) (b.hi + 2) t (c ∷ as') bs
                    (omega arith, ground arith, va.2) vb.2)
              ∙ cut_inside (within a t) _ (within b t) _ (in_left a b t) (within c t)
                  (left_and_right a b t e g (ground arith) vb.1) (left_apart a b t bs vb.2 vb.1)
                  (apart b (a.hi + 2) t as' va.2 (ground arith)))
      | inr g ↦
          rw (e, f, g, difference_walk)
            (covers-keep_left a b (difference_walk as' (b ∷ bs)) t
              ∙ ap (λ x. in_left a b t || x)
                  (covers-difference_walk (a.hi + 2) n t as' (b ∷ bs) va.2 vb)
              ∙ cut_end (within a t) _ (within b t) _ (in_left a b t) (left_only a b t e g)
                  (left_apart a b t bs vb.2 vb.1))
    ]
  ]
]

covers-range_difference :
    (m n t : ℕ) (as' bs : List Range)
    → From m as'
    → From n bs
    → covers (range_difference as' bs) t ≡ (covers as' t && not (covers bs t))
covers-range_difference m n t as' bs va vb =
    rw (range_difference-walk n as' bs vb) (covers-difference_walk m n t as' bs va vb)

From-keep_left :
    (k m : ℕ) (a b : Range) (rest : List Range)
    → m ≤ a.lo
    → m ≤ k
    → b.lo < k
    → From k rest
    → From m (keep_left a b rest)
From-keep_left k m a b rest h j l v = elim (Bool-cases (ltb a.lo b.lo)) [
  | inl e ↦ rw e (h, ground arith, From-le _ k rest (ground arith) v)
  | inr e ↦ rw e (From-le m k rest j v)
]

From-difference_walk :
    (m n : ℕ) (as' bs : List Range) → From m as' → From n bs → From m (difference_walk as' bs)
unfolding difference_walk
From-difference_walk m n [] bs va vb = tt
From-difference_walk m n (a ∷ as') [] va vb = va
From-difference_walk m n (a ∷ as') (b ∷ bs) va vb = elim (Bool-cases (ltb a.hi b.lo)) [
  | inl e ↦
      rw (e, difference_walk) (va.0, va.1, From-difference_walk (a.hi + 2) n as' (b ∷ bs) va.2 vb)
  | inr e ↦ elim (Bool-cases (ltb b.hi a.lo)) [
    | inl f ↦ rw (e, f, difference_walk) (From-difference_walk m (b.hi + 2) (a ∷ as') bs va vb.2)
    | inr f ↦ elim (Bool-cases (ltb b.hi a.hi)) [
      | inl g ↦
          let c : Range = record { lo = b.hi + 1; hi = a.hi } in
          rw (e, f, g, difference_walk)
            (From-keep_left (b.hi + 1) m a b _ va.0 (ground arith) (ground arith) (
              From-difference_walk (b.hi + 1) (b.hi + 2) (c ∷ as') bs
                (omega arith, ground arith, va.2) vb.2))
      | inr g ↦
          rw (e, f, g, difference_walk)
            (From-keep_left (a.hi + 2) m a b _ va.0 (omega arith) (ground arith)
              (From-difference_walk (a.hi + 2) n as' (b ∷ bs) va.2 vb))
    ]
  ]
]

From-range_difference :
    (m n : ℕ) (as' bs : List Range) → From m as' → From n bs → From m (range_difference as' bs)
From-range_difference m n as' bs va vb =
    rw (range_difference-walk n as' bs vb) (From-difference_walk m n as' bs va vb)

-- For two ordered lists: a tag is in the difference exactly when it is in the first and not in the
-- second, and the difference is ordered with no two ranges that could be one.
pub range_difference_lem :
    (m n t : ℕ) (as' bs : List Range)
    → From m as'
    → From n bs
    → (covers (range_difference as' bs) t ≡ (covers as' t && not (covers bs t)))
      × From m (range_difference as' bs)
range_difference_lem m n t as' bs va vb =
    (covers-range_difference m n t as' bs va vb, From-range_difference m n as' bs va vb)

-- The tags that a difference misses.
pub difference-nil :
    (m n t : ℕ) (as' bs : List Range)
    → From m as'
    → From n bs
    → range_difference as' bs ≡ []
    → covers as' t ≡ true
    → covers bs t ≡ true
difference-nil m n t as' bs va vb e h =
    ground (arith, (range_difference_lem m n t as' bs va vb).0, ap (λ l. covers l t) e)

pub difference-cons :
    (m n : ℕ) (as' bs : List Range) (d : Range) (ds : List Range)
    → From m as'
    → From n bs
    → range_difference as' bs ≡ d ∷ ds
    → (covers as' d.lo ≡ true) × (covers bs d.lo ≡ false)
difference-cons m n as' bs d ds va vb e =
    let (same, v) = range_difference_lem m n d.lo as' bs va vb in
    let v' : From m (d ∷ ds) = subst (From m) e v in
    let there : covers (d ∷ ds) d.lo ≡ true = ground arith in
    both _ _ (sym same ∙ ap (λ l. covers l d.lo) e ∙ there)
  where
    both : (p q : Bool) → (p && not q) ≡ true → (p ≡ true) × (q ≡ false)
    both p q h = ground arith
