-- ===== src/TagRanges/Addition.antt =====
-- `range_addition` against the sets that the ranges stand for.
use kytos.Prelude.{
  ℕ, zero, suc, ◌+◌, ◌-◌, ◌≤◌, ◌<◌, max, min, ◌≡◌, refl, Bool, true, false, ◌&&◌, ◌||◌, List, [],
  ◌∷◌, ◌++◌, arith, ltb, leb, length, Bool-cases, inl, inr, ◌∙◌, ap, if◌then◌else◌,
}
use kytos.TagRanges.{
  Absorbed, Sum, start_range, append_both, append_range, addition_loop, range_addition,
}
use kytos.TagRanges.Meaning.{Range, within, covers, From, covers-below}
use kytos.TagRanges.Absorb.{majority, IsAbsorbed, after, absorb-IsAbsorbed}

covers-append : (xs ys : List Range) (t : ℕ) → covers (xs ++ ys) t ≡ (covers xs t || covers ys t)
covers-append [] ys t = refl
covers-append (x ∷ xs) ys t = ground (arith, covers-append xs ys t)

-- What the outer loop owes.
record IsSum (t k : ℕ) (as' bs : List Range) (sum : Sum) : Type 0 where
  union : covers sum.result t ≡ (covers as' t || covers bs t)
  common : covers sum.conflict t ≡ (covers as' t && covers bs t)
  ordered : From k sum.result

or_none : (p : Bool) → p ≡ (p || false)
or_none true = refl
or_none false = refl

and_none : (p : Bool) → false ≡ (p && false)
and_none true = refl
and_none false = refl

append_a :
    (t k m : ℕ) (a : Range) (as' bs : List Range) {sum : Sum}
    → From k (a ∷ as')
    → From m bs
    → a.hi < m
    → IsSum t (a.hi + 2) as' bs sum
    → IsSum t k (a ∷ as') bs (append_range a sum)
append_a t k m a as' bs va vb h i = record {
  union = ground (arith, i.union);
  common = ground (arith, i.common, covers-below m t bs vb);
  ordered = (va.0, va.1, i.ordered);
}

append_b :
    (t k m : ℕ) (b : Range) (as' bs : List Range) {sum : Sum}
    → From m as'
    → From k (b ∷ bs)
    → b.hi < m
    → IsSum t (b.hi + 2) as' bs sum
    → IsSum t k as' (b ∷ bs) (append_range b sum)
append_b t k m b as' bs va vb h i = record {
  union = ground (arith, i.union);
  common = ground (arith, i.common, covers-below m t as' va);
  ordered = (vb.0, vb.1, i.ordered);
}

covers-common :
    (a b : Range) (rest : List Range) (t : ℕ)
    → covers
        (if leb (max a.lo b.lo) (min a.hi b.hi)
          then record { lo = max a.lo b.lo; hi = min a.hi b.hi } ∷ rest
          else rest)
        t
      ≡ ((within a t && within b t) || covers rest t)
covers-common a b rest t = elim (Bool-cases (leb (max a.lo b.lo) (min a.hi b.hi))) [
  | inl e ↦ rw e (ground arith)
  | inr e ↦ rw e (ground arith)
]

within-start :
    (a b : Range) (t : ℕ)
    → ltb a.hi (b.lo - 1) ≡ false
    → ltb b.hi (a.lo - 1) ≡ false
    → a.lo ≤ a.hi
    → b.lo ≤ b.hi
    → within (start_range a b) t ≡ (within a t || within b t)
within-start a b t e f h k = ground arith

both_step :
    (a b : Range) (t : ℕ) (p q : Bool)
    → ltb a.hi (b.lo - 1) ≡ false
    → ltb b.hi (a.lo - 1) ≡ false
    → a.lo ≤ a.hi
    → b.lo ≤ b.hi
    → (p ≡ true → a.hi + 2 ≤ t)
    → (q ≡ true → b.hi + 2 ≤ t)
    → ((within a t && within b t) || majority (leb t (max a.hi b.hi)) p q)
      ≡ ((within a t || p) && (within b t || q))
both_step a b t false false e f h k hp hq = ground arith
both_step a b t true false e f h k hp hq = ground arith
both_step a b t false true e f h k hp hq = ground arith
both_step a b t true true e f h k hp hq = ground arith

or_regroup : (x y p q : Bool) → ((x || y) || (p || q)) ≡ ((x || p) || (y || q))
or_regroup x y p q = ground arith

merge-IsSum :
    (t k : ℕ) (a b : Range) (as' bs : List Range) {found : Absorbed} {later : Sum}
    → ltb a.hi (b.lo - 1) ≡ false
    → ltb b.hi (a.lo - 1) ≡ false
    → From k (a ∷ as')
    → From k (b ∷ bs)
    → IsAbsorbed t as' bs (start_range a b) found
    → IsSum t (found.range.hi + 2) found.rest_a found.rest_b later
    → IsSum t k (a ∷ as') (b ∷ bs) (append_both a b found later)
merge-IsSum t k a b as' bs {found} {later} e f va vb i s = record {
  union =
      ap (λ c. within found.range t || c) s.union
      ∙ i.union
      ∙ ap (λ c. c || (covers as' t || covers bs t)) (within-start a b t e f va.1 vb.1)
      ∙ or_regroup (within a t) (within b t) _ _;
  common =
      covers-common a b (found.conflict ++ later.conflict) t
      ∙ ap (λ c. (within a t && within b t) || c)
          (covers-append found.conflict later.conflict t
            ∙ ap (λ c. covers found.conflict t || c) s.common
            ∙ i.common)
      ∙ both_step a b t (covers as' t) (covers bs t) e f va.1 vb.1 (after (a.hi + 2) t as' va.2)
          (after (b.hi + 2) t bs vb.2);
  ordered = (omega (arith, i.starts), omega (arith, i.starts, i.ends), s.ordered);
}

addition_loop-IsSum :
    (t fuel k : ℕ) (as' bs : List Range)
    → length as' + length bs ≤ fuel
    → From k as'
    → From k bs
    → IsSum t k as' bs (addition_loop fuel as' bs)
unfolding addition_loop
addition_loop-IsSum t zero k [] [] h va vb = record { union = refl; common = refl; ordered = tt }
addition_loop-IsSum t zero k (a ∷ as') bs h va vb = absurd (omega arith)
addition_loop-IsSum t zero k [] (b ∷ bs) h va vb = absurd (omega arith)
addition_loop-IsSum t (suc fuel) k [] [] h va vb = record {
  union = refl;
  common = refl;
  ordered = tt;
}
addition_loop-IsSum t (suc fuel) k (a ∷ as') [] h va vb =
    append_a t k (a.hi + 2) a as' [] va tt (omega arith)
      (addition_loop-IsSum t fuel (a.hi + 2) as' [] (omega arith) va.2 tt)
addition_loop-IsSum t (suc fuel) k [] (b ∷ bs) h va vb =
    append_b t k (b.hi + 2) b [] bs tt vb (omega arith)
      (addition_loop-IsSum t fuel (b.hi + 2) [] bs (omega arith) tt vb.2)
addition_loop-IsSum t (suc fuel) k (a ∷ as') (b ∷ bs) h va vb =
    elim (Bool-cases (ltb a.hi (b.lo - 1))) [
      | inl e ↦
          let vb' : From (a.hi + 2) (b ∷ bs) = (ground arith, vb.1, vb.2) in
          rw (e, addition_loop)
            (append_a t k (a.hi + 2) a as' (b ∷ bs) va vb' (omega arith)
              (addition_loop-IsSum t fuel (a.hi + 2) as' (b ∷ bs) (omega arith) va.2 vb'))
      | inr e ↦ elim (Bool-cases (ltb b.hi (a.lo - 1))) [
        | inl f ↦
            let va' : From (b.hi + 2) (a ∷ as') = (ground arith, va.1, va.2) in
            rw (e, f, addition_loop)
              (append_b t k (b.hi + 2) b (a ∷ as') bs va' vb (omega arith)
                (addition_loop-IsSum t fuel (b.hi + 2) (a ∷ as') bs (omega arith) va' vb.2))
        | inr f ↦
            let i =
              absorb-IsAbsorbed t (a.hi + 2) (b.hi + 2) as' bs (start_range a b) va.2 vb.2
                (omega arith) (omega arith) (omega arith) (omega arith) in
            rw (e, f, addition_loop)
              (merge-IsSum t k a b as' bs e f va vb i
                (addition_loop-IsSum t fuel _ _ _ (omega (arith, i.fewer)) i.ordered_a i.ordered_b))
      ]
    ]

range_addition-IsSum :
    (t k : ℕ) (as' bs : List Range)
    → From k as'
    → From k bs
    → IsSum t k as' bs (range_addition as' bs)
unfolding range_addition
range_addition-IsSum t k [] [] va vb = record { union = refl; common = refl; ordered = va }
range_addition-IsSum t k (a ∷ as') [] va vb = record {
  union = or_none _;
  common = and_none _;
  ordered = va;
}
range_addition-IsSum t k [] (b ∷ bs) va vb = record { union = refl; common = refl; ordered = vb }
range_addition-IsSum t k (a ∷ as') (b ∷ bs) va vb =
    addition_loop-IsSum t _ k (a ∷ as') (b ∷ bs) (omega arith) va vb

-- For two ordered lists: the sum holds exactly the tags of both, the conflicts hold exactly the
-- tags that are in both, and the sum is ordered with no two ranges that could be one.
pub range_addition_lem :
    (t k : ℕ) (as' bs : List Range)
    → From k as'
    → From k bs
    → (covers (range_addition as' bs).result t ≡ (covers as' t || covers bs t))
      × (covers (range_addition as' bs).conflict t ≡ (covers as' t && covers bs t))
      × From k (range_addition as' bs).result
range_addition_lem t k as' bs va vb =
    let i = range_addition-IsSum t k as' bs va vb in (i.union, i.common, i.ordered)
