-- ===== src/TagRanges/Absorb.antt =====
-- The inner loop of `range_addition` against the sets that the ranges stand for.
use kytos.Prelude.{
  ℕ, ◌+◌, ◌≤◌, max, ◌≡◌, refl, Bool, true, false, ◌&&◌, ◌||◌, List, [], ◌∷◌, arith, leb, length,
  Bool-cases, inl, inr, ◌∙◌, ap,
}
use kytos.TagRanges.{Absorbed, absorb, clash, grow, touches, take_in, stop}
use kytos.TagRanges.Meaning.{Range, within, covers, From, covers-below, From-le}

-- At least two of the three.
abbrev pub majority : Bool → Bool → Bool → Bool
majority l p q = (l && p) || ((l && q) || (p && q))

-- What the inner loop owes: no tag is lost, and each tag that is found twice is a conflict.
pub record IsAbsorbed (t : ℕ) (as' bs : List Range) (new : Range) (found : Absorbed) : Type 0 where
  pub union :
      (within found.range t || (covers found.rest_a t || covers found.rest_b t))
      ≡ (within new t || (covers as' t || covers bs t))
  pub common :
      (covers found.conflict t || (covers found.rest_a t && covers found.rest_b t))
      ≡ majority (leb t new.hi) (covers as' t) (covers bs t)
  pub ordered_a : From (found.range.hi + 2) found.rest_a
  pub ordered_b : From (found.range.hi + 2) found.rest_b
  pub starts : found.range.lo ≡ new.lo
  pub ends : new.hi ≤ found.range.hi
  pub fewer : length found.rest_a + length found.rest_b ≤ length as' + length bs

stop-IsAbsorbed :
    (t : ℕ) (as' bs : List Range) (new : Range)
    → From (new.hi + 2) as'
    → From (new.hi + 2) bs
    → IsAbsorbed t as' bs new (stop new as' bs)
stop-IsAbsorbed t as' bs new va vb = record {
  union = refl;
  common = ground (arith, covers-below (new.hi + 2) t as' va, covers-below (new.hi + 2) t bs vb);
  ordered_a = va;
  ordered_b = vb;
  starts = refl;
  ends = omega arith;
  fewer = omega arith;
}

pub after : (n t : ℕ) (rs : List Range) → From n rs → covers rs t ≡ true → n ≤ t
after n t rs v h = ground (arith, covers-below n t rs v)

covers-clash :
    (r new : Range) (rest : List Range) (t : ℕ)
    → new.lo ≤ r.lo
    → covers (clash r new rest) t ≡ ((within r t && leb t new.hi) || covers rest t)
covers-clash r new rest t h = elim (Bool-cases (leb r.lo new.hi)) [
  | inl e ↦ rw e (ground arith)
  | inr e ↦ rw e (ground arith)
]

common_step :
    (r new : Range) (t : ℕ) (p q c d : Bool)
    → r.lo ≤ new.hi + 1
    → (p ≡ true → r.hi + 2 ≤ t)
    → (q ≡ true → new.hi + 2 ≤ t)
    → (c || d) ≡ majority (leb t (max r.hi new.hi)) p q
    → (((within r t && leb t new.hi) || c) || d) ≡ majority (leb t new.hi) (within r t || p) q
common_step r new t p q true d h hp hq e = ground arith
common_step r new t p q false d h hp hq e = ground arith

within-grow :
    (r new : Range) (t : ℕ)
    → touches r new ≡ true
    → new.lo ≤ r.lo
    → within (grow r new) t ≡ (within r t || within new t)
within-grow r new t h k = ground arith

majority_swap : (l p q : Bool) → majority l p q ≡ majority l q p
majority_swap l p q = ground arith

take_common :
    (r new : Range) (t : ℕ) (rs others : List Range) (d : Bool) (found : Absorbed)
    → touches r new ≡ true
    → new.lo ≤ r.lo
    → From (r.hi + 2) rs
    → From (new.hi + 2) others
    → (covers found.conflict t || d)
      ≡ majority (leb t (max r.hi new.hi)) (covers rs t) (covers others t)
    → (covers (clash r new found.conflict) t || d)
      ≡ majority (leb t new.hi) (within r t || covers rs t) (covers others t)
take_common r new t rs others d found h k v w e =
    ap (λ c. c || d) (covers-clash r new found.conflict t k)
    ∙ common_step r new t (covers rs t) (covers others t) (covers found.conflict t) d (ground arith)
        (after (r.hi + 2) t rs v) (after (new.hi + 2) t others w) e

take_union :
    (r new : Range) (t : ℕ) (p q u : Bool)
    → touches r new ≡ true
    → new.lo ≤ r.lo
    → u ≡ (within (grow r new) t || (p || q))
    → u ≡ (within new t || ((within r t || p) || q))
take_union r new t p q u h k e =
    e ∙ ap (λ c. c || (p || q)) (within-grow r new t h k) ∙ regroup (within r t) (within new t)
  where
    regroup : (x y : Bool) → ((x || y) || (p || q)) ≡ (y || ((x || p) || q))
    regroup x y = ground arith

or_swap : (x p q : Bool) → (x || (p || q)) ≡ (x || (q || p))
or_swap x p q = ground arith

module _ (t : ℕ) (r new : Range) (as' bs : List Range) {found : Absorbed}
    (near : touches r new ≡ true) (behind : new.lo ≤ r.lo) where
  take_a :
      From (r.hi + 2) as'
      → From (new.hi + 2) bs
      → IsAbsorbed t as' bs (grow r new) found
      → IsAbsorbed t (r ∷ as') bs new (take_in r new found)
  take_a va vb i = record {
    union = take_union r new t _ _ _ near behind i.union;
    common = take_common r new t as' bs _ found near behind va vb i.common;
    ordered_a = i.ordered_a;
    ordered_b = i.ordered_b;
    starts = i.starts;
    ends = omega (arith, i.ends);
    fewer = omega (arith, i.fewer);
  }

  take_b :
      From (new.hi + 2) as'
      → From (r.hi + 2) bs
      → IsAbsorbed t as' bs (grow r new) found
      → IsAbsorbed t as' (r ∷ bs) new (take_in r new found)
  take_b va vb i = record {
    union =
        take_union r new t (covers bs t) (covers as' t) _ near behind
          (i.union ∙ or_swap _ (covers as' t) _)
        ∙ or_swap (within new t) (within r t || covers bs t) (covers as' t);
    common =
        take_common r new t bs as' _ found near behind vb va
          (i.common ∙ majority_swap _ (covers as' t) _)
        ∙ majority_swap (leb t new.hi) (within r t || covers bs t) (covers as' t);
    ordered_a = i.ordered_a;
    ordered_b = i.ordered_b;
    starts = i.starts;
    ends = omega (arith, i.ends);
    fewer = omega (arith, i.fewer);
  }

pub absorb-IsAbsorbed :
    (t m n : ℕ) (as' bs : List Range) (new : Range)
    → From m as'
    → From n bs
    → new.hi + 2 ≤ max m n
    → new.lo ≤ m
    → new.lo ≤ n
    → new.lo ≤ new.hi
    → IsAbsorbed t as' bs new (absorb as' bs new)
unfolding absorb
absorb-IsAbsorbed t m n [] [] new va vb h ha hb hw = stop-IsAbsorbed t [] [] new tt tt
absorb-IsAbsorbed t m n [] (b ∷ bs) new va vb h ha hb hw = elim (Bool-cases (touches b new)) [
  | inl e ↦
      rw (e, absorb)
        (take_b t b new [] bs e (omega arith) tt vb.2 (
          absorb-IsAbsorbed t (new.hi + 2) (b.hi + 2) [] bs (grow b new) tt vb.2 (omega arith)
            (omega arith) (omega arith) (omega arith)))
  | inr e ↦ rw (e, absorb) (stop-IsAbsorbed t [] (b ∷ bs) new tt (ground arith, vb.1, vb.2))
]
absorb-IsAbsorbed t m n (a ∷ as') [] new va vb h ha hb hw = elim (Bool-cases (touches a new)) [
  | inl e ↦
      rw (e, absorb)
        (take_a t a new as' [] e (omega arith) va.2 tt (
          absorb-IsAbsorbed t (a.hi + 2) (new.hi + 2) as' [] (grow a new) va.2 tt (omega arith)
            (omega arith) (omega arith) (omega arith)))
  | inr e ↦ rw (e, absorb) (stop-IsAbsorbed t (a ∷ as') [] new (ground arith, va.1, va.2) tt)
]
absorb-IsAbsorbed t m n (a ∷ as') (b ∷ bs) new va vb h ha hb hw =
    elim (Bool-cases (touches a new)) [
      | inl e ↦
          let vb' : From (new.hi + 2) (b ∷ bs) = From-le _ n (b ∷ bs) (ground arith) vb in
          rw (e, absorb)
            (take_a t a new as' (b ∷ bs) e (omega arith) va.2 vb' (
              absorb-IsAbsorbed t (a.hi + 2) (new.hi + 2) as' (b ∷ bs) (grow a new) va.2 vb'
                (omega arith) (omega arith) (omega arith) (omega arith)))
      | inr e ↦ elim (Bool-cases (touches b new)) [
        | inl f ↦
            let va' : From (new.hi + 2) (a ∷ as') = From-le _ m (a ∷ as') (ground arith) va in
            rw (e, f, absorb)
              (take_b t b new (a ∷ as') bs f (omega arith) va' vb.2 (
                absorb-IsAbsorbed t (new.hi + 2) (b.hi + 2) (a ∷ as') bs (grow b new) va' vb.2
                  (omega arith) (omega arith) (omega arith) (omega arith)))
        | inr f ↦
            rw (e, f, absorb)
              (stop-IsAbsorbed t (a ∷ as') (b ∷ bs) new (ground arith, va.1, va.2)
                (ground arith, vb.1, vb.2))
      ]
    ]
