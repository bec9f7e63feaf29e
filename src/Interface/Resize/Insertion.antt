-- ===== src/Interface/Resize/Insertion.antt =====
-- What `_add_tags` puts into an ordered list.
use kytos.Prelude.{
  ℕ, zero, suc, ◌+◌, ◌-◌, ◌≤◌, ◌<◌, ◌≡◌, refl, subst, ap, ◌∙◌, true, false, ◌||◌, Option, none,
  some, List, [], ◌∷◌, ◌==◌, arith, Bool-cases, inl, inr,
}
use mathlib.Core.Option
use kytos.TagRanges.Meaning.{Range, From, within, covers, covers-below}
use kytos.TagRanges.Position.{find_index_add}
use kytos.TagRanges.Position.Placed.{place, find_index_add-place, place-none}
use kytos.Interface.Resize.{enlarge, add_tags}

-- An ordered list that holds the tags of `x` besides those of `rs`.
record IsEnlarged (n t : ℕ) (rs : List Range) (x : Range) (more : List Range) : Type 0 where
  ordered : From n more
  union : covers more t ≡ (covers rs t || within x t)
  fresh : within x t ≡ true → covers rs t ≡ false

start-IsEnlarged :
    (n t : ℕ) (r x : Range) (rs : List Range)
    → From n (r ∷ rs)
    → n ≤ x.lo
    → x.lo ≤ x.hi
    → x.hi < r.lo
    → IsEnlarged n t (r ∷ rs) x (enlarge (r ∷ rs) x 0)
unfolding enlarge
start-IsEnlarged n t r x rs v low h k = elim (Bool-cases (x.hi == (r.lo - 1))) [
  | inl e ↦ rw e (record {
    ordered = (low, ground arith, v.2);
    union = ground arith;
    fresh = λ w. ground (arith, covers-below r.lo t (r ∷ rs) (omega arith, v.1, v.2));
  })
  | inr e ↦ rw e (record {
    ordered = (low, h, (ground arith, v.1, v.2));
    union = ground arith;
    fresh = λ w. ground (arith, covers-below r.lo t (r ∷ rs) (omega arith, v.1, v.2));
  })
]

end-IsEnlarged :
    (n t : ℕ) (l x : Range)
    → From n (l ∷ [])
    → x.lo ≤ x.hi
    → l.hi < x.lo
    → IsEnlarged n t (l ∷ []) x (enlarge (l ∷ []) x 1)
unfolding enlarge
end-IsEnlarged n t l x v h k = elim (Bool-cases ((l.hi + 1) == x.lo)) [
  | inl e ↦ rw e (record {
    ordered = (v.0, ground arith, tt);
    union = ground arith;
    fresh = λ w. ground arith;
  })
  | inr e ↦ rw e (record {
    ordered = (v.0, v.1, (ground arith, h, tt));
    union = ground arith;
    fresh = λ w. ground arith;
  })
]

between-IsEnlarged :
    (n t : ℕ) (l r x : Range) (rs : List Range)
    → From n (l ∷ r ∷ rs)
    → x.lo ≤ x.hi
    → l.hi < x.lo
    → x.hi < r.lo
    → IsEnlarged n t (l ∷ r ∷ rs) x (enlarge (l ∷ r ∷ rs) x 1)
unfolding enlarge
between-IsEnlarged n t l r x rs v h j k =
    let free : within x t ≡ true → covers (l ∷ r ∷ rs) t ≡ false =
      λ w. ground (arith, covers-below r.lo t (r ∷ rs) (omega arith, v.2.1, v.2.2)) in
    elim (Bool-cases ((l.hi + 1) == x.lo)) [
      | inl e ↦ elim (Bool-cases ((r.lo - 1) == x.hi)) [
        | inl f ↦
            rw (e, f)
              (record { ordered = (v.0, ground arith, v.2.2); union = ground arith; fresh = free })
        | inr f ↦
            rw (e, f)
              (record {
                ordered = (v.0, ground arith, (ground arith, v.2.1, v.2.2));
                union = ground arith;
                fresh = free;
              })
      ]
      | inr e ↦ elim (Bool-cases ((r.lo - 1) == x.hi)) [
        | inl f ↦
            rw (e, f)
              (record {
                ordered = (v.0, v.1, (ground arith, ground arith, v.2.2));
                union = ground arith;
                fresh = free;
              })
        | inr f ↦
            rw (e, f)
              (record {
                ordered = (v.0, v.1, (ground arith, h, (ground arith, v.2.1, v.2.2)));
                union = ground arith;
                fresh = free;
              })
      ]
    ]

pred_suc : (i : ℕ) → suc i - 1 ≡ i
pred_suc i = omega arith

enlarge-suc :
    (l s : Range) (rs : List Range) (x : Range) (i : ℕ)
    → enlarge (l ∷ s ∷ rs) x (suc (suc i)) ≡ l ∷ enlarge (s ∷ rs) x (suc i)
unfolding enlarge
enlarge-suc l s rs x i = ground (arith, pred_suc i)

-- The first range is in front of the index and stays.
cons-IsEnlarged :
    (n t : ℕ) (l x : Range) (rs more : List Range)
    → From n (l ∷ rs)
    → l.hi < x.lo
    → IsEnlarged (l.hi + 2) t rs x more
    → IsEnlarged n t (l ∷ rs) x (l ∷ more)
cons-IsEnlarged n t l x rs more v k i = record {
  ordered = (v.0, v.1, i.ordered);
  union = ground (arith, i.union);
  fresh = λ w. ground (arith, i.fresh w);
}

place-suc :
    (r x : Range) (rs : List Range) (i : ℕ)
    → place (r ∷ rs) x ≡ some (suc i)
    → (r.hi < x.lo) × (place rs x ≡ some i)
unfolding place
place-suc r x rs i e = ground arith

place-zero : (r x : Range) (rs : List Range) → place (r ∷ rs) x ≡ some 0 → x.hi < r.lo
unfolding place
place-zero r x rs e = ground arith

enlarge-IsEnlarged :
    (n t : ℕ) (r x : Range) (rs : List Range) (i : ℕ)
    → From n (r ∷ rs)
    → n ≤ x.lo
    → x.lo ≤ x.hi
    → place (r ∷ rs) x ≡ some i
    → IsEnlarged n t (r ∷ rs) x (enlarge (r ∷ rs) x i)
enlarge-IsEnlarged n t r x rs zero v low h e =
    start-IsEnlarged n t r x rs v low h (place-zero r x rs e)
enlarge-IsEnlarged n t r x [] (suc zero) v low h e =
    end-IsEnlarged n t r x v h (place-suc r x [] 0 e).0
enlarge-IsEnlarged n t r x (s ∷ rs) (suc zero) v low h e =
    let (k, e') = place-suc r x (s ∷ rs) 0 e in
    between-IsEnlarged n t r s x rs v h k (place-zero s x rs e')
enlarge-IsEnlarged n t r x [] (suc (suc i)) v low h e =
    let (k, e') = place-suc r x [] (suc i) e in absurd (unfold place in ground arith)
enlarge-IsEnlarged n t r x (s ∷ rs) (suc (suc i)) v low h e =
    let (k, e') = place-suc r x (s ∷ rs) (suc i) e in
    rw enlarge-suc (
      cons-IsEnlarged n t r x (s ∷ rs) (enlarge (s ∷ rs) x (suc i)) v k (
        enlarge-IsEnlarged (r.hi + 2) t s x rs (suc i) v.2
          (omega (arith, (place-suc s x rs i e').0)) h e'))

add_tags-index :
    (n : ℕ) (r x : Range) (rs : List Range)
    → From n (r ∷ rs)
    → x.lo ≤ x.hi
    → add_tags (r ∷ rs) x ≡ Option.map (enlarge (r ∷ rs) x) (place (r ∷ rs) x)
unfolding add_tags
add_tags-index n r x rs v h =
    go (find_index_add (r ∷ rs) x)
    ∙ ap (Option.map (enlarge (r ∷ rs) x)) (find_index_add-place n (r ∷ rs) x v h)
  where
    go :
        (o : Option ℕ)
        → elim o as (λ _. Option (List Range)) [
          | none ↦ none
          | some index ↦ some (enlarge (r ∷ rs) x index)
        ]
          ≡ Option.map (enlarge (r ∷ rs) x) o
    go none = refl
    go (some i) = refl

single-IsEnlarged : (n t : ℕ) (x : Range) → n ≤ x.lo → x.lo ≤ x.hi → IsEnlarged n t [] x (x ∷ [])
single-IsEnlarged n t x low h = record {
  ordered = (low, h, tt);
  union = ground arith;
  fresh = λ w. refl;
}

add_tags-nil : (x : Range) {more : List Range} → add_tags [] x ≡ some more → x ∷ [] ≡ more
unfolding add_tags
add_tags-nil x e = cc

add_tags-IsEnlarged :
    (n t : ℕ) (rs : List Range) (x : Range) {more : List Range}
    → From n rs
    → n ≤ x.lo
    → x.lo ≤ x.hi
    → add_tags rs x ≡ some more
    → IsEnlarged n t rs x more
add_tags-IsEnlarged n t [] x v low h e =
    subst (IsEnlarged n t [] x) (add_tags-nil x e) (single-IsEnlarged n t x low h)
add_tags-IsEnlarged n t (r ∷ rs) x v low h e =
    let (i, found, same) =
      (Option.map-eq-some_iff (enlarge (r ∷ rs) x) (place (r ∷ rs) x)).0
        (rw (add_tags-index n r x rs v h) at e) in
    subst (IsEnlarged n t (r ∷ rs) x) same (enlarge-IsEnlarged n t r x rs i v low h found)

-- Into an ordered list, of a range that is not empty and that is not below the bound of the list: an
-- insertion that is done leaves an ordered list with the tags of both, none of which was there
-- before.
pub add_tags-some :
    (n t : ℕ) (rs : List Range) (x : Range) {more : List Range}
    → From n rs
    → n ≤ x.lo
    → x.lo ≤ x.hi
    → add_tags rs x ≡ some more
    → From n more
      × (covers more t ≡ (covers rs t || within x t))
      × (within x t ≡ true → covers rs t ≡ false)
add_tags-some n t rs x v low h e =
    let i = add_tags-IsEnlarged n t rs x v low h e in (i.ordered, i.union, i.fresh)

-- Into an ordered list, an insertion of a range that is not empty is refused only if one of the tags
-- is there.
pub add_tags-none :
    (n : ℕ) (rs : List Range) (x : Range)
    → From n rs
    → x.lo ≤ x.hi
    → add_tags rs x ≡ none
    → (u : ℕ) × (within x u ≡ true) × (covers rs u ≡ true)
add_tags-none n [] x v h e = absurd (unfold add_tags in cc)
add_tags-none n (r ∷ rs) x v h e = place-none (r ∷ rs) x n v h (
    (Option.map-eq-none_iff (enlarge (r ∷ rs) x) (place (r ∷ rs) x)).0
      (rw (add_tags-index n r x rs v h) at e))
