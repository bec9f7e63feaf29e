-- ===== src/TagRanges/Validated/Accepts.antt =====
-- What the validation accepts.
use kytos.Prelude.{
  ℕ, ◌+◌, ◌≤◌, ◌<◌, ◌≡◌, ◌≢◌, ◌↔◌, refl, subst, ◌∙◌, List, [], ◌∷◌, map, ltb, arith,
}
use mathlib.Core.List.{cons≢nil}
use kytos.Errors.{Result, ok, err, ◌>>=◌, raise_if}
use kytos.TagRanges.Meaning.{Range, From}
use kytos.TagRanges.Validated.{
  RawRange, listed, map_singular_values, check_range, check_ranges, last_hi, first_lo,
  get_tag_ranges,
}

-- What the code calls a validated list of ranges: not empty, ordered, without a needless
-- partition, and between 1 and 4095.
pub record IsValid (rs : List Range) : Type 0 where
  pub ordered : From 1 rs
  pub some_range : rs ≢ []
  pub fits : last_hi rs ≤ 4095

-- A body that returns has passed each of its statements.
pub both_returned {ℓ κ} :
    {Found : Type ℓ} {Value : Type κ} (call : Result Found) (rest : Found → Result Value)
    {v : Value}
    → (call >>= rest) ≡ ok v
    → (found : Found) × (call ≡ ok found) × (rest found ≡ ok v)
both_returned (err exception) rest h = cc
both_returned (ok found) rest h = (found, refl, h)

check_range-ok :
    (last : ℕ) (r : Range)
    → check_range last r ≡ ok tt
    → (r.lo ≤ r.hi) × (0 < last → last + 2 ≤ r.lo)
unfolding check_range
check_range-ok last r h = (ground arith, λ p. ground arith)

check_range-accepts :
    (last : ℕ) (r : Range) → r.lo ≤ r.hi → (0 < last → last + 2 ≤ r.lo) → check_range last r ≡ ok tt
unfolding check_range
check_range-accepts last r h k = ground arith

-- A round that passes found a range, and the rest of the result is the rest of the loop's.
check_ranges-cons :
    (last : ℕ) (raw : RawRange) (raws : List RawRange) (rs : List Range)
    → check_ranges last (raw ∷ raws) ≡ ok rs
    → (r : Range) × (later : List Range) × (r.lo ≤ r.hi)
      × (0 < last → last + 2 ≤ r.lo)
      × (check_ranges r.hi raws ≡ ok later)
      × (r ∷ later ≡ rs)
unfolding check_ranges
check_ranges-cons last raw raws rs h =
    let (r, _, h') = both_returned (map_singular_values raw) _ h in
    let (_, checked, h'') = both_returned (check_range last r) _ h' in
    let (later, found, e) = both_returned (check_ranges r.hi raws) _ h'' in
    let (le, gap) = check_range-ok last r checked in (r, later, le, gap, found, cc)

-- The ranges after a `last_tag` that is not 0 leave a gap of one tag or more.
check_ranges-From :
    (last : ℕ) (raws : List RawRange) (rs : List Range)
    → 0 < last
    → check_ranges last raws ≡ ok rs
    → From (last + 2) rs
unfolding check_ranges
check_ranges-From last [] rs p h = ground arith
check_ranges-From last (raw ∷ raws) rs p h =
    let (r, later, le, gap, found, e) = check_ranges-cons last raw raws rs h in
    subst (From (last + 2)) e
      (gap p, le, check_ranges-From r.hi raws later (omega (arith, gap p)) found)

-- If `get_tag_ranges` accepts a list whose elements are integers and lists of at most two integers,
-- what it returns is valid: not empty, ordered with no two ranges that could be one, and within 1 to
-- 4095.
pub get_tag_ranges-IsValid :
    (raws : List RawRange) (rs : List Range) → get_tag_ranges raws ≡ ok rs → IsValid rs
unfolding get_tag_ranges
get_tag_ranges-IsValid [] rs h = cc
get_tag_ranges-IsValid (raw ∷ raws) rs h =
    let (rs', checked, h') = both_returned (check_ranges 0 (raw ∷ raws)) _ h in
    let (_, high, h'') = both_returned (raise_if (ltb 4095 (last_hi rs')) _) _ h' in
    let (_, low, same) = both_returned (raise_if (ltb (first_lo rs') 1) _) _ h'' in
    let (r, later, le, _, found, e) = check_ranges-cons 0 raw raws rs' checked in
    let starts : 1 ≤ first_lo rs' = ground arith in
    let first : 1 ≤ r.lo = ground arith in
    let same' : rs' ≡ rs = cc in
    let e' : r ∷ later ≡ rs = cc in
    record {
      ordered =
          subst (From 1) e' (first, le, check_ranges-From r.hi raws later (omega arith) found);
      some_range = λ none. cons≢nil (e' ∙ none);
      fits = subst (λ l. last_hi l ≤ 4095) same' (ground arith);
    }

-- The spelling of a range that needs no mending.
abbrev pub as_raw : Range → RawRange
as_raw r = listed r.lo r.hi

check_ranges-accepts :
    (last k : ℕ) (rs : List Range)
    → (0 < last → last + 2 ≤ k)
    → From k rs
    → check_ranges last (map as_raw rs) ≡ ok rs
unfolding check_ranges
check_ranges-accepts last k [] gap v = refl
check_ranges-accepts last k (r ∷ rs) gap v =
    rw (check_range-accepts last r v.1 (λ p. omega (arith, gap p)))
      (rw (check_ranges-accepts r.hi (r.hi + 2) rs (λ _. omega arith) v.2) refl)

-- Every valid list of ranges is accepted, and stays as it is.
get_tag_ranges-accepts : (rs : List Range) → IsValid rs → get_tag_ranges (map as_raw rs) ≡ ok rs
unfolding get_tag_ranges
get_tag_ranges-accepts [] v = absurd (v.some_range refl)
get_tag_ranges-accepts (r ∷ rs) v =
    rw (check_ranges-accepts 0 1 (r ∷ rs) (λ p. absurd (omega arith)) v.ordered)
      (ground (arith, v.fits, v.ordered))

-- A list of pairs is accepted, and then stays as it is, exactly when it is valid.
pub get_tag_ranges_iff : (rs : List Range) → get_tag_ranges (map as_raw rs) ≡ ok rs ↔ IsValid rs
get_tag_ranges_iff rs = (get_tag_ranges-IsValid (map as_raw rs) rs, get_tag_ranges-accepts rs)
