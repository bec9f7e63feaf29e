-- ===== src/TagRanges/Position.antt =====
-- `find_index_remove` and `find_index_add` of kytos/core/tag_ranges.py.
pub mod Found
pub mod Placed
use kytos.Prelude.{
  ℕ, zero, suc, ◌+◌, ◌-◌, Bool, true, false, ◌&&◌, ◌||◌, Option, none, some, List, [], ◌∷◌, ltb,
  leb, ◌==◌, if◌then◌else◌, length, get_elem?,
}
use kytos.TagRanges.Meaning.{Range}

-- Python compares lists of numbers in lexical order.
abbrev pub lt_range : Range → Range → Bool
lt_range a b = ltb a.lo b.lo || ((a.lo == b.lo) && ltb a.hi b.hi)

-- bisect.bisect_left of a sorted list: how many elements stand before the first that is not less.
unfoldable pub bisect_left : List Range → Range → ℕ
bisect_left [] x = 0
bisect_left (r ∷ rs) x = let next = suc (bisect_left rs x) in if lt_range r x then next else 0

-- `x` lies within the range at the index, if there is one.
abbrev pub fits_at : List Range → Range → ℕ → Bool
fits_at available x i = elim (get_elem? available i) [
  | none ↦ false
  | some r ↦ leb r.lo x.lo && leb x.hi r.hi
]

unfoldable pub find_index_remove : List Range → Range → Option ℕ
unfolding bisect_left
find_index_remove available tag_range =
    let index = bisect_left available tag_range in
    if ltb index (length available) && fits_at available tag_range index
    then some index
    else if ltb 0 index && fits_at available tag_range (index - 1)
    then some (index - 1)
    else none

-- tags[0] > available_tags[index][1], and tags[1] < available_tags[index][0]
abbrev pub starts_after : List Range → Range → ℕ → Bool
starts_after available x i = elim (get_elem? available i) [ none ↦ false | some r ↦ ltb r.hi x.lo ]

abbrev pub ends_before : List Range → Range → ℕ → Bool
ends_before available x i = elim (get_elem? available i) [ none ↦ false | some r ↦ ltb x.hi r.lo ]

unfoldable pub find_index_add : List Range → Range → Option ℕ
unfolding bisect_left
find_index_add available tags =
    let index = bisect_left available tags in
    if ((index == 0) || starts_after available tags (index - 1))
      && ((index == length available) || ends_before available tags index)
    then some index
    else none
