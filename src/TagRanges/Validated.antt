-- ===== src/TagRanges/Validated.antt =====
-- The validation of the ranges that a user gives: `get_special_tags`, `map_singular_values`,
-- `get_tag_ranges` and `get_validated_tags` of kytos/core/tag_ranges.py. The elements of a list are
-- integers and lists of at most two integers. Longer lists are not modelled: `get_tag_ranges` does
-- not look at their length and keeps them as they are, and what unpacks them later raises ValueError.
pub mod Accepts
use kytos.Prelude.{
  ℕ, ◌-◌, String, Bool, false, ◌&&◌, ◌||◌, List, [], ◌∷◌, ltb, ◌==◌, str_eq, if◌then◌else◌,
}
use kytos.Errors.{
  Result, ok, err, invalid_tag_ranges, index_error, type_error, ◌>>=◌, ◌>>◌, raise_if,
}
use kytos.TagRanges.Meaning.{Range}

-- x in xs
unfoldable pub contains : String → List String → Bool
contains x [] = false
contains x (y ∷ ys) = str_eq y x || contains x ys

-- A set of texts is the list of its elements. s.discard(x), and s.remove(x) for an x that is there.
unfoldable pub discard : String → List String → List String
discard x [] = []
discard x (y ∷ ys) = if str_eq y x then discard x ys else y ∷ discard x ys

-- len(xs) != len(set(xs))
has_duplicates : List String → Bool
has_duplicates [] = false
has_duplicates (x ∷ xs) = contains x xs || has_duplicates xs

-- for tag in tag_range: default_set.remove(tag)
remove_each : List String → List String → Result (Unit {0})
remove_each [] left = ok tt
remove_each (tag ∷ tags) left =
    let rest = remove_each tags (discard tag left) in
    if contains tag left then rest else err invalid_tag_ranges

unfoldable pub get_special_tags : List String → List String → Result (List String)
unfolding contains discard has_duplicates remove_each
get_special_tags tag_range default = do
  raise_if (has_duplicates tag_range) invalid_tag_ranges
  remove_each tag_range default
  ok tag_range

-- An element of the list that a user gives: an integer, or a list of none, one or two integers.
pub data RawRange : Type 0 where
  tag : ℕ → RawRange
  no_tag : RawRange
  one_tag : ℕ → RawRange
  listed : ℕ → ℕ → RawRange

-- With the two reads that follow it, ranges[i][0] and ranges[i][1], which an empty list fails.
unfoldable pub map_singular_values : RawRange → Result Range
map_singular_values (tag t) = ok (record { lo = t; hi = t })
map_singular_values no_tag = err index_error
map_singular_values (one_tag t) = ok (record { lo = t; hi = t })
map_singular_values (listed lo hi) = ok (record { lo = lo; hi = hi })

-- The four checks of a round of the loop. A `last_tag` of 0 is false.
check_range : ℕ → Range → Result (Unit {0})
check_range last_tag r = do
  raise_if (ltb r.hi r.lo) invalid_tag_ranges
  raise_if (ltb 0 last_tag && ltb r.lo last_tag) invalid_tag_ranges
  raise_if (ltb 0 last_tag && (last_tag == (r.lo - 1))) invalid_tag_ranges
  raise_if (ltb 0 last_tag && (last_tag == r.lo)) invalid_tag_ranges

check_ranges : ℕ → List RawRange → Result (List Range)
unfolding map_singular_values check_range
check_ranges last_tag [] = ok []
check_ranges last_tag (raw ∷ raws) = do
  r ← map_singular_values raw
  check_range last_tag r
  rs ← check_ranges r.hi raws
  ok (r ∷ rs)

-- ranges[-1][1]
abbrev pub last_hi : List Range → ℕ
last_hi [] = 0
last_hi (r ∷ []) = r.hi
last_hi (r ∷ s ∷ rs) = last_hi (s ∷ rs)

-- ranges[0][0]
abbrev pub first_lo : List Range → ℕ
first_lo [] = 0
first_lo (r ∷ rs) = r.lo

unfoldable pub get_tag_ranges : List RawRange → Result (List Range)
unfolding check_ranges
get_tag_ranges [] = err invalid_tag_ranges
get_tag_ranges (raw ∷ raws) = do
  rs ← check_ranges 0 (raw ∷ raws)
  raise_if (ltb 4095 (last_hi rs)) invalid_tag_ranges
  raise_if (ltb (first_lo rs) 1) invalid_tag_ranges
  ok rs

-- list[int] or list[list[int]]
pub data Tags : Type 0 where
  range : Range → Tags
  ranges : List Range → Tags

unfoldable pub get_validated_tags : List RawRange → Result Tags
unfolding get_tag_ranges
get_validated_tags [] = err index_error
get_validated_tags (tag x ∷ []) = ok (range (record { lo = x; hi = x }))
get_validated_tags (tag x ∷ tag y ∷ []) =
    if ltb y x then err invalid_tag_ranges else ok (range (record { lo = x; hi = y }))
get_validated_tags (tag x ∷ no_tag ∷ []) = err type_error
get_validated_tags (tag x ∷ one_tag y ∷ []) = err type_error
get_validated_tags (tag x ∷ listed lo hi ∷ []) = err type_error
get_validated_tags (tag x ∷ y ∷ z ∷ rest) = err invalid_tag_ranges
get_validated_tags (raw ∷ rest) = do rs ← get_tag_ranges (raw ∷ rest); ok (ranges rs)
