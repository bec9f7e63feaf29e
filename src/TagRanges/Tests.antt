-- ===== src/TagRanges/Tests.antt =====
-- Small inputs of kytos/core/tag_ranges.py.
use kytos.Prelude.{ℕ, ◌≡◌, refl, not, ◌&&◌, ◌||◌, List, [], ◌∷◌, map, arith, max, ◌↔◌}
use kytos.Errors.{ok, err, invalid_tag_ranges}
use kytos.TagRanges.{range_intersection, range_difference, range_addition}
use kytos.TagRanges.Meaning.{Range, covers, From}
use kytos.TagRanges.Intersection.{range_intersection_lem}
use kytos.TagRanges.Difference.{range_difference_lem}
use kytos.TagRanges.Addition.{range_addition_lem}
use kytos.TagRanges.Validated.{RawRange, tag, one_tag, listed, get_tag_ranges}
use kytos.TagRanges.Validated.Accepts.{IsValid, get_tag_ranges-IsValid, get_tag_ranges_iff, as_raw}

abbrev r : ℕ → ℕ → Range
r lo hi = record { lo = lo; hi = hi }

abbrev some_tags : List Range
some_tags = r 1 5 ∷ r 10 20 ∷ r 30 40 ∷ []

abbrev others : List Range
others = r 4 12 ∷ r 18 33 ∷ []

program : Unit {0}
unfolding range_intersection range_difference range_addition get_tag_ranges
program = tt

range_intersection_run :
    range_intersection some_tags others ≡ r 4 5 ∷ r 10 12 ∷ r 18 20 ∷ r 30 33 ∷ []
unfolding program
range_intersection_run = refl

range_difference_run : range_difference some_tags others ≡ r 1 3 ∷ r 13 17 ∷ r 34 40 ∷ []
unfolding program
range_difference_run = refl

range_addition_run :
    range_addition some_tags others
    ≡ record { result = r 1 40 ∷ []; conflict = r 4 5 ∷ r 10 12 ∷ r 18 20 ∷ r 30 33 ∷ [] }
unfolding program
range_addition_run = refl

abbrev written : List RawRange
written = tag 3 ∷ one_tag 5 ∷ listed 7 4095 ∷ []

get_tag_ranges_run : get_tag_ranges written ≡ ok (r 3 3 ∷ r 5 5 ∷ r 7 4095 ∷ [])
unfolding program
get_tag_ranges_run = refl

get_tag_ranges_adjacent : get_tag_ranges (listed 10 20 ∷ tag 21 ∷ []) ≡ err invalid_tag_ranges
unfolding program
get_tag_ranges_adjacent = refl

range_intersection_example :
    (covers (range_intersection some_tags others) 19 ≡ (covers some_tags 19 && covers others 19))
    × From (max 1 2) (range_intersection some_tags others)
range_intersection_example =
    range_intersection_lem 1 2 19 some_tags others (omega arith) (omega arith)

range_difference_example :
    (covers (range_difference some_tags others) 15
      ≡ (covers some_tags 15 && not (covers others 15)))
    × From 1 (range_difference some_tags others)
range_difference_example = range_difference_lem 1 2 15 some_tags others (omega arith) (omega arith)

range_addition_example :
    (covers (range_addition some_tags others).result 12 ≡ (covers some_tags 12 || covers others 12))
    × (covers (range_addition some_tags others).conflict 12
        ≡ (covers some_tags 12 && covers others 12))
    × From 1 (range_addition some_tags others).result
range_addition_example = range_addition_lem 12 1 some_tags others (omega arith) (omega arith)

get_tag_ranges_example : IsValid (r 3 3 ∷ r 5 5 ∷ r 7 4095 ∷ [])
get_tag_ranges_example =
    get_tag_ranges-IsValid written (r 3 3 ∷ r 5 5 ∷ r 7 4095 ∷ []) get_tag_ranges_run

get_tag_ranges_iff_example :
    get_tag_ranges (map as_raw some_tags) ≡ ok some_tags ↔ IsValid some_tags
get_tag_ranges_iff_example = get_tag_ranges_iff some_tags
