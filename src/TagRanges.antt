-- ===== src/TagRanges.antt =====
-- kytos/core/tag_ranges.py
pub mod Meaning
mod Tests
pub mod Position
pub mod Validated
pub mod Intersection
pub mod Walk
pub mod Difference
pub mod Absorb
pub mod Addition
use kytos.Prelude.{
  ℕ, zero, suc, ◌+◌, ◌-◌, min, max, Bool, true, false, List, [], ◌∷◌, ◌++◌, ltb, leb, length,
  if◌then◌else◌,
}
use Meaning.{Range}

-- The generator's loop: the two lists are what stands behind the indices `a_i` and `b_i`.
unfoldable pub range_intersection : List Range → List Range → List Range
range_intersection [] bs = []
range_intersection (a ∷ as') [] = []
range_intersection (a ∷ as') (b ∷ bs) = elim (ltb a.hi b.lo) [
  | true ↦ range_intersection as' (b ∷ bs)
  | false ↦ elim (ltb b.hi a.lo) [
    | true ↦ range_intersection (a ∷ as') bs
    | false ↦ record { lo = max a.lo b.lo; hi = min a.hi b.hi } ∷ elim (ltb a.hi b.hi) [
      | true ↦ range_intersection as' (b ∷ bs)
      | false ↦ range_intersection (a ∷ as') bs
    ]
  ]
]

-- The part of `a` in front of `b`, if there is any, and what is found after it.
abbrev keep_left : Range → Range → List Range → List Range
keep_left a b rest = if ltb a.lo b.lo then record { lo = a.lo; hi = b.lo - 1 } ∷ rest else rest

-- The next of the ranges, if there is one.
abbrev next_range : Range → List Range → Range
next_range r [] = r
next_range r (a ∷ as') = a

-- Both loops. `head` is `[start_a, end_a]`, and the first list is what stands from `a_i` on. Where the
-- code sets `update`, or leaves it set, the next head is read from that list.
difference_loop : Range → List Range → List Range → List Range
difference_loop head [] bs = []
difference_loop head (a ∷ as') [] = head ∷ as'
difference_loop head (a ∷ as') (b ∷ bs) = elim (ltb head.hi b.lo) [
  | true ↦ head ∷ difference_loop (next_range a as') as' (b ∷ bs)
  | false ↦ elim (ltb b.hi head.lo) [
    | true ↦ difference_loop a (a ∷ as') bs
    | false ↦ elim (ltb b.hi head.hi) [
      | true ↦
          keep_left head b (difference_loop (record { lo = b.hi + 1; hi = head.hi }) (a ∷ as') bs)
      | false ↦ keep_left head b (difference_loop (next_range a as') as' (b ∷ bs))
    ]
  ]
]

unfoldable pub range_difference : List Range → List Range → List Range
unfolding difference_loop
range_difference [] bs = []
range_difference (a ∷ as') [] = a ∷ as'
range_difference (a ∷ as') (b ∷ bs) = difference_loop a (a ∷ as') (b ∷ bs)

-- What the inner loop of `range_addition` leaves: `new_range`, the conflicts that it appended, and
-- the ranges behind `a_i` and `b_i`.
pub record Absorbed : Type 0 where
  pub range : Range
  pub conflict : List Range
  pub rest_a : List Range
  pub rest_b : List Range

abbrev clash : Range → Range → List Range → List Range
clash r new rest =
    if leb r.lo new.hi then record { lo = max r.lo new.lo; hi = min r.hi new.hi } ∷ rest else rest

abbrev grow : Range → Range → Range
grow r new = record { lo = new.lo; hi = max r.hi new.hi }

abbrev touches : Range → Range → Bool
touches r new = leb r.lo (new.hi + 1)

abbrev take_in : Range → Range → Absorbed → Absorbed
take_in r new found = record found { conflict = clash r new found.conflict }

abbrev stop : Range → List Range → List Range → Absorbed
stop new as' bs = record { range = new; conflict = []; rest_a = as'; rest_b = bs }

-- The inner loop.
pub absorb : List Range → List Range → Range → Absorbed
absorb [] [] new = stop new [] []
absorb [] (b ∷ bs) new = elim (touches b new) [
  | true ↦ take_in b new (absorb [] bs (grow b new))
  | false ↦ stop new [] (b ∷ bs)
]
absorb (a ∷ as') [] new = elim (touches a new) [
  | true ↦ take_in a new (absorb as' [] (grow a new))
  | false ↦ stop new (a ∷ as') []
]
absorb (a ∷ as') (b ∷ bs) new = elim (touches a new) [
  | true ↦ take_in a new (absorb as' (b ∷ bs) (grow a new))
  | false ↦ elim (touches b new) [
    | true ↦ take_in b new (absorb (a ∷ as') bs (grow b new))
    | false ↦ stop new (a ∷ as') (b ∷ bs)
  ]
]

-- `result` and `conflict`.
pub record Sum : Type 0 where
  pub result : List Range
  pub conflict : List Range

abbrev append_range : Range → Sum → Sum
append_range r later = record later { result = r ∷ later.result }

abbrev start_range : Range → Range → Range
start_range a b = record { lo = min a.lo b.lo; hi = max a.hi b.hi }

abbrev append_both : Range → Range → Absorbed → Sum → Sum
append_both a b found later = record {
  result = found.range ∷ later.result;
  conflict =
      let more = found.conflict ++ later.conflict in
      if leb (max a.lo b.lo) (min a.hi b.hi)
      then record { lo = max a.lo b.lo; hi = min a.hi b.hi } ∷ more
      else more;
}

-- The outer loop. The fuel is the number of ranges, of which every round passes one or more.
addition_loop : ℕ → List Range → List Range → Sum
unfolding absorb
addition_loop zero as' bs = record { result = []; conflict = [] }
addition_loop (suc fuel) [] [] = record { result = []; conflict = [] }
addition_loop (suc fuel) (a ∷ as') [] = append_range a (addition_loop fuel as' [])
addition_loop (suc fuel) [] (b ∷ bs) = append_range b (addition_loop fuel [] bs)
addition_loop (suc fuel) (a ∷ as') (b ∷ bs) = elim (ltb a.hi (b.lo - 1)) [
  | true ↦ append_range a (addition_loop fuel as' (b ∷ bs))
  | false ↦ elim (ltb b.hi (a.lo - 1)) [
    | true ↦ append_range b (addition_loop fuel (a ∷ as') bs)
    | false ↦
        let found = absorb as' bs (start_range a b) in
        append_both a b found (addition_loop fuel found.rest_a found.rest_b)
  ]
]

unfoldable pub range_addition : List Range → List Range → Sum
unfolding addition_loop
range_addition as' [] = record { result = as'; conflict = [] }
range_addition [] (b ∷ bs) = record { result = b ∷ bs; conflict = [] }
range_addition (a ∷ as') (b ∷ bs) =
    addition_loop (length (a ∷ as') + length (b ∷ bs)) (a ∷ as') (b ∷ bs)
