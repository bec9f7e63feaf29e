-- ===== src/Interface/Resize.antt =====
-- How `_remove_tags` and `_add_tags` of kytos/core/interface.py resize the list of available tags.
-- Both change `self.available_tags[tag_type]` alone, so here they take and return that list.
pub mod Removal
pub mod Insertion
use kytos.Prelude.{
  ℕ, zero, suc, ◌+◌, ◌-◌, Bool, ◌&&◌, ◌||◌, Option, none, some, List, [], ◌∷◌, ◌==◌, if◌then◌else◌,
  length, get_elem?, set, splice, pop, insert_at,
}
use kytos.TagRanges.Meaning.{Range}
use kytos.TagRanges.Position.{find_index_remove, find_index_add}

-- What is left of the range `r` at the index.
abbrev resize_range : List Range → Range → ℕ → Range → List Range
resize_range available tags index r =
    if tags.lo == r.lo
    then (if tags.hi == r.hi
        then pop available index
        else set available index (record r { lo = tags.hi + 1 }))
    else if tags.hi == r.hi
    then set available index (record r { hi = tags.lo - 1 })
    else splice available index
        (record { lo = r.lo; hi = tags.lo - 1 } ∷ record { lo = tags.hi + 1; hi = r.hi } ∷ [])

pub resize : List Range → Range → ℕ → List Range
resize available tags index = elim (get_elem? available index) [
  | none ↦ available
  | some r ↦ resize_range available tags index r
]

-- `_remove_tags`; `none` where it returns False.
unfoldable pub remove_tags : List Range → Range → Option (List Range)
unfolding resize
remove_tags [] tags = none
remove_tags (r ∷ rs) tags = elim (find_index_remove (r ∷ rs) tags) [
  | none ↦ none
  | some index ↦ some (resize (r ∷ rs) tags index)
]

abbrev at_start : List Range → Range → Range → List Range
at_start available tags r =
    if tags.hi == (r.lo - 1)
    then set available 0 (record r { lo = tags.lo })
    else insert_at available 0 tags

-- available.append(tags) is an insertion at the end.
abbrev at_end : List Range → Range → ℕ → Range → List Range
at_end available tags index l =
    if (l.hi + 1) == tags.lo
    then set available (index - 1) (record l { hi = tags.hi })
    else insert_at available index tags

abbrev between : List Range → Range → ℕ → Range → Range → List Range
between available tags index l r =
    if ((l.hi + 1) == tags.lo) && ((r.lo - 1) == tags.hi)
    then pop (set available (index - 1) (record { lo = l.lo; hi = r.hi })) index
    else if (l.hi + 1) == tags.lo
    then set available (index - 1) (record l { hi = tags.hi })
    else if (r.lo - 1) == tags.hi
    then set available index (record r { lo = tags.lo })
    else insert_at available index tags

-- The neighbours of the index: the range in front of it, and the range at it.
enlarge : List Range → Range → ℕ → List Range
enlarge available tags zero = elim (get_elem? available 0) [
  | none ↦ available
  | some r ↦ at_start available tags r
]
enlarge available tags (suc i) = elim (get_elem? available i) [
  | none ↦ available
  | some l ↦ elim (get_elem? available (suc i)) [
    | none ↦ at_end available tags (suc i) l
    | some r ↦ between available tags (suc i) l r
  ]
]

-- `_add_tags` behind its first two checks; `none` where it returns False.
unfoldable pub add_tags : List Range → Range → Option (List Range)
unfolding enlarge
add_tags [] tags = some (tags ∷ [])
add_tags (r ∷ rs) tags = elim (find_index_add (r ∷ rs) tags) [
  | none ↦ none
  | some index ↦ some (enlarge (r ∷ rs) tags index)
]
