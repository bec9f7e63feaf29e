-- ===== src/Interface/MakeAvailable.antt =====
-- `make_tags_available`, `_make_tags_available` and `_add_tags` of kytos/core/interface.py.
pub mod Effects
pub mod One
use kytos.Prelude.{
  String, Bool, true, false, ◌||◌, Option, none, some, List, [], ◌∷◌, ◌++◌, ◌==◌, if◌then◌else◌,
}
use kytos.Errors.{Named, ranges, special, tags_not_in_tag_ranges}
use kytos.Dict.{lookup}
use kytos.TagRanges.{range_difference, range_addition}
use kytos.TagRanges.Meaning.{Range}
use kytos.TagRanges.Position.{find_index_remove}
use kytos.TagRanges.Validated.{Tags, contains}
use kytos.Interface.Resize.{add_tags}
use kytos.Interface.Given.{Given, Request, tags, resolve}
use kytos.Interface.State.{Action, get_pool, lift, found, pure, throw, ◌>>=◌, ◌>>◌, not_supported}
use kytos.Interface.UseTags.{get_available, set_available, set_special_available, notify}

-- self.tag_ranges[tag_type]
abbrev pub get_ranges : String → Action (List Range)
get_ranges tag_type = do p ← get_pool; lift (found tag_type (lookup tag_type p.tag_ranges))

abbrev store_added : String → Option (List Range) → Action Bool
store_added tag_type none = pure false
store_added tag_type (some more) = set_available tag_type more >> pure true

-- `_add_tags` behind its test that no end is 0: True if the tags were added.
add_in_ranges : String → Range → Action Bool
add_in_ranges tag_type r = do
  within_ranges ← get_ranges tag_type
  p ← get_pool
  elim (find_index_remove within_ranges r) [
    | none ↦ throw (tags_not_in_tag_ranges (ranges (r ∷ [])) p.id)
    | some _ ↦ (do available ← get_available tag_type; store_added tag_type (add_tags available r))
  ]

add_range : String → Range → Action Bool
unfolding add_in_ranges
add_range tag_type r = if (r.lo == 0) || (r.hi == 0) then pure false else add_in_ranges tag_type r

unfoldable pub add_ranges : String → List Range → Action (Option Named)
add_ranges tag_type rs = do
  within_ranges ← get_ranges tag_type
  p ← get_pool
  elim (range_difference rs within_ranges) [
    | d ∷ ds ↦ throw (tags_not_in_tag_ranges (ranges (d ∷ ds)) p.id)
    | [] ↦ (do
      available ← get_available tag_type
      let sum = range_addition rs available
      set_available tag_type sum.result
      pure (some (ranges sum.conflict)))
  ]

-- The two tests of the branch for a special tag, with what they found.
abbrev return_special : String → String → List String → Bool → Action (Option Named)
return_special tag_type s available true = pure (some (special s))
return_special tag_type s available false =
    set_special_available tag_type (available ++ s ∷ []) >> pure none

abbrev allow_special : String → String → Bool → Action (Option Named)
allow_special tag_type s false = do p ← get_pool; throw (tags_not_in_tag_ranges (special s) p.id)
allow_special tag_type s true = do
  p ← get_pool
  available ← lift (found tag_type (lookup tag_type p.special_available_tags))
  return_special tag_type s available (contains s available)

add_special : String → String → Action (Option Named)
add_special tag_type s = do
  p ← get_pool
  allowed ← lift (found tag_type (lookup tag_type p.special_tags))
  allow_special tag_type s (contains s allowed)

-- `_make_tags_available`; `none` is Python's None.
make_request : Request → String → Action (Option Named)
unfolding add_ranges add_range add_special
make_request (tags (Tags.ranges rs)) tag_type = add_ranges tag_type rs
make_request (tags (Tags.range r)) tag_type = do
  done ← add_range tag_type r
  pure (if done then none else some (ranges (r ∷ [])))
make_request (Request.special s) tag_type = add_special tag_type s

-- A range of two tags or more is a list of one range.
abbrev pub as_list : Request → Request
as_list (tags (Tags.range r)) =
    if r.lo == r.hi then tags (Tags.range r) else tags (Tags.ranges (r ∷ []))
as_list (tags (Tags.ranges rs)) = tags (Tags.ranges rs)
as_list (Request.special s) = Request.special s

unfoldable pub make_tags_available : Given → String → Action (Option Named)
unfolding make_request
make_tags_available given tag_type = do
  request ← lift (resolve given)
  conflict ← not_supported (make_request (as_list request) tag_type)
  notify
  pure conflict
