-- ===== src/Interface/UseTags.antt =====
-- `use_tags` and `_use_tags` of kytos/core/interface.py.
pub mod Taken
pub mod Effects
use kytos.Prelude.{
  String, Bool, true, false, Option, none, some, List, [], ◌∷◌, ◌++◌, str_eq, if◌then◌else◌,
}
use kytos.Errors.{ranges, special, ok, tags_not_available}
use kytos.Dict.{lookup, insert}
use kytos.TagRanges.{range_difference}
use kytos.TagRanges.Meaning.{Range}
use kytos.TagRanges.Validated.{Tags}
use kytos.Interface.Resize.{remove_tags}
use kytos.Interface.Given.{Given, Request, tags, resolve}
use kytos.Interface.State.{
  Action, get_pool, set_pool, lift, found, pure, throw, ◌>>=◌, ◌>>◌, not_supported,
}

-- self.available_tags[tag_type] = rs
abbrev pub set_available : String → List Range → Action Unit
set_available tag_type rs = do
  p ← get_pool
  set_pool (record p { available_tags = insert tag_type rs p.available_tags })

abbrev pub set_special_available : String → List String → Action Unit
set_special_available tag_type specials = do
  p ← get_pool
  set_pool (record p { special_available_tags = insert tag_type specials p.special_available_tags })

-- self.available_tags[tag_type]
abbrev pub get_available : String → Action (List Range)
get_available tag_type = do p ← get_pool; lift (found tag_type (lookup tag_type p.available_tags))

-- `_remove_tags`: True if the tags were there, and then they are gone.
abbrev remove_range : String → Range → Action Bool
remove_range tag_type r = do
  available ← get_available tag_type
  elim (remove_tags available r) [
    | none ↦ pure false
    | some left ↦ set_available tag_type left >> pure true
  ]

-- The removal failed: what was removed is put back.
abbrev put_back : String → List Range → List Range → Action Unit
put_back tag_type copy given = do
  set_available tag_type copy
  p ← get_pool
  throw (tags_not_available (ranges (range_difference given copy)) p.id)

abbrev go_on : Bool → Action Unit → Action Unit → Action Unit
go_on true next stop = next
go_on false next stop = stop

-- The loop of `_use_tags` over a list of ranges.
remove_each : String → List Range → List Range → List Range → Action Unit
remove_each tag_type copy given [] = pure tt
remove_each tag_type copy given (r ∷ rs) = do
  done ← remove_range tag_type r
  go_on done (remove_each tag_type copy given rs) (put_back tag_type copy given)

-- xs.remove(x), with the ValueError as `none`
unfoldable pub remove_first : String → List String → Option (List String)
remove_first x [] = none
remove_first x (y ∷ ys) =
    let rest = elim (remove_first x ys) as (λ _. Option (List String)) [
      | none ↦ none
      | some zs ↦ some (y ∷ zs)
    ] in
    if str_eq y x then some ys else rest

abbrev put_special : String → String → Option (List String) → Action Unit
put_special tag_type s none = do p ← get_pool; throw (tags_not_available (special s) p.id)
put_special tag_type s (some left) = set_special_available tag_type left

remove_special : String → String → Action Unit
remove_special tag_type s = do
  p ← get_pool
  specials ← lift (found tag_type (lookup tag_type p.special_available_tags))
  put_special tag_type s (remove_first s specials)

-- `_use_tags`
unfoldable pub use_request : Request → String → Action Unit
unfolding remove_each remove_special
use_request (tags (Tags.ranges rs)) tag_type = do
  copy ← get_available tag_type
  remove_each tag_type copy rs rs
use_request (tags (Tags.range r)) tag_type = do
  done ← remove_range tag_type r
  p ← get_pool
  go_on done (pure tt) (throw (tags_not_available (ranges (r ∷ [])) p.id))
use_request (Request.special s) tag_type = remove_special tag_type s

-- `_notify_interface_tags`
abbrev pub notify : Action Unit
notify s = (ok tt, record s { notified = s.notified ++ s.pool.id ∷ [] })

unfoldable pub use_tags : Given → String → Action Unit
unfolding use_request
use_tags given tag_type = do
  request ← lift (resolve given)
  not_supported (use_request request tag_type)
  notify
