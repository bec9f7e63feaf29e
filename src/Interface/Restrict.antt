-- ===== src/Interface/Restrict.antt =====
-- The tag restrictions of kytos/core/interface.py: `set_tag_ranges`, `remove_tag_ranges`,
-- `set_special_tags`, `set_available_tags_tag_ranges`, `all_tags_available`, `is_tag_available`, and
-- the state that `__init__` leaves.
pub mod Effects
use kytos.Prelude.{
  ℕ, String, Bool, true, false, not, ◌&&◌, none, some, List, [], ◌∷◌, ◌==◌, str_eq, if◌then◌else◌,
}
use kytos.Errors.{Result, ok, err, tagtype_not_supported, set_tag_range_error, key_error}
use kytos.Dict.{Dict, lookup, insert, equal_dicts}
use kytos.TagRanges.{range_difference}
use kytos.TagRanges.Meaning.{Range}
use kytos.TagRanges.Position.{find_index_remove}
use kytos.TagRanges.Validated.{contains, discard, get_special_tags}
use kytos.Interface.State.{
  TagPool, Action, get_pool, set_pool, lift, found, pure, throw, when, ◌>>=◌, ◌>>◌,
}
use kytos.Interface.UseTags.{get_available, set_available}
use kytos.Interface.MakeAvailable.{get_ranges}

abbrev pub vlan : String
vlan = "vlan"

-- default_tag_values['vlan']
abbrev pub default_vlans : List Range
default_vlans = record { lo = 1; hi = 4095 } ∷ []

abbrev pub default_special_tags : List String
default_special_tags = "untagged" ∷ "any" ∷ []

abbrev pub new_pool : String → TagPool
new_pool id = record {
  id = id;
  available_tags = (vlan, default_vlans) ∷ [];
  tag_ranges = (vlan, default_vlans) ∷ [];
  special_available_tags = (vlan, default_special_tags) ∷ [];
  special_tags = (vlan, default_special_tags) ∷ [];
}

-- if tag_type != TAGType.VLAN.value: raise
abbrev pub vlan_only : String → Action Unit
vlan_only tag_type = when (not (str_eq tag_type vlan)) (throw (tagtype_not_supported tag_type))

abbrev pub set_ranges : String → List Range → Action Unit
set_ranges tag_type rs = do
  p ← get_pool
  set_pool (record p { tag_ranges = insert tag_type rs p.tag_ranges })

abbrev pub is_nil {ℓ} : {A : Type ℓ} → List A → Bool
is_nil [] = true
is_nil (x ∷ xs) = false

unfoldable pub set_tag_ranges : List Range → String → Action Unit
set_tag_ranges tag_ranges tag_type = do
  vlan_only tag_type
  old ← get_ranges tag_type
  available ← get_available tag_type
  let used_tags = range_difference old available
  let missing = range_difference used_tags tag_ranges
  when (not (is_nil missing)) (throw set_tag_range_error)
  set_available tag_type (range_difference tag_ranges used_tags)
  set_ranges tag_type tag_ranges

unfoldable pub remove_tag_ranges : String → Action Unit
remove_tag_ranges tag_type = do
  vlan_only tag_type
  old ← get_ranges tag_type
  available ← get_available tag_type
  let used_tags = range_difference old available
  set_available tag_type (range_difference default_vlans used_tags)
  set_ranges tag_type default_vlans

-- for tag in tags: s.discard(tag)
unfoldable pub discard_each : List String → List String → List String
discard_each [] s = s
discard_each (tag ∷ tags) s = discard_each tags (discard tag s)

-- for tag in tags: s.remove(tag)
unfoldable pub remove_all : List String → List String → Result (List String)
remove_all [] s = ok s
remove_all (tag ∷ tags) s =
    let rest = remove_all tags (discard tag s) in
    if contains tag s then rest else err (key_error tag)

-- `list(set)` has no fixed order; here the new list is in the order of `special_tags`.
unfoldable pub set_special_tags : String → List String → Action Unit
unfolding discard_each remove_all
set_special_tags tag_type special_tags = do
  tag_range ← lift (get_special_tags special_tags default_special_tags)
  vlan_only tag_type
  p ← get_pool
  old ← lift (found tag_type (lookup tag_type p.special_tags))
  available ← lift (found tag_type (lookup tag_type p.special_available_tags))
  used ← lift (remove_all available old)
  when (not (is_nil (discard_each tag_range used))) (throw set_tag_range_error)
  set_pool (record p {
    special_available_tags = insert tag_type (discard_each used tag_range) p.special_available_tags;
    special_tags = insert tag_type tag_range p.special_tags;
  })

unfoldable pub set_available_tags_tag_ranges :
    Dict (List Range) → Dict (List Range) → Dict (List String) → Dict (List String) → Action Unit
set_available_tags_tag_ranges available ranges special_available special = do
  p ← get_pool
  set_pool (record p {
    available_tags = available;
    tag_ranges = ranges;
    special_available_tags = special_available;
    special_tags = special;
  })

-- Lists are equal if their elements are, in order.
unfoldable pub equal_ranges : List Range → List Range → Bool
equal_ranges [] [] = true
equal_ranges (r ∷ rs) (s ∷ ss) = (r.lo == s.lo) && ((r.hi == s.hi) && equal_ranges rs ss)
equal_ranges _ _ = false

unfoldable pub equal_texts : List String → List String → Bool
equal_texts [] [] = true
equal_texts (x ∷ xs) (y ∷ ys) = str_eq x y && equal_texts xs ys
equal_texts _ _ = false

unfoldable pub all_tags_available : TagPool → Bool
unfolding equal_ranges equal_texts
all_tags_available p =
    equal_dicts equal_ranges p.available_tags p.tag_ranges
    && equal_dicts equal_texts p.special_available_tags p.special_tags

unfoldable pub is_tag_available : ℕ → String → Action Bool
is_tag_available tag tag_type = do
  available ← get_available tag_type
  pure (elim (find_index_remove available (record { lo = tag; hi = tag })) as (λ _. Bool) [
    | none ↦ false
    | some _ ↦ true
  ])
