-- ===== src/Interface/Uni.antt =====
-- `TAG`, `TAGRange` and `UNI` of kytos/core/interface.py. The interface of a UNI is the state that
-- its methods act on.
pub mod Valid
mod Tests
use kytos.Prelude.{
  ℕ, String, Bool, true, false, ◌||◌, Option, none, some, List, str_eq, if◌then◌else◌,
}
use kytos.Errors.{Result, ok, err, value_error}
use kytos.TagRanges.Meaning.{Range}
use kytos.Interface.State.{Action, pure}
use kytos.Interface.Restrict.{vlan, is_tag_available}

-- str, int, or the list of ranges of a `TAGRange`
pub data TagValue : Type 0 where
  word : String → TagValue
  number : ℕ → TagValue
  ranges : List Range → TagValue

pub record Tag : Type 0 where
  pub tag_type : String
  pub value : TagValue

-- TAGType(tag_type).value
unfoldable pub new_tag : String → TagValue → Result Tag
new_tag tag_type value =
    if str_eq tag_type vlan || (str_eq tag_type "vlan_qinq" || str_eq tag_type "mpls")
    then ok (record { tag_type = tag_type; value = value })
    else err value_error

unfoldable pub is_reserved_valid_tag : String → Bool
is_reserved_valid_tag tag = str_eq tag "any" || str_eq tag "untagged"

unfoldable pub is_valid_value : TagValue → Action Bool
is_valid_value (word tag) = pure (is_reserved_valid_tag tag)
is_valid_value (number tag) = is_tag_available tag vlan
is_valid_value (ranges tag) = pure true

unfoldable pub is_valid : Option Tag → Action Bool
unfolding is_valid_value
is_valid none = pure true
is_valid (some user_tag) = is_valid_value user_tag.value
