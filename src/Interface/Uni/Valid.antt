-- ===== src/Interface/Uni/Valid.antt =====
-- Which UNIs are valid.
use kytos.Prelude.{ℕ, ◌≡◌, refl, Bool, true, Option, none, some, List}
use kytos.Errors.{ok}
use kytos.Dict.{lookup}
use kytos.TagRanges.Meaning.{Range, From, covers}
use kytos.Interface.State.{State}
use kytos.Interface.Restrict.{vlan}
use kytos.Interface.Restrict.Effects.{is_tag_available_lem}
use kytos.Interface.Uni.{
  TagValue, word, number, ranges, Tag, is_valid, is_valid_value, is_reserved_valid_tag,
}

-- What a UNI may have, by the set of available VLANs.
abbrev pub allowed_value : List Range → TagValue → Bool
allowed_value available (word w) = is_reserved_valid_tag w
allowed_value available (number t) = covers available t
allowed_value available (ranges rs) = true

abbrev pub allowed : List Range → Option Tag → Bool
allowed available none = true
allowed available (some tag) = allowed_value available tag.value

is_valid_value-allowed :
    (n : ℕ) (value : TagValue) (s : State) (available : List Range)
    → lookup vlan s.pool.available_tags ≡ some available
    → From n available
    → is_valid_value value s ≡ (ok (allowed_value available value), s)
unfolding is_valid_value
is_valid_value-allowed n (word w) s available h v = refl
is_valid_value-allowed n (number t) s available h v = is_tag_available_lem t n vlan s available h v
is_valid_value-allowed n (ranges rs) s available h v = refl

-- On an interface with an ordered list of available VLANs, a UNI is valid exactly if it has no tag,
-- one of the two reserved words, a VLAN that is available, whatever its tag type, or any ranges; to
-- ask changes nothing.
pub is_valid_lem :
    (n : ℕ) (user_tag : Option Tag) (s : State) (available : List Range)
    → lookup vlan s.pool.available_tags ≡ some available
    → From n available
    → is_valid user_tag s ≡ (ok (allowed available user_tag), s)
unfolding is_valid
is_valid_lem n none s available h v = refl
is_valid_lem n (some tag) s available h v = is_valid_value-allowed n tag.value s available h v
