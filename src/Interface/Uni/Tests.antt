-- ===== src/Interface/Uni/Tests.antt =====
-- Small inputs of a UNI.
use kytos.Prelude.{ℕ, ◌≡◌, refl, true, false, none, some, []}
use kytos.Errors.{ok}
use kytos.Dict.{lookup}
use kytos.TagRanges.Position.{find_index_remove}
use kytos.Interface.State.{State}
use kytos.Interface.Restrict.{new_pool, is_tag_available}
use kytos.Interface.Uni.{Tag, number, is_valid}

abbrev port : State
port = record { pool = new_pool "s1:1"; notified = [] }

abbrev vlan_tag : ℕ → Tag
vlan_tag n = record { tag_type = "vlan"; value = number n }

is_valid_run :
    (is_valid (some (vlan_tag 100)) port ≡ (ok true, port))
    × (is_valid (some (vlan_tag 5000)) port ≡ (ok false, port))
    × (is_valid none port ≡ (ok true, port))
unfolding is_valid is_tag_available lookup find_index_remove
is_valid_run = (refl, refl, refl)
