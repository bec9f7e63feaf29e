-- ===== src/Interface/Tests.antt =====
-- Small inputs of kytos/core/interface.py.
use kytos.Prelude.{ℕ, ◌≡◌, refl, ◌⊎◌, true, false, not, ◌&&◌, ◌||◌, some, List, [], ◌∷◌, arith}
use kytos.Errors.{Named, ok, err, tags_not_in_tag_ranges, set_tag_range_error}
use kytos.Dict.{lookup, insert}
use kytos.TagRanges.Meaning.{Range, covers, From}
use kytos.TagRanges.Validated.{tag, listed, Tags}
use kytos.Interface.State.{State}
use kytos.Interface.Given.{Given, raw, resolve, tags}
use kytos.Interface.Restrict.{new_pool, vlan, default_vlans, set_tag_ranges}
use kytos.Interface.Restrict.Effects.{set_tag_ranges_lem, in_use, restricted, new_available}
use kytos.Interface.UseTags.Taken.{with_available}
use kytos.Interface.UseTags.Effects.{announced}
use kytos.Interface.MakeAvailable.{make_tags_available}
use kytos.Interface.MakeAvailable.Effects.{make_tags_available_lem}

abbrev port : State
port = record { pool = new_pool "s1:1"; notified = [] }

abbrev two_ranges : Given
two_ranges = raw (listed 10 20 ∷ tag 30 ∷ [])

abbrev wanted : List Range
wanted = record { lo = 10; hi = 20 } ∷ record { lo = 30; hi = 30 } ∷ []

resolve-two_ranges : resolve two_ranges ≡ ok (tags (Tags.ranges wanted))
unfolding resolve
resolve-two_ranges = refl

abbrev held : List Range
held = record { lo = 1; hi = 25 } ∷ []

-- The port with the tags 26 to 4095 in use.
abbrev used_port : State
used_port = with_available vlan held port

available_tags_run : lookup vlan used_port.pool.available_tags ≡ some held
unfolding lookup insert
available_tags_run = refl

make_tags_available_example :
    ((more : List Range) × (conflict : List Range) × (make_tags_available two_ranges vlan used_port
        ≡ (ok (some (Named.ranges conflict)), announced (with_available vlan more used_port)))
      × From 1 more
      × (covers more 30 ≡ (covers wanted 30 || covers held 30))
      × (covers conflict 30 ≡ (covers wanted 30 && covers held 30))
      × (covers wanted 30 ≡ true → covers default_vlans 30 ≡ true))
    ⊎ ((outside : List Range) × (u : ℕ) × (make_tags_available two_ranges vlan used_port
          ≡ (err (tags_not_in_tag_ranges (Named.ranges outside) "s1:1"), used_port))
        × (covers outside 30 ≡ (covers wanted 30 && not (covers default_vlans 30)))
        × (covers wanted u ≡ true)
        × (covers default_vlans u ≡ false))
make_tags_available_example =
    make_tags_available_lem 30 two_ranges vlan used_port (tags (Tags.ranges wanted)) wanted
      default_vlans held resolve-two_ranges refl (unfold lookup in refl) available_tags_run
      (omega arith) (omega arith) (omega arith)

abbrev upper : List Range
upper = record { lo = 20; hi = 4095 } ∷ []

set_tag_ranges_example :
    ((set_tag_ranges upper vlan used_port
        ≡ (ok tt, restricted vlan upper (new_available default_vlans held upper) used_port))
      × From 1 (new_available default_vlans held upper)
      × (in_use upper (new_available default_vlans held upper) 30 ≡ in_use default_vlans held 30))
    ⊎ ((u : ℕ) × (in_use default_vlans held u ≡ true)
        × (covers upper u ≡ false)
        × (set_tag_ranges upper vlan used_port ≡ (err set_tag_range_error, used_port)))
set_tag_ranges_example =
    set_tag_ranges_lem 30 1 upper default_vlans held used_port (unfold lookup in refl)
      available_tags_run (omega arith) (omega arith) (omega arith)
