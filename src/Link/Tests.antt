-- ===== src/Link/Tests.antt =====
-- Small inputs of kytos/core/link.py.
use kytos.Prelude.{
  some, none, String, ℕ, ◌≡◌, ◌<◌, refl, ◌⊎◌, true, false, not, ◌&&◌, List, [], ◌∷◌, arith,
}
use kytos.Errors.{link_creation_error, ok, err, no_tag_available}
use kytos.Dict.{lookup}
use kytos.TagRanges.Meaning.{Range, covers, within}
use kytos.Interface.Restrict.{vlan, default_vlans, new_pool}
use kytos.Link.{LinkState, get_next_available_tag, Link, Endpoint, new_link}
use kytos.Link.Endpoints.{new_link_comm}
use kytos.Ids.{InterfaceId}
use kytos.Link.Tags.{get_next_available_tag_lem, handed_out, only}

abbrev rest : List Range
rest = record { lo = 40; hi = 90 } ∷ []

abbrev trunk : LinkState
trunk = record {
  pool_a = new_pool "s1:1";
  pool_b = record (new_pool "s2:1") { available_tags = (vlan, rest) ∷ [] };
  notified = [];
}

get_next_available_tag_example :
    ((tag : ℕ) × (left_a : List Range) × (left_b : List Range) × (get_next_available_tag vlan trunk
        ≡ (ok tag, handed_out left_a left_b trunk))
      × ((covers default_vlans tag && covers rest tag) ≡ true)
      × (39 < tag → (covers default_vlans 39 && covers rest 39) ≡ false)
      × (covers left_a 39 ≡ (covers default_vlans 39 && not (within (only tag) 39)))
      × (covers left_b 39 ≡ (covers rest 39 && not (within (only tag) 39))))
    ⊎ ((get_next_available_tag vlan trunk ≡ (err no_tag_available, trunk))
        × ((covers default_vlans 39 && covers rest 39) ≡ false))
get_next_available_tag_example =
    get_next_available_tag_lem 39 trunk default_vlans rest (unfold lookup in refl)
      (unfold lookup in refl) (omega arith) (omega arith)

abbrev port_1 : Endpoint
port_1 = record { id = record { switch = "s1"; port = 1 }; enabled = true; active = true }

abbrev port_2 : Endpoint
port_2 = record { id = record { switch = "s2"; port = 1 }; enabled = true; active = false }

-- Enough for interfaces of different switches.
abbrev switch_name : InterfaceId → String
switch_name id = id.switch

abbrev plain : String → String
plain s = s

new_link_comm_example :
    (new_link plain switch_name true (some port_1) (some port_2)
      ≡ new_link plain switch_name true (some port_2) (some port_1))
    × (new_link plain switch_name true none (some port_1) ≡ err link_creation_error)
    × (new_link plain switch_name true (some port_1) none ≡ err link_creation_error)
new_link_comm_example = new_link_comm plain switch_name true port_1 port_2 (some port_1) refl

abbrev fibre : Link
fibre = record {
  id = record { digest = "d"; interfaces = (port_1.id, port_2.id) };
  endpoint_a = port_1;
  endpoint_b = port_2;
  enabled = true;
  active = true;
}
