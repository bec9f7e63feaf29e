-- ===== src/Switch.antt =====
-- kytos/core/switch.py: whether a switch is connected, the flood table, the table of MAC
-- addresses and the interfaces of a switch.
pub mod Connection
pub mod Ports
mod Tests
use Prim.Native.Nat.{◌*◌}
use kytos.Prelude.{
  ℕ, ◌+◌, String, Bool, true, false, ◌&&◌, ◌||◌, Option, none, some, List, [], ◌∷◌, ◌++◌, map, ltb,
  leb, ◌==◌, if◌then◌else◌,
}
use kytos.Errors.{Result, ok, err, type_error, key_error}
use kytos.Clock.{seconds, microseconds}
use kytos.Dict.{Dict, lookup, insert, delete, has_key}
use kytos.Entity.{Entity, disable}

-- What `Connection` says of its socket.
pub record Socket : Type 0 where
  pub alive : Bool
  pub established : Bool

abbrev pub flood_timeout : ℕ
flood_timeout = 100000

-- `mac2port` maps an address to a set of ports; `flood_table` maps the hash of a frame to the time
-- of its last flood.
pub record Switch : Type 0 where
  pub dpid : String
  pub connection : Option Socket
  pub lastseen : ℕ
  pub mac2port : Dict (List ℕ)
  pub flood_table : Dict ℕ

-- `connection_timeout` is set in the module of constants from an option of the daemon;
-- `since` is how long ago the switch was last seen, in seconds.
abbrev pub answers : ℕ → ℕ → Option Socket → Bool
answers connection_timeout since none = false
answers connection_timeout since (some c) =
    c.alive && (c.established && leb since connection_timeout)

unfoldable pub is_connected : ℕ → ℕ → Switch → Bool
is_connected connection_timeout now s =
    answers connection_timeout (seconds now s.lastseen) s.connection

unfoldable pub update_lastseen : ℕ → Switch → Switch
update_lastseen now s = record s { lastseen = now }

unfoldable pub update_connection : Socket → Switch → Switch
update_connection c s = record s { connection = some c }

unfoldable pub last_flood : String → Switch → Option ℕ
last_flood frame_hash s = lookup frame_hash s.flood_table

-- `now() - None` raises before the test for None is made.
abbrev pub long_ago : ℕ → Option ℕ → Result Bool
long_ago now none = err type_error
long_ago now (some last) = ok (ltb flood_timeout (microseconds now last))

unfoldable pub should_flood : ℕ → String → Switch → Result Bool
unfolding last_flood
should_flood now frame_hash s = long_ago now (last_flood frame_hash s)

unfoldable pub update_flood_table : ℕ → String → Switch → Switch
update_flood_table now frame_hash s = record s { flood_table = insert frame_hash now s.flood_table }

unfoldable pub contains_port : ℕ → List ℕ → Bool
contains_port p [] = false
contains_port p (q ∷ qs) = (q == p) || contains_port p qs

-- A set of ports is a list without repetition.
unfoldable pub add_port : ℕ → List ℕ → List ℕ
unfolding contains_port
add_port p ports = if contains_port p ports then ports else ports ++ p ∷ []

unfoldable pub update_mac_table : String → ℕ → Switch → Switch
unfolding add_port
update_mac_table mac port s = elim (lookup mac s.mac2port) [
  | some ports ↦ record s { mac2port = insert mac (add_port port ports) s.mac2port }
  | none ↦ record s { mac2port = insert mac (port ∷ []) s.mac2port }
]

unfoldable pub where_is_mac : String → Switch → Option (List ℕ)
where_is_mac mac s = lookup mac s.mac2port
