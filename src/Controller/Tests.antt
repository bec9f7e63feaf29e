-- ===== src/Controller/Tests.antt =====
-- Concrete runs of kytos/core/controller.py.
use Prim.Native.Char.{Char, code}
use Prim.Native.String.{[] as empty, ◌∷◌ as cons}
use mathlib.Core.List.{[] as nil}
use Prim.Native.Nat.{◌*◌}
use kytos.Prelude.{
  ℕ, ◌≡◌, refl, String, Bool, true, false, ◌&&◌, Option, none, some, ◌+◌, ◌-◌, leb, if◌then◌else◌,
  ◌++◌, ◌∷◌, ◌⊎◌, ◌==◌,
}
use kytos.Errors.{ok, err, Errno, attribute_error}
use kytos.Dict.{Dict, lookup, insert}
use kytos.Events.{ℤ, pos}
use kytos.Switch.Ports.{Port, Ports, put_port, get_interface_by_port_no}
use kytos.Table.{find, number_eq, text_eq, pair_eq}
use kytos.Connection.{Connection, new_connection_object, is_alive, close}
use kytos.Controller.Switches.{
  Controller, id_of, create_or_update_connection, get_connection_by_id, new_connection,
  get_switch_or_create, get_switch_by_dpid,
}
use kytos.Controller.Switches.NewConnection.{new_connection_lem}
use kytos.Controller.Switches.Reconnect.{get_switch_or_create_lem, same_id}
use kytos.Controller.Lookup.{get_interface_by_id, split_last}
use kytos.Controller.Lookup.ById.{interface_id, get_interface_by_id_lem}

-- Numbers stand for transports; to close one adds a hundred to it.
abbrev closing : ℕ → ℕ × Option Errno
closing t = (t + 100, none)

abbrev open_connection : ℕ → Connection ℕ
open_connection r = new_connection_object "10.0.0.1" 6653 (some r)

abbrev no_connections : Controller ℕ
no_connections = record {
  objects = open_connection;
  connections = nil;
  switches = nil;
  announced = nil;
}

new_connection_example :
    (new_connection closing 1 no_connections
      ≡ (ok tt, create_or_update_connection 1 no_connections))
    × (get_connection_by_id (id_of 1 no_connections) (create_or_update_connection 1 no_connections)
        ≡ some 1)
    × (new_connection closing 2 (create_or_update_connection 1 no_connections)
        ≡ (err attribute_error, create_or_update_connection 1 no_connections))
unfolding get_connection_by_id find new_connection_object
new_connection_example = new_connection_lem closing 1 2 no_connections refl refl

-- The first connection is registered and the switch has it.
abbrev one_switch : Controller ℕ
one_switch = record no_connections {
  connections = (("10.0.0.1", 6653), 1) ∷ nil;
  switches = ("00:01", some 1) ∷ nil;
}

get_switch_or_create_example :
    (s' : Controller ℕ) × (get_switch_or_create closing "00:01" (some 2) one_switch ≡ (ok tt, s'))
    × (s'.announced ≡ nil ++ ("kytos/core.switch.reconnected", "00:01") ∷ nil)
    × (get_switch_by_dpid "00:01" s' ≡ some (some 2))
    × (is_alive (s'.objects 1) ≡ false)
    × (get_connection_by_id (id_of 2 one_switch) s'
        ≡ (if same_id (id_of 1 one_switch) (id_of 2 one_switch) then none else some 2))
unfolding find lookup close new_connection_object
get_switch_or_create_example =
    get_switch_or_create_lem closing "00:01" 1 2 one_switch refl refl refl refl

-- Decimals, for the parameter.
abbrev with_digit : Bool → Char → Option ℕ → Option ℕ
with_digit true c (some n) = some (10 * n + (code c - 48))
with_digit _ c _ = none

abbrev decimals : String → Option ℕ → Option ℕ
decimals empty n = n
decimals (cons c text) n = decimals text (with_digit (leb 48 (code c) && leb (code c) 57) c n)

abbrev as_pos : Option ℕ → Option ℤ
as_pos none = none
as_pos (some n) = some (pos n)

abbrev to_int : String → Option ℤ
to_int text = as_pos (decimals text (some 0))

abbrev port_12 : Port ℕ
port_12 = record {
  port_number = 12;
  name = some 3;
  address = none;
  state = none;
  features = none;
  config = none;
  custom_speed = none;
  enabled = true;
}

abbrev one_port : Ports ℕ
one_port = record { interfaces = (12, port_12) ∷ nil; enabled = true }

abbrev switches : Dict (Ports ℕ)
switches = ("00:00:00:01", one_port) ∷ nil

get_interface_by_id_example :
    ((lookup "00:00:00:01" switches ≡ none)
      × (get_interface_by_id to_int switches (some (interface_id "00:00:00:01" "12")) ≡ ok none))
    ⊎ ((ports : Ports ℕ) × (lookup "00:00:00:01" switches ≡ some ports)
        × (get_interface_by_id to_int switches (some (interface_id "00:00:00:01" "12"))
            ≡ ok (get_interface_by_port_no 12 ports))
        × ((n : ℕ) (p : Port ℕ)
            → get_interface_by_id to_int
                (insert "00:00:00:01"
                  (record ports { interfaces = put_port n p ports.interfaces })
                  switches)
                (some (interface_id "00:00:00:01" "12"))
              ≡ ok (if 12 == n then some p else get_interface_by_port_no 12 ports)))
unfolding split_last
get_interface_by_id_example =
    get_interface_by_id_lem to_int switches "00:00:00:01" "12" 12 refl refl
