-- ===== src/Switch/Ports.antt =====
-- kytos/core/switch.py: the interfaces of a switch by port number. An interface is kept with what
-- these methods read and write of it; `V` is the type of these values, `truthy` is Python's truth of
-- a value, and `none` is a value that was left out.
pub mod Stored
mod Tests
use kytos.Prelude.{
  ℕ, String, Bool, true, false, Option, none, some, List, [], ◌∷◌, map, ◌==◌, if◌then◌else◌,
}

pub record Port (V : Type 0) : Type 0 where
  pub port_number : ℕ
  pub name : Option V
  pub address : Option V
  pub state : Option V
  pub features : Option V
  pub config : Option V
  pub custom_speed : Option V
  pub enabled : Bool

-- What is given in a call, besides the port number.
pub record Given (V : Type 0) : Type 0 where
  pub name : Option V
  pub address : Option V
  pub state : Option V
  pub features : Option V
  pub speed : Option V
  pub config : Option V

pub record Ports (V : Type 0) : Type 0 where
  pub interfaces : List (ℕ × Port V)
  pub enabled : Bool

module _ {V : Type 0} where
  unfoldable pub find_port : ℕ → List (ℕ × Port V) → Option (Port V)
  find_port n [] = none
  find_port n ((m, p) ∷ rest) = if n == m then some p else find_port n rest

  unfoldable pub put_port : ℕ → Port V → List (ℕ × Port V) → List (ℕ × Port V)
  put_port n p [] = (n, p) ∷ []
  put_port n p ((m, q) ∷ rest) = if n == m then (m, p) ∷ rest else (m, q) ∷ put_port n p rest

  unfoldable pub get_interface_by_port_no : ℕ → Ports V → Option (Port V)
  get_interface_by_port_no port_no s = find_port port_no s.interfaces

  unfoldable pub update_interface : Port V → Ports V → Ports V
  update_interface p s = record s { interfaces = put_port p.port_number p s.interfaces }

  unfoldable pub delete_port : ℕ → List (ℕ × Port V) → List (ℕ × Port V)
  delete_port n [] = []
  delete_port n ((m, p) ∷ rest) = if n == m then rest else (m, p) ∷ delete_port n rest

  -- `none` is the KeyError for a number that is not there.
  unfoldable pub remove_interface : Port V → Ports V → Option (Ports V)
  unfolding find_port delete_port
  remove_interface p s = elim (find_port p.port_number s.interfaces) [
    | none ↦ none
    | some _ ↦ some (record s { interfaces = delete_port p.port_number s.interfaces })
  ]

  abbrev pub disable_port : ℕ × Port V → ℕ × Port V
  disable_port (n, p) = (n, record p { enabled = false })

  unfoldable pub disable_switch : Ports V → Ports V
  disable_switch s = record { interfaces = map disable_port s.interfaces; enabled = false }

module _ {V : Type 0} (truthy : V → Bool) (enabled_by_default : Bool) where
  -- new or old
  abbrev pub or_old : Option V → Option V → Option V
  or_old none old = old
  or_old (some v) old = if truthy v then some v else old

  abbrev pub renewed : Given V → Port V → Port V
  renewed g p = record p {
    name = or_old g.name p.name;
    address = or_old g.address p.address;
    state = or_old g.state p.state;
    features = or_old g.features p.features;
    config = g.config;
    custom_speed = or_old g.speed p.custom_speed;
  }

  abbrev pub new_port : ℕ → Given V → Port V
  new_port port_no g = record {
    port_number = port_no;
    name = g.name;
    address = g.address;
    state = g.state;
    features = g.features;
    config = g.config;
    custom_speed = g.speed;
    enabled = enabled_by_default;
  }

  -- An interface that is there is changed where it stands.
  abbrev update_found : ℕ → Given V → Ports V → Option (Port V) → Port V × Ports V
  update_found port_no g s (some p) =
      (renewed g p, record s { interfaces = put_port port_no (renewed g p) s.interfaces })
  update_found port_no g s none = (new_port port_no g, update_interface (new_port port_no g) s)

  unfoldable pub update_or_create_interface : ℕ → Given V → Ports V → Port V × Ports V
  unfolding get_interface_by_port_no update_interface
  update_or_create_interface port_no g s =
      update_found port_no g s (get_interface_by_port_no port_no s)
