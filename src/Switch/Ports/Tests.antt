-- ===== src/Switch/Ports/Tests.antt =====
-- Small inputs of the interfaces of a switch.
use kytos.Prelude.{ℕ, ◌≡◌, ◌⊎◌, Bool, true, some, none, [], ◌∷◌, ◌==◌, ltb, if◌then◌else◌}
use kytos.Switch.Ports.{Port, Given, Ports, get_interface_by_port_no, update_or_create_interface}
use kytos.Switch.Ports.Stored.{IsNew, IsUpdate, update_or_create_interface_lem}

-- Numbers are true unless they are 0.
abbrev truthy : ℕ → Bool
truthy n = ltb 0 n

abbrev given : Given ℕ
given = record {
  name = some 7;
  address = none;
  state = some 0;
  features = none;
  speed = some 100;
  config = none;
}

abbrev old : Port ℕ
old = record {
  port_number = 1;
  name = some 3;
  address = some 4;
  state = some 5;
  features = none;
  config = some 6;
  custom_speed = none;
  enabled = true;
}

abbrev ports : Ports ℕ
ports = record { interfaces = (1, old) ∷ []; enabled = true }

update_or_create_interface_example :
    (get_interface_by_port_no 2 (update_or_create_interface truthy true 1 given ports).1 ≡ (
      if 2 == 1
      then some (update_or_create_interface truthy true 1 given ports).0
      else get_interface_by_port_no 2 ports))
    × (((get_interface_by_port_no 1 ports ≡ none)
          × IsNew truthy true 1 given (update_or_create_interface truthy true 1 given ports).0)
        ⊎ ((p : Port ℕ) × (get_interface_by_port_no 1 ports ≡ some p)
            × IsUpdate truthy true given p
                (update_or_create_interface truthy true 1 given ports).0))
update_or_create_interface_example = update_or_create_interface_lem truthy true 1 2 given ports
