-- ===== src/Controller/Lookup.antt =====
-- kytos/core/controller.py: `get_interface_by_id`. What `int` makes of a text is a parameter; `none`
-- is its ValueError.
pub mod ById
use Prim.Native.Char.{Char, code}
use Prim.Native.String.{String, [], ◌∷◌, ◌++◌}
use kytos.Prelude.{ℕ, Bool, true, false, Option, none, some, ◌==◌, if◌then◌else◌}
use kytos.Dict.{Dict, lookup}
use kytos.Events.{ℤ, pos, negsuc}
use kytos.Switch.Ports.{Port, Ports, find_port}
use kytos.Errors.{Result, ok, err, value_error}

-- The parts in front of the last colon and behind it; `none` if there is no colon.
abbrev at_colon : Char → String → Option (String × String) → Option (String × String)
at_colon c rest none = if code c == 58 then some ([], rest) else none
at_colon c rest (some (front, back)) = some (c ∷ front, back)

unfoldable pub split_last : String → Option (String × String)
split_last [] = none
split_last (c ∷ rest) = at_colon c rest (split_last rest)

-- ":".join(parts[:-1]) and parts[-1]
abbrev parts : String → Option (String × String) → String × String
parts text none = ([], text)
parts text (some found) = found

-- The switches by their ids, with the interfaces of each by port number; `to_int` is `int`.
module _ {V : Type 0} (to_int : String → Option ℤ) (switches : Dict (Ports V)) where
  -- switch.interfaces.get(interface_number, None)
  abbrev interface_of : ℤ → Option (Ports V) → Option (Port V)
  interface_of n none = none
  interface_of (pos n) (some switch) = find_port n switch.interfaces
  interface_of (negsuc n) (some switch) = none

  abbrev with_number : String → Option ℤ → Result (Option (Port V))
  with_number switch_id none = err value_error
  with_number switch_id (some n) = ok (interface_of n (lookup switch_id switches))

  abbrev look_up : String × String → Result (Option (Port V))
  look_up (switch_id, number) = with_number switch_id (to_int number)

  unfoldable pub get_interface_by_id : Option String → Result (Option (Port V))
  unfolding split_last lookup find_port
  get_interface_by_id none = ok none
  get_interface_by_id (some interface_id) = look_up (parts interface_id (split_last interface_id))
