-- ===== src/Controller/Lookup/ById.antt =====
-- An interface is found under the id that is made of its switch and its number.

use Prim.Native.String.append
use Prim.Native.String.{String, [], ◌∷◌, ◌++◌}
use kytos.Prelude.{
  ℕ, ◌≡◌, ◌⊎◌, inl, inr, refl, Option, none, some, ◌==◌, if◌then◌else◌, Option-cases,
}
use kytos.Dict.{Dict, lookup, insert, lookup-insert_self}
use kytos.Events.{ℤ, pos}
use kytos.Switch.Ports.{Port, Ports, put_port, get_interface_by_port_no}
use kytos.Switch.Ports.Stored.{find_port-put_port}
use kytos.Errors.{ok}
use kytos.Controller.Lookup.{split_last, get_interface_by_id}

-- f"{switch}:{port}", with the decimals of the port
abbrev pub interface_id : String → String → String
interface_id switch number = switch ++ (":" ++ number)

split_last-colon :
    (number : String) → split_last number ≡ none → split_last (":" ++ number) ≡ some ([], number)
unfolding split_last
split_last-colon number h = rw append.cons (rw append.nil (rw h refl))

split_last-interface_id :
    (switch number : String)
    → split_last number ≡ none
    → split_last (interface_id switch number) ≡ some (switch, number)
unfolding split_last
split_last-interface_id [] number h = rw append.nil (split_last-colon number h)
split_last-interface_id (c ∷ switch) number h =
    rw append.cons (rw (split_last-interface_id switch number h) refl)

module _ {V : Type 0} (to_int : String → Option ℤ) (switches : Dict (Ports V)) where
  -- For an id that is made of the id of a switch, which may hold colons, and the decimals of a port:
  -- if the switch is known, the reply is what it has under that number, so after an interface was
  -- stored in the switch under the number it is that interface, and with another number what was found
  -- before; if the switch is not known, the reply is None.
  pub get_interface_by_id_lem :
      (switch number : String) (port : ℕ)
      → split_last number ≡ none
      → to_int number ≡ some (pos port)
      → ((lookup switch switches ≡ none)
          × (get_interface_by_id to_int switches (some (interface_id switch number)) ≡ ok none))
        ⊎ ((ports : Ports V) × (lookup switch switches ≡ some ports)
            × (get_interface_by_id to_int switches (some (interface_id switch number))
                ≡ ok (get_interface_by_port_no port ports))
            × ((n : ℕ) (p : Port V)
                → get_interface_by_id to_int
                    (insert switch
                      (record ports { interfaces = put_port n p ports.interfaces })
                      switches)
                    (some (interface_id switch number))
                  ≡ ok (if port == n then some p else get_interface_by_port_no port ports)))
  unfolding get_interface_by_id get_interface_by_port_no
  get_interface_by_id_lem switch number port plain reads =
      elim (Option-cases (lookup switch switches)) [
        | inl e ↦ inl (e, rw (split_last-interface_id switch number plain) (rw (reads, e) refl))
        | inr (ports, e) ↦ inr (
          ports,
          e,
          rw (split_last-interface_id switch number plain) (rw (reads, e) refl),
          λ n p. rw (split_last-interface_id switch number plain) (
              rw
                (
                  reads,
                  lookup-insert_self switch
                      (record ports { interfaces = put_port n p ports.interfaces }) switches,
                  find_port-put_port n port p ports.interfaces,
                )
                refl),
        )
      ]
