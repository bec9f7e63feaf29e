-- ===== src/Controller/Switches/Reconnect.antt =====
-- A switch that comes back over another connection.
use kytos.Prelude.{
  ℕ, ◌≡◌, refl, ap, ◌∙◌, String, Bool, true, false, Option, none, some, [], ◌∷◌, ◌++◌, ◌==◌, arith,
  if◌then◌else◌, Bool-cases, inl, inr,
}
use kytos.Errors.{Result, ok, err, Errno}
use kytos.Dict.{lookup, lookup-insert_self}
use kytos.Table.{
  Eq, find, store, drop_key, find-store, find-store_self, find-drop_key, number_eq, text_eq,
  pair_eq,
}
use kytos.Connection.{Connection, is_alive, close}
use kytos.Connection.Closed.{close-state, finished-is_alive}
use kytos.Controller.Switches.{
  Controller, id_of, update, get_switch_or_create, after_closing, connect, announce,
  create_or_update_connection, remove_connection, object, get_switch_by_dpid, get_connection_by_id,
}

abbrev pub same_id : String × ℕ → String × ℕ → Bool
same_id x y = Eq.same pair_eq x y

==_refl : (a : ℕ) → (a == a) ≡ true
==_refl a = ground arith

flip : (a b : ℕ) → (a == b) ≡ false → (b == a) ≡ false
flip a b h = ground arith

module _ {T : Type 0} (close_transport : T → T × Option Errno) where
  -- The connection is registered and stands in the switch.
  abbrev connected : String → ℕ → Controller T → Controller T
  connected dpid r s = connect dpid r (create_or_update_connection r s)

  after_closing-ok :
      (old : ℕ) (s : Controller T) (out : Result (Unit {0}) × Connection T)
      → out.0 ≡ ok tt
      → (q : ℕ) × (find (id_of old s) s.connections ≡ some q)
      → after_closing old s out ≡ (
        ok true,
        record s {
          objects = update old out.1 s.objects;
          connections = drop_key (id_of old s) s.connections;
        },
      )
  after_closing-ok old s (err e, c) h there = cc
  after_closing-ok old s (ok _, c) h (q, there) = rw there refl

  abbrev pub reconnected : String → ℕ → ℕ → Controller T → Controller T
  reconnected dpid old r s =
      let s' = connected dpid r s in
      record s' {
        objects = update old (close close_transport (s'.objects old)).1 s'.objects;
        connections = drop_key (id_of old s') s'.connections;
        announced = s.announced ++ ("kytos/core.switch.reconnected", dpid) ∷ [];
      }

  module _ (dpid : String) (old r : ℕ) (s : Controller T) (other : (old == r) ≡ false) where
    old_object : (connected dpid r s).objects old ≡ s.objects old
    unfolding connect create_or_update_connection
    old_object = rw (flip old r other) refl

    still_there :
        find (id_of old s) s.connections ≡ some old
        → (q : ℕ) × (find (id_of old (connected dpid r s)) (connected dpid r s).connections
            ≡ some q)
    unfolding connect create_or_update_connection
    still_there h = rw (flip old r other) (elim (Bool-cases (same_id (id_of r s) (id_of old s))) [
      | inl e ↦ (r, find-store (id_of r s) (id_of old s) r s.connections ∙ rw e refl)
      | inr e ↦ (old, find-store (id_of r s) (id_of old s) r s.connections ∙ rw e h)
    ])

    remove_old :
        find (id_of old s) s.connections ≡ some old
        → (close close_transport (s.objects old)).0 ≡ ok tt
        → remove_connection close_transport (object old) (connected dpid r s) ≡ (
          ok true,
          record (connected dpid r s) {
            objects =
                update old
                  (close close_transport ((connected dpid r s).objects old)).1
                  (connected dpid r s).objects;
            connections =
                drop_key (id_of old (connected dpid r s)) (connected dpid r s).connections;
          },
        )
    unfolding remove_connection
    remove_old there closes =
        after_closing-ok old (connected dpid r s) _
          (ap (λ c. (close close_transport c).0) old_object ∙ closes) (still_there there)

    choose :
        lookup dpid s.switches ≡ some (some old)
        → get_switch_or_create close_transport dpid (some r) s
          ≡ announce close_transport "kytos/core.switch.reconnected" dpid
              (remove_connection close_transport (object old) (connected dpid r s))
    unfolding get_switch_or_create
    choose known = rw known (rw other refl)

    announced_same : (connected dpid r s).announced ≡ s.announced
    unfolding connect create_or_update_connection
    announced_same = refl

    reconnect_run :
        lookup dpid s.switches ≡ some (some old)
        → find (id_of old s) s.connections ≡ some old
        → (close close_transport (s.objects old)).0 ≡ ok tt
        → get_switch_or_create close_transport dpid (some r) s ≡ (ok tt, reconnected dpid old r s)
    reconnect_run known there closes =
        choose known
        ∙ ap (announce close_transport "kytos/core.switch.reconnected" dpid)
            (remove_old there closes)
        ∙ rw (announced_same) refl

    found_after :
        find (id_of r s) (reconnected dpid old r s).connections
        ≡ (if same_id (id_of old s) (id_of r s) then none else some r)
    unfolding connect create_or_update_connection
    found_after = rw (flip old r other) (
        find-drop_key (id_of old s) (id_of r s) (store (id_of r s) r s.connections)
        ∙ ap (λ o. if same_id (id_of old s) (id_of r s) then none else o)
            (find-store_self (id_of r s) r s.connections))

    old_closed : is_alive ((reconnected dpid old r s).objects old) ≡ false
    old_closed = rw (==_refl old) (
        finished-is_alive close_transport _
          (close-state close_transport ((connected dpid r s).objects old)))

  -- If a known switch, with a connection that is registered and can be closed, comes back over
  -- another connection: the call returns, one event of the reconnection is put, the switch has the
  -- new connection, the old one is not alive, and the new one is found under its id exactly if the
  -- old one had another id; if they had the same, the new connection is no longer registered.
  pub get_switch_or_create_lem :
      (dpid : String) (old r : ℕ) (s : Controller T)
      → (old == r) ≡ false
      → lookup dpid s.switches ≡ some (some old)
      → find (id_of old s) s.connections ≡ some old
      → (close close_transport (s.objects old)).0 ≡ ok tt
      → (s' : Controller T) × (get_switch_or_create close_transport dpid (some r) s ≡ (ok tt, s'))
        × (s'.announced ≡ s.announced ++ ("kytos/core.switch.reconnected", dpid) ∷ [])
        × (get_switch_by_dpid dpid s' ≡ some (some r))
        × (is_alive (s'.objects old) ≡ false)
        × (get_connection_by_id (id_of r s) s'
            ≡ (if same_id (id_of old s) (id_of r s) then none else some r))
  unfolding get_switch_by_dpid get_connection_by_id
  get_switch_or_create_lem dpid old r s other known there closes = (
    reconnected dpid old r s,
    reconnect_run dpid old r s other known there closes,
    refl,
    has_new dpid r s,
    old_closed dpid old r s other,
    found_after dpid old r s other,
  )
    where
      has_new :
          (dpid : String) (r : ℕ) (s : Controller T)
          → lookup dpid (connected dpid r s).switches ≡ some (some r)
      has_new dpid r s =
          unfold connect in
          unfold create_or_update_connection in lookup-insert_self dpid (some r) s.switches
