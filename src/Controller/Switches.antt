-- ===== src/Controller/Switches.antt =====
-- kytos/core/controller.py: the connections and switches of the controller. A connection is an
-- object: a number stands for it, and `objects` says what is in it. A switch is one object, which
-- only its dictionary refers to, so its connection stands there. The lock is not modelled.
pub mod Reconnect
pub mod NewConnection
use kytos.Prelude.{
  ℕ, String, Bool, true, false, Option, none, some, List, [], ◌∷◌, ◌++◌, ◌==◌, if◌then◌else◌,
}
use kytos.Errors.{Result, ok, err, Errno, attribute_error}
use kytos.Dict.{Dict, lookup, insert, delete}
use kytos.Table.{Table, find, store, drop_key, number_eq, text_eq, pair_eq}
use kytos.Connection.{Connection, connection_id, close}

-- `announced`: the events that were put into the `conn` buffer, each with the id of its switch.
pub record Controller (T : Type 0) : Type 0 where
  pub objects : ℕ → Connection T
  pub connections : Table (String × ℕ) ℕ
  pub switches : Dict (Option ℕ)
  pub announced : List (String × String)

-- What `remove_connection` is called with: a connection, None, or the id of a connection.
pub data Argument : Type 0 where
  object : ℕ → Argument
  nothing : Argument
  identifier : String × ℕ → Argument

abbrev pub update : {A : Type 0} → ℕ → A → (ℕ → A) → ℕ → A
update r a objects q = if r == q then a else objects q

abbrev pub as_argument : Option ℕ → Argument
as_argument none = nothing
as_argument (some r) = object r

module _ {T : Type 0} where
  abbrev pub id_of : ℕ → Controller T → String × ℕ
  id_of r s = connection_id (s.objects r)

  unfoldable pub create_or_update_connection : ℕ → Controller T → Controller T
  create_or_update_connection r s = record s { connections = store (id_of r s) r s.connections }

  unfoldable pub get_connection_by_id : String × ℕ → Controller T → Option ℕ
  get_connection_by_id conn_id s = find conn_id s.connections

  unfoldable pub get_switch_by_dpid : String → Controller T → Option (Option ℕ)
  get_switch_by_dpid dpid s = lookup dpid s.switches

  unfoldable pub add_new_switch : String → Option ℕ → Controller T → Controller T
  add_new_switch dpid connection s = record s { switches = insert dpid connection s.switches }

  abbrev deleted : Option (Option ℕ) → String → Controller T → Bool × Controller T
  deleted none dpid s = (false, s)
  deleted (some _) dpid s = (true, record s { switches = delete dpid s.switches })

  unfoldable pub remove_switch : String → Controller T → Bool × Controller T
  remove_switch dpid s = deleted (lookup dpid s.switches) dpid s

  -- `Switch.update_connection`: the two refer to one another.
  unfoldable pub connect : String → ℕ → Controller T → Controller T
  connect dpid r s = record s {
    switches = insert dpid (some r) s.switches;
    objects = update r (record (s.objects r) { switch = some dpid }) s.objects;
  }

  -- del self.connections[connection.id]
  abbrev forget : Option ℕ → String × ℕ → Controller T → Result Bool × Controller T
  forget none conn_id s = (ok false, s)
  forget (some _) conn_id s = (ok true, record s { connections = drop_key conn_id s.connections })

  abbrev after_closing :
      ℕ → Controller T → Result (Unit {0}) × Connection T → Result Bool × Controller T
  after_closing r s (err e, c) = (err e, record s { objects = update r c s.objects })
  after_closing r s (ok _, c) =
      forget (find (id_of r s) s.connections) (id_of r s)
        (record s { objects = update r c s.objects })

  module _ (close_transport : T → T × Option Errno) where
    -- An id has no `close`.
    unfoldable pub remove_connection : Argument → Controller T → Result Bool × Controller T
    remove_connection nothing s = (ok false, s)
    remove_connection (identifier conn_id) s = (err attribute_error, s)
    remove_connection (object r) s = after_closing r s (close close_transport (s.objects r))

    abbrev then_store : ℕ → Result Bool × Controller T → Result (Unit {0}) × Controller T
    then_store r (err e, s) = (err e, s)
    then_store r (ok _, s) = (ok tt, create_or_update_connection r s)

    abbrev replace_old : Option ℕ → ℕ → Controller T → Result (Unit {0}) × Controller T
    replace_old none r s = (ok tt, create_or_update_connection r s)
    replace_old (some old) r s = then_store r (remove_connection (identifier (id_of r s)) s)

    -- The handler of `kytos/core.connection.new`, whose source is the connection.
    unfoldable pub new_connection : ℕ → Controller T → Result (Unit {0}) × Controller T
    unfolding create_or_update_connection get_connection_by_id remove_connection
    new_connection r s = replace_old (get_connection_by_id (id_of r s) s) r s

    -- What is left of `get_switch_or_create` when the switch has its connection.
    abbrev announce :
        String → String → Result Bool × Controller T → Result (Unit {0}) × Controller T
    announce name dpid (err e, s) = (err e, s)
    announce name dpid (ok _, s) =
        (ok tt, record s { announced = s.announced ++ (name, dpid) ∷ [] })

    abbrev same_object : Option ℕ → ℕ → Bool
    same_object none r = false
    same_object (some old) r = old == r

    -- if old_connection is not connection: self.remove_connection(old_connection)
    abbrev replace_connection : String → Option ℕ → ℕ → Controller T → Result Bool × Controller T
    replace_connection dpid old r s =
        if same_object old r
        then (ok true, connect dpid r s)
        else remove_connection (as_argument old) (connect dpid r s)

    abbrev with_connection :
        Option ℕ → String → String → Option ℕ → Controller T → Result (Unit {0}) × Controller T
    with_connection none name dpid old s = announce name dpid (ok true, s)
    with_connection (some r) name dpid old s = announce name dpid (replace_connection dpid old r s)

    abbrev found_or_new :
        Option (Option ℕ) → String → Option ℕ → Controller T → Result (Unit {0}) × Controller T
    found_or_new none dpid connection s =
        with_connection connection "kytos/core.switch.new" dpid none (add_new_switch dpid none s)
    found_or_new (some old) dpid connection s =
        with_connection connection "kytos/core.switch.reconnected" dpid old s

    abbrev register : Option ℕ → Controller T → Controller T
    register none s = s
    register (some r) s = create_or_update_connection r s

    unfoldable pub get_switch_or_create :
        String → Option ℕ → Controller T → Result (Unit {0}) × Controller T
    unfolding create_or_update_connection get_switch_by_dpid add_new_switch connect
        remove_connection
    get_switch_or_create dpid connection s =
        let registered = register connection s in
        found_or_new (get_switch_by_dpid dpid registered) dpid connection registered
