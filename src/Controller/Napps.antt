-- ===== src/Controller/Napps.antt =====
-- kytos/core/controller.py: `load_napp`, `unload_napp` and what calls them. To import a module, to
-- make its `Main` and to start its thread is the NApp's own code, a parameter, and so is what its
-- listeners do; `W` is the state outside the controller.
pub mod Removal
pub mod Reload
mod Tests
use Prim.Native.String.{◌++◌ as concat}
use kytos.Prelude.{
  ℕ, String, Bool, true, false, Option, none, some, List, [], ◌∷◌, ◌++◌, ◌==◌, if◌then◌else◌,
}
use kytos.Errors.{Error, Result, ok, err, key_error, index_error, value_error, napp_setup_exception}
use kytos.Dict.{Dict, lookup, insert, delete}
use kytos.Table.{Eq, Table, find, store, drop_key, text_eq, pair_eq}
use kytos.ApiServer.{
  Route, Attribute, authenticate_endpoints, register_napp_endpoints, remove_napp_endpoints,
}

-- A NApp that runs: its listeners by event, and its attributes for the API server. `L` is the type
-- of the listeners.
pub record RunningNapp (L : Type 0) (F : Type 0) (O : Type 0) : Type 0 where
  pub username : String
  pub name : String
  pub listeners : Dict (List L)
  pub attributes : List (Attribute F O)

pub record Napps (L : Type 0) (F : Type 0) (O : Type 0) (W : Type 0) : Type 0 where
  pub napps : Table (String × String) (RunningNapp L F O)
  pub events_listeners : Dict (List L)
  pub routes : List (Route F O)
  pub world : W

-- What an import leaves; the two errors that `load_napp` catches are told apart.
pub data Import (M : Type 0) : Type 0 where
  imported : M → Import M
  module_not_found file_not_found : Import M
  import_failed : Error → Import M

-- What the controller meets outside: the option `authenticate_urls`, the import of a module, its
-- `Main`, its thread, the call of a listener, and whether a module is reloaded.
pub record Outside (L : Type 0) (F : Type 0) (O : Type 0) (W : Type 0) (M : Type 0) : Type 0 where
  pub authenticate_urls : List String
  pub import_napp : String → String → W → Import M × W
  pub make : M → W → Option (RunningNapp L F O) × W
  pub start : RunningNapp L F O → W → W
  pub call : L → String → W → Result (Unit {0}) × W
  pub reload_module : String → String → String → W → Bool × W

-- 'kytos/core.shutdown.' + napp_id
abbrev pub shutdown_event : String → String → String
shutdown_event username name = concat "kytos/core.shutdown." (concat username (concat "/" name))

abbrev reversed {ℓ} : {A : Type ℓ} → List A → List A
reversed [] = []
reversed (x ∷ xs) = reversed xs ++ x ∷ []

module _ {L : Type 0} where
  abbrev or_nothing : Option (List L) → List L
  or_nothing none = []
  or_nothing (some listeners) = listeners

  abbrev pub listed : String → Dict (List L) → List L
  unfolding lookup
  listed event d = or_nothing (lookup event d)

  -- self.events_listeners.setdefault(event, []).extend(listeners)
  abbrev pub add_listeners : Dict (List L) → Dict (List L) → Dict (List L)
  unfolding insert listed
  add_listeners [] d = d
  add_listeners ((event, listeners) ∷ entries) d =
      add_listeners entries (insert event (listed event d ++ listeners) d)

  module _ ⦃e : Eq L⦄ where
    abbrev pub put_back : L → Result (Unit {0}) × List L → Result (Unit {0}) × List L
    put_back x (out, rest) = (out, x ∷ rest)

    -- listeners.remove(listener)
    abbrev pub remove : L → List L → Result (Unit {0}) × List L
    remove x [] = (err value_error, [])
    remove x (y ∷ rest) =
        let later = remove x rest in if e.same y x then (ok tt, rest) else put_back y later

    abbrev and_then :
        Result (Unit {0}) × List L
        → (List L → Result (Unit {0}) × List L)
        → Result (Unit {0}) × List L
    and_then (err x, left) rest = (err x, left)
    and_then (ok _, left) rest = rest left

    abbrev pub remove_each : List L → List L → Result (Unit {0}) × List L
    remove_each [] l = (ok tt, l)
    remove_each (x ∷ xs) l = and_then (remove x l) (remove_each xs)

    -- The list is changed in its place; if it is empty in the end, its key is deleted.
    abbrev pub write_back :
        String → Result (Unit {0}) × List L → Dict (List L) → Result (Unit {0}) × Dict (List L)
    write_back event (err x, left) d = (err x, insert event left d)
    write_back event (ok _, []) d = (ok tt, delete event d)
    write_back event (ok _, x ∷ left) d = (ok tt, insert event (x ∷ left) d)

    abbrev pub remove_entry :
        String → List L → Option (List L) → Dict (List L) → Result (Unit {0}) × Dict (List L)
    remove_entry event listeners none d = (err (key_error event), d)
    remove_entry event listeners (some l) d = write_back event (remove_each listeners l) d

    abbrev pub next_entry :
        Result (Unit {0}) × Dict (List L)
        → (Dict (List L) → Result (Unit {0}) × Dict (List L))
        → Result (Unit {0}) × Dict (List L)
    next_entry (err x, d) rest = (err x, d)
    next_entry (ok _, d) rest = rest d

    abbrev pub remove_listeners : Dict (List L) → Dict (List L) → Result (Unit {0}) × Dict (List L)
    unfolding lookup
    remove_listeners [] d = (ok tt, d)
    remove_listeners ((event, listeners) ∷ entries) d =
        next_entry (remove_entry event listeners (lookup event d) d) (remove_listeners entries)

module _ {L F O W M : Type 0} ⦃e : Eq L⦄ (outside : Outside L F O W M) where
  -- `authenticate_endpoints` writes into the NApp that `napps` holds.
  abbrev with_endpoints : RunningNapp L F O → RunningNapp L F O
  with_endpoints napp = record napp {
    attributes =
        authenticate_endpoints outside.authenticate_urls napp.username napp.name napp.attributes;
  }

  abbrev put_napp : String × String → RunningNapp L F O → Napps L F O W → Napps L F O W
  put_napp key napp s = record s {
    napps = store key napp s.napps;
    world = outside.start napp s.world;
    routes = register_napp_endpoints napp.username napp.name napp.attributes s.routes;
    events_listeners = add_listeners napp.listeners s.events_listeners;
  }

  -- Whatever `Main` raises becomes a KytosNAppSetupException.
  abbrev with_main :
      String × String
      → Napps L F O W
      → Option (RunningNapp L F O) × W
      → Result (Unit {0}) × Napps L F O W
  with_main key s (none, w) = (err napp_setup_exception, record s { world = w })
  with_main key s (some napp, w) =
      (ok tt, put_napp key (with_endpoints napp) (record s { world = w }))

  abbrev with_import :
      String × String → Napps L F O W → Import M × W → Result (Unit {0}) × Napps L F O W
  with_import key s (imported m, w) = with_main key s (outside.make m w)
  with_import key s (module_not_found, w) = (ok tt, record s { world = w })
  with_import key s (file_not_found, w) = (ok tt, record s { world = w })
  with_import key s (import_failed x, w) = (err x, record s { world = w })

  abbrev load_new :
      Option (RunningNapp L F O)
      → String
      → String
      → Napps L F O W
      → Result (Unit {0}) × Napps L F O W
  load_new (some napp) username name s = (ok tt, s)
  load_new none username name s =
      with_import (username, name) s (outside.import_napp username name s.world)

  unfoldable pub load_napp : String → String → Napps L F O W → Result (Unit {0}) × Napps L F O W
  unfolding add_listeners
  load_napp username name s = load_new (find (username, name) s.napps) username name s

  abbrev without_listeners :
      Napps L F O W → Result (Unit {0}) × Dict (List L) → Result (Unit {0}) × Napps L F O W
  without_listeners s (out, d) = (out, record s { events_listeners = d })

  abbrev after_shutdown :
      RunningNapp L F O → Napps L F O W → Result (Unit {0}) × W → Result (Unit {0}) × Napps L F O W
  after_shutdown napp s (err x, w) = (err x, record s { world = w })
  after_shutdown napp s (ok _, w) =
      without_listeners
        (record s { world = w; routes = remove_napp_endpoints napp.username napp.name s.routes })
        (remove_listeners napp.listeners s.events_listeners)

  -- napp_shutdown_fn is the first listener of the event, whoever put it there.
  abbrev shut_down :
      RunningNapp L F O
      → String
      → Option (List L)
      → Napps L F O W
      → Result (Unit {0}) × Napps L F O W
  shut_down napp event none s = (err (key_error event), s)
  shut_down napp event (some []) s = (err index_error, s)
  shut_down napp event (some (shutdown_fn ∷ others)) s =
      after_shutdown napp s (outside.call shutdown_fn event s.world)

  abbrev unload_found :
      Option (RunningNapp L F O)
      → String
      → String
      → Napps L F O W
      → Result (Unit {0}) × Napps L F O W
  unload_found none username name s = (ok tt, s)
  unload_found (some napp) username name s =
      shut_down napp (shutdown_event username name)
        (lookup (shutdown_event username name) s.events_listeners)
        (record s { napps = drop_key (username, name) s.napps })

  unfoldable pub unload_napp : String → String → Napps L F O W → Result (Unit {0}) × Napps L F O W
  unfolding remove_listeners
  unload_napp username name s = unload_found (find (username, name) s.napps) username name s

  -- What `reload_napp` returns, or an exception.
  abbrev with_status : Result (Unit {0}) × Napps L F O W → Result ℕ × Napps L F O W
  with_status (err x, s) = (err x, s)
  with_status (ok _, s) = (ok 200, s)

  abbrev then_main : String → String → Napps L F O W → Bool × W → Result ℕ × Napps L F O W
  unfolding load_napp
  then_main username name s (false, w) = (ok 400, record s { world = w })
  then_main username name s (true, w) =
      with_status (load_napp username name (record s { world = w }))

  abbrev then_settings : String → String → Napps L F O W → Bool × W → Result ℕ × Napps L F O W
  unfolding then_main
  then_settings username name s (false, w) = (ok 400, record s { world = w })
  then_settings username name s (true, w) =
      then_main username name (record s { world = w })
        (outside.reload_module username name "main" w)

  abbrev then_modules :
      String → String → Result (Unit {0}) × Napps L F O W → Result ℕ × Napps L F O W
  unfolding then_settings
  then_modules username name (err x, s) = (err x, s)
  then_modules username name (ok _, s) =
      then_settings username name s (outside.reload_module username name "settings" s.world)

  -- A module that is not found or whose import fails makes 400; other exceptions of the import are
  -- not modelled.
  unfoldable pub reload_napp : String → String → Napps L F O W → Result ℕ × Napps L F O W
  unfolding unload_napp then_modules
  reload_napp username name s = then_modules username name (unload_napp username name s)

  abbrev and_next :
      Result (Unit {0}) × Napps L F O W
      → (Napps L F O W → Result (Unit {0}) × Napps L F O W)
      → Result (Unit {0}) × Napps L F O W
  and_next (err x, s) rest = (err x, s)
  and_next (ok _, s) rest = rest s

  -- The NApps that are enabled, as the manager lists them. A FileNotFoundError of `load_napp` would
  -- become another exception; it catches that of the import.
  abbrev pub load_napps : List (String × String) → Napps L F O W → Result (Unit {0}) × Napps L F O W
  unfolding load_napp
  load_napps [] s = (ok tt, s)
  load_napps ((username, name) ∷ enabled) s =
      and_next (load_napp username name s) (load_napps enabled)

  abbrev unload_each : List (String × String) → Napps L F O W → Result (Unit {0}) × Napps L F O W
  unfolding unload_napp
  unload_each [] s = (ok tt, s)
  unload_each ((username, name) ∷ enabled) s =
      and_next (unload_napp username name s) (unload_each enabled)

  abbrev pub unload_napps :
      List (String × String) → Napps L F O W → Result (Unit {0}) × Napps L F O W
  unfolding unload_each
  unload_napps enabled s = unload_each (reversed enabled) s
