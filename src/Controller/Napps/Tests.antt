-- ===== src/Controller/Napps/Tests.antt =====
-- Small inputs of `load_napp` and `unload_napp`: numbers stand for listeners, and the state outside
-- is the list of what was called.
use kytos.Prelude.{ℕ, ◌≡◌, refl, String, true, none, some, List, [], ◌∷◌, ◌++◌, ◌==◌, if◌then◌else◌}
use kytos.Errors.{Result, ok, err, runtime_error}
use kytos.Dict.{distinct_keys, has_key, lookup}
use kytos.Table.{find, number_eq, text_eq, pair_eq}
use kytos.ApiServer.{napp_prefix, get_decorated_functions}
use kytos.ApiServer.Tests.{flow_manager, status_routes}
use kytos.ApiServer.Removed.{left_over}
use kytos.Controller.Napps.{listed, imported, Outside, RunningNapp, Napps, load_napp, unload_napp}
use kytos.Controller.Napps.Reload.{marked_napp, unload_napp-load_napp, unload_napp_lem}

abbrev flow_manager_napp : RunningNapp ℕ ℕ ℕ
flow_manager_napp = record {
  username = "kytos";
  name = "flow_manager";
  listeners =
      ("kytos/core.shutdown", 1 ∷ [])
      ∷ ("kytos/core.shutdown.kytos/flow_manager", 1 ∷ [])
      ∷ ("kytos/core.switch.new", 2 ∷ 3 ∷ [])
      ∷ [];
  attributes = flow_manager;
}

-- Listener 9 raises.
abbrev call : ℕ → String → List String → Result (Unit {0}) × List String
call listener event called =
    if listener == 9 then (err runtime_error, called) else (ok tt, called ++ event ∷ [])

abbrev outside : Outside ℕ ℕ ℕ (List String) (Unit {0})
outside = record {
  authenticate_urls = [];
  import_napp = λ username name w. (imported tt, w);
  make = λ m w. (some flow_manager_napp, w);
  start = λ napp w. w ++ "start" ∷ [];
  call = call;
  reload_module = λ username name file w. (true, w);
}

abbrev core : Napps ℕ ℕ ℕ (List String)
core = record {
  napps = [];
  events_listeners = ("kytos/core.switch.new", 0 ∷ []) ∷ [];
  routes = status_routes;
  world = [];
}

unload_napp-load_napp_example :
    (s' s'' : Napps ℕ ℕ ℕ (List String)) × (load_napp outside "kytos" "flow_manager" core
      ≡ (ok tt, s'))
    × (unload_napp outside "kytos" "flow_manager" s' ≡ (ok tt, s''))
    × ((key : String × String) → find key s''.napps ≡ find key [])
    × ((event : String) → lookup event s''.events_listeners ≡ lookup event core.events_listeners)
    × (s''.routes
        ≡ status_routes
          ++ left_over
              (napp_prefix "kytos" "flow_manager")
              (get_decorated_functions (marked_napp outside flow_manager_napp).attributes))
unfolding lookup find napp_prefix distinct_keys has_key listed
unload_napp-load_napp_example =
    unload_napp-load_napp outside "kytos" "flow_manager" tt flow_manager_napp 1 [] [] []
      ("start" ∷ "kytos/core.shutdown.kytos/flow_manager" ∷ []) core refl refl refl refl refl refl
      refl refl refl refl

-- The first listener of the shutdown raises.
abbrev failing : Napps ℕ ℕ ℕ (List String)
failing = record core {
  napps = (("kytos", "flow_manager"), flow_manager_napp) ∷ [];
  events_listeners = ("kytos/core.shutdown.kytos/flow_manager", 9 ∷ 1 ∷ []) ∷ [];
}

unload_napp_example :
    (s' : Napps ℕ ℕ ℕ (List String)) × (unload_napp outside "kytos" "flow_manager" failing
      ≡ (err runtime_error, s'))
    × (find ("kytos", "flow_manager") s'.napps ≡ none)
    × (s'.events_listeners ≡ failing.events_listeners)
    × (s'.routes ≡ status_routes)
    × (unload_napp outside "kytos" "flow_manager" s' ≡ (ok tt, s'))
unfolding lookup find
unload_napp_example =
    unload_napp_lem outside "kytos" "flow_manager" flow_manager_napp 9 (1 ∷ []) runtime_error []
      failing refl refl refl
