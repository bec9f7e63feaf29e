-- ===== src/Controller/Listeners/Tests.antt =====
-- Small inputs of `notify_listeners` and `event_handler`, with a list for the queue and for the
-- names that the listeners have seen.
use kytos.Prelude.{
  ap, ℕ, ◌≡◌, refl, String, Bool, true, false, Option, none, some, List, [], ◌∷◌, ◌++◌, str_eq,
  arith,
}
use kytos.Errors.{Result, ok, err, index_error}
use kytos.Dict.{Dict}
use kytos.Events.{KytosEvent, pos}
use kytos.Buffers.{KytosEventBuffer, shutdown}
use kytos.Buffers.Shutdown.{until_shutdown, put_each}
use kytos.Controller.Listeners.{Listener, anchored, event_handler}
use kytos.Controller.Listeners.Handler.{Fifo, ended, notify_events, event_handler_lem}

abbrev event : String → KytosEvent ℕ
event name = record {
  name = name;
  content = [];
  timestamp = 0;
  reinjections = 0;
  priority = pos 0;
  id = name;
}

abbrev first : List (KytosEvent ℕ) → Option (KytosEvent ℕ × List (KytosEvent ℕ))
first [] = none
first (e ∷ es) = some (e, es)

abbrev fifo : Fifo (KytosEvent ℕ) (List (KytosEvent ℕ))
fifo = record {
  held = λ q. q;
  queue_put = λ e q. q ++ e ∷ [];
  queue_get = first;
  held-put = λ e q. refl;
  get_first = λ e es q h. (es, ap first h, refl);
}

-- Only a text matches itself.
abbrev same_text : String → String → Result Bool
same_text regex name = ok (str_eq regex name)

abbrev see : String → KytosEvent ℕ → List String → Result (Unit {0}) × List String
see who event seen = (ok tt, seen ++ who ∷ [])

abbrev start : String → KytosEvent ℕ → List String → List String
start who event seen = seen ++ who ∷ []

abbrev listeners : List String → Dict (List (Listener String))
listeners seen =
    (
      "a",
      record { is_coroutine = false; function = "one" }
          ∷ record { is_coroutine = true; function = "two" }
          ∷ [],
    )
    ∷ []

abbrev app : KytosEventBuffer (List (KytosEvent ℕ))
app = record { name = "app"; queue = []; reject_new_events = false }

abbrev some_events : List (KytosEvent ℕ)
some_events = event "a" ∷ event shutdown ∷ event "b" ∷ []

anchored_run :
    (anchored "kytos/core.shutdown" ≡ ok "kytos/core.shutdown$")
    × (anchored "of_core.*$" ≡ ok "of_core.*$")
    × (anchored "costs 3\\$" ≡ ok "costs 3\\$$")
    × (anchored "$" ≡ err index_error)
    × (anchored "" ≡ err index_error)
unfolding anchored
anchored_run = (refl, refl, refl, refl, refl)

event_handler_example :
    (b' : KytosEventBuffer (List (KytosEvent ℕ))) × (event_handler same_text see start listeners
        first 2
        (put_each fifo.queue_put some_events app)
        []
      ≡ (
        ended (notify_events fifo same_text see start listeners (until_shutdown some_events) []).0,
        (b', (notify_events fifo same_text see start listeners (until_shutdown some_events) []).1),
      ))
    × ((notify_events fifo same_text see start listeners (until_shutdown some_events) []).0 ≡ ok tt
        → b'.queue ≡ [])
event_handler_example =
    event_handler_lem fifo same_text see start listeners some_events 2 app [] refl refl refl
      (omega arith)
