-- ===== src/Buffers/Tests.antt =====
-- Small inputs of kytos/core/buffers/buffers.py, with a list for the queue.
use kytos.Prelude.{ℕ, ◌≡◌, refl, String, true, false, List, [], ◌∷◌, ◌++◌}
use kytos.Events.{KytosEvent, pos}
use kytos.Buffers.{KytosEventBuffer, put, shutdown}
use kytos.Buffers.Shutdown.{until_shutdown, has_shutdown, put_each, queue_each, put_each_lem}

abbrev event : String → KytosEvent ℕ
event name = record {
  name = name;
  content = [];
  timestamp = 0;
  reinjections = 0;
  priority = pos 0;
  id = name;
}

abbrev append : KytosEvent ℕ → List (KytosEvent ℕ) → List (KytosEvent ℕ)
append e q = q ++ e ∷ []

abbrev app : KytosEventBuffer (List (KytosEvent ℕ))
app = record { name = "app"; queue = []; reject_new_events = false }

abbrev some_events : List (KytosEvent ℕ)
some_events = event "a" ∷ event shutdown ∷ event "b" ∷ []

put_each_run : (put_each append some_events app).queue ≡ event "a" ∷ event shutdown ∷ []
unfolding put
put_each_run = refl

put_each_example :
    (false ≡ true → put_each append some_events app ≡ app)
    × (false ≡ false
        → put_each append some_events app ≡ record app {
          queue = queue_each append (until_shutdown some_events) [];
          reject_new_events = has_shutdown some_events;
        })
put_each_example = put_each_lem append some_events app
