-- ===== src/Controller/Listeners.antt =====
-- kytos/core/controller.py: `notify_listeners` and `event_handler`. `W` is the state of the program
-- outside the buffer: what a call of a listener or the start of a task does to it, and how `re`
-- matches, are parameters. Each of them may raise. A list of listeners that changes while it is
-- gone through is not modelled.
pub mod Handler
mod Tests
use Prim.Native.Char.{Char, code}
use Prim.Native.String.{[] as empty, ◌∷◌ as cons, ◌++◌ as append}
use kytos.Prelude.{
  ℕ, zero, suc, String, Bool, true, false, Option, none, some, List, [], ◌∷◌, ◌==◌, str_eq,
  if◌then◌else◌,
}
use kytos.Errors.{Error, Result, ok, err, index_error, ◌>>=◌}
use kytos.Dict.{Dict}
use kytos.Events.{KytosEvent}
use kytos.Buffers.{KytosEventBuffer, get, shutdown}

-- The last character and the one in front of it.
abbrev in_front : Char → Option (Option Char × Char) → Option (Option Char × Char)
in_front c none = some (none, c)
in_front c (some (none, d)) = some (some c, d)
in_front c (some (some b, d)) = some (some b, d)

abbrev pub last_two : String → Option (Option Char × Char)
last_two empty = none
last_two (cons c text) = in_front c (last_two text)

abbrev dollar : ℕ
dollar = 36

abbrev backslash : ℕ
backslash = 92

abbrev after_dollar : String → Option Char → Result String
after_dollar regex none = err index_error
after_dollar regex (some b) = if code b == backslash then ok (append regex "$") else ok regex

abbrev anchor : String → Option (Option Char × Char) → Result String
anchor regex none = err index_error
anchor regex (some (before, last)) =
    if code last == dollar then after_dollar regex before else ok (append regex "$")

-- The key of the listeners as it is matched.
unfoldable pub anchored : String → Result String
anchored regex = anchor regex (last_two regex)

-- A method or function, and whether it is a coroutine.
pub record Listener (F : Type 0) : Type 0 where
  pub is_coroutine : Bool
  pub function : F

pub data End : Type 0 where
  stopped waiting unfinished : End
  raised : Error → End

-- The rest of a body that changes the state runs if nothing was raised.
abbrev pub after :
    {W : Type 0} → Result (Unit {0}) × W → (W → Result (Unit {0}) × W) → Result (Unit {0}) × W
after (err e, w) rest = (err e, w)
after (ok _, w) rest = rest w

-- What a round of the loop does when the listeners of the event have returned.
module _ {V W Q : Type 0} where
  abbrev pub go_on :
      (KytosEventBuffer Q → W → End × (KytosEventBuffer Q × W))
      → KytosEvent V
      → KytosEventBuffer Q
      → Result (Unit {0}) × W
      → End × (KytosEventBuffer Q × W)
  go_on loop event b (err e, w) = (raised e, (b, w))
  go_on loop event b (ok _, w) = if str_eq event.name shutdown then (stopped, (b, w)) else loop b w

module _ {V F W : Type 0} (re_match : String → String → Result Bool)
    (call : F → KytosEvent V → W → Result (Unit {0}) × W) (create_task : F → KytosEvent V → W → W)
    (events_listeners : W → Dict (List (Listener F))) where
  abbrev call_listener : Listener F → KytosEvent V → W → Result (Unit {0}) × W
  call_listener listener event w =
      if listener.is_coroutine
      then (ok tt, create_task listener.function event w)
      else call listener.function event w

  abbrev pub call_each : List (Listener F) → KytosEvent V → W → Result (Unit {0}) × W
  call_each [] event w = (ok tt, w)
  call_each (listener ∷ listeners) event w =
      after (call_listener listener event w) (call_each listeners event)

  abbrev if_matched : Result Bool → List (Listener F) → KytosEvent V → W → Result (Unit {0}) × W
  if_matched (err e) listeners event w = (err e, w)
  if_matched (ok false) listeners event w = (ok tt, w)
  if_matched (ok true) listeners event w = call_each listeners event w

  abbrev matched : String → String → Result Bool
  matched regex name = anchored regex >>= λ r. re_match r name

  abbrev pub notify_each : Dict (List (Listener F)) → KytosEvent V → W → Result (Unit {0}) × W
  notify_each [] event w = (ok tt, w)
  notify_each ((regex, listeners) ∷ entries) event w =
      after (if_matched (matched regex event.name) listeners event w) (notify_each entries event)

  -- The entries are those from before the first call.
  unfoldable pub notify_listeners : KytosEvent V → W → Result (Unit {0}) × W
  unfolding anchored
  notify_listeners event w = notify_each (events_listeners w) event w

  module _ {Q : Type 0} (queue_get : Q → Option (KytosEvent V × Q)) where
    abbrev take_event :
        (KytosEventBuffer Q → W → End × (KytosEventBuffer Q × W))
        → Option (KytosEvent V × KytosEventBuffer Q)
        → KytosEventBuffer Q
        → W
        → End × (KytosEventBuffer Q × W)
    take_event loop none b w = (waiting, (b, w))
    take_event loop (some (event, rest)) b w = go_on loop event rest (notify_listeners event w)

    -- At most `fuel` rounds of the loop.
    unfoldable pub event_handler : ℕ → KytosEventBuffer Q → W → End × (KytosEventBuffer Q × W)
    unfolding notify_listeners get
    event_handler zero b w = (unfinished, (b, w))
    event_handler (suc fuel) b w = take_event (event_handler fuel) (get queue_get b) b w
