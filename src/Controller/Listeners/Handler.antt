-- ===== src/Controller/Listeners/Handler.antt =====
-- A handler of a buffer runs until the event that shuts the buffer down.
use kytos.Prelude.{
  ℕ, zero, suc, ◌≡◌, ◌≤◌, refl, sym, ap, subst, ◌∙◌, String, Bool, true, false, Option, some, List,
  [], ◌∷◌, ◌++◌, str_eq, if◌then◌else◌, length, arith, Bool-cases, inl, inr,
}
use mathlib.Core.List.{append-nil, append_assoc}
use kytos.Errors.{Result, ok, err}
use kytos.Dict.{Dict}
use kytos.Events.{KytosEvent}
use kytos.Buffers.{KytosEventBuffer, get, got, shutdown}
use kytos.Buffers.Shutdown.{until_shutdown, has_shutdown, put_each, queue_each, put_each_lem}
use kytos.Controller.Listeners.{
  Listener, End, stopped, raised, after, notify_listeners, event_handler, take_event, go_on,
}

-- A queue that is first in, first out: what it holds, and that `put` and `get` are at its ends.
pub record Fifo (E Q : Type 0) : Type 0 where
  pub held : Q → List E
  pub queue_put : E → Q → Q
  pub queue_get : Q → Option (E × Q)
  pub held-put : (e : E) (q : Q) → held (queue_put e q) ≡ held q ++ e ∷ []
  pub get_first :
      (e : E) (es : List E) (q : Q)
      → held q ≡ e ∷ es
      → (q' : Q) × (queue_get q ≡ some (e, q')) × (held q' ≡ es)

-- The events behind the first that shuts a buffer down.
abbrev pub behind_shutdown : {V : Type 0} → List (KytosEvent V) → List (KytosEvent V)
behind_shutdown [] = []
behind_shutdown (event ∷ events) =
    if str_eq event.name shutdown then events else behind_shutdown events

abbrev pub ended : Result (Unit {0}) → End
ended (err e) = raised e
ended (ok _) = stopped

module _ {V F W Q : Type 0} (fifo : Fifo (KytosEvent V) Q)
    (re_match : String → String → Result Bool) (call : F → KytosEvent V → W → Result (Unit {0}) × W)
    (create_task : F → KytosEvent V → W → W) (events_listeners : W → Dict (List (Listener F))) where
  abbrev notify : KytosEvent V → W → Result (Unit {0}) × W
  notify = notify_listeners re_match call create_task events_listeners

  abbrev handler : ℕ → KytosEventBuffer Q → W → End × (KytosEventBuffer Q × W)
  handler = event_handler re_match call create_task events_listeners fifo.queue_get

  -- The listeners of one event after the other, until one raises.
  abbrev pub notify_events : List (KytosEvent V) → W → Result (Unit {0}) × W
  notify_events [] w = (ok tt, w)
  notify_events (event ∷ events) w = after (notify event w) (notify_events events)

  abbrev Ends :
      List (KytosEvent V) → Result (Unit {0}) × W → End × (KytosEventBuffer Q × W) → Type 0
  Ends events out r =
      (b : KytosEventBuffer Q) × (r ≡ (ended out.0, (b, out.1)))
      × (out.0 ≡ ok tt → fifo.held b.queue ≡ behind_shutdown events)

  round :
      (loop : KytosEventBuffer Q → W → End × (KytosEventBuffer Q × W)) (event : KytosEvent V)
      (events : List (KytosEvent V)) (b : KytosEventBuffer Q) (out : Result (Unit {0}) × W)
      → fifo.held b.queue ≡ events
      → (str_eq event.name shutdown ≡ false
          → (w : W) → Ends events (notify_events (until_shutdown events) w) (loop b w))
      → Ends
          (event ∷ events)
          (after out
            (notify_events (if str_eq event.name shutdown then [] else until_shutdown events)))
          (go_on loop event b out)
  round loop event events b (err e, w) holds rest = (b, refl, λ h. cc)
  round loop event events b (ok _, w) holds rest = elim (Bool-cases (str_eq event.name shutdown)) [
    | inl e ↦ rw e (b, refl, λ h. holds)
    | inr e ↦ rw e (rest e w)
  ]

  step :
      (event : KytosEvent V) (rest : Q) (fuel : ℕ) (b : KytosEventBuffer Q) (w : W)
      → fifo.queue_get b.queue ≡ some (event, rest)
      → handler (suc fuel) b w
        ≡ go_on (handler fuel) event (record b { queue = rest }) (notify event w)
  unfolding event_handler get
  step event rest fuel b w first =
      ap
        (λ o.
          take_event re_match call create_task events_listeners fifo.queue_get (handler fuel)
            (got b o) b w)
        first

  run :
      (events : List (KytosEvent V)) (fuel : ℕ) (b : KytosEventBuffer Q) (w : W)
      → fifo.held b.queue ≡ events
      → has_shutdown events ≡ true
      → length (until_shutdown events) ≤ fuel
      → Ends events (notify_events (until_shutdown events) w) (handler fuel b w)
  run [] fuel b w holds shut enough = cc
  run (event ∷ events) zero b w holds shut enough = ground arith
  run (event ∷ events) (suc fuel) b w holds shut enough =
      let (rest, first, left) = fifo.get_first event events b.queue holds in
      rw (step event rest fuel b w first) (
        round (handler fuel) event events (record b { queue = rest }) (notify event w) left
          (λ more v.
            run events fuel (record b { queue = rest }) v left (ground (arith, more, shut))
              (ground (arith, more, enough))))

module _ {V Q : Type 0} (fifo : Fifo (KytosEvent V) Q) where
  held-queue_each :
      (events : List (KytosEvent V)) (q : Q)
      → fifo.held (queue_each fifo.queue_put events q) ≡ fifo.held q ++ events
  held-queue_each [] q = sym (append-nil (fifo.held q))
  held-queue_each (event ∷ events) q =
      held-queue_each events (fifo.queue_put event q)
      ∙ ap (λ l. l ++ events) (fifo.held-put event q)
      ∙ append_assoc (fifo.held q) (event ∷ []) events

until_shutdown-until_shutdown :
    {V : Type 0} (events : List (KytosEvent V))
    → until_shutdown (until_shutdown events) ≡ until_shutdown events
until_shutdown-until_shutdown [] = refl
until_shutdown-until_shutdown (event ∷ events) =
    ground (arith, until_shutdown-until_shutdown events)

behind_shutdown-until_shutdown :
    {V : Type 0} (events : List (KytosEvent V)) → behind_shutdown (until_shutdown events) ≡ []
behind_shutdown-until_shutdown [] = refl
behind_shutdown-until_shutdown (event ∷ events) =
    ground (arith, behind_shutdown-until_shutdown events)

has_shutdown-until_shutdown :
    {V : Type 0} (events : List (KytosEvent V))
    → has_shutdown (until_shutdown events) ≡ has_shutdown events
has_shutdown-until_shutdown [] = refl
has_shutdown-until_shutdown (event ∷ events) = ground (arith, has_shutdown-until_shutdown events)

module _ {V F W Q : Type 0} (fifo : Fifo (KytosEvent V) Q)
    (re_match : String → String → Result Bool) (call : F → KytosEvent V → W → Result (Unit {0}) × W)
    (create_task : F → KytosEvent V → W → W) (events_listeners : W → Dict (List (Listener F))) where
  -- For a first-in-first-out queue, as `conn`, `raw`, `app` and `meta` have by default and `msg_in` does
  -- not: if the events that are put into an open and empty buffer shut it down, its handler ends after at
  -- most as many rounds as there are events up to that one, whatever the listeners do: the state is
  -- the one after the listeners of exactly these events, in order, until one raises, and then the
  -- handler raises that; if none does, it stops, and the buffer is empty.
  pub event_handler_lem :
      (events : List (KytosEvent V)) (fuel : ℕ) (b : KytosEventBuffer Q) (w : W)
      → b.reject_new_events ≡ false
      → fifo.held b.queue ≡ []
      → has_shutdown events ≡ true
      → length (until_shutdown events) ≤ fuel
      → (b' : KytosEventBuffer Q) × (event_handler re_match call create_task events_listeners
            fifo.queue_get fuel
            (put_each fifo.queue_put events b)
            w
          ≡ (
            ended
                (notify_events fifo re_match call create_task events_listeners
                  (until_shutdown events)
                  w).0,
            (
              b',
              (notify_events fifo re_match call create_task events_listeners
                  (until_shutdown events)
                  w).1,
            ),
          ))
        × ((notify_events fifo re_match call create_task events_listeners
                (until_shutdown events)
                w).0
              ≡ ok tt
            → fifo.held b'.queue ≡ [])
  event_handler_lem events fuel b w opened empty shut enough =
      let (b', runs, left) =
        subst
          (λ es.
            (b' : KytosEventBuffer Q) × (event_handler re_match call create_task events_listeners
                fifo.queue_get fuel (put_each fifo.queue_put events b) w
              ≡ (ended (outcome es).0, (b', (outcome es).1)))
            × ((outcome es).0 ≡ ok tt
                → fifo.held b'.queue ≡ behind_shutdown (until_shutdown events)))
          (until_shutdown-until_shutdown events)
          (run fifo re_match call create_task events_listeners (until_shutdown events) fuel
            (put_each fifo.queue_put events b) w (holds events b opened empty)
            (has_shutdown-until_shutdown events ∙ shut)
            (rw (until_shutdown-until_shutdown events) enough)) in
      (b', runs, λ h. left h ∙ behind_shutdown-until_shutdown events)
    where
      outcome : List (KytosEvent V) → Result (Unit {0}) × W
      outcome es = notify_events fifo re_match call create_task events_listeners es w

      holds :
          (events : List (KytosEvent V)) (b : KytosEventBuffer Q)
          → b.reject_new_events ≡ false
          → fifo.held b.queue ≡ []
          → fifo.held (put_each fifo.queue_put events b).queue ≡ until_shutdown events
      holds events b opened empty =
          rw ((put_each_lem fifo.queue_put events b).1 opened)
            (rw (held-queue_each fifo (until_shutdown events) b.queue) (rw empty refl))
