-- ===== src/Buffers/Shutdown.antt =====
-- What a buffer takes before and after the event that shuts it down.
use kytos.Prelude.{
  ◌≡◌, refl, ◌∙◌, ap, ◌||◌, Bool, true, false, List, [], ◌∷◌, arith, str_eq, if◌then◌else◌,
  Bool-cases, inl, inr,
}
use kytos.Events.{KytosEvent}
use kytos.Buffers.{KytosEventBuffer, shutdown, put}

-- The events up to the first that shuts a buffer down, that one included.
abbrev pub until_shutdown : {V : Type 0} → List (KytosEvent V) → List (KytosEvent V)
until_shutdown [] = []
until_shutdown (event ∷ events) =
    event ∷ (if str_eq event.name shutdown then [] else until_shutdown events)

abbrev pub has_shutdown : {V : Type 0} → List (KytosEvent V) → Bool
has_shutdown [] = false
has_shutdown (event ∷ events) = str_eq event.name shutdown || has_shutdown events

module _ {V Q : Type 0} (queue_put : KytosEvent V → Q → Q) where
  abbrev pub put_each : List (KytosEvent V) → KytosEventBuffer Q → KytosEventBuffer Q
  put_each [] b = b
  put_each (event ∷ events) b = put_each events (put queue_put event b)

  abbrev pub queue_each : List (KytosEvent V) → Q → Q
  queue_each [] q = q
  queue_each (event ∷ events) q = queue_each events (queue_put event q)

  put_each-rejected :
      (events : List (KytosEvent V)) (b : KytosEventBuffer Q)
      → b.reject_new_events ≡ true
      → put_each events b ≡ b
  unfolding put
  put_each-rejected [] b h = refl
  put_each-rejected (event ∷ events) b h = ground (arith, put_each-rejected events b h)

  put-open :
      (event : KytosEvent V) (b : KytosEventBuffer Q)
      → b.reject_new_events ≡ false
      → put queue_put event b ≡ record b {
        queue = queue_put event b.queue;
        reject_new_events = str_eq event.name shutdown;
      }
  unfolding put
  put-open event b h = ground arith

  -- A buffer that is open gets exactly the events up to the first that shuts it down, in the order
  -- in which they are put, and it is shut afterwards exactly if there was one; what is put into a
  -- buffer that is shut changes nothing.
  pub put_each_lem :
      (events : List (KytosEvent V)) (b : KytosEventBuffer Q)
      → (b.reject_new_events ≡ true → put_each events b ≡ b)
        × (b.reject_new_events ≡ false
            → put_each events b ≡ record b {
              queue = queue_each (until_shutdown events) b.queue;
              reject_new_events = has_shutdown events;
            })
  put_each_lem events b = (put_each-rejected events b, taken events b)
    where
      taken :
          (events : List (KytosEvent V)) (b : KytosEventBuffer Q)
          → b.reject_new_events ≡ false
          → put_each events b ≡ record b {
            queue = queue_each (until_shutdown events) b.queue;
            reject_new_events = has_shutdown events;
          }
      taken [] b h = ground arith
      taken (event ∷ events) b h = elim (Bool-cases (str_eq event.name shutdown)) [
        | inl e ↦ ap (put_each events) (put-open event b h) ∙ rw e (put_each-rejected events _ refl)
        | inr e ↦ ap (put_each events) (put-open event b h) ∙ rw e (taken events _ refl)
      ]
