-- ===== src/Buffers.antt =====
-- kytos/core/buffers/buffers.py: `KytosEventBuffer`. The queue belongs to the library janus: `put`
-- and `get` of its `sync_q` (or `async_q`) are parameters. `put` is called without a timeout, and
-- then it waits for a free slot; `get` waits for an event, so it has none to return only while the
-- queue is empty. Log lines are not kept.
pub mod Shutdown
pub mod Manager
mod Tests
use kytos.Prelude.{
  String, Bool, true, false, Option, none, some, List, [], ◌∷◌, str_eq, if◌then◌else◌,
}
use kytos.Events.{KytosEvent}

pub record KytosEventBuffer (Q : Type 0) : Type 0 where
  pub name : String
  pub queue : Q
  pub reject_new_events : Bool

abbrev pub shutdown : String
shutdown = "kytos/core.shutdown"

unfoldable pub new_buffer : {Q : Type 0} → String → Q → KytosEventBuffer Q
new_buffer name queue = record { name = name; queue = queue; reject_new_events = false }

module _ {V Q : Type 0} (queue_put : KytosEvent V → Q → Q) where
  abbrev put_queue : KytosEvent V → KytosEventBuffer Q → KytosEventBuffer Q
  put_queue event b =
      if b.reject_new_events then b else record b { queue = queue_put event b.queue }

  -- `put` and `aput`
  unfoldable pub put : KytosEvent V → KytosEventBuffer Q → KytosEventBuffer Q
  put event b =
      if str_eq event.name shutdown
      then record (put_queue event b) { reject_new_events = true }
      else put_queue event b

abbrev pub got :
    {V Q : Type 0}
    → KytosEventBuffer Q
    → Option (KytosEvent V × Q)
    → Option (KytosEvent V × KytosEventBuffer Q)
got b none = none
got b (some (event, rest)) = some (event, record b { queue = rest })

module _ {V Q : Type 0} (queue_get : Q → Option (KytosEvent V × Q)) where
  -- `get` and `aget`
  unfoldable pub get : KytosEventBuffer Q → Option (KytosEvent V × KytosEventBuffer Q)
  get b = got b (queue_get b.queue)
