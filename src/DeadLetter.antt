-- ===== src/DeadLetter.antt =====
-- kytos/core/dead_letter.py: `DeadLetter`. The payloads are what pydantic has validated. A handler
-- replies or raises, and what it has changed by then stays. `self.dict` is a defaultdict: to read a
-- name that is not there puts it there, with no events.
pub mod Kept
pub mod Reinjected
mod Tests
use kytos.Prelude.{
  ℕ, suc, ◌+◌, String, Bool, true, false, not, ◌&&◌, ◌||◌, Option, none, some, List, [], ◌∷◌, leb,
  length, str_eq, if◌then◌else◌,
}
use kytos.Errors.{Result, ok, err, http_exception, runtime_error, key_error}
use kytos.Dict.{Dict, lookup, insert, delete, has_key}
use kytos.Events.{KytosEvent}
use kytos.Buffers.{KytosEventBuffer, put}

-- The two buffers that an event can be put back into stand beside the dead letters.
pub record DeadLetter (V Q : Type 0) : Type 0 where
  pub dict : Dict (Dict (KytosEvent V))
  pub max_len_per_event_name : ℕ
  pub app : KytosEventBuffer Q
  pub msg_in : KytosEventBuffer Q

-- `kytos_queue_buffer` is one of two names.
pub data QueueBufferName : Type 0 where
  app msg_in : QueueBufferName

abbrev pub value : QueueBufferName → String
value QueueBufferName.app = "app"
value QueueBufferName.msg_in = "msg_in"

abbrev pub reinjected : {V : Type 0} → KytosEvent V → KytosEvent V
reinjected event = record event { reinjections = event.reinjections + 1 }

abbrev pub or_empty : {V : Type 0} → Option (Dict V) → Dict V
or_empty none = []
or_empty (some d) = d

module _ {V : Type 0} where
  -- popitem(last=False)
  abbrev pop_oldest : Dict (KytosEvent V) → Result (Dict (KytosEvent V))
  pop_oldest [] = err (key_error "dictionary is empty")
  pop_oldest (oldest ∷ rest) = ok rest

  abbrev make_room : ℕ → Dict (KytosEvent V) → Result (Dict (KytosEvent V))
  make_room max_len events = if leb max_len (length events) then pop_oldest events else ok events

  -- set(ids) - set(keys) is not empty
  unfoldable pub misses : List String → Dict (KytosEvent V) → Bool
  misses [] events = false
  misses (event_id ∷ ids) events = not (has_key event_id events) || misses ids events

abbrev pub Reply : Type 0 → Type 0 → Type 0
Reply V Q = Result (Unit {0}) × DeadLetter V Q

module _ {V Q : Type 0} where
  -- self.dict[event_name], without the entry that it may make
  abbrev pub events_of : String → DeadLetter V Q → Dict (KytosEvent V)
  events_of event_name s = or_empty (lookup event_name s.dict)

  abbrev pub set_events : String → Dict (KytosEvent V) → DeadLetter V Q → DeadLetter V Q
  set_events event_name events s = record s { dict = insert event_name events s.dict }

  abbrev store : KytosEvent V → DeadLetter V Q → Result (Dict (KytosEvent V)) → Reply V Q
  store event s (err e) = (err e, set_events event.name (events_of event.name s) s)
  store event s (ok room) = (ok tt, set_events event.name (insert event.id event room) s)

  unfoldable pub add_event : KytosEvent V → DeadLetter V Q → Reply V Q
  add_event event s = store event s (make_room s.max_len_per_event_name (events_of event.name s))

  -- self.dict[event_name].pop(event_id, None)
  unfoldable pub delete_event :
      String → String → DeadLetter V Q → Option (KytosEvent V) × DeadLetter V Q
  delete_event event_name event_id s = (
    lookup event_id (events_of event_name s),
    set_events event_name (delete event_id (events_of event_name s)) s,
  )

  unfoldable pub delete_event_name : String → DeadLetter V Q → DeadLetter V Q
  delete_event_name event_name s = record s { dict = delete event_name s.dict }

  -- for _id in body.ids: self.delete_event(event_name, _id)
  unfoldable pub delete_events : String → List String → DeadLetter V Q → DeadLetter V Q
  unfolding delete_event
  delete_events event_name [] s = s
  delete_events event_name (event_id ∷ ids) s =
      delete_events event_name ids (delete_event event_name event_id s).1

  -- An iterator over the keys of a dict finds, when it is asked for another key, that the dict has
  -- another size.
  abbrev delete_all : Dict (Dict (KytosEvent V)) → DeadLetter V Q → Reply V Q
  delete_all [] s = (ok tt, s)
  delete_all ((event_name, events) ∷ more) s = (err runtime_error, delete_event_name event_name s)

  abbrev delete_some : String → List String → DeadLetter V Q → Reply V Q
  delete_some event_name [] s = (ok tt, delete_event_name event_name s)
  delete_some event_name (event_id ∷ ids) s = (ok tt, delete_events event_name (event_id ∷ ids) s)

  -- `rest_delete`; the detail of a reply is not kept.
  unfoldable pub rest_delete : String → List String → DeadLetter V Q → Reply V Q
  rest_delete event_name ids s =
      if str_eq event_name "all"
      then delete_all s.dict s
      else if not (has_key event_name s.dict)
      then (err (http_exception 404), s)
      else if misses ids (events_of event_name s)
      then (err (http_exception 404), s)
      else delete_some event_name ids s

  -- What stands under a name, in the reply of `rest_list`; `as_json` is of the event.
  unfoldable pub list_event : String → DeadLetter V Q → Dict (KytosEvent V) × DeadLetter V Q
  list_event event_name s =
      (events_of event_name s, set_events event_name (events_of event_name s) s)

module _ {V Q : Type 0} (queue_put : KytosEvent V → Q → Q) where
  -- getattr(self.controller.buffers, buffer_name).put(kytos_event)
  abbrev pub put_into : String → KytosEvent V → DeadLetter V Q → DeadLetter V Q
  put_into buffer_name event s =
      if str_eq buffer_name "app"
      then record s { app = put queue_put event s.app }
      else record s { msg_in = put queue_put event s.msg_in }

  abbrev reinject_found :
      String → String → String → Option (KytosEvent V) → DeadLetter V Q → DeadLetter V Q
  reinject_found event_name event_id buffer_name none s = s
  reinject_found event_name event_id buffer_name (some event) s =
      put_into buffer_name (reinjected event)
        (set_events event_name (delete event_id (events_of event_name s)) s)

  unfoldable pub reinject : String → String → String → DeadLetter V Q → DeadLetter V Q
  reinject event_name event_id buffer_name s =
      if not (str_eq buffer_name "app" || str_eq buffer_name "msg_in")
      then s
      else if not (has_key event_name s.dict)
      then s
      else reinject_found event_name event_id buffer_name (lookup event_id (events_of event_name s))
          s

  unfoldable pub reinject_each : String → List String → String → DeadLetter V Q → DeadLetter V Q
  unfolding reinject
  reinject_each event_name [] buffer_name s = s
  reinject_each event_name (event_id ∷ ids) buffer_name s =
      reinject_each event_name ids buffer_name (reinject event_name event_id buffer_name s)

  -- Without ids the loop goes over the keys of the dict that it pops from. An iterator over an
  -- OrderedDict finds that out when it is asked for another key, unless it has given the last one.
  abbrev reinject_live : String → Dict (KytosEvent V) → String → DeadLetter V Q → Reply V Q
  reinject_live event_name [] buffer_name s = (ok tt, s)
  reinject_live event_name ((event_id, event) ∷ []) buffer_name s =
      (ok tt, reinject event_name event_id buffer_name s)
  reinject_live event_name ((event_id, event) ∷ _ ∷ _) buffer_name s =
      (err runtime_error, reinject event_name event_id buffer_name s)

  abbrev reinject_some : String → List String → String → DeadLetter V Q → Reply V Q
  reinject_some event_name [] buffer_name s =
      reinject_live event_name (events_of event_name s) buffer_name s
  reinject_some event_name (event_id ∷ ids) buffer_name s =
      (ok tt, reinject_each event_name (event_id ∷ ids) buffer_name s)

  unfoldable pub rest_patch : String → List String → QueueBufferName → DeadLetter V Q → Reply V Q
  rest_patch event_name ids kytos_queue_buffer s =
      if not (has_key event_name s.dict)
      then (err (http_exception 404), s)
      else if misses ids (events_of event_name s)
      then (err (http_exception 404), s)
      else reinject_some event_name ids (value kytos_queue_buffer) s
