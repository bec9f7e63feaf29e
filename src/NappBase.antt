-- ===== src/NappBase.antt =====
-- kytos/core/napps/base.py: the identity of a `NApp`, and the listeners, the shutdown and the loop of a
-- `KytosNApp`. The code of a NApp (`setup`, `execute`, `shutdown`) is a parameter, with the exceptions of `execute`, `W` is the state
-- outside, `L` the type of the listeners. The thread that sets the event of the shutdown is not the
-- thread that waits for it, so whether the event is set is read from `W`.
pub mod Listeners
pub mod Loop
mod Tests
use Prim.Native.String.{[] as empty, ◌∷◌ as cons, ◌++◌ as concat}
use kytos.Prelude.{
  ℕ, zero, suc, String, Bool, true, false, not, ◌&&◌, Option, none, some, List, [], ◌∷◌, ◌++◌,
  str_eq, if◌then◌else◌,
}
use kytos.Dict.{Dict, lookup, insert}
use kytos.Events.{ℤ, is_positive}
use kytos.Controller.Napps.{shutdown_event}

pub record Napp : Type 0 where
  pub username : Option String
  pub name : Option String
  pub version : Option String
  pub repository : Option String

abbrev is_true : Option String → Bool
is_true none = false
is_true (some empty) = false
is_true (some (cons c text)) = true

abbrev or_latest : Option String → String
or_latest none = "latest"
or_latest (some empty) = "latest"
or_latest (some (cons c text)) = cons c text

abbrev in_text : Option String → String
in_text none = "None"
in_text (some text) = text

unfoldable pub new_napp : Option String → Option String → Option String → Option String → Napp
new_napp username name version repository = record {
  username = username;
  name = name;
  version = some (or_latest version);
  repository = repository;
}

-- `id`
unfoldable pub napp_id : Napp → String
napp_id napp = concat (in_text napp.username) (concat "/" (in_text napp.name))

-- __eq__
unfoldable pub same_napp : Napp → Napp → Bool
unfolding napp_id
same_napp napp other = str_eq (napp_id napp) (napp_id other)

unfoldable pub has_valid_repository : Napp → Bool
has_valid_repository napp = is_true napp.username && (is_true napp.name && is_true napp.repository)

unfoldable pub uri : Napp → String
unfolding napp_id has_valid_repository
uri napp =
    if has_valid_repository napp
    then concat (in_text napp.repository)
        (concat "/" (concat (napp_id napp) (concat "-" (or_latest napp.version))))
    else empty

abbrev with_suffix : String → String
with_suffix empty = empty
with_suffix (cons c text) = concat (cons c text) ".napp"

unfoldable pub package_url : Napp → String
unfolding uri
package_url napp = with_suffix (uri napp)

module _ {L : Type 0} where
  abbrev pub extended : Option (List L) → L → List L
  extended none method = method ∷ []
  extended (some listeners) method = listeners ++ method ∷ []

  -- for event_name in method.events
  abbrev pub listen_to_each : L → List String → Dict (List L) → Dict (List L)
  unfolding lookup insert
  listen_to_each method [] d = d
  listen_to_each method (event ∷ events) d =
      listen_to_each method events (insert event (extended (lookup event d) method) d)

  -- The methods that listen to events, each with its events.
  abbrev pub listen_all : List (L × List String) → Dict (List L) → Dict (List L)
  unfolding listen_to_each
  listen_all [] d = d
  listen_all ((method, events) ∷ methods) d = listen_all methods (listen_to_each method events d)

  -- The listeners that `__init__` leaves.
  unfoldable pub build_listeners : String → String → L → List (L × List String) → Dict (List L)
  unfolding listen_all
  build_listeners username name shutdown_handler methods = listen_all methods (
      insert (shutdown_event username name) (shutdown_handler ∷ [])
        (insert "kytos/core.shutdown" (shutdown_handler ∷ []) []))

-- How a call of `execute` ends: it returns, it raises an Exception, or it raises what is a
-- BaseException only, as `NoSuchActionError` of kytos/core/pacing.py is.
pub data Executed : Type 0 where
  done : Executed
  exception : Executed
  base_exception : Executed

-- What `run` ends in: it has returned or raised, or it runs still.
pub data Running : Type 0 where
  returned raised still : Running

module _ {W : Type 0} (execute : W → Executed × W)
    (notify_loaded wait log_error shutdown set : W → W) (is_set : W → Bool) where
  -- try: self.execute() / except Exception: LOG.error(...), and then what follows
  abbrev pub try_execute : (W → Running × W) → Executed × W → Running × W
  try_execute later (done, w) = later w
  try_execute later (exception, w) = later (log_error w)
  try_execute later (base_exception, w) = (raised, w)

  -- At most `fuel` rounds of the loop.
  abbrev pub run_loop : ℕ → ℤ → W → Running × W
  run_loop zero interval w = (still, w)
  run_loop (suc fuel) interval w =
      let later = try_execute (run_loop fuel interval) (execute (wait w)) in
      if is_positive interval && not (is_set w) then later else (returned, w)

  unfoldable pub run : ℕ → ℤ → W → Running × W
  run fuel interval w = try_execute (run_loop fuel interval) (execute (notify_loaded w))

  unfoldable pub shutdown_handler : W → W
  shutdown_handler w = if is_set w then w else shutdown (set w)
