-- ===== src/Buffers/Manager.antt =====
-- kytos/core/buffers/manager.py and kytos/core/buffers/factory.py: the buffers of the controller. A
-- queue of janus is made by a parameter from its class and its size. There are no extension
-- processors, so every extension of a buffer is a KeyError.
use Prim.Native.Nat.{◌*◌}
use kytos.Prelude.{
  ℕ, ◌≡◌, refl, String, Bool, true, false, Option, none, some, List, [], ◌∷◌, str_eq, if◌then◌else◌,
}
use kytos.Errors.{Result, ok, err, key_error, type_error, ◌>>=◌}
use kytos.Dict.{Dict, lookup, insert}
use kytos.Events.{KytosEvent}
use kytos.Buffers.{KytosEventBuffer, new_buffer, put, shutdown}

-- Queue and PriorityQueue
pub data QueueClass : Type 0 where
  queue priority : QueueClass

-- A size: a number, a text that begins with "threadpool_", of which the name of the pool is kept, or
-- another text.
pub data Size : Type 0 where
  number : ℕ → Size
  threadpool : String → Size
  other_text : String → Size

pub record QueueConfig : Type 0 where
  pub type : Option String
  pub maxsize : Option Size
  pub maxsize_multiplier : Option ℕ

pub record BufferConfig : Type 0 where
  pub queue_config : QueueConfig
  pub extensions : List String

abbrev queue_class : Option String → Result QueueClass
queue_class none = ok queue
queue_class (some name) =
    if str_eq name "queue"
    then ok queue
    else if str_eq name "priority"
    then ok priority
    else err (key_error name)

abbrev or_number : Option ℕ → ℕ → ℕ
or_number none n = n
or_number (some m) n = m

module _ (pool_max_workers : Dict ℕ) where
  abbrev size_of : Option Size → Result ℕ
  unfolding lookup
  size_of none = ok 0
  size_of (some (number n)) = ok n
  size_of (some (threadpool pool)) = ok (or_number (lookup pool pool_max_workers) 0)
  size_of (some (other_text text)) = err type_error

  -- _get_maxsize
  unfoldable pub get_maxsize : String → ℕ
  unfolding lookup
  get_maxsize pool = or_number (lookup pool pool_max_workers) 0

  module _ {Q : Type 0} (make_queue : QueueClass → ℕ → Q) where
    unfoldable pub process_queue : QueueConfig → Result Q
    unfolding size_of
    process_queue config = queue_class config.type >>= λ made. size_of config.maxsize >>= λ size.
        ok (make_queue made (size * or_number config.maxsize_multiplier 1))

    abbrev extended_with : List String → KytosEventBuffer Q → Result (KytosEventBuffer Q)
    extended_with [] buffer = ok buffer
    extended_with (extension ∷ extensions) buffer = err (key_error extension)

    unfoldable pub buffer_from_config : String → BufferConfig → Result (KytosEventBuffer Q)
    unfolding process_queue new_buffer
    buffer_from_config name config = process_queue config.queue_config >>= λ made.
        extended_with config.extensions (new_buffer name made)

    abbrev core_buffers : Dict (KytosEventBuffer Q)
    unfolding new_buffer get_maxsize
    core_buffers =
        ("conn", new_buffer "conn" (make_queue queue 0))
        ∷ ("raw", new_buffer "raw" (make_queue queue (get_maxsize "sb")))
        ∷ ("msg_in", new_buffer "msg_in" (make_queue priority (get_maxsize "sb")))
        ∷ ("msg_out", new_buffer "msg_out" (make_queue priority (get_maxsize "sb")))
        ∷ ("app", new_buffer "app" (make_queue queue (get_maxsize "app")))
        ∷ ("meta", new_buffer "meta" (make_queue queue 0))
        ∷ []

    abbrev configured :
        Dict BufferConfig → Dict (KytosEventBuffer Q) → Result (Dict (KytosEventBuffer Q))
    unfolding buffer_from_config insert
    configured [] buffers = ok buffers
    configured ((name, config) ∷ configs) buffers =
        buffer_from_config name config >>= λ buffer. configured configs (insert name buffer buffers)

    -- A configured buffer with the name of another takes its place.
    unfoldable pub new_buffers : Dict BufferConfig → Result (Dict (KytosEventBuffer Q))
    unfolding configured core_buffers
    new_buffers buffer_conf = configured buffer_conf core_buffers

module _ {V Q : Type 0} (queue_put : KytosEvent V → Q → Q) where
  abbrev pub signal_all : KytosEvent V → Dict (KytosEventBuffer Q) → Dict (KytosEventBuffer Q)
  unfolding put
  signal_all event [] = []
  signal_all event ((name, buffer) ∷ buffers) =
      (name, put queue_put event buffer) ∷ signal_all event buffers

  -- The event is new, with the name of a shutdown.
  unfoldable pub send_stop_signal :
      KytosEvent V → Dict (KytosEventBuffer Q) → Dict (KytosEventBuffer Q)
  unfolding signal_all
  send_stop_signal event buffers = signal_all (record event { name = shutdown }) buffers

  abbrev all_rejecting : Dict (KytosEventBuffer Q) → Bool
  all_rejecting [] = true
  all_rejecting ((name, buffer) ∷ buffers) =
      if buffer.reject_new_events then all_rejecting buffers else false

  -- After the stop signal every buffer rejects new events.
  send_stop_signal_lem :
      (event : KytosEvent V) (buffers : Dict (KytosEventBuffer Q))
      → all_rejecting (send_stop_signal event buffers) ≡ true
  unfolding send_stop_signal put
  send_stop_signal_lem event [] = refl
  send_stop_signal_lem event ((name, buffer) ∷ buffers) = send_stop_signal_lem event buffers
