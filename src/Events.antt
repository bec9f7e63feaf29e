-- ===== src/Events.antt =====
-- kytos/core/events.py: `KytosEvent` and its order. The time is in microseconds, and a priority may
-- be below 0.
mod Tests
pub mod Order
use kytos.Prelude.{ℕ, String, Bool, true, false, not, Option, List, [], ltb, ◌==◌, if◌then◌else◌}
use kytos.Dict.{Dict, lookup, insert}

pub data ℤ : Type 0 where
  pos : ℕ → ℤ
  negsuc : ℕ → ℤ

abbrev pub int_ltb : ℤ → ℤ → Bool
int_ltb (pos a) (pos b) = ltb a b
int_ltb (pos a) (negsuc b) = false
int_ltb (negsuc a) (pos b) = true
int_ltb (negsuc a) (negsuc b) = ltb b a

abbrev pub int_eq : ℤ → ℤ → Bool
int_eq (pos a) (pos b) = a == b
int_eq (negsuc a) (negsuc b) = a == b
int_eq _ _ = false

abbrev pub is_positive : ℤ → Bool
is_positive (pos n) = ltb 0 n
is_positive (negsuc n) = false

-- `V` is the type of the values in the content.
pub record KytosEvent (V : Type 0) : Type 0 where
  pub name : String
  pub content : Dict V
  pub timestamp : ℕ
  pub reinjections : ℕ
  pub priority : ℤ
  pub id : String

-- The time and the id are `now()` and `uuid4()`.
unfoldable pub new_event : {V : Type 0} → String → Dict V → ℤ → ℕ → String → KytosEvent V
new_event name content priority now uuid = record {
  name = name;
  content = content;
  timestamp = now;
  reinjections = 0;
  priority = priority;
  id = uuid;
}

-- __lt__
unfoldable pub less : {V : Type 0} → KytosEvent V → KytosEvent V → Bool
less self other =
    if not (int_eq self.priority other.priority)
    then int_ltb self.priority other.priority
    else ltb self.timestamp other.timestamp

module _ {V : Type 0} where
  unfoldable pub destination : KytosEvent V → Option V
  unfolding lookup
  destination event = lookup "destination" event.content

  unfoldable pub set_destination : V → KytosEvent V → KytosEvent V
  unfolding insert
  set_destination to event = record event { content = insert "destination" to event.content }

  unfoldable pub source : KytosEvent V → Option V
  unfolding lookup
  source event = lookup "source" event.content

  unfoldable pub set_source : V → KytosEvent V → KytosEvent V
  unfolding insert
  set_source from event = record event { content = insert "source" from event.content }

  -- None if there is no message.
  unfoldable pub message : KytosEvent V → Option V
  unfolding lookup
  message event = lookup "message" event.content
