-- ===== src/QueueMonitor.antt =====
-- kytos/core/queue_monitor.py: `QueueMonitorWindow`. The window is validated, gets records in the
-- order of time, and gives those that are counted. Times are in microseconds, and `.seconds` is the
-- field of a timedelta. A method that asks `now()` more than once is given one time. The sampling
-- task and the log lines are not modelled.
pub mod Window
mod Tests
use Prim.Native.Nat.{◌*◌, ◌/◌}
use kytos.Prelude.{
  ℕ, suc, ◌+◌, max, min, String, Bool, true, false, not, ◌&&◌, ◌||◌, Option, none, some, List, [],
  ◌∷◌, ◌++◌, ltb, leb, length, ◌==◌, if◌then◌else◌,
}
use kytos.Errors.{Result, ok, err, core_exception, zero_division_error, ◌>>=◌, ◌>>◌, raise_if}
use kytos.Clock.{seconds}
use kytos.Events.{ℤ, pos, negsuc}

pub record QueueRecord : Type 0 where
  pub size : ℕ
  pub id : String
  pub created_at : ℕ

pub record QueueMonitorWindow : Type 0 where
  pub name : String
  pub min_hits : ℕ
  pub delta_secs : ℕ
  pub min_size_threshold : ℕ
  pub deque : List QueueRecord
  pub last_counted_at : ℕ

abbrev is_negative : ℤ → Bool
is_negative (pos n) = false
is_negative (negsuc n) = true

abbrev magnitude : ℤ → ℕ
magnitude (pos n) = n
magnitude (negsuc n) = suc n

-- ratio = min_hits / delta_secs, and it must be at most 1
abbrev check_ratio : ℕ → ℕ → Result (Unit {0})
check_ratio min_hits delta_secs =
    if delta_secs == 0
    then err zero_division_error
    else raise_if (ltb delta_secs min_hits) core_exception

-- `_validate`
unfoldable pub validate : ℤ → ℤ → ℤ → Result (Unit {0})
validate min_hits delta_secs min_size_threshold = do
  raise_if (is_negative min_hits) core_exception
  raise_if (is_negative delta_secs) core_exception
  raise_if (is_negative min_size_threshold) core_exception
  check_ratio (magnitude min_hits) (magnitude delta_secs)

-- `__init__`; the time 0 stands for 1970.
unfoldable pub new_window : String → ℤ → ℤ → ℤ → Result QueueMonitorWindow
unfolding validate
new_window name min_hits delta_secs min_size_threshold =
    validate min_hits delta_secs min_size_threshold
    >> ok (record {
      name = name;
      min_hits = magnitude min_hits;
      delta_secs = magnitude delta_secs;
      min_size_threshold = magnitude min_size_threshold;
      deque = [];
      last_counted_at = 0;
    })

-- `_try_to_append`
unfoldable pub try_to_append :
    QueueRecord → QueueMonitorWindow → Option QueueRecord × QueueMonitorWindow
try_to_append queue_data w =
    if ltb queue_data.size w.min_size_threshold
    then (none, w)
    else (some queue_data, record w { deque = w.deque ++ queue_data ∷ [] })

-- `_popleft_passed_records`, on the deque
unfoldable pub popleft_passed : ℕ → ℕ → List QueueRecord → List QueueRecord
popleft_passed now delta_secs [] = []
popleft_passed now delta_secs (first ∷ rest) =
    let later = popleft_passed now delta_secs rest in
    if ltb delta_secs (seconds now first.created_at) then later else first ∷ rest

-- The inner loop of `_get_records`: the records that are near to the first, and what is left.
unfoldable pub take_near : ℕ → ℕ → List QueueRecord → List QueueRecord × List QueueRecord
take_near delta_secs start [] = ([], [])
take_near delta_secs start (r ∷ rest) =
    let (near, left) = take_near delta_secs start rest in
    if leb (seconds r.created_at start) delta_secs then (r ∷ near, left) else ([], r ∷ rest)

-- records[-1].created_at
abbrev pub last_created : QueueRecord → List QueueRecord → ℕ
last_created first [] = first.created_at
last_created first (r ∷ rs) = last_created r rs

-- The hits, if the window has enough of them and has waited for long enough.
abbrev is_hit : ℕ → QueueRecord → List QueueRecord → QueueMonitorWindow → Bool
is_hit now first rest w =
    leb w.min_hits (length (first ∷ rest))
    && (leb (seconds now first.created_at) w.delta_secs
        && leb w.delta_secs (seconds now w.last_counted_at))

abbrev count_hits :
    QueueRecord
    → List QueueRecord × List QueueRecord
    → QueueMonitorWindow
    → List QueueRecord × QueueMonitorWindow
count_hits first (near, left) w =
    (first ∷ near, record w { deque = left; last_counted_at = last_created first near })

abbrev hits_of : ℕ → List QueueRecord → QueueMonitorWindow → List QueueRecord × QueueMonitorWindow
hits_of now [] w = ([], record w { deque = [] })
hits_of now (first ∷ rest) w =
    if is_hit now first rest w
    then count_hits first (take_near w.delta_secs first.created_at rest) w
    else ([], record w { deque = first ∷ rest })

-- `_get_records`
unfoldable pub get_records : ℕ → QueueMonitorWindow → List QueueRecord × QueueMonitorWindow
unfolding popleft_passed take_near
get_records now w = hits_of now (popleft_passed now w.delta_secs w.deque) w

-- What `_log_queue_stats` computes: the least and the greatest size and their sum.
unfoldable pub size_stats : QueueRecord → List QueueRecord → ℕ × ℕ × ℕ
size_stats first records = go records first.size first.size 0
  where
    go : List QueueRecord → ℕ → ℕ → ℕ → ℕ × ℕ × ℕ
    go [] min_size max_size size_acc = (min_size, max_size, size_acc)
    go (rec ∷ rest) min_size max_size size_acc =
        go rest (min min_size rec.size) (max max_size rec.size) (size_acc + rec.size)
