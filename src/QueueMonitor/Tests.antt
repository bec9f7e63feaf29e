-- ===== src/QueueMonitor/Tests.antt =====
-- Small inputs of kytos/core/queue_monitor.py.
use kytos.Prelude.{ℕ, ◌≤◌, ◌<◌, ◌≡◌, refl, ◌↔◌, List, [], ◌∷◌, ◌++◌}
use kytos.Errors.{ok, err, zero_division_error}
use kytos.Events.{pos}
use kytos.Clock.{seconds}
use kytos.QueueMonitor.{
  QueueRecord, QueueMonitorWindow, validate, get_records, popleft_passed, take_near,
}
use kytos.QueueMonitor.Window.{Passed, StartsRecent, IsCounted, get_records_lem, validate_iff}

abbrev r : ℕ → QueueRecord
r at = record { size = 9; id = "a"; created_at = at }

abbrev window : QueueMonitorWindow
window = record {
  name = "app";
  min_hits = 2;
  delta_secs = 5;
  min_size_threshold = 1;
  deque = r 1000000 ∷ r 20000000 ∷ r 21000000 ∷ r 26000000 ∷ [];
  last_counted_at = 0;
}

program : Unit {0}
unfolding get_records popleft_passed take_near seconds validate
program = tt

get_records_run : (get_records 22000000 window).0 ≡ r 20000000 ∷ r 21000000 ∷ []
unfolding program
get_records_run = refl

validate_zero : validate (pos 0) (pos 0) (pos 0) ≡ err zero_division_error
unfolding program
validate_zero = refl

get_records_example :
    (passed : List QueueRecord) × (window.deque
      ≡ passed ++ ((get_records 22000000 window).0 ++ (get_records 22000000 window).1.deque))
    × Passed 22000000 5 passed
    × StartsRecent 22000000 5
        ((get_records 22000000 window).0 ++ (get_records 22000000 window).1.deque)
    × IsCounted 22000000 window (get_records 22000000 window)
get_records_example = get_records_lem 22000000 window

validate_iff_example : validate (pos 3) (pos 5) (pos 1) ≡ ok tt ↔ (
    (h : ℕ) × (d : ℕ) × (m : ℕ) × (pos 3 ≡ pos h)
    × (pos 5 ≡ pos d)
    × (pos 1 ≡ pos m)
    × (0 < d)
    × (h ≤ d))
validate_iff_example = validate_iff (pos 3) (pos 5) (pos 1)
