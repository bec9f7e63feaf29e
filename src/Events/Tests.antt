-- ===== src/Events/Tests.antt =====
-- Small inputs of kytos/core/events.py.
use kytos.Prelude.{ℕ, ◌≡◌, ◌<◌, ◌⊎◌, ◌↔◌, true, false, []}
use kytos.Events.{ℤ, pos, negsuc, KytosEvent, less}
use kytos.Events.Order.{Below, less_lem}

abbrev event : ℤ → ℕ → KytosEvent ℕ
event priority timestamp = record {
  name = "kytos/core.switch.new";
  content = [];
  timestamp = timestamp;
  reinjections = 0;
  priority = priority;
  id = "a";
}

less_example :
    (less (event (negsuc 9) 7) (event (pos 0) 3) ≡ true
      ↔ (Below (negsuc 9) (pos 0) ⊎ ((negsuc 9 ≡ pos 0) × (7 < 3))))
    × (less (event (negsuc 9) 7) (event (negsuc 9) 7) ≡ false)
    × (less (event (negsuc 9) 7) (event (pos 0) 3) ≡ true
        → less (event (pos 0) 3) (event (pos 0) 5) ≡ true
        → less (event (negsuc 9) 7) (event (pos 0) 5) ≡ true)
    × (less (event (negsuc 9) 7) (event (pos 0) 3) ≡ false
        → less (event (pos 0) 3) (event (pos 0) 5) ≡ false
        → less (event (negsuc 9) 7) (event (pos 0) 5) ≡ false)
less_example = less_lem (event (negsuc 9) 7) (event (pos 0) 3) (event (pos 0) 5)
