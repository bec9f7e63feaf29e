-- ===== src/Clock.antt =====
-- Points in time, in microseconds since some start, and the fields of Python's `timedelta` that
-- kytos/core/switch.py and kytos/core/queue_monitor.py read off a difference of two.
use Prim.Native.Nat.{◌/◌, ◌%◌, ◌*◌}
use kytos.Prelude.{ℕ, ◌+◌, ◌-◌, ◌≤◌, ◌≡◌, leb, if◌then◌else◌, arith}

abbrev pub second : ℕ
second = 1000000

abbrev pub day : ℕ
day = 86400000000

-- A `timedelta` is whole days, of either sign, and what is over, which is never negative: the part
-- of a day in `later - earlier`.
abbrev pub rest_of_day : ℕ → ℕ → ℕ
rest_of_day later earlier =
    if leb earlier later then (later - earlier) % day else (day - (earlier - later) % day) % day

-- (later - earlier).seconds
unfoldable pub seconds : ℕ → ℕ → ℕ
seconds later earlier = rest_of_day later earlier / second

-- (later - earlier).microseconds
unfoldable pub microseconds : ℕ → ℕ → ℕ
microseconds later earlier = rest_of_day later earlier % second

-- Whole days make no difference to the field.
pub seconds-add_days :
    (later earlier days : ℕ)
    → earlier ≤ later
    → seconds (later + days * day) earlier ≡ seconds later earlier
unfolding seconds
seconds-add_days later earlier days h = ground arith

pub microseconds-add_seconds :
    (later earlier n : ℕ)
    → earlier ≤ later
    → microseconds (later + n * second) earlier ≡ microseconds later earlier
unfolding microseconds
microseconds-add_seconds later earlier n h = ground arith
