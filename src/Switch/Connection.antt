-- ===== src/Switch/Connection.antt =====
-- What the clock does to a switch.
use Prim.Native.Nat.{◌*◌}
use kytos.Prelude.{
  ℕ, ◌+◌, ◌≤◌, ◌<◌, ◌≡◌, ◌↔◌, ◌∙◌, ap, refl, String, Bool, true, ◌&&◌, Option, none, some, ltb, leb,
  arith,
}
use kytos.Errors.{ok, err, type_error}
use kytos.Clock.{seconds, day, second, microseconds, microseconds-add_seconds}
use kytos.Dict.{lookup, lookup-insert_self}
use kytos.Switch.{
  Socket, answers, Switch, is_connected, should_flood, last_flood, update_flood_table,
  flood_timeout,
}

and3_iff : (p q r : Bool) → (p && (q && r)) ≡ true ↔ ((p ≡ true) × (q ≡ true) × (r ≡ true))
and3_iff p q r = (λ h. (ground arith, ground arith, ground arith), λ (a, b, c). ground arith)

answers_iff :
    (timeout since : ℕ) (o : Option Socket)
    → answers timeout since o ≡ true ↔ (
        (c : Socket) × (o ≡ some c)
        × (c.alive ≡ true)
        × (c.established ≡ true)
        × (leb since timeout ≡ true))
answers_iff timeout since none = (λ h. cc, λ (c, e, alive, established, soon). cc)
answers_iff timeout since (some c) = (
  λ h.
      let (alive, established, soon) = (and3_iff c.alive c.established (leb since timeout)).0 h in
      (c, refl, alive, established, soon),
  λ (d, e, alive, established, soon).
      let same : c ≡ d = cc in
      (and3_iff c.alive c.established (leb since timeout)).1
        (ap (λ x. x.alive) same ∙ alive, ap (λ x. x.established) same ∙ established, soon),
)

in_time_iff :
    (timeout start days rest : ℕ)
    → rest < day
    → leb (seconds (start + rest + days * day) start) timeout ≡ true
      ↔ (rest < (timeout + 1) * second)
unfolding seconds
in_time_iff timeout start days rest h = (λ e. ground (arith, e), λ e. ground (arith, e))

-- When a switch was last seen a number of days and a rest of a day ago, in microseconds, it is
-- connected exactly if it has a connection that is alive and established, and the rest has no more
-- whole seconds than the timeout: the days make no difference.
pub is_connected_iff :
    (timeout days rest : ℕ) (s : Switch)
    → rest < day
    → is_connected timeout (s.lastseen + rest + days * day) s ≡ true ↔ (
        (c : Socket) × (s.connection ≡ some c)
        × (c.alive ≡ true)
        × (c.established ≡ true)
        × (rest < (timeout + 1) * second))
unfolding is_connected
is_connected_iff timeout days rest s h =
    let since = seconds (s.lastseen + rest + days * day) s.lastseen in
    let whole = answers_iff timeout since s.connection in
    let time = in_time_iff timeout s.lastseen days rest h in
    (
      λ e.
          let (c, there, alive, established, soon) = whole.0 e in
          (c, there, alive, established, time.0 soon),
      λ (c, there, alive, established, soon). whole.1 (c, there, alive, established, time.1 soon),
    )

-- A frame that was never flooded makes `should_flood` raise. At a time after a flood of the frame,
-- a whole number of seconds more makes no difference: only the part of a second counts.
pub should_flood_lem :
    (now later n : ℕ) (frame other : String) (s : Switch)
    → now ≤ later
    → lookup other s.flood_table ≡ none
    → (should_flood later other s ≡ err type_error)
      × (should_flood (later + n * second) frame (update_flood_table now frame s)
          ≡ ok (ltb flood_timeout (microseconds later now)))
unfolding should_flood last_flood update_flood_table
should_flood_lem now later n frame other s h fresh = (
  rw fresh refl,
  rw (lookup-insert_self frame now s.flood_table)
      (rw (microseconds-add_seconds later now n h) refl),
)
