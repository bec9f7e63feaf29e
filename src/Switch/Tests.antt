-- ===== src/Switch/Tests.antt =====
-- Small inputs of kytos/core/switch.py.
use Prim.Native.Nat.{◌*◌}
use kytos.Prelude.{◌+◌, ◌≡◌, ◌<◌, ◌↔◌, refl, true, some, [], ltb, arith}
use kytos.Errors.{ok, err, type_error}
use kytos.Clock.{day, second, microseconds}
use kytos.Dict.{lookup}
use kytos.Switch.{Socket, Switch, is_connected, should_flood, update_flood_table, flood_timeout}
use kytos.Switch.Connection.{is_connected_iff, should_flood_lem}

abbrev core : Switch
core = record {
  dpid = "00:01";
  connection = some (record { alive = true; established = true });
  lastseen = 5000000;
  mac2port = [];
  flood_table = [];
}

is_connected_example : is_connected 130 (5000000 + 2000000 + 3 * day) core ≡ true ↔ (
    (c : Socket) × (core.connection ≡ some c)
    × (c.alive ≡ true)
    × (c.established ≡ true)
    × (2000000 < (130 + 1) * second))
is_connected_example = is_connected_iff 130 3 2000000 core (omega arith)

should_flood_example :
    (should_flood 5400000 "b" core ≡ err type_error)
    × (should_flood (5400000 + 2 * second) "a" (update_flood_table 5000000 "a" core)
        ≡ ok (ltb flood_timeout (microseconds 5400000 5000000)))
should_flood_example =
    should_flood_lem 5000000 5400000 2 "a" "b" core (omega arith) (unfold lookup in refl)
