-- ===== src/Connection/Tests.antt =====
-- Small inputs of kytos/core/connection.py, with a transport that counts what was written to it.
use kytos.Prelude.{ℕ, ◌+◌, ◌≡◌, refl, false, Option, none, some}
use kytos.Errors.{ok, Errno, ebadf}
use kytos.Connection.{Connection, is_alive, is_established, close, send, established}
use kytos.Connection.Closed.{EndsWell, send_lem}

abbrev close_counter : ℕ → ℕ × Option Errno
close_counter n = (n, some ebadf)

abbrev write_counter : ℕ → ℕ → ℕ × Option Errno
write_counter k n = (n + k, none)

abbrev open_connection : Connection ℕ
open_connection = record {
  address = "127.0.0.1";
  port = 6653;
  transport = some 0;
  state = established;
  switch = none;
}

send_run :
    send close_counter write_counter 5 open_connection
    ≡ (ok tt, record open_connection { transport = some 5 })
unfolding send
send_run = refl

send_example :
    (is_alive (close close_counter open_connection).1 ≡ false)
    × (is_established (close close_counter open_connection).1 ≡ false)
    × (send close_counter write_counter 5 (close close_counter open_connection).1
        ≡ (ok tt, (close close_counter open_connection).1))
    × EndsWell close_counter write_counter (send close_counter write_counter 5 open_connection)
send_example = send_lem close_counter write_counter 5 open_connection
