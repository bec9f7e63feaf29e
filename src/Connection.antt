-- ===== src/Connection.antt =====
-- kytos/core/connection.py. The transport belongs to asyncio: what `write` and `close` do to it, and
-- whether they raise an OSError, are parameters.
pub mod Closed
pub mod Failed
mod Tests
use kytos.Prelude.{ℕ, String, Bool, true, false, not, ◌&&◌, ◌||◌, Option, none, some, if◌then◌else◌}
use kytos.Errors.{Result, ok, err, Errno, enotconn, ebadf, other_errno, os_error}

pub data ConnectionState : Type 0 where
  new setup established failed finished : ConnectionState

-- `switch` is the identifier of the switch.
pub record Connection (T : Type 0) : Type 0 where
  pub address : String
  pub port : ℕ
  pub transport : Option T
  pub state : ConnectionState
  pub switch : Option String

unfoldable pub new_connection_object : {T : Type 0} → String → ℕ → Option T → Connection T
new_connection_object address port transport = record {
  address = address;
  port = port;
  transport = transport;
  state = new;
  switch = none;
}

-- `id`
abbrev pub connection_id : {T : Type 0} → Connection T → String × ℕ
connection_id c = (c.address, c.port)

abbrev is_over : ConnectionState → Bool
is_over finished = true
is_over failed = true
is_over _ = false

abbrev pub is_finished : ConnectionState → Bool
is_finished finished = true
is_finished _ = false

abbrev has_transport : {T : Type 0} → Option T → Bool
has_transport none = false
has_transport (some t) = true

unfoldable pub is_alive : {T : Type 0} → Connection T → Bool
is_alive c = has_transport c.transport && not (is_over c.state)

abbrev same_state : ConnectionState → ConnectionState → Bool
same_state new new = true
same_state setup setup = true
same_state established established = true
same_state failed failed = true
same_state finished finished = true
same_state _ _ = false

unfoldable pub is_new : {T : Type 0} → Connection T → Bool
is_new c = same_state c.state new

unfoldable pub is_established : {T : Type 0} → Connection T → Bool
is_established c = same_state c.state established

unfoldable pub is_during_setup : {T : Type 0} → Connection T → Bool
is_during_setup c = same_state c.state setup

unfoldable pub set_established_state : {T : Type 0} → Connection T → Connection T
set_established_state c = record c { state = established }

unfoldable pub set_setup_state : {T : Type 0} → Connection T → Connection T
set_setup_state c = record c { state = setup }

-- An error of the socket being closed already is passed over, and then the transport stays.
abbrev tolerated : Errno → Bool
tolerated enotconn = true
tolerated ebadf = true
tolerated (other_errno n) = false

module _ {T : Type 0} (close_transport : T → T × Option Errno) where
  abbrev after_close : Connection T → T × Option Errno → Result (Unit {0}) × Connection T
  after_close c (t, none) = (ok tt, record c { transport = none })
  after_close c (t, some e) =
      (if tolerated e then ok tt else err (os_error e), record c { transport = some t })

  -- None has no `close`: the AttributeError is passed over.
  abbrev close_given : Connection T → Option T → Result (Unit {0}) × Connection T
  close_given c none = (ok tt, c)
  close_given c (some t) = after_close c (close_transport t)

  unfoldable pub close : Connection T → Result (Unit {0}) × Connection T
  close c = close_given (record c { state = finished }) c.transport

  module _ {B : Type 0} (write_transport : B → T → T × Option Errno) where
    abbrev raise_after : Errno → Result (Unit {0}) × Connection T → Result (Unit {0}) × Connection T
    raise_after e (ok _, c) = (err (os_error e), c)
    raise_after e (err f, c) = (err f, c)

    abbrev after_write : Connection T → T × Option Errno → Result (Unit {0}) × Connection T
    after_write c (t, none) = (ok tt, record c { transport = some t })
    after_write c (t, some e) = raise_after e (close (record c { transport = some t }))

    abbrev write_given : B → Connection T → Option T → Result (Unit {0}) × Connection T
    write_given buffer c none = (ok tt, c)
    write_given buffer c (some t) = after_write c (write_transport buffer t)

    unfoldable pub send : B → Connection T → Result (Unit {0}) × Connection T
    unfolding is_alive close
    send buffer c = if is_alive c then write_given buffer c c.transport else (ok tt, c)
