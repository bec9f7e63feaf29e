-- ===== src/Controller/MsgOut.antt =====
-- kytos/core/controller.py: `msg_out_event_handler` and `publish_connection_error`. To pack a message
-- is python-openflow's, to write and to close asyncio's, and the listeners are the program's: all
-- three are parameters. A connection is an object, as in Controller/Switches.
pub mod Failed
mod Tests
use Prim.Native.String.{◌++◌ as concat}
use kytos.Prelude.{
  ℕ, zero, suc, String, Bool, true, false, Option, none, some, ◌==◌, str_eq, if◌then◌else◌,
}
use kytos.Errors.{
  Error, Result, ok, err, Errno, key_error, attribute_error, os_error, pack_exception,
}
use kytos.Dict.{lookup, insert}
use kytos.Events.{KytosEvent, destination, set_destination}
use kytos.Buffers.{KytosEventBuffer, put, get, shutdown}
use kytos.Connection.{Connection, ConnectionState, finished, is_finished, send}
use kytos.Controller.Switches.{update}
use kytos.Controller.Listeners.{End, stopped, waiting, unfinished, raised}

-- A value in the content of an event: a message, a connection or a text.
pub data Value (M : Type 0) : Type 0 where
  a_message : M → Value M
  a_connection : ℕ → Value M
  a_text : String → Value M
  nothing : Value M

-- The connections, the buffer `conn` and the state that the listeners see.
pub record Sending (T : Type 0) (Q : Type 0) (W : Type 0) : Type 0 where
  pub objects : ℕ → Connection T
  pub conn : KytosEventBuffer Q
  pub world : W

-- What the handler meets outside. `protocol_name` is of the protocol of a connection, `state_text` the
-- text about its state, and the queues are of the buffers `conn` and `msg_out`.
pub record Surroundings (M : Type 0) (B : Type 0) (T : Type 0) (Q : Type 0) (R : Type 0)
    (W : Type 0) : Type 0 where
  pub pack : M → Result B
  pub write_transport : B → T → T × Option Errno
  pub close_transport : T → T × Option Errno
  pub notify : KytosEvent (Value M) → W → Result (Unit {0}) × W
  pub protocol_name : ℕ → String
  pub state_text : Connection T → String
  pub conn_put : KytosEvent (Value M) → Q → Q
  pub msg_out_get : R → Option (KytosEvent (Value M) × R)

module _ {M B T Q R W : Type 0} (outside : Surroundings M B T Q R W) where
  unfoldable pub publish_connection_error : ℕ → KytosEvent (Value M) → Sending T Q W → Sending T Q W
  unfolding insert put
  publish_connection_error r event s = record s {
    conn =
        put outside.conn_put
          (record event {
            name = concat "kytos/core." (concat (outside.protocol_name r) ".connection.error");
            content = insert "exception" (a_text (outside.state_text (s.objects r))) event.content;
          })
          s.conn;
  }

  abbrev notified : Result (Unit {0}) × W → Sending T Q W → Result (Unit {0}) × Sending T Q W
  notified (out, w) s = (out, record s { world = w })

  abbrev sent :
      ℕ
      → KytosEvent (Value M)
      → Sending T Q W
      → Result (Unit {0}) × Connection T
      → Result (Unit {0}) × Sending T Q W
  sent r event s (err e, c) = (err e, record s { objects = update r c s.objects })
  sent r event s (ok _, c) =
      notified (outside.notify event s.world) (record s { objects = update r c s.objects })

  abbrev pub packed :
      ℕ → KytosEvent (Value M) → Sending T Q W → Result B → Result (Unit {0}) × Sending T Q W
  unfolding send
  packed r event s (err e) = (err e, s)
  packed r event s (ok packet) =
      sent r event s (send outside.close_transport outside.write_transport packet (s.objects r))

  -- Only a message can be packed.
  abbrev pub pack_value : Value M → Result B
  pack_value (a_message m) = outside.pack m
  pack_value _ = err attribute_error

  -- The except clauses.
  abbrev pub recovered :
      ℕ
      → KytosEvent (Value M)
      → Result (Unit {0}) × Sending T Q W
      → Result (Unit {0}) × Sending T Q W
  unfolding publish_connection_error
  recovered r event (ok _, s) = (ok tt, s)
  recovered r event (err (os_error e), s) = (ok tt, publish_connection_error r event s)
  recovered r event (err pack_exception, s) = (ok tt, s)
  recovered r event (err other, s) = (err other, s)

  abbrev pub deliver :
      Value M
      → Option (Value M)
      → KytosEvent (Value M)
      → Sending T Q W
      → Result (Unit {0}) × Sending T Q W
  unfolding packed recovered
  deliver message none event s = (ok tt, s)
  deliver message (some nothing) event s = (ok tt, s)
  deliver message (some (a_connection r)) event s =
      if is_finished (s.objects r).state
      then (ok tt, s)
      else recovered r event (packed r event s (pack_value message))
  deliver message (some other) event s = (err attribute_error, s)

  abbrev pub with_message :
      Option (Value M) → KytosEvent (Value M) → Sending T Q W → Result (Unit {0}) × Sending T Q W
  unfolding deliver destination
  with_message none event s = (err (key_error "message"), s)
  with_message (some message) event s = deliver message (destination event) event s

  -- One round for an event that does not stop the handler.
  unfoldable pub handle_msg_out :
      KytosEvent (Value M) → Sending T Q W → Result (Unit {0}) × Sending T Q W
  unfolding with_message lookup
  handle_msg_out event s = with_message (lookup "message" event.content) event s

  abbrev pub next_round :
      (KytosEventBuffer R → Sending T Q W → End × (KytosEventBuffer R × Sending T Q W))
      → KytosEventBuffer R
      → Result (Unit {0}) × Sending T Q W
      → End × (KytosEventBuffer R × Sending T Q W)
  next_round loop b (err e, s) = (raised e, (b, s))
  next_round loop b (ok _, s) = loop b s

  abbrev pub msg_out_round :
      (KytosEventBuffer R → Sending T Q W → End × (KytosEventBuffer R × Sending T Q W))
      → Option (KytosEvent (Value M) × KytosEventBuffer R)
      → KytosEventBuffer R
      → Sending T Q W
      → End × (KytosEventBuffer R × Sending T Q W)
  unfolding handle_msg_out
  msg_out_round loop none b s = (waiting, (b, s))
  msg_out_round loop (some (event, rest)) b s =
      if str_eq event.name shutdown
      then (stopped, (rest, s))
      else next_round loop rest (handle_msg_out event s)

  -- At most `fuel` rounds.
  unfoldable pub msg_out_event_handler :
      ℕ → KytosEventBuffer R → Sending T Q W → End × (KytosEventBuffer R × Sending T Q W)
  unfolding msg_out_round get
  msg_out_event_handler zero b s = (unfinished, (b, s))
  msg_out_event_handler (suc fuel) b s =
      msg_out_round (msg_out_event_handler fuel) (get outside.msg_out_get b) b s
