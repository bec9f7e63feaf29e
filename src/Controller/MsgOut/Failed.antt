-- ===== src/Controller/MsgOut/Failed.antt =====
-- What happens to a message that cannot be written.
use Prim.Native.String.{◌++◌ as concat}
use kytos.Prelude.{ℕ, ◌≡◌, refl, String, true, false, some, ◌==◌, arith}
use kytos.Errors.{ok, Errno}
use kytos.Dict.{lookup, insert}
use kytos.Events.{KytosEvent, destination}
use kytos.Buffers.{put}
use kytos.Connection.{is_alive}
use kytos.Connection.Failed.{send-os_error, alive-is_finished}
use kytos.Controller.Switches.{update}
use kytos.Controller.MsgOut.{
  Value, a_message, a_connection, a_text, Sending, Surroundings, publish_connection_error,
  handle_msg_out,
}

==_refl : (a : ℕ) → (a == a) ≡ true
==_refl a = ground arith

module _ {M B T Q R W : Type 0} (outside : Surroundings M B T Q R W) where
  abbrev pub error_name : ℕ → String
  error_name r = concat "kytos/core." (concat (outside.protocol_name r) ".connection.error")

  -- If the transport of a connection that is alive refuses a message with an OSError, the handler
  -- goes on: the connection is not alive afterwards, whatever its closing does; one event is put into
  -- `conn`, which is the same event with the name of the error and with a text about the state that
  -- the connection has then; and no listener is called.
  pub handle_msg_out_lem :
      (m : M) (r : ℕ) (packet : B) (t t' : T) (e : Errno) (event : KytosEvent (Value M))
      (s : Sending T Q W)
      → lookup "message" event.content ≡ some (a_message m)
      → destination event ≡ some (a_connection r)
      → outside.pack m ≡ ok packet
      → is_alive (s.objects r) ≡ true
      → (s.objects r).transport ≡ some t
      → outside.write_transport packet t ≡ (t', some e)
      → (s' : Sending T Q W) × (handle_msg_out outside event s ≡ (ok tt, s'))
        × (is_alive (s'.objects r) ≡ false)
        × (s'.conn
            ≡ put outside.conn_put
                (record event {
                  name = error_name r;
                  content =
                      insert "exception" (a_text (outside.state_text (s'.objects r))) event.content;
                })
                s.conn)
        × (s'.world ≡ s.world)
  unfolding handle_msg_out publish_connection_error
  handle_msg_out_lem m r packet t t' e event s has_message has_connection packs alive there fails =
      let (f, c, sends, dead) =
        send-os_error outside.close_transport outside.write_transport packet (s.objects r) t t' e
          alive there fails in
      (
        publish_connection_error outside r event (record s { objects = update r c s.objects }),
        rw has_message (
            rw has_connection
              (rw (alive-is_finished (s.objects r) alive) (rw packs (rw sends refl)))),
        rw (==_refl r) dead,
        refl,
        refl,
      )
