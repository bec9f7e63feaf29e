-- ===== src/Controller/MsgOut/Tests.antt =====
-- A small input of the handler of outgoing messages: numbers stand for messages, packets and
-- transports, and lists for the queues.

use kytos.Prelude.{ℕ, ◌≡◌, refl, false, Option, none, some, List, [], ◌∷◌, ◌++◌, ◌+◌}
use kytos.Errors.{ok, Errno, other_errno}
use kytos.Dict.{lookup, insert}
use kytos.Events.{KytosEvent, pos, destination}
use kytos.Buffers.{put}
use kytos.Connection.{established, is_alive}
use kytos.Controller.MsgOut.{
  Value, a_message, a_connection, a_text, Sending, Surroundings, handle_msg_out,
}
use kytos.Controller.MsgOut.Failed.{error_name, handle_msg_out_lem}

abbrev flow_mod : KytosEvent (Value ℕ)
flow_mod = record {
  name = "kytos/flow_manager.messages.out.ofpt_flow_mod";
  content = ("message", a_message 7) ∷ ("destination", a_connection 0) ∷ [];
  timestamp = 0;
  reinjections = 0;
  priority = pos 0;
  id = "1";
}

abbrev Queue : Type 0
Queue = List (KytosEvent (Value ℕ))

abbrev first : Queue → Option (KytosEvent (Value ℕ) × Queue)
first [] = none
first (e ∷ q) = some (e, q)

abbrev broken_pipe : Errno
broken_pipe = other_errno 32

abbrev outside : Surroundings ℕ ℕ ℕ Queue Queue ℕ
outside = record {
  pack = λ m. ok m;
  write_transport = λ packet t. (t, some broken_pipe);
  close_transport = λ t. (t, none);
  notify = λ event w. (ok tt, w + 1);
  protocol_name = λ r. "of_core";
  state_text = λ c. "4";
  conn_put = λ event q. q ++ event ∷ [];
  msg_out_get = first;
}

abbrev sending : Sending ℕ Queue ℕ
sending = record {
  objects = λ r. record {
    address = "10.0.0.1";
    port = 6653;
    transport = some r;
    state = established;
    switch = none;
  };
  conn = record { name = "conn"; queue = []; reject_new_events = false };
  world = 0;
}

handle_msg_out_example :
    (s' : Sending ℕ Queue ℕ) × (handle_msg_out outside flow_mod sending ≡ (ok tt, s'))
    × (is_alive (s'.objects 0) ≡ false)
    × (s'.conn
        ≡ put outside.conn_put
            (record flow_mod {
              name = error_name outside 0;
              content = insert "exception" (a_text "4") flow_mod.content;
            })
            sending.conn)
    × (s'.world ≡ 0)
unfolding lookup destination is_alive
handle_msg_out_example =
    handle_msg_out_lem outside 7 0 7 0 0 broken_pipe flow_mod sending refl refl refl refl refl refl
