-- ===== src/Engine/Loopback/Message.antt =====
-- tools/engine_loopback_test.cpp: the message that follows the handshake, and the test as a whole.
pub mod Delivery
use pqc_messaging_app.Prelude.{
  Bool, true, false, not, Option, none, some, Bytes, codes, if◌then◌else◌,
}
use pqc_messaging_app.Exec.{M, pure, modify, zoom, ◌>>=◌, ◌>>◌}
use pqc_messaging_app.Platform.{Platform}
use pqc_messaging_app.Protobuf.{Protobuf}
use pqc_messaging_app.Engine.{ConnectionEngine, Outcome, success, failure}
use pqc_messaging_app.Engine.Handshake.{Conn}
use pqc_messaging_app.Engine.Message.{encrypt_and_serialize_message, parse_and_decrypt_message}
use pqc_messaging_app.Engine.Loopback.{Wire, send_to, recv_from, on_c2s, closed, loopback}

-- The client, the server and the wire of the test.
abbrev pub Test : Type 0
Test = Conn (Conn Wire)

abbrev pub on_client : {A : Type 0} → M ConnectionEngine A → M Test A
on_client = zoom (λ (t : Test). t.engine) (λ e t. record t { engine = e })

abbrev pub on_server : {A : Type 0} → M ConnectionEngine A → M Test A
on_server =
    zoom (λ (t : Test). t.net.engine) (λ e t. record t { net = record t.net { engine = e } })

abbrev pub on_wire : {A : Type 0} → M Wire A → M Test A
on_wire = zoom (λ (t : Test). t.net.net) (λ n t. record t { net = record t.net { net = n } })

module _ ⦃p : Platform⦄ ⦃g : Protobuf⦄ where
  -- What the test prints in the end and returns 0, or the error that it prints and returns 1.
  unfoldable pub opened : Option Bytes → M Test (Outcome Bytes)
  opened none = pure (failure "unexpected channel state")
  opened (some inbound) = on_server (parse_and_decrypt_message inbound)

  unfoldable pub posted : Outcome Bytes → M Test (Outcome Bytes)
  unfolding opened
  posted (failure e) = pure (failure e)
  posted (success frame) = do
    sent ← on_wire (on_c2s (send_to frame))
    if not sent then pure (failure "send frame failed") else (on_wire (on_c2s recv_from) >>= opened)

  unfoldable pub round_trip : Bytes → M Test (Outcome Bytes)
  unfolding posted
  round_trip text =
      on_client (encrypt_and_serialize_message text (codes "client") (codes "server")) >>= posted

  -- What follows the client's handshake.
  unfoldable pub after_client : Bytes → Outcome Bytes → M Test (Outcome Bytes)
  unfolding round_trip
  after_client text (failure e) =
      on_wire (modify (λ n. record { c2s = closed n.c2s; s2c = closed n.s2c })) >> pure (failure e)
  after_client text (success peer_client) = round_trip text

  -- The test from its handshake on, with the text "hello loopback".
  unfoldable pub test_run : Bytes → M Test (Outcome Bytes)
  unfolding after_client
  test_run text = loopback >>= after_client text
