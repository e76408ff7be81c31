-- ===== src/Engine/Message.antt =====
-- connection_engine.cpp: the encryption of an outgoing message and the decryption of a frame.
pub mod RoundTrip
pub mod Returns
pub mod Forged
use pqc_messaging_app.Prelude.{ℕ, not, Option, none, some, [], Bytes, if◌then◌else◌}
use pqc_messaging_app.Exec.{ok, M, pure, gets, try_catch, ◌>>=◌}
use pqc_messaging_app.Platform.{Platform}
use pqc_messaging_app.Platform.Calls.{counted}
use pqc_messaging_app.Protobuf.{ChatMessage, Envelope, Protobuf}
use pqc_messaging_app.Crypto.{random_nonce}
use pqc_messaging_app.Session
use pqc_messaging_app.Session.{Session}
use pqc_messaging_app.Identity.{or_throw}
use pqc_messaging_app.Engine.{version, ConnectionEngine, Outcome, success, failure}

module _ ⦃p : Platform⦄ where
  -- nowSeconds()
  pub now_seconds : {S : Type 0} → M S ℕ
  now_seconds w = (ok (p.seconds w.calls), counted w)

module _ ⦃p : Platform⦄ ⦃g : Protobuf⦄ where
  pub seal : Session → Bytes → Bytes → Bytes → M ConnectionEngine (Outcome Bytes)
  unfolding now_seconds
  seal session plaintext sender_id to_username = do
    nonce ← random_nonce
    ct_tag ← Session.encrypt session plaintext nonce
    sent_at ← now_seconds
    inner ←
        or_throw
          (g.serialize_chat (record {
            sender_id = sender_id;
            encrypted_content = ct_tag;
            nonce = nonce;
            timestamp_unix = sent_at;
          }))
          "Failed to serialize ChatMessage"
    stamped_at ← now_seconds
    env ←
        or_throw
          (g.serialize_envelope (record {
            version = version;
            to_username = to_username;
            sender_pubkey = [];
            payload_e2e = inner;
            client_timestamp = stamped_at;
          }))
          "Failed to serialize Envelope"
    pure (success env)

  pub encrypt_and_serialize_message : Bytes → Bytes → Bytes → M ConnectionEngine (Outcome Bytes)
  unfolding seal
  encrypt_and_serialize_message plaintext sender_id to_username = do
    engine ← gets (λ e. e)
    if not engine.session_ready
        then pure (failure "Session key not established")
        else try_catch (seal engine.session plaintext sender_id to_username) failure

  pub open_chat : Session → Option ChatMessage → M ConnectionEngine (Outcome Bytes)
  open_chat session none = pure (failure "Malformed ChatMessage")
  open_chat session (some inner) =
      try_catch
        (do
          plain ← Session.decrypt session inner.encrypted_content inner.nonce
          pure (success plain))
        failure

  pub open_envelope : Session → Option Envelope → M ConnectionEngine (Outcome Bytes)
  unfolding open_chat
  open_envelope session none = pure (failure "Malformed Envelope")
  open_envelope session (some env) = open_chat session (g.parse_chat env.payload_e2e)

  pub parse_and_decrypt_message : Bytes → M ConnectionEngine (Outcome Bytes)
  unfolding open_envelope
  parse_and_decrypt_message frame = do
    engine ← gets (λ e. e)
    if not engine.session_ready
        then pure (failure "Session key not established")
        else open_envelope engine.session (g.parse_envelope frame)
