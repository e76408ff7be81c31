-- ===== src/Engine/Message/Returns.antt =====
-- connection_engine.cpp: how both message operations are written to end. A frame whose tag does not
-- fit leaves the program undefined, which Forged tells apart.
use pqc_messaging_app.Prelude.{
  ◌≡◌, refl, String, Bool, true, false, not, Option, none, some, Bytes, if◌then◌else◌,
}
use pqc_messaging_app.Exec.{World, M}
use pqc_messaging_app.Exec.Reaches.{Reaches, Reaches-pure, Reaches-then_gets}
use pqc_messaging_app.Exec.Ends.{Ends, Ends-bind, Ends-pure, Ends-raise, Ends-try_catch}
use pqc_messaging_app.Platform.{Platform}
use pqc_messaging_app.Protobuf.{ChatMessage, Envelope, Protobuf}
use pqc_messaging_app.Crypto.Ends.{Ends-call_else, Ends-session_encrypt, Ends-session_decrypt}
use pqc_messaging_app.Crypto.{random_nonce}
use pqc_messaging_app.Identity.{or_throw}
use pqc_messaging_app.Session.{Session}
use pqc_messaging_app.Engine.{ConnectionEngine, Outcome, failure}
use pqc_messaging_app.Engine.Message.{
  now_seconds, seal, encrypt_and_serialize_message, open_chat, open_envelope,
  parse_and_decrypt_message,
}

-- It returns, and the object is `e` as before.
abbrev pub Intact : {A : Type 0} → ConnectionEngine → A → World ConnectionEngine → Type 0
Intact e _ v = v.obj ≡ e

module _ ⦃p : Platform⦄ ⦃g : Protobuf⦄ where
  open_chat-Returns :
      (s : Session) (inner : Option ChatMessage) (w : World ConnectionEngine)
      → Reaches (Intact w.obj) (open_chat s inner w)
  unfolding open_chat
  open_chat-Returns s none w = Reaches-pure _ w refl
  open_chat-Returns s (some inner) w = Ends-try_catch _ failure w (
      Ends-bind _ _ (Ends-session_decrypt s inner.encrypted_content inner.nonce)
        λ plain. Ends-pure _)

  open_envelope-Returns :
      (s : Session) (env : Option Envelope) (w : World ConnectionEngine)
      → Reaches (Intact w.obj) (open_envelope s env w)
  unfolding open_envelope
  open_envelope-Returns s none w = Reaches-pure _ w refl
  open_envelope-Returns s (some env) w = open_chat-Returns s (g.parse_chat env.payload_e2e) w

  chosen :
      (ready : Bool) (m k : M ConnectionEngine (Outcome Bytes)) (w : World ConnectionEngine)
      → Reaches (Intact w.obj) (m w)
      → Reaches (Intact w.obj) (k w)
      → Reaches (Intact w.obj) ((if ready then m else k) w)
  chosen true m k w hm hk = hm
  chosen false m k w hm hk = hk

  pub parse_and_decrypt_message-returns :
      (frame : Bytes) (w : World ConnectionEngine)
      → Reaches (Intact w.obj) (parse_and_decrypt_message frame w)
  unfolding parse_and_decrypt_message
  parse_and_decrypt_message-returns frame w = Reaches-then_gets _ _ w (
      chosen (not w.obj.session_ready) _ _ w (Reaches-pure _ w refl)
        (open_envelope-Returns w.obj.session (g.parse_envelope frame) w))

  Ends-now_seconds : Ends {S = ConnectionEngine} now_seconds
  unfolding now_seconds
  Ends-now_seconds = record { at = λ w. refl }

  Ends-or_throw :
      {A : Type 0} (o : Option A) (e : String) → Ends {S = ConnectionEngine} (or_throw o e)
  unfolding or_throw
  Ends-or_throw none e = Ends-raise e
  Ends-or_throw (some a) e = Ends-pure a

  Ends-random_nonce : Ends {S = ConnectionEngine} random_nonce
  unfolding random_nonce
  Ends-random_nonce = Ends-call_else _ _ (Ends-raise _)

  Ends-seal :
      (s : Session) (plaintext sender_id to_username : Bytes)
      → Ends (seal s plaintext sender_id to_username)
  unfolding seal
  Ends-seal s plaintext sender_id to_username = Ends-bind _ _ Ends-random_nonce λ nonce.
      Ends-bind _ _ (Ends-session_encrypt s plaintext nonce) λ ct_tag.
        Ends-bind _ _ Ends-now_seconds λ sent_at. Ends-bind _ _ (Ends-or_throw _ _) λ inner.
          Ends-bind _ _ Ends-now_seconds
            λ stamped_at. Ends-bind _ _ (Ends-or_throw _ _) λ env. Ends-pure _

  pub encrypt_and_serialize_message-returns :
      (plaintext sender_id to_username : Bytes) (w : World ConnectionEngine)
      → Reaches (Intact w.obj) (encrypt_and_serialize_message plaintext sender_id to_username w)
  unfolding encrypt_and_serialize_message
  encrypt_and_serialize_message-returns plaintext sender_id to_username w =
      Reaches-then_gets _ _ w (
        chosen (not w.obj.session_ready) _ _ w (Reaches-pure _ w refl)
          (Ends-try_catch _ failure w (Ends-seal w.obj.session plaintext sender_id to_username)))
