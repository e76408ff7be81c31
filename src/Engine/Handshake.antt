-- ===== src/Engine/Handshake.antt =====
-- connection_engine.cpp: the two handshakes. `send` and `recv`, the transport's callbacks, act on a
-- state `T` of their own.
pub mod Authentic
pub mod Release
use pqc_messaging_app.Prelude.{
  String, Bool, true, false, not, Option, List, [], ◌++◌, Bytes, codes, if◌then◌else◌,
}
use pqc_messaging_app.Exec.{M, pure, gets, modify, scoped, try_catch, zoom, ◌>>=◌, ◌>>◌}
use pqc_messaging_app.Platform.{Platform}
use pqc_messaging_app.Protobuf.{HandshakeHello, Protobuf}
use pqc_messaging_app.Hkdf.{hkdf_sha256, hkdf_salt, hkdf_info}
use pqc_messaging_app.Kem
use pqc_messaging_app.Kem.{KyberKem}
use pqc_messaging_app.Session
use pqc_messaging_app.Identity.{is_loaded, throw_if, or_throw, sign, verify, fingerprint_hex}
use pqc_messaging_app.Engine.{version, ConnectionEngine, Outcome, success, failure}

unfoldable pub concat : Bytes → Bytes → Bytes → Bytes
concat prefix a b = prefix ++ (a ++ b)

-- The engine and the transport that its callbacks work on.
pub record Conn (T : Type 0) : Type 0 where
  pub engine : ConnectionEngine
  pub net : T

abbrev pub client_context : Bytes
client_context = codes "E2EE-HANDSHAKE-v1|client|"

abbrev pub server_context : Bytes
server_context = codes "E2EE-HANDSHAKE-v1|server|"

module _ {T : Type 0} where
  abbrev pub on_net : {A : Type 0} → M T A → M (Conn T) A
  on_net = zoom (λ (c : Conn T). c.net) (λ n c. record c { net = n })

  unfoldable pub with_engine : (ConnectionEngine → ConnectionEngine) → Conn T → Conn T
  with_engine f c = record c { engine = f c.engine }

  -- `session_.set_key(key); sessionReady_ = true;`
  unfoldable pub establish : Bytes → M (Conn T) Unit
  unfolding with_engine
  establish key =
      modify (
        with_engine λ e. record e { session = Session.set_key e.session key; session_ready = true })

module _ ⦃p : Platform⦄ ⦃g : Protobuf⦄ {T : Type 0} (send : Bytes → M T Bool)
    (recv : M T (Option Bytes)) where
  -- `clientHandshakeInternal` from the key pair on.
  unfoldable pub client_exchange : KyberKem → M (Conn T) (Outcome Bytes)
  client_exchange kem = do
    (pk, sk) ← Kem.keypair kem
    identity ← gets (λ c. c.engine.identity)
    sig ← sign identity.private_key (concat client_context pk [])
    hello ←
        or_throw
          (g.serialize_hello (record {
            kem_public_key = pk;
            version = version;
            identity_pub = identity.public_key;
            identity_sig = sig;
          }))
          "Failed to serialize HandshakeHello"
    sent ← on_net (send hello)
    throw_if (not sent) "Failed to send HandshakeHello"
    received ← on_net recv
    frame ← or_throw received "Failed to receive HandshakeResponse"
    resp ← or_throw (g.parse_response frame) "Failed to parse HandshakeResponse"
    valid ←
        verify resp.identity_pub (concat server_context resp.kem_ciphertext pk) resp.identity_sig
    throw_if (not valid) "Server signature verification failed"
    ss ← Kem.decapsulate kem resp.kem_ciphertext sk
    key ← hkdf_sha256 ss hkdf_salt hkdf_info 32
    establish key
    pure (success (fingerprint_hex resp.identity_pub))

  unfoldable pub client_handshake_internal : M (Conn T) (Outcome Bytes)
  unfolding client_exchange
  client_handshake_internal = do
    loaded ← gets (λ c. is_loaded c.engine.identity)
    if not loaded
        then pure (failure "Identity not loaded")
        else try_catch (do kem ← Kem.init; scoped (Kem.destructor kem) (client_exchange kem))
            failure

  -- `serverHandshakeInternal` from the construction of the KEM on.
  unfoldable pub server_reply : HandshakeHello → KyberKem → M (Conn T) (Outcome Bytes)
  server_reply hello kem = do
    (ct, ss) ← Kem.encapsulate kem hello.kem_public_key
    identity ← gets (λ c. c.engine.identity)
    sig ← sign identity.private_key (concat server_context ct hello.kem_public_key)
    resp ←
        or_throw
          (g.serialize_response (record {
            kem_ciphertext = ct;
            version = version;
            identity_pub = identity.public_key;
            identity_sig = sig;
          }))
          "Failed to serialize HandshakeResponse"
    sent ← on_net (send resp)
    throw_if (not sent) "Failed to send HandshakeResponse"
    key ← hkdf_sha256 ss hkdf_salt hkdf_info 32
    establish key
    pure (success (fingerprint_hex hello.identity_pub))

  unfoldable pub server_exchange : M (Conn T) (Outcome Bytes)
  unfolding server_reply
  server_exchange = do
    received ← on_net recv
    frame ← or_throw received "Failed to receive HandshakeHello"
    hello ← or_throw (g.parse_hello frame) "Failed to parse HandshakeHello"
    valid ←
        verify hello.identity_pub (concat client_context hello.kem_public_key []) hello.identity_sig
    throw_if (not valid) "Client signature verification failed"
    kem ← Kem.init
    scoped (Kem.destructor kem) (server_reply hello kem)

  unfoldable pub server_handshake_internal : M (Conn T) (Outcome Bytes)
  unfolding server_exchange
  server_handshake_internal = do
    loaded ← gets (λ c. is_loaded c.engine.identity)
    if not loaded then pure (failure "Identity not loaded") else try_catch server_exchange failure

  unfoldable pub run_client_handshake : M (Conn T) (Outcome Bytes)
  unfolding client_handshake_internal
  run_client_handshake = do
    modify (with_engine λ e. record e { session_ready = false })
    client_handshake_internal

  unfoldable pub run_server_handshake : M (Conn T) (Outcome Bytes)
  unfolding server_handshake_internal
  run_server_handshake = do
    modify (with_engine λ e. record e { session_ready = false })
    server_handshake_internal
