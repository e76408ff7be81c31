-- ===== src/Engine/Loopback/Laws.antt =====
-- connection_engine.cpp: what two honest engines rely on, and what they tell each other.
use pqc_messaging_app.Prelude.{ℕ, ◌+◌, ◌≡◌, true, false, Option, some, List, [], ◌∷◌, Bytes, length}
use pqc_messaging_app.Platform.{Platform}
use pqc_messaging_app.Protobuf.{HandshakeHello, HandshakeResponse, Protobuf, Small}
use pqc_messaging_app.Hkdf.Release.{session_key}
use pqc_messaging_app.Kem.Laws.{KemLaws}
use pqc_messaging_app.Identity.{Identity, is_loaded, fingerprint_hex}
use pqc_messaging_app.Engine.{ConnectionEngine, Outcome, success}
use pqc_messaging_app.Engine.Handshake.{Conn, concat, client_context, server_context}
use pqc_messaging_app.Engine.Handshake.Authentic.{ready}
use pqc_messaging_app.Engine.Loopback.{Channel, Wire}

-- What the handshake relies on: Ed25519 takes the keys that it generated, and verifies what they
-- sign; HKDF gives the length asked for; the messages are not too large.
pub record HandshakeLaws ⦃p : Platform⦄ : Type 0 where
  pub kem : KemLaws
  pub takes_public : (h : ℕ) → p.takes_public_key (p.ed25519_keygen h).0 ≡ true
  pub takes_private : (h : ℕ) → p.takes_private_key (p.ed25519_keygen h).1 ≡ true
  pub verifies :
      (h : ℕ) (msg : Bytes)
      → p.ed25519_verify (p.ed25519_keygen h).0 msg (p.ed25519_sign (p.ed25519_keygen h).1 msg)
        ≡ true
  pub loaded :
      (h : ℕ)
      → is_loaded
          (record { public_key = (p.ed25519_keygen h).0; private_key = (p.ed25519_keygen h).1 })
        ≡ true
  pub length_derived : (ss : Bytes) → length (session_key ss) ≡ 32
  pub small_hello :
      (h : ℕ) (msg : Bytes)
      → Small (
          p.length_public_key
          + length (p.ed25519_keygen h).0
          + length (p.ed25519_sign (p.ed25519_keygen h).1 msg))
  pub small_response :
      (h : ℕ) (msg : Bytes)
      → Small (
          p.length_ciphertext
          + length (p.ed25519_keygen h).0
          + length (p.ed25519_sign (p.ed25519_keygen h).1 msg))

-- The identity that the h-th handle's key pair gives.
abbrev pub generated : ⦃p : Platform⦄ → ℕ → Identity
generated ⦃p⦄ h = record {
  public_key = (p.ed25519_keygen h).0;
  private_key = (p.ed25519_keygen h).1;
}

abbrev pub open_channel : List Bytes → Channel
open_channel q = record { q = q; closed = false }

abbrev pub wire : List Bytes → List Bytes → Wire
wire c2s s2c = record { c2s = open_channel c2s; s2c = open_channel s2c }

abbrev pub conn : {T : Type 0} → ConnectionEngine → T → Conn T
conn engine net = record { engine = engine; net = net }

abbrev pub unkeyed : ConnectionEngine → Identity → ConnectionEngine
unkeyed e i = record { identity = i; session = e.session; session_ready = false }

module _ ⦃p : Platform⦄ ⦃g : Protobuf⦄ where
  -- The server's answer to the hello of an honest client, and how its handshake ends.
  abbrev pub Answered : ConnectionEngine → HandshakeHello → ℕ → Outcome Bytes → Conn Wire → Type 0
  Answered e hello s o c =
      (j : ℕ) × (frame : Bytes) × (resp : HandshakeResponse) × (o
        ≡ success (fingerprint_hex hello.identity_pub))
      × (c
          ≡ conn (ready e (session_key (p.kem_encaps j hello.kem_public_key).1))
              (wire [] (frame ∷ [])))
      × (g.parse_response frame ≡ some resp)
      × (resp.kem_ciphertext ≡ (p.kem_encaps j hello.kem_public_key).0)
      × (resp.identity_pub ≡ (p.ed25519_keygen s).0)
      × (resp.identity_sig
          ≡ p.ed25519_sign (p.ed25519_keygen s).1
              (concat server_context (p.kem_encaps j hello.kem_public_key).0 hello.kem_public_key))

  -- The hello of an honest client.
  abbrev pub Greeted : ℕ → ℕ → HandshakeHello → Type 0
  Greeted i c hello =
      (hello.kem_public_key ≡ (p.kem_keypair i).0)
      × (hello.identity_pub ≡ (p.ed25519_keygen c).0)
      × (hello.identity_sig
          ≡ p.ed25519_sign (p.ed25519_keygen c).1 (concat client_context hello.kem_public_key []))

  -- What the client receives: the server's answer, with the session key set on the server's side.
  abbrev pub Received : ConnectionEngine → Bytes → ℕ → Option Bytes → Conn Wire → Type 0
  Received e pk s got c =
      (j : ℕ) × (frame : Bytes) × (resp : HandshakeResponse) × (got ≡ some frame)
      × (c ≡ conn (ready e (session_key (p.kem_encaps j pk).1)) (wire [] []))
      × (g.parse_response frame ≡ some resp)
      × (resp.kem_ciphertext ≡ (p.kem_encaps j pk).0)
      × (resp.identity_pub ≡ (p.ed25519_keygen s).0)
      × (resp.identity_sig
          ≡ p.ed25519_sign (p.ed25519_keygen s).1 (concat server_context (p.kem_encaps j pk).0 pk))

  -- Both engines are ready with one key of 32 bytes, and the client has the server's fingerprint.
  abbrev pub Agreed :
      ConnectionEngine → ConnectionEngine → ℕ → ℕ → Outcome Bytes → Conn (Conn Wire) → Type 0
  Agreed a b c s o out =
      (key : Bytes) × (length key ≡ 32)
      × (o ≡ success (fingerprint_hex (p.ed25519_keygen s).0))
      × (out
          ≡ conn (ready (unkeyed a (generated c)) key)
              (conn (ready (unkeyed b (generated s)) key) (wire [] [])))
