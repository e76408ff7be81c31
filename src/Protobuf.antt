-- ===== src/Protobuf.antt =====
-- envelope.proto, handshake.proto and messages.proto: the messages. The code that protoc generates
-- is not under the repository: what it writes and reads is a parameter.
use pqc_messaging_app.Prelude.{ℕ, ◌+◌, ◌^◌, ◌≤◌, ◌≡◌, Bool, true, Option, some, Bytes, length}

pub record HandshakeHello : Type 0 where
  pub kem_public_key : Bytes
  pub version : ℕ
  pub identity_pub : Bytes
  pub identity_sig : Bytes

pub record HandshakeResponse : Type 0 where
  pub kem_ciphertext : Bytes
  pub version : ℕ
  pub identity_pub : Bytes
  pub identity_sig : Bytes

pub record ChatMessage : Type 0 where
  pub sender_id : Bytes
  pub encrypted_content : Bytes
  pub nonce : Bytes
  pub timestamp_unix : ℕ

pub record Envelope : Type 0 where
  pub version : ℕ
  pub to_username : Bytes
  pub sender_pubkey : Bytes
  pub payload_e2e : Bytes
  pub client_timestamp : ℕ

-- SerializeToString and ParseFromArray of each message; `none` is their `false`. A frame of 2 GiB or
-- more, whose size `int` does not hold, is left out.
pub record Protobuf : Type 0 where
  pub serialize_hello : HandshakeHello → Option Bytes
  pub parse_hello : Bytes → Option HandshakeHello
  pub serialize_response : HandshakeResponse → Option Bytes
  pub parse_response : Bytes → Option HandshakeResponse
  pub serialize_chat : ChatMessage → Option Bytes
  pub parse_chat : Bytes → Option ChatMessage
  pub serialize_envelope : Envelope → Option Bytes
  pub parse_envelope : Bytes → Option Envelope
  -- Whether a `string` field is valid UTF-8, which proto3 parsers want.
  pub is_utf8 : Bytes → Bool

-- Far below the 2 GiB at which serialization fails.
abbrev pub Small : ℕ → Type 0
Small n = n ≤ 2 ^ 24

abbrev pub Written : {A : Type 0} → (A → Option Bytes) → (Bytes → Option A) → A → Type 0
Written serialize parse m = (b : Bytes) × (serialize m ≡ some b) × (parse b ≡ some m)

-- As documented: a message that is not too large is written, and read back to itself; the writing of
-- a chat message adds at most a hundred bytes to its fields.
pub record ProtobufLaws ⦃g : Protobuf⦄ : Type 0 where
  pub hello :
      (m : HandshakeHello)
      → Small (length m.kem_public_key + length m.identity_pub + length m.identity_sig)
      → Written g.serialize_hello g.parse_hello m
  pub response :
      (m : HandshakeResponse)
      → Small (length m.kem_ciphertext + length m.identity_pub + length m.identity_sig)
      → Written g.serialize_response g.parse_response m
  pub chat :
      (m : ChatMessage)
      → g.is_utf8 m.sender_id ≡ true
      → Small (length m.sender_id + length m.encrypted_content + length m.nonce)
      → (w : Written g.serialize_chat g.parse_chat m) × (length w.0
          ≤ length m.sender_id + length m.encrypted_content + length m.nonce + 100)
  pub envelope :
      (m : Envelope)
      → g.is_utf8 m.to_username ≡ true
      → Small (length m.to_username + length m.sender_pubkey + length m.payload_e2e)
      → Written g.serialize_envelope g.parse_envelope m

-- As documented: the writing of an envelope adds at most a hundred bytes to its fields.
pub record EnvelopeSizes ⦃g : Protobuf⦄ : Type 0 where
  pub written :
      (m : Envelope) (b : Bytes)
      → g.serialize_envelope m ≡ some b
      → length b ≤ length m.to_username + length m.sender_pubkey + length m.payload_e2e + 100
