-- ===== src/Session.antt =====
-- session.h: the key of a session, and AES-GCM under it.
use pqc_messaging_app.Prelude.{Bytes, is_empty, if◌then◌else◌}
use pqc_messaging_app.Exec.{M, raise, ◌>>=◌}
use pqc_messaging_app.Platform.{Platform}
use pqc_messaging_app.Crypto.{aes_gcm}
use pqc_messaging_app.Crypto

pub record Session : Type 0 where
  pub key : Bytes

unfoldable pub set_key : Session → Bytes → Session
set_key s key = record s { key = key }

module _ ⦃p : Platform⦄ {S : Type 0} where
  unfoldable pub encrypt : Session → Bytes → Bytes → M S Bytes
  encrypt s plaintext nonce =
      if is_empty s.key
      then raise "Session key not set"
      else do crypto ← aes_gcm s.key; Crypto.encrypt crypto plaintext nonce

  unfoldable pub decrypt : Session → Bytes → Bytes → M S Bytes
  decrypt s ct_tag nonce =
      if is_empty s.key
      then raise "Session key not set"
      else do crypto ← aes_gcm s.key; Crypto.decrypt crypto ct_tag nonce
