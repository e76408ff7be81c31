-- ===== src/Engine.antt =====
-- connection_engine.h and connection_engine.cpp: the engine of one party, and how it gets its
-- identity. The handshakes and the messages are in the modules below.
pub mod Handshake
pub mod Message
pub mod Loopback
pub mod Identities
use pqc_messaging_app.Prelude.{ℕ, String, Bool, true, false, Bytes, if◌then◌else◌}
use pqc_messaging_app.Exec.{M, pure, gets, try_catch, zoom, ◌>>=◌, ◌>>◌}
use pqc_messaging_app.Platform.{Platform}
use pqc_messaging_app.Files.{exists}
use pqc_messaging_app.Session.{Session}
use pqc_messaging_app.Identity.{Identity, create_profile, load_profile, fingerprint_hex}

-- protocol::kVersion
abbrev pub version : ℕ
version = 1

pub record ConnectionEngine : Type 0 where
  pub identity : Identity
  pub session : Session
  pub session_ready : Bool

-- `true` with the output parameters, or `false` with `errorOut`.
pub data Outcome (A : Type 0) : Type 0 where
  success : A → Outcome A
  failure : String → Outcome A

module _ ⦃p : Platform⦄ where
  unfoldable pub on_identity : {A : Type 0} → M Identity A → M ConnectionEngine A
  on_identity = zoom (λ (e : ConnectionEngine). e.identity) (λ i e. record e { identity = i })

  -- The fingerprint, and whether the profile was created.
  unfoldable pub load_or_create_identity :
      String → Bytes → M ConnectionEngine (Outcome (Bytes × Bool))
  unfolding on_identity
  load_or_create_identity path password =
      try_catch
        (do
          there ← exists path
          created ←
              if there
              then (on_identity (load_profile path password) >> pure false)
              else (on_identity (create_profile path password) >> pure true)
          fingerprint ← gets (λ e. fingerprint_hex e.identity.public_key)
          pure (success (fingerprint, created)))
        failure
