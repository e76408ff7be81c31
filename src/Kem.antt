-- ===== src/Kem.antt =====
-- kem_kyber.h and kem_kyber.cpp: `KyberKEM`. The object is its pointer `kem_`, `none` for null.
pub mod Laws
pub mod Kept
use pqc_messaging_app.Prelude.{
  ℕ, String, Bool, true, false, not, ◌||◌, Option, none, some, Bytes, length, ◌==◌, if◌then◌else◌,
}
use pqc_messaging_app.Exec.{M, pure, raise, ◌>>=◌, ◌>>◌}
use pqc_messaging_app.Platform.{Platform}
use pqc_messaging_app.Platform.Calls.{with_new, call, free}

abbrev pub KyberKem : Type 0
KyberKem = Option ℕ

-- `~KyberKEM()`
unfoldable pub destructor : {S : Type 0} → KyberKem → M S Unit
destructor none = pure tt
destructor (some kem) = free kem

module _ ⦃p : Platform⦄ {S : Type 0} where
  unfoldable pub init : M S KyberKem
  init = with_new true (raise "OQS_KEM_new kyber_512 failed") λ kem. pure (some kem)

  -- The public and the secret key.
  pub keypair : KyberKem → M S (Bytes × Bytes)
  keypair none = raise "KEM not initialized"
  keypair (some kem) = call "OQS_KEM_keypair failed" p.kem_keypair

  -- The ciphertext and the shared secret.
  pub encapsulate : KyberKem → Bytes → M S (Bytes × Bytes)
  encapsulate none peer_pk = raise "KEM not initialized"
  encapsulate (some kem) peer_pk =
      if not (length peer_pk == p.length_public_key)
      then raise "peer pk size mismatch"
      else call "OQS_KEM_encaps failed" (λ i. p.kem_encaps i peer_pk)

  pub decapsulate : KyberKem → Bytes → Bytes → M S Bytes
  decapsulate none ct sk = raise "KEM not initialized"
  decapsulate (some kem) ct sk =
      if not (length ct == p.length_ciphertext) || not (length sk == p.length_secret_key)
      then raise "ct/sk size mismatch"
      else call "OQS_KEM_decaps failed" (λ _. p.kem_decaps ct sk)
