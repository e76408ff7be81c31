-- ===== src/Platform.antt =====
-- The foreign code: OpenSSL (libcrypto), liboqs, the random generator and the clock. None of it is
-- under the repository, so it is a parameter. Each of its calls that can fail is counted, and
-- `fails i` tells whether the i-th one is refused; what it computes if it is not is the field of
-- its name. Handles (EVP_*_CTX, EVP_PKEY, MD_CTX, OQS_KEM) are numbers.
pub mod Calls
pub mod Laws
pub mod Kept
use pqc_messaging_app.Prelude.{ℕ, Bool, Option, Bytes}

pub record Platform : Type 1 where
  pub fails : ℕ → Bool
  -- Whether a thread misses a notification that is sent without its lock, at the i-th call.
  pub misses : ℕ → Bool
  -- std::chrono::system_clock::now(), in seconds, at the i-th call.
  pub seconds : ℕ → ℕ
  -- How much a socket write that fails has sent, at the i-th call.
  pub sent_anyway : ℕ → ℕ
  -- The i-th byte of a stack buffer that is not written yet.
  pub indeterminate : ℕ → ℕ
  -- RAND_bytes: n bytes at the i-th call.
  pub random : ℕ → ℕ → Bytes
  -- EVP_CIPHER_CTX, and the calls of EVP_aes_256_gcm on it.
  pub CipherCtx : Type 0
  pub cipher_ctx : CipherCtx
  pub encrypt_init_cipher : CipherCtx → CipherCtx
  pub decrypt_init_cipher : CipherCtx → CipherCtx
  pub set_ivlen : ℕ → CipherCtx → CipherCtx
  pub encrypt_init_key : Bytes → Bytes → CipherCtx → CipherCtx
  pub decrypt_init_key : Bytes → Bytes → CipherCtx → CipherCtx
  pub encrypt_update : Bytes → CipherCtx → Bytes × CipherCtx
  pub decrypt_update : Bytes → CipherCtx → Bytes × CipherCtx
  pub encrypt_final : CipherCtx → Bytes × CipherCtx
  pub get_tag : ℕ → CipherCtx → Bytes
  pub set_tag : Bytes → CipherCtx → CipherCtx
  -- `none` is a tag that does not fit.
  pub decrypt_final : CipherCtx → Option Bytes
  -- PKCS5_PBKDF2_HMAC with SHA-256: password, salt, rounds, length.
  pub pbkdf2 : Bytes → Bytes → ℕ → ℕ → Bytes
  -- EVP_PKEY_CTX for EVP_PKEY_HKDF.
  pub HkdfCtx : Type 0
  pub hkdf_ctx : HkdfCtx
  pub set_hkdf_md : HkdfCtx → HkdfCtx
  pub set_hkdf_salt : Bytes → HkdfCtx → HkdfCtx
  pub set_hkdf_key : Bytes → HkdfCtx → HkdfCtx
  pub add_hkdf_info : Bytes → HkdfCtx → HkdfCtx
  pub derive : ℕ → HkdfCtx → Bytes
  -- Ed25519: the raw public and private key of the key pair that EVP_PKEY_keygen put into the handle;
  -- whether a raw key is taken.
  pub ed25519_keygen : ℕ → Bytes × Bytes
  pub takes_private_key : Bytes → Bool
  pub takes_public_key : Bytes → Bool
  pub ed25519_sign : Bytes → Bytes → Bytes
  pub ed25519_verify : Bytes → Bytes → Bytes → Bool
  pub sha256 : Bytes → Bytes
  -- liboqs, Kyber-512. The i-th call's key pair (public, secret) and encapsulation (ciphertext,
  -- shared secret).
  pub length_public_key : ℕ
  pub length_secret_key : ℕ
  pub length_ciphertext : ℕ
  pub length_shared_secret : ℕ
  pub kem_keypair : ℕ → Bytes × Bytes
  pub kem_encaps : ℕ → Bytes → Bytes × Bytes
  pub kem_decaps : Bytes → Bytes → Bytes
