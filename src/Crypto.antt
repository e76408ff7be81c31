-- ===== src/Crypto.antt =====
-- crypto.h: `AESGCMCrypto`, AES-256-GCM through libcrypto. The buffers of the C calls are lists:
-- `ciphertext.data()` receives what the update and the final call write, and `resize(outlen)` keeps
-- just that.
pub mod Release
pub mod Gcm
pub mod Ends
use pqc_messaging_app.Prelude.{
  ℕ, ◌+◌, ◌-◌, String, Bool, true, not, Option, none, some, List, [], ◌∷◌, ◌++◌, Bytes, length,
  take, drop, ltb, ◌==◌, if◌then◌else◌,
}
use pqc_messaging_app.Exec.{Result, M, pure, raise, ◌>>=◌, ◌>>◌, try_cleanup}
use pqc_messaging_app.Platform.{Platform}
use pqc_messaging_app.Platform.Calls.{call_else, with_new, call, free}

abbrev pub key_size : ℕ
key_size = 32

abbrev pub nonce_size : ℕ
nonce_size = 12

abbrev pub tag_size : ℕ
tag_size = 16

-- The key of an AESGCMCrypto object.
pub record AesGcmCrypto : Type 0 where
  pub key : Bytes

-- The default constructor's demo key.
abbrev pub demo : AesGcmCrypto
demo = record {
  key =
      0x00 ∷ 0x01 ∷ 0x02 ∷ 0x03 ∷ 0x04 ∷ 0x05 ∷ 0x06 ∷ 0x07 ∷ 0x08 ∷ 0x09 ∷ 0x0A ∷ 0x0B ∷ 0x0C
      ∷ 0x0D ∷ 0x0E ∷ 0x0F ∷ 0x10 ∷ 0x11 ∷ 0x12 ∷ 0x13 ∷ 0x14 ∷ 0x15 ∷ 0x16 ∷ 0x17 ∷ 0x18 ∷ 0x19
      ∷ 0x1A ∷ 0x1B ∷ 0x1C ∷ 0x1D ∷ 0x1E ∷ 0x1F ∷ [];
}

unfoldable pub aes_gcm : {S : Type 0} → Bytes → M S AesGcmCrypto
aes_gcm key =
    if not (length key == key_size)
    then raise "AESGCMCrypto: key must be 32 bytes"
    else pure (record { key = key })

module _ ⦃p : Platform⦄ {S : Type 0} where
  -- The `try` block of `encrypt`, which also frees the context where nothing failed.
  pub encrypt_body : AesGcmCrypto → Bytes → Bytes → ℕ → M S (Bytes × Bytes)
  encrypt_body c plaintext nonce ctx = do
    c0 ← call "EncryptInit (cipher) failed" (λ _. p.encrypt_init_cipher p.cipher_ctx)
    c1 ← call "SET_IVLEN failed" (λ _. p.set_ivlen (length nonce) c0)
    c2 ← call "EncryptInit (key/iv) failed" (λ _. p.encrypt_init_key c.key nonce c1)
    (body, c3) ← call "EncryptUpdate failed" (λ _. p.encrypt_update plaintext c2)
    (last, c4) ← call "EncryptFinal failed" (λ _. p.encrypt_final c3)
    tag ← call "GET_TAG failed" (λ _. p.get_tag tag_size c4)
    free ctx
    pure (body ++ last, tag)

  pub encrypt : AesGcmCrypto → Bytes → Bytes → M S Bytes
  unfolding encrypt_body
  encrypt c plaintext nonce =
      if not (length nonce == nonce_size)
      then raise "AESGCMCrypto::encrypt: nonce must be 12 bytes"
      else with_new true (raise "EVP_CIPHER_CTX_new failed") λ ctx. do
        (ciphertext, tag) ← try_cleanup (encrypt_body c plaintext nonce ctx) (free ctx)
        pure (ciphertext ++ tag)

  -- What `EVP_DecryptFinal_ex` says: on a tag that does not fit the code frees and throws.
  pub finish : ℕ → Option Bytes → M S Bytes
  finish ctx none = do free ctx; raise "GCM tag verification failed"
  finish ctx (some last) = pure last

  -- The `try` block of `decrypt`.
  pub decrypt_body : AesGcmCrypto → Bytes → Bytes → Bytes → ℕ → M S Bytes
  unfolding finish
  decrypt_body c ct tag nonce ctx = do
    c0 ← call "DecryptInit (cipher) failed" (λ _. p.decrypt_init_cipher p.cipher_ctx)
    c1 ← call "SET_IVLEN failed" (λ _. p.set_ivlen (length nonce) c0)
    c2 ← call "DecryptInit (key/iv) failed" (λ _. p.decrypt_init_key c.key nonce c1)
    (body, c3) ← call "DecryptUpdate failed" (λ _. p.decrypt_update ct c2)
    c4 ← call "SET_TAG failed" (λ _. p.set_tag tag c3)
    fits ← call_else (pure none) (λ _. p.decrypt_final c4)
    last ← finish ctx fits
    free ctx
    pure (body ++ last)

  pub decrypt : AesGcmCrypto → Bytes → Bytes → M S Bytes
  unfolding decrypt_body
  decrypt c ciphertext_and_tag nonce =
      if not (length nonce == nonce_size)
      then raise "AESGCMCrypto::decrypt: nonce must be 12 bytes"
      else if ltb (length ciphertext_and_tag) tag_size
      then raise "AESGCMCrypto::decrypt: input too short"
      else let ct_len = length ciphertext_and_tag - tag_size in
        with_new true (raise "EVP_CIPHER_CTX_new failed") λ ctx.
          try_cleanup
            (decrypt_body c (take ct_len ciphertext_and_tag) (drop ct_len ciphertext_and_tag) nonce
              ctx)
            (free ctx)

  unfoldable pub random_nonce : M S Bytes
  random_nonce = call "RAND_bytes failed" (λ i. p.random i nonce_size)
