-- ===== src/Platform/Laws.antt =====
-- What the program relies on of the foreign code, as documented: hypotheses, never axioms.
use pqc_messaging_app.Prelude.{ℕ, ◌≡◌, false, some, [], Bytes, length}
use pqc_messaging_app.Platform.{Platform}

-- No call is refused.
abbrev pub Healthy : Platform → Type 0
Healthy p = (i : ℕ) → p.fails i ≡ false

module _ ⦃p : Platform⦄ where
  -- The context of an encryption after its key and nonce, and of a decryption.
  abbrev pub sealing : Bytes → Bytes → p.CipherCtx
  sealing key nonce =
      p.encrypt_init_key key nonce (p.set_ivlen (length nonce) (p.encrypt_init_cipher p.cipher_ctx))

  abbrev pub unsealing : Bytes → Bytes → p.CipherCtx
  unsealing key nonce =
      p.decrypt_init_key key nonce (p.set_ivlen (length nonce) (p.decrypt_init_cipher p.cipher_ctx))

  abbrev pub sealed_body : Bytes → Bytes → Bytes → Bytes
  sealed_body key nonce plaintext = (p.encrypt_update plaintext (sealing key nonce)).0

  abbrev pub sealed_last : Bytes → Bytes → Bytes → Bytes × p.CipherCtx
  sealed_last key nonce plaintext =
      p.encrypt_final (p.encrypt_update plaintext (sealing key nonce)).1

  abbrev pub sealed_tag : Bytes → Bytes → Bytes → Bytes
  sealed_tag key nonce plaintext = p.get_tag 16 (sealed_last key nonce plaintext).1

  -- GCM is a stream mode: the body is as long as the plaintext, the final call writes nothing, the tag has the length asked for, and a
  -- decryption of the body under the same key and nonce writes the plaintext and takes the tag.
  pub record GcmLaws : Type 0 where
    pub length_body :
        (key nonce plaintext : Bytes) → length (sealed_body key nonce plaintext) ≡ length plaintext
    pub final_empty : (key nonce plaintext : Bytes) → (sealed_last key nonce plaintext).0 ≡ []
    pub length_tag : (key nonce plaintext : Bytes) → length (sealed_tag key nonce plaintext) ≡ 16
    pub opens :
        (key nonce plaintext : Bytes)
        → (p.decrypt_update (sealed_body key nonce plaintext) (unsealing key nonce)).0 ≡ plaintext
    pub fits :
        (key nonce plaintext : Bytes)
        → p.decrypt_final (
            p.set_tag
              (sealed_tag key nonce plaintext)
              (p.decrypt_update (sealed_body key nonce plaintext) (unsealing key nonce)).1)
          ≡ some []
