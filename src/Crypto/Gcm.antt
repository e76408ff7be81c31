-- ===== src/Crypto/Gcm.antt =====
-- crypto.h: what `encrypt` and `decrypt` compute, and that they undo one another.
use pqc_messaging_app.Prelude.{
  ℕ, ◌+◌, ◌-◌, ◌≡◌, refl, ap, ◌∙◌, not, some, [], ◌++◌, Bytes, append-nil, length, length-append,
  take-append_self, drop-append_self, ltb, ◌==◌, arith,
}
use pqc_messaging_app.Exec.{◌>>=◌}
use pqc_messaging_app.Exec.Answers.{
  Answers, Answers-pure, Answers-bind, Answers-if, Answers-try_cleanup, Answers-weaken,
}
use pqc_messaging_app.Platform.{Platform}
use pqc_messaging_app.Platform.Laws.{
  Healthy, GcmLaws, unsealing, sealed_body, sealed_last, sealed_tag,
}
use pqc_messaging_app.Platform.Calls.{free, Answers-then_call, Answers-then_free, Answers-with_new}
use pqc_messaging_app.Crypto.{
  AesGcmCrypto, aes_gcm, encrypt_body, encrypt, finish, decrypt_body, decrypt,
}

module _ ⦃p : Platform⦄ where
  -- Ciphertext || tag.
  abbrev pub sealed : Bytes → Bytes → Bytes → Bytes
  sealed key nonce plaintext =
      (sealed_body key nonce plaintext ++ (sealed_last key nonce plaintext).0)
      ++ sealed_tag key nonce plaintext

  pub length-sealed :
      GcmLaws
      → (key nonce plaintext : Bytes) → length (sealed key nonce plaintext) ≡ length plaintext + 16
  length-sealed laws key nonce plaintext =
      rw (laws.final_empty key nonce plaintext, append-nil)
        (omega (
          arith,
          length-append (sealed_body key nonce plaintext) (sealed_tag key nonce plaintext),
          laws.length_body key nonce plaintext,
          laws.length_tag key nonce plaintext,
        ))

  pub aes_gcm-Answers :
      {S : Type 0} (key : Bytes)
      → length key ≡ 32
      → Answers {S = S} (λ c. c ≡ record { key = key }) (aes_gcm key)
  unfolding aes_gcm
  aes_gcm-Answers key size =
      Answers-if (not (length key == 32)) _ _ (λ e. absurd (ground arith)) λ _. Answers-pure _ refl

module _ ⦃p : Platform⦄ {S : Type 0} (healthy : Healthy p) where
  encrypt_body-Answers :
      (c : AesGcmCrypto) (plaintext nonce : Bytes) (ctx : ℕ)
      → Answers {S = S}
          (λ out. out ≡ (
            sealed_body c.key nonce plaintext ++ (sealed_last c.key nonce plaintext).0,
            sealed_tag c.key nonce plaintext,
          ))
          (encrypt_body c plaintext nonce ctx)
  unfolding encrypt_body
  encrypt_body-Answers c plaintext nonce ctx = Answers-then_call healthy _ _ _ λ _.
      Answers-then_call healthy _ _ _ λ _. Answers-then_call healthy _ _ _ λ _.
        Answers-then_call healthy _ _ _ λ _.
          Answers-then_call healthy _ _ _
            λ _. Answers-then_call healthy _ _ _ λ _. Answers-then_free ctx _ (Answers-pure _ refl)

  pub encrypt-Answers :
      (c : AesGcmCrypto) (plaintext nonce : Bytes)
      → length nonce ≡ 12
      → Answers {S = S} (λ out. out ≡ sealed c.key nonce plaintext) (encrypt c plaintext nonce)
  unfolding encrypt
  encrypt-Answers c plaintext nonce size =
      Answers-if (not (length nonce == 12)) _ _ (λ e. absurd (ground arith))
        λ _. Answers-with_new _ _ healthy refl λ ctx.
          Answers-bind _ _ _
            (Answers-try_cleanup _ (free ctx) (encrypt_body-Answers c plaintext nonce ctx))
            λ out e. Answers-pure _ (ap (λ (o : Bytes × Bytes). o.0 ++ o.1) e)

  decrypt_body-Answers :
      (c : AesGcmCrypto) (ct tag nonce body last : Bytes) (ctx : ℕ)
      → (p.decrypt_update ct (unsealing c.key nonce)).0 ≡ body
      → p.decrypt_final (p.set_tag tag (p.decrypt_update ct (unsealing c.key nonce)).1) ≡ some last
      → Answers {S = S} (λ out. out ≡ body ++ last) (decrypt_body c ct tag nonce ctx)
  unfolding decrypt_body
  decrypt_body-Answers c ct tag nonce body last ctx opens fits =
      Answers-then_call healthy _ _ _ λ _. Answers-then_call healthy _ _ _ λ _.
        Answers-then_call healthy _ _ _ λ _. Answers-then_call healthy _ _ _ λ _.
          Answers-then_call healthy _ _ _ λ _. Answers-then_call healthy _ _ _ λ _.
            rw (fits, finish)
              (Answers-bind (λ l. l ≡ last) _ _ (Answers-pure last refl)
                λ l e. Answers-then_free ctx _ (Answers-pure _ (rw (opens, e))))

  decrypt-append-Answers :
      (c : AesGcmCrypto) (ct tag nonce body last : Bytes)
      → length nonce ≡ 12
      → length tag ≡ 16
      → (p.decrypt_update ct (unsealing c.key nonce)).0 ≡ body
      → p.decrypt_final (p.set_tag tag (p.decrypt_update ct (unsealing c.key nonce)).1) ≡ some last
      → Answers {S = S} (λ out. out ≡ body ++ last) (decrypt c (ct ++ tag) nonce)
  unfolding decrypt
  decrypt-append-Answers c ct tag nonce body last size tag_length opens fits =
      Answers-if (not (length nonce == 12)) _ _ (λ e. absurd (ground arith))
        λ _.
          Answers-if (ltb (length (ct ++ tag)) 16) _ _
            (λ e. absurd (ground (arith, length-append ct tag)))
            λ _. Answers-with_new _ _ healthy refl λ ctx. Answers-try_cleanup _ (free ctx) (
              rw (cut, take-append_self ct tag, drop-append_self ct tag)
                (decrypt_body-Answers c ct tag nonce body last ctx opens fits))
    where
      cut : length (ct ++ tag) - 16 ≡ length ct
      cut = omega (arith, length-append ct tag)

  pub decrypt-sealed :
      GcmLaws
      → (c : AesGcmCrypto) (plaintext nonce : Bytes) → length nonce ≡ 12
      → Answers {S = S} (λ out. out ≡ plaintext) (decrypt c (sealed c.key nonce plaintext) nonce)
  decrypt-sealed laws c plaintext nonce size =
      rw (laws.final_empty c.key nonce plaintext, append-nil)
        (Answers-weaken _
          (decrypt-append-Answers c (sealed_body c.key nonce plaintext) _ nonce plaintext [] size
            (laws.length_tag c.key nonce plaintext) (laws.opens c.key nonce plaintext)
            (laws.fits c.key nonce plaintext))
          λ out e. e ∙ append-nil plaintext)

  -- Where no foreign call is refused and `GcmLaws` hold, encrypting a message under a key and
  -- a nonce of 12 bytes and decrypting the outcome under the same returns the message, and
  -- leaves object and files alone.
  pub decrypt-encrypt :
      GcmLaws
      → (c : AesGcmCrypto) (plaintext nonce : Bytes) → length nonce ≡ 12
      → Answers {S = S}
          (λ out. out ≡ plaintext)
          (do ct_tag ← encrypt c plaintext nonce; decrypt c ct_tag nonce)
  decrypt-encrypt laws c plaintext nonce size =
      Answers-bind _ _ _ (encrypt-Answers c plaintext nonce size)
        λ ct_tag e. rw e (decrypt-sealed laws c plaintext nonce size)
