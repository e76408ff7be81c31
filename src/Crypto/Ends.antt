-- ===== src/Crypto/Ends.antt =====
-- crypto.h and session.h: `decrypt` comes to an end and leaves the object alone.
use pqc_messaging_app.Prelude.{
  ℕ, refl, Bool, true, false, not, Option, none, some, Bytes, Bool-cases, inl, inr, is_empty, ltb,
  length, ◌==◌, ◌||◌,
}
use pqc_messaging_app.Exec.{World, M, ◌>>=◌}
use pqc_messaging_app.Exec.Ends.{
  Ends, Still, Ends-pure, Ends-raise, Ends-if, Ends-bind, Ends-try_cleanup,
}
use pqc_messaging_app.Platform.{Platform}
use pqc_messaging_app.Platform.Calls.{
  answer, hand_out, holds, free, call_else, with_new, counted, opened,
}
use pqc_messaging_app.Crypto.{
  key_size, nonce_size, tag_size, AesGcmCrypto, aes_gcm, encrypt_body, encrypt, finish,
  decrypt_body, decrypt,
}
use pqc_messaging_app.Session
use pqc_messaging_app.Session.{Session}

module _ {S : Type 0} where
  Ends-free : (h : ℕ) → Ends {S = S} (free h)
  unfolding free
  Ends-free h = record {
    at = λ w. elim (Bool-cases (holds h w.live)) [ inl e ↦ rw e refl | inr e ↦ rw e refl ];
  }

module _ {S A : Type 0} where
  answer-Still :
      (refused : Bool) (fallback : M S A) (a : A) (w : World S)
      → Ends fallback
      → Still w.obj (answer refused fallback a w)
  answer-Still true fallback a w h = h.at (counted w)
  answer-Still false fallback a w h = refl

  hand_out-Still :
      (refused : Bool) (fallback : M S A) (k : ℕ → M S A) (w : World S)
      → Ends fallback
      → ((h : ℕ) → Ends (k h))
      → Still w.obj (hand_out refused fallback k w)
  hand_out-Still true fallback k w h hk = h.at (counted w)
  hand_out-Still false fallback k w h hk = (hk w.next).at (opened w)

module _ ⦃p : Platform⦄ {S A : Type 0} where
  pub Ends-call_else : (fallback : M S A) (f : ℕ → A) → Ends fallback → Ends (call_else fallback f)
  unfolding call_else
  Ends-call_else fallback f h = record {
    at = λ w. answer-Still (p.fails w.calls) fallback (f w.calls) w h;
  }

  Ends-with_new :
      (takes : Bool) (fallback : M S A) (k : ℕ → M S A)
      → Ends fallback
      → ((h : ℕ) → Ends (k h))
      → Ends (with_new takes fallback k)
  unfolding with_new
  Ends-with_new takes fallback k h hk = record {
    at = λ w. hand_out-Still (p.fails w.calls || not takes) fallback k w h hk;
  }

module _ ⦃p : Platform⦄ {S A B : Type 0} where
  -- A call whose refusal throws, and what follows it.
  pub Ends-then :
      (fallback : M S A) (f : ℕ → A) (k : A → M S B)
      → Ends fallback
      → ((a : A) → Ends (k a))
      → Ends (call_else fallback f >>= k)
  Ends-then fallback f k h hk = Ends-bind _ k (Ends-call_else fallback f h) hk

module _ ⦃p : Platform⦄ {S : Type 0} where
  Ends-encrypt_body :
      (c : AesGcmCrypto) (plaintext nonce : Bytes) (ctx : ℕ)
      → Ends {S = S} (encrypt_body c plaintext nonce ctx)
  unfolding encrypt_body
  Ends-encrypt_body c plaintext nonce ctx = Ends-then _ _ _ (Ends-raise _) λ c0.
      Ends-then _ _ _ (Ends-raise _) λ c1. Ends-then _ _ _ (Ends-raise _) λ c2.
        Ends-then _ _ _ (Ends-raise _) λ c3.
          Ends-then _ _ _ (Ends-raise _) λ c4.
            Ends-then _ _ _ (Ends-raise _) λ tag. Ends-bind _ _ (Ends-free ctx) λ _. Ends-pure _

  Ends-encrypt :
      (c : AesGcmCrypto) (plaintext nonce : Bytes) → Ends {S = S} (encrypt c plaintext nonce)
  unfolding encrypt
  Ends-encrypt c plaintext nonce = Ends-if (not (length nonce == nonce_size)) _ _ (Ends-raise _) (
      Ends-with_new true _ _ (Ends-raise _) λ ctx.
        Ends-bind _ _
          (Ends-try_cleanup _ _ (Ends-encrypt_body c plaintext nonce ctx) (Ends-free ctx))
          λ out. Ends-pure _)

  Ends-finish : (ctx : ℕ) (fits : Option Bytes) → Ends {S = S} (finish ctx fits)
  unfolding finish
  Ends-finish ctx none = Ends-bind _ _ (Ends-free ctx) λ _. Ends-raise _
  Ends-finish ctx (some last) = Ends-pure last

  Ends-decrypt_body :
      (c : AesGcmCrypto) (ct tag nonce : Bytes) (ctx : ℕ)
      → Ends {S = S} (decrypt_body c ct tag nonce ctx)
  unfolding decrypt_body
  Ends-decrypt_body c ct tag nonce ctx = Ends-then _ _ _ (Ends-raise _) λ c0.
      Ends-then _ _ _ (Ends-raise _) λ c1. Ends-then _ _ _ (Ends-raise _) λ c2.
        Ends-then _ _ _ (Ends-raise _) λ c3. Ends-then _ _ _ (Ends-raise _) λ c4.
          Ends-then _ _ _ (Ends-pure none) λ fits.
            Ends-bind _ _ (Ends-finish ctx fits)
              λ last. Ends-bind _ _ (Ends-free ctx) λ _. Ends-pure _

  Ends-decrypt : (c : AesGcmCrypto) (ct_tag nonce : Bytes) → Ends {S = S} (decrypt c ct_tag nonce)
  unfolding decrypt
  Ends-decrypt c ct_tag nonce = Ends-if (not (length nonce == nonce_size)) _ _ (Ends-raise _) (
      Ends-if (ltb (length ct_tag) tag_size) _ _ (Ends-raise _) (
        Ends-with_new true _ _ (Ends-raise _)
          λ ctx. Ends-try_cleanup _ _ (Ends-decrypt_body c _ _ nonce ctx) (Ends-free ctx)))

  Ends-aes_gcm : (key : Bytes) → Ends {S = S} (aes_gcm key)
  unfolding aes_gcm
  Ends-aes_gcm key = Ends-if (not (length key == key_size)) _ _ (Ends-raise _) (Ends-pure _)

  pub Ends-session_encrypt :
      (s : Session) (plaintext nonce : Bytes) → Ends {S = S} (Session.encrypt s plaintext nonce)
  unfolding Session.encrypt
  Ends-session_encrypt s plaintext nonce =
      Ends-if (is_empty s.key) _ _ (Ends-raise _)
        (Ends-bind _ _ (Ends-aes_gcm s.key) λ crypto. Ends-encrypt crypto plaintext nonce)

  pub Ends-session_decrypt :
      (s : Session) (ct_tag nonce : Bytes) → Ends {S = S} (Session.decrypt s ct_tag nonce)
  unfolding Session.decrypt
  Ends-session_decrypt s ct_tag nonce =
      Ends-if (is_empty s.key) _ _ (Ends-raise _)
        (Ends-bind _ _ (Ends-aes_gcm s.key) λ crypto. Ends-decrypt crypto ct_tag nonce)
