-- ===== src/Identity/Keys.antt =====
-- identity.cpp: the handles of key generation, signing and verification, and what they answer.
use pqc_messaging_app.Prelude.{ℕ, ◌≡◌, refl, true, false, List, [], ◌∷◌, Bytes}
use pqc_messaging_app.Exec.{◌>>◌}
use pqc_messaging_app.Exec.Owns.{Owns, Tidy, Owns-raise, Owns-bind, Owns-if, Owns-modify}
use pqc_messaging_app.Exec.Answers.{
  Answers, Answers-pure, Answers-bind, Ensures, Ensures-pure, Ensures-bind, Ensures-all, Ensures-if,
}
use pqc_messaging_app.Platform.{Platform}
use pqc_messaging_app.Platform.Laws.{Healthy}
use pqc_messaging_app.Platform.Calls.{
  free, Owns-free, Owns-free_under, Owns-with_new, Owns-call_else, Owns-done, Owns-then_call_or,
  Owns-then_free, owns_rules, Answers-then_call, Answers-then_free, Answers-call_else,
  Answers-with_new, Ensures-with_new, Ensures-call_else,
}
use pqc_messaging_app.Identity.{gen_ed25519, sign, verify, verify_calls}

module _ {S : Type 0} where
  -- `EVP_MD_CTX_free(mdctx); EVP_PKEY_free(sk);`
  Owns-free_both : (a b : ℕ) → Owns {S = S} (a ∷ b ∷ []) (λ _. []) [] (free a >> free b)
  Owns-free_both a b = Owns-then_free a (λ _. free b) λ _. Owns-free b

module _ ⦃p : Platform⦄ {S : Type 0} where
  -- Whichever foreign calls are refused, `sign` ends with the live handles it began with and
  -- frees no handle that is not live.
  pub sign-Tidy : (priv32 msg : Bytes) → Tidy {S = S} (sign priv32 msg)
  unfolding sign
  sign-Tidy priv32 msg = Owns-with_new _ _ _ (Owns-raise _) λ sk.
      Owns-with_new true _ _ (Owns-then_free sk _ λ _. Owns-raise _) λ mdctx.
        Owns-then_call_or _ _ _ _ (Owns-free_both mdctx sk) λ _.
          Owns-then_call_or _ _ _ _ (Owns-free_both mdctx sk)
            λ _. Owns-then_call_or _ _ _ _ (Owns-free_both mdctx sk) λ sig. search owns_rules

  verify_calls-Owns :
      {xs : List ℕ} (pub32 msg sig : Bytes)
      → Owns {S = S} xs (λ _. xs) [] (verify_calls pub32 msg sig)
  unfolding verify_calls
  verify_calls-Owns {xs} pub32 msg sig =
      Owns-bind (λ _. xs) _ _ (Owns-call_else _ _ (Owns-done false))
        λ started. Owns-if started _ _ (Owns-call_else _ _ (Owns-done false)) (Owns-done false)

  -- Whichever foreign calls are refused, `verify` ends with the live handles it began with and
  -- frees no handle that is not live.
  pub verify-Tidy : (pub32 msg sig : Bytes) → Tidy {S = S} (verify pub32 msg sig)
  unfolding verify
  verify-Tidy pub32 msg sig = Owns-with_new _ _ _ (Owns-done false) λ pk.
      Owns-with_new true _ _ (Owns-then_free pk _ λ _. Owns-done false) λ mdctx.
        Owns-bind (λ _. mdctx ∷ pk ∷ []) _ _ (verify_calls-Owns pub32 msg sig)
          λ fits. search owns_rules

  -- Whichever foreign calls are refused, where `verify` returns true, libcrypto takes the
  -- public key and verifies the signature of the message under it.
  pub verify_sound :
      (pub32 msg sig : Bytes)
      → Ensures {S = S}
          (λ answer.
            answer ≡ true
            → (p.takes_public_key pub32 ≡ true) × (p.ed25519_verify pub32 msg sig ≡ true))
          (verify pub32 msg sig)
  unfolding verify verify_calls
  verify_sound pub32 msg sig =
      Ensures-with_new (p.takes_public_key pub32) _ _ (Ensures-pure false λ e. cc) λ takes pk.
        Ensures-with_new true _ _
          (Ensures-bind (λ _. Unit) _ _ (Ensures-all (λ _. tt) _) λ _ _. Ensures-pure false λ e. cc)
          λ _ mdctx.
            Ensures-bind (λ b. b ≡ true → p.ed25519_verify pub32 msg sig ≡ true) _ _
              (Ensures-bind (λ _. Unit) _ _ (Ensures-all (λ _. tt) _)
                λ started _.
                  Ensures-if started _ _
                    (λ _. Ensures-call_else _ _ (Ensures-pure false λ e. cc) λ _ e. e)
                    (λ _. Ensures-pure false λ e. cc))
              λ fits sound.
                Ensures-bind (λ _. Unit) _ _ (Ensures-all (λ _. tt) _)
                  λ _ _.
                    Ensures-bind (λ _. Unit) _ _ (Ensures-all (λ _. tt) _)
                      λ _ _. Ensures-pure fits λ e. (takes, sound e)

  pub sign-Answers :
      Healthy p
      → (priv32 msg : Bytes) → p.takes_private_key priv32 ≡ true
      → Answers {S = S} (λ sig. sig ≡ p.ed25519_sign priv32 msg) (sign priv32 msg)
  unfolding sign
  sign-Answers healthy priv32 msg takes = Answers-with_new _ _ healthy takes λ sk.
      Answers-with_new _ _ healthy refl λ mdctx. Answers-then_call healthy _ _ _ λ _.
        Answers-then_call healthy _ _ _ λ _.
          Answers-then_call healthy _ _ _
            λ _. Answers-then_free mdctx _ (Answers-then_free sk _ (Answers-pure _ refl))

  pub verify-Answers :
      Healthy p
      → (pub32 msg sig : Bytes) → p.takes_public_key pub32 ≡ true
      → Answers {S = S} (λ fits. fits ≡ p.ed25519_verify pub32 msg sig) (verify pub32 msg sig)
  unfolding verify verify_calls
  verify-Answers healthy pub32 msg sig takes = Answers-with_new _ _ healthy takes λ pk.
      Answers-with_new _ _ healthy refl λ mdctx.
        Answers-bind (λ fits. fits ≡ p.ed25519_verify pub32 msg sig) _ _
          (Answers-then_call healthy _ _ _ λ _. Answers-call_else _ _ healthy λ _. refl)
          λ fits e. Answers-then_free mdctx _ (Answers-then_free pk _ (Answers-pure fits e))

module _ ⦃p : Platform⦄ where
  -- Whichever foreign calls are refused, `gen_ed25519` ends with the live handles it began
  -- with and frees no handle that is not live.
  pub gen_ed25519-Tidy : Tidy gen_ed25519
  unfolding gen_ed25519
  gen_ed25519-Tidy = Owns-with_new true _ _ (Owns-raise _) λ kctx.
      Owns-then_call_or _ _ _ _ (Owns-free kctx) λ _.
        Owns-with_new true _ _ (Owns-then_free kctx _ λ _. Owns-raise _) λ pkey.
          Owns-bind (λ _. pkey ∷ []) _ _ (Owns-free_under pkey kctx)
            λ _. Owns-then_call_or _ _ _ _ (Owns-free pkey) λ _.
              Owns-then_call_or _ _ _ _ (Owns-free pkey) λ _.
                Owns-bind (λ _. pkey ∷ []) _ _ (Owns-modify _)
                  λ _.
                    Owns-bind (λ _. pkey ∷ []) _ _ (Owns-modify _)
                      λ _. Owns-then_call_or _ _ _ _ (Owns-free pkey) λ _.
                        Owns-bind (λ _. pkey ∷ []) _ _ (Owns-modify _)
                          λ _.
                            Owns-then_call_or _ _ _ _ (Owns-free pkey) λ _.
                              Owns-bind (λ _. pkey ∷ []) _ _ (Owns-modify _) λ _. Owns-free pkey
