-- ===== src/Hkdf/Release.antt =====
-- hkdf.cpp: its context is freed on every path, and what it derives.
use pqc_messaging_app.Prelude.{
  ℕ, String, ◌≡◌, refl, Bool, true, [], ◌∷◌, Bytes, length, is_empty, ◌==◌, if◌then◌else◌,
}
use pqc_messaging_app.Exec.{pure}
use pqc_messaging_app.Exec.Owns.{Owns, Tidy, Owns-raise, Owns-if, Owns-bind}
use pqc_messaging_app.Exec.Answers.{Answers, Answers-pure, Answers-bind}
use pqc_messaging_app.Platform.{Platform}
use pqc_messaging_app.Platform.Laws.{Healthy}
use pqc_messaging_app.Platform.Calls.{
  call_or, free, Owns-free, Owns-with_new, Owns-call_or, Owns-done, Owns-then_call_or, owns_rules,
  Answers-then_call, Answers-then_free, Answers-with_new,
}
use pqc_messaging_app.Hkdf.{check_derived, hkdf_sha256, hkdf_salt, hkdf_info}

module _ ⦃p : Platform⦄ {S : Type 0} where
  -- A call that is made only where its argument is not empty.
  Owns-optional :
      {A : Type 0} (b : Bool) (h : ℕ) (a : A) (e : String) (f : ℕ → A)
      → Owns {S = S} (h ∷ []) (λ _. h ∷ []) [] (if b then pure a else call_or (free h) e f)
  Owns-optional b h a e f = Owns-if b _ _ (Owns-done a) (Owns-call_or (free h) e f (Owns-free h))

  Owns-check_derived :
      (h out_len : ℕ) (out : Bytes)
      → Owns {S = S} (h ∷ []) (λ _. h ∷ []) [] (check_derived (free h) out_len out)
  unfolding check_derived
  Owns-check_derived h out_len out =
      Owns-if (length out == out_len) _ _ (Owns-done out)
        (Owns-bind (λ _. []) (free h) _ (Owns-free h) λ _. Owns-raise _)

  -- Whichever foreign calls are refused, `hkdf_sha256` ends with the live handles it began
  -- with and frees no handle that is not live.
  pub hkdf_sha256-Tidy :
      (ikm salt info : Bytes) (out_len : ℕ) → Tidy {S = S} (hkdf_sha256 ikm salt info out_len)
  unfolding hkdf_sha256
  hkdf_sha256-Tidy ikm salt info out_len = Owns-with_new true _ _ (Owns-raise _) λ h.
      Owns-then_call_or (free h) _ _ _ (Owns-free h) λ c0.
        Owns-then_call_or (free h) _ _ _ (Owns-free h) λ c1.
          Owns-bind (λ _. h ∷ []) _ _ (Owns-optional (is_empty salt) h c1 _ _)
            λ c2. Owns-then_call_or (free h) _ _ _ (Owns-free h) λ c3.
              Owns-bind (λ _. h ∷ []) _ _ (Owns-optional (is_empty info) h c3 _ _)
                λ c4. Owns-then_call_or (free h) _ _ _ (Owns-free h) λ derived.
                  Owns-bind (λ _. h ∷ []) _ _ (Owns-check_derived h out_len derived)
                    λ out. search owns_rules

module _ ⦃p : Platform⦄ where
  -- The key that the handshake derives from a shared secret.
  abbrev pub session_key : Bytes → Bytes
  session_key ss = p.derive 32 (
      p.add_hkdf_info hkdf_info
        (p.set_hkdf_key ss (p.set_hkdf_salt hkdf_salt (p.set_hkdf_md p.hkdf_ctx))))

  pub hkdf_sha256-Answers :
      {S : Type 0}
      → Healthy p
      → (ss : Bytes) → length (session_key ss) ≡ 32
      → Answers {S = S} (λ out. out ≡ session_key ss) (hkdf_sha256 ss hkdf_salt hkdf_info 32)
  unfolding hkdf_sha256 check_derived
  hkdf_sha256-Answers healthy ss size = Answers-with_new _ _ healthy refl λ h.
      Answers-then_call healthy _ _ _ λ _. Answers-then_call healthy _ _ _ λ _.
        Answers-then_call healthy _ _ _ λ _. Answers-then_call healthy _ _ _ λ _.
          Answers-then_call healthy _ _ _ λ _. Answers-then_call healthy _ _ _ λ _. rw size (
            Answers-bind (λ o. o ≡ session_key ss) _ _ (Answers-pure _ refl)
              λ o e. Answers-then_free h _ (Answers-pure _ e))
