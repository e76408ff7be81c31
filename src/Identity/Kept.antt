-- ===== src/Identity/Kept.antt =====
-- identity.cpp under an invariant of the object, foreign calls refused at will.
use pqc_messaging_app.Prelude.{ℕ, String, ◌≡◌, refl, Bool, true, false, Option, none, some, Bytes}
use pqc_messaging_app.Exec.{◌>>◌}
use pqc_messaging_app.Exec.Runs.{Keeps, Keeps-pure, Runs-raise, Runs-if, Runs-bind}
use pqc_messaging_app.Exec.Answers.{Answers, Answers-pure}
use pqc_messaging_app.Platform.{Platform}
use pqc_messaging_app.Platform.Calls.{free}
use pqc_messaging_app.Platform.Kept.{
  Keeps-free, Runs-then_free, Runs-call_else, Runs-then_call_else, Runs-with_new,
}
use pqc_messaging_app.Identity.{throw_if, or_throw, sign, verify, verify_calls}

module _ {S : Type 0} {I : S → Type 0} where
  pub Keeps-throw_if : (test : Bool) (e : String) → Keeps I (λ _. test ≡ false) (throw_if test e)
  unfolding throw_if
  Keeps-throw_if true e = Runs-raise e
  Keeps-throw_if false e = Keeps-pure tt refl

  pub Keeps-or_throw :
      {A : Type 0} (o : Option A) (e : String) → Keeps I (λ a. o ≡ some a) (or_throw o e)
  unfolding or_throw
  Keeps-or_throw none e = Runs-raise e
  Keeps-or_throw (some a) e = Keeps-pure a refl

module _ {S : Type 0} where
  pub Answers-throw_if :
      (test : Bool) (e : String) → test ≡ false → Answers {S = S} (λ _. Unit {0}) (throw_if test e)
  unfolding throw_if
  Answers-throw_if test e same = rw same (Answers-pure tt tt)

  pub Answers-or_throw :
      {A : Type 0} {P : A → Type 0} (o : Option A) (e : String) (a : A)
      → o ≡ some a
      → P a
      → Answers {S = S} P (or_throw o e)
  unfolding or_throw
  Answers-or_throw o e a same h = rw same (Answers-pure a h)

module _ ⦃p : Platform⦄ {S : Type 0} {I : S → Type 0} where
  -- `verify` says yes only to a key that libcrypto takes and a signature that it verifies.
  pub Keeps-verify :
      (pub32 msg sig : Bytes)
      → Keeps I
          (λ answer.
            answer ≡ true
            → (p.takes_public_key pub32 ≡ true) × (p.ed25519_verify pub32 msg sig ≡ true))
          (verify pub32 msg sig)
  unfolding verify verify_calls
  Keeps-verify pub32 msg sig =
      Runs-with_new (p.takes_public_key pub32) _ _ (Keeps-pure false λ e. cc) λ takes pk.
        Runs-with_new true _ _ (Runs-then_free pk _ (Keeps-pure false λ e. cc)) λ _ mdctx.
          Runs-bind (λ b. b ≡ true → p.ed25519_verify pub32 msg sig ≡ true) _ _
            (Runs-bind (λ _. Unit) _ _ (Runs-call_else _ _ (Keeps-pure false tt) λ _ _ i. (tt, i))
              λ started _.
                Runs-if started _ _
                  (λ _. Runs-call_else _ _ (Keeps-pure false λ e. cc) λ _ _ i. ((λ e. e), i))
                  (λ _. Keeps-pure false λ e. cc))
            λ fits sound.
              Runs-then_free mdctx _ (Runs-then_free pk _ (Keeps-pure fits λ e. (takes, sound e)))

  pub Keeps-sign : (priv32 msg : Bytes) → Keeps I (λ _. Unit {0}) (sign priv32 msg)
  unfolding sign
  Keeps-sign priv32 msg = Runs-with_new (p.takes_private_key priv32) _ _ (Runs-raise _) λ _ sk.
      Runs-with_new true _ _ (Runs-then_free sk _ (Runs-raise _)) λ _ mdctx.
        Runs-then_call_else (free mdctx >> free sk) _ _ _ (released mdctx sk) λ _.
          Runs-then_call_else (free mdctx >> free sk) _ _ _ (released mdctx sk) λ _.
            Runs-then_call_else (free mdctx >> free sk) _ _ _ (released mdctx sk)
              λ i. Runs-then_free mdctx _ (Runs-then_free sk _ (Keeps-pure _ tt))
    where
      released : (a b : ℕ) → Keeps I (λ _. Unit {0}) (free a >> free b)
      released a b = Runs-then_free a _ (Keeps-free b)
