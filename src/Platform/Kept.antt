-- ===== src/Platform/Kept.antt =====
-- What the calls of foreign code keep of the object, refused or not.
use pqc_messaging_app.Prelude.{ℕ, String, ◌≡◌, refl, Bool, true, false, not, ◌||◌, arith}
use pqc_messaging_app.Exec.{World, M, raise, ◌>>=◌}
use pqc_messaging_app.Exec.Answers.{Answered}
use pqc_messaging_app.Exec.Runs.{Ended, Runs, Keeps, Runs-raise, Runs-bind}
use pqc_messaging_app.Platform.{Platform}
use pqc_messaging_app.Platform.Calls.{
  counted, opened, answer, hand_out, call_else, with_new, call, call_or, free, Answers-free,
}

module _ {S : Type 0} {I : S → Type 0} where
  pub Keeps-free : (h : ℕ) → Keeps I (λ _. Unit {0}) (free h)
  Keeps-free h = record {
    at = λ w i.
        let done : Answered (λ _. Unit {0}) w (free h w) = (Answers-free h).at w in
        rw (done.returned, done.same_obj) (tt, i);
  }

  pub Runs-then_free :
      {B : Type 0} {Q : B → S → Type 0} (h : ℕ) (k : Unit {0} → M S B)
      → Runs I Q (k tt)
      → Runs I Q (free h >>= k)
  Runs-then_free h k hk = Runs-bind (λ _. Unit) (free h) k (Keeps-free h) λ _ _. hk

module _ {S A : Type 0} (I : S → Type 0) (Q : A → S → Type 0) where
  answer-Ended :
      (refused : Bool) (fallback : M S A) (a : A) (w : World S)
      → Runs I Q fallback
      → (I w.obj → Q a w.obj)
      → I w.obj
      → Ended I Q (answer refused fallback a w)
  answer-Ended true fallback a w hf q i = hf.at (counted w) i
  answer-Ended false fallback a w hf q i = q i

  hand_out-Ended :
      (refused : Bool) (fallback : M S A) (k : ℕ → M S A) (w : World S)
      → Runs I Q fallback
      → (refused ≡ false → (h : ℕ) → Runs I Q (k h))
      → I w.obj
      → Ended I Q (hand_out refused fallback k w)
  hand_out-Ended true fallback k w hf hk i = hf.at (counted w) i
  hand_out-Ended false fallback k w hf hk i = (hk refl w.next).at (opened w) i

module _ ⦃p : Platform⦄ {S A : Type 0} {I : S → Type 0} where
  pub Runs-call_else :
      {Q : A → S → Type 0} (fallback : M S A) (f : ℕ → A)
      → Runs I Q fallback
      → ((i : ℕ) (s : S) → I s → Q (f i) s)
      → Runs I Q (call_else fallback f)
  unfolding call_else
  Runs-call_else {Q} fallback f hf hq = record {
    at = λ w i. answer-Ended I Q (p.fails w.calls) fallback (f w.calls) w hf (hq w.calls w.obj) i;
  }

  pub Keeps-call :
      {P : A → Type 0} (e : String) (f : ℕ → A) → ((i : ℕ) → P (f i)) → Keeps I P (call e f)
  Keeps-call e f h = Runs-call_else (raise e) f (Runs-raise e) λ i s k. (h i, k)

  pub Runs-with_new :
      {Q : A → S → Type 0} (takes : Bool) (fallback : M S A) (k : ℕ → M S A)
      → Runs I Q fallback
      → (takes ≡ true → (h : ℕ) → Runs I Q (k h))
      → Runs I Q (with_new takes fallback k)
  unfolding with_new
  Runs-with_new {Q} takes fallback k hf hk = record {
    at = λ w i.
        hand_out-Ended I Q (p.fails w.calls || not takes) fallback k w hf
          (λ e. hk (taken (p.fails w.calls) takes e)) i;
  }
    where
      taken : (b c : Bool) → b || not c ≡ false → c ≡ true
      taken b c e = ground arith

module _ ⦃p : Platform⦄ {S A B : Type 0} {I : S → Type 0} {Q : B → S → Type 0} where
  -- A call that cleans up before it throws, and what follows its answer.
  pub Runs-then_call_else :
      (cleanup : M S Unit) (e : String) (f : ℕ → A) (k : A → M S B)
      → Keeps I (λ _. Unit {0}) cleanup
      → ((i : ℕ) → Runs I Q (k (f i)))
      → Runs I Q (call_or cleanup e f >>= k)
  Runs-then_call_else cleanup e f k hc hk =
      Runs-bind (λ a. (i : ℕ) × (a ≡ f i)) _ k
        (Runs-call_else _ f (Runs-bind (λ _. Unit) cleanup _ hc λ _ _. Runs-raise e)
          λ i s inv. ((i, refl), inv))
        λ a (i, same). rw same (hk i)
