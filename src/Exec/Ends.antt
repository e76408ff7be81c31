-- ===== src/Exec/Ends.antt =====
-- Calls that come to an end, by a value or by an exception, whichever foreign calls are refused, and
-- that leave the object alone.
use pqc_messaging_app.Prelude.{◌≡◌, refl, subst, String, Bool, true, false, if◌then◌else◌}
use pqc_messaging_app.Exec.{
  Result, ok, err, hang, World, M, pure, raise, gets, continue, ◌>>=◌, ◌>>◌, rethrow, try_cleanup,
  caught, try_catch,
}
use pqc_messaging_app.Exec.Reaches.{Reaches}

abbrev pub Still : {S A : Type 0} → S → Result A × World S → Type 0
Still s (ok a, w) = w.obj ≡ s
Still s (err e, w) = w.obj ≡ s
Still s (hang, w) = ⊥

pub record Ends {S A : Type 0} (m : M S A) : Type 0 where
  pub at : (w : World S) → Still w.obj (m w)

module _ {S A : Type 0} where
  pub Ends-pure : (a : A) → Ends {S = S} (pure a)
  unfolding pure
  Ends-pure a = record { at = λ w. refl }

  pub Ends-raise : (e : String) → Ends {S = S} {A = A} (raise e)
  unfolding raise
  Ends-raise e = record { at = λ w. refl }

  pub Ends-gets : (f : S → A) → Ends (gets f)
  unfolding gets
  Ends-gets f = record { at = λ w. refl }

  pub Ends-if : (b : Bool) (m k : M S A) → Ends m → Ends k → Ends (if b then m else k)
  Ends-if true m k hm hk = hm
  Ends-if false m k hm hk = hk

module _ {S A B : Type 0} where
  continue-Still :
      (s : S) (r : Result A × World S) (f : A → M S B)
      → Still s r
      → ((a : A) → Ends (f a))
      → Still s (continue r f)
  continue-Still s (ok a, w) f h hf = subst (λ t. Still t (f a w)) h ((hf a).at w)
  continue-Still s (err e, w) f h hf = h
  continue-Still s (hang, w) f h hf = h

  pub Ends-bind : (m : M S A) (f : A → M S B) → Ends m → ((a : A) → Ends (f a)) → Ends (m >>= f)
  unfolding ◌>>=◌
  Ends-bind m f hm hf = record { at = λ w. continue-Still w.obj (m w) f (hm.at w) hf }

module _ {S A : Type 0} where
  rethrow-Still :
      (s : S) (handler : M S Unit) (r : Result A × World S)
      → Ends handler
      → Still s r
      → Still s (rethrow handler r)
  rethrow-Still s handler (ok a, w) hh h = h
  rethrow-Still s handler (err e, w) hh h =
      subst (λ t. Still t ((handler >> raise {A = A} e) w)) h
        ((Ends-bind handler (λ _. raise e) hh λ _. Ends-raise e).at w)
  rethrow-Still s handler (hang, w) hh h = h

  pub Ends-try_cleanup :
      (m : M S A) (handler : M S Unit) → Ends m → Ends handler → Ends (try_cleanup m handler)
  unfolding try_cleanup
  Ends-try_cleanup m handler hm hh = record {
    at = λ w. rethrow-Still w.obj handler (m w) hh (hm.at w);
  }

  caught-Reaches :
      (s : S) (handler : String → A) (r : Result A × World S)
      → Still s r
      → Reaches (λ _ v. v.obj ≡ s) (caught handler r)
  caught-Reaches s handler (ok a, w) h = record {
    value = a;
    after = w;
    returned = refl;
    holds_of = h;
  }
  caught-Reaches s handler (err e, w) h = record {
    value = handler e;
    after = w;
    returned = refl;
    holds_of = h;
  }
  caught-Reaches s handler (hang, w) h = elim h [ ]

  -- What ends and is caught returns.
  pub Ends-try_catch :
      (m : M S A) (handler : String → A) (w : World S)
      → Ends m
      → Reaches (λ _ v. v.obj ≡ w.obj) (try_catch m handler w)
  unfolding try_catch
  Ends-try_catch m handler w hm = caught-Reaches w.obj handler (m w) (hm.at w)
