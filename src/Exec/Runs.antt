-- ===== src/Exec/Runs.antt =====
-- Partial correctness with an invariant of the object: `Runs I Q m` says that from an object with
-- `I`, where `m` returns `Q` holds of the value and the object, and where it throws or waits for
-- ever `I` still holds. Foreign calls may be refused at will.
use pqc_messaging_app.Prelude.{String, ◌≡◌, refl, Bool, true, false, if◌then◌else◌}
use pqc_messaging_app.Exec.Answers.{Answered, Answers}
use pqc_messaging_app.Exec.{
  Result, ok, err, hang, World, M, pure, raise, gets, modify, continue, ◌>>=◌, destroy, scoped,
  caught, try_catch, zoom,
}

abbrev pub Ended : {S A : Type 0} → (S → Type 0) → (A → S → Type 0) → Result A × World S → Type 0
Ended I Q (ok a, w) = Q a w.obj
Ended I Q (err e, w) = I w.obj
Ended I Q (hang, w) = I w.obj

pub record Runs {S A : Type 0} (I : S → Type 0) (Q : A → S → Type 0) (m : M S A) : Type 0 where
  pub at : (w : World S) → I w.obj → Ended I Q (m w)

-- The value has `P`, and the invariant is kept.
abbrev pub Keeps : {S A : Type 0} → (S → Type 0) → (A → Type 0) → M S A → Type 0
Keeps I P = Runs I (λ a s. P a × I s)

module _ {S A : Type 0} {I : S → Type 0} where
  pub Runs-pure : {Q : A → S → Type 0} (a : A) → ((s : S) → I s → Q a s) → Runs I Q (pure a)
  unfolding pure
  Runs-pure a h = record { at = λ w i. h w.obj i }

  pub Keeps-pure : {P : A → Type 0} (a : A) → P a → Keeps I P (pure a)
  Keeps-pure a h = Runs-pure a λ s i. (h, i)

  pub Runs-raise : {Q : A → S → Type 0} (e : String) → Runs I Q (raise e)
  unfolding raise
  Runs-raise e = record { at = λ w i. i }

  pub Keeps-gets : {P : A → Type 0} (f : S → A) → ((s : S) → I s → P (f s)) → Keeps I P (gets f)
  unfolding gets
  Keeps-gets f h = record { at = λ w i. (h w.obj i, i) }

  pub Runs-if :
      {Q : A → S → Type 0} (b : Bool) (m k : M S A)
      → (b ≡ true → Runs I Q m)
      → (b ≡ false → Runs I Q k)
      → Runs I Q (if b then m else k)
  Runs-if true m k hm hk = hm refl
  Runs-if false m k hm hk = hk refl

module _ {S A : Type 0} (I : S → Type 0) (Q R : A → S → Type 0) where
  ended-weaken :
      (r : Result A × World S) → ((a : A) (s : S) → Q a s → R a s) → Ended I Q r → Ended I R r
  ended-weaken (ok a, w) h e = h a w.obj e
  ended-weaken (err e, w) h i = i
  ended-weaken (hang, w) h i = i

module _ {S A : Type 0} {I : S → Type 0} {Q R : A → S → Type 0} where
  pub Runs-weaken : (m : M S A) → Runs I Q m → ((a : A) (s : S) → Q a s → R a s) → Runs I R m
  Runs-weaken m hm h = record { at = λ w i. ended-weaken I Q R (m w) h (hm.at w i) }

pub Runs-modify :
    {S : Type 0} {I : S → Type 0} {Q : Unit {0} → S → Type 0} (f : S → S)
    → ((s : S) → I s → Q tt (f s))
    → Runs I Q (modify f)
unfolding modify
Runs-modify f h = record { at = λ w i. h w.obj i }

module _ {S A B : Type 0} {I : S → Type 0} {Q : B → S → Type 0} where
  continue-Ended :
      (P : A → Type 0) (f : A → M S B) (r : Result A × World S)
      → Ended I (λ a s. P a × I s) r
      → ((a : A) → P a → Runs I Q (f a))
      → Ended I Q (continue r f)
  continue-Ended P f (ok a, w) h hf = (hf a h.0).at w h.1
  continue-Ended P f (err e, w) h hf = h
  continue-Ended P f (hang, w) h hf = h

  pub Runs-bind :
      (P : A → Type 0) (m : M S A) (f : A → M S B)
      → Keeps I P m
      → ((a : A) → P a → Runs I Q (f a))
      → Runs I Q (m >>= f)
  unfolding ◌>>=◌
  Runs-bind P m f hm hf = record { at = λ w i. continue-Ended P f (m w) (hm.at w i) hf }

module _ {S A : Type 0} (I : S → Type 0) (Q : A → S → Type 0) where
  destroy-Ended :
      (d : M S Unit) (r : Result A × World S)
      → Answers (λ _. Unit {0}) d
      → Ended I Q r
      → Ended I Q (destroy d r)
  unfolding ◌>>=◌
  destroy-Ended d (ok a, w) hd q =
      let done : Answered (λ _. Unit {0}) w (d w) = hd.at w in rw (done.returned, done.same_obj) q
  destroy-Ended d (err e, w) hd i =
      let done : Answered (λ _. Unit {0}) w (d w) = hd.at w in rw (done.returned, done.same_obj) i
  destroy-Ended d (hang, w) hd i = i

  caught-Ended :
      (handler : String → A) (r : Result A × World S)
      → ((e : String) (s : S) → I s → Q (handler e) s)
      → Ended I Q r
      → Ended I Q (caught handler r)
  caught-Ended handler (ok a, w) h q = q
  caught-Ended handler (err e, w) h i = h e w.obj i
  caught-Ended handler (hang, w) h i = i

module _ {S A : Type 0} {I : S → Type 0} {Q : A → S → Type 0} where
  pub Runs-scoped :
      (d : M S Unit) (m : M S A) → Answers (λ _. Unit {0}) d → Runs I Q m → Runs I Q (scoped d m)
  unfolding scoped
  Runs-scoped d m hd hm = record { at = λ w i. destroy-Ended I Q d (m w) hd (hm.at w i) }

  pub Runs-try_catch :
      (m : M S A) (handler : String → A)
      → Runs I Q m
      → ((e : String) (s : S) → I s → Q (handler e) s)
      → Runs I Q (try_catch m handler)
  unfolding try_catch
  Runs-try_catch m handler hm h = record {
    at = λ w i. caught-Ended I Q handler (m w) h (hm.at w i);
  }

module _ {S T A : Type 0} (I : S → Type 0) (put : T → S → S) where
  zoomed-Ended :
      (s : S) (r : Result A) (w : World T)
      → I (put w.obj s)
      → Ended {S = S} I
          (λ a t. Unit {0} × I t)
          (r, record { machine = w.machine; obj = put w.obj s })
  zoomed-Ended s (ok a) w i = (tt, i)
  zoomed-Ended s (err e) w i = i
  zoomed-Ended s hang w i = i

module _ {S T A : Type 0} {I : S → Type 0} (get : S → T) (put : T → S → S) where
  -- Whatever a callback does to its own part of the object.
  pub Keeps-zoom :
      (m : M T A) → ((s : S) (t : T) → I s → I (put t s)) → Keeps I (λ _. Unit) (zoom get put m)
  unfolding zoom
  Keeps-zoom m h = record {
    at = λ w i.
        let inner : World T = record { machine = w.machine; obj = get w.obj } in
        zoomed-Ended I put w.obj (m inner).0 (m inner).1 (h w.obj (m inner).1.obj i);
  }
