-- ===== src/Exec/Hoare.antt =====
-- Triples: `Hoare P Q m` says that from an object with `P`, where `m` returns, `Q` holds of the value
-- and the object. What a call that throws or waits leaves is not looked at, so that an invariant
-- may be broken on the way.
use pqc_messaging_app.Prelude.{◌≡◌, refl, String, Bool, true, false, if◌then◌else◌}
use pqc_messaging_app.Exec.{
  Result, ok, err, hang, World, M, pure, raise, wait_for_ever, gets, modify, continue, ◌>>=◌, zoom,
}
use pqc_messaging_app.Exec.Reaches.{Reaches}
use pqc_messaging_app.Exec.Runs.{Ended}

abbrev pub Met : {S A : Type 0} → (A → S → Type 0) → Result A × World S → Type 0
Met Q (ok a, w) = Q a w.obj
Met Q (err e, w) = Unit
Met Q (hang, w) = Unit

pub record Hoare {S A : Type 0} (P : S → Type 0) (Q : A → S → Type 0) (m : M S A) : Type 0 where
  pub at : (w : World S) → P w.obj → Met Q (m w)

module _ {S A : Type 0} {P : S → Type 0} {Q : A → S → Type 0} where
  pub Hoare-pure : (a : A) → ((s : S) → P s → Q a s) → Hoare P Q (pure a)
  unfolding pure
  Hoare-pure a h = record { at = λ w i. h w.obj i }

  pub Hoare-raise : (e : String) → Hoare P Q (raise e)
  unfolding raise
  Hoare-raise e = record { at = λ w i. tt }

  pub Hoare-wait : Hoare P Q wait_for_ever
  unfolding wait_for_ever
  Hoare-wait = record { at = λ w i. tt }

  pub Hoare-if :
      (b : Bool) (m k : M S A)
      → (b ≡ true → Hoare P Q m)
      → (b ≡ false → Hoare P Q k)
      → Hoare P Q (if b then m else k)
  Hoare-if true m k hm hk = hm refl
  Hoare-if false m k hm hk = hk refl

  pub Hoare-absurd : (m : M S A) → ((s : S) → P s → ⊥) → Hoare P Q m
  Hoare-absurd m h = record { at = λ w i. elim (h w.obj i) [ ] }

  -- Where what is known of the object is needed to choose the proof.
  pub Hoare-known : (m : M S A) → ((s : S) → P s → Hoare (λ t. t ≡ s) Q m) → Hoare P Q m
  Hoare-known m h = record { at = λ w i. (h w.obj i).at w refl }

  pub Hoare-strengthen :
      {P' : S → Type 0} (m : M S A) → Hoare P' Q m → ((s : S) → P s → P' s) → Hoare P Q m
  Hoare-strengthen m hm h = record { at = λ w i. hm.at w (h w.obj i) }

module _ {S A : Type 0} (Q R : A → S → Type 0) where
  met-weaken : (r : Result A × World S) → ((a : A) (s : S) → Q a s → R a s) → Met Q r → Met R r
  met-weaken (ok a, w) h m = h a w.obj m
  met-weaken (err e, w) h m = tt
  met-weaken (hang, w) h m = tt

module _ {S A : Type 0} {P : S → Type 0} {Q R : A → S → Type 0} where
  pub Hoare-weaken : (m : M S A) → Hoare P Q m → ((a : A) (s : S) → Q a s → R a s) → Hoare P R m
  Hoare-weaken m hm h = record { at = λ w i. met-weaken Q R (m w) h (hm.at w i) }

pub Hoare-modify :
    {S : Type 0} {P : S → Type 0} {Q : Unit {0} → S → Type 0} (f : S → S)
    → ((s : S) → P s → Q tt (f s))
    → Hoare P Q (modify f)
unfolding modify
Hoare-modify f h = record { at = λ w i. h w.obj i }

module _ {S A B : Type 0} {Q : B → S → Type 0} where
  continue-Met :
      (R : A → S → Type 0) (f : A → M S B) (r : Result A × World S)
      → Met R r
      → ((a : A) → Hoare (R a) Q (f a))
      → Met Q (continue r f)
  continue-Met R f (ok a, w) h hf = (hf a).at w h
  continue-Met R f (err e, w) h hf = tt
  continue-Met R f (hang, w) h hf = tt

module _ {S A B : Type 0} {P : S → Type 0} {Q : B → S → Type 0} where
  pub Hoare-bind :
      (R : A → S → Type 0) (m : M S A) (f : A → M S B)
      → Hoare P R m
      → ((a : A) → Hoare (R a) Q (f a))
      → Hoare P Q (m >>= f)
  unfolding ◌>>=◌
  Hoare-bind R m f hm hf = record { at = λ w i. continue-Met R f (m w) (hm.at w i) hf }

  -- A value that is read, and what follows it.
  pub Hoare-then_gets :
      (g : S → A) (f : A → M S B)
      → ((a : A) → Hoare (λ s. P s × (g s ≡ a)) Q (f a))
      → Hoare P Q (gets g >>= f)
  unfolding ◌>>=◌
  Hoare-then_gets g f hf = record { at = λ w i. (hf (g w.obj)).at w (i, refl) }

module _ {S B : Type 0} {P : S → Type 0} {Q : B → S → Type 0} where
  -- A change of the object, and what follows it.
  pub Hoare-then_modify :
      {P' : S → Type 0} (g : S → S) (f : Unit {0} → M S B)
      → ((s : S) → P s → P' (g s))
      → Hoare P' Q (f tt)
      → Hoare P Q (modify g >>= f)
  unfolding ◌>>=◌
  Hoare-then_modify g f h hf = record { at = λ w i. hf.at (record w { obj = g w.obj }) (h w.obj i) }

module _ {S T A : Type 0} (put : T → S → S) where
  zoomed-Met :
      (Q : A → T → Type 0) (R : A → S → Type 0) (s : S) (r : Result A) (w : World T)
      → Met Q (r, w)
      → ((a : A) (t : T) → Q a t → R a (put t s))
      → Met {S = S} R (r, record { machine = w.machine; obj = put w.obj s })
  zoomed-Met Q R s (ok a) w m h = h a w.obj m
  zoomed-Met Q R s (err e) w m h = tt
  zoomed-Met Q R s hang w m h = tt

module _ {S T A : Type 0} {P : S → Type 0} {R : A → S → Type 0} (get : S → T)
    (put : T → S → S) where
  -- A call on a part of the object.
  pub Hoare-zoom :
      {Q : A → T → Type 0} (m : M T A)
      → Hoare (λ _. Unit {0}) Q m
      → ((s : S) (a : A) (t : T) → P s → Q a t → R a (put t s))
      → Hoare P R (zoom get put m)
  unfolding zoom
  Hoare-zoom {Q} m hm h = record {
    at = λ w i.
        let inner : World T = record { machine = w.machine; obj = get w.obj } in
        zoomed-Met put Q R w.obj (m inner).0 (m inner).1 (hm.at inner tt) λ a t q. h w.obj a t i q;
  }

module _ {S T A : Type 0} {P : S → Type 0} (get : S → T) (put : T → S → S) where
  -- A call on a part of the object that returns and leaves that part alone.
  pub Hoare-zoom_still :
      (m : M T A)
      → ((w : World T) → Reaches (λ _ v. v.obj ≡ w.obj) (m w))
      → ((s : S) → P s → P (put (get s) s))
      → Hoare P (λ _. P) (zoom get put m)
  unfolding zoom
  Hoare-zoom_still m hm h = record {
    at = λ w i.
        let inner = hm (record { machine = w.machine; obj = get w.obj }) in
        rw (inner.returned, inner.holds_of) (h w.obj i);
  }

module _ {S A : Type 0} where
  any-Met : (r : Result A × World S) → Met (λ _ _. Unit {0}) r
  any-Met (ok a, w) = tt
  any-Met (err e, w) = tt
  any-Met (hang, w) = tt

  -- What can be said of every call.
  pub Hoare-any : (m : M S A) → Hoare (λ _. Unit {0}) (λ _ _. Unit {0}) m
  Hoare-any m = record { at = λ w _. any-Met (m w) }

module _ {S A : Type 0} (I : S → Type 0) {Q R : A → S → Type 0} where
  pub Met-of_Ended :
      (r : Result A × World S) → Ended I Q r → ((a : A) (s : S) → Q a s → R a s) → Met R r
  Met-of_Ended (ok a, w) e h = h a w.obj e
  Met-of_Ended (err e', w) e h = tt
  Met-of_Ended (hang, w) e h = tt
