-- ===== src/Exec/Owns.antt =====
-- Ownership of handles. `Owns xs ys es m` says: run where the handles `xs` are the newest live
-- ones, `m` ends with `ys` in their place if it returns, with `es` if it throws, and frees nothing
-- twice. So a function that is `Tidy` leaks no handle on any path.
use pqc_messaging_app.Prelude.{
  ℕ, String, ◌≡◌, refl, subst, Bool, true, false, List, [], ◌++◌, if◌then◌else◌,
}
use pqc_messaging_app.Exec.{
  Result, ok, err, hang, World, M, pure, raise, wait_for_ever, gets, modify, continue, ◌>>=◌, ◌>>◌,
  rethrow, try_cleanup, destroy, scoped, caught, try_catch, zoom,
}

abbrev pub Settles :
    {S A : Type 0} → Bool → List ℕ → (A → List ℕ) → List ℕ → Result A × World S → Type 0
Settles c l ys es (ok a, w) = (w.live ≡ ys a ++ l) × (w.corrupt ≡ c)
Settles c l ys es (err e, w) = (w.live ≡ es ++ l) × (w.corrupt ≡ c)
Settles c l ys es (hang, w) = w.corrupt ≡ c

pub record Owns {S A : Type 0} (xs : List ℕ) (ys : A → List ℕ) (es : List ℕ) (m : M S A)
    : Type 0 where
  pub at : (w : World S) (l : List ℕ) → w.live ≡ xs ++ l → Settles w.corrupt l ys es (m w)

-- A call that neither takes a handle nor gives one.
abbrev pub Tidy : {S A : Type 0} → M S A → Type 0
Tidy = Owns [] (λ _. []) []

module _ {S A : Type 0} {es : List ℕ} where
  pub Owns-pure : {ys : A → List ℕ} (a : A) → Owns {S = S} (ys a) ys es (pure a)
  unfolding pure
  Owns-pure a = record { at = λ w l h. (h, refl) }

  pub Owns-raise : {ys : A → List ℕ} (e : String) → Owns {S = S} es ys es (raise e)
  unfolding raise
  Owns-raise e = record { at = λ w l h. (h, refl) }

  pub Owns-gets : {xs : List ℕ} (f : S → A) → Owns xs (λ _. xs) es (gets f)
  unfolding gets
  Owns-gets f = record { at = λ w l h. (h, refl) }

  pub Owns-wait : {xs : List ℕ} {ys : A → List ℕ} → Owns {S = S} xs ys es wait_for_ever
  unfolding wait_for_ever
  Owns-wait = record { at = λ w l h. refl }

  pub Owns-if :
      {xs : List ℕ} {ys : A → List ℕ} (b : Bool) (m k : M S A)
      → Owns xs ys es m
      → Owns xs ys es k
      → Owns xs ys es (if b then m else k)
  Owns-if true m k hm hk = hm
  Owns-if false m k hm hk = hk

pub Owns-modify : {S : Type 0} {xs es : List ℕ} (f : S → S) → Owns xs (λ _. xs) es (modify f)
unfolding modify
Owns-modify f = record { at = λ w l h. (h, refl) }

module _ {S A B : Type 0} {zs : B → List ℕ} {es : List ℕ} where
  continue-Settles :
      (c : Bool) (l : List ℕ) (ys : A → List ℕ) (f : A → M S B)
      → ((a : A) → Owns (ys a) zs es (f a))
      → (r : Result A × World S) → Settles c l ys es r
      → Settles c l zs es (continue r f)
  continue-Settles c l ys f hf (ok a, w) s =
      subst (λ b. Settles b l zs es (f a w)) s.1 ((hf a).at w l s.0)
  continue-Settles c l ys f hf (err e, w) s = s
  continue-Settles c l ys f hf (hang, w) s = s

  pub Owns-bind :
      {xs : List ℕ} (ys : A → List ℕ) (m : M S A) (f : A → M S B)
      → Owns xs ys es m
      → ((a : A) → Owns (ys a) zs es (f a))
      → Owns xs zs es (m >>= f)
  unfolding ◌>>=◌
  Owns-bind ys m f hm hf = record {
    at = λ w l h. continue-Settles w.corrupt l ys f hf (m w) (hm.at w l h);
  }

module _ {S A : Type 0} where
  frame-Settles :
      (c : Bool) (l xs : List ℕ) (r : Result A × World S)
      → Settles c (xs ++ l) (λ _. []) [] r
      → Settles c l (λ _. xs) xs r
  frame-Settles c l xs (ok a, w) s = s
  frame-Settles c l xs (err e, w) s = s
  frame-Settles c l xs (hang, w) s = s

  -- A tidy call leaves what its caller holds.
  pub Owns-frame : (xs : List ℕ) (m : M S A) → Tidy m → Owns xs (λ _. xs) xs m
  Owns-frame xs m h = record {
    at = λ w l e. frame-Settles w.corrupt l xs (m w) (h.at w (xs ++ l) e);
  }

  rethrow-Settles :
      (c : Bool) (l es : List ℕ) (ys : A → List ℕ) (handler : M S Unit)
      → Owns es (λ _. []) [] handler
      → (r : Result A × World S) → Settles c l ys es r
      → Settles c l ys [] (rethrow handler r)
  rethrow-Settles c l es ys handler hh (ok a, w) s = s
  rethrow-Settles c l es ys handler hh (err e, w) s =
      subst (λ b. Settles b l ys [] ((handler >> raise e) w)) s.1
        ((Owns-bind (λ _. []) handler (λ _. raise e) hh (λ _. Owns-raise e)).at w l s.0)
  rethrow-Settles c l es ys handler hh (hang, w) s = s

  -- The handler frees what the body left when it threw.
  pub Owns-try_cleanup :
      {xs : List ℕ} {ys : A → List ℕ} (es : List ℕ) (m : M S A) (handler : M S Unit)
      → Owns xs ys es m
      → Owns es (λ _. []) [] handler
      → Owns xs ys [] (try_cleanup m handler)
  unfolding try_cleanup
  Owns-try_cleanup {ys} es m handler hm hh = record {
    at = λ w l e. rethrow-Settles w.corrupt l es ys handler hh (m w) (hm.at w l e);
  }

  destroy-Settles :
      (c : Bool) (l xs : List ℕ) (d : M S Unit)
      → Owns xs (λ _. []) [] d
      → (r : Result A × World S) → Settles c l (λ _. xs) xs r
      → Settles c l (λ _. []) [] (destroy d r)
  destroy-Settles c l xs d hd (ok a, w) s =
      subst (λ b. Settles b l (λ _. []) [] ((d >>= λ _. pure a) w)) s.1
        ((Owns-bind (λ _. []) d (λ _. pure a) hd (λ _. Owns-pure {ys = λ _. []} a)).at w l s.0)
  destroy-Settles c l xs d hd (err e, w) s =
      subst (λ b. Settles b l (λ (_ : A). []) [] ((d >> raise e) w)) s.1
        ((Owns-bind {zs = λ _. []} (λ _. []) d (λ _. raise e) hd (λ _. Owns-raise e)).at w l s.0)
  destroy-Settles c l xs d hd (hang, w) s = s

  pub Owns-scoped :
      (xs : List ℕ) (d : M S Unit) (m : M S A)
      → Owns xs (λ _. []) [] d
      → Tidy m
      → Owns xs (λ _. []) [] (scoped d m)
  unfolding scoped
  Owns-scoped xs d m hd hm = record {
    at = λ w l e. destroy-Settles w.corrupt l xs d hd (m w) ((Owns-frame xs m hm).at w l e);
  }

  caught-Settles :
      (c : Bool) (l : List ℕ) (handler : String → A) (r : Result A × World S)
      → Settles c l (λ _. []) [] r
      → Settles c l (λ _. []) [] (caught handler r)
  caught-Settles c l handler (ok a, w) s = s
  caught-Settles c l handler (err e, w) s = s
  caught-Settles c l handler (hang, w) s = s

  pub Owns-try_catch : (m : M S A) (handler : String → A) → Tidy m → Tidy (try_catch m handler)
  unfolding try_catch
  Owns-try_catch m handler hm = record {
    at = λ w l e. caught-Settles w.corrupt l handler (m w) (hm.at w l e);
  }

module _ {S T A : Type 0} (get : S → T) (put : T → S → S) where
  zoomed-Settles :
      (c : Bool) (l : List ℕ) (s : S) (r : Result A) (w : World T)
      → Settles c l (λ _. []) [] (r, w)
      → Settles {S = S} c l (λ _. []) [] (r, record { machine = w.machine; obj = put w.obj s })
  zoomed-Settles c l s (ok a) w h = h
  zoomed-Settles c l s (err e) w h = h
  zoomed-Settles c l s hang w h = h

  pub Owns-zoom : (m : M T A) → Tidy m → Tidy (zoom get put m)
  unfolding zoom
  Owns-zoom m hm = record {
    at = λ w l e.
        let inner : World T = record { machine = w.machine; obj = get w.obj } in
        zoomed-Settles w.corrupt l w.obj (m inner).0 (m inner).1 (hm.at inner l e);
  }
