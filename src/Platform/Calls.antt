-- ===== src/Platform/Calls.antt =====
-- The calls of foreign code: counted, refused or answered, and what they do to handles.
use pqc_messaging_app.Prelude.{
  ℕ, suc, String, ◌≡◌, refl, Bool, true, false, not, List, [], ◌∷◌, ◌++◌, ap, arith, ◌==◌, ◌||◌,
  ==_refl, ==_iff, sym, Bool-cases, inl, inr, if◌then◌else◌,
}
use pqc_messaging_app.Exec.{ok, Result, World, M, pure, raise, ◌>>=◌, ◌>>◌}
use pqc_messaging_app.Exec.Owns.{Owns, Settles, Tidy, Owns-bind, Owns-raise, Owns-pure}
use pqc_messaging_app.Exec.Answers.{Answered, Answers, Answers-bind, Post, Ensures}
use pqc_messaging_app.Exec.Reaches.{Reaches}
use pqc_messaging_app.Platform.{Platform}

unfoldable pub holds : ℕ → List ℕ → Bool
holds h [] = false
holds h (x ∷ xs) = x == h || holds h xs

pub erase : ℕ → List ℕ → List ℕ
erase h [] = []
erase h (x ∷ xs) = if x == h then xs else x ∷ erase h xs

module _ {S : Type 0} where
  abbrev pub counted : World S → World S
  counted w = record w { machine = record w.machine { calls = suc w.calls } }

  abbrev pub opened : World S → World S
  opened w = record w {
    machine = record w.machine { calls = suc w.calls; next = suc w.next; live = w.next ∷ w.live };
  }

  -- A `*_free` call: never refused, and undefined on a handle that is not live.
  unfoldable pub free : ℕ → M S Unit
  unfolding holds erase
  free h w =
      if holds h w.live
      then (ok tt, record w { machine = record w.machine { live = erase h w.live } })
      else (ok tt, record w { machine = record w.machine { corrupt = true } })

  pub Owns-free : {es xs : List ℕ} (h : ℕ) → Owns (h ∷ xs) (λ _. xs) es (free h)
  unfolding free
  Owns-free {es} {xs} h = record { at = λ w l e. rw (e, ==_refl h) (refl, refl) }

  -- The handle below the newest one; where the two are one, it is the newest that goes.
  pub Owns-free_under : {es xs : List ℕ} (a h : ℕ) → Owns (a ∷ h ∷ xs) (λ _. a ∷ xs) es (free h)
  unfolding free
  Owns-free_under {es} {xs} a h = record {
    at = λ w l e. elim (Bool-cases (a == h)) [
      | inl same ↦ rw (e, same) (ap (λ (t : ℕ). t ∷ (xs ++ l)) (sym ((==_iff a h).0 same)), refl)
      | inr other ↦ rw (e, other, ==_refl h) (refl, refl)
    ];
  }

  pub Answers-free : (h : ℕ) → Answers (λ _. Unit) (free h)
  unfolding free
  Answers-free h = record {
    at = λ w. elim (Bool-cases (holds h w.live)) [
      | inl e ↦ record {
        value = tt;
        after = record w { machine = record w.machine { live = erase h w.live } };
        returned = rw e;
        holds_of = tt;
        same_obj = refl;
        same_disk = refl;
      }
      | inr e ↦ record {
        value = tt;
        after = record w { machine = record w.machine { corrupt = true } };
        returned = rw e;
        holds_of = tt;
        same_obj = refl;
        same_disk = refl;
      }
    ];
  }

module _ {S A : Type 0} where
  abbrev pub answer : Bool → M S A → A → World S → Result A × World S
  answer refused fallback a w = if refused then fallback (counted w) else (ok a, counted w)

  abbrev pub hand_out : Bool → M S A → (ℕ → M S A) → World S → Result A × World S
  hand_out refused fallback k w = if refused then fallback (counted w) else k w.next (opened w)

  answer-Settles :
      {xs es : List ℕ} (refused : Bool) (fallback : M S A) (a : A) (w : World S) (l : List ℕ)
      → Owns xs (λ _. xs) es fallback
      → w.live ≡ xs ++ l
      → Settles w.corrupt l (λ _. xs) es (answer refused fallback a w)
  answer-Settles true fallback a w l h e = h.at (counted w) l e
  answer-Settles false fallback a w l h e = (e, refl)

  hand_out-Settles :
      {xs es : List ℕ} {ys : A → List ℕ} (refused : Bool) (fallback : M S A) (k : ℕ → M S A)
      (w : World S) (l : List ℕ)
      → Owns xs ys es fallback
      → ((h : ℕ) → Owns (h ∷ xs) ys es (k h))
      → w.live ≡ xs ++ l
      → Settles w.corrupt l ys es (hand_out refused fallback k w)
  hand_out-Settles true fallback k w l hf hk e = hf.at (counted w) l e
  hand_out-Settles false fallback k w l hf hk e = (hk w.next).at (opened w) l (ap (◌∷◌ w.next) e)

module _ ⦃p : Platform⦄ {S A : Type 0} where
  -- A call whose refusal runs `fallback`; `f i` is what the i-th call answers.
  unfoldable pub call_else : M S A → (ℕ → A) → M S A
  call_else fallback f w = answer (p.fails w.calls) fallback (f w.calls) w

  -- A call that gives a new handle to the rest of the block. It is refused also where the library
  -- does not take its argument.
  unfoldable pub with_new : Bool → M S A → (ℕ → M S A) → M S A
  with_new takes fallback k w = hand_out (p.fails w.calls || not takes) fallback k w

  pub Owns-call_else :
      {xs es : List ℕ} (fallback : M S A) (f : ℕ → A)
      → Owns xs (λ _. xs) es fallback
      → Owns xs (λ _. xs) es (call_else fallback f)
  unfolding call_else
  Owns-call_else fallback f h = record {
    at = λ w l e. answer-Settles (p.fails w.calls) fallback (f w.calls) w l h e;
  }

  pub Owns-with_new :
      {xs es : List ℕ} {ys : A → List ℕ} (takes : Bool) (fallback : M S A) (k : ℕ → M S A)
      → Owns xs ys es fallback
      → ((h : ℕ) → Owns (h ∷ xs) ys es (k h))
      → Owns xs ys es (with_new takes fallback k)
  unfolding with_new
  Owns-with_new takes fallback k hf hk = record {
    at = λ w l e. hand_out-Settles (p.fails w.calls || not takes) fallback k w l hf hk e;
  }

  -- A call whose refusal throws; one whose refusal frees and throws.
  abbrev pub call : String → (ℕ → A) → M S A
  call e = call_else (raise e)

  abbrev pub call_or : M S Unit → String → (ℕ → A) → M S A
  call_or cleanup e = call_else (cleanup >> raise e)

  pub Tidy-call : (e : String) (f : ℕ → A) → Tidy (call e f)
  Tidy-call e f = Owns-call_else (raise e) f (Owns-raise e)

  pub Owns-call_or :
      {xs : List ℕ} (cleanup : M S Unit) (e : String) (f : ℕ → A)
      → Owns xs (λ _. []) [] cleanup
      → Owns xs (λ _. xs) [] (call_or cleanup e f)
  Owns-call_or cleanup e f h =
      Owns-call_else (cleanup >> raise e) f
        (Owns-bind (λ _. []) cleanup (λ _. raise e) h (λ _. Owns-raise e))

  -- A call that is not refused answers.
  pub Answers-call_else :
      {P : A → Type 0} (fallback : M S A) (f : ℕ → A)
      → ((i : ℕ) → p.fails i ≡ false)
      → ((i : ℕ) → P (f i))
      → Answers P (call_else fallback f)
  unfolding call_else
  Answers-call_else fallback f healthy hf = record {
    at = λ w. record {
      value = f w.calls;
      after = counted w;
      returned = rw (healthy w.calls);
      holds_of = hf w.calls;
      same_obj = refl;
      same_disk = refl;
    };
  }

  pub Answers-with_new :
      {P : A → Type 0} (fallback : M S A) (k : ℕ → M S A) {takes : Bool}
      → ((i : ℕ) → p.fails i ≡ false)
      → takes ≡ true
      → ((h : ℕ) → Answers P (k h))
      → Answers P (with_new takes fallback k)
  unfolding with_new
  Answers-with_new {P} fallback k {takes} healthy t hk = record {
    at = λ w.
        let rest : Answered P (opened w) (k w.next (opened w)) = (hk w.next).at (opened w) in
        record {
          value = rest.value;
          after = rest.after;
          returned = rw (healthy w.calls, t) rest.returned;
          holds_of = rest.holds_of;
          same_obj = rest.same_obj;
          same_disk = rest.same_disk;
        };
  }

  answer-Post :
      {P : A → Type 0} (refused : Bool) (fallback : M S A) (a : A) (w : World S)
      → Ensures P fallback
      → P a
      → Post P (answer refused fallback a w)
  answer-Post true fallback a w hf h = hf.at (counted w)
  answer-Post false fallback a w hf h = h

  pub Ensures-call_else :
      {P : A → Type 0} (fallback : M S A) (f : ℕ → A)
      → Ensures P fallback
      → ((i : ℕ) → P (f i))
      → Ensures P (call_else fallback f)
  unfolding call_else
  Ensures-call_else fallback f hf h = record {
    at = λ w. answer-Post (p.fails w.calls) fallback (f w.calls) w hf (h w.calls);
  }

  hand_out-Post :
      {P : A → Type 0} (refused : Bool) (fallback : M S A) (k : ℕ → M S A) (w : World S)
      → Ensures P fallback
      → (refused ≡ false → (h : ℕ) → Ensures P (k h))
      → Post P (hand_out refused fallback k w)
  hand_out-Post true fallback k w hf hk = hf.at (counted w)
  hand_out-Post false fallback k w hf hk = (hk refl w.next).at (opened w)

  pub Ensures-with_new :
      {P : A → Type 0} (takes : Bool) (fallback : M S A) (k : ℕ → M S A)
      → Ensures P fallback
      → (takes ≡ true → (h : ℕ) → Ensures P (k h))
      → Ensures P (with_new takes fallback k)
  unfolding with_new
  Ensures-with_new takes fallback k hf hk = record {
    at = λ w. hand_out-Post (p.fails w.calls || not takes) fallback k w hf λ e. hk (ground arith);
  }

-- A block of calls that are not refused answers with what they answer.
module _ ⦃p : Platform⦄ {S A B : Type 0} {Q : B → Type 0} where
  pub Answers-then_call :
      ((i : ℕ) → p.fails i ≡ false)
      → (fallback : M S A) (f : ℕ → A) (k : A → M S B) → ((i : ℕ) → Answers Q (k (f i)))
      → Answers Q (call_else fallback f >>= k)
  unfolding call_else ◌>>=◌
  Answers-then_call healthy fallback f k hk = record {
    at = λ w.
        let rest : Answered Q (counted w) (k (f w.calls) (counted w)) =
          (hk w.calls).at (counted w) in
        record {
          value = rest.value;
          after = rest.after;
          returned = rw (healthy w.calls) rest.returned;
          holds_of = rest.holds_of;
          same_obj = rest.same_obj;
          same_disk = rest.same_disk;
        };
  }

module _ {S B : Type 0} {Q : B → Type 0} where
  pub Answers-then_free :
      (h : ℕ) (k : Unit {0} → M S B) → Answers Q (k tt) → Answers Q (free h >>= k)
  Answers-then_free h k hk = Answers-bind (λ _. Unit) (free h) k (Answers-free h) λ _ _. hk

module _ ⦃p : Platform⦄ {S B : Type 0} {R : B → World S → Type 0}
    (healthy : (i : ℕ) → p.fails i ≡ false) where
  pub Reaches-with_new :
      (fallback : M S B) (k : ℕ → M S B) (w : World S)
      → Reaches R (k w.next (opened w))
      → Reaches R (with_new true fallback k w)
  unfolding with_new
  Reaches-with_new fallback k w h = rw (healthy w.calls) h

  pub Reaches-then_call :
      {A : Type 0} (fallback : M S A) (f : ℕ → A) (k : A → M S B) (w : World S)
      → Reaches R (k (f w.calls) (counted w))
      → Reaches R ((call_else fallback f >>= k) w)
  unfolding call_else ◌>>=◌
  Reaches-then_call fallback f k w h = rw (healthy w.calls) h

-- The shapes that a block of such calls has, one rule for each: a call that throws and leaves what
-- is held to a handler, one that frees first, and a `free`.
module _ ⦃p : Platform⦄ {S A B : Type 0} {xs : List ℕ} {zs : B → List ℕ} where
  pub Owns-then_call :
      (e : String) (f : ℕ → A) (k : A → M S B)
      → ((a : A) → Owns xs zs xs (k a))
      → Owns xs zs xs (call e f >>= k)
  Owns-then_call e f k hk =
      Owns-bind (λ _. xs) (call e f) k (Owns-call_else (raise e) f (Owns-raise e)) hk

  pub Owns-then_call_or :
      (cleanup : M S Unit) (e : String) (f : ℕ → A) (k : A → M S B)
      → Owns xs (λ _. []) [] cleanup
      → ((a : A) → Owns xs zs [] (k a))
      → Owns xs zs [] (call_or cleanup e f >>= k)
  Owns-then_call_or cleanup e f k hc hk =
      Owns-bind (λ _. xs) (call_or cleanup e f) k (Owns-call_or cleanup e f hc) hk

module _ {S B : Type 0} {xs es : List ℕ} {zs : B → List ℕ} where
  pub Owns-then_free :
      (h : ℕ) (k : Unit {0} → M S B)
      → ((u : Unit) → Owns xs zs es (k u))
      → Owns (h ∷ xs) zs es (free h >>= k)
  Owns-then_free h k hk = Owns-bind (λ _. xs) (free h) k (Owns-free h) hk

pub Owns-done : {S B : Type 0} {xs es : List ℕ} (b : B) → Owns {S = S} xs (λ _. xs) es (pure b)
Owns-done b = Owns-pure b

pub ruleset owns_rules = (
  Owns-then_call, Owns-then_call_or, Owns-then_free, Owns-free, Owns-raise, Owns-done,
  Owns-with_new,
)
