-- ===== src/Exec/Answers.antt =====
-- Two judgements on calls that leave the object and the files alone. `Answers P m` is total: `m`
-- returns, from every state, a value with `P`. `Ensures P m` is partial: a value that `m` returns
-- has `P`.
use pqc_messaging_app.Prelude.{String, ◌≡◌, refl, Bool, true, false, ◌∙◌, if◌then◌else◌}
use pqc_messaging_app.Exec.{
  Result, ok, err, hang, World, M, pure, raise, gets, continue, ◌>>=◌, destroy, scoped, rethrow,
  try_cleanup, caught, try_catch,
}

pub record Answered {S A : Type 0} (P : A → Type 0) (w : World S) (r : Result A × World S)
    : Type 0 where
  pub value : A
  pub after : World S
  pub returned : r ≡ (ok value, after)
  pub holds_of : P value
  pub same_obj : after.obj ≡ w.obj
  pub same_disk : after.disk ≡ w.disk

pub record Answers {S A : Type 0} (P : A → Type 0) (m : M S A) : Type 0 where
  pub at : (w : World S) → Answered P w (m w)

module _ {S A : Type 0} where
  pub Answers-pure : {P : A → Type 0} (a : A) → P a → Answers {S = S} P (pure a)
  unfolding pure
  Answers-pure a h = record {
    at = λ w. record {
      value = a;
      after = w;
      returned = refl;
      holds_of = h;
      same_obj = refl;
      same_disk = refl;
    };
  }

  pub Answers-if :
      {P : A → Type 0} (b : Bool) (m k : M S A)
      → (b ≡ true → Answers P m)
      → (b ≡ false → Answers P k)
      → Answers P (if b then m else k)
  Answers-if true m k hm hk = hm refl
  Answers-if false m k hm hk = hk refl

module _ {S A B : Type 0} {Q : B → Type 0} where
  pub Answers-bind :
      (P : A → Type 0) (m : M S A) (f : A → M S B)
      → Answers P m
      → ((a : A) → P a → Answers Q (f a))
      → Answers Q (m >>= f)
  unfolding ◌>>=◌
  Answers-bind P m f hm hf = record {
    at = λ w.
        let first : Answered P w (m w) = hm.at w in
        let second : Answered Q first.after (f first.value first.after) =
          (hf first.value first.holds_of).at first.after in
        record {
          value = second.value;
          after = second.after;
          returned = ap_continue w first second;
          holds_of = second.holds_of;
          same_obj = second.same_obj ∙ first.same_obj;
          same_disk = second.same_disk ∙ first.same_disk;
        };
  }
    where
      ap_continue :
          (w : World S) (first : Answered P w (m w))
          (second : Answered Q first.after (f first.value first.after))
          → continue (m w) f ≡ (ok second.value, second.after)
      ap_continue w first second = rw first.returned second.returned

module _ {S A : Type 0} {P : A → Type 0} where
  pub Answers-try_cleanup :
      (m : M S A) (handler : M S Unit) → Answers P m → Answers P (try_cleanup m handler)
  unfolding try_cleanup
  Answers-try_cleanup m handler hm = record {
    at = λ w.
        let first : Answered P w (m w) = hm.at w in
        record {
          value = first.value;
          after = first.after;
          returned = kept w first;
          holds_of = first.holds_of;
          same_obj = first.same_obj;
          same_disk = first.same_disk;
        };
  }
    where
      kept :
          (w : World S) (first : Answered P w (m w))
          → rethrow handler (m w) ≡ (ok first.value, first.after)
      kept w first = rw first.returned

  pub Answers-scoped :
      (d : M S Unit) (m : M S A) → Answers (λ _. Unit) d → Answers P m → Answers P (scoped d m)
  unfolding scoped
  Answers-scoped d m hd hm = record {
    at = λ w.
        let first : Answered P w (m w) = hm.at w in
        let second : Answered P first.after ((d >>= λ _. pure first.value) first.after) =
          (Answers-bind (λ _. Unit) d (λ _. pure first.value) hd
              (λ _ _. Answers-pure first.value first.holds_of)).at
            first.after in
        record {
          value = second.value;
          after = second.after;
          returned = destroyed w first second.value second.after second.returned;
          holds_of = second.holds_of;
          same_obj = second.same_obj ∙ first.same_obj;
          same_disk = second.same_disk ∙ first.same_disk;
        };
  }
    where
      destroyed :
          (w : World S) (first : Answered P w (m w)) (b : A) (w' : World S)
          → (d >>= λ _. pure first.value) first.after ≡ (ok b, w')
          → destroy d (m w) ≡ (ok b, w')
      destroyed w first b w' e = rw first.returned e

  pub Answers-try_catch :
      (m : M S A) (handler : String → A) → Answers P m → Answers P (try_catch m handler)
  unfolding try_catch
  Answers-try_catch m handler hm = record {
    at = λ w.
        let first : Answered P w (m w) = hm.at w in
        record {
          value = first.value;
          after = first.after;
          returned = uncaught w first;
          holds_of = first.holds_of;
          same_obj = first.same_obj;
          same_disk = first.same_disk;
        };
  }
    where
      uncaught :
          (w : World S) (first : Answered P w (m w))
          → caught handler (m w) ≡ (ok first.value, first.after)
      uncaught w first = rw first.returned

  pub Answers-weaken :
      {Q : A → Type 0} (m : M S A) → Answers P m → ((a : A) → P a → Q a) → Answers Q m
  Answers-weaken m hm h = record {
    at = λ w.
        let first : Answered P w (m w) = hm.at w in
        record {
          value = first.value;
          after = first.after;
          returned = first.returned;
          holds_of = h first.value first.holds_of;
          same_obj = first.same_obj;
          same_disk = first.same_disk;
        };
  }

abbrev pub Post : {S A : Type 0} → (A → Type 0) → Result A × World S → Type 0
Post P (ok a, w) = P a
Post P (err e, w) = Unit
Post P (hang, w) = Unit

pub record Ensures {S A : Type 0} (P : A → Type 0) (m : M S A) : Type 0 where
  pub at : (w : World S) → Post P (m w)

module _ {S A : Type 0} {P : A → Type 0} where
  pub Ensures-pure : (a : A) → P a → Ensures {S = S} P (pure a)
  unfolding pure
  Ensures-pure a h = record { at = λ w. h }

  pub Ensures-raise : (e : String) → Ensures {S = S} P (raise e)
  unfolding raise
  Ensures-raise e = record { at = λ w. tt }

  pub Ensures-if :
      (b : Bool) (m k : M S A)
      → (b ≡ true → Ensures P m)
      → (b ≡ false → Ensures P k)
      → Ensures P (if b then m else k)
  Ensures-if true m k hm hk = hm refl
  Ensures-if false m k hm hk = hk refl

pub Ensures-gets :
    {S A : Type 0} {P : A → Type 0} (f : S → A) → ((s : S) → P (f s)) → Ensures P (gets f)
unfolding gets
Ensures-gets f h = record { at = λ w. h w.obj }

module _ {S A B : Type 0} {Q : B → Type 0} where
  continue-Post :
      (P : A → Type 0) (f : A → M S B) (r : Result A × World S)
      → Post P r
      → ((a : A) → P a → Ensures Q (f a))
      → Post Q (continue r f)
  continue-Post P f (ok a, w) h hf = (hf a h).at w
  continue-Post P f (err e, w) h hf = tt
  continue-Post P f (hang, w) h hf = tt

  pub Ensures-bind :
      (P : A → Type 0) (m : M S A) (f : A → M S B)
      → Ensures P m
      → ((a : A) → P a → Ensures Q (f a))
      → Ensures Q (m >>= f)
  unfolding ◌>>=◌
  Ensures-bind P m f hm hf = record { at = λ w. continue-Post P f (m w) (hm.at w) hf }

module _ {S A : Type 0} {P : A → Type 0} (h : (a : A) → P a) where
  all-Post : (r : Result A × World S) → Post P r
  all-Post (ok a, w) = h a
  all-Post (err e, w) = tt
  all-Post (hang, w) = tt

  -- What holds anyway holds of what a call returns.
  pub Ensures-all : (m : M S A) → Ensures P m
  Ensures-all m = record { at = λ w. all-Post (m w) }
