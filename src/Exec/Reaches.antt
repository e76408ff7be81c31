-- ===== src/Exec/Reaches.antt =====
-- Total correctness from one state: `Reaches Q (m w)` says that `m` returns from `w`, with a value
-- and a state for which `Q` holds. `Rejects Q (m w)` says that it throws, and what holds then.
use pqc_messaging_app.Prelude.{String, ◌≡◌, refl, sym, subst}
use pqc_messaging_app.Exec.{
  Result, ok, Machine, World, M, pure, gets, modify, ◌>>=◌, scoped, try_catch, zoom,
}
use pqc_messaging_app.Exec.Answers.{Answered, Answers}

pub record Reaches {S A : Type 0} (Q : A → World S → Type 0) (r : Result A × World S) : Type 0 where
  pub value : A
  pub after : World S
  pub returned : r ≡ (ok value, after)
  pub holds_of : Q value after

module _ {S A : Type 0} {Q : A → World S → Type 0} where
  pub Reaches-pure : (a : A) (w : World S) → Q a w → Reaches Q (pure a w)
  unfolding pure
  Reaches-pure a w h = record { value = a; after = w; returned = refl; holds_of = h }

  pub Reaches-of_Answers :
      {P : A → Type 0} (m : M S A) (w : World S)
      → Answers P m
      → ((a : A) (w' : World S) → P a → w'.obj ≡ w.obj → w'.disk ≡ w.disk → Q a w')
      → Reaches Q (m w)
  Reaches-of_Answers {P} m w h hq =
      let r : Answered P w (m w) = h.at w in
      record {
        value = r.value;
        after = r.after;
        returned = r.returned;
        holds_of = hq r.value r.after r.holds_of r.same_obj r.same_disk;
      }

module _ {S A : Type 0} {Q R : A → World S → Type 0} where
  pub Reaches-weaken :
      (r : Result A × World S)
      → Reaches Q r
      → ((a : A) (w' : World S) → Q a w' → R a w')
      → Reaches R r
  Reaches-weaken r h hr = record {
    value = h.value;
    after = h.after;
    returned = h.returned;
    holds_of = hr h.value h.after h.holds_of;
  }

module _ {S A B : Type 0} {R : B → World S → Type 0} where
  pub Reaches-bind :
      {Q : A → World S → Type 0} (m : M S A) (f : A → M S B) (w : World S)
      → Reaches Q (m w)
      → ((a : A) (w' : World S) → Q a w' → Reaches R (f a w'))
      → Reaches R ((m >>= f) w)
  unfolding ◌>>=◌
  Reaches-bind {Q} m f w hm hf =
      let second : Reaches R (f hm.value hm.after) = hf hm.value hm.after hm.holds_of in
      record {
        value = second.value;
        after = second.after;
        returned = rw hm.returned second.returned;
        holds_of = second.holds_of;
      }

  -- A call that leaves the object and the files alone, and what follows it.
  pub Reaches-then :
      {P : A → Type 0} (m : M S A) (f : A → M S B) (w : World S)
      → Answers P m
      → ((a : A) (w' : World S) → P a → w'.obj ≡ w.obj → w'.disk ≡ w.disk → Reaches R (f a w'))
      → Reaches R ((m >>= f) w)
  Reaches-then {P} m f w hm hf =
      Reaches-bind m f w
        (Reaches-of_Answers {Q = λ a w'. P a × (w'.obj ≡ w.obj) × (w'.disk ≡ w.disk)} m w hm
          λ a w' h o d. (h, o, d))
        λ a w' h. hf a w' h.0 h.1 h.2

  pub Reaches-then_gets :
      (g : S → A) (f : A → M S B) (w : World S)
      → Reaches R (f (g w.obj) w)
      → Reaches R ((gets g >>= f) w)
  unfolding ◌>>=◌
  Reaches-then_gets g f w h = h

module _ {S B : Type 0} {R : B → World S → Type 0} where
  pub Reaches-then_modify :
      (g : S → S) (f : Unit {0} → M S B) (w : World S)
      → Reaches R (f tt (record w { obj = g w.obj }))
      → Reaches R ((modify g >>= f) w)
  unfolding ◌>>=◌
  Reaches-then_modify g f w h = h

pub Reaches-modify :
    {S : Type 0} {Q : Unit {0} → World S → Type 0} (g : S → S) (w : World S)
    → Q tt (record w { obj = g w.obj })
    → Reaches Q (modify g w)
unfolding modify
Reaches-modify g w h = record { value = tt; after = _; returned = refl; holds_of = h }

module _ {S T A : Type 0} {R : A → World S → Type 0} where
  pub Reaches-zoom :
      (get : S → T) (put : T → S → S) (m : M T A) (w : World S)
      → Reaches
          (λ a v. R a (record { machine = v.machine; obj = put v.obj w.obj }))
          (m (record { machine = w.machine; obj = get w.obj }))
      → Reaches R (zoom get put m w)
  unfolding zoom
  Reaches-zoom get put m w h = record {
    value = h.value;
    after = record { machine = h.after.machine; obj = put h.after.obj w.obj };
    returned = rw h.returned refl;
    holds_of = h.holds_of;
  }

abbrev pub at : {S : Type 0} → Machine → S → World S
at machine obj = record { machine = machine; obj = obj }

module _ {S A : Type 0} where
  pub Reaches-try_catch :
      {Q : A → World S → Type 0} (m : M S A) (handler : String → A) (w : World S)
      → Reaches Q (m w)
      → Reaches Q (try_catch m handler w)
  unfolding try_catch
  Reaches-try_catch m handler w h = record {
    value = h.value;
    after = h.after;
    returned = rw h.returned refl;
    holds_of = h.holds_of;
  }

  -- A destructor leaves the object as it is.
  pub Reaches-scoped :
      (R : A → S → Type 0) (d : M S Unit) (m : M S A) (w : World S)
      → Answers (λ _. Unit {0}) d
      → Reaches (λ a v. R a v.obj) (m w)
      → Reaches (λ a v. R a v.obj) (scoped d m w)
  unfolding scoped ◌>>=◌ pure
  Reaches-scoped R d m w hd hm =
      let done : Answered (λ _. Unit {0}) hm.after (d hm.after) = hd.at hm.after in
      record {
        value = hm.value;
        after = done.after;
        returned = rw (hm.returned, done.returned) refl;
        holds_of = rw done.same_obj hm.holds_of;
      }

module _ {S A B : Type 0} {R : B → World S → Type 0} where
  -- A call that leaves the object alone, from a state whose object is known.
  pub Reaches-then_at :
      {P : A → Type 0} (m : M S A) (f : A → M S B) (machine : Machine) (obj : S)
      → Answers P m
      → ((a : A) → P a → (machine' : Machine) → Reaches R (f a (at machine' obj)))
      → Reaches R ((m >>= f) (at machine obj))
  Reaches-then_at m f machine obj hm hf =
      Reaches-then m f (at machine obj) hm
        λ a v h same _. subst (λ o. Reaches R (f a (at v.machine o))) (sym same) (hf a h v.machine)

module _ {S T A B : Type 0} {R : B → World S → Type 0} where
  -- A call on a part of the object, and what follows it.
  pub Reaches-then_zoom :
      {Q : A → World T → Type 0} (get : S → T) (put : T → S → S) (m : M T A) (f : A → M S B)
      (machine : Machine) (obj : S)
      → Reaches Q (m (at machine (get obj)))
      → ((a : A) (v : World T) → Q a v → Reaches R (f a (at v.machine (put v.obj obj))))
      → Reaches R ((zoom get put m >>= f) (at machine obj))
  Reaches-then_zoom {Q} get put m f machine obj hm hf =
      Reaches-bind {Q = λ a w'. (v : World T) × (Q a v) × (w' ≡ at v.machine (put v.obj obj))} _ f _
        (Reaches-zoom get put m _ (Reaches-weaken _ hm λ a v h. (v, h, refl)))
        λ a w' (v, h, same). subst (λ x. Reaches R (f a x)) (sym same) (hf a v h)

  -- The same for a call whose outcome is known.
  pub Reaches-then_zoomed :
      (get : S → T) (put : T → S → S) (m : M T A) (f : A → M S B) (machine machine' : Machine)
      (obj : S) (part : T) (a : A)
      → m (at machine (get obj)) ≡ (ok a, at machine' part)
      → Reaches R (f a (at machine' (put part obj)))
      → Reaches R ((zoom get put m >>= f) (at machine obj))
  unfolding zoom ◌>>=◌
  Reaches-then_zoomed get put m f machine machine' obj part a e h = rw e h
