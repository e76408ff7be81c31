-- ===== src/Exec/Hangs.antt =====
-- Calls that never return: a wait that nothing ends holds up everything that comes after it.
use pqc_messaging_app.Prelude.{String, ◌≡◌, refl, arith}
use pqc_messaging_app.Exec.{
  Result, ok, err, hang, World, M, continue, ◌>>=◌, caught, try_catch, destroy, scoped, zoom,
}
use pqc_messaging_app.Exec.Reaches.{Reaches, at}

abbrev pub Hangs : {S A : Type 0} → Result A × World S → Type 0
Hangs r = r.0 ≡ hang

module _ {S A B : Type 0} where
  pub continue-Hangs : (r : Result A × World S) (f : A → M S B) → Hangs r → Hangs (continue r f)
  continue-Hangs (ok a, w) f h = ground arith
  continue-Hangs (err e, w) f h = ground arith
  continue-Hangs (hang, w) f h = refl

  pub Hangs-first : (m : M S A) (f : A → M S B) (w : World S) → Hangs (m w) → Hangs ((m >>= f) w)
  unfolding ◌>>=◌
  Hangs-first m f w h = continue-Hangs (m w) f h

  pub Hangs-bind :
      {Q : A → World S → Type 0} (m : M S A) (f : A → M S B) (w : World S)
      → Reaches Q (m w)
      → ((a : A) (w' : World S) → Q a w' → Hangs (f a w'))
      → Hangs ((m >>= f) w)
  unfolding ◌>>=◌
  Hangs-bind {Q} m f w hm hf = rw hm.returned (hf hm.value hm.after hm.holds_of)

module _ {S A : Type 0} where
  caught-Hangs :
      (handler : String → A) (r : Result A × World S) → Hangs r → Hangs (caught handler r)
  caught-Hangs handler (ok a, w) h = ground arith
  caught-Hangs handler (err e, w) h = ground arith
  caught-Hangs handler (hang, w) h = refl

  pub Hangs-try_catch :
      (m : M S A) (handler : String → A) (w : World S) → Hangs (m w) → Hangs (try_catch m handler w)
  unfolding try_catch
  Hangs-try_catch m handler w h = caught-Hangs handler (m w) h

  destroy-Hangs : (d : M S Unit) (r : Result A × World S) → Hangs r → Hangs (destroy d r)
  destroy-Hangs d (ok a, w) h = ground arith
  destroy-Hangs d (err e, w) h = ground arith
  destroy-Hangs d (hang, w) h = refl

  pub Hangs-scoped : (d : M S Unit) (m : M S A) (w : World S) → Hangs (m w) → Hangs (scoped d m w)
  unfolding scoped
  Hangs-scoped d m w h = destroy-Hangs d (m w) h

pub Hangs-zoom :
    {S T A : Type 0} (get : S → T) (put : T → S → S) (m : M T A) (w : World S)
    → Hangs (m (at w.machine (get w.obj)))
    → Hangs (zoom get put m w)
unfolding zoom
Hangs-zoom get put m w h = h
