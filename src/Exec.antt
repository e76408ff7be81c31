-- ===== src/Exec.antt =====
-- How the C++ code is run: a call changes the machine and the object it works on, and returns,
-- throws, or waits for ever.
pub mod Owns
pub mod Answers
pub mod Reaches
pub mod Runs
pub mod Hangs
pub mod Ends
pub mod Hoare
use pqc_messaging_app.Prelude.{
  ℕ, zero, suc, String, Bool, true, false, Option, none, some, List, [], ◌∷◌, Bytes, ◌==◌, ◌||◌,
  if◌then◌else◌,
}

-- A C++ expression's end: a value, a `std::exception` with its `what()`, or a wait that nothing ends.
pub data Result {ℓ} (A : Type ℓ) : Type ℓ where
  ok : A → Result A
  err : String → Result A
  hang : Result A

-- The machine that the calls of foreign code change. `calls` counts them, `next` is the next handle
-- that one gives out, `live` holds the handles not freed yet, and `corrupt` tells that a handle was
-- freed which was not live. `disk` holds the files.
pub record Machine : Type 0 where
  pub calls : ℕ
  pub next : ℕ
  pub live : List ℕ
  pub corrupt : Bool
  pub disk : String → Option Bytes

pub record World (S : Type 0) : Type 0 where
  pub machine : Machine
  pub open machine use *
  pub obj : S

abbrev pub M : Type 0 → Type 0 → Type 0
M S A = World S → Result A × World S

module _ {S A : Type 0} where
  pub pure : A → M S A
  pure a w = (ok a, w)

  -- `throw`, and also `errorOut = e; return false` in a function that catches every exception so.
  pub raise : String → M S A
  raise e w = (err e, w)

  -- A wait on a condition variable that nobody will signal.
  pub wait_for_ever : M S A
  wait_for_ever w = (hang, w)

  pub gets : (S → A) → M S A
  gets f w = (ok (f w.obj), w)

module _ {S : Type 0} where
  pub modify : (S → S) → M S Unit
  modify f w = (ok tt, record w { obj = f w.obj })

module _ {S A B : Type 0} where
  abbrev pub continue : Result A × World S → (A → M S B) → Result B × World S
  continue (ok a, w) f = f a w
  continue (err e, w) f = (err e, w)
  continue (hang, w) f = (hang, w)

  infixl 10 ◌>>=◌ ◌>>◌
  unfoldable pub ◌>>=◌ : M S A → (A → M S B) → M S B
  unfolding pure raise wait_for_ever gets modify
  ◌>>=◌ m f w = continue (m w) f

  abbrev pub ◌>>◌ : M S A → M S B → M S B
  m >> k = m >>= λ _. k

module _ {S A : Type 0} where
  abbrev pub rethrow : M S Unit → Result A × World S → Result A × World S
  rethrow handler (ok a, w) = (ok a, w)
  rethrow handler (err e, w) = (handler >> raise e) w
  rethrow handler (hang, w) = (hang, w)

  -- `try { m } catch (...) { handler; throw; }`
  unfoldable pub try_cleanup : M S A → M S Unit → M S A
  unfolding ◌>>=◌
  try_cleanup m handler w = rethrow handler (m w)

  abbrev pub destroy : M S Unit → Result A × World S → Result A × World S
  destroy d (ok a, w) = (d >>= λ _. pure a) w
  destroy d (err e, w) = (d >> raise e) w
  destroy d (hang, w) = (hang, w)

  -- A local object's destructor runs when its scope is left, by a value or by an exception.
  unfoldable pub scoped : M S Unit → M S A → M S A
  unfolding ◌>>=◌
  scoped d m w = destroy d (m w)

  abbrev pub caught : (String → A) → Result A × World S → Result A × World S
  caught handler (ok a, w) = (ok a, w)
  caught handler (err e, w) = (ok (handler e), w)
  caught handler (hang, w) = (hang, w)

  -- `try { m } catch (const std::exception& ex) { return handler(ex.what()); }`
  unfoldable pub try_catch : M S A → (String → A) → M S A
  try_catch m handler w = caught handler (m w)

-- A call that works on one part of the object.
unfoldable pub zoom : {S T A : Type 0} → (S → T) → (T → S → S) → M T A → M S A
zoom get put m w =
    let (r, w') = m (record { machine = w.machine; obj = get w.obj }) in
    (r, record { machine = w'.machine; obj = put w'.obj w.obj })
