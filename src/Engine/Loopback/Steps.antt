-- ===== src/Engine/Loopback/Steps.antt =====
-- The steps of a handshake from a known state.
use pqc_messaging_app.Prelude.{
  ◌≡◌, refl, String, Bool, true, false, Option, some, List, [], ◌∷◌, Bytes,
}
use pqc_messaging_app.Exec.{ok, Machine, World, M, zoom, ◌>>=◌}
use pqc_messaging_app.Exec.Reaches.{Reaches, Reaches-then_zoomed, at}
use pqc_messaging_app.Identity.{throw_if, or_throw}
use pqc_messaging_app.Engine.{ConnectionEngine}
use pqc_messaging_app.Engine.Handshake.{Conn, on_net}
use pqc_messaging_app.Engine.Loopback.{send_to, recv_from, on_c2s, on_s2c}
use pqc_messaging_app.Engine.Loopback.Laws.{wire, conn}

module _ {T A B : Type 0} {R : B → World (Conn T) → Type 0} where
  pub then_net :
      (m : M T A) (f : A → M (Conn T) B) (machine machine' : Machine) (engine : ConnectionEngine)
      (net net' : T) (a : A)
      → m (at machine net) ≡ (ok a, at machine' net')
      → Reaches R (f a (at machine' (conn engine net')))
      → Reaches R ((on_net m >>= f) (at machine (conn engine net)))
  then_net m f machine machine' engine net net' a e h =
      Reaches-then_zoomed _ _ m f machine machine' _ net' a e h

module _ {S A B : Type 0} {R : B → World S → Type 0} where
  pub then_or_throw :
      (o : Option A) (e : String) (f : A → M S B) (a : A) (machine : Machine) (obj : S)
      → o ≡ some a
      → Reaches R (f a (at machine obj))
      → Reaches R ((or_throw o e >>= f) (at machine obj))
  unfolding or_throw ◌>>=◌
  then_or_throw o e f a machine obj same h = rw same h

module _ {S B : Type 0} {R : B → World S → Type 0} where
  pub then_throw_if :
      (test : Bool) (e : String) (f : Unit → M S B) (machine : Machine) (obj : S)
      → test ≡ false
      → Reaches R (f tt (at machine obj))
      → Reaches R ((throw_if test e >>= f) (at machine obj))
  unfolding throw_if ◌>>=◌
  then_throw_if test e f machine obj same h = rw same h

-- The queues' operations, on open channels.
pub s2c-send_to :
    (machine : Machine) (frame : Bytes) (c2s : List Bytes)
    → on_s2c (send_to frame) (at machine (wire c2s []))
      ≡ (ok true, at machine (wire c2s (frame ∷ [])))
unfolding zoom send_to
s2c-send_to machine frame c2s = refl

pub c2s-recv_from :
    (machine : Machine) (frame : Bytes)
    → on_c2s recv_from (at machine (wire (frame ∷ []) []))
      ≡ (ok (some frame), at machine (wire [] []))
unfolding zoom recv_from
c2s-recv_from machine frame = refl
