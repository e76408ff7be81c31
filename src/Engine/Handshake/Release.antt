-- ===== src/Engine/Handshake/Release.antt =====
-- connection_engine.cpp: a handshake gives every handle back, by whichever way it ends.
use pqc_messaging_app.Prelude.{
  ℕ, String, Bool, true, false, not, Option, none, some, List, [], ◌∷◌, Bytes,
}
use pqc_messaging_app.Exec.{M, pure, ◌>>=◌, ◌>>◌}
use pqc_messaging_app.Exec.Owns.{
  Owns, Tidy, Owns-pure, Owns-raise, Owns-gets, Owns-if, Owns-modify, Owns-bind, Owns-scoped,
  Owns-try_catch, Owns-zoom,
}
use pqc_messaging_app.Platform.{Platform}
use pqc_messaging_app.Platform.Calls.{Owns-free, Owns-with_new}
use pqc_messaging_app.Protobuf.{HandshakeHello, Protobuf}
use pqc_messaging_app.Hkdf.Release.{hkdf_sha256-Tidy}
use pqc_messaging_app.Kem.{KyberKem, destructor, init}
use pqc_messaging_app.Kem.Laws.{keypair-Tidy, encapsulate-Tidy, decapsulate-Tidy}
use pqc_messaging_app.Identity.{throw_if, or_throw}
use pqc_messaging_app.Identity.Keys.{sign-Tidy, verify-Tidy}
use pqc_messaging_app.Engine.{Outcome, failure}
use pqc_messaging_app.Engine.Handshake.{
  establish, client_exchange, client_handshake_internal, server_reply, server_exchange,
  server_handshake_internal, run_client_handshake, run_server_handshake,
}

-- The handle of a KEM object.
abbrev handles : KyberKem → List ℕ
handles none = []
handles (some kem) = kem ∷ []

module _ {S : Type 0} where
  throw_if-Tidy : (test : Bool) (e : String) → Tidy {S = S} (throw_if test e)
  unfolding throw_if
  throw_if-Tidy true e = Owns-raise e
  throw_if-Tidy false e = Owns-pure tt

  or_throw-Tidy : {A : Type 0} (o : Option A) (e : String) → Tidy {S = S} (or_throw o e)
  unfolding or_throw
  or_throw-Tidy none e = Owns-raise e
  or_throw-Tidy (some a) e = Owns-pure a

  destructor-Owns : (kem : KyberKem) → Owns {S = S} (handles kem) (λ _. []) [] (destructor kem)
  unfolding destructor
  destructor-Owns none = Owns-pure tt
  destructor-Owns (some kem) = Owns-free kem

module _ {S A B : Type 0} where
  then-Tidy : (m : M S A) (f : A → M S B) → Tidy m → ((a : A) → Tidy (f a)) → Tidy (m >>= f)
  then-Tidy m f hm hf = Owns-bind (λ _. []) m f hm hf

module _ ⦃p : Platform⦄ {S : Type 0} where
  init-Owns : Owns {S = S} [] handles [] init
  unfolding init
  init-Owns = Owns-with_new true _ _ (Owns-raise _) λ kem. Owns-pure (some kem)

module _ ⦃p : Platform⦄ ⦃g : Protobuf⦄ {T : Type 0} (send : Bytes → M T Bool)
    (recv : M T (Option Bytes)) (send-Tidy : (frame : Bytes) → Tidy (send frame))
    (recv-Tidy : Tidy recv) where
  establish-Tidy : (key : Bytes) (o : Outcome Bytes) → Tidy (establish {T = T} key >> pure o)
  unfolding establish
  establish-Tidy key o = then-Tidy _ _ (Owns-modify _) λ _. Owns-pure o

  client_exchange-Tidy : (kem : KyberKem) → Tidy (client_exchange send recv kem)
  unfolding client_exchange
  client_exchange-Tidy kem = then-Tidy _ _ (keypair-Tidy kem) λ keys.
      then-Tidy _ _ (Owns-gets _) λ identity. then-Tidy _ _ (sign-Tidy _ _) λ sig.
        then-Tidy _ _ (or_throw-Tidy _ _) λ hello.
          then-Tidy _ _ (Owns-zoom _ _ (send hello) (send-Tidy hello)) λ sent.
            then-Tidy _ _ (throw_if-Tidy _ _) λ _.
              then-Tidy _ _ (Owns-zoom _ _ recv recv-Tidy) λ received.
                then-Tidy _ _ (or_throw-Tidy _ _) λ frame. then-Tidy _ _ (or_throw-Tidy _ _) λ resp.
                  then-Tidy _ _ (verify-Tidy _ _ _) λ valid. then-Tidy _ _ (throw_if-Tidy _ _) λ _.
                    then-Tidy _ _ (decapsulate-Tidy kem _ _)
                      λ ss. then-Tidy _ _ (hkdf_sha256-Tidy ss _ _ _) λ key. establish-Tidy key _

  client_handshake_internal-Tidy : Tidy (client_handshake_internal send recv)
  unfolding client_handshake_internal
  client_handshake_internal-Tidy = then-Tidy _ _ (Owns-gets _) λ loaded.
      Owns-if (not loaded) _ _ (Owns-pure _) (
        Owns-try_catch _ failure (
          Owns-bind handles _ _ init-Owns
            λ kem. Owns-scoped (handles kem) _ _ (destructor-Owns kem) (client_exchange-Tidy kem)))

  server_reply-Tidy :
      (hello : HandshakeHello) (kem : KyberKem) → Tidy (server_reply send recv hello kem)
  unfolding server_reply
  server_reply-Tidy hello kem = then-Tidy _ _ (encapsulate-Tidy kem _) λ out.
      then-Tidy _ _ (Owns-gets _) λ identity. then-Tidy _ _ (sign-Tidy _ _) λ sig.
        then-Tidy _ _ (or_throw-Tidy _ _) λ resp.
          then-Tidy _ _ (Owns-zoom _ _ (send resp) (send-Tidy resp)) λ sent.
            then-Tidy _ _ (throw_if-Tidy _ _)
              λ _. then-Tidy _ _ (hkdf_sha256-Tidy _ _ _ _) λ key. establish-Tidy key _

  server_exchange-Tidy : Tidy (server_exchange send recv)
  unfolding server_exchange
  server_exchange-Tidy = then-Tidy _ _ (Owns-zoom _ _ recv recv-Tidy) λ received.
      then-Tidy _ _ (or_throw-Tidy _ _) λ frame. then-Tidy _ _ (or_throw-Tidy _ _) λ hello.
        then-Tidy _ _ (verify-Tidy _ _ _) λ valid. then-Tidy _ _ (throw_if-Tidy _ _) λ _.
          Owns-bind handles _ _ init-Owns
            λ kem. Owns-scoped (handles kem) _ _ (destructor-Owns kem) (server_reply-Tidy hello kem)

  server_handshake_internal-Tidy : Tidy (server_handshake_internal send recv)
  unfolding server_handshake_internal
  server_handshake_internal-Tidy = then-Tidy _ _ (Owns-gets _) λ loaded.
      Owns-if (not loaded) _ _ (Owns-pure _) (Owns-try_catch _ failure server_exchange-Tidy)

  -- Whichever foreign calls are refused, a client handshake whose callbacks end with the live
  -- handles they began with, and free none that is not live, does so too.
  pub run_client_handshake-Tidy : Tidy (run_client_handshake send recv)
  unfolding run_client_handshake
  run_client_handshake-Tidy = then-Tidy _ _ (Owns-modify _) λ _. client_handshake_internal-Tidy

  -- Whichever foreign calls are refused, a server handshake whose callbacks end with the live
  -- handles they began with, and free none that is not live, does so too.
  pub run_server_handshake-Tidy : Tidy (run_server_handshake send recv)
  unfolding run_server_handshake
  run_server_handshake-Tidy = then-Tidy _ _ (Owns-modify _) λ _. server_handshake_internal-Tidy
