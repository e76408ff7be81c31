-- ===== src/Engine/Handshake/Authentic.antt =====
-- connection_engine.cpp: what a handshake guarantees against any transport and any refusal of a
-- foreign call.
use pqc_messaging_app.Prelude.{
  ℕ, ◌≡◌, ◌++◌, refl, ap, sym, ◌∙◌, Bool, true, false, not, Option, some, [], Bytes, length, arith,
}
use pqc_messaging_app.Exec.{World, M, pure, gets, ◌>>=◌, ◌>>◌}
use pqc_messaging_app.Exec.Runs.{
  Ended, Runs, Keeps, Keeps-gets, Runs-pure, Runs-if, Runs-bind, Runs-scoped, Runs-try_catch,
  Keeps-zoom,
}
use pqc_messaging_app.Platform.{Platform}
use pqc_messaging_app.Protobuf.{HandshakeHello, HandshakeResponse, Protobuf}
use pqc_messaging_app.Hkdf.Release.{session_key}
use pqc_messaging_app.Hkdf.Kept.{Keeps-hkdf_sha256}
use pqc_messaging_app.Kem.{KyberKem}
use pqc_messaging_app.Kem.Kept.{
  Answers-destructor, Keeps-init, Keeps-keypair, Keeps-encapsulate, Keeps-decapsulate,
}
use pqc_messaging_app.Session.{set_key}
use pqc_messaging_app.Identity.{fingerprint_hex}
use pqc_messaging_app.Identity.Kept.{Keeps-throw_if, Keeps-or_throw, Keeps-verify, Keeps-sign}
use pqc_messaging_app.Engine.{ConnectionEngine, Outcome, success, failure}
use pqc_messaging_app.Engine.Handshake.{
  Conn, with_engine, establish, concat, client_context, server_context, client_exchange,
  client_handshake_internal, server_reply, server_exchange, server_handshake_internal,
  run_client_handshake, run_server_handshake, on_net,
}

-- The engine without a session: what a handshake starts from.
abbrev pub unready : ConnectionEngine → ConnectionEngine
unready e = record e { session_ready = false }

abbrev pub ready : ConnectionEngine → Bytes → ConnectionEngine
ready e key = record e { session = record { key = key }; session_ready = true }

module _ ⦃p : Platform⦄ ⦃g : Protobuf⦄ where
  -- A successful client has a response whose signature over its own fresh public key `pk`
  -- and the ciphertext verifies under the peer's key, and the session key comes from decapsulating just
  -- that ciphertext.
  pub record ClientProof (e e' : ConnectionEngine) (fingerprint : Bytes) : Type 0 where
    pub pk : Bytes
    pub sk : Bytes
    pub call : ℕ
    pub frame : Bytes
    pub resp : HandshakeResponse
    pub drawn : (pk, sk) ≡ p.kem_keypair call
    pub parsed : g.parse_response frame ≡ some resp
    pub key_taken : p.takes_public_key resp.identity_pub ≡ true
    pub signed :
        p.ed25519_verify resp.identity_pub
          (server_context ++ (resp.kem_ciphertext ++ pk))
          resp.identity_sig
        ≡ true
    pub peer : fingerprint ≡ fingerprint_hex resp.identity_pub
    pub engine : e' ≡ ready e (session_key (p.kem_decaps resp.kem_ciphertext sk))
    pub key_size : length (session_key (p.kem_decaps resp.kem_ciphertext sk)) ≡ 32

  -- A successful server has a hello whose signature over the client's KEM key verifies, and the
  -- session key comes from an encapsulation to that KEM key.
  pub record ServerProof (e e' : ConnectionEngine) (fingerprint : Bytes) : Type 0 where
    pub frame : Bytes
    pub hello : HandshakeHello
    pub call : ℕ
    pub parsed : g.parse_hello frame ≡ some hello
    pub key_taken : p.takes_public_key hello.identity_pub ≡ true
    pub signed :
        p.ed25519_verify hello.identity_pub
          (client_context ++ (hello.kem_public_key ++ []))
          hello.identity_sig
        ≡ true
    pub peer : fingerprint ≡ fingerprint_hex hello.identity_pub
    pub engine : e' ≡ ready e (session_key (p.kem_encaps call hello.kem_public_key).1)
    pub key_size : length (session_key (p.kem_encaps call hello.kem_public_key).1) ≡ 32

  abbrev pub ClientEnd : ConnectionEngine → Outcome Bytes → ConnectionEngine → Type 0
  ClientEnd e (success fingerprint) e' = ClientProof e e' fingerprint
  ClientEnd e (failure message) e' = e' ≡ e

  abbrev pub ServerEnd : ConnectionEngine → Outcome Bytes → ConnectionEngine → Type 0
  ServerEnd e (success fingerprint) e' = ServerProof e e' fingerprint
  ServerEnd e (failure message) e' = e' ≡ e

  module _ {T : Type 0} (send : Bytes → M T Bool) (recv : M T (Option Bytes))
      (e : ConnectionEngine) where
    abbrev Same : Conn T → Type 0
    Same c = c.engine ≡ e

    Keeps-on_net : {A : Type 0} (m : M T A) → Keeps Same (λ _. Unit {0}) (on_net m)
    Keeps-on_net m = Keeps-zoom _ _ m λ s t same. same

    Keeps-engine : {A : Type 0} (f : Conn T → A) → Keeps Same (λ _. Unit {0}) (gets f)
    Keeps-engine f = Keeps-gets f λ _ _. tt

    Runs-establish :
        (key : Bytes) (o : Outcome Bytes) {Q : Outcome Bytes → Conn T → Type 0}
        → ((c : Conn T) → c.engine ≡ ready e key → Q o c)
        → Runs Same Q (establish {T = T} key >> pure o)
    unfolding establish ◌>>=◌ set_key with_engine
    Runs-establish key o h = record {
      at = λ w same.
          h
            (with_engine (λ e. record e { session = set_key e.session key; session_ready = true })
              w.obj)
            (λ i. ready (same i) key);
    }

    accepted_iff : {valid : Bool} → not valid ≡ false → valid ≡ true
    accepted_iff h = ground arith

    client_exchange-Runs :
        (kem : KyberKem) → Runs Same (λ o c. ClientEnd e o c.engine) (client_exchange send recv kem)
    unfolding client_exchange concat
    client_exchange-Runs kem = Runs-bind _ _ _ (Keeps-keypair kem) λ (pk, sk) (call, drawn).
        Runs-bind _ _ _ (Keeps-engine _) λ identity _. Runs-bind _ _ _ (Keeps-sign _ _) λ sig _.
          Runs-bind _ _ _ (Keeps-or_throw _ _) λ hello _.
            Runs-bind _ _ _ (Keeps-on_net (send hello)) λ sent _.
              Runs-bind _ _ _ (Keeps-throw_if _ _) λ _ _.
                Runs-bind _ _ _ (Keeps-on_net recv) λ received _.
                  Runs-bind _ _ _ (Keeps-or_throw _ _) λ frame _.
                    Runs-bind _ _ _ (Keeps-or_throw _ _) λ resp parsed.
                      Runs-bind _ _ _ (Keeps-verify _ _ _) λ valid sound.
                        Runs-bind _ _ _ (Keeps-throw_if _ _) λ _ accepted.
                          Runs-bind _ _ _ (Keeps-decapsulate kem _ _) λ ss from_ct.
                            Runs-bind _ _ _ (Keeps-hkdf_sha256 ss) λ key derived.
                              Runs-establish key _ λ c at_end.
                                let key_is : key
                                    ≡ session_key (p.kem_decaps resp.kem_ciphertext sk) =
                                  derived.0 ∙ ap session_key from_ct in
                                record {
                                  pk = pk;
                                  sk = sk;
                                  call = call;
                                  frame = frame;
                                  resp = resp;
                                  drawn = drawn;
                                  parsed = parsed;
                                  key_taken = (sound (accepted_iff accepted)).0;
                                  signed = (sound (accepted_iff accepted)).1;
                                  peer = refl;
                                  engine = at_end ∙ ap (ready e) key_is;
                                  key_size = sym (ap length key_is) ∙ derived.1;
                                }

    client_handshake_internal-Runs :
        Runs Same (λ o c. ClientEnd e o c.engine) (client_handshake_internal send recv)
    unfolding client_handshake_internal
    client_handshake_internal-Runs = Runs-bind _ _ _ (Keeps-engine _) λ loaded _.
        Runs-if (not loaded) _ _ (λ _. Runs-pure _ λ c same. same)
          λ _.
            Runs-try_catch _ failure
              (Runs-bind _ _ _ Keeps-init
                λ kem _. Runs-scoped _ _ (Answers-destructor kem) (client_exchange-Runs kem))
              λ message c same. same

    server_reply-Runs :
        (frame : Bytes) (hello : HandshakeHello) (kem : KyberKem)
        → g.parse_hello frame ≡ some hello
        → p.takes_public_key hello.identity_pub ≡ true
        → p.ed25519_verify hello.identity_pub
            (client_context ++ (hello.kem_public_key ++ []))
            hello.identity_sig
          ≡ true
        → Runs Same (λ o c. ServerEnd e o c.engine) (server_reply send recv hello kem)
    unfolding server_reply
    server_reply-Runs frame hello kem parsed taken signed =
        Runs-bind _ _ _ (Keeps-encapsulate kem _) λ (ct, ss) (call, drawn).
          Runs-bind _ _ _ (Keeps-engine _) λ identity _. Runs-bind _ _ _ (Keeps-sign _ _) λ sig _.
            Runs-bind _ _ _ (Keeps-or_throw _ _) λ resp _.
              Runs-bind _ _ _ (Keeps-on_net (send resp)) λ sent _.
                Runs-bind _ _ _ (Keeps-throw_if _ _) λ _ _.
                  Runs-bind _ _ _ (Keeps-hkdf_sha256 ss) λ key derived.
                    Runs-establish key _ λ c at_end.
                      let key_is : key ≡ session_key (p.kem_encaps call hello.kem_public_key).1 =
                        derived.0 ∙ ap session_key (ap (λ ((c, s) : Bytes × Bytes). s) drawn) in
                      record {
                        frame = frame;
                        hello = hello;
                        call = call;
                        parsed = parsed;
                        key_taken = taken;
                        signed = signed;
                        peer = refl;
                        engine = at_end ∙ ap (ready e) key_is;
                        key_size = sym (ap length key_is) ∙ derived.1;
                      }

    server_exchange-Runs : Runs Same (λ o c. ServerEnd e o c.engine) (server_exchange send recv)
    unfolding server_exchange concat
    server_exchange-Runs = Runs-bind _ _ _ (Keeps-on_net recv) λ received _.
        Runs-bind _ _ _ (Keeps-or_throw _ _) λ frame _.
          Runs-bind _ _ _ (Keeps-or_throw _ _) λ hello parsed.
            Runs-bind _ _ _ (Keeps-verify _ _ _) λ valid sound.
              Runs-bind _ _ _ (Keeps-throw_if _ _) λ _ accepted.
                let (taken, signed) = sound (accepted_iff accepted) in
                Runs-bind _ _ _ Keeps-init λ kem _.
                  Runs-scoped _ _ (Answers-destructor kem)
                    (server_reply-Runs frame hello kem parsed taken signed)

    server_handshake_internal-Runs :
        Runs Same (λ o c. ServerEnd e o c.engine) (server_handshake_internal send recv)
    unfolding server_handshake_internal
    server_handshake_internal-Runs = Runs-bind _ _ _ (Keeps-engine _) λ loaded _.
        Runs-if (not loaded) _ _ (λ _. Runs-pure _ λ c same. same)
          λ _. Runs-try_catch _ failure server_exchange-Runs λ message c same. same

  module _ {T : Type 0} (send : Bytes → M T Bool) (recv : M T (Option Bytes))
      (w : World (Conn T)) where
    -- Whatever the callbacks do and whichever foreign calls are refused, after a client
    -- handshake that fails, throws or waits for ever the engine is the one before with
    -- `session_ready` false. After one that returns a fingerprint there is a response that
    -- parsed from some frame, whose key libcrypto takes and whose signature over the
    -- ciphertext and the public key of a KEM key pair that liboqs generated verifies under
    -- that key; the fingerprint is that key's, and the engine is ready with the 32-byte key
    -- derived from the decapsulation of that ciphertext under the pair's secret key.
    pub run_client_handshake-authentic :
        Ended
          (λ c. c.engine ≡ unready w.obj.engine)
          (λ o c. ClientEnd (unready w.obj.engine) o c.engine)
          (run_client_handshake send recv w)
    unfolding run_client_handshake ◌>>=◌ with_engine
    run_client_handshake-authentic =
        (client_handshake_internal-Runs send recv (unready w.obj.engine)).at _ refl

    -- Whatever the callbacks do and whichever foreign calls are refused, after a server
    -- handshake that fails, throws or waits for ever the engine is the one before with
    -- `session_ready` false. After one that returns a fingerprint there is a hello that
    -- parsed from some frame, whose key libcrypto takes and whose signature over the KEM
    -- public key verifies under that key; the fingerprint is that key's, and the engine is
    -- ready with the 32-byte key derived from the secret of an encapsulation to that KEM
    -- public key.
    pub run_server_handshake-authentic :
        Ended
          (λ c. c.engine ≡ unready w.obj.engine)
          (λ o c. ServerEnd (unready w.obj.engine) o c.engine)
          (run_server_handshake send recv w)
    unfolding run_server_handshake ◌>>=◌ with_engine
    run_server_handshake-authentic =
        (server_handshake_internal-Runs send recv (unready w.obj.engine)).at _ refl
