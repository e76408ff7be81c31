-- ===== src/Engine/Loopback/Agreement.antt =====
-- connection_engine.cpp: two honest engines end a handshake with one key, each with the fingerprint
-- of the other.
use pqc_messaging_app.Prelude.{
  ℕ, ◌+◌, ◌≡◌, refl, ap, sym, subst, ◌∙◌, true, not, Option, some, [], ◌∷◌, Bytes, length,
}
use pqc_messaging_app.Exec.{ok, Machine, M, pure, zoom, ◌>>=◌, ◌>>◌}
use pqc_messaging_app.Exec.Reaches.{
  Reaches, Reaches-pure, Reaches-bind, Reaches-then_gets, Reaches-then_modify, Reaches-try_catch,
  Reaches-scoped, Reaches-then_at, Reaches-then_zoom, at,
}
use pqc_messaging_app.Platform.{Platform}
use pqc_messaging_app.Platform.Laws.{Healthy}
use pqc_messaging_app.Protobuf.{HandshakeHello, HandshakeResponse, Protobuf, ProtobufLaws, Small}
use pqc_messaging_app.Hkdf.Release.{session_key, hkdf_sha256-Answers}
use pqc_messaging_app.Hkdf.{hkdf_sha256, hkdf_salt, hkdf_info}
use pqc_messaging_app.Kem.{decapsulate}
use pqc_messaging_app.Kem.Laws.{init-Answers, keypair-Answers, decapsulate-Answers}
use pqc_messaging_app.Kem.Kept.{Answers-destructor}
use pqc_messaging_app.Session.{set_key}
use pqc_messaging_app.Identity.{throw_if, or_throw, verify, fingerprint_hex}
use pqc_messaging_app.Identity.Keys.{sign-Answers, verify-Answers}
use pqc_messaging_app.Engine.{version, ConnectionEngine, Outcome, success, failure}
use pqc_messaging_app.Engine.Handshake.{
  Conn, with_engine, establish, concat, server_context, client_exchange, client_handshake_internal,
  run_client_handshake, on_net,
}
use pqc_messaging_app.Engine.Handshake.Authentic.{ready}
use pqc_messaging_app.Engine.Loopback.{
  Wire, send_to, recv_from, on_s2c, client_send, client_recv, loopback,
}
use pqc_messaging_app.Engine.Loopback.Laws.{
  HandshakeLaws, generated, wire, conn, unkeyed, Greeted, Received, Agreed,
}
use pqc_messaging_app.Engine.Loopback.Steps.{then_net, then_or_throw, then_throw_if}
use pqc_messaging_app.Engine.Loopback.Server.{verified, taken, server_thread-Reaches}

module _ ⦃p : Platform⦄ ⦃g : Protobuf⦄ (healthy : Healthy p) (laws : HandshakeLaws)
    (proto : ProtobufLaws) where
  s2c-recv_from :
      (machine : Machine) (frame : Bytes) (e : ConnectionEngine)
      → on_net (on_s2c recv_from) (at machine (conn e (wire [] (frame ∷ []))))
        ≡ (ok (some frame), at machine (conn e (wire [] [])))
  unfolding zoom recv_from
  s2c-recv_from machine frame e = refl

  client_recv-Reaches :
      (e : ConnectionEngine) (i s c : ℕ) (hello : HandshakeHello) (frame : Bytes)
      (machine : Machine)
      → e.identity ≡ generated s
      → g.parse_hello frame ≡ some hello
      → Greeted i c hello
      → Reaches
          (λ got v. Received (unkeyed e (generated s)) hello.kem_public_key s got v.obj)
          (client_recv (at machine (conn e (wire (frame ∷ []) []))))
  unfolding client_recv
  client_recv-Reaches e i s c hello frame machine own parsed greeted =
      Reaches-bind _ _ _
        (server_thread-Reaches healthy laws proto e i s c hello frame machine own parsed greeted)
        λ outcome v (j, answer, resp, ended, obj_is, parsed, ct_is, pub_is, sig_is).
          subst
            (λ o.
              Reaches (λ got v. Received (unkeyed e (generated s)) hello.kem_public_key s got v.obj)
                (on_net (on_s2c recv_from) (at v.machine o)))
            (sym obj_is)
            (record {
              value = some answer;
              after = at v.machine (conn _ (wire [] []));
              returned = s2c-recv_from v.machine answer _;
              holds_of = (j, answer, resp, refl, refl, parsed, ct_is, pub_is, sig_is);
            })

  client_send-one :
      (e : ConnectionEngine) (machine : Machine) (frame : Bytes)
      → client_send frame (at machine (conn e (wire [] [])))
        ≡ (ok true, at machine (conn e (wire (frame ∷ []) [])))
  unfolding client_send zoom send_to
  client_send-one e machine frame = refl

  module _ (a b : ConnectionEngine) (c s : ℕ) (server_own : b.identity ≡ generated s) where
    Small-hello :
        (i : ℕ) (pk sig msg : Bytes)
        → pk ≡ (p.kem_keypair i).0
        → sig ≡ p.ed25519_sign (p.ed25519_keygen c).1 msg
        → Small (length pk + length (p.ed25519_keygen c).0 + length sig)
    Small-hello i pk sig msg pk_is sig_is =
        rw (pk_is, laws.kem.length_pk i, sig_is) (laws.small_hello c msg)

    shared :
        (i j : ℕ) (pk sk ct : Bytes)
        → pk ≡ (p.kem_keypair i).0
        → sk ≡ (p.kem_keypair i).1
        → ct ≡ (p.kem_encaps j pk).0
        → p.kem_decaps ct sk ≡ (p.kem_encaps j pk).1
    shared i j pk sk ct pk_is sk_is ct_is = rw (ct_is, sk_is, pk_is) (laws.kem.agree i j)

    -- The client from the server's answer on.
    abbrev client_rest : ℕ → Bytes → Bytes → Option Bytes → M (Conn (Conn Wire)) (Outcome Bytes)
    client_rest h pk sk got = do
      frame ← or_throw got "Failed to receive HandshakeResponse"
      resp ← or_throw (g.parse_response frame) "Failed to parse HandshakeResponse"
      valid ←
          verify resp.identity_pub (concat server_context resp.kem_ciphertext pk) resp.identity_sig
      throw_if (not valid) "Server signature verification failed"
      ss ← decapsulate (some h) resp.kem_ciphertext sk
      key ← hkdf_sha256 ss hkdf_salt hkdf_info 32
      establish key
      pure (success (fingerprint_hex resp.identity_pub))

    client_finish :
        (i j h : ℕ) (pk sk : Bytes) (got : Option Bytes) (answer : Bytes) (resp : HandshakeResponse)
        (machine : Machine) (server : Conn Wire)
        → pk ≡ (p.kem_keypair i).0
        → sk ≡ (p.kem_keypair i).1
        → got ≡ some answer
        → server
          ≡ conn (ready (unkeyed b (generated s)) (session_key (p.kem_encaps j pk).1)) (wire [] [])
        → g.parse_response answer ≡ some resp
        → resp.kem_ciphertext ≡ (p.kem_encaps j pk).0
        → resp.identity_pub ≡ (p.ed25519_keygen s).0
        → resp.identity_sig
          ≡ p.ed25519_sign (p.ed25519_keygen s).1 (concat server_context (p.kem_encaps j pk).0 pk)
        → Reaches
            (λ o v. Agreed a b c s o v.obj)
            (client_rest h pk sk got (at machine (conn (unkeyed a (generated c)) server)))
    unfolding establish with_engine set_key
    client_finish i j h pk sk got answer resp machine server pk_is sk_is got_is obj_is parsed ct_is
          pub_is sig_is =
        then_or_throw _ _ _ answer _ _ got_is (
          then_or_throw _ _ _ resp _ _ parsed (
            Reaches-then_at _ _ _ _
              (verify-Answers healthy resp.identity_pub _ resp.identity_sig
                (taken healthy laws proto s _ pub_is))
              λ fits fits_is m1.
                then_throw_if _ _ _ _ _
                  (ap not (
                    fits_is
                    ∙ verified healthy laws proto s _ _ _ pub_is (
                        sig_is
                        ∙ ap
                            (λ ct.
                              p.ed25519_sign (p.ed25519_keygen s).1 (concat server_context ct pk))
                            (sym ct_is))))
                  (Reaches-then_at _ _ _ _
                    (decapsulate-Answers healthy h resp.kem_ciphertext sk
                      (ap (λ (x : Bytes). length x) ct_is ∙ laws.kem.length_ct j pk)
                      (ap (λ (x : Bytes). length x) sk_is ∙ laws.kem.length_sk i))
                    λ ss ss_is m2.
                      Reaches-then_at _ _ _ _
                        (hkdf_sha256-Answers healthy ss (laws.length_derived ss))
                        λ key key_is m3.
                          let same : key ≡ session_key (p.kem_encaps j pk).1 =
                            key_is
                            ∙ ap session_key (ss_is ∙ shared i j pk sk _ pk_is sk_is ct_is) in
                          Reaches-then_modify _ _ _ (
                            Reaches-pure _ _ (
                              session_key (p.kem_encaps j pk).1,
                              laws.length_derived _,
                              ap (λ k. success (fingerprint_hex k)) pub_is,
                              λ i. conn (ready (unkeyed a (generated c)) (same i)) (obj_is i),
                            )))))

    client_exchange-Reaches :
        (h : ℕ) (machine : Machine)
        → Reaches
            (λ o v. Agreed a b c s o v.obj)
            (client_exchange client_send client_recv
              (some h)
              (at machine (conn (unkeyed a (generated c)) (conn b (wire [] [])))))
    unfolding client_exchange establish with_engine set_key
    client_exchange-Reaches h machine =
        Reaches-then_at _ _ _ _ (keypair-Answers healthy h) λ (pk, sk) (i, keys) m1.
          let pk_is : pk ≡ (p.kem_keypair i).0 = ap (λ ((x, y) : Bytes × Bytes). x) keys in
          let sk_is : sk ≡ (p.kem_keypair i).1 = ap (λ ((x, y) : Bytes × Bytes). y) keys in
          Reaches-then_gets _ _ _ (
            Reaches-then_at _ _ _ _ (sign-Answers healthy _ _ (laws.takes_private c))
              λ sig sig_is m2.
                let hello : HandshakeHello = record {
                  kem_public_key = pk;
                  version = version;
                  identity_pub = (p.ed25519_keygen c).0;
                  identity_sig = sig;
                } in
                let (frame, written, parsed) =
                  proto.hello hello (Small-hello i pk sig _ pk_is sig_is) in
                then_or_throw _ _ _ frame _ _ written (
                  then_net (client_send frame) _ m2 m2 _ _ _ true (client_send-one b m2 frame) (
                    then_throw_if _ _ _ _ _ refl (
                      Reaches-then_zoom _ _ client_recv _ m2 _
                        (client_recv-Reaches b i s c hello frame m2 server_own parsed
                          (pk_is, refl, sig_is))
                        λ got v
                            (j, answer, resp, got_is, obj_is, resp_parsed, ct_is, pub_is, resp_sig).
                          client_finish i j h pk sk got answer resp v.machine v.obj pk_is sk_is
                            got_is obj_is resp_parsed ct_is pub_is resp_sig))))

    -- Where no foreign call is refused, `HandshakeLaws` and `ProtobufLaws` hold, both
    -- engines have identities of generated key pairs, and the two channels are open and
    -- empty, the client's handshake, with the server's thread run while the client waits,
    -- returns the fingerprint of the server's key and leaves both engines ready with one
    -- session key of 32 bytes and both channels empty.
    pub loopback-Agreed :
        (machine : Machine)
        → a.identity ≡ generated c
        → Reaches
            (λ o v. Agreed a b c s o v.obj)
            (loopback (at machine (conn a (conn b (wire [] [])))))
    unfolding loopback run_client_handshake client_handshake_internal with_engine
    loopback-Agreed machine own = Reaches-then_modify _ _ _ (
        subst
          (λ identity.
            Reaches (λ o v. Agreed a b c s o v.obj)
              (client_handshake_internal client_send client_recv
                (at machine (conn (unkeyed a identity) (conn b (wire [] []))))))
          (sym own)
          (Reaches-then_gets _ _ _ (
            rw (laws.loaded c) (
              Reaches-try_catch _ failure _ (
                Reaches-then_at _ _ _ _ (init-Answers healthy) λ kem (h, kem_is) m1. rw kem_is (
                  Reaches-scoped (λ o v. Agreed a b c s o v) _ _ _ (Answers-destructor (some h))
                    (client_exchange-Reaches h m1)))))))
