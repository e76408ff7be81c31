-- ===== src/Engine/Loopback/Server.antt =====
-- connection_engine.cpp: the server's side of a handshake with an honest client.
use pqc_messaging_app.Prelude.{
  ℕ, ◌+◌, ◌≡◌, refl, ap, sym, subst, ◌∙◌, true, not, some, [], ◌∷◌, Bytes, length,
}
use pqc_messaging_app.Exec.{Machine}
use pqc_messaging_app.Identity.Kept.{Answers-throw_if, Answers-or_throw}
use pqc_messaging_app.Exec.Reaches.{
  Reaches, Reaches-pure, Reaches-bind, Reaches-then_gets, Reaches-then_modify, Reaches-try_catch,
  Reaches-scoped, Reaches-then_at, at,
}
use pqc_messaging_app.Platform.{Platform}
use pqc_messaging_app.Platform.Laws.{Healthy}
use pqc_messaging_app.Protobuf.{HandshakeHello, HandshakeResponse, Protobuf, ProtobufLaws, Small}
use pqc_messaging_app.Hkdf.Release.{session_key, hkdf_sha256-Answers}
use pqc_messaging_app.Kem.Laws.{init-Answers, encapsulate-Answers}
use pqc_messaging_app.Kem.Kept.{Answers-destructor}
use pqc_messaging_app.Session.{set_key}
use pqc_messaging_app.Identity.Keys.{sign-Answers, verify-Answers}
use pqc_messaging_app.Engine.{version, ConnectionEngine, failure}
use pqc_messaging_app.Engine.Handshake.{
  with_engine, establish, concat, server_context, server_reply, server_exchange,
  server_handshake_internal, run_server_handshake,
}
use pqc_messaging_app.Engine.Handshake.Authentic.{ready}
use pqc_messaging_app.Engine.Loopback.{
  end_thread, send_to, recv_from, on_c2s, on_s2c, server_thread,
}
use pqc_messaging_app.Engine.Loopback.Laws.{
  HandshakeLaws, generated, wire, conn, unkeyed, Answered, Greeted,
}
use pqc_messaging_app.Engine.Loopback.Steps.{
  then_net, then_or_throw, then_throw_if, s2c-send_to, c2s-recv_from,
}

module _ ⦃p : Platform⦄ ⦃g : Protobuf⦄ (healthy : Healthy p) (laws : HandshakeLaws)
    (proto : ProtobufLaws) where
  server_reply-Reaches :
      (e : ConnectionEngine) (i s h : ℕ) (hello : HandshakeHello) (machine : Machine)
      → hello.kem_public_key ≡ (p.kem_keypair i).0
      → Reaches
          (λ o v. Answered (unkeyed e (generated s)) hello s o v.obj)
          (server_reply
            (λ frame. on_s2c (send_to frame))
            (on_c2s recv_from)
            hello
            (some h)
            (at machine (conn (unkeyed e (generated s)) (wire [] []))))
  unfolding server_reply establish with_engine set_key
  server_reply-Reaches e i s h hello machine fresh_key =
      Reaches-then_at _ _ _ _
        (encapsulate-Answers healthy h hello.kem_public_key
          (ap (λ (b : Bytes). length b) fresh_key ∙ laws.kem.length_pk i))
        λ (ct, ss) (j, drawn) m1. Reaches-then_gets _ _ _ (
          Reaches-then_at _ _ _ _ (sign-Answers healthy _ _ (laws.takes_private s)) λ sig sig_is m2.
            let ct_size : length ct ≡ p.length_ciphertext =
              ap (λ ((c, k) : Bytes × Bytes). length c) drawn
              ∙ laws.kem.length_ct j hello.kem_public_key in
            let resp : HandshakeResponse = record {
              kem_ciphertext = ct;
              version = version;
              identity_pub = (p.ed25519_keygen s).0;
              identity_sig = sig;
            } in
            let (frame, written, parsed) = proto.response resp (small ct sig _ ct_size sig_is) in
            Reaches-then_at _ _ _ _ (Answers-or_throw {P = λ f. f ≡ frame} _ _ frame written refl)
              λ f f_is m3. then_net (on_s2c (send_to f)) _ m3 m3 _ _ _ true (s2c-send_to m3 f []) (
                Reaches-then_at _ _ _ _ (Answers-throw_if _ _ refl) λ _ _ m4.
                  Reaches-then_at _ _ _ _ (hkdf_sha256-Answers healthy ss (laws.length_derived ss))
                    λ key key_is m5. Reaches-then_modify _ _ _ (
                      Reaches-pure _ _ (
                        j,
                        f,
                        resp,
                        refl,
                        (λ i.
                            conn
                              (ready (unkeyed e (generated s)) (
                                (key_is ∙ ap session_key (ap (λ ((c, k) : Bytes × Bytes). k) drawn))
                                  i))
                              (wire [] (f ∷ []))),
                        ap g.parse_response f_is ∙ parsed,
                        ap (λ ((c, k) : Bytes × Bytes). c) drawn,
                        refl,
                        sig_is
                            ∙ ap
                                (λ ((c, k) : Bytes × Bytes).
                                  p.ed25519_sign (p.ed25519_keygen s).1
                                    (concat server_context c hello.kem_public_key))
                                drawn,
                      ))))
    where
      small :
          (ct sig msg : Bytes)
          → length ct ≡ p.length_ciphertext
          → sig ≡ p.ed25519_sign (p.ed25519_keygen s).1 msg
          → Small (length ct + length (p.ed25519_keygen s).0 + length sig)
      small ct sig msg ct_size sig_is = rw (ct_size, sig_is) (laws.small_response s msg)

  -- A signature of a generated key pair, as a message carries it, verifies.
  pub verified :
      (h : ℕ) (pub32 msg sig : Bytes)
      → pub32 ≡ (p.ed25519_keygen h).0
      → sig ≡ p.ed25519_sign (p.ed25519_keygen h).1 msg
      → p.ed25519_verify pub32 msg sig ≡ true
  verified h pub32 msg sig pub_is sig_is = rw (pub_is, sig_is) (laws.verifies h msg)

  pub taken :
      (h : ℕ) (pub32 : Bytes) → pub32 ≡ (p.ed25519_keygen h).0 → p.takes_public_key pub32 ≡ true
  taken h pub32 pub_is = rw pub_is (laws.takes_public h)

  server_exchange-Reaches :
      (e : ConnectionEngine) (i s c : ℕ) (hello : HandshakeHello) (frame : Bytes)
      (machine : Machine)
      → g.parse_hello frame ≡ some hello
      → Greeted i c hello
      → Reaches
          (λ o v. Answered (unkeyed e (generated s)) hello s o v.obj)
          (server_exchange
            (λ frame. on_s2c (send_to frame))
            (on_c2s recv_from)
            (at machine (conn (unkeyed e (generated s)) (wire (frame ∷ []) []))))
  unfolding server_exchange
  server_exchange-Reaches e i s c hello frame machine parsed (fresh_key, pub_is, sig_is) =
      then_net (on_c2s recv_from) _ machine machine _ _ _ (some frame) (c2s-recv_from machine frame)
        (then_or_throw _ _ _ frame _ _ refl (
          then_or_throw _ _ _ hello _ _ parsed (
            Reaches-then_at _ _ _ _
              (verify-Answers healthy hello.identity_pub _ hello.identity_sig (taken c _ pub_is))
              λ fits fits_is m1.
                then_throw_if _ _ _ _ _ (ap not (fits_is ∙ verified c _ _ _ pub_is sig_is)) (
                  Reaches-then_at _ _ _ _ (init-Answers healthy) λ kem (h, kem_is) m2. rw kem_is (
                    Reaches-scoped (λ o v. Answered (unkeyed e (generated s)) hello s o v) _ _ _
                      (Answers-destructor (some h))
                      (server_reply-Reaches e i s h hello m2 fresh_key))))))

  run_server_handshake-Reaches :
      (e : ConnectionEngine) (i s c : ℕ) (hello : HandshakeHello) (frame : Bytes)
      (machine : Machine)
      → e.identity ≡ generated s
      → g.parse_hello frame ≡ some hello
      → Greeted i c hello
      → Reaches
          (λ o v. Answered (unkeyed e (generated s)) hello s o v.obj)
          (run_server_handshake
            (λ frame. on_s2c (send_to frame))
            (on_c2s recv_from)
            (at machine (conn e (wire (frame ∷ []) []))))
  unfolding run_server_handshake server_handshake_internal with_engine
  run_server_handshake-Reaches e i s c hello frame machine own parsed greeted =
      Reaches-then_modify _ _ _ (
        subst
          (λ identity.
            Reaches (λ o v. Answered (unkeyed e (generated s)) hello s o v.obj)
              (server_handshake_internal (λ frame. on_s2c (send_to frame)) (on_c2s recv_from)
                (at machine (conn (unkeyed e identity) (wire (frame ∷ []) [])))))
          (sym own)
          (Reaches-then_gets _ _ _ (
            rw (laws.loaded s) (
              Reaches-try_catch _ failure _
                (server_exchange-Reaches e i s c hello frame machine parsed greeted)))))

  pub server_thread-Reaches :
      (e : ConnectionEngine) (i s c : ℕ) (hello : HandshakeHello) (frame : Bytes)
      (machine : Machine)
      → e.identity ≡ generated s
      → g.parse_hello frame ≡ some hello
      → Greeted i c hello
      → Reaches
          (λ o v. Answered (unkeyed e (generated s)) hello s o v.obj)
          (server_thread (at machine (conn e (wire (frame ∷ []) []))))
  unfolding server_thread end_thread
  server_thread-Reaches e i s c hello frame machine own parsed greeted =
      Reaches-bind _ _ _
        (run_server_handshake-Reaches e i s c hello frame machine own parsed greeted)
        λ o v (j, answer, resp, ended, obj_is, parsed_is, ct_is, pub_is, sig_is).
          subst
            (λ x.
              Reaches (λ o v. Answered (unkeyed e (generated s)) hello s o v.obj) (end_thread x v))
            (sym ended)
            (Reaches-pure _ v (j, answer, resp, refl, obj_is, parsed_is, ct_is, pub_is, sig_is))
