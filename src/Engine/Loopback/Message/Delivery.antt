-- ===== src/Engine/Loopback/Message/Delivery.antt =====
-- tools/engine_loopback_test.cpp: the test comes to its end, and what the server reads.
use pqc_messaging_app.Prelude.{
  ℕ, ◌+◌, ◌≤◌, ◌^◌, ◌≡◌, refl, sym, subst, true, some, Bytes, codes, length, [], ◌∷◌, arith,
}
use pqc_messaging_app.Exec.{ok, Machine, zoom}
use pqc_messaging_app.Exec.Reaches.{
  Reaches, Reaches-bind, Reaches-zoom, Reaches-weaken, Reaches-then_zoom, Reaches-then_zoomed, at,
}
use pqc_messaging_app.Platform.{Platform}
use pqc_messaging_app.Platform.Laws.{Healthy, GcmLaws}
use pqc_messaging_app.Protobuf.{Protobuf, ProtobufLaws}
use pqc_messaging_app.Engine.{ConnectionEngine, Outcome, success, failure}
use pqc_messaging_app.Engine.Message.RoundTrip.{
  Sends, encrypt_and_serialize-Sends, parse_and_decrypt-Sends,
}
use pqc_messaging_app.Engine.Loopback.{send_to, recv_from, on_c2s}
use pqc_messaging_app.Engine.Loopback.Laws.{HandshakeLaws, generated, wire, conn}
use pqc_messaging_app.Engine.Loopback.Agreement.{loopback-Agreed}
use pqc_messaging_app.Engine.Loopback.Message.{
  Test, opened, posted, round_trip, after_client, test_run,
}

-- What the test holds between two messages.
abbrev pub test : ConnectionEngine → ConnectionEngine → Test
test client server = conn client (conn server (wire [] []))

module _ (machine : Machine) where
  c2s-send_to :
      (frame : Bytes)
      → on_c2s (send_to frame) (at machine (wire [] []))
        ≡ (ok true, at machine (wire (frame ∷ []) []))
  unfolding zoom send_to
  c2s-send_to frame = refl

  c2s-recv_from :
      (frame : Bytes)
      → on_c2s recv_from (at machine (wire (frame ∷ []) []))
        ≡ (ok (some frame), at machine (wire [] []))
  unfolding zoom recv_from
  c2s-recv_from frame = refl

module _ ⦃p : Platform⦄ ⦃g : Protobuf⦄ (client server : ConnectionEngine) (text : Bytes)
    (same : server.session ≡ client.session) (server_ready : server.session_ready ≡ true) where
  -- The server has read the text, and nothing else has changed.
  abbrev Delivered : Outcome Bytes → Test → Type 0
  Delivered o t = (o ≡ success text) × (t ≡ test client server)

  posted-Delivered :
      (o : Outcome Bytes) (machine : Machine)
      → Sends client.session text o
      → Reaches (λ o' v. Delivered o' v.obj) (posted o (at machine (test client server)))
  unfolding posted opened
  posted-Delivered (failure e) machine sends = absurd sends
  posted-Delivered (success frame) machine sends =
      Reaches-then_zoomed _ _ _ _ machine machine _ _ true (c2s-send_to machine frame) (
        Reaches-then_zoomed _ _ _ _ machine machine _ _ (some frame) (c2s-recv_from machine frame) (
          Reaches-zoom _ _ _ _ (
            Reaches-weaken _
              (parse_and_decrypt-Sends server machine frame text
                (subst (λ s. Sends s text (success frame)) (sym same) sends) server_ready)
              λ o v (is, kept). (is, λ i. test client (kept i)))))

  module _ (healthy : Healthy p) (gcm : GcmLaws) (proto : ProtobufLaws)
      (length_random : (i n : ℕ) → length (p.random i n) ≡ n)
      (key_size : length client.session.key ≡ 32) (client_ready : client.session_ready ≡ true)
      (client_utf8 : g.is_utf8 (codes "client") ≡ true)
      (server_utf8 : g.is_utf8 (codes "server") ≡ true) (small : length text + 12 ≤ 2 ^ 23) where
    round_trip-Delivered :
        (machine : Machine)
        → Reaches (λ o v. Delivered o v.obj) (round_trip text (at machine (test client server)))
    unfolding round_trip
    round_trip-Delivered machine =
        Reaches-then_zoom _ _ _ _ machine _
          (encrypt_and_serialize-Sends healthy gcm proto length_random client machine text
            (codes "client") (codes "server") key_size client_ready client_utf8 server_utf8
            (omega (arith, small)))
          λ o v (sends, kept).
            subst
              (λ e.
                Reaches (λ o' v'. Delivered o' v'.obj) (posted o (at v.machine (test e server))))
              (sym kept) (posted-Delivered o v.machine sends)

module _ ⦃p : Platform⦄ ⦃g : Protobuf⦄ (healthy : Healthy p) (laws : HandshakeLaws) (gcm : GcmLaws)
    (proto : ProtobufLaws) (length_random : (i n : ℕ) → length (p.random i n) ≡ n)
    (client_utf8 : g.is_utf8 (codes "client") ≡ true)
    (server_utf8 : g.is_utf8 (codes "server") ≡ true) (a b : ConnectionEngine) (c s : ℕ) where
  -- Where no foreign call is refused, `HandshakeLaws`, `GcmLaws` and `ProtobufLaws` hold,
  -- random bytes have the length asked for, 'client' and 'server' are UTF-8, both engines have
  -- identities of generated key pairs and the text has at most 2^23 - 12 bytes: the loopback
  -- test, from its handshake on, comes to its end, and the server has read the text that the
  -- client wrote.
  pub test_run-delivers :
      (machine : Machine) (text : Bytes)
      → a.identity ≡ generated c
      → b.identity ≡ generated s
      → length text + 12 ≤ 2 ^ 23
      → Reaches (λ o v. o ≡ success text) (test_run text (at machine (test a b)))
  unfolding test_run after_client
  test_run-delivers machine text client_own server_own small =
      Reaches-bind _ _ _ (loopback-Agreed healthy laws proto a b c s server_own machine client_own)
        λ o v (key, size, is, obj_is).
          subst (λ x. Reaches (λ o' v'. o' ≡ success text) (after_client text x v)) (sym is)
            (subst (λ t. Reaches (λ o' v'. o' ≡ success text) (round_trip text (at v.machine t)))
              (sym obj_is)
              (Reaches-weaken _
                (round_trip-Delivered _ _ text refl refl healthy gcm proto length_random size refl
                  client_utf8 server_utf8 small v.machine)
                λ o' v' h. h.0))
