-- ===== src/Worker/Steps/Started.antt =====
-- gui/EngineWorker.cpp: the slots that make a connection, from the identity on. `StartRule P Q` is
-- what they need of a property of the worker to take it from `P` to `Q`.
use pqc_messaging_app.Prelude.{
  ℕ, ◌≡◌, refl, ap, ◌∙◌, Bool, true, not, Option, none, some, ◌∷◌, [], ◌++◌, Bytes, codes,
  if◌then◌else◌,
}
use pqc_messaging_app.Exec.{World, M, zoom, ◌>>=◌}
use pqc_messaging_app.Exec.Hoare.{
  Hoare, Met-of_Ended, Hoare-if, Hoare-weaken, Hoare-modify, Hoare-bind, Hoare-zoom, Hoare-any,
}
use pqc_messaging_app.Platform.{Platform}
use pqc_messaging_app.Protobuf.{Protobuf}
use pqc_messaging_app.Engine.{ConnectionEngine, Outcome, success, failure}
use pqc_messaging_app.Engine.Handshake.{Conn, run_client_handshake, run_server_handshake}
use pqc_messaging_app.Engine.Handshake.Authentic.{
  unready, ClientEnd, ServerEnd, run_client_handshake-authentic, run_server_handshake-authentic,
}
use pqc_messaging_app.Tcp.Transport
use pqc_messaging_app.Tcp.Transport.{TcpTransport, send_frame, recv_frame}
use pqc_messaging_app.WebSocket.{WebSocketTransport}
use pqc_messaging_app.Worker.{
  Qt, Mode, tcp_mode, ws_mode, Emitted, error, EngineWorker, emit, on_tcp, over_tcp, over_ws,
}
use pqc_messaging_app.Worker.Connect.{
  session_established, after_handshake, make_ws, reset_ws, disconnect_first, with_identity,
  identity_then, ws_send, ws_recv, drop_ws, connect_to, start_connect, start_host, relay_then,
  start_relay_connect, start_relay_host,
}
use pqc_messaging_app.Worker.Steps.Announced.{up, down}
use pqc_messaging_app.Worker.Steps.Triples.{is_mode, Hoare-emit}

-- A handshake that returns a fingerprint leaves an engine with a session.
abbrev pub Ready : {T : Type 0} → Outcome Bytes → Conn T → Type 0
Ready (success fingerprint) c = c.engine.session_ready ≡ true
Ready (failure err) c = Unit

module _ ⦃p : Platform⦄ ⦃g : Protobuf⦄ {T : Type 0} (send : Bytes → M T Bool)
    (recv : M T (Option Bytes)) where
  pub client-Ready : Hoare (λ _. Unit) Ready (run_client_handshake send recv)
  client-Ready = record {
    at = λ w _. Met-of_Ended _ _ (run_client_handshake-authentic send recv w) (ready w);
  }
    where
      ready :
          (w : World (Conn T)) (o : Outcome Bytes) (c : Conn T)
          → ClientEnd (unready w.obj.engine) o c.engine
          → Ready o c
      ready w (success fingerprint) c h = ap (λ (e : ConnectionEngine). e.session_ready) h.engine
      ready w (failure err) c h = tt

  pub server-Ready : Hoare (λ _. Unit) Ready (run_server_handshake send recv)
  server-Ready = record {
    at = λ w _. Met-of_Ended _ _ (run_server_handshake-authentic send recv w) (ready w);
  }
    where
      ready :
          (w : World (Conn T)) (o : Outcome Bytes) (c : Conn T)
          → ServerEnd (unready w.obj.engine) o c.engine
          → Ready o c
      ready w (success fingerprint) c h = ap (λ (e : ConnectionEngine). e.session_ready) h.engine
      ready w (failure err) c h = tt

pub record StartRule (P Q : EngineWorker → Type 0) : Type 0 where
  pub kept :
      (o : EngineWorker) (engine : ConnectionEngine) (tcp : TcpTransport)
      (ws : Option WebSocketTransport)
      → P o
      → P (record o { engine = engine; tcp = tcp; ws = ws })
  pub quiet :
      (o : EngineWorker) (s : Emitted)
      → up s ≡ 0
      → down s ≡ 0
      → P o
      → P (record o { emitted = o.emitted ++ (s ∷ []) })
  pub ends : (o : EngineWorker) → P o → Q o
  pub begins :
      (mode : Mode) (line peer : Bytes)
      → is_mode mode ≡ true
      → Hoare
          (λ o. P o × (o.engine.session_ready ≡ true))
          (λ _. Q)
          (session_established mode line peer)

module _ {P Q : EngineWorker → Type 0} (rule : StartRule P Q) where
  emit_quiet : (s : Emitted) → up s ≡ 0 → down s ≡ 0 → Hoare P (λ _. P) (emit s)
  emit_quiet s hu hd = Hoare-emit s λ o h. rule.quiet o s hu hd h

  -- The same of the worker, after the handshake.
  abbrev Shaken : Outcome Bytes → EngineWorker → Type 0
  Shaken (success fingerprint) o = P o × (o.engine.session_ready ≡ true)
  Shaken (failure err) o = P o

  after_handshake-Q :
      (mode : Mode) (cleanup : M EngineWorker Unit) (message line : Bytes) (outcome : Outcome Bytes)
      → is_mode mode ≡ true
      → Hoare P (λ _. P) cleanup
      → Hoare (Shaken outcome) (λ _. Q) (after_handshake mode cleanup message line outcome)
  unfolding after_handshake
  after_handshake-Q mode cleanup message line (failure err) has_mode hc =
      Hoare-bind (λ _. P) _ _ hc λ _. Hoare-weaken _ (emit_quiet _ refl refl) λ _. rule.ends
  after_handshake-Q mode cleanup message line (success peer) has_mode hc =
      rule.begins mode line peer has_mode

  reset_ws-P : Hoare P (λ _. P) reset_ws
  unfolding reset_ws
  reset_ws-P = Hoare-modify _ λ o h. rule.kept o _ _ _ h

  make_ws-P : ⦃q : Qt⦄ → Hoare P (λ _. P) make_ws
  unfolding make_ws
  make_ws-P = record { at = λ w h. rule.kept w.obj _ _ _ h }

  -- An error that ends a slot.
  error-Q : (text : Bytes) → Hoare P (λ _. Q) (emit (error text))
  error-Q text = Hoare-weaken _ (emit_quiet _ refl refl) λ _. rule.ends

  module _ ⦃p : Platform⦄ ⦃g : Protobuf⦄ where
    drop_ws-P : Hoare P (λ _. P) drop_ws
    unfolding drop_ws
    drop_ws-P =
        Hoare-bind (λ _. P) _ _ (Hoare-zoom _ _ _ (Hoare-any _) λ o a t h _. rule.kept o _ _ _ h)
          λ _. reset_ws-P

    with_identity-Q :
        (rest : M EngineWorker Unit) (identity : Outcome (Bytes × Bool))
        → Hoare P (λ _. Q) rest
        → Hoare P (λ _. Q) (with_identity rest identity)
    unfolding with_identity
    with_identity-Q rest (failure err) hr = error-Q _
    with_identity-Q rest (success (fingerprint, made)) hr =
        Hoare-bind (λ _. P) _ _ (emit_quiet _ refl refl)
          λ _. Hoare-bind (λ _. P) _ _ (emit_quiet _ refl refl) λ _. hr

    identity_then-Q :
        (password : Bytes) (rest : M EngineWorker Unit)
        → Hoare P (λ _. Q) rest
        → Hoare P (λ _. Q) (identity_then password rest)
    unfolding identity_then
    identity_then-Q password rest hr =
        Hoare-bind (λ _. P) _ _ (Hoare-zoom _ _ _ (Hoare-any _) λ o a t h _. rule.kept o _ _ _ h)
          λ identity. with_identity-Q rest identity hr

  -- A handshake over a part of the worker that holds the engine, and what follows it.
  module _ {T : Type 0} (get : EngineWorker → Conn T) (put : Conn T → EngineWorker → EngineWorker)
      (put_kept : (o : EngineWorker) (c : Conn T) → P o → P (put c o))
      (put-ready : (o : EngineWorker) (c : Conn T)
        → (put c o).engine.session_ready ≡ c.engine.session_ready) where
    put-Shaken :
        (o : EngineWorker) (outcome : Outcome Bytes) (c : Conn T)
        → P o
        → Ready outcome c
        → Shaken outcome (put c o)
    put-Shaken o (success fingerprint) c h r = (put_kept o c h, put-ready o c ∙ r)
    put-Shaken o (failure err) c h r = put_kept o c h

    handshake-Q :
        (handshake : M (Conn T) (Outcome Bytes)) (mode : Mode) (cleanup : M EngineWorker Unit)
        (message line : Bytes)
        → Hoare (λ _. Unit) Ready handshake
        → is_mode mode ≡ true
        → Hoare P (λ _. P) cleanup
        → Hoare P (λ _. Q) (zoom get put handshake >>= after_handshake mode cleanup message line)
    handshake-Q handshake mode cleanup message line hh has_mode hc =
        Hoare-bind Shaken _ _ (Hoare-zoom get put handshake hh λ o a c h r. put-Shaken o a c h r)
          λ outcome. after_handshake-Q mode cleanup message line outcome has_mode hc

  module _ ⦃p : Platform⦄ ⦃g : Protobuf⦄ where
    on_tcp-P : {A : Type 0} (m : M TcpTransport A) → Hoare P (λ _. P) (on_tcp m)
    on_tcp-P m = Hoare-zoom _ _ m (Hoare-any m) λ o a t h _. rule.kept o _ _ _ h

    tcp-Q :
        (handshake : M (Conn TcpTransport) (Outcome Bytes)) (message line : Bytes)
        → Hoare (λ _. Unit) Ready handshake
        → Hoare P
            (λ _. Q)
            (over_tcp handshake >>= after_handshake tcp_mode (on_tcp Transport.close) message line)
    tcp-Q handshake message line hh =
        handshake-Q _ _ (λ o c h. rule.kept o _ _ _ h) (λ o c. refl) handshake tcp_mode _ message
          line hh refl (on_tcp-P Transport.close)

    ws-Q :
        (handshake : M (Conn (Option WebSocketTransport)) (Outcome Bytes)) (message line : Bytes)
        → Hoare (λ _. Unit) Ready handshake
        → Hoare P (λ _. Q) (over_ws handshake >>= after_handshake ws_mode drop_ws message line)
    ws-Q handshake message line hh =
        handshake-Q _ _ (λ o c h. rule.kept o _ _ _ h) (λ o c. refl) handshake ws_mode _ message
          line hh refl drop_ws-P

    -- A call that opens the transport, and what is done then or otherwise.
    opened-Q :
        (m : M TcpTransport Bool) (text : Bytes) (rest : M EngineWorker Unit)
        → Hoare P (λ _. Q) rest
        → Hoare P (λ _. Q) (on_tcp m >>= λ done. if not done then emit (error text) else rest)
    opened-Q m text rest hr =
        Hoare-bind (λ _. P) _ _ (on_tcp-P m)
          λ done. Hoare-if (not done) _ _ (λ _. error-Q text) λ _. hr

  module _ ⦃p : Platform⦄ ⦃g : Protobuf⦄ ⦃q : Qt⦄ where
    relay_then-Q :
        (url : Bytes) (rest : M EngineWorker Unit)
        → Hoare P (λ _. Q) rest
        → Hoare P (λ _. Q) (relay_then url rest)
    unfolding relay_then
    relay_then-Q url rest hr =
        Hoare-bind (λ _. P) _ _ make_ws-P
          λ _.
            Hoare-bind (λ _. P) _ _
              (Hoare-zoom _ _ _ (Hoare-any _) λ o a t h _. rule.kept o _ _ _ h)
              λ done.
                Hoare-if (not done) _ _ (λ _. Hoare-bind (λ _. P) _ _ reset_ws-P λ _. error-Q _)
                  λ _. hr

    connect_to-Q :
        (password : Bytes) (endpoint : Option (Bytes × ℕ))
        → Hoare P (λ _. Q) (connect_to password endpoint)
    unfolding connect_to
    connect_to-Q password none = error-Q _
    connect_to-Q password (some (host, port)) = identity_then-Q password _ (
        Hoare-bind (λ _. P) _ _ (emit_quiet _ refl refl)
          λ _.
            opened-Q _ _ _
              (tcp-Q _ (codes "Handshake/connect error: ") _ (client-Ready send_frame recv_frame)))

  -- The slots, from what the disconnection takes to `P`.
  module _ ⦃p : Platform⦄ ⦃g : Protobuf⦄ ⦃q : Qt⦄ {O : EngineWorker → Type 0}
      (first : Hoare O (λ _. P) disconnect_first) where
    pub start_connect-Q :
        (endpoint password : Bytes) → Hoare O (λ _. Q) (start_connect endpoint password)
    unfolding start_connect
    start_connect-Q endpoint password = Hoare-bind (λ _. P) _ _ first λ _. connect_to-Q password _

    pub start_host-Q : (port : ℕ) (password : Bytes) → Hoare O (λ _. Q) (start_host port password)
    unfolding start_host
    start_host-Q port password =
        Hoare-bind (λ _. P) _ _ first
          λ _. identity_then-Q password _ (
            Hoare-bind (λ _. P) _ _ (emit_quiet _ refl refl)
              λ _.
                opened-Q _ _ _
                  (tcp-Q _ (codes "Handshake/host error: ") _ (server-Ready send_frame recv_frame)))

    pub start_relay_connect-Q :
        (url peer password : Bytes) → Hoare O (λ _. Q) (start_relay_connect url peer password)
    unfolding start_relay_connect
    start_relay_connect-Q url peer password =
        Hoare-bind (λ _. P) _ _ first
          λ _. identity_then-Q password _ (
            Hoare-bind (λ _. P) _ _ (emit_quiet _ refl refl)
              λ _.
                relay_then-Q _ _
                  (ws-Q _ (codes "Relay handshake error: ") _ (client-Ready ws_send ws_recv)))

    pub start_relay_host-Q :
        (url me password : Bytes) → Hoare O (λ _. Q) (start_relay_host url me password)
    unfolding start_relay_host
    start_relay_host-Q url me password =
        Hoare-bind (λ _. P) _ _ first
          λ _. identity_then-Q password _ (
            Hoare-bind (λ _. P) _ _ (emit_quiet _ refl refl)
              λ _.
                relay_then-Q _ _
                  (ws-Q _ (codes "Relay host handshake error: ") _ (server-Ready ws_send ws_recv)))
