-- ===== src/Worker/Steps/Slots.antt =====
-- gui/EngineWorker.cpp: where the slots lead a worker without a session, and `sendMessage` one with.
use pqc_messaging_app.Prelude.{
  ℕ, ◌≡◌, refl, ap, sym, subst, ◌∙◌, true, false, not, ◌⊎◌, inl, inr, Option, ◌∷◌, [], ◌++◌, Bytes,
  codes, arith, is_empty,
}
use pqc_messaging_app.Exec.Hoare.{
  Hoare, Hoare-pure, Hoare-raise, Hoare-if, Hoare-strengthen, Hoare-weaken, Hoare-modify,
  Hoare-bind, Hoare-then_gets, Hoare-then_modify, Hoare-zoom, Hoare-zoom_still, Hoare-any,
}
use pqc_messaging_app.Platform.{Platform}
use pqc_messaging_app.Protobuf.{Protobuf}
use pqc_messaging_app.Engine.{Outcome, success, failure}
use pqc_messaging_app.Engine.Message.Returns.{encrypt_and_serialize_message-returns}
use pqc_messaging_app.Tcp.Transport.{TcpTransport}
use pqc_messaging_app.WebSocket.{WebSocketTransport}
use pqc_messaging_app.Worker.{
  Qt, Mode, no_mode, tcp_mode, ws_mode, Thread, no_thread, in_loop, ended, Emitted, EngineWorker,
  emit,
}
use pqc_messaging_app.Worker.Receive.{send_by, send_sealed, send_message}
use pqc_messaging_app.Worker.Connect.{
  assign_thread, session_established, disconnect_first, start_connect, start_host,
  start_relay_connect, start_relay_host,
}
use pqc_messaging_app.Worker.Steps.Started.{
  StartRule, start_connect-Q, start_host-Q, start_relay_connect-Q, start_relay_host-Q,
}
use pqc_messaging_app.Worker.Steps.Announced.{up, down, Balance, Balance-quiet, Balance-up}
use pqc_messaging_app.Worker.Steps.Triples.{
  is_in_loop, is_mode, Idle, Active, Hoare-emit, disconnect_from_peer-Idle,
}

-- Between two slots.
abbrev pub Settled : EngineWorker → Type 0
Settled o = Idle o ⊎ Active o

-- What `Idle` does not look at.
Idle-kept :
    (o o' : EngineWorker)
    → o'.is_connected ≡ o.is_connected
    → o'.running ≡ o.running
    → o'.rx_thread ≡ o.rx_thread
    → o'.emitted ≡ o.emitted
    → Idle o
    → Idle o'
Idle-kept o o' c r t e h = record {
  not_connected = c ∙ h.not_connected;
  not_running = r ∙ h.not_running;
  not_looping = ap is_in_loop t ∙ h.not_looping;
  balanced = subst (Balance 0) (sym e) h.balanced;
}

-- A session that is about to be announced, and one that is.
abbrev Opening : ℕ → EngineWorker → Type 0
Opening n o =
    (o.is_connected ≡ true)
    × (o.running ≡ true)
    × (o.engine.session_ready ≡ true)
    × (is_mode o.mode ≡ true)
    × Balance n o.emitted

Opening-quiet :
    (n : ℕ) (s : Emitted) → up s ≡ 0 → down s ≡ 0 → Hoare (Opening n) (λ _. Opening n) (emit s)
Opening-quiet n s hu hd =
    Hoare-emit s λ o h. (h.0, h.1, h.2, h.3, Balance-quiet n o.emitted s hu hd h.4)

assign_thread-Active : (t : Thread) → Hoare (Opening 1) (λ _. Active) (assign_thread t)
unfolding assign_thread
assign_thread-Active no_thread = Hoare-modify _ λ o h. record {
  is_connected = h.0;
  is_running = h.1;
  looping = refl;
  ready = h.2;
  has_mode = h.3;
  one_ahead = h.4;
}
assign_thread-Active in_loop = Hoare-raise _
assign_thread-Active ended = Hoare-raise _

session_established-Active :
    (mode : Mode) (line peer : Bytes)
    → is_mode mode ≡ true
    → Hoare
        (λ o. Idle o × (o.engine.session_ready ≡ true))
        (λ _. Active)
        (session_established mode line peer)
unfolding session_established
session_established-Active mode line peer has_mode =
    Hoare-then_modify {P' = Opening 0} _ _ (λ o h. (refl, refl, h.1, has_mode, h.0.balanced))
      (Hoare-bind (λ _. Opening 0) _ _ (Opening-quiet 0 _ refl refl)
        λ _.
          Hoare-bind (λ _. Opening 0) _ _
            (Hoare-if (is_empty peer) _ _ (λ _. Hoare-pure tt λ o h. h)
              λ _. Opening-quiet 0 _ refl refl)
            λ _.
              Hoare-bind (λ _. Opening 1) _ _
                (Hoare-emit _ λ o h. (h.0, h.1, h.2, h.3, Balance-up o.emitted h.4))
                λ _.
                  Hoare-then_gets _ _
                    λ thread. Hoare-strengthen _ (assign_thread-Active thread) λ o h. h.0)

Settled-kept :
    (o : EngineWorker) (s : Emitted)
    → up s ≡ 0
    → down s ≡ 0
    → Settled o
    → Settled (record o { emitted = o.emitted ++ (s ∷ []) })
Settled-kept o s hu hd (inl h) = inl (record {
  not_connected = h.not_connected;
  not_running = h.not_running;
  not_looping = h.not_looping;
  balanced = Balance-quiet 0 o.emitted s hu hd h.balanced;
})
Settled-kept o s hu hd (inr h) = inr (record {
  is_connected = h.is_connected;
  is_running = h.is_running;
  looping = h.looping;
  ready = h.ready;
  has_mode = h.has_mode;
  one_ahead = Balance-quiet 1 o.emitted s hu hd h.one_ahead;
})

pub Settled-quiet : (s : Emitted) → up s ≡ 0 → down s ≡ 0 → Hoare Settled (λ _. Settled) (emit s)
Settled-quiet s hu hd = Hoare-emit s λ o h. Settled-kept o s hu hd h

Settled-Idle : (o : EngineWorker) → Settled o → o.is_connected ≡ false → Idle o
Settled-Idle o (inl h) e = h
Settled-Idle o (inr h) e = ground (arith, h.is_connected, e)

pub net-Settled :
    (o : EngineWorker) (tcp : TcpTransport) (ws : Option WebSocketTransport)
    → Settled o
    → Settled (record o { tcp = tcp; ws = ws })
net-Settled o tcp ws (inl h) = inl (Idle-kept o _ refl refl refl refl h)
net-Settled o tcp ws (inr h) = inr (record {
  is_connected = h.is_connected;
  is_running = h.is_running;
  looping = h.looping;
  ready = h.ready;
  has_mode = h.has_mode;
  one_ahead = h.one_ahead;
})

module _ ⦃p : Platform⦄ ⦃g : Protobuf⦄ where
  disconnect_first-Idle : Hoare Settled (λ _. Idle) disconnect_first
  unfolding disconnect_first
  disconnect_first-Idle = Hoare-then_gets _ _ λ there.
      Hoare-if there _ _
        (λ is_there.
          Hoare-bind (λ _. Settled) _ _ (Hoare-strengthen _ (Settled-quiet _ refl refl) λ o h. h.0)
            λ _. disconnect_from_peer-Idle)
        λ not_there. Hoare-pure tt λ o h. Settled-Idle o h.0 (h.1 ∙ not_there)

Idle-StartRule : StartRule Idle Settled
Idle-StartRule = record {
  kept = λ o engine tcp ws h. Idle-kept o _ refl refl refl refl h;
  quiet = λ o s hu hd h. record {
    not_connected = h.not_connected;
    not_running = h.not_running;
    not_looping = h.not_looping;
    balanced = Balance-quiet 0 o.emitted s hu hd h.balanced;
  };
  ends = λ o h. inl h;
  begins = λ mode line peer has_mode.
      Hoare-weaken _ (session_established-Active mode line peer has_mode) λ _ o h. inr h;
}

module _ ⦃p : Platform⦄ ⦃g : Protobuf⦄ ⦃q : Qt⦄ where
  pub start_connect-Settled :
      (endpoint password : Bytes) → Hoare Settled (λ _. Settled) (start_connect endpoint password)
  start_connect-Settled endpoint password =
      start_connect-Q Idle-StartRule disconnect_first-Idle endpoint password

  pub start_host-Settled :
      (port : ℕ) (password : Bytes) → Hoare Settled (λ _. Settled) (start_host port password)
  start_host-Settled port password = start_host-Q Idle-StartRule disconnect_first-Idle port password

  pub start_relay_connect-Settled :
      (url peer password : Bytes)
      → Hoare Settled (λ _. Settled) (start_relay_connect url peer password)
  start_relay_connect-Settled url peer password =
      start_relay_connect-Q Idle-StartRule disconnect_first-Idle url peer password

  pub start_relay_host-Settled :
      (url me password : Bytes) → Hoare Settled (λ _. Settled) (start_relay_host url me password)
  start_relay_host-Settled url me password =
      start_relay_host-Q Idle-StartRule disconnect_first-Idle url me password

module _ ⦃p : Platform⦄ ⦃g : Protobuf⦄ where
  send_by-Settled :
      (mode : Mode) (frame : Bytes) → Hoare Settled (λ _. Settled) (send_by mode frame)
  unfolding send_by
  send_by-Settled no_mode frame = Hoare-pure false λ o h. h
  send_by-Settled tcp_mode frame =
      Hoare-zoom _ _ _ (Hoare-any _) λ o a t h _. net-Settled o t o.ws h
  send_by-Settled ws_mode frame =
      Hoare-zoom _ _ _ (Hoare-any _) λ o a t h _. net-Settled o o.tcp t h

  send_sealed-Settled : (o : Outcome Bytes) → Hoare Settled (λ _. Settled) (send_sealed o)
  unfolding send_sealed
  send_sealed-Settled (failure err) = Settled-quiet _ refl refl
  send_sealed-Settled (success frame) = Hoare-then_gets _ _ λ mode.
      Hoare-bind (λ _. Settled) _ _ (Hoare-strengthen _ (send_by-Settled mode frame) λ o h. h.0)
        λ sent. Hoare-if (not sent) _ _ (λ _. Settled-quiet _ refl refl) λ _. Hoare-pure tt λ o h. h

  pub send_message-Settled : (text : Bytes) → Hoare Settled (λ _. Settled) (send_message text)
  unfolding send_message
  send_message-Settled text = Hoare-then_gets _ _ λ there.
      Hoare-if (not there) _ _ (λ _. Hoare-strengthen _ (Settled-quiet _ refl refl) λ o h. h.0)
        λ _.
          Hoare-strengthen _
            (Hoare-bind (λ _. Settled) _ _
              (Hoare-zoom_still _ _ _
                (encrypt_and_serialize_message-returns text (codes "gui") (codes "peer")) λ o h. h)
              send_sealed-Settled)
            λ o h. h.0
