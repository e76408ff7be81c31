-- ===== src/Worker/Steps/Triples.antt =====
-- gui/EngineWorker.cpp: the states of a worker between its slots, and what leads from one to the
-- other.
use pqc_messaging_app.Prelude.{
  ℕ, zero, suc, ◌≡◌, refl, ap, Bool, true, false, ◌⊎◌, inl, inr, Option, none, some, [], ◌∷◌, ◌++◌,
  Bytes, arith,
}
use pqc_messaging_app.Exec.Hoare.{
  Hoare, Hoare-pure, Hoare-if, Hoare-wait, Hoare-absurd, Hoare-strengthen, Hoare-modify, Hoare-bind,
  Hoare-then_gets, Hoare-then_modify, Hoare-zoom, Hoare-any,
}
use pqc_messaging_app.Platform.{Platform}
use pqc_messaging_app.Protobuf.{Protobuf}
use pqc_messaging_app.Tcp.Transport.{TcpTransport}
use pqc_messaging_app.WebSocket.{WebSocketTransport}
use pqc_messaging_app.Engine.{Outcome, success, failure}
use pqc_messaging_app.Worker.{
  Mode, no_mode, tcp_mode, ws_mode, Thread, no_thread, in_loop, ended, Emitted, EngineWorker, emit,
}
use pqc_messaging_app.Worker.Receive.{shown, recv_by, received, recv_turn, loop_end, recv_loop}
use pqc_messaging_app.Worker.Steps.Announced.{Balance, Balance-quiet, Balance-down}
use pqc_messaging_app.Worker.Disconnect.{close_by, missed, join, disconnect_from_peer}

abbrev pub is_in_loop : Thread → Bool
is_in_loop in_loop = true
is_in_loop _ = false

abbrev pub is_mode : Mode → Bool
is_mode no_mode = false
is_mode _ = true

-- Without a session.
pub record Idle (o : EngineWorker) : Type 0 where
  pub not_connected : o.is_connected ≡ false
  pub not_running : o.running ≡ false
  pub not_looping : is_in_loop o.rx_thread ≡ false
  pub balanced : Balance 0 o.emitted

-- With one.
pub record Active (o : EngineWorker) : Type 0 where
  pub is_connected : o.is_connected ≡ true
  pub is_running : o.running ≡ true
  pub looping : o.rx_thread ≡ in_loop
  pub ready : o.engine.session_ready ≡ true
  pub has_mode : is_mode o.mode ≡ true
  pub one_ahead : Balance 1 o.emitted

abbrev Shut : ℕ → EngineWorker → Type 0
Shut n o = (o.is_connected ≡ false) × (o.running ≡ false) × Balance n o.emitted

-- What a thread in its loop relies on.
abbrev pub Ahead : EngineWorker → Type 0
Ahead o = Balance 1 o.emitted

-- While a connection is taken down: nothing is left to do, or the thread has to leave its loop.
abbrev Closing : EngineWorker → Type 0
Closing o = Idle o ⊎ ((o.rx_thread ≡ in_loop) × Ahead o)

not_running-Closing :
    (o : EngineWorker) → Idle o ⊎ Active o → Closing (record o { running = false })
not_running-Closing o (inl h) = inl (record {
  not_connected = h.not_connected;
  not_running = refl;
  not_looping = h.not_looping;
  balanced = h.balanced;
})
not_running-Closing o (inr h) = inr (h.looping, h.one_ahead)

tcp-Closing : (o : EngineWorker) (t : TcpTransport) → Closing o → Closing (record o { tcp = t })
tcp-Closing o t (inl h) = inl (record {
  not_connected = h.not_connected;
  not_running = h.not_running;
  not_looping = h.not_looping;
  balanced = h.balanced;
})
tcp-Closing o t (inr h) = inr h

ws-Closing :
    (o : EngineWorker) (t : Option WebSocketTransport) → Closing o → Closing (record o { ws = t })
ws-Closing o t (inl h) = inl (record {
  not_connected = h.not_connected;
  not_running = h.not_running;
  not_looping = h.not_looping;
  balanced = h.balanced;
})
ws-Closing o t (inr h) = inr h

-- A thread that is not in its loop has nothing to do.
Closing-Idle : (o : EngineWorker) → Closing o → is_in_loop o.rx_thread ≡ false → Idle o
Closing-Idle o (inl h) e = h
Closing-Idle o (inr h) e = ground (arith, ap is_in_loop h.0)

Closing-Ahead : (o : EngineWorker) → Closing o → o.rx_thread ≡ in_loop → Ahead o
Closing-Ahead o (inl h) e = ground (arith, ap is_in_loop e, h.not_looping)
Closing-Ahead o (inr h) e = h.1

contradiction : (a b : Bool) → a ≡ false → a ≡ b → b ≡ true → ⊥
contradiction a b h e h' = ground arith

Idle-unthreaded : (o : EngineWorker) → Idle o → Idle (record o { rx_thread = no_thread })
Idle-unthreaded o h = record {
  not_connected = h.not_connected;
  not_running = h.not_running;
  not_looping = refl;
  balanced = h.balanced;
}

pub Idle-mode : (mode : Mode) (o : EngineWorker) → Idle o → Idle (record o { mode = mode })
Idle-mode mode o h = record {
  not_connected = h.not_connected;
  not_running = h.not_running;
  not_looping = h.not_looping;
  balanced = h.balanced;
}

module _ {P Q : EngineWorker → Type 0} where
  pub Hoare-emit :
      (s : Emitted)
      → ((o : EngineWorker) → P o → Q (record o { emitted = o.emitted ++ (s ∷ []) }))
      → Hoare P (λ _. Q) (emit s)
  unfolding emit
  Hoare-emit s h = Hoare-modify _ h

shown-Ahead : (o : Outcome Bytes) → Hoare Ahead (λ _. Ahead) (emit (shown o))
unfolding shown
shown-Ahead (failure err) = Hoare-emit _ λ o h. Balance-quiet 1 o.emitted _ refl refl h
shown-Ahead (success text) = Hoare-emit _ λ o h. Balance-quiet 1 o.emitted _ refl refl h

module _ ⦃p : Platform⦄ ⦃g : Protobuf⦄ where
  recv_by-Ahead : (mode : Mode) → Hoare Ahead (λ _. Ahead) (recv_by mode)
  unfolding recv_by
  recv_by-Ahead no_mode = Hoare-pure none λ o h. h
  recv_by-Ahead tcp_mode = Hoare-zoom _ _ _ (Hoare-any _) λ o a t h _. h
  recv_by-Ahead ws_mode = Hoare-zoom _ _ _ (Hoare-any _) λ o a t h _. h

  received-Ahead : (got : Option Bytes) → Hoare Ahead (λ _. Ahead) (received got)
  unfolding received
  received-Ahead none = Hoare-pure false λ o h. h
  received-Ahead (some frame) =
      Hoare-bind (λ _. Ahead) _ _ (Hoare-zoom _ _ _ (Hoare-any _) λ o a t h _. h)
        λ outcome. Hoare-bind (λ _. Ahead) _ _ (shown-Ahead outcome) λ _. Hoare-pure true λ o h. h

  pub recv_turn-Ahead : Hoare Ahead (λ _. Ahead) recv_turn
  unfolding recv_turn
  recv_turn-Ahead = Hoare-then_gets _ _ λ mode.
      Hoare-bind (λ _. Ahead) _ _ (Hoare-strengthen _ (recv_by-Ahead mode) λ o h. h.0)
        λ got. received-Ahead got

  pub loop_end-Idle : Hoare Ahead (λ _. Idle) loop_end
  unfolding loop_end
  loop_end-Idle =
      Hoare-then_modify {P' = Shut 1} _ _ (λ o h. (refl, refl, h))
        (Hoare-bind (λ _. Shut 0) _ _ (Hoare-emit _ λ o h. (h.0, h.1, Balance-down o.emitted h.2))
          λ _. Hoare-modify _ λ o h. record {
            not_connected = h.0;
            not_running = h.1;
            not_looping = refl;
            balanced = h.2;
          })

  recv_loop-Idle : (turns : ℕ) → Hoare Ahead (λ _. Idle) (recv_loop turns)
  unfolding recv_loop
  recv_loop-Idle zero = Hoare-wait
  recv_loop-Idle (suc turns) =
      Hoare-bind (λ _. Ahead) _ _ recv_turn-Ahead
        λ again. Hoare-if again _ _ (λ _. recv_loop-Idle turns) λ _. loop_end-Idle

  close_by-Closing : (mode : Mode) → Hoare Closing (λ _. Closing) (close_by mode)
  unfolding close_by
  close_by-Closing no_mode = Hoare-pure tt λ o h. h
  close_by-Closing tcp_mode = Hoare-zoom _ _ _ (Hoare-any _) λ o a t h _. tcp-Closing o t h
  close_by-Closing ws_mode = Hoare-zoom _ _ _ (Hoare-any _) λ o a t h _. ws-Closing o t h

  pub missed-kept : {P : EngineWorker → Type 0} → Hoare P (λ _. P) missed
  unfolding missed
  missed-kept = record { at = λ w h. h }

  join-Idle :
      (thread : Thread) → Hoare (λ o. Closing o × (o.rx_thread ≡ thread)) (λ _. Idle) (join thread)
  unfolding join
  join-Idle no_thread = Hoare-pure tt λ o h. Closing-Idle o h.0 (ap is_in_loop h.1)
  join-Idle in_loop =
      Hoare-bind (λ _ o. Closing o × (o.rx_thread ≡ in_loop)) _ _ missed-kept
        λ asleep. Hoare-then_gets _ _ λ turns.
          Hoare-bind (λ _. Idle) _ _
            (Hoare-if asleep _ _ (λ _. Hoare-wait)
              λ _. Hoare-strengthen _ (recv_loop-Idle turns) λ o h. Closing-Ahead o h.0.0 h.0.1)
            λ _. Hoare-modify _ Idle-unthreaded
  join-Idle ended = Hoare-modify _ λ o h. Idle-unthreaded o (Closing-Idle o h.0 (ap is_in_loop h.1))

  pub disconnect_from_peer-Idle : Hoare (λ o. Idle o ⊎ Active o) (λ _. Idle) disconnect_from_peer
  unfolding disconnect_from_peer
  disconnect_from_peer-Idle = Hoare-then_modify {P' = Closing} _ _ not_running-Closing (
      Hoare-then_gets _ _ λ mode.
        Hoare-bind (λ _. Closing) _ _ (Hoare-strengthen _ (close_by-Closing mode) λ o h. h.0)
          λ _. Hoare-then_gets _ _ λ thread.
            Hoare-bind (λ _. Idle) _ _ (join-Idle thread)
              λ _. Hoare-then_gets _ _ λ there.
                Hoare-bind (λ _. Idle) _ _
                  (Hoare-if there _ _
                    (λ is_there.
                      Hoare-absurd _
                        λ o h. contradiction o.is_connected there h.0.not_connected h.1 is_there)
                    λ _. Hoare-pure tt λ o h. h.0)
                  λ _. Hoare-modify _ (Idle-mode no_mode))
