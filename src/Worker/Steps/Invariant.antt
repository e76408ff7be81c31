-- ===== src/Worker/Steps/Invariant.antt =====
-- gui/EngineWorker.cpp: what holds of a worker at any time.
use pqc_messaging_app.Prelude.{
  ◌≡◌, refl, ap, subst, true, false, inl, inr, Option, none, some, arith, Bytes,
}
use pqc_messaging_app.Exec.{Result, ok, World}
use pqc_messaging_app.Exec.Hoare.{
  Hoare, Met, Hoare-pure, Hoare-bind, Hoare-then_gets, Hoare-strengthen, Hoare-weaken, Hoare-zoom,
  Hoare-any, Hoare-zoom_still,
}
use pqc_messaging_app.Platform.{Platform}
use pqc_messaging_app.Protobuf.{Protobuf}
use pqc_messaging_app.Engine.{Outcome, success, failure}
use pqc_messaging_app.Engine.Message.Returns.{parse_and_decrypt_message-returns}
use pqc_messaging_app.Worker.{Qt, Mode, no_mode, tcp_mode, ws_mode, in_loop, EngineWorker, emit}
use pqc_messaging_app.Worker.Receive.{shown, recv_by, received, recv_turn}
use pqc_messaging_app.Worker.Steps.{
  Slot, connect_slot, host_slot, relay_connect_slot, relay_host_slot, disconnect_slot, send_slot,
  run_slot, Step, called, turned, left, signalled, arrived, Reachable, started, stepped,
}
use pqc_messaging_app.Worker.Steps.Triples.{
  is_in_loop, Ahead, recv_turn-Ahead, loop_end-Idle, disconnect_from_peer-Idle,
}
use pqc_messaging_app.Worker.Steps.Slots.{
  Settled, net-Settled, Settled-quiet, start_connect-Settled, start_host-Settled,
  start_relay_connect-Settled, start_relay_host-Settled, send_message-Settled,
}

met :
    {A : Type 0} (Q : A → EngineWorker → Type 0) (r : Result A × World EngineWorker) (a : A)
    (w : World EngineWorker)
    → Met Q r
    → r ≡ (ok a, w)
    → Q a w.obj
met Q r a w h e = subst (Met Q) e h

module _ ⦃p : Platform⦄ ⦃g : Protobuf⦄ where
  -- The turns of the loop while the session lasts.
  shown-Settled : (o : Outcome Bytes) → Hoare Settled (λ _. Settled) (emit (shown o))
  unfolding shown
  shown-Settled (failure err) = Settled-quiet _ refl refl
  shown-Settled (success text) = Settled-quiet _ refl refl

  recv_by-Settled : (mode : Mode) → Hoare Settled (λ _. Settled) (recv_by mode)
  unfolding recv_by
  recv_by-Settled no_mode = Hoare-pure none λ o h. h
  recv_by-Settled tcp_mode = Hoare-zoom _ _ _ (Hoare-any _) λ o a t h _. net-Settled o t o.ws h
  recv_by-Settled ws_mode = Hoare-zoom _ _ _ (Hoare-any _) λ o a t h _. net-Settled o o.tcp t h

  received-Settled : (got : Option Bytes) → Hoare Settled (λ _. Settled) (received got)
  unfolding received
  received-Settled none = Hoare-pure false λ o h. h
  received-Settled (some frame) =
      Hoare-bind (λ _. Settled) _ _
        (Hoare-zoom_still _ _ _ (parse_and_decrypt_message-returns frame) λ o h. h)
        λ outcome.
          Hoare-bind (λ _. Settled) _ _ (shown-Settled outcome) λ _. Hoare-pure true λ o h. h

  recv_turn-Settled : Hoare Settled (λ _. Settled) recv_turn
  unfolding recv_turn
  recv_turn-Settled = Hoare-then_gets _ _ λ mode.
      Hoare-bind (λ _. Settled) _ _ (Hoare-strengthen _ (recv_by-Settled mode) λ o h. h.0)
        λ got. received-Settled got

Settled-Ahead : (o : EngineWorker) → Settled o → o.rx_thread ≡ in_loop → Ahead o
Settled-Ahead o (inl h) e = ground (arith, ap is_in_loop e, h.not_looping)
Settled-Ahead o (inr h) e = h.one_ahead

module _ ⦃p : Platform⦄ ⦃g : Protobuf⦄ ⦃q : Qt⦄ where
  slot-Settled : (s : Slot) → Hoare Settled (λ _. Settled) (run_slot s)
  unfolding run_slot
  slot-Settled (connect_slot endpoint password) = start_connect-Settled endpoint password
  slot-Settled (host_slot port password) = start_host-Settled port password
  slot-Settled (relay_connect_slot url peer password) =
      start_relay_connect-Settled url peer password
  slot-Settled (relay_host_slot url me password) = start_relay_host-Settled url me password
  slot-Settled disconnect_slot = Hoare-weaken _ disconnect_from_peer-Idle λ _ o h. inl h
  slot-Settled (send_slot text) = send_message-Settled text

  Step-Settled : (w w' : World EngineWorker) → Step w w' → Settled w.obj → Settled w'.obj
  Step-Settled _ _ (called s w w' e) h = met _ _ tt w' ((slot-Settled s).at w h) e
  Step-Settled _ _ (turned w w' t e) h = met _ _ true w' (recv_turn-Settled.at w h) e
  Step-Settled _ _ (left w w' w'' t e e') h = inl (
      met _ _ tt w''
        (loop_end-Idle.at w' (met _ _ false w' (recv_turn-Ahead.at w (Settled-Ahead w.obj h t)) e))
        e')
  Step-Settled _ _ (signalled w t s e) h = net-Settled w.obj w.obj.tcp _ h
  Step-Settled _ _ (arrived w bytes) h = net-Settled w.obj _ w.obj.ws h

  pub Reachable-Settled : (w : World EngineWorker) → Reachable w → Settled w.obj
  Reachable-Settled _ (started machine engine tcp) = inl (record {
    not_connected = refl;
    not_running = refl;
    not_looping = refl;
    balanced = (refl, refl);
  })
  Reachable-Settled _ (stepped w w' r s) = Step-Settled w w' s (Reachable-Settled w r)
