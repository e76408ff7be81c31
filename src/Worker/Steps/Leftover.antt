-- ===== src/Worker/Steps/Leftover.antt =====
-- gui/EngineWorker.cpp: a receive thread that has left its loop by itself and was not joined.
use pqc_messaging_app.Prelude.{◌≡◌, Bool, true, false, not, arith, Bytes, ap, subst, is_empty}
use pqc_messaging_app.Exec.{ok, World}
use pqc_messaging_app.Exec.Hoare.{
  Hoare, Met, Hoare-pure, Hoare-raise, Hoare-if, Hoare-absurd, Hoare-bind, Hoare-then_gets,
  Hoare-then_modify, Hoare-strengthen,
}
use pqc_messaging_app.Platform.{Platform}
use pqc_messaging_app.Protobuf.{Protobuf}
use pqc_messaging_app.Worker.{Qt, Mode, Thread, no_thread, in_loop, ended, EngineWorker}
use pqc_messaging_app.Worker.Connect.{assign_thread, session_established, disconnect_first}
use pqc_messaging_app.Worker.Receive.{send_message}
use pqc_messaging_app.Worker.Steps.{
  Slot, connect_slot, host_slot, relay_connect_slot, relay_host_slot, disconnect_slot, send_slot,
  run_slot,
}
use pqc_messaging_app.Worker.Steps.Triples.{Hoare-emit}
use pqc_messaging_app.Worker.Steps.Started.{
  StartRule, start_connect-Q, start_host-Q, start_relay_connect-Q, start_relay_host-Q,
}

-- What `recvLoop` leaves behind.
abbrev pub Leftover : EngineWorker → Type 0
Leftover o = (o.is_connected ≡ false) × (o.rx_thread ≡ ended)

abbrev Left : EngineWorker → Type 0
Left o = o.rx_thread ≡ ended

contradicted : (a b : Bool) → a ≡ false → a ≡ b → not b ≡ false → ⊥
contradicted a b h e h' = ground arith

assign_thread-Leftover :
    (t : Thread)
    → Hoare (λ o. (o.rx_thread ≡ ended) × (o.rx_thread ≡ t)) (λ _. Leftover) (assign_thread t)
unfolding assign_thread
assign_thread-Leftover no_thread = Hoare-absurd _ λ o h. ground (arith, h)
assign_thread-Leftover in_loop = Hoare-raise _
assign_thread-Leftover ended = Hoare-raise _

-- `assign_thread` terminates the program where the old thread is not joined.
assigned :
    (mode : Mode) (line peer : Bytes)
    → Hoare (λ o. o.rx_thread ≡ ended) (λ _. Leftover) (session_established mode line peer)
unfolding session_established
assigned mode line peer =
    Hoare-then_modify {P' = Left} _ _ (λ o h. h)
      (Hoare-bind (λ _. Left) _ _ (Hoare-emit _ λ o h. h)
        λ _.
          Hoare-bind (λ _. Left) _ _
            (Hoare-if (is_empty peer) _ _ (λ _. Hoare-pure tt λ o h. h) λ _. Hoare-emit _ λ o h. h)
            λ _.
              Hoare-bind (λ _. Left) _ _ (Hoare-emit _ λ o h. h)
                λ _. Hoare-then_gets _ _ assign_thread-Leftover)

Leftover-StartRule : StartRule Leftover Leftover
Leftover-StartRule = record {
  kept = λ o engine tcp ws h. h;
  quiet = λ o s hu hd h. h;
  ends = λ o h. h;
  begins = λ mode line peer has_mode. Hoare-strengthen _ (assigned mode line peer) λ o h. h.0.1;
}

-- Every slot but the one that disconnects.
abbrev pub is_disconnect : Slot → Bool
is_disconnect disconnect_slot = true
is_disconnect _ = false

module _ ⦃p : Platform⦄ ⦃g : Protobuf⦄ where
  -- There is no connection, so nothing is disconnected and nothing joined.
  disconnect_first-Leftover : Hoare Leftover (λ _. Leftover) disconnect_first
  unfolding disconnect_first
  disconnect_first-Leftover = Hoare-then_gets _ _ λ there.
      Hoare-if there _ _
        (λ is_there.
          Hoare-absurd _ λ o h. contradicted o.is_connected there h.0.0 h.1 (ap not is_there))
        λ _. Hoare-pure tt λ o h. h.0

  send_message-Leftover : (text : Bytes) → Hoare Leftover (λ _. Leftover) (send_message text)
  unfolding send_message
  send_message-Leftover text = Hoare-then_gets _ _ λ there.
      Hoare-if (not there) _ _ (λ _. Hoare-emit _ λ o h. h.0)
        λ is_there. Hoare-absurd _ λ o h. contradicted o.is_connected there h.0.0 h.1 is_there

module _ ⦃p : Platform⦄ ⦃g : Protobuf⦄ ⦃q : Qt⦄ where
  slot-Leftover : (s : Slot) → is_disconnect s ≡ false → Hoare Leftover (λ _. Leftover) (run_slot s)
  unfolding run_slot
  slot-Leftover (connect_slot endpoint password) _ =
      start_connect-Q Leftover-StartRule disconnect_first-Leftover endpoint password
  slot-Leftover (host_slot port password) _ =
      start_host-Q Leftover-StartRule disconnect_first-Leftover port password
  slot-Leftover (relay_connect_slot url peer password) _ =
      start_relay_connect-Q Leftover-StartRule disconnect_first-Leftover url peer password
  slot-Leftover (relay_host_slot url me password) _ =
      start_relay_host-Q Leftover-StartRule disconnect_first-Leftover url me password
  slot-Leftover disconnect_slot e = ground (arith, e)
  slot-Leftover (send_slot text) _ = send_message-Leftover text

  -- After the receive thread has left its loop by itself, no slot but `disconnectFromPeer`
  -- that returns leads to a connection, and none joins the thread.
  pub run_slot-Leftover :
      (s : Slot) (w w' : World EngineWorker)
      → is_disconnect s ≡ false
      → Leftover w.obj
      → run_slot s w ≡ (ok tt, w')
      → Leftover w'.obj
  run_slot-Leftover s w w' other h e =
      subst (Met (λ _. Leftover)) e ((slot-Leftover s other).at w h)
