-- ===== src/Worker/Receive.antt =====
-- gui/EngineWorker.cpp: `sendMessage` and `recvLoop`.
pub mod Turns
use pqc_messaging_app.Prelude.{
  ℕ, zero, suc, Bool, true, false, not, Option, none, some, ◌++◌, Bytes, codes, if◌then◌else◌,
}
use pqc_messaging_app.Exec.{M, pure, gets, modify, wait_for_ever, ◌>>=◌, ◌>>◌}
use pqc_messaging_app.Platform.{Platform}
use pqc_messaging_app.Protobuf.{Protobuf}
use pqc_messaging_app.Engine.{Outcome, success, failure}
use pqc_messaging_app.Engine.Message.{encrypt_and_serialize_message, parse_and_decrypt_message}
use pqc_messaging_app.Tcp.Transport.{send_frame, recv_frame}
use pqc_messaging_app.WebSocket
use pqc_messaging_app.Worker.{
  Mode, no_mode, tcp_mode, ws_mode, Thread, ended, Emitted, status, error, disconnected,
  message_received, EngineWorker, emit, on_engine, on_tcp, on_ws,
}

-- What a frame is to the user.
unfoldable pub shown : Outcome Bytes → Emitted
shown (failure err) = status (codes "Dropping message: " ++ codes err)
shown (success plaintext) = message_received plaintext

module _ ⦃p : Platform⦄ ⦃g : Protobuf⦄ where
  unfoldable pub recv_by : Mode → M EngineWorker (Option Bytes)
  recv_by no_mode = pure none
  recv_by tcp_mode = on_tcp recv_frame
  recv_by ws_mode = on_ws WebSocket.recv none

  unfoldable pub received : Option Bytes → M EngineWorker Bool
  unfolding shown
  received none = pure false
  received (some frame) = do
    outcome ← on_engine (parse_and_decrypt_message frame)
    emit (shown outcome)
    pure true

  -- One turn of `recvLoop`, and whether another follows.
  unfoldable pub recv_turn : M EngineWorker Bool
  unfolding recv_by received
  recv_turn = do mode ← gets (λ w. w.mode); got ← recv_by mode; received got

  -- What `recvLoop` does behind its loop; with it the thread ends.
  unfoldable pub loop_end : M EngineWorker Unit
  loop_end = do
    modify (λ w. record w { is_connected = false; running = false })
    emit disconnected
    modify (λ w. record w { rx_thread = ended })

  -- `recvLoop` for as many turns; where they are too few it is still in its loop.
  unfoldable pub recv_loop : ℕ → M EngineWorker Unit
  recv_loop zero = wait_for_ever
  recv_loop (suc turns) =
      let later = recv_loop turns in recv_turn >>= λ again. if again then later else loop_end

  unfoldable pub send_by : Mode → Bytes → M EngineWorker Bool
  send_by no_mode frame = pure false
  send_by tcp_mode frame = on_tcp (send_frame frame)
  send_by ws_mode frame = on_ws (WebSocket.send frame) false

  unfoldable pub send_sealed : Outcome Bytes → M EngineWorker Unit
  unfolding send_by
  send_sealed (failure err) = emit (error (codes "Send error: " ++ codes err))
  send_sealed (success frame) = do
    mode ← gets (λ w. w.mode)
    sent ← send_by mode frame
    if not sent then emit (error (codes "Send failed")) else pure tt

  unfoldable pub send_message : Bytes → M EngineWorker Unit
  unfolding send_sealed
  send_message text = do
    there ← gets (λ w. w.is_connected)
    if not there
        then emit (error (codes "Not connected."))
        else (on_engine (encrypt_and_serialize_message text (codes "gui") (codes "peer"))
            >>= send_sealed)
