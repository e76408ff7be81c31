-- ===== src/Worker/Disconnect.antt =====
-- gui/EngineWorker.cpp: `disconnectFromPeer`.
use pqc_messaging_app.Prelude.{
  ℕ, suc, Bool, false, Option, none, some, length, ◌&&◌, is_empty, if◌then◌else◌,
}
use pqc_messaging_app.Exec.{ok, M, wait_for_ever, pure, gets, modify, ◌>>=◌, ◌>>◌}
use pqc_messaging_app.Platform.{Platform}
use pqc_messaging_app.Platform.Calls.{counted}
use pqc_messaging_app.Protobuf.{Protobuf}
use pqc_messaging_app.Tcp.Transport
use pqc_messaging_app.WebSocket
use pqc_messaging_app.WebSocket.{WebSocketTransport}
use pqc_messaging_app.Worker.{
  Mode, no_mode, tcp_mode, ws_mode, Thread, no_thread, in_loop, ended, disconnected, EngineWorker,
  emit, on_tcp, on_ws,
}
use pqc_messaging_app.Worker.Receive.{recv_loop}

-- The turns that are left to a thread whose transport is closed: one for each message that has
-- arrived, and one that finds no more.
unfoldable pub turns_left : Option WebSocketTransport → ℕ
turns_left none = 1
turns_left (some t) = suc (length t.inbox)

-- Whether the thread waits in the transport's `recv`, or is about to.
unfoldable pub in_recv : Mode → Option WebSocketTransport → Bool
in_recv ws_mode (some t) = is_empty t.inbox
in_recv _ _ = false

module _ ⦃p : Platform⦄ ⦃g : Protobuf⦄ where
  unfoldable pub close_by : Mode → M EngineWorker Unit
  close_by no_mode = pure tt
  close_by tcp_mode = on_tcp Transport.close
  close_by ws_mode = on_ws WebSocket.close tt

  -- `WebSocketTransport::close` sets its flag and notifies without the lock, so that a `recv` that
  -- has found the inbox empty and the flag not set can miss the notification.
  unfoldable pub missed : M EngineWorker Bool
  unfolding in_recv
  missed w = (ok (in_recv w.obj.mode w.obj.ws && p.misses w.calls), counted w)

  -- `if (rxThread_.joinable()) rxThread_.join();`: it waits until the thread has left its loop.
  unfoldable pub join : Thread → M EngineWorker Unit
  unfolding turns_left missed
  join no_thread = pure tt
  join in_loop = do
    asleep ← missed
    turns ← gets (λ w. turns_left w.ws)
    if asleep then wait_for_ever else recv_loop turns
    modify (λ w. record w { rx_thread = no_thread })
  join ended = modify (λ w. record w { rx_thread = no_thread })

  unfoldable pub disconnect_from_peer : M EngineWorker Unit
  unfolding close_by join
  disconnect_from_peer = do
    modify (λ w. record w { running = false })
    mode ← gets (λ w. w.mode)
    close_by mode
    thread ← gets (λ w. w.rx_thread)
    join thread
    there ← gets (λ w. w.is_connected)
    if there
        then (modify (λ w. record w { is_connected = false }) >> emit disconnected)
        else pure tt
    modify (λ w. record w { mode = no_mode })
