-- ===== src/Worker/Connect.antt =====
-- gui/EngineWorker.cpp: the four slots that make a connection.
pub mod Waiting
use pqc_messaging_app.Prelude.{
  ℕ, Bool, true, false, not, Option, none, some, ◌++◌, Bytes, codes, is_empty, if◌then◌else◌,
}
use pqc_messaging_app.Exec.{ok, World, M, pure, raise, gets, modify, ◌>>=◌, ◌>>◌}
use pqc_messaging_app.Platform.{Platform}
use pqc_messaging_app.Platform.Calls.{counted}
use pqc_messaging_app.Protobuf.{Protobuf}
use pqc_messaging_app.Engine.{Outcome, success, failure, load_or_create_identity}
use pqc_messaging_app.Engine.Handshake.{run_client_handshake, run_server_handshake}
use pqc_messaging_app.Tcp.Transport
use pqc_messaging_app.Tcp.Transport.{send_frame, recv_frame}
use pqc_messaging_app.WebSocket
use pqc_messaging_app.WebSocket.{created}
use pqc_messaging_app.Worker.{
  Qt, Mode, tcp_mode, ws_mode, Thread, no_thread, in_loop, ended, Emitted, status, error, connected,
  identity_ready, EngineWorker, emit, shorten_fingerprint, on_pointer, on_engine, on_tcp, on_ws,
  over_tcp, over_ws,
}
use pqc_messaging_app.Worker.Endpoint.{parse_endpoint, ws_join}
use pqc_messaging_app.Worker.Disconnect.{disconnect_from_peer}

-- `rxThread_ = std::thread(...)`: assigning to a thread that is joinable calls std::terminate, which
-- no handler catches.
unfoldable pub assign_thread : Thread → M EngineWorker Unit
assign_thread no_thread = modify (λ w. record w { rx_thread = in_loop })
assign_thread in_loop = raise "std::terminate"
assign_thread ended = raise "std::terminate"

unfoldable pub identity_text : Bool → Bytes
identity_text true = codes "Identity created."
identity_text false = codes "Identity loaded."

-- The end of each slot, from a handshake that succeeded on.
unfoldable pub session_established : Mode → Bytes → Bytes → M EngineWorker Unit
unfolding assign_thread
session_established mode line peer_fingerprint = do
  modify (λ w. record w { mode = mode; is_connected = true; running = true })
  emit (status (codes "Handshake complete. Session established " ++ line))
  if is_empty peer_fingerprint
      then pure tt
      else emit (status (codes "Peer fingerprint: " ++ shorten_fingerprint peer_fingerprint))
  emit connected
  thread ← gets (λ w. w.rx_thread)
  assign_thread thread

-- `cleanup` closes the transport; `message` begins the error.
unfoldable pub after_handshake :
    Mode → M EngineWorker Unit → Bytes → Bytes → Outcome Bytes → M EngineWorker Unit
unfolding session_established
after_handshake mode cleanup message line (failure err) =
    cleanup >> emit (error (message ++ codes err))
after_handshake mode cleanup message line (success peer_fingerprint) =
    session_established mode line peer_fingerprint

-- `ws_ = std::make_unique<WebSocketTransport>()`
unfoldable pub make_ws : ⦃q : Qt⦄ → M EngineWorker Unit
make_ws ⦃q = q⦄ w =
    (ok tt, counted (record w { obj = record w.obj { ws = some (created (q.coming w.calls)) } }))

unfoldable pub reset_ws : M EngineWorker Unit
reset_ws = modify (λ w. record w { ws = none })

module _ ⦃p : Platform⦄ ⦃g : Protobuf⦄ where
  unfoldable pub disconnect_first : M EngineWorker Unit
  disconnect_first = do
    there ← gets (λ w. w.is_connected)
    if there
        then (emit (status (codes "Already connected; disconnecting first."))
            >> disconnect_from_peer)
        else pure tt

  unfoldable pub with_identity : M EngineWorker Unit → Outcome (Bytes × Bool) → M EngineWorker Unit
  unfolding identity_text
  with_identity rest (failure err) = emit (error (codes "Identity error: " ++ codes err))
  with_identity rest (success (fingerprint, created)) = do
    emit (status (identity_text created))
    emit (identity_ready (shorten_fingerprint fingerprint))
    rest

  unfoldable pub identity_then : Bytes → M EngineWorker Unit → M EngineWorker Unit
  unfolding with_identity
  identity_then password rest = do
    identity ← on_engine (load_or_create_identity "client.id" password)
    with_identity rest identity

  unfoldable pub ws_send : Bytes → M (Option WebSocket.WebSocketTransport) Bool
  ws_send frame = on_pointer (WebSocket.send frame) false

  unfoldable pub ws_recv : M (Option WebSocket.WebSocketTransport) (Option Bytes)
  ws_recv = on_pointer WebSocket.recv none

  -- `if (ws_) ws_->close(); ws_.reset();`
  unfoldable pub drop_ws : M EngineWorker Unit
  unfolding reset_ws
  drop_ws = on_ws WebSocket.close tt >> reset_ws

module _ ⦃p : Platform⦄ ⦃g : Protobuf⦄ ⦃q : Qt⦄ where
  unfoldable pub connect_to : Bytes → Option (Bytes × ℕ) → M EngineWorker Unit
  unfolding after_handshake identity_then
  connect_to password none = emit (error (codes "Invalid endpoint. Use host:port"))
  connect_to password (some (host, port)) = identity_then password (do
    emit (status (codes "Connecting to " ++ host ++ codes ":" ++ q.number port ++ codes " ..."))
    open_now ← on_tcp (Transport.connect host port)
    if not open_now
        then emit (error (codes "TCP connect failed."))
        else (over_tcp (run_client_handshake send_frame recv_frame)
            >>= after_handshake tcp_mode (on_tcp Transport.close)
                (codes "Handshake/connect error: ") (codes "(client/TCP).")))

  unfoldable pub start_connect : Bytes → Bytes → M EngineWorker Unit
  unfolding disconnect_first connect_to
  start_connect endpoint password = do
    disconnect_first
    connect_to password (parse_endpoint endpoint)

  unfoldable pub start_host : ℕ → Bytes → M EngineWorker Unit
  unfolding disconnect_first identity_then after_handshake
  start_host port password = do
    disconnect_first
    identity_then password (do
      emit (status (codes "Hosting on port " ++ q.number port ++ codes " ..."))
      accepted ← on_tcp (Transport.listen_and_accept port)
      if not accepted
          then emit (error (codes "listen/accept failed."))
          else (over_tcp (run_server_handshake send_frame recv_frame)
              >>= after_handshake tcp_mode (on_tcp Transport.close) (codes "Handshake/host error: ")
                  (codes "(host/TCP).")))

  -- `ws_->connect_url(url)` on a new transport, and `rest` where it succeeds.
  unfoldable pub relay_then : Bytes → M EngineWorker Unit → M EngineWorker Unit
  unfolding make_ws reset_ws
  relay_then url rest = do
    make_ws
    open_now ← on_ws (WebSocket.connect_url url) false
    if not open_now
        then (reset_ws >> emit (error (codes "Relay WebSocket connect failed.")))
        else rest

  unfoldable pub start_relay_connect : Bytes → Bytes → Bytes → M EngineWorker Unit
  unfolding disconnect_first identity_then relay_then after_handshake drop_ws ws_send ws_recv
  start_relay_connect relay_url peer_username password = do
    disconnect_first
    identity_then password (do
      emit (status (codes "Relay connect to " ++ ws_join relay_url peer_username ++ codes " ..."))
      relay_then (ws_join relay_url peer_username) (
          over_ws (run_client_handshake ws_send ws_recv)
          >>= after_handshake ws_mode drop_ws (codes "Relay handshake error: ")
              (codes "(relay/client).")))

  unfoldable pub start_relay_host : Bytes → Bytes → Bytes → M EngineWorker Unit
  unfolding disconnect_first identity_then relay_then after_handshake drop_ws ws_send ws_recv
  start_relay_host relay_url my_username password = do
    disconnect_first
    identity_then password (do
      emit (
          status (codes "Relay host (listen) at " ++ ws_join relay_url my_username ++ codes " ..."))
      relay_then (ws_join relay_url my_username) (
          over_ws (run_server_handshake ws_send ws_recv)
          >>= after_handshake ws_mode drop_ws (codes "Relay host handshake error: ")
              (codes "(relay/host).")))
