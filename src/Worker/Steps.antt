-- ===== src/Worker/Steps.antt =====
-- gui/EngineWorker.cpp: what happens to a worker, in any order. The window's slots run in one
-- thread, `recvLoop` in another, and the network adds to both. A slot and a turn of the loop are
-- taken as one step each; a turn that waits is taken when its wait is over.
pub mod Announced
pub mod Triples
pub mod Started
pub mod Slots
pub mod Leftover
pub mod Growing
pub mod Invariant
use pqc_messaging_app.Prelude.{
  ℕ, ◌+◌, ◌≡◌, Bool, true, false, Option, none, some, List, [], ◌∷◌, ◌++◌, Bytes,
}
use pqc_messaging_app.Exec.{ok, Machine, World, M, pure, ◌>>=◌}
use pqc_messaging_app.Exec.Reaches.{at}
use pqc_messaging_app.Platform.{Platform}
use pqc_messaging_app.Protobuf.{Protobuf}
use pqc_messaging_app.Engine.{ConnectionEngine}
use pqc_messaging_app.Tcp.Transport.{TcpTransport}
use pqc_messaging_app.WebSocket.{WebSocketTransport, Signal, on_signal}
use pqc_messaging_app.Worker.{
  Qt, Mode, no_mode, Thread, no_thread, in_loop, ended, Emitted, EngineWorker,
}
use pqc_messaging_app.Worker.Receive.{recv_turn, loop_end, send_message}
use pqc_messaging_app.Worker.Disconnect.{disconnect_from_peer}
use pqc_messaging_app.Worker.Connect.{
  start_connect, start_host, start_relay_connect, start_relay_host,
}

pub data Slot : Type 0 where
  connect_slot : Bytes → Bytes → Slot
  host_slot : ℕ → Bytes → Slot
  relay_connect_slot : Bytes → Bytes → Bytes → Slot
  relay_host_slot : Bytes → Bytes → Bytes → Slot
  disconnect_slot : Slot
  send_slot : Bytes → Slot

-- A new worker.
abbrev pub constructed : ConnectionEngine → TcpTransport → EngineWorker
constructed engine tcp = record {
  mode = no_mode;
  engine = engine;
  tcp = tcp;
  ws = none;
  running = false;
  is_connected = false;
  rx_thread = no_thread;
  emitted = [];
}

module _ ⦃p : Platform⦄ ⦃g : Protobuf⦄ ⦃q : Qt⦄ where
  unfoldable pub run_slot : Slot → M EngineWorker Unit
  run_slot (connect_slot endpoint password) = start_connect endpoint password
  run_slot (host_slot port password) = start_host port password
  run_slot (relay_connect_slot url peer password) = start_relay_connect url peer password
  run_slot (relay_host_slot url me password) = start_relay_host url me password
  run_slot disconnect_slot = disconnect_from_peer
  run_slot (send_slot text) = send_message text

  pub data Step : World EngineWorker → World EngineWorker → Type 0 where
    called : (s : Slot) (w w' : World EngineWorker) → run_slot s w ≡ (ok tt, w') → Step w w'
    turned :
        (w w' : World EngineWorker)
        → w.obj.rx_thread ≡ in_loop
        → recv_turn w ≡ (ok true, w')
        → Step w w'
    left :
        (w w' w'' : World EngineWorker)
        → w.obj.rx_thread ≡ in_loop
        → recv_turn w ≡ (ok false, w')
        → loop_end w' ≡ (ok tt, w'')
        → Step w w''
    signalled :
        (w : World EngineWorker) (t : WebSocketTransport) (s : Signal)
        → w.obj.ws ≡ some t
        → Step w (at w.machine (record w.obj { ws = some (on_signal s t) }))
    arrived :
        (w : World EngineWorker) (bytes : Bytes)
        → Step w (
            at w.machine (record w.obj {
              tcp = record w.obj.tcp {
                socket = record w.obj.tcp.socket { arrived = w.obj.tcp.socket.arrived ++ bytes };
              };
            }))

  pub data Reachable : World EngineWorker → Type 0 where
    started :
        (machine : Machine) (engine : ConnectionEngine) (tcp : TcpTransport)
        → Reachable (at machine (constructed engine tcp))
    stepped : (w w' : World EngineWorker) → Reachable w → Step w w' → Reachable w'
