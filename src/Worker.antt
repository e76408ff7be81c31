-- ===== src/Worker.antt =====
-- gui/EngineWorker.h and gui/EngineWorker.cpp: the object behind the window, which owns the engine,
-- the two transports and the thread that receives.
pub mod Endpoint
pub mod Receive
pub mod Disconnect
pub mod Connect
pub mod Steps
use pqc_messaging_app.Prelude.{
  ℕ, Bool, true, false, Option, none, some, List, [], ◌∷◌, ◌++◌, Bytes, codes, take,
}
use pqc_messaging_app.Exec.{ok, World, M, pure, modify, zoom}
use pqc_messaging_app.Exec.Reaches.{at}
use pqc_messaging_app.Engine.{ConnectionEngine}
use pqc_messaging_app.Engine.Handshake.{Conn}
use pqc_messaging_app.Tcp.Transport.{TcpTransport}
use pqc_messaging_app.WebSocket.{WebSocketTransport, Signal}

-- An `int`.
pub data ℤ : Type 0 where
  pos : ℕ → ℤ
  negsuc : ℕ → ℤ

-- What the worker uses of Qt. A QString is its UTF-8 text; `to_int` is `none` where `ok` is false;
-- `number` is how a number is put into a text; `coming i` is what the i-th socket
-- will emit, pass by pass of its thread's event loop.
pub record Qt : Type 1 where
  pub trimmed : Bytes → Bytes
  pub to_int : Bytes → Option ℤ
  pub number : ℕ → Bytes
  pub QUrl : Type 0
  pub url : Bytes → QUrl
  pub scheme : QUrl → Bytes
  pub set_scheme : Bytes → QUrl → QUrl
  pub path : QUrl → Bytes
  pub set_path : Bytes → QUrl → QUrl
  pub set_query : List (Bytes × Bytes) → QUrl → QUrl
  pub to_string : QUrl → Bytes
  pub coming : ℕ → List (List Signal)

pub data Mode : Type 0 where
  no_mode : Mode
  tcp_mode : Mode
  ws_mode : Mode

-- `rxThread_`: no thread; a thread in `recvLoop`; a thread that has left it and is not joined.
pub data Thread : Type 0 where
  no_thread : Thread
  in_loop : Thread
  ended : Thread

-- The signals that the worker emits.
pub data Emitted : Type 0 where
  status : Bytes → Emitted
  error : Bytes → Emitted
  connected : Emitted
  disconnected : Emitted
  identity_ready : Bytes → Emitted
  message_received : Bytes → Emitted

-- `emitted` has what was emitted so far.
pub record EngineWorker : Type 0 where
  pub mode : Mode
  pub engine : ConnectionEngine
  pub tcp : TcpTransport
  pub ws : Option WebSocketTransport
  pub running : Bool
  pub is_connected : Bool
  pub rx_thread : Thread
  pub emitted : List Emitted

unfoldable pub emit : Emitted → M EngineWorker Unit
emit s = modify (λ w. record w { emitted = w.emitted ++ (s ∷ []) })

unfoldable pub shorten_fingerprint : Bytes → Bytes
shorten_fingerprint fingerprint = take 16 fingerprint ++ codes "..."

abbrev put_ws : {A : Type 0} → A × World WebSocketTransport → A × World (Option WebSocketTransport)
put_ws (r, v) = (r, at v.machine (some v.obj))

-- `ws_ && ws_->f(...)`: a call on the transport, or an answer where there is none.
abbrev pub on_pointer : {A : Type 0} → M WebSocketTransport A → A → M (Option WebSocketTransport) A
on_pointer m absent w = elim w.obj [ none ↦ (ok absent, w) | some t ↦ put_ws (m (at w.machine t)) ]

abbrev pub on_engine : {A : Type 0} → M ConnectionEngine A → M EngineWorker A
on_engine = zoom (λ (w : EngineWorker). w.engine) (λ e w. record w { engine = e })

abbrev pub on_tcp : {A : Type 0} → M TcpTransport A → M EngineWorker A
on_tcp = zoom (λ (w : EngineWorker). w.tcp) (λ t w. record w { tcp = t })

abbrev pub on_ws : {A : Type 0} → M WebSocketTransport A → A → M EngineWorker A
on_ws m absent =
    zoom (λ (w : EngineWorker). w.ws) (λ t w. record w { ws = t }) (on_pointer m absent)

-- The engine with the transport that the callbacks of a handshake use.
abbrev pub over_tcp : {A : Type 0} → M (Conn TcpTransport) A → M EngineWorker A
over_tcp =
    zoom (λ (w : EngineWorker). record { engine = w.engine; net = w.tcp })
      (λ c w. record w { engine = c.engine; tcp = c.net })

abbrev pub over_ws : {A : Type 0} → M (Conn (Option WebSocketTransport)) A → M EngineWorker A
over_ws =
    zoom (λ (w : EngineWorker). record { engine = w.engine; net = w.ws })
      (λ c w. record w { engine = c.engine; ws = c.net })
