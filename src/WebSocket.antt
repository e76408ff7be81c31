-- ===== src/WebSocket.antt =====
-- ws_transport.h and ws_transport.cpp: a QWebSocket with a queue of messages, for blocking use.
pub mod Queue
pub mod Waiting
use pqc_messaging_app.Prelude.{
  ◌≡◌, Bool, true, false, not, Option, none, some, List, [], ◌∷◌, ◌++◌, ◌||◌, Bytes, is_empty,
  if◌then◌else◌,
}
use pqc_messaging_app.Exec.{ok, hang, Machine, World, M, pure, gets, modify, ◌>>=◌, ◌>>◌}
use pqc_messaging_app.Platform.{Platform}
use pqc_messaging_app.Platform.Calls.{counted}

-- The signals of the socket that the constructor connects to a slot.
pub data Signal : Type 0 where
  connected : Signal
  disconnected : Signal
  binary_message_received : Bytes → Signal
  error_occurred : Signal

-- `url`, `sent` and `coming` are the QWebSocket's part: the URL it was told to open, what it was
-- given to send, whether it was told to close, and what it will emit when the event loop of its
-- thread runs: the signals of each pass of that loop, in their order.
-- `is_connected` and `is_closed` are `connected_` and `closed_`.
pub record WebSocketTransport : Type 0 where
  pub url : Bytes
  pub sent : List Bytes
  pub socket_closed : Bool
  pub coming : List (List Signal)
  pub is_connected : Bool
  pub is_closed : Bool
  pub inbox : List Bytes

-- A new transport, on a socket that will emit the signals.
abbrev pub created : List (List Signal) → WebSocketTransport
created coming = record {
  url = [];
  sent = [];
  socket_closed = false;
  coming = coming;
  is_connected = false;
  is_closed = false;
  inbox = [];
}

abbrev pub shut : WebSocketTransport → WebSocketTransport
shut t = record t { is_connected = false; is_closed = true }

-- The slots.
unfoldable pub on_signal : Signal → WebSocketTransport → WebSocketTransport
on_signal connected t = record t { is_connected = true }
on_signal disconnected t = shut t
on_signal (binary_message_received msg) t = record t { inbox = t.inbox ++ (msg ∷ []) }
on_signal error_occurred t = shut t

-- Whether the signal quits the event loop of `connect_url`.
unfoldable pub quits : Signal → Bool
quits (binary_message_received msg) = false
quits _ = true

-- A pass of the event loop, which runs all the slots of what is there, and whether it is the last:
-- `quit` lets the pass come to its end.
unfoldable pub run_slots : List Signal → WebSocketTransport → WebSocketTransport
run_slots [] t = t
run_slots (s ∷ ss) t = run_slots ss (on_signal s t)

unfoldable pub any_quits : List Signal → Bool
any_quits [] = false
any_quits (s ∷ ss) = quits s || any_quits ss

-- `loop.exec()`: passes until one quits the loop, or the timer does.
unfoldable pub event_loop : List (List Signal) → WebSocketTransport → WebSocketTransport
unfolding run_slots any_quits
event_loop [] t = record t { coming = [] }
event_loop (pass ∷ later) t =
    let on = event_loop later (run_slots pass t) in
    if any_quits pass then record (run_slots pass t) { coming = later } else on

unfoldable pub connect_url : Bytes → M WebSocketTransport Bool
connect_url url =
    modify (λ t. event_loop t.coming (record t { url = url })) >> gets (λ t. t.is_connected)

module _ ⦃p : Platform⦄ where
  -- `sendBinaryMessage` answers -1 where it is refused.
  unfoldable pub send_binary_message : Bytes → M WebSocketTransport Bool
  send_binary_message data' w = if p.fails w.calls then (ok false, counted w) else (
    ok true,
    counted (record w { obj = record w.obj { sent = w.obj.sent ++ (data' ∷ []) } }),
  )

  unfoldable pub send : Bytes → M WebSocketTransport Bool
  unfolding send_binary_message
  send data' = do
    is_open ← gets (λ t. t.is_connected)
    if not is_open then pure false else send_binary_message data'

-- What `recv` waits for.
unfoldable pub is_ready : WebSocketTransport → Bool
is_ready t = not (is_empty t.inbox) || t.is_closed

-- The value of a `recv` whose wait is over: the oldest message, or `none` where it returns false.
unfoldable pub front : List Bytes → Option Bytes
front [] = none
front (msg ∷ later) = some msg

unfoldable pub pop : WebSocketTransport → WebSocketTransport
pop t = elim t.inbox [ [] ↦ t | ◌∷◌ msg later ↦ record t { inbox = later } ]

-- `recv` in the thread whose event loop runs the slots: while it waits on the condition variable,
-- no slot runs there, so that a wait that does not end at once never ends.
unfoldable pub recv : M WebSocketTransport (Option Bytes)
recv w =
    if is_ready w.obj then (ok (front w.obj.inbox), record w { obj = pop w.obj }) else (hang, w)

-- `if (connected_) socket_.close();` and the flags. What the socket emits then are signals.
abbrev pub closed : WebSocketTransport → WebSocketTransport
closed t = record (shut t) { socket_closed = t.socket_closed || t.is_connected }

unfoldable pub close : M WebSocketTransport Unit
close = modify closed

-- The message of a signal, and of a `recv`.
unfoldable pub carried : Signal → List Bytes
carried (binary_message_received msg) = msg ∷ []
carried _ = []

abbrev pub taken : Option Bytes → List Bytes
taken none = []
taken (some msg) = msg ∷ []

-- A transport that one thread's event loop serves and any thread uses, with what the socket
-- received and what `recv` returned so far. A `recv` in another thread than the event loop's
-- takes its turn when its wait is over.
pub data Reachable : WebSocketTransport → List Bytes → List Bytes → Type 0 where
  opened : (coming : List (List Signal)) → Reachable (created coming) [] []
  signals :
      (t : WebSocketTransport) (arrived returned : List Bytes) (s : Signal)
      → Reachable t arrived returned
      → Reachable (on_signal s t) (arrived ++ carried s) returned
  receives :
      (t : WebSocketTransport) (arrived returned : List Bytes)
      → Reachable t arrived returned
      → is_ready t ≡ true
      → Reachable (pop t) arrived (returned ++ taken (front t.inbox))
  closes :
      (t : WebSocketTransport) (arrived returned : List Bytes)
      → Reachable t arrived returned
      → Reachable (closed t) arrived returned
