-- ===== src/WebSocket/Waiting.antt =====
-- ws_transport.cpp: which waits end.
use pqc_messaging_app.Prelude.{
  ℕ, zero, suc, ◌≡◌, refl, sym, ◌∙◌, ap, true, Option, some, List, [], ◌∷◌, ◌++◌, append-nil,
  append_assoc, Bytes, length,
}
use pqc_messaging_app.Exec.{ok, hang, Machine, M, pure, continue, ◌>>=◌, ◌>>◌}
use pqc_messaging_app.Exec.Reaches.{at}
use pqc_messaging_app.Exec.Hangs.{continue-Hangs}
use pqc_messaging_app.WebSocket.{
  WebSocketTransport, Signal, connected, binary_message_received, created, on_signal, quits,
  run_slots, any_quits, event_loop, connect_url, front, pop, is_ready, recv,
}

abbrev pub recv_times : ℕ → M WebSocketTransport (List (Option Bytes))
recv_times zero = pure []
recv_times (suc n) = do got ← recv; later ← recv_times n; pure (got ∷ later)

abbrev pub messages : List Bytes → List Signal
messages [] = []
messages (msg ∷ later) = binary_message_received msg ∷ messages later

-- The slots of messages, and that they do not quit the loop.
run_slots-messages :
    (msgs : List Bytes) (t : WebSocketTransport)
    → run_slots (messages msgs) t ≡ record t { inbox = t.inbox ++ msgs }
unfolding run_slots on_signal
run_slots-messages [] t = ap (λ inbox. record t { inbox = inbox }) (sym (append-nil t.inbox))
run_slots-messages (msg ∷ msgs) t =
    run_slots-messages msgs (on_signal (binary_message_received msg) t)
    ∙ ap (λ inbox. record t { inbox = inbox }) (append_assoc t.inbox (msg ∷ []) msgs)

abbrev pub received : List Bytes → List (Option Bytes)
received [] = []
received (msg ∷ later) = some msg ∷ received later

-- The state after `connect_url` and as many calls of `recv` as there are messages.
abbrev pub emptied : Bytes → List (List Signal) → WebSocketTransport
emptied url later = record (created later) { url = url; is_connected = true }

waits :
    (inbox : List Bytes) (machine : Machine) (url : Bytes) (later : List (List Signal))
    → (recv_times (length inbox) (at machine (record (emptied url later) { inbox = inbox }))
        ≡ (ok (received inbox), at machine (emptied url later)))
      × ((recv_times
            (suc (length inbox))
            (at machine (record (emptied url later) { inbox = inbox }))).0
          ≡ hang)
unfolding recv is_ready front pop ◌>>=◌
waits [] machine url later = (refl, refl)
waits (msg ∷ inbox) machine url later =
    let rest = waits inbox machine url later in
    (
      ap (λ r. continue r (λ got. pure (some msg ∷ got))) rest.0,
      continue-Hangs _ (λ got. pure (some msg ∷ got)) rest.1,
    )

-- Where a new transport's socket connects and some messages arrive in the same pass of the event
-- loop, `connect_url` and as many calls of `recv` as there are messages, all in the thread of
-- the socket, return the messages in their order, and one call more waits for ever, whatever the
-- socket emits in later passes.
pub connect_url-recv_times :
    (url : Bytes) (msgs : List Bytes) (later : List (List Signal)) (machine : Machine)
    → ((connect_url url >> recv_times (length msgs))
          (at machine (created ((connected ∷ messages msgs) ∷ later)))
        ≡ (ok (received msgs), at machine (emptied url later)))
      × (((connect_url url >> recv_times (suc (length msgs)))
            (at machine (created ((connected ∷ messages msgs) ∷ later)))).0
          ≡ hang)
unfolding connect_url event_loop run_slots any_quits ◌>>=◌ on_signal quits
connect_url-recv_times url msgs later machine =
    simp (run_slots-messages msgs) (waits msgs machine url later)
