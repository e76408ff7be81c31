-- ===== src/WebSocket/Queue.antt =====
-- ws_transport.cpp: the inbox as a queue between the socket's slots and the receivers.
use pqc_messaging_app.Prelude.{
  ◌≡◌, refl, sym, ◌∙◌, ap, List, [], ◌∷◌, ◌++◌, append-nil, append_assoc, Bytes,
}
use pqc_messaging_app.WebSocket.{
  WebSocketTransport, Signal, connected, disconnected, binary_message_received, error_occurred,
  on_signal, front, pop, carried, taken, Reachable, opened, signals, receives, closes,
}

on_signal-inbox :
    (s : Signal) (t : WebSocketTransport) → (on_signal s t).inbox ≡ t.inbox ++ carried s
unfolding on_signal carried
on_signal-inbox connected t = sym (append-nil t.inbox)
on_signal-inbox disconnected t = sym (append-nil t.inbox)
on_signal-inbox (binary_message_received msg) t = refl
on_signal-inbox error_occurred t = sym (append-nil t.inbox)

front-pop :
    (inbox : List Bytes) (t : WebSocketTransport)
    → taken (front inbox) ++ (pop (record t { inbox = inbox })).inbox ≡ inbox
unfolding front pop
front-pop [] t = refl
front-pop (msg ∷ later) t = refl

pop-inbox : (t : WebSocketTransport) → taken (front t.inbox) ++ (pop t).inbox ≡ t.inbox
pop-inbox t = front-pop t.inbox t

-- In every state that a transport reaches by signals, finished calls of `recv` and `close`, in
-- any order, what `recv` returned so far, followed by the inbox, is what the socket received, in
-- the same order.
pub Reachable-queue :
    (t : WebSocketTransport) (arrived returned : List Bytes)
    → Reachable t arrived returned
    → returned ++ t.inbox ≡ arrived
Reachable-queue _ _ _ (opened coming) = refl
Reachable-queue _ _ _ (signals t arrived returned s r) =
    ap (λ l. returned ++ l) (on_signal-inbox s t)
    ∙ sym (append_assoc returned t.inbox (carried s))
    ∙ ap (λ l. l ++ carried s) (Reachable-queue t arrived returned r)
Reachable-queue _ _ _ (receives t arrived returned r ready) =
    append_assoc returned (taken (front t.inbox)) (pop t).inbox
    ∙ ap (λ l. returned ++ l) (pop-inbox t)
    ∙ Reachable-queue t arrived returned r
Reachable-queue _ _ _ (closes t arrived returned r) = Reachable-queue t arrived returned r
