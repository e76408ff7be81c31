-- ===== src/Examples/Gui.antt =====
-- The window's worker and its transports at concrete inputs.
use pqc_messaging_app.Prelude.{
  ◌⊎◌, ◌≡◌, refl, true, false, some, none, Option, [], ◌∷◌, ◌++◌, Bytes, codes, ◌↔◌, ◌==◌,
  if◌then◌else◌,
}
use pqc_messaging_app.Exec.{ok, hang, World, ◌>>=◌, ◌>>◌}
use pqc_messaging_app.Exec.Reaches.{Reaches, Reaches-weaken, at}
use pqc_messaging_app.Identity.{fingerprint_hex}
use pqc_messaging_app.Engine.{success, load_or_create_identity}
use pqc_messaging_app.Engine.Identities.{
  IsLoaded, load_or_create-load_or_create, first_run, Created-is_loaded,
}
use pqc_messaging_app.Engine.Message.{parse_and_decrypt_message}
use pqc_messaging_app.Engine.Message.Forged.{Forged, Intact, parse_and_decrypt_message-Intact}
use pqc_messaging_app.Platform.Calls.{holds}
use pqc_messaging_app.Tcp.{Socket}
use pqc_messaging_app.Tcp.Transport.{TcpTransport}
use pqc_messaging_app.WebSocket
use pqc_messaging_app.WebSocket.{
  WebSocketTransport, Signal, binary_message_received, created, on_signal, connect_url, close,
}
use pqc_messaging_app.WebSocket.Queue.{Reachable-queue}
use pqc_messaging_app.WebSocket.Waiting.{
  recv_times, messages, received, emptied, connect_url-recv_times,
}
use pqc_messaging_app.Worker.{Qt, ℤ, pos, ended, EngineWorker, emit}
use pqc_messaging_app.Worker.Endpoint.{parse_endpoint}
use pqc_messaging_app.Worker.Endpoint.Parsing.{IsEndpoint, parse_endpoint_iff}
use pqc_messaging_app.Worker.Receive
use pqc_messaging_app.Worker.Receive.Turns.{Told, received-Told}
use pqc_messaging_app.Worker.Connect.{start_relay_host}
use pqc_messaging_app.Worker.Connect.Waiting.{start_relay_host-hangs}
use pqc_messaging_app.Worker.Steps.{constructed, send_slot, run_slot}
use pqc_messaging_app.Worker.Steps.Leftover.{Leftover, run_slot-Leftover}
use pqc_messaging_app.Examples.Foreign.{toy, toy-Healthy, toy_proto, machine, world}
use pqc_messaging_app.Examples.Keys.{alice, toy-IdentityLaws}

abbrev digit : Bytes → Option ℤ
digit (d ∷ []) = if d == 55 then some (pos 7) else none
digit _ = none

-- Texts without white space around them, one port, URLs as they are; each socket connects, and
-- then a message arrives.
abbrev pub toy_qt : Qt
toy_qt = record {
  trimmed = λ s. s;
  to_int = digit;
  number = λ n. n ∷ [];
  QUrl = Bytes;
  url = λ s. s;
  scheme = λ u. [];
  set_scheme = λ s u. u;
  path = λ u. [];
  set_path = λ s u. u ++ s;
  set_query = λ q u. u;
  to_string = λ u. u;
  coming = λ i. (WebSocket.connected ∷ []) ∷ (binary_message_received (codes "hello") ∷ []) ∷ [];
}

abbrev no_socket : Socket
no_socket = record { sent = []; arrived = []; at_end = false }

abbrev pub no_transport : TcpTransport
no_transport = record { is_open = false; socket = no_socket; coming = no_socket }

abbrev pub newborn : EngineWorker
newborn = constructed alice no_transport

load_or_create-load_or_create_example :
    Reaches
      (λ o v.
        (o ≡ success (fingerprint_hex ⦃p = toy⦄ v.obj.identity.public_key, true))
        × Reaches
            (IsLoaded ⦃p = toy⦄ toy-Healthy toy-IdentityLaws v.obj.identity)
            (load_or_create_identity ⦃p = toy⦄ "client.id" (codes "pw") (at v.machine alice)))
      (load_or_create_identity ⦃p = toy⦄ "client.id" (codes "pw") (world alice))
load_or_create-load_or_create_example =
    load_or_create-load_or_create ⦃p = toy⦄ toy-Healthy toy-IdentityLaws "client.id" (codes "pw")
      (world alice) alice refl

abbrev one_message : WebSocketTransport
one_message = on_signal (binary_message_received (codes "hi")) (created [])

Reachable-queue_example : [] ++ one_message.inbox ≡ codes "hi" ∷ []
unfolding on_signal WebSocket.carried
Reachable-queue_example = Reachable-queue one_message (codes "hi" ∷ []) [] (
    WebSocket.signals (created []) [] [] (binary_message_received (codes "hi"))
      (WebSocket.opened []))

connect_url-recv_times_example :
    ((connect_url (codes "ws:") >> recv_times 1)
        (at machine (created ((WebSocket.connected ∷ messages (codes "m" ∷ [])) ∷ [])))
      ≡ (ok (received (codes "m" ∷ [])), at machine (emptied (codes "ws:") [])))
    × (((connect_url (codes "ws:") >> recv_times 2)
          (at machine (created ((WebSocket.connected ∷ messages (codes "m" ∷ [])) ∷ [])))).0
        ≡ hang)
connect_url-recv_times_example = connect_url-recv_times (codes "ws:") (codes "m" ∷ []) [] machine

parse_endpoint_iff_example :
    (parse_endpoint ⦃q = toy_qt⦄ (codes "h:7") ≡ some (codes "h", 7))
    ↔ IsEndpoint ⦃q = toy_qt⦄ (codes "h:7") (codes "h") 7
parse_endpoint_iff_example = parse_endpoint_iff ⦃q = toy_qt⦄ (codes "h:7") (codes "h") 7

parse_and_decrypt_message-Intact_example :
    Forged ⦃p = toy⦄ ⦃g = toy_proto⦄ (codes "junk") (world alice)
    ⊎ Reaches
        (Intact (world alice))
        (parse_and_decrypt_message ⦃p = toy⦄ ⦃g = toy_proto⦄ (codes "junk") (world alice))
unfolding holds
parse_and_decrypt_message-Intact_example =
    parse_and_decrypt_message-Intact ⦃p = toy⦄ ⦃g = toy_proto⦄ (codes "junk") (world alice) refl

received-Told_example :
    Forged ⦃p = toy⦄ ⦃g = toy_proto⦄ (codes "junk") (world alice)
    ⊎ Reaches
        (Told ⦃p = toy⦄ ⦃g = toy_proto⦄ (world newborn) (codes "junk"))
        (Receive.received ⦃p = toy⦄ ⦃g = toy_proto⦄ (some (codes "junk")) (world newborn))
unfolding holds
received-Told_example = received-Told ⦃p = toy⦄ ⦃g = toy_proto⦄ (codes "junk") (world newborn) refl

abbrev abandoned : EngineWorker
abandoned = record newborn { rx_thread = ended }

start_relay_host-hangs_example :
    (start_relay_host ⦃p = toy⦄ ⦃g = toy_proto⦄ ⦃q = toy_qt⦄
      (codes "ws:")
      (codes "alice")
      (codes "pw")
      (world newborn)).0
    ≡ hang
start_relay_host-hangs_example =
    start_relay_host-hangs ⦃p = toy⦄ ⦃g = toy_proto⦄ ⦃q = toy_qt⦄ (codes "ws:") (codes "alice")
      (codes "pw") (world newborn) ((binary_message_received (codes "hello") ∷ []) ∷ []) refl
      (Reaches-weaken _
        (first_run ⦃p = toy⦄ toy-Healthy toy-IdentityLaws "client.id" (codes "pw") (world alice)
          refl)
        λ o v (is, c). (
          (_, is),
          Created-is_loaded ⦃p = toy⦄ toy-Healthy toy-IdentityLaws "client.id" (codes "pw") _ c,
        ))
      λ i. refl

-- A slot of a worker without a connection, by what it computes to.
abbrev complained : World EngineWorker
complained =
    (run_slot ⦃p = toy⦄ ⦃g = toy_proto⦄ ⦃q = toy_qt⦄ (send_slot (codes "hi")) (world abandoned)).1

run_slot-Leftover_example : Leftover complained.obj
unfolding run_slot Receive.send_message emit ◌>>=◌
run_slot-Leftover_example =
    run_slot-Leftover ⦃p = toy⦄ ⦃g = toy_proto⦄ ⦃q = toy_qt⦄ (send_slot (codes "hi"))
      (world abandoned) complained refl (refl, refl) refl

abbrev pub sent_early : World EngineWorker
sent_early =
    (run_slot ⦃p = toy⦄ ⦃g = toy_proto⦄ ⦃q = toy_qt⦄ (send_slot (codes "hi")) (world newborn)).1
