-- ===== src/Worker/Connect/Waiting.antt =====
-- gui/EngineWorker.cpp and ws_transport.cpp: a host at the relay waits for the client's hello in the
-- thread whose event loop would bring it.
use pqc_messaging_app.Prelude.{ℕ, ◌≡◌, refl, Bool, true, false, some, List, [], ◌∷◌, Bytes, codes}
use pqc_messaging_app.Exec.{hang, Machine, World, M, zoom, ◌>>=◌}
use pqc_messaging_app.Exec.Reaches.{Reaches, at}
use pqc_messaging_app.Exec.Hangs.{Hangs, Hangs-try_catch, continue-Hangs}
use pqc_messaging_app.Platform.{Platform}
use pqc_messaging_app.Protobuf.{Protobuf}
use pqc_messaging_app.Identity.{is_loaded}
use pqc_messaging_app.Engine.{ConnectionEngine, Outcome, success, failure, load_or_create_identity}
use pqc_messaging_app.Engine.Handshake.{
  run_server_handshake, server_handshake_internal, server_exchange, with_engine,
}
use pqc_messaging_app.WebSocket
use pqc_messaging_app.WebSocket.{WebSocketTransport, Signal, created}
use pqc_messaging_app.WebSocket.Waiting.{emptied}
use pqc_messaging_app.Worker.{Qt, ws_mode, EngineWorker, emit, over_ws}
use pqc_messaging_app.Worker.Endpoint.{ws_join}
use pqc_messaging_app.Worker.Connect.{
  after_handshake, make_ws, disconnect_first, with_identity, identity_then, ws_send, ws_recv,
  drop_ws, relay_then, start_relay_host,
}

module _ ⦃p : Platform⦄ ⦃g : Protobuf⦄ where
  -- The server's side of the handshake, on a transport without a message.
  exchange_waits :
      (engine : ConnectionEngine) (url : Bytes) (later : List (List Signal)) (machine : Machine)
      → Hangs (
          server_exchange ws_send ws_recv
            (at machine (record { engine = engine; net = some (emptied url later) })))
  unfolding server_exchange ws_recv WebSocket.recv WebSocket.is_ready zoom ◌>>=◌
  exchange_waits engine url later machine = refl

  handshake_waits :
      (engine : ConnectionEngine) (url : Bytes) (later : List (List Signal)) (machine : Machine)
      → is_loaded engine.identity ≡ true
      → Hangs (
          run_server_handshake ws_send ws_recv
            (at machine (record { engine = engine; net = some (emptied url later) })))
  unfolding run_server_handshake server_handshake_internal with_engine ◌>>=◌
  handshake_waits engine url later machine loaded = rw loaded (
      Hangs-try_catch (server_exchange ws_send ws_recv) failure _
        (exchange_waits (record engine { session_ready = false }) url later machine))

module _ ⦃p : Platform⦄ ⦃g : Protobuf⦄ ⦃q : Qt⦄ where
  relay_waits :
      (url : Bytes) (k : Outcome Bytes → M EngineWorker Unit) (o : EngineWorker) (machine : Machine)
      (later : List (List Signal))
      → is_loaded o.engine.identity ≡ true
      → q.coming machine.calls ≡ (WebSocket.connected ∷ []) ∷ later
      → Hangs (relay_then url (over_ws (run_server_handshake ws_send ws_recv) >>= k) (at machine o))
  unfolding relay_then make_ws WebSocket.connect_url WebSocket.event_loop WebSocket.run_slots
      WebSocket.any_quits WebSocket.on_signal WebSocket.quits zoom ◌>>=◌
  relay_waits url k o machine later loaded first =
      rw first (continue-Hangs _ k (handshake_waits o.engine url later _ loaded))

  -- An identity that is there, by the value or in the object.
  abbrev pub HasIdentity : Outcome (Bytes × Bool) → World ConnectionEngine → Type 0
  HasIdentity o v = ((x : Bytes × Bool) × (o ≡ success x)) × (is_loaded v.obj.identity ≡ true)

  -- Where there is no connection, the identity is loaded or created with both keys, and every
  -- new socket emits `connected` in a first pass of the event loop and anything in later ones,
  -- `startRelayHost` waits for ever.
  pub start_relay_host-hangs :
      (relay_url my_username password : Bytes) (w : World EngineWorker) (later : List (List Signal))
      → w.obj.is_connected ≡ false
      → Reaches HasIdentity
          (load_or_create_identity "client.id" password (at w.machine w.obj.engine))
      → ((i : ℕ) → q.coming i ≡ (WebSocket.connected ∷ []) ∷ later)
      → (start_relay_host relay_url my_username password w).0 ≡ hang
  unfolding start_relay_host disconnect_first identity_then with_identity emit zoom ◌>>=◌
  start_relay_host-hangs relay_url my_username password w later apart identity first =
      rw (apart, identity.returned, identity.holds_of.0.1)
        (relay_waits (ws_join relay_url my_username)
          (after_handshake ws_mode drop_ws (codes "Relay host handshake error: ")
            (codes "(relay/host)."))
          (record w.obj { engine = identity.after.obj; is_connected = false; emitted = _ })
          identity.after.machine later identity.holds_of.1 (first identity.after.calls))
