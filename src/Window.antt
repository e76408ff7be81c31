-- ===== src/Window.antt =====
-- gui/MainWindow.h and gui/MainWindow.cpp: the window, which asks the worker for what its user wants
-- and shows what the worker tells.
pub mod Steps
pub mod Kept
pub mod Label
pub mod Requests
use pqc_messaging_app.Prelude.{
  ℕ, ◌%◌, ◌^◌, Option, none, some, List, [], ◌∷◌, ◌++◌, ◌||◌, Bytes, codes, is_empty, if◌then◌else◌,
}
use pqc_messaging_app.Worker.{
  Qt, Emitted, status, error, connected, disconnected, identity_ready, message_received,
}
use pqc_messaging_app.Worker.Steps.{
  Slot, connect_slot, host_slot, relay_connect_slot, relay_host_slot, disconnect_slot, send_slot,
}

-- `to_html_escaped` is Qt's.
pub record Html : Type 0 where
  pub to_html_escaped : Bytes → Bytes

-- `chat` has the blocks of HTML that the view was given, `input` the text of the line below, and
-- `requests` the calls of the worker's slots that wait in its thread's event queue.
pub record MainWindow : Type 0 where
  pub chat : List Bytes
  pub input : Bytes
  pub status_label : Bytes
  pub identity_label : Bytes
  pub requests : List Slot

-- A rightwards arrow.
abbrev arrow : Bytes
arrow = 226 ∷ 134 ∷ 146 ∷ []

-- `emit request...(...)` to a slot of an object in another thread.
unfoldable pub request : Slot → MainWindow → MainWindow
request s w = record w { requests = w.requests ++ (s ∷ []) }

unfoldable pub append : Bytes → MainWindow → MainWindow
append block w = record w { chat = w.chat ++ (block ∷ []) }

module _ ⦃h : Html⦄ (ts : Bytes) where
  -- `ts` is the time of the call, as text.
  unfoldable pub append_system : Bytes → MainWindow → MainWindow
  append_system line = append (
      codes "<div style='color:gray'>["
      ++ ts
      ++ codes "] "
      ++ h.to_html_escaped line
      ++ codes "</div>")

  unfoldable pub append_user : Bytes → MainWindow → MainWindow
  append_user line =
      append
        (codes "<div>[" ++ ts ++ codes "] <b>You:</b> " ++ h.to_html_escaped line ++ codes "</div>")

  -- The slots for the worker's signals.
  unfoldable pub on_emitted : Emitted → MainWindow → MainWindow
  on_emitted connected w =
      append_system (codes "Connected.") (record w { status_label = codes "Connected" })
  on_emitted disconnected w =
      append_system (codes "Disconnected.") (record w { status_label = codes "Disconnected" })
  on_emitted (message_received text) w =
      append
        (codes "<div style='color:#2b78e4'>["
          ++ ts
          ++ codes "] <b>Peer:</b> "
          ++ h.to_html_escaped text
          ++ codes "</div>")
        w
  on_emitted (status line) w = append_system line w
  on_emitted (error msg) w =
      append_system
        (codes "<span style='color:#c00'>Error: " ++ h.to_html_escaped msg ++ codes "</span>") w
  on_emitted (identity_ready fp) w = record w { identity_label = codes "id: " ++ fp }

  -- The window as its constructor leaves it.
  unfoldable pub welcome : MainWindow
  welcome =
      append_system
        (codes "Welcome! Use Relay "
          ++ arrow
          ++ codes " Go Online on one instance, then Relay "
          ++ arrow
          ++ codes " Connect by Username from another.")
        (record {
          chat = [];
          input = [];
          status_label = codes "Disconnected";
          identity_label = codes "id: --";
          requests = [];
        })

  -- The lambda behind the menu's "About".
  unfoldable pub on_about : MainWindow → MainWindow
  on_about = append_system (
      codes
        "Relay mode: both clients connect to the same ws room name (username), then run the E2E handshake over that WebSocket.")

  -- What the dialogs answer, in their order; `none` where one is cancelled.
  unfoldable pub connect_with : Bytes → Option Bytes → MainWindow → MainWindow
  connect_with endpoint none w = w
  connect_with endpoint (some password) w =
      request (connect_slot endpoint password)
        (append_system (codes "Connecting to " ++ endpoint ++ codes " ...") w)

  unfoldable pub on_connect : Option Bytes → Option Bytes → MainWindow → MainWindow
  on_connect none password w = w
  on_connect (some endpoint) password w =
      if is_empty endpoint then w else connect_with endpoint password w

  unfoldable pub host_with : ⦃q : Qt⦄ → ℕ → Option Bytes → MainWindow → MainWindow
  host_with port none w = w
  host_with ⦃q⦄ port (some password) w =
      request (host_slot (port % 2 ^ 16) password)
        (append_system (codes "Hosting on port " ++ q.number port ++ codes " ...") w)

  unfoldable pub on_host : ⦃q : Qt⦄ → Option ℕ → Option Bytes → MainWindow → MainWindow
  on_host none password w = w
  on_host (some port) password w = host_with port password w

  -- The three dialogs of `onRelayHost` and `onRelayConnect`, with what the last one leads to.
  unfoldable pub relay_dialogs :
      (Bytes → Bytes → Bytes → MainWindow → MainWindow)
      → Option Bytes
      → Option Bytes
      → Option Bytes
      → MainWindow
      → MainWindow
  relay_dialogs go none username password w = w
  relay_dialogs go (some relay) none password w = w
  relay_dialogs go (some relay) (some username) none w = w
  relay_dialogs go (some relay) (some username) (some password) w =
      if is_empty relay || is_empty username then w else go relay username password w

  unfoldable pub relay_host_with : Bytes → Bytes → Bytes → MainWindow → MainWindow
  relay_host_with relay username password w =
      request (relay_host_slot relay username password)
        (append_system (codes "Relay online as @" ++ username ++ codes " via " ++ relay) w)

  unfoldable pub on_relay_host :
      Option Bytes → Option Bytes → Option Bytes → MainWindow → MainWindow
  on_relay_host = relay_dialogs relay_host_with

  unfoldable pub relay_connect_with : Bytes → Bytes → Bytes → MainWindow → MainWindow
  relay_connect_with relay username password w =
      request (relay_connect_slot relay username password) (
        append_system
          (codes "Connecting to @" ++ username ++ codes " via " ++ relay ++ codes " ...") w)

  unfoldable pub on_relay_connect :
      Option Bytes → Option Bytes → Option Bytes → MainWindow → MainWindow
  on_relay_connect = relay_dialogs relay_connect_with

  unfoldable pub send_text : Bytes → MainWindow → MainWindow
  send_text text w =
      if is_empty text
      then w
      else request (send_slot text) (record (append_user text w) { input = [] })

  unfoldable pub on_send : ⦃q : Qt⦄ → MainWindow → MainWindow
  on_send ⦃q⦄ w = send_text (q.trimmed w.input) w

unfoldable pub on_disconnect : MainWindow → MainWindow
on_disconnect w = request disconnect_slot w
