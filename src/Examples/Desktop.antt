-- ===== src/Examples/Desktop.antt =====
-- The window and its worker at concrete inputs.
use pqc_messaging_app.Prelude.{◌≡◌, refl, List, [], ◌++◌, Bytes, codes, All}
use pqc_messaging_app.Exec.{◌>>=◌}
use pqc_messaging_app.Worker.{Emitted, emit}
use pqc_messaging_app.Worker.Receive
use pqc_messaging_app.Worker.Steps.{send_slot, run_slot}
use pqc_messaging_app.Window.{
  Html, welcome, append_system, append_user, append, request, on_send, send_text,
}
use pqc_messaging_app.Window.Kept.{IsAsked}
use pqc_messaging_app.Window.Label.{caught_up, label, Reachable-label}
use pqc_messaging_app.Window.Requests.{Reachable-IsAsked}
use pqc_messaging_app.Window.Steps.{
  App, sends, types, act, acted, served, Reachable, started, stepped,
}
use pqc_messaging_app.Examples.Foreign.{toy, toy_proto, machine, world}
use pqc_messaging_app.Examples.Keys.{alice}
use pqc_messaging_app.Examples.Gui.{toy_qt, no_transport, newborn, sent_early}

abbrev toy_html : Html
toy_html = record { to_html_escaped = λ text. text }

abbrev noon : Bytes
noon = codes "12:00:00"

abbrev opened : App
opened = record { worker = world newborn; window = welcome ⦃h = toy_html⦄ noon; shown = [] }

abbrev typed : App
typed = record opened {
  window = act ⦃q = toy_qt⦄ ⦃h = toy_html⦄ noon (types (codes "hi")) opened.window;
}

abbrev asked : App
asked = record typed { window = act ⦃q = toy_qt⦄ ⦃h = toy_html⦄ noon sends typed.window }

-- The worker has no connection, and says so.
abbrev refused : App
refused = record asked { worker = sent_early; window = record asked.window { requests = [] } }

asked-Reachable : Reachable ⦃p = toy⦄ ⦃g = toy_proto⦄ ⦃q = toy_qt⦄ ⦃h = toy_html⦄ asked
asked-Reachable =
    stepped typed asked
      (stepped opened typed (started machine alice no_transport noon)
        (acted opened noon (types (codes "hi")) tt))
      (acted typed noon sends tt)

refused-Reachable : Reachable ⦃p = toy⦄ ⦃g = toy_proto⦄ ⦃q = toy_qt⦄ ⦃h = toy_html⦄ refused
unfolding welcome append_system append_user append request act on_send send_text run_slot
    Receive.send_message emit ◌>>=◌
refused-Reachable =
    stepped asked refused asked-Reachable
      (served asked (send_slot (codes "hi")) [] sent_early refl refl)

Reachable-IsAsked_example : All (IsAsked ⦃q = toy_qt⦄) asked.window.requests
Reachable-IsAsked_example =
    Reachable-IsAsked ⦃q = toy_qt⦄ ⦃h = toy_html⦄ ⦃p = toy⦄ ⦃g = toy_proto⦄ asked asked-Reachable

Reachable-label_example :
    (later : List Emitted) × (refused.worker.obj.emitted ≡ refused.shown ++ later)
    × ((ts : Bytes)
        → (caught_up ⦃h = toy_html⦄ ts later refused.window).status_label
          ≡ label refused.worker.obj.is_connected)
Reachable-label_example =
    Reachable-label ⦃q = toy_qt⦄ ⦃h = toy_html⦄ ⦃p = toy⦄ ⦃g = toy_proto⦄ refused refused-Reachable
