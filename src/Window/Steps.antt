-- ===== src/Window/Steps.antt =====
-- gui/MainWindow.cpp: the window and its worker, each in a thread of its own, with the calls that the
-- window queues for the worker and the signals that the worker queues for the window.
use pqc_messaging_app.Prelude.{
  ℕ, ◌≤◌, ◌≡◌, Bool, true, false, Option, some, List, [], ◌∷◌, ◌++◌, Bytes,
}
use pqc_messaging_app.Exec.{ok, Machine, World}
use pqc_messaging_app.Exec.Reaches.{at}
use pqc_messaging_app.Platform.{Platform}
use pqc_messaging_app.Protobuf.{Protobuf}
use pqc_messaging_app.Engine.{ConnectionEngine}
use pqc_messaging_app.Tcp.Transport.{TcpTransport}
use pqc_messaging_app.Worker.{Qt, Emitted, EngineWorker}
use pqc_messaging_app.Worker.Steps.{Slot, constructed, run_slot, called}
use pqc_messaging_app.Worker.Steps
use pqc_messaging_app.Window.{
  Html, MainWindow, on_emitted, welcome, on_connect, on_host, on_relay_host, on_relay_connect,
  on_send, on_disconnect, on_about,
}

-- What the user does, with what the dialogs answer.
pub data Action : Type 0 where
  connects : Option Bytes → Option Bytes → Action
  hosts : Option ℕ → Option Bytes → Action
  relay_hosts : Option Bytes → Option Bytes → Option Bytes → Action
  relay_connects : Option Bytes → Option Bytes → Option Bytes → Action
  disconnects : Action
  sends : Action
  reads_about : Action
  types : Bytes → Action

-- The dialog for a port takes one from 1 to 65535.
abbrev pub IsOffered : Action → Type 0
IsOffered (hosts (some port) password) = (1 ≤ port) × (port ≤ 65535)
IsOffered _ = Unit

module _ ⦃q : Qt⦄ ⦃h : Html⦄ where
  unfoldable pub act : Bytes → Action → MainWindow → MainWindow
  act ts (connects endpoint password) w = on_connect ts endpoint password w
  act ts (hosts port password) w = on_host ts port password w
  act ts (relay_hosts relay username password) w = on_relay_host ts relay username password w
  act ts (relay_connects relay username password) w = on_relay_connect ts relay username password w
  act ts disconnects w = on_disconnect w
  act ts sends w = on_send ts w
  act ts reads_about w = on_about ts w
  act ts (types text) w = record w { input = text }

-- `shown` are the signals that the window has run its slots for.
pub record App : Type 0 where
  pub worker : World EngineWorker
  pub window : MainWindow
  pub shown : List Emitted

module _ ⦃p : Platform⦄ ⦃g : Protobuf⦄ ⦃q : Qt⦄ where
  -- Whether a step of the worker is a call of a slot.
  abbrev pub is_call : (w w' : World EngineWorker) → Steps.Step w w' → Bool
  is_call _ _ (called s w w' e) = true
  is_call _ _ _ = false

  module _ ⦃h : Html⦄ where
    pub data Step : App → App → Type 0 where
      acted :
          (a : App) (ts : Bytes) (action : Action)
          → IsOffered action
          → Step a (record a { window = act ts action a.window })
      served :
          (a : App) (s : Slot) (later : List Slot) (w : World EngineWorker)
          → a.window.requests ≡ s ∷ later
          → run_slot s a.worker ≡ (ok tt, w)
          → Step a (record a { worker = w; window = record a.window { requests = later } })
      worked :
          (a : App) (w : World EngineWorker) (step : Steps.Step a.worker w)
          → is_call a.worker w step ≡ false
          → Step a (record a { worker = w })
      delivered :
          (a : App) (ts : Bytes) (s : Emitted) (later : List Emitted)
          → a.worker.obj.emitted ≡ a.shown ++ (s ∷ later)
          → Step a (record a { window = on_emitted ts s a.window; shown = a.shown ++ (s ∷ []) })

    pub data Reachable : App → Type 0 where
      started :
          (machine : Machine) (engine : ConnectionEngine) (tcp : TcpTransport) (ts : Bytes)
          → Reachable (record {
            worker = at machine (constructed engine tcp);
            window = welcome ts;
            shown = [];
          })
      stepped : (a a' : App) → Reachable a → Step a a' → Reachable a'
