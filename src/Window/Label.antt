-- ===== src/Window/Label.antt =====
-- gui/MainWindow.cpp: what the label in the status bar says.
use pqc_messaging_app.Prelude.{
  ◌≡◌, refl, ap, sym, ◌∙◌, Bool, false, inl, inr, List, [], ◌∷◌, ◌++◌, append_assoc, Bytes, codes,
  if◌then◌else◌,
}
use pqc_messaging_app.Platform.{Platform}
use pqc_messaging_app.Protobuf.{Protobuf}
use pqc_messaging_app.Worker.{
  Qt, Emitted, status, error, connected, disconnected, identity_ready, message_received,
  EngineWorker,
}
use pqc_messaging_app.Worker.Steps
use pqc_messaging_app.Worker.Steps.Announced.{heard, online, online-append}
use pqc_messaging_app.Worker.Steps.Growing.{Continues, Step-Continues}
use pqc_messaging_app.Worker.Steps.Slots.{Settled}
use pqc_messaging_app.Worker.Steps.Invariant.{Reachable-Settled}
use pqc_messaging_app.Window.{Html, MainWindow, request, append, append_system, on_emitted, welcome}
use pqc_messaging_app.Window.Kept.{Upkeep, act-kept}
use pqc_messaging_app.Window.Steps.{
  App, Step, acted, served, worked, delivered, Reachable, started, stepped,
}

-- What it should say.
abbrev pub label : Bool → Bytes
label there = if there then codes "Connected" else codes "Disconnected"

Settled-online : (o : EngineWorker) → Settled o → online false o.emitted ≡ o.is_connected
Settled-online o (inl h) = h.balanced.1 ∙ sym h.not_connected
Settled-online o (inr h) = h.one_ahead.1 ∙ sym h.is_connected

online-++ :
    (there : Bool) (xs ys : List Emitted) → online there (xs ++ ys) ≡ online (online there xs) ys
online-++ there [] ys = refl
online-++ there (x ∷ xs) ys = online-++ (heard x there) xs ys

module _ ⦃h : Html⦄ where
  -- The window after its slots for some signals.
  abbrev pub caught_up : Bytes → List Emitted → MainWindow → MainWindow
  caught_up ts [] w = w
  caught_up ts (s ∷ ss) w = caught_up ts ss (on_emitted ts s w)

  on_emitted-label :
      (ts : Bytes) (s : Emitted) (there : Bool) (w : MainWindow)
      → w.status_label ≡ label there
      → (on_emitted ts s w).status_label ≡ label (heard s there)
  unfolding on_emitted append_system append
  on_emitted-label ts (status line) there w e = e
  on_emitted-label ts (error msg) there w e = e
  on_emitted-label ts connected there w e = refl
  on_emitted-label ts disconnected there w e = refl
  on_emitted-label ts (identity_ready fp) there w e = e
  on_emitted-label ts (message_received text) there w e = e

  caught_up-label :
      (ts : Bytes) (ss : List Emitted) (there : Bool) (w : MainWindow)
      → w.status_label ≡ label there
      → (caught_up ts ss w).status_label ≡ label (online there ss)
  caught_up-label ts [] there w e = e
  caught_up-label ts (s ∷ ss) there w e =
      caught_up-label ts ss (heard s there) _ (on_emitted-label ts s there w e)

module _ ⦃q : Qt⦄ ⦃h : Html⦄ where
  label-Upkeep : (there : Bool) → Upkeep (λ w. w.status_label ≡ label there)
  unfolding append request
  label-Upkeep there = record {
    appended = λ block w e. e;
    requested = λ s w is e. e;
    typed = λ text w e. e;
  }

  module _ ⦃p : Platform⦄ ⦃g : Protobuf⦄ where
    -- The worker is one that its own steps reach, `later` are the signals that wait for the
    -- window, and the label follows what was shown.
    record IsFollowed (a : App) : Type 0 where
      worker : Steps.Reachable a.worker
      waiting : Continues a.shown a.worker.obj.emitted
      says : a.window.status_label ≡ label (online false a.shown)

    Step-IsFollowed : (a a' : App) → Step a a' → IsFollowed a → IsFollowed a'
    Step-IsFollowed _ _ (acted a ts action offered) f = record {
      worker = f.worker;
      waiting = f.waiting;
      says = act-kept (label-Upkeep (online false a.shown)) ts action a.window offered f.says;
    }
    Step-IsFollowed _ _ (served a s later w e run) f =
        let step : Steps.Step a.worker w = Steps.called s a.worker w run in
        record {
          worker = Steps.stepped a.worker w f.worker step;
          waiting = Step-Continues a.shown a.worker w step f.waiting;
          says = f.says;
        }
    Step-IsFollowed _ _ (worked a w step own) f = record {
      worker = Steps.stepped a.worker w f.worker step;
      waiting = Step-Continues a.shown a.worker w step f.waiting;
      says = f.says;
    }
    Step-IsFollowed _ _ (delivered a ts s later e) f = record {
      worker = f.worker;
      waiting = (later, e ∙ sym (append_assoc a.shown (s ∷ []) later));
      says =
          on_emitted-label ts s (online false a.shown) a.window f.says
          ∙ ap label (sym (online-append false a.shown s));
    }

    Reachable-IsFollowed : (a : App) → Reachable a → IsFollowed a
    unfolding welcome append_system append
    Reachable-IsFollowed _ (started machine engine tcp ts) = record {
      worker = Steps.started machine engine tcp;
      waiting = ([], refl);
      says = refl;
    }
    Reachable-IsFollowed _ (stepped a a' r s) = Step-IsFollowed a a' s (Reachable-IsFollowed a r)

    -- In every state that the window and its worker reach by actions of the user, queued
    -- calls of slots that return, the worker's own steps and signals that the window
    -- handles, in any order, the signals emitted are those that the window has handled,
    -- followed by some that wait; and once it has handled these, its status label says
    -- 'Connected' if the worker has a connection and 'Disconnected' if it has none.
    pub Reachable-label :
        (a : App)
        → Reachable a
        → (later : List Emitted) × (a.worker.obj.emitted ≡ a.shown ++ later)
          × ((ts : Bytes)
              → (caught_up ts later a.window).status_label ≡ label a.worker.obj.is_connected)
    Reachable-label a reached =
        let f : IsFollowed a = Reachable-IsFollowed a reached in
        let (later, e) = f.waiting in
        (
          later,
          e,
          λ ts.
              caught_up-label ts later (online false a.shown) a.window f.says
              ∙ ap label (
                  sym (online-++ false a.shown later)
                  ∙ ap (online false) (sym e)
                  ∙ Settled-online a.worker.obj (Reachable-Settled a.worker f.worker)),
        )
