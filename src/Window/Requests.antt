-- ===== src/Window/Requests.antt =====
-- gui/MainWindow.cpp: what waits in the worker's event queue.
use pqc_messaging_app.Prelude.{◌≡◌, refl, sym, subst, List, [], ◌∷◌, ◌++◌, All, Bytes}
use pqc_messaging_app.Platform.{Platform}
use pqc_messaging_app.Protobuf.{Protobuf}
use pqc_messaging_app.Worker.{
  Qt, Emitted, status, error, connected, disconnected, identity_ready, message_received,
}
use pqc_messaging_app.Worker.Steps.{Slot}
use pqc_messaging_app.Window.{Html, MainWindow, request, append, append_system, on_emitted, welcome}
use pqc_messaging_app.Window.Kept.{IsAsked, Upkeep, act-kept}
use pqc_messaging_app.Window.Steps.{
  App, Step, acted, served, worked, delivered, Reachable, started, stepped,
}

module _ ⦃q : Qt⦄ where
  All-append :
      (ss : List Slot) (s : Slot) → All IsAsked ss → IsAsked s → All IsAsked (ss ++ (s ∷ []))
  All-append [] s all is = (is, tt)
  All-append (x ∷ ss) s all is = (all.0, All-append ss s all.1 is)

  module _ ⦃h : Html⦄ where
    requests-Upkeep : Upkeep (λ w. All IsAsked w.requests)
    unfolding append request
    requests-Upkeep = record {
      appended = λ block w all. all;
      requested = λ s w is all. All-append w.requests s all is;
      typed = λ text w all. all;
    }

    on_emitted-requests :
        (ts : Bytes) (s : Emitted) (w : MainWindow) → (on_emitted ts s w).requests ≡ w.requests
    unfolding on_emitted append_system append
    on_emitted-requests ts (status line) w = refl
    on_emitted-requests ts (error msg) w = refl
    on_emitted-requests ts connected w = refl
    on_emitted-requests ts disconnected w = refl
    on_emitted-requests ts (identity_ready fp) w = refl
    on_emitted-requests ts (message_received text) w = refl

    module _ ⦃p : Platform⦄ ⦃g : Protobuf⦄ where
      Step-IsAsked :
          (a a' : App) → Step a a' → All IsAsked a.window.requests → All IsAsked a'.window.requests
      Step-IsAsked _ _ (acted a ts action offered) all =
          act-kept requests-Upkeep ts action a.window offered all
      Step-IsAsked _ _ (served a s later w e run) all = (subst (All IsAsked) e all).1
      Step-IsAsked _ _ (worked a w step own) all = all
      Step-IsAsked _ _ (delivered a ts s later e) all =
          subst (All IsAsked) (sym (on_emitted-requests ts s a.window)) all

      -- In every state that the window and its worker reach, each call that waits for the
      -- worker has what its slot needs: an endpoint that is not empty, a port from 1 to
      -- 65535, a relay URL and a user name that are not empty, or a text that is trimmed
      -- and not empty.
      pub Reachable-IsAsked : (a : App) → Reachable a → All IsAsked a.window.requests
      unfolding welcome append_system append
      Reachable-IsAsked _ (started machine engine tcp ts) = tt
      Reachable-IsAsked _ (stepped a a' r s) = Step-IsAsked a a' s (Reachable-IsAsked a r)
