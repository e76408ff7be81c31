-- ===== src/Window/Kept.antt =====
-- gui/MainWindow.cpp: what the user's actions keep of the window, and what they may ask of the worker.
use pqc_messaging_app.Prelude.{
  ℕ, ◌≤◌, ◌≡◌, refl, Bool, true, false, ◌||◌, Option, none, some, [], Bytes, is_empty,
  if◌then◌else◌, arith,
}
use pqc_messaging_app.Worker.{Qt}
use pqc_messaging_app.Worker.Steps.{
  Slot, connect_slot, host_slot, relay_connect_slot, relay_host_slot, disconnect_slot, send_slot,
}
use pqc_messaging_app.Window.{
  Html, MainWindow, request, append, append_system, append_user, connect_with, on_connect,
  host_with, on_host, relay_dialogs, relay_host_with, on_relay_host, relay_connect_with,
  on_relay_connect, send_text, on_send, on_disconnect, on_about,
}
use pqc_messaging_app.Window.Steps.{
  Action, connects, hosts, relay_hosts, relay_connects, disconnects, sends, reads_about, types,
  IsOffered, act,
}

-- What the worker may be asked for.
abbrev pub IsAsked : ⦃q : Qt⦄ → Slot → Type 0
IsAsked (connect_slot endpoint password) = is_empty endpoint ≡ false
IsAsked (host_slot port password) = (1 ≤ port) × (port ≤ 65535)
IsAsked (relay_connect_slot url peer password) = (is_empty url ≡ false) × (is_empty peer ≡ false)
IsAsked (relay_host_slot url me password) = (is_empty url ≡ false) × (is_empty me ≡ false)
IsAsked disconnect_slot = Unit
IsAsked ⦃q⦄ (send_slot text) =
    (is_empty text ≡ false) × ((input : Bytes) × (text ≡ q.trimmed input))

module _ ⦃q : Qt⦄ ⦃h : Html⦄ where
  -- A property of the window that the blocks of the chat and the line below do not matter to, and
  -- that calls of the worker keep.
  pub record Upkeep (P : MainWindow → Type 0) : Type 0 where
    pub appended : (block : Bytes) (w : MainWindow) → P w → P (append block w)
    pub requested : (s : Slot) (w : MainWindow) → IsAsked s → P w → P (request s w)
    pub typed : (text : Bytes) (w : MainWindow) → P w → P (record w { input = text })

  module _ {P : MainWindow → Type 0} (u : Upkeep P) (ts : Bytes) where
    append_system-kept : (line : Bytes) (w : MainWindow) → P w → P (append_system ts line w)
    unfolding append_system
    append_system-kept line w k = u.appended _ w k

    unless : (b : Bool) (w w' : MainWindow) → P w → (b ≡ false → P w') → P (if b then w else w')
    unless true w w' k go = k
    unless false w w' k go = go refl

    connect_with-kept :
        (endpoint : Bytes) (password : Option Bytes) (w : MainWindow)
        → is_empty endpoint ≡ false
        → P w
        → P (connect_with ts endpoint password w)
    unfolding connect_with
    connect_with-kept endpoint none w e k = k
    connect_with-kept endpoint (some password) w e k = u.requested _ _ e (append_system-kept _ w k)

    host_with-kept :
        (port : ℕ) (password : Option Bytes) (w : MainWindow)
        → (1 ≤ port) × (port ≤ 65535)
        → P w
        → P (host_with ts port password w)
    unfolding host_with
    host_with-kept port none w e k = k
    host_with-kept port (some password) w e k =
        u.requested _ _ (omega (arith, e.0, e.1), omega (arith, e.0, e.1))
          (append_system-kept _ w k)

    relay_dialogs-kept :
        (go : Bytes → Bytes → Bytes → MainWindow → MainWindow)
        (relay username password : Option Bytes) (w : MainWindow)
        → ((url name word : Bytes)
            → (is_empty url ≡ false) × (is_empty name ≡ false)
            → P (go url name word w))
        → P w
        → P (relay_dialogs ts go relay username password w)
    unfolding relay_dialogs
    relay_dialogs-kept go none username password w goes k = k
    relay_dialogs-kept go (some relay) none password w goes k = k
    relay_dialogs-kept go (some relay) (some username) none w goes k = k
    relay_dialogs-kept go (some relay) (some username) (some password) w goes k =
        unless _ w _ k
          λ e. goes relay username password (both (is_empty relay) (is_empty username) e)
      where
        both : (a b : Bool) → (a || b) ≡ false → (a ≡ false) × (b ≡ false)
        both false false e = (refl, refl)
        both true b e = ground (arith, e)
        both false true e = ground (arith, e)

    send_text-kept : (input : Bytes) (w : MainWindow) → P w → P (send_text ts (q.trimmed input) w)
    unfolding send_text append_user
    send_text-kept input w k = unless _ w _ k λ e.
        u.requested (send_slot (q.trimmed input)) _ (e, (input, refl))
          (u.typed [] (append_user ts (q.trimmed input) w) (u.appended _ w k))

    pub act-kept : (action : Action) (w : MainWindow) → IsOffered action → P w → P (act ts action w)
    unfolding act on_connect on_host on_relay_host on_relay_connect relay_host_with
        relay_connect_with on_disconnect on_send on_about
    act-kept (connects none password) w o k = k
    act-kept (connects (some endpoint) password) w o k =
        unless _ w _ k λ e. connect_with-kept endpoint password w e k
    act-kept (hosts none password) w o k = k
    act-kept (hosts (some port) password) w o k = host_with-kept port password w o k
    act-kept (relay_hosts relay username password) w o k =
        relay_dialogs-kept _ relay username password w
          (λ url name word e. u.requested _ _ e (append_system-kept _ w k)) k
    act-kept (relay_connects relay username password) w o k =
        relay_dialogs-kept _ relay username password w
          (λ url name word e. u.requested _ _ e (append_system-kept _ w k)) k
    act-kept disconnects w o k = u.requested _ w tt k
    act-kept sends w o k = send_text-kept w.input w k
    act-kept reads_about w o k = append_system-kept _ w k
    act-kept (types text) w o k = u.typed text w k
