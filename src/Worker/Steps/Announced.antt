-- ===== src/Worker/Steps/Announced.antt =====
-- gui/EngineWorker.cpp: what the signals `connected` and `disconnected` tell of a connection.
use pqc_messaging_app.Prelude.{
  ℕ, ◌+◌, ◌≡◌, refl, ◌∙◌, Bool, true, false, List, [], ◌∷◌, ◌++◌, ◌==◌, arith,
}
use pqc_messaging_app.Worker.{
  Emitted, status, error, connected, disconnected, identity_ready, message_received,
}

abbrev pub up : Emitted → ℕ
up connected = 1
up _ = 0

abbrev pub down : Emitted → ℕ
down disconnected = 1
down _ = 0

abbrev pub tally : (Emitted → ℕ) → List Emitted → ℕ
tally f [] = 0
tally f (s ∷ ss) = f s + tally f ss

pub tally-append :
    (f : Emitted → ℕ) (ss : List Emitted) (s : Emitted)
    → tally f (ss ++ (s ∷ [])) ≡ tally f ss + f s
tally-append f [] s = omega arith
tally-append f (x ∷ ss) s = omega (arith, tally-append f ss s)

-- Whether there is a connection, as a listener takes it after a signal, and after a list of them.
abbrev pub heard : Emitted → Bool → Bool
heard connected there = true
heard disconnected there = false
heard _ there = there

abbrev pub online : Bool → List Emitted → Bool
online there [] = there
online there (s ∷ ss) = online (heard s there) ss

pub online-append :
    (there : Bool) (ss : List Emitted) (s : Emitted)
    → online there (ss ++ (s ∷ [])) ≡ heard s (online there ss)
online-append there [] s = refl
online-append there (x ∷ ss) s = online-append (heard x there) ss s

heard-quiet : (s : Emitted) (there : Bool) → up s ≡ 0 → down s ≡ 0 → heard s there ≡ there
heard-quiet (status line) there hu hd = refl
heard-quiet (error line) there hu hd = refl
heard-quiet connected there hu hd = ground (arith, hu)
heard-quiet disconnected there hu hd = ground (arith, hd)
heard-quiet (identity_ready fp) there hu hd = refl
heard-quiet (message_received text) there hu hd = refl

-- `connected` was emitted so many times more than `disconnected`, and last of the two if that is
-- once.
abbrev pub Balance : ℕ → List Emitted → Type 0
Balance n ss = (tally up ss ≡ n + tally down ss) × (online false ss ≡ (n == 1))

pub Balance-quiet :
    (n : ℕ) (ss : List Emitted) (s : Emitted)
    → up s ≡ 0
    → down s ≡ 0
    → Balance n ss
    → Balance n (ss ++ (s ∷ []))
Balance-quiet n ss s hu hd h = (
  omega (arith, tally-append up ss s, tally-append down ss s, hu, hd, h.0),
  online-append false ss s ∙ heard-quiet s (online false ss) hu hd ∙ h.1,
)

pub Balance-down : (ss : List Emitted) → Balance 1 ss → Balance 0 (ss ++ (disconnected ∷ []))
Balance-down ss h = (
  omega (arith, tally-append up ss disconnected, tally-append down ss disconnected, h.0),
  online-append false ss disconnected,
)

pub Balance-up : (ss : List Emitted) → Balance 0 ss → Balance 1 (ss ++ (connected ∷ []))
Balance-up ss h = (
  omega (arith, tally-append up ss connected, tally-append down ss connected, h.0),
  online-append false ss connected,
)
