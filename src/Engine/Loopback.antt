-- ===== src/Engine/Loopback.antt =====
-- tools/engine_loopback_test.cpp: two engines that talk through two queues.
pub mod Laws
pub mod Steps
pub mod Server
pub mod Agreement
pub mod Message
use pqc_messaging_app.Prelude.{Bool, true, false, Option, none, some, List, [], ◌∷◌, ◌++◌, Bytes}
use pqc_messaging_app.Exec.{ok, hang, M, pure, modify, zoom, ◌>>=◌, ◌>>◌}
use pqc_messaging_app.Platform.{Platform}
use pqc_messaging_app.Protobuf.{Protobuf}
use pqc_messaging_app.Engine.{Outcome, success, failure}
use pqc_messaging_app.Engine.Handshake.{Conn, run_client_handshake, run_server_handshake, on_net}

pub record Channel : Type 0 where
  pub q : List Bytes
  pub closed : Bool

-- The two channels of the test, `c2s` and `s2c`.
pub record Wire : Type 0 where
  pub c2s : Channel
  pub s2c : Channel

unfoldable pub send_to : Bytes → M Channel Bool
send_to frame w = elim w.obj.closed [
  | true ↦ (ok false, w)
  | false ↦ (ok true, record w { obj = record w.obj { q = w.obj.q ++ (frame ∷ []) } })
]

-- On an empty queue that nobody closes it waits for ever.
unfoldable pub recv_from : M Channel (Option Bytes)
recv_from w = elim w.obj.q [
  | [] ↦ elim w.obj.closed [ true ↦ (ok none, w) | false ↦ (hang, w) ]
  | ◌∷◌ frame rest ↦ (ok (some frame), record w { obj = record w.obj { q = rest } })
]

abbrev pub on_c2s : {A : Type 0} → M Channel A → M Wire A
on_c2s = zoom (λ (n : Wire). n.c2s) (λ c n. record n { c2s = c })

abbrev pub on_s2c : {A : Type 0} → M Channel A → M Wire A
on_s2c = zoom (λ (n : Wire). n.s2c) (λ c n. record n { s2c = c })

abbrev pub closed : Channel → Channel
closed c = record c { closed = true }

unfoldable pub end_thread : Outcome Bytes → M (Conn Wire) (Outcome Bytes)
end_thread (success fingerprint) = pure (success fingerprint)
end_thread (failure message) =
    modify (λ c. record c { net = record { c2s = closed c.net.c2s; s2c = closed c.net.s2c } })
    >> pure (failure message)

module _ ⦃p : Platform⦄ ⦃g : Protobuf⦄ where
  -- The server's thread, which closes both channels where its handshake fails.
  unfoldable pub server_thread : M (Conn Wire) (Outcome Bytes)
  server_thread = do
    outcome ← run_server_handshake (λ frame. on_s2c (send_to frame)) (on_c2s recv_from)
    end_thread outcome

  -- The client's callbacks. While it waits for an answer, the server's thread runs.
  unfoldable pub client_send : Bytes → M (Conn Wire) Bool
  client_send frame = on_net (on_c2s (send_to frame))

  unfoldable pub client_recv : M (Conn Wire) (Option Bytes)
  client_recv = server_thread >>= λ _. on_net (on_s2c recv_from)

  unfoldable pub loopback : M (Conn (Conn Wire)) (Outcome Bytes)
  loopback = run_client_handshake client_send client_recv
