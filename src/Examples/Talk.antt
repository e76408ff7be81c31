-- ===== src/Examples/Talk.antt =====
-- The loopback test, and the client with the server, at concrete inputs.
use pqc_messaging_app.Prelude.{◌≡◌, refl, codes, arith, [], ◌∷◌, false, true}
use pqc_messaging_app.Exec.Reaches.{Reaches, at}
use pqc_messaging_app.Engine.{success}
use pqc_messaging_app.Engine.Loopback.Message.{test_run}
use pqc_messaging_app.Engine.Loopback.Message.Delivery.{test, test_run-delivers}
use pqc_messaging_app.Tcp.{Socket}
use pqc_messaging_app.Programs.Client
use pqc_messaging_app.Programs.Server
use pqc_messaging_app.Programs.Talking.{Sent, Shown, hearing, console, on, after_handshake-shows}
use pqc_messaging_app.Examples.Foreign.{
  toy, toy-EnvelopeSizes, toy-Healthy, toy-GcmLaws, toy_proto, toy-ProtobufLaws, toy-length_random,
  machine,
}
use pqc_messaging_app.Examples.Keys.{alice, bob, keyed, toy-HandshakeLaws}

test_run-delivers_example :
    Reaches
      (λ o v. o ≡ success (codes "hello loopback"))
      (test_run ⦃p = toy⦄ ⦃g = toy_proto⦄ (codes "hello loopback") (at machine (test alice bob)))
test_run-delivers_example =
    test_run-delivers ⦃p = toy⦄ ⦃g = toy_proto⦄ toy-Healthy toy-HandshakeLaws toy-GcmLaws
      toy-ProtobufLaws toy-length_random refl refl alice bob 7 8 machine (codes "hello loopback")
      refl refl (omega arith)

abbrev quiet : Socket
quiet = record { sent = 1 ∷ 2 ∷ []; arrived = []; at_end = false }

after_handshake-shows_example :
    Reaches
      (λ code v.
        Sent ⦃p = toy⦄ ⦃g = toy_proto⦄ keyed keyed quiet quiet quiet quiet [] [] []
          (codes "c0")
          (codes "5e")
          code
          v
        × Reaches
            (Shown ⦃p = toy⦄ ⦃g = toy_proto⦄ keyed keyed quiet quiet quiet quiet [] [] []
              (codes "c0")
              (codes "5e"))
            (Server.after_handshake ⦃p = toy⦄ ⦃g = toy_proto⦄ (success (codes "c0")) (
              at machine (
                hearing ⦃p = toy⦄ ⦃g = toy_proto⦄ keyed keyed quiet quiet quiet quiet [] [] []
                  (codes "c0")
                  (codes "5e")
                  v))))
      (Client.after_handshake ⦃p = toy⦄ ⦃g = toy_proto⦄ []
        (success (codes "5e"))
        (at machine (console keyed (on true quiet quiet) [])))
after_handshake-shows_example =
    after_handshake-shows ⦃p = toy⦄ ⦃g = toy_proto⦄ toy-Healthy toy-GcmLaws toy-ProtobufLaws
      toy-EnvelopeSizes toy-length_random refl refl keyed keyed quiet quiet quiet quiet [] [] []
      (codes "c0") (codes "5e") machine machine refl refl refl refl (omega arith)
