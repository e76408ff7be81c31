-- ===== src/Examples/Cli.antt =====
-- The command-line client of the relay at concrete inputs.
use pqc_messaging_app.Prelude.{
  ℕ, ◌≡◌, ◌≢◌, List, ◌↔◌, refl, Bool, true, false, some, [], ◌∷◌, ◌++◌, Bytes, codes, arith, leb,
  ◌&&◌, bytes_eq,
}
use pqc_messaging_app.Exec.{World, M, modify, pure, ◌>>◌}
use pqc_messaging_app.Exec.Reaches.{Reaches, Reaches-modify, at}
use pqc_messaging_app.Relay.Url.{session, do_http, is_space}
use pqc_messaging_app.Relay.Url.Routing.{named, upgrade_to}
use pqc_messaging_app.Beast.{parse_ws_url}
use pqc_messaging_app.RelayCli.Urls.{ws_join}
use pqc_messaging_app.RelayCli.Urls.Joining.{room_path, at_relay, ws_join-joins}
use pqc_messaging_app.RelayCli.Pins.{check_peer}
use pqc_messaging_app.RelayCli.Pins.Words.{IsWord, file_of}
use pqc_messaging_app.RelayCli.Pins.Trust.{
  differ, here, further, Holds, Trusts, check_peer-trust, check_peer-check_peer,
}
use pqc_messaging_app.Engine.Loopback.{Channel, send_to, recv_from}
use pqc_messaging_app.Programs.{Console}
use pqc_messaging_app.Programs.Relay.{leaving, with_peer}
use pqc_messaging_app.Programs.Relay.CommandLine.{Options}
use pqc_messaging_app.Programs.Relay.Aborting.{Aborts, with_peer-Aborts}
use pqc_messaging_app.Examples.Keys.{alice}
use pqc_messaging_app.Examples.Foreign.{toy_proto, toy, toy-Healthy, machine, world}

abbrev key : Bytes
key = codes "r#a"

abbrev pin : Bytes
pin = codes "f0"

key-IsWord : IsWord key
unfolding is_space
key-IsWord = record { filled = λ e. ground (arith, e); unspaced = (refl, (refl, (refl, tt))) }

pin-IsWord : IsWord pin
unfolding is_space
pin-IsWord = record { filled = λ e. ground (arith, e); unspaced = (refl, (refl, tt)) }

abbrev fresh : World (Unit {0})
fresh = world tt

-- A file with a pin for another room.
abbrev other : Bytes
other = codes "r#b"

other-IsWord : IsWord other
unfolding is_space
other-IsWord = record { filled = λ e. ground (arith, e); unspaced = (refl, (refl, (refl, tt))) }

other-differs : other ≢ key
unfolding bytes_eq
other-differs = differ other key refl

abbrev others : List (Bytes × Bytes)
others = (other, pin) ∷ []

abbrev with_others : World (Unit {0})
with_others = at (record machine { disk = λ path. some (file_of others) }) tt

check_peer-trust_example :
    Reaches
      (Trusts ⦃p = toy⦄ toy-Healthy with_others others key pin)
      (check_peer ⦃p = toy⦄ key pin with_others)
check_peer-trust_example =
    check_peer-trust ⦃p = toy⦄ toy-Healthy key pin others with_others
      ((other-IsWord, pin-IsWord), tt) refl

check_peer-check_peer_example :
    Reaches
      (λ trusted v. ((trusted ≡ true) ↔ (pin ≡ codes "f1")) × Holds v (others ++ ((key, pin) ∷ [])))
      ((check_peer ⦃p = toy⦄ key pin >> check_peer ⦃p = toy⦄ key (codes "f1")) with_others)
check_peer-check_peer_example =
    check_peer-check_peer ⦃p = toy⦄ toy-Healthy key pin (codes "f1") others with_others
      ((other-IsWord, pin-IsWord), tt) refl key-IsWord pin-IsWord (other-differs, tt)

abbrev is_lower : ℕ → Bool
is_lower c = leb 97 c && leb c 122

ws_join-joins_example :
    (parse_ws_url (ws_join (codes "http://" ++ ((104 ∷ []) ++ (58 ∷ codes "80"))) (codes "ab"))
      ≡ some (at_relay (104 ∷ []) (codes "80") (codes "ab")))
    × (do_http (upgrade_to (room_path (codes "ab"))) true ≡ session (named (codes "ab")))
ws_join-joins_example =
    ws_join-joins is_lower refl refl refl refl 104 [] (codes "80") (codes "ab")
      ((λ e. ground arith), ((λ e. ground arith), tt))
      ((λ e. ground arith), ((λ e. ground arith), ((λ e. ground arith), ((λ e. ground arith), tt))))
      ((λ e. ground arith), ((λ e. ground arith), ((λ e. ground arith), ((λ e. ground arith), tt))))
      (refl, (refl, (refl, (refl, tt)))) (refl, (refl, tt)) (omega arith, (omega arith, tt))

abbrev options : Options
options = record {
  mode = "host";
  relay = "http://r/x";
  room = "a";
  pw = "pw";
  id_path = "client.id";
  used_flags = true;
}

abbrev quiet_net : Channel
quiet_net = record { q = []; closed = false }

f1-IsWord : IsWord (codes "f1")
unfolding is_space
f1-IsWord = record { filled = λ e. ground (arith, e); unspaced = (refl, (refl, tt)) }

f1-differs : pin ≢ codes "f1"
unfolding bytes_eq
f1-differs = differ pin (codes "f1") refl

abbrev two_pins : List (Bytes × Bytes)
two_pins = (other, codes "f1") ∷ (key, pin) ∷ []

-- The pin file holds "r#b f1" and "r#a f0".
abbrev pinned_world : World (Console Channel)
pinned_world =
    at (record machine { disk = λ path. some (file_of two_pins) })
      (record { engine = alice; net = quiet_net; printed = [] })

abbrev shut_down : M Channel Unit
shut_down = modify (λ c. record c { closed = true })

with_peer-Aborts_example :
    Reaches
      (λ code v. Aborts shut_down pinned_world.obj code v × Holds v two_pins)
      (leaving ⦃p = toy⦄ ⦃g = toy_proto⦄
        (λ url. pure true)
        send_to
        recv_from
        shut_down
        (with_peer ⦃p = toy⦄ ⦃g = toy_proto⦄
          (λ url. pure true)
          send_to
          recv_from
          shut_down
          options
          (λ lines. true)
          (codes "hi" ∷ [])
          (codes "f1"))
        pinned_world)
with_peer-Aborts_example =
    with_peer-Aborts ⦃p = toy⦄ ⦃g = toy_proto⦄ toy-Healthy send_to shut_down (λ url. pure true)
      recv_from options (λ lines. true) (codes "hi" ∷ []) (codes "f1") pin two_pins pinned_world
      (codes "http") (codes "r") (codes "/x") refl
      ((λ e. ground arith), ((λ e. ground arith), ((λ e. ground arith), ((λ e. ground arith), tt))))
      ((λ e. ground arith), tt) refl (λ m t. Reaches-modify _ _ refl)
      ((other-IsWord, f1-IsWord), ((key-IsWord, pin-IsWord), tt)) refl
      (further other (codes "f1") pin ((key, pin) ∷ []) other-differs (here pin [])) f1-differs
