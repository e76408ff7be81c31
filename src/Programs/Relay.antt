-- ===== src/Programs/Relay.antt =====
-- relay_cli.cpp: the program. The transport is an argument, as the engine's callbacks are.
pub mod CommandLine
pub mod Aborting
use pqc_messaging_app.Prelude.{
  ℕ, zero, suc, String, Bool, true, false, not, Option, none, some, List, [], ◌∷◌, ◌++◌, Bytes,
  codes, take, is_empty, if◌then◌else◌,
}
use text.Mathlib.Text.{◌==◌ as str_eq}
use pqc_messaging_app.Exec.{M, pure, scoped, ◌>>=◌, ◌>>◌}
use pqc_messaging_app.Platform.{Platform}
use pqc_messaging_app.Protobuf.{Protobuf}
use pqc_messaging_app.Engine.{Outcome, success, failure, load_or_create_identity}
use pqc_messaging_app.Engine.Handshake.{run_client_handshake, run_server_handshake}
use pqc_messaging_app.Engine.Message.{encrypt_and_serialize_message, parse_and_decrypt_message}
use pqc_messaging_app.RelayCli.Urls.{ws_join, url_host}
use pqc_messaging_app.RelayCli.Pins.{check_peer}
use pqc_messaging_app.Programs.{Printed, out, err, Console, print, on_engine, on_transport, on_conn}
use pqc_messaging_app.Programs.Client.{identity_word}
use pqc_messaging_app.Programs.Relay.CommandLine.{Options}

-- What the receive thread prints for a frame.
unfoldable pub shown : Outcome Bytes → Printed
shown (success plain) = out (codes "Peer: " ++ plain)
shown (failure e) = out (codes "[drop] " ++ codes e)

abbrev pub pin_key : Options → Bytes
pin_key o = url_host (codes o.relay) ++ (codes "#" ++ codes o.room)

module _ ⦃p : Platform⦄ ⦃g : Protobuf⦄ {T : Type 0} (connect_url : Bytes → M T Bool)
    (send : Bytes → M T Bool) (recv : M T (Option Bytes)) (close : M T Unit) where
  abbrev pub failed : Bytes → M (Console T) ℕ
  failed line = print (err line) >> pure 1

  unfoldable pub received : Option Bytes → M (Console T) Bool
  unfolding shown
  received none = pure false
  received (some frame) = do
    outcome ← on_engine (parse_and_decrypt_message frame)
    print (shown outcome)
    pure true

  -- A turn of the receive thread, and whether another follows.
  unfoldable pub recv_turn : M (Console T) Bool
  unfolding received
  recv_turn = on_transport recv >>= received

  -- What is done with a line that was encrypted, and whether the loop goes on.
  unfoldable pub send_sealed : Outcome Bytes → M (Console T) Bool
  send_sealed (failure e) = print (err (codes "Encrypt failed: " ++ codes e)) >> pure false
  send_sealed (success frame) = do
    sent ← on_transport (send frame)
    if not sent then (print (err (codes "Send failed")) >> pure false) else pure true

  unfoldable pub send_line : Bytes → M (Console T) Bool
  unfolding send_sealed
  send_line line =
      if is_empty line
      then pure true
      else (on_engine (encrypt_and_serialize_message line (codes "cli") (codes "peer"))
          >>= send_sealed)

  -- The loop on the lines that are typed. `running i` is what the flag holds when the loop tests it
  -- with `i` lines left, since the receive thread may have cleared it.
  unfoldable pub send_loop : (List Bytes → Bool) → List Bytes → M (Console T) Unit
  unfolding send_line
  send_loop running [] = pure tt
  send_loop running (line ∷ lines) =
      let later = send_loop running lines in
      if not (running (line ∷ lines))
      then pure tt
      else (send_line line >>= λ again. if again then later else pure tt)

  -- What is done with a peer, trusted or not. Of the warning the first line is kept.
  unfoldable pub talk : Options → (List Bytes → Bool) → List Bytes → Bool → M (Console T) ℕ
  unfolding send_loop
  talk o running lines false =
      failed (codes "[TOFU] Peer fingerprint changed for room '" ++ codes o.room ++ codes "'!")
  talk o running lines true = do
    print (out (codes "Type messages, Ctrl-D to quit"))
    send_loop running lines
    on_transport close
    pure 0

  unfoldable pub with_peer : Options → (List Bytes → Bool) → List Bytes → Bytes → M (Console T) ℕ
  unfolding talk
  with_peer o running lines peer_fp = check_peer (pin_key o) peer_fp >>= talk o running lines

  unfoldable pub after_handshake :
      Options → (List Bytes → Bool) → List Bytes → Outcome Bytes → M (Console T) ℕ
  unfolding with_peer
  after_handshake o running lines (failure e) = failed (codes "Handshake failed: " ++ codes e)
  after_handshake o running lines (success peer_fp) =
      print (out (codes "Peer fp: " ++ take 16 peer_fp ++ codes "..."))
      >> with_peer o running lines peer_fp

  unfoldable pub handshake : Options → M (Console T) (Outcome Bytes)
  handshake o =
      if str_eq o.mode "host"
      then on_conn (run_server_handshake send recv)
      else on_conn (run_client_handshake send recv)

  -- From the transport's construction on.
  unfoldable pub over_line : Options → (List Bytes → Bool) → List Bytes → M (Console T) ℕ
  unfolding handshake after_handshake
  over_line o running lines = do
    print (out (codes "Connecting to " ++ ws_join (codes o.relay) (codes o.room) ++ codes " ..."))
    connected ← on_transport (connect_url (ws_join (codes o.relay) (codes o.room)))
    if not connected
        then failed (codes "WebSocket connect failed")
        else (handshake o >>= after_handshake o running lines)

  -- The transport's scope: its destructor closes it, whatever is returned or thrown.
  unfoldable pub leaving : M (Console T) ℕ → M (Console T) ℕ
  leaving m = scoped (on_transport close) m

  unfoldable pub with_identity :
      Options → (List Bytes → Bool) → List Bytes → Outcome (Bytes × Bool) → M (Console T) ℕ
  unfolding over_line leaving
  with_identity o running lines (failure e) = failed (codes "Identity error: " ++ codes e)
  with_identity o running lines (success (fingerprint, created)) = do
    print (
        out (
          codes "Identity "
          ++ identity_word created
          ++ codes ", fp: "
          ++ take 16 fingerprint
          ++ codes "..."))
    leaving (over_line o running lines)

  -- `main` with options that it goes on with and the lines that are typed, the first of them the
  -- password where none was given; its exit code.
  unfoldable pub main : Options → (List Bytes → Bool) → Bytes → List Bytes → M (Console T) ℕ
  unfolding with_identity
  main o running typed lines =
      on_engine (load_or_create_identity o.id_path (if str_eq o.pw "" then typed else codes o.pw))
      >>= with_identity o running lines
