-- ===== src/Programs/Client.antt =====
-- client.cpp
use pqc_messaging_app.Prelude.{
  ℕ, Bool, true, false, not, ◌∷◌, ◌++◌, Bytes, codes, length, take, is_empty, if◌then◌else◌,
}
use pqc_messaging_app.Exec.{M, pure, scoped, ◌>>=◌, ◌>>◌}
use pqc_messaging_app.Platform.{Platform}
use pqc_messaging_app.Protobuf.{Protobuf}
use pqc_messaging_app.Files.{exists}
use pqc_messaging_app.Engine.{Outcome, success, failure, load_or_create_identity}
use pqc_messaging_app.Engine.Handshake.{run_client_handshake}
use pqc_messaging_app.Engine.Message.{encrypt_and_serialize_message}
use pqc_messaging_app.Tcp.Transport.{TcpTransport, connect, send_frame, recv_frame, close}
use pqc_messaging_app.Programs.{
  out, err, out_count, Console, print, on_engine, on_transport, on_conn,
}

unfoldable pub prompt : Bool → Bytes
prompt true = codes "[client] Unlock identity. Password: "
prompt false = codes "[client] No identity found. Create one now." ++ (10 ∷ codes "Password: ")

unfoldable pub identity_word : Bool → Bytes
identity_word true = codes "created"
identity_word false = codes "loaded"

unfoldable pub or_hello : Bytes → Bytes
or_hello input = if is_empty input then codes "Hello from client" else input

abbrev pub failed : Bytes → M (Console TcpTransport) ℕ
failed line = print (err line) >> pure 1

module _ ⦃p : Platform⦄ ⦃g : Protobuf⦄ where
  unfoldable pub send_sealed : Outcome Bytes → M (Console TcpTransport) ℕ
  send_sealed (failure e) = failed (codes "[client] Encrypt failed: " ++ codes e)
  send_sealed (success frame) = do
    sent ← on_transport (send_frame frame)
    if not sent
        then failed (codes "[client] Send failed")
        else (print (out_count (codes "[client] Sent ") (length frame) (codes " bytes."))
            >> (on_transport close >> pure 0))

  unfoldable pub after_handshake : Bytes → Outcome Bytes → M (Console TcpTransport) ℕ
  unfolding send_sealed or_hello
  after_handshake input (failure e) = failed (codes "[client] Handshake failed: " ++ codes e)
  after_handshake input (success peer_fp) = do
    print (out (codes "[client] Peer fp: " ++ take 16 peer_fp ++ codes "..."))
    print (out (codes "[client] Enter message: "))
    sealed ←
        on_engine (encrypt_and_serialize_message (or_hello input) (codes "alice") (codes "bob"))
    send_sealed sealed

  -- From the transport's construction on; its destructor closes it.
  unfoldable pub over_tcp : Bytes → M (Console TcpTransport) ℕ
  unfolding after_handshake
  over_tcp input = do
    connected ← on_transport (connect (codes "127.0.0.1") 5555)
    if not connected
        then failed (codes "[client] Connect failed")
        else (on_conn (run_client_handshake send_frame recv_frame) >>= after_handshake input)

  unfoldable pub with_identity : Bytes → Outcome (Bytes × Bool) → M (Console TcpTransport) ℕ
  unfolding over_tcp identity_word
  with_identity input (failure e) = failed (codes "[client] Identity error: " ++ codes e)
  with_identity input (success (fingerprint, created)) = do
    print (
        out (
          codes "[client] Identity "
          ++ identity_word created
          ++ codes ". Fingerprint: "
          ++ take 16 fingerprint
          ++ codes "..."))
    scoped (on_transport close) (over_tcp input)

  -- `main`, with the two lines that are typed; its exit code.
  unfoldable pub main : Bytes → Bytes → M (Console TcpTransport) ℕ
  unfolding prompt with_identity
  main password input = do
    there ← exists "client.id"
    print (out (prompt there))
    identity ← on_engine (load_or_create_identity "client.id" password)
    with_identity input identity
