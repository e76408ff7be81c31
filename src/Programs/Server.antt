-- ===== src/Programs/Server.antt =====
-- server.cpp
use pqc_messaging_app.Prelude.{
  ℕ, Bool, not, Option, none, some, ◌++◌, Bytes, codes, take, if◌then◌else◌,
}
use pqc_messaging_app.Exec.{M, pure, scoped, ◌>>=◌, ◌>>◌}
use pqc_messaging_app.Platform.{Platform}
use pqc_messaging_app.Protobuf.{Protobuf}
use pqc_messaging_app.Engine.{Outcome, success, failure, load_or_create_identity}
use pqc_messaging_app.Engine.Handshake.{run_server_handshake}
use pqc_messaging_app.Engine.Message.{parse_and_decrypt_message}
use pqc_messaging_app.Tcp.Transport.{TcpTransport, listen_and_accept, send_frame, recv_frame, close}
use pqc_messaging_app.Programs.{out, Console, print, on_engine, on_transport, on_conn}
use pqc_messaging_app.Programs.Client.{identity_word, failed}

module _ ⦃p : Platform⦄ ⦃g : Protobuf⦄ where
  unfoldable pub show_plaintext : Outcome Bytes → M (Console TcpTransport) ℕ
  show_plaintext (failure e) = failed (codes "[server] decrypt failed: " ++ codes e)
  show_plaintext (success plaintext) =
      print (out (codes "[server] Decrypted: " ++ plaintext)) >> (on_transport close >> pure 0)

  unfoldable pub read_message : Option Bytes → M (Console TcpTransport) ℕ
  unfolding show_plaintext
  read_message none = failed (codes "[server] recv Envelope failed")
  read_message (some frame) = on_engine (parse_and_decrypt_message frame) >>= show_plaintext

  unfoldable pub after_handshake : Outcome Bytes → M (Console TcpTransport) ℕ
  unfolding read_message
  after_handshake (failure e) = failed (codes "[server] Handshake failed: " ++ codes e)
  after_handshake (success peer_fp) = do
    print (out (codes "[server] Peer fp: " ++ take 16 peer_fp ++ codes "..."))
    frame ← on_transport recv_frame
    read_message frame

  -- From the transport's construction on; its destructor closes it.
  unfoldable pub over_tcp : M (Console TcpTransport) ℕ
  unfolding after_handshake
  over_tcp = do
    print (out (codes "[server] Listening on 5555..."))
    accepted ← on_transport (listen_and_accept 5555)
    if not accepted
        then failed (codes "[server] accept failed")
        else (print (out (codes "[server] Client connected"))
            >> (on_conn (run_server_handshake send_frame recv_frame) >>= after_handshake))

  unfoldable pub with_identity : Outcome (Bytes × Bool) → M (Console TcpTransport) ℕ
  unfolding over_tcp
  with_identity (failure e) = failed (codes "[server] Identity error: " ++ codes e)
  with_identity (success (fingerprint, created)) = do
    print (
        out (
          codes "[server] Identity "
          ++ identity_word created
          ++ codes ". fp: "
          ++ take 16 fingerprint
          ++ codes "..."))
    scoped (on_transport close) over_tcp

  -- `main`, with the line that is typed; its exit code.
  unfoldable pub main : Bytes → M (Console TcpTransport) ℕ
  unfolding with_identity
  main password = do
    print (out (codes "[server] Password to create/unlock server identity: "))
    identity ← on_engine (load_or_create_identity "server.id" password)
    with_identity identity
