-- ===== src/Tcp.antt =====
-- tcp_transport.cpp: a frame is its length, four bytes in network order, and its payload.
pub mod Framing
pub mod Transport
use pqc_messaging_app.Prelude.{
  ℕ, ◌+◌, ◌%◌, ◌^◌, Bool, true, false, not, Option, none, some, List, [], ◌∷◌, ◌++◌, Bytes, length,
  take, drop, ltb, leb, ◌==◌, if◌then◌else◌,
}
use pqc_messaging_app.Exec.{
  ok, err, hang, World, M, pure, raise, wait_for_ever, try_catch, ◌>>=◌, ◌>>◌,
}
use pqc_messaging_app.Platform.{Platform}
use pqc_messaging_app.Platform.Calls.{counted}
use pqc_messaging_app.Words.{htonl, ntohl}

-- What the socket was given to send, what has arrived and is not read yet, and whether the peer has
-- closed its end, so that nothing more arrives.
pub record Socket : Type 0 where
  pub sent : Bytes
  pub arrived : Bytes
  pub at_end : Bool

abbrev pub give : Bytes → World Socket → World Socket
give bytes w = record w { obj = record w.obj { sent = w.obj.sent ++ bytes } }

abbrev pub taken : ℕ → World Socket → World Socket
taken n w = record w { obj = record w.obj { arrived = drop n w.obj.arrived } }

module _ ⦃p : Platform⦄ where
  -- boost::asio::write: all of the bytes, or an exception after some of them.
  unfoldable pub asio_write : Bytes → M Socket Unit
  asio_write bytes w =
      if p.fails w.calls
      then (err "write", counted (give (take (p.sent_anyway w.calls) bytes) w))
      else (ok tt, counted (give bytes w))

  -- boost::asio::read of n bytes: it waits for them, and throws where the stream ends before.
  unfoldable pub asio_read : ℕ → M Socket Bytes
  asio_read n w =
      if p.fails w.calls
      then (err "read", counted w)
      else if leb n (length w.obj.arrived)
      then (ok (take n w.obj.arrived), counted (taken n w))
      else if w.obj.at_end
      then (err "End of file", counted (taken n w))
      else (hang, w)

  -- `len` is the size as a `uint32_t`.
  unfoldable pub write_frame : Bytes → M Socket Bool
  write_frame frame =
      let len = length frame % 2 ^ 32 in
      asio_write (htonl len) >> (if len == 0 then pure true else (asio_write frame >> pure true))

  unfoldable pub send : Bytes → M Socket Bool
  send frame = try_catch (write_frame frame) (λ _. false)

  unfoldable pub read_frame : M Socket (Option Bytes)
  read_frame = do
    net_len ← asio_read 4
    if ntohl net_len == 0
        then pure (some [])
        else (do frame ← asio_read (ntohl net_len); pure (some frame))

  -- `none` is `false`.
  unfoldable pub recv : M Socket (Option Bytes)
  recv = try_catch read_frame (λ _. none)
