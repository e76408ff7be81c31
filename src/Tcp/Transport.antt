-- ===== src/Tcp/Transport.antt =====
-- tcp_transport.cpp: the transport and its socket, from its construction to `close`.
use pqc_messaging_app.Prelude.{ℕ, ◌≡◌, refl, Bool, true, false, Option, none, Bytes, if◌then◌else◌}
use pqc_messaging_app.Exec.{ok, err, World, M, pure, modify, try_catch, ◌>>=◌, ◌>>◌}
use pqc_messaging_app.Exec.Reaches.{at}
use pqc_messaging_app.Platform.{Platform}
use pqc_messaging_app.Platform.Calls.{counted}
use pqc_messaging_app.Tcp.{Socket, send, recv}

-- `socket_`, which is not open at first, and what will arrive on the connection made next.
pub record TcpTransport : Type 0 where
  pub is_open : Bool
  pub socket : Socket
  pub coming : Socket

-- A call on the socket, which throws where the socket is not open.
abbrev returned : {A : Type 0} → TcpTransport → A × World Socket → A × World TcpTransport
returned t (r, v) = (r, record { machine = v.machine; obj = record t { socket = v.obj } })

abbrev pub on_socket : {A : Type 0} → M Socket A → A → M TcpTransport A
on_socket m refused w = elim w.obj.is_open [
  | false ↦ (ok refused, w)
  | true ↦ returned w.obj (m (at w.machine w.obj.socket))
]

module _ ⦃p : Platform⦄ where
  -- `resolver.resolve(host, std::to_string(port))`
  unfoldable pub resolve : Bytes → ℕ → M TcpTransport Unit
  resolve host port w = if p.fails w.calls then (err "resolve", counted w) else (ok tt, counted w)

  abbrev opens : World TcpTransport → World TcpTransport
  opens w = record w { obj = record w.obj { is_open = true; socket = w.obj.coming } }

  abbrev shuts : World TcpTransport → World TcpTransport
  shuts w = record w { obj = record w.obj { is_open = false } }

  -- `boost::asio::connect` closes the socket before each attempt.
  unfoldable pub asio_connect : M TcpTransport Unit
  asio_connect w =
      if p.fails w.calls then (err "connect", counted (shuts w)) else (ok tt, counted (opens w))

  -- `acceptor.accept(socket_)`, which does not take a socket that is open.
  unfoldable pub accept : M TcpTransport Unit
  accept w = elim w.obj.is_open [
    | false ↦ if p.fails w.calls then (err "accept", counted w) else (ok tt, counted (opens w))
    | true ↦ (err "Already open", counted w)
  ]

  unfoldable pub connect : Bytes → ℕ → M TcpTransport Bool
  connect host port = try_catch (resolve host port >> (asio_connect >> pure true)) (λ _. false)

  -- `tcp::acceptor acceptor(io_, tcp::endpoint(tcp::v4(), port));`
  unfoldable pub listen : ℕ → M TcpTransport Unit
  listen port w = if p.fails w.calls then (err "bind", counted w) else (ok tt, counted w)

  unfoldable pub listen_and_accept : ℕ → M TcpTransport Bool
  listen_and_accept port = try_catch (listen port >> (accept >> pure true)) (λ _. false)

  unfoldable pub send_frame : Bytes → M TcpTransport Bool
  send_frame frame = on_socket (send frame) false

  unfoldable pub recv_frame : M TcpTransport (Option Bytes)
  recv_frame = on_socket recv none

  unfoldable pub close : M TcpTransport Unit
  close = modify (λ t. record t { is_open = false })

  -- Nothing is received on a transport that is closed: `recv` returns false at once.
  pub close-recv_frame :
      (w : World TcpTransport)
      → (close >> recv_frame) w ≡ (ok none, record w { obj = record w.obj { is_open = false } })
  unfolding close recv_frame ◌>>=◌
  close-recv_frame w = refl
