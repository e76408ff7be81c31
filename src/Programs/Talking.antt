-- ===== src/Programs/Talking.antt =====
-- client.cpp and server.cpp: what the one sends, and what the other prints of it.
use pqc_messaging_app.Prelude.{
  ℕ, ◌+◌, ◌≤◌, ◌<◌, ◌^◌, ◌≡◌, refl, sym, ap, ◌∙◌, subst, Bool, true, false, some, List, [], ◌∷◌,
  ◌++◌, append_assoc, append-nil, Bytes, codes, length, take, drop, drop-append_self, arith,
}
use pqc_messaging_app.Exec.{World, Machine, pure, ◌>>=◌, ◌>>◌, zoom}
use pqc_messaging_app.Exec.Reaches.{
  Reaches, Reaches-weaken, Reaches-then_zoom, Reaches-then_modify, at,
}
use pqc_messaging_app.Platform.{Platform}
use pqc_messaging_app.Platform.Laws.{Healthy, GcmLaws}
use pqc_messaging_app.Protobuf.{Protobuf, ProtobufLaws, EnvelopeSizes}
use pqc_messaging_app.Words.{htonl}
use pqc_messaging_app.Engine.{ConnectionEngine, Outcome, success, failure}
use pqc_messaging_app.Engine.Message.RoundTrip.{
  Sends, SendsSmall, encrypt_and_serialize-SendsSmall, parse_and_decrypt-Sends,
}
use pqc_messaging_app.Tcp.{Socket, send, recv}
use pqc_messaging_app.Tcp.Framing.{socket, send-Reaches, recv-Reaches}
use pqc_messaging_app.Tcp.Transport.{TcpTransport, send_frame, recv_frame, close}
use pqc_messaging_app.Programs.{Printed, out, out_count, Console, print, on_transport}
use pqc_messaging_app.Programs.Client
use pqc_messaging_app.Programs.Client.{or_hello}
use pqc_messaging_app.Programs.Server
use pqc_messaging_app.Programs.Server.{read_message, show_plaintext}

-- A transport on a socket that is open or not.
abbrev pub on : Bool → Socket → Socket → TcpTransport
on is_open s coming = record { is_open = is_open; socket = s; coming = coming }

abbrev pub console : ConnectionEngine → TcpTransport → List Printed → Console TcpTransport
console engine net printed = record { engine = engine; net = net; printed = printed }

-- What the client sends for what is typed.
abbrev pub typed : Bytes → Bytes
typed [] = codes "Hello from client"
typed (c ∷ line) = c ∷ line

or_hello-typed : (line : Bytes) → or_hello line ≡ typed line
unfolding or_hello
or_hello-typed [] = refl
or_hello-typed (c ∷ line) = refl

-- The peer's fingerprint, of which sixteen digits are shown.
abbrev pub peer : Bytes → Bytes → Printed
peer who fp = out (who ++ (codes " Peer fp: " ++ (take 16 fp ++ codes "...")))

module _ ⦃p : Platform⦄ (healthy : Healthy p) where
  send_frame-Reaches :
      (frame : Bytes) (machine : Machine) (s coming : Socket)
      → length frame < 2 ^ 32
      → Reaches
          (λ sent v.
            (sent ≡ true)
            × (v.obj
                ≡ on true
                    (socket (s.sent ++ (htonl (length frame) ++ frame)) s.arrived s.at_end)
                    coming))
          (send_frame frame (at machine (on true s coming)))
  unfolding send_frame
  send_frame-Reaches frame machine s coming fits =
      let r : Reaches
          (λ sent v.
            (sent ≡ true)
            × (v.obj ≡ socket (s.sent ++ (htonl (length frame) ++ frame)) s.arrived s.at_end))
          (send frame (at machine s)) =
        send-Reaches healthy frame (at machine s) fits in
      record {
        value = r.value;
        after = at r.after.machine (on true r.after.obj coming);
        returned = rw r.returned refl;
        holds_of = (r.holds_of.0, ap (λ x. on true x coming) r.holds_of.1);
      }

  recv_frame-Reaches :
      (frame : Bytes) (machine : Machine) (s coming : Socket)
      → length frame < 2 ^ 32
      → s.arrived ≡ htonl (length frame) ++ frame
      → Reaches
          (λ got v. (got ≡ some frame) × (v.obj ≡ on true (socket s.sent [] s.at_end) coming))
          (recv_frame (at machine (on true s coming)))
  unfolding recv_frame
  recv_frame-Reaches frame machine s coming fits arrived =
      let r : Reaches (λ got v. (got ≡ some frame) × (v.obj ≡ socket s.sent [] s.at_end))
          (recv (at machine s)) =
        recv-Reaches healthy frame [] (at machine s) fits
          (arrived ∙ sym (append-nil (htonl (length frame) ++ frame))) in
      record {
        value = r.value;
        after = at r.after.machine (on true r.after.obj coming);
        returned = rw r.returned refl;
        holds_of = (r.holds_of.0, ap (λ x. on true x coming) r.holds_of.1);
      }

module _ ⦃p : Platform⦄ ⦃g : Protobuf⦄ (client server : ConnectionEngine) (s s' k k' : Socket)
    (lines lines' : List Printed) (input client_fp server_fp : Bytes) where
  -- The client is through: its frame is on the wire and counted, its socket closed.
  pub record Sent (code : ℕ) (v : World (Console TcpTransport)) : Type 0 where
    pub frame : Bytes
    pub code_is : code ≡ 0
    pub ends :
        v.obj
        ≡ console client
            (on false (socket (s.sent ++ (htonl (length frame) ++ frame)) s.arrived s.at_end) k)
            (lines
              ++ (peer (codes "[client]") server_fp
                  ∷ out (codes "[client] Enter message: ")
                  ∷ out_count (codes "[client] Sent ") (length frame) (codes " bytes.")
                  ∷ []))
    pub fits : length frame < 2 ^ 32
    pub opens : Sends client.session (typed input) (success frame)

  -- The server is through: it has printed the text, and its socket is closed.
  pub record Shown (code : ℕ) (v : World (Console TcpTransport)) : Type 0 where
    pub code_is : code ≡ 0
    pub ends :
        v.obj
        ≡ console server (on false (socket s'.sent [] s'.at_end) k') (
            lines'
            ++ (peer (codes "[server]") client_fp
                ∷ out (codes "[server] Decrypted: " ++ typed input)
                ∷ []))

  -- The server, when what the client has sent since its handshake has arrived.
  abbrev pub hearing : World (Console TcpTransport) → Console TcpTransport
  hearing v =
      console server
        (on true (socket s'.sent (drop (length s.sent) v.obj.net.socket.sent) s'.at_end) k') lines'

  three :
      (a b c : Printed) → ((lines ++ (a ∷ [])) ++ (b ∷ [])) ++ (c ∷ []) ≡ lines ++ (a ∷ b ∷ c ∷ [])
  three a b c =
      append_assoc (lines ++ (a ∷ [])) (b ∷ []) (c ∷ []) ∙ append_assoc lines (a ∷ []) (b ∷ c ∷ [])

  -- The client has its frame, and two lines are printed.
  abbrev before_sending : Console TcpTransport
  before_sending = console client (on true s k) (
      (lines ++ (peer (codes "[client]") server_fp ∷ []))
      ++ (out (codes "[client] Enter message: ") ∷ []))

  module _ (healthy : Healthy p) where
    closing-Sent :
        (frame : Bytes) (machine : Machine) (net : TcpTransport)
        → net ≡ on true (socket (s.sent ++ (htonl (length frame) ++ frame)) s.arrived s.at_end) k
        → length frame < 2 ^ 32
        → Sends client.session (typed input) (success frame)
        → Reaches Sent (
            (print (out_count (codes "[client] Sent ") (length frame) (codes " bytes."))
                >> (on_transport close >> pure 0))
              (at machine (record before_sending { net = net })))
    unfolding print close ◌>>=◌ zoom
    closing-Sent frame machine net kept fits opens = record {
      value = 0;
      after = _;
      returned = refl;
      holds_of = record {
        frame = frame;
        code_is = refl;
        ends = λ i.
            console client (record (kept i) { is_open = false })
              (three (peer (codes "[client]") server_fp) (out (codes "[client] Enter message: "))
                (out_count (codes "[client] Sent ") (length frame) (codes " bytes.")) i);
        fits = fits;
        opens = opens;
      };
    }

    send_sealed-Sent :
        (o : Outcome Bytes) (machine : Machine)
        → EnvelopeSizes
        → SendsSmall client.session (typed input) o
        → Reaches Sent (Client.send_sealed o (at machine before_sending))
    unfolding Client.send_sealed
    send_sealed-Sent (failure e) machine sizes h = absurd h
    send_sealed-Sent (success frame) machine sizes (opens, small) =
        Reaches-then_zoom _ _ _ _ machine before_sending
          (send_frame-Reaches healthy frame machine s k (small sizes))
          λ sent v (is, kept). rw is (closing-Sent frame v.machine v.obj kept (small sizes) opens)

    show_plaintext-Shown :
        (o : Outcome Bytes) (machine : Machine)
        → o ≡ success (typed input)
        → Reaches Shown (
            show_plaintext o (
              at machine (
                console server
                  (on true (socket s'.sent [] s'.at_end) k')
                  (lines' ++ (peer (codes "[server]") client_fp ∷ [])))))
    unfolding show_plaintext print close ◌>>=◌ zoom
    show_plaintext-Shown o machine is = rw is (record {
      value = 0;
      after = _;
      returned = refl;
      holds_of = record {
        code_is = refl;
        ends =
            ap (λ l. console server (on false (socket s'.sent [] s'.at_end) k') l)
              (append_assoc lines' _ _);
      };
    })

    -- The server's part, where the frame has arrived.
    server-Shown :
        (frame : Bytes) (machine : Machine) (arrived : Bytes)
        → arrived ≡ htonl (length frame) ++ frame
        → length frame < 2 ^ 32
        → Sends server.session (typed input) (success frame)
        → server.session_ready ≡ true
        → Reaches Shown (
            Server.after_handshake
              (success client_fp)
              (at machine (console server (on true (socket s'.sent arrived s'.at_end) k') lines')))
    unfolding Server.after_handshake read_message print
    server-Shown frame machine arrived is fits opens is_ready =
        let heard : List Printed = lines' ++ (peer (codes "[server]") client_fp ∷ []) in
        Reaches-then_modify _ _ _ (
          Reaches-then_zoom _ _ _ _ machine
            (console server (on true (socket s'.sent arrived s'.at_end) k') heard)
            (recv_frame-Reaches healthy frame machine (socket s'.sent arrived s'.at_end) k' fits is)
            λ got v (got_is, left). rw got_is (
              Reaches-then_zoom _ _ _ _ v.machine (console server v.obj heard)
                (parse_and_decrypt-Sends server v.machine frame (typed input) opens is_ready)
                λ o v' (o_is, kept).
                  subst
                    (λ (x : ConnectionEngine × TcpTransport).
                      Reaches Shown (show_plaintext o (at v'.machine (console x.0 x.1 heard))))
                    (λ i. (sym kept i, sym left i)) (show_plaintext-Shown o v'.machine o_is)))

module _ ⦃p : Platform⦄ ⦃g : Protobuf⦄ (healthy : Healthy p) (gcm : GcmLaws) (proto : ProtobufLaws)
    (sizes : EnvelopeSizes) (length_random : (i n : ℕ) → length (p.random i n) ≡ n)
    (alice_utf8 : g.is_utf8 (codes "alice") ≡ true)
    (bob_utf8 : g.is_utf8 (codes "bob") ≡ true) where
  -- Where no foreign call is refused, `GcmLaws`, `ProtobufLaws` and `EnvelopeSizes` hold,
  -- random bytes have the length asked for, 'alice' and 'bob' are UTF-8, the two programs'
  -- engines are ready with one session whose key has 32 bytes, both sockets are open and what
  -- is typed has at most 2^23 - 8 bytes: from its handshake on, client.cpp returns exit code 0
  -- with its engine as it was and its socket closed, has put one frame on the wire behind its
  -- length, and has printed the fingerprint, the prompt and how many bytes the frame has; and
  -- server.cpp, when what the client sent has arrived, returns exit code 0 with its engine as
  -- it was and its socket closed, has read all of it, and has printed the fingerprint and what
  -- was typed, or 'Hello from client' where that is empty.
  pub after_handshake-shows :
      (client server : ConnectionEngine) (s s' k k' : Socket) (lines lines' : List Printed)
      (input client_fp server_fp : Bytes) (machine machine' : Machine)
      → length client.session.key ≡ 32
      → server.session ≡ client.session
      → client.session_ready ≡ true
      → server.session_ready ≡ true
      → length (typed input) + 8 ≤ 2 ^ 23
      → Reaches
          (λ code v.
            Sent client server s s' k k' lines lines' input client_fp server_fp code v
            × Reaches (Shown client server s s' k k' lines lines' input client_fp server_fp) (
                Server.after_handshake (success client_fp) (
                  at machine'
                    (hearing client server s s' k k' lines lines' input client_fp server_fp v))))
          (Client.after_handshake input
            (success server_fp)
            (at machine (console client (on true s k) lines)))
  unfolding Client.after_handshake print
  after_handshake-shows client server s s' k k' lines lines' input client_fp server_fp machine
        machine' size same client_ready server_ready small =
      Reaches-weaken _
        (Reaches-then_modify _ _ _ (
          Reaches-then_modify _ _ _ (
            rw (or_hello-typed input) (
              Reaches-then_zoom _ _ _ _ machine
                (before_sending client server s s' k k' lines lines' input client_fp server_fp)
                (encrypt_and_serialize-SendsSmall healthy gcm proto length_random client machine
                  (typed input) (codes "alice") (codes "bob") size client_ready alice_utf8 bob_utf8
                  (omega (arith, small)))
                λ o v (sends, kept).
                  subst
                    (λ e.
                      Reaches (Sent client server s s' k k' lines lines' input client_fp server_fp)
                        (Client.send_sealed o (
                          at v.machine
                            (record (before_sending client server s s' k k' lines lines' input
                              client_fp server_fp) { engine = e }))))
                    (sym kept)
                    (send_sealed-Sent client server s s' k k' lines lines' input client_fp server_fp
                      healthy o v.machine sizes sends)))))
        λ code v sent. (
          sent,
          server-Shown client server s s' k k' lines lines' input client_fp server_fp healthy
              sent.frame machine' (drop (length s.sent) v.obj.net.socket.sent)
              (ap (λ (c : Console TcpTransport). drop (length s.sent) c.net.socket.sent) sent.ends
                ∙ drop-append_self s.sent (htonl (length sent.frame) ++ sent.frame))
              sent.fits
              (subst (λ x. Sends x (typed input) (success sent.frame)) (sym same) sent.opens)
              server_ready,
        )
