-- ===== src/Lib.antt =====
-- An end-to-end encrypted messenger with a post-quantum handshake, as its C++ sources are written.
--
-- A `ConnectionEngine` (connection_engine.cpp) holds an identity, a session and whether the session
-- is ready. It gets its identity from a profile file that a password protects (identity.cpp), makes
-- a handshake through two callbacks of a transport, in which a Kyber-512 key pair of the client
-- (kem_kyber.cpp) carries a secret to it and both sides sign what they send, derives a session key
-- from the secret (hkdf.cpp), and then makes frames of messages and messages of frames with
-- AES-256-GCM (session.h, crypto.h). Frames travel over TCP (tcp_transport.cpp) or through a relay
-- that knows nothing of their content (relay_server.cpp), which is reached by one of two WebSocket
-- transports (ws_transport.cpp, beast_ws_transport.cpp). The engine is used by a window, whose
-- worker object (gui/EngineWorker.cpp) owns it, a transport and a thread that receives, and by three
-- programs: client.cpp and server.cpp over TCP, and relay_cli.cpp, which pins the fingerprints that
-- it saw first.
--
-- The files:
--   Prelude     shared names, lists and Boolean tests on native numbers;
--   Exec        how C++ code runs: a call changes the machine and its object, and returns, throws or
--               waits for ever. Its children are judgements on calls: what they own (Owns), what
--               they answer if nothing is refused (Answers, and Reaches from one state), what holds
--               however they end (Runs; Ensures for values alone) and where they return (Hoare),
--               that they come to an end (Ends), and that they never do (Hangs);
--   Platform    libcrypto, liboqs, the random generator and the clock, as a parameter. `fails i`
--               refuses the i-th call of foreign code. Laws has what is relied on;
--   Crypto      crypto.h: encrypt, decrypt, random_nonce (Release: handles; Gcm: values);
--   Hkdf, Kem, Session   hkdf.cpp with protocol.h, kem_kyber.cpp, session.h;
--   Words, Files   htonl and ntohl, and the streams and files that identity.cpp uses;
--   Identity    identity.cpp: create_profile and load_profile (Writing, Layout, RoundTrip), sign and
--               verify (Keys), fingerprint_hex (Fingerprint);
--   Protobuf    the messages of envelope.proto, handshake.proto and messages.proto, and their
--               serialization as a parameter;
--   Engine      connection_engine.cpp: loadOrCreateIdentity here, runClientHandshake and
--               runServerHandshake with their internal functions in Handshake,
--               encryptAndSerializeMessage and parseAndDecryptMessage in Message; Loopback joins two
--               engines as tools/engine_loopback_test.cpp does, and Loopback/Message sends a
--               message through them;
--   Tcp         tcp_transport.cpp: send and recv on a byte stream (Framing), and the transport from
--               connect or listen_and_accept to close (Transport);
--   Relay       relay_server.cpp: Rooms has g_rooms and WsSession::do_run as a step relation, a step
--               for each block under the lock, Url has url_decode, get_query_value and do_http;
--   Beast       beast_ws_transport.cpp: parse_ws_url, and the transport (Transport; Pointers is about
--               its two pointers);
--   WebSocket   ws_transport.cpp: the slots, connect_url, send, recv and close; the signals to come
--               are grouped by the pass of the event loop that delivers them. Reachable has the
--               transport between the thread of its socket and others;
--   Worker      gui/EngineWorker.cpp: parseEndpoint and ws_join (Endpoint), sendMessage and recvLoop
--               (Receive), disconnectFromPeer (Disconnect), the four slots that connect (Connect),
--               and what the window, the receive thread and the network do in any order (Steps);
--   Window      gui/MainWindow.cpp: its slots, and the window with its worker (Steps); Kept is the rule
--               for what the user's actions keep, Label and Requests are two uses of it;
--   RelayCli    relay_cli.cpp: ws_join and url_host (Urls), load_pin and save_pin (Pins);
--   Programs    client.cpp, server.cpp, and the main function of relay_cli.cpp (Relay), each with
--               the scope of its transport, whose destructor closes it; Talking joins the first two;
--   Examples    stand-ins for the foreign code, and runs at concrete inputs.
--
-- How the code corresponds: a class is a record of its fields; a method works on a `World` of the
-- object and the machine; an output parameter is part of the value, or of the object where the code
-- writes to it before an error can come. `errorOut = e; return false` under a handler that turns
-- every exception into that is `raise e`. A handle of libcrypto or liboqs is a number; `live` lists
-- those not freed yet, and `corrupt` records that one was freed that was not live. From there on the
-- program is undefined, and what the model does after it stands for what the code is written to do.
-- Bytes are numbers; a 32-bit length is written with its wrap-around.
--
-- Fuel: `query_loop` starts with the length of the query, and each turn of the loop takes at least one
-- character. `recv_loop` is given as many turns as one looks at, and is still in its loop where they
-- are spent; a thread that is joined has one for each message that has arrived and one more.
--
-- Threads: a slot of the worker, and a turn of its receive loop, is one step, so that what two threads
-- do to the worker within one step is not interleaved; a call that waits is a step when its wait is
-- over. A wait in the thread that alone could end it is `hang`. `misses` says where `close` of
-- ws_transport.cpp, which does not hold the lock, notifies a receive thread that is not asleep yet:
-- the join of that thread is then `hang` too.
--
-- Not modelled: the layout of the window's widgets and its destructor (gui/MainWindow.cpp), the
-- calls of Boost in the sockets of the relay, and serialization itself; how the receive thread of
-- relay_cli.cpp interleaves with the lines that are typed; frames of 2 GiB and more, whose size an
-- `int` does not hold; memory that runs out. In the loopback the server's thread runs while the
-- client waits. The blocking queues allow no other order of the messages; the two sides' foreign
-- calls may interleave otherwise, which matters only for which call gets which random bytes.
pub mod Prelude
pub mod Exec
pub mod Platform
pub mod Crypto
pub mod Hkdf
pub mod Words
pub mod Files
pub mod Session
pub mod Kem
pub mod Identity
pub mod Protobuf
pub mod Engine
pub mod Tcp
pub mod Relay
pub mod Beast
pub mod WebSocket
pub mod Worker
pub mod Window
pub mod RelayCli
pub mod Programs
pub mod Examples
