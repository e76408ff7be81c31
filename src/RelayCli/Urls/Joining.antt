-- ===== src/RelayCli/Urls/Joining.antt =====
-- relay_cli.cpp, beast_ws_transport.cpp and relay_server.cpp: from a room's name to the room at the
-- relay.
use pqc_messaging_app.Prelude.{
  ℕ, ◌≡◌, ◌≢◌, refl, ap, sym, ◌∙◌, Bool, true, false, none, some, [], ◌∷◌, ◌++◌, append_assoc,
  Bytes, codes, All, bytes_eq, if◌then◌else◌, arith,
}
use pqc_messaging_app.Relay.Url.{find, session, do_http}
use pqc_messaging_app.Relay.Url.Decoding.{IsByte, encode}
use pqc_messaging_app.Relay.Url.Query.{find-none}
use pqc_messaging_app.Relay.Url.Routing.{named, room_target, upgrade_to, do_http-room_target}
use pqc_messaging_app.Beast.{ParsedUrl, find_separator, parse_ws_url}
use pqc_messaging_app.Beast.Parsing.{parse_ws_url-url_of}
use pqc_messaging_app.RelayCli.Urls.{starts_with, has_ws, ws_scheme, with_path, with_ws, ws_join}

has_ws-append : (s : Bytes) → has_ws (s ++ codes "/ws") ≡ true
unfolding has_ws starts_with bytes_eq
has_ws-append [] = refl
has_ws-append (x ∷ s) = either _ (has_ws-append s)
  where
    either : (b : Bool) {later : Bool} → later ≡ true → (if b then true else later) ≡ true
    either true h = refl
    either false h = h

abbrev to_host : Bytes → Bytes
to_host hostport = codes "ws://" ++ hostport

module _ (hostport : Bytes) (no_slash : All (λ x. x ≢ 47) hostport)
    (no_query : All (λ x. x ≢ 63) hostport) where
  ws_scheme-http : ws_scheme (codes "http://" ++ hostport) ≡ to_host hostport
  unfolding ws_scheme starts_with bytes_eq
  ws_scheme-http = refl

  with_path-host : with_path (to_host hostport) ≡ to_host hostport ++ codes "/ws"
  unfolding with_path find_separator bytes_eq
  with_path-host = rw (find-none 47 hostport no_slash) refl

  with_ws-path : with_ws (to_host hostport ++ codes "/ws") ≡ to_host hostport ++ codes "/ws"
  unfolding with_ws find_separator bytes_eq
  with_ws-path = rw (has_ws-append hostport) refl

  no_question : find 63 (to_host hostport ++ codes "/ws") ≡ none
  no_question = find-none 63 _ (
    (λ e. ground arith),
    (
      (λ e. ground arith),
      ((λ e. ground arith), ((λ e. ground arith), ((λ e. ground arith), behind hostport no_query))),
    ),
  )
    where
      behind : (s : Bytes) → All (λ x. x ≢ 63) s → All (λ x. x ≢ 63) (s ++ codes "/ws")
      behind [] h = ((λ e. ground arith), ((λ e. ground arith), ((λ e. ground arith), tt)))
      behind (x ∷ s) h = (h.0, behind s h.1)

  ws_join-host :
      (room : Bytes)
      → ws_join (codes "http://" ++ hostport) room
        ≡ ((to_host hostport ++ codes "/ws") ++ codes "?") ++ (codes "room=" ++ room)
  unfolding ws_join
  ws_join-host room = rw (ws_scheme-http, with_path-host, with_ws-path, no_question) refl

abbrev pub room_path : Bytes → Bytes
room_path room = codes "/ws?room=" ++ room

abbrev pub at_relay : Bytes → Bytes → Bytes → ParsedUrl
at_relay host port room = record {
  scheme = codes "ws";
  host = host;
  port = port;
  target = room_path room;
}

encode-kept : (keep : ℕ → Bool) (s : Bytes) → All (λ c. keep c ≡ true) s → encode keep s ≡ s
encode-kept keep [] h = refl
encode-kept keep (c ∷ s) h = rw h.0 (ap (λ t. c ∷ t) (encode-kept keep s h.1))

joined :
    (hostport room : Bytes)
    → ((to_host hostport ++ codes "/ws") ++ codes "?") ++ (codes "room=" ++ room)
      ≡ to_host hostport ++ room_path room
joined hostport room =
    append_assoc (to_host hostport ++ codes "/ws") (codes "?") (codes "room=" ++ room)
    ∙ append_assoc (to_host hostport) (codes "/ws") (codes "?room=" ++ room)

target_kept :
    (keep : ℕ → Bool) (room : Bytes)
    → All (λ c. keep c ≡ true) (codes "room")
    → All (λ c. keep c ≡ true) room
    → room_target keep ((codes "room", room) ∷ []) ≡ room_path room
target_kept keep room keeps_key keeps_room =
    ap (λ k. codes "/ws" ++ (63 ∷ (k ++ (61 ∷ encode keep room))))
      (encode-kept keep (codes "room") keeps_key)
    ∙ ap (λ v. codes "/ws?room=" ++ v) (encode-kept keep room keeps_room)

module _ (keep : ℕ → Bool) (no_percent : keep 37 ≡ false) (no_plus : keep 43 ≡ false)
    (no_amp : keep 38 ≡ false) (no_eq : keep 61 ≡ false) where
  -- For a relay 'http://host:port', where host has at least one character, neither contains
  -- '/' or '?' and the port no ':', and a room of bytes that an encoding, which keeps the
  -- letters of 'room' but none of '%', '+', '&' and '=', keeps: the URL that the client builds
  -- is read by its transport as that host and port and a target, on which an accepted upgrade
  -- request opens a session in just that room at the relay, or in 'default' if it is empty.
  pub ws_join-joins :
      (h : ℕ) (host port room : Bytes)
      → All (λ x. x ≢ 58) port
      → All (λ x. x ≢ 47) ((h ∷ host) ++ (58 ∷ port))
      → All (λ x. x ≢ 63) ((h ∷ host) ++ (58 ∷ port))
      → All (λ c. keep c ≡ true) (codes "room")
      → All (λ c. keep c ≡ true) room
      → All IsByte room
      → (parse_ws_url (ws_join (codes "http://" ++ ((h ∷ host) ++ (58 ∷ port))) room)
          ≡ some (at_relay (h ∷ host) port room))
        × (do_http (upgrade_to (room_path room)) true ≡ session (named room))
  unfolding bytes_eq
  ws_join-joins h host port room port_apart no_slash no_query keeps_key keeps_room bytes = (
    ap parse_ws_url
          (ws_join-host _ no_slash no_query room ∙ joined ((h ∷ host) ++ (58 ∷ port)) room)
        ∙ parse_ws_url-url_of (codes "ws") h host port (codes "ws?room=" ++ room)
            ((λ e. ground arith), ((λ e. ground arith), tt)) port_apart no_slash,
    ap (λ t. do_http (upgrade_to t) true) (sym (target_kept keep room keeps_key keeps_room))
        ∙ do_http-room_target keep no_percent no_plus no_amp no_eq ((codes "room", room) ∷ []) true
            ((omega arith, (omega arith, (omega arith, (omega arith, tt)))), bytes, tt),
  )
