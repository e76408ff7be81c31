-- ===== src/Relay/Url.antt =====
-- relay_server.cpp: `url_decode` and `get_query_value`.
pub mod Decoding
pub mod Query
pub mod Routing
use pqc_messaging_app.Prelude.{
  ℕ, zero, suc, ◌+◌, ◌-◌, ◌*◌, ◌%◌, Bool, true, false, ◌&&◌, ◌||◌, Option, none, some, List, [],
  ◌∷◌, Bytes, length, take, drop, codes, not, bytes_eq, is_empty, ltb, leb, ◌==◌, if◌then◌else◌,
}

-- A hexadecimal digit of either case.
unfoldable pub hex_value : ℕ → Option ℕ
hex_value c =
    if leb 48 c && leb c 57
    then some (c - 48)
    else if leb 97 c && leb c 102
    then some (c - 87)
    else if leb 65 c && leb c 70
    then some (c - 55)
    else none

unfoldable pub or_zero : Option ℕ → ℕ
or_zero none = 0
or_zero (some d) = d

unfoldable pub is_space : ℕ → Bool
is_space c = c == 32 || (leb 9 c && leb c 13)

unfoldable pub digits : Option ℕ → Option ℕ → ℕ
digits none b = 0
digits (some a) none = a
digits (some a) (some b) = a * 16 + b

-- `std::stringstream ss; ss << std::hex << {a, b}; unsigned int x = 0; ss >> x;` and `x` as a `char`:
-- white space is skipped, a sign is taken, and what is no number gives 0.
unfoldable pub hex_pair : ℕ → ℕ → ℕ
hex_pair a b =
    if is_space a || a == 43
    then or_zero (hex_value b)
    else if a == 45
    then (256 - or_zero (hex_value b)) % 256
    else digits (hex_value a) (hex_value b)

unfoldable pub plain : ℕ → ℕ
plain c = if c == 43 then 32 else c

unfoldable pub url_decode : Bytes → Bytes
url_decode [] = []
url_decode (c ∷ []) = plain c ∷ []
url_decode (c ∷ a ∷ []) = plain c ∷ plain a ∷ []
url_decode (c ∷ a ∷ b ∷ s) = elim (c == 37) [
  | true ↦ hex_pair a b ∷ url_decode s
  | false ↦ plain c ∷ url_decode (a ∷ b ∷ s)
]

-- `s.find(c)`
unfoldable pub find : ℕ → Bytes → Option ℕ
find c [] = none
find c (x ∷ s) =
    let rest = find c s in
    if x == c then some 0 else elim rest [ none ↦ none | some i ↦ some (suc i) ]

-- `at == npos ? part : part.substr(0, at)`, and `at == npos ? "" : part.substr(at + 1)`.
unfoldable pub before : Option ℕ → Bytes → Bytes
before none part = part
before (some at) part = take at part

unfoldable pub behind : Option ℕ → Bytes → Bytes
behind none part = []
behind (some at) part = drop (suc at) part

-- The loop on `query.substr(pos)`. A turn takes at least one character, so that as much fuel as
-- there are characters is enough.
unfoldable pub query_loop : ℕ → Bytes → Bytes → Bytes
query_loop zero query key = []
query_loop (suc fuel) [] key = []
query_loop (suc fuel) (c ∷ s) key =
    let amp = find 38 (c ∷ s) in
    let part = before amp (c ∷ s) in
    let eq = find 61 part in
    let rest = query_loop fuel (behind amp (c ∷ s)) key in
    if bytes_eq (url_decode (before eq part)) key then url_decode (behind eq part) else rest

unfoldable pub get_query_value : Bytes → Bytes → Bytes
get_query_value target key = elim (find 63 target) [
  | none ↦ []
  | some qpos ↦ let query = drop (suc qpos) target in query_loop (length query) query key
]

-- What `do_http` looks at in a request; `is_upgrade` is `websocket::is_upgrade(req)`.
pub record Request : Type 0 where
  pub is_get : Bool
  pub target : Bytes
  pub is_upgrade : Bool

-- 200 "ok", 400, a session in a room, a failed WebSocket handshake, or 404.
pub data Reply : Type 0 where
  health : Reply
  bad_request : Reply
  session : Bytes → Reply
  no_session : Reply
  not_found : Reply

abbrev pub default_room : Bytes
default_room = codes "default"

abbrev pub or_default : Bytes → Bytes
or_default room = if is_empty room then default_room else room

-- `accepted`: whether `ws.accept(req, ec)` leaves no error in `ec`.
unfoldable pub do_http : Request → Bool → Reply
do_http req accepted =
    if req.is_get && bytes_eq req.target (codes "/health")
    then health
    else if req.is_upgrade
    then (if not (bytes_eq (take 3 req.target) (codes "/ws"))
        then bad_request
        else if accepted
        then session (or_default (get_query_value req.target (codes "room")))
        else no_session)
    else not_found
