-- ===== src/Beast.antt =====
-- beast_ws_transport.cpp: the parts of a WebSocket URL.
pub mod Parsing
pub mod Transport
use pqc_messaging_app.Prelude.{
  ℕ, suc, not, Bool, true, false, Option, none, some, List, [], ◌∷◌, Bytes, codes, take, drop,
  bytes_eq, is_empty, ◌==◌, if◌then◌else◌,
}
use pqc_messaging_app.Relay.Url.{find}

pub record ParsedUrl : Type 0 where
  pub scheme : Bytes
  pub host : Bytes
  pub port : Bytes
  pub target : Bytes

-- `s.find("://")`
unfoldable pub find_separator : Bytes → Option ℕ
find_separator [] = none
find_separator (x ∷ s) =
    let rest = find_separator s in
    if bytes_eq (take 3 (x ∷ s)) (codes "://")
    then some 0
    else elim rest [ none ↦ none | some i ↦ some (suc i) ]

-- `s.rfind(c)`
unfoldable pub rfind : ℕ → Bytes → Option ℕ
rfind c [] = none
rfind c (x ∷ s) = elim (rfind c s) [
  | none ↦ if x == c then some 0 else none
  | some i ↦ some (suc i)
]

unfoldable pub host_part : Option ℕ → Bytes → Bytes
host_part none rest = rest
host_part (some slash) rest = take slash rest

unfoldable pub target_part : Option ℕ → Bytes → Bytes
target_part none rest = 47 ∷ []
target_part (some slash) rest = drop slash rest

abbrev pub default_port : Bytes → Bytes
default_port scheme = if bytes_eq scheme (codes "wss") then codes "443" else codes "80"

unfoldable pub with_port : Bytes → Bytes → Bytes → Option ℕ → ParsedUrl
with_port scheme hostport target none = record {
  scheme = scheme;
  host = hostport;
  port = default_port scheme;
  target = target;
}
with_port scheme hostport target (some colon) = record {
  scheme = scheme;
  host = take colon hostport;
  port = drop (suc colon) hostport;
  target = target;
}

-- `none` is `false`. The target is never empty: it is "/" or begins with the slash found.
unfoldable pub parsed : Bytes → Bytes → Option ParsedUrl
parsed scheme rest =
    let slash = find 47 rest in
    let hostport = host_part slash rest in
    let out : ParsedUrl = with_port scheme hostport (target_part slash rest) (rfind 58 hostport) in
    if is_empty out.host then none else some out

unfoldable pub parse_ws_url : Bytes → Option ParsedUrl
parse_ws_url url = elim (find_separator url) [
  | none ↦ none
  | some pos ↦ parsed (take pos url) (drop 3 (drop pos url))
]
