-- ===== src/RelayCli/Urls.antt =====
-- relay_cli.cpp: `ws_join`, the URL of a room, and `url_host`, the relay's name in the pin file.
pub mod Joining
use pqc_messaging_app.Prelude.{
  ℕ, ◌+◌, Bool, true, false, Option, none, some, List, [], ◌∷◌, ◌++◌, Bytes, codes, length, take,
  drop, bytes_eq, if◌then◌else◌,
}
use pqc_messaging_app.Relay.Url.{find, before}
use pqc_messaging_app.Beast.{find_separator}

-- `s.rfind(prefix, 0) == 0`
unfoldable pub starts_with : Bytes → Bytes → Bool
starts_with prefix s = bytes_eq (take (length prefix) s) prefix

-- `s.find("/ws") != npos`
unfoldable pub has_ws : Bytes → Bool
has_ws [] = false
has_ws (x ∷ s) = let later = has_ws s in if starts_with (codes "/ws") (x ∷ s) then true else later

-- `s.find("://") + 3`, which is 2 where there is none, since `npos` is the greatest `size_t`.
abbrev pub behind_separator : Option ℕ → ℕ
behind_separator none = 2
behind_separator (some i) = i + 3

abbrev pub from_host : Bytes → Bytes
from_host url = drop (behind_separator (find_separator url)) url

abbrev pub is_none : Option ℕ → Bool
is_none none = true
is_none (some i) = false

unfoldable pub ws_scheme : Bytes → Bytes
unfolding starts_with
ws_scheme url =
    if starts_with (codes "http://") url
    then codes "ws" ++ drop 4 url
    else if starts_with (codes "https://") url
    then codes "wss" ++ drop 5 url
    else url

-- `if (url.find('/', url.find("://") + 3) == npos) url += "/ws";`
unfoldable pub with_path : Bytes → Bytes
with_path url = if is_none (find 47 (from_host url)) then url ++ codes "/ws" else url

-- The block under "add /ws when the path is empty".
unfoldable pub with_ws : Bytes → Bytes
unfolding has_ws with_path
with_ws url = if has_ws (from_host url) then url else with_path url

unfoldable pub ws_join : Bytes → Bytes → Bytes
unfolding ws_scheme with_path with_ws
ws_join base room =
    let url = with_ws (with_path (ws_scheme base)) in
    (url ++ (if is_none (find 63 url) then codes "?" else codes "&")) ++ (codes "room=" ++ room)

unfoldable pub host_rest : Option ℕ → Bytes → Bytes
host_rest none url = url
host_rest (some pos) url = drop (pos + 3) url

unfoldable pub url_host : Bytes → Bytes
unfolding host_rest
url_host url = let rest = host_rest (find_separator url) url in before (find 47 rest) rest
