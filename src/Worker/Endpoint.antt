-- ===== src/Worker/Endpoint.antt =====
-- gui/EngineWorker.cpp: `parseEndpoint`, and `ws_join`, the URL of a room at the relay.
pub mod Parsing
use pqc_messaging_app.Prelude.{
  ℕ, zero, suc, ◌%◌, ◌^◌, ◌≤◌, ◌<◌, ◌≡◌, refl, ap, Bool, true, false, ◌&&◌, ◌||◌, Option, none,
  some, List, [], ◌∷◌, ◌++◌, Bytes, codes, take, drop, length, All, ltb, leb, ◌==◌, bytes_eq,
  is_empty, if◌then◌else◌, arith,
}
use pqc_messaging_app.Beast.{rfind}
use pqc_messaging_app.Worker.{Qt, ℤ, pos, negsuc}

-- `if (!ok || p <= 0 || p > 65535) return false; port = static_cast<uint16_t>(p);`
unfoldable pub with_port : Bytes → Option ℤ → Option (Bytes × ℕ)
with_port host none = none
with_port host (some (negsuc n)) = none
with_port host (some (pos n)) = if n == 0 || ltb 65535 n then none else some (host, n % 2 ^ 16)

module _ ⦃q : Qt⦄ where
  unfoldable pub split_at : Bytes → Option ℕ → Option (Bytes × ℕ)
  unfolding with_port
  split_at ep none = none
  split_at ep (some zero) = none
  split_at ep (some (suc i)) = with_port (take (suc i) ep) (q.to_int (drop (suc (suc i)) ep))

  -- The host and the port; `none` where it returns false.
  unfoldable pub parse_endpoint : Bytes → Option (Bytes × ℕ)
  unfolding split_at
  parse_endpoint endpoint = let ep = q.trimmed endpoint in split_at ep (rfind 58 ep)

  unfoldable pub with_ws_scheme : q.QUrl → q.QUrl
  with_ws_scheme u =
      if bytes_eq (q.scheme u) (codes "http")
      then q.set_scheme (codes "ws") u
      else if bytes_eq (q.scheme u) (codes "https")
      then q.set_scheme (codes "wss") u
      else u

  unfoldable pub with_ws_path : q.QUrl → q.QUrl
  with_ws_path u =
      if is_empty (q.path u) || bytes_eq (q.path u) (codes "/")
      then q.set_path (codes "/ws") u
      else u

  unfoldable pub ws_join : Bytes → Bytes → Bytes
  unfolding with_ws_scheme with_ws_path
  ws_join base room =
      q.to_string
        (q.set_query ((codes "room", room) ∷ []) (with_ws_path (with_ws_scheme (q.url base))))
