-- ===== src/Relay/Url/Routing.antt =====
-- relay_server.cpp: which requests `do_http` turns into a session, and in which room.
use pqc_messaging_app.Prelude.{
  ℕ, ◌≡◌, refl, ◌∙◌, [], ap, Bool, true, false, List, ◌∷◌, ◌++◌, Bytes, codes, bytes_eq, arith,
  if◌then◌else◌,
}
use pqc_messaging_app.Relay.Url.{Request, session, no_session, do_http, or_default}
use pqc_messaging_app.Relay.Url.Query.{AreBytes, query, lookup, get_query_value-query}

abbrev pub room_target : (ℕ → Bool) → List (Bytes × Bytes) → Bytes
room_target keep kvs = codes "/ws" ++ (63 ∷ query keep kvs)

abbrev pub upgrade_to : Bytes → Request
upgrade_to target = record { is_get = true; target = target; is_upgrade = true }

-- The room that a name stands for.
abbrev pub named : Bytes → Bytes
named [] = codes "default"
named (c ∷ name) = c ∷ name

or_default-named : (name : Bytes) → or_default name ≡ named name
or_default-named [] = refl
or_default-named (c ∷ name) = refl

module _ (keep : ℕ → Bool) (no_percent : keep 37 ≡ false) (no_plus : keep 43 ≡ false)
    (no_amp : keep 38 ≡ false) (no_eq : keep 61 ≡ false) where
  -- An upgrade request for "/ws?" and pairs of byte strings, percent-encoded with an encoding
  -- that keeps none of '%', '+', '&' and '=', opens a session in the room that the first pair
  -- with the key "room" names, or in "default" where there is none or its value is empty; and
  -- no session where the WebSocket handshake fails.
  pub do_http-room_target :
      (kvs : List (Bytes × Bytes)) (accepted : Bool)
      → AreBytes kvs
      → do_http (upgrade_to (room_target keep kvs)) accepted
        ≡ (if accepted then session (named (lookup (codes "room") kvs)) else no_session)
  unfolding do_http bytes_eq
  do_http-room_target kvs accepted bytes =
      ap (λ room. if accepted then session (or_default room) else no_session)
        (get_query_value-query keep no_percent no_plus no_amp no_eq (codes "/ws") kvs (codes "room")
          ((λ e. ground arith), ((λ e. ground arith), ((λ e. ground arith), tt))) bytes)
      ∙ ap (λ room. if accepted then session room else no_session)
          (or_default-named (lookup (codes "room") kvs))
