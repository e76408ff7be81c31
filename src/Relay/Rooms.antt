-- ===== src/Relay/Rooms.antt =====
-- relay_server.cpp: `g_rooms` and `WsSession::do_run`. A session is a number. Each block that holds
-- `g_rooms_mtx` is one step.
pub mod Members
use pqc_messaging_app.Prelude.{
  ℕ, ◌≡◌, Bool, true, false, not, ◌&&◌, Option, none, some, List, [], ◌∷◌, ◌++◌, Bytes, bytes_eq,
  is_empty, ◌==◌, if◌then◌else◌,
}

-- `g_rooms` with the members of each room; and the live WsSession objects with their `room`, so that
-- a weak pointer to `s` is expired where `sessions s` is `none`.
pub record Relay : Type 0 where
  pub rooms : Bytes → Option (List ℕ)
  pub sessions : ℕ → Option Bytes

-- `vec.erase(std::remove_if(...), vec.end())` of what does not pass, and `peers.push_back` of what does.
abbrev pub filter : (ℕ → Bool) → List ℕ → List ℕ
filter keep [] = []
filter keep (s ∷ ss) = if keep s then s ∷ filter keep ss else filter keep ss

abbrev pub is_live : Option Bytes → Bool
is_live none = false
is_live (some room) = true

abbrev pub live : Relay → ℕ → Bool
live g s = is_live (g.sessions s)

-- `g_rooms[room]`
abbrev pub members : Option (List ℕ) → List ℕ
members none = []
members (some vec) = vec

abbrev pub set_room : Bytes → Option (List ℕ) → (Bytes → Option (List ℕ)) → Bytes → Option (List ℕ)
set_room room vec rooms other = if bytes_eq room other then vec else rooms other

abbrev pub set_session : ℕ → Option Bytes → (ℕ → Option Bytes) → ℕ → Option Bytes
set_session self room sessions other = if self == other then room else sessions other

-- The first block of `do_run(room)` by a new session.
unfoldable pub join : ℕ → Bytes → Relay → Relay
join self room g =
    let g' : Relay = record g { sessions = set_session self (some room) g.sessions } in
    record g' {
      rooms =
          set_room room (some (filter (live g') (members (g'.rooms room)) ++ (self ∷ []))) g'.rooms;
    }

-- The block of a read: the peers to write to.
unfoldable pub peers : ℕ → Bytes → Relay → List ℕ
peers self room g = filter (λ s. live g s && not (s == self)) (members (g.rooms room))

-- What the same block leaves: without dead weak pointers, if there is such a room.
unfoldable pub drop_dead : Bytes → Relay → Relay
drop_dead room g = elim (g.rooms room) [
  | none ↦ g
  | some vec ↦ record g { rooms = set_room room (some (filter (live g) vec)) g.rooms }
]

-- An empty vector's room is erased.
abbrev pub kept_room : List ℕ → Option (List ℕ)
kept_room [] = none
kept_room (s ∷ ss) = some (s ∷ ss)

-- The last block, and the end of the session object.
unfoldable pub leave : ℕ → Bytes → Relay → Relay
leave self room g = record {
  rooms = elim (g.rooms room) [
    | none ↦ g.rooms
    | some vec ↦ set_room room (kept_room (filter (λ s. live g s && not (s == self)) vec)) g.rooms
  ];
  sessions = set_session self none g.sessions;
}

abbrev pub start : Relay
start = record { rooms = λ room. none; sessions = λ s. none }

-- What the session threads do, in any order: a new session joins a room, a session in a room
-- relays a message there, a session leaves.
pub data Step : Relay → Relay → Type 0 where
  joins : (g : Relay) (self : ℕ) (room : Bytes) → g.sessions self ≡ none → Step g (join self room g)
  relays :
      (g : Relay) (self : ℕ) (room : Bytes)
      → g.sessions self ≡ some room
      → Step g (drop_dead room g)
  leaves :
      (g : Relay) (self : ℕ) (room : Bytes)
      → g.sessions self ≡ some room
      → Step g (leave self room g)

pub data Reachable : Relay → Type 0 where
  started : Reachable start
  stepped : (g g' : Relay) → Reachable g → Step g g' → Reachable g'
