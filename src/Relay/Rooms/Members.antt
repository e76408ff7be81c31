-- ===== src/Relay/Rooms/Members.antt =====
-- relay_server.cpp: who is in which room, and who is written to.
use pqc_messaging_app.Prelude.{
  ℕ, ◌+◌, ◌≡◌, ◌≢◌, refl, ap, sym, ◌∙◌, Bool, true, false, not, ◌&&◌, Option, none, some, List, [],
  ◌∷◌, ◌++◌, Bytes, bytes_eq, bytes_eq_iff, ◌==◌, ==_refl, if◌then◌else◌, arith, Option-cases,
  Bool-cases, inl, inr,
}
use pqc_messaging_app.Relay.Rooms.{
  Relay, filter, is_live, live, members, set_room, set_session, join, peers, drop_dead, kept_room,
  leave, start, Step, joins, relays, leaves, Reachable, started, stepped,
}

abbrev pub count : ℕ → List ℕ → ℕ
count s [] = 0
count s (t ∷ ts) = (if s == t then 1 else 0) + count s ts

abbrev pub is_in : Option Bytes → Bytes → Bool
is_in none room = false
is_in (some own) room = bytes_eq own room

abbrev pub once : Bool → ℕ
once b = if b then 1 else 0

count-append : (s : ℕ) (xs ys : List ℕ) → count s (xs ++ ys) ≡ count s xs + count s ys
count-append s [] ys = omega arith
count-append s (x ∷ xs) ys = omega (arith, count-append s xs ys)

count-filter :
    (s : ℕ) (keep : ℕ → Bool) (xs : List ℕ)
    → count s (filter keep xs) ≡ (if keep s then count s xs else 0)
count-filter s keep [] = ground arith
count-filter s keep (x ∷ xs) = elim (Bool-cases (s == x)) [
  | inl e ↦ rw (sym (is e)) (ground (arith, count-filter s keep xs, ==_refl s))
  | inr e ↦ ground (arith, count-filter s keep xs)
]
  where
    is : (s == x) ≡ true → s ≡ x
    is e = ground arith

-- Each live session stands once in its own room's vector and in no other, nothing else stands in
-- one, and no room is empty.
pub record IsConsistent (g : Relay) : Type 0 where
  pub counts :
      (room : Bytes) (s : ℕ) → count s (members (g.rooms room)) ≡ once (is_in (g.sessions s) room)
  pub occupied : (room : Bytes) → g.rooms room ≢ some []

start-IsConsistent : IsConsistent start
start-IsConsistent = record { counts = λ room s. refl; occupied = λ room e. cc }

same_room : {room other : Bytes} → bytes_eq room other ≡ true → room ≡ other
same_room {room} {other} e = (bytes_eq_iff room other).0 e

bytes_eq_refl : (room : Bytes) → bytes_eq room room ≡ true
bytes_eq_refl room = (bytes_eq_iff room room).1 refl

-- Who is in a room is live.
in_live :
    (own : Option Bytes) (room : Bytes) (n : ℕ)
    → n ≡ once (is_in own room)
    → (if is_live own then n else 0) ≡ n
in_live none room n h = sym h
in_live (some own) room n h = refl

-- What a step makes of the vector of one room, with the invariant before it.
joined :
    (sessions : ℕ → Option Bytes) (vec : List ℕ) (self : ℕ) (room : Bytes) (s : ℕ)
    → ((t : ℕ) → count t vec ≡ once (is_in (sessions t) room))
    → sessions self ≡ none
    → count s (filter (λ t. is_live (set_session self (some room) sessions t)) vec ++ (self ∷ []))
      ≡ once (is_in (set_session self (some room) sessions s) room)
joined sessions vec self room s counts fresh =
    rw
      (
        count-append s (filter (λ t. is_live (set_session self (some room) sessions t)) vec)
            (self ∷ []),
        count-filter s (λ t. is_live (set_session self (some room) sessions t)) vec,
      )
      (elim (Bool-cases (self == s)) [
        | inl e ↦ rw (sym (is e), ==_refl self, counts self, fresh, bytes_eq_refl room) refl
        | inr e ↦
            rw (e, in_live (sessions s) room (count s vec) (counts s), counts s, other e)
              (omega arith)
      ])
  where
    is : (self == s) ≡ true → self ≡ s
    is e = ground arith

    other : (self == s) ≡ false → (s == self) ≡ false
    other e = ground arith

-- What a step that writes one room's vector has to show.
set_room-IsConsistent :
    (g : Relay) (room : Bytes) (vec : Option (List ℕ)) (sessions : ℕ → Option Bytes)
    → IsConsistent g
    → ((s : ℕ) → count s (members vec) ≡ once (is_in (sessions s) room))
    → vec ≢ some []
    → ((other : Bytes) (s : ℕ)
        → bytes_eq room other ≡ false
        → is_in (g.sessions s) other ≡ is_in (sessions s) other)
    → IsConsistent (record { rooms = set_room room vec g.rooms; sessions = sessions })
set_room-IsConsistent g room vec sessions ok counts occupied elsewhere = record {
  counts = λ other s. elim (Bool-cases (bytes_eq room other)) [
    | inl e ↦ rw (e, sym (same_room e)) (counts s)
    | inr e ↦ rw e (ok.counts other s ∙ ap once (elsewhere other s e))
  ];
  occupied = λ other. elim (Bool-cases (bytes_eq room other)) [
    | inl e ↦ rw e occupied
    | inr e ↦ rw e (ok.occupied other)
  ];
}

-- A session whose room is none or `room` is in no other room before and after.
set_session-elsewhere :
    (sessions : ℕ → Option Bytes) (self : ℕ) (own : Option Bytes) (other : Bytes) (s : ℕ)
    → is_in (sessions self) other ≡ false
    → is_in own other ≡ false
    → is_in (sessions s) other ≡ is_in (set_session self own sessions s) other
set_session-elsewhere sessions self own other s before after = elim (Bool-cases (self == s)) [
  | inl e ↦ rw (sym (is e), ==_refl self) (before ∙ sym after)
  | inr e ↦ rw e refl
]
  where
    is : (self == s) ≡ true → self ≡ s
    is e = ground arith

pushed : (xs : List ℕ) (x : ℕ) → some (xs ++ (x ∷ [])) ≢ some []
pushed [] x e = cc
pushed (y ∷ ys) x e = cc

join-IsConsistent :
    (self : ℕ) (room : Bytes) (g : Relay)
    → IsConsistent g
    → g.sessions self ≡ none
    → IsConsistent (join self room g)
unfolding join
join-IsConsistent self room g ok fresh =
    set_room-IsConsistent g room _ _ ok
      (λ s. joined g.sessions (members (g.rooms room)) self room s (ok.counts room) fresh)
      (pushed _ self)
      λ other s e. set_session-elsewhere g.sessions self (some room) other s (rw fresh refl) e

-- A vector that keeps its counts keeps a member.
still_occupied :
    (vec kept : List ℕ)
    → ((s : ℕ) → count s kept ≡ count s vec)
    → some vec ≢ some []
    → some kept ≢ some []
still_occupied [] kept same h e = h refl
still_occupied (s ∷ vec) (t ∷ kept) same h e = cc
still_occupied (s ∷ vec) [] same h e = absurd (ground (arith, same s, ==_refl s))

drop_dead-IsConsistent :
    (room : Bytes) (g : Relay) → IsConsistent g → IsConsistent (drop_dead room g)
unfolding drop_dead
drop_dead-IsConsistent room g ok = elim (Option-cases (g.rooms room)) [
  | inl e ↦ rw (drop_dead, e) ok
  | inr (vec, e) ↦
      let counts : (s : ℕ) → count s vec ≡ once (is_in (g.sessions s) room) =
        λ s. (λ i. count s (members (sym e i))) ∙ ok.counts room s in
      let same : (s : ℕ) → count s (filter (live g) vec) ≡ count s vec =
        λ s. count-filter s (live g) vec ∙ in_live (g.sessions s) room _ (counts s) in
      rw (drop_dead, e)
        (set_room-IsConsistent g room (some (filter (live g) vec)) g.sessions ok
          (λ s. same s ∙ counts s) (still_occupied vec _ same λ empty. ok.occupied room (e ∙ empty))
          λ other s _. refl)
]

members-kept_room : (xs : List ℕ) → members (kept_room xs) ≡ xs
members-kept_room [] = refl
members-kept_room (x ∷ xs) = refl

kept_room-occupied : (xs : List ℕ) → kept_room xs ≢ some []
kept_room-occupied [] e = cc
kept_room-occupied (x ∷ xs) e = cc

parted :
    (sessions : ℕ → Option Bytes) (vec : List ℕ) (self : ℕ) (room : Bytes) (s : ℕ)
    → ((t : ℕ) → count t vec ≡ once (is_in (sessions t) room))
    → count s (filter (λ t. is_live (sessions t) && not (t == self)) vec)
      ≡ once (is_in (set_session self none sessions s) room)
parted sessions vec self room s counts =
    rw (count-filter s (λ t. is_live (sessions t) && not (t == self)) vec)
      (elim (Bool-cases (self == s)) [
        | inl e ↦ rw (sym (is e), ==_refl self) (ground arith)
        | inr e ↦
            rw (e, other e)
              (ground (arith, in_live (sessions s) room (count s vec) (counts s), counts s))
      ])
  where
    is : (self == s) ≡ true → self ≡ s
    is e = ground arith

    other : (self == s) ≡ false → (s == self) ≡ false
    other e = ground arith

leave-IsConsistent :
    (self : ℕ) (room : Bytes) (g : Relay)
    → IsConsistent g
    → g.sessions self ≡ some room
    → IsConsistent (leave self room g)
unfolding leave
leave-IsConsistent self room g ok own = elim (Option-cases (g.rooms room)) [
  | inl e ↦
      let absent : 0 ≡ once (is_in (g.sessions self) room) =
        (λ i. count self (members (sym e i))) ∙ ok.counts room self in
      absurd (ground (arith, absent, own, bytes_eq_refl room))
  | inr (vec, e) ↦
      let counts : (s : ℕ) → count s vec ≡ once (is_in (g.sessions s) room) =
        λ s. (λ i. count s (members (sym e i))) ∙ ok.counts room s in
      simp e (
        set_room-IsConsistent g room
          (kept_room (filter (λ t. is_live (g.sessions t) && not (t == self)) vec))
          (set_session self none g.sessions) ok
          (λ s. ap (count s) (members-kept_room _) ∙ parted g.sessions vec self room s counts)
          (kept_room-occupied _)
          λ other s apart. set_session-elsewhere g.sessions self none other s (rw own apart) refl)
]

Step-IsConsistent : (g g' : Relay) → IsConsistent g → Step g g' → IsConsistent g'
Step-IsConsistent g _ ok (joins _ self room fresh) = join-IsConsistent self room g ok fresh
Step-IsConsistent g _ ok (relays _ self room own) = drop_dead-IsConsistent room g ok
Step-IsConsistent g _ ok (leaves _ self room own) = leave-IsConsistent self room g ok own

-- In every state that the session threads reach by joining, relaying and leaving in any order,
-- each live session stands once in its own room's vector and in no other, nothing else stands in
-- a room's vector, and no room's vector is empty.
pub Reachable-IsConsistent : (g : Relay) → Reachable g → IsConsistent g
Reachable-IsConsistent _ started = start-IsConsistent
Reachable-IsConsistent _ (stepped g g' reached step) =
    Step-IsConsistent g g' (Reachable-IsConsistent g reached) step

-- In every state that the session threads reach by joining, relaying and leaving in any order,
-- the peers of `self` in `room` are the live sessions of that room but `self`, each once, and
-- nobody else.
pub count-peers :
    (g : Relay) (self : ℕ) (room : Bytes) (s : ℕ)
    → Reachable g
    → count s (peers self room g) ≡ once (is_in (g.sessions s) room && not (s == self))
unfolding peers
count-peers g self room s reached =
    let ok : IsConsistent g = Reachable-IsConsistent g reached in
    rw (count-filter s (λ t. live g t && not (t == self)) (members (g.rooms room)))
      (ground (arith, in_live (g.sessions s) room _ (ok.counts room s), ok.counts room s))
