-- ===== src/Beast/Transport.antt =====
-- beast_ws_transport.cpp: the transport, on a stream with or without TLS.
pub mod Pointers
use pqc_messaging_app.Prelude.{
  ◌≡◌, String, Bool, true, false, Option, none, some, List, [], ◌∷◌, ◌++◌, Bytes, codes, bytes_eq,
  if◌then◌else◌,
}
use pqc_messaging_app.Exec.{ok, Result, Machine, World, M, pure, gets, modify, ◌>>=◌, ◌>>◌}
use pqc_messaging_app.Exec.Reaches.{at}
use pqc_messaging_app.Platform.{Platform}
use pqc_messaging_app.Platform.Calls.{call, counted}
use pqc_messaging_app.Beast.{ParsedUrl, parse_ws_url}

-- A WebSocket stream: what was written, and the messages that the peer sends before it ends.
pub record Stream : Type 0 where
  pub sent : List Bytes
  pub arriving : List Bytes

-- `wss` and `ws` are `none` where the pointers are null; `is_open` is `open`. `followed_null`
-- records that a null pointer was followed, and `coming` is what will arrive from a server. `u` is
-- only read by the call of `connect` that writes it.
pub record Impl : Type 0 where
  pub wss : Option Stream
  pub ws : Option Stream
  pub is_open : Bool
  pub followed_null : Bool
  pub coming : ParsedUrl → List Bytes

abbrev pub made : (ParsedUrl → List Bytes) → Impl
made coming = record {
  wss = none;
  ws = none;
  is_open = false;
  followed_null = false;
  coming = coming;
}

abbrev pub with_wss_stream : {A : Type 0} → Impl → Result A × World Stream → Result A × World Impl
with_wss_stream i (r, v) = (r, at v.machine (record i { wss = some v.obj }))

abbrev pub with_ws_stream : {A : Type 0} → Impl → Result A × World Stream → Result A × World Impl
with_ws_stream i (r, v) = (r, at v.machine (record i { ws = some v.obj }))

-- A null pointer is followed; what is answered then does not matter.
abbrev pub null : {A : Type 0} → A → M Impl A
null lost w = (ok lost, at w.machine (record w.obj { followed_null = true }))

-- `if (wss) wss->f(...) else if (ws) ws->f(...) else missing`
abbrev pub on_stream : {A : Type 0} → M Stream A → M Impl A → M Impl A
on_stream m missing w = elim w.obj.wss [
  | some s ↦ with_wss_stream w.obj (m (at w.machine s))
  | none ↦ elim w.obj.ws [ some s ↦ with_ws_stream w.obj (m (at w.machine s)) | none ↦ missing w ]
]

-- `if (!open) return ...;` and what follows it.
abbrev pub when_open : {A : Type 0} → A → M Impl A → M Impl A
when_open shut m w = elim w.obj.is_open [ false ↦ (ok shut, w) | true ↦ m w ]

-- What a user of the transport calls.
pub data Call : Type 0 where
  connects : Bytes → Call
  sends : Bytes → Call
  receives : Call
  closes : Call

module _ ⦃p : Platform⦄ where
  -- What `connect` does on the new stream; each call throws where it is refused.
  unfoldable pub secured : M Impl Bool
  secured = do
    call "connect" (λ _. tt)
    call "TLS handshake" (λ _. tt)
    call "handshake" (λ _. tt)
    modify (λ i. record i { is_open = true })
    pure true

  unfoldable pub plainly : M Impl Bool
  plainly = do
    call "connect" (λ _. tt)
    call "handshake" (λ _. tt)
    modify (λ i. record i { is_open = true })
    pure true

  abbrev pub stream : Impl → ParsedUrl → Option Stream
  stream i u = some (record { sent = []; arriving = i.coming u })

  unfoldable pub connect_by_scheme : ParsedUrl → M Impl Bool
  unfolding secured plainly
  connect_by_scheme u =
      if bytes_eq u.scheme (codes "wss")
      then (modify (λ i. record i { wss = stream i u }) >> secured)
      else (modify (λ i. record i { ws = stream i u }) >> plainly)

  unfoldable pub connected : Option ParsedUrl → M Impl Bool
  unfolding connect_by_scheme
  connected none = pure false
  connected (some u) = call "resolve" (λ _. tt) >> connect_by_scheme u

  unfoldable pub connect : Bytes → M Impl Bool
  unfolding connected
  connect url = connected (parse_ws_url url)

  unfoldable pub ws_write : Bytes → M Stream Bool
  ws_write data' w =
      if p.fails w.calls
      then (ok false, counted w)
      else (ok true, counted (at w.machine (record w.obj { sent = w.obj.sent ++ (data' ∷ []) })))

  -- Where the peer sends no more, the stream ends, which is an error.
  unfoldable pub ws_read : M Stream (Option Bytes)
  ws_read w = if p.fails w.calls then (ok none, counted w) else (elim w.obj.arriving [
    | [] ↦ (ok none, counted w)
    | ◌∷◌ msg later ↦ (ok (some msg), counted (at w.machine (record w.obj { arriving = later })))
  ])

  unfoldable pub send : Bytes → M Impl Bool
  unfolding ws_write
  send data' = when_open false (on_stream (ws_write data') (null false))

  unfoldable pub recv : M Impl (Option Bytes)
  unfolding ws_read
  recv = when_open none (on_stream ws_read (null none))

  -- The closing handshake, whose error is not looked at; the pointers stay.
  unfoldable pub close_stream : M Stream Unit
  close_stream w = (ok tt, counted w)

  unfoldable pub close : M Impl Unit
  unfolding close_stream
  close =
      when_open tt (on_stream close_stream (pure tt) >> modify (λ i. record i { is_open = false }))

  -- The calls of a user, their values dropped.
  unfoldable pub run : Call → M Impl Unit
  run (connects url) = connect url >> pure tt
  run (sends frame) = send frame >> pure tt
  run receives = recv >> pure tt
  run closes = close

  -- What calls in any order lead to, those that throw included.
  pub data Reachable : World Impl → Type 0 where
    started :
        (machine : Machine) (coming : ParsedUrl → List Bytes) → Reachable (at machine (made coming))
    stepped : (w : World Impl) (c : Call) → Reachable w → Reachable ((run c w).1)
