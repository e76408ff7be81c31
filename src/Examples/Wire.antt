-- ===== src/Examples/Wire.antt =====
-- The framing and the relay at concrete inputs.
use pqc_messaging_app.Prelude.{
  ℕ, ◌≡◌, refl, inl, inr, true, some, ◌&&◌, not, ◌==◌, ◌++◌, Bool, false, [], ◌∷◌, Bytes, codes,
  arith,
}
use pqc_messaging_app.Exec.{World}
use pqc_messaging_app.Exec.Reaches.{Reaches, at}
use pqc_messaging_app.Tcp.{Socket}
use pqc_messaging_app.Tcp.Framing.{somes, transfer, recv-send}
use pqc_messaging_app.Relay.Rooms.{Relay, Reachable, started, stepped, joins, join, start, peers}
use pqc_messaging_app.Relay.Rooms.Members.{
  IsConsistent, count, is_in, once, Reachable-IsConsistent, count-peers,
}
use pqc_messaging_app.Relay.Url.{session, do_http, url_decode, get_query_value}
use pqc_messaging_app.Relay.Url.Decoding.{ended, blank, escaped, url_decode-Encodes}
use pqc_messaging_app.Relay.Url.Query.{query, lookup, get_query_value-query}
use pqc_messaging_app.Relay.Url.Routing.{named, room_target, upgrade_to, do_http-room_target}
use pqc_messaging_app.Beast.{parse_ws_url}
use pqc_messaging_app.Beast.Parsing.{url_of, parse_ws_url-url_of}
use pqc_messaging_app.Beast.Transport
use pqc_messaging_app.Beast.Transport.{Impl, made, run, connects, sends}
use pqc_messaging_app.Beast.Transport.Pointers.{Usable, Reachable-Usable}
use pqc_messaging_app.Examples.Foreign.{toy, toy-Healthy, machine, world}

abbrev fresh : Socket
fresh = record { sent = []; arrived = []; at_end = false }

recv-send_example :
    Reaches
      (λ got v. (got ≡ somes (codes "hello" ∷ [] ∷ [])) × (v.obj.arrived ≡ []))
      (transfer ⦃p = toy⦄ (codes "hello" ∷ [] ∷ []) (world fresh))
recv-send_example =
    recv-send ⦃p = toy⦄ toy-Healthy (codes "hello" ∷ [] ∷ []) (world fresh)
      (omega arith, (omega arith, tt)) refl

abbrev lobby : Bytes
lobby = codes "lobby"

abbrev two : Relay
two = join 2 lobby (join 1 lobby start)

two-Reachable : Reachable two
unfolding join
two-Reachable =
    stepped (join 1 lobby start) two
      (stepped start (join 1 lobby start) started (joins start 1 lobby refl))
      (joins (join 1 lobby start) 2 lobby refl)

Reachable-IsConsistent_example : IsConsistent two
Reachable-IsConsistent_example = Reachable-IsConsistent two two-Reachable

count-peers_example :
    count 2 (peers 1 lobby two) ≡ once (is_in (two.sessions 2) lobby && not (2 == 1))
count-peers_example = count-peers two 1 lobby 2 two-Reachable

abbrev keep_digits : ℕ → Bool
keep_digits c = c == 48

-- "+%4a%4A": a blank and the byte of "J" in both cases.
url_decode-Encodes_example : url_decode (codes "+%4a%4A") ≡ codes " JJ"
url_decode-Encodes_example = url_decode-Encodes (codes " JJ") (codes "+%4a%4A") (
    blank _ _ (
      escaped 4 10 52 97 _ _ (omega arith, inl refl) (omega arith, inr refl)
        (escaped 4 10 52 65 _ _ (omega arith, inl refl) (omega arith, inl refl) ended)))

get_query_value-query_example :
    get_query_value
      (codes "/ws" ++ (63 ∷ query keep_digits ((codes "room", codes "a b") ∷ [])))
      (codes "room")
    ≡ lookup (codes "room") ((codes "room", codes "a b") ∷ [])
get_query_value-query_example =
    get_query_value-query keep_digits refl refl refl refl (codes "/ws")
      ((codes "room", codes "a b") ∷ []) (codes "room")
      ((λ e. ground arith), ((λ e. ground arith), ((λ e. ground arith), tt)))
      (
        (omega arith, (omega arith, (omega arith, (omega arith, tt)))),
        (omega arith, (omega arith, (omega arith, tt))),
        tt,
      )

do_http-room_target_example :
    do_http (upgrade_to (room_target keep_digits ((codes "room", codes "a b") ∷ []))) true
    ≡ session (named (lookup (codes "room") ((codes "room", codes "a b") ∷ [])))
do_http-room_target_example =
    do_http-room_target keep_digits refl refl refl refl ((codes "room", codes "a b") ∷ []) true (
      (omega arith, (omega arith, (omega arith, (omega arith, tt)))),
      (omega arith, (omega arith, (omega arith, tt))),
      tt,
    )

parse_ws_url-url_of_example :
    parse_ws_url (
      url_of
        (record { scheme = codes "ws"; host = codes "h"; port = codes "80"; target = codes "/x" }))
    ≡ some
        (record { scheme = codes "ws"; host = codes "h"; port = codes "80"; target = codes "/x" })
parse_ws_url-url_of_example =
    parse_ws_url-url_of (codes "ws") 104 [] (codes "80") (codes "x")
      ((λ e. ground arith), ((λ e. ground arith), tt))
      ((λ e. ground arith), ((λ e. ground arith), tt))
      ((λ e. ground arith), ((λ e. ground arith), ((λ e. ground arith), ((λ e. ground arith), tt))))

-- A transport that is told to connect, and then to send.
abbrev dialled : World Impl
dialled = (run ⦃p = toy⦄ (connects (codes "ws://h:80/x")) (at machine (made λ u. []))).1

abbrev spoken : World Impl
spoken = (run ⦃p = toy⦄ (sends (codes "hi")) dialled).1

Reachable-Usable_example : Usable spoken.obj
Reachable-Usable_example = Reachable-Usable ⦃p = toy⦄ spoken (
    Transport.stepped dialled (sends (codes "hi")) (
      Transport.stepped (at machine (made λ u. [])) (connects (codes "ws://h:80/x"))
        (Transport.started machine λ u. [])))
