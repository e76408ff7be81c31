-- ===== src/Programs/Relay/Aborting.antt =====
-- relay_cli.cpp: a peer whose fingerprint is not the one that was first seen.
use pqc_messaging_app.Prelude.{
  ◌≡◌, ◌≢◌, refl, ap, sym, subst, ◌∙◌, Bool, Option, List, [], ◌∷◌, ◌++◌, append-nil, Bytes, All, ℕ,
  suc, arith, ◌+◌, codes, length, drop, take-append_self,
}
use pqc_messaging_app.Exec.{World, Machine, M, scoped, zoom, ◌>>=◌}
use pqc_messaging_app.Exec.Reaches.{Reaches, Reaches-bind, at}
use pqc_messaging_app.Platform.{Platform}
use pqc_messaging_app.Platform.Laws.{Healthy}
use pqc_messaging_app.Protobuf.{Protobuf}
use pqc_messaging_app.Relay.Url.{find, before}
use pqc_messaging_app.Relay.Url.Query.{find-none, find-append}
use pqc_messaging_app.Beast.Parsing.{find_separator-append}
use pqc_messaging_app.RelayCli.Urls.{host_rest, url_host}
use pqc_messaging_app.RelayCli.Pins.{check_peer}
use pqc_messaging_app.RelayCli.Pins.Words.{IsPin}
use pqc_messaging_app.RelayCli.Pins.Trust.{IsFirst, Holds, check-known, bytes_eq-differ}
use pqc_messaging_app.Programs.{Console, print}
use pqc_messaging_app.Programs.Relay.{pin_key, talk, with_peer, leaving}
use pqc_messaging_app.Programs.Relay.CommandLine.{Options}

-- What can stand behind the host and the port of a URL.
abbrev pub IsPath : Bytes → Type 0
IsPath [] = Unit
IsPath (c ∷ path) = c ≡ 47

abbrev pub url_with : Bytes → Bytes → Bytes → Bytes
url_with scheme hostport path = scheme ++ (58 ∷ 47 ∷ 47 ∷ (hostport ++ path))

-- The key that the README tells of: the relay's host and the room.
abbrev pub host_and_room : Bytes → Bytes → Bytes
host_and_room hostport room = hostport ++ (35 ∷ room)

behind_scheme :
    (scheme rest : Bytes) → drop (length scheme + 3) (scheme ++ (58 ∷ 47 ∷ 47 ∷ rest)) ≡ rest
behind_scheme [] rest = refl
behind_scheme (c ∷ scheme) rest =
    ap (λ n. drop n ((c ∷ scheme) ++ (58 ∷ 47 ∷ 47 ∷ rest))) (further (length scheme))
    ∙ behind_scheme scheme rest
  where
    further : (n : ℕ) → suc n + 3 ≡ suc (n + 3)
    further n = omega arith

up_to_path :
    (hostport path : Bytes)
    → All (λ x. x ≢ 47) hostport
    → IsPath path
    → before (find 47 (hostport ++ path)) (hostport ++ path) ≡ hostport
unfolding before
up_to_path hostport [] apart is =
    ap (λ s. before (find 47 s) s) (append-nil hostport)
    ∙ ap (λ o. before o hostport) (find-none 47 hostport apart)
up_to_path hostport (c ∷ path) apart is =
    ap (λ x. before (find 47 (hostport ++ (x ∷ path))) (hostport ++ (x ∷ path))) is
    ∙ ap (λ o. before o (hostport ++ (47 ∷ path))) (find-append 47 hostport path apart)
    ∙ take-append_self hostport (47 ∷ path)

url_host-url_with :
    (scheme hostport path : Bytes)
    → All (λ x. x ≢ 58) scheme
    → All (λ x. x ≢ 47) hostport
    → IsPath path
    → url_host (url_with scheme hostport path) ≡ hostport
unfolding url_host host_rest
url_host-url_with scheme hostport path no_colon no_slash is =
    rw
      (
        find_separator-append scheme (hostport ++ path) no_colon,
        behind_scheme scheme (hostport ++ path),
      )
      (up_to_path hostport path no_slash is)

module _ {T : Type 0} (close : M T Unit) where
  -- The program ends with exit code 1; the engine was not used, and the transport only closed.
  abbrev pub Aborts : Console T → ℕ → World (Console T) → Type 0
  Aborts c code v =
      (code ≡ 1)
      × (v.obj.engine ≡ c.engine)
      × ((machine : Machine) × (v.obj.net ≡ (close (at machine c.net)).1.obj))

  -- What a destructor of the transport does: it returns, and leaves the files alone.
  abbrev pub Closes : Type 0
  Closes =
      (machine : Machine) (t : T) → Reaches (λ _ v. v.disk ≡ machine.disk) (close (at machine t))

module _ ⦃p : Platform⦄ ⦃g : Protobuf⦄ (healthy : Healthy p) {T : Type 0} (send : Bytes → M T Bool)
    (close : M T Unit) (connect_url : Bytes → M T Bool) (recv : M T (Option Bytes)) where
  -- Before the destructor.
  abbrev Stopped : Console T → List (Bytes × Bytes) → ℕ → World (Console T) → Type 0
  Stopped c pins code v =
      (code ≡ 1) × (v.obj.engine ≡ c.engine) × (v.obj.net ≡ c.net) × Holds v pins

  left :
      (c : Console T) (pins : List (Bytes × Bytes)) (m : M (Console T) ℕ) (w : World (Console T))
      → Closes close
      → Reaches (Stopped c pins) (m w)
      → Reaches
          (λ code v. Aborts close c code v × Holds v pins)
          (leaving connect_url send recv close m w)
  unfolding leaving scoped zoom ◌>>=◌
  left c pins m w closes r =
      let closed : Reaches (λ _ v. v.disk ≡ r.after.machine.disk)
          (close (at r.after.machine r.after.obj.net)) =
        closes r.after.machine r.after.obj.net in
      let (is, engine, net, held) = r.holds_of in
      record {
        value = r.value;
        after = at closed.after.machine (record r.after.obj { net = closed.after.obj });
        returned = rw (r.returned, closed.returned) refl;
        holds_of = (
          (
            is,
            engine,
            (
              r.after.machine,
              ap (λ x. x.1.obj) (sym closed.returned)
                  ∙ ap (λ t. (close (at r.after.machine t)).1.obj) net,
            ),
          ),
          subst (λ d. Holds (at (record r.after.machine { disk = d }) r.after.obj) pins)
              (sym closed.holds_of) held,
        );
      }

  stopped :
      (o : Options) (running : List Bytes → Bool) (lines : List Bytes) (peer_fp pinned : Bytes)
      (pins : List (Bytes × Bytes)) (w : World (Console T))
      → All IsPin pins
      → Holds w pins
      → IsFirst (pin_key o) pins pinned
      → pinned ≢ peer_fp
      → Reaches
          (Stopped w.obj pins)
          (with_peer connect_url send recv close o running lines peer_fp w)
  unfolding with_peer talk print ◌>>=◌
  stopped o running lines peer_fp pinned pins w words holds old changed =
      Reaches-bind (check_peer (pin_key o) peer_fp)
        (talk connect_url send recv close o running lines) w
        (check-known healthy (pin_key o) peer_fp pinned pins w words holds old)
        λ trusted v (is, held, same). rw (is ∙ bytes_eq-differ pinned peer_fp changed) (record {
          value = 1;
          after = _;
          returned = refl;
          holds_of = (
            refl,
            ap (λ (c : Console T). c.engine) same,
            ap (λ (c : Console T). c.net) same,
            held,
          );
        })

  -- Where no foreign call is refused, the relay is given as 'scheme://host' with an optional
  -- port and path, where the scheme has no ':' and host and port no '/', pins.txt holds just
  -- some pins of words, of which the first for that host with its port, '#' and the room is
  -- another fingerprint than the peer's, and the transport's `close` returns and leaves the
  -- files alone: from the check of the peer to the destructor of the transport, the client
  -- returns exit code 1, with the engine as it was, nothing done to the transport but that it
  -- was closed, and the same pins in the file.
  pub with_peer-Aborts :
      (o : Options) (running : List Bytes → Bool) (lines : List Bytes) (peer_fp pinned : Bytes)
      (pins : List (Bytes × Bytes)) (w : World (Console T)) (scheme hostport path : Bytes)
      → codes o.relay ≡ url_with scheme hostport path
      → All (λ x. x ≢ 58) scheme
      → All (λ x. x ≢ 47) hostport
      → IsPath path
      → Closes close
      → All IsPin pins
      → Holds w pins
      → IsFirst (host_and_room hostport (codes o.room)) pins pinned
      → pinned ≢ peer_fp
      → Reaches
          (λ code v. Aborts close w.obj code v × Holds v pins)
          (leaving connect_url send recv close
            (with_peer connect_url send recv close o running lines peer_fp)
            w)
  with_peer-Aborts o running lines peer_fp pinned pins w scheme hostport path url no_colon no_slash
        is closes words holds old changed =
      left w.obj pins _ w closes (
        stopped o running lines peer_fp pinned pins w words holds
          (subst (λ h. IsFirst (h ++ (codes "#" ++ codes o.room)) pins pinned)
            (sym (ap url_host url ∙ url_host-url_with scheme hostport path no_colon no_slash is))
            old)
          changed)
