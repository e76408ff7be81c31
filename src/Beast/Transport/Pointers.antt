-- ===== src/Beast/Transport/Pointers.antt =====
-- beast_ws_transport.cpp: a stream's pointer is followed only where it is not null.
use pqc_messaging_app.Prelude.{
  ◌≡◌, refl, String, arith, Bool, true, false, Option, none, some, codes, bytes_eq,
}
use pqc_messaging_app.Exec.{Result, ok, err, hang, World, M, pure, modify, ◌>>=◌, ◌>>◌}
use pqc_messaging_app.Exec.Reaches.{at}
use pqc_messaging_app.Exec.Runs.{
  Ended, Runs, Keeps, Runs-pure, Runs-if, Runs-bind, Runs-modify, Runs-weaken,
}
use pqc_messaging_app.Platform.{Platform}
use pqc_messaging_app.Platform.Calls.{call}
use pqc_messaging_app.Platform.Kept.{Keeps-call}
use pqc_messaging_app.Beast.{ParsedUrl}
use pqc_messaging_app.Beast.Transport.{
  Stream, Impl, null, ws_write, ws_read, with_wss_stream, with_ws_stream, on_stream, when_open,
  secured, plainly, connect_by_scheme, connected, connect, send, recv, close_stream, close, Call,
  connects, sends, receives, closes, run, Reachable, started, stepped,
}

abbrev has : Option Stream → Option Stream → Bool
has (some s) ws = true
has none (some s) = true
has none none = false

has-ws : (wss : Option Stream) (s : Stream) → has wss (some s) ≡ true
has-ws none s = refl
has-ws (some t) s = refl

-- No null pointer was followed, and where the transport is open there is a stream.
abbrev pub Usable : Impl → Type 0
Usable i = (i.followed_null ≡ false) × (i.is_open ≡ true → has i.wss i.ws ≡ true)

-- There is one, open or not.
abbrev Streaming : Impl → Type 0
Streaming i = (i.followed_null ≡ false) × (has i.wss i.ws ≡ true)

abbrev Stays : {A : Type 0} → (Impl → Type 0) → M Impl A → Type 0
Stays I m = Runs I (λ _. I) m

Streaming-Usable : (i : Impl) → Streaming i → Usable i
Streaming-Usable i h = (h.0, λ _. h.1)

module _ {A : Type 0} where
  ended-Usable :
      (r : Result A × World Impl)
      → Ended Streaming (λ _. Streaming) r
      → Ended Usable (λ _. Usable) r
  ended-Usable (ok a, w) h = Streaming-Usable w.obj h
  ended-Usable (err e, w) h = Streaming-Usable w.obj h
  ended-Usable (hang, w) h = Streaming-Usable w.obj h

  with_wss_stream-Streaming :
      (i : Impl) (r : Result A × World Stream)
      → Streaming i
      → Ended Streaming (λ _. Streaming) (with_wss_stream i r)
  with_wss_stream-Streaming i (ok a, v) h = (h.0, refl)
  with_wss_stream-Streaming i (err e, v) h = (h.0, refl)
  with_wss_stream-Streaming i (hang, v) h = (h.0, refl)

  with_ws_stream-Streaming :
      (i : Impl) (r : Result A × World Stream)
      → Streaming i
      → Ended Streaming (λ _. Streaming) (with_ws_stream i r)
  with_ws_stream-Streaming i (ok a, v) h = (h.0, has-ws i.wss v.obj)
  with_ws_stream-Streaming i (err e, v) h = (h.0, has-ws i.wss v.obj)
  with_ws_stream-Streaming i (hang, v) h = (h.0, has-ws i.wss v.obj)

  picked :
      (wss ws : Option Stream) (m : M Stream A) (missing : M Impl A) (w : World Impl)
      → Streaming w.obj
      → has wss ws ≡ true
      → Ended {A = A} Streaming
          (λ _. Streaming)
          (elim wss [
            | some s ↦ with_wss_stream w.obj (m (at w.machine s))
            | none ↦ elim ws [
              | some s ↦ with_ws_stream w.obj (m (at w.machine s))
              | none ↦ missing w
            ]
          ])
  picked (some s) ws m missing w i e = with_wss_stream-Streaming w.obj (m (at w.machine s)) i
  picked none (some s) m missing w i e = with_ws_stream-Streaming w.obj (m (at w.machine s)) i
  picked none none m missing w i e = ground (arith, e)

  on_stream-Streaming :
      (m : M Stream A) (missing : M Impl A) → Stays Streaming (on_stream m missing)
  on_stream-Streaming m missing = record { at = λ w i. picked w.obj.wss w.obj.ws m missing w i i.1 }

  gated :
      (there : Bool) (shut : A) (w : World Impl) (r : Result A × World Impl)
      → Usable w.obj
      → (there ≡ true → Ended Usable (λ _. Usable) r)
      → Ended {A = A} Usable (λ _. Usable) (elim there [ false ↦ (ok shut, w) | true ↦ r ])
  gated false shut w r i h = i
  gated true shut w r i h = h refl

  when_open-Usable : (shut : A) (m : M Impl A) → Stays Streaming m → Stays Usable (when_open shut m)
  when_open-Usable shut m h = record {
    at = λ w i. gated w.obj.is_open shut w (m w) i λ e. ended-Usable (m w) (h.at w (i.0, i.1 e));
  }

  modify-Usable :
      (f : Impl → Impl) (m : M Impl A)
      → ((i : Impl) → Usable i → Streaming (f i))
      → Stays Streaming m
      → Stays Usable (modify f >> m)
  unfolding ◌>>=◌
  modify-Usable f m hf h = record {
    at = λ w i.
        ended-Usable (m (at w.machine (f w.obj))) (h.at (at w.machine (f w.obj)) (hf w.obj i));
  }

module _ ⦃p : Platform⦄ where
  call-Streaming : (e : String) → Keeps Streaming (λ _. Unit {0}) (call e (λ _. tt))
  call-Streaming e = Keeps-call e _ λ _. tt

  opens-Streaming :
      Stays Streaming (modify (λ (i : Impl). record i { is_open = true }) >> pure true)
  opens-Streaming =
      Runs-bind (λ _. Unit {0}) _ _ (Runs-modify _ λ i h. (tt, (h.0, h.1)))
        λ _ _. Runs-pure true λ i h. h

  secured-Streaming : Stays Streaming secured
  unfolding secured
  secured-Streaming =
      Runs-bind (λ _. Unit) _ _ (call-Streaming _)
        λ _ _.
          Runs-bind (λ _. Unit) _ _ (call-Streaming _)
            λ _ _. Runs-bind (λ _. Unit) _ _ (call-Streaming _) λ _ _. opens-Streaming

  plainly-Streaming : Stays Streaming plainly
  unfolding plainly
  plainly-Streaming =
      Runs-bind (λ _. Unit) _ _ (call-Streaming _)
        λ _ _. Runs-bind (λ _. Unit) _ _ (call-Streaming _) λ _ _. opens-Streaming

  connected-Usable : (u : Option ParsedUrl) → Stays Usable (connected u)
  unfolding connected connect_by_scheme
  connected-Usable none = Runs-pure false λ i h. h
  connected-Usable (some u) =
      Runs-bind (λ _. Unit) _ _ (Keeps-call "resolve" _ λ _. tt)
        λ _ _.
          Runs-if (bytes_eq u.scheme (codes "wss")) _ _
            (λ _. modify-Usable _ secured (λ i h. (h.0, refl)) secured-Streaming)
            λ _. modify-Usable _ plainly (λ i h. (h.0, has-ws i.wss _)) plainly-Streaming

  close-Usable : Stays Usable close
  unfolding close
  close-Usable = when_open-Usable tt _ (
      Runs-bind (λ _. Unit {0}) _ _
        (Runs-weaken _ (on_stream-Streaming close_stream _) λ _ i h. (tt, h))
        λ _ _. Runs-modify _ λ i h. (h.0, h.1))

  dropped : {A : Type 0} (m : M Impl A) → Stays Usable m → Stays Usable (m >> pure tt)
  dropped m h =
      Runs-bind (λ _. Unit {0}) _ _ (Runs-weaken _ h λ _ i k. (tt, k)) λ _ _. Runs-pure tt λ i k. k

  run-Usable : (c : Call) → Stays Usable (run c)
  unfolding run connect send recv
  run-Usable (connects url) = dropped _ (connected-Usable _)
  run-Usable (sends frame) =
      dropped _ (when_open-Usable false _ (on_stream-Streaming (ws_write frame) (null false)))
  run-Usable receives =
      dropped _ (when_open-Usable none _ (on_stream-Streaming ws_read (null none)))
  run-Usable closes = close-Usable

  left_by : {A : Type 0} (r : Result A × World Impl) → Ended Usable (λ _. Usable) r → Usable r.1.obj
  left_by (ok a, w) h = h
  left_by (err e, w) h = h
  left_by (hang, w) h = h

  -- After calls of `connect`, `send`, `recv` and `close` on a new transport, in any order,
  -- whatever of Boost's calls is refused and wherever an exception ends one, no null pointer
  -- was followed, and where the transport is open there is a stream.
  pub Reachable-Usable : (w : World Impl) → Reachable w → Usable w.obj
  Reachable-Usable _ (started machine coming) = (refl, λ e. ground (arith, e))
  Reachable-Usable _ (stepped w c r) =
      left_by (run c w) ((run-Usable c).at w (Reachable-Usable w r))
