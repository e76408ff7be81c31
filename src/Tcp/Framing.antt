-- ===== src/Tcp/Framing.antt =====
-- tcp_transport.cpp: the frames that one end sends are the frames that the other end receives.
use pqc_messaging_app.Prelude.{
  ℕ, zero, suc, ◌%◌, ◌^◌, ◌<◌, ◌≡◌, refl, ap, sym, ◌∙◌, Bool, true, false, Option, some, List, [],
  ◌∷◌, ◌++◌, append-nil, append_assoc, Bytes, All, length, length-append, take, drop,
  take-append_self, drop-append_self, leb, ◌==◌, arith, if◌then◌else◌,
}
use pqc_messaging_app.Exec.{World, M, pure, modify, ◌>>=◌, ◌>>◌}
use pqc_messaging_app.Exec.Reaches.{
  Reaches, Reaches-bind, Reaches-pure, Reaches-try_catch, Reaches-weaken, Reaches-then_modify,
}
use pqc_messaging_app.Platform.{Platform}
use pqc_messaging_app.Platform.Laws.{Healthy}
use pqc_messaging_app.Platform.Calls.{counted}
use pqc_messaging_app.Words.{htonl, ntohl, ntohl-htonl}
use pqc_messaging_app.Tcp.{
  Socket, give, taken, asio_write, asio_read, write_frame, send, read_frame, recv,
}

abbrev pub Fits : Bytes → Type 0
Fits frame = length frame < 2 ^ 32

abbrev wire : List Bytes → Bytes
wire [] = []
wire (frame ∷ frames) = (htonl (length frame) ++ frame) ++ wire frames

abbrev pub socket : Bytes → Bytes → Bool → Socket
socket sent arrived at_end = record { sent = sent; arrived = arrived; at_end = at_end }

module _ ⦃p : Platform⦄ (healthy : Healthy p) where
  write-Reaches :
      (bytes : Bytes) (w : World Socket)
      → Reaches
          (λ _ v. v.obj ≡ socket (w.obj.sent ++ bytes) w.obj.arrived w.obj.at_end)
          (asio_write bytes w)
  unfolding asio_write
  write-Reaches bytes w = record {
    value = tt;
    after = counted (give bytes w);
    returned = rw (healthy w.calls) refl;
    holds_of = refl;
  }

  read-Reaches :
      (xs ys : Bytes) (w : World Socket)
      → w.obj.arrived ≡ xs ++ ys
      → Reaches
          (λ b v. (b ≡ xs) × (v.obj ≡ socket w.obj.sent ys w.obj.at_end))
          (asio_read (length xs) w)
  unfolding asio_read
  read-Reaches xs ys w e = record {
    value = take (length xs) w.obj.arrived;
    after = counted (taken (length xs) w);
    returned = simp (healthy w.calls, enough);
    holds_of = (
      ap (take (length xs)) e ∙ take-append_self xs ys,
      λ i. socket w.obj.sent ((ap (drop (length xs)) e ∙ drop-append_self xs ys) i) w.obj.at_end,
    );
  }
    where
      enough : leb (length xs) (length w.obj.arrived) ≡ true
      enough = rw e (ground (arith, length-append xs ys))

  -- The second write of `send`, which an empty frame does not need.
  payload-Reaches :
      (n : ℕ) (frame head old arrived : Bytes) (at_end : Bool) (v : World Socket)
      → n ≡ length frame
      → v.obj ≡ socket (old ++ head) arrived at_end
      → Reaches
          (λ sent v'. (sent ≡ true) × (v'.obj ≡ socket (old ++ (head ++ frame)) arrived at_end))
          ((if n == 0 then pure true else (asio_write frame >> pure true)) v)
  payload-Reaches n [] head old arrived at_end v size e =
      rw size (Reaches-pure true v (refl, rw (append-nil head) e))
  payload-Reaches n (x ∷ xs) head old arrived at_end v size e = rw (nonzero) (
      Reaches-bind _ _ v (write-Reaches (x ∷ xs) v) λ _ v' e'. Reaches-pure true v' (
        refl,
        e'
            ∙ (λ i. socket ((e i).sent ++ (x ∷ xs)) (e i).arrived (e i).at_end)
            ∙ ap (λ b. socket b arrived at_end) (append_assoc old head (x ∷ xs)),
      ))
    where
      nonzero : (n == 0) ≡ false
      nonzero = ground (arith, size)

  pub send-Reaches :
      (frame : Bytes) (w : World Socket)
      → Fits frame
      → Reaches
          (λ sent v.
            (sent ≡ true)
            × (v.obj
                ≡ socket
                    (w.obj.sent ++ (htonl (length frame) ++ frame))
                    w.obj.arrived
                    w.obj.at_end))
          (send frame w)
  unfolding send write_frame
  send-Reaches frame w fits = Reaches-try_catch _ _ w (
      Reaches-bind _ _ w (write-Reaches (htonl (length frame % 2 ^ 32)) w) λ _ v e.
        payload-Reaches (length frame % 2 ^ 32) frame (htonl (length frame)) w.obj.sent
          w.obj.arrived w.obj.at_end v size
          (e ∙ ap (λ n. socket (w.obj.sent ++ htonl n) w.obj.arrived w.obj.at_end) size))
    where
      size : length frame % 2 ^ 32 ≡ length frame
      size = omega (arith, fits)

  body-Reaches :
      (n : ℕ) (frame rest sent : Bytes) (at_end : Bool) (v : World Socket)
      → n ≡ length frame
      → v.obj ≡ socket sent (frame ++ rest) at_end
      → Reaches
          (λ got v'. (got ≡ some frame) × (v'.obj ≡ socket sent rest at_end))
          ((if n == 0 then pure (some []) else (do frame ← asio_read n; pure (some frame))) v)
  body-Reaches n [] rest sent at_end v size e = rw size (Reaches-pure _ v (refl, e))
  body-Reaches n (x ∷ xs) rest sent at_end v size e =
      rw (nonzero, size)
        (Reaches-bind _ _ v (read-Reaches (x ∷ xs) rest v (ap (λ (s : Socket). s.arrived) e))
          λ b v' (same, left).
            Reaches-pure _ v' (ap some same, left ∙ (λ i. socket (e i).sent rest (e i).at_end)))
    where
      nonzero : (n == 0) ≡ false
      nonzero = ground (arith, size)

  pub recv-Reaches :
      (frame rest : Bytes) (w : World Socket)
      → Fits frame
      → w.obj.arrived ≡ (htonl (length frame) ++ frame) ++ rest
      → Reaches
          (λ got v. (got ≡ some frame) × (v.obj ≡ socket w.obj.sent rest w.obj.at_end))
          (recv w)
  unfolding recv read_frame htonl
  recv-Reaches frame rest w fits e = Reaches-try_catch _ _ w (
      Reaches-bind _ _ w
        (read-Reaches (htonl (length frame)) (frame ++ rest) w
          (e ∙ append_assoc (htonl (length frame)) frame rest))
        λ b v (same, left).
          body-Reaches (ntohl b) frame rest w.obj.sent w.obj.at_end v
            (ap ntohl same ∙ ntohl-htonl (length frame) fits) left)

module _ ⦃p : Platform⦄ where
  -- The callers' loops: frames one behind the other.
  abbrev pub send_all : List Bytes → M Socket Unit
  send_all [] = pure tt
  send_all (frame ∷ frames) = send frame >>= λ sent. send_all frames

  abbrev pub recv_all : ℕ → M Socket (List (Option Bytes))
  recv_all zero = pure []
  recv_all (suc n) = recv >>= λ frame. recv_all n >>= λ frames. pure (frame ∷ frames)

  -- The other end, where all that was sent has arrived.
  abbrev pub other_end : Socket → Socket
  other_end s = record { sent = []; arrived = s.sent; at_end = s.at_end }

  abbrev pub transfer : List Bytes → M Socket (List (Option Bytes))
  transfer frames = send_all frames >>= λ _. modify other_end >>= λ _. recv_all (length frames)

abbrev pub somes : List Bytes → List (Option Bytes)
somes [] = []
somes (frame ∷ frames) = some frame ∷ somes frames

module _ ⦃p : Platform⦄ (healthy : Healthy p) where
  send_all-Reaches :
      (frames : List Bytes) (w : World Socket)
      → All Fits frames
      → Reaches
          (λ _ v. v.obj ≡ socket (w.obj.sent ++ wire frames) w.obj.arrived w.obj.at_end)
          (send_all frames w)
  send_all-Reaches [] w fit = Reaches-pure tt w (rw (append-nil w.obj.sent) refl)
  send_all-Reaches (frame ∷ frames) w fit =
      Reaches-bind _ _ w (send-Reaches healthy frame w fit.0) λ sent v (_, e).
        Reaches-weaken _ (send_all-Reaches frames v fit.1) λ _ v' e'.
          e'
          ∙ (λ i. socket ((e i).sent ++ wire frames) (e i).arrived (e i).at_end)
          ∙ ap (λ b. socket b w.obj.arrived w.obj.at_end)
              (append_assoc w.obj.sent (htonl (length frame) ++ frame) (wire frames))

  recv_all-Reaches :
      (frames : List Bytes) (rest : Bytes) (w : World Socket)
      → All Fits frames
      → w.obj.arrived ≡ wire frames ++ rest
      → Reaches
          (λ got v. (got ≡ somes frames) × (v.obj.arrived ≡ rest))
          (recv_all (length frames) w)
  recv_all-Reaches [] rest w fit e = Reaches-pure [] w (refl, e)
  recv_all-Reaches (frame ∷ frames) rest w fit e =
      Reaches-bind _ _ w
        (recv-Reaches healthy frame (wire frames ++ rest) w fit.0
          (e ∙ append_assoc (htonl (length frame) ++ frame) (wire frames) rest))
        λ got v (same, left).
          Reaches-bind _ _ v
            (recv_all-Reaches frames rest v fit.1 (ap (λ (s : Socket). s.arrived) left))
            λ more v' (sames, end). Reaches-pure _ v' ((λ i. same i ∷ sames i), end)

  -- Where no foreign call is refused, frames of less than 2^32 bytes each that one end sends
  -- on a fresh socket are, when all of it has arrived, what the other end receives, in their
  -- order, with no byte left.
  pub recv-send :
      (frames : List Bytes) (w : World Socket)
      → All Fits frames
      → w.obj.sent ≡ []
      → Reaches (λ got v. (got ≡ somes frames) × (v.obj.arrived ≡ [])) (transfer frames w)
  recv-send frames w fit fresh = Reaches-bind _ _ w (send_all-Reaches frames w fit) λ _ v e.
      Reaches-then_modify other_end _ v (
        recv_all-Reaches frames [] _ fit (
          ap (λ (s : Socket). s.sent) e
          ∙ ap (λ b. b ++ wire frames) fresh
          ∙ sym (append-nil (wire frames))))
