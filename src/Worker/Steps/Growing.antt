-- ===== src/Worker/Steps/Growing.antt =====
-- gui/EngineWorker.cpp: what is true of the signals that were emitted, and stays true when one more
-- is, is kept by all that happens to a worker.
use pqc_messaging_app.Prelude.{
  ℕ, zero, suc, ◌≡◌, ap, ◌∙◌, subst, true, false, not, Option, none, some, List, [], ◌∷◌, ◌++◌,
  append_assoc, Bytes, is_empty,
}
use pqc_messaging_app.Exec.{World}
use pqc_messaging_app.Exec.Hoare.{
  Hoare, Met, Hoare-pure, Hoare-raise, Hoare-wait, Hoare-if, Hoare-strengthen, Hoare-modify,
  Hoare-bind, Hoare-then_gets, Hoare-then_modify, Hoare-zoom, Hoare-any,
}
use pqc_messaging_app.Platform.{Platform}
use pqc_messaging_app.Protobuf.{Protobuf}
use pqc_messaging_app.Engine.{Outcome, success, failure}
use pqc_messaging_app.Worker.{
  Qt, Mode, no_mode, tcp_mode, ws_mode, Thread, no_thread, in_loop, ended, Emitted, EngineWorker,
  emit,
}
use pqc_messaging_app.Worker.Receive.{
  recv_by, received, recv_turn, loop_end, recv_loop, send_by, send_sealed, send_message,
}
use pqc_messaging_app.Worker.Disconnect.{close_by, join, disconnect_from_peer}
use pqc_messaging_app.Worker.Connect.{assign_thread, session_established, disconnect_first}
use pqc_messaging_app.Worker.Steps.{
  Slot, connect_slot, host_slot, relay_connect_slot, relay_host_slot, disconnect_slot, send_slot,
  run_slot, Step, called, turned, left, signalled, arrived,
}
use pqc_messaging_app.Worker.Steps.Triples.{Hoare-emit, missed-kept}
use pqc_messaging_app.Worker.Steps.Started.{
  StartRule, start_connect-Q, start_host-Q, start_relay_connect-Q, start_relay_host-Q,
}

module _ (R : List Emitted → Type 0)
    (more : (ss : List Emitted) (s : Emitted) → R ss → R (ss ++ (s ∷ []))) where
  abbrev Of : EngineWorker → Type 0
  Of o = R o.emitted

  emit-Of : (s : Emitted) → Hoare Of (λ _. Of) (emit s)
  emit-Of s = Hoare-emit s λ o h. more o.emitted s h

  assign_thread-Of : (t : Thread) → Hoare Of (λ _. Of) (assign_thread t)
  unfolding assign_thread
  assign_thread-Of no_thread = Hoare-modify _ λ o h. h
  assign_thread-Of in_loop = Hoare-raise _
  assign_thread-Of ended = Hoare-raise _

  session_established-Of :
      (mode : Mode) (line peer : Bytes) → Hoare Of (λ _. Of) (session_established mode line peer)
  unfolding session_established
  session_established-Of mode line peer =
      Hoare-then_modify {P' = Of} _ _ (λ o h. h)
        (Hoare-bind (λ _. Of) _ _ (emit-Of _)
          λ _.
            Hoare-bind (λ _. Of) _ _
              (Hoare-if (is_empty peer) _ _ (λ _. Hoare-pure tt λ o h. h) λ _. emit-Of _)
              λ _.
                Hoare-bind (λ _. Of) _ _ (emit-Of _)
                  λ _.
                    Hoare-then_gets _ _
                      λ thread. Hoare-strengthen _ (assign_thread-Of thread) λ o h. h.0)

  Of-StartRule : StartRule Of Of
  Of-StartRule = record {
    kept = λ o engine tcp ws h. h;
    quiet = λ o s hu hd h. more o.emitted s h;
    ends = λ o h. h;
    begins = λ mode line peer has_mode.
        Hoare-strengthen _ (session_established-Of mode line peer) λ o h. h.0;
  }

  module _ ⦃p : Platform⦄ ⦃g : Protobuf⦄ where
    recv_by-Of : (mode : Mode) → Hoare Of (λ _. Of) (recv_by mode)
    unfolding recv_by
    recv_by-Of no_mode = Hoare-pure none λ o h. h
    recv_by-Of tcp_mode = Hoare-zoom _ _ _ (Hoare-any _) λ o a t h _. h
    recv_by-Of ws_mode = Hoare-zoom _ _ _ (Hoare-any _) λ o a t h _. h

    received-Of : (got : Option Bytes) → Hoare Of (λ _. Of) (received got)
    unfolding received
    received-Of none = Hoare-pure false λ o h. h
    received-Of (some frame) =
        Hoare-bind (λ _. Of) _ _ (Hoare-zoom _ _ _ (Hoare-any _) λ o a t h _. h)
          λ outcome. Hoare-bind (λ _. Of) _ _ (emit-Of _) λ _. Hoare-pure true λ o h. h

    recv_turn-Of : Hoare Of (λ _. Of) recv_turn
    unfolding recv_turn
    recv_turn-Of = Hoare-then_gets _ _ λ mode.
        Hoare-bind (λ _. Of) _ _ (Hoare-strengthen _ (recv_by-Of mode) λ o h. h.0) received-Of

    loop_end-Of : Hoare Of (λ _. Of) loop_end
    unfolding loop_end
    loop_end-Of =
        Hoare-then_modify {P' = Of} _ _ (λ o h. h)
          (Hoare-bind (λ _. Of) _ _ (emit-Of _) λ _. Hoare-modify _ λ o h. h)

    recv_loop-Of : (turns : ℕ) → Hoare Of (λ _. Of) (recv_loop turns)
    unfolding recv_loop
    recv_loop-Of zero = Hoare-wait
    recv_loop-Of (suc turns) =
        Hoare-bind (λ _. Of) _ _ recv_turn-Of
          λ again. Hoare-if again _ _ (λ _. recv_loop-Of turns) λ _. loop_end-Of

    close_by-Of : (mode : Mode) → Hoare Of (λ _. Of) (close_by mode)
    unfolding close_by
    close_by-Of no_mode = Hoare-pure tt λ o h. h
    close_by-Of tcp_mode = Hoare-zoom _ _ _ (Hoare-any _) λ o a t h _. h
    close_by-Of ws_mode = Hoare-zoom _ _ _ (Hoare-any _) λ o a t h _. h

    join-Of : (thread : Thread) → Hoare Of (λ _. Of) (join thread)
    unfolding join
    join-Of no_thread = Hoare-pure tt λ o h. h
    join-Of in_loop =
        Hoare-bind (λ _. Of) _ _ missed-kept
          λ asleep. Hoare-then_gets _ _ λ turns.
            Hoare-bind (λ _. Of) _ _
              (Hoare-if asleep _ _ (λ _. Hoare-wait)
                λ _. Hoare-strengthen _ (recv_loop-Of turns) λ o h. h.0)
              λ _. Hoare-modify _ λ o h. h
    join-Of ended = Hoare-modify _ λ o h. h

    disconnect_from_peer-Of : Hoare Of (λ _. Of) disconnect_from_peer
    unfolding disconnect_from_peer
    disconnect_from_peer-Of =
        Hoare-then_modify {P' = Of} _ _ (λ o h. h)
          (Hoare-then_gets _ _ λ mode.
            Hoare-bind (λ _. Of) _ _ (Hoare-strengthen _ (close_by-Of mode) λ o h. h.0)
              λ _. Hoare-then_gets _ _ λ thread.
                Hoare-bind (λ _. Of) _ _ (Hoare-strengthen _ (join-Of thread) λ o h. h.0)
                  λ _. Hoare-then_gets _ _ λ there.
                    Hoare-bind (λ _. Of) _ _
                      (Hoare-if there _ _
                        (λ _. Hoare-then_modify {P' = Of} _ _ (λ o h. h.0) (emit-Of _))
                        λ _. Hoare-pure tt λ o h. h.0)
                      λ _. Hoare-modify _ λ o h. h)

    disconnect_first-Of : Hoare Of (λ _. Of) disconnect_first
    unfolding disconnect_first
    disconnect_first-Of = Hoare-then_gets _ _ λ there.
        Hoare-if there _ _
          (λ _.
            Hoare-bind (λ _. Of) _ _ (Hoare-strengthen _ (emit-Of _) λ o h. h.0)
              λ _. disconnect_from_peer-Of)
          λ _. Hoare-pure tt λ o h. h.0

    send_by-Of : (mode : Mode) (frame : Bytes) → Hoare Of (λ _. Of) (send_by mode frame)
    unfolding send_by
    send_by-Of no_mode frame = Hoare-pure false λ o h. h
    send_by-Of tcp_mode frame = Hoare-zoom _ _ _ (Hoare-any _) λ o a t h _. h
    send_by-Of ws_mode frame = Hoare-zoom _ _ _ (Hoare-any _) λ o a t h _. h

    send_sealed-Of : (o : Outcome Bytes) → Hoare Of (λ _. Of) (send_sealed o)
    unfolding send_sealed
    send_sealed-Of (failure err) = emit-Of _
    send_sealed-Of (success frame) = Hoare-then_gets _ _ λ mode.
        Hoare-bind (λ _. Of) _ _ (Hoare-strengthen _ (send_by-Of mode frame) λ o h. h.0)
          λ sent. Hoare-if (not sent) _ _ (λ _. emit-Of _) λ _. Hoare-pure tt λ o h. h

    send_message-Of : (text : Bytes) → Hoare Of (λ _. Of) (send_message text)
    unfolding send_message
    send_message-Of text = Hoare-then_gets _ _ λ there.
        Hoare-if (not there) _ _ (λ _. Hoare-strengthen _ (emit-Of _) λ o h. h.0)
          λ _.
            Hoare-bind (λ _. Of) _ _ (Hoare-zoom _ _ _ (Hoare-any _) λ o a t h _. h.0)
              send_sealed-Of

    module _ ⦃q : Qt⦄ where
      slot-Of : (s : Slot) → Hoare Of (λ _. Of) (run_slot s)
      unfolding run_slot
      slot-Of (connect_slot endpoint password) =
          start_connect-Q Of-StartRule disconnect_first-Of endpoint password
      slot-Of (host_slot port password) =
          start_host-Q Of-StartRule disconnect_first-Of port password
      slot-Of (relay_connect_slot url peer password) =
          start_relay_connect-Q Of-StartRule disconnect_first-Of url peer password
      slot-Of (relay_host_slot url me password) =
          start_relay_host-Q Of-StartRule disconnect_first-Of url me password
      slot-Of disconnect_slot = disconnect_from_peer-Of
      slot-Of (send_slot text) = send_message-Of text

      Step-Of : (w w' : World EngineWorker) → Step w w' → Of w.obj → Of w'.obj
      Step-Of _ _ (called s w w' e) h = subst (Met (λ _. Of)) e ((slot-Of s).at w h)
      Step-Of _ _ (turned w w' t e) h = subst (Met (λ _. Of)) e (recv_turn-Of.at w h)
      Step-Of _ _ (left w w' w'' t e e') h =
          subst (Met (λ _. Of)) e'
            (loop_end-Of.at w' (subst (Met (λ _. Of)) e (recv_turn-Of.at w h)))
      Step-Of _ _ (signalled w t s e) h = h
      Step-Of _ _ (arrived w bytes) h = h

-- The signals of the second list follow those of the first.
abbrev pub Continues : List Emitted → List Emitted → Type 0
Continues before now = (later : List Emitted) × (now ≡ before ++ later)

Continues-more :
    (before now : List Emitted) (s : Emitted)
    → Continues before now
    → Continues before (now ++ (s ∷ []))
Continues-more before now s (later, e) =
    (later ++ (s ∷ []), ap (◌++ (s ∷ [])) e ∙ append_assoc before later (s ∷ []))

module _ ⦃p : Platform⦄ ⦃g : Protobuf⦄ ⦃q : Qt⦄ where
  -- No step of a worker takes a signal back or changes the order of those before it.
  pub Step-Continues :
      (before : List Emitted) (w w' : World EngineWorker)
      → Step w w'
      → Continues before w.obj.emitted
      → Continues before w'.obj.emitted
  Step-Continues before = Step-Of (Continues before) (Continues-more before)
