-- ===== src/Worker/Receive/Turns.antt =====
-- gui/EngineWorker.cpp: what a turn of `recvLoop` does with a frame.
use pqc_messaging_app.Prelude.{
  ◌≡◌, refl, ap, ◌∙◌, ◌⊎◌, inl, inr, Bool, true, some, [], ◌∷◌, ◌++◌, Bytes, codes,
}
use pqc_messaging_app.Exec.{ok, World, zoom, ◌>>=◌}
use pqc_messaging_app.Exec.Reaches.{Reaches, at}
use pqc_messaging_app.Platform.{Platform}
use pqc_messaging_app.Protobuf.{Protobuf}
use pqc_messaging_app.Engine.{Outcome, success, failure}
use pqc_messaging_app.Engine.Message.{parse_and_decrypt_message}
use pqc_messaging_app.Engine.Message.Forged.{
  Fresh, Intact, Forged, parse_and_decrypt_message-Intact,
}
use pqc_messaging_app.Worker.{Emitted, status, message_received, EngineWorker, emit}
use pqc_messaging_app.Worker.Receive.{shown, received}

-- The worker with one more signal.
abbrev pub telling : Emitted → EngineWorker → EngineWorker
telling s o = record o { emitted = o.emitted ++ (s ∷ []) }

-- The worker after a frame: with the text for the window, or with a line on what was wrong.
abbrev pub with_news : Outcome Bytes → EngineWorker → EngineWorker
with_news (success text) o = telling (message_received text) o
with_news (failure e) o = telling (status (codes "Dropping message: " ++ codes e)) o

told :
    (outcome : Outcome Bytes) (o : EngineWorker) → telling (shown outcome) o ≡ with_news outcome o
unfolding shown
told (success text) o = refl
told (failure e) o = refl

module _ ⦃p : Platform⦄ ⦃g : Protobuf⦄ where
  -- A frame was received and told of, and the worker is otherwise as before.
  pub record Told (w : World EngineWorker) (frame : Bytes) (again : Bool) (v : World EngineWorker)
      : Type 0 where
    pub outcome : Outcome Bytes
    pub decrypted : (parse_and_decrypt_message frame (at w.machine w.obj.engine)).0 ≡ ok outcome
    pub goes_on : again ≡ true
    pub tells : v.obj ≡ with_news outcome w.obj
    pub defined : v.corrupt ≡ w.corrupt

  turn_of :
      (frame : Bytes) (w : World EngineWorker)
      → Reaches
          (Intact (at w.machine w.obj.engine))
          (parse_and_decrypt_message frame (at w.machine w.obj.engine))
      → Reaches (Told w frame) (received (some frame) w)
  unfolding received emit ◌>>=◌ zoom
  turn_of frame w inner = record {
    value = true;
    after =
        at inner.after.machine
          (telling (shown inner.value) (record w.obj { engine = inner.after.obj }));
    returned = rw inner.returned refl;
    holds_of = record {
      outcome = inner.value;
      decrypted = ap (λ r. r.0) inner.returned;
      goes_on = refl;
      tells =
          ap (λ e. telling (shown inner.value) (record w.obj { engine = e })) inner.holds_of.0
          ∙ told inner.value w.obj;
      defined = inner.holds_of.1;
    };
  }

  -- Whatever the content of a frame and whichever foreign calls are refused, where the next
  -- handle is not live yet: either decrypting it ends with the error that the tag does not
  -- fit, where the program is undefined and nothing is said of it, or the turn of the receive
  -- loop that received it goes on to another, has emitted one signal, the text as a message or
  -- a status 'Dropping message: ' with the error, has left the worker as it was otherwise, and
  -- has freed no handle that is not live.
  pub received-Told :
      (frame : Bytes) (w : World EngineWorker)
      → Fresh w
      → Forged frame (at w.machine w.obj.engine) ⊎ Reaches (Told w frame) (received (some frame) w)
  received-Told frame w fresh =
      elim (parse_and_decrypt_message-Intact frame (at w.machine w.obj.engine) fresh) [
        | inl forged ↦ inl forged
        | inr inner ↦ inr (turn_of frame w inner)
      ]
