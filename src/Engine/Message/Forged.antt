-- ===== src/Engine/Message/Forged.antt =====
-- connection_engine.cpp: what a frame can do to the receiver, a forged one included. Where a cipher
-- context is freed twice the program is undefined from there on.
use pqc_messaging_app.Prelude.{
  ◌≡◌, refl, ap, ◌∙◌, ◌⊎◌, inl, inr, Bool, true, false, not, Option, none, some, Bytes, length,
  ◌==◌, is_empty, if◌then◌else◌,
}
use pqc_messaging_app.Exec.{
  Result, ok, err, hang, World, M, pure, raise, continue, caught, try_catch, ◌>>=◌,
}
use pqc_messaging_app.Exec.Reaches.{Reaches, Reaches-pure, Reaches-then_gets}
use pqc_messaging_app.Exec.Ends.{Still}
use pqc_messaging_app.Platform.{Platform}
use pqc_messaging_app.Platform.Calls.{holds}
use pqc_messaging_app.Protobuf.{ChatMessage, Envelope, Protobuf}
use pqc_messaging_app.Crypto.{AesGcmCrypto, aes_gcm, decrypt}
use pqc_messaging_app.Crypto.Ends.{Ends-session_decrypt}
use pqc_messaging_app.Crypto.Release.{Outcome-if, decrypt-Outcome}
use pqc_messaging_app.Crypto.Release
use pqc_messaging_app.Session
use pqc_messaging_app.Session.{Session}
use pqc_messaging_app.Engine.{ConnectionEngine, Outcome, success, failure}
use pqc_messaging_app.Engine.Message.{open_chat, open_envelope, parse_and_decrypt_message}

-- The next handle is not one of the live ones.
abbrev pub Fresh : {S : Type 0} → World S → Type 0
Fresh w = holds w.next w.live ≡ false

-- The engine is as before, and no handle was freed twice, but where the tag does not fit.
abbrev Received : World ConnectionEngine → Outcome Bytes → World ConnectionEngine → Type 0
Received w o v =
    (v.obj ≡ w.obj) × ((v.corrupt ≡ w.corrupt) ⊎ (o ≡ failure "GCM tag verification failed"))

-- The engine is as before, and no handle was freed that was not live.
abbrev pub Intact : World ConnectionEngine → Outcome Bytes → World ConnectionEngine → Type 0
Intact w o v = (v.obj ≡ w.obj) × (v.corrupt ≡ w.corrupt)

module _ ⦃p : Platform⦄ where
  session_decrypt-Outcome :
      (s : Session) (ct_tag nonce : Bytes) (w : World ConnectionEngine)
      → Fresh w
      → Release.Outcome w (Session.decrypt s ct_tag nonce w)
  unfolding Session.decrypt aes_gcm ◌>>=◌
  session_decrypt-Outcome s ct_tag nonce w fresh =
      Outcome-if (is_empty s.key) w _ _ (refl, inl refl) (keyed (not (length s.key == 32)))
    where
      keyed :
          (wrong : Bool)
          → Release.Outcome w (
              continue
                ((if wrong
                    then raise "AESGCMCrypto: key must be 32 bytes"
                    else pure (record { key = s.key }))
                  w)
                (λ (c : AesGcmCrypto). decrypt c ct_tag nonce))
      keyed true = (refl, inl refl)
      keyed false = decrypt-Outcome (record { key = s.key }) ct_tag nonce w fresh

  caught-Received :
      (w : World ConnectionEngine) (r : Result Bytes × World ConnectionEngine)
      → Still w.obj r
      → Release.Outcome w r
      → Reaches (Received w) (caught failure (continue r (λ plain. pure (success plain))))
  unfolding ◌>>=◌
  caught-Received w (ok plain, v) still h = record {
    value = success plain;
    after = v;
    returned = refl;
    holds_of = (still, inl h.1);
  }
  caught-Received w (err e, v) still (live, inl h) = record {
    value = failure e;
    after = v;
    returned = refl;
    holds_of = (still, inl h);
  }
  caught-Received w (err e, v) still (live, inr h) = record {
    value = failure e;
    after = v;
    returned = refl;
    holds_of = (still, inr (ap failure h.0));
  }
  caught-Received w (hang, v) still h = absurd h

  module _ ⦃g : Protobuf⦄ where
    open_chat-Received :
        (s : Session) (inner : Option ChatMessage) (w : World ConnectionEngine)
        → Fresh w
        → Reaches (Received w) (open_chat s inner w)
    unfolding open_chat try_catch ◌>>=◌
    open_chat-Received s none w fresh = Reaches-pure _ w (refl, inl refl)
    open_chat-Received s (some inner) w fresh =
        caught-Received w (Session.decrypt s inner.encrypted_content inner.nonce w)
          ((Ends-session_decrypt s inner.encrypted_content inner.nonce).at w)
          (session_decrypt-Outcome s inner.encrypted_content inner.nonce w fresh)

    open_envelope-Received :
        (s : Session) (env : Option Envelope) (w : World ConnectionEngine)
        → Fresh w
        → Reaches (Received w) (open_envelope s env w)
    unfolding open_envelope
    open_envelope-Received s none w fresh = Reaches-pure _ w (refl, inl refl)
    open_envelope-Received s (some env) w fresh =
        open_chat-Received s (g.parse_chat env.payload_e2e) w fresh

    chosen :
        (unready : Bool) (m k : M ConnectionEngine (Outcome Bytes)) (w : World ConnectionEngine)
        → Reaches (Received w) (m w)
        → Reaches (Received w) (k w)
        → Reaches (Received w) ((if unready then m else k) w)
    chosen true m k w hm hk = hm
    chosen false m k w hm hk = hk

    parse_and_decrypt_message-Received :
        (frame : Bytes) (w : World ConnectionEngine)
        → Fresh w
        → Reaches (Received w) (parse_and_decrypt_message frame w)
    unfolding parse_and_decrypt_message
    parse_and_decrypt_message-Received frame w fresh = Reaches-then_gets _ _ w (
        chosen (not w.obj.session_ready) _ _ w (Reaches-pure _ w (refl, inl refl))
          (open_envelope-Received w.obj.session (g.parse_envelope frame) w fresh))

    -- Where the tag of the frame's message does not fit, a cipher context is freed twice, and
    -- nothing is known of what the program does.
    abbrev pub Forged : Bytes → World ConnectionEngine → Type 0
    Forged frame w =
        (parse_and_decrypt_message frame w).0 ≡ ok (failure "GCM tag verification failed")

    -- Whatever the frame and the engine's state and whichever foreign calls are refused,
    -- where the next handle is not live yet: either the error is that the tag does not fit,
    -- where the program is undefined and nothing more is said of it, or
    -- `parseAndDecryptMessage` ends with a text or an error, leaves the engine as it was,
    -- and has freed no handle that is not live.
    pub parse_and_decrypt_message-Intact :
        (frame : Bytes) (w : World ConnectionEngine)
        → Fresh w
        → Forged frame w ⊎ Reaches (Intact w) (parse_and_decrypt_message frame w)
    parse_and_decrypt_message-Intact frame w fresh =
        let r : Reaches (Received w) (parse_and_decrypt_message frame w) =
          parse_and_decrypt_message-Received frame w fresh in
        elim r.holds_of.1 [
          | inl same ↦ inr (record {
            value = r.value;
            after = r.after;
            returned = r.returned;
            holds_of = (r.holds_of.0, same);
          })
          | inr forged ↦ inl (ap (λ x. x.0) r.returned ∙ ap ok forged)
        ]
