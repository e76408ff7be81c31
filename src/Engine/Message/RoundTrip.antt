-- ===== src/Engine/Message/RoundTrip.antt =====
-- connection_engine.cpp: a message that one engine writes is what the other engine reads.
use pqc_messaging_app.Prelude.{
  ℕ, ◌+◌, ◌≤◌, ◌<◌, ◌^◌, ◌≡◌, refl, sym, ap, subst, ◌∙◌, true, false, some, [], ◌∷◌, Bytes, length,
  is_empty, arith,
}
use pqc_messaging_app.Exec.{World, Machine, M, pure, ◌>>=◌, zoom}
use pqc_messaging_app.Exec.Answers.{Answers, Answers-pure, Answers-bind, Answers-try_catch}
use pqc_messaging_app.Exec.Reaches.{
  Reaches, Reaches-of_Answers, Reaches-bind, Reaches-then_gets, Reaches-zoom, Reaches-weaken, at,
}
use pqc_messaging_app.Platform.{Platform}
use pqc_messaging_app.Platform.Laws.{Healthy, GcmLaws}
use pqc_messaging_app.Platform.Calls.{counted, Answers-call_else}
use pqc_messaging_app.Protobuf.{Protobuf, ProtobufLaws, EnvelopeSizes}
use pqc_messaging_app.Crypto.{random_nonce}
use pqc_messaging_app.Crypto.Gcm.{
  sealed, aes_gcm-Answers, length-sealed, encrypt-Answers, decrypt-sealed,
}
use pqc_messaging_app.Session
use pqc_messaging_app.Session.{Session}
use pqc_messaging_app.Identity.Kept.{Answers-or_throw}
use pqc_messaging_app.Engine.{version, ConnectionEngine, Outcome, success, failure}
use pqc_messaging_app.Engine.Message.{
  now_seconds, seal, encrypt_and_serialize_message, open_chat, open_envelope,
  parse_and_decrypt_message,
}

nonempty : (key : Bytes) → length key ≡ 32 → is_empty key ≡ false
nonempty [] h = absurd (omega arith)
nonempty (x ∷ xs) h = refl

module _ ⦃p : Platform⦄ {S : Type 0} where
  now_seconds-Answers : Answers {S = S} (λ _. Unit {0}) now_seconds
  unfolding now_seconds
  now_seconds-Answers = record {
    at = λ w. record {
      value = p.seconds w.calls;
      after = counted w;
      returned = refl;
      holds_of = tt;
      same_obj = refl;
      same_disk = refl;
    };
  }

  module _ (healthy : Healthy p) (session : Session) (size : length session.key ≡ 32) where
    session-encrypt-Answers :
        (plaintext nonce : Bytes)
        → length nonce ≡ 12
        → Answers {S = S}
            (λ out. out ≡ sealed session.key nonce plaintext)
            (Session.encrypt session plaintext nonce)
    unfolding Session.encrypt
    session-encrypt-Answers plaintext nonce nonce_size = rw (nonempty session.key size) (
        Answers-bind _ _ _ (aes_gcm-Answers session.key size) λ c e.
          rw e (encrypt-Answers healthy (record { key = session.key }) plaintext nonce nonce_size))

    session-decrypt-Answers :
        GcmLaws
        → (plaintext nonce : Bytes) → length nonce ≡ 12
        → Answers {S = S}
            (λ out. out ≡ plaintext)
            (Session.decrypt session (sealed session.key nonce plaintext) nonce)
    unfolding Session.decrypt
    session-decrypt-Answers laws plaintext nonce nonce_size = rw (nonempty session.key size) (
        Answers-bind _ _ _ (aes_gcm-Answers session.key size) λ c e.
          rw e
            (decrypt-sealed healthy laws (record { key = session.key }) plaintext nonce nonce_size))

module _ ⦃p : Platform⦄ ⦃g : Protobuf⦄ where
  -- The frame opens, for every engine with that session's key, to the plaintext.
  abbrev pub Sends : Session → Bytes → Outcome Bytes → Type 0
  Sends session plaintext (failure message) = ⊥
  Sends session plaintext (success frame) =
      Answers (λ o. o ≡ success plaintext) (open_envelope session (g.parse_envelope frame))

module _ ⦃p : Platform⦄ ⦃g : Protobuf⦄ where
  -- What is sent opens to the plaintext, and its size is a number of 32 bits.
  abbrev pub SendsSmall : Session → Bytes → Outcome Bytes → Type 0
  SendsSmall session plaintext (failure message) = ⊥
  SendsSmall session plaintext (success frame) =
      Sends session plaintext (success frame) × (EnvelopeSizes → length frame < 2 ^ 32)

  SendsSmall-Sends :
      (session : Session) (plaintext : Bytes) (o : Outcome Bytes)
      → SendsSmall session plaintext o
      → Sends session plaintext o
  SendsSmall-Sends session plaintext (failure message) h = h
  SendsSmall-Sends session plaintext (success frame) h = h.0

module _ ⦃p : Platform⦄ ⦃g : Protobuf⦄ (healthy : Healthy p) (gcm : GcmLaws) (proto : ProtobufLaws)
    (length_random : (i n : ℕ) → length (p.random i n) ≡ n) where
  module _ (session : Session) (key_size : length session.key ≡ 32) where
    open_envelope-Answers :
        (plaintext nonce ct_tag sender_id to_username inner frame : Bytes) (sent_at stamped_at : ℕ)
        → length nonce ≡ 12
        → ct_tag ≡ sealed session.key nonce plaintext
        → g.parse_chat inner
          ≡ some (record {
            sender_id = sender_id;
            encrypted_content = ct_tag;
            nonce = nonce;
            timestamp_unix = sent_at;
          })
        → g.parse_envelope frame
          ≡ some (record {
            version = version;
            to_username = to_username;
            sender_pubkey = [];
            payload_e2e = inner;
            client_timestamp = stamped_at;
          })
        → Answers (λ o. o ≡ success plaintext) (open_envelope session (g.parse_envelope frame))
    unfolding open_envelope open_chat
    open_envelope-Answers plaintext nonce ct_tag sender_id to_username inner frame sent_at
          stamped_at nonce_size sealed_is chat envelope =
        rw (envelope, chat, sealed_is)
          (Answers-try_catch _ failure (
            Answers-bind _ _ _
              (session-decrypt-Answers healthy session key_size gcm plaintext nonce nonce_size)
              λ plain e. Answers-pure _ (ap success e)))

    seal-Answers :
        (plaintext sender_id to_username : Bytes)
        → g.is_utf8 sender_id ≡ true
        → g.is_utf8 to_username ≡ true
        → length plaintext + length sender_id + length to_username ≤ 2 ^ 23
        → Answers (SendsSmall session plaintext) (seal session plaintext sender_id to_username)
    unfolding seal random_nonce
    seal-Answers plaintext sender_id to_username sender_utf8 to_utf8 small =
        Answers-bind (λ nonce. length nonce ≡ 12) _ _
          (Answers-call_else _ _ healthy λ i. length_random i 12)
          λ nonce nonce_size.
            Answers-bind _ _ _
              (session-encrypt-Answers healthy session key_size plaintext nonce nonce_size)
              λ ct_tag sealed_is. Answers-bind _ _ _ now_seconds-Answers λ sent_at _.
                let ct_size : length ct_tag ≡ length plaintext + 16 =
                  ap length sealed_is ∙ length-sealed gcm session.key nonce plaintext in
                let (chat, chat_size) =
                  proto.chat
                    (record {
                      sender_id = sender_id;
                      encrypted_content = ct_tag;
                      nonce = nonce;
                      timestamp_unix = sent_at;
                    })
                    sender_utf8 (omega arith) in
                Answers-bind (λ inner. inner ≡ chat.0) _ _ (Answers-or_throw _ _ chat.0 chat.1 refl)
                  λ inner inner_is. Answers-bind _ _ _ now_seconds-Answers λ stamped_at _.
                    let env =
                      proto.envelope
                        (record {
                          version = version;
                          to_username = to_username;
                          sender_pubkey = [];
                          payload_e2e = inner;
                          client_timestamp = stamped_at;
                        })
                        to_utf8 (omega (arith, ap (λ (b : Bytes). length b) inner_is)) in
                    Answers-bind (λ frame. frame ≡ env.0) _ _
                      (Answers-or_throw _ _ env.0 env.1 refl)
                      λ frame frame_is. Answers-pure _ (
                        open_envelope-Answers plaintext nonce ct_tag sender_id to_username inner
                            frame sent_at stamped_at nonce_size sealed_is
                            (ap g.parse_chat inner_is ∙ chat.2)
                            (ap g.parse_envelope frame_is ∙ env.2),
                        λ sizes.
                            let written = sizes.written _ env.0 env.1 in
                            omega (
                              arith,
                              written,
                              ap (λ (b : Bytes). length b) frame_is,
                              ap (λ (b : Bytes). length b) inner_is,
                            ),
                      )

  -- What an engine with a session makes of a plaintext.
  pub encrypt_and_serialize-SendsSmall :
      (e : ConnectionEngine) (machine : Machine) (plaintext sender_id to_username : Bytes)
      → length e.session.key ≡ 32
      → e.session_ready ≡ true
      → g.is_utf8 sender_id ≡ true
      → g.is_utf8 to_username ≡ true
      → length plaintext + length sender_id + length to_username ≤ 2 ^ 23
      → Reaches
          (λ o v. SendsSmall e.session plaintext o × (v.obj ≡ e))
          (encrypt_and_serialize_message plaintext sender_id to_username (at machine e))
  unfolding encrypt_and_serialize_message
  encrypt_and_serialize-SendsSmall e machine plaintext sender_id to_username key_size is_ready
        sender_utf8 to_utf8 small =
      Reaches-then_gets _ _ _ (
        rw is_ready (
          Reaches-of_Answers _ _
            (Answers-try_catch _ failure (
              seal-Answers e.session key_size plaintext sender_id to_username sender_utf8 to_utf8
                small))
            λ o v sends kept _. (sends, kept)))

  pub encrypt_and_serialize-Sends :
      (e : ConnectionEngine) (machine : Machine) (plaintext sender_id to_username : Bytes)
      → length e.session.key ≡ 32
      → e.session_ready ≡ true
      → g.is_utf8 sender_id ≡ true
      → g.is_utf8 to_username ≡ true
      → length plaintext + length sender_id + length to_username ≤ 2 ^ 23
      → Reaches
          (λ o v. Sends e.session plaintext o × (v.obj ≡ e))
          (encrypt_and_serialize_message plaintext sender_id to_username (at machine e))
  encrypt_and_serialize-Sends e machine plaintext sender_id to_username key_size is_ready
        sender_utf8 to_utf8 small =
      Reaches-weaken _
        (encrypt_and_serialize-SendsSmall e machine plaintext sender_id to_username key_size
          is_ready sender_utf8 to_utf8 small)
        λ o v (sends, kept). (SendsSmall-Sends e.session plaintext o sends, kept)

-- What an engine with a session makes of a frame that opens to a plaintext.
module _ ⦃p : Platform⦄ ⦃g : Protobuf⦄ where
  pub parse_and_decrypt-Sends :
      (e : ConnectionEngine) (machine : Machine) (frame plaintext : Bytes)
      → Sends e.session plaintext (success frame)
      → e.session_ready ≡ true
      → Reaches
          (λ o v. (o ≡ success plaintext) × (v.obj ≡ e))
          (parse_and_decrypt_message frame (at machine e))
  unfolding parse_and_decrypt_message
  parse_and_decrypt-Sends e machine frame plaintext sends is_ready =
      Reaches-then_gets _ _ _
        (rw is_ready (Reaches-of_Answers _ _ sends λ o v is kept _. (is, kept)))

-- One engine writes a message, and the other one reads what came of it.
abbrev pub Engines : Type 0
Engines = ConnectionEngine × ConnectionEngine

module _ ⦃p : Platform⦄ ⦃g : Protobuf⦄ where
  abbrev pub receive : Outcome Bytes → M Engines (Outcome Bytes)
  receive (failure message) = pure (failure message)
  receive (success frame) =
      zoom (λ (es : Engines). es.1) (λ e es. (es.0, e)) (parse_and_decrypt_message frame)

  abbrev pub deliver : Bytes → Bytes → Bytes → M Engines (Outcome Bytes)
  deliver plaintext sender_id to_username =
      zoom (λ (es : Engines). es.0) (λ e es. (e, es.1))
        (encrypt_and_serialize_message plaintext sender_id to_username)
      >>= receive

  receive-Reaches :
      (w v : World Engines) (o : Outcome Bytes) (plaintext : Bytes)
      → Sends w.obj.0.session plaintext o
      → v.obj ≡ w.obj
      → w.obj.1.session ≡ w.obj.0.session
      → w.obj.1.session_ready ≡ true
      → Reaches (λ o' w'. (o' ≡ success plaintext) × (w'.obj ≡ w.obj)) (receive o v)
  receive-Reaches w v (failure message) plaintext sends kept same receiver_ready = absurd sends
  receive-Reaches w v (success frame) plaintext sends kept same receiver_ready =
      let same_session : w.obj.0.session ≡ v.obj.1.session =
        sym same ∙ (λ i. (sym kept i).1.session) in
      Reaches-zoom _ _ _ v (
        Reaches-weaken _
          (parse_and_decrypt-Sends v.obj.1 v.machine frame plaintext
            (subst (λ s. Sends s plaintext (success frame)) same_session sends)
            ((λ i. (kept i).1.session_ready) ∙ receiver_ready))
          λ o v' (is, kept'). (is, (λ i. (v.obj.0, kept' i)) ∙ kept))

  module _ (healthy : Healthy p) (gcm : GcmLaws) (proto : ProtobufLaws)
      (length_random : (i n : ℕ) → length (p.random i n) ≡ n) (w : World Engines)
      (key_size : length w.obj.0.session.key ≡ 32) (same : w.obj.1.session ≡ w.obj.0.session)
      (sender_ready : w.obj.0.session_ready ≡ true)
      (receiver_ready : w.obj.1.session_ready ≡ true) where
    -- Where no foreign call is refused, `GcmLaws` and `ProtobufLaws` hold, random bytes have
    -- the length asked for, two engines are ready with one session whose key has 32 bytes,
    -- the two names are UTF-8, and plaintext and names have at most 2^23 bytes together: the
    -- frame that one engine makes of the plaintext is read by the other as that plaintext,
    -- and both engines stay as they are.
    pub parse_and_decrypt-encrypt_and_serialize :
        (plaintext sender_id to_username : Bytes)
        → g.is_utf8 sender_id ≡ true
        → g.is_utf8 to_username ≡ true
        → length plaintext + length sender_id + length to_username ≤ 2 ^ 23
        → Reaches
            (λ o w'. (o ≡ success plaintext) × (w'.obj ≡ w.obj))
            (deliver plaintext sender_id to_username w)
    parse_and_decrypt-encrypt_and_serialize plaintext sender_id to_username sender_utf8 to_utf8
          small =
        Reaches-bind {Q = λ o v. Sends w.obj.0.session plaintext o × (v.obj ≡ w.obj)} _ receive w
          (Reaches-zoom _ _ _ w (
            Reaches-weaken _
              (encrypt_and_serialize-Sends healthy gcm proto length_random w.obj.0 w.machine
                plaintext sender_id to_username key_size sender_ready sender_utf8 to_utf8 small)
              λ o v (sends, kept). (sends, λ i. (kept i, w.obj.1))))
          λ o v (sends, kept). receive-Reaches w v o plaintext sends kept same receiver_ready
