-- ===== src/Examples/Keys.antt =====
-- The engine, the identity store and the ciphers at concrete inputs.
use pqc_messaging_app.Prelude.{
  ℕ, zero, suc, ◌≡◌, refl, Bool, true, false, Option, none, some, [], ◌∷◌, Bytes, All, codes, arith,
  replicate, bytes_eq, bytes_eq_iff, ◌++◌,
}
use pqc_messaging_app.Exec.{pure, err, M, ◌>>=◌}
use pqc_messaging_app.Exec.Owns.{Owns-pure, Tidy}
use pqc_messaging_app.Exec.Answers.{Answers, Ensures}
use pqc_messaging_app.Exec.Runs.{Ended}
use pqc_messaging_app.Exec.Reaches.{Reaches, at}
use pqc_messaging_app.Platform.Calls.{holds}
use pqc_messaging_app.Crypto.{AesGcmCrypto, demo}
use pqc_messaging_app.Crypto
use pqc_messaging_app.Crypto.Release.{encrypt-Tidy, decrypt-Outcome, decrypt-frees_twice}
use pqc_messaging_app.Crypto.Release
use pqc_messaging_app.Crypto.Gcm.{decrypt-encrypt}
use pqc_messaging_app.Kem.Laws.{KemLaws}
use pqc_messaging_app.Identity.{
  Identity, create_profile, load_profile, sign, verify, is_loaded, fingerprint_hex,
}
use pqc_messaging_app.Identity.Keys.{verify_sound, sign-Tidy, verify-Tidy}
use pqc_messaging_app.Identity.Layout.{Read, load_profile-Layout}
use pqc_messaging_app.Identity.Writing.{IdentityLaws}
use pqc_messaging_app.Identity.RoundTrip.{load_profile-create_profile}
use pqc_messaging_app.Identity.Fingerprint.{IsByte, fingerprint_hex-injective}
use pqc_messaging_app.Engine.{ConnectionEngine, success}
use pqc_messaging_app.Engine.Handshake.{run_client_handshake, run_server_handshake}
use pqc_messaging_app.Engine.Handshake.Authentic.{
  unready, ClientEnd, ServerEnd, run_client_handshake-authentic, run_server_handshake-authentic,
}
use pqc_messaging_app.Engine.Handshake.Release.{
  run_client_handshake-Tidy, run_server_handshake-Tidy,
}
use pqc_messaging_app.Engine.Message.RoundTrip.{deliver, parse_and_decrypt-encrypt_and_serialize}
use pqc_messaging_app.Engine.Loopback.{Wire, send_to, recv_from, on_c2s, on_s2c, loopback}
use pqc_messaging_app.Engine.Loopback.Laws.{HandshakeLaws, generated, conn, wire, Agreed}
use pqc_messaging_app.Engine.Loopback.Agreement.{loopback-Agreed}
use pqc_messaging_app.Examples.Foreign.{
  toy, toy_proto, toy-Healthy, toy-GcmLaws, toy-ProtobufLaws, toy-length_random, length-pad,
  machine, world,
}

toy-KemLaws : KemLaws ⦃p = toy⦄
toy-KemLaws = record {
  length_pk = λ i. refl;
  length_sk = λ i. refl;
  length_ct = λ i pk. length-pad 4 pk;
  agree = λ i j. refl;
}

pub toy-IdentityLaws : IdentityLaws ⦃p = toy⦄
toy-IdentityLaws = record {
  gcm = toy-GcmLaws;
  length_random = toy-length_random;
  length_pbkdf2 = λ pw salt rounds n. length-pad n _;
  length_public = λ h. refl;
  length_private = λ h. refl;
}

pub toy-HandshakeLaws : HandshakeLaws ⦃p = toy⦄
unfolding is_loaded
toy-HandshakeLaws = record {
  kem = toy-KemLaws;
  takes_public = λ h. refl;
  takes_private = λ h. refl;
  verifies = λ h msg. (bytes_eq_iff _ _).1 refl;
  loaded = λ h. refl;
  length_derived = λ ss. length-pad 32 ss;
  small_hello = λ h msg. omega (arith, length-pad 64 (replicate 32 h ++ msg));
  small_response = λ h msg. omega (arith, length-pad 64 (replicate 32 h ++ msg));
}

abbrev pub alice : ConnectionEngine
alice = record {
  identity = generated ⦃p = toy⦄ 7;
  session = record { key = [] };
  session_ready = false;
}

abbrev pub bob : ConnectionEngine
bob = record {
  identity = generated ⦃p = toy⦄ 8;
  session = record { key = [] };
  session_ready = false;
}

abbrev pub keyed : ConnectionEngine
keyed = record alice { session = record { key = demo.key }; session_ready = true }

abbrev nonce : Bytes
nonce = replicate 12 5

loopback-Agreed_example :
    Reaches
      (λ o v. Agreed ⦃p = toy⦄ ⦃g = toy_proto⦄ alice bob 7 8 o v.obj)
      (loopback ⦃p = toy⦄ ⦃g = toy_proto⦄ (at machine (conn alice (conn bob (wire [] [])))))
loopback-Agreed_example =
    loopback-Agreed ⦃p = toy⦄ ⦃g = toy_proto⦄ toy-Healthy toy-HandshakeLaws toy-ProtobufLaws alice
      bob 7 8 refl machine refl

-- The callbacks of the server's thread, which also serve a client whose peer is gone.
abbrev send : Bytes → M Wire Bool
send frame = on_s2c (send_to frame)

abbrev recv : M Wire (Option Bytes)
recv = on_c2s recv_from

run_client_handshake-authentic_example :
    Ended
      (λ c. c.engine ≡ unready alice)
      (λ o c. ClientEnd ⦃p = toy⦄ ⦃g = toy_proto⦄ (unready alice) o c.engine)
      (run_client_handshake ⦃p = toy⦄ ⦃g = toy_proto⦄ send recv (world (conn alice (wire [] []))))
run_client_handshake-authentic_example =
    run_client_handshake-authentic ⦃p = toy⦄ ⦃g = toy_proto⦄ send recv
      (world (conn alice (wire [] [])))

run_server_handshake-authentic_example :
    Ended
      (λ c. c.engine ≡ unready bob)
      (λ o c. ServerEnd ⦃p = toy⦄ ⦃g = toy_proto⦄ (unready bob) o c.engine)
      (run_server_handshake ⦃p = toy⦄ ⦃g = toy_proto⦄ send recv
        (world (conn bob (wire ((1 ∷ []) ∷ []) []))))
run_server_handshake-authentic_example =
    run_server_handshake-authentic ⦃p = toy⦄ ⦃g = toy_proto⦄ send recv
      (world (conn bob (wire ((1 ∷ []) ∷ []) [])))

parse_and_decrypt-encrypt_and_serialize_example :
    Reaches
      (λ o w'. (o ≡ success (codes "hi")) × (w'.obj ≡ (keyed, keyed)))
      (deliver ⦃p = toy⦄ ⦃g = toy_proto⦄
        (codes "hi")
        (codes "alice")
        (codes "bob")
        (world (keyed, keyed)))
parse_and_decrypt-encrypt_and_serialize_example =
    parse_and_decrypt-encrypt_and_serialize ⦃p = toy⦄ ⦃g = toy_proto⦄ toy-Healthy toy-GcmLaws
      toy-ProtobufLaws toy-length_random (world (keyed, keyed)) refl refl refl refl (codes "hi")
      (codes "alice") (codes "bob") refl refl (omega arith)

load_profile-create_profile_example :
    Reaches
      (λ _ w'.
        Reaches
          (λ _ v'. v'.obj ≡ w'.obj)
          (load_profile ⦃p = toy⦄ "alice.id" (codes "pw") (record w' { obj = bob.identity })))
      (create_profile ⦃p = toy⦄ "alice.id" (codes "pw") (world alice.identity))
load_profile-create_profile_example =
    load_profile-create_profile ⦃p = toy⦄ toy-Healthy toy-IdentityLaws "alice.id" (codes "pw")
      (world alice.identity) bob.identity

decrypt-encrypt_example :
    Answers {S = Identity}
      (λ out. out ≡ codes "hi")
      (do
        ct_tag ← Crypto.encrypt ⦃p = toy⦄ demo (codes "hi") nonce
        Crypto.decrypt ⦃p = toy⦄ demo ct_tag nonce)
decrypt-encrypt_example =
    decrypt-encrypt ⦃p = toy⦄ toy-Healthy toy-GcmLaws demo (codes "hi") nonce refl

decrypt-Outcome_example :
    Crypto.Release.Outcome ⦃p = toy⦄
      (world alice.identity)
      (Crypto.decrypt ⦃p = toy⦄ demo (replicate 20 1) nonce (world alice.identity))
unfolding holds
decrypt-Outcome_example =
    decrypt-Outcome ⦃p = toy⦄ demo (replicate 20 1) nonce (world alice.identity) refl

decrypt-frees_twice_example :
    ((Crypto.decrypt ⦃p = toy⦄ demo (replicate 20 1) nonce (world alice.identity)).0
      ≡ err "GCM tag verification failed")
    × ((Crypto.decrypt ⦃p = toy⦄ demo (replicate 20 1) nonce (world alice.identity)).1.corrupt
        ≡ true)
unfolding holds bytes_eq
decrypt-frees_twice_example =
    decrypt-frees_twice ⦃p = toy⦄ demo (replicate 20 1) nonce (world alice.identity) toy-Healthy
      refl refl (omega arith) refl

verify_sound_example :
    Ensures {S = Identity}
      (λ answer.
        answer ≡ true
        → (toy.takes_public_key (replicate 32 7) ≡ true)
          × (toy.ed25519_verify (replicate 32 7) (codes "hi") (replicate 64 7) ≡ true))
      (verify ⦃p = toy⦄ (replicate 32 7) (codes "hi") (replicate 64 7))
verify_sound_example = verify_sound ⦃p = toy⦄ (replicate 32 7) (codes "hi") (replicate 64 7)

load_profile-Layout_example : Read ⦃p = toy⦄ (some (replicate 40 1)) (
    load_profile ⦃p = toy⦄ "alice.id"
      (codes "pw")
      (at (record machine { disk = λ path. some (replicate 40 1) }) alice.identity))
load_profile-Layout_example =
    load_profile-Layout ⦃p = toy⦄ "alice.id" (codes "pw")
      (at (record machine { disk = λ path. some (replicate 40 1) }) alice.identity)

zeros-IsByte : (n : ℕ) → All IsByte (replicate n 0)
zeros-IsByte zero = tt
zeros-IsByte (suc n) = (omega arith, zeros-IsByte n)

fingerprint_hex-injective_example : toy.sha256 (7 ∷ []) ≡ toy.sha256 (7 ∷ 0 ∷ [])
unfolding fingerprint_hex
fingerprint_hex-injective_example =
    fingerprint_hex-injective ⦃p = toy⦄ (7 ∷ []) (7 ∷ 0 ∷ []) (omega arith, zeros-IsByte 31)
      (omega arith, zeros-IsByte 31) refl

-- A transport that sends nothing and receives nothing.
abbrev deaf_send : Bytes → M Unit Bool
deaf_send frame = pure true

abbrev deaf_recv : M Unit (Option Bytes)
deaf_recv = pure none

run_client_handshake-Tidy_example :
    Tidy (run_client_handshake ⦃p = toy⦄ ⦃g = toy_proto⦄ deaf_send deaf_recv)
run_client_handshake-Tidy_example =
    run_client_handshake-Tidy ⦃p = toy⦄ ⦃g = toy_proto⦄ deaf_send deaf_recv
      (λ frame. Owns-pure true) (Owns-pure none)

run_server_handshake-Tidy_example :
    Tidy (run_server_handshake ⦃p = toy⦄ ⦃g = toy_proto⦄ deaf_send deaf_recv)
run_server_handshake-Tidy_example =
    run_server_handshake-Tidy ⦃p = toy⦄ ⦃g = toy_proto⦄ deaf_send deaf_recv
      (λ frame. Owns-pure true) (Owns-pure none)

sign-Tidy_example : Tidy {S = Identity} (sign ⦃p = toy⦄ (replicate 32 7) (codes "hi"))
sign-Tidy_example = sign-Tidy ⦃p = toy⦄ (replicate 32 7) (codes "hi")

verify-Tidy_example :
    Tidy {S = Identity} (verify ⦃p = toy⦄ (replicate 32 7) (codes "hi") (replicate 64 7))
verify-Tidy_example = verify-Tidy ⦃p = toy⦄ (replicate 32 7) (codes "hi") (replicate 64 7)
