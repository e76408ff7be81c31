-- ===== src/Identity/RoundTrip.antt =====
-- identity.cpp: a profile that `create_profile` wrote is what `load_profile` reads back.
use pqc_messaging_app.Prelude.{
  ℕ, ◌+◌, ◌≡◌, refl, ap, ◌∙◌, sym, String, false, not, [], ◌++◌, Bytes, length, bytes_eq, ltb, ◌||◌,
  ◌==◌, arith,
}
use pqc_messaging_app.Exec.{World, ◌>>=◌}
use pqc_messaging_app.Exec.Reaches.{Reaches, Reaches-then, Reaches-modify, Reaches-weaken}
use pqc_messaging_app.Platform.{Platform}
use pqc_messaging_app.Platform.Laws.{Healthy}
use pqc_messaging_app.Platform.Calls.{counted, Reaches-then_call}
use pqc_messaging_app.Words.{htonl}
use pqc_messaging_app.Files.{open_in}
use pqc_messaging_app.Files.Reading.{stream, read-append, read_block-append, read_word-append}
use pqc_messaging_app.Crypto.Gcm.{sealed, aes_gcm-Answers, length-sealed, decrypt-sealed}
use pqc_messaging_app.Identity.{
  Identity, magic, pbkdf2_sha256, create_profile, throw_if, or_throw, unlock, load_fields,
  load_profile, stack_bytes, resize,
}
use pqc_messaging_app.Identity.Layout.{length-resize}
use pqc_messaging_app.Identity.Writing.{IdentityLaws, profile, Created, create_profile-Created}

module _ ⦃p : Platform⦄ (healthy : Healthy p) (laws : IdentityLaws) where
  unlock-Reaches :
      (password salt nonce private_key : Bytes) (w : World Identity)
      → length nonce ≡ 12
      → Reaches
          (λ _ w'. (w'.obj ≡ record w.obj { private_key = private_key }) × (w'.disk ≡ w.disk))
          (unlock password salt 200000 nonce
            (sealed (p.pbkdf2 password salt 200000 32) nonce private_key)
            w)
  unfolding unlock pbkdf2_sha256
  unlock-Reaches password salt nonce private_key w n_size = Reaches-then_call healthy _ _ _ _ (
      Reaches-then _ _ _ (aes_gcm-Answers _ (laws.length_pbkdf2 _ _ _ _)) λ crypto w1 c o1 d1.
        rw c (
          Reaches-then _ _ _ (decrypt-sealed healthy laws.gcm _ private_key nonce n_size)
            λ key w2 k o2 d2. Reaches-modify _ _ (
              (λ i. record (o2 i) { private_key = k i })
                  ∙ (λ i. record (o1 i) { private_key = private_key }),
              d2 ∙ d1,
            )))

  -- Reading a profile back: every field is found, and the private key opens.
  load_fields-Reaches :
      (password salt nonce public_key private_key behind : Bytes) (w : World Identity)
      → length salt ≡ 16
      → length nonce ≡ 12
      → length public_key ≡ 32
      → length private_key ≡ 32
      → let ct = sealed (p.pbkdf2 password salt 200000 32) nonce private_key in
        Reaches
          (λ _ w'.
            (w'.obj ≡ record { public_key = public_key; private_key = private_key })
            × (w'.disk ≡ w.disk))
          (load_fields password (stream (profile salt nonce public_key ct behind)) w)
  unfolding load_fields throw_if ◌>>=◌ bytes_eq
  load_fields-Reaches password salt nonce public_key private_key behind w s_size n_size p_size
        k_size =
      let ct : Bytes = sealed (p.pbkdf2 password salt 200000 32) nonce private_key in
      let b10 : Bytes = ct ++ behind in
      let b9 : Bytes = htonl (length ct) ++ b10 in
      let b8 : Bytes = public_key ++ b9 in
      let b7 : Bytes = htonl (length public_key) ++ b8 in
      let b6 : Bytes = nonce ++ b7 in
      let b5 : Bytes = htonl (length nonce) ++ b6 in
      let b4 : Bytes = salt ++ b5 in
      let b3 : Bytes = htonl (length salt) ++ b4 in
      let b2 : Bytes = htonl 200000 ++ b3 in
      let b1 : Bytes = htonl 1 ++ b2 in
      rw
        (
          read-append magic b1 stack_bytes refl,
          read_word-append 1 b2 (omega arith),
          read_word-append 200000 b3 (omega arith),
          read_word-append (length salt) b4 (omega arith),
          read_block-append salt b5,
          read_word-append (length nonce) b6 (omega arith),
          read_block-append nonce b7,
          read_word-append (length public_key) b8 (omega arith),
          test_salt,
          test_nonce,
          test_pub,
          read-append public_key b9 (resize (length public_key) w.obj.public_key)
              (length-resize _ _),
          read_word-append (length ct) b10 (omega (arith, ct_size)),
          test_ct,
          read_block-append ct behind,
        )
        (unlock-Reaches password salt nonce private_key _ n_size)
    where
      ct_size : length (sealed (p.pbkdf2 password salt 200000 32) nonce private_key) ≡ 48
      ct_size = length-sealed laws.gcm _ _ _ ∙ ap (λ (n : ℕ). n + 16) k_size

      test_salt : length salt == 0 || ltb 1024 (length salt) ≡ false
      test_salt = rw s_size

      test_nonce : not (length nonce == 12) ≡ false
      test_nonce = rw n_size

      test_pub : not (length public_key == 32) ≡ false
      test_pub = rw p_size

      test_ct :
          ltb (length (sealed (p.pbkdf2 password salt 200000 32) nonce private_key)) 16
            || ltb 4096 (length (sealed (p.pbkdf2 password salt 200000 32) nonce private_key))
          ≡ false
      test_ct = rw ct_size

  pub load_profile-Reaches :
      (path : String) (password : Bytes) (created : World Identity) (v : World Identity)
      → Created path password created
      → v.disk path ≡ created.disk path
      → Reaches (λ _ v'. (v'.obj ≡ created.obj) × (v'.disk ≡ v.disk)) (load_profile path password v)
  unfolding load_profile open_in or_throw ◌>>=◌
  load_profile-Reaches path password created v c same =
      rw (healthy v.calls, same, c.file)
        (Reaches-weaken _
          (load_fields-Reaches password c.salt c.nonce _ _ [] (counted v) c.salt_size c.nonce_size
            (laws.length_public c.handle) (laws.length_private c.handle))
          λ _ v' r. (r.0 ∙ sym c.keys, r.1))

  -- Where no foreign call is refused and `IdentityLaws` hold, `create_profile` returns, and
  -- `load_profile` of the same path and password right after it, into whatever object, returns
  -- and puts the created key pair there.
  pub load_profile-create_profile :
      (path : String) (password : Bytes) (w : World Identity) (other : Identity)
      → Reaches
          (λ _ w'.
            Reaches
              (λ _ v'. v'.obj ≡ w'.obj)
              (load_profile path password (record w' { obj = other })))
          (create_profile path password w)
  load_profile-create_profile path password w other =
      Reaches-weaken _ (create_profile-Created healthy laws path password w) λ _ w' c.
        Reaches-weaken _ (load_profile-Reaches path password w' (record w' { obj = other }) c refl)
          λ _ v' r. r.0
