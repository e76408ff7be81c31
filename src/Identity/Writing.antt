-- ===== src/Identity/Writing.antt =====
-- identity.cpp: what `create_profile` leaves in the object and on the disk.
use pqc_messaging_app.Prelude.{
  ℕ, ◌≡◌, refl, ◌∙◌, sym, subst, append-nil, String, true, some, [], ◌++◌, Bytes, length,
  append_assoc,
}
use text.Mathlib.TextPositions.{eq_refl}
use pqc_messaging_app.Exec.{World, M, scoped, ◌>>=◌}
use pqc_messaging_app.Exec.Answers.{Answered, Answers, Answers-bind, Answers-weaken}
use pqc_messaging_app.Exec.Reaches.{
  Reaches, Reaches-of_Answers, Reaches-bind, Reaches-then, Reaches-then_gets, Reaches-then_modify,
  Reaches-weaken,
}
use pqc_messaging_app.Platform.{Platform}
use pqc_messaging_app.Platform.Laws.{Healthy, GcmLaws}
use pqc_messaging_app.Platform.Calls.{
  counted, Answers-call_else, Answers-free, Reaches-with_new, Reaches-then_call,
}
use pqc_messaging_app.Words.{htonl}
use pqc_messaging_app.Files.{OutStream, open_out, write, close_out, on_disk}
use pqc_messaging_app.Crypto.Gcm.{sealed, aes_gcm-Answers, encrypt-Answers}
use pqc_messaging_app.Identity.{
  Identity, magic, gen_ed25519, random_bytes, pbkdf2_sha256, write_profile, store_profile,
  create_profile, throw_if, or_throw,
}

-- What the identity store relies on: the lengths of what the foreign calls give.
pub record IdentityLaws ⦃p : Platform⦄ : Type 0 where
  pub gcm : GcmLaws
  pub length_random : (i n : ℕ) → length (p.random i n) ≡ n
  pub length_pbkdf2 : (pw salt : Bytes) (it n : ℕ) → length (p.pbkdf2 pw salt it n) ≡ n
  pub length_public : (h : ℕ) → length (p.ed25519_keygen h).0 ≡ 32
  pub length_private : (h : ℕ) → length (p.ed25519_keygen h).1 ≡ 32

module _ ⦃p : Platform⦄ (healthy : Healthy p) where
  -- Key generation leaves a key pair of libcrypto's in the object, and the files alone.
  gen_ed25519-Reaches :
      (w : World Identity)
      → Reaches
          (λ _ w'.
            (h : ℕ) × (w'.obj ≡ record {
              public_key = (p.ed25519_keygen h).0;
              private_key = (p.ed25519_keygen h).1;
            })
            × (w'.disk ≡ w.disk))
          (gen_ed25519 w)
  unfolding gen_ed25519
  gen_ed25519-Reaches w = Reaches-with_new healthy _ _ w (
      Reaches-then_call healthy _ _ _ _ (
        Reaches-with_new healthy _ _ _ (
          Reaches-then _ _ _ (Answers-free w.next) λ _ w1 _ o1 d1.
            Reaches-then_call healthy _ _ _ _ (
              Reaches-then_call healthy _ _ _ _ (
                Reaches-then_modify _ _ _ (
                  Reaches-then_modify _ _ _ (
                    Reaches-then_call healthy _ _ _ _ (
                      Reaches-then_modify _ _ _ (
                        Reaches-then_call healthy _ _ _ _ (
                          Reaches-then_modify _ _ _ (
                            Reaches-of_Answers _ _ (Answers-free _)
                              λ _ w2 _ o2 d2. (_, o2, d2 ∙ d1))))))))))))

-- The bytes of a profile, as `create_profile` writes them one behind the other.
abbrev pub profile : Bytes → Bytes → Bytes → Bytes → Bytes → Bytes
profile salt nonce public_key ct behind =
    magic
    ++ (htonl 1
        ++ (htonl 200000
            ++ (htonl (length salt)
                ++ (salt
                    ++ (htonl (length nonce)
                        ++ (nonce
                            ++ (htonl (length public_key)
                                ++ (public_key ++ (htonl (length ct) ++ (ct ++ behind))))))))))

abbrev writing : String → Bytes → OutStream
writing path pending = record { path = path; pending = pending; good = true }

module _ ⦃p : Platform⦄ (healthy : Healthy p) where
  write-Answers :
      {S : Type 0} (path : String) (pending bytes : Bytes)
      → Answers {S = S}
          (λ f. f ≡ writing path (pending ++ bytes))
          (write bytes (writing path pending))
  unfolding write
  write-Answers path pending bytes = record {
    at = λ w. record {
      value = writing path (pending ++ bytes);
      after = counted w;
      returned = rw (healthy w.calls);
      holds_of = refl;
      same_obj = refl;
      same_disk = refl;
    };
  }

  then_write :
      {S A : Type 0} {Q : A → Type 0} (path : String) (pending bytes : Bytes)
      (k : OutStream → M S A)
      → Answers Q (k (writing path (pending ++ bytes)))
      → Answers Q (write bytes (writing path pending) >>= k)
  then_write {Q} path pending bytes k h =
      Answers-bind (λ f. f ≡ writing path (pending ++ bytes)) _ k (write-Answers path pending bytes)
        λ f e. subst (λ g. Answers Q (k g)) (sym e) h

  write_profile-Answers :
      {S : Type 0} (path : String) (salt nonce public_key ct : Bytes)
      → Answers {S = S}
          (λ f. f ≡ writing path (profile salt nonce public_key ct []))
          (write_profile salt nonce public_key ct (writing path []))
  unfolding write_profile
  write_profile-Answers path salt nonce public_key ct = then_write path _ _ _ (
      then_write path _ _ _ (
        then_write path _ _ _ (
          then_write path _ _ _ (
            then_write path _ _ _ (
              then_write path _ _ _ (
                then_write path _ _ _ (
                  then_write path _ _ _ (
                    then_write path _ _ _ (
                      then_write path _ _ _ (
                        Answers-weaken _ (write-Answers path _ ct)
                          λ f e. e ∙ (simp (append_assoc, append-nil))))))))))))

-- What `create_profile` leaves: the key pair of a key generation in the object, and a file of that
-- profile with the private key sealed under a key derived from the password.
pub record Created ⦃p : Platform⦄ (path : String) (password : Bytes) (w : World Identity)
    : Type 0 where
  pub handle : ℕ
  pub salt : Bytes
  pub nonce : Bytes
  pub salt_size : length salt ≡ 16
  pub nonce_size : length nonce ≡ 12
  pub keys : w.obj ≡ record {
    public_key = (p.ed25519_keygen handle).0;
    private_key = (p.ed25519_keygen handle).1;
  }
  pub file :
      w.disk path
      ≡ some (
          profile salt nonce
            (p.ed25519_keygen handle).0
            (sealed (p.pbkdf2 password salt 200000 32) nonce (p.ed25519_keygen handle).1)
            [])

module _ ⦃p : Platform⦄ (healthy : Healthy p) (laws : IdentityLaws) where
  random-Answers : {S : Type 0} (n : ℕ) → Answers {S = S} (λ b. length b ≡ n) (random_bytes n)
  unfolding random_bytes
  random-Answers n = Answers-call_else _ _ healthy λ i. laws.length_random i n

  store_profile-Reaches :
      {S : Type 0} (path : String) (salt nonce public_key ct : Bytes) (w : World S)
      → Reaches
          (λ _ w'. (w'.obj ≡ w.obj) × (w'.disk path ≡ some (profile salt nonce public_key ct [])))
          (store_profile path salt nonce public_key ct w)
  unfolding store_profile open_out or_throw throw_if scoped close_out ◌>>=◌
  store_profile-Reaches path salt nonce public_key ct w =
      let opened_w : World _ = on_disk path [] (counted w) in
      let written : Answered (λ f. f ≡ writing path (profile salt nonce public_key ct [])) opened_w
          (write_profile salt nonce public_key ct (writing path []) opened_w) =
        (write_profile-Answers healthy path salt nonce public_key ct).at opened_w in
      record {
        value = tt;
        after = on_disk path (profile salt nonce public_key ct []) (counted written.after);
        returned =
            rw (healthy w.calls, written.returned, written.holds_of, healthy written.after.calls);
        holds_of = (written.same_obj, rw eq_refl);
      }

  pub create_profile-Created :
      (path : String) (password : Bytes) (w : World Identity)
      → Reaches (λ _ w'. Created path password w') (create_profile path password w)
  unfolding create_profile pbkdf2_sha256
  create_profile-Created path password w =
      Reaches-bind _ _ _ (gen_ed25519-Reaches healthy w) λ _ w1 (h, keys, _).
        Reaches-then _ _ _ (random-Answers 16) λ salt w2 salt_size o2 _.
          Reaches-then_call healthy _ _ _ _ (
            Reaches-then _ _ _ (random-Answers 12) λ nonce w3 nonce_size o3 _.
              Reaches-then _ _ _ (aes_gcm-Answers _ (laws.length_pbkdf2 _ _ _ _))
                λ crypto w4 c4 o4 _. Reaches-then_gets _ _ _ (
                  Reaches-then _ _ _
                    (encrypt-Answers healthy crypto w4.obj.private_key nonce nonce_size)
                    λ ct w5 sealed_ct o5 _.
                      let same : w4.obj ≡ record {
                        public_key = (p.ed25519_keygen h).0;
                        private_key = (p.ed25519_keygen h).1;
                      } =
                        o4 ∙ o3 ∙ o2 ∙ keys in
                      let ct_is = sealed_ct ∙ (λ i. sealed (c4 i).key nonce (same i).private_key) in
                      Reaches-weaken _
                        (store_profile-Reaches path salt nonce w4.obj.public_key ct w5)
                        λ _ w6 stored. record {
                          handle = h;
                          salt = salt;
                          nonce = nonce;
                          salt_size = salt_size;
                          nonce_size = nonce_size;
                          keys = stored.0 ∙ o5 ∙ same;
                          file =
                              stored.1
                              ∙ (λ i. some (profile salt nonce (same i).public_key (ct_is i) []));
                        }))
