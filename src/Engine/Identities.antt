-- ===== src/Engine/Identities.antt =====
-- connection_engine.cpp: `loadOrCreateIdentity`, the first time and after it.
use pqc_messaging_app.Prelude.{
  ◌≡◌, refl, ap, ◌∙◌, String, Bool, true, false, none, [], ◌∷◌, Bytes, length, arith,
}
use pqc_messaging_app.Exec.{World, zoom, ◌>>=◌}
use pqc_messaging_app.Exec.Reaches.{Reaches, Reaches-weaken, Reaches-try_catch, at}
use pqc_messaging_app.Platform.{Platform}
use pqc_messaging_app.Platform.Laws.{Healthy}
use pqc_messaging_app.Files.{exists, is_some}
use pqc_messaging_app.Identity.{Identity, is_loaded, create_profile, load_profile, fingerprint_hex}
use pqc_messaging_app.Identity.Writing.{IdentityLaws, Created, create_profile-Created}
use pqc_messaging_app.Identity.RoundTrip.{load_profile-Reaches}
use pqc_messaging_app.Engine.{
  ConnectionEngine, Outcome, success, failure, on_identity, load_or_create_identity,
}

-- The world of the engine's identity.
abbrev pub identity_of : World ConnectionEngine → World Identity
identity_of v = at v.machine v.obj.identity

module _ ⦃p : Platform⦄ (healthy : Healthy p) (laws : IdentityLaws) where
  abbrev pub IsNew : String → Bytes → Outcome (Bytes × Bool) → World ConnectionEngine → Type 0
  IsNew path password o v =
      (o ≡ success (fingerprint_hex v.obj.identity.public_key, true))
      × Created path password (identity_of v)

  pub first_run :
      (path : String) (password : Bytes) (w : World ConnectionEngine)
      → w.disk path ≡ none
      → Reaches (IsNew path password) (load_or_create_identity path password w)
  unfolding load_or_create_identity on_identity exists zoom ◌>>=◌
  first_run path password w fresh = Reaches-try_catch _ failure w (
      let inner : Reaches (λ _ v. Created path password v)
          (create_profile path password (identity_of w)) =
        create_profile-Created healthy laws path password (identity_of w) in
      record {
        value = success (fingerprint_hex inner.after.obj.public_key, true);
        after = at inner.after.machine (record w.obj { identity = inner.after.obj });
        returned = rw (fresh, inner.returned) refl;
        holds_of = (refl, inner.holds_of);
      })

  abbrev pub IsLoaded : Identity → Outcome (Bytes × Bool) → World ConnectionEngine → Type 0
  IsLoaded identity o v =
      (o ≡ success (fingerprint_hex identity.public_key, false)) × (v.obj.identity ≡ identity)

  pub later_run :
      (path : String) (password : Bytes) (created : World Identity) (w : World ConnectionEngine)
      → Created path password created
      → w.disk path ≡ created.disk path
      → Reaches (IsLoaded created.obj) (load_or_create_identity path password w)
  unfolding load_or_create_identity on_identity exists zoom ◌>>=◌
  later_run path password created w c same = Reaches-try_catch _ failure w (
      let inner : Reaches (λ _ v. (v.obj ≡ created.obj) × (v.disk ≡ w.disk))
          (load_profile path password (identity_of w)) =
        load_profile-Reaches healthy laws path password created (identity_of w) c same in
      record {
        value = success (fingerprint_hex inner.after.obj.public_key, false);
        after = at inner.after.machine (record w.obj { identity = inner.after.obj });
        returned = rw (ap is_some (same ∙ c.file), inner.returned) refl;
        holds_of = (
          ap (λ (i : Identity). success (fingerprint_hex i.public_key, false)) inner.holds_of.0,
          inner.holds_of.0,
        );
      })

  -- Where no foreign call is refused, `IdentityLaws` hold and there is no file at the path,
  -- `loadOrCreateIdentity` returns with an identity created and its fingerprint, and called
  -- again with the same password, on any engine, it returns that identity, loaded, with the
  -- same fingerprint.
  pub load_or_create-load_or_create :
      (path : String) (password : Bytes) (w : World ConnectionEngine) (other : ConnectionEngine)
      → w.disk path ≡ none
      → Reaches
          (λ o v.
            (o ≡ success (fingerprint_hex v.obj.identity.public_key, true))
            × Reaches
                (IsLoaded v.obj.identity)
                (load_or_create_identity path password (at v.machine other)))
          (load_or_create_identity path password w)
  load_or_create-load_or_create path password w other fresh =
      Reaches-weaken _ (first_run path password w fresh)
        λ o v (is, c). (is, later_run path password (identity_of v) (at v.machine other) c refl)

  -- A key pair of 32 and 32 bytes is loaded.
  pub Created-is_loaded :
      (path : String) (password : Bytes) (v : World Identity)
      → Created path password v
      → is_loaded v.obj ≡ true
  unfolding is_loaded
  Created-is_loaded path password v c =
      ap is_loaded c.keys ∙ filled _ _ (laws.length_public c.handle) (laws.length_private c.handle)
    where
      filled :
          (pk sk : Bytes)
          → length pk ≡ 32
          → length sk ≡ 32
          → is_loaded (record { public_key = pk; private_key = sk }) ≡ true
      filled [] sk hp hs = ground (arith, hp)
      filled (b ∷ pk) [] hp hs = ground (arith, hs)
      filled (b ∷ pk) (c ∷ sk) hp hs = refl
