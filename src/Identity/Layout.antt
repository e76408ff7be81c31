-- ===== src/Identity/Layout.antt =====
-- identity.cpp: `load_profile` takes a file only if it has the layout that identity.h states, whole.
use pqc_messaging_app.Prelude.{
  ℕ, ◌-◌, ◌≤◌, ◌≡◌, refl, ap, ◌∙◌, sym, String, Bool, true, false, not, ◌||◌, Option, none, some,
  ◌++◌, Bytes, length, take, replicate, length-append, length-take, length-replicate, bytes_eq,
  bytes_eq_iff, ltb, ◌==◌, if◌then◌else◌, arith,
}
use pqc_messaging_app.Exec.{err, hang, Result, ok, World, continue, ◌>>=◌}
use pqc_messaging_app.Exec.Answers.{
  Post, Ensures, Ensures-pure, Ensures-raise, Ensures-bind, Ensures-gets, Ensures-all,
}
use pqc_messaging_app.Platform.{Platform}
use pqc_messaging_app.Platform.Calls.{counted}
use pqc_messaging_app.Words.{ntohl}
use pqc_messaging_app.Files.{read, read_block, read_word, open_in, opened_file}
use pqc_messaging_app.Files.Reading.{stream, read-good, read_block-good, read_word-good}
use pqc_messaging_app.Identity.{
  Identity, magic, resize, throw_if, or_throw, stack_bytes, load_fields, load_profile,
}

-- A file with every field of identity.h in its place and of the length that it announces, and
-- anything behind them.
pub record Layout (content : Bytes) : Type 0 where
  pub version : Bytes
  pub iters : Bytes
  pub salt_length : Bytes
  pub salt : Bytes
  pub nonce_length : Bytes
  pub nonce : Bytes
  pub pub_length : Bytes
  pub public_key : Bytes
  pub ct_length : Bytes
  pub ct : Bytes
  pub behind : Bytes
  pub whole :
      content
      ≡ magic
        ++ (version
            ++ (iters
                ++ (salt_length
                    ++ (salt
                        ++ (nonce_length
                            ++ (nonce
                                ++ (pub_length
                                    ++ (public_key ++ (ct_length ++ (ct ++ behind))))))))))
  pub words :
      (length version ≡ 4)
      × (length iters ≡ 4)
      × (length salt_length ≡ 4)
      × (length nonce_length ≡ 4)
      × (length pub_length ≡ 4)
      × (length ct_length ≡ 4)
  pub version_one : ntohl version ≡ 1
  pub salt_size : (ntohl salt_length ≡ length salt) × (1 ≤ length salt) × (length salt ≤ 1024)
  pub nonce_size : (ntohl nonce_length ≡ length nonce) × (length nonce ≡ 12)
  pub pub_size : (ntohl pub_length ≡ length public_key) × (length public_key ≡ 32)
  pub ct_size : (ntohl ct_length ≡ length ct) × (16 ≤ length ct) × (length ct ≤ 4096)

pub length-resize : (n : ℕ) (v : Bytes) → length (resize n v) ≡ n
unfolding resize
length-resize n v = omega (
  arith,
  length-append (take n v) (replicate (n - length v) 0),
  length-take n v,
  length-replicate {A = ℕ} (n - length v) 0,
)

Ensures-throw_if :
    {S : Type 0} (test : Bool) (e : String) → Ensures {S = S} (λ _. test ≡ false) (throw_if test e)
unfolding throw_if
Ensures-throw_if true e = Ensures-raise e
Ensures-throw_if false e = Ensures-pure tt refl

-- What the tests on announced lengths let through.
within : (low high n k : ℕ) → ltb n low || ltb high n ≡ false → k ≡ n → (low ≤ k) × (k ≤ high)
within low high n k t e = ground arith

positive : (high n k : ℕ) → n == 0 || ltb high n ≡ false → k ≡ n → (1 ≤ k) × (k ≤ high)
positive high n k t e = ground arith

exact : (n k m : ℕ) → not (n == m) ≡ false → k ≡ n → k ≡ m
exact n k m t e = ground arith

not-eq-false : (b : Bool) → not b ≡ false → b ≡ true
not-eq-false b h = ground arith

module _ ⦃p : Platform⦄ where
  -- The tests that `load_fields` makes, passed, and the good stream at its end give the layout.
  Layout-of :
      (content out : Bytes)
      → let r1 = read 8 stack_bytes (stream content) in
        let r2 = read_word r1.1 in
        let r3 = read_word r2.1 in
        let r4 = read_word r3.1 in
        let r5 = read_block r4.0 r4.1 in
        let r6 = read_word r5.1 in
        let r7 = read_block r6.0 r6.1 in
        let r8 = read_word r7.1 in
        let r9 = read r8.0 out r8.1 in
        let r10 = read_word r9.1 in
        let r11 = read_block r10.0 r10.1 in
        not (bytes_eq r1.0 magic) ≡ false
        → not (r2.0 == 1) ≡ false
        → r4.0 == 0 || ltb 1024 r4.0 ≡ false
        → not (r6.0 == 12) ≡ false
        → not (r8.0 == 32) ≡ false
        → length out ≡ r8.0
        → ltb r10.0 16 || ltb 4096 r10.0 ≡ false
        → not r11.1.good ≡ false
        → Layout content
  Layout-of content out t1 t2 t4 t6 t8 size t10 good =
      let r1 = read 8 stack_bytes (stream content) in
      let r2 = read_word r1.1 in
      let r3 = read_word r2.1 in
      let r4 = read_word r3.1 in
      let r5 = read_block r4.0 r4.1 in
      let r6 = read_word r5.1 in
      let r7 = read_block r6.0 r6.1 in
      let r8 = read_word r7.1 in
      let r9 = read r8.0 out r8.1 in
      let r10 = read_word r9.1 in
      let r11 = read_block r10.0 r10.1 in
      let g11 = read_block-good r10.0 r10.1 (not-eq-false _ good) in
      let g10 = read_word-good r9.1 g11.0 in
      let g9 = read-good r8.0 out r8.1 size g10.1 in
      let g8 = read_word-good r7.1 g9.0 in
      let g7 = read_block-good r6.0 r6.1 g8.1 in
      let g6 = read_word-good r5.1 g7.0 in
      let g5 = read_block-good r4.0 r4.1 g6.1 in
      let g4 = read_word-good r3.1 g5.0 in
      let g3 = read_word-good r2.1 g4.1 in
      let g2 = read_word-good r1.1 g3.1 in
      let g1 = read-good 8 stack_bytes (stream content) refl g2.1 in
      let salt_ok = positive 1024 r4.0 (length r5.0) t4 g5.1 in
      let ct_ok = within 16 4096 r10.0 (length r11.0) t10 g11.1 in
      let is_magic = (bytes_eq_iff r1.0 magic).0 (not-eq-false _ t1) in
      record {
        version = g2.0;
        iters = g3.0;
        salt_length = g4.0;
        salt = r5.0;
        nonce_length = g6.0;
        nonce = r7.0;
        pub_length = g8.0;
        public_key = r9.0;
        ct_length = g10.0;
        ct = r11.0;
        behind = r11.1.rest;
        whole =
            g1.2
            ∙ ap (λ (t : Bytes). t ++ r1.1.rest) is_magic
            ∙ ap (◌++◌ magic) (
                g2.4
                ∙ ap (◌++◌ g2.0) (
                    g3.4
                    ∙ ap (◌++◌ g3.0) (
                        g4.4
                        ∙ ap (◌++◌ g4.0) (
                            g5.2
                            ∙ ap (◌++◌ r5.0) (
                                g6.4
                                ∙ ap (◌++◌ g6.0) (
                                    g7.2
                                    ∙ ap (◌++◌ r7.0) (
                                        g8.4
                                        ∙ ap (◌++◌ g8.0) (
                                            g9.2
                                            ∙ ap (◌++◌ r9.0)
                                                (g10.4 ∙ ap (◌++◌ g10.0) g11.2)))))))));
        words = (g2.2, g3.2, g4.2, g6.2, g8.2, g10.2);
        version_one = g2.3 ∙ exact r2.0 r2.0 1 t2 refl;
        salt_size = (g4.3 ∙ sym g5.1, salt_ok.0, salt_ok.1);
        nonce_size = (g6.3 ∙ sym g7.1, exact r6.0 (length r7.0) 12 t6 g7.1);
        pub_size = (g8.3 ∙ sym g9.1, exact r8.0 (length r9.0) 32 t8 g9.1);
        ct_size = (g10.3 ∙ sym g11.1, ct_ok.0, ct_ok.1);
      }

  load_fields-Ensures :
      (password content : Bytes)
      → Ensures (λ _. Layout content) (load_fields password (stream content))
  unfolding load_fields
  load_fields-Ensures password content = Ensures-bind _ _ _ (Ensures-throw_if _ _) λ _ t1.
      Ensures-bind _ _ _ (Ensures-throw_if _ _) λ _ t2.
        Ensures-bind _ _ _ (Ensures-throw_if _ _) λ _ t4.
          Ensures-bind _ _ _ (Ensures-throw_if _ _) λ _ t6.
            Ensures-bind _ _ _ (Ensures-throw_if _ _) λ _ t8.
              Ensures-bind _ _ _ (Ensures-gets _ λ (i : Identity). length-resize _ i.public_key)
                λ out size.
                  Ensures-bind (λ _. Unit) _ _ (Ensures-all (λ _. tt) _)
                    λ _ _. Ensures-bind _ _ _ (Ensures-throw_if _ _) λ _ t10.
                      Ensures-bind _ _ _ (Ensures-throw_if _ _) λ _ good.
                        Ensures-all (λ _. Layout-of content out t1 t2 t4 t6 t8 size t10 good) _

  -- What a run of `load_profile` that returns says of the file that it found.
  abbrev pub Read : Option Bytes → Result {0} Unit × World Identity → Type 0
  Read found (ok u, w) = (content : Bytes) × (found ≡ some content) × Layout content
  Read found (err e, w) = Unit
  Read found (hang, w) = Unit

  ensured-Read :
      (content : Bytes) (r : Result {0} Unit × World Identity)
      → Post (λ _. Layout content) r
      → Read (some content) r
  ensured-Read content (ok u, w) layout = (content, refl, layout)
  ensured-Read content (err e, w) layout = tt
  ensured-Read content (hang, w) layout = tt

  loaded-Read :
      (refused : Bool) (found : Option Bytes) (password : Bytes) (w : World Identity)
      → Read found (
          continue (if refused then (ok none, w) else (ok (opened_file found), w)) (λ opened. do
            f ← or_throw opened "open profile for read failed"
            load_fields password f))
  unfolding or_throw ◌>>=◌
  loaded-Read true found password w = tt
  loaded-Read false none password w = tt
  loaded-Read false (some content) password w =
      ensured-Read content (load_fields password (stream content) w)
        ((load_fields-Ensures password content).at w)

  -- Whichever foreign calls are refused, where `load_profile` returns, the file was there and
  -- has the layout of identity.h: the magic and version 1, a salt of 1 to 1024 bytes, a nonce
  -- of 12, a public key of 32 and a ciphertext of 16 to 4096, each as long as the word before
  -- it says, and anything behind.
  pub load_profile-Layout :
      (path : String) (password : Bytes) (w : World Identity)
      → Read (w.disk path) (load_profile path password w)
  unfolding load_profile open_in ◌>>=◌
  load_profile-Layout path password w =
      loaded-Read (p.fails w.calls) (w.disk path) password (counted w)
