-- ===== src/Kem/Laws.antt =====
-- What the Kyber wrapper relies on, and what it answers.
use pqc_messaging_app.Prelude.{ℕ, ◌≡◌, refl, not, ◌||◌, some, Bytes, length, ◌==◌, arith, none}
use pqc_messaging_app.Exec.Owns.{Tidy, Owns-raise, Owns-if}
use pqc_messaging_app.Exec.Answers.{Answers, Answers-pure, Answers-if}
use pqc_messaging_app.Platform.{Platform}
use pqc_messaging_app.Platform.Laws.{Healthy}
use pqc_messaging_app.Platform.Calls.{Tidy-call, Answers-call_else, Answers-with_new}
use pqc_messaging_app.Kem.{KyberKem, init, keypair, encapsulate, decapsulate}

-- Kyber-512 as documented: the lengths of its outputs, and decapsulation under the secret key that
-- belongs to the public key gives the secret that encapsulation gave.
pub record KemLaws ⦃p : Platform⦄ : Type 0 where
  pub length_pk : (i : ℕ) → length (p.kem_keypair i).0 ≡ p.length_public_key
  pub length_sk : (i : ℕ) → length (p.kem_keypair i).1 ≡ p.length_secret_key
  pub length_ct : (i : ℕ) (pk : Bytes) → length (p.kem_encaps i pk).0 ≡ p.length_ciphertext
  pub agree :
      (i j : ℕ)
      → p.kem_decaps (p.kem_encaps j (p.kem_keypair i).0).0 (p.kem_keypair i).1
        ≡ (p.kem_encaps j (p.kem_keypair i).0).1

module _ ⦃p : Platform⦄ {S : Type 0} where
  pub keypair-Tidy : (kem : KyberKem) → Tidy {S = S} (keypair kem)
  unfolding keypair
  keypair-Tidy none = Owns-raise _
  keypair-Tidy (some kem) = Tidy-call _ _

  pub encapsulate-Tidy : (kem : KyberKem) (pk : Bytes) → Tidy {S = S} (encapsulate kem pk)
  unfolding encapsulate
  encapsulate-Tidy none pk = Owns-raise _
  encapsulate-Tidy (some kem) pk = Owns-if _ _ _ (Owns-raise _) (Tidy-call _ _)

  pub decapsulate-Tidy : (kem : KyberKem) (ct sk : Bytes) → Tidy {S = S} (decapsulate kem ct sk)
  unfolding decapsulate
  decapsulate-Tidy none ct sk = Owns-raise _
  decapsulate-Tidy (some kem) ct sk = Owns-if _ _ _ (Owns-raise _) (Tidy-call _ _)

  module _ (healthy : Healthy p) where
    pub init-Answers : Answers {S = S} (λ kem. (h : ℕ) × (kem ≡ some h)) init
    unfolding init
    init-Answers = Answers-with_new _ _ healthy refl λ h. Answers-pure _ (h, refl)

    pub keypair-Answers :
        (kem : ℕ)
        → Answers {S = S} (λ keys. (i : ℕ) × (keys ≡ p.kem_keypair i)) (keypair (some kem))
    unfolding keypair
    keypair-Answers kem = Answers-call_else _ _ healthy λ i. (i, refl)

    pub encapsulate-Answers :
        (kem : ℕ) (pk : Bytes)
        → length pk ≡ p.length_public_key
        → Answers {S = S} (λ out. (j : ℕ) × (out ≡ p.kem_encaps j pk)) (encapsulate (some kem) pk)
    unfolding encapsulate
    encapsulate-Answers kem pk size =
        Answers-if (not (length pk == p.length_public_key)) _ _ (λ e. absurd (ground arith))
          λ _. Answers-call_else _ _ healthy λ j. (j, refl)

    pub decapsulate-Answers :
        (kem : ℕ) (ct sk : Bytes)
        → length ct ≡ p.length_ciphertext
        → length sk ≡ p.length_secret_key
        → Answers {S = S} (λ ss. ss ≡ p.kem_decaps ct sk) (decapsulate (some kem) ct sk)
    unfolding decapsulate
    decapsulate-Answers kem ct sk ct_size sk_size =
        Answers-if
          (not (length ct == p.length_ciphertext) || not (length sk == p.length_secret_key)) _ _
          (λ e. absurd (ground arith)) λ _. Answers-call_else _ _ healthy λ _. refl
