-- ===== src/Kem/Kept.antt =====
-- kem_kyber.cpp under an invariant of the object, foreign calls refused at will.
use pqc_messaging_app.Prelude.{ℕ, ◌≡◌, refl, none, some, true, not, ◌||◌, Bytes, length, ◌==◌}
use pqc_messaging_app.Exec.Runs.{Keeps, Keeps-pure, Runs-raise, Runs-if}
use pqc_messaging_app.Exec.Answers.{Answers, Answers-pure}
use pqc_messaging_app.Platform.{Platform}
use pqc_messaging_app.Platform.Calls.{Answers-free}
use pqc_messaging_app.Platform.Kept.{Keeps-call, Runs-with_new}
use pqc_messaging_app.Kem.{KyberKem, destructor, init, keypair, encapsulate, decapsulate}

pub Answers-destructor :
    {S : Type 0} (kem : KyberKem) → Answers {S = S} (λ _. Unit {0}) (destructor kem)
unfolding destructor
Answers-destructor none = Answers-pure tt tt
Answers-destructor (some kem) = Answers-free kem

module _ ⦃p : Platform⦄ {S : Type 0} {I : S → Type 0} where
  pub Keeps-init : Keeps I (λ _. Unit {0}) init
  unfolding init
  Keeps-init = Runs-with_new true _ _ (Runs-raise _) λ _ kem. Keeps-pure _ tt

  pub Keeps-keypair :
      (kem : KyberKem) → Keeps I (λ out. (i : ℕ) × (out ≡ p.kem_keypair i)) (keypair kem)
  unfolding keypair
  Keeps-keypair none = Runs-raise _
  Keeps-keypair (some kem) = Keeps-call _ _ λ i. (i, refl)

  pub Keeps-encapsulate :
      (kem : KyberKem) (pk : Bytes)
      → Keeps I (λ out. (i : ℕ) × (out ≡ p.kem_encaps i pk)) (encapsulate kem pk)
  unfolding encapsulate
  Keeps-encapsulate none pk = Runs-raise _
  Keeps-encapsulate (some kem) pk =
      Runs-if (not (length pk == p.length_public_key)) _ _ (λ _. Runs-raise _)
        λ _. Keeps-call _ _ λ i. (i, refl)

  pub Keeps-decapsulate :
      (kem : KyberKem) (ct sk : Bytes)
      → Keeps I (λ ss. ss ≡ p.kem_decaps ct sk) (decapsulate kem ct sk)
  unfolding decapsulate
  Keeps-decapsulate none ct sk = Runs-raise _
  Keeps-decapsulate (some kem) ct sk =
      Runs-if (not (length ct == p.length_ciphertext) || not (length sk == p.length_secret_key)) _ _
        (λ _. Runs-raise _) λ _. Keeps-call _ _ λ _. refl
