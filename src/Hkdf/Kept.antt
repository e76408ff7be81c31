-- ===== src/Hkdf/Kept.antt =====
-- hkdf.cpp under an invariant of the object, foreign calls refused at will.
use pqc_messaging_app.Prelude.{ℕ, ◌≡◌, refl, true, Bytes, length, ◌==◌, ==_iff}
use pqc_messaging_app.Exec.Runs.{Keeps, Keeps-pure, Runs-raise, Runs-if, Runs-bind}
use pqc_messaging_app.Platform.{Platform}
use pqc_messaging_app.Platform.Calls.{free}
use pqc_messaging_app.Platform.Kept.{Keeps-free, Runs-then_free, Runs-then_call_else, Runs-with_new}
use pqc_messaging_app.Hkdf.{check_derived, hkdf_sha256, hkdf_salt, hkdf_info}
use pqc_messaging_app.Hkdf.Release.{session_key}

module _ ⦃p : Platform⦄ {S : Type 0} {I : S → Type 0} where
  Keeps-check_derived :
      (h out_len : ℕ) (out : Bytes)
      → Keeps I (λ key. (key ≡ out) × (length key ≡ out_len)) (check_derived (free h) out_len out)
  unfolding check_derived
  Keeps-check_derived h out_len out =
      Runs-if (length out == out_len) _ _ (λ e. Keeps-pure out (refl, (==_iff _ _).0 e))
        λ _. Runs-then_free h _ (Runs-raise _)

  -- A key that `hkdf_sha256` returns is the derived one and has the length asked for.
  pub Keeps-hkdf_sha256 :
      (ss : Bytes)
      → Keeps I
          (λ key. (key ≡ session_key ss) × (length key ≡ 32))
          (hkdf_sha256 ss hkdf_salt hkdf_info 32)
  unfolding hkdf_sha256
  Keeps-hkdf_sha256 ss = Runs-with_new true _ _ (Runs-raise _) λ _ h.
      Runs-then_call_else (free h) _ _ _ (Keeps-free h) λ _.
        Runs-then_call_else (free h) _ _ _ (Keeps-free h) λ _.
          Runs-then_call_else (free h) _ _ _ (Keeps-free h) λ _.
            Runs-then_call_else (free h) _ _ _ (Keeps-free h) λ _.
              Runs-then_call_else (free h) _ _ _ (Keeps-free h) λ _.
                Runs-then_call_else (free h) _ _ _ (Keeps-free h) λ _.
                  Runs-bind _ _ _ (Keeps-check_derived h 32 _)
                    λ out same. Runs-then_free h _ (Keeps-pure out same)
