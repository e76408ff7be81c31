-- ===== src/Hkdf.antt =====
-- hkdf.cpp and the constants of protocol.h.
pub mod Release
pub mod Kept
use pqc_messaging_app.Prelude.{
  ℕ, String, Bool, true, not, List, [], ◌∷◌, Bytes, length, is_empty, ◌==◌, if◌then◌else◌,
}
use pqc_messaging_app.Exec.{M, pure, raise, ◌>>=◌, ◌>>◌}
use pqc_messaging_app.Platform.{Platform}
use pqc_messaging_app.Platform.Calls.{with_new, call_or, free}

-- "E2EE-v1"
abbrev pub hkdf_salt : Bytes
hkdf_salt = b'E' ∷ b'2' ∷ b'E' ∷ b'E' ∷ b'-' ∷ b'v' ∷ b'1' ∷ []

-- "AES-256-GCM"
abbrev pub hkdf_info : Bytes
hkdf_info = b'A' ∷ b'E' ∷ b'S' ∷ b'-' ∷ b'2' ∷ b'5' ∷ b'6' ∷ b'-' ∷ b'G' ∷ b'C' ∷ b'M' ∷ []

module _ ⦃p : Platform⦄ {S : Type 0} where
  -- `len != out_len` after the call frees and throws like a refusal.
  pub check_derived : M S Unit → ℕ → Bytes → M S Bytes
  check_derived cleanup out_len out =
      if length out == out_len then pure out else (cleanup >> raise "HKDF: derive failed")

  pub hkdf_sha256 : Bytes → Bytes → Bytes → ℕ → M S Bytes
  unfolding check_derived
  hkdf_sha256 ikm salt info out_len = with_new true (raise "HKDF: ctx new failed") λ pctx. do
    c0 ← call_or (free pctx) "HKDF: derive_init failed" (λ _. p.hkdf_ctx)
    c1 ← call_or (free pctx) "HKDF: set md failed" (λ _. p.set_hkdf_md c0)
    c2 ←
        if is_empty salt
        then pure c1
        else call_or (free pctx) "HKDF: set salt failed" (λ _. p.set_hkdf_salt salt c1)
    c3 ← call_or (free pctx) "HKDF: set key failed" (λ _. p.set_hkdf_key ikm c2)
    c4 ←
        if is_empty info
        then pure c3
        else call_or (free pctx) "HKDF: set info failed" (λ _. p.add_hkdf_info info c3)
    derived ← call_or (free pctx) "HKDF: derive failed" (λ _. p.derive out_len c4)
    out ← check_derived (free pctx) out_len derived
    free pctx
    pure out
