-- ===== src/Identity/Fingerprint.antt =====
-- identity.cpp: fingerprints tell digests apart.
use pqc_messaging_app.Prelude.{ℕ, ◌*◌, ◌/◌, ◌%◌, ◌<◌, ◌≡◌, refl, [], ◌∷◌, Bytes, All, length, arith}
use pqc_messaging_app.Platform.{Platform}
use pqc_messaging_app.Identity.{hex_digit, hex, fingerprint_hex}

abbrev pub IsByte : ℕ → Type 0
IsByte b = b < 256

hex_digit-injective : (a b : ℕ) → a < 16 → b < 16 → hex_digit a ≡ hex_digit b → a ≡ b
unfolding hex_digit
hex_digit-injective a b ha hb e = ground arith

pub length-hex : (bs : Bytes) → length (hex bs) ≡ length bs * 2
unfolding hex
length-hex [] = refl
length-hex (b ∷ bs) = omega (arith, length-hex bs)

head_eq : {x y : ℕ} {xs ys : Bytes} → x ∷ xs ≡ y ∷ ys → x ≡ y
head_eq e = cc

tail_eq : {x y : ℕ} {xs ys : Bytes} → x ∷ xs ≡ y ∷ ys → xs ≡ ys
tail_eq e = cc

pub hex-injective : (xs ys : Bytes) → All IsByte xs → All IsByte ys → hex xs ≡ hex ys → xs ≡ ys
unfolding hex
hex-injective [] [] bx by e = refl
hex-injective [] (y ∷ ys) bx by e = cc
hex-injective (x ∷ xs) [] bx by e = cc
hex-injective (x ∷ xs) (y ∷ ys) bx by e =
    let high = hex_digit-injective (x / 16) (y / 16) (omega arith) (omega arith) (head_eq e) in
    let low =
      hex_digit-injective (x % 16) (y % 16) (omega arith) (omega arith) (head_eq (tail_eq e)) in
    let rest = hex-injective xs ys bx.1 by.1 (tail_eq (tail_eq e)) in
    let same : x ≡ y = omega arith in λ i. same i ∷ rest i

-- Two public keys whose SHA-256 digests consist of bytes have one fingerprint only if they have
-- one digest.
pub fingerprint_hex-injective :
    ⦃p : Platform⦄ (a b : Bytes)
    → All IsByte (p.sha256 a)
    → All IsByte (p.sha256 b)
    → fingerprint_hex a ≡ fingerprint_hex b
    → p.sha256 a ≡ p.sha256 b
unfolding fingerprint_hex
fingerprint_hex-injective ⦃p⦄ a b ba bb e = hex-injective (p.sha256 a) (p.sha256 b) ba bb e
