-- ===== src/Relay/Url/Decoding.antt =====
-- relay_server.cpp: what `url_decode` reads out of percent-encoded bytes.
use pqc_messaging_app.Prelude.{
  ==_iff, ◌⊎◌, ℕ, ◌+◌, ◌*◌, ◌/◌, ◌%◌, ◌<◌, ◌≡◌, ◌≢◌, refl, ap, ◌∙◌, Bool, true, false, ◌||◌, some,
  [], ◌∷◌, Bytes, All, leb, ◌==◌, if◌then◌else◌, arith, Bool-cases, inl, inr,
}
use pqc_messaging_app.Relay.Url.{hex_value, is_space, digits, hex_pair, plain, url_decode}

-- A hexadecimal digit, in upper case.
abbrev pub hex_digit : ℕ → ℕ
hex_digit d = if leb d 9 then d + 48 else d + 55

-- The same in lower case.
abbrev pub lower_digit : ℕ → ℕ
lower_digit d = if leb d 9 then d + 48 else d + 87

-- Percent-encoding of every byte but those that `keep` keeps.
abbrev pub encode : (ℕ → Bool) → Bytes → Bytes
encode keep [] = []
encode keep (c ∷ s) =
    if keep c
    then c ∷ encode keep s
    else 37 ∷ hex_digit (c / 16) ∷ hex_digit (c % 16) ∷ encode keep s

abbrev pub IsByte : ℕ → Type 0
IsByte c = c < 256

hex_value-hex_digit : (d : ℕ) → d < 16 → hex_value (hex_digit d) ≡ some d
unfolding hex_value
hex_value-hex_digit d h = ground arith

-- A digit is no white space and no sign.
starts_number :
    (d : ℕ)
    → d < 16
    → (is_space (hex_digit d) || hex_digit d == 43 ≡ false) × ((hex_digit d == 45) ≡ false)
unfolding is_space
starts_number d h = ground arith

hex_pair-hex_digit : (a b : ℕ) → a < 16 → b < 16 → hex_pair (hex_digit a) (hex_digit b) ≡ a * 16 + b
unfolding hex_pair digits
hex_pair-hex_digit a b ha hb =
    rw
      (
        (starts_number a ha).0,
        (starts_number a ha).1,
        hex_value-hex_digit a ha,
        hex_value-hex_digit b hb,
      )
      refl

url_decode-plain :
    (c : ℕ) (s : Bytes) → (c == 37) ≡ false → url_decode (c ∷ s) ≡ plain c ∷ url_decode s
unfolding url_decode
url_decode-plain c [] e = refl
url_decode-plain c (a ∷ []) e = refl
url_decode-plain c (a ∷ b ∷ s) e = rw (url_decode, e) refl

-- A hexadecimal digit of either case.
abbrev pub IsHex : ℕ → ℕ → Type 0
IsHex d x = (d < 16) × ((x ≡ hex_digit d) ⊎ (x ≡ lower_digit d))

-- Every way to write bytes for a URL: a byte as it is, a blank as '+', or '%' and two digits.
pub data Encodes : Bytes → Bytes → Type 0 where
  ended : Encodes [] []
  verbatim : (c : ℕ) (s t : Bytes) → c ≢ 37 → c ≢ 43 → Encodes s t → Encodes (c ∷ s) (c ∷ t)
  blank : (s t : Bytes) → Encodes s t → Encodes (32 ∷ s) (43 ∷ t)
  escaped :
      (a b x y : ℕ) (s t : Bytes)
      → IsHex a x
      → IsHex b y
      → Encodes s t
      → Encodes ((a * 16 + b) ∷ s) (37 ∷ x ∷ y ∷ t)

hex_value-IsHex : (d x : ℕ) → IsHex d x → hex_value x ≡ some d
unfolding hex_value
hex_value-IsHex d x (h, inl e) = ap hex_value e ∙ hex_value-hex_digit d h
hex_value-IsHex d x (h, inr e) = ground (arith, e, h)

starts-IsHex : (d x : ℕ) → IsHex d x → (is_space x || x == 43 ≡ false) × ((x == 45) ≡ false)
unfolding is_space
starts-IsHex d x (h, inl e) = ground (arith, e, h)
starts-IsHex d x (h, inr e) = ground (arith, e, h)

hex_pair-IsHex : (a b x y : ℕ) → IsHex a x → IsHex b y → hex_pair x y ≡ a * 16 + b
unfolding hex_pair digits
hex_pair-IsHex a b x y ha hb =
    rw
      (
        (starts-IsHex a x ha).0,
        (starts-IsHex a x ha).1,
        hex_value-IsHex a x ha,
        hex_value-IsHex b y hb,
      )
      refl

-- `url_decode` reads back the bytes of every text that writes each of them either as it is,
-- where it is neither '%' nor '+', or as '+', where it is a blank, or as '%' and two hexadecimal
-- digits, each in upper or lower case.
pub url_decode-Encodes : (s t : Bytes) → Encodes s t → url_decode t ≡ s
unfolding url_decode plain
url_decode-Encodes _ _ ended = refl
url_decode-Encodes _ _ (verbatim c s t no_percent no_plus e) =
    url_decode-plain c t (apart 37 no_percent)
    ∙ ap (λ d. plain c ∷ d) (url_decode-Encodes s t e)
    ∙ ap (λ d. d ∷ s) (plain-kept (apart 43 no_plus))
  where
    apart : (d : ℕ) → c ≢ d → (c == d) ≡ false
    apart d h = elim (Bool-cases (c == d)) [ inl e ↦ absurd (h ((==_iff c d).0 e)) | inr e ↦ e ]

    plain-kept : (c == 43) ≡ false → plain c ≡ c
    plain-kept e = rw e refl
url_decode-Encodes _ _ (blank s t e) =
    url_decode-plain 43 t refl ∙ ap (λ d. 32 ∷ d) (url_decode-Encodes s t e)
url_decode-Encodes _ _ (escaped a b x y s t ha hb e) =
    rw (hex_pair-IsHex a b x y ha hb, url_decode-Encodes s t e) refl

pub url_decode-encode :
    (keep : ℕ → Bool) (s : Bytes)
    → keep 37 ≡ false
    → keep 43 ≡ false
    → All IsByte s
    → url_decode (encode keep s) ≡ s
unfolding url_decode plain
url_decode-encode keep [] no_percent no_plus bytes = refl
url_decode-encode keep (c ∷ s) no_percent no_plus bytes = elim (Bool-cases (keep c)) [
  | inl e ↦
      rw
        (
          e,
          url_decode-plain c (encode keep s) (other 37 no_percent e),
          url_decode-encode keep s no_percent no_plus bytes.1,
        )
        (ap (λ d. d ∷ s) (plain-kept c (other 43 no_plus e)))
  | inr e ↦ rw (e, byte, url_decode-encode keep s no_percent no_plus bytes.1) refl
]
  where
    same : (d : ℕ) → (c == d) ≡ true → c ≡ d
    same d e = ground arith

    clash : (d : ℕ) → keep d ≡ false → keep c ≡ true → c ≢ d
    clash d refused kept e = cc

    other : (d : ℕ) → keep d ≡ false → keep c ≡ true → (c == d) ≡ false
    other d refused kept = elim (Bool-cases (c == d)) [
      | inl e ↦ absurd (clash d refused kept (same d e))
      | inr e ↦ e
    ]

    plain-kept : (c : ℕ) → (c == 43) ≡ false → plain c ≡ c
    plain-kept c e = rw e refl

    byte : hex_pair (hex_digit (c / 16)) (hex_digit (c % 16)) ≡ c
    byte = hex_pair-hex_digit (c / 16) (c % 16) (omega (arith, bytes.0)) (omega arith) ∙ omega arith
