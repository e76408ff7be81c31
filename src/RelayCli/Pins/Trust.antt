-- ===== src/RelayCli/Pins/Trust.antt =====
-- relay_cli.cpp: the pin file as a map in which the first entry for a key stays.
use pqc_messaging_app.Prelude.{
  ◌≡◌, ◌≢◌, ◌⊎◌, refl, ap, sym, ◌∙◌, subst, Bool, true, false, not, ◌&&◌, Option, none, some, List,
  [], ◌∷◌, ◌++◌, Bytes, All, bytes_eq, bytes_eq_iff, is_empty, Bool-cases, suc, inl, inr, ◌↔◌,
  if◌then◌else◌, arith,
}
use pqc_messaging_app.Exec.{ok, World, pure, ◌>>=◌, ◌>>◌}
use pqc_messaging_app.Exec.Reaches.{Reaches, Reaches-bind, Reaches-weaken}
use pqc_messaging_app.Platform.{Platform}
use pqc_messaging_app.Platform.Laws.{Healthy}
use pqc_messaging_app.Platform.Calls.{counted}
use pqc_messaging_app.Files.{open_in, opened_file, on_disk}
use pqc_messaging_app.RelayCli.Pins.{
  words_from, pairs, find_pin, read_pins, or_empty, pins_path, pin_line, load_pin, append_file,
  save_unless, save_pin, check_peer,
}
use pqc_messaging_app.RelayCli.Pins.Words.{IsWord, IsPin, file_of, file_of-append, pairs-file_of}

-- The first pin of a key, and that it has none.
pub data IsFirst (key : Bytes) : List (Bytes × Bytes) → Bytes → Type 0 where
  here : (v : Bytes) (pins : List (Bytes × Bytes)) → IsFirst key ((key, v) ∷ pins) v
  further :
      (k u v : Bytes) (pins : List (Bytes × Bytes))
      → k ≢ key
      → IsFirst key pins v
      → IsFirst key ((k, u) ∷ pins) v

abbrev pub IsNew : Bytes → List (Bytes × Bytes) → Type 0
IsNew key pins = All (λ (pin : Bytes × Bytes). pin.0 ≢ key) pins

-- Trust on first use: whether a peer is trusted, and the pins from then on.
pub data Decides (key fp : Bytes) (pins : List (Bytes × Bytes))
    : Bool → List (Bytes × Bytes) → Type 0 where
  first_seen : IsNew key pins → Decides key fp pins true (pins ++ ((key, fp) ∷ []))
  seen_again : IsFirst key pins fp → Decides key fp pins true pins
  changed : (v : Bytes) → IsFirst key pins v → v ≢ fp → Decides key fp pins false pins

-- The file holds just these pins; where there are none, it need not be there.
abbrev pub Holds : {S : Type 0} → World S → List (Bytes × Bytes) → Type 0
Holds w pins = or_empty (w.disk pins_path) ≡ file_of pins

read_pins-opened :
    (o : Option Bytes) → read_pins (opened_file o) ≡ pairs (words_from [] (or_empty o))
unfolding read_pins words_from pairs
read_pins-opened none = refl
read_pins-opened (some content) = refl

chosen-IsWord :
    (here : Bool) (u v : Bytes) (rest : Option Bytes)
    → (if here then some u else rest) ≡ some v
    → IsWord u
    → (rest ≡ some v → IsWord v)
    → IsWord v
chosen-IsWord true u v rest e hu hr = subst IsWord (ap or_empty e) hu
chosen-IsWord false u v rest e hu hr = hr e

find_pin-IsWord :
    (key : Bytes) (pins : List (Bytes × Bytes)) (v : Bytes)
    → All IsPin pins
    → find_pin key pins ≡ some v
    → IsWord v
unfolding find_pin
find_pin-IsWord key [] v h e = ground (arith, e)
find_pin-IsWord key ((k, u) ∷ pins) v h e =
    chosen-IsWord (bytes_eq k key) u v (find_pin key pins) e h.0.1
      λ e'. find_pin-IsWord key pins v h.1 e'

All-append :
    (pins : List (Bytes × Bytes)) (pin : Bytes × Bytes)
    → All IsPin pins
    → IsPin pin
    → All IsPin (pins ++ (pin ∷ []))
All-append [] pin h hp = (hp, tt)
All-append (_ ∷ pins) pin h hp = (h.0, All-append pins pin h.1 hp)

iff_bytes_eq : (a b : Bytes) (t : Bool) → t ≡ bytes_eq a b → (t ≡ true) ↔ (a ≡ b)
iff_bytes_eq a b t e = (λ h. (bytes_eq_iff a b).0 (sym e ∙ h), λ h. e ∙ (bytes_eq_iff a b).1 h)

pub differ : (a b : Bytes) → bytes_eq a b ≡ false → a ≢ b
differ a b e h = ground (arith, e, (bytes_eq_iff a b).1 h)

pub bytes_eq-differ : (a b : Bytes) → a ≢ b → bytes_eq a b ≡ false
bytes_eq-differ a b h = elim (Bool-cases (bytes_eq a b)) [
  | inl e ↦ absurd (h ((bytes_eq_iff a b).0 e))
  | inr e ↦ e
]

-- The code's search finds the first pin, and nothing only where there is none.
find_pin-IsNew :
    (key : Bytes) (pins : List (Bytes × Bytes)) → IsNew key pins → find_pin key pins ≡ none
unfolding find_pin
find_pin-IsNew key [] h = refl
find_pin-IsNew key ((k, v) ∷ pins) h = rw (bytes_eq-differ k key h.0) (find_pin-IsNew key pins h.1)

pub find_pin-IsFirst :
    (key : Bytes) (pins : List (Bytes × Bytes)) (v : Bytes)
    → IsFirst key pins v
    → find_pin key pins ≡ some v
unfolding find_pin
find_pin-IsFirst key _ _ (here v pins) = rw ((bytes_eq_iff key key).1 refl) refl
find_pin-IsFirst key _ _ (further k u v pins h f) =
    rw (bytes_eq-differ k key h) (find_pin-IsFirst key pins v f)

find_pin-cases :
    (key : Bytes) (pins : List (Bytes × Bytes))
    → IsNew key pins ⊎ ((v : Bytes) × IsFirst key pins v)
find_pin-cases key [] = inl tt
find_pin-cases key ((k, u) ∷ pins) = elim (Bool-cases (bytes_eq k key)) [
  | inl e ↦ inr (
    u,
    subst (λ k'. IsFirst key ((k', u) ∷ pins) u) (sym ((bytes_eq_iff k key).0 e)) (here u pins),
  )
  | inr e ↦ elim (find_pin-cases key pins) [
    | inl new ↦ inl (differ k key e, new)
    | inr (v, f) ↦ inr (v, further k u v pins (differ k key e) f)
  ]
]

-- A new pin is the first of its key.
IsFirst-append :
    (key fp : Bytes) (pins : List (Bytes × Bytes))
    → IsNew key pins
    → IsFirst key (pins ++ ((key, fp) ∷ [])) fp
IsFirst-append key fp [] h = here fp []
IsFirst-append key fp ((k, u) ∷ pins) h = further k u fp _ h.0 (IsFirst-append key fp pins h.1)

Decides-known :
    (key fp v : Bytes) (pins : List (Bytes × Bytes))
    → IsFirst key pins v
    → Decides key fp pins (bytes_eq v fp) pins
Decides-known key fp v pins f = elim (Bool-cases (bytes_eq v fp)) [
  | inl e ↦
      subst (λ b. Decides key fp pins b pins) (sym e)
        (seen_again (subst (IsFirst key pins) ((bytes_eq_iff v fp).0 e) f))
  | inr e ↦ subst (λ b. Decides key fp pins b pins) (sym e) (changed v f (differ v fp e))
]

module _ ⦃p : Platform⦄ {S : Type 0} (healthy : Healthy p) where
  load_pin-Reaches :
      (key : Bytes) (pins : List (Bytes × Bytes)) (w : World S)
      → All IsPin pins
      → Holds w pins
      → load_pin key w ≡ (ok (or_empty (find_pin key pins)), counted w)
  unfolding load_pin open_in ◌>>=◌
  load_pin-Reaches key pins w words holds =
      rw (healthy w.calls, read_pins-opened (w.disk pins_path), holds, pairs-file_of pins words)
        refl

  first_use :
      (key fp : Bytes) (pins : List (Bytes × Bytes)) (w : World S)
      → All IsPin pins
      → Holds w pins
      → find_pin key pins ≡ none
      → check_peer key fp w ≡ (
        ok true,
        on_disk pins_path (file_of pins ++ pin_line key fp) (counted (counted (counted w))),
      )
  unfolding check_peer save_pin save_unless append_file open_in ◌>>=◌
  first_use key fp pins w words holds new = simp (
    new,
    healthy w.calls,
    healthy (suc w.calls),
    healthy (suc (suc w.calls)),
    read_pins-opened (w.disk pins_path),
    holds,
    pairs-file_of pins words,
  )

  checked :
      (key v fp : Bytes) (w : World S)
      → v ≢ []
      → (if not (is_empty v) && not (bytes_eq v fp)
            then pure false
            else ((if is_empty v then save_pin key fp else pure tt) >> pure true))
          w
        ≡ (ok (bytes_eq v fp), w)
  unfolding ◌>>=◌
  checked key [] fp w h = elim (h refl) [ ]
  checked key (c ∷ v) fp w h = elim (Bool-cases (bytes_eq (c ∷ v) fp)) [
    | inl e ↦ rw e refl
    | inr e ↦ rw e refl
  ]

  known :
      (key fp v : Bytes) (pins : List (Bytes × Bytes)) (w : World S)
      → All IsPin pins
      → Holds w pins
      → find_pin key pins ≡ some v
      → check_peer key fp w ≡ (ok (bytes_eq v fp), counted w)
  unfolding check_peer ◌>>=◌
  known key fp v pins w words holds old =
      rw (load_pin-Reaches key pins w words holds, old)
        (checked key v fp (counted w) (find_pin-IsWord key pins v words old).filled)

  -- What `check_peer` makes of a file that holds these pins.
  abbrev pub Trusts : World S → List (Bytes × Bytes) → Bytes → Bytes → Bool → World S → Type 0
  Trusts w pins key fp trusted v =
      (pins' : List (Bytes × Bytes)) × Decides key fp pins trusted pins'
      × Holds v pins'
      × (v.obj ≡ w.obj)

  pub check-new :
      (key fp : Bytes) (pins : List (Bytes × Bytes)) (w : World S)
      → All IsPin pins
      → Holds w pins
      → IsNew key pins
      → Reaches
          (λ trusted v. (trusted ≡ true) × Holds v (pins ++ ((key, fp) ∷ [])) × (v.obj ≡ w.obj))
          (check_peer key fp w)
  check-new key fp pins w words holds new = record {
    value = true;
    after = on_disk pins_path (file_of pins ++ pin_line key fp) (counted (counted (counted w)));
    returned = first_use key fp pins w words holds (find_pin-IsNew key pins new);
    holds_of = (refl, sym (file_of-append pins key fp), refl);
  }

  pub check-known :
      (key fp v : Bytes) (pins : List (Bytes × Bytes)) (w : World S)
      → All IsPin pins
      → Holds w pins
      → IsFirst key pins v
      → Reaches
          (λ trusted v'. (trusted ≡ bytes_eq v fp) × Holds v' pins × (v'.obj ≡ w.obj))
          (check_peer key fp w)
  check-known key fp v pins w words holds f = record {
    value = bytes_eq v fp;
    after = counted w;
    returned = known key fp v pins w words holds (find_pin-IsFirst key pins v f);
    holds_of = (refl, holds, refl);
  }

  -- Where no foreign call is refused and pins.txt holds just some pins whose keys and
  -- fingerprints are words, the check of a peer trusts it where none of the pins has the key,
  -- and adds the new pin behind them; trusts it where the first pin with the key has the same
  -- fingerprint, and changes no pin; and does not trust it where that pin has another one, and
  -- changes no pin. The object is unchanged.
  pub check_peer-trust :
      (key fp : Bytes) (pins : List (Bytes × Bytes)) (w : World S)
      → All IsPin pins
      → Holds w pins
      → Reaches (Trusts w pins key fp) (check_peer key fp w)
  check_peer-trust key fp pins w words holds = elim (find_pin-cases key pins) [
    | inl new ↦ Reaches-weaken _ (check-new key fp pins w words holds new) λ t v (is, held, same). (
      pins ++ ((key, fp) ∷ []),
      subst (λ b. Decides key fp pins b (pins ++ ((key, fp) ∷ []))) (sym is) (first_seen new),
      held,
      same,
    )
    | inr (v, f) ↦
        Reaches-weaken _ (check-known key fp v pins w words holds f) λ t v' (is, held, same). (
          pins,
          subst (λ b. Decides key fp pins b pins) (sym is) (Decides-known key fp v pins f),
          held,
          same,
        )
  ]

  -- Where no foreign call is refused, pins.txt holds just some pins of words, each for another
  -- key, and the key and the fingerprint are words: after a check with that fingerprint a
  -- second check under the key trusts just that fingerprint, and pins.txt holds the old pins
  -- and the new one.
  pub check_peer-check_peer :
      (key fp fp' : Bytes) (pins : List (Bytes × Bytes)) (w : World S)
      → All IsPin pins
      → Holds w pins
      → IsWord key
      → IsWord fp
      → All (λ (pin : Bytes × Bytes). pin.0 ≢ key) pins
      → Reaches
          (λ trusted v. ((trusted ≡ true) ↔ (fp ≡ fp')) × Holds v (pins ++ ((key, fp) ∷ [])))
          ((check_peer key fp >> check_peer key fp') w)
  check_peer-check_peer key fp fp' pins w words holds word_key word_fp new =
      Reaches-bind _ _ w (check-new key fp pins w words holds new) λ _ v (_, held, _).
        Reaches-weaken _
          (check-known key fp' fp (pins ++ ((key, fp) ∷ [])) v
            (All-append pins (key, fp) words (word_key, word_fp)) held
            (IsFirst-append key fp pins new))
          λ t v' (is, held', _). (iff_bytes_eq fp fp' t is, held')
