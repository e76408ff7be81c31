-- ===== src/RelayCli/Pins/Words.antt =====
-- relay_cli.cpp: what is read of a pin file that the program wrote.
use pqc_messaging_app.Prelude.{
  ℕ, ◌≡◌, ◌≢◌, refl, ap, sym, ◌∙◌, true, false, List, [], ◌∷◌, ◌++◌, append-nil, append_assoc,
  Bytes, All,
}
use pqc_messaging_app.Relay.Url.{is_space}
use pqc_messaging_app.RelayCli.Pins.{words_from, end_word, pairs, pin_line}

-- What `>>` reads as one word.
pub record IsWord (w : Bytes) : Type 0 where
  pub filled : w ≢ []
  pub unspaced : All (λ c. is_space c ≡ false) w

abbrev pub IsPin : Bytes × Bytes → Type 0
IsPin (k, v) = IsWord k × IsWord v

abbrev pub file_of : List (Bytes × Bytes) → Bytes
file_of [] = []
file_of ((k, v) ∷ pins) = pin_line k v ++ file_of pins

pub file_of-append :
    (pins : List (Bytes × Bytes)) (k v : Bytes)
    → file_of (pins ++ ((k, v) ∷ [])) ≡ file_of pins ++ pin_line k v
file_of-append [] k v = append-nil (pin_line k v)
file_of-append ((k', v') ∷ pins) k v =
    ap (λ s. pin_line k' v' ++ s) (file_of-append pins k v)
    ∙ sym (append_assoc (pin_line k' v') (file_of pins) (pin_line k v))

words_from-append :
    (word w s : Bytes)
    → All (λ c. is_space c ≡ false) w
    → words_from word (w ++ s) ≡ words_from (word ++ w) s
unfolding words_from
words_from-append word [] s h = ap (λ u. words_from u s) (sym (append-nil word))
words_from-append word (c ∷ w) s h = rw h.0 (
    words_from-append (word ++ (c ∷ [])) w s h.1
    ∙ ap (λ u. words_from u s) (append_assoc word (c ∷ []) w))

ended : (w : Bytes) (later : List Bytes) → w ≢ [] → end_word w later ≡ w ∷ later
ended [] later h = elim (h refl) [ ]
ended (c ∷ w) later h = refl

-- A word and the white space behind it.
words_from-word :
    (w s : Bytes) (c : ℕ)
    → IsWord w
    → is_space c ≡ true
    → words_from [] (w ++ (c ∷ s)) ≡ w ∷ words_from [] s
unfolding words_from
words_from-word w s c h space =
    words_from-append [] w (c ∷ s) h.unspaced ∙ rw space (ended w _ h.filled)

split_line : (k v s : Bytes) → pin_line k v ++ s ≡ k ++ (32 ∷ (v ++ (10 ∷ s)))
split_line k v s = append_assoc (k ++ (32 ∷ v)) (10 ∷ []) s ∙ append_assoc k (32 ∷ v) (10 ∷ s)

pub pairs-file_of :
    (pins : List (Bytes × Bytes)) → All IsPin pins → pairs (words_from [] (file_of pins)) ≡ pins
unfolding words_from pairs is_space
pairs-file_of [] h = refl
pairs-file_of ((k, v) ∷ pins) h =
    ap (λ s. pairs (words_from [] s)) (split_line k v (file_of pins))
    ∙ ap pairs (
        words_from-word k (v ++ (10 ∷ file_of pins)) 32 h.0.0 refl
        ∙ ap (λ ws. k ∷ ws) (words_from-word v (file_of pins) 10 h.0.1 refl))
    ∙ ap (λ later. (k, v) ∷ later) (pairs-file_of pins h.1)
