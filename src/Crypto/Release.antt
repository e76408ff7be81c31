-- ===== src/Crypto/Release.antt =====
-- crypto.h: the cipher contexts are freed, and where one is freed twice.
use pqc_messaging_app.Prelude.{
  ℕ, ◌-◌, ◌≤◌, String, ltb, ltb-false, take, drop, if◌then◌else◌, ◌||◌, ◌++◌, inl, inr, ◌≡◌, refl,
  Bool, true, false, not, Option, none, some, List, [], ◌∷◌, Bytes, length, ◌==◌, ◌⊎◌, ==_refl,
}
use pqc_messaging_app.Exec.{
  ok, err, hang, Result, World, M, pure, raise, continue, rethrow, ◌>>=◌, ◌>>◌, try_cleanup,
}
use pqc_messaging_app.Exec.Owns.{Owns, Tidy, Owns-raise, Owns-if, Owns-bind, Owns-try_cleanup}
use pqc_messaging_app.Platform.{Platform}
use pqc_messaging_app.Platform.Calls.{
  call_else, with_new, call, free, holds, answer, hand_out, counted, opened, Owns-done, Owns-free,
  Owns-with_new, owns_rules,
}
use pqc_messaging_app.Crypto.{AesGcmCrypto, encrypt_body, encrypt, finish, decrypt_body, decrypt}

module _ ⦃p : Platform⦄ where
  -- The context that `decrypt` hands to `EVP_DecryptFinal_ex`.
  abbrev pub opening : Bytes → Bytes → Bytes → Bytes → p.CipherCtx
  opening key nonce ct tag =
      p.set_tag tag
        (p.decrypt_update ct (
          p.decrypt_init_key key nonce
            (p.set_ivlen (length nonce) (p.decrypt_init_cipher p.cipher_ctx)))).1

module _ ⦃p : Platform⦄ {S : Type 0} where
  encrypt_body-Owns :
      (c : AesGcmCrypto) (plaintext nonce : Bytes) (ctx : ℕ)
      → Owns {S = S} (ctx ∷ []) (λ _. []) (ctx ∷ []) (encrypt_body c plaintext nonce ctx)
  unfolding encrypt_body
  encrypt_body-Owns c plaintext nonce ctx = search owns_rules depth 20

  -- Whichever foreign calls are refused, `encrypt` ends with the live handles it began with
  -- and frees no handle that is not live.
  pub encrypt-Tidy :
      (c : AesGcmCrypto) (plaintext nonce : Bytes) → Tidy {S = S} (encrypt c plaintext nonce)
  unfolding encrypt
  encrypt-Tidy c plaintext nonce = Owns-if (not (length nonce == 12)) _ _ (Owns-raise _) (
      Owns-with_new true _ _ (Owns-raise _) λ ctx.
        Owns-bind (λ _. []) _ _
          (Owns-try_cleanup (ctx ∷ []) _ _ (encrypt_body-Owns c plaintext nonce ctx)
            (Owns-free ctx))
          λ out. Owns-done _)

  -- How the `try` block of `decrypt` can end where it was given `ctx` on top of the handles `l`: it
  -- frees `ctx` once, or throws and keeps it, or frees it and throws that the tag does not fit.
  abbrev Left : Bool → ℕ → List ℕ → Result Bytes × World S → Type 0
  Left c ctx l (ok a, w) = (w.live ≡ l) × (w.corrupt ≡ c)
  Left c ctx l (err e, w) =
      (w.corrupt ≡ c) × ((w.live ≡ ctx ∷ l) ⊎ ((w.live ≡ l) × (e ≡ "GCM tag verification failed")))
  Left c ctx l (hang, w) = ⊥

  record Leaves (ctx : ℕ) (m : M S Bytes) : Type 0 where
    at : (w : World S) (l : List ℕ) → w.live ≡ ctx ∷ l → Left w.corrupt ctx l (m w)

  module _ {A : Type 0} (fallback : M S A) (k : A → M S Bytes) (ctx : ℕ) where
    answer-Left :
        (refused : Bool) (a : A) (w : World S) (l : List ℕ)
        → Leaves ctx (fallback >>= k)
        → Leaves ctx (k a)
        → w.live ≡ ctx ∷ l
        → Left w.corrupt ctx l (continue (answer refused fallback a w) k)
    unfolding ◌>>=◌
    answer-Left true a w l hf hk e = hf.at (counted w) l e
    answer-Left false a w l hf hk e = hk.at (counted w) l e

    Leaves-then_else :
        (f : ℕ → A)
        → Leaves ctx (fallback >>= k)
        → ((a : A) → Leaves ctx (k a))
        → Leaves ctx (call_else fallback f >>= k)
    unfolding ◌>>=◌ call_else
    Leaves-then_else f hf hk = record {
      at = λ w l e. answer-Left (p.fails w.calls) (f w.calls) w l hf (hk (f w.calls)) e;
    }

  Leaves-then_call :
      {A : Type 0} (e : String) (f : ℕ → A) (k : A → M S Bytes) (ctx : ℕ)
      → ((a : A) → Leaves ctx (k a))
      → Leaves ctx (call e f >>= k)
  unfolding ◌>>=◌
  Leaves-then_call e f k ctx hk =
      Leaves-then_else (raise e) k ctx f (record { at = λ w l h. (refl, inl h) }) hk

  Leaves-finish :
      (ctx : ℕ) (fits : Option Bytes) (body : Bytes)
      → Leaves ctx (do last ← finish ctx fits; free ctx; pure (body ++ last))
  unfolding finish ◌>>=◌ free
  Leaves-finish ctx none body = record {
    at = λ w l e. rw (e, ==_refl ctx) (refl, inr (refl, refl));
  }
  Leaves-finish ctx (some last) body = record { at = λ w l e. rw (e, ==_refl ctx) (refl, refl) }

  decrypt_body-Leaves :
      (c : AesGcmCrypto) (ct tag nonce : Bytes) (ctx : ℕ)
      → Leaves ctx (decrypt_body c ct tag nonce ctx)
  unfolding decrypt_body ◌>>=◌
  decrypt_body-Leaves c ct tag nonce ctx = Leaves-then_call _ _ _ ctx λ c0.
      Leaves-then_call _ _ _ ctx λ c1. Leaves-then_call _ _ _ ctx λ c2.
        Leaves-then_call _ _ _ ctx λ out. Leaves-then_call _ _ _ ctx λ c4.
          Leaves-then_else (pure none) _ ctx _
            (record { at = λ w l e. (Leaves-finish ctx none out.0).at w l e })
            λ fits. Leaves-finish ctx fits out.0

  -- What `decrypt` can do to the handles where `ctx` is new: nothing in the end, or, with the error
  -- of a tag that does not fit, free a handle that is not live.
  abbrev pub Outcome : World S → Result Bytes × World S → Type 0
  Outcome w (ok a, w') = (w'.live ≡ w.live) × (w'.corrupt ≡ w.corrupt)
  Outcome w (hang, w') = ⊥
  Outcome w (err e, w') =
      (w'.live ≡ w.live)
      × ((w'.corrupt ≡ w.corrupt) ⊎ ((e ≡ "GCM tag verification failed") × (w'.corrupt ≡ true)))

  rethrow-Outcome :
      (w : World S) (ctx : ℕ) (r : Result Bytes × World S)
      → holds ctx w.live ≡ false
      → Left w.corrupt ctx w.live r
      → Outcome w (rethrow (free ctx) r)
  unfolding ◌>>=◌ free
  rethrow-Outcome w ctx (ok a, w') fresh s = s
  rethrow-Outcome w ctx (hang, w') fresh s = s
  rethrow-Outcome w ctx (err e, w') fresh (c, inl h) = rw (h, ==_refl ctx) (refl, inl c)
  rethrow-Outcome w ctx (err e, w') fresh (c, inr (h, tag)) = rw (h, fresh) (refl, inr (tag, refl))

  hand_out-Outcome :
      (refused : Bool) (w : World S) (e : String) (k : ℕ → M S Bytes)
      → holds w.next w.live ≡ false
      → Leaves w.next (k w.next)
      → Outcome w (hand_out refused (raise e) (λ h. try_cleanup (k h) (free h)) w)
  unfolding ◌>>=◌ try_cleanup
  hand_out-Outcome true w e k fresh hk = (refl, inl refl)
  hand_out-Outcome false w e k fresh hk =
      rethrow-Outcome w w.next (k w.next (opened w)) fresh (hk.at (opened w) w.live refl)

  pub Outcome-if :
      (b : Bool) (w : World S) (m k : M S Bytes)
      → Outcome w (m w)
      → Outcome w (k w)
      → Outcome w ((if b then m else k) w)
  Outcome-if true w m k hm hk = hm
  Outcome-if false w m k hm hk = hk

  -- Whichever foreign calls are refused, where the next handle is not live yet, `decrypt`
  -- ends, by a value or an error, with the live handles it began with, and it frees a handle
  -- that is not live only where its error is that the tag does not fit.
  pub decrypt-Outcome :
      (c : AesGcmCrypto) (ct_tag nonce : Bytes) (w : World S)
      → holds w.next w.live ≡ false
      → Outcome w (decrypt c ct_tag nonce w)
  unfolding decrypt with_new ◌>>=◌
  decrypt-Outcome c ct_tag nonce w fresh =
      Outcome-if (not (length nonce == 12)) w _ _ (refl, inl refl)
        (Outcome-if (ltb (length ct_tag) 16) w _ _ (refl, inl refl)
          (hand_out-Outcome (p.fails w.calls || false) w _ body fresh
            (decrypt_body-Leaves c _ _ nonce w.next)))
    where
      body : ℕ → M S Bytes
      body =
          decrypt_body c (take (length ct_tag - 16) ct_tag) (drop (length ct_tag - 16) ct_tag) nonce

  -- Where no foreign call is refused, the next handle is not live yet, the nonce has 12 bytes
  -- and the input at least 16, an input whose tag does not fit makes `decrypt` throw that
  -- error and free a handle that is not live any more.
  pub decrypt-frees_twice :
      (c : AesGcmCrypto) (ct_tag nonce : Bytes) (w : World S)
      → ((i : ℕ) → p.fails i ≡ false)
      → holds w.next w.live ≡ false
      → length nonce ≡ 12
      → 16 ≤ length ct_tag
      → p.decrypt_final (
          opening c.key nonce (take (length ct_tag - 16) ct_tag) (drop (length ct_tag - 16) ct_tag))
        ≡ none
      → ((decrypt c ct_tag nonce w).0 ≡ err "GCM tag verification failed")
        × ((decrypt c ct_tag nonce w).1.corrupt ≡ true)
  unfolding decrypt with_new ◌>>=◌ try_cleanup call_else finish free
  decrypt-frees_twice c ct_tag nonce w healthy fresh size enough misfit =
      simp (size, ltb-false (length ct_tag) 16 enough, healthy)
        (simp (rw (opening, size) at misfit, ==_refl, fresh) (refl, refl))
