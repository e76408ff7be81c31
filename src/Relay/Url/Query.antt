-- ===== src/Relay/Url/Query.antt =====
-- relay_server.cpp: what `get_query_value` finds in a well-formed query.
use pqc_messaging_app.Prelude.{
  ℕ, zero, suc, ◌+◌, ◌/◌, ◌%◌, ◌<◌, ◌≤◌, ◌≡◌, ◌≢◌, ◌⊎◌, refl, ◌∙◌, Bool, true, false, none, some,
  List, [], ◌∷◌, ◌++◌, Bytes, All, length, length-append, drop, take-append_self, bytes_eq, ◌==◌,
  ==_refl, if◌then◌else◌, arith, Bool-cases, inl, inr,
}
use pqc_messaging_app.Relay.Url.{url_decode, find, before, behind, query_loop, get_query_value}
use pqc_messaging_app.Relay.Url.Decoding.{hex_digit, encode, IsByte, url_decode-encode}

pub find-none : (c : ℕ) (s : Bytes) → All (λ x. x ≢ c) s → find c s ≡ none
unfolding find
find-none c [] apart = refl
find-none c (x ∷ s) apart = rw (find-none c s apart.1, differ x apart.0) refl
  where
    differ : (x : ℕ) → x ≢ c → (x == c) ≡ false
    differ x h = ground arith

pub find-append :
    (c : ℕ) (s rest : Bytes) → All (λ x. x ≢ c) s → find c (s ++ (c ∷ rest)) ≡ some (length s)
unfolding find
find-append c [] rest apart = rw (==_refl c) refl
find-append c (x ∷ s) rest apart = rw (find-append c s rest apart.1, differ x apart.0) refl
  where
    differ : (x : ℕ) → x ≢ c → (x == c) ≡ false
    differ x h = ground arith

apart-append :
    (c : ℕ) (xs ys : Bytes)
    → All (λ x. x ≢ c) xs
    → All (λ x. x ≢ c) ys
    → All (λ x. x ≢ c) (xs ++ ys)
apart-append c [] ys hx hy = hy
apart-append c (x ∷ xs) ys hx hy = (hx.0, apart-append c xs ys hx.1 hy)

-- `c` is none of the characters that an encoding writes.
abbrev Reserved : (ℕ → Bool) → ℕ → Type 0
Reserved keep c = (keep c ≡ false) × ((c ≡ 38) ⊎ (c ≡ 61))

encode-apart :
    (keep : ℕ → Bool) (c : ℕ) (s : Bytes)
    → Reserved keep c
    → All IsByte s
    → All (λ x. x ≢ c) (encode keep s)
encode-apart keep c [] reserved bytes = tt
encode-apart keep c (x ∷ s) reserved bytes = elim (Bool-cases (keep x)) [
  | inl e ↦ rw e ((λ same. clash same e), encode-apart keep c s reserved bytes.1)
  | inr e ↦ rw e (
    (λ same. ground (arith, reserved.1)),
    (
      digit (x / 16) (omega (arith, bytes.0)),
      (digit (x % 16) (omega arith), encode-apart keep c s reserved bytes.1),
    ),
  )
]
  where
    clash : x ≡ c → keep x ≡ true → ⊥
    clash same kept = cc

    digit : (d : ℕ) → d < 16 → hex_digit d ≢ c
    digit d h same = ground (arith, reserved.1)

abbrev pub pair : (ℕ → Bool) → Bytes → Bytes → Bytes
pair keep k v = encode keep k ++ (61 ∷ encode keep v)

-- `k1=v1&k2=v2...`
abbrev pub query : (ℕ → Bool) → List (Bytes × Bytes) → Bytes
query keep [] = []
query keep ((k, v) ∷ []) = pair keep k v
query keep ((k, v) ∷ kv ∷ kvs) = pair keep k v ++ (38 ∷ query keep (kv ∷ kvs))

-- The value of the first pair with the key.
abbrev pub lookup : Bytes → List (Bytes × Bytes) → Bytes
lookup key [] = []
lookup key ((k, v) ∷ kvs) = if bytes_eq k key then v else lookup key kvs

query_loop-step :
    (fuel : ℕ) (s key : Bytes)
    → 1 ≤ length s
    → query_loop (suc fuel) s key ≡ (
        if bytes_eq
          (url_decode (before (find 61 (before (find 38 s) s)) (before (find 38 s) s)))
          key
        then url_decode (behind (find 61 (before (find 38 s) s)) (before (find 38 s) s))
        else query_loop fuel (behind (find 38 s) s) key)
unfolding query_loop
query_loop-step fuel [] key h = absurd (omega arith)
query_loop-step fuel (c ∷ s) key h = refl

query_loop-empty : (fuel : ℕ) (key : Bytes) → query_loop fuel [] key ≡ []
unfolding query_loop
query_loop-empty zero key = refl
query_loop-empty (suc fuel) key = refl

pub drop-suc_append : (s rest : Bytes) (c : ℕ) → drop (suc (length s)) (s ++ (c ∷ rest)) ≡ rest
drop-suc_append [] rest c = refl
drop-suc_append (x ∷ s) rest c = drop-suc_append s rest c

-- Pairs of byte strings.
abbrev pub AreBytes : List (Bytes × Bytes) → Type 0
AreBytes [] = Unit
AreBytes ((k, v) ∷ kvs) = All IsByte k × All IsByte v × AreBytes kvs

module _ (keep : ℕ → Bool) (no_percent : keep 37 ≡ false) (no_plus : keep 43 ≡ false)
    (no_amp : keep 38 ≡ false) (no_eq : keep 61 ≡ false) where
  pair-apart : (k v : Bytes) → All IsByte k → All IsByte v → All (λ x. x ≢ 38) (pair keep k v)
  pair-apart k v bk bv =
      apart-append 38 (encode keep k) (61 ∷ encode keep v)
        (encode-apart keep 38 k (no_amp, inl refl) bk)
        ((λ e. ground arith), encode-apart keep 38 v (no_amp, inl refl) bv)

  find-pair : (k v : Bytes) → All IsByte k → find 61 (pair keep k v) ≡ some (length (encode keep k))
  find-pair k v bk =
      find-append 61 (encode keep k) (encode keep v) (encode-apart keep 61 k (no_eq, inr refl) bk)

  -- One turn of the loop on a pair.
  turn :
      (fuel : ℕ) (s key k v : Bytes)
      → All IsByte k
      → All IsByte v
      → 1 ≤ length s
      → before (find 38 s) s ≡ pair keep k v
      → query_loop (suc fuel) s key
        ≡ (if bytes_eq k key then v else query_loop fuel (behind (find 38 s) s) key)
  unfolding before behind
  turn fuel s key k v bk bv some_left part =
      query_loop-step fuel s key some_left
      ∙ rw
          (
            part,
            find-pair k v bk,
            take-append_self (encode keep k) (61 ∷ encode keep v),
            drop-suc_append (encode keep k) (encode keep v) 61,
            url_decode-encode keep k no_percent no_plus bk,
            url_decode-encode keep v no_percent no_plus bv,
          )
          refl

  length-pair : (k v : Bytes) → 1 ≤ length (pair keep k v)
  length-pair k v = omega (arith, length-append (encode keep k) (61 ∷ encode keep v))

  query_loop-query :
      (fuel : ℕ) (kvs : List (Bytes × Bytes)) (key : Bytes)
      → AreBytes kvs
      → length (query keep kvs) ≤ fuel
      → query_loop fuel (query keep kvs) key ≡ lookup key kvs
  unfolding before behind
  query_loop-query fuel [] key bytes enough = query_loop-empty fuel key
  query_loop-query zero ((k, v) ∷ []) key bytes enough = absurd (omega (arith, length-pair k v))
  query_loop-query (suc fuel) ((k, v) ∷ []) key bytes enough =
      turn fuel (pair keep k v) key k v bytes.0 bytes.1 (length-pair k v) (rw last refl)
      ∙ rw (last, query_loop-empty fuel key) refl
    where
      last : find 38 (pair keep k v) ≡ none
      last = find-none 38 (pair keep k v) (pair-apart k v bytes.0 bytes.1)
  query_loop-query zero ((k, v) ∷ kv ∷ kvs) key bytes enough =
      absurd
        (omega (arith, length-pair k v, length-append (pair keep k v) (38 ∷ query keep (kv ∷ kvs))))
  query_loop-query (suc fuel) ((k, v) ∷ kv ∷ kvs) key bytes enough =
      turn fuel (query keep ((k, v) ∷ kv ∷ kvs)) key k v bytes.0 bytes.1
        (omega (arith, length-pair k v, size))
        (rw next (take-append_self (pair keep k v) (38 ∷ query keep (kv ∷ kvs))))
      ∙ rw
          (
            next,
            drop-suc_append (pair keep k v) (query keep (kv ∷ kvs)) 38,
            query_loop-query fuel (kv ∷ kvs) key bytes.2 (omega (arith, size, length-pair k v)),
          )
          refl
    where
      size :
          length (query keep ((k, v) ∷ kv ∷ kvs))
          ≡ length (pair keep k v) + length (38 ∷ query keep (kv ∷ kvs))
      size = length-append (pair keep k v) (38 ∷ query keep (kv ∷ kvs))

      next : find 38 (pair keep k v ++ (38 ∷ query keep (kv ∷ kvs))) ≡ some (length (pair keep k v))
      next = find-append 38 (pair keep k v) (query keep (kv ∷ kvs)) (pair-apart k v bytes.0 bytes.1)

  -- For a path without '?', and pairs of byte strings percent-encoded with an encoding that
  -- keeps none of '%', '+', '&' and '=', the value that `get_query_value` finds for a key is
  -- that of the first pair with the key, and empty where no pair has it.
  pub get_query_value-query :
      (path : Bytes) (kvs : List (Bytes × Bytes)) (key : Bytes)
      → All (λ x. x ≢ 63) path
      → AreBytes kvs
      → get_query_value (path ++ (63 ∷ query keep kvs)) key ≡ lookup key kvs
  unfolding get_query_value
  get_query_value-query path kvs key apart bytes =
      rw
        (
          get_query_value,
          find-append 63 path (query keep kvs) apart,
          drop-suc_append path (query keep kvs) 63,
        )
        (query_loop-query (length (query keep kvs)) kvs key bytes (omega arith))
