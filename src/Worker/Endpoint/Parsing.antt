-- ===== src/Worker/Endpoint/Parsing.antt =====
-- gui/EngineWorker.cpp: which texts `parseEndpoint` takes, and for what.
use pqc_messaging_app.Prelude.{
  ℕ, zero, suc, ◌%◌, ◌^◌, ◌≤◌, ◌≡◌, ◌≢◌, ◌↔◌, refl, ap, sym, ◌∙◌, Bool, true, false, ◌||◌, Option,
  none, some, [], ◌∷◌, ◌++◌, Bytes, take, drop, take-append_self, All, ltb, ◌==◌, ==_iff,
  if◌then◌else◌, arith, Bool-cases, inl, inr,
}
use pqc_messaging_app.Beast.{rfind}
use pqc_messaging_app.Beast.Parsing.{rfind-append}
use pqc_messaging_app.Relay.Url.Query.{drop-suc_append}
use pqc_messaging_app.Worker.{Qt, ℤ, pos, negsuc}
use pqc_messaging_app.Worker.Endpoint.{with_port, split_at, parse_endpoint}

-- The last place of a byte.
abbrev Found : ℕ → Bytes → Option ℕ → Type 0
Found c s none = All (λ x. x ≢ c) s
Found c s (some i) = (s ≡ take i s ++ (c ∷ drop (suc i) s)) × All (λ x. x ≢ c) (drop (suc i) s)

Found-rfind :
    (c x : ℕ) (s : Bytes) (o : Option ℕ)
    → rfind c s ≡ o
    → Found c s o
    → Found c (x ∷ s) (rfind c (x ∷ s))
unfolding rfind
Found-rfind c x s none e h = elim (Bool-cases (x == c)) [
  | inl same ↦ rw (e, same) (ap (λ y. y ∷ s) ((==_iff x c).0 same), h)
  | inr other ↦ rw (e, other) ((λ is. ground arith), h)
]
Found-rfind c x s (some i) e h = rw e (ap (λ t. x ∷ t) h.0, h.1)

rfind-Found : (c : ℕ) (s : Bytes) → Found c s (rfind c s)
unfolding rfind
rfind-Found c [] = tt
rfind-Found c (x ∷ s) = Found-rfind c x s (rfind c s) refl (rfind-Found c s)

-- A host and a port as they stand in a text: the port behind the last colon.
pub record IsEndpoint ⦃q : Qt⦄ (ep host : Bytes) (port : ℕ) : Type 0 where
  pub digits : Bytes
  pub split : ep ≡ host ++ (58 ∷ digits)
  pub last : All (λ x. x ≢ 58) digits
  pub named : host ≢ []
  pub number : q.to_int digits ≡ some (pos port)
  pub positive : 1 ≤ port
  pub small : port ≤ 65535

abbrev Taken : Bytes → ℕ → Bytes → Option ℤ → Type 0
Taken host port h o = (o ≡ some (pos port)) × (1 ≤ port) × (port ≤ 65535) × (host ≡ h)

-- A test that was not taken.
passed :
    (test : Bool) (a b : Bytes × ℕ)
    → (if test then none else some a) ≡ some b
    → (test ≡ false) × (a.0 ≡ b.0) × (a.1 ≡ b.1)
passed true a b e = ground (arith, e)
passed false a b e = (refl, ap (λ o. (given a o).0) e, ap (λ o. (given a o).1) e)
  where
    given : Bytes × ℕ → Option (Bytes × ℕ) → Bytes × ℕ
    given a none = a
    given a (some b) = b

with_port-Taken :
    (h : Bytes) (o : Option ℤ) (host : Bytes) (port : ℕ)
    → with_port h o ≡ some (host, port)
    → Taken host port h o
unfolding with_port
with_port-Taken h none host port e = ground (arith, e)
with_port-Taken h (some (negsuc n)) host port e = ground (arith, e)
with_port-Taken h (some (pos n)) host port e =
    let (fits, same_host, same_port) =
      passed (n == 0 || ltb 65535 n) (h, n % 2 ^ 16) (host, port) e in
    ranged n fits same_port (sym same_host)
  where
    ranged :
        (n : ℕ)
        → (n == 0 || ltb 65535 n) ≡ false
        → n % 2 ^ 16 ≡ port
        → host ≡ h
        → Taken host port h (some (pos n))
    ranged n fits same_port same_host =
        let low : 1 ≤ n = ground arith in
        let high : n ≤ 65535 = ground arith in
        let is : n ≡ port = omega (arith, high, same_port) in
        (ap (λ m. some (pos m)) is, omega (arith, low, is), omega (arith, high, is), same_host)

with_port-pos :
    (h : Bytes) (port : ℕ)
    → 1 ≤ port
    → port ≤ 65535
    → with_port h (some (pos port)) ≡ some (h, port)
unfolding with_port
with_port-pos h port low high = rw (nonzero, fits, same) refl
  where
    nonzero : (port == 0) ≡ false
    nonzero = ground arith

    fits : ltb 65535 port ≡ false
    fits = ground arith

    same : port % 65536 ≡ port
    same = omega (arith, high)

module _ ⦃q : Qt⦄ where
  split_at-IsEndpoint :
      (ep : Bytes) (o : Option ℕ) (host : Bytes) (port : ℕ)
      → Found 58 ep o
      → split_at ep o ≡ some (host, port)
      → IsEndpoint ep host port
  unfolding split_at
  split_at-IsEndpoint ep none host port f e = ground (arith, e)
  split_at-IsEndpoint ep (some zero) host port f e = ground (arith, e)
  split_at-IsEndpoint [] (some (suc i)) host port f e = ground (arith, f.0)
  split_at-IsEndpoint (x ∷ ep) (some (suc i)) host port f e =
      let taken = with_port-Taken (x ∷ take i ep) (q.to_int (drop (suc i) ep)) host port e in
      record {
        digits = drop (suc i) ep;
        split = f.0 ∙ ap (λ h. h ++ (58 ∷ drop (suc i) ep)) (sym taken.3);
        last = f.1;
        named = λ empty. ground (arith, sym taken.3 ∙ empty);
        number = taken.0;
        positive = taken.1;
        small = taken.2;
      }

  split_at-append :
      (ep host digits : Bytes) (port : ℕ)
      → ep ≡ host ++ (58 ∷ digits)
      → All (λ x. x ≢ 58) digits
      → host ≢ []
      → q.to_int digits ≡ some (pos port)
      → 1 ≤ port
      → port ≤ 65535
      → split_at ep (rfind 58 ep) ≡ some (host, port)
  unfolding split_at
  split_at-append ep [] digits port split last named number low high = elim (named refl) [ ]
  split_at-append ep (x ∷ host) digits port split last named number low high =
      rw
        (
          split,
          rfind-append 58 (x ∷ host) digits last,
          take-append_self (x ∷ host) (58 ∷ digits),
          drop-suc_append (x ∷ host) digits 58,
          number,
        )
        (with_port-pos (x ∷ host) port low high)

  -- `parseEndpoint` takes a text for a host and a port just where the text, trimmed, is the
  -- host, which is not empty, a colon and a text without colon that `toInt` reads as the port,
  -- and the port is from 1 to 65535.
  pub parse_endpoint_iff :
      (endpoint host : Bytes) (port : ℕ)
      → (parse_endpoint endpoint ≡ some (host, port)) ↔ IsEndpoint (q.trimmed endpoint) host port
  unfolding parse_endpoint
  parse_endpoint_iff endpoint host port =
      let ep = q.trimmed endpoint in
      (
        split_at-IsEndpoint ep (rfind 58 ep) host port (rfind-Found 58 ep),
        λ h.
            split_at-append ep host h.digits port h.split h.last h.named h.number h.positive
              h.small,
      )
