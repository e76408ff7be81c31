-- ===== src/Beast/Parsing.antt =====
-- beast_ws_transport.cpp: `parse_ws_url` takes apart what a URL was put together of.
use pqc_messaging_app.Prelude.{
  ℕ, ◌≡◌, ◌≢◌, refl, ◌∙◌, false, none, some, [], ◌∷◌, ◌++◌, Bytes, All, length, take-append_self,
  drop-append_self, bytes_eq, ◌==◌, ==_refl, arith,
}
use pqc_messaging_app.Relay.Url.Query.{find-append, drop-suc_append}
use pqc_messaging_app.Beast.{
  ParsedUrl, find_separator, rfind, host_part, target_part, with_port, parsed, parse_ws_url,
}

pub find_separator-append :
    (scheme rest : Bytes)
    → All (λ x. x ≢ 58) scheme
    → find_separator (scheme ++ (58 ∷ 47 ∷ 47 ∷ rest)) ≡ some (length scheme)
unfolding find_separator bytes_eq
find_separator-append [] rest apart = refl
find_separator-append (x ∷ scheme) rest apart =
    rw (find_separator-append scheme rest apart.1, differ x apart.0) refl
  where
    differ : (x : ℕ) → x ≢ 58 → (x == 58) ≡ false
    differ x h = ground arith

rfind-none : (c : ℕ) (s : Bytes) → All (λ x. x ≢ c) s → rfind c s ≡ none
unfolding rfind
rfind-none c [] apart = refl
rfind-none c (x ∷ s) apart = rw (rfind-none c s apart.1, differ x apart.0) refl
  where
    differ : (x : ℕ) → x ≢ c → (x == c) ≡ false
    differ x h = ground arith

pub rfind-append :
    (c : ℕ) (s rest : Bytes) → All (λ x. x ≢ c) rest → rfind c (s ++ (c ∷ rest)) ≡ some (length s)
unfolding rfind
rfind-append c [] rest apart = rw (rfind-none c rest apart, ==_refl c) refl
rfind-append c (x ∷ s) rest apart = rw (rfind-append c s rest apart) refl

-- The scheme, and what stands behind the separator.
parse_ws_url-parsed :
    (scheme rest : Bytes)
    → All (λ x. x ≢ 58) scheme
    → parse_ws_url (scheme ++ (58 ∷ 47 ∷ 47 ∷ rest)) ≡ parsed scheme rest
unfolding parse_ws_url
parse_ws_url-parsed scheme rest apart =
    rw
      (
        parse_ws_url,
        find_separator-append scheme rest apart,
        take-append_self scheme (58 ∷ 47 ∷ 47 ∷ rest),
        drop-append_self scheme (58 ∷ 47 ∷ 47 ∷ rest),
      )
      refl

abbrev pub url_of : ParsedUrl → Bytes
url_of u = u.scheme ++ (58 ∷ 47 ∷ 47 ∷ (u.host ++ (58 ∷ u.port)) ++ u.target)

-- A URL of a scheme without ':', "://", a host with at least one character, ':', a port without
-- ':' and a path that begins with '/', where host and port have no '/', parses to just these
-- parts.
pub parse_ws_url-url_of :
    (scheme : Bytes) (h : ℕ) (host port path : Bytes)
    → All (λ x. x ≢ 58) scheme
    → All (λ x. x ≢ 58) port
    → All (λ x. x ≢ 47) ((h ∷ host) ++ (58 ∷ port))
    → parse_ws_url
        (url_of (record { scheme = scheme; host = h ∷ host; port = port; target = 47 ∷ path }))
      ≡ some (record { scheme = scheme; host = h ∷ host; port = port; target = 47 ∷ path })
unfolding parsed host_part target_part with_port
parse_ws_url-url_of scheme h host port path apart port_apart no_slash =
    parse_ws_url-parsed scheme (((h ∷ host) ++ (58 ∷ port)) ++ (47 ∷ path)) apart
    ∙ rw
        (
          find-append 47 ((h ∷ host) ++ (58 ∷ port)) path no_slash,
          take-append_self ((h ∷ host) ++ (58 ∷ port)) (47 ∷ path),
          drop-append_self ((h ∷ host) ++ (58 ∷ port)) (47 ∷ path),
          rfind-append 58 (h ∷ host) port port_apart,
          take-append_self (h ∷ host) (58 ∷ port),
          drop-suc_append (h ∷ host) port 58,
        )
        refl
