-- ===== src/Identity.antt =====
-- identity.h and identity.cpp: the identity of a user, its profile file, signatures, fingerprints.
-- A function with the parameter `Identity& out` works on an `Identity` object, so what it wrote
-- before an exception stays written.
pub mod Layout
pub mod Keys
pub mod Writing
pub mod RoundTrip
pub mod Fingerprint
pub mod Kept
use pqc_messaging_app.Prelude.{
  ℕ, ◌+◌, ◌-◌, ◌/◌, ◌%◌, ◌^◌, String, Bool, true, false, not, ◌&&◌, ◌||◌, Option, none, some, List,
  [], ◌∷◌, ◌++◌, Bytes, codes, length, take, replicate, is_empty, bytes_eq, ltb, ◌==◌,
  if◌then◌else◌,
}
use pqc_messaging_app.Exec.{M, pure, raise, gets, modify, scoped, ◌>>=◌, ◌>>◌}
use pqc_messaging_app.Platform.{Platform}
use pqc_messaging_app.Platform.Calls.{call_else, with_new, call, call_or, free}
use pqc_messaging_app.Words.{htonl}
use pqc_messaging_app.Files.{
  InStream, OutStream, read, read_block, read_word, open_in, open_out, write, close_out,
}
use pqc_messaging_app.Crypto.{nonce_size, tag_size, aes_gcm, encrypt, decrypt}

pub record Identity : Type 0 where
  pub public_key : Bytes
  pub private_key : Bytes

unfoldable pub is_loaded : Identity → Bool
is_loaded i = not (is_empty i.public_key) && not (is_empty i.private_key)

abbrev pub file_version : ℕ
file_version = 1

abbrev pub pbkdf2_iters : ℕ
pbkdf2_iters = 200000

-- "E2EEID01"
abbrev pub magic : Bytes
magic = b'E' ∷ b'2' ∷ b'E' ∷ b'E' ∷ b'I' ∷ b'D' ∷ b'0' ∷ b'1' ∷ []

-- `v.resize(n)`
pub resize : ℕ → Bytes → Bytes
resize n v = take n v ++ replicate (n - length v) 0

module _ {S : Type 0} where
  -- `if (test) throw std::runtime_error(e);`
  unfoldable pub throw_if : Bool → String → M S Unit
  throw_if true e = raise e
  throw_if false e = pure tt

  unfoldable pub or_throw : {A : Type 0} → Option A → String → M S A
  or_throw none e = raise e
  or_throw (some a) e = pure a

module _ ⦃p : Platform⦄ where
  pub random_bytes : {S : Type 0} → ℕ → M S Bytes
  random_bytes n = call "RAND_bytes failed" (λ i. p.random i n)

  pub gen_ed25519 : M Identity Unit
  unfolding resize
  gen_ed25519 = with_new true (raise "EVP_PKEY_CTX_new_id ED25519 failed") λ kctx. do
    call_or (free kctx) "keygen_init failed" (λ _. tt)
    with_new true (free kctx >> raise "keygen failed") λ pkey. do
      free kctx
      let keys = p.ed25519_keygen pkey
      pub_len ← call_or (free pkey) "get_raw_public_key len failed" (λ _. length keys.0)
      priv_len ← call_or (free pkey) "get_raw_private_key len failed" (λ _. length keys.1)
      modify (λ i. record i { public_key = resize pub_len i.public_key })
      modify (λ i. record i { private_key = resize priv_len i.private_key })
      raw_pub ← call_or (free pkey) "get_raw_public_key failed" (λ _. keys.0)
      modify (λ i. record i { public_key = raw_pub })
      raw_priv ← call_or (free pkey) "get_raw_private_key failed" (λ _. keys.1)
      modify (λ i. record i { private_key = raw_priv })
      free pkey

  pub pbkdf2_sha256 : {S : Type 0} → Bytes → Bytes → ℕ → ℕ → M S Bytes
  pbkdf2_sha256 password salt iters out_len =
      call "PBKDF2 failed" (λ _. p.pbkdf2 password salt iters out_len)

  -- The writes of `create_profile`, in order.
  pub write_profile : {S : Type 0} → Bytes → Bytes → Bytes → Bytes → OutStream → M S OutStream
  write_profile salt nonce public_key ct f0 = do
    f1 ← write magic f0
    f2 ← write (htonl file_version) f1
    f3 ← write (htonl pbkdf2_iters) f2
    f4 ← write (htonl (length salt)) f3
    f5 ← write salt f4
    f6 ← write (htonl (length nonce)) f5
    f7 ← write nonce f6
    f8 ← write (htonl (length public_key)) f7
    f9 ← write public_key f8
    f10 ← write (htonl (length ct)) f9
    write ct f10

  -- The part of `create_profile` that opens, writes and closes the file.
  pub store_profile : {S : Type 0} → String → Bytes → Bytes → Bytes → Bytes → M S Unit
  unfolding write_profile
  store_profile path salt nonce public_key ct = do
    opened ← open_out path
    f0 ← or_throw opened "open profile for write failed"
    f ← write_profile salt nonce public_key ct f0
    scoped (close_out f) (throw_if (not f.good) "write profile failed")

  pub create_profile : String → Bytes → M Identity Unit
  unfolding store_profile
  create_profile path password = do
    gen_ed25519
    salt ← random_bytes 16
    aes_key ← pbkdf2_sha256 password salt pbkdf2_iters 32
    nonce ← random_bytes nonce_size
    crypto ← aes_gcm aes_key
    out ← gets (λ i. i)
    ct ← encrypt crypto out.private_key nonce
    store_profile path salt nonce out.public_key ct

  abbrev pub stack_bytes : Bytes
  stack_bytes =
      p.indeterminate 0
      ∷ p.indeterminate 1
      ∷ p.indeterminate 2
      ∷ p.indeterminate 3
      ∷ p.indeterminate 4
      ∷ p.indeterminate 5
      ∷ p.indeterminate 6
      ∷ p.indeterminate 7
      ∷ []

  -- The end of `load_profile`, behind its reads.
  pub unlock : Bytes → Bytes → ℕ → Bytes → Bytes → M Identity Unit
  unlock password salt it nonce ct = do
    aes_key ← pbkdf2_sha256 password salt it 32
    crypto ← aes_gcm aes_key
    private_key ← decrypt crypto ct nonce
    modify (λ i. record i { private_key = private_key })

  -- `load_profile` from its first read on.
  pub load_fields : Bytes → InStream → M Identity Unit
  unfolding unlock
  load_fields password f0 = do
    let (m, f1) = read 8 stack_bytes f0
    throw_if (not (bytes_eq m magic)) "bad magic"
    let (v, f2) = read_word f1
    throw_if (not (v == file_version)) "unsupported version"
    let (it, f3) = read_word f2
    let (sl, f4) = read_word f3
    throw_if (sl == 0 || ltb 1024 sl) "profile corrupt (salt)"
    let (salt, f5) = read_block sl f4
    let (nl, f6) = read_word f5
    throw_if (not (nl == nonce_size)) "profile corrupt (nonce)"
    let (nonce, f7) = read_block nl f6
    let (pl, f8) = read_word f7
    throw_if (not (pl == 32)) "profile corrupt (pub)"
    out ← gets (λ i. resize pl i.public_key)
    let (public_key, f9) = read pl out f8
    modify (λ i. record i { public_key = public_key })
    let (cl, f10) = read_word f9
    throw_if (ltb cl tag_size || ltb 4096 cl) "profile corrupt (ct)"
    let (ct, f11) = read_block cl f10
    throw_if (not f11.good) "read profile failed"
    unlock password salt it nonce ct

  pub load_profile : String → Bytes → M Identity Unit
  unfolding load_fields
  load_profile path password = do
    opened ← open_in path
    f ← or_throw opened "open profile for read failed"
    load_fields password f

  module _ {S : Type 0} where
    pub sign : Bytes → Bytes → M S Bytes
    sign priv32 msg =
        with_new (p.takes_private_key priv32) (raise "new_raw_private_key failed") λ sk.
          with_new true (free sk >> raise "MD_CTX_new failed") λ mdctx. do
            call_or (free mdctx >> free sk) "sign precompute failed" (λ _. tt)
            siglen ←
                call_or (free mdctx >> free sk) "sign precompute failed"
                  (λ _. length (p.ed25519_sign priv32 msg))
            sig ← call_or (free mdctx >> free sk) "sign failed" (λ _. p.ed25519_sign priv32 msg)
            free mdctx
            free sk
            pure sig

    -- `ok` is false where the first call of the two is refused, and the second is not made.
    pub verify_calls : Bytes → Bytes → Bytes → M S Bool
    verify_calls pub32 msg sig = do
      started ← call_else (pure false) (λ _. true)
      if started then call_else (pure false) (λ _. p.ed25519_verify pub32 msg sig) else pure false

    pub verify : Bytes → Bytes → Bytes → M S Bool
    unfolding verify_calls
    verify pub32 msg sig = with_new (p.takes_public_key pub32) (pure false) λ pk.
        with_new true (free pk >> pure false)
          λ mdctx. do fits ← verify_calls pub32 msg sig; free mdctx; free pk; pure fits

-- HEX[n]
pub hex_digit : ℕ → ℕ
hex_digit n = if ltb n 10 then b'0' + n else b'a' + n - 10

pub hex : Bytes → Bytes
unfolding hex_digit
hex [] = []
hex (b ∷ bs) = hex_digit (b / 16) ∷ hex_digit (b % 16) ∷ hex bs

unfoldable pub fingerprint_hex : ⦃p : Platform⦄ → Bytes → Bytes
unfolding hex
fingerprint_hex ⦃p⦄ pub32 = hex (p.sha256 pub32)
