-- ===== src/Examples/Foreign.antt =====
-- Stand-ins for libcrypto, liboqs and the code of protoc, for the examples: none of them is secret,
-- all of them do what the models rely on.
use pqc_messaging_app.Prelude.{
  ℕ, zero, suc, ◌+◌, ◌≤◌, ◌≡◌, refl, ap, Bool, true, false, Option, none, some, [], ◌∷◌, ◌++◌,
  Bytes, length, length-append, length-take, length-replicate, take, replicate, bytes_eq,
  bytes_eq_iff, ◌==◌, arith,
}
use pqc_messaging_app.Exec.{Machine, World}
use pqc_messaging_app.Platform.{Platform}
use pqc_messaging_app.Platform.Laws.{Healthy, GcmLaws}
use pqc_messaging_app.Protobuf.{
  HandshakeHello, HandshakeResponse, ChatMessage, Envelope, Protobuf, ProtobufLaws, EnvelopeSizes,
}

-- The first n bytes, with zeros where there are too few.
abbrev pub pad : ℕ → Bytes → Bytes
pad n b = take n (b ++ replicate n 0)

pub length-pad : (n : ℕ) (b : Bytes) → length (pad n b) ≡ n
length-pad n b = omega (
  arith,
  length-take n (b ++ replicate n 0),
  length-append b (replicate n 0),
  length-replicate {A = ℕ} n 0,
)

abbrev misfit : Bool → Bytes
misfit true = []
misfit false = 1 ∷ []

abbrev verdict : Bytes → Option Bytes
verdict [] = some []
verdict (x ∷ xs) = none

-- A cipher that leaves the bytes as they are, with a tag made of them and the key; a key derivation
-- that pads; signatures that hold the key and the message.
abbrev pub toy : Platform
toy = record {
  fails = λ i. false;
  misses = λ i. false;
  seconds = λ i. i;
  sent_anyway = λ i. 0;
  indeterminate = λ i. 0;
  random = λ i n. replicate n i;
  CipherCtx = Bytes × Bytes;
  cipher_ctx = ([], []);
  encrypt_init_cipher = λ c. c;
  decrypt_init_cipher = λ c. c;
  set_ivlen = λ n c. c;
  encrypt_init_key = λ key nonce c. (key ++ nonce, []);
  decrypt_init_key = λ key nonce c. (key ++ nonce, []);
  encrypt_update = λ d c. (d, (c.0, d ++ c.0));
  decrypt_update = λ d c. (d, (c.0, d ++ c.0));
  encrypt_final = λ c. ([], c);
  get_tag = λ n c. pad n c.1;
  set_tag = λ tag c. (misfit (bytes_eq tag (pad 16 c.1)), c.1);
  decrypt_final = λ c. verdict c.0;
  pbkdf2 = λ pw salt rounds n. pad n (pw ++ salt);
  HkdfCtx = Bytes;
  hkdf_ctx = [];
  set_hkdf_md = λ c. c;
  set_hkdf_salt = λ salt c. c;
  set_hkdf_key = λ key c. key;
  add_hkdf_info = λ info c. c;
  derive = λ n c. pad n c;
  ed25519_keygen = λ h. (replicate 32 h, replicate 32 h);
  takes_private_key = λ key. length key == 32;
  takes_public_key = λ key. length key == 32;
  ed25519_sign = λ key msg. pad 64 (key ++ msg);
  ed25519_verify = λ key msg sig. bytes_eq sig (pad 64 (key ++ msg));
  sha256 = λ b. pad 32 b;
  length_public_key = 4;
  length_secret_key = 4;
  length_ciphertext = 4;
  length_shared_secret = 4;
  kem_keypair = λ i. (replicate 4 i, replicate 4 i);
  kem_encaps = λ j pk. (pad 4 pk, pad 4 pk);
  kem_decaps = λ ct sk. ct;
}

pub toy-Healthy : Healthy toy
toy-Healthy i = refl

pub toy-GcmLaws : GcmLaws ⦃p = toy⦄
toy-GcmLaws = record {
  length_body = λ key nonce plaintext. refl;
  final_empty = λ key nonce plaintext. refl;
  length_tag = λ key nonce plaintext. length-pad 16 _;
  opens = λ key nonce plaintext. refl;
  fits = λ key nonce plaintext.
      let tag = pad 16 (plaintext ++ (key ++ nonce)) in
      ap (λ b. verdict (misfit b)) ((bytes_eq_iff tag tag).1 refl);
}

pub toy-length_random : (i n : ℕ) → length (toy.random i n) ≡ n
toy-length_random i n = length-replicate n i

abbrev pub machine : Machine
machine = record { calls = 0; next = 1; live = []; corrupt = false; disk = λ path. none }

abbrev pub world : {S : Type 0} → S → World S
world obj = record { machine = machine; obj = obj }

-- A field: its bytes plus one, and a zero.
abbrev pub put : Bytes → Bytes → Bytes
put [] rest = 0 ∷ rest
put (b ∷ bs) rest = suc b ∷ put bs rest

abbrev pub got : ℕ → Bytes × Bytes → Bytes × Bytes
got b (field, rest) = (b ∷ field, rest)

abbrev pub get : Bytes → Bytes × Bytes
get [] = ([], [])
get (zero ∷ rest) = ([], rest)
get (suc b ∷ rest) = got b (get rest)

get-put : (field rest : Bytes) → get (put field rest) ≡ (field, rest)
get-put [] rest = refl
get-put (b ∷ field) rest = ap (got b) (get-put field rest)

length-put : (field rest : Bytes) → length (put field rest) ≡ length field + suc (length rest)
length-put [] rest = omega arith
length-put (b ∷ field) rest = omega (arith, length-put field rest)

abbrev pub word : Bytes → ℕ
word [] = 0
word (n ∷ rest) = n

abbrev pub three : Bytes → Bytes → Bytes → ℕ → Bytes
three a b c n = put a (put b (put c (n ∷ [])))

abbrev pub fields : Bytes → Bytes × Bytes × Bytes × ℕ
fields s = let (a, s1) = get s in let (b, s2) = get s1 in let (c, s3) = get s2 in (a, b, c, word s3)

fields-three : (a b c : Bytes) (n : ℕ) → fields (three a b c n) ≡ (a, b, c, n)
fields-three a b c n = simp (get-put) refl

abbrev hello_of : Bytes × Bytes × Bytes × ℕ → HandshakeHello
hello_of (a, b, c, n) = record {
  kem_public_key = a;
  version = n;
  identity_pub = b;
  identity_sig = c;
}

abbrev response_of : Bytes × Bytes × Bytes × ℕ → HandshakeResponse
response_of (a, b, c, n) = record {
  kem_ciphertext = a;
  version = n;
  identity_pub = b;
  identity_sig = c;
}

abbrev chat_of : Bytes × Bytes × Bytes × ℕ → ChatMessage
chat_of (a, b, c, n) = record {
  sender_id = a;
  encrypted_content = b;
  nonce = c;
  timestamp_unix = n;
}

abbrev envelope_of : ℕ → Bytes × Bytes × Bytes × ℕ → Envelope
envelope_of v (a, b, c, n) = record {
  version = v;
  to_username = a;
  sender_pubkey = b;
  payload_e2e = c;
  client_timestamp = n;
}

abbrev tail : Bytes → Bytes
tail [] = []
tail (n ∷ rest) = rest

-- Fields one behind the other.
abbrev pub toy_proto : Protobuf
toy_proto = record {
  serialize_hello = λ m. some (three m.kem_public_key m.identity_pub m.identity_sig m.version);
  parse_hello = λ s. some (hello_of (fields s));
  serialize_response = λ m. some (three m.kem_ciphertext m.identity_pub m.identity_sig m.version);
  parse_response = λ s. some (response_of (fields s));
  serialize_chat = λ m. some (three m.sender_id m.encrypted_content m.nonce m.timestamp_unix);
  parse_chat = λ s. some (chat_of (fields s));
  serialize_envelope =
      λ m. some (m.version ∷ three m.to_username m.sender_pubkey m.payload_e2e m.client_timestamp);
  parse_envelope = λ s. some (envelope_of (word s) (fields (tail s)));
  is_utf8 = λ s. true;
}

length-three :
    (a b c : Bytes) (n : ℕ) → length (three a b c n) ≤ length a + length b + length c + 99
length-three a b c n = omega (
  arith,
  length-put a (put b (put c (n ∷ []))),
  length-put b (put c (n ∷ [])),
  length-put c (n ∷ []),
)

pub toy-ProtobufLaws : ProtobufLaws ⦃g = toy_proto⦄
toy-ProtobufLaws = record {
  hello = λ m small. (_, refl, ap (λ f. some (hello_of f)) (fields-three _ _ _ _));
  response = λ m small. (_, refl, ap (λ f. some (response_of f)) (fields-three _ _ _ _));
  chat = λ m utf8 small. (
    (_, refl, ap (λ f. some (chat_of f)) (fields-three _ _ _ _)),
    omega (arith, length-three m.sender_id m.encrypted_content m.nonce m.timestamp_unix),
  );
  envelope =
      λ m utf8 small. (_, refl, ap (λ f. some (envelope_of m.version f)) (fields-three _ _ _ _));
}

abbrev size : Option Bytes → ℕ
size none = 0
size (some b) = length b

pub toy-EnvelopeSizes : EnvelopeSizes ⦃g = toy_proto⦄
toy-EnvelopeSizes = record {
  written = λ m b e. omega (
    arith,
    ap size e,
    length-three m.to_username m.sender_pubkey m.payload_e2e m.client_timestamp,
  );
}
