-- ===== src/Words.antt =====
-- 32-bit words as the files and the frames hold them: `htonl` and `ntohl`, four bytes with the
-- highest first.
use pqc_messaging_app.Prelude.{ℕ, ◌+◌, ◌*◌, ◌/◌, ◌%◌, ◌^◌, ◌<◌, ◌≡◌, [], ◌∷◌, Bytes, arith}

-- The memory of `htonl(static_cast<uint32_t>(n))`.
unfoldable pub htonl : ℕ → Bytes
htonl n = n / 16777216 % 256 ∷ n / 65536 % 256 ∷ n / 256 % 256 ∷ n % 256 ∷ []

-- `ntohl` of four bytes of memory.
unfoldable pub ntohl : Bytes → ℕ
ntohl (a ∷ b ∷ c ∷ d ∷ _) = a * 16777216 + b * 65536 + c * 256 + d
ntohl _ = 0

-- `ntohl` reads back every number below 2^32 that `htonl` wrote.
pub ntohl-htonl : (n : ℕ) → n < 2 ^ 32 → ntohl (htonl n) ≡ n
unfolding ntohl htonl
ntohl-htonl n h = omega arith
