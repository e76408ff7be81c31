-- ===== src/Files.antt =====
-- std::ifstream and std::ofstream in binary mode, as the identity store uses them.
pub mod Reading
use pqc_messaging_app.Prelude.{
  ℕ, suc, String, Bool, true, false, Option, none, some, List, [], ◌++◌, Bytes, length, take, drop,
  replicate, ◌∷◌, leb, if◌then◌else◌,
}
use text.Mathlib.Text.{◌==◌ as str_eq}
use pqc_messaging_app.Exec.{ok, World, M}
use pqc_messaging_app.Words.{ntohl}
use pqc_messaging_app.Platform.{Platform}
use pqc_messaging_app.Platform.Calls.{counted}

-- What is not read yet, and `good()`.
pub record InStream : Type 0 where
  pub rest : Bytes
  pub good : Bool

-- `f.read(buf, n)`: the buffer after it. A read that finds too little takes what is there and sets
-- `failbit` and `eofbit`; from then on reads change nothing.
unfoldable pub read : ℕ → Bytes → InStream → Bytes × InStream
read n buf f =
    if f.good
    then (
      take n f.rest ++ drop (length (take n f.rest)) buf,
      record { rest = drop n f.rest; good = leb n (length f.rest) },
    )
    else (buf, f)

-- The file, what the stream's buffer holds for it, and `good()`.
pub record OutStream : Type 0 where
  pub path : String
  pub pending : Bytes
  pub good : Bool

abbrev pub put_file : (String → Option Bytes) → String → Bytes → String → Option Bytes
put_file disk path content other = if str_eq path other then some content else disk other

-- A buffer of n zero bytes, `std::vector<uint8_t> v(n)`, read into.
unfoldable pub read_block : ℕ → InStream → Bytes × InStream
read_block n f = read n (replicate n 0) f

-- `uint32_t v = 0; f.read(&v, 4); v = ntohl(v);`
unfoldable pub read_word : InStream → ℕ × InStream
read_word f = let (b, f') = read 4 (0 ∷ 0 ∷ 0 ∷ 0 ∷ []) f in (ntohl b, f')

abbrev pub opened_file : Option Bytes → Option InStream
opened_file none = none
opened_file (some content) = some (record { rest = content; good = true })

abbrev pub is_some : Option Bytes → Bool
is_some none = false
is_some (some content) = true

module _ {S : Type 0} where
  abbrev pub on_disk : String → Bytes → World S → World S
  on_disk path content w = record w {
    machine = record w.machine { disk = put_file w.disk path content };
  }

module _ ⦃p : Platform⦄ {S : Type 0} where
  -- `std::filesystem::exists(path)`
  unfoldable pub exists : String → M S Bool
  exists path w = (ok (is_some (w.disk path)), w)

  -- `std::ifstream f(path, std::ios::binary)`; `none` where `!f`.
  unfoldable pub open_in : String → M S (Option InStream)
  open_in path w =
      if p.fails w.calls then (ok none, counted w) else (ok (opened_file (w.disk path)), counted w)

  -- `std::ofstream f(path, std::ios::binary | std::ios::trunc)`; `none` where `!f`.
  unfoldable pub open_out : String → M S (Option OutStream)
  open_out path w = if p.fails w.calls then (ok none, counted w) else (
    ok (some (record { path = path; pending = []; good = true })),
    on_disk path [] (counted w),
  )

  -- `f.write(bytes)`: the bytes go to the stream's buffer. A refusal, where the buffer had to be
  -- written out and could not, sets `badbit`; from then on writes change nothing.
  unfoldable pub write : Bytes → OutStream → M S OutStream
  write bytes f w =
      if f.good
      then (if p.fails w.calls
          then (ok (record f { good = false }), counted w)
          else (ok (record f { pending = f.pending ++ bytes }), counted w))
      else (ok f, w)

  -- The destructor writes the buffer out, and tells nobody where it cannot.
  unfoldable pub close_out : OutStream → M S Unit
  close_out f w =
      if p.fails w.calls then (ok tt, counted w) else (ok tt, on_disk f.path f.pending (counted w))
