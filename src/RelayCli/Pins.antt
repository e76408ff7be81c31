-- ===== src/RelayCli/Pins.antt =====
-- relay_cli.cpp: trust on first use. pins.txt holds the fingerprint that was first seen for a relay
-- and a room.
pub mod Words
pub mod Trust
use pqc_messaging_app.Prelude.{
  String, Bool, true, false, not, Option, none, some, List, [], ◌∷◌, ◌++◌, ◌&&◌, Bytes, codes,
  bytes_eq, is_empty, if◌then◌else◌,
}
use pqc_messaging_app.Exec.{ok, World, M, pure, ◌>>=◌, ◌>>◌}
use pqc_messaging_app.Platform.{Platform}
use pqc_messaging_app.Platform.Calls.{counted}
use pqc_messaging_app.Files.{InStream, open_in, on_disk}
use pqc_messaging_app.Relay.Url.{is_space}

abbrev pub end_word : Bytes → List Bytes → List Bytes
end_word [] later = later
end_word (c ∷ word) later = (c ∷ word) ∷ later

-- The words that `>>` reads from a stream, one after the other, after the characters `word`.
unfoldable pub words_from : Bytes → Bytes → List Bytes
words_from word [] = end_word word []
words_from word (c ∷ s) =
    let next = words_from [] s in
    let longer = words_from (word ++ (c ∷ [])) s in
    if is_space c then end_word word next else longer

-- `while (f >> k >> v)`
unfoldable pub pairs : List Bytes → List (Bytes × Bytes)
pairs (k ∷ v ∷ later) = (k, v) ∷ pairs later
pairs _ = []

unfoldable pub find_pin : Bytes → List (Bytes × Bytes) → Option Bytes
find_pin key [] = none
find_pin key ((k, v) ∷ later) =
    let rest = find_pin key later in if bytes_eq k key then some v else rest

-- What is read of a stream; nothing of one that could not be opened.
unfoldable pub read_pins : Option InStream → List (Bytes × Bytes)
unfolding words_from pairs
read_pins none = []
read_pins (some f) = pairs (words_from [] f.rest)

abbrev pub or_empty : Option Bytes → Bytes
or_empty none = []
or_empty (some v) = v

abbrev pub pins_path : String
pins_path = "pins.txt"

-- `f << key << " " << val << "\n";`
abbrev pub pin_line : Bytes → Bytes → Bytes
pin_line key val = (key ++ (32 ∷ val)) ++ (10 ∷ [])

module _ ⦃p : Platform⦄ {S : Type 0} where
  unfoldable pub load_pin : Bytes → M S Bytes
  unfolding read_pins find_pin
  load_pin key = do f ← open_in pins_path; pure (or_empty (find_pin key (read_pins f)))

  -- `std::ofstream f("pins.txt", std::ios::app);` and what is written to it; nobody is told where
  -- it cannot be.
  unfoldable pub append_file : String → Bytes → M S Unit
  append_file path bytes w =
      if p.fails w.calls
      then (ok tt, counted w)
      else (ok tt, on_disk path (or_empty (w.disk path) ++ bytes) (counted w))

  unfoldable pub save_unless : Option Bytes → Bytes → Bytes → M S Unit
  unfolding append_file
  save_unless none key val = append_file pins_path (pin_line key val)
  save_unless (some v) key val = pure tt

  unfoldable pub save_pin : Bytes → Bytes → M S Unit
  unfolding save_unless read_pins find_pin
  save_pin key val = do f ← open_in pins_path; save_unless (find_pin key (read_pins f)) key val

  -- Whether the program goes on with the peer.
  unfoldable pub check_peer : Bytes → Bytes → M S Bool
  unfolding load_pin save_pin
  check_peer key peer_fp = do
    pinned ← load_pin key
    if not (is_empty pinned) && not (bytes_eq pinned peer_fp)
        then pure false
        else ((if is_empty pinned then save_pin key peer_fp else pure tt) >> pure true)
