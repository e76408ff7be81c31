-- ===== src/Files/Reading.antt =====
-- What reads find in a stream.
use pqc_messaging_app.Prelude.{
  ℕ, zero, suc, ◌^◌, ◌<◌, ◌≤◌, ◌≡◌, refl, ap, ◌∙◌, sym, Bool, true, false, List, [], ◌∷◌, ◌++◌,
  append-nil, Bytes, length, take, drop, replicate, leb, length-append, length-replicate,
  length-take, take-append-drop, take-append_self, drop-append_self, arith,
}
use pqc_messaging_app.Words.{htonl, ntohl, ntohl-htonl}
use pqc_messaging_app.Files.{InStream, read, read_block, read_word}

abbrev pub stream : Bytes → InStream
stream content = record { rest = content; good = true }

drop_all {ℓ} : {A : Type ℓ} (n : ℕ) (xs : List A) → length xs ≤ n → drop n xs ≡ []
drop_all zero [] h = refl
drop_all (suc n) [] h = refl
drop_all zero (x ∷ xs) h = absurd (omega arith)
drop_all (suc n) (x ∷ xs) h = drop_all n xs (omega arith)

-- A read that finds enough gives just that and goes on behind it.
pub read-append :
    (xs ys buf : Bytes)
    → length buf ≡ length xs
    → read (length xs) buf (stream (xs ++ ys)) ≡ (xs, stream ys)
unfolding read
read-append xs ys buf h = rw (
  take-append_self xs ys,
  drop-append_self xs ys,
  enough,
  drop_all (length xs) buf (omega arith),
  append-nil,
)
  where
    enough : leb (length xs) (length (xs ++ ys)) ≡ true
    enough = ground (arith, length-append xs ys)

pub read_block-append :
    (xs ys : Bytes) → read_block (length xs) (stream (xs ++ ys)) ≡ (xs, stream ys)
unfolding read_block
read_block-append xs ys = read-append xs ys _ (length-replicate (length xs) 0)

pub read_word-append :
    (n : ℕ) (ys : Bytes) → n < 2 ^ 32 → read_word (stream (htonl n ++ ys)) ≡ (n, stream ys)
unfolding read_word htonl
read_word-append n ys h =
    ap (λ (r : Bytes × InStream). (ntohl r.0, r.1))
      (read-append (htonl n) ys (0 ∷ 0 ∷ 0 ∷ 0 ∷ []) refl)
    ∙ ap (λ (v : ℕ). (v, stream ys)) (ntohl-htonl n h)

fill :
    (n : ℕ) (buf rest : Bytes)
    → length buf ≡ n
    → n ≤ length rest
    → take n rest ++ drop (length (take n rest)) buf ≡ take n rest
fill n buf rest size enough =
    rw (drop_all (length (take n rest)) buf (omega (arith, length-take n rest)), append-nil)

good_fields :
    (n : ℕ) (buf rest : Bytes) (good : Bool)
    → length buf ≡ n
    → (read n buf (record { rest = rest; good = good })).1.good ≡ true
    → (good ≡ true)
      × (length (read n buf (record { rest = rest; good = good })).0 ≡ n)
      × (rest
          ≡ (read n buf (record { rest = rest; good = good })).0
            ++ (read n buf (record { rest = rest; good = good })).1.rest)
unfolding read
good_fields n buf rest false size good = cc
good_fields n buf rest true size good =
    let enough : n ≤ length rest = ground arith in
    rw (fill n buf rest size enough)
      (refl, omega (arith, length-take n rest), sym (take-append-drop n rest))

-- A stream that is good after a read was good before, and the read got all that it asked for.
pub read-good :
    (n : ℕ) (buf : Bytes) (f : InStream)
    → length buf ≡ n
    → (read n buf f).1.good ≡ true
    → (f.good ≡ true)
      × (length (read n buf f).0 ≡ n)
      × (f.rest ≡ (read n buf f).0 ++ (read n buf f).1.rest)
read-good n buf f size good = good_fields n buf f.rest f.good size good

pub read_block-good :
    (n : ℕ) (f : InStream)
    → (read_block n f).1.good ≡ true
    → (f.good ≡ true)
      × (length (read_block n f).0 ≡ n)
      × (f.rest ≡ (read_block n f).0 ++ (read_block n f).1.rest)
unfolding read_block
read_block-good n f good = read-good n (replicate n 0) f (length-replicate n 0) good

pub read_word-good :
    (f : InStream)
    → (read_word f).1.good ≡ true
    → (word : Bytes) × (f.good ≡ true)
      × (length word ≡ 4)
      × (ntohl word ≡ (read_word f).0)
      × (f.rest ≡ word ++ (read_word f).1.rest)
unfolding read_word
read_word-good f good =
    let zeros : Bytes = 0 ∷ 0 ∷ 0 ∷ 0 ∷ [] in
    let g = read-good 4 zeros f refl good in ((read 4 zeros f).0, g.0, g.1, refl, g.2)
