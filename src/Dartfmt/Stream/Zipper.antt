-- ===== src/Dartfmt/Stream/Zipper.antt =====
-- A valid stream is the bytes before its position and the bytes from it on. The laws of the reads
-- are stated on such a pair of lists.
use aotopsy.Base.{ℕ, ◌+◌, ◌≤◌, ◌<◌, ◌^◌, ◌≡◌, refl, ap, arith}
use aotopsy.Base.{List, [], ◌∷◌, ◌++◌, some, length, take, drop, get_elem?}
use aotopsy.Base.{length-append, length-take, take-append-drop}
use aotopsy.Base.Int.{pos, add_int-pos}
use aotopsy.Dartfmt.Stream.{Stream, done, failed, eof}
use aotopsy.Dartfmt.Stream.{read_byte, slice, read_bytes}
use mathlib.Core.List.{append_assoc}

-- The Go heap holds fewer than 2 ^ 62 bytes, so no position wraps.
abbrev pub Fits : List ℕ → Type 0
Fits bytes = length bytes < 2 ^ 62

-- What NewStream and NewStreamAt build, and every read keeps: the position lies within the bytes.
pub record IsValid (s : Stream) : Type 0 where
  pub whole : s.end ≡ length s.bytes
  pub offset : ℕ
  pub placed : s.position ≡ pos offset
  pub within : offset ≤ length s.bytes
  pub fits : Fits s.bytes

-- The stream over `before ++ after` that has read `before`.
abbrev pub cut : List ℕ → List ℕ → Stream
cut before after = record {
  bytes = before ++ after;
  position = pos (length before);
  end = length (before ++ after);
}

pub get_elem?-middle {ℓ} :
    {A : Type ℓ} (xs : List A) (x : A) (ys : List A)
    → get_elem? (xs ++ (x ∷ ys)) (length xs) ≡ some x
get_elem?-middle [] x ys = refl
get_elem?-middle (_ ∷ xs) x ys = get_elem?-middle xs x ys

drop-prefix {ℓ} : {A : Type ℓ} (xs ys : List A) → drop (length xs) (xs ++ ys) ≡ ys
drop-prefix [] ys = refl
drop-prefix (_ ∷ xs) ys = drop-prefix xs ys

pub take-prefix {ℓ} : {A : Type ℓ} (xs ys : List A) → take (length xs) (xs ++ ys) ≡ xs
take-prefix [] ys = refl
take-prefix (x ∷ xs) ys = ap (λ l. x ∷ l) (take-prefix xs ys)

-- Moving the border between the two lists.
pub cut-shift :
    (before taken after : List ℕ)
    → cut (before ++ taken) after ≡ record {
      bytes = before ++ (taken ++ after);
      position = pos (length before + length taken);
      end = length (before ++ (taken ++ after));
    }
cut-shift before taken after = rw (append_assoc before taken after, length-append before taken)

pub read_byte-cut :
    (before : List ℕ) (b : ℕ) (after : List ℕ)
    → Fits (before ++ (b ∷ after))
    → read_byte (cut before (b ∷ after)) ≡ done b (cut (before ++ (b ∷ [])) after)
unfolding read_byte
read_byte-cut before b after fits = ground (
  arith,
  get_elem?-middle before b after,
  length-append before (b ∷ after),
  length-append before (b ∷ []),
  append_assoc before (b ∷ []) after,
  add_int-pos (length before) 1,
)

pub read_byte-end : (before : List ℕ) → read_byte (cut before []) ≡ failed eof (cut before [])
unfolding read_byte
read_byte-end before = ground (arith, length-append before [])

pub length-between :
    (before taken after : List ℕ)
    → length (before ++ (taken ++ after)) ≡ length before + length taken + length after
length-between before taken after =
    omega (arith, length-append before (taken ++ after), length-append taken after)

pub slice-between :
    (before taken after : List ℕ) (to : ℕ)
    → to ≡ length before + length taken
    → slice (before ++ (taken ++ after)) (pos (length before)) (pos to) ≡ some taken
unfolding slice
slice-between before taken after to e = ground (
  arith,
  length-between before taken after,
  drop-prefix before (taken ++ after),
  take-prefix taken after,
)

pub read_bytes-cut :
    (before taken after : List ℕ)
    → Fits (before ++ (taken ++ after))
    → read_bytes (pos (length taken)) (cut before (taken ++ after))
      ≡ done taken (cut (before ++ taken) after)
unfolding read_bytes
read_bytes-cut before taken after fits = ground (
  arith,
  slice-between before taken after (length before + length taken),
  length-between before taken after,
  length-append before taken,
  append_assoc before taken after,
  add_int-pos (length before) (length taken),
)

pub read_bytes-eof :
    (before after : List ℕ) (n : ℕ)
    → Fits (before ++ after)
    → length after < n
    → n < 2 ^ 62
    → read_bytes (pos n) (cut before after) ≡ failed eof (cut before after)
unfolding read_bytes
read_bytes-eof before after n fits short small =
    ground (arith, length-append before after, add_int-pos (length before) n)

-- Every valid stream is such a cut.
pub valid-cut :
    {s : Stream} (v : IsValid s) → s ≡ cut (take v.offset s.bytes) (drop v.offset s.bytes)
valid-cut {s} v = ground (arith, take-append-drop v.offset s.bytes, length-take v.offset s.bytes)

pub cut-IsValid : (before after : List ℕ) → Fits (before ++ after) → IsValid (cut before after)
cut-IsValid before after fits = record {
  whole = refl;
  offset = length before;
  placed = refl;
  within = omega (arith, length-append before after);
  fits = fits;
}
