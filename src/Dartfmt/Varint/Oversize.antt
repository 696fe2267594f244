-- ===== src/Dartfmt/Varint/Oversize.antt =====
-- Numbers that do not fit the width that a reader is for.
use aotopsy.Base.{All, ℕ, ◌+◌, ◌-◌, ◌*◌, ◌%◌, ◌^◌, ◌≤◌, ◌<◌, ◌≡◌, refl, ap, ◌∙◌, arith}
use aotopsy.Base.{List, [], ◌∷◌, ◌++◌, length, length-append}
use aotopsy.Base.Int.{ℤ, pos, negsuc, sub_ℕ, signed64, pattern64, to_u32, to_u32-signed64, add_int}
use aotopsy.Dartfmt.Stream.{Stream, done, panicked, ◌>>=◌, read_bytes}
use aotopsy.Dartfmt.Stream.Zipper.{cut, Fits}
use aotopsy.Dartfmt.Varint.{read_unsigned, read_tagged32}
use aotopsy.Dartfmt.Varint.Decode.{IsTerminator, IsData, payload, read_varint-decodes}
use native.Mathlib.Nat.{pow-suc}

payload-lt : (ds : List ℕ) → All IsData ds → payload ds < 128 ^ length ds
payload-lt [] h = omega arith
payload-lt (d ∷ ds) h = omega (arith, pow-suc 128 (length ds), payload-lt ds h.1, h.0)

payload-lt-nine : (ds : List ℕ) → All IsData ds → length ds ≡ 9 → payload ds < 2 ^ 63
payload-lt-nine ds h e = rw e at (payload-lt ds h)

-- The five-byte form of ReadTagged32, as a number.
tagged32_value :
    (p t : ℕ)
    → IsTerminator t
    → to_u32 (signed64 ((p + pattern64 (sub_ℕ t 192) * 2 ^ 28) % 2 ^ 64))
      ≡ (p + (t + 64) * 2 ^ 28) % 2 ^ 32
tagged32_value p t ht = to_u32-signed64 _ (omega arith) ∙ ground arith

tagged32_five :
    (ds before after : List ℕ) (t : ℕ)
    → All IsData ds
    → length ds ≡ 4
    → IsTerminator t
    → Fits (before ++ (ds ++ (t ∷ after)))
    → read_tagged32 (cut before (ds ++ (t ∷ after)))
      ≡ done ((payload ds + (t + 64) * 2 ^ 28) % 2 ^ 32) (cut (before ++ (ds ++ (t ∷ []))) after)
unfolding read_tagged32
tagged32_five ds before after t hd four ht fits =
    let e =
      read_varint-decodes 192 28 t ds before after (omega arith) (omega arith) (omega arith) hd ht
        (omega arith) fits in
    rw (e, ◌>>=◌)
      (ap (λ (w : ℕ). done w (cut (before ++ (ds ++ (t ∷ []))) after))
        (rw four (tagged32_value (payload ds) t ht)))

-- ReadTagged32 does not refuse a number over 32 bits: it keeps the low bits. Five-byte numbers
-- whose terminators differ by 16, which stand for integers 2 ^ 32 apart, read as the same value.
pub read_tagged32_collision :
    (ds before after : List ℕ) (t : ℕ)
    → All IsData ds
    → length ds ≡ 4
    → 128 ≤ t
    → t + 16 < 256
    → Fits (before ++ (ds ++ (t ∷ after)))
    → Fits (before ++ (ds ++ ((t + 16) ∷ after)))
    → (v : ℕ) × (read_tagged32 (cut before (ds ++ (t ∷ after)))
        ≡ done v (cut (before ++ (ds ++ (t ∷ []))) after))
      × (read_tagged32 (cut before (ds ++ ((t + 16) ∷ after)))
          ≡ done v (cut (before ++ (ds ++ ((t + 16) ∷ []))) after))
read_tagged32_collision ds before after t hd four lo hi fits fits' = (
  (payload ds + (t + 64) * 2 ^ 28) % 2 ^ 32,
  tagged32_five ds before after t hd four (omega arith) fits,
  tagged32_five ds before after (t + 16) hd four (omega arith) fits'
      ∙ ap (λ (w : ℕ). done w (cut (before ++ (ds ++ ((t + 16) ∷ []))) after)) (omega arith),
)

unsigned_negative :
    (p t : ℕ)
    → p < 2 ^ 63
    → IsTerminator t
    → t % 2 ≡ 1
    → signed64 ((p + pattern64 (sub_ℕ t 128) * 2 ^ 63) % 2 ^ 64) ≡ negsuc (2 ^ 63 - 1 - p)
unsigned_negative p t hp ht odd = ground arith

-- Nine data bytes and an odd terminator are a negative number to ReadUnsigned.
pub read_unsigned_negative :
    (ds before after : List ℕ) (t : ℕ)
    → All IsData ds
    → length ds ≡ 9
    → IsTerminator t
    → t % 2 ≡ 1
    → Fits (before ++ (ds ++ (t ∷ after)))
    → read_unsigned (cut before (ds ++ (t ∷ after)))
      ≡ done (negsuc (2 ^ 63 - 1 - payload ds)) (cut (before ++ (ds ++ (t ∷ []))) after)
unfolding read_unsigned
read_unsigned_negative ds before after t hd nine ht odd fits =
    read_varint-decodes 128 63 t ds before after (omega arith) (omega arith) (omega arith) hd ht
      (omega arith) fits
    ∙ ap (λ (z : ℤ). done z (cut (before ++ (ds ++ (t ∷ []))) after))
        (rw nine (unsigned_negative (payload ds) t (payload-lt-nine ds hd nine) ht odd))

read_bytes_negative :
    (n : ℕ) (s : Stream) (p : ℕ)
    → s.position ≡ pos p
    → p ≤ s.end
    → n < 2 ^ 63
    → p < 2 ^ 63
    → read_bytes (negsuc n) s ≡ panicked
unfolding read_bytes add_int
read_bytes_negative n s p e h hn hp = rw e (ground arith)

-- A length that is read so panics the read of the bytes that it counts: the pair of calls by which
-- the fill readers take inline bytes has no error to return there.
pub negative_length_panics :
    (ds before after : List ℕ) (t : ℕ)
    → All IsData ds
    → length ds ≡ 9
    → IsTerminator t
    → t % 2 ≡ 1
    → Fits (before ++ (ds ++ (t ∷ after)))
    → (read_unsigned >>= read_bytes) (cut before (ds ++ (t ∷ after))) ≡ panicked
negative_length_panics ds before after t hd nine ht odd fits =
    rw (read_unsigned_negative ds before after t hd nine ht odd fits, ◌>>=◌)
      (read_bytes_negative (2 ^ 63 - 1 - payload ds) (cut (before ++ (ds ++ (t ∷ []))) after)
        (length (before ++ (ds ++ (t ∷ [])))) refl
        (omega (arith, length-append (before ++ (ds ++ (t ∷ []))) after)) (omega arith) (small))
  where
    small : length (before ++ (ds ++ (t ∷ []))) < 2 ^ 63
    small = omega (
      arith,
      length-append before (ds ++ (t ∷ [])),
      length-append ds (t ∷ []),
      length-append before (ds ++ (t ∷ after)),
      length-append ds (t ∷ after),
    )
