-- ===== src/Dartfmt/Varint/Decode.antt =====
-- What the varint readers return on every input: data bytes that stop at a terminator, and the
-- ways a number can be cut short or be too long.
use Prim.Native.Nat.{bit_or}
use aotopsy.Base.{All, ℕ, zero, suc, ◌+◌, ◌-◌, ◌*◌, ◌%◌, ◌^◌, ◌≤◌, ◌<◌, ◌≡◌, sym, ap, ◌∙◌, arith}
use aotopsy.Base.{List, [], ◌∷◌, ◌++◌, length, dec_lt}
use aotopsy.Base.Bits.{bit_or-shl64}
use aotopsy.Base.Int.{ℤ, sub_ℕ, signed64, pattern64}
use aotopsy.Dartfmt.Stream.{Stream, Step, done, failed, eof, overrun}
use aotopsy.Dartfmt.Stream.Zipper.{cut, Fits, read_byte-cut, read_byte-end}
use aotopsy.Dartfmt.Varint.{shl64, read_varint_loop, read_varint}
use mathlib.Core.List.{append_assoc, append-nil}
use native.Mathlib.Nat.{add-zero, mul-le-mul_right, pow-le-pow_right}
use native.Mathlib.Numerals.{towards_suc}

abbrev pub IsData : ℕ → Type 0
IsData b = b < 128

-- A byte that ends a number.
abbrev pub IsTerminator : ℕ → Type 0
IsTerminator b = (128 ≤ b) × (b < 256)

-- The number that data bytes carry, seven bits each, lowest first.
abbrev pub payload : List ℕ → ℕ
payload [] = 0
payload (d ∷ ds) = d + 128 * payload ds

times_128 : (s : ℕ) → 2 ^ (s + 7) ≡ 128 * 2 ^ s
times_128 s = simp towards_suc (omega arith)

-- One data byte more in the accumulator, as the loop writes it and as a sum.
take_group :
    (b r s j : ℕ)
    → s ≡ 7 * j
    → j ≤ 8
    → b < 128
    → r < 2 ^ s
    → (bit_or r (shl64 b s) ≡ r + b * 2 ^ s) × (r + b * 2 ^ s < 2 ^ (s + 7))
take_group b r s j e hj hb hr =
    let group : suc b * 2 ^ s ≤ 128 * 2 ^ s = mul-le-mul_right (2 ^ s) hb in
    let top : 2 ^ (s + 7) ≤ 2 ^ 63 = pow-le-pow_right (omega arith) {j = 63} (omega arith) in
    (
      bit_or-shl64 s (64 - s) b r (omega arith) hr ∙ omega (arith, group, top, times_128 s),
      omega (arith, group, times_128 s),
    )

-- The value that a number's terminator `t` adds at bit `top`, on 64 bits.
abbrev pub assemble : ℕ → ℕ → ℕ → ℕ → ℤ
assemble marker low t top = signed64 ((low + pattern64 (sub_ℕ t marker) * 2 ^ top) % 2 ^ 64)

module _ (fuel marker max b r s : ℕ) (before after : List ℕ) where
  step_terminator :
      (t : ℕ)
      → IsTerminator t
      → Fits (before ++ (t ∷ after))
      → read_varint_loop (suc fuel) marker max b r s (cut before (t ∷ after))
        ≡ done
            (signed64 (bit_or (bit_or r (shl64 b s)) (shl64 (pattern64 (sub_ℕ t marker)) (s + 7))))
            (cut (before ++ (t ∷ [])) after)
  unfolding read_varint_loop
  step_terminator t ht fits = ground (arith, read_byte-cut before t after)

  step_data :
      (d : ℕ)
      → d < 128
      → s + 7 < max
      → Fits (before ++ (d ∷ after))
      → read_varint_loop (suc fuel) marker max b r s (cut before (d ∷ after))
        ≡ read_varint_loop fuel marker max d
            (bit_or r (shl64 b s))
            (s + 7)
            (cut (before ++ (d ∷ [])) after)
  unfolding read_varint_loop
  step_data d hd hs fits = ground (arith, read_byte-cut before d after)

  step_overrun :
      (d : ℕ)
      → d < 128
      → max ≤ s + 7
      → Fits (before ++ (d ∷ after))
      → read_varint_loop (suc fuel) marker max b r s (cut before (d ∷ after))
        ≡ failed overrun (cut (before ++ (d ∷ [])) after)
  unfolding read_varint_loop
  step_overrun d hd hs fits = ground (arith, read_byte-cut before d after)

  step_eof :
      read_varint_loop (suc fuel) marker max b r s (cut before []) ≡ failed eof (cut before [])
  unfolding read_varint_loop
  step_eof = ground (arith, read_byte-end before)

-- The terminator's bits join the accumulator, for a low part that the data bytes have filled.
close_number :
    (b r s j top x : ℕ)
    → s ≡ 7 * j
    → j ≤ 8
    → top ≡ s + 7
    → b < 128
    → r < 2 ^ s
    → bit_or (bit_or r (shl64 b s)) (shl64 x (s + 7)) ≡ (r + b * 2 ^ s + x * 2 ^ top) % 2 ^ 64
close_number b r s j top x e hj et hb hr =
    let (joined, low) = take_group b r s j e hj hb hr in
    rw (joined, et) (bit_or-shl64 (s + 7) (64 - (s + 7)) x (r + b * 2 ^ s) (omega arith) low)

next_group :
    (b d s r p : ℕ)
    → r + b * 2 ^ s + (d + 128 * p) * 2 ^ (s + 7) ≡ r + (b + 128 * (d + 128 * p)) * 2 ^ s
next_group b d s r p = omega (arith, ap (λ (t : ℕ). (d + 128 * p) * t) (times_128 s))

loop_reads :
    (ds : List ℕ) (fuel marker max b r s j top t : ℕ) (before after : List ℕ)
    → s ≡ 7 * j
    → top ≡ s + 7 * (length ds + 1)
    → s + 7 * length ds < max
    → max ≤ 63
    → length ds < fuel
    → b < 128
    → All IsData ds
    → IsTerminator t
    → r < 2 ^ s
    → Fits (before ++ (ds ++ (t ∷ after)))
    → read_varint_loop fuel marker max b r s (cut before (ds ++ (t ∷ after)))
      ≡ done
          (assemble marker (r + payload (b ∷ ds) * 2 ^ s) t top)
          (cut (before ++ (ds ++ (t ∷ []))) after)
loop_reads ds zero marker max b r s j top t before after e et hs hm hf hb hd ht hr fits =
    absurd (omega arith)
loop_reads [] (suc fuel) marker max b r s j top t before after e et hs hm hf hb hd ht hr fits =
    step_terminator fuel marker max b r s before after t ht fits
    ∙ ap (λ (w : ℕ). done (signed64 w) (cut (before ++ (t ∷ [])) after))
        (close_number b r s j top (pattern64 (sub_ℕ t marker)) e (omega arith) (omega arith) hb hr
          ∙ rw add-zero)
loop_reads (d ∷ ds) (suc fuel) marker max b r s j top t before after e et hs hm hf hb hd ht hr
      fits =
    let (joined, low) = take_group b r s j e (omega arith) hb hr in
    let rest : List ℕ = ds ++ (t ∷ after) in
    let moved : (before ++ (d ∷ [])) ++ rest ≡ before ++ (d ∷ rest) =
      append_assoc before (d ∷ []) rest in
    step_data fuel marker max b r s before rest d hd.0 (omega arith) fits
    ∙ rw joined (
        loop_reads ds fuel marker max d (r + b * 2 ^ s) (s + 7) (j + 1) top t (before ++ (d ∷ []))
          after (omega arith) (omega arith) (omega arith) hm (omega arith) hd.0 hd.1 ht low
          (rw moved fits)
        ∙ rw (next_group b d s r (payload ds), append_assoc before (d ∷ []) (ds ++ (t ∷ []))))

-- The value of a number read from data bytes and a terminator, on 64 bits.
abbrev pub varint_value : ℕ → List ℕ → ℕ → ℤ
varint_value marker ds t = assemble marker (payload ds) t (7 * length ds)

no_groups :
    (marker t : ℕ) → marker < 256 → IsTerminator t → varint_value marker [] t ≡ sub_ℕ t marker
no_groups marker t hm ht = ground arith

-- The first byte of a longer number only starts the loop.
read_varint-enter :
    (marker max d : ℕ) (before after : List ℕ)
    → d < 128
    → Fits (before ++ (d ∷ after))
    → read_varint marker max (cut before (d ∷ after))
      ≡ read_varint_loop (max + 1) marker max d 0 0 (cut (before ++ (d ∷ [])) after)
unfolding read_varint
read_varint-enter marker max d before after hd fits = ground (arith, read_byte-cut before d after)

pub read_varint-decodes :
    (marker max t : ℕ) (ds before after : List ℕ)
    → marker < 256
    → 0 < max
    → max ≤ 63
    → All IsData ds
    → IsTerminator t
    → 7 * length ds < max + 7
    → Fits (before ++ (ds ++ (t ∷ after)))
    → read_varint marker max (cut before (ds ++ (t ∷ after)))
      ≡ done (varint_value marker ds t) (cut (before ++ (ds ++ (t ∷ []))) after)
unfolding read_varint
read_varint-decodes marker max t [] before after hk hp hm hd ht hs fits =
    ground (arith, read_byte-cut before t after, no_groups marker t)
read_varint-decodes marker max t (d ∷ ds) before after hk hp hm hd ht hs fits =
    let rest : List ℕ = ds ++ (t ∷ after) in
    let moved : (before ++ (d ∷ [])) ++ rest ≡ before ++ (d ∷ rest) =
      append_assoc before (d ∷ []) rest in
    read_varint-enter marker max d before rest hd.0 fits
    ∙ loop_reads ds (max + 1) marker max d 0 0 0 (7 * length (d ∷ ds)) t (before ++ (d ∷ [])) after
        (omega arith) (omega arith) (omega arith) hm (omega arith) hd.0 hd.1 ht (omega arith)
        (rw moved fits)
    ∙ rw (append_assoc before (d ∷ []) (ds ++ (t ∷ []))) (
        ap
          (λ (w : ℕ).
            done (assemble marker w t (7 * length (d ∷ ds)))
              (cut (before ++ (d ∷ (ds ++ (t ∷ [])))) after))
          (omega arith))

loop_overruns :
    (ds : List ℕ) (fuel marker max b r s : ℕ) (before after : List ℕ)
    → s < max
    → max ≤ s + 7 * length ds
    → max < s + fuel
    → All IsData ds
    → Fits (before ++ (ds ++ after))
    → (place : Stream) × (read_varint_loop fuel marker max b r s (cut before (ds ++ after))
        ≡ failed overrun place)
loop_overruns [] fuel marker max b r s before after hs ho hf hd fits = absurd (omega arith)
loop_overruns (d ∷ ds) zero marker max b r s before after hs ho hf hd fits = absurd (omega arith)
loop_overruns (d ∷ ds) (suc fuel) marker max b r s before after hs ho hf hd fits =
    elim (dec_lt (s + 7) max) [
      | yes more ↦
          let (place, e) =
            loop_overruns ds fuel marker max d (bit_or r (shl64 b s)) (s + 7) (before ++ (d ∷ []))
              after more (omega arith) (omega arith) hd.1
              (rw (append_assoc before (d ∷ []) (ds ++ after)) fits) in
          (place, step_data fuel marker max b r s before (ds ++ after) d hd.0 more fits ∙ e)
      | no full ↦
          (_, step_overrun fuel marker max b r s before (ds ++ after) d hd.0 (omega arith) fits)
    ]

loop_starves :
    (ds : List ℕ) (fuel marker max b r s : ℕ) (before : List ℕ)
    → s + 7 * length ds < max
    → length ds < fuel
    → All IsData ds
    → Fits (before ++ ds)
    → read_varint_loop fuel marker max b r s (cut before ds) ≡ failed eof (cut (before ++ ds) [])
loop_starves ds zero marker max b r s before hs hf hd fits = absurd (omega arith)
loop_starves [] (suc fuel) marker max b r s before hs hf hd fits =
    step_eof fuel marker max b r s before []
    ∙ ap {B = Step ℤ} (λ w. failed eof (cut w [])) (sym (append-nil before))
loop_starves (d ∷ ds) (suc fuel) marker max b r s before hs hf hd fits =
    step_data fuel marker max b r s before ds d hd.0 (omega arith) fits
    ∙ loop_starves ds fuel marker max d (bit_or r (shl64 b s)) (s + 7) (before ++ (d ∷ []))
        (omega arith) (omega arith) hd.1 (rw (append_assoc before (d ∷ []) ds) fits)
    ∙ rw (append_assoc before (d ∷ []) ds)

-- More data bytes than the width allows are an overrun, whatever follows them.
pub read_varint-overruns :
    (marker max : ℕ) (ds before after : List ℕ)
    → 0 < max
    → max + 7 ≤ 7 * length ds
    → All IsData ds
    → Fits (before ++ (ds ++ after))
    → (place : Stream) × (read_varint marker max (cut before (ds ++ after)) ≡ failed overrun place)
read_varint-overruns marker max [] before after hp ho hd fits = absurd (omega arith)
read_varint-overruns marker max (d ∷ ds) before after hp ho hd fits =
    let (place, e) =
      loop_overruns ds (max + 1) marker max d 0 0 (before ++ (d ∷ [])) after hp (omega arith)
        (omega arith) hd.1 (rw (append_assoc before (d ∷ []) (ds ++ after)) fits) in
    (place, read_varint-enter marker max d before (ds ++ after) hd.0 fits ∙ e)

-- Input that ends inside a number is the end-of-data error, with the position at the end.
pub read_varint-starves :
    (marker max : ℕ) (ds before : List ℕ)
    → 7 * length ds < max + 7
    → All IsData ds
    → Fits (before ++ ds)
    → read_varint marker max (cut before ds) ≡ failed eof (cut (before ++ ds) [])
unfolding read_varint
read_varint-starves marker max [] before hs hd fits =
    ground (arith, read_byte-end before, append-nil before)
read_varint-starves marker max (d ∷ ds) before hs hd fits =
    read_varint-enter marker max d before ds hd.0 fits
    ∙ loop_starves ds (max + 1) marker max d 0 0 (before ++ (d ∷ [])) (omega arith) (omega arith)
        hd.1 (rw (append_assoc before (d ∷ []) ds) fits)
    ∙ rw (append_assoc before (d ∷ []) ds)
