-- ===== src/Dartfmt/Varint/RoundTrip.antt =====
-- Numbers that a writer encodes are read back. The writers are those of the Dart SDK's
-- datastream.h, as the comments of internal/dartfmt/stream.go give the encoding; the repository
-- itself has no writer.
use aotopsy.Base.{
  All, ℕ, zero, suc, ◌+◌, ◌-◌, ◌*◌, ◌/◌, ◌%◌, ◌^◌, ◌≤◌, ◌<◌, ◌≡◌, refl, ap, ◌∙◌, arith,
}
use aotopsy.Base.{
  List, [], ◌∷◌, ◌++◌, length, ltb, if◌then◌else◌, lt→ltb, ltb-false, dec_lt, Bool, true,
  Bool-cases, inl, inr,
}
use aotopsy.Base.Int.{ℤ, pos, negsuc, sub_ℕ, signed64, pattern64, to_u32, IsInt64}
use aotopsy.Base.Int.{signed64-pattern64}
use aotopsy.Dartfmt.Stream.{done, ◌>>=◌}
use aotopsy.Dartfmt.Stream.Zipper.{cut, Fits}
use aotopsy.Dartfmt.Varint.{read_varint, read_unsigned, read_tagged32, read_tagged64}
use aotopsy.Dartfmt.Varint.Decode.{IsTerminator, IsData, payload, varint_value, read_varint-decodes}
use mathlib.Core.List.{append_assoc}
use native.Mathlib.Nat.{mul-one, pow-suc}
use native.Mathlib.Numerals.{towards_suc}

-- The low seven bits of an integer, and the integer shifted right by seven.
abbrev pub low7 : ℤ → ℕ
low7 (pos n) = n % 128
low7 (negsuc n) = 127 - n % 128

abbrev pub asr7 : ℤ → ℤ
asr7 (pos n) = pos (n / 128)
asr7 (negsuc n) = negsuc (n / 128)

-- `Encodes marker z ds t`: the data bytes `ds` and the terminator `t` spell `z`.
pub data Encodes (marker : ℕ) : ℤ → List ℕ → ℕ → Type 0 where
  last : {z : ℤ} {t : ℕ} → IsTerminator t → sub_ℕ t marker ≡ z → Encodes marker z [] t
  more :
      {z : ℤ} {ds : List ℕ} {t : ℕ}
      → Encodes marker (asr7 z) ds t
      → Encodes marker z (low7 z ∷ ds) t

Encodes-IsData : {marker : ℕ} {z : ℤ} {ds : List ℕ} {t : ℕ} → Encodes marker z ds t → All IsData ds
Encodes-IsData (last ht e) = tt
Encodes-IsData (more {z} r) = (low7_small z, Encodes-IsData r)
  where
    low7_small : (w : ℤ) → low7 w < 128
    low7_small (pos n) = omega arith
    low7_small (negsuc n) = omega arith

Encodes-IsTerminator :
    {marker : ℕ} {z : ℤ} {ds : List ℕ} {t : ℕ} → Encodes marker z ds t → IsTerminator t
Encodes-IsTerminator (last ht e) = ht
Encodes-IsTerminator (more r) = Encodes-IsTerminator r

pub pattern64_step : (z : ℤ) → pattern64 z ≡ (low7 z + 128 * pattern64 (asr7 z)) % 2 ^ 64
pattern64_step (pos n) = omega arith
pattern64_step (negsuc n) = omega arith

pub pattern64-lt : (z : ℤ) → pattern64 z < 2 ^ 64
pattern64-lt (pos n) = omega arith
pattern64-lt (negsuc n) = omega arith

seven_more : (n : ℕ) → 2 ^ (7 * suc n) ≡ 128 * 2 ^ (7 * n)
seven_more n = let e : 7 * suc n ≡ 7 * n + 7 = omega arith in rw e (simp towards_suc (omega arith))

-- The groups add up to the pattern of the integer that they spell.
Encodes-pattern64 :
    {marker : ℕ} {z : ℤ} {ds : List ℕ} {t : ℕ}
    → Encodes marker z ds t
    → (payload ds + pattern64 (sub_ℕ t marker) * 2 ^ (7 * length ds)) % 2 ^ 64 ≡ pattern64 z
Encodes-pattern64 {marker} {t = t} (last {z = z} ht e) =
    omega (arith, ap pattern64 e, pattern64-lt z, mul-one (pattern64 (sub_ℕ t marker)))
Encodes-pattern64 {marker} (more {z} {ds} {t} r) = omega (
  arith,
  Encodes-pattern64 r,
  pattern64_step z,
  ap (λ (w : ℕ). pattern64 (sub_ℕ t marker) * w) (seven_more (length ds)),
)

varint_value-Encodes :
    {marker : ℕ} {z : ℤ} {ds : List ℕ} {t : ℕ}
    → Encodes marker z ds t
    → IsInt64 z
    → varint_value marker ds t ≡ z
varint_value-Encodes {z = z} r h = ap signed64 (Encodes-pattern64 r) ∙ signed64-pattern64 z h

-- What a writer leaves: data bytes, a terminator, and that they spell `z` in at most `k` groups.
record Spelled (marker : ℕ) (z : ℤ) (k : ℕ) (out : List ℕ) : Type 0 where
  groups : List ℕ
  terminator : ℕ
  written : out ≡ groups ++ (terminator ∷ [])
  spells : Encodes marker z groups terminator
  short : length groups ≤ k

Spelled-more :
    {marker : ℕ} {z : ℤ} {k : ℕ} {out : List ℕ}
    → Spelled marker (asr7 z) k out
    → Spelled marker z (suc k) (low7 z ∷ out)
Spelled-more {z = z} w = record {
  groups = low7 z ∷ w.groups;
  terminator = w.terminator;
  written = ap (λ l. low7 z ∷ l) w.written;
  spells = more w.spells;
  short = omega (arith, w.short);
}

-- WriteUnsigned of the SDK, with at most `k` data bytes.
unfoldable pub write_unsigned : ℕ → ℕ → List ℕ
write_unsigned zero v = (v + 128) ∷ []
write_unsigned (suc k) v =
    let rest = write_unsigned k (v / 128) in if ltb v 128 then (v + 128) ∷ [] else (v % 128) ∷ rest

unsigned_last : (v k : ℕ) → v < 128 → Spelled 128 (pos v) k ((v + 128) ∷ [])
unsigned_last v k h = record {
  groups = [];
  terminator = v + 128;
  written = refl;
  spells = last (omega arith) (ground arith);
  short = omega arith;
}

write_unsigned-Spelled : (k v : ℕ) → v < 128 ^ suc k → Spelled 128 (pos v) k (write_unsigned k v)
unfolding write_unsigned
write_unsigned-Spelled zero v h = unsigned_last v 0 (omega arith)
write_unsigned-Spelled (suc k) v h = elim (dec_lt v 128) [
  | yes p ↦ rw (lt→ltb v 128 p) (unsigned_last v (suc k) p)
  | no p ↦ rw (ltb-false v 128 (omega arith)) (
      Spelled-more {z = pos v}
        (write_unsigned-Spelled k (v / 128) (omega (arith, pow-suc 128 (suc k)))))
]

-- A signed terminator holds -64 to 63.
abbrev pub is_small : ℤ → Bool
is_small (pos n) = ltb n 64
is_small (negsuc n) = ltb n 64

abbrev signed_terminator : ℤ → ℕ
signed_terminator (pos n) = 192 + n
signed_terminator (negsuc n) = 191 - n

-- Write<T> of the SDK, with at most `k` data bytes.
unfoldable pub write_signed : ℕ → ℤ → List ℕ
write_signed zero z = signed_terminator z ∷ []
write_signed (suc k) z =
    let rest = write_signed k (asr7 z) in
    if is_small z then signed_terminator z ∷ [] else low7 z ∷ rest

-- The magnitude that `k` groups and a signed terminator can hold.
abbrev Within : ℕ → ℤ → Type 0
Within k (pos n) = n < 64 * 128 ^ k
Within k (negsuc n) = n < 64 * 128 ^ k

signed_last : (z : ℤ) (k : ℕ) → is_small z ≡ true → Spelled 192 z k (signed_terminator z ∷ [])
signed_last (pos n) k h = record {
  groups = [];
  terminator = 192 + n;
  written = refl;
  spells = last (ground arith) (ground arith);
  short = omega arith;
}
signed_last (negsuc n) k h = record {
  groups = [];
  terminator = 191 - n;
  written = refl;
  spells = last (ground arith) (ground arith);
  short = omega arith;
}

Within-small : (z : ℤ) → Within 0 z → is_small z ≡ true
Within-small (pos n) h = ground arith
Within-small (negsuc n) h = ground arith

Within-asr7 : (z : ℤ) (k : ℕ) → Within (suc k) z → Within k (asr7 z)
Within-asr7 (pos n) k h = omega (arith, pow-suc 128 k)
Within-asr7 (negsuc n) k h = omega (arith, pow-suc 128 k)

write_signed-Spelled : (k : ℕ) (z : ℤ) → Within k z → Spelled 192 z k (write_signed k z)
unfolding write_signed
write_signed-Spelled zero z h = signed_last z 0 (Within-small z h)
write_signed-Spelled (suc k) z h = elim (Bool-cases (is_small z)) [
  | inl p ↦ rw p (signed_last z (suc k) p)
  | inr p ↦ rw p (Spelled-more (write_signed-Spelled k (asr7 z) (Within-asr7 z k h)))
]

-- The reader takes back what a writer with the same marker wrote, and stops just behind it.
read_varint-Spelled :
    (marker max k : ℕ) (z : ℤ) (out before after : List ℕ)
    → Spelled marker z k out
    → IsInt64 z
    → marker < 256
    → 0 < max
    → max ≤ 63
    → 7 * k < max + 7
    → Fits (before ++ (out ++ after))
    → read_varint marker max (cut before (out ++ after)) ≡ done z (cut (before ++ out) after)
read_varint-Spelled marker max k z out before after w hz hk hp hm hs fits =
    let ds : List ℕ = w.groups in
    let t : ℕ = w.terminator in
    let joined : (ds ++ (t ∷ [])) ++ after ≡ ds ++ (t ∷ after) = append_assoc ds (t ∷ []) after in
    rw (w.written, joined)
      (read_varint-decodes marker max t ds before after hk hp hm (Encodes-IsData w.spells)
          (Encodes-IsTerminator w.spells) (omega (arith, w.short)) (rw (← joined, ← w.written) fits)
        ∙ ap (λ (v : ℤ). done v (cut (before ++ (ds ++ (t ∷ []))) after))
            (varint_value-Encodes w.spells hz))

-- The number that WriteUnsigned wrote, up to 2 ^ 63 - 1, is read back by ReadUnsigned, which stops
-- just behind it.
pub read_unsigned-write_unsigned :
    (v : ℕ) (before after : List ℕ)
    → v < 2 ^ 63
    → Fits (before ++ (write_unsigned 8 v ++ after))
    → read_unsigned (cut before (write_unsigned 8 v ++ after))
      ≡ done (pos v) (cut (before ++ write_unsigned 8 v) after)
unfolding read_unsigned
read_unsigned-write_unsigned v before after h fits =
    read_varint-Spelled 128 63 8 (pos v) (write_unsigned 8 v) before after
      (write_unsigned-Spelled 8 v (omega arith)) h (omega arith) (omega arith) (omega arith)
      (omega arith) fits

IsInt64-Within : (z : ℤ) → IsInt64 z → Within 9 z
IsInt64-Within (pos n) h = omega arith
IsInt64-Within (negsuc n) h = omega arith

-- Every int64 that Write<int64_t> wrote is read back by ReadTagged64, which stops just behind it.
pub read_tagged64-write_signed :
    (z : ℤ) (before after : List ℕ)
    → IsInt64 z
    → Fits (before ++ (write_signed 9 z ++ after))
    → read_tagged64 (cut before (write_signed 9 z ++ after))
      ≡ done z (cut (before ++ write_signed 9 z) after)
unfolding read_tagged64
read_tagged64-write_signed z before after h fits =
    read_varint-Spelled 192 63 9 z (write_signed 9 z) before after
      (write_signed-Spelled 9 z (IsInt64-Within z h)) h (omega arith) (omega arith) (omega arith)
      (omega arith) fits

-- What an int32 can hold.
abbrev pub IsInt32 : ℤ → Type 0
IsInt32 (pos n) = n < 2 ^ 31
IsInt32 (negsuc n) = n < 2 ^ 31

IsInt32-bounds : (z : ℤ) → IsInt32 z → IsInt64 z × Within 4 z
IsInt32-bounds (pos n) h = omega arith
IsInt32-bounds (negsuc n) h = omega arith

-- Every int32 that Write<int32_t> wrote is read back by ReadTagged32, as its 32-bit pattern, and
-- the stream stops just behind it.
pub read_tagged32-write_signed :
    (z : ℤ) (before after : List ℕ)
    → IsInt32 z
    → Fits (before ++ (write_signed 4 z ++ after))
    → read_tagged32 (cut before (write_signed 4 z ++ after))
      ≡ done (to_u32 z) (cut (before ++ write_signed 4 z) after)
unfolding read_tagged32
read_tagged32-write_signed z before after h fits =
    let (h64, near) = IsInt32-bounds z h in
    let e =
      read_varint-Spelled 192 28 4 z (write_signed 4 z) before after (write_signed-Spelled 4 z near)
        h64 (omega arith) (omega arith) (omega arith) (omega arith) fits in
    rw (e, ◌>>=◌)
