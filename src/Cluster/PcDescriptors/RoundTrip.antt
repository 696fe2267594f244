-- ===== src/Cluster/PcDescriptors/RoundTrip.antt =====
-- The numbers and the descriptors that the SDK writes are read back.
use aotopsy.Base.{
  ℕ, zero, suc, ◌+◌, ◌-◌, ◌*◌, ◌/◌, ◌%◌, ◌^◌, ◌≤◌, ◌<◌, ◌≡◌, refl, sym, ap, ◌∙◌, arith, true, false,
  ltb, Bool-cases, inl, inr, if◌then◌else◌, List, [], ◌∷◌, ◌++◌,
}
use aotopsy.Base.Bits.{pow_add, bit_or-shl64, bit_or-shifted, bit_and-above, bit_and-mask}
use aotopsy.Base.Int.{ℤ, pos, negsuc, signed64, pattern64, IsInt64, signed64-pattern64}
use aotopsy.Dartfmt.Varint.{shl64}
use aotopsy.Dartfmt.Varint.RoundTrip.{low7, asr7, is_small, pattern64_step, pattern64-lt}
use aotopsy.Cluster.PcDescriptors.{sleb_value, sign_extended, sleb128_loop, read_sleb128}
use Prim.Native.Nat.{bit_and, bit_or}
use native.Mathlib.Nat.{mul-le-mul_right, one-le-pow, pow-le-pow_right, pow-suc}

-- WriteSLEB128, with `k` bytes at most before the last.
unfoldable pub write_sleb128 : ℕ → ℤ → List ℕ
write_sleb128 zero z = low7 z ∷ []
write_sleb128 (suc k) z =
    let rest = write_sleb128 k (asr7 z) in if is_small z then low7 z ∷ [] else (low7 z + 128) ∷ rest

low_bit : (q : ℕ) → q < 2 → bit_and q 1 ≡ q
low_bit q h = bit_and-mask 1 q ∙ omega (arith, h)

sign_bit : (b : ℕ) → b < 128 → bit_and b 64 ≡ b / 64 * 64
sign_bit b h =
    let parts : b / 64 * 2 ^ 6 + b % 64 ≡ b = omega arith in
    let masked = bit_and-above 6 (b / 64) (b % 64) 1 (omega arith) in
    rw parts at masked ∙ ap (λ (x : ℕ). x * 64) (low_bit (b / 64) (omega (arith, h)))

low7-below : (z : ℤ) → low7 z < 128
low7-below (pos n) = omega arith
low7-below (negsuc n) = omega arith

-- What a byte adds at a shift below 64.
add_byte :
    (s val d : ℕ) → s ≤ 63 → val < 2 ^ s → bit_or val (shl64 d s) ≡ (val + d * 2 ^ s) % 2 ^ 64
add_byte s val d h low = bit_or-shl64 s (64 - s) d val (omega (arith, h)) low

times_suc : (y p : ℕ) → suc y * p ≡ y * p + p
times_suc y p = omega arith

-- The ones above the shift.
upper_ones : (t : ℕ) → t ≤ 64 → (2 ^ (64 - t) - 1) * 2 ^ t ≡ 2 ^ 64 - 2 ^ t
upper_ones t h =
    let some_ones : suc (2 ^ (64 - t) - 1) ≡ 2 ^ (64 - t) = omega (arith, one-le-pow (64 - t) 2) in
    let whole : 2 ^ (64 - t) * 2 ^ t ≡ 2 ^ 64 =
      let e : 64 - t + t ≡ 64 = omega (arith, h) in
      sym (pow_add 2 (64 - t) t) ∙ ap (λ (x : ℕ). 2 ^ x) e in
    omega (arith, times_suc (2 ^ (64 - t) - 1) (2 ^ t), ap (λ (x : ℕ). x * 2 ^ t) some_ones, whole)

sign_extended-clear : (b t v : ℕ) → b < 64 → sign_extended b t v ≡ v
sign_extended-clear b t v h =
    let zero_bit : bit_and b 64 ≡ 0 = sign_bit b (omega (arith, h)) ∙ omega (arith, h) in
    ground (arith, zero_bit)

sign_extended-set :
    (b t v : ℕ) → 64 ≤ b → b < 128 → t < 64 → v < 2 ^ t → sign_extended b t v ≡ v + (2 ^ 64 - 2 ^ t)
sign_extended-set b t v g h l low =
    let one_bit : bit_and b 64 ≡ 64 = sign_bit b h ∙ omega (arith, g, h) in
    let added : bit_or v (2 ^ 64 - 2 ^ t) ≡ v + (2 ^ 64 - 2 ^ t) =
      rw (upper_ones t (omega (arith, l))) at (bit_or-shifted t v (2 ^ (64 - t) - 1) low) in
    ground (arith, one_bit, added)

loop_last :
    (b s val : ℕ) (rest : List ℕ)
    → b < 128
    → s ≤ 63
    → val < 2 ^ s
    → sleb128_loop (b ∷ rest) s val
      ≡ sleb_value (signed64 (sign_extended b (s + 7) ((val + b * 2 ^ s) % 2 ^ 64))) rest
unfolding sleb128_loop
loop_last b s val rest h l low =
    let same : b % 128 ≡ b = omega (arith, h) in
    let last : ltb b 128 ≡ true = ground (arith, h) in
    let within : ltb s 64 ≡ true = ground (arith, l) in
    rw (last, within, same, add_byte s val b l low) refl

last_of_ten :
    (z : ℤ) (val : ℕ) → (val + low7 z * 2 ^ 63) % 2 ^ 64 ≡ (val + pattern64 z * 2 ^ 63) % 2 ^ 64
last_of_ten (pos n) val = omega arith
last_of_ten (negsuc n) val = omega arith

last_pos :
    (n s val : ℕ)
    → n < 64
    → sign_extended (low7 (pos n)) (s + 7) ((val + low7 (pos n) * 2 ^ s) % 2 ^ 64)
      ≡ (val + pattern64 (pos n) * 2 ^ s) % 2 ^ 64
last_pos n s val h =
    let low : n % 128 ≡ n = omega (arith, h) in
    let pat : n % 2 ^ 64 ≡ n = omega (arith, h) in
    rw (low, pat) (sign_extended-clear n (s + 7) ((val + n * 2 ^ s) % 2 ^ 64) h)

half_room : (s : ℕ) → s ≤ 56 → 2 ^ s ≤ 2 ^ 56
half_room s h = pow-le-pow_right (omega arith) h

room_for : (s : ℕ) → s ≤ 56 → 128 * 2 ^ s ≤ 2 ^ 63
room_for s h = omega (arith, half_room s h)

split_times : (a b c p : ℕ) → a + b ≡ c → a * p + b * p ≡ c * p
split_times a b c p e = let d : (a + b) * p ≡ c * p = ap (λ (x : ℕ). x * p) e in omega (arith, d)

last_neg :
    (n s val : ℕ)
    → n < 64
    → s ≤ 56
    → val < 2 ^ s
    → sign_extended (low7 (negsuc n)) (s + 7) ((val + low7 (negsuc n) * 2 ^ s) % 2 ^ 64)
      ≡ (val + pattern64 (negsuc n) * 2 ^ s) % 2 ^ 64
last_neg n s val h l low =
    let low7s : 127 - n % 128 ≡ 127 - n = omega (arith, h) in
    let pats : 2 ^ 64 - 1 - n % 2 ^ 64 ≡ 2 ^ 64 - 1 - n = omega (arith, h) in
    let top : 2 ^ (s + 7) ≡ 128 * 2 ^ s = omega (arith, pow_add 2 s 7) in
    let room : 128 * 2 ^ s ≤ 2 ^ 63 = room_for s l in
    let whole = split_times (2 ^ 64 - 1 - n) (suc n) (2 ^ 64) (2 ^ s) (omega (arith, h)) in
    let part = split_times (127 - n) (suc n) 128 (2 ^ s) (omega (arith, h)) in
    let few : suc n * 2 ^ s ≤ 64 * 2 ^ s = mul-le-mul_right (2 ^ s) (omega (arith, h)) in
    let some_more : 1 * 2 ^ s ≤ suc n * 2 ^ s = mul-le-mul_right (2 ^ s) (omega (arith, h)) in
    let below : val + (127 - n) * 2 ^ s < 2 ^ (s + 7) = omega (arith, top, part, some_more, low) in
    let cut : (val + (127 - n) * 2 ^ s) % 2 ^ 64 ≡ val + (127 - n) * 2 ^ s =
      omega (arith, below, top, room) in
    let set =
      sign_extended-set (127 - n) (s + 7) (val + (127 - n) * 2 ^ s) (omega (arith, h))
        (omega (arith, h)) (omega (arith, l)) below in
    rw (low7s, pats, cut, set) (omega (arith, top, room, whole, part, few, some_more, low))

-- The last byte of a small integer, where nine more bytes or none are possible.
loop_small :
    (z : ℤ) (s val : ℕ) (rest : List ℕ)
    → is_small z ≡ true
    → s ≤ 56
    → val < 2 ^ s
    → sleb128_loop (low7 z ∷ rest) s val
      ≡ sleb_value (signed64 ((val + pattern64 z * 2 ^ s) % 2 ^ 64)) rest
loop_small z s val rest h l low =
    loop_last (low7 z) s val rest (low7-below z) (omega (arith, l)) low
    ∙ ap (λ (w : ℕ). sleb_value (signed64 w) rest) (go z h)
  where
    go :
        (w : ℤ)
        → is_small w ≡ true
        → sign_extended (low7 w) (s + 7) ((val + low7 w * 2 ^ s) % 2 ^ 64)
          ≡ (val + pattern64 w * 2 ^ s) % 2 ^ 64
    go (pos n) e = last_pos n s val (ground (arith, e))
    go (negsuc n) e = last_neg n s val (ground (arith, e)) l low

-- Adding a group and then what is left is adding the integer.
add_groups :
    (z : ℤ) (s val : ℕ)
    → (val + low7 z * 2 ^ s + pattern64 (asr7 z) * 2 ^ (s + 7)) % 2 ^ 64
      ≡ (val + pattern64 z * 2 ^ s) % 2 ^ 64
add_groups z s val =
    let e : low7 z + 128 * pattern64 (asr7 z)
        ≡ pattern64 z + 2 ^ 64 * ((low7 z + 128 * pattern64 (asr7 z)) / 2 ^ 64) =
      omega (arith, pattern64_step z) in
    omega
      (arith, ap (λ (x : ℕ). pattern64 (asr7 z) * x) (pow_add 2 s 7), ap (λ (x : ℕ). x * 2 ^ s) e)

le_pred : (d : ℕ) → d < 128 → d ≤ 127
le_pred d h = omega arith

-- An integer that ten bytes hold, where `k` of nine are left before the last.
abbrev FitsIn : ℕ → ℤ → Type 0
FitsIn k (pos n) = n < 64 * 128 ^ k
FitsIn k (negsuc n) = n < 64 * 128 ^ k

IsInt64-FitsIn : (z : ℤ) → IsInt64 z → FitsIn 9 z
IsInt64-FitsIn (pos n) h = omega (arith, h)
IsInt64-FitsIn (negsuc n) h = omega (arith, h)

asr7-FitsIn : (k : ℕ) (z : ℤ) → FitsIn (suc k) z → FitsIn k (asr7 z)
asr7-FitsIn k (pos n) h = omega (arith, h, pow-suc 128 k)
asr7-FitsIn k (negsuc n) h = omega (arith, h, pow-suc 128 k)

-- A round over a byte that is not the last.
loop_more :
    (d s val : ℕ) (rest : List ℕ)
    → d < 128
    → s ≤ 56
    → val < 2 ^ s
    → sleb128_loop ((d + 128) ∷ rest) s val ≡ sleb128_loop rest (s + 7) (val + d * 2 ^ s)
unfolding sleb128_loop
loop_more d s val rest h l low =
    let same : (d + 128) % 128 ≡ d = omega (arith, h) in
    let more : ltb (d + 128) 128 ≡ false = ground arith in
    let within : ltb s 64 ≡ true = ground (arith, l) in
    let short : ltb 70 (s + 7) ≡ false = ground (arith, l) in
    let cut : (val + d * 2 ^ s) % 2 ^ 64 ≡ val + d * 2 ^ s =
      omega (arith, low, room_for s l, mul-le-mul_right (2 ^ s) (le_pred d h)) in
    rw (more, within, short, same, add_byte s val d (omega (arith, l)) low, cut) refl

sleb128_loop-write :
    (k : ℕ) (z : ℤ) (s val : ℕ) (rest : List ℕ)
    → FitsIn k z
    → s + 7 * k ≡ 63
    → val < 2 ^ s
    → sleb128_loop (write_sleb128 k z ++ rest) s val
      ≡ sleb_value (signed64 ((val + pattern64 z * 2 ^ s) % 2 ^ 64)) rest
unfolding write_sleb128
sleb128_loop-write zero z s val rest f e low =
    let at : s ≡ 63 = omega (arith, e) in
    rw at (
      loop_last (low7 z) 63 val rest (low7-below z) (omega arith) (rw at at low)
      ∙ ap (λ (w : ℕ). sleb_value (signed64 w) rest) (last_of_ten z val))
sleb128_loop-write (suc k) z s val rest f e low =
    let small : s ≤ 56 = omega (arith, e) in
    elim (Bool-cases (is_small z)) [
      | inl p ↦ rw p (loop_small z s val rest p small low)
      | inr p ↦
          let next : val + low7 z * 2 ^ s < 2 ^ (s + 7) = omega (
            arith,
            low,
            pow_add 2 s 7,
            mul-le-mul_right (2 ^ s) (le_pred (low7 z) (low7-below z)),
          ) in
          rw p (
            loop_more (low7 z) s val (write_sleb128 k (asr7 z) ++ rest) (low7-below z) small low
            ∙ sleb128_loop-write k (asr7 z) (s + 7) (val + low7 z * 2 ^ s) rest (asr7-FitsIn k z f)
                (omega (arith, e)) next
            ∙ ap (λ (w : ℕ). sleb_value (signed64 w) rest) (add_groups z s val))
    ]

-- readSLEB128 reads back every int64 that the SDK's WriteSLEB128 writes, and stops behind it.
pub read_sleb128-write_sleb128 :
    (z : ℤ) (rest : List ℕ)
    → IsInt64 z
    → read_sleb128 (write_sleb128 9 z ++ rest) ≡ sleb_value z rest
unfolding read_sleb128
read_sleb128-write_sleb128 z rest h =
    let whole : (0 + pattern64 z * 2 ^ 0) % 2 ^ 64 ≡ pattern64 z = omega (arith, pattern64-lt z) in
    sleb128_loop-write 9 z 0 0 rest (IsInt64-FitsIn z h) (omega arith) (omega arith)
    ∙ ap (λ (w : ℕ). sleb_value (signed64 w) rest) whole
    ∙ ap (λ (w : ℤ). sleb_value w rest) (signed64-pattern64 z h)
