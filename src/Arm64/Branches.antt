-- ===== src/Arm64/Branches.antt =====
-- The signed fields and the branches, against their encodings.
use aotopsy.Base.{ℕ, ◌+◌, ◌-◌, ◌*◌, ◌^◌, ◌<◌, ◌≡◌, ap, ◌∙◌, arith, some, none}
use aotopsy.Base.{◌≢◌}
use aotopsy.Base.Int.{ℤ, pos, negsuc}
use aotopsy.Base.Bits.{bit_and-above, bit_and-mask, pow_add}
use aotopsy.Arm64.{branch_imm26, bl, b, with_sign, shift_left, target}
use Prim.Native.Nat.{bit_and}
use native.Mathlib.Nat.{one-le-pow}

-- What `width + 1` bits hold as a signed number, and its pattern.
abbrev pub IsSigned : ℕ → ℤ → Type 0
IsSigned width (pos n) = n < 2 ^ width
IsSigned width (negsuc n) = n < 2 ^ width

abbrev pub pattern : ℕ → ℤ → ℕ
pattern width (pos n) = n
pattern width (negsuc n) = 2 ^ (width + 1) - 1 - n

pub sign_clear : (k w : ℕ) → w < 2 ^ k → bit_and w (2 ^ k) ≡ 0
sign_clear k w h =
    let at_bit : bit_and (0 * 2 ^ k + w) (1 * 2 ^ k) ≡ bit_and 0 1 * 2 ^ k =
      bit_and-above k 0 w 1 h in
    let a : 0 * 2 ^ k + w ≡ w = omega arith in
    let m : 1 * 2 ^ k ≡ 2 ^ k = omega arith in
    let none_there : 0 * 2 ^ k ≡ 0 = omega arith in rw (a, m) at at_bit ∙ none_there

sign_set : (k w : ℕ) → w < 2 ^ k → bit_and (2 ^ k + w) (2 ^ k) ≡ 2 ^ k
sign_set k w h =
    let at_bit : bit_and (1 * 2 ^ k + w) (1 * 2 ^ k) ≡ bit_and 1 1 * 2 ^ k =
      bit_and-above k 1 w 1 h in
    let m : 1 * 2 ^ k ≡ 2 ^ k = omega arith in rw m at at_bit

pub with_sign-pattern : (k : ℕ) (z : ℤ) → IsSigned k z → with_sign k (pattern k z) ≡ z
with_sign-pattern k (pos n) h = ground (arith, sign_clear k n h)
with_sign-pattern k (negsuc n) h =
    let w : 2 ^ (k + 1) ≡ 2 * 2 ^ k = omega (arith, pow_add 2 k 1) in
    let split : 2 ^ (k + 1) - 1 - n ≡ 2 ^ k + (2 ^ k - 1 - n) = omega (arith, w) in
    let bit = sign_set k (2 ^ k - 1 - n) (omega (arith, one-le-pow k 2)) in
    ground (arith, split, bit, w, one-le-pow k 2)

-- A word with six bits of opcode above 26 bits of immediate.
abbrev pub write_branch : ℕ → ℤ → ℕ
write_branch op z = op * 2 ^ 26 + pattern 25 z

pattern_small : (z : ℤ) → IsSigned 25 z → pattern 25 z < 2 ^ 26
pattern_small (pos n) h = omega arith
pattern_small (negsuc n) h = omega arith

opcode_of : (op w : ℕ) → op < 64 → w < 2 ^ 26 → bit_and (op * 2 ^ 26 + w) 0xFC000000 ≡ op * 2 ^ 26
opcode_of op w h low =
    bit_and-above 26 op w 63 low ∙ ap (λ t. t * 2 ^ 26) (bit_and-mask 6 op ∙ omega arith)

immediate_of : (op w : ℕ) → w < 2 ^ 26 → bit_and (op * 2 ^ 26 + w) 0x03FFFFFF ≡ w
immediate_of op w low = bit_and-mask 26 (op * 2 ^ 26 + w) ∙ omega arith

branch_imm26-write :
    (op : ℕ) (z : ℤ) (pc : ℕ)
    → op < 64
    → IsSigned 25 z
    → branch_imm26 (op * 2 ^ 26) (write_branch op z) pc ≡ some (target pc (shift_left z 2))
unfolding branch_imm26
branch_imm26-write op z pc h s =
    rw
      (
        opcode_of op (pattern 25 z) h (pattern_small z s),
        immediate_of op (pattern 25 z) (pattern_small z s),
        with_sign-pattern 25 z s,
      )
      (ground arith)

branch_imm26-other :
    (op other : ℕ) (z : ℤ) (pc : ℕ)
    → op < 64
    → other ≢ op
    → IsSigned 25 z
    → branch_imm26 (other * 2 ^ 26) (write_branch op z) pc ≡ none
unfolding branch_imm26
branch_imm26-other op other z pc h differ s =
    rw (opcode_of op (pattern 25 z) h (pattern_small z s)) (ground arith)

-- The word of a BL or a B with any signed offset of 26 bits, in instructions, is decoded by its
-- decoder to the pc plus four times the offset, wrapped to 64 bits, and refused by the other's.
pub branch_word :
    (z : ℤ) (pc : ℕ)
    → IsSigned 25 z
    → (bl (write_branch 0x25 z) pc ≡ some (target pc (shift_left z 2)))
      × (b (write_branch 0x05 z) pc ≡ some (target pc (shift_left z 2)))
      × (bl (write_branch 0x05 z) pc ≡ none)
      × (b (write_branch 0x25 z) pc ≡ none)
unfolding bl b
branch_word z pc s = (
  branch_imm26-write 0x25 z pc (omega arith) s,
  branch_imm26-write 0x05 z pc (omega arith) s,
  branch_imm26-other 0x05 0x25 z pc (omega arith) (omega arith) s,
  branch_imm26-other 0x25 0x05 z pc (omega arith) (omega arith) s,
)
