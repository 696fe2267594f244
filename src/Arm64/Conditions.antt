-- ===== src/Arm64/Conditions.antt =====
-- internal/arch/arm64/decoders.go: the conditional branches, and B.cond against its encoding.
use aotopsy.Base.{ℕ, ◌+◌, ◌-◌, ◌*◌, ◌/◌, ◌^◌, ◌<◌, ◌≡◌, ◌∙◌, arith, some, none}
use aotopsy.Base.{Option, ◌||◌, ◌==◌, if◌then◌else◌, ltb, lt→ltb, ltb-false, dec_lt}
use aotopsy.Base.Int.{ℤ, pos, negsuc}
use aotopsy.Base.Bits.{bit_and-mask, bit_and-parts}
use aotopsy.Arm64.{matches, field, with_sign, shift_left, target}
use aotopsy.Arm64.Branches.{IsSigned, pattern, with_sign-pattern, sign_clear}
use Prim.Native.Nat.{bit_and}

-- SignExtend of a field of `bits` bits, which is what its callers here pass.
abbrev pub sign_extend : ℕ → ℕ → ℤ
sign_extend imm bits = with_sign (bits - 1) imm

abbrev pub branch_imm19 : ℕ → ℕ → Option ℕ
branch_imm19 raw pc = some (target pc (shift_left (sign_extend (field 5 0x7FFFF raw) 19) 2))

abbrev pub branch_imm14 : ℕ → ℕ → Option ℕ
branch_imm14 raw pc = some (target pc (shift_left (sign_extend (field 5 0x3FFF raw) 14) 2))

-- The conditions 14 and 15 are AL and NV.
unfoldable pub cond_branch : ℕ → ℕ → Option ℕ
cond_branch raw pc =
    if matches 0xFF000010 0x54000000 raw
    then (if (bit_and raw 0xF == 14) || (bit_and raw 0xF == 15) then none else branch_imm19 raw pc)
    else if matches 0x7F000000 0x34000000 raw
    then branch_imm19 raw pc
    else if matches 0x7F000000 0x35000000 raw
    then branch_imm19 raw pc
    else if matches 0x7F000000 0x36000000 raw
    then branch_imm14 raw pc
    else if matches 0x7F000000 0x37000000 raw
    then branch_imm14 raw pc
    else none

-- The word of `b.cond`: the opcode, the offset in instructions, a clear bit and the condition.
abbrev pub write_cond : ℤ → ℕ → ℕ
write_cond z cond = 0x54 * 2 ^ 24 + (pattern 18 z * 2 ^ 5 + cond)

pub pattern_small : (z : ℤ) → IsSigned 18 z → pattern 18 z < 2 ^ 19
pattern_small (pos n) h = omega arith
pattern_small (negsuc n) h = omega arith

module _ (w cond : ℕ) (hw : w < 2 ^ 19) (hc : cond < 16) where
  abbrev pub cond_word : ℕ
  cond_word = 0x54 * 2 ^ 24 + (w * 2 ^ 5 + cond)

  cond_low : bit_and (w * 2 ^ 5 + cond) 0x10 ≡ 0
  cond_low =
      bit_and-parts 5 w cond 0 0x10 (omega arith) (omega arith)
      ∙ omega (arith, bit_and-mask 0 w, sign_clear 4 cond hc)

  pub cond_opcode : bit_and cond_word 0xFF000010 ≡ 0x54000000
  cond_opcode =
      bit_and-parts 24 0x54 (w * 2 ^ 5 + cond) 0xFF 0x10 (omega arith) (omega arith)
      ∙ omega (arith, cond_low)

  pub cond_field : bit_and cond_word 0xF ≡ cond
  cond_field = bit_and-mask 4 cond_word ∙ omega arith

  pub cond_offset : field 5 0x7FFFF cond_word ≡ w
  cond_offset = bit_and-mask 19 (cond_word / 2 ^ 5) ∙ omega arith

cond_branch-taken :
    (z : ℤ) (cond pc : ℕ)
    → IsSigned 18 z
    → cond < 14
    → cond_branch (write_cond z cond) pc ≡ some (target pc (shift_left z 2))
unfolding cond_branch
cond_branch-taken z cond pc hz hc =
    let w : ℕ = pattern 18 z in
    let low = pattern_small z hz in
    rw
      (
        cond_opcode w cond low (omega arith),
        cond_field w cond low (omega arith),
        cond_offset w cond low (omega arith),
        with_sign-pattern 18 z hz,
      )
      (ground arith)

cond_branch-always :
    (z : ℤ) (cond pc : ℕ)
    → IsSigned 18 z
    → cond < 16
    → 13 < cond
    → cond_branch (write_cond z cond) pc ≡ none
unfolding cond_branch
cond_branch-always z cond pc hz hc ha =
    let w : ℕ = pattern 18 z in
    let low = pattern_small z hz in
    rw (cond_opcode w cond low hc, cond_field w cond low hc) (ground arith)

-- CondBranch of a `b.cond` with any signed offset of 19 bits, in instructions, is the pc plus four
-- times the offset, wrapped to 64 bits, for the conditions below 14, and is not ok for 14 and 15.
pub cond_branch-write_cond :
    (z : ℤ) (cond pc : ℕ)
    → IsSigned 18 z
    → cond < 16
    → cond_branch (write_cond z cond) pc
      ≡ (if ltb cond 14 then some (target pc (shift_left z 2)) else none)
cond_branch-write_cond z cond pc hz hc = elim (dec_lt cond 14) [
  | yes p ↦ rw (lt→ltb cond 14 p) (cond_branch-taken z cond pc hz p)
  | no p ↦ rw (ltb-false cond 14 (omega arith)) (cond_branch-always z cond pc hz hc (omega arith))
]
