-- ===== src/Arm64/Words.antt =====
-- The loads and stores with a signed offset of nine bits, against their encodings.
use aotopsy.Base.{ℕ, ◌+◌, ◌*◌, ◌/◌, ◌^◌, ◌<◌, ◌≡◌, ap, ◌∙◌, arith, some}
use aotopsy.Base.Int.{ℤ, pos, negsuc}
use aotopsy.Base.Bits.{bit_and-above, bit_and-mask, bit_and-parts}
use aotopsy.Arm64.{unscaled_offset, with_sign, field, ldur64, stur64, stur32, ldur32, ldurh}
use aotopsy.Arm64.Branches.{IsSigned, pattern, with_sign-pattern}
use Prim.Native.Nat.{bit_and}

-- Eleven bits of opcode, the offset, two bits that are clear, and the two registers.
abbrev pub write_unscaled : ℕ → ℤ → ℕ → ℕ → ℕ
write_unscaled op z rn rt = op * 2 ^ 21 + (pattern 8 z * 2 ^ 12 + (rn * 2 ^ 5 + rt))

pattern_small : (z : ℤ) → IsSigned 8 z → pattern 8 z < 2 ^ 9
pattern_small (pos n) h = omega arith
pattern_small (negsuc n) h = omega arith

module _ (op w rn rt : ℕ) (ho : op < 2 ^ 11) (hw : w < 2 ^ 9) (hn : rn < 32) (ht : rt < 32) where
  word : ℕ
  word = op * 2 ^ 21 + (w * 2 ^ 12 + (rn * 2 ^ 5 + rt))

  low_clear : bit_and (w * 2 ^ 12 + (rn * 2 ^ 5 + rt)) 0xC00 ≡ 0
  low_clear =
      let e : w * 2 ^ 12 + (rn * 2 ^ 5 + rt) ≡ w * 4 * 2 ^ 10 + (rn * 2 ^ 5 + rt) = omega arith in
      let m = bit_and-mask 2 (w * 4) in
      let a = bit_and-above 10 (w * 4) (rn * 2 ^ 5 + rt) 3 (omega arith) in
      rw e (a ∙ omega (arith, m))

  opcode_of : bit_and word 0xFFE00C00 ≡ op * 2 ^ 21
  unfolding word
  opcode_of =
      let m = bit_and-mask 11 op in
      bit_and-parts 21 op (w * 2 ^ 12 + (rn * 2 ^ 5 + rt)) 0x7FF 0xC00 (omega arith) (omega arith)
      ∙ omega (arith, m, low_clear)

  base_of : field 5 0x1F word ≡ rn
  unfolding word
  base_of = bit_and-mask 5 (word / 2 ^ 5) ∙ omega arith

  other_of : bit_and word 0x1F ≡ rt
  unfolding word
  other_of = bit_and-mask 5 word ∙ omega arith

  offset_of : field 12 0x1FF word ≡ w
  unfolding word
  offset_of = bit_and-mask 9 (word / 2 ^ 12) ∙ omega arith

  unscaled_offset-word : unscaled_offset (op * 2 ^ 21) word ≡ some (rn, rt, with_sign 8 w)
  unfolding unscaled_offset
  unscaled_offset-word = rw (opcode_of, base_of, other_of, offset_of) (ground arith)

unscaled_offset-write :
    (op : ℕ) (z : ℤ) (rn rt : ℕ)
    → op < 2 ^ 11
    → IsSigned 8 z
    → rn < 32
    → rt < 32
    → unscaled_offset (op * 2 ^ 21) (write_unscaled op z rn rt) ≡ some (rn, rt, z)
unfolding word
unscaled_offset-write op z rn rt ho hz hn ht =
    unscaled_offset-word op (pattern 8 z) rn rt ho (pattern_small z hz) hn ht
    ∙ ap (λ (v : ℤ). some (rn, rt, v)) (with_sign-pattern 8 z hz)

-- Each of LDUR64, STUR64, STUR32, LDUR32 and LDURH reads, of the word with its opcode, the two
-- registers and the signed offset of nine bits that the word was made of.
pub unscaled-write_unscaled :
    (z : ℤ) (rn rt : ℕ)
    → IsSigned 8 z
    → rn < 32
    → rt < 32
    → (ldur64 (write_unscaled 0x7C2 z rn rt) ≡ some (rn, rt, z))
      × (stur64 (write_unscaled 0x7C0 z rn rt) ≡ some (rn, rt, z))
      × (stur32 (write_unscaled 0x5C0 z rn rt) ≡ some (rn, rt, z))
      × (ldur32 (write_unscaled 0x5C2 z rn rt) ≡ some (rn, rt, z))
      × (ldurh (write_unscaled 0x3C2 z rn rt) ≡ some (rn, rt, z))
unfolding ldur64 stur64 stur32 ldur32 ldurh
unscaled-write_unscaled z rn rt hz hn ht = (
  unscaled_offset-write 0x7C2 z rn rt (omega arith) hz hn ht,
  unscaled_offset-write 0x7C0 z rn rt (omega arith) hz hn ht,
  unscaled_offset-write 0x5C0 z rn rt (omega arith) hz hn ht,
  unscaled_offset-write 0x5C2 z rn rt (omega arith) hz hn ht,
  unscaled_offset-write 0x3C2 z rn rt (omega arith) hz hn ht,
)
