-- ===== src/Arm64/Scaled.antt =====
-- The loads and stores with an unsigned offset, and those of pairs, against their encodings.
use aotopsy.Base.{ℕ, ◌+◌, ◌*◌, ◌/◌, ◌^◌, ◌<◌, ◌≡◌, refl, ap, ◌∙◌, arith, some}
use aotopsy.Base.Int.{ℤ, pos, negsuc}
use aotopsy.Base.Bits.{bit_and-above, bit_and-mask}
use aotopsy.Arm64.{
  unsigned_offset, ldr32_unsigned_offset, str64_unsigned_offset, str32_unsigned_offset,
  ldr64_unsigned_offset, pair_offset, ldp64_unsigned_offset, stp64_unsigned_offset, with_sign,
  field, shift_left,
}
use aotopsy.Arm64.Branches.{IsSigned, pattern, with_sign-pattern}
use Prim.Native.Nat.{bit_and}

-- Ten bits of opcode, the offset in units of the access, and the two registers.
abbrev pub write_scaled : ℕ → ℕ → ℕ → ℕ → ℕ
write_scaled op imm rn rt = op * 2 ^ 22 + (imm * 2 ^ 10 + (rn * 2 ^ 5 + rt))

-- Ten bits of opcode, the signed offset, the second register, the base and the first register.
abbrev pub write_pair : ℕ → ℤ → ℕ → ℕ → ℕ → ℕ
write_pair op z rt2 rn rt =
    op * 2 ^ 22 + (pattern 6 z * 2 ^ 15 + (rt2 * 2 ^ 10 + (rn * 2 ^ 5 + rt)))

opcode_of :
    (op low : ℕ) → op < 2 ^ 10 → low < 2 ^ 22 → bit_and (op * 2 ^ 22 + low) 0xFFC00000 ≡ op * 2 ^ 22
opcode_of op low h hl =
    bit_and-above 22 op low 0x3FF hl ∙ ap (λ (t : ℕ). t * 2 ^ 22) (bit_and-mask 10 op ∙ omega arith)

module _ (op imm rn rt : ℕ) (ho : op < 2 ^ 10) (hi : imm < 2 ^ 12) (hn : rn < 32)
    (ht : rt < 32) where
  scaled_base : field 5 0x1F (write_scaled op imm rn rt) ≡ rn
  scaled_base = bit_and-mask 5 (write_scaled op imm rn rt / 2 ^ 5) ∙ omega arith

  scaled_other : bit_and (write_scaled op imm rn rt) 0x1F ≡ rt
  scaled_other = bit_and-mask 5 (write_scaled op imm rn rt) ∙ omega arith

  scaled_imm : field 10 0xFFF (write_scaled op imm rn rt) ≡ imm
  scaled_imm = bit_and-mask 12 (write_scaled op imm rn rt / 2 ^ 10) ∙ omega arith

  unsigned_offset-write :
      (scale : ℕ)
      → unsigned_offset (op * 2 ^ 22) scale (write_scaled op imm rn rt)
        ≡ some (rn, imm * 2 ^ scale, rt)
  unfolding unsigned_offset
  unsigned_offset-write scale =
      rw
        (
          opcode_of op (imm * 2 ^ 10 + (rn * 2 ^ 5 + rt)) ho (omega arith),
          scaled_base,
          scaled_other,
          scaled_imm,
        )
        (ground arith)

-- LDR64UnsignedOffset, LDR32UnsignedOffset, STR64UnsignedOffset and STR32UnsignedOffset read, of
-- the word with their opcode, the base register, the offset in bytes, and all but the first the
-- other register.
unsigned-write_scaled :
    (imm rn rt : ℕ)
    → imm < 2 ^ 12
    → rn < 32
    → rt < 32
    → (ldr64_unsigned_offset (write_scaled 0x3E5 imm rn rt) ≡ some (rn, imm * 8))
      × (ldr32_unsigned_offset (write_scaled 0x2E5 imm rn rt) ≡ some (rn, imm * 4, rt))
      × (str64_unsigned_offset (write_scaled 0x3E4 imm rn rt) ≡ some (rn, imm * 8, rt))
      × (str32_unsigned_offset (write_scaled 0x2E4 imm rn rt) ≡ some (rn, imm * 4, rt))
unfolding ldr64_unsigned_offset ldr32_unsigned_offset str64_unsigned_offset str32_unsigned_offset
unsigned-write_scaled imm rn rt hi hn ht = (
  rw
      (
        opcode_of 0x3E5 (imm * 2 ^ 10 + (rn * 2 ^ 5 + rt)) (omega arith) (omega arith),
        scaled_base 0x3E5 imm rn rt (omega arith) hi hn ht,
        scaled_imm 0x3E5 imm rn rt (omega arith) hi hn ht,
      )
      refl,
  unsigned_offset-write 0x2E5 imm rn rt (omega arith) hi hn ht 2,
  unsigned_offset-write 0x3E4 imm rn rt (omega arith) hi hn ht 3,
  unsigned_offset-write 0x2E4 imm rn rt (omega arith) hi hn ht 2,
)

pattern_small : (z : ℤ) → IsSigned 6 z → pattern 6 z < 2 ^ 7
pattern_small (pos n) h = omega arith
pattern_small (negsuc n) h = omega arith

module _ (op w rt2 rn rt : ℕ) (ho : op < 2 ^ 10) (hw : w < 2 ^ 7) (h2 : rt2 < 32) (hn : rn < 32)
    (ht : rt < 32) where
  abbrev pair_word : ℕ
  pair_word = op * 2 ^ 22 + (w * 2 ^ 15 + (rt2 * 2 ^ 10 + (rn * 2 ^ 5 + rt)))

  pair_base : field 5 0x1F pair_word ≡ rn
  pair_base = bit_and-mask 5 (pair_word / 2 ^ 5) ∙ omega arith

  pair_first : bit_and pair_word 0x1F ≡ rt
  pair_first = bit_and-mask 5 pair_word ∙ omega arith

  pair_second : field 10 0x1F pair_word ≡ rt2
  pair_second = bit_and-mask 5 (pair_word / 2 ^ 10) ∙ omega arith

  pair_imm : field 15 0x7F pair_word ≡ w
  pair_imm = bit_and-mask 7 (pair_word / 2 ^ 15) ∙ omega arith

  pair_offset-word :
      pair_offset (op * 2 ^ 22) pair_word ≡ some (rn, rt, rt2, shift_left (with_sign 6 w) 3)
  unfolding pair_offset
  pair_offset-word =
      rw
        (
          opcode_of op (w * 2 ^ 15 + (rt2 * 2 ^ 10 + (rn * 2 ^ 5 + rt))) ho (omega arith),
          pair_base,
          pair_first,
          pair_second,
          pair_imm,
        )
        (ground arith)

pair_offset-write :
    (op : ℕ) (z : ℤ) (rt2 rn rt : ℕ)
    → op < 2 ^ 10
    → IsSigned 6 z
    → rt2 < 32
    → rn < 32
    → rt < 32
    → pair_offset (op * 2 ^ 22) (write_pair op z rt2 rn rt) ≡ some (rn, rt, rt2, shift_left z 3)
pair_offset-write op z rt2 rn rt ho hz h2 hn ht =
    pair_offset-word op (pattern 6 z) rt2 rn rt ho (pattern_small z hz) h2 hn ht
    ∙ ap (λ (v : ℤ). some (rn, rt, rt2, shift_left v 3)) (with_sign-pattern 6 z hz)

-- LDP64UnsignedOffset and STP64UnsignedOffset read, of the word with their opcode, the base
-- register, the pair in order, and the signed offset of seven bits, in bytes.
pub pair-write_pair :
    (z : ℤ) (rt2 rn rt : ℕ)
    → IsSigned 6 z
    → rt2 < 32
    → rn < 32
    → rt < 32
    → (ldp64_unsigned_offset (write_pair 0x2A5 z rt2 rn rt) ≡ some (rn, rt, rt2, shift_left z 3))
      × (stp64_unsigned_offset (write_pair 0x2A4 z rt2 rn rt) ≡ some (rn, rt, rt2, shift_left z 3))
unfolding ldp64_unsigned_offset stp64_unsigned_offset
pair-write_pair z rt2 rn rt hz h2 hn ht = (
  pair_offset-write 0x2A5 z rt2 rn rt (omega arith) hz h2 hn ht,
  pair_offset-write 0x2A4 z rt2 rn rt (omega arith) hz h2 hn ht,
)
