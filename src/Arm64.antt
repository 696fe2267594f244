-- ===== src/Arm64.antt =====
-- internal/arch/arm64/decoders.go: the decoders of single instruction words. A word is a number
-- below 2 ^ 32, and `none` is a result that is not ok.
pub mod Branches
pub mod Words
pub mod Scaled
pub mod Conditions
pub mod Destinations
use aotopsy.Base.{ℕ, ◌+◌, ◌-◌, ◌*◌, ◌/◌, ◌%◌, ◌^◌, Bool, true, false, ◌==◌, ◌||◌}
use aotopsy.Base.{if◌then◌else◌, Option, none, some}
use aotopsy.Base.Int.{ℤ, pos, negsuc, pattern64, sub_ℕ}
use Prim.Native.Nat.{bit_and}

-- `raw & mask == value`
abbrev pub matches : ℕ → ℕ → ℕ → Bool
matches mask value raw = bit_and raw mask == value

-- `(raw >> low) & mask`
abbrev pub field : ℕ → ℕ → ℕ → ℕ
field low mask raw = bit_and (raw / 2 ^ low) mask

-- A field of `width + 1` bits whose highest bit is the sign: `imm |= ^mask` where it is set.
abbrev pub with_sign : ℕ → ℕ → ℤ
with_sign width imm =
    if bit_and imm (2 ^ width) == 0 then pos imm else negsuc (2 ^ (width + 1) - 1 - imm)

-- A shift to the left by `n` bits of an int that stays in its range.
abbrev pub shift_left : ℤ → ℕ → ℤ
shift_left (pos a) n = pos (a * 2 ^ n)
shift_left (negsuc a) n = negsuc (a * 2 ^ n + (2 ^ n - 1))

-- `uint64(int64(pc) + offset)`
abbrev pub target : ℕ → ℤ → ℕ
target pc offset = (pc + pattern64 offset) % 2 ^ 64

-- BL and B, which differ in their opcode.
unfoldable pub branch_imm26 : ℕ → ℕ → ℕ → Option ℕ
branch_imm26 opcode raw pc =
    if matches 0xFC000000 opcode raw
    then some (target pc (shift_left (with_sign 25 (bit_and raw 0x03FFFFFF)) 2))
    else none

unfoldable pub bl : ℕ → ℕ → Option ℕ
unfolding branch_imm26
bl = branch_imm26 0x94000000

unfoldable pub b : ℕ → ℕ → Option ℕ
unfolding branch_imm26
b = branch_imm26 0x14000000

-- BLR and IsBR, which differ in their opcode.
unfoldable pub branch_register : ℕ → ℕ → Option ℕ
branch_register opcode raw = if matches 0xFFFFFC1F opcode raw then some (field 5 0x1F raw) else none

unfoldable pub blr : ℕ → Option ℕ
unfolding branch_register
blr = branch_register 0xD63F0000

unfoldable pub is_br : ℕ → Option ℕ
unfolding branch_register
is_br = branch_register 0xD61F0000

unfoldable pub is_ret : ℕ → Bool
is_ret raw = matches 0xFFFFFC1F 0xD65F0000 raw

-- The unsigned-offset loads and stores: the base register, the byte offset and the register that
-- is read or written.
unfoldable pub unsigned_offset : ℕ → ℕ → ℕ → Option (ℕ × ℕ × ℕ)
unsigned_offset opcode scale raw =
    if matches 0xFFC00000 opcode raw
    then some (field 5 0x1F raw, field 10 0xFFF raw * 2 ^ scale, bit_and raw 0x1F)
    else none

-- LDR64UnsignedOffset does not return the register that is written.
unfoldable pub ldr64_unsigned_offset : ℕ → Option (ℕ × ℕ)
ldr64_unsigned_offset raw =
    if matches 0xFFC00000 0xF9400000 raw
    then some (field 5 0x1F raw, field 10 0xFFF raw * 2 ^ 3)
    else none

unfoldable pub ldr32_unsigned_offset : ℕ → Option (ℕ × ℕ × ℕ)
unfolding unsigned_offset
ldr32_unsigned_offset = unsigned_offset 0xB9400000 2

unfoldable pub str64_unsigned_offset : ℕ → Option (ℕ × ℕ × ℕ)
unfolding unsigned_offset
str64_unsigned_offset = unsigned_offset 0xF9000000 3

unfoldable pub str32_unsigned_offset : ℕ → Option (ℕ × ℕ × ℕ)
unfolding unsigned_offset
str32_unsigned_offset = unsigned_offset 0xB9000000 2

-- LDUR64, STUR64, STUR32, LDUR32 and LDURH: the base register, the other and the signed offset.
unfoldable pub unscaled_offset : ℕ → ℕ → Option (ℕ × ℕ × ℤ)
unscaled_offset opcode raw =
    if matches 0xFFE00C00 opcode raw
    then some (field 5 0x1F raw, bit_and raw 0x1F, with_sign 8 (field 12 0x1FF raw))
    else none

unfoldable pub ldur64 : ℕ → Option (ℕ × ℕ × ℤ)
unfolding unscaled_offset
ldur64 = unscaled_offset 0xF8400000

unfoldable pub stur64 : ℕ → Option (ℕ × ℕ × ℤ)
unfolding unscaled_offset
stur64 = unscaled_offset 0xF8000000

unfoldable pub stur32 : ℕ → Option (ℕ × ℕ × ℤ)
unfolding unscaled_offset
stur32 = unscaled_offset 0xB8000000

unfoldable pub ldur32 : ℕ → Option (ℕ × ℕ × ℤ)
unfolding unscaled_offset
ldur32 = unscaled_offset 0xB8400000

unfoldable pub ldurh : ℕ → Option (ℕ × ℕ × ℤ)
unfolding unscaled_offset
ldurh = unscaled_offset 0x78400000

-- The base register, the index register and the register that is written.
unfoldable pub ldr_reg_extended : ℕ → Option (ℕ × ℕ × ℕ)
ldr_reg_extended raw =
    if matches 0xFFE0FC00 0xF8607800 raw
    then some (field 5 0x1F raw, field 16 0x1F raw, bit_and raw 0x1F)
    else none

abbrev pub shifted_imm12 : ℕ → ℕ → ℕ
shifted_imm12 kind imm12 = if kind == 0 then imm12 else if kind == 1 then imm12 * 2 ^ 12 else 0

unfoldable pub add_sub_immediate : ℕ → ℕ → Option (ℕ × ℕ × ℕ)
add_sub_immediate opcode raw =
    if matches 0xFF000000 opcode raw
    then some
        (bit_and raw 0x1F, field 5 0x1F raw, shifted_imm12 (field 22 0x3 raw) (field 10 0xFFF raw))
    else none

unfoldable pub add64_immediate : ℕ → Option (ℕ × ℕ × ℕ)
unfolding add_sub_immediate
add64_immediate = add_sub_immediate 0x91000000

unfoldable pub sub64_immediate : ℕ → Option (ℕ × ℕ × ℕ)
unfolding add_sub_immediate
sub64_immediate = add_sub_immediate 0xD1000000

unfoldable pub subs32_immediate : ℕ → Option (ℕ × ℕ × ℕ)
unfolding add_sub_immediate
subs32_immediate = add_sub_immediate 0x71000000

-- LDP64UnsignedOffset and STP64UnsignedOffset: the base register, the pair and the offset.
unfoldable pub pair_offset : ℕ → ℕ → Option (ℕ × ℕ × ℕ × ℤ)
pair_offset opcode raw =
    if matches 0xFFC00000 opcode raw
    then some (
      field 5 0x1F raw,
      bit_and raw 0x1F,
      field 10 0x1F raw,
      shift_left (with_sign 6 (field 15 0x7F raw)) 3,
    )
    else none

unfoldable pub ldp64_unsigned_offset : ℕ → Option (ℕ × ℕ × ℕ × ℤ)
unfolding pair_offset
ldp64_unsigned_offset = pair_offset 0xA9400000

unfoldable pub stp64_unsigned_offset : ℕ → Option (ℕ × ℕ × ℕ × ℤ)
unfolding pair_offset
stp64_unsigned_offset = pair_offset 0xA9000000

unfoldable pub add64_register : ℕ → Option (ℕ × ℕ × ℕ)
add64_register raw =
    if matches 0xFF200000 0x8B000000 raw
    then some (bit_and raw 0x1F, field 5 0x1F raw, field 16 0x1F raw)
    else none

unfoldable pub movz64 : ℕ → Option (ℕ × ℕ)
movz64 raw =
    if matches 0xFFE00000 0xD2800000 raw then some (bit_and raw 0x1F, field 5 0xFFFF raw) else none

-- The width, `imms - immr + 1`, can be negative.
unfoldable pub ubfx : ℕ → Option (ℕ × ℕ × ℕ × ℤ)
ubfx raw =
    if matches 0xFF800000 0xD3000000 raw
    then some (
      bit_and raw 0x1F,
      field 5 0x1F raw,
      field 16 0x3F raw,
      sub_ℕ (field 10 0x3F raw + 1) (field 16 0x3F raw),
    )
    else none

unfoldable pub mov_orr : ℕ → Option ℕ
mov_orr raw =
    if matches 0xFF200000 0xAA000000 raw
    then (if field 5 0x1F raw == 31 then some (bit_and raw 0x1F) else none)
    else none
