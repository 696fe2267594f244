-- ===== src/Arm64/Destinations.antt =====
-- internal/arch/arm64/decoders.go: the registers that an instruction writes.
pub mod Select
pub mod Classes
use aotopsy.Base.{ℕ, Bool, true, false, ◌==◌, ◌&&◌, ◌||◌, not, ltb, if◌then◌else◌, List, [], ◌∷◌}
use aotopsy.Base.Int.{ℤ, pos, negsuc}
use aotopsy.Arm64.{matches, field}
use Prim.Native.Nat.{bit_and}

-- `raw & 0x1F`
abbrev pub rd_of : ℕ → ℕ
rd_of raw = bit_and raw 0x1F

-- Register 31 is the zero register here.
abbrev pub unless_zero : ℕ → List ℕ
unless_zero rd = if ltb rd 31 then rd ∷ [] else []

-- The comparisons: the same, with the test turned round.
abbrev pub discarded_at_31 : ℕ → List ℕ
discarded_at_31 rd = if rd == 31 then [] else rd ∷ []

-- Register 31 is the stack pointer here.
abbrev pub or_sp : ℕ → List ℕ
or_sp rd = if ltb rd 31 then rd ∷ [] else 31 ∷ []

-- A load of a pair.
abbrev pub pair_targets : ℕ → ℕ → List ℕ
pair_targets rt1 rt2 =
    let second = if ltb rt2 31 && not (rt2 == rt1) then rt2 ∷ [] else [] in
    if ltb rt1 31 then rt1 ∷ second else second

-- `raw&mask == v` for one of several values.
abbrev pub one_of : ℕ → List ℕ → ℕ → Bool
one_of mask [] raw = false
one_of mask (v ∷ vs) raw = matches mask v raw || one_of mask vs raw

abbrev pub unsigned_loads : List ℕ
unsigned_loads =
    0xF9400000 ∷ 0xB9400000 ∷ 0xB9800000 ∷ 0x79400000 ∷ 0x79800000 ∷ 0x79C00000 ∷ 0x39400000
    ∷ 0x39800000 ∷ 0x39C00000 ∷ []

abbrev pub unscaled_loads : List ℕ
unscaled_loads =
    0xF8400000 ∷ 0xB8400000 ∷ 0xB8800000 ∷ 0x78400000 ∷ 0x78800000 ∷ 0x78C00000 ∷ 0x38400000
    ∷ 0x38800000 ∷ 0x38C00000 ∷ []

-- Parts 3 and 4 of DstRegsOfInst: the data processing.
unfoldable pub processed_regs : ℕ → List ℕ
processed_regs raw =
    let rd = rd_of raw in
    if matches 0x1F000000 0x11000000 raw
    then (if matches 0x7F000000 0x71000000 raw then discarded_at_31 rd else or_sp rd)
    else if matches 0x1F800000 0x12800000 raw
    then unless_zero rd
    else if matches 0x1F800000 0x13000000 raw
    then unless_zero rd
    else if matches 0x1F800000 0x12000000 raw
    then (if matches 0x7F800000 0x72000000 raw then discarded_at_31 rd else unless_zero rd)
    else if matches 0x1F000000 0x10000000 raw
    then unless_zero rd
    else if matches 0x1F000000 0x0A000000 raw
    then (if matches 0x7F000000 0x6A000000 raw then discarded_at_31 rd else unless_zero rd)
    else if matches 0x1F200000 0x0B000000 raw
    then (if matches 0x7F200000 0x6B000000 raw then discarded_at_31 rd else or_sp rd)
    else if matches 0x1FE00000 0x0B200000 raw
    then (if matches 0x7FE00000 0x6B200000 raw then discarded_at_31 rd else or_sp rd)
    else if matches 0x1FE00000 0x1A800000 raw
    then unless_zero rd
    else if matches 0x5FE00000 0x1AC00000 raw
    then unless_zero rd
    else if matches 0x5FE00000 0x5AC00000 raw
    then unless_zero rd
    else if matches 0x1F000000 0x1B000000 raw
    then unless_zero rd
    else []

unfoldable pub dst_regs_of_inst : ℕ → List ℕ
unfolding processed_regs
dst_regs_of_inst raw =
    let rd = rd_of raw in
    if matches 0x3E400000 0x28400000 raw
    then pair_targets rd (field 10 0x1F raw)
    else if matches 0x3B000000 0x18000000 raw
    then unless_zero rd
    else if one_of 0xFFC00000 unsigned_loads raw
    then unless_zero rd
    else if one_of 0xFFE00000 unscaled_loads raw
    then unless_zero rd
    else if matches 0x3FE00800 0x38600800 raw
    then unless_zero rd
    else processed_regs raw

-- -1 where no register is written.
unfoldable pub dst_reg_of_inst : ℕ → ℤ
unfolding dst_regs_of_inst
dst_reg_of_inst raw = elim (dst_regs_of_inst raw) [ [] ↦ negsuc 0 | ◌∷◌ rd rest ↦ pos rd ]
