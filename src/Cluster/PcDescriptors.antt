-- ===== src/Cluster/PcDescriptors.antt =====
-- internal/cluster/pcdescriptors.go: the descriptors of the call sites.
pub mod Total
pub mod RoundTrip
pub mod Written
use aotopsy.Base.{
  ℕ, zero, suc, ◌+◌, ◌-◌, ◌/◌, ◌%◌, ◌^◌, Bool, true, false, not, ◌==◌, ◌&&◌, ltb, if◌then◌else◌,
  List, [], ◌∷◌, ◌++◌, Option, none, some, length,
}
use aotopsy.Base.Int.{ℤ, pos, negsuc, sub_ℕ, signed64, add_int, to_u32, is_nonneg}
use aotopsy.Dartfmt.Varint.{shl64}
use Prim.Native.Nat.{bit_and, bit_or}

pub record PcDescriptorEntry : Type 0 where
  pub pc_offset : ℕ
  pub kind : ℕ
  pub try_index : ℤ
  pub yield_index : ℤ

-- What readSLEB128 returns: a value with the bytes behind it, or one of its two errors. The bytes
-- from a position on stand for the slice and the position.
pub data Sleb : Type 0 where
  sleb_value : ℤ → List ℕ → Sleb
  sleb_truncated sleb_too_long : Sleb

-- `val |= -1 << shift`, where the sign bit of the last byte is set.
abbrev pub sign_extended : ℕ → ℕ → ℕ → ℕ
sign_extended b shift val =
    if ltb shift 64 && not (bit_and b 0x40 == 0) then bit_or val (2 ^ 64 - 2 ^ shift) else val

-- The loop: `val` is the pattern of the int64.
unfoldable pub sleb128_loop : List ℕ → ℕ → ℕ → Sleb
sleb128_loop [] shift val = sleb_truncated
sleb128_loop (b ∷ rest) shift val =
    let val' = if ltb shift 64 then bit_or val (shl64 (b % 128) shift) else val in
    let more = sleb128_loop rest (shift + 7) val' in
    if ltb b 128
    then sleb_value (signed64 (sign_extended b (shift + 7) val')) rest
    else if ltb 70 (shift + 7)
    then sleb_too_long
    else more

unfoldable pub read_sleb128 : List ℕ → Sleb
unfolding sleb128_loop
read_sleb128 buf = sleb128_loop buf 0 0

-- The kind is one of 1, 2, 4 to 128; the indices are one less than what is stored.
abbrev pub decode_kind_and_metadata : ℤ → ℕ × ℤ × ℤ
decode_kind_and_metadata kam =
    let u = to_u32 kam in (2 ^ (u % 8), sub_ℕ (u / 8 % 1024) 1, sub_ℕ (u / 8192) 1)

pub data PcError : Type 0 where
  bad_kind_and_metadata bad_delta : Sleb → PcError
  negative_pc_offset : ℤ → PcError

-- The entries with the error, where there is one; `unfinished` is no Go outcome.
pub data PcOutcome : Type 0 where
  decoded : List PcDescriptorEntry → Option PcError → PcOutcome
  unfinished : PcOutcome

abbrev pub pc_entry : ℤ → ℤ → PcDescriptorEntry
pc_entry kam pc =
    let (kind, try_index, yield_index) = decode_kind_and_metadata kam in
    record { pc_offset = to_u32 pc; kind = kind; try_index = try_index; yield_index = yield_index }

-- The loop, with fuel: a round takes two bytes at least.
unfoldable pub descriptors_loop : ℕ → List ℕ → ℤ → List PcDescriptorEntry → PcOutcome
unfolding read_sleb128
descriptors_loop fuel [] pc entries = decoded entries none
descriptors_loop zero (b ∷ bytes) pc entries = unfinished
descriptors_loop (suc fuel) (b ∷ bytes) pc entries = elim (read_sleb128 (b ∷ bytes)) [
  | sleb_truncated ↦ decoded entries (some (bad_kind_and_metadata sleb_truncated))
  | sleb_too_long ↦ decoded entries (some (bad_kind_and_metadata sleb_too_long))
  | sleb_value kam next ↦ elim (read_sleb128 next) [
    | sleb_truncated ↦ decoded entries (some (bad_delta sleb_truncated))
    | sleb_too_long ↦ decoded entries (some (bad_delta sleb_too_long))
    | sleb_value delta rest ↦ elim (is_nonneg (add_int pc delta)) [
      | false ↦ decoded entries (some (negative_pc_offset (add_int pc delta)))
      | true ↦
          descriptors_loop fuel rest (add_int pc delta)
            (entries ++ pc_entry kam (add_int pc delta) ∷ [])
    ]
  ]
]

unfoldable pub decode_pc_descriptors : List ℕ → PcOutcome
unfolding descriptors_loop
decode_pc_descriptors payload = descriptors_loop (length payload) payload (pos 0) []
