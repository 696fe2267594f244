-- ===== src/Cluster/StackMaps.antt =====
-- internal/cluster/compressedstackmaps.go: the safepoint tables and their bitmaps.
pub mod Leb
pub mod Written
pub mod RoundTrip
pub mod Refused
use aotopsy.Base.{ℕ, zero, suc, ◌+◌, ◌-◌, ◌*◌, ◌/◌, ◌%◌, ◌^◌, Bool, true, false, not, ◌==◌, ltb}
use aotopsy.Base.{leb, ◌&&◌, ◌||◌, if◌then◌else◌, List, [], ◌∷◌, ◌++◌, Option, none, some}
use aotopsy.Base.{length, get_elem?, take, drop}
use aotopsy.Base.Int.{ℤ, pos, negsuc, add_int, ltb_ℤ, signed64, mul_int}
use aotopsy.Base.Go.{Go, returned, crashed, unfinished, and_then}
use aotopsy.Dartfmt.Stream.{slice}
use aotopsy.Dartfmt.Varint.{shl64}
use Prim.Native.Nat.{bit_and, bit_or}

-- The decoder makes counts of 0 to 2 ^ 20 alone: they are numbers here.
pub record StackMapEntry : Type 0 where
  pub pc_offset : ℕ
  pub spill_slot_count : ℕ
  pub saved_slot_count : ℕ
  pub bits : List ℕ

-- `StackMapEntry{}`
abbrev pub no_entry : StackMapEntry
no_entry = record { pc_offset = 0; spill_slot_count = 0; saved_slot_count = 0; bits = [] }

abbrev pub bit_length : StackMapEntry → ℕ
bit_length e = e.spill_slot_count + e.saved_slot_count

-- `e.Bits[byteIdx] & (1 << uint(bitIndex%8)) != 0`, false where the byte is missing.
abbrev pub test_bit : Option ℕ → ℕ → Bool
test_bit none k = false
test_bit (some byte) k = not (bit_and byte (2 ^ k) == 0)

unfoldable pub is_object : StackMapEntry → ℤ → Bool
is_object e (negsuc _) = false
is_object e (pos b) =
    if leb (bit_length e) b then false else test_bit (get_elem? e.bits (b / 8)) (b % 8)

unfoldable pub is_spill_object : StackMapEntry → ℤ → Bool
unfolding is_object
is_spill_object e (negsuc _) = false
is_spill_object e (pos i) = if leb e.spill_slot_count i then false else is_object e (pos i)

unfoldable pub saved_slot_is_object : StackMapEntry → ℤ → Bool
unfolding is_object
saved_slot_is_object e (negsuc _) = false
saved_slot_is_object e (pos i) =
    if leb e.saved_slot_count i then false else is_object e (pos (bit_length e - 1 - i))

abbrev pub first_local_slot_from_fp : ℤ
first_local_slot_from_fp = negsuc 2

-- The loop of ObjectSpillSlotOffsets from slot `i` on, with `left` slots to go.
unfoldable pub offsets_from : ℕ → ℕ → StackMapEntry → ℤ → List ℤ
unfolding is_spill_object
offsets_from zero i e word = []
offsets_from (suc left) i e word =
    let rest = offsets_from left (suc i) e word in
    if is_spill_object e (pos i) then mul_int (negsuc (2 + i)) word ∷ rest else rest

unfoldable pub object_spill_slot_offsets : StackMapEntry → ℤ → List ℤ
unfolding offsets_from
object_spill_slot_offsets e word = offsets_from e.spill_slot_count 0 e word

-- `data[pos]`: none is the panic of a bad index.
abbrev pub at_byte : List ℕ → ℤ → Option ℕ
at_byte bytes (pos p) = get_elem? bytes p
at_byte bytes (negsuc _) = none

-- The loop of readLEB128. The shift reaches 64 in the tenth round: 10 rounds are fuel enough.
unfoldable pub leb128_loop : ℕ → List ℕ → ℤ → ℕ → ℕ → Go (ℕ × ℤ)
leb128_loop zero bytes p result shift = unfinished
leb128_loop (suc rounds) bytes p result shift =
    let more = λ (r : ℕ). leb128_loop rounds bytes (add_int p (pos 1)) r (shift + 7) in
    if not (ltb_ℤ p (pos (length bytes))) then returned (0, p) else elim (at_byte bytes p) [
      | none ↦ crashed
      | some b ↦
          let result' = bit_or result (shl64 (b % 128) shift) in
          if ltb b 128
          then returned (result', add_int p (pos 1))
          else if leb 64 (shift + 7)
          then returned (0, add_int p (pos 1))
          else more result'
    ]

-- The error of readLEB128 is always nil.
unfoldable pub read_leb128 : List ℕ → ℤ → Go (ℕ × ℤ)
unfolding leb128_loop
read_leb128 bytes p = leb128_loop 10 bytes p 0 0

abbrev pub max_bits : ℕ
max_bits = 2 ^ 20

-- readCSMBitmapBody once both counts are read: `none` is a body that is not ok.
abbrev pub bitmap : List ℕ → ℕ → ℕ → ℤ → Go (Option (StackMapEntry × ℤ))
bitmap bytes spill saved p =
    let total = (spill + saved + 7) / 8 in
    let to = add_int p (pos total) in
    if ltb max_bits spill || ltb max_bits saved
    then returned none
    else if ltb_ℤ (pos (length bytes)) to
    then returned none
    else elim (slice bytes p to) [
      | none ↦ crashed
      | some bits ↦ returned (
          some (
            record {
              pc_offset = 0;
              spill_slot_count = spill;
              saved_slot_count = saved;
              bits = bits;
            },
            to,
          ))
    ]

unfoldable pub read_csm_bitmap_body : List ℕ → ℤ → Go (Option (StackMapEntry × ℤ))
unfolding read_leb128
read_csm_bitmap_body bytes p =
    and_then (read_leb128 bytes p)
      λ (spill, p1). and_then (read_leb128 bytes p1) λ (saved, p2). bitmap bytes spill saved p2

-- The uint32 header, `uint32(p[0]) | uint32(p[1])<<8 | ...`: `none` where there are not four bytes.
unfoldable pub flags_and_size : List ℕ → Option ℕ
flags_and_size (b0 ∷ b1 ∷ b2 ∷ b3 ∷ bytes) =
    some (bit_or (bit_or (bit_or b0 (b1 * 2 ^ 8)) (b2 * 2 ^ 16)) (b3 * 2 ^ 24))
flags_and_size _ = none

-- The bytes that a header of `flags` announces, behind it: `none` where they are not all there.
abbrev pub announced : ℕ → List ℕ → Option (List ℕ)
announced flags payload =
    let size = flags / 4 in
    if ltb (length payload) (size + 4) then none else some (take size (drop 4 payload))

-- `gtData`
unfoldable pub table_data : Bool → List ℕ → List ℕ
unfolding flags_and_size
table_data false table = []
table_data true table = elim (flags_and_size table) [
  | none ↦ []
  | some flags ↦ elim (announced flags table) [ none ↦ [] | some rest ↦ rest ]
]

abbrev pub entry_or_none : Option (StackMapEntry × ℤ) → StackMapEntry
entry_or_none none = no_entry
entry_or_none (some (e, p)) = e

-- The body of a table-referencing entry: the conversion to int of an offset of 2 ^ 63 or more is
-- negative.
unfoldable pub table_entry : List ℕ → ℕ → Go StackMapEntry
unfolding read_csm_bitmap_body
table_entry table offset =
    let o = signed64 offset in
    if ltb 0 (length table) && ltb_ℤ o (pos (length table))
    then (and_then (read_csm_bitmap_body table o) λ r. returned (entry_or_none r))
    else returned no_entry

-- `currentPC += uint32(pcDelta)`
abbrev pub add_pc : ℕ → ℕ → ℕ
add_pc pc delta = (pc + delta % 2 ^ 32) % 2 ^ 32

-- A round of the loop: the entry, the pc and the position after it, `none` for a `break`.
unfoldable pub read_entry : Bool → List ℕ → List ℕ → ℕ → ℤ → Go (Option (StackMapEntry × ℤ))
unfolding table_entry
read_entry true bytes table pc p = and_then (read_leb128 bytes p) λ (delta, p1).
    and_then (read_leb128 bytes p1) λ (offset, p2).
      and_then (table_entry table offset)
        λ e. returned (some (record e { pc_offset = add_pc pc delta }, p2))
read_entry false bytes table pc p = and_then (read_leb128 bytes p) λ (delta, p1).
    and_then (read_csm_bitmap_body bytes p1) λ r. elim r [
      | none ↦ returned none
      | some (e, p2) ↦ returned (some (record e { pc_offset = add_pc pc delta }, p2))
    ]

abbrev pub with_entry :
    (StackMapEntry → ℤ → Go (List StackMapEntry))
    → List StackMapEntry
    → Go (Option (StackMapEntry × ℤ))
    → Go (List StackMapEntry)
with_entry next entries (returned none) = returned entries
with_entry next entries (returned (some (e, p))) = next e p
with_entry next entries crashed = crashed
with_entry next entries unfinished = unfinished

unfoldable pub entries_loop :
    ℕ → Bool → List ℕ → List ℕ → List StackMapEntry → ℕ → ℤ → Go (List StackMapEntry)
unfolding read_entry
entries_loop zero uses bytes table entries pc p = unfinished
entries_loop (suc fuel) uses bytes table entries pc p =
    let next = λ (e : StackMapEntry) (p' : ℤ).
      entries_loop fuel uses bytes table (entries ++ (e ∷ [])) e.pc_offset p' in
    if ltb_ℤ p (pos (length bytes))
    then with_entry next entries (read_entry uses bytes table pc p)
    else returned entries

-- The part of DecodeCompressedStackMaps behind the header. A round reads a byte at least, so the
-- bytes and a round to see the end are fuel enough.
abbrev pub decode_body : ℕ → List ℕ → List ℕ → Go (List StackMapEntry)
decode_body flags bytes global_table =
    let uses = flags / 2 % 2 == 1 in
    if flags % 2 == 1
    then (and_then (read_csm_bitmap_body bytes (pos 0))
        λ r. elim r [ none ↦ returned [] | some (e, p) ↦ returned (e ∷ []) ])
    else entries_loop (suc (length bytes)) uses bytes (table_data uses global_table) [] 0 (pos 0)

-- The bounds test of the announced bytes, and the test of the header before it.
abbrev pub decode_announced : ℕ → List ℕ → Option (List ℕ) → Go (List StackMapEntry)
decode_announced flags global_table none = returned []
decode_announced flags global_table (some bytes) = decode_body flags bytes global_table

abbrev pub decode_flagged : List ℕ → List ℕ → Option ℕ → Go (List StackMapEntry)
decode_flagged payload global_table none = returned []
decode_flagged payload global_table (some flags) =
    decode_announced flags global_table (announced flags payload)

-- The error of DecodeCompressedStackMaps is always nil.
unfoldable pub decode_compressed_stack_maps : List ℕ → List ℕ → Go (List StackMapEntry)
unfolding flags_and_size read_csm_bitmap_body entries_loop table_data
decode_compressed_stack_maps payload global_table =
    decode_flagged payload global_table (flags_and_size payload)
