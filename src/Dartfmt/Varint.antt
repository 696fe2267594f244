-- ===== src/Dartfmt/Varint.antt =====
-- internal/dartfmt/stream.go: the variable-length integers and the reference ids.
pub mod Decode
pub mod RoundTrip
pub mod Total
pub mod Oversize
pub mod RefId
use Prim.Native.Nat.{bit_or}
use aotopsy.Base.{ℕ, zero, suc, ◌+◌, ◌-◌, ◌*◌, ◌%◌, ◌^◌, Bool, true, false, ltb, leb, if◌then◌else◌}
use aotopsy.Base.Int.{ℤ, pos, negsuc, sub_ℕ, signed64, pattern64, to_u32}
use aotopsy.Dartfmt.Stream.{Stream, Step, M, ◌>>=◌, pure, raise, stuck, overrun, read_byte}

abbrev pub max_unsigned_data_per_byte : ℕ
max_unsigned_data_per_byte = 127

abbrev pub end_unsigned_byte_marker : ℕ
end_unsigned_byte_marker = 128

abbrev pub end_byte_marker : ℕ
end_byte_marker = 192

-- `x << s` on the 64-bit pattern of x.
abbrev pub shl64 : ℕ → ℕ → ℕ
shl64 x s = x * 2 ^ s % 2 ^ 64

-- The body of the `for` loop; `r` is the pattern of the int64 accumulator.
read_varint_loop : ℕ → ℕ → ℕ → ℕ → ℕ → ℕ → M ℤ
read_varint_loop zero marker max_shift b r shift s = stuck
read_varint_loop (suc fuel) marker max_shift b r shift s =
    let r' = bit_or r (shl64 b shift) in
    let shift' = shift + 7 in
    (read_byte >>= λ b'.
    let more = read_varint_loop fuel marker max_shift b' r' shift' in
    if ltb max_unsigned_data_per_byte b'
    then pure (signed64 (bit_or r' (shl64 (pattern64 (sub_ℕ b' marker)) shift')))
    else if leb max_shift shift'
    then raise overrun
    else more)
      s

-- A round adds 7 to `shift` and ends where that reaches `max_shift`: `max_shift + 1` rounds do.
unfoldable pub read_varint : ℕ → ℕ → M ℤ
unfolding read_varint_loop
read_varint marker max_shift = read_byte >>= λ b.
    if ltb max_unsigned_data_per_byte b
    then pure (sub_ℕ b marker)
    else read_varint_loop (max_shift + 1) marker max_shift b 0 0

unfoldable pub read_unsigned : M ℤ
unfolding read_varint
read_unsigned = read_varint end_unsigned_byte_marker 63

unfoldable pub read_tagged32 : M ℕ
unfolding read_varint
read_tagged32 = read_varint end_byte_marker 28 >>= λ v. pure (to_u32 v)

unfoldable pub read_tagged64 : M ℤ
unfolding read_varint
read_tagged64 = read_varint end_byte_marker 63

-- The byte as an int8, widened to the pattern of an int64.
abbrev pub int8_pattern : ℕ → ℕ
int8_pattern b = if ltb b 128 then b else b + 2 ^ 64 - 256

-- The loop of ReadRefId with `rounds` of its five rounds left; `result` is the pattern of the
-- accumulator.
ref_id_loop : ℕ → ℕ → M ℤ
ref_id_loop zero result s = raise overrun s
ref_id_loop (suc rounds) result s =
    (read_byte >>= λ b.
    let result' = (int8_pattern b + shl64 result 7) % 2 ^ 64 in
    let more = ref_id_loop rounds result' in
    if ltb b 128 then more else pure (signed64 ((result' + 128) % 2 ^ 64)))
      s

unfoldable pub read_ref_id : M ℤ
unfolding ref_id_loop
read_ref_id = ref_id_loop 5 0
