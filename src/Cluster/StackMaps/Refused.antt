-- ===== src/Cluster/StackMaps/Refused.antt =====
-- The decoder of safepoint tables on malformed input.
use aotopsy.Base.{ℕ, ◌-◌, ◌^◌, ◌≤◌, ◌<◌, ◌≡◌, refl, arith}
use aotopsy.Base.{List, [], ◌++◌, some, length, true, ltb, ◌&&◌}
use aotopsy.Base.Int.{pos, negsuc, signed64, ltb_ℤ, add_int-pos}
use aotopsy.Base.Go.{returned, crashed}
use aotopsy.Dartfmt.Stream.Zipper.{Fits, slice-between}
use aotopsy.Cluster.StackMaps.{
  read_leb128, read_csm_bitmap_body, read_entry, table_entry, no_entry, bitmap,
}
use aotopsy.Cluster.StackMaps.Written.{read_leb128-then}
use aotopsy.Cluster.StackMaps.Leb.{write_leb128}
use mathlib.Core.List.{append_assoc, append-nil}

-- At the end of the bytes, readLEB128 returns 0 with a nil error.
read_leb128-end :
    (bytes : List ℕ) → read_leb128 bytes (pos (length bytes)) ≡ returned (0, pos (length bytes))
unfolding read_leb128
read_leb128-end bytes = ground arith

bitmap-end :
    (bytes : List ℕ)
    → Fits bytes
    → bitmap bytes 0 0 (pos (length bytes)) ≡ returned (some (no_entry, pos (length bytes)))
bitmap-end bytes fits =
    let same : bytes ++ ([] ++ []) ≡ bytes = append-nil bytes in
    let s = rw same at (slice-between bytes [] [] (length bytes) (omega arith)) in
    ground (arith, s, add_int-pos (length bytes) 0)

-- A body of which nothing is there, at the end of the bytes, is taken for a well-formed one, with
-- both counts 0 and no bits.
read_csm_bitmap_body-truncated :
    (bytes : List ℕ)
    → Fits bytes
    → read_csm_bitmap_body bytes (pos (length bytes))
      ≡ returned (some (no_entry, pos (length bytes)))
unfolding read_csm_bitmap_body
read_csm_bitmap_body-truncated bytes fits =
    rw (read_leb128-end bytes, read_leb128-end bytes) (bitmap-end bytes fits)

-- A negative index panics.
read_leb128-negative : (bytes : List ℕ) (n : ℕ) → read_leb128 bytes (negsuc n) ≡ crashed
unfolding read_leb128
read_leb128-negative bytes n = ground arith

read_csm_bitmap_body-negative :
    (bytes : List ℕ) (n : ℕ) → read_csm_bitmap_body bytes (negsuc n) ≡ crashed
unfolding read_csm_bitmap_body
read_csm_bitmap_body-negative bytes n = rw (read_leb128-negative bytes n) refl

table_entry-crashes :
    (table : List ℕ) (offset : ℕ)
    → 0 < length table
    → 2 ^ 63 ≤ offset
    → offset < 2 ^ 64
    → table_entry table offset ≡ crashed
unfolding table_entry
table_entry-crashes table offset h low high =
    let n : ℕ = 2 ^ 64 - 1 - offset in
    let below : signed64 offset ≡ negsuc n = ground arith in
    let inside : ltb 0 (length table) && ltb_ℤ (negsuc n) (pos (length table)) ≡ true =
      ground arith in
    rw (below, inside, read_csm_bitmap_body-negative table n) refl

-- An entry that refers to an offset of 2 ^ 63 or more of a global table that is not empty makes
-- the decoder panic: the offset is negative as an int, and passes the test of the bounds.
pub read_entry-crashes :
    (before after table : List ℕ) (delta offset pc : ℕ)
    → 0 < length table
    → delta < 2 ^ 64
    → 2 ^ 63 ≤ offset
    → offset < 2 ^ 64
    → Fits (before ++ (write_leb128 9 delta ++ (write_leb128 9 offset ++ after)))
    → read_entry true
        (before ++ (write_leb128 9 delta ++ (write_leb128 9 offset ++ after)))
        table
        pc
        (pos (length before))
      ≡ crashed
unfolding read_entry
read_entry-crashes before after table delta offset pc some_table d low high fits =
    let bytes = before ++ (write_leb128 9 delta ++ (write_leb128 9 offset ++ after)) in
    let next = before ++ write_leb128 9 delta in
    let e : bytes ≡ next ++ (write_leb128 9 offset ++ after) = simp append_assoc in
    let r1 =
      read_leb128-then delta before next (write_leb128 9 offset ++ after) bytes d refl fits refl in
    let r2 =
      read_leb128-then offset next (next ++ write_leb128 9 offset) after bytes high e fits refl in
    rw (r1, r2, table_entry-crashes table offset some_table low high) refl
