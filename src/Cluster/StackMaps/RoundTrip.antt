-- ===== src/Cluster/StackMaps/RoundTrip.antt =====
-- The decoder on a whole standalone table.
use aotopsy.Base.{ℕ, zero, suc, ◌+◌, ◌*◌, ◌/◌, ◌%◌, ◌^◌, ◌≤◌, ◌<◌, ◌≡◌, refl, ap, ◌∙◌, arith}
use aotopsy.Base.{List, [], ◌∷◌, ◌++◌, some, length, length-append, false, ◌==◌}
use aotopsy.Base.Int.{pos}
use aotopsy.Base.Bits.{bit_or-shifted}
use aotopsy.Base.Go.{returned}
use aotopsy.Dartfmt.Stream.Zipper.{Fits, take-prefix}
use aotopsy.Cluster.StackMaps.{
  StackMapEntry, read_entry, read_csm_bitmap_body, entries_loop, decode_compressed_stack_maps,
  add_pc, flags_and_size, table_data, announced, decode_flagged, decode_announced,
}
use aotopsy.Cluster.StackMaps.Written.{
  Safepoint, IsSafepoint, entry_at, write_counts, write_safepoint, read_leb128-then,
  read_csm_bitmap_body-write,
}
use aotopsy.Cluster.StackMaps.Leb.{write_leb128}
use mathlib.Core.List.{append_assoc, append-nil}

-- The entries of safepoints from a pc on.
abbrev pub accumulate : ℕ → List Safepoint → List StackMapEntry
accumulate pc [] = []
accumulate pc (p ∷ ps) = entry_at (pc + p.delta) p ∷ accumulate (pc + p.delta) ps

abbrev pub last_pc : ℕ → List Safepoint → ℕ
last_pc pc [] = pc
last_pc pc (p ∷ ps) = last_pc (pc + p.delta) ps

abbrev pub AreSafepoints : List Safepoint → Type 0
AreSafepoints [] = Unit
AreSafepoints (p ∷ ps) = IsSafepoint p × AreSafepoints ps

unfoldable pub write_safepoints : List Safepoint → List ℕ
write_safepoints [] = []
write_safepoints (p ∷ ps) = write_safepoint p ++ write_safepoints ps

-- Four bytes, the lowest first.
abbrev pub write_header : ℕ → List ℕ
write_header w = w % 256 ∷ w / 256 % 256 ∷ w / 65536 % 256 ∷ w / 16777216 ∷ []

last_pc_grows : (ps : List Safepoint) (pc : ℕ) → pc ≤ last_pc pc ps
last_pc_grows [] pc = omega arith
last_pc_grows (p ∷ ps) pc = omega (arith, last_pc_grows ps (pc + p.delta))

write_leb128_some : (k v : ℕ) → 0 < length (write_leb128 k v)
unfolding write_leb128
write_leb128_some zero v = omega arith
write_leb128_some (suc k) v = ground arith

write_safepoint_some : (p : Safepoint) → 0 < length (write_safepoint p)
unfolding write_safepoint
write_safepoint_some p = omega (
  arith,
  write_leb128_some 9 p.delta,
  length-append (write_leb128 9 p.delta) (write_counts p ++ p.bits),
)

read_csm_bitmap_body-then :
    (before next after bytes : List ℕ) (p : Safepoint)
    → IsSafepoint p
    → bytes ≡ before ++ ((write_counts p ++ p.bits) ++ after)
    → Fits bytes
    → before ++ (write_counts p ++ p.bits) ≡ next
    → read_csm_bitmap_body bytes (pos (length before))
      ≡ returned (some (entry_at 0 p, pos (length next)))
read_csm_bitmap_body-then before next after bytes p v e fits n =
    rw (e, ← n) (read_csm_bitmap_body-write before after p v (rw e at fits))

read_entry-write :
    (before after table : List ℕ) (pc : ℕ) (p : Safepoint)
    → IsSafepoint p
    → pc + p.delta < 2 ^ 32
    → Fits (before ++ (write_safepoint p ++ after))
    → read_entry false (before ++ (write_safepoint p ++ after)) table pc (pos (length before))
      ≡ returned (some (entry_at (pc + p.delta) p, pos (length (before ++ write_safepoint p))))
unfolding read_entry write_safepoint
read_entry-write before after table pc p v low fits =
    let d = write_leb128 9 p.delta in
    let body = write_counts p ++ p.bits in
    let bytes = before ++ ((d ++ body) ++ after) in
    let e1 : bytes ≡ before ++ (d ++ (body ++ after)) = simp append_assoc in
    let e2 : bytes ≡ (before ++ d) ++ (body ++ after) = simp append_assoc in
    let e3 : (before ++ d) ++ body ≡ before ++ (d ++ body) = append_assoc before d body in
    let r1 =
      read_leb128-then p.delta before (before ++ d) (body ++ after) bytes (omega (arith, v.near)) e1
        fits refl in
    let r3 =
      read_csm_bitmap_body-then (before ++ d) (before ++ (d ++ body)) after bytes p v e2 fits e3 in
    let sum : add_pc pc p.delta ≡ pc + p.delta = omega (arith, v.near) in rw (r1, r3, sum) refl

entries_loop-write :
    (ps : List Safepoint) (fuel pc : ℕ) (before table : List ℕ) (entries : List StackMapEntry)
    → AreSafepoints ps
    → length ps < fuel
    → last_pc pc ps < 2 ^ 32
    → Fits (before ++ write_safepoints ps)
    → entries_loop fuel false (before ++ write_safepoints ps) table entries pc (pos (length before))
      ≡ returned (entries ++ accumulate pc ps)
unfolding entries_loop write_safepoints
entries_loop-write [] zero pc before table entries v n low fits = elim n [ ]
entries_loop-write (p ∷ ps) zero pc before table entries v n low fits = elim n [ ]
entries_loop-write [] (suc fuel) pc before table entries v n low fits =
    ground (arith, length-append before [], append-nil entries)
entries_loop-write (p ∷ ps) (suc fuel) pc before table entries v n low fits =
    let here : pc + p.delta < 2 ^ 32 = omega (arith, last_pc_grows ps (pc + p.delta)) in
    let r = read_entry-write before (write_safepoints ps) table pc p v.0 here fits in
    let e = append_assoc before (write_safepoint p) (write_safepoints ps) in
    let rest =
      entries_loop-write ps fuel (pc + p.delta) (before ++ write_safepoint p) table
        (entries ++ (entry_at (pc + p.delta) p ∷ [])) v.1 (omega arith) low (rw e fits) in
    ground (
      arith,
      r,
      e,
      rest,
      append_assoc entries (entry_at (pc + p.delta) p ∷ []) (accumulate (pc + p.delta) ps),
      length-append before (write_safepoint p ++ write_safepoints ps),
      length-append (write_safepoint p) (write_safepoints ps),
      write_safepoint_some p,
    )

flags_and_size-header :
    (w : ℕ) (bytes : List ℕ) → w < 2 ^ 32 → flags_and_size (write_header w ++ bytes) ≡ some w
unfolding flags_and_size
flags_and_size-header w bytes h =
    let a = bit_or-shifted 8 (w % 256) (w / 256 % 256) (omega arith) in
    let low : w % 256 + w / 256 % 256 * 2 ^ 8 < 2 ^ 16 = omega arith in
    let b = bit_or-shifted 16 (w % 256 + w / 256 % 256 * 2 ^ 8) (w / 65536 % 256) low in
    let lower : w % 256 + w / 256 % 256 * 2 ^ 8 + w / 65536 % 256 * 2 ^ 16 < 2 ^ 24 = omega arith in
    let c =
      bit_or-shifted 24 (w % 256 + w / 256 % 256 * 2 ^ 8 + w / 65536 % 256 * 2 ^ 16) (w / 16777216)
        lower in
    let whole : w % 256 + w / 256 % 256 * 2 ^ 8 + w / 65536 % 256 * 2 ^ 16 + w / 16777216 * 2 ^ 24
        ≡ w =
      omega arith in
    rw (a, b, c, whole) refl

length-write_safepoints : (ps : List Safepoint) → length ps ≤ length (write_safepoints ps)
unfolding write_safepoints
length-write_safepoints [] = omega arith
length-write_safepoints (p ∷ ps) = omega (
  arith,
  length-write_safepoints ps,
  write_safepoint_some p,
  length-append (write_safepoint p) (write_safepoints ps),
)

announced-header :
    (body trailing : List ℕ)
    → announced (4 * length body) (write_header (4 * length body) ++ (body ++ trailing)) ≡ some body
announced-header body trailing =
    let size : 4 * length body / 4 ≡ length body = omega arith in
    rw size (ground (arith, length-append body trailing, take-prefix body trailing))

-- A standalone table, the header and then the safepoints, is decoded to an entry for each
-- safepoint, at the sum of the distances so far, with its counts and bits. It needs distances
-- below 2 ^ 32 with a sum below 2 ^ 32, counts up to 2 ^ 20, and less than 2 ^ 30 bytes. What
-- follows the table is not read, and neither is a global table.
pub decode_compressed_stack_maps-write_safepoints :
    (ps : List Safepoint) (trailing table : List ℕ)
    → AreSafepoints ps
    → last_pc 0 ps < 2 ^ 32
    → length (write_safepoints ps) < 2 ^ 30
    → decode_compressed_stack_maps
        (write_header (4 * length (write_safepoints ps)) ++ (write_safepoints ps ++ trailing))
        table
      ≡ returned (accumulate 0 ps)
unfolding decode_compressed_stack_maps table_data
decode_compressed_stack_maps-write_safepoints ps trailing table v low fits =
    let body : List ℕ = write_safepoints ps in
    let size : ℕ = length body in
    let h = flags_and_size-header (4 * size) (body ++ trailing) (omega arith) in
    let a = announced-header body trailing in
    let r =
      entries_loop-write ps (suc size) 0 [] [] [] v (omega (arith, length-write_safepoints ps)) low
        (omega arith) in
    let none_global : (4 * size % 2 == 1) ≡ false = ground arith in
    let none_used : (4 * size / 2 % 2 == 1) ≡ false = ground arith in
    let payload = write_header (4 * size) ++ (body ++ trailing) in
    ap (decode_flagged payload table) h
    ∙ ap (decode_announced (4 * size) table) a
    ∙ rw (none_global, none_used) r
