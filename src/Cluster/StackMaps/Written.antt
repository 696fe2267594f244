-- ===== src/Cluster/StackMaps/Written.antt =====
-- The safepoint tables that the SDK writes, standalone, and what the decoder makes of them.
use aotopsy.Base.{ℕ, ◌+◌, ◌/◌, ◌^◌, ◌≤◌, ◌<◌, ◌≡◌, refl, arith}
use aotopsy.Base.{List, ◌++◌, some, length, length-append}
use aotopsy.Base.Int.{pos, add_int-pos}
use aotopsy.Base.Go.{returned}
use aotopsy.Dartfmt.Stream.Zipper.{Fits, slice-between}
use aotopsy.Cluster.StackMaps.{StackMapEntry, bitmap, max_bits, read_leb128, read_csm_bitmap_body}
use aotopsy.Cluster.StackMaps.Leb.{write_leb128, read_leb128-write_leb128}
use mathlib.Core.List.{append_assoc}

-- A safepoint: its distance from the one before, the two counts and the packed bits.
pub record Safepoint : Type 0 where
  pub delta : ℕ
  pub spill : ℕ
  pub saved : ℕ
  pub bits : List ℕ

pub record IsSafepoint (p : Safepoint) : Type 0 where
  pub near : p.delta < 2 ^ 32
  pub few_spilled : p.spill ≤ max_bits
  pub few_saved : p.saved ≤ max_bits
  pub packed : length p.bits ≡ (p.spill + p.saved + 7) / 8

abbrev pub entry_at : ℕ → Safepoint → StackMapEntry
entry_at pc p = record {
  pc_offset = pc;
  spill_slot_count = p.spill;
  saved_slot_count = p.saved;
  bits = p.bits;
}

unfoldable pub write_counts : Safepoint → List ℕ
write_counts p = write_leb128 9 p.spill ++ write_leb128 9 p.saved

unfoldable pub write_safepoint : Safepoint → List ℕ
write_safepoint p = write_leb128 9 p.delta ++ (write_counts p ++ p.bits)

bitmap-between :
    (before after : List ℕ) (p : Safepoint)
    → IsSafepoint p
    → Fits (before ++ (p.bits ++ after))
    → bitmap (before ++ (p.bits ++ after)) p.spill p.saved (pos (length before))
      ≡ returned (some (entry_at 0 p, pos (length (before ++ p.bits))))
bitmap-between before after p v fits = ground (
  arith,
  slice-between before p.bits after (length before + (p.spill + p.saved + 7) / 8),
  add_int-pos (length before) ((p.spill + p.saved + 7) / 8),
  length-append before (p.bits ++ after),
  length-append p.bits after,
  length-append before p.bits,
  v.packed,
  v.few_spilled,
  v.few_saved,
)

-- What is read of a written number, within nested lists.
pub read_leb128-then :
    (v : ℕ) (before next after bytes : List ℕ)
    → v < 2 ^ 64
    → bytes ≡ before ++ (write_leb128 9 v ++ after)
    → Fits bytes
    → next ≡ before ++ write_leb128 9 v
    → read_leb128 bytes (pos (length before)) ≡ returned (v, pos (length next))
read_leb128-then v before next after bytes h e fits n =
    rw (e, n) (read_leb128-write_leb128 v before after h (rw e at fits))

pub read_csm_bitmap_body-write :
    (before after : List ℕ) (p : Safepoint)
    → IsSafepoint p
    → Fits (before ++ ((write_counts p ++ p.bits) ++ after))
    → read_csm_bitmap_body (before ++ ((write_counts p ++ p.bits) ++ after)) (pos (length before))
      ≡ returned (some (entry_at 0 p, pos (length (before ++ (write_counts p ++ p.bits)))))
unfolding read_csm_bitmap_body write_counts
read_csm_bitmap_body-write before after p v fits =
    let a = write_leb128 9 p.spill in
    let b = write_leb128 9 p.saved in
    let bytes = before ++ (((a ++ b) ++ p.bits) ++ after) in
    let e1 : bytes ≡ before ++ (a ++ (b ++ (p.bits ++ after))) = simp append_assoc in
    let e2 : bytes ≡ (before ++ a) ++ (b ++ (p.bits ++ after)) = simp append_assoc in
    let e3 : bytes ≡ ((before ++ a) ++ b) ++ (p.bits ++ after) = simp append_assoc in
    let e4 : ((before ++ a) ++ b) ++ p.bits ≡ before ++ ((a ++ b) ++ p.bits) = simp append_assoc in
    let r1 =
      read_leb128-then p.spill before (before ++ a) (b ++ (p.bits ++ after)) bytes
        (omega (arith, v.few_spilled)) e1 fits refl in
    let r2 =
      read_leb128-then p.saved (before ++ a) ((before ++ a) ++ b) (p.bits ++ after) bytes
        (omega (arith, v.few_saved)) e2 fits refl in
    let r3 = bitmap-between ((before ++ a) ++ b) after p v (rw e3 at fits) in
    rw (r1, r2) (rw (← e3, e4) at r3)
