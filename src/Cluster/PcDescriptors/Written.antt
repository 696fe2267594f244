-- ===== src/Cluster/PcDescriptors/Written.antt =====
-- The descriptors that the SDK writes are read back.
use aotopsy.Base.{
  ℕ, zero, suc, ◌+◌, ◌*◌, ◌/◌, ◌%◌, ◌^◌, ◌≤◌, ◌<◌, ◌≡◌, refl, ap, ◌∙◌, arith, Bool-cases, inl, inr,
  true, List, [], ◌∷◌, ◌++◌, none, length,
}
use aotopsy.Base.Int.{ℤ, pos, sub_ℕ, add_int, is_nonneg, signed32, to_u32, IsInt64}
use aotopsy.Dartfmt.Varint.RoundTrip.{asr7, is_small}
use aotopsy.Cluster.PcDescriptors.{
  PcDescriptorEntry, sleb_value, read_sleb128, decoded, pc_entry, descriptors_loop,
  decode_pc_descriptors,
}
use aotopsy.Cluster.PcDescriptors.RoundTrip.{write_sleb128, read_sleb128-write_sleb128}
use mathlib.Core.List.{append_assoc, append-nil}

-- A call site as the SDK has it: the logarithm of its kind, and its indices plus one.
pub record Described : Type 0 where
  pub pc : ℕ
  pub kind_log : ℕ
  pub try_plus : ℕ
  pub yield_plus : ℕ

abbrev pub IsDescribed : Described → Type 0
IsDescribed d = (d.pc < 2 ^ 32) × (d.kind_log < 8) × (d.try_plus < 1024) × (d.yield_plus < 2 ^ 19)

abbrev pub AreDescribed : List Described → Type 0
AreDescribed [] = Unit {0}
AreDescribed (d ∷ ds) = IsDescribed d × AreDescribed ds

-- KindAndMetadata::Encode, an int32.
abbrev pub metadata_word : Described → ℕ
metadata_word d = d.kind_log + 8 * d.try_plus + 8192 * d.yield_plus

-- The fields, then the distance from the descriptor before.
unfoldable pub write_descriptors : ℕ → List Described → List ℕ
write_descriptors prev [] = []
write_descriptors prev (d ∷ ds) =
    write_sleb128 9 (signed32 (metadata_word d))
    ++ (write_sleb128 9 (sub_ℕ d.pc prev) ++ write_descriptors d.pc ds)

abbrev pub entry_for : Described → PcDescriptorEntry
entry_for d = record {
  pc_offset = d.pc;
  kind = 2 ^ d.kind_log;
  try_index = sub_ℕ d.try_plus 1;
  yield_index = sub_ℕ d.yield_plus 1;
}

abbrev pub entries_for : List Described → List PcDescriptorEntry
entries_for [] = []
entries_for (d ∷ ds) = entry_for d ∷ entries_for ds

signed32-IsInt64 : (w : ℕ) → w < 2 ^ 32 → IsInt64 (signed32 w)
signed32-IsInt64 w h = ground arith

to_u32-signed32 : (w : ℕ) → w < 2 ^ 32 → to_u32 (signed32 w) ≡ w
to_u32-signed32 w h = ground arith

distance-IsInt64 : (a b : ℕ) → a < 2 ^ 32 → b < 2 ^ 32 → IsInt64 (sub_ℕ a b)
distance-IsInt64 a b h k = ground arith

add_distance : (a b : ℕ) → a < 2 ^ 32 → b < 2 ^ 32 → add_int (pos b) (sub_ℕ a b) ≡ pos a
unfolding add_int
add_distance a b h k = ground arith

word-below : (d : Described) → IsDescribed d → metadata_word d < 2 ^ 32
word-below d h = omega (arith, h)

entry_of_word :
    (d : Described) → IsDescribed d → pc_entry (signed32 (metadata_word d)) (pos d.pc) ≡ entry_for d
entry_of_word d h =
    let word : to_u32 (signed32 (metadata_word d)) ≡ metadata_word d =
      to_u32-signed32 (metadata_word d) (word-below d h) in
    let log : metadata_word d % 8 ≡ d.kind_log = omega (arith, h) in
    let try : metadata_word d / 8 % 1024 ≡ d.try_plus = omega (arith, h) in
    let yield : metadata_word d / 8192 ≡ d.yield_plus = omega (arith, h) in
    let pc : d.pc % 2 ^ 32 ≡ d.pc = omega (arith, h) in rw (word, log, try, yield, pc) refl

-- A round over two numbers that are read.
loop_round :
    (fuel : ℕ) (bytes next rest : List ℕ) (kam delta pc : ℤ) (p : ℕ)
    (entries : List PcDescriptorEntry)
    → read_sleb128 bytes ≡ sleb_value kam next
    → read_sleb128 next ≡ sleb_value delta rest
    → add_int pc delta ≡ pos p
    → descriptors_loop (suc fuel) bytes pc entries
      ≡ descriptors_loop fuel rest (pos p) (entries ++ pc_entry kam (pos p) ∷ [])
unfolding descriptors_loop
loop_round fuel [] next rest kam delta pc p entries e q s = cc
loop_round fuel (b ∷ bytes) next rest kam delta pc p entries e q s =
    let at_least : is_nonneg (add_int pc delta) ≡ true = rw s refl in
    rw (e, q, at_least, descriptors_loop)
      (ap (λ (z : ℤ). descriptors_loop fuel rest z (entries ++ pc_entry kam z ∷ [])) s)

longer : (k : ℕ) (z : ℤ) (rest : List ℕ) → length rest < length (write_sleb128 k z ++ rest)
unfolding write_sleb128
longer zero z rest = omega arith
longer (suc k) z rest = elim (Bool-cases (is_small z)) [
  | inl p ↦ rw p (omega arith)
  | inr p ↦ rw p (omega (arith, longer k (asr7 z) rest))
]

descriptors_loop-write :
    (fuel prev : ℕ) (ds : List Described) (entries : List PcDescriptorEntry)
    → prev < 2 ^ 32
    → AreDescribed ds
    → length (write_descriptors prev ds) ≤ fuel
    → descriptors_loop fuel (write_descriptors prev ds) (pos prev) entries
      ≡ decoded (entries ++ entries_for ds) none
unfolding write_descriptors descriptors_loop
descriptors_loop-write fuel prev [] entries h a f = rw append-nil refl
descriptors_loop-write zero prev (d ∷ ds) entries h a f = absurd (
    omega (
      arith,
      f,
      longer 9 (signed32 (metadata_word d))
          (write_sleb128 9 (sub_ℕ d.pc prev) ++ write_descriptors d.pc ds),
    ))
descriptors_loop-write (suc fuel) prev (d ∷ ds) entries h a f =
    let kam = signed32 (metadata_word d) in
    let delta = sub_ℕ d.pc prev in
    let rest = write_descriptors d.pc ds in
    loop_round fuel (write_sleb128 9 kam ++ (write_sleb128 9 delta ++ rest))
      (write_sleb128 9 delta ++ rest) rest kam delta (pos prev) d.pc entries
      (read_sleb128-write_sleb128 kam (write_sleb128 9 delta ++ rest)
        (signed32-IsInt64 (metadata_word d) (word-below d a.0)))
      (read_sleb128-write_sleb128 delta rest (distance-IsInt64 d.pc prev a.0.0 h))
      (add_distance d.pc prev a.0.0 h)
    ∙ descriptors_loop-write fuel d.pc ds (entries ++ pc_entry kam (pos d.pc) ∷ []) a.0.0 a.1
        (omega (arith, f, longer 9 kam (write_sleb128 9 delta ++ rest), longer 9 delta rest))
    ∙ ap (λ (es : List PcDescriptorEntry). decoded es none)
        (append_assoc entries (pc_entry kam (pos d.pc) ∷ []) (entries_for ds)
          ∙ ap (λ (e : PcDescriptorEntry). entries ++ e ∷ entries_for ds) (entry_of_word d a.0))

-- What the SDK writes for call sites with pcs below 2 ^ 32, a kind of eight, a try index up to 1022
-- and a yield index below 2 ^ 19 - 1, in any order of their pcs, is decoded to the descriptors with these fields, without an error.
pub decode_pc_descriptors-write :
    (ds : List Described)
    → AreDescribed ds
    → decode_pc_descriptors (write_descriptors 0 ds) ≡ decoded (entries_for ds) none
unfolding decode_pc_descriptors
decode_pc_descriptors-write ds a =
    descriptors_loop-write (length (write_descriptors 0 ds)) 0 ds [] (omega arith) a (omega arith)
