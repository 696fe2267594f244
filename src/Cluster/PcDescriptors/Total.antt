-- ===== src/Cluster/PcDescriptors/Total.antt =====
-- The decoder of descriptors on any bytes.
use aotopsy.Base.{
  ℕ, zero, suc, ◌+◌, ◌*◌, ◌/◌, ◌%◌, ◌^◌, ◌≤◌, ◌<◌, ◌≡◌, refl, arith, ltb, Bool-cases, ◌⊎◌, inl, inr,
  if◌then◌else◌, List, [], ◌∷◌, ◌++◌, length, length-append,
}
use aotopsy.Base.Bits.{pow-below}
use aotopsy.Base.Int.{◌≤ℤ◌, ℤ, pos, negsuc, sub_ℕ, add_int, to_u32, is_nonneg}
use aotopsy.Dartfmt.Varint.{shl64}
use aotopsy.Cluster.PcDescriptors.{
  PcDescriptorEntry, Sleb, sleb_value, sleb_truncated, sleb_too_long, sleb128_loop, read_sleb128,
  PcOutcome, decoded, unfinished, pc_entry, descriptors_loop, decode_pc_descriptors,
}
use Prim.Native.Nat.{bit_or}

-- A value took a byte at least of `n`.
abbrev Takes : ℕ → Sleb → Type 0
Takes n (sleb_value v rest) = length rest < n
Takes n sleb_truncated = Unit
Takes n sleb_too_long = Unit

Takes-weaken : (n m : ℕ) (r : Sleb) → n ≤ m → Takes n r → Takes m r
Takes-weaken n m (sleb_value v rest) h t = omega (arith, h, t)
Takes-weaken n m sleb_truncated h t = tt
Takes-weaken n m sleb_too_long h t = tt

sleb128_loop-Takes :
    (bytes : List ℕ) (shift val : ℕ) → Takes (length bytes) (sleb128_loop bytes shift val)
unfolding sleb128_loop
sleb128_loop-Takes [] shift val = tt
sleb128_loop-Takes (b ∷ rest) shift val = elim (Bool-cases (ltb b 128)) [
  | inl p ↦ rw p (omega arith)
  | inr p ↦ elim (Bool-cases (ltb 70 (shift + 7))) [
    | inl q ↦ rw (p, q) tt
    | inr q ↦
        rw (p, q)
          (Takes-weaken (length rest) (suc (length rest)) _ (omega arith) (
            sleb128_loop-Takes rest (shift + 7)
              (if ltb shift 64 then bit_or val (shl64 (b % 128) shift) else val)))
  ]
]

-- The ranges of the fields of an entry: the kind is a bit of eight, and an index is -1 or is not
-- negative.
abbrev pub IsPcEntry : PcDescriptorEntry → Type 0
IsPcEntry e =
    (e.pc_offset < 2 ^ 32)
    × (e.kind < 2 ^ 8)
    × (negsuc 0 ≤ℤ e.try_index)
    × (e.try_index ≤ℤ pos 1022)
    × (negsuc 0 ≤ℤ e.yield_index)

abbrev pub AllEntries : List PcDescriptorEntry → Type 0
AllEntries [] = Unit
AllEntries (e ∷ es) = IsPcEntry e × AllEntries es

-- The decoder returns, with or without an error, an entry for each two bytes at most.
abbrev pub Concludes : ℕ → PcOutcome → Type 0
Concludes n (decoded es e) = (2 * length es ≤ n) × AllEntries es
Concludes n unfinished = ⊥

to_u32-below : (z : ℤ) → to_u32 z < 2 ^ 32
to_u32-below (pos n) = omega arith
to_u32-below (negsuc n) = omega arith

index_bounds : (k : ℕ) → negsuc 0 ≤ℤ sub_ℕ k 1
index_bounds k = ground arith

try_index_bounds : (k : ℕ) → k < 1024 → sub_ℕ k 1 ≤ℤ pos 1022
try_index_bounds k h = ground arith

pc_entry-IsPcEntry : (kam pc : ℤ) → IsPcEntry (pc_entry kam pc)
pc_entry-IsPcEntry kam pc = (
  to_u32-below pc,
  pow-below (to_u32 kam % 8) 8 (omega arith),
  index_bounds (to_u32 kam / 8 % 1024),
  try_index_bounds (to_u32 kam / 8 % 1024) (omega arith),
  index_bounds (to_u32 kam / 8192),
)

AllEntries-snoc :
    (es : List PcDescriptorEntry) (e : PcDescriptorEntry)
    → AllEntries es
    → IsPcEntry e
    → AllEntries (es ++ e ∷ [])
AllEntries-snoc [] e a h = (h, tt)
AllEntries-snoc (x ∷ es) e a h = (a.0, AllEntries-snoc es e a.1 h)

read_sleb128-cases :
    (bytes : List ℕ)
    → ((v : ℤ) × (rest : List ℕ) × (read_sleb128 bytes ≡ sleb_value v rest)
        × (length rest < length bytes))
      ⊎ ((read_sleb128 bytes ≡ sleb_truncated) ⊎ (read_sleb128 bytes ≡ sleb_too_long))
unfolding read_sleb128
read_sleb128-cases bytes = go (sleb128_loop bytes 0 0) refl (sleb128_loop-Takes bytes 0 0)
  where
    go :
        (r : Sleb)
        → sleb128_loop bytes 0 0 ≡ r
        → Takes (length bytes) r
        → ((v : ℤ) × (rest : List ℕ) × (read_sleb128 bytes ≡ sleb_value v rest)
            × (length rest < length bytes))
          ⊎ ((read_sleb128 bytes ≡ sleb_truncated) ⊎ (read_sleb128 bytes ≡ sleb_too_long))
    go (sleb_value v rest) e t = inl (v, rest, e, t)
    go sleb_truncated e t = inr (inl e)
    go sleb_too_long e t = inr (inr e)

descriptors_loop-Concludes :
    (fuel n : ℕ) (bytes : List ℕ) (pc : ℤ) (entries : List PcDescriptorEntry)
    → length bytes ≤ fuel
    → 2 * length entries + length bytes ≤ n
    → AllEntries entries
    → Concludes n (descriptors_loop fuel bytes pc entries)
unfolding descriptors_loop
descriptors_loop-Concludes fuel n [] pc entries f h a = (omega (arith, h), a)
descriptors_loop-Concludes zero n (b ∷ bytes) pc entries f h a = absurd (omega (arith, f))
descriptors_loop-Concludes (suc fuel) n (b ∷ bytes) pc entries f h a =
    let stop : 2 * length entries ≤ n = omega (arith, h) in
    elim (read_sleb128-cases (b ∷ bytes)) [
      | inr (inl e) ↦ rw (e, descriptors_loop) (stop, a)
      | inr (inr e) ↦ rw (e, descriptors_loop) (stop, a)
      | inl (kam, next, e, t) ↦ elim (read_sleb128-cases next) [
        | inr (inl q) ↦ rw (e, q, descriptors_loop) (stop, a)
        | inr (inr q) ↦ rw (e, q, descriptors_loop) (stop, a)
        | inl (delta, rest, q, u) ↦ elim (Bool-cases (is_nonneg (add_int pc delta))) [
          | inr s ↦ rw (e, q, s, descriptors_loop) (stop, a)
          | inl s ↦
              let entry = pc_entry kam (add_int pc delta) in
              rw (e, q, s, descriptors_loop)
                (descriptors_loop-Concludes fuel n rest (add_int pc delta)
                  (entries ++ pc_entry kam (add_int pc delta) ∷ []) (omega (arith, f, t, u))
                  (omega (arith, h, t, u, length-append entries (entry ∷ [])))
                  (AllEntries-snoc entries entry a (pc_entry-IsPcEntry kam (add_int pc delta))))
        ]
      ]
    ]

-- DecodePcDescriptors returns on any bytes, with an entry for each two of them at most, and with
-- fields in their ranges: offsets of 32 bits, a kind of eight bits, a try index from -1 to 1022 and
-- a yield index from -1 on.
pub decode_pc_descriptors-Concludes :
    (payload : List ℕ) → Concludes (length payload) (decode_pc_descriptors payload)
unfolding decode_pc_descriptors
decode_pc_descriptors-Concludes payload =
    descriptors_loop-Concludes (length payload) (length payload) payload (pos 0) [] (omega arith)
      (omega arith) tt
