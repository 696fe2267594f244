-- ===== src/Cluster/StackMaps/Leb.antt =====
-- The LEB128 numbers of the safepoint tables, against the SDK's writer.
use aotopsy.Base.{
  ℕ, zero, suc, ◌+◌, ◌*◌, ◌/◌, ◌%◌, ◌^◌, ◌≤◌, ◌<◌, ◌≡◌, ◌-◌, refl, ap, ◌∙◌, ltb→lt, arith,
  Bool-cases, inl, inr,
}
use aotopsy.Base.{List, [], ◌∷◌, ◌++◌, length, length-append, ltb, if◌then◌else◌}
use aotopsy.Base.Int.{pos, add_int-pos}
use aotopsy.Base.Bits.{bit_or-shl64, pow_add}
use aotopsy.Base.Go.{returned}
use aotopsy.Dartfmt.Stream.Zipper.{Fits, get_elem?-middle}
use aotopsy.Cluster.StackMaps.{leb128_loop, read_leb128}
use aotopsy.Dartfmt.Varint.{shl64}
use Prim.Native.Nat.{bit_or}
use mathlib.Core.List.{append_assoc}
use native.Mathlib.Nat.{div-add-mod, mul-le-mul_right, pow-suc}

-- WriteLEB128, for numbers below 128 ^ (k + 1).
unfoldable pub write_leb128 : ℕ → ℕ → List ℕ
write_leb128 zero v = v ∷ []
write_leb128 (suc k) v =
    let rest = write_leb128 k (v / 128) in if ltb v 128 then v ∷ [] else (v % 128 + 128) ∷ rest

add_group :
    (shift r b : ℕ)
    → shift ≤ 64
    → r < 2 ^ shift
    → r + b % 128 * 2 ^ shift < 2 ^ 64
    → bit_or r (shl64 (b % 128) shift) ≡ r + b % 128 * 2 ^ shift
add_group shift r b h low fit =
    omega (arith, bit_or-shl64 shift (64 - shift) (b % 128) r (omega arith) low)

-- The number that ends in the byte `v`.
leb128_loop-last :
    (v rounds shift result : ℕ) (before after : List ℕ)
    → v < 128
    → shift ≤ 64
    → result < 2 ^ shift
    → result + v * 2 ^ shift < 2 ^ 64
    → Fits (before ++ (v ∷ after))
    → leb128_loop (suc rounds) (before ++ (v ∷ after)) (pos (length before)) result shift
      ≡ returned (result + v * 2 ^ shift, pos (length (before ++ (v ∷ []))))
unfolding leb128_loop
leb128_loop-last v rounds shift result before after small w low fit fits =
    let same : v % 128 ≡ v = omega arith in
    let sum : bit_or result (shl64 (v % 128) shift) ≡ result + v * 2 ^ shift =
      add_group shift result v w low (rw same fit) ∙ rw same refl in
    ground (
      arith,
      get_elem?-middle before v after,
      length-append before (v ∷ after),
      length-append before (v ∷ []),
      add_int-pos (length before) 1,
      sum,
    )

-- A round over a byte that is not the last.
leb128_loop-more :
    (d rounds shift result : ℕ) (before after : List ℕ)
    → d < 128
    → shift ≤ 56
    → result < 2 ^ shift
    → result + d * 2 ^ shift < 2 ^ 64
    → Fits (before ++ ((d + 128) ∷ after))
    → leb128_loop (suc rounds) (before ++ ((d + 128) ∷ after)) (pos (length before)) result shift
      ≡ leb128_loop rounds
          ((before ++ ((d + 128) ∷ [])) ++ after)
          (pos (length (before ++ ((d + 128) ∷ []))))
          (result + d * 2 ^ shift)
          (shift + 7)
unfolding leb128_loop
leb128_loop-more d rounds shift result before after small w low fit fits =
    let same : (d + 128) % 128 ≡ d = omega arith in
    let sum : bit_or result (shl64 ((d + 128) % 128) shift) ≡ result + d * 2 ^ shift =
      add_group shift result (d + 128) (omega arith) low (rw same fit) ∙ rw same refl in
    ground (
      arith,
      get_elem?-middle before (d + 128) after,
      length-append before ((d + 128) ∷ after),
      length-append before ((d + 128) ∷ []),
      append_assoc before ((d + 128) ∷ []) after,
      add_int-pos (length before) 1,
      sum,
    )

split_groups : (v shift : ℕ) → v % 128 * 2 ^ shift + v / 128 * 2 ^ (shift + 7) ≡ v * 2 ^ shift
split_groups v shift = omega (
  arith,
  ap (λ (t : ℕ). v / 128 * t) (pow_add 2 shift 7),
  ap (λ (t : ℕ). t * 2 ^ shift) (div-add-mod v 128),
)

le-pred : (d : ℕ) → d < 128 → d ≤ 127
le-pred d h = omega arith

group_fits : (r d shift : ℕ) → d < 128 → r < 2 ^ shift → r + d * 2 ^ shift < 2 ^ (shift + 7)
group_fits r d shift h low =
    omega (arith, pow_add 2 shift 7, mul-le-mul_right (2 ^ shift) (le-pred d h))

leb128_loop-write :
    (k v rounds shift result : ℕ) (before after : List ℕ)
    → v < 128 ^ suc k
    → k < rounds
    → shift + 7 * k ≤ 63
    → result < 2 ^ shift
    → result + v * 2 ^ shift < 2 ^ 64
    → Fits (before ++ (write_leb128 k v ++ after))
    → leb128_loop rounds (before ++ (write_leb128 k v ++ after)) (pos (length before)) result shift
      ≡ returned (result + v * 2 ^ shift, pos (length (before ++ write_leb128 k v)))
unfolding write_leb128
leb128_loop-write zero v zero shift result before after small r w low fit fits = elim r [ ]
leb128_loop-write (suc k) v zero shift result before after small r w low fit fits = elim r [ ]
leb128_loop-write zero v (suc rounds) shift result before after small r w low fit fits =
    leb128_loop-last v rounds shift result before after (omega arith) (omega arith) low fit fits
leb128_loop-write (suc k) v (suc rounds) shift result before after small r w low fit fits =
    elim (Bool-cases (ltb v 128)) [
      | inl p ↦ rw p (
          leb128_loop-last v rounds shift result before after (ltb→lt v 128 p) (omega arith) low fit
            (rw p at fits))
      | inr p ↦
          let d : ℕ = v % 128 in
          let small_d : d < 128 = omega arith in
          let groups = split_groups v shift in
          let here = before ++ ((d + 128) ∷ []) in
          let joined : here ++ (write_leb128 k (v / 128) ++ after)
              ≡ before ++ ((d + 128) ∷ (write_leb128 k (v / 128) ++ after)) =
            append_assoc before ((d + 128) ∷ []) (write_leb128 k (v / 128) ++ after) in
          let whole : here ++ write_leb128 k (v / 128)
              ≡ before ++ ((d + 128) ∷ write_leb128 k (v / 128)) =
            append_assoc before ((d + 128) ∷ []) (write_leb128 k (v / 128)) in
          let fits' : Fits (here ++ (write_leb128 k (v / 128) ++ after)) =
            rw joined (rw p at fits) in
          let sum : result + d * 2 ^ shift + v / 128 * 2 ^ (shift + 7) ≡ result + v * 2 ^ shift =
            omega (arith, groups) in
          let rest =
            leb128_loop-write k (v / 128) rounds (shift + 7) (result + d * 2 ^ shift) here after
              (omega (arith, pow-suc 128 (suc k))) (omega arith) (omega arith)
              (group_fits result d shift small_d low) (rw sum fit) fits' in
          rw p (
            leb128_loop-more d rounds shift result before (write_leb128 k (v / 128) ++ after)
              small_d (omega arith) low (omega (arith, groups)) (rw p at fits)
            ∙ rest
            ∙ (rw (sum, whole) refl))
    ]

-- Every number that WriteLEB128 wrote in 64 bits is read back by readLEB128, which stops just
-- behind it.
pub read_leb128-write_leb128 :
    (v : ℕ) (before after : List ℕ)
    → v < 2 ^ 64
    → Fits (before ++ (write_leb128 9 v ++ after))
    → read_leb128 (before ++ (write_leb128 9 v ++ after)) (pos (length before))
      ≡ returned (v, pos (length (before ++ write_leb128 9 v)))
unfolding read_leb128
read_leb128-write_leb128 v before after h fits =
    let r =
      leb128_loop-write 9 v 10 0 0 before after (omega arith) (omega arith) (omega arith)
        (omega arith) (omega arith) fits in
    let e : 0 + v * 2 ^ 0 ≡ v = omega arith in rw e at r
