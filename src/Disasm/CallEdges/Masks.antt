-- ===== src/Disasm/CallEdges/Masks.antt =====
-- The masks of the argument registers and their number.
use aotopsy.Base.{
  ℕ, zero, suc, ◌+◌, ◌/◌, ◌%◌, ◌^◌, ◌<◌, ◌≤◌, ◌≡◌, refl, ◌∙◌, arith, Bool, true, false, Bool-cases,
  List, [], ◌∷◌, inl, inr, ◌==◌, ==_iff, Option-cases, if◌then◌else◌, some, none, length,
}
use aotopsy.Base.Bits.{bit_or_step, pow-below}
use aotopsy.Arm64.{bl, blr}
use aotopsy.Arm64.Destinations.{dst_regs_of_inst}
use aotopsy.Disasm.Branch.{Inst, inst_at}
use aotopsy.Disasm.CallEdges.{
  arm64_arg_reg_canon, position_from, arm64_arg_reg_bit_pos, add_args, arg_mask_loop,
  infer_call_arg_reg_mask_local, popcount8,
}
use Prim.Native.Nat.{bit_or}

-- The ones among the lowest `k` bits.
abbrev pub ones : ℕ → ℕ → ℕ
ones zero m = 0
ones (suc k) m = m % 2 + ones k (m / 2)

abbrev counts_below : ℕ → Bool
counts_below zero = true
counts_below (suc k) = let rest = counts_below k in if popcount8 k == ones 8 k then rest else false

counts_bytes : counts_below 256 ≡ true
unfolding popcount8
counts_bytes = refl

counts_below_sound : (n m : ℕ) → counts_below n ≡ true → m < n → popcount8 m ≡ ones 8 m
counts_below_sound zero m e h = absurd (omega (arith, h))
counts_below_sound (suc n) m e h = elim (Bool-cases (popcount8 n == ones 8 n)) [
  | inr p ↦ let clash : false ≡ true = rw p at e in cc
  | inl p ↦ elim (Bool-cases (m == n)) [
    | inl q ↦ rw ((==_iff m n).0 q) ((==_iff (popcount8 n) (ones 8 n)).0 p)
    | inr q ↦ counts_below_sound n m (rw p at e) (ground (arith, q))
  ]
]

-- popcount8 of a byte is the number of its ones.
pub popcount8-ones : (m : ℕ) → m < 2 ^ 8 → popcount8 m ≡ ones 8 m
popcount8-ones m h = counts_below_sound 256 m counts_bytes h

bit_or_below : (k a b : ℕ) → a < 2 ^ k → b < 2 ^ k → bit_or a b < 2 ^ k
bit_or_below zero a b h l =
    let ea : a ≡ 0 = omega (arith, h) in
    let eb : b ≡ 0 = omega (arith, l) in rw (ea, eb) (omega arith)
bit_or_below (suc k) a b h l =
    let half = bit_or_below k (a / 2) (b / 2) (omega (arith, h)) (omega (arith, l)) in
    omega (arith, bit_or_step a b, half)

ones-zero : (k : ℕ) → ones k 0 ≡ 0
ones-zero zero = refl
ones-zero (suc k) = omega (arith, ones-zero k)

ones_at_most : (k j m : ℕ) → m < 2 ^ k → ones (k + j) m ≤ k
ones_at_most zero j m h =
    let e : m ≡ 0 = omega (arith, h) in
    let s : 0 + j ≡ j = omega arith in rw (e, s) (omega (arith, ones-zero j))
ones_at_most (suc k) j m h =
    let s : suc k + j ≡ suc (k + j) = omega arith in
    rw s (omega (arith, ones_at_most k j (m / 2) (omega (arith, h))))

position_from-below :
    (i : ℕ) (cs : List ℕ) (c at : ℕ) → position_from i cs c ≡ some at → at < i + length cs
unfolding position_from
position_from-below i [] c at e = let clash : none ≡ some at = e in cc
position_from-below i (d ∷ cs) c at e = elim (Bool-cases (d == c)) [
  | inl p ↦ let q : some i ≡ some at = rw p at e in let same : i ≡ at = cc in omega (arith, same)
  | inr p ↦ let h = position_from-below (suc i) cs c at (rw p at e) in omega (arith, h)
]

bit_pos-below : (rd at : ℕ) → arm64_arg_reg_bit_pos rd ≡ some at → at < 6
unfolding arm64_arg_reg_bit_pos
bit_pos-below rd at e = position_from-below 0 arm64_arg_reg_canon rd at e

add_args-below : (dsts : List ℕ) (mask : ℕ) → mask < 2 ^ 6 → add_args dsts mask < 2 ^ 6
unfolding add_args
add_args-below [] mask h = h
add_args-below (rd ∷ dsts) mask h = elim (Option-cases (arm64_arg_reg_bit_pos rd)) [
  | inl p ↦ rw (p, add_args) (add_args-below dsts mask h)
  | inr (at, p) ↦
      rw (p, add_args)
        (add_args-below dsts (bit_or mask (2 ^ at))
          (bit_or_below 6 mask (2 ^ at) h (pow-below at 6 (bit_pos-below rd at p))))
]

arg_mask_loop-below :
    (insts : List Inst) (steps i mask : ℕ) → mask < 2 ^ 6 → arg_mask_loop insts steps i mask < 2 ^ 6
unfolding arg_mask_loop
arg_mask_loop-below insts zero i mask h = h
arg_mask_loop-below insts (suc steps) zero mask h = h
arg_mask_loop-below insts (suc steps) (suc i) mask h =
    elim (Option-cases (bl (inst_at insts i).raw (inst_at insts i).addr)) [
      | inr (_, p) ↦ rw (p, arg_mask_loop) h
      | inl p ↦ elim (Option-cases (blr (inst_at insts i).raw)) [
        | inr (_, q) ↦ rw (p, q, arg_mask_loop) h
        | inl q ↦
            rw (p, q, arg_mask_loop)
              (arg_mask_loop-below insts steps i
                (add_args (dst_regs_of_inst (inst_at insts i).raw) mask)
                (add_args-below (dst_regs_of_inst (inst_at insts i).raw) mask h))
      ]
    ]

-- The mask of a call has the bits of the six argument registers, and the count is that of its ones,
-- six at most.
infer_call_arg_reg_mask_local-fits :
    (insts : List Inst) (call_idx : ℕ)
    → (infer_call_arg_reg_mask_local insts call_idx < 2 ^ 6)
      × (popcount8 (infer_call_arg_reg_mask_local insts call_idx)
          ≡ ones 6 (infer_call_arg_reg_mask_local insts call_idx))
      × (popcount8 (infer_call_arg_reg_mask_local insts call_idx) ≤ 6)
unfolding infer_call_arg_reg_mask_local
infer_call_arg_reg_mask_local-fits insts call_idx =
    let mask = arg_mask_loop insts 12 call_idx 0 in
    let h = arg_mask_loop-below insts 12 call_idx 0 (omega arith) in
    let c = popcount8-ones (arg_mask_loop insts 12 call_idx 0) (omega (arith, h)) in
    (h, c ∙ omega arith, omega (arith, c, ones_at_most 6 2 (arg_mask_loop insts 12 call_idx 0) h))
