-- ===== src/Arm64/Destinations/Select.antt =====
-- The tests of DstRegsOfInst as a table of rules, and which rule a word takes where its opcode is
-- known and its other bits are not.
use aotopsy.Base.{
  ℕ, zero, suc, dec_lt, ℕ_discrete, ◌≤◌, ◌+◌, ◌*◌, ◌/◌, ◌%◌, ◌^◌, ◌<◌, ◌≡◌, refl, ap, ◌∙◌, sym,
  arith, Bool, true, false, ◌==◌, ◌&&◌, ◌||◌, if◌then◌else◌, List, [], ◌∷◌, Option, none, some,
  Option-cases, inl, inr,
}
use aotopsy.Base.Bits.{bit_and-parts, bit_and_step, bit_and-zero}
use aotopsy.Arm64.{matches, field}
use aotopsy.Arm64.Destinations.{
  rd_of, unless_zero, discarded_at_31, or_sp, pair_targets, one_of, unsigned_loads, unscaled_loads,
  dst_regs_of_inst,
}
use Prim.Native.Nat.{bit_and}
use native.Mathlib.Nat.{mul-add-div_right, div-eq_of_lt, div-add-mod', one-le-pow, mod-lt}

-- What a rule gives: `flagged` tests the word again, for a form that only sets the flags.
pub data Effect : Type 0 where
  pair result : Effect
  flagged_sp flagged : ℕ → ℕ → Effect

abbrev pub registers : Effect → ℕ → List ℕ
registers pair raw = pair_targets (rd_of raw) (field 10 0x1F raw)
registers result raw = unless_zero (rd_of raw)
registers (flagged_sp mask value) raw =
    if matches mask value raw then discarded_at_31 (rd_of raw) else or_sp (rd_of raw)
registers (flagged mask value) raw =
    if matches mask value raw then discarded_at_31 (rd_of raw) else unless_zero (rd_of raw)

-- A mask, the values and the effect.
abbrev pub Rule : Type 0
Rule = ℕ × List ℕ × Effect

abbrev pub first_match : List Rule → ℕ → List ℕ
first_match [] raw = []
first_match ((mask, values, effect) ∷ rules) raw =
    if one_of mask values raw then registers effect raw else first_match rules raw

abbrev pub rules : List Rule
rules =
    (0x3E400000, 0x28400000 ∷ [], pair)
    ∷ (0x3B000000, 0x18000000 ∷ [], result)
    ∷ (0xFFC00000, unsigned_loads, result)
    ∷ (0xFFE00000, unscaled_loads, result)
    ∷ (0x3FE00800, 0x38600800 ∷ [], result)
    ∷ (0x1F000000, 0x11000000 ∷ [], flagged_sp 0x7F000000 0x71000000)
    ∷ (0x1F800000, 0x12800000 ∷ [], result)
    ∷ (0x1F800000, 0x13000000 ∷ [], result)
    ∷ (0x1F800000, 0x12000000 ∷ [], flagged 0x7F800000 0x72000000)
    ∷ (0x1F000000, 0x10000000 ∷ [], result)
    ∷ (0x1F000000, 0x0A000000 ∷ [], flagged 0x7F000000 0x6A000000)
    ∷ (0x1F200000, 0x0B000000 ∷ [], flagged_sp 0x7F200000 0x6B000000)
    ∷ (0x1FE00000, 0x0B200000 ∷ [], flagged_sp 0x7FE00000 0x6B200000)
    ∷ (0x1FE00000, 0x1A800000 ∷ [], result)
    ∷ (0x5FE00000, 0x1AC00000 ∷ [], result)
    ∷ (0x5FE00000, 0x5AC00000 ∷ [], result)
    ∷ (0x1F000000, 0x1B000000 ∷ [], result)
    ∷ []

or-false : (b : Bool) → (b || false) ≡ b
or-false true = refl
or-false false = refl

pub dst_regs_of_inst-rules : (raw : ℕ) → dst_regs_of_inst raw ≡ first_match rules raw
unfolding dst_regs_of_inst
dst_regs_of_inst-rules raw = simp or-false

bit_and-le_within : (n a b : ℕ) → b ≤ n → bit_and a b ≤ b
bit_and-le_within zero a b h =
    let none_left : b ≡ 0 = omega arith in rw (none_left, bit_and-zero a) (omega arith)
bit_and-le_within (suc n) a b h = elim (dec_lt 0 b) [
  | yes p ↦ omega (arith, bit_and_step a b, bit_and-le_within n (a / 2) (b / 2) (omega arith))
  | no p ↦ let none_left : b ≡ 0 = omega arith in rw (none_left, bit_and-zero a) (omega arith)
]

-- Whether a word `op * 2 ^ k + low` passes a test, where `op` tells.
abbrev pub verdict : ℕ → ℕ → ℕ → ℕ → Option Bool
verdict k op mask v =
    if bit_and op (mask / 2 ^ k) == v / 2 ^ k
    then (if (mask % 2 ^ k == 0) && (v % 2 ^ k == 0) then some true else none)
    else some false

above_eq : (k a b v : ℕ) → b < 2 ^ k → a * 2 ^ k + b ≡ v → (a ≡ v / 2 ^ k) × (b ≡ v % 2 ^ k)
above_eq k a b v h e =
    let q : (a * 2 ^ k + b) / 2 ^ k ≡ a =
      mul-add-div_right (one-le-pow k 2 (omega arith)) a b
      ∙ omega (arith, div-eq_of_lt {n = b} {m = 2 ^ k} h) in
    let quotient : v / 2 ^ k ≡ a = ap (λ (t : ℕ). t / 2 ^ k) (sym e) ∙ q in
    (sym quotient, omega (arith, div-add-mod' v (2 ^ k), ap (λ (t : ℕ). t * 2 ^ k) quotient))

bit_and_split :
    (k op low mask : ℕ)
    → low < 2 ^ k
    → bit_and (op * 2 ^ k + low) mask
      ≡ bit_and op (mask / 2 ^ k) * 2 ^ k + bit_and low (mask % 2 ^ k)
bit_and_split k op low mask h =
    let parts =
      bit_and-parts k op low (mask / 2 ^ k) (mask % 2 ^ k) h
        (mod-lt mask {m = 2 ^ k} (one-le-pow k 2 (omega arith))) in
    rw (div-add-mod' mask (2 ^ k)) at parts

low_part : (k low mask : ℕ) → bit_and low (mask % 2 ^ k) < 2 ^ k
low_part k low mask = omega (
  arith,
  bit_and-le_within (mask % 2 ^ k) low (mask % 2 ^ k) (omega arith),
  mod-lt mask {m = 2 ^ k} (one-le-pow k 2 (omega arith)),
)

pub matches-verdict :
    (k op low mask v : ℕ) (b : Bool)
    → low < 2 ^ k
    → verdict k op mask v ≡ some b
    → matches mask v (op * 2 ^ k + low) ≡ b
matches-verdict k op low mask v b h e =
    let s = bit_and_split k op low mask h in
    let l = low_part k low mask in
    elim (ℕ_discrete (bit_and op (mask / 2 ^ k)) (v / 2 ^ k)) [
      | yes p ↦
          ground
            (arith, e, s, bit_and-zero low, div-add-mod' v (2 ^ k), ap (λ (t : ℕ). t * 2 ^ k) p)
      | no p ↦
          ground
            (arith, e, s, above_eq k (bit_and op (mask / 2 ^ k)) (bit_and low (mask % 2 ^ k)) v l)
    ]

abbrev verdicts : ℕ → ℕ → ℕ → List ℕ → Option Bool
verdicts k op mask [] = some false
verdicts k op mask (v ∷ vs) =
    let rest = verdicts k op mask vs in
    elim (verdict k op mask v) [ none ↦ none | some true ↦ some true | some false ↦ rest ]

-- The effect of the rule that the word takes, where `op` tells: `none` of it is no rule.
abbrev pub select : ℕ → ℕ → List Rule → Option (Option Effect)
select k op [] = some none
select k op ((mask, values, effect) ∷ rest) =
    let others = select k op rest in
    elim (verdicts k op mask values) [
      | none ↦ none
      | some true ↦ some (some effect)
      | some false ↦ others
    ]

one_of-verdicts :
    (k op low mask : ℕ) (vs : List ℕ) (b : Bool)
    → low < 2 ^ k
    → verdicts k op mask vs ≡ some b
    → one_of mask vs (op * 2 ^ k + low) ≡ b
one_of-verdicts k op low mask [] b h e = ground arith
one_of-verdicts k op low mask (v ∷ vs) b h e = elim (Option-cases (verdict k op mask v)) [
  | inl q ↦ let clash : none ≡ some b = rw (q, verdicts) at e in cc
  | inr (true, q) ↦
      let m = matches-verdict k op low mask v true h q in
      let same : some true ≡ some b = rw (q, verdicts) at e in rw m (cc)
  | inr (false, q) ↦
      let m = matches-verdict k op low mask v false h q in
      let rest : verdicts k op mask vs ≡ some b = rw (q, verdicts) at e in
      rw m (one_of-verdicts k op low mask vs b h rest)
]

abbrev pub effect_of : Option Effect → ℕ → List ℕ
effect_of none raw = []
effect_of (some effect) raw = registers effect raw

first_match-select :
    (k op low : ℕ) (rs : List Rule) (found : Option Effect)
    → low < 2 ^ k
    → select k op rs ≡ some found
    → first_match rs (op * 2 ^ k + low) ≡ effect_of found (op * 2 ^ k + low)
first_match-select k op low [] found h e = let same : found ≡ none = cc in rw same refl
first_match-select k op low ((mask, values, effect) ∷ rs) found h e =
    elim (Option-cases (verdicts k op mask values)) [
      | inl q ↦ let clash : none ≡ some found = rw (q, select) at e in cc
      | inr (true, q) ↦
          let m = one_of-verdicts k op low mask values true h q in
          let same : some (some effect) ≡ some found = rw (q, select) at e in
          let found_it : found ≡ some effect = cc in rw (m, found_it) refl
      | inr (false, q) ↦
          let m = one_of-verdicts k op low mask values false h q in
          rw m (first_match-select k op low rs found h (rw (q, select) at e))
    ]

-- The registers of a word are those of the rule that its opcode selects.
pub dst_regs_of_inst-select :
    (k op low : ℕ) (found : Option Effect)
    → low < 2 ^ k
    → select k op rules ≡ some found
    → dst_regs_of_inst (op * 2 ^ k + low) ≡ effect_of found (op * 2 ^ k + low)
dst_regs_of_inst-select k op low found h e =
    dst_regs_of_inst-rules (op * 2 ^ k + low) ∙ first_match-select k op low rules found h e
