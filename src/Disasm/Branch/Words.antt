-- ===== src/Disasm/Branch/Words.antt =====
-- DecodeBranch on the words of the branches.
use aotopsy.Base.{
  ℕ, ◌+◌, ◌*◌, ◌^◌, ◌<◌, ◌≡◌, refl, ap, ◌∙◌, arith, true, false, ltb, dec_lt, Option, none, some,
  lt→ltb, ltb-false,
}
use aotopsy.Base.Int.{ℤ}
use aotopsy.Arm64.{b, is_ret, is_br, target, shift_left}
use aotopsy.Arm64.Branches.{IsSigned, pattern, with_sign-pattern}
use aotopsy.Arm64.Conditions.{
  cond_branch, write_cond, cond_branch-write_cond, cond_opcode, cond_field, cond_offset,
  pattern_small,
}
use aotopsy.Arm64.Destinations.Select.{verdict, matches-verdict}
use aotopsy.Disasm.Branch.{decode_branch, branch_to, info, always_branch}

-- What the upper eight bits refuse.
module _ (op low : ℕ) (h : low < 2 ^ 24) where
  not_ret : verdict 24 op 0xFFFFFC1F 0xD65F0000 ≡ some false → is_ret (op * 2 ^ 24 + low) ≡ false
  unfolding is_ret
  not_ret v = matches-verdict 24 op low 0xFFFFFC1F 0xD65F0000 false h v

  not_br : verdict 24 op 0xFFFFFC1F 0xD61F0000 ≡ some false → is_br (op * 2 ^ 24 + low) ≡ none
  unfolding is_br
  not_br v = rw (matches-verdict 24 op low 0xFFFFFC1F 0xD61F0000 false h v) refl

  not_b :
      (pc : ℕ) → verdict 24 op 0xFC000000 0x14000000 ≡ some false → b (op * 2 ^ 24 + low) pc ≡ none
  unfolding b
  not_b pc v = rw (matches-verdict 24 op low 0xFC000000 0x14000000 false h v) refl

word_low : (z : ℤ) (cond : ℕ) → IsSigned 18 z → cond < 16 → pattern 18 z * 2 ^ 5 + cond < 2 ^ 24
word_low z cond hz hc = omega (arith, pattern_small z hz)

always_branch-write :
    (z : ℤ) (cond pc : ℕ)
    → IsSigned 18 z
    → cond < 16
    → 13 < cond
    → always_branch (write_cond z cond) pc ≡ some (branch_to false (target pc (shift_left z 2)))
always_branch-write z cond pc hz hc ha =
    let w : ℕ = pattern 18 z in
    let low = pattern_small z hz in
    rw
      (
        cond_opcode w cond low hc,
        cond_field w cond low hc,
        cond_offset w cond low hc,
        with_sign-pattern 18 z hz,
      )
      (ground arith)

decode_branch-cond :
    (z : ℤ) (cond pc : ℕ)
    → IsSigned 18 z
    → cond < 16
    → decode_branch (write_cond z cond) pc
      ≡ info true (cond_branch (write_cond z cond) pc) (always_branch (write_cond z cond) pc)
unfolding decode_branch
decode_branch-cond z cond pc hz hc =
    let low : ℕ = pattern 18 z * 2 ^ 5 + cond in
    let h = word_low z cond hz hc in
    rw (not_ret 0x54 low h refl, not_br 0x54 low h refl, not_b 0x54 low h pc refl) refl

-- DecodeBranch of a `b.cond` with any signed offset of 19 bits is a branch to the pc plus four times
-- the offset, wrapped to 64 bits: a conditional one for the conditions below 14, and an
-- unconditional one for AL and NV.
pub decode_branch-write_cond :
    (z : ℤ) (cond pc : ℕ)
    → IsSigned 18 z
    → cond < 16
    → decode_branch (write_cond z cond) pc
      ≡ some (branch_to (ltb cond 14) (target pc (shift_left z 2)))
decode_branch-write_cond z cond pc hz hc = elim (dec_lt cond 14) [
  | yes p ↦
      let t = lt→ltb cond 14 p in
      let c = rw t at (cond_branch-write_cond z cond pc hz hc) in
      rw t (
        decode_branch-cond z cond pc hz hc
        ∙ ap (λ (o : Option ℕ). info true o (always_branch (write_cond z cond) pc)) c)
  | no p ↦
      let t = ltb-false cond 14 (omega arith) in
      let c = rw t at (cond_branch-write_cond z cond pc hz hc) in
      rw t (
        decode_branch-cond z cond pc hz hc
        ∙ ap (λ (o : Option ℕ). info true o (always_branch (write_cond z cond) pc)) c
        ∙ always_branch-write z cond pc hz hc (omega arith))
]
