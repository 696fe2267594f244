-- ===== src/Disasm/CallEdges/Written.antt =====
-- The mask of a call, bit by bit: the argument registers that are written before it.
use aotopsy.Base.{
  ℕ, zero, suc, ◌+◌, ◌/◌, ◌%◌, ◌^◌, ◌<◌, ◌≤◌, ◌≡◌, ◌⊎◌, ◌↔◌, refl, sym, ap, ◌∙◌, arith, Bool-cases,
  dec_lt, List, [], ◌∷◌, inl, inr, ◌==◌, ==_iff, Option-cases, some, none, get_elem?,
}
use mathlib.Core.Path.{subst}
use aotopsy.Base.Bits.{bit_or_step}
use native.Mathlib.Nat.{pow-suc}
use aotopsy.Arm64.{bl, blr}
use aotopsy.Arm64.Destinations.{dst_regs_of_inst}
use aotopsy.Disasm.Branch.{Inst, inst_at}
use aotopsy.Disasm.CallEdges.{
  arm64_arg_reg_canon, position_from, arm64_arg_reg_bit_pos, add_args, arg_mask_loop,
  infer_call_arg_reg_mask_local,
}
use Prim.Native.Nat.{bit_or, max}

-- Bit `k` of a number.
abbrev pub digit : ℕ → ℕ → ℕ
digit zero m = m % 2
digit (suc k) m = digit k (m / 2)

digit_at_most : (k m : ℕ) → digit k m ≤ 1
digit_at_most zero m = omega arith
digit_at_most (suc k) m = digit_at_most k (m / 2)

digit-zero : (k : ℕ) → digit k 0 ≡ 0
digit-zero zero = refl
digit-zero (suc k) = digit-zero k

digit-bit_or : (k a b : ℕ) → digit k (bit_or a b) ≡ max (digit k a) (digit k b)
digit-bit_or zero a b = omega (arith, bit_or_step a b)
digit-bit_or (suc k) a b =
    let half : bit_or a b / 2 ≡ bit_or (a / 2) (b / 2) = omega (arith, bit_or_step a b) in
    ap (digit k) half ∙ digit-bit_or k (a / 2) (b / 2)

digit-pow : (k at : ℕ) → (digit k (2 ^ at) ≡ 1) ↔ (k ≡ at)
digit-pow zero zero = (λ e. refl, λ e. refl)
digit-pow (suc k) zero =
    let none_set = digit-zero k in
    (λ e. absurd (omega (arith, e, none_set)), λ e. absurd (omega (arith, e)))
digit-pow zero (suc at) =
    let even = pow-suc 2 at in
    (λ e. absurd (omega (arith, e, even)), λ e. absurd (omega (arith, e)))
digit-pow (suc k) (suc at) =
    let half : 2 ^ suc at / 2 ≡ 2 ^ at = omega (arith, pow-suc 2 at) in
    let rest = digit-pow k at in
    (
      λ e. ap suc (rest.0 (sym (ap (digit k) half) ∙ e)),
      λ e. ap (digit k) half ∙ rest.1 (omega (arith, e)),
    )

-- Setting a bit.
digit-set : (k at m : ℕ) → (digit k (bit_or m (2 ^ at)) ≡ 1) ↔ ((digit k m ≡ 1) ⊎ (k ≡ at))
digit-set k at m =
    let both = digit-bit_or k m (2 ^ at) in
    let one = digit_at_most k m in
    let other = digit_at_most k (2 ^ at) in
    let pow = digit-pow k at in
    (
      λ e. elim (dec_lt (digit k m) 1) [
        | yes p ↦ inr (pow.0 (omega (arith, both, e, p, other)))
        | no p ↦ inl (omega (arith, p, one))
      ],
      λ e. elim e [
        | inl q ↦ omega (arith, both, q, other)
        | inr q ↦ (let r = pow.1 q in omega (arith, both, r, one))
      ],
    )

-- `x` is among the elements.
abbrev pub Among : ℕ → List ℕ → Type 0
Among x [] = ⊥
Among x (y ∷ ys) = (x ≡ y) ⊎ Among x ys

-- Some of the registers is the argument register at a position.
abbrev pub HasArg : ℕ → List ℕ → Type 0
HasArg at dsts = (r : ℕ) × (get_elem? arm64_arg_reg_canon at ≡ some r) × Among r dsts

position_from-get :
    (i : ℕ) (cs : List ℕ) (c at : ℕ)
    → position_from i cs c ≡ some at
    → (k : ℕ) × (at ≡ i + k) × (get_elem? cs k ≡ some c)
unfolding position_from
position_from-get i [] c at e = cc
position_from-get i (d ∷ cs) c at e = elim (Bool-cases (d == c)) [
  | inl p ↦
      let q : some i ≡ some at = (rw p at e) in
      let same : i ≡ at = ground (arith, q) in (0, omega (arith, same), ap some ((==_iff d c).0 p))
  | inr p ↦
      let (k, s, g) = position_from-get (suc i) cs c at (rw p at e) in (suc k, omega (arith, s), g)
]

bit_pos-get :
    (rd at : ℕ) → arm64_arg_reg_bit_pos rd ≡ some at → get_elem? arm64_arg_reg_canon at ≡ some rd
unfolding arm64_arg_reg_bit_pos
bit_pos-get rd at e =
    let (k, s, g) = position_from-get 0 arm64_arg_reg_canon rd at e in
    let same : k ≡ at = omega (arith, s) in
    subst (λ x. get_elem? arm64_arg_reg_canon x ≡ some rd) same g

same_arg :
    (a rd at : ℕ)
    → some a ≡ some rd
    → arm64_arg_reg_bit_pos a ≡ some at
    → arm64_arg_reg_bit_pos rd ≡ some at
same_arg a rd at e h =
    let same : a ≡ rd = ground (arith, e) in subst (λ x. arm64_arg_reg_bit_pos x ≡ some at) same h

get-bit_pos :
    (rd at : ℕ) → get_elem? arm64_arg_reg_canon at ≡ some rd → arm64_arg_reg_bit_pos rd ≡ some at
unfolding arm64_arg_reg_bit_pos position_from
get-bit_pos rd zero e = same_arg 1 rd 0 e refl
get-bit_pos rd (suc zero) e = same_arg 2 rd 1 e refl
get-bit_pos rd (suc (suc zero)) e = same_arg 3 rd 2 e refl
get-bit_pos rd (suc (suc (suc zero))) e = same_arg 5 rd 3 e refl
get-bit_pos rd (suc (suc (suc (suc zero)))) e = same_arg 6 rd 4 e refl
get-bit_pos rd (suc (suc (suc (suc (suc zero))))) e = same_arg 7 rd 5 e refl
get-bit_pos rd (suc (suc (suc (suc (suc (suc at)))))) e = cc

add_args-HasArg :
    (at : ℕ) (dsts : List ℕ) (mask : ℕ)
    → (digit at (add_args dsts mask) ≡ 1) ↔ ((digit at mask ≡ 1) ⊎ HasArg at dsts)
unfolding add_args
add_args-HasArg at [] mask = (λ e. inl e, λ e. elim e [ inl q ↦ q | inr h ↦ absurd h.2 ])
add_args-HasArg at (rd ∷ dsts) mask = elim (Option-cases (arm64_arg_reg_bit_pos rd)) [
  | inl p ↦
      let rest = add_args-HasArg at dsts mask in
      rw (p, add_args)
        (
          λ e. elim (rest.0 e) [ inl q ↦ inl q | inr (r, g, m) ↦ inr (r, g, inr m) ],
          λ e. elim e [
            | inl q ↦ rest.1 (inl q)
            | inr (r, g, inl same) ↦
                let known = get-bit_pos r at g in
                let found : arm64_arg_reg_bit_pos rd ≡ some at =
                  subst (λ x. arm64_arg_reg_bit_pos x ≡ some at) same known in
                cc
            | inr (r, g, inr m) ↦ rest.1 (inr (r, g, m))
          ],
        )
  | inr (pos, p) ↦
      let rest = add_args-HasArg at dsts (bit_or mask (2 ^ pos)) in
      let set = digit-set at pos mask in
      rw (p, add_args)
        (
          λ e. elim (rest.0 e) [
            | inl q ↦ elim (set.0 q) [
              | inl old ↦ inl old
              | inr here ↦ inr (
                rd,
                subst (λ x. get_elem? arm64_arg_reg_canon x ≡ some rd) (sym here)
                    (bit_pos-get rd pos p),
                inl refl,
              )
            ]
            | inr (r, g, m) ↦ inr (r, g, inr m)
          ],
          λ e. elim e [
            | inl q ↦ rest.1 (inl (set.1 (inl q)))
            | inr (r, g, inl same) ↦
                let found : arm64_arg_reg_bit_pos rd ≡ some at =
                  subst (λ x. arm64_arg_reg_bit_pos x ≡ some at) same (get-bit_pos r at g) in
                let both : some pos ≡ some at = sym p ∙ found in
                let here : at ≡ pos = ground (arith, both) in rest.1 (inl (set.1 (inr here)))
            | inr (r, g, inr m) ↦ rest.1 (inr (r, g, m))
          ],
        )
]

-- The instruction is no BL and no BLR.
abbrev pub IsNoCall : Inst → Type 0
IsNoCall x = (bl x.raw x.addr ≡ none) × (blr x.raw ≡ none)

-- One of the last `steps` instructions before index `i` writes the argument register at the
-- position, and from it on none of them is a call.
abbrev pub IsWritten : List Inst → ℕ → ℕ → ℕ → Type 0
IsWritten insts steps i at =
    (j : ℕ) × (j < i)
    × (i ≤ j + steps)
    × HasArg at (dst_regs_of_inst (inst_at insts j).raw)
    × ((k : ℕ) → j ≤ k → k < i → IsNoCall (inst_at insts k))

module _ (insts : List Inst) where
  -- Across an instruction that is no call.
  IsWritten-step :
      (steps i at : ℕ)
      → IsNoCall (inst_at insts i)
      → IsWritten insts (suc steps) (suc i) at
        ↔ (HasArg at (dst_regs_of_inst (inst_at insts i).raw) ⊎ IsWritten insts steps i at)
  IsWritten-step steps i at c = (
    λ w. elim (dec_lt w.0 i) [
      | yes p ↦ inr (w.0, p, omega (arith, w.2), w.3, λ k a b. w.4 k a (omega (arith, b)))
      | no p ↦
          let last : w.0 ≡ i = omega (arith, p, w.1) in
          inl (subst (λ x. HasArg at (dst_regs_of_inst (inst_at insts x).raw)) last w.3)
    ],
    λ w. elim w [
      | inl h ↦ (
        i,
        omega arith,
        omega arith,
        h,
        λ k a b.
            let same : i ≡ k = omega (arith, a, b) in
            subst (λ x. IsNoCall (inst_at insts x)) same c,
      )
      | inr (j, l, near, h, free) ↦ (
        j,
        omega (arith, l),
        omega (arith, near),
        h,
        λ k a b. elim (dec_lt k i) [
          | yes p ↦ free k a p
          | no p ↦
              let same : i ≡ k = omega (arith, p, b) in
              subst (λ x. IsNoCall (inst_at insts x)) same c
        ],
      )
    ],
  )

  -- Behind a call nothing counts.
  IsWritten-call :
      (steps i at : ℕ) → (IsNoCall (inst_at insts i) → ⊥) → IsWritten insts steps (suc i) at → ⊥
  IsWritten-call steps i at c (j, l, near, h, free) = c (free i (omega (arith, l)) (omega arith))

  arg_mask_loop-IsWritten :
      (at steps i mask : ℕ)
      → (digit at (arg_mask_loop insts steps i mask) ≡ 1)
        ↔ ((digit at mask ≡ 1) ⊎ IsWritten insts steps i at)
  unfolding arg_mask_loop
  arg_mask_loop-IsWritten at zero i mask =
      (λ e. inl e, λ e. elim e [ inl q ↦ q | inr w ↦ absurd (omega (arith, w.1, w.2)) ])
  arg_mask_loop-IsWritten at (suc steps) zero mask =
      (λ e. inl e, λ e. elim e [ inl q ↦ q | inr w ↦ absurd (omega (arith, w.1)) ])
  arg_mask_loop-IsWritten at (suc steps) (suc i) mask =
      elim (Option-cases (bl (inst_at insts i).raw (inst_at insts i).addr)) [
        | inr (_, p) ↦
            rw (p, arg_mask_loop)
              (
                λ e. inl e,
                λ e. elim e [
                  | inl q ↦ q
                  | inr w ↦ absurd (IsWritten-call (suc steps) i at (λ c. (let d = c.0 in cc)) w)
                ],
              )
        | inl p ↦ elim (Option-cases (blr (inst_at insts i).raw)) [
          | inr (_, q) ↦
              rw (p, q, arg_mask_loop)
                (
                  λ e. inl e,
                  λ e. elim e [
                    | inl o ↦ o
                    | inr w ↦ absurd (IsWritten-call (suc steps) i at (λ c. (let d = c.1 in cc)) w)
                  ],
                )
          | inl q ↦
              let dsts = dst_regs_of_inst (inst_at insts i).raw in
              let rest = arg_mask_loop-IsWritten at steps i (add_args dsts mask) in
              let args = add_args-HasArg at dsts mask in
              let step = IsWritten-step steps i at (p, q) in
              rw (p, q, arg_mask_loop)
                (
                  λ e. elim (rest.0 e) [
                    | inl o ↦ elim (args.0 o) [ inl old ↦ inl old | inr h ↦ inr (step.1 (inl h)) ]
                    | inr w ↦ inr (step.1 (inr w))
                  ],
                  λ e. elim e [
                    | inl o ↦ rest.1 (inl (args.1 (inl o)))
                    | inr w ↦ elim (step.0 w) [
                      | inl h ↦ rest.1 (inl (args.1 (inr h)))
                      | inr w' ↦ rest.1 (inr w')
                    ]
                  ],
                )
        ]
      ]

-- A bit of the mask of a call is set just where one of the twelve instructions before it writes the
-- argument register at that position of the calling convention, with no BL or BLR from that
-- instruction on.
pub infer_call_arg_reg_mask_local-IsWritten :
    (insts : List Inst) (call_idx at : ℕ)
    → (digit at (infer_call_arg_reg_mask_local insts call_idx) ≡ 1) ↔ IsWritten insts 12 call_idx at
unfolding infer_call_arg_reg_mask_local
infer_call_arg_reg_mask_local-IsWritten insts call_idx at =
    let loop = arg_mask_loop-IsWritten insts at 12 call_idx 0 in
    let clear = digit-zero at in
    (
      λ e. elim (loop.0 e) [ inl q ↦ absurd (omega (arith, q, clear)) | inr w ↦ w ],
      λ w. loop.1 (inr w),
    )
