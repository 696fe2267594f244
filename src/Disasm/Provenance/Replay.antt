-- ===== src/Disasm/Provenance/Replay.antt =====
-- What a block does from any registers, against its effect from blank ones.
use aotopsy.Base.{
  ℕ, zero, suc, ◌≡◌, inl, inr, refl, false, not, ◌==◌, ◌&&◌, ltb, if◌then◌else◌, Bool-cases,
  Option-cases, List, [], ◌∷◌, some, length,
}
use aotopsy.Base.Int.{ℤ}
use aotopsy.Arm64.{bl, blr, ldur64}
use aotopsy.Arm64.Destinations.{dst_regs_of_inst}
use aotopsy.Disasm.Branch.{Inst, inst_at}
use aotopsy.Disasm.Provenance.{
  Note, is_empty, is_code_entry_point_disp, object_field_via_at, dispatch_table, Tracked,
  define_reg, kill_reg, define_all, kill_all, first_note, table_load, touch_dsts,
  touch_instr_effect, touch_from,
}

-- Not a load of an entry point, whose result depends on the base.
abbrev pub IsPlain : Inst → Type 0
IsPlain inst =
    (base dst : ℕ) (off : ℤ)
    → ldur64 inst.raw ≡ some (base, dst, off)
    → is_code_entry_point_disp off ≡ false

-- The registers `b` are those of `a` where that touched them, and those before elsewhere.
abbrev pub Follows : (ℕ → Note) → Tracked → Tracked → Type 0
Follows before a b = (r : ℕ) → b.regs r ≡ (if a.touched r then a.regs r else before r)

module _ (before : ℕ → Note) where
  define_reg-Follows :
      (rd : ℕ) (note : Note) (a b : Tracked)
      → Follows before a b
      → Follows before (define_reg rd note a) (define_reg rd note b)
  define_reg-Follows rd note a b h r = elim (Bool-cases (ltb 30 rd)) [
    | inl p ↦ rw p (h r)
    | inr p ↦ elim (Bool-cases (r == rd)) [ inl q ↦ rw (p, q) refl | inr q ↦ rw (p, q) (h r) ]
  ]

  kill_reg-Follows :
      (rd : ℕ) (a b : Tracked) → Follows before a b → Follows before (kill_reg rd a) (kill_reg rd b)
  kill_reg-Follows rd a b h = define_reg-Follows rd [] a b h

  define_all-Follows :
      (note : Note) (dsts : List ℕ) (a b : Tracked)
      → Follows before a b
      → Follows before (define_all note dsts a) (define_all note dsts b)
  unfolding define_all
  define_all-Follows note [] a b h = h
  define_all-Follows note (rd ∷ dsts) a b h =
      define_all-Follows note dsts (define_reg rd note a) (define_reg rd note b)
        (define_reg-Follows rd note a b h)

  kill_all-Follows :
      (dsts : List ℕ) (a b : Tracked)
      → Follows before a b
      → Follows before (kill_all dsts a) (kill_all dsts b)
  unfolding kill_all
  kill_all-Follows [] a b h = h
  kill_all-Follows (rd ∷ dsts) a b h =
      kill_all-Follows dsts (kill_reg rd a) (kill_reg rd b) (kill_reg-Follows rd a b h)

  touch_dsts-Follows :
      (note : Note) (dsts : List ℕ) (a b : Tracked)
      → Follows before a b
      → Follows before (touch_dsts note dsts a) (touch_dsts note dsts b)
  unfolding touch_dsts
  touch_dsts-Follows note dsts a b h =
      elim (Bool-cases (not (is_empty note) && ltb 0 (length dsts))) [
        | inl p ↦ rw p (define_all-Follows note dsts a b h)
        | inr p ↦ rw p (kill_all-Follows dsts a b h)
      ]

  module _ (annotators : List (Inst → Note)) where
    touch_instr_effect-Follows :
        (inst : Inst) (a b : Tracked)
        → IsPlain inst
        → Follows before a b
        → Follows before
            (touch_instr_effect annotators inst a)
            (touch_instr_effect annotators inst b)
    unfolding touch_instr_effect
    touch_instr_effect-Follows inst a b plain h = elim (Option-cases (bl inst.raw inst.addr)) [
      | inr (_, p) ↦ rw (p, touch_instr_effect) (kill_reg-Follows 30 a b h)
      | inl p ↦ elim (Option-cases (blr inst.raw)) [
        | inr (_, q) ↦ rw (p, q, touch_instr_effect) (kill_reg-Follows 30 a b h)
        | inl q ↦ elim (Option-cases (table_load inst.raw)) [
          | inr (dst, s) ↦
              rw (p, q, s, touch_instr_effect) (define_reg-Follows dst dispatch_table a b h)
          | inl s ↦ elim (Option-cases (ldur64 inst.raw)) [
            | inr ((base, dst, off), t) ↦
                rw (p, q, s, t, plain base dst off t, touch_instr_effect)
                  (define_reg-Follows dst (object_field_via_at off) a b h)
            | inl t ↦
                rw (p, q, s, t, touch_instr_effect)
                  (touch_dsts-Follows (first_note annotators inst) (dst_regs_of_inst inst.raw) a b
                    h)
          ]
        ]
      ]
    ]

    -- The effect of instructions that inherit nothing: from any registers they leave what they
    -- leave from blank ones where they touch a register, and nothing else changes.
    pub touch_from-Follows :
        (insts : List Inst) (k i : ℕ) (a b : Tracked)
        → ((j : ℕ) → IsPlain (inst_at insts j))
        → Follows before a b
        → Follows before (touch_from annotators insts k i a) (touch_from annotators insts k i b)
    unfolding touch_from
    touch_from-Follows insts zero i a b plain h = h
    touch_from-Follows insts (suc k) i a b plain h = elim (Bool-cases (ltb i (length insts))) [
      | inl p ↦
          rw (p, touch_from)
            (touch_from-Follows insts k (suc i) (touch_instr_effect annotators (inst_at insts i) a)
              (touch_instr_effect annotators (inst_at insts i) b) plain
              (touch_instr_effect-Follows (inst_at insts i) a b (plain i) h))
      | inr p ↦ rw (p, touch_from) h
    ]
