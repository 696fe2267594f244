-- ===== src/Disasm/Provenance.antt =====
-- internal/disasm/dataflowarm64.go: what instructions leave in the registers, and the call edges
-- of a function with the provenance of their registers.
pub mod Replay
pub mod Sound
use aotopsy.Base.{
  ℕ, zero, suc, ◌+◌, ◌-◌, ◌/◌, ◌%◌, Bool, true, false, not, ◌==◌, ◌&&◌, ◌||◌, ltb, if◌then◌else◌,
  List, [], ◌∷◌, ◌++◌, Option, none, some, get_or, length,
}
use aotopsy.Base.Int.{ℤ, pos, negsuc}
use aotopsy.Arm64.{bl, blr, ldr_reg_extended, ldur64}
use aotopsy.Arm64.Destinations.{dst_regs_of_inst}
use aotopsy.Disasm.Lvalue.{Lvalue, lv_top, lv_known, lv_bottom}
use aotopsy.Disasm.Partition.{Succ, Marks, mark, BasicBlock}
use aotopsy.Disasm.Branch.{Inst, inst_at, build_cfg}
use aotopsy.Disasm.Fixpoint.{ProvBlockEffect, Fixpoint, run_prov_fixpoint}

-- A string is the list of its bytes.
abbrev pub Note : Type 0
Note = List ℕ

abbrev pub is_empty : Note → Bool
is_empty [] = true
is_empty (c ∷ cs) = false

-- "dispatch_table" and "object_field".
abbrev pub dispatch_table : Note
dispatch_table = 100 ∷ 105 ∷ 115 ∷ 112 ∷ 97 ∷ 116 ∷ 99 ∷ 104 ∷ 95 ∷ 116 ∷ 97 ∷ 98 ∷ 108 ∷ 101 ∷ []

abbrev pub object_field_via : Note
object_field_via = 111 ∷ 98 ∷ 106 ∷ 101 ∷ 99 ∷ 116 ∷ 95 ∷ 102 ∷ 105 ∷ 101 ∷ 108 ∷ 100 ∷ []

-- strconv.FormatInt of a number that is not negative: the digits in lower case, with fuel for the
-- number of digits that an int64 has in the base.
abbrev pub digit_char : ℕ → ℕ
digit_char d = if ltb d 10 then 48 + d else 87 + d

pub format_digits : ℕ → ℕ → ℕ → Note → Note
format_digits base zero x acc = acc
format_digits base (suc k) x acc =
    let rest = format_digits base k (x / base) (digit_char (x % base) ∷ acc) in
    if ltb x base then digit_char x ∷ acc else rest

unfoldable pub format_int : ℕ → ℕ → Note
unfolding format_digits
format_int base x = format_digits base 64 x []

-- off is 0x3, 0x7, 0xb, 0xf, 0x17 or 0x1f
abbrev pub is_code_entry_point_disp : ℤ → Bool
is_code_entry_point_disp (negsuc k) = false
is_code_entry_point_disp (pos k) =
    (k == 0x3) || ((k == 0x7) || ((k == 0xb) || ((k == 0xf) || ((k == 0x17) || (k == 0x1f)))))

-- With "-0x" or "+0x" before the digits.
unfoldable pub object_field_via_at : ℤ → Note
unfolding format_int
object_field_via_at (negsuc k) = object_field_via ++ (45 ∷ 48 ∷ 120 ∷ format_int 16 (suc k))
object_field_via_at (pos zero) = object_field_via
object_field_via_at (pos (suc k)) = object_field_via ++ (43 ∷ 48 ∷ 120 ∷ format_int 16 (suc k))

-- noWindowRegs and the `touched` beside it: both have the indices 0 to 30.
pub record Tracked : Type 0 where
  pub regs : ℕ → Note
  pub touched : Marks

abbrev pub write_reg : ℕ → Note → (ℕ → Note) → ℕ → Note
write_reg rd note regs r = if r == rd then note else regs r

abbrev pub define_reg : ℕ → Note → Tracked → Tracked
define_reg rd note st =
    if ltb 30 rd
    then st
    else record { regs = write_reg rd note st.regs; touched = mark rd st.touched }

abbrev pub kill_reg : ℕ → Tracked → Tracked
kill_reg rd st =
    if ltb 30 rd
    then st
    else record { regs = write_reg rd [] st.regs; touched = mark rd st.touched }

pub define_all : Note → List ℕ → Tracked → Tracked
define_all note [] st = st
define_all note (rd ∷ dsts) st = define_all note dsts (define_reg rd note st)

pub kill_all : List ℕ → Tracked → Tracked
kill_all [] st = st
kill_all (rd ∷ dsts) st = kill_all dsts (kill_reg rd st)

-- The first annotator that has something to say.
pub first_note : List (Inst → Note) → Inst → Note
first_note [] inst = []
first_note (ann ∷ anns) inst =
    let rest = first_note anns inst in if is_empty (ann inst) then rest else ann inst

-- A load from the dispatch table, X21: the register it writes.
abbrev pub table_load : ℕ → Option ℕ
table_load raw = elim (ldr_reg_extended raw) [
  | none ↦ none
  | some (base, index, dst) ↦ if base == 21 then some dst else none
]

-- A load of an entry point inherits what is known of the base.
abbrev pub inherits : (ℕ → Note) → ℕ → ℤ → Bool
inherits regs base off = is_code_entry_point_disp off && (ltb base 31 && not (is_empty (regs base)))

abbrev pub field_note : (ℕ → Note) → ℕ → ℤ → Note
field_note regs base off = if inherits regs base off then regs base else object_field_via_at off

pub touch_dsts : Note → List ℕ → Tracked → Tracked
unfolding define_all kill_all
touch_dsts note dsts st =
    if not (is_empty note) && ltb 0 (length dsts) then define_all note dsts st else kill_all dsts st

module _ (annotators : List (Inst → Note)) where
  -- The link register is X30.
  unfoldable pub touch_instr_effect : Inst → Tracked → Tracked
  unfolding first_note touch_dsts
  touch_instr_effect inst st = elim (bl inst.raw inst.addr) [
    | some target ↦ kill_reg 30 st
    | none ↦ elim (blr inst.raw) [
      | some rn ↦ kill_reg 30 st
      | none ↦ elim (table_load inst.raw) [
        | some dst ↦ define_reg dst dispatch_table st
        | none ↦ elim (ldur64 inst.raw) [
          | some (base, dst, off) ↦ define_reg dst (field_note st.regs base off) st
          | none ↦ touch_dsts (first_note annotators inst) (dst_regs_of_inst inst.raw) st
        ]
      ]
    ]
  ]

  -- The instructions from `i` on, `k` of them or to the last.
  unfoldable pub touch_from : List Inst → ℕ → ℕ → Tracked → Tracked
  unfolding touch_instr_effect
  touch_from insts zero i st = st
  touch_from insts (suc k) i st = elim (ltb i (length insts)) [
    | true ↦ touch_from insts k (suc i) (touch_instr_effect (inst_at insts i) st)
    | false ↦ st
  ]

  unfoldable pub touch_block : List Inst → BasicBlock → Tracked → Tracked
  unfolding touch_from
  touch_block insts blk st = touch_from insts (blk.end - blk.start) blk.start st

-- The zero values.
abbrev pub blank : Tracked
blank = record { regs = λ r. []; touched = λ r. false }

-- `k` values from index `i` on.
pub tabulate {ℓ} : {A : Type ℓ} → ℕ → ℕ → (ℕ → A) → List A
tabulate zero i f = []
tabulate (suc k) i f = f i ∷ tabulate k (suc i) f

abbrev pub provenance : Note → Lvalue
provenance note = if is_empty note then lv_bottom else lv_known note

abbrev pub final_value : Tracked → ℕ → Lvalue
final_value st r = if st.touched r then provenance (st.regs r) else lv_top

unfoldable pub effect_of : Tracked → ProvBlockEffect
unfolding tabulate
effect_of st = record { touched = tabulate 31 0 st.touched; final = tabulate 31 0 (final_value st) }

abbrev pub no_block : BasicBlock
no_block = record { id = 0; start = 0; end = 0; succs = []; is_entry = false; is_term = false }

-- `cfg.Blocks[b]`: no index is out of range.
abbrev pub block_at : List BasicBlock → ℕ → BasicBlock
block_at blocks b = get_or blocks b no_block

module _ (insts : List Inst) (annotators : List (Inst → Note)) where
  -- The effect of a block: its instructions from blank registers.
  unfoldable pub block_effect : ℕ → ProvBlockEffect
  unfolding effect_of touch_block build_cfg
  block_effect b = effect_of (touch_block annotators insts (block_at (build_cfg insts) b) blank)

  unfoldable pub solution : Fixpoint
  unfolding run_prov_fixpoint block_effect build_cfg
  solution =
      run_prov_fixpoint (length (build_cfg insts)) 31 (λ b. (block_at (build_cfg insts) b).succs)
        block_effect
