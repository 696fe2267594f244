-- ===== src/Arm64/Destinations/Classes.antt =====
-- DstRegsOfInst on the classes of instructions: stores, loads, and the comparisons.
use aotopsy.Base.{
  ℕ, ◌+◌, ◌*◌, ◌%◌, ◌^◌, ◌<◌, ◌≡◌, refl, ap, ◌∙◌, arith, ltb, if◌then◌else◌, false, true, List, [],
  ◌∷◌, Option, some, none, ◌⊎◌, inl, inr, Bool,
}
use aotopsy.Base.Bits.{bit_and-mask}
use aotopsy.Arm64.Destinations.{dst_regs_of_inst, rd_of}
use aotopsy.Arm64.Destinations.Select.{
  Effect, result, flagged_sp, rules, select, dst_regs_of_inst-select, matches-verdict, verdict,
}

-- The upper eleven bits of the stores of one register (unscaled, pre- and post-indexed, and with an
-- unsigned offset) of 64, 32, 16 and 8 bits, and of the stores of a pair.
abbrev pub stores : List ℕ
stores =
    0x7C0 ∷ 0x5C0 ∷ 0x3C0 ∷ 0x1C0 ∷ 0x7C8 ∷ 0x7C9 ∷ 0x5C8 ∷ 0x5C9 ∷ 0x3C8 ∷ 0x3C9 ∷ 0x1C8 ∷ 0x1C9
    ∷ 0x548 ∷ 0x549 ∷ 0x54C ∷ 0x54D ∷ 0x544 ∷ 0x545 ∷ 0x148 ∷ 0x149 ∷ []

-- Those of the loads of one register, sign-extending ones included.
abbrev pub loads : List ℕ
loads =
    0x7C2 ∷ 0x5C2 ∷ 0x5C4 ∷ 0x3C2 ∷ 0x3C4 ∷ 0x3C6 ∷ 0x1C2 ∷ 0x1C4 ∷ 0x1C6 ∷ 0x7CA ∷ 0x7CB ∷ 0x5CA
    ∷ 0x5CB ∷ 0x5CC ∷ 0x5CD ∷ 0x3CA ∷ 0x3CB ∷ 0x3CC ∷ 0x3CD ∷ 0x3CE ∷ 0x3CF ∷ 0x1CA ∷ 0x1CB ∷ 0x1CC
    ∷ 0x1CD ∷ 0x1CE ∷ 0x1CF ∷ []

abbrev pub OneOf : ℕ → List ℕ → Type 0
OneOf x [] = ⊥
OneOf x (y ∷ ys) = (x ≡ y) ⊎ OneOf x ys

abbrev AllSelect : Option Effect → List ℕ → Type 0
AllSelect e [] = Unit
AllSelect e (y ∷ ys) = (select 21 y rules ≡ some e) × AllSelect e ys

OneOf-AllSelect :
    (e : Option Effect) (x : ℕ) (ys : List ℕ)
    → AllSelect e ys
    → OneOf x ys
    → select 21 x rules ≡ some e
OneOf-AllSelect e x [] a m = elim m [ ]
OneOf-AllSelect e x (y ∷ ys) a (inl p) = ap (λ t. select 21 t rules) p ∙ a.0
OneOf-AllSelect e x (y ∷ ys) a (inr p) = OneOf-AllSelect e x ys a.1 p

stores_select : AllSelect none stores
stores_select = search tt

loads_select : AllSelect (some result) loads
loads_select = search tt

-- A store writes no register: for each opcode of `stores`, a word with that opcode and any other
-- bits has no destination.
stores_write_nothing :
    (op low : ℕ) → OneOf op stores → low < 2 ^ 21 → dst_regs_of_inst (op * 2 ^ 21 + low) ≡ []
stores_write_nothing op low m h =
    dst_regs_of_inst-select 21 op low none h (OneOf-AllSelect none op stores stores_select m)

-- A load writes the register of its lowest five bits: for each opcode of `loads`, a word with that
-- opcode and any other bits has that register for its destination, and none where it is 31.
pub loads_write_rt :
    (op low : ℕ)
    → OneOf op loads
    → low < 2 ^ 21
    → dst_regs_of_inst (op * 2 ^ 21 + low) ≡ (if ltb (low % 32) 31 then (low % 32) ∷ [] else [])
loads_write_rt op low m h =
    let rd : rd_of (op * 2 ^ 21 + low) ≡ low % 32 =
      bit_and-mask 5 (op * 2 ^ 21 + low) ∙ omega arith in
    dst_regs_of_inst-select 21 op low (some result) h
      (OneOf-AllSelect (some result) op loads loads_select m)
    ∙ rw rd refl

-- The immediate additions and subtractions that set the flags: `cmn` has the opcode 0x31, `cmp` has
-- 0x71, and each 128 more with 64 bits.
flagged_word :
    (op low : ℕ) (b : Bool)
    → low < 2 ^ 24
    → low % 32 ≡ 31
    → select 24 op rules ≡ some (some (flagged_sp 0x7F000000 0x71000000))
    → verdict 24 op 0x7F000000 0x71000000 ≡ some b
    → dst_regs_of_inst (op * 2 ^ 24 + low) ≡ (if b then [] else 31 ∷ [])
flagged_word op low b h last s v =
    let rd : rd_of (op * 2 ^ 24 + low) ≡ 31 = bit_and-mask 5 (op * 2 ^ 24 + low) ∙ omega arith in
    let m = matches-verdict 24 op low 0x7F000000 0x71000000 b h v in
    dst_regs_of_inst-select 24 op low (some (flagged_sp 0x7F000000 0x71000000)) h s
    ∙ rw (m, rd) refl

-- An immediate `cmn` (an addition that sets the flags, with register 31 for its destination, which
-- is then the zero register) is said to write register 31, in both widths, while a `cmp`, the
-- subtraction, is said to write none.
pub cmn_writes_sp :
    (low : ℕ)
    → low < 2 ^ 24
    → low % 32 ≡ 31
    → (dst_regs_of_inst (0x31 * 2 ^ 24 + low) ≡ 31 ∷ [])
      × (dst_regs_of_inst (0xB1 * 2 ^ 24 + low) ≡ 31 ∷ [])
      × (dst_regs_of_inst (0x71 * 2 ^ 24 + low) ≡ [])
      × (dst_regs_of_inst (0xF1 * 2 ^ 24 + low) ≡ [])
cmn_writes_sp low h last = (
  flagged_word 0x31 low false h last refl refl,
  flagged_word 0xB1 low false h last refl refl,
  flagged_word 0x71 low true h last refl refl,
  flagged_word 0xF1 low true h last refl refl,
)
