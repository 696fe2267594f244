-- ===== src/Tests/Arm64.antt =====
-- internal/arch/arm64 at concrete words.
use aotopsy.Base.{◌+◌, ◌^◌, [], ◌∷◌, ◌*◌, ◌≡◌, refl, arith, some, none}
use aotopsy.Base.Int.{pos, negsuc}
use aotopsy.Arm64.Destinations.{dst_regs_of_inst, dst_reg_of_inst}
use aotopsy.Arm64.Destinations.Classes.{cmn_writes_sp}
use aotopsy.Arm64.{bl, b, target, shift_left, ldur64}
use aotopsy.Arm64.Branches.{write_branch, branch_word}

-- `bl` two instructions back, from 0x1000.
bl_back : bl 0x97FFFFFE 0x1000 ≡ some 0xFF8
unfolding bl
bl_back = refl

-- `ldur x1, [x29, #-8]`
ldur_frame : ldur64 0xF85F83A1 ≡ some (29, 1, negsuc 7)
unfolding ldur64
ldur_frame = refl

branch_word_example :
    (bl (write_branch 0x25 (negsuc 1)) 0x1000 ≡ some (target 0x1000 (shift_left (negsuc 1) 2)))
    × (b (write_branch 0x05 (negsuc 1)) 0x1000 ≡ some (target 0x1000 (shift_left (negsuc 1) 2)))
    × (bl (write_branch 0x05 (negsuc 1)) 0x1000 ≡ none)
    × (b (write_branch 0x25 (negsuc 1)) 0x1000 ≡ none)
branch_word_example = branch_word (negsuc 1) 0x1000 (omega arith)

-- `cmn x1, #1` and `cmp x1, #1`
cmn_writes_sp_example :
    (dst_regs_of_inst (0x31 * 2 ^ 24 + 0x43F) ≡ 31 ∷ [])
    × (dst_regs_of_inst (0xB1 * 2 ^ 24 + 0x43F) ≡ 31 ∷ [])
    × (dst_regs_of_inst (0x71 * 2 ^ 24 + 0x43F) ≡ [])
    × (dst_regs_of_inst (0xF1 * 2 ^ 24 + 0x43F) ≡ [])
cmn_writes_sp_example = cmn_writes_sp 0x43F (omega arith) (omega arith)

-- `ldp x29, x30, [sp], #16`
ldp_both : (dst_regs_of_inst 0xA8C17BFD ≡ 29 ∷ 30 ∷ []) × (dst_reg_of_inst 0xA8C17BFD ≡ pos 29)
unfolding dst_reg_of_inst
ldp_both = (refl, refl)
