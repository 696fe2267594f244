-- ===== src/Cluster/CodeSourceMap.antt =====
-- internal/cluster/codesourcemap.go: the bytecode of a code source map, and the lookup of a pc.
pub mod Program
pub mod Frames
pub mod Written
pub mod Lookup
pub mod Total
use aotopsy.Base.{ℕ, zero, suc, ◌+◌, ◌-◌, ◌*◌, ◌/◌, ◌%◌, Bool, true, false, ◌==◌, leb}
use aotopsy.Base.{if◌then◌else◌, List, [], ◌∷◌, ◌++◌, length, Option, none, some, ◌⊎◌, inl, inr}
use aotopsy.Base.Int.{ℤ, pos, negsuc, add_int, ltb_ℤ, is_nonneg, to_u32, signed32}
use aotopsy.Dartfmt.Stream.{Stream, Step, done, failed, panicked, stuck, Error, new_stream_at}
use aotopsy.Dartfmt.Varint.{read_tagged32}

abbrev pub csm_change_position : ℕ
csm_change_position = 0

abbrev pub csm_advance_pc : ℕ
csm_advance_pc = 1

abbrev pub csm_push_function : ℕ
csm_push_function = 2

abbrev pub csm_pop_function : ℕ
csm_pop_function = 3

abbrev pub csm_null_check : ℕ
csm_null_check = 4

pub record CsmEntry : Type 0 where
  pub pc_offset : ℕ
  pub token_pos : ℤ
  pub inline_stack : List ℤ

abbrev pub csm_no_position : ℤ
csm_no_position = negsuc 0

-- The errors of DecodeCodeSourceMap, with what their messages name.
pub data CsmError : Type 0 where
  bad_read : Error → CsmError
  negative_advance : ℤ → CsmError
  empty_pop : CsmError
  unknown_op : ℕ → CsmError

-- The variables of DecodeCodeSourceMap.
pub record Context : Type 0 where
  pub entries : List CsmEntry
  pub pc : ℤ
  pub token_pos : ℤ
  pub stack : List ℤ

abbrev pub start : Context
start = record { entries = []; pc = pos 0; token_pos = csm_no_position; stack = [] }

-- The closure `record`.
abbrev pub record_entry : Context → Context
record_entry c = record c {
  entries =
      c.entries
      ++ (record { pc_offset = to_u32 c.pc; token_pos = c.token_pos; inline_stack = c.stack } ∷ []);
}

-- `n & 0x7` on an int32.
abbrev pub op_field : ℤ → ℕ
op_field (pos n) = n % 8
op_field (negsuc n) = 7 - n % 8

-- `n >> 3` on an int32.
abbrev pub arg_field : ℤ → ℤ
arg_field (pos n) = pos (n / 8)
arg_field (negsuc n) = negsuc (n / 8)

abbrev pub without_last {ℓ} : {A : Type ℓ} → A → List A → List A
without_last x [] = []
without_last x (y ∷ ys) = x ∷ without_last y ys

-- `stack[:len(stack)-1]`, which panics on an empty stack: `none`.
abbrev pub drop_last {ℓ} : {A : Type ℓ} → List A → Option (List A)
drop_last [] = none
drop_last (x ∷ xs) = some (without_last x xs)

-- `none` is a panic, here and in what follows.
abbrev pub pop_frame : Context → Option (CsmError ⊎ Context)
pop_frame c = elim (length c.stack == 0) [
  | true ↦ some (inl empty_pop)
  | false ↦ elim (drop_last c.stack) [
    | none ↦ none
    | some stack ↦ some (inr (record c { stack = stack }))
  ]
]

-- The `switch` on the op.
unfoldable pub apply_op : ℤ → Context → Option (CsmError ⊎ Context)
apply_op n c =
    let op = op_field n in
    let arg = arg_field n in
    if op == csm_change_position
    then some (inr (record c { token_pos = arg }))
    else if op == csm_advance_pc
    then (if is_nonneg arg
        then some (inr (record_entry (record c { pc = add_int c.pc arg })))
        else some (inl (negative_advance arg)))
    else if op == csm_push_function
    then some (inr (record c { stack = c.stack ++ (arg ∷ []) }))
    else if op == csm_pop_function
    then pop_frame c
    else if op == csm_null_check
    then some (inr c)
    else some (inl (unknown_op op))

-- What DecodeCodeSourceMap leaves: the entries, and the error where there is one. `crashed` is a
-- panic; `unfinished` is no Go outcome, the fuel ran out.
pub data Outcome : Type 0 where
  complete : List CsmEntry → Outcome
  rejected : List CsmEntry → CsmError → Outcome
  crashed unfinished : Outcome

abbrev pub dispatch : (Context → Outcome) → List CsmEntry → Option (CsmError ⊎ Context) → Outcome
dispatch next entries none = crashed
dispatch next entries (some (inl e)) = rejected entries e
dispatch next entries (some (inr c)) = next c

-- A round, once it has read an op.
abbrev pub after_read : (Stream → Context → Outcome) → Context → Step ℕ → Outcome
after_read next c (done raw s') = dispatch (next s') c.entries (apply_op (signed32 raw) c)
after_read next c (failed e s') = rejected c.entries (bad_read e)
after_read next c panicked = crashed
after_read next c stuck = unfinished

unfoldable pub decode_loop : ℕ → ℕ → Context → Stream → Outcome
decode_loop zero size c s = unfinished
decode_loop (suc fuel) size c s =
    let next = λ (s' : Stream) (c' : Context). decode_loop fuel size c' s' in
    if ltb_ℤ s.position (pos size) then after_read next c (read_tagged32 s) else complete c.entries

-- A round reads at least one byte: the bytes, and a round to see the end, are fuel enough.
unfoldable pub decode_code_source_map : List ℕ → Outcome
unfolding decode_loop
decode_code_source_map payload =
    decode_loop (suc (length payload)) (length payload) start (new_stream_at payload (pos 0))

-- The loop of InlineStackAt: `best` is the last entry at or before the pc, none for -1.
best_entry : ℕ → List CsmEntry → Option CsmEntry → Option CsmEntry
best_entry pc_offset [] best = best
best_entry pc_offset (e ∷ es) best =
    let rest = best_entry pc_offset es (some e) in if leb e.pc_offset pc_offset then rest else best

-- What is returned of the entry: `none` is the result that is not ok.
abbrev pub answer : Option CsmEntry → Option (List ℤ × ℤ)
answer none = none
answer (some e) = some (e.inline_stack, e.token_pos)

unfoldable pub inline_stack_at : List CsmEntry → ℕ → Option (List ℤ × ℤ)
unfolding best_entry
inline_stack_at entries pc_offset = answer (best_entry pc_offset entries none)
