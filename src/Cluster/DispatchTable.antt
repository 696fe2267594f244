-- ===== src/Cluster/DispatchTable.antt =====
-- internal/cluster/dispatchtable.go: the run-length encoded slots of the dispatch table.
pub mod Targets
pub mod Written
pub mod RoundTrip
use aotopsy.Base.{
  ℕ, zero, suc, ◌+◌, ◌-◌, ◌%◌, Bool, true, false, ◌==◌, ltb, leb, if◌then◌else◌, List, [], ◌∷◌,
  Option, none, some, ◌⊎◌, inl, inr,
}
use aotopsy.Base.Int.{ℤ, pos, negsuc, sub_ℕ, add_int, ltb_ℤ, ◌==ℤ◌}
use aotopsy.Dartfmt.Stream.{Stream, Step, done, failed, panicked, stuck, Error}
use aotopsy.Dartfmt.Varint.{read_tagged64}
use aotopsy.Cluster.Ranges.{CodeEntry}

pub data DispatchTableEntryKind : Type 0 where
  dispatch_null dispatch_code dispatch_stub : DispatchTableEntryKind

pub record DispatchTableEntry : Type 0 where
  pub index : ℕ
  pub kind : DispatchTableEntryKind
  pub cluster_index : ℤ
  pub stub_index : ℤ
  pub code_ref : ℤ
  pub owner_ref : ℤ

abbrev pub dispatch_table_recent_count : ℕ
dispatch_table_recent_count = 64

abbrev pub dispatch_table_max_repeat : ℕ
dispatch_table_max_repeat = 63

abbrev pub dispatch_table_index_base : ℕ
dispatch_table_index_base = dispatch_table_max_repeat + 1

-- What the slots are decoded with: `table` is FirstEntryWithCode, where there is a table, and the
-- last two serve where there is none.
pub record Layout : Type 0 where
  pub code_index_one_based : Bool
  pub table : Option ℕ
  pub first_code_id : ℤ
  pub codes : List CodeEntry

-- `codeByRef`, in which a later code takes the place of an earlier one.
pub code_by_ref : List CodeEntry → ℤ → Option CodeEntry
code_by_ref [] ref = none
code_by_ref (c ∷ cs) ref = elim (code_by_ref cs ref) [
  | some later ↦ some later
  | none ↦ if c.ref_id ==ℤ ref then some c else none
]

abbrev pub null_entry : DispatchTableEntry
null_entry = record {
  index = 0;
  kind = dispatch_null;
  cluster_index = pos 0;
  stub_index = pos 0;
  code_ref = pos 0;
  owner_ref = pos 0;
}

abbrev pub code_entry : ℤ → DispatchTableEntry
code_entry slot = record null_entry { kind = dispatch_code; cluster_index = slot }

abbrev pub stub_entry : ℤ → DispatchTableEntry
stub_entry slot = record null_entry { kind = dispatch_stub; stub_index = slot }

abbrev pub absolute_slot : Bool → ℕ → ℤ
absolute_slot one_based code_index = if one_based then sub_ℕ code_index 1 else pos code_index

-- Where there is a table: a stub below the first code.
abbrev pub table_target : ℕ → ℤ → DispatchTableEntry
table_target first (negsuc a) = stub_entry (negsuc a)
table_target first (pos a) =
    if ltb a first then stub_entry (pos a) else code_entry (pos (a - first))

abbrev pub fallback_target : ℤ → Option CodeEntry → DispatchTableEntry
fallback_target slot none = code_entry slot
fallback_target slot (some c) = record (code_entry slot) {
  code_ref = c.ref_id;
  owner_ref = c.owner_ref;
}

-- The target of a code index.
unfoldable pub target_entry : Layout → ℕ → DispatchTableEntry
unfolding code_by_ref
target_entry l code_index =
    let slot = absolute_slot l.code_index_one_based code_index in
    elim l.table [
      | some first ↦ table_target first slot
      | none ↦ fallback_target slot (code_by_ref l.codes (add_int l.first_code_id slot))
    ]

-- The variables of the loop. `recent` is read and written by its 64 places alone.
pub record Slots : Type 0 where
  pub recent : ℕ → DispatchTableEntry
  pub recent_index : ℕ
  pub value : DispatchTableEntry
  pub repeat_count : ℕ

abbrev pub start : Slots
start = record { recent = λ _. null_entry; recent_index = 0; value = null_entry; repeat_count = 0 }

pub data DispatchError : Type 0 where
  bad_read : ℕ → Error → DispatchError
  bad_recent : ℕ → ℕ → DispatchError

abbrev pub set_recent : ℕ → DispatchTableEntry → (ℕ → DispatchTableEntry) → ℕ → DispatchTableEntry
set_recent i e recent j = if j == i then e else recent j

-- `recent[r]` and `recent[i] = e`: outside the 64 places each panics, `none`.
abbrev pub read_recent : ℕ → (ℕ → DispatchTableEntry) → Option DispatchTableEntry
read_recent r recent = if ltb r dispatch_table_recent_count then some (recent r) else none

abbrev pub write_recent :
    ℕ → DispatchTableEntry → (ℕ → DispatchTableEntry) → Option (ℕ → DispatchTableEntry)
write_recent i e recent =
    if ltb i dispatch_table_recent_count then some (set_recent i e recent) else none

-- A code index, which goes to the recent ones too.
abbrev pub take_code : Layout → ℕ → Slots → Option Slots
take_code l code_index st =
    let value = target_entry l code_index in
    elim (write_recent st.recent_index value st.recent) [
      | none ↦ none
      | some recent ↦ some (record st {
        recent = recent;
        recent_index = (st.recent_index + 1) % dispatch_table_recent_count;
        value = value;
      })
    ]

abbrev pub go_on : Option Slots → Option (DispatchError ⊎ Slots)
go_on none = none
go_on (some st) = some (inr st)

abbrev pub take_recent : Slots → Option DispatchTableEntry → Option Slots
take_recent st none = none
take_recent st (some value) = some (record st { value = value })

-- The `switch` on the number read at slot `i`; `none` is a panic.
unfoldable pub apply_encoded : Layout → ℕ → ℤ → Slots → Option (DispatchError ⊎ Slots)
unfolding target_entry
apply_encoded l i (negsuc r) st =
    if ltb r dispatch_table_recent_count
    then go_on (take_recent st (read_recent r st.recent))
    else some (inl (bad_recent i r))
apply_encoded l i (pos n) st =
    if n == 0
    then some (inr (record st { value = null_entry }))
    else if leb n dispatch_table_max_repeat
    then some (inr (record st { repeat_count = n - 1 }))
    else go_on (take_code l (n - dispatch_table_index_base) st)

-- The entries, with the error where there is one. `crashed` is a panic; `unfinished` is no Go
-- outcome, the reader ran out of fuel.
pub data TableOutcome : Type 0 where
  decoded : List DispatchTableEntry → Option DispatchError → TableOutcome
  crashed unfinished : TableOutcome

-- The entry of slot `i` before those of the rest.
abbrev pub put : ℕ → DispatchTableEntry → TableOutcome → TableOutcome
put i e (decoded es err) = decoded (record e { index = i } ∷ es) err
put i e crashed = crashed
put i e unfinished = unfinished

abbrev pub after_encoded :
    ℕ → (Slots → Stream → TableOutcome) → Stream → Option (DispatchError ⊎ Slots) → TableOutcome
after_encoded i next s none = crashed
after_encoded i next s (some (inl e)) = decoded [] (some e)
after_encoded i next s (some (inr st)) = put i st.value (next st s)

abbrev pub after_read : Layout → ℕ → Slots → (Slots → Stream → TableOutcome) → Step ℤ → TableOutcome
after_read l i st next (done encoded s) = after_encoded i next s (apply_encoded l i encoded st)
after_read l i st next (failed e s) = decoded [] (some (bad_read i e))
after_read l i st next panicked = crashed
after_read l i st next stuck = unfinished

-- The loop with `left` slots to go, at slot `i`.
unfoldable pub slots_loop : Layout → ℕ → ℕ → Slots → Stream → TableOutcome
slots_loop l zero i st s = decoded [] none
slots_loop l (suc left) i st s =
    let next = λ (st' : Slots) (s' : Stream). slots_loop l left (suc i) st' s' in
    elim st.repeat_count [
      | suc k ↦ put i st.value (next (record st { repeat_count = k }) s)
      | zero ↦ after_read l i st next (read_tagged64 s)
    ]

-- The last part of ParseDispatchTable: `length` slots.
unfoldable pub parse_slots : Layout → ℕ → Stream → TableOutcome
unfolding slots_loop
parse_slots l length s = slots_loop l length 0 start s
