-- ===== src/Tests/Cluster.antt =====
-- internal/cluster at concrete payloads.
use aotopsy.Base.{◌≤◌, ◌≡◌, refl, arith, List, [], ◌∷◌, none, length}
use aotopsy.Base.Int.{pos, negsuc}
use aotopsy.Base.{◌++◌, ◌*◌, ◌^◌, true, some}
use aotopsy.Base.Go.{returned, crashed}
use aotopsy.Cluster.StackMaps.{decode_compressed_stack_maps, read_entry}
use aotopsy.Cluster.StackMaps.Leb.{write_leb128}
use aotopsy.Cluster.StackMaps.Written.{Safepoint, entry_at, write_counts, write_safepoint}
use aotopsy.Cluster.StackMaps.RoundTrip.{
  AreSafepoints, write_header, write_safepoints, decode_compressed_stack_maps-write_safepoints,
}
use aotopsy.Cluster.StackMaps.Refused.{read_entry-crashes}
use aotopsy.Cluster.CodeSourceMap.{
  CsmEntry, complete, rejected, empty_pop, decode_code_source_map, inline_stack_at, decode_loop,
  apply_op,
}
use aotopsy.Cluster.CodeSourceMap.Program.{
  Instruction, change_position, advance_pc, push_function, pop_function, write_program,
}
use aotopsy.Cluster.CodeSourceMap.Frames.{run}
use aotopsy.Dartfmt.Stream.{new_stream_at, read_byte}
use aotopsy.Dartfmt.Varint.{read_tagged32}
use aotopsy.Dartfmt.Varint.RoundTrip.{write_signed}
use aotopsy.Base.Int.{add_int}
use aotopsy.Cluster.CodeSourceMap.Lookup.{inline_stack_at-write_program, state_at}
use aotopsy.Cluster.CodeSourceMap.Written.{decode_code_source_map-write_program}
use aotopsy.Cluster.CodeSourceMap.Total.{Concludes, decode_code_source_map-Concludes}
use aotopsy.Cluster.PcDescriptors.{decode_pc_descriptors, decoded}
use aotopsy.Cluster.PcDescriptors.Total.{decode_pc_descriptors-Concludes}
use aotopsy.Cluster.PcDescriptors.Total
use aotopsy.Cluster.PcDescriptors.Written.{
  Described, write_descriptors, entries_for, decode_pc_descriptors-write,
}
use aotopsy.Cluster.DispatchTable
use aotopsy.Cluster.DispatchTable.{Layout, parse_slots}
use aotopsy.Cluster.DispatchTable.Targets
use aotopsy.Cluster.DispatchTable.Targets.{parse_slots-Concludes}
use aotopsy.Cluster.DispatchTable.Written.{Run, AreRuns, write_runs, write_target, find, empty_ring}
use aotopsy.Cluster.DispatchTable.RoundTrip.{slots_of, parse_slots-write_runs}
use aotopsy.Dartfmt.Stream.Zipper.{cut, cut-IsValid}
use aotopsy.Cluster.TryRegions.{build_try_regions}
use aotopsy.Cluster.TryRegions.Merge.{covers}
use aotopsy.Cluster.TryRegions.Active.{active, holds_index}
use aotopsy.Cluster.TryRegions.Covers.{build_try_regions-active}

-- A call inlined up to pc 4, at position 7 of its function, and the caller from there to pc 12.
abbrev inlined : List Instruction
inlined =
    push_function (pos 3)
    ∷ change_position (pos 7)
    ∷ advance_pc 4
    ∷ pop_function
    ∷ change_position (negsuc 9)
    ∷ advance_pc 8
    ∷ []

abbrev inlined_ranges : List CsmEntry
inlined_ranges =
    record { pc_offset = 4; token_pos = pos 7; inline_stack = pos 3 ∷ [] }
    ∷ record { pc_offset = 12; token_pos = negsuc 9; inline_stack = [] }
    ∷ []

decode_code_source_map-write_program_example :
    decode_code_source_map (write_program inlined) ≡ complete inlined_ranges
unfolding write_program run write_signed
decode_code_source_map-write_program_example =
    decode_code_source_map-write_program inlined inlined_ranges (omega arith) (omega arith)
      (omega arith) (refl, (refl, tt)) refl

inlined_read : decode_code_source_map (write_program inlined) ≡ complete inlined_ranges
unfolding decode_code_source_map decode_loop read_tagged32 new_stream_at read_byte add_int apply_op
    write_program write_signed
inlined_read = refl

inline_stack_at-write_program_example :
    inline_stack_at inlined_ranges 7 ≡ state_at 7 inlined 0 (negsuc 0) [] none
unfolding write_program run write_signed
inline_stack_at-write_program_example =
    inline_stack_at-write_program 7 inlined inlined_ranges inlined_ranges (omega arith)
      (omega arith) (omega arith) (refl, (refl, tt)) refl inlined_read

-- A caller at position 5, a call inlined up to pc 4, at position 9, and the caller up to pc 8.
abbrev resumed : List Instruction
resumed =
    change_position (pos 5)
    ∷ push_function (pos 3)
    ∷ change_position (pos 9)
    ∷ advance_pc 4
    ∷ pop_function
    ∷ advance_pc 4
    ∷ []

-- The caller's second range has its position 5, but is read with 9.
resumed_position :
    (run resumed 0 (negsuc 0) []
      ≡ some (
          record { pc_offset = 4; token_pos = pos 9; inline_stack = pos 3 ∷ [] }
          ∷ record { pc_offset = 8; token_pos = pos 5; inline_stack = [] }
          ∷ []))
    × (decode_code_source_map (write_program resumed)
        ≡ complete (
            record { pc_offset = 4; token_pos = pos 9; inline_stack = pos 3 ∷ [] }
            ∷ record { pc_offset = 8; token_pos = pos 9; inline_stack = [] }
            ∷ []))
unfolding run decode_code_source_map decode_loop read_tagged32 new_stream_at read_byte add_int
    apply_op write_program write_signed
resumed_position = (refl, refl)

decode_code_source_map-Concludes_example :
    Concludes (λ es. length es ≤ 3) (decode_code_source_map (0xc9 ∷ 0xff ∷ 0xc3 ∷ []))
decode_code_source_map-Concludes_example =
    decode_code_source_map-Concludes (0xc9 ∷ 0xff ∷ 0xc3 ∷ []) (omega arith) (omega arith)

-- A pop (op 3) at the start.
empty_pop_rejected : decode_code_source_map (0xc3 ∷ []) ≡ rejected [] empty_pop
unfolding decode_code_source_map decode_loop read_tagged32 new_stream_at read_byte add_int apply_op
empty_pop_rejected = refl

abbrev two_safepoints : List Safepoint
two_safepoints =
    record { delta = 4; spill = 3; saved = 2; bits = 0x15 ∷ [] }
    ∷ record { delta = 300; spill = 9; saved = 0; bits = 1 ∷ 1 ∷ [] }
    ∷ []

abbrev two_safepoints-AreSafepoints : AreSafepoints two_safepoints
two_safepoints-AreSafepoints = (
  record { near = omega arith; few_spilled = omega arith; few_saved = omega arith; packed = refl },
  (
    record {
      near = omega arith;
      few_spilled = omega arith;
      few_saved = omega arith;
      packed = refl;
    },
    tt,
  ),
)

decode_compressed_stack_maps-write_safepoints_example :
    decode_compressed_stack_maps
      (write_header (4 * length (write_safepoints two_safepoints))
        ++ (write_safepoints two_safepoints ++ (9 ∷ [])))
      []
    ≡ returned (
        entry_at 4 (record { delta = 4; spill = 3; saved = 2; bits = 0x15 ∷ [] })
        ∷ entry_at 304 (record { delta = 300; spill = 9; saved = 0; bits = 1 ∷ 1 ∷ [] })
        ∷ [])
unfolding write_safepoints write_safepoint write_counts write_leb128
decode_compressed_stack_maps-write_safepoints_example =
    decode_compressed_stack_maps-write_safepoints two_safepoints (9 ∷ []) []
      two_safepoints-AreSafepoints (omega arith) (omega arith)

read_entry-crashes_example :
    read_entry true (write_leb128 9 4 ++ (write_leb128 9 (2 ^ 63) ++ [])) (0 ∷ []) 0 (pos 0)
    ≡ crashed
unfolding write_leb128
read_entry-crashes_example =
    read_entry-crashes [] [] (0 ∷ []) 4 (2 ^ 63) 0 (omega arith) (omega arith) (omega arith)
      (omega arith) (omega arith)

-- A call inside the second try block, then one outside.
abbrev described : List Described
described =
    record { pc = 16; kind_log = 7; try_plus = 2; yield_plus = 0 }
    ∷ record { pc = 40; kind_log = 7; try_plus = 0; yield_plus = 0 }
    ∷ []

decode_pc_descriptors-write_example :
    decode_pc_descriptors (write_descriptors 0 described) ≡ decoded (entries_for described) none
decode_pc_descriptors-write_example = decode_pc_descriptors-write described (omega arith)

decode_pc_descriptors-Concludes_example :
    Total.Concludes 3 (decode_pc_descriptors (0x17 ∷ 0x10 ∷ 0x80 ∷ []))
decode_pc_descriptors-Concludes_example = decode_pc_descriptors-Concludes (0x17 ∷ 0x10 ∷ 0x80 ∷ [])

build_try_regions-active_example :
    covers (pos 1) 24 (build_try_regions (entries_for described) 64)
    ≡ holds_index (pos 1) (active 24 (entries_for described))
build_try_regions-active_example =
    build_try_regions-active (pos 1) 24 64 (entries_for described) (omega arith)

one_region :
    build_try_regions (entries_for described) 64
    ≡ record { start_pc = 16; end_pc = 40; try_index = pos 1 } ∷ []
unfolding build_try_regions
one_region = refl

-- Two stubs and a code in three slots, an empty slot, and the code again.
abbrev table_layout : Layout
table_layout = record {
  code_index_one_based = true;
  table = some 5;
  first_code_id = pos 0;
  codes = [];
}

abbrev table_runs : List Run
table_runs =
    record { target = some 3; more = 0 }
    ∷ record { target = some 9; more = 2 }
    ∷ record { target = none; more = 0 }
    ∷ record { target = some 9; more = 0 }
    ∷ []

table_runs-AreRuns : AreRuns table_runs
table_runs-AreRuns = (
  omega arith,
  λ c e. ground (arith, e),
  (
    omega arith,
    λ c e. ground (arith, e),
    (omega arith, λ c e. cc, (omega arith, λ c e. ground (arith, e), tt)),
  ),
)

parse_slots-write_runs_example :
    parse_slots table_layout 6 (cut (1 ∷ []) (write_runs empty_ring table_runs ++ (7 ∷ [])))
    ≡ DispatchTable.decoded (slots_of table_layout 0 table_runs) none
unfolding write_runs write_signed write_target find
parse_slots-write_runs_example =
    parse_slots-write_runs table_layout table_runs (1 ∷ []) (7 ∷ []) table_runs-AreRuns
      (omega arith)

parse_slots-Concludes_example :
    Targets.Concludes table_layout 5 2 0 (parse_slots table_layout 2 (cut [] (0xc3 ∷ 0xbf ∷ [])))
parse_slots-Concludes_example =
    parse_slots-Concludes table_layout 5 2 (cut [] (0xc3 ∷ 0xbf ∷ [])) refl
      (omega arith, (omega arith, tt)) (cut-IsValid [] (0xc3 ∷ 0xbf ∷ []) (omega arith))
