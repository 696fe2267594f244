-- ===== src/Lib.antt =====
-- Verification of AOTopsy, a static analyser for Dart AOT snapshots.
--
-- The program reads the bytes of a snapshot through one stream, rebuilds the objects that it
-- holds, disassembles the code, and infers types and call targets over a control flow graph. The
-- parts here are those that the rest rests on:
--
-- Dartfmt: internal/dartfmt/stream.go. `Stream` is the struct, its methods are functions from a
--   stream to a `Step`: a result with the stream after it, an error with the stream after it, a
--   panic, or no Go outcome where a loop ran out of fuel. Ints are integers in the int64 range,
--   with wrap-around written out; bytes are numbers below 256. `Varint` holds ReadUnsigned,
--   ReadTagged32, ReadTagged64 and ReadRefId. Their loops take fuel `max_shift + 1` and 5 rounds;
--   the former adds 7 to the shift each round and ends where it reaches `max_shift`. ReadCString
--   takes the bytes up to the end for fuel. ReadInt32 and ReadDouble only reinterpret bits.
--   The writers in `Varint.RoundTrip`, `Varint.RefId` and `Stream.Moves` are no part of the
--   repository: they are the encodings that its comments describe.
-- Typetrack: internal/typetrack/lattice.go. `Lattice` is the type lattice with Equal and
--   meetType; `Hierarchy` is the superclass map with BuildClassHierarchy and LCA. A Go map is a
--   function into an option. `Bound` is the order of the elements.
--   LCA's loops take fuel, any number above the lengths of the two
--   superclass chains; where a chain does not end there is no such number.
-- Cluster: the tables that internal/cluster decodes. `CodeSourceMap` is codesourcemap.go: the
--   bytecode that DecodeCodeSourceMap runs over a stream and the lookup InlineStackAt. A round of
--   the loop reads a byte at least, so the length of the payload is fuel enough. `Program` is the
--   SDK's description of that bytecode, with the frames as a stack, and its encoding; there the
--   position is the last one set, whatever frame it was set in. In `Frames` each frame has its own,
--   as the comment on TokenPos has it.
--   `StackMaps` is compressedstackmaps.go: the safepoint tables, their LEB128 numbers and their
--   bitmaps. readLEB128 makes ten rounds at most, and each entry takes a byte at least. A slice
--   with a position is the bytes and an int; a negative index panics. The counts of an entry are
--   numbers, since the decoder makes no negative ones. `Written` and `RoundTrip` hold the SDK's
--   writer. `PcDescriptors` is the decoder of pcdescriptors.go: readSLEB128 over the bytes that are
--   left, on the pattern of its int64, and DecodePcDescriptors, in which a descriptor takes two bytes
--   at least, so the length of the payload is fuel enough; `Written` is the SDK's writer.
--   `TryRegions` is BuildTryRegions of the same file: the run at hand with its start, then the
--   merging, which keeps its last region apart. `Active` is the last descriptor at or before a pc,
--   and `Merge` and `Covers` compare the regions with it. `DispatchTable` is the loop of ParseDispatchTable of
--   dispatchtable.go over the encoded slots; the ring of recent entries is read and written
--   within its 64 places, and outside them panics. `Targets` bounds what it returns, `Written` is a writer with runs and such a ring.
--   `Ranges` is ResolveCodeRangesFromTextOffset and SetLastRangeSize of instrtable.go, for any
--   function in place of `sort.Slice` that returns the same ranges in order.
-- Decompiler: internal/decompiler/dom.go, with ComputePreds of ir.go and identifyLoopHeaders of
--   emit_walk.go. A function is its number of blocks and their successors; a slice of ints with -1
--   in it is a function into an option, and `rpo_num` holds numbers one larger than rpoNum, with 0
--   for -1. The stack of the walk runs from its top down; a round takes an edge or leaves a block,
--   which bounds them. The climbs of `intersect` go down in the order, as does the walk of
--   `dominates`, so the number of blocks bounds each. The passes of `dominators` take fuel: two
--   passes are enough where each edge that does not go forward is a back edge; for other functions
--   the answers are proved for any number of passes that ends them. `Order` is the walk, `Rank` and
--   `Preds` the order and the predecessors, `Tree`, `Detour` and `Passes` what the table is between
--   the steps, `Sound` and `Loops` what its answers mean, `Reducible` and `Exact` that two passes do.
-- Arm64: internal/arch/arm64/decoders.go, the decoders of one instruction word, with the masks and
--   values of the source. Decoders that differ in their opcode alone are one definition that takes
--   the opcode. The encoders in its child modules follow the instruction set. `Destinations` is
--   DstRegsOfInst and DstRegOfInst, and `Select` reads it as a table of opcodes.
-- Disasm: the flow graph of a function. `Partition` is internal/disasm/partition.go: a function
--   from the number of instructions and their addresses, lengths and flows to the basic blocks; a
--   Go map with int keys is a function, and its sorted keys are the marked numbers up to the number
--   of instructions. `Branch` is branch.go, and BuildCFG of cfg.go that puts the two together.
--   `Lvalue` and `Fixpoint` are the values and the worklist of fixpoint.go, whose bound on the visits
--   is the fuel of its loop; a slice with one place for each register is a function. `Provenance` is
--   the effect of instructions on the notes of registers, in dataflowarm64.go: strings are lists of
--   bytes, annotators are functions. `CallEdges` is the final pass, with the masks of arguments of
--   calledge.go; `Written` says bit by bit which instructions set them. The loop of popcount8 clears one of eight bits in a round, so it has fuel 8.
--
-- Base holds the shared names, lists measured by native numbers, integers, and the laws of the
-- bit operations. Tests holds runs at concrete inputs.
--
-- Not modelled: code that only wraps golang.org/x/arch or debug/elf, generated tables, text
-- output, and the passes that rewrite pseudocode. Of pcdescriptors.go, the payloads in the
-- read-only data image and ExpandOuterTryRegions; of dispatchtable.go, the roots section before the
-- slots; of instrtable.go, the parsing of the table and the ranges that rest on it. That the passes
-- of `dominators` end where the flow of a function is not reducible is not shown.
pub mod Arm64
pub mod Base
pub mod Cluster
pub mod Dartfmt
pub mod Decompiler
pub mod Disasm
pub mod Typetrack
pub mod Tests
