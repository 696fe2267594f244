-- ===== src/Cluster/Ranges.antt =====
-- internal/cluster/instrtable.go: the byte ranges of the codes, from their offsets in the text.
pub mod Runs
pub mod Sizes
use aotopsy.Base.{
  ℕ, ◌+◌, ◌-◌, ◌%◌, ◌^◌, Bool, true, false, not, ◌==◌, ltb, if◌then◌else◌, List, [], ◌∷◌,
}
use aotopsy.Base.Int.{ℤ, pos, negsuc, to_u32, is_nonneg, ltb_ℤ}

-- The fields of a CodeEntry that are used here.
pub record CodeEntry : Type 0 where
  pub ref_id : ℤ
  pub owner_ref : ℤ
  pub cluster_index : ℤ
  pub text_offset : ℤ

pub record CodeRange : Type 0 where
  pub ref_id : ℤ
  pub owner_ref : ℤ
  pub index : ℤ
  pub pc_offset : ℕ
  pub size : ℕ

-- a - b, as a uint32.
abbrev pub sub_u32 : ℕ → ℕ → ℕ
sub_u32 a b = (a + 2 ^ 32 - b) % 2 ^ 32

abbrev pub text_range : CodeEntry → CodeRange
text_range c = record {
  ref_id = c.ref_id;
  owner_ref = c.owner_ref;
  index = c.cluster_index;
  pc_offset = to_u32 c.text_offset;
  size = 0;
}

-- The first loop, which leaves the deferred codes out.
abbrev pub text_ranges : List CodeEntry → List CodeRange
text_ranges [] = []
text_ranges (c ∷ cs) =
    if is_nonneg c.cluster_index then text_range c ∷ text_ranges cs else text_ranges cs

-- The order that `sort.Slice` is given.
abbrev pub before : CodeRange → CodeRange → Bool
before a b =
    if not (a.pc_offset == b.pc_offset)
    then ltb a.pc_offset b.pc_offset
    else ltb_ℤ a.ref_id b.ref_id

-- `ranges[j:]`, for the first `j` with another offset.
pub skip_same : ℕ → List CodeRange → List CodeRange
skip_same pc_offset [] = []
skip_same pc_offset (r ∷ rs) =
    let rest = skip_same pc_offset rs in if r.pc_offset == pc_offset then rest else r ∷ rs

abbrev pub set_size : CodeRange → List CodeRange → CodeRange
set_size r [] = r
set_size r (q ∷ qs) = record r { size = sub_u32 q.pc_offset r.pc_offset }

-- The last loop: each range of a run with one offset has the size of the run.
pub size_runs : List CodeRange → List CodeRange
unfolding skip_same
size_runs [] = []
size_runs (r ∷ rs) = set_size r (skip_same r.pc_offset rs) ∷ size_runs rs

-- ResolveCodeRangesFromTextOffset, for a `sort.Slice` by `before`.
unfoldable pub resolve_code_ranges_from_text_offset :
    (List CodeRange → List CodeRange) → List CodeEntry → List CodeRange
unfolding size_runs
resolve_code_ranges_from_text_offset sort codes = size_runs (sort (text_ranges codes))

-- SetLastRangeSize.
unfoldable pub set_last_range_size : List CodeRange → ℕ → List CodeRange
set_last_range_size [] code_end_offset = []
set_last_range_size (last ∷ []) code_end_offset =
    (if ltb last.pc_offset code_end_offset
      then record last { size = sub_u32 code_end_offset last.pc_offset }
      else last)
    ∷ []
set_last_range_size (r ∷ q ∷ rs) code_end_offset = r ∷ set_last_range_size (q ∷ rs) code_end_offset
