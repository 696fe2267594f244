-- ===== src/Cluster/DispatchTable/Written.antt =====
-- The slots of a dispatch table in the form that the SDK writes.
use aotopsy.Base.{
  ℕ, zero, suc, ◌+◌, ◌%◌, ◌^◌, ◌<◌, ◌≡◌, Bool, false, ◌==◌, if◌then◌else◌, List, [], ◌∷◌, ◌++◌,
  Option, none, some,
}
use aotopsy.Base.Int.{ℤ, pos, negsuc}
use aotopsy.Dartfmt.Varint.RoundTrip.{write_signed}
use aotopsy.Cluster.DispatchTable.{DispatchTableEntry}

-- A code index, or none for an empty slot, in `more + 1` slots.
pub record Run : Type 0 where
  pub target : Option ℕ
  pub more : ℕ

abbrev pub AreRuns : List Run → Type 0
AreRuns [] = Unit {0}
AreRuns (r ∷ rs) = (r.more < 64) × ((c : ℕ) → r.target ≡ some c → c < 2 ^ 62) × AreRuns rs

-- The writer's ring of recent code indices, and the place of the next one.
pub record Ring : Type 0 where
  pub at : ℕ → Option ℕ
  pub next : ℕ

abbrev pub empty_ring : Ring
empty_ring = record { at = λ _. none; next = 0 }

abbrev is_code : Option ℕ → ℕ → Bool
is_code none c = false
is_code (some d) c = d == c

-- The first place below `n` that holds the index.
unfoldable pub find : ℕ → (ℕ → Option ℕ) → ℕ → Option ℕ
find zero at c = none
find (suc n) at c = elim (find n at c) [
  | some r ↦ some r
  | none ↦ if is_code (at n) c then some n else none
]

abbrev pub push : ℕ → Ring → Ring
push c w = record { at = λ j. if j == w.next then some c else w.at j; next = (w.next + 1) % 64 }

-- A recent index by its place in the ring, another one itself.
abbrev pub write_code : Ring → ℕ → Option ℕ → ℤ × Ring
write_code w c (some r) = (negsuc r, w)
write_code w c none = (pos (c + 64), push c w)

unfoldable pub write_target : Ring → Option ℕ → ℤ × Ring
unfolding find
write_target w none = (pos 0, w)
write_target w (some c) = write_code w c (find 64 w.at c)

abbrev pub write_repeat : ℕ → List ℕ
write_repeat zero = []
write_repeat (suc k) = write_signed 9 (pos (suc k))

unfoldable pub write_runs : Ring → List Run → List ℕ
unfolding write_target
write_runs w [] = []
write_runs w (r ∷ rs) =
    let (z, w') = write_target w r.target in
    write_signed 9 z ++ (write_repeat r.more ++ write_runs w' rs)

abbrev pub more_slots : ℕ → ℕ → ℕ
more_slots zero left = left
more_slots (suc k) left = suc (more_slots k left)

abbrev pub slot_count : List Run → ℕ
slot_count [] = 0
slot_count (r ∷ rs) = suc (more_slots r.more (slot_count rs))

-- The entry in `k` slots from `i` on, before those of the rest.
abbrev pub spread : ℕ → ℕ → DispatchTableEntry → List DispatchTableEntry → List DispatchTableEntry
spread zero i e rest = rest
spread (suc k) i e rest = record e { index = i } ∷ spread k (suc i) e rest
