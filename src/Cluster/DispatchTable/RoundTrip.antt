-- ===== src/Cluster/DispatchTable/RoundTrip.antt =====
-- A dispatch table in the form that the SDK writes, read back.
use aotopsy.Base.{
  ℕ, zero, suc, ◌+◌, ◌-◌, ◌%◌, ◌^◌, ◌<◌, ◌≡◌, inl, inr, refl, ap, ◌∙◌, sym, arith, true, false,
  ◌==◌, ltb, leb, Bool-cases, Option-cases, if◌then◌else◌, List, [], ◌∷◌, ◌++◌, Option, none, some,
}
use mathlib.Core.List.{append_assoc, append-nil}
use mathlib.Core.Path.{subst}
use aotopsy.Base.Int.{ℤ, pos, IsInt64}
use aotopsy.Dartfmt.Stream.{Stream}
use aotopsy.Dartfmt.Stream.Zipper.{cut, Fits}
use aotopsy.Dartfmt.Varint.RoundTrip.{write_signed, read_tagged64-write_signed}
use aotopsy.Cluster.DispatchTable.{
  DispatchTableEntry, Layout, Slots, start, TableOutcome, decoded, null_entry, put, target_entry,
  set_recent, apply_encoded, slots_loop, parse_slots,
}
use aotopsy.Cluster.DispatchTable.Targets.{take_code-inside}
use aotopsy.Cluster.DispatchTable.Written.{
  Run, AreRuns, Ring, empty_ring, find, push, write_code, write_target, write_repeat, write_runs,
  more_slots, slot_count, spread,
}

module _ (l : Layout) where
  abbrev pub entry_of : Option ℕ → DispatchTableEntry
  entry_of none = null_entry
  entry_of (some c) = target_entry l c

  -- The table that the runs stand for, from slot `i` on.
  abbrev pub slots_of : ℕ → List Run → List DispatchTableEntry
  slots_of i [] = []
  slots_of i (r ∷ rs) = spread (suc r.more) i (entry_of r.target) (slots_of (suc (i + r.more)) rs)

  -- The reader's recent entries are those of the writer's ring.
  record Follows (w : Ring) (st : Slots) : Type 0 where
    recent : (r c : ℕ) → w.at r ≡ some c → st.recent r ≡ target_entry l c
    next : st.recent_index ≡ w.next
    inside : st.recent_index < 64

  find-at : (n : ℕ) (at : ℕ → Option ℕ) (c r : ℕ) → find n at c ≡ some r → (r < n) × (at r ≡ some c)
  unfolding find
  find-at zero at c r e = cc
  find-at (suc n) at c r e = elim (Option-cases (find n at c)) [
    | inr (q, found) ↦
        let e' = (rw found at e) in
        let same : find n at c ≡ some r = (let h = found ∙ e' in h) in
        let (below, holds) = find-at n at c r same in (omega (arith, below), holds)
    | inl missing ↦ elim (Option-cases (at n)) [
      | inl unset ↦ (let e' = (rw (missing, unset) at e) in cc)
      | inr (d, set) ↦ (let e' = (rw (missing, set) at e) in here d set e')
    ]
  ]
    where
      here :
          (d : ℕ)
          → at n ≡ some d
          → (if d == c then some n else none) ≡ some r
          → (r < suc n) × (at r ≡ some c)
      here d set q = elim (Bool-cases (d == c)) [
        | inr p ↦ (let q' = (rw p at q) in cc)
        | inl p ↦
            let q' : some n ≡ some r = (rw p at q) in
            let last : n ≡ r = ground arith in
            let one : d ≡ c = ground (arith, p) in
            (omega (arith, last), subst (λ x. at x ≡ some c) last (set ∙ ap some one))
      ]

  -- What the reader makes of a target's number.
  abbrev Taken : Option ℕ → ℤ × Ring → Slots → Type 0
  Taken t out st =
      (st' : Slots) × ((i : ℕ) → apply_encoded l i out.0 st ≡ some (inr st'))
      × (st'.value ≡ entry_of t)
      × (st'.repeat_count ≡ st.repeat_count)
      × Follows out.1 st'
      × IsInt64 out.0

  push-recent :
      (w : Ring) (c : ℕ) (st : Slots)
      → Follows w st
      → (r d : ℕ) → (push c w).at r ≡ some d
      → set_recent st.recent_index (target_entry l c) st.recent r ≡ target_entry l d
  push-recent w c st f r d held = elim (Bool-cases (r == w.next)) [
    | inl p ↦
        let p' : (r == st.recent_index) ≡ true = (rw f.next p) in
        let held' : some c ≡ some d = (rw p at held) in
        let same : c ≡ d = ground (arith, held') in rw p' (ap (target_entry l) same)
    | inr p ↦
        let p' : (r == st.recent_index) ≡ false = (rw f.next p) in
        let held' : w.at r ≡ some d = (rw p at held) in rw p' (f.recent r d held')
  ]

  write_code-Taken :
      (w : Ring) (c : ℕ) (st : Slots) (o : Option ℕ)
      → find 64 w.at c ≡ o
      → c < 2 ^ 62
      → Follows w st
      → Taken (some c) (write_code w c o) st
  unfolding apply_encoded
  write_code-Taken w c st (some r) e h f =
      let (below, holds) = find-at 64 w.at c r e in
      let inside : ltb r 64 ≡ true = ground (arith, below) in
      (
        record st { value = st.recent r },
        λ i. rw inside refl,
        f.recent r c holds,
        refl,
        record { recent = f.recent; next = f.next; inside = f.inside },
        omega (arith, below),
      )
  write_code-Taken w c st none e h f =
      let some_number : (c + 64 == 0) ≡ false = ground arith in
      let large : leb (c + 64) 63 ≡ false = ground arith in
      let back : c + 64 - 64 ≡ c = omega arith in
      (
        record st {
          recent = set_recent st.recent_index (target_entry l c) st.recent;
          recent_index = (st.recent_index + 1) % 64;
          value = target_entry l c;
        },
        λ i. rw (some_number, large, back, take_code-inside l c st f.inside) refl,
        refl,
        refl,
        record {
          recent = push-recent w c st f;
          next = ap (λ (n : ℕ). (n + 1) % 64) f.next;
          inside = omega arith;
        },
        omega (arith, h),
      )

  write_target-Taken :
      (w : Ring) (t : Option ℕ) (st : Slots)
      → ((c : ℕ) → t ≡ some c → c < 2 ^ 62)
      → Follows w st
      → Taken t (write_target w t) st
  unfolding write_target apply_encoded
  write_target-Taken w none st h f = (
    record st { value = null_entry },
    λ i. refl,
    refl,
    refl,
    record { recent = f.recent; next = f.next; inside = f.inside },
    omega arith,
  )
  write_target-Taken w (some c) st h f = write_code-Taken w c st (find 64 w.at c) refl (h c refl) f

  -- A number read at a slot.
  slots_loop-write :
      (left i : ℕ) (st st' : Slots) (z : ℤ) (before after : List ℕ)
      → st.repeat_count ≡ 0
      → apply_encoded l i z st ≡ some (inr st')
      → IsInt64 z
      → Fits (before ++ (write_signed 9 z ++ after))
      → slots_loop l (suc left) i st (cut before (write_signed 9 z ++ after))
        ≡ put i st'.value (slots_loop l left (suc i) st' (cut (before ++ write_signed 9 z) after))
  unfolding slots_loop
  slots_loop-write left i st st' z before after none_left e h fits =
      rw (none_left, read_tagged64-write_signed z before after h fits, e, slots_loop) refl

  abbrev puts : ℕ → ℕ → DispatchTableEntry → TableOutcome → TableOutcome
  puts zero i e o = o
  puts (suc k) i e o = put i e (puts k (suc i) e o)

  -- The slots that a repeat count goes on for.
  slots_loop-repeats :
      (k left i j : ℕ) (st : Slots) (s : Stream)
      → i + k ≡ j
      → st.repeat_count ≡ 0
      → slots_loop l (more_slots k left) i (record st { repeat_count = k }) s
        ≡ puts k i st.value (slots_loop l left j st s)
  unfolding slots_loop
  slots_loop-repeats zero left i j st s q e =
      let here : i ≡ j = omega (arith, q) in
      ap (λ (n : ℕ). slots_loop l left i (record st { repeat_count = n }) s) (sym e)
      ∙ ap (λ (n : ℕ). slots_loop l left n st s) here
  slots_loop-repeats (suc k) left i j st s q e =
      ap (put i st.value) (slots_loop-repeats k left (suc i) j st s (omega (arith, q)) e)

  apply_encoded-marker :
      (k j : ℕ) (st : Slots)
      → suc k < 64
      → apply_encoded l j (pos (suc k)) st ≡ some (inr (record st { repeat_count = k }))
  unfolding apply_encoded
  apply_encoded-marker k j st h =
      let some_number : (suc k == 0) ≡ false = ground arith in
      let small : leb (suc k) 63 ≡ true = ground (arith, h) in
      let fewer : suc k - 1 ≡ k = omega arith in rw (some_number, small, fewer) refl

  slots_loop-write_repeat :
      (more left i j : ℕ) (st : Slots) (before after : List ℕ)
      → more < 64
      → i + more ≡ j
      → st.repeat_count ≡ 0
      → Fits (before ++ (write_repeat more ++ after))
      → slots_loop l (more_slots more left) i st (cut before (write_repeat more ++ after))
        ≡ puts more i st.value (slots_loop l left j st (cut (before ++ write_repeat more) after))
  slots_loop-write_repeat zero left i j st before after h q e fits =
      let here : i ≡ j = omega (arith, q) in
      rw append-nil (ap (λ (n : ℕ). slots_loop l left n st (cut before after)) here)
  slots_loop-write_repeat (suc k) left i j st before after h q e fits =
      slots_loop-write (more_slots k left) i st (record st { repeat_count = k }) (pos (suc k))
        before after e (apply_encoded-marker k i st h) (omega (arith, h)) fits
      ∙ ap (put i st.value) (slots_loop-repeats k left (suc i) j st _ (omega (arith, q)) e)

  puts-decoded :
      (k i : ℕ) (e : DispatchTableEntry) (rest : List DispatchTableEntry)
      → puts k i e (decoded rest none) ≡ decoded (spread k i e rest) none
  puts-decoded zero i e rest = refl
  puts-decoded (suc k) i e rest = ap (put i e) (puts-decoded k (suc i) e rest)

  slots_loop-write_runs :
      (w : Ring) (rs : List Run) (i : ℕ) (st : Slots) (before after : List ℕ)
      → AreRuns rs
      → Follows w st
      → st.repeat_count ≡ 0
      → Fits (before ++ (write_runs w rs ++ after))
      → slots_loop l (slot_count rs) i st (cut before (write_runs w rs ++ after))
        ≡ decoded (slots_of i rs) none
  unfolding write_runs slots_loop
  slots_loop-write_runs w [] i st before after a f e fits = refl
  slots_loop-write_runs w (r ∷ rs) i st before after a f e fits =
      let (z, w') = write_target w r.target in
      let (st', reads, value, still, f', small) = write_target-Taken w r.target st a.1 f in
      let repeats = write_repeat r.more in
      let rest = write_runs w' rs in
      let after_z = before ++ write_signed 9 z in
      let slots = slots_of (suc (i + r.more)) rs in
      let join =
        append_assoc (write_signed 9 z) (repeats ++ rest) after
        ∙ ap (λ (x : List ℕ). write_signed 9 z ++ x) (append_assoc repeats rest after) in
      let fits' : Fits (before ++ (write_signed 9 z ++ (repeats ++ (rest ++ after)))) =
        subst (λ x. Fits (before ++ x)) join fits in
      let fits_repeat : Fits (after_z ++ (repeats ++ (rest ++ after))) =
        subst Fits (sym (append_assoc before (write_signed 9 z) (repeats ++ (rest ++ after))))
          fits' in
      let fits_rest : Fits ((after_z ++ repeats) ++ (rest ++ after)) =
        subst Fits (sym (append_assoc after_z repeats (rest ++ after))) fits_repeat in
      let e' = still ∙ e in
      let total = more_slots r.more (slot_count rs) in
      ap (λ x. slots_loop l (suc total) i st (cut before x)) join
      ∙ slots_loop-write total i st st' z before (repeats ++ (rest ++ after)) e (reads i) small
          fits'
      ∙ ap (put i st'.value) (
          slots_loop-write_repeat r.more (slot_count rs) (suc i) (suc (i + r.more)) st' after_z
            (rest ++ after) a.0 (omega arith) e' fits_repeat
          ∙ ap (puts r.more (suc i) st'.value) (
              slots_loop-write_runs w' rs (suc (i + r.more)) st' (after_z ++ repeats) after a.2 f'
                e' fits_rest)
          ∙ puts-decoded r.more (suc i) st'.value slots)
      ∙ ap (λ v. decoded (spread (suc r.more) i v slots) none) value

-- The slots of any table written in runs of up to 64, with code indices below 2 ^ 62, empty slots
-- as 0, an index among the 64 recent ones by its place, and a run's further slots as a count, are
-- read back by the loop of ParseDispatchTable: entry by entry, without an error.
pub parse_slots-write_runs :
    (l : Layout) (rs : List Run) (before after : List ℕ)
    → AreRuns rs
    → Fits (before ++ (write_runs empty_ring rs ++ after))
    → parse_slots l (slot_count rs) (cut before (write_runs empty_ring rs ++ after))
      ≡ decoded (slots_of l 0 rs) none
unfolding parse_slots
parse_slots-write_runs l rs before after a fits =
    slots_loop-write_runs l empty_ring rs 0 start before after a
      (record { recent = λ r c e. cc; next = refl; inside = omega arith }) refl fits
