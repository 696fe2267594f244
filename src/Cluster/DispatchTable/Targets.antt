-- ===== src/Cluster/DispatchTable/Targets.antt =====
-- What the slots of a dispatch table can be.
use aotopsy.Base.{
  All, ◌+◌, Option, if◌then◌else◌, Bool, ◌%◌, ℕ, zero, suc, ◌-◌, ◌<◌, ◌≡◌, ◌⊎◌, inl, inr, refl, ap,
  sym, arith, true, false, ◌==◌, ltb, leb, Bool-cases, List, [], ◌∷◌, none, some, length,
}
use mathlib.Core.Path.{subst}
use aotopsy.Base.Int.{ℤ, pos, negsuc, ◌≤ℤ◌, ltb_ℤ}
use aotopsy.Dartfmt.Stream.{Stream, Step, done, failed, panicked, stuck}
use aotopsy.Dartfmt.Stream.Zipper.{IsValid}
use aotopsy.Dartfmt.Varint.{read_tagged64}
use aotopsy.Dartfmt.Varint.Total.{IsByte, Settles, Moved, read_varint-Settles}
use aotopsy.Cluster.DispatchTable.{
  DispatchTableEntry, dispatch_null, dispatch_code, dispatch_stub, Layout, Slots, start,
  DispatchError, TableOutcome, decoded, crashed, unfinished, put, target_entry, table_target,
  absolute_slot, take_code, go_on, set_recent, apply_encoded, slots_loop, parse_slots, after_read,
  after_encoded,
}

zero_or_suc : (n : ℕ) → (n ≡ 0) ⊎ ((k : ℕ) × (n ≡ suc k))
zero_or_suc zero = inl refl
zero_or_suc (suc k) = inr (k, refl)

read_tagged64-Settles :
    (s : Stream)
    → All IsByte s.bytes
    → IsValid s
    → Settles (λ z s'. Moved 10 s s') (read_tagged64 s)
unfolding read_tagged64
read_tagged64-Settles s b v =
    read_varint-Settles 192 63 s (omega arith) (omega arith) (omega arith) b v

-- What is left behind a code index.
abbrev pub with_code : Layout → ℕ → (ℕ → DispatchTableEntry) → Slots → Slots
with_code l n recent st = record st {
  recent = recent;
  recent_index = (st.recent_index + 1) % 64;
  value = target_entry l n;
}

-- The write does not panic within the 64 places.
pub take_code-inside :
    (l : Layout) (n : ℕ) (st : Slots)
    → st.recent_index < 64
    → take_code l n st
      ≡ some (with_code l n (set_recent st.recent_index (target_entry l n) st.recent) st)
take_code-inside l n st h =
    let inside : ltb st.recent_index 64 ≡ true = ground (arith, h) in
    ap
      (λ (b : Bool).
        elim (if b then some (set_recent st.recent_index (target_entry l n) st.recent) else none)
          as (λ _. Option Slots) [ none ↦ none | some recent ↦ some (with_code l n recent st) ])
      inside

module _ (l : Layout) (first : ℕ) where
  -- A slot is empty, a code with an index from 0 on, or a stub from -1 to below the first code.
  abbrev pub IsTarget : DispatchTableEntry → Type 0
  IsTarget e = elim e.kind [
    | dispatch_null ↦ Unit {0}
    | dispatch_code ↦ pos 0 ≤ℤ e.cluster_index
    | dispatch_stub ↦ (negsuc 0 ≤ℤ e.stub_index) × (ltb_ℤ e.stub_index (pos first) ≡ true)
  ]

  -- Slots from `i` on.
  abbrev pub AreSlots : ℕ → List DispatchTableEntry → Type 0
  AreSlots i [] = Unit {0}
  AreSlots i (e ∷ es) = (e.index ≡ i) × IsTarget e × AreSlots (suc i) es

  -- All the slots, or fewer with an error; no panic, and no loop without an end.
  abbrev pub Concludes : ℕ → ℕ → TableOutcome → Type 0
  Concludes left i (decoded es none) = (length es ≡ left) × AreSlots i es
  Concludes left i (decoded es (some e)) = (length es < left) × AreSlots i es
  Concludes left i crashed = ⊥
  Concludes left i unfinished = ⊥

  table_target-IsTarget : (z : ℤ) → negsuc 0 ≤ℤ z → IsTarget (table_target first z)
  table_target-IsTarget (negsuc a) h = (h, ground arith)
  table_target-IsTarget (pos a) h = elim (Bool-cases (ltb a first)) [
    | inl p ↦ rw p (omega arith, ground (arith, p))
    | inr p ↦ rw p (omega arith)
  ]

  absolute_slot-above : (b : Bool) (n : ℕ) → negsuc 0 ≤ℤ absolute_slot b n
  absolute_slot-above true n = ground arith
  absolute_slot-above false n = omega arith

  target_entry-IsTarget : l.table ≡ some first → (n : ℕ) → IsTarget (target_entry l n)
  unfolding target_entry
  target_entry-IsTarget h n = rw h (
      table_target-IsTarget (absolute_slot l.code_index_one_based n)
        (absolute_slot-above l.code_index_one_based n))

  record AreTargets (st : Slots) : Type 0 where
    value : IsTarget st.value
    recent : (r : ℕ) → IsTarget (st.recent r)
    inside : st.recent_index < 64

  -- No panic, and what goes on goes on with targets.
  abbrev Continues : Option Slots → Type 0
  Continues none = ⊥
  Continues (some st) = AreTargets st

  Continues-take_code :
      l.table ≡ some first → (n : ℕ) (st : Slots) → AreTargets st → Continues (take_code l n st)
  Continues-take_code h n st a = rw (take_code-inside l n st a.inside) (record {
    value = target_entry-IsTarget h n;
    recent = λ r. elim (Bool-cases (r == st.recent_index)) [
      | inl p ↦ rw p (target_entry-IsTarget h n)
      | inr p ↦ rw p (a.recent r)
    ];
    inside = omega arith;
  })

  abbrev AppliesTo : Option (DispatchError ⊎ Slots) → Type 0
  AppliesTo none = ⊥
  AppliesTo (some (inl e)) = Unit {0}
  AppliesTo (some (inr st)) = AreTargets st

  AppliesTo-go_on : (o : Option Slots) → Continues o → AppliesTo (go_on o)
  AppliesTo-go_on none c = c
  AppliesTo-go_on (some st) c = c

  apply_encoded-AppliesTo :
      l.table ≡ some first
      → (i : ℕ) (z : ℤ) (st : Slots) → AreTargets st
      → AppliesTo (apply_encoded l i z st)
  unfolding apply_encoded
  apply_encoded-AppliesTo h i (negsuc r) st a = elim (Bool-cases (ltb r 64)) [
    | inl p ↦ rw p (record { value = a.recent r; recent = a.recent; inside = a.inside })
    | inr p ↦ rw p tt
  ]
  apply_encoded-AppliesTo h i (pos n) st a = elim (Bool-cases (n == 0)) [
    | inl p ↦ rw p (record { value = tt; recent = a.recent; inside = a.inside })
    | inr p ↦ elim (Bool-cases (leb n 63)) [
      | inl q ↦ rw (p, q) (record { value = a.value; recent = a.recent; inside = a.inside })
      | inr q ↦
          rw (p, q)
            (AppliesTo-go_on (take_code l (n - 64) st) (Continues-take_code h (n - 64) st a))
    ]
  ]

  Concludes-put :
      (left i : ℕ) (e : DispatchTableEntry) (o : TableOutcome)
      → IsTarget e
      → Concludes left (suc i) o
      → Concludes (suc left) i (put i e o)
  Concludes-put left i e (decoded es none) t c = (ap suc c.0, (refl, t, c.1))
  Concludes-put left i e (decoded es (some err)) t c = (omega (arith, c.0), (refl, t, c.1))
  Concludes-put left i e crashed t c = absurd c
  Concludes-put left i e unfinished t c = absurd c

  after_encoded-Concludes :
      (left i : ℕ) (next : Slots → Stream → TableOutcome) (s : Stream)
      (x : Option (DispatchError ⊎ Slots))
      → AppliesTo x
      → ((st : Slots) → AreTargets st → Concludes left (suc i) (next st s))
      → Concludes (suc left) i (after_encoded i next s x)
  after_encoded-Concludes left i next s none a h = absurd a
  after_encoded-Concludes left i next s (some (inl e)) a h = (omega arith, tt)
  after_encoded-Concludes left i next s (some (inr st)) a h =
      Concludes-put left i st.value (next st s) a.value (h st a)

  after_read-Concludes :
      l.table ≡ some first
      → (left i : ℕ) (st : Slots) (s : Stream) → (next : Slots → Stream → TableOutcome)
      → AreTargets st
      → (read : Step ℤ) → Settles (λ z s'. Moved 10 s s') read
      → ((st' : Slots) (s' : Stream)
          → AreTargets st'
          → Moved 10 s s'
          → Concludes left (suc i) (next st' s'))
      → Concludes (suc left) i (after_read l i st next read)
  after_read-Concludes has left i st s next a (done z s') m h =
      after_encoded-Concludes left i next s' (apply_encoded l i z st)
        (apply_encoded-AppliesTo has i z st a) (λ st' a'. h st' s' a' m)
  after_read-Concludes has left i st s next a (failed e s') m h = (omega arith, tt)
  after_read-Concludes has left i st s next a panicked m h = absurd m
  after_read-Concludes has left i st s next a stuck m h = absurd m

  module _ (has : l.table ≡ some first) where
    slots_loop-Concludes :
        (left i : ℕ) (st : Slots) (s : Stream)
        → AreTargets st
        → All IsByte s.bytes
        → IsValid s
        → Concludes left i (slots_loop l left i st s)
    unfolding slots_loop
    slots_loop-Concludes zero i st s a b v = (refl, tt)
    slots_loop-Concludes (suc left) i st s a b v = elim (zero_or_suc st.repeat_count) [
      | inl none_left ↦
          rw (none_left, slots_loop)
            (after_read-Concludes has left i st s (slots_loop l left (suc i)) a (read_tagged64 s)
              (read_tagged64-Settles s b v)
              (λ st' s' a' m.
                slots_loop-Concludes left (suc i) st' s' a' (subst (All IsByte) (sym m.same) b)
                  m.valid))
      | inr (k, more) ↦
          rw (more, slots_loop)
            (Concludes-put left i st.value _ a.value (
              slots_loop-Concludes left (suc i) (record st { repeat_count = k }) s
                (record { value = a.value; recent = a.recent; inside = a.inside }) b v))
    ]

-- Where there is an instructions table, on any valid stream of bytes, the loop of
-- ParseDispatchTable returns, without a panic: with all the slots, or with an error and fewer of them. The slots are numbered in order; each is
-- empty, a code of index 0 or more, or a stub from -1 to below the first code.
pub parse_slots-Concludes :
    (l : Layout) (first length : ℕ) (s : Stream)
    → l.table ≡ some first
    → All IsByte s.bytes
    → IsValid s
    → Concludes l first length 0 (parse_slots l length s)
unfolding parse_slots
parse_slots-Concludes l first length s h b v =
    slots_loop-Concludes l first h length 0 start s
      (record { value = tt; recent = λ r. tt; inside = omega arith }) b v
