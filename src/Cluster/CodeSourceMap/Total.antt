-- ===== src/Cluster/CodeSourceMap/Total.antt =====
-- The decoder of code source maps on any bytes.
use aotopsy.Base.{All, ℕ, zero, suc, ◌+◌, ◌≤◌, ◌<◌, ◌≡◌, refl, arith, ◌⊎◌, Bool-cases, sym, ap, ◌∙◌}
use aotopsy.Base.{
  List, [], ◌∷◌, length, length-append, inr, inl, Option, none, some, ◌==◌, true, false,
}
use aotopsy.Base.Int.{ℤ, pos, to_u32, signed32, add_int, ltb_ℤ}
use aotopsy.Dartfmt.Stream.{Stream, Step, done, failed, panicked, stuck, ◌>>=◌, M, pure}
use aotopsy.Dartfmt.Stream.Zipper.{cut, Fits, IsValid, cut-IsValid}
use aotopsy.Dartfmt.Varint.{read_varint, read_tagged32, end_byte_marker}
use aotopsy.Dartfmt.Varint.Total.{IsByte, Settles, Moved, read_varint-Settles}
use aotopsy.Cluster.CodeSourceMap.{
  CsmEntry, CsmError, Context, Outcome, complete, rejected, crashed, unfinished, apply_op,
  decode_loop, decode_code_source_map, after_read, start, dispatch, arg_field, pop_frame, drop_last,
  empty_pop,
}
use aotopsy.Cluster.CodeSourceMap.Written.{new_stream_at-start}

-- The decoder neither panics nor runs out of fuel, and its entries satisfy P.
abbrev pub Concludes : (List CsmEntry → Type 0) → Outcome → Type 0
Concludes P (complete es) = P es
Concludes P (rejected es e) = P es
Concludes P crashed = ⊥
Concludes P unfinished = ⊥

-- An op does not panic, and adds one entry at most.
abbrev Steps : Context → Option (CsmError ⊎ Context) → Type 0
Steps c none = ⊥
Steps c (some (inl e)) = Unit {0}
Steps c (some (inr c')) = length c'.entries ≤ suc (length c.entries)

Steps-pop_frame : (c : Context) → Steps c (pop_frame c)
Steps-pop_frame c = go c.stack
  where
    go :
        (stack : List ℤ)
        → Steps c (elim (length stack == 0) as (λ _. Option (CsmError ⊎ Context)) [
          | true ↦ some (inl empty_pop)
          | false ↦ elim (drop_last stack) [
            | none ↦ none
            | some rest ↦ some (inr (record c { stack = rest }))
          ]
        ])
    go [] = tt
    go (f ∷ fs) =
        let some_frame : (length (f ∷ fs) == 0) ≡ false = ground arith in
        rw some_frame (omega arith)

Steps-apply_op : (n : ℤ) (c : Context) → Steps c (apply_op n c)
unfolding apply_op
Steps-apply_op n c =
    let e : CsmEntry = record {
      pc_offset = to_u32 (add_int c.pc (arg_field n));
      token_pos = c.token_pos;
      inline_stack = c.stack;
    } in
    ground (arith, length-append c.entries (e ∷ []), Steps-pop_frame c)

Settles-to_u32 :
    (P : Stream → Type 0) (m : M ℤ) (s : Stream)
    → Settles (λ _ s'. P s') (m s)
    → Settles (λ _ s'. P s') ((m >>= λ v. pure (to_u32 v)) s)
Settles-to_u32 P m s h = go (m s) h
  where
    go :
        (r : Step ℤ)
        → Settles (λ _ s'. P s') r
        → Settles (λ _ s'. P s') (((λ _. r) >>= λ v. pure (to_u32 v)) s)
    go (done a s') h = h
    go (failed e s') h = tt
    go panicked h = elim h [ ]
    go stuck h = elim h [ ]

Concludes-dispatch :
    (P : List CsmEntry → Type 0) (next : Context → Outcome) (c : Context)
    (r : Option (CsmError ⊎ Context))
    → Steps c r
    → P c.entries
    → ((c' : Context) → length c'.entries ≤ suc (length c.entries) → Concludes P (next c'))
    → Concludes P (dispatch next c.entries r)
Concludes-dispatch P next c none h p k = absurd h
Concludes-dispatch P next c (some (inl e)) h p k = p
Concludes-dispatch P next c (some (inr c')) h p k = k c' h

Concludes-after_read :
    (P : List CsmEntry → Type 0) (Q : Stream → Type 0) (next : Stream → Context → Outcome)
    (c : Context) (r : Step ℕ)
    → Settles (λ _ s'. Q s') r
    → P c.entries
    → ((s' : Stream) (c' : Context)
        → Q s'
        → length c'.entries ≤ suc (length c.entries)
        → Concludes P (next s' c'))
    → Concludes P (after_read next c r)
Concludes-after_read P Q next c (done a s') h p k =
    Concludes-dispatch P (next s') c (apply_op (signed32 a) c) (Steps-apply_op (signed32 a) c) p
      (λ c' g. k s' c' h g)
Concludes-after_read P Q next c (failed e s') h p k = p
Concludes-after_read P Q next c panicked h p k = elim h [ ]
Concludes-after_read P Q next c stuck h p k = elim h [ ]

read_tagged32-Settles :
    (s : Stream)
    → All IsByte s.bytes
    → IsValid s
    → Settles (λ _ s'. Moved 10 s s') (read_tagged32 s)
unfolding read_tagged32
read_tagged32-Settles s b v =
    Settles-to_u32 (Moved 10 s) (read_varint end_byte_marker 28) s
      (read_varint-Settles end_byte_marker 28 s (omega arith) (omega arith) (omega arith) b v)

-- The round at `place`, with an entry at most for each byte before it.
Concludes-decode_loop :
    (fuel size place : ℕ) (c : Context) (s : Stream)
    → size ≡ length s.bytes
    → All IsByte s.bytes
    → IsValid s
    → s.position ≡ pos place
    → size < fuel + place
    → length c.entries ≤ place
    → Concludes (λ es. length es ≤ size) (decode_loop fuel size c s)
unfolding decode_loop
Concludes-decode_loop zero size place c s w b v e f n =
    let here : v.offset ≡ place = let q : pos v.offset ≡ pos place = sym v.placed ∙ e in cc in
    let gone : ⊥ = omega (arith, here, v.within) in gone
Concludes-decode_loop (suc fuel) size place c s w b v e f n =
    let here : v.offset ≡ place = let q : pos v.offset ≡ pos place = sym v.placed ∙ e in cc in
    let few : length c.entries ≤ size = omega (arith, here, v.within) in
    elim (Bool-cases (ltb_ℤ s.position (pos size))) [
      | inl p ↦ rw p (
          Concludes-after_read (λ es. length es ≤ size) (Moved 10 s)
            (λ s' c'. decode_loop fuel size c' s') c (read_tagged32 s) (read_tagged32-Settles s b v)
            few
            (λ s' c' m g.
              let back : m.from ≡ place =
                let q : pos m.from ≡ pos place = sym m.started ∙ e in cc in
              Concludes-decode_loop fuel size m.to c' s' (w ∙ ap length (sym m.same)) (rw m.same b)
                m.valid m.stopped (omega (arith, back, m.forward))
                (omega (arith, back, m.forward))))
      | inr p ↦ rw p few
    ]

-- On any payload of bytes the decoder returns, with the entries or with an error: it neither
-- panics nor runs out of fuel. It keeps one entry at most for each byte.
pub decode_code_source_map-Concludes :
    (payload : List ℕ)
    → All IsByte payload
    → Fits payload
    → Concludes (λ es. length es ≤ length payload) (decode_code_source_map payload)
unfolding decode_code_source_map
decode_code_source_map-Concludes payload b fits = rw (new_stream_at-start payload) (
    Concludes-decode_loop (suc (length payload)) (length payload) 0 start (cut [] payload) refl b
      (cut-IsValid [] payload fits) refl (omega arith) (omega arith))
