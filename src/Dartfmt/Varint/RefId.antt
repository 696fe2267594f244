-- ===== src/Dartfmt/Varint/RefId.antt =====
-- Reference ids: big-endian groups of seven bits, of which the last has its top bit set.
use aotopsy.Base.{
  All, ℕ, zero, suc, ◌+◌, ◌-◌, ◌*◌, ◌/◌, ◌%◌, ◌^◌, ◌≤◌, ◌<◌, ◌≡◌, refl, ap, ◌∙◌, arith,
}
use aotopsy.Base.{List, [], ◌∷◌, ◌++◌, length, length-append}
use aotopsy.Base.Int.{pos}
use aotopsy.Dartfmt.Stream.{Stream, done, failed, overrun}
use aotopsy.Dartfmt.Stream.Zipper.{cut, Fits, read_byte-cut}
use aotopsy.Dartfmt.Varint.{ref_id_loop, read_ref_id, int8_pattern, shl64}
use aotopsy.Dartfmt.Varint.Decode.{IsTerminator, IsData}
use mathlib.Core.List.{append_assoc}
use native.Mathlib.Nat.{pow-suc, pow-zero, pow-le-pow_right}

-- The groups read so far, highest first, on top of `acc`.
abbrev pub horner : ℕ → List ℕ → ℕ
horner acc [] = acc
horner acc (d ∷ ds) = horner (acc * 128 + d) ds

below : (j acc : ℕ) → j ≤ 4 → acc < 128 ^ j → acc < 2 ^ 28
below j acc hj h =
    let le : 128 ^ j ≤ 128 ^ 4 = pow-le-pow_right (omega arith) hj in omega (arith, le)

module _ (rounds acc : ℕ) (before after : List ℕ) (small : acc < 2 ^ 28) where
  ref_id_data :
      (d : ℕ)
      → d < 128
      → Fits (before ++ (d ∷ after))
      → ref_id_loop (suc rounds) acc (cut before (d ∷ after))
        ≡ ref_id_loop rounds (acc * 128 + d) (cut (before ++ (d ∷ [])) after)
  unfolding ref_id_loop
  ref_id_data d hd fits =
      let e : (int8_pattern d + shl64 acc 7) % 2 ^ 64 ≡ acc * 128 + d = ground arith in
      ground (arith, read_byte-cut before d after, e)

  ref_id_last :
      (t : ℕ)
      → IsTerminator t
      → Fits (before ++ (t ∷ after))
      → ref_id_loop (suc rounds) acc (cut before (t ∷ after))
        ≡ done (pos (acc * 128 + (t - 128))) (cut (before ++ (t ∷ [])) after)
  unfolding ref_id_loop
  ref_id_last t ht fits = ground (arith, read_byte-cut before t after)

ref_id_loop_reads :
    (ds : List ℕ) (rounds acc j : ℕ) (before after : List ℕ) (t : ℕ)
    → j + rounds ≡ 5
    → acc < 128 ^ j
    → length ds < rounds
    → All IsData ds
    → IsTerminator t
    → Fits (before ++ (ds ++ (t ∷ after)))
    → ref_id_loop rounds acc (cut before (ds ++ (t ∷ after)))
      ≡ done (pos (horner acc ds * 128 + (t - 128))) (cut (before ++ (ds ++ (t ∷ []))) after)
ref_id_loop_reads ds zero acc j before after t hj ha hr hd ht fits = absurd (omega arith)
ref_id_loop_reads [] (suc rounds) acc j before after t hj ha hr hd ht fits =
    ref_id_last rounds acc before after (below j acc (omega arith) ha) t ht fits
ref_id_loop_reads (d ∷ ds) (suc rounds) acc j before after t hj ha hr hd ht fits =
    let rest : List ℕ = ds ++ (t ∷ after) in
    ref_id_data rounds acc before rest (below j acc (omega arith) ha) d hd.0 fits
    ∙ ref_id_loop_reads ds rounds (acc * 128 + d) (suc j) (before ++ (d ∷ [])) after t (omega arith)
        (omega (arith, pow-suc 128 j)) (omega arith) hd.1 ht
        (rw (append_assoc before (d ∷ []) rest) fits)
    ∙ rw (append_assoc before (d ∷ []) (ds ++ (t ∷ [])))

-- Up to four data bytes and a terminator are the number that they spell, highest group first, and
-- the stream stops just behind them.
pub read_ref_id-decodes :
    (ds before after : List ℕ) (t : ℕ)
    → length ds ≤ 4
    → All IsData ds
    → IsTerminator t
    → Fits (before ++ (ds ++ (t ∷ after)))
    → read_ref_id (cut before (ds ++ (t ∷ after)))
      ≡ done (pos (horner 0 ds * 128 + (t - 128))) (cut (before ++ (ds ++ (t ∷ []))) after)
unfolding read_ref_id
read_ref_id-decodes ds before after t hl hd ht fits =
    ref_id_loop_reads ds 5 0 0 before after t refl (omega arith) (omega arith) hd ht fits

-- The ids' writer: `k` leading groups and a last one.
unfoldable pub leading_groups : ℕ → ℕ → List ℕ
leading_groups zero v = []
leading_groups (suc k) v = leading_groups k (v / 128) ++ ((v % 128) ∷ [])

unfoldable pub write_ref_id : ℕ → ℕ → List ℕ
write_ref_id k v = leading_groups k (v / 128) ++ ((v % 128 + 128) ∷ [])

horner-snoc :
    (acc : ℕ) (ds : List ℕ) (d : ℕ) → horner acc (ds ++ (d ∷ [])) ≡ horner acc ds * 128 + d
horner-snoc acc [] d = refl
horner-snoc acc (e ∷ ds) d = horner-snoc (acc * 128 + e) ds d

IsData-snoc : (ds : List ℕ) (d : ℕ) → All IsData ds → d < 128 → All IsData (ds ++ (d ∷ []))
IsData-snoc [] d h hd = (hd, tt)
IsData-snoc (e ∷ ds) d h hd = (h.0, IsData-snoc ds d h.1 hd)

leading_groups_lem :
    (k v : ℕ)
    → v < 128 ^ k
    → All IsData (leading_groups k v)
      × (length (leading_groups k v) ≡ k)
      × (horner 0 (leading_groups k v) ≡ v)
unfolding leading_groups
leading_groups_lem zero v h = (tt, refl, omega (arith, pow-zero 128))
leading_groups_lem (suc k) v h =
    let (hd, hl, hv) = leading_groups_lem k (v / 128) (omega (arith, pow-suc 128 k)) in
    (
      IsData-snoc (leading_groups k (v / 128)) (v % 128) hd (omega arith),
      omega (arith, hl, length-append (leading_groups k (v / 128)) ((v % 128) ∷ [])),
      horner-snoc 0 (leading_groups k (v / 128)) (v % 128) ∙ omega (arith, hv),
    )

-- An id that was written in `k` leading groups, at most four, and a last one is read back, and the
-- stream stops just behind it.
pub read_ref_id-write_ref_id :
    (k v : ℕ) (before after : List ℕ)
    → k ≤ 4
    → v < 128 ^ suc k
    → Fits (before ++ (write_ref_id k v ++ after))
    → read_ref_id (cut before (write_ref_id k v ++ after))
      ≡ done (pos v) (cut (before ++ write_ref_id k v) after)
unfolding write_ref_id
read_ref_id-write_ref_id k v before after hk hv fits =
    let ds : List ℕ = leading_groups k (v / 128) in
    let t : ℕ = v % 128 + 128 in
    let (hd, hl, hh) = leading_groups_lem k (v / 128) (omega (arith, pow-suc 128 k)) in
    let joined : (ds ++ (t ∷ [])) ++ after ≡ ds ++ (t ∷ after) = append_assoc ds (t ∷ []) after in
    rw joined (
      read_ref_id-decodes ds before after t (omega (arith, hl)) hd (omega arith) (rw joined at fits)
      ∙ ap (λ (w : ℕ). done (pos w) (cut (before ++ (ds ++ (t ∷ []))) after)) (omega (arith, hh)))

-- Five bytes with no terminator among them are an overrun.
pub read_ref_id-overruns :
    (a b c d e : ℕ) (before after : List ℕ)
    → All IsData (a ∷ b ∷ c ∷ d ∷ e ∷ [])
    → Fits (before ++ (a ∷ b ∷ c ∷ d ∷ e ∷ after))
    → (place : Stream) × (read_ref_id (cut before (a ∷ b ∷ c ∷ d ∷ e ∷ after))
        ≡ failed overrun place)
unfolding read_ref_id
read_ref_id-overruns a b c d e before after h fits =
    overruns (a ∷ b ∷ c ∷ d ∷ e ∷ []) 5 0 0 before h fits refl refl (omega arith)
  where
    overruns :
        (ds : List ℕ) (rounds acc j : ℕ) (front : List ℕ)
        → All IsData ds
        → Fits (front ++ (ds ++ after))
        → length ds ≡ rounds
        → j + rounds ≡ 5
        → acc < 128 ^ j
        → (place : Stream) × (ref_id_loop rounds acc (cut front (ds ++ after))
            ≡ failed overrun place)
    overruns ds zero acc j front hd hf hl hj ha = (_, unfold ref_id_loop in refl)
    overruns [] (suc rounds) acc j front hd hf hl hj ha = absurd (omega arith)
    overruns (x ∷ ds) (suc rounds) acc j front hd hf hl hj ha =
        let (place, q) =
          overruns ds rounds (acc * 128 + x) (suc j) (front ++ (x ∷ [])) hd.1
            (rw (append_assoc front (x ∷ []) (ds ++ after)) hf) (omega arith) (omega arith)
            (omega (arith, pow-suc 128 j, hd.0)) in
        (
          place,
          ref_id_data rounds acc front (ds ++ after) (below j acc (omega arith) ha) x hd.0 hf ∙ q,
        )
