-- ===== src/Dartfmt/Varint/Total.antt =====
-- The varint readers on any input, and what they make of numbers that are too large.
use aotopsy.Base.{All, ℕ, zero, suc, ◌+◌, ◌*◌, ◌≤◌, ◌<◌, ◌≡◌, refl, sym, ap, arith}
use aotopsy.Base.{List, [], ◌∷◌, ◌++◌, length, length-append, take, drop}
use aotopsy.Base.{take-append-drop, dec_lt}
use aotopsy.Base.Int.{pos}
use aotopsy.Dartfmt.Stream.{Stream, Step, done, failed, panicked, stuck, Error, overrun}
use aotopsy.Dartfmt.Stream.Zipper.{cut, Fits, IsValid, valid-cut, cut-IsValid}
use aotopsy.Dartfmt.Varint.{read_varint}
use aotopsy.Dartfmt.Varint.Decode.{IsTerminator, IsData}
use aotopsy.Dartfmt.Varint.Decode.{read_varint-decodes, read_varint-overruns, read_varint-starves}
use mathlib.Core.Path.{subst}
use mathlib.Core.List.{append_assoc, append-nil}

abbrev pub IsByte : ℕ → Type 0
IsByte b = b < 256

-- Bytes as a run of data bytes, and what stops the run.
data Run : List ℕ → Type 0 where
  open_run : (ds : List ℕ) → All IsData ds → Run ds
  closed_run :
      {bytes : List ℕ} (ds : List ℕ) (t : ℕ) (rest : List ℕ)
      → All IsData ds
      → IsTerminator t
      → bytes ≡ ds ++ (t ∷ rest)
      → Run bytes

Run-cons : {bytes : List ℕ} (b : ℕ) → b < 128 → Run bytes → Run (b ∷ bytes)
Run-cons b h (open_run ds hd) = open_run (b ∷ ds) (h, hd)
Run-cons b h (closed_run ds t rest hd ht e) =
    closed_run (b ∷ ds) t rest (h, hd) ht (ap (λ l. b ∷ l) e)

bytes-Run : (bytes : List ℕ) → All IsByte bytes → Run bytes
bytes-Run [] h = open_run [] tt
bytes-Run (b ∷ bytes) h = elim (dec_lt b 128) [
  | yes p ↦ Run-cons b p (bytes-Run bytes h.1)
  | no p ↦ closed_run [] b bytes tt (omega arith) refl
]

-- A reader settles if it neither panics nor runs out of fuel, and what it returns satisfies P.
abbrev pub Settles {ℓ} : {A : Type ℓ} → (A → Stream → Type 0) → Step A → Type 0
Settles P (done a s) = P a s
Settles P (failed e s) = Unit {0}
Settles P panicked = ⊥
Settles P stuck = ⊥

-- The position moved on by 1 to `most` bytes, within the same bytes.
pub record Moved (most : ℕ) (s s' : Stream) : Type 0 where
  pub same : s'.bytes ≡ s.bytes
  pub from : ℕ
  pub to : ℕ
  pub started : s.position ≡ pos from
  pub stopped : s'.position ≡ pos to
  pub forward : from < to
  pub short : to ≤ from + most
  pub valid : IsValid s'

Moved-cut :
    (before taken after : List ℕ) (most : ℕ)
    → Fits (before ++ (taken ++ after))
    → 0 < length taken
    → length taken ≤ most
    → Moved most (cut before (taken ++ after)) (cut (before ++ taken) after)
Moved-cut before taken after most fits some few = record {
  same = append_assoc before taken after;
  from = length before;
  to = length (before ++ taken);
  started = refl;
  stopped = refl;
  forward = omega (arith, length-append before taken);
  short = omega (arith, length-append before taken);
  valid = cut-IsValid (before ++ taken) after (rw (append_assoc before taken after) fits);
}

Settles-failed :
    {A : Type 0} (P : A → Stream → Type 0) (r : Step A)
    → (place : Stream) × (e : Error) × (r ≡ failed e place)
    → Settles P r
Settles-failed P r (place, e, q) = rw q tt

module _ (marker max : ℕ) (hk : marker < 256) (hp : 0 < max) (hm : max ≤ 63) where
  too_many :
      (ds before after : List ℕ)
      → max + 7 ≤ 7 * length ds
      → All IsData ds
      → Fits (before ++ (ds ++ after))
      → (place : Stream) × (e : Error) × (read_varint marker max (cut before (ds ++ after))
          ≡ failed e place)
  too_many ds before after h hd fits =
      let (place, q) = read_varint-overruns marker max ds before after hp h hd fits in
      (place, overrun, q)

  read_varint-Settles_closed :
      (ds before rest : List ℕ) (t : ℕ)
      → All IsData ds
      → IsTerminator t
      → Fits (before ++ (ds ++ (t ∷ rest)))
      → Settles
          (λ z s'. Moved 10 (cut before (ds ++ (t ∷ rest))) s')
          (read_varint marker max (cut before (ds ++ (t ∷ rest))))
  read_varint-Settles_closed ds before rest t hd ht fits = elim (dec_lt (7 * length ds) (max + 7)) [
    | yes p ↦
        let joined : (ds ++ (t ∷ [])) ++ rest ≡ ds ++ (t ∷ rest) = append_assoc ds (t ∷ []) rest in
        let moved : Moved 10 (cut before ((ds ++ (t ∷ [])) ++ rest))
            (cut (before ++ (ds ++ (t ∷ []))) rest) =
          Moved-cut before (ds ++ (t ∷ [])) rest 10 (rw joined fits)
            (omega (arith, length-append ds (t ∷ []))) (omega (arith, length-append ds (t ∷ []))) in
        rw (read_varint-decodes marker max t ds before rest hk hp hm hd ht p fits)
          (rw joined at moved)
    | no p ↦ Settles-failed _ _ (too_many ds before (t ∷ rest) (omega arith) hd fits)
  ]

  read_varint-Settles_on :
      (before after : List ℕ)
      → Fits (before ++ after)
      → Run after
      → Settles (λ z s'. Moved 10 (cut before after) s') (read_varint marker max (cut before after))
  read_varint-Settles_on before after fits (open_run ds hd) =
      elim (dec_lt (7 * length ds) (max + 7)) [
        | yes p ↦ rw (read_varint-starves marker max ds before p hd fits) tt
        | no p ↦
            Settles-failed _ _
              (rw append-nil at (too_many ds before [] (omega arith) hd (rw append-nil fits)))
      ]
  read_varint-Settles_on before after fits (closed_run ds t rest hd ht e) =
      rw e (read_varint-Settles_closed ds before rest t hd ht (rw e at fits))

All-drop : (P : ℕ → Type 0) (n : ℕ) (xs : List ℕ) → All P xs → All P (drop n xs)
All-drop P zero xs h = h
All-drop P (suc n) [] h = h
All-drop P (suc n) (x ∷ xs) h = All-drop P n xs h.1

-- On a valid stream of bytes, `read_varint` returns, with a number or with an error, for every
-- marker and every width in use: it does not panic and its loop ends. A number takes 1 to 10
-- bytes, and leaves a valid stream over the same bytes.
pub read_varint-Settles :
    (marker max : ℕ) (s : Stream)
    → marker < 256
    → 0 < max
    → max ≤ 63
    → All IsByte s.bytes
    → IsValid s
    → Settles (λ z s'. Moved 10 s s') (read_varint marker max s)
read_varint-Settles marker max s hk hp hm hb v =
    let e = valid-cut v in
    let n : ℕ = v.offset in
    let fits : Fits (take n s.bytes ++ drop n s.bytes) = rw (take-append-drop n s.bytes) v.fits in
    subst (λ w. Settles (λ z s'. Moved 10 w s') (read_varint marker max w)) (sym e)
      (read_varint-Settles_on marker max hk hp hm (take n s.bytes) (drop n s.bytes) fits
        (bytes-Run (drop n s.bytes) (All-drop IsByte n s.bytes hb)))
