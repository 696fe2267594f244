-- ===== src/Dartfmt/Stream/Moves.antt =====
-- What the operations of the stream do on a valid one: fixed-width reads, null-terminated
-- strings, alignment, and where the constructors and setters leave the position.
use aotopsy.Base.{ℕ, zero, suc, ◌+◌, ◌-◌, ◌/◌, ◌%◌, ◌^◌, ◌≤◌, ◌<◌, ◌≡◌, refl, ap, ◌∙◌}
use aotopsy.Base.{arith, List, [], ◌∷◌, ◌++◌, length, length-append}
use aotopsy.Base.Int.{ℤ, pos, add_int-pos}
use aotopsy.Dartfmt.Stream.{Stream, done, failed, unterminated, ◌>>=◌}
use aotopsy.Dartfmt.Stream.{read_bytes, read_uint, advance, little_endian}
use aotopsy.Dartfmt.Stream.{cstring_loop, read_cstring}
use aotopsy.Dartfmt.Stream.Zipper.{cut, Fits, read_bytes-cut, slice-between}
use aotopsy.Dartfmt.Stream.Zipper.{get_elem?-middle}
use mathlib.Core.List.{append_assoc, append-nil}
use native.Mathlib.Nat.{pow-suc, pow-zero}

-- The low `k` bytes of a number, lowest first.
unfoldable pub to_bytes : ℕ → ℕ → List ℕ
to_bytes zero v = []
to_bytes (suc k) v = (v % 256) ∷ to_bytes k (v / 256)

length-to_bytes : (k v : ℕ) → length (to_bytes k v) ≡ k
unfolding to_bytes
length-to_bytes zero v = refl
length-to_bytes (suc k) v = ap suc (length-to_bytes k (v / 256))

little_endian-to_bytes : (k v : ℕ) → v < 256 ^ k → little_endian (to_bytes k v) ≡ v
unfolding to_bytes little_endian
little_endian-to_bytes zero v h = omega (arith, pow-zero 256)
little_endian-to_bytes (suc k) v h =
    omega (arith, little_endian-to_bytes k (v / 256) (omega (arith, pow-suc 256 k)))

read_width :
    (k v : ℕ) (before after : List ℕ)
    → Fits (before ++ (to_bytes k v ++ after))
    → read_bytes (pos k) (cut before (to_bytes k v ++ after))
      ≡ done (to_bytes k v) (cut (before ++ to_bytes k v) after)
read_width k v before after fits =
    rw (length-to_bytes k v) at (read_bytes-cut before (to_bytes k v) after fits)

-- A read of `k` bytes, 2, 4 and 8 in the program, returns the number whose little-endian bytes
-- stand at the position, and moves behind them.
pub read_uint-to_bytes :
    (k v : ℕ) (before after : List ℕ)
    → v < 256 ^ k
    → Fits (before ++ (to_bytes k v ++ after))
    → read_uint k (cut before (to_bytes k v ++ after)) ≡ done v (cut (before ++ to_bytes k v) after)
unfolding read_uint
read_uint-to_bytes k v before after h fits =
    rw (read_width k v before after fits, ◌>>=◌)
      (ap (λ (w : ℕ). done w (cut (before ++ to_bytes k v) after)) (little_endian-to_bytes k v h))

-- No byte of the text is the null that would end it.
abbrev pub IsText : List ℕ → Type 0
IsText [] = Unit {0}
IsText (c ∷ cs) = (0 < c) × IsText cs

advance-cut :
    (before : List ℕ) (c : ℕ) (after : List ℕ)
    → Fits (before ++ (c ∷ after))
    → advance (cut before (c ∷ after)) ≡ cut (before ++ (c ∷ [])) after
advance-cut before c after fits = ground (
  arith,
  length-append before (c ∷ after),
  length-append before (c ∷ []),
  append_assoc before (c ∷ []) after,
  add_int-pos (length before) 1,
)

module _ (fuel : ℕ) (start : ℤ) (before : List ℕ) where
  cstring_char :
      (c : ℕ) (after : List ℕ)
      → 0 < c
      → Fits (before ++ (c ∷ after))
      → cstring_loop (suc fuel) start (cut before (c ∷ after))
        ≡ cstring_loop fuel start (cut (before ++ (c ∷ [])) after)
  unfolding cstring_loop
  cstring_char c after hc fits = ground (
    arith,
    get_elem?-middle before c after,
    length-append before (c ∷ after),
    advance-cut before c after,
  )

cstring_null :
    (fuel : ℕ) (before seen after : List ℕ)
    → Fits ((before ++ seen) ++ (0 ∷ after))
    → cstring_loop (suc fuel) (pos (length before)) (cut (before ++ seen) (0 ∷ after))
      ≡ done seen (cut ((before ++ seen) ++ (0 ∷ [])) after)
unfolding cstring_loop
cstring_null fuel before seen after fits = ground (
  arith,
  get_elem?-middle (before ++ seen) 0 after,
  length-append (before ++ seen) (0 ∷ after),
  advance-cut (before ++ seen) 0 after,
  slice-between before seen (0 ∷ after) (length (before ++ seen)),
  append_assoc before seen (0 ∷ after),
  length-append before seen,
)

cstring_reads :
    (text : List ℕ) (fuel : ℕ) (before seen after : List ℕ)
    → length text < fuel
    → IsText text
    → Fits ((before ++ seen) ++ (text ++ (0 ∷ after)))
    → cstring_loop fuel (pos (length before)) (cut (before ++ seen) (text ++ (0 ∷ after)))
      ≡ done (seen ++ text) (cut ((before ++ seen) ++ (text ++ (0 ∷ []))) after)
cstring_reads text zero before seen after hf ht fits = absurd (omega arith)
cstring_reads [] (suc fuel) before seen after hf ht fits =
    cstring_null fuel before seen after fits ∙ rw (append-nil seen)
cstring_reads (c ∷ cs) (suc fuel) before seen after hf ht fits =
    let front : List ℕ = before ++ seen in
    let rest : List ℕ = cs ++ (0 ∷ after) in
    let grown : front ++ (c ∷ []) ≡ before ++ (seen ++ (c ∷ [])) =
      append_assoc before seen (c ∷ []) in
    let ih =
      cstring_reads cs fuel before (seen ++ (c ∷ [])) after (omega arith) ht.1
        (rw (← grown, append_assoc front (c ∷ []) rest) fits) in
    cstring_char fuel (pos (length before)) front c rest ht.0 fits
    ∙ (rw (← grown, append_assoc front (c ∷ []) (cs ++ (0 ∷ [])), append_assoc seen (c ∷ []) cs) at
        ih)

cstring_starves :
    (text : List ℕ) (fuel : ℕ) (start : ℤ) (before : List ℕ)
    → length text ≤ fuel
    → IsText text
    → Fits (before ++ text)
    → cstring_loop fuel start (cut before text)
      ≡ failed (unterminated start) (cut (before ++ text) [])
unfolding cstring_loop
cstring_starves [] zero start before hf ht fits = ground (arith, append-nil before)
cstring_starves [] (suc fuel) start before hf ht fits = ground (arith, append-nil before)
cstring_starves (c ∷ cs) zero start before hf ht fits = absurd (omega arith)
cstring_starves (c ∷ cs) (suc fuel) start before hf ht fits =
    cstring_char fuel start before c cs ht.0 fits
    ∙ cstring_starves cs fuel start (before ++ (c ∷ [])) (omega arith) ht.1
        (rw (append_assoc before (c ∷ []) cs) fits)
    ∙ rw (append_assoc before (c ∷ []) cs)

-- A text with no null in it, followed by a null, is read whole, and the position stops behind the
-- null.
pub read_cstring-text :
    (text before after : List ℕ)
    → IsText text
    → Fits (before ++ (text ++ (0 ∷ after)))
    → read_cstring (cut before (text ++ (0 ∷ after)))
      ≡ done text (cut (before ++ (text ++ (0 ∷ []))) after)
unfolding read_cstring
read_cstring-text text before after ht fits = rw (append-nil before) at (
    cstring_reads text (length (before ++ (text ++ (0 ∷ after))) + 0 - length before) before []
      after
      (omega (arith, length-append before (text ++ (0 ∷ after)), length-append text (0 ∷ after))) ht
      (rw (append-nil before) fits))

-- With no null in what is left, the error names where the text began, and the position stays at
-- the end.
pub read_cstring-unterminated :
    (text before : List ℕ)
    → IsText text
    → Fits (before ++ text)
    → read_cstring (cut before text)
      ≡ failed (unterminated (pos (length before))) (cut (before ++ text) [])
unfolding read_cstring
read_cstring-unterminated text before ht fits =
    cstring_starves text _ (pos (length before)) before (omega (arith, length-append before text))
      ht fits
