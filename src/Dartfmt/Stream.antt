-- ===== src/Dartfmt/Stream.antt =====
-- internal/dartfmt/stream.go: the stream's state and the operations that move its position.
-- A Go int is a ℤ in the int64 range; a byte is a number below 256.
pub mod Zipper
pub mod Moves
use aotopsy.Base.{ℕ, ◌+◌, ◌-◌, ◌*◌, ◌%◌, ◌≤◌, ◌<◌, ◌^◌, ◌≡◌, zero, suc, Bool, true, false}
use aotopsy.Base.{List, [], ◌∷◌, ◌++◌, Option, none, some, if◌then◌else◌, ltb, leb, ◌==◌}
use aotopsy.Base.{length, get_elem?, take, drop}
use aotopsy.Base.Int.{ℤ, pos, negsuc, ltb_ℤ, add_int, pos_part, neg_part, negate}

-- `unterminated` is the error of ReadCString, with the offset that its message names.
pub data Error : Type 0 where
  eof overrun : Error
  unterminated : ℤ → Error

-- `bytes` is the field `data`, and `position` the field `pos`.
pub record Stream : Type 0 where
  pub bytes : List ℕ
  pub position : ℤ
  pub end : ℕ

-- What a method leaves behind. A Go error keeps the reads made before it, so `failed` carries the
-- stream too; `panicked` is a run-time panic, and `stuck` is no Go outcome: a loop ran out of fuel.
pub data Step {ℓ} (A : Type ℓ) : Type ℓ where
  done : A → Stream → Step A
  failed : Error → Stream → Step A
  panicked : Step A
  stuck : Step A

abbrev pub M : Type 0 → Type 0
M A = Stream → Step A

infixl 5 ◌>>=◌
abbrev pub ◌>>=◌ : {A B : Type 0} → M A → (A → M B) → M B
◌>>=◌ m f s = elim (m s) [
  | done a s' ↦ f a s'
  | failed e s' ↦ failed e s'
  | panicked ↦ panicked
  | stuck ↦ stuck
]

abbrev pub pure {ℓ} : {A : Type ℓ} → A → Stream → Step A
pure a s = done a s

abbrev pub raise {ℓ} : {A : Type ℓ} → Error → Stream → Step A
raise e s = failed e s

-- A position past the end is moved back to it.
abbrev pub capped : ℤ → ℕ → ℤ
capped p end = if ltb_ℤ (pos end) p then pos end else p

unfoldable pub new_stream : List ℕ → Stream
new_stream bytes = record { bytes = bytes; position = pos 0; end = length bytes }

unfoldable pub new_stream_at : List ℕ → ℤ → Stream
new_stream_at bytes offset = record {
  bytes = bytes;
  position = capped offset (length bytes);
  end = length bytes;
}

unfoldable pub set_position : ℤ → Stream → Stream
set_position p s = record s { position = capped p s.end }

-- `s.data[s.pos]`: an index out of range panics.
unfoldable pub byte_at : Stream → ℤ → Option ℕ
byte_at s (pos p) = get_elem? s.bytes p
byte_at s (negsuc _) = none

-- `b := s.data[s.pos]; s.pos++`
unfoldable pub take_byte : M ℕ
unfolding byte_at
take_byte s = elim (byte_at s s.position) [
  | some b ↦ done b (record s { position = add_int s.position (pos 1) })
  | none ↦ panicked
]

unfoldable pub read_byte : M ℕ
unfolding take_byte
read_byte s = if ltb_ℤ s.position (pos s.end) then take_byte s else failed eof s

-- `s.data[from:to]` of a copied slice: `none` is the panic of a bad bound.
unfoldable pub slice : List ℕ → ℤ → ℤ → Option (List ℕ)
slice bytes (pos from) (pos to) =
    if leb from to
    then (if leb to (length bytes) then some (take (to - from) (drop from bytes)) else none)
    else none
slice bytes _ _ = none

abbrev pub slice_step : Stream → ℤ → Option (List ℕ) → Step (List ℕ)
slice_step s to none = panicked
slice_step s to (some out) = done out (record s { position = to })

-- `make([]byte, n)` panics at a negative n; an n so large that the sum wraps panics there as well,
-- and here in the slice, whose upper bound is then negative.
abbrev read_bytes_from : ℤ → M (List ℕ)
read_bytes_from (negsuc n) s = panicked
read_bytes_from (pos n) s =
    let to = add_int s.position (pos n) in slice_step s to (slice s.bytes s.position to)

unfoldable pub read_bytes : ℤ → M (List ℕ)
unfolding slice
read_bytes n s =
    if ltb_ℤ (pos s.end) (add_int s.position n) then failed eof s else read_bytes_from n s

-- binary.LittleEndian: the lowest byte first.
unfoldable pub little_endian : List ℕ → ℕ
little_endian [] = 0
little_endian (b ∷ bs) = b + 256 * little_endian bs

-- ReadUint16, ReadUint32 and ReadUint64 at a width of 2, 4 and 8 bytes.
unfoldable pub read_uint : ℕ → M ℕ
unfolding read_bytes
read_uint width = read_bytes (pos width) >>= λ raw. pure (little_endian raw)

unfoldable pub read_uint16 : M ℕ
unfolding read_uint
read_uint16 = read_uint 2

unfoldable pub read_uint32 : M ℕ
unfolding read_uint
read_uint32 = read_uint 4

unfoldable pub read_uint64 : M ℕ
unfolding read_uint
read_uint64 = read_uint 8

unfoldable pub skip : ℤ → M (Unit {0})
skip n s =
    let to = add_int s.position n in
    if ltb_ℤ (pos s.end) to then failed eof s else done tt (record s { position = to })

abbrev pub advance : Stream → Stream
advance s = record s { position = add_int s.position (pos 1) }

-- The loop of `read_cstring`: one byte a round, so the bytes up to `end` are fuel enough.
cstring_loop : ℕ → ℤ → M (List ℕ)
unfolding byte_at slice
cstring_loop zero start s =
    if ltb_ℤ s.position (pos s.end) then stuck else failed (unterminated start) s
cstring_loop (suc left) start s =
    let rest = cstring_loop left start (advance s) in
    elim (ltb_ℤ s.position (pos s.end)) [
      | false ↦ failed (unterminated start) s
      | true ↦ elim (byte_at s s.position) [
        | none ↦ panicked
        | some b ↦
            if b == 0
            then slice_step s (advance s).position (slice s.bytes start s.position)
            else rest
      ]
    ]

-- `end - pos` bytes are left; none where the position has passed the end.
abbrev bytes_left : Stream → ℕ
bytes_left s = s.end + neg_part s.position - pos_part s.position

unfoldable pub read_cstring : M (List ℕ)
unfolding cstring_loop
read_cstring s = cstring_loop (bytes_left s) s.position s

-- Go's `%` has the sign of `pos`, so below 0 the step `alignment - rem` is longer than `alignment`.
abbrev pub padded : ℤ → ℕ → ℤ
padded (pos p) alignment =
    if p % alignment == 0 then pos p else add_int (pos p) (pos (alignment - p % alignment))
padded (negsuc n) alignment =
    if suc n % alignment == 0
    then negsuc n
    else add_int (negsuc n) (add_int (pos alignment) (pos (suc n % alignment)))

unfoldable pub align : ℤ → Stream → Stream
align (negsuc _) s = s
align (pos zero) s = s
align (pos (suc a)) s = record s { position = capped (padded s.position (suc a)) s.end }

-- Position and Remaining.
unfoldable pub remaining : Stream → ℤ
remaining s = add_int (pos s.end) (negate s.position)
