-- ===== src/Tests/Dartfmt.antt =====
-- internal/dartfmt at concrete bytes.
use aotopsy.Base.{ℕ, ◌≡◌, refl, arith, List, [], ◌∷◌, ◌++◌}
use aotopsy.Base.Int.{pos, negsuc, add_int}
use aotopsy.Dartfmt.Stream.{Stream, done, panicked, ◌>>=◌}
use aotopsy.Dartfmt.Stream.{new_stream, read_byte, read_bytes, read_cstring}
use aotopsy.Dartfmt.Stream.Zipper.{cut, IsValid}
use aotopsy.Dartfmt.Stream.Moves.{read_cstring-text}
use aotopsy.Dartfmt.Varint.{read_varint, read_unsigned, read_tagged32, read_tagged64, read_ref_id}
use aotopsy.Dartfmt.Varint.Oversize.{read_tagged32_collision, negative_length_panics}
use aotopsy.Dartfmt.Varint.RefId.{read_ref_id-write_ref_id, write_ref_id, leading_groups}
use aotopsy.Dartfmt.Varint.RoundTrip.{write_unsigned, write_signed, read_unsigned-write_unsigned}
use aotopsy.Dartfmt.Varint.RoundTrip.{read_tagged64-write_signed}
use aotopsy.Dartfmt.Varint.Total.{Settles, Moved, read_varint-Settles}

-- 300 is 44 and 2 above it: 0x2c, then 2 + 128.
unsigned_300 :
    read_unsigned (new_stream (0x2c ∷ 0x82 ∷ 7 ∷ []))
    ≡ done (pos 300) (cut (0x2c ∷ 0x82 ∷ []) (7 ∷ []))
unfolding read_unsigned new_stream read_byte add_int
unsigned_300 = refl

tagged64_minus_200 : write_signed 9 (negsuc 199) ≡ 0x38 ∷ 0xbe ∷ []
unfolding write_signed
tagged64_minus_200 = refl

ref_id_200 : read_ref_id (new_stream (1 ∷ 0xc8 ∷ [])) ≡ done (pos 200) (cut (1 ∷ 0xc8 ∷ []) [])
unfolding read_ref_id new_stream read_byte add_int
ref_id_200 = refl

read_tagged64-write_signed_example :
    read_tagged64 (cut (1 ∷ []) (write_signed 9 (negsuc 199) ++ (9 ∷ [])))
    ≡ done (negsuc 199) (cut ((1 ∷ []) ++ write_signed 9 (negsuc 199)) (9 ∷ []))
unfolding write_signed
read_tagged64-write_signed_example =
    read_tagged64-write_signed (negsuc 199) (1 ∷ []) (9 ∷ []) (omega arith) (omega arith)

read_unsigned-write_unsigned_example :
    read_unsigned (cut [] (write_unsigned 8 300 ++ (9 ∷ [])))
    ≡ done (pos 300) (cut (write_unsigned 8 300) (9 ∷ []))
unfolding write_unsigned
read_unsigned-write_unsigned_example =
    read_unsigned-write_unsigned 300 [] (9 ∷ []) (omega arith) (omega arith)

abbrev five_zeros : List ℕ
five_zeros = 0 ∷ 0 ∷ 0 ∷ 0 ∷ 0 ∷ []

abbrev two_bytes : Stream
two_bytes = cut (7 ∷ []) (0x2c ∷ 0x82 ∷ [])

abbrev two_bytes-IsValid : IsValid two_bytes
two_bytes-IsValid = record {
  whole = refl;
  offset = 1;
  placed = refl;
  within = omega arith;
  fits = omega arith;
}

read_varint-Settles_example : Settles (λ z s'. Moved 10 two_bytes s') (read_varint 128 63 two_bytes)
read_varint-Settles_example =
    read_varint-Settles 128 63 two_bytes (omega arith) (omega arith) (omega arith) (omega arith)
      two_bytes-IsValid

read_tagged32_collision_example :
    (v : ℕ) × (read_tagged32 (cut [] (0 ∷ 0 ∷ 0 ∷ 1 ∷ 192 ∷ []))
      ≡ done v (cut (0 ∷ 0 ∷ 0 ∷ 1 ∷ 192 ∷ []) []))
    × (read_tagged32 (cut [] (0 ∷ 0 ∷ 0 ∷ 1 ∷ 208 ∷ []))
        ≡ done v (cut (0 ∷ 0 ∷ 0 ∷ 1 ∷ 208 ∷ []) []))
read_tagged32_collision_example =
    read_tagged32_collision (0 ∷ 0 ∷ 0 ∷ 1 ∷ []) [] [] 192 (omega arith) (omega arith) (omega arith)
      (omega arith) (omega arith) (omega arith)

abbrev nine_zeros : List ℕ
nine_zeros = 0 ∷ 0 ∷ 0 ∷ 0 ∷ 0 ∷ 0 ∷ 0 ∷ 0 ∷ 0 ∷ []

negative_length_panics_example :
    (read_unsigned >>= read_bytes) (cut [] (nine_zeros ++ (129 ∷ []))) ≡ panicked
negative_length_panics_example =
    negative_length_panics nine_zeros [] [] 129 (omega arith) (omega arith) (omega arith)
      (omega arith) (omega arith)

read_ref_id-write_ref_id_example :
    read_ref_id (cut [] (write_ref_id 2 40_000 ++ (3 ∷ [])))
    ≡ done (pos 40_000) (cut (write_ref_id 2 40_000) (3 ∷ []))
unfolding write_ref_id leading_groups
read_ref_id-write_ref_id_example =
    read_ref_id-write_ref_id 2 40_000 [] (3 ∷ []) (omega arith) (omega arith) (omega arith)

read_cstring-text_example :
    read_cstring (cut (1 ∷ []) (104 ∷ 105 ∷ 0 ∷ 9 ∷ []))
    ≡ done (104 ∷ 105 ∷ []) (cut (1 ∷ 104 ∷ 105 ∷ 0 ∷ []) (9 ∷ []))
read_cstring-text_example =
    read_cstring-text (104 ∷ 105 ∷ []) (1 ∷ []) (9 ∷ []) (omega arith) (omega arith)
