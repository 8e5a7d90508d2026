-- ===== src/Codec/Examples.antt =====
-- Numbers on which the codec is run.
use jam_protocol.Base.{◌≡◌, ◌++◌, refl, some, [], ◌∷◌, arith}
use jam_protocol.Codec.{
  serialize_fixed_length, or_bytes, deserialize_fixed_length, serialize_lengths, fits_length,
  octets_of_length, serialize_u64, deserialize_u64,
}
use jam_protocol.Codec.FixedLength.{
  little_endian, little_endian-serialize, or_bytes_lem, deserialize-serialize_fixed_length,
}
use jam_protocol.Codec.General.{deserialize-serialize_u64}

-- 1000 takes two bytes, of which the first holds the length and the top bits.
serialize_1000 : serialize_u64 1000 ≡ 131 ∷ 232 ∷ []
unfolding serialize_u64 serialize_lengths fits_length octets_of_length
serialize_1000 = refl

deserialize-serialize_u64_example : deserialize_u64 (serialize_u64 1000 ++ (7 ∷ 9 ∷ [])) ≡ some 1000
deserialize-serialize_u64_example =
    deserialize-serialize_u64 1000 (7 ∷ 9 ∷ []) (omega arith) (omega arith, (omega arith, tt))

deserialize-serialize_fixed_length_example :
    deserialize_fixed_length 64 (serialize_fixed_length 70000 3) 3 ≡ some 70000
deserialize-serialize_fixed_length_example =
    deserialize-serialize_fixed_length 70000 3 (omega arith) (omega arith)

little_endian-serialize_example : little_endian (serialize_fixed_length 70000 3) ≡ 70000
little_endian-serialize_example = little_endian-serialize 70000 3 (omega arith)

or_bytes_example : or_bytes 64 (112 ∷ 17 ∷ 1 ∷ []) 0 0 ≡ little_endian (112 ∷ 17 ∷ 1 ∷ [])
or_bytes_example =
    or_bytes_lem (112 ∷ 17 ∷ 1 ∷ []) (omega arith, (omega arith, (omega arith, tt))) (omega arith)
