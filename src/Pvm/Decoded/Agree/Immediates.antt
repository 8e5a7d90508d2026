-- ===== src/Pvm/Decoded/Agree/Immediates.antt =====
-- The two ways of the decoders to read an immediate agree.
use jam_protocol.Base.{
  ℕ, ◌+◌, ◌-◌, ◌^◌, ◌≤◌, ◌<◌, ◌≡◌, refl, ap, arith, List, [], ◌∷◌, length, take, drop, length-take,
  length-drop,
}
use jam_protocol.Base.Words.{u8, u32}
use jam_protocol.Codec.{or_bytes, deserialize_fixed_length}
use jam_protocol.Codec.FixedLength.{little_endian}
use jam_protocol.Pvm.State.{Go, done, error, crash, ◌>>=◌, Slice, slice}
use jam_protocol.Pvm.Extend.{sign_extend, read_uint_fixed, read_uint_sign_extended}
use jam_protocol.Pvm.Memory.{get_uint}
use jam_protocol.Pvm.Decode.{lift_option, read_signed, read_extended}

pub get_uint-little_endian : (bytes : List ℕ) → get_uint bytes ≡ little_endian bytes
unfolding get_uint little_endian
get_uint-little_endian [] = refl
get_uint-little_endian (b ∷ rest) = ground (arith, get_uint-little_endian rest)

take_all : (bytes : List ℕ) → take (length bytes) bytes ≡ bytes
take_all [] = refl
take_all (b ∷ rest) = ap (λ t. b ∷ t) (take_all rest)

-- The bytes of a slice expression whose bounds are `n` apart on 32 bits.
pub length-slice :
    (code : Slice) (from n : ℕ) (bytes : List ℕ)
    → from < 2 ^ 32
    → n < 2 ^ 32
    → slice code from (u32 (from + n)) ≡ done bytes
    → length bytes ≡ n
unfolding slice
length-slice code from n bytes h k e =
    ground
      (arith, length-take (u32 (from + n) - from) (drop from code.full), length-drop from code.full)

pub deserialize_all :
    (bytes : List ℕ) (n : ℕ)
    → length bytes ≡ n
    → lift_option (deserialize_fixed_length 64 bytes n) ≡ done (or_bytes 64 bytes 0 0)
unfolding lift_option deserialize_fixed_length or_bytes
deserialize_all [] n size = rw (← size) refl
deserialize_all (b ∷ rest) n size = ground (arith)

read_all :
    (bytes : List ℕ)
    → length bytes ≤ 8
    → read_uint_fixed bytes (length bytes) ≡ done (or_bytes 64 bytes 0 0, drop (length bytes) bytes)
unfolding read_uint_fixed or_bytes
read_all [] short = refl
read_all (b ∷ rest) short = ground (arith, take_all (b ∷ rest))

through :
    (g : Go ℕ) (rest : List ℕ) → g ≡ ((g >>= λ x. done (x, rest)) >>= λ (p : ℕ × List ℕ). done p.0)
through (done x) rest = refl
through error rest = refl
through crash rest = refl

-- On a slice of its own length, both readers of a sign-extended immediate agree.
same_reading :
    (bytes : List ℕ) (n : ℕ)
    → n ≤ 8
    → length bytes ≡ n
    → (lift_option (deserialize_fixed_length 64 bytes n) >>= sign_extend (u8 n))
      ≡ (read_uint_sign_extended bytes (length bytes) >>= λ (p : ℕ × List ℕ). done p.0)
unfolding read_uint_sign_extended
same_reading bytes n short size =
    rw (deserialize_all bytes n size, read_all bytes (omega arith), size)
      (through (sign_extend (u8 n) (or_bytes 64 bytes 0 0)) _)

pub read_signed-read_extended :
    (code : Slice) (from n : ℕ)
    → from < 2 ^ 32
    → n ≤ 8
    → read_signed code from n ≡ read_extended code from n
unfolding read_signed read_extended
read_signed-read_extended code from n h short =
    by_slice (slice code from (u32 (from + n)))
      (λ bytes e. length-slice code from n bytes h (omega arith) e)
  where
    by_slice :
        (g : Go (List ℕ))
        → ((bytes : List ℕ) → g ≡ done bytes → length bytes ≡ n)
        → (g >>= λ bytes. lift_option (deserialize_fixed_length 64 bytes n) >>= sign_extend (u8 n))
          ≡ (g >>= λ bytes.
              read_uint_sign_extended bytes (length bytes) >>= λ (p : ℕ × List ℕ). done p.0)
    by_slice (done bytes) size = same_reading bytes n short (size bytes refl)
    by_slice error size = refl
    by_slice crash size = refl
