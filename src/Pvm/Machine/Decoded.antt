-- ===== src/Pvm/Machine/Decoded.antt =====
-- Every value that a decoder hands over is a 64-bit word.
use jam_protocol.Base.{
  ℕ, ◌+◌, ◌*◌, ◌%◌, ◌^◌, List, [], ◌∷◌, arith, ◌==◌, ltb, bit_or, length, take, Bool, true, false,
  if◌then◌else◌, Bool-cases, inl, inr,
}
use jam_protocol.Base.Bits.{bit_or-lt}
use jam_protocol.Base.Words.{IsU64, u8, u32, unsigned64-lt}
use jam_protocol.Codec.{or_bytes, deserialize_fixed_length}
use jam_protocol.Pvm.State.{Go, done, error, crash, Slice, index, slice}
use jam_protocol.Pvm.Extend.{sign_extend, read_uint_fixed, read_uint_sign_extended}
use jam_protocol.Pvm.Decode.{
  lift_option, read_signed, read_extended, read_plain, immediate_length, decode_two_immediates,
  decode_one_register_and_one_immediate, decode_one_register_and_two_immediates,
  decode_one_register_one_immediate_and_one_offset, decode_two_registers_and_one_immediate,
  decode_two_registers_and_two_immediates,
}
use jam_protocol.Pvm.Machine.{Post, Post-bind}

or_bytes-lt : (bytes : List ℕ) (i r : ℕ) → IsU64 r → IsU64 (or_bytes 64 bytes i r)
unfolding or_bytes
or_bytes-lt [] i r h = h
or_bytes-lt (b ∷ rest) i r h =
    or_bytes-lt rest (i + 1) (bit_or r (b * 2 ^ (8 * i) % 2 ^ 64))
      (bit_or-lt 64 r _ h (omega arith))

abbrev pub Any {ℓ} : {A : Type ℓ} → A → Type 0
Any a = Unit

pub Post-Any {ℓ} : {A : Type ℓ} (g : Go A) → Post Any g
Post-Any (done a) = tt
Post-Any error = tt
Post-Any crash = tt

pub Post-if {ℓ} :
    {A : Type ℓ} (P : A → Type 0) (b : Bool) (x y : Go A)
    → Post P x
    → Post P y
    → Post P (if b then x else y)
Post-if P true x y p q = p
Post-if P false x y p q = q

sign_extend-IsU64 : (n x : ℕ) → IsU64 x → Post IsU64 (sign_extend n x)
unfolding sign_extend
sign_extend-IsU64 n x h = Post-if IsU64 (n == 0) _ _ h (
    Post-if IsU64 (n == 1) _ _ (unsigned64-lt _) (
      Post-if IsU64 (n == 2) _ _ (unsigned64-lt _) (
        Post-if IsU64 (n == 3) _ _ (unsigned64-lt _)
          (Post-if IsU64 (n == 4) _ _ (unsigned64-lt _) (Post-if IsU64 (n == 8) _ _ h tt)))))

abbrev FirstWord : ℕ × List ℕ → Type 0
FirstWord p = IsU64 p.0

read_uint_fixed-IsU64 : (bytes : List ℕ) (n : ℕ) → Post FirstWord (read_uint_fixed bytes n)
unfolding read_uint_fixed
read_uint_fixed-IsU64 bytes n = Post-if FirstWord (n == 0) _ _ (omega arith) (
    Post-if FirstWord (ltb 8 n) _ _ tt (
      Post-if FirstWord (ltb (length bytes) n) _ _ tt
        (or_bytes-lt (take n bytes) 0 0 (omega arith))))

read_uint_sign_extended-IsU64 :
    (bytes : List ℕ) (n : ℕ) → Post FirstWord (read_uint_sign_extended bytes n)
unfolding read_uint_sign_extended
read_uint_sign_extended-IsU64 bytes n =
    Post-bind FirstWord FirstWord (read_uint_fixed bytes n) _ (read_uint_fixed-IsU64 bytes n)
      λ p word.
        Post-bind IsU64 FirstWord (sign_extend (u8 n) p.0) _ (sign_extend-IsU64 (u8 n) p.0 word)
          (λ v h. h)

pub deserialize-IsU64 :
    (bytes : List ℕ) (n : ℕ) → Post IsU64 (lift_option (deserialize_fixed_length 64 bytes n))
unfolding deserialize_fixed_length lift_option
deserialize-IsU64 bytes n = elim (Bool-cases (n == 0)) [
  | inl none_left ↦ rw none_left (omega arith)
  | inr some_left ↦ rw some_left (elim (Bool-cases (length bytes == n)) [
    | inl fits ↦ rw fits (or_bytes-lt bytes 0 0 (omega arith))
    | inr differs ↦ rw differs tt
  ])
]

module _ (code : Slice) (from n : ℕ) where
  pub read_signed-IsU64 : Post IsU64 (read_signed code from n)
  unfolding read_signed
  read_signed-IsU64 =
      Post-bind Any IsU64 (slice code from (u32 (from + n))) _ (Post-Any _) λ bytes _.
        Post-bind IsU64 IsU64 (lift_option (deserialize_fixed_length 64 bytes n)) _
          (deserialize-IsU64 bytes n) (sign_extend-IsU64 (u8 n))

  pub read_extended-IsU64 : Post IsU64 (read_extended code from n)
  unfolding read_extended
  read_extended-IsU64 =
      Post-bind Any IsU64 (slice code from (u32 (from + n))) _ (Post-Any _) λ bytes _.
        Post-bind FirstWord IsU64 (read_uint_sign_extended bytes (length bytes)) _
          (read_uint_sign_extended-IsU64 bytes (length bytes)) (λ p h. h)

  pub read_plain-IsU64 : Post IsU64 (read_plain code from n)
  unfolding read_plain
  read_plain-IsU64 =
      Post-bind Any IsU64 (slice code from (u32 (from + n))) _ (Post-Any _) λ bytes _.
        Post-bind FirstWord IsU64 (read_uint_fixed bytes (length bytes)) _
          (read_uint_fixed-IsU64 bytes (length bytes)) (λ p h. h)

-- What the decoders promise of their immediates.
abbrev pub SecondWord : ℕ × ℕ → Type 0
SecondWord p = IsU64 p.1

abbrev pub BothWords : ℕ × ℕ → Type 0
BothWords p = IsU64 p.0 × IsU64 p.1

abbrev pub LastWord : ℕ × ℕ × ℕ → Type 0
LastWord p = IsU64 p.2

abbrev pub LastTwoWords : ℕ × ℕ × ℕ → Type 0
LastTwoWords p = IsU64 p.1 × IsU64 p.2

abbrev pub ThirdWord : ℕ × ℕ × ℕ × ℕ → Type 0
ThirdWord p = IsU64 p.2

abbrev pub MiddleWord : ℕ × ℕ × ℕ → Type 0
MiddleWord p = IsU64 p.1

module _ (code : Slice) (pc skip : ℕ) where
  pub one_register_and_one_immediate-Post :
      Post SecondWord (decode_one_register_and_one_immediate code pc skip)
  unfolding decode_one_register_and_one_immediate
  one_register_and_one_immediate-Post =
      Post-bind Any SecondWord (index code (u32 (pc + 1))) _ (Post-Any _) λ b _.
        Post-bind IsU64 SecondWord (read_extended code (u32 (pc + 2)) (immediate_length skip 1)) _
          (read_extended-IsU64 code _ _) (λ v h. h)

  pub two_registers_and_one_immediate-Post :
      Post LastWord (decode_two_registers_and_one_immediate code pc skip)
  unfolding decode_two_registers_and_one_immediate
  two_registers_and_one_immediate-Post =
      Post-bind Any LastWord (index code (u32 (pc + 1))) _ (Post-Any _) λ b _.
        Post-bind IsU64 LastWord (read_signed code (u32 (pc + 2)) (immediate_length skip 1)) _
          (read_signed-IsU64 code _ _) (λ v h. h)

  pub two_immediates-Post : Post BothWords (decode_two_immediates code pc skip)
  unfolding decode_two_immediates
  two_immediates-Post = Post-bind Any BothWords (index code (u32 (pc + 1))) _ (Post-Any _) λ b _.
      Post-bind IsU64 BothWords (read_signed code _ _) _ (read_signed-IsU64 code _ _) λ vx p.
        Post-bind IsU64 BothWords (read_signed code _ _) _ (read_signed-IsU64 code _ _)
          (λ vy q. (p, q))

  pub one_register_and_two_immediates-Post :
      Post LastTwoWords (decode_one_register_and_two_immediates code pc skip)
  unfolding decode_one_register_and_two_immediates
  one_register_and_two_immediates-Post =
      Post-bind Any LastTwoWords (index code (u32 (pc + 1))) _ (Post-Any _) λ b _.
        Post-bind IsU64 LastTwoWords (read_signed code _ _) _ (read_signed-IsU64 code _ _) λ vx p.
          Post-bind IsU64 LastTwoWords (read_signed code _ _) _ (read_signed-IsU64 code _ _)
            (λ vy q. (p, q))

  pub one_immediate_and_one_offset-Post :
      Post MiddleWord (decode_one_register_one_immediate_and_one_offset code pc skip)
  unfolding decode_one_register_one_immediate_and_one_offset
  one_immediate_and_one_offset-Post =
      Post-bind Any MiddleWord (index code (u32 (pc + 1))) _ (Post-Any _) λ b _.
        Post-bind IsU64 MiddleWord (read_extended code _ _) _ (read_extended-IsU64 code _ _)
          λ vx p. Post-bind Any MiddleWord (read_extended code _ _) _ (Post-Any _) (λ offset _. p)

  pub two_registers_and_two_immediates-Post :
      Post ThirdWord (decode_two_registers_and_two_immediates code pc skip)
  unfolding decode_two_registers_and_two_immediates
  two_registers_and_two_immediates-Post =
      Post-bind Any ThirdWord (index code (u32 (pc + 1))) _ (Post-Any _) λ b _.
        Post-bind Any ThirdWord (index code (u32 (pc + 2))) _ (Post-Any _) λ c _.
          Post-bind IsU64 ThirdWord (read_plain code _ _) _ (read_plain-IsU64 code _ _)
            λ vx p. Post-bind Any ThirdWord (read_plain code _ _) _ (Post-Any _) (λ vy _. p)
