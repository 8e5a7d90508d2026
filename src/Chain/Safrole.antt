-- ===== src/Chain/Safrole.antt =====
-- Epochs, keys and markers: internal/safrole/safrole.go, slot_key_sequence.go, markers.go and
-- sealing.go. What the functions read from the chain's state and set in it are arguments and results.
pub mod Sequence
pub mod Markers
pub mod Rotation
pub mod Outer
pub mod Composed
pub mod Total
pub mod Survival
use jam_protocol.Base.{
  ℕ, zero, suc, ◌+◌, ◌-◌, ◌%◌, Bool, true, false, not, ◌&&◌, ◌||◌, Option, none, some, List, [],
  ◌∷◌, ◌++◌, map, length, take, get_elem?, replicate, ltb, leb, ◌==◌, if◌then◌else◌,
}
use jam_protocol.Codec.{serialize_fixed_length, deserialize_fixed_length}
use jam_protocol.Chain.Tickets.{Sizes, TicketBody, bytes_equal, get_epoch_index, get_slot_index}

pub record Validator : Type 0 where
  pub bandersnatch : List ℕ
  pub ed25519 : List ℕ
  pub bls : List ℕ
  pub metadata : List ℕ

pub record Entropy : Type 0 where
  pub eta_0 : List ℕ
  pub eta_1 : List ℕ
  pub eta_2 : List ℕ
  pub eta_3 : List ℕ

-- `slices.Contains(offendersMark, validator.Ed25519)`
unfoldable pub contains : List (List ℕ) → List ℕ → Bool
contains [] key = false
contains (k ∷ rest) key = bytes_equal k key || contains rest key

unfoldable pub validator_is_offender : Validator → List (List ℕ) → Bool
unfolding contains
validator_is_offender v offenders = contains offenders v.ed25519

abbrev pub null_validator : Validator
null_validator = record {
  bandersnatch = replicate 32 0;
  ed25519 = replicate 32 0;
  bls = replicate 144 0;
  metadata = replicate 128 0;
}

-- `ReplaceOffenderKeys` writes into the slice that it is given, and returns the same slice.
unfoldable pub replace_offender_keys : List (List ℕ) → List Validator → List Validator
unfolding validator_is_offender
replace_offender_keys offenders [] = []
replace_offender_keys offenders (v ∷ rest) =
    (if validator_is_offender v offenders then null_validator else v)
    ∷ replace_offender_keys offenders rest

-- The validators' keys of the state.
pub record Keys : Type 0 where
  pub iota : List Validator
  pub gamma_k : List Validator
  pub kappa : List Validator
  pub lambda_ : List Validator
  pub gamma_z : List ℕ

-- `KeyRotate`: the prior and the posterior state after it. Since the prior `iota` is handed over as a
-- slice, it is written to. After a change of epoch `gamma_z` is set later.
unfoldable pub key_rotate : List (List ℕ) → ℕ → ℕ → Keys → Keys → Keys × Keys
unfolding replace_offender_keys
key_rotate offenders e e' prior posterior =
    if ltb e e'
    then (
      record prior { iota = replace_offender_keys offenders prior.iota },
      record posterior {
        gamma_k = replace_offender_keys offenders prior.iota;
        kappa = prior.gamma_k;
        lambda_ = prior.kappa;
      },
    )
    else (
      prior,
      record posterior {
        gamma_k = prior.gamma_k;
        kappa = prior.kappa;
        lambda_ = prior.lambda_;
        gamma_z = prior.gamma_z;
      },
    )

-- `UpdateEntropy`: the first entropy is the posterior state's.
unfoldable pub update_entropy : ℕ → ℕ → Entropy → List ℕ → Entropy
update_entropy e e' eta eta_0' =
    if ltb e e'
    then record { eta_0 = eta_0'; eta_1 = eta.eta_0; eta_2 = eta.eta_1; eta_3 = eta.eta_2 }
    else record eta { eta_0 = eta_0' }

-- One entry of the loop of `OutsideInSequencer`.
unfoldable pub put_entry {ℓ} : {A : Type ℓ} → Option A → Option (List A) → Option (List A)
put_entry none rest = none
put_entry (some t) none = none
put_entry (some t) (some rest) = some (t ∷ rest)

-- The loop from index `i` on, with `rounds` rounds left; `none` is an index out of range.
unfoldable pub outside_in_loop : ℕ → ℕ → ℕ → ℕ → List TicketBody → Option (List TicketBody)
unfolding put_entry
outside_in_loop zero i left right t = some []
outside_in_loop (suc rounds) i left right t =
    let from_left = outside_in_loop rounds (i + 1) (left + 1) right t in
    let from_right = outside_in_loop rounds (i + 1) left (right - 1) t in
    if i % 2 == 0
    then put_entry (get_elem? t left) from_left
    else put_entry (get_elem? t right) from_right

unfoldable pub outside_in_sequencer : Sizes → List TicketBody → Option (List TicketBody)
unfolding outside_in_loop
outside_in_sequencer sizes t = outside_in_loop sizes.epoch_length 0 0 (sizes.epoch_length - 1) t

-- `blake2b.Sum256` is a parameter.
unfoldable pub blake2b_hash_partial : (List ℕ → List ℕ) → List ℕ → ℕ → List ℕ
blake2b_hash_partial sum256 input x = take x (sum256 input)

unfoldable pub value_or_zero : Option ℕ → ℕ
value_or_zero none = 0
value_or_zero (some x) = x

unfoldable pub bandersnatch_of : Option Validator → Option (List ℕ)
bandersnatch_of none = none
bandersnatch_of (some v) = some v.bandersnatch

-- The key at index `i` of `FallbackKeySequence`. The decoder's error is dropped, and leaves zero.
unfoldable pub fallback_key :
    (List ℕ → List ℕ) → Sizes → List ℕ → List Validator → ℕ → Option (List ℕ)
unfolding blake2b_hash_partial value_or_zero bandersnatch_of
fallback_key sum256 sizes entropy validators i =
    let bytes = blake2b_hash_partial sum256 (entropy ++ serialize_fixed_length i 4) 4 in
    let index = value_or_zero (deserialize_fixed_length 32 bytes 4) in
    bandersnatch_of (get_elem? validators (index % sizes.validators_count))

unfoldable pub fallback_loop :
    (List ℕ → List ℕ) → Sizes → List ℕ → List Validator → ℕ → ℕ → Option (List (List ℕ))
unfolding put_entry fallback_key
fallback_loop sum256 sizes entropy validators zero i = some []
fallback_loop sum256 sizes entropy validators (suc rounds) i =
    put_entry (fallback_key sum256 sizes entropy validators i)
      (fallback_loop sum256 sizes entropy validators rounds (i + 1))

-- `none` is a run-time panic, where there are fewer validators than the protocol has.
unfoldable pub fallback_key_sequence :
    (List ℕ → List ℕ) → Sizes → List ℕ → List Validator → Option (List (List ℕ))
unfolding fallback_loop
fallback_key_sequence sum256 sizes entropy validators =
    fallback_loop sum256 sizes entropy validators sizes.epoch_length 0

-- `TicketsOrKeys`, of which the code sets one.
pub record TicketsOrKeys : Type 0 where
  pub tickets : List TicketBody
  pub keys : List (List ℕ)

unfoldable pub with_tickets : Option (List TicketBody) → Option TicketsOrKeys
with_tickets none = none
with_tickets (some ts) = some (record { tickets = ts; keys = [] })

unfoldable pub with_keys : Option (List (List ℕ)) → Option TicketsOrKeys
with_keys none = none
with_keys (some ks) = some (record { tickets = []; keys = ks })

unfoldable pub update_slot_key_sequence :
    (List ℕ → List ℕ)
    → Sizes
    → ℕ
    → ℕ
    → ℕ
    → List TicketBody
    → TicketsOrKeys
    → List ℕ
    → List Validator
    → Option TicketsOrKeys
unfolding outside_in_sequencer fallback_key_sequence with_tickets with_keys
update_slot_key_sequence sum256 sizes e e' slot_index gamma_a gamma_s eta_2' kappa' =
    if e' == e + 1
      && length gamma_a == sizes.epoch_length
      && leb sizes.slot_submission_end slot_index
    then with_tickets (outside_in_sequencer sizes gamma_a)
    else if e' == e
    then some gamma_s
    else with_keys (fallback_key_sequence sum256 sizes eta_2' kappa')

pub record EpochMark : Type 0 where
  pub entropy : List ℕ
  pub tickets_entropy : List ℕ
  pub validators : List (List ℕ × List ℕ)

unfoldable pub mark_keys : List Validator → List (List ℕ × List ℕ)
mark_keys [] = []
mark_keys (v ∷ rest) = (v.bandersnatch, v.ed25519) ∷ mark_keys rest

unfoldable pub create_epoch_marker : ℕ → ℕ → Entropy → List Validator → Option EpochMark
unfolding mark_keys
create_epoch_marker e e' eta gamma_k' =
    if ltb e e'
    then some (record {
      entropy = eta.eta_0;
      tickets_entropy = eta.eta_1;
      validators = mark_keys gamma_k';
    })
    else none

-- The conditions under which the block carries the winning tickets.
unfoldable pub marks_tickets : Sizes → ℕ → ℕ → ℕ → ℕ → List TicketBody → Bool
marks_tickets sizes e e' m m' gamma_a =
    (e' == e)
    && (ltb m sizes.slot_submission_end && leb sizes.slot_submission_end m')
    && (length gamma_a == sizes.epoch_length)

unfoldable pub present_mark {ℓ} : {A : Type ℓ} → Option A → Option (Option A)
present_mark none = none
present_mark (some a) = some (some a)

-- The mark, or `some none` for nil; `none` is a run-time panic.
unfoldable pub create_winning_tickets :
    Sizes → ℕ → ℕ → ℕ → ℕ → List TicketBody → Option (Option (List TicketBody))
unfolding marks_tickets present_mark outside_in_sequencer
create_winning_tickets sizes e e' m m' gamma_a =
    if marks_tickets sizes e e' m m' gamma_a
    then present_mark (outside_in_sequencer sizes gamma_a)
    else some none

-- The loop over the validators of the mark.
unfoldable pub same_validators : List (List ℕ × List ℕ) → List Validator → Bool
same_validators [] expected = true
same_validators (k ∷ ks) [] = false
same_validators ((b, k) ∷ ks) (v ∷ vs) =
    bytes_equal b v.bandersnatch && bytes_equal k v.ed25519 && same_validators ks vs

-- `ValidateHeaderEpochMark`: whether no error code is returned. The loop is reached for as many
-- validators as the mark has.
unfoldable pub validate_header_epoch_mark :
    Sizes → ℕ → ℕ → Entropy → List Validator → Option EpochMark → Bool
unfolding get_epoch_index same_validators
validate_header_epoch_mark sizes tau slot eta gamma_k' none =
    not (ltb (get_epoch_index sizes tau) (get_epoch_index sizes slot))
validate_header_epoch_mark sizes tau slot eta gamma_k' (some em) =
    ltb (get_epoch_index sizes tau) (get_epoch_index sizes slot)
    && (bytes_equal em.entropy eta.eta_0 && bytes_equal em.tickets_entropy eta.eta_1)
    && not (ltb 0 sizes.validators_count && not (length em.validators == sizes.validators_count))
    && (length gamma_k' == length em.validators)
    && same_validators em.validators gamma_k'

-- `(*tm)[i] != expectedTm[i]` over two lists of the same length.
unfoldable pub same_tickets : List TicketBody → List TicketBody → Bool
same_tickets [] expected = true
same_tickets (t ∷ ts) [] = false
same_tickets (t ∷ ts) (k ∷ ks) =
    bytes_equal t.id k.id && (t.attempt == k.attempt) && same_tickets ts ks

unfoldable pub matches_mark : List TicketBody → Option (List TicketBody) → Option Bool
unfolding same_tickets
matches_mark tm none = none
matches_mark tm (some expected) = some ((length tm == length expected) && same_tickets tm expected)

-- `ValidateHeaderTicketsMark`: whether no error code is returned; `none` is a run-time panic.
unfoldable pub validate_header_tickets_mark :
    Sizes → ℕ → ℕ → List TicketBody → Option (List TicketBody) → Option Bool
unfolding marks_tickets matches_mark get_epoch_index get_slot_index outside_in_sequencer
validate_header_tickets_mark sizes tau tau' gamma_a tm =
    let should_have =
      marks_tickets sizes (get_epoch_index sizes tau) (get_epoch_index sizes tau')
        (get_slot_index sizes tau) (get_slot_index sizes tau') gamma_a in
    elim tm [
      | none ↦ some (not should_have)
      | some mark ↦
          (if should_have
            then matches_mark mark (outside_in_sequencer sizes gamma_a)
            else some false)
    ]
