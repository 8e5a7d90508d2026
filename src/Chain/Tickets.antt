-- ===== src/Chain/Tickets.antt =====
-- The tickets of an epoch: internal/safrole/extrinsic_tickets.go. The protocol's sizes are a record,
-- since the build and the configuration set them; the ring signatures' verifier is a parameter.
pub mod Bytes
pub mod Order
pub mod Distinct
pub mod Accumulator
use jam_protocol.Base.{
  ℕ, zero, suc, ◌+◌, ◌/◌, ◌%◌, Bool, true, false, not, ◌||◌, ◌&&◌, Option, none, some, List, [],
  ◌∷◌, ◌++◌, length, take, ltb, leb, ◌==◌, if◌then◌else◌,
}
use jam_protocol.Base.Words.{u8}

-- A division by an epoch's length of zero, which would be a run-time panic, is not modelled.
pub record Sizes : Type 0 where
  pub epoch_length : ℕ
  pub slot_submission_end : ℕ
  pub validators_count : ℕ
  pub tickets_per_validator : ℕ

pub record TicketEnvelope : Type 0 where
  pub attempt : ℕ
  pub signature : List ℕ

pub record TicketBody : Type 0 where
  pub id : List ℕ
  pub attempt : ℕ

pub data ErrorCode : Type 0 where
  bad_slot unexpected_ticket bad_ticket_order bad_ticket_proof bad_ticket_attempt duplicate_ticket :
      ErrorCode

-- `bytes.Compare(a, b) < 0` and `bytes.Equal(a, b)`
unfoldable pub bytes_lt : List ℕ → List ℕ → Bool
bytes_lt [] [] = false
bytes_lt [] (y ∷ ys) = true
bytes_lt (x ∷ xs) [] = false
bytes_lt (x ∷ xs) (y ∷ ys) = ltb x y || (x == y && bytes_lt xs ys)

unfoldable pub bytes_equal : List ℕ → List ℕ → Bool
bytes_equal [] [] = true
bytes_equal [] (y ∷ ys) = false
bytes_equal (x ∷ xs) [] = false
bytes_equal (x ∷ xs) (y ∷ ys) = x == y && bytes_equal xs ys

-- `sort.Slice` by the identifiers. Tickets with the same identifier are refused after it, so that
-- their order does not matter.
unfoldable pub insert : TicketBody → List TicketBody → List TicketBody
insert t [] = t ∷ []
insert t (k ∷ rest) =
    let later = insert t rest in if bytes_lt k.id t.id then k ∷ later else t ∷ k ∷ rest

unfoldable pub sort_slice : List TicketBody → List TicketBody
unfolding insert
sort_slice [] = []
sort_slice (t ∷ rest) = insert t (sort_slice rest)

-- `R`: the epoch and the slot in it.
unfoldable pub get_epoch_index : Sizes → ℕ → ℕ
get_epoch_index sizes t = t / sizes.epoch_length

unfoldable pub get_slot_index : Sizes → ℕ → ℕ
get_slot_index sizes t = t % sizes.epoch_length

unfoldable pub verify_epoch_tail : Sizes → ℕ → List TicketEnvelope → Option ErrorCode
unfolding get_slot_index
verify_epoch_tail sizes tau' tickets =
    if ltb (get_slot_index sizes tau') sizes.slot_submission_end
    then (if ltb sizes.validators_count (length tickets) then some unexpected_ticket else none)
    else (if length tickets == 0 then none else some unexpected_ticket)

unfoldable pub verify_tickets_attempt : Sizes → List TicketEnvelope → Option ErrorCode
verify_tickets_attempt sizes [] = none
verify_tickets_attempt sizes (t ∷ rest) =
    if leb sizes.tickets_per_validator t.attempt
    then some bad_ticket_attempt
    else verify_tickets_attempt sizes rest

unfoldable pub verify_tickets_order : List TicketBody → Option ErrorCode
verify_tickets_order [] = none
verify_tickets_order (t ∷ []) = none
verify_tickets_order (t ∷ k ∷ rest) =
    if bytes_lt k.id t.id then some bad_ticket_order else verify_tickets_order (k ∷ rest)

unfoldable pub verify_tickets_duplicate : List TicketBody → Option ErrorCode
verify_tickets_duplicate [] = none
verify_tickets_duplicate (t ∷ []) = none
verify_tickets_duplicate (t ∷ k ∷ rest) =
    if bytes_equal t.id k.id then some duplicate_ticket else verify_tickets_duplicate (k ∷ rest)

-- "jam_ticket_seal", the entropy and the attempt.
unfoldable pub create_signature_context : List ℕ → ℕ → List ℕ
create_signature_context eta_2 r =
    (106 ∷ 97 ∷ 109 ∷ 95 ∷ 116 ∷ 105 ∷ 99 ∷ 107 ∷ 101 ∷ 116 ∷ 95 ∷ 115 ∷ 101 ∷ 97 ∷ 108 ∷ [])
    ++ eta_2
    ++ (u8 r ∷ [])

-- `vrf.VerifyItem`: the context, the message and the signature.
abbrev pub VerifyItem : Type 0
VerifyItem = List ℕ × List ℕ × List ℕ

-- `RingVerifyBatch`: the error of the batch, or for each item its error or its output.
abbrev pub RingVerifier : Type 0
RingVerifier = List VerifyItem → Option (List (Option (List ℕ)))

-- An error code is returned, or a value, or the program ends with a run-time panic.
pub data Verdict {ℓ} (A : Type ℓ) : Type ℓ where
  accepts : A → Verdict A
  rejects : ErrorCode → Verdict A
  crashes : Verdict A

unfoldable pub verify_items : List ℕ → List TicketEnvelope → List VerifyItem
unfolding create_signature_context
verify_items eta_2 [] = []
verify_items eta_2 (t ∷ rest) =
    (create_signature_context eta_2 t.attempt, [], t.signature) ∷ verify_items eta_2 rest

-- `types.TicketID(result.Output)` is a run-time panic for fewer than 32 bytes, and takes the first 32.
unfoldable pub put_ticket : List ℕ → ℕ → Verdict (List TicketBody) → Verdict (List TicketBody)
put_ticket output attempt (accepts tickets) =
    if ltb (length output) 32
    then crashes
    else accepts (record { id = take 32 output; attempt = attempt } ∷ tickets)
put_ticket output attempt (rejects e) = if ltb (length output) 32 then crashes else rejects e
put_ticket output attempt crashes = crashes

-- The loop over the results; more results than tickets are an index out of range.
unfoldable pub collect : List (Option (List ℕ)) → List TicketEnvelope → Verdict (List TicketBody)
unfolding put_ticket
collect [] tickets = accepts []
collect (none ∷ results) tickets = rejects bad_ticket_proof
collect (some output ∷ results) [] = crashes
collect (some output ∷ results) (t ∷ tickets) =
    put_ticket output t.attempt (collect results tickets)

-- The verifier is nil where `GetVerifier` failed, and to call it is a run-time panic then.
unfoldable pub verify_tickets_proof :
    Option RingVerifier → List ℕ → List TicketEnvelope → Verdict (List TicketBody)
unfolding verify_items collect
verify_tickets_proof none eta_2 tickets = crashes
verify_tickets_proof (some ring_verify_batch) eta_2 tickets =
    elim (ring_verify_batch (verify_items eta_2 tickets)) [
      | none ↦ rejects bad_ticket_proof
      | some results ↦ collect results tickets
    ]

unfoldable pub get_previous_tickets_accumulator : Sizes → ℕ → ℕ → List TicketBody → List TicketBody
unfolding get_epoch_index
get_previous_tickets_accumulator sizes tau tau' gamma_a =
    if ltb (get_epoch_index sizes tau) (get_epoch_index sizes tau') then [] else gamma_a

unfoldable pub check : Option ErrorCode → Verdict (List TicketBody) → Verdict (List TicketBody)
check none next = next
check (some e) next = rejects e

-- The first `E` tickets, which the posterior state is set to.
unfoldable pub select_tickets : Sizes → List TicketBody → List TicketBody
select_tickets sizes tickets =
    if ltb sizes.epoch_length (length tickets) then take sizes.epoch_length tickets else tickets

-- `CreateNewTicketAccumulator` from the verified tickets on.
unfoldable pub accumulate_tickets :
    Sizes → List TicketBody → Verdict (List TicketBody) → Verdict (List TicketBody)
unfolding check sort_slice select_tickets
accumulate_tickets sizes previous (rejects e) = rejects e
accumulate_tickets sizes previous crashes = crashes
accumulate_tickets sizes previous (accepts new_tickets) = check (verify_tickets_order new_tickets) (
    check (verify_tickets_duplicate new_tickets) (
      check (verify_tickets_duplicate (sort_slice (new_tickets ++ previous)))
        (accepts (select_tickets sizes (sort_slice (new_tickets ++ previous))))))

-- The posterior ticket accumulator, from the prior slot, the posterior slot and entropy, the prior
-- accumulator and the extrinsic's tickets.
unfoldable pub create_new_ticket_accumulator :
    Sizes
    → Option RingVerifier
    → ℕ
    → ℕ
    → List ℕ
    → List TicketBody
    → List TicketEnvelope
    → Verdict (List TicketBody)
unfolding accumulate_tickets verify_tickets_proof get_previous_tickets_accumulator check
create_new_ticket_accumulator sizes ring_verify_batch tau tau' eta_2 gamma_a tickets =
    check (verify_epoch_tail sizes tau' tickets) (
      check (verify_tickets_attempt sizes tickets) (
        accumulate_tickets sizes (get_previous_tickets_accumulator sizes tau tau' gamma_a)
          (verify_tickets_proof ring_verify_batch eta_2 tickets)))
