-- ===== src/Chain/Tickets/Accumulator.antt =====
-- The ticket accumulator after a block: what it holds, and when it is accepted.
use jam_protocol.Base.{
  ℕ, zero, suc, ◌%◌, ◌≤◌, ◌<◌, ◌≡◌, refl, sym, ap, subst, ◌∙◌, arith, Bool, true, false, Option,
  none, some, List, [], ◌∷◌, ◌++◌, All, length, take, length-take, All-take, ltb, leb,
  if◌then◌else◌,
}
use mathlib.Core.List.{Permᴰ}
use jam_protocol.Chain.Tickets.{
  Sizes, TicketEnvelope, TicketBody, ErrorCode, RingVerifier, Verdict, accepts, rejects, crashes,
  get_slot_index, sort_slice, check, select_tickets, accumulate_tickets, verify_epoch_tail,
  verify_tickets_attempt, verify_tickets_proof, verify_tickets_order, verify_tickets_duplicate,
  get_previous_tickets_accumulator, create_new_ticket_accumulator,
}
use jam_protocol.Chain.Tickets.Order.{
  Precedes, Increasing, verify_tickets_duplicate-Increasing, verify_tickets_order-Ordered,
  sort_slice-Ordered, sort_slice-Permᴰ,
}
use jam_protocol.Chain.Tickets.Distinct.{
  ApartFrom, Increasing-Distinct, append-Distinct, sort_slice-Distinct,
  verify_tickets_duplicate-Distinct, verify_tickets_order-Increasing,
}

-- The new tickets came in increasing order, and with the previous ones they are, in increasing order,
-- `all`, of which the accumulator holds the first `E`.
pub record IsAccumulated (sizes : Sizes) (new previous gamma : List TicketBody) : Type 0 where
  pub ordered : Increasing new
  pub all : List TicketBody
  pub perm : Permᴰ all (new ++ previous)
  pub increasing : Increasing all
  pub selected : gamma ≡ take sizes.epoch_length all

take_all : (n : ℕ) (tickets : List TicketBody) → length tickets ≤ n → take n tickets ≡ tickets
take_all zero [] h = refl
take_all zero (t ∷ rest) h = absurd (omega arith)
take_all (suc n) [] h = refl
take_all (suc n) (t ∷ rest) h = ap (λ ts. t ∷ ts) (take_all n rest (omega arith))

select_tickets-take :
    (sizes : Sizes) (tickets : List TicketBody)
    → select_tickets sizes tickets ≡ take sizes.epoch_length tickets
unfolding select_tickets
select_tickets-take sizes tickets = by_size (ltb sizes.epoch_length (length tickets)) refl
  where
    by_size :
        (b : Bool)
        → ltb sizes.epoch_length (length tickets) ≡ b
        → (if b then take sizes.epoch_length tickets else tickets) ≡ take sizes.epoch_length tickets
    by_size true e = refl
    by_size false e = sym (take_all sizes.epoch_length tickets (ground arith))

accepted : List TicketBody → Verdict (List TicketBody) → List TicketBody
accepted other (accepts a) = a
accepted other (rejects e) = other
accepted other crashes = other

accepts_injective : (a b : List TicketBody) → accepts a ≡ accepts b → a ≡ b
unfolding accepted
accepts_injective a b e = ap (accepted []) e

check_accepts :
    (o : Option ErrorCode) (next : Verdict (List TicketBody)) (a : List TicketBody)
    → check o next ≡ accepts a
    → (o ≡ none) × (next ≡ accepts a)
unfolding check
check_accepts none next a e = (refl, e)
check_accepts (some c) next a e = absurd cc

accumulate_tickets-IsAccumulated :
    (sizes : Sizes) (previous : List TicketBody) (v : Verdict (List TicketBody))
    (gamma : List TicketBody)
    → accumulate_tickets sizes previous v ≡ accepts gamma
    → (new : List TicketBody) × (v ≡ accepts new) × IsAccumulated sizes new previous gamma
unfolding accumulate_tickets
accumulate_tickets-IsAccumulated sizes previous (rejects c) gamma e = absurd cc
accumulate_tickets-IsAccumulated sizes previous crashes gamma e = absurd cc
accumulate_tickets-IsAccumulated sizes previous (accepts new) gamma e =
    let a = check_accepts (verify_tickets_order new) _ gamma e in
    let b = check_accepts (verify_tickets_duplicate new) _ gamma a.1 in
    let c = check_accepts (verify_tickets_duplicate (sort_slice (new ++ previous))) _ gamma b.1 in
    (
      new,
      refl,
      record {
        ordered =
            verify_tickets_duplicate-Increasing new (verify_tickets_order-Ordered new a.0) b.0;
        all = sort_slice (new ++ previous);
        perm = sort_slice-Permᴰ (new ++ previous);
        increasing =
            verify_tickets_duplicate-Increasing _ (sort_slice-Ordered (new ++ previous)) c.0;
        selected = sym (accepts_injective _ _ c.1) ∙ select_tickets-take sizes _;
      },
    )

-- The extrinsic may carry these tickets: none in the epoch's tail, before it at most as many
-- as validators, and each with an attempt that a validator has.
pub record IsAllowed (sizes : Sizes) (tau' : ℕ) (tickets : List TicketEnvelope) : Type 0 where
  pub lottery :
      tau' % sizes.epoch_length < sizes.slot_submission_end
      → length tickets ≤ sizes.validators_count
  pub tail : sizes.slot_submission_end ≤ tau' % sizes.epoch_length → length tickets ≡ 0
  pub attempts : All (λ t. t.attempt < sizes.tickets_per_validator) tickets

verify_tickets_attempt-All :
    (sizes : Sizes) (tickets : List TicketEnvelope)
    → verify_tickets_attempt sizes tickets ≡ none
    → All (λ (t : TicketEnvelope). t.attempt < sizes.tickets_per_validator) tickets
unfolding verify_tickets_attempt
verify_tickets_attempt-All sizes [] e = tt
verify_tickets_attempt-All sizes (t ∷ rest) e =
    by_size (leb sizes.tickets_per_validator t.attempt) refl
      (λ e'. verify_tickets_attempt-All sizes rest e') e
  where
    by_size :
        (b : Bool)
        → leb sizes.tickets_per_validator t.attempt ≡ b
        → (verify_tickets_attempt sizes rest ≡ none
            → All (λ (k : TicketEnvelope). k.attempt < sizes.tickets_per_validator) rest)
        → (if b then some ErrorCode.bad_ticket_attempt else verify_tickets_attempt sizes rest)
          ≡ none
        → All (λ (k : TicketEnvelope). k.attempt < sizes.tickets_per_validator) (t ∷ rest)
    by_size true is_b rec e = absurd cc
    by_size false is_b rec e = (ground arith, rec e)

verify_epoch_tail-lottery :
    (sizes : Sizes) (tau' : ℕ) (tickets : List TicketEnvelope)
    → verify_epoch_tail sizes tau' tickets ≡ none
    → tau' % sizes.epoch_length < sizes.slot_submission_end
    → length tickets ≤ sizes.validators_count
unfolding verify_epoch_tail get_slot_index
verify_epoch_tail-lottery sizes tau' tickets e h = ground arith

verify_epoch_tail-tail :
    (sizes : Sizes) (tau' : ℕ) (tickets : List TicketEnvelope)
    → verify_epoch_tail sizes tau' tickets ≡ none
    → sizes.slot_submission_end ≤ tau' % sizes.epoch_length
    → length tickets ≡ 0
unfolding verify_epoch_tail get_slot_index
verify_epoch_tail-tail sizes tau' tickets e h = ground arith

All-attempt :
    (sizes : Sizes) (tickets : List TicketEnvelope)
    → All (λ (t : TicketEnvelope). t.attempt < sizes.tickets_per_validator) tickets
    → verify_tickets_attempt sizes tickets ≡ none
unfolding verify_tickets_attempt
All-attempt sizes [] h = refl
All-attempt sizes (t ∷ rest) h = rw (lt-leb _ _ h.0) (All-attempt sizes rest h.1)
  where
    lt-leb : (a n : ℕ) → a < n → leb n a ≡ false
    lt-leb a n h = ground arith

allowed_tail :
    (sizes : Sizes) (tau' : ℕ) (tickets : List TicketEnvelope)
    → IsAllowed sizes tau' tickets
    → verify_epoch_tail sizes tau' tickets ≡ none
unfolding verify_epoch_tail get_slot_index
allowed_tail sizes tau' tickets h = let lottery = h.lottery in let tail = h.tail in ground arith

take-Increasing :
    (n : ℕ) (tickets : List TicketBody) → Increasing tickets → Increasing (take n tickets)
take-Increasing zero tickets h = tt
take-Increasing (suc n) [] h = tt
take-Increasing (suc n) (t ∷ rest) h =
    (All-take (Precedes t) n rest h.0, take-Increasing n rest h.1)

module _ (sizes : Sizes) (ring_verify_batch : Option RingVerifier) (tau tau' : ℕ) (eta_2 : List ℕ)
    (gamma_a : List TicketBody) (tickets : List TicketEnvelope) where
  abbrev previous : List TicketBody
  previous = get_previous_tickets_accumulator sizes tau tau' gamma_a

  abbrev result : Verdict (List TicketBody)
  result = create_new_ticket_accumulator sizes ring_verify_batch tau tau' eta_2 gamma_a tickets

  -- Where a block's tickets are accepted, there was none in the epoch's tail and before it at most as
  -- many as validators, each with an attempt below the limit; the tickets verified came in increasing
  -- order; and the new accumulator holds the first `E` of them and the previous ones, in increasing
  -- order and so without duplicates.
  pub create_new_ticket_accumulator-IsAccumulated :
      (gamma : List TicketBody)
      → result ≡ accepts gamma
      → IsAllowed sizes tau' tickets
        × ((new : List TicketBody) × (verify_tickets_proof ring_verify_batch eta_2 tickets
              ≡ accepts new)
            × IsAccumulated sizes new previous gamma)
  unfolding create_new_ticket_accumulator
  create_new_ticket_accumulator-IsAccumulated gamma e =
      let a = check_accepts (verify_epoch_tail sizes tau' tickets) _ gamma e in
      let b = check_accepts (verify_tickets_attempt sizes tickets) _ gamma a.1 in
      (
        record {
          lottery = verify_epoch_tail-lottery sizes tau' tickets a.0;
          tail = verify_epoch_tail-tail sizes tau' tickets a.0;
          attempts = verify_tickets_attempt-All sizes tickets b.0;
        },
        accumulate_tickets-IsAccumulated sizes previous _ gamma b.1,
      )

  pub create_new_ticket_accumulator-length :
      (gamma : List TicketBody)
      → result ≡ accepts gamma
      → (length gamma ≤ sizes.epoch_length) × Increasing gamma
  create_new_ticket_accumulator-length gamma e =
      let (_, (_, _, a)) = create_new_ticket_accumulator-IsAccumulated gamma e in
      (
        subst (λ (g : List TicketBody). length g ≤ sizes.epoch_length) (sym a.selected)
            (omega (arith, length-take sizes.epoch_length a.all)),
        subst Increasing (sym a.selected) (take-Increasing sizes.epoch_length a.all a.increasing),
      )

  -- Tickets that are allowed and verified, in increasing order, and apart from the previous ones, which
  -- are in increasing order too, are accepted, and the new accumulator is the first `E` of all of them
  -- sorted.
  pub create_new_ticket_accumulator-accepts :
      (new : List TicketBody)
      → IsAllowed sizes tau' tickets
      → verify_tickets_proof ring_verify_batch eta_2 tickets ≡ accepts new
      → Increasing new
      → Increasing previous
      → ApartFrom previous new
      → result ≡ accepts (take sizes.epoch_length (sort_slice (new ++ previous)))
  unfolding create_new_ticket_accumulator accumulate_tickets check
  create_new_ticket_accumulator-accepts new allowed proof ordered kept apart =
      let distinct =
        append-Distinct new previous (Increasing-Distinct new ordered)
          (Increasing-Distinct previous kept) apart in
      rw
        (
          allowed_tail sizes tau' tickets allowed,
          All-attempt sizes tickets allowed.attempts,
          proof,
          verify_tickets_order-Increasing new ordered,
          verify_tickets_duplicate-Distinct new (Increasing-Distinct new ordered),
          verify_tickets_duplicate-Distinct _ (sort_slice-Distinct (new ++ previous) distinct),
        )
        (ap accepts (select_tickets-take sizes (sort_slice (new ++ previous))))
