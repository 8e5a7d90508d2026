-- ===== src/Chain/Safrole/Total.antt =====
-- The functions of Safrole that index a list do not leave it.
use jam_protocol.Base.{
  ℕ, zero, suc, ◌+◌, ◌%◌, ◌≤◌, ◌<◌, ◌≡◌, refl, sym, ap, subst, arith, Bool, true, false, ◌&&◌,
  Option, none, some, List, [], ◌∷◌, ◌++◌, length, get_elem?, ltb, leb, ◌==◌, ==_iff, if◌then◌else◌,
  All,
}
use native.Mathlib.Nat.{mod-lt}
use jam_protocol.Codec.{serialize_fixed_length, deserialize_fixed_length}
use jam_protocol.Chain.Tickets.{
  Sizes, TicketEnvelope, TicketBody, ErrorCode, RingVerifier, VerifyItem, Verdict, accepts, rejects,
  crashes, check, put_ticket, collect, sort_slice, select_tickets, verify_tickets_order,
  verify_epoch_tail, verify_tickets_attempt, get_previous_tickets_accumulator, verify_items,
  verify_tickets_proof, accumulate_tickets, create_new_ticket_accumulator, verify_tickets_duplicate,
}
use jam_protocol.Chain.Safrole.{
  Validator, value_or_zero, blake2b_hash_partial, TicketsOrKeys, put_entry, bandersnatch_of,
  fallback_key, fallback_loop, fallback_key_sequence, with_tickets, with_keys,
  update_slot_key_sequence, marks_tickets, present_mark, create_winning_tickets,
}
use jam_protocol.Chain.Safrole.Sequence.{IsSequence, outside_in_sequencer-IsSequence}

abbrev pub IsThere {ℓ} : {A : Type ℓ} → Option A → Type 0
IsThere none = ⊥
IsThere (some a) = Unit

abbrev pub Survives {ℓ} : {A : Type ℓ} → Verdict A → Type 0
Survives (accepts a) = Unit
Survives (rejects e) = Unit
Survives crashes = ⊥

pub either {ℓ} :
    {A : Type ℓ} (P : A → Type 0) (b : Bool) (x y : A)
    → (b ≡ true → P x)
    → (b ≡ false → P y)
    → P (if b then x else y)
either P true x y p q = p refl
either P false x y p q = q refl

put_entry-IsThere {ℓ} :
    {A : Type ℓ} (o : Option A) (rest : Option (List A))
    → IsThere o
    → IsThere rest
    → IsThere (put_entry o rest)
unfolding put_entry
put_entry-IsThere none rest h k = h
put_entry-IsThere (some a) none h k = k
put_entry-IsThere (some a) (some rest) h k = tt

get_elem?-IsThere :
    (vs : List Validator) (i : ℕ) → i < length vs → IsThere (bandersnatch_of (get_elem? vs i))
unfolding bandersnatch_of
get_elem?-IsThere [] i h = absurd (omega arith)
get_elem?-IsThere (v ∷ vs) zero h = tt
get_elem?-IsThere (v ∷ vs) (suc i) h = get_elem?-IsThere vs i (omega arith)

keys-IsThere : (o : Option (List (List ℕ))) → IsThere o → IsThere (with_keys o)
unfolding with_keys
keys-IsThere none h = h
keys-IsThere (some ks) h = tt

tickets-IsThere :
    (t : List TicketBody) (o : Option (List TicketBody)) → IsSequence t o → IsThere (with_tickets o)
unfolding with_tickets
tickets-IsThere t none (out, e, p) = absurd cc
tickets-IsThere t (some ts) h = tt

mark-IsThere :
    (t : List TicketBody) (o : Option (List TicketBody)) → IsSequence t o → IsThere (present_mark o)
unfolding present_mark
mark-IsThere t none (out, e, p) = absurd cc
mark-IsThere t (some ts) h = tt

and_middle : (a b c : Bool) → (a && b && c) ≡ true → b ≡ true
and_middle true true c h = refl
and_middle true false c h = absurd cc
and_middle false b c h = absurd cc

and_last : (a b c : Bool) → (a && b && c) ≡ true → c ≡ true
and_last true true c h = h
and_last true false c h = absurd cc
and_last false b c h = absurd cc

module _ (sum256 : List ℕ → List ℕ) (sizes : Sizes) (entropy : List ℕ) (validators : List Validator)
    (size : length validators ≡ sizes.validators_count)
    (some_validators : 0 < sizes.validators_count) where
  index_inside : (x : ℕ) → x % sizes.validators_count < length validators
  index_inside x = subst (λ n. x % sizes.validators_count < n) (sym size) (mod-lt x some_validators)

  fallback_key-IsThere : (i : ℕ) → IsThere (fallback_key sum256 sizes entropy validators i)
  unfolding fallback_key
  fallback_key-IsThere i = get_elem?-IsThere validators _ (
      index_inside (
        value_or_zero (
          deserialize_fixed_length 32
            (blake2b_hash_partial sum256 (entropy ++ serialize_fixed_length i 4) 4) 4)))

  fallback_loop-IsThere :
      (rounds i : ℕ) → IsThere (fallback_loop sum256 sizes entropy validators rounds i)
  unfolding fallback_loop
  fallback_loop-IsThere zero i = tt
  fallback_loop-IsThere (suc rounds) i =
      put_entry-IsThere (fallback_key sum256 sizes entropy validators i)
        (fallback_loop sum256 sizes entropy validators rounds (i + 1)) (fallback_key-IsThere i)
        (fallback_loop-IsThere rounds (i + 1))

  with_keys-IsThere : IsThere (with_keys (fallback_key_sequence sum256 sizes entropy validators))
  unfolding fallback_key_sequence
  with_keys-IsThere = keys-IsThere _ (fallback_loop-IsThere sizes.epoch_length 0)

  pub update_slot_key_sequence-IsThere :
      (e e' slot_index : ℕ) (gamma_a : List TicketBody) (gamma_s : TicketsOrKeys)
      → IsThere
          (update_slot_key_sequence sum256 sizes e e' slot_index gamma_a gamma_s entropy validators)
  unfolding update_slot_key_sequence
  update_slot_key_sequence-IsThere e e' slot_index gamma_a gamma_s =
      either IsThere _ _ _
        (λ h. tickets-IsThere gamma_a _ (
          outside_in_sequencer-IsSequence sizes gamma_a
            ((==_iff _ _).0 (and_middle (e' == e + 1) (length gamma_a == sizes.epoch_length) _ h))))
        (λ _. either IsThere (e' == e) (some gamma_s) _ (λ _. tt) (λ _. with_keys-IsThere))

pub create_winning_tickets-IsThere :
    (sizes : Sizes) (e e' m m' : ℕ) (gamma_a : List TicketBody)
    → IsThere (create_winning_tickets sizes e e' m m' gamma_a)
unfolding create_winning_tickets marks_tickets
create_winning_tickets-IsThere sizes e e' m m' gamma_a =
    either IsThere _ _ (some none)
      (λ h. mark-IsThere gamma_a _ (
        outside_in_sequencer-IsSequence sizes gamma_a (
          (==_iff _ _).0 (
            and_last (e' == e) (ltb m sizes.slot_submission_end && leb sizes.slot_submission_end m')
              (length gamma_a == sizes.epoch_length) h))))
      (λ _. tt)

-- An output has the 32 bytes of an identifier.
abbrev IsOutput : Option (List ℕ) → Type 0
IsOutput none = Unit
IsOutput (some output) = 32 ≤ length output

put_ticket-Survives :
    (output : List ℕ) (attempt : ℕ) (v : Verdict (List TicketBody))
    → 32 ≤ length output
    → Survives v
    → Survives (put_ticket output attempt v)
unfolding put_ticket
put_ticket-Survives output attempt (accepts ts) long h =
    either Survives (ltb (length output) 32) crashes _ (λ e. ground arith) (λ _. tt)
put_ticket-Survives output attempt (rejects e) long h =
    either Survives (ltb (length output) 32) crashes (rejects e) (λ e'. ground arith) (λ _. tt)
put_ticket-Survives output attempt crashes long h = h

collect-Survives :
    (results : List (Option (List ℕ))) (tickets : List TicketEnvelope)
    → length results ≤ length tickets
    → All IsOutput results
    → Survives (collect results tickets)
unfolding collect
collect-Survives [] tickets h long = tt
collect-Survives (none ∷ results) tickets h long = tt
collect-Survives (some output ∷ results) [] h long = absurd (omega arith)
collect-Survives (some output ∷ results) (t ∷ tickets) h long =
    put_ticket-Survives output t.attempt (collect results tickets) long.0
      (collect-Survives results tickets (omega arith) long.1)

-- The verifier gives no more results than it is given items, and outputs of at least 32 bytes.
abbrev pub IsVerifier : RingVerifier → Type 0
IsVerifier ring_verify_batch =
    (items : List VerifyItem) (results : List (Option (List ℕ)))
    → ring_verify_batch items ≡ some results
    → (length results ≤ length items) × All IsOutput results

length-verify_items :
    (eta_2 : List ℕ) (tickets : List TicketEnvelope)
    → length (verify_items eta_2 tickets) ≡ length tickets
unfolding verify_items
length-verify_items eta_2 [] = refl
length-verify_items eta_2 (t ∷ tickets) = ap suc (length-verify_items eta_2 tickets)

verify_tickets_proof-Survives :
    (ring_verify_batch : RingVerifier) (eta_2 : List ℕ) (tickets : List TicketEnvelope)
    → IsVerifier ring_verify_batch
    → Survives (verify_tickets_proof (some ring_verify_batch) eta_2 tickets)
unfolding verify_tickets_proof
verify_tickets_proof-Survives ring_verify_batch eta_2 tickets ok =
    by_batch (ring_verify_batch (verify_items eta_2 tickets)) (λ results e.
      let (fits, long) = ok (verify_items eta_2 tickets) results e in
      (omega (arith, length-verify_items eta_2 tickets), long))
  where
    by_batch :
        (o : Option (List (Option (List ℕ))))
        → ((results : List (Option (List ℕ)))
            → o ≡ some results
            → (length results ≤ length tickets) × All IsOutput results)
        → Survives (elim o as (λ _. Verdict (List TicketBody)) [
          | none ↦ rejects ErrorCode.bad_ticket_proof
          | some results ↦ collect results tickets
        ])
    by_batch none h = tt
    by_batch (some results) h =
        collect-Survives results tickets (h results refl).0 (h results refl).1

check-Survives :
    (o : Option ErrorCode) (next : Verdict (List TicketBody))
    → Survives next
    → Survives (check o next)
unfolding check
check-Survives none next h = h
check-Survives (some e) next h = tt

checks-Survives :
    (a b c : Option ErrorCode) (ts : List TicketBody)
    → Survives (check a (check b (check c (accepts ts))))
checks-Survives a b c ts =
    check-Survives a (check b (check c (accepts ts)))
      (check-Survives b (check c (accepts ts)) (check-Survives c (accepts ts) tt))

accumulate_tickets-Survives :
    (sizes : Sizes) (previous : List TicketBody) (v : Verdict (List TicketBody))
    → Survives v
    → Survives (accumulate_tickets sizes previous v)
unfolding accumulate_tickets
accumulate_tickets-Survives sizes previous (accepts new) h =
    checks-Survives (verify_tickets_order new) (verify_tickets_duplicate new)
      (verify_tickets_duplicate (sort_slice (new ++ previous)))
      (select_tickets sizes (sort_slice (new ++ previous)))
accumulate_tickets-Survives sizes previous (rejects e) h = tt
accumulate_tickets-Survives sizes previous crashes h = h

pub create-Survives :
    (sizes : Sizes) (v : RingVerifier) (tau tau' : ℕ) (eta_2 : List ℕ) (gamma_a : List TicketBody)
    (tickets : List TicketEnvelope)
    → IsVerifier v
    → Survives (create_new_ticket_accumulator sizes (some v) tau tau' eta_2 gamma_a tickets)
unfolding create_new_ticket_accumulator
create-Survives sizes v tau tau' eta_2 gamma_a tickets ok =
    let rest =
      accumulate_tickets sizes (get_previous_tickets_accumulator sizes tau tau' gamma_a)
        (verify_tickets_proof (some v) eta_2 tickets) in
    check-Survives (verify_epoch_tail sizes tau' tickets)
      (check (verify_tickets_attempt sizes tickets) rest)
      (check-Survives (verify_tickets_attempt sizes tickets) rest (
        accumulate_tickets-Survives sizes (get_previous_tickets_accumulator sizes tau tau' gamma_a)
          (verify_tickets_proof (some v) eta_2 tickets)
          (verify_tickets_proof-Survives v eta_2 tickets ok)))
