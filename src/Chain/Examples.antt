-- ===== src/Chain/Examples.antt =====
-- Runs of the chain's functions on concrete inputs.
use jam_protocol.Base.{
  Option, ℕ, zero, suc, ◌≢◌, ◌+◌, ◌-◌, ◌<◌, ◌≡◌, ◌↔◌, refl, arith, true, none, some, List, [], ◌∷◌,
  ◌++◌, length, take, drop, replicate, get_elem?,
}
use jam_protocol.Chain.Mmr.{HashFunction, append_one}
use jam_protocol.Chain.Mmr.Range.{Range, flat, peak, leaf, append_one-Range}
use jam_protocol.Chain.Tickets.{
  Sizes, TicketEnvelope, TicketBody, RingVerifier, accepts, crashes, bytes_lt, bytes_equal, insert,
  sort_slice, check, verify_tickets_proof, verify_items, collect, put_ticket, verify_epoch_tail,
  verify_tickets_attempt, verify_tickets_order, verify_tickets_duplicate, get_slot_index,
  get_epoch_index, select_tickets, accumulate_tickets, get_previous_tickets_accumulator,
  create_new_ticket_accumulator,
}
use jam_protocol.Chain.Tickets.Order.{Increasing}
use jam_protocol.Chain.Tickets.Accumulator.{
  IsAccumulated, IsAllowed, create_new_ticket_accumulator-IsAccumulated,
  create_new_ticket_accumulator-accepts,
}
use jam_protocol.Chain.Shuffle.{shuffle}
use jam_protocol.Chain.Shuffle.Permutation.{IsShuffle, shuffle-IsShuffle}
use jam_protocol.Chain.Pools.{Guarantee, Pool, pools, stf_alpha_to_alpha_prime}
use jam_protocol.Chain.Pools.PerCore.{
  HasPools, HasQueues, next_pool, stf_alpha_to_alpha_prime-next_pool,
}
use jam_protocol.Chain.History.{zero_block, add_item_to_beta_h_prime, stf_beta_h}
use jam_protocol.Chain.History.Bounds.{IsNext, add_item_to_beta_h_prime-drop, stf_beta_h-IsNext}
use jam_protocol.Chain.Safrole.{
  Validator, Entropy, Keys, null_validator, key_rotate, outside_in_sequencer,
  create_winning_tickets, create_epoch_marker, validate_header_tickets_mark,
  validate_header_epoch_mark,
}
use jam_protocol.Chain.Safrole.Sequence.{IsSequence, outside_in_sequencer-IsSequence}
use jam_protocol.Chain.Safrole.Rotation.{IsRotated, key_rotate-IsRotated}
use jam_protocol.Chain.Safrole.Markers.{
  validate_header_tickets_mark-create_winning_tickets,
  validate_header_epoch_mark-create_epoch_marker,
}
use jam_protocol.Codec.{or_bytes, deserialize_fixed_length}
use jam_protocol.Chain.Safrole.{
  update_entropy, replace_offender_keys, validator_is_offender, contains, update_slot_key_sequence,
  with_keys, fallback_key_sequence, fallback_loop, fallback_key, put_entry, bandersnatch_of,
  value_or_zero, blake2b_hash_partial, mark_keys, marks_tickets,
}
use jam_protocol.Chain.Verifier.{
  Verifier, released, cached, cached_or, ring, stored, get_verifier, batch_of,
}
use jam_protocol.Chain.Safrole.Outer.{
  SafroleState, SafroleInput, Outcome, Foreign, put_commitment, set_commitment, update_eta_prime_0,
  unless_panic, after_tickets, with_marks, outer_used_safrole,
}
use jam_protocol.Chain.Safrole.Composed.{IsSafrole, outer_used_safrole-IsSafrole}
use jam_protocol.Chain.Safrole.Total.{IsVerifier}
use jam_protocol.Chain.Safrole.Survival.{IsSound, IsReady, outer_used_safrole-crashes}
use jam_protocol.Chain.Guarantors.{Shape, permute}
use jam_protocol.Chain.Guarantors.Even.{count, permute-count}
use jam_protocol.Chain.Guarantors.Assigned.{IsAssigned, permute-IsAssigned}

-- The bytes themselves stand for a hash.
abbrev plain : HashFunction
plain bytes = bytes

one_leaf : Range plain 0 (some (1 ∷ []) ∷ []) ((1 ∷ []) ∷ [])
one_leaf = peak flat leaf

append_one-Range_example :
    Range plain 0 (append_one plain (some (1 ∷ []) ∷ []) (some (2 ∷ []))) ((1 ∷ []) ∷ (2 ∷ []) ∷ [])
append_one-Range_example =
    append_one-Range plain (some (1 ∷ []) ∷ []) ((1 ∷ []) ∷ []) (2 ∷ []) one_leaf

abbrev small_sizes : Sizes
small_sizes = record {
  epoch_length = 2;
  slot_submission_end = 1;
  validators_count = 1;
  tickets_per_validator = 3;
}

abbrev ticket_of : ℕ → TicketBody
ticket_of id = record { id = id ∷ replicate 31 0; attempt = 0 }

abbrev one_ticket : List TicketEnvelope
one_ticket = record { attempt = 0; signature = 9 ∷ [] } ∷ []

-- Each signature is good, and its output is 7 with zeros behind.
abbrev all_good : Option RingVerifier
all_good = some (λ items. some (some (7 ∷ replicate 31 0) ∷ []))

accepted_run :
    create_new_ticket_accumulator small_sizes all_good 2 2 []
      (ticket_of 5 ∷ ticket_of 8 ∷ [])
      one_ticket
    ≡ accepts (ticket_of 5 ∷ ticket_of 7 ∷ [])
unfolding create_new_ticket_accumulator accumulate_tickets sort_slice insert bytes_lt bytes_equal
    check select_tickets verify_tickets_proof verify_items collect put_ticket verify_epoch_tail
    verify_tickets_attempt verify_tickets_order verify_tickets_duplicate
    get_previous_tickets_accumulator get_slot_index get_epoch_index
accepted_run = refl

create_new_ticket_accumulator-IsAccumulated_example :
    IsAllowed small_sizes 2 one_ticket
    × ((new : List TicketBody) × (verify_tickets_proof all_good [] one_ticket ≡ accepts new)
        × IsAccumulated small_sizes new
            (get_previous_tickets_accumulator small_sizes 2 2 (ticket_of 5 ∷ ticket_of 8 ∷ []))
            (ticket_of 5 ∷ ticket_of 7 ∷ []))
create_new_ticket_accumulator-IsAccumulated_example =
    create_new_ticket_accumulator-IsAccumulated small_sizes all_good 2 2 []
      (ticket_of 5 ∷ ticket_of 8 ∷ []) one_ticket (ticket_of 5 ∷ ticket_of 7 ∷ []) accepted_run

one_ticket-IsAllowed : IsAllowed small_sizes 2 one_ticket
one_ticket-IsAllowed = record {
  lottery = λ _. omega arith;
  tail = λ h. absurd (omega (arith, h));
  attempts = (omega arith, tt);
}

one_proof : verify_tickets_proof all_good [] one_ticket ≡ accepts (ticket_of 7 ∷ [])
unfolding verify_tickets_proof verify_items collect put_ticket
one_proof = refl

kept-Increasing :
    Increasing (get_previous_tickets_accumulator small_sizes 2 2 (ticket_of 5 ∷ ticket_of 8 ∷ []))
unfolding get_previous_tickets_accumulator get_epoch_index bytes_lt
kept-Increasing = ((refl, tt), (tt, tt))

create_new_ticket_accumulator-accepts_example :
    create_new_ticket_accumulator small_sizes all_good 2 2 []
      (ticket_of 5 ∷ ticket_of 8 ∷ [])
      one_ticket
    ≡ accepts (
        take 2 (
          sort_slice (
            (ticket_of 7 ∷ [])
            ++ get_previous_tickets_accumulator small_sizes 2 2 (ticket_of 5 ∷ ticket_of 8 ∷ []))))
unfolding get_previous_tickets_accumulator get_epoch_index bytes_equal
create_new_ticket_accumulator-accepts_example =
    create_new_ticket_accumulator-accepts small_sizes all_good 2 2 []
      (ticket_of 5 ∷ ticket_of 8 ∷ []) one_ticket (ticket_of 7 ∷ []) one_ticket-IsAllowed one_proof
      (tt, tt) kept-Increasing ((refl, (refl, tt)), tt)

shuffle-IsShuffle_example :
    IsShuffle (1 ∷ 2 ∷ 3 ∷ []) (shuffle (λ _. replicate 32 7) (1 ∷ 2 ∷ 3 ∷ []) [])
shuffle-IsShuffle_example =
    shuffle-IsShuffle (λ _. replicate 32 7) (1 ∷ 2 ∷ 3 ∷ []) [] (omega arith)

outside_in_sequencer-IsSequence_example :
    IsSequence
      (ticket_of 5 ∷ ticket_of 8 ∷ [])
      (outside_in_sequencer small_sizes (ticket_of 5 ∷ ticket_of 8 ∷ []))
outside_in_sequencer-IsSequence_example =
    outside_in_sequencer-IsSequence small_sizes (ticket_of 5 ∷ ticket_of 8 ∷ []) refl

-- The lottery of an epoch of two slots ends with its second slot.
tickets_mark_example :
    (validate_header_tickets_mark small_sizes 2 3
        (ticket_of 5 ∷ ticket_of 8 ∷ [])
        (some (ticket_of 5 ∷ ticket_of 8 ∷ []))
      ≡ some true)
    ↔ (create_winning_tickets small_sizes
          (get_epoch_index small_sizes 2)
          (get_epoch_index small_sizes 3)
          (get_slot_index small_sizes 2)
          (get_slot_index small_sizes 3)
          (ticket_of 5 ∷ ticket_of 8 ∷ [])
        ≡ some (some (ticket_of 5 ∷ ticket_of 8 ∷ [])))
tickets_mark_example =
    validate_header_tickets_mark-create_winning_tickets small_sizes 2 3
      (ticket_of 5 ∷ ticket_of 8 ∷ []) (some (ticket_of 5 ∷ ticket_of 8 ∷ []))

abbrev example_validator : Validator
example_validator = record { bandersnatch = 1 ∷ []; ed25519 = 2 ∷ []; bls = 3 ∷ []; metadata = [] }

abbrev example_entropy : Entropy
example_entropy = record { eta_0 = 1 ∷ []; eta_1 = 2 ∷ []; eta_2 = 3 ∷ []; eta_3 = 4 ∷ [] }

epoch_mark_example :
    (validate_header_epoch_mark small_sizes 1 2 example_entropy (example_validator ∷ []) none
      ≡ true)
    ↔ (create_epoch_marker
          (get_epoch_index small_sizes 1)
          (get_epoch_index small_sizes 2)
          example_entropy
          (example_validator ∷ [])
        ≡ none)
epoch_mark_example =
    validate_header_epoch_mark-create_epoch_marker small_sizes 1 2 example_entropy
      (example_validator ∷ []) none refl

abbrev example_keys : Keys
example_keys = record {
  iota = example_validator ∷ [];
  gamma_k = null_validator ∷ [];
  kappa = [];
  lambda_ = [];
  gamma_z = [];
}

key_rotate-IsRotated_example :
    IsRotated
      ((2 ∷ []) ∷ [])
      example_keys
      (key_rotate ((2 ∷ []) ∷ []) 0 1 example_keys example_keys)
key_rotate-IsRotated_example =
    key_rotate-IsRotated ((2 ∷ []) ∷ []) 0 1 example_keys example_keys (omega arith)

abbrev example_pools : List Pool
example_pools = some ((1 ∷ []) ∷ (2 ∷ []) ∷ []) ∷ []

abbrev example_guarantees : List Guarantee
example_guarantees = record { core_index = 0; authorizer_hash = 1 ∷ [] } ∷ []

example_pools-HasPools : HasPools 1 example_pools (λ _. (1 ∷ []) ∷ (2 ∷ []) ∷ [])
example_pools-HasPools = (refl, one_pool)
  where
    one_pool : (c : ℕ) → c < 1 → get_elem? example_pools c ≡ some (some ((1 ∷ []) ∷ (2 ∷ []) ∷ []))
    one_pool zero h = refl
    one_pool (suc c) h = absurd (omega arith)

example_queues-HasQueues : HasQueues 1 (((3 ∷ []) ∷ []) ∷ []) (λ _. (3 ∷ []) ∷ [])
example_queues-HasQueues zero h = (refl, omega arith)
example_queues-HasQueues (suc c) h = absurd (omega arith)

stf_alpha_to_alpha_prime_example :
    (alpha' : List Pool) × (stf_alpha_to_alpha_prime 1 6 example_guarantees example_pools
        (((3 ∷ []) ∷ []) ∷ [])
      ≡ pools alpha')
    × HasPools 1 alpha'
        (λ c. next_pool c 6 example_guarantees ((1 ∷ []) ∷ (2 ∷ []) ∷ []) ((3 ∷ []) ∷ []))
stf_alpha_to_alpha_prime_example =
    stf_alpha_to_alpha_prime-next_pool 1 6 example_guarantees example_pools (((3 ∷ []) ∷ []) ∷ [])
      (λ _. (1 ∷ []) ∷ (2 ∷ []) ∷ []) (λ _. (3 ∷ []) ∷ []) example_pools-HasPools
      example_queues-HasQueues (omega arith, tt)

add_item_to_beta_h_prime_example :
    add_item_to_beta_h_prime (replicate 8 zero_block) zero_block
    ≡ drop (length (replicate 8 zero_block) + 1 - 8) (replicate 8 zero_block ++ zero_block ∷ [])
add_item_to_beta_h_prime_example =
    add_item_to_beta_h_prime-drop (replicate 8 zero_block) zero_block (omega arith)

stf_beta_h-IsNext_example :
    IsNext plain
      (replicate 8 zero_block)
      ((1 ∷ []) ∷ [])
      (4 ∷ [])
      (2 ∷ [])
      (3 ∷ [])
      ((6 ∷ [], 7 ∷ []) ∷ (5 ∷ [], 8 ∷ []) ∷ [])
      (stf_beta_h plain
        (replicate 8 zero_block)
        (some (1 ∷ []) ∷ [])
        (4 ∷ [])
        (2 ∷ [])
        (3 ∷ [])
        ((6 ∷ [], 7 ∷ []) ∷ (5 ∷ [], 8 ∷ []) ∷ []))
stf_beta_h-IsNext_example =
    stf_beta_h-IsNext plain (replicate 8 zero_block) (some (1 ∷ []) ∷ []) ((1 ∷ []) ∷ []) (4 ∷ [])
      (2 ∷ []) (3 ∷ []) ((6 ∷ [], 7 ∷ []) ∷ (5 ∷ [], 8 ∷ []) ∷ []) (omega arith) one_leaf

-- No item is verified.
abbrev example_verifier : Verifier
example_verifier = record {
  get_commitment = some (replicate 144 3);
  ring_verify_batch = λ items. some [];
}

-- The hash of everything is zero.
abbrev example_foreign : Foreign
example_foreign = record {
  sum256 = λ _. replicate 4 0;
  new_verifier = λ _ _. some example_verifier;
  vrf_ietf_output = λ _. some [];
}

abbrev full_keys : Keys
full_keys = record {
  iota = example_validator ∷ [];
  gamma_k = example_validator ∷ [];
  kappa = example_validator ∷ [];
  lambda_ = [];
  gamma_z = [];
}

abbrev example_prior : SafroleState
example_prior = record {
  tau = 1;
  eta = example_entropy;
  keys = full_keys;
  gamma_a = ticket_of 5 ∷ [];
  gamma_s = record { tickets = []; keys = [] };
}

abbrev example_posterior : SafroleState
example_posterior = record example_prior { tau = 2 }

abbrev example_input : SafroleInput
example_input = record { entropy_source = []; tickets = [] }

-- The epoch changes, and the accumulator starts anew.
abbrev example_outcome : Outcome
example_outcome = record {
  prior = example_prior;
  posterior = record example_posterior {
    eta = record { eta_0 = replicate 4 0; eta_1 = 1 ∷ []; eta_2 = 2 ∷ []; eta_3 = 3 ∷ [] };
    keys = record full_keys { lambda_ = example_validator ∷ []; gamma_z = replicate 144 3 };
    gamma_a = [];
    gamma_s = record { tickets = []; keys = (1 ∷ []) ∷ (1 ∷ []) ∷ [] };
  };
  epoch_mark =
      some (record {
        entropy = 1 ∷ [];
        tickets_entropy = 2 ∷ [];
        validators = ((1 ∷ [], 2 ∷ []) ∷ []);
      });
  tickets_mark = none;
  cache = record { epoch = 1; verifier = some example_verifier };
}

outer_run :
    outer_used_safrole example_foreign small_sizes released [] example_prior example_posterior
      example_input
    ≡ accepts example_outcome
unfolding outer_used_safrole update_entropy key_rotate replace_offender_keys validator_is_offender
    contains get_verifier cached cached_or ring stored batch_of set_commitment put_commitment
    update_eta_prime_0 unless_panic after_tickets with_marks get_epoch_index get_slot_index
    update_slot_key_sequence with_keys fallback_key_sequence fallback_loop fallback_key put_entry
    bandersnatch_of value_or_zero blake2b_hash_partial deserialize_fixed_length or_bytes
    create_new_ticket_accumulator accumulate_tickets verify_epoch_tail verify_tickets_attempt
    verify_tickets_proof verify_items collect sort_slice check select_tickets verify_tickets_order
    verify_tickets_duplicate get_previous_tickets_accumulator create_epoch_marker mark_keys
    create_winning_tickets marks_tickets
outer_run = refl

outer_used_safrole-IsSafrole_example : IsSafrole small_sizes example_prior example_outcome
outer_used_safrole-IsSafrole_example =
    outer_used_safrole-IsSafrole example_foreign small_sizes released [] example_prior
      example_posterior example_input example_outcome outer_run

no_results-IsVerifier : IsVerifier (λ _. some [])
no_results-IsVerifier items [] h = (omega arith, tt)
no_results-IsVerifier items (r ∷ results) h = absurd cc

example_verifier-IsSound : IsSound example_verifier
example_verifier-IsSound = (omega arith, no_results-IsVerifier)

example_foreign-IsReady : IsReady example_foreign small_sizes released full_keys
example_foreign-IsReady = record {
  some_validators = omega arith;
  queued = refl;
  next = refl;
  present = refl;
  new = λ _. (example_verifier, refl, example_verifier-IsSound);
  kept = λ v e. absurd cc;
}

outer_used_safrole-crashes_example :
    outer_used_safrole example_foreign small_sizes released [] example_prior example_posterior
      example_input
    ≢ crashes
outer_used_safrole-crashes_example =
    outer_used_safrole-crashes example_foreign small_sizes released [] example_prior
      example_posterior example_input (omega arith) example_foreign-IsReady

abbrev example_shape : Shape
example_shape = record {
  validators_count = 6;
  cores_count = 2;
  epoch_length = 12;
  rotation_period = 4;
}

permute-IsAssigned_example :
    (cores : List ℕ) × (permute (λ _. replicate 32 7) example_shape [] 5 ≡ some cores)
    × IsAssigned example_shape 5 cores
permute-IsAssigned_example =
    permute-IsAssigned (λ _. replicate 32 7) example_shape [] 5 (omega arith) (omega arith)
      (omega arith) (omega arith) (omega arith) (omega arith)

-- Two cores, of three validators each.
permute-count_example :
    (cores : List ℕ) × (permute (λ _. replicate 32 7) example_shape [] 5 ≡ some cores)
    × ((c : ℕ) → c < 2 → count c cores ≡ 3)
permute-count_example =
    permute-count (λ _. replicate 32 7) example_shape [] 5 3 (omega arith) (omega arith)
      (omega arith) (omega arith) (omega arith) (omega arith) refl
