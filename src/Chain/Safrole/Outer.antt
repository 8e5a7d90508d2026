-- ===== src/Chain/Safrole/Outer.antt =====
-- `OuterUsedSafrole` of internal/safrole/safrole.go, and `UpdateEtaPrime0` of sealing.go. The ring
-- verifier, its commitment and the output of a VRF signature are parameters.
use jam_protocol.Base.{
  ℕ, Bool, true, false, Option, none, some, List, [], ◌∷◌, ◌++◌, length, take, ltb, leb,
  if◌then◌else◌,
}
use jam_protocol.Chain.Tickets.{
  Sizes, TicketEnvelope, TicketBody, bad_slot, Verdict, accepts, rejects, crashes, get_epoch_index,
  get_slot_index, create_new_ticket_accumulator,
}
use jam_protocol.Chain.Verifier.{Verifier, NewVerifier, RingVerifierCache, get_verifier, batch_of}
use jam_protocol.Chain.Safrole.{
  Entropy, Keys, EpochMark, TicketsOrKeys, key_rotate, update_entropy, update_slot_key_sequence,
  create_winning_tickets, create_epoch_marker,
}

-- What Safrole reads and sets of a state.
pub record SafroleState : Type 0 where
  pub tau : ℕ
  pub eta : Entropy
  pub keys : Keys
  pub gamma_a : List TicketBody
  pub gamma_s : TicketsOrKeys

-- The block's part: the entropy source of its header and its tickets.
pub record SafroleInput : Type 0 where
  pub entropy_source : List ℕ
  pub tickets : List TicketEnvelope

-- The states, the marks and the verifiers' cache after it. The prior state is written to by the rotation of the keys.
pub record Outcome : Type 0 where
  pub prior : SafroleState
  pub posterior : SafroleState
  pub epoch_mark : Option EpochMark
  pub tickets_mark : Option (List TicketBody)
  pub cache : RingVerifierCache

-- The hash, the ring verifiers and the outputs of signatures.
pub record Foreign : Type 0 where
  pub sum256 : List ℕ → List ℕ
  pub new_verifier : NewVerifier
  pub vrf_ietf_output : List ℕ → Option (List ℕ)

-- An error, or a commitment of no bytes, is only logged. `types.BandersnatchRingCommitment(commitment)`
-- is a run-time panic, here `none`, for fewer than 144 bytes, and takes the first 144.
unfoldable pub put_commitment : Option (List ℕ) → Keys → Option Keys
put_commitment none keys = some keys
put_commitment (some []) keys = some keys
put_commitment (some (b ∷ bytes)) keys =
    if ltb (length (b ∷ bytes)) 144
    then none
    else some (record keys { gamma_z = take 144 (b ∷ bytes) })

-- After a change of epoch the commitment of the verifier is asked for, of nil too.
unfoldable pub set_commitment : Bool → Option Verifier → Keys → Option Keys
unfolding put_commitment
set_commitment false verifier keys = some keys
set_commitment true none keys = none
set_commitment true (some v) keys = put_commitment v.get_commitment keys

-- `UpdateEtaPrime0`; an error is only logged.
unfoldable pub update_eta_prime_0 : (List ℕ → List ℕ) → Option (List ℕ) → List ℕ → Entropy → Entropy
update_eta_prime_0 sum256 none eta_0 eta' = eta'
update_eta_prime_0 sum256 (some vrf_output) eta_0 eta' = record eta' {
  eta_0 = sum256 (eta_0 ++ vrf_output);
}

-- The tickets mark and the end.
unfoldable pub with_marks :
    SafroleState
    → SafroleState
    → Option EpochMark
    → RingVerifierCache
    → Option (Option (List TicketBody))
    → Verdict Outcome
with_marks prior posterior epoch_mark cache none = crashes
with_marks prior posterior epoch_mark cache (some tickets_mark) = accepts (record {
  prior = prior;
  posterior = posterior;
  epoch_mark = epoch_mark;
  tickets_mark = tickets_mark;
  cache = cache;
})

unfoldable pub after_tickets :
    Verdict (List TicketBody) → (List TicketBody → Verdict Outcome) → Verdict Outcome
after_tickets (accepts gamma_a') next = next gamma_a'
after_tickets (rejects e) next = rejects e
after_tickets crashes next = crashes

-- `none` is a run-time panic.
unfoldable pub unless_panic : {A : Type 0} → Option A → (A → Verdict Outcome) → Verdict Outcome
unless_panic none next = crashes
unless_panic (some a) next = next a

-- The error of `GetVerifier` is only logged: the verifier goes on as nil. `offenders` and the posterior
-- slot are in the posterior state before.
unfoldable pub outer_used_safrole :
    Foreign
    → Sizes
    → RingVerifierCache
    → List (List ℕ)
    → SafroleState
    → SafroleState
    → SafroleInput
    → Verdict Outcome
outer_used_safrole f sizes cache offenders prior posterior input =
    let e = get_epoch_index sizes prior.tau in
    let m = get_slot_index sizes prior.tau in
    let e' = get_epoch_index sizes posterior.tau in
    let m' = get_slot_index sizes posterior.tau in
    let shifted = update_entropy e e' prior.eta posterior.eta.eta_0 in
    let rotated = key_rotate offenders e e' prior.keys posterior.keys in
    let ring_verifier = get_verifier f.new_verifier sizes cache e' rotated.1.gamma_k in
    let eta' =
      update_eta_prime_0 f.sum256 (f.vrf_ietf_output input.entropy_source) prior.eta.eta_0
        shifted in
    if leb posterior.tau prior.tau
    then rejects bad_slot
    else unless_panic
        (update_slot_key_sequence f.sum256 sizes e e' m prior.gamma_a prior.gamma_s shifted.eta_2
          rotated.1.kappa)
        (λ gamma_s'. unless_panic (set_commitment (ltb e e') ring_verifier.0 rotated.1) (λ keys'.
          after_tickets
            (create_new_ticket_accumulator sizes (batch_of ring_verifier.0) prior.tau posterior.tau
              eta'.eta_2 prior.gamma_a input.tickets)
            (λ gamma_a'.
              with_marks (record prior { keys = rotated.0 })
                (record posterior {
                  eta = eta';
                  keys = keys';
                  gamma_a = gamma_a';
                  gamma_s = gamma_s';
                })
                (create_epoch_marker e e' prior.eta keys'.gamma_k) ring_verifier.1
                (create_winning_tickets sizes e e' m m' prior.gamma_a))))
