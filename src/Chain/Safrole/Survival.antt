-- ===== src/Chain/Safrole/Survival.antt =====
-- No block makes the steps of Safrole end in a run-time panic.
use jam_protocol.Base.{
  ℕ, ◌<◌, ◌≤◌, ◌≡◌, ◌≢◌, ◌∙◌, refl, subst, arith, Bool, true, false, Option, none, some, List, [],
  ◌∷◌, length, ltb, leb, ◌==◌, ==_iff,
}
use jam_protocol.Chain.Tickets.{
  Sizes, TicketBody, TicketEnvelope, bad_slot, Verdict, accepts, rejects, crashes, get_epoch_index,
  create_new_ticket_accumulator,
}
use jam_protocol.Chain.Verifier.{
  Verifier, NewVerifier, RingVerifierCache, cached, cached_or, ring, stored, get_verifier, batch_of,
}
use jam_protocol.Chain.Safrole.Rotation.{length-replace_offender_keys}
use jam_protocol.Chain.Safrole.{Validator, Keys, EpochMark, key_rotate}
use jam_protocol.Chain.Safrole.Outer.{
  SafroleState, SafroleInput, Outcome, Foreign, with_marks, after_tickets, unless_panic,
  put_commitment, set_commitment, outer_used_safrole,
}
use jam_protocol.Chain.Safrole.Total.{
  IsThere, Survives, either, IsVerifier, update_slot_key_sequence-IsThere,
  create_winning_tickets-IsThere, create-Survives,
}

length-kappa :
    (offenders : List (List ℕ)) (e e' n : ℕ) (prior posterior : Keys)
    → length prior.gamma_k ≡ n
    → length prior.kappa ≡ n
    → length (key_rotate offenders e e' prior posterior).1.kappa ≡ n
unfolding key_rotate
length-kappa offenders e e' n prior posterior h k =
    either (λ (p : Keys × Keys). length p.1.kappa ≡ n) (ltb e e') _ _ (λ _. h) (λ _. k)

length-gamma_k :
    (offenders : List (List ℕ)) (e e' n : ℕ) (prior posterior : Keys)
    → length prior.iota ≡ n
    → length prior.gamma_k ≡ n
    → length (key_rotate offenders e e' prior posterior).1.gamma_k ≡ n
unfolding key_rotate
length-gamma_k offenders e e' n prior posterior h k =
    either (λ (p : Keys × Keys). length p.1.gamma_k ≡ n) (ltb e e') _ _
      (λ _. length-replace_offender_keys offenders prior.iota ∙ h) (λ _. k)

-- An error, no bytes, or the 144 bytes of a commitment.
abbrev IsCommitment : Option (List ℕ) → Type 0
IsCommitment none = Unit
IsCommitment (some []) = Unit
IsCommitment (some (b ∷ bytes)) = 144 ≤ length (b ∷ bytes)

abbrev pub IsSound : Verifier → Type 0
IsSound v = IsCommitment v.get_commitment × IsVerifier v.ring_verify_batch

-- A verifier is made for every ring of `n` keys.
abbrev pub IsNew : NewVerifier → ℕ → Type 0
IsNew new_verifier n =
    (bytes : List ℕ) → (v : Verifier) × (new_verifier bytes n ≡ some v) × IsSound v

abbrev pub IsCache : RingVerifierCache → Type 0
IsCache cache = (v : Verifier) → cache.verifier ≡ some v → IsSound v

-- The verifier is there, and sound.
abbrev IsFor : Option Verifier → Type 0
IsFor none = ⊥
IsFor (some v) = IsSound v

cached_or-IsFor :
    (o : Option Verifier) (cache : RingVerifierCache) (made : Option Verifier × RingVerifierCache)
    → ((v : Verifier) → o ≡ some v → IsSound v)
    → IsFor made.0
    → IsFor (cached_or o cache made).0
unfolding cached_or
cached_or-IsFor none cache made h k = k
cached_or-IsFor (some v) cache made h k = h v refl

cached-IsSound :
    (cache : RingVerifierCache) (epoch : ℕ)
    → IsCache cache
    → (v : Verifier) → cached cache epoch ≡ some v
    → IsSound v
unfolding cached
cached-IsSound cache epoch ok =
    either (λ (o : Option Verifier). (v : Verifier) → o ≡ some v → IsSound v) (cache.epoch == epoch)
      cache.verifier none (λ _. ok) (λ _ v e. absurd cc)

get_verifier-IsFor :
    (new_verifier : NewVerifier) (sizes : Sizes) (cache : RingVerifierCache) (epoch : ℕ)
    (gamma_k : List Validator)
    → length gamma_k ≡ sizes.validators_count
    → IsNew new_verifier sizes.validators_count
    → IsCache cache
    → IsFor (get_verifier new_verifier sizes cache epoch gamma_k).0
unfolding get_verifier stored
get_verifier-IsFor new_verifier sizes cache epoch gamma_k size new ok =
    let (v, made, sound) = new (ring gamma_k) in
    rw ((==_iff (length gamma_k) sizes.validators_count).1 size, size, made)
      (cached_or-IsFor (cached cache epoch) cache _ (cached-IsSound cache epoch ok) sound)

-- The same of a step and of what it is given.
record IsFound {ℓ} {A : Type ℓ} (o : Option A) : Type 0 where
  found : IsThere o

record IsSafe {ℓ} {A : Type ℓ} (v : Verdict A) : Type 0 where
  safe : Survives v

put_commitment-IsThere :
    (o : Option (List ℕ)) (keys : Keys) → IsCommitment o → IsThere (put_commitment o keys)
unfolding put_commitment
put_commitment-IsThere none keys h = tt
put_commitment-IsThere (some []) keys h = tt
put_commitment-IsThere (some (b ∷ bytes)) keys h =
    either IsThere (ltb (length (b ∷ bytes)) 144) none _ (λ e. ground arith) (λ _. tt)

set_commitment-IsThere :
    (b : Bool) (o : Option Verifier) (keys : Keys) → IsFor o → IsThere (set_commitment b o keys)
unfolding set_commitment
set_commitment-IsThere false o keys h = tt
set_commitment-IsThere true none keys h = h
set_commitment-IsThere true (some v) keys h = put_commitment-IsThere v.get_commitment keys h.0

batch_of-Survives :
    (sizes : Sizes) (o : Option Verifier) (tau tau' : ℕ) (eta_2 : List ℕ)
    (gamma_a : List TicketBody) (tickets : List TicketEnvelope)
    → IsFor o
    → Survives (create_new_ticket_accumulator sizes (batch_of o) tau tau' eta_2 gamma_a tickets)
unfolding batch_of
batch_of-Survives sizes none tau tau' eta_2 gamma_a tickets h = absurd h
batch_of-Survives sizes (some v) tau tau' eta_2 gamma_a tickets h =
    create-Survives sizes v.ring_verify_batch tau tau' eta_2 gamma_a tickets h.1

unless_panic-IsSafe :
    {A : Type 0} (o : Option A) (next : A → Verdict Outcome)
    → IsFound o
    → ((a : A) → IsSafe (next a))
    → IsSafe (unless_panic o next)
unfolding unless_panic
unless_panic-IsSafe none next h k = absurd h.found
unless_panic-IsSafe (some a) next h k = k a

after_tickets-IsSafe :
    (v : Verdict (List TicketBody)) (next : List TicketBody → Verdict Outcome)
    → IsSafe v
    → ((gamma : List TicketBody) → IsSafe (next gamma))
    → IsSafe (after_tickets v next)
unfolding after_tickets
after_tickets-IsSafe (accepts gamma) next h k = k gamma
after_tickets-IsSafe (rejects e) next h k = record { safe = tt }
after_tickets-IsSafe crashes next h k = absurd h.safe

with_marks-IsSafe :
    (prior posterior : SafroleState) (em : Option EpochMark) (cache : RingVerifierCache)
    (tm : Option (Option (List TicketBody)))
    → IsFound tm
    → IsSafe (with_marks prior posterior em cache tm)
unfolding with_marks
with_marks-IsSafe prior posterior em cache none h = absurd h.found
with_marks-IsSafe prior posterior em cache (some mark) h = record { safe = tt }

-- What the steps are given: validators as many as the protocol's, and sound verifiers.
pub record IsReady (f : Foreign) (sizes : Sizes) (cache : RingVerifierCache) (keys : Keys)
    : Type 0 where
  pub some_validators : 0 < sizes.validators_count
  pub queued : length keys.iota ≡ sizes.validators_count
  pub next : length keys.gamma_k ≡ sizes.validators_count
  pub present : length keys.kappa ≡ sizes.validators_count
  pub new : IsNew f.new_verifier sizes.validators_count
  pub kept : IsCache cache

outer_used_safrole-IsSafe :
    (f : Foreign) (sizes : Sizes) (cache : RingVerifierCache) (offenders : List (List ℕ))
    (prior posterior : SafroleState) (input : SafroleInput)
    → IsReady f sizes cache prior.keys
    → IsSafe (outer_used_safrole f sizes cache offenders prior posterior input)
unfolding outer_used_safrole
outer_used_safrole-IsSafe f sizes cache offenders prior posterior input ready =
    let verifier =
      get_verifier-IsFor f.new_verifier sizes cache _ _
        (length-gamma_k offenders (get_epoch_index sizes prior.tau)
          (get_epoch_index sizes posterior.tau) sizes.validators_count prior.keys posterior.keys
          ready.queued ready.next)
        ready.new ready.kept in
    either (λ (v : Verdict Outcome). IsSafe v) (leb posterior.tau prior.tau) (rejects bad_slot) _
      (λ _. record { safe = tt })
      λ _.
        unless_panic-IsSafe _ _
          (record {
            found =
                update_slot_key_sequence-IsThere f.sum256 sizes _ _
                  (length-kappa offenders _ _ sizes.validators_count prior.keys posterior.keys
                    ready.next ready.present)
                  ready.some_validators _ _ _ _ _;
          })
          λ gamma_s'.
            unless_panic-IsSafe _ _ (record { found = set_commitment-IsThere _ _ _ verifier })
              λ keys'.
                after_tickets-IsSafe _ _
                  (record { safe = batch_of-Survives sizes _ _ _ _ _ _ verifier })
                  λ gamma_a'.
                    with_marks-IsSafe _ _ _ _ _
                      (record { found = create_winning_tickets-IsThere sizes _ _ _ _ _ })

-- With epochs of at least one slot, where the queued, the next and the present validators are as many as
-- the protocol's, of which there is at least one, and a sound ring verifier is made for every ring of as
-- many keys, and is in the cache if one is there, no block makes the steps of Safrole end in a run-time
-- panic. A verifier is sound if it gives no more results than it is given items, outputs of at least 32
-- bytes, and a commitment of at least 144 bytes, or an error or no bytes for it.
pub outer_used_safrole-crashes :
    (f : Foreign) (sizes : Sizes) (cache : RingVerifierCache) (offenders : List (List ℕ))
    (prior posterior : SafroleState) (input : SafroleInput)
    → 0 < sizes.epoch_length
    → IsReady f sizes cache prior.keys
    → outer_used_safrole f sizes cache offenders prior posterior input ≢ crashes
outer_used_safrole-crashes f sizes cache offenders prior posterior input slots ready e =
    subst (λ (v : Verdict Outcome). Survives v) e
      (outer_used_safrole-IsSafe f sizes cache offenders prior posterior input ready).safe
