-- ===== src/Chain/Safrole/Composed.antt =====
-- What an accepted block does to the state of Safrole, through all its steps.
use jam_protocol.Base.{
  ℕ, ◌≤◌, ◌<◌, ◌≡◌, refl, ap, subst, arith, Bool, true, false, Option, none, some, List, length,
  lt→ltb, leb, if◌then◌else◌,
}
use jam_protocol.Chain.Tickets.{
  Sizes, TicketBody, bad_slot, Verdict, accepts, rejects, crashes, get_epoch_index,
}
use jam_protocol.Chain.Tickets.Order.{Increasing}
use jam_protocol.Chain.Tickets.Accumulator.{create_new_ticket_accumulator-length}
use jam_protocol.Chain.Safrole.{
  Entropy, EpochMark, update_entropy, validate_header_tickets_mark, validate_header_epoch_mark,
}
use jam_protocol.Chain.Safrole.Markers.{
  validate_header_tickets_mark-create_winning_tickets,
  validate_header_epoch_mark-create_epoch_marker,
}
use jam_protocol.Chain.Verifier.{RingVerifierCache}
use jam_protocol.Chain.Safrole.Outer.{
  SafroleState, SafroleInput, Outcome, Foreign, update_eta_prime_0, with_marks, after_tickets,
  unless_panic, outer_used_safrole,
}

-- What holds of the outcome, if there is one.
record Accepted (P : Outcome → Type 0) (v : Verdict Outcome) : Type 0 where
  holds : (o : Outcome) → v ≡ accepts o → P o

outcome_or : Outcome → Verdict Outcome → Outcome
outcome_or other (accepts o) = o
outcome_or other (rejects e) = other
outcome_or other crashes = other

accepts_eq : (o o' : Outcome) → accepts o ≡ accepts o' → o ≡ o'
unfolding outcome_or
accepts_eq o o' e = ap (outcome_or o) e

with_marks-Accepted :
    (P : Outcome → Type 0) (prior posterior : SafroleState) (em : Option EpochMark)
    (cache : RingVerifierCache) (tm : Option (Option (List TicketBody)))
    → ((mark : Option (List TicketBody))
        → tm ≡ some mark
        → P (record {
          prior = prior;
          posterior = posterior;
          epoch_mark = em;
          tickets_mark = mark;
          cache = cache;
        }))
    → Accepted P (with_marks prior posterior em cache tm)
unfolding with_marks
with_marks-Accepted P prior posterior em cache none k = record { holds = λ o e. absurd cc }
with_marks-Accepted P prior posterior em cache (some mark) k = record {
  holds = λ o e. subst P (accepts_eq _ o e) (k mark refl);
}

after_tickets-Accepted :
    (P : Outcome → Type 0) (v : Verdict (List TicketBody))
    (next : List TicketBody → Verdict Outcome)
    → ((gamma : List TicketBody) → v ≡ accepts gamma → Accepted P (next gamma))
    → Accepted P (after_tickets v next)
unfolding after_tickets
after_tickets-Accepted P (accepts gamma) next k = k gamma refl
after_tickets-Accepted P (rejects e) next k = record { holds = λ o e'. absurd cc }
after_tickets-Accepted P crashes next k = record { holds = λ o e. absurd cc }

unless_panic-Accepted :
    {A : Type 0} (P : Outcome → Type 0) (o : Option A) (next : A → Verdict Outcome)
    → ((a : A) → Accepted P (next a))
    → Accepted P (unless_panic o next)
unfolding unless_panic
unless_panic-Accepted P none next k = record { holds = λ o e. absurd cc }
unless_panic-Accepted P (some a) next k = k a

-- The slot moves on; the ticket accumulator is in order and has at most as many tickets as the epoch has
-- slots; the older entropies move on with the epoch; and the marks that the block is given pass the
-- checks of its header.
pub record IsSafrole (sizes : Sizes) (prior : SafroleState) (o : Outcome) : Type 0 where
  pub later : prior.tau < o.posterior.tau
  pub fits : length o.posterior.gamma_a ≤ sizes.epoch_length
  pub ordered : Increasing o.posterior.gamma_a
  pub moved :
      get_epoch_index sizes prior.tau < get_epoch_index sizes o.posterior.tau
      → (o.posterior.eta.eta_1 ≡ prior.eta.eta_0)
        × (o.posterior.eta.eta_2 ≡ prior.eta.eta_1)
        × (o.posterior.eta.eta_3 ≡ prior.eta.eta_2)
  pub tickets_mark :
      validate_header_tickets_mark sizes prior.tau o.posterior.tau prior.gamma_a o.tickets_mark
      ≡ some true
  pub epoch_mark :
      length o.posterior.keys.gamma_k ≡ sizes.validators_count
      → validate_header_epoch_mark sizes prior.tau o.posterior.tau prior.eta
          o.posterior.keys.gamma_k o.epoch_mark
        ≡ true

update_entropy-moved :
    (e e' : ℕ) (eta : Entropy) (eta_0 : List ℕ) (sum256 : List ℕ → List ℕ) (out : Option (List ℕ))
    (old : List ℕ)
    → e < e'
    → ((update_eta_prime_0 sum256 out old (update_entropy e e' eta eta_0)).eta_1 ≡ eta.eta_0)
      × ((update_eta_prime_0 sum256 out old (update_entropy e e' eta eta_0)).eta_2 ≡ eta.eta_1)
      × ((update_eta_prime_0 sum256 out old (update_entropy e e' eta eta_0)).eta_3 ≡ eta.eta_2)
unfolding update_eta_prime_0 update_entropy
update_entropy-moved e e' eta eta_0 sum256 none old h = rw (lt→ltb e e' h) (refl, refl, refl)
update_entropy-moved e e' eta eta_0 sum256 (some v) old h = rw (lt→ltb e e' h) (refl, refl, refl)

in_time :
    (tau tau' : ℕ) (P : Outcome → Type 0) (v : Verdict Outcome)
    → (tau < tau' → Accepted P v)
    → Accepted P (if leb tau' tau then rejects bad_slot else v)
in_time tau tau' P v k = by_time (leb tau' tau) refl
  where
    by_time : (b : Bool) → leb tau' tau ≡ b → Accepted P (if b then rejects bad_slot else v)
    by_time true e = record { holds = λ o e'. absurd cc }
    by_time false e = k (ground arith)

outer_used_safrole-Accepted :
    (f : Foreign) (sizes : Sizes) (cache : RingVerifierCache) (offenders : List (List ℕ))
    (prior posterior : SafroleState) (input : SafroleInput)
    → Accepted
        (IsSafrole sizes prior)
        (outer_used_safrole f sizes cache offenders prior posterior input)
unfolding outer_used_safrole
outer_used_safrole-Accepted f sizes cache offenders prior posterior input =
    in_time prior.tau posterior.tau (IsSafrole sizes prior) _ λ later.
      unless_panic-Accepted (IsSafrole sizes prior) _ _ λ gamma_s'.
        unless_panic-Accepted (IsSafrole sizes prior) _ _ λ keys'.
          after_tickets-Accepted (IsSafrole sizes prior) _ _ λ gamma_a' is_gamma.
            with_marks-Accepted (IsSafrole sizes prior) _ _ _ _ _ λ mark is_mark. record {
              later = later;
              fits = (create_new_ticket_accumulator-length sizes _ _ _ _ _ _ gamma_a' is_gamma).0;
              ordered =
                  (create_new_ticket_accumulator-length sizes _ _ _ _ _ _ gamma_a' is_gamma).1;
              moved = λ h. update_entropy-moved _ _ prior.eta _ f.sum256 _ _ h;
              tickets_mark =
                  (validate_header_tickets_mark-create_winning_tickets sizes prior.tau posterior.tau
                      prior.gamma_a mark).1
                    is_mark;
              epoch_mark = λ size.
                  (validate_header_epoch_mark-create_epoch_marker sizes prior.tau posterior.tau
                      prior.eta _ _ size).1
                    refl;
            }

-- Where a block is accepted, its slot is later than the prior one; the new ticket accumulator has at most
-- as many tickets as an epoch has slots, in increasing order; if the epoch changes, the older entropies
-- are the prior ones moved on by one place; the tickets mark passes the check of the header's; and, with
-- the protocol's number of validators, so does the epoch mark.
pub outer_used_safrole-IsSafrole :
    (f : Foreign) (sizes : Sizes) (cache : RingVerifierCache) (offenders : List (List ℕ))
    (prior posterior : SafroleState) (input : SafroleInput) (o : Outcome)
    → outer_used_safrole f sizes cache offenders prior posterior input ≡ accepts o
    → IsSafrole sizes prior o
outer_used_safrole-IsSafrole f sizes cache offenders prior posterior input =
    (outer_used_safrole-Accepted f sizes cache offenders prior posterior input).holds
