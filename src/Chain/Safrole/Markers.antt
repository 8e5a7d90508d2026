-- ===== src/Chain/Safrole/Markers.antt =====
-- The markers that a block author makes are the ones that the header's checks let through.
use jam_protocol.Base.{
  and_left, and_right, ℕ, suc, ◌≡◌, ◌↔◌, refl, sym, subst, ap, ap₂, ◌∙◌, arith, Bool, true, false,
  not, ◌&&◌, Option, none, some, List, [], ◌∷◌, length, ◌==◌, ==_self, ==_iff, ltb, if◌then◌else◌,
}
use mathlib.Core.Option.{some-injective}
use jam_protocol.Chain.Tickets.{Sizes, TicketBody, bytes_equal, get_epoch_index, get_slot_index}
use jam_protocol.Chain.Tickets.Bytes.{bytes_equal_self, bytes_equal_eq}
use jam_protocol.Chain.Safrole.{
  Validator, Entropy, EpochMark, mark_keys, create_epoch_marker, same_validators,
  validate_header_epoch_mark, present_mark, create_winning_tickets, same_tickets, matches_mark,
  validate_header_tickets_mark, outside_in_sequencer,
}

same_tickets_self : (ts : List TicketBody) → same_tickets ts ts ≡ true
unfolding same_tickets
same_tickets_self [] = refl
same_tickets_self (t ∷ ts) =
    rw (bytes_equal_self t.id, ==_self t.attempt, same_tickets_self ts) refl

ticket_eq : (t k : TicketBody) → t.id ≡ k.id → t.attempt ≡ k.attempt → t ≡ k
ticket_eq t k e f = ap₂ (λ i a. record { id = i; attempt = a }) e f

same_tickets_eq :
    (ts ks : List TicketBody) → length ts ≡ length ks → same_tickets ts ks ≡ true → ts ≡ ks
unfolding same_tickets
same_tickets_eq [] [] n h = refl
same_tickets_eq [] (k ∷ ks) n h = absurd (omega arith)
same_tickets_eq (t ∷ ts) [] n h = absurd cc
same_tickets_eq (t ∷ ts) (k ∷ ks) n h =
    let a = and_left (bytes_equal t.id k.id && t.attempt == k.attempt) _ h in
    ap₂ (λ x xs. x ∷ xs)
      (ticket_eq t k (bytes_equal_eq t.id k.id (and_left (bytes_equal t.id k.id) _ a))
        ((==_iff t.attempt k.attempt).0 (and_right (bytes_equal t.id k.id) _ a)))
      (same_tickets_eq ts ks (omega arith)
        (and_right (bytes_equal t.id k.id && t.attempt == k.attempt) _ h))

matches_mark_self :
    (mark expected : List TicketBody)
    → expected ≡ mark
    → matches_mark mark (some expected) ≡ some true
unfolding matches_mark
matches_mark_self mark expected e = rw (e, ==_self (length mark), same_tickets_self mark) refl

-- A mark passes the comparison exactly if it is the one expected.
matches_mark_iff :
    (mark : List TicketBody) (expected : Option (List TicketBody))
    → (matches_mark mark expected ≡ some true) ↔ (present_mark expected ≡ some (some mark))
unfolding matches_mark present_mark
matches_mark_iff mark none = (λ h. absurd cc, λ h. absurd cc)
matches_mark_iff mark (some expected) = (
  λ h.
      let both = some-injective _ _ h in
      ap (λ t. some (some t))
        (sym (
          same_tickets_eq mark expected
            ((==_iff _ _).0 (and_left (length mark == length expected) _ both))
            (and_right (length mark == length expected) _ both))),
  λ h. matches_mark_self mark expected (some-injective _ _ (some-injective _ _ h)),
)

should_have_iff :
    (expected : Option (List TicketBody)) (b : Bool) (tm : Option (List TicketBody))
    → (elim tm as (λ o. Option Bool) [
      | none ↦ some (not b)
      | some mark ↦ (if b then matches_mark mark expected else some false)
    ]
        ≡ some true)
      ↔ ((if b then present_mark expected else some none) ≡ some tm)
unfolding present_mark
should_have_iff none true none = (λ h. absurd cc, λ h. absurd cc)
should_have_iff (some expected) true none = (λ h. absurd cc, λ h. absurd cc)
should_have_iff expected true (some mark) = matches_mark_iff mark expected
should_have_iff expected false none = (λ h. refl, λ h. refl)
should_have_iff expected false (some mark) = (λ h. absurd cc, λ h. absurd cc)

-- The header's tickets mark is let through exactly if it is the one that the author of the block
-- makes, nil included.
pub validate_header_tickets_mark-create_winning_tickets :
    (sizes : Sizes) (tau tau' : ℕ) (gamma_a : List TicketBody) (tm : Option (List TicketBody))
    → (validate_header_tickets_mark sizes tau tau' gamma_a tm ≡ some true) ↔ (
        create_winning_tickets sizes
          (get_epoch_index sizes tau)
          (get_epoch_index sizes tau')
          (get_slot_index sizes tau)
          (get_slot_index sizes tau')
          gamma_a
        ≡ some tm)
unfolding validate_header_tickets_mark create_winning_tickets
validate_header_tickets_mark-create_winning_tickets sizes tau tau' gamma_a tm =
    should_have_iff (outside_in_sequencer sizes gamma_a) _ tm

same_validators_self : (vs : List Validator) → same_validators (mark_keys vs) vs ≡ true
unfolding same_validators mark_keys
same_validators_self [] = refl
same_validators_self (v ∷ vs) =
    rw (bytes_equal_self v.bandersnatch, bytes_equal_self v.ed25519, same_validators_self vs) refl

same_validators_eq :
    (ks : List (List ℕ × List ℕ)) (vs : List Validator)
    → length vs ≡ length ks
    → same_validators ks vs ≡ true
    → mark_keys vs ≡ ks
unfolding same_validators mark_keys
same_validators_eq [] [] n h = refl
same_validators_eq [] (v ∷ vs) n h = absurd (omega arith)
same_validators_eq (k ∷ ks) [] n h = absurd (omega arith)
same_validators_eq ((b, k) ∷ ks) (v ∷ vs) n h =
    let both = and_left (bytes_equal b v.bandersnatch && bytes_equal k v.ed25519) _ h in
    ap₂ (λ x xs. x ∷ xs)
      (ap₂ (λ x y. (x, y))
        (sym (bytes_equal_eq b _ (and_left (bytes_equal b v.bandersnatch) _ both)))
        (sym (bytes_equal_eq k _ (and_right (bytes_equal b v.bandersnatch) _ both))))
      (same_validators_eq ks vs (omega arith)
        (and_right (bytes_equal b v.bandersnatch && bytes_equal k v.ed25519) _ h))

length-mark_keys : (vs : List Validator) → length (mark_keys vs) ≡ length vs
unfolding mark_keys
length-mark_keys [] = refl
length-mark_keys (v ∷ vs) = ap suc (length-mark_keys vs)

parts :
    (a b c d e : Bool)
    → (true && (a && b) && c && d && e) ≡ true
    → (a ≡ true) × (b ≡ true) × (d ≡ true) × (e ≡ true)
parts true true c true true h = (refl, refl, refl, refl)
parts true true true true false h = absurd cc
parts true true true false e h = absurd cc
parts true true false d e h = absurd cc
parts true false c d e h = absurd cc
parts false b c d e h = absurd cc

quiet : (b c : Bool) → c ≡ true → not (b && not c) ≡ true
quiet true c h = rw h refl
quiet false c h = refl

-- The checks of a mark that is there, after a change of epoch.
abbrev checks : Sizes → Entropy → List Validator → EpochMark → Bool
checks sizes eta gamma_k' em =
    true
    && (bytes_equal em.entropy eta.eta_0 && bytes_equal em.tickets_entropy eta.eta_1)
    && not (ltb 0 sizes.validators_count && not (length em.validators == sizes.validators_count))
    && (length gamma_k' == length em.validators)
    && same_validators em.validators gamma_k'

abbrev marker : Entropy → List Validator → EpochMark
marker eta gamma_k' = record {
  entropy = eta.eta_0;
  tickets_entropy = eta.eta_1;
  validators = mark_keys gamma_k';
}

mark_eq :
    (a b : EpochMark)
    → a.entropy ≡ b.entropy
    → a.tickets_entropy ≡ b.tickets_entropy
    → a.validators ≡ b.validators
    → a ≡ b
mark_eq a b e f g =
    ap₂ (λ x y. record { entropy = x; tickets_entropy = y; validators = a.validators }) e f
    ∙ ap (λ z. record b { validators = z }) g

checks-marker :
    (sizes : Sizes) (eta : Entropy) (gamma_k' : List Validator)
    → length gamma_k' ≡ sizes.validators_count
    → checks sizes eta gamma_k' (marker eta gamma_k') ≡ true
checks-marker sizes eta gamma_k' size =
    rw
      (
        bytes_equal_self eta.eta_0,
        bytes_equal_self eta.eta_1,
        same_validators_self gamma_k',
        quiet (ltb 0 sizes.validators_count) _ ((==_iff _ _).1 (length-mark_keys gamma_k' ∙ size)),
        (==_iff _ _).1 (sym (length-mark_keys gamma_k')),
      )
      refl

epoch_mark_iff :
    (sizes : Sizes) (eta : Entropy) (gamma_k' : List Validator) (b : Bool) (em : EpochMark)
    → length gamma_k' ≡ sizes.validators_count
    → ((b
          && (bytes_equal em.entropy eta.eta_0 && bytes_equal em.tickets_entropy eta.eta_1)
          && not
              (ltb 0 sizes.validators_count && not (length em.validators == sizes.validators_count))
          && (length gamma_k' == length em.validators)
          && same_validators em.validators gamma_k')
        ≡ true)
      ↔ ((if b then some (marker eta gamma_k') else none) ≡ some em)
epoch_mark_iff sizes eta gamma_k' false em size = (λ h. absurd cc, λ h. absurd cc)
epoch_mark_iff sizes eta gamma_k' true em size = (
  λ h.
      let (a, b, d, e) = parts _ _ _ _ _ h in
      ap some (
        mark_eq (marker eta gamma_k') em (sym (bytes_equal_eq _ _ a)) (sym (bytes_equal_eq _ _ b))
          (same_validators_eq em.validators gamma_k' ((==_iff _ _).0 d) e)),
  λ h.
      subst (λ m. checks sizes eta gamma_k' m ≡ true) (some-injective _ _ h)
        (checks-marker sizes eta gamma_k' size),
)

-- In an epoch with the protocol's number of validators, the header's epoch mark is let through exactly
-- if it is the one that the author of the block makes, nil included.
pub validate_header_epoch_mark-create_epoch_marker :
    (sizes : Sizes) (tau slot : ℕ) (eta : Entropy) (gamma_k' : List Validator)
    (em : Option EpochMark)
    → length gamma_k' ≡ sizes.validators_count
    → (validate_header_epoch_mark sizes tau slot eta gamma_k' em ≡ true) ↔ (
        create_epoch_marker (get_epoch_index sizes tau) (get_epoch_index sizes slot) eta gamma_k'
        ≡ em)
unfolding validate_header_epoch_mark create_epoch_marker
validate_header_epoch_mark-create_epoch_marker sizes tau slot eta gamma_k' none size = no_mark _ _
  where
    no_mark : (b : Bool) (m : EpochMark) → (not b ≡ true) ↔ ((if b then some m else none) ≡ none)
    no_mark true m = (λ h. absurd cc, λ h. absurd cc)
    no_mark false m = (λ h. refl, λ h. refl)
validate_header_epoch_mark-create_epoch_marker sizes tau slot eta gamma_k' (some em) size =
    epoch_mark_iff sizes eta gamma_k' _ em size
