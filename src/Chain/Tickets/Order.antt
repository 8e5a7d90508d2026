-- ===== src/Chain/Tickets/Order.antt =====
-- Byte strings are in a strict total order, and sorting by it puts the tickets in this order.
use jam_protocol.Base.{
  ℕ, ◌≡◌, refl, arith, Bool, true, false, List, [], ◌∷◌, All, if◌then◌else◌, none, some,
}
use mathlib.Core.List.{Permᴰ}
use mathlib.Core.List.Permᴰ
use jam_protocol.Chain.Tickets.{
  TicketBody, ErrorCode, bytes_lt, bytes_equal, insert, sort_slice, verify_tickets_order,
  verify_tickets_duplicate,
}

bytes_lt_trans : (a b c : List ℕ) → bytes_lt a b ≡ true → bytes_lt b c ≡ true → bytes_lt a c ≡ true
unfolding bytes_lt
bytes_lt_trans [] [] c h k = absurd cc
bytes_lt_trans [] (y ∷ ys) [] h k = absurd cc
bytes_lt_trans [] (y ∷ ys) (z ∷ zs) h k = refl
bytes_lt_trans (x ∷ xs) [] c h k = absurd cc
bytes_lt_trans (x ∷ xs) (y ∷ ys) [] h k = absurd cc
bytes_lt_trans (x ∷ xs) (y ∷ ys) (z ∷ zs) h k = let ih = bytes_lt_trans xs ys zs in ground arith

pub bytes_lt_asymm : (a b : List ℕ) → bytes_lt a b ≡ true → bytes_lt b a ≡ false
unfolding bytes_lt
bytes_lt_asymm [] [] h = refl
bytes_lt_asymm [] (y ∷ ys) h = refl
bytes_lt_asymm (x ∷ xs) [] h = absurd cc
bytes_lt_asymm (x ∷ xs) (y ∷ ys) h = let ih = bytes_lt_asymm xs ys in ground arith

bytes_lt_total :
    (a b : List ℕ) → bytes_lt b a ≡ false → bytes_equal a b ≡ false → bytes_lt a b ≡ true
unfolding bytes_lt bytes_equal
bytes_lt_total [] [] h k = absurd cc
bytes_lt_total [] (y ∷ ys) h k = refl
bytes_lt_total (x ∷ xs) [] h k = absurd cc
bytes_lt_total (x ∷ xs) (y ∷ ys) h k = let ih = bytes_lt_total xs ys in ground arith

abbrev pub Precedes : TicketBody → TicketBody → Type 0
Precedes t k = bytes_lt t.id k.id ≡ true

-- Each ticket comes before all that follow it.
abbrev pub Increasing : List TicketBody → Type 0
Increasing [] = Unit
Increasing (t ∷ rest) = All (Precedes t) rest × Increasing rest

-- No ticket comes before the one that it follows.
abbrev pub Ordered : List TicketBody → Type 0
Ordered [] = Unit
Ordered (t ∷ []) = Unit
Ordered (t ∷ k ∷ rest) = (bytes_lt k.id t.id ≡ false) × Ordered (k ∷ rest)

All-Precedes_trans :
    (t k : TicketBody) (rest : List TicketBody)
    → Precedes t k
    → All (Precedes k) rest
    → All (Precedes t) rest
All-Precedes_trans t k [] h hs = tt
All-Precedes_trans t k (x ∷ rest) h hs =
    (bytes_lt_trans t.id k.id x.id h hs.0, All-Precedes_trans t k rest h hs.1)

-- In an order without duplicates each ticket comes before the others.
pub verify_tickets_duplicate-Increasing :
    (tickets : List TicketBody)
    → Ordered tickets
    → verify_tickets_duplicate tickets ≡ none
    → Increasing tickets
unfolding verify_tickets_duplicate
verify_tickets_duplicate-Increasing [] h e = tt
verify_tickets_duplicate-Increasing (t ∷ []) h e = (tt, tt)
verify_tickets_duplicate-Increasing (t ∷ k ∷ rest) (h, hs) e =
    by_equal (bytes_equal t.id k.id) refl
      (λ e'. verify_tickets_duplicate-Increasing (k ∷ rest) hs e') e
  where
    by_equal :
        (b : Bool)
        → bytes_equal t.id k.id ≡ b
        → (verify_tickets_duplicate (k ∷ rest) ≡ none → Increasing (k ∷ rest))
        → (if b then some ErrorCode.duplicate_ticket else verify_tickets_duplicate (k ∷ rest))
          ≡ none
        → Increasing (t ∷ k ∷ rest)
    by_equal true is_b rec e = absurd cc
    by_equal false is_b rec e =
        let first = bytes_lt_total t.id k.id h is_b in
        let after = rec e in ((first, All-Precedes_trans t k rest first after.0), after)

pub verify_tickets_order-Ordered :
    (tickets : List TicketBody) → verify_tickets_order tickets ≡ none → Ordered tickets
unfolding verify_tickets_order
verify_tickets_order-Ordered [] e = tt
verify_tickets_order-Ordered (t ∷ []) e = tt
verify_tickets_order-Ordered (t ∷ k ∷ rest) e =
    by_less (bytes_lt k.id t.id) refl (λ e'. verify_tickets_order-Ordered (k ∷ rest) e') e
  where
    by_less :
        (b : Bool)
        → bytes_lt k.id t.id ≡ b
        → (verify_tickets_order (k ∷ rest) ≡ none → Ordered (k ∷ rest))
        → (if b then some ErrorCode.bad_ticket_order else verify_tickets_order (k ∷ rest)) ≡ none
        → Ordered (t ∷ k ∷ rest)
    by_less true is_b rec e = absurd cc
    by_less false is_b rec e = (is_b, rec e)

-- The head of an ordered list does not come after `k`.
abbrev NotAfter : TicketBody → List TicketBody → Type 0
NotAfter k [] = Unit
NotAfter k (x ∷ rest) = bytes_lt x.id k.id ≡ false

prepend-Ordered :
    (k : TicketBody) (rest : List TicketBody) → NotAfter k rest → Ordered rest → Ordered (k ∷ rest)
prepend-Ordered k [] h hs = tt
prepend-Ordered k (x ∷ rest) h hs = (h, hs)

tail-Ordered :
    (k : TicketBody) (rest : List TicketBody) → Ordered (k ∷ rest) → NotAfter k rest × Ordered rest
tail-Ordered k [] h = (tt, tt)
tail-Ordered k (x ∷ rest) h = h

insert-NotAfter :
    (k t : TicketBody) (rest : List TicketBody)
    → bytes_lt t.id k.id ≡ false
    → NotAfter k rest
    → NotAfter k (insert t rest)
unfolding insert
insert-NotAfter k t [] h hs = h
insert-NotAfter k t (x ∷ rest) h hs =
    elim (bytes_lt x.id t.id) as (λ b. NotAfter k (if b then x ∷ insert t rest else t ∷ x ∷ rest)) [
      | true ↦ hs
      | false ↦ h
    ]

insert-Ordered : (t : TicketBody) (rest : List TicketBody) → Ordered rest → Ordered (insert t rest)
unfolding insert
insert-Ordered t [] h = tt
insert-Ordered t (k ∷ rest) h =
    by_less (bytes_lt k.id t.id) refl (insert-Ordered t rest (tail-Ordered k rest h).1)
  where
    by_less :
        (b : Bool)
        → bytes_lt k.id t.id ≡ b
        → Ordered (insert t rest)
        → Ordered (if b then k ∷ insert t rest else t ∷ k ∷ rest)
    by_less true is_b rec =
        prepend-Ordered k (insert t rest)
          (insert-NotAfter k t rest (bytes_lt_asymm k.id t.id is_b) (tail-Ordered k rest h).0) rec
    by_less false is_b rec = (is_b, h)

pub sort_slice-Ordered : (tickets : List TicketBody) → Ordered (sort_slice tickets)
unfolding sort_slice
sort_slice-Ordered [] = tt
sort_slice-Ordered (t ∷ rest) = insert-Ordered t (sort_slice rest) (sort_slice-Ordered rest)

insert-Permᴰ : (t : TicketBody) (rest : List TicketBody) → Permᴰ (insert t rest) (t ∷ rest)
unfolding insert
insert-Permᴰ t [] = Permᴰ.refl (t ∷ [])
insert-Permᴰ t (k ∷ rest) = by_less (bytes_lt k.id t.id) (insert-Permᴰ t rest)
  where
    by_less :
        (b : Bool)
        → Permᴰ (insert t rest) (t ∷ rest)
        → Permᴰ (if b then k ∷ insert t rest else t ∷ k ∷ rest) (t ∷ k ∷ rest)
    by_less true rec = Permᴰ.trans (Permᴰ.cons refl rec) (Permᴰ.swap refl refl)
    by_less false rec = Permᴰ.refl (t ∷ k ∷ rest)

pub sort_slice-Permᴰ : (tickets : List TicketBody) → Permᴰ (sort_slice tickets) tickets
unfolding sort_slice
sort_slice-Permᴰ [] = Permᴰ.nil
sort_slice-Permᴰ (t ∷ rest) =
    Permᴰ.trans (insert-Permᴰ t (sort_slice rest)) (Permᴰ.cons refl (sort_slice-Permᴰ rest))
