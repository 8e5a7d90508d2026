-- ===== src/Chain/Tickets/Distinct.antt =====
-- Sorting keeps tickets apart, so that the check for duplicates lets distinct tickets through.
use jam_protocol.Base.{
  ℕ, ◌≡◌, refl, ◌∙◌, arith, Bool, true, false, List, [], ◌∷◌, ◌++◌, All, All-append, none,
  if◌then◌else◌,
}
use jam_protocol.Chain.Tickets.{
  TicketBody, bytes_lt, bytes_equal, insert, sort_slice, verify_tickets_order,
  verify_tickets_duplicate,
}
use jam_protocol.Chain.Tickets.Order.{Increasing, bytes_lt_asymm}

abbrev pub Apart : TicketBody → TicketBody → Type 0
Apart t k = bytes_equal t.id k.id ≡ false

abbrev pub Distinct : List TicketBody → Type 0
Distinct [] = Unit
Distinct (t ∷ rest) = All (Apart t) rest × Distinct rest

bytes_equal_comm : (a b : List ℕ) → bytes_equal a b ≡ bytes_equal b a
unfolding bytes_equal
bytes_equal_comm [] [] = refl
bytes_equal_comm [] (y ∷ ys) = refl
bytes_equal_comm (x ∷ xs) [] = refl
bytes_equal_comm (x ∷ xs) (y ∷ ys) = let ih = bytes_equal_comm xs ys in ground arith

bytes_lt-Apart : (a b : List ℕ) → bytes_lt a b ≡ true → bytes_equal a b ≡ false
unfolding bytes_lt bytes_equal
bytes_lt-Apart [] [] h = absurd cc
bytes_lt-Apart [] (y ∷ ys) h = refl
bytes_lt-Apart (x ∷ xs) [] h = refl
bytes_lt-Apart (x ∷ xs) (y ∷ ys) h = let ih = bytes_lt-Apart xs ys in ground arith

All-map :
    {P Q : TicketBody → Type 0} (tickets : List TicketBody)
    → ((k : TicketBody) → P k → Q k)
    → All P tickets
    → All Q tickets
All-map [] f h = tt
All-map (t ∷ rest) f h = (f t h.0, All-map rest f h.1)

pub Increasing-Distinct : (tickets : List TicketBody) → Increasing tickets → Distinct tickets
Increasing-Distinct [] h = tt
Increasing-Distinct (t ∷ rest) h =
    (All-map rest (λ k. bytes_lt-Apart t.id k.id) h.0, Increasing-Distinct rest h.1)

-- Two lists apart from each other.
abbrev pub ApartFrom : List TicketBody → List TicketBody → Type 0
ApartFrom previous new = All (λ t. All (Apart t) previous) new

pub append-Distinct :
    (new previous : List TicketBody)
    → Distinct new
    → Distinct previous
    → ApartFrom previous new
    → Distinct (new ++ previous)
append-Distinct [] previous h k a = k
append-Distinct (t ∷ new) previous h k a =
    (All-append (Apart t) new previous h.0 a.0, append-Distinct new previous h.1 k a.1)

insert-All :
    (P : TicketBody → Type 0) (t : TicketBody) (rest : List TicketBody)
    → P t
    → All P rest
    → All P (insert t rest)
unfolding insert
insert-All P t [] p h = (p, tt)
insert-All P t (k ∷ rest) p h = by_less (bytes_lt k.id t.id) (insert-All P t rest p h.1)
  where
    by_less :
        (b : Bool) → All P (insert t rest) → All P (if b then k ∷ insert t rest else t ∷ k ∷ rest)
    by_less true rec = (h.0, rec)
    by_less false rec = (p, h)

insert-Distinct :
    (t : TicketBody) (rest : List TicketBody)
    → All (Apart t) rest
    → Distinct rest
    → Distinct (insert t rest)
unfolding insert
insert-Distinct t [] a h = (tt, tt)
insert-Distinct t (k ∷ rest) a h = by_less (bytes_lt k.id t.id) (insert-Distinct t rest a.1 h.1)
  where
    by_less :
        (b : Bool)
        → Distinct (insert t rest)
        → Distinct (if b then k ∷ insert t rest else t ∷ k ∷ rest)
    by_less true rec = (insert-All (Apart k) t rest (bytes_equal_comm k.id t.id ∙ a.0) h.0, rec)
    by_less false rec = (a, h)

sort_slice-All :
    (P : TicketBody → Type 0) (tickets : List TicketBody)
    → All P tickets
    → All P (sort_slice tickets)
unfolding sort_slice
sort_slice-All P [] h = tt
sort_slice-All P (t ∷ rest) h = insert-All P t (sort_slice rest) h.0 (sort_slice-All P rest h.1)

pub sort_slice-Distinct :
    (tickets : List TicketBody) → Distinct tickets → Distinct (sort_slice tickets)
unfolding sort_slice
sort_slice-Distinct [] h = tt
sort_slice-Distinct (t ∷ rest) h =
    insert-Distinct t (sort_slice rest) (sort_slice-All (Apart t) rest h.0)
      (sort_slice-Distinct rest h.1)

pub verify_tickets_duplicate-Distinct :
    (tickets : List TicketBody) → Distinct tickets → verify_tickets_duplicate tickets ≡ none
unfolding verify_tickets_duplicate
verify_tickets_duplicate-Distinct [] h = refl
verify_tickets_duplicate-Distinct (t ∷ []) h = refl
verify_tickets_duplicate-Distinct (t ∷ k ∷ rest) h =
    rw h.0.0 (verify_tickets_duplicate-Distinct (k ∷ rest) h.1)

pub verify_tickets_order-Increasing :
    (tickets : List TicketBody) → Increasing tickets → verify_tickets_order tickets ≡ none
unfolding verify_tickets_order
verify_tickets_order-Increasing [] h = refl
verify_tickets_order-Increasing (t ∷ []) h = refl
verify_tickets_order-Increasing (t ∷ k ∷ rest) h =
    rw (bytes_lt_asymm t.id k.id h.0.0) (verify_tickets_order-Increasing (k ∷ rest) h.1)
