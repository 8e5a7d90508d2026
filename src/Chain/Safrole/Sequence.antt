-- ===== src/Chain/Safrole/Sequence.antt =====
-- The sequence of slot keys from a full accumulator holds each of its tickets once.
use jam_protocol.Base.{
  ℕ, zero, suc, ◌+◌, ◌-◌, ◌%◌, ◌≡◌, refl, sym, ap, ap₂, subst, ◌∙◌, arith, Bool, true, false,
  Option, some, List, [], ◌∷◌, ◌++◌, length, get_elem?, get_elem?-append, append_end, length-append,
  ◌==◌, if◌then◌else◌,
}
use mathlib.Core.List.{Permᴰ, append_assoc, append-nil}
use mathlib.Core.List.Permᴰ
use jam_protocol.Chain.Tickets.{Sizes, TicketBody}
use jam_protocol.Chain.Safrole.{put_entry, outside_in_loop, outside_in_sequencer}

-- The loop gives an order of these tickets.
abbrev pub IsSequence : List TicketBody → Option (List TicketBody) → Type 0
IsSequence seg o = (out : List TicketBody) × (o ≡ some out) × Permᴰ out seg

put_entry-IsSequence :
    (seg s : List TicketBody) (t : TicketBody) (o : Option TicketBody)
    (rest : Option (List TicketBody))
    → o ≡ some t
    → Permᴰ (t ∷ s) seg
    → IsSequence s rest
    → IsSequence seg (put_entry o rest)
unfolding put_entry
put_entry-IsSequence seg s t o rest is_t perm (out, is_out, same) =
    (t ∷ out, rw (is_t, is_out) refl, Permᴰ.trans (Permᴰ.cons refl same) perm)

snoc :
    (x : TicketBody) (xs : List TicketBody)
    → (init : List TicketBody) × (y : TicketBody) × (x ∷ xs ≡ init ++ y ∷ [])
snoc x [] = ([], x, refl)
snoc x (z ∷ xs) = let (init, y, e) = snoc z xs in (x ∷ init, y, ap (λ t. x ∷ t) e)

either :
    (P : Option (List TicketBody) → Type 0) (b : Bool) (x y : Option (List TicketBody))
    → P x
    → P y
    → P (if b then x else y)
either P true x y p q = p
either P false x y p q = q

outside_in_loop-IsSequence :
    (rounds i left right : ℕ) (t pre seg post : List TicketBody)
    → left ≡ length pre
    → right ≡ length pre + rounds - 1
    → t ≡ pre ++ (seg ++ post)
    → length seg ≡ rounds
    → IsSequence seg (outside_in_loop rounds i left right t)
unfolding outside_in_loop
outside_in_loop-IsSequence zero i left right t pre [] post l r e size = ([], refl, Permᴰ.nil)
outside_in_loop-IsSequence zero i left right t pre (x ∷ seg) post l r e size = absurd (omega arith)
outside_in_loop-IsSequence (suc rounds) i left right t pre [] post l r e size = absurd (omega arith)
outside_in_loop-IsSequence (suc rounds) i left right t pre (x ∷ seg) post l r e size =
    let (init, y, is_snoc) = snoc x seg in
    let whole =
      e
      ∙ ap (λ s. pre ++ (s ++ post)) is_snoc
      ∙ ap (λ s. pre ++ s) (append_assoc init (y ∷ []) post) in
    let init_size = ap length (sym is_snoc) ∙ size in
    either (IsSequence (x ∷ seg)) (i % 2 == 0) _ _
      (put_entry-IsSequence (x ∷ seg) seg x _ _
        (ap₂ get_elem? e l ∙ get_elem?-append pre (seg ++ post) x) (Permᴰ.refl (x ∷ seg))
        (outside_in_loop-IsSequence rounds (i + 1) (left + 1) right t (pre ++ x ∷ []) seg post
          (omega (arith, length-append pre (x ∷ []))) (omega (arith, length-append pre (x ∷ [])))
          (e ∙ append_end pre (seg ++ post) x) (omega arith)))
      (put_entry-IsSequence (x ∷ seg) init y _ _
        (ap₂ get_elem? (whole ∙ sym (append_assoc pre init (y ∷ post)))
            (omega (arith, length-append pre init, length-append init (y ∷ [])))
          ∙ get_elem?-append (pre ++ init) post y)
        (subst (Permᴰ (y ∷ init)) (sym is_snoc) (
          Permᴰ.symm
            (Permᴰ.trans (Permᴰ.middle y init []) (Permᴰ.cons refl (Permᴰ.append-nil init)))))
        (outside_in_loop-IsSequence rounds (i + 1) left (right - 1) t pre init (y ∷ post) l
          (omega arith) whole (omega (arith, length-append init (y ∷ [])))))

-- The outside-in sequence of as many tickets as the epoch has slots is an order of these tickets, and
-- is found without a run-time panic.
pub outside_in_sequencer-IsSequence :
    (sizes : Sizes) (t : List TicketBody)
    → length t ≡ sizes.epoch_length
    → IsSequence t (outside_in_sequencer sizes t)
unfolding outside_in_sequencer
outside_in_sequencer-IsSequence sizes t size =
    outside_in_loop-IsSequence sizes.epoch_length 0 0 (sizes.epoch_length - 1) t [] t [] refl
      (omega arith) (sym (append-nil t)) size
