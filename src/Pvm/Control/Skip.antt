-- ===== src/Pvm/Control/Skip.antt =====
-- `skip` finds the next start of an instruction.
use jam_protocol.Base.{
  ℕ, zero, suc, ◌+◌, ◌-◌, ◌<◌, ◌≤◌, ◌≡◌, List, arith, true, false, subst, length, ◌⊎◌, Bool-cases,
  inl, inr, min,
}
use jam_protocol.Pvm.Control.{is_start_of_instruction, skip_loop, skip}

-- `r` is the first start of an instruction from `j` on, counted from `pc`, or `end` if there is none.
record IsFirst (bitmask : List ℕ) (pc j end r : ℕ) : Type 0 where
  from : j ≤ r
  within : r ≤ end
  before : (k : ℕ) → j ≤ k → k < r → is_start_of_instruction bitmask (k + pc) ≡ false
  found : r < end → is_start_of_instruction bitmask (r + pc) ≡ true

le_cases : (j k : ℕ) → j ≤ k → (k ≡ j) ⊎ (j + 1 ≤ k)
le_cases j k h = ground arith

skip_loop-IsFirst :
    (rounds : ℕ) (bitmask : List ℕ) (pc j : ℕ)
    → IsFirst bitmask pc j (j + rounds) (skip_loop rounds bitmask pc j)
unfolding skip_loop
skip_loop-IsFirst zero bitmask pc j = record {
  from = omega arith;
  within = omega arith;
  before = λ k p q. absurd (omega arith);
  found = λ p. absurd (omega arith);
}
skip_loop-IsFirst (suc rounds) bitmask pc j =
    let rest = skip_loop-IsFirst rounds bitmask pc (j + 1) in
    elim (Bool-cases (is_start_of_instruction bitmask (j + pc))) [
      | inl here ↦ rw here (record {
        from = omega arith;
        within = omega arith;
        before = λ k p q. absurd (omega arith);
        found = λ p. here;
      })
      | inr there ↦ rw there (record {
        from = omega (arith, rest.from);
        within = omega (arith, rest.within);
        before =
            λ k p q. elim (le_cases j k p) [ inl e ↦ rw e there | inr past ↦ rest.before k past q ];
        found = λ p. rest.found (omega arith);
      })
    ]

-- What `skip` promises of its result `l` at `pc`: at most 24 bytes, of which none starts an
-- instruction; and below 24 the next one does, if the mask reaches so far.
pub record IsSkip (bitmask : List ℕ) (pc l : ℕ) : Type 0 where
  pub bound : l ≤ 24
  pub operands : (k : ℕ) → k < l → is_start_of_instruction bitmask (k + 1 + pc) ≡ false
  pub next :
      l < 24 → l + 1 + pc < length bitmask → is_start_of_instruction bitmask (l + 1 + pc) ≡ true

-- The skip length at any address satisfies `IsSkip`: it is at most 24, no byte that it passes over
-- starts an instruction, and where it is below 24 and the mask does not end first, an instruction
-- starts behind it.
pub skip-IsSkip : (bitmask : List ℕ) (pc : ℕ) → IsSkip bitmask pc (skip bitmask pc)
unfolding skip
skip-IsSkip bitmask pc =
    let rounds = length bitmask - (pc + 1) in
    let first = skip_loop-IsFirst rounds bitmask pc 1 in
    let r = skip_loop rounds bitmask pc 1 in
    record {
      bound = omega arith;
      operands = λ k h. first.before (k + 1) (omega arith) (omega (arith, first.from));
      next = λ short inside.
          subst (λ (t : ℕ). is_start_of_instruction bitmask (t + pc) ≡ true)
            (exact r first.from short) (first.found (omega (arith, first.from, first.within)));
    }
  where
    exact : (r : ℕ) → 1 ≤ r → min 24 (r - 1) < 24 → r ≡ min 24 (r - 1) + 1
    exact r h short = omega arith
