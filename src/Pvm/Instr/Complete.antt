-- ===== src/Pvm/Instr/Complete.antt =====
-- The table of handlers against the table of opcodes.
use jam_protocol.Base.{
  and_left, and_right, ℕ, zero, suc, ◌<◌, ◌≡◌, refl, sym, Bool, true, false, ◌&&◌, Option, none,
  some, arith, ◌⊎◌, inl, inr,
}
use jam_protocol.Pvm.State.{Handler}
use jam_protocol.Pvm.Control.{category, is_valid_opcode}
use jam_protocol.Pvm.Instr.Table.{
  exec_instructions, control_rows, access_rows, two_register_rows, immediate_rows,
  three_register_rows,
}

abbrev pub has_handler : Option Handler → Bool
has_handler none = false
has_handler (some h) = true

abbrev same : Bool → Bool → Bool
same true b = b
same false true = false
same false false = true

same→≡ : (a b : Bool) → same a b ≡ true → a ≡ b
same→≡ true b h = sym h
same→≡ false true h = h
same→≡ false false h = refl

abbrev every_opcode : ℕ → (ℕ → Bool) → Bool
every_opcode zero p = true
every_opcode (suc n) p = p n && every_opcode n p

compare_last : (x n : ℕ) → x < suc n → (x ≡ n) ⊎ (x < n)
compare_last x n h = ground arith

agreed : (n : ℕ) (p : ℕ → Bool) (x : ℕ) → every_opcode n p ≡ true → x < n → p x ≡ true
agreed zero p x h lt = absurd (omega arith)
agreed (suc n) p x h lt = elim (compare_last x n lt) [
  | inl last ↦ rw last (and_left (p n) (every_opcode n p) h)
  | inr below ↦ agreed n p x (and_right (p n) (every_opcode n p) h) below
]

abbrev agrees : ℕ → Bool
agrees op = same (has_handler (exec_instructions op)) (is_valid_opcode op)

all_agree : every_opcode 256 agrees ≡ true
unfolding is_valid_opcode category exec_instructions control_rows access_rows two_register_rows
    immediate_rows three_register_rows
all_agree = refl

-- The table of handlers has an entry exactly for the valid opcodes, so that a step never meets an
-- instruction without one.
pub exec_instructions-is_valid_opcode :
    (op : ℕ) → op < 256 → has_handler (exec_instructions op) ≡ is_valid_opcode op
exec_instructions-is_valid_opcode op h = same→≡ _ _ (agreed 256 agrees op all_agree h)
