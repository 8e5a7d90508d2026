-- ===== src/Pvm/Decoded/Agree/Handlers.antt =====
-- The table of decoded handlers agrees with the table of direct ones.
use jam_protocol.Base.{
  ℕ, ==_iff, ◌≡◌, refl, subst, Option, none, some, List, ◌==◌, true, false, Bool, if◌then◌else◌,
}
use jam_protocol.Pvm.State.{Interp, Handler}
use jam_protocol.Pvm.Instr.Table.{find_handler, or_else, exec_instructions}
use jam_protocol.Pvm.Decoded.{MetaHandler}
use jam_protocol.Pvm.Decoded.Table.{
  find_meta, or_meta, trap_if_none, meta_rows, instr_meta_exec_for_opcode,
}
use jam_protocol.Pvm.Decoded.Agree.{run_decoded, IsInstr, Agrees, Alike, no_more, ◌≈◌}
use jam_protocol.Pvm.Decoded.Agree.Registers.{
  two_register_rows-Alike, immediate_rows-Alike, three_register_rows-Alike,
}
use jam_protocol.Pvm.Decoded.Agree.Accesses.{access_rows-Alike}
use jam_protocol.Pvm.Decoded.Agree.Jumps.{control_rows-Alike}

-- Either no handler in both, or two that agree.
Same : ℕ → Option Handler → Option MetaHandler → Type 0
Same op none none = Unit
Same op none (some m) = ⊥
Same op (some h) none = ⊥
Same op (some h) (some m) = Agrees op h m

row-Same :
    (op k : ℕ) (h : Handler) (m : MetaHandler) (a : Option Handler) (b : Option MetaHandler)
    (hit : Bool)
    → (hit ≡ true → k ≡ op)
    → Agrees k h m
    → Same op a b
    → Same op (if hit then some h else a) (if hit then some m else b)
unfolding Same
row-Same op k h m a b true is_op same rest = subst (λ o. Agrees o h m) (is_op refl) same
row-Same op k h m a b false is_op same rest = rest

find-Same :
    (op : ℕ) {rows : List (ℕ × Handler)} {metas : List (ℕ × MetaHandler)}
    → Alike rows metas
    → Same op (find_handler op rows) (find_meta op metas)
unfolding find_handler find_meta Same
find-Same op no_more = tt
find-Same op (◌≈◌ {op = k} {h} {m} {rows} {metas} same rest) =
    row-Same op k h m (find_handler op rows) (find_meta op metas) (k == op) (==_iff k op).0 same
      (find-Same op rest)

or-Same :
    (op : ℕ) (a c : Option Handler) (b d : Option MetaHandler)
    → Same op a b
    → Same op c d
    → Same op (or_else a c) (or_meta b d)
unfolding Same or_else or_meta
or-Same op none c none d h k = k
or-Same op none c (some y) d h k = absurd h
or-Same op (some x) c none d h k = absurd h
or-Same op (some x) c (some y) d h k = h

tables-Same : (op : ℕ) → Same op (exec_instructions op) (meta_rows op)
unfolding exec_instructions meta_rows
tables-Same op = or-Same op _ _ _ _ (find-Same op control_rows-Alike) (
    or-Same op _ _ _ _ (find-Same op access_rows-Alike) (
      or-Same op _ _ _ _ (find-Same op two_register_rows-Alike) (
        or-Same op _ _ _ _ (find-Same op immediate_rows-Alike)
          (find-Same op three_register_rows-Alike))))

chosen :
    (op : ℕ) (g : Option Handler) (h : Handler) (o : Option MetaHandler)
    → Same op g o
    → g ≡ some h
    → Agrees op h (trap_if_none o)
unfolding Same trap_if_none
chosen op g h none same e = absurd (subst (λ x. Same op x none) e same)
chosen op g h (some m) same e = subst (λ x. Same op x (some m)) e same

-- Where an opcode of the table stands at the program counter, in a code of bytes at most 2 ^ 32 - 1 long,
-- with a byte behind it if it takes operands, and its operands can be decoded, decoding it and running
-- its decoded handler gives what the direct handler gives: the same state, reason and program counter,
-- or a run-time panic of Go in both.
pub decoded-direct :
    (s : Interp) (pc op skip : ℕ) (h : Handler)
    → exec_instructions op ≡ some h
    → IsInstr s pc op skip
    → run_decoded (instr_meta_exec_for_opcode op) s pc op skip ≡ h s pc skip
unfolding instr_meta_exec_for_opcode
decoded-direct s pc op skip h e i = chosen op _ h _ (tables-Same op) e s pc skip i
