-- ===== src/Pvm/Decoded/Agree/Filled.antt =====
-- Decoding an instruction whose operands can be decoded fills in its operands.
use jam_protocol.Base.{ℕ, ◌+◌, ◌<◌, ◌≡◌, refl, sym, subst, ap, ◌∙◌, arith, leb, true, false}
use jam_protocol.Pvm.State.{Go, done, Interp}
use jam_protocol.Pvm.Control.{Category, category}
use jam_protocol.Pvm.Decoded.{
  InstrMeta, MetaHandler, blank, takes_operands, decode_operands, fill_operands, on_ok,
}
use jam_protocol.Pvm.Decoded.Agree.{run_on, run_decoded, Decodes, IsInstr}

-- The guard of `decodeOperands` does not hold for an instruction with a byte behind it.
not_past :
    (s : Interp) (pc op skip : ℕ) (c : Category)
    → category op ≡ c
    → takes_operands c ≡ true
    → IsInstr s pc op skip
    → leb s.program.code.len (pc + 1) ≡ false
not_past s pc op skip c is_c takes i =
    below s.program.code.len (i.inside (subst (λ k. takes_operands k ≡ true) (sym is_c) takes))
  where
    below : (n : ℕ) → pc + 1 < n → leb n (pc + 1) ≡ false
    below n h = ground arith

pub of_category :
    (s : Interp) (pc op skip : ℕ) (c : Category)
    → category op ≡ c
    → IsInstr s pc op skip
    → Decodes c s.program.code pc skip
of_category s pc op skip c is_c i = subst (λ k. Decodes k s.program.code pc skip) is_c i.decodes

-- The switch on the category is reached.
decode_operands-filled :
    (s : Interp) (pc op skip : ℕ) (c : Category)
    → category op ≡ c
    → takes_operands c ≡ true
    → IsInstr s pc op skip
    → decode_operands s.program.code (blank pc op skip)
      ≡ fill_operands c s.program.code (blank pc op skip)
unfolding decode_operands
decode_operands-filled s pc op skip c is_c takes i =
    rw (is_c, takes, not_past s pc op skip c is_c takes i) refl

-- So the decoded handler runs on the operands that the switch fills in.
pub run_filled :
    (m : MetaHandler) (s : Interp) (pc op skip : ℕ) (c : Category) (j : InstrMeta)
    → category op ≡ c
    → takes_operands c ≡ true
    → IsInstr s pc op skip
    → fill_operands c s.program.code (blank pc op skip) ≡ done j
    → run_decoded m s pc op skip ≡ m s j
unfolding run_decoded
run_filled m s pc op skip c j is_c takes i e =
    ap (run_on m s) (decode_operands-filled s pc op skip c is_c takes i ∙ e)

pub on_ok-done {ℓ} :
    {A : Type ℓ} (g : Go A) (i : InstrMeta) (f : A → InstrMeta) (a : A)
    → g ≡ done a
    → on_ok g i f ≡ done (f a)
unfolding on_ok
on_ok-done g i f a e = rw e refl
