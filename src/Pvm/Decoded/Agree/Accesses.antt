-- ===== src/Pvm/Decoded/Agree/Accesses.antt =====
-- The decoded loads and stores agree with the direct ones.
use jam_protocol.Base.{ℕ, ◌<◌, ◌≡◌, refl, ◌∙◌, lt→ltb}
use jam_protocol.Base.Words.{u32, add64}
use jam_protocol.Pvm.State.{Interp, reg}
use jam_protocol.Pvm.Memory.{Width, store_into_memory, load_from_memory}
use jam_protocol.Pvm.Decode.{
  decode_two_immediates, decode_one_register_and_one_immediate,
  decode_one_register_and_two_immediates, decode_two_registers_and_one_immediate,
}
use jam_protocol.Pvm.Control.{two_imm, one_reg_one_imm, one_reg_two_imm, two_reg_one_imm, category}
use jam_protocol.Pvm.Instr.{on_error, stored, loaded}
use jam_protocol.Pvm.Instr.Access.{
  inst_store_imm_u8, inst_store_imm_u16, inst_store_imm_u32, inst_store_imm_u64, inst_load_u8,
  inst_load_i8, inst_load_u16, inst_load_i16, inst_load_u32, inst_load_i32, inst_load_u64,
  inst_store_u8, inst_store_u16, inst_store_u32, inst_store_u64, inst_store_imm_ind_u8,
  inst_store_imm_ind_u16, inst_store_imm_ind_u32, inst_store_imm_ind_u64, inst_store_ind_u8,
  inst_store_ind_u16, inst_store_ind_u32, inst_store_ind_u64, inst_load_ind_u8, inst_load_ind_i8,
  inst_load_ind_u16, inst_load_ind_i16, inst_load_ind_u32, inst_load_ind_i32, inst_load_ind_u64,
}
use jam_protocol.Pvm.Instr.Table.{access_rows}
use jam_protocol.Pvm.Decoded.{InstrMeta, takes_operands, fill_operands, with_reg, meta_loaded}
use jam_protocol.Pvm.Decoded.Access.{
  meta_store_imm_u8, meta_store_imm_u16, meta_store_imm_u32, meta_store_imm_u64, meta_load_u8,
  meta_load_i8, meta_load_u16, meta_load_i16, meta_load_u32, meta_load_i32, meta_load_u64,
  meta_store_u8, meta_store_u16, meta_store_u32, meta_store_u64, meta_store_imm_ind_u8,
  meta_store_imm_ind_u16, meta_store_imm_ind_u32, meta_store_imm_ind_u64, meta_store_ind_u8,
  meta_store_ind_u16, meta_store_ind_u32, meta_store_ind_u64, meta_load_ind_u8, meta_load_ind_i8,
  meta_load_ind_u16, meta_load_ind_i16, meta_load_ind_u32, meta_load_ind_i32, meta_load_ind_u64,
}
use jam_protocol.Pvm.Decoded.Table.{meta_access_rows}
use jam_protocol.Pvm.Decoded.Agree.{Agrees, Alike, no_more, ◌≈◌}
use jam_protocol.Pvm.Decoded.Agree.Filled.{of_category, run_filled, on_ok-done}
use jam_protocol.Pvm.Decoded.Agree.Operands.{
  of_done, one_register_and_one_immediate-Reg, one_register_and_two_immediates-Reg,
  two_registers_and_one_immediate-Regs,
}

-- Into a register that exists, both forms of a load do the same.
meta_loaded-loaded :
    (s : Interp) (i : InstrMeta) (r : ℕ) (f : ℕ → ℕ) (l : ℕ × ℕ)
    → r < 13
    → meta_loaded s i r f l ≡ loaded s i.pc r f l
unfolding meta_loaded loaded
meta_loaded-loaded s i r f (v, reason) h = rw (lt→ltb r 13 h) refl

two_imm-Agrees :
    (op reason : ℕ) (w : Width) (g : ℕ → ℕ)
    → category op ≡ two_imm
    → Agrees op
        (λ s pc skip.
          on_error s pc reason
            (decode_two_immediates s.program.code pc skip)
            (λ p. stored s pc (store_into_memory s.memory w (u32 p.0) (g p.1))))
        (λ s i. stored s i.pc (store_into_memory s.memory w (u32 i.imm_0) (g i.imm_1)))
unfolding fill_operands takes_operands on_error
two_imm-Agrees op reason w g is_c s pc skip i =
    let (p, e) = of_category s pc op skip two_imm is_c i in
    run_filled _ s pc op skip two_imm _ is_c refl i (on_ok-done _ _ _ _ e) ∙ rw e refl

one_reg_load-Agrees :
    (op reason : ℕ) (w : Width) (f : ℕ → ℕ)
    → category op ≡ one_reg_one_imm
    → Agrees op
        (λ s pc skip.
          on_error s pc reason
            (decode_one_register_and_one_immediate s.program.code pc skip)
            (λ p. loaded s pc p.0 f (load_from_memory s.memory w (u32 p.1))))
        (λ s i. meta_loaded s i i.dst f (load_from_memory s.memory w (u32 i.imm_0)))
unfolding fill_operands takes_operands on_error
one_reg_load-Agrees op reason w f is_c s pc skip i =
    let (p, e) = of_category s pc op skip one_reg_one_imm is_c i in
    let r = of_done _ _ p (one_register_and_one_immediate-Reg s.program.code pc skip) e in
    run_filled _ s pc op skip one_reg_one_imm _ is_c refl i (on_ok-done _ _ _ _ e)
    ∙ rw e (meta_loaded-loaded s _ p.0 f _ r)

one_reg_store-Agrees :
    (op reason : ℕ) (w : Width) (g : ℕ → ℕ)
    → category op ≡ one_reg_one_imm
    → Agrees op
        (λ s pc skip.
          on_error s pc reason
            (decode_one_register_and_one_immediate s.program.code pc skip)
            (λ p. stored s pc (store_into_memory s.memory w (u32 p.1) (g (reg s p.0)))))
        (λ s i.
          with_reg s i.dst (λ a. stored s i.pc (store_into_memory s.memory w (u32 i.imm_0) (g a))))
unfolding fill_operands takes_operands on_error with_reg
one_reg_store-Agrees op reason w g is_c s pc skip i =
    let (p, e) = of_category s pc op skip one_reg_one_imm is_c i in
    let r = of_done _ _ p (one_register_and_one_immediate-Reg s.program.code pc skip) e in
    run_filled _ s pc op skip one_reg_one_imm _ is_c refl i (on_ok-done _ _ _ _ e)
    ∙ rw (e, lt→ltb p.0 13 r) refl

one_reg_two_imm-Agrees :
    (op reason : ℕ) (w : Width) (g : ℕ → ℕ)
    → category op ≡ one_reg_two_imm
    → Agrees op
        (λ s pc skip.
          on_error s pc reason
            (decode_one_register_and_two_immediates s.program.code pc skip)
            (λ p. stored s pc (store_into_memory s.memory w (u32 (add64 (reg s p.0) p.1)) (g p.2))))
        (λ s i.
          with_reg s i.src_0
            (λ a. stored s i.pc (store_into_memory s.memory w (u32 (add64 a i.imm_0)) (g i.imm_1))))
unfolding fill_operands takes_operands on_error with_reg
one_reg_two_imm-Agrees op reason w g is_c s pc skip i =
    let (p, e) = of_category s pc op skip one_reg_two_imm is_c i in
    let r = of_done _ _ p (one_register_and_two_immediates-Reg s.program.code pc skip) e in
    run_filled _ s pc op skip one_reg_two_imm _ is_c refl i (on_ok-done _ _ _ _ e)
    ∙ rw (e, lt→ltb p.0 13 r) refl

two_reg_store-Agrees :
    (op reason : ℕ) (w : Width) (g : ℕ → ℕ)
    → category op ≡ two_reg_one_imm
    → Agrees op
        (λ s pc skip.
          on_error s pc reason (decode_two_registers_and_one_immediate s.program.code pc skip) (λ p.
            stored s pc
              (store_into_memory s.memory w (u32 (add64 (reg s p.1) p.2)) (g (reg s p.0)))))
        (λ s i. with_reg s i.src_0 (λ b.
          with_reg s i.dst
            (λ a. stored s i.pc (store_into_memory s.memory w (u32 (add64 b i.imm_0)) (g a)))))
unfolding fill_operands takes_operands on_error with_reg
two_reg_store-Agrees op reason w g is_c s pc skip i =
    let (p, e) = of_category s pc op skip two_reg_one_imm is_c i in
    let r = of_done _ _ p (two_registers_and_one_immediate-Regs s.program.code pc skip) e in
    run_filled _ s pc op skip two_reg_one_imm _ is_c refl i (on_ok-done _ _ _ _ e)
    ∙ rw (e, lt→ltb p.0 13 r.0, lt→ltb p.1 13 r.1) refl

two_reg_load-Agrees :
    (op reason : ℕ) (w : Width) (f : ℕ → ℕ)
    → category op ≡ two_reg_one_imm
    → Agrees op
        (λ s pc skip.
          on_error s pc reason
            (decode_two_registers_and_one_immediate s.program.code pc skip)
            (λ p. loaded s pc p.0 f (load_from_memory s.memory w (u32 (add64 (reg s p.1) p.2)))))
        (λ s i.
          with_reg s i.src_0
            (λ b. meta_loaded s i i.dst f (load_from_memory s.memory w (u32 (add64 b i.imm_0)))))
unfolding fill_operands takes_operands on_error with_reg
two_reg_load-Agrees op reason w f is_c s pc skip i =
    let (p, e) = of_category s pc op skip two_reg_one_imm is_c i in
    let r = of_done _ _ p (two_registers_and_one_immediate-Regs s.program.code pc skip) e in
    run_filled _ s pc op skip two_reg_one_imm _ is_c refl i (on_ok-done _ _ _ _ e)
    ∙ rw (e, lt→ltb p.1 13 r.1) (meta_loaded-loaded s _ p.0 f _ r.0)

pub access_rows-Alike : Alike access_rows meta_access_rows
unfolding category access_rows meta_access_rows inst_store_imm_u8 meta_store_imm_u8
    inst_store_imm_u16 meta_store_imm_u16 inst_store_imm_u32 meta_store_imm_u32 inst_store_imm_u64
    meta_store_imm_u64 inst_load_u8 meta_load_u8 inst_load_i8 meta_load_i8 inst_load_u16
    meta_load_u16 inst_load_i16 meta_load_i16 inst_load_u32 meta_load_u32 inst_load_i32
    meta_load_i32 inst_load_u64 meta_load_u64 inst_store_u8 meta_store_u8 inst_store_u16
    meta_store_u16 inst_store_u32 meta_store_u32 inst_store_u64 meta_store_u64 inst_store_imm_ind_u8
    meta_store_imm_ind_u8 inst_store_imm_ind_u16 meta_store_imm_ind_u16 inst_store_imm_ind_u32
    meta_store_imm_ind_u32 inst_store_imm_ind_u64 meta_store_imm_ind_u64 inst_store_ind_u8
    meta_store_ind_u8 inst_store_ind_u16 meta_store_ind_u16 inst_store_ind_u32 meta_store_ind_u32
    inst_store_ind_u64 meta_store_ind_u64 inst_load_ind_u8 meta_load_ind_u8 inst_load_ind_i8
    meta_load_ind_i8 inst_load_ind_u16 meta_load_ind_u16 inst_load_ind_i16 meta_load_ind_i16
    inst_load_ind_u32 meta_load_ind_u32 inst_load_ind_i32 meta_load_ind_i32 inst_load_ind_u64
    meta_load_ind_u64
access_rows-Alike =
    two_imm-Agrees _ _ _ _ refl
    ≈ two_imm-Agrees _ _ _ _ refl
    ≈ two_imm-Agrees _ _ _ _ refl
    ≈ two_imm-Agrees _ _ _ _ refl
    ≈ one_reg_load-Agrees _ _ _ _ refl
    ≈ one_reg_load-Agrees _ _ _ _ refl
    ≈ one_reg_load-Agrees _ _ _ _ refl
    ≈ one_reg_load-Agrees _ _ _ _ refl
    ≈ one_reg_load-Agrees _ _ _ _ refl
    ≈ one_reg_load-Agrees _ _ _ _ refl
    ≈ one_reg_load-Agrees _ _ _ _ refl
    ≈ one_reg_store-Agrees _ _ _ _ refl
    ≈ one_reg_store-Agrees _ _ _ _ refl
    ≈ one_reg_store-Agrees _ _ _ _ refl
    ≈ one_reg_store-Agrees _ _ _ _ refl
    ≈ one_reg_two_imm-Agrees _ _ _ _ refl
    ≈ one_reg_two_imm-Agrees _ _ _ _ refl
    ≈ one_reg_two_imm-Agrees _ _ _ _ refl
    ≈ one_reg_two_imm-Agrees _ _ _ _ refl
    ≈ two_reg_store-Agrees _ _ _ _ refl
    ≈ two_reg_store-Agrees _ _ _ _ refl
    ≈ two_reg_store-Agrees _ _ _ _ refl
    ≈ two_reg_store-Agrees _ _ _ _ refl
    ≈ two_reg_load-Agrees _ _ _ _ refl
    ≈ two_reg_load-Agrees _ _ _ _ refl
    ≈ two_reg_load-Agrees _ _ _ _ refl
    ≈ two_reg_load-Agrees _ _ _ _ refl
    ≈ two_reg_load-Agrees _ _ _ _ refl
    ≈ two_reg_load-Agrees _ _ _ _ refl
    ≈ two_reg_load-Agrees _ _ _ _ refl
    ≈ no_more
