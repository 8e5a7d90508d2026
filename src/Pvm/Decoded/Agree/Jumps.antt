-- ===== src/Pvm/Decoded/Agree/Jumps.antt =====
-- The decoded jumps, branches and immediates agree with the direct ones.
use jam_protocol.Base.{
  ℕ, ◌&&◌, get_or, ◌+◌, ◌%◌, ◌^◌, ◌≤◌, ◌<◌, ◌≡◌, refl, sym, subst, ap, ◌∙◌, arith, min, ltb, leb,
  lt→ltb, true, false, zero, suc, ◌-◌, some, List, length, All, All-take, All-drop,
}
use jam_protocol.Base.Words.{u32, IsByte}
use jam_protocol.Codec.{deserialize_fixed_length}
use jam_protocol.Codec.FixedLength.{or_bytes_lem}
use jam_protocol.Pvm.State.{done, crash, Slice, index, slice}
use jam_protocol.Pvm.Memory.{get_uint}
use jam_protocol.Pvm.Extend.{sign_extend}
use jam_protocol.Pvm.Decode.{lift_option, read_signed, decode_one_immediate}
use jam_protocol.Pvm.Control.{
  one_imm, one_reg_ext_imm, one_offset, one_reg_one_imm, one_reg_imm_off, two_reg_one_off,
  two_reg_two_imm, category,
}
use jam_protocol.Pvm.Instr.{on_error, write}
use jam_protocol.Pvm.Instr.Basic.{
  inst_branch, inst_ecalli, inst_fallthrough, inst_immediate_branch, inst_jump, inst_jump_ind,
  inst_load_imm, inst_load_imm_64, inst_load_imm_jump_ind, inst_trap,
}
use jam_protocol.Pvm.Instr.Table.{control_rows}
use jam_protocol.Pvm.Decoded.{blank, takes_operands, decode_operands, fill_operands}
use jam_protocol.Pvm.Decoded.Basic.{
  meta_branch, meta_ecalli, meta_fallthrough, meta_immediate_branch, meta_jump, meta_jump_ind,
  meta_load_imm, meta_load_imm_64, meta_load_imm_jump_ind, meta_trap,
}
use jam_protocol.Pvm.Decoded.Table.{meta_control_rows}
use jam_protocol.Pvm.Decoded.Agree.{IsDone, run_on, run_decoded, Agrees, Alike, no_more, ◌≈◌}
use jam_protocol.Pvm.Decoded.Agree.Filled.{of_category, run_filled, on_ok-done}
use jam_protocol.Pvm.Decoded.Agree.Immediates.{
  read_signed-read_extended, get_uint-little_endian, length-slice,
}
use jam_protocol.Pvm.Machine.{Post, Post-bind}
use jam_protocol.Pvm.Machine.Decoded.{Any, Post-Any, Post-if}
use jam_protocol.Pvm.Decoded.Agree.Operands.{
  of_done, one_offset-Fits, one_register_and_one_immediate-Reg, one_immediate_and_one_offset-Reg,
  two_registers_and_one_offset-Regs, two_registers_and_two_immediates-Regs,
}

trap-Agrees : Agrees 0 inst_trap meta_trap
unfolding category decode_operands takes_operands fill_operands run_decoded run_on inst_trap
    meta_trap
trap-Agrees s pc skip i = refl

fallthrough-Agrees : Agrees 1 inst_fallthrough meta_fallthrough
unfolding category decode_operands takes_operands fill_operands run_decoded run_on inst_fallthrough
    meta_fallthrough
fallthrough-Agrees s pc skip i = refl

-- A target that fits 32 bits is the same as a program counter.
u32-fits : (x : ℕ) → x < 2 ^ 32 → u32 x ≡ x
u32-fits x h = omega arith

jump-Agrees : Agrees 40 inst_jump meta_jump
unfolding category fill_operands takes_operands inst_jump meta_jump on_error
jump-Agrees s pc skip i =
    let (t, e) = i.decodes in
    let fits = of_done _ _ t (one_offset-Fits s.program.code pc skip) e in
    run_filled _ s pc 40 skip one_offset _ refl refl i (on_ok-done _ _ _ _ e)
    ∙ rw (e, u32-fits t fits) refl

jump_ind-Agrees : Agrees 50 inst_jump_ind meta_jump_ind
unfolding category fill_operands takes_operands inst_jump_ind meta_jump_ind on_error
jump_ind-Agrees s pc skip i =
    let ((ra, vx), e) = i.decodes in
    let r = of_done _ _ (ra, vx) (one_register_and_one_immediate-Reg s.program.code pc skip) e in
    run_filled _ s pc 50 skip one_reg_one_imm _ refl refl i (on_ok-done _ _ _ _ e)
    ∙ rw (e, lt→ltb ra 13 r) refl

load_imm-Agrees : Agrees 51 inst_load_imm meta_load_imm
unfolding category fill_operands takes_operands inst_load_imm meta_load_imm on_error write
load_imm-Agrees s pc skip i =
    let ((ra, vx), e) = i.decodes in
    let r = of_done _ _ (ra, vx) (one_register_and_one_immediate-Reg s.program.code pc skip) e in
    run_filled _ s pc 51 skip one_reg_one_imm _ refl refl i (on_ok-done _ _ _ _ e)
    ∙ rw (e, lt→ltb ra 13 r) refl

immediate_branch-Agrees :
    (op : ℕ) → category op ≡ one_reg_imm_off → Agrees op inst_immediate_branch meta_immediate_branch
unfolding fill_operands takes_operands inst_immediate_branch meta_immediate_branch on_error
immediate_branch-Agrees op is_c s pc skip i =
    let ((ra, vx, t), e) = of_category s pc op skip one_reg_imm_off is_c i in
    let p = of_done _ _ (ra, vx, t) (one_immediate_and_one_offset-Reg s.program.code pc skip) e in
    run_filled _ s pc op skip one_reg_imm_off _ is_c refl i (on_ok-done _ _ _ _ e)
    ∙ rw (e, i.opcode, lt→ltb ra 13 p.0, u32-fits t p.1) refl

branch-Agrees : (op : ℕ) → category op ≡ two_reg_one_off → Agrees op inst_branch meta_branch
unfolding fill_operands takes_operands inst_branch meta_branch on_error
branch-Agrees op is_c s pc skip i =
    let ((ra, rb, t), e) = of_category s pc op skip two_reg_one_off is_c i in
    let p = of_done _ _ (ra, rb, t) (two_registers_and_one_offset-Regs s.program.code pc skip) e in
    run_filled _ s pc op skip two_reg_one_off _ is_c refl i (on_ok-done _ _ _ _ e)
    ∙ rw (e, i.opcode, lt→ltb ra 13 p.0, lt→ltb rb 13 p.1, u32-fits t p.2) refl

load_imm_jump_ind-Agrees : Agrees 180 inst_load_imm_jump_ind meta_load_imm_jump_ind
unfolding category fill_operands takes_operands inst_load_imm_jump_ind meta_load_imm_jump_ind
    on_error
load_imm_jump_ind-Agrees s pc skip i =
    let ((ra, rb, vx, vy), e) = i.decodes in
    let p =
      of_done _ _ (ra, rb, vx, vy) (two_registers_and_two_immediates-Regs s.program.code pc skip)
        e in
    run_filled _ s pc 180 skip two_reg_two_imm _ refl refl i (on_ok-done _ _ _ _ e)
    ∙ rw (e, lt→ltb ra 13 p.0, lt→ltb rb 13 p.1) refl

abbrev IsZero : ℕ → Type 0
IsZero x = x ≡ 0

-- An immediate of no bytes is zero.
read_signed-IsZero : (code : Slice) (from : ℕ) → Post IsZero (read_signed code from 0)
unfolding read_signed lift_option deserialize_fixed_length sign_extend
read_signed-IsZero code from =
    Post-bind Any IsZero (slice code from _) _ (Post-Any _) (λ bytes _. refl)

one_imm-filled :
    (code : Slice) (pc skip x : ℕ)
    → read_signed code (u32 (pc + 1)) (min 4 skip) ≡ done x
    → decode_one_immediate code pc skip ≡ done x
    → fill_operands one_imm code (blank pc 10 skip) ≡ done (record (blank pc 10 skip) { imm_0 = x })
unfolding fill_operands
one_imm-filled code pc zero x r e =
    ap (λ y. done (record (blank pc 10 0) { imm_0 = y }))
      (sym (of_done IsZero _ x (read_signed-IsZero code _) r))
one_imm-filled code pc (suc n) x r e =
    rw (not_below_one n)
      (on_ok-done (decode_one_immediate code pc (suc n)) (blank pc 10 (suc n)) _ x e)
  where
    not_below_one : (n : ℕ) → ltb (suc n) 1 ≡ false
    not_below_one n = ground arith

one_read :
    (code : Slice) (pc skip : ℕ)
    → read_signed code (u32 (pc + 1)) (min 4 skip) ≡ decode_one_immediate code pc skip
unfolding decode_one_immediate
one_read code pc skip = read_signed-read_extended code _ _ (omega arith) (omega arith)

ecalli-Agrees : Agrees 10 inst_ecalli meta_ecalli
unfolding category takes_operands inst_ecalli meta_ecalli on_error
ecalli-Agrees s pc skip i =
    let (x, e) = i.decodes in
    let r = one_read s.program.code pc skip ∙ e in
    run_filled _ s pc 10 skip one_imm _ refl refl i (one_imm-filled s.program.code pc skip x r e)
    ∙ rw r refl

slice-IsByte :
    (code : Slice) (from to : ℕ) → All IsByte code.full → Post (All IsByte) (slice code from to)
unfolding slice
slice-IsByte code from to h =
    Post-if (All IsByte) (leb from to && leb to (length code.full)) (done _) crash
      (All-take IsByte (to - from) _ (All-drop IsByte from _ h)) tt

eight_bytes :
    (bytes : List ℕ)
    → length bytes ≡ 8
    → All IsByte bytes
    → deserialize_fixed_length 64 bytes 8 ≡ some (get_uint bytes)
unfolding deserialize_fixed_length
eight_bytes bytes size h =
    ground (arith, or_bytes_lem bytes h (omega arith), get_uint-little_endian bytes)

index_inside : (code : Slice) (at : ℕ) → at < code.len → IsDone (index code at)
unfolding index
index_inside code at h = (get_or code.full at 0, rw (lt→ltb at code.len h) refl)

ext_imm-filled :
    (code : Slice) (pc skip b : ℕ) (bytes : List ℕ)
    → pc + 10 ≤ code.len
    → code.len ≤ 2 ^ 32 - 1
    → index code (u32 (pc + 1)) ≡ done b
    → slice code (u32 (pc + 2)) (u32 (pc + 10)) ≡ done bytes
    → fill_operands one_reg_ext_imm code (blank pc 20 skip)
      ≡ done (record (blank pc 20 skip) { dst = min 12 (b % 16); imm_0 = get_uint bytes })
unfolding fill_operands
ext_imm-filled code pc skip b bytes fits small at e = rw (at, e, inside code.len fits small) refl
  where
    inside : (n : ℕ) → pc + 10 ≤ n → n ≤ 2 ^ 32 - 1 → leb (u32 (pc + 10)) n ≡ true
    inside n h k = ground arith

-- The eight bytes of the wide immediate.
wide_value :
    (code : Slice) (pc : ℕ) (bytes : List ℕ)
    → All IsByte code.full
    → slice code (u32 (pc + 2)) (u32 (pc + 10)) ≡ done bytes
    → deserialize_fixed_length 64 bytes 8 ≡ some (get_uint bytes)
wide_value code pc bytes h e =
    let bound = subst (λ to. slice code (u32 (pc + 2)) to ≡ done bytes) (omega arith) e in
    eight_bytes bytes (length-slice code (u32 (pc + 2)) 8 bytes (omega arith) (omega arith) bound)
      (of_done (All IsByte) _ bytes (slice-IsByte code _ _ h) e)

load_imm_64-Agrees : Agrees 20 inst_load_imm_64 meta_load_imm_64
unfolding category takes_operands inst_load_imm_64 meta_load_imm_64 on_error write
load_imm_64-Agrees s pc skip i =
    let (fits, (bytes, e)) = i.decodes in
    let at =
      index_inside s.program.code (u32 (pc + 1)) (reached s.program.code.len (i.inside refl)) in
    run_filled _ s pc 20 skip one_reg_ext_imm _ refl refl i
      (ext_imm-filled s.program.code pc skip at.0 bytes fits i.small at.1 e)
    ∙ rw (at.1, e, wide_value s.program.code pc bytes i.bytes e, register at.0) refl
  where
    reached : (n : ℕ) → pc + 1 < n → u32 (pc + 1) < n
    reached n h = omega arith

    register : (b : ℕ) → ltb (min 12 (b % 16)) 13 ≡ true
    register b = lt→ltb (min 12 (b % 16)) 13 (omega arith)

pub control_rows-Alike : Alike control_rows meta_control_rows
unfolding category control_rows meta_control_rows
control_rows-Alike =
    trap-Agrees
    ≈ fallthrough-Agrees
    ≈ ecalli-Agrees
    ≈ load_imm_64-Agrees
    ≈ jump-Agrees
    ≈ jump_ind-Agrees
    ≈ load_imm-Agrees
    ≈ immediate_branch-Agrees _ refl
    ≈ immediate_branch-Agrees _ refl
    ≈ immediate_branch-Agrees _ refl
    ≈ immediate_branch-Agrees _ refl
    ≈ immediate_branch-Agrees _ refl
    ≈ immediate_branch-Agrees _ refl
    ≈ immediate_branch-Agrees _ refl
    ≈ immediate_branch-Agrees _ refl
    ≈ immediate_branch-Agrees _ refl
    ≈ immediate_branch-Agrees _ refl
    ≈ immediate_branch-Agrees _ refl
    ≈ branch-Agrees _ refl
    ≈ branch-Agrees _ refl
    ≈ branch-Agrees _ refl
    ≈ branch-Agrees _ refl
    ≈ branch-Agrees _ refl
    ≈ branch-Agrees _ refl
    ≈ load_imm_jump_ind-Agrees
    ≈ no_more
