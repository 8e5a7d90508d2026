-- ===== src/Pvm/Examples.antt =====
-- A small program and a small memory, on which the machine is run.
use jam_protocol.Base.{
  ◌+◌, ℕ, inl, ◌<◌, ◌≤◌, ◌^◌, ◌/◌, ◌%◌, false, true, ◌-◌, ◌*◌, ◌⊎◌, ◌≡◌, ◌≢◌, refl, inr, none, [],
  ◌∷◌, arith, replicate,
}
use jam_protocol.Base.Int.{pos, ◌*ℤ◌}
use jam_protocol.Base.Words.{u32, signed64}
use jam_protocol.Pvm.State.{
  JumpTable, za, done, Program, Memory, Page, Interp, read_write, IsPage, IsMemory, IsMachine,
  exit_continue,
}
use jam_protocol.Pvm.Extend.{sign_extend, extended, sign_extend_lem}
use jam_protocol.Pvm.Memory.{
  four, two, write_page, store_page, store_across, store_into_memory, load_from_memory,
  page_fault_at,
}
use jam_protocol.Pvm.Memory.Frame.{write_page-IsMemory, peek, peek-store, store_into_memory-failed}
use jam_protocol.Pvm.Memory.Laws.{load-store, page_fault_at_lem}
use jam_protocol.Pvm.Instr.TwoReg.{zero_page}
use jam_protocol.Pvm.Machine.Heap.{length-zero_page, zero_page-IsByte}
use jam_protocol.Codec.{or_bytes}
use jam_protocol.Pvm.Extend.{read_uint_fixed}
use jam_protocol.Pvm.Decode.{sub32}
use jam_protocol.Pvm.Control.{
  is_valid_opcode, is_opcode_valid, is_start_of_basic_block, skip, branch, djump, jump_entry,
}
use jam_protocol.Pvm.Control.Skip.{IsSkip, skip-IsSkip}
use jam_protocol.Pvm.Control.Targets.{djump-continue, branch-continue}
use jam_protocol.Pvm.Alu.{mul_upper_s_u, mul_upper_s_s, rotate_left64, rotate_right64}
use jam_protocol.Pvm.Alu.Product.{
  upper, mul_upper_s_u_lem, mul_upper_s_s-exact, mul_upper_s_s-missing_borrow,
}
use jam_protocol.Pvm.Alu.Rotation.{rotate_right64-rotate_left64}
use jam_protocol.Pvm.Instr.Table.{exec_instructions}
use jam_protocol.Pvm.Instr.Complete.{has_handler, exec_instructions-is_valid_opcode}
use jam_protocol.Pvm.Step.{single_step_state_transition, single_step_invoke}
use jam_protocol.Pvm.Step.Invariant.{Transitions, single_step-Transitions}
use jam_protocol.Pvm.Step.Termination.{Finishes, single_step_invoke-Finishes}
use jam_protocol.Pvm.State.{index, slice}
use jam_protocol.Pvm.Decode.{
  decode_one_register_and_one_immediate, read_extended, low_register, immediate_length,
}
use jam_protocol.Pvm.Extend.{read_uint_sign_extended}
use jam_protocol.Pvm.Control.{category}
use jam_protocol.Pvm.Instr.Basic.{inst_load_imm}
use jam_protocol.Pvm.Instr.Table.{control_rows}
use jam_protocol.Pvm.Decoded.{takes_operands}
use jam_protocol.Pvm.Decoded.Table.{instr_meta_exec_for_opcode}
use jam_protocol.Pvm.Decoded.Agree.{run_decoded, IsInstr}
use jam_protocol.Pvm.Decoded.Agree.Handlers.{decoded-direct}

abbrev empty_memory : Memory
empty_memory = record { pages = λ _. none; heap_pointer = 0; heap_limit = 2 ^ 31 }

empty_memory-IsMemory : IsMemory empty_memory
empty_memory-IsMemory = record { page_at = λ n p e. absurd cc }

abbrev example_page : Page
example_page = record { value = zero_page; access = read_write }

example_page-IsPage : IsPage example_page
example_page-IsPage = record { size = length-zero_page; bytes = zero_page-IsByte }

-- Pages 16 and 17 are there.
abbrev example_memory : Memory
example_memory = write_page (write_page empty_memory 16 example_page) 17 example_page

example_memory-IsMemory : IsMemory example_memory
example_memory-IsMemory =
    write_page-IsMemory _ 17 example_page
      (write_page-IsMemory _ 16 example_page empty_memory-IsMemory example_page-IsPage)
      example_page-IsPage

-- The address is two bytes before the end of page 16, so that the store crosses.
load-store_example :
    load_from_memory (store_into_memory example_memory four 69630 305419896).0 four 69630
    ≡ (305419896, exit_continue)
unfolding store_into_memory write_page store_page store_across
load-store_example =
    load-store example_memory four 69630 305419896 example_memory-IsMemory (omega arith)
      (omega arith) refl

peek-store_example :
    peek (store_into_memory example_memory four 69630 305419896).0 69634 ≡ peek example_memory 69634
peek-store_example = peek-store example_memory four 69630 305419896 69634 (inr (omega arith))

fault_is_no_success : page_fault_at 73728 ≢ exit_continue
fault_is_no_success e = omega (arith, page_fault_at_lem 73728 (omega arith))

-- Page 18 is missing.
store_into_memory-failed_example :
    ((store_into_memory example_memory two 73728 7).0 ≡ example_memory)
    × ((store_into_memory example_memory two 73728 7).1 ≡ page_fault_at 73728)
unfolding store_into_memory write_page page_fault_at
store_into_memory-failed_example =
    store_into_memory-failed example_memory two 73728 7 fault_is_no_success

sign_extend_example : sign_extend 3 16711680 ≡ done (extended 3 (16711680 % 2 ^ 24))
sign_extend_example = sign_extend_lem 3 16711680 (omega arith) (omega arith)

-- `load_imm r7 42; trap`
abbrev example_program : Program
example_program = record {
  code = record { full = 51 ∷ 7 ∷ 42 ∷ 0 ∷ []; len = 4 };
  bitmask = 3 ∷ 0 ∷ 0 ∷ 1 ∷ [];
  jump_table = record { entries = []; width = 0; size = 0 };
}

abbrev example_machine : Interp
example_machine = record {
  program = example_program;
  registers = replicate 13 0;
  memory = empty_memory;
  gas = pos 5;
}

example_machine-IsMachine : IsMachine example_machine
example_machine-IsMachine = record {
  count = refl;
  words = ground arith;
  memory = empty_memory-IsMemory;
  heap = omega arith;
  code = (omega arith, (omega arith, (omega arith, (omega arith, tt))));
}

single_step_example : Transitions example_machine (single_step_state_transition example_machine 0)
single_step_example = single_step-Transitions example_machine 0 example_machine-IsMachine

single_step_invoke_example : Finishes example_machine (single_step_invoke 6 example_machine 0)
single_step_invoke_example =
    single_step_invoke-Finishes 6 example_machine 0 example_machine-IsMachine (omega arith)

exec_instructions_example : has_handler (exec_instructions 230) ≡ is_valid_opcode 230
exec_instructions_example = exec_instructions-is_valid_opcode 230 (omega arith)

skip_example : IsSkip example_program.bitmask 0 (skip example_program.bitmask 0)
skip_example = skip-IsSkip example_program.bitmask 0

abbrev example_table : JumpTable
example_table = record { entries = 3 ∷ []; width = 1; size = 1 }

djump_example :
    (is_start_of_basic_block (3 ∷ 0 ∷ 0 ∷ 3 ∷ []) 3 ≡ true)
    × (jump_entry example_table (sub32 (2 / za) 1) ≡ done 3)
    × (0 < 2)
    × (2 ≤ u32 (example_table.size * za))
    × (2 % za ≡ 0)
unfolding djump jump_entry read_uint_fixed or_bytes is_start_of_basic_block
djump_example = djump-continue 0 2 3 example_table (3 ∷ 0 ∷ 0 ∷ 3 ∷ []) refl

branch_example :
    (true ≡ true)
    × (◌≡◌ {A = ℕ} 3 3)
    × ((is_start_of_basic_block (3 ∷ 0 ∷ 0 ∷ 3 ∷ []) 3 ≡ true)
        ⊎ (is_opcode_valid example_program.code 3 ≡ done false))
unfolding branch is_start_of_basic_block
branch_example =
    branch-continue 0 3 3 true (3 ∷ 0 ∷ 0 ∷ 3 ∷ []) example_program.code refl (omega arith)

-- The words of -3 and -1.
mul_upper_s_u_example : mul_upper_s_u (2 ^ 64 - 3) 5 ≡ upper (signed64 (2 ^ 64 - 3) *ℤ pos 5)
mul_upper_s_u_example = mul_upper_s_u_lem (2 ^ 64 - 3) 5 (omega arith) (omega arith)

mul_upper_s_s_example :
    mul_upper_s_s (2 ^ 64 - 3) (2 ^ 64 - 1) ≡ upper (signed64 (2 ^ 64 - 3) *ℤ signed64 (2 ^ 64 - 1))
mul_upper_s_s_example =
    mul_upper_s_s-exact (2 ^ 64 - 3) (2 ^ 64 - 1) (omega arith) (omega arith) (inl refl)

missing_borrow_example :
    mul_upper_s_s (2 ^ 64 - 1) 1 ≡ (upper (signed64 (2 ^ 64 - 1) *ℤ signed64 1) + 1) % 2 ^ 64
missing_borrow_example =
    mul_upper_s_s-missing_borrow (2 ^ 64 - 1) 1 (omega arith) (omega arith) refl refl (omega arith)

rotate_example : rotate_right64 (rotate_left64 (2 ^ 63 + 5) 7) 7 ≡ 2 ^ 63 + 5
rotate_example = rotate_right64-rotate_left64 (2 ^ 63 + 5) 7 (omega arith)

-- `load_imm r7 42` stands at the start of the code.
load_imm-IsInstr : IsInstr example_machine 0 51 2
unfolding index category takes_operands decode_one_register_and_one_immediate read_extended
    low_register read_uint_sign_extended read_uint_fixed sign_extend or_bytes immediate_length slice
load_imm-IsInstr = record {
  opcode = refl;
  bytes = (omega arith, (omega arith, (omega arith, (omega arith, tt))));
  inside = λ _. omega arith;
  small = omega arith;
  decodes = ((7, 42), refl);
}

decoded-direct_example :
    run_decoded (instr_meta_exec_for_opcode 51) example_machine 0 51 2
    ≡ inst_load_imm example_machine 0 2
unfolding exec_instructions control_rows
decoded-direct_example = decoded-direct example_machine 0 51 2 inst_load_imm refl load_imm-IsInstr
