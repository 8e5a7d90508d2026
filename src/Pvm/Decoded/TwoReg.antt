-- ===== src/Pvm/Decoded/TwoReg.antt =====
-- The decoded handlers of two registers, and `sbrk`: PVM/instructions_instrmeta.go.
use jam_protocol.Base.{◌%◌, ◌^◌, ltb, ◌==◌, if◌then◌else◌}
use jam_protocol.Base.Words.{u8, u16, u32, add64, signed8, signed16, unsigned64}
use jam_protocol.Pvm.State.{out, exit_continue}
use jam_protocol.Pvm.Alu.{ones_count, leading_zeros, trailing_zeros, reverse_bytes64}
use jam_protocol.Pvm.Instr.TwoReg.{grow_heap}
use jam_protocol.Pvm.Decoded.{MetaHandler, with_reg, put_reg, meta_two_registers}

unfoldable pub meta_move_reg : MetaHandler
meta_move_reg s i = meta_two_registers s i (λ a. a)

unfoldable pub meta_sbrk : MetaHandler
unfolding with_reg put_reg
meta_sbrk s i = with_reg s i.src_0 λ size.
    let m = s.memory in
    let new_pointer = add64 m.heap_pointer size in
    if size == 0
    then put_reg s i.dst m.heap_pointer (λ s'. out s' exit_continue i.pc)
    else if ltb new_pointer m.heap_pointer
    then put_reg s i.dst 0 (λ s'. out s' exit_continue i.pc)
    else if ltb m.heap_limit new_pointer
    then put_reg s i.dst 0 (λ s'. out s' exit_continue i.pc)
    else put_reg (record s { memory = grow_heap m new_pointer }) i.dst new_pointer
        (λ s'. out s' exit_continue i.pc)

unfoldable pub meta_count_set_bits_64 : MetaHandler
meta_count_set_bits_64 s i = meta_two_registers s i (λ a. ones_count 64 a)

unfoldable pub meta_count_set_bits_32 : MetaHandler
meta_count_set_bits_32 s i = meta_two_registers s i (λ a. ones_count 32 (u32 a))

unfoldable pub meta_leading_zero_bits_64 : MetaHandler
meta_leading_zero_bits_64 s i = meta_two_registers s i (λ a. leading_zeros 64 a)

unfoldable pub meta_leading_zero_bits_32 : MetaHandler
meta_leading_zero_bits_32 s i = meta_two_registers s i (λ a. leading_zeros 32 (u32 a))

unfoldable pub meta_trail_zero_bits_64 : MetaHandler
meta_trail_zero_bits_64 s i = meta_two_registers s i (λ a. trailing_zeros 64 a)

unfoldable pub meta_trail_zero_bits_32 : MetaHandler
meta_trail_zero_bits_32 s i = meta_two_registers s i (λ a. trailing_zeros 32 (u32 a))

unfoldable pub meta_sign_extend_8 : MetaHandler
meta_sign_extend_8 s i = meta_two_registers s i (λ a. unsigned64 (signed8 (u8 a)))

unfoldable pub meta_sign_extend_16 : MetaHandler
meta_sign_extend_16 s i = meta_two_registers s i (λ a. unsigned64 (signed16 (u16 a)))

unfoldable pub meta_zero_extend_16 : MetaHandler
meta_zero_extend_16 s i = meta_two_registers s i (λ a. a % 2 ^ 16)

unfoldable pub meta_reverse_bytes : MetaHandler
meta_reverse_bytes s i = meta_two_registers s i (λ a. reverse_bytes64 a)
