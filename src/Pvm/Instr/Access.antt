-- ===== src/Pvm/Instr/Access.antt =====
-- Loads and stores: immediate, absolute and indirect addresses.
use jam_protocol.Base.Words.{u8, u16, u32, add64, signed8, signed16, signed32, unsigned64}
use jam_protocol.Pvm.State.{Handler, reg, exit_halt, exit_panic}
use jam_protocol.Pvm.Memory.{one, two, four, eight, store_into_memory, load_from_memory}
use jam_protocol.Pvm.Decode.{
  decode_two_immediates, decode_one_register_and_one_immediate,
  decode_one_register_and_two_immediates, decode_two_registers_and_one_immediate,
}
use jam_protocol.Pvm.Instr.{on_error, stored, loaded}

unfoldable pub inst_store_imm_u8 : Handler
inst_store_imm_u8 s pc skip =
    on_error s pc exit_panic (decode_two_immediates s.program.code pc skip)
      λ (vx, vy). stored s pc (store_into_memory s.memory one (u32 vx) (u8 vy))

unfoldable pub inst_store_imm_u16 : Handler
inst_store_imm_u16 s pc skip =
    on_error s pc exit_panic (decode_two_immediates s.program.code pc skip)
      λ (vx, vy). stored s pc (store_into_memory s.memory two (u32 vx) (u16 vy))

unfoldable pub inst_store_imm_u32 : Handler
inst_store_imm_u32 s pc skip =
    on_error s pc exit_panic (decode_two_immediates s.program.code pc skip)
      λ (vx, vy). stored s pc (store_into_memory s.memory four (u32 vx) (u32 vy))

unfoldable pub inst_store_imm_u64 : Handler
inst_store_imm_u64 s pc skip =
    on_error s pc exit_panic (decode_two_immediates s.program.code pc skip)
      λ (vx, vy). stored s pc (store_into_memory s.memory eight (u32 vx) vy)

unfoldable pub inst_load_u8 : Handler
inst_load_u8 s pc skip =
    on_error s pc exit_halt (decode_one_register_and_one_immediate s.program.code pc skip)
      λ (ra, vx). loaded s pc ra (λ v. v) (load_from_memory s.memory one (u32 vx))

unfoldable pub inst_load_i8 : Handler
inst_load_i8 s pc skip =
    on_error s pc exit_halt (decode_one_register_and_one_immediate s.program.code pc skip)
      λ (ra, vx).
        loaded s pc ra (λ v. unsigned64 (signed8 (u8 v))) (load_from_memory s.memory one (u32 vx))

unfoldable pub inst_load_u16 : Handler
inst_load_u16 s pc skip =
    on_error s pc exit_halt (decode_one_register_and_one_immediate s.program.code pc skip)
      λ (ra, vx). loaded s pc ra (λ v. v) (load_from_memory s.memory two (u32 vx))

unfoldable pub inst_load_i16 : Handler
inst_load_i16 s pc skip =
    on_error s pc exit_halt (decode_one_register_and_one_immediate s.program.code pc skip)
      λ (ra, vx).
        loaded s pc ra (λ v. unsigned64 (signed16 (u16 v))) (load_from_memory s.memory two (u32 vx))

unfoldable pub inst_load_u32 : Handler
inst_load_u32 s pc skip =
    on_error s pc exit_halt (decode_one_register_and_one_immediate s.program.code pc skip)
      λ (ra, vx). loaded s pc ra (λ v. v) (load_from_memory s.memory four (u32 vx))

unfoldable pub inst_load_i32 : Handler
inst_load_i32 s pc skip =
    on_error s pc exit_halt (decode_one_register_and_one_immediate s.program.code pc skip)
      λ (ra, vx).
        loaded s pc ra (λ v. unsigned64 (signed32 (u32 v)))
          (load_from_memory s.memory four (u32 vx))

unfoldable pub inst_load_u64 : Handler
inst_load_u64 s pc skip =
    on_error s pc exit_halt (decode_one_register_and_one_immediate s.program.code pc skip)
      λ (ra, vx). loaded s pc ra (λ v. v) (load_from_memory s.memory eight (u32 vx))

unfoldable pub inst_store_u8 : Handler
inst_store_u8 s pc skip =
    on_error s pc exit_halt (decode_one_register_and_one_immediate s.program.code pc skip)
      λ (ra, vx). stored s pc (store_into_memory s.memory one (u32 vx) (u8 (reg s ra)))

unfoldable pub inst_store_u16 : Handler
inst_store_u16 s pc skip =
    on_error s pc exit_halt (decode_one_register_and_one_immediate s.program.code pc skip)
      λ (ra, vx). stored s pc (store_into_memory s.memory two (u32 vx) (u16 (reg s ra)))

unfoldable pub inst_store_u32 : Handler
inst_store_u32 s pc skip =
    on_error s pc exit_halt (decode_one_register_and_one_immediate s.program.code pc skip)
      λ (ra, vx). stored s pc (store_into_memory s.memory four (u32 vx) (u32 (reg s ra)))

unfoldable pub inst_store_u64 : Handler
inst_store_u64 s pc skip =
    on_error s pc exit_halt (decode_one_register_and_one_immediate s.program.code pc skip)
      λ (ra, vx). stored s pc (store_into_memory s.memory eight (u32 vx) (reg s ra))

unfoldable pub inst_store_imm_ind_u8 : Handler
inst_store_imm_ind_u8 s pc skip =
    on_error s pc exit_halt (decode_one_register_and_two_immediates s.program.code pc skip)
      λ (ra, vx, vy).
        stored s pc (store_into_memory s.memory one (u32 (add64 (reg s ra) vx)) (u8 vy))

unfoldable pub inst_store_imm_ind_u16 : Handler
inst_store_imm_ind_u16 s pc skip =
    on_error s pc exit_halt (decode_one_register_and_two_immediates s.program.code pc skip)
      λ (ra, vx, vy).
        stored s pc (store_into_memory s.memory two (u32 (add64 (reg s ra) vx)) (u16 vy))

unfoldable pub inst_store_imm_ind_u32 : Handler
inst_store_imm_ind_u32 s pc skip =
    on_error s pc exit_halt (decode_one_register_and_two_immediates s.program.code pc skip)
      λ (ra, vx, vy).
        stored s pc (store_into_memory s.memory four (u32 (add64 (reg s ra) vx)) (u32 vy))

unfoldable pub inst_store_imm_ind_u64 : Handler
inst_store_imm_ind_u64 s pc skip =
    on_error s pc exit_halt (decode_one_register_and_two_immediates s.program.code pc skip)
      λ (ra, vx, vy). stored s pc (store_into_memory s.memory eight (u32 (add64 (reg s ra) vx)) vy)

unfoldable pub inst_store_ind_u8 : Handler
inst_store_ind_u8 s pc skip =
    on_error s pc exit_halt (decode_two_registers_and_one_immediate s.program.code pc skip)
      λ (ra, rb, vx).
        stored s pc (store_into_memory s.memory one (u32 (add64 (reg s rb) vx)) (u8 (reg s ra)))

unfoldable pub inst_store_ind_u16 : Handler
inst_store_ind_u16 s pc skip =
    on_error s pc exit_halt (decode_two_registers_and_one_immediate s.program.code pc skip)
      λ (ra, rb, vx).
        stored s pc (store_into_memory s.memory two (u32 (add64 (reg s rb) vx)) (u16 (reg s ra)))

unfoldable pub inst_store_ind_u32 : Handler
inst_store_ind_u32 s pc skip =
    on_error s pc exit_halt (decode_two_registers_and_one_immediate s.program.code pc skip)
      λ (ra, rb, vx).
        stored s pc (store_into_memory s.memory four (u32 (add64 (reg s rb) vx)) (u32 (reg s ra)))

unfoldable pub inst_store_ind_u64 : Handler
inst_store_ind_u64 s pc skip =
    on_error s pc exit_halt (decode_two_registers_and_one_immediate s.program.code pc skip)
      λ (ra, rb, vx).
        stored s pc (store_into_memory s.memory eight (u32 (add64 (reg s rb) vx)) (reg s ra))

unfoldable pub inst_load_ind_u8 : Handler
inst_load_ind_u8 s pc skip =
    on_error s pc exit_halt (decode_two_registers_and_one_immediate s.program.code pc skip)
      λ (ra, rb, vx).
        loaded s pc ra (λ v. v) (load_from_memory s.memory one (u32 (add64 (reg s rb) vx)))

unfoldable pub inst_load_ind_i8 : Handler
inst_load_ind_i8 s pc skip =
    on_error s pc exit_halt (decode_two_registers_and_one_immediate s.program.code pc skip)
      λ (ra, rb, vx).
        loaded s pc ra (λ v. unsigned64 (signed8 (u8 v)))
          (load_from_memory s.memory one (u32 (add64 (reg s rb) vx)))

unfoldable pub inst_load_ind_u16 : Handler
inst_load_ind_u16 s pc skip =
    on_error s pc exit_halt (decode_two_registers_and_one_immediate s.program.code pc skip)
      λ (ra, rb, vx).
        loaded s pc ra (λ v. v) (load_from_memory s.memory two (u32 (add64 (reg s rb) vx)))

unfoldable pub inst_load_ind_i16 : Handler
inst_load_ind_i16 s pc skip =
    on_error s pc exit_halt (decode_two_registers_and_one_immediate s.program.code pc skip)
      λ (ra, rb, vx).
        loaded s pc ra (λ v. unsigned64 (signed16 (u16 v)))
          (load_from_memory s.memory two (u32 (add64 (reg s rb) vx)))

unfoldable pub inst_load_ind_u32 : Handler
inst_load_ind_u32 s pc skip =
    on_error s pc exit_halt (decode_two_registers_and_one_immediate s.program.code pc skip)
      λ (ra, rb, vx).
        loaded s pc ra (λ v. v) (load_from_memory s.memory four (u32 (add64 (reg s rb) vx)))

unfoldable pub inst_load_ind_i32 : Handler
inst_load_ind_i32 s pc skip =
    on_error s pc exit_halt (decode_two_registers_and_one_immediate s.program.code pc skip)
      λ (ra, rb, vx).
        loaded s pc ra (λ v. unsigned64 (signed32 (u32 v)))
          (load_from_memory s.memory four (u32 (add64 (reg s rb) vx)))

unfoldable pub inst_load_ind_u64 : Handler
inst_load_ind_u64 s pc skip =
    on_error s pc exit_halt (decode_two_registers_and_one_immediate s.program.code pc skip)
      λ (ra, rb, vx).
        loaded s pc ra (λ v. v) (load_from_memory s.memory eight (u32 (add64 (reg s rb) vx)))
