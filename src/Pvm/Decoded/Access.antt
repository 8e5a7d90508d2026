-- ===== src/Pvm/Decoded/Access.antt =====
-- The decoded loads and stores: PVM/instructions_instrmeta.go.
use jam_protocol.Base.Words.{u8, u16, u32, add64, signed8, signed16, signed32, unsigned64}
use jam_protocol.Pvm.Memory.{one, two, four, eight, store_into_memory, load_from_memory}
use jam_protocol.Pvm.Instr.{stored}
use jam_protocol.Pvm.Decoded.{MetaHandler, with_reg, meta_loaded}

unfoldable pub meta_store_imm_u8 : MetaHandler
meta_store_imm_u8 s i = stored s i.pc (store_into_memory s.memory one (u32 i.imm_0) (u8 i.imm_1))

unfoldable pub meta_store_imm_u16 : MetaHandler
meta_store_imm_u16 s i = stored s i.pc (store_into_memory s.memory two (u32 i.imm_0) (u16 i.imm_1))

unfoldable pub meta_store_imm_u32 : MetaHandler
meta_store_imm_u32 s i = stored s i.pc (store_into_memory s.memory four (u32 i.imm_0) (u32 i.imm_1))

unfoldable pub meta_store_imm_u64 : MetaHandler
meta_store_imm_u64 s i = stored s i.pc (store_into_memory s.memory eight (u32 i.imm_0) i.imm_1)

unfoldable pub meta_load_u8 : MetaHandler
meta_load_u8 s i = meta_loaded s i i.dst (λ v. v) (load_from_memory s.memory one (u32 i.imm_0))

unfoldable pub meta_load_i8 : MetaHandler
meta_load_i8 s i =
    meta_loaded s i i.dst (λ v. unsigned64 (signed8 (u8 v)))
      (load_from_memory s.memory one (u32 i.imm_0))

unfoldable pub meta_load_u16 : MetaHandler
meta_load_u16 s i = meta_loaded s i i.dst (λ v. v) (load_from_memory s.memory two (u32 i.imm_0))

unfoldable pub meta_load_i16 : MetaHandler
meta_load_i16 s i =
    meta_loaded s i i.dst (λ v. unsigned64 (signed16 (u16 v)))
      (load_from_memory s.memory two (u32 i.imm_0))

unfoldable pub meta_load_u32 : MetaHandler
meta_load_u32 s i = meta_loaded s i i.dst (λ v. v) (load_from_memory s.memory four (u32 i.imm_0))

unfoldable pub meta_load_i32 : MetaHandler
meta_load_i32 s i =
    meta_loaded s i i.dst (λ v. unsigned64 (signed32 (u32 v)))
      (load_from_memory s.memory four (u32 i.imm_0))

unfoldable pub meta_load_u64 : MetaHandler
meta_load_u64 s i = meta_loaded s i i.dst (λ v. v) (load_from_memory s.memory eight (u32 i.imm_0))

unfoldable pub meta_store_u8 : MetaHandler
meta_store_u8 s i =
    with_reg s i.dst λ a. stored s i.pc (store_into_memory s.memory one (u32 i.imm_0) (u8 a))

unfoldable pub meta_store_u16 : MetaHandler
meta_store_u16 s i =
    with_reg s i.dst λ a. stored s i.pc (store_into_memory s.memory two (u32 i.imm_0) (u16 a))

unfoldable pub meta_store_u32 : MetaHandler
meta_store_u32 s i =
    with_reg s i.dst λ a. stored s i.pc (store_into_memory s.memory four (u32 i.imm_0) (u32 a))

unfoldable pub meta_store_u64 : MetaHandler
meta_store_u64 s i =
    with_reg s i.dst λ a. stored s i.pc (store_into_memory s.memory eight (u32 i.imm_0) a)

unfoldable pub meta_store_imm_ind_u8 : MetaHandler
meta_store_imm_ind_u8 s i =
    with_reg s i.src_0
      λ a. stored s i.pc (store_into_memory s.memory one (u32 (add64 a i.imm_0)) (u8 i.imm_1))

unfoldable pub meta_store_imm_ind_u16 : MetaHandler
meta_store_imm_ind_u16 s i =
    with_reg s i.src_0
      λ a. stored s i.pc (store_into_memory s.memory two (u32 (add64 a i.imm_0)) (u16 i.imm_1))

unfoldable pub meta_store_imm_ind_u32 : MetaHandler
meta_store_imm_ind_u32 s i =
    with_reg s i.src_0
      λ a. stored s i.pc (store_into_memory s.memory four (u32 (add64 a i.imm_0)) (u32 i.imm_1))

unfoldable pub meta_store_imm_ind_u64 : MetaHandler
meta_store_imm_ind_u64 s i =
    with_reg s i.src_0
      λ a. stored s i.pc (store_into_memory s.memory eight (u32 (add64 a i.imm_0)) i.imm_1)

unfoldable pub meta_store_ind_u8 : MetaHandler
meta_store_ind_u8 s i = with_reg s i.src_0 λ b.
    with_reg s i.dst
      λ a. stored s i.pc (store_into_memory s.memory one (u32 (add64 b i.imm_0)) (u8 a))

unfoldable pub meta_store_ind_u16 : MetaHandler
meta_store_ind_u16 s i = with_reg s i.src_0 λ b.
    with_reg s i.dst
      λ a. stored s i.pc (store_into_memory s.memory two (u32 (add64 b i.imm_0)) (u16 a))

unfoldable pub meta_store_ind_u32 : MetaHandler
meta_store_ind_u32 s i = with_reg s i.src_0 λ b.
    with_reg s i.dst
      λ a. stored s i.pc (store_into_memory s.memory four (u32 (add64 b i.imm_0)) (u32 a))

unfoldable pub meta_store_ind_u64 : MetaHandler
meta_store_ind_u64 s i = with_reg s i.src_0 λ b.
    with_reg s i.dst λ a. stored s i.pc (store_into_memory s.memory eight (u32 (add64 b i.imm_0)) a)

unfoldable pub meta_load_ind_u8 : MetaHandler
meta_load_ind_u8 s i =
    with_reg s i.src_0
      λ b. meta_loaded s i i.dst (λ v. v) (load_from_memory s.memory one (u32 (add64 b i.imm_0)))

unfoldable pub meta_load_ind_i8 : MetaHandler
meta_load_ind_i8 s i = with_reg s i.src_0 λ b.
    meta_loaded s i i.dst (λ v. unsigned64 (signed8 (u8 v)))
      (load_from_memory s.memory one (u32 (add64 b i.imm_0)))

unfoldable pub meta_load_ind_u16 : MetaHandler
meta_load_ind_u16 s i =
    with_reg s i.src_0
      λ b. meta_loaded s i i.dst (λ v. v) (load_from_memory s.memory two (u32 (add64 b i.imm_0)))

unfoldable pub meta_load_ind_i16 : MetaHandler
meta_load_ind_i16 s i = with_reg s i.src_0 λ b.
    meta_loaded s i i.dst (λ v. unsigned64 (signed16 (u16 v)))
      (load_from_memory s.memory two (u32 (add64 b i.imm_0)))

unfoldable pub meta_load_ind_u32 : MetaHandler
meta_load_ind_u32 s i =
    with_reg s i.src_0
      λ b. meta_loaded s i i.dst (λ v. v) (load_from_memory s.memory four (u32 (add64 b i.imm_0)))

unfoldable pub meta_load_ind_i32 : MetaHandler
meta_load_ind_i32 s i = with_reg s i.src_0 λ b.
    meta_loaded s i i.dst (λ v. unsigned64 (signed32 (u32 v)))
      (load_from_memory s.memory four (u32 (add64 b i.imm_0)))

unfoldable pub meta_load_ind_u64 : MetaHandler
meta_load_ind_u64 s i =
    with_reg s i.src_0
      λ b. meta_loaded s i i.dst (λ v. v) (load_from_memory s.memory eight (u32 (add64 b i.imm_0)))
