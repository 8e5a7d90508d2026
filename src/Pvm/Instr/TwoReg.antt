-- ===== src/Pvm/Instr/TwoReg.antt =====
-- Instructions on two registers, and `sbrk`.
use jam_protocol.Base.{
  ℕ, zero, suc, ◌+◌, ◌-◌, ◌*◌, ◌/◌, ◌%◌, ◌^◌, Option, none, some, List, ltb, ◌==◌, if◌then◌else◌,
  take, drop, replicate,
}
use jam_protocol.Base.Words.{u8, u16, u32, add64, signed8, signed16, unsigned64}
use jam_protocol.Pvm.State.{Handler, Interp, Out, Memory, Access, read_write, reg, zp, exit_halt}
use jam_protocol.Pvm.Memory.{write_page, copy_at}
use jam_protocol.Pvm.Decode.{decode_two_registers}
use jam_protocol.Pvm.Alu.{ones_count, leading_zeros, trailing_zeros, reverse_bytes64}
use jam_protocol.Pvm.Instr.{on_error, write, two_registers}

unfoldable pub inst_move_reg : Handler
inst_move_reg s pc skip = two_registers s pc (λ a. a)

-- `P`: an address rounded up to a page, on uint32.
unfoldable pub page_ceiling : ℕ → ℕ
page_ceiling x = u32 (zp * (u32 (u32 x + zp - 1) / zp))

-- `make([]byte, ZP)`
unfoldable pub zero_page : List ℕ
zero_page = replicate zp 0

-- One round of `allocateMemorySegment`: `none` for the content is Go's nil, which keeps a page that is
-- there.
unfoldable pub allocate_page : Access → Memory → ℕ → Option (List ℕ) → Memory
allocate_page access m n none = elim (m.pages n) [
  | some p ↦ m
  | none ↦ write_page m n (record { value = zero_page; access = access })
]
allocate_page access m n (some content) =
    write_page m n (record { value = copy_at zero_page 0 (take zp content); access = access })

unfoldable pub content_after : Option (List ℕ) → Option (List ℕ)
content_after none = none
content_after (some content) = some (drop zp content)

-- `for addr := start; addr < end; addr += ZP`, whose sum wraps around on uint32.
unfoldable pub allocate_loop : ℕ → Access → Memory → ℕ → ℕ → Option (List ℕ) → Memory
unfolding content_after
allocate_loop zero access m address end content = m
allocate_loop (suc rounds) access m address end content =
    let rest =
      allocate_loop rounds access (allocate_page access m (address / zp) content)
        (u32 (address + zp)) end (content_after content) in
    if ltb address end then rest else m

-- The rounds are enough where the sum does not wrap around, which is so for an end of at most
-- 2 ^ 32 - ZP, and so where the heap grows. For other ends the loop need not end.
unfoldable pub allocate_memory_segment : Memory → ℕ → ℕ → Option (List ℕ) → Access → Memory
allocate_memory_segment m start end content access =
    allocate_loop ((end - start + zp - 1) / zp) access m start end content

-- The heap grows to the page that holds its new end.
unfoldable pub grow_heap : Memory → ℕ → Memory
grow_heap m new_pointer =
    let m' =
      allocate_memory_segment m (u32 m.heap_pointer) (page_ceiling new_pointer) none read_write in
    record (if ltb (page_ceiling m.heap_pointer) new_pointer then m' else m) {
      heap_pointer = new_pointer;
    }

unfoldable pub sbrk : Interp → ℕ → ℕ → ℕ → Option Out
unfolding write
sbrk s pc rd size =
    let m = s.memory in
    let new_pointer = add64 m.heap_pointer size in
    if size == 0
    then write s pc rd m.heap_pointer
    else if ltb new_pointer m.heap_pointer
    then write s pc rd 0
    else if ltb m.heap_limit new_pointer
    then write s pc rd 0
    else write (record s { memory = grow_heap m new_pointer }) pc rd new_pointer

unfoldable pub inst_sbrk : Handler
inst_sbrk s pc skip =
    on_error s pc exit_halt (decode_two_registers s.program.code pc)
      λ (rd, ra). sbrk s pc rd (reg s ra)

unfoldable pub inst_count_set_bits_64 : Handler
inst_count_set_bits_64 s pc skip = two_registers s pc (λ a. ones_count 64 a)

unfoldable pub inst_count_set_bits_32 : Handler
inst_count_set_bits_32 s pc skip = two_registers s pc (λ a. ones_count 32 (u32 a))

unfoldable pub inst_leading_zero_bits_64 : Handler
inst_leading_zero_bits_64 s pc skip = two_registers s pc (λ a. leading_zeros 64 a)

unfoldable pub inst_leading_zero_bits_32 : Handler
inst_leading_zero_bits_32 s pc skip = two_registers s pc (λ a. leading_zeros 32 (u32 a))

unfoldable pub inst_trail_zero_bits_64 : Handler
inst_trail_zero_bits_64 s pc skip = two_registers s pc (λ a. trailing_zeros 64 a)

unfoldable pub inst_trail_zero_bits_32 : Handler
inst_trail_zero_bits_32 s pc skip = two_registers s pc (λ a. trailing_zeros 32 (u32 a))

unfoldable pub inst_sign_extend_8 : Handler
inst_sign_extend_8 s pc skip = two_registers s pc (λ a. unsigned64 (signed8 (u8 a)))

unfoldable pub inst_sign_extend_16 : Handler
inst_sign_extend_16 s pc skip = two_registers s pc (λ a. unsigned64 (signed16 (u16 a)))

unfoldable pub inst_zero_extend_16 : Handler
inst_zero_extend_16 s pc skip = two_registers s pc (λ a. a % 2 ^ 16)

unfoldable pub inst_reverse_bytes : Handler
inst_reverse_bytes s pc skip = two_registers s pc (λ a. reverse_bytes64 a)
