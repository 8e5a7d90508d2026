-- ===== src/Pvm/Machine/Heap.antt =====
-- `sbrk` keeps the form of the machine, and stores keep the heap pointer.
use jam_protocol.Base.{
  ◌≤◌, ◌*◌, false, ℕ, zero, suc, ◌+◌, ◌/◌, ◌^◌, ◌<◌, ◌≡◌, refl, ◌∙◌, inl, inr, Option, none, some,
  List, arith, All, length, replicate, length-replicate, take, All-take, All-drop, ltb, ◌==◌,
  Bool-cases, Option-cases,
}
use jam_protocol.Base.Words.{IsByte, IsU64, add64, u32}
use jam_protocol.Pvm.State.{
  Interp, Memory, Page, Access, read_write, IsMemory, IsPage, IsMachine, zp, reg, set_reg, out,
  exit_halt, exit_continue,
}
use jam_protocol.Pvm.Decode.{decode_two_registers}
use jam_protocol.Pvm.Memory.{write_page}
use jam_protocol.Pvm.Memory.Copy.{length-copy_at, copy_at-IsByte}
use jam_protocol.Pvm.Memory.Frame.{write_page-IsMemory}
use jam_protocol.Pvm.Instr.TwoReg.{
  zero_page, allocate_page, allocate_loop, allocate_memory_segment, content_after, grow_heap,
  page_ceiling, sbrk, inst_sbrk,
}
use jam_protocol.Pvm.Machine.{
  Steps, set_reg-Steps, set_reg-IsMachine, if-Steps, on_error-Steps, set_memory-IsMachine,
}
use jam_protocol.Pvm.Machine.Decoded.{Any, Post-Any}

replicate-IsByte : (n : ℕ) → All IsByte (replicate n 0)
replicate-IsByte zero = tt
replicate-IsByte (suc n) = (omega arith, replicate-IsByte n)

pub length-zero_page : length zero_page ≡ zp
unfolding zero_page
length-zero_page = length-replicate {A = ℕ} zp 0

pub zero_page-IsByte : All IsByte zero_page
unfolding zero_page
zero_page-IsByte = replicate-IsByte zp

-- The content that an allocation is given holds bytes.
abbrev pub IsContent : Option (List ℕ) → Type 0
IsContent none = Unit
IsContent (some content) = All IsByte content

-- Allocating pages keeps the memory's form, and changes no other field of the memory.
pub record Allocated (m m' : Memory) : Type 0 where
  pub memory : IsMemory m'
  pub pointer : m'.heap_pointer ≡ m.heap_pointer
  pub limit : m'.heap_limit ≡ m.heap_limit

new_page-Allocated :
    (m : Memory) (n : ℕ) (p : Page) → IsMemory m → IsPage p → Allocated m (write_page m n p)
unfolding write_page
new_page-Allocated m n p ok page = record {
  memory = unfold write_page in write_page-IsMemory m n p ok page;
  pointer = refl;
  limit = refl;
}

allocate_page-Allocated :
    (access : Access) (m : Memory) (n : ℕ) (content : Option (List ℕ))
    → IsMemory m
    → IsContent content
    → Allocated m (allocate_page access m n content)
unfolding allocate_page
allocate_page-Allocated access m n none ok c = elim (Option-cases (m.pages n)) [
  | inr (p, found) ↦
      rw (found, allocate_page) (record { memory = ok; pointer = refl; limit = refl })
  | inl free ↦
      rw (free, allocate_page)
        (new_page-Allocated m n _ ok (record { size = length-zero_page; bytes = zero_page-IsByte }))
]
allocate_page-Allocated access m n (some content) ok c = new_page-Allocated m n _ ok (record {
  size = length-copy_at zero_page 0 (take zp content) ∙ length-zero_page;
  bytes =
      copy_at-IsByte zero_page 0 (take zp content) zero_page-IsByte (All-take IsByte zp content c);
})

content_after-IsContent :
    (content : Option (List ℕ)) → IsContent content → IsContent (content_after content)
unfolding content_after
content_after-IsContent none c = tt
content_after-IsContent (some content) c = All-drop IsByte zp content c

allocate_loop-Allocated :
    (rounds : ℕ) (access : Access) (m : Memory) (address end : ℕ) (content : Option (List ℕ))
    → IsMemory m
    → IsContent content
    → Allocated m (allocate_loop rounds access m address end content)
unfolding allocate_loop
allocate_loop-Allocated zero access m address end content ok c = record {
  memory = ok;
  pointer = refl;
  limit = refl;
}
allocate_loop-Allocated (suc rounds) access m address end content ok c =
    let first = allocate_page-Allocated access m (address / zp) content ok c in
    let rest =
      allocate_loop-Allocated rounds access (allocate_page access m (address / zp) content)
        (u32 (address + zp)) end (content_after content) first.memory
        (content_after-IsContent content c) in
    elim (Bool-cases (ltb address end)) [
      | inl more ↦ rw more (record {
        memory = rest.memory;
        pointer = rest.pointer ∙ first.pointer;
        limit = rest.limit ∙ first.limit;
      })
      | inr done ↦ rw done (record { memory = ok; pointer = refl; limit = refl })
    ]

-- Where the sum cannot wrap around, one more round than reach the end makes no difference.
allocate_loop-suc :
    (rounds : ℕ) (access : Access) (m : Memory) (address end : ℕ) (content : Option (List ℕ))
    → end + zp ≤ 2 ^ 32
    → end ≤ address + rounds * zp
    → allocate_loop (suc rounds) access m address end content
      ≡ allocate_loop rounds access m address end content
unfolding allocate_loop
allocate_loop-suc zero access m address end content fits reached =
    let past : (ltb address end ≡ false) = ground arith in rw past refl
allocate_loop-suc (suc rounds) access m address end content fits reached =
    elim (Bool-cases (ltb address end)) [
      | inl more ↦
          (let next =
              allocate_loop-suc rounds access (allocate_page access m (address / zp) content)
                (u32 (address + zp)) end (content_after content) fits (ground arith) in
            rw more next)
      | inr done ↦ rw done refl
    ]

-- The end of the heap's pages leaves room for one page.
page_ceiling-fits : (x : ℕ) → page_ceiling x + zp ≤ 2 ^ 32
unfolding page_ceiling
page_ceiling-fits x = omega arith

-- On whole pages of bytes, and a content of bytes where there is one, `allocateMemorySegment` gives
-- whole pages of bytes, and leaves the heap pointer and the heap limit alone.
pub allocate_memory_segment-Allocated :
    (m : Memory) (start end : ℕ) (content : Option (List ℕ)) (access : Access)
    → IsMemory m
    → IsContent content
    → Allocated m (allocate_memory_segment m start end content access)
unfolding allocate_memory_segment
allocate_memory_segment-Allocated m start end content access ok c =
    allocate_loop-Allocated _ access m start end content ok c

grow_heap-IsMemory : (m : Memory) (p : ℕ) → IsMemory m → IsMemory (grow_heap m p)
unfolding grow_heap
grow_heap-IsMemory m p ok = elim (Bool-cases (ltb (page_ceiling m.heap_pointer) p)) [
  | inl past ↦ rw past (record {
    page_at =
        (allocate_memory_segment-Allocated m (u32 m.heap_pointer) (page_ceiling p) none read_write
          ok tt).memory.page_at;
  })
  | inr within ↦ rw within (record { page_at = ok.page_at })
]

heap_pointer-grow_heap : (m : Memory) (p : ℕ) → p < 2 ^ 64 → IsU64 (grow_heap m p).heap_pointer
unfolding grow_heap
heap_pointer-grow_heap m p h = h

pub sbrk-Steps : (s : Interp) (pc rd size : ℕ) → IsMachine s → Steps s (sbrk s pc rd size)
unfolding sbrk
sbrk-Steps s pc rd size ok = if-Steps s (size == 0) _ _ (set_reg-Steps s rd _ _ pc ok ok.heap) (
    if-Steps s (ltb (add64 s.memory.heap_pointer size) s.memory.heap_pointer) _ _ refused
      (if-Steps s (ltb s.memory.heap_limit (add64 s.memory.heap_pointer size)) _ _ refused grown))
  where
    refused : Steps s (out (set_reg s rd 0) exit_continue pc)
    refused = set_reg-Steps s rd 0 exit_continue pc ok (omega arith)

    new_pointer : ℕ
    new_pointer = add64 s.memory.heap_pointer size

    grown : Steps s (
        out
          (set_reg (record s { memory = grow_heap s.memory new_pointer }) rd new_pointer)
          exit_continue
          pc)
    grown = record {
      program = refl;
      gas = refl;
      machine =
          set_reg-IsMachine _ rd new_pointer
            (set_memory-IsMachine s _ ok (grow_heap-IsMemory s.memory new_pointer ok.memory)
              (heap_pointer-grow_heap s.memory new_pointer (omega arith)))
            (omega arith);
    }

pub inst_sbrk-Steps : (s : Interp) (pc skip : ℕ) → IsMachine s → Steps s (inst_sbrk s pc skip)
unfolding inst_sbrk
inst_sbrk-Steps s pc skip ok =
    on_error-Steps Any s pc exit_halt (decode_two_registers s.program.code pc) _ ok (Post-Any _)
      (λ p _. sbrk-Steps s pc p.0 (reg s p.1) ok)
