-- ===== src/Pvm/Machine/Accesses.antt =====
-- Every row of the table's loads and stores keeps the form of the machine.
use jam_protocol.Base.{
  ℕ, ◌+◌, ◌-◌, ◌*◌, ◌/◌, ◌%◌, ◌≤◌, ◌<◌, ◌≡◌, ◌++◌, arith, List, false, length, take, drop, All, ltb,
  leb, Bool-cases, Option-cases, inl, inr, All-take, All-drop, All-append, length-take,
  length-append,
}
use jam_protocol.Base.Words.{IsByte, IsU64, unsigned64-lt}
use jam_protocol.Base.Bits.{pow_mono}
use jam_protocol.Pvm.State.{Go, Interp, Memory, Page, IsPage, IsMemory, zz, zp}
use jam_protocol.Pvm.Memory.{
  Width, bytes_of, get_uint, load_page, load_from_memory, store_into_memory,
}
use jam_protocol.Pvm.Memory.Copy.{get_uint-lt}
use jam_protocol.Pvm.Memory.Frame.{store_into_memory-IsMemory, heap_pointer-store}
use jam_protocol.Pvm.Instr.{on_error, stored, loaded}
use jam_protocol.Pvm.Instr.Access.{
  inst_store_imm_u8, inst_store_imm_u16, inst_store_imm_u32, inst_store_imm_u64, inst_load_u8,
  inst_load_i8, inst_load_u16, inst_load_i16, inst_load_u32, inst_load_i32, inst_load_u64,
  inst_store_u8, inst_store_u16, inst_store_u32, inst_store_u64, inst_store_imm_ind_u8,
  inst_store_imm_ind_u16, inst_store_imm_ind_u32, inst_store_imm_ind_u64, inst_store_ind_u8,
  inst_store_ind_u16, inst_store_ind_u32, inst_store_ind_u64, inst_load_ind_u8, inst_load_ind_i8,
  inst_load_ind_u16, inst_load_ind_i16, inst_load_ind_u32, inst_load_ind_i32, inst_load_ind_u64,
}
use jam_protocol.Pvm.Instr.Table.{access_rows}
use jam_protocol.Pvm.Machine.{on_error-Steps, stored-Steps, loaded-Steps}
use jam_protocol.Pvm.Machine.Decoded.{Any, Post-Any}
use jam_protocol.Pvm.Machine.Operands.{Keeps, Kept, no_rows, ◌◂◌}

length-take-le : (n : ℕ) (xs : List ℕ) → length (take n xs) ≤ n
length-take-le n xs = omega (arith, length-take n xs)

get_uint-IsU64 : (bytes : List ℕ) → All IsByte bytes → length bytes ≤ 8 → IsU64 (get_uint bytes)
get_uint-IsU64 bytes h short =
    omega (arith, get_uint-lt bytes h, pow_mono (8 * length bytes) 64 (omega arith))

bytes_of-le : (w : Width) → bytes_of w ≤ 8
bytes_of-le w = ground arith

page_bytes : (p : Page) (n i : ℕ) → IsPage p → All IsByte (take n (drop i p.value))
page_bytes p n i page = All-take IsByte n _ (All-drop IsByte i p.value page.bytes)

leb-false : (a b : ℕ) → leb a b ≡ false → b < a
leb-false a b h = ground arith

-- The bytes of an access that ends on the next page.
two_parts-IsU64 :
    (m : Memory) (w : Width) (address : ℕ) (p next : Page)
    → IsPage p
    → IsPage next
    → zp < address % zp + bytes_of w
    → IsU64 (
        get_uint (
          take (zp - address % zp) (drop (address % zp) p.value)
          ++ take (bytes_of w - (zp - address % zp)) next.value))
two_parts-IsU64 m w address p next page page' crosses =
    let first = take (zp - address % zp) (drop (address % zp) p.value) in
    let second = take (bytes_of w - (zp - address % zp)) next.value in
    get_uint-IsU64 (first ++ second)
      (All-append IsByte first second (page_bytes p (zp - address % zp) (address % zp) page)
        (All-take IsByte (bytes_of w - (zp - address % zp)) next.value page'.bytes))
      (omega (
        arith,
        length-append first second,
        length-take-le (zp - address % zp) (drop (address % zp) p.value),
        length-take-le (bytes_of w - (zp - address % zp)) next.value,
        bytes_of-le w,
      ))

load_page-IsU64 :
    (m : Memory) (w : Width) (address : ℕ) (p : Page)
    → IsMemory m
    → IsPage p
    → IsU64 (load_page m w address p).0
unfolding load_page
load_page-IsU64 m w address p ok page = elim (Bool-cases (leb (address % zp + bytes_of w) zp)) [
  | inl within ↦ rw within (
      get_uint-IsU64 _ (page_bytes p _ _ page)
        (omega (arith, length-take-le (bytes_of w) (drop (address % zp) p.value), bytes_of-le w)))
  | inr across ↦ rw across (elim (Option-cases (m.pages (address / zp + 1))) [
    | inl absent ↦ rw absent (omega arith)
    | inr (next, found) ↦
        rw found
          (two_parts-IsU64 m w address p next page (ok.page_at _ next found) (leb-false _ _ across))
  ])
]

-- A load gives a 64-bit word, and the zero word where it fails.
pub load_from_memory-IsU64 :
    (m : Memory) (w : Width) (address : ℕ) → IsMemory m → IsU64 (load_from_memory m w address).0
unfolding load_from_memory
load_from_memory-IsU64 m w address ok = elim (Bool-cases (ltb address zz)) [
  | inl low ↦ rw low (omega arith)
  | inr high ↦ rw high (elim (Option-cases (m.pages (address / zp))) [
    | inl absent ↦ rw absent (omega arith)
    | inr (p, found) ↦ rw found (load_page-IsU64 m w address p ok (ok.page_at _ p found))
  ])
]

storing-Keeps {ℓ} :
    {A : Type ℓ} (w : Width) (reason : ℕ) (g : Interp → ℕ → ℕ → Go A)
    (address value : Interp → A → ℕ)
    → Keeps (λ s pc skip.
      on_error s pc reason
        (g s pc skip)
        (λ a. stored s pc (store_into_memory s.memory w (address s a) (value s a))))
storing-Keeps w reason g address value s pc skip ok =
    on_error-Steps Any s pc reason (g s pc skip) _ ok (Post-Any _) λ a _.
      stored-Steps s pc _ ok (store_into_memory-IsMemory s.memory w _ _ ok.memory)
        (heap_pointer-store s.memory w _ _)

loading-Keeps {ℓ} :
    {A : Type ℓ} (w : Width) (reason : ℕ) (f : ℕ → ℕ) (g : Interp → ℕ → ℕ → Go A) (register : A → ℕ)
    (address : Interp → A → ℕ)
    → ((v : ℕ) → IsU64 v → IsU64 (f v))
    → Keeps (λ s pc skip.
      on_error s pc reason
        (g s pc skip)
        (λ a. loaded s pc (register a) f (load_from_memory s.memory w (address s a))))
loading-Keeps w reason f g register address h s pc skip ok =
    on_error-Steps Any s pc reason (g s pc skip) _ ok (Post-Any _) λ a _.
      loaded-Steps s pc (register a) f _ ok (h _ (load_from_memory-IsU64 s.memory w _ ok.memory))

pub access_rows-Keeps : Kept access_rows
unfolding access_rows inst_store_imm_u8 inst_store_imm_u16 inst_store_imm_u32 inst_store_imm_u64
    inst_load_u8 inst_load_i8 inst_load_u16 inst_load_i16 inst_load_u32 inst_load_i32 inst_load_u64
    inst_store_u8 inst_store_u16 inst_store_u32 inst_store_u64 inst_store_imm_ind_u8
    inst_store_imm_ind_u16 inst_store_imm_ind_u32 inst_store_imm_ind_u64 inst_store_ind_u8
    inst_store_ind_u16 inst_store_ind_u32 inst_store_ind_u64 inst_load_ind_u8 inst_load_ind_i8
    inst_load_ind_u16 inst_load_ind_i16 inst_load_ind_u32 inst_load_ind_i32 inst_load_ind_u64
access_rows-Keeps =
    storing-Keeps _ _ _ _ _
    ◂ storing-Keeps _ _ _ _ _
    ◂ storing-Keeps _ _ _ _ _
    ◂ storing-Keeps _ _ _ _ _
    ◂ loading-Keeps _ _ _ _ _ _ (λ v h. h)
    ◂ loading-Keeps _ _ _ _ _ _ (λ v h. unsigned64-lt _)
    ◂ loading-Keeps _ _ _ _ _ _ (λ v h. h)
    ◂ loading-Keeps _ _ _ _ _ _ (λ v h. unsigned64-lt _)
    ◂ loading-Keeps _ _ _ _ _ _ (λ v h. h)
    ◂ loading-Keeps _ _ _ _ _ _ (λ v h. unsigned64-lt _)
    ◂ loading-Keeps _ _ _ _ _ _ (λ v h. h)
    ◂ storing-Keeps _ _ _ _ _
    ◂ storing-Keeps _ _ _ _ _
    ◂ storing-Keeps _ _ _ _ _
    ◂ storing-Keeps _ _ _ _ _
    ◂ storing-Keeps _ _ _ _ _
    ◂ storing-Keeps _ _ _ _ _
    ◂ storing-Keeps _ _ _ _ _
    ◂ storing-Keeps _ _ _ _ _
    ◂ storing-Keeps _ _ _ _ _
    ◂ storing-Keeps _ _ _ _ _
    ◂ storing-Keeps _ _ _ _ _
    ◂ storing-Keeps _ _ _ _ _
    ◂ loading-Keeps _ _ _ _ _ _ (λ v h. h)
    ◂ loading-Keeps _ _ _ _ _ _ (λ v h. unsigned64-lt _)
    ◂ loading-Keeps _ _ _ _ _ _ (λ v h. h)
    ◂ loading-Keeps _ _ _ _ _ _ (λ v h. unsigned64-lt _)
    ◂ loading-Keeps _ _ _ _ _ _ (λ v h. h)
    ◂ loading-Keeps _ _ _ _ _ _ (λ v h. unsigned64-lt _)
    ◂ loading-Keeps _ _ _ _ _ _ (λ v h. h)
    ◂ no_rows
