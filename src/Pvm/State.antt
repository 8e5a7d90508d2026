-- ===== src/Pvm/State.antt =====
-- The machine's state: PVM/pvm_types.go, PVM/exit_reason.go, PVM/memory.go, PVM/const.go and the
-- `Program` of PVM/program_code.go.
use jam_protocol.Base.{
  ℕ, ◌-◌, ◌*◌, ◌/◌, ◌^◌, ◌≡◌, ◌&&◌, Option, none, some, List, ltb, leb, ◌==◌, if◌then◌else◌, length,
  get_or, set, take, drop, All,
}
use jam_protocol.Base.Int.{ℤ}
use jam_protocol.Base.Words.{u8, u32, IsByte, IsU64}

-- The page size, and the zone below which no access is allowed.
abbrev pub zp : ℕ
zp = 2 ^ 12

abbrev pub zz : ℕ
zz = 2 ^ 16

abbrev pub za : ℕ
za = 2

-- An exit reason is a uint64 with its type in the top byte.
abbrev pub exit_continue : ℕ
exit_continue = 0

abbrev pub exit_halt : ℕ
exit_halt = 2 ^ 56

abbrev pub exit_panic : ℕ
exit_panic = 2 * 2 ^ 56

abbrev pub exit_oog : ℕ
exit_oog = 3 * 2 ^ 56

abbrev pub exit_page_fault : ℕ
exit_page_fault = 4 * 2 ^ 56

abbrev pub exit_host_call : ℕ
exit_host_call = 5 * 2 ^ 56

pub data ReasonType : Type 0 where
  continue halt panic out_of_gas page_fault host_call : ReasonType
  unknown : ℕ → ReasonType

-- `GetReasonType`, with the constants of `ExitReasonType` as constructors.
unfoldable pub reason_type : ℕ → ReasonType
reason_type e =
    let t = u8 (e / 2 ^ 56) in
    if t == 0
    then continue
    else if t == 1
    then halt
    else if t == 2
    then panic
    else if t == 3
    then out_of_gas
    else if t == 4
    then page_fault
    else if t == 5
    then host_call
    else unknown t

unfoldable pub host_call_id : ℕ → ℕ
host_call_id e = u8 e

unfoldable pub page_fault_address : ℕ → ℕ
page_fault_address e = u32 e

-- A Go call returns a value, returns an error, or ends in a run-time panic.
pub data Go {ℓ} (A : Type ℓ) : Type ℓ where
  done : A → Go A
  error : Go A
  crash : Go A

infixl 5 ◌>>=◌
abbrev pub ◌>>=◌ {ℓ κ} : {A : Type ℓ} {B : Type κ} → Go A → (A → Go B) → Go B
done a >>= f = f a
error >>= f = error
crash >>= f = crash

-- A Go slice: what its array holds up to the capacity, and the length. A slice expression may go
-- past the length, up to the capacity.
pub record Slice : Type 0 where
  pub full : List ℕ
  pub len : ℕ

unfoldable pub index : Slice → ℕ → Go ℕ
index s i = if ltb i s.len then done (get_or s.full i 0) else crash

unfoldable pub slice : Slice → ℕ → ℕ → Go (List ℕ)
slice s low high =
    if leb low high && leb high (length s.full)
    then done (take (high - low) (drop low s.full))
    else crash

pub record JumpTable : Type 0 where
  pub entries : List ℕ
  pub width : ℕ
  pub size : ℕ

pub record Program : Type 0 where
  pub code : Slice
  pub bitmask : List ℕ
  pub jump_table : JumpTable

pub data Access : Type 0 where
  inaccessible read_only read_write : Access

-- Every page is made with `zp` bytes.
pub record Page : Type 0 where
  pub value : List ℕ
  pub access : Access

pub record Memory : Type 0 where
  pub pages : ℕ → Option Page
  pub heap_pointer : ℕ
  pub heap_limit : ℕ

unfoldable pub page_access : Memory → ℕ → Access
page_access m i = elim (m.pages i) [ none ↦ inaccessible | some p ↦ p.access ]

pub record Interp : Type 0 where
  pub program : Program
  pub registers : List ℕ
  pub memory : Memory
  pub gas : ℤ

-- What a handler returns beside the state.
pub record Out : Type 0 where
  pub interp : Interp
  pub reason : ℕ
  pub pc : ℕ

-- A handler takes the program counter and the skip length; `none` is a run-time panic.
abbrev pub Handler : Type 0
Handler = Interp → ℕ → ℕ → Option Out

abbrev pub reg : Interp → ℕ → ℕ
reg s r = get_or s.registers r 0

abbrev pub set_reg : Interp → ℕ → ℕ → Interp
set_reg s r v = record s { registers = set s.registers r v }

abbrev pub out : Interp → ℕ → ℕ → Option Out
out s reason pc = some (record { interp = s; reason = reason; pc = pc })

pub record IsPage (p : Page) : Type 0 where
  pub size : length p.value ≡ zp
  pub bytes : All IsByte p.value

pub record IsMemory (m : Memory) : Type 0 where
  pub page_at : (n : ℕ) (p : Page) → m.pages n ≡ some p → IsPage p

-- Thirteen registers of 64 bits, a heap pointer of 64 bits, whole pages of bytes and a code of bytes.
pub record IsMachine (s : Interp) : Type 0 where
  pub count : length s.registers ≡ 13
  pub words : All IsU64 s.registers
  pub memory : IsMemory s.memory
  pub heap : IsU64 s.memory.heap_pointer
  pub code : All IsByte s.program.code.full
