-- ===== src/Pvm/Memory.antt =====
-- Loads and stores: `storeIntoMemory` and `loadFromMemory` of PVM/decode.go.
pub mod Copy
pub mod Frame
pub mod Laws
use jam_protocol.Base.{
  ℕ, zero, suc, ◌+◌, ◌-◌, ◌*◌, ◌/◌, ◌%◌, ◌^◌, Bool, Option, none, some, List, [], ◌∷◌, ◌++◌, bit_or,
  ltb, leb, ◌==◌, if◌then◌else◌, take, drop,
}
use jam_protocol.Base.Words.{u8}
use jam_protocol.Pvm.State.{
  Page, Memory, Access, inaccessible, read_only, read_write, zp, zz, exit_continue, exit_panic,
  exit_page_fault,
}

-- The byte counts of an access, `offset` in the source.
pub data Width : Type 0 where
  one two four eight : Width

abbrev pub bytes_of : Width → ℕ
bytes_of one = 1
bytes_of two = 2
bytes_of four = 4
bytes_of eight = 8

-- `binary.LittleEndian` on `n` bytes.
unfoldable pub put_uint : ℕ → ℕ → List ℕ
put_uint zero x = []
put_uint (suc n) x = u8 x ∷ put_uint n (x / 2 ^ 8)

unfoldable pub get_uint : List ℕ → ℕ
get_uint [] = 0
get_uint (b ∷ rest) = b + 2 ^ 8 * get_uint rest

-- copy(dst[i:], src)
unfoldable pub copy_at : List ℕ → ℕ → List ℕ → List ℕ
copy_at [] i src = []
copy_at (x ∷ xs) zero [] = x ∷ xs
copy_at (x ∷ xs) zero (b ∷ src) = b ∷ copy_at xs zero src
copy_at (x ∷ xs) (suc i) src = x ∷ copy_at xs i src

unfoldable pub write_page : Memory → ℕ → Page → Memory
write_page m n p = record m { pages = λ k. if k == n then some p else m.pages k }

abbrev pub can_write : Access → Bool
can_write read_write = Bool.true
can_write read_only = Bool.false
can_write inaccessible = Bool.false

unfoldable pub page_fault_at : ℕ → ℕ
page_fault_at address = bit_or exit_page_fault address

-- The bytes that do not fit the page go to the start of the next one.
unfoldable pub store_across : Memory → ℕ → ℕ → Page → List ℕ → Memory × ℕ
store_across m address n page src =
    let i = address % zp in
    let first = zp - i in
    elim (m.pages (n + 1)) [
      | none ↦ (m, page_fault_at address)
      | some next ↦
          if can_write next.access
          then (
            write_page
                (write_page m n (record page { value = copy_at page.value i (take first src) }))
                (n + 1) (record next { value = copy_at next.value 0 (drop first src) }),
            exit_continue,
          )
          else (m, page_fault_at address)
    ]

unfoldable pub store_page : Memory → Width → ℕ → ℕ → Page → Memory × ℕ
store_page m w address immediate page =
    let n = address / zp in
    let src = put_uint (bytes_of w) immediate in
    if can_write page.access
    then (if leb (address % zp + bytes_of w) zp
        then (
          write_page m n (record page { value = copy_at page.value (address % zp) src }),
          exit_continue,
        )
        else store_across m address n page src)
    else (m, page_fault_at address)

-- `storeIntoMemory`, at an address of 32 bits.
unfoldable pub store_into_memory : Memory → Width → ℕ → ℕ → Memory × ℕ
store_into_memory m w address immediate =
    if ltb address zz then (m, exit_panic) else elim (m.pages (address / zp)) [
      | none ↦ (m, page_fault_at address)
      | some page ↦ store_page m w address immediate page
    ]

unfoldable pub load_page : Memory → Width → ℕ → Page → ℕ × ℕ
load_page m w address page =
    let i = address % zp in
    let first = zp - i in
    if leb (i + bytes_of w) zp
    then (get_uint (take (bytes_of w) (drop i page.value)), exit_continue)
    else elim (m.pages (address / zp + 1)) [
      | none ↦ (0, page_fault_at address)
      | some next ↦ (
        get_uint (take first (drop i page.value) ++ take (bytes_of w - first) next.value),
        exit_continue,
      )
    ]

-- `loadFromMemory`, at an address of 32 bits.
unfoldable pub load_from_memory : Memory → Width → ℕ → ℕ × ℕ
load_from_memory m w address =
    if ltb address zz then (0, exit_panic) else elim (m.pages (address / zp)) [
      | none ↦ (0, page_fault_at address)
      | some page ↦ load_page m w address page
    ]
