-- ===== src/Pvm/Memory/Laws.antt =====
-- A load after a store, and what a store leaves alone.
use jam_protocol.Base.{
  ℕ, ◌+◌, ◌-◌, ◌*◌, ◌/◌, ◌%◌, ◌^◌, ◌≤◌, ◌<◌, ◌≡◌, ap₂, inl, inr, some, List, ◌++◌, arith, length,
  take, drop, length-take, length-drop, subst, ◌∙◌, take-append-drop, Option-cases, ◌≢◌,
}
use native.Mathlib.Decide.{dec_le}
use jam_protocol.Base.Bits.{bit_or_comm, bit_or_shifted}
use jam_protocol.Pvm.State.{Page, Memory, IsMemory, zp, zz, exit_continue, exit_page_fault}
use jam_protocol.Pvm.Memory.{
  Width, one, bytes_of, put_uint, get_uint, copy_at, write_page, page_fault_at, store_across,
  store_page, store_into_memory, load_page, load_from_memory,
}
use jam_protocol.Pvm.Memory.Copy.{length-put_uint, get_uint-put_uint, take-drop-copy_at}

-- The reason of a page fault at a 32-bit address is the page fault's type plus the address.
pub page_fault_at_lem :
    (address : ℕ) → address < 2 ^ 32 → page_fault_at address ≡ exit_page_fault + address
unfolding page_fault_at
page_fault_at_lem address h =
    omega (arith, bit_or_comm exit_page_fault address, bit_or_shifted 32 (4 * 2 ^ 24) address h)

bytes_bound : (w : Width) → (0 < bytes_of w) × (bytes_of w ≤ 8)
bytes_bound one = omega arith
bytes_bound _ = omega arith

-- The bytes copied are read back, with their count as a number.
copied :
    (xs src : List ℕ) (i n : ℕ)
    → length src ≡ n
    → i + n ≤ length xs
    → take n (drop i (copy_at xs i src)) ≡ src
copied xs src i n e h =
    subst (λ k. take k (drop i (copy_at xs i src)) ≡ src) e
      (take-drop-copy_at xs i src (omega arith))

module _ (m : Memory) (w : Width) (address v : ℕ) (pages : IsMemory m)
    (word : v < 2 ^ (8 * bytes_of w)) where
  abbrev src : List ℕ
  src = put_uint (bytes_of w) v

  read_back : get_uint src ≡ v
  read_back = get_uint-put_uint (bytes_of w) v word

  size_src : length src ≡ bytes_of w
  size_src = length-put_uint (bytes_of w) v

  placed :
      (xs : List ℕ) (i : ℕ)
      → i + bytes_of w ≤ length xs
      → take (bytes_of w) (drop i (copy_at xs i src)) ≡ src
  placed xs i h = copied xs src i (bytes_of w) size_src h

  fault-ne-continue : address < 2 ^ 32 → page_fault_at address ≢ exit_continue
  fault-ne-continue low e = omega (arith, page_fault_at_lem address low)

  load-store_within :
      (p : Page)
      → m.pages (address / zp) ≡ some p
      → (store_page m w address v p).1 ≡ exit_continue
      → address % zp + bytes_of w ≤ zp
      → zz ≤ address
      → address < 2 ^ 32
      → load_from_memory (store_page m w address v p).0 w address ≡ (v, exit_continue)
  unfolding store_page load_from_memory load_page write_page
  load-store_within p found ok fits high low = ground (
    arith,
    (pages.page_at (address / zp) p found).size,
    placed p.value (address % zp),
    read_back,
    fault-ne-continue low,
  )

  -- The two parts of a value that crosses a page, put together again.
  parts :
      (xs ys : List ℕ) (i : ℕ)
      → length xs ≡ zp
      → length ys ≡ zp
      → i < zp
      → zp < i + bytes_of w
      → take (zp - i) (drop i (copy_at xs i (take (zp - i) src)))
          ++ take (bytes_of w - (zp - i)) (copy_at ys 0 (drop (zp - i) src))
        ≡ src
  parts xs ys i p q a b =
      ap₂ ◌++◌
        (copied xs (take (zp - i) src) i (zp - i)
          (omega (arith, length-take (zp - i) src, size_src)) (omega arith))
        (copied ys (drop (zp - i) src) 0 (bytes_of w - (zp - i))
          (omega (arith, length-drop (zp - i) src, size_src)) (omega (arith, bytes_bound w)))
      ∙ take-append-drop (zp - i) src

  load-store_across :
      (p q : Page)
      → m.pages (address / zp) ≡ some p
      → m.pages (address / zp + 1) ≡ some q
      → (store_page m w address v p).1 ≡ exit_continue
      → zp < address % zp + bytes_of w
      → zz ≤ address
      → address < 2 ^ 32
      → load_from_memory (store_page m w address v p).0 w address ≡ (v, exit_continue)
  unfolding store_page store_across load_from_memory load_page write_page
  load-store_across p q found next ok cross high low = ground (
    arith,
    (pages.page_at (address / zp) p found).size,
    (pages.page_at (address / zp + 1) q next).size,
    parts p.value q.value (address % zp),
    read_back,
    fault-ne-continue low,
  )

  -- A cross-page store that goes through found its second page.
  second_page :
      (p : Page)
      → zp < address % zp + bytes_of w
      → address < 2 ^ 32
      → (store_page m w address v p).1 ≡ exit_continue
      → (q : Page) × (m.pages (address / zp + 1) ≡ some q)
  unfolding store_page store_across
  second_page p cross low ok = elim (Option-cases (m.pages (address / zp + 1))) [
    | inr found ↦ found
    | inl missing ↦ absurd (ground (arith, fault-ne-continue low))
  ]

  load-store_page :
      (p : Page)
      → m.pages (address / zp) ≡ some p
      → (store_page m w address v p).1 ≡ exit_continue
      → zz ≤ address
      → address < 2 ^ 32
      → load_from_memory (store_page m w address v p).0 w address ≡ (v, exit_continue)
  load-store_page p found ok high low = elim (dec_le (address % zp + bytes_of w) zp) [
    | yes fits ↦ load-store_within p found ok fits high low
    | no cross ↦
        let (q, next) = second_page p (omega arith) low ok in
        load-store_across p q found next ok (omega arith) high low
  ]

-- On whole pages of bytes, a store that goes through is read back: at the same address, below 2 ^ 32,
-- and at the same width a load returns the value, if it fits the width, whether or not the bytes cross
-- into a second page.
pub load-store :
    (m : Memory) (w : Width) (address v : ℕ)
    → IsMemory m
    → v < 2 ^ (8 * bytes_of w)
    → address < 2 ^ 32
    → (store_into_memory m w address v).1 ≡ exit_continue
    → load_from_memory (store_into_memory m w address v).0 w address ≡ (v, exit_continue)
unfolding store_into_memory
load-store m w address v pages word low ok = elim (Option-cases (m.pages (address / zp))) [
  | inl missing ↦ absurd (ground (arith, fault-ne-continue m w address v pages word low))
  | inr (p, found) ↦ ground (arith, load-store_page m w address v pages word p found)
]
