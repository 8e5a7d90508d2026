-- ===== src/Pvm/Memory/Frame.antt =====
-- What a store leaves alone: other bytes, the form of the pages, and everything when it fails.
use jam_protocol.Base.{
  ℕ, ◌+◌, ◌-◌, ◌*◌, ◌/◌, ◌%◌, ◌≤◌, ◌<◌, ◌≡◌, ◌≢◌, refl, ◌⊎◌, inl, inr, subst, ◌∙◌, Option, none,
  some, List, arith, length, get_or, take, drop, All, ◌==◌, if◌then◌else◌, length-take, length-drop,
  All-take, All-drop, Option-cases, Bool-cases, leb, ltb,
}
use jam_protocol.Base.Words.{IsByte}
use jam_protocol.Pvm.State.{Page, Memory, IsMemory, IsPage, zp, zz, exit_continue, exit_panic}
use jam_protocol.Pvm.Memory.{
  Width, bytes_of, put_uint, copy_at, write_page, can_write, page_fault_at, store_across,
  store_page, store_into_memory,
}
use jam_protocol.Pvm.Memory.Copy.{
  length-put_uint, put_uint-IsByte, length-copy_at, copy_at-IsByte, get_or-copy_at,
}

-- The byte at an address, if its page is there.
unfoldable pub peek : Memory → ℕ → Option ℕ
peek m a = elim (m.pages (a / zp)) [ none ↦ none | some p ↦ some (get_or p.value (a % zp) 0) ]

abbrev pub Outside : ℕ → ℕ → ℕ → Type 0
Outside a address n = (a < address) ⊎ (address + n ≤ a)

pub patched : Page → ℕ → List ℕ → Page
patched p i src = record p { value = copy_at p.value i src }

peek-write_page :
    (m : Memory) (n i : ℕ) (p : Page) (src : List ℕ) (a : ℕ)
    → m.pages n ≡ some p
    → Outside a (n * zp + i) (length src)
    → peek (write_page m n (patched p i src)) a ≡ peek m a
unfolding peek write_page patched
peek-write_page m n i p src a found h = ground (arith, get_or-copy_at p.value i src (a % zp))

patched-IsPage :
    (p : Page) (i : ℕ) (src : List ℕ) → IsPage p → All IsByte src → IsPage (patched p i src)
unfolding patched
patched-IsPage p i src ok bytes = record {
  size = length-copy_at p.value i src ∙ ok.size;
  bytes = copy_at-IsByte p.value i src ok.bytes bytes;
}

pub write_page-IsMemory :
    (m : Memory) (n : ℕ) (p : Page) → IsMemory m → IsPage p → IsMemory (write_page m n p)
unfolding write_page
write_page-IsMemory m n p ok page = record {
  page_at = λ k q e. elim (Bool-cases (k == n)) [
    | inl same ↦ subst IsPage (ground arith) page
    | inr other ↦ ok.page_at k q (ground arith)
  ];
}

module _ {κ} (P : Memory → Type κ) (m : Memory) (w : Width) (address v : ℕ) where
  abbrev pub src : List ℕ
  src = put_uint (bytes_of w) v

  abbrev pub first_part : Page → Memory
  first_part p =
      write_page m (address / zp) (patched p (address % zp) (take (zp - address % zp) src))

  abbrev pub both_parts : Page → Page → Memory
  both_parts p q =
      write_page (first_part p) (address / zp + 1) (patched q 0 (drop (zp - address % zp) src))

  -- The memories that a store can leave.
  across_cases :
      (p : Page)
      → P m
      → ((q : Page) → m.pages (address / zp + 1) ≡ some q → P (both_parts p q))
      → P (store_across m address (address / zp) p src).0
  unfolding store_across patched
  across_cases p same both = elim (Option-cases (m.pages (address / zp + 1))) [
    | inl missing ↦ rw (missing, store_across) same
    | inr (q, found) ↦
        rw (found, store_across)
          (elim (Bool-cases (can_write q.access)) [
            | inl writable ↦ rw writable (both q found)
            | inr fixed ↦ rw fixed same
          ])
  ]

  page_cases :
      (p : Page)
      → P m
      → (address % zp + bytes_of w ≤ zp
          → P (write_page m (address / zp) (patched p (address % zp) src)))
      → ((q : Page)
          → m.pages (address / zp + 1) ≡ some q
          → zp < address % zp + bytes_of w
          → P (both_parts p q))
      → P (store_page m w address v p).0
  unfolding store_page patched
  page_cases p same one both = elim (Bool-cases (can_write p.access)) [
    | inr fixed ↦ rw fixed same
    | inl writable ↦ rw writable (elim (Bool-cases (leb (address % zp + bytes_of w) zp)) [
      | inl fits ↦ rw fits (one (ground arith))
      | inr crosses ↦ rw crosses (across_cases p same (λ q found. both q found (ground arith)))
    ])
  ]

  pub store_cases :
      P m
      → ((p : Page)
          → m.pages (address / zp) ≡ some p
          → address % zp + bytes_of w ≤ zp
          → P (write_page m (address / zp) (patched p (address % zp) src)))
      → ((p q : Page)
          → m.pages (address / zp) ≡ some p
          → m.pages (address / zp + 1) ≡ some q
          → zp < address % zp + bytes_of w
          → P (both_parts p q))
      → P (store_into_memory m w address v).0
  unfolding store_into_memory
  store_cases same one both = elim (Bool-cases (ltb address zz)) [
    | inl low ↦ rw low same
    | inr high ↦ rw high (elim (Option-cases (m.pages (address / zp))) [
      | inl missing ↦ rw missing same
      | inr (p, found) ↦ rw found (page_cases p same (one p found) (λ q next. both p q found next))
    ])
  ]

module _ (m : Memory) (w : Width) (address v : ℕ) where
  -- A store on whole pages of bytes leaves whole pages of bytes.
  pub store_into_memory-IsMemory : IsMemory m → IsMemory (store_into_memory m w address v).0
  store_into_memory-IsMemory ok =
      store_cases IsMemory m w address v ok
        (λ p found fits.
          write_page-IsMemory m _ _ ok
            (patched-IsPage p _ _ (ok.page_at _ p found) (put_uint-IsByte (bytes_of w) v)))
        (λ p q found next crosses.
          write_page-IsMemory _ _ _
            (write_page-IsMemory m _ _ ok (
              patched-IsPage p _ _ (ok.page_at _ p found) (
                All-take IsByte (zp - address % zp) (put_uint (bytes_of w) v)
                  (put_uint-IsByte (bytes_of w) v))))
            (patched-IsPage q _ _ (ok.page_at _ q next) (
              All-drop IsByte (zp - address % zp) (put_uint (bytes_of w) v)
                (put_uint-IsByte (bytes_of w) v))))

  second_page_kept :
      (p q : Page)
      → m.pages (address / zp + 1) ≡ some q
      → (write_page m (address / zp) p).pages (address / zp + 1) ≡ some q
  unfolding write_page
  second_page_kept p q next = ground arith

  -- At an address outside the bytes stored, the memory reads the same after a store, whether or not it
  -- goes through: the same byte, or no page in both.
  pub peek-store :
      (a : ℕ)
      → Outside a address (bytes_of w)
      → peek (store_into_memory m w address v).0 a ≡ peek m a
  peek-store a h =
      store_cases (λ k. peek k a ≡ peek m a) m w address v refl
        (λ p found fits.
          peek-write_page m _ _ p _ a found (omega (arith, length-put_uint (bytes_of w) v)))
        (λ p q found next crosses.
          peek-write_page _ _ _ q _ a (second_page_kept _ q next) (
            omega (
              arith,
              length-drop (zp - address % zp) (put_uint (bytes_of w) v),
              length-put_uint (bytes_of w) v,
            ))
          ∙ peek-write_page m _ _ p _ a found (
              omega (
                arith,
                length-take (zp - address % zp) (put_uint (bytes_of w) v),
                length-put_uint (bytes_of w) v,
              )))

-- A store that does not go through leaves the memory as it was, and reports a panic below the first
-- zone and a page fault at the address otherwise.
pub store_into_memory-failed :
    (m : Memory) (w : Width) (address v : ℕ)
    → (store_into_memory m w address v).1 ≢ exit_continue
    → ((store_into_memory m w address v).0 ≡ m)
      × ((store_into_memory m w address v).1
          ≡ (if ltb address zz then exit_panic else page_fault_at address))
unfolding store_into_memory store_page store_across
store_into_memory-failed m w address v failed = ground arith

-- A store leaves the heap's bounds alone.
pub heap_pointer-store :
    (m : Memory) (w : Width) (address v : ℕ)
    → (store_into_memory m w address v).0.heap_pointer ≡ m.heap_pointer
unfolding write_page
heap_pointer-store m w address v =
    store_cases (λ k. k.heap_pointer ≡ m.heap_pointer) m w address v refl (λ p found fits. refl)
      (λ p q found next crosses. refl)
