-- ===== src/Chain/History/Bounds.antt =====
-- The history holds the last eight blocks.
use jam_protocol.Base.{
  map, ℕ, zero, suc, ◌+◌, ◌-◌, ◌≤◌, ◌≡◌, refl, sym, ap, ap₂, subst, ◌∙◌, arith, Bool, true, false,
  Option, none, some, List, [], ◌∷◌, ◌++◌, length, set, take, drop, replicate, get_elem?,
  length-append, length-drop, length-replicate, set-append, ltb, if◌then◌else◌,
}
use mathlib.Core.List.{Permᴰ}
use mathlib.Core.List.Permᴰ
use jam_protocol.Chain.Tickets.{bytes_lt}
use jam_protocol.Chain.Mmr.{Hash, HashFunction, Peaks, append_one, super_peak}
use jam_protocol.Chain.Mmr.Range.{Range, append_one-Range}
use jam_protocol.Chain.History.{
  ReportedWorkPackage, insert_report, BlockInfo, zero_block, zero_hash, copied, with_root,
  history_to_history_dagger, append_and_commit_mmr, new_item, map_work_report_from_eg,
  add_item_to_beta_h_prime, stf_beta_h,
}

take_all : (n : ℕ) (xs : List BlockInfo) → length xs ≤ n → take n xs ≡ xs
take_all zero [] h = refl
take_all zero (x ∷ xs) h = absurd (omega arith)
take_all (suc n) [] h = refl
take_all (suc n) (x ∷ xs) h = ap (λ t. x ∷ t) (take_all n xs (omega arith))

drop-replicate : (n : ℕ) → drop n (replicate (n + 1) zero_block) ≡ zero_block ∷ []
drop-replicate zero = refl
drop-replicate (suc n) =
    let more : (suc (n + 1) ≡ suc n + 1) = omega arith in
    subst (λ k. drop (suc n) (replicate k zero_block) ≡ zero_block ∷ []) more (drop-replicate n)

-- A copy into one place more, and the item in the last place.
set-copied :
    (xs : List BlockInfo) (n : ℕ) (item : BlockInfo)
    → length xs ≡ n
    → set (copied (replicate (n + 1) zero_block) xs) n item ≡ xs ++ item ∷ []
unfolding copied
set-copied xs n item size =
    ap (λ ys. set ys n item)
      (ap₂ (λ a b. a ++ b)
        (ap (λ k. take k xs) (length-replicate (n + 1) zero_block)
          ∙ take_all (n + 1) xs (omega arith))
        (ap (λ k. drop k (replicate (n + 1) zero_block)) size ∙ drop-replicate n))
    ∙ ap (λ k. set (xs ++ zero_block ∷ []) k item) (sym size)
    ∙ set-append xs [] zero_block item

-- To a history of at most eight blocks the block is appended, and the last eight are kept.
pub add_item_to_beta_h_prime-drop :
    (history : List BlockInfo) (item : BlockInfo)
    → length history ≤ 8
    → add_item_to_beta_h_prime history item ≡ drop (length history + 1 - 8) (history ++ item ∷ [])
unfolding add_item_to_beta_h_prime
add_item_to_beta_h_prime-drop history item fits = by_size (ltb (length history) 8) refl
  where
    full :
        (xs : List BlockInfo)
        → length xs ≡ 8
        → set (copied (replicate 8 zero_block) (drop 1 xs)) 7 item
          ≡ drop (length xs + 1 - 8) (xs ++ item ∷ [])
    full [] h = absurd (omega arith)
    full (x ∷ xs) h =
        let one : (1 ≡ length (x ∷ xs) + 1 - 8) = omega arith in
        set-copied xs 7 item (omega arith) ∙ ap (λ k. drop k ((x ∷ xs) ++ item ∷ [])) one

    by_size :
        (b : Bool)
        → ltb (length history) 8 ≡ b
        → (if b
            then set
                (copied (replicate (length history + 1) zero_block) history)
                (length history)
                item
            else set (copied (replicate 8 zero_block) (drop 1 history)) 7 item)
          ≡ drop (length history + 1 - 8) (history ++ item ∷ [])
    by_size true e =
        let none_over : (0 ≡ length history + 1 - 8) = ground arith in
        set-copied history (length history) item refl
        ∙ ap (λ k. drop k (history ++ item ∷ [])) none_over
    by_size false e = full history (ground arith)

-- The state root is filled in at the last block, and nowhere else.
abbrev pub rooted : Hash → List BlockInfo → List BlockInfo
rooted root [] = []
rooted root (b ∷ []) = record b { state_root = root } ∷ []
rooted root (b ∷ c ∷ rest) = b ∷ rooted root (c ∷ rest)

one_less : (n : ℕ) → suc (suc n) - 1 ≡ suc (suc n - 1)
one_less n = omega arith

with_root-cons :
    (root : Hash) (o : Option BlockInfo) (b c : BlockInfo) (rest : List BlockInfo)
    → with_root root o (b ∷ c ∷ rest) ≡ b ∷ with_root root o (c ∷ rest)
unfolding with_root
with_root-cons root none b c rest = refl
with_root-cons root (some d) b c rest =
    ap (λ i. set (b ∷ c ∷ rest) i (record d { state_root = root })) (one_less (length rest))

history_to_history_dagger-rooted :
    (history : List BlockInfo) (root : Hash)
    → history_to_history_dagger history root ≡ rooted root history
unfolding history_to_history_dagger with_root
history_to_history_dagger-rooted [] root = refl
history_to_history_dagger-rooted (b ∷ []) root = refl
history_to_history_dagger-rooted (b ∷ c ∷ rest) root =
    ap (λ i. with_root root (get_elem? (b ∷ c ∷ rest) i) (b ∷ c ∷ rest)) (one_less (length rest))
    ∙ with_root-cons root (get_elem? (c ∷ rest) (length (c ∷ rest) - 1)) b c rest
    ∙ ap (λ h. b ∷ h) (history_to_history_dagger-rooted (c ∷ rest) root)

length-rooted :
    (root : Hash) (history : List BlockInfo) → length (rooted root history) ≡ length history
length-rooted root [] = refl
length-rooted root (b ∷ []) = refl
length-rooted root (b ∷ c ∷ rest) = ap suc (length-rooted root (c ∷ rest))

abbrev pub report_of : Hash × Hash → ReportedWorkPackage
report_of (hash, exports_root) = record { hash = hash; exports_root = exports_root }

insert_report-Permᴰ :
    (r : ReportedWorkPackage) (rs : List ReportedWorkPackage) → Permᴰ (insert_report r rs) (r ∷ rs)
unfolding insert_report
insert_report-Permᴰ r [] = Permᴰ.refl (r ∷ [])
insert_report-Permᴰ r (k ∷ rest) = by_order (bytes_lt k.hash r.hash) (insert_report-Permᴰ r rest)
  where
    by_order :
        (b : Bool)
        → Permᴰ (insert_report r rest) (r ∷ rest)
        → Permᴰ (if b then k ∷ insert_report r rest else r ∷ k ∷ rest) (r ∷ k ∷ rest)
    by_order true rec = Permᴰ.trans (Permᴰ.cons refl rec) (Permᴰ.swap refl refl)
    by_order false rec = Permᴰ.refl (r ∷ k ∷ rest)

map_work_report_from_eg-Permᴰ :
    (guarantees : List (Hash × Hash))
    → Permᴰ (map_work_report_from_eg guarantees) (map report_of guarantees)
unfolding map_work_report_from_eg
map_work_report_from_eg-Permᴰ [] = Permᴰ.nil
map_work_report_from_eg-Permᴰ ((hash, exports_root) ∷ rest) =
    Permᴰ.trans (insert_report-Permᴰ _ (map_work_report_from_eg rest))
      (Permᴰ.cons refl (map_work_report_from_eg-Permᴰ rest))

-- The history and the belt after a block, from a history of at most eight blocks and a belt over some
-- leaves: at most eight blocks, of which the last is the new one, with the belt's commitment, the reports
-- of the guarantees in some order and no state root yet, behind the latest of the history, whose last one
-- has its state root filled in; and a belt over the leaves and the block's root behind them.
pub record IsNext (keccak_hash : HashFunction) (history : List BlockInfo) (leaves : List Hash)
    (parent_state_root root header_hash : Hash) (guarantees : List (Hash × Hash))
    (next : List BlockInfo × Peaks) : Type 0 where
  pub fits : length next.0 ≤ 8
  pub newest : BlockInfo
  pub last :
      next.0 ≡ drop (length history + 1 - 8) (rooted parent_state_root history) ++ newest ∷ []
  pub header : newest.header_hash ≡ header_hash
  pub commitment : newest.beefy_root ≡ super_peak keccak_hash next.1
  pub reports : Permᴰ newest.reported (map report_of guarantees)
  pub no_root : newest.state_root ≡ zero_hash
  pub belt : Range keccak_hash 0 next.1 (leaves ++ root ∷ [])

drop-append :
    (k : ℕ) (xs : List BlockInfo) (y : BlockInfo)
    → k ≤ length xs
    → drop k (xs ++ y ∷ []) ≡ drop k xs ++ y ∷ []
drop-append zero xs y h = refl
drop-append (suc k) [] y h = absurd (omega arith)
drop-append (suc k) (x ∷ xs) y h = drop-append k xs y (omega arith)

length-add_item :
    (history : List BlockInfo) (item : BlockInfo)
    → length history ≤ 8
    → length (add_item_to_beta_h_prime history item) ≤ 8
length-add_item history item fits =
    subst (λ (h : List BlockInfo). length h ≤ 8)
      (sym (add_item_to_beta_h_prime-drop history item fits))
      (omega (
        arith,
        length-drop (length history + 1 - 8) (history ++ item ∷ []),
        length-append history (item ∷ []),
      ))

last-add_item :
    (history : List BlockInfo) (item : BlockInfo)
    → length history ≤ 8
    → add_item_to_beta_h_prime history item ≡ drop (length history + 1 - 8) history ++ item ∷ []
last-add_item history item fits =
    add_item_to_beta_h_prime-drop history item fits ∙ drop-append _ history item (omega arith)

-- From a history of at most eight blocks and a belt that is a mountain range over some leaves, the update
-- gives a history of at most eight blocks: the latest of the prior ones, of which the last alone has its
-- state root set to the parent's, and behind them the new one, which has the belt's commitment, the
-- packages of the guarantees in some order, and no state root yet; and a belt over the leaves and the new
-- root behind them.
pub stf_beta_h-IsNext :
    (keccak_hash : HashFunction) (history : List BlockInfo) (beefy_belt : Peaks)
    (leaves : List Hash) (parent_state_root merkle_root header_hash : Hash)
    (guarantees : List (Hash × Hash))
    → length history ≤ 8
    → Range keccak_hash 0 beefy_belt leaves
    → IsNext keccak_hash history leaves parent_state_root merkle_root header_hash guarantees (
        stf_beta_h keccak_hash history beefy_belt parent_state_root merkle_root header_hash
          guarantees)
unfolding stf_beta_h append_and_commit_mmr new_item
stf_beta_h-IsNext keccak_hash history beefy_belt leaves parent_state_root merkle_root header_hash
      guarantees fits belt =
    let dagger = history_to_history_dagger history parent_state_root in
    let same = history_to_history_dagger-rooted history parent_state_root in
    let count = ap length same ∙ length-rooted parent_state_root history in
    let belt' = append_one keccak_hash beefy_belt (some merkle_root) in
    let item =
      new_item header_hash (map_work_report_from_eg guarantees) (super_peak keccak_hash belt') in
    record {
      fits = length-add_item dagger item (omega (arith, count));
      newest = item;
      last =
          last-add_item dagger item (omega (arith, count))
          ∙ ap₂ (λ n h. drop (n + 1 - 8) h ++ item ∷ []) count same;
      header = refl;
      commitment = refl;
      reports = map_work_report_from_eg-Permᴰ guarantees;
      no_root = refl;
      belt = append_one-Range keccak_hash beefy_belt leaves merkle_root belt;
    }
