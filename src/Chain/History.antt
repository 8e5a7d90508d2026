-- ===== src/Chain/History.antt =====
-- The recent history: internal/recent_history/recent_history_controller.go. The Merkle root of the
-- accumulation outputs and the hash of the header are arguments.
pub mod Bounds
use jam_protocol.Base.{
  ℕ, zero, suc, ◌+◌, ◌-◌, Bool, true, false, ◌||◌, ◌&&◌, Option, none, some, List, [], ◌∷◌, ◌++◌,
  length, set, take, drop, replicate, get_elem?, ltb, ◌==◌, if◌then◌else◌,
}
use jam_protocol.Chain.Mmr.{Hash, HashFunction, Peaks, append_one, super_peak}
use jam_protocol.Chain.Tickets.{bytes_lt, bytes_equal}

pub record ReportedWorkPackage : Type 0 where
  pub hash : Hash
  pub exports_root : Hash

pub record BlockInfo : Type 0 where
  pub header_hash : Hash
  pub beefy_root : Hash
  pub state_root : Hash
  pub reported : List ReportedWorkPackage

abbrev pub max_blocks_history : ℕ
max_blocks_history = 8

abbrev pub zero_hash : Hash
zero_hash = replicate 32 0

unfoldable pub check_duplicate : List BlockInfo → Hash → Bool
check_duplicate [] header_hash = false
check_duplicate (b ∷ rest) header_hash =
    bytes_equal b.header_hash header_hash || check_duplicate rest header_hash

unfoldable pub with_root : Hash → Option BlockInfo → List BlockInfo → List BlockInfo
with_root parent_state_root none history = history
with_root parent_state_root (some b) history =
    set history (length history - 1) (record b { state_root = parent_state_root })

-- The slice that it is given is written to, and returned.
unfoldable pub history_to_history_dagger : List BlockInfo → Hash → List BlockInfo
unfolding with_root
history_to_history_dagger history parent_state_root =
    with_root parent_state_root (get_elem? history (length history - 1)) history

-- The new belt and its commitment; both ways to make the range give the peaks as they are.
unfoldable pub append_and_commit_mmr : HashFunction → Peaks → Hash → Peaks × Hash
unfolding append_one super_peak
append_and_commit_mmr keccak_hash beefy_belt merkle_root =
    let belt' = append_one keccak_hash beefy_belt (some merkle_root) in
    (belt', super_peak keccak_hash belt')

-- `sort.Slice` by the hashes.
unfoldable pub insert_report :
    ReportedWorkPackage → List ReportedWorkPackage → List ReportedWorkPackage
insert_report r [] = r ∷ []
insert_report r (k ∷ rest) =
    let later = insert_report r rest in if bytes_lt k.hash r.hash then k ∷ later else r ∷ k ∷ rest

-- The package's hash and exports root of each guarantee's report.
unfoldable pub map_work_report_from_eg : List (Hash × Hash) → List ReportedWorkPackage
unfolding insert_report
map_work_report_from_eg [] = []
map_work_report_from_eg ((hash, exports_root) ∷ rest) =
    insert_report (record { hash = hash; exports_root = exports_root })
      (map_work_report_from_eg rest)

unfoldable pub new_item : Hash → List ReportedWorkPackage → Hash → BlockInfo
new_item header_hash reported beefy_root = record {
  header_hash = header_hash;
  beefy_root = beefy_root;
  state_root = zero_hash;
  reported = reported;
}

abbrev pub zero_block : BlockInfo
zero_block = record {
  header_hash = zero_hash;
  beefy_root = zero_hash;
  state_root = zero_hash;
  reported = [];
}

-- `copy(dst, src)`
unfoldable pub copied : List BlockInfo → List BlockInfo → List BlockInfo
copied dst src = take (length dst) src ++ drop (length src) dst

unfoldable pub add_item_to_beta_h_prime : List BlockInfo → BlockInfo → List BlockInfo
unfolding copied
add_item_to_beta_h_prime history item =
    let n = length history in
    if ltb n max_blocks_history
    then set (copied (replicate (n + 1) zero_block) history) n item
    else set (copied (replicate max_blocks_history zero_block) (drop 1 history))
        (max_blocks_history - 1) item

-- `STFBetaH2BetaHDagger`, which only logs that the history is not valid, and
-- `STFBetaHDagger2BetaHPrime`: the new history and belt.
unfoldable pub stf_beta_h :
    HashFunction
    → List BlockInfo
    → Peaks
    → Hash
    → Hash
    → Hash
    → List (Hash × Hash)
    → List BlockInfo × Peaks
unfolding history_to_history_dagger append_and_commit_mmr map_work_report_from_eg new_item
    add_item_to_beta_h_prime
stf_beta_h keccak_hash history beefy_belt parent_state_root merkle_root header_hash guarantees =
    let belt = append_and_commit_mmr keccak_hash beefy_belt merkle_root in
    let item = new_item header_hash (map_work_report_from_eg guarantees) belt.1 in
    (add_item_to_beta_h_prime (history_to_history_dagger history parent_state_root) item, belt.0)
