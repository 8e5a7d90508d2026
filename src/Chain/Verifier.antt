-- ===== src/Chain/Verifier.antt =====
-- The ring verifiers and their cache: internal/blockchain/ring_verifier.go. To make a verifier, its
-- commitment and its checks are foreign, and so parameters.
use jam_protocol.Base.{ℕ, not, Option, none, some, List, [], ◌++◌, ◌∷◌, length, ◌==◌, if◌then◌else◌}
use jam_protocol.Chain.Tickets.{Sizes, RingVerifier}
use jam_protocol.Chain.Safrole.{Validator}

-- `vrf.Verifier`: the commitment, `none` for an error, and the check of a batch.
pub record Verifier : Type 0 where
  pub get_commitment : Option (List ℕ)
  pub ring_verify_batch : RingVerifier

-- `NewVerifier` on the ring's bytes and its size; `none` is an error.
abbrev pub NewVerifier : Type 0
NewVerifier = List ℕ → ℕ → Option Verifier

-- The verifier is nil where there is none.
pub record RingVerifierCache : Type 0 where
  pub epoch : ℕ
  pub verifier : Option Verifier

abbrev pub released : RingVerifierCache
released = record { epoch = 0; verifier = none }

-- `ClearVerifierCache`, whatever is in the cache.
unfoldable pub clear_verifier_cache : RingVerifierCache → RingVerifierCache
clear_verifier_cache cache = released

unfoldable pub cached : RingVerifierCache → ℕ → Option Verifier
cached cache epoch = if cache.epoch == epoch then cache.verifier else none

unfoldable pub ring : List Validator → List ℕ
ring [] = []
ring (v ∷ rest) = v.bandersnatch ++ ring rest

-- After the cache is released.
unfoldable pub stored : ℕ → Option Verifier → Option Verifier × RingVerifierCache
stored epoch none = (none, released)
stored epoch (some v) = (some v, record { epoch = epoch; verifier = some v })

unfoldable pub cached_or :
    Option Verifier
    → RingVerifierCache
    → Option Verifier × RingVerifierCache
    → Option Verifier × RingVerifierCache
cached_or none cache made = made
cached_or (some v) cache made = (some v, cache)

-- `GetVerifier`: the verifier, or nil with an error, and the cache afterwards.
unfoldable pub get_verifier :
    NewVerifier
    → Sizes
    → RingVerifierCache
    → ℕ
    → List Validator
    → Option Verifier × RingVerifierCache
unfolding cached ring stored cached_or
get_verifier new_verifier sizes cache epoch gamma_k =
    if not (length gamma_k == sizes.validators_count)
    then (none, cache)
    else cached_or (cached cache epoch) cache
        (stored epoch (new_verifier (ring gamma_k) (length gamma_k)))

-- The check of a batch, of a verifier that can be nil.
unfoldable pub batch_of : Option Verifier → Option RingVerifier
batch_of none = none
batch_of (some v) = some v.ring_verify_batch
