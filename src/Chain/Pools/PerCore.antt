-- ===== src/Chain/Pools/PerCore.antt =====
-- The update of the pools of all cores is, core by core, the one that the protocol asks for.
use jam_protocol.Base.{
  ℕ, zero, suc, ◌+◌, ◌-◌, ◌%◌, ◌≤◌, ◌<◌, ◌≡◌, ◌≢◌, refl, sym, ap, subst, ◌∙◌, arith, Bool, true,
  false, none, some, List, [], ◌∷◌, ◌++◌, All, length, get_elem?, get_or, set, length-set,
  length-drop, ltb, le→leb, lt→ltb, ==_iff, ◌==◌, if◌then◌else◌,
}
use mathlib.Core.Option.{some-injective}
use native.Mathlib.Nat.{mod-lt}
use jam_protocol.Chain.Pools.Removal.{
  without, last_eight, remove_left_most_paired_value-without, trimmed-last_eight,
}
use jam_protocol.Chain.Pools.{
  Guarantee, Pool, entries, pools, update_pool_from_queue, then_update, remove_used, append_to_pool,
  append_from_queue, append_loop, validate_pools, validated, stf_alpha_to_alpha_prime,
}

-- What is left of the pool of a core after the guarantees.
abbrev pub left_in : ℕ → List Guarantee → List (List ℕ) → List (List ℕ)
left_in core [] pool = pool
left_in core (eg ∷ rest) pool =
    if eg.core_index == core
    then left_in core rest (without eg.authorizer_hash pool)
    else left_in core rest pool

-- What the protocol asks for: of each authorizer that a guarantee used the first entry is taken away, the
-- one that the queue has at the slot is appended, and the last eight are kept.
abbrev pub next_pool : ℕ → ℕ → List Guarantee → List (List ℕ) → List (List ℕ) → List (List ℕ)
next_pool core slot guarantees pool queue =
    last_eight (left_in core guarantees pool ++ get_or queue (slot % length queue) [] ∷ [])

-- Every core's pool is there, and every guarantee is for a core.
abbrev pub IsThere : Pool → Type 0
IsThere none = ⊥
IsThere (some pool) = Unit

get_elem?-set_self :
    (alpha : List Pool) (i : ℕ) (v : Pool) → i < length alpha → get_elem? (set alpha i v) i ≡ some v
get_elem?-set_self [] i v h = absurd (omega arith)
get_elem?-set_self (x ∷ xs) zero v h = refl
get_elem?-set_self (x ∷ xs) (suc i) v h = get_elem?-set_self xs i v (omega arith)

get_elem?-set_ne :
    (alpha : List Pool) (i j : ℕ) (v : Pool)
    → i ≢ j
    → get_elem? (set alpha i v) j ≡ get_elem? alpha j
get_elem?-set_ne [] i j v ne = refl
get_elem?-set_ne (x ∷ xs) zero zero v ne = absurd (ne refl)
get_elem?-set_ne (x ∷ xs) zero (suc j) v ne = refl
get_elem?-set_ne (x ∷ xs) (suc i) zero v ne = refl
get_elem?-set_ne (x ∷ xs) (suc i) (suc j) v ne = get_elem?-set_ne xs i j v (λ e. ne (ap suc e))

-- The pools of cores, as a function.
abbrev pub HasPools : ℕ → List Pool → (ℕ → List (List ℕ)) → Type 0
HasPools n alpha f = (length alpha ≡ n) × ((c : ℕ) → c < n → get_elem? alpha c ≡ some (some (f c)))

-- `f` with another pool at a core.
abbrev at : (ℕ → List (List ℕ)) → ℕ → List (List ℕ) → ℕ → List (List ℕ)
at f core pool c = if core == c then pool else f c

set-HasPools :
    (n : ℕ) (alpha : List Pool) (f : ℕ → List (List ℕ)) (core : ℕ) (pool : List (List ℕ))
    → HasPools n alpha f
    → core < n
    → HasPools n (set alpha core (some pool)) (at f core pool)
set-HasPools n alpha f core pool (size, has) inside =
    (length-set alpha core _ ∙ size, λ c h. by_core c h (core == c) refl)
  where
    by_core :
        (c : ℕ)
        → c < n
        → (b : Bool) → (core == c) ≡ b
        → get_elem? (set alpha core (some pool)) c ≡ some (some (if b then pool else f c))
    by_core c h true e =
        ap (get_elem? (set alpha core (some pool))) (sym (ground arith))
        ∙ get_elem?-set_self alpha core _ (omega (arith, size))
    by_core c h false e = get_elem?-set_ne alpha core c _ (ground arith) ∙ has c h

left_in_cons :
    (c : ℕ) (eg : Guarantee) (rest : List Guarantee) (f : ℕ → List (List ℕ))
    → left_in c rest (at f eg.core_index (without eg.authorizer_hash (f eg.core_index)) c)
      ≡ left_in c (eg ∷ rest) (f c)
left_in_cons c eg rest f = by_core (eg.core_index == c) (==_iff eg.core_index c).0
  where
    by_core :
        (b : Bool)
        → (b ≡ true → eg.core_index ≡ c)
        → left_in c rest (if b then without eg.authorizer_hash (f eg.core_index) else f c)
          ≡ (if b then left_in c rest (without eg.authorizer_hash (f c)) else left_in c rest (f c))
    by_core true same = ap (λ i. left_in c rest (without eg.authorizer_hash (f i))) (same refl)
    by_core false same = refl

update-pools :
    (eg : Guarantee) (pool : List (List ℕ)) (alpha : List Pool)
    → get_elem? alpha eg.core_index ≡ some (some pool)
    → update_pool_from_queue eg alpha
      ≡ pools (set alpha eg.core_index (some (without eg.authorizer_hash pool)))
unfolding update_pool_from_queue
update-pools eg pool alpha e =
    rw (update_pool_from_queue, e)
      (ap (λ p. pools (set alpha eg.core_index (some p)))
        (remove_left_most_paired_value-without eg.authorizer_hash pool))

remove_used-HasPools :
    (n : ℕ) (guarantees : List Guarantee) (alpha : List Pool) (f : ℕ → List (List ℕ))
    → HasPools n alpha f
    → All (λ (eg : Guarantee). eg.core_index < n) guarantees
    → (alpha' : List Pool) × (remove_used guarantees alpha ≡ pools alpha')
      × HasPools n alpha' (λ c. left_in c guarantees (f c))
unfolding remove_used then_update
remove_used-HasPools n [] alpha f has inside = (alpha, refl, has)
remove_used-HasPools n (eg ∷ rest) alpha f has inside =
    let pool = without eg.authorizer_hash (f eg.core_index) in
    let (alpha', e, (size, has')) =
      remove_used-HasPools n rest (set alpha eg.core_index (some pool)) (at f eg.core_index pool)
        (set-HasPools n alpha f eg.core_index pool has inside.0) inside.1 in
    (
      alpha',
      ap (λ u. then_update u (λ a. remove_used rest a))
            (update-pools eg (f eg.core_index) alpha (has.1 eg.core_index inside.0))
          ∙ e,
      (size, λ c h. has' c h ∙ ap (λ xs. some (some xs)) (left_in_cons c eg rest f)),
    )

length-last_eight : (pool : List (List ℕ)) → length (last_eight pool) ≤ 8
length-last_eight pool = omega (arith, length-drop (length pool - 8) pool)

-- The queues of all cores, none of them empty.
abbrev pub HasQueues : ℕ → List (List (List ℕ)) → (ℕ → List (List ℕ)) → Type 0
HasQueues n varphi q = (c : ℕ) → c < n → (get_elem? varphi c ≡ some (q c)) × (0 < length (q c))

get_elem?-get_or :
    (xs : List (List ℕ)) (i : ℕ) → i < length xs → get_elem? xs i ≡ some (get_or xs i [])
get_elem?-get_or [] i h = absurd (omega arith)
get_elem?-get_or (x ∷ xs) zero h = refl
get_elem?-get_or (x ∷ xs) (suc i) h = get_elem?-get_or xs i (omega arith)

append_from_queue-pools :
    (slot core : ℕ) (queue pool : List (List ℕ)) (alpha : List Pool)
    → 0 < length queue
    → get_elem? alpha core ≡ some (some pool)
    → append_from_queue slot (some queue) core alpha
      ≡ pools
          (set alpha core (some (last_eight (pool ++ get_or queue (slot % length queue) [] ∷ []))))
unfolding append_from_queue append_to_pool entries
append_from_queue-pools slot core [] pool alpha h e = absurd (omega arith)
append_from_queue-pools slot core (x ∷ queue) pool alpha h e =
    rw (get_elem?-get_or (x ∷ queue) (slot % length (x ∷ queue)) (mod-lt slot h), e)
      (ap (λ p. pools (set alpha core (some p)))
        (trimmed-last_eight (pool ++ get_or (x ∷ queue) (slot % length (x ∷ queue)) [] ∷ [])))

-- The cores below `core` are done.
abbrev upto : ℕ → ℕ → (ℕ → List (List ℕ)) → (ℕ → List (List ℕ)) → ℕ → List (List ℕ)
upto slot core q f c =
    if ltb c core then last_eight (f c ++ get_or (q c) (slot % length (q c)) [] ∷ []) else f c

HasPools-ext :
    (n : ℕ) (alpha : List Pool) (f g : ℕ → List (List ℕ))
    → ((c : ℕ) → f c ≡ g c)
    → HasPools n alpha f
    → HasPools n alpha g
HasPools-ext n alpha f g same (size, has) =
    (size, λ c h. has c h ∙ ap (λ xs. some (some xs)) (same c))

upto_suc :
    (slot core : ℕ) (q f : ℕ → List (List ℕ)) (c : ℕ)
    → at
        (upto slot core q f)
        core
        (last_eight (upto slot core q f core ++ get_or (q core) (slot % length (q core)) [] ∷ []))
        c
      ≡ upto slot (core + 1) q f c
upto_suc slot core q f c = by_core (core == c) refl
  where
    irreflexive : (k : ℕ) → ltb k k ≡ false
    irreflexive k = ground arith

    below : (k : ℕ) → ltb k (k + 1) ≡ true
    below k = ground arith

    now :
        (k : ℕ)
        → last_eight (upto slot k q f k ++ get_or (q k) (slot % length (q k)) [] ∷ [])
          ≡ upto slot (k + 1) q f k
    now k = rw (irreflexive k, below k) refl

    other : (c core : ℕ) → (core == c) ≡ false → ltb c core ≡ ltb c (core + 1)
    other c core e = ground arith

    by_core :
        (b : Bool)
        → (core == c) ≡ b
        → (if b
            then last_eight
                (upto slot core q f core ++ get_or (q core) (slot % length (q core)) [] ∷ [])
            else upto slot core q f c)
          ≡ upto slot (core + 1) q f c
    by_core true e =
        subst
          (λ k.
            last_eight (upto slot core q f core ++ get_or (q core) (slot % length (q core)) [] ∷ [])
            ≡ upto slot (core + 1) q f k)
          ((==_iff core c).0 e) (now core)
    by_core false e =
        ap (λ b. if b then last_eight (f c ++ get_or (q c) (slot % length (q c)) [] ∷ []) else f c)
          (other c core e)

append_loop-HasPools :
    (n slot rounds core : ℕ) (varphi : List (List (List ℕ))) (q f : ℕ → List (List ℕ))
    (alpha : List Pool)
    → rounds + core ≡ n
    → HasQueues n varphi q
    → HasPools n alpha (upto slot core q f)
    → (alpha' : List Pool) × (append_loop slot varphi rounds core alpha ≡ pools alpha')
      × HasPools n alpha' (upto slot n q f)
unfolding append_loop then_update
append_loop-HasPools n slot zero core varphi q f alpha end queues has =
    (alpha, refl, subst (λ k. HasPools n alpha (upto slot k q f)) (omega arith) has)
append_loop-HasPools n slot (suc rounds) core varphi q f alpha end queues has =
    let inside = queues core (omega arith) in
    let pool = upto slot core q f core in
    let next = last_eight (pool ++ get_or (q core) (slot % length (q core)) [] ∷ []) in
    let (alpha', e, has') =
      append_loop-HasPools n slot rounds (core + 1) varphi q f (set alpha core (some next))
        (omega arith) queues
        (HasPools-ext n _ _ _ (upto_suc slot core q f)
          (set-HasPools n alpha (upto slot core q f) core next has (omega arith))) in
    (
      alpha',
      rw
          (
            inside.0,
            append_from_queue-pools slot core (q core) pool alpha inside.1
                (has.1 core (omega arith)),
          )
          e,
      has',
    )

validate_pools-All :
    (alpha : List Pool) (f : ℕ → List (List ℕ))
    → ((c : ℕ) → c < length alpha → get_elem? alpha c ≡ some (some (f c)))
    → ((c : ℕ) → length (f c) ≤ 8)
    → validate_pools alpha ≡ true
unfolding validate_pools entries
validate_pools-All [] f has fits = refl
validate_pools-All (pool ∷ rest) f has fits =
    rw
      (
        le→leb _ 8 (
            subst (λ p. length (entries p) ≤ 8) (sym (some-injective _ _ (has 0 (omega arith))))
              (fits 0)),
        validate_pools-All rest (λ c. f (suc c)) (λ c h. has (suc c) (omega arith))
            (λ c. fits (suc c)),
      )
      refl

validated-pools :
    (n : ℕ) (alpha : List Pool) (f : ℕ → List (List ℕ))
    → length alpha ≡ n
    → ((c : ℕ) → c < n → get_elem? alpha c ≡ some (some (f c)))
    → ((c : ℕ) → length (f c) ≤ 8)
    → validated n alpha ≡ pools alpha
unfolding validated
validated-pools n alpha f size has fits =
    rw
      (
        (==_iff (length alpha) n).1 size,
        validate_pools-All alpha f (λ c h. has c (omega (arith, size))) fits,
      )
      refl

not_below : (c : ℕ) → ltb c 0 ≡ false
not_below c = ground arith

-- Where each of `n` cores has a pool and a queue that is not empty, and each guarantee is for one of
-- them, the update is accepted and gives each core the pool that the protocol asks for: for each guarantee
-- of the core without the first entry that is its authorizer, with the one that the queue has at the slot
-- behind, cut to the last eight.
pub stf_alpha_to_alpha_prime-next_pool :
    (n slot : ℕ) (guarantees : List Guarantee) (alpha : List Pool) (varphi : List (List (List ℕ)))
    (f q : ℕ → List (List ℕ))
    → HasPools n alpha f
    → HasQueues n varphi q
    → All (λ (eg : Guarantee). eg.core_index < n) guarantees
    → (alpha' : List Pool) × (stf_alpha_to_alpha_prime n slot guarantees alpha varphi
        ≡ pools alpha')
      × HasPools n alpha' (λ c. next_pool c slot guarantees (f c) (q c))
unfolding stf_alpha_to_alpha_prime
stf_alpha_to_alpha_prime-next_pool n slot guarantees alpha varphi f q has queues inside =
    let (used, is_used, has_used) = remove_used-HasPools n guarantees alpha f has inside in
    let (alpha', is_next, (size, has_next)) =
      append_loop-HasPools n slot n 0 varphi q (λ c. left_in c guarantees (f c)) used (omega arith)
        queues
        (HasPools-ext n used (λ c. left_in c guarantees (f c)) _
          (none_yet (λ c. left_in c guarantees (f c))) has_used) in
    let has' : ((c : ℕ)
        → c < n
        → get_elem? alpha' c ≡ some (some (next_pool c slot guarantees (f c) (q c)))) =
      λ c h. has_next c h ∙ ap (λ xs. some (some xs)) (done_all c h) in
    (
      alpha',
      ap
            (λ u.
              then_update u (λ a. then_update (append_loop slot varphi n 0 a) (λ b. validated n b)))
            is_used
          ∙ ap (λ u. then_update u (λ b. validated n b)) is_next
          ∙ validated-pools n alpha' _ size has' (λ c.
            length-last_eight
              (left_in c guarantees (f c) ++ get_or (q c) (slot % length (q c)) [] ∷ [])),
      (size, has'),
    )
  where
    none_yet : (g : ℕ → List (List ℕ)) (c : ℕ) → g c ≡ upto slot 0 q g c
    none_yet g c = rw (not_below c) refl

    done_all :
        (c : ℕ)
        → c < n
        → upto slot n q (λ k. left_in k guarantees (f k)) c
          ≡ next_pool c slot guarantees (f c) (q c)
    done_all c h = rw (lt→ltb c n h) refl
