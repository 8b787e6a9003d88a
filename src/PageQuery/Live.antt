-- ===== src/PageQuery/Live.antt =====
-- The running operations of src/presentation/PageQueryCoordinator.cpp and what its steps on the list of
-- operations do with them.
use ssa_consulta_rapidacpp.Prelude.{
  ℕ, suc, ◌+◌, ◌≤◌, ◌≡◌, refl, Bool, true, ◌||◌, List, [], ◌∷◌, ◌++◌, arith, if_either,
  if◌then◌else◌, All, ◌==◌, map,
}
use ssa_consulta_rapidacpp.Sql.Marks.{All-append}
use ssa_consulta_rapidacpp.PageQuery.{Operation, Coordinator}
use ssa_consulta_rapidacpp.PageQuery.Steps.{
  stop_operation, stop_active, stop_prefetch, replace_first,
}
use ssa_consulta_rapidacpp.PageQuery.Relation.{prune_completed}

-- An operation that is still running, was not stopped and fetches no page ahead is the latest.
abbrev pub IsLive : ℕ → Operation → Type 0
IsLive latest operation =
    (operation.completed || operation.stopped || operation.prefetch || operation.id == latest)
    ≡ true

-- Not even the latest runs on.
abbrev pub IsQuiet : Operation → Type 0
IsQuiet operation = (operation.completed || operation.stopped || operation.prefetch) ≡ true

-- The operations that run, were not stopped and fetch no page ahead.
unfoldable pub live_count : List Operation → ℕ
live_count [] = 0
live_count (operation ∷ operations) =
    let rest = live_count operations in
    if operation.completed || operation.stopped || operation.prefetch then rest else suc rest

-- At most one operation is live, and it is the latest.
abbrev pub AreLive : ℕ → List Operation → Type 0
AreLive latest operations = All (IsLive latest) operations × (live_count operations ≤ 1)

abbrev pub OneLive : Coordinator → Type 0
OneLive s = AreLive s.latest_operation_id s.operations

abbrev pub AllQuiet : Coordinator → Type 0
AllQuiet s = All IsQuiet s.operations

pub live_count-append :
    (xs ys : List Operation) → live_count (xs ++ ys) ≡ live_count xs + live_count ys
unfolding live_count
live_count-append [] ys = omega arith
live_count-append (x ∷ xs) ys = ground (arith, live_count-append xs ys)

pub quiet-live_count :
    (operations : List Operation) → All IsQuiet operations → live_count operations ≡ 0
unfolding live_count
quiet-live_count [] h = refl
quiet-live_count (operation ∷ operations) (p, h) = ground (arith, quiet-live_count operations h)

quiet-IsLive :
    (latest : ℕ) (operations : List Operation)
    → All IsQuiet operations
    → All (IsLive latest) operations
quiet-IsLive latest [] h = tt
quiet-IsLive latest (operation ∷ operations) (p, h) =
    (ground arith, quiet-IsLive latest operations h)

pub quiet-AreLive :
    (latest : ℕ) (operations : List Operation) → All IsQuiet operations → AreLive latest operations
quiet-AreLive latest operations h =
    (quiet-IsLive latest operations h, omega (arith, quiet-live_count operations h))

pub append-AreLive :
    (latest : ℕ) (operations : List Operation) (operation : Operation)
    → All (IsLive latest) operations
    → IsLive latest operation
    → live_count operations + live_count (operation ∷ []) ≤ 1
    → AreLive latest (operations ++ operation ∷ [])
append-AreLive latest operations operation h p le = (
  All-append (IsLive latest) operations (operation ∷ []) h (p, tt),
  omega (arith, le, live_count-append operations (operation ∷ [])),
)

pub stop_active-IsQuiet : (operations : List Operation) → All IsQuiet (map stop_active operations)
unfolding stop_operation
stop_active-IsQuiet [] = tt
stop_active-IsQuiet (operation ∷ operations) = (ground arith, stop_active-IsQuiet operations)

stop_prefetch-live_count :
    (operations : List Operation)
    → live_count (map stop_prefetch operations) ≡ live_count operations
unfolding stop_operation live_count
stop_prefetch-live_count [] = refl
stop_prefetch-live_count (operation ∷ operations) =
    ground (arith, stop_prefetch-live_count operations)

stop_prefetch-IsLive :
    (latest : ℕ) (operations : List Operation)
    → All (IsLive latest) operations
    → All (IsLive latest) (map stop_prefetch operations)
unfolding stop_operation
stop_prefetch-IsLive latest [] h = tt
stop_prefetch-IsLive latest (operation ∷ operations) (p, h) =
    (ground arith, stop_prefetch-IsLive latest operations h)

pub stop_prefetch-AreLive :
    (latest : ℕ) (operations : List Operation)
    → AreLive latest operations
    → AreLive latest (map stop_prefetch operations)
stop_prefetch-AreLive latest operations (h, le) = (
  stop_prefetch-IsLive latest operations h,
  omega (arith, le, stop_prefetch-live_count operations),
)

replace_first-IsLive :
    (latest : ℕ) (test : Operation → Bool) (change : Operation → Operation)
    (operations : List Operation)
    → ((operation : Operation) → IsQuiet (change operation))
    → All (IsLive latest) operations
    → All (IsLive latest) (replace_first test change operations)
unfolding replace_first
replace_first-IsLive latest test change [] k h = tt
replace_first-IsLive latest test change (operation ∷ operations) k (p, h) =
    if_either (All (IsLive latest)) (test operation) (change operation ∷ operations)
      (operation ∷ replace_first test change operations) (λ e. (ground (arith, k operation), h))
      (λ e. (p, replace_first-IsLive latest test change operations k h))

replace_first-live_count :
    (test : Operation → Bool) (change : Operation → Operation) (operations : List Operation)
    → ((operation : Operation) → IsQuiet (change operation))
    → live_count (replace_first test change operations) ≤ live_count operations
unfolding replace_first live_count
replace_first-live_count test change [] k = omega arith
replace_first-live_count test change (operation ∷ operations) k =
    ground (arith, k operation, replace_first-live_count test change operations k)

pub replace_first-AreLive :
    (latest : ℕ) (test : Operation → Bool) (change : Operation → Operation)
    (operations : List Operation)
    → ((operation : Operation) → IsQuiet (change operation))
    → AreLive latest operations
    → AreLive latest (replace_first test change operations)
replace_first-AreLive latest test change operations k (h, le) = (
  replace_first-IsLive latest test change operations k h,
  omega (arith, le, replace_first-live_count test change operations k),
)

prune_completed-IsLive :
    (latest : ℕ) (operations : List Operation)
    → All (IsLive latest) operations
    → All (IsLive latest) (prune_completed operations)
unfolding prune_completed
prune_completed-IsLive latest [] h = tt
prune_completed-IsLive latest (operation ∷ operations) (p, h) =
    if_either (All (IsLive latest)) operation.completed (prune_completed operations)
      (operation ∷ prune_completed operations) (λ e. prune_completed-IsLive latest operations h)
      (λ e. (p, prune_completed-IsLive latest operations h))

prune_completed-live_count :
    (operations : List Operation) → live_count (prune_completed operations) ≡ live_count operations
unfolding prune_completed live_count
prune_completed-live_count [] = refl
prune_completed-live_count (operation ∷ operations) =
    ground (arith, prune_completed-live_count operations)

pub prune_completed-AreLive :
    (latest : ℕ) (operations : List Operation)
    → AreLive latest operations
    → AreLive latest (prune_completed operations)
prune_completed-AreLive latest operations (h, le) = (
  prune_completed-IsLive latest operations h,
  omega (arith, le, prune_completed-live_count operations),
)
