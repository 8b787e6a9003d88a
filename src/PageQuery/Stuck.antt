-- ===== src/PageQuery/Stuck.antt =====
-- When src/presentation/PageQueryCoordinator.cpp comes to rest: the states after the end of an operation,
-- and a state that no call leaves.
use ssa_consulta_rapidacpp.Prelude.{
  ℕ, ◌≡◌, refl, ◌∙◌, Bool, true, false, not, ◌&&◌, ◌||◌, List, [], ◌∷◌, some, arith, if_either, all,
  any, ◌==◌, map,
}
use ssa_consulta_rapidacpp.PageQuery.{
  State, idle, running, canceling, state_changed, Operation, Coordinator, Outcome, vanished,
  produced, threw,
}
use ssa_consulta_rapidacpp.PageQuery.Cache.{invalidate_cache_for_query, invalidate_total_rows_all}
use ssa_consulta_rapidacpp.PageQuery.Steps.{
  run_on, cancel_latest, latest_operation, emit, state_eq, set_state, has_active_operations,
  find_operation, stop_operation, stop_prefetch, know_total, run, cancel,
}
use ssa_consulta_rapidacpp.PageQuery.Relation.{
  has_id, completed_in, keep_prefetched, learn_total, publish, publishes, close, finish_main,
  finish_operation, prune_completed, prune_completed_operations, shut_down, Event, step, runs,
  stops, invalidates, finishes, prunes, shuts_down,
}

state_eq→eq : (a b : State) → state_eq a b ≡ true → a ≡ b
state_eq→eq a b h = ground arith

set_state-state : (state : State) (s : Coordinator) → (set_state state s).state ≡ state
unfolding set_state emit
set_state-state state s =
    if_either (λ (t : Coordinator). t.state ≡ state) (state_eq s.state state) s
      (emit (state_changed state) (record s { state = state })) (state_eq→eq s.state state)
      (λ e. refl)

-- What decides about the end of an operation is not changed by the total that it brings.
abbrev SameKey : Coordinator → Coordinator → Type 0
SameKey s t =
    (t.shutting_down ≡ s.shutting_down)
    × (t.latest_operation_id ≡ s.latest_operation_id)
    × (t.cache_generation ≡ s.cache_generation)
    × (t.operations ≡ s.operations)
    × (t.emitted ≡ s.emitted)

pub learn_total-same :
    (operation : Operation) (outcome : Outcome) (s : Coordinator)
    → SameKey s (learn_total operation outcome s)
learn_total-same operation vanished s = (refl, refl, refl, refl, refl)
learn_total-same operation (threw what) s = (refl, refl, refl, refl, refl)
learn_total-same operation (produced result) s =
    if_either (SameKey s) (not s.shutting_down && operation.generation == s.cache_generation)
      (know_total result s) s
      (λ e.
        if_either (SameKey s) result.total_rows_all_computed _ s
          (λ f. (refl, refl, refl, refl, refl)) (λ f. (refl, refl, refl, refl, refl)))
      (λ e. (refl, refl, refl, refl, refl))

-- No other operation runs on once the one of the number has ended.
abbrev pub rests : Operation → ℕ → Coordinator → Bool
rests operation id s =
    operation.id == s.latest_operation_id && not (has_active_operations (completed_in id s))

finish_main-idle :
    (operation : Operation) (outcome : Outcome) (listener_cancels : Bool) (s : Coordinator)
    → (publishes operation s
        || (operation.id == s.latest_operation_id && not (has_active_operations s)))
      ≡ true
    → (finish_main operation outcome listener_cancels s).state ≡ idle
finish_main-idle operation outcome listener_cancels s h =
    if_either (λ (t : Coordinator). t.state ≡ idle) (publishes operation s)
      (close (publish operation outcome listener_cancels (record s { finishing = true }))) _
      (λ e. set_state-state idle _)
      (λ e.
        if_either (λ (t : Coordinator). t.state ≡ idle)
          (operation.id == s.latest_operation_id && not (has_active_operations s))
          (set_state idle s) s (λ f. set_state-state idle s) (λ f. absurd (ground arith)))

same-decides :
    (operation : Operation) (s t : Coordinator)
    → SameKey s t
    → (publishes operation t
        || (operation.id == t.latest_operation_id && not (has_active_operations t)))
      ≡ (publishes operation s
          || (operation.id == s.latest_operation_id && not (has_active_operations s)))
unfolding has_active_operations
same-decides operation s t (a, b, c, d, e) = simp (a, b, c, d) refl

pub finish_operation-idle :
    (id : ℕ) (operation : Operation) (outcome : Outcome) (listener_cancels : Bool) (s : Coordinator)
    → find_operation (has_id id) s.operations ≡ some operation
    → operation.prefetch ≡ false
    → (publishes operation s || rests operation id s) ≡ true
    → (finish_operation id outcome listener_cancels s).state ≡ idle
unfolding finish_operation emit
finish_operation-idle id operation outcome listener_cancels s f p h =
    let learned = learn_total operation outcome (completed_in id s) in
    let k =
      same-decides operation (completed_in id s) learned
        (learn_total-same operation outcome (completed_in id s)) in
    rw f (
      if_either (λ (t : Coordinator). t.state ≡ idle) operation.prefetch
        (keep_prefetched operation outcome (completed_in id s))
        (finish_main operation outcome listener_cancels learned) (λ e. absurd (ground (arith)))
        (λ e. finish_main-idle operation outcome listener_cancels learned (k ∙ h)))

-- What other code can call, as against the end of a worker.
abbrev pub is_call : Event → Bool
is_call (runs request listener_cancels) = true
is_call stops = true
is_call invalidates = true
is_call (finishes id outcome listener_cancels) = false
is_call prunes = true
is_call shuts_down = true

unfoldable pub steps : List Event → Coordinator → Coordinator
steps [] s = s
steps (e ∷ events) s = steps events (step e s)

abbrev pub active : List Operation → Bool
active operations = any (λ (operation : Operation). not operation.completed) operations

stop_prefetch-active :
    (operations : List Operation) → active (map stop_prefetch operations) ≡ active operations
unfolding stop_operation
stop_prefetch-active [] = refl
stop_prefetch-active (operation ∷ operations) = ground (arith, stop_prefetch-active operations)

prune_completed-active :
    (operations : List Operation)
    → active operations ≡ false
    → active (prune_completed operations) ≡ false
unfolding prune_completed
prune_completed-active [] h = refl
prune_completed-active (operation ∷ operations) h =
    ground (arith, prune_completed-active operations)

-- Nothing runs, and the state says that a query is being canceled.
abbrev pub IsStuck : List Operation → State → Type 0
IsStuck operations state = (active operations ≡ false) × (state ≡ canceling)

abbrev StillStuck : Coordinator → Coordinator → Type 0
StillStuck s t = IsStuck t.operations t.state × (t.emitted ≡ s.emitted)

step-IsStuck :
    (e : Event) (s : Coordinator)
    → is_call e ≡ true
    → IsStuck s.operations s.state
    → IsStuck (step e s).operations (step e s).state × ((step e s).emitted ≡ s.emitted)
unfolding step run cancel prune_completed_operations shut_down invalidate_total_rows_all
step-IsStuck (runs request listener_cancels) s c (a, h) =
    if_either (StillStuck s) (s.shutting_down || state_eq s.state canceling || s.finishing) s
      (run_on request listener_cancels (invalidate_cache_for_query request s)) (λ e. ((a, h), refl))
      (λ e. absurd (ground arith))
step-IsStuck stops s c (a, h) =
    let stopped = record s { operations = map stop_prefetch s.operations } in
    if_either (StillStuck s) (state_eq s.state running)
      (cancel_latest (latest_operation stopped) stopped) stopped (λ e. absurd (ground arith))
      (λ e. ((stop_prefetch-active s.operations ∙ a, h), refl))
step-IsStuck invalidates s c (a, h) = ((a, h), refl)
step-IsStuck (finishes id outcome listener_cancels) s c (a, h) = cc
step-IsStuck prunes s c (a, h) = ((prune_completed-active s.operations a, h), refl)
step-IsStuck shuts_down s c (a, h) = ((refl, h), refl)

-- A coordinator that is canceling while no operation runs stays so, whatever is called on it, and emits
-- nothing any more: no query is ever run again.
pub steps-IsStuck :
    (events : List Event) (s : Coordinator)
    → all is_call events ≡ true
    → IsStuck s.operations s.state
    → IsStuck (steps events s).operations (steps events s).state
      × ((steps events s).emitted ≡ s.emitted)
unfolding steps
steps-IsStuck [] s c h = (h, refl)
steps-IsStuck (e ∷ events) s c h =
    let (k, same) = step-IsStuck e s (ground arith) h in
    let (l, more) = steps-IsStuck events (step e s) (ground arith) k in (l, more ∙ same)
