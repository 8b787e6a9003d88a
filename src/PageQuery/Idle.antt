-- ===== src/PageQuery/Idle.antt =====
-- The life of a query of src/presentation/PageQueryCoordinator.cpp that nothing else disturbs: asked for,
-- perhaps canceled, and ended.
use ssa_consulta_rapidacpp.Prelude.{
  ℕ, ◌+◌, ◌%◌, ◌^◌, ◌≡◌, refl, ap, subst, ◌∙◌, Bool, true, false, ◌||◌, List, [], ◌∷◌, ◌++◌, Option,
  none, some, arith, if_either, if◌then◌else◌, ==_refl, all, map,
}
use ssa_consulta_rapidacpp.Sql.Query.{SsaPageRequest}
use ssa_consulta_rapidacpp.PageQuery.{
  State, idle, running, canceling, state_changed, Operation, Coordinator, Outcome,
}
use ssa_consulta_rapidacpp.PageQuery.Cache.{
  erase_first_page, fingerprint, find_page, invalidate_for, invalidate_cache_for_query,
  take_cached_page,
}
use ssa_consulta_rapidacpp.PageQuery.Steps.{
  emit, state_eq, set_state, is_latest, find_operation, latest_operation, stop_operation,
  stop_prefetch, stop_active, replace_first, new_operation, register, start, cancel_latest, cancel,
  run_on, run,
}
use ssa_consulta_rapidacpp.PageQuery.Request.{request_eq}
use ssa_consulta_rapidacpp.PageQuery.Relation.{
  has_id, publishes, finish_operation, Event, step, runs, stops, invalidates, finishes, prunes,
  shuts_down,
}
use ssa_consulta_rapidacpp.PageQuery.Stuck.{finish_operation-idle, steps}

-- The only operation is a query that was asked for since the data changed, and is stopped only where it
-- was canceled.
record IsOnly (s : Coordinator) (operation : Operation) : Type 0 where
  alone : s.operations ≡ operation ∷ []
  main : operation.prefetch ≡ false
  wanted : publishes operation s ≡ true

abbrev Awaits : ℕ → Coordinator → Type 0
Awaits id s = (operation : Operation) × IsOnly s operation × (operation.id ≡ id)

set_state-IsOnly :
    (state : State) (s : Coordinator) (operation : Operation)
    → IsOnly s operation
    → IsOnly (set_state state s) operation
unfolding set_state emit
set_state-IsOnly state s operation h =
    if_either (λ (t : Coordinator). IsOnly t operation) (state_eq s.state state) s
      (emit (state_changed state) (record s { state = state })) (λ e. h)
      (λ e. record { alone = h.alone; main = h.main; wanted = h.wanted })

change_first :
    (test : Operation → Bool) (change : Operation → Operation) (operation : Operation)
    (operations : List Operation)
    → operations ≡ operation ∷ []
    → replace_first test change operations
      ≡ (if test operation then change operation else operation) ∷ []
unfolding replace_first
change_first test change operation operations e = rw e (ground arith)

cancel_latest-Awaits :
    (o : Option Operation) (s : Coordinator) (operation : Operation)
    → IsOnly s operation
    → Awaits operation.id (cancel_latest o s)
unfolding stop_operation
cancel_latest-Awaits none s operation h =
    let noted = record s { prefetch_cancellation_requested = true } in
    if_either (Awaits operation.id) s.finishing noted s
      (λ e. (operation, record { alone = h.alone; main = h.main; wanted = h.wanted }, refl))
      (λ e. (operation, h, refl))
cancel_latest-Awaits (some latest) s operation h =
    let marked : Operation → Operation =
      λ o. stop_operation (record o { explicitly_canceled = true }) in
    let t = set_state canceling s in
    let k : IsOnly t operation = set_state-IsOnly canceling s operation h in
    let test = is_latest s.latest_operation_id in
    let later = if test operation then marked operation else operation in
    (
      later,
      record {
        alone = change_first test marked operation t.operations k.alone;
        main =
            if_either (λ (o : Operation). o.prefetch ≡ false) (test operation) (marked operation)
              operation (λ e. k.main) (λ e. k.main);
        wanted =
            if_either (λ (o : Operation). publishes o t ≡ true) (test operation) (marked operation)
              operation (λ e. ground (arith, k.wanted)) (λ e. k.wanted);
      },
      if_either (λ (o : Operation). o.id ≡ operation.id) (test operation) (marked operation)
          operation (λ e. refl) (λ e. refl),
    )

cancel-Awaits :
    (s : Coordinator) (operation : Operation) → IsOnly s operation → Awaits operation.id (cancel s)
unfolding cancel
cancel-Awaits s operation h =
    let stopped = record s { operations = map stop_prefetch s.operations } in
    let same : stop_prefetch operation ≡ operation = ground (arith, h.main) in
    let k : IsOnly stopped operation = record {
      alone = ap (map stop_prefetch) h.alone ∙ ap (λ (o : Operation). o ∷ []) same;
      main = h.main;
      wanted = h.wanted;
    } in
    if_either (Awaits operation.id) (state_eq s.state running)
      (cancel_latest (latest_operation stopped) stopped) stopped
      (λ e. cancel_latest-Awaits (latest_operation stopped) stopped operation k)
      (λ e. (operation, k, refl))

-- The calls that cancel what runs.
abbrev pub is_stop : Event → Bool
is_stop (runs request listener_cancels) = false
is_stop stops = true
is_stop invalidates = false
is_stop (finishes id outcome listener_cancels) = false
is_stop prunes = false
is_stop shuts_down = false

stop-Awaits :
    (e : Event) (id : ℕ) (s : Coordinator) → is_stop e ≡ true → Awaits id s → Awaits id (step e s)
unfolding step
stop-Awaits (runs request listener_cancels) id s c h = cc
stop-Awaits stops id s c (operation, h, e) =
    let (later, k, f) = cancel-Awaits s operation h in (later, k, f ∙ e)
stop-Awaits invalidates id s c h = cc
stop-Awaits (finishes n outcome listener_cancels) id s c h = cc
stop-Awaits prunes id s c h = cc
stop-Awaits shuts_down id s c h = cc

stops-Awaits :
    (events : List Event) (id : ℕ) (s : Coordinator)
    → all is_stop events ≡ true
    → Awaits id s
    → Awaits id (steps events s)
unfolding steps
stops-Awaits [] id s c h = h
stops-Awaits (e ∷ events) id s c h =
    stops-Awaits events id (step e s) (ground arith) (stop-Awaits e id s (ground arith) h)

find-only :
    (id : ℕ) (operation : Operation) (operations : List Operation)
    → operations ≡ operation ∷ []
    → operation.id ≡ id
    → find_operation (has_id id) operations ≡ some operation
unfolding find_operation
find-only id operation operations e f = rw (e, f, ==_refl id) refl

finish-Awaits :
    (id : ℕ) (outcome : Outcome) (listener_cancels : Bool) (s : Coordinator)
    → Awaits id s
    → (finish_operation id outcome listener_cancels s).state ≡ idle
finish-Awaits id outcome listener_cancels s (operation, h, e) =
    finish_operation-idle id operation outcome listener_cancels s
      (find-only id operation s.operations h.alone e) h.main (ground (arith, h.wanted))

abbrev next_id : Coordinator → ℕ
next_id s = (s.next_operation_id + 1) % 2 ^ 64

start-Awaits :
    (request : SsaPageRequest) (s : Coordinator)
    → s.operations ≡ []
    → s.shutting_down ≡ false
    → Awaits (next_id s) (start request false s)
unfolding start emit
start-Awaits request s e h =
    let operation = new_operation request false s in
    let k : IsOnly (set_state running (register operation s)) operation =
      set_state-IsOnly running (register operation s) operation (record {
        alone = ap (λ (m : List Operation). m ++ operation ∷ []) e;
        main = refl;
        wanted = ground (arith, h, ==_refl operation.id, ==_refl s.cache_generation);
      }) in
    (operation, record { alone = k.alone; main = k.main; wanted = k.wanted }, refl)

-- Nothing runs and nothing is shown.
pub record IsResting (s : Coordinator) : Type 0 where
  pub nothing_runs : s.operations ≡ []
  pub is_open : s.shutting_down ≡ false
  pub is_idle : s.state ≡ idle
  pub is_free : s.finishing ≡ false

run_on-Awaits :
    (request : SsaPageRequest) (listener_cancels : Bool) (s : Coordinator)
    → s.operations ≡ []
    → s.shutting_down ≡ false
    → find_page request s.page_cache ≡ none
    → Awaits (next_id s) (run_on request listener_cancels s)
unfolding latest_operation find_operation take_cached_page
run_on-Awaits request listener_cancels s e h none_kept =
    let emptied = record s {
      operations = map stop_active s.operations;
      page_cache = erase_first_page request s.page_cache;
    } in
    rw (e, none_kept)
      (start-Awaits request
        (record s { operations = []; page_cache = erase_first_page request s.page_cache }) refl h)

abbrev SameRun : Coordinator → Coordinator → Type 0
SameRun s t =
    (t.operations ≡ s.operations)
    × (t.shutting_down ≡ s.shutting_down)
    × (t.next_operation_id ≡ s.next_operation_id)

invalidate_for-same :
    (query : SsaPageRequest) (o : Option SsaPageRequest) (s : Coordinator)
    → SameRun s (invalidate_for query o s)
invalidate_for-same query none s = (refl, refl, refl)
invalidate_for-same query (some cached) s =
    if_either (SameRun s) (request_eq cached query) s _ (λ e. (refl, refl, refl))
      (λ e. (refl, refl, refl))

run-Awaits :
    (request : SsaPageRequest) (listener_cancels : Bool) (s : Coordinator)
    → IsResting s
    → find_page request (invalidate_cache_for_query request s).page_cache ≡ none
    → Awaits (next_id s) (run request listener_cancels s)
unfolding run invalidate_cache_for_query
run-Awaits request listener_cancels s h none_kept =
    let t = invalidate_for (fingerprint request) s.cache_query s in
    let (a, b, c) = invalidate_for-same (fingerprint request) s.cache_query s in
    let k : Awaits (next_id t) (run_on request listener_cancels t) =
      run_on-Awaits request listener_cancels t (a ∙ h.nothing_runs) (b ∙ h.is_open) none_kept in
    let accepted : (s.shutting_down || state_eq s.state canceling || s.finishing) ≡ false =
      rw (h.is_open, h.is_idle, h.is_free) refl in
    rw accepted
      (subst (λ (n : ℕ). Awaits ((n + 1) % 2 ^ 64) (run_on request listener_cancels t)) c k)

-- A page that is not kept, asked for while the coordinator rests: however often it is canceled while its
-- worker runs, and whatever the worker hands back, the coordinator is idle again once the worker ends.
pub finish_operation-steps-run :
    (request : SsaPageRequest) (events : List Event) (outcome : Outcome) (shown_cancels : Bool)
    (listener_cancels : Bool) (s : Coordinator)
    → IsResting s
    → find_page request (invalidate_cache_for_query request s).page_cache ≡ none
    → all is_stop events ≡ true
    → (finish_operation
        ((s.next_operation_id + 1) % 2 ^ 64)
        outcome
        listener_cancels
        (steps events (run request shown_cancels s))).state
      ≡ idle
finish_operation-steps-run request events outcome shown_cancels listener_cancels s h none_kept
      stops_only =
    finish-Awaits (next_id s) outcome listener_cancels (steps events (run request shown_cancels s))
      (stops-Awaits events (next_id s) (run request shown_cancels s) stops_only
        (run-Awaits request shown_cancels s h none_kept))
