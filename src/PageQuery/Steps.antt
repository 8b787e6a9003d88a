-- ===== src/PageQuery/Steps.antt =====
-- The operations of src/presentation/PageQueryCoordinator.cpp: run, cancel, start, startPrefetchWindow,
-- finishOperation, pruneCompletedOperations and the destructor, and the body of the worker. The only
-- call that a listener of the signals makes back into the coordinator is cancel while `succeeded` is
-- emitted: where that can happen the operation takes a flag. The traces of the startup are left out.
use ssa_consulta_rapidacpp.Prelude.{
  ℕ, ◌+◌, ◌-◌, ◌%◌, ◌^◌, Bool, true, false, not, ◌&&◌, ◌||◌, List, [], ◌∷◌, ◌++◌, Option, none,
  some, if◌then◌else◌, any, ltb, leb, ◌==◌, map,
}
use ssa_consulta_rapidacpp.Page.{page_count}
use ssa_consulta_rapidacpp.Sql.Query.{SsaPageRequest}
use ssa_consulta_rapidacpp.PageQuery.{
  State, idle, running, canceling, PageQueryResult, Operation, Signal, state_changed, started,
  succeeded, replaced, active_operations_changed, Coordinator,
}
use ssa_consulta_rapidacpp.PageQuery.Request.{request_eq}
use ssa_consulta_rapidacpp.PageQuery.Cache.{
  cache_page, take_cached_page, has_cached_page, invalidate_cache_for_query,
}

unfoldable pub emit : Signal → Coordinator → Coordinator
emit signal s = record s { emitted = s.emitted ++ signal ∷ [] }

abbrev pub state_eq : State → State → Bool
state_eq idle idle = true
state_eq running running = true
state_eq canceling canceling = true
state_eq _ _ = false

unfoldable pub set_state : State → Coordinator → Coordinator
set_state state s =
    if state_eq s.state state then s else emit (state_changed state) (record s { state = state })

unfoldable pub has_active_operations : Coordinator → Bool
has_active_operations s = any (λ operation. not operation.completed) s.operations

unfoldable pub is_latest : ℕ → Operation → Bool
is_latest latest operation =
    operation.id == latest && not operation.completed && not operation.explicitly_canceled

unfoldable pub find_operation : (Operation → Bool) → List Operation → Option Operation
find_operation test [] = none
find_operation test (operation ∷ operations) =
    let rest = find_operation test operations in if test operation then some operation else rest

unfoldable pub latest_operation : Coordinator → Option Operation
latest_operation s = find_operation (is_latest s.latest_operation_id) s.operations

unfoldable pub stop_operation : Operation → Operation
stop_operation operation = record operation { stopped = true }

abbrev pub stop_active : Operation → Operation
stop_active operation = if operation.completed then operation else stop_operation operation

abbrev pub stop_prefetch : Operation → Operation
stop_prefetch operation =
    if not operation.completed && operation.prefetch then stop_operation operation else operation

unfoldable pub replace_first :
    (Operation → Bool) → (Operation → Operation) → List Operation → List Operation
replace_first test change [] = []
replace_first test change (operation ∷ operations) =
    let rest = operation ∷ replace_first test change operations in
    if test operation then change operation ∷ operations else rest

-- start, up to handing the request to a worker thread, and the signal after that.
abbrev pub new_operation : SsaPageRequest → Bool → Coordinator → Operation
new_operation request prefetch s = record {
  id = (s.next_operation_id + 1) % 2 ^ 64;
  generation = s.cache_generation;
  request = request;
  stopped = false;
  explicitly_canceled = false;
  completed = false;
  prefetch = prefetch;
}

abbrev pub register : Operation → Coordinator → Coordinator
register operation s = emit active_operations_changed (record s {
  operations = s.operations ++ operation ∷ [];
  next_operation_id = operation.id;
  latest_operation_id = if operation.prefetch then s.latest_operation_id else operation.id;
})

unfoldable pub start : SsaPageRequest → Bool → Coordinator → Coordinator
start request prefetch s =
    let registered = register (new_operation request prefetch s) s in
    if prefetch then registered else emit started (set_state running registered)

abbrev pub is_running_request : SsaPageRequest → Operation → Bool
is_running_request request operation =
    not operation.completed && request_eq operation.request request

unfoldable pub prefetch_page : SsaPageRequest → Coordinator → Coordinator
prefetch_page request s =
    if has_cached_page request s
    then s
    else if any (is_running_request request) s.operations
    then s
    else start request true s

unfoldable pub prefetch_pages : SsaPageRequest → ℕ → List ℕ → Coordinator → Coordinator
prefetch_pages request pages [] s = s
prefetch_pages request pages (offset ∷ offsets) s =
    let next =
      prefetch_pages request pages offsets
        (prefetch_page (record request { page_index = request.page_index + offset }) s) in
    if leb pages request.page_index || ltb (pages - request.page_index - 1) offset then s else next

abbrev pub prefetch_window : SsaPageRequest → Option ℕ → Coordinator → Coordinator
prefetch_window request none s = s
prefetch_window request (some pages) s = prefetch_pages request pages (1 ∷ 2 ∷ []) s

-- No page count is asked for when the page size is 0.
unfoldable pub start_prefetch_window : SsaPageRequest → ℕ → Coordinator → Coordinator
start_prefetch_window request total_rows s =
    prefetch_window request (page_count total_rows request.page_size) s

abbrev pub cancel_latest : Option Operation → Coordinator → Coordinator
cancel_latest none s =
    if s.finishing then record s { prefetch_cancellation_requested = true } else s
cancel_latest (some operation) s =
    let marked = set_state canceling s in
    record marked {
      operations =
          replace_first (is_latest s.latest_operation_id)
            (λ o. stop_operation (record o { explicitly_canceled = true })) marked.operations;
    }

unfoldable pub cancel : Coordinator → Coordinator
cancel s =
    let stopped = record s { operations = map stop_prefetch s.operations } in
    if state_eq s.state running then cancel_latest (latest_operation stopped) stopped else stopped

abbrev pub listener : Bool → Coordinator → Coordinator
listener cancels s = if cancels then cancel s else s

abbrev pub know_total : PageQueryResult → Coordinator → Coordinator
know_total result s =
    if result.total_rows_all_computed
    then record s { total_rows_all = result.total_rows_all; total_rows_all_known = true }
    else s

-- The prefetch after a page is shown, unless a listener has canceled.
abbrev pub prefetch_unless_canceled : SsaPageRequest → ℕ → Coordinator → Coordinator
prefetch_unless_canceled request total_rows s =
    let s' = record s { prefetch_cancellation_requested = false } in
    if s.prefetch_cancellation_requested then s' else start_prefetch_window request total_rows s'

abbrev pub show_cached : SsaPageRequest → PageQueryResult → Bool → Coordinator → Coordinator
show_cached request result cancels s =
    let cached = cache_page request result s in
    let id = (cached.next_operation_id + 1) % 2 ^ 64 in
    let numbered = record cached { next_operation_id = id; latest_operation_id = id } in
    let announced = emit started (record (set_state running numbered) { finishing = true }) in
    let shown = listener cancels (emit (succeeded result request) (know_total result announced)) in
    prefetch_unless_canceled request result.total_rows
      (set_state idle (record shown { finishing = false }))

abbrev pub run_taken : SsaPageRequest → Bool → Option PageQueryResult × Coordinator → Coordinator
run_taken request cancels (none, s) = start request false s
run_taken request cancels (some result, s) = show_cached request result cancels s

abbrev pub is_same_query : SsaPageRequest → ℕ → Option Operation → Bool
is_same_query request generation none = false
is_same_query request generation (some current) =
    request_eq current.request request && current.generation == generation && not current.stopped

abbrev pub emit_replaced : Option Operation → Coordinator → Coordinator
emit_replaced none s = s
emit_replaced (some current) s = emit replaced s

abbrev pub run_on : SsaPageRequest → Bool → Coordinator → Coordinator
run_on request cancels s =
    let current = latest_operation s in
    if is_same_query request s.cache_generation current
    then s
    else run_taken request cancels (
        take_cached_page request
          (emit_replaced current (record s { operations = map stop_active s.operations })))

unfoldable pub run : SsaPageRequest → Bool → Coordinator → Coordinator
run request cancels s =
    if s.shutting_down || state_eq s.state canceling || s.finishing
    then s
    else run_on request cancels (invalidate_cache_for_query request s)
