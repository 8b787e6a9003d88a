-- ===== src/PageQuery/Calls.antt =====
-- What the calls of src/presentation/PageQueryCoordinator.cpp keep: run, cancel and the prefetching.
use ssa_consulta_rapidacpp.Prelude.{
  arith, ℕ, ◌+◌, ◌-◌, ◌%◌, ◌^◌, refl, Bool, true, false, ◌||◌, List, [], ◌∷◌, Option, none, some,
  if_either, ==_refl, any, ltb, leb, map,
}
use ssa_consulta_rapidacpp.Page.{page_count}
use ssa_consulta_rapidacpp.Sql.Query.{SsaPageRequest}
use ssa_consulta_rapidacpp.PageQuery.{
  State, state_changed, idle, running, canceling, PageQueryResult, Operation, succeeded, started,
  Coordinator,
}
use ssa_consulta_rapidacpp.PageQuery.Cache.{
  fingerprint, invalidate_for, cache_page, take_cached_page, has_cached_page,
  invalidate_cache_for_query,
}
use ssa_consulta_rapidacpp.PageQuery.Steps.{
  emit, state_eq, set_state, is_latest, latest_operation, stop_operation, stop_active,
  stop_prefetch, new_operation, register, start, is_running_request, prefetch_page, prefetch_pages,
  prefetch_window, start_prefetch_window, cancel_latest, cancel, listener, know_total,
  prefetch_unless_canceled, show_cached, run_taken, is_same_query, emit_replaced, run_on, run,
}
use ssa_consulta_rapidacpp.PageQuery.Relation.{set_completed}
use ssa_consulta_rapidacpp.PageQuery.Pages.{
  CacheHolds, cache_page-IsCache, take_cached_page-IsCache, invalidate_cache_for_query-IsCache,
}
use ssa_consulta_rapidacpp.PageQuery.Request.{request_eq}
use ssa_consulta_rapidacpp.PageQuery.Live.{
  IsQuiet, OneLive, AllQuiet, live_count, append-AreLive, quiet-live_count, quiet-AreLive,
  stop_active-IsQuiet, stop_prefetch-AreLive, replace_first-AreLive,
}

-- What every step keeps.
abbrev pub IsSound : Coordinator → Type 0
IsSound s = CacheHolds s × OneLive s

pub set_state-IsSound : (state : State) (s : Coordinator) → IsSound s → IsSound (set_state state s)
unfolding set_state emit
set_state-IsSound state s h =
    if_either IsSound (state_eq s.state state) s
      (emit (state_changed state) (record s { state = state })) (λ e. h) (λ e. h)

start_prefetch-IsSound :
    (request : SsaPageRequest) (s : Coordinator) → IsSound s → IsSound (start request true s)
unfolding start emit live_count
start_prefetch-IsSound request s (c, l) = (
  c,
  append-AreLive s.latest_operation_id s.operations (new_operation request true s) l.0 refl
      (omega (arith, l.1)),
)

start_main-IsSound :
    (request : SsaPageRequest) (s : Coordinator)
    → CacheHolds s
    → AllQuiet s
    → IsSound (start request false s)
unfolding start emit live_count
start_main-IsSound request s c q =
    let operation = new_operation request false s in
    set_state-IsSound running (register operation s) (
      c,
      append-AreLive operation.id s.operations operation
          (quiet-AreLive operation.id s.operations q).0 (==_refl operation.id)
          (omega (arith, quiet-live_count s.operations q)),
    )

prefetch_page-IsSound :
    (request : SsaPageRequest) (s : Coordinator) → IsSound s → IsSound (prefetch_page request s)
unfolding prefetch_page
prefetch_page-IsSound request s h =
    if_either IsSound (has_cached_page request s) s _ (λ e. h)
      (λ e.
        if_either IsSound (any (is_running_request request) s.operations) s (start request true s)
          (λ f. h) (λ f. start_prefetch-IsSound request s h))

prefetch_pages-IsSound :
    (request : SsaPageRequest) (pages : ℕ) (offsets : List ℕ) (s : Coordinator)
    → IsSound s
    → IsSound (prefetch_pages request pages offsets s)
unfolding prefetch_pages
prefetch_pages-IsSound request pages [] s h = h
prefetch_pages-IsSound request pages (offset ∷ offsets) s h =
    let next = record request { page_index = request.page_index + offset } in
    if_either IsSound (leb pages request.page_index || ltb (pages - request.page_index - 1) offset)
      s (prefetch_pages request pages offsets (prefetch_page next s)) (λ e. h)
      (λ e.
        prefetch_pages-IsSound request pages offsets (prefetch_page next s)
          (prefetch_page-IsSound next s h))

prefetch_window-IsSound :
    (request : SsaPageRequest) (pages : Option ℕ) (s : Coordinator)
    → IsSound s
    → IsSound (prefetch_window request pages s)
prefetch_window-IsSound request none s h = h
prefetch_window-IsSound request (some pages) s h =
    prefetch_pages-IsSound request pages (1 ∷ 2 ∷ []) s h

pub prefetch_unless_canceled-IsSound :
    (request : SsaPageRequest) (total_rows : ℕ) (s : Coordinator)
    → IsSound s
    → IsSound (prefetch_unless_canceled request total_rows s)
unfolding start_prefetch_window
prefetch_unless_canceled-IsSound request total_rows s h =
    let s' = record s { prefetch_cancellation_requested = false } in
    if_either IsSound s.prefetch_cancellation_requested s'
      (start_prefetch_window request total_rows s') (λ e. h)
      (λ e. prefetch_window-IsSound request (page_count total_rows request.page_size) s' h)

stopped-IsQuiet :
    (o : Operation) → IsQuiet (stop_operation (record o { explicitly_canceled = true }))
unfolding stop_operation
stopped-IsQuiet o = ground arith

pub completed-IsQuiet : (o : Operation) → IsQuiet (set_completed o)
completed-IsQuiet o = refl

cancel_latest-IsSound :
    (o : Option Operation) (s : Coordinator) → IsSound s → IsSound (cancel_latest o s)
cancel_latest-IsSound none s h =
    if_either IsSound s.finishing (record s { prefetch_cancellation_requested = true }) s (λ e. h)
      (λ e. h)
cancel_latest-IsSound (some operation) s h =
    let (c, l) = set_state-IsSound canceling s h in
    (
      c,
      replace_first-AreLive (set_state canceling s).latest_operation_id
          (is_latest s.latest_operation_id)
          (λ o. stop_operation (record o { explicitly_canceled = true }))
          (set_state canceling s).operations stopped-IsQuiet l,
    )

pub cancel-IsSound : (s : Coordinator) → IsSound s → IsSound (cancel s)
unfolding cancel
cancel-IsSound s (c, l) =
    let stopped = record s { operations = map stop_prefetch s.operations } in
    let h : IsSound stopped = (c, stop_prefetch-AreLive s.latest_operation_id s.operations l) in
    if_either IsSound (state_eq s.state running) (cancel_latest (latest_operation stopped) stopped)
      stopped (λ e. cancel_latest-IsSound (latest_operation stopped) stopped h) (λ e. h)

pub listener-IsSound : (cancels : Bool) (s : Coordinator) → IsSound s → IsSound (listener cancels s)
listener-IsSound cancels s h =
    if_either IsSound cancels (cancel s) s (λ e. cancel-IsSound s h) (λ e. h)

pub know_total-IsSound :
    (result : PageQueryResult) (s : Coordinator) → IsSound s → IsSound (know_total result s)
know_total-IsSound result s h =
    if_either IsSound result.total_rows_all_computed _ s (λ e. h) (λ e. h)

cache_page-quiet :
    (request : SsaPageRequest) (result : PageQueryResult) (s : Coordinator)
    → AllQuiet s
    → AllQuiet (cache_page request result s)
unfolding cache_page
cache_page-quiet request result s h = if_either AllQuiet result.is_canceled s _ (λ e. h) (λ e. h)

cache_page-live :
    (request : SsaPageRequest) (result : PageQueryResult) (s : Coordinator)
    → OneLive s
    → OneLive (cache_page request result s)
unfolding cache_page
cache_page-live request result s h = if_either OneLive result.is_canceled s _ (λ e. h) (λ e. h)

pub cache_page-IsSound :
    (request : SsaPageRequest) (result : PageQueryResult) (s : Coordinator)
    → IsSound s
    → IsSound (cache_page request result s)
cache_page-IsSound request result s (c, l) =
    (cache_page-IsCache request result s c, cache_page-live request result s l)

show_cached-IsSound :
    (request : SsaPageRequest) (result : PageQueryResult) (cancels : Bool) (s : Coordinator)
    → CacheHolds s
    → AllQuiet s
    → IsSound (show_cached request result cancels s)
unfolding emit
show_cached-IsSound request result cancels s c q =
    let cached = cache_page request result s in
    let id = (cached.next_operation_id + 1) % 2 ^ 64 in
    let numbered = record cached { next_operation_id = id; latest_operation_id = id } in
    let sound : IsSound numbered = (
      cache_page-IsCache request result s c,
      quiet-AreLive id cached.operations (cache_page-quiet request result s q),
    ) in
    let announced = emit started (record (set_state running numbered) { finishing = true }) in
    let told = emit (succeeded result request) (know_total result announced) in
    let shown = listener cancels told in
    prefetch_unless_canceled-IsSound request result.total_rows
      (set_state idle (record shown { finishing = false }))
      (set_state-IsSound idle (record shown { finishing = false })
        (listener-IsSound cancels told
          (know_total-IsSound result announced (set_state-IsSound running numbered sound))))

run_taken-IsSound :
    (request : SsaPageRequest) (cancels : Bool) (taken : Option PageQueryResult × Coordinator)
    → CacheHolds taken.1
    → AllQuiet taken.1
    → IsSound (run_taken request cancels taken)
run_taken-IsSound request cancels (none, s) c q = start_main-IsSound request s c q
run_taken-IsSound request cancels (some result, s) c q =
    show_cached-IsSound request result cancels s c q

emit_replaced-IsCache :
    (o : Option Operation) (s : Coordinator) → CacheHolds s → CacheHolds (emit_replaced o s)
unfolding emit
emit_replaced-IsCache none s h = h
emit_replaced-IsCache (some operation) s h = h

emit_replaced-quiet :
    (o : Option Operation) (s : Coordinator) → AllQuiet s → AllQuiet (emit_replaced o s)
unfolding emit
emit_replaced-quiet none s h = h
emit_replaced-quiet (some operation) s h = h

take_cached_page-quiet :
    (request : SsaPageRequest) (s : Coordinator)
    → AllQuiet s
    → AllQuiet (take_cached_page request s).1
unfolding take_cached_page
take_cached_page-quiet request s h = h

run_on-IsSound :
    (request : SsaPageRequest) (cancels : Bool) (s : Coordinator)
    → IsSound s
    → IsSound (run_on request cancels s)
run_on-IsSound request cancels s (c, l) =
    let stopped = record s { operations = map stop_active s.operations } in
    let told = emit_replaced (latest_operation s) stopped in
    if_either IsSound (is_same_query request s.cache_generation (latest_operation s)) s
      (run_taken request cancels (take_cached_page request told)) (λ e. (c, l))
      (λ e.
        run_taken-IsSound request cancels (take_cached_page request told)
          (take_cached_page-IsCache request told
            (emit_replaced-IsCache (latest_operation s) stopped c))
          (take_cached_page-quiet request told
            (emit_replaced-quiet (latest_operation s) stopped (stop_active-IsQuiet s.operations))))

invalidate_for-live :
    (query : SsaPageRequest) (o : Option SsaPageRequest) (s : Coordinator)
    → OneLive s
    → OneLive (invalidate_for query o s)
invalidate_for-live query none s h = h
invalidate_for-live query (some cached) s h =
    if_either OneLive (request_eq cached query) s _ (λ e. h) (λ e. h)

invalidate_cache_for_query-IsSound :
    (request : SsaPageRequest) (s : Coordinator)
    → IsSound s
    → IsSound (invalidate_cache_for_query request s)
unfolding invalidate_cache_for_query
invalidate_cache_for_query-IsSound request s (c, l) = (
  invalidate_cache_for_query-IsCache request s c,
  invalidate_for-live (fingerprint request) s.cache_query s l,
)

pub run-IsSound :
    (request : SsaPageRequest) (cancels : Bool) (s : Coordinator)
    → IsSound s
    → IsSound (run request cancels s)
unfolding run
run-IsSound request cancels s h =
    if_either IsSound (s.shutting_down || state_eq s.state canceling || s.finishing) s
      (run_on request cancels (invalidate_cache_for_query request s)) (λ e. h)
      (λ e.
        run_on-IsSound request cancels (invalidate_cache_for_query request s)
          (invalidate_cache_for_query-IsSound request s h))
