-- ===== src/PageQuery/Kept.antt =====
-- The pages that are kept, in every coordinator of src/presentation/PageQueryCoordinator.cpp that can be
-- reached.
use ssa_consulta_rapidacpp.Prelude.{
  arith, ℕ, Bool, true, not, ◌&&◌, ◌||◌, Option, none, some, if_either, ◌==◌,
}
use ssa_consulta_rapidacpp.Sql.Query.{SsaPageRequest}
use ssa_consulta_rapidacpp.PageQuery.{
  idle, Operation, canceled, Coordinator, Outcome, vanished, produced, threw,
}
use ssa_consulta_rapidacpp.PageQuery.Cache.{invalidate_total_rows_all, cache_page}
use ssa_consulta_rapidacpp.PageQuery.Steps.{
  emit, set_state, has_active_operations, find_operation, know_total,
}
use ssa_consulta_rapidacpp.PageQuery.Relation.{
  has_id, set_completed, completed_in, keep_prefetched, learn_total, show_page, publish_outcome,
  publish, publishes, close, finish_main, finish_found, finish_operation,
  prune_completed_operations, shut_down, Event, step, Reachable, runs, stops, invalidates, finishes,
  prunes, shuts_down, created, after,
}
use ssa_consulta_rapidacpp.PageQuery.Pages.{
  CacheHolds, empty-IsCache, invalidate_total_rows_all-IsCache,
}
use ssa_consulta_rapidacpp.PageQuery.Live.{
  live_count, OneLive, replace_first-AreLive, prune_completed-AreLive,
}
use ssa_consulta_rapidacpp.PageQuery.Calls.{
  IsSound, set_state-IsSound, prefetch_unless_canceled-IsSound, completed-IsQuiet, cancel-IsSound,
  listener-IsSound, know_total-IsSound, cache_page-IsSound, run-IsSound,
}

keep_prefetched-IsSound :
    (operation : Operation) (outcome : Outcome) (s : Coordinator)
    → IsSound s
    → IsSound (keep_prefetched operation outcome s)
keep_prefetched-IsSound operation vanished s h = h
keep_prefetched-IsSound operation (threw what) s h = h
keep_prefetched-IsSound operation (produced result) s h =
    if_either IsSound
      (operation.generation == s.cache_generation
        && not result.is_canceled
        && not operation.stopped)
      (cache_page operation.request result s) s
      (λ e. cache_page-IsSound operation.request result s h) (λ e. h)

learn_total-IsSound :
    (operation : Operation) (outcome : Outcome) (s : Coordinator)
    → IsSound s
    → IsSound (learn_total operation outcome s)
learn_total-IsSound operation vanished s h = h
learn_total-IsSound operation (threw what) s h = h
learn_total-IsSound operation (produced result) s h =
    if_either IsSound (not s.shutting_down && operation.generation == s.cache_generation)
      (know_total result s) s (λ e. know_total-IsSound result s h) (λ e. h)

publish_outcome-IsSound :
    (request : SsaPageRequest) (outcome : Outcome) (cancels : Bool) (s : Coordinator)
    → IsSound s
    → IsSound (publish_outcome request outcome cancels s)
unfolding emit
publish_outcome-IsSound request vanished cancels s h = h
publish_outcome-IsSound request (threw none) cancels s h = h
publish_outcome-IsSound request (threw (some what)) cancels s h = h
publish_outcome-IsSound request (produced result) cancels s h =
    if_either IsSound result.is_canceled (emit canceled s) (show_page request result cancels s)
      (λ e. h)
      (λ e.
        prefetch_unless_canceled-IsSound request result.total_rows _
          (listener-IsSound cancels _ (cache_page-IsSound request result s h)))

publish-IsSound :
    (operation : Operation) (outcome : Outcome) (cancels : Bool) (s : Coordinator)
    → IsSound s
    → IsSound (publish operation outcome cancels s)
unfolding publish emit
publish-IsSound operation outcome cancels s h =
    if_either IsSound (operation.explicitly_canceled || operation.stopped) (emit canceled s)
      (publish_outcome operation.request outcome cancels s) (λ e. h)
      (λ e. publish_outcome-IsSound operation.request outcome cancels s h)

finish_main-IsSound :
    (operation : Operation) (outcome : Outcome) (cancels : Bool) (s : Coordinator)
    → IsSound s
    → IsSound (finish_main operation outcome cancels s)
finish_main-IsSound operation outcome cancels s h =
    if_either IsSound (publishes operation s)
      (close (publish operation outcome cancels (record s { finishing = true }))) _
      (λ e.
        set_state-IsSound idle _
          (publish-IsSound operation outcome cancels (record s { finishing = true }) h))
      (λ e.
        if_either IsSound (operation.id == s.latest_operation_id && not (has_active_operations s))
          (set_state idle s) s (λ f. set_state-IsSound idle s h) (λ f. h))

finish_found-IsSound :
    (id : ℕ) (outcome : Outcome) (cancels : Bool) (o : Option Operation) (s : Coordinator)
    → IsSound s
    → IsSound (finish_found id outcome cancels o s)
unfolding emit
finish_found-IsSound id outcome cancels none s h = h
finish_found-IsSound id outcome cancels (some operation) s (c, l) =
    let h : IsSound (completed_in id s) = (
      c,
      replace_first-AreLive s.latest_operation_id (has_id id) set_completed s.operations
          completed-IsQuiet l,
    ) in
    if_either IsSound operation.prefetch (keep_prefetched operation outcome (completed_in id s)) _
      (λ e. keep_prefetched-IsSound operation outcome (completed_in id s) h)
      (λ e.
        finish_main-IsSound operation outcome cancels
          (learn_total operation outcome (completed_in id s))
          (learn_total-IsSound operation outcome (completed_in id s) h))

step-IsSound : (e : Event) (s : Coordinator) → IsSound s → IsSound (step e s)
unfolding live_count step finish_operation prune_completed_operations shut_down
    invalidate_total_rows_all
step-IsSound (runs request listener_cancels) s h = run-IsSound request listener_cancels s h
step-IsSound stops s h = cancel-IsSound s h
step-IsSound invalidates s (c, l) = (invalidate_total_rows_all-IsCache s, l)
step-IsSound (finishes id outcome listener_cancels) s h =
    finish_found-IsSound id outcome listener_cancels (find_operation (has_id id) s.operations) s h
step-IsSound prunes s (c, l) = (c, prune_completed-AreLive s.latest_operation_id s.operations l)
step-IsSound shuts_down s (c, l) = (c, (tt, omega arith))

Reachable-IsSound : {s : Coordinator} → Reachable s → IsSound s
unfolding live_count
Reachable-IsSound created = (empty-IsCache none, (tt, omega arith))
Reachable-IsSound (after e r) = step-IsSound e _ (Reachable-IsSound r)

-- In every coordinator that calls and the ends of workers can lead to, in any order, the pages that are
-- kept are at most three, all of the query that the coordinator names as theirs, all different, and
-- none of them is the result of a canceled query.
pub Reachable-CacheHolds : {s : Coordinator} → Reachable s → CacheHolds s
Reachable-CacheHolds r = (Reachable-IsSound r).0

-- In every coordinator that can be reached, the operations that have not ended, were not stopped and
-- fetch no page ahead are at most one, and each of them has the number of the latest operation.
pub Reachable-OneLive : {s : Coordinator} → Reachable s → OneLive s
Reachable-OneLive r = (Reachable-IsSound r).1
