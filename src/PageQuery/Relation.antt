-- ===== src/PageQuery/Relation.antt =====
-- The end of an operation of src/presentation/PageQueryCoordinator.cpp (finishOperation,
-- pruneCompletedOperations, the destructor), the body of the worker thread, and the coordinators that
-- can be reached: the calls and the ends of workers come one after the other, in any order.
use ssa_consulta_rapidacpp.Prelude.{
  ℕ, Bool, true, false, not, ◌&&◌, ◌||◌, List, [], ◌∷◌, Option, none, some, if◌then◌else◌, ◌==◌,
}
use ssa_consulta_rapidacpp.Text.{Text, codes}
use ssa_consulta_rapidacpp.Sql.Query.{SsaPageRequest}
use ssa_consulta_rapidacpp.PageQuery.{
  idle, PageQueryResult, Operation, succeeded, canceled, failed, active_operations_changed,
  Coordinator, Outcome, vanished, produced, threw,
}
use ssa_consulta_rapidacpp.PageQuery.Cache.{cache_page, invalidate_total_rows_all}
use ssa_consulta_rapidacpp.PageQuery.Steps.{
  emit, set_state, has_active_operations, find_operation, replace_first, listener, know_total,
  prefetch_unless_canceled, run, cancel,
}

abbrev pub has_id : ℕ → Operation → Bool
has_id id operation = operation.id == id

abbrev pub set_completed : Operation → Operation
set_completed operation = record operation { completed = true }

abbrev pub completed_in : ℕ → Coordinator → Coordinator
completed_in id s =
    emit active_operations_changed
      (record s { operations = replace_first (has_id id) set_completed s.operations })

abbrev pub keep_prefetched : Operation → Outcome → Coordinator → Coordinator
keep_prefetched operation vanished s = s
keep_prefetched operation (threw what) s = s
keep_prefetched operation (produced result) s =
    if operation.generation == s.cache_generation && not result.is_canceled && not operation.stopped
    then cache_page operation.request result s
    else s

abbrev pub learn_total : Operation → Outcome → Coordinator → Coordinator
learn_total operation vanished s = s
learn_total operation (threw what) s = s
learn_total operation (produced result) s =
    if not s.shutting_down && operation.generation == s.cache_generation
    then know_total result s
    else s

abbrev pub failure_text : Text
failure_text = codes "Falha ao consultar dados"

abbrev pub show_page : SsaPageRequest → PageQueryResult → Bool → Coordinator → Coordinator
show_page request result cancels s =
    prefetch_unless_canceled request result.total_rows
      (listener cancels (emit (succeeded result request) (cache_page request result s)))

abbrev pub publish_outcome : SsaPageRequest → Outcome → Bool → Coordinator → Coordinator
publish_outcome request vanished cancels s = emit (failed failure_text) s
publish_outcome request (threw none) cancels s = emit (failed failure_text) s
publish_outcome request (threw (some what)) cancels s = emit (failed what) s
publish_outcome request (produced result) cancels s =
    if result.is_canceled then emit canceled s else show_page request result cancels s

unfoldable pub publish : Operation → Outcome → Bool → Coordinator → Coordinator
publish operation outcome cancels s =
    if operation.explicitly_canceled || operation.stopped
    then emit canceled s
    else publish_outcome operation.request outcome cancels s

abbrev pub publishes : Operation → Coordinator → Bool
publishes operation s =
    not s.shutting_down
    && operation.id == s.latest_operation_id
    && operation.generation == s.cache_generation
    && (operation.explicitly_canceled || not operation.stopped)

abbrev pub close : Coordinator → Coordinator
close s = set_state idle (record s { finishing = false })

abbrev pub finish_main : Operation → Outcome → Bool → Coordinator → Coordinator
finish_main operation outcome cancels s =
    if publishes operation s
    then close (publish operation outcome cancels (record s { finishing = true }))
    else if operation.id == s.latest_operation_id && not (has_active_operations s)
    then set_state idle s
    else s

abbrev pub finish_found : ℕ → Outcome → Bool → Option Operation → Coordinator → Coordinator
finish_found id outcome cancels none s = s
finish_found id outcome cancels (some operation) s =
    if operation.prefetch
    then keep_prefetched operation outcome (completed_in id s)
    else finish_main operation outcome cancels (learn_total operation outcome (completed_in id s))

unfoldable pub finish_operation : ℕ → Outcome → Bool → Coordinator → Coordinator
finish_operation id outcome cancels s =
    finish_found id outcome cancels (find_operation (has_id id) s.operations) s

unfoldable pub prune_completed : List Operation → List Operation
prune_completed [] = []
prune_completed (operation ∷ operations) =
    let rest = prune_completed operations in if operation.completed then rest else operation ∷ rest

unfoldable pub prune_completed_operations : Coordinator → Coordinator
prune_completed_operations s = record s { operations = prune_completed s.operations }

unfoldable pub shut_down : Coordinator → Coordinator
shut_down s = record s { shutting_down = true; operations = [] }

-- The calls that other code makes, and the ends of the workers.
pub data Event : Type 0 where
  runs : SsaPageRequest → Bool → Event
  stops : Event
  invalidates : Event
  finishes : ℕ → Outcome → Bool → Event
  prunes : Event
  shuts_down : Event

unfoldable pub step : Event → Coordinator → Coordinator
step (runs request listener_cancels) s = run request listener_cancels s
step stops s = cancel s
step invalidates s = invalidate_total_rows_all s
step (finishes id outcome listener_cancels) s = finish_operation id outcome listener_cancels s
step prunes s = prune_completed_operations s
step shuts_down s = shut_down s

abbrev pub new_coordinator : Coordinator
new_coordinator = record {
  operations = [];
  latest_operation_id = 0;
  next_operation_id = 0;
  cache_generation = 0;
  shutting_down = false;
  total_rows_all_known = false;
  total_rows_all = 0;
  cache_query = none;
  page_cache = [];
  state = idle;
  finishing = false;
  prefetch_cancellation_requested = false;
  emitted = [];
}

pub data Reachable : Coordinator → Type 0 where
  created : Reachable new_coordinator
  after : {s : Coordinator} (e : Event) → Reachable s → Reachable (step e s)

pub record SsaPageResult : Type 0 where
  pub rows : List (List Text)
  pub total_rows : ℕ

-- What a call of the browse port does: a value, the operation_canceled error, or another error.
pub data PortReply (A : Type 0) : Type 0 where
  replied : A → PortReply A
  was_canceled : PortReply A
  raised : Option Text → PortReply A

abbrev canceled_result : ℕ → Bool → Outcome
canceled_result total computed = produced (record {
  rows = [];
  total_rows = 0;
  total_rows_all = total;
  total_rows_all_computed = computed;
  display_columns = [];
  display_values = [];
  is_canceled = true;
})

-- Behind the second look at the cancel token; the formatter gives none when it sees the token itself.
abbrev formatted_result :
    SsaPageResult → List Text → ℕ → Bool → Bool → Option (List (List Text)) → Outcome
formatted_result page columns total computed true values = canceled_result total computed
formatted_result page columns total computed false none = canceled_result total computed
formatted_result page columns total computed false (some values) = produced (record {
  rows = page.rows;
  total_rows = page.total_rows;
  total_rows_all = total;
  total_rows_all_computed = computed;
  display_columns = columns;
  display_values = values;
  is_canceled = false;
})

abbrev counted :
    SsaPageResult → List Text → PortReply ℕ → Bool → Option (List (List Text)) → Outcome
counted page columns was_canceled token values = canceled_result 0 false
counted page columns (raised what) token values = threw what
counted page columns (replied total) token values =
    formatted_result page columns total true token values

-- The body that runs on the worker thread: `first` and `second` are what it sees of the cancel token.
unfoldable pub worker :
    List Text
    → Bool
    → ℕ
    → PortReply SsaPageResult
    → Bool
    → PortReply ℕ
    → Bool
    → Option (List (List Text))
    → Outcome
worker columns needs_total known_total was_canceled first count second values =
    canceled_result 0 false
worker columns needs_total known_total (raised what) first count second values = threw what
worker columns needs_total known_total (replied page) first count second values =
    if first
    then canceled_result 0 false
    else if needs_total
    then counted page columns count second values
    else formatted_result page columns known_total false second values
