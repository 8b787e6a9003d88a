-- ===== src/PageQuery.antt =====
-- The state of the page queries: src/presentation/PageQueryCoordinator.h and .cpp, with the equality of
-- requests of src/domain/SsaTypes.h. Signals are kept in the order in which they are emitted; a worker
-- thread shows in what it hands back. What stands for a stopped operation is one flag: the code always
-- sets the cancel token, the stop source and the watcher together.
pub mod Request
pub mod Cache
pub mod Steps
pub mod Relation
pub mod Pages
pub mod Calls
pub mod Kept
pub mod Live
pub mod Published
pub mod Stuck
pub mod Idle
mod Samples
use ssa_consulta_rapidacpp.Prelude.{ℕ, Bool, List, Option}
use ssa_consulta_rapidacpp.Text.{Text}
use ssa_consulta_rapidacpp.Sql.Query.{SsaPageRequest}

pub data State : Type 0 where
  idle : State
  running : State
  canceling : State

pub record PageQueryResult : Type 0 where
  pub rows : List (List Text)
  pub total_rows : ℕ
  pub total_rows_all : ℕ
  pub total_rows_all_computed : Bool
  pub display_columns : List Text
  pub display_values : List (List Text)
  pub is_canceled : Bool

pub record Operation : Type 0 where
  pub id : ℕ
  pub generation : ℕ
  pub request : SsaPageRequest
  pub stopped : Bool
  pub explicitly_canceled : Bool
  pub completed : Bool
  pub prefetch : Bool

pub record CachedPage : Type 0 where
  pub request : SsaPageRequest
  pub result : PageQueryResult

pub data Signal : Type 0 where
  state_changed : State → Signal
  started : Signal
  succeeded : PageQueryResult → SsaPageRequest → Signal
  canceled : Signal
  replaced : Signal
  failed : Text → Signal
  active_operations_changed : Signal

pub record Coordinator : Type 0 where
  pub operations : List Operation
  pub latest_operation_id : ℕ
  pub next_operation_id : ℕ
  pub cache_generation : ℕ
  pub shutting_down : Bool
  pub total_rows_all_known : Bool
  pub total_rows_all : ℕ
  pub cache_query : Option SsaPageRequest
  pub page_cache : List CachedPage
  pub state : State
  pub finishing : Bool
  pub prefetch_cancellation_requested : Bool
  pub emitted : List Signal

-- What a worker leaves in the operation's result state. An error has a text of its own when it is an
-- OperationError.
pub data Outcome : Type 0 where
  vanished : Outcome
  produced : PageQueryResult → Outcome
  threw : Option Text → Outcome
