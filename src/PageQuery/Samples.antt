-- ===== src/PageQuery/Samples.antt =====
-- Runs of the page queries, and the theorems on them at concrete coordinators.
use ssa_consulta_rapidacpp.Prelude.{
  ℕ, ◌≡◌, ◌↔◌, refl, true, false, not, ◌&&◌, List, [], ◌∷◌, ◌++◌, none, some, if◌then◌else◌, all,
}
use ssa_consulta_rapidacpp.Text.{codes, text_eq}
use ssa_consulta_rapidacpp.Sql.Advanced.{AdvancedFilterSpec, all_rows, equals}
use ssa_consulta_rapidacpp.Sql.Query.{SsaPageRequest}
use ssa_consulta_rapidacpp.PageQuery.{
  idle, canceling, PageQueryResult, Operation, Coordinator, vanished, produced, threw,
}
use ssa_consulta_rapidacpp.PageQuery.Request.{
  request_eq, request_eq_iff, advanced_eq, list_eq, option_eq, sort_eq,
}
use ssa_consulta_rapidacpp.PageQuery.Steps.{
  find_operation, cancel, emit, has_active_operations, is_latest, latest_operation, prefetch_page,
  prefetch_pages, replace_first, run, set_state, start, start_prefetch_window, stop_operation,
}
use ssa_consulta_rapidacpp.PageQuery.Relation.{
  has_id, finish_operation, Event, runs, stops, invalidates, finishes, prunes, step,
  new_coordinator, Reachable, created, after, worker, replied, prune_completed,
  prune_completed_operations, publish, shut_down,
}
use ssa_consulta_rapidacpp.PageQuery.Pages.{CacheHolds}
use ssa_consulta_rapidacpp.PageQuery.Live.{OneLive}
use ssa_consulta_rapidacpp.PageQuery.Kept.{Reachable-CacheHolds, Reachable-OneLive}
use ssa_consulta_rapidacpp.PageQuery.Published.{
  shown_by, shown_of, is_wanted, finish_operation-shows,
}
use ssa_consulta_rapidacpp.PageQuery.Idle.{IsResting, finish_operation-steps-run}
use ssa_consulta_rapidacpp.PageQuery.Stuck.{active, is_call, IsStuck, steps, steps-IsStuck}
use ssa_consulta_rapidacpp.PageQuery.Cache.{
  cache_page, erase_first_page, erase_request, find_page, fingerprint, has_cached_page,
  invalidate_cache_for_query, invalidate_total_rows_all, pop_surplus, take_cached_page,
}
use ssa_consulta_rapidacpp.Page.{page_count}

abbrev no_filters : AdvancedFilterSpec
no_filters = record {
  week_column_key = "semana_programada";
  text_filters = [];
  year = none;
  week = none;
  issue_year = none;
  execution_year = none;
  reprogramming_values = [];
  reprogramming_comparison = equals;
  issue_week_start = none;
  issue_week_end = none;
  execution_week_start = none;
  execution_week_end = none;
  derivation_mode = all_rows;
  only_reprogrammed = false;
}

abbrev page_request : ℕ → SsaPageRequest
page_request index = record {
  page_index = index;
  page_size = 10;
  search_text = codes "bomba";
  column_filters = [];
  quick_sector = [];
  exclude_sca_ses_ste = false;
  advanced_filters = no_filters;
  sort = record { column_key = "numero_ssa"; ascending = false; status_last = true };
  visible_columns = [];
}

abbrev page_result : PageQueryResult
page_result = record {
  rows = [];
  total_rows = 100;
  total_rows_all = 500;
  total_rows_all_computed = true;
  display_columns = [];
  display_values = [];
  is_canceled = false;
}

abbrev asked : Coordinator
asked = step (runs (page_request 0) false) new_coordinator

asked-Reachable : Reachable asked
asked-Reachable = after (runs (page_request 0) false) created

abbrev operation : Operation
operation = record {
  id = 1;
  generation = 0;
  request = page_request 0;
  stopped = false;
  explicitly_canceled = false;
  completed = false;
  prefetch = false;
}

found : find_operation (has_id 1) asked.operations ≡ some operation
unfolding find_operation step run latest_operation invalidate_cache_for_query take_cached_page
    find_page start emit set_state
found = refl

Reachable-CacheHolds_example : CacheHolds (step (finishes 1 (produced page_result) false) asked)
Reachable-CacheHolds_example =
    Reachable-CacheHolds (after (finishes 1 (produced page_result) false) asked-Reachable)

Reachable-OneLive_example : OneLive (step (runs (page_request 4) false) asked)
Reachable-OneLive_example = Reachable-OneLive (after (runs (page_request 4) false) asked-Reachable)

finish_operation-shows_example :
    shown_by (finish_operation 1 (produced page_result) true asked)
    ≡ shown_by asked
      ++ (if not operation.prefetch && is_wanted operation asked
          then shown_of (produced page_result) (page_request 0)
          else [])
finish_operation-shows_example =
    finish_operation-shows 1 operation (produced page_result) true asked found

still_idle : (is_wanted operation asked) ≡ true
unfolding step run latest_operation find_operation invalidate_cache_for_query take_cached_page
    find_page start emit set_state
still_idle = refl

new-IsResting : IsResting new_coordinator
new-IsResting = record { nothing_runs = refl; is_open = refl; is_idle = refl; is_free = refl }

nothing_kept :
    find_page
      (page_request 0)
      (invalidate_cache_for_query (page_request 0) new_coordinator).page_cache
    ≡ none
unfolding find_page invalidate_cache_for_query
nothing_kept = refl

finish_operation-steps-run_example :
    (finish_operation 1
      (threw none)
      false
      (steps (stops ∷ stops ∷ []) (run (page_request 0) false new_coordinator))).state
    ≡ idle
finish_operation-steps-run_example =
    finish_operation-steps-run (page_request 0) (stops ∷ stops ∷ []) (threw none) false false
      new_coordinator new-IsResting nothing_kept refl

-- A page is shown and the next two are fetched ahead; another page is asked for and canceled, and new
-- data arrive before the worker of that page ends. The pages ahead end last.
abbrev abandoned : List Event
abandoned =
    runs (page_request 0) false
    ∷ finishes 1 (produced page_result) false
    ∷ runs (page_request 5) false
    ∷ stops
    ∷ invalidates
    ∷ finishes 4 vanished false
    ∷ finishes 2 vanished false
    ∷ finishes 3 vanished false
    ∷ prunes
    ∷ []

abbrev stuck : Coordinator
stuck = steps abandoned new_coordinator

stuck_is_empty : stuck.operations ≡ []
unfolding steps step prune_completed_operations prune_completed finish_operation find_operation
    invalidate_total_rows_all cancel run latest_operation invalidate_cache_for_query
    take_cached_page find_page start emit set_state publish page_count cache_page erase_first_page
    erase_request fingerprint has_cached_page pop_surplus shut_down advanced_eq list_eq option_eq
    request_eq sort_eq has_active_operations is_latest prefetch_page prefetch_pages replace_first
    start_prefetch_window stop_operation text_eq
stuck_is_empty = refl

stuck_state : stuck.state ≡ canceling
unfolding steps step prune_completed_operations finish_operation find_operation
    invalidate_total_rows_all cancel run latest_operation invalidate_cache_for_query
    take_cached_page find_page start emit set_state publish cache_page page_count erase_first_page
    erase_request fingerprint has_cached_page pop_surplus prune_completed shut_down advanced_eq
    list_eq option_eq request_eq sort_eq has_active_operations is_latest prefetch_page
    prefetch_pages replace_first start_prefetch_window stop_operation text_eq
stuck_state = refl

no_operation : active stuck.operations ≡ false
unfolding steps step prune_completed_operations prune_completed finish_operation find_operation
    invalidate_total_rows_all cancel run latest_operation invalidate_cache_for_query
    take_cached_page find_page start emit set_state publish page_count cache_page erase_first_page
    erase_request fingerprint has_cached_page pop_surplus shut_down advanced_eq list_eq option_eq
    request_eq sort_eq has_active_operations is_latest prefetch_page prefetch_pages replace_first
    start_prefetch_window stop_operation text_eq
no_operation = refl

calls_only : all is_call (runs (page_request 0) false ∷ stops ∷ invalidates ∷ []) ≡ true
calls_only = refl

steps-IsStuck_example :
    IsStuck
      (steps (runs (page_request 0) false ∷ stops ∷ invalidates ∷ []) stuck).operations
      (steps (runs (page_request 0) false ∷ stops ∷ invalidates ∷ []) stuck).state
    × ((steps (runs (page_request 0) false ∷ stops ∷ invalidates ∷ []) stuck).emitted
        ≡ stuck.emitted)
steps-IsStuck_example =
    steps-IsStuck (runs (page_request 0) false ∷ stops ∷ invalidates ∷ []) stuck calls_only
      (no_operation, stuck_state)

request_eq_iff_example :
    (request_eq (page_request 0) (page_request 1) ≡ true) ↔ (page_request 0 ≡ page_request 1)
request_eq_iff_example = request_eq_iff (page_request 0) (page_request 1)

worked :
    worker [] true 0
      (replied (record { rows = []; total_rows = 100 }))
      false
      (replied 500)
      false
      (some [])
    ≡ produced page_result
unfolding worker
worked = refl
