-- ===== src/PageQuery/Published.antt =====
-- Which results src/presentation/PageQueryCoordinator.cpp shows.
use ssa_consulta_rapidacpp.Prelude.{
  ℕ, ◌+◌, ◌-◌, ◌≡◌, refl, sym, ap, ap₂, ◌∙◌, Bool, true, false, not, ◌&&◌, ◌||◌, List, [], ◌∷◌,
  ◌++◌, append-nil, Option, none, some, arith, if◌then◌else◌, if_either, any, ltb, leb, ◌==◌, map,
}
use ssa_consulta_rapidacpp.Page.{page_count}
use ssa_consulta_rapidacpp.Sql.Query.{SsaPageRequest}
use ssa_consulta_rapidacpp.PageQuery.{
  State, idle, running, canceling, PageQueryResult, Operation, Signal, state_changed, started,
  succeeded, canceled, replaced, failed, active_operations_changed, Coordinator, Outcome, vanished,
  produced, threw,
}
use ssa_consulta_rapidacpp.PageQuery.Cache.{cache_page, has_cached_page}
use ssa_consulta_rapidacpp.PageQuery.Steps.{
  emit, state_eq, set_state, has_active_operations, find_operation, latest_operation, stop_prefetch,
  start, is_running_request, prefetch_page, prefetch_pages, prefetch_window, start_prefetch_window,
  cancel_latest, cancel, listener, prefetch_unless_canceled,
}
use ssa_consulta_rapidacpp.PageQuery.Relation.{
  has_id, completed_in, keep_prefetched, learn_total, failure_text, show_page, publish_outcome,
  publish, publishes, close, finish_main, finish_operation,
}
use ssa_consulta_rapidacpp.PageQuery.Stuck.{learn_total-same}

-- The results that the signals show, each with its request.
unfoldable pub pages_shown : List Signal → List (PageQueryResult × SsaPageRequest)
pages_shown [] = []
pages_shown (succeeded result request ∷ signals) = (result, request) ∷ pages_shown signals
pages_shown (state_changed state ∷ signals) = pages_shown signals
pages_shown (started ∷ signals) = pages_shown signals
pages_shown (canceled ∷ signals) = pages_shown signals
pages_shown (replaced ∷ signals) = pages_shown signals
pages_shown (failed message ∷ signals) = pages_shown signals
pages_shown (active_operations_changed ∷ signals) = pages_shown signals

pages_shown-append : (s t : List Signal) → pages_shown (s ++ t) ≡ pages_shown s ++ pages_shown t
unfolding pages_shown
pages_shown-append [] t = refl
pages_shown-append (succeeded result request ∷ s) t =
    ap (λ l. (result, request) ∷ l) (pages_shown-append s t)
pages_shown-append (state_changed state ∷ s) t = pages_shown-append s t
pages_shown-append (started ∷ s) t = pages_shown-append s t
pages_shown-append (canceled ∷ s) t = pages_shown-append s t
pages_shown-append (replaced ∷ s) t = pages_shown-append s t
pages_shown-append (failed message ∷ s) t = pages_shown-append s t
pages_shown-append (active_operations_changed ∷ s) t = pages_shown-append s t

abbrev pub shown_by : Coordinator → List (PageQueryResult × SsaPageRequest)
shown_by s = pages_shown s.emitted

-- A coordinator that shows what the pages so far are.
abbrev Shows : List (PageQueryResult × SsaPageRequest) → Coordinator → Type 0
Shows pages s = shown_by s ≡ pages

emit-silent :
    (signal : Signal) (s : Coordinator) {pages : List (PageQueryResult × SsaPageRequest)}
    → pages_shown (signal ∷ []) ≡ []
    → Shows pages s
    → Shows pages (emit signal s)
unfolding emit
emit-silent signal s h k =
    pages_shown-append s.emitted (signal ∷ [])
    ∙ (ap (λ l. pages_shown s.emitted ++ l) h ∙ (append-nil (pages_shown s.emitted) ∙ k))

module _ (pages : List (PageQueryResult × SsaPageRequest)) where
  set_state-silent :
      (state : State) (s : Coordinator) → Shows pages s → Shows pages (set_state state s)
  unfolding set_state pages_shown
  set_state-silent state s h =
      if_either (Shows pages) (state_eq s.state state) s
        (emit (state_changed state) (record s { state = state })) (λ e. h)
        (λ e. emit-silent (state_changed state) (record s { state = state }) refl h)

  start_prefetch-silent :
      (request : SsaPageRequest) (s : Coordinator)
      → Shows pages s
      → Shows pages (start request true s)
  unfolding start pages_shown
  start_prefetch-silent request s h = emit-silent active_operations_changed _ refl h

  prefetch_page-silent :
      (request : SsaPageRequest) (s : Coordinator)
      → Shows pages s
      → Shows pages (prefetch_page request s)
  unfolding prefetch_page
  prefetch_page-silent request s h =
      if_either (Shows pages) (has_cached_page request s) s _ (λ e. h)
        (λ e.
          if_either (Shows pages) (any (is_running_request request) s.operations) s
            (start request true s) (λ f. h) (λ f. start_prefetch-silent request s h))

  prefetch_pages-silent :
      (request : SsaPageRequest) (count : ℕ) (offsets : List ℕ) (s : Coordinator)
      → Shows pages s
      → Shows pages (prefetch_pages request count offsets s)
  unfolding prefetch_pages
  prefetch_pages-silent request count [] s h = h
  prefetch_pages-silent request count (offset ∷ offsets) s h =
      let next = record request { page_index = request.page_index + offset } in
      if_either (Shows pages)
        (leb count request.page_index || ltb (count - request.page_index - 1) offset) s
        (prefetch_pages request count offsets (prefetch_page next s)) (λ e. h)
        (λ e.
          prefetch_pages-silent request count offsets (prefetch_page next s)
            (prefetch_page-silent next s h))

  prefetch_window-silent :
      (request : SsaPageRequest) (count : Option ℕ) (s : Coordinator)
      → Shows pages s
      → Shows pages (prefetch_window request count s)
  prefetch_window-silent request none s h = h
  prefetch_window-silent request (some count) s h =
      prefetch_pages-silent request count (1 ∷ 2 ∷ []) s h

  prefetch_unless_canceled-silent :
      (request : SsaPageRequest) (total_rows : ℕ) (s : Coordinator)
      → Shows pages s
      → Shows pages (prefetch_unless_canceled request total_rows s)
  unfolding start_prefetch_window
  prefetch_unless_canceled-silent request total_rows s h =
      let s' = record s { prefetch_cancellation_requested = false } in
      if_either (Shows pages) s.prefetch_cancellation_requested s'
        (start_prefetch_window request total_rows s') (λ e. h)
        (λ e. prefetch_window-silent request (page_count total_rows request.page_size) s' h)

  cancel_latest-silent :
      (o : Option Operation) (s : Coordinator) → Shows pages s → Shows pages (cancel_latest o s)
  cancel_latest-silent none s h =
      if_either (Shows pages) s.finishing (record s { prefetch_cancellation_requested = true }) s
        (λ e. h) (λ e. h)
  cancel_latest-silent (some operation) s h = set_state-silent canceling s h

  listener-silent :
      (listener_cancels : Bool) (s : Coordinator)
      → Shows pages s
      → Shows pages (listener listener_cancels s)
  unfolding cancel
  listener-silent listener_cancels s h =
      let stopped = record s { operations = map stop_prefetch s.operations } in
      if_either (Shows pages) listener_cancels (cancel s) s
        (λ e.
          if_either (Shows pages) (state_eq s.state running)
            (cancel_latest (latest_operation stopped) stopped) stopped
            (λ f. cancel_latest-silent (latest_operation stopped) stopped h) (λ f. h))
        (λ e. h)

cache_page-silent :
    (request : SsaPageRequest) (result : PageQueryResult) (s : Coordinator)
    → (cache_page request result s).emitted ≡ s.emitted
unfolding cache_page
cache_page-silent request result s =
    if_either (λ (t : Coordinator). t.emitted ≡ s.emitted) result.is_canceled s _ (λ e. refl)
      (λ e. refl)

-- What a worker's outcome shows when it is published.
abbrev pub shown_of : Outcome → SsaPageRequest → List (PageQueryResult × SsaPageRequest)
shown_of vanished request = []
shown_of (threw what) request = []
shown_of (produced result) request = if result.is_canceled then [] else (result, request) ∷ []

show_page-shows :
    (request : SsaPageRequest) (result : PageQueryResult) (listener_cancels : Bool)
    (s : Coordinator)
    → shown_by (show_page request result listener_cancels s) ≡ shown_by s ++ (result, request) ∷ []
unfolding emit pages_shown
show_page-shows request result listener_cancels s =
    let told = emit (succeeded result request) (cache_page request result s) in
    let pages = shown_by s ++ (result, request) ∷ [] in
    prefetch_unless_canceled-silent pages request result.total_rows (listener listener_cancels told)
      (listener-silent pages listener_cancels told (
        pages_shown-append (cache_page request result s).emitted (succeeded result request ∷ [])
        ∙ ap (λ (l : List Signal). pages_shown l ++ (result, request) ∷ [])
            (cache_page-silent request result s)))

shows_either :
    (b : Bool) (s t : Coordinator) (pages x y : List (PageQueryResult × SsaPageRequest))
    → shown_by s ≡ pages ++ x
    → shown_by t ≡ pages ++ y
    → shown_by (if b then s else t) ≡ pages ++ (if b then x else y)
shows_either true s t pages x y h k = h
shows_either false s t pages x y h k = k

prefetch_shows :
    (b wanted : Bool) (s t : Coordinator) (pages x : List (PageQueryResult × SsaPageRequest))
    → shown_by s ≡ pages
    → shown_by t ≡ pages ++ (if wanted then x else [])
    → shown_by (if b then s else t) ≡ pages ++ (if not b && wanted then x else [])
prefetch_shows true wanted s t pages x h k = h ∙ sym (append-nil pages)
prefetch_shows false wanted s t pages x h k = k

publish_outcome-shows :
    (request : SsaPageRequest) (outcome : Outcome) (listener_cancels : Bool) (s : Coordinator)
    → shown_by (publish_outcome request outcome listener_cancels s)
      ≡ shown_by s ++ shown_of outcome request
unfolding pages_shown
publish_outcome-shows request vanished listener_cancels s =
    emit-silent (failed failure_text) s refl (sym (append-nil (shown_by s)))
publish_outcome-shows request (threw none) listener_cancels s =
    emit-silent (failed failure_text) s refl (sym (append-nil (shown_by s)))
publish_outcome-shows request (threw (some what)) listener_cancels s =
    emit-silent (failed what) s refl (sym (append-nil (shown_by s)))
publish_outcome-shows request (produced result) listener_cancels s =
    shows_either result.is_canceled (emit canceled s) (show_page request result listener_cancels s)
      (shown_by s) [] ((result, request) ∷ [])
      (emit-silent canceled s refl (sym (append-nil (shown_by s))))
      (show_page-shows request result listener_cancels s)

publish-shows :
    (operation : Operation) (outcome : Outcome) (listener_cancels : Bool) (s : Coordinator)
    → shown_by (publish operation outcome listener_cancels s)
      ≡ shown_by s
        ++ (if operation.explicitly_canceled || operation.stopped
            then []
            else shown_of outcome operation.request)
unfolding publish pages_shown
publish-shows operation outcome listener_cancels s =
    shows_either (operation.explicitly_canceled || operation.stopped) (emit canceled s)
      (publish_outcome operation.request outcome listener_cancels s) (shown_by s) []
      (shown_of outcome operation.request)
      (emit-silent canceled s refl (sym (append-nil (shown_by s))))
      (publish_outcome-shows operation.request outcome listener_cancels s)

finish_main-shows :
    (operation : Operation) (outcome : Outcome) (listener_cancels : Bool) (s : Coordinator)
    → shown_by (finish_main operation outcome listener_cancels s)
      ≡ shown_by s
        ++ (if publishes operation s
            then if operation.explicitly_canceled || operation.stopped
              then []
              else shown_of outcome operation.request
            else [])
finish_main-shows operation outcome listener_cancels s =
    let told = publish operation outcome listener_cancels (record s { finishing = true }) in
    let rest = operation.id == s.latest_operation_id && not (has_active_operations s) in
    let same : shown_by s ≡ shown_by s ++ [] = sym (append-nil (shown_by s)) in
    shows_either (publishes operation s) (close told) (if rest then set_state idle s else s)
      (shown_by s) _ []
      (set_state-silent _ idle (record told { finishing = false })
        (publish-shows operation outcome listener_cancels (record s { finishing = true })))
      (if_either (Shows (shown_by s ++ [])) rest (set_state idle s) s
        (λ e. set_state-silent (shown_by s ++ []) idle s same) (λ e. same))

-- A query that nobody has given up: the latest, of the present generation of the pages.
abbrev pub is_wanted : Operation → Coordinator → Bool
is_wanted operation s =
    not operation.stopped
    && not operation.explicitly_canceled
    && operation.generation == s.cache_generation
    && operation.id == s.latest_operation_id
    && not s.shutting_down

wanted_lem {ℓ} :
    {A : Type ℓ} (stopped explicit generation latest shut : Bool) (pages : List A)
    → (if not shut && latest && generation && (explicit || not stopped)
        then if explicit || stopped then [] else pages
        else [])
      ≡ (if not stopped && not explicit && generation && latest && not shut then pages else [])
wanted_lem true true generation latest shut pages = ground arith
wanted_lem true false generation latest shut pages = ground arith
wanted_lem false true generation latest shut pages = ground arith
wanted_lem false false generation latest shut pages = ground arith

keep_prefetched-silent :
    (operation : Operation) (outcome : Outcome) (s : Coordinator)
    → (keep_prefetched operation outcome s).emitted ≡ s.emitted
keep_prefetched-silent operation vanished s = refl
keep_prefetched-silent operation (threw what) s = refl
keep_prefetched-silent operation (produced result) s =
    if_either (λ (t : Coordinator). t.emitted ≡ s.emitted)
      (operation.generation == s.cache_generation
        && not result.is_canceled
        && not operation.stopped)
      (cache_page operation.request result s) s (λ e. cache_page-silent operation.request result s)
      (λ e. refl)

completed_in-silent : (id : ℕ) (s : Coordinator) → shown_by (completed_in id s) ≡ shown_by s
unfolding pages_shown
completed_in-silent id s = emit-silent active_operations_changed _ refl refl

main-shows :
    (id : ℕ) (operation : Operation) (outcome : Outcome) (listener_cancels : Bool) (s : Coordinator)
    → shown_by (
        finish_main operation outcome listener_cancels
          (learn_total operation outcome (completed_in id s)))
      ≡ shown_by s ++ (if is_wanted operation s then shown_of outcome operation.request else [])
unfolding emit
main-shows id operation outcome listener_cancels s =
    let learned = learn_total operation outcome (completed_in id s) in
    let (a, b, c, d, e) = learn_total-same operation outcome (completed_in id s) in
    finish_main-shows operation outcome listener_cancels learned
    ∙ (simp (a, b, c, e)
        (ap₂ (λ (x y : List (PageQueryResult × SsaPageRequest)). x ++ y) (completed_in-silent id s)
          (wanted_lem operation.stopped operation.explicitly_canceled
            (operation.generation == s.cache_generation) (operation.id == s.latest_operation_id)
            s.shutting_down (shown_of outcome operation.request))))

-- The end of a worker shows a page exactly when its operation fetches no page ahead, was neither stopped
-- nor canceled, is the latest and belongs to the present generation: then it shows the result that the
-- worker produced, if that is not a canceled one, with the operation's own request. In every other case,
-- errors included, no page is shown.
pub finish_operation-shows :
    (id : ℕ) (operation : Operation) (outcome : Outcome) (listener_cancels : Bool) (s : Coordinator)
    → find_operation (has_id id) s.operations ≡ some operation
    → shown_by (finish_operation id outcome listener_cancels s)
      ≡ shown_by s
        ++ (if not operation.prefetch && is_wanted operation s
            then shown_of outcome operation.request
            else [])
unfolding finish_operation
finish_operation-shows id operation outcome listener_cancels s f = rw f (
    prefetch_shows operation.prefetch (is_wanted operation s) _ _ (shown_by s)
      (shown_of outcome operation.request)
      (ap pages_shown (keep_prefetched-silent operation outcome (completed_in id s))
        ∙ completed_in-silent id s)
      (main-shows id operation outcome listener_cancels s))
