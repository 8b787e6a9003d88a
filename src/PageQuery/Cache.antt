-- ===== src/PageQuery/Cache.antt =====
-- The pages that are kept: fingerprint, cachePage, takeCachedPage, hasCachedPage,
-- invalidateCacheForQuery and invalidateTotalRowsAll of src/presentation/PageQueryCoordinator.cpp.
use ssa_consulta_rapidacpp.Prelude.{
  ℕ, ◌+◌, ◌%◌, ◌^◌, Bool, false, List, [], ◌∷◌, ◌++◌, Option, none, some, if◌then◌else◌, length,
  drop, any, ◌-◌,
}
use ssa_consulta_rapidacpp.Sql.Query.{SsaPageRequest}
use ssa_consulta_rapidacpp.PageQuery.{PageQueryResult, CachedPage, Coordinator}
use ssa_consulta_rapidacpp.PageQuery.Request.{request_eq, option_eq}

unfoldable pub fingerprint : SsaPageRequest → SsaPageRequest
fingerprint request = record request { page_index = 0 }

abbrev pub max_cached_pages : ℕ
max_cached_pages = 3

unfoldable pub erase_request : SsaPageRequest → List CachedPage → List CachedPage
erase_request request [] = []
erase_request request (page ∷ pages) =
    let rest = erase_request request pages in
    if request_eq page.request request then rest else page ∷ rest

-- The loop that pops the front while there are too many.
unfoldable pub pop_surplus : List CachedPage → List CachedPage
pop_surplus pages = drop (length pages - max_cached_pages) pages

unfoldable pub cache_page : SsaPageRequest → PageQueryResult → Coordinator → Coordinator
cache_page request result s =
    if result.is_canceled
    then s
    else let query = some (fingerprint request) in
      let kept = if option_eq request_eq s.cache_query query then s.page_cache else [] in
      record s {
        cache_query = query;
        page_cache =
            pop_surplus
              (erase_request request kept ++ record { request = request; result = result } ∷ []);
      }

unfoldable pub find_page : SsaPageRequest → List CachedPage → Option PageQueryResult
find_page request [] = none
find_page request (page ∷ pages) =
    let rest = find_page request pages in
    if request_eq page.request request then some page.result else rest

unfoldable pub erase_first_page : SsaPageRequest → List CachedPage → List CachedPage
erase_first_page request [] = []
erase_first_page request (page ∷ pages) =
    let rest = page ∷ erase_first_page request pages in
    if request_eq page.request request then pages else rest

-- takeCachedPage: the result, and the coordinator without the page.
unfoldable pub take_cached_page :
    SsaPageRequest → Coordinator → Option PageQueryResult × Coordinator
take_cached_page request s = (
  find_page request s.page_cache,
  record s { page_cache = erase_first_page request s.page_cache },
)

unfoldable pub has_cached_page : SsaPageRequest → Coordinator → Bool
has_cached_page request s = any (λ page. request_eq page.request request) s.page_cache

-- The generation is a std::uint64_t.
abbrev pub next_generation : Coordinator → ℕ
next_generation s = (s.cache_generation + 1) % 2 ^ 64

abbrev pub invalidate_for : SsaPageRequest → Option SsaPageRequest → Coordinator → Coordinator
invalidate_for query none s = s
invalidate_for query (some cached) s =
    if request_eq cached query
    then s
    else record s { cache_generation = next_generation s; page_cache = []; cache_query = none }

unfoldable pub invalidate_cache_for_query : SsaPageRequest → Coordinator → Coordinator
invalidate_cache_for_query request s = invalidate_for (fingerprint request) s.cache_query s

unfoldable pub invalidate_total_rows_all : Coordinator → Coordinator
invalidate_total_rows_all s = record s {
  total_rows_all_known = false;
  total_rows_all = 0;
  cache_generation = next_generation s;
  page_cache = [];
  cache_query = none;
}
