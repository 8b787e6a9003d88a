-- ===== src/PageQuery/Pages.antt =====
-- The pages that src/presentation/PageQueryCoordinator.cpp keeps.
use ssa_consulta_rapidacpp.Prelude.{
  ℕ, zero, suc, ◌-◌, ◌≤◌, ◌≡◌, refl, subst, false, List, [], ◌∷◌, ◌++◌, Option, none, some, arith,
  if◌then◌else◌, inl, inr, Bool-cases, if_either, All, length, drop,
}
use ssa_consulta_rapidacpp.Sql.Query.{SsaPageRequest}
use ssa_consulta_rapidacpp.Sql.Marks.{All-append}
use ssa_consulta_rapidacpp.PageQuery.{PageQueryResult, CachedPage, Coordinator}
use ssa_consulta_rapidacpp.PageQuery.Request.{request_eq, request_eq_iff, option_eq, option_eq_iff}
use ssa_consulta_rapidacpp.PageQuery.Cache.{
  fingerprint, erase_request, pop_surplus, cache_page, erase_first_page, take_cached_page,
  invalidate_for, invalidate_cache_for_query, invalidate_total_rows_all,
}

abbrev pub Differs : SsaPageRequest → CachedPage → Type 0
Differs request page = request_eq page.request request ≡ false

abbrev pub Distinct : List CachedPage → Type 0
Distinct [] = Unit
Distinct (page ∷ pages) = All (Differs page.request) pages × Distinct pages

abbrev pub HasQuery : Option SsaPageRequest → CachedPage → Type 0
HasQuery query page = query ≡ some (fingerprint page.request)

abbrev pub IsShown : CachedPage → Type 0
IsShown page = page.result.is_canceled ≡ false

-- At most three pages, all of one query, none of them canceled, and none twice.
pub record IsCache (query : Option SsaPageRequest) (pages : List CachedPage) : Type 0 where
  pub bounded : length pages ≤ 3
  pub one_query : All (HasQuery query) pages
  pub none_canceled : All IsShown pages
  pub distinct : Distinct pages

module _ {ℓ κ} {A : Type ℓ} (P : A → Type κ) where
  pub All-drop : (n : ℕ) (xs : List A) → All P xs → All P (drop n xs)
  All-drop zero xs h = h
  All-drop (suc n) [] h = tt
  All-drop (suc n) (x ∷ xs) (p, h) = All-drop n xs h

length-drop {ℓ} : {A : Type ℓ} (n : ℕ) (xs : List A) → length (drop n xs) ≡ length xs - n
length-drop zero xs = omega arith
length-drop (suc n) [] = omega arith
length-drop (suc n) (x ∷ xs) = omega (arith, length-drop n xs)

Distinct-drop : (n : ℕ) (pages : List CachedPage) → Distinct pages → Distinct (drop n pages)
Distinct-drop zero pages h = h
Distinct-drop (suc n) [] h = tt
Distinct-drop (suc n) (page ∷ pages) (d, h) = Distinct-drop n pages h

All-erase_request :
    (P : CachedPage → Type 0) (request : SsaPageRequest) (pages : List CachedPage)
    → All P pages
    → All P (erase_request request pages)
unfolding erase_request
All-erase_request P request [] h = tt
All-erase_request P request (page ∷ pages) (p, h) =
    elim (Bool-cases (request_eq page.request request)) [
      | inl e ↦ rw e (All-erase_request P request pages h)
      | inr e ↦ rw e (p, All-erase_request P request pages h)
    ]

Distinct-erase_request :
    (request : SsaPageRequest) (pages : List CachedPage)
    → Distinct pages
    → Distinct (erase_request request pages)
unfolding erase_request
Distinct-erase_request request [] h = tt
Distinct-erase_request request (page ∷ pages) (d, h) =
    elim (Bool-cases (request_eq page.request request)) [
      | inl e ↦ rw e (Distinct-erase_request request pages h)
      | inr e ↦ rw e (
        All-erase_request (Differs page.request) request pages d,
        Distinct-erase_request request pages h,
      )
    ]

erase_request-Differs :
    (request : SsaPageRequest) (pages : List CachedPage)
    → All (Differs request) (erase_request request pages)
unfolding erase_request
erase_request-Differs request [] = tt
erase_request-Differs request (page ∷ pages) = elim (Bool-cases (request_eq page.request request)) [
  | inl e ↦ rw e (erase_request-Differs request pages)
  | inr e ↦ rw e (e, erase_request-Differs request pages)
]

request_eq_sym : (a b : SsaPageRequest) → request_eq a b ≡ false → request_eq b a ≡ false
request_eq_sym a b h = ground (arith, request_eq_iff a b, request_eq_iff b a)

Distinct-append :
    (pages : List CachedPage) (page : CachedPage)
    → Distinct pages
    → All (Differs page.request) pages
    → Distinct (pages ++ page ∷ [])
Distinct-append [] page h k = (tt, tt)
Distinct-append (p ∷ pages) page (d, h) (e, k) = (
  All-append (Differs p.request) pages (page ∷ []) d (request_eq_sym p.request page.request e, tt),
  Distinct-append pages page h k,
)

All-erase_first_page :
    (P : CachedPage → Type 0) (request : SsaPageRequest) (pages : List CachedPage)
    → All P pages
    → All P (erase_first_page request pages)
unfolding erase_first_page
All-erase_first_page P request [] h = tt
All-erase_first_page P request (page ∷ pages) (p, h) =
    elim (Bool-cases (request_eq page.request request)) [
      | inl e ↦ rw e h
      | inr e ↦ rw e (p, All-erase_first_page P request pages h)
    ]

Distinct-erase_first_page :
    (request : SsaPageRequest) (pages : List CachedPage)
    → Distinct pages
    → Distinct (erase_first_page request pages)
unfolding erase_first_page
Distinct-erase_first_page request [] h = tt
Distinct-erase_first_page request (page ∷ pages) (d, h) =
    elim (Bool-cases (request_eq page.request request)) [
      | inl e ↦ rw e h
      | inr e ↦ rw e (
        All-erase_first_page (Differs page.request) request pages d,
        Distinct-erase_first_page request pages h,
      )
    ]

length-erase_first_page :
    (request : SsaPageRequest) (pages : List CachedPage)
    → length (erase_first_page request pages) ≤ length pages
unfolding erase_first_page
length-erase_first_page request [] = omega arith
length-erase_first_page request (page ∷ pages) =
    ground (arith, length-erase_first_page request pages)

abbrev pub CacheHolds : Coordinator → Type 0
CacheHolds s = IsCache s.cache_query s.page_cache

pub empty-IsCache : (query : Option SsaPageRequest) → IsCache query []
empty-IsCache query = record {
  bounded = omega arith;
  one_query = tt;
  none_canceled = tt;
  distinct = tt;
}

kept-IsCache :
    (query : Option SsaPageRequest) (request : SsaPageRequest) (pages : List CachedPage)
    → IsCache query pages
    → IsCache
        (some (fingerprint request))
        (if option_eq request_eq query (some (fingerprint request)) then pages else [])
kept-IsCache query request pages h =
    elim (Bool-cases (option_eq request_eq query (some (fingerprint request)))) [
      | inl e ↦ rw e (
          subst (λ (q : Option SsaPageRequest). IsCache q pages)
            ((option_eq_iff request_eq request_eq_iff query (some (fingerprint request))).0 e) h)
      | inr e ↦ rw e (empty-IsCache (some (fingerprint request)))
    ]

added-IsCache :
    (query : Option SsaPageRequest) (page : CachedPage) (pages : List CachedPage)
    → IsCache query pages
    → HasQuery query page
    → IsShown page
    → IsCache query (pop_surplus (erase_request page.request pages ++ page ∷ []))
unfolding pop_surplus
added-IsCache query page pages h q c =
    let all = erase_request page.request pages ++ page ∷ [] in
    record {
      bounded = omega (arith, length-drop (length all - 3) all);
      one_query = All-drop (HasQuery query) (length all - 3) all (
          All-append (HasQuery query) (erase_request page.request pages) (page ∷ [])
            (All-erase_request (HasQuery query) page.request pages h.one_query) (q, tt));
      none_canceled = All-drop IsShown (length all - 3) all (
          All-append IsShown (erase_request page.request pages) (page ∷ [])
            (All-erase_request IsShown page.request pages h.none_canceled) (c, tt));
      distinct = Distinct-drop (length all - 3) all (
          Distinct-append (erase_request page.request pages) page
            (Distinct-erase_request page.request pages h.distinct)
            (erase_request-Differs page.request pages));
    }

pub cache_page-IsCache :
    (request : SsaPageRequest) (result : PageQueryResult) (s : Coordinator)
    → CacheHolds s
    → CacheHolds (cache_page request result s)
unfolding cache_page
cache_page-IsCache request result s h =
    if_either CacheHolds result.is_canceled _ _ (λ e. h)
      (λ e.
        added-IsCache (some (fingerprint request)) (record { request = request; result = result }) _
          (kept-IsCache s.cache_query request s.page_cache h) refl e)

pub take_cached_page-IsCache :
    (request : SsaPageRequest) (s : Coordinator)
    → CacheHolds s
    → CacheHolds (take_cached_page request s).1
unfolding take_cached_page
take_cached_page-IsCache request s h = record {
  bounded = omega (arith, length-erase_first_page request s.page_cache, h.bounded);
  one_query = All-erase_first_page (HasQuery s.cache_query) request s.page_cache h.one_query;
  none_canceled = All-erase_first_page IsShown request s.page_cache h.none_canceled;
  distinct = Distinct-erase_first_page request s.page_cache h.distinct;
}

invalidate_for-IsCache :
    (query : SsaPageRequest) (o : Option SsaPageRequest) (s : Coordinator)
    → CacheHolds s
    → CacheHolds (invalidate_for query o s)
invalidate_for-IsCache query none s h = h
invalidate_for-IsCache query (some cached) s h = elim (Bool-cases (request_eq cached query)) [
  | inl e ↦ rw e h
  | inr e ↦ rw e (empty-IsCache none)
]

pub invalidate_cache_for_query-IsCache :
    (request : SsaPageRequest) (s : Coordinator)
    → CacheHolds s
    → CacheHolds (invalidate_cache_for_query request s)
unfolding invalidate_cache_for_query
invalidate_cache_for_query-IsCache request s h =
    invalidate_for-IsCache (fingerprint request) s.cache_query s h

pub invalidate_total_rows_all-IsCache : (s : Coordinator) → CacheHolds (invalidate_total_rows_all s)
unfolding invalidate_total_rows_all
invalidate_total_rows_all-IsCache s = empty-IsCache none
