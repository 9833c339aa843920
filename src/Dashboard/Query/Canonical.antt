-- ===== src/Dashboard/Query/Canonical.antt =====
-- What canonicalizeQuery guarantees of every result.
use task_queue_system.Prelude.{
  ℕ, ◌⊎◌, text_eq_iff, txt, ap, text_eq, ◌≤◌, ◌≡◌, ◌≢◌, refl, inl, inr, ◌∷◌, [], Text, List, Option,
  none, some, true, Bool-cases, includes, decimal, arith,
}
use task_queue_system.Prelude.Numeric.{to_natural, to_natural-decimal}
use task_queue_system.Prelude.Dict.{lookup, insert, lookup-insert}
use task_queue_system.Http.{str, QueryValue, Query}
use task_queue_system.Dashboard.Query.{
  first_value, allowed_statuses, clamp_natural, clamp_int, CanonicalQuery, allowed,
  canonicalize_query, max_page, max_jobs_per_page,
}

-- A parameter that is absent, or one of the names.
pub record IsListed (names : List Text) (given : Option Text) : Type 0 where
  pub listed : (t : Text) → given ≡ some t → includes names t ≡ true
  pub shown : given ≢ some []

-- A text that prints a number from 1 up to the bound.
unfoldable pub IsCount : ℕ → Text → Type 0
IsCount most t = (n : ℕ) × (t ≡ decimal n) × (1 ≤ n) × (n ≤ most)

pub record IsCanonical (names : List Text) (q : CanonicalQuery) : Type 0 where
  pub queue : IsListed names q.active_queue
  pub state : IsListed allowed_statuses q.status
  pub page : IsCount max_page q.page
  pub size : IsCount max_jobs_per_page q.jobs_per_page

allowed-IsListed : (names : List Text) (raw : Option Text) → IsListed names (allowed names raw)
unfolding allowed
allowed-IsListed names none = record { listed = λ t e. cc; shown = λ e. cc }
allowed-IsListed names (some []) = record { listed = λ t e. cc; shown = λ e. cc }
allowed-IsListed names (some (c ∷ s)) = elim (Bool-cases (includes names (c ∷ s))) [
  | inl known ↦ rw known (record { listed = λ t e. ground (arith, e, known); shown = λ e. cc })
  | inr unknown ↦ rw unknown (record { listed = λ t e. cc; shown = λ e. cc })
]

clamp_natural_bounds :
    (parsed : Option ℕ) (most fallback : ℕ)
    → 1 ≤ fallback
    → fallback ≤ most
    → (1 ≤ clamp_natural parsed 1 most fallback) × (clamp_natural parsed 1 most fallback ≤ most)
unfolding clamp_natural
clamp_natural_bounds none most fallback h k = (h, k)
clamp_natural_bounds (some n) most fallback h k = ground arith

clamp_int_bounds :
    (raw : Option Text) (most fallback : ℕ)
    → 1 ≤ fallback
    → fallback ≤ most
    → (1 ≤ clamp_int raw 1 most fallback) × (clamp_int raw 1 most fallback ≤ most)
unfolding clamp_int
clamp_int_bounds none most fallback h k = (h, k)
clamp_int_bounds (some raw) most fallback h k =
    clamp_natural_bounds (to_natural raw) most fallback h k

clamp-IsCount :
    (raw : Option Text) (most fallback : ℕ)
    → 1 ≤ fallback
    → fallback ≤ most
    → IsCount most (decimal (clamp_int raw 1 most fallback))
unfolding IsCount
clamp-IsCount raw most fallback h k =
    let b = clamp_int_bounds raw most fallback h k in
    (clamp_int raw 1 most fallback, refl, b.0, b.1)

-- Whatever a caller sends, the canonical query names a registered queue or none, a known status or
-- none, and a page and a page size from 1 to 100.
pub canonicalize_query-IsCanonical :
    (query : Query) (names : List Text) → IsCanonical names (canonicalize_query query names)
unfolding canonicalize_query
canonicalize_query-IsCanonical query names = record {
  queue = allowed-IsListed names _;
  state = allowed-IsListed allowed_statuses _;
  page = clamp-IsCount _ max_page 1 (omega arith) (omega arith);
  size = clamp-IsCount _ max_jobs_per_page 10 (omega arith) (omega arith);
}

optional : Text → Option Text → Query → Query
optional key none rest = rest
optional key (some value) rest = (key, str value) ∷ rest

query_of : Option Text → Option Text → Text → Text → Query
query_of queue status page size =
    optional (txt "activeQueue") queue
      (optional (txt "status") status ((txt "page", str page) ∷ (txt "jobsPerPage", str size) ∷ []))

-- The canonical query as the adapter finds it on `req.query`.
unfoldable pub as_query : CanonicalQuery → Query
unfolding optional query_of
as_query c = query_of c.active_queue c.status c.page c.jobs_per_page

abbrev given : Text → Query → Option Text
unfolding first_value lookup
given key q = first_value (lookup key q)

query_of_lem :
    (a s : Option Text) (p z : Text)
    → (given (txt "activeQueue") (query_of a s p z) ≡ a)
      × (given (txt "status") (query_of a s p z) ≡ s)
      × (given (txt "page") (query_of a s p z) ≡ some p)
      × (given (txt "jobsPerPage") (query_of a s p z) ≡ some z)
unfolding query_of optional first_value lookup text_eq
query_of_lem none none p z = (refl, refl, refl, refl)
query_of_lem none (some s) p z = (refl, refl, refl, refl)
query_of_lem (some a) none p z = (refl, refl, refl, refl)
query_of_lem (some a) (some s) p z = (refl, refl, refl, refl)

allowed_of_IsListed :
    (names : List Text) (given : Option Text) → IsListed names given → allowed names given ≡ given
unfolding allowed
allowed_of_IsListed names none l = refl
allowed_of_IsListed names (some []) l = absurd (l.shown refl)
allowed_of_IsListed names (some (c ∷ s)) l = rw (l.listed (c ∷ s) refl)

clamp_int_of_IsCount :
    (most fallback : ℕ) (t : Text)
    → IsCount most t
    → decimal (clamp_int (some t) 1 most fallback) ≡ t
unfolding IsCount clamp_int clamp_natural
clamp_int_of_IsCount most fallback t (n, e, least, bound) =
    rw (e, to_natural-decimal n) (ap decimal (ground arith))

-- A canonical query, read again, is itself.
pub canonical_view :
    (names : List Text) (c : CanonicalQuery)
    → IsCanonical names c
    → canonicalize_query (as_query c) names ≡ c
unfolding canonicalize_query as_query lookup decimal
canonical_view names c h =
    let q = query_of c.active_queue c.status c.page c.jobs_per_page in
    let (queue, status, page, size) = query_of_lem c.active_queue c.status c.page c.jobs_per_page in
    cc (
      allowed_of_IsListed names _ h.queue,
      allowed_of_IsListed allowed_statuses _ h.state,
      clamp_int_of_IsCount max_page 1 _ h.page,
      clamp_int_of_IsCount max_jobs_per_page 10 _ h.size,
    )

-- What the adapter reads after the rewrite of `req.query` is a fixed point: reduced once more, the
-- canonical query of any request stays as it is.
pub canonicalize_query_idem :
    (query : Query) (names : List Text)
    → canonicalize_query (as_query (canonicalize_query query names)) names
      ≡ canonicalize_query query names
canonicalize_query_idem query names =
    canonical_view names _ (canonicalize_query-IsCanonical query names)

abbrev IsReadKey : Text → Type 0
IsReadKey k =
    (k ≡ txt "activeQueue") ⊎ (k ≡ txt "status") ⊎ (k ≡ txt "page") ⊎ (k ≡ txt "jobsPerPage")

-- A parameter that the dashboard does not read changes nothing, whatever its value.
unread_parameter :
    (query : Query) (names : List Text) (key : Text) (value : QueryValue)
    → ¬ IsReadKey key
    → canonicalize_query (insert key value query) names ≡ canonicalize_query query names
unfolding canonicalize_query
unread_parameter query names key value h =
    let same = λ (k : Text) (ne : key ≢ k). unread k ne in
    rw (
      same (txt "activeQueue") (λ e. h (inl e)),
      same (txt "status") (λ e. h (inr (inl e))),
      same (txt "page") (λ e. h (inr (inr (inl e)))),
      same (txt "jobsPerPage") (λ e. h (inr (inr (inr e)))),
    )
  where
    unread : (k : Text) → key ≢ k → lookup k (insert key value query) ≡ lookup k query
    unread k ne = ground (arith, lookup-insert key k value query, text_eq_iff key k)
