-- ===== src/Dashboard/Query.antt =====
-- middleware/dashboard.cache.ts: a request's query reduced to validated values, and the cache key
-- of the view that it names.
pub mod Canonical
pub mod Key
pub mod Views
mod Tests
use task_queue_system.Prelude.{
  ℕ, ◌++◌, ◌∷◌, [], Text, txt, List, Option, none, some, Bool, ltb, ◌||◌, if◌then◌else◌, includes,
  is_empty, decimal, get_or,
}
use task_queue_system.Prelude.Dict.{Dict, lookup}
use task_queue_system.Http.{QueryValue, Query, str, arr, obj, nil, cons}
use task_queue_system.Prelude.Numeric.{to_natural}

abbrev pub allowed_statuses : List Text
allowed_statuses =
    txt "latest"
    ∷ txt "active"
    ∷ txt "waiting"
    ∷ txt "waiting-children"
    ∷ txt "completed"
    ∷ txt "failed"
    ∷ txt "delayed"
    ∷ txt "paused"
    ∷ txt "prioritized"
    ∷ []

abbrev pub max_jobs_per_page : ℕ
max_jobs_per_page = 100

abbrev pub default_jobs_per_page : ℕ
default_jobs_per_page = 10

abbrev pub max_page : ℕ
max_page = 100

-- `undefined` for a missing parameter too.
unfoldable pub first_value : Option QueryValue → Option Text
first_value none = none
first_value (some (str s)) = some s
first_value (some (arr nil)) = none
first_value (some (arr (cons (str s) _))) = some s
first_value (some (arr (cons _ _))) = none
first_value (some obj) = none

clamp_natural : Option ℕ → ℕ → ℕ → ℕ → ℕ
clamp_natural none least most fallback = fallback
clamp_natural (some parsed) least most fallback =
    if ltb parsed least || ltb most parsed then fallback else parsed

-- `Number(undefined)` is NaN.
unfoldable pub clamp_int : Option Text → ℕ → ℕ → ℕ → ℕ
unfolding clamp_natural
clamp_int none least most fallback = fallback
clamp_int (some raw) least most fallback = clamp_natural (to_natural raw) least most fallback

pub record CanonicalQuery : Type 0 where
  pub active_queue : Option Text
  pub status : Option Text
  pub page : Text
  pub jobs_per_page : Text

-- `raw && names.includes(raw) ? raw : undefined`: the empty text is falsy.
unfoldable pub allowed : List Text → Option Text → Option Text
allowed names none = none
allowed names (some raw) =
    if is_empty raw then none else if includes names raw then some raw else none

unfoldable pub canonicalize_query : Query → List Text → CanonicalQuery
unfolding first_value clamp_int allowed
canonicalize_query query queue_names = record {
  active_queue = allowed queue_names (first_value (lookup (txt "activeQueue") query));
  status = allowed allowed_statuses (first_value (lookup (txt "status") query));
  page = decimal (clamp_int (first_value (lookup (txt "page") query)) 1 max_page 1);
  jobs_per_page = decimal (
      clamp_int (first_value (lookup (txt "jobsPerPage") query)) 1 max_jobs_per_page
        default_jobs_per_page);
}

unfoldable pub build_snapshot_key : CanonicalQuery → Text
build_snapshot_key canonical =
    txt "q="
    ++ (get_or canonical.active_queue []
        ++ (txt "&s="
            ++ (get_or canonical.status []
                ++ (txt "&p=" ++ (canonical.page ++ (txt "&n=" ++ canonical.jobs_per_page))))))
