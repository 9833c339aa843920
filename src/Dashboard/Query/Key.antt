-- ===== src/Dashboard/Query/Key.antt =====
-- The cache key identifies the view: two canonical queries with one key are equal.
use task_queue_system.Prelude.{
  ℕ, ◌≡◌, ◌≢◌, refl, inl, inr, ◌∷◌, ◌++◌, [], Text, List, Option, none, some, true, Bool-cases,
  includes, decimal, decimal-IsDigits, IsDigits, arith, text_eq, text_eq_iff, All, get_or, ap, drop,
}
use task_queue_system.Http.{Query}
use task_queue_system.Dashboard.Query.{
  canonicalize_query, allowed_statuses, CanonicalQuery, build_snapshot_key,
}
use task_queue_system.Dashboard.Query.Canonical.{
  IsListed, IsCount, IsCanonical, canonicalize_query-IsCanonical,
}

-- No `&` in the text.
abbrev pub IsPlain : Text → Type 0
IsPlain = All λ c. c ≢ b'&'

-- Up to the first `&` two plain texts agree.
split_at_amp :
    (s t u v : Text) → IsPlain s → IsPlain t → s ++ b'&' ∷ u ≡ t ++ b'&' ∷ v → (s ≡ t) × (u ≡ v)
split_at_amp [] [] u v h k e = ground arith
split_at_amp [] (d ∷ t) u v h k e = ground (arith, k.0)
split_at_amp (c ∷ s) [] u v h k e = ground (arith, h.0)
split_at_amp (c ∷ s) (d ∷ t) u v h k e = ground (arith, split_at_amp s t u v h.1 k.1)

digits-IsPlain : (s : Text) → IsDigits s → IsPlain s
digits-IsPlain [] h = tt
digits-IsPlain (c ∷ s) h = (λ e. omega (arith, h.0), digits-IsPlain s h.1)

count-IsPlain : (most : ℕ) (t : Text) → IsCount most t → IsPlain t
unfolding IsCount
count-IsPlain most t (n, e, _, _) = rw e (digits-IsPlain (decimal n) (decimal-IsDigits n))

includes-All :
    (P : Text → Type 0) (names : List Text) (t : Text) → All P names → includes names t ≡ true → P t
unfolding includes
includes-All P [] t h e = cc
includes-All P (n ∷ names) t h e = elim (Bool-cases (text_eq n t)) [
  | inl same ↦ rw (← (text_eq_iff n t).0 same) h.0
  | inr other ↦ includes-All P names t h.1 (rw other at e)
]

listed-IsPlain :
    (names : List Text) (given : Option Text)
    → All IsPlain names
    → IsListed names given
    → IsPlain (get_or given [])
listed-IsPlain names none h l = tt
listed-IsPlain names (some t) h l = includes-All IsPlain names t h (l.listed t refl)

-- A missing parameter and the empty text would print alike; the empty text does not occur.
get_or_inj : (a b : Option Text) → a ≢ some [] → b ≢ some [] → get_or a [] ≡ get_or b [] → a ≡ b
get_or_inj none none h k e = refl
get_or_inj none (some []) h k e = absurd (k refl)
get_or_inj none (some (c ∷ t)) h k e = cc
get_or_inj (some []) b h k e = absurd (h refl)
get_or_inj (some (c ∷ s)) none h k e = cc
get_or_inj (some (c ∷ s)) (some t) h k e = ap some e

pub statuses-IsPlain : All IsPlain allowed_statuses
statuses-IsPlain = omega arith

-- For queue names without `&`: two canonical queries with the same cache key are the same view.
pub build_snapshot_key_inj :
    (names : List Text) (p q : CanonicalQuery)
    → All IsPlain names
    → IsCanonical names p
    → IsCanonical names q
    → build_snapshot_key p ≡ build_snapshot_key q
    → p ≡ q
unfolding build_snapshot_key
build_snapshot_key_inj names p q plain hp hq e =
    let (queue, rest) =
      split_at_amp (get_or p.active_queue []) (get_or q.active_queue []) _ _
        (listed-IsPlain names _ plain hp.queue) (listed-IsPlain names _ plain hq.queue)
        (ap (drop 2) e) in
    let (status, rest') =
      split_at_amp (get_or p.status []) (get_or q.status []) _ _
        (listed-IsPlain _ _ statuses-IsPlain hp.state)
        (listed-IsPlain _ _ statuses-IsPlain hq.state) (ap (drop 2) rest) in
    let (page, size) =
      split_at_amp p.page q.page _ _ (count-IsPlain _ _ hp.page) (count-IsPlain _ _ hq.page)
        (ap (drop 2) rest') in
    cc (
      get_or_inj _ _ hp.queue.shown hq.queue.shown queue,
      get_or_inj _ _ hp.state.shown hq.state.shown status,
      page,
      ap (drop 2) size,
    )

-- For queue names without `&`: requests that share a cache key are reduced to one view, so a
-- snapshot stored under the key of one is a snapshot of the view of the other.
pub same_key_same_view :
    (names : List Text) (q r : Query)
    → All IsPlain names
    → build_snapshot_key (canonicalize_query q names)
      ≡ build_snapshot_key (canonicalize_query r names)
    → canonicalize_query q names ≡ canonicalize_query r names
same_key_same_view names q r plain =
    build_snapshot_key_inj names _ _ plain (canonicalize_query-IsCanonical q names)
      (canonicalize_query-IsCanonical r names)
