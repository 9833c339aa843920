-- ===== src/Dashboard/Query/Views.antt =====
-- Queries up to the cache key: what the snapshot cache tells apart.
use mathlib.Core.Quot
use mathlib.Core.Quot.{Quot, Quot-set}
use task_queue_system.Prelude.{◌≡◌, ap, Text, List, All}
use task_queue_system.Http.{Query}
use task_queue_system.Dashboard.Query.{canonicalize_query, CanonicalQuery, build_snapshot_key}
use task_queue_system.Dashboard.Query.Canonical.{
  IsCanonical, as_query, canonical_view, canonicalize_query_idem,
}
use task_queue_system.Dashboard.Query.Key.{IsPlain, same_key_same_view}

CanonicalQuery-set : IsSet CanonicalQuery
CanonicalQuery-set = hlevel

module _ (names : List Text) (plain : All IsPlain names) where
  abbrev pub SameKey : Query → Query → Type 0
  SameKey q r =
      build_snapshot_key (canonicalize_query q names)
      ≡ build_snapshot_key (canonicalize_query r names)

  abbrev pub KeyClass : Type 0
  KeyClass = Quot SameKey

  pub view_of : KeyClass → CanonicalQuery
  view_of =
      Quot.lift CanonicalQuery-set (λ q. canonicalize_query q names)
        (λ q r h. same_key_same_view names q r plain h)

  class_view : (x : KeyClass) → Quot.mk (as_query (view_of x)) ≡ x
  unfolding view_of
  class_view =
      Quot.ind (λ x. Quot-set _ _)
        (λ q. Quot.sound (ap build_snapshot_key (canonicalize_query_idem q names)))

-- For queue names without `&`, the canonical queries are the requests' queries up to their cache key:
-- a canonical query is the view of the class of its own query string, and every class is that of its
-- view's query string. So the cache can tell views apart exactly as far as its key does, and the
-- rewritten query that is sent on stands for every request that shares the key.
pub views_of_classes :
    (names : List Text) (plain : All IsPlain names) (v : CanonicalQuery) (x : KeyClass names plain)
    → IsCanonical names v
    → (view_of names plain (Quot.mk (as_query v)) ≡ v)
      × (Quot.mk (as_query (view_of names plain x)) ≡ x)
unfolding view_of
views_of_classes names plain v x h = (canonical_view names v h, class_view names plain x)
