-- ===== src/Dashboard/Query/Tests.antt =====
-- Runs of the query functions, and the theorems about them at concrete inputs.
use mathlib.Core.Quot
use task_queue_system.Dashboard.Query.Views.{KeyClass, view_of, views_of_classes}
use task_queue_system.Prelude.{
  ◌≡◌, refl, [], ◌∷◌, Text, txt, List, text_eq, includes, decimal, trim, arith, All,
}
use task_queue_system.Prelude.Dict.{lookup, insert}
use task_queue_system.Prelude.Numeric.{to_natural}
use task_queue_system.Http.{Query, str, arr, cons, nil}
use task_queue_system.Dashboard.Query.{canonicalize_query, build_snapshot_key}
use task_queue_system.Dashboard.Query.Canonical.{
  IsCanonical, canonicalize_query-IsCanonical, as_query,
}
use task_queue_system.Dashboard.Query.Key.{same_key_same_view, IsPlain}

abbrev names : List Text
names = txt "task-processing-queue" ∷ txt "dlq-task-queue" ∷ []

abbrev busy : Query
busy =
    (txt "page", str (txt "999"))
    ∷ (txt "status", arr (cons (str (txt "active")) nil))
    ∷ (txt "jobsPerPage", str (txt " 15"))
    ∷ (txt "activeQueue", str (txt "dlq-task-queue"))
    ∷ []

busy_key :
    build_snapshot_key (canonicalize_query busy names) ≡ txt "q=dlq-task-queue&s=active&p=1&n=15"
unfolding build_snapshot_key canonicalize_query lookup text_eq includes decimal to_natural trim
busy_key = refl

canonicalize_query-IsCanonical_example : IsCanonical names (canonicalize_query busy names)
canonicalize_query-IsCanonical_example = canonicalize_query-IsCanonical busy names

same_key_same_view_example :
    canonicalize_query busy names
    ≡ canonicalize_query (insert (txt "junk") (str (txt "1")) busy) names
unfolding build_snapshot_key canonicalize_query lookup insert text_eq includes decimal to_natural
    trim
same_key_same_view_example =
    same_key_same_view names busy (insert (txt "junk") (str (txt "1")) busy) (omega arith) refl

names-IsPlain : All IsPlain names
names-IsPlain = omega arith

abbrev busy_class : KeyClass names names-IsPlain
busy_class = Quot.mk busy

views_of_classes_example :
    (view_of names names-IsPlain (Quot.mk (as_query (canonicalize_query busy names)))
      ≡ canonicalize_query busy names)
    × (Quot.mk (as_query (view_of names names-IsPlain busy_class)) ≡ busy_class)
views_of_classes_example =
    views_of_classes names names-IsPlain (canonicalize_query busy names) busy_class
      (canonicalize_query-IsCanonical busy names)
