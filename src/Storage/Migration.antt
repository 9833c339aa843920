-- ===== src/Storage/Migration.antt =====
-- The migration from the legacy schema, whose primary key was `key` alone.
use mathlib.Core.List.{append-nil, append_assoc}
use task_queue_system.Prelude.{
  ◌≡◌, ◌≢◌, refl, sym, ap, ◌∙◌, [], ◌∷◌, ◌++◌, List, Option, none, some, arith, text_eq_iff, All,
  All-append,
}
use task_queue_system.Storage.{
  Row, Table, by_key, by_job_and_key, is_at, get_record, insert_or_ignore, copy_into, init,
}

-- What the legacy primary key demands: no two rows with one key.
abbrev pub IsKeyed : List Row → Type 0
IsKeyed [] = Unit
IsKeyed (r ∷ rows) = All (λ s. s.key ≢ r.key) rows × IsKeyed rows

-- No row of `rows` has the key of a row of `done`.
abbrev Apart : List Row → List Row → Type 0
Apart done rows = All (λ s. All (λ r. r.key ≢ s.key) done) rows

get_record_apart :
    (s : Row) (done : List Row)
    → All (λ r. r.key ≢ s.key) done
    → get_record s.job_name s.key done ≡ none
unfolding get_record is_at
get_record_apart s [] h = refl
get_record_apart s (r ∷ done) h =
    ground (arith, h.0, text_eq_iff r.key s.key, get_record_apart s done h.1)

Apart-step :
    (r : Row) (done rows : List Row)
    → Apart done rows
    → All (λ s. s.key ≢ r.key) rows
    → Apart (done ++ r ∷ []) rows
Apart-step r done [] h k = tt
Apart-step r done (s ∷ rows) h k = (
  All-append (λ x. x.key ≢ s.key) done (r ∷ []) h.0 ((λ e. k.0 (sym e)), tt),
  Apart-step r done rows h.1 k.1,
)

insert_or_ignore_new :
    (done : List Row) (r : Row)
    → get_record r.job_name r.key done ≡ none
    → insert_or_ignore done r ≡ done ++ r ∷ []
unfolding insert_or_ignore
insert_or_ignore_new done r e = rw (e, insert_or_ignore)

copy_into_keyed :
    (done rows : List Row) → Apart done rows → IsKeyed rows → copy_into done rows ≡ done ++ rows
unfolding copy_into
copy_into_keyed done [] h k = sym (append-nil done)
copy_into_keyed done (r ∷ rows) h k =
    ap (λ next. copy_into next rows) (insert_or_ignore_new done r (get_record_apart r done h.0))
    ∙ copy_into_keyed (done ++ r ∷ []) rows (Apart-step r done rows h.1 k.0) k.1
    ∙ append_assoc done (r ∷ []) rows

Apart-nil : (rows : List Row) → Apart [] rows
Apart-nil [] = tt
Apart-nil (r ∷ rows) = (tt, Apart-nil rows)

-- A legacy table comes out of the constructor with every one of its rows, in their order, and with
-- the composite primary key. The rows must have different keys, as the legacy primary key demands.
pub init_keeps_legacy_rows :
    (rows : List Row)
    → IsKeyed rows
    → init (some (record { primary_key = by_key; rows = rows }))
      ≡ record { primary_key = by_job_and_key; rows = rows }
unfolding init
init_keeps_legacy_rows rows k = rw (copy_into_keyed [] rows (Apart-nil rows) k)

-- Opening a database that was opened before changes nothing, whatever was there at first.
pub init_idem : (existing : Option Table) → init (some (init existing)) ≡ init existing
unfolding init
init_idem none = refl
init_idem (some t) = ground arith
