-- ===== src/Dashboard/System/Snapshots.antt =====
-- Which body a poll is answered with: every stored snapshot is one that the dashboard's handler
-- delivered for its view, whatever the order of polls, responses and mutations.
use mathlib.Core.List.{Memᴰ}
use task_queue_system.Prelude.{
  ℕ, zero, suc, ◌+◌, ◌≤◌, ◌≡◌, refl, inl, inr, [], ◌∷◌, Text, List, Option, none, some, arith, All,
  All-map, All-get_elem?, length, get_elem?, ◌==◌, leb, Bool-cases, ==_iff,
}
use task_queue_system.Prelude.Dict.{Dict, insert, insert-All, length-insert-le}
use task_queue_system.Config.{Config}
use task_queue_system.Json.{Json}
use task_queue_system.Http.{Request, Headers}
use task_queue_system.Dashboard.Query.{build_snapshot_key}
use task_queue_system.Dashboard.Query.Canonical.{IsCanonical, canonicalize_query-IsCanonical}
use task_queue_system.Dashboard.Cache.{
  SnapshotEntry, Pending, Handled, passed, served, rebuilds, dashboard_snapshot_cache,
  store_snapshot, invalidate_dashboard_snapshot,
}
use task_queue_system.Dashboard.Cache.Entries.{dashboard_snapshot_cache-Keeps, rebuilds_lem}
use task_queue_system.Dashboard.System.{
  System, Delivery, Event, polls, responds, mutates, step, finish, track, remove_at,
}

All-remove_at {ℓ κ} :
    {A : Type ℓ} (P : A → Type κ) (i : ℕ) (xs : List A) → All P xs → All P (remove_at i xs)
unfolding remove_at
All-remove_at P i [] h = tt
All-remove_at P zero (x ∷ xs) h = h.1
All-remove_at P (suc i) (x ∷ xs) h = (h.0, All-remove_at P i xs h.1)

module _ (c : Config) (names : List Text) where
  -- A request on its way to Redis: its key is that of its view, and its generation is not new.
  pub record IsFlight (generation : ℕ) (p : Pending) : Type 0 where
    pub view : IsCanonical names p.view
    pub key : p.cache_key ≡ build_snapshot_key p.view
    pub age : p.generation_at_dispatch ≤ generation

  -- A stored snapshot comes from a delivery of status 200 under its key.
  pub record IsBacked (generation : ℕ) (delivered : List Delivery) (key : Text) (e : SnapshotEntry)
      : Type 0 where
    pub source : Delivery
    pub listed : Memᴰ source delivered
    pub success : source.status ≡ 200
    pub flight : IsFlight generation source.pending
    pub key_eq : source.pending.cache_key ≡ key
    pub body : e.body ≡ source.body
    pub dispatched : e.generation ≡ source.pending.generation_at_dispatch
    pub expiry : e.expires_at ≡ source.at + c.dashboard_snapshot_ttl_ms

  pub record Inv (s : System) : Type 0 where
    pub named : s.board.registered_queue_names ≡ names
    pub small : length s.board.snapshots ≤ c.dashboard_max_cache_entries
    pub flights : All (IsFlight s.board.current_generation) s.in_flight
    pub backed :
        All (λ e. IsBacked s.board.current_generation s.delivered e.0 e.1) s.board.snapshots

  pub IsFlight-mono : (m n : ℕ) (p : Pending) → m ≤ n → IsFlight m p → IsFlight n p
  IsFlight-mono m n p h f = record { view = f.view; key = f.key; age = omega arith }

  pub IsBacked-mono :
      (m n : ℕ) (ds : List Delivery) (key : Text) (e : SnapshotEntry)
      → m ≤ n
      → IsBacked m ds key e
      → IsBacked n ds key e
  IsBacked-mono m n ds key e h k = record {
    source = k.source;
    listed = k.listed;
    success = k.success;
    flight = IsFlight-mono m n k.source.pending h k.flight;
    key_eq = k.key_eq;
    body = k.body;
    dispatched = k.dispatched;
    expiry = k.expiry;
  }

  IsBacked-more :
      (g : ℕ) (d : Delivery) (ds : List Delivery) (key : Text) (e : SnapshotEntry)
      → IsBacked g ds key e
      → IsBacked g (d ∷ ds) key e
  IsBacked-more g d ds key e k = record {
    source = k.source;
    listed = Memᴰ.tail k.listed;
    success = k.success;
    flight = k.flight;
    key_eq = k.key_eq;
    body = k.body;
    dispatched = k.dispatched;
    expiry = k.expiry;
  }

  abbrev entry : ℕ → Pending → Json → SnapshotEntry
  entry now p body = record {
    body = body;
    expires_at = now + c.dashboard_snapshot_ttl_ms;
    generation = p.generation_at_dispatch;
  }

  module _ (s : System) (inv : Inv s) where
    abbrev generation : ℕ
    generation = s.board.current_generation

    mutates-Inv : Inv (step c s mutates)
    unfolding step invalidate_dashboard_snapshot
    mutates-Inv = record {
      named = inv.named;
      small = inv.small;
      flights =
          All-map s.in_flight (λ p. IsFlight-mono generation (suc generation) p (omega arith))
            inv.flights;
      backed =
          All-map s.board.snapshots
            (λ e. IsBacked-mono generation (suc generation) s.delivered e.0 e.1 (omega arith))
            inv.backed;
    }

    track-flights :
        (now : ℕ) (req : Request) (headers : Headers) (handled : Handled)
        → (dashboard_snapshot_cache c now req headers s.board).0 ≡ handled
        → All (IsFlight generation) (track handled s.in_flight)
    unfolding track
    track-flights now req headers (passed r h) e = inv.flights
    track-flights now req headers (served r) e = inv.flights
    track-flights now req headers (rebuilds r h p) e =
        let (view, key, age, _) = rebuilds_lem c now req headers s.board e in
        (
          record {
            view = rw (view, inv.named) (canonicalize_query-IsCanonical req.query names);
            key = rw (key, view) refl;
            age = omega (arith, age);
          },
          inv.flights,
        )

    polls-Inv :
        (now : ℕ) (req : Request) (headers : Headers) → Inv (step c s (polls now req headers))
    unfolding step
    polls-Inv now req headers =
        let kept = dashboard_snapshot_cache-Keeps c now req headers s.board in
        record {
          named = rw kept.names inv.named;
          small = rw kept.snapshots inv.small;
          flights = rw kept.generation (track-flights now req headers _ refl);
          backed = rw (kept.generation, kept.snapshots) inv.backed;
        }

    -- The board after a delivery of status 200.
    stored-Inv :
        (i now : ℕ) (p : Pending) (body : Json) (room : Dict SnapshotEntry)
        → IsFlight generation p
        → All (λ e. IsBacked generation s.delivered e.0 e.1) room
        → length room + 1 ≤ c.dashboard_max_cache_entries
        → Inv (record {
          board = record s.board { snapshots = insert p.cache_key (entry now p body) room };
          in_flight = remove_at i s.in_flight;
          delivered = record { pending = p; at = now; status = 200; body = body } ∷ s.delivered;
        })
    stored-Inv i now p body room f h fits =
        let d : Delivery = record { pending = p; at = now; status = 200; body = body } in
        record {
          named = inv.named;
          small = omega (arith, length-insert-le {0} p.cache_key (entry now p body) room);
          flights = All-remove_at (IsFlight generation) i s.in_flight inv.flights;
          backed =
              insert-All (IsBacked generation (d ∷ s.delivered)) p.cache_key (entry now p body) room
                (All-map room (λ e. IsBacked-more generation d s.delivered e.0 e.1) h)
                (record {
                  source = d;
                  listed = Memᴰ.head refl;
                  success = refl;
                  flight = f;
                  key_eq = refl;
                  body = refl;
                  dispatched = refl;
                  expiry = refl;
                });
        }

    -- The board is left alone by a delivery of another status.
    dropped-Inv :
        (i now status : ℕ) (p : Pending) (body : Json)
        → Inv (record {
          board = s.board;
          in_flight = remove_at i s.in_flight;
          delivered = record { pending = p; at = now; status = status; body = body } ∷ s.delivered;
        })
    dropped-Inv i now status p body = record {
      named = inv.named;
      small = inv.small;
      flights = All-remove_at (IsFlight generation) i s.in_flight inv.flights;
      backed =
          All-map s.board.snapshots (λ e. IsBacked-more generation _ s.delivered e.0 e.1)
            inv.backed;
    }

    finish-Inv :
        (now i status : ℕ) (body : Json) (found : Option Pending)
        → 1 ≤ c.dashboard_max_cache_entries
        → get_elem? s.in_flight i ≡ found
        → Inv (finish c now i status body found s)
    unfolding finish store_snapshot
    finish-Inv now i status body none room e = inv
    finish-Inv now i status body (some p) room e =
        let f = All-get_elem? (IsFlight generation) s.in_flight i inv.flights e in
        elim (Bool-cases (status == 200)) [
          | inr other ↦ rw other (dropped-Inv i now status p body)
          | inl success ↦
              elim (Bool-cases (leb c.dashboard_max_cache_entries (length s.board.snapshots))) [
                | inl full ↦
                    rw (success, full, (==_iff status 200).0 success)
                      (stored-Inv i now p body [] f tt room)
                | inr space ↦
                    rw (success, space, (==_iff status 200).0 success)
                      (stored-Inv i now p body s.board.snapshots f inv.backed (ground arith))
              ]
        ]

    pub step-Inv : (e : Event) → 1 ≤ c.dashboard_max_cache_entries → Inv (step c s e)
    step-Inv (polls now req headers) h = polls-Inv now req headers
    step-Inv (responds now i status body) h =
        unfold step in finish-Inv now i status body (get_elem? s.in_flight i) h refl
    step-Inv mutates h = mutates-Inv
