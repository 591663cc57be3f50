-- ===== src/Accepted/Isolated.antt =====
-- What an applied mutation does to its own trip, and to the others.
use live_route.Base.{
  ℕ, ◌+◌, String, Bool, true, false, Option, none, some, List, [], ◌∷◌, ◌++◌, same, arith, ◌≡◌,
  refl, ap, ◌∙◌, inl, inr, Bool-cases,
}
use mathlib.Core.Path.{subst}
use mathlib.Core.List.{append-nil}
use live_route.Base.Table.{
  find_where, select_where, update_where, delete_where, any_where, count_where,
  find_where-update_where_ne, find_where-update_where_self,
}
use live_route.Base.Table.Selected.{
  select_where-append, select_where-update_where_ne, select_where-delete_where_ne,
  count_where-update_where_zero,
}
use live_route.Base.Result.{Result, ok, Link}
use live_route.Store.{Db, Trip, Proposal, Activity, ActivityWindow, TravelDelay, CommandKind}
use live_route.Lease.{stale_proposal}
use live_route.Proposal.{is_trip, is_pending_for}
use live_route.Decision.Rows.{advance_decided}
use live_route.Terminal.Rows.{FinalizedCommand}
use live_route.Accepted.{write_accepted, finalize_accepted_mutation}
use live_route.Accepted.Mutation.{
  AcceptedMutation, OpenWindow, OperatingHoursMutation, TravelDelayMutation,
  FinalizeAcceptedMutationRequest,
}
use live_route.Accepted.Apply.{
  is_activity, is_window, is_delay, set_status, set_delay, set_reservation, set_deadline,
  set_closed, set_travel_delay, travel_delay_row, window_rows, update_activity, replace_windows,
  upsert_travel_delay, with_part, apply_accepted_mutation,
}
use live_route.Accepted.Effects.{Keeps, apply-Keeps, replace_windows-eq}
use live_route.Accepted.Outcome.{finalize_accepted_mutation-Applied}

abbrev pub activity_of : String → Activity → Bool
activity_of u a = same a.trip_id u

abbrev pub window_of : String → ActivityWindow → Bool
window_of u w = same w.trip_id u

abbrev pub delay_of : String → TravelDelay → Bool
delay_of u d = same d.trip_id u

abbrev pub proposal_of : String → Proposal → Bool
proposal_of u p = same p.trip_id u

-- A trip has the same activities, windows and delays.
pub record SameFor (u : String) (db mid : Db) : Type 0 where
  pub activities :
      select_where (activity_of u) mid.activities ≡ select_where (activity_of u) db.activities
  pub open_windows :
      select_where (window_of u) mid.open_windows ≡ select_where (window_of u) db.open_windows
  pub travel_delays :
      select_where (delay_of u) mid.travel_delays ≡ select_where (delay_of u) db.travel_delays

other_text : (t u x : String) → same t u ≡ false → same x t ≡ true → same x u ≡ false
other_text t u x h e = ground arith

module _ (link : Link) (t u : String) (apart : same t u ≡ false) (db mid : Db) where
  update-SameFor :
      (id : String) (set : Activity → Activity)
      → ((a : Activity) → (set a).trip_id ≡ a.trip_id)
      → update_activity link t id set db ≡ ok mid
      → SameFor u db mid
  unfolding update_activity
  update-SameFor id set keeps h =
      let e : record db { activities = update_where (is_activity t id) set db.activities } ≡ mid =
        ground arith in
      subst (SameFor u db) e (record {
        activities =
            select_where-update_where_ne (activity_of u) (is_activity t id) set db.activities
              (λ a p.
                let q : same a.trip_id u ≡ false = other_text t u a.trip_id apart (ground arith) in
                (q, ground (arith, q, keeps a)));
        open_windows = refl;
        travel_delays = refl;
      })

  window_rows-other :
      (id : String) (index : ℕ) (ws : List OpenWindow)
      → select_where (window_of u) (window_rows t id index ws) ≡ []
  unfolding select_where window_rows
  window_rows-other id index [] = refl
  window_rows-other id index (w ∷ ws) = rw apart (window_rows-other id (index + 1) ws)

  hours-SameFor :
      (v : OperatingHoursMutation) → replace_windows link t v db ≡ ok mid → SameFor u db mid
  hours-SameFor v h = subst (SameFor u db) (replace_windows-eq link t v db mid h) (record {
    activities = refl;
    open_windows =
        select_where-append (window_of u) (delete_where (is_window t v.activity_id) db.open_windows)
          (window_rows t v.activity_id 0 v.open_windows)
        ∙ ap
            (λ ws.
              select_where (window_of u) (delete_where (is_window t v.activity_id) db.open_windows)
              ++ ws)
            (window_rows-other v.activity_id 0 v.open_windows)
        ∙ append-nil _
        ∙ select_where-delete_where_ne (window_of u) (is_window t v.activity_id) db.open_windows
            (λ w p. other_text t u w.trip_id apart (ground arith));
    travel_delays = refl;
  })

  travel_delay_row-other :
      (v : TravelDelayMutation) → select_where (delay_of u) (travel_delay_row t v ∷ []) ≡ []
  unfolding select_where
  travel_delay_row-other v = rw apart refl

  upsert-SameFor :
      (v : TravelDelayMutation) → upsert_travel_delay link t v db ≡ ok mid → SameFor u db mid
  unfolding upsert_travel_delay
  upsert-SameFor v h = elim (Bool-cases (any_where (is_delay t v) db.travel_delays)) [
    | inl old ↦
        let e : record db {
          travel_delays = update_where (is_delay t v) (set_travel_delay v) db.travel_delays;
        }
            ≡ mid =
          ground arith in
        subst (SameFor u db) e (record {
          activities = refl;
          open_windows = refl;
          travel_delays =
              select_where-update_where_ne (delay_of u) (is_delay t v) (set_travel_delay v)
                db.travel_delays
                (λ d p.
                  let q : same d.trip_id u ≡ false =
                    other_text t u d.trip_id apart (ground arith) in
                  (q, q));
        })
    | inr new ↦
        let e : record db { travel_delays = db.travel_delays ++ travel_delay_row t v ∷ [] } ≡ mid =
          ground arith in
        subst (SameFor u db) e (record {
          activities = refl;
          open_windows = refl;
          travel_delays =
              select_where-append (delay_of u) db.travel_delays (travel_delay_row t v ∷ [])
              ∙ ap (λ ds. select_where (delay_of u) db.travel_delays ++ ds)
                  (travel_delay_row-other v)
              ∙ append-nil _;
        })
  ]

  with_part-SameFor :
      {A : Type 0} (o : Option A) (f : A → Result Db)
      → ((a : A) → f a ≡ ok mid → SameFor u db mid)
      → with_part o f ≡ ok mid
      → SameFor u db mid
  with_part-SameFor none f k h = absurd (cc)
  with_part-SameFor (some a) f k h = k a h

  apply-SameFor :
      (m : AcceptedMutation) (kind : CommandKind)
      → apply_accepted_mutation link t m kind db ≡ ok mid
      → SameFor u db mid
  unfolding apply_accepted_mutation
  apply-SameFor m CommandKind.activity_status_changed h =
      with_part-SameFor m.activity_status _
        (λ v. update-SameFor v.activity_id (set_status v) (λ a. refl)) h
  apply-SameFor m CommandKind.activity_delayed h =
      with_part-SameFor m.activity_delay _
        (λ v. update-SameFor v.activity_id (set_delay v) (λ a. refl)) h
  apply-SameFor m CommandKind.reservation_changed h =
      with_part-SameFor m.reservation _
        (λ v. update-SameFor v.activity_id (set_reservation v) (λ a. refl)) h
  apply-SameFor m CommandKind.mandatory_deadline_changed h =
      with_part-SameFor m.mandatory_deadline _
        (λ v. update-SameFor v.activity_id (set_deadline v) (λ a. refl)) h
  apply-SameFor m CommandKind.operating_hours_changed h =
      with_part-SameFor m.operating_hours _ (λ v. hours-SameFor v) h
  apply-SameFor m CommandKind.place_found_closed h =
      with_part-SameFor m.place_found_closed _
        (λ v. update-SameFor v.activity_id (set_closed v) (λ a. refl)) h
  apply-SameFor m CommandKind.travel_delay h =
      with_part-SameFor m.travel_delay _ (λ v. upsert-SameFor v) h
  apply-SameFor m _ h = absurd (cc)

-- The rows of another trip are as they were.
pub record IsIsolated (u : String) (db db' : Db) : Type 0 where
  pub trip : find_where (is_trip u) db'.trips ≡ find_where (is_trip u) db.trips
  pub tables : SameFor u db db'
  pub proposals :
      select_where (proposal_of u) db'.proposals ≡ select_where (proposal_of u) db.proposals

-- The trip is advanced, and none of its proposals is pending.
pub record IsAdvanced (r : FinalizeAcceptedMutationRequest) (now : ℕ) (trip : Trip) (db' : Db)
    : Type 0 where
  pub advanced :
      find_where (is_trip r.trip_id) db'.trips
      ≡ some (record trip {
        trip_revision = r.expected_trip_revision + 1;
        finalized_mutation_sequence = r.mutation_sequence;
        updated_at = now;
      })
  pub none_pending : count_where (is_pending_for r.trip_id) db'.proposals ≡ 0

module _ (now : ℕ) (r : FinalizeAcceptedMutationRequest) (sequence : ℕ) where
  write_accepted-IsIsolated :
      (u : String) (db mid : Db)
      → same r.trip_id u ≡ false
      → Keeps db mid
      → SameFor u db mid
      → IsIsolated u db (write_accepted r sequence now mid)
  unfolding write_accepted
  write_accepted-IsIsolated u db mid apart k s = record {
    trip =
        find_where-update_where_ne (is_trip u) (is_trip r.trip_id)
          (advance_decided (r.expected_trip_revision + 1) sequence now) mid.trips
          (λ x p. let q : is_trip u x ≡ false = other_text r.trip_id u x.id apart p in (q, q))
        ∙ ap (find_where (is_trip u)) k.trips;
    tables = record {
      activities = s.activities;
      open_windows = s.open_windows;
      travel_delays = s.travel_delays;
    };
    proposals =
        select_where-update_where_ne (proposal_of u) (is_pending_for r.trip_id) (stale_proposal now)
          mid.proposals
          (λ x p.
            let q : same x.trip_id u ≡ false =
              other_text r.trip_id u x.trip_id apart (ground arith) in
            (q, q))
        ∙ ap (select_where (proposal_of u)) k.proposals;
  }

  write_accepted-IsAdvanced :
      (db mid : Db) (trip : Trip)
      → Keeps db mid
      → sequence ≡ r.mutation_sequence
      → find_where (is_trip r.trip_id) db.trips ≡ some trip
      → IsAdvanced r now trip (write_accepted r sequence now mid)
  unfolding write_accepted
  write_accepted-IsAdvanced db mid trip k e found = record {
    advanced =
        find_where-update_where_self (is_trip r.trip_id)
          (advance_decided (r.expected_trip_revision + 1) sequence now) mid.trips (λ x p. p)
          (ap (find_where (is_trip r.trip_id)) k.trips ∙ found)
        ∙ ap (λ n. some (advance_decided (r.expected_trip_revision + 1) n now trip)) e;
    none_pending =
        count_where-update_where_zero (is_pending_for r.trip_id) (stale_proposal now) mid.proposals
          (λ x. ground arith);
  }

module _ (link : Link) (now : ℕ) (db db' : Db) (r : FinalizeAcceptedMutationRequest)
    (res : FinalizedCommand) where
  -- A FinalizeAcceptedMutation that succeeds leaves every other trip as it was: its row, its
  -- activities, opening hours and travel delays, and its proposals.
  pub finalize_accepted_mutation-IsIsolated :
      (u : String)
      → same r.trip_id u ≡ false
      → finalize_accepted_mutation link now db r ≡ (ok res, db')
      → IsIsolated u db db'
  finalize_accepted_mutation-IsIsolated u apart h =
      let d = finalize_accepted_mutation-Applied link now db db' r res h in
      elim d.how [
        | inl a ↦ subst (IsIsolated u db) a.unchanged (record {
          trip = refl;
          tables = record { activities = refl; open_windows = refl; travel_delays = refl };
          proposals = refl;
        })
        | inr f ↦ subst (IsIsolated u db) f.written (
            write_accepted-IsIsolated now r (d.intent).mutation_sequence u db f.changed apart
              (apply-Keeps link r.trip_id r.mutation db f.changed d.kind f.applied)
              (apply-SameFor link r.trip_id u apart db f.changed r.mutation d.kind f.applied))
      ]

  -- One that succeeds for the first time advances the trip by one revision to the mutation sequence of
  -- the request, and leaves it no pending proposal.
  pub finalize_accepted_mutation-IsAdvanced :
      finalize_accepted_mutation link now db r ≡ (ok res, db')
      → res.duplicate ≡ false
      → (trip : Trip) × (find_where (is_trip r.trip_id) db.trips ≡ some trip)
        × (trip.trip_revision ≡ r.expected_trip_revision)
        × (trip.finalized_mutation_sequence + 1 ≡ r.mutation_sequence)
        × IsAdvanced r now trip db'
  finalize_accepted_mutation-IsAdvanced h fresh =
      let d = finalize_accepted_mutation-Applied link now db db' r res h in
      elim d.how [
        | inl a ↦ absurd (ground (arith, a.result))
        | inr f ↦ (
          d.trip,
          d.trip_found,
          f.at_revision ∙ d.identity.2,
          f.next ∙ d.identity.1,
          subst (IsAdvanced r now d.trip) f.written (
              write_accepted-IsAdvanced now r (d.intent).mutation_sequence db f.changed d.trip
                (apply-Keeps link r.trip_id r.mutation db f.changed d.kind f.applied) d.identity.1
                d.trip_found),
        )
      ]
