-- ===== src/Accepted/Apply.antt =====
-- applyAcceptedMutation of backend/internal/persistence/accepted_mutations.go: the statements that write
-- a mutation into the tables of the trip's activities.
use live_route.Base.{
  ℕ, ◌+◌, String, Bool, ◌&&◌, Option, none, some, List, [], ◌∷◌, ◌++◌, ◌==◌, if◌then◌else◌, same,
}
use live_route.Base.Table.{update_where, delete_where, count_where, any_where}
use live_route.Base.Result.{
  Result, ok, err, ◌>>=◌, ◌>>◌, guard, Link, reach, database, apply_mutation, find_activity,
  delete_windows, insert_window, mutation_target_not_found, unsupported_mutation,
}
use live_route.Store.{Db, Activity, ActivityWindow, TravelDelay, CommandKind}
use live_route.Accepted.Mutation.{
  AcceptedMutation, ActivityStatusMutation, ActivityDelayMutation, ReservationMutation,
  MandatoryDeadlineMutation, OperatingHoursMutation, PlaceFoundClosedMutation, TravelDelayMutation,
  OpenWindow,
}

-- WHERE trip_id = $1 AND id = $2
abbrev pub is_activity : String → String → Activity → Bool
is_activity trip_id id a = same a.trip_id trip_id && same a.id id

-- WHERE trip_id = $1 AND activity_id = $2
abbrev pub is_window : String → String → ActivityWindow → Bool
is_window trip_id id w = same w.trip_id trip_id && same w.activity_id id

abbrev pub is_delay : String → TravelDelayMutation → TravelDelay → Bool
is_delay trip_id v d =
    same d.trip_id trip_id
    && same d.from_activity_id v.from_activity_id
    && same d.to_activity_id v.to_activity_id

-- The SET clauses.
abbrev pub set_status : ActivityStatusMutation → Activity → Activity
set_status v a = record a { activity_state = v.state }

abbrev pub set_delay : ActivityDelayMutation → Activity → Activity
set_delay v a = record a { activity_delay_seconds = v.delay_seconds }

abbrev pub set_reservation : ReservationMutation → Activity → Activity
set_reservation v a = record a {
  reservation_start = v.reservation_start_unix_milliseconds;
  reservation_grace_seconds = v.reservation_grace_seconds;
}

abbrev pub set_deadline : MandatoryDeadlineMutation → Activity → Activity
set_deadline v a = record a { mandatory_deadline = some v.latest_finish_unix_milliseconds }

abbrev pub set_closed : PlaceFoundClosedMutation → Activity → Activity
set_closed v a = record a { found_closed_at = some v.observed_at_unix_milliseconds }

-- An UPDATE of one activity, with the test of RowsAffected.
unfoldable pub update_activity : Link → String → String → (Activity → Activity) → Db → Result Db
update_activity link trip_id id set db = do
  reach link apply_mutation
  guard (count_where (is_activity trip_id id) db.activities == 1) mutation_target_not_found
  ok (record db { activities = update_where (is_activity trip_id id) set db.activities })

abbrev pub window_row : String → String → ℕ → OpenWindow → ActivityWindow
window_row trip_id id index w = record {
  trip_id = trip_id;
  activity_id = id;
  window_index = index;
  opens_at = w.opens_at_unix_milliseconds;
  closes_at = w.closes_at_unix_milliseconds;
}

-- The rows that the loop inserts from an index on.
unfoldable pub window_rows : String → String → ℕ → List OpenWindow → List ActivityWindow
window_rows trip_id id index [] = []
window_rows trip_id id index (w ∷ ws) =
    window_row trip_id id index w ∷ window_rows trip_id id (index + 1) ws

-- The INSERTs of the loop, each of which may fail.
unfoldable pub insert_windows :
    Link
    → String
    → String
    → ℕ
    → List OpenWindow
    → List ActivityWindow
    → Result (List ActivityWindow)
insert_windows link trip_id id index [] stored = ok stored
insert_windows link trip_id id index (w ∷ ws) stored = do
  reach link insert_window
  insert_windows link trip_id id (index + 1) ws (stored ++ window_row trip_id id index w ∷ [])

unfoldable pub replace_windows : Link → String → OperatingHoursMutation → Db → Result Db
unfolding insert_windows
replace_windows link trip_id v db = do
  reach link find_activity
  guard (any_where (is_activity trip_id v.activity_id) db.activities) mutation_target_not_found
  reach link delete_windows
  stored ←
      insert_windows link trip_id v.activity_id 0 v.open_windows
        (delete_where (is_window trip_id v.activity_id) db.open_windows)
  ok (record db { open_windows = stored })

abbrev pub travel_delay_row : String → TravelDelayMutation → TravelDelay
travel_delay_row trip_id v = record {
  trip_id = trip_id;
  from_activity_id = v.from_activity_id;
  to_activity_id = v.to_activity_id;
  additional_seconds = v.additional_seconds;
  observed_at = v.observed_at_unix_milliseconds;
}

abbrev pub set_travel_delay : TravelDelayMutation → TravelDelay → TravelDelay
set_travel_delay v d = record d {
  additional_seconds = v.additional_seconds;
  observed_at = v.observed_at_unix_milliseconds;
}

-- INSERT … ON CONFLICT DO UPDATE. A missing activity violates a foreign key, which the driver reports.
unfoldable pub upsert_travel_delay : Link → String → TravelDelayMutation → Db → Result Db
upsert_travel_delay link trip_id v db = do
  reach link apply_mutation
  guard
      (any_where (is_activity trip_id v.from_activity_id) db.activities
        && any_where (is_activity trip_id v.to_activity_id) db.activities)
      (database apply_mutation)
  ok (record db {
    travel_delays =
        if any_where (is_delay trip_id v) db.travel_delays
        then update_where (is_delay trip_id v) (set_travel_delay v) db.travel_delays
        else db.travel_delays ++ travel_delay_row trip_id v ∷ [];
  })

-- A part of the mutation; the kind says which one is given, so that none is not met.
abbrev pub with_part : {A : Type 0} → Option A → (A → Result Db) → Result Db
with_part none f = err unsupported_mutation
with_part (some v) f = f v

unfoldable pub apply_accepted_mutation :
    Link → String → AcceptedMutation → CommandKind → Db → Result Db
unfolding update_activity replace_windows upsert_travel_delay
apply_accepted_mutation link trip_id m CommandKind.activity_status_changed db =
    with_part m.activity_status (λ v. update_activity link trip_id v.activity_id (set_status v) db)
apply_accepted_mutation link trip_id m CommandKind.activity_delayed db =
    with_part m.activity_delay (λ v. update_activity link trip_id v.activity_id (set_delay v) db)
apply_accepted_mutation link trip_id m CommandKind.reservation_changed db =
    with_part m.reservation (λ v. update_activity link trip_id v.activity_id (set_reservation v) db)
apply_accepted_mutation link trip_id m CommandKind.mandatory_deadline_changed db =
    with_part m.mandatory_deadline
      (λ v. update_activity link trip_id v.activity_id (set_deadline v) db)
apply_accepted_mutation link trip_id m CommandKind.operating_hours_changed db =
    with_part m.operating_hours (λ v. replace_windows link trip_id v db)
apply_accepted_mutation link trip_id m CommandKind.place_found_closed db =
    with_part m.place_found_closed
      (λ v. update_activity link trip_id v.activity_id (set_closed v) db)
apply_accepted_mutation link trip_id m CommandKind.travel_delay db =
    with_part m.travel_delay (λ v. upsert_travel_delay link trip_id v db)
apply_accepted_mutation link trip_id m _ db = err unsupported_mutation
