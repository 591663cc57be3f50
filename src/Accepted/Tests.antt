-- ===== src/Accepted/Tests.antt =====
-- Opening hours that are accepted once, and again.
use live_route.Base.{◌+◌, ◌≡◌, refl, false, none, some, [], ◌∷◌, pos, string_discrete}
use live_route.Base.Table.{find_where, update_where, delete_where, any_where}
use live_route.Base.Result.{ok, err, mutation_target_not_found, commit_as}
use live_route.Uuid.{valid_canonical_uuid, valid_scan}
use live_route.Store.{Db, Trip, Intent, Activity, ActivityWindow, DeliveryState, CommandKind}
use live_route.Fixture.{up, trip, intent, row, first_row, second_row, db}
use live_route.Proposal.{is_trip}
use live_route.Decision.Rows.{advance_decided}
use live_route.Terminal.{is_pending_intent}
use live_route.Terminal.Rows.{FinalizedCommand, resolve_outbox}
use live_route.Terminal.Replay.{as_duplicate}
use live_route.Accepted.{
  applied_command, apply_intent, write_accepted, accepted_write, accepted_first, accepted_rows,
  accepted_outbox, accepted_intent, accepted_trip, finalize_accepted_tx, finalize_accepted_mutation,
}
use live_route.Accepted.Mutation.{
  OperatingHoursMutation, FinalizeAcceptedMutationRequest, kind_text, kind_of_valid, mutation_kind,
  check_mutation, normalized, all_canonical, validate_accepted_mutation_request,
}
use live_route.Accepted.Apply.{window_row, insert_windows, replace_windows, apply_accepted_mutation}
use live_route.Accepted.Isolated.{
  IsIsolated, IsAdvanced, finalize_accepted_mutation-IsIsolated,
  finalize_accepted_mutation-IsAdvanced,
}
use live_route.Accepted.Hours.{StoresHours, finalize_accepted_mutation-StoresHours}
use live_route.Accepted.Replay.{finalize_accepted_mutation-again}

abbrev museum : Activity
museum = record {
  id = "0197f3a2-0000-7000-8000-000000000021";
  trip_id = "0197f3a2-0000-7000-8000-00000000000a";
  activity_state = "planned";
  activity_delay_seconds = 0;
  found_closed_at = none;
  reservation_start = none;
  reservation_grace_seconds = 0;
  mandatory_deadline = none;
}

abbrev hours : OperatingHoursMutation
hours = record {
  activity_id = museum.id;
  open_windows =
      record { opens_at_unix_milliseconds = pos 9_000; closes_at_unix_milliseconds = pos 12_000 }
      ∷ record { opens_at_unix_milliseconds = pos 13_000; closes_at_unix_milliseconds = pos 18_000 }
      ∷ [];
}

abbrev old_window : ActivityWindow
old_window =
    window_row museum.trip_id museum.id 0
      (record { opens_at_unix_milliseconds = pos 8_000; closes_at_unix_milliseconds = pos 20_000 })

abbrev opening : Intent
opening = record intent { command_kind = CommandKind.operating_hours_changed }

abbrev hours_db : Db
hours_db = record db {
  intents = opening ∷ [];
  activities = museum ∷ [];
  open_windows = old_window ∷ [];
}

abbrev request : FinalizeAcceptedMutationRequest
request = record {
  trip_id = trip.id;
  intent_id = intent.id;
  outbox_id = row.id;
  event_id = intent.event_id;
  mutation_sequence = 3;
  expected_trip_revision = 4;
  resulting_planner_state_version = 8;
  mutation = record {
    activity_status = none;
    activity_delay = none;
    reservation = none;
    mandatory_deadline = none;
    operating_hours = some hours;
    place_found_closed = none;
    travel_delay = none;
  };
  outcome_payload = some "{}";
}

abbrev accepted : FinalizedCommand
accepted = applied_command request 7_000 false

abbrev accepted_db : Db
accepted_db = record hours_db {
  trips = advance_decided 5 3 7_000 trip ∷ [];
  intents = apply_intent request 7_000 opening ∷ [];
  outbox = first_row ∷ second_row ∷ resolve_outbox DeliveryState.accepted "OK" 7_000 row ∷ [];
  open_windows =
      window_row trip.id museum.id 0 (record {
        opens_at_unix_milliseconds = pos 9_000;
        closes_at_unix_milliseconds = pos 12_000;
      })
      ∷ window_row trip.id museum.id 1 (record {
        opens_at_unix_milliseconds = pos 13_000;
        closes_at_unix_milliseconds = pos 18_000;
      })
      ∷ [];
}

accepts : finalize_accepted_mutation up 7_000 hours_db request ≡ (ok accepted, accepted_db)
unfolding finalize_accepted_mutation finalize_accepted_tx accepted_trip accepted_intent
    accepted_outbox accepted_rows accepted_first accepted_write is_pending_intent write_accepted
    validate_accepted_mutation_request kind_of_valid mutation_kind check_mutation normalized
    all_canonical kind_text apply_accepted_mutation replace_windows insert_windows
    valid_canonical_uuid valid_scan find_where update_where delete_where any_where commit_as
    string_discrete
accepts = refl

-- The same for an activity that the trip does not have.
misses :
    finalize_accepted_mutation up 7_000 (record hours_db { activities = [] }) request
    ≡ (err mutation_target_not_found, record hours_db { activities = [] })
unfolding finalize_accepted_mutation finalize_accepted_tx accepted_trip accepted_intent
    accepted_outbox accepted_rows accepted_first accepted_write is_pending_intent write_accepted
    validate_accepted_mutation_request kind_of_valid mutation_kind check_mutation normalized
    all_canonical kind_text apply_accepted_mutation replace_windows insert_windows
    valid_canonical_uuid valid_scan find_where update_where delete_where any_where commit_as
    string_discrete
misses = refl

finalize_accepted_mutation-IsIsolated_example : IsIsolated "other" hours_db accepted_db
unfolding string_discrete
finalize_accepted_mutation-IsIsolated_example =
    finalize_accepted_mutation-IsIsolated up 7_000 hours_db accepted_db request accepted "other"
      refl accepts

finalize_accepted_mutation-IsAdvanced_example :
    (t : Trip) × (find_where (is_trip request.trip_id) hours_db.trips ≡ some t)
    × (t.trip_revision ≡ 4)
    × (t.finalized_mutation_sequence + 1 ≡ 3)
    × IsAdvanced request 7_000 t accepted_db
finalize_accepted_mutation-IsAdvanced_example =
    finalize_accepted_mutation-IsAdvanced up 7_000 hours_db accepted_db request accepted accepts
      refl

finalize_accepted_mutation-StoresHours_example : StoresHours trip.id hours hours_db accepted_db
finalize_accepted_mutation-StoresHours_example =
    finalize_accepted_mutation-StoresHours up 7_000 hours_db accepted_db request accepted hours refl
      accepts refl

finalize_accepted_mutation-again_example :
    finalize_accepted_mutation up 9_000 accepted_db request
    ≡ (ok (as_duplicate accepted), accepted_db)
finalize_accepted_mutation-again_example =
    finalize_accepted_mutation-again up up 7_000 9_000 hours_db accepted_db request accepted
      (λ _. refl) accepts
