-- ===== src/Fixture.antt =====
-- Tables with one trip, for the tests of the modules on commands.
use live_route.Base.{false, none, some, [], ◌∷◌}
use live_route.Base.Result.{Link}
use live_route.Store.{
  Db, Trip, Intent, Outbox, IntentState, SyncState, DeliveryState, ApplicationOrder, CommandKind,
}

-- A driver that does not fail.
abbrev pub up : Link
up _ = false

abbrev pub trip : Trip
trip = record {
  id = "0197f3a2-0000-7000-8000-00000000000a";
  owner_user_id = "0197f3a2-0000-7000-8000-0000000000ff";
  trip_revision = 4;
  finalized_mutation_sequence = 2;
  next_mutation_sequence = 4;
  current_plan_id = "0197f3a2-0000-7000-8000-00000000000b";
  updated_at = 100;
}

-- A command that waits for the runtime.
abbrev pub intent : Intent
intent = record {
  id = "0197f3a2-0000-7000-8000-000000000001";
  trip_id = "0197f3a2-0000-7000-8000-00000000000a";
  message_id = "0197f3a2-0000-7000-8000-000000000002";
  event_id = "0197f3a2-0000-7000-8000-000000000003";
  mutation_sequence = 3;
  expected_trip_revision = 4;
  command_kind = CommandKind.activity_delayed;
  command_expires_at = none;
  application_order = ApplicationOrder.runtime_first;
  digest_algorithm = "rfc8785-sha256-v1";
  payload_digest = "0123456789abcdef0123456789abcdef";
  command_payload = "{}";
  planned_current_plan_id = none;
  planned_current_plan_payload = none;
  planned_current_plan_checksum_sha256 = none;
  state = IntentState.pending;
  outcome_status = none;
  outcome_payload = none;
  resulting_trip_revision = none;
  resulting_planner_state_version = none;
  resulting_current_plan_id = none;
  runtime_sync_state = SyncState.not_required;
  recorded_at = 90;
  finalized_at = none;
}

abbrev pub row : Outbox
row = record {
  id = "0197f3a2-0000-7000-8000-000000000004";
  command_intent_id = "0197f3a2-0000-7000-8000-000000000001";
  trip_id = "0197f3a2-0000-7000-8000-00000000000a";
  mutation_sequence = 3;
  event_schema_version = 1;
  event_payload = "{}";
  delivery_state = DeliveryState.pending;
  attempt_count = 1;
  next_attempt_at = 500;
  last_attempt_at = some 600;
  last_status = none;
  claim_owner = some "worker";
  claim_expires_at = some 9_000;
  finalization_confirmed_at = none;
  updated_at = 600;
}

-- Two commands of the trip that are finalized, the first of them confirmed.
abbrev pub first_row : Outbox
first_row = record row {
  id = "0197f3a2-0000-7000-8000-000000000005";
  mutation_sequence = 1;
  delivery_state = DeliveryState.accepted;
  finalization_confirmed_at = some 700;
}

abbrev pub second_row : Outbox
second_row = record row {
  id = "0197f3a2-0000-7000-8000-000000000006";
  mutation_sequence = 2;
  delivery_state = DeliveryState.terminal_rejected;
}

abbrev pub db : Db
db = record {
  trips = trip ∷ [];
  leases = [];
  proposals = [];
  intents = intent ∷ [];
  outbox = first_row ∷ second_row ∷ row ∷ [];
  activities = [];
  open_windows = [];
  travel_delays = [];
}
