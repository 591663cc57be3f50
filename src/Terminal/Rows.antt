-- ===== src/Terminal/Rows.antt =====
-- What FinalizeTerminal of backend/internal/persistence/command_finalization.go is asked for, its
-- validation, its queries and the rows that its updates write. A JSON payload is its jsonb normal
-- form, or none when it is not valid JSON.
use live_route.Base.{
  ℕ, String, Bool, true, false, ◌&&◌, ◌||◌, not, Option, none, some, ltb, ◌==◌, if◌then◌else◌, same,
}
use live_route.Base.Result.{Result, ok, err, ◌>>◌, guard, database, invalid_input, compare_payload}
use live_route.Uuid.{valid_canonical_uuid}
use live_route.Store.{
  Trip, Intent, Outbox, IntentState, DeliveryState, ApplicationOrder, CommandKind,
}
use live_route.Lease.{max_int64}

pub record FinalizeTerminalCommandRequest : Type 0 where
  pub trip_id : String
  pub intent_id : String
  pub outbox_id : String
  pub event_id : String
  pub mutation_sequence : ℕ
  pub expected_trip_revision : ℕ
  pub resulting_planner_state_version : ℕ
  pub status : String
  pub outcome_payload : Option String

pub record FinalizedCommand : Type 0 where
  pub intent_id : String
  pub outbox_id : String
  pub trip_id : String
  pub event_id : String
  pub mutation_sequence : ℕ
  pub state : IntentState
  pub status : String
  pub resulting_trip_revision : ℕ
  pub resulting_planner_state_version : ℕ
  pub finalized_at : ℕ
  pub duplicate : Bool

-- TerminalStatus.valid
unfoldable pub terminal_status_valid : String → Bool
terminal_status_valid status =
    same status "STALE"
    || same status "INVALID_ARGUMENT"
    || same status "NOT_FOUND"
    || same status "COMMAND_EXPIRED"
    || same status "INFEASIBLE"

abbrev pub is_json : Option String → Bool
is_json none = false
is_json (some _) = true

unfoldable pub validate_terminal_finalization : FinalizeTerminalCommandRequest → Result (Unit {0})
unfolding terminal_status_valid
validate_terminal_finalization r = do
  guard
      (valid_canonical_uuid r.trip_id
        && valid_canonical_uuid r.intent_id
        && valid_canonical_uuid r.outbox_id
        && valid_canonical_uuid r.event_id)
      invalid_input
  guard
      (not (
        r.mutation_sequence == 0
        || ltb max_int64 r.mutation_sequence
        || ltb max_int64 r.expected_trip_revision
        || ltb max_int64 r.resulting_planner_state_version))
      invalid_input
  guard (terminal_status_valid r.status) invalid_input
  guard (is_json r.outcome_payload) invalid_input

abbrev pub terminal_intent_state : String → IntentState
terminal_intent_state status =
    if same status "COMMAND_EXPIRED" then IntentState.expired else IntentState.rejected

-- Equality of the texts of a state column.
abbrev pub same_intent_state : IntentState → IntentState → Bool
same_intent_state IntentState.pending IntentState.pending = true
same_intent_state IntentState.applied IntentState.applied = true
same_intent_state IntentState.rejected IntentState.rejected = true
same_intent_state IntentState.expired IntentState.expired = true
same_intent_state _ _ = false

abbrev pub same_delivery_state : DeliveryState → DeliveryState → Bool
same_delivery_state DeliveryState.pending DeliveryState.pending = true
same_delivery_state DeliveryState.paused_internal DeliveryState.paused_internal = true
same_delivery_state DeliveryState.accepted DeliveryState.accepted = true
same_delivery_state DeliveryState.terminal_rejected DeliveryState.terminal_rejected = true
same_delivery_state _ _ = false

abbrev pub is_runtime_first : ApplicationOrder → Bool
is_runtime_first ApplicationOrder.runtime_first = true
is_runtime_first ApplicationOrder.canonical_first = false

abbrev pub is_decision : CommandKind → Bool
is_decision CommandKind.accept_proposal = true
is_decision CommandKind.reject_proposal = true
is_decision _ = false

-- A nullable column that is not null and has the value.
abbrev pub has_text : Option String → String → Bool
has_text none s = false
has_text (some t) s = same t s

abbrev pub has_number : Option ℕ → ℕ → Bool
has_number none n = false
has_number (some m) n = m == n

abbrev pub is_set : Option ℕ → Bool
is_set none = false
is_set (some _) = true

abbrev pub time_of : Option ℕ → ℕ
time_of none = 0
time_of (some t) = t

abbrev pub text_of : Option String → String
text_of none = ""
text_of (some s) = s

-- SELECT outcome_payload = $2::jsonb, scanned into a bool, which fails on NULL.
abbrev pub payload_matches : Option String → Option String → Result Bool
payload_matches none given = err (database compare_payload)
payload_matches (some stored) none = err (database compare_payload)
payload_matches (some stored) (some given) = ok (same stored given)

abbrev pub is_runtime_intent : String → String → Intent → Bool
is_runtime_intent intent_id trip_id i =
    same i.id intent_id && same i.trip_id trip_id && is_runtime_first i.application_order

abbrev pub is_outbox_of : String → String → String → Outbox → Bool
is_outbox_of outbox_id intent_id trip_id o =
    same o.id outbox_id && same o.command_intent_id intent_id && same o.trip_id trip_id

abbrev pub finalized_command :
    FinalizeTerminalCommandRequest → IntentState → String → ℕ → ℕ → Bool → FinalizedCommand
finalized_command r state status revision time duplicate = record {
  intent_id = r.intent_id;
  outbox_id = r.outbox_id;
  trip_id = r.trip_id;
  event_id = r.event_id;
  mutation_sequence = r.mutation_sequence;
  state = state;
  status = status;
  resulting_trip_revision = revision;
  resulting_planner_state_version = r.resulting_planner_state_version;
  finalized_at = time;
  duplicate = duplicate;
}

abbrev pub has_intent_id : String → Intent → Bool
has_intent_id intent_id i = same i.id intent_id

abbrev pub has_outbox_id : String → Outbox → Bool
has_outbox_id outbox_id o = same o.id outbox_id

abbrev pub advance : ℕ → ℕ → Trip → Trip
advance sequence now t = record t { finalized_mutation_sequence = sequence; updated_at = now }

abbrev pub resolve_intent : FinalizeTerminalCommandRequest → ℕ → ℕ → Intent → Intent
resolve_intent r revision now i = record i {
  state = terminal_intent_state r.status;
  outcome_status = some r.status;
  outcome_payload = r.outcome_payload;
  resulting_trip_revision = some revision;
  resulting_planner_state_version = some r.resulting_planner_state_version;
  finalized_at = some now;
}

abbrev pub resolve_outbox : DeliveryState → String → ℕ → Outbox → Outbox
resolve_outbox state status now o = record o {
  delivery_state = state;
  last_status = some status;
  claim_owner = none;
  claim_expires_at = none;
  updated_at = now;
}
