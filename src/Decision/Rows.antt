-- ===== src/Decision/Rows.antt =====
-- What the finalizers of backend/internal/persistence/proposal_decisions.go are asked for, their
-- validation, and the rows that their updates write.
use live_route.Base.{
  ℕ, ◌+◌, String, Bool, true, false, ◌&&◌, ◌||◌, not, Option, none, some, List, ltb, ◌==◌,
  if◌then◌else◌, same,
}
use live_route.Base.Table.{update_where}
use live_route.Base.Result.{Result, ◌>>◌, guard, invalid_input}
use live_route.Uuid.{valid_canonical_uuid}
use live_route.Store.{
  Trip, Intent, Proposal, ProposalState, IntentState, DeliveryState, CommandKind,
  is_pending_proposal,
}
use live_route.Lease.{max_int64}
use live_route.Terminal.Rows.{FinalizedCommand, is_json, has_text}

pub record ProposalDecisionIdentity : Type 0 where
  pub proposal_id : String
  pub source_runtime_epoch : ℕ
  pub source_planner_state_version : ℕ
  pub base_current_plan_id : String

pub record FinalizeProposalDecisionRequest : Type 0 where
  pub trip_id : String
  pub intent_id : String
  pub outbox_id : String
  pub event_id : String
  pub mutation_sequence : ℕ
  pub expected_trip_revision : ℕ
  pub resulting_planner_state_version : ℕ
  pub identity : ProposalDecisionIdentity
  pub outcome_payload : Option String

unfoldable pub validate_proposal_decision : FinalizeProposalDecisionRequest → Result (Unit {0})
validate_proposal_decision r = do
  guard
      (valid_canonical_uuid r.trip_id
        && valid_canonical_uuid r.intent_id
        && valid_canonical_uuid r.outbox_id
        && valid_canonical_uuid r.event_id
        && valid_canonical_uuid (r.identity).proposal_id
        && valid_canonical_uuid (r.identity).base_current_plan_id)
      invalid_input
  guard
      (not (
        ltb max_int64 r.mutation_sequence
        || ltb max_int64 r.expected_trip_revision
        || ltb max_int64 r.resulting_planner_state_version
        || ltb max_int64 (r.identity).source_runtime_epoch
        || ltb max_int64 (r.identity).source_planner_state_version))
      invalid_input
  guard
      (not (
        r.mutation_sequence == 0
        || (r.identity).source_runtime_epoch == 0
        || not (is_json r.outcome_payload)))
      invalid_input

-- What the code asks for, by the flag `stale`.
abbrev pub status_of : Bool → String
status_of true = "STALE"
status_of false = "OK"

abbrev pub intent_state_of : Bool → IntentState
intent_state_of true = IntentState.rejected
intent_state_of false = IntentState.applied

abbrev pub outbox_state_of : Bool → DeliveryState
outbox_state_of true = DeliveryState.terminal_rejected
outbox_state_of false = DeliveryState.accepted

abbrev pub proposal_state_of : Bool → ProposalState
proposal_state_of true = ProposalState.stale
proposal_state_of false = ProposalState.rejected

abbrev pub revision_of : Bool → ℕ → ℕ
revision_of true expected = expected
revision_of false expected = expected + 1

abbrev pub is_reject : CommandKind → Bool
is_reject CommandKind.reject_proposal = true
is_reject _ = false

abbrev is_stale_proposal : ProposalState → Bool
is_stale_proposal ProposalState.stale = true
is_stale_proposal _ = false

abbrev is_rejected_proposal : ProposalState → Bool
is_rejected_proposal ProposalState.rejected = true
is_rejected_proposal _ = false

abbrev is_null : Option String → Bool
is_null none = true
is_null (some _) = false

-- proposalMatches
unfoldable pub decision_is_stored : Bool → Intent → Proposal → Bool
decision_is_stored false i p =
    is_rejected_proposal p.state && has_text p.decision_message_id i.message_id
decision_is_stored true i p =
    if is_pending_proposal p.state || is_stale_proposal p.state
    then is_stale_proposal p.state && has_text p.decision_message_id i.message_id
    else is_null p.decision_message_id || has_text p.decision_message_id i.message_id

abbrev pub is_decided : String → String → Proposal → Bool
is_decided proposal_id trip_id p = same p.id proposal_id && same p.trip_id trip_id

abbrev pub decided_command : FinalizeProposalDecisionRequest → Bool → ℕ → Bool → FinalizedCommand
decided_command r stale time duplicate = record {
  intent_id = r.intent_id;
  outbox_id = r.outbox_id;
  trip_id = r.trip_id;
  event_id = r.event_id;
  mutation_sequence = r.mutation_sequence;
  state = intent_state_of stale;
  status = status_of stale;
  resulting_trip_revision = revision_of stale r.expected_trip_revision;
  resulting_planner_state_version = r.resulting_planner_state_version;
  finalized_at = time;
  duplicate = duplicate;
}

abbrev pub decide : Bool → String → ℕ → Proposal → Proposal
decide stale message_id now p = record p {
  state = proposal_state_of stale;
  decision_message_id = some message_id;
  decided_at = some now;
}

abbrev pub advance_decided : ℕ → ℕ → ℕ → Trip → Trip
advance_decided revision sequence now t = record t {
  trip_revision = revision;
  finalized_mutation_sequence = sequence;
  updated_at = now;
}

abbrev pub resolve_decision : FinalizeProposalDecisionRequest → Bool → ℕ → Intent → Intent
resolve_decision r stale now i = record i {
  state = intent_state_of stale;
  outcome_status = some (status_of stale);
  outcome_payload = r.outcome_payload;
  resulting_trip_revision = some (revision_of stale r.expected_trip_revision);
  resulting_planner_state_version = some r.resulting_planner_state_version;
  finalized_at = some now;
}

-- !stale || proposalState == "pending"
unfoldable pub resolves : Bool → Proposal → Bool
resolves stale p = not stale || is_pending_proposal p.state

abbrev pub decide_if :
    Bool → (Proposal → Bool) → (Proposal → Proposal) → List Proposal → List Proposal
decide_if true p f ps = update_where p f ps
decide_if false p f ps = ps
