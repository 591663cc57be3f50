-- ===== src/Decision.antt =====
-- FinalizeProposalRejection and FinalizeStaleProposalDecision of
-- backend/internal/persistence/proposal_decisions.go, on the tables and helpers of Terminal.
pub mod Rows
pub mod Outcome
pub mod Settled
pub mod Stored
mod Tests
use live_route.Base.{
  ℕ, ◌+◌, ◌-◌, ◌^◌, String, Bool, true, false, ◌&&◌, ◌||◌, not, Option, none, some, List, ltb, ◌==◌,
  if◌then◌else◌, same,
}
use live_route.Base.Table.{find_where, update_where}
use live_route.Base.Result.{
  Result, ok, err, ◌>>=◌, ◌>>◌, guard, Link, reach, transact, commit_as, invalid_input,
  trip_not_found, command_not_found, command_finalization_conflict,
  command_finalization_out_of_order, proposal_stale, trip_revision_stale, begin, lock_trip,
  read_intent, read_outbox, read_proposals, read_clock, compare_payload, write_proposals,
  write_trip, write_intent, write_outbox,
}
use live_route.Uuid.{valid_canonical_uuid}
use live_route.Store.{
  Db, Trip, Intent, Outbox, Proposal, ProposalState, IntentState, DeliveryState, CommandKind,
  is_pending_proposal,
}
use live_route.Lease.{max_int64}
use live_route.Proposal.{is_trip}
use live_route.Terminal.{is_pending_intent}
use live_route.Terminal.Rows.{
  FinalizedCommand, is_json, is_decision, has_text, has_number, is_set, time_of, payload_matches,
  same_intent_state, same_delivery_state, is_runtime_intent, is_outbox_of, has_intent_id,
  has_outbox_id, resolve_outbox,
}
use live_route.Decision.Rows.{
  ProposalDecisionIdentity, FinalizeProposalDecisionRequest, validate_proposal_decision, status_of,
  intent_state_of, outbox_state_of, proposal_state_of, revision_of, is_reject, decision_is_stored,
  is_decided, decided_command, decide, advance_decided, resolve_decision, resolves, decide_if,
}

-- The UPDATEs of a first decision.
unfoldable pub write_decision :
    FinalizeProposalDecisionRequest → Bool → ℕ → Intent → Proposal → Db → Db
unfolding resolves
write_decision r stale now i p db = record db {
  proposals =
      decide_if (resolves stale p) (λ (q : Proposal). same q.id (r.identity).proposal_id)
        (decide stale i.message_id now) db.proposals;
  trips =
      update_where (is_trip r.trip_id)
        (advance_decided (revision_of stale r.expected_trip_revision) i.mutation_sequence now)
        db.trips;
  intents = update_where (has_intent_id r.intent_id) (resolve_decision r stale now) db.intents;
  outbox =
      update_where (has_outbox_id r.outbox_id)
        (resolve_outbox (outbox_state_of stale) (status_of stale) now) db.outbox;
}

unfoldable pub outcome_matches : FinalizeProposalDecisionRequest → Bool → Intent → Outbox → Bool
outcome_matches r stale i o =
    same_intent_state i.state (intent_state_of stale)
    && has_text i.outcome_status (status_of stale)
    && has_number i.resulting_trip_revision (revision_of stale r.expected_trip_revision)
    && has_number i.resulting_planner_state_version r.resulting_planner_state_version
    && is_set i.finalized_at
    && same_delivery_state o.delivery_state (outbox_state_of stale)

pub decision_again :
    Link
    → Db
    → FinalizeProposalDecisionRequest
    → Bool
    → Intent
    → Outbox
    → Proposal
    → Result (FinalizedCommand × Db)
decision_again link db r stale i o p = do
  reach link compare_payload
  matches ← payload_matches i.outcome_payload r.outcome_payload
  guard (outcome_matches r stale i o && decision_is_stored stale i p && matches)
      command_finalization_conflict
  commit_as link (decided_command r stale (time_of i.finalized_at) true) db

-- The proposal is written only if the code resolves it.
abbrev guarded_reach : Bool → Link → Result (Unit {0})
guarded_reach true link = reach link write_proposals
guarded_reach false link = ok tt

pub decision_first :
    Link
    → ℕ
    → Db
    → FinalizeProposalDecisionRequest
    → Bool
    → Trip
    → Intent
    → Proposal
    → Result (FinalizedCommand × Db)
decision_first link now db r stale trip i p = do
  guard
      (trip.trip_revision == i.expected_trip_revision
        && (stale || same trip.current_plan_id (r.identity).base_current_plan_id))
      trip_revision_stale
  guard
      (not (
        trip.finalized_mutation_sequence == max_int64
        || not (trip.finalized_mutation_sequence + 1 == i.mutation_sequence)))
      command_finalization_out_of_order
  guard (stale || is_pending_proposal p.state) proposal_stale
  guard (stale || p.source_trip_revision == i.expected_trip_revision) proposal_stale
  reach link read_clock
  guarded_reach (resolves stale p) link
  reach link write_trip
  reach link write_intent
  reach link write_outbox
  commit_as link (decided_command r stale now false) (write_decision r stale now i p db)

-- The part of the transaction after the four rows are locked.
pub decision_rows :
    Link
    → ℕ
    → Db
    → FinalizeProposalDecisionRequest
    → Bool
    → Trip
    → Intent
    → Outbox
    → Proposal
    → Result (FinalizedCommand × Db)
unfolding decision_again decision_first
decision_rows link now db r stale trip i o p = do
  guard
      (same i.event_id r.event_id
        && i.mutation_sequence == r.mutation_sequence
        && i.expected_trip_revision == r.expected_trip_revision
        && p.source_runtime_epoch == (r.identity).source_runtime_epoch
        && p.source_planner_state_version == (r.identity).source_planner_state_version
        && same p.base_current_plan_id (r.identity).base_current_plan_id)
      command_finalization_conflict
  guard (is_decision i.command_kind) command_finalization_conflict
  guard (stale || is_reject i.command_kind) command_finalization_conflict
  elim (is_pending_intent i.state) [
    | true ↦ decision_first link now db r stale trip i p
    | false ↦ decision_again link db r stale i o p
  ]

-- The locks of the four rows, each of which may be missing.
pub decision_locked :
    Link
    → ℕ
    → Db
    → FinalizeProposalDecisionRequest
    → Bool
    → Option Trip
    → Option Intent
    → Option Outbox
    → Option Proposal
    → Result (FinalizedCommand × Db)
unfolding decision_rows
decision_locked link now db r stale none i o p = err trip_not_found
decision_locked link now db r stale (some trip) none o p = do
  reach link read_intent
  err command_not_found
decision_locked link now db r stale (some trip) (some i) none p = do
  reach link read_intent
  reach link read_outbox
  err command_not_found
decision_locked link now db r stale (some trip) (some i) (some o) none = do
  reach link read_intent
  reach link read_outbox
  reach link read_proposals
  err proposal_stale
decision_locked link now db r stale (some trip) (some i) (some o) (some p) = do
  reach link read_intent
  reach link read_outbox
  reach link read_proposals
  decision_rows link now db r stale trip i o p

pub decision_tx :
    Link → ℕ → Db → FinalizeProposalDecisionRequest → Bool → Result (FinalizedCommand × Db)
unfolding decision_locked validate_proposal_decision
decision_tx link now db r stale = do
  validate_proposal_decision r
  reach link begin
  reach link lock_trip
  decision_locked link now db r stale (find_where (is_trip r.trip_id) db.trips)
      (find_where (is_runtime_intent r.intent_id r.trip_id) db.intents)
      (find_where (is_outbox_of r.outbox_id r.intent_id r.trip_id) db.outbox)
      (find_where (is_decided (r.identity).proposal_id r.trip_id) db.proposals)

unfoldable pub finalize_proposal_decision :
    Link → ℕ → Db → FinalizeProposalDecisionRequest → Bool → Result FinalizedCommand × Db
unfolding decision_tx write_decision outcome_matches decision_is_stored
finalize_proposal_decision link now db r stale = transact db (decision_tx link now db r stale)

abbrev pub unless_exhausted :
    Bool → Db → Result FinalizedCommand × Db → Result FinalizedCommand × Db
unless_exhausted true db rest = (err invalid_input, db)
unless_exhausted false db rest = rest

unfoldable pub finalize_proposal_rejection :
    Link → ℕ → Db → FinalizeProposalDecisionRequest → Result FinalizedCommand × Db
unfolding finalize_proposal_decision
finalize_proposal_rejection link now db r =
    unless_exhausted (r.expected_trip_revision == max_int64) db
      (finalize_proposal_decision link now db r false)

unfoldable pub finalize_stale_proposal_decision :
    Link → ℕ → Db → FinalizeProposalDecisionRequest → Result FinalizedCommand × Db
unfolding finalize_proposal_decision
finalize_stale_proposal_decision link now db r = finalize_proposal_decision link now db r true
