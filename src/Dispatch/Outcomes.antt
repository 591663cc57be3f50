-- ===== src/Dispatch/Outcomes.antt =====
-- The finalizer by the calls of its store.
use live_route.Base.{ℕ, String, ◌&&◌, Option, none, some, ◌≡◌, refl, both_branches}
use live_route.Base.Result.{Result, Error, ok, err}
use live_route.Decision.Rows.{FinalizeProposalDecisionRequest}
use live_route.Terminal.Rows.{FinalizedCommand, FinalizeTerminalCommandRequest}
use live_route.Accepted.Mutation.{AcceptedMutation, FinalizeAcceptedMutationRequest}
use live_route.Delivery.Claims.{ClaimedOutboxRow}
use live_route.Wire.{
  ApplyTripEvent, PlanDecision, PlanDecisionEvent, PlannerStreamResponse, EventAcknowledged,
  get_plan_decision,
}
use live_route.Dispatch.Events.{is_accepted, terminal_status, status_name}
use live_route.Dispatch.Finalizer.{
  RuntimeCommandStore, accepted_mutation, decided_accepted, mutated_accepted, accepted_with,
  accepted_outcome, finalize_accepted, rejected_with, rejected_outcome, finalize_rejected, finalize,
  is_stale, is_plan_proposal,
}

-- Finalize fails, or is one call of the store on the row.
module _ {S : Type 0} (stable_outcome : String → String → ℕ → Result String)
    (store : RuntimeCommandStore S) (P : Result FinalizedCommand × S → Type 0)
    (row : ClaimedOutboxRow) (s : S) (failed : (e : Error) → P (err e, s))
    (mutated : (q : FinalizeAcceptedMutationRequest)
      → q.outbox_id ≡ row.id
      → P (store.finalize_accepted_mutation q s))
    (accepted : (q : FinalizeProposalDecisionRequest)
      → q.outbox_id ≡ row.id
      → P (store.finalize_proposal_acceptance q s))
    (rejected : (q : FinalizeProposalDecisionRequest)
      → q.outbox_id ≡ row.id
      → P (store.finalize_proposal_rejection q s))
    (stale : (q : FinalizeProposalDecisionRequest)
      → q.outbox_id ≡ row.id
      → P (store.finalize_stale_proposal_decision q s))
    (terminal : (q : FinalizeTerminalCommandRequest)
      → q.outbox_id ≡ row.id
      → P (store.finalize_terminal q s)) where
  mutated_cases :
      (version : ℕ) (outcome : String) (m : Result AcceptedMutation)
      → P (mutated_accepted stable_outcome store row version outcome m s)
  mutated_cases version outcome (err e) = failed e
  mutated_cases version outcome (ok m) = mutated _ refl

  decided_cases :
      (d : PlanDecision) (q : FinalizeProposalDecisionRequest)
      → q.outbox_id ≡ row.id
      → P (decided_accepted stable_outcome store d q s)
  decided_cases PlanDecision.accept q e = accepted q e
  decided_cases PlanDecision.reject q e = rejected q e
  decided_cases PlanDecision.unspecified q e = failed _

  module _ (event : ApplyTripEvent) where
    accepted_with_cases :
        (version : ℕ) (outcome : String) (d : Option PlanDecisionEvent)
        → P (accepted_with stable_outcome store row event version outcome d s)
    accepted_with_cases version outcome none =
        mutated_cases version outcome (accepted_mutation event)
    accepted_with_cases version outcome (some d) = decided_cases d.decision _ refl

    accepted_cases :
        (version : ℕ) (outcome : Result String)
        → P (accepted_outcome stable_outcome store row event version outcome s)
    accepted_cases version (err e) = failed e
    accepted_cases version (ok outcome) =
        accepted_with_cases version outcome (get_plan_decision event)

    rejected_with_cases :
        (version : ℕ) (ack : EventAcknowledged) (status outcome : String)
        (d : Option PlanDecisionEvent)
        → P (rejected_with stable_outcome store row version ack status outcome d s)
    rejected_with_cases version ack status outcome none = terminal _ refl
    rejected_with_cases version ack status outcome (some d) =
        both_branches P (is_stale ack.status && is_plan_proposal ack.stale_reason)
          (λ _. stale _ refl) (λ _. terminal _ refl)

    rejected_cases :
        (version : ℕ) (ack : EventAcknowledged) (status : String) (outcome : Result String)
        → P (rejected_outcome stable_outcome store row event version ack status outcome s)
    rejected_cases version ack status (err e) = failed e
    rejected_cases version ack status (ok outcome) =
        rejected_with_cases version ack status outcome (get_plan_decision event)

    terminal_cases :
        (version : ℕ) (ack : EventAcknowledged) (status : Option String)
        → P (finalize_rejected stable_outcome store row event version ack status s)
    terminal_cases version ack none = failed _
    terminal_cases version ack (some status) =
        rejected_cases version ack status
          (stable_outcome row.event_id (status_name ack.status) version)

    pub finalize_cases :
        (r : PlannerStreamResponse) (ack : EventAcknowledged)
        → P (finalize stable_outcome store row event r ack s)
    unfolding finalize finalize_accepted
    finalize_cases r ack =
        both_branches P (is_accepted ack.disposition)
          (λ _.
            accepted_cases r.planner_state_version
              (stable_outcome row.event_id "OK" r.planner_state_version))
          (λ _. terminal_cases r.planner_state_version ack (terminal_status ack.status))
