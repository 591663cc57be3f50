-- ===== src/Decision/Stored.antt =====
-- The rows of a command before and after a proposal decision that is finalized for the first time.
use mathlib.Core.Path.{subst}
use live_route.Base.{
  ℕ, ◌+◌, ◌≡◌, refl, ap, ◌∙◌, ◌⊎◌, inl, inr, Bool, true, false, none, some, arith, if◌then◌else◌,
  Bool-cases,
}
use live_route.Base.Table.{find_where}
use live_route.Base.Result.{ok, Link}
use live_route.Store.{
  Db, Trip, Intent, Outbox, Proposal, IntentState, DeliveryState, is_pending_proposal,
}
use live_route.Proposal.{is_trip}
use live_route.Terminal.{is_pending_intent}
use live_route.Terminal.Rows.{FinalizedCommand, is_runtime_intent, is_outbox_of, resolve_outbox}
use live_route.Terminal.Resolved.{intent_updated, outbox_updated}
use live_route.Decision.{write_decision, finalize_proposal_decision}
use live_route.Decision.Rows.{
  FinalizeProposalDecisionRequest, is_decided, resolve_decision, outbox_state_of, status_of,
}
use live_route.Decision.Outcome.{finalize_proposal_decision-Decided}

module _ (r : FinalizeProposalDecisionRequest) (stale : Bool) where
  -- The command was pending and next in its trip, and what a rejection rejects was pending.
  pub record WasNext (db : Db) (trip : Trip) (intent : Intent) (outbox : Outbox)
      (proposal : Proposal) : Type 0 where
    pub trip_found : find_where (is_trip r.trip_id) db.trips ≡ some trip
    pub intent_found : find_where (is_runtime_intent r.intent_id r.trip_id) db.intents ≡ some intent
    pub outbox_found :
        find_where (is_outbox_of r.outbox_id r.intent_id r.trip_id) db.outbox ≡ some outbox
    pub proposal_found :
        find_where (is_decided (r.identity).proposal_id r.trip_id) db.proposals ≡ some proposal
    pub pending : is_pending_intent intent.state ≡ true
    pub at_revision : trip.trip_revision ≡ r.expected_trip_revision
    pub next : trip.finalized_mutation_sequence + 1 ≡ r.mutation_sequence
    pub decidable :
        (stale ≡ true)
        ⊎ ((is_pending_proposal proposal.state ≡ true)
            × (proposal.source_trip_revision ≡ r.expected_trip_revision))

  -- The command holds the outcome of the decision, and its row in the outbox is settled.
  pub record IsStored (now : ℕ) (db : Db) (intent : Intent) (outbox : Outbox) : Type 0 where
    pub intent_row :
        find_where (is_runtime_intent r.intent_id r.trip_id) db.intents
        ≡ some (record intent {
          state = if stale then IntentState.rejected else IntentState.applied;
          outcome_status = some (if stale then "STALE" else "OK");
          outcome_payload = r.outcome_payload;
          resulting_trip_revision =
              some (if stale then r.expected_trip_revision else r.expected_trip_revision + 1);
          resulting_planner_state_version = some r.resulting_planner_state_version;
          finalized_at = some now;
        })
    pub outbox_row :
        find_where (is_outbox_of r.outbox_id r.intent_id r.trip_id) db.outbox
        ≡ some (record outbox {
          delivery_state =
              if stale then DeliveryState.terminal_rejected else DeliveryState.accepted;
          last_status = some (if stale then "STALE" else "OK");
          claim_owner = none;
          claim_expires_at = none;
          updated_at = now;
        })

resolved_intent :
    (r : FinalizeProposalDecisionRequest) (stale : Bool) (now : ℕ) (intent : Intent)
    → resolve_decision r stale now intent ≡ record intent {
      state = if stale then IntentState.rejected else IntentState.applied;
      outcome_status = some (if stale then "STALE" else "OK");
      outcome_payload = r.outcome_payload;
      resulting_trip_revision =
          some (if stale then r.expected_trip_revision else r.expected_trip_revision + 1);
      resulting_planner_state_version = some r.resulting_planner_state_version;
      finalized_at = some now;
    }
resolved_intent r true now intent = refl
resolved_intent r false now intent = refl

settled_row :
    (stale : Bool) (now : ℕ) (outbox : Outbox)
    → resolve_outbox (outbox_state_of stale) (status_of stale) now outbox ≡ record outbox {
      delivery_state = if stale then DeliveryState.terminal_rejected else DeliveryState.accepted;
      last_status = some (if stale then "STALE" else "OK");
      claim_owner = none;
      claim_expires_at = none;
      updated_at = now;
    }
settled_row true now outbox = refl
settled_row false now outbox = refl

written-IsStored :
    (r : FinalizeProposalDecisionRequest) (stale : Bool) (now : ℕ) (db : Db) (intent : Intent)
    (outbox : Outbox) (proposal : Proposal)
    → find_where (is_runtime_intent r.intent_id r.trip_id) db.intents ≡ some intent
    → find_where (is_outbox_of r.outbox_id r.intent_id r.trip_id) db.outbox ≡ some outbox
    → IsStored r stale now (write_decision r stale now intent proposal db) intent outbox
unfolding write_decision
written-IsStored r stale now db intent outbox proposal ei eo = record {
  intent_row =
      intent_updated r.intent_id r.trip_id (resolve_decision r stale now) db.intents intent
        (λ x. refl) ei
      ∙ ap (λ i. some i) (resolved_intent r stale now intent);
  outbox_row =
      outbox_updated r.outbox_id r.intent_id r.trip_id
        (resolve_outbox (outbox_state_of stale) (status_of stale) now) db.outbox outbox (λ x. refl)
        eo
      ∙ ap (λ o. some o) (settled_row stale now outbox);
}

-- A proposal decision that is finalized for the first time found the command pending, next in its
-- trip and at the trip's revision; a rejection also found the proposal pending and of this revision.
-- After it the command is applied with status OK for a rejection, and rejected with status STALE for
-- a stale decision, with the payload, the planner version and the resulting revision, which is one
-- more for a rejection and the same for a stale decision; its outbox row is accepted or terminally
-- rejected with this status, and free of its claim.
pub finalize_proposal_decision-Stored :
    (link : Link) (now : ℕ) (db db' : Db) (r : FinalizeProposalDecisionRequest) (stale : Bool)
    (res : FinalizedCommand)
    → finalize_proposal_decision link now db r stale ≡ (ok res, db')
    → res.duplicate ≡ false
    → (trip : Trip) × (intent : Intent) × (outbox : Outbox) × (proposal : Proposal) × WasNext r
        stale db trip intent outbox proposal
      × IsStored r stale now db' intent outbox
finalize_proposal_decision-Stored link now db db' r stale res h fresh =
    let d = finalize_proposal_decision-Decided link now db db' r stale res h in
    elim d.how [
      | inl a ↦ absurd (ground (arith, a.result))
      | inr f ↦ (
        d.trip,
        d.intent,
        d.outbox,
        d.proposal,
        record {
          trip_found = d.trip_found;
          intent_found = d.intent_found;
          outbox_found = d.outbox_found;
          proposal_found = d.proposal_found;
          pending = f.unresolved;
          at_revision = f.at_revision ∙ d.revision;
          next = f.next ∙ d.sequence;
          decidable = elim (Bool-cases stale) [
            | inl e ↦ inl e
            | inr e ↦
                inr ((ground (arith, e, f.undecided)), (ground (arith, e, f.fresh, d.revision)))
          ];
        },
        subst (λ (x : Db). IsStored r stale now x d.intent d.outbox) f.written
            (written-IsStored r stale now db d.intent d.outbox d.proposal d.intent_found
              d.outbox_found),
      )
    ]
