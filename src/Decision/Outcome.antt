-- ===== src/Decision/Outcome.antt =====
-- What the finalization of a proposal decision found and wrote when it succeeds.
use live_route.Base.{
  ℕ, ◌+◌, ◌≡◌, refl, ◌⊎◌, inl, inr, Bool, true, false, ◌||◌, Option, none, some, arith, ◌==◌,
  Bool-cases,
}
use live_route.Base.Table.{find_where}
use live_route.Base.Result.{ok, Link, transact_ok, commit_as_ok}
use live_route.Store.{Db, Trip, Intent, Outbox, Proposal, is_pending_proposal}
use live_route.Proposal.{is_trip}
use live_route.Terminal.{is_pending_intent}
use live_route.Terminal.Rows.{FinalizedCommand, is_runtime_intent, is_outbox_of, time_of}
use live_route.Decision.{
  outcome_matches, write_decision, decision_again, decision_first, decision_rows, decision_locked,
  decision_tx, finalize_proposal_decision,
}
use live_route.Decision.Rows.{
  FinalizeProposalDecisionRequest, decided_command, is_decided, decision_is_stored,
}

module _ (link : Link) (now : ℕ) (db db' : Db) (r : FinalizeProposalDecisionRequest) (stale : Bool)
    (res : FinalizedCommand) where
  -- The decision was finalized before with this outcome.
  pub record Again (i : Intent) (o : Outbox) (p : Proposal) : Type 0 where
    pub resolved : is_pending_intent i.state ≡ false
    pub stored : outcome_matches r stale i o ≡ true
    pub decided : decision_is_stored stale i p ≡ true
    pub result : decided_command r stale (time_of i.finalized_at) true ≡ res
    pub unchanged : db ≡ db'

  -- The decision is the next command of its trip.
  pub record First (trip : Trip) (i : Intent) (p : Proposal) : Type 0 where
    pub unresolved : is_pending_intent i.state ≡ true
    pub at_revision : trip.trip_revision ≡ i.expected_trip_revision
    pub next : trip.finalized_mutation_sequence + 1 ≡ i.mutation_sequence
    pub undecided : (stale || is_pending_proposal p.state) ≡ true
    pub fresh : (stale || p.source_trip_revision == i.expected_trip_revision) ≡ true
    pub result : decided_command r stale now false ≡ res
    pub written : write_decision r stale now i p db ≡ db'

  -- The rows that were locked.
  pub record Decided : Type 0 where
    pub trip : Trip
    pub intent : Intent
    pub outbox : Outbox
    pub proposal : Proposal
    pub trip_found : find_where (is_trip r.trip_id) db.trips ≡ some trip
    pub intent_found : find_where (is_runtime_intent r.intent_id r.trip_id) db.intents ≡ some intent
    pub outbox_found :
        find_where (is_outbox_of r.outbox_id r.intent_id r.trip_id) db.outbox ≡ some outbox
    pub proposal_found :
        find_where (is_decided (r.identity).proposal_id r.trip_id) db.proposals ≡ some proposal
    pub sequence : intent.mutation_sequence ≡ r.mutation_sequence
    pub revision : intent.expected_trip_revision ≡ r.expected_trip_revision
    pub how : Again intent outbox proposal ⊎ First trip intent proposal

  decision_again-Again :
      (i : Intent) (o : Outbox) (p : Proposal)
      → is_pending_intent i.state ≡ false
      → decision_again link db r stale i o p ≡ ok (res, db')
      → Again i o p
  unfolding decision_again
  decision_again-Again i o p e h =
      let (x, d) =
        commit_as_ok link (decided_command r stale (time_of i.finalized_at) true) db {b = res}
          {t = db'} (ground arith) in
      record {
        resolved = e;
        stored = ground arith;
        decided = ground arith;
        result = x;
        unchanged = d;
      }

  decision_first-First :
      (trip : Trip) (i : Intent) (p : Proposal)
      → is_pending_intent i.state ≡ true
      → decision_first link now db r stale trip i p ≡ ok (res, db')
      → First trip i p
  unfolding decision_first
  decision_first-First trip i p e h =
      let (x, d) =
        commit_as_ok link (decided_command r stale now false) (write_decision r stale now i p db)
          {b = res} {t = db'} (ground arith) in
      record {
        unresolved = e;
        at_revision = ground arith;
        next = ground arith;
        undecided = ground arith;
        fresh = ground arith;
        result = x;
        written = d;
      }

  rows_ok :
      (trip : Trip) (i : Intent) (o : Outbox) (p : Proposal)
      → decision_rows link now db r stale trip i o p ≡ ok (res, db')
      → (i.mutation_sequence ≡ r.mutation_sequence)
        × (i.expected_trip_revision ≡ r.expected_trip_revision)
        × (Again i o p ⊎ First trip i p)
  unfolding decision_rows
  rows_ok trip i o p h = (
    ground arith,
    ground arith,
    elim (Bool-cases (is_pending_intent i.state)) [
      | inl e ↦ inr (decision_first-First trip i p e (ground arith))
      | inr e ↦ inl (decision_again-Again i o p e (ground arith))
    ],
  )

  locked_ok :
      (trip : Option Trip) (i : Option Intent) (o : Option Outbox) (p : Option Proposal)
      → find_where (is_trip r.trip_id) db.trips ≡ trip
      → find_where (is_runtime_intent r.intent_id r.trip_id) db.intents ≡ i
      → find_where (is_outbox_of r.outbox_id r.intent_id r.trip_id) db.outbox ≡ o
      → find_where (is_decided (r.identity).proposal_id r.trip_id) db.proposals ≡ p
      → decision_locked link now db r stale trip i o p ≡ ok (res, db')
      → Decided
  unfolding decision_locked
  locked_ok none i o p et ei eo ep h = absurd (cc)
  locked_ok (some trip) none o p et ei eo ep h = absurd (ground arith)
  locked_ok (some trip) (some i) none p et ei eo ep h = absurd (ground arith)
  locked_ok (some trip) (some i) (some o) none et ei eo ep h = absurd (ground arith)
  locked_ok (some trip) (some i) (some o) (some p) et ei eo ep h =
      let (s, v, w) = rows_ok trip i o p (ground arith) in
      record {
        trip = trip;
        intent = i;
        outbox = o;
        proposal = p;
        trip_found = et;
        intent_found = ei;
        outbox_found = eo;
        proposal_found = ep;
        sequence = s;
        revision = v;
        how = w;
      }

  tx_ok :
      decision_tx link now db r stale ≡ ok (res, db')
      → decision_locked link now db r stale
          (find_where (is_trip r.trip_id) db.trips)
          (find_where (is_runtime_intent r.intent_id r.trip_id) db.intents)
          (find_where (is_outbox_of r.outbox_id r.intent_id r.trip_id) db.outbox)
          (find_where (is_decided (r.identity).proposal_id r.trip_id) db.proposals)
        ≡ ok (res, db')
  unfolding decision_tx
  tx_ok h = ground arith

  -- A decision that is finalized found its four rows, and the intent has the request's sequence and
  -- expected revision. Either the intent was resolved before with this outcome and decision, and
  -- nothing changes; or it was pending, the trip was at the expected revision and the sequence is the
  -- next one, a rejection found a pending proposal of that revision, and the rows are updated.
  pub finalize_proposal_decision-Decided :
      finalize_proposal_decision link now db r stale ≡ (ok res, db') → Decided
  unfolding finalize_proposal_decision
  finalize_proposal_decision-Decided h =
      locked_ok _ _ _ _ refl refl refl refl
        (tx_ok (transact_ok db (decision_tx link now db r stale) h))
