-- ===== src/Decision/Settled.antt =====
-- The proposal and the trip after a decision was finalized.
use mathlib.Core.Path.{subst}
use live_route.Base.{
  ℕ, ◌+◌, ◌≡◌, refl, sym, ap, ◌∙◌, ◌⊎◌, inl, inr, Bool, true, false, some, arith, if◌then◌else◌,
}
use live_route.Base.Table.{
  find_where, find_where-update_where_hit, find_where-update_where_self, find_where-holds,
}
use live_route.Base.Result.{ok, Link}
use live_route.Store.{Db, Trip, Intent, Proposal, is_pending_proposal}
use live_route.Proposal.{is_trip}
use live_route.Terminal.Rows.{FinalizedCommand}
use live_route.Decision.{write_decision, finalize_proposal_decision}
use live_route.Decision.Rows.{
  FinalizeProposalDecisionRequest, is_decided, decision_is_stored, resolves, decide,
  advance_decided, revision_of, proposal_state_of,
}
use live_route.Decision.Outcome.{Again, First, Decided, finalize_proposal_decision-Decided}

decided_state : (stale : Bool) → is_pending_proposal (proposal_state_of stale) ≡ false
decided_state true = refl
decided_state false = refl

stored_state :
    (stale : Bool) (i : Intent) (p : Proposal)
    → decision_is_stored stale i p ≡ true
    → is_pending_proposal p.state ≡ false
unfolding decision_is_stored
stored_state true i p h = ground arith
stored_state false i p h = ground arith

-- The proposal of the request is in the table, and it is not pending.
abbrev pub Resolved : FinalizeProposalDecisionRequest → Db → Type 0
Resolved r d =
    (p : Proposal) × (find_where (is_decided (r.identity).proposal_id r.trip_id) d.proposals
      ≡ some p)
    × (is_pending_proposal p.state ≡ false)

module _ (now : ℕ) (db : Db) (r : FinalizeProposalDecisionRequest) (stale : Bool) where
  written :
      (i : Intent) (p : Proposal)
      → find_where (is_decided (r.identity).proposal_id r.trip_id) db.proposals ≡ some p
      → (b : Bool) → resolves stale p ≡ b
      → Resolved r (write_decision r stale now i p db)
  unfolding write_decision resolves
  written i p e true h = (
    decide stale i.message_id now p,
    rw h (
        find_where-update_where_hit _ _ (decide stale i.message_id now) db.proposals (λ x. refl)
          (ground (arith, find_where-holds _ _ e)) e),
    decided_state stale,
  )
  written i p e false h = (p, rw h e, ground (arith, h))

  advanced :
      (i : Intent) (p : Proposal) (trip : Trip)
      → find_where (is_trip r.trip_id) db.trips ≡ some trip
      → find_where (is_trip r.trip_id) (write_decision r stale now i p db).trips
        ≡ some (
            advance_decided
              (revision_of stale r.expected_trip_revision)
              i.mutation_sequence
              now
              trip)
  unfolding write_decision
  advanced i p trip e =
      find_where-update_where_self (is_trip r.trip_id)
        (advance_decided (revision_of stale r.expected_trip_revision) i.mutation_sequence now)
        db.trips (λ x h. h) e

revision_step : (stale : Bool) (n : ℕ) → revision_of stale n ≡ (if stale then n else n + 1)
revision_step true n = refl
revision_step false n = refl

module _ (link : Link) (now : ℕ) (db db' : Db) (r : FinalizeProposalDecisionRequest) (stale : Bool)
    (res : FinalizedCommand)
    (h : finalize_proposal_decision link now db r stale ≡ (ok res, db')) where
  d : Decided link now db db' r stale res
  d = finalize_proposal_decision-Decided link now db db' r stale res h

  how-Resolved :
      (e : Decided link now db db' r stale res)
      → Again link now db db' r stale res e.intent e.outbox e.proposal
        ⊎ First link now db db' r stale res e.trip e.intent e.proposal
      → Resolved r db'
  how-Resolved e (inl a) =
      subst (Resolved r) a.unchanged
        (e.proposal, e.proposal_found, stored_state stale e.intent e.proposal a.decided)
  how-Resolved e (inr f) =
      subst (Resolved r) f.written (
        written now db r stale e.intent e.proposal e.proposal_found (resolves stale e.proposal)
          refl)

  -- After a decision is finalized, for the first time or again, as a rejection or as stale, its
  -- proposal is not pending.
  pub finalize_proposal_decision-Resolved : Resolved r db'
  finalize_proposal_decision-Resolved = how-Resolved d d.how

  -- After a decision is finalized for the first time the trip is at the revision that the result
  -- names, its last finalized mutation is the request's, and both were reached by one step: the
  -- sequence grew by one, and the revision by one for a rejection and by none for a stale decision.
  pub finalize_proposal_decision-advance :
      res.duplicate ≡ false
      → (trip : Trip) × (trip' : Trip) × (find_where (is_trip r.trip_id) db.trips ≡ some trip)
        × (find_where (is_trip r.trip_id) db'.trips ≡ some trip')
        × (trip'.trip_revision ≡ res.resulting_trip_revision)
        × (trip'.finalized_mutation_sequence ≡ r.mutation_sequence)
        × (trip'.finalized_mutation_sequence ≡ trip.finalized_mutation_sequence + 1)
        × (trip'.trip_revision ≡ (if stale then trip.trip_revision else trip.trip_revision + 1))
  finalize_proposal_decision-advance fresh = elim d.how [
    | inl a ↦ absurd (ground (arith, a.result))
    | inr f ↦ (
      d.trip,
      advance_decided (revision_of stale r.expected_trip_revision) (d.intent).mutation_sequence now
          d.trip,
      d.trip_found,
      subst
          (λ (x : Db).
            find_where (is_trip r.trip_id) x.trips
            ≡ some (
                advance_decided (revision_of stale r.expected_trip_revision)
                  (d.intent).mutation_sequence now d.trip))
          f.written (advanced now db r stale d.intent d.proposal d.trip d.trip_found),
      ap (λ (x : FinalizedCommand). x.resulting_trip_revision) f.result,
      d.sequence,
      sym f.next,
      ap (revision_of stale) (sym (f.at_revision ∙ d.revision))
          ∙ revision_step stale (d.trip).trip_revision,
    )
  ]
