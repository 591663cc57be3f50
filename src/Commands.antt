-- ===== src/Commands.antt =====
-- Histories of one database in which runtime-first commands are recorded, applied, rejected and
-- decided and canonical mirrors are finalized: RecordRuntimeFirst, FinalizeAcceptedMutation,
-- FinalizeTerminal, two finalizations of proposal decisions and FinalizeCanonicalMirror of
-- backend/internal/persistence together.
mod Tests
use mathlib.Core.Path.{subst}
use live_route.Base.{
  ℕ, ◌+◌, String, ◌≡◌, refl, sym, ap, ◌∙◌, ◌&&◌, same, inl, inr, Bool, true, false, Option, none,
  some, List, [], ◌∷◌, arith, All, Bool-cases,
}
use live_route.Base.Table.{find_where, update_where, count_where}
use live_route.Base.Result.{
  Error, Result, ok, err, Link, transact, transact_err, commit_as_ok, canonical_mirror_identity,
}
use live_route.Store.{Db, Trip, Intent, SyncState, DeliveryState}
use live_route.Proposal.{is_trip}
use live_route.Terminal.{write_terminal, finalize_terminal, finalize_terminal_tx}
use live_route.Terminal.Rows.{
  FinalizeTerminalCommandRequest, FinalizedCommand, advance, resolve_intent, has_intent_id, text_of,
}
use live_route.Terminal.Outcome.{finalize_terminal-Finalized}
use live_route.Decision.{write_decision, finalize_proposal_decision, decision_tx}
use live_route.Decision.Rows.{
  FinalizeProposalDecisionRequest, advance_decided, resolve_decision, revision_of,
}
use live_route.Decision.Outcome.{finalize_proposal_decision-Decided}
use live_route.Mirror.{
  FinalizeCanonicalMirrorRequest, FinalizedCanonicalMirror, Ending, finished, refused, unpack,
  canonical_mirror_identity_matches, canonical_mirror_result, mirror_pending, mirror_tx,
  finalize_canonical_mirror, write_mirror, pause_canonical_mirror, pending_intent, set_sync,
}
use live_route.Mirror.Outcome.{mirror_tx-Ended}
use live_route.Accepted.{apply_intent, write_accepted, finalize_accepted_mutation}
use live_route.Accepted.Mutation.{FinalizeAcceptedMutationRequest}
use live_route.Accepted.Outcome.{finalize_accepted_mutation-Applied}
use live_route.Accepted.Effects.{apply-Keeps}
use live_route.Intake.{Clock, write_recorded, record_runtime_first, record_tx}
use live_route.Intake.Recorded.{RecordRuntimeCommandRequest, RecordedCommand, is_unresolved}
use live_route.Intake.Outcome.{record_runtime_first-Recorded}
use live_route.Intake.Numbered.{IsBelow, IsNumbered, written-IsNumbered, updated-IsNumbered}

-- One call, with the failures of its driver and the readings of its clock.
pub data Call : Type 0 where
  records : Link → Clock → RecordRuntimeCommandRequest → Call
  accepts : Link → ℕ → FinalizeAcceptedMutationRequest → Call
  rejects : Link → ℕ → FinalizeTerminalCommandRequest → Call
  decides : Link → ℕ → FinalizeProposalDecisionRequest → Bool → Call
  mirrors : Link → ℕ → FinalizeCanonicalMirrorRequest → Call

module _ (sha256 : String → String) (plan_id : String → Option String) where
  unfoldable pub step : Db → Call → Db
  step db (records link c r) = (record_runtime_first sha256 plan_id link c r db).1
  step db (accepts link now r) = (finalize_accepted_mutation link now db r).1
  step db (rejects link now r) = (finalize_terminal link now db r).1
  step db (decides link now r stale) = (finalize_proposal_decision link now db r stale).1
  step db (mirrors link now r) = (finalize_canonical_mirror link now db r).1

  unfoldable pub run : Db → List Call → Db
  unfolding step
  run db [] = db
  run db (c ∷ cs) = run (step db c) cs

update_where-false : (ts : List Trip) → update_where (λ t. false) (λ t. t) ts ≡ ts
unfolding update_where
update_where-false [] = refl
update_where-false (t ∷ ts) = ap (λ us. t ∷ us) (update_where-false ts)

module _ (db : Db) (k : IsNumbered db) where
  module _ (sha256 : String → String) (plan_id : String → Option String) (link : Link) (c : Clock)
      (r : RecordRuntimeCommandRequest) where
    record-IsNumbered :
        (x : Result RecordedCommand × Db)
        → record_runtime_first sha256 plan_id link c r db ≡ x
        → IsNumbered x.1
    unfolding record_runtime_first
    record-IsNumbered (err e, db') h = subst IsNumbered (transact_err db _ h) k
    record-IsNumbered (ok res, db') h =
        let d = record_runtime_first-Recorded link c db db' r res sha256 plan_id h in
        elim d.how [
          | inl (i, ei, a) ↦ subst IsNumbered a.unchanged k
          | inr (ei, f) ↦
              subst IsNumbered f.written (written-IsNumbered c db r d.trip k d.trip_found f.free)
        ]

  module _ (link : Link) (now : ℕ) (r : FinalizeAcceptedMutationRequest) where
    accepted-IsNumbered :
        (x : Result FinalizedCommand × Db)
        → finalize_accepted_mutation link now db r ≡ x
        → IsNumbered x.1
    unfolding finalize_accepted_mutation write_accepted is_unresolved
    accepted-IsNumbered (err e, db') h = subst IsNumbered (transact_err db _ h) k
    accepted-IsNumbered (ok res, db') h =
        let d = finalize_accepted_mutation-Applied link now db db' r res h in
        elim d.how [
          | inl a ↦ subst IsNumbered a.unchanged k
          | inr f ↦
              let kept = apply-Keeps link r.trip_id r.mutation db f.changed d.kind f.applied in
              let n : ℕ = d.intent.mutation_sequence in
              let move = advance_decided (r.expected_trip_revision + 1) n now in
              subst IsNumbered f.written (
                updated-IsNumbered db (write_accepted r n now f.changed) k (is_trip r.trip_id) move
                  (has_intent_id r.intent_id) (apply_intent r now)
                  (ap (update_where (is_trip r.trip_id) move) kept.trips)
                  (ap (update_where (has_intent_id r.intent_id) (apply_intent r now)) kept.intents)
                  (λ t. refl) (λ t. refl) (λ i. refl) (λ i. refl)
                  (λ id i q u. ground (arith, q, u)))
        ]

  module _ (link : Link) (now : ℕ) (r : FinalizeTerminalCommandRequest) where
    terminal-IsNumbered :
        (x : Result FinalizedCommand × Db) → finalize_terminal link now db r ≡ x → IsNumbered x.1
    unfolding finalize_terminal write_terminal is_unresolved
    terminal-IsNumbered (err e, db') h = subst IsNumbered (transact_err db _ h) k
    terminal-IsNumbered (ok res, db') h =
        let d = finalize_terminal-Finalized link now db db' r res h in
        elim d.how [
          | inl a ↦ subst IsNumbered a.unchanged k
          | inr f ↦ subst IsNumbered f.written (
              updated-IsNumbered db
                (write_terminal r d.intent.mutation_sequence d.trip.trip_revision now db) k
                (is_trip r.trip_id) (advance d.intent.mutation_sequence now)
                (has_intent_id r.intent_id) (resolve_intent r d.trip.trip_revision now) refl refl
                (λ t. refl) (λ t. refl) (λ i. refl) (λ i. refl) (λ id i q u. ground (arith, q, u)))
        ]

  module _ (link : Link) (now : ℕ) (r : FinalizeProposalDecisionRequest) (stale : Bool) where
    decision-IsNumbered :
        (x : Result FinalizedCommand × Db)
        → finalize_proposal_decision link now db r stale ≡ x
        → IsNumbered x.1
    unfolding finalize_proposal_decision write_decision is_unresolved
    decision-IsNumbered (err e, db') h = subst IsNumbered (transact_err db _ h) k
    decision-IsNumbered (ok res, db') h =
        let d = finalize_proposal_decision-Decided link now db db' r stale res h in
        elim d.how [
          | inl a ↦ subst IsNumbered a.unchanged k
          | inr f ↦ subst IsNumbered f.written (
              updated-IsNumbered db (write_decision r stale now d.intent d.proposal db) k
                (is_trip r.trip_id)
                (advance_decided (revision_of stale r.expected_trip_revision)
                  d.intent.mutation_sequence now)
                (has_intent_id r.intent_id) (resolve_decision r stale now) refl refl (λ t. refl)
                (λ t. refl) (λ i. refl) (λ i. refl) (λ id i q u. ground (arith, q, u)))
        ]

  module _ (link : Link) (now : ℕ) (r : FinalizeCanonicalMirrorRequest) where
    -- An UPDATE of the intents only.
    sync-IsNumbered :
        (db' : Db) (q : Intent → Bool) (state : SyncState)
        → db'.trips ≡ db.trips
        → db'.intents ≡ update_where q (set_sync state) db.intents
        → ((i : Intent) → q i ≡ true → pending_intent r.intent_id i ≡ true)
        → IsNumbered db'
    unfolding is_unresolved
    sync-IsNumbered db' q state et ei w =
        updated-IsNumbered db db' k (λ t. false) (λ t. t) q (set_sync state)
          (et ∙ sym (update_where-false db.trips)) ei (λ t. refl) (λ t. refl) (λ i. refl)
          (λ i. refl) (λ id i p u. ground (arith, w i p, u))

    pending-IsNumbered :
        (e : Ending) (db' : Db) (plan : Option String) (b : Bool)
        → mirror_pending link now db r plan b ≡ ok (e, db')
        → IsNumbered db'
    unfolding mirror_pending write_mirror pause_canonical_mirror
    pending-IsNumbered e db' plan false h =
        let (x, w) =
          commit_as_ok link (refused canonical_mirror_identity)
            (pause_canonical_mirror r.intent_id r.outbox_id now db) {b = e} {t = db'}
            (ground (arith, h)) in
        subst IsNumbered w (
          sync-IsNumbered (pause_canonical_mirror r.intent_id r.outbox_id now db)
            (pending_intent r.intent_id) SyncState.paused_internal refl refl (λ i p. p))
    pending-IsNumbered e db' plan true h =
        let (x, w) =
          commit_as_ok link
            (finished (
              canonical_mirror_result r (text_of plan) SyncState.synced DeliveryState.accepted
                false))
            (write_mirror r now db) {b = e} {t = db'} (ground (arith, h)) in
        subst IsNumbered w (
          sync-IsNumbered (write_mirror r now db)
            (λ i. pending_intent r.intent_id i && same i.trip_id r.trip_id) SyncState.synced refl
            refl (λ i p. ground (arith, p)))

    ended : (e : Ending) (db' : Db) → mirror_tx link now db r ≡ ok (e, db') → IsNumbered db'
    ended e db' h =
        let d = mirror_tx-Ended link now db db' r e h in
        elim d.how [
          | inl a ↦ subst IsNumbered a.unchanged k
          | inr p ↦ pending-IsNumbered e db' _ _ p.rest
        ]

    mirror-IsNumbered :
        (x : Result (Ending × Db))
        → mirror_tx link now db r ≡ x
        → IsNumbered (unpack (transact db x)).1
    mirror-IsNumbered (err e) h = k
    mirror-IsNumbered (ok (finished m, db')) h = ended (finished m) db' h
    mirror-IsNumbered (ok (refused e, db')) h = ended (refused e) db' h

  step-IsNumbered :
      (sha256 : String → String) (plan_id : String → Option String) (c : Call)
      → IsNumbered (step sha256 plan_id db c)
  unfolding step finalize_canonical_mirror
  step-IsNumbered sha256 plan_id (records link c r) =
      record-IsNumbered sha256 plan_id link c r _ refl
  step-IsNumbered sha256 plan_id (accepts link now r) = accepted-IsNumbered link now r _ refl
  step-IsNumbered sha256 plan_id (rejects link now r) = terminal-IsNumbered link now r _ refl
  step-IsNumbered sha256 plan_id (decides link now r stale) =
      decision-IsNumbered link now r stale _ refl
  step-IsNumbered sha256 plan_id (mirrors link now r) = mirror-IsNumbered link now r _ refl

-- In tables whose trips have different ids, where every sequence of a trip is below its next one and
-- no trip has two unresolved commands, the same holds after any history of RecordRuntimeFirst,
-- FinalizeAcceptedMutation, FinalizeTerminal, finalizations of rejected and stale proposal decisions
-- and FinalizeCanonicalMirror, in which any statement may fail.
pub run-IsNumbered :
    (sha256 : String → String) (plan_id : String → Option String) (db : Db) (cs : List Call)
    → IsNumbered db
    → IsNumbered (run sha256 plan_id db cs)
unfolding run
run-IsNumbered sha256 plan_id db [] k = k
run-IsNumbered sha256 plan_id db (c ∷ cs) k =
    run-IsNumbered sha256 plan_id (step sha256 plan_id db c) cs
      (step-IsNumbered db k sha256 plan_id c)
