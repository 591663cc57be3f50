-- ===== src/Terminal/Replay.antt =====
-- A FinalizeTerminal that is sent again.
use mathlib.Core.Path.{subst}
use live_route.Base.{
  ℕ, ◌≡◌, refl, ap, ◌∙◌, sym, ◌⊎◌, inl, inr, true, false, ◌&&◌, some, arith, same, same_self,
}
use live_route.Base.Table.{
  find_where, find_where-update_where_self, find_where-update_where_hit, find_where-holds,
}
use live_route.Base.Result.{
  Result, ok, Link, Stage, transact_ok, commit_as, begin, lock_trip, read_intent, read_outbox,
  compare_payload, commit,
}
use live_route.Store.{Db, Trip, Intent, Outbox, DeliveryState}
use live_route.Proposal.{is_trip}
use live_route.Terminal.{
  is_pending_intent, outcome_is_stored, write_terminal, terminal_again, terminal_rows,
  terminal_outbox, terminal_intent, terminal_trip, finalize_terminal_tx, finalize_terminal,
}
use live_route.Terminal.Rows.{
  FinalizeTerminalCommandRequest, FinalizedCommand, finalized_command, terminal_intent_state,
  is_runtime_intent, is_outbox_of, has_intent_id, has_outbox_id, text_of, time_of, payload_matches,
  validate_terminal_finalization, is_decision, resolve_intent, resolve_outbox, advance, is_json,
}
use live_route.Terminal.Outcome.{
  payload_matches_self, Finalized, Again, First, finalize_terminal-Finalized,
}

-- The request's command as the stored rows show it after it was finalized.
module _ (link : Link) (now : ℕ) (db : Db) (r : FinalizeTerminalCommandRequest) where
  run_again :
      (trip : Trip) (i : Intent) (o : Outbox) (u : Unit {0})
      → ((stage : Stage) → link stage ≡ false)
      → validate_terminal_finalization r ≡ ok u
      → find_where (is_trip r.trip_id) db.trips ≡ some trip
      → find_where (is_runtime_intent r.intent_id r.trip_id) db.intents ≡ some i
      → find_where (is_outbox_of r.outbox_id r.intent_id r.trip_id) db.outbox ≡ some o
      → i.event_id ≡ r.event_id
      → i.mutation_sequence ≡ r.mutation_sequence
      → i.expected_trip_revision ≡ r.expected_trip_revision
      → (same r.status "STALE" && is_decision i.command_kind) ≡ false
      → is_pending_intent i.state ≡ false
      → outcome_is_stored r i o ≡ true
      → payload_matches i.outcome_payload r.outcome_payload ≡ ok true
      → finalize_terminal link now db r ≡ (
        ok (
            finalized_command r i.state
              (text_of i.outcome_status)
              i.expected_trip_revision
              (time_of i.finalized_at)
              true),
        db,
      )
  unfolding finalize_terminal finalize_terminal_tx terminal_trip terminal_intent terminal_outbox
      terminal_rows terminal_again commit_as
  run_again trip i o u up v et ei eo e1 e2 e3 nd p s m = ground (
    arith,
    v,
    up begin,
    up lock_trip,
    up read_intent,
    up read_outbox,
    up compare_payload,
    up commit,
    et,
    ei,
    eo,
    e1,
    e2,
    e3,
    nd,
    p,
    s,
    m,
    same_self i.event_id,
    same_self r.event_id,
  )

  valid_tx :
      (res : FinalizedCommand) (db' : Db)
      → finalize_terminal_tx link now db r ≡ ok (res, db')
      → (validate_terminal_finalization r ≡ ok (tt {0})) × (is_json r.outcome_payload ≡ true)
  unfolding finalize_terminal_tx validate_terminal_finalization
  valid_tx res db' h = (ground arith, ground arith)

  module _ (sequence revision : ℕ) where
    trip_kept :
        (trip : Trip)
        → find_where (is_trip r.trip_id) db.trips ≡ some trip
        → find_where (is_trip r.trip_id) (write_terminal r sequence revision now db).trips
          ≡ some (advance sequence now trip)
    unfolding write_terminal
    trip_kept trip e =
        find_where-update_where_self (is_trip r.trip_id) (advance sequence now) db.trips (λ x h. h)
          e

    intent_resolved :
        (i : Intent)
        → find_where (is_runtime_intent r.intent_id r.trip_id) db.intents ≡ some i
        → find_where
            (is_runtime_intent r.intent_id r.trip_id)
            (write_terminal r sequence revision now db).intents
          ≡ some (resolve_intent r revision now i)
    unfolding write_terminal
    intent_resolved i e =
        find_where-update_where_hit _ (has_intent_id r.intent_id) (resolve_intent r revision now)
          db.intents (λ x. refl) (ground (arith, find_where-holds _ _ e)) e

    outbox_resolved :
        (o : Outbox)
        → find_where (is_outbox_of r.outbox_id r.intent_id r.trip_id) db.outbox ≡ some o
        → find_where
            (is_outbox_of r.outbox_id r.intent_id r.trip_id)
            (write_terminal r sequence revision now db).outbox
          ≡ some (resolve_outbox DeliveryState.terminal_rejected r.status now o)
    unfolding write_terminal
    outbox_resolved o e =
        find_where-update_where_hit _ (has_outbox_id r.outbox_id)
          (resolve_outbox DeliveryState.terminal_rejected r.status now) db.outbox (λ x. refl)
          (ground (arith, find_where-holds _ _ e)) e

  stored_first :
      (revision : ℕ) (i : Intent) (o : Outbox)
      → revision ≡ i.expected_trip_revision
      → outcome_is_stored r
          (resolve_intent r revision now i)
          (resolve_outbox DeliveryState.terminal_rejected r.status now o)
        ≡ true
  unfolding outcome_is_stored
  stored_first revision i o e = ground (arith, same_self r.status)

  resolved_first :
      (revision : ℕ) (i : Intent)
      → is_pending_intent (resolve_intent r revision now i).state ≡ false
  unfolding is_pending_intent
  resolved_first revision i = ground arith

-- The result of a replay: the first result, marked as a duplicate.
abbrev pub as_duplicate : FinalizedCommand → FinalizedCommand
as_duplicate res = record res { duplicate = true }

module _ (link link' : Link) (now now' : ℕ) (db db' : Db) (r : FinalizeTerminalCommandRequest)
    (res : FinalizedCommand) where
  again-First :
      (f : Finalized link now db db' r res)
      → validate_terminal_finalization r ≡ ok (tt {0})
      → is_json r.outcome_payload ≡ true
      → ((stage : Stage) → link' stage ≡ false)
      → First link now db db' r res f.trip f.intent
      → finalize_terminal link' now' db' r ≡ (ok (as_duplicate res), db')
  again-First f valid json up a =
      let w : Db = write_terminal r (f.intent).mutation_sequence (f.trip).trip_revision now db in
      let i : Intent = resolve_intent r (f.trip).trip_revision now f.intent in
      let o : Outbox = resolve_outbox DeliveryState.terminal_rejected r.status now f.outbox in
      let replayed : ℕ → Result FinalizedCommand × Db =
        λ n. (ok (finalized_command r (terminal_intent_state r.status) r.status n now true), w) in
      let ran : finalize_terminal link' now' w r ≡ replayed (f.intent).expected_trip_revision =
        run_again link' now' w r (advance (f.intent).mutation_sequence now f.trip) i o tt up valid
          (trip_kept link now db r (f.intent).mutation_sequence (f.trip).trip_revision f.trip
            f.trip_found)
          (intent_resolved link now db r (f.intent).mutation_sequence (f.trip).trip_revision
            f.intent f.intent_found)
          (outbox_resolved link now db r (f.intent).mutation_sequence (f.trip).trip_revision
            f.outbox f.outbox_found)
          f.identity.0 f.identity.1 f.identity.2 f.no_stale_decision
          (resolved_first link now db r (f.trip).trip_revision f.intent)
          (stored_first link now db r (f.trip).trip_revision f.intent f.outbox a.at_revision)
          (payload_matches_self r.outcome_payload json) in
      let same_result : replayed (f.trip).trip_revision ≡ (ok (as_duplicate res), w) =
        ap (λ x. (ok (as_duplicate x), w)) a.result in
      subst (λ d. finalize_terminal link' now' d r ≡ (ok (as_duplicate res), d)) a.written
        (ran ∙ ap replayed (sym a.at_revision) ∙ same_result)

  -- A FinalizeTerminal that succeeded can be sent again at any later time: if the driver does not
  -- fail, it returns the same result, time of finalization included, now marked as a duplicate, and
  -- the tables stay as they are.
  pub finalize_terminal-again :
      ((stage : Stage) → link' stage ≡ false)
      → finalize_terminal link now db r ≡ (ok res, db')
      → finalize_terminal link' now' db' r ≡ (ok (as_duplicate res), db')
  unfolding finalize_terminal
  finalize_terminal-again up h = by_how f.how
    where
      f : Finalized link now db db' r res
      f = finalize_terminal-Finalized link now db db' r res h

      valid : (validate_terminal_finalization r ≡ ok (tt {0})) × (is_json r.outcome_payload ≡ true)
      valid = valid_tx link now db r res db' (transact_ok db (finalize_terminal_tx link now db r) h)

      by_how :
          Again link now db db' r res f.intent f.outbox
            ⊎ First link now db db' r res f.trip f.intent
          → finalize_terminal link' now' db' r ≡ (ok (as_duplicate res), db')
      by_how (inl a) =
          subst (λ d. finalize_terminal link' now' d r ≡ (ok (as_duplicate res), d)) a.unchanged
            (run_again link' now' db r f.trip f.intent f.outbox tt up valid.0 f.trip_found
                f.intent_found f.outbox_found f.identity.0 f.identity.1 f.identity.2
                f.no_stale_decision a.resolved a.stored a.payload
              ∙ ap (λ x. (ok (as_duplicate x), db)) a.result)
      by_how (inr a) = again-First f valid.0 valid.1 up a
