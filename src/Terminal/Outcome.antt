-- ===== src/Terminal/Outcome.antt =====
-- What a FinalizeTerminal that succeeds found and wrote.
use live_route.Base.{
  ℕ, ◌+◌, String, same_self, ◌≡◌, refl, ◌⊎◌, inl, inr, true, false, ◌&&◌, Option, none, some, arith,
  same, Bool-cases,
}
use live_route.Base.Table.{find_where}
use live_route.Base.Result.{ok, Link, transact_ok, commit_as_ok}
use live_route.Store.{Db, Trip, Intent, Outbox}
use live_route.Proposal.{is_trip}
use live_route.Terminal.{
  is_pending_intent, outcome_is_stored, write_terminal, terminal_again, terminal_first,
  terminal_rows, terminal_outbox, terminal_intent, terminal_trip, finalize_terminal_tx,
  finalize_terminal,
}
use live_route.Terminal.Rows.{
  FinalizeTerminalCommandRequest, FinalizedCommand, finalized_command, terminal_intent_state,
  is_runtime_intent, is_outbox_of, text_of, time_of, payload_matches, is_json, is_decision,
}

-- A JSON payload matches itself.
pub payload_matches_self : (p : Option String) → is_json p ≡ true → payload_matches p p ≡ ok true
payload_matches_self none h = absurd (cc)
payload_matches_self (some p) h = ground (arith, same_self p)

module _ (link : Link) (now : ℕ) (db db' : Db) (r : FinalizeTerminalCommandRequest)
    (res : FinalizedCommand) where
  -- The command was finalized before, with the outcome that the request gives.
  pub record Again (i : Intent) (o : Outbox) : Type 0 where
    pub resolved : is_pending_intent i.state ≡ false
    pub stored : outcome_is_stored r i o ≡ true
    pub payload : payload_matches i.outcome_payload r.outcome_payload ≡ ok true
    pub result :
        finalized_command r i.state
          (text_of i.outcome_status)
          i.expected_trip_revision
          (time_of i.finalized_at)
          true
        ≡ res
    pub unchanged : db ≡ db'

  -- The command is the next one of its trip, at the trip's revision.
  pub record First (trip : Trip) (i : Intent) : Type 0 where
    pub unresolved : is_pending_intent i.state ≡ true
    pub at_revision : trip.trip_revision ≡ i.expected_trip_revision
    pub next : trip.finalized_mutation_sequence + 1 ≡ i.mutation_sequence
    pub result :
        finalized_command r (terminal_intent_state r.status) r.status trip.trip_revision now false
        ≡ res
    pub written : write_terminal r i.mutation_sequence trip.trip_revision now db ≡ db'

  pub record Finalized : Type 0 where
    pub trip : Trip
    pub intent : Intent
    pub outbox : Outbox
    pub trip_found : find_where (is_trip r.trip_id) db.trips ≡ some trip
    pub intent_found : find_where (is_runtime_intent r.intent_id r.trip_id) db.intents ≡ some intent
    pub outbox_found :
        find_where (is_outbox_of r.outbox_id r.intent_id r.trip_id) db.outbox ≡ some outbox
    pub identity :
        (intent.event_id ≡ r.event_id)
        × (intent.mutation_sequence ≡ r.mutation_sequence)
        × (intent.expected_trip_revision ≡ r.expected_trip_revision)
    pub no_stale_decision : (same r.status "STALE" && is_decision intent.command_kind) ≡ false
    pub how : Again intent outbox ⊎ First trip intent

  terminal_again-Again :
      (i : Intent) (o : Outbox)
      → is_pending_intent i.state ≡ false
      → terminal_again link db r i o ≡ ok (res, db')
      → Again i o
  unfolding terminal_again
  terminal_again-Again i o p h =
      let (e, d) =
        commit_as_ok link
          (finalized_command r i.state (text_of i.outcome_status) i.expected_trip_revision
            (time_of i.finalized_at) true)
          db {b = res} {t = db'} (ground arith) in
      record {
        resolved = p;
        stored = ground arith;
        payload = ground arith;
        result = e;
        unchanged = d;
      }

  terminal_first-First :
      (trip : Trip) (i : Intent)
      → is_pending_intent i.state ≡ true
      → terminal_first link now db r trip i ≡ ok (res, db')
      → First trip i
  unfolding terminal_first
  terminal_first-First trip i p h =
      let (e, d) =
        commit_as_ok link
          (finalized_command r (terminal_intent_state r.status) r.status trip.trip_revision now
            false)
          (write_terminal r i.mutation_sequence trip.trip_revision now db) {b = res} {t = db'}
          (ground arith) in
      record {
        unresolved = p;
        at_revision = ground arith;
        next = ground arith;
        result = e;
        written = d;
      }

  rows_ok :
      (trip : Trip) (i : Intent) (o : Outbox)
      → find_where (is_trip r.trip_id) db.trips ≡ some trip
      → find_where (is_runtime_intent r.intent_id r.trip_id) db.intents ≡ some i
      → find_where (is_outbox_of r.outbox_id r.intent_id r.trip_id) db.outbox ≡ some o
      → terminal_rows link now db r trip i o ≡ ok (res, db')
      → Finalized
  unfolding terminal_rows
  rows_ok trip i o et ei eo h = record {
    trip = trip;
    intent = i;
    outbox = o;
    trip_found = et;
    intent_found = ei;
    outbox_found = eo;
    identity = (ground arith, ground arith, ground arith);
    no_stale_decision = ground arith;
    how = elim (Bool-cases (is_pending_intent i.state)) [
      | inl e ↦ inr (terminal_first-First trip i e (ground arith))
      | inr e ↦ inl (terminal_again-Again i o e (ground arith))
    ];
  }

  outbox_ok :
      (trip : Trip) (i : Intent) (o : Option Outbox)
      → find_where (is_trip r.trip_id) db.trips ≡ some trip
      → find_where (is_runtime_intent r.intent_id r.trip_id) db.intents ≡ some i
      → find_where (is_outbox_of r.outbox_id r.intent_id r.trip_id) db.outbox ≡ o
      → terminal_outbox link now db r trip i o ≡ ok (res, db')
      → Finalized
  unfolding terminal_outbox
  outbox_ok trip i none et ei eo h = absurd (cc)
  outbox_ok trip i (some o) et ei eo h = rows_ok trip i o et ei eo h

  intent_ok :
      (trip : Trip) (i : Option Intent)
      → find_where (is_trip r.trip_id) db.trips ≡ some trip
      → find_where (is_runtime_intent r.intent_id r.trip_id) db.intents ≡ i
      → terminal_intent link now db r trip i ≡ ok (res, db')
      → Finalized
  unfolding terminal_intent
  intent_ok trip none et ei h = absurd (cc)
  intent_ok trip (some i) et ei h = outbox_ok trip i _ et ei refl (ground arith)

  trip_ok :
      (trip : Option Trip)
      → find_where (is_trip r.trip_id) db.trips ≡ trip
      → terminal_trip link now db r trip ≡ ok (res, db')
      → Finalized
  unfolding terminal_trip
  trip_ok none et h = absurd (cc)
  trip_ok (some trip) et h = intent_ok trip _ et refl (ground arith)

  tx_ok :
      finalize_terminal_tx link now db r ≡ ok (res, db')
      → terminal_trip link now db r (find_where (is_trip r.trip_id) db.trips) ≡ ok (res, db')
  unfolding finalize_terminal_tx
  tx_ok h = ground arith

  -- A FinalizeTerminal that succeeds found the trip, the runtime-first intent and its outbox row, and
  -- the intent has the request's event, mutation sequence and expected revision; it is not a STALE
  -- result of a proposal decision. Either the intent was resolved before with this outcome, and
  -- nothing changes; or it was pending, the trip was at the expected revision, the sequence is the one
  -- after the last that the trip finalized, and the three rows are updated.
  pub finalize_terminal-Finalized : finalize_terminal link now db r ≡ (ok res, db') → Finalized
  unfolding finalize_terminal
  finalize_terminal-Finalized h =
      trip_ok _ refl (tx_ok (transact_ok db (finalize_terminal_tx link now db r) h))
