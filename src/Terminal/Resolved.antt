-- ===== src/Terminal/Resolved.antt =====
-- The rows of a command before and after a FinalizeTerminal that finalizes it.
use mathlib.Core.Path.{subst}
use live_route.Base.{
  ℕ, ◌+◌, String, ◌≡◌, refl, ap, ◌∙◌, inl, inr, true, false, none, some, List, arith, same,
  if◌then◌else◌,
}
use live_route.Base.Table.{
  find_where, update_where, find_where-update_where_hit, find_where-update_where_self,
  find_where-holds,
}
use live_route.Base.Result.{ok, Link}
use live_route.Store.{Db, Trip, Intent, Outbox, IntentState, DeliveryState}
use live_route.Proposal.{is_trip}
use live_route.Terminal.{is_pending_intent, write_terminal, finalize_terminal}
use live_route.Terminal.Rows.{
  FinalizeTerminalCommandRequest, FinalizedCommand, is_runtime_intent, is_outbox_of, has_intent_id,
  has_outbox_id, advance, resolve_intent, resolve_outbox,
}
use live_route.Terminal.Outcome.{finalize_terminal-Finalized}

-- An UPDATE by the id of an intent reaches the intent that was locked.
pub intent_updated :
    (intent_id trip_id : String) (f : Intent → Intent) (is : List Intent) (i : Intent)
    → ((x : Intent)
        → is_runtime_intent intent_id trip_id (f x) ≡ is_runtime_intent intent_id trip_id x)
    → find_where (is_runtime_intent intent_id trip_id) is ≡ some i
    → find_where (is_runtime_intent intent_id trip_id) (update_where (has_intent_id intent_id) f is)
      ≡ some (f i)
intent_updated intent_id trip_id f is i keeps e =
    find_where-update_where_hit _ (has_intent_id intent_id) f is keeps
      (ground (arith, find_where-holds _ _ e)) e

-- An UPDATE by the id of an outbox row reaches the row that was locked.
pub outbox_updated :
    (outbox_id intent_id trip_id : String) (f : Outbox → Outbox) (os : List Outbox) (o : Outbox)
    → ((x : Outbox)
        → is_outbox_of outbox_id intent_id trip_id (f x)
          ≡ is_outbox_of outbox_id intent_id trip_id x)
    → find_where (is_outbox_of outbox_id intent_id trip_id) os ≡ some o
    → find_where
        (is_outbox_of outbox_id intent_id trip_id)
        (update_where (has_outbox_id outbox_id) f os)
      ≡ some (f o)
outbox_updated outbox_id intent_id trip_id f os o keeps e =
    find_where-update_where_hit _ (has_outbox_id outbox_id) f os keeps
      (ground (arith, find_where-holds _ _ e)) e

module _ (r : FinalizeTerminalCommandRequest) where
  -- The command was next in its trip, and pending.
  pub record WasNext (db : Db) (trip : Trip) (intent : Intent) (outbox : Outbox) : Type 0 where
    pub trip_found : find_where (is_trip r.trip_id) db.trips ≡ some trip
    pub intent_found : find_where (is_runtime_intent r.intent_id r.trip_id) db.intents ≡ some intent
    pub outbox_found :
        find_where (is_outbox_of r.outbox_id r.intent_id r.trip_id) db.outbox ≡ some outbox
    pub pending : is_pending_intent intent.state ≡ true
    pub event : intent.event_id ≡ r.event_id
    pub at_revision : trip.trip_revision ≡ r.expected_trip_revision
    pub next : trip.finalized_mutation_sequence + 1 ≡ r.mutation_sequence

module _ (now : ℕ) (r : FinalizeTerminalCommandRequest) where
  -- The command is resolved with the outcome of the request.
  pub record IsResolved (db : Db) (trip : Trip) (intent : Intent) (outbox : Outbox) : Type 0 where
    pub trip_row :
        find_where (is_trip r.trip_id) db.trips
        ≡ some (record trip { finalized_mutation_sequence = r.mutation_sequence; updated_at = now })
    pub intent_row :
        find_where (is_runtime_intent r.intent_id r.trip_id) db.intents
        ≡ some (record intent {
          state =
              if same r.status "COMMAND_EXPIRED" then IntentState.expired else IntentState.rejected;
          outcome_status = some r.status;
          outcome_payload = r.outcome_payload;
          resulting_trip_revision = some r.expected_trip_revision;
          resulting_planner_state_version = some r.resulting_planner_state_version;
          finalized_at = some now;
        })
    pub outbox_row :
        find_where (is_outbox_of r.outbox_id r.intent_id r.trip_id) db.outbox
        ≡ some (record outbox {
          delivery_state = DeliveryState.terminal_rejected;
          last_status = some r.status;
          claim_owner = none;
          claim_expires_at = none;
          updated_at = now;
        })

  written-IsResolved :
      (db : Db) (trip : Trip) (intent : Intent) (outbox : Outbox) (sequence revision : ℕ)
      → sequence ≡ r.mutation_sequence
      → revision ≡ r.expected_trip_revision
      → find_where (is_trip r.trip_id) db.trips ≡ some trip
      → find_where (is_runtime_intent r.intent_id r.trip_id) db.intents ≡ some intent
      → find_where (is_outbox_of r.outbox_id r.intent_id r.trip_id) db.outbox ≡ some outbox
      → IsResolved (write_terminal r sequence revision now db) trip intent outbox
  unfolding write_terminal
  written-IsResolved db trip intent outbox sequence revision es er et ei eo = record {
    trip_row =
        find_where-update_where_self (is_trip r.trip_id) (advance sequence now) db.trips (λ x h. h)
          et
        ∙ ap (λ n. some (advance n now trip)) es;
    intent_row =
        intent_updated r.intent_id r.trip_id (resolve_intent r revision now) db.intents intent
          (λ x. refl) ei
        ∙ ap (λ n. some (resolve_intent r n now intent)) er;
    outbox_row =
        outbox_updated r.outbox_id r.intent_id r.trip_id
          (resolve_outbox DeliveryState.terminal_rejected r.status now) db.outbox outbox (λ x. refl)
          eo;
  }

-- A FinalizeTerminal that succeeds for the first time found the trip at the expected revision, the
-- command pending and next in its trip, with the event of the request, and its outbox row. After it
-- the trip has the same revision and the command's sequence as its last finalized one, the command is
-- expired or rejected with the status, the payload and the planner version of the request and the
-- trip's revision, and the outbox row is terminally rejected with this status and free of its claim.
pub finalize_terminal-Resolved :
    (link : Link) (now : ℕ) (db db' : Db) (r : FinalizeTerminalCommandRequest)
    (res : FinalizedCommand)
    → finalize_terminal link now db r ≡ (ok res, db')
    → res.duplicate ≡ false
    → (trip : Trip) × (intent : Intent) × (outbox : Outbox) × WasNext r db trip intent outbox
      × IsResolved now r db' trip intent outbox
finalize_terminal-Resolved link now db db' r res h fresh =
    let d = finalize_terminal-Finalized link now db db' r res h in
    let (event, sequence, revision) = d.identity in
    elim d.how [
      | inl a ↦ absurd (ground (arith, a.result))
      | inr f ↦ (
        d.trip,
        d.intent,
        d.outbox,
        record {
          trip_found = d.trip_found;
          intent_found = d.intent_found;
          outbox_found = d.outbox_found;
          pending = f.unresolved;
          event = event;
          at_revision = f.at_revision ∙ revision;
          next = f.next ∙ sequence;
        },
        subst (λ (x : Db). IsResolved now r x d.trip d.intent d.outbox) f.written
            (written-IsResolved now r db d.trip d.intent d.outbox (d.intent).mutation_sequence
              (d.trip).trip_revision sequence (f.at_revision ∙ revision) d.trip_found d.intent_found
              d.outbox_found),
      )
    ]
