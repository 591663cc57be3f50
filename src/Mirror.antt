-- ===== src/Mirror.antt =====
-- FinalizeCanonicalMirror of backend/internal/persistence/canonical_mirror.go: the runtime has applied
-- a plan that PostgreSQL already holds.
pub mod Outcome
pub mod Replay
pub mod Paused
mod Tests
use live_route.Base.{
  ℕ, ◌-◌, ◌^◌, String, Bool, true, false, ◌&&◌, ◌||◌, not, Option, none, some, List, ltb, leb, ◌==◌,
  same,
}
use live_route.Base.Table.{find_where, update_where}
use live_route.Base.Result.{
  Result, ok, err, ◌>>=◌, ◌>>◌, Error, guard, Link, reach, commit_as, transact, invalid_input,
  command_not_found, canonical_mirror_identity, canonical_mirror_paused, canonical_mirror_conflict,
  begin, read_intent, read_outbox, read_clock, write_intent, write_outbox,
}
use live_route.Uuid.{valid_canonical_uuid}
use live_route.Store.{
  Db, Intent, Outbox, IntentState, SyncState, DeliveryState, ApplicationOrder, CommandKind,
}
use live_route.Lease.{max_int64, lock_trip_row}
use live_route.Terminal.Rows.{
  is_outbox_of, has_text, has_number, same_delivery_state, same_intent_state, text_of,
}

pub record FinalizeCanonicalMirrorRequest : Type 0 where
  pub trip_id : String
  pub intent_id : String
  pub outbox_id : String
  pub event_id : String
  pub mutation_sequence : ℕ
  pub expected_trip_revision : ℕ
  pub resulting_trip_revision : ℕ
  pub resulting_current_plan_id : String

pub record FinalizedCanonicalMirror : Type 0 where
  pub intent_id : String
  pub outbox_id : String
  pub trip_id : String
  pub event_id : String
  pub mutation_sequence : ℕ
  pub expected_trip_revision : ℕ
  pub resulting_trip_revision : ℕ
  pub resulting_current_plan_id : String
  pub runtime_sync_state : SyncState
  pub delivery_state : DeliveryState
  pub duplicate : Bool

unfoldable pub validate_canonical_mirror_finalization :
    FinalizeCanonicalMirrorRequest → Result (Unit {0})
validate_canonical_mirror_finalization r = do
  guard
      (valid_canonical_uuid r.trip_id
        && valid_canonical_uuid r.intent_id
        && valid_canonical_uuid r.outbox_id
        && valid_canonical_uuid r.event_id)
      invalid_input
  guard
      (not (
        ltb max_int64 r.mutation_sequence
        || ltb max_int64 r.expected_trip_revision
        || ltb max_int64 r.resulting_trip_revision))
      invalid_input

abbrev is_mirrored : CommandKind → Bool
is_mirrored CommandKind.trip_edited = true
is_mirrored CommandKind.replace_current_plan = true
is_mirrored _ = false

abbrev valid_plan : Option String → Bool
valid_plan none = false
valid_plan (some plan) = valid_canonical_uuid plan

pub canonical_mirror_identity_matches : FinalizeCanonicalMirrorRequest → Intent → Bool
canonical_mirror_identity_matches r i =
    is_mirrored i.command_kind
    && same_intent_state i.state IntentState.applied
    && same i.event_id r.event_id
    && i.mutation_sequence == r.mutation_sequence
    && i.expected_trip_revision == r.expected_trip_revision
    && has_number i.resulting_trip_revision r.resulting_trip_revision
    && valid_plan i.resulting_current_plan_id
    && has_text i.resulting_current_plan_id r.resulting_current_plan_id

abbrev pub same_sync_state : SyncState → SyncState → Bool
same_sync_state SyncState.not_required SyncState.not_required = true
same_sync_state SyncState.pending SyncState.pending = true
same_sync_state SyncState.synced SyncState.synced = true
same_sync_state SyncState.paused_internal SyncState.paused_internal = true
same_sync_state _ _ = false

abbrev is_canonical_first : ApplicationOrder → Bool
is_canonical_first ApplicationOrder.canonical_first = true
is_canonical_first ApplicationOrder.runtime_first = false

abbrev pub is_canonical_intent : String → String → Intent → Bool
is_canonical_intent intent_id trip_id i =
    same i.id intent_id && same i.trip_id trip_id && is_canonical_first i.application_order

abbrev pub canonical_mirror_result :
    FinalizeCanonicalMirrorRequest
    → String
    → SyncState
    → DeliveryState
    → Bool
    → FinalizedCanonicalMirror
canonical_mirror_result r plan_id sync delivery duplicate = record {
  intent_id = r.intent_id;
  outbox_id = r.outbox_id;
  trip_id = r.trip_id;
  event_id = r.event_id;
  mutation_sequence = r.mutation_sequence;
  expected_trip_revision = r.expected_trip_revision;
  resulting_trip_revision = r.resulting_trip_revision;
  resulting_current_plan_id = plan_id;
  runtime_sync_state = sync;
  delivery_state = delivery;
  duplicate = duplicate;
}

abbrev pub pending_outbox : String → Outbox → Bool
pending_outbox outbox_id o =
    same o.id outbox_id && same_delivery_state o.delivery_state DeliveryState.pending

abbrev pub pending_intent : String → Intent → Bool
pending_intent intent_id i =
    same i.id intent_id && same_sync_state i.runtime_sync_state SyncState.pending

abbrev pub unclaim : DeliveryState → String → ℕ → Outbox → Outbox
unclaim state status now o = record o {
  delivery_state = state;
  last_status = some status;
  claim_owner = none;
  claim_expires_at = none;
  updated_at = now;
}

abbrev pub set_sync : SyncState → Intent → Intent
set_sync state i = record i { runtime_sync_state = state }

-- The two UPDATEs of pauseCanonicalMirror.
unfoldable pub pause_canonical_mirror : String → String → ℕ → Db → Db
pause_canonical_mirror intent_id outbox_id now db = record db {
  outbox =
      update_where (pending_outbox outbox_id) (unclaim DeliveryState.paused_internal "INTERNAL" now)
        db.outbox;
  intents = update_where (pending_intent intent_id) (set_sync SyncState.paused_internal) db.intents;
}

-- The two UPDATEs of a finalization, each with its whole WHERE clause.
unfoldable pub write_mirror : FinalizeCanonicalMirrorRequest → ℕ → Db → Db
write_mirror r now db = record db {
  outbox =
      update_where
        (λ o.
          is_outbox_of r.outbox_id r.intent_id r.trip_id o
          && same_delivery_state o.delivery_state DeliveryState.pending)
        (unclaim DeliveryState.accepted "OK" now) db.outbox;
  intents =
      update_where (λ i. pending_intent r.intent_id i && same i.trip_id r.trip_id)
        (set_sync SyncState.synced) db.intents;
}

-- What the transaction does in the end: it commits a result, or commits the pause and returns an
-- error, which no other method does.
pub data Ending : Type 0 where
  finished : FinalizedCanonicalMirror → Ending
  refused : Error → Ending

-- What the caller sees of a transaction's end.
abbrev pub unpack : Result Ending × Db → Result FinalizedCanonicalMirror × Db
unpack (ok (finished m), db) = (ok m, db)
unpack (ok (refused e), db) = (err e, db)
unpack (err e, db) = (err e, db)

unfoldable pub mirror_pending :
    Link → ℕ → Db → FinalizeCanonicalMirrorRequest → Option String → Bool → Result (Ending × Db)
mirror_pending link now db r plan false = do
  reach link write_outbox
  reach link write_intent
  commit_as link (refused canonical_mirror_identity)
      (pause_canonical_mirror r.intent_id r.outbox_id now db)
mirror_pending link now db r plan true = do
  reach link read_clock
  reach link write_outbox
  reach link write_intent
  commit_as link
      (finished
        (canonical_mirror_result r (text_of plan) SyncState.synced DeliveryState.accepted false))
      (write_mirror r now db)

pub is_synced : SyncState → DeliveryState → Bool
is_synced sync delivery =
    same_sync_state sync SyncState.synced || same_delivery_state delivery DeliveryState.accepted

pub is_paused : SyncState → DeliveryState → Bool
is_paused sync delivery =
    same_sync_state sync SyncState.paused_internal
    || same_delivery_state delivery DeliveryState.paused_internal

unfoldable pub both : SyncState → DeliveryState → SyncState → DeliveryState → Bool
both sync delivery s d = same_sync_state sync s && same_delivery_state delivery d

-- The part of the transaction after the rows are locked.
pub mirror_rows :
    Link → ℕ → Db → FinalizeCanonicalMirrorRequest → Intent → Outbox → Result (Ending × Db)
unfolding mirror_pending is_synced is_paused both
mirror_rows link now db r i o = elim (is_synced i.runtime_sync_state o.delivery_state) [
  | true ↦ do
    guard
        (canonical_mirror_identity_matches r i
          && both i.runtime_sync_state o.delivery_state SyncState.synced DeliveryState.accepted)
        canonical_mirror_conflict
    commit_as link
        (finished (
          canonical_mirror_result r (text_of i.resulting_current_plan_id) i.runtime_sync_state
            o.delivery_state true))
        db
  | false ↦ do
    guard (not (is_paused i.runtime_sync_state o.delivery_state)) canonical_mirror_paused
    guard (both i.runtime_sync_state o.delivery_state SyncState.pending DeliveryState.pending)
        canonical_mirror_conflict
    mirror_pending link now db r i.resulting_current_plan_id (canonical_mirror_identity_matches r i)
]

pub mirror_outbox :
    Link → ℕ → Db → FinalizeCanonicalMirrorRequest → Intent → Option Outbox → Result (Ending × Db)
unfolding mirror_rows
mirror_outbox link now db r i none = err command_not_found
mirror_outbox link now db r i (some o) = mirror_rows link now db r i o

pub mirror_intent :
    Link → ℕ → Db → FinalizeCanonicalMirrorRequest → Option Intent → Result (Ending × Db)
unfolding mirror_outbox
mirror_intent link now db r none = err command_not_found
mirror_intent link now db r (some i) = do
  reach link read_outbox
  mirror_outbox link now db r i
      (find_where (is_outbox_of r.outbox_id r.intent_id r.trip_id) db.outbox)

pub mirror_tx : Link → ℕ → Db → FinalizeCanonicalMirrorRequest → Result (Ending × Db)
unfolding mirror_intent lock_trip_row validate_canonical_mirror_finalization
mirror_tx link now db r = do
  validate_canonical_mirror_finalization r
  reach link begin
  lock_trip_row link db r.trip_id
  reach link read_intent
  mirror_intent link now db r (find_where (is_canonical_intent r.intent_id r.trip_id) db.intents)

unfoldable pub finalize_canonical_mirror :
    Link → ℕ → Db → FinalizeCanonicalMirrorRequest → Result FinalizedCanonicalMirror × Db
unfolding mirror_tx write_mirror pause_canonical_mirror canonical_mirror_identity_matches
finalize_canonical_mirror link now db r = unpack (transact db (mirror_tx link now db r))
