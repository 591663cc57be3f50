-- ===== src/Convergence.antt =====
-- ResolveCanonicalBootstrap of backend/internal/persistence/bootstrap_convergence.go: what a planner
-- that was bootstrapped from the canonical state covers is resolved and confirmed in one transaction.
pub mod Covered
pub mod Rows
pub mod Settled
pub mod Repeat
mod Tests
use live_route.Base.{
  ℕ, ◌+◌, String, Bool, true, false, ◌&&◌, ◌||◌, not, Option, none, some, List, [], ◌∷◌, ltb, leb,
  ◌==◌, if◌then◌else◌, same, ◌++◌,
}
use live_route.Base.Table.{find_where, update_where, count_where, any_where}
use live_route.Base.Result.{
  Result, ok, err, ◌>>=◌, ◌>>◌, guard, Link, reach, transact, commit_as, invalid_input,
  trip_not_found, bootstrap_convergence_conflict, bootstrap_convergence_blocked, begin, lock_trip,
  read_intent, read_clock, write_intent, write_outbox,
}
use live_route.Uuid.{valid_canonical_uuid}
use live_route.Store.{Db, Trip, Intent, Outbox, SyncState, DeliveryState, ApplicationOrder}
use live_route.Lease.{max_int64}
use live_route.Proposal.{is_trip}
use live_route.Terminal.Rows.{same_delivery_state, is_runtime_first}
use live_route.Mirror.{same_sync_state, set_sync}
use live_route.Convergence.Covered.{
  ResolveCanonicalBootstrapRequest, ResolvedCanonicalBootstrap,
  validate_canonical_bootstrap_resolution, CoveredMirror, joins, mirror_of, place, join_intents,
  covered, open_sync, open_delivery, is_unconfirmed, blocks, needs_resolution, needs_confirmation,
  first_confirmed,
}

-- The WHERE clauses of the three UPDATEs, and their SET clauses.
abbrev pub is_intent_of : String → String → Intent → Bool
is_intent_of intent_id trip_id i = same i.id intent_id && same i.trip_id trip_id

abbrev pub is_row_in : String → String → Outbox → Bool
is_row_in outbox_id trip_id o = same o.id outbox_id && same o.trip_id trip_id

abbrev pub accept_row : ℕ → Outbox → Outbox
accept_row time o = record o {
  delivery_state = DeliveryState.accepted;
  last_status = some "OK";
  claim_owner = none;
  claim_expires_at = none;
  finalization_confirmed_at = some time;
  updated_at = time;
}

abbrev pub confirm_covered : ℕ → Outbox → Outbox
confirm_covered time o = record o { finalization_confirmed_at = some time; updated_at = time }

unfoldable pub resolve_intents : String → CoveredMirror → List Intent → List Intent
resolve_intents trip_id m intents =
    if not (is_runtime_first m.application_order) && open_sync m.intent_sync_state
    then update_where (is_intent_of m.intent_id trip_id) (set_sync SyncState.synced) intents
    else intents

unfoldable pub resolve_outbox_rows : String → ℕ → CoveredMirror → List Outbox → List Outbox
resolve_outbox_rows trip_id time m outbox =
    if not (is_runtime_first m.application_order) && open_delivery m.outbox_delivery_state
    then update_where (is_row_in m.outbox_id trip_id) (accept_row time) outbox
    else if is_unconfirmed m.finalization_confirmed
    then update_where (is_row_in m.outbox_id trip_id) (confirm_covered time) outbox
    else outbox

unfoldable pub resolve_covered : String → ℕ → CoveredMirror → Db → Db
unfolding resolve_intents resolve_outbox_rows
resolve_covered trip_id time m db = record db {
  intents = resolve_intents trip_id m db.intents;
  outbox = resolve_outbox_rows trip_id time m db.outbox;
}

-- An UPDATE that is executed under a test may fail in the driver.
abbrev pub reach_if : Bool → Result (Unit {0}) → Result (Unit {0})
reach_if true step = step
reach_if false step = ok tt

-- The last loop.
unfoldable pub resolve_each : Link → String → ℕ → List CoveredMirror → Db → Result Db
unfolding resolve_covered
resolve_each link trip_id time [] db = ok db
resolve_each link trip_id time (m ∷ ms) db = do
  reach_if (not (is_runtime_first m.application_order) && open_sync m.intent_sync_state)
      (reach link write_intent)
  reach_if
      (not (is_runtime_first m.application_order) && open_delivery m.outbox_delivery_state
        || is_unconfirmed m.finalization_confirmed)
      (reach link write_outbox)
  resolve_each link trip_id time ms (resolve_covered trip_id time m db)

abbrev pub bootstrap_result :
    ResolveCanonicalBootstrapRequest → ℕ → ℕ → ℕ → ResolvedCanonicalBootstrap
bootstrap_result r mirrors rows time = record {
  trip_id = r.trip_id;
  trip_revision = r.trip_revision;
  accepted_mutation_sequence = r.accepted_mutation_sequence;
  finalized_mutation_sequence = r.finalized_mutation_sequence;
  current_plan_id = r.current_plan_id;
  mirrors_resolved = mirrors;
  rows_confirmed = rows;
  confirmed_at = time;
  duplicate = mirrors == 0 && rows == 0;
}

-- The clock is read where there is work, and its reading replaced by a stored time where it is zero.
abbrev pub database_time : Bool → ℕ → List CoveredMirror → ℕ
database_time work now ms =
    let time = if work then now else 0 in if time == 0 then first_confirmed ms else time

unfoldable pub bootstrap_rows :
    Link
    → ℕ
    → ResolveCanonicalBootstrapRequest
    → Db
    → List CoveredMirror
    → Result (ResolvedCanonicalBootstrap × Db)
unfolding blocks needs_resolution needs_confirmation first_confirmed resolve_each
bootstrap_rows link now r db ms = do
  guard (not (any_where blocks ms)) bootstrap_convergence_blocked
  let mirrors = count_where needs_resolution ms
  let rows = count_where needs_confirmation ms
  let work = ltb 0 mirrors || ltb 0 rows
  reach_if work (reach link read_clock)
  let time = database_time work now ms
  db' ← resolve_each link r.trip_id time ms db
  commit_as link (bootstrap_result r mirrors rows time) db'

pub bootstrap_trip :
    Link
    → ℕ
    → ResolveCanonicalBootstrapRequest
    → Db
    → Option Trip
    → Result (ResolvedCanonicalBootstrap × Db)
unfolding covered bootstrap_rows
bootstrap_trip link now r db none = err trip_not_found
bootstrap_trip link now r db (some t) = do
  guard
      (t.trip_revision == r.trip_revision
        && t.finalized_mutation_sequence == r.finalized_mutation_sequence
        && r.accepted_mutation_sequence == r.finalized_mutation_sequence
        && same t.current_plan_id r.current_plan_id)
      bootstrap_convergence_conflict
  reach link read_intent
  bootstrap_rows link now r db (covered r db.outbox db.intents)

pub bootstrap_tx :
    Link → ℕ → ResolveCanonicalBootstrapRequest → Db → Result (ResolvedCanonicalBootstrap × Db)
unfolding validate_canonical_bootstrap_resolution bootstrap_trip
bootstrap_tx link now r db = do
  validate_canonical_bootstrap_resolution r
  reach link begin
  reach link lock_trip
  bootstrap_trip link now r db (find_where (is_trip r.trip_id) db.trips)

unfoldable pub resolve_canonical_bootstrap :
    Link → ℕ → ResolveCanonicalBootstrapRequest → Db → Result ResolvedCanonicalBootstrap × Db
unfolding bootstrap_tx
resolve_canonical_bootstrap link now r db = transact db (bootstrap_tx link now r db)
