-- ===== src/Confirm.antt =====
-- ConfirmFinalizedMutations of backend/internal/persistence/finalization_confirmation.go. The locked
-- rows are read in the table's order: the loop returns the same in any order.
pub mod Covered
pub mod Replay
mod Tests
use live_route.Base.{
  ℕ, zero, suc, ◌+◌, ◌-◌, ◌^◌, String, Bool, true, false, ◌&&◌, ◌||◌, not, Option, none, some, List,
  [], ◌∷◌, ltb, leb, ◌==◌, if◌then◌else◌, same,
}
use live_route.Base.Table.{find_where, select_where, update_where}
use live_route.Base.Result.{
  Result, ok, err, ◌>>=◌, ◌>>◌, guard, Link, reach, transact, commit_as, invalid_input,
  trip_not_found, finalization_confirmation_ahead, finalization_confirmation_blocked, begin,
  lock_trip, read_outbox, read_clock, write_outbox,
}
use live_route.Uuid.{valid_canonical_uuid}
use live_route.Store.{Db, Trip, Outbox, DeliveryState}
use live_route.Lease.{max_int64}
use live_route.Proposal.{is_trip}

pub record ConfirmFinalizedMutationsRequest : Type 0 where
  pub trip_id : String
  pub finalized_mutation_sequence : ℕ

pub record ConfirmedFinalizedMutations : Type 0 where
  pub trip_id : String
  pub finalized_mutation_sequence : ℕ
  pub confirmed_at : ℕ
  pub rows_confirmed : ℕ
  pub duplicate : Bool

unfoldable pub validate_finalization_confirmation :
    ConfirmFinalizedMutationsRequest → Result (Unit {0})
validate_finalization_confirmation r = do
  guard (valid_canonical_uuid r.trip_id) invalid_input
  guard (not (r.finalized_mutation_sequence == 0 || ltb max_int64 r.finalized_mutation_sequence))
      invalid_input

-- WHERE trip_id = $1 AND mutation_sequence <= $2
abbrev pub is_covered : String → ℕ → Outbox → Bool
is_covered trip_id sequence o = same o.trip_id trip_id && leb o.mutation_sequence sequence

-- delivery_state IN ('accepted', 'terminal_rejected')
abbrev pub is_settled : DeliveryState → Bool
is_settled DeliveryState.accepted = true
is_settled DeliveryState.terminal_rejected = true
is_settled DeliveryState.pending = false
is_settled DeliveryState.paused_internal = false

abbrev pub is_confirmed : Option ℕ → Bool
is_confirmed none = false
is_confirmed (some _) = true

abbrev count_row : Bool → ℕ × Bool → ℕ × Bool
count_row true (rows_to_confirm, already_confirmed) = (rows_to_confirm, true)
count_row false (rows_to_confirm, already_confirmed) = (suc rows_to_confirm, already_confirmed)

-- The loop over the covered rows: rowsToConfirm and alreadyConfirmed.
unfoldable pub scan_rows : List Outbox → Result (ℕ × Bool)
scan_rows [] = ok (0, false)
scan_rows (o ∷ os) = do
  guard (is_settled o.delivery_state) finalization_confirmation_blocked
  rest ← scan_rows os
  ok (count_row (is_confirmed o.finalization_confirmed_at) rest)

abbrev later : Option ℕ → ℕ → ℕ
later none b = b
later (some a) b = if ltb a b then b else a

-- SELECT max(finalization_confirmed_at)
unfoldable pub latest_confirmation : List Outbox → ℕ
latest_confirmation [] = 0
latest_confirmation (o ∷ os) = later o.finalization_confirmed_at (latest_confirmation os)

abbrev pub unconfirmed : String → ℕ → Outbox → Bool
unconfirmed trip_id sequence o =
    is_covered trip_id sequence o
    && is_settled o.delivery_state
    && not (is_confirmed o.finalization_confirmed_at)

abbrev pub confirm_row : ℕ → Outbox → Outbox
confirm_row now o = record o { finalization_confirmed_at = some now; updated_at = now }

unfoldable pub write_confirmed : ConfirmFinalizedMutationsRequest → ℕ → Db → Db
write_confirmed r now db = record db {
  outbox =
      update_where (unconfirmed r.trip_id r.finalized_mutation_sequence) (confirm_row now)
        db.outbox;
}

abbrev pub confirmed : ConfirmFinalizedMutationsRequest → ℕ → ℕ → ConfirmedFinalizedMutations
confirmed r time rows = record {
  trip_id = r.trip_id;
  finalized_mutation_sequence = r.finalized_mutation_sequence;
  confirmed_at = time;
  rows_confirmed = rows;
  duplicate = rows == 0;
}

-- The three ways after the loop. A request that covers no row leaves Go's zero time.
unfoldable pub confirm_rows :
    Link
    → ℕ
    → Db
    → ConfirmFinalizedMutationsRequest
    → ℕ × Bool
    → Result (ConfirmedFinalizedMutations × Db)
unfolding latest_confirmation
confirm_rows link now db r (suc n, already_confirmed) = do
  reach link read_clock
  reach link write_outbox
  commit_as link (confirmed r now (suc n)) (write_confirmed r now db)
confirm_rows link now db r (zero, true) = do
  reach link read_clock
  commit_as link
      (confirmed r
        (latest_confirmation
          (select_where (is_covered r.trip_id r.finalized_mutation_sequence) db.outbox))
        0)
      db
confirm_rows link now db r (zero, false) = commit_as link (confirmed r 0 0) db

pub confirm_trip :
    Link
    → ℕ
    → Db
    → ConfirmFinalizedMutationsRequest
    → Option Trip
    → Result (ConfirmedFinalizedMutations × Db)
unfolding confirm_rows
confirm_trip link now db r none = err trip_not_found
confirm_trip link now db r (some trip) = do
  guard (not (ltb trip.finalized_mutation_sequence r.finalized_mutation_sequence))
      finalization_confirmation_ahead
  reach link read_outbox
  counts ← scan_rows (select_where (is_covered r.trip_id r.finalized_mutation_sequence) db.outbox)
  confirm_rows link now db r counts

pub confirm_tx :
    Link → ℕ → Db → ConfirmFinalizedMutationsRequest → Result (ConfirmedFinalizedMutations × Db)
unfolding confirm_trip
confirm_tx link now db r = do
  validate_finalization_confirmation r
  reach link begin
  reach link lock_trip
  confirm_trip link now db r (find_where (is_trip r.trip_id) db.trips)

unfoldable pub confirm_finalized_mutations :
    Link → ℕ → Db → ConfirmFinalizedMutationsRequest → Result ConfirmedFinalizedMutations × Db
unfolding confirm_tx write_confirmed
confirm_finalized_mutations link now db r = transact db (confirm_tx link now db r)
