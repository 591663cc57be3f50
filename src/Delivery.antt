-- ===== src/Delivery.antt =====
-- OutboxStore of backend/internal/persistence/outbox.go: the claims by which workers deliver outbox
-- rows. Each method is one statement, which PostgreSQL commits by itself. The rows that other
-- transactions have locked, which SKIP LOCKED passes over, are a parameter.
pub mod Claims
pub mod Claim
pub mod Heads
pub mod Disjoint
pub mod Retry
pub mod Pending
mod Tests
use Prim.Native.String.{compare}
use Prim.Native.Nat.{Ordering}
use live_route.Base.{
  ℕ, zero, suc, ◌+◌, ◌*◌, ◌/◌, ◌-◌, ◌^◌, String, Bool, true, false, ◌&&◌, ◌||◌, not, Option, none,
  some, List, [], ◌∷◌, ltb, leb, ◌==◌, if◌then◌else◌, same,
}
use live_route.Base.Table.{find_where, select_where, update_where, count_where, any_where}
use live_route.Base.Result.{
  Result, Error, ok, err, random_source, ◌>>=◌, ◌>>◌, guard, Link, reach, database, invalid_input,
  claim_lost, storage_contract, write_outbox,
}
use live_route.Store.{Db, Intent, Outbox, DeliveryState, ApplicationOrder, CommandKind}
use live_route.Lease.{Duration, nanoseconds, negative, milliseconds}
use live_route.Terminal.Rows.{same_delivery_state, text_of, time_of, has_text}
use live_route.Confirm.{is_settled}
use live_route.Delivery.Claims.{
  ClaimedOutboxRow, unowned, after, is_free, is_predecessor, is_candidate, text_before, due_before,
  insert_by, sort_by, take, candidates, claim, is_among, write_claims,
}

module _ (valid_json : String → Bool) where
  -- Scan and the checks of one row. A row whose intent is missing has a null event_id, which Scan
  -- refuses.
  pub claimed_row : Outbox → Option Intent → Result ClaimedOutboxRow
  claimed_row o none = err (database write_outbox)
  claimed_row o (some i) = do
    guard
        (not (
          o.mutation_sequence == 0
          || not (o.event_schema_version == 1)
          || o.attempt_count == 0
          || not (valid_json o.event_payload)))
        storage_contract
    ok (record {
      id = o.id;
      command_intent_id = o.command_intent_id;
      trip_id = o.trip_id;
      mutation_sequence = o.mutation_sequence;
      event_schema_version = o.event_schema_version;
      event_payload = o.event_payload;
      attempt_count = o.attempt_count;
      claim_expires_at = time_of o.claim_expires_at;
      event_id = i.event_id;
      expected_trip_revision = i.expected_trip_revision;
      application_order = i.application_order;
      command_kind = i.command_kind;
      command_expires_at = i.command_expires_at;
      resulting_trip_revision = time_of i.resulting_trip_revision;
      resulting_current_plan_id = text_of i.resulting_current_plan_id;
    })

  unfoldable pub claimed_rows : List Intent → List Outbox → Result (List ClaimedOutboxRow)
  unfolding claimed_row
  claimed_rows intents [] = ok []
  claimed_rows intents (o ∷ os) = do
    row ← claimed_row o (find_where (λ (i : Intent). same i.id o.command_intent_id) intents)
    rows ← claimed_rows intents os
    ok (row ∷ rows)

-- The order of the sort.Slice at the end of ClaimDue.
pub delivered_before : ClaimedOutboxRow → ClaimedOutboxRow → Bool
delivered_before a b =
    text_before a.trip_id b.trip_id
    || (same a.trip_id b.trip_id && ltb a.mutation_sequence b.mutation_sequence)

abbrev sorted : Result (List ClaimedOutboxRow) → Result (List ClaimedOutboxRow)
sorted rows = rows >>= λ rs. ok (sort_by delivered_before rs)

-- A row that breaks the storage contract is an error, but its claim and the others are committed.
unfoldable pub claim_rows :
    (String → Bool) → String → ℕ → ℕ → List Outbox → Db → Result (List ClaimedOutboxRow) × Db
unfolding write_claims delivered_before
claim_rows valid_json owner expires now chosen db =
    let db' = write_claims owner expires now chosen db in
    (sorted (claimed_rows valid_json db.intents (select_where (is_among chosen) db'.outbox)), db')

-- A failure before anything is written.
abbrev failed {ℓ} : {A : Type ℓ} → Db → Error → Result A × Db
failed db e = (err e, db)

abbrev pub checked {ℓ} : {A : Type ℓ} → Db → Result (Unit {0}) → Result A × Db → Result A × Db
checked db (ok u) rest = rest
checked db (err e) rest = failed db e

unfoldable pub claim_due :
    (String → Bool)
    → Link
    → ℕ
    → (Outbox → Bool)
    → Db
    → String
    → ℕ
    → Duration
    → Result (List ClaimedOutboxRow) × Db
unfolding candidates claim_rows milliseconds
claim_due valid_json link now locked db claim_owner batch_size claim_duration =
    checked db
      (do
        guard (not (same claim_owner "")) invalid_input
        guard (ltb 0 batch_size) invalid_input
        guard (ltb 0 (milliseconds claim_duration)) invalid_input
        reach link write_outbox)
      (claim_rows valid_json claim_owner (now + milliseconds claim_duration * 1000) now
        (candidates locked now batch_size db.outbox) db)

-- The WHERE clause of ReleaseForRetry and of PauseInternal: the claim is the caller's, and live.
abbrev pub is_claimed : ClaimedOutboxRow → String → ℕ → Outbox → Bool
is_claimed row claim_owner now o =
    same o.id row.id
    && same_delivery_state o.delivery_state DeliveryState.pending
    && has_text o.claim_owner claim_owner
    && o.attempt_count == row.attempt_count
    && after now o.claim_expires_at

-- The rows that an UPDATE affected: anything but one is a lost claim.
abbrev one_row : ℕ → Result (Unit {0})
one_row n = guard (n == 1) claim_lost

abbrev pub retry_at : ℕ → String → ℕ → Outbox → Outbox
retry_at next status now o = record o {
  next_attempt_at = next;
  last_status = some status;
  claim_owner = none;
  claim_expires_at = none;
  updated_at = now;
}

abbrev pub pause_row : String → ℕ → Outbox → Outbox
pause_row reason now o = record o {
  delivery_state = DeliveryState.paused_internal;
  last_status = some reason;
  claim_owner = none;
  claim_expires_at = none;
  updated_at = now;
}

abbrev at_most_30_seconds : Duration → Bool
at_most_30_seconds (nanoseconds n) = leb n 30_000_000_000
at_most_30_seconds (negative n) = false

abbrev pub microseconds : Duration → ℕ
microseconds (nanoseconds n) = n / 1000
microseconds (negative n) = 0

unfoldable pub retry_rows : ClaimedOutboxRow → String → String → ℕ → ℕ → Db → Db
retry_rows row claim_owner last_status next now db = record db {
  outbox = update_where (is_claimed row claim_owner now) (retry_at next last_status now) db.outbox;
}

unfoldable pub release_for_retry :
    Link → ℕ → Db → ClaimedOutboxRow → String → String → Duration → Result (Unit {0}) × Db
unfolding retry_rows
release_for_retry link now db row claim_owner last_status delay =
    checked db
      (do
        guard (not (same row.id "" || same claim_owner "" || row.attempt_count == 0)) invalid_input
        guard (not (same last_status "" || not (at_most_30_seconds delay))) invalid_input
        reach link write_outbox)
      (
        one_row (count_where (is_claimed row claim_owner now) db.outbox),
        retry_rows row claim_owner last_status (now + microseconds delay) now db,
      )

unfoldable pub pause_rows : ClaimedOutboxRow → String → String → ℕ → Db → Db
pause_rows row claim_owner reason now db = record db {
  outbox = update_where (is_claimed row claim_owner now) (pause_row reason now) db.outbox;
}

unfoldable pub pause_internal :
    Link → ℕ → Db → ClaimedOutboxRow → String → String → Result (Unit {0}) × Db
unfolding pause_rows
pause_internal link now db row claim_owner reason =
    checked db
      (do
        guard
            (not
              (same row.id "" || same claim_owner "" || row.attempt_count == 0 || same reason ""))
            invalid_input
        reach link write_outbox)
      (
        one_row (count_where (is_claimed row claim_owner now) db.outbox),
        pause_rows row claim_owner reason now db,
      )

-- The cap of the backoff of an attempt, in nanoseconds.
abbrev pub exponent : ℕ → ℕ
exponent attempt_count = if ltb 7 attempt_count then 7 else attempt_count

abbrev pub cap_duration : ℕ → ℕ
cap_duration attempt_count =
    if ltb 30_000_000_000 (250_000_000 * 2 ^ exponent attempt_count)
    then 30_000_000_000
    else 250_000_000 * 2 ^ exponent attempt_count

-- RetryDelay. rand.Int is a parameter: none is its error.
pub retry_delay : (ℕ → Option ℕ) → ℕ → Result Duration
retry_delay rand_int attempt_count = do
  guard (not (attempt_count == 0)) invalid_input
  elim (rand_int (cap_duration attempt_count + 1)) [
    | none ↦ err random_source
    | some value ↦ ok (nanoseconds value)
  ]
