-- ===== src/Delivery/Tests.antt =====
-- Claims of one trip's outbox.
use live_route.Base.{
  ℕ, zero, suc, ◌/◌, ◌*◌, ◌^◌, ◌≤◌, ◌<◌, String, ◌≡◌, refl, Bool, true, false, Option, none, some,
  [], ◌∷◌, arith, All, string_discrete, same,
}
use live_route.Base.Table.{find_where, select_where, update_where, count_where, any_where}
use live_route.Base.Result.{ok}
use live_route.Store.{Db, Outbox, ApplicationOrder, CommandKind}
use live_route.Lease.{Duration, nanoseconds, milliseconds}
use live_route.Fixture.{up, row, first_row, second_row, db}
use live_route.Delivery.{
  claimed_row, claimed_rows, claim_rows, delivered_before, claim_due, retry_rows, pause_rows,
  retry_at, pause_row, release_for_retry, pause_internal, retry_delay,
}
use live_route.Delivery.Claims.{
  ClaimedOutboxRow, claim, is_candidate, candidates, sort_by, insert_by, take, due_before,
  write_claims,
}
use live_route.Delivery.Disjoint.{Claiming, claiming, run_claims, claim_due-disjoint}
use live_route.Delivery.Heads.{IsHead, claim_due-IsHead}
use live_route.Delivery.Retry.{retry_delay_le}

abbrev any_json : String → Bool
any_json _ = true

abbrev unlocked : Outbox → Bool
unlocked _ = false

abbrev second : Duration
second = nanoseconds 1_000_000_000

-- A row after the one whose claim has expired.
abbrev next_row : Outbox
next_row = record row {
  id = "0197f3a2-0000-7000-8000-000000000007";
  mutation_sequence = 4;
  claim_owner = none;
  claim_expires_at = none;
}

abbrev due_db : Db
due_db = record db { outbox = first_row ∷ second_row ∷ row ∷ next_row ∷ [] }

abbrev claimed : ClaimedOutboxRow
claimed = record {
  id = "0197f3a2-0000-7000-8000-000000000004";
  command_intent_id = "0197f3a2-0000-7000-8000-000000000001";
  trip_id = "0197f3a2-0000-7000-8000-00000000000a";
  mutation_sequence = 3;
  event_schema_version = 1;
  event_payload = "{}";
  attempt_count = 2;
  claim_expires_at = 1_010_000;
  event_id = "0197f3a2-0000-7000-8000-000000000003";
  expected_trip_revision = 4;
  application_order = ApplicationOrder.runtime_first;
  command_kind = CommandKind.activity_delayed;
  command_expires_at = none;
  resulting_trip_revision = 0;
  resulting_current_plan_id = "";
}

abbrev claimed_outbox : Outbox
claimed_outbox = claim "other" 1_010_000 10_000 row

abbrev claimed_db : Db
claimed_db = record due_db { outbox = first_row ∷ second_row ∷ claimed_outbox ∷ next_row ∷ [] }

claims :
    claim_due any_json up 10_000 unlocked due_db "other" 5 second ≡ (ok (claimed ∷ []), claimed_db)
unfolding claim_due candidates is_candidate sort_by insert_by due_before take write_claims
    claim_rows claimed_rows claimed_row delivered_before milliseconds find_where select_where
    update_where any_where string_discrete
claims = refl

claims_nothing :
    claim_due any_json up 20_000 unlocked claimed_db "worker" 5 second ≡ (ok [], claimed_db)
unfolding claim_due candidates is_candidate sort_by insert_by due_before take write_claims
    claim_rows claimed_rows claimed_row delivered_before milliseconds find_where select_where
    update_where any_where string_discrete
claims_nothing = refl

claim_due-IsHead_example :
    All
      (λ (r : ClaimedOutboxRow). IsHead due_db.outbox r.trip_id r.mutation_sequence)
      (claimed ∷ [])
unfolding string_discrete
claim_due-IsHead_example =
    claim_due-IsHead any_json up 10_000 unlocked due_db claimed_db "other" 5 second (claimed ∷ [])
      ((refl, (refl, (refl, tt))), ((refl, (refl, tt)), ((refl, tt), (tt, tt)))) claims

-- Rows of two trips, claimed one by one.
abbrev other_row : Outbox
other_row = record row {
  id = "0197f3a2-0000-7000-8000-000000000008";
  trip_id = "0197f3a2-0000-7000-8000-0000000000aa";
}

abbrev two_db : Db
two_db = record db { outbox = row ∷ other_row ∷ [] }

abbrev claims_one : ℕ → Claiming
claims_one now = record {
  link = up;
  now = now;
  locked = unlocked;
  owner = "other";
  batch_size = 1;
  duration = second;
}

abbrev one_db : Db
one_db = record db { outbox = claimed_outbox ∷ other_row ∷ [] }

abbrev both_db : Db
both_db = record db { outbox = claimed_outbox ∷ claim "other" 1_020_000 20_000 other_row ∷ [] }

abbrev other_claimed : ClaimedOutboxRow
other_claimed = record claimed {
  id = "0197f3a2-0000-7000-8000-000000000008";
  trip_id = "0197f3a2-0000-7000-8000-0000000000aa";
  claim_expires_at = 1_020_000;
}

claims_first : claiming any_json (claims_one 10_000) two_db ≡ (ok (claimed ∷ []), one_db)
unfolding claim_due candidates is_candidate sort_by insert_by due_before take write_claims
    claim_rows claimed_rows claimed_row delivered_before milliseconds find_where select_where
    update_where any_where string_discrete
claims_first = refl

-- A call that the driver fails comes in between.
abbrev fails : Claiming
fails = record (claims_one 15_000) { link = λ stage. true }

claims_other :
    claiming any_json (claims_one 20_000) (run_claims any_json (fails ∷ []) one_db)
    ≡ (ok (other_claimed ∷ []), both_db)
unfolding run_claims claim_due candidates is_candidate sort_by insert_by due_before take
    write_claims claim_rows claimed_rows claimed_row delivered_before milliseconds find_where
    select_where update_where any_where string_discrete
claims_other = refl

claim_due-disjoint_example :
    All
      (λ (r' : ClaimedOutboxRow).
        All (λ (r : ClaimedOutboxRow). same r.id r'.id ≡ false) (claimed ∷ []))
      (other_claimed ∷ [])
unfolding milliseconds
claim_due-disjoint_example =
    claim_due-disjoint any_json (claims_one 10_000) (claims_one 20_000) (fails ∷ []) two_db one_db
      both_db (claimed ∷ []) (other_claimed ∷ []) claims_first claims_other
      (omega arith, (omega arith, tt))

abbrev released_db : Db
released_db = record due_db {
  outbox =
      first_row
      ∷ second_row
      ∷ retry_at 1_020_000 "UNAVAILABLE" 20_000 claimed_outbox
      ∷ next_row
      ∷ [];
}

releases :
    release_for_retry up 20_000 claimed_db claimed "other" "UNAVAILABLE" second
    ≡ (ok tt, released_db)
unfolding release_for_retry retry_rows count_where update_where string_discrete
releases = refl

abbrev paused_db : Db
paused_db = record due_db {
  outbox = first_row ∷ second_row ∷ pause_row "INTERNAL" 20_000 claimed_outbox ∷ next_row ∷ [];
}

pauses : pause_internal up 20_000 claimed_db claimed "other" "INTERNAL" ≡ (ok tt, paused_db)
unfolding pause_internal pause_rows count_where update_where string_discrete
pauses = refl

-- A source of random numbers that gives half the limit.
abbrev half : ℕ → Option ℕ
half zero = none
half (suc n) = some (n / 2)

half-below : (limit v : ℕ) → half limit ≡ some v → v < limit
half-below zero v h = absurd (cc)
half-below (suc n) v h = ground arith

delays : retry_delay half 3 ≡ ok (nanoseconds 1_000_000_000)
unfolding retry_delay
delays = refl

retry_delay_le_example :
    (v : ℕ) × (nanoseconds 1_000_000_000 ≡ nanoseconds v)
    × (v ≤ 30_000_000_000)
    × (3 ≤ 7 → v ≤ 250_000_000 * 2 ^ 3)
retry_delay_le_example = retry_delay_le half 3 (nanoseconds 1_000_000_000) half-below delays
