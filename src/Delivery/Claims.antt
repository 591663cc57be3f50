-- ===== src/Delivery/Claims.antt =====
-- The statement of ClaimDue in backend/internal/persistence/outbox.go: its candidates and what it
-- writes to them. The rows that other transactions have locked are a parameter.
use Prim.Native.String.{compare}
use Prim.Native.Nat.{Ordering}
use live_route.Base.{
  ℕ, zero, suc, ◌+◌, String, Bool, true, false, ◌&&◌, ◌||◌, not, Option, none, some, List, [], ◌∷◌,
  ltb, leb, ◌==◌, if◌then◌else◌, same,
}
use live_route.Base.Table.{select_where, update_where, any_where}
use live_route.Store.{Db, Outbox, DeliveryState, ApplicationOrder, CommandKind}
use live_route.Terminal.Rows.{same_delivery_state}
use live_route.Confirm.{is_settled}

pub record ClaimedOutboxRow : Type 0 where
  pub id : String
  pub command_intent_id : String
  pub trip_id : String
  pub mutation_sequence : ℕ
  pub event_schema_version : ℕ
  pub event_payload : String
  pub attempt_count : ℕ
  pub claim_expires_at : ℕ
  pub event_id : String
  pub expected_trip_revision : ℕ
  pub application_order : ApplicationOrder
  pub command_kind : CommandKind
  pub command_expires_at : Option ℕ
  pub resulting_trip_revision : ℕ
  pub resulting_current_plan_id : String

abbrev expired_by : ℕ → Option ℕ → Bool
expired_by now none = false
expired_by now (some t) = leb t now

abbrev pub unowned : Option String → Bool
unowned none = true
unowned (some _) = false

-- claim_expires_at > now
abbrev pub after : ℕ → Option ℕ → Bool
after now none = false
after now (some t) = ltb now t

-- claim_owner IS NULL OR claim_expires_at <= now
abbrev pub is_free : ℕ → Outbox → Bool
is_free now o = unowned o.claim_owner || expired_by now o.claim_expires_at

-- A row of the trip that has to be settled first.
abbrev pub is_predecessor : Outbox → Outbox → Bool
is_predecessor o p =
    same p.trip_id o.trip_id
    && ltb p.mutation_sequence o.mutation_sequence
    && not (is_settled p.delivery_state)

unfoldable pub is_candidate : ℕ → List Outbox → Outbox → Bool
is_candidate now rows o =
    same_delivery_state o.delivery_state DeliveryState.pending
    && leb o.next_attempt_at now
    && is_free now o
    && not (any_where (is_predecessor o) rows)

-- The order of the texts, by their code points.
abbrev pub text_before : String → String → Bool
text_before s t = elim (compare s t) [ Ordering.lt ↦ true | _ ↦ false ]

-- ORDER BY next_attempt_at, trip_id, mutation_sequence
unfoldable pub due_before : Outbox → Outbox → Bool
due_before a b =
    ltb a.next_attempt_at b.next_attempt_at
    || (a.next_attempt_at == b.next_attempt_at
        && (text_before a.trip_id b.trip_id
            || (same a.trip_id b.trip_id && ltb a.mutation_sequence b.mutation_sequence)))

module _ {ℓ} {A : Type ℓ} where
  unfoldable pub insert_by : (A → A → Bool) → A → List A → List A
  insert_by before x [] = x ∷ []
  insert_by before x (y ∷ ys) =
      let rest = insert_by before x ys in if before y x then y ∷ rest else x ∷ y ∷ ys

  -- ORDER BY and sort.Slice.
  unfoldable pub sort_by : (A → A → Bool) → List A → List A
  unfolding insert_by
  sort_by before [] = []
  sort_by before (x ∷ xs) = insert_by before x (sort_by before xs)

  -- LIMIT
  unfoldable pub take : ℕ → List A → List A
  take zero xs = []
  take (suc n) [] = []
  take (suc n) (x ∷ xs) = x ∷ take n xs

-- The candidates of the statement, with SKIP LOCKED and LIMIT.
unfoldable pub candidates : (Outbox → Bool) → ℕ → ℕ → List Outbox → List Outbox
unfolding is_candidate due_before
candidates locked now limit rows = take limit (
    sort_by due_before
      (select_where (λ o. not (locked o)) (select_where (is_candidate now rows) rows)))

abbrev pub claim : String → ℕ → ℕ → Outbox → Outbox
claim owner expires now o = record o {
  claim_owner = some owner;
  claim_expires_at = some expires;
  attempt_count = o.attempt_count + 1;
  last_attempt_at = some now;
  updated_at = now;
}

abbrev pub is_among : List Outbox → Outbox → Bool
is_among chosen o = any_where (λ (c : Outbox). same c.id o.id) chosen

unfoldable pub write_claims : String → ℕ → ℕ → List Outbox → Db → Db
write_claims owner expires now chosen db = record db {
  outbox = update_where (is_among chosen) (claim owner expires now) db.outbox;
}
