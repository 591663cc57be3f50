-- ===== src/Delivery/Claim.antt =====
-- What the lists of a claim keep, and the result of a ClaimDue that succeeds.
use mathlib.Core.Path.{subst}
use live_route.Base.{
  ℕ, zero, suc, ◌+◌, ◌*◌, String, ◌≡◌, inl, inr, Bool, true, not, Option, none, some, List, [], ◌∷◌,
  arith, All, same, Bool-cases,
}
use live_route.Base.Table.{find_where, select_where, All-select_where}
use live_route.Base.Result.{ok, Link, Result-cases}
use live_route.Store.{Db, Intent, Outbox}
use live_route.Lease.{Duration, milliseconds}
use live_route.Delivery.{claimed_row, claimed_rows, claim_rows, claim_due, delivered_before}
use live_route.Delivery.Claims.{
  ClaimedOutboxRow, insert_by, sort_by, take, is_among, candidates, is_candidate, due_before,
  write_claims,
}

module _ {ℓ κ} {A : Type ℓ} (P : A → Type κ) (before : A → A → Bool) where
  All-insert_by : (x : A) (xs : List A) → P x → All P xs → All P (insert_by before x xs)
  unfolding insert_by
  All-insert_by x [] p h = (p, tt)
  All-insert_by x (y ∷ ys) p h = elim (Bool-cases (before y x)) [
    | inl e ↦ rw e (h.0, All-insert_by x ys p h.1)
    | inr e ↦ rw e (p, (h.0, h.1))
  ]

  pub All-sort_by : (xs : List A) → All P xs → All P (sort_by before xs)
  unfolding sort_by
  All-sort_by [] h = tt
  All-sort_by (x ∷ xs) h = All-insert_by x (sort_by before xs) h.0 (All-sort_by xs h.1)

  pub All-take : (n : ℕ) (xs : List A) → All P xs → All P (take n xs)
  unfolding take
  All-take zero xs h = tt
  All-take (suc n) [] h = tt
  All-take (suc n) (x ∷ xs) h = (h.0, All-take n xs h.1)

  pub All-select_kept : (p : A → Bool) (xs : List A) → All P xs → All P (select_where p xs)
  unfolding select_where
  All-select_kept p [] h = tt
  All-select_kept p (x ∷ xs) h = elim (Bool-cases (p x)) [
    | inl e ↦ rw e (h.0, All-select_kept p xs h.1)
    | inr e ↦ rw e (All-select_kept p xs h.1)
  ]

-- The rows that a claim takes are candidates, whatever else holds of the table's rows.
pub candidates-All {κ} :
    (P : Outbox → Type κ) (locked : Outbox → Bool) (now limit : ℕ) (rows : List Outbox)
    → All (λ o. is_candidate now rows o ≡ true → P o) rows
    → All P (candidates locked now limit rows)
unfolding candidates
candidates-All P locked now limit rows h = All-take P due_before limit _ (
    All-sort_by P due_before _ (
      All-select_kept P due_before (λ o. not (locked o)) _
        (All-select_where P (is_candidate now rows) rows h)))

-- A result row has the columns of the row that it was scanned from.
abbrev pub Scanned : Outbox → ClaimedOutboxRow → Type 0
Scanned o c = (c.id ≡ o.id) × (c.trip_id ≡ o.trip_id) × (c.mutation_sequence ≡ o.mutation_sequence)

module _ (valid_json : String → Bool) where
  claimed_row-Scanned :
      (o : Outbox) (i : Option Intent) (c : ClaimedOutboxRow)
      → claimed_row valid_json o i ≡ ok c
      → Scanned o c
  unfolding claimed_row
  claimed_row-Scanned o none c h = absurd (cc)
  claimed_row-Scanned o (some i) c h = (ground arith, ground arith, ground arith)

  split_rows :
      (intents : List Intent) (o : Outbox) (os : List Outbox) (cs : List ClaimedOutboxRow)
      → claimed_rows valid_json intents (o ∷ os) ≡ ok cs
      → (d : ClaimedOutboxRow) × (ds : List ClaimedOutboxRow) × (claimed_row valid_json o
            (find_where (λ (i : Intent). same i.id o.command_intent_id) intents)
          ≡ ok d)
        × (claimed_rows valid_json intents os ≡ ok ds)
        × (d ∷ ds ≡ cs)
  unfolding claimed_rows
  split_rows intents o os cs h =
      elim (Result-cases (
        claimed_row valid_json o
          (find_where (λ (i : Intent). same i.id o.command_intent_id) intents))) [
            | inl (d, e) ↦ elim (Result-cases (claimed_rows valid_json intents os)) [
              | inl (ds, es) ↦ (d, ds, e, es, ground (arith, e, es))
              | inr (x, es) ↦ absurd (ground (arith, e, es))
            ]
            | inr (x, e) ↦ absurd (ground (arith, e))
          ]

  pub claimed_rows-All {κ μ} :
      (P : Outbox → Type κ) (Q : ClaimedOutboxRow → Type μ) (intents : List Intent)
      (os : List Outbox) (cs : List ClaimedOutboxRow)
      → ((o : Outbox) (c : ClaimedOutboxRow) → Scanned o c → P o → Q c)
      → All P os
      → claimed_rows valid_json intents os ≡ ok cs
      → All Q cs
  claimed_rows-All P Q intents [] cs f h e =
      let e' : [] ≡ cs = (unfold claimed_rows in ground (arith, e)) in subst (All Q) e' tt
  claimed_rows-All P Q intents (o ∷ os) cs f h e =
      let (d, ds, e1, e2, joined) = split_rows intents o os cs e in
      subst (All Q) joined
        (f o d (claimed_row-Scanned o _ d e1) h.0, claimed_rows-All P Q intents os ds f h.1 e2)

  module _ (link : Link) (now : ℕ) (locked : Outbox → Bool) (db db' : Db) (owner : String)
      (batch_size : ℕ) (duration : Duration) (rows : List ClaimedOutboxRow) where
    abbrev pub chosen : List Outbox
    chosen = candidates locked now batch_size db.outbox

    abbrev pub claimed_db : Db
    claimed_db = write_claims owner (now + milliseconds duration * 1000) now chosen db

    -- The rows that RETURNING gives, as they were scanned.
    pub record Claimed : Type 0 where
      pub scanned : List ClaimedOutboxRow
      pub from_rows :
          claimed_rows valid_json db.intents (select_where (is_among chosen) claimed_db.outbox)
          ≡ ok scanned
      pub ordered : sort_by delivered_before scanned ≡ rows
      pub written : claimed_db ≡ db'

    rows_ok :
        claim_rows valid_json owner (now + milliseconds duration * 1000) now chosen db
          ≡ (ok rows, db')
        → Claimed
    unfolding claim_rows
    rows_ok h =
        elim (Result-cases
          (claimed_rows valid_json db.intents (select_where (is_among chosen) claimed_db.outbox))) [
            | inl (cs, e) ↦ record {
              scanned = cs;
              from_rows = e;
              ordered = ground (arith, e);
              written = ground (arith, e);
            }
            | inr (x, e) ↦ absurd (ground (arith, e))
          ]

    pub claim_due-Claimed :
        claim_due valid_json link now locked db owner batch_size duration ≡ (ok rows, db') → Claimed
    unfolding claim_due
    claim_due-Claimed h = rows_ok (ground arith)
