-- ===== src/Delivery/Heads.antt =====
-- A claim takes a row only when nothing of its trip before it is unsettled.
use mathlib.Core.Path.{subst}
use live_route.Base.{
  ℕ, ◌+◌, ◌*◌, ◌<◌, String, ◌≡◌, sym, inl, inr, Bool, true, false, List, [], ◌∷◌, arith, All,
  All-map, All-both, All-always, same, Bool-cases,
}
use live_route.Base.Table.{any_where, All-select_where, All-update_where_to}
use live_route.Base.Table.Keyed.{Keyed, Keyed-only, any_where-none}
use live_route.Base.Result.{ok, Link}
use live_route.Store.{Db, Outbox}
use live_route.Lease.{Duration, milliseconds}
use live_route.Confirm.{is_settled}
use live_route.Delivery.{claim_due, delivered_before}
use live_route.Delivery.Claims.{
  ClaimedOutboxRow, is_among, is_candidate, is_predecessor, claim, candidates, write_claims,
}
use live_route.Delivery.Claim.{
  All-sort_by, candidates-All, Scanned, claimed_rows-All, claim_due-Claimed,
}

abbrev pub same_id : Outbox → Outbox → Bool
same_id a b = same a.id b.id

-- Every row of the trip with a smaller sequence is accepted or terminally rejected.
abbrev pub IsHead : List Outbox → String → ℕ → Type 0
IsHead rows trip_id sequence =
    All
      (λ (p : Outbox).
        same p.trip_id trip_id ≡ true
        → p.mutation_sequence < sequence
        → is_settled p.delivery_state ≡ true)
      rows

candidate-IsHead :
    (now : ℕ) (rows : List Outbox) (o : Outbox)
    → is_candidate now rows o ≡ true
    → IsHead rows o.trip_id o.mutation_sequence
unfolding is_candidate
candidate-IsHead now rows o h =
    All-map _ _ rows (λ p e s lt. ground (arith, e))
      (any_where-none (is_predecessor o) rows (ground arith))

swapped : (a b : Outbox) → same_id a b ≡ true → same_id b a ≡ true
swapped a b h = ground arith

module _ (now : ℕ) (rows : List Outbox) where
  -- A candidate that no other row of the table shares its id with.
  abbrev Unique : Outbox → Type 0
  Unique c = (is_candidate now rows c ≡ true) × All (λ o. same_id c o ≡ true → o ≡ c) rows

  among_candidates :
      (chosen : List Outbox)
      → All Unique chosen
      → (All (λ (o : Outbox). is_among chosen o ≡ true → is_candidate now rows o ≡ true) rows)
  unfolding any_where
  among_candidates [] h =
      All-map _ _ rows (λ o e a. absurd (ground arith)) (All-always (λ _. Unit {0}) rows λ _. tt)
  among_candidates (c ∷ cs) h =
      All-map _ _ rows
        (λ o e a. elim (Bool-cases (same_id c o)) [
          | inl s ↦ subst (λ x. is_candidate now rows x ≡ true) (sym (e.0 s)) (h.0).0
          | inr s ↦ e.1 (ground arith)
        ])
        (All-both _ _ rows (h.0).1 (among_candidates cs h.1))

  rows-Unique : Keyed same_id rows → All (λ c. is_candidate now rows c ≡ true → Unique c) rows
  rows-Unique k = All-map _ _ rows (λ c u e. (e, u)) (Keyed-only same_id rows swapped k)

module _ (valid_json : String → Bool) (link : Link) (now : ℕ) (locked : Outbox → Bool) (db db' : Db)
    (owner : String) (batch_size : ℕ) (duration : Duration) (rows : List ClaimedOutboxRow) where
  abbrev Head : ClaimedOutboxRow → Type 0
  Head r = IsHead db.outbox r.trip_id r.mutation_sequence

  abbrev HeadRow : Outbox → Type 0
  HeadRow o = IsHead db.outbox o.trip_id o.mutation_sequence

  abbrev chosen : List Outbox
  chosen = candidates locked now batch_size db.outbox

  scanned-Head : (o : Outbox) (r : ClaimedOutboxRow) → Scanned o r → HeadRow o → Head r
  scanned-Head o r s e = rw (s.1, s.2) e

  unchosen : (o : Outbox) → is_among chosen o ≡ false → is_among chosen o ≡ true → HeadRow o
  unchosen o e e' = absurd (ground (arith, e, e'))

  head_rows :
      Keyed same_id db.outbox
      → All
          (λ o. is_among chosen o ≡ true → HeadRow o)
          (write_claims owner (now + milliseconds duration * 1000) now chosen db).outbox
  unfolding write_claims
  head_rows k =
      All-update_where_to (λ o. is_among chosen o ≡ true → is_candidate now db.outbox o ≡ true)
        (λ o. is_among chosen o ≡ true → HeadRow o) (is_among chosen)
        (claim owner (now + milliseconds duration * 1000) now) db.outbox
        (λ o e f _. candidate-IsHead now db.outbox o (f e)) (λ o e f. unchosen o e)
        (among_candidates now db.outbox chosen (
          candidates-All (Unique now db.outbox) locked now batch_size db.outbox
            (rows-Unique now db.outbox k)))

  -- Every row that ClaimDue returns is the head of its trip: in the table that the call found, each
  -- row of the trip with a smaller mutation sequence was accepted or terminally rejected. (The ids of
  -- the table are its primary key.)
  pub claim_due-IsHead :
      Keyed same_id db.outbox
      → claim_due valid_json link now locked db owner batch_size duration ≡ (ok rows, db')
      → All (λ (r : ClaimedOutboxRow). IsHead db.outbox r.trip_id r.mutation_sequence) rows
  claim_due-IsHead k h =
      let c =
        claim_due-Claimed valid_json link now locked db db' owner batch_size duration rows h in
      subst (All Head) c.ordered (
        All-sort_by Head delivered_before c.scanned (
          claimed_rows-All valid_json HeadRow Head db.intents _ c.scanned scanned-Head
            (All-select_where HeadRow (is_among chosen) _ (head_rows k)) c.from_rows))
