-- ===== src/Delivery/Pending.antt =====
-- PendingFinalizationConfirmations of backend/internal/persistence/outbox.go: for each trip, up to
-- where its commands are settled but not confirmed to the runtime.
use live_route.Base.{
  ℕ, zero, suc, ◌<◌, length, ap, String, Bool, ◌&&◌, not, List, [], ◌∷◌, All, All-map, ◌≤◌, ◌≡◌,
  refl, sym, ◌⊎◌, inl, inr, arith, ltb, ◌==◌, if◌then◌else◌, same, same_iff, both_branches,
}
use mathlib.Core.Path.{subst, ◌∙◌}
use live_route.Base.Table.{select_where}
use live_route.Base.Result.{
  Result, Result-cases, ok, ◌>>=◌, ◌>>◌, guard, Link, reach, invalid_input, storage_contract,
  read_outbox,
}
use live_route.Store.{Db, Outbox}
use live_route.Confirm.{is_settled, is_confirmed}
use live_route.Delivery.Claims.{text_before, take}

pub record PendingFinalizationConfirmation : Type 0 where
  pub trip_id : String
  pub finalized_mutation_sequence : ℕ

abbrev pub is_unconfirmed : Outbox → Bool
is_unconfirmed o = is_settled o.delivery_state && not (is_confirmed o.finalization_confirmed_at)

abbrev alone : Outbox → PendingFinalizationConfirmation
alone o = record { trip_id = o.trip_id; finalized_mutation_sequence = o.mutation_sequence }

abbrev at_least : ℕ → PendingFinalizationConfirmation → PendingFinalizationConfirmation
at_least n v = record v {
  finalized_mutation_sequence =
      if ltb v.finalized_mutation_sequence n then n else v.finalized_mutation_sequence;
}

-- A row joins the group of its trip; the groups are in the order of their trips.
unfoldable pub join_group :
    Outbox → List PendingFinalizationConfirmation → List PendingFinalizationConfirmation
join_group o [] = alone o ∷ []
join_group o (v ∷ vs) =
    let rest = join_group o vs in
    if same o.trip_id v.trip_id
    then at_least o.mutation_sequence v ∷ vs
    else if text_before o.trip_id v.trip_id
    then alone o ∷ v ∷ vs
    else v ∷ rest

-- GROUP BY and ORDER BY trip_id, with max(mutation_sequence).
unfoldable pub grouped : List Outbox → List PendingFinalizationConfirmation
grouped [] = []
grouped (o ∷ os) = join_group o (grouped os)

-- The check of the loop over the rows.
unfoldable pub checked_groups :
    List PendingFinalizationConfirmation → Result (List PendingFinalizationConfirmation)
checked_groups [] = ok []
checked_groups (v ∷ vs) = do
  guard (not (v.finalized_mutation_sequence == 0)) storage_contract
  rest ← checked_groups vs
  ok (v ∷ rest)

unfoldable pub pending_finalization_confirmations :
    Link → Db → ℕ → Result (List PendingFinalizationConfirmation)
pending_finalization_confirmations link db limit = do
  guard (ltb 0 limit) invalid_input
  reach link read_outbox
  checked_groups (take limit (grouped (select_where is_unconfirmed db.outbox)))

-- One of the values reaches the row.
abbrev pub Reaches : Outbox → List PendingFinalizationConfirmation → Type 0
Reaches o [] = ⊥
Reaches o (v ∷ vs) =
    ((o.trip_id ≡ v.trip_id) × (o.mutation_sequence ≤ v.finalized_mutation_sequence)) ⊎ Reaches o vs

at_least_le :
    (n : ℕ) (v : PendingFinalizationConfirmation)
    → (n ≤ (at_least n v).finalized_mutation_sequence)
      × (v.finalized_mutation_sequence ≤ (at_least n v).finalized_mutation_sequence)
at_least_le n v = (ground arith, ground arith)

join_group-Reaches :
    (o : Outbox) (vs : List PendingFinalizationConfirmation) → Reaches o (join_group o vs)
unfolding join_group
join_group-Reaches o [] = inl (refl, omega arith)
join_group-Reaches o (v ∷ vs) =
    both_branches (Reaches o) (same o.trip_id v.trip_id)
      (λ e. inl (same_iff o.trip_id v.trip_id e, (at_least_le o.mutation_sequence v).0))
      (λ _.
        both_branches (Reaches o) (text_before o.trip_id v.trip_id) (λ _. inl (refl, omega arith))
          (λ _. inr (join_group-Reaches o vs)))

join_group-keeps-Reaches :
    (p o : Outbox) (vs : List PendingFinalizationConfirmation)
    → Reaches p vs
    → Reaches p (join_group o vs)
unfolding join_group
join_group-keeps-Reaches p o [] h = absurd h
join_group-keeps-Reaches p o (v ∷ vs) (inl (t, n)) =
    both_branches (Reaches p) (same o.trip_id v.trip_id)
      (λ _. inl (t, omega (arith, n, (at_least_le o.mutation_sequence v).1)))
      (λ _.
        both_branches (Reaches p) (text_before o.trip_id v.trip_id) (λ _. inr (inl (t, n)))
          (λ _. inl (t, n)))
join_group-keeps-Reaches p o (v ∷ vs) (inr h) =
    both_branches (Reaches p) (same o.trip_id v.trip_id) (λ _. inr h)
      (λ _.
        both_branches (Reaches p) (text_before o.trip_id v.trip_id) (λ _. inr (inr h))
          (λ _. inr (join_group-keeps-Reaches p o vs h)))

-- Every row has a value that reaches it.
pub grouped-Reaches : (os : List Outbox) → All (λ (o : Outbox). Reaches o (grouped os)) os
unfolding grouped
grouped-Reaches [] = tt
grouped-Reaches (o ∷ os) = (
  join_group-Reaches o (grouped os),
  All-map _ _ os (λ p. join_group-keeps-Reaches p o (grouped os)) (grouped-Reaches os),
)

take_short :
    (n : ℕ) (vs : List PendingFinalizationConfirmation) → length (take n vs) < n → take n vs ≡ vs
unfolding take
take_short zero vs h = absurd (omega (arith, h))
take_short (suc n) [] h = refl
take_short (suc n) (v ∷ vs) h = ap (λ z. v ∷ z) (take_short n vs (omega (arith, h)))

checked_groups-eq :
    (us vs : List PendingFinalizationConfirmation) → checked_groups us ≡ ok vs → us ≡ vs
unfolding checked_groups
checked_groups-eq [] vs h = ground arith
checked_groups-eq (u ∷ us) vs h = elim (Result-cases (checked_groups us)) [
  | inl found ↦ ap (λ z. u ∷ z) (checked_groups-eq us found.0 found.1) ∙ ground (arith, found.1)
  | inr failed ↦ absurd (ground (arith, failed.1))
]

-- When fewer values come back than were asked for, every settled row that is not confirmed belongs
-- to the trip of one of them, and is not above its sequence.
pub pending_finalization_confirmations-Reaches :
    (link : Link) (db : Db) (limit : ℕ) (vs : List PendingFinalizationConfirmation)
    → pending_finalization_confirmations link db limit ≡ ok vs
    → length vs < limit
    → All (λ (o : Outbox). Reaches o vs) (select_where is_unconfirmed db.outbox)
unfolding pending_finalization_confirmations
pending_finalization_confirmations-Reaches link db limit vs h n =
    let rows = select_where is_unconfirmed db.outbox in
    let e = checked_groups-eq (take limit (grouped rows)) vs (ground arith) in
    let whole = take_short limit (grouped rows) (subst (λ z. length z < limit) (sym e) n) in
    subst (λ z. All (λ (o : Outbox). Reaches o z) rows) (sym whole ∙ e) (grouped-Reaches rows)
