-- ===== src/Accepted/Effects.antt =====
-- The tables after a mutation is applied.
use live_route.Base.{
  ℕ, ◌+◌, String, Option, none, some, List, [], ◌∷◌, ◌++◌, arith, ◌≡◌, sym, ap, ◌∙◌,
}
use mathlib.Core.List.{append_assoc, append-nil}
use live_route.Base.Table.{delete_where}
use live_route.Base.Result.{ok, Link, >>=-eq-ok}
use live_route.Store.{Db, ActivityWindow, CommandKind}
use live_route.Accepted.Mutation.{AcceptedMutation, OpenWindow, OperatingHoursMutation}
use live_route.Accepted.Apply.{
  is_window, window_row, window_rows, insert_windows, replace_windows, update_activity,
  upsert_travel_delay, apply_accepted_mutation, with_part,
}

-- The tables that a mutation does not touch.
pub record Keeps (db mid : Db) : Type 0 where
  pub trips : mid.trips ≡ db.trips
  pub leases : mid.leases ≡ db.leases
  pub proposals : mid.proposals ≡ db.proposals
  pub intents : mid.intents ≡ db.intents
  pub outbox : mid.outbox ≡ db.outbox

insert_windows-eq :
    (link : Link) (t a : String) (index : ℕ) (ws : List OpenWindow)
    (stored stored' : List ActivityWindow)
    → insert_windows link t a index ws stored ≡ ok stored'
    → stored ++ window_rows t a index ws ≡ stored'
unfolding insert_windows window_rows
insert_windows-eq link t a index [] stored stored' h = append-nil stored ∙ ground arith
insert_windows-eq link t a index (w ∷ ws) stored stored' h =
    sym (append_assoc stored (window_row t a index w ∷ []) (window_rows t a (index + 1) ws))
    ∙ insert_windows-eq link t a (index + 1) ws (stored ++ window_row t a index w ∷ []) stored'
        (ground arith)

pub replace_windows-eq :
    (link : Link) (t : String) (v : OperatingHoursMutation) (db mid : Db)
    → replace_windows link t v db ≡ ok mid
    → record db {
      open_windows =
          delete_where (is_window t v.activity_id) db.open_windows
          ++ window_rows t v.activity_id 0 v.open_windows;
    }
      ≡ mid
unfolding replace_windows
replace_windows-eq link t v db mid h =
    let (s, e, w) =
      >>=-eq-ok
        (insert_windows link t v.activity_id 0 v.open_windows
          (delete_where (is_window t v.activity_id) db.open_windows))
        (λ stored. ok (record db { open_windows = stored })) {b = mid} (ground arith) in
    ap (λ stored. record db { open_windows = stored })
      (insert_windows-eq link t v.activity_id 0 v.open_windows _ s e)
    ∙ ground arith

module _ (link : Link) (t : String) (m : AcceptedMutation) (db mid : Db) where
  hours-Keeps :
      (h : Option OperatingHoursMutation)
      → with_part h (λ v. replace_windows link t v db) ≡ ok mid
      → Keeps db mid
  hours-Keeps none h = absurd (cc)
  hours-Keeps (some v) h = ground (arith, replace_windows-eq link t v db mid h)

  -- A mutation touches the three tables of activities only.
  pub apply-Keeps :
      (kind : CommandKind) → apply_accepted_mutation link t m kind db ≡ ok mid → Keeps db mid
  unfolding apply_accepted_mutation update_activity upsert_travel_delay
  apply-Keeps CommandKind.operating_hours_changed h = hours-Keeps m.operating_hours h
  apply-Keeps _ h = ground arith
