-- ===== src/Accepted/Hours.antt =====
-- The opening hours that an accepted mutation stores.
use live_route.Base.{
  ℕ, ◌+◌, String, Bool, true, false, ◌&&◌, some, List, [], ◌∷◌, ◌++◌, ℤ, pos, before, same,
  same_self, arith, ◌≡◌, refl, ap, sym, ◌∙◌, inl, inr,
}
use mathlib.Core.Path.{subst}
use mathlib.Core.List.{append-nil}
use live_route.Base.Table.{select_where, delete_where}
use live_route.Base.Table.Selected.{
  select_where-append, select_where-delete_where_ne, select_where-delete_where_self,
}
use live_route.Base.Result.{ok, Link, ◌>>◌, guard, invalid_input, >>=-eq-ok}
use live_route.Store.{Db, ActivityWindow, CommandKind}
use live_route.Terminal.Rows.{FinalizedCommand}
use live_route.Accepted.{write_accepted, finalize_accepted_mutation}
use live_route.Accepted.Mutation.{
  AcceptedMutation, OpenWindow, OperatingHoursMutation, FinalizeAcceptedMutationRequest, normalized,
  mutation_kind, check_mutation, all_canonical, checked_kind, kind_of_valid,
  validate_accepted_mutation_request,
}
use live_route.Accepted.Apply.{
  is_window, window_row, window_rows, replace_windows, with_part, apply_accepted_mutation,
}
use live_route.Accepted.Effects.{replace_windows-eq}
use live_route.Accepted.Outcome.{finalize_accepted_mutation-Applied}

-- The next window does not open before the time.
abbrev pub Follows : ℤ → List OpenWindow → Type 0
Follows close [] = Unit
Follows close (w ∷ ws) = before w.opens_at_unix_milliseconds close ≡ false

-- Each window opens before it closes, and not before the one ahead of it has closed.
abbrev pub IsNormalized : List OpenWindow → Type 0
IsNormalized [] = Unit
IsNormalized (w ∷ ws) =
    (before w.opens_at_unix_milliseconds w.closes_at_unix_milliseconds ≡ true)
    × Follows w.closes_at_unix_milliseconds ws
    × IsNormalized ws

normalized-Follows :
    (close : ℤ) (ws : List OpenWindow) → normalized true close ws ≡ true → Follows close ws
unfolding normalized
normalized-Follows close [] h = tt
normalized-Follows close (w ∷ ws) h = ground arith

normalized-IsNormalized :
    (later : Bool) (close : ℤ) (ws : List OpenWindow)
    → normalized later close ws ≡ true
    → IsNormalized ws
unfolding normalized
normalized-IsNormalized later close [] h = tt
normalized-IsNormalized later close (w ∷ ws) h =
    let rest : normalized true w.closes_at_unix_milliseconds ws ≡ true = ground arith in
    (
      ground arith,
      normalized-Follows w.closes_at_unix_milliseconds ws rest,
      normalized-IsNormalized true w.closes_at_unix_milliseconds ws rest,
    )

-- A mutation with opening hours that has a kind has this one.
mutation_kind-hours :
    (m : AcceptedMutation) (v : OperatingHoursMutation) (kind : CommandKind)
    → m.operating_hours ≡ some v
    → mutation_kind m ≡ ok kind
    → kind ≡ CommandKind.operating_hours_changed
unfolding mutation_kind
mutation_kind-hours m v kind e h = ground arith

check_mutation-hours :
    (m : AcceptedMutation) (v : OperatingHoursMutation) (ids : List String)
    → m.operating_hours ≡ some v
    → check_mutation CommandKind.operating_hours_changed m ≡ ok ids
    → normalized false (pos 0) v.open_windows ≡ true
unfolding check_mutation
check_mutation-hours m v ids e h = ground (arith, e)

-- The rows are the windows of the activity in their order, with their times and positions.
abbrev pub AreWindows : String → String → ℕ → List OpenWindow → List ActivityWindow → Type 0
AreWindows t id index [] [] = Unit
AreWindows t id index [] (o ∷ os) = ⊥
AreWindows t id index (w ∷ ws) [] = ⊥
AreWindows t id index (w ∷ ws) (o ∷ os) =
    (o.trip_id ≡ t)
    × (o.activity_id ≡ id)
    × (o.window_index ≡ index)
    × (o.opens_at ≡ w.opens_at_unix_milliseconds)
    × (o.closes_at ≡ w.closes_at_unix_milliseconds)
    × AreWindows t id (index + 1) ws os

window_rows-AreWindows :
    (t id : String) (index : ℕ) (ws : List OpenWindow)
    → AreWindows t id index ws (window_rows t id index ws)
unfolding window_rows
window_rows-AreWindows t id index [] = tt
window_rows-AreWindows t id index (w ∷ ws) =
    (refl, refl, refl, refl, refl, window_rows-AreWindows t id (index + 1) ws)

-- The stored windows of the activity are those of the mutation, and no other activity's change.
pub record StoresHours (t : String) (v : OperatingHoursMutation) (db db' : Db) : Type 0 where
  pub stored : AreWindows t v.activity_id 0 v.open_windows (
      select_where
        (λ (o : ActivityWindow). same o.trip_id t && same o.activity_id v.activity_id)
        db'.open_windows)
  pub normal : IsNormalized v.open_windows
  pub others :
      (u a : String)
      → (same t u && same v.activity_id a) ≡ false
      → select_where (is_window u a) db'.open_windows ≡ select_where (is_window u a) db.open_windows

module _ (t id : String) where
  select-window_rows :
      (index : ℕ) (ws : List OpenWindow)
      → select_where (is_window t id) (window_rows t id index ws) ≡ window_rows t id index ws
  unfolding select_where window_rows
  select-window_rows index [] = refl
  select-window_rows index (w ∷ ws) =
      rw (same_self t, same_self id)
        (ap (λ rest. window_row t id index w ∷ rest) (select-window_rows (index + 1) ws))

  select-window_rows-other :
      (u a : String) (index : ℕ) (ws : List OpenWindow)
      → (same t u && same id a) ≡ false
      → select_where (is_window u a) (window_rows t id index ws) ≡ []
  unfolding select_where window_rows
  select-window_rows-other u a index [] h = refl
  select-window_rows-other u a index (w ∷ ws) h =
      rw h (select-window_rows-other u a (index + 1) ws h)

  apart_windows :
      (u a : String) (w : ActivityWindow)
      → (same t u && same id a) ≡ false
      → is_window t id w ≡ true
      → is_window u a w ≡ false
  apart_windows u a w h p = ground arith

module _ (link : Link) (t : String) (v : OperatingHoursMutation) (db mid : Db) where
  replace_windows-StoresHours :
      normalized false (pos 0) v.open_windows ≡ true
      → replace_windows link t v db ≡ ok mid
      → StoresHours t v db mid
  replace_windows-StoresHours n h =
      let kept = delete_where (is_window t v.activity_id) db.open_windows in
      let rows = window_rows t v.activity_id 0 v.open_windows in
      subst (StoresHours t v db) (replace_windows-eq link t v db mid h) (record {
        stored =
            subst (AreWindows t v.activity_id 0 v.open_windows)
              (sym (
                select_where-append (is_window t v.activity_id) kept rows
                ∙ ap (λ ws. ws ++ select_where (is_window t v.activity_id) rows)
                    (select_where-delete_where_self (is_window t v.activity_id) db.open_windows)
                ∙ select-window_rows t v.activity_id 0 v.open_windows))
              (window_rows-AreWindows t v.activity_id 0 v.open_windows);
        normal = normalized-IsNormalized false (pos 0) v.open_windows n;
        others = λ u a e.
            select_where-append (is_window u a) kept rows
            ∙ ap (λ ws. select_where (is_window u a) kept ++ ws)
                (select-window_rows-other t v.activity_id u a 0 v.open_windows e)
            ∙ append-nil _
            ∙ select_where-delete_where_ne (is_window u a) (is_window t v.activity_id)
                db.open_windows (λ w. apart_windows t v.activity_id u a w e);
      })

module _ (m : AcceptedMutation) (v : OperatingHoursMutation)
    (given : m.operating_hours ≡ some v) where
  check-hours :
      (k kind : CommandKind)
      → k ≡ CommandKind.operating_hours_changed
      → checked_kind m k ≡ ok kind
      → (kind ≡ CommandKind.operating_hours_changed)
        × (normalized false (pos 0) v.open_windows ≡ true)
  check-hours k kind e h =
      let (ids, checked, last) =
        >>=-eq-ok (check_mutation k m) (λ ids. guard (all_canonical ids) invalid_input >> ok k)
          {b = kind} h in
      let returned : k ≡ kind = ground arith in
      (
        sym returned ∙ e,
        check_mutation-hours m v ids given (subst (λ k'. check_mutation k' m ≡ ok ids) e checked),
      )

  -- A valid mutation with opening hours is of this kind, with normalized windows.
  kind_of_valid-hours :
      (kind : CommandKind)
      → kind_of_valid m ≡ ok kind
      → (kind ≡ CommandKind.operating_hours_changed)
        × (normalized false (pos 0) v.open_windows ≡ true)
  unfolding kind_of_valid
  kind_of_valid-hours kind h =
      let (k, named, c) = >>=-eq-ok (mutation_kind m) (checked_kind m) {b = kind} h in
      check-hours k kind (mutation_kind-hours m v k given named) c

  apply-hours :
      (link : Link) (t : String) (kind : CommandKind) (db mid : Db)
      → kind ≡ CommandKind.operating_hours_changed
      → apply_accepted_mutation link t m kind db ≡ ok mid
      → replace_windows link t v db ≡ ok mid
  unfolding apply_accepted_mutation
  apply-hours link t kind db mid e h =
      subst (λ o. with_part o (λ w. replace_windows link t w db) ≡ ok mid) given
        (subst (λ k. apply_accepted_mutation link t m k db ≡ ok mid) e h)

valid_mutation :
    (r : FinalizeAcceptedMutationRequest) (kind : CommandKind)
    → validate_accepted_mutation_request r ≡ ok kind
    → kind_of_valid r.mutation ≡ ok kind
unfolding validate_accepted_mutation_request
valid_mutation r kind h = ground arith

module _ (link : Link) (now : ℕ) (db db' : Db) (r : FinalizeAcceptedMutationRequest)
    (res : FinalizedCommand) where
  -- When a mutation with opening hours succeeds for the first time, the windows that the activity has
  -- afterwards are exactly those of the request, numbered from 0 in their order; each opens before it
  -- closes and none before the one ahead of it has closed; and no other activity's windows change.
  pub finalize_accepted_mutation-StoresHours :
      (v : OperatingHoursMutation)
      → (r.mutation).operating_hours ≡ some v
      → finalize_accepted_mutation link now db r ≡ (ok res, db')
      → res.duplicate ≡ false
      → StoresHours r.trip_id v db db'
  unfolding write_accepted
  finalize_accepted_mutation-StoresHours v given h fresh =
      let d = finalize_accepted_mutation-Applied link now db db' r res h in
      let (e, n) =
        kind_of_valid-hours r.mutation v given d.kind (valid_mutation r d.kind d.valid) in
      elim d.how [
        | inl a ↦ absurd (ground (arith, a.result))
        | inr f ↦
            let w : StoresHours r.trip_id v db f.changed =
              replace_windows-StoresHours link r.trip_id v db f.changed n
                (apply-hours r.mutation v given link r.trip_id d.kind db f.changed e f.applied) in
            subst (StoresHours r.trip_id v db) f.written
              (record { stored = w.stored; normal = w.normal; others = w.others })
      ]
