-- ===== src/Dispatch/Stores.antt =====
-- What the store methods that the dispatcher calls do to the settled rows of the outbox.
use live_route.Base.{
  String, Bool, true, ◌&&◌, some, List, [], ◌∷◌, same, ◌≡◌, refl, inl, inr, arith, Bool-cases,
}
use mathlib.Core.Path.{subst}
use live_route.Base.Table.{find_where, update_where, any_where, find_where-holds}
use live_route.Store.{Db, Outbox, DeliveryState}
use live_route.Confirm.{is_settled}
use live_route.Terminal.Rows.{same_delivery_state, is_outbox_of}

module _ {ℓ} {A : Type ℓ} where
  pub any_where-update_where :
      (q p : A → Bool) (f : A → A) (xs : List A)
      → ((x : A) → p x ≡ true → q x ≡ true → q (f x) ≡ true)
      → any_where q xs ≡ true
      → any_where q (update_where p f xs) ≡ true
  unfolding any_where update_where
  any_where-update_where q p f [] k h = h
  any_where-update_where q p f (x ∷ xs) k h = elim (Bool-cases (q x)) [
    | inl hit ↦ ground (arith, k x)
    | inr miss ↦ let rest = any_where-update_where q p f xs k (ground arith) in ground (arith, rest)
  ]

  pub any_where_of_find :
      (q p : A → Bool) (xs : List A) (a : A)
      → find_where p xs ≡ some a
      → q a ≡ true
      → any_where q xs ≡ true
  unfolding any_where find_where
  any_where_of_find q p [] a h g = absurd (cc)
  any_where_of_find q p (x ∷ xs) a h g = elim (Bool-cases (p x)) [
    | inl hit ↦ let e : a ≡ x = ground arith in let g' = subst (λ z. q z ≡ true) e g in ground arith
    | inr miss ↦ let rest = any_where_of_find q p xs a (ground arith) g in ground (arith, rest)
  ]

  -- The row that was found is updated.
  pub any_where_of_update :
      (q p u : A → Bool) (f : A → A) (xs : List A) (a : A)
      → find_where p xs ≡ some a
      → u a ≡ true
      → q (f a) ≡ true
      → any_where q (update_where u f xs) ≡ true
  unfolding any_where find_where update_where
  any_where_of_update q p u f [] a h v g = absurd (cc)
  any_where_of_update q p u f (x ∷ xs) a h v g = elim (Bool-cases (p x)) [
    | inl hit ↦
        let e : a ≡ x = ground arith in
        let v' = subst (λ z. u z ≡ true) e v in
        let g' = subst (λ z. q (f z) ≡ true) e g in ground arith
    | inr miss ↦
        let rest = any_where_of_update q p u f xs a (ground arith) v g in ground (arith, rest)
  ]

abbrev pub is_settled_row : String → Outbox → Bool
is_settled_row id o = same o.id id && is_settled o.delivery_state

-- The row is among the settled ones of the outbox.
unfoldable pub is_settled_in : Db → String → Bool
is_settled_in db id = any_where (is_settled_row id) db.outbox

-- Every settled row stays settled.
abbrev pub KeepsRows : Db → Db → Type 0
KeepsRows db db' = (id : String) → is_settled_in db id ≡ true → is_settled_in db' id ≡ true

settled_as :
    (s t : DeliveryState)
    → same_delivery_state s t ≡ true
    → is_settled t ≡ true
    → is_settled s ≡ true
settled_as DeliveryState.accepted t h g = refl
settled_as DeliveryState.terminal_rejected t h g = refl
settled_as DeliveryState.pending DeliveryState.pending h g = g
settled_as DeliveryState.pending _ h g = absurd (cc)
settled_as DeliveryState.paused_internal DeliveryState.paused_internal h g = g
settled_as DeliveryState.paused_internal _ h g = absurd (cc)

-- An UPDATE of the outbox that leaves settled rows settled.
pub update-KeepsRows :
    (db db' : Db) (p : Outbox → Bool) (f : Outbox → Outbox)
    → update_where p f db.outbox ≡ db'.outbox
    → ((x : Outbox) → (f x).id ≡ x.id)
    → ((x : Outbox)
        → p x ≡ true
        → is_settled x.delivery_state ≡ true
        → is_settled (f x).delivery_state ≡ true)
    → KeepsRows db db'
unfolding is_settled_in
update-KeepsRows db db' p f e i k id h =
    subst (λ z. any_where (is_settled_row id) z ≡ true) e
      (any_where-update_where (is_settled_row id) p f db.outbox (λ x v w. ground (arith, i x, k x))
        h)

-- A stored outcome: the row that was found is settled.
pub found_settled :
    (db : Db) (outbox_id intent_id trip_id : String) (o : Outbox) (t : DeliveryState)
    → find_where (is_outbox_of outbox_id intent_id trip_id) db.outbox ≡ some o
    → same_delivery_state o.delivery_state t ≡ true
    → is_settled t ≡ true
    → is_settled_in db outbox_id ≡ true
unfolding is_settled_in
found_settled db outbox_id intent_id trip_id o t e s g =
    any_where_of_find (is_settled_row outbox_id) (is_outbox_of outbox_id intent_id trip_id)
      db.outbox o e
      (ground (
        arith,
        find_where-holds (is_outbox_of outbox_id intent_id trip_id) db.outbox {a = o} e,
        settled_as o.delivery_state t s g,
      ))
