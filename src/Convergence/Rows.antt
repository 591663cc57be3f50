-- ===== src/Convergence/Rows.antt =====
-- What the last loop of ResolveCanonicalBootstrap does to a joined pair of rows.
use live_route.Base.{
  ℕ, String, ◌≡◌, refl, sym, ap, ◌∙◌, inl, inr, ◌⊎◌, Bool, true, false, ◌&&◌, not, List, [], ◌∷◌,
  map, arith, same, same_iff, same_self, Bool-cases, All, if◌then◌else◌,
}
use mathlib.Core.Path.{subst}
use live_route.Base.Result.{ok, Link}
use live_route.Base.Table.{update_where}
use live_route.Store.{Db, Intent, Outbox, SyncState}
use live_route.Terminal.Rows.{is_runtime_first}
use live_route.Mirror.{set_sync}
use live_route.Convergence.{
  is_intent_of, is_row_in, accept_row, confirm_covered, resolve_intents, resolve_outbox_rows,
  resolve_covered, resolve_each,
}
use live_route.Convergence.Covered.{
  ResolveCanonicalBootstrapRequest, CoveredMirror, joins, mirror_of, open_sync, open_delivery,
  is_unconfirmed, blocks, needs_resolution, needs_confirmation,
}

-- Nothing is left to do for a covered mirror.
abbrev pub is_done : CoveredMirror → Bool
is_done m = not (blocks m) && not (needs_resolution m) && not (needs_confirmation m)

-- The two rows of a pair after one round of the loop.
abbrev intent_after : String → CoveredMirror → Intent → Intent
intent_after t m i =
    if not (is_runtime_first m.application_order)
      && open_sync m.intent_sync_state
      && is_intent_of m.intent_id t i
    then set_sync SyncState.synced i
    else i

abbrev outbox_after : String → ℕ → CoveredMirror → Outbox → Outbox
outbox_after t time m o =
    if is_row_in m.outbox_id t o
    then (if not (is_runtime_first m.application_order) && open_delivery m.outbox_delivery_state
        then accept_row time o
        else if is_unconfirmed m.finalization_confirmed
        then confirm_covered time o
        else o)
    else o

-- The mirror was read from the pair, when the rows were no better than they are now.
pub record Handles (o : Outbox) (i : Intent) (m : CoveredMirror) : Type 0 where
  pub of_intent : same m.intent_id i.id ≡ true
  pub of_row : same m.outbox_id o.id ≡ true
  pub order : is_runtime_first m.application_order ≡ is_runtime_first i.application_order
  pub sync : open_sync i.runtime_sync_state ≡ true → open_sync m.intent_sync_state ≡ true
  pub delivery :
      open_delivery o.delivery_state ≡ true → open_delivery m.outbox_delivery_state ≡ true
  pub confirmed :
      is_unconfirmed o.finalization_confirmed_at ≡ true
      → is_unconfirmed m.finalization_confirmed ≡ true

-- A mirror that is still to come handles the pair.
abbrev pub AnyOf : {A : Type 0} → (A → Type 0) → List A → Type 0
AnyOf P [] = ⊥
AnyOf P (x ∷ xs) = P x ⊎ AnyOf P xs

pub AnyOf-map :
    {A : Type 0} (P : A → Type 0) (Q : A → Type 0) (xs : List A)
    → ((x : A) → P x → Q x)
    → AnyOf P xs
    → AnyOf Q xs
AnyOf-map P Q [] f h = absurd h
AnyOf-map P Q (x ∷ xs) f (inl h) = inl (f x h)
AnyOf-map P Q (x ∷ xs) f (inr h) = inr (AnyOf-map P Q xs f h)

update_where-map :
    {A : Type 0} (p : A → Bool) (f : A → A) (xs : List A)
    → update_where p f xs ≡ map (λ x. if p x then f x else x) xs
unfolding update_where
update_where-map p f [] = refl
update_where-map p f (x ∷ xs) = ap (λ ys. (if p x then f x else x) ∷ ys) (update_where-map p f xs)

map_same : {A : Type 0} (p : A → Bool) (xs : List A) → xs ≡ map (λ x. if p x then x else x) xs
map_same p [] = refl
map_same p (x ∷ xs) = elim (Bool-cases (p x)) [
  | inl e ↦ rw e (ap (λ ys. x ∷ ys) (map_same p xs))
  | inr e ↦ rw e (ap (λ ys. x ∷ ys) (map_same p xs))
]

map_id : {A : Type 0} (xs : List A) → xs ≡ map (λ x. x) xs
map_id [] = refl
map_id (x ∷ xs) = ap (λ ys. x ∷ ys) (map_id xs)

All-of_map :
    {A : Type 0} (f : A → A) (P Q : A → Type 0) (xs : List A)
    → ((x : A) → P x → Q (f x))
    → All P xs
    → All Q (map f xs)
All-of_map f P Q [] k h = tt
All-of_map f P Q (x ∷ xs) k h = (k x h.0, All-of_map f P Q xs k h.1)

-- An UPDATE under a test, and one of two.
update_if-map :
    {A : Type 0} (b : Bool) (p : A → Bool) (f : A → A) (xs : List A)
    → (if b then update_where p f xs else xs) ≡ map (λ x. if b && p x then f x else x) xs
update_if-map true p f xs = update_where-map p f xs
update_if-map false p f xs = map_id xs

update_either-map :
    {A : Type 0} (a b : Bool) (p : A → Bool) (f g : A → A) (xs : List A)
    → (if a then update_where p f xs else if b then update_where p g xs else xs)
      ≡ map (λ x. if p x then (if a then f x else if b then g x else x) else x) xs
update_either-map true b p f g xs = update_where-map p f xs
update_either-map false true p f g xs = update_where-map p g xs
update_either-map false false p f g xs = map_same p xs

resolve_intents-map :
    (t : String) (m : CoveredMirror) (is : List Intent)
    → resolve_intents t m is ≡ map (intent_after t m) is
unfolding resolve_intents
resolve_intents-map t m is =
    update_if-map (not (is_runtime_first m.application_order) && open_sync m.intent_sync_state)
      (is_intent_of m.intent_id t) (set_sync SyncState.synced) is

resolve_outbox_rows-map :
    (t : String) (time : ℕ) (m : CoveredMirror) (os : List Outbox)
    → resolve_outbox_rows t time m os ≡ map (outbox_after t time m) os
unfolding resolve_outbox_rows
resolve_outbox_rows-map t time m os =
    update_either-map
      (not (is_runtime_first m.application_order) && open_delivery m.outbox_delivery_state)
      (is_unconfirmed m.finalization_confirmed) (is_row_in m.outbox_id t) (accept_row time)
      (confirm_covered time) os

module _ (t : String) (time : ℕ) (m : CoveredMirror) (o : Outbox) (i : Intent) where
  abbrev o' : Outbox
  o' = outbox_after t time m o

  abbrev i' : Intent
  i' = intent_after t m i

  blocks-kept : blocks (mirror_of o i) ≡ false → blocks (mirror_of o' i') ≡ false
  unfolding blocks
  blocks-kept b = ground (arith, b)

  is_done-kept : is_done (mirror_of o i) ≡ true → is_done (mirror_of o' i') ≡ true
  unfolding blocks needs_resolution needs_confirmation
  is_done-kept d = ground (arith, d)

  order_kept : is_runtime_first i.application_order ≡ is_runtime_first i'.application_order
  order_kept = ground arith

  sync_kept : open_sync i'.runtime_sync_state ≡ true → open_sync i.runtime_sync_state ≡ true
  sync_kept h = ground (arith, h)

  delivery_kept : open_delivery o'.delivery_state ≡ true → open_delivery o.delivery_state ≡ true
  delivery_kept h = ground (arith, h)

  confirmed_kept :
      is_unconfirmed o'.finalization_confirmed_at ≡ true
      → is_unconfirmed o.finalization_confirmed_at ≡ true
  confirmed_kept h = ground (arith, h)

  intent_id_kept : i.id ≡ i'.id
  intent_id_kept = ground arith

  outbox_id_kept : o.id ≡ o'.id
  outbox_id_kept = ground arith

  joins-kept : (r : ResolveCanonicalBootstrapRequest) → joins r o' i' ≡ joins r o i
  unfolding joins
  joins-kept r = ground arith

  trip_kept : same o'.trip_id t ≡ same o.trip_id t
  trip_kept = ground arith

  Handles-kept : (n : CoveredMirror) → Handles o i n → Handles o' i' n
  Handles-kept n h = record {
    of_intent = ap (same n.intent_id) (sym intent_id_kept) ∙ h.of_intent;
    of_row = ap (same n.outbox_id) (sym outbox_id_kept) ∙ h.of_row;
    order = h.order ∙ order_kept;
    sync = λ e. h.sync (sync_kept e);
    delivery = λ e. h.delivery (delivery_kept e);
    confirmed = λ e. h.confirmed (confirmed_kept e);
  }

  module _ (h : Handles o i m) (e : same o.trip_id t ≡ true) (f : same i.trip_id t ≡ true)
      (b : blocks (mirror_of o i) ≡ false) where
    own_row : is_row_in m.outbox_id t o ≡ true
    own_row = ground (arith, h.of_row, e, same_iff m.outbox_id o.id, same_self o.id)

    own_intent : is_intent_of m.intent_id t i ≡ true
    own_intent = ground (arith, h.of_intent, f, same_iff m.intent_id i.id, same_self i.id)

    row_confirmed : is_unconfirmed o'.finalization_confirmed_at ≡ false
    row_confirmed = ground (arith, own_row, h.confirmed)

    row_delivered : open_delivery o'.delivery_state ≡ false
    unfolding blocks
    row_delivered = ground (arith, own_row, h.delivery, h.order, b)

    intent_synced :
        is_runtime_first i.application_order ≡ false → open_sync i'.runtime_sync_state ≡ false
    intent_synced c = ground (arith, own_intent, h.sync, h.order, c)

    Handles-is_done : is_done (mirror_of o' i') ≡ true
    unfolding needs_resolution needs_confirmation
    Handles-is_done = elim (Bool-cases (is_runtime_first i.application_order)) [
      | inl c ↦ ground (arith, blocks-kept b, row_confirmed, row_delivered, order_kept, c)
      | inr c ↦
          ground
            (arith, blocks-kept b, row_confirmed, row_delivered, order_kept, c, intent_synced c)
    ]

-- The pairs on the way: each is settled, or a mirror that is still to come handles it.
module _ (r : ResolveCanonicalBootstrapRequest) where
  abbrev pub Waits : List CoveredMirror → Outbox → Intent → Type 0
  Waits ms o i =
      joins r o i ≡ true
      → (same o.trip_id r.trip_id ≡ true)
        × (blocks (mirror_of o i) ≡ false)
        × ((is_done (mirror_of o i) ≡ true) ⊎ AnyOf (Handles o i) ms)

  abbrev pub AllWait : List CoveredMirror → List Outbox → List Intent → Type 0
  AllWait ms outbox intents = All (λ o. All (Waits ms o) intents) outbox

  module _ (time : ℕ) (m : CoveredMirror) (ms : List CoveredMirror) where
    abbrev row_after : Outbox → Outbox
    row_after = outbox_after r.trip_id time m

    abbrev command_after : Intent → Intent
    command_after = intent_after r.trip_id m

    joined_trip : (o : Outbox) (i : Intent) → joins r o i ≡ true → same i.trip_id r.trip_id ≡ true
    unfolding joins
    joined_trip o i h = ground (arith, h)

    Waits-after :
        (o : Outbox) (i : Intent) → Waits (m ∷ ms) o i → Waits ms (row_after o) (command_after i)
    Waits-after o i w j =
        let j' : joins r o i ≡ true = sym (joins-kept r.trip_id time m o i r) ∙ j in
        let (e, b, how) = w j' in
        (
          trip_kept r.trip_id time m o i ∙ e,
          blocks-kept r.trip_id time m o i b,
          elim how [
            | inl d ↦ inl (is_done-kept r.trip_id time m o i d)
            | inr (inl h) ↦ inl (Handles-is_done r.trip_id time m o i h e (joined_trip o i j') b)
            | inr (inr h) ↦ inr (AnyOf-map _ _ ms (λ n g. Handles-kept r.trip_id time m o i n g) h)
          ],
        )

    AllWait-after :
        (outbox : List Outbox) (intents : List Intent)
        → AllWait (m ∷ ms) outbox intents
        → AllWait ms
            (resolve_outbox_rows r.trip_id time m outbox)
            (resolve_intents r.trip_id m intents)
    AllWait-after outbox intents w =
        subst (λ os. AllWait ms os (resolve_intents r.trip_id m intents))
          (sym (resolve_outbox_rows-map r.trip_id time m outbox))
          (subst (AllWait ms (map row_after outbox)) (sym (resolve_intents-map r.trip_id m intents))
            (All-of_map row_after _ _ outbox
              (λ o v. All-of_map command_after _ _ intents (Waits-after o) v) w))

    resolve_covered-AllWait :
        (db : Db)
        → AllWait (m ∷ ms) db.outbox db.intents
        → AllWait ms
            (resolve_covered r.trip_id time m db).outbox
            (resolve_covered r.trip_id time m db).intents
    unfolding resolve_covered
    resolve_covered-AllWait db = AllWait-after db.outbox db.intents

  -- After the whole loop every pair is settled.
  pub resolve_each-AllWait :
      (link : Link) (time : ℕ) (ms : List CoveredMirror) (db db' : Db)
      → resolve_each link r.trip_id time ms db ≡ ok db'
      → AllWait ms db.outbox db.intents
      → AllWait [] db'.outbox db'.intents
  unfolding resolve_each
  resolve_each-AllWait link time [] db db' h w =
      let e : db ≡ db' = ground (arith, h) in subst (λ (d : Db). AllWait [] d.outbox d.intents) e w
  resolve_each-AllWait link time (m ∷ ms) db db' h w =
      resolve_each-AllWait link time ms (resolve_covered r.trip_id time m db) db'
        (ground (arith, h)) (resolve_covered-AllWait time m ms db w)
