-- ===== src/Convergence/Covered.antt =====
-- What ResolveCanonicalBootstrap of backend/internal/persistence/bootstrap_convergence.go is asked
-- for, and the rows that its query joins.
use live_route.Base.{
  ℕ, String, Bool, true, false, ◌&&◌, ◌||◌, not, Option, none, some, List, [], ◌∷◌, ltb, leb, ◌==◌,
  if◌then◌else◌, same,
}
use live_route.Base.Result.{Result, ◌>>◌, guard, invalid_input}
use live_route.Uuid.{valid_canonical_uuid}
use live_route.Store.{Intent, Outbox, SyncState, DeliveryState, ApplicationOrder}
use live_route.Lease.{max_int64}
use live_route.Terminal.Rows.{same_delivery_state, is_runtime_first}
use live_route.Mirror.{same_sync_state}

pub record ResolveCanonicalBootstrapRequest : Type 0 where
  pub trip_id : String
  pub trip_revision : ℕ
  pub accepted_mutation_sequence : ℕ
  pub finalized_mutation_sequence : ℕ
  pub current_plan_id : String

pub record ResolvedCanonicalBootstrap : Type 0 where
  pub trip_id : String
  pub trip_revision : ℕ
  pub accepted_mutation_sequence : ℕ
  pub finalized_mutation_sequence : ℕ
  pub current_plan_id : String
  pub mirrors_resolved : ℕ
  pub rows_confirmed : ℕ
  pub confirmed_at : ℕ
  pub duplicate : Bool

abbrev in_range : ℕ → Bool
in_range n = not (n == 0 || ltb max_int64 n)

unfoldable pub validate_canonical_bootstrap_resolution :
    ResolveCanonicalBootstrapRequest → Result (Unit {0})
validate_canonical_bootstrap_resolution r = do
  guard (valid_canonical_uuid r.trip_id && valid_canonical_uuid r.current_plan_id) invalid_input
  guard
      (in_range r.trip_revision
        && in_range r.accepted_mutation_sequence
        && in_range r.finalized_mutation_sequence)
      invalid_input

pub record CoveredMirror : Type 0 where
  pub intent_id : String
  pub outbox_id : String
  pub application_order : ApplicationOrder
  pub intent_sync_state : SyncState
  pub outbox_delivery_state : DeliveryState
  pub finalization_confirmed : Option ℕ
  pub mutation_sequence : ℕ

-- The JOIN and the WHERE clause of the query.
unfoldable pub joins : ResolveCanonicalBootstrapRequest → Outbox → Intent → Bool
joins r o i =
    same o.command_intent_id i.id
    && same i.trip_id r.trip_id
    && leb o.mutation_sequence r.finalized_mutation_sequence

abbrev pub mirror_of : Outbox → Intent → CoveredMirror
mirror_of o i = record {
  intent_id = i.id;
  outbox_id = o.id;
  application_order = i.application_order;
  intent_sync_state = i.runtime_sync_state;
  outbox_delivery_state = o.delivery_state;
  finalization_confirmed = o.finalization_confirmed_at;
  mutation_sequence = o.mutation_sequence;
}

-- ORDER BY outbox.mutation_sequence
unfoldable pub place : CoveredMirror → List CoveredMirror → List CoveredMirror
place m [] = m ∷ []
place m (n ∷ ns) =
    if ltb n.mutation_sequence m.mutation_sequence then n ∷ place m ns else m ∷ n ∷ ns

unfoldable pub join_intents :
    ResolveCanonicalBootstrapRequest
    → Outbox
    → List Intent
    → List CoveredMirror
    → List CoveredMirror
join_intents r o [] ms = ms
join_intents r o (i ∷ intents) ms =
    let rest = join_intents r o intents ms in
    if joins r o i then place (mirror_of o i) rest else rest

unfoldable pub covered :
    ResolveCanonicalBootstrapRequest → List Outbox → List Intent → List CoveredMirror
unfolding joins place join_intents
covered r [] intents = []
covered r (o ∷ outbox) intents = join_intents r o intents (covered r outbox intents)

abbrev pub open_sync : SyncState → Bool
open_sync s = same_sync_state s SyncState.pending || same_sync_state s SyncState.paused_internal

abbrev pub open_delivery : DeliveryState → Bool
open_delivery d =
    same_delivery_state d DeliveryState.pending
    || same_delivery_state d DeliveryState.paused_internal

abbrev pub is_unconfirmed : Option ℕ → Bool
is_unconfirmed none = true
is_unconfirmed (some t) = false

-- Runtime-first work that is not resolved.
unfoldable pub blocks : CoveredMirror → Bool
blocks m =
    is_runtime_first m.application_order
    && (same_sync_state m.intent_sync_state SyncState.pending
        || open_delivery m.outbox_delivery_state)

unfoldable pub needs_resolution : CoveredMirror → Bool
needs_resolution m =
    not (is_runtime_first m.application_order)
    && (open_sync m.intent_sync_state || open_delivery m.outbox_delivery_state)

unfoldable pub needs_confirmation : CoveredMirror → Bool
needs_confirmation m = is_unconfirmed m.finalization_confirmed

-- databaseTime where the clock was not read.
unfoldable pub first_confirmed : List CoveredMirror → ℕ
first_confirmed [] = 0
first_confirmed (m ∷ ms) = elim m.finalization_confirmed [ some t ↦ t | none ↦ first_confirmed ms ]
