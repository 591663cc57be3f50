-- ===== src/Dispatch/Kinds.antt =====
-- The mutations that the finalizer makes of the events that the dispatcher lets pass.
use live_route.Base.{Bool, true, false, ◌≡◌, refl}
use live_route.Base.Result.{Result, ok}
use live_route.Store.{CommandKind}
use live_route.Accepted.Mutation.{AcceptedMutation, mutation_kind}
use live_route.Wire.{ApplyTripEvent, TripEvent}
use live_route.Dispatch.Events.{event_matches_command}
use live_route.Dispatch.Finalizer.{accepted_mutation, mutation_of}

-- The commands whose outcome is a mutation: neither a decision nor an edit of the plan.
unfoldable pub is_mutation_command : CommandKind → Bool
is_mutation_command CommandKind.accept_proposal = false
is_mutation_command CommandKind.reject_proposal = false
is_mutation_command CommandKind.trip_edited = false
is_mutation_command CommandKind.replace_current_plan = false
is_mutation_command _ = true

-- The mutation is of the kind of the command.
abbrev pub HasKind : CommandKind → Result AcceptedMutation → Type 0
HasKind kind r = (m : AcceptedMutation) × (r ≡ ok m) × (mutation_kind m ≡ ok kind)

mutation_of-HasKind :
    (kind : CommandKind) (e : ApplyTripEvent) (t : TripEvent)
    → is_mutation_command kind ≡ true
    → event_matches_command kind t ≡ true
    → HasKind kind (mutation_of e t)
unfolding is_mutation_command event_matches_command mutation_kind
mutation_of-HasKind CommandKind.activity_status_changed e (TripEvent.activity_status_changed a b) h
      g =
    (_, refl, refl)
mutation_of-HasKind CommandKind.activity_delayed e (TripEvent.activity_delayed a b) h g =
    (_, refl, refl)
mutation_of-HasKind CommandKind.reservation_changed e (TripEvent.reservation_changed a b c) h g =
    (_, refl, refl)
mutation_of-HasKind CommandKind.mandatory_deadline_changed e
      (TripEvent.mandatory_deadline_changed a b) h g =
    (_, refl, refl)
mutation_of-HasKind CommandKind.operating_hours_changed e (TripEvent.operating_hours_changed a b) h
      g =
    (_, refl, refl)
mutation_of-HasKind CommandKind.place_found_closed e (TripEvent.place_found_closed a b) h g =
    (_, refl, refl)
mutation_of-HasKind CommandKind.travel_delay e (TripEvent.travel_delay a b c) h g = (_, refl, refl)
mutation_of-HasKind kind e t h g = absurd (cc)

-- The mutation that acceptedMutation makes of an event which passed eventMatchesCommand is the
-- command's own: for each command kind but a decision or an edit of the plan, it does not fail and
-- AcceptedMutation.kind gives that kind.
pub accepted_mutation-HasKind :
    (kind : CommandKind) (e : ApplyTripEvent)
    → is_mutation_command kind ≡ true
    → event_matches_command kind e.event ≡ true
    → HasKind kind (accepted_mutation e)
unfolding accepted_mutation
accepted_mutation-HasKind kind e h g = mutation_of-HasKind kind e e.event h g
