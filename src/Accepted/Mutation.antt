-- ===== src/Accepted/Mutation.antt =====
-- AcceptedMutation of backend/internal/persistence/accepted_mutations.go, its kind and its validation.
-- An ActivityState is its text; an int64 is an ℤ, and a uint32 a number. A JSON payload is its jsonb
-- normal form, or none when it is not valid JSON.
use live_route.Base.{
  ℕ, ◌+◌, ℤ, String, Bool, true, false, ◌&&◌, ◌||◌, not, Option, none, some, List, [], ◌∷◌, ltb,
  ◌==◌, if◌then◌else◌, same, before, pos,
}
use live_route.Base.Result.{Result, ok, err, ◌>>=◌, ◌>>◌, guard, invalid_input}
use live_route.Uuid.{valid_canonical_uuid}
use live_route.Store.{CommandKind}
use live_route.Lease.{max_int64}
use live_route.Terminal.Rows.{is_json}

-- ActivityState.valid
unfoldable pub activity_state_valid : String → Bool
activity_state_valid state =
    same state "planned" || same state "started" || same state "completed" || same state "skipped"

pub record OpenWindow : Type 0 where
  pub opens_at_unix_milliseconds : ℤ
  pub closes_at_unix_milliseconds : ℤ

pub record ActivityStatusMutation : Type 0 where
  pub activity_id : String
  pub state : String

pub record ActivityDelayMutation : Type 0 where
  pub activity_id : String
  pub delay_seconds : ℕ

pub record ReservationMutation : Type 0 where
  pub activity_id : String
  pub reservation_start_unix_milliseconds : Option ℤ
  pub reservation_grace_seconds : ℕ

pub record MandatoryDeadlineMutation : Type 0 where
  pub activity_id : String
  pub latest_finish_unix_milliseconds : ℤ

pub record OperatingHoursMutation : Type 0 where
  pub activity_id : String
  pub open_windows : List OpenWindow

pub record PlaceFoundClosedMutation : Type 0 where
  pub activity_id : String
  pub observed_at_unix_milliseconds : ℤ

pub record TravelDelayMutation : Type 0 where
  pub from_activity_id : String
  pub to_activity_id : String
  pub additional_seconds : ℕ
  pub observed_at_unix_milliseconds : ℤ

pub record AcceptedMutation : Type 0 where
  pub activity_status : Option ActivityStatusMutation
  pub activity_delay : Option ActivityDelayMutation
  pub reservation : Option ReservationMutation
  pub mandatory_deadline : Option MandatoryDeadlineMutation
  pub operating_hours : Option OperatingHoursMutation
  pub place_found_closed : Option PlaceFoundClosedMutation
  pub travel_delay : Option TravelDelayMutation

pub record FinalizeAcceptedMutationRequest : Type 0 where
  pub trip_id : String
  pub intent_id : String
  pub outbox_id : String
  pub event_id : String
  pub mutation_sequence : ℕ
  pub expected_trip_revision : ℕ
  pub resulting_planner_state_version : ℕ
  pub mutation : AcceptedMutation
  pub outcome_payload : Option String

abbrev pub is_given {ℓ} : {A : Type ℓ} → Option A → Bool
is_given none = false
is_given (some _) = true

-- The function `set` of kind, on the kind and the count.
abbrev set_kind : CommandKind → Bool → Option CommandKind × ℕ → Option CommandKind × ℕ
set_kind candidate present (kind, count) =
    if present then (some candidate, count + 1) else (kind, count)

abbrev only_kind : Option CommandKind × ℕ → Result CommandKind
only_kind (none, count) = err invalid_input
only_kind (some kind, count) = if count == 1 then ok kind else err invalid_input

-- AcceptedMutation.kind
unfoldable pub mutation_kind : AcceptedMutation → Result CommandKind
mutation_kind m = only_kind (
    set_kind CommandKind.travel_delay (is_given m.travel_delay) (
      set_kind CommandKind.place_found_closed (is_given m.place_found_closed) (
        set_kind CommandKind.operating_hours_changed (is_given m.operating_hours) (
          set_kind CommandKind.mandatory_deadline_changed (is_given m.mandatory_deadline) (
            set_kind CommandKind.reservation_changed (is_given m.reservation) (
              set_kind CommandKind.activity_delayed (is_given m.activity_delay) (
                set_kind CommandKind.activity_status_changed (is_given m.activity_status)
                  (none, 0))))))))

abbrev pub max_int32 : ℕ
max_int32 = 2_147_483_647

-- The loop over the windows; `later` is index > 0, and `close` previousClose.
unfoldable pub normalized : Bool → ℤ → List OpenWindow → Bool
normalized later close [] = true
normalized later close (w ∷ ws) =
    not (
      not (before w.opens_at_unix_milliseconds w.closes_at_unix_milliseconds)
      || later && before w.opens_at_unix_milliseconds close)
    && normalized true w.closes_at_unix_milliseconds ws

-- The cases of the switch, each with activityIDs. The kind says which part is given, so that none
-- is not met.
abbrev check_status : Option ActivityStatusMutation → Result (List String)
check_status none = err invalid_input
check_status (some v) = do
  guard (activity_state_valid v.state) invalid_input
  ok (v.activity_id ∷ [])

abbrev check_delay : Option ActivityDelayMutation → Result (List String)
check_delay none = err invalid_input
check_delay (some v) = do
  guard (not (ltb max_int32 v.delay_seconds)) invalid_input
  ok (v.activity_id ∷ [])

abbrev check_reservation : Option ReservationMutation → Result (List String)
check_reservation none = err invalid_input
check_reservation (some v) = do
  guard (not (ltb max_int32 v.reservation_grace_seconds)) invalid_input
  ok (v.activity_id ∷ [])

abbrev check_deadline : Option MandatoryDeadlineMutation → Result (List String)
check_deadline none = err invalid_input
check_deadline (some v) = ok (v.activity_id ∷ [])

abbrev check_hours : Option OperatingHoursMutation → Result (List String)
check_hours none = err invalid_input
check_hours (some v) = do
  guard (normalized false (pos 0) v.open_windows) invalid_input
  ok (v.activity_id ∷ [])

abbrev check_closed : Option PlaceFoundClosedMutation → Result (List String)
check_closed none = err invalid_input
check_closed (some v) = ok (v.activity_id ∷ [])

abbrev check_travel : Option TravelDelayMutation → Result (List String)
check_travel none = err invalid_input
check_travel (some v) = do
  guard (not (ltb max_int32 v.additional_seconds)) invalid_input
  ok (v.from_activity_id ∷ v.to_activity_id ∷ [])

unfoldable pub check_mutation : CommandKind → AcceptedMutation → Result (List String)
unfolding activity_state_valid normalized
check_mutation CommandKind.activity_status_changed m = check_status m.activity_status
check_mutation CommandKind.activity_delayed m = check_delay m.activity_delay
check_mutation CommandKind.reservation_changed m = check_reservation m.reservation
check_mutation CommandKind.mandatory_deadline_changed m = check_deadline m.mandatory_deadline
check_mutation CommandKind.operating_hours_changed m = check_hours m.operating_hours
check_mutation CommandKind.place_found_closed m = check_closed m.place_found_closed
check_mutation CommandKind.travel_delay m = check_travel m.travel_delay
check_mutation _ m = err invalid_input

unfoldable pub all_canonical : List String → Bool
all_canonical [] = true
all_canonical (id ∷ ids) = valid_canonical_uuid id && all_canonical ids

abbrev pub checked_kind : AcceptedMutation → CommandKind → Result CommandKind
checked_kind m kind = do
  ids ← check_mutation kind m
  guard (all_canonical ids) invalid_input
  ok kind

-- The kind of a mutation whose parts are valid.
unfoldable pub kind_of_valid : AcceptedMutation → Result CommandKind
kind_of_valid m = mutation_kind m >>= checked_kind m

unfoldable pub validate_accepted_mutation_request :
    FinalizeAcceptedMutationRequest → Result CommandKind
validate_accepted_mutation_request r = do
  guard
      (valid_canonical_uuid r.trip_id
        && valid_canonical_uuid r.intent_id
        && valid_canonical_uuid r.outbox_id
        && valid_canonical_uuid r.event_id)
      invalid_input
  guard
      (not (
        r.mutation_sequence == 0
        || ltb max_int64 r.mutation_sequence
        || not (ltb r.expected_trip_revision max_int64)
        || ltb max_int64 r.resulting_planner_state_version))
      invalid_input
  guard (is_json r.outcome_payload) invalid_input
  kind_of_valid r.mutation

-- The text of a CommandKind.
unfoldable pub kind_text : CommandKind → String
kind_text CommandKind.create_trip = "create_trip"
kind_text CommandKind.activity_status_changed = "activity_status_changed"
kind_text CommandKind.activity_delayed = "activity_delayed"
kind_text CommandKind.trip_edited = "trip_edited"
kind_text CommandKind.reservation_changed = "reservation_changed"
kind_text CommandKind.mandatory_deadline_changed = "mandatory_deadline_changed"
kind_text CommandKind.operating_hours_changed = "operating_hours_changed"
kind_text CommandKind.place_found_closed = "place_found_closed"
kind_text CommandKind.travel_delay = "travel_delay"
kind_text CommandKind.replace_current_plan = "replace_current_plan"
kind_text CommandKind.accept_proposal = "accept_proposal"
kind_text CommandKind.reject_proposal = "reject_proposal"
