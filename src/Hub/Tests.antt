-- ===== src/Hub/Tests.antt =====
-- The subscription hub at concrete inputs.
use live_route.Base.{
  ℕ, String, true, false, some, List, [], ◌∷◌, ◌≡◌, refl, ◌↔◌, string_discrete, if◌then◌else◌, ◌==◌,
}
use live_route.Base.Dict.{has, lookup, insert, erase, string_key, nat_key}
use live_route.Base.Result.{Result, ok, err, connection_capacity}
use live_route.Hub.{
  SubscriptionHub, Step, subscribes, publishes, subscribe, publish_trip, trip_sinks, run,
  subscription_count,
}
use live_route.Hub.Consistent.{in_trip, in_sink, succeeded}
use live_route.Hub.Replay.{replay, answered, run-in_trip-in_sink}
use live_route.Hub.Loops.{is_sent, refuses, publish_trip-succeeded}
use live_route.Uuid.Gateway.{gateway_uuid}

abbrev first_trip : String
first_trip = "11111111-1111-4111-8111-111111111111"

abbrev second_trip : String
second_trip = "22222222-2222-4222-8222-222222222222"

abbrev small_hub : SubscriptionHub
small_hub = record { max_subscriptions = 1; by_trip = []; by_sink = [] }

-- Sink 2 refuses every payload.
abbrev answer : ℕ → Result (Unit {0})
answer s = if s == 2 then err connection_capacity else ok tt

abbrev busy : List Step
busy =
    subscribes first_trip (some 1)
    ∷ subscribes first_trip (some 2)
    ∷ subscribes second_trip (some 1)
    ∷ publishes answer first_trip (7 ∷ [])
    ∷ []

abbrev both_hub : SubscriptionHub
both_hub = run small_hub (subscribes first_trip (some 1) ∷ subscribes first_trip (some 2) ∷ [])

-- The third subscription is beyond the capacity, and the publication removes sink 2.
busy_counts :
    (subscription_count (run small_hub busy) first_trip ≡ 1)
    × (has 1 (trip_sinks (run small_hub busy) first_trip) ≡ true)
    × (has 2 (trip_sinks (run small_hub busy) first_trip) ≡ false)
unfolding run subscription_count lookup insert erase gateway_uuid string_discrete
busy_counts = (refl, refl, refl)

-- A Subscribe that is beyond the capacity leaves an entry for its trip.
left_entry :
    lookup second_trip (subscribe (run small_hub busy) second_trip (some 1)).0.by_trip ≡ some []
unfolding run subscribe lookup insert erase gateway_uuid string_discrete
left_entry = refl

run-in_trip-in_sink_example :
    (in_trip (run small_hub busy) first_trip 1
      ≡ replay (answered small_hub busy) (in_trip small_hub) first_trip 1)
    × (in_sink (run small_hub busy) first_trip 1
        ≡ replay (answered small_hub busy) (in_trip small_hub) first_trip 1)
unfolding lookup
run-in_trip-in_sink_example = run-in_trip-in_sink busy small_hub (λ t s. refl) first_trip 1

publish_trip-succeeded_example :
    (succeeded (publish_trip answer both_hub first_trip (7 ∷ [])).1 ≡ true) ↔ (
      (is_sent answer first_trip (7 ∷ []) ≡ true)
      × ((s : ℕ) → in_trip both_hub first_trip s ≡ true → refuses answer first_trip s ≡ false))
publish_trip-succeeded_example = publish_trip-succeeded answer first_trip both_hub (7 ∷ [])
