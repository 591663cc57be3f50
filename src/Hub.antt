-- ===== src/Hub.antt =====
-- SubscriptionHub of backend/internal/gateway/subscription_hub.go. A sink is known by its identity,
-- none for the nil interface; what PublishServerEnvelope answers is code of the session, a parameter.
pub mod Consistent
pub mod Loops
pub mod Replay
pub mod Capacity
mod Tests
use live_route.Base.{
  ℕ, String, Bool, true, false, not, ◌||◌, Option, none, some, List, [], ◌∷◌, leb, same,
  if◌then◌else◌, length,
}
use live_route.Base.Dict.{
  Dict, Key, Group, lookup, insert, erase, has, keys, or_nil, string_key, nat_key,
}
use live_route.Base.Result.{
  Error, Result, ok, err, subscription_invalid, subscription_capacity, publication_invalid,
}
use live_route.Uuid.Gateway.{gateway_uuid}

pub record SubscriptionHub : Type 0 where
  pub max_subscriptions : ℕ
  pub by_trip : Dict String (Group ℕ)
  pub by_sink : Dict ℕ (Group String)

-- NewSubscriptionHub; none is its error.
unfoldable pub new_hub : ℕ → Option SubscriptionHub
new_hub max_subscriptions =
    if leb max_subscriptions 0
    then none
    else some (record { max_subscriptions = max_subscriptions; by_trip = []; by_sink = [] })

-- hub.byTrip[tripID] and hub.bySink[sink], empty where the map has no entry.
abbrev pub trip_sinks : SubscriptionHub → String → Group ℕ
trip_sinks hub trip_id = or_nil (lookup trip_id hub.by_trip)

abbrev pub sink_trips : SubscriptionHub → ℕ → Group String
sink_trips hub sink = or_nil (lookup sink hub.by_sink)

-- The entry of the trip, made when there is none.
pub open_trip : String → Option (Group ℕ) → SubscriptionHub → SubscriptionHub
open_trip trip_id none hub = record hub { by_trip = insert trip_id [] hub.by_trip }
open_trip trip_id (some trip) hub = hub

abbrev pub add_both : String → ℕ → SubscriptionHub → SubscriptionHub
add_both trip_id sink hub = record hub {
  by_trip = insert trip_id (insert sink tt (trip_sinks hub trip_id)) hub.by_trip;
  by_sink = insert sink (insert trip_id tt (sink_trips hub sink)) hub.by_sink;
}

-- Subscribe from the entry of the trip on.
pub subscribe_locked : String → ℕ → SubscriptionHub → SubscriptionHub × Result (Unit {0})
subscribe_locked trip_id sink hub =
    if has sink (trip_sinks hub trip_id)
    then (hub, ok tt)
    else if leb hub.max_subscriptions (length (sink_trips hub sink))
    then (hub, err subscription_capacity)
    else (add_both trip_id sink hub, ok tt)

unfoldable pub subscribe : SubscriptionHub → String → Option ℕ → SubscriptionHub × Result (Unit {0})
unfolding open_trip subscribe_locked
subscribe hub trip_id none = (hub, err subscription_invalid)
subscribe hub trip_id (some sink) =
    if gateway_uuid trip_id
    then subscribe_locked trip_id sink (open_trip trip_id (lookup trip_id hub.by_trip) hub)
    else (hub, err subscription_invalid)

-- A set that has become empty is deleted from its map.
abbrev pub put_or_drop {ℓ κ} :
    {K : Type ℓ} {V : Type κ} ⦃o : Key K⦄ → K → Group V → Dict K (Group V) → Dict K (Group V)
put_or_drop k [] d = erase k d
put_or_drop k (v ∷ vs) d = insert k (v ∷ vs) d

-- removeLocked, with hub.byTrip[tripID].
pub drop_locked : String → ℕ → Option (Group ℕ) → SubscriptionHub → SubscriptionHub
drop_locked trip_id sink none hub = hub
drop_locked trip_id sink (some trip) hub = record hub {
  by_trip = put_or_drop trip_id (erase sink trip) hub.by_trip;
  by_sink = put_or_drop sink (erase trip_id (sink_trips hub sink)) hub.by_sink;
}

unfoldable pub remove_locked : String → ℕ → SubscriptionHub → SubscriptionHub
unfolding drop_locked
remove_locked trip_id sink hub = drop_locked trip_id sink (lookup trip_id hub.by_trip) hub

unfoldable pub unsubscribe : SubscriptionHub → String → Option ℕ → SubscriptionHub
unfolding remove_locked
unsubscribe hub trip_id none = hub
unsubscribe hub trip_id (some sink) =
    if gateway_uuid trip_id then remove_locked trip_id sink hub else hub

-- The loop of RemoveSink, over the trips that the sink had when it began.
unfoldable pub remove_trips : List String → ℕ → SubscriptionHub → SubscriptionHub
unfolding remove_locked
remove_trips [] sink hub = hub
remove_trips (trip_id ∷ trip_ids) sink hub =
    remove_trips trip_ids sink (remove_locked trip_id sink hub)

unfoldable pub remove_sink : SubscriptionHub → Option ℕ → SubscriptionHub
unfolding remove_trips
remove_sink hub none = hub
remove_sink hub (some sink) = remove_trips (keys (sink_trips hub sink)) sink hub

-- The error to return: the first one stays.
abbrev pub first_error : Result (Unit {0}) → Result (Unit {0}) → Result (Unit {0})
first_error (err e) answered = err e
first_error (ok _) answered = answered

-- A sink that refused the payload is removed from the trip.
abbrev pub settle : SubscriptionHub → String → ℕ → Result (Unit {0}) → SubscriptionHub
settle hub trip_id sink (ok _) = hub
settle hub trip_id sink (err e) = unsubscribe hub trip_id (some sink)

-- The loop of PublishTrip over the sinks that it found, with the first error so far.
unfoldable pub publish_each :
    (ℕ → Result (Unit {0}))
    → String
    → List ℕ
    → SubscriptionHub
    → Result (Unit {0})
    → SubscriptionHub × Result (Unit {0})
unfolding unsubscribe
publish_each answer trip_id [] hub first = (hub, first)
publish_each answer trip_id (sink ∷ sinks) hub first =
    publish_each answer trip_id sinks (settle hub trip_id sink (answer sink))
      (first_error first (answer sink))

unfoldable pub publish_trip :
    (ℕ → Result (Unit {0}))
    → SubscriptionHub
    → String
    → List ℕ
    → SubscriptionHub × Result (Unit {0})
unfolding publish_each
publish_trip answer hub trip_id payload =
    if not (gateway_uuid trip_id) || leb (length payload) 0
    then (hub, err publication_invalid)
    else publish_each answer trip_id (keys (trip_sinks hub trip_id)) hub (ok tt)

unfoldable pub subscription_count : SubscriptionHub → String → ℕ
subscription_count hub trip_id = if gateway_uuid trip_id then length (trip_sinks hub trip_id) else 0

-- A call of one of the operations that change the hub.
pub data Step : Type 0 where
  subscribes : String → Option ℕ → Step
  unsubscribes : String → Option ℕ → Step
  removes : Option ℕ → Step
  publishes : (ℕ → Result (Unit {0})) → String → List ℕ → Step

unfoldable pub step : SubscriptionHub → Step → SubscriptionHub
unfolding subscribe unsubscribe remove_sink publish_trip
step hub (subscribes trip_id sink) = (subscribe hub trip_id sink).0
step hub (unsubscribes trip_id sink) = unsubscribe hub trip_id sink
step hub (removes sink) = remove_sink hub sink
step hub (publishes answer trip_id payload) = (publish_trip answer hub trip_id payload).0

unfoldable pub run : SubscriptionHub → List Step → SubscriptionHub
unfolding step
run hub [] = hub
run hub (s ∷ ss) = run (step hub s) ss
