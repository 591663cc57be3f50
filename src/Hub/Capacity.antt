-- ===== src/Hub/Capacity.antt =====
-- The bound on the subscriptions of a sink.
use live_route.Base.{
  ℕ, String, false, Option, none, some, List, [], ◌∷◌, arith, ◌≡◌, ◌≤◌, length, leb, not, ◌||◌,
  Bool-cases, inl, inr, Option-cases,
}
use live_route.Base.Dict.{
  lookup, insert, erase, has, keys, string_key, nat_key, lookup-insert, length-insert, length-erase,
}
use live_route.Base.Result.{Result, ok, err}
use live_route.Hub.{
  SubscriptionHub, Step, subscribes, unsubscribes, removes, publishes, new_hub, trip_sinks,
  sink_trips, open_trip, add_both, subscribe_locked, subscribe, drop_locked, remove_locked,
  unsubscribe, settle, remove_trips, remove_sink, publish_each, publish_trip, first_error, step,
  run,
}
use live_route.Hub.Consistent.{or_nil-put_or_drop}
use live_route.Uuid.Gateway.{gateway_uuid}

-- The hub has this capacity, and no sink has more trips.
abbrev pub IsWithin : ℕ → SubscriptionHub → Type 0
IsWithin m hub = (hub.max_subscriptions ≡ m) × ((s : ℕ) → length (sink_trips hub s) ≤ m)

module _ (m : ℕ) (t : String) (s : ℕ) (hub : SubscriptionHub) (w : IsWithin m hub) where
  add_both-IsWithin :
      leb hub.max_subscriptions (length (sink_trips hub s)) ≡ false → IsWithin m (add_both t s hub)
  add_both-IsWithin e = (
    w.0,
    λ s'. ground (
      arith,
      w.0,
      w.1 s',
      e,
      lookup-insert s s' (insert t tt (sink_trips hub s)) hub.by_sink,
      length-insert t tt (sink_trips hub s),
    ),
  )

  remove_locked-IsWithin : IsWithin m (remove_locked t s hub)
  unfolding remove_locked drop_locked
  remove_locked-IsWithin = elim (Option-cases (lookup t hub.by_trip)) [
    | inl e ↦ rw e w
    | inr (g, e) ↦ rw e (
      w.0,
      λ s'. ground (
        arith,
        w.1 s',
        w.1 s,
        or_nil-put_or_drop s s' (erase t (sink_trips hub s)) hub.by_sink,
        length-erase t (sink_trips hub s),
      ),
    )
  ]

  open_trip-IsWithin : IsWithin m (open_trip t (lookup t hub.by_trip) hub)
  unfolding open_trip
  open_trip-IsWithin = elim (Option-cases (lookup t hub.by_trip)) [
    | inl e ↦ rw e w
    | inr (g, e) ↦ rw e w
  ]

  subscribe_locked-IsWithin : IsWithin m (subscribe_locked t s hub).0
  unfolding subscribe_locked
  subscribe_locked-IsWithin = elim (Bool-cases (has s (trip_sinks hub t))) [
    | inl e ↦ rw e w
    | inr e ↦ elim (Bool-cases (leb hub.max_subscriptions (length (sink_trips hub s)))) [
      | inl f ↦ rw (e, f) w
      | inr f ↦ rw (e, f) (add_both-IsWithin f)
    ]
  ]

module _ (m : ℕ) where
  subscribe-IsWithin :
      (t : String) (s : Option ℕ) (hub : SubscriptionHub)
      → IsWithin m hub
      → IsWithin m (subscribe hub t s).0
  unfolding subscribe
  subscribe-IsWithin t none hub w = w
  subscribe-IsWithin t (some s) hub w = elim (Bool-cases (gateway_uuid t)) [
    | inl e ↦ rw e (
        subscribe_locked-IsWithin m t s (open_trip t (lookup t hub.by_trip) hub)
          (open_trip-IsWithin m t s hub w))
    | inr e ↦ rw e w
  ]

  unsubscribe-IsWithin :
      (t : String) (s : Option ℕ) (hub : SubscriptionHub)
      → IsWithin m hub
      → IsWithin m (unsubscribe hub t s)
  unfolding unsubscribe
  unsubscribe-IsWithin t none hub w = w
  unsubscribe-IsWithin t (some s) hub w = elim (Bool-cases (gateway_uuid t)) [
    | inl e ↦ rw e (remove_locked-IsWithin m t s hub w)
    | inr e ↦ rw e w
  ]

  remove_trips-IsWithin :
      (ts : List String) (s : ℕ) (hub : SubscriptionHub)
      → IsWithin m hub
      → IsWithin m (remove_trips ts s hub)
  unfolding remove_trips
  remove_trips-IsWithin [] s hub w = w
  remove_trips-IsWithin (t ∷ ts) s hub w =
      remove_trips-IsWithin ts s (remove_locked t s hub) (remove_locked-IsWithin m t s hub w)

  settle-IsWithin :
      (t : String) (s : ℕ) (hub : SubscriptionHub) (r : Result (Unit {0}))
      → IsWithin m hub
      → IsWithin m (settle hub t s r)
  settle-IsWithin t s hub (ok _) w = w
  settle-IsWithin t s hub (err e) w = unsubscribe-IsWithin t (some s) hub w

  publish_each-IsWithin :
      (answer : ℕ → Result (Unit {0})) (t : String) (ss : List ℕ) (hub : SubscriptionHub)
      (first : Result (Unit {0}))
      → IsWithin m hub
      → IsWithin m (publish_each answer t ss hub first).0
  unfolding publish_each
  publish_each-IsWithin answer t [] hub first w = w
  publish_each-IsWithin answer t (s ∷ ss) hub first w =
      publish_each-IsWithin answer t ss (settle hub t s (answer s)) (first_error first (answer s))
        (settle-IsWithin t s hub (answer s) w)

  publish_trip-IsWithin :
      (answer : ℕ → Result (Unit {0})) (t : String) (payload : List ℕ) (hub : SubscriptionHub)
      → IsWithin m hub
      → IsWithin m (publish_trip answer hub t payload).0
  unfolding publish_trip
  publish_trip-IsWithin answer t payload hub w =
      elim (Bool-cases (not (gateway_uuid t) || leb (length payload) 0)) [
        | inl e ↦ rw e w
        | inr e ↦ rw e (publish_each-IsWithin answer t (keys (trip_sinks hub t)) hub (ok tt) w)
      ]

  step-IsWithin : (st : Step) (hub : SubscriptionHub) → IsWithin m hub → IsWithin m (step hub st)
  unfolding step remove_sink
  step-IsWithin (subscribes t s) hub w = subscribe-IsWithin t s hub w
  step-IsWithin (unsubscribes t s) hub w = unsubscribe-IsWithin t s hub w
  step-IsWithin (removes none) hub w = w
  step-IsWithin (removes (some s)) hub w = remove_trips-IsWithin (keys (sink_trips hub s)) s hub w
  step-IsWithin (publishes answer t payload) hub w = publish_trip-IsWithin answer t payload hub w

  run-IsWithin : (ss : List Step) (hub : SubscriptionHub) → IsWithin m hub → IsWithin m (run hub ss)
  unfolding run
  run-IsWithin [] hub w = w
  run-IsWithin (st ∷ ss) hub w = run-IsWithin ss (step hub st) (step-IsWithin st hub w)

-- In a hub that NewSubscriptionHub made, after any history, no sink is subscribed to more trips than
-- the capacity that was given.
pub run-new_hub-le :
    (m : ℕ) (hub : SubscriptionHub) (ss : List Step) (s : ℕ)
    → new_hub m ≡ some hub
    → length (sink_trips (run hub ss) s) ≤ m
unfolding new_hub lookup
run-new_hub-le m hub ss s h =
    (run-IsWithin m ss hub (ground (arith, h), λ s'. ground (arith, h))).1 s
