-- ===== src/Hub/Replay.antt =====
-- A history of the subscription hub, and an account of its subscriptions that knows no maps.
use live_route.Base.{
  ℕ, String, Bool, true, none, some, List, [], ◌∷◌, same, ◌==◌, ◌≡◌, refl, ◌&&◌, not, ◌||◌, ◌∙◌,
  sym, ap,
}
use mathlib.Core.Path.{fun_ext}
use live_route.Base.Dict.{string_key, nat_key}
use live_route.Hub.{
  SubscriptionHub, Step, subscribes, unsubscribes, removes, publishes, subscribe, unsubscribe,
  remove_sink, step, run,
}
use live_route.Hub.Consistent.{
  in_trip, in_sink, IsConsistent, is_pair, succeeded, unsubscribe-in_trip, unsubscribe-IsConsistent,
  subscribe-in_trip, subscribe-IsConsistent,
}
use live_route.Hub.Loops.{
  refuses, is_sent, remove_sink-in_trip, remove_sink-IsConsistent, publish_trip-in_trip,
  publish_trip-IsConsistent,
}
use live_route.Uuid.Gateway.{gateway_uuid}

-- Which sinks a trip has.
abbrev pub Held : Type 0
Held = String → ℕ → Bool

-- The pairs after a call, from its arguments and, for Subscribe, whether it succeeded.
abbrev pub held_after : Step → Bool → Held → Held
held_after (subscribes t none) done held = held
held_after (subscribes t (some s)) done held = λ t' s'. is_pair t s t' s' && done || held t' s'
held_after (unsubscribes t none) done held = held
held_after (unsubscribes t (some s)) done held =
    λ t' s'. not (gateway_uuid t && is_pair t s t' s') && held t' s'
held_after (removes none) done held = held
held_after (removes (some s)) done held = λ t' s'. not (s == s') && held t' s'
held_after (publishes answer t payload) done held =
    λ t' s'. not (is_sent answer t payload && same t t' && refuses answer t s') && held t' s'

abbrev pub done : SubscriptionHub → Step → Bool
done hub (subscribes t s) = succeeded (subscribe hub t s).1
done hub _ = true

-- The account of a history, and the history with what Subscribe answered.
abbrev pub replay : List (Step × Bool) → Held → Held
replay [] held = held
replay ((s, d) ∷ ss) held = replay ss (held_after s d held)

abbrev pub answered : SubscriptionHub → List Step → List (Step × Bool)
answered hub [] = []
answered hub (s ∷ ss) = (s, done hub s) ∷ answered (step hub s) ss

step-IsConsistent :
    (s : Step) (hub : SubscriptionHub) → IsConsistent hub → IsConsistent (step hub s)
unfolding step subscribe unsubscribe remove_sink
step-IsConsistent (subscribes t none) hub c = c
step-IsConsistent (subscribes t (some s)) hub c = subscribe-IsConsistent t s hub c
step-IsConsistent (unsubscribes t none) hub c = c
step-IsConsistent (unsubscribes t (some s)) hub c = unsubscribe-IsConsistent t s hub c
step-IsConsistent (removes none) hub c = c
step-IsConsistent (removes (some s)) hub c = remove_sink-IsConsistent s hub c
step-IsConsistent (publishes answer t payload) hub c =
    publish_trip-IsConsistent answer t hub payload c

step-in_trip :
    (s : Step) (hub : SubscriptionHub)
    → IsConsistent hub
    → in_trip (step hub s) ≡ held_after s (done hub s) (in_trip hub)
unfolding step subscribe unsubscribe remove_sink
step-in_trip (subscribes t none) hub c = refl
step-in_trip (subscribes t (some s)) hub c =
    fun_ext λ t'. fun_ext λ s'. subscribe-in_trip t s hub t' s'
step-in_trip (unsubscribes t none) hub c = refl
step-in_trip (unsubscribes t (some s)) hub c =
    fun_ext λ t'. fun_ext λ s'. unsubscribe-in_trip t s hub t' s'
step-in_trip (removes none) hub c = refl
step-in_trip (removes (some s)) hub c =
    fun_ext λ t'. fun_ext λ s'. remove_sink-in_trip s hub c t' s'
step-in_trip (publishes answer t payload) hub c =
    fun_ext λ t'. fun_ext λ s'. publish_trip-in_trip answer t hub payload t' s'

run-IsConsistent :
    (ss : List Step) (hub : SubscriptionHub) → IsConsistent hub → IsConsistent (run hub ss)
unfolding run
run-IsConsistent [] hub c = c
run-IsConsistent (s ∷ ss) hub c = run-IsConsistent ss (step hub s) (step-IsConsistent s hub c)

run-in_trip :
    (ss : List Step) (hub : SubscriptionHub)
    → IsConsistent hub
    → in_trip (run hub ss) ≡ replay (answered hub ss) (in_trip hub)
unfolding run
run-in_trip [] hub c = refl
run-in_trip (s ∷ ss) hub c =
    run-in_trip ss (step hub s) (step-IsConsistent s hub c)
    ∙ ap (replay (answered (step hub s) ss)) (step-in_trip s hub c)

-- In a hub whose two maps agree, a history of subscriptions, removals and publications leaves maps that
-- agree: a sink is among the sinks of a trip exactly when the trip is among the trips of the sink, and
-- exactly when the account of the history says so, in which a Subscribe that succeeded adds its pair,
-- an Unsubscribe of a valid trip takes its pair away, a RemoveSink takes every pair of its sink away,
-- and a publication that is sent takes away the sinks of its trip that refuse it.
pub run-in_trip-in_sink :
    (ss : List Step) (hub : SubscriptionHub)
    → IsConsistent hub
    → (t : String) (s : ℕ)
    → (in_trip (run hub ss) t s ≡ replay (answered hub ss) (in_trip hub) t s)
      × (in_sink (run hub ss) t s ≡ replay (answered hub ss) (in_trip hub) t s)
run-in_trip-in_sink ss hub c t s =
    let e : in_trip (run hub ss) t s ≡ replay (answered hub ss) (in_trip hub) t s =
      λ i. run-in_trip ss hub c i t s in
    (e, sym (run-IsConsistent ss hub c t s) ∙ e)
