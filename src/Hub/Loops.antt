-- ===== src/Hub/Loops.antt =====
-- The loops of RemoveSink and PublishTrip.
use live_route.Base.{
  ℕ, String, Bool, true, false, some, List, [], ◌∷◌, same, ◌==◌, arith, ◌≡◌, refl, Bool-cases, inl,
  inr, ◌&&◌, not, ◌||◌, same_iff, ==_iff, ◌∙◌, ap, sym, ◌↔◌, leb, length,
}
use live_route.Base.Dict.{keys, string_key, nat_key, contains, contains-keys}
use live_route.Base.Result.{Result, ok, err}
use live_route.Hub.{
  SubscriptionHub, trip_sinks, sink_trips, remove_locked, remove_trips, remove_sink, publish_each,
  publish_trip, first_error, settle,
}
use live_route.Hub.Consistent.{
  in_trip, IsConsistent, is_pair, succeeded, in_trip-remove_locked, remove_locked-IsConsistent,
  unsubscribe-in_trip, unsubscribe-IsConsistent,
}
use live_route.Uuid.Gateway.{gateway_uuid}

remove_trips-in_trip :
    (ts : List String) (s : ℕ) (hub : SubscriptionHub) (t' : String) (s' : ℕ)
    → in_trip (remove_trips ts s hub) t' s' ≡ (not (s == s' && contains t' ts) && in_trip hub t' s')
unfolding remove_trips contains
remove_trips-in_trip [] s hub t' s' = ground arith
remove_trips-in_trip (t ∷ ts) s hub t' s' = ground (
  arith,
  remove_trips-in_trip ts s (remove_locked t s hub) t' s',
  in_trip-remove_locked t s hub t' s',
)

remove_trips-IsConsistent :
    (ts : List String) (s : ℕ) (hub : SubscriptionHub)
    → IsConsistent hub
    → IsConsistent (remove_trips ts s hub)
unfolding remove_trips
remove_trips-IsConsistent [] s hub c = c
remove_trips-IsConsistent (t ∷ ts) s hub c =
    remove_trips-IsConsistent ts s (remove_locked t s hub) (remove_locked-IsConsistent t s hub c)

module _ (s : ℕ) (hub : SubscriptionHub) (c : IsConsistent hub) where
  pub remove_sink-in_trip :
      (t' : String) (s' : ℕ)
      → in_trip (remove_sink hub (some s)) t' s' ≡ (not (s == s') && in_trip hub t' s')
  unfolding remove_sink
  remove_sink-in_trip t' s' = ground (
    arith,
    remove_trips-in_trip (keys (sink_trips hub s)) s hub t' s',
    contains-keys t' (sink_trips hub s),
    c t' s',
    ==_iff s s',
  )

  pub remove_sink-IsConsistent : IsConsistent (remove_sink hub (some s))
  unfolding remove_sink
  remove_sink-IsConsistent = remove_trips-IsConsistent (keys (sink_trips hub s)) s hub c

module _ (answer : ℕ → Result (Unit {0})) (t : String) where
  abbrev pub refuses : ℕ → Bool
  refuses s = not (succeeded (answer s))

  settle-in_trip :
      gateway_uuid t ≡ true
      → (s : ℕ) (hub : SubscriptionHub) (t' : String) (s' : ℕ)
      → in_trip (settle hub t s (answer s)) t' s'
        ≡ (not (is_pair t s t' s' && refuses s') && in_trip hub t' s')
  settle-in_trip u s hub t' s' =
      ground (arith, unsubscribe-in_trip t s hub t' s', ==_iff s s', u, λ (p : s ≡ s'). ap answer p)

  settle-IsConsistent :
      (s : ℕ) (hub : SubscriptionHub) (r : Result (Unit {0}))
      → IsConsistent hub
      → IsConsistent (settle hub t s r)
  settle-IsConsistent s hub (ok _) c = c
  settle-IsConsistent s hub (err e) c = unsubscribe-IsConsistent t s hub c

  publish_each-in_trip :
      gateway_uuid t ≡ true
      → (ss : List ℕ) (hub : SubscriptionHub) (first : Result (Unit {0})) (t' : String) (s' : ℕ)
      → in_trip (publish_each answer t ss hub first).0 t' s'
        ≡ (not (same t t' && contains s' ss && refuses s') && in_trip hub t' s')
  unfolding publish_each contains
  publish_each-in_trip u [] hub first t' s' = ground arith
  publish_each-in_trip u (s ∷ ss) hub first t' s' =
      publish_each-in_trip u ss (settle hub t s (answer s)) (first_error first (answer s)) t' s'
      ∙ rw (settle-in_trip u s hub t' s') (ground (arith, ==_iff s s'))

  publish_each-IsConsistent :
      (ss : List ℕ) (hub : SubscriptionHub) (first : Result (Unit {0}))
      → IsConsistent hub
      → IsConsistent (publish_each answer t ss hub first).0
  unfolding publish_each
  publish_each-IsConsistent [] hub first c = c
  publish_each-IsConsistent (s ∷ ss) hub first c =
      publish_each-IsConsistent ss (settle hub t s (answer s)) (first_error first (answer s))
        (settle-IsConsistent s hub (answer s) c)

  -- Whether a publication reaches the sinks at all.
  abbrev pub is_sent : List ℕ → Bool
  is_sent payload = gateway_uuid t && not (leb (length payload) 0)

  pub publish_trip-in_trip :
      (hub : SubscriptionHub) (payload : List ℕ) (t' : String) (s' : ℕ)
      → in_trip (publish_trip answer hub t payload).0 t' s'
        ≡ (not (is_sent payload && same t t' && refuses s') && in_trip hub t' s')
  unfolding publish_trip
  publish_trip-in_trip hub payload t' s' = ground (
    arith,
    λ (u : gateway_uuid t ≡ true).
        publish_each-in_trip u (keys (trip_sinks hub t)) hub (ok tt) t' s',
    contains-keys s' (trip_sinks hub t),
    same_iff t t',
  )

  pub publish_trip-IsConsistent :
      (hub : SubscriptionHub) (payload : List ℕ)
      → IsConsistent hub
      → IsConsistent (publish_trip answer hub t payload).0
  unfolding publish_trip
  publish_trip-IsConsistent hub payload c =
      elim (Bool-cases (not (gateway_uuid t) || leb (length payload) 0)) [
        | inl e ↦ rw e c
        | inr e ↦ rw e (publish_each-IsConsistent (keys (trip_sinks hub t)) hub (ok tt) c)
      ]

  accepts_all : List ℕ → Bool
  accepts_all [] = true
  accepts_all (s ∷ ss) = succeeded (answer s) && accepts_all ss

  first_error-succeeded :
      (r q : Result (Unit {0})) → succeeded (first_error r q) ≡ (succeeded r && succeeded q)
  first_error-succeeded (ok _) q = refl
  first_error-succeeded (err e) q = refl

  publish_each-accepts_all :
      (ss : List ℕ) (hub : SubscriptionHub) (first : Result (Unit {0}))
      → succeeded (publish_each answer t ss hub first).1 ≡ (succeeded first && accepts_all ss)
  unfolding publish_each accepts_all
  publish_each-accepts_all [] hub first = ground arith
  publish_each-accepts_all (s ∷ ss) hub first = ground (
    arith,
    publish_each-accepts_all ss (settle hub t s (answer s)) (first_error first (answer s)),
    first_error-succeeded first (answer s),
  )

  accepts_all-contains :
      (ss : List ℕ) (s : ℕ) → accepts_all ss ≡ true → contains s ss ≡ true → refuses s ≡ false
  unfolding accepts_all contains
  accepts_all-contains [] s a m = ground arith
  accepts_all-contains (x ∷ ss) s a m =
      ground (arith, accepts_all-contains ss s, ==_iff x s, λ (p : x ≡ s). ap answer p)

  contains-accepts_all :
      (ss : List ℕ) → ((s : ℕ) → contains s ss ≡ true → refuses s ≡ false) → accepts_all ss ≡ true
  unfolding accepts_all contains
  contains-accepts_all [] h = refl
  contains-accepts_all (x ∷ ss) h =
      ground (arith, h x, ==_iff x x, contains-accepts_all ss (λ s m. h s (ground (arith, m))))

  -- PublishTrip answers no error exactly when the trip is valid, the payload is not empty and none of
  -- the sinks of the trip refuses the payload.
  pub publish_trip-succeeded :
      (hub : SubscriptionHub) (payload : List ℕ)
      → (succeeded (publish_trip answer hub t payload).1 ≡ true)
        ↔ ((is_sent payload ≡ true) × ((s : ℕ) → in_trip hub t s ≡ true → refuses s ≡ false))
  unfolding publish_trip
  publish_trip-succeeded hub payload =
      let found = keys (trip_sinks hub t) in
      let sent = publish_each-accepts_all found hub (ok tt) in
      (
        λ h. (
          ground (arith, h),
          λ s m. accepts_all-contains found s (ground (arith, h, sent)) (contains-keys s _ ∙ m),
        ),
        λ p. ground (
          arith,
          sent,
          p.0,
          contains-accepts_all found (λ s m. p.1 s (sym (contains-keys s _) ∙ m)),
        ),
      )
