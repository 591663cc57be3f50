-- ===== src/Hub/Consistent.antt =====
-- The two maps of the subscription hub show the same pairs of a trip and a sink, and what each
-- operation does to those pairs.
use live_route.Base.{
  ℕ, String, Bool, true, false, none, some, [], ◌∷◌, same, ◌==◌, if◌then◌else◌, arith, ◌≡◌, refl,
  Bool-cases, Option-cases, inl, inr, ◌&&◌, not, ◌||◌, same_iff, ◌∙◌,
}
use live_route.Base.Dict.{
  Dict, Key, Group, lookup, insert, erase, has, or_nil, string_key, nat_key, lookup-insert,
  lookup-erase, has-insert, has-erase,
}
use live_route.Base.Result.{Result, ok, err}
use live_route.Hub.{
  SubscriptionHub, trip_sinks, sink_trips, open_trip, subscribe_locked, subscribe, put_or_drop,
  drop_locked, remove_locked, unsubscribe, add_both,
}
use live_route.Uuid.Gateway.{gateway_uuid}

-- The pair of a trip and a sink, in each of the maps.
abbrev pub in_trip : SubscriptionHub → String → ℕ → Bool
in_trip hub t s = has s (trip_sinks hub t)

abbrev pub in_sink : SubscriptionHub → String → ℕ → Bool
in_sink hub t s = has t (sink_trips hub s)

abbrev pub IsConsistent : SubscriptionHub → Type 0
IsConsistent hub = (t : String) (s : ℕ) → in_trip hub t s ≡ in_sink hub t s

abbrev pub is_pair : String → ℕ → String → ℕ → Bool
is_pair t s t' s' = same t t' && s == s'

abbrev pub succeeded : Result (Unit {0}) → Bool
succeeded (ok _) = true
succeeded (err e) = false

pub or_nil-put_or_drop {ℓ κ} :
    {K : Type ℓ} {V : Type κ} ⦃o : Key K⦄ (k j : K) (g : Group V) (d : Dict K (Group V))
    → or_nil (lookup j (put_or_drop k g d)) ≡ (if o.alike k j then g else or_nil (lookup j d))
or_nil-put_or_drop ⦃o⦄ k j [] d = ground (arith, lookup-erase k j d)
or_nil-put_or_drop ⦃o⦄ k j (v ∷ vs) d = ground (arith, lookup-insert k j (v ∷ vs) d)

module _ (t : String) (s : ℕ) (hub : SubscriptionHub) where
  in_trip-open_trip :
      (t' : String) (s' : ℕ)
      → in_trip (open_trip t (lookup t hub.by_trip) hub) t' s' ≡ in_trip hub t' s'
  unfolding open_trip
  in_trip-open_trip t' s' = elim (Option-cases (lookup t hub.by_trip)) [
    | inl e ↦ ground (arith, e, lookup-insert t t' [] hub.by_trip, same_iff t t')
    | inr (g, e) ↦ rw e refl
  ]

  in_trip-add_both :
      (t' : String) (s' : ℕ)
      → in_trip (add_both t s hub) t' s' ≡ (is_pair t s t' s' || in_trip hub t' s')
  in_trip-add_both t' s' = ground (
    arith,
    lookup-insert t t' (insert s tt (trip_sinks hub t)) hub.by_trip,
    has-insert s s' tt (trip_sinks hub t),
    same_iff t t',
  )

  in_sink-add_both :
      (t' : String) (s' : ℕ)
      → in_sink (add_both t s hub) t' s' ≡ (is_pair t s t' s' || in_sink hub t' s')
  in_sink-add_both t' s' = ground (
    arith,
    lookup-insert s s' (insert t tt (sink_trips hub s)) hub.by_sink,
    has-insert t t' tt (sink_trips hub s),
    same_iff t t',
  )

  in_trip-absent :
      (t' : String) (s' : ℕ)
      → lookup t hub.by_trip ≡ none
      → in_trip hub t' s' ≡ (not (is_pair t s t' s') && in_trip hub t' s')
  unfolding lookup
  in_trip-absent t' s' e = ground (arith, e, same_iff t t')

  pub in_trip-remove_locked :
      (t' : String) (s' : ℕ)
      → in_trip (remove_locked t s hub) t' s' ≡ (not (is_pair t s t' s') && in_trip hub t' s')
  unfolding remove_locked drop_locked
  in_trip-remove_locked t' s' = elim (Option-cases (lookup t hub.by_trip)) [
    | inl e ↦ rw e (in_trip-absent t' s' e)
    | inr (g, e) ↦
        ground (
          arith,
          e,
          or_nil-put_or_drop t t' (erase s g) hub.by_trip,
          has-erase s s' g,
          same_iff t t',
        )
  ]

  in_sink-drop :
      (g : Group ℕ) (t' : String) (s' : ℕ)
      → in_sink (drop_locked t s (some g) hub) t' s'
        ≡ (not (is_pair t s t' s') && in_sink hub t' s')
  unfolding drop_locked
  in_sink-drop g t' s' = ground (
    arith,
    or_nil-put_or_drop s s' (erase t (sink_trips hub s)) hub.by_sink,
    has-erase t t' (sink_trips hub s),
    same_iff t t',
  )

  pub in_sink-remove_locked :
      IsConsistent hub
      → (t' : String) (s' : ℕ)
      → in_sink (remove_locked t s hub) t' s' ≡ (not (is_pair t s t' s') && in_sink hub t' s')
  unfolding remove_locked
  in_sink-remove_locked c t' s' = elim (Option-cases (lookup t hub.by_trip)) [
    | inl e ↦ rw (e, ← c t' s') (in_trip-absent t' s' e)
    | inr (g, e) ↦ rw e (in_sink-drop g t' s')
  ]

  pub remove_locked-IsConsistent : IsConsistent hub → IsConsistent (remove_locked t s hub)
  remove_locked-IsConsistent c t' s' =
      rw (in_trip-remove_locked t' s', in_sink-remove_locked c t' s', c t' s') refl

  subscribe_locked-in_trip :
      (t' : String) (s' : ℕ)
      → in_trip (subscribe_locked t s hub).0 t' s'
        ≡ (is_pair t s t' s' && succeeded (subscribe_locked t s hub).1 || in_trip hub t' s')
  unfolding subscribe_locked
  subscribe_locked-in_trip t' s' = ground (arith, in_trip-add_both t' s', same_iff t t')

  subscribe_locked-IsConsistent : IsConsistent hub → IsConsistent (subscribe_locked t s hub).0
  unfolding subscribe_locked
  subscribe_locked-IsConsistent c t' s' =
      ground (arith, in_trip-add_both t' s', in_sink-add_both t' s', c t' s')

  pub unsubscribe-in_trip :
      (t' : String) (s' : ℕ)
      → in_trip (unsubscribe hub t (some s)) t' s'
        ≡ (not (gateway_uuid t && is_pair t s t' s') && in_trip hub t' s')
  unfolding unsubscribe
  unsubscribe-in_trip t' s' = ground (arith, in_trip-remove_locked t' s')

  pub unsubscribe-IsConsistent : IsConsistent hub → IsConsistent (unsubscribe hub t (some s))
  unfolding unsubscribe
  unsubscribe-IsConsistent c = elim (Bool-cases (gateway_uuid t)) [
    | inl e ↦ rw e (remove_locked-IsConsistent c)
    | inr e ↦ rw e c
  ]

  open_trip-IsConsistent : IsConsistent hub → IsConsistent (open_trip t (lookup t hub.by_trip) hub)
  unfolding open_trip
  open_trip-IsConsistent c t' s' = elim (Option-cases (lookup t hub.by_trip)) [
    | inl e ↦ in_trip-open_trip t' s' ∙ rw e (c t' s')
    | inr (g, e) ↦ rw e (c t' s')
  ]

module _ (t : String) (s : ℕ) (hub : SubscriptionHub) where
  abbrev opened : SubscriptionHub
  opened = open_trip t (lookup t hub.by_trip) hub

  pub subscribe-in_trip :
      (t' : String) (s' : ℕ)
      → in_trip (subscribe hub t (some s)).0 t' s'
        ≡ (is_pair t s t' s' && succeeded (subscribe hub t (some s)).1 || in_trip hub t' s')
  unfolding subscribe
  subscribe-in_trip t' s' =
      ground (arith, subscribe_locked-in_trip t s opened t' s', in_trip-open_trip t s hub t' s')

  pub subscribe-IsConsistent : IsConsistent hub → IsConsistent (subscribe hub t (some s)).0
  unfolding subscribe
  subscribe-IsConsistent c = elim (Bool-cases (gateway_uuid t)) [
    | inl e ↦ rw e (subscribe_locked-IsConsistent t s opened (open_trip-IsConsistent t s hub c))
    | inr e ↦ rw e c
  ]
