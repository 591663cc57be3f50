-- ===== src/Supervisor/Closing.antt =====
-- Close, and the waits along a history.
use live_route.Base.{
  ℕ, String, true, false, none, some, List, [], ◌∷◌, same, if◌then◌else◌, arith, ◌≡◌, refl, ap, ◌∙◌,
  ◌<◌, inl, inr, ==_iff, both_branches, Bool-cases,
}
use live_route.Base.Dict.{Dict, lookup, has, string_key, nat_key, lookup-erase, has-insert}
use live_route.Base.Result.{err, runtime_closed}
use live_route.Lease.{Duration}
use live_route.Supervisor.{RuntimeSupervisor, new_runtime_supervisor, drop_trip}
use live_route.Supervisor.Commits.{
  reserve_observation, raise_observation, raise_mutation, commit_observation, commit_mutation,
}
use live_route.Supervisor.Steps.{
  close_active, close_activating, close_wait, mark_closed, close, Step, begins, fails, finishes,
  loses, deactivates, reserves, observes, mutates, closes, step, run,
}
use live_route.Supervisor.Waits.{
  Reached, IsSound, begin_activate-IsSound, fail_activate-IsSound, finish_activate-IsSound,
  deactivate-IsSound, deactivate_trip-IsSound, reserve_next-IsSound, commit_versions-IsSound,
}

-- The loop over the active trips leaves the activations alone; the loop over those resolves each.
close_active-activating :
    (d : Dict String ℕ) (s : RuntimeSupervisor)
    → ((close_active d s).activating ≡ s.activating)
      × ((close_active d s).resolved ≡ s.resolved)
      × ((close_active d s).calls ≡ s.calls)
unfolding close_active
close_active-activating [] s = (refl, refl, refl)
close_active-activating ((t, c) ∷ d) s = close_active-activating d (drop_trip s t c)

close_activating-lookup :
    (d : Dict String ℕ) (s : RuntimeSupervisor) (t : String)
    → lookup t (close_activating d s).activating ≡ (if has t d then none else lookup t s.activating)
unfolding close_activating lookup
close_activating-lookup [] s t = refl
close_activating-lookup ((t', w) ∷ d) s t =
    close_activating-lookup d (close_wait s t' w) t ∙ ground (arith, lookup-erase t' t s.activating)

close_activating-resolved :
    (d : Dict String ℕ) (s : RuntimeSupervisor) (i : ℕ)
    → has i s.resolved ≡ true
    → has i (close_activating d s).resolved ≡ true
unfolding close_activating
close_activating-resolved [] s i h = h
close_activating-resolved ((t, w) ∷ d) s i h =
    close_activating-resolved d (close_wait s t w) i
      (ground (arith, has-insert w i (err runtime_closed) s.resolved, h))

close_activating-resolves :
    (d : Dict String ℕ) (s : RuntimeSupervisor) (i : ℕ) (t : String)
    → lookup t d ≡ some i
    → has i (close_activating d s).resolved ≡ true
unfolding close_activating lookup
close_activating-resolves [] s i t e = absurd (cc)
close_activating-resolves ((t', w) ∷ d) s i t e = elim (Bool-cases (same t' t)) [
  | inl p ↦
      close_activating-resolved d (close_wait s t' w) i
        (ground (arith, e, p, ==_iff w i, has-insert w i (err runtime_closed) s.resolved))
  | inr p ↦ close_activating-resolves d (close_wait s t' w) i t (ground (arith, e, p))
]

close_activating-calls :
    (d : Dict String ℕ) (s : RuntimeSupervisor) → (close_activating d s).calls ≡ s.calls
unfolding close_activating
close_activating-calls [] s = refl
close_activating-calls ((t, w) ∷ d) s = close_activating-calls d (close_wait s t w)

module _ (s : RuntimeSupervisor) where
  abbrev inactive : RuntimeSupervisor
  inactive = close_active s.active (mark_closed s)

  abbrev ended : RuntimeSupervisor
  ended = close_activating s.activating inactive

  ended-emptied : (t : String) → lookup t ended.activating ≡ none
  ended-emptied t =
      close_activating-lookup s.activating inactive t
      ∙ ground (arith, ap (lookup t) (close_active-activating s.active (mark_closed s)).0)

  ended-calls : ended.calls ≡ s.calls
  ended-calls =
      close_activating-calls s.activating inactive
      ∙ (close_active-activating s.active (mark_closed s)).2

  ended-resolved : (i : ℕ) → Reached s.activating s.resolved i → has i ended.resolved ≡ true
  ended-resolved i (inl e) =
      close_activating-resolved s.activating inactive i
        (ap (has i) (close_active-activating s.active (mark_closed s)).1 ∙ e)
  ended-resolved i (inr (t, e)) = close_activating-resolves s.activating inactive i t e

  ended-IsSound : IsSound s → IsSound ended
  ended-IsSound k = record {
    covers = λ t h. absurd (ground (arith, h, ended-emptied t));
    reached = λ i h. inl (ended-resolved i (k.reached i (omega (arith, h, ended-calls))));
    emptied = λ c. ended-emptied;
  }

  close-IsSound : IsSound s → IsSound (close s)
  unfolding close
  close-IsSound k = both_branches IsSound s.closed (λ c. k) (λ c. ended-IsSound k)

  -- Close resolves what has been handed out.
  close-resolves : IsSound s → (i : ℕ) → i < s.calls → has i (close s).resolved ≡ true
  unfolding close
  close-resolves k i h =
      both_branches (λ (x : RuntimeSupervisor). has i x.resolved ≡ true) s.closed
        (λ c. elim (k.reached i h) [
          | inl e ↦ e
          | inr (t, e) ↦ absurd (ground (arith, e, k.emptied c t))
        ])
        (λ c. ended-resolved i (k.reached i h))

-- The activation of a trip is neither deactivated nor lost before it is complete.
abbrev pub Orderly : RuntimeSupervisor → Step → Type 0
Orderly s (loses t) = has t s.activating ≡ false
Orderly s (deactivates t found release current) = has t s.activating ≡ false
Orderly s _ = Unit

abbrev pub OrderlyRun : RuntimeSupervisor → List Step → Type 0
OrderlyRun s [] = Unit
OrderlyRun s (st ∷ ss) = Orderly s st × OrderlyRun (step s st) ss

step-IsSound : (st : Step) (s : RuntimeSupervisor) → Orderly s st → IsSound s → IsSound (step s st)
unfolding step reserve_observation commit_observation commit_mutation
step-IsSound (begins t) s o k = begin_activate-IsSound s t k
step-IsSound (fails t wait e) s o k = fail_activate-IsSound s t k wait e
step-IsSound (finishes t wait epoch a) s o k = finish_activate-IsSound s t k wait epoch a
step-IsSound (loses t) s o k = deactivate-IsSound s t k o
step-IsSound (deactivates t found r c) s o k = deactivate_trip-IsSound s t k found r c o
step-IsSound (reserves t) s o k = reserve_next-IsSound s t k (lookup t s.state)
step-IsSound (observes t epoch q a p) s o k =
    commit_versions-IsSound s t k (raise_observation q a p) epoch (lookup t s.state)
step-IsSound (mutates t epoch a p) s o k =
    commit_versions-IsSound s t k (raise_mutation a p) epoch (lookup t s.state)
step-IsSound closes s o k = close-IsSound s k

run-IsSound :
    (ss : List Step) (s : RuntimeSupervisor) → OrderlyRun s ss → IsSound s → IsSound (run s ss)
unfolding run
run-IsSound [] s o k = k
run-IsSound (st ∷ ss) s o k = run-IsSound ss (step s st) o.1 (step-IsSound st s o.0 k)

-- When the activation of no trip is deactivated or loses its lease before it is complete, every call of
-- Activate that went on to take a lease has, after any history of a new supervisor and a Close at its
-- end, a result for those who wait for it; and at every time before, a trip that is being activated
-- counts as active.
pub close-run-Resolved :
    (holder_id : String) (lease margin : Duration) (m : ℕ) (s : RuntimeSupervisor) (ss : List Step)
    → new_runtime_supervisor holder_id lease margin m ≡ some s
    → OrderlyRun s ss
    → ((i : ℕ) → i < (run s ss).calls → has i (close (run s ss)).resolved ≡ true)
      × ((t : String) → has t (run s ss).activating ≡ true → has t (run s ss).active ≡ true)
unfolding new_runtime_supervisor lookup
close-run-Resolved holder_id lease margin m s ss h o =
    let new : IsSound s = record {
      covers = λ t e. ground (arith, h, e);
      reached = λ i l. absurd (ground (arith, h, l));
      emptied = λ c t. ground (arith, h);
    } in
    let k = run-IsSound ss s o new in (close-resolves (run s ss) k, k.covers)
