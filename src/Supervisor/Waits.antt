-- ===== src/Supervisor/Waits.antt =====
-- The callers that wait for an activation.
use live_route.Base.{
  ℕ, ◌+◌, String, true, false, not, Option, none, some, same, ◌==◌, arith, ◌≡◌, ap, ◌∙◌, ◌<◌, ◌⊎◌,
  inl, inr, same_iff, same_self, ==_iff, both_branches, leb, length, Bool-cases,
}
use mathlib.Core.Path.{subst}
use live_route.Base.Dict.{
  Dict, lookup, insert, erase, has, string_key, nat_key, lookup-insert, lookup-erase, has-insert,
  has-erase,
}
use live_route.Base.Result.{Error, Result, ok, err, runtime_closed}
use live_route.Supervisor.{
  RuntimeSupervisor, RuntimeVersions, Owned, begin_activate, start, is_own, fail_activate, give_up,
  finish_activate, install, drop_active, deactivate, after_release, released, deactivate_trip,
}
use live_route.Supervisor.Commits.{reserve_next, commit_versions}
use live_route.Uuid.{canonical_uuid}

-- The wait is resolved, or a trip is being activated under it.
abbrev pub Reached : Dict String ℕ → Dict ℕ (Result (Unit {0})) → ℕ → Type 0
Reached activating resolved i =
    (has i resolved ≡ true) ⊎ ((t : String) × (lookup t activating ≡ some i))

abbrev pub Covers : Dict String ℕ → Dict String ℕ → Type 0
Covers active activating = (t : String) → has t activating ≡ true → has t active ≡ true

pub record IsSound (s : RuntimeSupervisor) : Type 0 where
  pub covers : Covers s.active s.activating
  pub reached : (i : ℕ) → i < s.calls → Reached s.activating s.resolved i
  pub emptied : s.closed ≡ true → (t : String) → lookup t s.activating ≡ none

-- The same of the supervisor that a call leaves beside its answer.
record GivesSound {R : Type 0} (r : RuntimeSupervisor × R) : Type 0 where
  sound : IsSound r.0

is_own-eq : (wait i : ℕ) → is_own wait (some i) ≡ true → i ≡ wait
is_own-eq wait i h = (==_iff i wait).0 h

-- The wait of a trip is resolved as its entry goes.
resolve-Reached :
    (activating : Dict String ℕ) (resolved : Dict ℕ (Result (Unit {0}))) (t : String) (wait : ℕ)
    (r : Result (Unit {0})) (i : ℕ)
    → is_own wait (lookup t activating) ≡ true
    → Reached activating resolved i
    → Reached (erase t activating) (insert wait r resolved) i
resolve-Reached activating resolved t wait r i o (inl e) =
    inl (ground (arith, e, has-insert wait i r resolved))
resolve-Reached activating resolved t wait r i o (inr (t', e)) = elim (Bool-cases (same t t')) [
  | inl p ↦
      let q : lookup t activating ≡ some i = ap (λ u. lookup u activating) (same_iff t t' p) ∙ e in
      let w : i ≡ wait = is_own-eq wait i (subst (λ x. is_own wait x ≡ true) q o) in
      inl (ground (arith, w, ==_iff wait i, has-insert wait i r resolved))
  | inr p ↦ inr (t', ground (arith, lookup-erase t t' activating, p, e))
]

Covers-erase :
    (active activating : Dict String ℕ) (t : String)
    → Covers active activating
    → Covers active (erase t activating)
Covers-erase active activating t c t' h = ground (arith, has-erase t t' activating, c t', h)

Covers-both :
    (active activating : Dict String ℕ) (t : String)
    → Covers active activating
    → Covers (erase t active) (erase t activating)
Covers-both active activating t c t' h =
    ground (arith, has-erase t t' activating, has-erase t t' active, c t', h)

none-erase :
    (activating : Dict String ℕ) (t t' : String)
    → lookup t' activating ≡ none
    → lookup t' (erase t activating) ≡ none
none-erase activating t t' e = ground (arith, lookup-erase t t' activating, e)

module _ (s : RuntimeSupervisor) (t : String) (k : IsSound s) where
  start-Reached :
      has t s.active ≡ false
      → (i : ℕ) → i < s.calls + 1
      → Reached (insert t s.calls s.activating) s.resolved i
  start-Reached free i h = elim (Bool-cases (i == s.calls)) [
    | inl e ↦ inr (
      t,
      ground (arith, lookup-insert t t s.calls s.activating, same_self t, ==_iff i s.calls, e),
    )
    | inr e ↦ old (k.reached i (ground (arith, h, e)))
  ]
    where
      old : Reached s.activating s.resolved i → Reached (insert t s.calls s.activating) s.resolved i
      old (inl e) = inl e
      old (inr (t', e)) = inr (
        t',
        ground
            (arith, lookup-insert t t' s.calls s.activating, e, same_iff t t', free, k.covers t'),
      )

  start-IsSound : s.closed ≡ false → has t s.active ≡ false → IsSound (start s t)
  start-IsSound c free = record {
    covers = λ t' h. ground (
      arith,
      has-insert t t' s.calls s.activating,
      has-insert t t' s.calls s.active,
      k.covers t',
      h,
    );
    reached = start-Reached free;
    emptied = λ e. absurd (cc);
  }

  pub begin_activate-IsSound : IsSound (begin_activate s t).0
  unfolding begin_activate
  begin_activate-IsSound =
      let g : GivesSound (begin_activate s t) =
        both_branches GivesSound (not (canonical_uuid t)) (λ u. record { sound = k })
          (λ u.
            both_branches GivesSound s.closed (λ c. record { sound = k })
              (λ c.
                both_branches GivesSound (has t s.active) (λ a. record { sound = k })
                  (λ a.
                    both_branches GivesSound (leb s.max_active_trips (length s.active))
                      (λ m. record { sound = k }) (λ m. record { sound = start-IsSound c a })))) in
      g.sound

  give_up-IsSound :
      (wait : ℕ) (e : Error)
      → is_own wait (lookup t s.activating) ≡ true
      → IsSound (give_up s t wait e)
  give_up-IsSound wait e o = record {
    covers = Covers-both s.active s.activating t k.covers;
    reached = λ i h. resolve-Reached s.activating s.resolved t wait (err e) i o (k.reached i h);
    emptied = λ c t'. none-erase s.activating t t' (k.emptied c t');
  }

  install-IsSound :
      (wait epoch accepted : ℕ)
      → is_own wait (lookup t s.activating) ≡ true
      → IsSound (install s t wait epoch accepted)
  install-IsSound wait epoch accepted o = record {
    covers = Covers-erase s.active s.activating t k.covers;
    reached = λ i h. resolve-Reached s.activating s.resolved t wait (ok tt) i o (k.reached i h);
    emptied = λ c t'. none-erase s.activating t t' (k.emptied c t');
  }

  pub fail_activate-IsSound : (wait : ℕ) (e : Error) → IsSound (fail_activate s t wait e)
  unfolding fail_activate
  fail_activate-IsSound wait e =
      both_branches IsSound (is_own wait (lookup t s.activating)) (λ o. give_up-IsSound wait e o)
        (λ o. record { covers = k.covers; reached = k.reached; emptied = k.emptied })

  pub finish_activate-IsSound :
      (wait epoch accepted : ℕ) → IsSound (finish_activate s t wait epoch accepted).0
  unfolding finish_activate
  finish_activate-IsSound wait epoch accepted =
      let g : GivesSound (finish_activate s t wait epoch accepted) =
        both_branches GivesSound (not (is_own wait (lookup t s.activating)))
          (λ o. record {
            sound = record { covers = k.covers; reached = k.reached; emptied = k.emptied };
          })
          (λ o.
            both_branches GivesSound s.closed
              (λ c. record { sound = give_up-IsSound wait runtime_closed (ground (arith, o)) })
              (λ c. record { sound = install-IsSound wait epoch accepted (ground (arith, o)) })) in
      g.sound

  -- A trip that is not being activated may be dropped.
  drop_active-IsSound : (c : Option ℕ) → has t s.activating ≡ false → IsSound (drop_active s t c)
  drop_active-IsSound none free = k
  drop_active-IsSound (some c) free = record {
    covers = λ t' h. ground (arith, has-erase t t' s.active, k.covers t', h, free, same_iff t t');
    reached = k.reached;
    emptied = k.emptied;
  }

  pub deactivate-IsSound : has t s.activating ≡ false → IsSound (deactivate s t)
  unfolding deactivate
  deactivate-IsSound = drop_active-IsSound (lookup t s.active)

  after_release-IsSound :
      (r : Result (Unit {0})) → has t s.activating ≡ false → IsSound (after_release s t r).0
  after_release-IsSound (ok _) free = deactivate-IsSound free
  after_release-IsSound (err e) free = k

  pub deactivate_trip-IsSound :
      (o : Owned) (r : Result (Unit {0})) (c : Result ℕ)
      → has t s.activating ≡ false
      → IsSound (deactivate_trip s t o r c).0
  unfolding deactivate_trip
  deactivate_trip-IsSound o r c free =
      let g : GivesSound (deactivate_trip s t o r c) =
        both_branches GivesSound (canonical_uuid t)
          (λ u. record { sound = after_release-IsSound (released o r c) free })
          (λ u. record { sound = k }) in
      g.sound

  pub reserve_next-IsSound : (v : Option RuntimeVersions) → IsSound (reserve_next s t v).0
  reserve_next-IsSound none = k
  reserve_next-IsSound (some v) = record {
    covers = k.covers;
    reached = k.reached;
    emptied = k.emptied;
  }

  pub commit_versions-IsSound :
      (f : RuntimeVersions → RuntimeVersions) (epoch : ℕ) (v : Option RuntimeVersions)
      → IsSound (commit_versions f s t epoch v).0
  commit_versions-IsSound f epoch none = k
  commit_versions-IsSound f epoch (some v) =
      let g : GivesSound (commit_versions f s t epoch (some v)) =
        both_branches GivesSound (not (v.runtime_epoch == epoch)) (λ e. record { sound = k })
          (λ e. record {
            sound = record { covers = k.covers; reached = k.reached; emptied = k.emptied };
          }) in
      g.sound
