-- ===== src/Dispatch/Pass.antt =====
-- What RunOnce reports.
use live_route.Base.{
  ℕ, String, Bool, true, false, List, [], ◌∷◌, arith, ◌≡◌, refl, ◌≤◌, ◌⊎◌, inl, inr,
}
use live_route.Base.Table.{count_where}
use live_route.Base.Result.{Error, Result, ok, err}
use live_route.Store.{RuntimeLease}
use live_route.Delivery.Claims.{ClaimedOutboxRow}
use live_route.Delivery.Pending.{PendingFinalizationConfirmation}
use live_route.Dispatch.{
  dispatch, counted, dispatch_rows, after_confirm, recover_one, recover_each, recover_pending,
  recover_confirmations, claimed, recovered, run_once,
}
use live_route.Dispatch.Requests.{Dispatcher, Dispatched}
use live_route.Dispatch.Settled.{Laws, Keeps, IsSound, dispatch-IsSound, confirm-Keeps}

module _ {S : Type 0} (d : Dispatcher S) (settled : S → String → Bool) (k : Laws d settled) where
  -- How many of the rows are settled.
  abbrev pub settled_rows : S → List ClaimedOutboxRow → ℕ
  settled_rows s rows = count_where (λ (row : ClaimedOutboxRow). settled s row.id) rows

  abbrev RowsSound : List ClaimedOutboxRow → S → S × ℕ × List Error → Type 0
  RowsSound rows s (s', n, es) = Keeps d settled k s s' × (n ≤ settled_rows s' rows)

  counted-RowsSound :
      (row : ClaimedOutboxRow) (rows : List ClaimedOutboxRow) (s : S) (one : Dispatched S)
      (rest : S × ℕ × List Error)
      → IsSound d settled k row s one
      → RowsSound rows one.0 rest
      → RowsSound (row ∷ rows) s (counted d one rest)
  unfolding count_where
  counted-RowsSound row rows s (s1, true, r) (s2, n, es) h g =
      (λ id o. g.0 id (h.0 id o), ground (arith, g.1, g.0 row.id (h.1 refl)))
  counted-RowsSound row rows s (s1, false, r) (s2, n, es) h g =
      (λ id o. g.0 id (h.0 id o), ground (arith, g.1))

  dispatch_rows-RowsSound :
      (rows : List ClaimedOutboxRow) (s : S) → RowsSound rows s (dispatch_rows d rows s)
  unfolding dispatch_rows count_where
  dispatch_rows-RowsSound [] s = (λ id o. o, omega arith)
  dispatch_rows-RowsSound (row ∷ rows) s =
      let one = dispatch d row s in
      counted-RowsSound row rows s one (dispatch_rows d rows one.0)
        (dispatch-IsSound d settled k row s) (dispatch_rows-RowsSound rows one.0)

  recover_one-Keeps :
      (t : String) (n : ℕ) (s : S) (r : Result RuntimeLease)
      → Keeps d settled k s (recover_one d t n s r).1
  recover_one-Keeps t n s (err e) = λ id h. h
  recover_one-Keeps t n s (ok lease) = confirm-Keeps d settled k t lease.runtime_epoch n s

  after_confirm-Keeps :
      (s : S) (p : Result (Unit {0}) × S) (rest : S → Result (Unit {0}) × S)
      → Keeps d settled k s p.1
      → ((z : S) → Keeps d settled k z (rest z).1)
      → Keeps d settled k s (after_confirm d p rest).1
  after_confirm-Keeps s (err e, s') rest h g = h
  after_confirm-Keeps s (ok u, s') rest h g = λ id o. g s' id (h id o)

  recover_each-Keeps :
      (vs : List PendingFinalizationConfirmation) (s : S)
      → Keeps d settled k s (recover_each d vs s).1
  unfolding recover_each
  recover_each-Keeps [] s = λ id h. h
  recover_each-Keeps (v ∷ vs) s =
      after_confirm-Keeps s _ (recover_each d vs)
        (recover_one-Keeps v.trip_id v.finalized_mutation_sequence s
          (d.current v.trip_id (d.config).lease_holder s))
        (recover_each-Keeps vs)

  recover_pending-Keeps :
      (s : S) (p : Result (List PendingFinalizationConfirmation) × S)
      → Keeps d settled k s p.1
      → Keeps d settled k s (recover_pending d p).1
  recover_pending-Keeps s (err e, s') h = h
  recover_pending-Keeps s (ok vs, s') h = λ id o. recover_each-Keeps vs s' id (h id o)

  recover_confirmations-Keeps : (s : S) → Keeps d settled k s (recover_confirmations d s).1
  unfolding recover_confirmations
  recover_confirmations-Keeps s =
      recover_pending-Keeps s (d.pending_finalization_confirmations (d.config).batch_size s)
        (k.pending_keeps (d.config).batch_size s)

  abbrev claims : S → Result (List ClaimedOutboxRow) × S
  claims s = d.claim_due (d.config).claim_owner (d.config).batch_size (d.config).claim_duration s

  -- How a pass ended: with the failed recovery, which claims nothing; with a failed ClaimDue; or with
  -- the rows that ClaimDue gave, one after the other.
  abbrev pub EndsAs : S → List ClaimedOutboxRow → S × ℕ × List Error → Type 0
  EndsAs s rows pass =
      ((e : Error) × (s1 : S) × (recover_confirmations d s ≡ (err e, s1))
        × (rows ≡ [])
        × (pass ≡ (s1, 0, e ∷ [])))
      ⊎ (((e : Error) × (s1 : S) × (s2 : S) × (recover_confirmations d s ≡ (ok tt, s1))
            × (claims s1 ≡ (err e, s2))
            × (rows ≡ [])
            × (pass ≡ (s2, 0, e ∷ [])))
          ⊎ ((s1 : S) × (s2 : S) × (recover_confirmations d s ≡ (ok tt, s1))
              × (claims s1 ≡ (ok rows, s2))
              × (pass ≡ dispatch_rows d rows s2)))

  -- What a pass leaves, and the number that it returns.
  pub record Reported (s : S) (pass : S × ℕ × List Error) : Type 0 where
    pub rows : List ClaimedOutboxRow
    pub ended : EndsAs s rows pass
    pub kept : Keeps d settled k s pass.0
    pub resolved : pass.1 ≤ settled_rows pass.0 rows

  claimed-Reported :
      (s s1 : S) (p : Result (List ClaimedOutboxRow) × S)
      → recover_confirmations d s ≡ (ok tt, s1)
      → claims s1 ≡ p
      → Keeps d settled k s p.1
      → Reported s (claimed d p)
  unfolding count_where
  claimed-Reported s s1 (err e, s2) r c h = record {
    rows = [];
    ended = inr (inl (e, s1, s2, r, c, refl, refl));
    kept = h;
    resolved = omega arith;
  }
  claimed-Reported s s1 (ok rows, s2) r c h =
      let g = dispatch_rows-RowsSound rows s2 in
      record {
        rows = rows;
        ended = inr (inr (s1, s2, r, c, refl));
        kept = λ id o. g.0 id (h id o);
        resolved = g.1;
      }

  recovered-Reported :
      (s : S) (p : Result (Unit {0}) × S)
      → recover_confirmations d s ≡ p
      → Keeps d settled k s p.1
      → Reported s (recovered d p)
  unfolding count_where
  recovered-Reported s (err e, s1) r h = record {
    rows = [];
    ended = inl (e, s1, r, refl, refl);
    kept = h;
    resolved = omega arith;
  }
  recovered-Reported s (ok u, s1) r h =
      claimed-Reported s s1 (claims s1) r refl (λ id o. k.claim_keeps _ _ _ s1 id (h id o))

  -- Over interfaces that keep settled rows settled and whose finalizations settle their row, RunOnce
  -- claims rows only after the recovery of confirmations ended without an error; at its end at least
  -- as many of the claimed rows are settled as the number that it returns, whatever the planner
  -- answers and whichever calls fail; and a row that was settled before still is.
  pub run_once-Reported : (s : S) → Reported s (run_once d s)
  unfolding run_once
  run_once-Reported s =
      recovered-Reported s (recover_confirmations d s) refl (recover_confirmations-Keeps s)
