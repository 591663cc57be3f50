-- ===== src/Dispatch/Resolved.antt =====
-- A pass of the dispatcher over the stores.
use live_route.Base.{ℕ, String, Bool, true, ◌≡◌, refl, ap}
use mathlib.Core.Path.{subst}
use live_route.Base.Result.{Result, ok, err, Link}
use live_route.Store.{Db}
use live_route.Decision.Rows.{FinalizeProposalDecisionRequest}
use live_route.Delivery.Claims.{ClaimedOutboxRow}
use live_route.Wire.{ApplyTripEvent, PlannerStreamResponse, EventAcknowledged}
use live_route.Dispatch.{run_once}
use live_route.Dispatch.Stores.{is_settled_in, KeepsRows}
use live_route.Dispatch.Kept.{
  Settles, finalize_terminal-Settles, finalize_stale_proposal_decision-Settles,
  finalize_proposal_rejection-Settles, finalize_accepted_mutation-Settles,
}
use live_route.Dispatch.Held.{
  finalize_canonical_mirror-Settles, claim_due-KeepsRows, release_for_retry-KeepsRows,
  pause_internal-KeepsRows, confirm_finalized_mutations-KeepsRows,
}
use live_route.Mirror.{finalize_canonical_mirror}
use live_route.Confirm.{confirm_finalized_mutations}
use live_route.Delivery.{claim_due, release_for_retry, pause_internal}
use live_route.Delivery.Pending.{pending_finalization_confirmations}
use live_route.Dispatch.Settled.{Laws}
use live_route.Dispatch.Pass.{Reported, run_once-Reported}
use live_route.Dispatch.Outcomes.{finalize_cases}
use live_route.Dispatch.Database.{World, Backend, seen, turn, command_store, worker}

-- A row of the world is settled.
abbrev pub settled : World → String → Bool
settled w id = is_settled_in w.db id

abbrev Keeps : World → World → Type 0
Keeps w w' = (id : String) → settled w id ≡ true → settled w' id ≡ true

-- What a finalization does to the world.
record Lasts {A : Type 0} (w : World) (id : String) (p : Result A × World) : Type 0 where
  keeps : Keeps w p.1
  settles : (a : A) (w' : World) → p ≡ (ok a, w') → settled w' id ≡ true

-- What is asked of the parts that are parameters: other sessions do not touch settled rows, and an
-- acceptance that succeeds settles its row.
pub record Orderly (b : Backend) : Type 0 where
  pub others_keep : (n : ℕ) (db : Db) → KeepsRows db (b.others n db)
  pub acceptance_settles :
      (link : Link) (now : ℕ) (db : Db) (q : FinalizeProposalDecisionRequest)
      → Settles db q.outbox_id (b.finalize_proposal_acceptance link now db q)

seen-Keeps :
    {A : Type 0} (w : World) (n : ℕ) (db : Db) (p : Result A × Db)
    → KeepsRows w.db db
    → KeepsRows db p.1
    → Keeps w (seen n p).1
seen-Keeps w n db (r, db') h k = λ id g. k id (h id g)

seen-Lasts :
    {A : Type 0} (w : World) (n : ℕ) (db : Db) (id : String) (p : Result A × Db)
    → KeepsRows w.db db
    → Settles db id p
    → Lasts w id (seen n p)
seen-Lasts w n db id (ok a, db') h k = record {
  keeps = λ i g. k.keeps i (h i g);
  settles = λ c w' e.
      subst (λ z. settled z id ≡ true) (ap (λ (q : Result _ × World). q.1) e)
        (k.settles a db' refl);
}
seen-Lasts w n db id (err x, db') h k = record {
  keeps = λ i g. k.keeps i (h i g);
  settles = λ c w' e. absurd (cc);
}

module _ (b : Backend) (o : Orderly b) where
  turn-Keeps :
      {A : Type 0} (f : Link → ℕ → Db → Result A × Db) (w : World)
      → ((link : Link) (now : ℕ) (db : Db) → KeepsRows db (f link now db).1)
      → Keeps w (turn b f w).1
  turn-Keeps f w k =
      let db = b.others w.calls w.db in
      seen-Keeps w w.calls db (f (b.link w.calls) (b.clock w.calls) db) (o.others_keep w.calls w.db)
        (k (b.link w.calls) (b.clock w.calls) db)

  turn-Lasts :
      {A : Type 0} (f : Link → ℕ → Db → Result A × Db) (id : String) (w : World)
      → ((link : Link) (now : ℕ) (db : Db) → Settles db id (f link now db))
      → Lasts w id (turn b f w)
  turn-Lasts f id w k =
      let db = b.others w.calls w.db in
      seen-Lasts w w.calls db id (f (b.link w.calls) (b.clock w.calls) db)
        (o.others_keep w.calls w.db) (k (b.link w.calls) (b.clock w.calls) db)

  -- The turns of the command store, for a request that is about the row.
  finalize-Lasts :
      (row : ClaimedOutboxRow) (event : ApplyTripEvent) (r : PlannerStreamResponse)
      (ack : EventAcknowledged) (w : World)
      → Lasts w row.id ((worker b).finalize row event r ack w)
  finalize-Lasts row event r ack w =
      finalize_cases b.stable_outcome (command_store b) (Lasts w row.id) row w
        (λ e. record { keeps = λ i g. g; settles = λ c w' h. absurd (cc) })
        (λ q e.
          subst (λ z. Lasts w z ((command_store b).finalize_accepted_mutation q w)) e
            (turn-Lasts _ q.outbox_id w
              (λ link now db. finalize_accepted_mutation-Settles link now db q)))
        (λ q e.
          subst (λ z. Lasts w z ((command_store b).finalize_proposal_acceptance q w)) e
            (turn-Lasts _ q.outbox_id w (λ link now db. o.acceptance_settles link now db q)))
        (λ q e.
          subst (λ z. Lasts w z ((command_store b).finalize_proposal_rejection q w)) e
            (turn-Lasts _ q.outbox_id w
              (λ link now db. finalize_proposal_rejection-Settles link now db q)))
        (λ q e.
          subst (λ z. Lasts w z ((command_store b).finalize_stale_proposal_decision q w)) e
            (turn-Lasts _ q.outbox_id w
              (λ link now db. finalize_stale_proposal_decision-Settles link now db q)))
        (λ q e.
          subst (λ z. Lasts w z ((command_store b).finalize_terminal q w)) e
            (turn-Lasts _ q.outbox_id w (λ link now db. finalize_terminal-Settles link now db q)))
        event r ack

  pub worker_laws : Laws (worker b) settled
  worker_laws = record {
    claim_keeps = λ owner n t w.
        turn-Keeps (λ link now db. claim_due b.valid_json link now (b.locked w.calls) db owner n t)
          w
          (λ link now db.
            claim_due-KeepsRows b.valid_json link now (b.locked w.calls) db owner n t);
    release_keeps = λ row owner status t w.
        turn-Keeps (λ link now db. release_for_retry link now db row owner status t) w
          (λ link now db. release_for_retry-KeepsRows link now db row owner status t);
    pause_keeps = λ row owner status w.
        turn-Keeps (λ link now db. pause_internal link now db row owner status) w
          (λ link now db. pause_internal-KeepsRows link now db row owner status);
    pending_keeps = λ n w.
        turn-Keeps (λ link now db. (pending_finalization_confirmations link db n, db)) w
          (λ link now db id h. h);
    exchange_keeps =
        λ q w. turn-Keeps (λ link now db. (b.planner w.calls q, db)) w (λ link now db id h. h);
    mirror_keeps = λ q w.
        turn-Keeps (λ link now db. finalize_canonical_mirror link now db q) w
          (λ link now db. (finalize_canonical_mirror-Settles link now db q).keeps);
    finalize_keeps = λ row event r ack w. (finalize-Lasts row event r ack w).keeps;
    confirm_keeps = λ q w.
        turn-Keeps (λ link now db. confirm_finalized_mutations link now db q) w
          (λ link now db. confirm_finalized_mutations-KeepsRows link now db q);
    mirror_settles = λ q w w' m.
        (turn-Lasts _ q.outbox_id w
            (λ link now db. finalize_canonical_mirror-Settles link now db q)).settles
          m w';
    finalize_settles = λ row event r ack w w' c. (finalize-Lasts row event r ack w).settles c w';
  }

  -- A pass of RunOnce over the stores, whatever the planner answers and whichever statements fail:
  -- rows are claimed only after the recovery of confirmations ended without an error; at its end at
  -- least as many of the claimed rows are accepted or terminally rejected in the tables as the number
  -- that it returns, and a row that was so before still is; if other sessions leave such rows so and
  -- an acceptance of a proposal that succeeds settles its row.
  pub run_once-worker-Reported :
      (w : World) → Reported (worker b) settled worker_laws w (run_once (worker b) w)
  run_once-worker-Reported w = run_once-Reported (worker b) settled worker_laws w
