-- ===== src/Dispatch/Database.antt =====
-- The dispatcher of backend/internal/dispatch/dispatcher.go over the stores of
-- backend/internal/persistence, as backend/cmd/liveroute-backend/main.go puts them together.
-- FinalizeProposalAcceptance is a parameter.
use live_route.Base.{ℕ, ◌+◌, String, Bool, Option}
use live_route.Base.Result.{Result, Link}
use live_route.Store.{Db, Outbox}
use live_route.Lease.{current}
use live_route.Decision.Rows.{FinalizeProposalDecisionRequest}
use live_route.Decision.{finalize_proposal_rejection, finalize_stale_proposal_decision}
use live_route.Terminal.Rows.{FinalizedCommand}
use live_route.Terminal.{finalize_terminal}
use live_route.Accepted.{finalize_accepted_mutation}
use live_route.Mirror.{finalize_canonical_mirror}
use live_route.Confirm.{confirm_finalized_mutations}
use live_route.Delivery.{claim_due, release_for_retry, pause_internal, retry_delay}
use live_route.Delivery.Pending.{pending_finalization_confirmations}
use live_route.Wire.{ApplyTripEvent, PlannerStreamRequest, PlannerStreamResponse}
use live_route.Dispatch.Requests.{Config, Call, Dispatcher}
use live_route.Dispatch.Finalizer.{RuntimeCommandStore, finalize}

-- The tables, and how many calls were made.
pub record World : Type 0 where
  pub db : Db
  pub calls : ℕ

-- What the calls meet, by their number: the driver, clock_timestamp(), the rows that others have
-- locked and what others have committed, time.Now() in nanoseconds, and the answers of the planner.
pub record Backend : Type 0 where
  pub config : Config
  pub link : ℕ → Link
  pub clock : ℕ → ℕ
  pub locked : ℕ → Outbox → Bool
  pub others : ℕ → Db → Db
  pub now : ℕ → ℕ
  pub planner : ℕ → PlannerStreamRequest → Result PlannerStreamResponse
  pub rand_int : ℕ → ℕ → Option ℕ
  pub new_request_id : ℕ → Result String
  pub valid_json : String → Bool
  pub decode_stored_event : String → Option ApplyTripEvent
  pub stable_outcome : String → String → ℕ → Result String
  pub finalize_proposal_acceptance :
      Link → ℕ → Db → FinalizeProposalDecisionRequest → Result FinalizedCommand × Db

abbrev pub seen : {A : Type 0} → ℕ → Result A × Db → Result A × World
seen n (r, db) = (r, record { db = db; calls = n + 1 })

module _ (b : Backend) where
  -- A call of a store, after what others have committed.
  abbrev pub turn : {A : Type 0} → (Link → ℕ → Db → Result A × Db) → Call World A
  turn f w = seen w.calls (f (b.link w.calls) (b.clock w.calls) (b.others w.calls w.db))

  abbrev pub command_store : RuntimeCommandStore World
  command_store = record {
    finalize_accepted_mutation =
        λ q. turn (λ link now db. finalize_accepted_mutation link now db q);
    finalize_proposal_acceptance =
        λ q. turn (λ link now db. b.finalize_proposal_acceptance link now db q);
    finalize_proposal_rejection =
        λ q. turn (λ link now db. finalize_proposal_rejection link now db q);
    finalize_stale_proposal_decision =
        λ q. turn (λ link now db. finalize_stale_proposal_decision link now db q);
    finalize_terminal = λ q. turn (λ link now db. finalize_terminal link now db q);
  }

  abbrev pub worker : Dispatcher World
  worker = record {
    config = b.config;
    claim_due = λ owner n t w.
        turn (λ link now db. claim_due b.valid_json link now (b.locked w.calls) db owner n t) w;
    release_for_retry = λ row owner status t.
        turn (λ link now db. release_for_retry link now db row owner status t);
    pause_internal =
        λ row owner status. turn (λ link now db. pause_internal link now db row owner status);
    pending_finalization_confirmations =
        λ n. turn (λ link now db. (pending_finalization_confirmations link db n, db));
    current = λ trip holder w. current (b.link w.calls) (b.clock w.calls) w.db trip holder;
    exchange = λ q w. turn (λ link now db. (b.planner w.calls q, db)) w;
    finalize_canonical_mirror = λ q. turn (λ link now db. finalize_canonical_mirror link now db q);
    finalize = finalize b.stable_outcome command_store;
    confirm_finalized = λ q. turn (λ link now db. confirm_finalized_mutations link now db q);
    now = λ w. b.now w.calls;
    retry_delay = λ n w. retry_delay (b.rand_int w.calls) n;
    new_request_id = λ w. b.new_request_id w.calls;
    decode_stored_event = b.decode_stored_event;
  }
