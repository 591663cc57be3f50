-- ===== src/Dispatch/Kept.antt =====
-- Each store method that the dispatcher calls keeps settled rows, and a finalization settles its row.
use live_route.Base.{ℕ, String, Bool, true, false, some, ◌==◌, ◌≡◌, refl, sym, ap, inl, inr, arith}
use mathlib.Core.Path.{subst, ◌∙◌}
use live_route.Base.Table.{find_where, update_where, any_where, find_where-holds}
use live_route.Base.Result.{Result, ok, err, Link, transact}
use live_route.Store.{Db, Outbox, DeliveryState}
use live_route.Lease.{max_int64}
use live_route.Confirm.{is_settled}
use live_route.Terminal.Rows.{
  FinalizeTerminalCommandRequest, FinalizedCommand, same_delivery_state, is_outbox_of,
  has_outbox_id, resolve_outbox,
}
use live_route.Terminal.{finalize_terminal, finalize_terminal_tx, write_terminal, outcome_is_stored}
use live_route.Terminal.Outcome.{finalize_terminal-Finalized}
use live_route.Decision.Rows.{FinalizeProposalDecisionRequest, outbox_state_of, status_of}
use live_route.Decision.{
  finalize_proposal_decision, decision_tx, write_decision, outcome_matches,
  finalize_proposal_rejection, finalize_stale_proposal_decision, unless_exhausted,
}
use live_route.Decision.Outcome.{finalize_proposal_decision-Decided}
use live_route.Accepted.Mutation.{FinalizeAcceptedMutationRequest}
use live_route.Accepted.{
  finalize_accepted_mutation, finalize_accepted_tx, write_accepted, accepted_is_stored,
}
use live_route.Accepted.Outcome.{finalize_accepted_mutation-Applied}
use live_route.Accepted.Effects.{apply-Keeps}
use live_route.Dispatch.Stores.{
  is_settled_row, is_settled_in, KeepsRows, update-KeepsRows, found_settled, any_where_of_update,
}

-- Settled rows stay, and on success the row is settled.
pub record Settles {A : Type 0} (db : Db) (id : String) (p : Result A × Db) : Type 0 where
  pub keeps : KeepsRows db p.1
  pub settles : (a : A) (db' : Db) → p ≡ (ok a, db') → is_settled_in db' id ≡ true

abbrev pub Ends : Db → String → Db → Type 0
Ends db id db' = KeepsRows db db' × (is_settled_in db' id ≡ true)

pub transact-Settles :
    {A : Type 0} (db : Db) (id : String) (r : Result (A × Db))
    → ((a : A) (db' : Db) → transact db r ≡ (ok a, db') → Ends db id db')
    → Settles db id (transact db r)
transact-Settles db id (ok (a, db')) k = record {
  keeps = (k a db' refl).0;
  settles = λ b d e. (k b d e).1;
}
transact-Settles db id (err e) k = record { keeps = λ x h. h; settles = λ b d f. absurd (cc) }

-- The outbox of a first finalization.
resolved-Ends :
    (db db' : Db) (outbox_id intent_id trip_id status : String) (now : ℕ) (o : Outbox)
    (state : DeliveryState)
    → find_where (is_outbox_of outbox_id intent_id trip_id) db.outbox ≡ some o
    → update_where (has_outbox_id outbox_id) (resolve_outbox state status now) db.outbox
      ≡ db'.outbox
    → is_settled state ≡ true
    → Ends db outbox_id db'
unfolding is_settled_in
resolved-Ends db db' outbox_id intent_id trip_id status now o state f e s = (
  update-KeepsRows db db' (has_outbox_id outbox_id) (resolve_outbox state status now) e (λ x. refl)
      (λ x p g. s),
  subst (λ z. any_where (is_settled_row outbox_id) z ≡ true) e
      (any_where_of_update (is_settled_row outbox_id) (is_outbox_of outbox_id intent_id trip_id)
        (has_outbox_id outbox_id) (resolve_outbox state status now) db.outbox o f
        (ground
          (arith, find_where-holds (is_outbox_of outbox_id intent_id trip_id) db.outbox {a = o} f))
        (ground (
          arith,
          s,
          find_where-holds (is_outbox_of outbox_id intent_id trip_id) db.outbox {a = o} f,
        ))),
)

-- A finalization that was stored before.
stored-Ends :
    (db db' : Db) (outbox_id intent_id trip_id : String) (o : Outbox) (state : DeliveryState)
    → find_where (is_outbox_of outbox_id intent_id trip_id) db.outbox ≡ some o
    → same_delivery_state o.delivery_state state ≡ true
    → is_settled state ≡ true
    → db ≡ db'
    → Ends db outbox_id db'
stored-Ends db db' outbox_id intent_id trip_id o state f g s e =
    subst (Ends db outbox_id) e
      ((λ id h. h), found_settled db outbox_id intent_id trip_id o state f g s)

terminal-Ends :
    (link : Link) (now : ℕ) (db db' : Db) (r : FinalizeTerminalCommandRequest)
    (res : FinalizedCommand)
    → finalize_terminal link now db r ≡ (ok res, db')
    → Ends db r.outbox_id db'
unfolding write_terminal outcome_is_stored
terminal-Ends link now db db' r res h =
    let f = finalize_terminal-Finalized link now db db' r res h in
    elim f.how [
      | inl a ↦
          stored-Ends db db' r.outbox_id r.intent_id r.trip_id f.outbox
            DeliveryState.terminal_rejected f.outbox_found (ground (arith, a.stored)) refl
            a.unchanged
      | inr a ↦
          resolved-Ends db db' r.outbox_id r.intent_id r.trip_id r.status now f.outbox
            DeliveryState.terminal_rejected f.outbox_found (ap (λ (d : Db). d.outbox) a.written)
            refl
    ]

pub finalize_terminal-Settles :
    (link : Link) (now : ℕ) (db : Db) (r : FinalizeTerminalCommandRequest)
    → Settles db r.outbox_id (finalize_terminal link now db r)
unfolding finalize_terminal
finalize_terminal-Settles link now db r =
    transact-Settles db r.outbox_id (finalize_terminal_tx link now db r)
      (λ a db' h. terminal-Ends link now db db' r a h)

decided_settled : (stale : Bool) → is_settled (outbox_state_of stale) ≡ true
decided_settled true = refl
decided_settled false = refl

decision-Ends :
    (link : Link) (now : ℕ) (db db' : Db) (r : FinalizeProposalDecisionRequest) (stale : Bool)
    (res : FinalizedCommand)
    → finalize_proposal_decision link now db r stale ≡ (ok res, db')
    → Ends db r.outbox_id db'
unfolding write_decision outcome_matches
decision-Ends link now db db' r stale res h =
    let f = finalize_proposal_decision-Decided link now db db' r stale res h in
    elim f.how [
      | inl a ↦
          stored-Ends db db' r.outbox_id r.intent_id r.trip_id f.outbox (outbox_state_of stale)
            f.outbox_found (ground (arith, a.stored)) (decided_settled stale) a.unchanged
      | inr a ↦
          resolved-Ends db db' r.outbox_id r.intent_id r.trip_id (status_of stale) now f.outbox
            (outbox_state_of stale) f.outbox_found (ap (λ (d : Db). d.outbox) a.written)
            (decided_settled stale)
    ]

decision-Settles :
    (link : Link) (now : ℕ) (db : Db) (r : FinalizeProposalDecisionRequest) (stale : Bool)
    → Settles db r.outbox_id (finalize_proposal_decision link now db r stale)
unfolding finalize_proposal_decision
decision-Settles link now db r stale =
    transact-Settles db r.outbox_id (decision_tx link now db r stale)
      (λ a db' h. decision-Ends link now db db' r stale a h)

pub finalize_stale_proposal_decision-Settles :
    (link : Link) (now : ℕ) (db : Db) (r : FinalizeProposalDecisionRequest)
    → Settles db r.outbox_id (finalize_stale_proposal_decision link now db r)
unfolding finalize_stale_proposal_decision
finalize_stale_proposal_decision-Settles link now db r = decision-Settles link now db r true

unless_exhausted-Settles :
    (b : Bool) (db : Db) (id : String) (p : Result FinalizedCommand × Db)
    → Settles db id p
    → Settles db id (unless_exhausted b db p)
unless_exhausted-Settles true db id p k = record {
  keeps = λ x h. h;
  settles = λ b d f. absurd (cc);
}
unless_exhausted-Settles false db id p k = k

pub finalize_proposal_rejection-Settles :
    (link : Link) (now : ℕ) (db : Db) (r : FinalizeProposalDecisionRequest)
    → Settles db r.outbox_id (finalize_proposal_rejection link now db r)
unfolding finalize_proposal_rejection
finalize_proposal_rejection-Settles link now db r =
    unless_exhausted-Settles (r.expected_trip_revision == max_int64) db r.outbox_id
      (finalize_proposal_decision link now db r false) (decision-Settles link now db r false)

-- The mutation leaves the outbox alone.
applied-Ends :
    (link : Link) (now : ℕ) (db db' : Db) (r : FinalizeAcceptedMutationRequest)
    (res : FinalizedCommand)
    → finalize_accepted_mutation link now db r ≡ (ok res, db')
    → Ends db r.outbox_id db'
unfolding write_accepted accepted_is_stored
applied-Ends link now db db' r res h =
    let f = finalize_accepted_mutation-Applied link now db db' r res h in
    elim f.how [
      | inl a ↦
          stored-Ends db db' r.outbox_id r.intent_id r.trip_id f.outbox DeliveryState.accepted
            f.outbox_found (ground (arith, a.stored)) refl a.unchanged
      | inr a ↦
          resolved-Ends db db' r.outbox_id r.intent_id r.trip_id "OK" now f.outbox
            DeliveryState.accepted f.outbox_found
            (ap
                (update_where (has_outbox_id r.outbox_id)
                  (resolve_outbox DeliveryState.accepted "OK" now))
                (sym (apply-Keeps link r.trip_id r.mutation db a.changed f.kind a.applied).outbox)
              ∙ ap (λ (d : Db). d.outbox) a.written)
            refl
    ]

pub finalize_accepted_mutation-Settles :
    (link : Link) (now : ℕ) (db : Db) (r : FinalizeAcceptedMutationRequest)
    → Settles db r.outbox_id (finalize_accepted_mutation link now db r)
unfolding finalize_accepted_mutation
finalize_accepted_mutation-Settles link now db r =
    transact-Settles db r.outbox_id (finalize_accepted_tx link now db r)
      (λ a db' h. applied-Ends link now db db' r a h)
