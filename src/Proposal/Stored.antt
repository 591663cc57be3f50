-- ===== src/Proposal/Stored.antt =====
-- The tables before and after a Persist that stores a proposal.
use mathlib.Core.Path.{subst}
use live_route.Base.{
  ℕ, ◌/◌, ◌≤◌, ◌<◌, String, ◌≡◌, refl, ap, inl, inr, Bool, true, false, ◌&&◌, none, some, List, [],
  ◌∷◌, ◌++◌, map, arith, same, same_iff, if◌then◌else◌,
}
use live_route.Base.Table.{find_where, update_where}
use live_route.Base.Result.{ok, Link}
use live_route.Store.{Db, Trip, RuntimeLease, Proposal, ProposalState, is_pending_proposal}
use live_route.Lease.{for_trip}
use live_route.Proposal.{
  PersistProposalRequest, PersistedProposal, source_is_current, is_proposal, is_trip, byte_count,
  is_pending_for, supersede, new_proposal, write_proposal, persist,
}
use live_route.Proposal.Outcome.{persist-Persisted}

module _ (now : ℕ) (r : PersistProposalRequest) where
  -- What the request says of its source is what the tables hold, and the lease is live.
  pub record IsCurrent (db : Db) (trip : Trip) (lease : RuntimeLease) : Type 0 where
    pub trip_found : find_where (is_trip r.trip_id) db.trips ≡ some trip
    pub lease_found : find_where (for_trip r.trip_id) db.leases ≡ some lease
    pub source_epoch : (r.source).runtime_epoch ≡ (r.current).runtime_epoch
    pub source_version : (r.source).planner_state_version ≡ (r.current).planner_state_version
    pub source_sequence :
        (r.source).accepted_mutation_sequence ≡ (r.current).accepted_mutation_sequence
    pub revision : (r.source).trip_revision ≡ trip.trip_revision
    pub finalized : (r.source).accepted_mutation_sequence ≤ trip.finalized_mutation_sequence
    pub plan : (r.source).base_current_plan_id ≡ trip.current_plan_id
    pub holder : (r.current).holder_id ≡ lease.holder_id
    pub epoch : (r.current).runtime_epoch ≡ lease.runtime_epoch
    pub live : now < lease.lease_expires_at

  -- The trip's pending proposals are superseded, and the request's is the last row.
  abbrev pub IsStored : Db → Db → Type 0
  IsStored db db' =
      db'.proposals
      ≡ map
          (λ (p : Proposal).
            if same p.trip_id r.trip_id && is_pending_proposal p.state
            then record p { state = ProposalState.superseded; decided_at = some now }
            else p)
          db.proposals
        ++ record {
          id = r.proposal_id;
          trip_id = r.trip_id;
          base_current_plan_id = (r.source).base_current_plan_id;
          source_runtime_epoch = (r.source).runtime_epoch;
          source_planner_state_version = (r.source).planner_state_version;
          source_trip_revision = (r.source).trip_revision;
          source_accepted_mutation_sequence = (r.source).accepted_mutation_sequence;
          payload = r.payload;
          payload_size_bytes = byte_count r.payload;
          checksum_sha256 = r.checksum;
          state = ProposalState.pending;
          decision_message_id = none;
          created_at = r.created_at / 1000;
          decided_at = none;
        }
          ∷ []

  source_is_current-IsCurrent :
      (db : Db) (trip : Trip) (lease : RuntimeLease)
      → find_where (is_trip r.trip_id) db.trips ≡ some trip
      → find_where (for_trip r.trip_id) db.leases ≡ some lease
      → source_is_current r trip lease now ≡ true
      → IsCurrent db trip lease
  unfolding source_is_current
  source_is_current-IsCurrent db trip lease et el h = record {
    trip_found = et;
    lease_found = el;
    source_epoch = ground (arith, h);
    source_version = ground (arith, h);
    source_sequence = ground (arith, h);
    revision = ground (arith, h);
    finalized = ground (arith, h);
    plan = same_iff _ _ (ground (arith, h));
    holder = same_iff _ _ (ground (arith, h));
    epoch = ground (arith, h);
    live = ground (arith, h);
  }

  update_where-map :
      (p : Proposal → Bool) (f : Proposal → Proposal) (xs : List Proposal)
      → update_where p f xs ≡ map (λ x. if p x then f x else x) xs
  unfolding update_where
  update_where-map p f [] = refl
  update_where-map p f (x ∷ xs) = ap (λ ys. (if p x then f x else x) ∷ ys) (update_where-map p f xs)

  written-IsStored : (db : Db) → IsStored db (write_proposal r now db)
  unfolding write_proposal
  written-IsStored db =
      ap (λ ps. ps ++ new_proposal r ∷ [])
        (update_where-map (is_pending_for r.trip_id) (supersede now) db.proposals)

-- A Persist that stores a proposal, one whose result is not a duplicate, found no proposal of its id
-- in the trip, and a source that is current: its epoch, its planner version and its mutation sequence
-- are those that the caller reads from the runtime, its revision and its plan are the trip's and its
-- mutation is finalized, and the caller holds the trip's lease at this epoch, which has not expired.
-- After it each pending proposal of the trip is superseded, every other one is as it was, and the last
-- row is the request's proposal, pending.
pub persist-Stored :
    (sha256 : String → String) (link : Link) (now : ℕ) (db db' : Db) (r : PersistProposalRequest)
    (res : PersistedProposal)
    → persist sha256 link now db r ≡ (ok res, db')
    → res.duplicate ≡ false
    → (trip : Trip) × (lease : RuntimeLease) × IsCurrent now r db trip lease
      × (find_where (is_proposal r.trip_id r.proposal_id) db.proposals ≡ none)
      × IsStored now r db db'
persist-Stored sha256 link now db db' r res h fresh =
    let (trip, lease, et, el, how) = persist-Persisted link now db db' r res sha256 h in
    elim how [
      | inl a ↦ absurd (ground (arith, a.result))
      | inr f ↦ (
        trip,
        lease,
        source_is_current-IsCurrent now r db trip lease et el f.current,
        f.absent,
        subst (λ (x : Db). IsStored now r db x) f.written (written-IsStored now r db),
      )
    ]
