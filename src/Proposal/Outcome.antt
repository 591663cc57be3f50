-- ===== src/Proposal/Outcome.antt =====
-- What a Persist that succeeds found and wrote.
use live_route.Base.{
  ℕ, String, ◌≡◌, refl, ◌⊎◌, inl, inr, true, false, ◌&&◌, Option, none, some, arith,
}
use live_route.Base.Table.{find_where, count_where}
use live_route.Base.Result.{ok, Link, transact_ok, commit_as_ok}
use live_route.Store.{Db, Trip, RuntimeLease, Proposal, ProposalState, is_pending_proposal}
use live_route.Lease.{for_trip}
use live_route.Proposal.{
  PersistProposalRequest, PersistedProposal, proposal_matches, source_is_current,
  persisted_proposal, is_pending_for, is_proposal, is_trip, write_proposal, persist_row,
  persist_lease, persist_trip, persist_tx, persist,
}

module _ (link : Link) (now : ℕ) (db db' : Db) (r : PersistProposalRequest)
    (res : PersistedProposal) where
  -- The stored proposal is the request's own, and nothing is written.
  pub record Repeated (trip : Trip) (lease : RuntimeLease) : Type 0 where
    pub stored : Proposal
    pub found : find_where (is_proposal r.trip_id r.proposal_id) db.proposals ≡ some stored
    pub matches : proposal_matches stored r ≡ true
    pub result :
        persisted_proposal r stored.state true
          (source_is_current r trip lease now && is_pending_proposal stored.state)
          0
        ≡ res
    pub unchanged : db ≡ db'

  -- The source is current, and the proposal replaces the trip's pending one.
  pub record Fresh (trip : Trip) (lease : RuntimeLease) : Type 0 where
    pub current : source_is_current r trip lease now ≡ true
    pub absent : find_where (is_proposal r.trip_id r.proposal_id) db.proposals ≡ none
    pub result :
        persisted_proposal r ProposalState.pending false true
          (count_where (is_pending_for r.trip_id) db.proposals)
        ≡ res
    pub written : write_proposal r now db ≡ db'

  abbrev pub Persisted : Type 0
  Persisted =
      (trip : Trip) × (lease : RuntimeLease) × (find_where (is_trip r.trip_id) db.trips ≡ some trip)
      × (find_where (for_trip r.trip_id) db.leases ≡ some lease)
      × (Repeated trip lease ⊎ Fresh trip lease)

  row_ok :
      (trip : Trip) (lease : RuntimeLease) (row : Option Proposal)
      → find_where (is_proposal r.trip_id r.proposal_id) db.proposals ≡ row
      → persist_row link now db r (source_is_current r trip lease now) row ≡ ok (res, db')
      → Repeated trip lease ⊎ Fresh trip lease
  unfolding persist_row
  row_ok trip lease none e h =
      let (p, d) = commit_as_ok link _ _ {b = res} {t = db'} (ground arith) in
      inr (record { current = ground arith; absent = e; result = p; written = d })
  row_ok trip lease (some stored) e h =
      let (p, d) = commit_as_ok link _ _ {b = res} {t = db'} (ground arith) in
      inl (record { stored = stored; found = e; matches = ground arith; result = p; unchanged = d })

  lease_ok :
      (trip : Trip) (lease : Option RuntimeLease)
      → find_where (is_trip r.trip_id) db.trips ≡ some trip
      → find_where (for_trip r.trip_id) db.leases ≡ lease
      → persist_lease link now db r trip lease ≡ ok (res, db')
      → Persisted
  unfolding persist_lease
  lease_ok trip none et el h = absurd (cc)
  lease_ok trip (some lease) et el h = (trip, lease, et, el, row_ok trip lease _ refl h)

  trip_ok :
      (trip : Option Trip)
      → find_where (is_trip r.trip_id) db.trips ≡ trip
      → persist_trip link now db r trip ≡ ok (res, db')
      → Persisted
  unfolding persist_trip
  trip_ok none e h = absurd (cc)
  trip_ok (some trip) e h =
      lease_ok trip (find_where (for_trip r.trip_id) db.leases) e refl (ground arith)

  -- A Persist that succeeds found the trip and its lease. Either the trip already had a proposal of
  -- that id, which is the request's in every column, and nothing changes; or it had none, the request's
  -- source is the trip's current revision, plan and finalized mutation under a lease that is live, and
  -- the trip's pending proposals are superseded by the new one.
  pub persist-Persisted :
      (sha256 : String → String) → persist sha256 link now db r ≡ (ok res, db') → Persisted
  unfolding persist persist_tx
  persist-Persisted sha256 h =
      trip_ok _ refl (tx_ok sha256 (transact_ok db (persist_tx sha256 link now db r) h))
    where
      tx_ok :
          (sha256 : String → String)
          → persist_tx sha256 link now db r ≡ ok (res, db')
          → persist_trip link now db r (find_where (is_trip r.trip_id) db.trips) ≡ ok (res, db')
      tx_ok sha256 e = ground arith
