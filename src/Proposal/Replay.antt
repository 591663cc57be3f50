-- ===== src/Proposal/Replay.antt =====
-- A Persist that is sent again.
use mathlib.Core.Path.{subst}
use live_route.Base.{
  ℕ, ◌*◌, ◌/◌, String, ◌≡◌, refl, inl, inr, Bool, true, false, ◌&&◌, none, some, arith, same_self,
  ◌==◌, length, codes,
}
use live_route.Base.Table.{find_where, update_where, All-update_where}
use live_route.Base.Table.Keyed.{find_where-append_found, find_where-none, find_where-none_of_All}
use live_route.Base.Result.{
  ok, Link, transact_ok, commit_as, Stage, begin, lock_trip, read_proposals, read_lease, commit,
}
use live_route.Store.{Db, Trip, RuntimeLease, Proposal, ProposalState, is_pending_proposal}
use live_route.Lease.{for_trip}
use live_route.Proposal.{
  PersistProposalRequest, PersistedProposal, is_pending_for, is_proposal, is_trip, supersede,
  new_proposal, proposal_matches, whole_milliseconds, source_is_current, persisted_proposal,
  write_proposal, persist_row, persist_lease, persist_trip, persist_tx, persist,
  validate_persist_proposal,
}
use live_route.Proposal.Outcome.{persist-Persisted, Persisted}

exact_micros : (time : ℕ) → whole_milliseconds time ≡ true → (time / 1000 * 1000 == time) ≡ true
unfolding whole_milliseconds
exact_micros time h = ground arith

module _ (sha256 : String → String) (link : Link) (now : ℕ) (db : Db)
    (r : PersistProposalRequest) where
  run_again :
      (trip : Trip) (lease : RuntimeLease) (stored : Proposal) (u : Unit {0})
      → ((stage : Stage) → link stage ≡ false)
      → validate_persist_proposal sha256 r ≡ ok u
      → find_where (is_trip r.trip_id) db.trips ≡ some trip
      → find_where (for_trip r.trip_id) db.leases ≡ some lease
      → find_where (is_proposal r.trip_id r.proposal_id) db.proposals ≡ some stored
      → proposal_matches stored r ≡ true
      → persist sha256 link now db r ≡ (
        ok (
            persisted_proposal r stored.state true
              (source_is_current r trip lease now && is_pending_proposal stored.state)
              0),
        db,
      )
  unfolding persist persist_tx persist_trip persist_lease persist_row commit_as
  run_again trip lease stored u up v t l p m =
      ground
        (arith, v, up begin, up lock_trip, t, up read_proposals, up read_lease, l, p, m, up commit)

  found_new :
      find_where (is_proposal r.trip_id r.proposal_id) db.proposals ≡ none
      → find_where (is_proposal r.trip_id r.proposal_id) (write_proposal r now db).proposals
        ≡ some (new_proposal r)
  unfolding write_proposal
  found_new absent =
      find_where-append_found (is_proposal r.trip_id r.proposal_id)
        (update_where (is_pending_for r.trip_id) (supersede now) db.proposals) (new_proposal r)
        (find_where-none_of_All _ _ (
          All-update_where _ (is_pending_for r.trip_id) (supersede now) db.proposals (λ x _ e. e)
            (find_where-none _ _ absent)))
        (ground (arith, same_self r.trip_id, same_self r.proposal_id))

  new_matches :
      (length (codes r.checksum) ≡ 32)
      → whole_milliseconds r.created_at ≡ true
      → proposal_matches (new_proposal r) r ≡ true
  unfolding proposal_matches
  new_matches size whole = ground (
    arith,
    size,
    exact_micros r.created_at whole,
    same_self r.checksum,
    same_self r.payload,
    same_self (r.source).base_current_plan_id,
  )

  valid_tx :
      (res : PersistedProposal) (db' : Db)
      → persist_tx sha256 link now db r ≡ ok (res, db')
      → (validate_persist_proposal sha256 r ≡ ok (tt {0}))
        × (whole_milliseconds r.created_at ≡ true)
  unfolding persist_tx validate_persist_proposal
  valid_tx res db' h = (ground arith, ground arith)

-- What a second Persist of the request gives, whatever became of the proposal.
abbrev pub IsDuplicate : (String → String) → Link → ℕ → Db → PersistProposalRequest → Type 0
IsDuplicate sha256 link now db r =
    (state : ProposalState) × (publishable : Bool) × (persist sha256 link now db r
      ≡ (ok (persisted_proposal r state true publishable 0), db))

module _ (sha256 : String → String) (link link' : Link) (now now' : ℕ) (db db' : Db)
    (r : PersistProposalRequest) (res : PersistedProposal) where
  write_proposal_trips : (write_proposal r now db).trips ≡ db.trips
  unfolding write_proposal
  write_proposal_trips = refl

  write_proposal_leases : (write_proposal r now db).leases ≡ db.leases
  unfolding write_proposal
  write_proposal_leases = refl

  -- A Persist that succeeded can be sent again, at any later reading of the clock: if the driver does
  -- not fail, it succeeds as a duplicate that supersedes nothing, and the tables stay as they are. (A
  -- checksum has 32 bytes by its Go type.)
  pub persist-IsDuplicate :
      length (codes r.checksum) ≡ 32
      → ((stage : Stage) → link' stage ≡ false)
      → persist sha256 link now db r ≡ (ok res, db')
      → IsDuplicate sha256 link' now' db' r
  unfolding persist
  persist-IsDuplicate size up h = by_outcome (persist-Persisted link now db db' r res sha256 h)
    where
      valid :
          (validate_persist_proposal sha256 r ≡ ok (tt {0}))
          × (whole_milliseconds r.created_at ≡ true)
      valid =
          valid_tx sha256 link now db r res db' (transact_ok db (persist_tx sha256 link now db r) h)

      by_outcome : Persisted link now db db' r res → IsDuplicate sha256 link' now' db' r
      by_outcome (trip, lease, t, l, inl repeated) = (
        (repeated.stored).state,
        _,
        subst
            (λ d. persist sha256 link' now' d r ≡ (
              ok (
                  persisted_proposal r (repeated.stored).state true
                    (source_is_current r trip lease now'
                      && is_pending_proposal (repeated.stored).state)
                    0),
              d,
            ))
            repeated.unchanged
            (run_again sha256 link' now' db r trip lease repeated.stored tt up valid.0 t l
              repeated.found repeated.matches),
      )
      by_outcome (trip, lease, t, l, inr fresh) = (
        ProposalState.pending,
        _,
        subst
            (λ d. persist sha256 link' now' d r ≡ (
              ok (
                  persisted_proposal r ProposalState.pending true
                    (source_is_current r trip lease now' && true) 0),
              d,
            ))
            fresh.written
            (run_again sha256 link' now' (write_proposal r now db) r trip lease (new_proposal r) tt
              up valid.0 (rw write_proposal_trips t) (rw write_proposal_leases l)
              (found_new sha256 link now db r fresh.absent)
              (new_matches sha256 link now db r size valid.1)),
      )
