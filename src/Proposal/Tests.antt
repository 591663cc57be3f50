-- ===== src/Proposal/Tests.antt =====
-- A proposal that is persisted, sent again, and read back.
use live_route.Base.{String, ◌≡◌, refl, true, false, none, [], ◌∷◌, string_discrete, arith}
use live_route.Base.Table.{find_where, update_where, count_where, any_where}
use live_route.Base.Result.{ok, Link, commit_as}
use live_route.Uuid.{valid_canonical_uuid, valid_scan}
use live_route.Store.{Db, Trip, RuntimeLease, Proposal, ProposalState}
use live_route.Proposal.{
  PersistProposalRequest, PersistedProposal, validate_persist_proposal, valid_identifiers,
  versions_in_range, versions_positive, whole_milliseconds, source_is_current, persisted_proposal,
  new_proposal, supersede, write_proposal, persist_row, persist_lease, persist_trip, persist_tx,
  persist, latest_pending_payload, is_proposal,
}
use live_route.Proposal.Stored.{IsCurrent, IsStored, persist-Stored}
use live_route.Proposal.Pending.{OnePending, persist-OnePending, latest_pending_payload-persist}
use live_route.Proposal.Replay.{IsDuplicate, persist-IsDuplicate}

abbrev up : Link
up _ = false

-- A stand-in for SHA-256 of the right size.
abbrev digest : String → String
digest _ = "0123456789abcdef0123456789abcdef"

abbrev trip : Trip
trip = record {
  id = "0197f3a2-0000-7000-8000-00000000000a";
  owner_user_id = "0197f3a2-0000-7000-8000-0000000000ff";
  trip_revision = 4;
  finalized_mutation_sequence = 2;
  next_mutation_sequence = 4;
  current_plan_id = "0197f3a2-0000-7000-8000-00000000000b";
  updated_at = 100;
}

abbrev lease : RuntimeLease
lease = record {
  trip_id = "0197f3a2-0000-7000-8000-00000000000a";
  holder_id = "0197f3a2-0000-7000-8000-00000000000c";
  runtime_epoch = 7;
  lease_expires_at = 9_000;
  renewed_at = 500;
}

abbrev request : PersistProposalRequest
request = record {
  proposal_id = "0197f3a2-0000-7000-8000-00000000000d";
  trip_id = "0197f3a2-0000-7000-8000-00000000000a";
  source = record {
    runtime_epoch = 7;
    planner_state_version = 3;
    trip_revision = 4;
    accepted_mutation_sequence = 2;
    base_current_plan_id = "0197f3a2-0000-7000-8000-00000000000b";
  };
  current = record {
    holder_id = "0197f3a2-0000-7000-8000-00000000000c";
    runtime_epoch = 7;
    planner_state_version = 3;
    accepted_mutation_sequence = 2;
  };
  payload = "payload";
  checksum = "0123456789abcdef0123456789abcdef";
  created_at = 5_000_000;
}

abbrev earlier : Proposal
earlier = record (new_proposal request) { id = "0197f3a2-0000-7000-8000-00000000000e" }

abbrev db : Db
db = record {
  trips = trip ∷ [];
  leases = lease ∷ [];
  proposals = earlier ∷ [];
  intents = [];
  outbox = [];
  activities = [];
  open_windows = [];
  travel_delays = [];
}

abbrev stored_db : Db
stored_db = record db { proposals = supersede 6_000 earlier ∷ new_proposal request ∷ [] }

abbrev stored : PersistedProposal
stored = persisted_proposal request ProposalState.pending false true 1

persists : persist digest up 6_000 db request ≡ (ok stored, stored_db)
unfolding persist persist_tx persist_trip persist_lease persist_row validate_persist_proposal
    valid_identifiers versions_in_range versions_positive whole_milliseconds valid_canonical_uuid
    valid_scan source_is_current find_where count_where any_where update_where write_proposal
    commit_as string_discrete
persists = refl

persist-Stored_example :
    (before : Trip) × (held : RuntimeLease) × IsCurrent 6_000 request db before held
    × (find_where (is_proposal request.trip_id request.proposal_id) db.proposals ≡ none)
    × IsStored 6_000 request db stored_db
persist-Stored_example = persist-Stored digest up 6_000 db stored_db request stored persists refl

one_earlier : OnePending db
unfolding count_where
one_earlier t = ground arith

persist-OnePending_example : OnePending (persist digest up 6_000 db request).1
persist-OnePending_example = persist-OnePending 6_000 db request digest up one_earlier

latest_pending_payload-persist_example :
    latest_pending_payload up stored_db "0197f3a2-0000-7000-8000-00000000000a" ≡ ok "payload"
latest_pending_payload-persist_example =
    latest_pending_payload-persist digest up up 6_000 db stored_db request stored persists refl refl

persist-IsDuplicate_example : IsDuplicate digest up 7_000 stored_db request
persist-IsDuplicate_example =
    persist-IsDuplicate digest up up 6_000 7_000 db stored_db request stored refl (λ _. refl)
      persists
