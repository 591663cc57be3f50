-- ===== src/Proposal.antt =====
-- ProposalStore of backend/internal/persistence/proposals.go. A payload and a checksum are texts with
-- one character for each byte. A time.Time is a number of nanoseconds since Go's zero time, and
-- PostgreSQL keeps its microseconds. SHA-256 is a parameter.
pub mod Outcome
pub mod Pending
pub mod Replay
pub mod Stored
mod Tests
use Prim.Native.String.{compare}
use Prim.Native.Nat.{Ordering}
use live_route.Base.{
  ℕ, ◌+◌, ◌*◌, ◌/◌, ◌%◌, ◌^◌, ◌-◌, String, Bool, true, false, ◌&&◌, ◌||◌, not, Option, none, some,
  List, [], ◌∷◌, ◌++◌, ltb, leb, ◌==◌, if◌then◌else◌, same, length, codes,
}
use live_route.Base.Table.{find_where, select_where, update_where, count_where, any_where}
use live_route.Base.Result.{
  Result, ok, err, ◌>>=◌, ◌>>◌, guard, Link, reach, transact, commit_as, database, invalid_input,
  trip_not_found, proposal_stale, proposal_identity_conflict, proposal_payload_invalid,
  pending_proposal_not_found, begin, lock_trip, read_lease, read_proposals, write_proposals,
  insert_proposal,
}
use live_route.Uuid.{valid_canonical_uuid}
use live_route.Store.{Db, Trip, RuntimeLease, Proposal, ProposalState, is_pending_proposal}
use live_route.Lease.{for_trip, max_int64}

abbrev pub max_int32 : ℕ
max_int32 = 2 ^ 31 - 1

pub record ProposalSource : Type 0 where
  pub runtime_epoch : ℕ
  pub planner_state_version : ℕ
  pub trip_revision : ℕ
  pub accepted_mutation_sequence : ℕ
  pub base_current_plan_id : String

pub record RuntimeFreshness : Type 0 where
  pub holder_id : String
  pub runtime_epoch : ℕ
  pub planner_state_version : ℕ
  pub accepted_mutation_sequence : ℕ

pub record PersistProposalRequest : Type 0 where
  pub proposal_id : String
  pub trip_id : String
  pub source : ProposalSource
  pub current : RuntimeFreshness
  pub payload : String
  pub checksum : String
  pub created_at : ℕ

pub record PersistedProposal : Type 0 where
  pub proposal_id : String
  pub trip_id : String
  pub source : ProposalSource
  pub state : ProposalState
  pub payload_size_bytes : ℕ
  pub checksum : String
  pub created_at : ℕ
  pub duplicate : Bool
  pub publishable : Bool
  pub superseded_proposal_count : ℕ
  pub payload : String

abbrev pub byte_count : String → ℕ
byte_count payload = length (codes payload)

-- The three range checks of validatePersistProposal, and the checks of its payload and time.
pub valid_identifiers : PersistProposalRequest → Bool
valid_identifiers r =
    valid_canonical_uuid r.proposal_id
    && valid_canonical_uuid r.trip_id
    && valid_canonical_uuid (r.source).base_current_plan_id
    && valid_canonical_uuid (r.current).holder_id

versions_in_range : PersistProposalRequest → Bool
versions_in_range r =
    leb (r.source).runtime_epoch max_int64
    && leb (r.source).planner_state_version max_int64
    && leb (r.source).trip_revision max_int64
    && leb (r.source).accepted_mutation_sequence max_int64
    && leb (r.current).runtime_epoch max_int64
    && leb (r.current).planner_state_version max_int64
    && leb (r.current).accepted_mutation_sequence max_int64

versions_positive : PersistProposalRequest → Bool
versions_positive r = not (
    (r.source).runtime_epoch == 0
    || (r.source).trip_revision == 0
    || (r.source).accepted_mutation_sequence == 0
    || (r.current).runtime_epoch == 0
    || (r.current).accepted_mutation_sequence == 0)

unfoldable pub whole_milliseconds : ℕ → Bool
whole_milliseconds time = not (time == 0 || not (time % 1_000_000 == 0))

module _ (sha256 : String → String) where
  unfoldable pub validate_persist_proposal : PersistProposalRequest → Result (Unit {0})
  unfolding valid_identifiers versions_in_range versions_positive whole_milliseconds
  validate_persist_proposal r = do
    guard (valid_identifiers r) invalid_input
    guard (versions_in_range r) invalid_input
    guard (versions_positive r) invalid_input
    guard (not (byte_count r.payload == 0 || ltb max_int32 (byte_count r.payload)))
        proposal_payload_invalid
    guard (same (sha256 r.payload) r.checksum) proposal_payload_invalid
    guard (whole_milliseconds r.created_at) invalid_input

pub proposal_matches : Proposal → PersistProposalRequest → Bool
proposal_matches stored r =
    same stored.base_current_plan_id (r.source).base_current_plan_id
    && stored.source_runtime_epoch == (r.source).runtime_epoch
    && stored.source_planner_state_version == (r.source).planner_state_version
    && stored.source_trip_revision == (r.source).trip_revision
    && stored.source_accepted_mutation_sequence == (r.source).accepted_mutation_sequence
    && stored.payload_size_bytes == byte_count r.payload
    && byte_count stored.checksum_sha256 == 32
    && same stored.checksum_sha256 r.checksum
    && same stored.payload r.payload
    && stored.created_at * 1000 == r.created_at

pub source_is_current : PersistProposalRequest → Trip → RuntimeLease → ℕ → Bool
source_is_current r trip lease now =
    (r.source).runtime_epoch == (r.current).runtime_epoch
    && (r.source).planner_state_version == (r.current).planner_state_version
    && (r.source).accepted_mutation_sequence == (r.current).accepted_mutation_sequence
    && (r.source).trip_revision == trip.trip_revision
    && leb (r.source).accepted_mutation_sequence trip.finalized_mutation_sequence
    && same (r.source).base_current_plan_id trip.current_plan_id
    && same (r.current).holder_id lease.holder_id
    && (r.current).runtime_epoch == lease.runtime_epoch
    && ltb now lease.lease_expires_at

abbrev pub persisted_proposal :
    PersistProposalRequest → ProposalState → Bool → Bool → ℕ → PersistedProposal
persisted_proposal r state duplicate publishable superseded = record {
  proposal_id = r.proposal_id;
  trip_id = r.trip_id;
  source = r.source;
  state = state;
  payload_size_bytes = byte_count r.payload;
  checksum = r.checksum;
  created_at = r.created_at;
  duplicate = duplicate;
  publishable = publishable;
  superseded_proposal_count = superseded;
  payload = r.payload;
}

abbrev pub is_pending_for : String → Proposal → Bool
is_pending_for trip_id p = same p.trip_id trip_id && is_pending_proposal p.state

abbrev pub is_proposal : String → String → Proposal → Bool
is_proposal trip_id proposal_id p = same p.trip_id trip_id && same p.id proposal_id

abbrev pub supersede : ℕ → Proposal → Proposal
supersede now p = record p { state = ProposalState.superseded; decided_at = some now }

abbrev pub new_proposal : PersistProposalRequest → Proposal
new_proposal r = record {
  id = r.proposal_id;
  trip_id = r.trip_id;
  base_current_plan_id = (r.source).base_current_plan_id;
  source_runtime_epoch = (r.source).runtime_epoch;
  source_planner_state_version = (r.source).planner_state_version;
  source_trip_revision = (r.source).trip_revision;
  source_accepted_mutation_sequence = (r.source).accepted_mutation_sequence;
  payload = r.payload;
  payload_size_bytes = byte_count r.payload;
  checksum_sha256 = r.checksum;
  state = ProposalState.pending;
  decision_message_id = none;
  created_at = r.created_at / 1000;
  decided_at = none;
}

-- The UPDATE that supersedes the trip's pending proposal, and the INSERT.
pub write_proposal : PersistProposalRequest → ℕ → Db → Db
write_proposal r now db = record db {
  proposals =
      update_where (is_pending_for r.trip_id) (supersede now) db.proposals ++ new_proposal r ∷ [];
}

-- Persist, once the trip and its lease are read: the loop over the locked proposals returns at the
-- one that has the request's id.
pub persist_row :
    Link
    → ℕ
    → Db
    → PersistProposalRequest
    → Bool
    → Option Proposal
    → Result (PersistedProposal × Db)
persist_row link now db r current (some stored) = do
  guard (proposal_matches stored r) proposal_identity_conflict
  commit_as link
      (persisted_proposal r stored.state true (current && is_pending_proposal stored.state) 0) db
persist_row link now db r current none = do
  guard current proposal_stale
  reach link write_proposals
  reach link insert_proposal
  -- the primary key on id, which spans the trips
  guard (not (any_where (λ (p : Proposal). same p.id r.proposal_id) db.proposals))
      (database insert_proposal)
  commit_as link
      (persisted_proposal r ProposalState.pending false true
        (count_where (is_pending_for r.trip_id) db.proposals))
      (write_proposal r now db)

pub persist_lease :
    Link
    → ℕ
    → Db
    → PersistProposalRequest
    → Trip
    → Option RuntimeLease
    → Result (PersistedProposal × Db)
unfolding persist_row
persist_lease link now db r trip none = err proposal_stale
persist_lease link now db r trip (some lease) =
    persist_row link now db r (source_is_current r trip lease now)
      (find_where (is_proposal r.trip_id r.proposal_id) db.proposals)

pub persist_trip :
    Link → ℕ → Db → PersistProposalRequest → Option Trip → Result (PersistedProposal × Db)
unfolding persist_lease
persist_trip link now db r none = err trip_not_found
persist_trip link now db r (some trip) = do
  reach link read_proposals
  reach link read_lease
  persist_lease link now db r trip (find_where (for_trip r.trip_id) db.leases)

abbrev pub is_trip : String → Trip → Bool
is_trip trip_id trip = same trip.id trip_id

module _ (sha256 : String → String) where
  pub persist_tx : Link → ℕ → Db → PersistProposalRequest → Result (PersistedProposal × Db)
  unfolding persist_trip validate_persist_proposal
  persist_tx link now db r = do
    validate_persist_proposal sha256 r
    reach link begin
    reach link lock_trip
    persist_trip link now db r (find_where (is_trip r.trip_id) db.trips)

  pub persist : Link → ℕ → Db → PersistProposalRequest → Result PersistedProposal × Db
  unfolding persist_tx write_proposal proposal_matches source_is_current
  persist link now db r = transact db (persist_tx link now db r)

-- ORDER BY created_at DESC, id DESC
abbrev pub precedes : Proposal → Proposal → Bool
precedes p q =
    ltb q.created_at p.created_at
    || p.created_at == q.created_at && elim (compare p.id q.id) [ Ordering.lt ↦ false | _ ↦ true ]

abbrev first_of_two : Proposal → Option Proposal → Proposal
first_of_two p none = p
first_of_two p (some q) = if precedes p q then p else q

-- The first row in that order.
pub newest : List Proposal → Option Proposal
newest [] = none
newest (p ∷ ps) = some (first_of_two p (newest ps))

abbrev payload_of : Option Proposal → Result String
payload_of none = err pending_proposal_not_found
payload_of (some p) = ok p.payload

pub latest_pending_payload : Link → Db → String → Result String
unfolding newest
latest_pending_payload link db trip_id = do
  guard (valid_canonical_uuid trip_id) invalid_input
  reach link read_proposals
  payload_of (newest (select_where (is_pending_for trip_id) db.proposals))
