-- ===== src/Mirror/Tests.antt =====
-- A mirror that is finalized, and one whose acknowledgement conflicts.
use live_route.Base.{◌≡◌, refl, false, some, [], ◌∷◌, string_discrete}
use live_route.Base.Table.{find_where, update_where}
use live_route.Base.Result.{ok, err, canonical_mirror_identity, canonical_mirror_paused, commit_as}
use live_route.Uuid.{valid_canonical_uuid, valid_scan}
use live_route.Store.{
  Db, Intent, IntentState, SyncState, DeliveryState, ApplicationOrder, CommandKind,
}
use live_route.Lease.{lock_trip_row}
use live_route.Fixture.{up, intent, row, first_row, second_row, db as db_of_commands}
use live_route.Mirror.{
  FinalizeCanonicalMirrorRequest, FinalizedCanonicalMirror, canonical_mirror_result, set_sync,
  unclaim, write_mirror, pause_canonical_mirror, canonical_mirror_identity_matches, is_synced,
  is_paused, both, mirror_pending, mirror_rows, mirror_outbox, mirror_intent, mirror_tx,
  finalize_canonical_mirror, validate_canonical_mirror_finalization,
}
use live_route.Mirror.Replay.{as_duplicate, finalize_canonical_mirror-again}
use live_route.Mirror.Paused.{replay, finalize_canonical_mirror-paused}

abbrev edited : Intent
edited = record intent {
  command_kind = CommandKind.trip_edited;
  application_order = ApplicationOrder.canonical_first;
  state = IntentState.applied;
  resulting_trip_revision = some 5;
  resulting_current_plan_id = some "0197f3a2-0000-7000-8000-00000000000b";
  runtime_sync_state = SyncState.pending;
}

abbrev db : Db
db = record db_of_commands { intents = edited ∷ [] }

abbrev request : FinalizeCanonicalMirrorRequest
request = record {
  trip_id = "0197f3a2-0000-7000-8000-00000000000a";
  intent_id = "0197f3a2-0000-7000-8000-000000000001";
  outbox_id = "0197f3a2-0000-7000-8000-000000000004";
  event_id = "0197f3a2-0000-7000-8000-000000000003";
  mutation_sequence = 3;
  expected_trip_revision = 4;
  resulting_trip_revision = 5;
  resulting_current_plan_id = "0197f3a2-0000-7000-8000-00000000000b";
}

abbrev mirrored : FinalizedCanonicalMirror
mirrored =
    canonical_mirror_result request "0197f3a2-0000-7000-8000-00000000000b" SyncState.synced
      DeliveryState.accepted false

abbrev mirrored_db : Db
mirrored_db = record db {
  intents = set_sync SyncState.synced edited ∷ [];
  outbox = first_row ∷ second_row ∷ unclaim DeliveryState.accepted "OK" 7_000 row ∷ [];
}

mirrors : finalize_canonical_mirror up 7_000 db request ≡ (ok mirrored, mirrored_db)
unfolding finalize_canonical_mirror mirror_tx mirror_intent mirror_outbox mirror_rows mirror_pending
    is_synced is_paused both write_mirror canonical_mirror_identity_matches lock_trip_row
    validate_canonical_mirror_finalization valid_canonical_uuid valid_scan find_where update_where
    commit_as string_discrete
mirrors = refl

finalize_canonical_mirror-again_example :
    finalize_canonical_mirror up 8_000 mirrored_db request
    ≡ (ok (as_duplicate mirrored), mirrored_db)
finalize_canonical_mirror-again_example =
    finalize_canonical_mirror-again up up 7_000 8_000 db mirrored_db request mirrored (λ _. refl)
      mirrors

abbrev conflicting : FinalizeCanonicalMirrorRequest
conflicting = record request { resulting_trip_revision = 6 }

abbrev paused_db : Db
paused_db = record db {
  intents = set_sync SyncState.paused_internal edited ∷ [];
  outbox = first_row ∷ second_row ∷ unclaim DeliveryState.paused_internal "INTERNAL" 7_000 row ∷ [];
}

refuses :
    finalize_canonical_mirror up 7_000 db conflicting ≡ (err canonical_mirror_identity, paused_db)
unfolding finalize_canonical_mirror mirror_tx mirror_intent mirror_outbox mirror_rows mirror_pending
    is_synced is_paused both pause_canonical_mirror canonical_mirror_identity_matches lock_trip_row
    validate_canonical_mirror_finalization valid_canonical_uuid valid_scan find_where update_where
    commit_as string_discrete
refuses = refl

finalize_canonical_mirror-paused_example :
    finalize_canonical_mirror up 8_000 (replay up ((7_500, conflicting) ∷ []) paused_db) request
    ≡ (err canonical_mirror_paused, paused_db)
unfolding validate_canonical_mirror_finalization valid_canonical_uuid valid_scan
finalize_canonical_mirror-paused_example =
    finalize_canonical_mirror-paused up up 7_000 db paused_db conflicting (λ _. refl) refuses
      ((7_500, conflicting) ∷ []) 8_000 request ((refl, (refl, refl, refl)), tt)
      (refl, (refl, refl, refl))
