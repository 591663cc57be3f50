-- ===== src/Confirm/Tests.antt =====
-- A confirmation of two finalized commands.
use live_route.Base.{◌≤◌, ◌≡◌, refl, some, [], ◌∷◌, All, string_discrete}
use live_route.Base.Table.{find_where, select_where, update_where}
use live_route.Base.Result.{ok, commit_as}
use live_route.Uuid.{valid_canonical_uuid, valid_scan}
use live_route.Store.{Db, Trip}
use live_route.Proposal.{is_trip}
use live_route.Fixture.{up, row, first_row, second_row, db}
use live_route.Confirm.{
  ConfirmFinalizedMutationsRequest, confirmed, confirm_row, scan_rows, write_confirmed,
  confirm_rows, confirm_trip, confirm_tx, confirm_finalized_mutations,
  validate_finalization_confirmation,
}
use live_route.Confirm.Covered.{Acknowledged, confirm-Acknowledged}

abbrev request : ConfirmFinalizedMutationsRequest
request = record {
  trip_id = "0197f3a2-0000-7000-8000-00000000000a";
  finalized_mutation_sequence = 2;
}

abbrev confirmed_db : Db
confirmed_db = record db { outbox = first_row ∷ confirm_row 7_000 second_row ∷ row ∷ [] }

confirms :
    confirm_finalized_mutations up 7_000 db request ≡ (ok (confirmed request 7_000 1), confirmed_db)
unfolding confirm_finalized_mutations confirm_tx confirm_trip confirm_rows scan_rows write_confirmed
    validate_finalization_confirmation valid_canonical_uuid valid_scan find_where select_where
    update_where commit_as string_discrete
confirms = refl

confirm-Acknowledged_example :
    ((trip : Trip) × (find_where (is_trip "0197f3a2-0000-7000-8000-00000000000a") db.trips
        ≡ some trip)
      × (2 ≤ trip.finalized_mutation_sequence))
    × All (Acknowledged "0197f3a2-0000-7000-8000-00000000000a" 2) confirmed_db.outbox
confirm-Acknowledged_example =
    confirm-Acknowledged up 7_000 db confirmed_db request (confirmed request 7_000 1) confirms
