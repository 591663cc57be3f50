-- ===== src/Convergence/Tests.antt =====
-- A bootstrap that covers a pending mirror.
use live_route.Base.{◌≡◌, refl, [], ◌∷◌, string_discrete}
use live_route.Base.Table.{find_where, update_where, count_where, any_where}
use live_route.Base.Result.{ok, err, commit_as, bootstrap_convergence_blocked}
use live_route.Uuid.{valid_canonical_uuid, valid_scan}
use live_route.Store.{Db, Intent, Outbox, IntentState, SyncState, ApplicationOrder, CommandKind}
use live_route.Fixture.{up, db, intent, row}
use live_route.Mirror.{set_sync}
use live_route.Convergence.{
  bootstrap_result, accept_row, bootstrap_rows, resolve_canonical_bootstrap,
}
use live_route.Convergence.Covered.{
  ResolveCanonicalBootstrapRequest, ResolvedCanonicalBootstrap, covered,
  validate_canonical_bootstrap_resolution,
}
use live_route.Convergence.Settled.{
  RowsAgree, AllConverged, resolve_canonical_bootstrap-AllConverged,
}

abbrev edit : Intent
edit = record intent {
  command_kind = CommandKind.trip_edited;
  application_order = ApplicationOrder.canonical_first;
  state = IntentState.applied;
  runtime_sync_state = SyncState.pending;
  mutation_sequence = 2;
}

abbrev edit_row : Outbox
edit_row = record row { mutation_sequence = 2 }

abbrev before : Db
before = record db { intents = edit ∷ []; outbox = edit_row ∷ [] }

abbrev after : Db
after = record db {
  intents = set_sync SyncState.synced edit ∷ [];
  outbox = accept_row 8_000 edit_row ∷ [];
}

abbrev request : ResolveCanonicalBootstrapRequest
request = record {
  trip_id = "0197f3a2-0000-7000-8000-00000000000a";
  trip_revision = 4;
  accepted_mutation_sequence = 2;
  finalized_mutation_sequence = 2;
  current_plan_id = "0197f3a2-0000-7000-8000-00000000000b";
}

abbrev result : ResolvedCanonicalBootstrap
result = bootstrap_result request 1 1 8_000

converged : resolve_canonical_bootstrap up 8_000 request before ≡ (ok result, after)
unfolding resolve_canonical_bootstrap validate_canonical_bootstrap_resolution covered bootstrap_rows
    valid_canonical_uuid valid_scan string_discrete find_where update_where count_where any_where
    commit_as
converged = refl

before-RowsAgree : RowsAgree request before
unfolding string_discrete
before-RowsAgree = ((λ j. refl, tt), tt)

resolve_canonical_bootstrap-AllConverged_example : AllConverged request after
resolve_canonical_bootstrap-AllConverged_example =
    resolve_canonical_bootstrap-AllConverged up 8_000 before after request result converged
      before-RowsAgree

-- A runtime-first command that is covered and still pending blocks it.
blocked :
    resolve_canonical_bootstrap up 8_000 request (record before {
      intents = record edit { application_order = ApplicationOrder.runtime_first } ∷ [];
    })
    ≡ (
      err bootstrap_convergence_blocked,
      record before {
        intents = record edit { application_order = ApplicationOrder.runtime_first } ∷ [];
      },
    )
unfolding resolve_canonical_bootstrap validate_canonical_bootstrap_resolution covered bootstrap_rows
    valid_canonical_uuid valid_scan string_discrete find_where any_where
blocked = refl
