-- ===== src/Base/Result.antt =====
-- Go's pair of a value and an error, with the errors that the modelled packages return.
use mathlib.Core.Path.{◌≡◌, refl, ap}
use mathlib.Core.Logic.{◌⊎◌, inl, inr}
use native.Mathlib.Omega.{arith}
use mathlib.Core.Bool.{Bool, true, false}

-- The statements of a transaction at which the database driver may fail.
pub data Stage : Type 0 where
  begin lock_trip read_lease write_lease read_proposals write_proposals insert_proposal : Stage
  read_intent write_intent read_outbox write_outbox write_trip read_clock compare_payload : Stage
  lock_unresolved lock_outbox allocate_sequence insert_intent insert_outbox : Stage
  apply_mutation find_activity delete_windows insert_window : Stage
  commit : Stage

pub data Error : Type 0 where
  -- a wrapped driver error, such as "begin lease acquisition: …"
  database : Stage → Error
  -- errors.New in a validation
  invalid_input : Error
  -- the exported error variables
  trip_not_found lease_held lease_lost epoch_exhausted claim_lost : Error
  proposal_stale proposal_identity_conflict proposal_payload_invalid : Error
  pending_proposal_not_found : Error
  command_not_found command_finalization_conflict command_finalization_out_of_order : Error
  proposal_finalization_required trip_revision_stale : Error
  canonical_mirror_identity canonical_mirror_paused canonical_mirror_conflict : Error
  finalization_confirmation_ahead finalization_confirmation_blocked : Error
  bootstrap_convergence_conflict bootstrap_convergence_blocked : Error
  storage_contract random_source : Error
  idempotency_key_reused durable_command_blocked mutation_sequence_exhausted : Error
  admission_invalid admission_closed connection_capacity : Error
  subscription_invalid subscription_capacity publication_invalid : Error
  activation_invalid deactivation_invalid : Error
  runtime_capacity runtime_closed runtime_inactive : Error
  telemetry_invalid telemetry_uncorrelated : Error
  mutation_target_not_found unsupported_mutation : Error
  confirmation_conflict acknowledgement_not_terminal decision_invalid unsupported_event : Error

pub data Result {ℓ} (A : Type ℓ) : Type ℓ where
  ok : A → Result A
  err : Error → Result A

infixl 5 ◌>>=◌ ◌>>◌
-- The rest of a method runs if the call before it gave no error.
abbrev pub ◌>>=◌ {ℓ κ} : {V : Type ℓ} {W : Type κ} → Result V → (V → Result W) → Result W
ok value >>= rest = rest value
err error >>= rest = err error

abbrev pub ◌>>◌ {ℓ} : {W : Type ℓ} → Result (Unit {0}) → Result W → Result W
step >> rest = step >>= λ _. rest

pub Result-cases {ℓ} :
    {A : Type ℓ} (r : Result A) → ((a : A) × (r ≡ ok a)) ⊎ ((e : Error) × (r ≡ err e))
Result-cases (ok a) = inl (a, refl)
Result-cases (err e) = inr (e, refl)

-- A chain that gives a value ran its first step.
pub >>=-eq-ok {ℓ κ} :
    {V : Type ℓ} {W : Type κ} (m : Result V) (f : V → Result W) {b : W}
    → (m >>= f) ≡ ok b
    → (a : V) × (m ≡ ok a) × (f a ≡ ok b)
>>=-eq-ok (ok a) f h = (a, refl, h)
>>=-eq-ok (err e) f h = cc

-- if !test { return err }
abbrev pub guard : Bool → Error → Result (Unit {0})
guard true e = ok tt
guard false e = err e

-- Which statements of a transaction fail in the driver.
abbrev pub Link : Type 0
Link = Stage → Bool

abbrev pub reach : Link → Stage → Result (Unit {0})
reach link stage = elim (link stage) [ true ↦ err (database stage) | false ↦ ok tt ]

-- A transaction: the deferred Rollback leaves the database as it was on every error.
abbrev pub transact {ℓ κ} : {S : Type ℓ} {A : Type κ} → S → Result (A × S) → Result A × S
transact s (ok (a, s')) = (ok a, s')
transact s (err e) = (err e, s)

-- A transaction that succeeds ran to its end.
pub transact_ok {ℓ κ} :
    {S : Type ℓ} {A : Type κ} (s : S) (r : Result (A × S)) {a : A} {s' : S}
    → transact s r ≡ (ok a, s')
    → r ≡ ok (a, s')
transact_ok s (ok (a, s')) h = ground arith
transact_ok s (err e) h = absurd (ground arith)

-- One that fails wrote nothing.
pub transact_err {ℓ κ} :
    {S : Type ℓ} {A : Type κ} (s : S) (r : Result (A × S)) {e : Error} {s' : S}
    → transact s r ≡ (err e, s')
    → s ≡ s'
transact_err s (ok (a, s')) h = absurd (ground arith)
transact_err s (err e) h = ground arith

module _ {ℓ κ} {A : Type ℓ} {S : Type κ} where
  value_or : A → Result (A × S) → A
  value_or d (ok (a, s)) = a
  value_or d (err e) = d

  state_or : S → Result (A × S) → S
  state_or d (ok (a, s)) = s
  state_or d (err e) = d

  after_commit : Bool → A → S → Result (A × S)
  after_commit true a s = err (database commit)
  after_commit false a s = ok (a, s)

  -- tx.Commit, and the value that the method returns after it.
  unfoldable pub commit_as : Link → A → S → Result (A × S)
  unfolding after_commit
  commit_as link a s = after_commit (link commit) a s

  ok_inj :
      {a b : A} {s t : S} → ◌≡◌ {A = Result (A × S)} (ok (a, s)) (ok (b, t)) → (a ≡ b) × (s ≡ t)
  unfolding value_or state_or
  ok_inj {a} {b} {s} {t} h = (ap (value_or a) h, ap (state_or s) h)

  after_commit_ok :
      (c : Bool) (a : A) (s : S) {b : A} {t : S}
      → after_commit c a s ≡ ok (b, t)
      → (a ≡ b) × (s ≡ t)
  unfolding after_commit
  after_commit_ok true a s h = absurd (cc)
  after_commit_ok false a s h = ok_inj h

  pub commit_as_ok :
      (link : Link) (a : A) (s : S) {b : A} {t : S}
      → commit_as link a s ≡ ok (b, t)
      → (a ≡ b) × (s ≡ t)
  unfolding commit_as
  commit_as_ok link a s h = after_commit_ok (link commit) a s h

  -- A transaction leaves the database as it was, or as the chain that ran to its end wrote it.
  pub transact_cases {μ} :
      (P : S → Type μ) (s : S) (r : Result (A × S))
      → P s
      → ((a : A) (s' : S) → r ≡ ok (a, s') → P s')
      → P (transact s r).1
  transact_cases P s (ok (a, s')) h k = k a s' refl
  transact_cases P s (err e) h k = h
