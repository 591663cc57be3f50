-- ===== src/Convergence/Settled.antt =====
-- What a ResolveCanonicalBootstrap that succeeds leaves, and what its repetition does.
use mathlib.Core.Path.{subst}
use live_route.Base.{
  ℕ, ◌≡◌, ◌≢◌, ◌≤◌, refl, sym, ap, ◌∙◌, inl, inr, ◌⊎◌, Bool, true, false, ◌&&◌, ◌||◌, Option, none,
  some, List, [], ◌∷◌, arith, same, same_self, Bool-cases, All, All-map, ◌==◌, ltb, All-both,
}
use live_route.Base.Table.{find_where, any_where, count_where}
use live_route.Base.Table.Keyed.{any_where-none}
use live_route.Base.Result.{Result, ok, err, Link, transact_ok, commit_as_ok}
use live_route.Store.{Db, Trip, Intent, Outbox, DeliveryState, SyncState, ApplicationOrder}
use live_route.Proposal.{is_trip}
use live_route.Convergence.{
  bootstrap_result, resolve_each, bootstrap_rows, bootstrap_trip, bootstrap_tx,
  resolve_canonical_bootstrap, database_time,
}
use live_route.Convergence.Covered.{
  ResolveCanonicalBootstrapRequest, ResolvedCanonicalBootstrap, CoveredMirror, joins, mirror_of,
  place, join_intents, covered, blocks, open_delivery, needs_resolution, needs_confirmation,
  validate_canonical_bootstrap_resolution,
}
use live_route.Convergence.Rows.{
  is_done, AnyOf-map, Handles, AnyOf, Waits, AllWait, resolve_each-AllWait,
}

module _ (P : CoveredMirror → Type 0) where
  AnyOf-place : (m : CoveredMirror) (ms : List CoveredMirror) → P m → AnyOf P (place m ms)
  unfolding place
  AnyOf-place m [] h = inl h
  AnyOf-place m (n ∷ ns) h = elim (Bool-cases (ltb n.mutation_sequence m.mutation_sequence)) [
    | inl e ↦ rw e (inr (AnyOf-place m ns h))
    | inr e ↦ rw e (inl h)
  ]

  AnyOf-place_old :
      (m : CoveredMirror) (ms : List CoveredMirror) → AnyOf P ms → AnyOf P (place m ms)
  unfolding place
  AnyOf-place_old m [] h = absurd h
  AnyOf-place_old m (n ∷ ns) h = elim (Bool-cases (ltb n.mutation_sequence m.mutation_sequence)) [
    | inr e ↦ rw e (inr h)
    | inl e ↦ rw e (elim h [ inl a ↦ inl a | inr a ↦ inr (AnyOf-place_old m ns a) ])
  ]

  All-place : (m : CoveredMirror) (ms : List CoveredMirror) → P m → All P ms → All P (place m ms)
  unfolding place
  All-place m [] h a = (h, tt)
  All-place m (n ∷ ns) h a = elim (Bool-cases (ltb n.mutation_sequence m.mutation_sequence)) [
    | inl e ↦ rw e (a.0, All-place m ns h a.1)
    | inr e ↦ rw e (h, a)
  ]

  All-AnyOf :
      (Q : CoveredMirror → Type 0) (ms : List CoveredMirror)
      → All Q ms
      → AnyOf P ms
      → (m : CoveredMirror) × Q m × P m
  All-AnyOf Q [] a h = absurd h
  All-AnyOf Q (m ∷ ms) a (inl h) = (m, a.0, h)
  All-AnyOf Q (m ∷ ms) a (inr h) = All-AnyOf Q ms a.1 h

module _ (r : ResolveCanonicalBootstrapRequest) where
  AnyOf-join_intents :
      (P : CoveredMirror → Type 0) (o : Outbox) (is : List Intent) (ms : List CoveredMirror)
      → AnyOf P ms
      → AnyOf P (join_intents r o is ms)
  unfolding join_intents
  AnyOf-join_intents P o [] ms h = h
  AnyOf-join_intents P o (i ∷ is) ms h = elim (Bool-cases (joins r o i)) [
    | inl e ↦ rw e (AnyOf-place_old P (mirror_of o i) _ (AnyOf-join_intents P o is ms h))
    | inr e ↦ rw e (AnyOf-join_intents P o is ms h)
  ]

  -- The pair is in the list.
  abbrev Listed : List CoveredMirror → Outbox → Intent → Type 0
  Listed ms o i = joins r o i ≡ true → AnyOf (λ m. m ≡ mirror_of o i) ms

  join_intents-Listed :
      (o : Outbox) (is : List Intent) (ms : List CoveredMirror)
      → All (Listed (join_intents r o is ms) o) is
  unfolding join_intents
  join_intents-Listed o [] ms = tt
  join_intents-Listed o (i ∷ is) ms = elim (Bool-cases (joins r o i)) [
    | inl e ↦
        let l : join_intents r o (i ∷ is) ms ≡ place (mirror_of o i) (join_intents r o is ms) =
          rw e refl in
        subst (λ k. All (Listed k o) (i ∷ is)) (sym l)
          (
            (λ j. AnyOf-place _ (mirror_of o i) (join_intents r o is ms) refl),
            All-map _ _ is
                (λ x h j. AnyOf-place_old _ (mirror_of o i) (join_intents r o is ms) (h j))
                (join_intents-Listed o is ms),
          )
    | inr e ↦
        let l : join_intents r o (i ∷ is) ms ≡ join_intents r o is ms = rw e refl in
        subst (λ k. All (Listed k o) (i ∷ is)) (sym l)
          ((λ j. absurd (ground (arith, e, j))), join_intents-Listed o is ms)
  ]

  covered-Listed :
      (os : List Outbox) (is : List Intent) → All (λ o. All (Listed (covered r os is) o) is) os
  unfolding covered
  covered-Listed [] is = tt
  covered-Listed (o ∷ os) is = (
    join_intents-Listed o is (covered r os is),
    All-map _ _ os
        (λ p h. All-map _ _ is (λ i g j. AnyOf-join_intents _ o is (covered r os is) (g j)) h)
        (covered-Listed os is),
  )

  All-join_intents :
      (P : CoveredMirror → Type 0) (o : Outbox) (is : List Intent) (ms : List CoveredMirror)
      → All (λ i. joins r o i ≡ true → P (mirror_of o i)) is
      → All P ms
      → All P (join_intents r o is ms)
  unfolding join_intents
  All-join_intents P o [] ms h a = a
  All-join_intents P o (i ∷ is) ms h a = elim (Bool-cases (joins r o i)) [
    | inl e ↦ rw e (All-place P (mirror_of o i) _ (h.0 e) (All-join_intents P o is ms h.1 a))
    | inr e ↦ rw e (All-join_intents P o is ms h.1 a)
  ]

  All-covered :
      (P : CoveredMirror → Type 0) (os : List Outbox) (is : List Intent)
      → All (λ o. All (λ i. joins r o i ≡ true → P (mirror_of o i)) is) os
      → All P (covered r os is)
  unfolding covered
  All-covered P [] is h = tt
  All-covered P (o ∷ os) is h =
      All-join_intents P o is (covered r os is) h.0 (All-covered P os is h.1)

  -- A row of the outbox has the trip of its intent.
  abbrev pub RowsAgree : Db → Type 0
  RowsAgree db =
      All (λ o. All (λ i. joins r o i ≡ true → same o.trip_id r.trip_id ≡ true) db.intents)
        db.outbox

  mirror_of-Handles : (o : Outbox) (i : Intent) → Handles o i (mirror_of o i)
  mirror_of-Handles o i = record {
    of_intent = same_self i.id;
    of_row = same_self o.id;
    order = refl;
    sync = λ e. e;
    delivery = λ e. e;
    confirmed = λ e. e;
  }

  Listed-Waits :
      (ms : List CoveredMirror) (o : Outbox) (i : Intent)
      → All (λ m. blocks m ≡ false) ms
      → (joins r o i ≡ true → same o.trip_id r.trip_id ≡ true)
      → Listed ms o i
      → Waits r ms o i
  Listed-Waits ms o i free agree listed j =
      let (m, b, e) =
        All-AnyOf (λ m. m ≡ mirror_of o i) (λ m. blocks m ≡ false) ms free (listed j) in
      (
        agree j,
        ap blocks (sym e) ∙ b,
        inr (
            AnyOf-map _ _ ms (λ n f. subst (Handles o i) (sym f) (mirror_of-Handles o i))
              (listed j)),
      )

  covered-AllWait :
      (db : Db)
      → RowsAgree db
      → any_where blocks (covered r db.outbox db.intents) ≡ false
      → AllWait r (covered r db.outbox db.intents) db.outbox db.intents
  covered-AllWait db agree free =
      let ms = covered r db.outbox db.intents in
      All-map _ _ db.outbox
        (λ o h.
          All-map _ _ db.intents
            (λ i g. Listed-Waits ms o i (any_where-none blocks ms free) g.0 g.1)
            (All-both _ _ db.intents h.0 h.1))
        (All-both _ _ db.outbox agree (covered-Listed db.outbox db.intents))

  AllWait-is_done :
      (db : Db)
      → AllWait r [] db.outbox db.intents
      → All (λ m. is_done m ≡ true) (covered r db.outbox db.intents)
  AllWait-is_done db w =
      All-covered (λ m. is_done m ≡ true) db.outbox db.intents
        (All-map _ _ db.outbox (λ o h. All-map _ _ db.intents (λ i g j. last_one _ (g j).2) h) w)
    where
      last_one : (b : Bool) → (b ≡ true) ⊎ ⊥ → b ≡ true
      last_one b (inl e) = e
      last_one b (inr h) = absurd h

-- A row of the outbox that the bootstrap covers, and its command: the row is accepted or terminally
-- rejected and confirmed; the runtime's copy of the command is not pending, and not paused either when
-- the command is canonical-first.
pub record Converged (o : Outbox) (i : Intent) : Type 0 where
  pub delivered :
      (o.delivery_state ≡ DeliveryState.accepted)
      ⊎ (o.delivery_state ≡ DeliveryState.terminal_rejected)
  pub confirmed : o.finalization_confirmed_at ≢ none
  pub not_pending : i.runtime_sync_state ≢ SyncState.pending
  pub not_paused :
      i.application_order ≡ ApplicationOrder.canonical_first
      → i.runtime_sync_state ≢ SyncState.paused_internal

-- Every covered row with its command: the row refers to the command, the command is of the trip and
-- the sequence is finalized.
abbrev pub AllConverged : ResolveCanonicalBootstrapRequest → Db → Type 0
AllConverged r db =
    All
      (λ (o : Outbox).
        All
          (λ (i : Intent).
            o.command_intent_id ≡ i.id
            → i.trip_id ≡ r.trip_id
            → o.mutation_sequence ≤ r.finalized_mutation_sequence
            → Converged o i)
          db.intents)
      db.outbox

closed_delivery :
    (d : DeliveryState)
    → open_delivery d ≡ false
    → (d ≡ DeliveryState.accepted) ⊎ (d ≡ DeliveryState.terminal_rejected)
closed_delivery DeliveryState.pending h = absurd (cc)
closed_delivery DeliveryState.paused_internal h = absurd (cc)
closed_delivery DeliveryState.accepted h = inl refl
closed_delivery DeliveryState.terminal_rejected h = inr refl

done-Converged : (o : Outbox) (i : Intent) → is_done (mirror_of o i) ≡ true → Converged o i
unfolding blocks needs_resolution needs_confirmation
done-Converged o i h = record {
  delivered = closed_delivery o.delivery_state (ground (arith, h));
  confirmed = λ e. ground (arith, h, e);
  not_pending = λ e. ground (arith, h, e);
  not_paused = λ c e. ground (arith, h, c, e);
}

joined :
    (r : ResolveCanonicalBootstrapRequest) (o : Outbox) (i : Intent)
    → o.command_intent_id ≡ i.id
    → i.trip_id ≡ r.trip_id
    → o.mutation_sequence ≤ r.finalized_mutation_sequence
    → joins r o i ≡ true
unfolding joins
joined r o i a b c = rw (a, b) (ground (arith, same_self i.id, same_self r.trip_id, c))

AllWait-AllConverged :
    (r : ResolveCanonicalBootstrapRequest) (db : Db)
    → AllWait r [] db.outbox db.intents
    → AllConverged r db
AllWait-AllConverged r db w =
    All-map _ _ db.outbox
      (λ o h.
        All-map _ _ db.intents
          (λ i g a b c. done-Converged o i (last_one _ (g (joined r o i a b c)).2)) h)
      w
  where
    last_one : (b : Bool) → (b ≡ true) ⊎ ⊥ → b ≡ true
    last_one b (inl e) = e
    last_one b (inr h) = absurd h

-- What a successful run did.
module _ (link : Link) (now : ℕ) (db db' : Db) (r : ResolveCanonicalBootstrapRequest)
    (res : ResolvedCanonicalBootstrap) where
  abbrev mirrors : List CoveredMirror
  mirrors = covered r db.outbox db.intents

  abbrev time : ℕ
  time =
      database_time
        (ltb 0 (count_where needs_resolution mirrors)
          || ltb 0 (count_where needs_confirmation mirrors))
        now mirrors

  pub record Ran : Type 0 where
    pub trip : Trip
    pub trip_found : find_where (is_trip r.trip_id) db.trips ≡ some trip
    pub valid : validate_canonical_bootstrap_resolution r ≡ ok (tt {0})
    pub canonical :
        (trip.trip_revision == r.trip_revision
          && trip.finalized_mutation_sequence == r.finalized_mutation_sequence
          && r.accepted_mutation_sequence == r.finalized_mutation_sequence
          && same trip.current_plan_id r.current_plan_id)
        ≡ true
    pub free : any_where blocks mirrors ≡ false
    pub resolved : resolve_each link r.trip_id time mirrors db ≡ ok db'

  rows_rest :
      (x : Result Db)
      → resolve_each link r.trip_id time mirrors db ≡ x
      → bootstrap_rows link now r db mirrors ≡ ok (res, db')
      → (any_where blocks mirrors ≡ false) × (resolve_each link r.trip_id time mirrors db ≡ ok db')
  unfolding bootstrap_rows
  rows_rest (err e) ex h = absurd (ground (arith, h, ex))
  rows_rest (ok d) ex h =
      let (x, w) =
        commit_as_ok link
          (bootstrap_result r (count_where needs_resolution mirrors)
            (count_where needs_confirmation mirrors) time)
          d {b = res} {t = db'} (ground (arith, h, ex)) in
      (ground (arith, h), ex ∙ ap ok w)

  trip_rest :
      (t : Option Trip)
      → find_where (is_trip r.trip_id) db.trips ≡ t
      → validate_canonical_bootstrap_resolution r ≡ ok (tt {0})
      → bootstrap_trip link now r db t ≡ ok (res, db')
      → Ran
  unfolding bootstrap_trip
  trip_rest none et v h = absurd (cc)
  trip_rest (some t) et v h =
      let (f, e) = rows_rest _ refl (ground (arith, h)) in
      record {
        trip = t;
        trip_found = et;
        valid = v;
        canonical = ground (arith, h);
        free = f;
        resolved = e;
      }

  pub resolve_canonical_bootstrap-Ran :
      resolve_canonical_bootstrap link now r db ≡ (ok res, db') → Ran
  unfolding resolve_canonical_bootstrap bootstrap_tx
  resolve_canonical_bootstrap-Ran h =
      let x = transact_ok db (bootstrap_tx link now r db) h in
      trip_rest _ refl (ground (arith, x)) (ground (arith, x))

  pub resolve_canonical_bootstrap-IsDone :
      resolve_canonical_bootstrap link now r db ≡ (ok res, db')
      → RowsAgree r db
      → All (λ m. is_done m ≡ true) (covered r db'.outbox db'.intents)
  resolve_canonical_bootstrap-IsDone h agree =
      let ran = resolve_canonical_bootstrap-Ran h in
      AllWait-is_done r db' (
        resolve_each-AllWait r link time mirrors db db' ran.resolved
          (covered-AllWait r db agree ran.free))

  -- After a ResolveCanonicalBootstrap that succeeds, in tables whose outbox rows have the trip of their
  -- intents: every row up to the finalized sequence that refers to a command of the trip is accepted
  -- or terminally rejected, and confirmed; the command's runtime_sync_state is not pending, and not
  -- paused_internal either for a canonical-first command.
  pub resolve_canonical_bootstrap-AllConverged :
      resolve_canonical_bootstrap link now r db ≡ (ok res, db')
      → RowsAgree r db
      → AllConverged r db'
  resolve_canonical_bootstrap-AllConverged h agree =
      let ran = resolve_canonical_bootstrap-Ran h in
      AllWait-AllConverged r db' (
        resolve_each-AllWait r link time mirrors db db' ran.resolved
          (covered-AllWait r db agree ran.free))
