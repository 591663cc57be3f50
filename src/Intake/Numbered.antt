-- ===== src/Intake/Numbered.antt =====
-- The sequences and the unresolved commands of a trip, along histories in which commands are recorded
-- and finalized.
use mathlib.Core.Path.{subst}
use live_route.Base.{
  ℕ, ◌+◌, String, ◌≡◌, refl, sym, ap, ◌∙◌, ◌≤◌, ◌<◌, inl, inr, Bool, true, false, Option, none,
  some, List, [], ◌∷◌, ◌++◌, arith, same, same_iff, same_self, Bool-cases, All, All-append, All-map,
  if◌then◌else◌,
}
use live_route.Base.Table.{
  find_where, update_where, count_where, any_where, find_where-update_where_self,
  find_where-update_where_ne, All-update_where,
}
use live_route.Base.Table.Keyed.{Keyed, Keyed-update_where, Keyed-find_where}
use live_route.Store.{Db, Trip, Intent}
use live_route.Proposal.{is_trip}
use live_route.Intake.{Clock, is_trip_of, new_intent, allocate, write_recorded}
use live_route.Intake.Recorded.{RecordRuntimeCommandRequest, is_unresolved}

abbrev pub same_trip : Trip → Trip → Bool
same_trip t u = same t.id u.id

-- The sequence of every command of a trip is below the next one of the trip.
abbrev pub IsBelow : String → ℕ → Intent → Type 0
IsBelow id n i = same i.trip_id id ≡ true → i.mutation_sequence < n

pub record IsNumbered (db : Db) : Type 0 where
  pub keyed : Keyed same_trip db.trips
  pub below :
      (id : String) (t : Trip)
      → find_where (is_trip id) db.trips ≡ some t
      → All (IsBelow id t.next_mutation_sequence) db.intents
  pub single : (id : String) → count_where (is_unresolved id) db.intents ≤ 1

module _ {A : Type 0} (p : A → Bool) where
  count_where-append :
      (xs : List A) (z : A)
      → count_where p (xs ++ z ∷ []) ≡ count_where p xs + (if p z then 1 else 0)
  unfolding count_where
  count_where-append [] z = ground arith
  count_where-append (x ∷ xs) z = ground (arith, count_where-append xs z)

  count_where-none : (xs : List A) → any_where p xs ≡ false → count_where p xs ≡ 0
  unfolding count_where any_where
  count_where-none [] h = refl
  count_where-none (x ∷ xs) h = ground (arith, count_where-none xs, h)

  count_where-update_where :
      (q : A → Bool) (f : A → A) (xs : List A)
      → ((x : A) → q x ≡ true → p (f x) ≡ true → p x ≡ true)
      → count_where p (update_where q f xs) ≤ count_where p xs
  unfolding count_where update_where
  count_where-update_where q f [] k = omega arith
  count_where-update_where q f (x ∷ xs) k = ground (arith, k x, count_where-update_where q f xs k)

is_trip-other :
    (t u : String) (x : Trip) → same t u ≡ false → is_trip u x ≡ true → is_trip t x ≡ false
is_trip-other t u x h e = ground (arith, same_iff x.id u, same_iff x.id t, same_self t, h, e)

-- A recorded command.
module _ (c : Clock) (db : Db) (r : RecordRuntimeCommandRequest) (t : Trip) (k : IsNumbered db)
    (found : find_where (is_trip_of r.trip_id r.owner_user_id) db.trips ≡ some t) where
  abbrev written : Db
  written = write_recorded r t.next_mutation_sequence c db

  find_trip :
      (xs : List Trip)
      → find_where (is_trip r.trip_id) xs ≡ none
      → find_where (is_trip_of r.trip_id r.owner_user_id) xs ≡ none
  unfolding find_where
  find_trip [] h = refl
  find_trip (x ∷ xs) h = ground (arith, h, find_trip xs)

  IsBelow-own :
      (u : Trip)
      → find_where (is_trip r.trip_id) db.trips ≡ some u
      → All (IsBelow r.trip_id (u.next_mutation_sequence + 1)) written.intents
  unfolding write_recorded
  IsBelow-own u e =
      let own : t ≡ u =
        Keyed-find_where same_trip (is_trip_of r.trip_id r.owner_user_id) (is_trip r.trip_id)
          db.trips
          (λ x y p q. (
            ground (
              arith,
              p,
              q,
              same_iff x.id r.trip_id,
              same_iff y.id r.trip_id,
              same_self r.trip_id,
            ),
            ground (
              arith,
              p,
              q,
              same_iff x.id r.trip_id,
              same_iff y.id r.trip_id,
              same_self r.trip_id,
            ),
          ))
          k.keyed found e in
      All-append _ db.intents (new_intent r t.next_mutation_sequence c.recorded ∷ [])
        (All-map _ _ db.intents (λ i b s. omega (arith, b s)) (k.below r.trip_id u e))
        (λ s. omega (arith, ap (λ (x : Trip). x.next_mutation_sequence) own), tt)

  trip_own :
      (u : Trip)
      → find_where (is_trip r.trip_id) db.trips ≡ some u
      → find_where (is_trip r.trip_id) written.trips ≡ some (allocate c.allocated u)
  unfolding write_recorded
  trip_own u e =
      find_where-update_where_self (is_trip r.trip_id) (allocate c.allocated) db.trips (λ x h. h) e

  trip_other :
      (id : String)
      → same id r.trip_id ≡ false
      → find_where (is_trip id) written.trips ≡ find_where (is_trip id) db.trips
  unfolding write_recorded
  trip_other id h =
      find_where-update_where_ne (is_trip id) (is_trip r.trip_id) (allocate c.allocated) db.trips
        λ x e. (is_trip-other id r.trip_id x h e, is_trip-other id r.trip_id x h e)

  IsBelow-at :
      (id : String)
      → id ≡ r.trip_id
      → (u : Trip) → find_where (is_trip r.trip_id) written.trips ≡ some u
      → (o : Option Trip) → find_where (is_trip r.trip_id) db.trips ≡ o
      → All (IsBelow id u.next_mutation_sequence) written.intents
  IsBelow-at id s u e none f = absurd (ground (arith, found, find_trip db.trips f))
  IsBelow-at id s u e (some v) f =
      subst (λ i. All (IsBelow i u.next_mutation_sequence) written.intents) (sym s)
        (subst (λ n. All (IsBelow r.trip_id n) written.intents)
          (ground (arith, sym (trip_own v f) ∙ e)) (IsBelow-own v f))

  written-Keyed : Keyed same_trip written.trips
  unfolding write_recorded
  written-Keyed =
      Keyed-update_where same_trip (is_trip r.trip_id) (allocate c.allocated) db.trips (λ x y. refl)
        (λ x y. refl) k.keyed

  IsBelow-written :
      (id : String) (u : Trip)
      → find_where (is_trip id) written.trips ≡ some u
      → All (IsBelow id u.next_mutation_sequence) written.intents
  unfolding write_recorded
  IsBelow-written id u e = elim (Bool-cases (same id r.trip_id)) [
    | inl s ↦
        let e' : find_where (is_trip r.trip_id) written.trips ≡ some u =
          ap (λ i. find_where (is_trip i) written.trips) (sym (same_iff id r.trip_id s)) ∙ e in
        IsBelow-at id (same_iff id r.trip_id s) u e' _ refl
    | inr s ↦
        All-append _ db.intents (new_intent r t.next_mutation_sequence c.recorded ∷ [])
          (k.below id u (sym (trip_other id s) ∙ e))
          (λ p. absurd (ground (arith, s, p, same_iff r.trip_id id, same_self id)), tt)
  ]

  single_written :
      any_where (is_unresolved r.trip_id) db.intents ≡ false
      → (id : String) → count_where (is_unresolved id) written.intents ≤ 1
  unfolding write_recorded is_unresolved
  single_written free id =
      let counted =
        count_where-append (is_unresolved id) db.intents
          (new_intent r t.next_mutation_sequence c.recorded) in
      elim (Bool-cases (same r.trip_id id)) [
        | inl s ↦
            let none_before : count_where (is_unresolved id) db.intents ≡ 0 =
              ap (λ i. count_where (is_unresolved i) db.intents) (sym (same_iff r.trip_id id s))
              ∙ count_where-none (is_unresolved r.trip_id) db.intents free in
            ground (arith, counted, none_before)
        | inr s ↦ ground (arith, counted, s, k.single id)
      ]

  pub written-IsNumbered :
      any_where (is_unresolved r.trip_id) db.intents ≡ false → IsNumbered written
  written-IsNumbered free = record {
    keyed = written-Keyed;
    below = IsBelow-written;
    single = single_written free;
  }

-- An UPDATE of the trips that keeps their ids and next sequences, and one of the intents that keeps
-- their trips and sequences and makes no command unresolved.
module _ (db db' : Db) (k : IsNumbered db) (p : Trip → Bool) (f : Trip → Trip) (q : Intent → Bool)
    (g : Intent → Intent) (trips : db'.trips ≡ update_where p f db.trips)
    (intents : db'.intents ≡ update_where q g db.intents) (id_kept : (t : Trip) → (f t).id ≡ t.id)
    (next_kept : (t : Trip) → (f t).next_mutation_sequence ≡ t.next_mutation_sequence)
    (trip_kept : (i : Intent) → (g i).trip_id ≡ i.trip_id)
    (sequence_kept : (i : Intent) → (g i).mutation_sequence ≡ i.mutation_sequence)
    (unresolved_before : (id : String) (i : Intent)
      → q i ≡ true
      → is_unresolved id (g i) ≡ true
      → is_unresolved id i ≡ true) where
  Keyed-updated : Keyed same_trip db'.trips
  Keyed-updated = subst (Keyed same_trip) (sym trips) (
      Keyed-update_where same_trip p f db.trips (λ x y. ap (λ i. same i y.id) (id_kept x))
        (λ x y. ap (λ i. same x.id i) (id_kept y)) k.keyed)

  trip_before :
      (id : String) (ts : List Trip) (u : Trip)
      → find_where (is_trip id) (update_where p f ts) ≡ some u
      → (v : Trip) × (find_where (is_trip id) ts ≡ some v)
        × (u.next_mutation_sequence ≡ v.next_mutation_sequence)
  unfolding find_where update_where
  trip_before id [] u e = absurd (cc)
  trip_before id (x ∷ ts) u e = elim (Bool-cases (is_trip id x)) [
    | inl h ↦ (x, ground (arith, h), ground (arith, h, e, id_kept x, next_kept x))
    | inr h ↦
        let (v, a, b) = trip_before id ts u (ground (arith, h, e, id_kept x)) in
        (v, ground (arith, h, a), b)
  ]

  IsBelow-updated :
      (id : String) (u : Trip)
      → find_where (is_trip id) db'.trips ≡ some u
      → All (IsBelow id u.next_mutation_sequence) db'.intents
  IsBelow-updated id u e =
      let (v, found, same_next) =
        trip_before id db.trips u (ap (find_where (is_trip id)) (sym trips) ∙ e) in
      subst (All (IsBelow id u.next_mutation_sequence)) (sym intents) (
        All-update_where _ q g db.intents
          (λ i _ b s.
            omega (arith, sequence_kept i, b (ap (λ t. same t id) (sym (trip_kept i)) ∙ s)))
          (subst (λ n. All (IsBelow id n) db.intents) (sym same_next) (k.below id v found)))

  pub updated-IsNumbered : IsNumbered db'
  updated-IsNumbered = record {
    keyed = Keyed-updated;
    below = IsBelow-updated;
    single = λ id. omega (
      arith,
      k.single id,
      ap (count_where (is_unresolved id)) intents,
      count_where-update_where (is_unresolved id) q g db.intents (unresolved_before id),
    );
  }
