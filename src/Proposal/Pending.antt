-- ===== src/Proposal/Pending.antt =====
-- A trip has at most one pending proposal, and it is the one that was persisted last.
use mathlib.Core.Path.{subst}
use live_route.Base.{
  ℕ, ◌≤◌, String, ◌≡◌, refl, inl, inr, Bool, true, false, List, [], ◌∷◌, ◌++◌, arith, same, All,
  Bool-cases, same_self,
}
use live_route.Base.Table.{count_where, select_where, update_where, All-update_where_new}
use live_route.Base.Result.{ok, Link, transact_ok, transact_cases, read_proposals}
use live_route.Store.{Db, Proposal}
use live_route.Proposal.{
  PersistProposalRequest, PersistedProposal, is_pending_for, supersede, new_proposal,
  write_proposal, newest, persist_tx, persist, latest_pending_payload, validate_persist_proposal,
  valid_identifiers,
}
use live_route.Uuid.{valid_canonical_uuid}
use live_route.Proposal.Outcome.{persist-Persisted, Persisted}

module _ {ℓ} {A : Type ℓ} where
  count_where-append_new :
      (p : A → Bool) (xs : List A) (z : A)
      → All (λ x. p x ≡ false) xs
      → count_where p (xs ++ z ∷ []) ≤ 1
  unfolding count_where
  count_where-append_new p [] z h = ground arith
  count_where-append_new p (x ∷ xs) z h = ground (arith, count_where-append_new p xs z h.1)

  count_where-append_other :
      (p : A → Bool) (xs : List A) (z : A)
      → p z ≡ false
      → count_where p (xs ++ z ∷ []) ≡ count_where p xs
  unfolding count_where
  count_where-append_other p [] z h = ground arith
  count_where-append_other p (x ∷ xs) z h = ground (arith, count_where-append_other p xs z h)

  count_where-update_where_ne :
      (q p : A → Bool) (f : A → A) (xs : List A)
      → ((x : A) → p x ≡ true → (q x ≡ false) × (q (f x) ≡ false))
      → count_where q (update_where p f xs) ≡ count_where q xs
  unfolding count_where update_where
  count_where-update_where_ne q p f [] h = refl
  count_where-update_where_ne q p f (x ∷ xs) h = elim (Bool-cases (p x)) [
    | inl e ↦ rw (e, (h x e).0, (h x e).1) (count_where-update_where_ne q p f xs h)
    | inr e ↦ rw (e, count_where-update_where_ne q p f xs h) refl
  ]

  select_where-append_new :
      (p : A → Bool) (xs : List A) (z : A)
      → All (λ x. p x ≡ false) xs
      → p z ≡ true
      → select_where p (xs ++ z ∷ []) ≡ z ∷ []
  unfolding select_where
  select_where-append_new p [] z h e = ground arith
  select_where-append_new p (x ∷ xs) z h e = ground (arith, select_where-append_new p xs z h.1)

abbrev pub OnePending : Db → Type 0
OnePending db = (trip_id : String) → count_where (is_pending_for trip_id) db.proposals ≤ 1

superseded :
    (trip_id : String) (now : ℕ) (p : Proposal) → is_pending_for trip_id (supersede now p) ≡ false
superseded trip_id now p = ground arith

other :
    (t trip_id : String) (now : ℕ) (p : Proposal)
    → same t trip_id ≡ false
    → is_pending_for trip_id p ≡ true
    → (is_pending_for t p ≡ false) × (is_pending_for t (supersede now p) ≡ false)
other t trip_id now p h e = (ground arith, ground arith)

module _ (now : ℕ) (db : Db) (r : PersistProposalRequest) where
  no_pending :
      All
        (λ p. is_pending_for r.trip_id p ≡ false)
        (update_where (is_pending_for r.trip_id) (supersede now) db.proposals)
  no_pending =
      All-update_where_new _ (is_pending_for r.trip_id) (supersede now) db.proposals
        (λ p h. superseded r.trip_id now p) (λ p h. h)

  new_is_pending : is_pending_for r.trip_id (new_proposal r) ≡ true
  new_is_pending = ground (arith, same_self r.trip_id)

  new_is_other : (t : String) → same t r.trip_id ≡ false → is_pending_for t (new_proposal r) ≡ false
  new_is_other t h = ground arith

  write_proposal-OnePending : OnePending db → OnePending (write_proposal r now db)
  unfolding write_proposal
  write_proposal-OnePending one t = elim (Bool-cases (same t r.trip_id)) [
    | inl e ↦
        let e' : r.trip_id ≡ t = ground arith in
        subst
          (λ (t : String).
            count_where (is_pending_for t) (
              update_where (is_pending_for r.trip_id) (supersede now) db.proposals
              ++ new_proposal r ∷ [])
            ≤ 1)
          e' (count_where-append_new (is_pending_for r.trip_id) _ (new_proposal r) no_pending)
    | inr e ↦ omega (
      arith,
      one t,
      count_where-append_other (is_pending_for t)
          (update_where (is_pending_for r.trip_id) (supersede now) db.proposals) (new_proposal r)
          (new_is_other t e),
      count_where-update_where_ne (is_pending_for t) (is_pending_for r.trip_id) (supersede now)
          db.proposals (λ p h. other t r.trip_id now p e h),
    )
  ]

  -- Whatever Persist returns, it keeps at most one pending proposal for each trip.
  pub persist-OnePending :
      (sha256 : String → String) (link : Link)
      → OnePending db
      → OnePending (persist sha256 link now db r).1
  unfolding persist
  persist-OnePending sha256 link one =
      transact_cases OnePending db (persist_tx sha256 link now db r) one λ res db' e.
        by_outcome res db' (persist-Persisted link now db db' r res sha256 (ground (arith, e)))
    where
      by_outcome :
          (res : PersistedProposal) (db' : Db) → Persisted link now db db' r res → OnePending db'
      by_outcome res db' p = elim p.4 [
        | inl repeated ↦ subst OnePending repeated.unchanged one
        | inr fresh ↦ subst OnePending fresh.written (write_proposal-OnePending one)
      ]

module _ (sha256 : String → String) (link link' : Link) (now : ℕ) (db db' : Db)
    (r : PersistProposalRequest) (res : PersistedProposal) where
  accepted_trip :
      persist_tx sha256 link now db r ≡ ok (res, db') → valid_canonical_uuid r.trip_id ≡ true
  unfolding persist_tx validate_persist_proposal valid_identifiers
  accepted_trip h = ground arith

  newest_written :
      select_where (is_pending_for r.trip_id) (write_proposal r now db).proposals
      ≡ new_proposal r ∷ []
  unfolding write_proposal
  newest_written =
      select_where-append_new (is_pending_for r.trip_id) _ (new_proposal r) (no_pending now db r)
        (new_is_pending now db r)

  newest_stored :
      write_proposal r now db ≡ db'
      → select_where (is_pending_for r.trip_id) db'.proposals ≡ new_proposal r ∷ []
  newest_stored e =
      subst (λ (d : Db). select_where (is_pending_for r.trip_id) d.proposals ≡ new_proposal r ∷ [])
        e newest_written

  stored_of :
      res.duplicate ≡ false
      → Persisted link now db db' r res
      → select_where (is_pending_for r.trip_id) db'.proposals ≡ new_proposal r ∷ []
  stored_of fresh p = elim p.4 [
    | inl repeated ↦ absurd (ground (arith, repeated.result))
    | inr new ↦ newest_stored new.written
  ]

  -- After a Persist that stored a new proposal, LatestPendingPayload gives its payload, if the driver
  -- does not fail.
  pub latest_pending_payload-persist :
      persist sha256 link now db r ≡ (ok res, db')
      → res.duplicate ≡ false
      → link' read_proposals ≡ false
      → latest_pending_payload link' db' r.trip_id ≡ ok r.payload
  unfolding persist latest_pending_payload newest
  latest_pending_payload-persist h fresh up =
      let valid = accepted_trip (transact_ok db (persist_tx sha256 link now db r) h) in
      let stored = stored_of fresh (persist-Persisted link now db db' r res sha256 h) in
      ground (arith, valid, up, stored)
