-- ===== src/Delivery/Disjoint.antt =====
-- Two ClaimDue calls while the first claim is live.
use mathlib.Core.Path.{subst}
use live_route.Base.{
  ℕ, ◌+◌, ◌*◌, ◌<◌, String, ◌≡◌, sym, ap, ◌∙◌, inl, inr, Bool, true, false, List, [], ◌∷◌, arith,
  All, All-map, All-always, same, same_iff, Bool-cases,
}
use live_route.Base.Table.{any_where, All-select_where, All-update_where_to}
use live_route.Base.Result.{Result, ok, err, Link}
use live_route.Store.{Db, Outbox}
use live_route.Lease.{Duration, milliseconds}
use live_route.Delivery.{claim_due, claim_rows, checked, delivered_before}
use live_route.Delivery.Claims.{
  ClaimedOutboxRow, is_among, is_free, is_candidate, claim, candidates, write_claims,
}
use live_route.Delivery.Claim.{
  All-sort_by, candidates-All, claimed_rows-All, Claimed, claim_due-Claimed,
}

is_among-id :
    (chosen : List Outbox) (a b : Outbox) → a.id ≡ b.id → is_among chosen a ≡ is_among chosen b
is_among-id chosen a b e = ap (λ id. any_where (λ (c : Outbox). same c.id id) chosen) e

-- An id is among the ids of some rows.
abbrev id_among : List Outbox → String → Bool
id_among chosen id = any_where (λ (c : Outbox). same c.id id) chosen

among_of :
    (chosen others : List Outbox) (id : String)
    → All (λ c. is_among others c ≡ false) chosen
    → id_among chosen id ≡ true
    → id_among others id ≡ false
unfolding any_where
among_of [] others id h e = absurd (ground arith)
among_of (c ∷ cs) others id h e = elim (Bool-cases (same c.id id)) [
  | inl s ↦ subst (λ i. id_among others i ≡ false) (same_iff c.id id s) h.0
  | inr s ↦ among_of cs others id h.1 (ground arith)
]

not_free :
    (now now' expires : ℕ) (owner : String) (o : Outbox)
    → now' < expires
    → is_free now' (claim owner expires now o) ≡ false
not_free now now' expires owner o lt = ground arith

-- The taken rows are claimed until the given time.
abbrev HeldUntil : ℕ → List Outbox → List Outbox → Type 0
HeldUntil expires taken os =
    All (λ o. is_among taken o ≡ true → (n : ℕ) → n < expires → is_free n o ≡ false) os

module _ (valid_json : String → Bool) (link : Link) (now : ℕ) (locked : Outbox → Bool) (db db' : Db)
    (owner : String) (batch_size : ℕ) (duration : Duration) (rows : List ClaimedOutboxRow)
    (first : claim_due valid_json link now locked db owner batch_size duration
      ≡ (ok rows, db')) where
  c : Claimed valid_json link now locked db db' owner batch_size duration rows
  c = claim_due-Claimed valid_json link now locked db db' owner batch_size duration rows first

  abbrev chosen : List Outbox
  chosen = candidates locked now batch_size db.outbox

  held : HeldUntil (now + milliseconds duration * 1000) chosen db'.outbox
  unfolding write_claims
  held =
      subst (λ (d : Db). HeldUntil (now + milliseconds duration * 1000) chosen d.outbox) c.written
        (All-update_where_to (λ _. Unit {0}) _ (is_among chosen)
          (claim owner (now + milliseconds duration * 1000) now) db.outbox
          (λ o e _ _ n lt. not_free now n (now + milliseconds duration * 1000) owner o lt)
          (λ o e _ e'. absurd (ground (arith, e, e'))) (All-always _ db.outbox λ _. tt))

  first_ids : All (λ (r : ClaimedOutboxRow). id_among chosen r.id ≡ true) rows
  first_ids = subst (All (λ (r : ClaimedOutboxRow). id_among chosen r.id ≡ true)) c.ordered (
      All-sort_by _ delivered_before c.scanned (
        claimed_rows-All valid_json (λ o. is_among chosen o ≡ true) _ db.intents _ c.scanned
          (λ o r s e. ap (id_among chosen) s.0 ∙ e)
          (All-select_where (λ o. is_among chosen o ≡ true) (is_among chosen) _
            (All-always _ _ λ o e. e))
          c.from_rows))

free_of_candidate :
    (now : ℕ) (rows : List Outbox) (o : Outbox)
    → is_candidate now rows o ≡ true
    → is_free now o ≡ true
unfolding is_candidate
free_of_candidate now rows o h = ground arith

-- A ClaimDue of some worker.
pub record Claiming : Type 0 where
  pub link : Link
  pub now : ℕ
  pub locked : Outbox → Bool
  pub owner : String
  pub batch_size : ℕ
  pub duration : Duration

module _ (valid_json : String → Bool) where
  abbrev pub claiming : Claiming → Db → Result (List ClaimedOutboxRow) × Db
  claiming c db = claim_due valid_json c.link c.now c.locked db c.owner c.batch_size c.duration

  -- One after the other, whatever they return.
  unfoldable pub run_claims : List Claiming → Db → Db
  run_claims [] db = db
  run_claims (c ∷ cs) db = run_claims cs (claiming c db).1

  checked_cases :
      {A : Type 0} (P : Db → Type 0) (db : Db) (g : Result (Unit {0})) (p : Result A × Db)
      → P db
      → P p.1
      → P (checked db g p).1
  checked_cases P db (ok u) p h k = k
  checked_cases P db (err e) p h k = h

  claiming_cases :
      (P : Db → Type 0) (c : Claiming) (db : Db)
      → P db
      → P (
          write_claims c.owner
            (c.now + milliseconds c.duration * 1000)
            c.now
            (candidates c.locked c.now c.batch_size db.outbox)
            db)
      → P (claiming c db).1
  unfolding claim_due claim_rows
  claiming_cases P c db h k = checked_cases P db _ _ h k

  -- Rows that are held are no candidates.
  apart :
      (expires now : ℕ) (taken rows os : List Outbox)
      → now < expires
      → HeldUntil expires taken os
      → All (λ o. is_candidate now rows o ≡ true → is_among taken o ≡ false) os
  apart expires now taken rows os live h =
      All-map _ _ os
        (λ o f e. elim (Bool-cases (is_among taken o)) [
          | inl a ↦ absurd (ground (arith, f a now live, free_of_candidate now rows o e))
          | inr a ↦ a
        ])
        h

  chosen_fresh :
      (expires : ℕ) (taken : List Outbox) (c : Claiming) (db : Db)
      → c.now < expires
      → HeldUntil expires taken db.outbox
      → All (λ o. is_among taken o ≡ false) (candidates c.locked c.now c.batch_size db.outbox)
  chosen_fresh expires taken c db live h =
      candidates-All _ c.locked c.now c.batch_size db.outbox
        (apart expires c.now taken db.outbox db.outbox live h)

  claiming-HeldUntil :
      (expires : ℕ) (taken : List Outbox) (c : Claiming) (db : Db)
      → c.now < expires
      → HeldUntil expires taken db.outbox
      → HeldUntil expires taken (claiming c db).1.outbox
  unfolding write_claims
  claiming-HeldUntil expires taken c db live h =
      let chosen = candidates c.locked c.now c.batch_size db.outbox in
      let fresh = chosen_fresh expires taken c db live h in
      claiming_cases (λ (d : Db). HeldUntil expires taken d.outbox) c db h
        (All-update_where_to _ _ (is_among chosen)
          (claim c.owner (c.now + milliseconds c.duration * 1000) c.now) db.outbox
          (λ o e k a. absurd (ground (arith, a, among_of chosen taken o.id fresh e))) (λ o e k. k)
          h)

  run_claims-HeldUntil :
      (expires : ℕ) (taken : List Outbox) (cs : List Claiming) (db : Db)
      → All (λ (c : Claiming). c.now < expires) cs
      → HeldUntil expires taken db.outbox
      → HeldUntil expires taken (run_claims cs db).outbox
  unfolding run_claims
  run_claims-HeldUntil expires taken [] db l h = h
  run_claims-HeldUntil expires taken (c ∷ cs) db l h =
      run_claims-HeldUntil expires taken cs (claiming c db).1 l.1
        (claiming-HeldUntil expires taken c db l.0 h)

  differ :
      (taken : List Outbox) (id : String) (r : ClaimedOutboxRow)
      → id_among taken id ≡ false
      → id_among taken r.id ≡ true
      → same r.id id ≡ false
  differ taken id r e a = elim (Bool-cases (same r.id id)) [
    | inl s ↦ absurd (ground (arith, sym a ∙ ap (id_among taken) (same_iff r.id id s) ∙ e))
    | inr s ↦ s
  ]

  -- A ClaimDue, any further ClaimDue calls, and another one, by any workers and with any batch sizes,
  -- each before the claims of the first expire by the database clock, with no other call in between:
  -- the first and the last return no row in common.
  pub claim_due-disjoint :
      (first last : Claiming) (between : List Claiming) (db db' db'' : Db)
      (rows rows' : List ClaimedOutboxRow)
      → claiming first db ≡ (ok rows, db')
      → claiming last (run_claims between db') ≡ (ok rows', db'')
      → All
          (λ (c : Claiming). c.now < first.now + milliseconds first.duration * 1000)
          (last ∷ between)
      → All
          (λ (r' : ClaimedOutboxRow). All (λ (r : ClaimedOutboxRow). same r.id r'.id ≡ false) rows)
          rows'
  claim_due-disjoint first last between db db' db'' rows rows' one two live =
      let expires = first.now + milliseconds first.duration * 1000 in
      let taken = candidates first.locked first.now first.batch_size db.outbox in
      let mid = run_claims between db' in
      let fresh = chosen_fresh expires taken last mid live.0 (
        run_claims-HeldUntil expires taken between db' live.1 (
          held valid_json first.link first.now first.locked db db' first.owner first.batch_size
            first.duration rows one)) in
      let ids =
        first_ids valid_json first.link first.now first.locked db db' first.owner first.batch_size
          first.duration rows one in
      All-map _ _ rows'
        (λ r' e.
          All-map _ _ rows (λ r a. differ taken r'.id r (among_of _ taken r'.id fresh e) a) ids)
        (first_ids valid_json last.link last.now last.locked mid db'' last.owner last.batch_size
          last.duration rows' two)
