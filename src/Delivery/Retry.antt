-- ===== src/Delivery/Retry.antt =====
-- What a worker may rely on after it gives a claim back, and how long the backoff is.
use mathlib.Core.Path.{subst}
use live_route.Base.{
  ℕ, ◌+◌, ◌*◌, ◌^◌, ◌≤◌, ◌<◌, String, ◌≡◌, ◌≢◌, refl, inl, inr, Bool, false, Option, some, List, [],
  ◌∷◌, arith, All, Option-cases,
}
use live_route.Base.Table.{count_where, All-update_where_new}
use live_route.Base.Result.{ok, Link}
use live_route.Store.{Db, Outbox}
use live_route.Lease.{Duration, nanoseconds}
use live_route.Delivery.{
  is_claimed, retry_at, pause_row, retry_rows, release_for_retry, pause_rows, pause_internal,
  retry_delay, cap_duration, microseconds,
}
use live_route.Delivery.Claims.{ClaimedOutboxRow}

count_where-none :
    {A : Type 0} (p : A → Bool) (xs : List A) → All (λ x. p x ≡ false) xs → count_where p xs ≡ 0
unfolding count_where
count_where-none p [] h = refl
count_where-none p (x ∷ xs) h = ground (arith, count_where-none p xs h.1)

module _ (link link' : Link) (now now' : ℕ) (db db' db'' : Db) (row : ClaimedOutboxRow)
    (owner : String) (later : now ≤ now') where
  still_lost :
      (o : Outbox) → is_claimed row owner now o ≡ false → is_claimed row owner now' o ≡ false
  still_lost o h = ground (arith, later)

  retried :
      (next : ℕ) (status : String)
      → count_where (is_claimed row owner now') (retry_rows row owner status next now db).outbox ≡ 0
  unfolding retry_rows
  retried next status = count_where-none _ _ (
      All-update_where_new (λ o. is_claimed row owner now' o ≡ false) (is_claimed row owner now)
        (retry_at next status now) db.outbox (λ o e. ground arith) still_lost)

  paused :
      (reason : String)
      → count_where (is_claimed row owner now') (pause_rows row owner reason now db).outbox ≡ 0
  unfolding pause_rows
  paused reason = count_where-none _ _ (
      All-update_where_new (λ o. is_claimed row owner now' o ≡ false) (is_claimed row owner now)
        (pause_row reason now) db.outbox (λ o e. ground arith) still_lost)

  -- What the owner can no longer do with a claim, under the attempt that it was given.
  abbrev pub GivenBack : Type 0
  GivenBack =
      ((status : String) (delay : Duration)
        → release_for_retry link' now' db' row owner status delay ≢ (ok tt, db''))
      × ((reason : String) → pause_internal link' now' db' row owner reason ≢ (ok tt, db''))

  given_back : count_where (is_claimed row owner now') db'.outbox ≡ 0 → GivenBack
  unfolding release_for_retry pause_internal
  given_back e = (λ status delay h. ground (arith, e), λ reason h. ground (arith, e))

  released_db :
      (status : String) (delay : Duration)
      → release_for_retry link now db row owner status delay ≡ (ok tt, db')
      → retry_rows row owner status (now + microseconds delay) now db ≡ db'
  unfolding release_for_retry
  released_db status delay h = ground arith

  -- A claim that ReleaseForRetry gave back is spent: at the same or any later time its owner can
  -- neither release it again nor pause the row with it.
  pub release-GivenBack :
      (status : String) (delay : Duration)
      → release_for_retry link now db row owner status delay ≡ (ok tt, db')
      → GivenBack
  release-GivenBack status delay h = given_back (
      subst (λ (d : Db). count_where (is_claimed row owner now') d.outbox ≡ 0)
        (released_db status delay h) (retried (now + microseconds delay) status))

  paused_db :
      (reason : String)
      → pause_internal link now db row owner reason ≡ (ok tt, db')
      → pause_rows row owner reason now db ≡ db'
  unfolding pause_internal
  paused_db reason h = ground arith

  -- A claim whose row PauseInternal paused is spent in the same way.
  pub pause-GivenBack :
      (reason : String) → pause_internal link now db row owner reason ≡ (ok tt, db') → GivenBack
  pause-GivenBack reason h = given_back (
      subst (λ (d : Db). count_where (is_claimed row owner now') d.outbox ≡ 0) (paused_db reason h)
        (paused reason))

-- A delay that RetryDelay gives is at most 30 seconds and, up to seven attempts, at most a quarter of
-- a second times two to the number of attempts, if rand.Int gives a number below its limit.
pub retry_delay_le :
    (rand_int : ℕ → Option ℕ) (attempt_count : ℕ) (delay : Duration)
    → ((limit v : ℕ) → rand_int limit ≡ some v → v < limit)
    → retry_delay rand_int attempt_count ≡ ok delay
    → (v : ℕ) × (delay ≡ nanoseconds v)
      × (v ≤ 30_000_000_000)
      × (attempt_count ≤ 7 → v ≤ 250_000_000 * 2 ^ attempt_count)
unfolding retry_delay
retry_delay_le rand_int attempt_count delay below h =
    elim (Option-cases (rand_int (cap_duration attempt_count + 1))) [
      | inl n ↦ absurd (ground (arith, n))
      | inr (v, e) ↦
          let lt : v < cap_duration attempt_count + 1 = below _ v e in
          (v, ground (arith, e), ground (arith, lt), λ few. ground (arith, lt, few))
    ]
