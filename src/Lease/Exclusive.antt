-- ===== src/Lease/Exclusive.antt =====
-- At every instant of every history at most one holder has dispatch authority over a trip.
use live_route.Base.{
  ℕ, String, ◌≡◌, refl, sym, ◌∙◌, Bool, true, some, none, Option, List, [], ◌∷◌, ◌++◌, arith, same,
  false, same_iff, ◌&&◌, ◌==◌, ◌<◌, ap, All, inl, inr, Bool-cases,
}
use mathlib.Core.Path.{subst}
use live_route.Base.Table.{find_where, update_where, delete_where, find_where-holds}
use live_route.Base.Table.Keyed.{
  Keyed, Keyed-update_where, Keyed-delete_where, Keyed-append_new, Keyed-find_where,
  find_where-none,
}
use live_route.Base.Result.{ok, Link}
use live_route.Store.{Db, RuntimeLease}
use live_route.Lease.{
  for_trip, is_current, current, current_row, fresh_lease, insert_lease, write_take_over,
  write_renewal, delete_lease, renewable, take_over, extend, is_held,
}
use live_route.Lease.History.{
  Call, acquires, renews, releases, step, run, acquire_cases, renew_cases, release_cases,
}

abbrev pub same_trip : RuntimeLease → RuntimeLease → Bool
same_trip l m = same l.trip_id m.trip_id

-- The primary key of trip_runtime_leases.
abbrev pub IsKeyed : Db → Type 0
IsKeyed db = Keyed same_trip db.leases

-- Every call, whatever it returns, keeps the primary key: a trip has one lease at most.
pub step-IsKeyed : (db : Db) (c : Call) → IsKeyed db → IsKeyed (step db c)
unfolding step insert_lease write_take_over write_renewal delete_lease
step-IsKeyed db (acquires link read_at write_at trip_id holder_id duration) k =
    acquire_cases IsKeyed link db trip_id holder_id read_at write_at duration k
      (λ e.
        Keyed-append_new same_trip db.leases (fresh_lease trip_id holder_id duration write_at)
          (find_where-none (for_trip trip_id) db.leases e) k)
      (λ row e x. Keyed-update_where same_trip _ _ db.leases (λ l m. refl) (λ l m. refl) k)
step-IsKeyed db (renews link now trip_id holder_id epoch duration) k =
    renew_cases IsKeyed link db trip_id holder_id now epoch duration k
      (Keyed-update_where same_trip _ _ db.leases (λ l m. refl) (λ l m. refl) k)
step-IsKeyed db (releases link trip_id holder_id epoch) k =
    release_cases IsKeyed link db trip_id holder_id epoch k
      (Keyed-delete_where same_trip _ db.leases k)

run-IsKeyed : (db : Db) (cs : List Call) → IsKeyed db → IsKeyed (run db cs)
unfolding run
run-IsKeyed db [] k = k
run-IsKeyed db (c ∷ cs) k = run-IsKeyed (step db c) cs (step-IsKeyed db c k)

current_row_ok :
    (row : Option RuntimeLease) (l : RuntimeLease) → current_row row ≡ ok l → row ≡ some l
unfolding current_row
current_row_ok none l h = absurd (cc)
current_row_ok (some r) l h = ground arith

current_ok :
    (link : Link) (now : ℕ) (db : Db) (trip_id holder_id : String) (l : RuntimeLease)
    → current link now db trip_id holder_id ≡ ok l
    → find_where (is_current trip_id holder_id now) db.leases ≡ some l
unfolding current
current_ok link now db trip_id holder_id l h = current_row_ok _ l (ground arith)

clash :
    (trip_id h1 h2 : String) (now : ℕ) (x y : RuntimeLease)
    → is_current trip_id h1 now x ≡ true
    → is_current trip_id h2 now y ≡ true
    → (same_trip x y ≡ true) × (same_trip y x ≡ true)
clash trip_id h1 h2 now x y hx hy = ground arith

holder :
    (trip_id h1 : String) (now : ℕ) (x : RuntimeLease)
    → is_current trip_id h1 now x ≡ true
    → x.holder_id ≡ h1
holder trip_id h1 now x hx = ground arith

module _ {A : Type 0} where
  find_where-wider :
      (p q : A → Bool) (xs : List A) {a : A}
      → ((x : A) → p x ≡ true → q x ≡ true)
      → find_where p xs ≡ some a
      → (b : A) × (find_where q xs ≡ some b)
  unfolding find_where
  find_where-wider p q [] w h = absurd (cc)
  find_where-wider p q (x ∷ xs) {a} w h = elim (Bool-cases (q x)) [
    | inl e ↦ (x, ground arith)
    | inr e ↦
        let (b, f) = find_where-wider p q xs {a = a} w (ground (arith, w x)) in (b, ground arith)
  ]

  find_where-append_old :
      (p : A → Bool) (xs : List A) (z : A) {a : A}
      → find_where p xs ≡ some a
      → find_where p (xs ++ z ∷ []) ≡ some a
  unfolding find_where
  find_where-append_old p [] z h = absurd (cc)
  find_where-append_old p (x ∷ xs) z {a} h = ground (arith, find_where-append_old p xs z {a = a})

  find_where-update_where_miss :
      (q p : A → Bool) (f : A → A) (xs : List A) {a : A}
      → ((x : A) → q (f x) ≡ q x)
      → p a ≡ false
      → find_where q xs ≡ some a
      → find_where q (update_where p f xs) ≡ some a
  unfolding find_where update_where
  find_where-update_where_miss q p f [] k n h = absurd (cc)
  find_where-update_where_miss q p f (x ∷ xs) {a} k n h = elim (Bool-cases (q x)) [
    | inl e ↦
        let x_is : x ≡ a = ground arith in
        let n' = subst (λ z. p z ≡ false) (sym x_is) n in ground arith
    | inr e ↦
        let rest = find_where-update_where_miss q p f xs {a = a} k n (ground arith) in
        elim (Bool-cases (p x)) [ inl u ↦ ground (arith, k x) | inr u ↦ ground arith ]
  ]

  find_where-delete_where_miss :
      (q p : A → Bool) (xs : List A) {a : A}
      → p a ≡ false
      → find_where q xs ≡ some a
      → find_where q (delete_where p xs) ≡ some a
  unfolding find_where delete_where
  find_where-delete_where_miss q p [] n h = absurd (cc)
  find_where-delete_where_miss q p (x ∷ xs) {a} n h = elim (Bool-cases (q x)) [
    | inl e ↦
        let x_is : x ≡ a = ground arith in
        let n' = subst (λ z. p z ≡ false) (sym x_is) n in ground arith
    | inr e ↦
        let rest = find_where-delete_where_miss q p xs {a = a} n (ground arith) in
        elim (Bool-cases (p x)) [ inl u ↦ ground arith | inr u ↦ ground arith ]
  ]

-- The call is none of the holder's own for its epoch, and its clock reading is before the expiry.
abbrev pub Spares : String → RuntimeLease → Call → Type 0
Spares trip_id l (acquires link read_at write_at t h duration) = read_at < l.lease_expires_at
Spares trip_id l (renews link now t h epoch duration) =
    (same t trip_id && same h l.holder_id && epoch == l.runtime_epoch) ≡ false
Spares trip_id l (releases link t h epoch) =
    (same t trip_id && same h l.holder_id && epoch == l.runtime_epoch) ≡ false

-- The trip's row is the lease.
abbrev IsLeased : String → RuntimeLease → Db → Type 0
IsLeased trip_id l db = find_where (for_trip trip_id) db.leases ≡ some l

apart_row :
    (trip_id t h : String) (epoch : ℕ) (l : RuntimeLease)
    → same l.trip_id trip_id ≡ true
    → (same t trip_id && same h l.holder_id && epoch == l.runtime_epoch) ≡ false
    → (same l.trip_id t && same l.holder_id h && l.runtime_epoch == epoch) ≡ false
apart_row trip_id t h epoch l e n = ground arith

step-IsLeased :
    (trip_id : String) (l : RuntimeLease) (db : Db) (c : Call)
    → Spares trip_id l c
    → IsLeased trip_id l db
    → IsLeased trip_id l (step db c)
unfolding step insert_lease write_take_over write_renewal delete_lease
step-IsLeased trip_id l db (acquires link read_at write_at t h duration) s k =
    acquire_cases (IsLeased trip_id l) link db t h read_at write_at duration k
      (λ e.
        find_where-append_old (for_trip trip_id) db.leases (fresh_lease t h duration write_at) k)
      (λ row e x. elim (Bool-cases (for_trip t l)) [
        | inl own ↦
            let t_is : t ≡ trip_id =
              sym (same_iff l.trip_id t own)
              ∙ same_iff l.trip_id trip_id
                  (find_where-holds (for_trip trip_id) db.leases {a = l} k) in
            let found = subst (λ z. find_where (for_trip z) db.leases ≡ some row) t_is e in
            absurd (ground (arith, s, x, found, k))
        | inr other ↦
            find_where-update_where_miss (for_trip trip_id) (for_trip t)
              (take_over h duration write_at) db.leases (λ y. refl) other k
      ])
step-IsLeased trip_id l db (renews link now t h epoch duration) s k =
    renew_cases (IsLeased trip_id l) link db t h now epoch duration k (
      find_where-update_where_miss (for_trip trip_id) (renewable t h epoch now)
        (extend duration now) db.leases (λ y. refl)
        (ground (arith, apart_row trip_id t h epoch l (find_where-holds _ _ k) s)) k)
step-IsLeased trip_id l db (releases link t h epoch) s k =
    release_cases (IsLeased trip_id l) link db t h epoch k (
      find_where-delete_where_miss (for_trip trip_id) (is_held t h epoch) db.leases
        (apart_row trip_id t h epoch l (find_where-holds _ _ k) s) k)

run-IsLeased :
    (trip_id : String) (l : RuntimeLease) (db : Db) (cs : List Call)
    → All (Spares trip_id l) cs
    → IsLeased trip_id l db
    → IsLeased trip_id l (run db cs)
unfolding run
run-IsLeased trip_id l db [] s k = k
run-IsLeased trip_id l db (c ∷ cs) s k =
    run-IsLeased trip_id l (step db c) cs s.1 (step-IsLeased trip_id l db c s.0 k)

in_trip :
    (trip_id h : String) (now : ℕ) (x y : RuntimeLease)
    → is_current trip_id h now x ≡ true
    → for_trip trip_id y ≡ true
    → (same_trip x y ≡ true) × (same_trip y x ≡ true)
in_trip trip_id h now x y hx hy = ground arith

-- What Current succeeds with is the row of the trip.
current-IsLeased :
    (link : Link) (now : ℕ) (db : Db) (trip_id h : String) (l : RuntimeLease)
    → IsKeyed db
    → current link now db trip_id h ≡ ok l
    → IsLeased trip_id l db
current-IsLeased link now db trip_id h l k c =
    let f = current_ok link now db trip_id h l c in
    let (b, g) =
      find_where-wider (is_current trip_id h now) (for_trip trip_id) db.leases {a = l}
        (λ x e. ground arith) f in
    g ∙ ap some (sym (Keyed-find_where same_trip _ _ db.leases (in_trip trip_id h now) k f g))

-- When Current succeeds for a holder, after any history from tables that respect the primary key, its
-- lease has not expired. Whatever calls follow whose acquisitions read the clock before its expiry, but
-- the holder's own renewals and releases of that epoch, Current then succeeds for no other holder, and
-- with no other lease.
pub run-exclusive :
    (db : Db) (cs later : List Call) (link link' : Link) (now now' : ℕ) (trip_id h1 h2 : String)
    (l1 l2 : RuntimeLease)
    → IsKeyed db
    → current link now (run db cs) trip_id h1 ≡ ok l1
    → All (Spares trip_id l1) later
    → current link' now' (run (run db cs) later) trip_id h2 ≡ ok l2
    → (now < l1.lease_expires_at) × (l1 ≡ l2) × (h1 ≡ h2)
run-exclusive db cs later link link' now now' trip_id h1 h2 l1 l2 k c1 s c2 =
    let k1 = run-IsKeyed db cs k in
    let k2 = run-IsKeyed (run db cs) later k1 in
    let f1 = current_ok link now (run db cs) trip_id h1 l1 c1 in
    let f2 = current_ok link' now' (run (run db cs) later) trip_id h2 l2 c2 in
    let leased =
      run-IsLeased trip_id l1 (run db cs) later s
        (current-IsLeased link now (run db cs) trip_id h1 l1 k1 c1) in
    let one : l1 ≡ l2 = sym (
      Keyed-find_where same_trip _ _ (run (run db cs) later).leases (in_trip trip_id h2 now') k2 f2
        leased) in
    let held1 = holder trip_id h1 now l1 (find_where-holds _ _ f1) in
    let held2 = holder trip_id h2 now' l2 (find_where-holds _ _ f2) in
    let live1 : is_current trip_id h1 now l1 ≡ true = find_where-holds _ _ f1 in
    (ground (arith, live1), one, sym held1 ∙ ap (λ (l : RuntimeLease). l.holder_id) one ∙ held2)
