-- ===== src/Terminal/Sequence.antt =====
-- The finalized mutation sequence of a trip along a history of FinalizeTerminal calls.
use mathlib.Core.Path.{subst}
use live_route.Base.{
  ℕ, ◌+◌, String, ◌≡◌, refl, sym, ap, ◌∙◌, inl, inr, Bool, true, false, Option, none, some, List,
  [], ◌∷◌, arith, same, Bool-cases, if◌then◌else◌,
}
use live_route.Base.Table.{find_where, find_where-update_where_self, find_where-update_where_ne}
use live_route.Base.Result.{Result, ok, err, Link, transact}
use live_route.Store.{Db, Trip, Intent}
use live_route.Proposal.{is_trip}
use live_route.Terminal.{write_terminal, finalize_terminal_tx, finalize_terminal}
use live_route.Terminal.Rows.{FinalizeTerminalCommandRequest, FinalizedCommand, advance}
use live_route.Terminal.Outcome.{First, finalize_terminal-Finalized}

abbrev sequence_in : Option Trip → ℕ
sequence_in none = 0
sequence_in (some trip) = trip.finalized_mutation_sequence

-- The last mutation that a trip finalized.
abbrev pub sequence_of : String → Db → ℕ
sequence_of trip_id db = sequence_in (find_where (is_trip trip_id) db.trips)

abbrev is_first : FinalizedCommand → Bool
is_first res = if res.duplicate then false else true

-- 1 for a call that finalized a command of the trip, 0 for any other.
abbrev pub counted : String → FinalizeTerminalCommandRequest → Result FinalizedCommand → ℕ
counted trip_id r (err e) = 0
counted trip_id r (ok res) = if same r.trip_id trip_id then (if res.duplicate then 0 else 1) else 0

pub record Call : Type 0 where
  pub link : Link
  pub now : ℕ
  pub request : FinalizeTerminalCommandRequest

unfoldable pub run : Db → List Call → Db
run db [] = db
run db (c ∷ cs) = run (finalize_terminal c.link c.now db c.request).1 cs

-- How many calls of a history finalized a command of the trip.
unfoldable pub firsts : String → Db → List Call → ℕ
firsts trip_id db [] = 0
firsts trip_id db (c ∷ cs) =
    counted trip_id c.request (finalize_terminal c.link c.now db c.request).0
    + firsts trip_id (finalize_terminal c.link c.now db c.request).1 cs

is_trip-same :
    (t u : String) (x : Trip) → same t u ≡ false → is_trip u x ≡ true → is_trip t x ≡ false
is_trip-same t u x h e = ground arith

module _ (t : String) (now : ℕ) (db : Db) (r : FinalizeTerminalCommandRequest) where
  advanced :
      (sequence revision : ℕ) (trip : Trip)
      → find_where (is_trip r.trip_id) db.trips ≡ some trip
      → sequence_of r.trip_id (write_terminal r sequence revision now db) ≡ sequence
  unfolding write_terminal
  advanced sequence revision trip e = ap sequence_in (
      find_where-update_where_self (is_trip r.trip_id) (advance sequence now) db.trips (λ x h. h) e)

  others :
      (sequence revision : ℕ)
      → same t r.trip_id ≡ false
      → sequence_of t (write_terminal r sequence revision now db) ≡ sequence_of t db
  unfolding write_terminal
  others sequence revision h = ap sequence_in (
      find_where-update_where_ne (is_trip t) (is_trip r.trip_id) (advance sequence now) db.trips
        λ x e. (is_trip-same t r.trip_id x h e, is_trip-same t r.trip_id x h e))

  step-First :
      (link : Link) (db' : Db) (res : FinalizedCommand) (trip : Trip) (i : Intent)
      → find_where (is_trip r.trip_id) db.trips ≡ some trip
      → First link now db db' r res trip i
      → sequence_of t db' ≡ sequence_of t db + counted t r (ok res)
  step-First link db' res trip i found f = elim (Bool-cases (same t r.trip_id)) [
    | inl e ↦
        let e' : r.trip_id ≡ t = ground arith in
        let s : sequence_of t db' ≡ i.mutation_sequence =
          ap (sequence_of t) (sym f.written)
          ∙ subst
              (λ u.
                sequence_of u (write_terminal r i.mutation_sequence trip.trip_revision now db)
                ≡ i.mutation_sequence)
              e' (advanced i.mutation_sequence trip.trip_revision trip found) in
        let b : sequence_of t db ≡ trip.finalized_mutation_sequence =
          subst (λ u. sequence_of u db ≡ trip.finalized_mutation_sequence) e'
            (ap sequence_in found) in
        ground (arith, s, b, f.next, f.result)
    | inr e ↦
        let s : sequence_of t db' ≡ sequence_of t db =
          ap (sequence_of t) (sym f.written) ∙ others i.mutation_sequence trip.trip_revision e in
        ground (arith, s)
  ]

  step_of :
      (link : Link) (x : Result (FinalizedCommand × Db))
      → finalize_terminal_tx link now db r ≡ x
      → sequence_of t (transact db x).1 ≡ sequence_of t db + counted t r (transact db x).0
  unfolding finalize_terminal
  step_of link (err e) h = ground arith
  step_of link (ok (res, db')) h =
      let f = finalize_terminal-Finalized link now db db' r res (ap (transact db) h) in
      elim f.how [
        | inl again ↦ ground (arith, ap (sequence_of t) again.unchanged, again.result)
        | inr first ↦ step-First link db' res f.trip f.intent f.trip_found first
      ]

-- Along every history of FinalizeTerminal calls, whatever they return and however the driver fails,
-- the finalized sequence of a trip grows by one with each call that finalizes one of its commands for
-- the first time, and with no other call.
pub run-sequence :
    (t : String) (db : Db) (cs : List Call)
    → sequence_of t (run db cs) ≡ sequence_of t db + firsts t db cs
unfolding run firsts finalize_terminal
run-sequence t db [] = omega arith
run-sequence t db (c ∷ cs) =
    let s =
      step_of t c.now db c.request c.link (finalize_terminal_tx c.link c.now db c.request) refl in
    omega (arith, s, run-sequence t (finalize_terminal c.link c.now db c.request).1 cs)
