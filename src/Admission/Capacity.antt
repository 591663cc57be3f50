-- ===== src/Admission/Capacity.antt =====
-- The queues that the admission of commands opens are never closed.
use mathlib.Core.Path.{subst}
use live_route.Base.{
  ◌≤◌, String, ◌≡◌, refl, sym, Bool, true, false, Option, none, some, List, [], ◌∷◌, arith, length,
  same,
}
use live_route.Base.Table.{find_where, update_where, All-update_where}
use live_route.Base.Table.Keyed.{find_where-none, find_where-none_of_All}
use live_route.Base.Result.{Result, ok, err, connection_capacity}
use live_route.Uuid.Gateway.{gateway_uuid}
use live_route.Admission.{
  AuthenticatedMessage, TripQueue, TripCommandAdmission, is_queue, open_queue, admit_trip, push,
  offer_queue, pop, Step, after, admits, offers, receives, closes, step, run,
}

length-update_where :
    {A : Type 0} (p : A → Bool) (f : A → A) (xs : List A) → length (update_where p f xs) ≡ length xs
unfolding update_where
length-update_where p f [] = refl
length-update_where p f (x ∷ xs) = ground (arith, length-update_where p f xs)

-- All queues are in use, and the trip has none of them.
abbrev pub IsShutOut : String → TripCommandAdmission → Type 0
IsShutOut trip_id a =
    (a.max_trips ≤ length a.queues) × (find_where (is_queue trip_id) a.queues ≡ none)

module _ (t : String) where
  updated-IsShutOut :
      (a : TripCommandAdmission) (p : TripQueue → Bool) (f : TripQueue → TripQueue)
      → ((q : TripQueue) → (f q).trip_id ≡ q.trip_id)
      → IsShutOut t a
      → IsShutOut t (record a { queues = update_where p f a.queues })
  updated-IsShutOut a p f keeps (full, absent) = (
    omega (arith, length-update_where p f a.queues),
    find_where-none_of_All _ _ (
        All-update_where (λ q. is_queue t q ≡ false) p f a.queues
          (λ q _ e. subst (λ u. same u t ≡ false) (sym (keeps q)) e)
          (find_where-none (is_queue t) a.queues absent)),
  )

  opened-IsShutOut :
      (a : TripCommandAdmission) (u : String) (q : Option TripQueue)
      → IsShutOut t a
      → (b : TripCommandAdmission) → open_queue a u q ≡ ok b
      → IsShutOut t b
  unfolding open_queue
  opened-IsShutOut a u (some q) h b e = let e' : a ≡ b = ground arith in subst (IsShutOut t) e' h
  opened-IsShutOut a u none (full, absent) b e = absurd (ground arith)

  admitted-IsShutOut :
      (a : TripCommandAdmission) (u : Option String)
      → IsShutOut t a
      → (b : TripCommandAdmission) → admit_trip a u ≡ ok b
      → IsShutOut t b
  unfolding admit_trip
  admitted-IsShutOut a none h b e = absurd (cc)
  admitted-IsShutOut a (some u) h b e =
      opened-IsShutOut a u (find_where (is_queue u) a.queues) h b (ground arith)

  offered-IsShutOut :
      (a : TripCommandAdmission) (u : String) (m : AuthenticatedMessage) (q : Option TripQueue)
      → IsShutOut t a
      → (b : TripCommandAdmission) → offer_queue a u m q ≡ ok b
      → IsShutOut t b
  unfolding offer_queue
  offered-IsShutOut a u m none h b e = absurd (cc)
  offered-IsShutOut a u m (some q) h b e =
      let e' : record a { queues = update_where (is_queue u) (push m) a.queues } ≡ b =
        ground arith in
      subst (IsShutOut t) e' (updated-IsShutOut a (is_queue u) (push m) (λ x. refl) h)

  after-IsShutOut :
      (a : TripCommandAdmission) (x : Result TripCommandAdmission)
      → IsShutOut t a
      → ((b : TripCommandAdmission) → x ≡ ok b → IsShutOut t b)
      → IsShutOut t (after a x)
  after-IsShutOut a (ok b) h f = f b refl
  after-IsShutOut a (err e) h f = h

  step-IsShutOut : (a : TripCommandAdmission) (s : Step) → IsShutOut t a → IsShutOut t (step a s)
  unfolding step
  step-IsShutOut a (admits u) h = after-IsShutOut a (admit_trip a u) h (admitted-IsShutOut a u h)
  step-IsShutOut a (offers u m) h =
      after-IsShutOut a (offer_queue a u m (find_where (is_queue u) a.queues)) h
        (offered-IsShutOut a u m (find_where (is_queue u) a.queues) h)
  step-IsShutOut a (receives u) h = updated-IsShutOut a (is_queue u) pop (λ q. refl) h
  step-IsShutOut a closes h = h

  run-IsShutOut :
      (a : TripCommandAdmission) (ss : List Step) → IsShutOut t a → IsShutOut t (run a ss)
  unfolding run
  run-IsShutOut a [] h = h
  run-IsShutOut a (s ∷ ss) h = run-IsShutOut (step a s) ss (step-IsShutOut a s h)

  -- Once as many trips as the limit have a queue, a trip that has none is refused for lack of capacity
  -- after every further history, even if the workers empty every queue, until the admission is
  -- closed: a queue is never given up.
  pub run-refuses :
      (a : TripCommandAdmission) (ss : List Step)
      → gateway_uuid t ≡ true
      → IsShutOut t a
      → (run a ss).closed ≡ false
      → admit_trip (run a ss) (some t) ≡ err connection_capacity
  unfolding admit_trip open_queue
  run-refuses a ss valid h running = let (full, absent) = run-IsShutOut a ss h in ground arith
