-- ===== src/Admission.antt =====
-- TripCommandAdmission of backend/internal/gateway/trip_admission.go. Submit is two steps, the part
-- under the mutex and the send on the channel, so that a history can interleave them with the workers
-- and with other calls. The handler is code of the caller.
pub mod Capacity
mod Tests
use live_route.Base.{
  ℕ, String, Bool, true, false, ◌&&◌, not, Option, none, some, List, [], ◌∷◌, ◌++◌, ltb, leb, same,
  length,
}
use live_route.Base.Table.{find_where, update_where}
use live_route.Base.Result.{
  Result, ok, err, ◌>>=◌, ◌>>◌, guard, admission_invalid, admission_closed, connection_capacity,
}
use live_route.Uuid.Gateway.{gateway_uuid}

-- A message; its trip_id is none when it is absent or no text.
pub record AuthenticatedMessage : Type 0 where
  pub trip_id : Option String
  pub body : String

pub record TripQueue : Type 0 where
  pub trip_id : String
  pub items : List AuthenticatedMessage

pub record TripCommandAdmission : Type 0 where
  pub closed : Bool
  pub capacity : ℕ
  pub max_trips : ℕ
  pub queues : List TripQueue

abbrev pub is_queue : String → TripQueue → Bool
is_queue trip_id q = same q.trip_id trip_id

abbrev pub empty_queue : String → TripQueue
empty_queue trip_id = record { trip_id = trip_id; items = [] }

-- The map lookup, and the new queue when there is none.
pub open_queue : TripCommandAdmission → String → Option TripQueue → Result TripCommandAdmission
open_queue a trip_id (some q) = ok a
open_queue a trip_id none = do
  guard (not (leb a.max_trips (length a.queues))) connection_capacity
  ok (record a { queues = a.queues ++ empty_queue trip_id ∷ [] })

-- Submit up to the unlock of the mutex, with the trip of the message.
pub admit_trip : TripCommandAdmission → Option String → Result TripCommandAdmission
unfolding open_queue
admit_trip a none = err admission_invalid
admit_trip a (some trip_id) = do
  guard (gateway_uuid trip_id) admission_invalid
  guard (not a.closed) admission_closed
  open_queue a trip_id (find_where (is_queue trip_id) a.queues)

abbrev pub push : AuthenticatedMessage → TripQueue → TripQueue
push m q = record q { items = q.items ++ m ∷ [] }

-- The send that does not block. The default case is an error.
pub offer_queue :
    TripCommandAdmission
    → String
    → AuthenticatedMessage
    → Option TripQueue
    → Result TripCommandAdmission
offer_queue a trip_id m none = err admission_invalid
offer_queue a trip_id m (some q) = do
  guard (ltb (length q.items) a.capacity) connection_capacity
  ok (record a { queues = update_where (is_queue trip_id) (push m) a.queues })

abbrev tail : List AuthenticatedMessage → List AuthenticatedMessage
tail [] = []
tail (m ∷ ms) = ms

abbrev pub pop : TripQueue → TripQueue
pop q = record q { items = tail q.items }

-- A step of the gateway: the two parts of Submit, a worker that receives, and Close.
pub data Step : Type 0 where
  admits : Option String → Step
  offers : String → AuthenticatedMessage → Step
  receives : String → Step
  closes : Step

abbrev pub after : TripCommandAdmission → Result TripCommandAdmission → TripCommandAdmission
after a (ok b) = b
after a (err e) = a

unfoldable pub step : TripCommandAdmission → Step → TripCommandAdmission
unfolding admit_trip offer_queue
step a (admits trip_id) = after a (admit_trip a trip_id)
step a (offers trip_id m) =
    after a (offer_queue a trip_id m (find_where (is_queue trip_id) a.queues))
step a (receives trip_id) = record a { queues = update_where (is_queue trip_id) pop a.queues }
step a closes = record a { closed = true }

unfoldable pub run : TripCommandAdmission → List Step → TripCommandAdmission
unfolding step
run a [] = a
run a (s ∷ ss) = run (step a s) ss
