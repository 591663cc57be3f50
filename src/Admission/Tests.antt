-- ===== src/Admission/Tests.antt =====
-- An admission with room for one trip.
use live_route.Base.{◌≡◌, refl, false, some, List, [], ◌∷◌, arith, string_discrete}
use live_route.Base.Table.{find_where, update_where}
use live_route.Base.Result.{err, connection_capacity}
use live_route.Uuid.Gateway.{gateway_uuid, without_hyphens, hex_decode, hex_digit, is_lower}
use live_route.Admission.{
  TripCommandAdmission, AuthenticatedMessage, Step, offers, receives, admit_trip, offer_queue, step,
  run,
}
use live_route.Admission.Capacity.{run-refuses}

abbrev message : AuthenticatedMessage
message = record { trip_id = some "0197f3a2-0000-4000-8000-00000000000a"; body = "{}" }

abbrev full : TripCommandAdmission
full = record {
  closed = false;
  capacity = 2;
  max_trips = 1;
  queues = record { trip_id = "0197f3a2-0000-4000-8000-00000000000a"; items = [] } ∷ [];
}

abbrev history : List Step
history =
    offers "0197f3a2-0000-4000-8000-00000000000a" message
    ∷ receives "0197f3a2-0000-4000-8000-00000000000a"
    ∷ []

run-refuses_example :
    admit_trip (run full history) (some "0197f3a2-0000-4000-8000-00000000000b")
    ≡ err connection_capacity
unfolding gateway_uuid without_hyphens hex_decode hex_digit is_lower find_where run step offer_queue
    update_where string_discrete
run-refuses_example =
    run-refuses "0197f3a2-0000-4000-8000-00000000000b" full history refl (omega arith, refl) refl
