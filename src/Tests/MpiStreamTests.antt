-- ===== src/Tests/MpiStreamTests.antt =====
-- Requests of an MPI stream: src/backend/MpiStream.cpp.
use casita.Prelude.{ℕ, ◌≡◌, ◌≢◌, refl, inl, Bool, true, none, some, [], ◌∷◌, ◌==◌, arith}
use casita.Edge.Defs.{u64_max}
use casita.Engine.Defs.{ok, undefined}
use casita.Engine.Outcomes.{Returns}
use casita.MpiStream.Defs.{
  MpiBlockingCommData, MpiStream, Nodes, null, new_mpi_stream, find_record, put_record,
}
use casita.MpiStream.Handlers.{
  State, new_record, handle_mpi_irecv, handle_mpi_irecv_request, handle_mpi_irecv_leave,
  handle_mpi_isend, handle_mpi_testall, remove_pending_mpi_request,
}
use casita.MpiStream.Requests.{
  wait_for_pending_mpi_request, wait_for_all_pending_mpi_requests, test_all_pending_mpi_requests,
}
use casita.MpiStream.Lifecycle.{
  IsDone, receive_and_wait, send_and_wait, receive_and_wait-IsDone, send_and_wait-IsDone,
}
use casita.MpiStream.Tracked.{IsTracked}
use casita.MpiStream.Finished.{all_handles, NoData, wait_for_all_pending_mpi_requests-waits}
use casita.MpiStream.Kept.{IsKept, Kept-Tracked}
use casita.MpiStream.Reached.{Reached, start, requested, receive_left, send}
use casita.MpiStream.ReachedLaws.{Reached-Kept}
use casita.MpiStream.Returning.{Reached-Returns, Reached-Returns_all}
use casita.MpiStream.Refused.{send_to_nobody, send_to_nobody-undefined}
use casita.MpiStream.HalfDone.{HalfDone, test_repeatedly, test_repeatedly-HalfDone}
use casita.MpiStream.TestAll.{Removed, handle_mpi_testall-Removed}
use casita.Tests.Data.{send_enter, send_leave}

abbrev pub no_comm : MpiBlockingCommData
no_comm = record {
  com_ref = 0;
  send_partner_id = 0;
  recv_partner_id = 0;
  send_tag = 0;
  recv_tag = 0;
}

abbrev nodes : Nodes
nodes = record {
  node = λ k. send_leave;
  node_data = λ k. null;
  pairs = λ k. record { first = some send_enter; second = some send_leave };
}

abbrev rank0 : MpiStream
rank0 = new_mpi_stream 0 0 "rank 0" no_comm

valid_request : 5 ≢ u64_max
valid_request h = omega (arith, h)

receive_and_wait-IsDone_example :
    (st : State) × (receive_and_wait 5 1 0 17 2 4 (rank0, nodes) ≡ ok st)
    × IsDone 5 1 0 17 2 4 (rank0, nodes) st
unfolding new_mpi_stream
receive_and_wait-IsDone_example =
    receive_and_wait-IsDone 5 1 0 17 2 4 (rank0, nodes) valid_request refl

send_and_wait-IsDone_example :
    (st : State) × (send_and_wait 5 1 0 17 2 4 (rank0, nodes) ≡ ok st)
    × IsDone 5 1 0 17 2 4 (rank0, nodes) st
unfolding new_mpi_stream
send_and_wait-IsDone_example =
    send_and_wait-IsDone 5 1 0 17 2 4 (rank0, nodes) valid_request (λ h. omega (arith, h)) refl

-- After MPI_Irecv with the request 5.
abbrev receiving : State
receiving = handle_mpi_irecv_leave 2 (handle_mpi_irecv_request 5 rank0, nodes)

receiving-Reached : Reached [] receiving
unfolding new_mpi_stream handle_mpi_irecv_request
receiving-Reached =
    receive_left 2 (handle_mpi_irecv_request 5 rank0) nodes valid_request
      (requested 5 rank0 nodes (start 0 0 "rank 0" no_comm nodes))

receiving-IsTracked : IsTracked receiving
receiving-IsTracked =
    Kept-Tracked (receiving.0).mpi_icomm_records (Reached-Kept [] receiving receiving-Reached)

-- The send of request 6 is open.
abbrev sending : State
sending = (handle_mpi_isend 6 1 0 17 (receiving.0), receiving.1)

sending-Reached : Reached (6 ∷ []) sending
sending-Reached = send 6 1 0 17 (receiving.0) (receiving.1) receiving-Reached

Reached-Kept_example : IsKept (6 ∷ []) sending
Reached-Kept_example = Reached-Kept (6 ∷ []) sending sending-Reached

Reached-Returns_example :
    Returns (IsKept (6 ∷ [])) (handle_mpi_irecv 5 1 0 17 sending)
    × Returns (IsKept (6 ∷ [])) (remove_pending_mpi_request 5 sending)
    × Returns (λ x. IsKept (6 ∷ []) x.2) (wait_for_pending_mpi_request 5 sending)
Reached-Returns_example = Reached-Returns (6 ∷ []) sending 5 1 0 17 sending-Reached refl

Reached-Returns_all_example :
    Returns IsTracked (test_all_pending_mpi_requests (λ h. true) receiving)
    × Returns (λ x. (x.1.0).mpi_icomm_records ≡ []) (wait_for_all_pending_mpi_requests receiving)
Reached-Returns_all_example = Reached-Returns_all receiving (λ h. true) receiving-Reached

send_to_nobody-undefined_example :
    (handle_mpi_irecv 6 1 0 17 (send_to_nobody 6 0 17 2 (rank0, nodes)) ≡ undefined)
    × (remove_pending_mpi_request 6 (send_to_nobody 6 0 17 2 (rank0, nodes)) ≡ undefined)
    × (wait_for_pending_mpi_request 6 (send_to_nobody 6 0 17 2 (rank0, nodes)) ≡ undefined)
send_to_nobody-undefined_example = send_to_nobody-undefined 6 0 17 2 1 0 17 (rank0, nodes)

wait_for_all_pending_mpi_requests-waits_example :
    Returns
      (λ x.
        (x.0 ≡ all_handles (receiving.0).mpi_icomm_records)
        × ((x.1.0).mpi_icomm_records ≡ [])
        × NoData (receiving.0).mpi_icomm_records x.1.1)
      (wait_for_all_pending_mpi_requests receiving)
wait_for_all_pending_mpi_requests-waits_example =
    wait_for_all_pending_mpi_requests-waits receiving receiving-IsTracked

abbrev is_even : ℕ → Bool
is_even h = h == 8

test_repeatedly-HalfDone_example :
    Returns (HalfDone 5) (test_repeatedly (is_even ∷ is_even ∷ []) receiving)
unfolding put_record find_record handle_mpi_irecv_leave handle_mpi_irecv_request new_mpi_stream
test_repeatedly-HalfDone_example =
    test_repeatedly-HalfDone (is_even ∷ is_even ∷ []) 5 receiving receiving-IsTracked
      (new_record 5 none none (some 2), refl, inl refl)

abbrev completed : State
completed = (record (receiving.0) { pending_requests = 5 ∷ [] }, receiving.1)

handle_mpi_testall-Removed_example :
    Returns
      (λ st. Removed (5 ∷ []) completed st × ((st.0).pending_requests ≡ []))
      (handle_mpi_testall 4 completed)
handle_mpi_testall-Removed_example =
    handle_mpi_testall-Removed 4 completed receiving-IsTracked (λ h. cc)
