-- ===== src/MpiStream/Requests.antt =====
-- Waiting for and testing pending requests: src/backend/MpiStream.cpp. The MPI library stands for
-- itself: a call waits for the handles that it returns, in their order, and `test` says whether
-- `MPI_Test` finds a handle finished.
use casita.Prelude.{
  ℕ, Bool, true, false, ◌&&◌, Option, none, some, List, [], ◌∷◌, ◌++◌, ◌==◌, if◌then◌else◌, length,
}
use casita.Engine.Defs.{Result, ok, undefined, ◌>>=◌}
use casita.MpiStream.Defs.{
  MpiIcommRecord, RecordMap, MpiStream, null, Nodes, set_data, find_record, erase_record,
}
use casita.MpiStream.Handlers.{State}

unfoldable pub have_pending_mpi_requests : MpiStream → ℕ
have_pending_mpi_requests s = length s.mpi_icomm_records

-- `none` is NULL.
unfoldable pub get_pending_mpi_icomm_record : ℕ → MpiStream → Option MpiIcommRecord
unfolding find_record
get_pending_mpi_icomm_record request_id s = find_record request_id s.mpi_icomm_records

abbrev pub to_list : Option ℕ → List ℕ
to_list none = []
to_list (some handle) = handle ∷ []

-- The handles of a record that MPI_Wait is called for.
unfoldable pub handles : MpiIcommRecord → List ℕ
handles r = to_list r.request0 ++ to_list r.request1

-- The data of the node of the message becomes NULL.
unfoldable pub release : MpiIcommRecord → Nodes → Result Nodes
unfolding set_data
release r w = elim r.msg_node [ none ↦ undefined | some n ↦ ok (set_data n null w) ]

unfoldable pub wait_for_pending_mpi_request : ℕ → State → Result (Bool × List ℕ × State)
unfolding find_record erase_record handles release
wait_for_pending_mpi_request request_id (s, w) = elim (find_record request_id s.mpi_icomm_records) [
  | none ↦ ok (false, [], (s, w))
  | some r ↦ release r w >>= λ w'. ok (
    true,
    handles r,
    (record s { mpi_icomm_records = erase_record request_id s.mpi_icomm_records }, w'),
  )
]

unfoldable pub is_msg_of : ℕ → MpiIcommRecord → Bool
is_msg_of n r = elim r.msg_node [ none ↦ false | some m ↦ m == n ]

-- The records of one node are finished and removed.
unfoldable pub wait_records_of : ℕ → RecordMap → Nodes → List ℕ × RecordMap × Nodes
unfolding is_msg_of handles set_data
wait_records_of n [] w = ([], [], w)
wait_records_of n ((k, r) ∷ map) w =
    if is_msg_of n r
    then (let (waits, kept, w') = wait_records_of n map (set_data n null w) in
        (handles r ++ waits, kept, w'))
    else (let (waits, kept, w') = wait_records_of n map w in (waits, (k, r) ∷ kept, w'))

unfoldable pub wait_for_pending_mpi_requests : ℕ → State → List ℕ × State
unfolding wait_records_of
wait_for_pending_mpi_requests n (s, w) =
    let (waits, kept, w') = wait_records_of n s.mpi_icomm_records w in
    (waits, (record s { mpi_icomm_records = kept }, w'))

unfoldable pub wait_all_records : RecordMap → Nodes → Result (List ℕ × Nodes)
unfolding handles release
wait_all_records [] w = ok ([], w)
wait_all_records ((k, r) ∷ map) w =
    release r w >>= λ w'. wait_all_records map w' >>= λ rest. ok (handles r ++ rest.0, rest.1)

unfoldable pub wait_for_all_pending_mpi_requests : State → Result (List ℕ × State)
unfolding wait_all_records
wait_for_all_pending_mpi_requests (s, w) = wait_all_records s.mpi_icomm_records w >>= λ r.
    ok (r.0, (record s { mpi_icomm_records = [] }, r.1))

module _ (test : ℕ → Bool) where
  -- `finished` stays 0 for MPI_REQUEST_NULL.
  unfoldable pub is_finished : Option ℕ → Bool
  is_finished none = false
  is_finished (some handle) = test handle

  unfoldable pub drop_finished : Option ℕ → Option ℕ
  unfolding is_finished
  drop_finished request = if is_finished request then none else request

  unfoldable pub test_records : RecordMap → Nodes → Result (RecordMap × Nodes)
  unfolding is_finished drop_finished release
  test_records [] w = ok ([], w)
  test_records ((k, r) ∷ map) w =
      if is_finished r.request0 && is_finished r.request1
      then release r w >>= test_records map
      else test_records map w >>= λ rest. ok (
        (k, record r { request0 = drop_finished r.request0; request1 = drop_finished r.request1 })
            ∷ rest.0,
        rest.1,
      )

  unfoldable pub test_all_pending_mpi_requests : State → Result State
  unfolding test_records
  test_all_pending_mpi_requests (s, w) =
      test_records s.mpi_icomm_records w >>= λ r. ok (record s { mpi_icomm_records = r.0 }, r.1)
