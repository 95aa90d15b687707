-- ===== src/MpiStream/Reached.antt =====
-- The states that the calls of src/backend/MpiStream.cpp reach, in any order.
use casita.Prelude.{ℕ, ◌≡◌, ◌≢◌, ◌⊎◌, Bool, Option, some, List, [], ◌∷◌, String}
use casita.Edge.Defs.{u64_max}
use casita.Engine.Defs.{ok}
use casita.MpiStream.Defs.{
  MpiIcommRecord, MpiType, MpiBlockingCommData, MpiStream, Nodes, new_mpi_stream, reset,
  set_pending_mpi_record, get_pending_mpi_records, find_record, put_record,
}
use casita.MpiStream.Handlers.{
  State, handle_mpi_irecv, handle_mpi_irecv_request, handle_mpi_irecv_leave, handle_mpi_isend,
  handle_mpi_isend_leave, handle_mpi_isend_complete, handle_mpi_wait_leave,
  set_mpi_waitall_node_data, handle_mpi_test, remove_pending_mpi_request, handle_mpi_testall,
}
use casita.MpiStream.Requests.{
  wait_for_pending_mpi_request, wait_for_pending_mpi_requests, wait_for_all_pending_mpi_requests,
  test_all_pending_mpi_requests,
}
use casita.MpiStream.Kept.{close}

-- The calls come in any order, with any arguments; rules also store the handles of the requests that
-- they start in a record. The list holds the requests of open sends: the record of an MPI_Isend opens
-- its send. A leave that is not refused closes the request that is pending; it is refused if no
-- request is pending or, for MPI_Isend, no partner is known.
pub data Reached : List ℕ → State → Type 0 where
  start :
      (id parent_id : ℕ) (name : String) (comm : MpiBlockingCommData) (w : Nodes)
      → Reached [] (new_mpi_stream id parent_id name comm, w)
  requested :
      (k : ℕ) {live : List ℕ} (s : MpiStream) (w : Nodes)
      → Reached live (s, w)
      → Reached live (handle_mpi_irecv_request k s, w)
  receive_left :
      (n : ℕ) {live : List ℕ} (s : MpiStream) (w : Nodes)
      → s.pending_mpi_request_id ≢ u64_max
      → Reached live (s, w)
      → Reached (close s.pending_mpi_request_id live) (handle_mpi_irecv_leave n (s, w))
  receive_refused :
      (n : ℕ) {live : List ℕ} (s : MpiStream) (w : Nodes)
      → s.pending_mpi_request_id ≡ u64_max
      → Reached live (s, w)
      → Reached live (handle_mpi_irecv_leave n (s, w))
  send :
      (k partner comm tag : ℕ) {live : List ℕ} (s : MpiStream) (w : Nodes)
      → Reached live (s, w)
      → Reached (k ∷ live) (handle_mpi_isend k partner comm tag s, w)
  send_left :
      (n : ℕ) {live : List ℕ} (s : MpiStream) (w : Nodes)
      → s.pending_mpi_request_id ≢ u64_max
      → s.mpi_isend_partner ≢ u64_max
      → Reached live (s, w)
      → Reached (close s.pending_mpi_request_id live) (handle_mpi_isend_leave n (s, w))
  send_refused :
      (n : ℕ) {live : List ℕ} (s : MpiStream) (w : Nodes)
      → (s.pending_mpi_request_id ≡ u64_max) ⊎ (s.mpi_isend_partner ≡ u64_max)
      → Reached live (s, w)
      → Reached live (handle_mpi_isend_leave n (s, w))
  started :
      (k : ℕ) (r : MpiIcommRecord) (h0 h1 : Option ℕ) {live : List ℕ} (s : MpiStream) (w : Nodes)
      → find_record k s.mpi_icomm_records ≡ some r
      → Reached live (s, w)
      → Reached live (
        record s {
          mpi_icomm_records =
              put_record k (record r { request0 = h0; request1 = h1 }) s.mpi_icomm_records;
        },
        w,
      )
  received :
      (k partner comm tag : ℕ) {live : List ℕ} (st st' : State)
      → handle_mpi_irecv k partner comm tag st ≡ ok st'
      → Reached live st
      → Reached live st'
  sent :
      (k : ℕ) {live : List ℕ} (s : MpiStream) (w : Nodes)
      → Reached live (s, w)
      → Reached live (handle_mpi_isend_complete k s, w)
  waited :
      (n : ℕ) {live : List ℕ} (st st' : State)
      → handle_mpi_wait_leave n st ≡ ok st'
      → Reached live st
      → Reached live st'
  waited_all :
      (n : ℕ) {live : List ℕ} (st st' : State)
      → set_mpi_waitall_node_data n st ≡ ok st'
      → Reached live st
      → Reached live st'
  tried :
      (n : ℕ) {live : List ℕ} (st st' : State)
      → handle_mpi_test n st ≡ ok st'
      → Reached live st
      → Reached live st'
  tried_all :
      (n : ℕ) {live : List ℕ} (st st' : State)
      → handle_mpi_testall n st ≡ ok st'
      → Reached live st
      → Reached live st'
  removed :
      (k : ℕ) {live : List ℕ} (st st' : State)
      → remove_pending_mpi_request k st ≡ ok st'
      → Reached live st
      → Reached live st'
  finished :
      (k : ℕ) (found : Bool) (hs : List ℕ) {live : List ℕ} (st st' : State)
      → wait_for_pending_mpi_request k st ≡ ok (found, hs, st')
      → Reached live st
      → Reached live st'
  finished_of :
      (n : ℕ) {live : List ℕ} (st : State)
      → Reached live st
      → Reached live (wait_for_pending_mpi_requests n st).1
  finished_all :
      (hs : List ℕ) {live : List ℕ} (st st' : State)
      → wait_for_all_pending_mpi_requests st ≡ ok (hs, st')
      → Reached live st
      → Reached [] st'
  tested_all :
      (test : ℕ → Bool) {live : List ℕ} (st st' : State)
      → test_all_pending_mpi_requests test st ≡ ok st'
      → Reached live st
      → Reached live st'
  recorded :
      (type : MpiType) (partner root tag : ℕ) {live : List ℕ} (s s' : MpiStream) (w : Nodes)
      → set_pending_mpi_record type partner root tag s ≡ ok s'
      → Reached live (s, w)
      → Reached live (s', w)
  taken :
      {live : List ℕ} (s : MpiStream) (w : Nodes)
      → Reached live (s, w)
      → Reached live ((get_pending_mpi_records s).1, w)
  cleared :
      {live : List ℕ} (s : MpiStream) (w : Nodes) → Reached live (s, w) → Reached [] (reset s, w)
