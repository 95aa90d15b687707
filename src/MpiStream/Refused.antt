-- ===== src/MpiStream/Refused.antt =====
-- A send whose leave is refused: src/backend/MpiStream.cpp.
use casita.Prelude.{ℕ, ◌≡◌, refl, ◌∙◌, true, ◌||◌, some, none, ◌==◌, arith}
use casita.Edge.Defs.{u64_max}
use casita.Engine.Defs.{undefined}
use casita.MpiStream.Defs.{MpiStream, Nodes, find_record}
use casita.MpiStream.Handlers.{
  State, new_record, handle_mpi_irecv, handle_mpi_isend, handle_mpi_isend_leave,
  remove_pending_mpi_request,
}
use casita.MpiStream.Requests.{wait_for_pending_mpi_request, release}
use casita.MpiStream.Maps.{find_record-put_record}

-- MPI_Isend to an unknown partner, and its leave.
abbrev pub send_to_nobody : ℕ → ℕ → ℕ → ℕ → State → State
send_to_nobody k comm tag n (s, w) =
    handle_mpi_isend_leave n (handle_mpi_isend k u64_max comm tag s, w)

record-left :
    (k comm tag n : ℕ) (s : MpiStream) (w : Nodes)
    → find_record k ((send_to_nobody k comm tag n (s, w)).0).mpi_icomm_records
      ≡ some (new_record k (some comm) (some tag) none)
unfolding handle_mpi_isend_leave handle_mpi_isend
record-left k comm tag n s w =
    let u : (k == u64_max || u64_max == u64_max) ≡ true = ground arith in
    rw u (
      find_record-put_record k k (new_record k (some comm) (some tag) none) s.mpi_icomm_records
      ∙ ground arith)

-- After an MPI_Isend whose partner is 2^64 - 1, which stands for none, its leave leaves a record with
-- a NULL node, in any state and for any request. Each call that then receives, removes or waits for
-- the request dereferences that pointer.
pub send_to_nobody-undefined :
    (k comm tag n partner comm' tag' : ℕ) (st : State)
    → (handle_mpi_irecv k partner comm' tag' (send_to_nobody k comm tag n st) ≡ undefined)
      × (remove_pending_mpi_request k (send_to_nobody k comm tag n st) ≡ undefined)
      × (wait_for_pending_mpi_request k (send_to_nobody k comm tag n st) ≡ undefined)
unfolding handle_mpi_irecv remove_pending_mpi_request wait_for_pending_mpi_request release
send_to_nobody-undefined k comm tag n partner comm' tag' (s, w) =
    let e = record-left k comm tag n s w in
    (
      rw (e, handle_mpi_irecv) refl,
      rw (e, remove_pending_mpi_request) refl,
      rw (e, wait_for_pending_mpi_request, release) refl,
    )
