-- ===== src/MpiStream/Handlers.antt =====
-- The handlers of MPI events: src/backend/MpiStream.cpp.
use casita.Prelude.{ℕ, ◌||◌, Option, none, some, List, [], ◌∷◌, ◌++◌, ◌==◌, if◌then◌else◌}
use casita.Edge.Defs.{u64_max}
use casita.Engine.Defs.{Result, ok, undefined, ◌>>=◌}
use casita.MpiStream.Defs.{
  MpiIcommRecord, MpiStream, null, icomm_record, request_list, Nodes, set_data, set_referenced,
  charge_waiting, find_record, put_record, erase_record,
}

abbrev pub State : Type 0
State = MpiStream × Nodes

unfoldable pub handle_mpi_irecv_request : ℕ → MpiStream → MpiStream
handle_mpi_irecv_request request_id s = record s { pending_mpi_request_id = request_id }

-- A record of a request that no message has yet.
abbrev pub new_record : ℕ → Option ℕ → Option ℕ → Option ℕ → MpiIcommRecord
new_record request_id comm tag node = record {
  com_ref = comm;
  msg_tag = tag;
  request_id = request_id;
  request0 = none;
  request1 = none;
  msg_node = node;
  sync_node = none;
}

unfoldable pub handle_mpi_irecv_leave : ℕ → State → State
unfolding set_data put_record
handle_mpi_irecv_leave n (s, w) =
    let k = s.pending_mpi_request_id in
    if k == u64_max then (s, set_data n null w) else (
      record s {
        mpi_icomm_records = put_record k (new_record k none none (some n)) s.mpi_icomm_records;
        pending_mpi_request_id = u64_max;
      },
      set_data n (icomm_record k) w,
    )

-- A request without a record is ignored. A record without a node is a NULL pointer.
unfoldable pub handle_mpi_irecv : ℕ → ℕ → ℕ → ℕ → State → Result State
unfolding find_record put_record set_referenced
handle_mpi_irecv request_id partner_id comm tag (s, w) =
    elim (find_record request_id s.mpi_icomm_records) [
      | none ↦ ok (s, w)
      | some r ↦ elim r.msg_node [
        | none ↦ undefined
        | some n ↦ ok (
          record s {
            pending_requests = s.pending_requests ++ request_id ∷ [];
            mpi_icomm_records =
                put_record request_id (record r { com_ref = some comm; msg_tag = some tag })
                  s.mpi_icomm_records;
          },
          set_referenced n partner_id w,
        )
      ]
    ]

unfoldable pub handle_mpi_isend : ℕ → ℕ → ℕ → ℕ → MpiStream → MpiStream
unfolding put_record
handle_mpi_isend request_id partner_id comm tag s = record s {
  pending_mpi_request_id = request_id;
  mpi_isend_partner = partner_id;
  mpi_icomm_records =
      put_record request_id (new_record request_id (some comm) (some tag) none) s.mpi_icomm_records;
}

unfoldable pub handle_mpi_isend_leave : ℕ → State → State
unfolding find_record put_record set_data set_referenced
handle_mpi_isend_leave n (s, w) =
    let k = s.pending_mpi_request_id in
    if k == u64_max || s.mpi_isend_partner == u64_max
    then (s, set_data n null w)
    else elim (find_record k s.mpi_icomm_records) [
      | none ↦ (s, set_data n null w)
      | some r ↦ (
        record s {
          mpi_icomm_records = put_record k (record r { msg_node = some n }) s.mpi_icomm_records;
          pending_mpi_request_id = u64_max;
          mpi_isend_partner = u64_max;
        },
        set_referenced n s.mpi_isend_partner (set_data n (icomm_record k) w),
      )
    ]

unfoldable pub handle_mpi_isend_complete : ℕ → MpiStream → MpiStream
handle_mpi_isend_complete request_id s = record s {
  pending_requests = s.pending_requests ++ request_id ∷ [];
}

-- The result of a call that changes the stream and the nodes.
unfoldable pub with_nodes : MpiStream → Result Nodes → Result State
with_nodes s r = r >>= λ w. ok (s, w)

-- One pending request gets the node; none is unnecessary waiting; of several the first is dropped.
unfoldable pub handle_mpi_wait_leave : ℕ → State → Result State
unfolding find_record put_record set_data charge_waiting with_nodes
handle_mpi_wait_leave n (s, w) = elim s.pending_requests [
  | [] ↦ with_nodes s (charge_waiting n w)
  | k ∷ rest ↦ elim rest [
    | [] ↦ elim (find_record k s.mpi_icomm_records) [
      | none ↦ ok (s, w)
      | some r ↦ ok (
        record s {
          mpi_icomm_records = put_record k (record r { sync_node = some n }) s.mpi_icomm_records;
          pending_requests = [];
        },
        set_data n (icomm_record k) w,
      )
    ]
    | j ∷ others ↦ ok (record s { pending_requests = j ∷ others }, w)
  ]
]

unfoldable pub set_mpi_waitall_node_data : ℕ → State → Result State
unfolding set_data charge_waiting with_nodes
set_mpi_waitall_node_data n (s, w) = elim s.pending_requests [
  | [] ↦ with_nodes s (charge_waiting n w >>= λ w'. ok (set_data n null w'))
  | k ∷ rest ↦ ok (record s { pending_requests = [] }, set_data n (request_list (k ∷ rest)) w)
]

unfoldable pub handle_mpi_test : ℕ → State → Result State
unfolding find_record put_record erase_record charge_waiting with_nodes
handle_mpi_test n (s, w) = elim s.pending_requests [
  | [] ↦ with_nodes s (charge_waiting n w)
  | k ∷ rest ↦ elim rest [
    | [] ↦ elim (find_record k s.mpi_icomm_records) [
      | none ↦ ok (s, w)
      | some r ↦ ok (
        record s {
          mpi_icomm_records = put_record k (record r { sync_node = some n }) s.mpi_icomm_records;
          pending_requests = [];
        },
        w,
      )
    ]
    | j ∷ others ↦ ok (
      record s {
        mpi_icomm_records = erase_record k s.mpi_icomm_records;
        pending_requests = j ∷ others;
      },
      w,
    )
  ]
]

-- `removePendingMPIRequest`.
unfoldable pub remove_pending_mpi_request : ℕ → State → Result State
unfolding find_record erase_record set_data
remove_pending_mpi_request request_id (s, w) = elim (find_record request_id s.mpi_icomm_records) [
  | none ↦ ok (s, w)
  | some r ↦ elim r.msg_node [
    | none ↦ undefined
    | some n ↦ ok (
      record s { mpi_icomm_records = erase_record request_id s.mpi_icomm_records },
      set_data n null w,
    )
  ]
]

unfoldable pub remove_all : List ℕ → State → Result State
unfolding remove_pending_mpi_request
remove_all [] st = ok st
remove_all (k ∷ rest) st = remove_pending_mpi_request k st >>= remove_all rest

unfoldable pub handle_mpi_testall : ℕ → State → Result State
unfolding remove_all charge_waiting with_nodes
handle_mpi_testall n (s, w) = elim s.pending_requests [
  | [] ↦ with_nodes s (charge_waiting n w)
  | k ∷ rest ↦
      remove_all (k ∷ rest) (s, w) >>= λ st. ok (record (st.0) { pending_requests = [] }, st.1)
]
