-- ===== src/MpiStream/KeptCalls.antt =====
-- The handlers keep the form of the table: src/backend/MpiStream.cpp.
use casita.Prelude.{ℕ, refl, inl, inr, List, [], ◌∷◌, Option-cases, List-cases}
use casita.Engine.Defs.{Result, ok, raised, undefined}
use casita.Engine.Outcomes.{Holds, Holds-bind}
use casita.MpiStream.Defs.{MpiStream, Nodes, charge_waiting, find_record}
use casita.MpiStream.Handlers.{
  State, handle_mpi_irecv, with_nodes, handle_mpi_wait_leave, set_mpi_waitall_node_data,
  handle_mpi_test, remove_pending_mpi_request, remove_all, handle_mpi_testall,
}
use casita.MpiStream.Requests.{wait_for_pending_mpi_request, release}
use casita.MpiStream.Kept.{Kept, IsKept, found-Kept, erase_record-Kept}

module _ (live : List ℕ) where
  pub irecv-Kept :
      (k partner comm tag : ℕ) (st : State)
      → IsKept live st
      → Holds (IsKept live) (handle_mpi_irecv k partner comm tag st)
  unfolding handle_mpi_irecv
  irecv-Kept k partner comm tag (s, w) t = elim (Option-cases (find_record k s.mpi_icomm_records)) [
    | inl e ↦ rw (e, handle_mpi_irecv) t
    | inr (r, e) ↦ elim (Option-cases r.msg_node) [
      | inl f ↦ rw (e, handle_mpi_irecv, f) tt
      | inr (n, f) ↦
          rw (e, handle_mpi_irecv, f) (found-Kept live k r _ s.mpi_icomm_records t e refl refl)
    ]
  ]

  with_nodes-Kept :
      (s : MpiStream) (r : Result Nodes)
      → Kept live s.mpi_icomm_records
      → Holds (IsKept live) (with_nodes s r)
  unfolding with_nodes
  with_nodes-Kept s (ok w) t = t
  with_nodes-Kept s raised t = tt
  with_nodes-Kept s undefined t = tt

  pub wait_leave-Kept :
      (n : ℕ) (st : State) → IsKept live st → Holds (IsKept live) (handle_mpi_wait_leave n st)
  unfolding handle_mpi_wait_leave
  wait_leave-Kept n (s, w) t = elim (List-cases s.pending_requests) [
    | inl p ↦ rw (p, handle_mpi_wait_leave) (with_nodes-Kept s (charge_waiting n w) t)
    | inr (k, rest, p) ↦ elim (List-cases rest) [
      | inr (j, others, q) ↦ rw (p, q, handle_mpi_wait_leave) t
      | inl q ↦ elim (Option-cases (find_record k s.mpi_icomm_records)) [
        | inl e ↦ rw (p, q, e, handle_mpi_wait_leave) t
        | inr (r, e) ↦
            rw (p, q, e, handle_mpi_wait_leave)
              (found-Kept live k r _ s.mpi_icomm_records t e refl refl)
      ]
    ]
  ]

  pub test-Kept : (n : ℕ) (st : State) → IsKept live st → Holds (IsKept live) (handle_mpi_test n st)
  unfolding handle_mpi_test
  test-Kept n (s, w) t = elim (List-cases s.pending_requests) [
    | inl p ↦ rw (p, handle_mpi_test) (with_nodes-Kept s (charge_waiting n w) t)
    | inr (k, rest, p) ↦ elim (List-cases rest) [
      | inr (j, others, q) ↦
          rw (p, q, handle_mpi_test) (erase_record-Kept live k s.mpi_icomm_records t)
      | inl q ↦ elim (Option-cases (find_record k s.mpi_icomm_records)) [
        | inl e ↦ rw (p, q, e, handle_mpi_test) t
        | inr (r, e) ↦
            rw (p, q, e, handle_mpi_test) (found-Kept live k r _ s.mpi_icomm_records t e refl refl)
      ]
    ]
  ]

  pub waitall-Kept :
      (n : ℕ) (st : State) → IsKept live st → Holds (IsKept live) (set_mpi_waitall_node_data n st)
  unfolding set_mpi_waitall_node_data
  waitall-Kept n (s, w) t = elim (List-cases s.pending_requests) [
    | inl p ↦ rw (p, set_mpi_waitall_node_data) (with_nodes-Kept s _ t)
    | inr (k, rest, p) ↦ rw (p, set_mpi_waitall_node_data) t
  ]

  pub remove-Kept :
      (k : ℕ) (st : State) → IsKept live st → Holds (IsKept live) (remove_pending_mpi_request k st)
  unfolding remove_pending_mpi_request
  remove-Kept k (s, w) t = elim (Option-cases (find_record k s.mpi_icomm_records)) [
    | inl e ↦ rw (e, remove_pending_mpi_request) t
    | inr (r, e) ↦ elim (Option-cases r.msg_node) [
      | inl f ↦ rw (e, remove_pending_mpi_request, f) tt
      | inr (n, f) ↦
          rw (e, remove_pending_mpi_request, f) (erase_record-Kept live k s.mpi_icomm_records t)
    ]
  ]

  remove_all-Kept :
      (ks : List ℕ) (st : State) → IsKept live st → Holds (IsKept live) (remove_all ks st)
  unfolding remove_all
  remove_all-Kept [] st t = t
  remove_all-Kept (k ∷ ks) st t =
      Holds-bind (IsKept live) (IsKept live) (remove_pending_mpi_request k st) (remove_all ks)
        (remove-Kept k st t) (λ st' t'. remove_all-Kept ks st' t')

  pub testall-Kept :
      (n : ℕ) (st : State) → IsKept live st → Holds (IsKept live) (handle_mpi_testall n st)
  unfolding handle_mpi_testall
  testall-Kept n (s, w) t = elim (List-cases s.pending_requests) [
    | inl p ↦ rw (p, handle_mpi_testall) (with_nodes-Kept s (charge_waiting n w) t)
    | inr (k, rest, p) ↦
        rw (p, handle_mpi_testall)
          (Holds-bind (IsKept live) (IsKept live) (remove_all (k ∷ rest) (s, w)) _
            (remove_all-Kept (k ∷ rest) (s, w) t) (λ st' t'. t'))
  ]

  pub finished-Kept :
      (k : ℕ) (st : State)
      → IsKept live st
      → Holds (λ x. IsKept live x.2) (wait_for_pending_mpi_request k st)
  unfolding wait_for_pending_mpi_request release
  finished-Kept k (s, w) t = elim (Option-cases (find_record k s.mpi_icomm_records)) [
    | inl e ↦ rw (e, wait_for_pending_mpi_request) t
    | inr (r, e) ↦ elim (Option-cases r.msg_node) [
      | inl f ↦ rw (e, wait_for_pending_mpi_request, release, f) tt
      | inr (n, f) ↦
          rw (e, wait_for_pending_mpi_request, release, f)
            (erase_record-Kept live k s.mpi_icomm_records t)
    ]
  ]
