-- ===== src/MpiStream/ReachedLaws.antt =====
-- What holds of the states that the calls of src/backend/MpiStream.cpp reach.
use casita.Prelude.{
  ℕ, ◌≡◌, ◌≢◌, refl, sym, subst, ◌∙◌, ◌⊎◌, inl, inr, true, false, ◌||◌, none, some, List, [], ◌∷◌,
  ◌==◌, arith, Option-cases, some-injective,
}
use casita.Edge.Defs.{u64_max}
use casita.Engine.Outcomes.{Holds, Holds-any, Holds-bind, Holds-ok}
use casita.MpiStream.Defs.{
  MpiIcommRecord, MpiType, mpi_send, mpi_recv, mpi_collective, mpi_sendrecv, MpiStream, Nodes,
  new_mpi_stream, reset, set_pending_mpi_record, get_pending_mpi_records, find_record, put_record,
}
use casita.MpiStream.Handlers.{
  State, new_record, handle_mpi_irecv_request, handle_mpi_irecv_leave, handle_mpi_isend,
  handle_mpi_isend_leave, handle_mpi_isend_complete,
}
use casita.MpiStream.Requests.{wait_for_all_pending_mpi_requests, wait_all_records}
use casita.MpiStream.Maps.{find_record-put_record}
use casita.MpiStream.Tracked.{HasMsg, All-find}
use casita.MpiStream.Kept.{
  close, Kept, IsKept, nil-Kept, put_record-Kept, found-Kept, more-Kept, close-Kept,
}
use casita.MpiStream.KeptCalls.{
  irecv-Kept, wait_leave-Kept, test-Kept, waitall-Kept, remove-Kept, testall-Kept, finished-Kept,
}
use casita.MpiStream.KeptLoops.{finished_of-Kept, tested-Kept}
use casita.MpiStream.Reached.{
  Reached, start, requested, receive_left, receive_refused, send, send_left, send_refused, started,
  received, sent, waited, waited_all, tried, tried_all, removed, finished, finished_of,
  finished_all, tested_all, recorded, taken, cleared,
}

-- A record that was put into the table with its node.
put-HasMsg :
    (k : ℕ) (r q : MpiIcommRecord) (s : MpiStream)
    → HasMsg r
    → find_record k (put_record k r s.mpi_icomm_records) ≡ some q
    → HasMsg q
put-HasMsg k r q s m e =
    let found : find_record k (put_record k r s.mpi_icomm_records) ≡ some r =
      find_record-put_record k k r s.mpi_icomm_records ∙ ground arith in
    subst HasMsg (some-injective (sym found ∙ e)) m

put-close :
    (live : List ℕ) (k : ℕ) (r : MpiIcommRecord) (s : MpiStream)
    → r.request_id ≡ k
    → HasMsg r
    → Kept live s.mpi_icomm_records
    → Kept (close k live) (put_record k r s.mpi_icomm_records)
put-close live k r s e m t =
    close-Kept live k (put_record k r s.mpi_icomm_records) (λ q f. put-HasMsg k r q s m f)
      (put_record-Kept live k r s.mpi_icomm_records e (inl m) t)

receive_left-Kept :
    (live : List ℕ) (n : ℕ) (s : MpiStream) (w : Nodes)
    → s.pending_mpi_request_id ≢ u64_max
    → IsKept live (s, w)
    → IsKept (close s.pending_mpi_request_id live) (handle_mpi_irecv_leave n (s, w))
unfolding handle_mpi_irecv_leave
receive_left-Kept live n s w h t =
    let p = s.pending_mpi_request_id in
    let u : (p == u64_max) ≡ false = ground (arith, h) in
    rw u (put-close live p (new_record p none none (some n)) s refl (n, refl) t)

receive_refused-Kept :
    (live : List ℕ) (n : ℕ) (s : MpiStream) (w : Nodes)
    → s.pending_mpi_request_id ≡ u64_max
    → IsKept live (s, w)
    → IsKept live (handle_mpi_irecv_leave n (s, w))
unfolding handle_mpi_irecv_leave
receive_refused-Kept live n s w h t =
    let u : (s.pending_mpi_request_id == u64_max) ≡ true = ground (arith, h) in rw u t

send_left-Kept :
    (live : List ℕ) (n : ℕ) (s : MpiStream) (w : Nodes)
    → s.pending_mpi_request_id ≢ u64_max
    → s.mpi_isend_partner ≢ u64_max
    → IsKept live (s, w)
    → IsKept (close s.pending_mpi_request_id live) (handle_mpi_isend_leave n (s, w))
unfolding handle_mpi_isend_leave
send_left-Kept live n s w h k t =
    let p = s.pending_mpi_request_id in
    let u : (p == u64_max || s.mpi_isend_partner == u64_max) ≡ false = ground (arith, h, k) in
    elim (Option-cases (find_record p s.mpi_icomm_records)) [
      | inl e ↦
          rw (u, e, handle_mpi_isend_leave)
            (close-Kept live p s.mpi_icomm_records
              (λ r f. absurd (let bad : none ≡ some r = sym e ∙ f in cc)) t)
      | inr (r, e) ↦
          rw (u, e, handle_mpi_isend_leave)
            (put-close live p (record r { msg_node = some n }) s
              (All-find _ p r s.mpi_icomm_records t.keyed e) (n, refl) t)
    ]

send_refused-Kept :
    (live : List ℕ) (n : ℕ) (s : MpiStream) (w : Nodes)
    → (s.pending_mpi_request_id ≡ u64_max) ⊎ (s.mpi_isend_partner ≡ u64_max)
    → IsKept live (s, w)
    → IsKept live (handle_mpi_isend_leave n (s, w))
unfolding handle_mpi_isend_leave
send_refused-Kept live n s w h t =
    let u : (s.pending_mpi_request_id == u64_max || s.mpi_isend_partner == u64_max) ≡ true =
      elim h [ inl a ↦ ground (arith, a) | inr a ↦ ground (arith, a) ] in
    rw u t

send-Kept :
    (live : List ℕ) (k partner comm tag : ℕ) (s : MpiStream) (w : Nodes)
    → IsKept live (s, w)
    → IsKept (k ∷ live) (handle_mpi_isend k partner comm tag s, w)
unfolding handle_mpi_isend
send-Kept live k partner comm tag s w t =
    put_record-Kept (k ∷ live) k (new_record k (some comm) (some tag) none) s.mpi_icomm_records refl
      (inr (ground arith)) (more-Kept live k s.mpi_icomm_records t)

finished_all-nil :
    (st : State)
    → Holds (λ x. (x.1.0).mpi_icomm_records ≡ []) (wait_for_all_pending_mpi_requests st)
unfolding wait_for_all_pending_mpi_requests
finished_all-nil (s, w) =
    Holds-bind (λ x. Unit {0}) _ (wait_all_records s.mpi_icomm_records w) _
      (Holds-any (wait_all_records s.mpi_icomm_records w)) (λ x u. refl)

recorded-same :
    (type : MpiType) (partner root tag : ℕ) (s : MpiStream)
    → Holds
        (λ x. x.mpi_icomm_records ≡ s.mpi_icomm_records)
        (set_pending_mpi_record type partner root tag s)
unfolding set_pending_mpi_record
recorded-same mpi_collective partner root tag s = refl
recorded-same mpi_recv partner root tag s = refl
recorded-same mpi_send partner root tag s = refl
recorded-same mpi_sendrecv partner root tag s = tt

-- In every state that calls of the operations reach, in any order and with any arguments, the records
-- are sorted by the identifiers of their requests, each stands under its own identifier, and it knows
-- the node of its message unless its send is open: the leave of its MPI_Isend has not come yet or was
-- refused, for want of a pending request or of a partner.
pub Reached-Kept : (live : List ℕ) (st : State) → Reached live st → IsKept live st
unfolding new_mpi_stream reset handle_mpi_isend_complete handle_mpi_irecv_request
    get_pending_mpi_records
Reached-Kept _ _ (start id parent_id name comm w) = nil-Kept []
Reached-Kept live _ (requested k s w d) = Reached-Kept live (s, w) d
Reached-Kept _ _ (receive_left n {live} s w h d) =
    receive_left-Kept live n s w h (Reached-Kept live (s, w) d)
Reached-Kept live _ (receive_refused n s w h d) =
    receive_refused-Kept live n s w h (Reached-Kept live (s, w) d)
Reached-Kept _ _ (send k partner comm tag {live} s w d) =
    send-Kept live k partner comm tag s w (Reached-Kept live (s, w) d)
Reached-Kept _ _ (send_left n {live} s w h k d) =
    send_left-Kept live n s w h k (Reached-Kept live (s, w) d)
Reached-Kept live _ (send_refused n s w h d) =
    send_refused-Kept live n s w h (Reached-Kept live (s, w) d)
Reached-Kept live _ (started k r h0 h1 s w e d) =
    found-Kept live k r _ s.mpi_icomm_records (Reached-Kept live (s, w) d) e refl refl
Reached-Kept live _ (received k partner comm tag st st' e d) =
    Holds-ok (IsKept live) _ st' (irecv-Kept live k partner comm tag st (Reached-Kept live st d)) e
Reached-Kept live _ (sent k s w d) = Reached-Kept live (s, w) d
Reached-Kept live _ (waited n st st' e d) =
    Holds-ok (IsKept live) _ st' (wait_leave-Kept live n st (Reached-Kept live st d)) e
Reached-Kept live _ (waited_all n st st' e d) =
    Holds-ok (IsKept live) _ st' (waitall-Kept live n st (Reached-Kept live st d)) e
Reached-Kept live _ (tried n st st' e d) =
    Holds-ok (IsKept live) _ st' (test-Kept live n st (Reached-Kept live st d)) e
Reached-Kept live _ (tried_all n st st' e d) =
    Holds-ok (IsKept live) _ st' (testall-Kept live n st (Reached-Kept live st d)) e
Reached-Kept live _ (removed k st st' e d) =
    Holds-ok (IsKept live) _ st' (remove-Kept live k st (Reached-Kept live st d)) e
Reached-Kept live _ (finished k found hs st st' e d) =
    Holds-ok (λ x. IsKept live x.2) _ (found, hs, st')
      (finished-Kept live k st (Reached-Kept live st d)) e
Reached-Kept live _ (finished_of n st d) = finished_of-Kept live n st (Reached-Kept live st d)
Reached-Kept _ _ (finished_all hs st st' e d) =
    let gone = Holds-ok (λ x. (x.1.0).mpi_icomm_records ≡ []) _ (hs, st') (finished_all-nil st) e in
    subst (Kept []) (sym gone) (nil-Kept [])
Reached-Kept live _ (tested_all test st st' e d) =
    Holds-ok (IsKept live) _ st' (tested-Kept live test st (Reached-Kept live st d)) e
Reached-Kept live _ (recorded type partner root tag s s' w e d) =
    let same =
      Holds-ok (λ x. x.mpi_icomm_records ≡ s.mpi_icomm_records) _ s'
        (recorded-same type partner root tag s) e in
    subst (Kept live) (sym same) (Reached-Kept live (s, w) d)
Reached-Kept live _ (taken s w d) = Reached-Kept live (s, w) d
Reached-Kept _ _ (cleared s w d) = nil-Kept []
