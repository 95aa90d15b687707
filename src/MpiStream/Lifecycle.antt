-- ===== src/MpiStream/Lifecycle.antt =====
-- A request from its start to its wait: src/backend/MpiStream.cpp.
use casita.Prelude.{ℕ, ◌≡◌, ◌≢◌, refl, ap, ◌∙◌, false, none, some, [], ◌∷◌, ◌++◌, ◌==◌, ◌||◌, arith}
use casita.Edge.Defs.{u64_max}
use casita.Node.Defs.{Node, set_referenced_stream_id}
use casita.Stream.Add.{put}
use casita.Engine.Defs.{Result, ok, ◌>>=◌}
use casita.MpiStream.Defs.{
  MpiIcommRecord, MpiStream, icomm_record, Nodes, set_data, set_referenced, find_record, put_record,
}
use casita.MpiStream.Handlers.{
  State, new_record, handle_mpi_irecv_request, handle_mpi_irecv_leave, handle_mpi_irecv,
  handle_mpi_isend, handle_mpi_isend_leave, handle_mpi_isend_complete, handle_mpi_wait_leave,
}
use casita.MpiStream.Maps.{find_record-put_record}

-- The record of the request `k`: the message left at `n` and was waited for at `m`.
abbrev pub done_record : ℕ → ℕ → ℕ → ℕ → ℕ → MpiIcommRecord
done_record k comm tag n m = record (new_record k (some comm) (some tag) (some n)) {
  sync_node = some m;
}

-- The request is consumed, its record is complete and is the data of both nodes, the node of the
-- message refers to the partner, and the other records are as before.
pub record IsDone (k partner comm tag n m : ℕ) (before : State) (after : State) : Type 0 where
  pub consumed : (after.0).pending_requests ≡ []
  pub request_cleared : (after.0).pending_mpi_request_id ≡ u64_max
  pub stored : find_record k (after.0).mpi_icomm_records ≡ some (done_record k comm tag n m)
  pub others :
      (j : ℕ)
      → k ≢ j
      → find_record j (after.0).mpi_icomm_records ≡ find_record j (before.0).mpi_icomm_records
  pub msg_data : (after.1).node_data n ≡ icomm_record k
  pub sync_data : (after.1).node_data m ≡ icomm_record k
  pub partner_set : ((after.1).node n).referenced_stream ≡ partner

-- MPI_Irecv and its request, and MPI_Wait around the receive.
abbrev pub receive_and_wait : ℕ → ℕ → ℕ → ℕ → ℕ → ℕ → State → Result State
receive_and_wait k partner comm tag n m (s, w) =
    handle_mpi_irecv k partner comm tag (handle_mpi_irecv_leave n (handle_mpi_irecv_request k s, w))
    >>= handle_mpi_wait_leave m

-- MPI_Isend around its record, and MPI_Wait around its completion.
abbrev pub send_and_wait : ℕ → ℕ → ℕ → ℕ → ℕ → ℕ → State → Result State
send_and_wait k partner comm tag n m (s, w) =
    let (s', w') = handle_mpi_isend_leave n (handle_mpi_isend k partner comm tag s, w) in
    handle_mpi_wait_leave m (handle_mpi_isend_complete k s', w')

put-hit : {A : Type 0} (map : ℕ → A) (k : ℕ) (a : A) → put map k a k ≡ a
unfolding put
put-hit map k a = ground arith

put-either : {A : Type 0} (map : ℕ → A) (k j : ℕ) (a : A) → map j ≡ a → put map k a j ≡ a
unfolding put
put-either map k j a h = ground (arith, h)

found-put :
    (k : ℕ) (r : MpiIcommRecord) (s : MpiStream)
    → find_record k (put_record k r s.mpi_icomm_records) ≡ some r
found-put k r s = find_record-put_record k k r s.mpi_icomm_records ∙ ground arith

pub irecv_leave-step :
    (k n : ℕ) (s : MpiStream) (w : Nodes)
    → k ≢ u64_max
    → handle_mpi_irecv_leave n (handle_mpi_irecv_request k s, w) ≡ (
      record s {
        mpi_icomm_records = put_record k (new_record k none none (some n)) s.mpi_icomm_records;
        pending_mpi_request_id = u64_max;
      },
      set_data n (icomm_record k) w,
    )
unfolding handle_mpi_irecv_leave handle_mpi_irecv_request
irecv_leave-step k n s w h = let t : (k == u64_max) ≡ false = ground (arith, h) in rw t refl

pub irecv-step :
    (k partner comm tag n : ℕ) (r : MpiIcommRecord) (s : MpiStream) (w : Nodes)
    → find_record k s.mpi_icomm_records ≡ some r
    → r.msg_node ≡ some n
    → handle_mpi_irecv k partner comm tag (s, w)
      ≡ ok (
        record s {
          pending_requests = s.pending_requests ++ k ∷ [];
          mpi_icomm_records =
              put_record k
                (record r { com_ref = some comm; msg_tag = some tag })
                s.mpi_icomm_records;
        },
        set_referenced n partner w,
      )
unfolding handle_mpi_irecv
irecv-step k partner comm tag n r s w h q = rw (h, handle_mpi_irecv) (simp q)

pub wait_leave-step :
    (k m : ℕ) (r : MpiIcommRecord) (s : MpiStream) (w : Nodes)
    → s.pending_requests ≡ k ∷ []
    → find_record k s.mpi_icomm_records ≡ some r
    → handle_mpi_wait_leave m (s, w)
      ≡ ok (
        record s {
          mpi_icomm_records = put_record k (record r { sync_node = some m }) s.mpi_icomm_records;
          pending_requests = [];
        },
        set_data m (icomm_record k) w,
      )
unfolding handle_mpi_wait_leave
wait_leave-step k m r s w p h = rw (p, h, handle_mpi_wait_leave) refl

-- A receive that is waited for is done, if no other request was pending on the stream and the request
-- has another identifier than 2^64 - 1, which stands for none: every call returns, and of the records
-- only that of the request changes.
pub receive_and_wait-IsDone :
    (k partner comm tag n m : ℕ) (st : State)
    → k ≢ u64_max
    → (st.0).pending_requests ≡ []
    → (st' : State) × (receive_and_wait k partner comm tag n m st ≡ ok st')
      × IsDone k partner comm tag n m st st'
unfolding set_data set_referenced set_referenced_stream_id
receive_and_wait-IsDone k partner comm tag n m (s, w) h p =
    let r = new_record k none none (some n) in
    let s1 : MpiStream = record s {
      mpi_icomm_records = put_record k r s.mpi_icomm_records;
      pending_mpi_request_id = u64_max;
    } in
    let w1 = set_data n (icomm_record k) w in
    let r2 : MpiIcommRecord = record r { com_ref = some comm; msg_tag = some tag } in
    let s2 : MpiStream = record s1 {
      pending_requests = s.pending_requests ++ k ∷ [];
      mpi_icomm_records = put_record k r2 s1.mpi_icomm_records;
    } in
    let w2 = set_referenced n partner w1 in
    let r3 : MpiIcommRecord = record r2 { sync_node = some m } in
    let s3 : MpiStream = record s2 {
      mpi_icomm_records = put_record k r3 s2.mpi_icomm_records;
      pending_requests = [];
    } in
    let w3 = set_data m (icomm_record k) w2 in
    let one_pending : s2.pending_requests ≡ k ∷ [] = rw p refl in
    let step2 = irecv-step k partner comm tag n r s1 w1 (found-put k r s) refl in
    let step3 = wait_leave-step k m r2 s2 w2 one_pending (found-put k r2 s1) in
    (
      (s3, w3),
      rw (irecv_leave-step k n s w h, step2) step3,
      record {
        consumed = refl;
        request_cleared = refl;
        stored = found-put k r3 s2;
        others = λ j d. ground (
          arith,
          find_record-put_record k j r3 s2.mpi_icomm_records,
          find_record-put_record k j r2 s1.mpi_icomm_records,
          find_record-put_record k j r s.mpi_icomm_records,
          d,
        );
        msg_data =
            put-either (put w.node_data n (icomm_record k)) m n (icomm_record k)
              (put-hit w.node_data n (icomm_record k));
        sync_data = put-hit (put w.node_data n (icomm_record k)) m (icomm_record k);
        partner_set =
            ap (λ (x : Node). x.referenced_stream)
              (put-hit w.node n (set_referenced_stream_id (w.node n) partner));
      },
    )

pub isend_leave-step :
    (k partner comm tag n : ℕ) (s : MpiStream) (w : Nodes)
    → k ≢ u64_max
    → partner ≢ u64_max
    → handle_mpi_isend_leave n (handle_mpi_isend k partner comm tag s, w) ≡ (
      record s {
        mpi_icomm_records =
            put_record k
              (new_record k (some comm) (some tag) (some n))
              (put_record k (new_record k (some comm) (some tag) none) s.mpi_icomm_records);
        pending_mpi_request_id = u64_max;
        mpi_isend_partner = u64_max;
      },
      set_referenced n partner (set_data n (icomm_record k) w),
    )
unfolding handle_mpi_isend_leave handle_mpi_isend
isend_leave-step k partner comm tag n s w h q =
    let t : (k == u64_max || partner == u64_max) ≡ false = ground (arith, h, q) in
    rw (t, found-put k (new_record k (some comm) (some tag) none) s, handle_mpi_isend_leave) refl

-- A send that is waited for is done, if no other request was pending on the stream and neither the
-- identifier of the request nor that of the partner is 2^64 - 1, which stands for none: every call
-- returns, and of the records only that of the request changes.
pub send_and_wait-IsDone :
    (k partner comm tag n m : ℕ) (st : State)
    → k ≢ u64_max
    → partner ≢ u64_max
    → (st.0).pending_requests ≡ []
    → (st' : State) × (send_and_wait k partner comm tag n m st ≡ ok st')
      × IsDone k partner comm tag n m st st'
unfolding set_data set_referenced set_referenced_stream_id handle_mpi_isend_complete
send_and_wait-IsDone k partner comm tag n m (s, w) h q p =
    let r = new_record k (some comm) (some tag) none in
    let r1 = new_record k (some comm) (some tag) (some n) in
    let map1 = put_record k r s.mpi_icomm_records in
    let map2 = put_record k r1 map1 in
    let s2 : MpiStream = record s {
      mpi_icomm_records = map2;
      pending_mpi_request_id = u64_max;
      mpi_isend_partner = u64_max;
      pending_requests = s.pending_requests ++ k ∷ [];
    } in
    let w2 = set_referenced n partner (set_data n (icomm_record k) w) in
    let r3 : MpiIcommRecord = record r1 { sync_node = some m } in
    let s3 : MpiStream = record s2 {
      mpi_icomm_records = put_record k r3 map2;
      pending_requests = [];
    } in
    let w3 = set_data m (icomm_record k) w2 in
    let one_pending : s2.pending_requests ≡ k ∷ [] = rw p refl in
    let found : find_record k map2 ≡ some r1 = find_record-put_record k k r1 map1 ∙ ground arith in
    let step3 = wait_leave-step k m r1 s2 w2 one_pending found in
    (
      (s3, w3),
      rw (isend_leave-step k partner comm tag n s w h q) step3,
      record {
        consumed = refl;
        request_cleared = refl;
        stored = found-put k r3 s2;
        others = λ j d. ground (
          arith,
          find_record-put_record k j r3 map2,
          find_record-put_record k j r1 map1,
          find_record-put_record k j r s.mpi_icomm_records,
          d,
        );
        msg_data =
            put-either (put w.node_data n (icomm_record k)) m n (icomm_record k)
              (put-hit w.node_data n (icomm_record k));
        sync_data = put-hit (put w.node_data n (icomm_record k)) m (icomm_record k);
        partner_set =
            ap (λ (x : Node). x.referenced_stream)
              (put-hit w.node n (set_referenced_stream_id (w.node n) partner));
      },
    )
