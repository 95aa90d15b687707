-- ===== src/MpiStream/Returning.antt =====
-- The calls of src/backend/MpiStream.cpp that return in reached states.
use casita.Prelude.{
  ℕ, ◌≡◌, refl, sym, ◌∙◌, inl, inr, Bool, true, false, some, List, [], Option-cases,
}
use casita.Engine.Outcomes.{Returns, Returns-map}
use casita.MpiStream.Defs.{MpiIcommRecord, MpiStream, Nodes, find_record}
use casita.MpiStream.Handlers.{State, handle_mpi_irecv, remove_pending_mpi_request}
use casita.MpiStream.Requests.{
  wait_for_pending_mpi_request, wait_for_all_pending_mpi_requests, release,
  test_all_pending_mpi_requests,
}
use casita.MpiStream.Tracked.{HasMsg, IsTracked, All-find}
use casita.MpiStream.Kept.{is_open, Opened, IsKept, Kept-Tracked, found-Kept, erase_record-Kept}
use casita.MpiStream.Finished.{
  test_all_pending_mpi_requests-tested, wait_for_all_pending_mpi_requests-waits,
}
use casita.MpiStream.Reached.{Reached}
use casita.MpiStream.ReachedLaws.{Reached-Kept}

module _ (live : List ℕ) (k : ℕ) (s : MpiStream) (w : Nodes) (t : IsKept live (s, w))
    (shut : is_open k live ≡ false) where
  msg-known : (r : MpiIcommRecord) → find_record k s.mpi_icomm_records ≡ some r → HasMsg r
  msg-known r e = elim (All-find (Opened live) k r s.mpi_icomm_records t.opened e) [
    | inl m ↦ m
    | inr o ↦ absurd (let bad : false ≡ true = sym shut ∙ o in cc)
  ]

  irecv-Returns :
      (partner comm tag : ℕ) → Returns (IsKept live) (handle_mpi_irecv k partner comm tag (s, w))
  unfolding handle_mpi_irecv
  irecv-Returns partner comm tag = elim (Option-cases (find_record k s.mpi_icomm_records)) [
    | inl e ↦ rw (e, handle_mpi_irecv) t
    | inr (r, e) ↦
        let (n, f) = msg-known r e in
        rw (e, handle_mpi_irecv, f) (found-Kept live k r _ s.mpi_icomm_records t e refl refl)
  ]

  remove-Returns : Returns (IsKept live) (remove_pending_mpi_request k (s, w))
  unfolding remove_pending_mpi_request
  remove-Returns = elim (Option-cases (find_record k s.mpi_icomm_records)) [
    | inl e ↦ rw (e, remove_pending_mpi_request) t
    | inr (r, e) ↦
        let (n, f) = msg-known r e in
        rw (e, remove_pending_mpi_request, f) (erase_record-Kept live k s.mpi_icomm_records t)
  ]

  wait-Returns : Returns (λ x. IsKept live x.2) (wait_for_pending_mpi_request k (s, w))
  unfolding wait_for_pending_mpi_request release
  wait-Returns = elim (Option-cases (find_record k s.mpi_icomm_records)) [
    | inl e ↦ rw (e, wait_for_pending_mpi_request) t
    | inr (r, e) ↦
        let (n, f) = msg-known r e in
        rw (e, wait_for_pending_mpi_request, release, f)
          (erase_record-Kept live k s.mpi_icomm_records t)
  ]

-- In every reached state the calls that receive, remove or wait for one request meet no NULL pointer
-- and return, if no send of that request is open, and the table keeps its form.
pub Reached-Returns :
    (live : List ℕ) (st : State) (k partner comm tag : ℕ)
    → Reached live st
    → is_open k live ≡ false
    → Returns (IsKept live) (handle_mpi_irecv k partner comm tag st)
      × Returns (IsKept live) (remove_pending_mpi_request k st)
      × Returns (λ x. IsKept live x.2) (wait_for_pending_mpi_request k st)
Reached-Returns live (s, w) k partner comm tag d shut =
    let t = Reached-Kept live (s, w) d in
    (
      irecv-Returns live k s w t shut partner comm tag,
      remove-Returns live k s w t shut,
      wait-Returns live k s w t shut,
    )

-- In every reached state without open sends, testing all requests returns with records that all know
-- their nodes, and waiting for all requests returns with an empty table.
pub Reached-Returns_all :
    (st : State) (test : ℕ → Bool)
    → Reached [] st
    → Returns IsTracked (test_all_pending_mpi_requests test st)
      × Returns (λ x. (x.1.0).mpi_icomm_records ≡ []) (wait_for_all_pending_mpi_requests st)
Reached-Returns_all st test d =
    let t = Kept-Tracked (st.0).mpi_icomm_records (Reached-Kept [] st d) in
    (
      Returns-map _ _ (test_all_pending_mpi_requests test st) (λ st' g. g.0)
          (test_all_pending_mpi_requests-tested test st t),
      Returns-map _ _ (wait_for_all_pending_mpi_requests st) (λ x g. g.1)
          (wait_for_all_pending_mpi_requests-waits st t),
    )
