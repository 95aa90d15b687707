-- ===== src/MpiStream/TestAll.antt =====
-- `handleMPITestall` of src/backend/MpiStream.cpp.
use casita.Prelude.{
  ℕ, ◌≡◌, ◌≢◌, refl, subst, inl, inr, none, List, [], ◌∷◌, ◌==◌, if◌then◌else◌, arith, Bool-cases,
  Option-cases, List-cases,
}
use casita.Stream.AddLaws.{mem}
use casita.Engine.Outcomes.{Returns, Returns-bind, Returns-map}
use casita.MpiStream.Defs.{find_record}
use casita.MpiStream.Handlers.{State, remove_pending_mpi_request, remove_all, handle_mpi_testall}
use casita.MpiStream.Maps.{find_record-erase_record}
use casita.MpiStream.Tracked.{IsTracked, All-find, erase_record-Tracked}

-- The records of the given requests are gone, the others are as before.
abbrev pub Removed : List ℕ → State → State → Type 0
Removed ks st st' =
    IsTracked st'
    × ((j : ℕ)
        → find_record j (st'.0).mpi_icomm_records
          ≡ (if mem j ks then none else find_record j (st.0).mpi_icomm_records))

remove-Removed :
    (k : ℕ) (st : State)
    → IsTracked st
    → Returns
        (λ st'.
          IsTracked st'
          × ((j : ℕ)
              → find_record j (st'.0).mpi_icomm_records
                ≡ (if k == j then none else find_record j (st.0).mpi_icomm_records)))
        (remove_pending_mpi_request k st)
unfolding remove_pending_mpi_request
remove-Removed k (s, w) t = elim (Option-cases (find_record k s.mpi_icomm_records)) [
  | inl e ↦
      rw (e, remove_pending_mpi_request)
        (
          t,
          λ j. elim (Bool-cases (k == j)) [
            | inl u ↦
                let same : k ≡ j = ground arith in
                rw u (subst (λ z. find_record z s.mpi_icomm_records ≡ none) same e)
            | inr u ↦ rw u refl
          ],
        )
  | inr (r, e) ↦
      let (n, f) = All-find _ k r s.mpi_icomm_records t.has_msg e in
      rw (e, remove_pending_mpi_request, f)
        (
          erase_record-Tracked k s.mpi_icomm_records t,
          λ j. find_record-erase_record k j s.mpi_icomm_records t.sorted,
        )
]

remove_all-Removed :
    (ks : List ℕ) (st : State) → IsTracked st → Returns (Removed ks st) (remove_all ks st)
unfolding remove_all
remove_all-Removed [] st t = (t, λ j. refl)
remove_all-Removed (k ∷ ks) st t =
    Returns-bind _ _ (remove_pending_mpi_request k st) (remove_all ks) (remove-Removed k st t)
      λ st1 g.
        Returns-map (Removed ks st1) _ (remove_all ks st1)
          (λ st2 h. (h.0, λ j. ground (arith, h.1 j, g.1 j))) (remove_all-Removed ks st1 g.0)

-- With pending requests, `handleMPITestall` returns where all records know the nodes of their
-- messages. It removes the records of exactly the pending requests, and none is pending afterwards.
pub handle_mpi_testall-Removed :
    (n : ℕ) (st : State)
    → IsTracked st
    → (st.0).pending_requests ≢ []
    → Returns
        (λ st'. Removed (st.0).pending_requests st st' × ((st'.0).pending_requests ≡ []))
        (handle_mpi_testall n st)
unfolding handle_mpi_testall
handle_mpi_testall-Removed n (s, w) t h = elim (List-cases s.pending_requests) [
  | inl p ↦ absurd (h p)
  | inr (k, rest, p) ↦
      rw (p, handle_mpi_testall)
        (Returns-bind _ _ (remove_all (k ∷ rest) (s, w)) _ (remove_all-Removed (k ∷ rest) (s, w) t)
          λ st' g. (g, refl))
]
