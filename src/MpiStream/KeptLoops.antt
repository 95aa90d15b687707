-- ===== src/MpiStream/KeptLoops.antt =====
-- The loops over all requests keep the form of the table: src/backend/MpiStream.cpp.
use casita.Prelude.{ℕ, ◌<◌, ◌≡◌, inl, inr, Bool, ◌&&◌, Option, List, [], ◌∷◌, All, Bool-cases}
use casita.Engine.Outcomes.{Holds, Holds-bind, Holds-any, Holds-map}
use casita.MpiStream.Defs.{MpiIcommRecord, RecordMap, Nodes}
use casita.MpiStream.Handlers.{State}
use casita.MpiStream.Requests.{
  is_msg_of, wait_records_of, wait_for_pending_mpi_requests, release, is_finished, test_records,
  test_all_pending_mpi_requests,
}
use casita.MpiStream.Maps.{IsSorted}
use casita.MpiStream.Kept.{Opened, Kept, IsKept}

-- What a loop leaves of the records: some of them, with the same keys and nodes.
pub record Left (map map' : RecordMap) : Type 1 where
  pub order : IsSorted map → IsSorted map'
  pub all :
      (P : ℕ × MpiIcommRecord → Type 0)
      → ((k : ℕ) (r : MpiIcommRecord) (a b : Option ℕ)
          → P (k, r)
          → P (k, record r { request0 = a; request1 = b }))
      → All P map
      → All P map'

pub Left-Kept :
    (live : List ℕ) (map map' : RecordMap) → Left map map' → Kept live map → Kept live map'
Left-Kept live map map' g t = record {
  sorted = g.order t.sorted;
  keyed = g.all (λ x. x.1.request_id ≡ x.0) (λ k r a b h. h) t.keyed;
  opened = g.all (Opened live) (λ k r a b h. h) t.opened;
}

wait_records_of-Left : (n : ℕ) (map : RecordMap) (w : Nodes) → Left map (wait_records_of n map w).1
unfolding wait_records_of
wait_records_of-Left n [] w = record { order = λ s. tt; all = λ P c a. tt }
wait_records_of-Left n ((k, r) ∷ map) w = elim (Bool-cases (is_msg_of n r)) [
  | inl t ↦
      let g = wait_records_of-Left n map _ in
      rw t (record { order = λ s. g.order s.1; all = λ P c a. g.all P c a.1 })
  | inr t ↦
      let g = wait_records_of-Left n map w in
      rw t (record {
        order = λ s. (g.all (λ x. k < x.0) (λ j q a b h. h) s.0, g.order s.1);
        all = λ P c a. (a.0, g.all P c a.1);
      })
]

pub finished_of-Kept :
    (live : List ℕ) (n : ℕ) (st : State)
    → IsKept live st
    → IsKept live (wait_for_pending_mpi_requests n st).1
unfolding wait_for_pending_mpi_requests
finished_of-Kept live n (s, w) t =
    Left-Kept live s.mpi_icomm_records _ (wait_records_of-Left n s.mpi_icomm_records w) t

test_records-Left :
    (test : ℕ → Bool) (map : RecordMap) (w : Nodes)
    → Holds (λ x. Left map x.0) (test_records test map w)
unfolding test_records
test_records-Left test [] w = record { order = λ s. tt; all = λ P c a. tt }
test_records-Left test ((k, r) ∷ map) w =
    elim (Bool-cases (is_finished test r.request0 && is_finished test r.request1)) [
      | inl t ↦ rw t (
          Holds-bind (λ v. Unit {0}) (λ x. Left ((k, r) ∷ map) x.0) (release r w)
            (test_records test map) (Holds-any (release r w))
            (λ v u.
              Holds-map (λ x. Left map x.0) (λ x. Left ((k, r) ∷ map) x.0) (test_records test map v)
                (λ x g. record { order = λ s. g.order s.1; all = λ P c a. g.all P c a.1 })
                (test_records-Left test map v)))
      | inr t ↦ rw t (
          Holds-bind (λ x. Left map x.0) (λ x. Left ((k, r) ∷ map) x.0) (test_records test map w) _
            (test_records-Left test map w)
            (λ x g. record {
              order = λ s. (g.all (λ y. k < y.0) (λ j q a b h. h) s.0, g.order s.1);
              all = λ P c a. (c k r _ _ a.0, g.all P c a.1);
            }))
    ]

pub tested-Kept :
    (live : List ℕ) (test : ℕ → Bool) (st : State)
    → IsKept live st
    → Holds (IsKept live) (test_all_pending_mpi_requests test st)
unfolding test_all_pending_mpi_requests
tested-Kept live test (s, w) t =
    Holds-bind (λ x. Left s.mpi_icomm_records x.0) (IsKept live)
      (test_records test s.mpi_icomm_records w) _ (test_records-Left test s.mpi_icomm_records w)
      (λ x g. Left-Kept live s.mpi_icomm_records x.0 g t)
