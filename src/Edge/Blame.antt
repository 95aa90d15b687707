-- ===== src/Edge/Blame.antt =====
-- The blame map of an edge: src/backend/include/graph/Edge.hpp. Blame is a `double`; its values and
-- their addition are parameters, and the order of additions is as in the code.
use casita.Prelude.{
  ℕ, ◌≡◌, inl, inr, Option, none, some, List, [], ◌∷◌, ltb, ◌==◌, Option-cases, if◌then◌else◌,
  arith,
}

-- enum BlameReason of src/backend/include/AnalysisMetric.hpp.
pub data BlameReason : Type 0 where
  ofld_device_idle ofld_wait4device ofld_blocking_transfer mpi_collective : BlameReason
  mpi_late_sender mpi_late_receiver mpi_late_sendrecv omp_barrier unclassified : BlameReason

unfoldable pub reason_number : BlameReason → ℕ
reason_number ofld_device_idle = 0
reason_number ofld_wait4device = 1
reason_number ofld_blocking_transfer = 2
reason_number mpi_collective = 3
reason_number mpi_late_sender = 4
reason_number mpi_late_receiver = 5
reason_number mpi_late_sendrecv = 6
reason_number omp_barrier = 7
reason_number unclassified = 8

-- `std::map`, iterated by rising key.
abbrev pub BlameMap : Type 0 → Type 0
BlameMap V = List (ℕ × V)

module _ {V : Type 0} where
  unfoldable pub find_blame : ℕ → BlameMap V → Option V
  find_blame type [] = none
  find_blame type ((k, v) ∷ rest) = if k == type then some v else find_blame type rest

  unfoldable pub put_blame : ℕ → V → BlameMap V → BlameMap V
  put_blame type v [] = (type, v) ∷ []
  put_blame type v ((k, w) ∷ rest) =
      if k == type
      then (k, v) ∷ rest
      else if ltb type k
      then (type, v) ∷ (k, w) ∷ rest
      else (k, w) ∷ put_blame type v rest

  unfoldable pub get_blame : V → BlameReason → BlameMap V → V
  unfolding find_blame reason_number
  get_blame zero_blame type blame = elim (find_blame (reason_number type) blame) [
    | none ↦ zero_blame
    | some v ↦ v
  ]

  find-put :
      (k m : ℕ) (v : V) (blame : BlameMap V)
      → find_blame k (put_blame m v blame) ≡ (if m == k then some v else find_blame k blame)
  unfolding find_blame put_blame
  find-put k m v [] = ground arith
  find-put k m v ((j, w) ∷ blame) = ground (arith, find-put k m v blame)

module _ {V : Type 0} (add : V → V → V) where
  unfoldable pub add_blame : V → BlameReason → BlameMap V → BlameMap V
  unfolding find_blame put_blame reason_number
  add_blame value type blame = elim (find_blame (reason_number type) blame) [
    | none ↦ put_blame (reason_number type) value blame
    | some old ↦ put_blame (reason_number type) (add old value) blame
  ]

  unfoldable pub total_from : V → BlameMap V → V
  total_from total [] = total
  total_from total ((k, v) ∷ rest) = total_from (add total v) rest

  unfoldable pub get_total_blame : V → BlameMap V → V
  unfolding total_from
  get_total_blame zero_blame = total_from zero_blame

-- Blame of a reason that already has some is added to it, the first blame of a reason is stored as
-- it is, and the blame of the other reasons stays.
pub get_blame-add_blame :
    {V : Type 0} (add : V → V → V) (zero_blame value : V) (type other : BlameReason)
    (blame : BlameMap V)
    → get_blame zero_blame other (add_blame add value type blame) ≡ (
        if reason_number type == reason_number other
        then elim (find_blame (reason_number type) blame) [
          | none ↦ value
          | some old ↦ add old value
        ]
        else get_blame zero_blame other blame)
unfolding get_blame add_blame
get_blame-add_blame add zero_blame value type other blame =
    elim (Option-cases (find_blame (reason_number type) blame)) [
      | inl e ↦ ground (arith, find-put (reason_number other) (reason_number type) value blame)
      | inr (old, e) ↦
          ground (arith, find-put (reason_number other) (reason_number type) (add old value) blame)
    ]
