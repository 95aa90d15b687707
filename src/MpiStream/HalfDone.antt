-- ===== src/MpiStream/HalfDone.antt =====
-- A request whose second half is gone: `testAllPendingMPIRequests` of src/backend/MpiStream.cpp.
use casita.Prelude.{
  ℕ, ◌≡◌, refl, ◌∙◌, ap, ◌⊎◌, inl, inr, Bool, true, false, ◌&&◌, Option, none, some, List, [], ◌∷◌,
}
use casita.Engine.Defs.{Result, ok, ◌>>=◌}
use casita.Engine.Outcomes.{Returns, Returns-bind}
use casita.MpiStream.Defs.{MpiIcommRecord, find_record}
use casita.MpiStream.Handlers.{State}
use casita.MpiStream.Requests.{is_finished, drop_finished, test_all_pending_mpi_requests}
use casita.MpiStream.Tracked.{IsTracked}
use casita.MpiStream.Finished.{tested, tested_at, test_all_pending_mpi_requests-tested}

-- Several calls of `testAllPendingMPIRequests`, with the answers of MPI_Test in each.
unfoldable pub test_repeatedly : List (ℕ → Bool) → State → Result State
test_repeatedly [] st = ok st
test_repeatedly (test ∷ tests) st = test_all_pending_mpi_requests test st >>= test_repeatedly tests

-- A record of the request, one of whose two handles is MPI_REQUEST_NULL.
abbrev pub HalfDone : ℕ → State → Type 0
HalfDone k st =
    (r : MpiIcommRecord) × (find_record k (st.0).mpi_icomm_records ≡ some r)
    × ((r.request0 ≡ none) ⊎ (r.request1 ≡ none))

drop_finished-none : (test : ℕ → Bool) (o : Option ℕ) → o ≡ none → drop_finished test o ≡ none
unfolding drop_finished is_finished
drop_finished-none test o h = rw h refl

is_finished-none : (test : ℕ → Bool) (o : Option ℕ) → o ≡ none → is_finished test o ≡ false
unfolding is_finished
is_finished-none test o h = rw h refl

both_false : (a : Bool) → a && false ≡ false
both_false true = refl
both_false false = refl

tested-half :
    (test : ℕ → Bool) (r : MpiIcommRecord)
    → (r.request0 ≡ none) ⊎ (r.request1 ≡ none)
    → tested test r
      ≡ some (record r {
        request0 = drop_finished test r.request0;
        request1 = drop_finished test r.request1;
      })
tested-half test r (inl h) = rw (is_finished-none test r.request0 h) refl
tested-half test r (inr h) =
    rw (is_finished-none test r.request1 h, both_false (is_finished test r.request0)) refl

HalfDone-step :
    (test : ℕ → Bool) (k : ℕ) (before after : State)
    → find_record k (after.0).mpi_icomm_records
      ≡ tested_at test (find_record k (before.0).mpi_icomm_records)
    → HalfDone k before
    → HalfDone k after
HalfDone-step test k before after h (r, e, half) = (
  record r { request0 = drop_finished test r.request0; request1 = drop_finished test r.request1 },
  h ∙ ap (tested_at test) e ∙ tested-half test r half,
  elim half [
    | inl q ↦ inl (drop_finished-none test r.request0 q)
    | inr q ↦ inr (drop_finished-none test r.request1 q)
  ],
)

-- A record with a handle that is MPI_REQUEST_NULL, as one is once the other half has finished, stays
-- in the table through any number of calls of `testAllPendingMPIRequests`, whatever MPI_Test
-- answers. The calls return, if all records know the nodes of their messages.
pub test_repeatedly-HalfDone :
    (tests : List (ℕ → Bool)) (k : ℕ) (st : State)
    → IsTracked st
    → HalfDone k st
    → Returns (HalfDone k) (test_repeatedly tests st)
unfolding test_repeatedly
test_repeatedly-HalfDone [] k st t h = h
test_repeatedly-HalfDone (test ∷ tests) k st t h =
    Returns-bind _ (HalfDone k) (test_all_pending_mpi_requests test st) (test_repeatedly tests)
      (test_all_pending_mpi_requests-tested test st t)
      λ st' g. test_repeatedly-HalfDone tests k st' g.0 (HalfDone-step test k st st' (g.1 k) h)
