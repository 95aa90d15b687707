-- ===== src/MpiStream/Tracked.antt =====
-- The table of pending requests keeps its form: src/backend/MpiStream.cpp.
use casita.Prelude.{
  ℕ, ◌≡◌, subst, inl, inr, some, List, [], ◌∷◌, ◌==◌, if◌then◌else◌, arith, All, Bool-cases,
  Option-cases, some-injective,
}
use casita.Engine.Defs.{Result, ok, raised, undefined}
use casita.Engine.Outcomes.{Holds, Returns, Returns-bind}
use casita.MpiStream.Defs.{MpiIcommRecord, RecordMap, find_record, put_record, erase_record}
use casita.MpiStream.Handlers.{State, remove_pending_mpi_request, remove_all}
use casita.MpiStream.Maps.{
  IsSorted, Keyed, All-put_record, All-erase_record, put_record-IsSorted, erase_record-IsSorted,
}

-- A record knows the node of its message.
abbrev pub HasMsg : MpiIcommRecord → Type 0
HasMsg r = (n : ℕ) × (r.msg_node ≡ some n)

-- The records are sorted by their keys, each stands under its own identifier and knows its node.
pub record Tracked (map : RecordMap) : Type 0 where
  pub sorted : IsSorted map
  pub keyed : Keyed map
  pub has_msg : All (λ x. HasMsg x.1) map

abbrev pub IsTracked : State → Type 0
IsTracked st = Tracked (st.0).mpi_icomm_records

pub All-find :
    (P : ℕ × MpiIcommRecord → Type 0) (k : ℕ) (r : MpiIcommRecord) (map : RecordMap)
    → All P map
    → find_record k map ≡ some r
    → P (k, r)
unfolding find_record
All-find P k r [] a h = absurd (cc)
All-find P k r ((i, q) ∷ map) a h = elim (Bool-cases (i == k)) [
  | inl t ↦
      let e : q ≡ r =
        some-injective (subst (λ b. (if b then some q else find_record k map) ≡ some r) t h) in
      let f : i ≡ k = ground arith in subst (λ z. P (z, r)) f (subst (λ z. P (i, z)) e a.0)
  | inr t ↦
      All-find P k r map a.1 (subst (λ b. (if b then some q else find_record k map) ≡ some r) t h)
]

pub put_record-Tracked :
    (k : ℕ) (r : MpiIcommRecord) (map : RecordMap)
    → r.request_id ≡ k
    → HasMsg r
    → Tracked map
    → Tracked (put_record k r map)
put_record-Tracked k r map e m t = record {
  sorted = put_record-IsSorted k r map t.sorted;
  keyed = All-put_record _ k r map e t.keyed;
  has_msg = All-put_record _ k r map m t.has_msg;
}

pub erase_record-Tracked : (k : ℕ) (map : RecordMap) → Tracked map → Tracked (erase_record k map)
erase_record-Tracked k map t = record {
  sorted = erase_record-IsSorted k map t.sorted;
  keyed = All-erase_record _ k map t.keyed;
  has_msg = All-erase_record _ k map t.has_msg;
}

pub remove-Tracked :
    (k : ℕ) (st : State) → IsTracked st → Returns IsTracked (remove_pending_mpi_request k st)
unfolding remove_pending_mpi_request
remove-Tracked k (s, w) t = elim (Option-cases (find_record k s.mpi_icomm_records)) [
  | inl e ↦ rw (e, remove_pending_mpi_request) t
  | inr (r, e) ↦
      let (n, f) = All-find _ k r s.mpi_icomm_records t.has_msg e in
      rw (e, remove_pending_mpi_request, f) (erase_record-Tracked k s.mpi_icomm_records t)
]

pub remove_all-Tracked :
    (ks : List ℕ) (st : State) → IsTracked st → Returns IsTracked (remove_all ks st)
unfolding remove_all
remove_all-Tracked [] st t = t
remove_all-Tracked (k ∷ ks) st t =
    Returns-bind IsTracked IsTracked (remove_pending_mpi_request k st) (remove_all ks)
      (remove-Tracked k st t) (λ st' t'. remove_all-Tracked ks st' t')

pub Holds-Returns {ℓ} : {A : Type ℓ} (P : A → Type 0) (r : Result A) → Returns P r → Holds P r
Holds-Returns P (ok a) h = h
Holds-Returns P raised h = tt
Holds-Returns P undefined h = tt

pub nil-Tracked : Tracked []
nil-Tracked = record { sorted = tt; keyed = tt; has_msg = tt }
