-- ===== src/MpiStream/Finished.antt =====
-- Testing and waiting for all pending requests: src/backend/MpiStream.cpp.
use casita.Prelude.{
  ℕ, ◌<◌, ◌≡◌, refl, sym, ap, subst, ◌∙◌, inl, inr, Bool, true, false, ◌&&◌, Option, none, some,
  List, [], ◌∷◌, ◌++◌, ◌==◌, if◌then◌else◌, arith, All, Bool-cases, some-injective,
}
use casita.Stream.Add.{put}
use casita.Engine.Outcomes.{Returns, Returns-bind, Returns-map}
use casita.MpiStream.Defs.{MpiIcommRecord, RecordMap, null, Nodes, set_data, find_record}
use casita.MpiStream.Handlers.{State}
use casita.MpiStream.Requests.{
  to_list, handles, release, is_finished, drop_finished, test_records,
  test_all_pending_mpi_requests, wait_all_records, wait_for_all_pending_mpi_requests,
}
use casita.MpiStream.Maps.{find_record-above}
use casita.MpiStream.Tracked.{HasMsg, Tracked, IsTracked, nil-Tracked}

-- The node of the message has no data any more, the others may have lost theirs.
abbrev Cleared : Nodes → Nodes → Type 0
Cleared w w' = (n : ℕ) → w.node_data n ≡ null → w'.node_data n ≡ null

release-clears :
    (r : MpiIcommRecord) (w : Nodes)
    → HasMsg r
    → Returns
        (λ w'. Cleared w w' × ((n : ℕ) → r.msg_node ≡ some n → w'.node_data n ≡ null))
        (release r w)
unfolding release set_data put
release-clears r w (n, e) =
    rw (e, release) (λ m h. ground (arith, h), λ m h. ground (arith, some-injective h))

-- The handles that the records hold, in the order of the keys.
abbrev pub all_handles : RecordMap → List ℕ
all_handles [] = []
all_handles ((k, r) ∷ map) = (to_list r.request0 ++ to_list r.request1) ++ all_handles map

-- No node of a message of the records has data.
abbrev pub NoData : RecordMap → Nodes → Type 0
NoData map w = All (λ x. (n : ℕ) → x.1.msg_node ≡ some n → w.node_data n ≡ null) map

wait_all_records-waits :
    (map : RecordMap) (w : Nodes)
    → All (λ x. HasMsg x.1) map
    → Returns
        (λ x. (x.0 ≡ all_handles map) × Cleared w x.1 × NoData map x.1)
        (wait_all_records map w)
unfolding wait_all_records handles
wait_all_records-waits [] w h = (refl, λ n e. e, tt)
wait_all_records-waits ((k, r) ∷ map) w h =
    Returns-bind _ _ (release r w) _ (release-clears r w h.0) λ w' c.
      Returns-bind _ _ (wait_all_records map w') _ (wait_all_records-waits map w' h.1)
        λ x (e, d, g).
          (ap (λ (l : List ℕ). handles r ++ l) e, λ n q. d n (c.0 n q), (λ n q. d n (c.1 n q), g))

-- Where all records know the nodes of their messages, waiting for all pending requests returns: it
-- waits for every handle that a record holds and for no other, no record is left, and the nodes of
-- the messages have no data.
pub wait_for_all_pending_mpi_requests-waits :
    (st : State)
    → IsTracked st
    → Returns
        (λ x.
          (x.0 ≡ all_handles (st.0).mpi_icomm_records)
          × ((x.1.0).mpi_icomm_records ≡ [])
          × NoData (st.0).mpi_icomm_records x.1.1)
        (wait_for_all_pending_mpi_requests st)
unfolding wait_for_all_pending_mpi_requests
wait_for_all_pending_mpi_requests-waits (s, w) t =
    Returns-bind _ _ (wait_all_records s.mpi_icomm_records w) _
      (wait_all_records-waits s.mpi_icomm_records w t.has_msg) λ x (e, d, g). (e, refl, g)

module _ (test : ℕ → Bool) where
  -- What is left of a record: nothing if both requests are live and finished.
  abbrev pub tested : MpiIcommRecord → Option MpiIcommRecord
  tested r =
      if is_finished test r.request0 && is_finished test r.request1
      then none
      else some (record r {
        request0 = drop_finished test r.request0;
        request1 = drop_finished test r.request1;
      })

  abbrev pub tested_at : Option MpiIcommRecord → Option MpiIcommRecord
  tested_at none = none
  tested_at (some r) = tested r

  -- The records after the call.
  record IsTested (before after : RecordMap) : Type 0 where
    tracked : Tracked after
    at : (k : ℕ) → find_record k after ≡ tested_at (find_record k before)
    above : (k : ℕ) → All (λ x. k < x.0) before → All (λ x. k < x.0) after

  IsTested-gone :
      (i : ℕ) (r : MpiIcommRecord) (map after : RecordMap)
      → Tracked ((i, r) ∷ map)
      → is_finished test r.request0 && is_finished test r.request1 ≡ true
      → IsTested map after
      → IsTested ((i, r) ∷ map) after
  unfolding find_record
  IsTested-gone i r map after t f g = record {
    tracked = g.tracked;
    at = λ k. elim (Bool-cases (i == k)) [
      | inl e ↦
          let same : i ≡ k = ground arith in
          let none_there : find_record k map ≡ none =
            subst (λ z. find_record z map ≡ none) same (find_record-above i map t.sorted.0) in
          g.at k ∙ rw (e, none_there) (sym (rw f refl))
      | inr e ↦ g.at k ∙ rw e refl
    ];
    above = λ k a. g.above k a.1;
  }

  IsTested-kept :
      (i : ℕ) (r : MpiIcommRecord) (map after : RecordMap)
      → Tracked ((i, r) ∷ map)
      → is_finished test r.request0 && is_finished test r.request1 ≡ false
      → IsTested map after
      → IsTested ((i, r) ∷ map) (
          (
            i,
            record r {
              request0 = drop_finished test r.request0;
              request1 = drop_finished test r.request1;
            },
          )
          ∷ after)
  unfolding find_record
  IsTested-kept i r map after t f g = record {
    tracked = record {
      sorted = (g.above i t.sorted.0, g.tracked.sorted);
      keyed = (t.keyed.0, g.tracked.keyed);
      has_msg = (t.has_msg.0, g.tracked.has_msg);
    };
    at = λ k. elim (Bool-cases (i == k)) [ inl e ↦ rw e (sym (rw f refl)) | inr e ↦ rw e (g.at k) ];
    above = λ k a. (a.0, g.above k a.1);
  }

  test_records-IsTested :
      (map : RecordMap) (w : Nodes)
      → Tracked map
      → Returns (λ x. IsTested map x.0) (test_records test map w)
  unfolding test_records find_record
  test_records-IsTested [] w t = record { tracked = nil-Tracked; at = λ k. refl; above = λ k a. tt }
  test_records-IsTested ((i, r) ∷ map) w t =
      let rest : Tracked map = record {
        sorted = t.sorted.1;
        keyed = t.keyed.1;
        has_msg = t.has_msg.1;
      } in
      elim (Bool-cases (is_finished test r.request0 && is_finished test r.request1)) [
        | inl f ↦ rw f (
            Returns-bind _ _ (release r w) (test_records test map) (release-clears r w t.has_msg.0)
              λ w' c.
                Returns-map _ _ (test_records test map w') (λ x g. IsTested-gone i r map x.0 t f g)
                  (test_records-IsTested map w' rest))
        | inr f ↦ rw f (
            Returns-bind _ _ (test_records test map w) _ (test_records-IsTested map w rest)
              λ x g. IsTested-kept i r map x.0 t f g)
      ]

  pub test_all_pending_mpi_requests-tested :
      (st : State)
      → IsTracked st
      → Returns
          (λ st'.
            IsTracked st'
            × ((k : ℕ)
                → find_record k (st'.0).mpi_icomm_records
                  ≡ tested_at (find_record k (st.0).mpi_icomm_records)))
          (test_all_pending_mpi_requests test st)
  unfolding test_all_pending_mpi_requests
  test_all_pending_mpi_requests-tested (s, w) t =
      Returns-bind _ _ (test_records test s.mpi_icomm_records w) _
        (test_records-IsTested s.mpi_icomm_records w t) λ x g. (g.tracked, g.at)
