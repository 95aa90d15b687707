-- ===== src/Stream/AddLaws.antt =====
-- What `EventStream::addGraphNode` keeps: src/backend/EventStream.cpp.
use casita.Prelude.{
  ℕ, zero, suc, ◌^◌, ◌<◌, ◌≡◌, ◌≢◌, refl, sym, ◌∙◌, inl, inr, Bool, true, false, ◌&&◌, List, [],
  ◌∷◌, ◌==◌, if◌then◌else◌, arith, All, Pairwise, Bool-cases,
}
use casita.Node.Defs.{Node, has_paradigm}
use casita.Stream.Defs.{EventStream, GraphData, GraphTable, value, get_last_paradigm_node}
use casita.Stream.Add.{
  Links, PredNodes, put, note_predecessor, is_before, set_data, Added, thrown, next, refuse,
  add_paradigm, append_node, add_paradigms,
}

get_last_paradigm_node_lem :
    (s : EventStream) (i : ℕ)
    → i < 4
    → get_last_paradigm_node s (2 ^ i) ≡ value (s.graph_data i).last_node
unfolding get_last_paradigm_node
get_last_paradigm_node_lem s zero h = refl
get_last_paradigm_node_lem s (suc zero) h = refl
get_last_paradigm_node_lem s (suc (suc zero)) h = refl
get_last_paradigm_node_lem s (suc (suc (suc zero))) h = refl
get_last_paradigm_node_lem s (suc (suc (suc (suc i)))) h = absurd (omega arith)

-- The entry of paradigm `i` once the node is taken in.
abbrev pub filled : Node → EventStream → ℕ → GraphData
filled n s i = if has_paradigm n (2 ^ i) then set_data n (s.graph_data i) else s.graph_data i

-- The node is before the last node of paradigm `i`, which it has.
abbrev pub is_refused : Node → EventStream → ℕ → Bool
is_refused n s i = has_paradigm n (2 ^ i) && is_before n (s.graph_data i).last_node

abbrev pub mem : ℕ → List ℕ → Bool
mem j [] = false
mem j (i ∷ is) = if i == j then true else mem j is

add_paradigm-next :
    (n : Node) (i : ℕ) (s : EventStream) (pred : PredNodes)
    → i < 4
    → is_refused n s i ≡ false
    → (table : GraphTable) × (pred' : PredNodes) × (add_paradigm n i s pred
        ≡ next (record s { graph_data = table }) pred')
      × ((j : ℕ) → table j ≡ (if i == j then filled n s j else s.graph_data j))
unfolding add_paradigm
add_paradigm-next n i s pred h r = (
  (if has_paradigm n (2 ^ i)
      then put s.graph_data i (set_data n (s.graph_data i))
      else s.graph_data),
  note_predecessor pred (2 ^ i) (s.graph_data i).last_node,
  ground (arith, get_last_paradigm_node_lem s i h),
  λ j. ground arith,
)

add_paradigm-refuse :
    (n : Node) (i : ℕ) (s : EventStream) (pred : PredNodes)
    → i < 4
    → is_refused n s i ≡ true
    → add_paradigm n i s pred ≡ refuse s (note_predecessor pred (2 ^ i) (s.graph_data i).last_node)
unfolding add_paradigm
add_paradigm-refuse n i s pred h r = ground (arith, get_last_paradigm_node_lem s i h)

-- How the loop over the paradigms `is` ends.
pub data Outcome (n : Node) (is : List ℕ) (s : EventStream) (links : Links) : Added → Type 0 where
  accepts :
      (table : GraphTable) (pred : PredNodes)
      → ((j : ℕ) → table j ≡ (if mem j is then filled n s j else s.graph_data j))
      → All (λ i. is_refused n s i ≡ false) is
      → Outcome n is s links (append_node n (record s { graph_data = table }) links pred)
  refuses :
      (table : GraphTable) (pred : PredNodes) (i : ℕ)
      → mem i is ≡ true
      → is_refused n s i ≡ true
      → Outcome n is s links (thrown (record s { graph_data = table }) pred)

mem-ne : (i j : ℕ) (is : List ℕ) → All (λ k. i ≢ k) is → mem j is ≡ true → i ≢ j
mem-ne i j [] h m = absurd (cc)
mem-ne i j (k ∷ is) h m = elim (Bool-cases (k == j)) [
  | inl t ↦ λ e. h.0 (ground arith)
  | inr t ↦ mem-ne i j is h.1 (ground arith)
]

module _ (n : Node) (i : ℕ) (s : EventStream) (table : GraphTable)
    (t : (j : ℕ) → table j ≡ (if i == j then filled n s j else s.graph_data j)) where
  abbrev s' : EventStream
  s' = record s { graph_data = table }

  refused-ne : (k : ℕ) → i ≢ k → is_refused n s' k ≡ is_refused n s k
  refused-ne k d = ground (arith, t k)

  refused-All :
      (is : List ℕ)
      → All (λ k. i ≢ k) is
      → All (λ k. is_refused n s' k ≡ false) is
      → All (λ k. is_refused n s k ≡ false) is
  refused-All [] d h = tt
  refused-All (k ∷ is) d h = (sym (refused-ne k d.0) ∙ h.0, refused-All is d.1 h.1)

  table-extend :
      (is : List ℕ) (j : ℕ)
      → All (λ k. i ≢ k) is
      → (if mem j is then filled n s' j else s'.graph_data j)
        ≡ (if mem j (i ∷ is) then filled n s j else s.graph_data j)
  table-extend is j d = elim (Bool-cases (mem j is)) [
    | inl m ↦ ground (arith, t j, mem-ne i j is d m)
    | inr m ↦ ground (arith, t j)
  ]

  Outcome-extend :
      (is : List ℕ) (links : Links) {a : Added}
      → All (λ k. i ≢ k) is
      → is_refused n s i ≡ false
      → Outcome n is s' links a
      → Outcome n (i ∷ is) s links a
  Outcome-extend is links d r (accepts table' pred f h) =
      accepts table' pred (λ j. f j ∙ table-extend is j d) (r, refused-All is d h)
  Outcome-extend is links d r (refuses table' pred k m h) =
      refuses table' pred k (ground arith) (sym (refused-ne k (mem-ne i k is d m)) ∙ h)

pub add_paradigms-Outcome :
    (n : Node) (is : List ℕ) (s : EventStream) (links : Links) (pred : PredNodes)
    → All (λ i. i < 4) is
    → Pairwise (λ i j. i ≢ j) is
    → Outcome n is s links (add_paradigms n is s links pred)
unfolding add_paradigms
add_paradigms-Outcome n [] s links pred b d = accepts s.graph_data pred (λ j. refl) tt
add_paradigms-Outcome n (i ∷ is) s links pred b d = elim (Bool-cases (is_refused n s i)) [
  | inl r ↦
      rw (add_paradigm-refuse n i s pred b.0 r, add_paradigms)
        (refuses s.graph_data _ i (ground arith) r)
  | inr r ↦
      let (table, pred', e, t) = add_paradigm-next n i s pred b.0 r in
      rw (e, add_paradigms)
        (Outcome-extend n i s table t is links d.0 r
          (add_paradigms-Outcome n is (record s { graph_data = table }) links pred' b.1 d.1))
]
