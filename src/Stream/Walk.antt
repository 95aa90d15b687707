-- ===== src/Stream/Walk.antt =====
-- `EventStream::walkBackward` and `walkForward` of src/backend/EventStream.cpp. The callback and its
-- user data are parameters.
use casita.Prelude.{
  ℕ, zero, suc, ◌<◌, ◌≡◌, Bool, true, false, Option, none, some, List, [], ◌∷◌, ◌==◌, if◌then◌else◌,
  arith, length, get_elem?, get_elem?-lt, lt-length_of_get_elem?, Bool-cases, refl, inl, inr,
}
use casita.Node.Defs.{Node, u64}
use casita.GraphNode.Search.{Found, at, rend, fault, out_of_fuel, find_node, same_node}
use casita.GraphNode.FindNode.{IsSorted, find_node_hit}

-- Where the walk starts. `none`: the end of the vector is dereferenced.
unfoldable pub find_back : Node → List Node → Option ℕ
find_back n [] = none
find_back n (x ∷ nodes) = elim (find_back n nodes) [
  | some i ↦ some (suc i)
  | none ↦ if x.id == n.id then some 0 else none
]

unfoldable pub check_found : Node → List Node → Found → Option ℕ
unfolding find_back same_node
check_found n nodes (at i) = elim (get_elem? nodes i) [
  | none ↦ none
  | some x ↦ if same_node n x then some i else find_back n nodes
]
check_found n nodes rend = none
check_found n nodes fault = none
check_found n nodes out_of_fuel = none

unfoldable pub locate : Node → List Node → Option ℕ
unfolding check_found
locate n nodes = check_found n nodes (find_node n nodes)

-- The nodes from a position down to the first one, and those behind a position.
abbrev pub with_item : Option Node → List Node → List Node
with_item none rest = rest
with_item (some x) rest = x ∷ rest

unfoldable pub downwards : List Node → ℕ → List Node
downwards nodes zero = with_item (get_elem? nodes 0) []
downwards nodes (suc i) = with_item (get_elem? nodes (suc i)) (downwards nodes i)

unfoldable pub behind : List Node → ℕ → List Node
behind [] i = []
behind (x ∷ nodes) zero = nodes
behind (x ∷ nodes) (suc i) = behind nodes i

pub data WalkEnd (U : Type 0) : Type 0 where
  ended : U → Bool → WalkEnd U
  bad_node : WalkEnd U

module _ {U : Type 0} (callback : U → Node → U × Bool) where
  -- The loop that both walks share, with the `result` of the last call.
  unfoldable pub visit : U → Bool → List Node → WalkEnd U
  visit u result [] = ended u result
  visit u result (n ∷ nodes) =
      let answer = callback u n in
      let rest = visit answer.0 true nodes in if answer.1 then rest else ended answer.0 false

  unfoldable pub walk_backward : Option Node → List Node → U → WalkEnd U
  walk_backward none nodes u = ended u false
  walk_backward (some n) nodes u = elim (locate n nodes) [
    | none ↦ bad_node
    | some i ↦ visit u false (downwards nodes i)
  ]

  unfoldable pub walk_forward : Option Node → List Node → U → WalkEnd U
  walk_forward none nodes u = ended u false
  walk_forward (some n) nodes u = elim (locate n nodes) [
    | none ↦ bad_node
    | some i ↦ visit u false (behind nodes i)
  ]

locate_sorted :
    (n : Node) (nodes : List Node) (k : ℕ)
    → IsSorted nodes
    → length nodes < u64
    → get_elem? nodes k ≡ some n
    → locate n nodes ≡ some k
unfolding locate
locate_sorted n nodes k s p e = rw (find_node_hit n nodes k s p e) (ground arith)

-- The calls of a walk from a position down to the first one, each with the state that the one before
-- left, up to the first call that returns false.
pub data Calls {U : Type 0} (callback : U → Node → U × Bool) (nodes : List Node)
    : ℕ → U → U → Bool → Type 0 where
  stops :
      {k : ℕ} {u u' : U} {n : Node}
      → get_elem? nodes k ≡ some n
      → callback u n ≡ (u', false)
      → Calls callback nodes k u u' false
  at_first :
      {u u' : U} {n : Node}
      → get_elem? nodes 0 ≡ some n
      → callback u n ≡ (u', true)
      → Calls callback nodes 0 u u' true
  goes_on :
      {k : ℕ} {u u' u'' : U} {n : Node} {result : Bool}
      → get_elem? nodes (suc k) ≡ some n
      → callback u n ≡ (u', true)
      → Calls callback nodes k u' u'' result
      → Calls callback nodes (suc k) u u'' result

module _ {U : Type 0} (callback : U → Node → U × Bool) (nodes : List Node) where
  -- What the walk down from a position gives.
  Visited : ℕ → U → Bool → Type 0
  Visited k u start =
      (u' : U) × (result : Bool) × (visit callback u start (downwards nodes k) ≡ ended u' result)
      × Calls callback nodes k u u' result

  visit-Visited : (k : ℕ) (u : U) (start : Bool) → k < length nodes → Visited k u start
  unfolding Visited visit downwards
  visit-Visited zero u start h =
      let (n, e) = get_elem?-lt nodes 0 h in
      let u' = (callback u n).0 in
      elim (Bool-cases (callback u n).1) [
        | inl t ↦ (u', true, rw (e, t) refl, at_first e (rw (← t) refl))
        | inr t ↦ (u', false, rw (e, t) refl, stops e (rw (← t) refl))
      ]
  visit-Visited (suc k) u start h =
      let (n, e) = get_elem?-lt nodes (suc k) h in
      elim (Bool-cases (callback u n).1) [
        | inr t ↦ ((callback u n).0, false, rw (e, t) refl, stops e (rw (← t) refl))
        | inl t ↦
            let (u'', result, run, calls) =
              visit-Visited k (callback u n).0 true (omega (arith, h)) in
            (u'', result, rw (e, t) run, goes_on e (rw (← t) refl) calls)
      ]

  -- In the sorted vector of one stream, of fewer than 2^64 nodes, a walk backward from a node of it,
  -- with any callback and user data, ends. It calls the callback on that node and then on those in
  -- front of it, one after the other, each call with the user data that the one before left, up to
  -- the first call that returns false. The walk is successful if no call does.
  pub walk_backward-Calls :
      (u : U) (n : Node) (k : ℕ)
      → IsSorted nodes
      → length nodes < u64
      → get_elem? nodes k ≡ some n
      → (u' : U) × (result : Bool) × (walk_backward callback (some n) nodes u ≡ ended u' result)
        × Calls callback nodes k u u' result
  unfolding walk_backward Visited
  walk_backward-Calls u n k s p e =
      let (u', result, run, calls) = visit-Visited k u false (lt-length_of_get_elem? nodes k n e) in
      (u', result, rw (locate_sorted n nodes k s p e, walk_backward) run, calls)
