-- ===== src/GraphNode/TimeSearch.antt =====
-- The binary searches for a point in time of src/backend/include/graph/GraphNode.hpp.
use casita.Prelude.{
  ℕ, zero, suc, ◌+◌, ◌-◌, Bool, not, none, some, List, [], ◌∷◌, ◌==◌, ltb, leb, if◌then◌else◌,
  length, get_elem?,
}
use casita.Node.Defs.{Node}
use casita.GraphNode.Search.{
  Found, at, rend, fault, out_of_fuel, middle, Returned, node, failed, or_front,
}

module _ (nodes : List Node) where
  -- A test of the time stamp of `nodes[index]`.
  unfoldable pub check : (Node → Bool) → ℕ → Found → Found → Found
  check test index pass fail = elim (get_elem? nodes index) [
    | none ↦ fault
    | some x ↦ if test x then pass else fail
  ]

  -- The loop both searches share: `go_left` chooses the half, `pair` decides between two neighbours
  -- and `alone` on a single node that is left.
  unfoldable pub narrow : (Node → Bool) → (ℕ → ℕ → Found) → (ℕ → Found) → ℕ → ℕ → ℕ → Found
  narrow go_left pair alone zero index_min index_max = out_of_fuel
  narrow go_left pair alone (suc fuel) index_min index_max =
      let index = middle index_min index_max in
      let rest : Found = elim (get_elem? nodes index) [
        | none ↦ fault
        | some x ↦
            let index_min' = if go_left x then index_min else index in
            let index_max' = if go_left x then index else index_max in
            let next = narrow go_left pair alone fuel index_min' index_max' in
            if ltb index_max' index_min' then rend else next
      ] in
      if index_min + 1 == index_max
      then pair index_min index_max
      else if index_min == index_max
      then alone index_max
      else rest

  -- The walk down from a wrong node: `while( index > 0 )`.
  unfoldable pub scan_down : ℕ → ℕ → Returned
  scan_down time zero = elim (get_elem? nodes 0) [ none ↦ failed | some x ↦ node (some x) ]
  scan_down time (suc index) = elim (get_elem? nodes (suc index)) [
    | none ↦ failed
    | some x ↦ let rest = scan_down time index in if leb x.time time then node (some x) else rest
  ]

  -- What follows the loop: the found node, unless it is `wrong`, and the first node if there is none.
  unfoldable pub settle : (Node → Bool) → ℕ → Found → Returned
  unfolding scan_down or_front
  settle wrong time (at index) = elim (get_elem? nodes index) [
    | none ↦ failed
    | some x ↦ if wrong x then scan_down time index else node (some x)
  ]
  settle wrong time rend = or_front nodes rend
  settle wrong time fault = failed
  settle wrong time out_of_fuel = failed

-- `findLastNodeBefore( time, nodes )`.
unfoldable pub find_last_node_before : ℕ → List Node → Returned
unfolding check settle
find_last_node_before time [] = node none
find_last_node_before time (x ∷ []) = node (some x)
find_last_node_before time (x ∷ y ∷ rest) =
    let nodes = x ∷ y ∷ rest in
    let early = λ (n : Node). leb n.time time in
    settle nodes (λ n. ltb time n.time) time
      (narrow nodes (λ n. ltb time n.time) (λ lo hi. check nodes early hi (at hi) (at lo))
        (λ hi. check nodes early hi (at hi) rend) (length nodes) 0 (length nodes - 1))

-- `findFirstNodeAfter( time, nodes )`.
unfoldable pub find_first_node_after : ℕ → List Node → Returned
unfolding check settle
find_first_node_after time [] = node none
find_first_node_after time (x ∷ []) = node (some x)
find_first_node_after time (x ∷ y ∷ rest) =
    let nodes = x ∷ y ∷ rest in
    let late = λ (n : Node). leb time n.time in
    settle nodes (λ n. ltb n.time time) time
      (narrow nodes (λ n. not (ltb n.time time)) (λ lo hi. check nodes late lo (at lo) (at hi))
        (λ hi. check nodes late hi (at hi) rend) (length nodes) 0 (length nodes - 1))
