-- ===== src/GraphNode/Search.antt =====
-- The binary searches for a node of src/backend/include/graph/GraphNode.hpp, and the one of
-- src/backend/EventStream.cpp, which is the same code. A `size_t` is a number modulo 2^64. The
-- variables of the searches that only their diagnostics print are left out; the diagnostics on a range
-- of one node that does not match print the nodes around it, which may lie outside of the vector.
use casita.Prelude.{
  ℕ, zero, suc, ◌+◌, ◌-◌, ◌/◌, ◌%◌, Bool, ◌&&◌, Option, none, some, List, [], ◌∷◌, ◌==◌, ltb,
  if◌then◌else◌, length, get_elem?,
}
use casita.Node.Defs.{Node, u64}
use casita.Node.Order.{compare_less}

-- A position in the vector, the end of the search with no match, a read outside the vector, or a
-- loop that did not end within the fuel.
pub data Found : Type 0 where
  at : ℕ → Found
  rend fault out_of_fuel : Found

-- `index - 1` and `indexMax - ( indexMax - indexMin ) / 2` of `size_t`.
unfoldable pub dec : ℕ → ℕ
dec index = (index + u64 - 1) % u64

unfoldable pub middle : ℕ → ℕ → ℕ
middle index_min index_max = index_max - (index_max - index_min) / 2

-- The diagnostics read `nodes[index - 3]` to `nodes[index + 3]`, by a `size_t` that wraps around.
unfoldable pub reads_outside : List Node → ℕ → Bool
reads_outside nodes index =
    ltb ((index + u64 - 3) % u64) ((index + 4) % u64) && ltb (length nodes) ((index + 4) % u64)

unfoldable pub on_break : List Node → ℕ → Found
unfolding reads_outside
on_break nodes index = if reads_outside nodes index then fault else rend

module _ (hit before : Node → Bool) (nodes : List Node) where
  -- The loop: `hit` compares with the sought node, `before` asks whether that comes earlier.
  unfoldable pub search_loop : ℕ → ℕ → ℕ → Found
  unfolding on_break
  search_loop zero index_min index_max = out_of_fuel
  search_loop (suc fuel) index_min index_max =
      let index = middle index_min index_max in
      elim (get_elem? nodes index) [
        | none ↦ fault
        | some x ↦
            let index_min' = if before x then index_min else index + 1 in
            let index_max' = if before x then dec index else index_max in
            let rest = search_loop fuel index_min' index_max' in
            if hit x
            then at index
            else if index_min == index_max
            then on_break nodes index
            else if ltb index_max' index_min'
            then rend
            else rest
      ]

unfoldable pub same_node : Node → Node → Bool
same_node n x = x.id == n.id

-- `findNode( node, nodes )`: a reverse iterator, that is a position or `rend()`.
unfoldable pub find_node : Node → List Node → Found
find_node n [] = rend
find_node n (x ∷ []) = at 0
find_node n (x ∷ y ∷ rest) =
    let nodes = x ∷ y ∷ rest in
    search_loop (same_node n) (compare_less n) nodes (length nodes) 0 (length nodes - 1)

-- The node pointer that a search by identifier returns. `none` is NULL.
pub data Returned : Type 0 where
  node : Option Node → Returned
  failed : Returned

unfoldable pub or_front : List Node → Found → Returned
or_front nodes (at index) = elim (get_elem? nodes index) [ none ↦ failed | some x ↦ node (some x) ]
or_front nodes rend = node (get_elem? nodes 0)
or_front nodes fault = failed
or_front nodes out_of_fuel = failed

unfoldable pub has_id : ℕ → Node → Bool
has_id node_id x = x.id == node_id

-- `findNode( nodeId, nodes )`.
unfoldable pub find_node_by_id : ℕ → List Node → Returned
unfolding or_front
find_node_by_id node_id [] = node none
find_node_by_id node_id (x ∷ []) = node (some x)
find_node_by_id node_id (x ∷ y ∷ rest) =
    let nodes = x ∷ y ∷ rest in
    or_front nodes (
      search_loop (has_id node_id) (λ z. ltb node_id z.id) nodes (length nodes) 0
        (length nodes - 1))
