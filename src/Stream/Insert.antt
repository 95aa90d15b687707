-- ===== src/Stream/Insert.antt =====
-- `EventStream::insertGraphNode` of src/backend/EventStream.cpp.
use casita.Prelude.{
  ℕ, ◌^◌, true, Option, none, some, List, [], ◌∷◌, ◌++◌, if◌then◌else◌, find_first,
}
use casita.Node.Defs.{Node}
use casita.Node.Order.{compare_less}
use casita.Stream.Defs.{EventStream, GraphData, paradigm_indices}
use casita.Stream.Add.{put}
use casita.Stream.Consistent.{has_bit}

-- Where the loop puts the node: between the nodes in front and those behind, at the end by
-- `push_back`, or nowhere if the vector is empty.
pub data Place : Type 0 where
  between : List Node → List Node → Place
  pushed nowhere : Place

unfoldable pub in_front : Node → Place → Place
in_front x (between front back) = between (x ∷ front) back
in_front x pushed = pushed
in_front x nowhere = nowhere

unfoldable pub find_place : Node → List Node → Place
unfolding in_front
find_place n [] = nowhere
find_place n (x ∷ []) = pushed
find_place n (x ∷ next ∷ rest) =
    let later = find_place n (next ∷ rest) in
    if compare_less n next then between (x ∷ []) (next ∷ rest) else in_front x later

-- The last node of a paradigm, and `std::map::insert`, which keeps an old entry.
unfoldable pub find_previous : ℕ → List Node → Option Node
find_previous i [] = none
find_previous i (x ∷ rest) = elim (find_previous i rest) [
  | some y ↦ some y
  | none ↦ if has_bit i x then some x else none
]

unfoldable pub insert_entry : (ℕ → Option Node) → ℕ → Option Node → ℕ → Option Node
unfolding put
insert_entry map paradigm none = map
insert_entry map paradigm (some n) = elim (map paradigm) [
  | some old ↦ map
  | none ↦ put map paradigm (some n)
]

unfoldable pub insert_data : Node → ℕ → Option Node → GraphData → GraphData
insert_data n i next_node data' =
    if has_bit i n
    then record {
      first_node = elim data'.first_node [ none ↦ some n | some first ↦ some first ];
      last_node = elim next_node [ none ↦ some n | some next ↦ data'.last_node ];
    }
    else data'

-- The stream and the maps of neighbours after the call. On a node that is pushed or put nowhere the
-- code goes on with an iterator that is no longer valid.
pub data Inserted : Type 0 where
  inserted : EventStream → (ℕ → Option Node) → (ℕ → Option Node) → Inserted
  invalid_iterator : Inserted

-- The loops over the paradigms.
unfoldable pub add_neighbours :
    Node
    → List Node
    → List Node
    → List ℕ
    → EventStream
    → (ℕ → Option Node)
    → (ℕ → Option Node)
    → Inserted
unfolding find_previous insert_entry insert_data put
add_neighbours n front back [] s pred next = inserted s pred next
add_neighbours n front back (i ∷ rest) s pred next =
    add_neighbours n front back rest
      (record s {
        graph_data =
            put s.graph_data i (insert_data n i (find_first (has_bit i) back) (s.graph_data i));
      })
      (insert_entry pred (2 ^ i) (find_previous i front))
      (insert_entry next (2 ^ i) (find_first (has_bit i) back))

unfoldable pub later_node : Node → Option Node → Node
later_node n none = n
later_node n (some last) = if compare_less last n then n else last

unfoldable pub insert_graph_node :
    Node → EventStream → (ℕ → Option Node) → (ℕ → Option Node) → Inserted
unfolding find_place add_neighbours later_node
insert_graph_node n s pred next = elim (find_place n s.nodes) [
  | between front back ↦
      add_neighbours n front back paradigm_indices
        (record s {
          nodes_added = true;
          last_node = some (later_node n s.last_node);
          nodes = front ++ n ∷ back;
        })
        pred next
  | pushed ↦ invalid_iterator
  | nowhere ↦ invalid_iterator
]
