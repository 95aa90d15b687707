-- ===== src/Graph/CriticalPath.antt =====
-- `Graph::getCriticalPath` of src/backend/Graph.cpp: the walk back from the end node to the start
-- node along the in-edges of least duration.
use casita.Prelude.{
  ℕ, zero, suc, Bool, true, false, not, ◌&&◌, ◌||◌, Option, none, some, List, [], ◌∷◌, ◌==◌, ltb,
  if◌then◌else◌, get_elem?,
}
use casita.Node.Defs.{Node}
use casita.Node.Order.{compare_less}
use casita.Edge.Defs.{Edge, get_weight, is_reverse_edge, is_inter_stream_edge, u64_max}
use casita.GraphNode.Search.{Found, at, rend, fault, out_of_fuel, find_node}
use casita.Graph.Defs.{Graph}

-- `findInFirst`: is the node among the first `num`?
unfoldable pub find_in_first : Node → List Node → ℕ → Bool
find_in_first n [] num = false
find_in_first n (g ∷ nodes) zero = false
find_in_first n (g ∷ nodes) (suc num) = if g.id == n.id then true else find_in_first n nodes num

-- The variables of the loop over the in-edges.
pub record Choice : Type 0 where
  pub max_weight : ℕ
  pub predecessor : Option Node
  pub loop_check : ℕ

unfoldable pub is_chosen : ℕ → Edge → Bool
is_chosen max_weight e =
    is_reverse_edge e && is_inter_stream_edge e
    || not e.blocking && (ltb max_weight (get_weight e) && not (get_weight e == u64_max))

unfoldable pub choose : Choice → Edge → Choice
unfolding is_chosen
choose c e =
    if is_chosen c.max_weight e
    then record {
      max_weight = get_weight e;
      predecessor = some e.start_node;
      loop_check = if is_reverse_edge e && ltb c.loop_check 10 then 10 else c.loop_check;
    }
    else c

unfoldable pub choose_all : Choice → List Edge → Choice
unfolding choose
choose_all c [] = c
choose_all c (e ∷ edges) = choose_all (choose c e) edges

-- The in-edges of the node; a node with no entry has no edges to look at.
unfoldable pub predecessor_of : Graph → Node → ℕ → Choice
unfolding choose_all
predecessor_of g current loop_check =
    let none_yet : Choice = record {
      max_weight = 0;
      predecessor = none;
      loop_check = loop_check;
    } in
    elim (g.in_edges current.id) [ none ↦ none_yet | some edges ↦ choose_all none_yet edges ]

-- The nodes in front of a position of the vector, downwards: the first, or the first of a stream.
-- `none` is a read in front of the vector.
unfoldable pub previous : List Node → ℕ → Option Node
previous nodes zero = none
previous nodes (suc i) = get_elem? nodes i

unfoldable pub previous_on : ℕ → List Node → ℕ → Option Node
previous_on stream nodes zero = none
previous_on stream nodes (suc i) =
    let rest = previous_on stream nodes i in
    elim (get_elem? nodes i) [
      | none ↦ none
      | some x ↦ if x.stream_id == stream then some x else rest
    ]

unfoldable pub take_previous : (Node → Bool) → List Node → Node → Found → Option Node
unfolding previous previous_on
take_previous has_caller nodes current (at i) =
    if has_caller current then previous_on current.stream_id nodes i else previous nodes i
take_previous has_caller nodes current rend = none
take_previous has_caller nodes current fault = none
take_previous has_caller nodes current out_of_fuel = none

unfoldable pub direct_predecessor : (Node → Bool) → List Node → Node → Option Node
unfolding take_previous
direct_predecessor has_caller nodes current =
    take_previous has_caller nodes current (find_node current nodes)

-- What one round of the `while` loop does: go on from a node, leave the loop, or read in front of
-- the vector.
pub data Round : Type 0 where
  go_on : Node → List Node → ℕ → Round
  stop : List Node → Round
  stray : Round

unfoldable pub round : (Node → Bool) → Graph → Node → List Node → ℕ → Round
round has_caller g current path loop_check =
    let c = predecessor_of g current loop_check in
    let circle = not (c.loop_check == 0) && find_in_first current path c.loop_check in
    elim c.predecessor [
      | some p ↦
          if circle
          then stop path
          else if current.id == p.id
          then stop (current ∷ path)
          else go_on p (current ∷ path) c.loop_check
      | none ↦ elim (direct_predecessor has_caller g.nodes current) [
        | none ↦ stray
        | some p ↦
            let path' = if circle then path else current ∷ path in
            if current.id == p.id then stop path' else go_on p path' c.loop_check
      ]
    ]

pub data Walk : Type 0 where
  path : List Node → Walk
  strayed walk_out_of_fuel : Walk

-- The `while` loop, and the start node in front.
unfoldable pub walk_back : (Node → Bool) → Graph → Node → ℕ → Node → List Node → ℕ → Walk
walk_back has_caller g start zero current nodes loop_check =
    if compare_less start current then walk_out_of_fuel else path (start ∷ nodes)
walk_back has_caller g start (suc fuel) current nodes loop_check =
    let rest : Walk = elim (round has_caller g current nodes loop_check) [
      | go_on p nodes' loop_check' ↦ walk_back has_caller g start fuel p nodes' loop_check'
      | stop nodes' ↦ path (start ∷ nodes')
      | stray ↦ strayed
    ] in
    if compare_less start current then rest else path (start ∷ nodes)

unfoldable pub get_critical_path : (Node → Bool) → ℕ → Graph → ℕ → Node → Node → Walk
get_critical_path has_caller fuel g loop_check start end =
    walk_back has_caller g start fuel end [] loop_check
