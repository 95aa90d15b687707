-- ===== src/Graph/SortedInsert.antt =====
-- `Graph::sortedInsert` of src/backend/Graph.cpp.
use casita.Prelude.{
  ℕ, ◌≤◌, ◌<◌, inl, inr, Bool-cases, List, [], ◌∷◌, leb, if◌then◌else◌, arith, Pairwise, All,
}
use casita.Node.Defs.{Node}

module _ (distance : ℕ → ℕ) where
  -- `current` is before the rest of the list; the node goes in front of `current` once the next one
  -- is as far, or is the end. The last line of the function is reached for the empty list only.
  unfoldable pub insert_before : Node → Node → List Node → List Node
  insert_before n current [] = n ∷ current ∷ []
  insert_before n current (next ∷ rest) =
      if leb (distance n.id) (distance next.id)
      then n ∷ current ∷ next ∷ rest
      else current ∷ insert_before n next rest

  unfoldable pub sorted_insert : Node → List Node → List Node
  unfolding insert_before
  sorted_insert n [] = n ∷ []
  sorted_insert n (current ∷ rest) = insert_before n current rest

  abbrev pub IsByDistance : List Node → Type 0
  IsByDistance = Pairwise (λ x y. distance x.id ≤ distance y.id)

  insert_before_unsorted :
      (n current : Node) (rest : List Node)
      → All (λ m. distance m.id < distance n.id) (current ∷ rest)
      → ¬ IsByDistance (insert_before n current rest)
  unfolding insert_before
  insert_before_unsorted n current [] h s = omega arith
  insert_before_unsorted n current (next ∷ rest) h s =
      elim (Bool-cases (leb (distance n.id) (distance next.id))) [
        | inl t ↦ ground (arith, h.1.0)
        | inr t ↦
            let s' : IsByDistance (current ∷ insert_before n next rest) = rw t at s in
            insert_before_unsorted n next rest h.1 s'.1
      ]

  -- A node that is farther than all nodes of a list is put in front of the last one, so the list
  -- that results is not sorted by distance, whatever the list was, if it has a node.
  pub sorted_insert_unsorted :
      (n current : Node) (rest : List Node)
      → All (λ m. distance m.id < distance n.id) (current ∷ rest)
      → ¬ IsByDistance (sorted_insert n (current ∷ rest))
  unfolding sorted_insert
  sorted_insert_unsorted n current rest h = insert_before_unsorted n current rest h
