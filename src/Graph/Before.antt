-- ===== src/Graph/Before.antt =====
-- The direct predecessor that `Graph::getCriticalPath` of src/backend/Graph.cpp takes from the
-- vector of nodes stands before the node.
use casita.Prelude.{
  ℕ, zero, suc, ◌<◌, ◌≡◌, refl, ap, ◌⊎◌, inl, inr, Bool, some, List, [], ◌∷◌, arith, subst, length,
  get_elem?, Pairwise, Pairwise-get_elem?, Bool-cases, Option-cases, ◌==◌,
}
use casita.Node.Defs.{Node, u64}
use casita.GraphNode.Search.{Found, at, rend, fault, out_of_fuel, find_node, same_node}
use casita.GraphNode.FindNode.{Sound, find_node-Sound}
use casita.Graph.CriticalPath.{previous, previous_on, take_previous, direct_predecessor}

-- A node of the vector in front of position `i`.
abbrev InFront : List Node → ℕ → Node → Type 0
InFront nodes i p = (j : ℕ) × (j < i) × (get_elem? nodes j ≡ some p)

previous-InFront :
    (nodes : List Node) (i : ℕ) (p : Node) → previous nodes i ≡ some p → InFront nodes i p
unfolding previous
previous-InFront nodes zero p h = absurd (cc)
previous-InFront nodes (suc i) p h = (i, omega arith, h)

previous_on-InFront :
    (s : ℕ) (nodes : List Node) (i : ℕ) (p : Node)
    → previous_on s nodes i ≡ some p
    → InFront nodes i p
unfolding previous_on
previous_on-InFront s nodes zero p h = absurd (cc)
previous_on-InFront s nodes (suc i) p h = elim (Option-cases (get_elem? nodes i)) [
  | inl e ↦ absurd (ground arith)
  | inr (x, e) ↦ elim (Bool-cases (x.stream_id == s)) [
    | inl t ↦ (i, omega arith, ground arith)
    | inr t ↦ let (j, q, f) = previous_on-InFront s nodes i p (ground arith) in (j, omega arith, f)
  ]
]

find_node_at :
    (n : Node) (nodes : List Node) (i : ℕ)
    → length nodes < u64
    → find_node n nodes ≡ at i
    → (i ≡ 0) ⊎ ((x : Node) × (get_elem? nodes i ≡ some x) × (x.id ≡ n.id))
unfolding find_node same_node
find_node_at n [] i p h = inl (ground arith)
find_node_at n (x ∷ []) i p h = inl (ground arith)
find_node_at n (x ∷ y ∷ rest) i p h =
    let (z, e, m) =
      subst (Sound (same_node n) (x ∷ y ∷ rest)) h
        (find_node-Sound n (x ∷ y ∷ rest) (omega arith) p) in
    inr (z, e, ground arith)

take_previous-InFront :
    (has_caller : Node → Bool) (nodes : List Node) (c p : Node) (f : Found)
    → take_previous has_caller nodes c f ≡ some p
    → (i : ℕ) × (f ≡ at i) × InFront nodes i p
unfolding take_previous
take_previous-InFront has_caller nodes c p (at i) h = elim (Bool-cases (has_caller c)) [
  | inl t ↦ (i, refl, previous_on-InFront c.stream_id nodes i p (rw (t, take_previous) at h))
  | inr t ↦ (i, refl, previous-InFront nodes i p (rw (t, take_previous) at h))
]
take_previous-InFront has_caller nodes c p rend h = absurd (cc)
take_previous-InFront has_caller nodes c p fault h = absurd (cc)
take_previous-InFront has_caller nodes c p out_of_fuel h = absurd (cc)

-- The direct predecessor is a node of the vector, of a lower rank than the node itself, where the
-- ranks rise along the vector.
pub direct_predecessor_before :
    (rank : ℕ → ℕ) (has_caller : Node → Bool) (nodes : List Node) (c p : Node)
    → Pairwise (λ x y. rank x.id < rank y.id) nodes
    → length nodes < u64
    → direct_predecessor has_caller nodes c ≡ some p
    → (rank p.id < rank c.id) × ((j : ℕ) × (get_elem? nodes j ≡ some p))
unfolding direct_predecessor
direct_predecessor_before rank has_caller nodes c p sorted small h =
    let (i, e, (j, q, g)) = take_previous-InFront has_caller nodes c p (find_node c nodes) h in
    elim (find_node_at c nodes i small e) [
      | inl z ↦ absurd (omega arith)
      | inr (x, f, same) ↦ (
        omega (
          arith,
          ap rank same,
          Pairwise-get_elem? (λ x y. rank x.id < rank y.id) nodes j i p x sorted q g f,
        ),
        (j, g),
      )
    ]
