-- ===== src/Engine/WalkBack.antt =====
-- `GraphEngine::streamWalkBackward` of src/backend/GraphEngine.cpp ends, and what it visits.
use casita.Prelude.{
  ℕ, zero, suc, ◌<◌, ◌≡◌, refl, ◌⊎◌, inl, inr, Bool, true, false, none, some, ltb, arith,
  Bool-cases, Option-cases, ltb→lt,
}
use casita.Node.Defs.{Node}
use casita.Graph.Defs.{or_empty, Graph, get_in_edges}
use casita.Engine.Queries.{
  closest_from, no_edges, stuck, back_to, back_step, BackWalk, walked, thrown_on, walk_from,
  stream_walk_backward,
}
use casita.Engine.Closest.{IsClosest, Stuck, closest_from-IsClosest, Stuck-none, closest_latest}

-- A step of the walk: to the closest node, or the reason why there is none.
back_step_cases :
    (g : Graph) (n : Node)
    → ((back_step g n ≡ no_edges) × (g.in_edges n.id ≡ none))
      ⊎ (((back_step g n ≡ stuck) × Stuck g n)
          ⊎ ((m : Node) × (back_step g n ≡ back_to m)
              × (m.time < n.time)
              × IsClosest (or_empty (g.in_edges n.id)) m))
unfolding back_step get_in_edges
back_step_cases g n = elim (Option-cases (g.in_edges n.id)) [
  | inl e ↦ inl (rw (e, back_step, get_in_edges) refl, e)
  | inr (edges, e) ↦ elim (Option-cases (closest_from none edges)) [
    | inl c ↦ inr (
        inl
          (rw (e, back_step, get_in_edges, c) refl, rw e (λ m k. absurd (Stuck-none edges m c k))))
    | inr (m, c) ↦
        let best = closest_from-IsClosest edges m c in
        elim (Bool-cases (ltb m.time n.time)) [
          | inr l ↦ inr (
              inl (
                rw (e, back_step, get_in_edges, c, l) refl,
                rw e (λ k b. ground (arith, l, closest_latest edges m k best b)),
              ))
          | inl l ↦ inr (
              inr
                (m, rw (e, back_step, get_in_edges, c, l) refl, ltb→lt m.time n.time l, rw e best))
        ]
  ]
]

-- The walk from a node, as a relation of its result to the node and the data of the callback.
pub data Walk {U : Type 0} (callback : U → Node → U × Bool) (g : Graph)
    : Node → U → BackWalk U → Type 0 where
  threw : {n : Node} {u : U} → g.in_edges n.id ≡ none → Walk callback g n u (thrown_on u)
  stops : {n : Node} {u : U} → Stuck g n → Walk callback g n u (walked u)
  quits :
      {n m : Node} {u : U}
      → m.time < n.time
      → IsClosest (or_empty (g.in_edges n.id)) m
      → (callback u m).1 ≡ false
      → Walk callback g n u (walked (callback u m).0)
  goes :
      {n m : Node} {u : U} {r : BackWalk U}
      → m.time < n.time
      → IsClosest (or_empty (g.in_edges n.id)) m
      → (callback u m).1 ≡ true
      → Walk callback g m (callback u m).0 r
      → Walk callback g n u r

walk_from-Walk :
    {U : Type 0} (callback : U → Node → U × Bool) (g : Graph) (fuel : ℕ) (n : Node) (u : U)
    → n.time < fuel
    → Walk callback g n u (walk_from callback g fuel n u)
unfolding walk_from
walk_from-Walk callback g zero n u h = absurd (omega arith)
walk_from-Walk callback g (suc fuel) n u h = elim (back_step_cases g n) [
  | inl (e, q) ↦ rw (e, walk_from) (threw q)
  | inr (inl (e, q)) ↦ rw (e, walk_from) (stops q)
  | inr (inr (m, e, l, c)) ↦ elim (Bool-cases (callback u m).1) [
    | inr t ↦ rw (e, walk_from, t) (quits l c t)
    | inl t ↦
        rw (e, walk_from, t)
          (goes l c t (walk_from-Walk callback g fuel m (callback u m).0 (omega (arith, h, l))))
  ]
]

-- `streamWalkBackward` from a node ends on every graph and with every callback. It goes from a node
-- to the latest of the nodes of the same stream that an in-edge comes from, while that is earlier
-- and the callback agrees, and throws at a node that has no entry for in-edges.
pub stream_walk_backward-Walk :
    {U : Type 0} (callback : U → Node → U × Bool) (g : Graph) (n : Node) (u : U)
    → Walk callback g n u (stream_walk_backward callback g (some n) u)
unfolding stream_walk_backward
stream_walk_backward-Walk callback g n u = walk_from-Walk callback g (suc n.time) n u (omega arith)
