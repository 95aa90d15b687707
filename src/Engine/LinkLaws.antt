-- ===== src/Engine/LinkLaws.antt =====
-- The edges of a node at the end of its stream: `addNewGraphNodeInternal` of
-- src/backend/GraphEngine.cpp.
use casita.Prelude.{
  ℕ, ◌^◌, ◌≡◌, refl, sym, subst, ◌⊎◌, All, inl, inr, false, none, some, ◌==◌, Bool-cases,
  Option-cases,
}
use casita.Node.Paradigm
use casita.Node.Defs.{Node}
use casita.Graph.Defs.{Graph}
use casita.Stream.Defs.{paradigm_indices}
use casita.Engine.Defs.{ok, get_edge}
use casita.Engine.Nodes.{
  NodeMap, direct_predecessor_of, direct_successor_of, Linking, link_paradigms, link_direct_pred,
  link_direct_succ, link_node,
}
use casita.Engine.Joining.{IsIdentified, Joined, link_paradigms-Marked, link_direct_pred-Joined}
use casita.Engine.Latest.{
  IsLatest, direct_predecessor_of-IsLatest, direct_predecessor_of-none, direct_successor_of-none,
}

-- Linking a node without successors, to which no edge leads yet and whose predecessors differ in their
-- identifiers, always succeeds. If it has no predecessors, nothing changes. Otherwise there is an edge
-- to it from one of its predecessors that no other one is later than. The edge blocks exactly if the
-- two are the enter and the leave of a wait state; its paradigm is that of the predecessor, or one
-- that the node has and whose predecessor that is.
pub link_node-Joined :
    (n : Node) (preds nexts : NodeMap) (g : Graph)
    → ((k : ℕ) → nexts k ≡ none)
    → ((m : Node) → get_edge m n g ≡ none)
    → IsIdentified preds
    → (g' : Graph) × (link_node n preds nexts g ≡ ok g')
      × ((All (λ i. preds (2 ^ i) ≡ none) paradigm_indices × (g' ≡ g))
          ⊎ ((pred : Node) × IsLatest preds pred × Joined n preds pred g'))
unfolding link_node link_direct_succ
link_node-Joined n preds nexts g w fresh u = elim (Option-cases (direct_predecessor_of preds)) [
  | inl e ↦ (g, rw (e, link_node) refl, inl (direct_predecessor_of-none preds e, refl))
  | inr (pred, e) ↦
      let start : Linking = record { graph = g; pred_linked = false; succ_linked = false } in
      let no_succ : direct_successor_of nexts ≡ none = direct_successor_of-none nexts w in
      let found = direct_predecessor_of-IsLatest preds pred e in
      elim (Bool-cases (n.paradigm == Paradigm.mpi)) [
        | inl t ↦
            let (l, run, m) =
              link_paradigms-Marked n preds pred (2 ^ found.paradigm) nexts paradigm_indices start u
                found.listed w (inr (refl, fresh pred)) in
            let run' : link_paradigms n preds nexts (some pred) (direct_successor_of nexts)
                  paradigm_indices start
                ≡ ok l =
              subst (λ o. link_paradigms n preds nexts (some pred) o paradigm_indices start ≡ ok l)
                (sym no_succ) run in
            (
              link_direct_pred n pred l,
              rw (e, link_node, t, run', no_succ, link_direct_succ) refl,
              inr (pred, found, link_direct_pred-Joined n preds pred l m),
            )
        | inr t ↦ (
          link_direct_pred n pred start,
          rw (e, link_node, no_succ, t, link_direct_succ) refl,
          inr (pred, found, link_direct_pred-Joined n preds pred start (inr (refl, fresh pred))),
        )
      ]
]
