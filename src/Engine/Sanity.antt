-- ===== src/Engine/Sanity.antt =====
-- The edges that the engine makes pass its own check: src/backend/GraphEngine.cpp.
use casita.Prelude.{
  ℕ, ◌≡◌, refl, sym, subst, Bool, true, false, not, ◌&&◌, Option, List, [], ◌∷◌, ◌++◌, ◌==◌,
  if◌then◌else◌, arith, All, All-append,
}
use casita.Node.Defs.{Node}
use casita.Edge.Defs.{Edge, new_edge, is_reverse_edge, is_reverse}
use casita.Graph.Defs.{Graph, or_empty, add_edge, remove_edge, erase_first, ends_at, starts_at}
use casita.Graph.Edges.{
  outs, ins, outs-add_edge, ins-add_edge, outs-remove_edge, ins-remove_edge, All-erase_first,
}
use casita.Stream.Defs.{EventStream}
use casita.Engine.Defs.{
  sane, sanity_check_edge, sanity_check_edges, sanity_check_nodes, engine_edge, link, expected_time,
  is_wait,
}
use casita.Engine.Queries.{run_sanity_check}

-- Every edge in both maps is sane.
abbrev pub AllSane : List Edge → Type 0
AllSane = All (λ e. sanity_check_edge e ≡ sane)

pub record IsSane (g : Graph) : Type 0 where
  pub out_sane : (u : ℕ) → AllSane (outs g u)
  pub in_sane : (v : ℕ) → AllSane (ins g v)

-- The edge of two nodes is sane if it blocks where they are a wait state.
pub engine_edge-sane :
    (a b : Node) (blocking : Bool) (type : Option ℕ)
    → is_wait a b && not blocking ≡ false
    → sanity_check_edge (engine_edge a b blocking type) ≡ sane
unfolding sanity_check_edge engine_edge expected_time new_edge is_reverse_edge is_reverse
engine_edge-sane a b blocking type h = ground arith

AllSane-if :
    (c : Bool) (e : Edge) (es : List Edge)
    → sanity_check_edge e ≡ sane
    → AllSane es
    → AllSane (if c then es ++ e ∷ [] else es)
AllSane-if true e es s h = All-append (λ x. sanity_check_edge x ≡ sane) es (e ∷ []) h (s, tt)
AllSane-if false e es s h = h

pub add_edge-IsSane :
    (e : Edge) (g : Graph) → sanity_check_edge e ≡ sane → IsSane g → IsSane (add_edge e g)
add_edge-IsSane e g s h = record {
  out_sane = λ u.
      subst AllSane (sym (outs-add_edge e g u))
        (AllSane-if (e.start_node.id == u) e (outs g u) s (h.out_sane u));
  in_sane = λ v.
      subst AllSane (sym (ins-add_edge e g v))
        (AllSane-if (e.end_node.id == v) e (ins g v) s (h.in_sane v));
}

AllSane-erase :
    (c : Bool) (q : Edge → Bool) (es : List Edge)
    → AllSane es
    → AllSane (if c then erase_first q es else es)
AllSane-erase true q es h = All-erase_first (λ x. sanity_check_edge x ≡ sane) q es h
AllSane-erase false q es h = h

pub remove_edge-IsSane : (e : Edge) (g : Graph) → IsSane g → IsSane (remove_edge e g)
remove_edge-IsSane e g h = record {
  out_sane = λ u.
      subst AllSane (sym (outs-remove_edge e g u))
        (AllSane-erase (e.start_node.id == u) (ends_at e.end_node.id) (outs g u) (h.out_sane u));
  in_sane = λ v.
      subst AllSane (sym (ins-remove_edge e g v))
        (AllSane-erase (e.end_node.id == v) (starts_at e.start_node.id) (ins g v) (h.in_sane v));
}

pub link-IsSane :
    (a b : Node) (blocking : Bool) (type : Option ℕ) (g : Graph)
    → is_wait a b && not blocking ≡ false
    → IsSane g
    → IsSane (link a b blocking type g)
unfolding link
link-IsSane a b blocking type g w h =
    add_edge-IsSane (engine_edge a b blocking type) g (engine_edge-sane a b blocking type w) h

sanity_check_edges-sane : (es : List Edge) → AllSane es → sanity_check_edges es ≡ sane
unfolding sanity_check_edges
sanity_check_edges-sane [] h = refl
sanity_check_edges-sane (e ∷ es) h = rw (h.0, sanity_check_edges) (sanity_check_edges-sane es h.1)

sanity_check_nodes-sane : (g : Graph) (ns : List Node) → IsSane g → sanity_check_nodes g ns ≡ sane
unfolding sanity_check_nodes
sanity_check_nodes-sane g [] h = refl
sanity_check_nodes-sane g (n ∷ ns) h =
    let a : sanity_check_edges (or_empty (g.in_edges n.id)) ≡ sane =
      sanity_check_edges-sane (ins g n.id) (h.in_sane n.id) in
    let b : sanity_check_edges (or_empty (g.out_edges n.id)) ≡ sane =
      sanity_check_edges-sane (outs g n.id) (h.out_sane n.id) in
    rw (a, b, sanity_check_nodes) (sanity_check_nodes-sane g ns h)

pub run_sanity_check-sane :
    (g : Graph) (streams : List EventStream) → IsSane g → run_sanity_check g streams ≡ sane
unfolding run_sanity_check
run_sanity_check-sane g [] h = refl
run_sanity_check-sane g (s ∷ streams) h =
    rw (sanity_check_nodes-sane g s.nodes h, run_sanity_check) (run_sanity_check-sane g streams h)
