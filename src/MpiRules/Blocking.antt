-- ===== src/MpiRules/Blocking.antt =====
-- The edge and the remote node of a collective: src/analysis/include/mpi/CollectiveRule.hpp and
-- src/analysis/MPIAnalysis.cpp.
use casita.Prelude.{
  ℕ, ◌≡◌, refl, sym, ap, ◌∙◌, inl, inr, true, some, List, [], ◌∷◌, ◌==◌, arith, Bool-cases,
  find_first, some-injective,
}
use casita.Node.Defs.{Node}
use casita.Edge.Defs.{Edge, make_blocking}
use casita.Graph.Defs.{Graph, update, ends_at, or_empty}
use casita.Stream.Add.{put}
use casita.Engine.Defs.{get_edge}
use casita.MpiAnalysis.Defs.{MpiAnalysis, add_remote_mpi_edge, get_remote_node_info}
use casita.MpiRules.Collective.{block_first, block_edge}

pub put-same : {A : Type 0} (f : ℕ → A) (k : ℕ) (x : A) → put f k x k ≡ x
unfolding put
put-same f k x = ground arith

-- The edge that `getEdge` finds is the one that becomes blocking.
find-block_first :
    (b : ℕ) (es : List Edge) (e : Edge)
    → find_first (ends_at b) es ≡ some e
    → find_first (ends_at b) (block_first (ends_at b) es) ≡ some (make_blocking e)
unfolding block_first make_blocking ends_at
find-block_first b [] e h = absurd (cc)
find-block_first b (x ∷ es) e h = elim (Bool-cases (ends_at b x)) [
  | inl t ↦
      let same : x ≡ e = some-injective (sym (rw t refl) ∙ h) in
      rw (t, t) (ap (λ (y : Edge). some (make_blocking y)) same)
  | inr t ↦ rw (t, t) (find-block_first b es e (sym (rw t refl) ∙ h))
]

pub get_edge-block_edge :
    (a b : Node) (g : Graph) (e : Edge)
    → get_edge a b g ≡ some e
    → get_edge a b (block_edge a.id b.id g) ≡ some (make_blocking e)
unfolding get_edge block_edge update
get_edge-block_edge a b g e h =
    let same : (a.id == a.id) ≡ true = ground arith in
    rw same (find-block_first b.id (or_empty (g.out_edges a.id)) e h)

-- The remote node that was added is found.
pub get_remote_node_info-add_remote_mpi_edge :
    (n node_id stream_id : ℕ) (m : MpiAnalysis)
    → get_remote_node_info n (add_remote_mpi_edge n node_id stream_id m)
      ≡ (record { stream_id = stream_id; node_id = node_id }, true)
unfolding get_remote_node_info add_remote_mpi_edge put
get_remote_node_info-add_remote_mpi_edge n node_id stream_id m =
    let same : (n == n) ≡ true = ground arith in rw (get_remote_node_info, same) refl
