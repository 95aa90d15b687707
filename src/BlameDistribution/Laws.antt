-- ===== src/BlameDistribution/Laws.antt =====
-- The blame of a walk: src/analysis/include/BlameDistribution.hpp.
use casita.Prelude.{ℕ, ◌+◌, ◌-◌, ◌≤◌, ◌<◌, ◌≡◌, Option, some, List, [], ◌∷◌, arith}
use casita.Node.Defs.{Node, u64}
use casita.Edge.Defs.{Edge}
use casita.Edge.Blame.{BlameReason}
use casita.Graph.Defs.{Graph}
use casita.Engine.Defs.{sub64, get_edge}
use casita.BlameDistribution.Defs.{Double, Blames, share, charge}

-- The edges of a walk back from a node, none of which goes back in time.
pub data Walked (g : Graph) : Node → List Node → List Edge → Type 0 where
  stays : {n : Node} → Walked g n [] []
  steps :
      {last current : Node} {rest : List Node} {e : Edge} {es : List Edge}
      → get_edge current last g ≡ some e
      → e.start_node ≡ current
      → e.end_node ≡ last
      → current.time ≤ last.time
      → Walked g current rest es
      → Walked g last (current ∷ rest) (e ∷ es)

abbrev pub durations : List Edge → ℕ
durations [] = 0
durations (e ∷ es) = e.duration + durations es

pub sub64_lem : (a b : ℕ) → b ≤ a → a < u64 → sub64 a b ≡ a - b
unfolding sub64
sub64_lem a b h k = omega (arith, h, k)

module _ (D : Double) (streams : ℕ → List Node) (callers : ℕ → Option Node) (g : Graph)
    (reason : BlameReason) where
  -- Each edge gets the part of the blame that its duration has of the time.
  unfoldable pub charge_all : ℕ → ℕ → List Edge → Blames D → Blames D
  charge_all total_blame total_time [] blames = blames
  charge_all total_blame total_time (e ∷ es) blames =
      charge_all total_blame total_time es
        (charge D e (share D total_blame e.duration total_time) reason blames)
