-- ===== src/Graph/Walk.antt =====
-- The local critical path: `Graph::getCriticalPath` of src/backend/Graph.cpp ends, and returns a
-- chain of dependencies, on graphs whose edges lead forward in time.
use casita.Prelude.{ℕ, ◌<◌, ◌≡◌, ◌⊎◌, Bool, none, some, List, All}
use casita.Node.Defs.{Node}
use casita.Edge.Defs.{Edge}
use casita.Graph.Defs.{Graph}
use casita.Graph.CriticalPath.{Choice}
use casita.Graph.Chain.{IsIn, ByEdge, IsStuck, Chain, IsForward}

module _ (has_caller : Node → Bool) (g : Graph) where
  module _ (rank : ℕ → ℕ) (start : Node) (h : IsForward has_caller g rank start) where
    -- What a step needs and gives: the node it leads to, and that the loop check is untouched.
    abbrev Choices : Node → ℕ → Choice → Type 0
    Choices c k d =
        (d.loop_check ≡ k)
        × (((d.predecessor ≡ none) × IsStuck has_caller g c)
            ⊎ ((p : Node) × (d.predecessor ≡ some p)
                × ByEdge has_caller g p c
                × (rank p.id < rank c.id)
                × IsIn g p))

    -- The nodes of the path so far are of higher rank than the current one.
    abbrev IsAbove : Node → List Node → Type 0
    IsAbove c = All (λ m. rank c.id < rank m.id)
