-- ===== src/Tests/PathTests.antt =====
-- A critical path on three nodes: src/backend/Graph.cpp.
use casita.Prelude.{ℕ, Bool, false, Option, none, some, List, [], ◌∷◌, ◌==◌, if◌then◌else◌}
use casita.Node.Defs.{Node}
use casita.Edge.Defs.{Edge}
use casita.Graph.Defs.{Graph}
use casita.Tests.Data.{send_edge, stream_nodes}

abbrev in_list : ℕ → Option (List Edge)
in_list k = if k == 2 then some (send_edge ∷ []) else none

abbrev small_graph : Graph
small_graph = record { nodes = stream_nodes; in_edges = in_list; out_edges = λ k. none }

abbrev no_caller : Node → Bool
no_caller n = false
