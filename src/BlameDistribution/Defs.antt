-- ===== src/BlameDistribution/Defs.antt =====
-- `distributeBlame` of src/analysis/include/BlameDistribution.hpp. Blame is a `double`; its values and
-- operations are parameters. The first edge from one node to another has its blame stored under the
-- two nodes.
use casita.Prelude.{
  ℕ, zero, suc, Bool, not, ◌&&◌, Option, none, some, List, [], ◌∷◌, ◌==◌, if◌then◌else◌,
}
use casita.Node.Defs.{Node, is_leave}
use casita.Node.Kinds.{is_mpi, is_omp, is_ofld}
use casita.Edge.Defs.{Edge, is_inter_stream_edge}
use casita.Edge.Blame.{BlameReason, BlameMap, add_blame}
use casita.Graph.Defs.{Graph, get_in_edges_ptr}
use casita.Stream.Add.{put}
use casita.Stream.Walk.{ended, bad_node, walk_backward}
use casita.Engine.Defs.{sub64, get_edge}
use casita.BlameDistribution.Callbacks.{
  StreamWalkInfo, new_info, omp_host_stream_walk_callback, ofld_stream_walk_callback,
}

abbrev pub Callback : Type 0
Callback = StreamWalkInfo → Node → StreamWalkInfo × Bool

-- What a call leaves: a value, a failed assertion, a read of invalid memory, or no end of the
-- recursion within the fuel.
pub data Outcome {ℓ} (A : Type ℓ) : Type ℓ where
  done : A → Outcome A
  failed invalid out_of_fuel : Outcome A

infixl 5 ◌>>=◌
abbrev pub ◌>>=◌ : {A B : Type 0} → Outcome A → (A → Outcome B) → Outcome B
done a >>= f = f a
failed >>= f = failed
invalid >>= f = invalid
out_of_fuel >>= f = out_of_fuel

-- The operations on `double` that the code uses.
pub record Double : Type 1 where
  pub Value : Type 0
  pub of_nat : ℕ → Value
  pub to_nat : Value → ℕ
  pub add : Value → Value → Value
  pub mul : Value → Value → Value
  pub div : Value → Value → Value

-- The last node of the walk list.
unfoldable pub back_of : Node → List Node → Node
back_of n [] = n
back_of n (m ∷ rest) = back_of m rest

module _ (D : Double) where
  abbrev pub Blames : Type 0
  Blames = ℕ → ℕ → BlameMap (D.Value)

  -- The part of the blame for an edge.
  unfoldable pub share : ℕ → ℕ → ℕ → D.Value
  share total_blame duration total_time =
      D.div (D.mul (D.of_nat total_blame) (D.of_nat duration)) (D.of_nat total_time)

  unfoldable pub charge : Edge → D.Value → BlameReason → Blames → Blames
  unfolding add_blame put
  charge e blame reason blames =
      let a = e.start_node.id in
      let b = e.end_node.id in
      put blames a (put (blames a) b (add_blame D.add blame reason (blames a b)))

  module _ (streams : ℕ → List Node) (callers : ℕ → Option Node) (g : Graph)
      (propagate_blame : Bool) (reason : BlameReason) where
    -- The in-edges of the node that the wait ends at. `again` distributes their blame.
    unfoldable pub propagate :
        (Node → ℕ → Callback → Blames → Outcome Blames)
        → Node
        → Edge
        → D.Value
        → List Edge
        → Blames
        → Outcome Blames
    unfolding charge
    propagate again last edge blame [] blames = done blames
    propagate again last edge blame (e ∷ edges) blames =
        (if not (is_inter_stream_edge e)
          then done blames
          else if is_omp last
          then again e.start_node (D.to_nat blame) (omp_host_stream_walk_callback callers) blames
          else if is_ofld last
          then again e.start_node (D.to_nat blame) ofld_stream_walk_callback blames
          else done (charge edge blame reason blames))
        >>= propagate again last edge blame edges

    unfoldable pub is_propagated : Edge → Node → Bool
    is_propagated edge last = propagate_blame && edge.blocking && is_leave last && not (is_mpi last)

    -- The blame of one edge.
    unfoldable pub blame_edge :
        (Node → ℕ → Callback → Blames → Outcome Blames)
        → Node
        → Edge
        → D.Value
        → Blames
        → Outcome Blames
    unfolding propagate charge is_propagated
    blame_edge again last edge blame blames =
        if is_propagated edge last
        then elim (get_in_edges_ptr g last.id) [
          | none ↦ done blames
          | some edges ↦ propagate again last edge blame edges blames
        ]
        else done (charge edge blame reason blames)

    -- The loop over the walk list.
    unfoldable pub blame_walk :
        (Node → ℕ → Callback → Blames → Outcome Blames)
        → ℕ
        → ℕ
        → Node
        → List Node
        → Blames
        → Outcome Blames
    unfolding blame_edge share
    blame_walk again total_blame total_time last [] blames = done blames
    blame_walk again total_blame total_time last (current ∷ rest) blames =
        elim (get_edge current last g) [
          | none ↦ failed
          | some edge ↦
              blame_edge again last edge (share total_blame edge.duration total_time) blames
              >>= blame_walk again total_blame total_time current rest
        ]

    unfoldable pub blame_list :
        (Node → ℕ → Callback → Blames → Outcome Blames)
        → ℕ
        → List Node
        → Blames
        → Outcome (ℕ × Blames)
    unfolding blame_walk sub64 back_of
    blame_list again total_blame [] blames = failed
    blame_list again total_blame (front ∷ []) blames = failed
    blame_list again total_blame (front ∷ second ∷ rest) blames =
        let total_time = sub64 front.time (back_of second rest).time in
        blame_walk again total_blame total_time front (second ∷ rest) blames >>= λ blames'.
        done (total_time, blames')

    -- The recursion is that of the propagation.
    unfoldable pub distribute_blame : ℕ → Node → ℕ → Callback → Blames → Outcome (ℕ × Blames)
    unfolding blame_list
    distribute_blame zero n total_blame callback blames = out_of_fuel
    distribute_blame (suc fuel) n total_blame callback blames =
        if total_blame == 0
        then done (0, blames)
        else elim (walk_backward callback (some n) (streams n.stream_id) new_info) [
          | bad_node ↦ invalid
          | ended info result ↦
              blame_list
                (λ m blame walk charged.
                  distribute_blame fuel m blame walk charged >>= λ r. done r.1)
                total_blame info.list blames
        ]
