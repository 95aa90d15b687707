-- ===== src/MpiRules/Collective.antt =====
-- class CollectiveRule of src/analysis/include/mpi/CollectiveRule.hpp. MPI_Allgather is a parameter:
-- it gives the blocks of the receive buffer, one of each rank of the communicator.
use casita.Prelude.{
  ℕ, ◌+◌, ◌%◌, Bool, true, false, not, ◌||◌, Option, none, some, List, [], ◌∷◌, ◌==◌, ltb,
  if◌then◌else◌,
}
use casita.Node.Metric
use casita.Node.Defs.{Node, u64, is_leave, set_counter}
use casita.Node.Kinds.{is_mpi_collective, is_mpi_init}
use casita.Edge.Defs.{Edge, make_blocking}
use casita.Edge.Blame.{mpi_collective}
use casita.Graph.Defs.{Graph, update, ends_at, starts_at, or_empty}
use casita.Stream.Add.{put}
use casita.Engine.Defs.{Result, ok, raised, undefined, sub64, get_edge}
use casita.MpiStream.Defs.{MpiStream, Nodes}
use casita.MpiStream.Requests.{test_all_pending_mpi_requests}
use casita.MpiAnalysis.Defs.{
  u32, Comm, comm_self, CommGroup, MpiAnalysis, get_mpi_comm_group, add_remote_mpi_edge,
}
use casita.Statistics.Defs.{Statistics, count_activity, add_stat_with_count}
use casita.BlameDistribution.Callbacks.{mpi_stream_walk_callback}
use casita.BlameDistribution.Defs.{
  Outcome, done, failed, invalid, ◌>>=◌, Double, Blames, distribute_blame,
}

-- The block of a rank in the buffers.
pub record Entry : Type 0 where
  pub enter_time : ℕ
  pub enter_id : ℕ
  pub leave_id : ℕ
  pub stream_id : ℕ

pub record LastEnter : Type 0 where
  pub time : ℕ
  pub process_id : ℕ
  pub remote_node_id : ℕ

unfoldable pub later_enter : LastEnter → Entry → LastEnter
later_enter last e =
    if ltb last.time e.enter_time
    then record { time = e.enter_time; process_id = e.stream_id; remote_node_id = e.enter_id }
    else last

unfoldable pub last_enter_from : LastEnter → List Entry → LastEnter
unfolding later_enter
last_enter_from last [] = last
last_enter_from last (e ∷ entries) = last_enter_from (later_enter last e) entries

unfoldable pub last_enter : List Entry → LastEnter
unfolding last_enter_from
last_enter = last_enter_from (record { time = 0; process_id = 0; remote_node_id = 0 })

-- The loop that aggregates the blame.
unfoldable pub add_blames : ℕ → ℕ → List Entry → ℕ
unfolding sub64
add_blames last_enter_time total_blame [] = total_blame
add_blames last_enter_time total_blame (e ∷ entries) =
    add_blames last_enter_time ((total_blame + sub64 last_enter_time e.enter_time) % u64) entries

-- `makeBlocking` of the edge that `getEdge` finds, which both edge lists point to.
unfoldable pub block_first : (Edge → Bool) → List Edge → List Edge
unfolding make_blocking
block_first test [] = []
block_first test (e ∷ edges) =
    if test e then make_blocking e ∷ edges else e ∷ block_first test edges

unfoldable pub block_edge : ℕ → ℕ → Graph → Graph
unfolding block_first update
block_edge a b g = record g {
  in_edges = update g.in_edges b (block_first (starts_at a) (or_empty (g.in_edges b)));
  out_edges = update g.out_edges a (block_first (ends_at b) (or_empty (g.out_edges a)));
}

unfoldable pub of_result : {A : Type 0} → Result A → Outcome A
of_result (ok a) = done a
of_result raised = failed
of_result undefined = invalid

unfoldable pub of_option : {A : Type 0} → Option A → Outcome A
of_option none = invalid
of_option (some a) = done a

unfoldable pub is_self : Comm → Bool
is_self comm_self = true
is_self comm = false

-- STAT_MPI_COLLECTIVE and MPI_STAT_COLLECTIVE.
abbrev pub stat_mpi_collective : ℕ
stat_mpi_collective = 0

abbrev pub mpi_stat_collective : ℕ
mpi_stat_collective = 25

-- What the rule reads and changes. `none` is the result NULL of `getMpiStream`.
pub record Analysis (D : Double) : Type 0 where
  pub statistics : Statistics
  pub mpi_streams : ℕ → Option MpiStream
  pub mpi : MpiAnalysis
  pub nodes : Nodes
  pub graph : Graph
  pub blames : Blames D

unfoldable pub send_buffer : Node → Node → Entry
send_buffer col_enter col_leave = record {
  enter_time = col_enter.time;
  enter_id = col_enter.id;
  leave_id = col_leave.id;
  stream_id = col_leave.stream_id;
}

module _ (D : Double) where
  -- The blocking edge and the remote edge, where there is an edge for the collective.
  unfoldable pub link_to_last : Node → Node → LastEnter → Analysis D → Analysis D
  unfolding get_edge block_edge add_remote_mpi_edge
  link_to_last col_enter col_leave last a = elim (get_edge col_enter col_leave a.graph) [
    | none ↦ a
    | some e ↦ record a {
      graph = block_edge col_enter.id col_leave.id a.graph;
      mpi = add_remote_mpi_edge col_leave.id last.remote_node_id last.process_id a.mpi;
    }
  ]

  unfoldable pub set_waiting : ℕ → ℕ → Nodes → Nodes
  unfolding put
  set_waiting n time w = record w {
    node = put w.node n (set_counter (w.node n) Metric.waiting_time time);
  }

  -- A rank that is not the last.
  unfoldable pub wait_for_last : Node → Node → LastEnter → Analysis D → Outcome (Analysis D)
  unfolding link_to_last set_waiting of_option sub64
  wait_for_last col_enter col_leave last a =
      let time = sub64 last.time col_enter.time in
      let linked = link_to_last col_enter col_leave last a in
      of_option (add_stat_with_count mpi_stat_collective time 1 linked.statistics) >>= λ s.
      done (record linked { statistics = s; nodes = set_waiting col_leave.id time linked.nodes })

  -- Open requests are tested.
  unfoldable pub test_open : (ℕ → Bool) → Node → Analysis D → Outcome (Analysis D)
  unfolding of_result put
  test_open test col_leave a =
      if is_mpi_init col_leave then done a else elim (a.mpi_streams col_leave.stream_id) [
        | none ↦ invalid
        | some s ↦ of_result (test_all_pending_mpi_requests test (s, a.nodes)) >>= λ st.
            done (record a {
              mpi_streams = put a.mpi_streams col_leave.stream_id (some st.0);
              nodes = st.1;
            })
      ]

  module _ (allgather : Comm → Entry → List Entry) (test : ℕ → Bool) (streams : ℕ → List Node)
      (callers : ℕ → Option Node) (propagate_blame : Bool) (fuel : ℕ) where
    -- The rank that enters last.
    unfoldable pub blame_last : Node → ℕ → Analysis D → Outcome (Analysis D)
    blame_last col_enter total_blame a =
        distribute_blame D streams callers a.graph propagate_blame mpi_collective fuel col_enter
          total_blame mpi_stream_walk_callback a.blames
        >>= λ r. done (record a { blames = r.1 })

    unfoldable pub judge : Node → Node → List Entry → Analysis D → Outcome (Analysis D)
    unfolding wait_for_last blame_last add_blames last_enter
    judge col_enter col_leave entries a =
        let last = last_enter entries in
        if not (last.process_id == col_leave.stream_id)
        then wait_for_last col_enter col_leave last a
        else blame_last col_enter (add_blames last.time 0 entries) a

    unfoldable pub exchange : Node → CommGroup → Analysis D → Outcome (Bool × Analysis D)
    unfolding judge is_self send_buffer
    exchange col_leave group a =
        if is_self group.comm then done (false, a) else elim (a.nodes.pairs col_leave.id).first [
          | none ↦ invalid
          | some col_enter ↦
              judge col_enter col_leave (allgather group.comm (send_buffer col_enter col_leave)) a
              >>= λ a'. done (true, a')
        ]

    -- The rule, with its result.
    unfoldable pub collective_rule : Node → Analysis D → Outcome (Bool × Analysis D)
    unfolding exchange test_open of_option of_result
    collective_rule col_leave a =
        if not (is_mpi_collective col_leave) || not (is_leave col_leave)
        then done (false, a)
        else of_option (count_activity stat_mpi_collective a.statistics) >>= λ s.
            test_open test col_leave (record a { statistics = s }) >>= λ b.
            of_result (get_mpi_comm_group (col_leave.referenced_stream % u32) b.mpi) >>= λ group.
            exchange col_leave group b
