-- ===== src/Tests/CollectiveTests.antt =====
-- A collective of two ranks: src/analysis/include/mpi/CollectiveRule.hpp.
use casita.Prelude.{
  ◌<◌, ◌≡◌, refl, true, false, none, some, List, [], ◌∷◌, arith, All, ◌%◌, zero, suc, ap, sym, ◌∙◌,
  some-injective,
}
use casita.Node.Paradigm
use casita.Node.Mpi
use casita.Node.Flags.{enter, leave, has_flag}
use casita.Node.Defs.{Node, u64, is_leave, has_paradigm, has_type}
use casita.Node.Kinds.{is_mpi, is_mpi_collective, is_mpi_init}
use casita.Edge.Defs.{Edge}
use casita.Edge.Blame.{mpi_collective}
use casita.Graph.Defs.{empty, add_edge, update, ends_at}
use casita.Engine.Defs.{get_edge}
use casita.MpiStream.Defs.{MpiStream, Nodes, null, new_mpi_stream}
use casita.MpiStream.Handlers.{State}
use casita.MpiStream.Requests.{test_all_pending_mpi_requests, test_records}
use casita.MpiAnalysis.Defs.{
  Comm, CommGroup, created, new_mpi_analysis, add_mpi_comm_group, create_mpi_communicators_from_map,
  create_group, with_procs,
}
use casita.Stream.Add.{put}
use casita.Statistics.Defs.{Statistics, new_statistics, zeros, count_activity}
use casita.Statistics.Sized.{IsSized}
use casita.BlameDistribution.Callbacks.{mpi_stream_walk_callback}
use casita.BlameDistribution.Defs.{done, ◌>>=◌, distribute_blame}
use casita.MpiRules.Collective.{
  Entry, LastEnter, Analysis, is_self, later_enter, last_enter_from, last_enter, send_buffer,
  stat_mpi_collective, collective_rule,
}
use casita.MpiRules.LastEnter.{IsPerStream, sum_waits}
use casita.MpiRules.Judging.{IsCollective, at_exchange}
use casita.MpiRules.CollectiveLaws.{IsWaiting, collective_rule-waits, collective_rule-blames}
use casita.Tests.Data.{make_node}
use casita.Tests.MpiStreamTests.{no_comm}
use casita.Tests.BlameTests.{naturals}

abbrev col_enter : Node
col_enter = make_node 8 10 0 enter Paradigm.mpi Mpi.collective

abbrev col_leave : Node
col_leave = make_node 9 40 0 leave Paradigm.mpi Mpi.collective

abbrev col_edge : Edge
col_edge = record {
  start_node = col_enter;
  end_node = col_leave;
  duration = 30;
  blocking = false;
  paradigm = Paradigm.mpi;
}

abbrev late_entry : Entry
late_entry = record { enter_time = 25; enter_id = 11; leave_id = 12; stream_id = 1 }

abbrev early_entry : Entry
early_entry = record { enter_time = 5; enter_id = 11; leave_id = 12; stream_id = 1 }

abbrev with_late : Comm → Entry → List Entry
with_late comm own = own ∷ late_entry ∷ []

abbrev with_early : Comm → Entry → List Entry
with_early comm own = own ∷ early_entry ∷ []

abbrev rank0 : MpiStream
rank0 = new_mpi_stream 0 0 "rank 0" no_comm

abbrev nodes : Nodes
nodes = record {
  node = λ k. col_leave;
  node_data = λ k. null;
  pairs = λ k. record { first = some col_enter; second = some col_leave };
}

abbrev world : CommGroup
world = record { comm = created 0; procs = 0 ∷ 1 ∷ [] }

abbrev analysis : Analysis naturals
analysis = record {
  statistics = new_statistics;
  mpi_streams = λ k. some rank0;
  mpi =
      create_mpi_communicators_from_map (λ ranks. created 0)
        (add_mpi_comm_group 0 (0 ∷ 1 ∷ []) (new_mpi_analysis 0 2));
  nodes = nodes;
  graph = add_edge col_edge empty;
  blames = λ a b. [];
}

abbrev tested_state : State
tested_state = (rank0, nodes)

new_statistics-IsSized : IsSized new_statistics
unfolding IsSized new_statistics zeros
new_statistics-IsSized = (refl, refl)

col_leave-IsCollective :
    IsCollective naturals (λ h. false) col_enter col_leave tested_state world analysis
unfolding is_mpi_collective is_mpi_init is_mpi is_leave has_paradigm has_type has_flag
    test_all_pending_mpi_requests test_records new_mpi_stream new_mpi_analysis add_mpi_comm_group
    create_mpi_communicators_from_map create_group with_procs put is_self
col_leave-IsCollective = record {
  collective = refl;
  at_leave = refl;
  not_init = refl;
  sized = new_statistics-IsSized;
  stream = rank0;
  found = refl;
  tested = refl;
  known = refl;
  not_self = refl;
  paired = refl;
}

col_edge-found : get_edge col_enter col_leave (add_edge col_edge empty) ≡ some col_edge
unfolding get_edge add_edge empty update ends_at
col_edge-found = refl

late-last :
    last_enter (with_late (created 0) (send_buffer col_enter col_leave))
    ≡ record { time = 25; process_id = 1; remote_node_id = 11 }
unfolding last_enter last_enter_from later_enter send_buffer
late-last = refl

early-last :
    last_enter (with_early (created 0) (send_buffer col_enter col_leave))
    ≡ record { time = 10; process_id = 0; remote_node_id = 8 }
unfolding last_enter last_enter_from later_enter send_buffer
early-last = refl

late_times : All (λ r. r.enter_time < u64) (with_late (created 0) (send_buffer col_enter col_leave))
unfolding send_buffer
late_times = (omega arith, (omega arith, tt))

differ :
    {a b : Entry}
    → some (send_buffer col_enter col_leave) ≡ some a
    → some early_entry ≡ some b
    → a.stream_id ≡ b.stream_id
    → ⊥
unfolding send_buffer
differ l k h =
    let first : 0 ≡ _ = ap (λ (x : Entry). x.stream_id) (some-injective l) in
    let second : 1 ≡ _ = ap (λ (x : Entry). x.stream_id) (some-injective k) in
    omega (arith, first, second, h)

early-IsPerStream : IsPerStream (with_early (created 0) (send_buffer col_enter col_leave))
unfolding send_buffer
early-IsPerStream zero zero a b l k h =
    ap (λ (x : Entry). x.enter_time) (some-injective (sym l ∙ k))
early-IsPerStream zero (suc zero) a b l k h = absurd (differ l k h)
early-IsPerStream zero (suc (suc j)) a b l k h = absurd (cc)
early-IsPerStream (suc zero) zero a b l k h = absurd (differ k l (sym h))
early-IsPerStream (suc zero) (suc zero) a b l k h =
    ap (λ (x : Entry). x.enter_time) (some-injective (sym l ∙ k))
early-IsPerStream (suc zero) (suc (suc j)) a b l k h = absurd (cc)
early-IsPerStream (suc (suc i)) j a b l k h = absurd (cc)

collective_rule-waits_example :
    (b : Analysis naturals) × (collective_rule naturals with_late
        (λ h. false)
        (λ k. [])
        (λ k. none)
        false
        1
        col_leave
        analysis
      ≡ done (true, b))
    × IsWaiting naturals col_enter col_leave col_edge
        (with_late (created 0) (send_buffer col_enter col_leave))
        b
collective_rule-waits_example =
    collective_rule-waits naturals with_late (λ h. false) (λ k. []) (λ k. none) false 1 col_enter
      col_leave tested_state world analysis col_edge 0 col_leave-IsCollective col_edge-found refl
      late_times (omega (arith, ap (λ (x : LastEnter). x.time) late-last))
      (λ h. omega (arith, h, ap (λ (x : LastEnter). x.process_id) late-last))

collective_rule-blames_example :
    (counted : Statistics) × (count_activity stat_mpi_collective new_statistics ≡ some counted)
    × (collective_rule naturals with_early
          (λ h. false)
          (λ k. [])
          (λ k. none)
          false
          1
          col_leave
          analysis
        ≡ (distribute_blame naturals
              (λ k. [])
              (λ k. none)
              (add_edge col_edge empty)
              false
              mpi_collective
              1
              col_enter
              (sum_waits
                  (last_enter (with_early (created 0) (send_buffer col_enter col_leave)))
                  (with_early (created 0) (send_buffer col_enter col_leave))
                % u64)
              mpi_stream_walk_callback
              (λ a b. [])
            >>= λ r. done (
              true,
              record (at_exchange naturals col_leave tested_state counted analysis) {
                blames = r.1;
              },
            )))
collective_rule-blames_example =
    collective_rule-blames naturals with_early (λ h. false) (λ k. []) (λ k. none) false 1 col_enter
      col_leave tested_state world analysis col_leave-IsCollective early-IsPerStream
      (omega (arith, ap (λ (x : LastEnter). x.time) early-last))
      (ap (λ (x : LastEnter). x.process_id) early-last)
