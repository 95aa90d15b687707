-- ===== src/MpiRules/CollectiveLaws.antt =====
-- The rule for collectives on each rank: src/analysis/include/mpi/CollectiveRule.hpp.
use casita.Prelude.{
  ℕ, ◌+◌, ◌-◌, ◌%◌, ◌≤◌, ◌<◌, ◌≡◌, ◌≢◌, refl, ap, subst, ◌∙◌, Bool, true, Option, some, List, arith,
  get_elem?, All, All-get_elem?,
}
use casita.Node.Metric
use casita.Node.Defs.{Node, u64, get_counter}
use casita.Node.Counters.{get_counter-set_counter}
use casita.Edge.Defs.{Edge, make_blocking}
use casita.Edge.Blame.{mpi_collective}
use casita.Engine.Defs.{sub64, get_edge}
use casita.MpiStream.Handlers.{State}
use casita.MpiAnalysis.Defs.{Comm, CommGroup, add_remote_mpi_edge, get_remote_node_info}
use casita.Statistics.Defs.{Statistics, count_activity, add_stat_with_count}
use casita.Statistics.Sized.{add_stat_with_count-IsSized}
use casita.BlameDistribution.Callbacks.{mpi_stream_walk_callback}
use casita.BlameDistribution.Defs.{done, ◌>>=◌, Double, distribute_blame}
use casita.MpiRules.Collective.{
  Entry, LastEnter, last_enter, block_edge, of_option, stat_mpi_collective, mpi_stat_collective,
  Analysis, send_buffer, link_to_last, set_waiting, wait_for_last, blame_last, judge,
  collective_rule,
}
use casita.MpiRules.LastEnter.{
  of_entry, last_enter-All, last_enter-found, sum_waits, IsPerStream, add_blames-sum_waits,
}
use casita.MpiRules.Blocking.{
  put-same, get_edge-block_edge, get_remote_node_info-add_remote_mpi_edge,
}
use casita.MpiRules.Judging.{
  bind-done, IsCollective, at_exchange, rule-judge, judge-other, judge-own,
}

module _ (D : Double) where
  -- What a rank that waits leaves behind: the edge of the collective is blocking, the remote node is
  -- the enter of a rank that no other is later than, and the time up to it is the waiting time.
  pub record IsWaiting (col_enter col_leave : Node) (e : Edge) (entries : List Entry)
      (a : Analysis D) : Type 0 where
    pub position : ℕ
    pub rank : Entry
    pub listed : get_elem? entries position ≡ some rank
    pub latest : All (λ r. r.enter_time ≤ rank.enter_time) entries
    pub not_before : col_enter.time ≤ rank.enter_time
    pub waits :
        get_counter (a.nodes.node col_leave.id) Metric.waiting_time
        ≡ (rank.enter_time - col_enter.time, true)
    pub remote :
        get_remote_node_info col_leave.id a.mpi
        ≡ (record { stream_id = rank.stream_id; node_id = rank.enter_id }, true)
    pub blocked : get_edge col_enter col_leave a.graph ≡ some (make_blocking e)

  waited : Node → Node → Entry → Statistics → Analysis D → Analysis D
  waited col_enter col_leave rank counted a = record a {
    statistics = counted;
    graph = block_edge col_enter.id col_leave.id a.graph;
    mpi = add_remote_mpi_edge col_leave.id rank.enter_id rank.stream_id a.mpi;
    nodes = set_waiting D col_leave.id (sub64 rank.enter_time col_enter.time) a.nodes;
  }

  wait_for_last-waited :
      (col_enter col_leave : Node) (e : Edge) (rank : Entry) (counted : Statistics) (a : Analysis D)
      → get_edge col_enter col_leave a.graph ≡ some e
      → add_stat_with_count mpi_stat_collective
          (sub64 rank.enter_time col_enter.time)
          1
          a.statistics
        ≡ some counted
      → wait_for_last D col_enter col_leave (of_entry rank) a
        ≡ done (waited col_enter col_leave rank counted a)
  unfolding wait_for_last link_to_last of_option waited
  wait_for_last-waited col_enter col_leave e rank counted a f g =
      rw (f, wait_for_last, link_to_last, g, of_option) refl

  counter-waited :
      (col_enter col_leave : Node) (rank : Entry) (counted : Statistics) (a : Analysis D)
      → col_enter.time ≤ rank.enter_time
      → rank.enter_time < u64
      → get_counter
          ((waited col_enter col_leave rank counted a).nodes.node col_leave.id)
          Metric.waiting_time
        ≡ (rank.enter_time - col_enter.time, true)
  unfolding waited set_waiting sub64
  counter-waited col_enter col_leave rank counted a h k =
      let wait : (rank.enter_time + u64 - col_enter.time) % u64 ≡ rank.enter_time - col_enter.time =
        omega (arith, h, k) in
      let w = sub64 rank.enter_time col_enter.time in
      ap (λ n. get_counter n Metric.waiting_time) (put-same a.nodes.node col_leave.id _)
      ∙ get_counter-set_counter (a.nodes.node col_leave.id) Metric.waiting_time w
          Metric.waiting_time
      ∙ ap (λ v. (v, true)) wait

  waited-IsWaiting :
      (col_enter col_leave : Node) (e : Edge) (entries : List Entry) (i j : ℕ) (rank own : Entry)
      (counted : Statistics) (a : Analysis D)
      → get_edge col_enter col_leave a.graph ≡ some e
      → get_elem? entries j ≡ some own
      → own.enter_time ≡ col_enter.time
      → All (λ r. r.enter_time < u64) entries
      → get_elem? entries i ≡ some rank
      → last_enter entries ≡ of_entry rank
      → IsWaiting col_enter col_leave e entries (waited col_enter col_leave rank counted a)
  unfolding waited
  waited-IsWaiting col_enter col_leave e entries i j rank own counted a f l own_time m k q =
      let last_time : (last_enter entries).time ≡ rank.enter_time =
        ap (λ (x : LastEnter). x.time) q in
      let latest =
        subst (λ t. All (λ (r : Entry). r.enter_time ≤ t) entries) last_time
          (last_enter-All entries) in
      let own_before = All-get_elem? (λ r. r.enter_time ≤ rank.enter_time) entries j own latest l in
      let before : col_enter.time ≤ rank.enter_time = omega (arith, own_time, own_before) in
      let bound = All-get_elem? (λ r. r.enter_time < u64) entries i rank m k in
      record {
        position = i;
        rank = rank;
        listed = k;
        latest = latest;
        not_before = before;
        waits = counter-waited col_enter col_leave rank counted a before bound;
        remote =
            get_remote_node_info-add_remote_mpi_edge col_leave.id rank.enter_id rank.stream_id
              a.mpi;
        blocked = get_edge-block_edge col_enter col_leave a.graph e f;
      }

module _ (D : Double) (allgather : Comm → Entry → List Entry) (test : ℕ → Bool)
    (streams : ℕ → List Node) (callers : ℕ → Option Node) (propagate_blame : Bool) (fuel : ℕ) where
  -- On the leave of a collective other than MPI_Init, of a rank that finds the edge from its enter,
  -- whose own block is in the buffers of all ranks with times below 2 ^ 64, some rank of which enters
  -- after time 0, the rule succeeds if another stream than that of the leave is the last. Then the
  -- edge becomes blocking, the remote node is the enter of a rank that no rank is later than, and the
  -- waiting time of the leave is the time from its enter up to that one.
  pub collective_rule-waits :
      (col_enter col_leave : Node) (st : State) (group : CommGroup) (a : Analysis D) (e : Edge)
      (j : ℕ)
      → IsCollective D test col_enter col_leave st group a
      → get_edge col_enter col_leave a.graph ≡ some e
      → get_elem? (allgather group.comm (send_buffer col_enter col_leave)) j
        ≡ some (send_buffer col_enter col_leave)
      → All (λ r. r.enter_time < u64) (allgather group.comm (send_buffer col_enter col_leave))
      → 0 < (last_enter (allgather group.comm (send_buffer col_enter col_leave))).time
      → (last_enter (allgather group.comm (send_buffer col_enter col_leave))).process_id
        ≢ col_leave.stream_id
      → (b : Analysis D) × (collective_rule D allgather test streams callers propagate_blame fuel
            col_leave a
          ≡ done (true, b))
        × IsWaiting D col_enter col_leave e
            (allgather group.comm (send_buffer col_enter col_leave))
            b
  unfolding at_exchange send_buffer
  collective_rule-waits col_enter col_leave st group a e j c f l m z h =
      let entries = allgather group.comm (send_buffer col_enter col_leave) in
      let (counted, sized, _, rule) =
        rule-judge D allgather test streams callers propagate_blame fuel col_enter col_leave st
          group a c in
      let (i, rank, k, q) = last_enter-found entries z in
      let (t, g, _) =
        add_stat_with_count-IsSized mpi_stat_collective (sub64 rank.enter_time col_enter.time) 1
          counted (omega arith) sized in
      let b = at_exchange D col_leave st counted a in
      let judged : judge D allgather test streams callers propagate_blame fuel col_enter col_leave
            entries b
          ≡ done (waited D col_enter col_leave rank t b) =
        judge-other D allgather test streams callers propagate_blame fuel col_enter col_leave
          entries b h
        ∙ ap (λ last. wait_for_last D col_enter col_leave last b) q
        ∙ wait_for_last-waited D col_enter col_leave e rank t b f g in
      (
        waited D col_enter col_leave rank t b,
        rule ∙ ap (λ x. x >>= λ a'. done (true, a')) judged,
        waited-IsWaiting D col_enter col_leave e entries i j rank (send_buffer col_enter col_leave)
            t b f l refl m k q,
      )

  -- On the leave of a collective other than MPI_Init, of the stream that enters last, the rule
  -- distributes the blame from the enter on, with the sum of what the ranks wait for as the blame, up
  -- to the wrap-around of 64 bits, if the blocks of one stream have one enter time and the last enter
  -- time is below 2 ^ 64. It ends as that distribution does.
  pub collective_rule-blames :
      (col_enter col_leave : Node) (st : State) (group : CommGroup) (a : Analysis D)
      → IsCollective D test col_enter col_leave st group a
      → IsPerStream (allgather group.comm (send_buffer col_enter col_leave))
      → (last_enter (allgather group.comm (send_buffer col_enter col_leave))).time < u64
      → (last_enter (allgather group.comm (send_buffer col_enter col_leave))).process_id
        ≡ col_leave.stream_id
      → (counted : Statistics) × (count_activity stat_mpi_collective a.statistics ≡ some counted)
        × (collective_rule D allgather test streams callers propagate_blame fuel col_leave a ≡ (
            distribute_blame D streams callers a.graph propagate_blame mpi_collective fuel col_enter
              (sum_waits
                  (last_enter (allgather group.comm (send_buffer col_enter col_leave)))
                  (allgather group.comm (send_buffer col_enter col_leave))
                % u64)
              mpi_stream_walk_callback
              a.blames
            >>= λ r. done (true, record (at_exchange D col_leave st counted a) { blames = r.1 })))
  unfolding blame_last at_exchange
  collective_rule-blames col_enter col_leave st group a c u k h =
      let entries = allgather group.comm (send_buffer col_enter col_leave) in
      let (counted, _, e, rule) =
        rule-judge D allgather test streams callers propagate_blame fuel col_enter col_leave st
          group a c in
      let b = at_exchange D col_leave st counted a in
      (
        counted,
        e,
        rule
            ∙ ap (λ x. x >>= λ a'. done (true, a'))
                (judge-own D allgather test streams callers propagate_blame fuel col_enter col_leave
                    entries b h
                  ∙ ap
                      (λ total.
                        blame_last D allgather test streams callers propagate_blame fuel col_enter
                          total b)
                      (add_blames-sum_waits entries u k))
            ∙ bind-done
                (distribute_blame D streams callers a.graph propagate_blame mpi_collective fuel
                  col_enter (sum_waits (last_enter entries) entries % u64) mpi_stream_walk_callback
                  a.blames)
                (λ r. record b { blames = r.1 }) (λ a'. (true, a')),
      )
