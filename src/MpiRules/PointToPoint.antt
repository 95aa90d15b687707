-- ===== src/MpiRules/PointToPoint.antt =====
-- classes SendRule and RecvRule of src/analysis/include/mpi/SendRule.hpp and RecvRule.hpp there. What
-- MPI_Recv gives is an argument, the message of the partner, by communicator, tag and rank. The data
-- of a node are its tag and its communicator; `none` is NULL.
use casita.Prelude.{
  ℕ, ◌+◌, ◌-◌, ◌%◌, Bool, true, false, not, ◌&&◌, ◌||◌, Option, none, some, List, ◌==◌, ltb, leb,
  if◌then◌else◌,
}
use casita.Node.Flags.{has_flag}
use casita.Node.Mpi
use casita.Node.Defs.{Node, is_leave}
use casita.Node.Kinds.{is_mpi_send, is_mpi_recv}
use casita.Edge.Blame.{BlameReason, mpi_late_sender, mpi_late_receiver}
use casita.Engine.Defs.{sub64, get_edge}
use casita.MpiAnalysis.Defs.{u32, Comm, get_mpi_comm_group, get_stream_id, add_remote_mpi_edge}
use casita.Statistics.Defs.{count_activity, add_stat_with_count}
use casita.BlameDistribution.Callbacks.{mpi_stream_walk_callback}
use casita.BlameDistribution.Defs.{Outcome, done, invalid, ◌>>=◌, Double, distribute_blame}
use casita.MpiRules.Collective.{block_edge, of_result, of_option, Analysis, set_waiting}

-- The buffer of a message.
pub record Message : Type 0 where
  pub start_time : ℕ
  pub end_time : ℕ
  pub enter_id : ℕ
  pub leave_id : ℕ
  pub kind : ℕ

unfoldable pub message_of : ℕ → Node → Node → Message
message_of kind enter leave = record {
  start_time = enter.time;
  end_time = leave.time;
  enter_id = enter.id;
  leave_id = leave.id;
  kind = kind;
}

-- What a rule finds: it waits for the partner, is to blame for the partner's wait, or neither.
pub data Verdict : Type 0 where
  waits blamed : ℕ → Verdict
  balanced : Verdict

unfoldable pub recv_verdict : Message → Message → Verdict
unfolding sub64
recv_verdict recv send =
    if ltb recv.start_time send.start_time
    then waits (sub64 send.start_time recv.start_time)
    else if not (recv.start_time == send.start_time) && ltb recv.start_time send.end_time
    then blamed (sub64 recv.start_time send.start_time)
    else balanced

unfoldable pub send_verdict : Message → Message → Verdict
unfolding sub64
send_verdict send recv =
    if leb send.start_time recv.start_time
    then (if ltb send.start_time recv.start_time && ltb recv.start_time send.end_time
        then waits (sub64 recv.start_time send.start_time)
        else balanced)
    else if ltb send.start_time recv.end_time
    then blamed (sub64 send.start_time recv.start_time)
    else balanced

-- The conversion to `int`, and back to `uint64_t`.
unfoldable pub to_int : ℕ → ℕ
to_int n = if ltb (n % u32) 0x8000_0000 then n % u32 else n % u32 + (0x1_0000_0000_0000_0000 - u32)

abbrev pub stat_mpi_p2p : ℕ
stat_mpi_p2p = 1

abbrev pub mpi_stat_late_sender : ℕ
mpi_stat_late_sender = 19

abbrev pub mpi_stat_late_receiver : ℕ
mpi_stat_late_receiver = 21

module _ (D : Double) where
  unfoldable pub link_to_partner : ℕ → ℕ → ℕ → Node → Node → Analysis D → Outcome (Analysis D)
  unfolding get_edge block_edge add_remote_mpi_edge of_result
  link_to_partner remote_id rank com_ref enter leave a = elim (get_edge enter leave a.graph) [
    | none ↦ done a
    | some e ↦ of_result (get_stream_id rank com_ref a.mpi) >>= λ stream_id. done (record a {
      graph = block_edge enter.id leave.id a.graph;
      mpi = add_remote_mpi_edge leave.id remote_id stream_id a.mpi;
    })
  ]

  unfoldable pub wait_for_partner :
      ℕ → ℕ → ℕ → ℕ → ℕ → Node → Node → Analysis D → Outcome (Analysis D)
  unfolding link_to_partner set_waiting of_option
  wait_for_partner stat time remote_id rank com_ref enter leave a =
      link_to_partner remote_id rank com_ref enter leave a >>= λ linked.
      of_option (add_stat_with_count stat time 1 linked.statistics) >>= λ s.
      done (record linked { statistics = s; nodes = set_waiting D leave.id time linked.nodes })

  module _ (receive : Comm → ℕ → ℕ → Message) (streams : ℕ → List Node) (callers : ℕ → Option Node)
      (propagate_blame : Bool) (fuel : ℕ) where
    unfoldable pub blame_self : BlameReason → ℕ → Node → Analysis D → Outcome (Analysis D)
    blame_self reason blame enter a =
        distribute_blame D streams callers a.graph propagate_blame reason fuel enter blame
          mpi_stream_walk_callback a.blames
        >>= λ r. done (record a { blames = r.1 })

    -- The result of the rule is true.
    unfoldable pub settle :
        ℕ
        → BlameReason
        → ℕ
        → ℕ
        → ℕ
        → Node
        → Node
        → Verdict
        → Analysis D
        → Outcome (Bool × Analysis D)
    unfolding wait_for_partner blame_self
    settle stat reason remote_id rank com_ref enter leave (waits time) a =
        wait_for_partner stat time remote_id rank com_ref enter leave a >>= λ b. done (true, b)
    settle stat reason remote_id rank com_ref enter leave (blamed blame) a =
        blame_self reason blame enter a >>= λ b. done (true, b)
    settle stat reason remote_id rank com_ref enter leave balanced a = done (true, a)

    unfoldable pub receive_send : Node → ℕ → ℕ → Comm → Analysis D → Outcome (Bool × Analysis D)
    unfolding settle recv_verdict message_of
    receive_send leave tag com_ref comm a =
        let rank = to_int leave.referenced_stream in
        let send = receive comm tag rank in
        if not (has_flag send.kind Mpi.send || has_flag send.kind Mpi.isend)
        then done (false, a)
        else elim (a.nodes.pairs leave.id).first [
          | none ↦ invalid
          | some enter ↦
              settle mpi_stat_late_sender mpi_late_receiver send.enter_id rank com_ref enter leave
                (recv_verdict (message_of Mpi.recv enter leave) send) a
        ]

    unfoldable pub recv_rule : Node → Option (ℕ × ℕ) → Analysis D → Outcome (Bool × Analysis D)
    unfolding receive_send of_option of_result
    recv_rule leave tag_and_comm a =
        if not (is_mpi_recv leave) || not (is_leave leave)
        then done (false, a)
        else of_option (count_activity stat_mpi_p2p a.statistics) >>= λ s. elim tag_and_comm [
          | none ↦ invalid
          | some d ↦ of_result (get_mpi_comm_group d.1 a.mpi) >>= λ group.
              receive_send leave d.0 d.1 group.comm (record a { statistics = s })
        ]

    -- The answer of the receiver has another tag.
    unfoldable pub receive_answer :
        ℕ → Node → ℕ → ℕ → Comm → Analysis D → Outcome (Bool × Analysis D)
    unfolding settle send_verdict message_of
    receive_answer reverse_tag leave tag com_ref comm a = elim (a.nodes.pairs leave.id).first [
      | none ↦ invalid
      | some enter ↦
          let rank = to_int leave.referenced_stream in
          let recv = receive comm (tag + reverse_tag) rank in
          if not (has_flag recv.kind Mpi.recv || has_flag recv.kind Mpi.irecv)
          then done (false, a)
          else settle mpi_stat_late_receiver mpi_late_sender recv.leave_id rank com_ref enter leave
              (send_verdict (message_of Mpi.send enter leave) recv) a
    ]

    unfoldable pub send_rule : ℕ → Node → Option (ℕ × ℕ) → Analysis D → Outcome (Bool × Analysis D)
    unfolding receive_answer of_option of_result
    send_rule reverse_tag leave tag_and_comm a =
        if not (is_mpi_send leave) || not (is_leave leave)
        then done (false, a)
        else of_option (count_activity stat_mpi_p2p a.statistics) >>= λ s. elim tag_and_comm [
          | none ↦ invalid
          | some d ↦ of_result (get_mpi_comm_group d.1 a.mpi) >>= λ group.
              receive_answer reverse_tag leave d.0 d.1 group.comm (record a { statistics = s })
        ]
