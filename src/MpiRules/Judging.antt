-- ===== src/MpiRules/Judging.antt =====
-- How the rule for collectives gets to the comparison of the ranks:
-- src/analysis/include/mpi/CollectiveRule.hpp.
use casita.Prelude.{ℕ, ◌%◌, ◌≡◌, ◌≢◌, refl, Bool, true, false, Option, some, List, ◌==◌, arith}
use casita.Node.Defs.{Node, is_leave}
use casita.Node.Kinds.{is_mpi_collective, is_mpi_init}
use casita.Stream.Add.{put}
use casita.Engine.Defs.{ok}
use casita.MpiStream.Defs.{MpiStream}
use casita.MpiStream.Handlers.{State}
use casita.MpiStream.Requests.{test_all_pending_mpi_requests}
use casita.MpiAnalysis.Defs.{u32, Comm, CommGroup, get_mpi_comm_group, or_raised}
use casita.Statistics.Defs.{Statistics, count_activity}
use casita.Statistics.Sized.{IsSized, count_activity-IsSized}
use casita.BlameDistribution.Defs.{Outcome, done, failed, invalid, out_of_fuel, ◌>>=◌, Double}
use casita.MpiRules.Collective.{
  Entry, last_enter, add_blames, of_result, of_option, is_self, stat_mpi_collective, Analysis,
  send_buffer, wait_for_last, test_open, blame_last, judge, exchange, collective_rule,
}

pub bind-done :
    {A B C : Type 0} (o : Outcome A) (f : A → B) (g : B → C)
    → ((o >>= λ a. done (f a)) >>= λ b. done (g b)) ≡ (o >>= λ a. done (g (f a)))
bind-done (done a) f g = refl
bind-done failed f g = refl
bind-done invalid f g = refl
bind-done out_of_fuel f g = refl

module _ (D : Double) where
  -- The state of the rule when it compares the ranks.
  unfoldable pub at_exchange : Node → State → Statistics → Analysis D → Analysis D
  at_exchange col_leave st counted a = record a {
    statistics = counted;
    mpi_streams = put a.mpi_streams col_leave.stream_id (some st.0);
    nodes = st.1;
  }

  -- The leave of a collective other than MPI_Init on a rank of a known group that is not
  -- MPI_COMM_SELF. Its stream can test its requests, and it has an enter, whose time is in the
  -- buffers of all ranks.
  pub record IsCollective (test : ℕ → Bool) (col_enter col_leave : Node) (st : State)
      (group : CommGroup) (a : Analysis D) : Type 0 where
    pub collective : is_mpi_collective col_leave ≡ true
    pub at_leave : is_leave col_leave ≡ true
    pub not_init : is_mpi_init col_leave ≡ false
    pub sized : IsSized a.statistics
    pub stream : MpiStream
    pub found : a.mpi_streams col_leave.stream_id ≡ some stream
    pub tested : test_all_pending_mpi_requests test (stream, a.nodes) ≡ ok st
    pub known : a.mpi.mpi_comm_group_map (col_leave.referenced_stream % u32) ≡ some group
    pub not_self : is_self group.comm ≡ false
    pub paired : (st.1.pairs col_leave.id).first ≡ some col_enter

module _ (D : Double) (allgather : Comm → Entry → List Entry) (test : ℕ → Bool)
    (streams : ℕ → List Node) (callers : ℕ → Option Node) (propagate_blame : Bool) (fuel : ℕ) where
  pub rule-judge :
      (col_enter col_leave : Node) (st : State) (group : CommGroup) (a : Analysis D)
      → IsCollective D test col_enter col_leave st group a
      → (counted : Statistics) × IsSized counted
        × (count_activity stat_mpi_collective a.statistics ≡ some counted)
        × (collective_rule D allgather test streams callers propagate_blame fuel col_leave a ≡ (
            judge D allgather test streams callers propagate_blame fuel col_enter col_leave
              (allgather group.comm (send_buffer col_enter col_leave))
              (at_exchange D col_leave st counted a)
            >>= λ a'. done (true, a')))
  unfolding collective_rule test_open exchange get_mpi_comm_group or_raised of_result of_option
      at_exchange
  rule-judge col_enter col_leave st group a c =
      let (counted, e, sized) = count_activity-IsSized 0 a.statistics (omega arith) c.sized in
      (
        counted,
        sized,
        e,
        rw
            (
              c.collective, c.at_leave, e, of_option, test_open, c.not_init, c.found, c.tested,
              of_result, c.known, get_mpi_comm_group, or_raised, exchange, c.not_self, c.paired,
            )
            refl,
      )

  pub judge-other :
      (col_enter col_leave : Node) (entries : List Entry) (a : Analysis D)
      → (last_enter entries).process_id ≢ col_leave.stream_id
      → judge D allgather test streams callers propagate_blame fuel col_enter col_leave entries a
        ≡ wait_for_last D col_enter col_leave (last_enter entries) a
  unfolding judge
  judge-other col_enter col_leave entries a h =
      let other : ((last_enter entries).process_id == col_leave.stream_id) ≡ false =
        ground (arith, h) in
      rw (other, judge) refl

  pub judge-own :
      (col_enter col_leave : Node) (entries : List Entry) (a : Analysis D)
      → (last_enter entries).process_id ≡ col_leave.stream_id
      → judge D allgather test streams callers propagate_blame fuel col_enter col_leave entries a
        ≡ blame_last D allgather test streams callers propagate_blame fuel col_enter
            (add_blames (last_enter entries).time 0 entries)
            a
  unfolding judge
  judge-own col_enter col_leave entries a h =
      let own : ((last_enter entries).process_id == col_leave.stream_id) ≡ true =
        ground (arith, h) in
      rw (own, judge) refl
