-- ===== src/Tests/NodeTests.antt =====
-- The order and the counters of nodes: src/backend/include/graph/Node.hpp.
use casita.Prelude.{◌≡◌, ◌-◌, refl, true, arith}
use casita.Node.Metric
use casita.Node.Defs.{set_counter, inc_counter, get_counter, is_atomic, has_paradigm, has_type, u64}
use casita.Node.Flags.{has_flag}
use casita.Node.Kinds
use casita.Node.Order.{compare_less}
use casita.Node.OrderLaws.{IsPlain, compare_less_trans, IsCycle, compare_less_cycle}
use casita.Node.Counters.{get_counter-inc_counter}
use casita.Tests.Data.{send_enter, send_leave, wait_enter, kernel, other, device_wait}

-- A send is MPI and no collective; a kernel is a task of its device.
kinds_send : Kinds.is_mpi_send send_enter ≡ true
unfolding Kinds.is_mpi_send Kinds.is_mpi has_paradigm has_type has_flag
kinds_send = refl

kinds_kernel : Kinds.is_cuda_kernel kernel ≡ true
unfolding Kinds.is_cuda_kernel Kinds.is_cuda has_paradigm has_type has_flag
kinds_kernel = refl

compare_less_trans_example : compare_less send_enter wait_enter ≡ true
unfolding compare_less
compare_less_trans_example = compare_less_trans send_enter send_leave wait_enter refl refl refl refl

send_enter-IsPlain : IsPlain send_enter
unfolding has_paradigm has_type has_flag
send_enter-IsPlain = record { no_task = refl; no_exit = refl }

send_leave-IsPlain : IsPlain send_leave
unfolding has_paradigm has_type has_flag
send_leave-IsPlain = record { no_task = refl; no_exit = refl }

other-IsPlain : IsPlain other
unfolding has_paradigm has_type has_flag
other-IsPlain = record { no_task = refl; no_exit = refl }

tasks-IsCycle : IsCycle kernel device_wait other
unfolding has_paradigm has_type has_flag is_atomic
tasks-IsCycle = record {
  wait_time = refl;
  other_time = refl;
  wait_paradigm = refl;
  other_paradigm = refl;
  kernel_offload = refl;
  no_mpi = refl;
  kernel_started = refl;
  wait_started = refl;
  other_started = refl;
  kernel = refl;
  wait = refl;
  other_no_kernel = refl;
  other_no_wait = refl;
  above = omega arith;
  below = omega arith;
}

compare_less_cycle_example :
    (compare_less kernel device_wait ≡ true)
    × (compare_less device_wait other ≡ true)
    × (compare_less other kernel ≡ true)
compare_less_cycle_example = compare_less_cycle kernel device_wait other tasks-IsCycle

get_counter-inc_counter_example :
    get_counter
      (inc_counter (set_counter send_enter Metric.blame (u64 - 1)) Metric.blame 3)
      Metric.blame
    ≡ (2, true)
unfolding get_counter set_counter
get_counter-inc_counter_example =
    get_counter-inc_counter (set_counter send_enter Metric.blame (u64 - 1)) Metric.blame 3
      Metric.blame (omega arith)
