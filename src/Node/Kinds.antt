-- ===== src/Node/Kinds.antt =====
-- What kind of event a node is: the predicates of class Node in
-- src/backend/include/graph/Node.hpp. Each asks for a paradigm and for a bit of the node type.
use casita.Prelude.{ℕ, String, Bool, false, ◌&&◌, ◌||◌, ◌==◌, if◌then◌else◌}
use text.Mathlib.Text.{◌==◌ as str_eq}
use casita.Node.Flags.{has_flag}
use casita.Node.Paradigm
use casita.Node.Misc
use casita.Node.Ofld
use casita.Node.Mpi
use casita.Node.Omp
use casita.Node.Defs.{Node, is_atomic, has_paradigm, has_type}

unfoldable pub is_cuda : Node → Bool
is_cuda n = has_paradigm n Paradigm.cuda

unfoldable pub is_opencl : Node → Bool
is_opencl n = has_paradigm n Paradigm.ocl

unfoldable pub is_ofld : Node → Bool
is_ofld n = has_paradigm n Paradigm.offload

unfoldable pub is_mpi : Node → Bool
is_mpi n = has_paradigm n Paradigm.mpi

unfoldable pub is_omp : Node → Bool
is_omp n = has_paradigm n Paradigm.omp

unfoldable pub is_offload_wait : Node → Bool
is_offload_wait n = is_ofld n && has_type n Ofld.wait

unfoldable pub is_offload_wait_all : Node → Bool
is_offload_wait_all n = is_ofld n && has_type n Ofld.wait_all

unfoldable pub is_offload_enqueue_kernel : Node → Bool
is_offload_enqueue_kernel n = is_ofld n && has_type n Ofld.enqueue_kernel

unfoldable pub is_offload_kernel : Node → Bool
is_offload_kernel n = is_ofld n && has_type n Ofld.task_kernel

unfoldable pub is_offload_wait_event : Node → Bool
is_offload_wait_event n = is_ofld n && has_type n Ofld.wait_evt

unfoldable pub is_offload_enqueue_transfer : Node → Bool
is_offload_enqueue_transfer n = is_ofld n && has_type n Ofld.enqueue_data

unfoldable pub is_cuda_kernel : Node → Bool
is_cuda_kernel n = is_cuda n && has_type n Ofld.task_kernel

unfoldable pub is_cuda_kernel_launch : Node → Bool
is_cuda_kernel_launch n = is_cuda n && has_type n Ofld.enqueue_kernel

unfoldable pub is_cuda_sync : Node → Bool
is_cuda_sync n = is_cuda n && has_type n Ofld.wait

unfoldable pub is_cuda_coll_sync : Node → Bool
is_cuda_coll_sync n = is_cuda n && has_type n Ofld.wait_all

unfoldable pub is_cuda_event_sync : Node → Bool
is_cuda_event_sync n = is_cuda n && has_type n Ofld.wait_evt

unfoldable pub is_cuda_event_launch : Node → Bool
is_cuda_event_launch n = is_cuda n && has_type n Ofld.enqueue_evt

unfoldable pub is_cuda_query : Node → Bool
is_cuda_query n = is_cuda n && has_type n Ofld.query

unfoldable pub is_cuda_event_query : Node → Bool
is_cuda_event_query n = is_cuda n && has_type n Ofld.query_evt

unfoldable pub is_cuda_stream_wait_event : Node → Bool
is_cuda_stream_wait_event n = is_cuda n && has_type n Ofld.enqueue_wait

unfoldable pub is_opencl_kernel : Node → Bool
is_opencl_kernel n = is_opencl n && has_type n Ofld.task_kernel

unfoldable pub is_opencl_kernel_enqueue : Node → Bool
is_opencl_kernel_enqueue n = is_opencl n && has_type n Ofld.enqueue_kernel

unfoldable pub is_mpi_recv : Node → Bool
is_mpi_recv n = is_mpi n && has_type n Mpi.recv

unfoldable pub is_mpi_send : Node → Bool
is_mpi_send n = is_mpi n && has_type n Mpi.send

unfoldable pub is_mpi_irecv : Node → Bool
is_mpi_irecv n = is_mpi n && has_type n Mpi.irecv

unfoldable pub is_mpi_isend : Node → Bool
is_mpi_isend n = is_mpi n && has_type n Mpi.isend

unfoldable pub is_mpi_test : Node → Bool
is_mpi_test n = is_mpi n && has_type n Mpi.test

unfoldable pub is_mpi_testall : Node → Bool
is_mpi_testall n = is_mpi n && has_type n Mpi.testall

unfoldable pub is_mpi_wait : Node → Bool
is_mpi_wait n = is_mpi n && has_type n Mpi.wait

unfoldable pub is_mpi_waitall : Node → Bool
is_mpi_waitall n = is_mpi n && has_type n Mpi.waitall

unfoldable pub is_mpi_init : Node → Bool
is_mpi_init n = is_mpi n && has_type n Mpi.init

unfoldable pub is_mpi_collective : Node → Bool
is_mpi_collective n = is_mpi n && has_type n Mpi.collective

unfoldable pub is_mpi_all_ranks : Node → Bool
is_mpi_all_ranks n = is_mpi n && has_type n Mpi.allranks

unfoldable pub is_mpi_one_to_all : Node → Bool
is_mpi_one_to_all n = is_mpi n && has_type n Mpi.onetoall

unfoldable pub is_mpi_all_to_one : Node → Bool
is_mpi_all_to_one n = is_mpi n && has_type n Mpi.alltoone

unfoldable pub is_mpi_send_recv : Node → Bool
is_mpi_send_recv n = is_mpi n && has_type n Mpi.sendrecv

unfoldable pub is_mpi_finalize : Node → Bool
is_mpi_finalize n = is_mpi n && has_type n Mpi.finalize

unfoldable pub is_mpi_blocking : Node → Bool
is_mpi_blocking n = is_mpi n && has_type n Mpi.blocking

unfoldable pub is_omp_sync : Node → Bool
is_omp_sync n = is_omp n && has_type n Omp.sync

unfoldable pub is_omp_fork_join : Node → Bool
is_omp_fork_join n = is_omp n && has_type n Omp.forkjoin

unfoldable pub is_omp_parallel : Node → Bool
is_omp_parallel n = is_omp n && has_type n Omp.parallel

unfoldable pub is_omp_implicit_task : Node → Bool
is_omp_implicit_task n = is_omp n && has_type n Omp.implicit_task

unfoldable pub is_omp_target : Node → Bool
is_omp_target n = is_omp n && has_type n Omp.target

unfoldable pub is_omp_target_flush : Node → Bool
is_omp_target_flush n = is_omp n && has_type n Omp.target_flush

unfoldable pub is_waitstate : Node → Bool
is_waitstate n =
    is_omp n && has_type n Omp.waitstate
    || is_ofld n && has_type n Ofld.waitstate
    || is_mpi n && has_type n Mpi.waitstate

abbrev pub name_waitstate : String
name_waitstate = "WaitState"

unfoldable pub is_pure_waitstate : Node → Bool
is_pure_waitstate n = is_waitstate n && str_eq n.name name_waitstate

unfoldable pub is_process : Node → Bool
is_process n = is_atomic n && has_type n Misc.process

unfoldable pub is_cuda_event_type : ℕ → ℕ → Bool
is_cuda_event_type paradigm type =
    has_flag paradigm Paradigm.cuda
    && (has_flag type Ofld.enqueue_evt
        || has_flag type Ofld.wait_evt
        || has_flag type Ofld.query_evt
        || has_flag type Ofld.enqueue_wait)

-- Does the node refer to events of the stream: it waits for all streams, or for this one.
unfoldable pub references_stream : Node → ℕ → Bool
references_stream n stream_id =
    if stream_id == n.stream_id
    then false
    else is_cuda_coll_sync n || n.referenced_stream == stream_id
