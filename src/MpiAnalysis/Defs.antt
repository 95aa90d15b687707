-- ===== src/MpiAnalysis/Defs.antt =====
-- class MPIAnalysis of src/analysis/MPIAnalysis.cpp. A map is a function of its keys. The MPI library
-- stands for itself: `comm_create` gives the communicator of a list of global ranks.
use casita.Prelude.{
  ℕ, ◌%◌, Bool, true, false, Option, none, some, List, [], ◌∷◌, ◌==◌, ltb, if◌then◌else◌, get_elem?,
}
use casita.Stream.Add.{put}
use casita.Engine.Defs.{Result, ok, raised, undefined, ◌>>=◌}

abbrev pub u32 : ℕ
u32 = 0x1_0000_0000

-- `MPI_Comm`; `unset` is the value of a group that no communicator was made for.
pub data Comm : Type 0 where
  unset comm_self comm_null : Comm
  created : ℕ → Comm

pub record CommGroup : Type 0 where
  pub comm : Comm
  pub procs : List ℕ

pub record RemoteNode : Type 0 where
  pub stream_id : ℕ
  pub node_id : ℕ

-- Remote nodes are stored by the identifier of the local node.
pub record MpiAnalysis : Type 0 where
  pub global_collective_counter : ℕ
  pub mpi_rank : ℕ
  pub mpi_size : ℕ
  pub stream_id_rank_map : ℕ → Option ℕ
  pub mpi_comm_group_map : ℕ → Option CommGroup
  pub remote_node_map : ℕ → Option RemoteNode

unfoldable pub new_mpi_analysis : ℕ → ℕ → MpiAnalysis
new_mpi_analysis rank size = record {
  global_collective_counter = 0;
  mpi_rank = rank;
  mpi_size = size;
  stream_id_rank_map = λ k. none;
  mpi_comm_group_map = λ k. none;
  remote_node_map = λ k. none;
}

unfoldable pub or_raised {ℓ} : {A : Type ℓ} → Option A → Result A
or_raised none = raised
or_raised (some a) = ok a

unfoldable pub or_undefined {ℓ} : {A : Type ℓ} → Option A → Result A
or_undefined none = undefined
or_undefined (some a) = ok a

-- The key of the map is a `uint32_t`.
unfoldable pub get_mpi_rank : ℕ → MpiAnalysis → Result ℕ
unfolding or_raised
get_mpi_rank stream_id m = or_raised (m.stream_id_rank_map (stream_id % u32))

unfoldable pub set_mpi_rank : ℕ → ℕ → MpiAnalysis → MpiAnalysis
unfolding put
set_mpi_rank stream_id rank m = record m {
  stream_id_rank_map = put m.stream_id_rank_map (stream_id % u32) (some rank);
}

-- The loop over the members of a group, with its counter.
unfoldable pub rank_loop : ℕ → ℕ → List ℕ → Result ℕ
rank_loop ctr stream_id [] = raised
rank_loop ctr stream_id (p ∷ procs) =
    if p == stream_id then ok ctr else rank_loop ctr stream_id procs

unfoldable pub get_mpi_rank_in : ℕ → CommGroup → Result ℕ
unfolding rank_loop
get_mpi_rank_in stream_id group = rank_loop 0 stream_id group.procs

unfoldable pub procs_of : Option CommGroup → List ℕ
procs_of none = []
procs_of (some group) = group.procs

-- The `int` rank is given by its conversion to `uint64_t`.
unfoldable pub get_stream_id : ℕ → ℕ → MpiAnalysis → Result ℕ
unfolding procs_of or_undefined
get_stream_id rank com_ref m = elim (m.mpi_comm_group_map com_ref) [
  | none ↦ ok rank
  | some group ↦
      if ltb rank 0x8000_0000_0000_0000
      then (or_undefined (get_elem? group.procs rank) >>= λ global_rank.
          or_undefined (get_elem? (procs_of (m.mpi_comm_group_map 0)) global_rank))
      else ok rank
]

unfoldable pub with_procs : List ℕ → Option CommGroup → CommGroup
with_procs procs none = record { comm = unset; procs = procs }
with_procs procs (some group) = record group { procs = procs }

unfoldable pub add_mpi_comm_group : ℕ → List ℕ → MpiAnalysis → MpiAnalysis
unfolding put with_procs
add_mpi_comm_group com_id procs m = record m {
  mpi_comm_group_map =
      put m.mpi_comm_group_map com_id (some (with_procs procs (m.mpi_comm_group_map com_id)));
}

unfoldable pub create_group : (List ℕ → Comm) → CommGroup → CommGroup
create_group comm_create group = elim group.procs [
  | [] ↦ record group { comm = comm_self }
  | p ∷ procs ↦ record group { comm = comm_create (p ∷ procs) }
]

unfoldable pub create_mpi_communicators_from_map : (List ℕ → Comm) → MpiAnalysis → MpiAnalysis
unfolding create_group
create_mpi_communicators_from_map comm_create m = record m {
  mpi_comm_group_map = λ k. elim (m.mpi_comm_group_map k) [
    | none ↦ none
    | some group ↦ some (create_group comm_create group)
  ];
}

unfoldable pub get_mpi_comm_group : ℕ → MpiAnalysis → Result CommGroup
unfolding or_raised
get_mpi_comm_group group m = or_raised (m.mpi_comm_group_map group)

unfoldable pub add_remote_mpi_edge : ℕ → ℕ → ℕ → MpiAnalysis → MpiAnalysis
unfolding put
add_remote_mpi_edge local_node remote_node_id remote_stream_id m = record m {
  remote_node_map =
      put m.remote_node_map local_node
        (some (record { stream_id = remote_stream_id; node_id = remote_node_id }));
}

-- The information, and `valid`.
unfoldable pub get_remote_node_info : ℕ → MpiAnalysis → RemoteNode × Bool
get_remote_node_info local_node m = elim (m.remote_node_map local_node) [
  | none ↦ (record { stream_id = 0; node_id = 0 }, false)
  | some remote ↦ (remote, true)
]

unfoldable pub remove_remote_node : ℕ → MpiAnalysis → MpiAnalysis
unfolding put
remove_remote_node local_node m = record m {
  remote_node_map = put m.remote_node_map local_node none;
}

unfoldable pub reset : MpiAnalysis → MpiAnalysis
reset m = record m { remote_node_map = λ k. none }
