-- ===== src/Stream/Defs.antt =====
-- class EventStream of src/backend/EventStream.cpp: its fields and plain accessors. Nodes are held
-- by value; the links between them, which the stream sets, are in `Links`.
use casita.Prelude.{
  ℕ, zero, suc, ◌+◌, ◌-◌, ◌/◌, ◌%◌, ◌^◌, String, Bool, true, false, ◌&&◌, Option, none, some, List,
  [], ◌∷◌, ltb, leb, if◌then◌else◌, length,
}
use casita.Node.Flags.{has_flag}
use casita.Node.Defs.{Node, u64}
use casita.Node.Order.{compare_less}

pub record GraphData : Type 0 where
  pub first_node : Option Node
  pub last_node : Option Node

-- The array of NODE_PARADIGM_COUNT entries, by index.
abbrev pub GraphTable : Type 0
GraphTable = ℕ → GraphData

abbrev pub node_paradigm_count : ℕ
node_paradigm_count = 4

pub record EventStream : Type 0 where
  pub id : ℕ
  pub parent_id : ℕ
  pub name : String
  pub stream_type : ℕ
  pub nodes_added : Bool
  pub period_first : ℕ
  pub period_second : ℕ
  pub has_first_critical_node : Bool
  pub has_last_event : Bool
  pub last_node : Option Node
  pub last_event_time : ℕ
  pub graph_data : GraphTable
  pub nodes : List Node
  pub is_filtering : Bool
  pub filter_start_time : ℕ
  pub prediction_offset : ℕ
  pub unlinked_mpi_nodes : List Node

abbrev pub no_data : GraphData
no_data = record { first_node = none; last_node = none }

unfoldable pub new_event_stream : ℕ → ℕ → String → ℕ → EventStream
new_event_stream id parent_id name event_stream_type = record {
  id = id;
  parent_id = parent_id;
  name = name;
  stream_type = event_stream_type;
  nodes_added = false;
  period_first = u64 - 1;
  period_second = 0;
  has_first_critical_node = false;
  has_last_event = false;
  last_node = none;
  last_event_time = 0;
  graph_data = λ i. no_data;
  nodes = [];
  is_filtering = false;
  filter_start_time = 0;
  prediction_offset = 0;
  unlinked_mpi_nodes = [];
}

-- enum EventStreamType.
abbrev pub es_openmp : ℕ
es_openmp = 0x1

abbrev pub es_mpi : ℕ
es_mpi = 0x2

abbrev pub es_device : ℕ
es_device = 0x4

abbrev pub es_device_null : ℕ
es_device_null = 0x8

abbrev pub es_host : ℕ
es_host = 0x3

unfoldable pub set_stream_type : EventStream → ℕ → EventStream
set_stream_type s type = record s { stream_type = type }

unfoldable pub is_host_stream : EventStream → Bool
is_host_stream s = has_flag s.stream_type es_host

unfoldable pub is_mpi_stream : EventStream → Bool
is_mpi_stream s = has_flag s.stream_type es_mpi

unfoldable pub is_device_stream : EventStream → Bool
is_device_stream s = has_flag s.stream_type 0xc

unfoldable pub is_device_null_stream : EventStream → Bool
is_device_null_stream s = has_flag s.stream_type es_device_null

-- The comparison function of `EventStream::streamSort`.
unfoldable pub stream_sort : EventStream → EventStream → Bool
stream_sort p1 p2 =
    if is_device_stream p1 && is_host_stream p2
    then false
    else if is_device_stream p2 && is_host_stream p1
    then true
    else leb p1.id p2.id

unfoldable pub set_last_event_time : EventStream → ℕ → EventStream
set_last_event_time s time = record s { last_event_time = time }

unfoldable pub get_last_event_time : EventStream → ℕ
get_last_event_time s =
    if ltb s.period_second s.last_event_time then s.last_event_time else s.period_second

unfoldable pub clear_nodes : EventStream → EventStream
clear_nodes s = record s { nodes = []; graph_data = λ i. no_data; last_node = none }

unfoldable pub set_filter : EventStream → Bool → ℕ → EventStream
set_filter s true time = record s { is_filtering = true; filter_start_time = time }
set_filter s false time = record s {
  is_filtering = false;
  prediction_offset = (s.prediction_offset + (time + u64 - s.filter_start_time)) % u64;
}

-- A single MPI node that is still unlinked stays on the list.
unfoldable pub reset : EventStream → EventStream
reset s = record s {
  nodes_added = false;
  unlinked_mpi_nodes = if ltb 1 (length s.unlinked_mpi_nodes) then [] else s.unlinked_mpi_nodes;
}

-- `(int)log2( (double)paradigm )`, on fuel that is never used up.
unfoldable pub log2_from : ℕ → ℕ → ℕ
log2_from zero n = 0
log2_from (suc fuel) n = let rest = log2_from fuel (n / 2) in if ltb n 2 then 0 else suc rest

unfoldable pub paradigm_index : ℕ → ℕ
unfolding log2_from
paradigm_index paradigm = log2_from paradigm paradigm

-- `getLastParadigmNode` and `getFirstParadigmNode`. An index beyond the array is a fault.
pub data Read : Type 0 where
  value : Option Node → Read
  out_of_bounds : Read

unfoldable pub get_last_paradigm_node : EventStream → ℕ → Read
unfolding paradigm_index
get_last_paradigm_node s paradigm =
    let i = paradigm_index paradigm in
    if ltb i node_paradigm_count then value (s.graph_data i).last_node else out_of_bounds

unfoldable pub get_first_paradigm_node : EventStream → ℕ → Read
unfolding paradigm_index
get_first_paradigm_node s paradigm =
    let i = paradigm_index paradigm in
    if ltb i node_paradigm_count then value (s.graph_data i).first_node else out_of_bounds

-- `getLastNode( paradigm )`: first the lowest paradigm with a last node, then any later one.
unfoldable pub later_of : Node → Option Node → Node
later_of found none = found
later_of found (some other) = if compare_less found other then other else found

unfoldable pub last_from : EventStream → ℕ → Option Node → List ℕ → Option Node
unfolding later_of
last_from s paradigm found [] = found
last_from s paradigm found (i ∷ rest) =
    let candidate = if has_flag paradigm (2 ^ i) then (s.graph_data i).last_node else none in
    last_from s paradigm (elim found [ none ↦ candidate | some n ↦ some (later_of n candidate) ])
      rest

abbrev pub paradigm_indices : List ℕ
paradigm_indices = 0 ∷ 1 ∷ 2 ∷ 3 ∷ []

unfoldable pub get_last_node_of : EventStream → ℕ → Option Node
unfolding last_from
get_last_node_of s paradigm = last_from s paradigm none paradigm_indices
