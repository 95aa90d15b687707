-- ===== src/Tests/StateTests.antt =====
-- Plain operations on nodes, streams and graphs that no other test runs.
use casita.Prelude.{◌≡◌, refl, true, false, none, some, [], ◌∷◌}
use casita.Node.Defs.{set_link, remove_counters, set_counter}
use casita.Graph.Defs.{empty, get_in_edges, thrown, add_edge, get_out_edges, update}
use casita.Stream.Defs.{
  EventStream, new_event_stream, set_filter, get_last_event_time, set_last_event_time, reset,
  get_first_paradigm_node, paradigm_index, log2_from, out_of_bounds,
}
use casita.Tests.Data.{send_enter, send_leave, send_edge}

-- A second link fails.
set_link_twice : set_link (record send_enter { link = some 4 }) (some 5) ≡ none
unfolding set_link
set_link_twice = refl

counters_removed : remove_counters (set_counter send_enter 1 5) ≡ send_enter
unfolding remove_counters set_counter
counters_removed = refl

in_edges_missing : get_in_edges empty 3 ≡ thrown
unfolding get_in_edges empty
in_edges_missing = refl

out_edges_added : get_out_edges (add_edge send_edge empty) 1 ≡ some (send_edge ∷ [])
unfolding get_out_edges add_edge update empty
out_edges_added = refl

abbrev fresh : EventStream
fresh = new_event_stream 0 0 "master" 3

-- Time between switching the filter on and off is added to the offset.
filter_offset : (set_filter (set_filter fresh true 10) false 25).prediction_offset ≡ 15
unfolding set_filter new_event_stream
filter_offset = refl

event_time : get_last_event_time (set_last_event_time fresh 12) ≡ 12
unfolding get_last_event_time set_last_event_time new_event_stream
event_time = refl

-- A single unlinked node survives the reset, two do not.
reset_one :
    (reset (record fresh { unlinked_mpi_nodes = send_enter ∷ [] })).unlinked_mpi_nodes
    ≡ send_enter ∷ []
unfolding reset
reset_one = refl

reset_two :
    (reset (record fresh { unlinked_mpi_nodes = send_enter ∷ send_leave ∷ [] })).unlinked_mpi_nodes
    ≡ []
unfolding reset
reset_two = refl

-- The paradigm of OpenMP tools has no entry in the table.
paradigm_outside : get_first_paradigm_node fresh 16 ≡ out_of_bounds
unfolding get_first_paradigm_node paradigm_index log2_from
paradigm_outside = refl
